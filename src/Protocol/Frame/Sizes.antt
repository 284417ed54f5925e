-- ===== src/Protocol/Frame/Sizes.antt =====
-- Buffers of bytes, whatever sizes they announce.
use inerceptor_command_sim.Base.{
  ℕ, ◌+◌, ◌-◌, ◌≢◌, ◌≤◌, ◌<◌, ◌≡◌, ap, ◌∙◌, sym, refl, ◌⊎◌, inl, inr, Bool-cases, ltb, arith,
  length, take, length-take, get_or, All, [], ◌∷◌, zero, suc, ◌*◌, ◌^◌,
}
use inerceptor_command_sim.Base.Result.{Result, ok, throws, undefined}
use inerceptor_command_sim.Base.Text.{Text, bytes}
use inerceptor_command_sim.Base.Word.{u32_mod, add32}
use inerceptor_command_sim.Protocol.Frame.{read_u32, decode_binary_frame, try_decode_binary_frame}
use inerceptor_command_sim.Protocol.Frame.RoundTrip.{word_at, decode_parts, read_u32-word_at}
use inerceptor_command_sim.Protocol.Frame.Safety.{word_at-take, wait_for_header}

split : (n : ℕ) → (n < u32_mod) ⊎ (u32_mod ≤ n)
split n = grind arith

Result-cases {ℓ} :
    {A : Type ℓ} (r : Result A)
    → ((x : A) × (r ≡ ok x)) ⊎ (((e : Text) × (r ≡ throws e)) ⊎ (r ≡ undefined))
Result-cases (ok x) = inl (x, refl)
Result-cases (throws e) = inr (inl (e, refl))
Result-cases undefined = inr (inr refl)

read_beyond :
    (f : Text) (i : ℕ) → length f < i + 4 → read_u32 f i ≡ throws (bytes "binary frame too short")
unfolding read_u32
read_beyond f i h = ground arith

decode_headless :
    (f : Text)
    → read_u32 f 0 ≡ throws (bytes "binary frame too short")
    → decode_binary_frame f ≢ undefined
unfolding decode_binary_frame
decode_headless f few = rw few (λ e. cc)

decode_sizeless :
    (f : Text) (kind_size : ℕ)
    → read_u32 f 0 ≡ ok kind_size
    → read_u32 f (add32 4 kind_size) ≡ throws (bytes "binary frame too short")
    → decode_binary_frame f ≢ undefined
unfolding decode_binary_frame
decode_sizeless f kind_size r1 few = rw (r1, few) (λ e. cc)

-- A frame that ends before its second size is refused.
decode_short :
    (b : Text) (n : ℕ)
    → n ≤ length b
    → n < add32 4 (word_at b 0) + 4
    → decode_binary_frame (take n b) ≢ undefined
decode_short b n inside short =
    let len : length (take n b) ≡ n = length-take b n inside in
    elim (split n) [
      | inl few ↦ decode_headless (take n b) (read_beyond (take n b) 0 (omega arith))
      | inr many ↦
          decode_sizeless (take n b) (word_at b 0)
            (read_u32-word_at (take n b) 0 (omega arith) ∙ ap ok (word_at-take b n 0 many))
            (read_beyond (take n b) (add32 4 (word_at b 0)) (omega arith))
    ]
  where
    split : (n : ℕ) → (n < 4) ⊎ (4 ≤ n)
    split n = grind arith

-- A frame of the announced size is decoded.
decode_whole :
    (b : Text) (k p : ℕ)
    → k ≡ word_at b 0
    → p ≡ word_at b (4 + k)
    → 8 + k < u32_mod
    → 8 + k + p ≤ length b
    → decode_binary_frame (take (8 + k + p) b) ≢ undefined
decode_whole b k p ek ep fits inside =
    let n = 8 + k + p in
    let f = take n b in
    let len : length f ≡ n = length-take b n inside in
    let whole =
      decode_parts f _ _ k p
        (read_u32-word_at f 0 (omega arith) ∙ ap ok (word_at-take b n 0 (omega arith) ∙ sym ek))
        (read_u32-word_at f (4 + k) (omega arith)
          ∙ ap ok (word_at-take b n (4 + k) (omega arith) ∙ sym ep))
        refl refl fits (omega arith) in
    rw whole (λ e. cc)

-- What is left once both sizes are read.
try_decode_sized :
    (b : Text) (k o p n : ℕ)
    → read_u32 b 0 ≡ ok k
    → add32 4 k ≡ o
    → read_u32 b o ≡ ok p
    → add32 (add32 o 4) p ≡ n
    → (n ≤ length b → decode_binary_frame (take n b) ≢ undefined)
    → try_decode_binary_frame b ≢ undefined
unfolding try_decode_binary_frame
try_decode_sized b k o p n r1 eo r2 en h = elim (Bool-cases (ltb (length b) 8)) [
  | inl t1 ↦ rw t1 (λ e. cc)
  | inr t1 ↦ elim (Bool-cases (ltb (length b) (add32 o 4))) [
    | inl t2 ↦ rw (t1, r1, eo, t2) (λ e. cc)
    | inr t2 ↦ elim (Bool-cases (ltb (length b) n)) [
      | inl t3 ↦ rw (t1, r1, eo, t2, r2, en, t3) (λ e. cc)
      | inr t3 ↦ elim (Result-cases (decode_binary_frame (take n b))) [
        | inl (m, d) ↦ rw (t1, r1, eo, t2, r2, en, t3, d) (λ e. cc)
        | inr (inl (e, d)) ↦ rw (t1, r1, eo, t2, r2, en, t3, d) (λ e. cc)
        | inr (inr d) ↦ absurd (h (ground (arith, t3)) d)
      ]
    ]
  ]
]

-- The second size lies behind the end of the buffer.
try_decode_sizeless :
    (b : Text) (k : ℕ)
    → read_u32 b 0 ≡ ok k
    → read_u32 b (add32 4 k) ≡ throws (bytes "binary frame too short")
    → try_decode_binary_frame b ≢ undefined
unfolding try_decode_binary_frame
try_decode_sizeless b k r1 few = elim (Bool-cases (ltb (length b) 8)) [
  | inl t1 ↦ rw t1 (λ e. cc)
  | inr t1 ↦ elim (Bool-cases (ltb (length b) (add32 (add32 4 k) 4))) [
    | inl t2 ↦ rw (t1, r1, t2) (λ e. cc)
    | inr t2 ↦ rw (t1, r1, t2, few) (λ e. cc)
  ]
]

try_decode_few : (b : Text) → length b < 8 → try_decode_binary_frame b ≢ undefined
try_decode_few b h = rw (wait_for_header b h) (λ e. cc)

get_or-bytes : (f : Text) (i : ℕ) → All (λ b. b < 256) f → get_or f i 0 < 256
get_or-bytes [] i h = omega arith
get_or-bytes (b ∷ f) zero h = h.0
get_or-bytes (b ∷ f) (suc i) h = get_or-bytes f i h.1

-- Where 4 + kind_size wraps, the size of the payload is read from inside the first four bytes, and
-- its first byte is 255.
wrapped_payload_size :
    (f : Text) (i : ℕ)
    → All (λ b. b < 256) f
    → i + u32_mod ≡ 4 + word_at f 0
    → i < 4
    → 255 * 2 ^ 24 ≤ word_at f i
unfolding word_at
wrapped_payload_size f i h wraps small =
    let b0 = get_or-bytes f 0 h in
    let b1 = get_or-bytes f 1 h in
    let b2 = get_or-bytes f 2 h in
    let b3 = get_or-bytes f 3 h in
    elim (which i small) [
      | inl e ↦ rw e (omega arith)
      | inr (inl e) ↦ rw e (omega arith)
      | inr (inr (inl e)) ↦ rw e (omega arith)
      | inr (inr (inr e)) ↦ rw e (omega arith)
    ]
  where
    which : (i : ℕ) → i < 4 → (i ≡ 0) ⊎ ((i ≡ 1) ⊎ ((i ≡ 2) ⊎ (i ≡ 3)))
    which i h = grind arith

word_at-bytes : (f : Text) (i : ℕ) → All (λ b. b < 256) f → word_at f i < u32_mod
unfolding word_at
word_at-bytes f i h =
    let b0 = get_or-bytes f i h in
    let b1 = get_or-bytes f (i + 1) h in
    let b2 = get_or-bytes f (i + 2) h in let b3 = get_or-bytes f (i + 3) h in omega arith

-- A kind size that does not wrap.
try_decode_unwrapped :
    (b : Text) (k p : ℕ)
    → k ≡ word_at b 0
    → p ≡ word_at b (4 + k)
    → 8 + k < u32_mod
    → p < u32_mod
    → read_u32 b 0 ≡ ok k
    → read_u32 b (4 + k) ≡ ok p
    → try_decode_binary_frame b ≢ undefined
try_decode_unwrapped b k p ek ep fits small r1 r2 =
    let o1 : add32 4 k ≡ 4 + k = omega arith in
    let o1' : add32 4 (word_at b 0) ≡ 4 + k = omega arith in
    elim (split (8 + k + p)) [
      | inl unwrapped ↦
          try_decode_sized b k (4 + k) p (8 + k + p) r1 o1 r2 (omega arith)
            (decode_whole b k p ek ep fits)
      | inr wraps ↦
          try_decode_sized b k (4 + k) p (8 + k + p - u32_mod) r1 o1 r2 (omega arith)
            (λ inside. decode_short b (8 + k + p - u32_mod) inside (omega arith))
    ]

-- A kind size whose offset wraps: the size of the payload is then so large that the frame either is
-- not there or, wrapped again, ends before the second size.
try_decode_wrapped :
    (b : Text) (k p : ℕ)
    → k ≡ word_at b 0
    → p ≡ word_at b (4 + k - u32_mod)
    → length b < 255 * 2 ^ 24
    → u32_mod ≤ 4 + k
    → k < u32_mod
    → p < u32_mod
    → 255 * 2 ^ 24 ≤ p
    → read_u32 b 0 ≡ ok k
    → read_u32 b (4 + k - u32_mod) ≡ ok p
    → try_decode_binary_frame b ≢ undefined
try_decode_wrapped b k p ek ep short wraps fits small large r1 r2 =
    let o = 4 + k - u32_mod in
    let o1 : add32 4 k ≡ o = omega arith in
    let o1' : add32 4 (word_at b 0) ≡ o = omega arith in
    elim (split (o + 4 + p)) [
      | inl unwrapped ↦
          try_decode_sized b k o p (o + 4 + p) r1 o1 r2 (omega arith)
            (λ inside. absurd (omega arith))
      | inr again ↦
          try_decode_sized b k o p (o + 4 + p - u32_mod) r1 o1 r2 (omega arith)
            (λ inside. decode_short b (o + 4 + p - u32_mod) inside (omega arith))
    ]

-- Whatever sizes a buffer of bytes announces, try_decode_binary_frame takes a message, waits or
-- throws: it forms no iterator outside the frame that it decodes, as long as the buffer is shorter
-- than 255 * 2^24 bytes.
pub try_decode_binary_frame_defined :
    (b : Text)
    → All (λ c. c < 256) b
    → length b < 255 * 2 ^ 24
    → try_decode_binary_frame b ≢ undefined
try_decode_binary_frame_defined b h short =
    let k = word_at b 0 in
    let small = word_at-bytes b 0 h in
    elim (split_at (length b)) [
      | inl few ↦ try_decode_few b few
      | inr many ↦
          let r1 = read_u32-word_at b 0 (omega arith) in
          let o1 : 4 + k < u32_mod → add32 4 k ≡ 4 + k = λ fits. omega arith in
          elim (split (4 + k)) [
            | inl fits ↦ elim (split_beyond (length b) (8 + k)) [
              | inl few ↦
                  try_decode_sizeless b k r1 (rw (o1 fits) (read_beyond b (4 + k) (omega arith)))
              | inr there ↦
                  try_decode_unwrapped b k (word_at b (4 + k)) refl refl (omega arith)
                    (word_at-bytes b (4 + k) h) r1 (read_u32-word_at b (4 + k) (omega arith))
            ]
            | inr wraps ↦
                let o = 4 + k - u32_mod in
                try_decode_wrapped b k (word_at b o) refl refl short wraps small
                  (word_at-bytes b o h) (wrapped_payload_size b o h (omega arith) (omega arith)) r1
                  (read_u32-word_at b o (omega arith))
          ]
    ]
  where
    split_at : (n : ℕ) → (n < 8) ⊎ (8 ≤ n)
    split_at n = grind arith

    split_beyond : (n m : ℕ) → (n < m) ⊎ (m ≤ n)
    split_beyond n m = grind arith
