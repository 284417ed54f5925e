-- ===== src/Protocol/Frame/Safety.antt =====
-- Partial frames.
use inerceptor_command_sim.Base.{
  ℕ, ◌+◌, ◌≤◌, ◌<◌, ◌≡◌, ap, ◌∙◌, ◌⊎◌, inl, inr, Bool-cases, true, false, none, ltb, arith, length,
  take, get_or-take, length-take,
}
use inerceptor_command_sim.Base.Result.{ok, throws}
use inerceptor_command_sim.Base.Text.{Text, bytes}
use inerceptor_command_sim.Base.Word.{u32_mod, add32}
use inerceptor_command_sim.Protocol.Frame.{read_u32, encode_binary_frame, try_decode_binary_frame}
use inerceptor_command_sim.Protocol.Frame.RoundTrip.{word_at, read_u32-word_at, frame_facts}

pub word_at-take : (xs : Text) (n i : ℕ) → i + 4 ≤ n → word_at (take n xs) i ≡ word_at xs i
unfolding word_at
word_at-take xs n i h = omega (
  arith,
  get_or-take xs n i 0 (omega arith),
  get_or-take xs n (i + 1) 0 (omega arith),
  get_or-take xs n (i + 2) 0 (omega arith),
  get_or-take xs n (i + 3) 0 (omega arith),
)

wait_for_kind :
    (b : Text) (kind_size : ℕ)
    → read_u32 b 0 ≡ ok kind_size
    → 8 ≤ length b
    → 8 + kind_size < u32_mod
    → length b < 8 + kind_size
    → try_decode_binary_frame b ≡ ok (none, b)
unfolding try_decode_binary_frame
wait_for_kind b kind_size r1 long fits short =
    let t1 : ltb (length b) 8 ≡ false = ground arith in
    let o : add32 (add32 4 kind_size) 4 ≡ 8 + kind_size = omega arith in
    let t2 : ltb (length b) (8 + kind_size) ≡ true = ground arith in rw (t1, r1, o, t2)

wait_for_payload :
    (b : Text) (kind_size payload_size : ℕ)
    → read_u32 b 0 ≡ ok kind_size
    → read_u32 b (4 + kind_size) ≡ ok payload_size
    → 8 + kind_size ≤ length b
    → 8 + kind_size + payload_size < u32_mod
    → length b < 8 + kind_size + payload_size
    → try_decode_binary_frame b ≡ ok (none, b)
unfolding try_decode_binary_frame
wait_for_payload b kind_size payload_size r1 r2 long fits short =
    let t1 : ltb (length b) 8 ≡ false = ground arith in
    let o1 : add32 4 kind_size ≡ 4 + kind_size = omega arith in
    let o2 : add32 (4 + kind_size) 4 ≡ 8 + kind_size = omega arith in
    let t2 : ltb (length b) (8 + kind_size) ≡ false = ground arith in
    let o3 : add32 (8 + kind_size) payload_size ≡ 8 + kind_size + payload_size = omega arith in
    let t3 : ltb (length b) (8 + kind_size + payload_size) ≡ true = ground arith in
    rw (t1, r1, o1, o2, t2, r2, o3, t3)

pub wait_for_header : (b : Text) → length b < 8 → try_decode_binary_frame b ≡ ok (none, b)
unfolding try_decode_binary_frame
wait_for_header b h = let t : ltb (length b) 8 ≡ true = ground arith in rw t

-- While only a proper prefix of a message's frame (shorter than 2^32 bytes) has arrived, nothing is
-- decoded and the buffer is kept.
pub try_decode_binary_frame-prefix :
    (k p : Text) (n : ℕ)
    → length k + length p + 8 < u32_mod
    → n < length (encode_binary_frame k p)
    → let b = take n (encode_binary_frame k p) in try_decode_binary_frame b ≡ ok (none, b)
try_decode_binary_frame-prefix k p n fits short =
    let f = encode_binary_frame k p in
    let facts = frame_facts k p fits in
    let len : length (take n f) ≡ n = length-take f n (omega arith) in
    elim (split n (length k)) [
      | inl few ↦ wait_for_header (take n f) (omega arith)
      | inr (inl (some_bytes, few)) ↦
          wait_for_kind (take n f) (length k)
            (read_u32-word_at (take n f) 0 (omega arith)
              ∙ ap ok (word_at-take f n 0 (omega arith) ∙ facts.1))
            (omega arith) (omega arith) (omega arith)
      | inr (inr enough) ↦
          wait_for_payload (take n f) (length k) (length p)
            (read_u32-word_at (take n f) 0 (omega arith)
              ∙ ap ok (word_at-take f n 0 (omega arith) ∙ facts.1))
            (read_u32-word_at (take n f) (4 + length k) (omega arith)
              ∙ ap ok (word_at-take f n (4 + length k) (omega arith) ∙ facts.2))
            (omega arith) (omega arith) (omega arith)
    ]
  where
    split : (n m : ℕ) → (n < 8) ⊎ (((8 ≤ n) × (n < 8 + m)) ⊎ (8 + m ≤ n))
    split n m = grind arith

read_u32-cases :
    (f : Text) (i : ℕ)
    → (read_u32 f i ≡ throws (bytes "binary frame too short")) ⊎ (read_u32 f i ≡ ok (word_at f i))
unfolding read_u32 word_at
read_u32-cases f i = elim (Bool-cases (ltb (length f) (i + 4))) [
  | inl short ↦ inl (rw short)
  | inr long ↦ inr (rw long)
]
