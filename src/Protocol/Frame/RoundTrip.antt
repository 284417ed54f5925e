-- ===== src/Protocol/Frame/RoundTrip.antt =====
-- What the binary frame codec promises.
use inerceptor_command_sim.Base.{
  ℕ, ◌+◌, ◌-◌, ◌*◌, ◌/◌, ◌%◌, ◌^◌, ◌≤◌, ◌<◌, ◌≡◌, refl, ap, ◌∙◌, [], ◌++◌, some, ltb, false, arith,
  length, take, drop, get_or, length-append, get_or-append, take-length_append, drop-length_append,
}
use native.Mathlib.Nat.{add-zero}
use mathlib.Core.List.{append_assoc, append-nil}
use inerceptor_command_sim.Base.Result.{ok}
use inerceptor_command_sim.Base.Text.{Text}
use inerceptor_command_sim.Base.Word.{u32_mod, add32}
use inerceptor_command_sim.Protocol.Frame.{
  FramedMessage, u32_bytes, read_u32, encode_binary_frame, iterator, slice, decode_binary_frame,
  try_decode_binary_frame,
}

bytes_of_u32 :
    (v : ℕ)
    → v < u32_mod
    → v / 2 ^ 24 % 256 * 2 ^ 24 + v / 2 ^ 16 % 256 * 2 ^ 16 + v / 2 ^ 8 % 256 * 2 ^ 8 + v % 256 ≡ v
bytes_of_u32 v h = omega arith

-- The four bytes at an offset, where they are there.
unfoldable pub word_at : Text → ℕ → ℕ
word_at xs i =
    get_or xs i 0 * 2 ^ 24
    + get_or xs (i + 1) 0 * 2 ^ 16
    + get_or xs (i + 2) 0 * 2 ^ 8
    + get_or xs (i + 3) 0

pub read_u32-word_at : (xs : Text) (i : ℕ) → i + 4 ≤ length xs → read_u32 xs i ≡ ok (word_at xs i)
unfolding read_u32 word_at
read_u32-word_at xs i h = ground arith

word_at-append :
    (pre rest : Text) (v : ℕ)
    → v < u32_mod
    → word_at (pre ++ (u32_bytes v ++ rest)) (length pre) ≡ v
unfolding word_at u32_bytes
word_at-append pre rest v h =
    let ys = u32_bytes v ++ rest in
    omega (
      arith,
      bytes_of_u32 v h,
      rw add-zero at (get_or-append pre ys 0 0),
      get_or-append pre ys 1 0,
      get_or-append pre ys 2 0,
      get_or-append pre ys 3 0,
    )

length-u32_bytes : (v : ℕ) → length (u32_bytes v) ≡ 4
unfolding u32_bytes
length-u32_bytes v = refl

slice_mid :
    (pre mid rest : Text)
    → slice (pre ++ (mid ++ rest)) (length pre) (length pre + length mid) ≡ mid
unfolding slice
slice_mid pre mid rest =
    let size : length pre + length mid - length pre ≡ length mid = omega arith in
    rw (size, drop-length_append pre (mid ++ rest)) (take-length_append mid rest)

pub iterator_inside : (f : Text) (n : ℕ) → n ≤ length f → iterator f n ≡ ok n
unfolding iterator
iterator_inside f n h = ground arith

-- The sizes in std::uint32_t, where they do not wrap.
offsets :
    (kind_size : ℕ)
    → 8 + kind_size < u32_mod
    → (add32 4 kind_size ≡ 4 + kind_size) × (add32 (4 + kind_size) 4 ≡ 8 + kind_size)
offsets kind_size h = (omega arith, omega arith)

pub decode_parts :
    (f k p : Text) (kind_size payload_size : ℕ)
    → read_u32 f 0 ≡ ok kind_size
    → read_u32 f (4 + kind_size) ≡ ok payload_size
    → slice f 4 (4 + kind_size) ≡ k
    → slice f (8 + kind_size) (8 + kind_size + payload_size) ≡ p
    → 8 + kind_size < u32_mod
    → 8 + kind_size + payload_size ≤ length f
    → decode_binary_frame f ≡ ok (record { kind = k; payload = p })
unfolding decode_binary_frame
decode_parts f k p kind_size payload_size r1 r2 s1 s2 fits whole =
    let o = offsets kind_size fits in
    let no_truncation : ltb (length f) (8 + kind_size + payload_size) ≡ false = ground arith in
    rw (
      r1,
      o.0,
      r2,
      o.1,
      iterator_inside f 4 (omega arith),
      iterator_inside f (4 + kind_size) (omega arith),
      iterator_inside f (8 + kind_size) (omega arith),
      iterator_inside f (8 + kind_size + payload_size) whole,
      no_truncation,
      s1,
      s2,
    )

try_parts :
    (b rest : Text) (m : FramedMessage) (kind_size payload_size : ℕ)
    → read_u32 b 0 ≡ ok kind_size
    → read_u32 b (4 + kind_size) ≡ ok payload_size
    → decode_binary_frame (take (8 + kind_size + payload_size) b) ≡ ok m
    → drop (8 + kind_size + payload_size) b ≡ rest
    → 8 + kind_size + payload_size < u32_mod
    → 8 + kind_size + payload_size ≤ length b
    → try_decode_binary_frame b ≡ ok (some m, rest)
unfolding try_decode_binary_frame
try_parts b rest m kind_size payload_size r1 r2 d e fits whole =
    let o = offsets kind_size (omega arith) in
    let total : add32 (8 + kind_size) payload_size ≡ 8 + kind_size + payload_size = omega arith in
    let t1 : ltb (length b) 8 ≡ false = ground arith in
    let t2 : ltb (length b) (8 + kind_size) ≡ false = ground arith in
    let t3 : ltb (length b) (8 + kind_size + payload_size) ≡ false = ground arith in
    rw (t1, r1, o.0, o.1, t2, r2, total, t3, d, e)

-- The frame of a message whose frame is shorter than 2^32 bytes.
module _ (k p : Text) (fits : length k + length p + 8 < u32_mod) where
  frame : Text
  frame = encode_binary_frame k p

  frame_eq : frame ≡ u32_bytes (length k) ++ (k ++ (u32_bytes (length p) ++ p))
  unfolding frame encode_binary_frame
  frame_eq =
      let ek : length k % u32_mod ≡ length k = omega arith in
      let ep : length p % u32_mod ≡ length p = omega arith in rw (ek, ep) refl

  length-frame : length frame ≡ 8 + length k + length p
  length-frame = rw frame_eq (
      omega (
        arith,
        length-append (u32_bytes (length k)) (k ++ (u32_bytes (length p) ++ p)),
        length-append k (u32_bytes (length p) ++ p),
        length-append (u32_bytes (length p)) p,
        length-u32_bytes (length k),
        length-u32_bytes (length p),
      ))

  kind_size_of_frame : (rest : Text) → word_at (frame ++ rest) 0 ≡ length k
  kind_size_of_frame rest =
      rw (frame_eq, append_assoc (u32_bytes (length k)))
        (word_at-append [] ((k ++ (u32_bytes (length p) ++ p)) ++ rest) (length k) (omega arith))

  -- The frame regrouped around its second size.
  regrouped :
      (rest : Text)
      → frame ++ rest ≡ (u32_bytes (length k) ++ k) ++ (u32_bytes (length p) ++ (p ++ rest))
  regrouped rest = rw frame_eq (simp append_assoc)

  length-head : length (u32_bytes (length k) ++ k) ≡ 4 + length k
  length-head = omega (arith, length-append (u32_bytes (length k)) k, length-u32_bytes (length k))

  payload_size_of_frame : (rest : Text) → word_at (frame ++ rest) (4 + length k) ≡ length p
  payload_size_of_frame rest =
      rw (regrouped rest, ← length-head)
        (word_at-append (u32_bytes (length k) ++ k) (p ++ rest) (length p) (omega arith))

  kind_of_frame : slice frame 4 (4 + length k) ≡ k
  kind_of_frame =
      rw (frame_eq, ← length-u32_bytes (length k))
        (slice_mid (u32_bytes (length k)) k (u32_bytes (length p) ++ p))

  payload_of_frame : slice frame (8 + length k) (8 + length k + length p) ≡ p
  payload_of_frame =
      let pre = u32_bytes (length k) ++ (k ++ u32_bytes (length p)) in
      let len : 8 + length k ≡ length pre = omega (
        arith,
        length-append (u32_bytes (length k)) (k ++ u32_bytes (length p)),
        length-append k (u32_bytes (length p)),
        length-u32_bytes (length k),
        length-u32_bytes (length p),
      ) in
      let whole : frame ≡ pre ++ (p ++ []) = rw frame_eq (simp (append_assoc, append-nil)) in
      rw (len, whole) (slice_mid pre p [])

  read_kind_size : (rest : Text) → read_u32 (frame ++ rest) 0 ≡ ok (length k)
  read_kind_size rest =
      read_u32-word_at (frame ++ rest) 0 (omega (arith, length-append frame rest, length-frame))
      ∙ ap ok (kind_size_of_frame rest)

  read_payload_size : (rest : Text) → read_u32 (frame ++ rest) (4 + length k) ≡ ok (length p)
  read_payload_size rest =
      read_u32-word_at (frame ++ rest) (4 + length k)
        (omega (arith, length-append frame rest, length-frame))
      ∙ ap ok (payload_size_of_frame rest)

  decode_frame : decode_binary_frame frame ≡ ok (record { kind = k; payload = p })
  decode_frame =
      decode_parts frame k p (length k) (length p) (rw append-nil at (read_kind_size []))
        (rw append-nil at (read_payload_size [])) kind_of_frame payload_of_frame (omega arith)
        (omega (arith, length-frame))

  -- A message comes back from its frame, if the frame is shorter than 2^32 bytes.
  pub decode_binary_frame-encode :
      decode_binary_frame (encode_binary_frame k p) ≡ ok (record { kind = k; payload = p })
  unfolding frame
  decode_binary_frame-encode = decode_frame

  -- From a buffer that begins with the frame of a message (shorter than 2^32 bytes) the message is
  -- taken, and just what follows the frame is left.
  pub try_decode_binary_frame-encode :
      (rest : Text)
      → try_decode_binary_frame (encode_binary_frame k p ++ rest)
        ≡ ok (some (record { kind = k; payload = p }), rest)
  unfolding frame
  try_decode_binary_frame-encode rest =
      try_parts (frame ++ rest) rest _ (length k) (length p) (read_kind_size rest)
        (read_payload_size rest) (rw (← length-frame, take-length_append frame rest) decode_frame)
        (rw (← length-frame) (drop-length_append frame rest)) (omega arith)
        (omega (arith, length-append frame rest, length-frame))

  -- The facts about the frame that the decoding of its prefixes rests on.
  pub frame_facts :
      let f = encode_binary_frame k p in
      (length f ≡ 8 + length k + length p)
      × (word_at f 0 ≡ length k)
      × (word_at f (4 + length k) ≡ length p)
  unfolding frame
  frame_facts = (
    length-frame,
    rw append-nil at (kind_size_of_frame []),
    rw append-nil at (payload_size_of_frame []),
  )
