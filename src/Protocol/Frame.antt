-- ===== src/Protocol/Frame.antt =====
-- common/src/frame_codec.cpp: the length-prefixed binary frame. A frame is the list of its bytes;
-- sizes are size_t and do not wrap, the arithmetic in std::uint32_t does.
pub mod RoundTrip
pub mod Safety
pub mod Sizes
pub mod Json
use inerceptor_command_sim.Base.{
  ℕ, ◌+◌, ◌-◌, ◌*◌, ◌/◌, ◌%◌, ◌^◌, List, [], ◌∷◌, ◌++◌, Option, none, some, ltb, if◌then◌else◌,
  length, take, drop, get_or,
}
use inerceptor_command_sim.Base.Result.{Result, ok, throws, undefined, ◌>>=◌}
use inerceptor_command_sim.Base.Text.{Text, bytes}
use inerceptor_command_sim.Base.Word.{u32_mod, add32}

pub record FramedMessage : Type 0 where
  pub kind : Text
  pub payload : Text

-- append_u32: the bytes that it appends, most significant first.
unfoldable pub u32_bytes : ℕ → Text
u32_bytes value =
    (value / 2 ^ 24 % 256) ∷ (value / 2 ^ 16 % 256) ∷ (value / 2 ^ 8 % 256) ∷ (value % 256) ∷ []

-- The four shifted bytes do not overlap, so that `|` is `+`.
unfoldable pub read_u32 : Text → ℕ → Result ℕ
read_u32 data' offset =
    if ltb (length data') (offset + 4)
    then throws (bytes "binary frame too short")
    else ok (
        get_or data' offset 0 * 2 ^ 24
        + get_or data' (offset + 1) 0 * 2 ^ 16
        + get_or data' (offset + 2) 0 * 2 ^ 8
        + get_or data' (offset + 3) 0)

-- The sizes are cast to std::uint32_t.
unfoldable pub encode_binary_frame : Text → Text → Text
encode_binary_frame kind payload =
    u32_bytes (length kind % u32_mod) ++ (kind ++ (u32_bytes (length payload % u32_mod) ++ payload))

-- The iterator `frame.begin() + n`: undefined past the end of the vector.
unfoldable pub iterator : Text → ℕ → Result ℕ
iterator frame n = if ltb (length frame) n then undefined else ok n

-- The string over an iterator range.
unfoldable pub slice : Text → ℕ → ℕ → Text
slice frame first last = take (last - first) (drop first frame)

unfoldable pub decode_binary_frame : Text → Result FramedMessage
decode_binary_frame frame = do
  kind_size ← read_u32 frame 0
  let payload_size_offset = add32 4 kind_size
  payload_size ← read_u32 frame payload_size_offset
  kind_begin ← iterator frame 4
  kind_end ← iterator frame (kind_begin + kind_size)
  payload_begin ← iterator frame (add32 payload_size_offset 4)
  payload_end ← iterator frame (payload_begin + payload_size)
  if ltb (length frame) payload_end
      then throws (bytes "binary frame truncated")
      else ok (record {
        kind = slice frame kind_begin kind_end;
        payload = slice frame payload_begin payload_end;
      })

-- The message, if a whole one is there, and what is left of the buffer.
unfoldable pub try_decode_binary_frame : Text → Result (Option FramedMessage × Text)
try_decode_binary_frame buffer = if ltb (length buffer) 8 then ok (none, buffer) else do
  kind_size ← read_u32 buffer 0
  let payload_size_offset = add32 4 kind_size
  if ltb (length buffer) (add32 payload_size_offset 4) then ok (none, buffer) else do
    payload_size ← read_u32 buffer payload_size_offset
    let frame_size = add32 (add32 payload_size_offset 4) payload_size
    if ltb (length buffer) frame_size then ok (none, buffer) else do
      out ← decode_binary_frame (take frame_size buffer)
      ok (some out, drop frame_size buffer)
