-- ===== src/Transport/SocketLive/Requests/Received.antt =====
-- A request of the console, from the bytes that the socket hands over.
use inerceptor_command_sim.Base.{
  ℕ, zero, suc, ◌+◌, ◌<◌, ◌≤◌, ◌≡◌, ◌∙◌, refl, ap, Bool, true, false, ◌&&◌, not, List, [], ◌∷◌,
  ◌++◌, none, some, arith, length, map, ◌==◌, if-true, Bool-cases, inl, inr,
}
use mathlib.Core.List.{append-nil}
use inerceptor_command_sim.Base.Result.{ok}
use inerceptor_command_sim.Base.Word.{u32_mod}
use inerceptor_command_sim.Base.Text.{Text, bytes}
use inerceptor_command_sim.Floats.{FloatOps}
use inerceptor_command_sim.Protocol.Frame.{FramedMessage, try_decode_binary_frame}
use inerceptor_command_sim.Protocol.Frame.RoundTrip.{try_decode_binary_frame-encode}
use inerceptor_command_sim.Protocol.Frame.Json.{escape_char, escape_json, encode_json_frame}
use inerceptor_command_sim.Protocol.Frame.Json.RoundTrip.{decode_json_frame-encode}
use inerceptor_command_sim.Transport.InProcess.{Request}
use inerceptor_command_sim.Transport.SocketLive.State.{
  Clock, FrameFormat, SocketLive, Handled, ◌>=>◌, frame_bytes,
}
use inerceptor_command_sim.Transport.SocketLive.Sockets.{SendAnswer}
use inerceptor_command_sim.Transport.SocketLive.Frames.{
  ReceiveAnswer, cut_line, process_tcp_frame, process_tcp_wire, drain_lines, drain_frames, drain_as,
  drain, receive_tcp_messages,
}
use inerceptor_command_sim.Transport.SocketLive.Stream.{stream}
use inerceptor_command_sim.Transport.SocketLive.Faults.{receive_all}
use inerceptor_command_sim.Transport.SocketLive.Kept.{HoldsAfter}
use inerceptor_command_sim.Transport.SocketLive.Kept.Frames.{process_tcp_frame-kept}
use inerceptor_command_sim.Transport.SocketLive.Draining.{Fits, Fits-IsKept}
use inerceptor_command_sim.Transport.SocketLive.Requests.{
  frame_of, IsWire, is_addressed, IsServed, process_tcp_frame-IsServed,
}

-- The text has no newline.
abbrev is_line : Text → Bool
is_line [] = true
is_line (c ∷ s) = not (c == 10) && is_line s

is_line-append : (xs ys : Text) → is_line (xs ++ ys) ≡ (is_line xs && is_line ys)
is_line-append [] ys = refl
is_line-append (x ∷ xs) ys = ground (arith, is_line-append xs ys)

is_line-escape_char : (c : ℕ) → is_line (escape_char c) ≡ true
unfolding escape_char
is_line-escape_char c = ground arith

is_line-escape_json : (s : Text) → is_line (escape_json s) ≡ true
unfolding escape_json
is_line-escape_json [] = refl
is_line-escape_json (c ∷ s) =
    is_line-append (escape_char c) (escape_json s)
    ∙ rw (is_line-escape_char c, is_line-escape_json s) refl

is_line-encode_json_frame : (kind payload : Text) → is_line (encode_json_frame kind payload) ≡ true
unfolding encode_json_frame bytes
is_line-encode_json_frame kind payload =
    simp (is_line-append, is_line-escape_json kind, is_line-escape_json payload) refl

encode_json_frame_full :
    (kind payload : Text) → (length (encode_json_frame kind payload) == 0) ≡ false
unfolding encode_json_frame
encode_json_frame_full kind payload = ground arith

cut_line-lem : (s rest : Text) → is_line s ≡ true → cut_line (s ++ 10 ∷ rest) ≡ some (s, rest)
unfolding cut_line
cut_line-lem [] rest h = refl
cut_line-lem (c ∷ s) rest h = elim (Bool-cases (c == 10)) [
  | inl e ↦ absurd (ground (arith, h))
  | inr e ↦ let more = cut_line-lem s rest (ground (arith, h)) in rw (e, more) refl
]

-- The message fits the sizes of its format.
abbrev pub IsFramed : FrameFormat → FramedMessage → Type 0
IsFramed FrameFormat.json_line m = Unit
IsFramed FrameFormat.binary m = length m.kind + length m.payload + 8 < u32_mod

module _ {A : Type 0} (F : FloatOps A) (c : Clock) (sends : ℕ → List SendAnswer) where
  -- What a loop does with an empty buffer.
  no_lines :
      (fuel : ℕ) (u : SocketLive A)
      → u.tcp_buffer ≡ []
      → drain_lines F c sends fuel u ≡ Handled.done u
  unfolding drain_lines cut_line
  no_lines zero u e = refl
  no_lines (suc fuel) u e =
      let none_left : cut_line u.tcp_buffer ≡ none = rw e refl in rw (none_left, drain_lines) refl

  no_frames :
      (fuel : ℕ) (u : SocketLive A)
      → u.tcp_buffer ≡ []
      → drain_frames F c sends fuel u ≡ Handled.done u
  unfolding drain_frames try_decode_binary_frame
  no_frames zero u e = refl
  no_frames (suc fuel) u e =
      let none_left : try_decode_binary_frame u.tcp_buffer ≡ ok (none, u.tcp_buffer) = rw e refl in
      rw (none_left, drain_frames) refl

  -- The frame of a message is processed, and nothing is left in the buffer.
  module _ (m : FramedMessage) (t u : SocketLive A) where
    line_read :
        process_tcp_frame F c sends m (record t { tcp_buffer = [] }) ≡ Handled.done u
        → u.tcp_buffer ≡ []
        → (fuel : ℕ)
        → drain_lines F c sends
            (suc fuel)
            (record t { tcp_buffer = frame_bytes FrameFormat.json_line m.kind m.payload })
          ≡ Handled.done u
    unfolding drain_lines process_tcp_wire frame_bytes
    line_read e k fuel =
        let line = encode_json_frame m.kind m.payload in
        let cut = cut_line-lem line [] (is_line-encode_json_frame m.kind m.payload) in
        let full : (length line == 0) ≡ false = encode_json_frame_full m.kind m.payload in
        rw (cut, drain_lines)
          (rw (full, decode_json_frame-encode m.kind m.payload, e) (no_lines fuel u k))

    frame_read :
        IsFramed FrameFormat.binary m
        → process_tcp_frame F c sends m (record t { tcp_buffer = [] }) ≡ Handled.done u
        → u.tcp_buffer ≡ []
        → (fuel : ℕ)
        → drain_frames F c sends
            (suc fuel)
            (record t { tcp_buffer = frame_bytes FrameFormat.binary m.kind m.payload })
          ≡ Handled.done u
    unfolding drain_frames frame_bytes
    frame_read fits e k fuel =
        let taken = rw append-nil at (try_decode_binary_frame-encode m.kind m.payload fits []) in
        rw (taken, drain_frames) (rw e (no_frames fuel u k))

  IsServed-done :
      (b : Bool) (r : Request) (t : SocketLive A) (h : Handled A)
      → IsServed F c b r t h
      → (u : SocketLive A) × (h ≡ Handled.done u)
  IsServed-done true r t h k = (_, k)
  IsServed-done false r t h k = (_, k.3)

  frame_drained :
      (f : FrameFormat) (m : FramedMessage) (t u : SocketLive A)
      → IsFramed f m
      → process_tcp_frame F c sends m (record t { tcp_buffer = [] }) ≡ Handled.done u
      → u.tcp_buffer ≡ []
      → drain_as F c sends f (record t { tcp_buffer = frame_bytes f m.kind m.payload })
        ≡ Handled.done u
  frame_drained FrameFormat.json_line m t u fits e k = line_read m t u e k _
  frame_drained FrameFormat.binary m t u fits e k = frame_read m t u fits e k _

  empty : (xs : Text) → length xs ≤ 0 → xs ≡ []
  empty [] h = refl
  empty (x ∷ xs) h = absurd (omega arith)

  -- However the bytes of a request's frame, in the format of the connection, are split into the
  -- answers of ::recv, and even if the first of them came in earlier rounds: the round that receives
  -- the last of them handles the request, and leaves the buffer empty. If the request is addressed to
  -- the session its command is performed and acknowledged; otherwise a rejection is logged and
  -- acknowledged. The request fits its types, and on binary frames the 32-bit sizes.
  pub receive_tcp_messages-IsServed :
      (r : Request) (ds : List Text) (t : SocketLive A)
      → IsWire r
      → IsFramed t.tcp_frame_format (frame_of r)
      → t.has_command_client ≡ true
      → t.tcp_buffer ++ stream ds
        ≡ frame_bytes t.tcp_frame_format (frame_of r).kind (frame_of r).payload
      → (u : SocketLive A) × (receive_tcp_messages F c sends (map ReceiveAnswer.received ds) t
          ≡ Handled.done u)
        × (u.tcp_buffer ≡ [])
        × IsServed F c (is_addressed r t) r (record t { tcp_buffer = [] }) (Handled.done u)
  unfolding receive_tcp_messages drain
  receive_tcp_messages-IsServed r ds t wire fits there all =
      let t' = record t { tcp_buffer = [] } in
      let served = process_tcp_frame-IsServed F c sends r t' wire in
      let done = IsServed-done (is_addressed r t) r t' _ served in
      let kept =
        process_tcp_frame-kept F c (Fits 0) (Fits-IsKept F 0) sends (frame_of r) t' (omega arith) in
      let kept_done : HoldsAfter (Fits 0) (Handled.done done.0) = rw done.1 at kept in
      let cleared = empty done.0.tcp_buffer kept_done.holds in
      let bytes_read : SocketLive A = record t { tcp_buffer = t.tcp_buffer ++ stream ds } in
      (
        done.0,
        if-true _ _ there
            ∙ ap (λ h. h >=> drain F c sends) (receive_all ds t)
            ∙ ap (λ b. drain_as F c sends t.tcp_frame_format (record t { tcp_buffer = b })) all
            ∙ frame_drained t.tcp_frame_format (frame_of r) t done.0 fits done.1 cleared,
        cleared,
        rw done.1 at served,
      )
