-- ===== src/Transport/SocketLive/Faults.antt =====
-- A frame whose sizes wrap around ends a round of polling with an exception.
use inerceptor_command_sim.Base.{
  ℕ, ◌≤◌, ◌≡◌, refl, false, List, [], ◌∷◌, ◌++◌, arith, ltb, length, map, true, if-true,
  if◌then◌else◌, ap, ◌∙◌,
}
use mathlib.Core.List.{append_assoc, append-nil}
use inerceptor_command_sim.Base.Result.{ok, throws}
use inerceptor_command_sim.Base.Text.{Text, bytes}
use inerceptor_command_sim.Floats.{FloatOps}
use inerceptor_command_sim.Protocol.Frame.{read_u32, decode_binary_frame, try_decode_binary_frame}
use inerceptor_command_sim.Transport.SocketLive.State.{
  Clock, FrameFormat, SocketLive, Handled, ◌>=>◌,
}
use inerceptor_command_sim.Transport.SocketLive.Delivery.{disconnect_station}
use inerceptor_command_sim.Transport.SocketLive.Sockets.{SendAnswer}
use inerceptor_command_sim.Transport.SocketLive.Frames.{
  ReceiveAnswer, receive_bytes, drain_frames, drain_as, drain, receive_tcp_messages,
}
use inerceptor_command_sim.Transport.SocketLive.Stream.{stream}

-- A buffer that announces a kind of 2^32 - 4 bytes.
abbrev pub malformed : Text → Text
malformed rest = 255 ∷ 255 ∷ 255 ∷ 252 ∷ rest

read_u32-malformed : (rest : Text) → read_u32 (malformed rest) 0 ≡ ok 4294967292
unfolding read_u32
read_u32-malformed rest =
    let long : ltb (length (malformed rest)) 4 ≡ false = ground arith in rw long

pub decode-empty : decode_binary_frame [] ≡ throws (bytes "binary frame too short")
unfolding decode_binary_frame read_u32
decode-empty = refl

try_decode-malformed :
    (rest : Text)
    → 4 ≤ length rest
    → try_decode_binary_frame (malformed rest) ≡ throws (bytes "binary frame too short")
unfolding try_decode_binary_frame read_u32
try_decode-malformed rest long =
    let t1 : ltb (length (malformed rest)) 8 ≡ false = ground arith in
    let t2 : ltb (length (malformed rest)) 4 ≡ false = ground arith in
    let t3 : ltb (length (malformed rest)) 0 ≡ false = ground arith in
    let r = read_u32-malformed rest in
    let empty : decode_binary_frame [] ≡ throws (bytes "binary frame too short") = decode-empty in
    rw (t1, r, t2, t3, empty) refl

module _ {A : Type 0} where
  pub receive_all :
      (ds : List Text) (t : SocketLive A)
      → receive_bytes (map ReceiveAnswer.received ds) t
        ≡ Handled.done (record t { tcp_buffer = t.tcp_buffer ++ stream ds })
  unfolding receive_bytes
  receive_all [] t = rw append-nil refl
  receive_all (d ∷ ds) t =
      receive_all ds (record t { tcp_buffer = t.tcp_buffer ++ d }) ∙ rw append_assoc refl

  receive-closed :
      (ds : List Text) (t : SocketLive A)
      → receive_bytes (map ReceiveAnswer.received ds ++ ReceiveAnswer.closed ∷ []) t
        ≡ receive_bytes (ReceiveAnswer.closed ∷ []) t
  unfolding receive_bytes disconnect_station
  receive-closed [] t = refl
  receive-closed (d ∷ ds) t = receive-closed ds (record t { tcp_buffer = t.tcp_buffer ++ d })

module _ {A : Type 0} (F : FloatOps A) (c : Clock) (sends : ℕ → List SendAnswer) where
  -- A console on binary frames whose bytes start with FF FF FF FC, and are eight at least, makes the
  -- round fail outside the handler that catches the exceptions of a frame, whatever else it sends.
  -- The bytes stay in the buffer, so that every later round that receives data or none fails too.
  pub receive_tcp_messages-malformed :
      (ds : List Text) (rest : Text) (t : SocketLive A)
      → t.has_command_client ≡ true
      → t.tcp_frame_format ≡ FrameFormat.binary
      → t.tcp_buffer ++ stream ds ≡ malformed rest
      → 4 ≤ length rest
      → receive_tcp_messages F c sends (map ReceiveAnswer.received ds) t
        ≡ Handled.failed (bytes "binary frame too short") (record t { tcp_buffer = malformed rest })
  unfolding receive_tcp_messages drain drain_frames
  receive_tcp_messages-malformed ds rest t there binary starts long =
      let t' = record t { tcp_buffer = t.tcp_buffer ++ stream ds } in
      if-true _ _ there
      ∙ ap (λ h. h >=> drain F c sends) (receive_all ds t)
      ∙ ap (λ f. drain_as F c sends f t') binary
      ∙ rw starts (rw (try_decode-malformed rest long, drain_frames) refl)

  -- The frames of a console that closes its connection behind them are lost: a round that receives
  -- data and then the end of the connection ends in the same state as one that receives the end
  -- alone, so that no frame is processed, acknowledged or logged.
  pub receive_tcp_messages-closed :
      (ds : List Text) (t : SocketLive A)
      → receive_tcp_messages F c sends
          (map ReceiveAnswer.received ds ++ ReceiveAnswer.closed ∷ [])
          t
        ≡ receive_tcp_messages F c sends (ReceiveAnswer.closed ∷ []) t
  unfolding receive_tcp_messages
  receive_tcp_messages-closed ds t =
      ap (λ h. if t.has_command_client then h >=> drain F c sends else Handled.done t)
        (receive-closed ds t)
