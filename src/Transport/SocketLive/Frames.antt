-- ===== src/Transport/SocketLive/Frames.antt =====
-- The frames of the TCP connection: which handler takes one, and the loops that read them.
use inerceptor_command_sim.Base.{
  ℕ, zero, suc, Bool, false, List, [], ◌∷◌, ◌++◌, Option, none, some, ◌==◌, if◌then◌else◌, length,
}
use inerceptor_command_sim.Base.Result.{Result, ok, throws}
use inerceptor_command_sim.Base.Text.{Text, bytes, text_eq}
use inerceptor_command_sim.Floats.{FloatOps}
use inerceptor_command_sim.Core.Types.{ClientRole}
use inerceptor_command_sim.Protocol.Frame.{FramedMessage, try_decode_binary_frame}
use inerceptor_command_sim.Protocol.Frame.Json.{decode_json_frame}
use inerceptor_command_sim.Protocol.Payloads.Sessions.{
  parse_session_join, parse_session_leave, parse_scenario_stop, parse_scenario_reset,
}
use inerceptor_command_sim.Protocol.Payloads.Scenario.{parse_scenario_start}
use inerceptor_command_sim.Protocol.Payloads.Commands.{
  parse_track_acquire, parse_track_drop, parse_interceptor_ready, parse_engage_order,
}
use inerceptor_command_sim.Protocol.Payloads.Review.{AarRequestPayload, parse_aar_request}
use inerceptor_command_sim.Transport.InProcess.{default_session_id}
use inerceptor_command_sim.Transport.SocketLive.State.{
  Clock, FrameFormat, SocketLive, Handled, ◌>=>◌, with_payload, reject_payload, queue_ack,
}
use inerceptor_command_sim.Transport.SocketLive.Delivery.{disconnect_station}
use inerceptor_command_sim.Transport.SocketLive.Sockets.{SendAnswer}
use inerceptor_command_sim.Transport.SocketLive.Console.{
  handle_session_join, handle_session_leave, handle_scenario_start, handle_scenario_stop,
  handle_scenario_reset, handle_track_acquire, handle_track_drop, handle_interceptor_ready,
  handle_engage_order,
}
use inerceptor_command_sim.Transport.SocketLive.Replay.{handle_aar_request}

module _ {A : Type 0} where
  abbrev pub review_of : Result AarRequestPayload → SocketLive A → Handled A
  review_of (ok p) t = handle_aar_request p t
  review_of (throws e) t =
      Handled.done (queue_ack default_session_id false (bytes "aar_request rejected: " ++ e) t)
  review_of Result.undefined t = Handled.undefined

  -- A request that cannot be parsed is answered, whoever sent it.
  unfoldable pub process_aar_request : Text → SocketLive A → Handled A
  process_aar_request wire t = review_of (parse_aar_request wire) t

  -- An exception of a frame's handler is caught and logged.
  abbrev pub caught : Handled A → Handled A
  caught (Handled.done t) = Handled.done t
  caught (Handled.failed e t) =
      Handled.done (reject_payload (bytes "Transport frame rejected") e [] t).1
  caught Handled.undefined = Handled.undefined

abbrev pub prepend : ℕ → Option (Text × Text) → Option (Text × Text)
prepend c none = none
prepend c (some (line, rest)) = some (c ∷ line, rest)

-- The text up to the first newline, and what follows it.
unfoldable pub cut_line : Text → Option (Text × Text)
cut_line [] = none
cut_line (c ∷ rest) =
    let more = cut_line rest in if c == 10 then some ([], rest) else prepend c more

-- An answer of ::recv: bytes, the end of the connection, EAGAIN or EWOULDBLOCK, or another error.
pub data ReceiveAnswer : Type 0 where
  received : Text → ReceiveAnswer
  closed : ReceiveAnswer
  would_block : ReceiveAnswer
  error : Text → ReceiveAnswer

module _ {A : Type 0} where
  -- The loop over ::recv; where no answer is left the socket would block.
  unfoldable pub receive_bytes : List ReceiveAnswer → SocketLive A → Handled A
  receive_bytes [] t = Handled.done t
  receive_bytes (ReceiveAnswer.would_block ∷ answers) t = Handled.done t
  receive_bytes (ReceiveAnswer.error e ∷ answers) t =
      Handled.failed (bytes "tcp recv failed: " ++ e) t
  receive_bytes (ReceiveAnswer.closed ∷ answers) t =
      Handled.done (
        disconnect_station ClientRole.fire_control_console (bytes "tcp command connection closed")
          t)
  receive_bytes (ReceiveAnswer.received data' ∷ answers) t =
      receive_bytes answers (record t { tcp_buffer = t.tcp_buffer ++ data' })

module _ {A : Type 0} (F : FloatOps A) (c : Clock) (sends : ℕ → List SendAnswer) where
  -- `sends` are the answers of ::send to the acknowledgement of a session_leave, by its sequence
  -- number.
  unfoldable pub process_tcp_frame : FramedMessage → SocketLive A → Handled A
  process_tcp_frame frame t =
      let is : _ → Bool = λ kind. text_eq frame.kind (bytes kind) in
      let wire = frame.payload in
      if is "session_join"
      then with_payload (parse_session_join wire) t (λ p. Handled.done (handle_session_join p t))
      else if is "session_leave"
      then with_payload (parse_session_leave wire) t (λ p. handle_session_leave sends p t)
      else if is "scenario_start"
      then with_payload (parse_scenario_start wire) t
          (λ p. Handled.done (handle_scenario_start F c p t))
      else if is "scenario_stop"
      then with_payload (parse_scenario_stop wire) t
          (λ p. Handled.done (handle_scenario_stop F c p t))
      else if is "scenario_reset"
      then with_payload (parse_scenario_reset wire) t
          (λ p. Handled.done (handle_scenario_reset F c p t))
      else if is "track_acquire"
      then with_payload (parse_track_acquire wire) t
          (λ p. Handled.done (handle_track_acquire F c p t))
      else if is "track_drop"
      then with_payload (parse_track_drop wire) t (λ p. Handled.done (handle_track_drop F c p t))
      else if is "interceptor_ready"
      then with_payload (parse_interceptor_ready wire) t
          (λ p. Handled.done (handle_interceptor_ready F c p t))
      else if is "engage_order"
      then with_payload (parse_engage_order wire) t
          (λ p. Handled.done (handle_engage_order F c p t))
      else if is "aar_request"
      then process_aar_request wire t
      else Handled.failed (bytes "unsupported tcp payload kind: " ++ frame.kind) t

  unfoldable pub process_tcp_wire : Text → SocketLive A → Handled A
  process_tcp_wire wire t = with_payload (decode_json_frame wire) t (λ m. process_tcp_frame m t)

  -- The loop over the lines of the buffer. A round takes a line from it, and no handler puts one in.
  unfoldable pub drain_lines : ℕ → SocketLive A → Handled A
  drain_lines zero t = Handled.done t
  drain_lines (suc fuel) t = elim (cut_line t.tcp_buffer) [
    | none ↦ Handled.done t
    | some (wire, rest) ↦
        let t' = record t { tcp_buffer = rest } in
        (if length wire == 0 then Handled.done t' else caught (process_tcp_wire wire t'))
        >=> (λ t. drain_lines fuel t)
  ]

  -- The loop over the binary frames of the buffer: an exception of the decoder itself is not caught.
  unfoldable pub drain_frames : ℕ → SocketLive A → Handled A
  drain_frames zero t = Handled.done t
  drain_frames (suc fuel) t = elim (try_decode_binary_frame t.tcp_buffer) [
    | throws e ↦ Handled.failed e t
    | Result.undefined ↦ Handled.undefined
    | ok (none, rest) ↦ Handled.done t
    | ok (some frame, rest) ↦
        caught (process_tcp_frame frame (record t { tcp_buffer = rest }))
        >=> (λ t. drain_frames fuel t)
  ]

  -- One round for each byte of the buffer is enough, and one more to see that nothing is left.
  abbrev pub drain_as : FrameFormat → SocketLive A → Handled A
  drain_as FrameFormat.json_line t = drain_lines (suc (length t.tcp_buffer)) t
  drain_as FrameFormat.binary t = drain_frames (suc (length t.tcp_buffer)) t

  unfoldable pub drain : SocketLive A → Handled A
  drain t = drain_as t.tcp_frame_format t

  unfoldable pub receive_tcp_messages : List ReceiveAnswer → SocketLive A → Handled A
  receive_tcp_messages answers t =
      if t.has_command_client then receive_bytes answers t >=> drain else Handled.done t
