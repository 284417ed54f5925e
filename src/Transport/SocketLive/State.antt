-- ===== src/Transport/SocketLive/State.antt =====
-- The fields of SocketLiveTransport and its small helpers.
use inerceptor_command_sim.Base.{
  ℕ, Bool, false, ◌&&◌, List, [], ◌∷◌, ◌++◌, Option, none, ◌==◌, if◌then◌else◌,
}
use inerceptor_command_sim.Base.Result.{Result, ok, throws, ◌>>=◌}
use inerceptor_command_sim.Base.Text.{Text, bytes, text_eq}
use inerceptor_command_sim.Base.Word.{add64}
use inerceptor_command_sim.Floats.{FloatOps}
use inerceptor_command_sim.Core.Types.{server_sender_id, CommandResult}
use inerceptor_command_sim.Core.Validation.{RuntimeConfig}
use inerceptor_command_sim.Protocol.Messages.{TcpMessageKind, SessionEnvelope}
use inerceptor_command_sim.Protocol.Frame.{encode_binary_frame}
use inerceptor_command_sim.Protocol.Frame.Json.{encode_json_frame}
use inerceptor_command_sim.Protocol.Payloads.Commands.{serialize_command_ack}
use inerceptor_command_sim.Session.State.{Session, new_session}
use inerceptor_command_sim.Session.Commands.{record_transport_rejection}
use inerceptor_command_sim.Transport.InProcess.{default_session_id}
use inerceptor_command_sim.View.ReplayCursor.{ReplayCursor}

-- What is compared of a sockaddr_in.
pub record Endpoint : Type 0 where
  pub family : ℕ
  pub port : ℕ
  pub address : ℕ

unfoldable pub same_endpoint : Endpoint → Endpoint → Bool
same_endpoint l r = l.family == r.family && (l.port == r.port && l.address == r.address)

pub data FrameFormat : Type 0 where
  json_line binary : FrameFormat

unfoldable pub parse_frame_format : Text → Result FrameFormat
parse_frame_format value =
    if text_eq value (bytes "json")
    then ok FrameFormat.json_line
    else if text_eq value (bytes "binary")
    then ok FrameFormat.binary
    else throws (bytes "unsupported tcp_frame_format: " ++ value)

pub record PendingDatagram : Type 0 where
  pub wire : Text
  pub target : Endpoint

-- The readings of one call: the wall clock, the same a moment later, and the steady clock in
-- nanoseconds.
pub record Clock : Type 0 where
  pub wall_time_ms : ℕ
  pub later_wall_time_ms : ℕ
  pub steady_ns : ℕ

-- Of the optional socket of the console it matters whether there is one.
pub record SocketLive (A : Type 0) : Type 0 where
  pub config : RuntimeConfig
  pub session : Session A
  pub has_command_client : Bool
  pub viewer_endpoint : Option Endpoint
  pub last_display_heartbeat_at : Option ℕ
  pub tcp_buffer : Text
  pub pending_tcp_lines : List Text
  pub pending_udp_messages : List PendingDatagram
  pub command_sender_id : ℕ
  pub viewer_sender_id : ℕ
  pub server_sequence : ℕ
  pub tcp_frame_format : FrameFormat
  pub last_snapshot_sent_index : ℕ
  pub replay_cursor : ReplayCursor

-- The state that a handler leaves, with the message of its exception if it throws one; `undefined`
-- where it leaves the defined behaviour of C++.
pub data Handled (A : Type 0) : Type 0 where
  done : SocketLive A → Handled A
  failed : Text → SocketLive A → Handled A
  undefined : Handled A

-- The next handler, unless the first one throws.
infixl 5 ◌>=>◌
abbrev pub ◌>=>◌ : {A : Type 0} → Handled A → (SocketLive A → Handled A) → Handled A
Handled.done t >=> f = f t
Handled.failed e t >=> f = Handled.failed e t
Handled.undefined >=> f = Handled.undefined

-- What follows the parsing of a payload.
abbrev pub with_payload : {A P : Type 0} → Result P → SocketLive A → (P → Handled A) → Handled A
with_payload (ok p) t f = f p
with_payload (throws e) t f = Handled.failed e t
with_payload Result.undefined t f = Handled.undefined

abbrev pub ack_of : Bool → Text → CommandResult
ack_of accepted reason = record {
  is_accepted = accepted;
  reason = reason;
  ack_kind = TcpMessageKind.command_ack;
}

module _ {A : Type 0} (F : FloatOps A) where
  -- The fields as the constructor initialises them.
  unfoldable pub first_state : RuntimeConfig → FrameFormat → SocketLive A
  first_state c format = record {
    config = c;
    session =
        new_session F default_session_id c.server.tick_rate_hz c.scenario.telemetry_interval_ms
          c.scenario;
    has_command_client = false;
    viewer_endpoint = none;
    last_display_heartbeat_at = none;
    tcp_buffer = [];
    pending_tcp_lines = [];
    pending_udp_messages = [];
    command_sender_id = 0;
    viewer_sender_id = 0;
    server_sequence = 0;
    tcp_frame_format = format;
    last_snapshot_sent_index = 0;
    replay_cursor = record { index = 0; total = 0 };
  }

  -- The constructor, once the sockets are bound.
  unfoldable pub new_socket_live : RuntimeConfig → Result (SocketLive A)
  unfolding first_state
  new_socket_live c = do
    format ← parse_frame_format c.server.tcp_frame_format
    ok (first_state c format)

-- A frame in the format of the connection: the bytes that are queued.
unfoldable pub frame_bytes : FrameFormat → Text → Text → Text
frame_bytes FrameFormat.json_line kind payload = encode_json_frame kind payload ++ 10 ∷ []
frame_bytes FrameFormat.binary kind payload = encode_binary_frame kind payload

module _ {A : Type 0} where
  -- A transport rejection in the log, with its result.
  unfoldable pub reject_payload :
      Text → Text → List Text → SocketLive A → CommandResult × SocketLive A
  reject_payload summary reason entity_ids t =
      let r = record_transport_rejection summary reason entity_ids t.session in
      (r.0, record t { session = r.1 })

  unfoldable pub queue_tcp_frame : Text → Text → SocketLive A → SocketLive A
  queue_tcp_frame kind payload t = record t {
    pending_tcp_lines = t.pending_tcp_lines ++ frame_bytes t.tcp_frame_format kind payload ∷ [];
  }

  -- `++server_sequence_`.
  abbrev pub next_sequence : SocketLive A → SocketLive A
  next_sequence t = record t { server_sequence = add64 t.server_sequence 1 }

  -- The envelope of an answer, with the sequence number that was just taken.
  abbrev pub server_envelope : ℕ → SocketLive A → SessionEnvelope
  server_envelope session_id t = record {
    session_id = session_id;
    sender_id = server_sender_id;
    sequence = t.server_sequence;
  }

  unfoldable pub queue_ack : ℕ → Bool → Text → SocketLive A → SocketLive A
  queue_ack session_id accepted reason t =
      let t' = next_sequence t in
      queue_tcp_frame (bytes "command_ack")
        (serialize_command_ack (record {
          envelope = server_envelope session_id t';
          accepted = accepted;
          reason = reason;
        }))
        t'

  unfoldable pub send_ack : SessionEnvelope → CommandResult → SocketLive A → SocketLive A
  unfolding queue_ack
  send_ack request_envelope result t =
      if t.has_command_client
      then queue_ack request_envelope.session_id result.is_accepted result.reason t
      else t
