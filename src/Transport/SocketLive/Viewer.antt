-- ===== src/Transport/SocketLive/Viewer.antt =====
-- The datagrams of the tactical display, and a whole round of polling.
use inerceptor_command_sim.Base.{
  Option, ℕ, Bool, true, false, ◌&&◌, ◌||◌, not, List, [], ◌∷◌, ◌++◌, none, some, ◌==◌,
  if◌then◌else◌, get_last?,
}
use inerceptor_command_sim.Base.Result.{Result, ok, throws}
use inerceptor_command_sim.Base.Text.{Text, bytes, text_eq}
use inerceptor_command_sim.Floats.{FloatOps}
use inerceptor_command_sim.Core.Types.{ClientRole, Snapshot, client_role_to_string, is_timed_out}
use inerceptor_command_sim.Protocol.Frame.Json.{after_prefix}
use inerceptor_command_sim.Protocol.Payloads.Sessions.{SessionJoinPayload, parse_session_join}
use inerceptor_command_sim.Protocol.Payloads.Review.{
  DisplayHeartbeatPayload, parse_display_heartbeat, serialize_display_heartbeat_ack,
}
use inerceptor_command_sim.Session.Clients.{connect_client}
use inerceptor_command_sim.Transport.InProcess.{default_session_id}
use inerceptor_command_sim.Transport.SocketLive.State.{
  Endpoint, same_endpoint, Clock, SocketLive, Handled, reject_payload, next_sequence,
  server_envelope,
}
use inerceptor_command_sim.Transport.SocketLive.Delivery.{
  reset_viewer_delivery_cursor, queue_udp_datagram, send_pending_snapshots,
}

-- The text before the first ';'.
abbrev until_semicolon : Text → Text
until_semicolon [] = []
until_semicolon (c ∷ rest) = let more = until_semicolon rest in if c == b';' then [] else c ∷ more

unfoldable pub payload_kind : Text → Result Text
payload_kind wire = elim (after_prefix (bytes "kind=") wire) [
  | none ↦ throws (bytes "wire payload missing kind prefix")
  | some rest ↦ ok (until_semicolon rest)
]

module _ {A : Type 0} where
  -- There is no viewer, or it is the one that the datagram came from.
  abbrev pub is_from_viewer : Endpoint → SocketLive A → Bool
  is_from_viewer addr t = elim t.viewer_endpoint [ none ↦ true | some e ↦ same_endpoint e addr ]

  abbrev pub has_viewer : SocketLive A → Bool
  has_viewer t = elim t.viewer_endpoint [ none ↦ false | some e ↦ true ]

  abbrev pub is_timeout_picture : Option (Snapshot A) → Bool
  is_timeout_picture none = false
  is_timeout_picture (some snapshot) = is_timed_out snapshot.display_connection

  -- The newest snapshot shows the display as timed out.
  abbrev pub shows_timeout : SocketLive A → Bool
  shows_timeout t = is_timeout_picture (get_last? t.session.snapshots)

module _ {A : Type 0} (F : FloatOps A) (c : Clock) where
  -- The display of the session is connected again under the viewer's sender.
  unfoldable pub reconnect_viewer : SocketLive A → SocketLive A
  reconnect_viewer t = send_pending_snapshots F (record t {
    session = connect_client ClientRole.tactical_display t.viewer_sender_id t.session;
  })

  -- The heartbeat is noted, and acknowledged to the address that it came from.
  unfoldable pub acknowledge : DisplayHeartbeatPayload → Endpoint → SocketLive A → SocketLive A
  unfolding queue_udp_datagram
  acknowledge p addr t =
      let beating = next_sequence (record t { last_display_heartbeat_at = some c.steady_ns }) in
      queue_udp_datagram
        (serialize_display_heartbeat_ack (record {
          envelope = server_envelope default_session_id beating;
          heartbeat_id = p.heartbeat_id;
          client_send_wall_time_ms = p.client_send_wall_time_ms;
          server_receive_wall_time_ms = c.wall_time_ms;
          server_send_wall_time_ms = c.later_wall_time_ms;
        }))
        addr beating

  unfoldable pub handle_heartbeat : DisplayHeartbeatPayload → Endpoint → SocketLive A → SocketLive A
  handle_heartbeat p addr t =
      if not (p.envelope.session_id == default_session_id)
        || not (p.envelope.sender_id == t.viewer_sender_id)
      then t
      else if not (is_from_viewer addr t)
      then t
      else if shows_timeout t
      then reconnect_viewer (acknowledge p addr t)
      else acknowledge p addr t

  -- A viewer that is new, or that comes from another address.
  unfoldable pub bind_viewer : ℕ → Endpoint → SocketLive A → SocketLive A
  bind_viewer sender addr t = reconnect_viewer (
      reset_viewer_delivery_cursor (record t {
        viewer_sender_id = sender;
        viewer_endpoint = some addr;
        last_display_heartbeat_at = some c.steady_ns;
      }))

  unfoldable pub handle_viewer_join : SessionJoinPayload → Endpoint → SocketLive A → SocketLive A
  handle_viewer_join p addr t =
      let sender = p.envelope.sender_id in
      let beating = record t { last_display_heartbeat_at = some c.steady_ns } in
      let refused =
        reject_payload (bytes "Viewer registration rejected")
          (bytes "socket_live allows only one active tactical display") [] t in
      if not (text_eq p.client_role (client_role_to_string ClientRole.tactical_display))
      then t
      else if not (p.envelope.session_id == default_session_id)
      then t
      else if has_viewer t && (not (t.viewer_sender_id == 0) && not (sender == t.viewer_sender_id))
      then refused.1
      else if has_viewer t && (t.viewer_sender_id == sender && is_from_viewer addr t)
      then (if shows_timeout t then reconnect_viewer beating else beating)
      else bind_viewer sender addr t

  -- A datagram that cannot be parsed is dropped.
  abbrev pub join_of : Result SessionJoinPayload → Endpoint → SocketLive A → SocketLive A
  join_of (ok p) addr t = handle_viewer_join p addr t
  join_of (throws e) addr t = t
  join_of Result.undefined addr t = t

  abbrev pub heartbeat_of : Result DisplayHeartbeatPayload → Endpoint → SocketLive A → SocketLive A
  heartbeat_of (ok p) addr t = handle_heartbeat p addr t
  heartbeat_of (throws e) addr t = t
  heartbeat_of Result.undefined addr t = t

  abbrev pub datagram_of : Result Text → Text → Endpoint → SocketLive A → SocketLive A
  datagram_of (ok kind) wire addr t =
      if text_eq kind (bytes "session_join")
      then join_of (parse_session_join wire) addr t
      else if text_eq kind (bytes "display_heartbeat")
      then heartbeat_of (parse_display_heartbeat wire) addr t
      else t
  datagram_of (throws e) wire addr t = t
  datagram_of Result.undefined wire addr t = t

  unfoldable pub handle_datagram : Text → Endpoint → SocketLive A → SocketLive A
  handle_datagram wire addr t = datagram_of (payload_kind wire) wire addr t

-- An answer of ::recvfrom: a datagram, EINTR, EAGAIN or EWOULDBLOCK, or another error.
pub data DatagramAnswer : Type 0 where
  datagram : Text → Endpoint → DatagramAnswer
  interrupted : DatagramAnswer
  would_block : DatagramAnswer
  error : Text → DatagramAnswer

module _ {A : Type 0} (F : FloatOps A) (c : Clock) where
  unfoldable pub receive_udp_datagrams : List DatagramAnswer → SocketLive A → Handled A
  receive_udp_datagrams [] t = Handled.done t
  receive_udp_datagrams (DatagramAnswer.would_block ∷ answers) t = Handled.done t
  receive_udp_datagrams (DatagramAnswer.error e ∷ answers) t =
      Handled.failed (bytes "udp recvfrom failed: " ++ e) t
  receive_udp_datagrams (DatagramAnswer.interrupted ∷ answers) t = receive_udp_datagrams answers t
  receive_udp_datagrams (DatagramAnswer.datagram wire addr ∷ answers) t =
      receive_udp_datagrams answers (handle_datagram F c wire addr t)
