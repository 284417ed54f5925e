-- ===== src/Transport/SocketLive/Delivery.antt =====
-- The delivery of snapshots to the viewer, and the operations of the back end.
use inerceptor_command_sim.Base.{
  ℕ, ◌+◌, ◌-◌, ◌*◌, zero, suc, Option, false, ◌&&◌, List, [], ◌∷◌, ◌++◌, none, some, ltb, leb, ◌==◌,
  if◌then◌else◌, length, drop, get_last?, min, max,
}
use inerceptor_command_sim.Base.Int.{pos_part}
use inerceptor_command_sim.Base.Text.{Text, bytes}
use inerceptor_command_sim.Floats.{FloatOps}
use inerceptor_command_sim.Core.Types.{ClientRole, Snapshot}
use inerceptor_command_sim.Protocol.Payloads.Pictures.{serialize_snapshot, serialize_telemetry}
use inerceptor_command_sim.Session.Clients.{disconnect_client, timeout_client}
use inerceptor_command_sim.Session.Commands.{archive_session}
use inerceptor_command_sim.Session.Tick.{advance_tick}
use inerceptor_command_sim.Transport.Common.{to_snapshot_payload, to_telemetry_payload}
use inerceptor_command_sim.Transport.SocketLive.State.{Endpoint, Clock, SocketLive}

module _ {A : Type 0} where
  -- `std::max(1, udp_max_batch_snapshots)`.
  abbrev pub batch_limit : SocketLive A → ℕ
  batch_limit t = max 1 (pos_part t.config.server.udp_max_batch_snapshots)

  unfoldable pub clear_viewer_binding : SocketLive A → SocketLive A
  clear_viewer_binding t = record t {
    viewer_endpoint = none;
    last_display_heartbeat_at = none;
    pending_udp_messages = [];
    viewer_sender_id = 0;
    last_snapshot_sent_index = 0;
  }

  unfoldable pub reset_viewer_delivery_cursor : SocketLive A → SocketLive A
  reset_viewer_delivery_cursor t =
      let size = length t.session.snapshots in
      let rewind_count =
        if t.config.server.udp_send_latest_only then 1 else min size (batch_limit t) in
      if size == 0
      then record t { last_snapshot_sent_index = 0 }
      else record t { last_snapshot_sent_index = size - rewind_count }

  unfoldable pub queue_udp_datagram : Text → Endpoint → SocketLive A → SocketLive A
  queue_udp_datagram wire target t = record t {
    pending_udp_messages = t.pending_udp_messages ++ record { wire = wire; target = target } ∷ [];
  }

  unfoldable pub disconnect_station : ClientRole → Text → SocketLive A → SocketLive A
  disconnect_station ClientRole.fire_control_console reason t =
      let closed = record t {
        has_command_client = false;
        tcp_buffer = [];
        pending_tcp_lines = [];
      } in
      if t.command_sender_id == 0 then closed else record closed {
        session = disconnect_client ClientRole.fire_control_console reason t.session;
        command_sender_id = 0;
      }
  disconnect_station ClientRole.tactical_display reason t =
      let cleared = clear_viewer_binding t in
      if t.viewer_sender_id == 0 then cleared else record cleared {
        session = disconnect_client ClientRole.tactical_display reason t.session;
      }

module _ {A : Type 0} (F : FloatOps A) where
  -- The two datagrams of a snapshot.
  unfoldable pub queue_snapshot : Endpoint → Snapshot A → SocketLive A → SocketLive A
  unfolding queue_udp_datagram
  queue_snapshot e snapshot t =
      queue_udp_datagram (serialize_telemetry F (to_telemetry_payload snapshot t.session.events)) e
        (queue_udp_datagram (serialize_snapshot F (to_snapshot_payload snapshot)) e t)

  -- The loop over the snapshots that wait, for at most `limit` rounds.
  unfoldable pub queue_batch : ℕ → Endpoint → List (Snapshot A) → SocketLive A → SocketLive A
  queue_batch zero e waiting t = t
  queue_batch (suc limit) e [] t = t
  queue_batch (suc limit) e (snapshot ∷ waiting) t =
      queue_batch limit e waiting (record (queue_snapshot e snapshot t) {
        last_snapshot_sent_index = t.last_snapshot_sent_index + 1;
      })

  abbrev pub queue_newest : Endpoint → Option (Snapshot A) → SocketLive A → SocketLive A
  queue_newest e none t = t
  queue_newest e (some snapshot) t =
      record (queue_snapshot e snapshot (record t { pending_udp_messages = [] })) {
        last_snapshot_sent_index = length t.session.snapshots;
      }

  -- The newest snapshot alone, in place of all that waits in the queue.
  unfoldable pub queue_latest : Endpoint → SocketLive A → SocketLive A
  queue_latest e t = queue_newest e (get_last? t.session.snapshots) t

  -- send_pending_snapshots, for the viewer that is bound.
  abbrev pub send_to : Option Endpoint → SocketLive A → SocketLive A
  send_to none t = t
  send_to (some e) t =
      if leb (length t.session.snapshots) t.last_snapshot_sent_index
      then t
      else if t.config.server.udp_send_latest_only
          && ltb 1 (length t.session.snapshots - t.last_snapshot_sent_index)
      then queue_latest e t
      else queue_batch (batch_limit t) e (drop t.last_snapshot_sent_index t.session.snapshots) t

  unfoldable pub send_pending_snapshots : SocketLive A → SocketLive A
  send_pending_snapshots t = send_to t.viewer_endpoint t

  unfoldable pub timeout_station : Clock → ClientRole → Text → SocketLive A → SocketLive A
  timeout_station c role reason t =
      let timed_out = record t {
        session = timeout_client F role reason c.wall_time_ms t.session;
      } in
      send_pending_snapshots (elim role [
        | ClientRole.fire_control_console ↦ timed_out
        | ClientRole.tactical_display ↦ clear_viewer_binding timed_out
      ])

  -- The milliseconds of the configuration as nanoseconds: a negative number of them has passed.
  abbrev timeout_ns : SocketLive A → ℕ
  timeout_ns t = pos_part t.config.server.heartbeat_timeout_ms * 1000000

  -- maybe_timeout_viewer, for the viewer that is bound and its last heartbeat.
  abbrev pub timeout_of : Clock → Option Endpoint → Option ℕ → SocketLive A → SocketLive A
  timeout_of c none heartbeat t = t
  timeout_of c (some e) none t = t
  timeout_of c (some e) (some at) t =
      if leb (timeout_ns t) (c.steady_ns - at)
      then record (timeout_station c ClientRole.tactical_display
          (bytes "viewer heartbeat timeout threshold exceeded") t) {
            last_display_heartbeat_at = none;
          }
      else t

  unfoldable pub maybe_timeout_viewer : Clock → SocketLive A → SocketLive A
  maybe_timeout_viewer c t = timeout_of c t.viewer_endpoint t.last_display_heartbeat_at t

  unfoldable pub tick : Clock → SocketLive A → SocketLive A
  tick c t =
      let checked = maybe_timeout_viewer c t in
      send_pending_snapshots
        (record checked { session = advance_tick F c.wall_time_ms checked.session })

  unfoldable pub archive : Clock → SocketLive A → SocketLive A
  archive c t =
      send_pending_snapshots (record t { session = archive_session F c.wall_time_ms t.session })
