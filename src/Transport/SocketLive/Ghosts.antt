-- ===== src/Transport/SocketLive/Ghosts.antt =====
-- A display that has timed out is shown as connected again by a heartbeat of nobody.
use inerceptor_command_sim.Base.{◌≡◌, refl, true, none, get_last?-append, ap}
use inerceptor_command_sim.Base.Text.{Text}
use inerceptor_command_sim.Floats.{FloatOps}
use inerceptor_command_sim.Core.Types.{ClientRole}
use inerceptor_command_sim.Protocol.Payloads.Review.{DisplayHeartbeatPayload}
use inerceptor_command_sim.Session.State.{push_event}
use inerceptor_command_sim.Session.Snapshots.{record_snapshot, capture_snapshot}
use inerceptor_command_sim.Session.Clients.{connect_client, timeout_client}
use inerceptor_command_sim.Transport.InProcess.{default_session_id}
use inerceptor_command_sim.Transport.SocketLive.State.{Endpoint, Clock, SocketLive}
use inerceptor_command_sim.Transport.SocketLive.Delivery.{
  clear_viewer_binding, send_pending_snapshots, timeout_station, queue_udp_datagram,
}
use inerceptor_command_sim.Transport.SocketLive.Viewer.{
  is_timeout_picture, shows_timeout, reconnect_viewer, acknowledge, handle_heartbeat,
}

module _ {A : Type 0} (F : FloatOps A) (c d : Clock) where
  timed_out_lem :
      (reason : Text) (t : SocketLive A)
      → shows_timeout (timeout_station F c ClientRole.tactical_display reason t) ≡ true
  unfolding timeout_station clear_viewer_binding send_pending_snapshots timeout_client push_event
      record_snapshot capture_snapshot
  timed_out_lem reason t = ap is_timeout_picture (get_last?-append t.session.snapshots _)

  -- When the display has timed out no viewer is bound. A heartbeat of the session with sender 0, from
  -- any address, then connects the display of the session again, under the sender 0.
  pub handle_heartbeat-timed_out :
      (reason : Text) (p : DisplayHeartbeatPayload) (addr : Endpoint) (t : SocketLive A)
      → p.envelope.session_id ≡ default_session_id
      → p.envelope.sender_id ≡ 0
      → let gone = timeout_station F c ClientRole.tactical_display reason t in
        (gone.viewer_endpoint ≡ none)
        × ((handle_heartbeat F d p addr gone).session
            ≡ connect_client ClientRole.tactical_display 0 gone.session)
  unfolding timeout_station clear_viewer_binding send_pending_snapshots handle_heartbeat
      reconnect_viewer acknowledge queue_udp_datagram
  handle_heartbeat-timed_out reason p addr t session sender =
      (refl, rw (session, sender, timed_out_lem reason t) refl)
