-- ===== src/Transport/SocketLive/Soundness/Calls.antt =====
-- The datagrams of the viewer and the calls of the server keep the invariant of the transport.
use inerceptor_command_sim.Base.{ℕ, refl, inl, inr, List, [], ◌∷◌, Option, none, some, arith}
use inerceptor_command_sim.Base.Result.{Result, ok, throws}
use inerceptor_command_sim.Base.Text.{Text, bytes}
use inerceptor_command_sim.Floats.{FloatOps}
use inerceptor_command_sim.Core.Types.{ClientRole}
use inerceptor_command_sim.Core.Validation.{RuntimeConfig}
use inerceptor_command_sim.Protocol.Payloads.Sessions.{SessionJoinPayload, parse_session_join}
use inerceptor_command_sim.Protocol.Payloads.Review.{
  DisplayHeartbeatPayload, parse_display_heartbeat,
}
use inerceptor_command_sim.Session.State.{new_session}
use inerceptor_command_sim.Transport.SocketLive.State.{
  Endpoint, Clock, SocketLive, FrameFormat, first_state,
}
use inerceptor_command_sim.Transport.SocketLive.Delivery.{
  clear_viewer_binding, reset_viewer_delivery_cursor, disconnect_station, timeout_station,
  timeout_of, maybe_timeout_viewer, tick, archive,
}
use inerceptor_command_sim.Transport.SocketLive.Viewer.{
  reconnect_viewer, acknowledge, handle_heartbeat, bind_viewer, handle_viewer_join, payload_kind,
  join_of, heartbeat_of, datagram_of, handle_datagram, DatagramAnswer, receive_udp_datagrams,
}
use inerceptor_command_sim.Transport.SocketLive.Poll.{
  Answers, poll_once, ServerCall, serve, serve_all,
}
use inerceptor_command_sim.Transport.SocketLive.Progress.{
  join-IsProgress, leave-IsProgress, tick-IsProgress, archive-IsProgress, timeout-IsProgress,
}
use inerceptor_command_sim.Transport.SocketLive.Kept.{HoldsAfter, if-kept, next-kept, reject-kept}
use inerceptor_command_sim.Transport.SocketLive.Kept.Handlers.{flush-kept}
use inerceptor_command_sim.Transport.SocketLive.Soundness.{IsSound, IsSound-IsKept, moved-IsSound}
use inerceptor_command_sim.Transport.SocketLive.Soundness.Rounds.{
  accept-IsSound, flush_udp-IsSound, receive-IsSound,
}

module _ {A : Type 0} where
  -- The invariant says nothing of the viewer, nor of the queue of datagrams.
  viewer-IsSound :
      (e : Option Endpoint) (at : Option ℕ) (id n : ℕ) (q : _) (t : SocketLive A)
      → IsSound t
      → IsSound (record t {
        viewer_endpoint = e;
        last_display_heartbeat_at = at;
        viewer_sender_id = id;
        server_sequence = n;
        pending_udp_messages = q;
      })
  viewer-IsSound e at id n q t h = record { sent = h.sent; cursor = h.cursor; console = h.console }

  clear-IsSound : (t : SocketLive A) → IsSound t → IsSound (clear_viewer_binding t)
  unfolding clear_viewer_binding
  clear-IsSound t h = record { sent = ground arith; cursor = h.cursor; console = h.console }

  rewind-IsSound : (t : SocketLive A) → IsSound t → IsSound (reset_viewer_delivery_cursor t)
  unfolding reset_viewer_delivery_cursor
  rewind-IsSound t h = record {
    sent = ground arith;
    cursor = record {
      on_entry = ground (arith, h.cursor.on_entry);
      known = ground (arith, h.cursor.known);
    };
    console = ground (arith, h.console);
  }

module _ {A : Type 0} (F : FloatOps A) (c : Clock) where
  reconnect-IsSound : (t : SocketLive A) → IsSound t → IsSound (reconnect_viewer F c t)
  unfolding reconnect_viewer
  reconnect-IsSound t h =
      (IsSound-IsKept F).sent _
        (moved-IsSound F _ t (join-IsProgress t.viewer_sender_id t.session) h)

  acknowledge-IsSound :
      (p : DisplayHeartbeatPayload) (addr : Endpoint) (t : SocketLive A)
      → IsSound t
      → IsSound (acknowledge F c p addr t)
  unfolding acknowledge
  acknowledge-IsSound p addr t h =
      viewer-IsSound t.viewer_endpoint (some c.steady_ns) t.viewer_sender_id _ _ t h

  heartbeat-IsSound :
      (p : DisplayHeartbeatPayload) (addr : Endpoint) (t : SocketLive A)
      → IsSound t
      → IsSound (handle_heartbeat F c p addr t)
  unfolding handle_heartbeat
  heartbeat-IsSound p addr t h =
      let acked = acknowledge-IsSound p addr t h in search (if-kept IsSound, reconnect-IsSound)

  bind-IsSound :
      (id : ℕ) (addr : Endpoint) (t : SocketLive A)
      → IsSound t
      → IsSound (bind_viewer F c id addr t)
  unfolding bind_viewer
  bind-IsSound id addr t h = reconnect-IsSound _ (
      rewind-IsSound _ (
        viewer-IsSound (some addr) (some c.steady_ns) id t.server_sequence t.pending_udp_messages t
          h))

  join-IsSound :
      (p : SessionJoinPayload) (addr : Endpoint) (t : SocketLive A)
      → IsSound t
      → IsSound (handle_viewer_join F c p addr t)
  unfolding handle_viewer_join
  join-IsSound p addr t h =
      let refused =
        reject-kept F IsSound (IsSound-IsKept F) (bytes "Viewer registration rejected")
          (bytes "socket_live allows only one active tactical display") [] t h in
      let beating =
        viewer-IsSound t.viewer_endpoint (some c.steady_ns) t.viewer_sender_id t.server_sequence
          t.pending_udp_messages t h in
      search (if-kept IsSound, reconnect-IsSound, bind-IsSound)

  join_of-IsSound :
      (r : Result SessionJoinPayload) (addr : Endpoint) (t : SocketLive A)
      → IsSound t
      → IsSound (join_of F c r addr t)
  join_of-IsSound (ok p) addr t h = join-IsSound p addr t h
  join_of-IsSound (throws e) addr t h = h
  join_of-IsSound Result.undefined addr t h = h

  heartbeat_of-IsSound :
      (r : Result DisplayHeartbeatPayload) (addr : Endpoint) (t : SocketLive A)
      → IsSound t
      → IsSound (heartbeat_of F c r addr t)
  heartbeat_of-IsSound (ok p) addr t h = heartbeat-IsSound p addr t h
  heartbeat_of-IsSound (throws e) addr t h = h
  heartbeat_of-IsSound Result.undefined addr t h = h

  datagram-IsSound :
      (kind : Result Text) (wire : Text) (addr : Endpoint) (t : SocketLive A)
      → IsSound t
      → IsSound (datagram_of F c kind wire addr t)
  datagram-IsSound (ok kind) wire addr t h =
      let joins = join_of-IsSound (parse_session_join wire) addr t h in
      let beats = heartbeat_of-IsSound (parse_display_heartbeat wire) addr t h in
      search (if-kept IsSound)
  datagram-IsSound (throws e) wire addr t h = h
  datagram-IsSound Result.undefined wire addr t h = h

  receive_udp-IsSound :
      (answers : List DatagramAnswer) (t : SocketLive A)
      → IsSound t
      → HoldsAfter IsSound (receive_udp_datagrams F c answers t)
  unfolding receive_udp_datagrams handle_datagram
  receive_udp-IsSound [] t h = record { holds = h }
  receive_udp-IsSound (DatagramAnswer.would_block ∷ answers) t h = record { holds = h }
  receive_udp-IsSound (DatagramAnswer.error e ∷ answers) t h = record { holds = h }
  receive_udp-IsSound (DatagramAnswer.interrupted ∷ answers) t h = receive_udp-IsSound answers t h
  receive_udp-IsSound (DatagramAnswer.datagram wire addr ∷ answers) t h =
      receive_udp-IsSound answers _ (datagram-IsSound (payload_kind wire) wire addr t h)

  poll_once-IsSound :
      (a : Answers) (t : SocketLive A) → IsSound t → HoldsAfter IsSound (poll_once F c a t)
  unfolding poll_once
  poll_once-IsSound a t h =
      let P = IsSound {A = A} in
      let law = IsSound-IsKept F in
      next-kept P _ _
        (next-kept P _ _
          (next-kept P _ _
            (next-kept P _ _
              (next-kept P _ _
                (next-kept P _ _ (accept-IsSound F a.accepts t h)
                  (flush-kept F P law a.first_sends))
                (flush_udp-IsSound F a.first_datagram_sends))
              (receive_udp-IsSound a.datagrams))
            (receive-IsSound F c a.leave_sends a.received))
          (flush-kept F P law a.last_sends))
        (flush_udp-IsSound F a.last_datagram_sends)

  timeout-IsSound :
      (role : ClientRole) (reason : Text) (t : SocketLive A)
      → IsSound t
      → IsSound (timeout_station F c role reason t)
  unfolding timeout_station
  timeout-IsSound ClientRole.fire_control_console reason t h =
      (IsSound-IsKept F).sent _
        (moved-IsSound F _ t (timeout-IsProgress F c.wall_time_ms _ _ t.session) h)
  timeout-IsSound ClientRole.tactical_display reason t h =
      (IsSound-IsKept F).sent _ (
        clear-IsSound _ (moved-IsSound F _ t (timeout-IsProgress F c.wall_time_ms _ _ t.session) h))

  timeout_of-IsSound :
      (e : Option Endpoint) (at : Option ℕ) (t : SocketLive A)
      → IsSound t
      → IsSound (timeout_of F c e at t)
  timeout_of-IsSound none at t h = h
  timeout_of-IsSound (some e) none t h = h
  timeout_of-IsSound (some e) (some at) t h =
      let u =
        timeout_station F c ClientRole.tactical_display
          (bytes "viewer heartbeat timeout threshold exceeded") t in
      let timed_out =
        viewer-IsSound u.viewer_endpoint none u.viewer_sender_id u.server_sequence
          u.pending_udp_messages u (timeout-IsSound ClientRole.tactical_display _ t h) in
      search (if-kept IsSound)

  maybe_timeout-IsSound : (t : SocketLive A) → IsSound t → IsSound (maybe_timeout_viewer F c t)
  unfolding maybe_timeout_viewer
  maybe_timeout-IsSound t h = timeout_of-IsSound t.viewer_endpoint t.last_display_heartbeat_at t h

  tick-IsSound : (t : SocketLive A) → IsSound t → IsSound (tick F c t)
  unfolding tick
  tick-IsSound t h =
      let checked = maybe_timeout_viewer F c t in
      (IsSound-IsKept F).sent _ (
        moved-IsSound F _ checked (tick-IsProgress F c.wall_time_ms checked.session)
          (maybe_timeout-IsSound t h))

  archive-IsSound : (t : SocketLive A) → IsSound t → IsSound (archive F c t)
  unfolding archive
  archive-IsSound t h =
      (IsSound-IsKept F).sent _
        (moved-IsSound F _ t (archive-IsProgress F c.wall_time_ms t.session) h)

module _ {A : Type 0} (F : FloatOps A) where
  disconnect-IsSound :
      (role : ClientRole) (reason : Text) (t : SocketLive A)
      → IsSound t
      → IsSound (disconnect_station role reason t)
  unfolding disconnect_station clear_viewer_binding
  disconnect-IsSound ClientRole.fire_control_console reason t h = (IsSound-IsKept F).left reason t h
  disconnect-IsSound ClientRole.tactical_display reason t h =
      let cleared = clear-IsSound t h in
      let left =
        moved-IsSound F _ (clear_viewer_binding t) (leave-IsProgress reason t.session) cleared in
      search (if-kept IsSound)

  serve-IsSound :
      (call : ServerCall) (t : SocketLive A) → IsSound t → HoldsAfter IsSound (serve F call t)
  unfolding serve
  serve-IsSound (ServerCall.polls c a) t h = poll_once-IsSound F c a t h
  serve-IsSound (ServerCall.ticks c) t h = record { holds = tick-IsSound F c t h }
  serve-IsSound (ServerCall.archives c) t h = record { holds = archive-IsSound F c t h }
  serve-IsSound (ServerCall.disconnects role reason) t h = record {
    holds = disconnect-IsSound role reason t h;
  }
  serve-IsSound (ServerCall.times_out c role reason) t h = record {
    holds = timeout-IsSound F c role reason t h;
  }

  serve_all-IsSound_from :
      (calls : List ServerCall) (t : SocketLive A)
      → IsSound t
      → HoldsAfter IsSound (serve_all F calls t)
  unfolding serve_all
  serve_all-IsSound_from [] t h = record { holds = h }
  serve_all-IsSound_from (call ∷ calls) t h =
      next-kept IsSound _ _ (serve-IsSound call t h) (serve_all-IsSound_from calls)

  first_state-IsSound : (c : RuntimeConfig) (f : FrameFormat) → IsSound (first_state F c f)
  unfolding first_state new_session
  first_state-IsSound c f = record {
    sent = omega arith;
    cursor = record {
      on_entry = record { same = refl; inside = inr (refl, refl) };
      known = omega arith;
    };
    console = inl refl;
  }

  -- Whatever the server calls, whatever the system answers and however far the calls come before
  -- one throws, the transport is in a state that is sound: the snapshots that have been sent are in
  -- the log, the cursor of the review is on an entry of the log of events (or at 0 of none), and the
  -- sender of the commands is 0 or the console of the session, which is not disconnected. Where a
  -- call leaves the defined behaviour of C++ nothing is said.
  pub serve_all-IsSound :
      (c : RuntimeConfig) (f : FrameFormat) (calls : List ServerCall)
      → HoldsAfter IsSound (serve_all F calls (first_state F c f))
  serve_all-IsSound c f calls = serve_all-IsSound_from calls _ (first_state-IsSound c f)
