-- ===== src/Transport/SocketLive/Kept/Handlers.antt =====
-- Each handler of a frame keeps a predicate that has the laws.
use inerceptor_command_sim.Base.{ℕ, true, List, [], ◌∷◌}
use inerceptor_command_sim.Base.Text.{Text}
use inerceptor_command_sim.Floats.{FloatOps}
use inerceptor_command_sim.Protocol.Payloads.Sessions.{
  SessionJoinPayload, SessionLeavePayload, ScenarioStopPayload, ScenarioResetPayload,
}
use inerceptor_command_sim.Protocol.Payloads.Scenario.{ScenarioStartPayload}
use inerceptor_command_sim.Protocol.Payloads.Commands.{
  TrackAcquirePayload, TrackDropPayload, InterceptorReadyPayload, EngageOrderPayload,
}
use inerceptor_command_sim.Session.Commands.{
  request_track, release_track, activate_asset, issue_command, reset_session, archive_session,
  start_scenario, configure_scenario,
}
use inerceptor_command_sim.Session.Run.{Command, perform}
use inerceptor_command_sim.Transport.SocketLive.State.{Clock, SocketLive, Handled, ack_of, send_ack}
use inerceptor_command_sim.Transport.SocketLive.Sockets.{
  SendAnswer, flush_lines, flush_tcp_writes, ended,
}
use inerceptor_command_sim.Transport.SocketLive.Console.{
  scenario_of, handle_session_join, handle_session_leave, handle_scenario_start,
  handle_scenario_stop, handle_scenario_reset, handle_track_acquire, handle_track_drop,
  handle_interceptor_ready, handle_engage_order,
}
use inerceptor_command_sim.Transport.SocketLive.Progress.{
  archive-IsProgress, perform-IsProgress, start-IsProgress,
}
use inerceptor_command_sim.Transport.SocketLive.Kept.{
  IsKept, HoldsAfter, if-kept, next-kept, unless_throws-kept, refuse-kept, send_ack-kept,
  console-kept, valid-kept, run_command-kept,
}

module _ {A : Type 0} (F : FloatOps A) (P : SocketLive A → Type 0) (law : IsKept F P) where
  pub ended-kept : (errors : List Text) (t : SocketLive A) → P t → HoldsAfter P (ended errors t)
  ended-kept [] t h = record { holds = h }
  ended-kept (e ∷ errors) t h = record { holds = h }

  pub handle_session_join-kept :
      (p : SessionJoinPayload) (t : SocketLive A) → P t → P (handle_session_join p t)
  unfolding handle_session_join
  handle_session_join-kept p t h =
      search
        (if-kept P, refuse-kept F P law, send_ack-kept F P law, law.joined p.envelope.sender_id t)

  pub flush-kept :
      (answers : List SendAnswer) (t : SocketLive A)
      → P t
      → HoldsAfter P (flush_tcp_writes answers t)
  unfolding flush_tcp_writes
  flush-kept answers t h =
      let f = flush_lines answers t.pending_tcp_lines in
      let sent = ended-kept f.errors _ (law.queued f.left t.server_sequence t h) in
      let unsent : HoldsAfter P (Handled.done t) = record { holds = h } in
      search (if-kept (HoldsAfter P))

  pub handle_session_leave-kept :
      (answers : ℕ → List SendAnswer) (p : SessionLeavePayload) (t : SocketLive A)
      → P t
      → HoldsAfter P (handle_session_leave answers p t)
  unfolding handle_session_leave
  handle_session_leave-kept answers p t h =
      let acked = send_ack p.envelope (ack_of true p.reason) t in
      valid-kept F P law p.envelope t _ h (
        next-kept P _ _
          (flush-kept (answers acked.server_sequence) acked
            (send_ack-kept F P law p.envelope (ack_of true p.reason) t h))
          (λ t' k. record { holds = law.left p.reason t' k }))

module _ {A : Type 0} (F : FloatOps A) (c : Clock) (P : SocketLive A → Type 0)
    (law : IsKept F P) where
  pub handle_scenario_start-kept :
      (p : ScenarioStartPayload) (t : SocketLive A) → P t → P (handle_scenario_start F c p t)
  unfolding handle_scenario_start perform
  handle_scenario_start-kept p t h =
      let scenario = scenario_of p t.config.scenario in
      let started =
        run_command-kept F P law c p.envelope
          (λ s. start_scenario F c.wall_time_ms (configure_scenario F scenario s)) t
          (start-IsProgress F c.wall_time_ms scenario t.session) h in
      search (if-kept P, console-kept F P law, refuse-kept F P law, unless_throws-kept P)

  pub handle_scenario_stop-kept :
      (p : ScenarioStopPayload) (t : SocketLive A) → P t → P (handle_scenario_stop F c p t)
  unfolding handle_scenario_stop
  handle_scenario_stop-kept p t h =
      let done =
        run_command-kept F P law c p.envelope
          (λ s. (ack_of true p.reason, archive_session F c.wall_time_ms s)) t
          (archive-IsProgress F c.wall_time_ms t.session) h in
      search (if-kept P, console-kept F P law, refuse-kept F P law)

  pub handle_scenario_reset-kept :
      (p : ScenarioResetPayload) (t : SocketLive A) → P t → P (handle_scenario_reset F c p t)
  unfolding handle_scenario_reset
  handle_scenario_reset-kept p t h =
      let r = reset_session F p.reason c.wall_time_ms t.session in
      let done =
        law.sent _
          (send_ack-kept F P law p.envelope r.0 _ (law.reset p.reason c.wall_time_ms t h)) in
      search (console-kept F P law)

  pub handle_track_acquire-kept :
      (p : TrackAcquirePayload) (t : SocketLive A) → P t → P (handle_track_acquire F c p t)
  unfolding handle_track_acquire perform
  handle_track_acquire-kept p t h =
      let done =
        run_command-kept F P law c p.envelope (request_track F c.wall_time_ms) t
          (perform-IsProgress F c.wall_time_ms Command.track t.session) h in
      search (if-kept P, console-kept F P law, refuse-kept F P law)

  pub handle_track_drop-kept :
      (p : TrackDropPayload) (t : SocketLive A) → P t → P (handle_track_drop F c p t)
  unfolding handle_track_drop perform
  handle_track_drop-kept p t h =
      let done =
        run_command-kept F P law c p.envelope (release_track F c.wall_time_ms) t
          (perform-IsProgress F c.wall_time_ms Command.drop t.session) h in
      search (if-kept P, console-kept F P law, refuse-kept F P law)

  pub handle_interceptor_ready-kept :
      (p : InterceptorReadyPayload) (t : SocketLive A) → P t → P (handle_interceptor_ready F c p t)
  unfolding handle_interceptor_ready perform
  handle_interceptor_ready-kept p t h =
      let done =
        run_command-kept F P law c p.envelope (activate_asset F c.wall_time_ms) t
          (perform-IsProgress F c.wall_time_ms Command.arm t.session) h in
      search (if-kept P, console-kept F P law, refuse-kept F P law)

  pub handle_engage_order-kept :
      (p : EngageOrderPayload) (t : SocketLive A) → P t → P (handle_engage_order F c p t)
  unfolding handle_engage_order perform
  handle_engage_order-kept p t h =
      let done =
        run_command-kept F P law c p.envelope (issue_command F c.wall_time_ms) t
          (perform-IsProgress F c.wall_time_ms Command.fire t.session) h in
      search (if-kept P, console-kept F P law, refuse-kept F P law)
