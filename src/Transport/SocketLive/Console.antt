-- ===== src/Transport/SocketLive/Console.antt =====
-- What a payload of the fire control console does: the branches of process_tcp_frame.
use inerceptor_command_sim.Base.{
  ℕ, true, ◌&&◌, ◌||◌, not, List, [], ◌∷◌, Option, none, some, ◌==◌, if◌then◌else◌,
}
use inerceptor_command_sim.Base.Result.{Result, ok, throws}
use inerceptor_command_sim.Base.Text.{Text, bytes, text_eq}
use inerceptor_command_sim.Floats.{FloatOps}
use inerceptor_command_sim.Core.Config.{ScenarioConfig}
use inerceptor_command_sim.Core.Types.{
  ClientRole, CommandResult, is_standby, is_archived, client_role_to_string,
}
use inerceptor_command_sim.Core.Validation.{validate_runtime_config}
use inerceptor_command_sim.Protocol.Messages.{SessionEnvelope}
use inerceptor_command_sim.Protocol.Payloads.Sessions.{
  SessionJoinPayload, SessionLeavePayload, ScenarioStopPayload, ScenarioResetPayload,
}
use inerceptor_command_sim.Protocol.Payloads.Scenario.{ScenarioStartPayload}
use inerceptor_command_sim.Protocol.Payloads.Commands.{
  TrackAcquirePayload, TrackDropPayload, InterceptorReadyPayload, EngageOrderPayload,
}
use inerceptor_command_sim.Session.State.{Session}
use inerceptor_command_sim.Session.Clients.{connect_client}
use inerceptor_command_sim.Session.Commands.{
  start_scenario, configure_scenario, reset_session, request_track, release_track, activate_asset,
  issue_command, archive_session,
}
use inerceptor_command_sim.Transport.InProcess.{default_session_id, target_id, asset_id}
use inerceptor_command_sim.Transport.SocketLive.State.{
  Clock, SocketLive, Handled, ◌>=>◌, ack_of, reject_payload, send_ack,
}
use inerceptor_command_sim.Transport.SocketLive.Delivery.{
  disconnect_station, reset_viewer_delivery_cursor, send_pending_snapshots,
}
use inerceptor_command_sim.Transport.SocketLive.Sockets.{SendAnswer, flush_tcp_writes}
use inerceptor_command_sim.View.ReplayCursor.{ReplayCursor}

abbrev pub no_cursor : ReplayCursor
no_cursor = record { index = 0; total = 0 }

abbrev joined : CommandResult
joined = ack_of true (bytes "fire control console joined")

-- The scenario of the payload, with the name and the other settings of the configured one.
abbrev pub scenario_of : ScenarioStartPayload → ScenarioConfig → ScenarioConfig
scenario_of p c = record c {
  world_width = p.world_width;
  world_height = p.world_height;
  target_start_x = p.target_start_x;
  target_start_y = p.target_start_y;
  target_velocity_x = p.target_velocity_x;
  target_velocity_y = p.target_velocity_y;
  interceptor_start_x = p.interceptor_start_x;
  interceptor_start_y = p.interceptor_start_y;
  interceptor_speed_per_tick = p.interceptor_speed_per_tick;
  intercept_radius = p.intercept_radius;
  engagement_timeout_ticks = p.engagement_timeout_ticks;
  seeker_fov_deg = p.seeker_fov_deg;
  launch_angle_deg = p.launch_angle_deg;
}

module _ {A : Type 0} where
  -- The answer to an envelope that is not the console's, with the rejection in the log.
  unfoldable pub validate_command_envelope :
      SessionEnvelope → SocketLive A → Option (CommandResult × SocketLive A)
  validate_command_envelope envelope t =
      if t.command_sender_id == 0
      then some
          (reject_payload (bytes "Command rejected") (bytes "command sender is not connected") [] t)
      else if not (envelope.session_id == default_session_id)
      then some (
          reject_payload (bytes "Command rejected")
            (bytes "payload session_id does not match the active session") [] t)
      else if not (envelope.sender_id == t.command_sender_id)
      then some (
          reject_payload (bytes "Engage order rejected")
            (bytes "payload sender_id does not match the connected fire control console") [] t)
      else none

  -- `send_ack` of a result with the state that it comes with.
  abbrev pub answer : SessionEnvelope → CommandResult × SocketLive A → SocketLive A
  answer envelope r = send_ack envelope r.0 r.1

  -- The answer to an invalid envelope, or else the state of a handler.
  abbrev pub unless_invalid :
      SessionEnvelope → Option (CommandResult × SocketLive A) → SocketLive A → SocketLive A
  unless_invalid envelope (some invalid) t = answer envelope invalid
  unless_invalid envelope none t = t

  abbrev pub handled_unless :
      SessionEnvelope → Option (CommandResult × SocketLive A) → Handled A → Handled A
  handled_unless envelope (some invalid) h = Handled.done (answer envelope invalid)
  handled_unless envelope none h = h

  -- The state of a handler, or of the one that catches the exception of a check.
  abbrev pub unless_throws :
      {B : Type 0} → Result B → (Text → SocketLive A) → SocketLive A → SocketLive A
  unless_throws (throws e) refused t = refused e
  unless_throws (ok b) refused t = t
  unless_throws Result.undefined refused t = t

  -- What follows a valid envelope.
  abbrev pub with_console :
      SessionEnvelope → SocketLive A → (SocketLive A → SocketLive A) → SocketLive A
  with_console envelope t f = unless_invalid envelope (validate_command_envelope envelope t) (f t)

  unfoldable pub handle_session_join : SessionJoinPayload → SocketLive A → SocketLive A
  handle_session_join p t =
      let summary = bytes "Session join rejected" in
      let sender = p.envelope.sender_id in
      if not (text_eq p.client_role (client_role_to_string ClientRole.fire_control_console))
      then answer p.envelope (
          reject_payload summary (bytes "tcp session_join only supports fire_control_console role")
            [] t)
      else if not (p.envelope.session_id == default_session_id)
      then answer p.envelope
          (reject_payload summary (bytes "session_join payload session_id mismatch") [] t)
      else if not (t.command_sender_id == 0) && not (sender == t.command_sender_id)
      then answer p.envelope (
          reject_payload summary (bytes "socket_live allows only one active fire control console")
            [] t)
      else if t.command_sender_id == sender && t.has_command_client
      then send_ack p.envelope joined t
      else send_ack p.envelope joined (record t {
        command_sender_id = sender;
        session = connect_client ClientRole.fire_control_console sender t.session;
      })

  -- The acknowledgement is sent, as far as the socket takes it, before the connection is dropped.
  -- `answers` are those of ::send, by the sequence number of the acknowledgement.
  unfoldable pub handle_session_leave :
      (ℕ → List SendAnswer) → SessionLeavePayload → SocketLive A → Handled A
  handle_session_leave answers p t =
      let acked = send_ack p.envelope (ack_of true p.reason) t in
      handled_unless p.envelope (validate_command_envelope p.envelope t) (
        flush_tcp_writes (answers acked.server_sequence) acked
        >=> (λ t'. Handled.done (disconnect_station ClientRole.fire_control_console p.reason t')))

module _ {A : Type 0} (F : FloatOps A) (c : Clock) where
  -- A command of the session: its result is acknowledged, and new snapshots go to the viewer.
  abbrev pub run_command :
      SessionEnvelope → (Session A → CommandResult × Session A) → SocketLive A → SocketLive A
  run_command envelope command t =
      let r = command t.session in
      send_pending_snapshots F (send_ack envelope r.0 (record t { session = r.1 }))

  unfoldable pub handle_scenario_start : ScenarioStartPayload → SocketLive A → SocketLive A
  handle_scenario_start p t =
      let summary = bytes "Scenario start rejected" in
      let scenario = scenario_of p t.config.scenario in
      with_console p.envelope t (λ t.
        if not (is_standby t.session.phase)
        then answer p.envelope
            (reject_payload summary (bytes "scenario can only be started from standby state") [] t)
        else if not (text_eq p.scenario_name t.config.scenario.name)
        then answer p.envelope (
            reject_payload summary
              (bytes "scenario_start payload does not match configured scenario") [] t)
        else unless_throws (validate_runtime_config (record t.config { scenario = scenario }))
            (λ e. answer p.envelope (reject_payload summary e [] t))
            (run_command p.envelope
              (λ s. start_scenario F c.wall_time_ms (configure_scenario F scenario s)) t))

  unfoldable pub handle_scenario_stop : ScenarioStopPayload → SocketLive A → SocketLive A
  handle_scenario_stop p t = with_console p.envelope t (λ t.
      if is_standby t.session.phase || is_archived t.session.phase
      then answer p.envelope (
          reject_payload (bytes "Scenario stop rejected")
            (bytes "scenario_stop is only valid while an active scenario is running") [] t)
      else run_command p.envelope (λ s. (ack_of true p.reason, archive_session F c.wall_time_ms s))
          t)

  unfoldable pub handle_scenario_reset : ScenarioResetPayload → SocketLive A → SocketLive A
  handle_scenario_reset p t = with_console p.envelope t (λ t.
      let r = reset_session F p.reason c.wall_time_ms t.session in
      let reset =
        reset_viewer_delivery_cursor (record t { session = r.1; replay_cursor = no_cursor }) in
      send_pending_snapshots F (send_ack p.envelope r.0 reset))

  unfoldable pub handle_track_acquire : TrackAcquirePayload → SocketLive A → SocketLive A
  handle_track_acquire p t = with_console p.envelope t (λ t.
      if not (text_eq p.target_id target_id)
      then answer p.envelope (
          reject_payload (bytes "Track request rejected")
            (bytes "track request target does not match the active target") (target_id ∷ []) t)
      else run_command p.envelope (request_track F c.wall_time_ms) t)

  unfoldable pub handle_track_drop : TrackDropPayload → SocketLive A → SocketLive A
  handle_track_drop p t = with_console p.envelope t (λ t.
      if not (text_eq p.target_id target_id)
      then answer p.envelope (
          reject_payload (bytes "Track release rejected")
            (bytes "track release target does not match the active target") (target_id ∷ []) t)
      else run_command p.envelope (release_track F c.wall_time_ms) t)

  unfoldable pub handle_interceptor_ready : InterceptorReadyPayload → SocketLive A → SocketLive A
  handle_interceptor_ready p t = with_console p.envelope t (λ t.
      if not (text_eq p.interceptor_id asset_id)
      then answer p.envelope (
          reject_payload (bytes "Interceptor activation rejected")
            (bytes "interceptor activation does not match the configured interceptor")
            (asset_id ∷ []) t)
      else run_command p.envelope (activate_asset F c.wall_time_ms) t)

  unfoldable pub handle_engage_order : EngageOrderPayload → SocketLive A → SocketLive A
  handle_engage_order p t = with_console p.envelope t (λ t.
      if not (text_eq p.interceptor_id asset_id && text_eq p.target_id target_id)
      then answer p.envelope (
          reject_payload (bytes "Command rejected")
            (bytes "command payload entity ids do not match the active session")
            (asset_id ∷ target_id ∷ []) t)
      else run_command p.envelope (issue_command F c.wall_time_ms) t)
