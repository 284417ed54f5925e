-- ===== src/Session/Commands.antt =====
-- common/src/simulation_commands.cpp: the commands of the fire control console. Each returns its
-- result and the new session; `wall_time_ms` is the wall clock of the snapshot that it records.
use inerceptor_command_sim.Base.{
  ℕ, true, false, ◌||◌, not, List, [], ◌∷◌, ◌++◌, none, some, if◌then◌else◌,
}
use Prim.Native.String.{String}
use inerceptor_command_sim.Base.Decimal.{int_to_string}
use inerceptor_command_sim.Base.Text.{Text, bytes}
use inerceptor_command_sim.Floats.{FloatOps, float_zero}
use inerceptor_command_sim.Protocol.Messages.{TcpMessageKind, EventType}
use inerceptor_command_sim.Core.Config.{ScenarioConfig}
use inerceptor_command_sim.Core.Types.{
  ConnectionState, SessionPhase, InterceptorStatus, EngageOrderStatus, ClientState, CommandResult,
  is_disconnected, is_reconnected, is_standby, is_detecting, is_tracking, is_interceptor_ready,
  is_engage_ordered, is_intercepting, is_assessed, is_archived, is_ready_status,
}
use inerceptor_command_sim.Session.State.{Session, no_assessment, push_event, reject_command}
use inerceptor_command_sim.Session.Snapshots.{record_snapshot}
use inerceptor_command_sim.Session.Track.{
  clear_track_state, seed_track_state_from_target, reset_world_state_from_scenario,
}

abbrev pub accept : String → TcpMessageKind → CommandResult
accept reason kind = record { is_accepted = true; reason = bytes reason; ack_kind = kind }

abbrev simulation_server : Text
simulation_server = bytes "simulation_server"

abbrev console : Text
console = bytes "fire_control_console"

-- A reconnected station counts as connected after a reset.
abbrev pub settle_client : ClientState → ClientState
settle_client c = record c {
  connection = if is_reconnected c.connection then ConnectionState.connected else c.connection;
}

module _ {A : Type 0} (F : FloatOps A) where
  unfoldable pub start_scenario : ℕ → Session A → CommandResult × Session A
  start_scenario wall_time_ms s =
      let cleared =
        clear_track_state F (record s {
          phase = SessionPhase.detecting;
          target = record s.target { active = true };
        }) in
      let started = record cleared {
        interceptor_status = InterceptorStatus.idle;
        engage_order_status = EngageOrderStatus.unordered;
        assessment = no_assessment;
      } in
      if is_disconnected s.fire_control_console.connection
      then reject_command (bytes "Scenario start rejected")
          (bytes "fire control console must connect before starting the scenario") [] s
      else if not (is_standby s.phase)
      then reject_command (bytes "Scenario start rejected")
          (bytes "scenario can only be started from standby state") [] s
      else (
        accept "scenario started" TcpMessageKind.scenario_start,
        record_snapshot F (float_zero F) wall_time_ms (
            push_event EventType.session_started simulation_server (started.target.id ∷ [])
              (bytes "Engagement initiated")
              (bytes "The authoritative loop is now in the detection state.") started),
      )

  unfoldable pub configure_scenario : ScenarioConfig → Session A → Session A
  configure_scenario c s =
      let cleared =
        clear_track_state F (reset_world_state_from_scenario F (record s { scenario = c })) in
      record cleared {
        interceptor_status = InterceptorStatus.idle;
        engage_order_status = EngageOrderStatus.unordered;
        assessment = no_assessment;
        engagement_started_tick = none;
      }

  unfoldable pub reset_session : Text → ℕ → Session A → CommandResult × Session A
  reset_session reason wall_time_ms s =
      let cleared =
        clear_track_state F (
          reset_world_state_from_scenario F
            (record s { tick = 0; phase = SessionPhase.standby })) in
      (
        accept "session reset to standby state" TcpMessageKind.command_ack,
        record_snapshot F (float_zero F) wall_time_ms (record cleared {
          interceptor_status = InterceptorStatus.idle;
          engage_order_status = EngageOrderStatus.unordered;
          assessment = no_assessment;
          engagement_started_tick = none;
          reconnect_exercised = false;
          timeout_exercised = false;
          packet_gap_exercised = false;
          events = [];
          snapshots = [];
          fire_control_console = settle_client cleared.fire_control_console;
          tactical_display = settle_client cleared.tactical_display;
        }),
      )

  unfoldable pub request_track : ℕ → Session A → CommandResult × Session A
  request_track wall_time_ms s =
      let seeded = seed_track_state_from_target F s in
      let tracking = record seeded { phase = SessionPhase.tracking } in
      let target_id = s.target.id in
      let asset_id = s.asset.id in
      let summary = bytes "Track request rejected" in
      if is_detecting s.phase
      then (
        accept "track accepted" TcpMessageKind.track_acquire,
        record_snapshot F (float_zero F) wall_time_ms (
            push_event EventType.track_updated console (target_id ∷ [])
              (bytes "Track file established")
              (bytes "A target track file is now available for pre-launch fire control.") tracking),
      )
      else if is_interceptor_ready s.phase
      then (if s.track.active
          then reject_command summary (bytes "track is already established") (target_id ∷ []) s
          else (
            accept "track accepted" TcpMessageKind.track_acquire,
            record_snapshot F (float_zero F) wall_time_ms (
                push_event EventType.track_updated console (target_id ∷ asset_id ∷ [])
                  (bytes "Track file established")
                  (bytes "The track file was re-established while the interceptor remained ready.")
                  seeded),
          ))
      else if is_engage_ordered s.phase || is_intercepting s.phase
      then reject_command summary (bytes "track control is unavailable after engage order")
          (target_id ∷ asset_id ∷ []) s
      else if is_assessed s.phase || is_archived s.phase
      then reject_command summary (bytes "track control is unavailable after archive")
          (target_id ∷ []) s
      else reject_command summary
          (bytes "track request is only valid while detecting or interceptor_ready")
          (target_id ∷ []) s

  unfoldable pub release_track : ℕ → Session A → CommandResult × Session A
  release_track wall_time_ms s =
      let cleared = clear_track_state F s in
      let detecting = record cleared { phase = SessionPhase.detecting } in
      let target_id = s.target.id in
      let asset_id = s.asset.id in
      let summary = bytes "Track release rejected" in
      if is_tracking s.phase
      then (if not s.track.active
          then reject_command summary (bytes "track is already dropped") (target_id ∷ []) s
          else (
            accept "track released" TcpMessageKind.track_drop,
            record_snapshot F (float_zero F) wall_time_ms (
                push_event EventType.track_updated console (target_id ∷ [])
                  (bytes "Track file dropped")
                  (bytes
                    "Unguided intercept will be used unless the track file is re-established before the fire order. Session returned to detection.")
                  detecting),
          ))
      else if is_interceptor_ready s.phase
      then (if not s.track.active
          then reject_command summary (bytes "track is already dropped") (target_id ∷ asset_id ∷ [])
              s
          else (
            accept "track released" TcpMessageKind.track_drop,
            record_snapshot F (float_zero F) wall_time_ms (
                push_event EventType.track_updated console (target_id ∷ asset_id ∷ [])
                  (bytes "Track file dropped")
                  (bytes
                    "Unguided intercept will be used unless the track file is re-established before the fire order. The interceptor remains ready.")
                  cleared),
          ))
      else if is_engage_ordered s.phase || is_intercepting s.phase
      then reject_command summary (bytes "track control is unavailable after engage order")
          (target_id ∷ asset_id ∷ []) s
      else if is_assessed s.phase || is_archived s.phase
      then reject_command summary (bytes "track control is unavailable after archive")
          (target_id ∷ []) s
      else reject_command summary
          (bytes "track release is only valid while tracking or interceptor_ready") (target_id ∷ [])
          s

  unfoldable pub activate_asset : ℕ → Session A → CommandResult × Session A
  activate_asset wall_time_ms s =
      let ready = record s {
        interceptor_status = InterceptorStatus.ready;
        asset = record s.asset { active = true };
        phase = SessionPhase.interceptor_ready;
      } in
      let summary = bytes "Interceptor activation rejected" in
      if not (is_tracking s.phase)
      then reject_command summary (bytes "interceptor activation is only valid while tracking")
          (s.asset.id ∷ []) s
      else if not s.track.active
      then reject_command summary (bytes "interceptor activation requires an active track")
          (s.asset.id ∷ []) s
      else (
        accept "interceptor ready" TcpMessageKind.interceptor_ready,
        record_snapshot F (float_zero F) wall_time_ms (
            push_event EventType.interceptor_updated console (s.asset.id ∷ [])
              (bytes "Weapon ready") (bytes "The interceptor is armed and ready for a fire order.")
              ready),
      )

  -- The details of the event of an executed fire order.
  fire_order_details : Session A → Text
  fire_order_details s =
      bytes "The authoritative server executed the fire order and launched the interceptor on a "
      ++ ((if s.track.active then bytes "tracked_intercept" else bytes "unguided_intercept")
          ++ (bytes " path at " ++ (int_to_string s.scenario.launch_angle_deg ++ bytes " deg.")))

  unfoldable pub issue_command : ℕ → Session A → CommandResult × Session A
  unfolding fire_order_details
  issue_command wall_time_ms s =
      let angle =
        F.div (F.mul (F.of_int s.scenario.launch_angle_deg) (F.decimal 31415926535 10))
          (F.decimal 1800 1) in
      let speed = F.of_int s.scenario.interceptor_speed_per_tick in
      let ordered = record s {
        engage_order_status = EngageOrderStatus.accepted;
        phase = SessionPhase.engage_ordered;
        engagement_started_tick = some s.tick;
        interceptor_velocity_world = record {
          x = F.mul (F.cos angle) speed;
          y = F.mul (F.sin angle) speed;
        };
      } in
      let ids = s.asset.id ∷ s.target.id ∷ [] in
      if not (is_interceptor_ready s.phase)
      then reject_command (bytes "Engage order rejected")
          (bytes "engage order is only valid while interceptor_ready") ids s
      else if not (is_ready_status s.interceptor_status)
      then reject_command (bytes "Engage order rejected")
          (bytes "engage order requires interceptor_ready state") ids s
      else (
        accept "engage order accepted" TcpMessageKind.command_ack,
        record_snapshot F (float_zero F) wall_time_ms (
            push_event EventType.engage_order_accepted console ids (bytes "Fire order executed")
              (fire_order_details s) ordered),
      )

  unfoldable pub archive_session : ℕ → Session A → Session A
  archive_session wall_time_ms s =
      if is_archived s.phase
      then s
      else record_snapshot F (float_zero F) wall_time_ms (
          push_event EventType.session_ended simulation_server (s.target.id ∷ s.asset.id ∷ [])
            (bytes "Run archived")
            (bytes
              "The engagement run completed and artifacts are ready for post-engagement review.")
            (record s { phase = SessionPhase.archived }))

module _ {A : Type 0} where
  unfoldable pub record_transport_rejection :
      Text → Text → List Text → Session A → CommandResult × Session A
  record_transport_rejection summary reason entity_ids s = (
    record { is_accepted = false; reason = reason; ack_kind = TcpMessageKind.command_ack },
    push_event EventType.engage_order_rejected simulation_server entity_ids summary reason s,
  )
