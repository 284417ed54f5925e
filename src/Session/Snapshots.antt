-- ===== src/Session/Snapshots.antt =====
-- common/src/simulation_snapshot.cpp. The wall clock that the source reads is the argument
-- `wall_time_ms`.
use inerceptor_command_sim.Base.{ℕ, Bool, false, ◌&&◌, ◌||◌, [], ◌∷◌, ◌++◌, if◌then◌else◌}
use inerceptor_command_sim.Base.Word.{add64}
use inerceptor_command_sim.Floats.{FloatOps, float_zero, float_max}
use inerceptor_command_sim.Core.Types.{
  server_sender_id, ConnectionState, Snapshot, is_accepted_order, is_executing_order,
  is_completed_order, is_reconnected,
}
use inerceptor_command_sim.Session.Geometry.{zero_vec}
use inerceptor_command_sim.Session.Geometry
use inerceptor_command_sim.Session.State.{Session, next_timestamp_ms, tick_interval_ms_for_rate}

module _ {A : Type 0} where
  -- `engagement_context` of record_snapshot.
  abbrev pub snapshot_engagement_context : Session A → Bool
  snapshot_engagement_context s =
      s.asset.active
      && (is_accepted_order s.engage_order_status
          || (is_executing_order s.engage_order_status
              || (is_completed_order s.engage_order_status || s.assessment.is_ready)))

module _ {A : Type 0} (F : FloatOps A) where
  abbrev pub max_speed : Session A → A
  max_speed s = float_max F (F.decimal 1 1) (F.of_int s.scenario.interceptor_speed_per_tick)

  -- The snapshot that record_snapshot stores: `s` is the session with its new sequence number and
  -- clock, so that the clock is the timestamp.
  unfoldable pub capture_snapshot : A → ℕ → Session A → Snapshot A
  capture_snapshot packet_loss_pct wall_time_ms s =
      let guided = snapshot_engagement_context s && s.track.active in
      let distance = Geometry.length F (Geometry.subtract F s.target_world s.asset_world) in
      let tti = F.div distance (max_speed s) in
      record {
        envelope = record {
          session_id = s.session_id;
          sender_id = server_sender_id;
          sequence = s.sequence;
        };
        header = record {
          tick = s.tick;
          timestamp_ms = s.clock_ms;
          snapshot_sequence = s.sequence;
          capture_wall_time_ms = wall_time_ms;
        };
        phase = s.phase;
        world_width = s.scenario.world_width;
        world_height = s.scenario.world_height;
        target = s.target;
        interceptor = s.asset;
        target_world_position = s.target_world;
        interceptor_world_position = s.asset_world;
        target_velocity_x = F.lround s.target_velocity_world.x;
        target_velocity_y = F.lround s.target_velocity_world.y;
        target_velocity = s.target_velocity_world;
        interceptor_velocity = s.interceptor_velocity_world;
        target_heading_deg = Geometry.heading_deg F s.target_velocity_world;
        interceptor_heading_deg = Geometry.heading_deg F s.interceptor_velocity_world;
        interceptor_speed_per_tick = s.scenario.interceptor_speed_per_tick;
        interceptor_acceleration_per_tick =
            float_max F (F.decimal 10 1)
              (F.mul (F.of_int s.scenario.interceptor_speed_per_tick) (F.decimal 28 2));
        intercept_radius = s.scenario.intercept_radius;
        engagement_timeout_ticks = s.scenario.engagement_timeout_ticks;
        seeker_fov_deg = F.of_int s.scenario.seeker_fov_deg;
        seeker_lock = if guided then s.seeker_lock else false;
        off_boresight_deg = if guided then s.off_boresight_deg else float_zero F;
        predicted_intercept_valid = if guided then F.lt (float_zero F) distance else false;
        predicted_intercept_position =
            if guided
            then Geometry.add F s.target_world (Geometry.scale F s.target_velocity_world tti)
            else zero_vec F;
        time_to_intercept_s = if guided then tti else float_zero F;
        track = s.track;
        interceptor_status = s.interceptor_status;
        engage_order_status = s.engage_order_status;
        assessment = s.assessment;
        display_connection = s.tactical_display.connection;
        telemetry = record {
          tick = s.tick;
          tick_interval_ms = tick_interval_ms_for_rate s.tick_rate_hz;
          packet_loss_pct = packet_loss_pct;
          last_snapshot_timestamp_ms = s.clock_ms;
          last_snapshot_wall_time_ms = wall_time_ms;
        };
        launch_angle_deg = F.of_int s.scenario.launch_angle_deg;
      }

  -- The session with the sequence number and the clock of the next snapshot.
  abbrev pub numbered : Session A → Session A
  numbered s = record s { sequence = add64 s.sequence 1; clock_ms = next_timestamp_ms s }

  -- A display that was reconnected counts as connected once a snapshot has shown it.
  unfoldable pub record_snapshot : A → ℕ → Session A → Session A
  record_snapshot packet_loss_pct wall_time_ms s =
      let s' = numbered s in
      record s' {
        snapshots = s.snapshots ++ capture_snapshot packet_loss_pct wall_time_ms s' ∷ [];
        tactical_display = record s.tactical_display {
          connection =
              if is_reconnected s.tactical_display.connection
              then ConnectionState.connected
              else s.tactical_display.connection;
        };
      }
