-- ===== src/Session/Tick.antt =====
-- common/src/simulation.cpp: one tick of the authoritative loop, stage by stage.
use inerceptor_command_sim.Base.{
  ℕ, Bool, true, false, ◌&&◌, ◌||◌, not, [], ◌∷◌, none, some, leb, ◌==◌, if◌then◌else◌,
}
use inerceptor_command_sim.Base.Word.{add64, sub64}
use inerceptor_command_sim.Base.Int.{pos, ◌-ℤ◌, to_u64}
use inerceptor_command_sim.Base.Text.{bytes}
use inerceptor_command_sim.Floats.{FloatOps, float_zero, float_min, float_max}
use inerceptor_command_sim.Protocol.Messages.{EventType}
use inerceptor_command_sim.Core.Types.{
  SessionPhase, InterceptorStatus, EngageOrderStatus, AssessmentCode, Vec2f, is_assessed,
  is_engage_ordered, is_intercepting, is_accepted_order, is_executing_order, is_completed_order,
}
use inerceptor_command_sim.Session.Geometry.{zero_vec, clampf, bounce_world_axis}
use inerceptor_command_sim.Session.Geometry
use inerceptor_command_sim.Session.State.{Session, push_event}
use inerceptor_command_sim.Session.Snapshots.{record_snapshot}
use inerceptor_command_sim.Session.Track.{update_track_state}
use inerceptor_command_sim.Session.Commands.{archive_session}

module _ {A : Type 0} (F : FloatOps A) where
  -- `if (target_.active) { … }`: the target moves and bounces off the world's edges.
  unfoldable pub move_target : Session A → Session A
  move_target s =
      let (x, vx) =
        bounce_world_axis F s.target_world.x s.target_velocity_world.x
          (F.of_int s.scenario.world_width) in
      let (y, vy) =
        bounce_world_axis F s.target_world.y s.target_velocity_world.y
          (F.of_int s.scenario.world_height) in
      if s.target.active
      then record s {
        target_world = record { x = x; y = y };
        target_velocity_world = record { x = vx; y = vy };
        target = record s.target { position = record { x = F.lround x; y = F.lround y } };
      }
      else s

  unfoldable pub track_target : Session A → Session A
  track_target s = if s.track.active then update_track_state F s else s

  -- An accepted order starts the interception.
  unfoldable pub begin_intercept : Session A → Session A
  begin_intercept s =
      if is_accepted_order s.engage_order_status && is_engage_ordered s.phase
      then record s {
        phase = SessionPhase.intercepting;
        interceptor_status = InterceptorStatus.intercepting;
        engage_order_status = EngageOrderStatus.executing;
      }
      else s

  -- The guided velocity, towards the predicted intercept point.
  unfoldable pub guided_velocity : Session A → Vec2f A
  guided_velocity s =
      let max_speed = F.of_int s.scenario.interceptor_speed_per_tick in
      let distance = Geometry.length F (Geometry.subtract F s.target_world s.asset_world) in
      let accel = float_max F (F.decimal 10 1) (F.mul max_speed (F.decimal 28 2)) in
      let tti_guess = F.div distance (float_max F (F.decimal 1 1) max_speed) in
      let predicted =
        Geometry.add F s.target_world (Geometry.scale F s.target_velocity_world tti_guess) in
      let desired =
        Geometry.scale F (Geometry.normalize F (Geometry.subtract F predicted s.asset_world))
          max_speed in
      let error = Geometry.subtract F desired s.interceptor_velocity_world in
      Geometry.add F s.interceptor_velocity_world (
        Geometry.scale F (Geometry.normalize F error) (float_min F accel (Geometry.length F error)))

  -- The speed limit of the interceptor.
  unfoldable pub limit_speed : Session A → Vec2f A → Vec2f A
  limit_speed s v =
      let max_speed = F.of_int s.scenario.interceptor_speed_per_tick in
      let speed = Geometry.length F v in
      if F.lt max_speed speed && F.lt (float_zero F) speed
      then Geometry.scale F (Geometry.normalize F v) max_speed
      else v

  -- `if (phase_ == Intercepting && asset_.active) { … }`: steering, motion and clamping.
  unfoldable pub move_interceptor : Session A → Session A
  unfolding guided_velocity limit_speed
  move_interceptor s =
      let steered = if s.track.active then guided_velocity s else s.interceptor_velocity_world in
      let velocity = limit_speed s steered in
      let moved = Geometry.add F s.asset_world velocity in
      let x = clampf F moved.x (float_zero F) (F.of_int (s.scenario.world_width -ℤ pos 1)) in
      let y = clampf F moved.y (float_zero F) (F.of_int (s.scenario.world_height -ℤ pos 1)) in
      if is_intercepting s.phase && s.asset.active
      then record s {
        interceptor_velocity_world = velocity;
        asset_world = record { x = x; y = y };
        asset = record s.asset { position = record { x = F.lround x; y = F.lround y } };
      }
      else s

  abbrev engagement_context : Session A → Bool
  engagement_context s =
      s.asset.active
      && (is_accepted_order s.engage_order_status
          || (is_executing_order s.engage_order_status || is_completed_order s.engage_order_status))

  unfoldable pub update_seeker : Session A → Session A
  update_seeker s =
      let los = Geometry.subtract F s.target_world s.asset_world in
      let off = F.abs (
        Geometry.normalize_angle_deg F (
          F.sub (Geometry.heading_deg F los)
            (Geometry.heading_deg F s.interceptor_velocity_world))) in
      if engagement_context s && s.track.active
      then record s {
        off_boresight_deg = off;
        seeker_lock =
            F.lt (float_zero F) (Geometry.length F los)
            && F.le off (F.of_int s.scenario.seeker_fov_deg);
      }
      else record s { off_boresight_deg = float_zero F; seeker_lock = false }

  -- `tick_ - *engagement_started_tick_` in uint64_t, or 0 where no engagement has started.
  unfoldable pub engagement_ticks : Session A → ℕ
  engagement_ticks s = elim s.engagement_started_tick [ none ↦ 0 | some t ↦ sub64 s.tick t ]

  -- The test `distance <= intercept_radius`.
  unfoldable pub in_intercept_radius : Session A → Bool
  in_intercept_radius s =
      F.le (Geometry.length F (Geometry.subtract F s.target_world s.asset_world))
        (F.of_int s.scenario.intercept_radius)

  unfoldable pub assess_success : Session A → Session A
  assess_success s =
      let done = record s {
        assessment = record {
          is_ready = true;
          code = AssessmentCode.intercept_success;
          summary = bytes "authoritative intercept assessment complete";
        };
        phase = SessionPhase.assessed;
        target = record s.target { active = false };
        track = record s.track { active = false };
        target_velocity_world = zero_vec F;
        interceptor_velocity_world = zero_vec F;
        seeker_lock = false;
        off_boresight_deg = float_zero F;
        interceptor_status = InterceptorStatus.complete;
        engage_order_status = EngageOrderStatus.completed;
        engagement_started_tick = none;
      } in
      push_event EventType.assessment_produced (bytes "simulation_server")
        (s.asset.id ∷ s.target.id ∷ []) (bytes "Engagement assessed")
        (bytes
          "The authoritative assessment marked the intercept attempt as successful and the target as intercepted.")
        done

  unfoldable pub assess_timeout : Session A → Session A
  assess_timeout s =
      let done = record s {
        assessment = record {
          is_ready = true;
          code = AssessmentCode.timeout_observed;
          summary = bytes "authoritative intercept timeout observed";
        };
        phase = SessionPhase.assessed;
        interceptor_status = InterceptorStatus.complete;
        engage_order_status = EngageOrderStatus.completed;
        engagement_started_tick = none;
      } in
      push_event EventType.assessment_produced (bytes "simulation_server")
        (s.asset.id ∷ s.target.id ∷ []) (bytes "Engagement assessed")
        (bytes
          "The authoritative assessment marked the intercept attempt as timed out before intercept.")
        done

  unfoldable pub assess_engagement : Session A → Session A
  unfolding assess_success assess_timeout
  assess_engagement s =
      if is_executing_order s.engage_order_status && is_intercepting s.phase
      then (if in_intercept_radius s
          then assess_success s
          else if leb (to_u64 s.scenario.engagement_timeout_ticks) (engagement_ticks s)
          then assess_timeout s
          else s)
      else s

  -- `tick_ == 2 && !packet_gap_exercised_`.
  abbrev pub packet_gap_due : Session A → Bool
  packet_gap_due s = s.tick == 2 && not s.packet_gap_exercised

  unfoldable pub exercise_packet_gap : Session A → Session A
  exercise_packet_gap s =
      if packet_gap_due s
      then push_event EventType.resilience_triggered (bytes "simulation_server") (s.target.id ∷ [])
          (bytes "Snapshot gap exercised")
          (bytes
            "Viewer should converge on the next valid snapshot rather than require retransmission.")
          (record s { packet_gap_exercised = true })
      else s

  -- The world's part of a tick: everything up to the assessment.
  unfoldable pub advance_world : Session A → Session A
  advance_world s =
      update_seeker (move_interceptor (begin_intercept (track_target (move_target s))))

  unfoldable pub advance_tick : ℕ → Session A → Session A
  advance_tick wall_time_ms s =
      let counted = record s { tick = add64 s.tick 1 } in
      let assessed = assess_engagement (advance_world counted) in
      let packet_loss = if packet_gap_due assessed then F.decimal 250 1 else float_zero F in
      if is_assessed s.phase
      then archive_session F wall_time_ms counted
      else record_snapshot F packet_loss wall_time_ms (exercise_packet_gap assessed)
