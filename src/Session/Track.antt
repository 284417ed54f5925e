-- ===== src/Session/Track.antt =====
-- common/src/simulation_state.cpp: the track filter of the target.
use inerceptor_command_sim.Base.{true, false, if◌then◌else◌}
use inerceptor_command_sim.Base.Word.{add32}
use inerceptor_command_sim.Floats.{FloatOps, float_zero}
use inerceptor_command_sim.Core.Types.{Vec2f}
use inerceptor_command_sim.Session.Geometry.{zero_vec, covariance_trace, deterministic_noise}
use inerceptor_command_sim.Session.Geometry
use inerceptor_command_sim.Session.Schedule.{measurement_due, measurement_available}
use inerceptor_command_sim.Session.State.{Session, no_track, target_at_start, asset_at_start}

module _ {A : Type 0} (F : FloatOps A) where
  unfoldable pub clear_track_state : Session A → Session A
  clear_track_state s = record s {
    track = no_track F;
    track_estimate_world = zero_vec F;
    track_estimate_velocity = zero_vec F;
    track_measurement_world = zero_vec F;
    track_position_variance = zero_vec F;
    track_velocity_variance = zero_vec F;
    track_measurement_valid = false;
    track_measurement_age_ticks = 0;
    track_missed_updates = 0;
  }

  unfoldable pub seed_track_state_from_target : Session A → Session A
  seed_track_state_from_target s =
      let measured = Geometry.add F s.target_world (deterministic_noise F s.tick) in
      let position_variance : Vec2f A = record { x = F.decimal 360 1; y = F.decimal 360 1 } in
      let velocity_variance : Vec2f A = record { x = F.decimal 120 1; y = F.decimal 120 1 } in
      record s {
        track_estimate_world = s.target_world;
        track_estimate_velocity = s.target_velocity_world;
        track_measurement_world = measured;
        track_measurement_valid = true;
        track_measurement_age_ticks = 0;
        track_missed_updates = 0;
        track_position_variance = position_variance;
        track_velocity_variance = velocity_variance;
        track = record {
          active = true;
          estimated_position = s.target_world;
          estimated_velocity = s.target_velocity_world;
          measurement_position = measured;
          measurement_valid = true;
          measurement_residual_distance =
              Geometry.length F (Geometry.subtract F measured s.target_world);
          covariance_trace = covariance_trace F position_variance velocity_variance;
          measurement_age_ticks = 0;
          missed_updates = 0;
        };
      }

  -- The prediction at the head of update_track_state.
  unfoldable pub predict_track : Session A → Session A
  predict_track s =
      let p = s.track_position_variance in
      let v = s.track_velocity_variance in
      record s {
        track_estimate_world = Geometry.add F s.track_estimate_world s.track_estimate_velocity;
        track_position_variance = record {
          x = F.add p.x (F.add v.x (F.decimal 40 1));
          y = F.add p.y (F.add v.y (F.decimal 40 1));
        };
        track_velocity_variance = record {
          x = F.add v.x (F.decimal 15 1);
          y = F.add v.y (F.decimal 15 1);
        };
      }

  -- The branch of a fresh measurement: residual, gains and the corrected estimate.
  unfoldable pub correct_track : Session A → Session A
  correct_track s =
      let measured = Geometry.add F s.target_world (deterministic_noise F s.tick) in
      let residual = Geometry.subtract F measured s.track_estimate_world in
      let measurement_variance = F.decimal 250 1 in
      let velocity_noise = F.mul measurement_variance (F.decimal 40 1) in
      let one = F.decimal 10 1 in
      let p = s.track_position_variance in
      let v = s.track_velocity_variance in
      let e = s.track_estimate_world in
      let w = s.track_estimate_velocity in
      let kpx = F.div p.x (F.add p.x measurement_variance) in
      let kpy = F.div p.y (F.add p.y measurement_variance) in
      let kvx = F.div v.x (F.add v.x velocity_noise) in
      let kvy = F.div v.y (F.add v.y velocity_noise) in
      record s {
        track_measurement_world = measured;
        track_measurement_age_ticks = 0;
        track_missed_updates = 0;
        track_measurement_valid = true;
        track = record s.track { measurement_residual_distance = Geometry.length F residual };
        track_estimate_world = record {
          x = F.add e.x (F.mul kpx residual.x);
          y = F.add e.y (F.mul kpy residual.y);
        };
        track_position_variance = record {
          x = F.mul p.x (F.sub one kpx);
          y = F.mul p.y (F.sub one kpy);
        };
        track_estimate_velocity = record {
          x = F.add w.x (F.mul kvx residual.x);
          y = F.add w.y (F.mul kvy residual.y);
        };
        track_velocity_variance = record {
          x = F.mul v.x (F.sub one kvx);
          y = F.mul v.y (F.sub one kvy);
        };
      }

  -- The branch of no fresh measurement: the age grows, and a due one counts as missed.
  unfoldable pub miss_measurement : Session A → Session A
  miss_measurement s = record s {
    track_measurement_age_ticks = add32 s.track_measurement_age_ticks 1;
    track_missed_updates =
        if measurement_due s.tick then add32 s.track_missed_updates 1 else s.track_missed_updates;
  }

  -- The copy of the filter into the published track at the end of update_track_state.
  unfoldable pub publish_track : Session A → Session A
  publish_track s = record s {
    track = record s.track {
      estimated_position = s.track_estimate_world;
      estimated_velocity = s.track_estimate_velocity;
      measurement_position = s.track_measurement_world;
      measurement_valid = s.track_measurement_valid;
      measurement_age_ticks = s.track_measurement_age_ticks;
      missed_updates = s.track_missed_updates;
      covariance_trace = covariance_trace F s.track_position_variance s.track_velocity_variance;
    };
  }

  unfoldable pub update_track_state : Session A → Session A
  unfolding predict_track correct_track miss_measurement publish_track
  update_track_state s =
      let predicted = predict_track s in
      publish_track (
        if measurement_available s.tick
        then correct_track predicted
        else miss_measurement predicted)

  unfoldable pub reset_world_state_from_scenario : Session A → Session A
  reset_world_state_from_scenario s =
      let c = s.scenario in
      record s {
        target_world = record { x = F.of_int c.target_start_x; y = F.of_int c.target_start_y };
        asset_world = record {
          x = F.of_int c.interceptor_start_x;
          y = F.of_int c.interceptor_start_y;
        };
        target_velocity_world = record {
          x = F.of_int c.target_velocity_x;
          y = F.of_int c.target_velocity_y;
        };
        interceptor_velocity_world = zero_vec F;
        seeker_lock = false;
        off_boresight_deg = float_zero F;
        target = target_at_start c;
        asset = asset_at_start c;
      }
