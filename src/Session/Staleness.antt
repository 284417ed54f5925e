-- ===== src/Session/Staleness.antt =====
-- How old the track's measurement can get under the measurement schedule.
use inerceptor_command_sim.Base.{
  ℕ, ◌+◌, ◌-◌, ◌%◌, ◌≤◌, ◌<◌, ◌≡◌, inl, inr, true, false, List, [], ◌∷◌, arith, ltb, if◌then◌else◌,
  Bool-cases,
}
use inerceptor_command_sim.Base.Word.{u64_mod, add64}
use inerceptor_command_sim.Floats.{FloatOps}
use inerceptor_command_sim.Core.Types.{ClientRole, is_assessed, is_archived}
use inerceptor_command_sim.Session.State.{Session, new_session, push_event, reject_command}
use inerceptor_command_sim.Base.Int.{ℤ}
use inerceptor_command_sim.Core.Config.{ScenarioConfig}
use inerceptor_command_sim.Session.Snapshots.{record_snapshot}
use inerceptor_command_sim.Session.Clients.{connect_client, disconnect_client, timeout_client}
use inerceptor_command_sim.Session.Track.{
  update_track_state, clear_track_state, seed_track_state_from_target,
  reset_world_state_from_scenario,
}
use inerceptor_command_sim.Session.Commands.{
  start_scenario, configure_scenario, reset_session, request_track, release_track, activate_asset,
  issue_command, archive_session, record_transport_rejection,
}
use inerceptor_command_sim.Session.Run.{Call, step, run}
use inerceptor_command_sim.Session.Tick.{
  move_target, track_target, begin_intercept, move_interceptor, update_seeker, assess_engagement,
  exercise_packet_gap, advance_world, advance_tick,
}
use inerceptor_command_sim.Session.Schedule.{measurement_due, measurement_available}

-- The ticks since the last tick with a measurement, in the schedule of 15 ticks.
pub max_age : ℕ → ℕ
max_age tick = let r = tick % 15 in if ltb r 6 then r % 3 else if ltb r 12 then r - 6 else r - 12

-- The dropped measurements since then.
pub max_missed : ℕ → ℕ
max_missed tick = let r = tick % 15 in if ltb r 9 then 0 else if ltb r 12 then 1 else 0

max_age-le : (tick : ℕ) → max_age tick ≤ 5
unfolding max_age
max_age-le tick = ground arith

max_missed-le : (tick : ℕ) → max_missed tick ≤ 1
unfolding max_missed
max_missed-le tick = ground arith

age_grows :
    (t : ℕ)
    → t < u64_mod
    → measurement_available (add64 t 1) ≡ false
    → max_age t + 1 ≤ max_age (add64 t 1)
unfolding measurement_available max_age
age_grows t h e = ground arith

missed_grows_due :
    (t : ℕ)
    → t < u64_mod
    → measurement_available (add64 t 1) ≡ false
    → measurement_due (add64 t 1) ≡ true
    → max_missed t + 1 ≤ max_missed (add64 t 1)
unfolding measurement_available max_missed
missed_grows_due t h e d = ground arith

missed_stays :
    (t : ℕ)
    → t < u64_mod
    → measurement_available (add64 t 1) ≡ false
    → measurement_due (add64 t 1) ≡ false
    → max_missed t ≤ max_missed (add64 t 1)
unfolding measurement_available max_missed
missed_stays t h e d = ground arith

-- While the session is not archived the measurement is at most 5 ticks old and at most one was
-- missed; while the track is active the schedule tells how old at this tick.
pub record IsFresh {A : Type 0} (s : Session A) : Type 0 where
  pub in_range : s.tick < u64_mod
  pub aged : is_archived s.phase ≡ false → s.track_measurement_age_ticks ≤ 5
  pub missed : is_archived s.phase ≡ false → s.track_missed_updates ≤ 1
  pub aged_now :
      is_archived s.phase ≡ false
      → s.track.active ≡ true
      → s.track_measurement_age_ticks ≤ max_age s.tick
  pub missed_now :
      is_archived s.phase ≡ false
      → s.track.active ≡ true
      → s.track_missed_updates ≤ max_missed s.tick

module _ {A : Type 0} (F : FloatOps A) where
  -- The session at its next tick, with the track filter run.
  counted-IsFresh :
      (s : Session A)
      → IsFresh s
      → IsFresh (track_target F (move_target F (record s { tick = add64 s.tick 1 })))
  unfolding track_target move_target update_track_state
  counted-IsFresh s h = ground (
    arith,
    max_age-le (add64 s.tick 1),
    max_missed-le (add64 s.tick 1),
    age_grows s.tick,
    missed_grows_due s.tick,
    missed_stays s.tick,
  )

  begin_intercept-IsFresh : (s : Session A) → IsFresh s → IsFresh (begin_intercept F s)
  unfolding begin_intercept
  begin_intercept-IsFresh s h = ground arith

  move_interceptor-IsFresh : (s : Session A) → IsFresh s → IsFresh (move_interceptor F s)
  unfolding move_interceptor
  move_interceptor-IsFresh s h = ground arith

  update_seeker-IsFresh : (s : Session A) → IsFresh s → IsFresh (update_seeker F s)
  unfolding update_seeker
  update_seeker-IsFresh s h = ground arith

  assess_engagement-IsFresh : (s : Session A) → IsFresh s → IsFresh (assess_engagement F s)
  unfolding assess_engagement push_event
  assess_engagement-IsFresh s h = ground arith

  log-IsFresh :
      (p : A) (w : ℕ) (s : Session A)
      → IsFresh s
      → IsFresh (record_snapshot F p w (exercise_packet_gap F s))
  unfolding exercise_packet_gap push_event record_snapshot
  log-IsFresh p w s h = ground arith

  archive-IsFresh : (w : ℕ) (s : Session A) → IsFresh s → IsFresh (archive_session F w s)
  unfolding archive_session push_event record_snapshot
  archive-IsFresh w s h = ground arith

  archive_at_tick :
      (w : ℕ) (s : Session A)
      → IsFresh s
      → is_assessed s.phase ≡ true
      → IsFresh (archive_session F w (record s { tick = add64 s.tick 1 }))
  unfolding archive_session push_event record_snapshot
  archive_at_tick w s h e = ground arith

  tick-IsFresh : (w : ℕ) (s : Session A) → IsFresh s → IsFresh (advance_tick F w s)
  unfolding advance_tick advance_world
  tick-IsFresh w s h =
      let counted = record s { tick = add64 s.tick 1 } in
      let tracked = counted-IsFresh s h in
      elim (Bool-cases (is_assessed s.phase)) [
        | inl e ↦ rw e (archive_at_tick w s h e)
        | inr e ↦ rw e (
            log-IsFresh _ w _ (
              assess_engagement-IsFresh _ (
                update_seeker-IsFresh _
                  (move_interceptor-IsFresh _ (begin_intercept-IsFresh _ tracked)))))
      ]

  start-IsFresh : (w : ℕ) (s : Session A) → IsFresh s → IsFresh (start_scenario F w s).1
  unfolding start_scenario clear_track_state reject_command push_event record_snapshot
  start-IsFresh w s h = record {
    in_range = ground arith;
    aged = ground arith;
    missed = ground arith;
    aged_now = ground arith;
    missed_now = ground arith;
  }

  activate-IsFresh : (w : ℕ) (s : Session A) → IsFresh s → IsFresh (activate_asset F w s).1
  unfolding activate_asset reject_command push_event record_snapshot
  activate-IsFresh w s h = record {
    in_range = ground arith;
    aged = ground arith;
    missed = ground arith;
    aged_now = ground arith;
    missed_now = ground arith;
  }

  issue-IsFresh : (w : ℕ) (s : Session A) → IsFresh s → IsFresh (issue_command F w s).1
  unfolding issue_command reject_command push_event record_snapshot
  issue-IsFresh w s h = record {
    in_range = ground arith;
    aged = ground arith;
    missed = ground arith;
    aged_now = ground arith;
    missed_now = ground arith;
  }

  request-IsFresh : (w : ℕ) (s : Session A) → IsFresh s → IsFresh (request_track F w s).1
  unfolding request_track seed_track_state_from_target reject_command push_event record_snapshot
  request-IsFresh w s h = record {
    in_range = ground arith;
    aged = ground arith;
    missed = ground arith;
    aged_now = ground arith;
    missed_now = ground arith;
  }

  release-IsFresh : (w : ℕ) (s : Session A) → IsFresh s → IsFresh (release_track F w s).1
  unfolding release_track clear_track_state reject_command push_event record_snapshot
  release-IsFresh w s h = record {
    in_range = ground arith;
    aged = ground arith;
    missed = ground arith;
    aged_now = ground arith;
    missed_now = ground arith;
  }

  step-IsFresh : (w : ℕ) (c : Call) (s : Session A) → IsFresh s → IsFresh (step F w c s)
  unfolding step connect_client disconnect_client timeout_client configure_scenario reset_session
      record_transport_rejection clear_track_state reset_world_state_from_scenario push_event
      record_snapshot
  step-IsFresh w (Call.connects ClientRole.fire_control_console id) s h = ground arith
  step-IsFresh w (Call.connects ClientRole.tactical_display id) s h = ground arith
  step-IsFresh w (Call.disconnects ClientRole.fire_control_console reason) s h = ground arith
  step-IsFresh w (Call.disconnects ClientRole.tactical_display reason) s h = ground arith
  step-IsFresh w (Call.times_out ClientRole.fire_control_console reason) s h = ground arith
  step-IsFresh w (Call.times_out ClientRole.tactical_display reason) s h = ground arith
  step-IsFresh w Call.starts s h = start-IsFresh w s h
  step-IsFresh w (Call.configures c) s h = ground arith
  step-IsFresh w (Call.resets reason) s h = ground arith
  step-IsFresh w Call.requests_track s h = request-IsFresh w s h
  step-IsFresh w Call.releases_track s h = release-IsFresh w s h
  step-IsFresh w Call.activates s h = activate-IsFresh w s h
  step-IsFresh w Call.issues s h = issue-IsFresh w s h
  step-IsFresh w (Call.rejects_transport summary reason ids) s h = ground arith
  step-IsFresh w Call.ticks s h = tick-IsFresh w s h
  step-IsFresh w Call.archives s h = archive-IsFresh w s h

  run-IsFresh : (calls : List (ℕ × Call)) (s : Session A) → IsFresh s → IsFresh (run F calls s)
  unfolding run
  run-IsFresh [] s h = h
  run-IsFresh ((w, c) ∷ calls) s h = run-IsFresh calls (step F w c s) (step-IsFresh w c s h)

  -- After any history of calls, while the session is not archived, the track's measurement is at
  -- most 5 ticks old and at most one measurement has been missed since; where the track is active,
  -- age and misses are bounded by the schedule at the current tick (max_age, max_missed).
  pub track_measurement-IsFresh :
      (id : ℕ) (rate interval : ℤ) (c : ScenarioConfig) (calls : List (ℕ × Call))
      → IsFresh (run F calls (new_session F id rate interval c))
  unfolding new_session
  track_measurement-IsFresh id rate interval c calls =
      run-IsFresh calls (new_session F id rate interval c) (ground arith)
