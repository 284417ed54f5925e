-- ===== src/Session/Phases.antt =====
-- The phase graph of a session: which call moves it where, and which calls a phase needs.
use inerceptor_command_sim.Base.{ℕ, ◌≤◌, ◌≡◌, ◌⊎◌, List, [], ◌∷◌, arith, ◌==◌, if◌then◌else◌}
use inerceptor_command_sim.Base.Int.{ℤ}
use inerceptor_command_sim.Base.Word.{add64}
use inerceptor_command_sim.Floats.{FloatOps}
use inerceptor_command_sim.Core.Config.{ScenarioConfig}
use inerceptor_command_sim.Core.Types.{SessionPhase, ClientRole}
use inerceptor_command_sim.Session.State.{Session, new_session, push_event, reject_command}
use inerceptor_command_sim.Session.Snapshots.{record_snapshot}
use inerceptor_command_sim.Session.Clients.{connect_client, disconnect_client, timeout_client}
use inerceptor_command_sim.Session.Track.{
  clear_track_state, seed_track_state_from_target, reset_world_state_from_scenario,
}
use inerceptor_command_sim.Session.Commands.{
  start_scenario, configure_scenario, reset_session, request_track, release_track, activate_asset,
  issue_command, archive_session, record_transport_rejection,
}
use inerceptor_command_sim.Session.Tick.{
  begin_intercept, assess_engagement, exercise_packet_gap, advance_tick,
}
use inerceptor_command_sim.Session.Run.{Call, step, run}
use inerceptor_command_sim.Session.Stages.{advance_world-SameControl}

-- The edges of the phase graph, apart from staying.
abbrev Edge : Call → SessionPhase → SessionPhase → Type 0
Edge Call.starts p q = (p ≡ SessionPhase.standby) × (q ≡ SessionPhase.detecting)
Edge Call.requests_track p q = (p ≡ SessionPhase.detecting) × (q ≡ SessionPhase.tracking)
Edge Call.releases_track p q = (p ≡ SessionPhase.tracking) × (q ≡ SessionPhase.detecting)
Edge Call.activates p q = (p ≡ SessionPhase.tracking) × (q ≡ SessionPhase.interceptor_ready)
Edge Call.issues p q = (p ≡ SessionPhase.interceptor_ready) × (q ≡ SessionPhase.engage_ordered)
Edge Call.ticks p q =
    ((p ≡ SessionPhase.engage_ordered) × (q ≡ SessionPhase.intercepting))
    ⊎ (((p ≡ SessionPhase.engage_ordered) × (q ≡ SessionPhase.assessed))
        ⊎ (((p ≡ SessionPhase.intercepting) × (q ≡ SessionPhase.assessed))
            ⊎ ((p ≡ SessionPhase.assessed) × (q ≡ SessionPhase.archived))))
Edge Call.archives p q = q ≡ SessionPhase.archived
Edge (Call.resets reason) p q = q ≡ SessionPhase.standby
Edge _ p q = ⊥

abbrev pub Transition : Call → SessionPhase → SessionPhase → Type 0
Transition c p q = (q ≡ p) ⊎ Edge c p q

module _ {A : Type 0} (F : FloatOps A) where
  tick-Transition :
      (w : ℕ) (s : Session A) → Transition Call.ticks s.phase (advance_tick F w s).phase
  unfolding advance_tick assess_engagement exercise_packet_gap record_snapshot push_event
      begin_intercept archive_session
  tick-Transition w s =
      ground (arith, advance_world-SameControl F (record s { tick = add64 s.tick 1 }))

  -- Every call moves the phase along an edge of the phase graph that belongs to it, or leaves it.
  pub step-Transition :
      (w : ℕ) (c : Call) (s : Session A) → Transition c s.phase (step F w c s).phase
  unfolding step connect_client disconnect_client timeout_client start_scenario configure_scenario
      reset_session request_track release_track activate_asset issue_command archive_session
      record_transport_rejection clear_track_state seed_track_state_from_target
      reset_world_state_from_scenario reject_command push_event record_snapshot
  step-Transition w (Call.connects ClientRole.fire_control_console id) s = ground arith
  step-Transition w (Call.connects ClientRole.tactical_display id) s = ground arith
  step-Transition w (Call.disconnects ClientRole.fire_control_console reason) s = ground arith
  step-Transition w (Call.disconnects ClientRole.tactical_display reason) s = ground arith
  step-Transition w (Call.times_out ClientRole.fire_control_console reason) s = ground arith
  step-Transition w (Call.times_out ClientRole.tactical_display reason) s = ground arith
  step-Transition w Call.starts s = ground arith
  step-Transition w (Call.configures c) s = ground arith
  step-Transition w (Call.resets reason) s = ground arith
  step-Transition w Call.requests_track s = ground arith
  step-Transition w Call.releases_track s = ground arith
  step-Transition w Call.activates s = ground arith
  step-Transition w Call.issues s = ground arith
  step-Transition w (Call.rejects_transport summary reason ids) s = ground arith
  step-Transition w Call.ticks s = tick-Transition w s
  step-Transition w Call.archives s = ground arith

-- How many of the calls start, request_track, activate_asset and issue_command a phase has behind
-- it; an archived session may have none.
abbrev pub rank : SessionPhase → ℕ
rank SessionPhase.standby = 0
rank SessionPhase.detecting = 1
rank SessionPhase.tracking = 2
rank SessionPhase.interceptor_ready = 3
rank SessionPhase.engage_ordered = 4
rank SessionPhase.intercepting = 4
rank SessionPhase.assessed = 4
rank SessionPhase.archived = 0

-- One more of the four calls, if it is the next one.
abbrev pub progress : ℕ → Call → ℕ
progress k Call.starts = if k == 0 then 1 else k
progress k Call.requests_track = if k == 1 then 2 else k
progress k Call.activates = if k == 2 then 3 else k
progress k Call.issues = if k == 3 then 4 else k
progress k _ = k

-- How far a history has got through the four calls in their order.
abbrev pub progress_of : ℕ → List (ℕ × Call) → ℕ
progress_of k [] = k
progress_of k ((w, c) ∷ calls) = progress_of (progress k c) calls

progress-Transition :
    (c : Call) (p q : SessionPhase) (k : ℕ) → Transition c p q → rank p ≤ k → rank q ≤ progress k c
progress-Transition (Call.connects r id) p q k t h = ground arith
progress-Transition Call.starts p q k t h = ground arith
progress-Transition Call.requests_track p q k t h = ground arith
progress-Transition Call.releases_track p q k t h = ground arith
progress-Transition Call.activates p q k t h = ground arith
progress-Transition Call.issues p q k t h = ground arith
progress-Transition Call.ticks p q k t h = ground arith
progress-Transition Call.archives p q k t h = ground arith
progress-Transition _ p q k t h = ground arith

module _ {A : Type 0} (F : FloatOps A) where
  run-progress :
      (calls : List (ℕ × Call)) (s : Session A) (k : ℕ)
      → rank s.phase ≤ k
      → rank (run F calls s).phase ≤ progress_of k calls
  unfolding run
  run-progress [] s k h = h
  run-progress ((w, c) ∷ calls) s k h =
      run-progress calls (step F w c s) (progress k c)
        (progress-Transition c s.phase (step F w c s).phase k (step-Transition F w c s) h)

  -- From a new session no phase is reached without the calls before it: a history that ends in an
  -- ordered, intercepting or assessed phase holds start_scenario, request_track, activate_asset and
  -- issue_command in this order, and the earlier phases need the first of them.
  pub phase_needs_calls :
      (id : ℕ) (rate interval : ℤ) (c : ScenarioConfig) (calls : List (ℕ × Call))
      → rank (run F calls (new_session F id rate interval c)).phase ≤ progress_of 0 calls
  unfolding new_session
  phase_needs_calls id rate interval c calls =
      run-progress calls (new_session F id rate interval c) 0 (omega arith)
