-- ===== src/Session/Invariant.antt =====
-- The well-formedness invariant of SimulationSession.
use inerceptor_command_sim.Base.{ℕ, List, ◌≡◌, ◌⊎◌, true, false, arith}
use inerceptor_command_sim.Floats.{FloatOps}
use inerceptor_command_sim.Base.Int.{ℤ}
use inerceptor_command_sim.Base.Text.{Text}
use inerceptor_command_sim.Core.Config.{ScenarioConfig}
use inerceptor_command_sim.Core.Types.{
  ClientRole, SessionPhase, InterceptorStatus, EngageOrderStatus, AssessmentCode,
}
use inerceptor_command_sim.Session.State.{Session, new_session, push_event, reject_command}
use inerceptor_command_sim.Session.Snapshots.{record_snapshot}
use inerceptor_command_sim.Session.Clients.{connect_client, disconnect_client, timeout_client}
use inerceptor_command_sim.Session.Track.{
  clear_track_state, seed_track_state_from_target, reset_world_state_from_scenario,
}
use inerceptor_command_sim.Session.Commands.{
  start_scenario, configure_scenario, reset_session, request_track, release_track, activate_asset,
  issue_command, archive_session, record_transport_rejection,
}

-- No order is under way.
abbrev pub IsUnordered : {A : Type 0} → Session A → Type 0
IsUnordered s =
    (s.engage_order_status ≡ EngageOrderStatus.unordered)
    ⊎ (s.engage_order_status ≡ EngageOrderStatus.rejected)

-- What the phase says about the rest of the session.
abbrev pub PhaseFacts : {A : Type 0} → SessionPhase → Session A → Type 0
PhaseFacts SessionPhase.standby s =
    IsUnordered s × (s.track.active ≡ false) × (s.assessment.is_ready ≡ false)
PhaseFacts SessionPhase.detecting s =
    IsUnordered s
    × (s.track.active ≡ false)
    × (s.target.active ≡ true)
    × (s.assessment.is_ready ≡ false)
PhaseFacts SessionPhase.tracking s =
    IsUnordered s
    × (s.track.active ≡ true)
    × (s.target.active ≡ true)
    × (s.assessment.is_ready ≡ false)
PhaseFacts SessionPhase.interceptor_ready s =
    IsUnordered s
    × (s.interceptor_status ≡ InterceptorStatus.ready)
    × (s.asset.active ≡ true)
    × (s.target.active ≡ true)
    × (s.assessment.is_ready ≡ false)
PhaseFacts SessionPhase.engage_ordered s =
    ((s.engage_order_status ≡ EngageOrderStatus.accepted)
      ⊎ (s.engage_order_status ≡ EngageOrderStatus.rejected))
    × (s.asset.active ≡ true)
    × (s.target.active ≡ true)
    × (s.assessment.is_ready ≡ false)
PhaseFacts SessionPhase.intercepting s =
    ((s.engage_order_status ≡ EngageOrderStatus.executing)
      ⊎ (s.engage_order_status ≡ EngageOrderStatus.rejected))
    × (s.interceptor_status ≡ InterceptorStatus.intercepting)
    × (s.asset.active ≡ true)
    × (s.target.active ≡ true)
    × (s.assessment.is_ready ≡ false)
PhaseFacts SessionPhase.assessed s =
    (s.assessment.is_ready ≡ true)
    × (s.engage_order_status ≡ EngageOrderStatus.completed)
    × (s.interceptor_status ≡ InterceptorStatus.complete)
    × ((s.assessment.code ≡ AssessmentCode.timeout_observed)
        ⊎ ((s.assessment.code ≡ AssessmentCode.intercept_success)
            × (s.target.active ≡ false)
            × (s.track.active ≡ false)))
PhaseFacts SessionPhase.archived s = Unit {0}

abbrev pub IsWellFormed : {A : Type 0} → Session A → Type 0
IsWellFormed s = PhaseFacts s.phase s

module _ {A : Type 0} (F : FloatOps A) where
  pub new_session-IsWellFormed :
      (id : ℕ) (rate interval : ℤ) (c : ScenarioConfig)
      → IsWellFormed (new_session F id rate interval c)
  unfolding new_session
  new_session-IsWellFormed id rate interval c = ground arith

module _ {A : Type 0} (F : FloatOps A) (w : ℕ) (s : Session A) (h : IsWellFormed s) where
  pub timeout-IsWellFormed :
      (role : ClientRole) (reason : Text) → IsWellFormed (timeout_client F role reason w s)
  unfolding timeout_client push_event record_snapshot
  timeout-IsWellFormed ClientRole.fire_control_console reason = ground arith
  timeout-IsWellFormed ClientRole.tactical_display reason = ground arith

  pub start-IsWellFormed : IsWellFormed (start_scenario F w s).1
  unfolding start_scenario clear_track_state reject_command push_event record_snapshot
  start-IsWellFormed = ground arith

  pub configure-IsWellFormed :
      (c : ScenarioConfig)
      → s.phase ≡ SessionPhase.standby
      → IsWellFormed (configure_scenario F c s)
  unfolding configure_scenario clear_track_state reset_world_state_from_scenario
  configure-IsWellFormed c e = ground arith

  pub reset-IsWellFormed : (reason : Text) → IsWellFormed (reset_session F reason w s).1
  unfolding reset_session clear_track_state reset_world_state_from_scenario record_snapshot
  reset-IsWellFormed reason = ground arith

  pub request-IsWellFormed : IsWellFormed (request_track F w s).1
  unfolding request_track seed_track_state_from_target reject_command push_event record_snapshot
  request-IsWellFormed = ground arith

  pub release-IsWellFormed : IsWellFormed (release_track F w s).1
  unfolding release_track clear_track_state reject_command push_event record_snapshot
  release-IsWellFormed = ground arith

  pub activate-IsWellFormed : IsWellFormed (activate_asset F w s).1
  unfolding activate_asset reject_command push_event record_snapshot
  activate-IsWellFormed = ground arith

  pub issue-IsWellFormed : IsWellFormed (issue_command F w s).1
  unfolding issue_command reject_command push_event record_snapshot
  issue-IsWellFormed = ground arith

  pub archive-IsWellFormed : IsWellFormed (archive_session F w s)
  unfolding archive_session push_event record_snapshot
  archive-IsWellFormed = ground arith

module _ {A : Type 0} (s : Session A) (h : IsWellFormed s) where
  pub connect-IsWellFormed :
      (role : ClientRole) (sender_id : ℕ) → IsWellFormed (connect_client role sender_id s)
  unfolding connect_client push_event
  connect-IsWellFormed ClientRole.fire_control_console sender_id = ground arith
  connect-IsWellFormed ClientRole.tactical_display sender_id = ground arith

  pub disconnect-IsWellFormed :
      (role : ClientRole) (reason : Text) → IsWellFormed (disconnect_client role reason s)
  unfolding disconnect_client push_event
  disconnect-IsWellFormed ClientRole.fire_control_console reason = ground arith
  disconnect-IsWellFormed ClientRole.tactical_display reason = ground arith

  pub transport-IsWellFormed :
      (summary reason : Text) (ids : List Text)
      → IsWellFormed (record_transport_rejection summary reason ids s).1
  unfolding record_transport_rejection push_event
  transport-IsWellFormed summary reason ids = ground arith
