-- ===== src/Tests/Session.antt =====
-- The session's theorems on a concrete run.
use inerceptor_command_sim.Base.{◌+◌, ◌≡◌, ◌≤◌, refl, inl, true, false, [], ◌∷◌, arith}
use inerceptor_command_sim.Base.Int.{ℤ, pos, ◌-ℤ◌}
use inerceptor_command_sim.Core.Types.{SessionPhase, ClientRole}
use inerceptor_command_sim.Session.Geometry.{bounce_world_axis}
use inerceptor_command_sim.Session.State.{Session, push_event, new_session}
use inerceptor_command_sim.Session.Snapshots.{record_snapshot}
use inerceptor_command_sim.Session.Clients.{connect_client}
use inerceptor_command_sim.Session.Track.{clear_track_state, seed_track_state_from_target}
use inerceptor_command_sim.Session.Commands.{
  start_scenario, request_track, activate_asset, issue_command,
}
use inerceptor_command_sim.Session.Tick.{move_interceptor}
use inerceptor_command_sim.Session.Run.{Call, Command, step, run, perform, advance_ticks}
use inerceptor_command_sim.Session.Invariant.{IsWellFormed}
use inerceptor_command_sim.Session.Reach.{Reach, Reach-IsWellFormed}
use inerceptor_command_sim.Session.Engagement.{
  IsResolved, fire_order_resolves, command_stalls_engagement,
}
use inerceptor_command_sim.Session.Outcomes.{IsOutcome, is_permitted, perform-IsOutcome}
use inerceptor_command_sim.Session.Phases.{
  Transition, rank, progress_of, step-Transition, phase_needs_calls,
}
use inerceptor_command_sim.Session.Numbering.Recorded.{Follows, Consecutive}
use inerceptor_command_sim.Session.Numbering.{all_recorded, snapshots-Consecutive}
use inerceptor_command_sim.Session.Staleness.{IsFresh, track_measurement-IsFresh}
use inerceptor_command_sim.Session.Bounds.{
  IsAsymmetric, IsWithin, move_interceptor_bounds, bounce_bounds,
}
use inerceptor_command_sim.Session.Schedule.{build_resilience_case}
use inerceptor_command_sim.Session.Summary.{
  build_summary, exercised, label_of, build_resilience_case-exercised, build_summary-push_event,
}
use inerceptor_command_sim.Protocol.Messages.{EventType}
use inerceptor_command_sim.Tests.Sample.{
  whole_numbers, short_scenario, fresh, armed, ordered, history,
}

whole_numbers-IsAsymmetric : IsAsymmetric whole_numbers
whole_numbers-IsAsymmetric a b h = ground arith

armed_accepts : (issue_command whole_numbers 5 armed).0.is_accepted ≡ true
unfolding step connect_client start_scenario request_track activate_asset issue_command push_event
    record_snapshot clear_track_state seed_track_state_from_target new_session
armed_accepts = refl

armed_tick : armed.tick ≡ 0
unfolding step connect_client start_scenario request_track activate_asset issue_command push_event
    record_snapshot clear_track_state seed_track_state_from_target new_session
armed_tick = refl

armed_timeout : armed.scenario.engagement_timeout_ticks ≡ pos 3
unfolding step connect_client start_scenario request_track activate_asset issue_command push_event
    record_snapshot clear_track_state seed_track_state_from_target new_session
armed_timeout = refl

ordered_phase : ordered.phase ≡ SessionPhase.engage_ordered
unfolding step connect_client start_scenario request_track activate_asset issue_command push_event
    record_snapshot clear_track_state seed_track_state_from_target new_session
ordered_phase = refl

abbrev reach_ordered : Reach whole_numbers fresh ordered
reach_ordered =
    Reach.next
      (Reach.next
        (Reach.next
          (Reach.next
            (Reach.next Reach.here 1 (Call.connects ClientRole.fire_control_console 101) tt) 2
            Call.starts tt)
          3 Call.requests_track tt)
        4 Call.activates tt)
      5 Call.issues tt

fire_order_resolves_example :
    IsResolved
      (advance_ticks whole_numbers (6 ∷ 7 ∷ 8 ∷ []) (issue_command whole_numbers 5 armed).1).phase
fire_order_resolves_example =
    fire_order_resolves whole_numbers 5 (6 ∷ 7 ∷ 8 ∷ []) armed armed_accepts
      (rw armed_timeout (omega arith)) (rw armed_tick (omega arith))

Reach-IsWellFormed_example : IsWellFormed ordered
Reach-IsWellFormed_example =
    Reach-IsWellFormed whole_numbers 1001 (pos 20) (pos 200) short_scenario reach_ordered

perform-IsOutcome_example :
    IsOutcome whole_numbers
      (is_permitted Command.fire armed)
      armed
      (perform whole_numbers 5 Command.fire armed)
perform-IsOutcome_example = perform-IsOutcome whole_numbers 5 Command.fire armed

ordered-IsWellFormed : IsWellFormed ordered
ordered-IsWellFormed =
    Reach-IsWellFormed whole_numbers 1001 (pos 20) (pos 200) short_scenario reach_ordered

command_stalls_engagement_example :
    let stalled = (perform whole_numbers 6 Command.track ordered).1 in
    (advance_ticks whole_numbers (6 ∷ 7 ∷ []) stalled).phase ≡ ordered.phase
command_stalls_engagement_example =
    command_stalls_engagement whole_numbers 6 Command.track (6 ∷ 7 ∷ []) ordered
      ordered-IsWellFormed (inl ordered_phase)

step-Transition_example :
    Transition Call.issues armed.phase (step whole_numbers 5 Call.issues armed).phase
step-Transition_example = step-Transition whole_numbers 5 Call.issues armed

phase_needs_calls_example : rank (run whole_numbers history fresh).phase ≤ progress_of 0 history
phase_needs_calls_example =
    phase_needs_calls whole_numbers 1001 (pos 20) (pos 200) short_scenario history

snapshots-Consecutive_example :
    let s = run whole_numbers history fresh in
    Follows 0 (all_recorded whole_numbers history fresh) × Consecutive s.snapshots s.sequence
snapshots-Consecutive_example =
    snapshots-Consecutive whole_numbers 1001 (pos 20) (pos 200) short_scenario history

track_measurement-IsFresh_example : IsFresh (run whole_numbers history fresh)
track_measurement-IsFresh_example =
    track_measurement-IsFresh whole_numbers 1001 (pos 20) (pos 200) short_scenario history

abbrev in_flight : Session ℤ
in_flight = record ordered {
  phase = SessionPhase.intercepting;
  asset = record ordered.asset { active = true };
}

move_interceptor_bounds_example :
    let t = move_interceptor whole_numbers in_flight in
    IsWithin whole_numbers (pos 0) (pos 2303) t.asset_world.x
    × IsWithin whole_numbers (pos 0) (pos 1535) t.asset_world.y
unfolding step connect_client start_scenario request_track activate_asset issue_command push_event
    record_snapshot clear_track_state seed_track_state_from_target new_session ◌-ℤ◌
move_interceptor_bounds_example =
    move_interceptor_bounds whole_numbers in_flight whole_numbers-IsAsymmetric refl refl refl

bounce_bounds_example :
    IsWithin whole_numbers
      (pos 0)
      (pos 2303)
      (bounce_world_axis whole_numbers (pos 2310) (pos 5) (pos 2304)).0
unfolding ◌-ℤ◌
bounce_bounds_example =
    bounce_bounds whole_numbers (pos 2310) (pos 5) (pos 2304) whole_numbers-IsAsymmetric refl

build_resilience_case-exercised_example :
    build_resilience_case true false true ≡ label_of (exercised true false true)
build_resilience_case-exercised_example = build_resilience_case-exercised true false true

build_summary-push_event_example :
    let r = build_summary (push_event EventType.client_left [] [] [] [] ordered) in
    (r.event_count ≡ (build_summary ordered).event_count + 1)
    × (r.has_last_event ≡ true)
    × (r.last_event_type ≡ EventType.client_left)
build_summary-push_event_example =
    build_summary-push_event EventType.client_left [] [] [] [] ordered
