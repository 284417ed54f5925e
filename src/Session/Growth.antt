-- ===== src/Session/Growth.antt =====
-- The logs of snapshots and of events only grow, but for a reset.
use inerceptor_command_sim.Base.{
  ℕ, ◌≤◌, ◌≡◌, refl, leb, ◌&&◌, Bool, true, false, List, if◌then◌else◌, length, length-append,
  arith,
}
use inerceptor_command_sim.Base.Int.{to_u64}
use inerceptor_command_sim.Base.Text.{Text}
use inerceptor_command_sim.Base.Word.{add64}
use inerceptor_command_sim.Floats.{FloatOps}
use inerceptor_command_sim.Protocol.Messages.{EventType}
use inerceptor_command_sim.Core.Types.{
  ClientRole, CommandResult, is_archived, is_assessed, is_executing_order, is_intercepting,
}
use inerceptor_command_sim.Session.State.{Session, push_event}
use inerceptor_command_sim.Session.Snapshots.{record_snapshot}
use inerceptor_command_sim.Session.Clients.{connect_client, disconnect_client, timeout_client}
use inerceptor_command_sim.Session.Commands.{archive_session, record_transport_rejection}
use inerceptor_command_sim.Session.Tick.{
  begin_intercept, in_intercept_radius, engagement_ticks, assess_success, assess_timeout,
  assess_engagement, packet_gap_due, exercise_packet_gap, advance_world, advance_tick,
}
use inerceptor_command_sim.Session.Run.{Command, perform}
use inerceptor_command_sim.Session.Stages.{advance_world-SameControl}
use inerceptor_command_sim.Session.Outcomes.{IsOutcome, is_permitted, perform-IsOutcome}

pub record Grows {A : Type 0} (s t : Session A) : Type 0 where
  pub snapshots : length s.snapshots ≤ length t.snapshots
  pub events : length s.events ≤ length t.events

module _ {A : Type 0} where
  same-Grows : (s : Session A) → Grows s s
  same-Grows s = record { snapshots = omega arith; events = omega arith }

  keep :
      (s t u : Session A) → u.snapshots ≡ t.snapshots → u.events ≡ t.events → Grows s t → Grows s u
  keep s t u e e' h = record { snapshots = rw e h.snapshots; events = rw e' h.events }

  push-Grows :
      (type : EventType) (source : Text) (ids : List Text) (summary details : Text)
      (s t : Session A)
      → Grows s t
      → Grows s (push_event type source ids summary details t)
  unfolding push_event
  push-Grows type source ids summary details s t h = record {
    snapshots = h.snapshots;
    events = rw (length-append t.events _) (omega (arith, h.events));
  }

  either-Grows :
      (b : Bool) {s t u : Session A} → Grows s t → Grows s u → Grows s (if b then t else u)
  either-Grows true h k = h
  either-Grows false h k = k

  pub connect-Grows :
      (role : ClientRole) (id : ℕ) (s : Session A) → Grows s (connect_client role id s)
  unfolding connect_client
  connect-Grows ClientRole.fire_control_console id s =
      either-Grows s.fire_control_console.has_connected_before
        (push-Grows _ _ _ _ _ s _ (push-Grows _ _ _ _ _ s _ (keep s s _ refl refl (same-Grows s))))
        (push-Grows _ _ _ _ _ s _ (keep s s _ refl refl (same-Grows s)))
  connect-Grows ClientRole.tactical_display id s =
      either-Grows s.tactical_display.has_connected_before
        (push-Grows _ _ _ _ _ s _ (push-Grows _ _ _ _ _ s _ (keep s s _ refl refl (same-Grows s))))
        (push-Grows _ _ _ _ _ s _ (keep s s _ refl refl (same-Grows s)))

  pub disconnect-Grows :
      (role : ClientRole) (reason : Text) (s : Session A)
      → Grows s (disconnect_client role reason s)
  unfolding disconnect_client
  disconnect-Grows ClientRole.fire_control_console reason s =
      push-Grows _ _ _ _ _ s _ (keep s s _ refl refl (same-Grows s))
  disconnect-Grows ClientRole.tactical_display reason s =
      push-Grows _ _ _ _ _ s _ (keep s s _ refl refl (same-Grows s))

  pub rejection-Grows :
      (summary reason : Text) (ids : List Text) (s : Session A)
      → Grows s (record_transport_rejection summary reason ids s).1
  unfolding record_transport_rejection
  rejection-Grows summary reason ids s =
      push-Grows _ _ _ _ _ s _ (keep s s _ refl refl (same-Grows s))

module _ {A : Type 0} (F : FloatOps A) where
  record-Grows : (p : A) (w : ℕ) (s t : Session A) → Grows s t → Grows s (record_snapshot F p w t)
  unfolding record_snapshot
  record-Grows p w s t h = record {
    snapshots = rw (length-append t.snapshots _) (omega (arith, h.snapshots));
    events = h.events;
  }

  pub timeout-Grows :
      (w : ℕ) (role : ClientRole) (reason : Text) (s : Session A)
      → Grows s (timeout_client F role reason w s)
  unfolding timeout_client
  timeout-Grows w ClientRole.fire_control_console reason s =
      record-Grows _ w s _ (push-Grows _ _ _ _ _ s _ (keep s s _ refl refl (same-Grows s)))
  timeout-Grows w ClientRole.tactical_display reason s =
      record-Grows _ w s _ (push-Grows _ _ _ _ _ s _ (keep s s _ refl refl (same-Grows s)))

  pub archive-Grows : (w : ℕ) (s : Session A) → Grows s (archive_session F w s)
  unfolding archive_session
  archive-Grows w s =
      either-Grows (is_archived s.phase) (same-Grows s)
        (record-Grows _ w s _ (push-Grows _ _ _ _ _ s _ (keep s s _ refl refl (same-Grows s))))

  world-Grows : (s : Session A) → Grows s (advance_world F s)
  unfolding begin_intercept
  world-Grows s =
      let same = advance_world-SameControl F s in
      record { snapshots = ground (arith, same.snapshots); events = ground (arith, same.events) }

  gap-Grows : (s t : Session A) → Grows s t → Grows s (exercise_packet_gap F t)
  unfolding exercise_packet_gap
  gap-Grows s t h =
      either-Grows (packet_gap_due F t) (push-Grows _ _ _ _ _ s _ (keep s t _ refl refl h)) h

  assess-Grows : (s t : Session A) → Grows s t → Grows s (assess_engagement F t)
  unfolding assess_engagement assess_success assess_timeout
  assess-Grows s t h =
      either-Grows (is_executing_order t.engage_order_status && is_intercepting t.phase)
        (either-Grows (in_intercept_radius F t) (push-Grows _ _ _ _ _ s _ (keep s t _ refl refl h))
          (either-Grows (leb (to_u64 t.scenario.engagement_timeout_ticks) (engagement_ticks F t))
            (push-Grows _ _ _ _ _ s _ (keep s t _ refl refl h)) h))
        h

  pub tick-Grows : (w : ℕ) (s : Session A) → Grows s (advance_tick F w s)
  unfolding advance_tick
  tick-Grows w s =
      let counted = record s { tick = add64 s.tick 1 } in
      let moved = world-Grows counted in
      let assessed = gap-Grows counted _ (assess-Grows counted _ moved) in
      let grown =
        either-Grows (is_assessed s.phase) (archive-Grows w counted)
          (record-Grows _ w counted _ assessed) in
      record { snapshots = grown.snapshots; events = grown.events }

  outcome-Grows :
      (b : Bool) (s : Session A) (r : CommandResult × Session A) → IsOutcome F b s r → Grows s r.1
  outcome-Grows true s r h = record {
    snapshots = rw (h.snapshot.4, length-append s.snapshots) (omega arith);
    events = rw (h.event.1, length-append s.events) (omega arith);
  }
  outcome-Grows false s r h = record {
    snapshots = rw h.snapshots (omega arith);
    events = rw (h.event.3, length-append s.events) (omega arith);
  }

  pub perform-Grows : (w : ℕ) (c : Command) (s : Session A) → Grows s (perform F w c s).1
  perform-Grows w c s =
      outcome-Grows (is_permitted c s) s (perform F w c s) (perform-IsOutcome F w c s)
