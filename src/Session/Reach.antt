-- ===== src/Session/Reach.antt =====
-- The invariant over whole histories of calls.
use inerceptor_command_sim.Base.{ℕ, inl, inr, arith, Bool-cases}
use inerceptor_command_sim.Base.Int.{ℤ}
use inerceptor_command_sim.Base.Word.{add64}
use inerceptor_command_sim.Floats.{FloatOps}
use inerceptor_command_sim.Core.Config.{ScenarioConfig}
use inerceptor_command_sim.Core.Types.{is_assessed}
use inerceptor_command_sim.Session.State.{Session, new_session, push_event}
use inerceptor_command_sim.Session.Snapshots.{record_snapshot}
use inerceptor_command_sim.Session.Tick.{
  begin_intercept, assess_engagement, exercise_packet_gap, advance_world, advance_tick,
}
use inerceptor_command_sim.Session.Run.{Call, step, IsOrderly}
use inerceptor_command_sim.Session.Invariant.{
  IsWellFormed, new_session-IsWellFormed, connect-IsWellFormed, disconnect-IsWellFormed,
  timeout-IsWellFormed, start-IsWellFormed, configure-IsWellFormed, reset-IsWellFormed,
  request-IsWellFormed, release-IsWellFormed, activate-IsWellFormed, issue-IsWellFormed,
  archive-IsWellFormed, transport-IsWellFormed,
}
use inerceptor_command_sim.Session.Stages.{SameControl, advance_world-SameControl}

module _ {A : Type 0} (F : FloatOps A) where
  assess-IsWellFormed :
      (s t : Session A)
      → SameControl (begin_intercept F s) t
      → IsWellFormed s
      → IsWellFormed (assess_engagement F t)
  unfolding assess_engagement begin_intercept push_event
  assess-IsWellFormed s t same h = ground arith

  retick-IsWellFormed :
      (n : ℕ) (s : Session A) → IsWellFormed s → IsWellFormed (record s { tick = n })
  retick-IsWellFormed n s h = ground arith

  log-IsWellFormed :
      (p : A) (w : ℕ) (s : Session A)
      → IsWellFormed s
      → IsWellFormed (record_snapshot F p w (exercise_packet_gap F s))
  unfolding exercise_packet_gap record_snapshot push_event
  log-IsWellFormed p w s h = ground arith

  tick-IsWellFormed : (w : ℕ) (s : Session A) → IsWellFormed s → IsWellFormed (advance_tick F w s)
  unfolding advance_tick
  tick-IsWellFormed w s h =
      let counted = record s { tick = add64 s.tick 1 } in
      let counted_h : IsWellFormed counted = retick-IsWellFormed (add64 s.tick 1) s h in
      elim (Bool-cases (is_assessed s.phase)) [
        | inl e ↦ rw e (archive-IsWellFormed F w counted counted_h)
        | inr e ↦ rw e (
            log-IsWellFormed _ w (assess_engagement F (advance_world F counted)) (
              assess-IsWellFormed counted (advance_world F counted)
                (advance_world-SameControl F counted) counted_h))
      ]

  -- Every call keeps the session well formed; a scenario is configured in the standby phase only.
  pub step-IsWellFormed :
      (w : ℕ) (c : Call) (s : Session A)
      → IsOrderly c s
      → IsWellFormed s
      → IsWellFormed (step F w c s)
  unfolding step
  step-IsWellFormed w (Call.connects role id) s o h = connect-IsWellFormed s h role id
  step-IsWellFormed w (Call.disconnects role reason) s o h = disconnect-IsWellFormed s h role reason
  step-IsWellFormed w (Call.times_out role reason) s o h = timeout-IsWellFormed F w s h role reason
  step-IsWellFormed w Call.starts s o h = start-IsWellFormed F w s h
  step-IsWellFormed w (Call.configures c) s o h = configure-IsWellFormed F w s h c o
  step-IsWellFormed w (Call.resets reason) s o h = reset-IsWellFormed F w s h reason
  step-IsWellFormed w Call.requests_track s o h = request-IsWellFormed F w s h
  step-IsWellFormed w Call.releases_track s o h = release-IsWellFormed F w s h
  step-IsWellFormed w Call.activates s o h = activate-IsWellFormed F w s h
  step-IsWellFormed w Call.issues s o h = issue-IsWellFormed F w s h
  step-IsWellFormed w (Call.rejects_transport summary reason ids) s o h =
      transport-IsWellFormed s h summary reason ids
  step-IsWellFormed w Call.ticks s o h = tick-IsWellFormed w s h
  step-IsWellFormed w Call.archives s o h = archive-IsWellFormed F w s h

-- The sessions that orderly calls reach.
pub data Reach {A : Type 0} (F : FloatOps A) (s : Session A) : Session A → Type 0 where
  here : Reach F s s
  next :
      {t : Session A} → Reach F s t → (w : ℕ) (c : Call) → IsOrderly c t → Reach F s (step F w c t)

module _ {A : Type 0} (F : FloatOps A) where
  Reach-IsWellFormed_from : {s t : Session A} → IsWellFormed s → Reach F s t → IsWellFormed t
  Reach-IsWellFormed_from h here = h
  Reach-IsWellFormed_from h (next {t = t} r w c o) =
      step-IsWellFormed F w c t o (Reach-IsWellFormed_from h r)

  -- Every session that orderly calls reach from a new one is well formed: its order, interceptor,
  -- track, target and assessment are in the states that belong to its phase (PhaseFacts). Orderly
  -- calls configure a scenario in the standby phase only.
  pub Reach-IsWellFormed :
      (id : ℕ) (rate interval : ℤ) (c : ScenarioConfig) {s : Session A}
      → Reach F (new_session F id rate interval c) s
      → IsWellFormed s
  Reach-IsWellFormed id rate interval c r =
      Reach-IsWellFormed_from (new_session-IsWellFormed F id rate interval c) r
