-- ===== src/Session/Engagement.antt =====
-- How an engagement ends: by ticks alone it is assessed in time, and a refused command stalls it.
use inerceptor_command_sim.Base.{
  ℕ, ◌+◌, ◌≤◌, ◌<◌, ◌≡◌, ◌⊎◌, inl, inr, true, List, [], ◌∷◌, some, max, arith, length,
}
use inerceptor_command_sim.Base.Word.{u64_mod, add64}
use inerceptor_command_sim.Base.Int.{to_u64}
use inerceptor_command_sim.Floats.{FloatOps}
use inerceptor_command_sim.Core.Types.{SessionPhase, EngageOrderStatus}
use inerceptor_command_sim.Session.State.{Session, push_event, reject_command}
use inerceptor_command_sim.Session.Snapshots.{record_snapshot}
use inerceptor_command_sim.Session.Commands.{
  start_scenario, request_track, release_track, activate_asset, issue_command, archive_session,
}
use inerceptor_command_sim.Session.Tick.{
  begin_intercept, assess_engagement, engagement_ticks, exercise_packet_gap, advance_tick,
}
use inerceptor_command_sim.Session.Run.{Command, perform, advance_ticks}
use inerceptor_command_sim.Session.Invariant.{IsWellFormed}
use inerceptor_command_sim.Session.Stages.{advance_world-SameControl}

abbrev pub IsResolved : SessionPhase → Type 0
IsResolved p = (p ≡ SessionPhase.assessed) ⊎ (p ≡ SessionPhase.archived)

-- The engagement that was ordered at tick `t0` has run for `k` ticks of at most `limit`.
record IsEngaged {A : Type 0} (t0 limit k : ℕ) (s : Session A) : Type 0 where
  started : s.engagement_started_tick ≡ some t0
  at_tick : s.tick ≡ t0 + k
  timeout : to_u64 s.scenario.engagement_timeout_ticks ≡ limit
  live :
      ((s.phase ≡ SessionPhase.engage_ordered)
        × (s.engage_order_status ≡ EngageOrderStatus.accepted))
      ⊎ ((s.phase ≡ SessionPhase.intercepting)
          × (s.engage_order_status ≡ EngageOrderStatus.executing))

module _ {A : Type 0} (F : FloatOps A) where
  IsResolved-stays :
      (w : ℕ) (s : Session A) → IsResolved s.phase → IsResolved (advance_tick F w s).phase
  unfolding advance_tick assess_engagement exercise_packet_gap record_snapshot push_event
      begin_intercept archive_session
  IsResolved-stays w s h =
      ground (arith, advance_world-SameControl F (record s { tick = add64 s.tick 1 }))

  tick-IsEngaged :
      (w t0 limit k : ℕ) (s : Session A)
      → t0 + (k + 1) < u64_mod
      → IsEngaged t0 limit k s
      → IsResolved (advance_tick F w s).phase
        ⊎ (IsEngaged t0 limit (k + 1) (advance_tick F w s) × (k + 1 < limit))
  unfolding advance_tick assess_engagement exercise_packet_gap record_snapshot push_event
      begin_intercept engagement_ticks
  tick-IsEngaged w t0 limit k s room h =
      ground (arith, advance_world-SameControl F (record s { tick = add64 s.tick 1 }))

  ticks-IsResolved :
      (ws : List ℕ) (s : Session A) → IsResolved s.phase → IsResolved (advance_ticks F ws s).phase
  unfolding advance_ticks
  ticks-IsResolved [] s h = h
  ticks-IsResolved (w ∷ ws) s h = ticks-IsResolved ws (advance_tick F w s) (IsResolved-stays w s h)

  ticks_resolve :
      (ws : List ℕ) (t0 limit k : ℕ) (s : Session A)
      → t0 + (k + length ws) < u64_mod
      → limit ≤ k + length ws
      → 0 < length ws
      → IsEngaged t0 limit k s
      → IsResolved (advance_ticks F ws s).phase
  unfolding advance_ticks
  ticks_resolve [] t0 limit k s room enough some_tick h = absurd (omega arith)
  ticks_resolve (w ∷ ws) t0 limit k s room enough some_tick h =
      elim (tick-IsEngaged w t0 limit k s (omega arith) h) [
        | inl done ↦ ticks-IsResolved ws (advance_tick F w s) done
        | inr going ↦
            ticks_resolve ws t0 limit (k + 1) (advance_tick F w s) (omega arith) (omega arith)
              (omega arith) going.0
      ]

  issue_engages :
      (w : ℕ) (s : Session A)
      → (issue_command F w s).0.is_accepted ≡ true
      → IsEngaged s.tick (to_u64 s.scenario.engagement_timeout_ticks) 0 (issue_command F w s).1
  unfolding issue_command reject_command push_event record_snapshot
  issue_engages w s h = ground arith

  -- Once a fire order is accepted, ticks alone bring the session to an assessed or archived phase:
  -- as many ticks as the engagement timeout (and one at least) are enough, provided that the tick
  -- counter does not wrap on the way.
  pub fire_order_resolves :
      (w : ℕ) (ws : List ℕ) (s : Session A)
      → (issue_command F w s).0.is_accepted ≡ true
      → max 1 (to_u64 s.scenario.engagement_timeout_ticks) ≤ length ws
      → s.tick + length ws < u64_mod
      → IsResolved (advance_ticks F ws (issue_command F w s).1).phase
  fire_order_resolves w ws s accepted enough room =
      ticks_resolve ws s.tick (to_u64 s.scenario.engagement_timeout_ticks) 0 (issue_command F w s).1
        (omega arith) (omega arith) (omega arith) (issue_engages w s accepted)

-- The engagement is under way and its order has been marked as rejected.
abbrev IsStalled : {A : Type 0} → SessionPhase → Session A → Type 0
IsStalled p s = (s.phase ≡ p) × (s.engage_order_status ≡ EngageOrderStatus.rejected)

abbrev pub IsUnderWay : SessionPhase → Type 0
IsUnderWay p = (p ≡ SessionPhase.engage_ordered) ⊎ (p ≡ SessionPhase.intercepting)

module _ {A : Type 0} (F : FloatOps A) where
  tick-IsStalled :
      (w : ℕ) (p : SessionPhase) (s : Session A)
      → IsUnderWay p
      → IsStalled p s
      → IsStalled p (advance_tick F w s)
  unfolding advance_tick assess_engagement exercise_packet_gap record_snapshot push_event
      begin_intercept
  tick-IsStalled w p s u h =
      ground (arith, advance_world-SameControl F (record s { tick = add64 s.tick 1 }))

  ticks-IsStalled :
      (ws : List ℕ) (p : SessionPhase) (s : Session A)
      → IsUnderWay p
      → IsStalled p s
      → IsStalled p (advance_ticks F ws s)
  unfolding advance_ticks
  ticks-IsStalled [] p s u h = h
  ticks-IsStalled (w ∷ ws) p s u h =
      ticks-IsStalled ws p (advance_tick F w s) u (tick-IsStalled w p s u h)

  command_stalls :
      (w : ℕ) (c : Command) (s : Session A)
      → IsWellFormed s
      → IsUnderWay s.phase
      → IsStalled s.phase (perform F w c s).1
  unfolding perform start_scenario request_track release_track activate_asset issue_command
      reject_command push_event
  command_stalls w Command.start s h u = ground arith
  command_stalls w Command.track s h u = ground arith
  command_stalls w Command.drop s h u = ground arith
  command_stalls w Command.arm s h u = ground arith
  command_stalls w Command.fire s h u = ground arith

  -- A console command during an engagement stalls it: from a well-formed session whose phase is
  -- engage_ordered or intercepting, after any of the five commands no number of ticks changes the
  -- phase again, so that neither success nor timeout is ever assessed.
  pub command_stalls_engagement :
      (w : ℕ) (c : Command) (ws : List ℕ) (s : Session A)
      → IsWellFormed s
      → IsUnderWay s.phase
      → (advance_ticks F ws (perform F w c s).1).phase ≡ s.phase
  command_stalls_engagement w c ws s h u =
      (ticks-IsStalled ws s.phase (perform F w c s).1 u (command_stalls w c s h u)).0
