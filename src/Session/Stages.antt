-- ===== src/Session/Stages.antt =====
-- What each stage of a tick leaves alone.
use inerceptor_command_sim.Base.{◌≡◌, arith}
use inerceptor_command_sim.Floats.{FloatOps}
use inerceptor_command_sim.Session.State.{Session}
use inerceptor_command_sim.Session.Track.{update_track_state}
use inerceptor_command_sim.Session.Tick.{
  move_target, track_target, begin_intercept, move_interceptor, update_seeker, advance_world,
}

-- The second session has the first one's control state, logs and clocks.
pub record SameControl {A : Type 0} (s t : Session A) : Type 0 where
  pub phase : t.phase ≡ s.phase
  pub tick : t.tick ≡ s.tick
  pub sequence : t.sequence ≡ s.sequence
  pub clock_ms : t.clock_ms ≡ s.clock_ms
  pub telemetry_interval_ms : t.telemetry_interval_ms ≡ s.telemetry_interval_ms
  pub scenario : t.scenario ≡ s.scenario
  pub target_active : t.target.active ≡ s.target.active
  pub target_id : t.target.id ≡ s.target.id
  pub asset_active : t.asset.active ≡ s.asset.active
  pub track_active : t.track.active ≡ s.track.active
  pub interceptor_status : t.interceptor_status ≡ s.interceptor_status
  pub engage_order_status : t.engage_order_status ≡ s.engage_order_status
  pub assessment : t.assessment ≡ s.assessment
  pub started : t.engagement_started_tick ≡ s.engagement_started_tick
  pub packet_gap_exercised : t.packet_gap_exercised ≡ s.packet_gap_exercised
  pub events : t.events ≡ s.events
  pub snapshots : t.snapshots ≡ s.snapshots
  pub console : t.fire_control_console ≡ s.fire_control_console

SameControl-trans :
    {A : Type 0} {s t u : Session A} → SameControl s t → SameControl t u → SameControl s u
SameControl-trans h k = ground arith

module _ {A : Type 0} (F : FloatOps A) (s : Session A) where
  move_target-SameControl : SameControl s (move_target F s)
  unfolding move_target
  move_target-SameControl = ground arith

  update_track_state-SameControl : SameControl s (update_track_state F s)
  unfolding update_track_state
  update_track_state-SameControl = ground arith

  track_target-SameControl : SameControl s (track_target F s)
  unfolding track_target
  track_target-SameControl = ground (arith, update_track_state-SameControl)

  move_interceptor-SameControl : SameControl s (move_interceptor F s)
  unfolding move_interceptor
  move_interceptor-SameControl = ground arith

  update_seeker-SameControl : SameControl s (update_seeker F s)
  unfolding update_seeker
  update_seeker-SameControl = ground arith

module _ {A : Type 0} (F : FloatOps A) where
  begin_intercept-SameControl :
      (s t : Session A) → SameControl s t → SameControl (begin_intercept F s) (begin_intercept F t)
  unfolding begin_intercept
  begin_intercept-SameControl s t h = ground arith

  -- Up to the assessment a tick changes the control state only by beginning an interception.
  pub advance_world-SameControl :
      (s : Session A) → SameControl (begin_intercept F s) (advance_world F s)
  unfolding advance_world
  advance_world-SameControl s =
      let moved = move_target F s in
      let tracked = track_target F moved in
      let begun = begin_intercept F tracked in
      let steered = move_interceptor F begun in
      SameControl-trans
        (begin_intercept-SameControl s tracked
          (SameControl-trans (move_target-SameControl F s) (track_target-SameControl F moved)))
        (SameControl-trans (move_interceptor-SameControl F begun)
          (update_seeker-SameControl F steered))
