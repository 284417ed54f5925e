-- ===== src/Session/Outcomes.antt =====
-- What a console command does: when it is permitted, and what a refusal leaves alone.
use inerceptor_command_sim.Base.{
  ℕ, ◌≡◌, refl, Bool, true, false, ◌&&◌, ◌||◌, not, List, [], ◌∷◌, ◌++◌, arith, if◌then◌else◌,
}
use Prim.Native.String.{String}
use inerceptor_command_sim.Base.Text.{Text, bytes}
use inerceptor_command_sim.Floats.{FloatOps, float_zero}
use inerceptor_command_sim.Protocol.Messages.{TcpMessageKind, EventType}
use inerceptor_command_sim.Core.Types.{
  CommandResult, EventRecord, Snapshot, is_disconnected, is_standby, is_detecting, is_tracking,
  is_interceptor_ready, is_engage_ordered, is_intercepting, is_assessed, is_archived,
  is_ready_status,
}
use inerceptor_command_sim.Session.State.{Session, new_event, push_event, reject_command}
use inerceptor_command_sim.Session.Snapshots.{capture_snapshot, numbered, record_snapshot}
use inerceptor_command_sim.Session.Track.{clear_track_state, seed_track_state_from_target}
use inerceptor_command_sim.Session.Commands.{
  accept, start_scenario, request_track, release_track, activate_asset, issue_command,
}
use inerceptor_command_sim.Session.Run.{Command, perform}

-- The conditions under which the session takes a command.
abbrev pub is_permitted : {A : Type 0} → Command → Session A → Bool
is_permitted Command.start s =
    not (is_disconnected s.fire_control_console.connection) && is_standby s.phase
is_permitted Command.track s =
    is_detecting s.phase || (is_interceptor_ready s.phase && not s.track.active)
is_permitted Command.drop s =
    (is_tracking s.phase || is_interceptor_ready s.phase) && s.track.active
is_permitted Command.arm s = is_tracking s.phase && s.track.active
is_permitted Command.fire s = is_interceptor_ready s.phase && is_ready_status s.interceptor_status

-- A refusal: one event is logged, no snapshot is taken, and the world, the track, the phase, the
-- clients and the tick stay as they were.
pub record IsRefusal {A : Type 0} (s : Session A) (r : CommandResult × Session A) : Type 0 where
  pub refused : r.0.is_accepted ≡ false
  pub event :
      (e : EventRecord) × (e.header.event_type ≡ EventType.engage_order_rejected)
      × (e.details ≡ r.0.reason)
      × (r.1.events ≡ s.events ++ e ∷ [])
  pub snapshots : r.1.snapshots ≡ s.snapshots
  pub phase : r.1.phase ≡ s.phase
  pub tick : r.1.tick ≡ s.tick
  pub track : r.1.track ≡ s.track
  pub target : r.1.target ≡ s.target
  pub asset : r.1.asset ≡ s.asset
  pub console : r.1.fire_control_console ≡ s.fire_control_console
  pub display : r.1.tactical_display ≡ s.tactical_display
  pub assessed : r.1.assessment.is_ready ≡ s.assessment.is_ready

-- The success of a command: one event and one snapshot are logged, the snapshot shows the new phase
-- and track, and the tick stays.
pub record IsGrant {A : Type 0} (s : Session A) (r : CommandResult × Session A) : Type 0 where
  pub granted : r.0.is_accepted ≡ true
  pub event : (e : EventRecord) × (r.1.events ≡ s.events ++ e ∷ [])
  pub snapshot :
      (p : Snapshot A) × (p.phase ≡ r.1.phase)
      × (p.track ≡ r.1.track)
      × (p.header.snapshot_sequence ≡ r.1.sequence)
      × (r.1.snapshots ≡ s.snapshots ++ p ∷ [])
  pub tick : r.1.tick ≡ s.tick

module _ {A : Type 0} (F : FloatOps A) where
  reject-IsRefusal :
      (summary reason : Text) (ids : List Text) (s : Session A)
      → IsRefusal s (reject_command summary reason ids s)
  unfolding reject_command push_event
  reject-IsRefusal summary reason ids s = record {
    refused = refl;
    event = (
      new_event EventType.engage_order_rejected (bytes "simulation_server") ids summary reason s,
      refl,
      refl,
      ground arith,
    );
    snapshots = ground arith;
    phase = ground arith;
    tick = ground arith;
    track = ground arith;
    target = ground arith;
    asset = ground arith;
    console = ground arith;
    display = ground arith;
    assessed = ground arith;
  }

  log-IsGrant :
      (reason : String) (kind : TcpMessageKind) (type : EventType) (source : Text) (ids : List Text)
      (summary details : Text) (w : ℕ) (s t : Session A)
      → t.events ≡ s.events
      → t.snapshots ≡ s.snapshots
      → t.tick ≡ s.tick
      → IsGrant s (
        accept reason kind,
        record_snapshot F (float_zero F) w (push_event type source ids summary details t),
      )
  unfolding record_snapshot push_event capture_snapshot
  log-IsGrant reason kind type source ids summary details w s t he hs ht = record {
    granted = refl;
    event = (new_event type source ids summary details t, ground arith);
    snapshot = (
      capture_snapshot F (float_zero F) w
          (numbered F (push_event type source ids summary details t)),
      refl,
      refl,
      refl,
      ground arith,
    );
    tick = ground arith;
  }

  -- A result that is a grant where `b` holds, and a refusal where it does not.
  abbrev pub IsOutcome : Bool → Session A → CommandResult × Session A → Type 0
  IsOutcome true s r = IsGrant s r
  IsOutcome false s r = IsRefusal s r

  granted :
      (b : Bool) (s : Session A) {r : CommandResult × Session A}
      → b ≡ true
      → IsGrant s r
      → IsOutcome b s r
  granted b s e h = rw e h

  refused :
      (b : Bool) (s : Session A) {r : CommandResult × Session A}
      → b ≡ false
      → IsRefusal s r
      → IsOutcome b s r
  refused b s e h = rw e h

  branch :
      (t b : Bool) (s : Session A) (x y : CommandResult × Session A)
      → (t ≡ true → IsOutcome b s x)
      → (t ≡ false → IsOutcome b s y)
      → IsOutcome b s (if t then x else y)
  branch true b s x y hx hy = hx refl
  branch false b s x y hx hy = hy refl

  module _ (w : ℕ) (s : Session A) where
    start-IsOutcome : IsOutcome (is_permitted Command.start s) s (start_scenario F w s)
    unfolding start_scenario clear_track_state
    start-IsOutcome =
        let allowed = is_permitted Command.start s in
        branch (is_disconnected s.fire_control_console.connection) allowed s _ _
          (λ e. refused allowed s (ground arith) (reject-IsRefusal _ _ _ s))
          (λ e.
            branch (not (is_standby s.phase)) allowed s _ _
              (λ e'. refused allowed s (ground arith) (reject-IsRefusal _ _ _ s))
              (λ e'.
                granted allowed s (ground arith) (log-IsGrant _ _ _ _ _ _ _ w s _ refl refl refl)))

    request-IsOutcome : IsOutcome (is_permitted Command.track s) s (request_track F w s)
    unfolding request_track seed_track_state_from_target
    request-IsOutcome =
        let allowed = is_permitted Command.track s in
        branch (is_detecting s.phase) allowed s _ _
          (λ e. granted allowed s (ground arith) (log-IsGrant _ _ _ _ _ _ _ w s _ refl refl refl))
          (λ e.
            branch (is_interceptor_ready s.phase) allowed s _ _
              (λ e'.
                branch s.track.active allowed s _ _
                  (λ e''. refused allowed s (ground arith) (reject-IsRefusal _ _ _ s))
                  (λ e''.
                    granted allowed s (ground arith)
                      (log-IsGrant _ _ _ _ _ _ _ w s _ refl refl refl)))
              (λ e'.
                branch (is_engage_ordered s.phase || is_intercepting s.phase) allowed s _ _
                  (λ e''. refused allowed s (ground arith) (reject-IsRefusal _ _ _ s))
                  (λ e''.
                    branch (is_assessed s.phase || is_archived s.phase) allowed s _ _
                      (λ h. refused allowed s (ground arith) (reject-IsRefusal _ _ _ s))
                      (λ h. refused allowed s (ground arith) (reject-IsRefusal _ _ _ s)))))

    release-IsOutcome : IsOutcome (is_permitted Command.drop s) s (release_track F w s)
    unfolding release_track clear_track_state
    release-IsOutcome =
        let allowed = is_permitted Command.drop s in
        branch (is_tracking s.phase) allowed s _ _
          (λ e.
            branch (not s.track.active) allowed s _ _
              (λ e'. refused allowed s (ground arith) (reject-IsRefusal _ _ _ s))
              (λ e'.
                granted allowed s (ground arith) (log-IsGrant _ _ _ _ _ _ _ w s _ refl refl refl)))
          (λ e.
            branch (is_interceptor_ready s.phase) allowed s _ _
              (λ e'.
                branch (not s.track.active) allowed s _ _
                  (λ e''. refused allowed s (ground arith) (reject-IsRefusal _ _ _ s))
                  (λ e''.
                    granted allowed s (ground arith)
                      (log-IsGrant _ _ _ _ _ _ _ w s _ refl refl refl)))
              (λ e'.
                branch (is_engage_ordered s.phase || is_intercepting s.phase) allowed s _ _
                  (λ e''. refused allowed s (ground arith) (reject-IsRefusal _ _ _ s))
                  (λ e''.
                    branch (is_assessed s.phase || is_archived s.phase) allowed s _ _
                      (λ h. refused allowed s (ground arith) (reject-IsRefusal _ _ _ s))
                      (λ h. refused allowed s (ground arith) (reject-IsRefusal _ _ _ s)))))

    activate-IsOutcome : IsOutcome (is_permitted Command.arm s) s (activate_asset F w s)
    unfolding activate_asset
    activate-IsOutcome =
        let allowed = is_permitted Command.arm s in
        branch (not (is_tracking s.phase)) allowed s _ _
          (λ e. refused allowed s (ground arith) (reject-IsRefusal _ _ _ s))
          (λ e.
            branch (not s.track.active) allowed s _ _
              (λ e'. refused allowed s (ground arith) (reject-IsRefusal _ _ _ s))
              (λ e'.
                granted allowed s (ground arith) (log-IsGrant _ _ _ _ _ _ _ w s _ refl refl refl)))

    issue-IsOutcome : IsOutcome (is_permitted Command.fire s) s (issue_command F w s)
    unfolding issue_command
    issue-IsOutcome =
        let allowed = is_permitted Command.fire s in
        branch (not (is_interceptor_ready s.phase)) allowed s _ _
          (λ e. refused allowed s (ground arith) (reject-IsRefusal _ _ _ s))
          (λ e.
            branch (not (is_ready_status s.interceptor_status)) allowed s _ _
              (λ e'. refused allowed s (ground arith) (reject-IsRefusal _ _ _ s))
              (λ e'.
                granted allowed s (ground arith) (log-IsGrant _ _ _ _ _ _ _ w s _ refl refl refl)))

  -- A console command is granted exactly when it is permitted (is_permitted). Granted, it logs one
  -- event and one snapshot that shows the new phase and track, and the tick stays. Refused, it logs
  -- one engage_order_rejected event with the reason, takes no snapshot, and leaves the phase, tick,
  -- track, target, interceptor, stations and the readiness of the assessment as they were.
  pub perform-IsOutcome :
      (w : ℕ) (c : Command) (s : Session A) → IsOutcome (is_permitted c s) s (perform F w c s)
  unfolding perform
  perform-IsOutcome w Command.start s = start-IsOutcome w s
  perform-IsOutcome w Command.track s = request-IsOutcome w s
  perform-IsOutcome w Command.drop s = release-IsOutcome w s
  perform-IsOutcome w Command.arm s = activate-IsOutcome w s
  perform-IsOutcome w Command.fire s = issue-IsOutcome w s
