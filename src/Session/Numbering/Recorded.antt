-- ===== src/Session/Numbering/Recorded.antt =====
-- What an operation of the session records: snapshots whose numbers go on from its last one.
use inerceptor_command_sim.Base.{
  ℕ, ◌≡◌, ◌∙◌, ap, refl, sym, Bool, true, false, not, ◌||◌, List, [], ◌∷◌, ◌++◌, if◌then◌else◌,
  arith,
}
use mathlib.Core.List.{append_assoc}
use inerceptor_command_sim.Base.Text.{Text}
use inerceptor_command_sim.Base.Word.{add64}
use inerceptor_command_sim.Floats.{FloatOps}
use inerceptor_command_sim.Core.Types.{
  Snapshot, ClientRole, CommandResult, is_disconnected, is_standby, is_detecting, is_tracking,
  is_interceptor_ready, is_engage_ordered, is_intercepting, is_assessed, is_archived,
  is_ready_status,
}
use inerceptor_command_sim.Session.State.{Session, next_timestamp_ms, push_event, reject_command}
use inerceptor_command_sim.Session.Snapshots.{capture_snapshot, record_snapshot}
use inerceptor_command_sim.Session.Clients.{connect_client, disconnect_client, timeout_client}
use inerceptor_command_sim.Session.Track.{clear_track_state, seed_track_state_from_target}
use inerceptor_command_sim.Session.Commands.{
  start_scenario, request_track, release_track, activate_asset, issue_command, archive_session,
}
use inerceptor_command_sim.Session.Tick.{
  begin_intercept, assess_engagement, exercise_packet_gap, advance_world, advance_tick,
}
use inerceptor_command_sim.Session.Stages.{SameControl, advance_world-SameControl}

-- The snapshots carry consecutive numbers (mod 2^64) and the last one carries `last`.
abbrev pub Consecutive : {A : Type 0} → List (Snapshot A) → ℕ → Type 0
Consecutive [] last = Unit
Consecutive (x ∷ []) last = x.header.snapshot_sequence ≡ last
Consecutive (x ∷ y ∷ rest) last =
    (y.header.snapshot_sequence ≡ add64 x.header.snapshot_sequence 1) × Consecutive (y ∷ rest) last

-- The numbers go on from `last`, one by one (mod 2^64).
abbrev pub Follows : {A : Type 0} → ℕ → List (Snapshot A) → Type 0
Follows last [] = Unit
Follows last (x ∷ xs) = (x.header.snapshot_sequence ≡ add64 last 1) × Follows (add64 last 1) xs

-- The last of the numbers that go on from `last`.
abbrev pub last_number : {A : Type 0} → ℕ → List (Snapshot A) → ℕ
last_number last [] = last
last_number last (x ∷ xs) = last_number (add64 last 1) xs

pub Follows-append :
    {A : Type 0} (last : ℕ) (xs ys : List (Snapshot A))
    → Follows last xs
    → Follows (last_number last xs) ys
    → Follows last (xs ++ ys)
Follows-append last [] ys h k = k
Follows-append last (x ∷ xs) ys h k = (h.0, Follows-append (add64 last 1) xs ys h.1 k)

pub last_number-append :
    {A : Type 0} (last : ℕ) (xs ys : List (Snapshot A))
    → last_number last (xs ++ ys) ≡ last_number (last_number last xs) ys
last_number-append last [] ys = refl
last_number-append last (x ∷ xs) ys = last_number-append (add64 last 1) xs ys

pub Follows-Consecutive :
    {A : Type 0} (last : ℕ) (xs : List (Snapshot A))
    → Follows last xs
    → Consecutive xs (last_number last xs)
Follows-Consecutive last [] h = tt
Follows-Consecutive last (x ∷ []) h = h.0
Follows-Consecutive last (x ∷ y ∷ rest) h =
    (rw h.0 h.1.0, Follows-Consecutive (add64 last 1) (y ∷ rest) h.1)

-- The log is the one of before with new snapshots behind it, whose numbers go on from `last`.
pub record IsNumbered {A : Type 0} (log : List (Snapshot A)) (last : ℕ) (s : Session A)
    : Type 0 where
  pub new : List (Snapshot A)
  pub grown : s.snapshots ≡ log ++ new
  pub numbers : Follows last new
  pub current : s.sequence ≡ last_number last new

pub record HasNumbered {A : Type 0} (log : List (Snapshot A)) (last : ℕ)
    (r : CommandResult × Session A) : Type 0 where
  pub state : IsNumbered log last r.1

module _ {A : Type 0} {log : List (Snapshot A)} {last : ℕ} where
  pub keep :
      (s t : Session A)
      → t.snapshots ≡ s.snapshots
      → t.sequence ≡ s.sequence
      → IsNumbered log last s
      → IsNumbered log last t
  keep s t e e' h = record {
    new = h.new;
    grown = e ∙ h.grown;
    numbers = h.numbers;
    current = e' ∙ h.current;
  }

  either :
      (b : Bool) {s t : Session A}
      → IsNumbered log last s
      → IsNumbered log last t
      → IsNumbered log last (if b then s else t)
  either true h k = h
  either false h k = k

  either_result :
      (b : Bool) {r r' : CommandResult × Session A}
      → HasNumbered log last r
      → HasNumbered log last r'
      → HasNumbered log last (if b then r else r')
  either_result true h k = h
  either_result false h k = k

  reject-HasNumbered :
      (summary reason : Text) (ids : List Text) (s : Session A)
      → IsNumbered log last s
      → HasNumbered log last (reject_command summary reason ids s)
  unfolding reject_command push_event
  reject-HasNumbered summary reason ids s h = record {
    state = keep s (reject_command summary reason ids s).1 (ground arith) (ground arith) h;
  }

module _ {A : Type 0} (F : FloatOps A) where
  -- A tick has logged no snapshot before its end.
  assessed-logs :
      (s t : Session A)
      → SameControl (begin_intercept F s) t
      → let u = exercise_packet_gap F (assess_engagement F t) in
        (u.snapshots ≡ s.snapshots) × (u.sequence ≡ s.sequence)
  unfolding exercise_packet_gap assess_engagement begin_intercept push_event
  assessed-logs s t same = ground arith

module _ {A : Type 0} {log : List (Snapshot A)} {last : ℕ} (F : FloatOps A) where
  snapshot-IsNumbered :
      (p : A) (w : ℕ) (s t : Session A)
      → t.snapshots ≡ s.snapshots
      → t.sequence ≡ s.sequence
      → IsNumbered log last s
      → IsNumbered log last (record_snapshot F p w t)
  unfolding record_snapshot capture_snapshot
  snapshot-IsNumbered p w s t e e' h =
      let x =
        capture_snapshot F p w
          (record t { sequence = add64 t.sequence 1; clock_ms = next_timestamp_ms t }) in
      let next : t.sequence ≡ last_number last h.new = e' ∙ h.current in
      record {
        new = h.new ++ x ∷ [];
        grown = ap (λ xs. xs ++ x ∷ []) (e ∙ h.grown) ∙ append_assoc log h.new (x ∷ []);
        numbers = Follows-append last h.new (x ∷ []) h.numbers (ap (λ n. add64 n 1) next, tt);
        current = ap (λ n. add64 n 1) next ∙ sym (last_number-append last h.new (x ∷ []));
      }

  granted-HasNumbered :
      (p : A) (w : ℕ) (r : CommandResult) (s t : Session A)
      → t.snapshots ≡ s.snapshots
      → t.sequence ≡ s.sequence
      → IsNumbered log last s
      → HasNumbered log last (r, record_snapshot F p w t)
  granted-HasNumbered p w r s t e e' h = record { state = snapshot-IsNumbered p w s t e e' h }

  module _ (w : ℕ) (s : Session A) (h : IsNumbered log last s) where
    pub start-HasNumbered : HasNumbered log last (start_scenario F w s)
    unfolding start_scenario clear_track_state push_event
    start-HasNumbered =
        either_result (is_disconnected s.fire_control_console.connection)
          (reject-HasNumbered _ _ _ s h)
          (either_result (not (is_standby s.phase)) (reject-HasNumbered _ _ _ s h)
            (granted-HasNumbered _ w _ s _ refl refl h))

    pub request-HasNumbered : HasNumbered log last (request_track F w s)
    unfolding request_track seed_track_state_from_target push_event
    request-HasNumbered =
        either_result (is_detecting s.phase) (granted-HasNumbered _ w _ s _ refl refl h) (
          either_result (is_interceptor_ready s.phase)
            (either_result s.track.active (reject-HasNumbered _ _ _ s h)
              (granted-HasNumbered _ w _ s _ refl refl h))
            (either_result (is_engage_ordered s.phase || is_intercepting s.phase)
              (reject-HasNumbered _ _ _ s h)
              (either_result (is_assessed s.phase || is_archived s.phase)
                (reject-HasNumbered _ _ _ s h) (reject-HasNumbered _ _ _ s h))))

    pub release-HasNumbered : HasNumbered log last (release_track F w s)
    unfolding release_track clear_track_state push_event
    release-HasNumbered =
        either_result (is_tracking s.phase)
          (either_result (not s.track.active) (reject-HasNumbered _ _ _ s h)
            (granted-HasNumbered _ w _ s _ refl refl h))
          (either_result (is_interceptor_ready s.phase)
            (either_result (not s.track.active) (reject-HasNumbered _ _ _ s h)
              (granted-HasNumbered _ w _ s _ refl refl h))
            (either_result (is_engage_ordered s.phase || is_intercepting s.phase)
              (reject-HasNumbered _ _ _ s h)
              (either_result (is_assessed s.phase || is_archived s.phase)
                (reject-HasNumbered _ _ _ s h) (reject-HasNumbered _ _ _ s h))))

    pub activate-HasNumbered : HasNumbered log last (activate_asset F w s)
    unfolding activate_asset push_event
    activate-HasNumbered =
        either_result (not (is_tracking s.phase)) (reject-HasNumbered _ _ _ s h) (
          either_result (not s.track.active) (reject-HasNumbered _ _ _ s h)
            (granted-HasNumbered _ w _ s _ refl refl h))

    pub issue-HasNumbered : HasNumbered log last (issue_command F w s)
    unfolding issue_command push_event
    issue-HasNumbered =
        either_result (not (is_interceptor_ready s.phase)) (reject-HasNumbered _ _ _ s h) (
          either_result (not (is_ready_status s.interceptor_status)) (reject-HasNumbered _ _ _ s h)
            (granted-HasNumbered _ w _ s _ refl refl h))

    pub archive-IsNumbered : IsNumbered log last (archive_session F w s)
    unfolding archive_session push_event
    archive-IsNumbered = either (is_archived s.phase) h (snapshot-IsNumbered _ w s _ refl refl h)

    pub connect-IsNumbered :
        (role : ClientRole) (id : ℕ) → IsNumbered log last (connect_client role id s)
    unfolding connect_client push_event
    connect-IsNumbered ClientRole.fire_control_console id =
        either s.fire_control_console.has_connected_before (keep s _ refl refl h)
          (keep s _ refl refl h)
    connect-IsNumbered ClientRole.tactical_display id =
        either s.tactical_display.has_connected_before (keep s _ refl refl h) (keep s _ refl refl h)

    pub timeout-IsNumbered :
        (role : ClientRole) (reason : Text) → IsNumbered log last (timeout_client F role reason w s)
    unfolding timeout_client push_event
    timeout-IsNumbered ClientRole.fire_control_console reason =
        snapshot-IsNumbered _ w s _ refl refl h
    timeout-IsNumbered ClientRole.tactical_display reason = snapshot-IsNumbered _ w s _ refl refl h

    pub disconnect-IsNumbered :
        (role : ClientRole) (reason : Text) → IsNumbered log last (disconnect_client role reason s)
    unfolding disconnect_client push_event
    disconnect-IsNumbered ClientRole.fire_control_console reason = keep s _ refl refl h
    disconnect-IsNumbered ClientRole.tactical_display reason = keep s _ refl refl h

  pub tick-IsNumbered :
      (w : ℕ) (s : Session A) → IsNumbered log last s → IsNumbered log last (advance_tick F w s)
  unfolding advance_tick
  tick-IsNumbered w s h =
      let counted = record s { tick = add64 s.tick 1 } in
      let logs =
        assessed-logs F counted (advance_world F counted) (advance_world-SameControl F counted) in
      either (is_assessed s.phase) (archive-IsNumbered w counted (keep s counted refl refl h))
        (snapshot-IsNumbered _ w s _ logs.0 logs.1 h)
