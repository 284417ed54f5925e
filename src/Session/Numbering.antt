-- ===== src/Session/Numbering.antt =====
-- The numbering of the recorded snapshots, over whole histories of calls.
pub mod Recorded
use inerceptor_command_sim.Base.{
  ℕ, ◌≡◌, ◌∙◌, ap, refl, sym, length, drop, drop-length_append, Bool, true, false, not, ◌||◌, List,
  [], ◌∷◌, ◌++◌, if◌then◌else◌, arith, Bool-cases, inl, inr,
}
use mathlib.Core.List.{append_assoc, append-nil}
use inerceptor_command_sim.Base.Int.{ℤ}
use inerceptor_command_sim.Base.Text.{Text}
use inerceptor_command_sim.Base.Word.{add64}
use inerceptor_command_sim.Floats.{FloatOps}
use inerceptor_command_sim.Core.Config.{ScenarioConfig}
use inerceptor_command_sim.Core.Types.{
  Snapshot, ClientRole, CommandResult, is_disconnected, is_standby, is_detecting, is_tracking,
  is_interceptor_ready, is_engage_ordered, is_intercepting, is_assessed, is_archived,
  is_ready_status,
}
use inerceptor_command_sim.Session.State.{
  Session, next_timestamp_ms, new_session, push_event, reject_command,
}
use inerceptor_command_sim.Session.Snapshots.{capture_snapshot, record_snapshot}
use inerceptor_command_sim.Session.Clients.{connect_client, disconnect_client, timeout_client}
use inerceptor_command_sim.Session.Track.{
  clear_track_state, seed_track_state_from_target, reset_world_state_from_scenario,
}
use inerceptor_command_sim.Session.Commands.{
  start_scenario, configure_scenario, reset_session, request_track, release_track, activate_asset,
  issue_command, archive_session, record_transport_rejection,
}
use inerceptor_command_sim.Session.Tick.{
  begin_intercept, assess_engagement, exercise_packet_gap, advance_world, advance_tick,
}
use inerceptor_command_sim.Session.Run.{Call, step, run}
use inerceptor_command_sim.Session.Stages.{SameControl, advance_world-SameControl}
use inerceptor_command_sim.Session.Numbering.Recorded.{
  Consecutive, Follows, last_number, Follows-append, last_number-append, Follows-Consecutive,
  IsNumbered, HasNumbered, keep, start-HasNumbered, request-HasNumbered, release-HasNumbered,
  activate-HasNumbered, issue-HasNumbered, archive-IsNumbered, connect-IsNumbered,
  timeout-IsNumbered, disconnect-IsNumbered, tick-IsNumbered,
}

abbrev is_reset : Call → Bool
is_reset (Call.resets reason) = true
is_reset _ = false

-- The log that a call adds its snapshots to: a reset empties it first.
abbrev pub log_before : {A : Type 0} → Call → Session A → List (Snapshot A)
log_before c s = if is_reset c then [] else s.snapshots

-- Nothing is recorded yet.
none_new : {A : Type 0} (s : Session A) → IsNumbered s.snapshots s.sequence s
none_new s = record { new = []; grown = sym (append-nil s.snapshots); numbers = tt; current = refl }

-- A log with the snapshots that a call has added to it.
IsNumbered-append :
    {A : Type 0} (log : List (Snapshot A)) (last : ℕ) (s t : Session A)
    → IsNumbered log last s
    → IsNumbered s.snapshots s.sequence t
    → IsNumbered log last t
IsNumbered-append log last s t h k = record {
  new = h.new ++ k.new;
  grown = k.grown ∙ ap (λ xs. xs ++ k.new) h.grown ∙ append_assoc log h.new k.new;
  numbers = Follows-append last h.new k.new h.numbers (rw (← h.current) k.numbers);
  current =
      k.current
      ∙ ap (λ n. last_number n k.new) h.current
      ∙ sym (last_number-append last h.new k.new);
}

module _ {A : Type 0} (F : FloatOps A) where
  reset-IsNumbered :
      (w : ℕ) (s : Session A) (reason : Text)
      → IsNumbered [] s.sequence (reset_session F reason w s).1
  unfolding reset_session clear_track_state reset_world_state_from_scenario record_snapshot
      capture_snapshot
  reset-IsNumbered w s reason = record {
    new = (reset_session F reason w s).1.snapshots;
    grown = refl;
    numbers = (refl, tt);
    current = refl;
  }

  step-IsNumbered :
      (w : ℕ) (c : Call) (s : Session A) → IsNumbered (log_before c s) s.sequence (step F w c s)
  unfolding step configure_scenario clear_track_state reset_world_state_from_scenario
      record_transport_rejection push_event
  step-IsNumbered w (Call.connects role id) s = connect-IsNumbered F w s (none_new s) role id
  step-IsNumbered w (Call.disconnects role reason) s =
      disconnect-IsNumbered F w s (none_new s) role reason
  step-IsNumbered w (Call.times_out role reason) s =
      timeout-IsNumbered F w s (none_new s) role reason
  step-IsNumbered w Call.starts s = (start-HasNumbered F w s (none_new s)).state
  step-IsNumbered w (Call.configures c) s = keep s _ refl refl (none_new s)
  step-IsNumbered w (Call.resets reason) s = reset-IsNumbered w s reason
  step-IsNumbered w Call.requests_track s = (request-HasNumbered F w s (none_new s)).state
  step-IsNumbered w Call.releases_track s = (release-HasNumbered F w s (none_new s)).state
  step-IsNumbered w Call.activates s = (activate-HasNumbered F w s (none_new s)).state
  step-IsNumbered w Call.issues s = (issue-HasNumbered F w s (none_new s)).state
  step-IsNumbered w (Call.rejects_transport summary reason ids) s = keep s _ refl refl (none_new s)
  step-IsNumbered w Call.ticks s = tick-IsNumbered F w s (none_new s)
  step-IsNumbered w Call.archives s = archive-IsNumbered F w s (none_new s)

  -- The snapshots that a call records: all that its log holds beyond the one that it adds to.
  abbrev pub recorded : ℕ → Call → Session A → List (Snapshot A)
  recorded w c s = drop (length (log_before c s)) (step F w c s).snapshots

  -- All that a history of calls records, whatever resets have removed from the log since.
  abbrev pub all_recorded : List (ℕ × Call) → Session A → List (Snapshot A)
  all_recorded [] s = []
  all_recorded ((w, c) ∷ calls) s = recorded w c s ++ all_recorded calls (step F w c s)

  recorded-lem :
      (w : ℕ) (c : Call) (s : Session A)
      → Follows s.sequence (recorded w c s)
        × ((step F w c s).sequence ≡ last_number s.sequence (recorded w c s))
  recorded-lem w c s =
      let h = step-IsNumbered w c s in
      let new : recorded w c s ≡ h.new =
        ap (drop (length (log_before c s))) h.grown ∙ drop-length_append (log_before c s) h.new in
      rw new (h.numbers, h.current)

  all_recorded-lem :
      (calls : List (ℕ × Call)) (s : Session A)
      → Follows s.sequence (all_recorded calls s)
        × ((run F calls s).sequence ≡ last_number s.sequence (all_recorded calls s))
  unfolding run
  all_recorded-lem [] s = (tt, refl)
  all_recorded-lem ((w, c) ∷ calls) s =
      let h = recorded-lem w c s in
      let k = all_recorded-lem calls (step F w c s) in
      let rest = all_recorded calls (step F w c s) in
      (
        Follows-append s.sequence (recorded w c s) rest h.0 (rw (← h.1) k.0),
        k.1
            ∙ ap (λ n. last_number n rest) h.1
            ∙ sym (last_number-append s.sequence (recorded w c s) rest),
      )

  -- Numbered from some number on.
  IsLog : Session A → Type 0
  IsLog s = (first : ℕ) × IsNumbered [] first s

  step-IsLog : (w : ℕ) (c : Call) (s : Session A) → IsLog s → IsLog (step F w c s)
  unfolding IsLog
  step-IsLog w c s (first, h) =
      let k = step-IsNumbered w c s in
      elim (Bool-cases (is_reset c)) [
        | inl e ↦ (s.sequence, rw e at k)
        | inr e ↦ (first, IsNumbered-append [] first s _ h (rw e at k))
      ]

  run-IsLog : (calls : List (ℕ × Call)) (s : Session A) → IsLog s → IsLog (run F calls s)
  unfolding run
  run-IsLog [] s h = h
  run-IsLog ((w, c) ∷ calls) s h = run-IsLog calls (step F w c s) (step-IsLog w c s h)

  IsLog-Consecutive : (s : Session A) → IsLog s → Consecutive s.snapshots s.sequence
  unfolding IsLog
  IsLog-Consecutive s (first, h) =
      rw (h.grown, h.current) (Follows-Consecutive first h.new h.numbers)

  -- The snapshots that a history of calls records are numbered 1, 2, 3 and so on (mod 2^64), and a
  -- reset, which empties the log, does not start the numbers again. The snapshots that are still in
  -- the log carry consecutive numbers, the last of them the session's own.
  pub snapshots-Consecutive :
      (id : ℕ) (rate interval : ℤ) (c : ScenarioConfig) (calls : List (ℕ × Call))
      → let first = new_session F id rate interval c in
        let s = run F calls first in
        Follows 0 (all_recorded calls first) × Consecutive s.snapshots s.sequence
  unfolding new_session IsLog
  snapshots-Consecutive id rate interval c calls =
      let first = new_session F id rate interval c in
      let empty : IsLog first =
        (0, record { new = []; grown = refl; numbers = tt; current = refl }) in
      (
        (all_recorded-lem calls first).0,
        IsLog-Consecutive (run F calls first) (run-IsLog calls first empty),
      )
