-- ===== src/Session/Summary.antt =====
-- SimulationSession::build_summary (common/src/simulation_summary.cpp) and its resilience label.
use inerceptor_command_sim.Base.{
  ◌+◌, ◌≡◌, refl, Bool, true, false, ltb, List, [], ◌∷◌, ◌++◌, none, some, length, get_last?,
  length-append, if◌then◌else◌, arith,
}
use inerceptor_command_sim.Base.Text.{Text, bytes}
use inerceptor_command_sim.Protocol.Messages.{EventType}
use inerceptor_command_sim.Core.Types.{SessionSummary, EventRecord}
use inerceptor_command_sim.Session.State.{Session, push_event, new_event}
use inerceptor_command_sim.Session.Schedule.{build_resilience_case}

unfoldable pub last_event_type : List EventRecord → EventType
last_event_type events = elim (get_last? events) [
  | some e ↦ e.header.event_type
  | none ↦ EventType.session_started
]

unfoldable pub build_summary : {A : Type 0} → Session A → SessionSummary
build_summary s = record {
  session_id = s.session_id;
  phase = s.phase;
  snapshot_count = length s.snapshots;
  event_count = length s.events;
  fire_control_console_connection = s.fire_control_console.connection;
  display_connection = s.tactical_display.connection;
  assessment_ready = s.assessment.is_ready;
  assessment_code = s.assessment.code;
  has_last_event = ltb 0 (length s.events);
  last_event_type = last_event_type s.events;
  resilience_case =
      build_resilience_case s.reconnect_exercised s.timeout_exercised s.packet_gap_exercised;
}

-- The names of the exercised cases.
abbrev pub exercised : Bool → Bool → Bool → List Text
exercised reconnect timeout gap =
    (if reconnect then bytes "reconnect_and_resync" ∷ [] else [])
    ++ ((if gap then bytes "udp_snapshot_gap_convergence" ∷ [] else [])
        ++ (if timeout then bytes "timeout_visibility" ∷ [] else []))

-- The names with commas between them.
abbrev pub joined : List Text → Text
joined [] = []
joined (x ∷ []) = x
joined (x ∷ y ∷ rest) = x ++ (b',' ∷ joined (y ∷ rest))

-- The label of a run: the names of the cases that it exercised, or "none".
abbrev pub label_of : List Text → Text
label_of [] = bytes "none"
label_of (x ∷ rest) = joined (x ∷ rest)

-- The resilience label lists the exercised cases in a fixed order, with commas between them, and is
-- "none" where there is none, for each of the eight combinations.
pub build_resilience_case-exercised :
    (reconnect timeout gap : Bool)
    → build_resilience_case reconnect timeout gap ≡ label_of (exercised reconnect timeout gap)
unfolding build_resilience_case bytes
build_resilience_case-exercised true true true = refl
build_resilience_case-exercised true true false = refl
build_resilience_case-exercised true false true = refl
build_resilience_case-exercised true false false = refl
build_resilience_case-exercised false true true = refl
build_resilience_case-exercised false true false = refl
build_resilience_case-exercised false false true = refl
build_resilience_case-exercised false false false = refl

last_event_type-append :
    (events : List EventRecord) (e : EventRecord)
    → last_event_type (events ++ e ∷ []) ≡ e.header.event_type
unfolding last_event_type
last_event_type-append [] e = refl
last_event_type-append (x ∷ []) e = refl
last_event_type-append (x ∷ y ∷ events) e = last_event_type-append (y ∷ events) e

-- After an event has been logged the summary counts it, and shows its type as the last one.
pub build_summary-push_event :
    {A : Type 0} (type : EventType) (source : Text) (ids : List Text) (summary details : Text)
    (s : Session A)
    → let r = build_summary (push_event type source ids summary details s) in
      (r.event_count ≡ (build_summary s).event_count + 1)
      × (r.has_last_event ≡ true)
      × (r.last_event_type ≡ type)
unfolding build_summary push_event
build_summary-push_event type source ids summary details s =
    let e = new_event type source ids summary details s in
    let count : length (s.events ++ e ∷ []) ≡ length s.events + 1 =
      rw (length-append s.events (e ∷ [])) refl in
    (count, rw count (ground arith), last_event_type-append s.events e)
