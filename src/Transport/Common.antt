-- ===== src/Transport/Common.antt =====
-- common/src/transport_common.cpp: the events that a client is shown.
use inerceptor_command_sim.Base.{
  ℕ, ◌-◌, ◌≤◌, ◌<◌, ◌≡◌, refl, inl, inr, List, [], ◌∷◌, ◌++◌, Option, none, some, arith, ltb, leb,
  if◌then◌else◌, length, drop, All, Bool-cases,
}
use inerceptor_command_sim.Base.Text.{bytes}
use inerceptor_command_sim.Protocol.Messages.{event_type_to_string}
use inerceptor_command_sim.Core.Types.{
  EventRecord, Snapshot, connection_state_to_string, session_phase_to_string,
  interceptor_status_to_string, engage_order_status_to_string, assessment_code_to_string,
}
use inerceptor_command_sim.Base.Int.{pos}
use inerceptor_command_sim.Protocol.Numbers.{to_int}
use inerceptor_command_sim.Protocol.Payloads.Pictures.{SnapshotPayload, TelemetryPayload}
use inerceptor_command_sim.Session.State.{Session}

unfoldable pub recent_events : {A : Type 0} → Session A → List EventRecord
recent_events s = drop (if ltb 4 (length s.events) then length s.events - 4 else 0) s.events

-- The search from the newest event backwards: the newest match of the rest comes first.
unfoldable pub latest_event_at_or_before_tick : List EventRecord → ℕ → Option EventRecord
latest_event_at_or_before_tick [] tick = none
latest_event_at_or_before_tick (event ∷ newer) tick =
    elim (latest_event_at_or_before_tick newer tick) [
      | some found ↦ some found
      | none ↦ if leb event.header.tick tick then some event else none
    ]

module _ {A : Type 0} where
  unfoldable pub to_snapshot_payload : Snapshot A → SnapshotPayload A
  to_snapshot_payload snapshot = record {
    envelope = snapshot.envelope;
    header = snapshot.header;
    phase = session_phase_to_string snapshot.phase;
    world_width = snapshot.world_width;
    world_height = snapshot.world_height;
    target_id = snapshot.target.id;
    target_active = snapshot.target.active;
    target_x = snapshot.target.position.x;
    target_y = snapshot.target.position.y;
    target_world_x = snapshot.target_world_position.x;
    target_world_y = snapshot.target_world_position.y;
    target_velocity_x = snapshot.target_velocity_x;
    target_velocity_y = snapshot.target_velocity_y;
    target_velocity_world_x = snapshot.target_velocity.x;
    target_velocity_world_y = snapshot.target_velocity.y;
    target_heading_deg = snapshot.target_heading_deg;
    interceptor_id = snapshot.interceptor.id;
    interceptor_active = snapshot.interceptor.active;
    interceptor_x = snapshot.interceptor.position.x;
    interceptor_y = snapshot.interceptor.position.y;
    interceptor_world_x = snapshot.interceptor_world_position.x;
    interceptor_world_y = snapshot.interceptor_world_position.y;
    interceptor_velocity_world_x = snapshot.interceptor_velocity.x;
    interceptor_velocity_world_y = snapshot.interceptor_velocity.y;
    interceptor_heading_deg = snapshot.interceptor_heading_deg;
    interceptor_speed_per_tick = snapshot.interceptor_speed_per_tick;
    interceptor_acceleration_per_tick = snapshot.interceptor_acceleration_per_tick;
    intercept_radius = snapshot.intercept_radius;
    engagement_timeout_ticks = snapshot.engagement_timeout_ticks;
    seeker_fov_deg = snapshot.seeker_fov_deg;
    seeker_lock = snapshot.seeker_lock;
    off_boresight_deg = snapshot.off_boresight_deg;
    predicted_intercept_valid = snapshot.predicted_intercept_valid;
    predicted_intercept_x = snapshot.predicted_intercept_position.x;
    predicted_intercept_y = snapshot.predicted_intercept_position.y;
    time_to_intercept_s = snapshot.time_to_intercept_s;
    track_active = snapshot.track.active;
    track_estimated_x = snapshot.track.estimated_position.x;
    track_estimated_y = snapshot.track.estimated_position.y;
    track_estimated_vx = snapshot.track.estimated_velocity.x;
    track_estimated_vy = snapshot.track.estimated_velocity.y;
    track_measurement_valid = snapshot.track.measurement_valid;
    track_measurement_x = snapshot.track.measurement_position.x;
    track_measurement_y = snapshot.track.measurement_position.y;
    track_measurement_residual_distance = snapshot.track.measurement_residual_distance;
    track_covariance_trace = snapshot.track.covariance_trace;
    track_measurement_age_ticks = to_int (pos snapshot.track.measurement_age_ticks);
    track_missed_updates = to_int (pos snapshot.track.missed_updates);
    interceptor_status = interceptor_status_to_string snapshot.interceptor_status;
    engage_order_status = engage_order_status_to_string snapshot.engage_order_status;
    assessment_ready = snapshot.assessment.is_ready;
    assessment_code = assessment_code_to_string snapshot.assessment.code;
    launch_angle_deg = snapshot.launch_angle_deg;
  }

  -- The telemetry of a snapshot with the event that was found.
  unfoldable pub telemetry_with : Snapshot A → Option EventRecord → TelemetryPayload A
  telemetry_with snapshot (some event) = record {
    envelope = snapshot.envelope;
    sample = snapshot.telemetry;
    connection_state = connection_state_to_string snapshot.display_connection;
    event_tick = event.header.tick;
    event_type = event_type_to_string event.header.event_type;
    event_summary = event.summary;
  }
  telemetry_with snapshot none = record {
    envelope = snapshot.envelope;
    sample = snapshot.telemetry;
    connection_state = connection_state_to_string snapshot.display_connection;
    event_tick = 0;
    event_type = bytes "none";
    event_summary = bytes "no server event";
  }

  unfoldable pub to_telemetry_payload : Snapshot A → List EventRecord → TelemetryPayload A
  to_telemetry_payload snapshot events =
      telemetry_with snapshot (latest_event_at_or_before_tick events snapshot.header.tick)

-- The result of the search: the newest event that is not after the tick, or none if all are.
abbrev pub IsNewest : List EventRecord → ℕ → Option EventRecord → Type 0
IsNewest events tick none = All (λ e. tick < e.header.tick) events
IsNewest events tick (some e) =
    (older : List EventRecord) × (newer : List EventRecord) × (events ≡ older ++ e ∷ newer)
    × (e.header.tick ≤ tick)
    × All (λ e. tick < e.header.tick) newer

-- The event that the search finds is in the log, is not after the tick, and all newer events are
-- after it; if it finds none, every event of the log is after the tick.
pub latest_event-IsNewest :
    (events : List EventRecord) (tick : ℕ)
    → IsNewest events tick (latest_event_at_or_before_tick events tick)
unfolding latest_event_at_or_before_tick
latest_event-IsNewest [] tick = tt
latest_event-IsNewest (e ∷ newer) tick =
    go (latest_event_at_or_before_tick newer tick) (latest_event-IsNewest newer tick)
  where
    go :
        (found : Option EventRecord)
        → IsNewest newer tick found
        → IsNewest (e ∷ newer) tick (elim found [
          | some x ↦ some x
          | none ↦ if leb e.header.tick tick then some e else none
        ])
    go (some x) (older, rest, eq, h, k) = (e ∷ older, rest, rw eq refl, h, k)
    go none h = elim (Bool-cases (leb e.header.tick tick)) [
      | inl t ↦ rw t ([], newer, refl, ground arith, h)
      | inr t ↦ rw t (ground arith, h)
    ]

telemetry_with-event_tick :
    {A : Type 0} (snapshot : Snapshot A) (events : List EventRecord) (found : Option EventRecord)
    → IsNewest events snapshot.header.tick found
    → (telemetry_with snapshot found).event_tick ≤ snapshot.header.tick
unfolding telemetry_with
telemetry_with-event_tick snapshot events (some e) h = h.3
telemetry_with-event_tick snapshot events none h = omega arith

-- The telemetry of a snapshot never tells of an event later than the snapshot's tick.
pub to_telemetry_payload-event_tick :
    {A : Type 0} (snapshot : Snapshot A) (events : List EventRecord)
    → (to_telemetry_payload snapshot events).event_tick ≤ snapshot.header.tick
unfolding to_telemetry_payload
to_telemetry_payload-event_tick snapshot events =
    telemetry_with-event_tick snapshot events _ (latest_event-IsNewest events snapshot.header.tick)
