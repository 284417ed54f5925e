-- ===== src/Protocol/Payloads/Pictures.antt =====
-- The payloads of a snapshot and of its telemetry, which carry floats as texts.
pub mod RoundTrip
use inerceptor_command_sim.Base.{ℕ, Bool, ◌||◌, List, [], ◌∷◌, none, some}
use inerceptor_command_sim.Base.Decimal.{nat_to_string, int_to_string}
use inerceptor_command_sim.Base.Int.{ℤ}
use inerceptor_command_sim.Base.Result.{Result, ok, ◌>>=◌}
use inerceptor_command_sim.Base.Text.{Text, bytes, text_eq}
use inerceptor_command_sim.Floats.{FloatOps}
use inerceptor_command_sim.Protocol.Messages.{SessionEnvelope, SnapshotHeader, TelemetrySample}
use inerceptor_command_sim.Protocol.Fields.{
  FieldMap, parse_fields, join_fields, find, require, require_or,
}
use inerceptor_command_sim.Protocol.Numbers.{
  bool_to_string, parse_bool, parse_u32, parse_i64, to_int,
}
use inerceptor_command_sim.Protocol.Payloads.Envelope.{
  require_u64, require_text, require_bool, require_int_or, require_enum_string,
  is_valid_assessment_code, require_kind, parse_envelope, pair, with_envelope,
}

-- `static_cast<int>(parse_i64(require(fields, key)))`.
abbrev pub require_int : FieldMap → Text → Result ℤ
require_int fields key = do text ← require fields key; z ← parse_i64 text; ok (to_int z)

unfoldable pub is_valid_interceptor_status : Text → Bool
is_valid_interceptor_status value =
    text_eq value (bytes "idle")
    || (text_eq value (bytes "ready")
        || (text_eq value (bytes "intercepting") || (text_eq value (bytes "complete"))))

unfoldable pub is_valid_session_phase : Text → Bool
is_valid_session_phase value =
    text_eq value (bytes "standby")
    || (text_eq value (bytes "detecting")
        || (text_eq value (bytes "tracking")
            || (text_eq value (bytes "interceptor_ready")
                || (text_eq value (bytes "engage_ordered")
                    || (text_eq value (bytes "intercepting")
                        || (text_eq value (bytes "assessed")
                            || (text_eq value (bytes "archived"))))))))

unfoldable pub is_valid_engage_order_status : Text → Bool
is_valid_engage_order_status value =
    text_eq value (bytes "none")
    || (text_eq value (bytes "accepted")
        || (text_eq value (bytes "executing")
            || (text_eq value (bytes "completed") || (text_eq value (bytes "rejected")))))

unfoldable pub parse_snapshot_header : FieldMap → Result SnapshotHeader
parse_snapshot_header fields = do
  tick ← require_u64 fields "tick"
  timestamp_ms ← require_u64 fields "timestamp_ms"
  snapshot_sequence ← require_u64 fields "snapshot_sequence"
  capture_wall_time_ms ← require_u64 fields "capture_wall_time_ms"
  ok (record {
    tick = tick;
    timestamp_ms = timestamp_ms;
    snapshot_sequence = snapshot_sequence;
    capture_wall_time_ms = capture_wall_time_ms;
  })

pub record SnapshotPayload (A : Type 0) : Type 0 where
  pub envelope : SessionEnvelope
  pub header : SnapshotHeader
  pub phase : Text
  pub world_width : ℤ
  pub world_height : ℤ
  pub target_id : Text
  pub target_active : Bool
  pub target_x : ℤ
  pub target_y : ℤ
  pub target_world_x : A
  pub target_world_y : A
  pub target_velocity_x : ℤ
  pub target_velocity_y : ℤ
  pub target_velocity_world_x : A
  pub target_velocity_world_y : A
  pub target_heading_deg : A
  pub interceptor_id : Text
  pub interceptor_active : Bool
  pub interceptor_x : ℤ
  pub interceptor_y : ℤ
  pub interceptor_world_x : A
  pub interceptor_world_y : A
  pub interceptor_velocity_world_x : A
  pub interceptor_velocity_world_y : A
  pub interceptor_heading_deg : A
  pub interceptor_speed_per_tick : ℤ
  pub interceptor_acceleration_per_tick : A
  pub intercept_radius : ℤ
  pub engagement_timeout_ticks : ℤ
  pub seeker_fov_deg : A
  pub seeker_lock : Bool
  pub off_boresight_deg : A
  pub predicted_intercept_valid : Bool
  pub predicted_intercept_x : A
  pub predicted_intercept_y : A
  pub time_to_intercept_s : A
  pub track_active : Bool
  pub track_estimated_x : A
  pub track_estimated_y : A
  pub track_estimated_vx : A
  pub track_estimated_vy : A
  pub track_measurement_valid : Bool
  pub track_measurement_x : A
  pub track_measurement_y : A
  pub track_measurement_residual_distance : A
  pub track_covariance_trace : A
  pub track_measurement_age_ticks : ℤ
  pub track_missed_updates : ℤ
  pub interceptor_status : Text
  pub engage_order_status : Text
  pub assessment_ready : Bool
  pub assessment_code : Text
  pub launch_angle_deg : A

pub record TelemetryPayload (A : Type 0) : Type 0 where
  pub envelope : SessionEnvelope
  pub sample : TelemetrySample A
  pub connection_state : Text
  pub event_tick : ℕ
  pub event_type : Text
  pub event_summary : Text

-- tick_interval_ms, or under its old name latency_ms.
unfoldable pub tick_interval_text : FieldMap → Result Text
unfolding find
tick_interval_text fields = elim (find fields (bytes "tick_interval_ms")) [
  | some text ↦ ok text
  | none ↦ require fields (bytes "latency_ms")
]

module _ {A : Type 0} (F : FloatOps A) where
  abbrev pub snapshot_fields : SnapshotPayload A → List (Text × Text)
  snapshot_fields p =
      pair "tick" (nat_to_string p.header.tick)
      ∷ pair "timestamp_ms" (nat_to_string p.header.timestamp_ms)
      ∷ pair "snapshot_sequence" (nat_to_string p.header.snapshot_sequence)
      ∷ pair "capture_wall_time_ms" (nat_to_string p.header.capture_wall_time_ms)
      ∷ pair "phase" p.phase
      ∷ pair "world_width" (int_to_string p.world_width)
      ∷ pair "world_height" (int_to_string p.world_height)
      ∷ pair "target_id" p.target_id
      ∷ pair "target_active" (bool_to_string p.target_active)
      ∷ pair "target_x" (int_to_string p.target_x)
      ∷ pair "target_y" (int_to_string p.target_y)
      ∷ pair "target_world_x" (F.to_string p.target_world_x)
      ∷ pair "target_world_y" (F.to_string p.target_world_y)
      ∷ pair "target_velocity_x" (int_to_string p.target_velocity_x)
      ∷ pair "target_velocity_y" (int_to_string p.target_velocity_y)
      ∷ pair "target_velocity_world_x" (F.to_string p.target_velocity_world_x)
      ∷ pair "target_velocity_world_y" (F.to_string p.target_velocity_world_y)
      ∷ pair "target_heading_deg" (F.to_string p.target_heading_deg)
      ∷ pair "interceptor_id" p.interceptor_id
      ∷ pair "interceptor_active" (bool_to_string p.interceptor_active)
      ∷ pair "interceptor_x" (int_to_string p.interceptor_x)
      ∷ pair "interceptor_y" (int_to_string p.interceptor_y)
      ∷ pair "interceptor_world_x" (F.to_string p.interceptor_world_x)
      ∷ pair "interceptor_world_y" (F.to_string p.interceptor_world_y)
      ∷ pair "interceptor_velocity_world_x" (F.to_string p.interceptor_velocity_world_x)
      ∷ pair "interceptor_velocity_world_y" (F.to_string p.interceptor_velocity_world_y)
      ∷ pair "interceptor_heading_deg" (F.to_string p.interceptor_heading_deg)
      ∷ pair "interceptor_speed_per_tick" (int_to_string p.interceptor_speed_per_tick)
      ∷ pair "interceptor_acceleration_per_tick" (F.to_string p.interceptor_acceleration_per_tick)
      ∷ pair "intercept_radius" (int_to_string p.intercept_radius)
      ∷ pair "engagement_timeout_ticks" (int_to_string p.engagement_timeout_ticks)
      ∷ pair "seeker_fov_deg" (F.to_string p.seeker_fov_deg)
      ∷ pair "seeker_lock" (bool_to_string p.seeker_lock)
      ∷ pair "off_boresight_deg" (F.to_string p.off_boresight_deg)
      ∷ pair "predicted_intercept_valid" (bool_to_string p.predicted_intercept_valid)
      ∷ pair "predicted_intercept_x" (F.to_string p.predicted_intercept_x)
      ∷ pair "predicted_intercept_y" (F.to_string p.predicted_intercept_y)
      ∷ pair "time_to_intercept_s" (F.to_string p.time_to_intercept_s)
      ∷ pair "track_active" (bool_to_string p.track_active)
      ∷ pair "track_estimated_x" (F.to_string p.track_estimated_x)
      ∷ pair "track_estimated_y" (F.to_string p.track_estimated_y)
      ∷ pair "track_estimated_vx" (F.to_string p.track_estimated_vx)
      ∷ pair "track_estimated_vy" (F.to_string p.track_estimated_vy)
      ∷ pair "track_measurement_valid" (bool_to_string p.track_measurement_valid)
      ∷ pair "track_measurement_x" (F.to_string p.track_measurement_x)
      ∷ pair "track_measurement_y" (F.to_string p.track_measurement_y)
      ∷ pair "track_measurement_residual_distance"
          (F.to_string p.track_measurement_residual_distance)
      ∷ pair "track_covariance_trace" (F.to_string p.track_covariance_trace)
      ∷ pair "track_measurement_age_ticks" (int_to_string p.track_measurement_age_ticks)
      ∷ pair "track_missed_updates" (int_to_string p.track_missed_updates)
      ∷ pair "interceptor_status" p.interceptor_status
      ∷ pair "engage_order_status" p.engage_order_status
      ∷ pair "assessment_ready" (bool_to_string p.assessment_ready)
      ∷ pair "assessment_code" p.assessment_code
      ∷ pair "launch_angle_deg" (F.to_string p.launch_angle_deg)
      ∷ []

  unfoldable pub serialize_snapshot : SnapshotPayload A → Text
  serialize_snapshot p = join_fields (with_envelope "world_snapshot" p.envelope (snapshot_fields p))

  unfoldable pub parse_snapshot : Text → Result (SnapshotPayload A)
  parse_snapshot wire = do
    fields ← parse_fields wire
    require_kind fields "world_snapshot" (do
      envelope ← parse_envelope fields
      header ← parse_snapshot_header fields
      phase ← require_enum_string fields "phase" is_valid_session_phase
      world_width ← require_int_or fields "world_width" "2304"
      world_height ← require_int_or fields "world_height" "1536"
      target_id ← require_text fields "target_id"
      target_active ← require_bool fields "target_active"
      target_x ← require_int fields (bytes "target_x")
      target_y ← require_int fields (bytes "target_y")
      target_world_x ← F.stof (require_or fields (bytes "target_world_x") (bytes "0"))
      target_world_y ← F.stof (require_or fields (bytes "target_world_y") (bytes "0"))
      target_velocity_x ← require_int_or fields "target_velocity_x" "0"
      target_velocity_y ← require_int_or fields "target_velocity_y" "0"
      target_velocity_world_x ←
          F.stof (require_or fields (bytes "target_velocity_world_x") (bytes "0"))
      target_velocity_world_y ←
          F.stof (require_or fields (bytes "target_velocity_world_y") (bytes "0"))
      target_heading_deg ← F.stof (require_or fields (bytes "target_heading_deg") (bytes "0"))
      interceptor_id ← require_text fields "interceptor_id"
      interceptor_active ← require_bool fields "interceptor_active"
      interceptor_x ← require_int fields (bytes "interceptor_x")
      interceptor_y ← require_int fields (bytes "interceptor_y")
      interceptor_world_x ← F.stof (require_or fields (bytes "interceptor_world_x") (bytes "0"))
      interceptor_world_y ← F.stof (require_or fields (bytes "interceptor_world_y") (bytes "0"))
      interceptor_velocity_world_x ←
          F.stof (require_or fields (bytes "interceptor_velocity_world_x") (bytes "0"))
      interceptor_velocity_world_y ←
          F.stof (require_or fields (bytes "interceptor_velocity_world_y") (bytes "0"))
      interceptor_heading_deg ←
          F.stof (require_or fields (bytes "interceptor_heading_deg") (bytes "0"))
      interceptor_speed_per_tick ← require_int_or fields "interceptor_speed_per_tick" "0"
      interceptor_acceleration_per_tick ←
          F.stof (require_or fields (bytes "interceptor_acceleration_per_tick") (bytes "0"))
      intercept_radius ← require_int_or fields "intercept_radius" "0"
      engagement_timeout_ticks ← require_int_or fields "engagement_timeout_ticks" "0"
      seeker_fov_deg ← F.stof (require_or fields (bytes "seeker_fov_deg") (bytes "0"))
      seeker_lock ← parse_bool (require_or fields (bytes "seeker_lock") (bytes "false"))
      off_boresight_deg ← F.stof (require_or fields (bytes "off_boresight_deg") (bytes "0"))
      predicted_intercept_valid ←
          parse_bool (require_or fields (bytes "predicted_intercept_valid") (bytes "false"))
      predicted_intercept_x ← F.stof (require_or fields (bytes "predicted_intercept_x") (bytes "0"))
      predicted_intercept_y ← F.stof (require_or fields (bytes "predicted_intercept_y") (bytes "0"))
      time_to_intercept_s ← F.stof (require_or fields (bytes "time_to_intercept_s") (bytes "0"))
      track_active ← require_bool fields "track_active"
      track_estimated_x ← F.stof (require_or fields (bytes "track_estimated_x") (bytes "0"))
      track_estimated_y ← F.stof (require_or fields (bytes "track_estimated_y") (bytes "0"))
      track_estimated_vx ← F.stof (require_or fields (bytes "track_estimated_vx") (bytes "0"))
      track_estimated_vy ← F.stof (require_or fields (bytes "track_estimated_vy") (bytes "0"))
      track_measurement_valid ←
          parse_bool (require_or fields (bytes "track_measurement_valid") (bytes "false"))
      track_measurement_x ← F.stof (require_or fields (bytes "track_measurement_x") (bytes "0"))
      track_measurement_y ← F.stof (require_or fields (bytes "track_measurement_y") (bytes "0"))
      track_measurement_residual_distance ←
          F.stof (require_or fields (bytes "track_measurement_residual_distance") (bytes "0"))
      track_covariance_trace ←
          F.stof (require_or fields (bytes "track_covariance_trace") (bytes "0"))
      track_measurement_age_ticks ← require_int_or fields "track_measurement_age_ticks" "0"
      track_missed_updates ← require_int_or fields "track_missed_updates" "0"
      interceptor_status ←
          require_enum_string fields "interceptor_status" is_valid_interceptor_status
      engage_order_status ←
          require_enum_string fields "engage_order_status" is_valid_engage_order_status
      assessment_ready ← require_bool fields "assessment_ready"
      assessment_code ← require_enum_string fields "assessment_code" is_valid_assessment_code
      launch_angle_deg ← F.stof (require_or fields (bytes "launch_angle_deg") (bytes "45"))
      ok (record {
        envelope = envelope;
        header = header;
        phase = phase;
        world_width = world_width;
        world_height = world_height;
        target_id = target_id;
        target_active = target_active;
        target_x = target_x;
        target_y = target_y;
        target_world_x = target_world_x;
        target_world_y = target_world_y;
        target_velocity_x = target_velocity_x;
        target_velocity_y = target_velocity_y;
        target_velocity_world_x = target_velocity_world_x;
        target_velocity_world_y = target_velocity_world_y;
        target_heading_deg = target_heading_deg;
        interceptor_id = interceptor_id;
        interceptor_active = interceptor_active;
        interceptor_x = interceptor_x;
        interceptor_y = interceptor_y;
        interceptor_world_x = interceptor_world_x;
        interceptor_world_y = interceptor_world_y;
        interceptor_velocity_world_x = interceptor_velocity_world_x;
        interceptor_velocity_world_y = interceptor_velocity_world_y;
        interceptor_heading_deg = interceptor_heading_deg;
        interceptor_speed_per_tick = interceptor_speed_per_tick;
        interceptor_acceleration_per_tick = interceptor_acceleration_per_tick;
        intercept_radius = intercept_radius;
        engagement_timeout_ticks = engagement_timeout_ticks;
        seeker_fov_deg = seeker_fov_deg;
        seeker_lock = seeker_lock;
        off_boresight_deg = off_boresight_deg;
        predicted_intercept_valid = predicted_intercept_valid;
        predicted_intercept_x = predicted_intercept_x;
        predicted_intercept_y = predicted_intercept_y;
        time_to_intercept_s = time_to_intercept_s;
        track_active = track_active;
        track_estimated_x = track_estimated_x;
        track_estimated_y = track_estimated_y;
        track_estimated_vx = track_estimated_vx;
        track_estimated_vy = track_estimated_vy;
        track_measurement_valid = track_measurement_valid;
        track_measurement_x = track_measurement_x;
        track_measurement_y = track_measurement_y;
        track_measurement_residual_distance = track_measurement_residual_distance;
        track_covariance_trace = track_covariance_trace;
        track_measurement_age_ticks = track_measurement_age_ticks;
        track_missed_updates = track_missed_updates;
        interceptor_status = interceptor_status;
        engage_order_status = engage_order_status;
        assessment_ready = assessment_ready;
        assessment_code = assessment_code;
        launch_angle_deg = launch_angle_deg;
      }))

  unfoldable pub parse_telemetry_sample : FieldMap → Result (TelemetrySample A)
  parse_telemetry_sample fields = do
    interval ← tick_interval_text fields
    tick ← require_u64 fields "tick"
    tick_interval_ms ← parse_u32 interval
    packet_loss_text ← require_text fields "packet_loss_pct"
    packet_loss_pct ← F.stof packet_loss_text
    last_snapshot_timestamp_ms ← require_u64 fields "last_snapshot_timestamp_ms"
    last_snapshot_wall_time_ms ← require_u64 fields "last_snapshot_wall_time_ms"
    ok (record {
      tick = tick;
      tick_interval_ms = tick_interval_ms;
      packet_loss_pct = packet_loss_pct;
      last_snapshot_timestamp_ms = last_snapshot_timestamp_ms;
      last_snapshot_wall_time_ms = last_snapshot_wall_time_ms;
    })

  abbrev pub telemetry_fields : TelemetryPayload A → List (Text × Text)
  telemetry_fields p =
      pair "tick" (nat_to_string p.sample.tick)
      ∷ pair "tick_interval_ms" (nat_to_string p.sample.tick_interval_ms)
      ∷ pair "packet_loss_pct" (F.to_string p.sample.packet_loss_pct)
      ∷ pair "last_snapshot_timestamp_ms" (nat_to_string p.sample.last_snapshot_timestamp_ms)
      ∷ pair "last_snapshot_wall_time_ms" (nat_to_string p.sample.last_snapshot_wall_time_ms)
      ∷ pair "connection_state" p.connection_state
      ∷ pair "event_tick" (nat_to_string p.event_tick)
      ∷ pair "event_type" p.event_type
      ∷ pair "event_summary" p.event_summary
      ∷ []

  unfoldable pub serialize_telemetry : TelemetryPayload A → Text
  serialize_telemetry p = join_fields (with_envelope "telemetry" p.envelope (telemetry_fields p))

  unfoldable pub parse_telemetry : Text → Result (TelemetryPayload A)
  parse_telemetry wire = do
    fields ← parse_fields wire
    require_kind fields "telemetry" (do
      envelope ← parse_envelope fields
      sample ← parse_telemetry_sample fields
      connection_state ← require_text fields "connection_state"
      event_tick ← require_u64 fields "event_tick"
      event_type ← require_text fields "event_type"
      event_summary ← require_text fields "event_summary"
      ok (record {
        envelope = envelope;
        sample = sample;
        connection_state = connection_state;
        event_tick = event_tick;
        event_type = event_type;
        event_summary = event_summary;
      }))
