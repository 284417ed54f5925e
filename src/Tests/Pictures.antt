-- ===== src/Tests/Pictures.antt =====
-- The snapshot that a viewer receives, and the JSON frames, on concrete data.
use inerceptor_command_sim.Base.{◌≡◌, refl, true, [], ◌∷◌, arith}
use inerceptor_command_sim.Base.Decimal.{nat_to_string, int_to_string}
use inerceptor_command_sim.Base.Int.{ℤ, pos}
use inerceptor_command_sim.Base.Result.{ok}
use inerceptor_command_sim.Base.Text.{bytes, text_eq}
use inerceptor_command_sim.Protocol.Frame.Json.{encode_json_frame, decode_json_frame}
use inerceptor_command_sim.Protocol.Frame.Json.RoundTrip.{decode_json_frame-encode}
use inerceptor_command_sim.Protocol.Numbers.RoundTrip.{parse_i64-int_to_string}
use inerceptor_command_sim.Protocol.Payloads.Envelope.{is_valid_assessment_code}
use inerceptor_command_sim.Protocol.Payloads.Fieldwise.{is_clean}
use inerceptor_command_sim.Protocol.Payloads.Pictures.{
  SnapshotPayload, serialize_snapshot, parse_snapshot, is_valid_session_phase,
  is_valid_interceptor_status, is_valid_engage_order_status,
}
use inerceptor_command_sim.Protocol.Payloads.Pictures.RoundTrip.{
  IsPrinted, parse-serialize_snapshot,
}
use inerceptor_command_sim.Tests.Protocol.{envelope, envelope-IsEnvelope, clean}
use inerceptor_command_sim.Tests.Sample.{whole_numbers}

decode_json_frame-encode_example :
    decode_json_frame (encode_json_frame (107 ∷ 34 ∷ []) (10 ∷ 92 ∷ []))
    ≡ ok (record { kind = 107 ∷ 34 ∷ []; payload = 10 ∷ 92 ∷ [] })
decode_json_frame-encode_example = decode_json_frame-encode (107 ∷ 34 ∷ []) (10 ∷ 92 ∷ [])

abbrev picture : SnapshotPayload ℤ
picture = record {
  envelope = envelope;
  header = record {
    tick = 6;
    timestamp_ms = 900;
    snapshot_sequence = 6;
    capture_wall_time_ms = 1000;
  };
  phase = bytes "tracking";
  world_width = pos 7;
  world_height = pos 7;
  target_id = 116 ∷ [];
  target_active = true;
  target_x = pos 7;
  target_y = pos 7;
  target_world_x = pos 0;
  target_world_y = pos 0;
  target_velocity_x = pos 7;
  target_velocity_y = pos 7;
  target_velocity_world_x = pos 0;
  target_velocity_world_y = pos 0;
  target_heading_deg = pos 0;
  interceptor_id = 116 ∷ [];
  interceptor_active = true;
  interceptor_x = pos 7;
  interceptor_y = pos 7;
  interceptor_world_x = pos 0;
  interceptor_world_y = pos 0;
  interceptor_velocity_world_x = pos 0;
  interceptor_velocity_world_y = pos 0;
  interceptor_heading_deg = pos 0;
  interceptor_speed_per_tick = pos 7;
  interceptor_acceleration_per_tick = pos 0;
  intercept_radius = pos 7;
  engagement_timeout_ticks = pos 7;
  seeker_fov_deg = pos 0;
  seeker_lock = true;
  off_boresight_deg = pos 0;
  predicted_intercept_valid = true;
  predicted_intercept_x = pos 0;
  predicted_intercept_y = pos 0;
  time_to_intercept_s = pos 0;
  track_active = true;
  track_estimated_x = pos 0;
  track_estimated_y = pos 0;
  track_estimated_vx = pos 0;
  track_estimated_vy = pos 0;
  track_measurement_valid = true;
  track_measurement_x = pos 0;
  track_measurement_y = pos 0;
  track_measurement_residual_distance = pos 0;
  track_covariance_trace = pos 0;
  track_measurement_age_ticks = pos 7;
  track_missed_updates = pos 7;
  interceptor_status = bytes "ready";
  engage_order_status = bytes "none";
  assessment_ready = true;
  assessment_code = bytes "pending";
  launch_angle_deg = pos 0;
}

zero-IsPrinted : IsPrinted whole_numbers (pos 0)
unfolding nat_to_string int_to_string
zero-IsPrinted = record {
  text = (omega arith, tt);
  back = parse_i64-int_to_string (pos 0) (omega arith);
}

parse-serialize_snapshot_example :
    parse_snapshot whole_numbers (serialize_snapshot whole_numbers picture) ≡ ok picture
unfolding bytes is_clean is_valid_session_phase is_valid_interceptor_status
    is_valid_engage_order_status is_valid_assessment_code text_eq
parse-serialize_snapshot_example = parse-serialize_snapshot whole_numbers picture (
  envelope-IsEnvelope,
  omega arith,
  omega arith,
  omega arith,
  omega arith,
  clean (bytes "tracking") refl,
  refl,
  omega arith,
  omega arith,
  (omega arith, tt),
  omega arith,
  omega arith,
  zero-IsPrinted,
  zero-IsPrinted,
  omega arith,
  omega arith,
  zero-IsPrinted,
  zero-IsPrinted,
  zero-IsPrinted,
  (omega arith, tt),
  omega arith,
  omega arith,
  zero-IsPrinted,
  zero-IsPrinted,
  zero-IsPrinted,
  zero-IsPrinted,
  zero-IsPrinted,
  omega arith,
  zero-IsPrinted,
  omega arith,
  omega arith,
  zero-IsPrinted,
  zero-IsPrinted,
  zero-IsPrinted,
  zero-IsPrinted,
  zero-IsPrinted,
  zero-IsPrinted,
  zero-IsPrinted,
  zero-IsPrinted,
  zero-IsPrinted,
  zero-IsPrinted,
  zero-IsPrinted,
  zero-IsPrinted,
  zero-IsPrinted,
  omega arith,
  omega arith,
  clean (bytes "ready") refl,
  refl,
  clean (bytes "none") refl,
  refl,
  clean (bytes "pending") refl,
  refl,
  zero-IsPrinted,
)
