-- ===== src/Protocol/Payloads/Pictures/RoundTrip.antt =====
-- The payloads of a snapshot and of its telemetry come back from their wire text.
use inerceptor_command_sim.Base.{◌<◌, ◌≡◌, refl, true, All}
use inerceptor_command_sim.Base.Result.{ok}
use inerceptor_command_sim.Base.Text.{bytes, text_eq}
use inerceptor_command_sim.Base.Word.{u32_mod, u64_mod}
use inerceptor_command_sim.Floats.{FloatOps}
use inerceptor_command_sim.Protocol.Fields.{require, require_or, find}
use inerceptor_command_sim.Protocol.Fields.Percent.{IsByte}
use inerceptor_command_sim.Protocol.Fields.Wire.{IsField, parse_fields-join_fields}
use inerceptor_command_sim.Protocol.Numbers.RoundTrip.{
  IsInt, parse_u32-nat_to_string, parse_u64-nat_to_string, parse_bool-bool_to_string,
  parse_i64-int_to_string, to_int-IsInt,
}
use inerceptor_command_sim.Protocol.Payloads.Envelope.{is_valid_assessment_code, require_kind}
use inerceptor_command_sim.Protocol.Payloads.Fieldwise.{
  IsEnvelope, is_clean, text-IsField, number-IsField, bool-IsField, int-IsField, envelope_fields,
  parse_envelope-with_envelope,
}
use inerceptor_command_sim.Protocol.Payloads.Pictures.{
  is_valid_interceptor_status, is_valid_session_phase, is_valid_engage_order_status,
  parse_snapshot_header, SnapshotPayload, snapshot_fields, serialize_snapshot, parse_snapshot,
  tick_interval_text, TelemetryPayload, parse_telemetry_sample, telemetry_fields,
  serialize_telemetry, parse_telemetry,
}

-- The float's text is made of bytes, and is read back as the float: std::to_string prints six digits
-- behind the point, so that this holds of the floats that have no more.
pub record IsPrinted {A : Type 0} (F : FloatOps A) (x : A) : Type 0 where
  pub text : All IsByte (F.to_string x)
  pub back : F.stof (F.to_string x) ≡ ok x

module _ {A : Type 0} (F : FloatOps A) where
  abbrev pub IsTelemetry : TelemetryPayload A → Type 0
  IsTelemetry p =
      IsEnvelope p.envelope
      × (p.sample.tick < u64_mod)
      × (p.sample.tick_interval_ms < u32_mod)
      × IsPrinted F p.sample.packet_loss_pct
      × (p.sample.last_snapshot_timestamp_ms < u64_mod)
      × (p.sample.last_snapshot_wall_time_ms < u64_mod)
      × All IsByte p.connection_state
      × (p.event_tick < u64_mod)
      × All IsByte p.event_type
      × All IsByte p.event_summary

  telemetry_fields-IsField :
      (p : TelemetryPayload A) → IsTelemetry p → All IsField (telemetry_fields F p)
  unfolding is_clean bytes
  telemetry_fields-IsField p h = (
    number-IsField (bytes "tick") p.sample.tick refl,
    (
      number-IsField (bytes "tick_interval_ms") p.sample.tick_interval_ms refl,
      (
        text-IsField (bytes "packet_loss_pct") (F.to_string p.sample.packet_loss_pct) refl h.3.text,
        (
          number-IsField (bytes "last_snapshot_timestamp_ms") p.sample.last_snapshot_timestamp_ms
              refl,
          (
            number-IsField (bytes "last_snapshot_wall_time_ms") p.sample.last_snapshot_wall_time_ms
                refl,
            (
              text-IsField (bytes "connection_state") p.connection_state refl h.6,
              (
                number-IsField (bytes "event_tick") p.event_tick refl,
                (
                  text-IsField (bytes "event_type") p.event_type refl h.8,
                  (text-IsField (bytes "event_summary") p.event_summary refl h.9, tt),
                ),
              ),
            ),
          ),
        ),
      ),
    ),
  )

  -- A telemetry payload is read back from its wire text, if its numbers fit the types of the source,
  -- its texts are made of bytes and its float is read back from its own text.
  pub parse-serialize_telemetry :
      (p : TelemetryPayload A) → IsTelemetry p → parse_telemetry F (serialize_telemetry F p) ≡ ok p
  unfolding parse_telemetry serialize_telemetry parse_telemetry_sample tick_interval_text
      require_kind require require_or find bytes text_eq is_clean
  parse-serialize_telemetry p h =
      rw
        (
          parse_fields-join_fields _ (
              envelope_fields "telemetry" p.envelope (telemetry_fields F p) refl
                (telemetry_fields-IsField p h)),
          parse_envelope-with_envelope "telemetry" p.envelope (telemetry_fields F p) h.0,
          parse_u64-nat_to_string p.sample.tick h.1,
          parse_u32-nat_to_string p.sample.tick_interval_ms h.2,
          h.3.back,
          parse_u64-nat_to_string p.sample.last_snapshot_timestamp_ms h.4,
          parse_u64-nat_to_string p.sample.last_snapshot_wall_time_ms h.5,
          parse_u64-nat_to_string p.event_tick h.7,
        )
        refl

  abbrev pub IsPicture : SnapshotPayload A → Type 0
  IsPicture p =
      IsEnvelope p.envelope
      × (p.header.tick < u64_mod)
      × (p.header.timestamp_ms < u64_mod)
      × (p.header.snapshot_sequence < u64_mod)
      × (p.header.capture_wall_time_ms < u64_mod)
      × All IsByte p.phase
      × (is_valid_session_phase p.phase ≡ true)
      × IsInt p.world_width
      × IsInt p.world_height
      × All IsByte p.target_id
      × IsInt p.target_x
      × IsInt p.target_y
      × IsPrinted F p.target_world_x
      × IsPrinted F p.target_world_y
      × IsInt p.target_velocity_x
      × IsInt p.target_velocity_y
      × IsPrinted F p.target_velocity_world_x
      × IsPrinted F p.target_velocity_world_y
      × IsPrinted F p.target_heading_deg
      × All IsByte p.interceptor_id
      × IsInt p.interceptor_x
      × IsInt p.interceptor_y
      × IsPrinted F p.interceptor_world_x
      × IsPrinted F p.interceptor_world_y
      × IsPrinted F p.interceptor_velocity_world_x
      × IsPrinted F p.interceptor_velocity_world_y
      × IsPrinted F p.interceptor_heading_deg
      × IsInt p.interceptor_speed_per_tick
      × IsPrinted F p.interceptor_acceleration_per_tick
      × IsInt p.intercept_radius
      × IsInt p.engagement_timeout_ticks
      × IsPrinted F p.seeker_fov_deg
      × IsPrinted F p.off_boresight_deg
      × IsPrinted F p.predicted_intercept_x
      × IsPrinted F p.predicted_intercept_y
      × IsPrinted F p.time_to_intercept_s
      × IsPrinted F p.track_estimated_x
      × IsPrinted F p.track_estimated_y
      × IsPrinted F p.track_estimated_vx
      × IsPrinted F p.track_estimated_vy
      × IsPrinted F p.track_measurement_x
      × IsPrinted F p.track_measurement_y
      × IsPrinted F p.track_measurement_residual_distance
      × IsPrinted F p.track_covariance_trace
      × IsInt p.track_measurement_age_ticks
      × IsInt p.track_missed_updates
      × All IsByte p.interceptor_status
      × (is_valid_interceptor_status p.interceptor_status ≡ true)
      × All IsByte p.engage_order_status
      × (is_valid_engage_order_status p.engage_order_status ≡ true)
      × All IsByte p.assessment_code
      × (is_valid_assessment_code p.assessment_code ≡ true)
      × IsPrinted F p.launch_angle_deg

  snapshot_fields-IsField :
      (p : SnapshotPayload A) → IsPicture p → All IsField (snapshot_fields F p)
  unfolding is_clean bytes
  snapshot_fields-IsField p h = (
    number-IsField (bytes "tick") p.header.tick refl,
    (
      number-IsField (bytes "timestamp_ms") p.header.timestamp_ms refl,
      (
        number-IsField (bytes "snapshot_sequence") p.header.snapshot_sequence refl,
        (
          number-IsField (bytes "capture_wall_time_ms") p.header.capture_wall_time_ms refl,
          (
            text-IsField (bytes "phase") p.phase refl h.5,
            (
              int-IsField (bytes "world_width") p.world_width refl,
              (
                int-IsField (bytes "world_height") p.world_height refl,
                (
                  text-IsField (bytes "target_id") p.target_id refl h.9,
                  (
                    bool-IsField (bytes "target_active") p.target_active refl,
                    (
                      int-IsField (bytes "target_x") p.target_x refl,
                      (
                        int-IsField (bytes "target_y") p.target_y refl,
                        (
                          text-IsField (bytes "target_world_x") (F.to_string p.target_world_x) refl
                              h.12.text,
                          (
                            text-IsField (bytes "target_world_y") (F.to_string p.target_world_y)
                                refl h.13.text,
                            (
                              int-IsField (bytes "target_velocity_x") p.target_velocity_x refl,
                              (
                                int-IsField (bytes "target_velocity_y") p.target_velocity_y refl,
                                (
                                  text-IsField (bytes "target_velocity_world_x")
                                      (F.to_string p.target_velocity_world_x) refl h.16.text,
                                  (
                                    text-IsField (bytes "target_velocity_world_y")
                                        (F.to_string p.target_velocity_world_y) refl h.17.text,
                                    (
                                      text-IsField (bytes "target_heading_deg")
                                          (F.to_string p.target_heading_deg) refl h.18.text,
                                      (
                                        text-IsField (bytes "interceptor_id") p.interceptor_id refl
                                            h.19,
                                        (
                                          bool-IsField (bytes "interceptor_active")
                                              p.interceptor_active refl,
                                          (
                                            int-IsField (bytes "interceptor_x") p.interceptor_x
                                                refl,
                                            (
                                              int-IsField (bytes "interceptor_y") p.interceptor_y
                                                  refl,
                                              (
                                                text-IsField (bytes "interceptor_world_x")
                                                    (F.to_string p.interceptor_world_x) refl
                                                    h.22.text,
                                                (
                                                  text-IsField (bytes "interceptor_world_y")
                                                      (F.to_string p.interceptor_world_y) refl
                                                      h.23.text,
                                                  (
                                                    text-IsField
                                                        (bytes "interceptor_velocity_world_x")
                                                        (F.to_string p.interceptor_velocity_world_x)
                                                        refl h.24.text,
                                                    (
                                                      text-IsField
                                                          (bytes "interceptor_velocity_world_y")
                                                          (F.to_string
                                                            p.interceptor_velocity_world_y)
                                                          refl h.25.text,
                                                      (
                                                        text-IsField
                                                            (bytes "interceptor_heading_deg")
                                                            (F.to_string p.interceptor_heading_deg)
                                                            refl h.26.text,
                                                        (
                                                          int-IsField
                                                            (bytes "interceptor_speed_per_tick")
                                                            p.interceptor_speed_per_tick refl,
                                                          (
                                                            text-IsField
                                                            (bytes
                                                            "interceptor_acceleration_per_tick")
                                                            (F.to_string
                                                            p.interceptor_acceleration_per_tick)
                                                            refl h.28.text,
                                                            (
                                                            int-IsField (bytes "intercept_radius")
                                                            p.intercept_radius refl,
                                                            (
                                                            int-IsField
                                                            (bytes "engagement_timeout_ticks")
                                                            p.engagement_timeout_ticks refl,
                                                            (
                                                            text-IsField (bytes "seeker_fov_deg")
                                                            (F.to_string p.seeker_fov_deg) refl
                                                            h.31.text,
                                                            (
                                                            bool-IsField (bytes "seeker_lock")
                                                            p.seeker_lock refl,
                                                            (
                                                            text-IsField (bytes "off_boresight_deg")
                                                            (F.to_string p.off_boresight_deg) refl
                                                            h.32.text,
                                                            (
                                                            bool-IsField
                                                            (bytes "predicted_intercept_valid")
                                                            p.predicted_intercept_valid refl,
                                                            (
                                                            text-IsField
                                                            (bytes "predicted_intercept_x")
                                                            (F.to_string p.predicted_intercept_x)
                                                            refl h.33.text,
                                                            (
                                                            text-IsField
                                                            (bytes "predicted_intercept_y")
                                                            (F.to_string p.predicted_intercept_y)
                                                            refl h.34.text,
                                                            (
                                                            text-IsField
                                                            (bytes "time_to_intercept_s")
                                                            (F.to_string p.time_to_intercept_s) refl
                                                            h.35.text,
                                                            (
                                                            bool-IsField (bytes "track_active")
                                                            p.track_active refl,
                                                            (
                                                            text-IsField (bytes "track_estimated_x")
                                                            (F.to_string p.track_estimated_x) refl
                                                            h.36.text,
                                                            (
                                                            text-IsField (bytes "track_estimated_y")
                                                            (F.to_string p.track_estimated_y) refl
                                                            h.37.text,
                                                            (
                                                            text-IsField
                                                            (bytes "track_estimated_vx")
                                                            (F.to_string p.track_estimated_vx) refl
                                                            h.38.text,
                                                            (
                                                            text-IsField
                                                            (bytes "track_estimated_vy")
                                                            (F.to_string p.track_estimated_vy) refl
                                                            h.39.text,
                                                            (
                                                            bool-IsField
                                                            (bytes "track_measurement_valid")
                                                            p.track_measurement_valid refl,
                                                            (
                                                            text-IsField
                                                            (bytes "track_measurement_x")
                                                            (F.to_string p.track_measurement_x) refl
                                                            h.40.text,
                                                            (
                                                            text-IsField
                                                            (bytes "track_measurement_y")
                                                            (F.to_string p.track_measurement_y) refl
                                                            h.41.text,
                                                            (
                                                            text-IsField
                                                            (bytes
                                                            "track_measurement_residual_distance")
                                                            (F.to_string
                                                            p.track_measurement_residual_distance)
                                                            refl h.42.text,
                                                            (
                                                            text-IsField
                                                            (bytes "track_covariance_trace")
                                                            (F.to_string p.track_covariance_trace)
                                                            refl h.43.text,
                                                            (
                                                            int-IsField
                                                            (bytes "track_measurement_age_ticks")
                                                            p.track_measurement_age_ticks refl,
                                                            (
                                                            int-IsField
                                                            (bytes "track_missed_updates")
                                                            p.track_missed_updates refl,
                                                            (
                                                            text-IsField
                                                            (bytes "interceptor_status")
                                                            p.interceptor_status refl h.46,
                                                            (
                                                            text-IsField
                                                            (bytes "engage_order_status")
                                                            p.engage_order_status refl h.48,
                                                            (
                                                            bool-IsField (bytes "assessment_ready")
                                                            p.assessment_ready refl,
                                                            (
                                                            text-IsField (bytes "assessment_code")
                                                            p.assessment_code refl h.50,
                                                            (
                                                            text-IsField (bytes "launch_angle_deg")
                                                            (F.to_string p.launch_angle_deg) refl
                                                            h.52.text,
                                                            tt,
                                                            ),
                                                            ),
                                                            ),
                                                            ),
                                                            ),
                                                            ),
                                                            ),
                                                            ),
                                                            ),
                                                            ),
                                                            ),
                                                            ),
                                                            ),
                                                            ),
                                                            ),
                                                            ),
                                                            ),
                                                            ),
                                                            ),
                                                            ),
                                                            ),
                                                            ),
                                                            ),
                                                            ),
                                                            ),
                                                            ),
                                                          ),
                                                        ),
                                                      ),
                                                    ),
                                                  ),
                                                ),
                                              ),
                                            ),
                                          ),
                                        ),
                                      ),
                                    ),
                                  ),
                                ),
                              ),
                            ),
                          ),
                        ),
                      ),
                    ),
                  ),
                ),
              ),
            ),
          ),
        ),
      ),
    ),
  )

  -- A snapshot payload is read back from its wire text, if its numbers fit the types of the source,
  -- its texts are made of bytes, its labels are valid ones and each of its floats is read back from
  -- its own text.
  pub parse-serialize_snapshot :
      (p : SnapshotPayload A) → IsPicture p → parse_snapshot F (serialize_snapshot F p) ≡ ok p
  unfolding parse_snapshot serialize_snapshot parse_snapshot_header require_kind require require_or
      bytes text_eq is_clean
  parse-serialize_snapshot p h =
      rw
        (
          parse_fields-join_fields _ (
              envelope_fields "world_snapshot" p.envelope (snapshot_fields F p) refl
                (snapshot_fields-IsField p h)),
          parse_envelope-with_envelope "world_snapshot" p.envelope (snapshot_fields F p) h.0,
          parse_u64-nat_to_string p.header.tick h.1,
          parse_u64-nat_to_string p.header.timestamp_ms h.2,
          parse_u64-nat_to_string p.header.snapshot_sequence h.3,
          parse_u64-nat_to_string p.header.capture_wall_time_ms h.4,
          h.6,
          parse_i64-int_to_string p.world_width h.7,
          to_int-IsInt p.world_width h.7,
          parse_i64-int_to_string p.world_height h.8,
          to_int-IsInt p.world_height h.8,
          parse_bool-bool_to_string p.target_active,
          parse_i64-int_to_string p.target_x h.10,
          to_int-IsInt p.target_x h.10,
          parse_i64-int_to_string p.target_y h.11,
          to_int-IsInt p.target_y h.11,
          h.12.back,
          h.13.back,
          parse_i64-int_to_string p.target_velocity_x h.14,
          to_int-IsInt p.target_velocity_x h.14,
          parse_i64-int_to_string p.target_velocity_y h.15,
          to_int-IsInt p.target_velocity_y h.15,
          h.16.back,
          h.17.back,
          h.18.back,
          parse_bool-bool_to_string p.interceptor_active,
          parse_i64-int_to_string p.interceptor_x h.20,
          to_int-IsInt p.interceptor_x h.20,
          parse_i64-int_to_string p.interceptor_y h.21,
          to_int-IsInt p.interceptor_y h.21,
          h.22.back,
          h.23.back,
          h.24.back,
          h.25.back,
          h.26.back,
          parse_i64-int_to_string p.interceptor_speed_per_tick h.27,
          to_int-IsInt p.interceptor_speed_per_tick h.27,
          h.28.back,
          parse_i64-int_to_string p.intercept_radius h.29,
          to_int-IsInt p.intercept_radius h.29,
          parse_i64-int_to_string p.engagement_timeout_ticks h.30,
          to_int-IsInt p.engagement_timeout_ticks h.30,
          h.31.back,
          parse_bool-bool_to_string p.seeker_lock,
          h.32.back,
          parse_bool-bool_to_string p.predicted_intercept_valid,
          h.33.back,
          h.34.back,
          h.35.back,
          parse_bool-bool_to_string p.track_active,
          h.36.back,
          h.37.back,
          h.38.back,
          h.39.back,
          parse_bool-bool_to_string p.track_measurement_valid,
          h.40.back,
          h.41.back,
          h.42.back,
          h.43.back,
          parse_i64-int_to_string p.track_measurement_age_ticks h.44,
          to_int-IsInt p.track_measurement_age_ticks h.44,
          parse_i64-int_to_string p.track_missed_updates h.45,
          to_int-IsInt p.track_missed_updates h.45,
          h.47,
          h.49,
          parse_bool-bool_to_string p.assessment_ready,
          h.51,
          h.52.back,
        )
        refl
