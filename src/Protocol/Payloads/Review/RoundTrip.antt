-- ===== src/Protocol/Payloads/Review/RoundTrip.antt =====
-- The payloads of Review.antt come back from their wire text.
use inerceptor_command_sim.Base.{◌<◌, ◌≡◌, refl, true, All}
use inerceptor_command_sim.Base.Result.{ok}
use inerceptor_command_sim.Base.Text.{bytes, text_eq}
use inerceptor_command_sim.Base.Word.{u64_mod}
use inerceptor_command_sim.Protocol.Fields.{require, require_or}
use inerceptor_command_sim.Protocol.Fields.Percent.{IsByte}
use inerceptor_command_sim.Protocol.Fields.Wire.{IsField, parse_fields-join_fields}
use inerceptor_command_sim.Protocol.Numbers.RoundTrip.{
  parse_u64-nat_to_string, parse_bool-bool_to_string,
}
use inerceptor_command_sim.Protocol.Payloads.Envelope.{
  is_valid_aar_control, is_valid_assessment_code, require_kind,
}
use inerceptor_command_sim.Protocol.Payloads.Fieldwise.{
  IsEnvelope, is_clean, text-IsField, number-IsField, bool-IsField, envelope_fields,
  parse_envelope-with_envelope,
}
use inerceptor_command_sim.Protocol.Payloads.Review.{
  AarRequestPayload, aar_request_fields, serialize_aar_request, parse_aar_request,
  AarResponsePayload, aar_response_fields, serialize_aar_response, parse_aar_response,
  DisplayHeartbeatPayload, display_heartbeat_fields, serialize_display_heartbeat,
  parse_display_heartbeat, DisplayHeartbeatAckPayload, display_heartbeat_ack_fields,
  serialize_display_heartbeat_ack, parse_display_heartbeat_ack,
}

abbrev pub IsAarRequest : AarRequestPayload → Type 0
IsAarRequest p =
    IsEnvelope p.envelope
    × (p.replay_cursor_index < u64_mod)
    × All IsByte p.control
    × (is_valid_aar_control p.control ≡ true)

aar_request_fields-IsField :
    (p : AarRequestPayload) → IsAarRequest p → All IsField (aar_request_fields p)
unfolding is_clean bytes
aar_request_fields-IsField p h = (
  number-IsField (bytes "replay_cursor_index") p.replay_cursor_index refl,
  (text-IsField (bytes "control") p.control refl h.2, tt),
)

-- An aar_request payload is read back from its wire text, if its numbers fit the types of the
-- source and its texts are made of bytes and its control is one of the three valid ones.
pub parse-serialize_aar_request :
    (p : AarRequestPayload) → IsAarRequest p → parse_aar_request (serialize_aar_request p) ≡ ok p
unfolding parse_aar_request serialize_aar_request require_kind require require_or bytes text_eq
    is_clean
parse-serialize_aar_request p h =
    rw
      (
        parse_fields-join_fields _ (
            envelope_fields "aar_request" p.envelope (aar_request_fields p) refl
              (aar_request_fields-IsField p h)),
        parse_envelope-with_envelope "aar_request" p.envelope (aar_request_fields p) h.0,
        parse_u64-nat_to_string p.replay_cursor_index h.1,
        h.3,
      )
      refl

abbrev pub IsAarResponse : AarResponsePayload → Type 0
IsAarResponse p =
    IsEnvelope p.envelope
    × (p.replay_cursor_index < u64_mod)
    × All IsByte p.control
    × (is_valid_aar_control p.control ≡ true)
    × (p.requested_index < u64_mod)
    × All IsByte p.assessment_code
    × (is_valid_assessment_code p.assessment_code ≡ true)
    × All IsByte p.resilience_case
    × (p.total_events < u64_mod)
    × All IsByte p.event_type
    × All IsByte p.event_summary

aar_response_fields-IsField :
    (p : AarResponsePayload) → IsAarResponse p → All IsField (aar_response_fields p)
unfolding is_clean bytes
aar_response_fields-IsField p h = (
  number-IsField (bytes "replay_cursor_index") p.replay_cursor_index refl,
  (
    text-IsField (bytes "control") p.control refl h.2,
    (
      number-IsField (bytes "requested_index") p.requested_index refl,
      (
        bool-IsField (bytes "clamped") p.clamped refl,
        (
          text-IsField (bytes "assessment_code") p.assessment_code refl h.5,
          (
            text-IsField (bytes "resilience_case") p.resilience_case refl h.7,
            (
              number-IsField (bytes "total_events") p.total_events refl,
              (
                text-IsField (bytes "event_type") p.event_type refl h.9,
                (text-IsField (bytes "event_summary") p.event_summary refl h.10, tt),
              ),
            ),
          ),
        ),
      ),
    ),
  ),
)

-- An aar_response payload is read back from its wire text, if its numbers fit the types of the
-- source and its texts are made of bytes, and its control and assessment code are valid ones.
pub parse-serialize_aar_response :
    (p : AarResponsePayload)
    → IsAarResponse p
    → parse_aar_response (serialize_aar_response p) ≡ ok p
unfolding parse_aar_response serialize_aar_response require_kind require require_or bytes text_eq
    is_clean
parse-serialize_aar_response p h =
    rw
      (
        parse_fields-join_fields _ (
            envelope_fields "aar_response" p.envelope (aar_response_fields p) refl
              (aar_response_fields-IsField p h)),
        parse_envelope-with_envelope "aar_response" p.envelope (aar_response_fields p) h.0,
        parse_u64-nat_to_string p.replay_cursor_index h.1,
        h.3,
        parse_u64-nat_to_string p.requested_index h.4,
        parse_bool-bool_to_string p.clamped,
        h.6,
        parse_u64-nat_to_string p.total_events h.8,
      )
      refl

abbrev pub IsDisplayHeartbeat : DisplayHeartbeatPayload → Type 0
IsDisplayHeartbeat p =
    IsEnvelope p.envelope × (p.heartbeat_id < u64_mod) × (p.client_send_wall_time_ms < u64_mod)

display_heartbeat_fields-IsField :
    (p : DisplayHeartbeatPayload) → IsDisplayHeartbeat p → All IsField (display_heartbeat_fields p)
unfolding is_clean bytes
display_heartbeat_fields-IsField p h = (
  number-IsField (bytes "heartbeat_id") p.heartbeat_id refl,
  (number-IsField (bytes "client_send_wall_time_ms") p.client_send_wall_time_ms refl, tt),
)

-- A display_heartbeat payload is read back from its wire text, if its numbers fit the types of the
-- source and its texts are made of bytes.
pub parse-serialize_display_heartbeat :
    (p : DisplayHeartbeatPayload)
    → IsDisplayHeartbeat p
    → parse_display_heartbeat (serialize_display_heartbeat p) ≡ ok p
unfolding parse_display_heartbeat serialize_display_heartbeat require_kind require require_or bytes
    text_eq is_clean
parse-serialize_display_heartbeat p h =
    rw
      (
        parse_fields-join_fields _ (
            envelope_fields "display_heartbeat" p.envelope (display_heartbeat_fields p) refl
              (display_heartbeat_fields-IsField p h)),
        parse_envelope-with_envelope "display_heartbeat" p.envelope (display_heartbeat_fields p)
            h.0,
        parse_u64-nat_to_string p.heartbeat_id h.1,
        parse_u64-nat_to_string p.client_send_wall_time_ms h.2,
      )
      refl

abbrev pub IsDisplayHeartbeatAck : DisplayHeartbeatAckPayload → Type 0
IsDisplayHeartbeatAck p =
    IsEnvelope p.envelope
    × (p.heartbeat_id < u64_mod)
    × (p.client_send_wall_time_ms < u64_mod)
    × (p.server_receive_wall_time_ms < u64_mod)
    × (p.server_send_wall_time_ms < u64_mod)

display_heartbeat_ack_fields-IsField :
    (p : DisplayHeartbeatAckPayload)
    → IsDisplayHeartbeatAck p
    → All IsField (display_heartbeat_ack_fields p)
unfolding is_clean bytes
display_heartbeat_ack_fields-IsField p h = (
  number-IsField (bytes "heartbeat_id") p.heartbeat_id refl,
  (
    number-IsField (bytes "client_send_wall_time_ms") p.client_send_wall_time_ms refl,
    (
      number-IsField (bytes "server_receive_wall_time_ms") p.server_receive_wall_time_ms refl,
      (number-IsField (bytes "server_send_wall_time_ms") p.server_send_wall_time_ms refl, tt),
    ),
  ),
)

-- A display_heartbeat_ack payload is read back from its wire text, if its numbers fit the types of
-- the source and its texts are made of bytes.
pub parse-serialize_display_heartbeat_ack :
    (p : DisplayHeartbeatAckPayload)
    → IsDisplayHeartbeatAck p
    → parse_display_heartbeat_ack (serialize_display_heartbeat_ack p) ≡ ok p
unfolding parse_display_heartbeat_ack serialize_display_heartbeat_ack require_kind require
    require_or bytes text_eq is_clean
parse-serialize_display_heartbeat_ack p h =
    rw
      (
        parse_fields-join_fields _ (
            envelope_fields "display_heartbeat_ack" p.envelope (display_heartbeat_ack_fields p) refl
              (display_heartbeat_ack_fields-IsField p h)),
        parse_envelope-with_envelope "display_heartbeat_ack" p.envelope
            (display_heartbeat_ack_fields p) h.0,
        parse_u64-nat_to_string p.heartbeat_id h.1,
        parse_u64-nat_to_string p.client_send_wall_time_ms h.2,
        parse_u64-nat_to_string p.server_receive_wall_time_ms h.3,
        parse_u64-nat_to_string p.server_send_wall_time_ms h.4,
      )
      refl
