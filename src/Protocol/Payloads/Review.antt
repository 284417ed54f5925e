-- ===== src/Protocol/Payloads/Review.antt =====
-- The payloads of the post-engagement review and of the display heartbeat.
pub mod RoundTrip
use inerceptor_command_sim.Base.{ℕ, Bool, List, [], ◌∷◌}
use inerceptor_command_sim.Base.Decimal.{nat_to_string, int_to_string}
use inerceptor_command_sim.Base.Int.{ℤ}
use inerceptor_command_sim.Base.Result.{Result, ok, ◌>>=◌}
use inerceptor_command_sim.Base.Text.{Text, bytes}
use inerceptor_command_sim.Protocol.Messages.{SessionEnvelope}
use inerceptor_command_sim.Protocol.Fields.{parse_fields, join_fields}
use inerceptor_command_sim.Protocol.Numbers.{bool_to_string}
use inerceptor_command_sim.Protocol.Payloads.Envelope.{
  require_u32, require_u64, require_text, require_bool, require_int_or, require_enum_string,
  is_valid_aar_control, is_valid_assessment_code, require_kind, parse_envelope, pair, with_envelope,
}

pub record AarRequestPayload : Type 0 where
  pub envelope : SessionEnvelope
  pub replay_cursor_index : ℕ
  pub control : Text

abbrev pub aar_request_fields : AarRequestPayload → List (Text × Text)
aar_request_fields p =
    pair "replay_cursor_index" (nat_to_string p.replay_cursor_index) ∷ pair "control" p.control ∷ []

unfoldable pub serialize_aar_request : AarRequestPayload → Text
serialize_aar_request p =
    join_fields (with_envelope "aar_request" p.envelope (aar_request_fields p))

unfoldable pub parse_aar_request : Text → Result AarRequestPayload
parse_aar_request wire = do
  fields ← parse_fields wire
  require_kind fields "aar_request" (do
    envelope ← parse_envelope fields
    replay_cursor_index ← require_u64 fields "replay_cursor_index"
    control ← require_enum_string fields "control" is_valid_aar_control
    ok (record {
      envelope = envelope;
      replay_cursor_index = replay_cursor_index;
      control = control;
    }))

pub record AarResponsePayload : Type 0 where
  pub envelope : SessionEnvelope
  pub replay_cursor_index : ℕ
  pub control : Text
  pub requested_index : ℕ
  pub clamped : Bool
  pub assessment_code : Text
  pub resilience_case : Text
  pub total_events : ℕ
  pub event_type : Text
  pub event_summary : Text

abbrev pub aar_response_fields : AarResponsePayload → List (Text × Text)
aar_response_fields p =
    pair "replay_cursor_index" (nat_to_string p.replay_cursor_index)
    ∷ pair "control" p.control
    ∷ pair "requested_index" (nat_to_string p.requested_index)
    ∷ pair "clamped" (bool_to_string p.clamped)
    ∷ pair "assessment_code" p.assessment_code
    ∷ pair "resilience_case" p.resilience_case
    ∷ pair "total_events" (nat_to_string p.total_events)
    ∷ pair "event_type" p.event_type
    ∷ pair "event_summary" p.event_summary
    ∷ []

unfoldable pub serialize_aar_response : AarResponsePayload → Text
serialize_aar_response p =
    join_fields (with_envelope "aar_response" p.envelope (aar_response_fields p))

unfoldable pub parse_aar_response : Text → Result AarResponsePayload
parse_aar_response wire = do
  fields ← parse_fields wire
  require_kind fields "aar_response" (do
    envelope ← parse_envelope fields
    replay_cursor_index ← require_u64 fields "replay_cursor_index"
    control ← require_enum_string fields "control" is_valid_aar_control
    requested_index ← require_u64 fields "requested_index"
    clamped ← require_bool fields "clamped"
    assessment_code ← require_enum_string fields "assessment_code" is_valid_assessment_code
    resilience_case ← require_text fields "resilience_case"
    total_events ← require_u64 fields "total_events"
    event_type ← require_text fields "event_type"
    event_summary ← require_text fields "event_summary"
    ok (record {
      envelope = envelope;
      replay_cursor_index = replay_cursor_index;
      control = control;
      requested_index = requested_index;
      clamped = clamped;
      assessment_code = assessment_code;
      resilience_case = resilience_case;
      total_events = total_events;
      event_type = event_type;
      event_summary = event_summary;
    }))

pub record DisplayHeartbeatPayload : Type 0 where
  pub envelope : SessionEnvelope
  pub heartbeat_id : ℕ
  pub client_send_wall_time_ms : ℕ

abbrev pub display_heartbeat_fields : DisplayHeartbeatPayload → List (Text × Text)
display_heartbeat_fields p =
    pair "heartbeat_id" (nat_to_string p.heartbeat_id)
    ∷ pair "client_send_wall_time_ms" (nat_to_string p.client_send_wall_time_ms)
    ∷ []

unfoldable pub serialize_display_heartbeat : DisplayHeartbeatPayload → Text
serialize_display_heartbeat p =
    join_fields (with_envelope "display_heartbeat" p.envelope (display_heartbeat_fields p))

unfoldable pub parse_display_heartbeat : Text → Result DisplayHeartbeatPayload
parse_display_heartbeat wire = do
  fields ← parse_fields wire
  require_kind fields "display_heartbeat" (do
    envelope ← parse_envelope fields
    heartbeat_id ← require_u64 fields "heartbeat_id"
    client_send_wall_time_ms ← require_u64 fields "client_send_wall_time_ms"
    ok (record {
      envelope = envelope;
      heartbeat_id = heartbeat_id;
      client_send_wall_time_ms = client_send_wall_time_ms;
    }))

pub record DisplayHeartbeatAckPayload : Type 0 where
  pub envelope : SessionEnvelope
  pub heartbeat_id : ℕ
  pub client_send_wall_time_ms : ℕ
  pub server_receive_wall_time_ms : ℕ
  pub server_send_wall_time_ms : ℕ

abbrev pub display_heartbeat_ack_fields : DisplayHeartbeatAckPayload → List (Text × Text)
display_heartbeat_ack_fields p =
    pair "heartbeat_id" (nat_to_string p.heartbeat_id)
    ∷ pair "client_send_wall_time_ms" (nat_to_string p.client_send_wall_time_ms)
    ∷ pair "server_receive_wall_time_ms" (nat_to_string p.server_receive_wall_time_ms)
    ∷ pair "server_send_wall_time_ms" (nat_to_string p.server_send_wall_time_ms)
    ∷ []

unfoldable pub serialize_display_heartbeat_ack : DisplayHeartbeatAckPayload → Text
serialize_display_heartbeat_ack p =
    join_fields (with_envelope "display_heartbeat_ack" p.envelope (display_heartbeat_ack_fields p))

unfoldable pub parse_display_heartbeat_ack : Text → Result DisplayHeartbeatAckPayload
parse_display_heartbeat_ack wire = do
  fields ← parse_fields wire
  require_kind fields "display_heartbeat_ack" (do
    envelope ← parse_envelope fields
    heartbeat_id ← require_u64 fields "heartbeat_id"
    client_send_wall_time_ms ← require_u64 fields "client_send_wall_time_ms"
    server_receive_wall_time_ms ← require_u64 fields "server_receive_wall_time_ms"
    server_send_wall_time_ms ← require_u64 fields "server_send_wall_time_ms"
    ok (record {
      envelope = envelope;
      heartbeat_id = heartbeat_id;
      client_send_wall_time_ms = client_send_wall_time_ms;
      server_receive_wall_time_ms = server_receive_wall_time_ms;
      server_send_wall_time_ms = server_send_wall_time_ms;
    }))
