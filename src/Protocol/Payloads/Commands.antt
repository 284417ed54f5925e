-- ===== src/Protocol/Payloads/Commands.antt =====
-- The command payloads of the fire control console, and the answers to them.
pub mod RoundTrip
use inerceptor_command_sim.Base.{ℕ, Bool, List, [], ◌∷◌}
use inerceptor_command_sim.Base.Decimal.{nat_to_string, int_to_string}
use inerceptor_command_sim.Base.Int.{ℤ}
use inerceptor_command_sim.Base.Result.{Result, ok, ◌>>=◌}
use inerceptor_command_sim.Base.Text.{Text, bytes}
use inerceptor_command_sim.Protocol.Messages.{SessionEnvelope}
use inerceptor_command_sim.Protocol.Fields.{parse_fields, join_fields}
use inerceptor_command_sim.Protocol.Numbers.{bool_to_string}
use inerceptor_command_sim.Protocol.Payloads.Envelope.{
  require_u32, require_u64, require_text, require_bool, require_int_or, require_enum_string,
  is_valid_aar_control, is_valid_assessment_code, require_kind, parse_envelope, pair, with_envelope,
}

pub record TrackAcquirePayload : Type 0 where
  pub envelope : SessionEnvelope
  pub target_id : Text

abbrev pub track_acquire_fields : TrackAcquirePayload → List (Text × Text)
track_acquire_fields p = pair "target_id" p.target_id ∷ []

unfoldable pub serialize_track_acquire : TrackAcquirePayload → Text
serialize_track_acquire p =
    join_fields (with_envelope "track_acquire" p.envelope (track_acquire_fields p))

unfoldable pub parse_track_acquire : Text → Result TrackAcquirePayload
parse_track_acquire wire = do
  fields ← parse_fields wire
  require_kind fields "track_acquire" (do
    envelope ← parse_envelope fields
    target_id ← require_text fields "target_id"
    ok (record { envelope = envelope; target_id = target_id }))

pub record TrackDropPayload : Type 0 where
  pub envelope : SessionEnvelope
  pub target_id : Text

abbrev pub track_drop_fields : TrackDropPayload → List (Text × Text)
track_drop_fields p = pair "target_id" p.target_id ∷ []

unfoldable pub serialize_track_drop : TrackDropPayload → Text
serialize_track_drop p = join_fields (with_envelope "track_drop" p.envelope (track_drop_fields p))

unfoldable pub parse_track_drop : Text → Result TrackDropPayload
parse_track_drop wire = do
  fields ← parse_fields wire
  require_kind fields "track_drop" (do
    envelope ← parse_envelope fields
    target_id ← require_text fields "target_id"
    ok (record { envelope = envelope; target_id = target_id }))

pub record InterceptorReadyPayload : Type 0 where
  pub envelope : SessionEnvelope
  pub interceptor_id : Text

abbrev pub interceptor_ready_fields : InterceptorReadyPayload → List (Text × Text)
interceptor_ready_fields p = pair "interceptor_id" p.interceptor_id ∷ []

unfoldable pub serialize_interceptor_ready : InterceptorReadyPayload → Text
serialize_interceptor_ready p =
    join_fields (with_envelope "interceptor_ready" p.envelope (interceptor_ready_fields p))

unfoldable pub parse_interceptor_ready : Text → Result InterceptorReadyPayload
parse_interceptor_ready wire = do
  fields ← parse_fields wire
  require_kind fields "interceptor_ready" (do
    envelope ← parse_envelope fields
    interceptor_id ← require_text fields "interceptor_id"
    ok (record { envelope = envelope; interceptor_id = interceptor_id }))

pub record EngageOrderPayload : Type 0 where
  pub envelope : SessionEnvelope
  pub interceptor_id : Text
  pub target_id : Text

abbrev pub engage_order_fields : EngageOrderPayload → List (Text × Text)
engage_order_fields p = pair "interceptor_id" p.interceptor_id ∷ pair "target_id" p.target_id ∷ []

unfoldable pub serialize_engage_order : EngageOrderPayload → Text
serialize_engage_order p =
    join_fields (with_envelope "engage_order" p.envelope (engage_order_fields p))

unfoldable pub parse_engage_order : Text → Result EngageOrderPayload
parse_engage_order wire = do
  fields ← parse_fields wire
  require_kind fields "engage_order" (do
    envelope ← parse_envelope fields
    interceptor_id ← require_text fields "interceptor_id"
    target_id ← require_text fields "target_id"
    ok (record { envelope = envelope; interceptor_id = interceptor_id; target_id = target_id }))

pub record AssessmentPayload : Type 0 where
  pub envelope : SessionEnvelope
  pub accepted : Bool
  pub outcome : Text

abbrev pub assessment_fields : AssessmentPayload → List (Text × Text)
assessment_fields p = pair "accepted" (bool_to_string p.accepted) ∷ pair "outcome" p.outcome ∷ []

unfoldable pub serialize_assessment : AssessmentPayload → Text
serialize_assessment p = join_fields (with_envelope "assessment" p.envelope (assessment_fields p))

unfoldable pub parse_assessment : Text → Result AssessmentPayload
parse_assessment wire = do
  fields ← parse_fields wire
  require_kind fields "assessment" (do
    envelope ← parse_envelope fields
    accepted ← require_bool fields "accepted"
    outcome ← require_text fields "outcome"
    ok (record { envelope = envelope; accepted = accepted; outcome = outcome }))

pub record CommandAckPayload : Type 0 where
  pub envelope : SessionEnvelope
  pub accepted : Bool
  pub reason : Text

abbrev pub command_ack_fields : CommandAckPayload → List (Text × Text)
command_ack_fields p = pair "accepted" (bool_to_string p.accepted) ∷ pair "reason" p.reason ∷ []

unfoldable pub serialize_command_ack : CommandAckPayload → Text
serialize_command_ack p =
    join_fields (with_envelope "command_ack" p.envelope (command_ack_fields p))

unfoldable pub parse_command_ack : Text → Result CommandAckPayload
parse_command_ack wire = do
  fields ← parse_fields wire
  require_kind fields "command_ack" (do
    envelope ← parse_envelope fields
    accepted ← require_bool fields "accepted"
    reason ← require_text fields "reason"
    ok (record { envelope = envelope; accepted = accepted; reason = reason }))
