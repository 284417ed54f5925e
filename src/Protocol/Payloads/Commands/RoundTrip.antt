-- ===== src/Protocol/Payloads/Commands/RoundTrip.antt =====
-- The payloads of Commands.antt come back from their wire text.
use inerceptor_command_sim.Base.{◌≡◌, refl, All}
use inerceptor_command_sim.Base.Result.{ok}
use inerceptor_command_sim.Base.Text.{bytes, text_eq}
use inerceptor_command_sim.Protocol.Fields.{require, require_or}
use inerceptor_command_sim.Protocol.Fields.Percent.{IsByte}
use inerceptor_command_sim.Protocol.Fields.Wire.{IsField, parse_fields-join_fields}
use inerceptor_command_sim.Protocol.Numbers.RoundTrip.{parse_bool-bool_to_string}
use inerceptor_command_sim.Protocol.Payloads.Envelope.{require_kind}
use inerceptor_command_sim.Protocol.Payloads.Fieldwise.{
  IsEnvelope, is_clean, text-IsField, bool-IsField, envelope_fields, parse_envelope-with_envelope,
}
use inerceptor_command_sim.Protocol.Payloads.Commands.{
  TrackAcquirePayload, track_acquire_fields, serialize_track_acquire, parse_track_acquire,
  TrackDropPayload, track_drop_fields, serialize_track_drop, parse_track_drop,
  InterceptorReadyPayload, interceptor_ready_fields, serialize_interceptor_ready,
  parse_interceptor_ready, EngageOrderPayload, engage_order_fields, serialize_engage_order,
  parse_engage_order, AssessmentPayload, assessment_fields, serialize_assessment, parse_assessment,
  CommandAckPayload, command_ack_fields, serialize_command_ack, parse_command_ack,
}

abbrev pub IsTrackAcquire : TrackAcquirePayload → Type 0
IsTrackAcquire p = IsEnvelope p.envelope × All IsByte p.target_id

track_acquire_fields-IsField :
    (p : TrackAcquirePayload) → IsTrackAcquire p → All IsField (track_acquire_fields p)
unfolding is_clean bytes
track_acquire_fields-IsField p h = (text-IsField (bytes "target_id") p.target_id refl h.1, tt)

-- A track_acquire payload is read back from its wire text, if its numbers fit the types of the
-- source and its texts are made of bytes.
pub parse-serialize_track_acquire :
    (p : TrackAcquirePayload)
    → IsTrackAcquire p
    → parse_track_acquire (serialize_track_acquire p) ≡ ok p
unfolding parse_track_acquire serialize_track_acquire require_kind require require_or bytes text_eq
    is_clean
parse-serialize_track_acquire p h =
    rw
      (
        parse_fields-join_fields _ (
            envelope_fields "track_acquire" p.envelope (track_acquire_fields p) refl
              (track_acquire_fields-IsField p h)),
        parse_envelope-with_envelope "track_acquire" p.envelope (track_acquire_fields p) h.0,
      )
      refl

abbrev pub IsTrackDrop : TrackDropPayload → Type 0
IsTrackDrop p = IsEnvelope p.envelope × All IsByte p.target_id

track_drop_fields-IsField :
    (p : TrackDropPayload) → IsTrackDrop p → All IsField (track_drop_fields p)
unfolding is_clean bytes
track_drop_fields-IsField p h = (text-IsField (bytes "target_id") p.target_id refl h.1, tt)

-- A track_drop payload is read back from its wire text, if its numbers fit the types of the source
-- and its texts are made of bytes.
pub parse-serialize_track_drop :
    (p : TrackDropPayload) → IsTrackDrop p → parse_track_drop (serialize_track_drop p) ≡ ok p
unfolding parse_track_drop serialize_track_drop require_kind require require_or bytes text_eq
    is_clean
parse-serialize_track_drop p h =
    rw
      (
        parse_fields-join_fields _ (
            envelope_fields "track_drop" p.envelope (track_drop_fields p) refl
              (track_drop_fields-IsField p h)),
        parse_envelope-with_envelope "track_drop" p.envelope (track_drop_fields p) h.0,
      )
      refl

abbrev pub IsInterceptorReady : InterceptorReadyPayload → Type 0
IsInterceptorReady p = IsEnvelope p.envelope × All IsByte p.interceptor_id

interceptor_ready_fields-IsField :
    (p : InterceptorReadyPayload) → IsInterceptorReady p → All IsField (interceptor_ready_fields p)
unfolding is_clean bytes
interceptor_ready_fields-IsField p h =
    (text-IsField (bytes "interceptor_id") p.interceptor_id refl h.1, tt)

-- An interceptor_ready payload is read back from its wire text, if its numbers fit the types of
-- the source and its texts are made of bytes.
pub parse-serialize_interceptor_ready :
    (p : InterceptorReadyPayload)
    → IsInterceptorReady p
    → parse_interceptor_ready (serialize_interceptor_ready p) ≡ ok p
unfolding parse_interceptor_ready serialize_interceptor_ready require_kind require require_or bytes
    text_eq is_clean
parse-serialize_interceptor_ready p h =
    rw
      (
        parse_fields-join_fields _ (
            envelope_fields "interceptor_ready" p.envelope (interceptor_ready_fields p) refl
              (interceptor_ready_fields-IsField p h)),
        parse_envelope-with_envelope "interceptor_ready" p.envelope (interceptor_ready_fields p)
            h.0,
      )
      refl

abbrev pub IsEngageOrder : EngageOrderPayload → Type 0
IsEngageOrder p = IsEnvelope p.envelope × All IsByte p.interceptor_id × All IsByte p.target_id

engage_order_fields-IsField :
    (p : EngageOrderPayload) → IsEngageOrder p → All IsField (engage_order_fields p)
unfolding is_clean bytes
engage_order_fields-IsField p h = (
  text-IsField (bytes "interceptor_id") p.interceptor_id refl h.1,
  (text-IsField (bytes "target_id") p.target_id refl h.2, tt),
)

-- An engage_order payload is read back from its wire text, if its numbers fit the types of the
-- source and its texts are made of bytes.
pub parse-serialize_engage_order :
    (p : EngageOrderPayload)
    → IsEngageOrder p
    → parse_engage_order (serialize_engage_order p) ≡ ok p
unfolding parse_engage_order serialize_engage_order require_kind require require_or bytes text_eq
    is_clean
parse-serialize_engage_order p h =
    rw
      (
        parse_fields-join_fields _ (
            envelope_fields "engage_order" p.envelope (engage_order_fields p) refl
              (engage_order_fields-IsField p h)),
        parse_envelope-with_envelope "engage_order" p.envelope (engage_order_fields p) h.0,
      )
      refl

abbrev pub IsAssessment : AssessmentPayload → Type 0
IsAssessment p = IsEnvelope p.envelope × All IsByte p.outcome

assessment_fields-IsField :
    (p : AssessmentPayload) → IsAssessment p → All IsField (assessment_fields p)
unfolding is_clean bytes
assessment_fields-IsField p h = (
  bool-IsField (bytes "accepted") p.accepted refl,
  (text-IsField (bytes "outcome") p.outcome refl h.1, tt),
)

-- An assessment payload is read back from its wire text, if its numbers fit the types of the
-- source and its texts are made of bytes.
pub parse-serialize_assessment :
    (p : AssessmentPayload) → IsAssessment p → parse_assessment (serialize_assessment p) ≡ ok p
unfolding parse_assessment serialize_assessment require_kind require require_or bytes text_eq
    is_clean
parse-serialize_assessment p h =
    rw
      (
        parse_fields-join_fields _ (
            envelope_fields "assessment" p.envelope (assessment_fields p) refl
              (assessment_fields-IsField p h)),
        parse_envelope-with_envelope "assessment" p.envelope (assessment_fields p) h.0,
        parse_bool-bool_to_string p.accepted,
      )
      refl

abbrev pub IsCommandAck : CommandAckPayload → Type 0
IsCommandAck p = IsEnvelope p.envelope × All IsByte p.reason

command_ack_fields-IsField :
    (p : CommandAckPayload) → IsCommandAck p → All IsField (command_ack_fields p)
unfolding is_clean bytes
command_ack_fields-IsField p h = (
  bool-IsField (bytes "accepted") p.accepted refl,
  (text-IsField (bytes "reason") p.reason refl h.1, tt),
)

-- A command_ack payload is read back from its wire text, if its numbers fit the types of the
-- source and its texts are made of bytes.
pub parse-serialize_command_ack :
    (p : CommandAckPayload) → IsCommandAck p → parse_command_ack (serialize_command_ack p) ≡ ok p
unfolding parse_command_ack serialize_command_ack require_kind require require_or bytes text_eq
    is_clean
parse-serialize_command_ack p h =
    rw
      (
        parse_fields-join_fields _ (
            envelope_fields "command_ack" p.envelope (command_ack_fields p) refl
              (command_ack_fields-IsField p h)),
        parse_envelope-with_envelope "command_ack" p.envelope (command_ack_fields p) h.0,
        parse_bool-bool_to_string p.accepted,
      )
      refl
