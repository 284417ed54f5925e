-- ===== src/Protocol/Payloads/Sessions/RoundTrip.antt =====
-- The payloads of Sessions.antt come back from their wire text.
use inerceptor_command_sim.Base.{◌<◌, ◌≡◌, refl, All, ◌∷◌}
use inerceptor_command_sim.Base.Result.{ok}
use inerceptor_command_sim.Base.Text.{bytes, text_eq}
use inerceptor_command_sim.Base.Word.{u32_mod}
use inerceptor_command_sim.Protocol.Fields.{require, require_or}
use inerceptor_command_sim.Protocol.Fields.Percent.{IsByte}
use inerceptor_command_sim.Protocol.Fields.Wire.{IsField, parse_fields-join_fields}
use inerceptor_command_sim.Protocol.Numbers.RoundTrip.{parse_u32-nat_to_string}
use inerceptor_command_sim.Protocol.Payloads.Envelope.{require_kind, pair}
use inerceptor_command_sim.Protocol.Payloads.Fieldwise.{
  IsEnvelope, is_clean, text-IsField, number-IsField, envelope_fields, kind-IsField,
  parse_envelope-with_envelope,
}
use inerceptor_command_sim.Protocol.Payloads.Sessions.{
  SessionCreatePayload, session_create_fields, serialize_session_create, parse_session_create,
  SessionJoinPayload, session_join_fields, serialize_session_join, parse_session_join,
  SessionLeavePayload, session_leave_fields, serialize_session_leave, parse_session_leave,
  ScenarioStopPayload, scenario_stop_fields, serialize_scenario_stop, parse_scenario_stop,
  ScenarioResetPayload, scenario_reset_fields, serialize_scenario_reset, parse_scenario_reset,
}

abbrev pub IsSessionCreate : SessionCreatePayload → Type 0
IsSessionCreate p = (p.requested_sender_id < u32_mod) × All IsByte p.scenario_name

session_create_fields-IsField :
    (p : SessionCreatePayload) → IsSessionCreate p → All IsField (session_create_fields p)
unfolding is_clean bytes
session_create_fields-IsField p h = (
  number-IsField (bytes "requested_sender_id") p.requested_sender_id refl,
  (text-IsField (bytes "scenario_name") p.scenario_name refl h.1, tt),
)

-- A session_create payload is read back from its wire text, if its numbers fit the types of the
-- source and its texts are made of bytes.
pub parse-serialize_session_create :
    (p : SessionCreatePayload)
    → IsSessionCreate p
    → parse_session_create (serialize_session_create p) ≡ ok p
unfolding parse_session_create serialize_session_create require_kind require require_or bytes
    text_eq is_clean
parse-serialize_session_create p h =
    rw
      (
        parse_fields-join_fields (pair "kind" (bytes "session_create") ∷ session_create_fields p)
            (kind-IsField "session_create" refl, session_create_fields-IsField p h),
        parse_u32-nat_to_string p.requested_sender_id h.0,
      )
      refl

abbrev pub IsSessionJoin : SessionJoinPayload → Type 0
IsSessionJoin p = IsEnvelope p.envelope × All IsByte p.client_role

session_join_fields-IsField :
    (p : SessionJoinPayload) → IsSessionJoin p → All IsField (session_join_fields p)
unfolding is_clean bytes
session_join_fields-IsField p h = (text-IsField (bytes "client_role") p.client_role refl h.1, tt)

-- A session_join payload is read back from its wire text, if its numbers fit the types of the
-- source and its texts are made of bytes.
pub parse-serialize_session_join :
    (p : SessionJoinPayload)
    → IsSessionJoin p
    → parse_session_join (serialize_session_join p) ≡ ok p
unfolding parse_session_join serialize_session_join require_kind require require_or bytes text_eq
    is_clean
parse-serialize_session_join p h =
    rw
      (
        parse_fields-join_fields _ (
            envelope_fields "session_join" p.envelope (session_join_fields p) refl
              (session_join_fields-IsField p h)),
        parse_envelope-with_envelope "session_join" p.envelope (session_join_fields p) h.0,
      )
      refl

abbrev pub IsSessionLeave : SessionLeavePayload → Type 0
IsSessionLeave p = IsEnvelope p.envelope × All IsByte p.reason

session_leave_fields-IsField :
    (p : SessionLeavePayload) → IsSessionLeave p → All IsField (session_leave_fields p)
unfolding is_clean bytes
session_leave_fields-IsField p h = (text-IsField (bytes "reason") p.reason refl h.1, tt)

-- A session_leave payload is read back from its wire text, if its numbers fit the types of the
-- source and its texts are made of bytes.
pub parse-serialize_session_leave :
    (p : SessionLeavePayload)
    → IsSessionLeave p
    → parse_session_leave (serialize_session_leave p) ≡ ok p
unfolding parse_session_leave serialize_session_leave require_kind require require_or bytes text_eq
    is_clean
parse-serialize_session_leave p h =
    rw
      (
        parse_fields-join_fields _ (
            envelope_fields "session_leave" p.envelope (session_leave_fields p) refl
              (session_leave_fields-IsField p h)),
        parse_envelope-with_envelope "session_leave" p.envelope (session_leave_fields p) h.0,
      )
      refl

abbrev pub IsScenarioStop : ScenarioStopPayload → Type 0
IsScenarioStop p = IsEnvelope p.envelope × All IsByte p.reason

scenario_stop_fields-IsField :
    (p : ScenarioStopPayload) → IsScenarioStop p → All IsField (scenario_stop_fields p)
unfolding is_clean bytes
scenario_stop_fields-IsField p h = (text-IsField (bytes "reason") p.reason refl h.1, tt)

-- A scenario_stop payload is read back from its wire text, if its numbers fit the types of the
-- source and its texts are made of bytes.
pub parse-serialize_scenario_stop :
    (p : ScenarioStopPayload)
    → IsScenarioStop p
    → parse_scenario_stop (serialize_scenario_stop p) ≡ ok p
unfolding parse_scenario_stop serialize_scenario_stop require_kind require require_or bytes text_eq
    is_clean
parse-serialize_scenario_stop p h =
    rw
      (
        parse_fields-join_fields _ (
            envelope_fields "scenario_stop" p.envelope (scenario_stop_fields p) refl
              (scenario_stop_fields-IsField p h)),
        parse_envelope-with_envelope "scenario_stop" p.envelope (scenario_stop_fields p) h.0,
      )
      refl

abbrev pub IsScenarioReset : ScenarioResetPayload → Type 0
IsScenarioReset p = IsEnvelope p.envelope × All IsByte p.reason

scenario_reset_fields-IsField :
    (p : ScenarioResetPayload) → IsScenarioReset p → All IsField (scenario_reset_fields p)
unfolding is_clean bytes
scenario_reset_fields-IsField p h = (text-IsField (bytes "reason") p.reason refl h.1, tt)

-- A scenario_reset payload is read back from its wire text, if its numbers fit the types of the
-- source and its texts are made of bytes.
pub parse-serialize_scenario_reset :
    (p : ScenarioResetPayload)
    → IsScenarioReset p
    → parse_scenario_reset (serialize_scenario_reset p) ≡ ok p
unfolding parse_scenario_reset serialize_scenario_reset require_kind require require_or bytes
    text_eq is_clean
parse-serialize_scenario_reset p h =
    rw
      (
        parse_fields-join_fields _ (
            envelope_fields "scenario_reset" p.envelope (scenario_reset_fields p) refl
              (scenario_reset_fields-IsField p h)),
        parse_envelope-with_envelope "scenario_reset" p.envelope (scenario_reset_fields p) h.0,
      )
      refl
