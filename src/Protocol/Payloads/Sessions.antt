-- ===== src/Protocol/Payloads/Sessions.antt =====
-- The session and scenario payloads.
pub mod RoundTrip
use inerceptor_command_sim.Base.{ℕ, Bool, List, [], ◌∷◌}
use inerceptor_command_sim.Base.Decimal.{nat_to_string, int_to_string}
use inerceptor_command_sim.Base.Int.{ℤ}
use inerceptor_command_sim.Base.Result.{Result, ok, ◌>>=◌}
use inerceptor_command_sim.Base.Text.{Text, bytes}
use inerceptor_command_sim.Protocol.Messages.{SessionEnvelope}
use inerceptor_command_sim.Protocol.Fields.{parse_fields, join_fields}
use inerceptor_command_sim.Protocol.Numbers.{bool_to_string}
use inerceptor_command_sim.Protocol.Payloads.Envelope.{
  require_u32, require_u64, require_text, require_bool, require_int_or, require_enum_string,
  is_valid_aar_control, is_valid_assessment_code, require_kind, parse_envelope, pair, with_envelope,
}

pub record SessionCreatePayload : Type 0 where
  pub requested_sender_id : ℕ
  pub scenario_name : Text

abbrev pub session_create_fields : SessionCreatePayload → List (Text × Text)
session_create_fields p =
    pair "requested_sender_id" (nat_to_string p.requested_sender_id)
    ∷ pair "scenario_name" p.scenario_name
    ∷ []

unfoldable pub serialize_session_create : SessionCreatePayload → Text
serialize_session_create p =
    join_fields (pair "kind" (bytes "session_create") ∷ session_create_fields p)

unfoldable pub parse_session_create : Text → Result SessionCreatePayload
parse_session_create wire = do
  fields ← parse_fields wire
  require_kind fields "session_create" (do
    requested_sender_id ← require_u32 fields "requested_sender_id"
    scenario_name ← require_text fields "scenario_name"
    ok (record { requested_sender_id = requested_sender_id; scenario_name = scenario_name }))

pub record SessionJoinPayload : Type 0 where
  pub envelope : SessionEnvelope
  pub client_role : Text

abbrev pub session_join_fields : SessionJoinPayload → List (Text × Text)
session_join_fields p = pair "client_role" p.client_role ∷ []

unfoldable pub serialize_session_join : SessionJoinPayload → Text
serialize_session_join p =
    join_fields (with_envelope "session_join" p.envelope (session_join_fields p))

unfoldable pub parse_session_join : Text → Result SessionJoinPayload
parse_session_join wire = do
  fields ← parse_fields wire
  require_kind fields "session_join" (do
    envelope ← parse_envelope fields
    client_role ← require_text fields "client_role"
    ok (record { envelope = envelope; client_role = client_role }))

pub record SessionLeavePayload : Type 0 where
  pub envelope : SessionEnvelope
  pub reason : Text

abbrev pub session_leave_fields : SessionLeavePayload → List (Text × Text)
session_leave_fields p = pair "reason" p.reason ∷ []

unfoldable pub serialize_session_leave : SessionLeavePayload → Text
serialize_session_leave p =
    join_fields (with_envelope "session_leave" p.envelope (session_leave_fields p))

unfoldable pub parse_session_leave : Text → Result SessionLeavePayload
parse_session_leave wire = do
  fields ← parse_fields wire
  require_kind fields "session_leave" (do
    envelope ← parse_envelope fields
    reason ← require_text fields "reason"
    ok (record { envelope = envelope; reason = reason }))

pub record ScenarioStopPayload : Type 0 where
  pub envelope : SessionEnvelope
  pub reason : Text

abbrev pub scenario_stop_fields : ScenarioStopPayload → List (Text × Text)
scenario_stop_fields p = pair "reason" p.reason ∷ []

unfoldable pub serialize_scenario_stop : ScenarioStopPayload → Text
serialize_scenario_stop p =
    join_fields (with_envelope "scenario_stop" p.envelope (scenario_stop_fields p))

unfoldable pub parse_scenario_stop : Text → Result ScenarioStopPayload
parse_scenario_stop wire = do
  fields ← parse_fields wire
  require_kind fields "scenario_stop" (do
    envelope ← parse_envelope fields
    reason ← require_text fields "reason"
    ok (record { envelope = envelope; reason = reason }))

pub record ScenarioResetPayload : Type 0 where
  pub envelope : SessionEnvelope
  pub reason : Text

abbrev pub scenario_reset_fields : ScenarioResetPayload → List (Text × Text)
scenario_reset_fields p = pair "reason" p.reason ∷ []

unfoldable pub serialize_scenario_reset : ScenarioResetPayload → Text
serialize_scenario_reset p =
    join_fields (with_envelope "scenario_reset" p.envelope (scenario_reset_fields p))

unfoldable pub parse_scenario_reset : Text → Result ScenarioResetPayload
parse_scenario_reset wire = do
  fields ← parse_fields wire
  require_kind fields "scenario_reset" (do
    envelope ← parse_envelope fields
    reason ← require_text fields "reason"
    ok (record { envelope = envelope; reason = reason }))
