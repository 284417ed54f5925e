-- ===== src/Protocol/Payloads/Envelope.antt =====
-- common/src/serialization.cpp: the fields that the payloads share.
use inerceptor_command_sim.Base.{ℕ, Bool, ◌||◌, List, ◌∷◌, ◌++◌, if◌then◌else◌}
use Prim.Native.String.{String}
use inerceptor_command_sim.Base.Decimal.{nat_to_string}
use inerceptor_command_sim.Base.Int.{ℤ}
use inerceptor_command_sim.Base.Result.{Result, ok, throws, ◌>>=◌}
use inerceptor_command_sim.Base.Text.{Text, bytes, text_eq}
use inerceptor_command_sim.Protocol.Messages.{SessionEnvelope}
use inerceptor_command_sim.Protocol.Fields.{FieldMap, require, require_or}
use inerceptor_command_sim.Protocol.Numbers.{parse_u32, parse_u64, parse_i64, to_int, parse_bool}

-- require and a parser behind it.
abbrev pub require_u32 : FieldMap → String → Result ℕ
require_u32 fields key = require fields (bytes key) >>= parse_u32

abbrev pub require_u64 : FieldMap → String → Result ℕ
require_u64 fields key = require fields (bytes key) >>= parse_u64

abbrev pub require_text : FieldMap → String → Result Text
require_text fields key = require fields (bytes key)

-- require_kind, in front of what reads the other fields.
unfoldable pub require_kind : {A : Type 0} → FieldMap → String → Result A → Result A
require_kind fields expected rest = do
  kind ← require_text fields "kind"
  if text_eq kind (bytes expected) then rest else throws (bytes "unexpected payload kind")

unfoldable pub parse_envelope : FieldMap → Result SessionEnvelope
parse_envelope fields = do
  session_id ← require_u32 fields "session_id"
  sender_id ← require_u32 fields "sender_id"
  sequence ← require_u64 fields "sequence"
  ok (record { session_id = session_id; sender_id = sender_id; sequence = sequence })

-- A pair of the initialiser list of join_fields.
abbrev pub pair : String → Text → Text × Text
pair key value = (bytes key, value)

-- The fields that begin every payload but session_create.
abbrev pub with_envelope : String → SessionEnvelope → List (Text × Text) → List (Text × Text)
with_envelope kind e fields =
    pair "kind" (bytes kind)
    ∷ pair "session_id" (nat_to_string e.session_id)
    ∷ pair "sender_id" (nat_to_string e.sender_id)
    ∷ pair "sequence" (nat_to_string e.sequence)
    ∷ fields

abbrev pub require_bool : FieldMap → String → Result Bool
require_bool fields key = require fields (bytes key) >>= parse_bool

-- `static_cast<int>(parse_i64(require_or(fields, key, fallback)))`.
abbrev pub require_int_or : FieldMap → String → String → Result ℤ
require_int_or fields key fallback = do
  z ← parse_i64 (require_or fields (bytes key) (bytes fallback))
  ok (to_int z)

unfoldable pub is_valid_aar_control : Text → Bool
is_valid_aar_control value =
    text_eq value (bytes "absolute")
    || (text_eq value (bytes "step_forward") || text_eq value (bytes "step_backward"))

unfoldable pub is_valid_assessment_code : Text → Bool
is_valid_assessment_code value =
    text_eq value (bytes "pending")
    || (text_eq value (bytes "intercept_success")
        || (text_eq value (bytes "invalid_transition") || text_eq value (bytes "timeout_observed")))

abbrev pub require_enum_string : FieldMap → String → (Text → Bool) → Result Text
require_enum_string fields key is_valid = do
  value ← require fields (bytes key)
  if is_valid value then ok value else throws (bytes "invalid enum field: " ++ bytes key)
