-- ===== src/Protocol/Fields.antt =====
-- common/src/serialization.cpp, the field codec: percent-encoded values, `key=value` pairs joined
-- by semicolons, and the parsing of a wire text into a field map. A byte is a number below 256.
pub mod Percent
pub mod Wire
use inerceptor_command_sim.Base.{
  ℕ, ◌+◌, ◌-◌, ◌*◌, ◌/◌, ◌%◌, Bool, true, false, ◌&&◌, ◌||◌, List, [], ◌∷◌, ◌++◌, Option, none,
  some, ltb, leb, ◌==◌, if◌then◌else◌,
}
use inerceptor_command_sim.Base.Result.{Result, ok, throws, ◌>>=◌}
use inerceptor_command_sim.Base.Text.{Text, bytes, text_eq}

-- The characters that encode_field_value escapes: '%', ';', '=' and the control characters.
unfoldable pub is_escaped : ℕ → Bool
is_escaped ch = ch == b'%' || (ch == b';' || (ch == b'=' || ltb ch 0x20))

-- kHex[digit].
unfoldable pub hex_digit : ℕ → ℕ
hex_digit digit = if ltb digit 10 then b'0' + digit else b'A' + (digit - 10)

unfoldable pub encode_field_value : Text → Text
encode_field_value [] = []
encode_field_value (ch ∷ rest) =
    let tail = encode_field_value rest in
    if is_escaped ch then b'%' ∷ hex_digit (ch / 16) ∷ hex_digit (ch % 16) ∷ tail else ch ∷ tail

-- The lambda `hex` of decode_field_value.
unfoldable pub hex : ℕ → Result ℕ
hex c =
    if leb b'0' c && leb c b'9'
    then ok (c - b'0')
    else if leb b'A' c && leb c b'F'
    then ok (10 + (c - b'A'))
    else if leb b'a' c && leb c b'f'
    then ok (10 + (c - b'a'))
    else throws (bytes "invalid percent-encoding")

-- A percent sign with fewer than two characters behind it stands for itself.
unfoldable pub decode_field_value : Text → Result Text
decode_field_value [] = ok []
decode_field_value (c ∷ []) = ok (c ∷ [])
decode_field_value (c ∷ d ∷ []) = ok (c ∷ d ∷ [])
decode_field_value (c ∷ d ∷ e ∷ rest) = elim (c == b'%') [
  | true ↦ do
    high ← hex d
    low ← hex e
    decoded ← decode_field_value rest
    ok ((high * 16 + low) ∷ decoded)
  | false ↦ do decoded ← decode_field_value (d ∷ e ∷ rest); ok (c ∷ decoded)
]

-- One more character in front of the first part.
abbrev pub grow : ℕ → List Text → List Text
grow c [] = (c ∷ []) ∷ []
grow c (part ∷ parts) = (c ∷ part) ∷ parts

unfoldable pub split : Text → ℕ → List Text
split [] delim = [] ∷ []
split (c ∷ rest) delim =
    let parts = split rest delim in if c == delim then [] ∷ parts else grow c parts

-- std::unordered_map<std::string, std::string>, as what a key is mapped to.
abbrev pub FieldMap : Type 0
FieldMap = Text → Option Text

-- `fields.find(key)`.
unfoldable pub find : FieldMap → Text → Option Text
find fields key = fields key

-- The value that is there, or else the other one.
abbrev pub value_or : Option Text → Option Text → Option Text
value_or (some v) other = some v
value_or none other = other

-- `fields.emplace(key, value)`: the value of an equal key that is there stays.
unfoldable pub emplace : Text → Text → FieldMap → FieldMap
emplace key value fields k = value_or (fields k) (if text_eq key k then some value else none)

-- What stands before and behind the first '=' of a part, by find and substr.
unfoldable pub cut_at_equals : Text → Option (Text × Text)
cut_at_equals [] = none
cut_at_equals (c ∷ rest) =
    let more = cut_at_equals rest in
    if c == b'='
    then some ([], rest)
    else elim more [ none ↦ none | some (key, value) ↦ some (c ∷ key, value) ]

-- The loop of parse_fields, over the parts that are left.
unfoldable pub parse_parts : List Text → FieldMap → Result FieldMap
parse_parts [] fields = ok fields
parse_parts ([] ∷ parts) fields = parse_parts parts fields
parse_parts ((c ∷ part) ∷ parts) fields = elim (cut_at_equals (c ∷ part)) [
  | none ↦ throws (bytes "invalid wire field: missing '='")
  | some (key, value) ↦ do
    decoded ← decode_field_value value
    parse_parts parts (emplace key decoded fields)
]

unfoldable pub parse_fields : Text → Result FieldMap
parse_fields wire = parse_parts (split wire b';') (λ key. none)

unfoldable pub require : FieldMap → Text → Result Text
unfolding find
require fields key = elim (find fields key) [
  | none ↦ throws (bytes "missing field: " ++ key)
  | some v ↦ ok v
]

unfoldable pub require_or : FieldMap → Text → Text → Text
unfolding find
require_or fields key fallback = elim (find fields key) [ none ↦ fallback | some v ↦ v ]

-- `key=value` with the value encoded.
abbrev pub field : Text × Text → Text
field (key, value) = key ++ b'=' ∷ encode_field_value value

unfoldable pub join_fields : List (Text × Text) → Text
join_fields [] = []
join_fields (f ∷ []) = field f
join_fields (f ∷ g ∷ fields) = field f ++ b';' ∷ join_fields (g ∷ fields)
