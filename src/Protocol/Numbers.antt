-- ===== src/Protocol/Numbers.antt =====
-- common/src/serialization.cpp: numbers and Booleans as field values. `std::from_chars` reads the
-- longest prefix of digits and ignores what follows; it fails on no digit and on a value that the
-- type cannot hold.
pub mod RoundTrip
use inerceptor_command_sim.Base.{
  ℕ, suc, ◌+◌, ◌-◌, ◌*◌, ◌%◌, ◌^◌, Bool, true, false, ◌&&◌, List, [], ◌∷◌, Option, none, some, ltb,
  leb, ◌==◌, if◌then◌else◌,
}
use inerceptor_command_sim.Base.Decimal.{nat_to_string, int_to_string}
use inerceptor_command_sim.Base.Int.{ℤ, pos, negsuc, sub_ℕ}
use inerceptor_command_sim.Base.Result.{Result, ok, throws, ◌>>=◌}
use inerceptor_command_sim.Base.Text.{Text, bytes, text_eq}
use inerceptor_command_sim.Base.Word.{u32_mod, u64_mod}

abbrev pub is_digit : ℕ → Bool
is_digit c = leb b'0' c && leb c b'9'

-- The value of the longest prefix of digits, behind digits of the value `acc`.
unfoldable pub prefix_value : ℕ → Text → ℕ
prefix_value acc [] = acc
prefix_value acc (c ∷ rest) =
    let more = prefix_value (acc * 10 + (c - b'0')) rest in if is_digit c then more else acc

abbrev pub starts_with_digit : Text → Bool
starts_with_digit [] = false
starts_with_digit (c ∷ rest) = is_digit c

-- std::from_chars for an unsigned type with `limit` values.
unfoldable pub from_chars : ℕ → Text → Option ℕ
from_chars limit text =
    let value = prefix_value 0 text in
    if starts_with_digit text && ltb value limit then some value else none

unfoldable pub parse_u64 : Text → Result ℕ
parse_u64 text = elim (from_chars u64_mod text) [
  | none ↦ throws (bytes "invalid uint64 field")
  | some v ↦ ok v
]

unfoldable pub parse_u32 : Text → Result ℕ
parse_u32 text = elim (from_chars u32_mod text) [
  | none ↦ throws (bytes "invalid uint32 field")
  | some v ↦ ok v
]

-- The integer -n.
abbrev negated : ℕ → ℤ
negated n = sub_ℕ 0 n

-- std::from_chars for std::int64_t: a minus sign may stand in front.
unfoldable pub from_chars_i64 : Text → Option ℤ
from_chars_i64 [] = none
from_chars_i64 (c ∷ rest) =
    if c == b'-'
    then elim (from_chars (2 ^ 63 + 1) rest) [ none ↦ none | some v ↦ some (negated v) ]
    else elim (from_chars (2 ^ 63) (c ∷ rest)) [ none ↦ none | some v ↦ some (pos v) ]

unfoldable pub parse_i64 : Text → Result ℤ
parse_i64 text = elim (from_chars_i64 text) [
  | none ↦ throws (bytes "invalid int64 field")
  | some v ↦ ok v
]

-- static_cast<int> of a std::int64_t: the low 32 bits, as a two's complement number.
unfoldable pub to_int : ℤ → ℤ
to_int (pos n) =
    let low = n % u32_mod in if ltb low (2 ^ 31) then pos low else negsuc (u32_mod - 1 - low)
to_int (negsuc n) =
    let low = n % u32_mod in if ltb low (2 ^ 31) then negsuc low else pos (u32_mod - 1 - low)

-- as_string(bool) and parse_bool.
unfoldable pub bool_to_string : Bool → Text
bool_to_string true = bytes "true"
bool_to_string false = bytes "false"

unfoldable pub parse_bool : Text → Result Bool
parse_bool text =
    if text_eq text (bytes "true")
    then ok true
    else if text_eq text (bytes "false")
    then ok false
    else throws (bytes "invalid bool field")
