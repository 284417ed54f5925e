-- ===== src/Protocol/Numbers/RoundTrip.antt =====
-- Numbers and Booleans are read back from their text.
use inerceptor_command_sim.Base.{
  ℕ, zero, suc, ◌+◌, ◌-◌, ◌*◌, ◌/◌, ◌%◌, ◌^◌, ◌≤◌, ◌<◌, ◌≡◌, refl, inl, inr, Bool, true, false, [],
  ◌∷◌, ◌++◌, some, ltb, arith, Bool-cases, All, All-append,
}
use mathlib.Core.Option
use inerceptor_command_sim.Base.Decimal.{digits, nat_to_string, int_to_string}
use inerceptor_command_sim.Base.Int.{ℤ, pos, negsuc}
use inerceptor_command_sim.Base.Result.{ok}
use inerceptor_command_sim.Base.Text.{Text, bytes, text_eq}
use inerceptor_command_sim.Base.Word.{u32_mod, u64_mod}
use inerceptor_command_sim.Protocol.Numbers.{
  is_digit, prefix_value, starts_with_digit, from_chars, parse_u64, parse_u32, from_chars_i64,
  parse_i64, to_int, bool_to_string, parse_bool,
}

abbrev pub IsDigit : ℕ → Type 0
IsDigit c = (b'0' ≤ c) × (c ≤ b'9')

pub digits-IsDigit : (fuel n : ℕ) → All IsDigit (digits fuel n)
unfolding digits
digits-IsDigit zero n = tt
digits-IsDigit (suc fuel) n = elim (Bool-cases (ltb n 10)) [
  | inl small ↦ rw small ((omega arith, ground arith), tt)
  | inr large ↦ rw large (
      All-append IsDigit (digits fuel (n / 10)) ((b'0' + n % 10) ∷ [])
        (digits-IsDigit fuel (n / 10)) ((omega arith, omega arith), tt))
]

prefix_value-append :
    (acc : ℕ) (xs ys : Text)
    → All IsDigit xs
    → prefix_value acc (xs ++ ys) ≡ prefix_value (prefix_value acc xs) ys
unfolding prefix_value
prefix_value-append acc [] ys h = refl
prefix_value-append acc (c ∷ xs) ys h =
    let t : is_digit c ≡ true = ground arith in
    rw t (prefix_value-append (acc * 10 + (c - b'0')) xs ys h.1)

prefix_value-digits : (fuel n : ℕ) → n < fuel → prefix_value 0 (digits fuel n) ≡ n
unfolding digits
prefix_value-digits zero n h = absurd (omega arith)
prefix_value-digits (suc fuel) n h = elim (Bool-cases (ltb n 10)) [
  | inl small ↦ rw small (unfold prefix_value in ground arith)
  | inr large ↦
      rw
        (
          large,
          prefix_value-append 0 (digits fuel (n / 10)) ((b'0' + n % 10) ∷ [])
              (digits-IsDigit fuel (n / 10)),
          prefix_value-digits fuel (n / 10) (ground arith),
        )
        (unfold prefix_value in ground arith)
]

starts-append :
    (xs : Text) (c : ℕ) → All IsDigit xs → IsDigit c → starts_with_digit (xs ++ c ∷ []) ≡ true
starts-append [] c h k = ground arith
starts-append (d ∷ xs) c h k = ground arith

starts-digits : (fuel n : ℕ) → starts_with_digit (digits (suc fuel) n) ≡ true
unfolding digits
starts-digits fuel n = elim (Bool-cases (ltb n 10)) [
  | inl small ↦ rw small (ground arith)
  | inr large ↦ rw large (
      starts-append (digits fuel (n / 10)) (b'0' + n % 10) (digits-IsDigit fuel (n / 10))
        (omega arith, omega arith))
]

pub from_chars-nat_to_string :
    (limit n : ℕ) → n < limit → from_chars limit (nat_to_string n) ≡ some n
unfolding from_chars nat_to_string
from_chars-nat_to_string limit n h =
    let t : ltb n limit ≡ true = ground arith in
    rw (starts-digits n n, prefix_value-digits (suc n) n (omega arith), t) refl

-- Every std::uint64_t is read back from its text.
pub parse_u64-nat_to_string : (n : ℕ) → n < u64_mod → parse_u64 (nat_to_string n) ≡ ok n
unfolding parse_u64
parse_u64-nat_to_string n h = rw (from_chars-nat_to_string u64_mod n h, parse_u64) refl

-- Every std::uint32_t is read back from its text.
pub parse_u32-nat_to_string : (n : ℕ) → n < u32_mod → parse_u32 (nat_to_string n) ≡ ok n
unfolding parse_u32
parse_u32-nat_to_string n h = rw (from_chars-nat_to_string u32_mod n h, parse_u32) refl

pub parse_bool-bool_to_string : (b : Bool) → parse_bool (bool_to_string b) ≡ ok b
unfolding parse_bool bool_to_string text_eq bytes
parse_bool-bool_to_string true = refl
parse_bool-bool_to_string false = refl

-- An int: -2^31 ≤ z < 2^31.
abbrev pub IsInt : ℤ → Type 0
IsInt (pos n) = n < 2 ^ 31
IsInt (negsuc n) = n < 2 ^ 31

from_chars_i64-digit :
    (text : Text)
    → starts_with_digit text ≡ true
    → from_chars_i64 text ≡ Option.map pos (from_chars (2 ^ 63) text)
unfolding from_chars_i64
from_chars_i64-digit [] h = cc
from_chars_i64-digit (c ∷ rest) h = ground arith

starts-nat_to_string : (n : ℕ) → starts_with_digit (nat_to_string n) ≡ true
unfolding nat_to_string
starts-nat_to_string n = starts-digits n n

-- Every int (between -2^31 and 2^31) is read back from its text as a std::int64_t.
pub parse_i64-int_to_string : (z : ℤ) → IsInt z → parse_i64 (int_to_string z) ≡ ok z
unfolding parse_i64 int_to_string from_chars_i64
parse_i64-int_to_string (pos n) h =
    rw
      (
        from_chars_i64-digit (nat_to_string n) (starts-nat_to_string n),
        from_chars-nat_to_string (2 ^ 63) n (omega arith),
        parse_i64,
      )
      refl
parse_i64-int_to_string (negsuc n) h =
    rw (from_chars-nat_to_string (2 ^ 63 + 1) (suc n) (omega arith), parse_i64, from_chars_i64)
      (ground arith)

pub to_int-IsInt : (z : ℤ) → IsInt z → to_int z ≡ z
unfolding to_int
to_int-IsInt (pos n) h = ground arith
to_int-IsInt (negsuc n) h = ground arith
