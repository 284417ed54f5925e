-- ===== src/Protocol/Fields/Percent.antt =====
-- The percent encoding of field values.
use inerceptor_command_sim.Base.{
  ℕ, ◌+◌, ◌*◌, ◌/◌, ◌%◌, ◌<◌, ◌≡◌, refl, ap, false, [], ◌∷◌, inl, inr, arith, ◌==◌, Bool-cases, All,
}
use inerceptor_command_sim.Base.Result.{ok, ◌>>=◌}
use inerceptor_command_sim.Base.Text.{Text}
use inerceptor_command_sim.Protocol.Fields.{
  is_escaped, hex_digit, encode_field_value, hex, decode_field_value,
}

abbrev pub IsByte : ℕ → Type 0
IsByte b = b < 256

hex-hex_digit : (d : ℕ) → d < 16 → hex (hex_digit d) ≡ ok d
unfolding hex hex_digit
hex-hex_digit d h = ground arith

decode_plain :
    (c : ℕ) (s : Text)
    → (c == b'%') ≡ false
    → decode_field_value (c ∷ s) ≡ (decode_field_value s >>= λ r. ok (c ∷ r))
unfolding decode_field_value
decode_plain c [] h = refl
decode_plain c (d ∷ []) h = refl
decode_plain c (d ∷ e ∷ s) h = rw (h, decode_field_value) refl

decode_escape :
    (d e high low : ℕ) (s : Text)
    → hex d ≡ ok high
    → hex e ≡ ok low
    → decode_field_value (b'%' ∷ d ∷ e ∷ s)
      ≡ (decode_field_value s >>= λ r. ok ((high * 16 + low) ∷ r))
unfolding decode_field_value
decode_escape d e high low s p q = rw (p, q) refl

-- Every text of bytes is decoded to itself after encoding.
pub decode-encode_field_value :
    (value : Text) → All IsByte value → decode_field_value (encode_field_value value) ≡ ok value
unfolding encode_field_value
decode-encode_field_value [] h = unfold decode_field_value in refl
decode-encode_field_value (ch ∷ rest) h =
    let ih = decode-encode_field_value rest h.1 in
    elim (Bool-cases (is_escaped ch)) [
      | inl special ↦
          rw
            (
              special,
              decode_escape _ _ (ch / 16) (ch % 16) (encode_field_value rest)
                  (hex-hex_digit (ch / 16) (omega arith)) (hex-hex_digit (ch % 16) (omega arith)),
              ih,
            )
            (ap (λ b. ok (b ∷ rest)) (omega arith))
      | inr plain ↦
          rw
            (
              plain,
              decode_plain ch (encode_field_value rest) (unfold is_escaped in ground arith),
              ih,
            )
            refl
    ]

-- An encoded value holds neither of the two separators.
pub encode_field_value-IsClean :
    (value : Text)
    → All (λ b. ((b == b';') ≡ false) × ((b == b'=') ≡ false)) (encode_field_value value)
unfolding encode_field_value is_escaped hex_digit
encode_field_value-IsClean [] = tt
encode_field_value-IsClean (ch ∷ rest) = ground (arith, encode_field_value-IsClean rest)
