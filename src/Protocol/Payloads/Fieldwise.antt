-- ===== src/Protocol/Payloads/Fieldwise.antt =====
-- The fields of a payload, one by one: each is clean, and the envelope is read back.
use Prim.Native.String.{String}
use inerceptor_command_sim.Base.{
  ℕ, suc, ◌<◌, ◌≡◌, refl, Bool, true, false, ◌&&◌, not, List, [], ◌∷◌, arith, ltb, ◌==◌, All,
}
use inerceptor_command_sim.Base.Decimal.{digits, nat_to_string, int_to_string}
use inerceptor_command_sim.Base.Int.{ℤ, pos, negsuc}
use inerceptor_command_sim.Base.Result.{ok}
use inerceptor_command_sim.Base.Text.{Text, bytes, text_eq}
use inerceptor_command_sim.Base.Word.{u32_mod, u64_mod}
use inerceptor_command_sim.Protocol.Messages.{SessionEnvelope}
use inerceptor_command_sim.Protocol.Fields.{find, require}
use inerceptor_command_sim.Protocol.Fields.Percent.{IsByte}
use inerceptor_command_sim.Protocol.Fields.Wire.{Lacks, IsField, lookup}
use inerceptor_command_sim.Protocol.Numbers.{bool_to_string}
use inerceptor_command_sim.Protocol.Numbers.RoundTrip.{
  IsDigit, digits-IsDigit, parse_u32-nat_to_string, parse_u64-nat_to_string,
}
use inerceptor_command_sim.Protocol.Payloads.Envelope.{parse_envelope, with_envelope, pair}

-- The numbers of an envelope fit their types.
pub record IsEnvelope (e : SessionEnvelope) : Type 0 where
  pub session_id_fits : e.session_id < u32_mod
  pub sender_id_fits : e.sender_id < u32_mod
  pub sequence_fits : e.sequence < u64_mod

-- A text of bytes that holds no separator.
unfoldable pub is_clean : Text → Bool
is_clean [] = true
is_clean (c ∷ rest) = ltb c 256 && (not (c == b';') && (not (c == b'=') && is_clean rest))

clean-Lacks : (s : Text) → is_clean s ≡ true → Lacks b';' s × Lacks b'=' s × All IsByte s
unfolding is_clean
clean-Lacks [] h = (tt, tt, tt)
clean-Lacks (c ∷ rest) h = ground (arith, clean-Lacks rest)

digits-IsByte : (s : Text) → All IsDigit s → All IsByte s
digits-IsByte [] h = tt
digits-IsByte (c ∷ s) h = (omega arith, digits-IsByte s h.1)

nat_to_string-IsByte : (n : ℕ) → All IsByte (nat_to_string n)
unfolding nat_to_string
nat_to_string-IsByte n = digits-IsByte (digits (suc n) n) (digits-IsDigit (suc n) n)

pub text-IsField :
    (key : Text) (value : Text) → is_clean key ≡ true → All IsByte value → IsField (key, value)
text-IsField key value h k = ((clean-Lacks key h).0, (clean-Lacks key h).1, k)

pub number-IsField : (key : Text) (n : ℕ) → is_clean key ≡ true → IsField (key, nat_to_string n)
number-IsField key n h = text-IsField key (nat_to_string n) h (nat_to_string-IsByte n)

pub bool-IsField : (key : Text) (b : Bool) → is_clean key ≡ true → IsField (key, bool_to_string b)
unfolding bool_to_string bytes is_clean
bool-IsField key true h = text-IsField key (bytes "true") h (clean-Lacks (bytes "true") refl).2
bool-IsField key false h = text-IsField key (bytes "false") h (clean-Lacks (bytes "false") refl).2

pub int-IsField : (key : Text) (z : ℤ) → is_clean key ≡ true → IsField (key, int_to_string z)
unfolding int_to_string
int-IsField key (pos n) h = number-IsField key n h
int-IsField key (negsuc n) h =
    text-IsField key (int_to_string (negsuc n)) h (omega arith, nat_to_string-IsByte (suc n))

pub kind-IsField :
    (kind : String) → is_clean (bytes kind) ≡ true → IsField (pair "kind" (bytes kind))
unfolding is_clean bytes
kind-IsField kind h = text-IsField (bytes "kind") (bytes kind) refl (clean-Lacks (bytes kind) h).2

pub envelope_fields :
    (kind : String) (e : SessionEnvelope) (fields : List (Text × Text))
    → is_clean (bytes kind) ≡ true
    → All IsField fields
    → All IsField (with_envelope kind e fields)
unfolding is_clean bytes
envelope_fields kind e fields h k = (
  kind-IsField kind h,
  (
    number-IsField (bytes "session_id") e.session_id refl,
    (
      number-IsField (bytes "sender_id") e.sender_id refl,
      (number-IsField (bytes "sequence") e.sequence refl, k),
    ),
  ),
)

-- The envelope is read back, whatever fields follow it.
pub parse_envelope-with_envelope :
    (kind : String) (e : SessionEnvelope) (fields : List (Text × Text))
    → IsEnvelope e
    → parse_envelope (lookup (with_envelope kind e fields)) ≡ ok e
unfolding parse_envelope require find bytes text_eq
parse_envelope-with_envelope kind e fields h =
    rw
      (
        parse_u32-nat_to_string e.session_id h.session_id_fits,
        parse_u32-nat_to_string e.sender_id h.sender_id_fits,
        parse_u64-nat_to_string e.sequence h.sequence_fits,
      )
      refl
