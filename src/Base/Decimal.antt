-- ===== src/Base/Decimal.antt =====
-- `std::to_string` of an integer: its decimal digits, with a minus sign for a negative one.
use inerceptor_command_sim.Base.{ℕ, zero, suc, ◌+◌, ◌/◌, ◌%◌, ltb, if◌then◌else◌, [], ◌∷◌, ◌++◌}
use inerceptor_command_sim.Base.Int.{ℤ, pos, negsuc}
use inerceptor_command_sim.Base.Text.{Text}

-- The digits of `n`; a fuel above `n` is enough, since each round divides `n` by ten.
unfoldable pub digits : ℕ → ℕ → Text
digits zero n = []
digits (suc fuel) n =
    let rest = digits fuel (n / 10) in
    if ltb n 10 then (b'0' + n) ∷ [] else rest ++ (b'0' + n % 10) ∷ []

unfoldable pub nat_to_string : ℕ → Text
unfolding digits
nat_to_string n = digits (suc n) n

unfoldable pub int_to_string : ℤ → Text
unfolding nat_to_string
int_to_string (pos n) = nat_to_string n
int_to_string (negsuc n) = b'-' ∷ nat_to_string (suc n)
