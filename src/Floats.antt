-- ===== src/Floats.antt =====
-- The `float` type and the <cmath> functions that the simulator uses, as an interface: IEEE
-- arithmetic and the mathematical library are not under the repository's control. A theorem that
-- needs a fact about floats names it as a hypothesis.
use inerceptor_command_sim.Base.{ℕ, Bool, if◌then◌else◌}
use inerceptor_command_sim.Base.Int.{ℤ}
use inerceptor_command_sim.Base.Result.{Result}
use inerceptor_command_sim.Base.Text.{Text}

pub record FloatOps (A : Type 0) : Type 0 where
  -- static_cast<float> of an int, and of a std::uint64_t.
  pub of_int : ℤ → A
  pub of_u64 : ℕ → A
  -- The literal with the digits m and e digits behind the point: `decimal 28 2` is 0.28F.
  pub decimal : ℕ → ℕ → A
  pub add : A → A → A
  pub sub : A → A → A
  pub mul : A → A → A
  pub div : A → A → A
  pub neg : A → A
  pub abs : A → A
  pub sqrt : A → A
  pub cos : A → A
  pub sin : A → A
  pub atan2 : A → A → A
  pub lt : A → A → Bool
  pub le : A → A → Bool
  pub eq : A → A → Bool
  -- static_cast<int>(std::lround(x)).
  pub lround : A → ℤ
  -- std::to_string, and std::stof, which throws on a text that is no number.
  pub to_string : A → Text
  pub stof : Text → Result A

module _ {A : Type 0} (F : FloatOps A) where
  abbrev pub float_zero : A
  float_zero = F.decimal 0 0

  -- std::min(a, b) and std::max(a, b): the first argument unless the second is better.
  abbrev pub float_min : A → A → A
  float_min a b = if F.lt b a then b else a

  abbrev pub float_max : A → A → A
  float_max a b = if F.lt a b then b else a
