-- ===== src/Tests/Sample.antt =====
-- Concrete data: whole numbers in place of floats, and a session brought to its fire order.
use inerceptor_command_sim.Base.{ℕ, ◌+◌, ◌*◌, ◌/◌, ◌^◌, List, [], ◌∷◌, if◌then◌else◌, ◌&&◌, not}
use inerceptor_command_sim.Base.Int.{ℤ, pos, pos_part, neg_part, sub_ℕ, ltb_ℤ, ◌-ℤ◌}
use inerceptor_command_sim.Base.Decimal.{int_to_string}
use inerceptor_command_sim.Protocol.Numbers.{parse_i64}
use inerceptor_command_sim.Base.Text.{bytes}
use inerceptor_command_sim.Floats.{FloatOps}
use inerceptor_command_sim.Core.Config.{ScenarioConfig, default_scenario}
use inerceptor_command_sim.Core.Types.{ClientRole}
use inerceptor_command_sim.Session.State.{Session, new_session}
use inerceptor_command_sim.Session.Run.{Call, step}

abbrev minus : ℤ → ℤ
minus a = sub_ℕ (neg_part a) (pos_part a)

abbrev times : ℤ → ℤ → ℤ
times a b =
    sub_ℕ (pos_part a * pos_part b + neg_part a * neg_part b)
      (pos_part a * neg_part b + neg_part a * pos_part b)

abbrev magnitude : ℤ → ℕ
magnitude a = pos_part a + neg_part a

abbrev quotient : ℤ → ℤ → ℤ
quotient a b =
    let q = magnitude a / magnitude b in if ltb_ℤ (times a b) (pos 0) then minus (pos q) else pos q

-- A crude arithmetic: whole numbers, the nearest integer below a root, and angles of 0.
abbrev pub whole_numbers : FloatOps ℤ
whole_numbers = record {
  of_int = λ a. a;
  of_u64 = λ n. pos n;
  decimal = λ m e. pos (m / 10 ^ e);
  add = λ a b. a -ℤ minus b;
  sub = λ a b. a -ℤ b;
  mul = times;
  div = quotient;
  neg = minus;
  abs = λ a. pos (magnitude a);
  sqrt = λ a. a;
  cos = λ a. pos 1;
  sin = λ a. pos 0;
  atan2 = λ y x. pos 0;
  lt = ltb_ℤ;
  le = λ a b. not (ltb_ℤ b a);
  eq = λ a b. not (ltb_ℤ a b) && not (ltb_ℤ b a);
  lround = λ a. a;
  to_string = int_to_string;
  stof = parse_i64;
}

-- The default scenario with a timeout of three ticks.
abbrev pub short_scenario : ScenarioConfig
short_scenario = record default_scenario { engagement_timeout_ticks = pos 3 }

abbrev pub fresh : Session ℤ
fresh = new_session whole_numbers 1001 (pos 20) (pos 200) short_scenario

abbrev pub connected : Session ℤ
connected = step whole_numbers 1 (Call.connects ClientRole.fire_control_console 101) fresh

abbrev pub started : Session ℤ
started = step whole_numbers 2 Call.starts connected

abbrev pub tracked : Session ℤ
tracked = step whole_numbers 3 Call.requests_track started

abbrev pub armed : Session ℤ
armed = step whole_numbers 4 Call.activates tracked

abbrev pub ordered : Session ℤ
ordered = step whole_numbers 5 Call.issues armed

abbrev pub history : List (ℕ × Call)
history =
    (1, Call.connects ClientRole.fire_control_console 101)
    ∷ (2, Call.starts)
    ∷ (3, Call.requests_track)
    ∷ (4, Call.activates)
    ∷ (5, Call.issues)
    ∷ (6, Call.ticks)
    ∷ (7, Call.requests_track)
    ∷ (8, Call.resets (bytes "again"))
    ∷ []
