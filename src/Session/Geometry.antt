-- ===== src/Session/Geometry.antt =====
-- common/src/simulation_support.cpp: the float geometry of the simulation.
use inerceptor_command_sim.Base.{ℕ, zero, suc, ◌&&◌, ◌||◌, if◌then◌else◌}
use inerceptor_command_sim.Floats.{FloatOps, float_zero, float_min, float_max}
use inerceptor_command_sim.Core.Types.{Vec2f}

module _ {A : Type 0} (F : FloatOps A) where
  unfoldable pub clampf : A → A → A → A
  clampf value lo hi = float_max F lo (float_min F value hi)

  -- The two reference parameters, position and velocity, are returned as a pair.
  unfoldable pub bounce_world_axis : A → A → A → A × A
  unfolding clampf
  bounce_world_axis position velocity limit =
      let one = F.decimal 10 1 in
      let last = F.sub limit one in
      let moved = F.add position velocity in
      if F.le limit one || F.eq velocity (float_zero F)
      then (clampf position (float_zero F) (float_max F (float_zero F) last), velocity)
      else if F.lt moved (float_zero F)
      then (clampf (F.neg moved) (float_zero F) last, F.mul velocity (F.neg one))
      else if F.lt last moved
      then (clampf (F.sub last (F.sub moved last)) (float_zero F) last, F.mul velocity (F.neg one))
      else (clampf moved (float_zero F) last, velocity)

  unfoldable pub length : Vec2f A → A
  length v = F.sqrt (F.add (F.mul v.x v.x) (F.mul v.y v.y))

  unfoldable pub subtract : Vec2f A → Vec2f A → Vec2f A
  subtract lhs rhs = record { x = F.sub lhs.x rhs.x; y = F.sub lhs.y rhs.y }

  unfoldable pub add : Vec2f A → Vec2f A → Vec2f A
  add lhs rhs = record { x = F.add lhs.x rhs.x; y = F.add lhs.y rhs.y }

  unfoldable pub scale : Vec2f A → A → Vec2f A
  scale v scalar = record { x = F.mul v.x scalar; y = F.mul v.y scalar }

  -- The value {0.0F, 0.0F}, also of a value-initialised Vec2f.
  abbrev pub zero_vec : Vec2f A
  zero_vec = record { x = float_zero F; y = float_zero F }

  unfoldable pub normalize : Vec2f A → Vec2f A
  normalize v =
      let magnitude = length v in
      if F.le magnitude (F.decimal 1 5)
      then zero_vec
      else record { x = F.div v.x magnitude; y = F.div v.y magnitude }

  -- The degrees of a radian: `* 180.0F / 3.1415926535F`.
  unfoldable pub heading_deg : Vec2f A → A
  heading_deg v =
      if F.le (F.abs v.x) (F.decimal 1 5) && F.le (F.abs v.y) (F.decimal 1 5)
      then float_zero F
      else F.div (F.mul (F.atan2 v.y v.x) (F.decimal 1800 1)) (F.decimal 31415926535 10)

  -- `while (value > 180.0F) value -= 360.0F;`, on fuel.
  unfoldable pub wrap_down : ℕ → A → A
  wrap_down zero value = value
  wrap_down (suc fuel) value =
      let rest = wrap_down fuel (F.sub value (F.decimal 3600 1)) in
      if F.lt (F.decimal 1800 1) value then rest else value

  -- `while (value < -180.0F) value += 360.0F;`, on fuel.
  unfoldable pub wrap_up : ℕ → A → A
  wrap_up zero value = value
  wrap_up (suc fuel) value =
      let rest = wrap_up fuel (F.add value (F.decimal 3600 1)) in
      if F.lt value (F.neg (F.decimal 1800 1)) then rest else value

  -- A difference of two headings is at most 360 degrees either way, so a round of each loop is
  -- enough; the fuel leaves room.
  unfoldable pub normalize_angle_deg : A → A
  unfolding wrap_down wrap_up
  normalize_angle_deg value = wrap_up 4 (wrap_down 4 value)

  unfoldable pub covariance_trace : Vec2f A → Vec2f A → A
  covariance_trace position_variance velocity_variance =
      F.add (F.add (F.add position_variance.x position_variance.y) velocity_variance.x)
        velocity_variance.y

  unfoldable pub deterministic_noise : ℕ → Vec2f A
  deterministic_noise tick =
      let phase = F.of_u64 tick in
      record {
        x = F.mul (F.sin (F.add (F.mul phase (F.decimal 63 2)) (F.decimal 4 1))) (F.decimal 35 1);
        y = F.mul (F.cos (F.add (F.mul phase (F.decimal 47 2)) (F.decimal 9 1))) (F.decimal 30 1);
      }
