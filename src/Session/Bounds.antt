-- ===== src/Session/Bounds.antt =====
-- The world's bounds: what the clamping of the positions guarantees.
use inerceptor_command_sim.Base.{◌≡◌, inl, inr, Bool-cases, true, false, ◌&&◌, ◌||◌, arith}
use inerceptor_command_sim.Base.Int.{pos, ◌-ℤ◌}
use inerceptor_command_sim.Floats.{FloatOps, float_zero, float_max}
use inerceptor_command_sim.Core.Types.{is_intercepting}
use inerceptor_command_sim.Session.Geometry.{clampf, bounce_world_axis}
use inerceptor_command_sim.Session.State.{Session}
use inerceptor_command_sim.Session.Tick.{move_interceptor}

module _ {A : Type 0} (F : FloatOps A) where
  -- Neither below `lo` nor above `hi`.
  abbrev pub IsWithin : A → A → A → Type 0
  IsWithin lo hi x = (F.lt x lo ≡ false) × (F.lt hi x ≡ false)

  -- What is used of the float order: it is asymmetric (also on NaN, where every test fails).
  abbrev pub IsAsymmetric : Type 0
  IsAsymmetric = (a b : A) → F.lt a b ≡ true → F.lt b a ≡ false

  irreflexive : IsAsymmetric → (a : A) → F.lt a a ≡ false
  irreflexive asym a = ground (arith, asym a a)

  -- clampf stays in its interval, whatever the value is, if the interval is not empty.
  pub clampf_bounds :
      (value lo hi : A) → IsAsymmetric → F.lt hi lo ≡ false → IsWithin lo hi (clampf F value lo hi)
  unfolding clampf
  clampf_bounds value lo hi asym h =
      ground
        (arith, asym lo hi, asym lo value, asym hi value, irreflexive asym lo, irreflexive asym hi)

  -- After a tick's motion an interceptor in flight lies in the world: neither coordinate is below 0
  -- or above the world's last column or row, provided that the float order is asymmetric and that
  -- the world is not empty in the floats.
  pub move_interceptor_bounds :
      (s : Session A)
      → IsAsymmetric
      → F.lt (F.of_int (s.scenario.world_width -ℤ pos 1)) (float_zero F) ≡ false
      → F.lt (F.of_int (s.scenario.world_height -ℤ pos 1)) (float_zero F) ≡ false
      → (is_intercepting s.phase && s.asset.active) ≡ true
      → let t = move_interceptor F s in
        IsWithin (float_zero F) (F.of_int (s.scenario.world_width -ℤ pos 1)) t.asset_world.x
        × IsWithin (float_zero F) (F.of_int (s.scenario.world_height -ℤ pos 1)) t.asset_world.y
  unfolding move_interceptor
  move_interceptor_bounds s asym hw hh flying =
      rw flying (clampf_bounds _ _ _ asym hw, clampf_bounds _ _ _ asym hh)

  clampf_point : (value at : A) → IsAsymmetric → clampf F value at at ≡ at
  unfolding clampf
  clampf_point value at asym = ground (arith, irreflexive asym at)

  -- A position at rest is clamped to the larger of 0 and the last row or column.
  rest_bounds :
      (position last : A)
      → IsAsymmetric
      → F.lt last (float_zero F) ≡ false
      → IsWithin
          (float_zero F)
          last
          (clampf F position (float_zero F) (float_max F (float_zero F) last))
  rest_bounds position last asym h = elim (Bool-cases (F.lt (float_zero F) last)) [
    | inl wide ↦ rw wide (clampf_bounds position (float_zero F) last asym h)
    | inr point ↦
        rw (point, clampf_point position (float_zero F) asym) (irreflexive asym (float_zero F), h)
  ]

  -- A bounce leaves the coordinate between 0 and limit - 1, whichever edge was met, provided that
  -- the float order is asymmetric and that limit - 1 is not below 0.
  pub bounce_bounds :
      (position velocity limit : A)
      → IsAsymmetric
      → F.lt (F.sub limit (F.decimal 10 1)) (float_zero F) ≡ false
      → IsWithin
          (float_zero F)
          (F.sub limit (F.decimal 10 1))
          (bounce_world_axis F position velocity limit).0
  unfolding bounce_world_axis
  bounce_bounds position velocity limit asym h =
      let last = F.sub limit (F.decimal 10 1) in
      elim (Bool-cases (F.le limit (F.decimal 10 1) || F.eq velocity (float_zero F))) [
        | inl still ↦ rw still (rest_bounds position last asym h)
        | inr moving ↦ rw moving (
            ground (
              arith,
              clampf_bounds (F.neg (F.add position velocity)) (float_zero F) last asym h,
              clampf_bounds (F.sub last (F.sub (F.add position velocity) last)) (float_zero F) last
                  asym h,
              clampf_bounds (F.add position velocity) (float_zero F) last asym h,
            ))
      ]
