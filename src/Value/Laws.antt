-- ===== src/Value/Laws.antt =====
-- Laws of the comparisons of Python values.
use embodied_skill_ros.Prelude.{arith, false, refl, true, ◌≡◌, ◌≢◌}
use embodied_skill_ros.Prelude.Int.{eqb_ℤ, ℤ}
use embodied_skill_ros.Value.Numbers.{Float, finite, le_float, lt_float, nan, neg_inf, pos_inf}

-- A test `x > y` that fails and a test `x <= y` that holds differ at NaN alone.
pub le_float_of_not_lt :
    (x y : Float) → x ≢ nan → y ≢ nan → lt_float y x ≡ false → le_float x y ≡ true
unfolding lt_float le_float
le_float_of_not_lt (finite a) (finite b) hx hy h = ground arith
le_float_of_not_lt nan y hx hy h = absurd (hx refl)
le_float_of_not_lt pos_inf nan hx hy h = absurd (hy refl)
le_float_of_not_lt neg_inf nan hx hy h = absurd (hy refl)
le_float_of_not_lt (finite a) nan hx hy h = absurd (hy refl)
le_float_of_not_lt _ _ hx hy h = ground arith

pub not_lt_of_le_float : (x y : Float) → le_float x y ≡ true → lt_float y x ≡ false
unfolding lt_float le_float
not_lt_of_le_float (finite a) (finite b) h = ground arith
not_lt_of_le_float _ _ h = ground arith

-- Every comparison with NaN fails.
pub lt_float-nan : (x : Float) → lt_float x nan ≡ false
unfolding lt_float
lt_float-nan (finite a) = refl
lt_float-nan _ = refl

pub eq_int_refl : (a : ℤ) → eqb_ℤ a a ≡ true
eq_int_refl a = ground arith
