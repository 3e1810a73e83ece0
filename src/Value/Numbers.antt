-- ===== src/Value/Numbers.antt =====
-- Floats as whole numbers of millionths, with the infinities and NaN, which compare as in Python.
use embodied_skill_ros.Prelude.{Bool, false, if◌then◌else◌, true, ◌*◌, ◌+◌, ◌||◌}
use embodied_skill_ros.Prelude.Int.{eqb_ℤ, ltb_ℤ, negsuc, pos, ℤ, ◌+ℤ◌, ◌-ℤ◌}

pub data Float : Type 0 where
  finite : ℤ → Float
  pos_inf neg_inf nan : Float

-- An integer as a number of millionths.
unfoldable pub scale : ℤ → ℤ
scale (pos n) = pos (n * 1000000)
scale (negsuc n) = negsuc (n * 1000000 + 999999)

unfoldable pub negate : Float → Float
negate (finite a) = finite (pos 0 -ℤ a)
negate pos_inf = neg_inf
negate neg_inf = pos_inf
negate nan = nan

-- x + y
unfoldable pub plus : Float → Float → Float
plus (finite a) (finite b) = finite (a +ℤ b)
plus (finite _) y = y
plus pos_inf (finite _) = pos_inf
plus pos_inf pos_inf = pos_inf
plus neg_inf (finite _) = neg_inf
plus neg_inf neg_inf = neg_inf
plus _ _ = nan

-- x - y
unfoldable pub minus : Float → Float → Float
unfolding plus negate ◌+ℤ◌ ◌-ℤ◌
minus x y = plus x (negate y)

-- abs(x)
unfoldable pub absolute : Float → Float
unfolding ◌-ℤ◌
absolute (finite a) = if ltb_ℤ a (pos 0) then finite (pos 0 -ℤ a) else finite a
absolute neg_inf = pos_inf
absolute x = x

-- x < y; false where one side is NaN
unfoldable pub lt_float : Float → Float → Bool
lt_float (finite a) (finite b) = ltb_ℤ a b
lt_float (finite _) pos_inf = true
lt_float neg_inf (finite _) = true
lt_float neg_inf pos_inf = true
lt_float _ _ = false

-- x == y; false where one side is NaN
unfoldable pub eq_float : Float → Float → Bool
eq_float (finite a) (finite b) = eqb_ℤ a b
eq_float pos_inf pos_inf = true
eq_float neg_inf neg_inf = true
eq_float _ _ = false

-- x <= y
unfoldable pub le_float : Float → Float → Bool
unfolding lt_float eq_float
le_float x y = lt_float x y || eq_float x y

-- math.isfinite(x)
unfoldable pub is_finite : Float → Bool
is_finite (finite _) = true
is_finite _ = false

-- repr(x) == repr(y)
unfoldable pub same_float : Float → Float → Bool
same_float (finite a) (finite b) = eqb_ℤ a b
same_float pos_inf pos_inf = true
same_float neg_inf neg_inf = true
same_float nan nan = true
same_float _ _ = false
