-- ===== src/Value/Agreement.antt =====
-- What it means that a value agrees with a promised one: for a float, that the numbers are not
-- further apart than what is allowed.
use embodied_skill_ros.Prelude.{
  Bool, Bool-cases, Option, ap, arith, false, if◌then◌else◌, inl, inr, none, none-ne-some, not,
  refl, some, subst, sym, true, ◌↔◌, ◌∙◌, ◌≡◌,
}
use embodied_skill_ros.Prelude.Int.{int_laws, ltb_ℤ, opposite_parts, pos, ℤ, ◌+ℤ◌, ◌-ℤ◌, ◌≤ℤ◌}
use embodied_skill_ros.Value.Numbers.{
  Float, absolute, eq_float, finite, le_float, lt_float, minus, nan, neg_inf, negate, plus, pos_inf,
}
use embodied_skill_ros.Value.{
  Value, agrees_within, as_number, bool, equals, float, floats, int, near, null, text, texts,
}

-- Two numbers are at most e apart.
abbrev pub IsNear : ℤ → ℤ → ℤ → Type 0
IsNear e a t = (a ≤ℤ t +ℤ e) × (t ≤ℤ a +ℤ e)

-- Their difference is NaN.
abbrev Unordered : Float → Float → Type 0
Unordered nan _ = Unit
Unordered (finite _) nan = Unit
Unordered (finite _) _ = ⊥
Unordered pos_inf pos_inf = Unit
Unordered pos_inf nan = Unit
Unordered pos_inf _ = ⊥
Unordered neg_inf neg_inf = Unit
Unordered neg_inf nan = Unit
Unordered neg_inf _ = ⊥

-- A number is not further from another than what is allowed: numbers that are at most that far
-- apart; and, since NaN compares with nothing, any two where the limit or their difference is NaN.
abbrev pub NotFar : Float → Float → Float → Type 0
NotFar pos_inf a t = Unit
NotFar nan a t = Unit
NotFar neg_inf a t = Unordered a t
NotFar (finite e) (finite a) (finite t) = IsNear e a t
NotFar (finite e) a t = Unordered a t

-- A value agrees with a target up to a whole number of millionths: a finite number near a finite
-- float, and an equal value for any target that is no float.
abbrev pub AgreesWith : ℤ → Value → Value → Type 0
AgreesWith e actual (float t) =
    (a : ℤ) × (z : ℤ) × (as_number actual ≡ some (finite a)) × (t ≡ finite z) × IsNear e a z
AgreesWith e actual target = equals actual target ≡ true

abs_ℤ : ℤ → ℤ
abs_ℤ d = if ltb_ℤ d (pos 0) then pos 0 -ℤ d else d

absolute_finite : (d : ℤ) → absolute (finite d) ≡ finite (abs_ℤ d)
unfolding absolute abs_ℤ
absolute_finite d = elim (Bool-cases (ltb_ℤ d (pos 0))) [ inl e ↦ rw e refl | inr e ↦ rw e refl ]

abs_ℤ-bounds : (e d : ℤ) → (ltb_ℤ e (abs_ℤ d) ≡ false) ↔ ((d ≤ℤ e) × (pos 0 -ℤ d ≤ℤ e))
unfolding abs_ℤ
abs_ℤ-bounds e d = elim (Bool-cases (ltb_ℤ d (pos 0))) [
  | inl below ↦ rw below (
    (λ h. (ground (arith, opposite_parts d), ground (arith, opposite_parts d))),
    (λ h. ground (arith, opposite_parts d)),
  )
  | inr above ↦ rw above (
    (λ h. (ground (arith, opposite_parts d), ground (arith, opposite_parts d))),
    (λ h. ground (arith, opposite_parts d)),
  )
]

bounds-IsNear :
    (e a t : ℤ) → ((a +ℤ (pos 0 -ℤ t) ≤ℤ e) × (pos 0 -ℤ (a +ℤ (pos 0 -ℤ t)) ≤ℤ e)) ↔ IsNear e a t
bounds-IsNear e a t =
    ((λ h. (omega int_laws, omega int_laws)), (λ h. (omega int_laws, omega int_laws)))

within_distance :
    (e a t : ℤ)
    → (lt_float (finite e) (absolute (finite (a +ℤ (pos 0 -ℤ t)))) ≡ false) ↔ IsNear e a t
unfolding lt_float
within_distance e a t =
    let d = a +ℤ (pos 0 -ℤ t) in
    rw (absolute_finite d) (
      (λ h. (bounds-IsNear e a t).0 ((abs_ℤ-bounds e d).0 h)),
      (λ h. (abs_ℤ-bounds e d).1 ((bounds-IsNear e a t).1 h)),
    )

passes : (false ≡ false) ↔ Unit {0}
passes = ((λ h. tt), (λ h. refl))

fails : (true ≡ false) ↔ ⊥
fails = ((λ h. cc), (λ h. absurd h))

pub within-NotFar :
    (allowed a t : Float) → (lt_float allowed (absolute (minus a t)) ≡ false) ↔ NotFar allowed a t
unfolding lt_float absolute minus plus negate
within-NotFar (finite e) (finite a) (finite t) = within_distance e a t
within-NotFar (finite e) (finite a) pos_inf = fails
within-NotFar pos_inf (finite a) pos_inf = passes
within-NotFar neg_inf (finite a) pos_inf = fails
within-NotFar nan (finite a) pos_inf = passes
within-NotFar (finite e) (finite a) neg_inf = fails
within-NotFar pos_inf (finite a) neg_inf = passes
within-NotFar neg_inf (finite a) neg_inf = fails
within-NotFar nan (finite a) neg_inf = passes
within-NotFar (finite e) (finite a) nan = passes
within-NotFar pos_inf (finite a) nan = passes
within-NotFar neg_inf (finite a) nan = passes
within-NotFar nan (finite a) nan = passes
within-NotFar (finite e) pos_inf (finite t) = fails
within-NotFar pos_inf pos_inf (finite t) = passes
within-NotFar neg_inf pos_inf (finite t) = fails
within-NotFar nan pos_inf (finite t) = passes
within-NotFar (finite e) pos_inf pos_inf = passes
within-NotFar pos_inf pos_inf pos_inf = passes
within-NotFar neg_inf pos_inf pos_inf = passes
within-NotFar nan pos_inf pos_inf = passes
within-NotFar (finite e) pos_inf neg_inf = fails
within-NotFar pos_inf pos_inf neg_inf = passes
within-NotFar neg_inf pos_inf neg_inf = fails
within-NotFar nan pos_inf neg_inf = passes
within-NotFar (finite e) pos_inf nan = passes
within-NotFar pos_inf pos_inf nan = passes
within-NotFar neg_inf pos_inf nan = passes
within-NotFar nan pos_inf nan = passes
within-NotFar (finite e) neg_inf (finite t) = fails
within-NotFar pos_inf neg_inf (finite t) = passes
within-NotFar neg_inf neg_inf (finite t) = fails
within-NotFar nan neg_inf (finite t) = passes
within-NotFar (finite e) neg_inf pos_inf = fails
within-NotFar pos_inf neg_inf pos_inf = passes
within-NotFar neg_inf neg_inf pos_inf = fails
within-NotFar nan neg_inf pos_inf = passes
within-NotFar (finite e) neg_inf neg_inf = passes
within-NotFar pos_inf neg_inf neg_inf = passes
within-NotFar neg_inf neg_inf neg_inf = passes
within-NotFar nan neg_inf neg_inf = passes
within-NotFar (finite e) neg_inf nan = passes
within-NotFar pos_inf neg_inf nan = passes
within-NotFar neg_inf neg_inf nan = passes
within-NotFar nan neg_inf nan = passes
within-NotFar (finite e) nan (finite t) = passes
within-NotFar pos_inf nan (finite t) = passes
within-NotFar neg_inf nan (finite t) = passes
within-NotFar nan nan (finite t) = passes
within-NotFar (finite e) nan pos_inf = passes
within-NotFar pos_inf nan pos_inf = passes
within-NotFar neg_inf nan pos_inf = passes
within-NotFar nan nan pos_inf = passes
within-NotFar (finite e) nan neg_inf = passes
within-NotFar pos_inf nan neg_inf = passes
within-NotFar neg_inf nan neg_inf = passes
within-NotFar nan nan neg_inf = passes
within-NotFar (finite e) nan nan = passes
within-NotFar pos_inf nan nan = passes
within-NotFar neg_inf nan nan = passes
within-NotFar nan nan nan = passes
within-NotFar pos_inf (finite a) (finite t) =
    subst (λ x. (lt_float pos_inf x ≡ false) ↔ Unit) (sym (absolute_finite (a +ℤ (pos 0 -ℤ t))))
      passes
within-NotFar neg_inf (finite a) (finite t) =
    subst (λ x. (lt_float neg_inf x ≡ false) ↔ ⊥) (sym (absolute_finite (a +ℤ (pos 0 -ℤ t)))) fails
within-NotFar nan (finite a) (finite t) =
    subst (λ x. (lt_float nan x ≡ false) ↔ Unit) (sym (absolute_finite (a +ℤ (pos 0 -ℤ t)))) passes

le_finite : (x y : ℤ) → le_float (finite x) (finite y) ≡ not (lt_float (finite y) (finite x))
unfolding le_float lt_float eq_float
le_finite x y = ground arith

le_distance :
    (e a t : ℤ)
    → (le_float (absolute (finite (a +ℤ (pos 0 -ℤ t)))) (finite e) ≡ true) ↔ IsNear e a t
le_distance e a t =
    let d = a +ℤ (pos 0 -ℤ t) in
    let turned : le_float (absolute (finite d)) (finite e)
        ≡ not (lt_float (finite e) (absolute (finite d))) =
      subst (λ x. le_float x (finite e) ≡ not (lt_float (finite e) x)) (sym (absolute_finite d))
        (le_finite (abs_ℤ d) e) in
    (
      (λ h. (within_distance e a t).0 (not-true _ (sym turned ∙ h))),
      (λ h. turned ∙ ap not ((within_distance e a t).1 h)),
    )
  where
    not-true : (b : Bool) → not b ≡ true → b ≡ false
    not-true b h = ground arith

near-IsNear :
    (e : ℤ) (o : Option Float) (t : Float)
    → (near (finite e) o t ≡ true)
      ↔ ((a : ℤ) × (z : ℤ) × (o ≡ some (finite a)) × (t ≡ finite z) × IsNear e a z)
unfolding near le_float lt_float eq_float absolute minus plus negate
near-IsNear e none t =
    ((λ h. cc), (λ h. let (a, z, n, g, r) = h in absurd (none-ne-some (finite a) n)))
near-IsNear e (some (finite a)) (finite t) = (
  (λ h. (a, t, refl, refl, (le_distance e a t).0 h)),
  (λ h.
      let (a', t', n, g, r) = h in
      let same_a : a ≡ a' = cc in
      let same_t : t ≡ t' = cc in
      (le_distance e a t).1
        (subst (λ x. IsNear e x t) (sym same_a) (subst (IsNear e a') (sym same_t) r))),
)
near-IsNear e (some (finite a)) pos_inf = ((λ h. cc), (λ h. let (a', t', n, g, r) = h in cc))
near-IsNear e (some (finite a)) neg_inf = ((λ h. cc), (λ h. let (a', t', n, g, r) = h in cc))
near-IsNear e (some (finite a)) nan = ((λ h. cc), (λ h. let (a', t', n, g, r) = h in cc))
near-IsNear e (some pos_inf) (finite t) = ((λ h. cc), (λ h. let (a', t', n, g, r) = h in cc))
near-IsNear e (some pos_inf) pos_inf = ((λ h. cc), (λ h. let (a', t', n, g, r) = h in cc))
near-IsNear e (some pos_inf) neg_inf = ((λ h. cc), (λ h. let (a', t', n, g, r) = h in cc))
near-IsNear e (some pos_inf) nan = ((λ h. cc), (λ h. let (a', t', n, g, r) = h in cc))
near-IsNear e (some neg_inf) (finite t) = ((λ h. cc), (λ h. let (a', t', n, g, r) = h in cc))
near-IsNear e (some neg_inf) pos_inf = ((λ h. cc), (λ h. let (a', t', n, g, r) = h in cc))
near-IsNear e (some neg_inf) neg_inf = ((λ h. cc), (λ h. let (a', t', n, g, r) = h in cc))
near-IsNear e (some neg_inf) nan = ((λ h. cc), (λ h. let (a', t', n, g, r) = h in cc))
near-IsNear e (some nan) (finite t) = ((λ h. cc), (λ h. let (a', t', n, g, r) = h in cc))
near-IsNear e (some nan) pos_inf = ((λ h. cc), (λ h. let (a', t', n, g, r) = h in cc))
near-IsNear e (some nan) neg_inf = ((λ h. cc), (λ h. let (a', t', n, g, r) = h in cc))
near-IsNear e (some nan) nan = ((λ h. cc), (λ h. let (a', t', n, g, r) = h in cc))

-- The test of the oracle and of the final goals: agreement up to a whole number of millionths.
pub agrees_within-AgreesWith :
    (e : ℤ) (actual target : Value)
    → (agrees_within (finite e) actual target ≡ true) ↔ AgreesWith e actual target
unfolding agrees_within
agrees_within-AgreesWith e actual (float t) = near-IsNear e (as_number actual) t
agrees_within-AgreesWith e actual null = ((λ h. h), (λ h. h))
agrees_within-AgreesWith e actual (bool b) = ((λ h. h), (λ h. h))
agrees_within-AgreesWith e actual (int n) = ((λ h. h), (λ h. h))
agrees_within-AgreesWith e actual (text x) = ((λ h. h), (λ h. h))
agrees_within-AgreesWith e actual (floats xs) = ((λ h. h), (λ h. h))
agrees_within-AgreesWith e actual (texts d) = ((λ h. h), (λ h. h))
