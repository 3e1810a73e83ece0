-- ===== src/Oracle/Judged.antt =====
-- What the oracle's verdict says of the hidden world.
use embodied_skill_ros.Prelude.{
  All, Bool, List, [], ap, false, if◌then◌else◌, is_nil, is_nil-eq, refl, true, ◌↔◌, ◌∷◌, ◌≡◌,
}
use embodied_skill_ros.Prelude.Dict.{Dict}
use embodied_skill_ros.Prelude.Int.{ℤ}
use embodied_skill_ros.Value.Numbers.{finite}
use embodied_skill_ros.Value.{Value, agrees_within}
use embodied_skill_ros.Value.Agreement.{AgreesWith, agrees_within-AgreesWith}
use embodied_skill_ros.State.{RobotState, raw_value}
use embodied_skill_ros.Oracle.{evaluate_truth, truth_mismatches}

mismatch_step {ℓ} :
    {A : Type ℓ} (b : Bool) (x : A) (xs : List A)
    → (if b then xs else x ∷ xs) ≡ []
    → (b ≡ true) × (xs ≡ [])
mismatch_step true x xs e = (refl, e)
mismatch_step false x xs e = cc

-- Each expected value agrees with the hidden world's, up to a whole number of millionths.
abbrev pub AllTrue : ℤ → RobotState → Dict Value → Type 0
AllTrue e state expected = All (λ p. AgreesWith e (raw_value state p.0) p.1) expected

mismatches-AllTrue :
    (e : ℤ) (expected : Dict Value) (state : RobotState)
    → truth_mismatches (finite e) expected state ≡ []
    → AllTrue e state expected
unfolding truth_mismatches
mismatches-AllTrue e [] state h = tt
mismatches-AllTrue e ((key, target) ∷ expected) state h =
    let (here, later) =
      mismatch_step (agrees_within (finite e) (raw_value state key) target) _
        (truth_mismatches (finite e) expected state) h in
    (
      (agrees_within-AgreesWith e (raw_value state key) target).0 here,
      mismatches-AllTrue e expected state later,
    )

AllTrue-mismatches :
    (e : ℤ) (expected : Dict Value) (state : RobotState)
    → AllTrue e state expected
    → truth_mismatches (finite e) expected state ≡ []
unfolding truth_mismatches
AllTrue-mismatches e [] state h = refl
AllTrue-mismatches e ((key, target) ∷ expected) state h =
    rw ((agrees_within-AgreesWith e (raw_value state key) target).1 h.0)
      (AllTrue-mismatches e expected state h.1)

-- For a finite tolerance the oracle reports success exactly when the hidden world agrees with every
-- expected value: for a float target it holds a finite number that is at most the tolerance away, and
-- for any other target an equal value.
pub evaluate_truth-AllTrue :
    (e : ℤ) (state : RobotState) (expected : Dict Value)
    → ((evaluate_truth (finite e) state expected).success ≡ true) ↔ AllTrue e state expected
unfolding evaluate_truth
evaluate_truth-AllTrue e state expected = (
  (λ h. mismatches-AllTrue e expected state (is_nil-eq _ h)),
  (λ h. ap is_nil (AllTrue-mismatches e expected state h)),
)
