-- ===== src/Execution/Goals/Met.antt =====
-- What it means that no goal is missed.
use embodied_skill_ros.Prelude.{
  All, Bool, List, String, [], and-left, and-right, arith, if◌then◌else◌, none, true, ◌&&◌, ◌∷◌,
  ◌≡◌,
}
use embodied_skill_ros.Prelude.Dict.{Dict}
use embodied_skill_ros.Prelude.Int.{pos}
use embodied_skill_ros.Value.{Value}
use embodied_skill_ros.Value.Agreement.{AgreesWith, agrees_within-AgreesWith}
use embodied_skill_ros.State.{RobotState, epistemic_value, is_known, raw_value}
use embodied_skill_ros.State.Evidence.{IsEvidence, epistemic_value-known, is_known-eq}
use embodied_skill_ros.Plan.{TaskPlan, goals}
use embodied_skill_ros.Execution.Goals.{goal_matches, goal_mismatches, mismatches_of}

-- A goal is met: the field has current evidence, and its value agrees with the target: a finite number
-- at most 0.001 away from a float, and an equal value for any other target.
pub record GoalMet (state : RobotState) (field_name : String) (target : Value) : Type 0 where
  pub evidence : IsEvidence state field_name none 0
  pub agrees : AgreesWith (pos 1000) (raw_value state field_name) target

goal_step :
    (b : Bool) (x : String × Value × Value) (xs : List (String × Value × Value))
    → (if b then xs else x ∷ xs) ≡ []
    → (b ≡ true) × (xs ≡ [])
goal_step b x xs h = ground arith

mismatches_of-nil :
    (d : Dict Value) (state : RobotState)
    → mismatches_of d state ≡ []
    → All (λ p. GoalMet state p.0 p.1) d
unfolding mismatches_of
mismatches_of-nil [] state h = tt
mismatches_of-nil ((field_name, target) ∷ d) state h =
    let e = epistemic_value state field_name none 0 in
    let (test, later) =
      goal_step (is_known e.status && goal_matches e.value target) (field_name, e.value, target)
        (mismatches_of d state) h in
    let usable = and-left (is_known e.status) (goal_matches e.value target) test in
    let equal = and-right (is_known e.status) (goal_matches e.value target) test in
    (
      record {
        evidence = (epistemic_value-known state field_name none 0).0 (is_known-eq e.status usable);
        agrees =
            (agrees_within-AgreesWith (pos 1000) (raw_value state field_name) target).0
              (unfold epistemic_value in unfold goal_matches in equal);
      },
      mismatches_of-nil d state later,
    )

-- When the goals of a plan are a dictionary and none is missed in a state, each of them is met there:
-- its field has current evidence, and its value is a finite number at most 0.001 away from a float
-- target, and equal to any other target.
pub goal_mismatches-met :
    (plan : TaskPlan) (state : RobotState) (d : Dict Value)
    → plan.metadata.goal_state ≡ goals d
    → goal_mismatches plan state ≡ []
    → All (λ p. GoalMet state p.0 p.1) d
unfolding goal_mismatches
goal_mismatches-met plan state d e h = mismatches_of-nil d state (ground arith)
