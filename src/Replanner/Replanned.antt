-- ===== src/Replanner/Replanned.antt =====
-- What the replanner returns.
use embodied_skill_ros.Prelude.{
  All, All-append, Bool-cases, List, Option, Option-cases, String, [], ap, false, inl, inr, length,
  none, refl, some, subst, true, ℕ, ◌++◌, ◌+◌, ◌∙◌, ◌∷◌, ◌≡◌, ◌≢◌,
}
use embodied_skill_ros.Prelude.Dict.{Dict}
use embodied_skill_ros.Value.{Value}
use embodied_skill_ros.Errors.{>>=-eq-ok, Result, ok, ok_injective}
use embodied_skill_ros.State.{RobotState, raw_value}
use embodied_skill_ros.Skill.Effects.{project}
use embodied_skill_ros.Plan.{PlanStep, TaskPlan}
use embodied_skill_ros.Registry.{SkillRegistry, skill_named, synthesize_step}
use embodied_skill_ros.Registry.Laws.{IsRegistry}
use embodied_skill_ros.Registry.Candidates.{IsCandidate, synthesize_step-IsCandidate}
use embodied_skill_ros.Replanner.{
  goal_satisfied, goals_to_reach, new_plan, replan_id, replan_task, resynthesize, same_signature,
}

pub record IsReplanned (registry : SkillRegistry) (previous plan : TaskPlan) : Type 0 where
  pub candidates : All (IsCandidate registry previous.metadata.blocked_skills) plan.steps
  pub differs : same_signature plan.steps previous.steps ≡ false
  pub next_revision : plan.revision ≡ previous.revision + 1
  pub same_goals : plan.metadata.goal_state ≡ previous.metadata.goal_state

no_steps :
    (steps : List PlanStep) → ◌≢◌ {A = Result (Option (List PlanStep))} (ok none) (ok (some steps))
no_steps steps e = cc

resynthesize-IsCandidate :
    (registry : SkillRegistry) (revision : ℕ) (excluded : List String) (goal_values : Dict Value)
    (state : RobotState) (steps found : List PlanStep)
    → IsRegistry registry
    → All (IsCandidate registry excluded) steps
    → resynthesize registry revision excluded goal_values state steps ≡ ok (some found)
    → All (IsCandidate registry excluded) found
unfolding resynthesize
resynthesize-IsCandidate registry revision excluded [] state steps found w h e =
    subst (All (IsCandidate registry excluded)) (cc e) h
resynthesize-IsCandidate registry revision excluded ((field_name, target) ∷ goal_values) state steps
      found w h e =
    elim (Bool-cases (goal_satisfied (raw_value state field_name) target)) [
      | inl met ↦
          resynthesize-IsCandidate registry revision excluded goal_values state steps found w h
            (rw met at e)
      | inr missed ↦
          elim (Option-cases (
            synthesize_step registry field_name target state (replan_id revision (length steps))
              "GoalDirectedReplanner" excluded)) [
                | inl nothing ↦ absurd (no_steps found (rw (missed, nothing) at e))
                | inr (step, proposed) ↦
                    let (skill, e₁, e₂) =
                      >>=-eq-ok (skill_named registry step.skill) _ (rw (missed, proposed) at e) in
                    let (next, e₃, e₄) = >>=-eq-ok (project skill step.arguments state) _ e₂ in
                    resynthesize-IsCandidate registry revision excluded goal_values next
                      (steps ++ step ∷ []) found w
                      (All-append _ steps (step ∷ []) h (
                        synthesize_step-IsCandidate registry field_name target state
                            (replan_id revision (length steps)) "GoalDirectedReplanner" excluded
                            step w proposed,
                        tt,
                      ))
                      e₄
              ]
    ]

no_plan : (p : TaskPlan) → ◌≢◌ {A = Option TaskPlan} none (some p)
no_plan p e = cc

new_plan-IsReplanned :
    (registry : SkillRegistry) (previous plan : TaskPlan) (found : Option (List PlanStep))
    → ((steps : List PlanStep)
        → found ≡ some steps
        → All (IsCandidate registry previous.metadata.blocked_skills) steps)
    → new_plan previous found ≡ some plan
    → IsReplanned registry previous plan
unfolding new_plan
new_plan-IsReplanned registry previous plan none h e = absurd (no_plan plan e)
new_plan-IsReplanned registry previous plan (some steps) h e =
    elim (Bool-cases (same_signature steps previous.steps)) [
      | inl same ↦ absurd (no_plan plan (rw same at e))
      | inr other ↦
          let it : IsReplanned registry previous (record previous {
            steps = steps;
            revision = previous.revision + 1;
            metadata = record previous.metadata { replanned_from_state = true };
          }) =
            record {
              candidates = h steps refl;
              differs = other;
              next_revision = refl;
              same_goals = refl;
            } in
          subst (IsReplanned registry previous) (cc (rw other at e)) it
    ]

-- With a well-formed registry, a plan that the replanner returns has the goals of the previous one
-- and the next revision, and differs from it in its skills or arguments. Each of its steps calls a
-- registered skill, which the plan does not block, with valid arguments.
pub replan_task-IsReplanned :
    (registry : SkillRegistry) (previous plan : TaskPlan) (state : RobotState)
    → IsRegistry registry
    → replan_task registry previous state ≡ ok (some plan)
    → IsReplanned registry previous plan
unfolding replan_task
replan_task-IsReplanned registry previous plan state w e =
    elim (Option-cases (goals_to_reach previous.metadata.goal_state)) [
      | inl nothing ↦ absurd (no_result (rw (replan_task, nothing) at e))
      | inr (goal_values, some_goals) ↦
          let (found, e₁, e₂) =
            >>=-eq-ok
              (resynthesize registry previous.revision previous.metadata.blocked_skills goal_values
                state [])
              _ (rw (replan_task, some_goals) at e) in
          new_plan-IsReplanned registry previous plan found
            (λ steps k.
              resynthesize-IsCandidate registry previous.revision previous.metadata.blocked_skills
                goal_values state [] steps w tt (e₁ ∙ ap ok k))
            (ok_injective e₂)
    ]
  where
    no_result : ◌≢◌ {A = Result (Option TaskPlan)} (ok none) (ok (some plan))
    no_result k = cc
