-- ===== src/Grounding/Ground/Valid.antt =====
-- A plan whose grounding report is valid.
use embodied_skill_ros.Prelude.{Option, [], ap, append-nil-parts, is_nil, true, ℕ, ◌++◌, ◌∙◌, ◌≡◌}
use embodied_skill_ros.Errors.{>>=-eq-ok, ok, ok_injective}
use embodied_skill_ros.State.{RobotState}
use embodied_skill_ros.Plan.{TaskPlan}
use embodied_skill_ros.Capabilities.{BackendCapabilities}
use embodied_skill_ros.Registry.{SkillRegistry}
use embodied_skill_ros.Grounding.Issues.{GroundingReport, deduplicate, deduplicate-nil, report_of}
use embodied_skill_ros.Grounding.Steps.{ground_steps}
use embodied_skill_ros.Grounding.Steps.Executable.{ExecutablePlan}
use embodied_skill_ros.Grounding.Steps.Passed.{ground_steps-ExecutablePlan}
use embodied_skill_ros.Grounding.Parallel.{parallel_issues}
use embodied_skill_ros.Grounding.Ground.{ground_plan}

-- A valid report means that the plan can be executed step by step in the states projected from the
-- given one: the ids of the steps differ; each skill is registered, supported and called with
-- valid arguments; its preconditions hold and no constraint is violated; its effects are predicted,
-- observable, and those that the step declares; the backend objects to nothing; and the parallel
-- groups give no diagnostic.
pub ground_plan-ExecutablePlan :
    (registry : SkillRegistry) (plan : TaskPlan) (state : RobotState)
    (c : Option BackendCapabilities) (now : ℕ) (r : GroundingReport)
    → ground_plan registry plan state c now ≡ ok r
    → r.valid ≡ true
    → ExecutablePlan registry c now state [] plan.steps
      × (parallel_issues registry state plan.steps ≡ [])
unfolding ground_plan report_of
ground_plan-ExecutablePlan registry plan state c now r h valid =
    let (issues, e, k) = >>=-eq-ok (ground_steps registry c now state [] plan.steps) _ h in
    let test : is_nil (deduplicate (issues ++ parallel_issues registry state plan.steps)) ≡ true =
      ap (λ (x : GroundingReport). x.valid) (ok_injective k) ∙ valid in
    let (a, b) =
      append-nil-parts issues (parallel_issues registry state plan.steps)
        ((deduplicate-nil _).0 test) in
    (ground_steps-ExecutablePlan registry c now state [] plan.steps (e ∙ ap ok a), b)
