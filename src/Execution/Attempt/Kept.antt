-- ===== src/Execution/Attempt/Kept.antt =====
-- What each part of a round of the inner loop keeps of the executor's variables.
use embodied_skill_ros.Prelude.{
  All-append, Option, [], and-left, and-right, ap, none, refl, some, some_injective, true, ◌<◌, ◌∙◌,
  ◌∷◌, ◌≡◌, ◌≢◌,
}
use embodied_skill_ros.Errors.{>>=-eq-ok, Result, err, ok, ok_injective, ◌>>=◌}
use embodied_skill_ros.State.{RobotState}
use embodied_skill_ros.Skill.Contract.{RobotSkill}
use embodied_skill_ros.Skill.Outcome.{VerificationResult, verify_outcome}
use embodied_skill_ros.Plan.{PlanStep}
use embodied_skill_ros.Capabilities.{BackendCapabilities}
use embodied_skill_ros.Execution.Backend.{CommandReceipt, Robot}
use embodied_skill_ros.Execution.Machine.{
  Config, Decision, Locals, Options, SkillResult, replanning,
}
use embodied_skill_ros.Execution.Machine.Vetted.{IsVetted, LocalsVetted, SeenAt}
use embodied_skill_ros.Execution.Attempt.{add_decision, add_result, outcome_achieved, verified}

verified-ne-none : (r : Result VerificationResult) → (r >>= λ v. ok (some v)) ≢ ok none
verified-ne-none (ok v) e = cc
verified-ne-none (err x) e = cc

module _ (robot : Robot) (config : Config) (options : Options)
    (capabilities : Option BackendCapabilities) where
  -- Recording a result, and a decision.
  pub add_result-LocalsVetted :
      (r : SkillResult) (l : Locals)
      → IsVetted config options robot r
      → LocalsVetted config options robot l
      → LocalsVetted config options robot (add_result robot config options capabilities r l)
  unfolding add_result
  add_result-LocalsVetted r l hr h = record {
    results_vetted = All-append _ l.results (r ∷ []) h.results_vetted (hr, tt);
    replans = h.replans;
  }

  pub add_decision-LocalsVetted :
      (d : Decision) (l : Locals)
      → LocalsVetted config options robot l
      → LocalsVetted config options robot (add_decision robot config options capabilities d l)
  unfolding add_decision
  add_decision-LocalsVetted d l h = record {
    results_vetted = h.results_vetted;
    replans = h.replans;
  }

  pub results_keep_count :
      (r : SkillResult) (l : Locals)
      → l.replan_count < config.max_replans
      → (add_result robot config options capabilities
          (record r { recovery_triggered = true })
          l).replan_count
        < config.max_replans
  unfolding add_result
  results_keep_count r l h = h

  pub triggered-IsVetted :
      (r : SkillResult)
      → IsVetted config options robot r
      → IsVetted config options robot (record r { recovery_triggered = true })
  triggered-IsVetted r h = record {
    key = h.key;
    skill = h.skill;
    named_skill = h.named_skill;
    call = h.call;
    within_budget = h.within_budget;
    accepted = h.accepted;
    verified = h.verified;
  }

  pub room_kept :
      (l : Locals)
      → l.replan_count < config.max_replans
      → (add_decision robot config options capabilities replanning l).replan_count
        < config.max_replans
  unfolding add_decision
  room_kept l h = h

  pub outcome_achieved-accepted :
      (receipt : CommandReceipt) (o : Option VerificationResult)
      → outcome_achieved robot config options capabilities receipt o ≡ true
      → receipt.accepted ≡ true
  unfolding outcome_achieved
  outcome_achieved-accepted receipt none h = h
  outcome_achieved-accepted receipt (some v) h = and-left _ _ h

  pub outcome_achieved-verified :
      (step : PlanStep) (skill : RobotSkill) (before after : RobotState) (receipt : CommandReceipt)
      (world : robot.World) (o : Option VerificationResult)
      → SeenAt robot after world
      → verified robot config options capabilities step skill before after receipt
          (robot.clock world)
        ≡ ok o
      → outcome_achieved robot config options capabilities receipt o ≡ true
      → options.verify_outcomes ≡ true
      → (v : VerificationResult) × (o ≡ some v)
        × (v.achieved ≡ true)
        × ((after' : RobotState) × (world' : robot.World) × SeenAt robot after' world'
            × (verify_outcome skill step.arguments before after' none (robot.clock world') ≡ ok v))
  unfolding outcome_achieved verified
  outcome_achieved-verified step skill before after receipt world (some v) seen e a on =
      let accepted = and-left receipt.accepted v.achieved a in
      let (v', e₁, e₂) =
        >>=-eq-ok (verify_outcome skill step.arguments before after none (robot.clock world)) _
          (rw (accepted, on) at e) in
      (
        v,
        refl,
        and-right _ _ a,
        (after, world, seen, e₁ ∙ ap ok (some_injective (ok_injective e₂))),
      )
  outcome_achieved-verified step skill before after receipt world none seen e a on = absurd (
      verified-ne-none (verify_outcome skill step.arguments before after none (robot.clock world))
        (rw (a, on) at e))
