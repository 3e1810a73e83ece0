-- ===== src/Repair/Insert/Replayed.antt =====
-- What a repaired plan is: it can be replayed from the state it was repaired for, and a bounded
-- number of steps joins those of the original plan.
use embodied_skill_ros.Prelude.{
  Bool-cases, List, Option, Option-cases, String, [], ap, arith, inl, inr, is_nil, is_nil-eq,
  length, length-append, none, refl, some, subst, sym, ℕ, ◌++◌, ◌+◌, ◌∙◌, ◌∷◌, ◌≡◌, ◌≢◌, ◌≤◌,
}
use embodied_skill_ros.Prelude.Dict.{Dict}
use embodied_skill_ros.Value.{Value}
use embodied_skill_ros.Errors.{>>=-eq-ok, Result, err, ok, ◌>>=◌}
use embodied_skill_ros.State.{RobotState, copy_with}
use embodied_skill_ros.Skill.Contract.{RobotSkill}
use embodied_skill_ros.Skill.Predicates.{check_preconditions, evaluate_preconditions}
use embodied_skill_ros.Skill.Effects.{expected_effects, project}
use embodied_skill_ros.Plan.{PlanStep, TaskPlan}
use embodied_skill_ros.Registry.{SkillRegistry, skill_named}
use embodied_skill_ros.Grounding.Issues.{GroundingReport, requires_stop}
use embodied_skill_ros.Repair.Search.{Limits}
use embodied_skill_ros.Repair.Search.Replays.{Replays, append-Replays}
use embodied_skill_ros.Repair.Insert.{
  RepairState, keep_step, note_goals, repair_failures, repair_plan, repair_step, repair_steps,
  repaired_plan, start_repair,
}
use embodied_skill_ros.Repair.Insert.Sound.{Rests, none-ne-ok, option_bind, repair_failures-Rests}

module _ (registry : SkillRegistry) (limits : Limits) (now : ℕ) (start : RobotState) where
  kept :
      (count : ℕ) (skill : RobotSkill) (original : PlanStep) (effects noted : Dict Value)
      (r : RepairState)
      → Rests registry limits now start count r
      → skill_named registry original.skill ≡ ok skill
      → check_preconditions skill r.projected original.arguments now ≡ ok []
      → expected_effects skill original.arguments r.projected ≡ ok effects
      → Rests registry limits now start (count + 1) (record r {
        new_steps = r.new_steps ++ (record original { parallel_group = none }) ∷ [];
        goals_found = noted;
        projected = copy_with r.projected effects;
      })
  unfolding project
  kept count skill original effects noted r h found met computed = record {
    replays =
        append-Replays registry now r.new_steps ((record original { parallel_group = none }) ∷ [])
          start r.projected (copy_with r.projected effects) h.replays
          (
            skill,
            found,
            met,
            (
              copy_with r.projected effects,
              ap (λ x. x >>= λ d. ok (copy_with r.projected d)) computed,
              refl,
            ),
          );
    within_limit = h.within_limit;
    counted =
        length-append r.new_steps ((record original { parallel_group = none }) ∷ [])
        ∙ omega (arith, h.counted);
  }

  keep_step-Rests :
      (count : ℕ) (skill : RobotSkill) (original : PlanStep) (r r' : RepairState)
      → Rests registry limits now start count r
      → skill_named registry original.skill ≡ ok skill
      → keep_step now skill original (some r) ≡ ok (some r')
      → Rests registry limits now start (count + 1) r'
  unfolding keep_step
  keep_step-Rests count skill original r r' h found e =
      let (unmet, met, e₁) =
        >>=-eq-ok (check_preconditions skill r.projected original.arguments now) _ e in
      elim (Bool-cases (is_nil unmet)) [
        | inr bad ↦ absurd (none-ne-ok registry limits now start r' (rw bad at e₁))
        | inl good ↦
            let (effects, computed, e₂) =
              >>=-eq-ok (expected_effects skill original.arguments r.projected) _ (rw good at e₁) in
            subst (Rests registry limits now start (count + 1)) (cc e₂) (
              kept count skill original effects (note_goals r.goals_found effects) r h found
                (met ∙ ap ok (is_nil-eq unmet good)) computed)
      ]

  keep_none :
      (skill : RobotSkill) (original : PlanStep) → keep_step now skill original none ≡ ok none
  unfolding keep_step
  keep_none skill original = refl

  repair_found-Rests :
      (count : ℕ) (excluded : List String) (original : PlanStep) (skill : RobotSkill)
      (r r' : RepairState)
      → Rests registry limits now start count r
      → skill_named registry original.skill ≡ ok skill
      → repair_step registry limits now excluded original r (ok skill) ≡ ok (some r')
      → Rests registry limits now start (count + 1) r'
  unfolding repair_step
  repair_found-Rests count excluded original skill r r' h found e =
      let (es, e₁, e₂) =
        >>=-eq-ok (evaluate_preconditions skill r.projected original.arguments now) _ e in
      let (o, e₃, e₄) = >>=-eq-ok (repair_failures registry limits now excluded es r) _ e₂ in
      elim (Option-cases o) [
        | inl nothing ↦ absurd (
            none-ne-ok registry limits now start r' (
              sym (keep_none skill original)
              ∙ subst (λ x. keep_step now skill original x ≡ ok (some r')) nothing e₄))
        | inr (r₁, something) ↦
            keep_step-Rests count skill original r₁ r'
              (repair_failures-Rests registry limits now start count excluded es r r₁ h
                (e₃ ∙ ap ok something))
              found (subst (λ x. keep_step now skill original x ≡ ok (some r')) something e₄)
      ]

  repair_step-Rests :
      (count : ℕ) (excluded : List String) (original : PlanStep) (found : Result RobotSkill)
      (r r' : RepairState)
      → Rests registry limits now start count r
      → skill_named registry original.skill ≡ found
      → repair_step registry limits now excluded original r found ≡ ok (some r')
      → Rests registry limits now start (count + 1) r'
  repair_step-Rests count excluded original (err x) r r' h same e =
      absurd (none-ne-ok registry limits now start r' (unfold repair_step in e))
  repair_step-Rests count excluded original (ok skill) r r' h same e =
      repair_found-Rests count excluded original skill r r' h same e

  repair_steps-Rests :
      (count : ℕ) (excluded : List String) (steps : List PlanStep) (r r' : RepairState)
      → Rests registry limits now start count r
      → repair_steps registry limits now excluded steps r ≡ ok (some r')
      → Rests registry limits now start (count + length steps) r'
  unfolding repair_steps
  repair_steps-Rests count excluded [] r r' h e =
      subst (λ c. Rests registry limits now start c r') (omega arith)
        (subst (Rests registry limits now start count) (cc e) h)
  repair_steps-Rests count excluded (original ∷ steps) r r' h e =
      let (r₁, e₁, e₂) =
        option_bind registry limits now start
          (repair_step registry limits now excluded original r
            (skill_named registry original.skill))
          _ r' e in
      subst (λ c. Rests registry limits now start c r') (omega arith)
        (repair_steps-Rests (count + 1) excluded steps r₁ r'
          (repair_step-Rests count excluded original (skill_named registry original.skill) r r₁ h
            refl e₁)
          e₂)

  -- A repaired plan replays from the state that it was repaired for: each of its steps calls a
  -- registered skill whose preconditions are met in the state projected by the steps before it. It
  -- has at most `max_insertions` steps more than the plan, and at least as many.
  pub repair_plan-Replays :
      (plan repaired : TaskPlan) (report : GroundingReport)
      → repair_plan registry limits plan start report now ≡ ok (some repaired)
      → ((final : RobotState) × Replays registry now start repaired.steps final)
        × (length plan.steps ≤ length repaired.steps)
        × (length repaired.steps ≤ length plan.steps + limits.max_insertions)
  unfolding repair_plan start_repair repaired_plan
  repair_plan-Replays plan repaired report e = elim (Bool-cases (requires_stop report)) [
    | inl stop ↦ absurd (no_plan repaired (rw stop at e))
    | inr go ↦
        let e₁ = rw go at e in
        let (o, run, e₂) =
          >>=-eq-ok
            (repair_steps registry limits now plan.metadata.blocked_skills plan.steps
              (start_repair start))
            _ e₁ in
        elim (Option-cases o) [
          | inl nothing ↦ absurd (no_plan repaired (rw nothing at e₂))
          | inr (r, something) ↦
              let h =
                repair_steps-Rests 0 plan.metadata.blocked_skills plan.steps (start_repair start) r
                  (record { replays = refl; within_limit = omega arith; counted = refl })
                  (run ∙ ap ok something) in
              let same : repaired_plan plan r ≡ repaired = cc (rw something at e₂) in
              let steps : r.new_steps ≡ repaired.steps = ap (λ (p : TaskPlan). p.steps) same in
              (
                (
                  r.projected,
                  subst (λ x. Replays registry now start x r.projected) steps h.replays,
                ),
                subst (λ x. length plan.steps ≤ length x) steps (omega (arith, h.counted)),
                subst (λ x. length x ≤ length plan.steps + limits.max_insertions) steps
                    (omega (arith, h.counted, h.within_limit)),
              )
        ]
  ]
    where
      no_plan : (p : TaskPlan) → ◌≢◌ {A = Result (Option TaskPlan)} (ok none) (ok (some p))
      no_plan p e = cc
