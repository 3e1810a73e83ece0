-- ===== src/Repair/Insert/Sound.antt =====
-- The invariant of the repair: the new steps can be replayed, and a bounded number is inserted.
use embodied_skill_ros.Prelude.{
  Bool-cases, List, Option, String, [], ap, arith, false, inl, inr, length, length-append, ltb,
  none, refl, some, subst, sym, ℕ, ◌++◌, ◌+◌, ◌∙◌, ◌∷◌, ◌≡◌, ◌≢◌, ◌≤◌,
}
use embodied_skill_ros.Prelude.Dict.{Dict}
use embodied_skill_ros.Value.{Value}
use embodied_skill_ros.Errors.{>>=-eq-ok, Result, err, ok, ok_injective, ◌>>=◌}
use embodied_skill_ros.State.{RobotState, copy_with}
use embodied_skill_ros.Skill.Template.{Arguments}
use embodied_skill_ros.Skill.Contract.{RobotSkill}
use embodied_skill_ros.Skill.Predicates.{PredicateEvaluation, check_preconditions, satisfied}
use embodied_skill_ros.Skill.Effects.{expected_effects, project}
use embodied_skill_ros.Plan.{PlanStep, SearchStats}
use embodied_skill_ros.Registry.{SkillRegistry, skill_named}
use embodied_skill_ros.Repair.Search.{Limits, Proposal, search_fact}
use embodied_skill_ros.Repair.Search.Sound.{search_fact-Establishes}
use embodied_skill_ros.Repair.Search.Replays.{Replays, append-Replays}
use embodied_skill_ros.Repair.Insert.{
  RepairState, insert_found, insert_repairs, note_goals, numbered, repair_failure, repair_failures,
  settled,
}

module _ (registry : SkillRegistry) (limits : Limits) (now : ℕ) (start : RobotState) where
  -- The new steps replay from the start to `here`; there are `count` original ones among them, and
  -- the inserted ones are within the limit.
  pub record Repaired (count : ℕ) (here : RobotState) (r : RepairState) : Type 0 where
    pub replays : Replays registry now start r.new_steps here
    pub within_limit : r.serial ≤ limits.max_insertions
    pub counted : length r.new_steps ≡ count + r.serial

  pub none-ne-ok : (r : RepairState) → ◌≢◌ {A = Result (Option RepairState)} (ok none) (ok (some r))
  none-ne-ok r e = cc

  -- The state behind a step is the one that its effects give.
  pub project-copy_with :
      (skill : RobotSkill) (arguments : Arguments) (s t : RobotState) (effects : Dict Value)
      → project skill arguments s ≡ ok t
      → expected_effects skill arguments s ≡ ok effects
      → copy_with s effects ≡ t
  unfolding project
  project-copy_with skill arguments s t effects h e =
      ok_injective (sym (ap (λ x. x >>= λ d. ok (copy_with s d)) e) ∙ h)

  add_numbered :
      (count serial : ℕ) (failure : PredicateEvaluation) (step : PlanStep) (here next : RobotState)
      (noted : Dict Value) (r : RepairState) (skill : RobotSkill)
      → Repaired count here r
      → ltb limits.max_insertions (r.serial + 1) ≡ false
      → skill_named registry step.skill ≡ ok skill
      → check_preconditions skill here step.arguments now ≡ ok []
      → project skill step.arguments here ≡ ok next
      → Repaired count next (record r {
        serial = r.serial + 1;
        goals_found = noted;
        new_steps = r.new_steps ++ numbered serial failure step ∷ [];
      })
  unfolding numbered
  add_numbered count serial failure step here next noted r skill h room found met moved = record {
    replays =
        append-Replays registry now r.new_steps (numbered serial failure step ∷ []) start here next
          h.replays (skill, found, met, (next, moved, refl));
    within_limit = ground arith;
    counted =
        length-append r.new_steps (numbered serial failure step ∷ []) ∙ omega (arith, h.counted);
  }

  insert_repairs-Repaired :
      (count : ℕ) (failure : PredicateEvaluation) (repairs : List PlanStep)
      (here final : RobotState) (r r' : RepairState)
      → Repaired count here r
      → Replays registry now here repairs final
      → insert_repairs registry limits failure repairs here r ≡ ok (some r')
      → Repaired count final r'
  unfolding insert_repairs
  insert_repairs-Repaired count failure [] here final r r' h replay e =
      subst (λ x. Repaired count final x) (cc e) (subst (λ s. Repaired count s r) replay h)
  insert_repairs-Repaired count failure (step ∷ repairs) here final r r' h
        (skill, found, met, (next, moved, later)) e =
      elim (Bool-cases (ltb limits.max_insertions (r.serial + 1))) [
        | inl full ↦ absurd (none-ne-ok r' (rw full at e))
        | inr room ↦
            let (skill', found', e₁) =
              >>=-eq-ok (skill_named registry step.skill) _ (rw room at e) in
            let same : skill' ≡ skill = ok_injective (sym found' ∙ found) in
            let (effects, computed, e₂) =
              >>=-eq-ok (expected_effects skill' step.arguments here) _ e₁ in
            let place : copy_with here effects ≡ next =
              project-copy_with skill step.arguments here next effects moved
                (subst (λ s. expected_effects s step.arguments here ≡ ok effects) same computed) in
            insert_repairs-Repaired count failure repairs next final _ r'
              (add_numbered count (r.serial + 1) failure step here next
                (note_goals r.goals_found effects) r skill h room found met moved)
              later (rw (← place) e₂)
      ]

  -- Between the steps the invariant is about the projected state.
  abbrev pub Rests : ℕ → RepairState → Type 0
  Rests count r = Repaired count r.projected r

  settled-Rests :
      (count : ℕ) (repairs : List PlanStep) (final : RobotState) (r r' : RepairState)
      → Repaired count final r
      → settled repairs final (some r) ≡ some r'
      → Rests count r'
  unfolding settled
  settled-Rests count repairs final r r' h e =
      let moved : Rests count (record r {
        projected = final;
        stats = record r.stats { selected_steps = r.stats.selected_steps + length repairs };
      }) =
        record { replays = h.replays; within_limit = h.within_limit; counted = h.counted } in
      subst (Rests count) (cc e) moved

  settled-none : (repairs : List PlanStep) (final : RobotState) → settled repairs final none ≡ none
  unfolding settled
  settled-none repairs final = refl

  some-ne-none : (r : RepairState) → ◌≢◌ {A = Option RepairState} none (some r)
  some-ne-none r e = cc

  -- `settled` of what the insertion leaves.
  inserted-Rests :
      (count : ℕ) (repairs : List PlanStep) (final : RobotState) (o : Option RepairState)
      (r' : RepairState)
      → ((r : RepairState) → o ≡ some r → Repaired count final r)
      → settled repairs final o ≡ some r'
      → Rests count r'
  inserted-Rests count repairs final none r' h e =
      absurd (some-ne-none r' (sym (settled-none repairs final) ∙ e))
  inserted-Rests count repairs final (some r) r' h e =
      settled-Rests count repairs final r r' (h r refl) e

  insert_found-Rests :
      (count : ℕ) (failure : PredicateEvaluation) (r r' : RepairState) (o : Option Proposal)
      (stats : SearchStats)
      → Rests count r
      → ((p : Proposal) → o ≡ some p → Replays registry now r.projected p.0 p.1)
      → insert_found registry limits failure r (o, stats) ≡ ok (some r')
      → Rests count r'
  unfolding insert_found
  insert_found-Rests count failure r r' none stats h found e = absurd (none-ne-ok r' e)
  insert_found-Rests count failure r r' (some (repairs, final)) stats h found e =
      let r₀ : RepairState = record r { stats = stats } in
      let h₀ : Repaired count r.projected r₀ = record {
        replays = h.replays;
        within_limit = h.within_limit;
        counted = h.counted;
      } in
      let (o, e₁, e₂) =
        >>=-eq-ok (insert_repairs registry limits failure repairs r.projected r₀) _ e in
      inserted-Rests count repairs final o r'
        (λ r₁ k.
          insert_repairs-Repaired count failure repairs r.projected final r₀ r₁ h₀
            (found (repairs, final) refl) (e₁ ∙ ap ok k))
        (ok_injective e₂)

  repair_failure-Rests :
      (count : ℕ) (excluded : List String) (failure : PredicateEvaluation) (r r' : RepairState)
      → Rests count r
      → repair_failure registry limits now excluded failure r ≡ ok (some r')
      → Rests count r'
  unfolding repair_failure
  repair_failure-Rests count excluded failure r r' h e =
      let ((o, stats), e₁, e₂) =
        >>=-eq-ok
          (search_fact registry limits now excluded limits.max_depth [] failure.field
            failure.expected r.projected r.stats)
          _ e in
      insert_found-Rests count failure r r' o stats h
        (λ p k.
          (search_fact-Establishes registry now limits excluded limits.max_depth [] failure.field
            failure.expected r.projected r.stats stats p
            (e₁ ∙ ap (λ (x : Option Proposal). ok (x, stats)) k)).0)
        e₂

  -- The chains of `if x is None: return None`.
  pub option_bind :
      (m : Result (Option RepairState)) (next : RepairState → Result (Option RepairState))
      (r' : RepairState)
      → (m >>= elim [ none ↦ ok none | some r ↦ next r ]) ≡ ok (some r')
      → (r : RepairState) × (m ≡ ok (some r)) × (next r ≡ ok (some r'))
  option_bind (err x) next r' e = cc
  option_bind (ok none) next r' e = cc
  option_bind (ok (some r)) next r' e = (r, refl, e)

  pub repair_failures-Rests :
      (count : ℕ) (excluded : List String) (failures : List PredicateEvaluation)
      (r r' : RepairState)
      → Rests count r
      → repair_failures registry limits now excluded failures r ≡ ok (some r')
      → Rests count r'
  unfolding repair_failures
  repair_failures-Rests count excluded [] r r' h e = subst (Rests count) (cc e) h
  repair_failures-Rests count excluded (failure ∷ failures) r r' h e =
      elim (Bool-cases (satisfied failure)) [
        | inl s ↦ repair_failures-Rests count excluded failures r r' h (rw s at e)
        | inr s ↦
            let (r₁, e₁, e₂) =
              option_bind (repair_failure registry limits now excluded failure r) _ r'
                (rw s at e) in
            repair_failures-Rests count excluded failures r₁ r'
              (repair_failure-Rests count excluded failure r r₁ h e₁) e₂
      ]
