-- ===== src/Execution/Preflight/Bounded.antt =====
-- The preflight adds at most as many steps to a plan as the repairer may insert.
use embodied_skill_ros.Prelude.{
  Bool, Option, [], ap, arith, false, if◌then◌else◌, length, none, not, refl, some, subst, true,
  ◌+◌, ◌||◌, ◌∙◌, ◌≡◌, ◌≤◌,
}
use embodied_skill_ros.Errors.{>>=-eq-ok, Result, ok, ok_injective}
use embodied_skill_ros.State.{RobotState}
use embodied_skill_ros.Plan.{TaskPlan}
use embodied_skill_ros.Capabilities.{BackendCapabilities}
use embodied_skill_ros.Grounding.Issues.{requires_stop}
use embodied_skill_ros.Grounding.Ground.{ground_plan}
use embodied_skill_ros.Repair.Insert.{repair_plan}
use embodied_skill_ros.Repair.Insert.Replayed.{repair_plan-Replays}
use embodied_skill_ros.Execution.Backend.{Robot, Session}
use embodied_skill_ros.Execution.Machine.{Config, Options}
use embodied_skill_ros.Execution.Preflight.{
  Checked, Observed, capabilities, confirm, judge, observe_loop, policy_allows_repair, preflight,
  ready, refused,
}

module _ (robot : Robot) (config : Config) (options : Options) (c : BackendCapabilities)
    (plan : TaskPlan) where
  abbrev pub Short : TaskPlan → Type 0
  Short p = length p.steps ≤ length plan.steps + config.limits.max_insertions

  abbrev pub CheckedShort : Checked robot → Type 0
  CheckedShort (ready p decision decisions m) = Short p
  CheckedShort (refused p message m) = Unit

  if-CheckedShort :
      (b : Bool) (x y r : Checked robot)
      → CheckedShort x
      → CheckedShort y
      → ok (if b then x else y) ≡ ok r
      → CheckedShort r
  if-CheckedShort true x y r hx hy e = subst CheckedShort (ok_injective e) hx
  if-CheckedShort false x y r hx hy e = subst CheckedShort (ok_injective e) hy

  confirm-CheckedShort :
      (o : Observed robot config options c) (found : Option TaskPlan) (r : Checked robot)
      → ((p : TaskPlan) → found ≡ some p → Short p)
      → confirm robot config options c plan o found ≡ ok r
      → CheckedShort r
  unfolding confirm
  confirm-CheckedShort o none r short e = subst CheckedShort (ok_injective e) tt
  confirm-CheckedShort o (some p) r short e =
      let (report, e₁, e₂) =
        >>=-eq-ok
          (ground_plan config.registry p o.state (capabilities robot config options c)
            (robot.clock o.session.world))
          _ e in
      if-CheckedShort report.valid _ _ r (short p refl) tt e₂

  -- By the branch that gave the result.
  branch-CheckedShort :
      (b : Bool) (x y : Result (Checked robot)) (r : Checked robot)
      → (x ≡ ok r → CheckedShort r)
      → (y ≡ ok r → CheckedShort r)
      → (if b then x else y) ≡ ok r
      → CheckedShort r
  branch-CheckedShort true x y r hx hy e = hx e
  branch-CheckedShort false x y r hx hy e = hy e

  judge-CheckedShort :
      (o : Observed robot config options c) (r : Checked robot)
      → judge robot config options c plan o ≡ ok r
      → CheckedShort r
  unfolding judge
  judge-CheckedShort o r e =
      branch-CheckedShort o.report.valid _ _ r
        (λ k. subst CheckedShort (ok_injective k) (omega arith))
        (branch-CheckedShort (requires_stop o.report) _ _ r
          (λ k. subst CheckedShort (ok_injective k) tt)
          (branch-CheckedShort
            (not options.allow_repair
              || not (policy_allows_repair robot config options c plan o.report.issues))
            _ _ r (λ k. subst CheckedShort (ok_injective k) tt)
            (λ k.
              let (found, e₁, e₂) =
                >>=-eq-ok
                  (repair_plan config.registry config.limits plan o.state o.report
                    (robot.clock o.session.world))
                  (confirm robot config options c plan o) k in
              confirm-CheckedShort o found r
                (λ p k'.
                  (repair_plan-Replays config.registry config.limits (robot.clock o.session.world)
                    o.state plan p o.report (e₁ ∙ ap ok k')).2)
                e₂)))
        e

  pub preflight-CheckedShort :
      (state : RobotState) (m : Session robot) (r : Checked robot)
      → preflight robot config options c plan state m ≡ ok r
      → CheckedShort r
  unfolding preflight
  preflight-CheckedShort state m r e =
      branch-CheckedShort options.ground_plan _ _ r
        (λ k.
          let (report, e₁, e₂) =
            >>=-eq-ok
              (ground_plan config.registry plan state (capabilities robot config options c)
                (robot.clock m.world))
              _ k in
          let (o, e₃, e₄) =
            >>=-eq-ok
              (observe_loop robot config options c config.max_observation_attempts plan
                (record { state = state; report = report; decisions = []; session = m }))
              (judge robot config options c plan) e₂ in
          judge-CheckedShort o r e₄)
        (λ k. subst CheckedShort (ok_injective k) (omega arith)) e
