-- ===== src/Execution/Preflight/Grounded.antt =====
-- The plan that the preflight hands to the loops is grounded in the state it has observed.
use embodied_skill_ros.Prelude.{
  Bool, Bool-cases, List, Option, String, [], false, if◌then◌else◌, inl, inr, none, not, refl, some,
  subst, suc, true, zero, ℕ, ◌||◌, ◌≡◌,
}
use embodied_skill_ros.Errors.{>>=-eq-ok, Result, ok, ok_injective}
use embodied_skill_ros.State.{RobotState}
use embodied_skill_ros.Plan.{TaskPlan}
use embodied_skill_ros.Capabilities.{BackendCapabilities}
use embodied_skill_ros.Grounding.Issues.{GroundingReport, requires_stop}
use embodied_skill_ros.Grounding.Steps.Executable.{ExecutablePlan}
use embodied_skill_ros.Grounding.Parallel.{parallel_issues}
use embodied_skill_ros.Grounding.Ground.{ground_plan}
use embodied_skill_ros.Grounding.Ground.Valid.{ground_plan-ExecutablePlan}
use embodied_skill_ros.Repair.Insert.{repair_plan}
use embodied_skill_ros.Execution.Backend.{IsSeen, Robot, Session, acquire_fields, refresh}
use embodied_skill_ros.Execution.Goals.{observable_issue_fields}
use embodied_skill_ros.Execution.Machine.{Config, Decision, Options}
use embodied_skill_ros.Execution.Preflight.{
  Checked, Observed, capabilities, confirm, judge, observe_loop, policy_allows_repair, preflight,
  ready, refused, wants_observation,
}

module _ (robot : Robot) (config : Config) (options : Options) (c : BackendCapabilities) where
  -- A plan that can be executed in the state of a session, at the clock of its world, where the state
  -- is what the backend showed last: in an observation or when some fields were acquired.
  pub record IsGrounded (plan : TaskPlan) (m : Session robot) : Type 0 where
    pub seen : IsSeen robot m
    pub executable :
        ExecutablePlan config.registry
          (capabilities robot config options c)
          (robot.clock m.world)
          m.state
          []
          plan.steps
    pub parallel_clear : parallel_issues config.registry m.state plan.steps ≡ []

  abbrev CheckedGrounded : Checked robot → Type 0
  CheckedGrounded (ready p decision decisions m) = IsGrounded p m
  CheckedGrounded (refused p message m) = Unit

  grounded :
      (plan : TaskPlan) (state : RobotState) (m : Session robot) (report : GroundingReport)
      → state ≡ m.state
      → IsSeen robot m
      → ground_plan config.registry plan state
          (capabilities robot config options c)
          (robot.clock m.world)
        ≡ ok report
      → report.valid ≡ true
      → IsGrounded plan m
  grounded plan state m report same seen e valid =
      let (steps_ok, parallel_ok) =
        ground_plan-ExecutablePlan config.registry plan m.state
          (capabilities robot config options c) (robot.clock m.world) report
          (subst
            (λ s.
              ground_plan config.registry plan s (capabilities robot config options c)
                (robot.clock m.world)
              ≡ ok report)
            same e)
          valid in
      record { seen = seen; executable = steps_ok; parallel_clear = parallel_ok }

  refresh-IsSeen :
      (m : Session robot)
      → ((refresh robot m).0 ≡ ((refresh robot m).1).state) × IsSeen robot ((refresh robot m).1)
  unfolding refresh
  refresh-IsSeen m = (refl, inl (m.world, refl, refl))

  acquire_fields-IsSeen :
      (fields : List String) (m : Session robot)
      → ((acquire_fields robot fields m).0 ≡ ((acquire_fields robot fields m).1).state)
        × IsSeen robot ((acquire_fields robot fields m).1)
  unfolding acquire_fields
  acquire_fields-IsSeen fields m = (refl, inr (fields, m.world, refl, refl))

  module _ (plan : TaskPlan) where
    -- The report of the observation loop is about the state that it holds, which is the session's and
    -- was seen, at the clock of the session's world.
    abbrev IsCurrent : Observed robot config options c → Type 0
    IsCurrent o =
        (o.state ≡ o.session.state)
        × IsSeen robot o.session
        × (ground_plan config.registry plan o.state (capabilities robot config options c)
              (robot.clock o.session.world)
            ≡ ok o.report)

    observe_loop-IsCurrent :
        (attempts : ℕ) (o o' : Observed robot config options c)
        → IsCurrent o
        → observe_loop robot config options c attempts plan o ≡ ok o'
        → IsCurrent o'
    unfolding observe_loop
    observe_loop-IsCurrent zero o o' h e = subst IsCurrent (ok_injective e) h
    observe_loop-IsCurrent (suc attempts) o o' h e =
        let fields = observable_issue_fields config.registry plan o.report.issues c [] in
        branch (wants_observation robot config options c o.report fields) _ _
          (λ k.
            let (state, m) = acquire_fields robot fields o.session in
            let (report, e₁, e₂) =
              >>=-eq-ok
                (ground_plan config.registry plan state (capabilities robot config options c)
                  (robot.clock m.world))
                _ k in
            let (same, seen) = acquire_fields-IsSeen fields o.session in
            observe_loop-IsCurrent attempts _ o' (same, seen, e₁) e₂)
          (λ k. subst IsCurrent (ok_injective k) h) e
      where
        branch :
            (b : Bool) (x y : Result (Observed robot config options c))
            → (x ≡ ok o' → IsCurrent o')
            → (y ≡ ok o' → IsCurrent o')
            → (if b then x else y) ≡ ok o'
            → IsCurrent o'
        branch true x y hx hy k = hx k
        branch false x y hx hy k = hy k

    branch-CheckedGrounded :
        (b : Bool) (x y : Result (Checked robot)) (r : Checked robot)
        → (b ≡ true → x ≡ ok r → CheckedGrounded r)
        → (y ≡ ok r → CheckedGrounded r)
        → (if b then x else y) ≡ ok r
        → CheckedGrounded r
    branch-CheckedGrounded true x y r hx hy e = hx refl e
    branch-CheckedGrounded false x y r hx hy e = hy e

    confirm-CheckedGrounded :
        (o : Observed robot config options c) (found : Option TaskPlan) (r : Checked robot)
        → o.state ≡ o.session.state
        → IsSeen robot o.session
        → confirm robot config options c plan o found ≡ ok r
        → CheckedGrounded r
    unfolding confirm
    confirm-CheckedGrounded o none r same seen e = subst CheckedGrounded (ok_injective e) tt
    confirm-CheckedGrounded o (some p) r same seen e =
        let (report, e₁, e₂) =
          >>=-eq-ok
            (ground_plan config.registry p o.state (capabilities robot config options c)
              (robot.clock o.session.world))
            _ e in
        elim (Bool-cases report.valid) [
          | inl valid ↦
              subst CheckedGrounded (ok_injective (rw valid at e₂))
                (grounded p o.state o.session report same seen e₁ valid)
          | inr invalid ↦ subst CheckedGrounded (ok_injective (rw invalid at e₂)) tt
        ]

    judge-CheckedGrounded :
        (o : Observed robot config options c) (r : Checked robot)
        → IsCurrent o
        → judge robot config options c plan o ≡ ok r
        → CheckedGrounded r
    unfolding judge
    judge-CheckedGrounded o r (same, seen, current) e =
        branch-CheckedGrounded o.report.valid _ _ r
          (λ valid k.
            subst CheckedGrounded (ok_injective k)
              (grounded plan o.state o.session o.report same seen current valid))
          (branch-CheckedGrounded (requires_stop o.report) _ _ r
            (λ stop k. subst CheckedGrounded (ok_injective k) tt)
            (branch-CheckedGrounded
              (not options.allow_repair
                || not (policy_allows_repair robot config options c plan o.report.issues))
              _ _ r (λ denied k. subst CheckedGrounded (ok_injective k) tt)
              (λ k.
                let (found, e₁, e₂) =
                  >>=-eq-ok
                    (repair_plan config.registry config.limits plan o.state o.report
                      (robot.clock o.session.world))
                    (confirm robot config options c plan o) k in
                confirm-CheckedGrounded o found r same seen e₂)))
          e

  -- Where grounding is on, the plan that the preflight hands to the loops behind an observation, be it
  -- the given one or a repaired one, can be executed step by step in the states projected from the
  -- state of the session that it hands on, at the clock of that session's world. This state is what
  -- the backend showed last, in an observation or when some fields were acquired, whichever branch of
  -- observation and repair led to it.
  pub preflight-IsGrounded :
      (plan p : TaskPlan) (m m' : Session robot) (d : Decision) (ds : List Decision)
      → options.ground_plan ≡ true
      → preflight robot config options c plan ((refresh robot m).0) ((refresh robot m).1)
        ≡ ok (ready p d ds m')
      → IsGrounded p m'
  unfolding preflight
  preflight-IsGrounded plan p m m' d ds on e =
      let (state, m₁) = refresh robot m in
      let (same, seen) = refresh-IsSeen m in
      let (report, e₁, e₂) =
        >>=-eq-ok
          (ground_plan config.registry plan state (capabilities robot config options c)
            (robot.clock m₁.world))
          _ (taken options.ground_plan _ _ (ready p d ds m') on e) in
      let (o, e₃, e₄) =
        >>=-eq-ok
          (observe_loop robot config options c config.max_observation_attempts plan
            (record { state = state; report = report; decisions = []; session = m₁ }))
          (judge robot config options c plan) e₂ in
      judge-CheckedGrounded plan o (ready p d ds m')
        (observe_loop-IsCurrent plan config.max_observation_attempts _ o (same, seen, e₁) e₃) e₄
    where
      taken :
          (b : Bool) (x y : Result (Checked robot)) (r : Checked robot)
          → b ≡ true
          → (if b then x else y) ≡ ok r
          → x ≡ ok r
      taken true x y r t k = k
      taken false x y r t k = cc
