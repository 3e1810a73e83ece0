-- ===== src/Ros/Node/Execute/Moved.antt =====
-- What the end of a goal does to the world.
use embodied_skill_ros.Prelude.{
  Bool-cases, Option, String, ap, arith, eq_iff, false, inl, inr, none, not, refl, some, subst, sym,
  true, true-ne-false, ℕ, ◌==◌, ◌||◌, ◌∙◌, ◌≡◌,
}
use embodied_skill_ros.Prelude.Dict.{Dict}
use embodied_skill_ros.Prelude.Int.{negsuc, pos}
use embodied_skill_ros.Value.Numbers.{Float, finite, nan, neg_inf, pos_inf}
use embodied_skill_ros.Value.{Value}
use embodied_skill_ros.Errors.{Error}
use embodied_skill_ros.Ros.Robot.{Behavior, FakeRobot, Goal}
use embodied_skill_ros.Ros.Node.{publish, schedule, schedule_at}
use embodied_skill_ros.Ros.Node.Execute.{
  GoalEnd, WaitEnd, apply_transition, canceled_wait, conclude_goal, failed, finish_goal, interfered,
  out_of_fuel, stalled_out, succeeded, transition_goal, transitions, waited,
}

-- What is left of the world, by the end of the goal.
abbrev pub WorldAfter : Goal → FakeRobot → GoalEnd → Dict Value → Type 0
WorldAfter g r (succeeded true) world =
    apply_transition g.skill g.arguments (interfered g.behavior r).world ≡ (none, world)
WorldAfter g r (failed e) world =
    apply_transition g.skill g.arguments (interfered g.behavior r).world ≡ (some e, world)
WorldAfter g r _ world = world ≡ r.world

schedule-world :
    (delay : Float) (reason : String) (stamp now : ℕ) (r : FakeRobot)
    → (schedule delay reason stamp now r).world ≡ r.world
unfolding schedule schedule_at publish
schedule-world (finite (pos n)) reason stamp now r = ground arith
schedule-world (finite (negsuc n)) reason stamp now r = ground arith
schedule-world pos_inf reason stamp now r = ground arith
schedule-world neg_inf reason stamp now r = ground arith
schedule-world nan reason stamp now r = ground arith

interfered-other :
    (b : Behavior) (r : FakeRobot) → transitions b ≡ false → (interfered b r).world ≡ r.world
unfolding transitions interfered
interfered-other b r h = elim (Bool-cases (b.mode == "toctou")) [
  | inl e ↦ absurd (
      true-ne-false (
        subst (λ m. not (m == "no_motion" || m == "fresh_spoof") ≡ false)
          ((eq_iff b.mode "toctou").0 e) h))
  | inr e ↦ rw e refl
]

conclude-moved :
    (g : Goal) (stamp now : ℕ) (r : FakeRobot) (a : Option Error × Dict Value)
    → apply_transition g.skill g.arguments (interfered g.behavior r).world ≡ a
    → WorldAfter g r
        ((conclude_goal g.behavior true a stamp now (interfered g.behavior r)).0)
        ((conclude_goal g.behavior true a stamp now (interfered g.behavior r)).1).world
unfolding conclude_goal
conclude-moved g stamp now r (some e, world) h = h
conclude-moved g stamp now r (none, world) h =
    h
    ∙ ap (λ w. (none, w))
        (sym (
          schedule-world g.behavior.observation_delay "post_action" stamp now
            (record (interfered g.behavior r) { world = world })))

transition_goal-WorldAfter :
    (g : Goal) (stamp now : ℕ) (r : FakeRobot)
    → WorldAfter g r
        ((transition_goal g stamp now (interfered g.behavior r)).0)
        ((transition_goal g stamp now (interfered g.behavior r)).1).world
unfolding transition_goal conclude_goal
transition_goal-WorldAfter g stamp now r = elim (Bool-cases (transitions g.behavior)) [
  | inl e ↦ rw e (conclude-moved g stamp now r _ refl)
  | inr e ↦ rw e (
      schedule-world g.behavior.observation_delay "post_action" stamp now (interfered g.behavior r)
      ∙ interfered-other g.behavior r e)
]

-- A goal that is canceled or aborted, and one that succeeds without a transition, leaves the world as
-- it was, whatever its script is. One that succeeds with a transition, or whose callback raises,
-- leaves what the transition of its skill makes of the world, in which the script may have
-- interfered just before.
pub finish_goal-WorldAfter :
    (g : Goal) (end : WaitEnd) (stamp now : ℕ) (r : FakeRobot)
    → WorldAfter g r ((finish_goal g end stamp now r).0) ((finish_goal g end stamp now r).1).world
unfolding finish_goal publish
finish_goal-WorldAfter g canceled_wait stamp now r = refl
finish_goal-WorldAfter g stalled_out stamp now r = refl
finish_goal-WorldAfter g out_of_fuel stamp now r = refl
finish_goal-WorldAfter g waited stamp now r = elim (Bool-cases (g.behavior.mode == "abort")) [
  | inl e ↦ rw e refl
  | inr e ↦ rw e (transition_goal-WorldAfter g stamp now r)
]
