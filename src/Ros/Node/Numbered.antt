-- ===== src/Ros/Node/Numbered.antt =====
-- The messages on the state topic are numbered one by one.
use embodied_skill_ros.Prelude.{
  Bool, Bool-cases, List, Option, String, [], false, if◌then◌else◌, inl, inr, nat_eq, none, not,
  refl, some, true, ℕ, ◌+◌, ◌==◌, ◌||◌, ◌∷◌, ◌≡◌,
}
use embodied_skill_ros.Prelude.Dict.{Dict, get}
use embodied_skill_ros.Prelude.Int.{negsuc, pos}
use embodied_skill_ros.Value.Numbers.{Float, finite, le_float, nan, neg_inf, pos_inf}
use embodied_skill_ros.Value.{Value}
use embodied_skill_ros.Errors.{Error}
use embodied_skill_ros.Ros.Robot.{Behavior, Envelope, FakeRobot, Goal, StateMessage}
use embodied_skill_ros.Ros.Node.{
  accept_envelope, accept_goal, accept_with, configure, due_reasons, install_command, next_behavior,
  not_due, publish, publish_all, publish_due, refresh_observation, refreshed, safe_stop, schedule,
  schedule_at, start_node, taken,
}
use embodied_skill_ros.Ros.Node.Execute.{
  WaitEnd, apply_transition, begin_goal, canceled_wait, conclude_goal, finish_goal, interfered,
  out_of_fuel, stalled_out, transition_goal, transitions, waited,
}
use embodied_skill_ros.Ros.Node.Runs.{
  Event, commanded, configured, goal_asked, goal_begun, goal_ended, refresh_asked, step, steps,
  stop_asked, timer_fired,
}

-- From the newest message to the oldest the numbers go down to 1 by one.
abbrev pub IsNumbered : ℕ → List StateMessage → Type 0
IsNumbered n [] = n ≡ 0
IsNumbered n (m ∷ ms) = (m.sequence ≡ n) × ((k : ℕ) × (n ≡ k + 1) × IsNumbered k ms)

abbrev pub Numbered : FakeRobot → Type 0
Numbered r = IsNumbered r.sequence r.published

publish-Numbered :
    (reason : String) (stamp : ℕ) (r : FakeRobot) → Numbered r → Numbered (publish reason stamp r)
unfolding publish
publish-Numbered reason stamp r h = (refl, (r.sequence, refl, h))

publish_all-Numbered :
    (reasons : List String) (stamp : ℕ) (r : FakeRobot)
    → Numbered r
    → Numbered (publish_all reasons stamp r)
unfolding publish_all
publish_all-Numbered [] stamp r h = h
publish_all-Numbered (reason ∷ reasons) stamp r h =
    publish_all-Numbered reasons stamp (publish reason stamp r) (publish-Numbered reason stamp r h)

either-Numbered :
    (b : Bool) (r s : FakeRobot) → Numbered r → Numbered s → Numbered (if b then r else s)
either-Numbered true r s h k = h
either-Numbered false r s h k = k

schedule_at-Numbered :
    (delay : Float) (reason : String) (now : ℕ) (r : FakeRobot)
    → Numbered r
    → Numbered (schedule_at delay reason now r)
unfolding schedule_at
schedule_at-Numbered (finite (pos n)) reason now r h = h
schedule_at-Numbered (finite (negsuc n)) reason now r h = h
schedule_at-Numbered pos_inf reason now r h = h
schedule_at-Numbered neg_inf reason now r h = h
schedule_at-Numbered nan reason now r h = h

schedule-Numbered :
    (delay : Float) (reason : String) (stamp now : ℕ) (r : FakeRobot)
    → Numbered r
    → Numbered (schedule delay reason stamp now r)
unfolding schedule
schedule-Numbered delay reason stamp now r h =
    either-Numbered (le_float delay (finite (pos 0))) (publish reason stamp r)
      (schedule_at delay reason now r) (publish-Numbered reason stamp r h)
      (schedule_at-Numbered delay reason now r h)

refreshed-Numbered :
    (fields : List String) (r : FakeRobot) → Numbered r → Numbered (refreshed fields r)
unfolding refreshed
refreshed-Numbered fields r h = either-Numbered r.refresh.succeeds _ r h h

taken-Numbered :
    (skill : String) (queue : Option (List Behavior)) (r : FakeRobot)
    → Numbered r
    → Numbered ((taken skill queue r).1)
unfolding taken
taken-Numbered skill none r h = h
taken-Numbered skill (some []) r h = h
taken-Numbered skill (some (b ∷ bs)) r h = h

accept_with-Numbered :
    (request_id : ℕ) (b : Behavior) (r : FakeRobot)
    → Numbered r
    → Numbered ((accept_with request_id (b, r)).1)
unfolding accept_with
accept_with-Numbered request_id b r h = elim (Bool-cases (b.mode == "reject")) [
  | inl e ↦ rw e h
  | inr e ↦ rw e h
]

accept_envelope-Numbered :
    (request_id : ℕ) (e : Option Envelope) (r : FakeRobot)
    → Numbered r
    → Numbered ((accept_envelope request_id e r).1)
unfolding accept_envelope next_behavior
accept_envelope-Numbered request_id none r h = h
accept_envelope-Numbered request_id (some e) r h =
    elim (Bool-cases (nat_eq request_id 0 || not (nat_eq e.request_id request_id))) [
      | inl b ↦ rw b h
      | inr b ↦ rw b (
          accept_with-Numbered request_id ((next_behavior e.skill r).0)
            ((next_behavior e.skill r).1) (taken-Numbered e.skill (get e.skill r.behaviors) r h))
    ]

interfered-Numbered : (b : Behavior) (r : FakeRobot) → Numbered r → Numbered (interfered b r)
unfolding interfered
interfered-Numbered b r h = either-Numbered (b.mode == "toctou") _ r h h

conclude_goal-Numbered :
    (b : Behavior) (moved : Bool) (a : Option Error × Dict Value) (stamp now : ℕ) (r : FakeRobot)
    → Numbered r
    → Numbered ((conclude_goal b moved a stamp now r).1)
unfolding conclude_goal
conclude_goal-Numbered b moved (some e, world) stamp now r h = h
conclude_goal-Numbered b moved (none, world) stamp now r h =
    schedule-Numbered b.observation_delay "post_action" stamp now (record r { world = world }) h

transition_goal-Numbered :
    (g : Goal) (stamp now : ℕ) (r : FakeRobot)
    → Numbered r
    → Numbered ((transition_goal g stamp now r).1)
unfolding transition_goal
transition_goal-Numbered g stamp now r h = elim (Bool-cases (transitions g.behavior)) [
  | inl e ↦ rw e (
      conclude_goal-Numbered g.behavior true (apply_transition g.skill g.arguments r.world) stamp
        now r h)
  | inr e ↦ rw e (conclude_goal-Numbered g.behavior false (none, r.world) stamp now r h)
]

finish_goal-Numbered :
    (g : Goal) (end : WaitEnd) (stamp now : ℕ) (r : FakeRobot)
    → Numbered r
    → Numbered ((finish_goal g end stamp now r).1)
unfolding finish_goal
finish_goal-Numbered g canceled_wait stamp now r h = publish-Numbered "action_canceled" stamp r h
finish_goal-Numbered g stalled_out stamp now r h = h
finish_goal-Numbered g out_of_fuel stamp now r h = h
finish_goal-Numbered g waited stamp now r h = elim (Bool-cases (g.behavior.mode == "abort")) [
  | inl e ↦ rw e (publish-Numbered "action_aborted" stamp r h)
  | inr e ↦ rw e (
      transition_goal-Numbered g stamp now (interfered g.behavior r)
        (interfered-Numbered g.behavior r h))
]

pub step-Numbered : (e : Event) (r : FakeRobot) → Numbered r → Numbered (step e r)
unfolding step publish configure install_command refresh_observation safe_stop publish_due
    accept_goal begin_goal
step-Numbered (configured s stamp) r h = (refl, (r.sequence, refl, h))
step-Numbered (commanded e) r h = h
step-Numbered (refresh_asked fields stamp now) r h =
    schedule-Numbered r.refresh.delay "active_refresh" stamp now (refreshed fields r)
      (refreshed-Numbered fields r h)
step-Numbered (stop_asked stamp) r h = (refl, (r.sequence, refl, h))
step-Numbered (timer_fired stamp now) r h =
    publish_all-Numbered (due_reasons now r.pending) stamp
      (record r { pending = not_due now r.pending }) h
step-Numbered (goal_asked request_id) r h =
    accept_envelope-Numbered request_id r.command_envelope r h
step-Numbered (goal_begun request_id) r h = h
step-Numbered (goal_ended g end stamp now) r h = finish_goal-Numbered g end stamp now r h

steps-Numbered_from : (es : List Event) (r : FakeRobot) → Numbered r → Numbered (steps es r)
unfolding steps
steps-Numbered_from [] r h = h
steps-Numbered_from (e ∷ es) r h = steps-Numbered_from es (step e r) (step-Numbered e r h)

-- Whatever callbacks have run since the node started, and in whatever order, the messages on the
-- state topic, where counting and publishing are one step, are numbered from 1 on without a gap, and
-- the last number is the node's sequence.
pub steps-Numbered : (es : List Event) (stamp : ℕ) → Numbered (steps es (start_node stamp))
unfolding start_node publish
steps-Numbered es stamp = steps-Numbered_from es (start_node stamp) (refl, (0, refl, refl))
