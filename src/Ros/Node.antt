-- ===== src/Ros/Node.antt =====
-- embodied_skill_ros/ros2/fake_robot_node.py: the operations of `FakeRobotNode`. `stamp` is
-- `datetime.now()` in microseconds and `now` is `time.monotonic()` at the call.
pub mod Execute
pub mod Numbered
pub mod Runs
use embodied_skill_ros.Prelude.{
  Bool, List, Option, String, [], false, if◌then◌else◌, is_some, keep, leb, map, nat_eq, none, not,
  some, true, ℕ, ◌++◌, ◌+◌, ◌==◌, ◌||◌, ◌∷◌,
}
use embodied_skill_ros.Prelude.Dict.{Dict, get, keys, put, update}
use embodied_skill_ros.Prelude.Texts.{contains, difference}
use embodied_skill_ros.Prelude.Int.{pos}
use embodied_skill_ros.Value.Numbers.{Float, finite, le_float}
use embodied_skill_ros.Value.{Value, bool, is_null, null}
use embodied_skill_ros.State.{RobotState, Stamp, is_value_field}
use embodied_skill_ros.Ros.Robot.{
  Behavior, Envelope, FakeRobot, Scenario, default_world, normal_behavior,
}

-- The bookkeeping fields of `RobotState`, which hold no value of the world.
bookkeeping : List String
bookkeeping =
    "active_resources" ∷ "facts" ∷ "observed_at" ∷ "stale_fields" ∷ "conflicts" ∷ "timestamp" ∷ []

known_name : String → Bool
unfolding bookkeeping contains is_value_field
known_name name = is_value_field name || contains name bookkeeping

-- `{key: value for key, value in d.items() if test(key)}`
select : (String → Bool) → Dict Value → Dict Value
select test d = keep (λ entry. test (entry.0)) d

-- `for field_name in self._unknown_fields`
hide_fields : List String → Dict Value → Dict Value → Dict Value × Dict Value
unfolding get put
hide_fields [] ordinary dynamic = (ordinary, dynamic)
hide_fields (name ∷ names) ordinary dynamic =
    if is_some (get name ordinary)
    then hide_fields names (put name null ordinary) dynamic
    else hide_fields names ordinary (put name null dynamic)

stamps_of : ℕ → List String → Dict Stamp
stamps_of stamp [] = []
stamps_of stamp (name ∷ names) = (name, some stamp) ∷ stamps_of stamp names

-- `_state_message`, the state; overrides are taken to name no bookkeeping field.
unfoldable pub shown_state : FakeRobot → ℕ → RobotState
unfolding known_name select hide_fields stamps_of is_value_field is_null update
shown_state r stamp =
    let ordinary = update (select is_value_field r.world) (select is_value_field r.overrides) in
    let dynamic =
      update (select (λ k. not (known_name k)) r.world)
        (select (λ k. not (known_name k)) r.overrides) in
    let (values, facts) = hide_fields r.unknown_fields ordinary dynamic in
    let observed = keys (keep (λ entry. not (is_null (entry.1))) (update values facts)) in
    record {
      attributes = values;
      active_resources = [];
      facts = facts;
      observed_at = stamps_of stamp observed;
      stale_fields = r.stale_fields;
      conflicts = r.conflicts;
      timestamp = some stamp;
    }

-- `_publish_observation`, as one step: the code counts under its lock and publishes outside it, so that
-- messages may leave in another order than their numbers.
unfoldable pub publish : String → ℕ → FakeRobot → FakeRobot
unfolding shown_state
publish reason stamp r =
    let sequence = r.sequence + 1 in
    record r {
      sequence = sequence;
      published =
          record { sequence = sequence; reason = reason; state = shown_state r stamp }
          ∷ r.published;
    }

-- `time.monotonic() + delay_s` of a positive delay; one that is not finite never comes due.
schedule_at : Float → String → ℕ → FakeRobot → FakeRobot
schedule_at (finite (pos delay)) reason now r = record r {
  pending = r.pending ++ (now + delay, reason) ∷ [];
}
schedule_at _ reason now r = r

-- `_schedule_observation`
unfoldable pub schedule : Float → String → ℕ → ℕ → FakeRobot → FakeRobot
unfolding schedule_at publish le_float
schedule delay reason stamp now r =
    if le_float delay (finite (pos 0))
    then publish reason stamp r
    else schedule_at delay reason now r

publish_all : List String → ℕ → FakeRobot → FakeRobot
unfolding publish
publish_all [] stamp r = r
publish_all (reason ∷ reasons) stamp r = publish_all reasons stamp (publish reason stamp r)

due_reasons : ℕ → List (ℕ × String) → List String
due_reasons now pending = map (λ entry. entry.1) (keep (λ entry. leb (entry.0) now) pending)

not_due : ℕ → List (ℕ × String) → List (ℕ × String)
not_due now pending = keep (λ entry. not (leb (entry.0) now)) pending

-- `_publish_due_observations`
unfoldable pub publish_due : ℕ → ℕ → FakeRobot → FakeRobot
unfolding publish_all due_reasons not_due
publish_due stamp now r =
    publish_all (due_reasons now r.pending) stamp (record r { pending = not_due now r.pending })

-- `_configure`: every variable is set anew but the sequence.
unfoldable pub configure : Scenario → ℕ → FakeRobot → FakeRobot
unfolding publish update
configure s stamp r = publish "scenario_configured" stamp record {
  world = update default_world s.initial_state;
  sequence = r.sequence;
  behaviors = s.behaviors;
  active_behavior = [];
  command_envelope = none;
  unknown_fields = s.unknown_fields;
  stale_fields = s.stale_fields;
  overrides = s.overrides;
  conflicts = s.conflicts;
  refresh = s.refresh;
  pending = [];
  safe_stop_count = 0;
  published = r.published;
}

-- `FakeRobotNode.__init__`
unfoldable pub start_node : ℕ → FakeRobot
unfolding publish
start_node stamp = publish "startup" stamp record {
  world = default_world;
  sequence = 0;
  behaviors = [];
  active_behavior = [];
  command_envelope = none;
  unknown_fields = [];
  stale_fields = [];
  overrides = [];
  conflicts = [];
  refresh = record { succeeds = false; values = []; delay = finite (pos 0) };
  pending = [];
  safe_stop_count = 0;
  published = [];
}

-- `command_json` of `_parameters_changed`
unfoldable pub install_command : Envelope → FakeRobot → FakeRobot
install_command e r = record r { command_envelope = some e }

remove_keys : List String → Dict Value → Dict Value
unfolding contains
remove_keys names d = keep (λ entry. not (contains (entry.0) names)) d

-- What a refresh that succeeds does to the world and to the sensors.
refreshed : List String → FakeRobot → FakeRobot
unfolding update difference remove_keys
refreshed fields r =
    if r.refresh.succeeds
    then record r {
      world = update r.world r.refresh.values;
      unknown_fields = difference r.unknown_fields fields;
      stale_fields = difference r.stale_fields fields;
      overrides = remove_keys fields r.overrides;
    }
    else r

-- `_refresh_observation`
unfoldable pub refresh_observation : List String → ℕ → ℕ → FakeRobot → FakeRobot
unfolding refreshed schedule
refresh_observation fields stamp now r =
    schedule r.refresh.delay "active_refresh" stamp now (refreshed fields r)

-- `_safe_stop`
unfoldable pub safe_stop : ℕ → FakeRobot → FakeRobot
unfolding publish put
safe_stop stamp r = publish "safe_stop" stamp (record r {
  world = put "agv_moving" (bool false) r.world;
  safe_stop_count = r.safe_stop_count + 1;
})

taken : String → Option (List Behavior) → FakeRobot → Behavior × FakeRobot
unfolding put
taken skill (some (b ∷ bs)) r = (b, record r { behaviors = put skill bs r.behaviors })
taken skill _ r = (normal_behavior, r)

-- `_next_behavior`
unfoldable pub next_behavior : String → FakeRobot → Behavior × FakeRobot
unfolding taken get
next_behavior skill r = taken skill (get skill r.behaviors) r

-- A dictionary of behaviors without one number.
forget_goal : ℕ → List (ℕ × Behavior) → List (ℕ × Behavior)
forget_goal request_id active = keep (λ entry. not (nat_eq (entry.0) request_id)) active

-- The handler behind the test of the envelope.
accept_with : ℕ → Behavior × FakeRobot → Bool × FakeRobot
unfolding forget_goal
accept_with request_id (b, r) = if b.mode == "reject" then (false, r) else (
  true,
  record r { active_behavior = (request_id, b) ∷ forget_goal request_id r.active_behavior },
)

accept_envelope : ℕ → Option Envelope → FakeRobot → Bool × FakeRobot
unfolding accept_with next_behavior
accept_envelope request_id none r = (false, r)
accept_envelope request_id (some e) r =
    if nat_eq request_id 0 || not (nat_eq e.request_id request_id)
    then (false, r)
    else accept_with request_id (next_behavior e.skill r)

-- `_accept_goal`
unfoldable pub accept_goal : ℕ → FakeRobot → Bool × FakeRobot
unfolding accept_envelope
accept_goal request_id r = accept_envelope request_id r.command_envelope r
