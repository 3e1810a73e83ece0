-- ===== src/Mock/Motion/Still.antt =====
-- When a command of the mock backend leaves the world as it is.
use embodied_skill_ros.Prelude.{
  Bool, List, String, [], ap, arith, false, if◌then◌else◌, inl, inr, is_nil, none, refl, some,
  subst, sym, true, ◌++◌, ◌==◌, ◌||◌, ◌∙◌, ◌∷◌, ◌≡◌, ◌≢◌, ◌⊎◌,
}
use embodied_skill_ros.Prelude.Dict.{Dict, get}
use embodied_skill_ros.Value.{Value, bool}
use embodied_skill_ros.Errors.{Result, ok, ok_injective}
use embodied_skill_ros.State.{RobotState, copy_with, raw_value}
use embodied_skill_ros.Constraints.{is_true}
use embodied_skill_ros.Execution.Backend.{CommandReceipt}
use embodied_skill_ros.Mock.{
  FaultEvent, FaultMode, MockRobotBackend, command_failure, physical_failure, set_state,
  state_drift, timeout,
}
use embodied_skill_ros.Mock.Motion.{
  answer, drifted, faulted, inhibited, mock_command, next_event, receipt, unfaulted,
}
use embodied_skill_ros.Prelude.Dict

-- The event that answers the next command of a skill: the first in its queue, or its permanent
-- fault where the queue is empty.
pub data IsDue (name : String) (b : MockRobotBackend) : FaultEvent → Type 0 where
  queued :
      {event : FaultEvent} (events : List FaultEvent)
      → Dict.get name b.faults ≡ some (event ∷ events)
      → IsDue name b event
  permanent :
      {event : FaultEvent}
      → (Dict.get name b.faults ≡ none) ⊎ (Dict.get name b.faults ≡ some [])
      → Dict.get name b.permanent_faults ≡ some event
      → IsDue name b event

-- No event answers it.
pub record NothingDue (name : String) (b : MockRobotBackend) : Type 0 where
  pub no_queue : (Dict.get name b.faults ≡ none) ⊎ (Dict.get name b.faults ≡ some [])
  pub no_permanent : Dict.get name b.permanent_faults ≡ none

abbrev pub mode_accepts : FaultMode → Bool
mode_accepts timeout = false
mode_accepts command_failure = false
mode_accepts physical_failure = true
mode_accepts state_drift = true

-- The state behind the drift of an event, if it has one.
abbrev pub drifted_world : FaultEvent → MockRobotBackend → RobotState
drifted_world event b =
    if is_nil event.drift
    then b.world
    else record (copy_with b.world event.drift) { timestamp = some b.time }

logged : String → Dict Value → MockRobotBackend → MockRobotBackend
logged name arguments b = record b { command_log = b.command_log ++ (name, arguments) ∷ [] }

drifted-world :
    (event : FaultEvent) (b : MockRobotBackend)
    → (drifted (some event) b).world ≡ drifted_world event b
unfolding drifted set_state
drifted-world event b = ground arith

returned_parts :
    (r r' : CommandReceipt) (b b' : MockRobotBackend)
    → ◌≡◌ {A = Result (CommandReceipt × MockRobotBackend)} (ok (r, b)) (ok (r', b'))
    → (b'.world ≡ b.world) × (r'.accepted ≡ r.accepted)
returned_parts r r' b b' e =
    let before : CommandReceipt × MockRobotBackend = (r, b) in
    let after : CommandReceipt × MockRobotBackend = (r', b') in
    let pair : before ≡ after = ok_injective e in
    (
      sym (ap (λ (x : CommandReceipt × MockRobotBackend). (x.1).world) pair),
      sym (ap (λ (x : CommandReceipt × MockRobotBackend). (x.0).accepted) pair),
    )

answer-event :
    (name : String) (arguments : Dict Value) (event : FaultEvent) (b b' : MockRobotBackend)
    (r : CommandReceipt)
    → answer name arguments (faulted (some event)) (drifted (some event) b) ≡ ok (r, b')
    → (b'.world ≡ drifted_world event b) × (r.accepted ≡ mode_accepts event.mode)
unfolding answer faulted receipt
answer-event name arguments event b b' r e = by_mode event.mode e
  where
    placed :
        {a : Bool}
        → (b'.world ≡ (drifted (some event) b).world) × (r.accepted ≡ a)
        → (b'.world ≡ drifted_world event b) × (r.accepted ≡ a)
    placed h = (h.0 ∙ drifted-world event b, h.1)

    by_mode :
        (mode : FaultMode)
        → answer name arguments
            (faulted (some (record event { mode = mode })))
            (drifted (some event) b)
          ≡ ok (r, b')
        → (b'.world ≡ drifted_world event b) × (r.accepted ≡ mode_accepts mode)
    by_mode timeout k = placed (returned_parts _ r (drifted (some event) b) b' k)
    by_mode command_failure k = placed (returned_parts _ r (drifted (some event) b) b' k)
    by_mode physical_failure k = placed (returned_parts _ r (drifted (some event) b) b' k)
    by_mode state_drift k = placed (returned_parts _ r (drifted (some event) b) b' k)

-- A command that an injected event answers changes the world by the drift of the event alone,
-- whatever the command is, and is accepted only for a physical failure or a drift.
pub mock_command-event :
    (name : String) (arguments : Dict Value) (b b' : MockRobotBackend) (r : CommandReceipt)
    (event : FaultEvent)
    → IsDue name b event
    → mock_command name arguments b ≡ ok (r, b')
    → (b'.world ≡ drifted_world event b) × (r.accepted ≡ mode_accepts event.mode)
unfolding mock_command logged next_event
mock_command-event name arguments b b' r event (queued events q) e =
    answer-event name arguments event
      (record (logged name arguments b) { faults = Dict.put name events b.faults }) b' r (rw q at e)
mock_command-event name arguments b b' r event (permanent (inl q) p) e =
    answer-event name arguments event (logged name arguments b) b' r (rw (q, p) at e)
mock_command-event name arguments b b' r event (permanent (inr q) p) e =
    answer-event name arguments event (logged name arguments b) b' r (rw (q, p) at e)

still_when_inhibited :
    (name : String) (arguments : Dict Value) (b b' : MockRobotBackend) (r : CommandReceipt)
    → inhibited name b.world ≡ true
    → answer name arguments (faulted none) (drifted none (logged name arguments b)) ≡ ok (r, b')
    → (b'.world ≡ b.world) × (r.accepted ≡ true)
unfolding answer faulted drifted unfaulted logged receipt
still_when_inhibited name arguments b b' r held e =
    returned_parts _ r (logged name arguments b) b' (rw held at e)

-- A motion of the base or the lift.
abbrev pub Moves : String → Type 0
Moves name = (name ≡ "move_agv") ⊎ (name ≡ "set_lift")

-- One of the arms is not known to be safe.
abbrev pub ArmInWay : RobotState → Type 0
ArmInWay world =
    (raw_value world "left_arm_safe" ≢ bool true) ⊎ (raw_value world "right_arm_safe" ≢ bool true)

not-is_true : (v : Value) → v ≢ bool true → is_true v ≡ false
unfolding is_true
not-is_true (bool true) h = absurd (h refl)
not-is_true (bool false) h = refl
not-is_true _ h = refl

arm-inhibited :
    (name : String) (world : RobotState)
    → (name == "move_agv" || name == "set_lift") ≡ true
    → ArmInWay world
    → inhibited name world ≡ true
unfolding inhibited
arm-inhibited name world m (inl h) =
    let e = not-is_true (raw_value world "left_arm_safe") h in ground arith
arm-inhibited name world m (inr h) =
    let e = not-is_true (raw_value world "right_arm_safe") h in ground arith

motion_held :
    (name : String) (world : RobotState) → Moves name → ArmInWay world → inhibited name world ≡ true
motion_held name world (inl e) h =
    arm-inhibited name world (subst (λ n. (n == "move_agv" || n == "set_lift") ≡ true) (sym e) refl)
      h
motion_held name world (inr e) h =
    arm-inhibited name world (subst (λ n. (n == "move_agv" || n == "set_lift") ≡ true) (sym e) refl)
      h

-- A command of the base or the lift that no event answers, while either arm is not known to be safe,
-- is accepted and changes nothing, whatever its arguments and the registered handlers are.
pub mock_command-inhibited :
    (name : String) (arguments : Dict Value) (b b' : MockRobotBackend) (r : CommandReceipt)
    → NothingDue name b
    → Moves name
    → ArmInWay b.world
    → mock_command name arguments b ≡ ok (r, b')
    → (b'.world ≡ b.world) × (r.accepted ≡ true)
unfolding mock_command logged next_event
mock_command-inhibited name arguments b b' r nothing moves in_way e =
    quiet nothing.no_queue nothing.no_permanent
  where
    held : inhibited name b.world ≡ true
    held = motion_held name b.world moves in_way

    quiet :
        (Dict.get name b.faults ≡ none) ⊎ (Dict.get name b.faults ≡ some [])
        → Dict.get name b.permanent_faults ≡ none
        → (b'.world ≡ b.world) × (r.accepted ≡ true)
    quiet (inl q) p = still_when_inhibited name arguments b b' r held (rw (q, p) at e)
    quiet (inr q) p = still_when_inhibited name arguments b b' r held (rw (q, p) at e)
