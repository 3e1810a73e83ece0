-- ===== src/Ros/Client.antt =====
-- embodied_skill_ros/ros2/ros2_backend.py: `Ros2RobotBackend`. What arrives on the state topic while
-- the client waits is given as a list, in the order of arrival: `none` is a message that cannot be
-- decoded. The calls of the node's services are given by how they end.
pub mod Newest
pub mod Delivered
pub mod Observed
use embodied_skill_ros.Prelude.{
  Bool, List, Option, String, [], false, if◌then◌else◌, leb, none, some, true, ℕ, ◌++◌, ◌+◌, ◌∷◌,
}
use embodied_skill_ros.State.{RobotState}
use embodied_skill_ros.Execution.Backend.{CommandReceipt}
use embodied_skill_ros.Ros.Robot.{StateMessage}
use Prim.Native.String.{◌++◌ as append}

abbrev pub Arrivals : Type 0
Arrivals = List (Option StateMessage)

pub record Client : Type 0 where
  pub latest : Option RobotState
  pub sequence : ℕ
  pub history : List ℕ
  pub request_id : ℕ
  pub required : Option ℕ

-- The variables that `__init__` sets.
abbrev pub new_client : Client
new_client = record { latest = none; sequence = 0; history = []; request_id = 0; required = none }

-- A message that is older than the latest one is only kept in the history.
take_newest : StateMessage → Client → Client
take_newest m c =
    if leb c.sequence m.sequence
    then record c { sequence = m.sequence; latest = some m.state }
    else c

-- `_receive_state`
unfoldable pub receive : Option StateMessage → Client → Client
unfolding take_newest
receive none c = c
receive (some m) c = record (take_newest m c) { history = c.history ++ m.sequence ∷ [] }

unfoldable pub receive_all : Arrivals → Client → Client
unfolding receive
receive_all [] c = c
receive_all (m ∷ ms) c = receive_all ms (receive m c)

-- `self._latest_state is not None and self._sequence > after_sequence`
newer_than : ℕ → Client → Option RobotState
newer_than after c = if leb c.sequence after then none else c.latest

unless_found :
    Option RobotState
    → Client
    → Arrivals
    → Option RobotState × Client × Arrivals
    → Option RobotState × Client × Arrivals
unless_found (some s) c ms later = (some s, c, ms)
unless_found none c ms later = later

-- `_wait_for_observation`: the state that is returned, or nothing at the deadline; and what is left
-- to arrive.
unfoldable pub wait_for_observation : ℕ → Arrivals → Client → Option RobotState × Client × Arrivals
unfolding newer_than receive unless_found
wait_for_observation after [] c = (newer_than after c, c, [])
wait_for_observation after (m ∷ ms) c =
    unless_found (newer_than after c) c (m ∷ ms) (wait_for_observation after ms (receive m c))

-- A state that was waited for, or the latest one.
or_latest : Option RobotState → Client → Option RobotState
or_latest (some s) c = some s
or_latest none c = c.latest

observe_required : Option ℕ → Arrivals → Client → Option RobotState × Client
unfolding wait_for_observation or_latest
observe_required (some after) arrivals c =
    let (found, c', rest) = wait_for_observation after arrivals c in
    (or_latest found c', record c' { required = none })
observe_required none arrivals c = elim c.latest [
  | some s ↦ (some s, c)
  | none ↦ let (found, c', rest) = wait_for_observation 0 arrivals c in (found, c')
]

-- `observe`; nothing where it raises
unfoldable pub client_observe : Arrivals → Client → Option RobotState × Client
unfolding observe_required
client_observe arrivals c = observe_required c.required arrivals c

-- How a call of a service ends.
pub data CallEnd (X : Type 0) : Type 0 where
  returned : X → CallEnd X
  unavailable : String → CallEnd X

acquired : Option RobotState × Client × Arrivals → Arrivals → Option RobotState × Client
unfolding client_observe
acquired (some s, c, rest) later = (some s, c)
acquired (none, c, rest) later = client_observe later c

-- `acquire`: the refresh request is a parameter of the node; nothing where the call raises. The
-- sequence is read first, `arrivals` come from then on, and `later` behind the first deadline.
unfoldable pub client_acquire :
    CallEnd Bool → Arrivals → Arrivals → Client → Option RobotState × Client
unfolding wait_for_observation acquired
client_acquire (returned true) arrivals later c =
    acquired (wait_for_observation c.sequence arrivals (record c { request_id = c.request_id + 1 }))
      later
client_acquire _ arrivals later c = (none, record c { request_id = c.request_id + 1 })

pub data GoalStatus : Type 0 where
  status_succeeded status_aborted status_canceled : GoalStatus
  status_other : String → GoalStatus

status_name : GoalStatus → String
status_name status_succeeded = "SUCCEEDED"
status_name status_aborted = "ABORTED"
status_name status_canceled = "CANCELED"
status_name (status_other n) = append "STATUS_" n

-- The end of waiting for a result: `TimeoutError` is told from the other failures.
pub data ResultEnd : Type 0 where
  result_returned : GoalStatus → ResultEnd
  result_timeout : ResultEnd
  result_unavailable : String → ResultEnd

-- How the calls of one command end: the parameter with the envelope, the goal's acceptance, the
-- result, and, where that takes too long, the cancellation and the result after it.
pub record GoalCalls : Type 0 where
  pub installed : CallEnd Bool
  pub response : CallEnd Bool
  pub result : ResultEnd
  pub cancellation : CallEnd ℕ
  pub late_result : CallEnd GoalStatus

transport_error : String → CommandReceipt
transport_error message = record {
  accepted = false;
  backend_message = append "ROS action transport error: " message;
  timed_out = false;
}

accepted_goal : GoalStatus → Bool → CommandReceipt
unfolding status_name
accepted_goal status timed_out = record {
  accepted = true;
  backend_message = append "ROS action goal accepted; terminal status " (status_name status);
  timed_out = timed_out;
}

-- The receipt for a result, and the sequence that the next observation must pass.
concluded : GoalStatus → Bool → CommandReceipt × Bool
unfolding accepted_goal
concluded status timed_out = (accepted_goal status timed_out, true)

after_late : CallEnd GoalStatus → CommandReceipt × Bool
unfolding concluded transport_error
after_late (returned status) = concluded status true
after_late (unavailable message) = (transport_error message, false)

after_timeout : CallEnd ℕ → CallEnd GoalStatus → CommandReceipt × Bool
unfolding after_late transport_error
after_timeout (returned canceling) late = after_late late
after_timeout (unavailable message) late = (transport_error message, false)

after_acceptance : GoalCalls → ResultEnd → CommandReceipt × Bool
unfolding concluded after_timeout transport_error
after_acceptance calls (result_returned status) = concluded status false
after_acceptance calls result_timeout = after_timeout calls.cancellation calls.late_result
after_acceptance calls (result_unavailable message) = (transport_error message, false)

after_response : GoalCalls → CallEnd Bool → CommandReceipt × Bool
unfolding after_acceptance transport_error
after_response calls (returned true) = after_acceptance calls calls.result
after_response calls (returned false) = (
  record { accepted = false; backend_message = "ROS action goal rejected"; timed_out = false },
  false,
)
after_response calls (unavailable message) = (transport_error message, false)

after_installation : GoalCalls → CallEnd Bool → CommandReceipt × Bool
unfolding after_response transport_error
after_installation calls (returned true) = after_response calls calls.response
after_installation calls (returned false) =
    (transport_error "ROS parameter command_json rejected", false)
after_installation calls (unavailable message) = (transport_error message, false)

-- `command`; `arrivals` come while it waits. The handle of the current goal, which only an external
-- cancellation reads, is left out.
unfoldable pub client_command : GoalCalls → Arrivals → Client → CommandReceipt × Client
unfolding after_installation receive_all
client_command calls arrivals c =
    let (receipt, concluded) = after_installation calls calls.installed in
    let c' = receive_all arrivals (record c { request_id = c.request_id + 1 }) in
    (receipt, record c' { required = if concluded then some c.sequence else c'.required })

stop_reply : CallEnd (Bool × String) → CommandReceipt
stop_reply (returned (success, message)) = record {
  accepted = success;
  backend_message = message;
  timed_out = false;
}
stop_reply (unavailable message) = record {
  accepted = false;
  backend_message = append "safe-stop transport error: " message;
  timed_out = false;
}

-- `stop`
unfoldable pub client_stop : CallEnd (Bool × String) → CommandReceipt
unfolding stop_reply
client_stop answer = stop_reply answer
