-- ===== src/Execution/Backend.antt =====
-- The abstract class `RobotBackend` of embodied_skill_ros/backends/base_backend.py as the executor
-- uses it, with the clocks that the program reads (a command may raise; the other operations return), and `StateManager` of
-- embodied_skill_ros/state/state_manager.py.
use embodied_skill_ros.Prelude.{Bool, List, String, if◌then◌else◌, not, ℕ, ◌&&◌, ◌≡◌, ◌⊎◌}
use embodied_skill_ros.Value.{Value, is_null, text}
use embodied_skill_ros.Errors.{Result}
use embodied_skill_ros.State.{RobotState, assign, raw_value}
use embodied_skill_ros.Skill.Template.{Arguments}
use embodied_skill_ros.Capabilities.{BackendCapabilities}

pub record CommandReceipt : Type 0 where
  pub accepted : Bool
  pub backend_message : String
  pub timed_out : Bool

-- A backend with its world: each operation may change the world. `clock` is `datetime.now()` and
-- `monotonic` is `time.monotonic()`, both in microseconds.
pub record Robot : Type 1 where
  pub World : Type 0
  pub capabilities : World → BackendCapabilities
  pub observe : World → RobotState × World
  pub acquire : List String → World → RobotState × World
  pub command : String → Arguments → World → Result (CommandReceipt × World)
  pub stop : World → World
  pub clock : World → ℕ
  pub monotonic : World → ℕ

module _ (robot : Robot) where
  open robot use {World, observe, acquire}

  -- The variables of a `StateManager`, with the world of its backend.
  pub record Session : Type 0 where
    pub world : World
    pub state : RobotState
    pub last_skill_result : Value

  -- An observation that says nothing of the last result is completed.
  unfoldable pub remembered : Value → RobotState → RobotState
  unfolding is_null
  remembered last s =
      if is_null (raw_value s "last_skill_result") && not (is_null last)
      then assign s "last_skill_result" last
      else s

  store : Session → RobotState × World → RobotState × Session
  unfolding remembered
  store m (s, w) =
      let s' = remembered m.last_skill_result s in (s', record m { world = w; state = s' })

  -- The state of a session is what the backend shows in some world, and its world the one that this
  -- observation leaves.
  abbrev pub IsObserved : Session → Type 0
  IsObserved m =
      (w : World) × (m.state ≡ remembered m.last_skill_result ((observe w).0))
      × (m.world ≡ (observe w).1)

  -- The same, where the backend may have been asked to acquire some fields instead.
  abbrev pub IsSeen : Session → Type 0
  IsSeen m =
      IsObserved m
      ⊎ ((fields : List String) × (w : World) × (m.state
            ≡ remembered m.last_skill_result ((acquire fields w).0))
          × (m.world ≡ (acquire fields w).1))

  -- `StateManager.__init__`
  unfoldable pub open_session : World → Session
  open_session w =
      let (s, w') = observe w in
      record { world = w'; state = s; last_skill_result = raw_value s "last_skill_result" }

  -- `refresh`
  unfoldable pub refresh : Session → RobotState × Session
  unfolding store
  refresh m = store m (observe m.world)

  -- `acquire`
  unfoldable pub acquire_fields : List String → Session → RobotState × Session
  unfolding store
  acquire_fields fields m = store m (acquire fields m.world)

  -- `mark_result`
  unfoldable pub mark_result : String → Session → RobotState × Session
  mark_result outcome m =
      let s = assign m.state "last_skill_result" (text outcome) in
      (s, record m { state = s; last_skill_result = text outcome })
