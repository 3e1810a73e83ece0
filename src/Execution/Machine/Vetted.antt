-- ===== src/Execution/Machine/Vetted.antt =====
-- What the executor's loops keep true of their variables, whatever the backend answers.
use embodied_skill_ros.Prelude.{
  All, Bool, String, [], false, if◌then◌else◌, none, refl, some, true, ◌+◌, ◌≡◌, ◌≤◌,
}
use embodied_skill_ros.Value.{Value}
use embodied_skill_ros.Errors.{Result, err, ok}
use embodied_skill_ros.State.{RobotState}
use embodied_skill_ros.Skill.Template.{Arguments}
use embodied_skill_ros.Skill.Contract.{RobotSkill}
use embodied_skill_ros.Skill.Parameters.{validate_arguments}
use embodied_skill_ros.Skill.Outcome.{VerificationResult, verify_outcome}
use embodied_skill_ros.Registry.{skill_named}
use embodied_skill_ros.Guard.Allowed.{IsSafe}
use embodied_skill_ros.Execution.Backend.{IsObserved, Robot, Session, refresh, remembered}
use embodied_skill_ros.Execution.Goals.{goal_mismatches}
use embodied_skill_ros.Execution.Machine.{
  Config, Control, ExecutionReport, Locals, Machine, Message, Next, Options, SkillResult, at_step,
  attempting, continue, finish, or_raise, raised, stop_with, stopping,
}

-- A state is what the backend showed when it was observed, and this is the world behind that.
abbrev pub SeenAt : (robot : Robot) → RobotState → robot.World → Type 0
SeenAt robot state world =
    (w : robot.World) × ((last : Value) × (state ≡ remembered robot last ((robot.observe w).0))
      × (world ≡ (robot.observe w).1))

pub refresh-SeenAt :
    (robot : Robot) (m : Session robot)
    → SeenAt robot ((refresh robot m).0) ((refresh robot m).1).world
unfolding refresh
refresh-SeenAt robot m = (m.world, (m.last_skill_result, refl, refl))

module _ (config : Config) (options : Options) where
  -- A command with these arguments may be sent in this state: the skill is registered, accepts the
  -- arguments, the state is what the backend showed when it was observed, and, if the runtime guard is
  -- on, it is safe for the command at the clock that was read behind this observation.
  pub record IsVettedCall (robot : Robot) (key : String) (skill : RobotSkill)
      (arguments : Arguments) (before : RobotState) : Type 0 where
    pub registered : skill_named config.registry key ≡ ok skill
    pub valid : validate_arguments skill arguments ≡ ok tt
    pub world : robot.World
    pub seen : SeenAt robot before world
    pub safe : options.runtime_guard ≡ true → IsSafe skill arguments before (robot.clock world)

  -- The verification of a result: `verify_outcome` against a state that the backend showed when it was
  -- observed, at the clock that was read behind this observation.
  abbrev pub IsVerified : Robot → RobotSkill → SkillResult → VerificationResult → Type 0
  IsVerified robot skill r v =
      (after : RobotState) × (world : robot.World) × SeenAt robot after world
      × (verify_outcome skill r.arguments r.before_state after none (robot.clock world) ≡ ok v)

  -- A result: of a vetted call, within the retry budget, and counted as achieved only if the command
  -- was accepted and, where outcomes are verified, its verification succeeded.
  pub record IsVetted (robot : Robot) (r : SkillResult) : Type 0 where
    pub key : String
    pub skill : RobotSkill
    pub named_skill : r.skill_name ≡ skill.name
    pub call : IsVettedCall robot key skill r.arguments r.before_state
    pub within_budget : r.attempt ≤ config.max_retries + 1
    pub accepted : r.physical_outcome_achieved ≡ true → r.command_accepted ≡ true
    pub verified :
        r.physical_outcome_achieved ≡ true
        → options.verify_outcomes ≡ true
        → (v : VerificationResult) × (r.verification ≡ some v)
          × (v.achieved ≡ true)
          × IsVerified robot skill r v

  pub record LocalsVetted (robot : Robot) (l : Locals) : Type 0 where
    pub results_vetted : All (IsVetted robot) l.results
    pub replans : l.replan_count ≤ config.max_replans

  abbrev pub ControlVetted : Robot → Control → Type 0
  ControlVetted robot at_step = Unit
  ControlVetted robot (attempting step skill before attempt) =
      IsVettedCall robot step.skill skill step.arguments before × (attempt ≤ config.max_retries + 1)

  pub record MachineVetted {robot : Robot} (s : Machine robot) : Type 0 where
    pub locals_vetted : LocalsVetted robot s.locals
    pub control_vetted : ControlVetted robot s.control

  -- How the loops end: with vetted results; without success only after the backend was told to
  -- stop; and with success, where outcomes are verified, only with every goal met in the state that
  -- was observed last.
  pub record EndVetted {robot : Robot} (report : ExecutionReport) (m : Session robot) : Type 0 where
    pub results_vetted : All (IsVetted robot) report.results
    pub stopped :
        report.success ≡ false
        → (report.decision ≡ stopping) × ((w : robot.World) × (m.world ≡ robot.stop w))
    pub goals_met :
        report.success ≡ true
        → options.verify_outcomes ≡ true
        → (goal_mismatches report.plan m.state ≡ []) × IsObserved robot m

  abbrev pub NextVetted : {robot : Robot} → Next robot → Type 0
  NextVetted (continue s) = MachineVetted s
  NextVetted (finish report m) = EndVetted report m
  NextVetted (raised e) = Unit

  pub or_raise-NextVetted {ℓ} :
      {A : Type ℓ} {robot : Robot} (r : Result A) (f : A → Next robot)
      → ((a : A) → r ≡ ok a → NextVetted (f a))
      → NextVetted (or_raise r f)
  unfolding or_raise
  or_raise-NextVetted (ok a) f h = h a refl
  or_raise-NextVetted (err e) f h = tt

  pub if-NextVetted :
      {robot : Robot} (b : Bool) (x y : Next robot)
      → (b ≡ true → NextVetted x)
      → (b ≡ false → NextVetted y)
      → NextVetted (if b then x else y)
  if-NextVetted true x y hx hy = hx refl
  if-NextVetted false x y hx hy = hy refl

  pub stop_with-NextVetted :
      {robot : Robot} (message : Message) (l : Locals) (m : Session robot)
      → LocalsVetted robot l
      → NextVetted (stop_with message l m)
  unfolding stop_with
  stop_with-NextVetted message l m h = record {
    results_vetted = h.results_vetted;
    stopped = λ e. (refl, (m.world, refl));
    goals_met = λ e. cc;
  }
