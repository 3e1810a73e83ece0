-- ===== src/Kargo/Command.antt =====
-- embodied_skill_ros/integrations/jaka_kargo/skill_adapter.py: `JakaKargoBackend`, the admission of a
-- command, the stop, and the backend as the executor uses it.
pub mod Admission
pub mod Accepted
pub mod Head
use embodied_skill_ros.Prelude.{
  Bool, Option, String, false, if◌then◌else◌, none, not, some, ℕ, ◌==◌,
}
use embodied_skill_ros.Value.{Value, bool, truthy}
use embodied_skill_ros.Errors.{ok}
use embodied_skill_ros.State.{RobotState, epistemic_value, is_known, raw_value}
use embodied_skill_ros.Skill.Template.{Arguments, show}
use embodied_skill_ros.Capabilities.{BackendCapabilities, supports}
use embodied_skill_ros.Execution.Backend.{CommandReceipt, Robot}
use embodied_skill_ros.Kargo.{KargoConfig, kargo_capabilities}
use embodied_skill_ros.Kargo.Transport.{
  Answer, Transport, TransportResult, answered, other_error, timeout_error,
}
use embodied_skill_ros.Kargo.Observe.{kargo_observe}
use embodied_skill_ros.Kargo.Motions.{Sends, denial, dispatch, micros, status_text}
use Prim.Native.String.{◌++◌ as append}

unsupported : String → CommandReceipt
unfolding denial
unsupported name =
    denial (append "capability preflight: JAKA/Kargo backend does not guarantee " name)

pub stop_active : Value → Bool
stop_active (bool b) = b
stop_active _ = false

module _ {W : Type 0} (t : Transport W) (c : KargoConfig) where
  -- `capabilities`
  unfoldable pub kargo_capabilities_of : W → BackendCapabilities
  unfolding kargo_capabilities
  kargo_capabilities_of w = kargo_capabilities c (t.available_endpoints w)

  -- What an observation says of the emergency stop and the fault.
  stop_refusal : RobotState → ℕ → Option CommandReceipt
  unfolding epistemic_value is_known stop_active truthy raw_value denial status_text micros show
  stop_refusal s now =
      let evidence = epistemic_value s "emergency_stop" (micros c.observation_max_age) now in
      if not (is_known evidence.status)
      then some (
          denial (
            append "command admission blocked: whole-robot emergency-stop evidence is "
              (status_text evidence.status)))
      else if stop_active evidence.value
      then some (denial "command admission blocked: emergency stop is active")
      else if truthy (raw_value s "fault")
      then some (denial (append "command admission blocked: " (show (raw_value s "fault"))))
      else none

  -- `_admission_failure`
  unfoldable pub admission_failure : String → W → Option CommandReceipt × W
  unfolding supports kargo_capabilities_of kargo_observe stop_refusal unsupported
  admission_failure name w =
      if not (supports (kargo_capabilities_of w) name)
      then (some (unsupported name), w)
      else let (s, w') = kargo_observe t c w in (stop_refusal s (t.clock w'), w')

  stop_receipt : Answer TransportResult → CommandReceipt
  unfolding denial
  stop_receipt (answered r) = record {
    accepted = false;
    backend_message =
        append "AGV-only stop attempt: " (append r.message "; whole-robot stop remains unverified");
    timed_out = r.timed_out;
  }
  stop_receipt (timeout_error message) = denial (append "AGV stop attempt failed: " message)
  stop_receipt (other_error message) = denial (append "AGV stop attempt failed: " message)

  -- `stop`
  unfoldable pub kargo_stop : Sends t c
  unfolding stop_receipt
  kargo_stop w = let (answer, w') = t.stop_agv c.service_timeout w in (stop_receipt answer, w')

  unless_blocked : Option CommandReceipt × W → Sends t c → CommandReceipt × W
  unless_blocked (some refusal, w) next = (refusal, w)
  unless_blocked (none, w) next = next w

  -- `command`
  unfoldable pub kargo_command : String → Arguments → Sends t c
  unfolding kargo_stop admission_failure unless_blocked dispatch
  kargo_command name arguments w =
      if name == "safe_stop"
      then kargo_stop w
      else unless_blocked (admission_failure name w) (dispatch t c name arguments)

  -- The backend as the executor uses it; `acquire` observes everything again.
  abbrev pub kargo_robot : Robot
  kargo_robot = record {
    World = W;
    capabilities = kargo_capabilities_of;
    observe = kargo_observe t c;
    acquire = λ fields. kargo_observe t c;
    command = λ name arguments w. ok (kargo_command name arguments w);
    stop = λ w. (kargo_stop w).1;
    clock = t.clock;
    monotonic = t.monotonic;
  }
