-- ===== src/Kargo/Command/Admission.antt =====
-- Which commands reach the transport, and what moving the base means.
use embodied_skill_ros.Prelude.{
  Bool-cases, Option-cases, String, arith, eq_iff, false, inl, inr, none, refl, some, true, ℕ, ◌==◌,
  ◌≡◌, ◌≢◌, ◌⊎◌,
}
use embodied_skill_ros.Value.{truthy}
use embodied_skill_ros.State.{RobotState, epistemic_value, is_known, known, raw_value}
use embodied_skill_ros.Skill.Template.{Arguments}
use embodied_skill_ros.Capabilities.{supports}
use embodied_skill_ros.Execution.Backend.{CommandReceipt}
use embodied_skill_ros.Kargo.{KargoConfig}
use embodied_skill_ros.Kargo.Transport.{
  Answer, Transport, TransportResult, answered, other_error, timeout_error,
}
use embodied_skill_ros.Kargo.Observe.{kargo_observe}
use embodied_skill_ros.Kargo.Motions.{denial, micros}
use embodied_skill_ros.Kargo.Command.{
  admission_failure, kargo_capabilities_of, kargo_command, kargo_stop, stop_active, stop_receipt,
  stop_refusal, unless_blocked, unsupported,
}

module _ {W : Type 0} (t : Transport W) (c : KargoConfig) where
  -- What is behind an admitted command: the skill is supported, and the observation before it shows
  -- current evidence that the emergency stop is not active, and no fault.
  pub record IsAdmitted (name : String) (w : W) : Type 0 where
    pub not_stop : name ≢ "safe_stop"
    pub passed : admission_failure t c name w ≡ (none, (kargo_observe t c w).1)
    pub supported : supports (kargo_capabilities_of t c w) name ≡ true
    pub evident :
        (epistemic_value
          ((kargo_observe t c w).0)
          "emergency_stop"
          (micros c.observation_max_age)
          (t.clock ((kargo_observe t c w).1))).status
        ≡ known
    pub released : stop_active (raw_value ((kargo_observe t c w).0) "emergency_stop") ≡ false
    pub faultless : truthy (raw_value ((kargo_observe t c w).0) "fault") ≡ false

  -- What is left of a command that is not admitted: a refusal, and the world that it began in, or
  -- that which the observation left, or, for the stop, that which the stop of the base left.
  pub record IsRefused (name : String) (arguments : Arguments) (w : W) : Type 0 where
    pub refused : ((kargo_command t c name arguments w).0).accepted ≡ false
    pub unmoved :
        ((kargo_command t c name arguments w).1 ≡ w)
        ⊎ ((kargo_command t c name arguments w).1 ≡ (kargo_observe t c w).1)
        ⊎ ((name ≡ "safe_stop")
            × ((kargo_command t c name arguments w).1 ≡ (t.stop_agv c.service_timeout w).1))

  stop_receipt-refused : (a : Answer TransportResult) → (stop_receipt t c a).accepted ≡ false
  unfolding stop_receipt denial
  stop_receipt-refused (answered r) = refl
  stop_receipt-refused (timeout_error m) = refl
  stop_receipt-refused (other_error m) = refl

  -- No refusal means that the emergency stop is known to be released and that there is no fault.
  stop_refusal-none :
      (s : RobotState) (now : ℕ)
      → stop_refusal t c s now ≡ none
      → ((epistemic_value s "emergency_stop" (micros c.observation_max_age) now).status ≡ known)
        × (stop_active (raw_value s "emergency_stop") ≡ false)
        × (truthy (raw_value s "fault") ≡ false)
  unfolding stop_refusal is_known epistemic_value
  stop_refusal-none s now h = (ground arith, ground arith, ground arith)

  stop_refusal-refused :
      (s : RobotState) (now : ℕ) (r : CommandReceipt)
      → stop_refusal t c s now ≡ some r
      → r.accepted ≡ false
  unfolding stop_refusal denial
  stop_refusal-refused s now r h = ground arith

  pub admission-cases :
      (name : String) (w : W)
      → name ≢ "safe_stop"
      → IsAdmitted name w
        ⊎ ((r : CommandReceipt) × (r.accepted ≡ false)
            × ((admission_failure t c name w ≡ (some r, w))
                ⊎ (admission_failure t c name w ≡ (some r, (kargo_observe t c w).1))))
  unfolding admission_failure unsupported denial
  admission-cases name w ne = elim (Bool-cases (supports (kargo_capabilities_of t c w) name)) [
    | inr e ↦ inr (unsupported name, refl, inl (rw e refl))
    | inl e ↦
        let s = (kargo_observe t c w).0 in
        let now = t.clock ((kargo_observe t c w).1) in
        elim (Option-cases (stop_refusal t c s now)) [
          | inr (r, h) ↦ inr (r, stop_refusal-refused s now r h, inr (rw (e, h) refl))
          | inl h ↦
              let (evident, released, faultless) = stop_refusal-none s now h in
              inl record {
                not_stop = ne;
                passed = rw (e, h) refl;
                supported = e;
                evident = evident;
                released = released;
                faultless = faultless;
              }
        ]
  ]

  -- Every command is admitted or refused. An admitted one is of a skill that the capabilities
  -- support, and the observation made for it shows current evidence that the emergency stop is
  -- released, and no fault. A refused one is not accepted and does nothing but observe; the stop,
  -- which is never accepted, does nothing but stop the base.
  pub kargo_command-cases :
      (name : String) (arguments : Arguments) (w : W)
      → IsAdmitted name w ⊎ IsRefused name arguments w
  unfolding kargo_command unless_blocked kargo_stop
  kargo_command-cases name arguments w = elim (Bool-cases (name == "safe_stop")) [
    | inl e ↦ inr record {
      refused = rw e (stop_receipt-refused ((t.stop_agv c.service_timeout w).0));
      unmoved = inr (inr ((eq_iff name "safe_stop").0 e, rw e refl));
    }
    | inr e ↦ elim (admission-cases name w (λ h. ground (arith, eq_iff name "safe_stop"))) [
      | inl admitted ↦ inl admitted
      | inr (r, refused, inl h) ↦
          inr record { refused = rw (e, h) refused; unmoved = inl (rw (e, h) refl) }
      | inr (r, refused, inr h) ↦
          inr record { refused = rw (e, h) refused; unmoved = inr (inl (rw (e, h) refl)) }
    ]
  ]
