-- ===== src/Kargo/Command/Accepted.antt =====
-- What an accepted command of the base or of the head did.
use embodied_skill_ros.Prelude.{
  Bool-cases, Option, Option-cases, String, ap, arith, eq_iff, false, false-ne-true, inl, inr, none,
  refl, some, subst, sym, true, ◌==◌, ◌∙◌, ◌≡◌, ◌≢◌,
}
use embodied_skill_ros.Prelude.Dict.{get}
use embodied_skill_ros.Value.Numbers.{Float, plus}
use embodied_skill_ros.Value.{Value, as_number}
use embodied_skill_ros.Errors.{Error, Result, err, ok, ok_injective}
use embodied_skill_ros.State.{epistemic_value, is_known, known, raw_value}
use embodied_skill_ros.State.Evidence.{is_known-eq}
use embodied_skill_ros.Skill.Template.{Arguments}
use embodied_skill_ros.Kargo.{KargoConfig}
use embodied_skill_ros.Kargo.Transport.{
  Answer, Transport, TransportResult, answered, other_error, timeout_error,
}
use embodied_skill_ros.Kargo.Observe.{kargo_observe}
use embodied_skill_ros.Kargo.Motions.{
  Sends, adapter_error, called, denial, dispatch, fail, kargo_receipt, micros, move_agv, navigate,
  navigate_from, number_of, or_not_a_number, refuse, relayed, send_base, with_number,
}
use embodied_skill_ros.Kargo.Command.{kargo_command, unless_blocked}
use embodied_skill_ros.Kargo.Command.Admission.{IsAdmitted, admission-cases}

module _ {W : Type 0} (t : Transport W) (c : KargoConfig) where
  pub with_number-accepted :
      (r : Result Float) (next : Float → Sends t c) (w : W)
      → ((with_number t c r next w).0).accepted ≡ true
      → (x : Float) × (r ≡ ok x) × (((next x w).0).accepted ≡ true)
  unfolding with_number fail adapter_error denial
  with_number-accepted (err e) next w h = cc
  with_number-accepted (ok x) next w h = (x, refl, h)

  called-accepted :
      (a : Answer TransportResult)
      → (called a).accepted ≡ true
      → (r : TransportResult) × (a ≡ answered r) × (r.accepted ≡ true)
  unfolding called kargo_receipt adapter_error denial
  called-accepted (answered r) h = (r, refl, h)
  called-accepted (timeout_error m) h = cc
  called-accepted (other_error m) h = cc

  pub number_of-some :
      (name : String) (v : Value) (x : Float)
      → number_of name (some v) ≡ ok x
      → as_number v ≡ some x
  unfolding number_of or_not_a_number
  number_of-some name v x h = elim (Option-cases (as_number v)) [
    | inl e ↦ absurd (err-ne-ok (sym (ap (or_not_a_number v) e) ∙ h))
    | inr (y, e) ↦ e ∙ ap some (ok_injective (sym (ap (or_not_a_number v) e) ∙ h))
  ]
    where
      err-ne-ok : {e : Error} {y : Float} → err e ≡ ok y → ⊥
      err-ne-ok k = cc

  pub number_of-ok :
      (name : String) (v : Option Value) (x : Float)
      → number_of name v ≡ ok x
      → (u : Value) × (v ≡ some u) × (as_number u ≡ some x)
  unfolding number_of
  number_of-ok name none x h = cc
  number_of-ok name (some u) x h = (u, refl, number_of-some name u x h)

  -- The base was sent from a position, with what the command asks for.
  pub record WasSent (arguments : Arguments) (position : Value) (w : W) : Type 0 where
    pub start : Float
    pub distance : Float
    pub speed : Float
    pub start_is : as_number position ≡ some start
    pub distance_is :
        (v : Value) × (get "distance_m" arguments ≡ some v) × (as_number v ≡ some distance)
    pub sent :
        (r : TransportResult) × ((t.navigate_agv_x
            (plus start distance)
            speed
            c.agv_map_name
            c.service_timeout
            w).0
          ≡ answered r)
        × (r.accepted ≡ true)

  navigate-WasSent :
      (arguments : Arguments) (position : Value) (w : W)
      → ((navigate t c arguments position w).0).accepted ≡ true
      → WasSent arguments position w
  unfolding navigate navigate_from send_base relayed
  navigate-WasSent arguments position w h =
      let (x, ex, hx) =
        with_number-accepted (number_of "agv_position_m" (some position))
          (navigate_from t c arguments) w h in
      let (d, ed, hd) =
        with_number-accepted (number_of "distance_m" (get "distance_m" arguments))
          (send_base t c arguments x) w hx in
      let (speed, es, hs) =
        with_number-accepted _
          (λ speed.
            relayed t c (t.navigate_agv_x (plus x d) speed c.agv_map_name c.service_timeout))
          w hd in
      record {
        start = x;
        distance = d;
        speed = speed;
        start_is = number_of-some "agv_position_m" position x ex;
        distance_is = number_of-ok "distance_m" (get "distance_m" arguments) d ed;
        sent = called-accepted _ hs;
      }

  move_agv-WasSent :
      (arguments : Arguments) (w : W)
      → ((move_agv t c arguments w).0).accepted ≡ true
      → ((epistemic_value
            ((kargo_observe t c w).0)
            "agv_position_m"
            (micros c.observation_max_age)
            (t.clock ((kargo_observe t c w).1))).status
          ≡ known)
        × WasSent arguments
            (raw_value ((kargo_observe t c w).0) "agv_position_m")
            ((kargo_observe t c w).1)
  unfolding move_agv refuse denial
  move_agv-WasSent arguments w h =
      let s = (kargo_observe t c w).0 in
      let now = t.clock ((kargo_observe t c w).1) in
      let evidence = epistemic_value s "agv_position_m" (micros c.observation_max_age) now in
      elim (Bool-cases (is_known evidence.status)) [
        | inr e ↦ absurd (false-ne-true (rw e at h))
        | inl e ↦ (is_known-eq evidence.status e, navigate-WasSent arguments _ _ (rw e at h))
      ]

  -- An accepted command was admitted, and its receipt is that of what was dispatched.
  pub accepted-dispatched :
      (name : String) (arguments : Arguments) (w : W)
      → name ≢ "safe_stop"
      → ((kargo_command t c name arguments w).0).accepted ≡ true
      → IsAdmitted t c name w
        × (((dispatch t c name arguments ((kargo_observe t c w).1)).0).accepted ≡ true)
  unfolding kargo_command unless_blocked
  accepted-dispatched name arguments w ne h =
      let e : (name == "safe_stop") ≡ false = ground (arith, eq_iff name "safe_stop") in
      elim (admission-cases t c name w ne) [
        | inl admitted ↦ (admitted, rw (e, admitted.passed) at h)
        | inr (r, refused, inl k) ↦ absurd (false-ne-true (sym refused ∙ rw (e, k) at h))
        | inr (r, refused, inr k) ↦ absurd (false-ne-true (sym refused ∙ rw (e, k) at h))
      ]

  -- Moving the base is accepted only if the command is admitted, the odometry is KNOWN in a further
  -- observation, and the transport accepted a target that is the position measured in it plus the
  -- distance relayed for.
  pub kargo_command-move_agv :
      (arguments : Arguments) (w w' : W)
      → (kargo_observe t c w).1 ≡ w'
      → ((kargo_command t c "move_agv" arguments w).0).accepted ≡ true
      → IsAdmitted t c "move_agv" w
        × ((epistemic_value
              ((kargo_observe t c w').0)
              "agv_position_m"
              (micros c.observation_max_age)
              (t.clock ((kargo_observe t c w').1))).status
            ≡ known)
        × WasSent arguments
            (raw_value ((kargo_observe t c w').0) "agv_position_m")
            ((kargo_observe t c w').1)
  unfolding dispatch
  kargo_command-move_agv arguments w w' e h =
      let (admitted, sent) = accepted-dispatched "move_agv" arguments w (not_stop refl) h in
      let (measured, was_sent) =
        move_agv-WasSent arguments w'
          (subst (λ v. ((move_agv t c arguments v).0).accepted ≡ true) e sent) in
      (admitted, measured, was_sent)
    where
      not_stop : {name : String} → name ≡ "move_agv" → name ≢ "safe_stop"
      not_stop e k = cc
