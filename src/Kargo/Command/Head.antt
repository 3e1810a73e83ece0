-- ===== src/Kargo/Command/Head.antt =====
-- What an accepted command of the head did.
use embodied_skill_ros.Prelude.{
  Bool, Bool-cases, Option, String, false, false-ne-true, inl, inr, none, refl, some, true, ℕ, ◌≡◌,
  ◌≢◌,
}
use embodied_skill_ros.Prelude.Dict.{get}
use embodied_skill_ros.Value.Numbers.{Float, negate}
use embodied_skill_ros.Value.{Value, as_number}
use embodied_skill_ros.Skill.Template.{Arguments}
use embodied_skill_ros.Kargo.{KargoConfig}
use embodied_skill_ros.Kargo.Transport.{
  Answer, Transport, TransportResult, answered, other_error, timeout_error,
}
use embodied_skill_ros.Kargo.Observe.{kargo_observe}
use embodied_skill_ros.Kargo.Motions.{
  Sends, adapter_error, called, completed, denial, dispatch, kargo_receipt, move_axis, number_of,
  pitch_sent, set_head, set_pitch, with_number, yaw_sent,
}
use embodied_skill_ros.Kargo.Command.{kargo_command, unless_blocked}
use embodied_skill_ros.Kargo.Command.Admission.{IsAdmitted}
use embodied_skill_ros.Kargo.Command.Accepted.{
  accepted-dispatched, number_of-some, with_number-accepted,
}

module _ {W : Type 0} (t : Transport W) (c : KargoConfig) where
  -- An axis that the command names was moved to its number, and the transport accepted that; an axis
  -- that it does not name was left alone.
  abbrev pub AxisDone : ℕ → (Float → Float) → Option Value → W → W → Type 0
  AxisDone axis f none w w' = w' ≡ w
  AxisDone axis f (some v) w w' =
      (x : Float) × (as_number v ≡ some x)
      × ((r : TransportResult) × (t.move_external_axis axis (f x) c.external_axis_velocity
              c.external_axis_acceleration c.service_timeout w
            ≡ (answered r, w'))
          × (r.accepted ≡ true))

  pitch_sent-accepted :
      (yaw : Bool) (a : Answer TransportResult × W)
      → ((pitch_sent t c yaw a).0).accepted ≡ true
      → (r : TransportResult) × (a ≡ (answered r, (pitch_sent t c yaw a).1)) × (r.accepted ≡ true)
  unfolding pitch_sent completed called adapter_error denial
  pitch_sent-accepted yaw (answered r, w) h = elim (Bool-cases r.accepted) [
    | inl e ↦ (r, rw e refl, e)
    | inr e ↦ absurd (false-ne-true (rw e at h))
  ]
  pitch_sent-accepted yaw (timeout_error m, w) h = cc
  pitch_sent-accepted yaw (other_error m, w) h = cc

  set_pitch-AxisDone :
      (yaw : Bool) (pitch : Option Value) (w : W)
      → ((set_pitch t c yaw pitch w).0).accepted ≡ true
      → AxisDone 3 negate pitch w ((set_pitch t c yaw pitch w).1)
  unfolding set_pitch completed move_axis with_number
  set_pitch-AxisDone yaw none w h = refl
  set_pitch-AxisDone yaw (some v) w h =
      let next : Float → Sends t c = λ x w'. pitch_sent t c yaw (move_axis t c 3 (negate x) w') in
      let (x, ex, hx) = with_number-accepted t c (number_of "pitch_deg" (some v)) next w h in
      rw ex (
        x,
        number_of-some t c "pitch_deg" v x ex,
        pitch_sent-accepted yaw (move_axis t c 3 (negate x) w) hx,
      )

  -- Behind a call for yaw the call for pitch follows, where the first was accepted.
  yaw_sent-AxisDone :
      (pitch : Option Value) (a : Answer TransportResult × W)
      → ((yaw_sent t c pitch a).0).accepted ≡ true
      → (r : TransportResult) × (v : W) × (a ≡ (answered r, v))
        × (r.accepted ≡ true)
        × AxisDone 3 negate pitch v ((yaw_sent t c pitch a).1)
  unfolding yaw_sent called kargo_receipt adapter_error denial
  yaw_sent-AxisDone pitch (answered r, w) h = elim (Bool-cases r.accepted) [
    | inl e ↦ (r, w, refl, e, rw e (set_pitch-AxisDone true pitch w (rw e at h)))
    | inr e ↦ absurd (false-ne-true (rw e at h))
  ]
  yaw_sent-AxisDone pitch (timeout_error m, w) h = cc
  yaw_sent-AxisDone pitch (other_error m, w) h = cc

  set_head-AxisDone :
      (yaw pitch : Option Value) (w : W)
      → ((set_head t c yaw pitch w).0).accepted ≡ true
      → (v : W) × AxisDone 2 (λ x. x) yaw w v
        × AxisDone 3 negate pitch v ((set_head t c yaw pitch w).1)
  unfolding set_head move_axis with_number
  set_head-AxisDone none pitch w h = (w, refl, set_pitch-AxisDone false pitch w h)
  set_head-AxisDone (some u) pitch w h =
      let next : Float → Sends t c = λ x w'. yaw_sent t c pitch (move_axis t c 2 x w') in
      let (x, ex, hx) = with_number-accepted t c (number_of "yaw_deg" (some u)) next w h in
      let (r, v, e, accepted, done) = yaw_sent-AxisDone pitch (move_axis t c 2 x w) hx in
      rw ex (v, (x, number_of-some t c "yaw_deg" u x ex, (r, e, accepted)), done)

  -- Moving the head is accepted only if the command is admitted and the transport accepted, yaw before
  -- pitch, the move of each axis that the command names to its angle, pitch with the opposite sign;
  -- the other axis is left alone.
  pub kargo_command-set_head :
      (arguments : Arguments) (w w' : W)
      → (kargo_observe t c w).1 ≡ w'
      → ((kargo_command t c "set_head" arguments w).0).accepted ≡ true
      → IsAdmitted t c "set_head" w
        × ((v : W) × AxisDone 2 (λ x. x) (get "yaw_deg" arguments) w' v
            × AxisDone 3 negate
                (get "pitch_deg" arguments)
                v
                ((kargo_command t c "set_head" arguments w).1))
  unfolding dispatch kargo_command unless_blocked
  kargo_command-set_head arguments w w' e h =
      let (admitted, sent) = accepted-dispatched t c "set_head" arguments w (not_stop refl) h in
      (
        admitted,
        rw (admitted.passed, e)
            (set_head-AxisDone (get "yaw_deg" arguments) (get "pitch_deg" arguments) w'
              (rw e at sent)),
      )
    where
      not_stop : {name : String} → name ≡ "set_head" → name ≢ "safe_stop"
      not_stop e k = cc
