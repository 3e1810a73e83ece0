-- ===== src/Kargo/Observe/Reported.antt =====
-- What an observation reports is what was measured, never what was commanded.
use embodied_skill_ros.Prelude.{Option, String, ap, false, none, refl, some, ℕ, ◌∙◌, ◌≡◌}
use embodied_skill_ros.Prelude.Dict.{get, keys}
use embodied_skill_ros.Prelude.Texts.{contains}
use embodied_skill_ros.Value.Numbers.{negate}
use embodied_skill_ros.Value.{Value, float, null}
use embodied_skill_ros.State.{is_value_field, or_null, raw_value}
use embodied_skill_ros.Kargo.{KargoConfig}
use embodied_skill_ros.Kargo.Transport.{AgvObservation, ArmObservation, AxisObservation, Transport}
use embodied_skill_ros.Kargo.Readings.{
  agv_reading, arm_reading, head_reading, lift_reading, pitch_reading, stop_reading, waist_reading,
  yaw_reading,
}
use embodied_skill_ros.Kargo.Observe.{
  Noted, Readings, error_of, given, kargo_observe, note_agv, note_arm, note_error, note_head,
  noted_of, nothing_noted, observed_state, query_all, state_of_readings,
}
use embodied_skill_ros.Kargo.Observe.Measured.{
  held, lift_hit, negated_position_of, note_agv-other, note_arm-other, note_head-other,
  note_lift-other, note_pitch-other, note_waist-other, note_yaw-other, pitch_hit, position_of,
  waist_hit, yaw_hit,
}
use embodied_skill_ros.Kargo.Observe.Recent.{observed_state-facts}
use embodied_skill_ros.Kargo.Observe.Sourced.{answers}

note_error-held :
    (label : String) (message : Option String) (k : String) (n : Noted)
    → held k (note_error label message n) ≡ held k n
unfolding note_error
note_error-held label none k n = refl
note_error-held label (some m) k n = refl

-- A position that was measured, as a value; a query that raised leaves nothing.
abbrev pub measured : Option AxisObservation → Value
measured none = null
measured (some o) = float o.position

abbrev pub measured_pitch : Option AxisObservation → Value
unfolding negate
measured_pitch none = null
measured_pitch (some o) = float (negate o.position)

or_null-position_of : (o : Option AxisObservation) → or_null (position_of o) ≡ measured o
unfolding or_null position_of
or_null-position_of none = refl
or_null-position_of (some o) = refl

or_null-negated : (o : Option AxisObservation) → or_null (negated_position_of o) ≡ measured_pitch o
unfolding or_null negated_position_of
or_null-negated none = refl
or_null-negated (some o) = refl

module _ (c : KargoConfig) (now : ℕ) (r : Readings) where
  -- What is noted behind the four axes.
  behind_axes : Noted → Noted
  behind_axes n =
      let n₄ = note_head c now (given r.yaw) (given r.pitch) n in
      let n₅ = note_arm c now "left" (given r.left) (note_error "left_arm" (error_of r.left) n₄) in
      let n₆ =
        note_arm c now "right" (given r.right) (note_error "right_arm" (error_of r.right) n₅) in
      note_agv c now (given r.agv) (note_error "agv" (error_of r.agv) n₆)

  -- A name that none of them writes.
  abbrev Unwritten : String → Type 0
  Unwritten k =
      ((a b : AxisObservation) → contains k (keys (head_reading a b).values) ≡ false)
      × ((a : ArmObservation)
          → (contains k (keys (arm_reading c "left" a).values) ≡ false)
            × (contains k (keys (arm_reading c "left" a).facts) ≡ false))
      × ((a : ArmObservation)
          → (contains k (keys (arm_reading c "right" a).values) ≡ false)
            × (contains k (keys (arm_reading c "right" a).facts) ≡ false))
      × ((a : AgvObservation)
          → (contains k (keys (stop_reading a).values) ≡ false)
            × (contains k (keys (agv_reading a).values) ≡ false)
            × (contains k (keys (agv_reading a).facts) ≡ false))

  behind_axes-held : (k : String) (n : Noted) → Unwritten k → held k (behind_axes n) ≡ held k n
  unfolding behind_axes
  behind_axes-held k n (with_head, with_left, with_right, with_agv) =
      note_agv-other c now k (given r.agv) _ with_agv
      ∙ note_error-held "agv" (error_of r.agv) k _
      ∙ note_arm-other c now k "right" (given r.right) _ with_right
      ∙ note_error-held "right_arm" (error_of r.right) k _
      ∙ note_arm-other c now k "left" (given r.left) _ with_left
      ∙ note_error-held "left_arm" (error_of r.left) k _
      ∙ note_head-other c now k (given r.yaw) (given r.pitch) n with_head

  begun : Noted
  unfolding note_error
  begun = note_error "head_pitch" (error_of r.pitch) (
      note_error "head_yaw" (error_of r.yaw)
        (note_error "waist" (error_of r.waist) (note_error "lift" (error_of r.lift) nothing_noted)))

  begun-held : (k : String) → held k begun ≡ (none, none)
  unfolding begun get
  begun-held k =
      note_error-held "head_pitch" (error_of r.pitch) k _
      ∙ note_error-held "head_yaw" (error_of r.yaw) k _
      ∙ note_error-held "waist" (error_of r.waist) k _
      ∙ note_error-held "lift" (error_of r.lift) k nothing_noted

  lift-held : held "lift_height_mm" (noted_of c now r) ≡ (position_of (given r.lift), none)
  unfolding noted_of begun behind_axes head_reading agv_reading stop_reading lift_reading
      waist_reading yaw_reading pitch_reading contains arm_reading
  lift-held =
      behind_axes-held "lift_height_mm" _
        (λ a b. refl, λ a. (refl, refl), λ a. (refl, refl), λ a. (refl, refl, refl))
      ∙ note_pitch-other c now "lift_height_mm" (given r.pitch) _ (λ a. (refl, refl))
      ∙ note_yaw-other c now "lift_height_mm" (given r.yaw) _ (λ a. (refl, refl))
      ∙ note_waist-other c now "lift_height_mm" (given r.waist) _ (λ a. (refl, refl))
      ∙ lift_hit c now (given r.lift) _ (begun-held "lift_height_mm")

  waist-held : held "waist_angle_deg" (noted_of c now r) ≡ (none, position_of (given r.waist))
  unfolding noted_of begun behind_axes head_reading agv_reading stop_reading lift_reading
      waist_reading yaw_reading pitch_reading contains arm_reading
  waist-held =
      behind_axes-held "waist_angle_deg" _
        (λ a b. refl, λ a. (refl, refl), λ a. (refl, refl), λ a. (refl, refl, refl))
      ∙ note_pitch-other c now "waist_angle_deg" (given r.pitch) _ (λ a. (refl, refl))
      ∙ note_yaw-other c now "waist_angle_deg" (given r.yaw) _ (λ a. (refl, refl))
      ∙ waist_hit c now (given r.waist) _ (
          note_lift-other c now "waist_angle_deg" (given r.lift) _ (λ a. (refl, refl))
          ∙ begun-held "waist_angle_deg")

  yaw-held : held "head_yaw_deg" (noted_of c now r) ≡ (position_of (given r.yaw), none)
  unfolding noted_of begun behind_axes head_reading agv_reading stop_reading lift_reading
      waist_reading yaw_reading pitch_reading contains arm_reading
  yaw-held =
      behind_axes-held "head_yaw_deg" _
        (λ a b. refl, λ a. (refl, refl), λ a. (refl, refl), λ a. (refl, refl, refl))
      ∙ note_pitch-other c now "head_yaw_deg" (given r.pitch) _ (λ a. (refl, refl))
      ∙ yaw_hit c now (given r.yaw) _ (
          note_waist-other c now "head_yaw_deg" (given r.waist) _ (λ a. (refl, refl))
          ∙ note_lift-other c now "head_yaw_deg" (given r.lift) _ (λ a. (refl, refl))
          ∙ begun-held "head_yaw_deg")

  pitch-held :
      held "head_pitch_deg" (noted_of c now r) ≡ (negated_position_of (given r.pitch), none)
  unfolding noted_of begun behind_axes head_reading agv_reading stop_reading lift_reading
      waist_reading yaw_reading pitch_reading contains arm_reading
  pitch-held =
      behind_axes-held "head_pitch_deg" _
        (λ a b. refl, λ a. (refl, refl), λ a. (refl, refl), λ a. (refl, refl, refl))
      ∙ pitch_hit c now (given r.pitch) _ (
          note_yaw-other c now "head_pitch_deg" (given r.yaw) _ (λ a. (refl, refl))
          ∙ note_waist-other c now "head_pitch_deg" (given r.waist) _ (λ a. (refl, refl))
          ∙ note_lift-other c now "head_pitch_deg" (given r.lift) _ (λ a. (refl, refl))
          ∙ begun-held "head_pitch_deg")

module _ {W : Type 0} (t : Transport W) (c : KargoConfig) where
  -- Each axis is reported at the position that the transport answered to the query of its number
  -- (0 for the lift, 1 for the waist, 2 and 3 for yaw and pitch of the head), pitch with the opposite
  -- sign, and without a value if that query raised: no commanded target and no other answer stands in.
  pub kargo_observe-measured :
      (w : W)
      → (raw_value ((kargo_observe t c w).0) "lift_height_mm"
          ≡ measured (given (answers t c w).lift))
        × (raw_value ((kargo_observe t c w).0) "waist_angle_deg"
            ≡ measured (given (answers t c w).waist))
        × (raw_value ((kargo_observe t c w).0) "head_yaw_deg"
            ≡ measured (given (answers t c w).yaw))
        × (raw_value ((kargo_observe t c w).0) "head_pitch_deg"
            ≡ measured_pitch (given (answers t c w).pitch))
  unfolding kargo_observe state_of_readings raw_value observed_state is_value_field contains
      query_all
  kargo_observe-measured w =
      let now = t.clock w in
      let r = answers t c w in
      (
        ap (λ h. or_null (h.0)) (lift-held c now r) ∙ or_null-position_of (given r.lift),
        ap or_null (observed_state-facts c now (noted_of c now r) "waist_angle_deg" refl)
            ∙ ap (λ h. or_null (h.1)) (waist-held c now r)
            ∙ or_null-position_of (given r.waist),
        ap (λ h. or_null (h.0)) (yaw-held c now r) ∙ or_null-position_of (given r.yaw),
        ap (λ h. or_null (h.0)) (pitch-held c now r) ∙ or_null-negated (given r.pitch),
      )
