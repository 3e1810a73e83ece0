-- ===== src/Kargo/Admitted.antt =====
-- Which skills the capability mapper admits, and what it can observe of them.
use embodied_skill_ros.Prelude.{
  All, Bool, Bool-cases, List, String, [], and-left, and-right, arith, eq_iff, inl, inr, refl,
  subst, true, ◌&&◌, ◌++◌, ◌∷◌, ◌≡◌, ◌⊎◌,
}
use embodied_skill_ros.Prelude.Dict.{get}
use embodied_skill_ros.Prelude.Texts.{contains, contains-union}
use embodied_skill_ros.Value.{text}
use embodied_skill_ros.Errors.{Result, err, ok}
use embodied_skill_ros.Skill.Template.{argument_of, format, show}
use embodied_skill_ros.Skill.Contract.{EffectSpec}
use embodied_skill_ros.Registry.{skill_named}
use embodied_skill_ros.Registry.Builtin.{
  move_agv_skill, retract_arm_skill, set_head_skill, set_lift_skill,
}
use embodied_skill_ros.Capabilities.{can_observe, supports}
use embodied_skill_ros.Kargo.{
  KargoConfig, admission_allowed, agv_ready, arm_ready, axis_ready, extend, kargo_capabilities,
  observable_names, supported_names,
}
use embodied_skill_ros.Kargo.Skills.{kargo_skills, set_waist_skill}

formatted_field : Result String → List String
formatted_field (ok name) = name ∷ []
formatted_field (err e) = []

-- The fields that the effects of a contract name, for either arm where a name depends on the arm.
fields_of_effects : List EffectSpec → List String
unfolding formatted_field
fields_of_effects [] = []
fields_of_effects (effect ∷ effects) =
    formatted_field (format effect.field (("arm", text "left") ∷ []))
    ++ formatted_field (format effect.field (("arm", text "right") ∷ []))
    ++ fields_of_effects effects

-- The fields that the contract of a skill of the deployment's registry changes.
pub effect_fields : String → List String
unfolding fields_of_effects
effect_fields name = elim (skill_named kargo_skills name) [
  | ok skill ↦ fields_of_effects skill.effects
  | err e ↦ []
]

extend_old :
    (name : String) (test : Bool) (more names : List String)
    → contains name names ≡ true
    → contains name (extend test more names) ≡ true
unfolding extend
extend_old name test more names h = ground (arith, contains-union name names more)

extend_new :
    (name : String) (test : Bool) (more names : List String)
    → test ≡ true
    → contains name more ≡ true
    → contains name (extend test more names) ≡ true
unfolding extend
extend_new name test more names t h = ground (arith, contains-union name names more)

-- Membership in an extended set comes from one of its parts.
pub extend_cases :
    (name : String) (test : Bool) (more names : List String)
    → contains name (extend test more names) ≡ true
    → ((test ≡ true) × (contains name more ≡ true)) ⊎ (contains name names ≡ true)
unfolding extend
extend_cases name test more names h = ground (arith, contains-union name names more)

abbrev pub Observes : KargoConfig → List String → String → Type 0
Observes c found name = All (λ f. contains f (observable_names c found) ≡ true) (effect_fields name)

pub one_of : (a name : String) → contains name (a ∷ []) ≡ true → a ≡ name
unfolding contains
one_of a name h = ground (arith, eq_iff a name)

pub one_of_three :
    (a b d name : String)
    → contains name (a ∷ b ∷ d ∷ []) ≡ true
    → (a ≡ name) ⊎ (b ≡ name) ⊎ (d ≡ name)
unfolding contains
one_of_three a b d name h = ground (arith, eq_iff a name, eq_iff b name, eq_iff d name)

module _ (c : KargoConfig) (found : List String) where
  axis-seen :
      (f : String)
      → contains c.endpoints.axis_status_service found ≡ true
      → contains f (
          "lift_height_mm" ∷ "lift_ready" ∷ "head_yaw_deg" ∷ "head_pitch_deg" ∷ "head_ready"
          ∷ "waist_angle_deg" ∷ "waist_ready" ∷ [])
        ≡ true
      → contains f (observable_names c found) ≡ true
  unfolding observable_names
  axis-seen f h k = search (extend_old, extend_new) depth 8

  arm_ready-seen :
      (f : String)
      → (contains c.endpoints.arm_pose_service found && c.arm_pose_query_implies_ready) ≡ true
      → contains f ("left_arm_ready" ∷ "right_arm_ready" ∷ []) ≡ true
      → contains f (observable_names c found) ≡ true
  unfolding observable_names
  arm_ready-seen f h k = search (extend_old, extend_new) depth 8

  arm-seen :
      (f : String)
      → (contains c.endpoints.arm_pose_service found && c.transport_pose_calibrated) ≡ true
      → contains f ("left_arm_safe" ∷ "right_arm_safe" ∷ []) ≡ true
      → contains f (observable_names c found) ≡ true
  unfolding observable_names
  arm-seen f h k = search (extend_old, extend_new)

  agv-seen :
      (f : String)
      → contains c.endpoints.agv_odometry_topic found ≡ true
      → contains f ("agv_position_m" ∷ "agv_position_y_m" ∷ []) ≡ true
      → contains f (observable_names c found) ≡ true
  unfolding observable_names
  agv-seen f h k = search (extend_old, extend_new)

  axis_skill :
      (name : String)
      → axis_ready c found ≡ true
      → contains name ("set_lift" ∷ "set_head" ∷ "set_waist" ∷ []) ≡ true
      → Observes c found name
  unfolding axis_ready contains effect_fields skill_named get format retract_arm_skill
      move_agv_skill set_lift_skill set_head_skill set_waist_skill argument_of show
  axis_skill name ready h =
      let axis : contains c.endpoints.axis_status_service found ≡ true = and-right _ _ ready in
      elim (one_of_three "set_lift" "set_head" "set_waist" name h) [
        | inl e ↦
            let lift = axis-seen "lift_height_mm" axis refl in
            subst (Observes c found) e (lift, (lift, tt))
        | inr (inl e) ↦
            let yaw = axis-seen "head_yaw_deg" axis refl in
            let pitch = axis-seen "head_pitch_deg" axis refl in
            subst (Observes c found) e (yaw, (yaw, (pitch, (pitch, tt))))
        | inr (inr e) ↦
            let waist = axis-seen "waist_angle_deg" axis refl in
            subst (Observes c found) e (waist, (waist, tt))
      ]

  arm_skill :
      (name : String)
      → arm_ready c found ≡ true
      → contains name ("retract_arm" ∷ []) ≡ true
      → Observes c found name
  unfolding arm_ready contains effect_fields skill_named get format retract_arm_skill move_agv_skill
      set_lift_skill set_head_skill set_waist_skill argument_of show
  arm_skill name ready h =
      let seen : (contains c.endpoints.arm_pose_service found && c.transport_pose_calibrated)
          ≡ true =
        ground arith in
      let told : (contains c.endpoints.arm_pose_service found && c.arm_pose_query_implies_ready)
          ≡ true =
        ground arith in
      subst (Observes c found) (one_of "retract_arm" name h) (
        arm-seen "left_arm_safe" seen refl,
        (
          arm-seen "right_arm_safe" seen refl,
          (
            arm_ready-seen "left_arm_ready" told refl,
            (arm_ready-seen "right_arm_ready" told refl, tt),
          ),
        ),
      )

  agv_skill :
      (name : String)
      → agv_ready c found ≡ true
      → contains name ("move_agv" ∷ []) ≡ true
      → Observes c found name
  unfolding agv_ready contains effect_fields skill_named get format retract_arm_skill move_agv_skill
      set_lift_skill set_head_skill set_waist_skill argument_of show
  agv_skill name ready h =
      let seen : contains c.endpoints.agv_odometry_topic found ≡ true = ground arith in
      let position = agv-seen "agv_position_m" seen refl in
      subst (Observes c found) (one_of "move_agv" name h) (position, (position, tt))

  pub nothing_in : (name : String) → contains name [] ≡ true → ⊥
  unfolding contains
  nothing_in name h = cc

  supported-Observes :
      (name : String)
      → contains name (supported_names c found) ≡ true
      → (admission_allowed c ≡ true) × Observes c found name
  unfolding supported_names
  supported-Observes name h = elim (Bool-cases (admission_allowed c)) [
    | inr denied ↦ absurd (nothing_in name (rw denied at h))
    | inl allowed ↦ elim (extend_cases name (agv_ready c found) _ _ (rw allowed at h)) [
      | inl (ready, here) ↦ (allowed, agv_skill name ready here)
      | inr h₁ ↦ elim (extend_cases name (arm_ready c found) _ _ h₁) [
        | inl (ready, here) ↦ (allowed, arm_skill name ready here)
        | inr h₂ ↦ elim (extend_cases name (axis_ready c found) _ _ h₂) [
          | inl (ready, here) ↦ (allowed, axis_skill name ready here)
          | inr h₃ ↦ absurd (nothing_in name h₃)
        ]
      ]
    ]
  ]

  -- A skill is supported only where motion is enabled and the emergency stop of the whole robot can
  -- be observed, and then every field that the skill's contract in the deployment's registry changes can
  -- be observed (for a field that is named by an arm: those of both arms).
  pub kargo_capabilities-Observes :
      (name : String)
      → supports (kargo_capabilities c found) name ≡ true
      → (c.motion_enabled ≡ true)
        × (c.whole_robot_estop_observable ≡ true)
        × All (λ f. can_observe (kargo_capabilities c found) f ≡ true) (effect_fields name)
  unfolding kargo_capabilities supports can_observe admission_allowed
  kargo_capabilities-Observes name h =
      let (allowed, seen) = supported-Observes name h in
      (and-left _ _ allowed, and-right _ _ allowed, seen)
