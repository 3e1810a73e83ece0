-- ===== src/Kargo/Observe/Sourced.antt =====
-- Where the times of an observation come from: the source that measured the field stamped it.
use embodied_skill_ros.Prelude.{
  Bool, Bool-cases, List, Option, String, [], arith, eq_iff, eq_refl, false, if◌then◌else◌, inl,
  inr, none, none-ne-some, refl, some, some_injective, subst, sym, true, ℕ, ◌==◌, ◌||◌, ◌∙◌, ◌∷◌,
  ◌≡◌, ◌⊎◌,
}
use embodied_skill_ros.Prelude.Dict.{get, get-put}
use embodied_skill_ros.Prelude.Texts.{contains}
use embodied_skill_ros.State.{Stamp}
use embodied_skill_ros.Kargo.{KargoConfig}
use embodied_skill_ros.Kargo.Transport.{
  AgvObservation, ArmObservation, AxisObservation, StampText, Transport,
}
use embodied_skill_ros.Kargo.Readings.{
  Reading, agv_reading, arm_reading, earlier, head_reading, lift_reading, pitch_reading,
  stop_reading, waist_reading, yaw_reading,
}
use embodied_skill_ros.Kargo.Observe.{
  Noted, Readings, error_of, given, note, note_agv, note_arm, note_error, note_head, note_lift,
  note_pitch, note_stop, note_waist, note_yaw, noted_of, nothing_noted, query_all, record_names,
  record_one,
}
use Prim.Native.Nat.{Ordering}
use Prim.Native.String.{compare as compare_text}

-- The fields of each source.
abbrev lift_fields : List String
lift_fields = "lift_height_mm" ∷ "lift_ready" ∷ "lift_in_position" ∷ "lift_commanded_mm" ∷ []

abbrev waist_fields : List String
waist_fields = "waist_angle_deg" ∷ "waist_ready" ∷ "waist_in_position" ∷ []

abbrev yaw_fields : List String
yaw_fields = "head_yaw_deg" ∷ []

abbrev pitch_fields : List String
pitch_fields = "head_pitch_deg" ∷ []

abbrev left_fields : List String
left_fields =
    "left_arm_ready" ∷ "left_arm_safe" ∷ "left_arm_joint_positions_rad" ∷ "left_arm_tcp_pose_mm_rad"
    ∷ []

abbrev right_fields : List String
right_fields =
    "right_arm_ready" ∷ "right_arm_safe" ∷ "right_arm_joint_positions_rad"
    ∷ "right_arm_tcp_pose_mm_rad" ∷ []

abbrev base_fields : List String
base_fields =
    "agv_position_m" ∷ "agv_moving" ∷ "agv_ready" ∷ "agv_position_y_m" ∷ "agv_orientation_xyzw"
    ∷ "agv_motion_state_id" ∷ "agv_emergency_stop" ∷ "agv_fault" ∷ []

abbrev agv_fields : List String
agv_fields =
    "agv_position_m" ∷ "agv_moving" ∷ "agv_ready" ∷ "agv_position_y_m" ∷ "agv_orientation_xyzw"
    ∷ "agv_motion_state_id" ∷ "agv_emergency_stop" ∷ "agv_fault" ∷ "emergency_stop" ∷ "fault" ∷ []

-- A field has the time with which the answer that measured it is stamped; the readiness of the head,
-- which two axes answer for, that of one of them.
pub data IsSourced (r : Readings) (name : String) : Stamp → Type 0 where
  by_lift :
      (o : AxisObservation)
      → given r.lift ≡ some o
      → contains name lift_fields ≡ true
      → IsSourced r name o.observed_at.reads
  by_waist :
      (o : AxisObservation)
      → given r.waist ≡ some o
      → contains name waist_fields ≡ true
      → IsSourced r name o.observed_at.reads
  by_yaw :
      (o : AxisObservation)
      → given r.yaw ≡ some o
      → contains name yaw_fields ≡ true
      → IsSourced r name o.observed_at.reads
  by_pitch :
      (o : AxisObservation)
      → given r.pitch ≡ some o
      → contains name pitch_fields ≡ true
      → IsSourced r name o.observed_at.reads
  by_left :
      (o : ArmObservation)
      → given r.left ≡ some o
      → contains name left_fields ≡ true
      → IsSourced r name o.observed_at.reads
  by_right :
      (o : ArmObservation)
      → given r.right ≡ some o
      → contains name right_fields ≡ true
      → IsSourced r name o.observed_at.reads
  by_agv :
      (o : AgvObservation)
      → given r.agv ≡ some o
      → contains name agv_fields ≡ true
      → IsSourced r name o.observed_at.reads
  by_head :
      (yaw pitch : AxisObservation) (stamp : Stamp)
      → given r.yaw ≡ some yaw
      → given r.pitch ≡ some pitch
      → ("head_ready" ≡ name)
      → (stamp ≡ yaw.observed_at.reads) ⊎ (stamp ≡ pitch.observed_at.reads)
      → IsSourced r name stamp

module _ (c : KargoConfig) (now : ℕ) (P : String → Stamp → Type 0) where
  abbrev Stamped : Noted → Type 0
  Stamped n = (k : String) (s : Stamp) → get k n.stamps ≡ some s → P k s

  -- A reading may stamp its names.
  abbrev Stamps : Reading → Type 0
  Stamps r = (k : String) → contains k r.names ≡ true → P k r.stamp.reads

  record_one-Stamped :
      (stamp : Stamp) (source name : String) (n : Noted)
      → P name stamp
      → Stamped n
      → Stamped (record_one c now stamp source name n)
  unfolding record_one
  record_one-Stamped stamp source name n p h k s e = elim (Bool-cases (name == k)) [
    | inl same ↦
        let found : some stamp ≡ some s = rw same at (sym (get-put name k stamp n.stamps) ∙ e) in
        subst (λ x. P x s) ((eq_iff name k).0 same) (subst (P name) (some_injective found) p)
    | inr other ↦ h k s (rw other at (sym (get-put name k stamp n.stamps) ∙ e))
  ]

  record_names-Stamped :
      (names : List String) (stamp : Stamp) (source : String) (n : Noted)
      → ((k : String) → contains k names ≡ true → P k stamp)
      → Stamped n
      → Stamped (record_names c now names stamp source n)
  unfolding record_names contains
  record_names-Stamped [] stamp source n p h = h
  record_names-Stamped (name ∷ names) stamp source n p h =
      record_names-Stamped names stamp source _ (λ k e. p k (later k e))
        (record_one-Stamped stamp source name n (p name here) h)
    where
      here : (name == name || contains name names) ≡ true
      here = rw eq_refl refl

      later : (k : String) → contains k names ≡ true → (name == k || contains k names) ≡ true
      later k e = ground arith

  note-Stamped : (r : Reading) (n : Noted) → Stamps r → Stamped n → Stamped (note c now r n)
  unfolding note
  note-Stamped r n p h = record_names-Stamped r.names r.stamp.reads r.source _ p h

  note_error-Stamped :
      (label : String) (message : Option String) (n : Noted)
      → Stamped n
      → Stamped (note_error label message n)
  unfolding note_error
  note_error-Stamped label none n h = h
  note_error-Stamped label (some m) n h = h

  note_lift-Stamped :
      (o : Option AxisObservation) (n : Noted)
      → ((a : AxisObservation) → o ≡ some a → Stamps (lift_reading a))
      → Stamped n
      → Stamped (note_lift c now o n)
  unfolding note_lift
  note_lift-Stamped none n p h = h
  note_lift-Stamped (some a) n p h = note-Stamped (lift_reading a) n (p a refl) h

  note_waist-Stamped :
      (o : Option AxisObservation) (n : Noted)
      → ((a : AxisObservation) → o ≡ some a → Stamps (waist_reading a))
      → Stamped n
      → Stamped (note_waist c now o n)
  unfolding note_waist
  note_waist-Stamped none n p h = h
  note_waist-Stamped (some a) n p h = note-Stamped (waist_reading a) n (p a refl) h

  note_yaw-Stamped :
      (o : Option AxisObservation) (n : Noted)
      → ((a : AxisObservation) → o ≡ some a → Stamps (yaw_reading a))
      → Stamped n
      → Stamped (note_yaw c now o n)
  unfolding note_yaw
  note_yaw-Stamped none n p h = h
  note_yaw-Stamped (some a) n p h = note-Stamped (yaw_reading a) n (p a refl) h

  note_pitch-Stamped :
      (o : Option AxisObservation) (n : Noted)
      → ((a : AxisObservation) → o ≡ some a → Stamps (pitch_reading a))
      → Stamped n
      → Stamped (note_pitch c now o n)
  unfolding note_pitch
  note_pitch-Stamped none n p h = h
  note_pitch-Stamped (some a) n p h = note-Stamped (pitch_reading a) n (p a refl) h

  note_arm-Stamped :
      (arm : String) (o : Option ArmObservation) (n : Noted)
      → ((a : ArmObservation) → o ≡ some a → Stamps (arm_reading c arm a))
      → Stamped n
      → Stamped (note_arm c now arm o n)
  unfolding note_arm
  note_arm-Stamped arm none n p h = h
  note_arm-Stamped arm (some a) n p h = note-Stamped (arm_reading c arm a) n (p a refl) h

  note_head-Stamped :
      (yaw pitch : Option AxisObservation) (n : Noted)
      → ((a b : AxisObservation) → yaw ≡ some a → pitch ≡ some b → Stamps (head_reading a b))
      → Stamped n
      → Stamped (note_head c now yaw pitch n)
  unfolding note_head
  note_head-Stamped none pitch n p h = h
  note_head-Stamped (some a) none n p h = h
  note_head-Stamped (some a) (some b) n p h = note-Stamped (head_reading a b) n (p a b refl refl) h

  either-Stamped : (b : Bool) (m n : Noted) → Stamped m → Stamped n → Stamped (if b then m else n)
  either-Stamped true m n h k = h
  either-Stamped false m n h k = k

  note_agv-Stamped :
      (o : Option AgvObservation) (n : Noted)
      → ((a : AgvObservation) → o ≡ some a → Stamps (agv_reading a) × Stamps (stop_reading a))
      → Stamped n
      → Stamped (note_agv c now o n)
  unfolding note_agv note_stop
  note_agv-Stamped none n p h = h
  note_agv-Stamped (some a) n p h =
      let base = note-Stamped (agv_reading a) n ((p a refl).0) h in
      either-Stamped c.whole_robot_estop_observable
        (note c now (stop_reading a) (note c now (agv_reading a) n)) (note c now (agv_reading a) n)
        (note-Stamped (stop_reading a) (note c now (agv_reading a) n) ((p a refl).1) base) base

module _ (c : KargoConfig) (now : ℕ) (r : Readings) where
  head-IsSourced :
      (a b : AxisObservation)
      → given r.yaw ≡ some a
      → given r.pitch ≡ some b
      → Stamps c now (IsSourced r) (head_reading a b)
  unfolding head_reading earlier contains
  head-IsSourced a b e f k h = by_head a b _ e f (only k h) (one_of a.observed_at b.observed_at)
    where
      only : (k : String) → ("head_ready" == k || false) ≡ true → "head_ready" ≡ k
      only k g = (eq_iff "head_ready" k).0 (ground arith)

      one_of : (s t : StampText) → ((earlier s t).reads ≡ s.reads) ⊎ ((earlier s t).reads ≡ t.reads)
      one_of s t = by_order (compare_text t.written s.written)
        where
          by_order :
              (o : Ordering)
              → ((elim o as (λ x. StampText) [ Ordering.lt ↦ t | _ ↦ s ]).reads ≡ s.reads)
                ⊎ ((elim o as (λ x. StampText) [ Ordering.lt ↦ t | _ ↦ s ]).reads ≡ t.reads)
          by_order Ordering.lt = inr refl
          by_order Ordering.eq = inl refl
          by_order Ordering.gt = inl refl

  -- Every time that is noted comes from the source of its field.
  pub noted_of-IsSourced : Stamped c now (IsSourced r) (noted_of c now r)
  unfolding noted_of lift_reading waist_reading yaw_reading pitch_reading arm_reading agv_reading
      stop_reading contains get
  noted_of-IsSourced =
      let P = IsSourced r in
      let s₁ = note_error-Stamped c now P "head_pitch" (error_of r.pitch) _ (
        note_error-Stamped c now P "head_yaw" (error_of r.yaw) _ (
          note_error-Stamped c now P "waist" (error_of r.waist) _ (
            note_error-Stamped c now P "lift" (error_of r.lift) nothing_noted
              (λ k s e. absurd (none-ne-some s e))))) in
      let s₂ =
        note_waist-Stamped c now P (given r.waist) _ (λ a e k h. by_waist a e h)
          (note_lift-Stamped c now P (given r.lift) _ (λ a e k h. by_lift a e h) s₁) in
      let s₃ =
        note_pitch-Stamped c now P (given r.pitch) _ (λ a e k h. by_pitch a e h)
          (note_yaw-Stamped c now P (given r.yaw) _ (λ a e k h. by_yaw a e h) s₂) in
      let s₄ = note_head-Stamped c now P (given r.yaw) (given r.pitch) _ head-IsSourced s₃ in
      let s₅ =
        note_arm-Stamped c now P "left" (given r.left) _ (λ a e k h. by_left a e h)
          (note_error-Stamped c now P "left_arm" (error_of r.left) _ s₄) in
      let s₆ =
        note_arm-Stamped c now P "right" (given r.right) _ (λ a e k h. by_right a e h)
          (note_error-Stamped c now P "right_arm" (error_of r.right) _ s₅) in
      note_agv-Stamped c now P (given r.agv) _
        (λ a e. ((λ k h. by_agv a e (base k h)), (λ k h. by_agv a e (stop k h))))
        (note_error-Stamped c now P "agv" (error_of r.agv) _ s₆)
    where
      base : (k : String) → contains k base_fields ≡ true → contains k agv_fields ≡ true
      base k h = ground arith

      stop :
          (k : String)
          → contains k ("emergency_stop" ∷ "fault" ∷ []) ≡ true
          → contains k agv_fields ≡ true
      stop k h = ground arith

-- What the transport answers for the four axes, by their numbers (0: lift, 1: waist, 2: yaw, 3: pitch),
-- for the arms (0: left, 1: right) and for the base, when it is asked in this order.
module _ {W : Type 0} (t : Transport W) (c : KargoConfig) where
  abbrev behind_axis : ℕ → W → W
  behind_axis n w = (t.query_external_axis n c.service_timeout w).1

  abbrev behind_four : W → W
  behind_four w = behind_axis 3 (behind_axis 2 (behind_axis 1 (behind_axis 0 w)))

  abbrev behind_arm : ℕ → W → W
  behind_arm n w = (t.query_arm n c.service_timeout w).1

  abbrev pub answers : W → Readings
  answers w = record {
    lift = (t.query_external_axis 0 c.service_timeout w).0;
    waist = (t.query_external_axis 1 c.service_timeout (behind_axis 0 w)).0;
    yaw = (t.query_external_axis 2 c.service_timeout (behind_axis 1 (behind_axis 0 w))).0;
    pitch =
        (t.query_external_axis 3 c.service_timeout
          (behind_axis 2 (behind_axis 1 (behind_axis 0 w)))).0;
    left = (t.query_arm 0 c.service_timeout (behind_four w)).0;
    right = (t.query_arm 1 c.service_timeout (behind_arm 0 (behind_four w))).0;
    agv = (t.query_agv c.service_timeout (behind_arm 1 (behind_arm 0 (behind_four w)))).0;
  }

  pub query_all-answers : (w : W) → (query_all t c w).0 ≡ answers w
  unfolding query_all
  query_all-answers w = refl
