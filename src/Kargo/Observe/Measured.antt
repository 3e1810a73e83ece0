-- ===== src/Kargo/Observe/Measured.antt =====
-- What each reading notes under a name, and what it leaves alone.
use embodied_skill_ros.Prelude.{
  Bool, List, Option, String, [], ap, arith, false, if◌then◌else◌, none, refl, some, true, ℕ, ◌∙◌,
  ◌∷◌, ◌≡◌,
}
use embodied_skill_ros.Prelude.Dict.{Dict, get, get-put, get-put_self, keys, put, update}
use embodied_skill_ros.Prelude.Texts.{contains}
use embodied_skill_ros.Value.Numbers.{negate}
use embodied_skill_ros.Value.{Value, bool, float}
use embodied_skill_ros.State.{Stamp}
use embodied_skill_ros.Kargo.{KargoConfig}
use embodied_skill_ros.Kargo.Transport.{AgvObservation, ArmObservation, AxisObservation}
use embodied_skill_ros.Kargo.Readings.{
  Reading, agv_reading, arm_reading, head_reading, lift_reading, pitch_reading, stop_reading,
  usable_axis, waist_reading, yaw_reading,
}
use embodied_skill_ros.Kargo.Observe.{
  Noted, note, note_agv, note_arm, note_head, note_lift, note_pitch, note_stop, note_waist,
  note_yaw, record_names, record_one,
}

-- What is noted under a name.
abbrev pub held : String → Noted → Option Value × Option Value
held k n = (get k n.values, get k n.facts)

unfoldable pub position_of : Option AxisObservation → Option Value
position_of none = none
position_of (some o) = some (float o.position)

unfoldable pub negated_position_of : Option AxisObservation → Option Value
unfolding negate
negated_position_of none = none
negated_position_of (some o) = some (float (negate o.position))

get-update_other :
    (k : String) (d e : Dict Value) → contains k (keys e) ≡ false → get k (update d e) ≡ get k d
unfolding update contains
get-update_other k d [] h = refl
get-update_other k d ((j, v) ∷ e) h =
    get-update_other k (put j v d) e (ground arith) ∙ get-put j k v d ∙ ground arith

-- A name that comes first in what is written, and only there.
get-update_first :
    (k : String) (v : Value) (d e : Dict Value)
    → contains k (keys e) ≡ false
    → get k (update d ((k, v) ∷ e)) ≡ some v
unfolding update
get-update_first k v d e h = get-update_other k (put k v d) e h ∙ get-put_self k v d

module _ (c : KargoConfig) (now : ℕ) where
  record_names-held :
      (names : List String) (stamp : Stamp) (source k : String) (n : Noted)
      → held k (record_names c now names stamp source n) ≡ held k n
  unfolding record_names record_one
  record_names-held [] stamp source k n = refl
  record_names-held (name ∷ names) stamp source k n =
      record_names-held names stamp source k (record_one c now stamp source name n)

  note-held :
      (r : Reading) (k : String) (n : Noted)
      → held k (note c now r n) ≡ (get k (update n.values r.values), get k (update n.facts r.facts))
  unfolding note
  note-held r k n = record_names-held r.names r.stamp.reads r.source k _

  -- A reading leaves alone what it has no name for.
  note-other :
      (r : Reading) (k : String) (n : Noted)
      → contains k (keys r.values) ≡ false
      → contains k (keys r.facts) ≡ false
      → held k (note c now r n) ≡ held k n
  note-other r k n hv hf =
      note-held r k n
      ∙ (λ i. (get-update_other k n.values r.values hv i, get-update_other k n.facts r.facts hf i))

  pub note_lift-other :
      (k : String) (o : Option AxisObservation) (n : Noted)
      → ((a : AxisObservation)
          → (contains k (keys (lift_reading a).values) ≡ false)
            × (contains k (keys (lift_reading a).facts) ≡ false))
      → held k (note_lift c now o n) ≡ held k n
  unfolding note_lift
  note_lift-other k none n h = refl
  note_lift-other k (some o) n h = note-other (lift_reading o) k n ((h o).0) ((h o).1)

  pub note_waist-other :
      (k : String) (o : Option AxisObservation) (n : Noted)
      → ((a : AxisObservation)
          → (contains k (keys (waist_reading a).values) ≡ false)
            × (contains k (keys (waist_reading a).facts) ≡ false))
      → held k (note_waist c now o n) ≡ held k n
  unfolding note_waist
  note_waist-other k none n h = refl
  note_waist-other k (some o) n h = note-other (waist_reading o) k n ((h o).0) ((h o).1)

  pub note_yaw-other :
      (k : String) (o : Option AxisObservation) (n : Noted)
      → ((a : AxisObservation)
          → (contains k (keys (yaw_reading a).values) ≡ false)
            × (contains k (keys (yaw_reading a).facts) ≡ false))
      → held k (note_yaw c now o n) ≡ held k n
  unfolding note_yaw
  note_yaw-other k none n h = refl
  note_yaw-other k (some o) n h = note-other (yaw_reading o) k n ((h o).0) ((h o).1)

  pub note_pitch-other :
      (k : String) (o : Option AxisObservation) (n : Noted)
      → ((a : AxisObservation)
          → (contains k (keys (pitch_reading a).values) ≡ false)
            × (contains k (keys (pitch_reading a).facts) ≡ false))
      → held k (note_pitch c now o n) ≡ held k n
  unfolding note_pitch
  note_pitch-other k none n h = refl
  note_pitch-other k (some o) n h = note-other (pitch_reading o) k n ((h o).0) ((h o).1)

  pub note_head-other :
      (k : String) (yaw pitch : Option AxisObservation) (n : Noted)
      → ((a b : AxisObservation) → contains k (keys (head_reading a b).values) ≡ false)
      → held k (note_head c now yaw pitch n) ≡ held k n
  unfolding note_head head_reading
  note_head-other k none pitch n h = refl
  note_head-other k (some yaw) none n h = refl
  note_head-other k (some yaw) (some pitch) n h =
      note-other (head_reading yaw pitch) k n (h yaw pitch) refl

  pub note_arm-other :
      (k arm : String) (o : Option ArmObservation) (n : Noted)
      → ((a : ArmObservation)
          → (contains k (keys (arm_reading c arm a).values) ≡ false)
            × (contains k (keys (arm_reading c arm a).facts) ≡ false))
      → held k (note_arm c now arm o n) ≡ held k n
  unfolding note_arm
  note_arm-other k arm none n h = refl
  note_arm-other k arm (some o) n h = note-other (arm_reading c arm o) k n ((h o).0) ((h o).1)

  either-held :
      (b : Bool) (k : String) (m n : Noted)
      → held k m ≡ held k n
      → held k (if b then m else n) ≡ held k n
  either-held true k m n h = h
  either-held false k m n h = refl

  note_stop-other :
      (k : String) (o : AgvObservation) (n : Noted)
      → contains k (keys (stop_reading o).values) ≡ false
      → held k (note_stop c now o n) ≡ held k n
  unfolding note_stop stop_reading
  note_stop-other k o n h =
      either-held c.whole_robot_estop_observable k (note c now (stop_reading o) n) n
        (note-other (stop_reading o) k n h refl)

  pub note_agv-other :
      (k : String) (o : Option AgvObservation) (n : Noted)
      → ((a : AgvObservation)
          → (contains k (keys (stop_reading a).values) ≡ false)
            × (contains k (keys (agv_reading a).values) ≡ false)
            × (contains k (keys (agv_reading a).facts) ≡ false))
      → held k (note_agv c now o n) ≡ held k n
  unfolding note_agv
  note_agv-other k none n h = refl
  note_agv-other k (some o) n h =
      note_stop-other k o (note c now (agv_reading o) n) ((h o).0)
      ∙ note-other (agv_reading o) k n ((h o).1) ((h o).2)

  pub lift_hit :
      (o : Option AxisObservation) (n : Noted)
      → held "lift_height_mm" n ≡ (none, none)
      → held "lift_height_mm" (note_lift c now o n) ≡ (position_of o, none)
  unfolding note_lift lift_reading position_of negated_position_of contains
  lift_hit none n h = h
  lift_hit (some o) n h =
      let r = lift_reading o in
      note-held r "lift_height_mm" n ∙ (λ i. (
        get-update_first "lift_height_mm" (float o.position) n.values
            (("lift_ready", bool (usable_axis o)) ∷ []) refl i,
        (get-update_other "lift_height_mm" n.facts r.facts refl ∙ ap (λ p. p.1) h) i,
      ))

  pub waist_hit :
      (o : Option AxisObservation) (n : Noted)
      → held "waist_angle_deg" n ≡ (none, none)
      → held "waist_angle_deg" (note_waist c now o n) ≡ (none, position_of o)
  unfolding note_waist waist_reading position_of negated_position_of contains
  waist_hit none n h = h
  waist_hit (some o) n h =
      let r = waist_reading o in
      note-held r "waist_angle_deg" n ∙ (λ i. (
        (get-update_other "waist_angle_deg" n.values r.values refl ∙ ap (λ p. p.0) h) i,
        get-update_first "waist_angle_deg" (float o.position) n.facts
            (("waist_ready", bool (usable_axis o)) ∷ ("waist_in_position", bool o.in_position) ∷ [])
            refl i,
      ))

  pub yaw_hit :
      (o : Option AxisObservation) (n : Noted)
      → held "head_yaw_deg" n ≡ (none, none)
      → held "head_yaw_deg" (note_yaw c now o n) ≡ (position_of o, none)
  unfolding note_yaw yaw_reading position_of negated_position_of contains
  yaw_hit none n h = h
  yaw_hit (some o) n h =
      let r = yaw_reading o in
      note-held r "head_yaw_deg" n ∙ (λ i. (
        get-update_first "head_yaw_deg" (float o.position) n.values [] refl i,
        (get-update_other "head_yaw_deg" n.facts r.facts refl ∙ ap (λ p. p.1) h) i,
      ))

  pub pitch_hit :
      (o : Option AxisObservation) (n : Noted)
      → held "head_pitch_deg" n ≡ (none, none)
      → held "head_pitch_deg" (note_pitch c now o n) ≡ (negated_position_of o, none)
  unfolding note_pitch pitch_reading position_of negated_position_of contains
  pitch_hit none n h = h
  pitch_hit (some o) n h =
      let r = pitch_reading o in
      note-held r "head_pitch_deg" n ∙ (λ i. (
        get-update_first "head_pitch_deg" (float (negate o.position)) n.values [] refl i,
        (get-update_other "head_pitch_deg" n.facts r.facts refl ∙ ap (λ p. p.1) h) i,
      ))
