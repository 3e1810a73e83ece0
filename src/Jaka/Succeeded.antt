-- ===== src/Jaka/Succeeded.antt =====
-- A command that is accepted is one that the adapters reported as a success.
use embodied_skill_ros.Prelude.{
  Bool, Bool-cases, Option, String, and-left, and-right, ap, eq_iff, false, if◌then◌else◌, inl, inr,
  none, not, refl, some, subst, sym, true, true-ne-false, ◌&&◌, ◌==◌, ◌∙◌, ◌≡◌,
}
use embodied_skill_ros.Prelude.Dict.{Dict, get}
use embodied_skill_ros.Prelude.Int.{pos}
use embodied_skill_ros.Value.Numbers.{Float, absolute, finite, le_float}
use embodied_skill_ros.Value.{Value, as_number}
use embodied_skill_ros.Capabilities.{supports}
use embodied_skill_ros.Jaka.{
  AgvAdapter, Calls, HeadAdapter, JakaAdapters, Reply, and_then, asked, denied, drive_agv, drive_by,
  head_part, jaka_capabilities, jaka_command, legacy_receipt, lift_to, move_head, other_error,
  replied, retract, timeout_error,
}
use embodied_skill_ros.Jaka.Honest.{accepted-contained, stop_agv-refused}

module _ {W : Type 0} (j : JakaAdapters W) where
  -- Asked for a value that is given, a part of the head answered that it is there; nothing is asked
  -- for a value that is not given.
  abbrev pub TurnedFrom : (Value → Calls W) → Option Value → W → Type 0
  TurnedFrom turn none w = Unit
  TurnedFrom turn (some v) w = (turn v w).0 ≡ replied true

  -- The world behind a part of the head that is asked for a value.
  abbrev pub world_behind : (Value → Calls W) → Option Value → W → W
  world_behind turn none w = w
  world_behind turn (some v) w = (turn v w).1

  -- The adapters' own success behind a command: the arm's preset, the lift and each part of the head
  -- that is asked answered true; the drive, whose answer is not looked at, returned.
  pub data Succeeded (arguments : Dict Value) (w : W) : String → Type 0 where
    arm_moved :
        (go : String → Calls W) (pose : String)
        → j.arm ≡ some go
        → j.transport_pose_name ≡ some pose
        → (go pose w).0 ≡ replied true
        → Succeeded arguments w "retract_arm"
    base_drove :
        (agv : AgvAdapter W) (direction : String) (distance : Float) (speed : Value) (b : Bool)
        → j.agv ≡ some agv
        → (agv.drive_distance direction distance speed w).0 ≡ replied b
        → Succeeded arguments w "move_agv"
    lift_moved :
        (go : Value → Calls W) (height : Value)
        → j.lift ≡ some go
        → get "height_mm" arguments ≡ some height
        → (go height w).0 ≡ replied true
        → Succeeded arguments w "set_lift"
    head_turned :
        (head : HeadAdapter W)
        → j.head ≡ some head
        → TurnedFrom head.yaw_to (get "yaw_deg" arguments) w
        → TurnedFrom head.pitch_to
            (get "pitch_deg" arguments)
            (world_behind head.yaw_to (get "yaw_deg" arguments) w)
        → Succeeded arguments w "set_head"

  replied-accepted : (r : Reply) → (legacy_receipt j r).accepted ≡ true → r ≡ replied true
  unfolding legacy_receipt denied
  replied-accepted (replied true) h = refl
  replied-accepted (replied false) h = cc
  replied-accepted (timeout_error m) h = cc
  replied-accepted (other_error m) h = cc

  retract-Succeeded :
      (arm : Option (String → Calls W)) (pose : Option String) (arguments : Dict Value) (w : W)
      → j.arm ≡ arm
      → j.transport_pose_name ≡ pose
      → ((retract j arm pose w).0).accepted ≡ true
      → Succeeded arguments w "retract_arm"
  unfolding retract denied asked
  retract-Succeeded (some go) (some pose) arguments w ea ep h =
      arm_moved go pose ea ep (replied-accepted _ h)
  retract-Succeeded none pose arguments w ea ep h = cc
  retract-Succeeded (some go) none arguments w ea ep h = cc

  lift_to-Succeeded :
      (lift : Option (Value → Calls W)) (height : Option Value) (arguments : Dict Value) (w : W)
      → j.lift ≡ lift
      → get "height_mm" arguments ≡ height
      → ((lift_to j lift height w).0).accepted ≡ true
      → Succeeded arguments w "set_lift"
  unfolding lift_to asked legacy_receipt denied
  lift_to-Succeeded none height arguments w el eh h = cc
  lift_to-Succeeded (some go) none arguments w el eh h = cc
  lift_to-Succeeded (some go) (some v) arguments w el eh h =
      lift_moved go v el eh (replied-accepted _ (unfold legacy_receipt in h))

  replied_injective : (a b : Bool) → replied a ≡ replied b → a ≡ b
  replied_injective a b h = cc

  part_turned :
      (turn : Value → Calls W) (given : Option Value) (fine : Bool) (w : W)
      → (head_part j turn given fine w).0 ≡ replied true
      → TurnedFrom turn given w × (fine ≡ true)
  unfolding head_part
  part_turned turn none fine w h = (tt, replied_injective fine true h)
  part_turned turn (some v) fine w h = by_reply ((turn v w).0) refl h
    where
      by_reply :
          (r : Reply)
          → (turn v w).0 ≡ r
          → (elim r as (λ x. Reply) [ replied b ↦ replied (b && fine) | error ↦ error ])
            ≡ replied true
          → ((turn v w).0 ≡ replied true) × (fine ≡ true)
      by_reply (replied b) e k =
          let both = replied_injective (b && fine) true k in
          (e ∙ ap replied (and-left b fine both), and-right b fine both)
      by_reply (timeout_error m) e k = cc
      by_reply (other_error m) e k = cc

  part_world :
      (turn : Value → Calls W) (given : Option Value) (fine : Bool) (w : W)
      → (head_part j turn given fine w).1 ≡ world_behind turn given w
  unfolding head_part
  part_world turn none fine w = refl
  part_world turn (some v) fine w = refl

  and_then-replied :
      (x : Reply × W) (next : Bool → Calls W)
      → (and_then j x next).0 ≡ replied true
      → (b : Bool) × (x.0 ≡ replied b) × ((next b x.1).0 ≡ replied true)
  unfolding and_then
  and_then-replied (replied b, w) next h = (b, refl, h)
  and_then-replied (timeout_error m, w) next h = cc
  and_then-replied (other_error m, w) next h = cc

  move_head-Succeeded :
      (head : Option (HeadAdapter W)) (arguments : Dict Value) (w : W)
      → j.head ≡ head
      → ((move_head j head arguments w).0).accepted ≡ true
      → Succeeded arguments w "set_head"
  unfolding move_head denied asked
  move_head-Succeeded none arguments w e h = cc
  move_head-Succeeded (some head) arguments w e h =
      let yaw = get "yaw_deg" arguments in
      let pitch = get "pitch_deg" arguments in
      let first = head_part j head.yaw_to yaw true w in
      let (b, e₁, e₂) = and_then-replied first _ (replied-accepted _ h) in
      let (turned, fine) = part_turned head.pitch_to pitch b (first.1) e₂ in
      head_turned head e ((part_turned head.yaw_to yaw true w (e₁ ∙ ap replied fine)).0)
        (subst (TurnedFrom head.pitch_to pitch) (part_world head.yaw_to yaw true w) turned)

  drive_by-replied :
      (agv : AgvAdapter W) (given : Option Value) (speed : Value) (w : W)
      → (drive_by j agv given speed w).0 ≡ replied true
      → (direction : String) × (distance : Float) × (b : Bool) × ((agv.drive_distance direction
            distance speed w).0
          ≡ replied b)
  unfolding drive_by
  drive_by-replied agv none speed w h = absurd (error-ne-reply "distance_m" h)
    where
      error-ne-reply : (m : String) → other_error m ≡ replied true → ⊥
      error-ne-reply m k = cc
  drive_by-replied agv (some v) speed w h = by_number (as_number v) h
    where
      answered_by :
          (r : Reply) (direction : String) (distance : Float)
          → (agv.drive_distance direction distance speed w).0 ≡ r
          → (elim r as (λ x. Reply) [ replied b ↦ replied true | error ↦ error ]) ≡ replied true
          → (direction : String) × (distance : Float) × (b : Bool) × ((agv.drive_distance direction
                distance speed w).0
              ≡ replied b)
      answered_by (replied b) direction distance e k = (direction, distance, b, e)
      answered_by (timeout_error m) direction distance e k = cc
      answered_by (other_error m) direction distance e k = cc

      by_number :
          (o : Option Float)
          → (elim o as (λ x. Reply × W) [
            | none ↦ (other_error "distance_m", w)
            | some distance ↦
                let backward = not (le_float (finite (pos 0)) distance) in
                let (reply, w') =
                  agv.drive_distance
                    (if backward then "backward" else "forward")
                    (absolute distance)
                    speed
                    w in
                (elim reply [ replied b ↦ replied true | error ↦ error ], w')
          ]).0
            ≡ replied true
          → (direction : String) × (distance : Float) × (b : Bool) × ((agv.drive_distance direction
                distance speed w).0
              ≡ replied b)
      by_number none k = cc
      by_number (some d) k = answered_by _ _ _ refl k

  drive_agv-Succeeded :
      (agv : Option (AgvAdapter W)) (arguments : Dict Value) (w : W)
      → j.agv ≡ agv
      → ((drive_agv j agv arguments w).0).accepted ≡ true
      → Succeeded arguments w "move_agv"
  unfolding drive_agv denied asked
  drive_agv-Succeeded none arguments w e h = cc
  drive_agv-Succeeded (some agv) arguments w e h =
      let (direction, distance, b, k) = drive_by-replied agv _ _ w (replied-accepted _ h) in
      base_drove agv direction distance _ b e k

  renamed :
      (a name : String) (arguments : Dict Value) (w : W)
      → (name == a) ≡ true
      → Succeeded arguments w a
      → Succeeded arguments w name
  renamed a name arguments w e h = subst (Succeeded arguments w) (sym ((eq_iff name a).0 e)) h

  accepted-Succeeded :
      (name : String) (arguments : Dict Value) (w : W)
      → ((jaka_command j name arguments w).0).accepted ≡ true
      → Succeeded arguments w name
  unfolding jaka_command denied
  accepted-Succeeded name arguments w h = elim (Bool-cases (name == "retract_arm")) [
    | inl e ↦
        renamed "retract_arm" name arguments w e
          (retract-Succeeded j.arm j.transport_pose_name arguments w refl refl (rw e at h))
    | inr n₁ ↦ elim (Bool-cases (name == "move_agv")) [
      | inl e ↦
          renamed "move_agv" name arguments w e
            (drive_agv-Succeeded j.agv arguments w refl (rw (n₁, e) at h))
      | inr n₂ ↦ elim (Bool-cases (name == "set_lift")) [
        | inl e ↦ renamed "set_lift" name arguments w e (
            lift_to-Succeeded j.lift (get "height_mm" arguments) arguments w refl refl
              (rw (n₁, n₂, e) at h))
        | inr n₃ ↦ elim (Bool-cases (name == "set_head")) [
          | inl e ↦
              renamed "set_head" name arguments w e
                (move_head-Succeeded j.head arguments w refl (rw (n₁, n₂, n₃, e) at h))
          | inr n₄ ↦ elim (Bool-cases (name == "safe_stop")) [
            | inl e ↦
                absurd
                  (true-ne-false (sym (rw (n₁, n₂, n₃, n₄, e) at h) ∙ stop_agv-refused j j.agv w))
            | inr n₅ ↦ absurd (true-ne-false (sym (rw (n₁, n₂, n₃, n₄, n₅) at h)))
          ]
        ]
      ]
    ]
  ]

  -- Whatever the legacy objects answer, a command is accepted only if the capabilities that the
  -- backend states support its skill, and if the adapter is there and reported success: the arm's
  -- preset to the validated transport pose, the lift and each part of the head that was asked answered
  -- true, and the drive of the base, whose answer the code does not look at, did not raise.
  pub jaka_command-supported :
      (name : String) (arguments : Dict Value) (w : W)
      → ((jaka_command j name arguments w).0).accepted ≡ true
      → (supports (jaka_capabilities j) name ≡ true) × Succeeded arguments w name
  unfolding jaka_capabilities supports
  jaka_command-supported name arguments w h =
      (accepted-contained j name arguments w h, accepted-Succeeded name arguments w h)
