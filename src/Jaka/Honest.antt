-- ===== src/Jaka/Honest.antt =====
-- A command that is accepted is one of a skill that the capabilities name.
use embodied_skill_ros.Prelude.{
  Bool, Bool-cases, List, Option, String, [], arith, eq_iff, false, inl, inr, is_some, none, refl,
  some, subst, sym, true, true-ne-false, ◌&&◌, ◌==◌, ◌∙◌, ◌∷◌, ◌≡◌,
}
use embodied_skill_ros.Prelude.Dict.{Dict, get}
use embodied_skill_ros.Prelude.Texts.{contains, contains-union}
use embodied_skill_ros.Value.{Value}
use embodied_skill_ros.Jaka.{
  AgvAdapter, Calls, HeadAdapter, JakaAdapters, Reply, asked, denied, drive_agv, jaka_command,
  jaka_supported, legacy_receipt, lift_to, move_head, other_error, replied, retract, stop_agv,
  supported_if, timeout_error, unstopped,
}

module _ {W : Type 0} (j : JakaAdapters W) where
  supported_old :
      (name : String) (test : Bool) (more names : List String)
      → contains name names ≡ true
      → contains name (supported_if test more names) ≡ true
  unfolding supported_if
  supported_old name test more names h = ground (arith, contains-union name names more)

  supported_new :
      (name : String) (test : Bool) (more names : List String)
      → test ≡ true
      → contains name more ≡ true
      → contains name (supported_if test more names) ≡ true
  unfolding supported_if
  supported_new name test more names t h = ground (arith, contains-union name names more)

  arm-supported :
      (is_some j.arm && is_some j.transport_pose_name) ≡ true
      → contains "retract_arm" (jaka_supported j) ≡ true
  unfolding jaka_supported contains
  arm-supported h = supported_old "retract_arm" (is_some j.head) ("set_head" ∷ []) _ (
      supported_old "retract_arm" (is_some j.lift) ("set_lift" ∷ []) _ (
        supported_old "retract_arm" (is_some j.agv) ("move_agv" ∷ []) _ (
          supported_new "retract_arm" (is_some j.arm && is_some j.transport_pose_name)
            ("retract_arm" ∷ []) [] h refl)))

  agv-supported : is_some j.agv ≡ true → contains "move_agv" (jaka_supported j) ≡ true
  unfolding jaka_supported contains
  agv-supported h = supported_old "move_agv" (is_some j.head) ("set_head" ∷ []) _ (
      supported_old "move_agv" (is_some j.lift) ("set_lift" ∷ []) _
        (supported_new "move_agv" (is_some j.agv) ("move_agv" ∷ []) _ h refl))

  lift-supported : is_some j.lift ≡ true → contains "set_lift" (jaka_supported j) ≡ true
  unfolding jaka_supported contains
  lift-supported h =
      supported_old "set_lift" (is_some j.head) ("set_head" ∷ []) _
        (supported_new "set_lift" (is_some j.lift) ("set_lift" ∷ []) _ h refl)

  head-supported : is_some j.head ≡ true → contains "set_head" (jaka_supported j) ≡ true
  unfolding jaka_supported contains
  head-supported h = supported_new "set_head" (is_some j.head) ("set_head" ∷ []) _ h refl

  retract-arm :
      (arm : Option (String → Calls W)) (pose : Option String) (w : W)
      → ((retract j arm pose w).0).accepted ≡ true
      → (is_some arm && is_some pose) ≡ true
  unfolding retract denied
  retract-arm (some go) (some pose) w h = refl
  retract-arm none pose w h = cc
  retract-arm (some go) none w h = cc

  drive_agv-adapter :
      (agv : Option (AgvAdapter W)) (arguments : Dict Value) (w : W)
      → ((drive_agv j agv arguments w).0).accepted ≡ true
      → is_some agv ≡ true
  unfolding drive_agv denied
  drive_agv-adapter none arguments w h = cc
  drive_agv-adapter (some agv) arguments w h = refl

  lift_to-adapter :
      (lift : Option (Value → Calls W)) (height : Option Value) (w : W)
      → ((lift_to j lift height w).0).accepted ≡ true
      → is_some lift ≡ true
  unfolding lift_to asked legacy_receipt denied
  lift_to-adapter none height w h = cc
  lift_to-adapter (some go) height w h = refl

  move_head-adapter :
      (head : Option (HeadAdapter W)) (arguments : Dict Value) (w : W)
      → ((move_head j head arguments w).0).accepted ≡ true
      → is_some head ≡ true
  unfolding move_head denied
  move_head-adapter none arguments w h = cc
  move_head-adapter (some head) arguments w h = refl

  unstopped-refused : (reply : Reply) → (unstopped j reply).accepted ≡ false
  unfolding unstopped legacy_receipt denied
  unstopped-refused (replied b) = refl
  unstopped-refused (timeout_error m) = refl
  unstopped-refused (other_error m) = refl

  pub stop_agv-refused :
      (agv : Option (AgvAdapter W)) (w : W) → ((stop_agv j agv w).0).accepted ≡ false
  unfolding stop_agv denied
  stop_agv-refused none w = refl
  stop_agv-refused (some agv) w = unstopped-refused ((agv.stop_agv_motion w).0)

  -- The stop of the legacy adapter is never reported as accepted, whatever the adapters do.
  pub jaka_command-stop :
      (arguments : Dict Value) (w : W)
      → ((jaka_command j "safe_stop" arguments w).0).accepted ≡ false
  unfolding jaka_command
  jaka_command-stop arguments w = stop_agv-refused j.agv w

  named_case :
      (a name : String)
      → (a == name) ≡ true
      → contains a (jaka_supported j) ≡ true
      → contains name (jaka_supported j) ≡ true
  named_case a name e h = subst (λ n. contains n (jaka_supported j) ≡ true) ((eq_iff a name).0 e) h

  flip : (a b : String) → (a == b) ≡ true → (b == a) ≡ true
  flip a b h = ground (arith, eq_iff a b, eq_iff b a)

  pub accepted-contained :
      (name : String) (arguments : Dict Value) (w : W)
      → ((jaka_command j name arguments w).0).accepted ≡ true
      → contains name (jaka_supported j) ≡ true
  unfolding jaka_command denied
  accepted-contained name arguments w h = elim (Bool-cases (name == "retract_arm")) [
    | inl e ↦
        named_case "retract_arm" name (flip name "retract_arm" e)
          (arm-supported (retract-arm j.arm j.transport_pose_name w (rw e at h)))
    | inr n₁ ↦ elim (Bool-cases (name == "move_agv")) [
      | inl e ↦
          named_case "move_agv" name (flip name "move_agv" e)
            (agv-supported (drive_agv-adapter j.agv arguments w (rw (n₁, e) at h)))
      | inr n₂ ↦ elim (Bool-cases (name == "set_lift")) [
        | inl e ↦ named_case "set_lift" name (flip name "set_lift" e) (
            lift-supported
              (lift_to-adapter j.lift (get "height_mm" arguments) w (rw (n₁, n₂, e) at h)))
        | inr n₃ ↦ elim (Bool-cases (name == "set_head")) [
          | inl e ↦
              named_case "set_head" name (flip name "set_head" e)
                (head-supported (move_head-adapter j.head arguments w (rw (n₁, n₂, n₃, e) at h)))
          | inr n₄ ↦ elim (Bool-cases (name == "safe_stop")) [
            | inl e ↦
                absurd
                  (true-ne-false (sym (rw (n₁, n₂, n₃, n₄, e) at h) ∙ stop_agv-refused j.agv w))
            | inr n₅ ↦ absurd (true-ne-false (sym (rw (n₁, n₂, n₃, n₄, n₅) at h)))
          ]
        ]
      ]
    ]
  ]
