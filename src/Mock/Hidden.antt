-- ===== src/Mock/Hidden.antt =====
-- What the mock backend's sensors hide.
use embodied_skill_ros.Prelude.{
  All, Bool, Bool-cases, List, Option, String, [], arith, eq_iff, eq_refl, false, if◌then◌else◌,
  inl, inr, keep, refl, some, subst, sym, true, ℕ, ◌==◌, ◌∙◌, ◌∷◌, ◌≡◌, ◌≢◌, ◌⊎◌,
}
use embodied_skill_ros.Prelude.Dict.{Dict, keys, put, update}
use embodied_skill_ros.Prelude.Texts.{contains}
use embodied_skill_ros.Value.{Value, null}
use embodied_skill_ros.State.{
  RobotState, assign, copy_with, epistemic_value, known, raw_value, with_observation_time,
}
use embodied_skill_ros.State.Evidence.{epistemic_value-known, raw_value-assign}
use embodied_skill_ros.Mock.{MockRobotBackend, mock_observe, nulls, still_unavailable}

-- Whatever is written under the name is nothing.
abbrev Hides : String → Dict Value → Type 0
Hides name d = All (λ p. (p.0 == name) ≡ false ⊎ (p.1 ≡ null)) d

hidden_rest :
    (name : String) (d : Dict Value) (s : RobotState)
    → Hides name d
    → raw_value s name ≡ null
    → raw_value (copy_with s d) name ≡ null
unfolding copy_with
hidden_rest name [] s h e = e
hidden_rest name ((k, v) ∷ d) s h e =
    hidden_rest name d (assign s k v) h.1 (raw_value-assign s k name v ∙ ground (arith, h.0, e))

copy_with-Hides :
    (name : String) (d : Dict Value) (s : RobotState)
    → Hides name d
    → contains name (keys d) ≡ true
    → raw_value (copy_with s d) name ≡ null
unfolding copy_with contains
copy_with-Hides name [] s h c = cc
copy_with-Hides name ((k, v) ∷ d) s h c = elim (Bool-cases (k == name)) [
  | inl e ↦
      hidden_rest name d (assign s k v) h.1 (raw_value-assign s k name v ∙ ground (arith, h.0, e))
  | inr e ↦ copy_with-Hides name d (assign s k v) h.1 (rw e at c)
]

put-Hides :
    (name k : String) (v : Value) (d : Dict Value)
    → (k == name) ≡ false
    → Hides name d
    → Hides name (put k v d)
unfolding put
put-Hides name k v [] e h = (inl e, tt)
put-Hides name k v ((j, w) ∷ d) e h = elim (Bool-cases (j == k)) [
  | inl same ↦
      let far : (j == name) ≡ false = ground (arith, eq_iff j k, same, e) in
      let whole : Hides name ((j, v) ∷ d) = (inl far, h.1) in rw same whole
  | inr other ↦
      let whole : Hides name ((j, w) ∷ put k v d) = (h.0, put-Hides name k v d e h.1) in
      rw other whole
]

put-keys :
    (name k : String) (v : Value) (d : Dict Value)
    → contains name (keys d) ≡ true
    → contains name (keys (put k v d)) ≡ true
unfolding put contains
put-keys name k v [] h = cc
put-keys name k v ((j, w) ∷ d) h = ground (arith, put-keys name k v d)

update-Hides :
    (name : String) (e d : Dict Value)
    → contains name (keys e) ≡ false
    → Hides name d
    → contains name (keys d) ≡ true
    → Hides name (update d e) × (contains name (keys (update d e)) ≡ true)
unfolding update contains
update-Hides name [] d n h c = (h, c)
update-Hides name ((k, v) ∷ e) d n h c =
    update-Hides name e (put k v d) (ground arith) (put-Hides name k v d (ground arith) h)
      (put-keys name k v d c)

nulls-Hides : (name : String) (names : List String) → Hides name (nulls names)
unfolding nulls
nulls-Hides name [] = tt
nulls-Hides name (x ∷ xs) = (inr refl, nulls-Hides name xs)

nulls-keys :
    (name : String) (names : List String)
    → contains name names ≡ true
    → contains name (keys (nulls names)) ≡ true
unfolding nulls contains
nulls-keys name [] h = cc
nulls-keys name (x ∷ xs) h = ground (arith, nulls-keys name xs)

kept_name :
    (name : String) (p : String → Bool) (xs : List String)
    → contains name xs ≡ true
    → p name ≡ true
    → contains name (keep p xs) ≡ true
unfolding contains
kept_name name p [] h k = cc
kept_name name p (x ∷ xs) h k = elim (Bool-cases (x == name)) [
  | inl e ↦
      subst (λ n. contains name (if p n then n ∷ keep p xs else keep p xs) ≡ true)
        (sym ((eq_iff x name).0 e)) (rw k (rw (eq_refl name) refl))
  | inr e ↦
      let later : contains name (keep p xs) ≡ true = kept_name name p xs (rw e at h) k in
      ground arith
]

-- A field that the sensors hide, that no acquisition has made available and that no override writes,
-- is never KNOWN in what the mock backend observes, whatever the hidden world holds.
pub mock_observe-hidden :
    (b : MockRobotBackend) (name : String) (max_age : Option ℕ) (now : ℕ)
    → contains name b.observation_model.hidden_fields ≡ true
    → still_unavailable b name ≡ true
    → contains name (keys b.observation_model.overrides) ≡ false
    → (epistemic_value ((mock_observe b).0) name max_age now).status ≢ known
mock_observe-hidden b name max_age now hidden unavailable free k =
    let o = b.observation_model in
    let names = keep (still_unavailable b) o.hidden_fields in
    let here : contains name names ≡ true =
      kept_name name (still_unavailable b) o.hidden_fields hidden unavailable in
    let (h, c) =
      update-Hides name o.overrides (nulls names) free (nulls-Hides name names)
        (nulls-keys name names here) in
    let seen =
      copy_with-Hides name (update (nulls names) o.overrides)
        (record b.world { timestamp = some b.time }) h c in
    ((epistemic_value-known ((mock_observe b).0) name max_age now).0 k).present
      (unfold mock_observe with_observation_time raw_value in seen)
