-- ===== src/State/Evidence.antt =====
-- What a KNOWN epistemic value rests on, and how `copy` changes what is read.
use embodied_skill_ros.Prelude.{
  All, Bool, Bool-cases, List, Option, String, [], any, ap, arith, eq_iff, eq_refl, false,
  if◌then◌else◌, inl, inr, none, none-ne-some, not, refl, some, some_injective, subst, sym, true, ℕ,
  ◌+◌, ◌==◌, ◌↔◌, ◌∷◌, ◌≡◌, ◌≢◌, ◌≤◌, ◌⊎◌,
}
use embodied_skill_ros.Prelude.Dict.{Dict, get-put, get-put_self}
use embodied_skill_ros.Prelude.Texts.{contains}
use embodied_skill_ros.Value.{
  Value, bool, float, floats, int, is_null, null, same_repr, text, texts,
}
use embodied_skill_ros.State.{
  KnowledgeStatus, RobotState, Stamp, assign, distinct_from, epistemic_value, in_conflict, is_known,
  known, observation_time, or_timestamp, raw_value, too_old,
}
use embodied_skill_ros.Prelude.Dict

-- No contradiction is recorded: no values under the name, or values that all have the same repr.
abbrev pub Unanimous : Option (List Value) → Type 0
Unanimous none = Unit
Unanimous (some []) = Unit
Unanimous (some (v ∷ vs)) = All (λ w. same_repr v w ≡ true) vs

-- The time of a field: its own, or that of the whole state where it has none.
abbrev pub HasTime : RobotState → String → ℕ → Type 0
HasTime s name t =
    (Dict.get name s.observed_at ≡ some (some t))
    ⊎ ((Dict.get name s.observed_at ≡ none) × (s.timestamp ≡ some t))

-- Where an age limit is set, the field has a time that can be read, at most that long ago.
abbrev pub InAge : RobotState → String → Option ℕ → ℕ → Type 0
InAge s name none now = Unit
InAge s name (some max_age) now = (t : ℕ) × HasTime s name t × (now ≤ t + max_age)

-- What stands behind the status KNOWN.
pub record IsEvidence (s : RobotState) (name : String) (max_age : Option ℕ) (now : ℕ) : Type 0 where
  pub present : raw_value s name ≢ null
  pub agreed : Unanimous (Dict.get name s.conflicts)
  pub unmarked : contains name s.stale_fields ≡ false
  pub fresh : InAge s name max_age now

pub is_known-eq : (k : KnowledgeStatus) → is_known k ≡ true → k ≡ known
unfolding is_known
is_known-eq k h = ground arith

pub null-is_null : (v : Value) → is_null v ≡ false → v ≢ null
unfolding is_null
null-is_null null h = cc
null-is_null (bool b) h = λ e. cc
null-is_null (int n) h = λ e. cc
null-is_null (float x) h = λ e. cc
null-is_null (text s) h = λ e. cc
null-is_null (floats xs) h = λ e. cc
null-is_null (texts d) h = λ e. cc

pub is_null-false : (v : Value) → v ≢ null → is_null v ≡ false
unfolding is_null
is_null-false null h = absurd (h refl)
is_null-false (bool b) h = refl
is_null-false _ h = refl

any-not :
    {A : Type 0} (p : A → Bool) (xs : List A)
    → any (λ x. not (p x)) xs ≡ false
    → All (λ x. p x ≡ true) xs
any-not p [] h = tt
any-not p (x ∷ xs) h = (ground arith, any-not p xs (ground arith))

not-any :
    {A : Type 0} (p : A → Bool) (xs : List A)
    → All (λ x. p x ≡ true) xs
    → any (λ x. not (p x)) xs ≡ false
not-any p [] h = refl
not-any p (x ∷ xs) (h, k) = let later = not-any p xs k in ground arith

in_conflict-Unanimous :
    (s : RobotState) (name : String)
    → (in_conflict s name ≡ false) ↔ Unanimous (Dict.get name s.conflicts)
unfolding in_conflict
in_conflict-Unanimous s name = by_values (Dict.get name s.conflicts)
  where
    by_values :
        (o : Option (List Value))
        → ((elim o as (λ x. Bool) [ some (v ∷ vs) ↦ distinct_from v vs | _ ↦ false ]) ≡ false)
          ↔ Unanimous o
    by_values none = ((λ h. tt), (λ h. refl))
    by_values (some []) = ((λ h. tt), (λ h. refl))
    by_values (some (v ∷ vs)) = (any-not (same_repr v) vs, not-any (same_repr v) vs)

time-HasTime :
    (s : RobotState) (name : String) (t : ℕ) → (observation_time s name ≡ some t) ↔ HasTime s name t
unfolding observation_time
time-HasTime s name t = by_own (Dict.get name s.observed_at)
  where
    by_own :
        (o : Option Stamp)
        → (or_timestamp o s.timestamp ≡ some t)
          ↔ ((o ≡ some (some t)) ⊎ ((o ≡ none) × (s.timestamp ≡ some t)))
    by_own none = (
      (λ h. inr (refl, h)),
      (λ k. elim k [ inl e ↦ absurd (none-ne-some (some t) e) | inr (e, h) ↦ h ]),
    )
    by_own (some o) = (
      (λ h. inl (ap some h)),
      (λ k. elim k [ inl e ↦ some_injective e | inr (e, h) ↦ absurd (none-ne-some o (sym e)) ]),
    )

too_old-InAge :
    (s : RobotState) (name : String) (max_age : Option ℕ) (now : ℕ)
    → (too_old (observation_time s name) max_age now ≡ false) ↔ InAge s name max_age now
unfolding too_old
too_old-InAge s name none now = ((λ h. tt), (λ h. refl))
too_old-InAge s name (some max_age) now = (
  (λ h.
      let (t, e, k) = (by_stamp (observation_time s name)).0 h in
      (t, (time-HasTime s name t).0 e, k)),
  (λ (t, e, k). (by_stamp (observation_time s name)).1 (t, (time-HasTime s name t).1 e, k)),
)
  where
    by_stamp :
        (o : Stamp)
        → (too_old o (some max_age) now ≡ false) ↔ ((t : ℕ) × (o ≡ some t) × (now ≤ t + max_age))
    by_stamp none = ((λ h. cc), (λ (t, e, k). absurd (none-ne-some t e)))
    by_stamp (some t) = (
      (λ h. (t, refl, ground arith)),
      (λ (t', e, k). let same : t ≡ t' = some_injective e in ground arith),
    )

status-IsEvidence :
    (s : RobotState) (name : String) (max_age : Option ℕ) (now : ℕ)
    → (epistemic_value s name max_age now).status ≡ known
    → IsEvidence s name max_age now
unfolding epistemic_value
status-IsEvidence s name max_age now h = record {
  present = null-is_null (raw_value s name) (ground arith);
  agreed = (in_conflict-Unanimous s name).0 (ground arith);
  unmarked = ground arith;
  fresh = (too_old-InAge s name max_age now).0 (ground arith);
}

known_of_evidence :
    (s : RobotState) (name : String) (max_age : Option ℕ) (now : ℕ)
    → IsEvidence s name max_age now
    → (epistemic_value s name max_age now).status ≡ known
unfolding epistemic_value
known_of_evidence s name max_age now e = rw (
  (in_conflict-Unanimous s name).1 e.agreed,
  is_null-false (raw_value s name) e.present,
  e.unmarked,
  (too_old-InAge s name max_age now).1 e.fresh,
)

assign_self : (s : RobotState) (k : String) (v : Value) → raw_value (assign s k v) k ≡ v
unfolding raw_value assign
assign_self s k v =
    ground (arith, Dict.get-put_self k v s.attributes, Dict.get-put_self k v s.facts)

assign_other :
    (s : RobotState) (k j : String) (v : Value)
    → (k == j) ≡ false
    → raw_value (assign s k v) j ≡ raw_value s j
unfolding raw_value assign
assign_other s k j v e = ground (arith, Dict.get-put k j v s.attributes, Dict.get-put k j v s.facts)

-- A value is KNOWN exactly when it is present and not marked stale, no values with different reprs are
-- recorded as its conflicts, and, where an age limit is set, the time of the field, or that of the
-- state where the field has none, can be read and is at most that long ago.
pub epistemic_value-known :
    (s : RobotState) (name : String) (max_age : Option ℕ) (now : ℕ)
    → ((epistemic_value s name max_age now).status ≡ known) ↔ IsEvidence s name max_age now
epistemic_value-known s name max_age now =
    (λ h. status-IsEvidence s name max_age now h, λ e. known_of_evidence s name max_age now e)

-- Assigning a name changes what is read under that name, and under no other.
pub raw_value-assign :
    (s : RobotState) (k j : String) (v : Value)
    → raw_value (assign s k v) j ≡ (if k == j then v else raw_value s j)
unfolding raw_value assign
raw_value-assign s k j v = elim (Bool-cases (k == j)) [
  | inl e ↦
      let e' : k ≡ j = (eq_iff k j).0 e in
      subst (λ n. raw_value (assign s k v) n ≡ (if k == n then v else raw_value s n)) e'
        (rw eq_refl (assign_self s k v))
  | inr e ↦ rw e (assign_other s k j v e)
]
