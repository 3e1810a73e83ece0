-- ===== src/Kargo/Observe/Fresh.antt =====
-- The invariant of the local variables of `observe`: what is noted has a time, and a time that is
-- not marked stale is recent. Each of the seven readings keeps it.
use embodied_skill_ros.Prelude.{
  Bool, List, Option, String, [], ap, arith, eq_iff, false, if◌then◌else◌, none, refl, some, subst,
  sym, true, ℕ, ◌++◌, ◌==◌, ◌||◌, ◌∙◌, ◌∷◌, ◌≡◌,
}
use embodied_skill_ros.Prelude.Dict.{Dict, get, get-put, has, keys, put, update}
use embodied_skill_ros.Prelude.Texts.{contains, contains-add, contains-append}
use embodied_skill_ros.Value.{Value}
use embodied_skill_ros.State.{Stamp}
use embodied_skill_ros.Kargo.{KargoConfig}
use embodied_skill_ros.Kargo.Transport.{AgvObservation, ArmObservation, AxisObservation}
use embodied_skill_ros.Kargo.Readings.{
  Reading, agv_reading, arm_reading, head_reading, lift_reading, pitch_reading, stop_reading,
  waist_reading, yaw_reading,
}
use embodied_skill_ros.Kargo.Observe.{
  Noted, aged, note, note_agv, note_arm, note_error, note_head, note_lift, note_pitch, note_stop,
  note_waist, note_yaw, nothing_noted, record_names, record_one,
}

module _ (c : KargoConfig) (now : ℕ) where
  -- A time that is noted for a name not marked stale is recent.
  abbrev pub Recent : Noted → Type 0
  Recent n =
      (name : String) (stamp : Stamp)
      → get name n.stamps ≡ some stamp
      → contains name n.stale ≡ false
      → aged c.observation_max_age stamp now ≡ false

  -- Every value and fact has a time besides.
  pub record NotedFresh (n : Noted) : Type 0 where
    pub values_stamped : (name : String) → has name n.values ≡ true → has name n.stamps ≡ true
    pub facts_stamped : (name : String) → has name n.facts ≡ true → has name n.stamps ≡ true
    pub recent : Recent n

  record_one-Recent :
      (stamp : Stamp) (source name : String) (n : Noted)
      → Recent n
      → Recent (record_one c now stamp source name n)
  unfolding record_one
  record_one-Recent stamp source name n h k s e u =
      let e' : (if name == k then some stamp else get k n.stamps) ≡ some s =
        sym (get-put name k stamp n.stamps) ∙ e in
      let old = h k s in ground (arith, eq_iff name k, contains-add k name n.stale)

  record_names-Recent :
      (names : List String) (stamp : Stamp) (source : String) (n : Noted)
      → Recent n
      → Recent (record_names c now names stamp source n)
  unfolding record_names
  record_names-Recent [] stamp source n h = h
  record_names-Recent (name ∷ names) stamp source n h =
      record_names-Recent names stamp source _ (record_one-Recent stamp source name n h)

  record_names-has :
      (names : List String) (stamp : Stamp) (source k : String) (n : Noted)
      → has k (record_names c now names stamp source n).stamps
        ≡ (contains k names || has k n.stamps)
  unfolding record_names contains record_one
  record_names-has [] stamp source k n = refl
  record_names-has (name ∷ names) stamp source k n =
      record_names-has names stamp source k (record_one c now stamp source name n)
      ∙ ground (arith, get-put name k stamp n.stamps)

  record_names-kept :
      (names : List String) (stamp : Stamp) (source : String) (n : Noted)
      → ((record_names c now names stamp source n).values ≡ n.values)
        × ((record_names c now names stamp source n).facts ≡ n.facts)
  unfolding record_names record_one
  record_names-kept [] stamp source n = (refl, refl)
  record_names-kept (name ∷ names) stamp source n =
      record_names-kept names stamp source (record_one c now stamp source name n)

  has-update :
      (k : String) (d e : Dict Value) → has k (update d e) ≡ (has k d || contains k (keys e))
  unfolding update contains
  has-update k d [] = ground arith
  has-update k d ((j, v) ∷ e) = has-update k (put j v d) e ∙ ground (arith, get-put j k v d)

  -- A name is stamped if it is one of the new names or was stamped before.
  stamped :
      (k : String) (old new : Dict Value) (names : List String) (stamp : Stamp) (source : String)
      (n n' : Noted)
      → n.stamps ≡ n'.stamps
      → (contains k (keys new) ≡ true → contains k names ≡ true)
      → (has k old ≡ true → has k n.stamps ≡ true)
      → has k (update old new) ≡ true
      → has k (record_names c now names stamp source n').stamps ≡ true
  stamped k old new names stamp source n n' e new-in old-in p =
      record_names-has names stamp source k n' ∙ ground (arith, has-update k old new)

  in_left :
      (k : String) (xs ys names : List String)
      → names ≡ xs ++ ys
      → contains k xs ≡ true
      → contains k names ≡ true
  in_left k xs ys names e h = ap (contains k) e ∙ contains-append k xs ys ∙ ground arith

  in_right :
      (k : String) (xs ys names : List String)
      → names ≡ xs ++ ys
      → contains k ys ≡ true
      → contains k names ≡ true
  in_right k xs ys names e h = ap (contains k) e ∙ contains-append k xs ys ∙ ground arith

  note-NotedFresh :
      (r : Reading) (n : Noted)
      → r.names ≡ keys r.values ++ keys r.facts
      → NotedFresh n
      → NotedFresh (note c now r n)
  unfolding note
  note-NotedFresh r n e h =
      let n' : Noted = record n {
        values = update n.values r.values;
        facts = update n.facts r.facts;
      } in
      let kept = record_names-kept r.names r.stamp.reads r.source n' in
      record {
        values_stamped = λ k p.
            stamped k n.values r.values r.names r.stamp.reads r.source n n' refl
              (in_left k (keys r.values) (keys r.facts) r.names e) (h.values_stamped k)
              (subst (λ d. has k d ≡ true) (kept.0) p);
        facts_stamped = λ k p.
            stamped k n.facts r.facts r.names r.stamp.reads r.source n n' refl
              (in_right k (keys r.values) (keys r.facts) r.names e) (h.facts_stamped k)
              (subst (λ d. has k d ≡ true) (kept.1) p);
        recent = record_names-Recent r.names r.stamp.reads r.source n' h.recent;
      }

  pub note_error-NotedFresh :
      (label : String) (message : Option String) (n : Noted)
      → NotedFresh n
      → NotedFresh (note_error label message n)
  unfolding note_error
  note_error-NotedFresh label none n h = h
  note_error-NotedFresh label (some m) n h = record {
    values_stamped = h.values_stamped;
    facts_stamped = h.facts_stamped;
    recent = h.recent;
  }

  pub note_lift-NotedFresh :
      (o : Option AxisObservation) (n : Noted) → NotedFresh n → NotedFresh (note_lift c now o n)
  unfolding note_lift lift_reading
  note_lift-NotedFresh none n h = h
  note_lift-NotedFresh (some o) n h = note-NotedFresh (lift_reading o) n refl h

  pub note_waist-NotedFresh :
      (o : Option AxisObservation) (n : Noted) → NotedFresh n → NotedFresh (note_waist c now o n)
  unfolding note_waist waist_reading
  note_waist-NotedFresh none n h = h
  note_waist-NotedFresh (some o) n h = note-NotedFresh (waist_reading o) n refl h

  pub note_yaw-NotedFresh :
      (o : Option AxisObservation) (n : Noted) → NotedFresh n → NotedFresh (note_yaw c now o n)
  unfolding note_yaw yaw_reading
  note_yaw-NotedFresh none n h = h
  note_yaw-NotedFresh (some o) n h = note-NotedFresh (yaw_reading o) n refl h

  pub note_pitch-NotedFresh :
      (o : Option AxisObservation) (n : Noted) → NotedFresh n → NotedFresh (note_pitch c now o n)
  unfolding note_pitch pitch_reading
  note_pitch-NotedFresh none n h = h
  note_pitch-NotedFresh (some o) n h = note-NotedFresh (pitch_reading o) n refl h

  pub note_head-NotedFresh :
      (yaw pitch : Option AxisObservation) (n : Noted)
      → NotedFresh n
      → NotedFresh (note_head c now yaw pitch n)
  unfolding note_head head_reading
  note_head-NotedFresh none pitch n h = h
  note_head-NotedFresh (some yaw) none n h = h
  note_head-NotedFresh (some yaw) (some pitch) n h =
      note-NotedFresh (head_reading yaw pitch) n refl h

  pub note_arm-NotedFresh :
      (arm : String) (o : Option ArmObservation) (n : Noted)
      → NotedFresh n
      → NotedFresh (note_arm c now arm o n)
  unfolding note_arm arm_reading
  note_arm-NotedFresh arm none n h = h
  note_arm-NotedFresh arm (some o) n h = note-NotedFresh (arm_reading c arm o) n refl h

  either-NotedFresh :
      (b : Bool) (m n : Noted) → NotedFresh m → NotedFresh n → NotedFresh (if b then m else n)
  either-NotedFresh true m n h k = h
  either-NotedFresh false m n h k = k

  note_stop-NotedFresh :
      (o : AgvObservation) (n : Noted) → NotedFresh n → NotedFresh (note_stop c now o n)
  unfolding note_stop stop_reading
  note_stop-NotedFresh o n h =
      either-NotedFresh c.whole_robot_estop_observable (note c now (stop_reading o) n) n
        (note-NotedFresh (stop_reading o) n refl h) h

  pub note_agv-NotedFresh :
      (o : Option AgvObservation) (n : Noted) → NotedFresh n → NotedFresh (note_agv c now o n)
  unfolding note_agv agv_reading
  note_agv-NotedFresh none n h = h
  note_agv-NotedFresh (some o) n h =
      note_stop-NotedFresh o _ (note-NotedFresh (agv_reading o) n refl h)

  pub nothing_noted-NotedFresh : NotedFresh nothing_noted
  unfolding get
  nothing_noted-NotedFresh = record {
    values_stamped = λ k p. cc;
    facts_stamped = λ k p. cc;
    recent = λ k s e u. cc;
  }
