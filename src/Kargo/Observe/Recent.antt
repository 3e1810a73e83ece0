-- ===== src/Kargo/Observe/Recent.antt =====
-- What stands behind a KNOWN field of an observation.
use embodied_skill_ros.Prelude.{
  Bool-cases, Option, Option-cases, String, [], ap, arith, false, false-ne-true, inl, inr, is_some,
  none, some, subst, sym, true, ℕ, ◌∙◌, ◌∷◌, ◌≡◌, ◌≢◌,
}
use embodied_skill_ros.Prelude.Dict.{Dict, get, get-put, has, put}
use embodied_skill_ros.Prelude.Int.{pos, ◌-ℤ◌}
use embodied_skill_ros.Prelude.Texts.{contains}
use embodied_skill_ros.Value.Numbers.{Float, finite, lt_float}
use embodied_skill_ros.Value.{Value, null, texts}
use embodied_skill_ros.State.{
  RobotState, epistemic_value, is_value_field, known, or_null, raw_value,
}
use embodied_skill_ros.State.Evidence.{epistemic_value-known}
use embodied_skill_ros.Kargo.{KargoConfig}
use embodied_skill_ros.Kargo.Transport.{Transport}
use embodied_skill_ros.Kargo.Observe.{
  Noted, Readings, aged, error_of, given, kargo_observe, noted_of, observed_state, query_all,
  state_of_readings,
}
use embodied_skill_ros.Kargo.Observe.Fresh.{
  NotedFresh, note_agv-NotedFresh, note_arm-NotedFresh, note_error-NotedFresh, note_head-NotedFresh,
  note_lift-NotedFresh, note_pitch-NotedFresh, note_waist-NotedFresh, note_yaw-NotedFresh,
  nothing_noted-NotedFresh,
}
use embodied_skill_ros.Kargo.Observe.Sourced.{
  IsSourced, answers, noted_of-IsSourced, query_all-answers,
}

module _ (c : KargoConfig) (now : ℕ) where
  recent_stamp :
      (n : Noted) (name : String)
      → NotedFresh c now n
      → has name n.stamps ≡ true
      → contains name n.stale ≡ false
      → (t : ℕ) × (get name n.stamps ≡ some (some t))
        × (lt_float c.observation_max_age (finite (pos now -ℤ pos t)) ≡ false)
  unfolding aged
  recent_stamp n name h p u = elim (Option-cases (get name n.stamps)) [
    | inl e ↦ absurd (false-ne-true (ap is_some (sym e) ∙ p))
    | inr (none, e) ↦ absurd (false-ne-true (sym (h.recent name none e u)))
    | inr (some t, e) ↦ (t, e, h.recent name (some t) e u)
  ]

  or_null-has : (name : String) (d : Dict Value) → or_null (get name d) ≢ null → has name d ≡ true
  unfolding or_null
  or_null-has name d h = elim (Option-cases (get name d)) [
    | inl e ↦ absurd (h (ap or_null e))
    | inr (v, e) ↦ ap is_some e
  ]

  pub observed_state-facts :
      (n : Noted) (name : String)
      → contains name ("jaka_kargo_observation_errors" ∷ "jaka_kargo_observation_sources" ∷ [])
        ≡ false
      → get name (observed_state now n).facts ≡ get name n.facts
  unfolding observed_state contains
  observed_state-facts n name d =
      let facts = put "jaka_kargo_observation_errors" (texts n.errors) n.facts in
      ground (
        arith,
        get-put "jaka_kargo_observation_sources" name (texts n.sources) n.facts,
        get-put "jaka_kargo_observation_sources" name (texts n.sources) facts,
        get-put "jaka_kargo_observation_errors" name (texts n.errors) n.facts,
      )

  -- A name that holds a value in the returned state was noted, unless it is one of the diagnostics.
  observed_state-has :
      (n : Noted) (name : String)
      → NotedFresh c now n
      → contains name ("jaka_kargo_observation_errors" ∷ "jaka_kargo_observation_sources" ∷ [])
        ≡ false
      → raw_value (observed_state now n) name ≢ null
      → has name n.stamps ≡ true
  unfolding observed_state raw_value contains
  observed_state-has n name h d p = elim (Bool-cases (is_value_field name)) [
    | inl e ↦ h.values_stamped name (or_null-has name n.values (rw e at p))
    | inr e ↦
        h.facts_stamped name (
          or_null-has name n.facts (λ q. p (rw e (ap or_null (observed_state-facts n name d) ∙ q))))
  ]

  readings-NotedFresh : (r : Readings) → NotedFresh c now (noted_of c now r)
  unfolding noted_of
  readings-NotedFresh r =
      let n₁ = note_error-NotedFresh c now "head_pitch" (error_of r.pitch) _ (
        note_error-NotedFresh c now "head_yaw" (error_of r.yaw) _ (
          note_error-NotedFresh c now "waist" (error_of r.waist) _ (
            note_error-NotedFresh c now "lift" (error_of r.lift) _
              (nothing_noted-NotedFresh c now)))) in
      let n₂ =
        note_waist-NotedFresh c now (given r.waist) _
          (note_lift-NotedFresh c now (given r.lift) _ n₁) in
      let n₃ =
        note_pitch-NotedFresh c now (given r.pitch) _
          (note_yaw-NotedFresh c now (given r.yaw) _ n₂) in
      let n₄ = note_head-NotedFresh c now (given r.yaw) (given r.pitch) _ n₃ in
      let n₅ =
        note_arm-NotedFresh c now "left" (given r.left) _
          (note_error-NotedFresh c now "left_arm" (error_of r.left) _ n₄) in
      let n₆ =
        note_arm-NotedFresh c now "right" (given r.right) _
          (note_error-NotedFresh c now "right_arm" (error_of r.right) _ n₅) in
      note_agv-NotedFresh c now (given r.agv) _
        (note_error-NotedFresh c now "agv" (error_of r.agv) _ n₆)

-- The time of a field that was read: that of the answer that measured the field, which can be read,
-- and is not older than the configured age.
pub record IsRecent (r : Readings) (s : RobotState) (name : String) (max_age : Float) (now : ℕ)
    : Type 0 where
  pub time : ℕ
  pub stamped : get name s.observed_at ≡ some (some time)
  pub sourced : IsSourced r name (some time)
  pub in_age : lt_float max_age (finite (pos now -ℤ pos time)) ≡ false

module _ {W : Type 0} (t : Transport W) (c : KargoConfig) where
  -- A field that an observation of the robot makes KNOWN has the time with which the transport's answer
  -- that measured this field is stamped: each axis, arm and the base by its own query, the readiness of
  -- the head by one of its two axes. That time can be read and was, when the observation began, not
  -- older than the configured age. This leaves out the two facts that hold diagnostics.
  pub kargo_observe-IsRecent :
      (w : W) (name : String) (max_age : Option ℕ) (now : ℕ)
      → contains name ("jaka_kargo_observation_errors" ∷ "jaka_kargo_observation_sources" ∷ [])
        ≡ false
      → (epistemic_value ((kargo_observe t c w).0) name max_age now).status ≡ known
      → IsRecent (answers t c w) ((kargo_observe t c w).0) name c.observation_max_age (t.clock w)
  unfolding kargo_observe state_of_readings observed_state
  kargo_observe-IsRecent w name max_age now d k =
      let start = t.clock w in
      let readings = (query_all t c w).0 in
      let n = noted_of c start readings in
      let fresh = readings-NotedFresh c start readings in
      let evidence = (epistemic_value-known (observed_state start n) name max_age now).0 k in
      let (time, stamped, in_age) =
        recent_stamp c start n name fresh
          (observed_state-has c start n name fresh d evidence.present) evidence.unmarked in
      let sourced = noted_of-IsSourced c start readings name (some time) stamped in
      record {
        time = time;
        stamped = stamped;
        sourced = subst (λ r. IsSourced r name (some time)) (query_all-answers t c w) sourced;
        in_age = in_age;
      }
