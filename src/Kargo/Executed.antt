-- ===== src/Kargo/Executed.antt =====
-- What a successful run of the executor over the Kargo backend rests on
-- (embodied_skill_ros/execution/skill_executor.py with integrations/jaka_kargo/skill_adapter.py).
use embodied_skill_ros.Prelude.{
  All, Bool-cases, List, Option, String, [], arith, false, inl, inr, none, not, some, subst, sym,
  true, ℕ, ◌&&◌, ◌==◌, ◌∙◌, ◌∷◌, ◌≡◌,
}
use embodied_skill_ros.Prelude.Dict.{Dict, get}
use embodied_skill_ros.Prelude.Texts.{contains}
use embodied_skill_ros.Value.{Value, is_null}
use embodied_skill_ros.State.{RobotState, Stamp, assign, is_value_field, raw_value}
use embodied_skill_ros.State.Evidence.{
  HasTime, InAge, IsEvidence, Unanimous, epistemic_value-known, raw_value-assign,
}
use embodied_skill_ros.Plan.{TaskPlan, goals}
use embodied_skill_ros.Execution.Backend.{Robot, Session, remembered}
use embodied_skill_ros.Execution.Goals.Met.{GoalMet, goal_mismatches-met}
use embodied_skill_ros.Execution.Machine.{Config, ExecutionReport, Options}
use embodied_skill_ros.Execution.Run.{execute, returned}
use embodied_skill_ros.Execution.Run.Safety.{execute-goals_met}
use embodied_skill_ros.Kargo.{KargoConfig}
use embodied_skill_ros.Kargo.Transport.{Transport}
use embodied_skill_ros.Kargo.Observe.{Readings, kargo_observe}
use embodied_skill_ros.Kargo.Observe.Recent.{IsRecent, kargo_observe-IsRecent}
use embodied_skill_ros.Kargo.Observe.Sourced.{answers}
use embodied_skill_ros.Kargo.Command.{kargo_robot}

-- The names whose values are not stamped by a source.
abbrev pub unstamped : List String
unstamped =
    "jaka_kargo_observation_errors" ∷ "jaka_kargo_observation_sources" ∷ "last_skill_result" ∷ []

-- A goal is met in a state, and its field was read recently in an observation.
pub record MetRecently (r : Readings) (state seen : RobotState) (c : KargoConfig) (now : ℕ)
    (goal : String × Value) : Type 0 where
  pub met : GoalMet state goal.0 goal.1
  pub recent : IsRecent r seen goal.0 c.observation_max_age now

not_last : (name : String) → contains name unstamped ≡ false → ("last_skill_result" == name) ≡ false
unfolding contains
not_last name h = ground arith

not_diagnostic :
    (name : String)
    → contains name unstamped ≡ false
    → contains name ("jaka_kargo_observation_errors" ∷ "jaka_kargo_observation_sources" ∷ [])
      ≡ false
unfolding contains
not_diagnostic name h = ground arith

assigned_conflicts :
    (s : RobotState) (k : String) (v : Value) → (assign s k v).conflicts ≡ s.conflicts
unfolding assign
assigned_conflicts s k v = elim (Bool-cases (is_value_field k)) [ inl e ↦ rw e | inr e ↦ rw e ]

assigned_times :
    (s : RobotState) (k : String) (v : Value)
    → ((assign s k v).observed_at ≡ s.observed_at) × ((assign s k v).timestamp ≡ s.timestamp)
unfolding assign
assigned_times s k v = elim (Bool-cases (is_value_field k)) [
  | inl e ↦ (rw e, rw e)
  | inr e ↦ (rw e, rw e)
]

assigned-HasTime :
    (s : RobotState) (k : String) (v : Value) (name : String) (t : ℕ)
    → HasTime (assign s k v) name t
    → HasTime s name t
assigned-HasTime s k v name t (inl e) =
    inl (subst (λ (d : Dict Stamp). get name d ≡ some (some t)) ((assigned_times s k v).0) e)
assigned-HasTime s k v name t (inr (e, h)) = inr (
  subst (λ (d : Dict Stamp). get name d ≡ none) ((assigned_times s k v).0) e,
  sym ((assigned_times s k v).1) ∙ h,
)

assigned-InAge :
    (s : RobotState) (k : String) (v : Value) (name : String) (max_age : Option ℕ) (now : ℕ)
    → InAge (assign s k v) name max_age now
    → InAge s name max_age now
assigned-InAge s k v name none now h = tt
assigned-InAge s k v name (some m) now (t, h, l) = (t, assigned-HasTime s k v name t h, l)

assigned_stale :
    (s : RobotState) (k : String) (v : Value) → (assign s k v).stale_fields ≡ s.stale_fields
unfolding assign
assigned_stale s k v = elim (Bool-cases (is_value_field k)) [ inl e ↦ rw e | inr e ↦ rw e ]

assigned_value :
    (s : RobotState) (k : String) (v : Value) (name : String)
    → (k == name) ≡ false
    → raw_value (assign s k v) name ≡ raw_value s name
assigned_value s k v name h = raw_value-assign s k name v ∙ rw h

assigned-IsEvidence :
    (s : RobotState) (k : String) (v : Value) (name : String) (max_age : Option ℕ) (now : ℕ)
    → (k == name) ≡ false
    → IsEvidence (assign s k v) name max_age now
    → IsEvidence s name max_age now
assigned-IsEvidence s k v name max_age now h e = record {
  present = λ p. e.present (assigned_value s k v name h ∙ p);
  agreed =
      subst (λ (d : Dict (List Value)). Unanimous (get name d)) (assigned_conflicts s k v) e.agreed;
  unmarked = subst (λ d. contains name d ≡ false) (assigned_stale s k v) e.unmarked;
  fresh = assigned-InAge s k v name max_age now e.fresh;
}

module _ (robot : Robot) where
  remembered-IsEvidence :
      (last : Value) (s : RobotState) (name : String) (max_age : Option ℕ) (now : ℕ)
      → contains name unstamped ≡ false
      → IsEvidence (remembered robot last s) name max_age now
      → IsEvidence s name max_age now
  unfolding remembered
  remembered-IsEvidence last s name max_age now h e =
      elim (Bool-cases (is_null (raw_value s "last_skill_result") && not (is_null last))) [
        | inl c ↦
            assigned-IsEvidence s "last_skill_result" last name max_age now (not_last name h)
              (rw c at e)
        | inr c ↦ rw c at e
      ]

module _ {W : Type 0} (t : Transport W) (c : KargoConfig) where
  recent_goals :
      (d : Dict Value) (last : Value) (w : W)
      → All (λ p. contains p.0 unstamped ≡ false) d
      → All (λ p. GoalMet (remembered (kargo_robot t c) last ((kargo_observe t c w).0)) p.0 p.1) d
      → All
          (λ p.
            MetRecently
              (answers t c w)
              (remembered (kargo_robot t c) last ((kargo_observe t c w).0))
              ((kargo_observe t c w).0)
              c
              (t.clock w)
              p)
          d
  recent_goals [] last w h m = tt
  recent_goals ((name, v) ∷ d) last w (h, hs) (m, ms) =
      let seen = (kargo_observe t c w).0 in
      let e = remembered-IsEvidence (kargo_robot t c) last seen name none 0 h m.evidence in
      (
        record {
          met = m;
          recent =
              kargo_observe-IsRecent t c w name none 0 (not_diagnostic name h)
                ((epistemic_value-known seen name none 0).1 e);
        },
        recent_goals d last w hs ms,
      )

  -- When a run of the executor over the Kargo backend reports success, with the outcomes verified,
  -- and the goals of the reported plan are a dictionary without the diagnostics and the last result,
  -- the last thing done to the robot was to observe it, and each goal is met in the final state by a
  -- field whose time is that of the transport's answer that measured it in this observation, and was
  -- not older than the configured age when the observation began.
  pub execute-MetRecently :
      (config : Config) (options : Options) (fuel : ℕ) (plan : TaskPlan)
      (m : Session (kargo_robot t c)) (report : ExecutionReport) (m' : Session (kargo_robot t c))
      (d : Dict Value)
      → execute (kargo_robot t c) config options fuel plan m ≡ returned report m'
      → report.success ≡ true
      → options.verify_outcomes ≡ true
      → report.plan.metadata.goal_state ≡ goals d
      → All (λ p. contains p.0 unstamped ≡ false) d
      → (w : W) × (m'.world ≡ (kargo_observe t c w).1)
        × All (MetRecently (answers t c w) m'.state ((kargo_observe t c w).0) c (t.clock w)) d
  execute-MetRecently config options fuel plan m report m' d h success on g names =
      let (none_missed, shown_last) =
        execute-goals_met (kargo_robot t c) config options fuel plan m report m' h success on in
      let (w, state, world) = shown_last in
      let met = goal_mismatches-met report.plan m'.state d g none_missed in
      (
        w,
        world,
        subst (λ s. All (MetRecently (answers t c w) s ((kargo_observe t c w).0) c (t.clock w)) d)
            (sym state)
            (recent_goals d m'.last_skill_result w names
              (subst (λ s. All (λ p. GoalMet s p.0 p.1) d) state met)),
      )
