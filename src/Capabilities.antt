-- ===== src/Capabilities.antt =====
-- embodied_skill_ros/backends/base_backend.py: the machine-checkable boundary of a backend. A
-- parameter domain is about values that are compared as Python compares them.
use embodied_skill_ros.Prelude.{
  Bool, List, Option, String, [], any, false, first, if◌then◌else◌, none, not, some, true, ◌++◌,
  ◌==◌, ◌∷◌,
}
use embodied_skill_ros.Prelude.Dict.{get}
use embodied_skill_ros.Prelude.Texts.{contains, difference}
use embodied_skill_ros.Value.Numbers.{Float}
use embodied_skill_ros.Value.{Value, equals}
use embodied_skill_ros.Errors.{Result, ok, ◌>>=◌}
use embodied_skill_ros.Skill.Template.{Arguments}
use embodied_skill_ros.Skill.Parameters.{above, below}

pub record ParameterDomain : Type 0 where
  pub name : String
  pub choices : Option (List Value)
  pub minimum : Option Float
  pub maximum : Option Float

in_choices : Option (List Value) → Value → Bool
unfolding equals
in_choices none v = true
in_choices (some vs) v = any (λ w. equals v w) vs

inside_minimum : Option Float → Value → Result Bool
unfolding below
inside_minimum none v = ok true
inside_minimum (some lo) v = do out ← below v lo; ok (not out)

inside_maximum : Option Float → Value → Result Bool
unfolding above
inside_maximum none v = ok true
inside_maximum (some hi) v = do out ← above v hi; ok (not out)

-- `ParameterDomain.accepts`
unfoldable pub accepts : ParameterDomain → Value → Result Bool
unfolding in_choices inside_minimum inside_maximum
accepts d v =
    if not (in_choices d.choices v)
    then ok false
    else (do low ← inside_minimum d.minimum v; if low then inside_maximum d.maximum v else ok false)

pub record SkillSemantics : Type 0 where
  pub skill_name : String
  pub parameter_domains : List ParameterDomain
  pub unavoidable_effect_fields : List String

-- What a backend objects to.
pub data Objection : Type 0 where
  rejects : String → Value → Objection
  undeclared_effects : List String → Objection

domain_objections : List ParameterDomain → Arguments → Result (List Objection)
unfolding accepts
domain_objections [] arguments = ok []
domain_objections (d ∷ ds) arguments =
    let rest = domain_objections ds arguments in
    elim (get d.name arguments) [
      | none ↦ rest
      | some v ↦ do
        good ← accepts d v
        reasons ← rest
        ok (if good then reasons else rejects d.name v ∷ reasons)
    ]

extra_effects : List String → List Objection
extra_effects [] = []
extra_effects (x ∷ xs) = undeclared_effects (x ∷ xs) ∷ []

-- `SkillSemantics.validate`
unfoldable pub objections : SkillSemantics → Arguments → List String → Result (List Objection)
unfolding domain_objections extra_effects difference
objections s arguments allowed_effect_fields = do
  reasons ← domain_objections s.parameter_domains arguments
  ok (reasons ++ extra_effects (difference s.unavoidable_effect_fields allowed_effect_fields))

pub record BackendCapabilities : Type 0 where
  pub backend_name : String
  pub supported_skills : Option (List String)
  pub observable_fields : Option (List String)
  pub supports_safe_stop : Bool
  pub refreshable_fields : List String
  pub skill_semantics : List SkillSemantics

in_option : Option (List String) → String → Bool
in_option none name = true
in_option (some names) name = contains name names

unfoldable pub supports : BackendCapabilities → String → Bool
unfolding in_option
supports c skill_name = in_option c.supported_skills skill_name

unfoldable pub can_observe : BackendCapabilities → String → Bool
unfolding in_option
can_observe c field_name = in_option c.observable_fields field_name

unfoldable pub can_refresh : BackendCapabilities → String → Bool
can_refresh c field_name = contains field_name c.refreshable_fields

unfoldable pub semantics_for : BackendCapabilities → String → Option SkillSemantics
semantics_for c skill_name = first (λ item. item.skill_name == skill_name) c.skill_semantics
