-- ===== src/Errors.antt =====
-- The exceptions that the modelled code raises or catches: `ParameterError` of
-- embodied_skill_ros/skills/base_skill.py, and the KeyError, TypeError and ValueError of the
-- registry and of Python itself. A message is kept as the data that it is rendered from.
use embodied_skill_ros.Prelude.{Bool, List, String, false, inl, inr, refl, true, ◌≡◌, ◌⊎◌}
use embodied_skill_ros.Value.Numbers.{Float}
use embodied_skill_ros.Value.{Value}

pub data Error : Type 0 where
  -- ParameterError
  unknown_parameters : List String → Error
  missing_parameter wrong_type must_be_finite not_a_choice : String → Error
  below_minimum above_maximum : String → Float → Error
  -- KeyError
  unknown_skill missing_key : String → Error
  -- TypeError and ValueError
  cannot_compare not_a_number : Value → Error
  duplicate_skill : String → Error
  angle_required : Error
  negative_budget : String → Error
  unknown_class : String → Error
  bad_plan : String → Error
  bad_config : String → Error

-- What code that may raise returns.
pub data Result {ℓ} (X : Type ℓ) : Type ℓ where
  err : Error → Result X
  ok : X → Result X

pub ok_injective {ℓ} : {X : Type ℓ} {x y : X} → ok x ≡ ok y → x ≡ y
ok_injective e = cc

pub Result-cases {ℓ} :
    {X : Type ℓ} (r : Result X) → ((x : X) × (r ≡ ok x)) ⊎ ((e : Error) × (r ≡ err e))
Result-cases (err e) = inr (e, refl)
Result-cases (ok x) = inl (x, refl)

-- An exception skips what follows.
infixl 5 ◌>>=◌
abbrev pub ◌>>=◌ {ℓ κ} : {X : Type ℓ} {Y : Type κ} → Result X → (X → Result Y) → Result Y
err e >>= next = err e
ok x >>= next = next x

-- Inversion of a successful bind.
pub >>=-eq-ok {ℓ κ} :
    {X : Type ℓ} {Y : Type κ} (r : Result X) (next : X → Result Y) {y : Y}
    → (r >>= next) ≡ ok y
    → (x : X) × (r ≡ ok x) × (next x ≡ ok y)
>>=-eq-ok (err e) next h = cc
>>=-eq-ok (ok x) next h = (x, refl, h)

infixl 5 ◌>>◌
abbrev pub ◌>>◌ {ℓ} : {Y : Type ℓ} → Result (Unit {0}) → Result Y → Result Y
check >> rest = check >>= λ _. rest

pub >>-eq-ok {ℓ} :
    {Y : Type ℓ} (check : Result (Unit {0})) (rest : Result Y) {y : Y}
    → (check >> rest) ≡ ok y
    → (check ≡ ok tt) × (rest ≡ ok y)
>>-eq-ok (err e) rest h = cc
>>-eq-ok (ok tt) rest h = (refl, h)

-- `if not test: raise e`
abbrev pub require : Bool → Error → Result (Unit {0})
require false e = err e
require true e = ok tt

pub require-eq-ok : (test : Bool) (e : Error) → require test e ≡ ok tt → test ≡ true
require-eq-ok false e h = cc
require-eq-ok true e h = refl
