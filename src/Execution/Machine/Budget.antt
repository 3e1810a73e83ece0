-- ===== src/Execution/Machine/Budget.antt =====
-- The number of rounds that the executor's loops still need, where the runtime guard is off and
-- there is no replanner.
use embodied_skill_ros.Prelude.{
  Bool, arith, false, if◌then◌else◌, length, refl, suc, true, zero, ℕ, ◌+◌, ◌-◌, ◌<◌, ◌≡◌, ◌≤◌,
}
use embodied_skill_ros.Errors.{Result, err, ok}
use embodied_skill_ros.Execution.Backend.{Robot, Session}
use embodied_skill_ros.Execution.Machine.{
  Control, Locals, Machine, Message, Next, at_step, attempting, continue, finish, or_raise, raised,
  stop_with,
}

-- A round of the outer loop and `max_retries + 1` of the inner one for each step.
abbrev pub rounds_for : ℕ → ℕ → ℕ
rounds_for max_retries zero = 0
rounds_for max_retries (suc steps) = max_retries + 2 + rounds_for max_retries steps

pub rounds_for_mono :
    (max_retries m n : ℕ) → m ≤ n → rounds_for max_retries m ≤ rounds_for max_retries n
rounds_for_mono max_retries zero n h = omega arith
rounds_for_mono max_retries (suc m) zero h = absurd (omega arith)
rounds_for_mono max_retries (suc m) (suc n) h =
    omega (arith, rounds_for_mono max_retries m n (omega arith))

abbrev pub steps_left : Locals → ℕ
steps_left l = length l.plan.steps - l.index

-- Enough rounds for what is left: at the test of the outer loop, and in an attempt at a step.
abbrev pub EnoughAt : ℕ → ℕ → Control → Locals → Type 0
EnoughAt max_retries fuel at_step l = rounds_for max_retries (steps_left l) + 1 ≤ fuel
EnoughAt max_retries fuel (attempting step skill before attempt) l =
    (l.index < length l.plan.steps)
    × (attempt ≤ max_retries + 1)
    × (rounds_for max_retries (steps_left l - 1) + 1 + (max_retries + 2 - attempt) ≤ fuel)

abbrev pub Enough : {robot : Robot} → ℕ → ℕ → Machine robot → Type 0
Enough max_retries fuel s = EnoughAt max_retries fuel s.control s.locals

abbrev pub NextEnough : {robot : Robot} → ℕ → ℕ → Next robot → Type 0
NextEnough max_retries fuel (continue s) = Enough max_retries fuel s
NextEnough max_retries fuel (finish report m) = Unit
NextEnough max_retries fuel (raised e) = Unit

module _ (max_retries fuel : ℕ) where
  pub or_raise-NextEnough {ℓ} :
      {A : Type ℓ} {robot : Robot} (r : Result A) (f : A → Next robot)
      → ((a : A) → r ≡ ok a → NextEnough max_retries fuel (f a))
      → NextEnough max_retries fuel (or_raise r f)
  unfolding or_raise
  or_raise-NextEnough (ok a) f h = h a refl
  or_raise-NextEnough (err e) f h = tt

  pub if-NextEnough :
      {robot : Robot} (b : Bool) (x y : Next robot)
      → (b ≡ true → NextEnough max_retries fuel x)
      → (b ≡ false → NextEnough max_retries fuel y)
      → NextEnough max_retries fuel (if b then x else y)
  if-NextEnough true x y hx hy = hx refl
  if-NextEnough false x y hx hy = hy refl

  pub stop_with-NextEnough :
      {robot : Robot} (message : Message) (l : Locals) (m : Session robot)
      → NextEnough max_retries fuel (stop_with message l m)
  unfolding stop_with
  stop_with-NextEnough message l m = tt
