-- ===== src/Recovery.antt =====
-- embodied_skill_ros/execution/recovery_manager.py
use embodied_skill_ros.Prelude.{
  Bool, Bool-cases, List, [], and-left, and-right, arith, false, if◌then◌else◌, inl, inr, leb, refl,
  sym, true, ℕ, ◌&&◌, ◌||◌, ◌∙◌, ◌∷◌, ◌≡◌, ◌≤◌, ◌⊎◌,
}
use embodied_skill_ros.Skill.Contract.{
  Policy, allows, local_retry, observe, repair, replan, retry, safe_stop,
}

pub data RecoveryAction : Type 0 where
  do_retry do_replan do_stop : RecoveryAction

pub data Reason : Type 0 where
  bounded_retry bounded_retry_after_timeout retry_budget_exhausted policy_exhausted : Reason

pub record RecoveryDecision : Type 0 where
  pub action : RecoveryAction
  pub reason : Reason

-- `"local_retry" if item == "retry" else item`. That repeated words are dropped then does not
-- change which words are in the policy.
pub normalized : List Policy → List Policy
normalized [] = []
normalized (retry ∷ policy) = local_retry ∷ normalized policy
normalized (word ∷ policy) = word ∷ normalized policy

-- `decide`
unfoldable pub decide_recovery : ℕ → ℕ → Bool → Bool → List Policy → RecoveryDecision
unfolding normalized
decide_recovery max_retries attempt timed_out replanner_available policy =
    if allows (normalized policy) local_retry && leb attempt max_retries
    then record {
      action = do_retry;
      reason = if timed_out then bounded_retry_after_timeout else bounded_retry;
    }
    else if allows (normalized policy) replan && replanner_available
    then record { action = do_replan; reason = retry_budget_exhausted }
    else record { action = do_stop; reason = policy_exhausted }

-- A retry is decided only within the budget, and a replan only when a replanner may be used.
pub decide_recovery-bounded :
    (max_retries attempt : ℕ) (timed_out available : Bool) (policy : List Policy)
    → ((decide_recovery max_retries attempt timed_out available policy).action ≡ do_retry
        → attempt ≤ max_retries)
      × ((decide_recovery max_retries attempt timed_out available policy).action ≡ do_replan
          → available ≡ true)
unfolding decide_recovery
decide_recovery-bounded max_retries attempt timed_out available policy =
    ((λ h. ground arith), (λ h. ground arith))

normalized-local_retry :
    (policy : List Policy)
    → allows (normalized policy) local_retry ≡ (allows policy retry || allows policy local_retry)
unfolding normalized allows
normalized-local_retry [] = refl
normalized-local_retry (observe ∷ policy) = ground (arith, normalized-local_retry policy)
normalized-local_retry (repair ∷ policy) = ground (arith, normalized-local_retry policy)
normalized-local_retry (local_retry ∷ policy) = ground (arith, normalized-local_retry policy)
normalized-local_retry (retry ∷ policy) = ground (arith, normalized-local_retry policy)
normalized-local_retry (replan ∷ policy) = ground (arith, normalized-local_retry policy)
normalized-local_retry (safe_stop ∷ policy) = ground (arith, normalized-local_retry policy)

normalized-replan :
    (policy : List Policy) → allows (normalized policy) replan ≡ allows policy replan
unfolding normalized allows
normalized-replan [] = refl
normalized-replan (observe ∷ policy) = ground (arith, normalized-replan policy)
normalized-replan (repair ∷ policy) = ground (arith, normalized-replan policy)
normalized-replan (local_retry ∷ policy) = ground (arith, normalized-replan policy)
normalized-replan (retry ∷ policy) = ground (arith, normalized-replan policy)
normalized-replan (replan ∷ policy) = ground (arith, normalized-replan policy)
normalized-replan (safe_stop ∷ policy) = ground (arith, normalized-replan policy)

either-true : (a b : Bool) → (a || b) ≡ true → (a ≡ true) ⊎ (b ≡ true)
either-true true b h = inl refl
either-true false b h = inr h

one-false : (a b : Bool) → (a && b) ≡ false → (a ≡ false) ⊎ (b ≡ false)
one-false false b h = inl refl
one-false true b h = inr h

-- A retry is left: the policy names it, under its old or its new word, and the budget is not spent.
abbrev pub RetryLeft : ℕ → ℕ → List Policy → Type 0
RetryLeft max_retries attempt policy =
    ((allows policy retry ≡ true) ⊎ (allows policy local_retry ≡ true)) × (attempt ≤ max_retries)

none_left :
    (max_retries attempt : ℕ) (policy : List Policy)
    → ((allows policy retry || allows policy local_retry) && leb attempt max_retries) ≡ false
    → ¬ RetryLeft max_retries attempt policy
none_left max_retries attempt policy h (inl e, k) = ground arith
none_left max_retries attempt policy h (inr e, k) = ground arith

-- A recovery decision is a retry exactly when the policy names a retry, as "retry" or as
-- "local_retry", and the attempt is within the budget; otherwise it is a replan exactly when the
-- policy names that and a replanner may be used, and a stop when neither is so.
pub decide_recovery-cases :
    (max_retries attempt : ℕ) (timed_out available : Bool) (policy : List Policy)
    → ((decide_recovery max_retries attempt timed_out available policy).action ≡ do_retry)
        × RetryLeft max_retries attempt policy
      ⊎ ((decide_recovery max_retries attempt timed_out available policy).action ≡ do_replan)
        × (¬ RetryLeft max_retries attempt policy)
        × (allows policy replan ≡ true)
        × (available ≡ true)
      ⊎ ((decide_recovery max_retries attempt timed_out available policy).action ≡ do_stop)
        × (¬ RetryLeft max_retries attempt policy)
        × ((allows policy replan ≡ false) ⊎ (available ≡ false))
unfolding decide_recovery
decide_recovery-cases max_retries attempt timed_out available policy =
    let words = normalized-local_retry policy in
    let replans = normalized-replan policy in
    elim (Bool-cases (allows (normalized policy) local_retry && leb attempt max_retries)) [
      | inl may ↦ inl (ground arith, (either-true _ _ (sym words ∙ and-left _ _ may), ground arith))
      | inr spent ↦ elim (Bool-cases (allows (normalized policy) replan && available)) [
        | inl e ↦ inr (
            inl (
              ground arith,
              none_left max_retries attempt policy (rw words at spent),
              sym replans ∙ and-left _ _ e,
              and-right _ _ e,
            ))
        | inr e ↦ inr (
            inr (
              ground arith,
              none_left max_retries attempt policy (rw words at spent),
              one-false _ _ (rw replans at e),
            ))
      ]
    ]
