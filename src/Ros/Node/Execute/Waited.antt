-- ===== src/Ros/Node/Execute/Waited.antt =====
-- The loop of `_execute` ends.
use embodied_skill_ros.Prelude.{
  Bool-cases, arith, false, inl, inr, ltb, subst, suc, true, zero, ℕ, ◌*◌, ◌+◌, ◌<◌, ◌≡◌, ◌≤◌, ◌⊎◌,
}
use embodied_skill_ros.Prelude.Int.{pos}
use embodied_skill_ros.Value.Numbers.{Float, finite, lt_float}
use embodied_skill_ros.Ros.Robot.{Behavior}
use embodied_skill_ros.Ros.Node.Execute.{
  WaitEnd, Watch, canceled_wait, out_of_fuel, stalled_out, stalls, wait, waited,
}

-- Each round sleeps for a hundredth of a second, and time does not go back.
pub record IsClock (w : Watch) : Type 0 where
  pub sleeps : (k : ℕ) → w.elapsed k + 10000 ≤ w.woken k
  pub later : (k : ℕ) → w.woken k ≤ w.elapsed (k + 1)

elapsed_least : (w : Watch) (k : ℕ) → IsClock w → 10000 * k ≤ w.elapsed k
elapsed_least w zero h = omega arith
elapsed_least w (suc k) h =
    let before = elapsed_least w k h in
    let slept = h.sleeps k in
    let next : w.woken k ≤ w.elapsed (suc k) =
      subst (λ j. w.woken k ≤ w.elapsed j) (omega arith) (h.later k) in
    omega arith

-- A round that does not end the loop: no cancellation is requested, and the limit of ten seconds, for
-- a goal that stalls, or the duration, for any other, is not reached.
abbrev pub GoesOn : Watch → Behavior → ℕ → ℕ → Type 0
GoesOn w b d k =
    (w.cancel k ≡ false)
    × (((stalls b ≡ true) × (w.woken k ≤ 10000000)) ⊎ ((stalls b ≡ false) × (w.elapsed k < d)))

-- Every round before this one goes on.
abbrev pub WentOn : Watch → Behavior → ℕ → ℕ → Type 0
WentOn w b d zero = Unit
WentOn w b d (suc k) = GoesOn w b d k × WentOn w b d k

-- How the loop may end in a round, behind rounds that all went on: by its duration, which has passed;
-- by a cancellation that was requested, before the duration has passed; or, for a goal that stalls, by
-- the limit of ten seconds.
abbrev pub HasEnded : Watch → Behavior → ℕ → ℕ × WaitEnd → Type 0
HasEnded w b d (k, waited) = WentOn w b d k × (stalls b ≡ false) × (d ≤ w.elapsed k)
HasEnded w b d (k, canceled_wait) =
    WentOn w b d k × (w.cancel k ≡ true) × ((stalls b ≡ true) ⊎ (w.elapsed k < d))
HasEnded w b d (k, stalled_out) =
    WentOn w b d k × (w.cancel k ≡ false) × (stalls b ≡ true) × (10000000 < w.woken k)
HasEnded w b d (k, out_of_fuel) = ⊥

one_more :
    (w : Watch) (b : Behavior) (d k : ℕ) → GoesOn w b d k → WentOn w b d k → WentOn w b d (k + 1)
one_more w b d k g h =
    let both : WentOn w b d (suc k) = (g, h) in subst (WentOn w b d) {x = suc k} (omega arith) both

ltb-lt : (a b : ℕ) → ltb a b ≡ true → a < b
ltb-lt a b h = ground arith

ltb-ge : (a b : ℕ) → ltb a b ≡ false → b ≤ a
ltb-ge a b h = ground arith

before-lt : (a d : ℕ) (x : Float) → x ≡ finite (pos d) → lt_float (finite (pos a)) x ≡ true → a < d
unfolding lt_float
before-lt a d x e h =
    let h' : ltb (a + 0) (d + 0) ≡ true = subst (λ y. lt_float (finite (pos a)) y ≡ true) e h in
    ground arith

before-ge : (a d : ℕ) (x : Float) → x ≡ finite (pos d) → lt_float (finite (pos a)) x ≡ false → d ≤ a
unfolding lt_float
before-ge a d x e h =
    let h' : ltb (a + 0) (d + 0) ≡ false = subst (λ y. lt_float (finite (pos a)) y ≡ false) e h in
    ground arith

wait-HasEnded_from :
    (w : Watch) (b : Behavior) (d fuel k : ℕ)
    → b.duration ≡ finite (pos d)
    → IsClock w
    → WentOn w b d k
    → 10000 * k < d + 10010000
    → d + 10010000 ≤ (fuel + k) * 10000
    → HasEnded w b d (wait w b fuel k)
unfolding wait
wait-HasEnded_from w b d zero k e h on early enough = absurd (omega arith)
wait-HasEnded_from w b d (suc fuel) k e h on early enough = elim (Bool-cases (stalls b)) [
  | inl s ↦ elim (Bool-cases (w.cancel k)) [
    | inl c ↦ rw (s, c) (on, c, inl s)
    | inr c ↦ elim (Bool-cases (ltb 10000000 (w.woken k))) [
      | inl l ↦ rw (s, c, l) (on, c, s, ltb-lt 10000000 (w.woken k) l)
      | inr l ↦
          let short = ltb-ge 10000000 (w.woken k) l in
          rw (s, c, l)
            (wait-HasEnded_from w b d fuel (k + 1) e h (one_more w b d k (c, inl (s, short)) on)
              (stalling k short) (omega arith))
    ]
  ]
  | inr s ↦ elim (Bool-cases (lt_float (finite (pos (w.elapsed k))) b.duration)) [
    | inr l ↦ rw (s, l) (on, s, before-ge (w.elapsed k) d b.duration e l)
    | inl l ↦
        let short = before-lt (w.elapsed k) d b.duration e l in
        elim (Bool-cases (w.cancel k)) [
          | inl c ↦ rw (s, l, c) (on, c, inr short)
          | inr c ↦
              rw (s, l, c)
                (wait-HasEnded_from w b d fuel (k + 1) e h (one_more w b d k (c, inr (s, short)) on)
                  (running k short) (omega arith))
        ]
  ]
]
  where
    stalling : (k : ℕ) → w.woken k ≤ 10000000 → 10000 * (k + 1) < d + 10010000
    stalling k l = let a = elapsed_least w k h in let c = h.sleeps k in omega arith

    running : (k : ℕ) → w.elapsed k < d → 10000 * (k + 1) < d + 10010000
    running k l = let a = elapsed_least w k h in omega arith

-- For a duration of d microseconds, rounds that sleep for 10 ms and a clock that does not go back, the
-- loop ends within d / 10000 + 1001 rounds, in the first round that may end it: by its duration, which
-- has passed; by a cancellation that was requested while it had not; or, for a goal that stalls, by the
-- limit of ten seconds, unless a cancellation was requested.
pub wait-HasEnded :
    (w : Watch) (b : Behavior) (d fuel : ℕ)
    → b.duration ≡ finite (pos d)
    → IsClock w
    → d + 10010000 ≤ fuel * 10000
    → HasEnded w b d (wait w b fuel 0)
wait-HasEnded w b d fuel e h enough =
    wait-HasEnded_from w b d fuel 0 e h tt (omega arith) (omega arith)
