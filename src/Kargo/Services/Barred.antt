-- ===== src/Kargo/Services/Barred.antt =====
-- After a move of the base its position is read from messages that came since the command.
use embodied_skill_ros.Prelude.{
  Bool-cases, List, Option, [], ap, arith, false-ne-true, inl, inr, is_some, none, refl, some,
  some_injective, subst, sym, true, ℕ, ◌++◌, ◌+◌, ◌∙◌, ◌∷◌, ◌≡◌, ◌≤◌, ◌⊎◌,
}
use embodied_skill_ros.Kargo.Transport.{
  Answer, TransportResult, answered, other_error, timeout_error,
}
use embodied_skill_ros.Kargo.Services.{
  BaseTopics, MotionState, MoveResponse, Odometry, TopicMessage, both, hear, hear_all, motion,
  moved_with, navigate_base, navigated, odometry, passed, query_base, readable, unless_read,
}

-- A message among those that arrived.
abbrev pub Heard : TopicMessage → List TopicMessage → Type 0
Heard m [] = ⊥
Heard m (x ∷ xs) = (x ≡ m) ⊎ Heard m xs

-- The latest message of a topic is the same as before, or it is among those that arrived.
abbrev Since :
    {A : Type 0} → (A → TopicMessage) → List TopicMessage → ℕ × Option A → ℕ × Option A → Type 0
Since {A = A} topic ms (n, latest) (n', latest') =
    ((n' ≡ n) × (latest' ≡ latest)) ⊎ ((x : A) × Heard (topic x) ms × (latest' ≡ some x))

abbrev odom_of : BaseTopics → ℕ × Option Odometry
odom_of s = (s.odom_sequence, s.latest_odom)

abbrev motion_of : BaseTopics → ℕ × Option MotionState
motion_of s = (s.motion_sequence, s.latest_motion)

abbrev BothSince : List TopicMessage → BaseTopics → BaseTopics → Type 0
BothSince ms s s' =
    Since odometry ms (odom_of s) (odom_of s') × Since motion ms (motion_of s) (motion_of s')

Heard-left : (m : TopicMessage) (xs ys : List TopicMessage) → Heard m xs → Heard m (xs ++ ys)
Heard-left m [] ys h = absurd h
Heard-left m (x ∷ xs) ys (inl e) = inl e
Heard-left m (x ∷ xs) ys (inr h) = inr (Heard-left m xs ys h)

Heard-right : (m : TopicMessage) (xs ys : List TopicMessage) → Heard m ys → Heard m (xs ++ ys)
Heard-right m [] ys h = h
Heard-right m (x ∷ xs) ys h = inr (Heard-right m xs ys h)

Since-append :
    {A : Type 0} (topic : A → TopicMessage) (xs ys : List TopicMessage) (a b c : ℕ × Option A)
    → Since topic xs a b
    → Since topic ys b c
    → Since topic (xs ++ ys) a c
Since-append topic xs ys a b c h (inr (x, k, l)) = inr (x, Heard-right (topic x) xs ys k, l)
Since-append topic xs ys a b c (inl (e, l)) (inl (e', l')) = inl (e' ∙ e, l' ∙ l)
Since-append topic xs ys a b c (inr (x, k, l)) (inl (e', l')) =
    inr (x, Heard-left (topic x) xs ys k, l' ∙ l)

hear-BothSince : (m : TopicMessage) (s : BaseTopics) → BothSince (m ∷ []) s (hear m s)
unfolding hear
hear-BothSince (odometry o) s = (inr (o, inl refl, refl), inl (refl, refl))
hear-BothSince (motion m) s = (inl (refl, refl), inr (m, inl refl, refl))

BothSince-append :
    (xs ys : List TopicMessage) (s t u : BaseTopics)
    → BothSince xs s t
    → BothSince ys t u
    → BothSince (xs ++ ys) s u
BothSince-append xs ys s t u (h, k) (h', k') = (
  Since-append odometry xs ys (odom_of s) (odom_of t) (odom_of u) h h',
  Since-append motion xs ys (motion_of s) (motion_of t) (motion_of u) k k',
)

hear_all-BothSince : (ms : List TopicMessage) (s : BaseTopics) → BothSince ms s (hear_all ms s)
unfolding hear_all
hear_all-BothSince [] s = (inl (refl, refl), inl (refl, refl))
hear_all-BothSince (m ∷ ms) s =
    BothSince-append (m ∷ []) ms s (hear m s) (hear_all ms (hear m s)) (hear-BothSince m s)
      (hear_all-BothSince ms (hear m s))

hear-barrier : (m : TopicMessage) (s : BaseTopics) → (hear m s).barrier ≡ s.barrier
unfolding hear
hear-barrier (odometry o) s = refl
hear-barrier (motion m) s = refl

-- What stands behind a reading: a state of the topics that is behind the barrier.
record ReadBehind (a b : ℕ) (ms : List TopicMessage) (s : BaseTopics) (r : Odometry × MotionState)
    : Type 0 where
  at : BaseTopics
  since : BothSince ms s at
  odom_passed : a ≤ at.odom_sequence
  motion_passed : b ≤ at.motion_sequence
  odom_read : at.latest_odom ≡ some r.0
  motion_read : at.latest_motion ≡ some r.1

readable-ReadBehind :
    (a b : ℕ) (ms : List TopicMessage) (s : BaseTopics) (o : Odometry) (m : MotionState)
    → s.barrier ≡ some (a, b)
    → readable s ≡ some (o, m)
    → ReadBehind a b ms s (o, m)
unfolding readable passed both
readable-ReadBehind a b ms s o m e h = record {
  at = s;
  since = (inl (refl, refl), inl (refl, refl));
  odom_passed = ground arith;
  motion_passed = ground arith;
  odom_read = ground arith;
  motion_read = ground arith;
}

unless_read-cases :
    (found : Option (Odometry × MotionState)) (s : BaseTopics)
    (later : Option (Odometry × MotionState) × BaseTopics) (r : Odometry × MotionState)
    → (unless_read found s later).0 ≡ some r
    → (found ≡ some r) ⊎ (later.0 ≡ some r)
unfolding unless_read
unless_read-cases none s later r h = inr h
unless_read-cases (some q) s later r h = inl h

query_base-ReadBehind :
    (a b : ℕ) (ms : List TopicMessage) (s : BaseTopics) (o : Odometry) (m : MotionState)
    → s.barrier ≡ some (a, b)
    → (query_base ms s).0 ≡ some (o, m)
    → ReadBehind a b ms s (o, m)
unfolding query_base
query_base-ReadBehind a b [] s o m e h =
    elim (unless_read-cases (readable s) s (none, s) (o, m) h) [
      | inl k ↦ readable-ReadBehind a b [] s o m e k
      | inr k ↦ cc
    ]
query_base-ReadBehind a b (x ∷ ms) s o m e h =
    elim (unless_read-cases (readable s) s (query_base ms (hear x s)) (o, m) h) [
      | inl k ↦ readable-ReadBehind a b (x ∷ ms) s o m e k
      | inr k ↦
          let behind = query_base-ReadBehind a b ms (hear x s) o m (hear-barrier x s ∙ e) k in
          record {
            at = behind.at;
            since =
                BothSince-append (x ∷ []) ms s (hear x s) behind.at (hear-BothSince x s)
                  behind.since;
            odom_passed = behind.odom_passed;
            motion_passed = behind.motion_passed;
            odom_read = behind.odom_read;
            motion_read = behind.motion_read;
          }
    ]

-- A number that has grown means a message that arrived.
grown :
    {A : Type 0} (topic : A → TopicMessage) (ms : List TopicMessage) (n n' : ℕ)
    (latest latest' : Option A) (x : A)
    → Since topic ms (n, latest) (n', latest')
    → n + 1 ≤ n'
    → latest' ≡ some x
    → Heard (topic x) ms
grown topic ms n n' latest latest' x (inl (e, _)) l h = absurd (omega arith)
grown topic ms n n' latest latest' x (inr (y, k, e)) l h =
    subst (λ z. Heard (topic z) ms) (some_injective (sym e ∙ h)) k

answered_injective : {q r : TransportResult} → answered q ≡ answered r → q ≡ r
answered_injective e = cc

navigated-barrier :
    (a b : ℕ) (x : Answer TransportResult) (during : List TopicMessage) (s t : BaseTopics)
    (r : TransportResult)
    → BothSince during s t
    → (navigated (a, b) x t).0 ≡ answered r
    → r.accepted ≡ true
    → (((navigated (a, b) x t).1).barrier ≡ some (a + 1, b + 1))
      × BothSince during s ((navigated (a, b) x t).1)
unfolding navigated
navigated-barrier a b (answered q) during s t r since e accepted =
    let yes : q.accepted ≡ true = ap (λ y. y.accepted) (answered_injective e) ∙ accepted in
    rw yes (refl, since)
navigated-barrier a b (timeout_error m) during s t r since e accepted = cc
navigated-barrier a b (other_error m) during s t r since e accepted = cc

-- An accepted move sets the barrier behind the messages that were there when it was asked for.
navigate_base-barrier :
    (answer : Answer MoveResponse) (during : List TopicMessage) (s : BaseTopics)
    (r : TransportResult)
    → (navigate_base answer during s).0 ≡ answered r
    → r.accepted ≡ true
    → (((navigate_base answer during s).1).barrier
        ≡ some (s.odom_sequence + 1, s.motion_sequence + 1))
      × BothSince during s ((navigate_base answer during s).1)
unfolding navigate_base
navigate_base-barrier answer during s r e accepted = elim (Bool-cases (is_some s.latest_odom)) [
  | inl h ↦ rw h (
      navigated-barrier s.odom_sequence s.motion_sequence (moved_with answer) during s
        (hear_all during s) r (hear_all-BothSince during s) (rw h at e) accepted)
  | inr h ↦
      absurd (false-ne-true (ap (λ y. y.accepted) (answered_injective (rw h at e)) ∙ accepted))
]

-- After the transport has accepted a move of the base, the next query that answers before its
-- deadline has read the odometry and the motion state from messages that arrived since the move was
-- asked for.
pub query_base-since :
    (answer : Answer MoveResponse) (during later : List TopicMessage) (s : BaseTopics)
    (r : TransportResult) (o : Odometry) (m : MotionState)
    → (navigate_base answer during s).0 ≡ answered r
    → r.accepted ≡ true
    → (query_base later ((navigate_base answer during s).1)).0 ≡ some (o, m)
    → Heard (odometry o) (during ++ later) × Heard (motion m) (during ++ later)
query_base-since answer during later s r o m e accepted h =
    let s₁ = (navigate_base answer during s).1 in
    let (barrier, since) = navigate_base-barrier answer during s r e accepted in
    let behind =
      query_base-ReadBehind (s.odom_sequence + 1) (s.motion_sequence + 1) later s₁ o m barrier h in
    let (odom_since, motion_since) =
      BothSince-append during later s s₁ behind.at since behind.since in
    (
      grown odometry (during ++ later) s.odom_sequence (behind.at).odom_sequence s.latest_odom
          (behind.at).latest_odom o odom_since behind.odom_passed behind.odom_read,
      grown motion (during ++ later) s.motion_sequence (behind.at).motion_sequence s.latest_motion
          (behind.at).latest_motion m motion_since behind.motion_passed behind.motion_read,
    )
