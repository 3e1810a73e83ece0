-- ===== src/Ros/Client/Observed.antt =====
-- What is observed behind a command.
use embodied_skill_ros.Prelude.{
  Bool-cases, Option, Option-cases, [], ap, arith, inl, inr, leb, none, none-ne-some, refl, some,
  subst, sym, true, ℕ, ◌++◌, ◌+◌, ◌<◌, ◌∙◌, ◌∷◌, ◌≡◌, ◌≤◌, ◌⊎◌,
}
use embodied_skill_ros.State.{RobotState}
use embodied_skill_ros.Ros.Robot.{StateMessage}
use embodied_skill_ros.Ros.Client.{
  Arrivals, Client, GoalCalls, after_acceptance, after_installation, after_late, after_response,
  after_timeout, client_command, client_observe, concluded, newer_than, observe_required, or_latest,
  receive, receive_all, transport_error, unless_found, wait_for_observation,
}
use embodied_skill_ros.Ros.Client.Newest.{
  Comes, IsFrom, receive-cases, receive_all-IsFrom, receive_all_bound, receive_all_least,
}

IsFrom-cons :
    (o : Option StateMessage) (ms : Arrivals) (c c' : Client)
    → IsFrom ms (receive o c) c'
    → IsFrom (o ∷ ms) c c'
IsFrom-cons o ms c c' (inr (m, h, e, l)) = inr (m, inr h, e, l)
IsFrom-cons o ms c c' (inl (e, l)) = elim (receive-cases o c) [
  | inl (e', l') ↦ inl (e ∙ e', l ∙ l')
  | inr (m, k, _, e', l') ↦ inr (m, inl k, e ∙ e', l ∙ l')
]

-- The state that is waited for is the latest one and newer, or there is none that is newer.
abbrev WaitedFor : ℕ → Option RobotState → Client → Type 0
WaitedFor after found c' =
    ((s : RobotState) × (found ≡ some s) × (c'.latest ≡ some s) × (after < c'.sequence))
    ⊎ ((found ≡ none) × ((c'.sequence ≤ after) ⊎ (c'.latest ≡ none)))

newer_than-cases : (after : ℕ) (c : Client) → WaitedFor after (newer_than after c) c
unfolding newer_than
newer_than-cases after c = elim (Bool-cases (leb c.sequence after)) [
  | inl e ↦ inr (rw e refl, inl (ground arith))
  | inr e ↦ elim (Option-cases c.latest) [
    | inl l ↦ inr (rw (e, l) refl, inr l)
    | inr (s, l) ↦ inl (s, rw (e, l) refl, l, ground arith)
  ]
]

-- An end of waiting, from the messages that came to a client.
abbrev EndsFrom : ℕ → Arrivals → Client → Option RobotState × Client × Arrivals → Type 0
EndsFrom after ms c end = WaitedFor after (end.0) (end.1) × IsFrom ms c (end.1)

unless_found-EndsFrom :
    (after : ℕ) (ms rest : Arrivals) (c : Client) (found : Option RobotState)
    (later : Option RobotState × Client × Arrivals)
    → WaitedFor after found c
    → EndsFrom after ms c later
    → EndsFrom after ms c (unless_found found c rest later)
unfolding unless_found
unless_found-EndsFrom after ms rest c none later h k = k
unless_found-EndsFrom after ms rest c (some s) later h k = (h, inl (refl, refl))

wait_for_observation-EndsFrom :
    (after : ℕ) (ms : Arrivals) (c : Client) → EndsFrom after ms c (wait_for_observation after ms c)
unfolding wait_for_observation
wait_for_observation-EndsFrom after [] c = (newer_than-cases after c, inl (refl, refl))
wait_for_observation-EndsFrom after (o ∷ ms) c =
    let (w, h) = wait_for_observation-EndsFrom after ms (receive o c) in
    unless_found-EndsFrom after (o ∷ ms) (o ∷ ms) c (newer_than after c)
      (wait_for_observation after ms (receive o c)) (newer_than-cases after c)
      (w, IsFrom-cons o ms c ((wait_for_observation after ms (receive o c)).1) h)

-- No message has a number above this one.
abbrev pub NoneNewer : ℕ → Arrivals → Type 0
NoneNewer after [] = Unit
NoneNewer after (none ∷ ms) = NoneNewer after ms
NoneNewer after (some m ∷ ms) = (m.sequence ≤ after) × NoneNewer after ms

-- What is observed by a client that waits for more than a number: the state of a newer message, or,
-- where no message that comes is newer, the latest state there is.
abbrev pub ObservedFrom : ℕ → Arrivals → Option RobotState × Client → Type 0
ObservedFrom after ms (found, c') =
    ((m : StateMessage) × Comes m ms × (after < m.sequence) × (found ≡ some m.state))
    ⊎ (NoneNewer after ms × (c'.sequence ≤ after) × (found ≡ c'.latest))

Bounded-NoneNewer :
    (after : ℕ) (ms : Arrivals)
    → ((m : StateMessage) → Comes m ms → m.sequence ≤ after)
    → NoneNewer after ms
Bounded-NoneNewer after [] h = tt
Bounded-NoneNewer after (none ∷ ms) h = Bounded-NoneNewer after ms (λ m k. h m (inr k))
Bounded-NoneNewer after (some m ∷ ms) h =
    (h m (inl refl), Bounded-NoneNewer after ms (λ m' k. h m' (inr k)))

NoneNewer-append :
    (after : ℕ) (xs ys : Arrivals)
    → NoneNewer after xs
    → NoneNewer after ys
    → NoneNewer after (xs ++ ys)
NoneNewer-append after [] ys h k = k
NoneNewer-append after (none ∷ xs) ys h k = NoneNewer-append after xs ys h k
NoneNewer-append after (some m ∷ xs) ys h k = (h.0, NoneNewer-append after xs ys h.1 k)

-- A wait that finds nothing has received everything.
unfound-all :
    (after : ℕ) (ms : Arrivals) (c : Client)
    → (wait_for_observation after ms c).0 ≡ none
    → (wait_for_observation after ms c).1 ≡ receive_all ms c
unfolding wait_for_observation receive_all unless_found
unfound-all after [] c h = refl
unfound-all after (o ∷ ms) c h = elim (Option-cases (newer_than after c)) [
  | inl e ↦ rw e (unfound-all after ms (receive o c) (rw e at h))
  | inr (s, e) ↦ absurd (none-ne-some s (sym (rw e at h)))
]

Comes-left : (m : StateMessage) (xs ys : Arrivals) → Comes m xs → Comes m (xs ++ ys)
Comes-left m [] ys h = absurd h
Comes-left m (x ∷ xs) ys (inl e) = inl e
Comes-left m (x ∷ xs) ys (inr h) = inr (Comes-left m xs ys h)

Comes-right : (m : StateMessage) (xs ys : Arrivals) → Comes m ys → Comes m (xs ++ ys)
Comes-right m [] ys h = h
Comes-right m (x ∷ xs) ys h = inr (Comes-right m xs ys h)

IsFrom-append :
    (xs ys : Arrivals) (c c₁ c₂ : Client)
    → IsFrom xs c c₁
    → IsFrom ys c₁ c₂
    → IsFrom (xs ++ ys) c c₂
IsFrom-append xs ys c c₁ c₂ h (inr (m, k, e, l)) = inr (m, Comes-right m xs ys k, e, l)
IsFrom-append xs ys c c₁ c₂ (inl (e', l')) (inl (e, l)) = inl (e ∙ e', l ∙ l')
IsFrom-append xs ys c c₁ c₂ (inr (m, k, e', l')) (inl (e, l)) =
    inr (m, Comes-left m xs ys k, e ∙ e', l ∙ l')

or_latest-ObservedFrom :
    (c : Client) (ms : Arrivals) (found : Option RobotState) (c' c'' : Client)
    → c''.sequence ≡ c'.sequence
    → c''.latest ≡ c'.latest
    → WaitedFor c.sequence found c'
    → IsFrom ms c c'
    → (found ≡ none → c'.sequence ≤ c.sequence → NoneNewer c.sequence ms)
    → ObservedFrom c.sequence ms (or_latest found c', c'')
unfolding or_latest
or_latest-ObservedFrom c ms found c' c'' es el (inl (s, f, l, k)) (inl (e, _)) old =
    absurd (omega arith)
or_latest-ObservedFrom c ms found c' c'' es el (inl (s, f, l, k)) (inr (m, h, e, l')) old =
    inl (m, h, omega arith, ap (λ o. or_latest o c') f ∙ sym l ∙ l')
or_latest-ObservedFrom c ms found c' c'' es el (inr (f, inl k)) h old =
    inr (old f k, omega arith, ap (λ o. or_latest o c') f ∙ sym el)
or_latest-ObservedFrom c ms found c' c'' es el (inr (f, inr n)) (inl (e, l)) old =
    inr (old f (omega arith), omega arith, ap (λ o. or_latest o c') f ∙ sym el)
or_latest-ObservedFrom c ms found c' c'' es el (inr (f, inr n)) (inr (m, h, e, l)) old =
    absurd (none-ne-some m.state (sym n ∙ l))

-- A command that is accepted asks for a state that is newer than its beginning.
after_installation-required :
    (calls : GoalCalls)
    → ((after_installation calls calls.installed).0).accepted ≡ true
    → (after_installation calls calls.installed).1 ≡ true
unfolding after_installation after_response after_acceptance after_timeout after_late concluded
    transport_error
after_installation-required calls h = ground arith

-- The state that is observed behind an accepted command is that of a message with a higher number
-- than the client knew when the command began. Only if no message that came until the deadline has
-- such a number it is the latest state, and the client's number has not grown.
pub client_command-ObservedFrom :
    (calls : GoalCalls) (during later : Arrivals) (c : Client)
    → ((client_command calls during c).0).accepted ≡ true
    → ObservedFrom c.sequence
        (during ++ later)
        (client_observe later ((client_command calls during c).1))
unfolding client_command client_observe observe_required
client_command-ObservedFrom calls during later c h =
    let asked = after_installation-required calls h in
    let c₀ : Client = record c { request_id = c.request_id + 1 } in
    let c₁ : Client = record (receive_all during c₀) { required = some c.sequence } in
    let (waited, from) = wait_for_observation-EndsFrom c.sequence later c₁ in
    let c₂ = (wait_for_observation c.sequence later c₁).1 in
    rw asked (
      or_latest-ObservedFrom c (during ++ later) ((wait_for_observation c.sequence later c₁).0) c₂
        (record c₂ { required = none }) refl refl waited
        (IsFrom-append during later c c₁ c₂ (receive_all-IsFrom during c₀) from)
        (λ f k.
          let all = unfound-all c.sequence later c₁ f in
          let most : (receive_all later c₁).sequence ≤ c.sequence =
            subst (λ (x : Client). x.sequence ≤ c.sequence) all k in
          let early : (receive_all during c₀).sequence ≤ (receive_all later c₁).sequence =
            receive_all_least later c₁ in
          NoneNewer-append c.sequence during later
            (Bounded-NoneNewer c.sequence during
              (λ m h. let b = receive_all_bound during c₀ m h in omega arith))
            (Bounded-NoneNewer c.sequence later
              (λ m h. let b = receive_all_bound later c₁ m h in omega arith))))
