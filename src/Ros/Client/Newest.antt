-- ===== src/Ros/Client/Newest.antt =====
-- What a client knows after any messages, in any order, some of them twice.
use embodied_skill_ros.Prelude.{
  Bool-cases, Option, [], arith, inl, inr, leb, none, refl, some, subst, sym, ◌∙◌, ◌∷◌, ◌≡◌, ◌≤◌,
  ◌⊎◌,
}
use embodied_skill_ros.Ros.Robot.{StateMessage}
use embodied_skill_ros.Ros.Client.{Arrivals, Client, receive, receive_all, take_newest}

-- A message among the arrivals.
abbrev pub Comes : StateMessage → Arrivals → Type 0
Comes m [] = ⊥
Comes m (x ∷ xs) = (x ≡ some m) ⊎ Comes m xs

-- The latest state of a client, with its number, is from one of the messages, or was there before.
abbrev pub IsFrom : Arrivals → Client → Client → Type 0
IsFrom ms c c' =
    ((c'.sequence ≡ c.sequence) × (c'.latest ≡ c.latest))
    ⊎ ((m : StateMessage) × Comes m ms × (c'.sequence ≡ m.sequence) × (c'.latest ≡ some m.state))

pub receive-cases :
    (o : Option StateMessage) (c : Client)
    → ((receive o c).sequence ≡ c.sequence) × ((receive o c).latest ≡ c.latest)
      ⊎ ((m : StateMessage) × (o ≡ some m)
          × (c.sequence ≤ m.sequence)
          × ((receive o c).sequence ≡ m.sequence)
          × ((receive o c).latest ≡ some m.state))
unfolding receive take_newest
receive-cases none c = inl (refl, refl)
receive-cases (some m) c = elim (Bool-cases (leb c.sequence m.sequence)) [
  | inl e ↦ inr (m, refl, ground arith, rw e refl, rw e refl)
  | inr e ↦ inl (rw e refl, rw e refl)
]

receive_least : (o : Option StateMessage) (c : Client) → c.sequence ≤ (receive o c).sequence
receive_least o c = elim (receive-cases o c) [
  | inl (e, _) ↦ omega (arith, e)
  | inr (m, _, l, e, _) ↦ omega (arith, l, e)
]

receive_bound : (m : StateMessage) (c : Client) → m.sequence ≤ (receive (some m) c).sequence
unfolding receive take_newest
receive_bound m c = elim (Bool-cases (leb c.sequence m.sequence)) [
  | inl e ↦ rw e (omega arith)
  | inr e ↦ rw e (ground arith)
]

pub receive_all_least : (ms : Arrivals) (c : Client) → c.sequence ≤ (receive_all ms c).sequence
unfolding receive_all
receive_all_least [] c = omega arith
receive_all_least (o ∷ ms) c = omega (arith, receive_least o c, receive_all_least ms (receive o c))

pub receive_all_bound :
    (ms : Arrivals) (c : Client) (m : StateMessage)
    → Comes m ms
    → m.sequence ≤ (receive_all ms c).sequence
unfolding receive_all
receive_all_bound [] c m h = absurd h
receive_all_bound (o ∷ ms) c m (inl e) =
    let sooner = subst (λ o. m.sequence ≤ (receive o c).sequence) (sym e) (receive_bound m c) in
    omega (arith, receive_all_least ms (receive o c))
receive_all_bound (o ∷ ms) c m (inr h) = receive_all_bound ms (receive o c) m h

pub receive_all-IsFrom : (ms : Arrivals) (c : Client) → IsFrom ms c (receive_all ms c)
unfolding receive_all
receive_all-IsFrom [] c = inl (refl, refl)
receive_all-IsFrom (o ∷ ms) c = elim (receive_all-IsFrom ms (receive o c)) [
  | inr (m, h, e, l) ↦ inr (m, inr h, e, l)
  | inl (e, l) ↦ elim (receive-cases o c) [
    | inl (e', l') ↦ inl (e ∙ e', l ∙ l')
    | inr (m, k, _, e', l') ↦ inr (m, inl k, e ∙ e', l ∙ l')
  ]
]
