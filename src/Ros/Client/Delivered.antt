-- ===== src/Ros/Client/Delivered.antt =====
-- The node and the client together: what is delivered of what was published.
use embodied_skill_ros.Prelude.{
  List, [], ap, arith, inl, inr, some, subst, sym, ℕ, ◌∙◌, ◌∷◌, ◌≡◌, ◌≤◌, ◌⊎◌,
}
use embodied_skill_ros.Ros.Robot.{FakeRobot, StateMessage}
use embodied_skill_ros.Ros.Node.{start_node}
use embodied_skill_ros.Ros.Node.Runs.{Event, steps}
use embodied_skill_ros.Ros.Node.Numbered.{IsNumbered, steps-Numbered}
use embodied_skill_ros.Ros.Client.{Arrivals, new_client, receive_all}
use embodied_skill_ros.Ros.Client.Newest.{Comes, receive_all-IsFrom, receive_all_bound}

-- A message on the state topic.
abbrev pub Published : StateMessage → List StateMessage → Type 0
Published m [] = ⊥
Published m (x ∷ xs) = (x ≡ m) ⊎ Published m xs

-- Messages may be lost, delayed, repeated or spoiled, but none is made up.
abbrev pub Delivers : FakeRobot → Arrivals → Type 0
Delivers r ms = (m : StateMessage) → Comes m ms → Published m r.published

bound_of_numbers :
    (n : ℕ) (ms : List StateMessage) (m : StateMessage)
    → IsNumbered n ms
    → Published m ms
    → m.sequence ≤ n
bound_of_numbers n [] m h p = absurd p
bound_of_numbers n (x ∷ xs) m (e, (k, ek, h)) (inl q) =
    let e' = subst (λ y. y.sequence ≡ n) q e in omega arith
bound_of_numbers n (x ∷ xs) m (e, (k, ek, h)) (inr p) =
    let b = bound_of_numbers k xs m h p in omega arith

-- A number that reaches the newest one is the newest message's.
unique_at_end :
    (n : ℕ) (x : StateMessage) (xs : List StateMessage) (m : StateMessage)
    → IsNumbered n (x ∷ xs)
    → Published m (x ∷ xs)
    → n ≤ m.sequence
    → x ≡ m
unique_at_end n x xs m h (inl q) l = q
unique_at_end n x xs m (e, (k, ek, h)) (inr p) l =
    let b = bound_of_numbers k xs m h p in absurd (omega arith)

-- Whatever callbacks the node has run, and however its messages are lost, delayed, repeated or
-- reordered on their way: a client that has received the newest message, at any time, holds its
-- state and its number.
pub receive_all-newest :
    (es : List Event) (stamp : ℕ) (x : StateMessage) (xs : List StateMessage) (ms : Arrivals)
    → (steps es (start_node stamp)).published ≡ x ∷ xs
    → Delivers (steps es (start_node stamp)) ms
    → Comes x ms
    → ((receive_all ms new_client).latest ≡ some x.state)
      × ((receive_all ms new_client).sequence ≡ (steps es (start_node stamp)).sequence)
receive_all-newest es stamp x xs ms e delivers comes =
    let r = steps es (start_node stamp) in
    let numbered = subst (IsNumbered r.sequence) e (steps-Numbered es stamp) in
    let (xe, (k, ke, rest)) = numbered in
    let bound = receive_all_bound ms new_client x comes in
    elim (receive_all-IsFrom ms new_client) [
      | inl (s, _) ↦ absurd (omega arith)
      | inr (m, h, s, l) ↦
          let p = subst (Published m) e (delivers m h) in
          let same = unique_at_end r.sequence x xs m numbered p (omega arith) in
          (l ∙ ap (λ y. some y.state) (sym same), s ∙ ap (λ y. y.sequence) (sym same) ∙ xe)
    ]
