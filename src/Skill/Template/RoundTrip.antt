-- ===== src/Skill/Template/RoundTrip.antt =====
-- Reading a concrete field name back with a template, and formatting the template again.
use embodied_skill_ros.Prelude.{
  All, Bool-cases, Option, Option-cases, String, [], ap, arith, inl, inr, nat_eq, none-ne-some,
  refl, some, some_injective, subst, sym, true, ◌∙◌, ◌∷◌, ◌≡◌,
}
use embodied_skill_ros.Prelude.Dict.{get}
use embodied_skill_ros.Value.{text}
use embodied_skill_ros.Errors.{ok}
use embodied_skill_ros.Skill.Template.{
  Arguments, Bindings, Template, argument_of, as_arguments, bindings_for_field, format, hole, lit,
  match_end, same_char, shortest, show, strip,
}
use Prim.Native.Char.{Char, code}
use Prim.Native.String.{◌++◌ as append}
use package.text.Mathlib.TextLemmas.{nil-append, cons-append}
use package.text.Mathlib.TextEquality.{Char-path}

shown : Unit {0}
unfolding format bindings_for_field as_arguments show argument_of get
shown = tt

reads_back :
    bindings_for_field (hole "arm" ∷ lit "_arm_safe" ∷ []) "left_arm_safe"
    ≡ some (("arm", "left") ∷ [])
unfolding shown
reads_back = refl

writes : format (hole "arm" ∷ lit "_arm_safe" ∷ []) (("arm", text "left") ∷ []) ≡ ok "left_arm_safe"
unfolding shown
writes = refl

same_char-eq : (c d : Char) → same_char c d ≡ true → c ≡ d
unfolding same_char
same_char-eq c d h = Char-path c d (ground arith)

-- The arguments hold every binding as a text.
abbrev pub Agrees : Bindings → Arguments → Type 0
Agrees bs arguments = All (λ b. get b.0 arguments ≡ some (text b.1)) bs

strip-append : (t s r : String) → strip t s ≡ some r → append t r ≡ s
unfolding strip
strip-append String.[] s r h = cc (nil-append r)
strip-append (String.◌∷◌ c t) String.[] r h = cc
strip-append (String.◌∷◌ c t) (String.◌∷◌ d s) r h = elim (Bool-cases (same_char c d)) [
  | inl e ↦ cc (same_char-eq c d e, strip-append t s r (rw (← h) (rw e)), cons-append c t r)
  | inr e ↦ absurd (none-ne-some r (rw e at h))
]

-- A match of a hole splits the text into the hole's part and what the rest matched.
shortest-append :
    (rest : String → Option Bindings) (s t : String) (bs : Bindings)
    → shortest rest s ≡ some (t, bs)
    → (r : String) × (append t r ≡ s) × (rest r ≡ some bs)
unfolding shortest
shortest-append rest String.[] t bs h = cc
shortest-append rest (String.◌∷◌ c s) t bs h = elim (Bool-cases (nat_eq (code c) b'.')) [
  | inl e ↦ absurd (none-ne-some (t, bs) (rw e at h))
  | inr e ↦ elim (Option-cases (rest s)) [
    | inr (cs, here) ↦
        let h' : some (String.◌∷◌ c String.[], cs) ≡ some (t, bs) = rw (e, here) at h in
        (s, cc (h', cons-append c String.[] s, nil-append s), cc (h', here))
    | inl later ↦ elim (Option-cases (shortest rest s)) [
      | inl stop ↦ absurd (none-ne-some (t, bs) (rw (e, later, stop) at h))
      | inr ((u, cs), more) ↦
          let h' : some (String.◌∷◌ c u, cs) ≡ some (t, bs) = rw (e, later, more) at h in
          let (r, joined, matched) = shortest-append rest s u cs more in
          (r, cc (h', cons-append c u r, joined), cc (h', matched))
    ]
  ]
]

hole_step :
    (name t rest : String) (pieces : Template) (arguments : Arguments)
    → get name arguments ≡ some (text t)
    → format pieces arguments ≡ ok rest
    → format (hole name ∷ pieces) arguments ≡ ok (append t rest)
unfolding format argument_of show
hole_step name t rest pieces arguments h k = rw (h, k)

lit_step :
    (t rest : String) (pieces : Template) (arguments : Arguments)
    → format pieces arguments ≡ ok rest
    → format (lit t ∷ pieces) arguments ≡ ok (append t rest)
unfolding format
lit_step t rest pieces arguments k = rw k

match_end-eq : (s : String) (bs : Bindings) → match_end s ≡ some bs → String.[] ≡ s
unfolding match_end
match_end-eq String.[] bs h = refl
match_end-eq (String.◌∷◌ c s) bs h = cc

-- Where a template matches a field's name, formatting it with arguments that hold the bindings
-- gives the name back.
pub format-bindings_for_field :
    (pieces : Template) (s : String) (bs : Bindings) (arguments : Arguments)
    → bindings_for_field pieces s ≡ some bs
    → Agrees bs arguments
    → format pieces arguments ≡ ok s
unfolding bindings_for_field
format-bindings_for_field [] s bs arguments h agrees = unfold format in ap ok (match_end-eq s bs h)
format-bindings_for_field (lit t ∷ pieces) s bs arguments h agrees =
    elim (Option-cases (strip t s)) [
      | inl e ↦ absurd (none-ne-some bs (rw e at h))
      | inr (r, e) ↦
          let k : format pieces arguments ≡ ok r =
            format-bindings_for_field pieces r bs arguments (rw e at h) agrees in
          lit_step t r pieces arguments k ∙ ap ok (strip-append t s r e)
    ]
format-bindings_for_field (hole name ∷ pieces) s bs arguments h agrees =
    elim (Option-cases (shortest (bindings_for_field pieces) s)) [
      | inl e ↦ absurd (none-ne-some bs (rw e at h))
      | inr ((t, cs), e) ↦
          let same : some ((name, t) ∷ cs) ≡ some bs = rw e at h in
          let agrees' : Agrees ((name, t) ∷ cs) arguments =
            subst (λ b. Agrees b arguments) (some_injective (sym same)) agrees in
          let (r, joined, matched) = shortest-append (bindings_for_field pieces) s t cs e in
          hole_step name t r pieces arguments agrees'.0
            (format-bindings_for_field pieces r cs arguments matched agrees'.1)
          ∙ ap ok joined
    ]
