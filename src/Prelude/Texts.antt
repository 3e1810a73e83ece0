-- ===== src/Prelude/Texts.antt =====
-- Sets of texts, as Python's `set[str]` and `frozenset[str]`: lists read through membership.
use Prim.Native.String.{String}
use mathlib.Core.Bool.{Bool, false, not, ◌||◌}
use mathlib.Core.List.{List, [], ◌∷◌, ◌++◌}
use text.Mathlib.Text.{◌==◌}
use mathlib.Core.Path.{◌≡◌, refl, ◌∙◌}
use native.Mathlib.Omega.{arith}
use text.Mathlib.TextEquality.{eq_iff}
use embodied_skill_ros.Prelude.Tests.{if◌then◌else◌}
use embodied_skill_ros.Prelude.Lists.{keep}

-- `name in names`
unfoldable pub contains : String → List String → Bool
contains name [] = false
contains name (x ∷ xs) = x == name || contains name xs

-- `names.add(name)`
unfoldable pub add : String → List String → List String
unfolding contains
add name xs = if contains name xs then xs else xs ++ name ∷ []

-- `xs | ys`
unfoldable pub union : List String → List String → List String
unfolding add
union xs [] = xs
union xs (y ∷ ys) = union (add y xs) ys

-- `xs & ys`
unfoldable pub intersection : List String → List String → List String
unfolding contains
intersection xs ys = keep (λ x. contains x ys) xs

-- `xs - ys`
unfoldable pub difference : List String → List String → List String
unfolding contains
difference xs ys = keep (λ x. not (contains x ys)) xs

pub contains-append :
    (name : String) (xs ys : List String)
    → contains name (xs ++ ys) ≡ (contains name xs || contains name ys)
unfolding contains
contains-append name [] ys = refl
contains-append name (x ∷ xs) ys = ground (arith, contains-append name xs ys)

pub contains-add :
    (name y : String) (xs : List String)
    → contains name (add y xs) ≡ (contains name xs || y == name)
unfolding contains add
contains-add name y xs = ground (arith, contains-append name xs (y ∷ []), eq_iff y name)

-- Membership in a union.
pub contains-union :
    (name : String) (xs ys : List String)
    → contains name (union xs ys) ≡ (contains name xs || contains name ys)
unfolding union contains
contains-union name xs [] = ground arith
contains-union name xs (y ∷ ys) =
    contains-union name (add y xs) ys ∙ ground (arith, contains-add name y xs)
