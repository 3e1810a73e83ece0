-- ===== src/Skill/Template.antt =====
-- Field templates such as `{arm}_arm_safe`: `str.format(**arguments)`, and the regular expression
-- that `EffectSpec._bindings_for_field` builds to read the arguments back from a concrete name.
pub mod RoundTrip
use embodied_skill_ros.Prelude.{
  Bool, List, Option, String, [], false, if◌then◌else◌, ltb, map, nat_eq, none, some, suc, true,
  zero, ℕ, ◌%◌, ◌*◌, ◌+◌, ◌/◌, ◌∷◌,
}
use embodied_skill_ros.Prelude.Dict.{Dict, get}
use embodied_skill_ros.Prelude.Int.{negsuc, pos}
use embodied_skill_ros.Value.Numbers.{Float, finite, nan, neg_inf, pos_inf}
use embodied_skill_ros.Value.{Value, bool, float, floats, int, null, text, texts}
use embodied_skill_ros.Errors.{Result, err, missing_key, ok, ◌>>=◌}
use Prim.Native.String.{◌++◌ as append}
use Prim.Native.Char.{Char, code}

pub data Piece : Type 0 where
  lit : String → Piece
  hole : String → Piece

abbrev pub Template : Type 0
Template = List Piece

abbrev pub Arguments : Type 0
Arguments = Dict Value

digit : ℕ → String
digit n =
    if nat_eq n 0
    then "0"
    else if nat_eq n 1
    then "1"
    else if nat_eq n 2
    then "2"
    else if nat_eq n 3
    then "3"
    else if nat_eq n 4
    then "4"
    else if nat_eq n 5
    then "5"
    else if nat_eq n 6
    then "6"
    else if nat_eq n 7
    then "7"
    else if nat_eq n 8
    then "8"
    else "9"

-- The decimal digits of n; n + 1 rounds are enough.
decimal_digits : ℕ → ℕ → String
unfolding digit
decimal_digits zero n = ""
decimal_digits (suc fuel) n =
    let front = decimal_digits fuel (n / 10) in
    if ltb n 10 then digit n else append front (digit (n % 10))

decimal : ℕ → String
unfolding decimal_digits
decimal n = decimal_digits (n + 1) n

-- The digits behind the point of a number of `places` digits, without the zeros at its end.
fraction_digits : ℕ → ℕ → String
unfolding digit
fraction_digits zero n = ""
fraction_digits (suc places) n =
    let rest = fraction_digits places (n * 10 % 1000000) in
    if nat_eq n 0 then "" else append (digit (n * 10 / 1000000)) rest

show_millionths : ℕ → String
unfolding decimal fraction_digits
show_millionths n =
    append (decimal (n / 1000000))
      (append "." (if nat_eq (n % 1000000) 0 then "0" else fraction_digits 6 (n % 1000000)))

show_float : Float → String
unfolding decimal show_millionths
show_float (finite (pos n)) = show_millionths n
show_float (finite (negsuc n)) = append "-" (show_millionths (n + 1))
show_float pos_inf = "inf"
show_float neg_inf = "-inf"
show_float nan = "nan"

join_texts : List String → String
join_texts [] = ""
join_texts (s ∷ []) = s
join_texts (s ∷ r ∷ rest) = append s (append ", " (join_texts (r ∷ rest)))

-- The brackets of a tuple; one of a single entry has a comma behind it.
tuple_of : List String → String
unfolding join_texts
tuple_of (s ∷ []) = append "(" (append s ",)")
tuple_of entries = append "(" (append (join_texts entries) ")")

quoted : String → String
quoted s = append "'" (append s "'")

show_entry : String × String → String
unfolding quoted
show_entry (k, v) = append (quoted k) (append ": " (quoted v))

-- `str(value)`. Quotes inside a dictionary's texts are not escaped. Python writes a float below 0.0001 or from 1e16 on with an exponent, which is not
-- modelled.
unfoldable pub show : Value → String
unfolding decimal show_float tuple_of show_entry join_texts
show null = "None"
show (bool true) = "True"
show (bool false) = "False"
show (int (pos n)) = decimal n
show (int (negsuc n)) = append "-" (decimal (n + 1))
show (float x) = show_float x
show (text s) = s
show (floats xs) = tuple_of (map show_float xs)
show (texts d) = append "{" (append (join_texts (map show_entry d)) "}")

or_missing : String → Option Value → Result Value
or_missing name none = err (missing_key name)
or_missing name (some v) = ok v

-- `arguments[name]`
unfoldable pub argument_of : Arguments → String → Result Value
unfolding or_missing
argument_of arguments name = or_missing name (get name arguments)

-- `field.format(**arguments)`
unfoldable pub format : Template → Arguments → Result String
format [] arguments = ok ""
format (lit t ∷ pieces) arguments = do rest ← format pieces arguments; ok (append t rest)
format (hole name ∷ pieces) arguments = do
  v ← argument_of arguments name
  rest ← format pieces arguments
  ok (append (show v) rest)

abbrev pub Bindings : Type 0
Bindings = Dict String

same_char : Char → Char → Bool
same_char c d = nat_eq (code c) (code d)

-- What follows the literal text `t` in `s`.
strip : String → String → Option String
unfolding same_char
strip String.[] s = some s
strip (String.◌∷◌ c t) String.[] = none
strip (String.◌∷◌ c t) (String.◌∷◌ d s) =
    let rest = strip t s in if same_char c d then rest else none

-- `(?P<name>[^.]+?)` followed by `rest`: the shortest text with no dot behind which `rest` matches.
shortest : (String → Option Bindings) → String → Option (String × Bindings)
shortest rest String.[] = none
shortest rest (String.◌∷◌ c s) =
    let longer = shortest rest s in
    if nat_eq (code c) b'.' then none else elim (rest s) [
      | some bs ↦ some (String.◌∷◌ c String.[], bs)
      | none ↦ elim longer [ some (t, bs) ↦ some (String.◌∷◌ c t, bs) | none ↦ none ]
    ]

bind_hole : String → Option (String × Bindings) → Option Bindings
bind_hole name none = none
bind_hole name (some (t, bs)) = some ((name, t) ∷ bs)

match_end : String → Option Bindings
match_end String.[] = some []
match_end (String.◌∷◌ c s) = none

after_literal : (String → Option Bindings) → Option String → Option Bindings
after_literal rest none = none
after_literal rest (some s) = rest s

-- `re.fullmatch(pattern, concrete_field)` and its `groupdict()`
unfoldable pub bindings_for_field : Template → String → Option Bindings
unfolding strip shortest bind_hole match_end after_literal
bindings_for_field [] s = match_end s
bindings_for_field (lit t ∷ pieces) s = after_literal (bindings_for_field pieces) (strip t s)
bindings_for_field (hole name ∷ pieces) s = bind_hole name (shortest (bindings_for_field pieces) s)

-- `dict(bindings)` as arguments
unfoldable pub as_arguments : Bindings → Arguments
as_arguments [] = []
as_arguments ((name, t) ∷ bs) = (name, text t) ∷ as_arguments bs
