-- ===== src/Value.antt =====
-- Python's values as the skill contracts, robot states and plans hold them (`Any` in
-- embodied_skill_ros/models and embodied_skill_ros/skills). A float is a whole number of
-- millionths, an infinity or NaN: the program only adds, subtracts and compares floats, and every
-- literal of the source is a whole number of millionths. What rounding of binary floats adds to
-- that is not modelled. Of the containers, tuples of floats and dictionaries of texts are values.
pub mod Numbers
pub mod Laws
pub mod Agreement
use embodied_skill_ros.Prelude.{
  Bool, List, Option, String, [], all, false, is_nil, is_some, length, nat_eq, none, not, some,
  true, ◌&&◌, ◌==◌, ◌∷◌,
}
use embodied_skill_ros.Prelude.Dict.{get}
use embodied_skill_ros.Prelude.Int.{eqb_ℤ, pos, ℤ}
use embodied_skill_ros.Value.Numbers.{
  Float, absolute, eq_float, finite, le_float, minus, same_float, scale,
}

pub data Value : Type 0 where
  null : Value
  bool : Bool → Value
  int : ℤ → Value
  float : Float → Value
  text : String → Value
  floats : List Float → Value
  texts : List (String × String) → Value

-- `float(x)` of a number; `None` for what is no number. In Python `bool` is a subclass of `int`.
unfoldable pub as_number : Value → Option Float
as_number (bool true) = some (finite (pos 1000000))
as_number (bool false) = some (finite (pos 0))
as_number (int n) = some (finite (scale n))
as_number (float x) = some x
as_number _ = none

-- `isinstance(value, (int, float))`
unfoldable pub is_number : Value → Bool
unfolding as_number
is_number v = is_some (as_number v)

-- `isinstance(value, float)`
unfoldable pub is_float : Value → Bool
is_float (float _) = true
is_float _ = false

-- `value is None`
unfoldable pub is_null : Value → Bool
is_null null = true
is_null _ = false

numbers_equal : Option Float → Option Float → Bool
numbers_equal (some x) (some y) = eq_float x y
numbers_equal _ _ = false

all_pairs : (Float → Float → Bool) → List Float → List Float → Bool
all_pairs same [] [] = true
all_pairs same (x ∷ xs) (y ∷ ys) = same x y && all_pairs same xs ys
all_pairs same _ _ = false

same_text : Option String → String → Bool
same_text none t = false
same_text (some s) t = s == t

-- Equality of dictionaries, whatever their order.
equal_texts : List (String × String) → List (String × String) → Bool
unfolding same_text
equal_texts d e =
    nat_eq (length d) (length e) && all (λ entry. same_text (get (entry.0) e) (entry.1)) d

same_entries : List (String × String) → List (String × String) → Bool
same_entries [] [] = true
same_entries ((k, v) ∷ d) ((j, w) ∷ e) = k == j && v == w && same_entries d e
same_entries _ _ = false

-- `a == b`: numbers by value, whatever their types
unfoldable pub equals : Value → Value → Bool
unfolding numbers_equal as_number all_pairs equal_texts
equals null null = true
equals (text s) (text t) = s == t
equals (floats xs) (floats ys) = all_pairs eq_float xs ys
equals (texts d) (texts e) = equal_texts d e
equals a b = numbers_equal (as_number a) (as_number b)

-- `repr(a) == repr(b)`: the same value of the same type
unfoldable pub same_repr : Value → Value → Bool
unfolding all_pairs same_entries
same_repr null null = true
same_repr (bool true) (bool true) = true
same_repr (bool false) (bool false) = true
same_repr (int m) (int n) = eqb_ℤ m n
same_repr (float x) (float y) = same_float x y
same_repr (text s) (text t) = s == t
same_repr (floats xs) (floats ys) = all_pairs same_float xs ys
same_repr (texts d) (texts e) = same_entries d e
same_repr _ _ = false

pub near : Float → Option Float → Float → Bool
unfolding le_float absolute minus
near tolerance none target = false
near tolerance (some actual) target = le_float (absolute (minus actual target)) tolerance

-- For a float target `isinstance(actual, (int, float)) and abs(float(actual) - target) <= tolerance`,
-- and `actual == target` for any other.
unfoldable pub agrees_within : Float → Value → Value → Bool
unfolding near as_number equals
agrees_within tolerance actual (float target) = near tolerance (as_number actual) target
agrees_within tolerance actual target = equals actual target

-- Truth of a value in a condition.
unfoldable pub truthy : Value → Bool
truthy null = false
truthy (bool b) = b
truthy (int n) = not (eqb_ℤ n (pos 0))
truthy (float x) = not (eq_float x (finite (pos 0)))
truthy (text s) = not (s == "")
truthy (floats xs) = not (is_nil xs)
truthy (texts d) = not (is_nil d)
