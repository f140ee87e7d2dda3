-- ===== src/Prelude/Text.antt =====
-- Go strings as native texts: the test for equality, and sets of texts as lists.
use Prim.Native.String
use Prim.Native.String.{String}
use mathlib.Core.Path.{◌≡◌, sym}
use mathlib.Core.Logic.{◌≢◌, inl, inr}
use mathlib.Core.Bool.{Bool, true, false, ◌||◌}
use mathlib.Core.List.{List, [], ◌∷◌, Memᴰ}
use native.Mathlib.Omega.{arith}
use text.Mathlib.Text.{◌==◌}
use text.Mathlib.TextEquality.{eq_iff}
use web_gobbler.Prelude.Tests.{Bool-cases}
use web_gobbler.Prelude.Lists.{All}

abbrev pub str_eq : String → String → Bool
str_eq a b = a == b

pub str_eq_iff_to : (a b : String) → str_eq a b ≡ true → a ≡ b
str_eq_iff_to a b = (eq_iff a b).0

pub str_eq_iff_from : (a b : String) → a ≡ b → str_eq a b ≡ true
str_eq_iff_from a b = (eq_iff a b).1

-- a + b on strings.
abbrev pub str_append : String → String → String
str_append a b = String.◌++◌ a b

-- `m[s]` of a `map[string]bool` whose keys are the list.
abbrev pub contains : List String → String → Bool
contains [] a = false
contains (x ∷ xs) a = str_eq x a || contains xs a

pub contains-false : (xs : List String) (a : String) → contains xs a ≡ false → All (λ x. x ≢ a) xs
contains-false [] a h = tt
contains-false (x ∷ xs) a h =
    (λ e. ground (arith, str_eq_iff_from x a), contains-false xs a (ground arith))

pub contains-true : (xs : List String) (a : String) → contains xs a ≡ true → Memᴰ a xs
contains-true [] a h = cc
contains-true (x ∷ xs) a h = elim (Bool-cases (str_eq x a)) [
  | inl e ↦ Memᴰ.head (sym (str_eq_iff_to x a e))
  | inr e ↦ Memᴰ.tail (contains-true xs a (ground arith))
]

pub contains-mem : (xs : List String) (a : String) → Memᴰ a xs → contains xs a ≡ true
contains-mem [] a m = elim m [ ]
contains-mem (x ∷ xs) a (Memᴰ.head e) = ground (arith, str_eq_iff_from x a (sym e))
contains-mem (x ∷ xs) a (Memᴰ.tail m) = ground (arith, contains-mem xs a m)
