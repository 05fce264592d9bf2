-- ===== src/Prelude/Lists.antt =====
-- Lists measured by native numbers, and the list and text operations that Python's comprehensions
-- and built-ins become.
use Prim.Native.Nat.{ℕ, suc, ◌+◌, ◌≤◌}
use Prim.Native.String.{String, ◌++◌ as str_append}
use mathlib.Core.Path.{◌≡◌, refl}
use mathlib.Core.Bool.{Bool, true, false, not, ◌||◌, ◌&&◌}
use mathlib.Core.List.{List, [], ◌∷◌, ◌++◌}
use native.Mathlib.Omega.{arith}
use mathlib.Core.Logic.{inl, inr}
use text.Mathlib.Text.{◌==◌}
use text.Mathlib.TextEquality.{eq_iff}
use text.Mathlib.TextPositions.{eq_refl}
use macp_sdk_python.Prelude.Tests.{if◌then◌else◌, Bool-cases}

module _ {ℓ} {A : Type ℓ} where
  abbrev pub length : List A → ℕ
  length [] = 0
  length (x ∷ xs) = suc (length xs)

  -- `not xs`
  abbrev pub is_empty : List A → Bool
  is_empty [] = true
  is_empty (x ∷ xs) = false

  -- `any(test(x) for x in xs)`
  abbrev pub any : (A → Bool) → List A → Bool
  any test [] = false
  any test (x ∷ xs) = test x || any test xs

  -- `all(test(x) for x in xs)`
  abbrev pub all : (A → Bool) → List A → Bool
  all test [] = true
  all test (x ∷ xs) = test x && all test xs

  -- `[x for x in xs if test(x)]`
  abbrev pub select : (A → Bool) → List A → List A
  select test [] = []
  select test (x ∷ xs) = let rest = select test xs in if test x then x ∷ rest else rest

  -- `sum(1 for x in xs if test(x))`
  abbrev pub count_if : (A → Bool) → List A → ℕ
  count_if test [] = 0
  count_if test (x ∷ xs) = let n = count_if test xs in if test x then suc n else n

  pub length-append : (xs ys : List A) → length (xs ++ ys) ≡ length xs + length ys
  length-append [] ys = omega arith
  length-append (x ∷ xs) ys = omega (arith, length-append xs ys)

  pub any-append :
      (test : A → Bool) (xs ys : List A) → any test (xs ++ ys) ≡ (any test xs || any test ys)
  any-append test [] ys = refl
  any-append test (x ∷ xs) ys = ground (arith, any-append test xs ys)

  pub count_if-le-length : (test : A → Bool) (xs : List A) → count_if test xs ≤ length xs
  count_if-le-length test [] = omega arith
  count_if-le-length test (x ∷ xs) = ground (arith, count_if-le-length test xs)

-- `s in xs`
abbrev pub contains : String → List String → Bool
contains s [] = false
contains s (x ∷ xs) = x == s || contains s xs

-- `set.discard(s)`
abbrev pub discard : String → List String → List String
discard s [] = []
discard s (x ∷ xs) = let rest = discard s xs in if x == s then rest else x ∷ rest

pub discard_absent : (s : String) (xs : List String) → contains s xs ≡ false → discard s xs ≡ xs
discard_absent s [] h = refl
discard_absent s (x ∷ xs) h = ground (arith, discard_absent s xs)

-- The text of an f-string, from its pieces.
abbrev pub concat : List String → String
concat [] = ""
concat (s ∷ rest) = str_append s (concat rest)

-- `s or other`
abbrev pub or_else : String → String → String
or_else s other = if s == "" then other else s

-- `dict.fromkeys(xs)`, as the list of its keys: each text once, at its first place.
abbrev pub from_keys : List String → List String → List String
from_keys seen [] = []
from_keys seen (x ∷ xs) =
    let skip = from_keys seen xs in
    let keep = from_keys (x ∷ seen) xs in if contains x seen then skip else x ∷ keep

pub contains-from_keys :
    (s : String) (seen xs : List String)
    → contains s (from_keys seen xs) ≡ (contains s xs && not (contains s seen))
contains-from_keys s seen [] = refl
contains-from_keys s seen (x ∷ xs) =
    ground (arith, contains-from_keys s seen xs, contains-from_keys s (x ∷ seen) xs, eq_iff x s)

abbrev pub NoRepeats : List String → Type 0
NoRepeats [] = Unit
NoRepeats (x ∷ xs) = (contains x xs ≡ false) × NoRepeats xs

pub from_keys-NoRepeats : (seen xs : List String) → NoRepeats (from_keys seen xs)
from_keys-NoRepeats seen [] = tt
from_keys-NoRepeats seen (x ∷ xs) = elim (Bool-cases (contains x seen)) [
  | inl y ↦ rw y (from_keys-NoRepeats seen xs)
  | inr n ↦ rw n (
    ground (arith, contains-from_keys x (x ∷ seen) xs, eq_refl x),
    from_keys-NoRepeats (x ∷ seen) xs,
  )
]
