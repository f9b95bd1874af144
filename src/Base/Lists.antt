-- ===== src/Base/Lists.antt =====
-- Lists measured by native numbers, and Python's `in`, `all`, `any` and comprehensions on lists.
use Prim.Native.Nat.{ℕ, suc, ◌+◌}
use Prim.Native.String.{String}
use mathlib.Core.Path.{◌≡◌, refl}
use mathlib.Core.Logic.{inl, inr}
use mathlib.Core.Bool.{Bool, true, false, ◌&&◌, ◌||◌, not}
use mathlib.Core.List.{List, [], ◌∷◌, ◌++◌}
use native.Mathlib.Omega.{arith}
use text.Mathlib.Text.{◌==◌ as str_eq}
use text.Mathlib.TextEquality.{eq_iff}
use ogaforeman.Base.Tests.{if◌then◌else◌, Bool-cases}

module _ {ℓ} {A : Type ℓ} where
  abbrev pub length : List A → ℕ
  length [] = 0
  length (x ∷ xs) = suc (length xs)

  pub length-append : (xs ys : List A) → length (xs ++ ys) ≡ length xs + length ys
  length-append [] ys = omega arith
  length-append (x ∷ xs) ys = omega (arith, length-append xs ys)

  -- `all(test(x) for x in xs)`
  abbrev pub all : (A → Bool) → List A → Bool
  all test [] = true
  all test (x ∷ xs) = test x && all test xs

  -- `any(test(x) for x in xs)`
  abbrev pub any : (A → Bool) → List A → Bool
  any test [] = false
  any test (x ∷ xs) = test x || any test xs

  -- `[x for x in xs if test(x)]`
  abbrev pub select : (A → Bool) → List A → List A
  select test [] = []
  select test (x ∷ xs) = if test x then x ∷ select test xs else select test xs

-- A predicate that holds of every element, by recursion.
abbrev pub All {ℓ κ} : {A : Type ℓ} → (A → Type κ) → List A → Type κ
All P [] = Unit
All P (x ∷ xs) = P x × All P xs

-- Where an element stands in a list.
pub data In {ℓ} {A : Type ℓ} (a : A) : List A → Type ℓ where
  head : {x : A} {xs : List A} → x ≡ a → In a (x ∷ xs)
  tail : {x : A} {xs : List A} → In a xs → In a (x ∷ xs)

pub All-In {ℓ κ} : {A : Type ℓ} (P : A → Type κ) {a : A} {xs : List A} → In a xs → All P xs → P a
All-In P (head e) h = rw e at h.0
All-In P (tail i) h = All-In P i h.1

-- `a in xs`, for texts
abbrev pub mem : String → List String → Bool
mem a [] = false
mem a (x ∷ xs) = str_eq a x || mem a xs

pub mem-In : (a : String) (xs : List String) → mem a xs ≡ true → In a xs
mem-In a [] h = absurd (cc)
mem-In a (x ∷ xs) h = elim (Bool-cases (str_eq a x)) [
  | inl e ↦ head (ground (arith, eq_iff a x))
  | inr e ↦ tail (mem-In a xs (rw e at h))
]

pub In-mem : (a : String) (xs : List String) → In a xs → mem a xs ≡ true
In-mem a [] i = elim i [ ]
In-mem a (x ∷ xs) (head e) = ground (arith, eq_iff a x)
In-mem a (x ∷ xs) (tail i) = ground (arith, In-mem a xs i)

-- `len(xs) == len(set(xs))`, for texts
abbrev pub distinct : List String → Bool
distinct [] = true
distinct (x ∷ xs) = not (mem x xs) && distinct xs

-- A test that holds of all elements holds of each.
pub all-In {ℓ} :
    {A : Type ℓ} (test : A → Bool) (xs : List A) {a : A}
    → all test xs ≡ true
    → In a xs
    → test a ≡ true
all-In test [] h i = elim i [ ]
all-In test (x ∷ xs) h (head e) = rw (← e) (ground arith)
all-In test (x ∷ xs) h (tail i) = all-In test xs (ground arith) i

pub In-all {ℓ} :
    {A : Type ℓ} (test : A → Bool) (xs : List A)
    → ((a : A) → In a xs → test a ≡ true)
    → all test xs ≡ true
In-all test [] h = refl
In-all test (x ∷ xs) h = ground (arith, h x (head refl), In-all test xs (λ a i. h a (tail i)))
