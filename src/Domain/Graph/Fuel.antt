-- ===== src/Domain/Graph/Fuel.antt =====
-- The recursion of `visit` is never deeper than there are tasks: the fuel suffices.
use ogaforeman.Base.{
  ℕ, zero, suc, ◌+◌, ◌≤◌, ◌≡◌, ◌≢◌, refl, inl, inr, String, true, false, Option, none, some, List,
  [], ◌∷◌, arith, eq_iff, str_eq, mem, All, In, head, tail, Bool-cases, Result, ok, err, length,
  distinct,
}
use ogaforeman.Base.Dict
use ogaforeman.Base.Dict.{Dict}
use ogaforeman.Domain.Task.{Task}
use ogaforeman.Domain.Graph.{Marks, and_then, discard, visit_each, visit, keys}
use ogaforeman.Domain.Graph.Visits.{enter}
use ogaforeman.Domain.Graph.Index.{keys-mem}
use ogaforeman.Domain.Graph.Order.{Visitor, Restores, visit-Restores}

mem-discard :
    (x y : String) (v : List String)
    → mem y v ≡ true
    → str_eq x y ≡ false
    → mem y (discard x v) ≡ true
unfolding discard
mem-discard x y [] h ne = absurd (cc)
mem-discard x y (z ∷ v) h ne = ground (arith, eq_iff x z, eq_iff y z, eq_iff x y, mem-discard x y v)

length-discard-le : (x : String) (v : List String) → length (discard x v) ≤ length v
unfolding discard
length-discard-le x [] = omega arith
length-discard-le x (z ∷ v) = ground (arith, length-discard-le x v)

length-discard :
    (x : String) (v : List String) → mem x v ≡ true → length (discard x v) + 1 ≤ length v
unfolding discard
length-discard x [] h = absurd (cc)
length-discard x (z ∷ v) h = ground (arith, eq_iff x z, length-discard x v, length-discard-le x v)

abbrev pub Within : List String → List String → Type 0
Within v k = All (λ x. mem x k ≡ true) v

Within-discard :
    (x : String) (v k : List String) → mem x v ≡ false → Within v k → Within v (discard x k)
Within-discard x [] k h w = tt
Within-discard x (y ∷ v) k h w =
    (mem-discard x y k w.0 (ground (arith, eq_iff x y)), Within-discard x v k (ground arith) w.1)

-- Distinct members of a list are at most as many as its entries.
length-le_of_Within : (v k : List String) → distinct v ≡ true → Within v k → length v ≤ length k
length-le_of_Within [] k h w = omega arith
length-le_of_Within (x ∷ v) k h w =
    let rest =
      length-le_of_Within v (discard x k) (ground arith)
        (Within-discard x v k (ground arith) w.1) in
    omega (arith, rest, length-discard x k w.0)

and_then-ne-none {ℓ κ} :
    {A : Type ℓ} {B : Type κ} (r : Option (Result A)) (next : A → Option (Result B))
    → r ≢ none
    → ((a : A) → r ≡ some (ok a) → next a ≢ none)
    → and_then r next ≢ none
and_then-ne-none none next h k = λ e. h refl
and_then-ne-none (some (err x)) next h k = λ e. cc
and_then-ne-none (some (ok a)) next h k = k a refl

module _ (d : Dict Task)
    (closed : (x b : String) (t : Task)
      → Dict.get d x ≡ some t
      → In b t.dependency_ids
      → (u : Task) × (Dict.get d b ≡ some u)) where
  -- The stack holds distinct keys, and the fuel covers the keys that are not on it.
  record Fits (n : ℕ) (v : List String) : Type 0 where
    distinct_stack : distinct v ≡ true
    within : Within v (keys d)
    covered : length (keys d) ≤ n + length v

  abbrev Ends : ℕ → Visitor → Type 0
  Ends n f =
      (x : String) (m : Marks) (t : Task) → Dict.get d x ≡ some t → Fits n m.visiting → f x m ≢ none

  visit_each-Ends :
      (n : ℕ) (f : Visitor)
      → Restores f
      → Ends n f
      → (xs : List String) (m : Marks) → All (λ x. (t : Task) × (Dict.get d x ≡ some t)) xs
      → Fits n m.visiting
      → visit_each f xs m ≢ none
  unfolding visit_each
  visit_each-Ends n f r g [] m known fits = λ e. cc
  visit_each-Ends n f r g (x ∷ xs) m known fits =
      and_then-ne-none (f x m) (visit_each f xs) (g x m known.0.0 known.0.1 fits)
        (λ k went. visit_each-Ends n f r g xs k known.1 (rw (r x m k went) fits))

  deps-known :
      (x : String) (t : Task) (bs : List String)
      → Dict.get d x ≡ some t
      → ((b : String) → In b bs → In b t.dependency_ids)
      → All (λ b. (u : Task) × (Dict.get d b ≡ some u)) bs
  deps-known x t [] found sub = tt
  deps-known x t (b ∷ bs) found sub =
      (closed x b t found (sub b (head refl)), deps-known x t bs found (λ c i. sub c (tail i)))

  push-Fits :
      (n : ℕ) (x : String) (v : List String) (t : Task)
      → Dict.get d x ≡ some t
      → mem x v ≡ false
      → Fits (suc n) v
      → Fits n (x ∷ v)
  push-Fits n x v t found free fits = record {
    distinct_stack = ground (arith, fits.distinct_stack);
    within = (keys-mem d x t found, fits.within);
    covered = omega (arith, fits.covered);
  }

  -- With no fuel left the stack would hold every key, and `x` besides.
  out_of_fuel :
      (x : String) (v : List String) (t : Task) → Dict.get d x ≡ some t → Fits 0 v → mem x v ≡ true
  out_of_fuel x v t found fits = elim (Bool-cases (mem x v)) [
    | inl busy ↦ busy
    | inr free ↦ absurd (
        omega (
          arith,
          fits.covered,
          length-le_of_Within (x ∷ v) (keys d) (ground (arith, fits.distinct_stack))
              (keys-mem d x t found, fits.within),
        ))
  ]

  visit-ne-none :
      (n : ℕ) (x : String) (m : Marks) (t : Task)
      → Dict.get d x ≡ some t
      → (mem x m.visiting ≡ false → visit_each (visit d n) t.dependency_ids (enter x m) ≢ none)
      → visit d (suc n) x m ≢ none
  unfolding visit
  visit-ne-none n x m t found inner = elim (Bool-cases (mem x m.visiting)) [
    | inl busy ↦ rw busy (λ e. cc)
    | inr free ↦ elim (Bool-cases (mem x m.visited)) [
      | inl done ↦ rw (free, done) (λ e. cc)
      | inr fresh ↦
          rw (free, fresh, found)
            (and_then-ne-none (visit_each (visit d n) t.dependency_ids (enter x m)) _ (inner free)
              (λ a went e. cc))
    ]
  ]

  visit-Ends : (n : ℕ) → Ends n (visit d (suc n))
  visit-Ends zero x m t found fits =
      visit-ne-none zero x m t found
        (λ free. absurd (cc (free, out_of_fuel x m.visiting t found fits)))
  visit-Ends (suc n) x m t found fits = visit-ne-none (suc n) x m t found (λ free.
      visit_each-Ends n (visit d (suc n)) (visit-Restores d (suc n)) (visit-Ends n) t.dependency_ids
        (enter x m) (deps-known x t t.dependency_ids found (λ b i. i))
        (push-Fits n x m.visiting t found free fits))

  -- The search over all keys ends with an answer.
  pub search-ends :
      (xs : List String) (m : Marks)
      → All (λ x. (t : Task) × (Dict.get d x ≡ some t)) xs
      → m.visiting ≡ []
      → visit_each (visit d (suc (length (keys d)))) xs m ≢ none
  search-ends xs m known empty =
      visit_each-Ends (length (keys d)) (visit d (suc (length (keys d))))
        (visit-Restores d (suc (length (keys d)))) (visit-Ends (length (keys d))) xs m known
        (rw empty (record { distinct_stack = refl; within = tt; covered = omega arith }))
