-- ===== src/Domain/Graph/Cycles.antt =====
-- A search that raises `ValueError`: some dependency chain closes.
use ogaforeman.Base.{
  ℕ, zero, suc, ◌≡◌, refl, ◌⊎◌, inl, inr, String, Option, none, some, List, [], ◌∷◌, mem, mem-In,
  All, All-In, In, head, tail, Bool-cases, Result, ok, err, Error, value_error,
}
use ogaforeman.Base.Dict
use ogaforeman.Base.Dict.{Dict}
use ogaforeman.Domain.Task.{Task}
use ogaforeman.Domain.Graph.{Marks, and_then, visit_each, visit}
use ogaforeman.Domain.Graph.Chains.{Edge, Chain, one, more}
use ogaforeman.Domain.Graph.Visits.{enter}
use ogaforeman.Domain.Graph.Order.{Visitor, Restores, visit-Restores}

and_then-err {ℓ κ} :
    {A : Type ℓ} {B : Type κ} (r : Option (Result A)) (next : A → Option (Result B)) {e : Error}
    → and_then r next ≡ some (err e)
    → (r ≡ some (err e)) ⊎ ((a : A) × (r ≡ some (ok a)) × (next a ≡ some (err e)))
and_then-err none next h = absurd (cc)
and_then-err (some (err x)) next h = inl (cc)
and_then-err (some (ok a)) next h = inr (a, refl, h)

module _ (d : Dict Task) (tasks : List Task)
    -- The dict holds listed tasks under their ids, and every dependency is a key.
    (sound : (x : String) (t : Task) → Dict.get d x ≡ some t → In t tasks × (t.id ≡ x))
    (closed : (x b : String) (t : Task)
      → Dict.get d x ≡ some t
      → In b t.dependency_ids
      → (u : Task) × (Dict.get d b ≡ some u)) where
  abbrev Cycle : Error → Type 0
  Cycle e = ((a : String) × Chain tasks a a) × (e ≡ value_error)

  abbrev Known : String → Type 0
  Known x = (t : Task) × (Dict.get d x ≡ some t)

  -- The stack leads to `x`.
  abbrev LeadTo : String → List String → Type 0
  LeadTo x = All (λ v. Chain tasks v x)

  abbrev Finds : Visitor → Type 0
  Finds f =
      (x : String) (m : Marks) (e : Error)
      → f x m ≡ some (err e)
      → Known x
      → LeadTo x m.visiting
      → Cycle e

  visit_each-Finds :
      (f : Visitor)
      → Restores f
      → Finds f
      → (xs : List String) (m : Marks) (e : Error) → visit_each f xs m ≡ some (err e)
      → All (λ x. Known x × LeadTo x m.visiting) xs
      → Cycle e
  unfolding visit_each
  visit_each-Finds f r g [] m e h l = absurd (cc)
  visit_each-Finds f r g (x ∷ xs) m e h l = elim (and_then-err (f x m) (visit_each f xs) h) [
    | inl first ↦ g x m e first l.0.0 l.0.1
    | inr (k, went, later) ↦ visit_each-Finds f r g xs k e later (rw (r x m k went) l.1)
  ]

  lead-on : (x b : String) (v : List String) → Edge tasks x b → LeadTo x v → LeadTo b v
  lead-on x b [] e l = tt
  lead-on x b (y ∷ v) e l = (more l.0 e, lead-on x b v e l.1)

  deps-lead :
      (x : String) (t : Task) (v : List String) (bs : List String)
      → Dict.get d x ≡ some t
      → ((b : String) → In b bs → In b t.dependency_ids)
      → LeadTo x v
      → All (λ b. Known b × LeadTo b (x ∷ v)) bs
  deps-lead x t v [] found sub l = tt
  deps-lead x t v (b ∷ bs) found sub l =
      let (listed, named) = sound x t found in
      let e : Edge tasks x b = record {
        task = t;
        listed = listed;
        named = named;
        depends = sub b (head refl);
      } in
      (
        (closed x b t found (sub b (head refl)), (one e, lead-on x b v e l)),
        deps-lead x t v bs found (λ c i. sub c (tail i)) l,
      )

  visit-Finds : (n : ℕ) → Finds (visit d n)
  unfolding visit
  visit-Finds zero x m e h known l = absurd (cc)
  visit-Finds (suc n) x m e h known l = elim (Bool-cases (mem x m.visiting)) [
    | inl busy ↦
        ((x, All-In (λ v. Chain tasks v x) (mem-In x m.visiting busy) l), cc (rw busy at h))
    | inr free ↦ elim (Bool-cases (mem x m.visited)) [
      | inl done ↦ absurd (cc (rw (free, done) at h))
      | inr fresh ↦
          let (t, found) = known in
          elim (and_then-err (visit_each (visit d n) t.dependency_ids (enter x m)) _
            (rw (free, fresh, found) at h)) [
              | inl inner ↦
                  visit_each-Finds (visit d n) (visit-Restores d n) (visit-Finds n) t.dependency_ids
                    (enter x m) e inner
                    (deps-lead x t m.visiting t.dependency_ids found (λ b i. i) l)
              | inr (k, went, later) ↦ absurd (cc)
            ]
    ]
  ]

  -- The search over all keys.
  pub search-finds :
      (n : ℕ) (xs : List String) (m : Marks) (e : Error)
      → visit_each (visit d n) xs m ≡ some (err e)
      → All Known xs
      → m.visiting ≡ []
      → Cycle e
  search-finds n xs m e h known empty =
      visit_each-Finds (visit d n) (visit-Restores d n) (visit-Finds n) xs m e h
        (rw empty (all_known xs known))
    where
      all_known : (ys : List String) → All Known ys → All (λ x. Known x × Unit {0}) ys
      all_known [] h = tt
      all_known (y ∷ ys) h = ((h.0, tt), all_known ys h.1)
