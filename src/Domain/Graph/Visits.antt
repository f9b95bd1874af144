-- ===== src/Domain/Graph/Visits.antt =====
-- The two outcomes of `visit`, and what the search keeps: the stack is restored, and `visited` is
-- in dependency order.
use ogaforeman.Base.{
  ℕ, suc, ◌≡◌, refl, ◌⊎◌, inl, inr, String, true, false, Option, none, some, ◌∷◌, arith, mem,
  Bool-cases, Option-cases, Result, ok, err,
}
use ogaforeman.Base.Dict
use ogaforeman.Base.Dict.{Dict}
use ogaforeman.Domain.Task.{Task}
use ogaforeman.Domain.Graph.{Marks, and_then, discard, visit_each, visit}

pub and_then-ok {ℓ κ} :
    {A : Type ℓ} {B : Type κ} (r : Option (Result A)) (next : A → Option (Result B)) {b : B}
    → and_then r next ≡ some (ok b)
    → (a : A) × (r ≡ some (ok a)) × (next a ≡ some (ok b))
and_then-ok none next h = absurd (cc)
and_then-ok (some (err e)) next h = absurd (cc)
and_then-ok (some (ok a)) next h = (a, refl, h)

abbrev pub enter : String → Marks → Marks
enter x m = record m { visiting = x ∷ m.visiting }

abbrev pub left : String → Marks → Marks
left x m = record { visiting = discard x m.visiting; visited = x ∷ m.visited }

module _ (d : Dict Task) where
  -- The search went through the dependencies of `x` and reached the marks `k`.
  pub record Entered (n : ℕ) (x : String) (m k : Marks) : Type 0 where
    pub task : Task
    pub found : Dict.get d x ≡ some task
    pub searched : visit_each (visit d n) task.dependency_ids (enter x m) ≡ some (ok k)

  pub visit-ok :
      (n : ℕ) (x : String) (m m' : Marks)
      → visit d (suc n) x m ≡ some (ok m')
      → (mem x m.visiting ≡ false)
        × ((mem x m.visited ≡ true) × (m' ≡ m) ⊎ ((k : Marks) × Entered n x m k × (m' ≡ left x k)))
  unfolding visit
  visit-ok n x m m' h = elim (Bool-cases (mem x m.visiting)) [
    | inl busy ↦ absurd (ground arith)
    | inr free ↦ elim (Bool-cases (mem x m.visited)) [
      | inl done ↦ (free, inl (done, ground arith))
      | inr fresh ↦ elim (Option-cases (Dict.get d x)) [
        | inl missing ↦ absurd (cc (rw (free, fresh, missing) at h))
        | inr (t, found) ↦
            let (k, searched, left) =
              and_then-ok (visit_each (visit d n) t.dependency_ids (enter x m)) _
                (rw (free, fresh, found) at h) in
            (free, inr (k, record { task = t; found = found; searched = searched }, ground arith))
      ]
    ]
  ]
