-- ===== src/Domain/Graph/Order.antt =====
-- A search that succeeds: the stack is restored, every task comes behind its dependencies in
-- `visited`, and so no dependency chain closes.
use ogaforeman.Base.{
  ℕ, zero, suc, ◌≤◌, ◌<◌, ◌≡◌, refl, sym, ap, ◌∙◌, inl, inr, String, true, false, Option, some,
  List, [], ◌∷◌, arith, eq_iff, str_eq, mem, All, All-In, In, Bool-cases, Result, ok, length,
  if◌then◌else◌,
}
use ogaforeman.Base.Dict
use ogaforeman.Base.Dict.{Dict}
use ogaforeman.Domain.Task.{Task}
use ogaforeman.Domain.Graph.{Marks, discard, visit_each, visit}
use ogaforeman.Domain.Graph.Chains.{Edge, Chain, one, more}
use ogaforeman.Domain.Graph.Visits.{and_then-ok, enter, visit-ok}

discard_absent : (x : String) (v : List String) → mem x v ≡ false → discard x v ≡ v
unfolding discard
discard_absent x [] h = refl
discard_absent x (y ∷ v) h = ground (arith, discard_absent x v)

discard-cons : (x : String) (v : List String) → mem x v ≡ false → discard x (x ∷ v) ≡ v
unfolding discard
discard-cons x v h = ground (arith, eq_iff x x, discard_absent x v)

-- a visit, as the loop over dependencies calls it
abbrev pub Visitor : Type 0
Visitor = String → Marks → Option (Result Marks)

abbrev pub Restores : Visitor → Type 0
Restores f = (x : String) (m m' : Marks) → f x m ≡ some (ok m') → m'.visiting ≡ m.visiting

visit_each-Restores :
    (f : Visitor)
    → Restores f
    → (xs : List String) (m m' : Marks) → visit_each f xs m ≡ some (ok m')
    → m'.visiting ≡ m.visiting
unfolding visit_each
visit_each-Restores f r [] m m' h = ground arith
visit_each-Restores f r (x ∷ xs) m m' h =
    let (k, first, rest) = and_then-ok (f x m) (visit_each f xs) h in
    cc (r x m k first, visit_each-Restores f r xs k m' rest)

pub visit-Restores : (d : Dict Task) (n : ℕ) → Restores (visit d n)
unfolding visit
visit-Restores d zero x m m' h = absurd (cc)
visit-Restores d (suc n) x m m' h =
    let (free, outcome) = visit-ok d n x m m' h in
    elim outcome [
      | inl (done, same) ↦ rw same
      | inr (k, e, same) ↦
          rw
            (
              same,
              visit_each-Restores (visit d n) (visit-Restores d n) e.task.dependency_ids (enter x m)
                  k e.searched,
            )
            (discard-cons x m.visiting free)
    ]

module _ (d : Dict Task) where
  -- Every dependency of `x` is among `rest`.
  abbrev DepsIn : String → List String → Type 0
  DepsIn x rest = (t : Task) → Dict.get d x ≡ some t → All (λ b. mem b rest ≡ true) t.dependency_ids

  -- Latest first, every entry comes behind its dependencies.
  abbrev pub IsOrdered : List String → Type 0
  IsOrdered [] = Unit
  IsOrdered (x ∷ rest) = DepsIn x rest × IsOrdered rest

  abbrev Extends : Marks → Marks → Type 0
  Extends m m' = (y : String) → mem y m.visited ≡ true → mem y m'.visited ≡ true

  abbrev Orders : Visitor → Type 0
  Orders f =
      (x : String) (m m' : Marks)
      → f x m ≡ some (ok m')
      → IsOrdered m.visited
      → IsOrdered m'.visited × (mem x m'.visited ≡ true) × Extends m m'

  All-Extends :
      (xs : List String) (m m' : Marks)
      → Extends m m'
      → All (λ b. mem b m.visited ≡ true) xs
      → All (λ b. mem b m'.visited ≡ true) xs
  All-Extends [] m m' e h = tt
  All-Extends (x ∷ xs) m m' e h = (e x h.0, All-Extends xs m m' e h.1)

  pub visit_each-Orders :
      (f : Visitor)
      → Orders f
      → (xs : List String) (m m' : Marks) → visit_each f xs m ≡ some (ok m')
      → IsOrdered m.visited
      → IsOrdered m'.visited × All (λ b. mem b m'.visited ≡ true) xs × Extends m m'
  unfolding visit_each
  visit_each-Orders f o [] m m' h i =
      let same : m ≡ m' = ground arith in (rw (← same) i, tt, λ y h. rw (← same) h)
  visit_each-Orders f o (x ∷ xs) m m' h i =
      let (k, first, rest) = and_then-ok (f x m) (visit_each f xs) h in
      let (ordered, seen, grows) = o x m k first i in
      let (ordered', all_seen, grows') = visit_each-Orders f o xs k m' rest ordered in
      (ordered', (grows' x seen, all_seen), λ y h. grows' y (grows y h))

  pub visit-Orders : (n : ℕ) → Orders (visit d n)
  unfolding visit
  visit-Orders zero x m m' h i = absurd (cc)
  visit-Orders (suc n) x m m' h i = elim (visit-ok d n x m m' h).1 [
    | inl (done, same) ↦ rw same (i, done, λ y h. h)
    | inr (k, e, same) ↦
        let (ordered, seen, grows) =
          visit_each-Orders (visit d n) (visit-Orders n) e.task.dependency_ids (enter x m) k
            e.searched i in
        rw same (
          (
            λ t found.
                let one_task : t ≡ e.task = ground (arith, found, e.found) in rw one_task seen,
            ordered,
          ),
          ground (arith, eq_iff x x),
          λ y h. ground (arith, grows y h),
        )
  ]

-- The place of the oldest occurrence, counted from the oldest entry.
rank : List String → String → ℕ
rank [] x = 0
rank (y ∷ rest) x = if mem x rest then rank rest x else if str_eq x y then suc (length rest) else 0

rank-le-length : (v : List String) (x : String) → rank v x ≤ length v
unfolding rank
rank-le-length [] x = omega arith
rank-le-length (y ∷ rest) x = ground (arith, rank-le-length rest x)

rank-lt :
    (d : Dict Task) (v : List String) (x b : String) (t : Task)
    → IsOrdered d v
    → mem x v ≡ true
    → Dict.get d x ≡ some t
    → In b t.dependency_ids
    → (rank v b < rank v x) × (mem b v ≡ true)
unfolding rank
rank-lt d [] x b t o m found i = absurd (cc)
rank-lt d (y ∷ rest) x b t o m found i = elim (Bool-cases (mem x rest)) [
  | inl older ↦ ground (arith, rank-lt d rest x b t o.1 older found i)
  | inr newest ↦
      let same : x ≡ y = ground (arith, eq_iff x y) in
      let b_in = All-In (λ c. mem c rest ≡ true) i (o.0 t (rw same at found)) in
      ground (arith, eq_iff x y, rank-le-length rest b)
]

module _ (d : Dict Task) (tasks : List Task)
    (listed : (t : Task) → In t tasks → Dict.get d t.id ≡ some t) (v : List String)
    (ordered : IsOrdered d v) where
  Edge-rank :
      {a b : String} → Edge tasks a b → mem a v ≡ true → (rank v b < rank v a) × (mem b v ≡ true)
  Edge-rank {a} {b} e m =
      rank-lt d v a b e.task ordered m (ap (Dict.get d) (sym e.named) ∙ listed e.task e.listed)
        e.depends

  Chain-rank :
      {a b : String} → Chain tasks a b → mem a v ≡ true → (rank v b < rank v a) × (mem b v ≡ true)
  Chain-rank (one e) m = Edge-rank e m
  Chain-rank (more c e) m =
      let (lower, seen) = Chain-rank c m in
      let (lower', seen') = Edge-rank e seen in (omega arith, seen')

  pub ordered-acyclic : (a : String) → mem a v ≡ true → ¬ Chain tasks a a
  ordered-acyclic a m c = absurd (omega (arith, (Chain-rank c m).0))
