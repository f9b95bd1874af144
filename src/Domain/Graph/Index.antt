-- ===== src/Domain/Graph/Index.antt =====
-- What `tasks_by_id` holds when no two tasks share an id.
use mathlib.Core.Path.{◌≡◌}
use ogaforeman.Base.{
  ◌+◌, ◌≤◌, refl, ◌⊎◌, inl, inr, String, true, false, ◌||◌, some, List, [], ◌∷◌, arith, eq_iff,
  str_eq, length, mem, In, head, tail, distinct, Bool-cases,
}
use ogaforeman.Base.Dict
use ogaforeman.Base.Dict.{Dict, get-put}
use ogaforeman.Domain.Task.{Task}
use ogaforeman.Domain.Graph.{index_from, keys}
use ogaforeman.Domain.Graph.Chains.{ids}

-- A key is present exactly when it has a value.
pub mem-keys :
    (d : Dict Task) (k : String) → mem k (keys d) ≡ true → (t : Task) × (Dict.get d k ≡ some t)
unfolding Dict.get
mem-keys [] k h = absurd (cc)
mem-keys ((j, v) ∷ d) k h = elim (Bool-cases (str_eq j k)) [
  | inl e ↦ (v, rw e)
  | inr e ↦ rw e (mem-keys d k (ground (arith, eq_iff j k, eq_iff k j)))
]

pub keys-mem :
    (d : Dict Task) (k : String) (t : Task) → Dict.get d k ≡ some t → mem k (keys d) ≡ true
unfolding Dict.get
keys-mem [] k t h = absurd (cc)
keys-mem ((j, v) ∷ d) k t h = ground (arith, eq_iff j k, eq_iff k j, keys-mem d k t)

pub length-keys : (d : Dict Task) → length (keys d) ≡ length d
length-keys [] = refl
length-keys (x ∷ d) = omega (arith, length-keys d)

-- Writing a key lengthens the dict exactly when the key is new.
length-put_new :
    (d : Dict Task) (k : String) (t : Task)
    → mem k (keys d) ≡ false
    → length (Dict.put d k t) ≡ length d + 1
unfolding Dict.put
length-put_new [] k t h = omega arith
length-put_new ((j, v) ∷ d) k t h = ground (arith, eq_iff j k, eq_iff k j, length-put_new d k t)

length-put_old :
    (d : Dict Task) (k : String) (t : Task)
    → mem k (keys d) ≡ true
    → length (Dict.put d k t) ≡ length d
unfolding Dict.put
length-put_old [] k t h = absurd (cc)
length-put_old ((j, v) ∷ d) k t h = ground (arith, eq_iff j k, eq_iff k j, length-put_old d k t)

length-put-le : (d : Dict Task) (k : String) (t : Task) → length (Dict.put d k t) ≤ length d + 1
length-put-le d k t = elim (Bool-cases (mem k (keys d))) [
  | inl h ↦ omega (arith, length-put_old d k t h)
  | inr h ↦ omega (arith, length-put_new d k t h)
]

length-index_from-le :
    (d : Dict Task) (ts : List Task) → length (index_from d ts) ≤ length d + length ts
unfolding index_from
length-index_from-le d [] = omega arith
length-index_from-le d (t ∷ ts) =
    omega (arith, length-put-le d t.id t, length-index_from-le (Dict.put d t.id t) ts)

-- No id is written twice, nor one of those that the dict already has.
abbrev pub IsFull : Dict Task → List Task → Type 0
IsFull d ts = length (index_from d ts) ≡ length d + length ts

IsFull-new :
    (d : Dict Task) (t : Task) (ts : List Task) → IsFull d (t ∷ ts) → mem t.id (keys d) ≡ false
unfolding index_from
IsFull-new d t ts h = elim (Bool-cases (mem t.id (keys d))) [
  | inl old ↦
      absurd
        (omega (arith, length-put_old d t.id t old, length-index_from-le (Dict.put d t.id t) ts))
  | inr new ↦ new
]

IsFull-tail :
    (d : Dict Task) (t : Task) (ts : List Task) → IsFull d (t ∷ ts) → IsFull (Dict.put d t.id t) ts
unfolding index_from
IsFull-tail d t ts h = omega (arith, length-put_new d t.id t (IsFull-new d t ts h))

get-index_from_old :
    (d : Dict Task) (ts : List Task) (k : String) (u : Task)
    → IsFull d ts
    → Dict.get d k ≡ some u
    → Dict.get (index_from d ts) k ≡ some u
unfolding index_from
get-index_from_old d [] k u h e = e
get-index_from_old d (t ∷ ts) k u h e =
    get-index_from_old (Dict.put d t.id t) ts k u (IsFull-tail d t ts h)
      (ground (arith, get-put d t.id k t, eq_iff t.id k, IsFull-new d t ts h, keys-mem d k u e))

-- Every task is found under its id.
pub get-index_from :
    (d : Dict Task) (ts : List Task) (t : Task)
    → IsFull d ts
    → In t ts
    → Dict.get (index_from d ts) t.id ≡ some t
unfolding index_from
get-index_from d [] t h i = elim i [ ]
get-index_from d (u ∷ ts) t h (head e) =
    get-index_from_old (Dict.put d u.id u) ts t.id t (IsFull-tail d u ts h)
      (rw e (ground (arith, get-put d t.id t.id t, eq_iff t.id t.id)))
get-index_from d (u ∷ ts) t h (tail i) =
    get-index_from (Dict.put d u.id u) ts t (IsFull-tail d u ts h) i

-- What is found under an id was there before, or is a listed task with that id.
pub index_from-cases :
    (d : Dict Task) (ts : List Task) (k : String) (u : Task)
    → Dict.get (index_from d ts) k ≡ some u
    → (Dict.get d k ≡ some u) ⊎ (In u ts × (u.id ≡ k))
unfolding index_from
index_from-cases d [] k u e = inl e
index_from-cases d (t ∷ ts) k u e = elim (index_from-cases (Dict.put d t.id t) ts k u e) [
  | inr (i, named) ↦ inr (tail i, named)
  | inl old ↦ elim (Bool-cases (str_eq t.id k)) [
    | inl same ↦
        let found = get-put d t.id k t in inr (head (ground arith), ground (arith, eq_iff t.id k))
    | inr other ↦ inl (ground (arith, get-put d t.id k t))
  ]
]

keys-put :
    (d : Dict Task) (k j : String) (t : Task)
    → mem j (keys (Dict.put d k t)) ≡ (str_eq j k || mem j (keys d))
unfolding Dict.put
keys-put [] k j t = refl
keys-put ((i, v) ∷ d) k j t = ground (arith, eq_iff i k, eq_iff j i, eq_iff j k, keys-put d k j t)

pub In-ids : (t : Task) (ts : List Task) → In t ts → mem t.id (ids ts) ≡ true
In-ids t [] i = elim i [ ]
In-ids t (u ∷ ts) (head e) = rw e (ground (arith, eq_iff t.id t.id))
In-ids t (u ∷ ts) (tail i) = ground (arith, In-ids t ts i)

pub ids-In :
    (k : String) (ts : List Task) → mem k (ids ts) ≡ true → (t : Task) × In t ts × (t.id ≡ k)
ids-In k [] h = absurd (cc)
ids-In k (t ∷ ts) h = elim (Bool-cases (str_eq k t.id)) [
  | inl e ↦ (t, head refl, ground (arith, eq_iff k t.id))
  | inr e ↦ let (u, i, named) = ids-In k ts (rw e at h) in (u, tail i, named)
]

IsFull-absent :
    (d : Dict Task) (ts : List Task) (k : String)
    → IsFull d ts
    → mem k (ids ts) ≡ true
    → mem k (keys d) ≡ false
IsFull-absent d [] k h m = absurd (cc)
IsFull-absent d (t ∷ ts) k h m = ground (
  arith,
  eq_iff k t.id,
  IsFull-new d t ts h,
  keys-put d t.id k t,
  IsFull-absent (Dict.put d t.id t) ts k (IsFull-tail d t ts h),
)

pub IsFull-distinct : (d : Dict Task) (ts : List Task) → IsFull d ts → distinct (ids ts) ≡ true
IsFull-distinct d [] h = refl
IsFull-distinct d (t ∷ ts) h = ground (
  arith,
  keys-put d t.id t.id t,
  eq_iff t.id t.id,
  IsFull-absent (Dict.put d t.id t) ts t.id (IsFull-tail d t ts h),
  IsFull-distinct (Dict.put d t.id t) ts (IsFull-tail d t ts h),
)

pub distinct-IsFull :
    (d : Dict Task) (ts : List Task)
    → distinct (ids ts) ≡ true
    → ((k : String) → mem k (ids ts) ≡ true → mem k (keys d) ≡ false)
    → IsFull d ts
unfolding index_from
distinct-IsFull d [] h new = omega arith
distinct-IsFull d (t ∷ ts) h new =
    let fresh : mem t.id (keys d) ≡ false = new t.id (ground (arith, eq_iff t.id t.id)) in
    let rest =
      distinct-IsFull (Dict.put d t.id t) ts (ground arith)
        (λ k m. ground (arith, new k, keys-put d t.id k t, eq_iff k t.id)) in
    omega (arith, rest, length-put_new d t.id t fresh)
