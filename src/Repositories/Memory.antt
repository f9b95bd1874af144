-- ===== src/Repositories/Memory.antt =====
-- app/repositories/memory.py: the in-memory repository with optimistic versions. Each project
-- has a partition of records, an entity with the version of its record.
pub mod Find
pub mod Versions
pub mod Guards
pub mod Transactions
pub mod Refinement
use Prim.Native.Nat.{Ordering}
use Prim.Native.String.{compare as str_compare}
use ogaforeman.Base.{
  ℕ, suc, ◌+◌, ◌≡◌, String, Bool, true, false, ◌&&◌, not, Option, none, some, List, [], ◌∷◌, map,
  ◌==◌, if◌then◌else◌, Result, ok, err, ◌>>=◌, ◌>>◌, raise_if, entity_not_found,
  entity_already_exists, version_conflict, length,
}
use ogaforeman.Base.Dict
use ogaforeman.Base.Dict.{Dict}
use ogaforeman.Base.Exec.{Exec, settle}

-- What a repository uses of its entity class: the identifying fields, whether the class has a
-- field `version`, and pydantic's `model_validate`, which strips the free texts of the value
-- (`strip`) and then checks it (`validate`). The ids and the texts with a pattern admit no blanks,
-- and are taken as a constructor left them.
pub record Entity {ℓ} (A : Type ℓ) : Type ℓ where
  pub project_id : A → String
  pub id : A → String
  pub has_version : Bool
  pub version : A → ℕ
  pub with_version : A → ℕ → A
  pub strip : A → A
  pub validate : A → Result (Unit {0})
  pub version-with_version : (a : A) (n : ℕ) → has_version ≡ true → version (with_version a n) ≡ n

-- for the law of an entity class without a field `version`
pub no_version {ℓ} : {P : Type ℓ} → false ≡ true → P
no_version h = absurd (cc)

pub record Repo {ℓ} (A : Type ℓ) : Type ℓ where
  pub records : Dict (Dict (A × ℕ))

-- `_require_expected_version`
unfoldable pub require_expected_version : Option ℕ → ℕ → Result (Unit {0})
require_expected_version none current = err version_conflict
require_expected_version (some expected) current =
    raise_if (not (expected == current)) version_conflict

module _ {ℓ} {A : Type ℓ} where
  abbrev pub empty : Repo A
  empty = record { records = [] }

  -- `self._records.get(project_id, {})`
  unfoldable pub partition : Repo A → String → Dict (A × ℕ)
  partition repo p = elim (Dict.get repo.records p) [ none ↦ [] | some d ↦ d ]

  -- `self._records.get(project_id, {}).get(entity_id)`
  unfoldable pub find : Repo A → String → String → Option (A × ℕ)
  unfolding partition
  find repo p e = Dict.get (partition repo p) e

  -- `self._records.setdefault(project_id, {})`
  unfoldable pub setdefault : String → Repo A → Repo A
  setdefault p repo = elim (Dict.get repo.records p) [
    | none ↦ record { records = Dict.put repo.records p [] }
    | some _ ↦ repo
  ]

  -- `project_records[entity_id] = (entity, version)`
  unfoldable pub write : String → String → A × ℕ → Repo A → Repo A
  unfolding partition
  write p e v repo = record { records = Dict.put repo.records p (Dict.put (partition repo p) e v) }

  -- `del project_records[entity_id]`, and the partition goes when it is empty
  unfoldable pub erase : String → String → Repo A → Repo A
  unfolding partition
  erase p e repo =
      let rest = Dict.remove (partition repo p) e in
      record {
        records =
            if length rest == 0 then Dict.remove repo.records p else Dict.put repo.records p rest;
      }

  abbrev pub entity_of : Option (A × ℕ) → Option A
  entity_of none = none
  entity_of (some (a, v)) = some a

  unfoldable pub get : Repo A → String → String → Option A
  get repo p e = entity_of (find repo p e)

  unfoldable pub place : String × (A × ℕ) → Dict (A × ℕ) → Dict (A × ℕ)
  place entry [] = entry ∷ []
  place entry (first ∷ rest) = elim (str_compare entry.0 first.0) [
    | Ordering.gt ↦ first ∷ place entry rest
    | _ ↦ entry ∷ first ∷ rest
  ]

  -- `sorted(records)`, with the records
  unfoldable pub sorted : Dict (A × ℕ) → Dict (A × ℕ)
  unfolding place
  sorted [] = []
  sorted (entry ∷ rest) = place entry (sorted rest)

  unfoldable pub list : Repo A → String → List A
  unfolding partition sorted
  list repo p = map (λ entry. entry.1.0) (sorted (partition repo p))

  unfoldable pub require : String → String → Exec (Repo A) A
  unfolding get
  require p e repo = elim (get repo p e) [
    | none ↦ (err entity_not_found, repo)
    | some a ↦ (ok a, repo)
  ]

  unfoldable pub version_of : Repo A → String → String → Option ℕ
  version_of repo p e = elim (find repo p e) [ none ↦ none | some (a, v) ↦ some v ]

  unfoldable pub delete : String → String → Option ℕ → Exec (Repo A) (Unit {0})
  unfolding require_expected_version
  delete p e expected repo = elim (find repo p e) [
    | none ↦ (err entity_not_found, repo)
    | some (a, current) ↦ elim (require_expected_version expected current) [
      | err x ↦ (err x, repo)
      | ok _ ↦ (ok tt, erase p e repo)
    ]
  ]

module _ {ℓ} {A : Type ℓ} (entity : Entity A) where
  open entity use {project_id, id, has_version, version, with_version, strip, validate}

  -- `_validate_for_create`
  unfoldable pub validate_for_create : A → Result (Unit {0})
  validate_for_create a = do
    validate (strip a)
    raise_if (has_version && not (version (strip a) == 0)) version_conflict

  -- what `_validate_with_version` makes of the entity
  unfoldable pub at_version : A → ℕ → A
  at_version a n = if has_version then with_version (strip a) n else strip a

  -- The checks of `create`, given what stands under the key.
  unfoldable pub admit : A → Option (A × ℕ) → Result (Unit {0})
  unfolding validate_for_create
  admit a (some _) = err entity_already_exists
  admit a none = validate_for_create a

  -- The last lines of `create`, when the checks have answered.
  abbrev pub settle_create : A → Repo A → Result (Unit {0}) → Result A × Repo A
  settle_create a repo (err x) = (err x, repo)
  settle_create a repo (ok _) = (ok (strip a), write (project_id a) (id a) (strip a, 0) repo)

  unfoldable pub create : A → Exec (Repo A) A
  unfolding admit
  create a repo =
      let reserved = setdefault (project_id a) repo in
      settle_create a reserved (admit a (find reserved (project_id a) (id a)))

  -- The checks of `save`: the entity and the version that the new record gets.
  unfoldable pub accept : A → Option ℕ → Option (A × ℕ) → Result (A × ℕ)
  unfolding require_expected_version at_version
  accept a expected none = err entity_not_found
  accept a expected (some (old, current)) = do
    require_expected_version expected current
    validate (at_version a (current + 1))
    ok (at_version a (current + 1), current + 1)

  -- The last lines of `save`, when the checks have answered.
  abbrev pub settle_save : A → Repo A → Result (A × ℕ) → Result A × Repo A
  settle_save a repo (err x) = (err x, repo)
  settle_save a repo (ok (next, n)) = (ok next, write (project_id a) (id a) (next, n) repo)

  unfoldable pub save : A → Option ℕ → Exec (Repo A) A
  unfolding accept
  save a expected repo = settle_save a repo (accept a expected (find repo (project_id a) (id a)))

-- `run_transaction` of a repository or of a store: an exception restores the snapshot.
unfoldable pub run_transaction {ℓ κ} : {S : Type ℓ} {A : Type κ} → Exec S A → Exec S A
run_transaction operation s = let (r, s') = operation s in settle s r s'
