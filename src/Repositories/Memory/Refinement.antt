-- ===== src/Repositories/Memory/Refinement.antt =====
-- app/repositories/memory.py as an abstract store: one partial function from keys to versioned
-- entities, changed at one key at a time. Partitions and their order are forgotten.
use mathlib.Core.Path.{fun_ext}
use ogaforeman.Base.{
  ℕ, ◌+◌, ◌≡◌, refl, String, Bool, ◌&&◌, ◌||◌, not, Option, none, some, List, [], ◌∷◌, arith,
  str_eq, ◌==◌, if◌then◌else◌, Result, ok, err, entity_not_found, entity_already_exists,
  version_conflict,
}
use ogaforeman.Repositories.Memory.{
  Entity, Repo, find, setdefault, require_expected_version, at_version, accept, admit,
  validate_for_create, create, save, delete,
}
use ogaforeman.Repositories.Memory.Find.{find-write, find-setdefault, find-erase}
use ogaforeman.Repositories.Memory.Versions.{Write, creates, saves, deletes}

-- What stands under a project and an id.
abbrev pub View {ℓ} : Type ℓ → Type ℓ
View A = String → String → Option (A × ℕ)

module _ {ℓ} {A : Type ℓ} where
  unfoldable pub at_key : String → String → Option (A × ℕ) → View A → View A
  at_key p e v view q f = if str_eq p q && str_eq e f then v else view q f

  answer_of : Result A → Result (Option A)
  answer_of (err x) = err x
  answer_of (ok a) = ok (some a)

  removal_of : Result (Unit {0}) → Result (Option A)
  removal_of (err x) = err x
  removal_of (ok _) = ok none

module _ {ℓ} {A : Type ℓ} (entity : Entity A) where
  open entity use {project_id, id, strip, validate}

  -- One call on the repository: its answer, if it returns an entity, and the repository after it.
  unfoldable pub call : Write A → Repo A → Result (Option A) × Repo A
  unfolding answer_of removal_of
  call (creates a) repo = let (r, repo') = create entity a repo in (answer_of r, repo')
  call (saves a expected) repo =
      let (r, repo') = save entity a expected repo in (answer_of r, repo')
  call (deletes p e expected) repo =
      let (r, repo') = delete p e expected repo in (removal_of r, repo')

  unfoldable pub calls : List (Write A) → Repo A → List (Result (Option A)) × Repo A
  unfolding call
  calls [] repo = ([], repo)
  calls (w ∷ ws) repo =
      let (r, repo') = call w repo in let (rs, last) = calls ws repo' in (r ∷ rs, last)

  -- The specification. The key that a call is about:
  unfoldable pub key_of : Write A → String × String
  key_of (creates a) = (project_id a, id a)
  key_of (saves a expected) = (project_id a, id a)
  key_of (deletes p e expected) = (p, e)

  -- An entity is new only at version 0, if it has versions.
  is_new : A → Bool
  is_new a = not entity.has_version || (entity.version (strip a) == 0)

  -- What a call answers and leaves under its key, given what stands there: a free key is created,
  -- a taken one is changed by the caller who names its version, and only a valid entity
  -- gets in, with its texts stripped.
  unfoldable pub contract : Write A → Option (A × ℕ) → Result (Option A × Option (A × ℕ))
  unfolding is_new
  contract (creates a) (some _) = err entity_already_exists
  contract (creates a) none = elim (validate (strip a)) [
    | err x ↦ err x
    | ok _ ↦ if is_new a then ok (some (strip a), some (strip a, 0)) else err version_conflict
  ]
  contract (saves a expected) none = err entity_not_found
  contract (saves a none) (some _) = err version_conflict
  contract (saves a (some expected)) (some (_, n)) =
      let b = at_version entity a (n + 1) in
      if expected == n
      then (elim (validate b) [ err x ↦ err x | ok _ ↦ ok (some b, some (b, n + 1)) ])
      else err version_conflict
  contract (deletes p e expected) none = err entity_not_found
  contract (deletes p e none) (some _) = err version_conflict
  contract (deletes p e (some expected)) (some (_, n)) =
      if expected == n then ok (none, none) else err version_conflict

  -- A call that is refused changes nothing, one that returns changes its key.
  unfoldable pub enact : Write A → View A → Result (Option A) × View A
  unfolding contract key_of
  enact w view = elim (contract w (view (key_of w).0 (key_of w).1)) [
    | err x ↦ (err x, view)
    | ok (a, v) ↦ (ok a, at_key (key_of w).0 (key_of w).1 v view)
  ]

  unfoldable pub enact_all : List (Write A) → View A → List (Result (Option A)) × View A
  unfolding enact
  enact_all [] view = ([], view)
  enact_all (w ∷ ws) view =
      let (r, view') = enact w view in let (rs, last) = enact_all ws view' in (r ∷ rs, last)

  call-answer : (w : Write A) (repo : Repo A) → (call w repo).0 ≡ (enact w (find repo)).0
  unfolding call answer_of removal_of enact contract key_of is_new create save delete accept admit
      validate_for_create require_expected_version
  call-answer (creates a) repo =
      ground (arith, find-setdefault (project_id a) (project_id a) (id a) repo)
  call-answer (saves a none) repo = ground arith
  call-answer (saves a (some n)) repo = ground arith
  call-answer (deletes p e none) repo = ground arith
  call-answer (deletes p e (some n)) repo = ground arith

  call-view_at :
      (w : Write A) (repo : Repo A) (q f : String)
      → find (call w repo).1 q f ≡ (enact w (find repo)).1 q f
  unfolding call answer_of removal_of enact contract key_of is_new create save delete accept admit
      at_key validate_for_create require_expected_version
  call-view_at (creates a) repo q f = ground (
    arith,
    find-setdefault (project_id a) (project_id a) (id a) repo,
    find-setdefault (project_id a) q f repo,
    find-write (project_id a) (id a) q f (strip a, 0) (setdefault (project_id a) repo),
  )
  call-view_at (saves a none) repo q f = ground arith
  call-view_at (saves a (some n)) repo q f =
      ground (arith, find-write (project_id a) (id a) q f (at_version entity a (n + 1), n + 1) repo)
  call-view_at (deletes p e none) repo q f = ground arith
  call-view_at (deletes p e (some n)) repo q f = ground (arith, find-erase p e q f repo)

  call-view : (w : Write A) (repo : Repo A) → find (call w repo).1 ≡ (enact w (find repo)).1
  call-view w repo = fun_ext λ q. fun_ext λ f. call-view_at w repo q f

  calls-answers :
      (ws : List (Write A)) (repo : Repo A) → (calls ws repo).0 ≡ (enact_all ws (find repo)).0
  unfolding calls enact_all
  calls-answers [] repo = refl
  calls-answers (w ∷ ws) repo =
      rw (calls-answers ws (call w repo).1, call-view w repo, call-answer w repo) refl

  calls-view :
      (ws : List (Write A)) (repo : Repo A) → find (calls ws repo).1 ≡ (enact_all ws (find repo)).1
  unfolding calls enact_all
  calls-view [] repo = refl
  calls-view (w ∷ ws) repo = rw (calls-view ws (call w repo).1, call-view w repo) refl

  -- Whatever calls are made on a repository, its answers and what it then holds are those of the
  -- abstract store, in which a refused call changes nothing and a call that returns changes its key.
  pub calls_refine :
      (ws : List (Write A)) (repo : Repo A)
      → ((calls ws repo).0 ≡ (enact_all ws (find repo)).0)
        × (find (calls ws repo).1 ≡ (enact_all ws (find repo)).1)
  calls_refine ws repo = (calls-answers ws repo, calls-view ws repo)
