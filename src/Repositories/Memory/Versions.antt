-- ===== src/Repositories/Memory/Versions.antt =====
-- The `version` field of every stored entity is the version of its record.
use ogaforeman.Base.{
  ℕ, ◌+◌, ◌≡◌, refl, sym, ◌∙◌, String, true, Option, some, List, [], ◌∷◌, arith, str_eq,
  if◌then◌else◌, Result, ok, err, >>=-eq-ok, ◌&&◌,
}
use ogaforeman.Base.Dict
use ogaforeman.Repositories.Memory.{
  Entity, Repo, empty, find, at_version, validate_for_create, create, save, delete,
}
use ogaforeman.Repositories.Memory.Find.{find-erase}
use ogaforeman.Repositories.Memory.Guards.{save-ok, save-err, create-ok, create-err}

-- The public operations that write, as a client calls them.
pub data Write {ℓ} (A : Type ℓ) : Type ℓ where
  creates : A → Write A
  saves : A → Option ℕ → Write A
  deletes : String → String → Option ℕ → Write A

module _ {ℓ} {A : Type ℓ} (entity : Entity A) where
  open entity use {project_id, id, has_version, version, strip}

  pub record IsVersioned (repo : Repo A) : Type ℓ where
    pub agrees : (p e : String) (a : A) (n : ℕ) → find repo p e ≡ some (a, n) → version a ≡ n

  -- The store after one call; a call that raises is caught by the client.
  unfoldable pub apply_write : Write A → Repo A → Repo A
  apply_write (creates a) repo = (create entity a repo).1
  apply_write (saves a expected) repo = (save entity a expected repo).1
  apply_write (deletes p e expected) repo = (delete p e expected repo).1

  unfoldable pub run_writes : List (Write A) → Repo A → Repo A
  unfolding apply_write
  run_writes [] repo = repo
  run_writes (w ∷ ws) repo = run_writes ws (apply_write w repo)

  module _ (versioned : has_version ≡ true) where
    new_version : (a : A) → validate_for_create entity a ≡ ok tt → version (strip a) ≡ 0
    unfolding validate_for_create
    new_version a h =
        let (_, _, fresh) = >>=-eq-ok (entity.validate (strip a)) _ h in ground (arith, versioned)

    next_version : (a : A) (n : ℕ) → version (at_version entity a n) ≡ n
    unfolding at_version
    next_version a n = rw versioned (entity.version-with_version (strip a) n versioned)

    wrote-IsVersioned :
        (repo repo' : Repo A) (q f : String) (b : A) (m : ℕ)
        → version b ≡ m
        → ((p e : String)
            → find repo' p e ≡ (if str_eq q p && str_eq f e then some (b, m) else find repo p e))
        → IsVersioned repo
        → IsVersioned repo'
    wrote-IsVersioned repo repo' q f b m same finds v = record {
      agrees = λ p e d n found. ground (arith, finds p e, v.agrees p e d n);
    }

    create-IsVersioned :
        (a : A) (repo : Repo A) → IsVersioned repo → IsVersioned (create entity a repo).1
    create-IsVersioned a repo v = go (create entity a repo).0 refl
      where
        go : (r : Result A) → (create entity a repo).0 ≡ r → IsVersioned (create entity a repo).1
        go (err x) h = record {
          agrees = λ p e b n f. v.agrees p e b n (sym (create-err entity a repo x p e h) ∙ f);
        }
        go (ok b) h =
            let c = create-ok entity a repo b h in
            wrote-IsVersioned repo (create entity a repo).1 (project_id a) (id a) (strip a) 0
              (new_version a c.valid) c.finds v

    save-IsVersioned :
        (a : A) (expected : Option ℕ) (repo : Repo A)
        → IsVersioned repo
        → IsVersioned (save entity a expected repo).1
    save-IsVersioned a expected repo v = go (save entity a expected repo).0 refl
      where
        go :
            (r : Result A)
            → (save entity a expected repo).0 ≡ r
            → IsVersioned (save entity a expected repo).1
        go (err x) h = rw (save-err entity a expected repo x h) v
        go (ok b) h =
            let c = save-ok entity a expected repo b h in
            wrote-IsVersioned repo (save entity a expected repo).1 (project_id a) (id a) b
              (c.current + 1) (rw c.stored (next_version a (c.current + 1))) c.finds v

    delete-IsVersioned :
        (p e : String) (expected : Option ℕ) (repo : Repo A)
        → IsVersioned repo
        → IsVersioned (delete p e expected repo).1
    unfolding delete
    delete-IsVersioned p e expected repo v = record {
      agrees = λ q f b n found. ground (arith, find-erase p e q f repo, v.agrees q f b n);
    }

    apply_write-IsVersioned :
        (w : Write A) (repo : Repo A) → IsVersioned repo → IsVersioned (apply_write w repo)
    unfolding apply_write
    apply_write-IsVersioned (creates a) repo = create-IsVersioned a repo
    apply_write-IsVersioned (saves a expected) repo = save-IsVersioned a expected repo
    apply_write-IsVersioned (deletes p e expected) repo = delete-IsVersioned p e expected repo

    -- Whatever calls are made on a repository that agrees, refused ones included, the version
    -- field of every stored entity is the version of its record.
    pub run_writes-IsVersioned :
        (ws : List (Write A)) (repo : Repo A) → IsVersioned repo → IsVersioned (run_writes ws repo)
    unfolding run_writes
    run_writes-IsVersioned [] repo v = v
    run_writes-IsVersioned (w ∷ ws) repo v =
        run_writes-IsVersioned ws (apply_write w repo) (apply_write-IsVersioned w repo v)

  pub IsVersioned-empty : IsVersioned empty
  unfolding find Dict.get
  IsVersioned-empty = record { agrees = λ p e a n h. absurd (cc h) }
