-- ===== src/Repositories/Memory/Guards.antt =====
-- Optimistic concurrency of app/repositories/memory.py: what `create` and `save` accept, what they
-- write, and what they refuse.
use ogaforeman.Base.{
  ℕ, ◌+◌, ◌≡◌, ◌≢◌, refl, >>=-eq-ok, sym, ◌∙◌, ap, String, ◌&&◌, Option, none, some, arith, eq_refl,
  str_eq, if◌then◌else◌, Result, ok, err, Error, version_conflict, entity_already_exists, ==_iff,
}
use ogaforeman.Repositories.Memory.{
  Entity, Repo, get, entity_of, find, setdefault, write, require_expected_version, at_version,
  accept, settle_save, validate_for_create, admit, settle_create, create, save,
}
use ogaforeman.Repositories.Memory.Find.{get_of_find, find-write, find-setdefault}

module _ {ℓ} {A : Type ℓ} (entity : Entity A) where
  open entity use {project_id, id, strip, validate}

  -- What a save that returns `b` did: the version was the expected one, and `b`, one version up,
  -- is now found under its key; every other key is as before.
  pub record Saved (a : A) (expected : Option ℕ) (repo repo' : Repo A) (b : A) : Type ℓ where
    pub old : A
    pub current : ℕ
    pub was : find repo (project_id a) (id a) ≡ some (old, current)
    pub matched : expected ≡ some current
    pub stored : b ≡ at_version entity a (current + 1)
    pub valid : validate b ≡ ok tt
    pub finds :
        (q f : String)
        → find repo' q f ≡ (
            if str_eq (project_id a) q && str_eq (id a) f
            then some (b, current + 1)
            else find repo q f)

  -- The saved entity is what is found under the key.
  pub Saved-get :
      (a b : A) (expected : Option ℕ) (repo repo' : Repo A)
      → Saved a expected repo repo' b
      → get repo' (project_id a) (id a) ≡ some b
  Saved-get a b expected repo repo' s =
      get_of_find repo' (project_id a) (id a) b (s.current + 1)
        (s.finds (project_id a) (id a) ∙ rw (eq_refl (project_id a), eq_refl (id a)) refl)

  expected-eq :
      (expected : Option ℕ) (current : ℕ)
      → require_expected_version expected current ≡ ok tt
      → expected ≡ some current
  unfolding require_expected_version
  expected-eq expected current h = ground arith

  accept-ok :
      (a : A) (expected : Option ℕ) (found : Option (A × ℕ)) (b : A) (n : ℕ)
      → accept entity a expected found ≡ ok (b, n)
      → (old : A) × (current : ℕ) × (found ≡ some (old, current))
        × (expected ≡ some current)
        × (b ≡ at_version entity a (current + 1))
        × (n ≡ current + 1)
        × (validate b ≡ ok tt)
  unfolding accept
  accept-ok a expected none b n h = absurd (cc)
  accept-ok a expected (some (old, current)) b n h =
      let (_, matched, rest) = >>=-eq-ok (require_expected_version expected current) _ h in
      let (_, valid, done) = >>=-eq-ok (validate (at_version entity a (current + 1))) _ rest in
      (
        old,
        current,
        refl,
        expected-eq expected current matched,
        ground arith,
        ground arith,
        ground arith,
      )

  -- A save returns only when it has replaced the version that the caller expected.
  pub save-ok :
      (a : A) (expected : Option ℕ) (repo : Repo A) (b : A)
      → (save entity a expected repo).0 ≡ ok b
      → Saved a expected repo (save entity a expected repo).1 b
  unfolding save
  save-ok a expected repo b h =
      go (accept entity a expected (find repo (project_id a) (id a))) refl h
    where
      go :
          (r : Result (A × ℕ))
          → accept entity a expected (find repo (project_id a) (id a)) ≡ r
          → (settle_save entity a repo r).0 ≡ ok b
          → Saved a expected repo (settle_save entity a repo r).1 b
      go (err x) e h = absurd (cc)
      go (ok (c, n)) e h =
          let (old, current, was, matched, stored, next, valid) =
            accept-ok a expected (find repo (project_id a) (id a)) c n e in
          let same : c ≡ b = ground arith in
          rw (← same) (record {
            old = old;
            current = current;
            was = was;
            matched = matched;
            stored = stored;
            valid = valid;
            finds = λ q f. rw (find-write, next);
          })

  -- A save that raises changes nothing.
  pub save-err :
      (a : A) (expected : Option ℕ) (repo : Repo A) (x : Error)
      → (save entity a expected repo).0 ≡ err x
      → (save entity a expected repo).1 ≡ repo
  unfolding save
  save-err a expected repo x h = ground arith

  accept_stale :
      (b : A) (old : A) (expected : Option ℕ) (n : ℕ)
      → expected ≢ some n
      → accept entity b expected (some (old, n)) ≡ err version_conflict
  unfolding accept
  accept_stale b old none n h = refl
  accept_stale b old (some m) n h = ground (arith, h)

  -- Of two writers that read the same version, the second is refused and changes nothing.
  pub save-save_conflict :
      (a b a' : A) (expected : Option ℕ) (repo : Repo A)
      → project_id b ≡ project_id a
      → id b ≡ id a
      → (save entity a expected repo).0 ≡ ok a'
      → save entity b expected (save entity a expected repo).1
        ≡ (err version_conflict, (save entity a expected repo).1)
  unfolding save
  save-save_conflict a b a' expected repo same_project same_id h =
      let repo' = (save entity a expected repo).1 in
      let s = save-ok a expected repo a' h in
      let found : find repo' (project_id b) (id b) ≡ some (a', s.current + 1) =
        rw (same_project, same_id)
          (s.finds (project_id a) (id a) ∙ (rw (eq_refl (project_id a), eq_refl (id a)))) in
      ap (settle_save entity b repo') (
        ap (accept entity b expected) found
        ∙ accept_stale b a' expected (s.current + 1) (λ e. ground (arith, s.matched)))

  admitted :
      (a : A) (found : Option (A × ℕ))
      → admit entity a found ≡ ok tt
      → (found ≡ none) × (validate_for_create entity a ≡ ok tt)
  unfolding admit
  admitted a none h = (refl, h)
  admitted a (some v) h = absurd (cc)

  -- What a creation that returns did: its key was free, and now holds the entity, its texts stripped, at version 0.
  pub record Created (a : A) (repo repo' : Repo A) (b : A) : Type ℓ where
    pub free : find repo (project_id a) (id a) ≡ none
    pub same : b ≡ strip a
    pub valid : validate_for_create entity a ≡ ok tt
    pub finds :
        (q f : String)
        → find repo' q f ≡ (
            if str_eq (project_id a) q && str_eq (id a) f then some (strip a, 0) else find repo q f)

  pub Created-get :
      (a b : A) (repo repo' : Repo A)
      → Created a repo repo' b
      → get repo' (project_id a) (id a) ≡ some b
  Created-get a b repo repo' c = get_of_find repo' (project_id a) (id a) b 0 (
      c.finds (project_id a) (id a)
      ∙ rw (eq_refl (project_id a), eq_refl (id a)) (ap (λ e. some (e, 0)) (sym c.same)))

  pub Created-free :
      (a b : A) (repo repo' : Repo A)
      → Created a repo repo' b
      → get repo (project_id a) (id a) ≡ none
  unfolding get
  Created-free a b repo repo' c = ap entity_of c.free

  pub create-ok :
      (a : A) (repo : Repo A) (b : A)
      → (create entity a repo).0 ≡ ok b
      → Created a repo (create entity a repo).1 b
  unfolding create
  create-ok a repo b h = go (admit entity a (find reserved (project_id a) (id a))) refl h
    where
      reserved : Repo A
      reserved = setdefault (project_id a) repo

      go :
          (r : Result (Unit {0}))
          → admit entity a (find reserved (project_id a) (id a)) ≡ r
          → (settle_create entity a reserved r).0 ≡ ok b
          → Created a repo (settle_create entity a reserved r).1 b
      go (err x) e h = absurd (cc)
      go (ok _) e h =
          let (free, valid) = admitted a (find reserved (project_id a) (id a)) e in
          record {
            free = sym (find-setdefault (project_id a) (project_id a) (id a) repo) ∙ free;
            same = ground arith;
            valid = valid;
            finds = λ q f. rw (find-write, find-setdefault);
          }

  -- A creation that raises changes no record.
  pub create-err :
      (a : A) (repo : Repo A) (x : Error) (q f : String)
      → (create entity a repo).0 ≡ err x
      → find (create entity a repo).1 q f ≡ find repo q f
  unfolding create
  create-err a repo x q f h = ground (arith, find-setdefault (project_id a) q f repo)

  -- A key is created once: a second creation under it is refused and changes no record.
  pub create-create_refused :
      (a b a' : A) (repo : Repo A)
      → project_id b ≡ project_id a
      → id b ≡ id a
      → (create entity a repo).0 ≡ ok a'
      → (create entity b (create entity a repo).1).0 ≡ err entity_already_exists
  unfolding create
  create-create_refused a b a' repo same_project same_id h =
      let c = create-ok a repo a' h in
      let repo' = (create entity a repo).1 in
      let found : find (setdefault (project_id b) repo') (project_id b) (id b) ≡ some (strip a, 0) =
        rw (find-setdefault, same_project, same_id)
          (c.finds (project_id a) (id a) ∙ rw (eq_refl (project_id a), eq_refl (id a))) in
      ap (λ r. (settle_create entity b (setdefault (project_id b) repo') r).0)
        (ap (admit entity b) found)

  -- A save that expects the current version, of an entity that is valid one version up, is made.
  pub save_accepted :
      (a old : A) (n : ℕ) (repo : Repo A)
      → find repo (project_id a) (id a) ≡ some (old, n)
      → validate (at_version entity a (n + 1)) ≡ ok tt
      → save entity a (some n) repo ≡ (
        ok (at_version entity a (n + 1)),
        write (project_id a) (id a) (at_version entity a (n + 1), n + 1) repo,
      )
  unfolding save accept require_expected_version
  save_accepted a old n repo found valid = ground (arith, ==_iff n n)

  -- A save of an entity that is not valid raises pydantic's error and changes nothing.
  pub save_invalid :
      (a old : A) (n : ℕ) (repo : Repo A) (x : Error)
      → find repo (project_id a) (id a) ≡ some (old, n)
      → validate (at_version entity a (n + 1)) ≡ err x
      → save entity a (some n) repo ≡ (err x, repo)
  unfolding save accept require_expected_version
  save_invalid a old n repo x found invalid = ground (arith, ==_iff n n)

  pub create_accepted :
      (a : A) (repo : Repo A)
      → find repo (project_id a) (id a) ≡ none
      → validate_for_create entity a ≡ ok tt
      → create entity a repo
        ≡ (ok (strip a), write (project_id a) (id a) (strip a, 0) (setdefault (project_id a) repo))
  unfolding create admit
  create_accepted a repo free valid =
      ground (arith, find-setdefault (project_id a) (project_id a) (id a) repo)
