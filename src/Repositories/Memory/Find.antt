-- ===== src/Repositories/Memory/Find.antt =====
-- What a lookup finds after each primitive write of the in-memory repository.
use ogaforeman.Base.{
  ℕ, ◌≡◌, refl, String, true, ◌&&◌, Option, none, some, [], ◌∷◌, arith, eq_iff, str_eq, ◌==◌,
  if◌then◌else◌, length,
}
use ogaforeman.Base.Dict
use ogaforeman.Base.Dict.{Dict, get-put, get-remove, get-empty}
use ogaforeman.Repositories.Memory.{Repo, partition, find, setdefault, write, erase, get, entity_of}

module _ {ℓ} {A : Type ℓ} where
  get-nil : (d : Dict (A × ℕ)) (e : String) → (length d == 0) ≡ true → Dict.get d e ≡ none
  unfolding Dict.get
  get-nil [] e h = refl
  get-nil (x ∷ d) e h = absurd (ground arith)

  pub find-setdefault :
      (p q e : String) (repo : Repo A) → find (setdefault p repo) q e ≡ find repo q e
  unfolding find setdefault Dict.get
  find-setdefault p q e repo = ground (arith, get-put repo.records p q [], eq_iff p q)

  pub find-write :
      (p e q f : String) (v : A × ℕ) (repo : Repo A)
      → find (write p e v repo) q f ≡ (if str_eq p q && str_eq e f then some v else find repo q f)
  unfolding find write
  find-write p e q f v repo = ground (
    arith,
    get-put repo.records p q (Dict.put (partition repo p) e v),
    get-put (partition repo p) e f v,
    eq_iff p q,
  )

  pub find-erase :
      (p e q f : String) (repo : Repo A)
      → find (erase p e repo) q f ≡ (if str_eq p q && str_eq e f then none else find repo q f)
  unfolding find erase
  find-erase p e q f repo =
      let rest = Dict.remove (partition repo p) e in
      ground (
        arith,
        get-remove repo.records p q,
        get-put repo.records p q rest,
        get-remove (partition repo p) e f,
        get-nil rest f,
        get-empty {V = A × ℕ} f,
        eq_iff p q,
        eq_iff e f,
      )

  -- An entity that is read has a record.
  pub get-some :
      (repo : Repo A) (p e : String) (a : A)
      → get repo p e ≡ some a
      → (n : ℕ) × (find repo p e ≡ some (a, n))
  unfolding get
  get-some repo p e a h = go (find repo p e) h
    where
      go : (o : Option (A × ℕ)) → entity_of o ≡ some a → (n : ℕ) × (o ≡ some (a, n))
      go none h = absurd (cc)
      go (some (b, n)) h = (n, ground arith)

  pub get-none : (repo : Repo A) (p e : String) → get repo p e ≡ none → find repo p e ≡ none
  unfolding get
  get-none repo p e h = go (find repo p e) h
    where
      go : (o : Option (A × ℕ)) → entity_of o ≡ none → o ≡ none
      go none h = refl
      go (some (b, n)) h = absurd (cc)

  pub get_of_find :
      (repo : Repo A) (p e : String) (a : A) (n : ℕ)
      → find repo p e ≡ some (a, n)
      → get repo p e ≡ some a
  unfolding get
  get_of_find repo p e a n h = rw h
