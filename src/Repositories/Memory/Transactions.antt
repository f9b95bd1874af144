-- ===== src/Repositories/Memory/Transactions.antt =====
-- `run_transaction` of app/repositories/memory.py around the writes of a repository.
use ogaforeman.Base.{ℕ, ◌≡◌, refl, ap, ◌⊎◌, inl, inr, Option, Result, ok, err, Error, Result-cases}
use ogaforeman.Base.Exec.{Exec, pure, ◌>>=◌, settle}
use ogaforeman.Repositories.Memory.{Entity, Repo, create, save, run_transaction}
use ogaforeman.Repositories.Memory.Guards.{Saved, Created, save-ok, create-ok}

module _ {ℓ κ} {S : Type ℓ} {A : Type κ} where
  -- A transaction depends only on what its operation does to the state at hand.
  pub run_transaction_at :
      (m n : Exec S A) (s : S) → m s ≡ n s → run_transaction m s ≡ run_transaction n s
  unfolding run_transaction
  run_transaction_at m n s e = ap (λ (p : Result A × S). settle s p.0 p.1) e

  -- A transaction that raises leaves the state as it was.
  pub run_transaction-err :
      (m : Exec S A) (s : S) (x : Error)
      → (run_transaction m s).0 ≡ err x
      → (run_transaction m s).1 ≡ s
  unfolding run_transaction
  run_transaction-err m s x h = go (m s).0 h
    where
      go : (r : Result A) → (settle s r (m s).1).0 ≡ err x → (settle s r (m s).1).1 ≡ s
      go (ok a) h = absurd (cc)
      go (err y) h = refl

  pub run_transaction-ok :
      (m : Exec S A) (s : S) (a : A) → (m s).0 ≡ ok a → (run_transaction m s).0 ≡ ok a
  unfolding run_transaction
  run_transaction-ok m s a h = go (m s).0 h
    where
      go : (r : Result A) → r ≡ ok a → (settle s r (m s).1).0 ≡ ok a
      go (ok b) h = h
      go (err x) h = absurd (cc)

  -- A transaction that returns is its operation.
  pub run_transaction-done :
      (m : Exec S A) (s : S) (a : A)
      → (run_transaction m s).0 ≡ ok a
      → (run_transaction m s ≡ m s) × ((m s).0 ≡ ok a)
  unfolding run_transaction
  run_transaction-done m s a h = go (m s).0 (m s).1 h
    where
      go : (r : Result A) (t : S) → (settle s r t).0 ≡ ok a → (settle s r t ≡ (r, t)) × (r ≡ ok a)
      go (ok b) t h = (refl, h)
      go (err x) t h = absurd (cc)

  pub run_transaction-same :
      (m : Exec S A) (s : S) (r : Result A) → m s ≡ (r, s) → run_transaction m s ≡ (r, s)
  unfolding run_transaction
  run_transaction-same m s (ok a) h = ap (λ (p : Result A × S). settle s p.0 p.1) h
  run_transaction-same m s (err x) h = ap (λ (p : Result A × S). settle s p.0 p.1) h

module _ {ℓ κ} {A : Type ℓ} {B : Type κ} (entity : Entity A) (f : A → B) where
  abbrev pub saving : A → Option ℕ → Repo A → Result B × Repo A
  saving a expected = run_transaction (save entity a expected >>= λ b. pure (f b))

  abbrev pub creating : A → Repo A → Result B × Repo A
  creating a = run_transaction (create entity a >>= λ b. pure (f b))

  -- A transaction that saves and answers: the save was made, or it raised and nothing changed.
  pub run_transaction-save :
      (a : A) (expected : Option ℕ) (repo : Repo A)
      → ((x : Error) × (saving a expected repo ≡ (err x, repo)))
        ⊎ ((b : A) × ((saving a expected repo).0 ≡ ok (f b))
            × Saved entity a expected repo (saving a expected repo).1 b)
  unfolding run_transaction
  run_transaction-save a expected repo = elim (Result-cases (save entity a expected repo).0) [
    | inr (x, e) ↦ inl (x, rw e)
    | inl (b, e) ↦ inr (b, rw e, rw e (save-ok entity a expected repo b e))
  ]

  pub run_transaction-create :
      (a : A) (repo : Repo A)
      → ((x : Error) × (creating a repo ≡ (err x, repo)))
        ⊎ ((b : A) × ((creating a repo).0 ≡ ok (f b)) × Created entity a repo (creating a repo).1 b)
  unfolding run_transaction
  run_transaction-create a repo = elim (Result-cases (create entity a repo).0) [
    | inr (x, e) ↦ inl (x, rw e)
    | inl (b, e) ↦ inr (b, rw e, rw e (create-ok entity a repo b e))
  ]
