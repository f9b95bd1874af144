-- ===== src/Base/Exec.antt =====
-- Methods that change an object and may raise: the state comes back beside the error too.
use mathlib.Core.Path.{◌≡◌, refl, ap, ◌∙◌, subst}
use ogaforeman.Base.Results.{Error, Result, ok, err}

abbrev pub Exec {ℓ κ} : Type ℓ → Type κ → Type (ℓ ⊔ κ)
Exec S A = S → Result A × S

module _ {ℓ κ} {S : Type ℓ} {A : Type κ} where
  abbrev pub pure : A → Exec S A
  pure a s = (ok a, s)

  abbrev pub raise : Error → Exec S A
  raise e s = (err e, s)

  abbrev pub lift : Result A → Exec S A
  lift r s = (r, s)

  -- `with store.transaction(): ...`: an exception brings the snapshot back.
  abbrev pub settle : S → Result A → S → Result A × S
  settle snapshot (ok a) s = (ok a, s)
  settle snapshot (err e) s = (err e, snapshot)

module _ {ℓ κ μ} {S : Type ℓ} {A : Type κ} {B : Type μ} where
  abbrev pub resume : Result A → (A → Exec S B) → Exec S B
  resume (ok a) f s = f a s
  resume (err e) f s = (err e, s)

  infixl 5 ◌>>=◌
  abbrev pub ◌>>=◌ : Exec S A → (A → Exec S B) → Exec S B
  ◌>>=◌ m f s = let (r, s') = m s in resume r f s'

infixl 5 ◌>>◌
abbrev pub ◌>>◌ {ℓ μ} : {S : Type ℓ} {B : Type μ} → Exec S (Unit {0}) → Exec S B → Exec S B
m >> k = m >>= λ _. k

-- To answer with what came back changes nothing.
pub resume-pure {ℓ κ} :
    {S : Type ℓ} {A : Type κ} (p : Result A × S) → p ≡ resume p.0 (λ a. pure a) p.1
resume-pure (ok a, s) = refl
resume-pure (err e, s) = refl

module _ {ℓ κ μ} {S : Type ℓ} {A : Type κ} {B : Type μ} where
  -- A chain that returns returned at its first step, and went on from there.
  pub >>=-eq-ok :
      (m : Exec S A) (f : A → Exec S B) (s : S) {b : B}
      → ((m >>= f) s).0 ≡ ok b
      → (a : A) × ((m s).0 ≡ ok a) × ((m >>= f) s ≡ f a (m s).1)
  >>=-eq-ok m f s {b} = go (m s).0 (m s).1
    where
      go :
          (r : Result A) (t : S)
          → (resume r f t).0 ≡ ok b
          → (a : A) × (r ≡ ok a) × (resume r f t ≡ f a t)
      go (ok a) t h = (a, refl, refl)
      go (err e) t h = absurd (cc)

  -- Both, the result of the rest and the whole chain.
  pub >>=-run :
      (m : Exec S A) (f : A → Exec S B) (s : S) {b : B}
      → ((m >>= f) s).0 ≡ ok b
      → (a : A) × ((m s).0 ≡ ok a) × ((f a (m s).1).0 ≡ ok b) × ((m >>= f) s ≡ f a (m s).1)
  >>=-run m f s {b} = go (m s).0 (m s).1
    where
      go :
          (r : Result A) (t : S)
          → (resume r f t).0 ≡ ok b
          → (a : A) × (r ≡ ok a) × ((f a t).0 ≡ ok b) × (resume r f t ≡ f a t)
      go (ok a) t h = (a, refl, h, refl)
      go (err e) t h = absurd (cc)

  -- The same after a step that leaves the state alone.
  pub >>=-read :
      (m : Exec S A) (f : A → Exec S B) (s : S) {b : B}
      → (m s).1 ≡ s
      → ((m >>= f) s).0 ≡ ok b
      → (a : A) × ((m s).0 ≡ ok a) × ((f a s).0 ≡ ok b) × ((m >>= f) s ≡ f a s)
  >>=-read m f s {b} keeps h =
      let (a, e, rest, whole) = >>=-run m f s h in
      (a, e, subst (λ t. (f a t).0 ≡ ok b) keeps rest, whole ∙ ap (f a) keeps)

  -- The same, of the result alone.
  pub >>=-result :
      (m : Exec S A) (f : A → Exec S B) (s : S) {b : B}
      → ((m >>= f) s).0 ≡ ok b
      → (a : A) × ((m s).0 ≡ ok a) × ((f a (m s).1).0 ≡ ok b)
  >>=-result m f s {b} = go (m s).0 (m s).1
    where
      go :
          (r : Result A) (t : S)
          → (resume r f t).0 ≡ ok b
          → (a : A) × (r ≡ ok a) × ((f a t).0 ≡ ok b)
      go (ok a) t h = (a, refl, h)
      go (err e) t h = absurd (cc)
