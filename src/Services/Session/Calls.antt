-- ===== src/Services/Session/Calls.antt =====
-- What the calls of `AuthorizedProjectRepository` (app/repositories/membership.py) did when they
-- returned.
use ogaforeman.Base.{◌≡◌, sym, ap, ◌∙◌, String, Option, some, ℕ, arith, ok}
use ogaforeman.Base.Exec.{lift, >>=-eq-ok}
use ogaforeman.Domain.Authorization.{ProjectAccessContext}
use ogaforeman.Repositories.Memory.{Entity, Repo, get, require}
use ogaforeman.Repositories.Memory.Guards.{Saved, Created, save-ok, create-ok}
use ogaforeman.Services.Session.{
  authorize_read, authorize_mutation, require_authorized, save_authorized, create_authorized,
}

module _ {A : Type 0} (access : ProjectAccessContext) where
  -- What the authorized reads and writes did when they returned.
  pub require_authorized-ok :
      (p e : String) (repo : Repo A) (a : A)
      → (require_authorized access p e repo).0 ≡ ok a
      → get repo p e ≡ some a
  unfolding require_authorized require
  require_authorized-ok p e repo a h =
      let (_, _, read) = >>=-eq-ok (lift (authorize_read access p)) _ repo h in
      let found : (require p e repo).0 ≡ ok a = ap (λ p. p.0) (sym read) ∙ h in
      ground (arith, found)

  -- A read leaves the records alone.
  pub require_authorized-keeps :
      (p e : String) (repo : Repo A) → (require_authorized access p e repo).1 ≡ repo
  unfolding require_authorized require
  require_authorized-keeps p e repo = ground arith

  pub save_authorized-ok :
      (entity : Entity A) (a : A) (expected : Option ℕ) (repo : Repo A) (b : A)
      → (save_authorized access entity a expected repo).0 ≡ ok b
      → Saved entity a expected repo (save_authorized access entity a expected repo).1 b
  unfolding save_authorized
  save_authorized-ok entity a expected repo b h =
      let (_, _, written) =
        >>=-eq-ok (lift (authorize_mutation access (entity.project_id a))) _ repo h in
      rw written (save-ok entity a expected repo b (ap (λ p. p.0) (sym written) ∙ h))

  pub create_authorized-ok :
      (entity : Entity A) (a : A) (repo : Repo A) (b : A)
      → (create_authorized access entity a repo).0 ≡ ok b
      → Created entity a repo (create_authorized access entity a repo).1 b
  unfolding create_authorized
  create_authorized-ok entity a repo b h =
      let (_, _, written) =
        >>=-eq-ok (lift (authorize_mutation access (entity.project_id a))) _ repo h in
      rw written (create-ok entity a repo b (ap (λ p. p.0) (sym written) ∙ h))
