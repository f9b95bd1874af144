-- ===== src/Services/Session/Scope.antt =====
-- The writes of `AuthorizedProjectRepository` (app/repositories/membership.py) stay in the project
-- of the access context.
use ogaforeman.Base.{
  ℕ, ◌≡◌, ◌≢◌, refl, ap, inl, inr, String, true, Option, arith, eq_iff, ok, Result-cases,
}
use ogaforeman.Domain.Authorization.{
  ProjectAccessContext, ProjectPermission, ensure_permission, ensure_project_scope, grants,
}
use ogaforeman.Repositories.Memory.{Entity, Repo, find, create, save}
use ogaforeman.Repositories.Memory.Guards.{save-ok, save-err, create-ok, create-err}
use ogaforeman.Services.Session.{authorize_mutation, save_authorized, create_authorized}

-- What a mutation that is let through has shown.
authorize_mutation-ok :
    (access : ProjectAccessContext) (p : String)
    → authorize_mutation access p ≡ ok tt
    → (access.project_id ≡ p) × (grants access.role ProjectPermission.operate ≡ true)
unfolding authorize_mutation ensure_project_scope ensure_permission
authorize_mutation-ok access p h = ground (arith, eq_iff access.project_id p)

module _ {A : Type 0} (access : ProjectAccessContext) (entity : Entity A) (a : A)
    (repo : Repo A) where
  -- Whatever a save through an authorized repository is given and answers, the records of every
  -- project but that of the access context stay as they are.
  pub save_isolated :
      (expected : Option ℕ) (q f : String)
      → q ≢ access.project_id
      → find (save_authorized access entity a expected repo).1 q f ≡ find repo q f
  unfolding save_authorized
  save_isolated expected q f other =
      elim (Result-cases (authorize_mutation access (entity.project_id a))) [
        | inr (e, refused) ↦ rw refused refl
        | inl (_, allowed) ↦
            let (here, _) = authorize_mutation-ok access (entity.project_id a) allowed in
            elim (Result-cases (save entity a expected repo).0) [
              | inl (b, h) ↦ rw allowed (
                  ground (
                    arith,
                    (save-ok entity a expected repo b h).finds q f,
                    here,
                    other,
                    eq_iff (entity.project_id a) q,
                  ))
              | inr (e, h) ↦ rw allowed (ap (λ r. find r q f) (save-err entity a expected repo e h))
            ]
      ]

  -- The same of a creation.
  pub create_isolated :
      (q f : String)
      → q ≢ access.project_id
      → find (create_authorized access entity a repo).1 q f ≡ find repo q f
  unfolding create_authorized
  create_isolated q f other =
      elim (Result-cases (authorize_mutation access (entity.project_id a))) [
        | inr (e, refused) ↦ rw refused refl
        | inl (_, allowed) ↦
            let (here, _) = authorize_mutation-ok access (entity.project_id a) allowed in
            elim (Result-cases (create entity a repo).0) [
              | inl (b, h) ↦ rw allowed (
                  ground (
                    arith,
                    (create-ok entity a repo b h).finds q f,
                    here,
                    other,
                    eq_iff (entity.project_id a) q,
                  ))
              | inr (e, h) ↦ rw allowed (create-err entity a repo e q f h)
            ]
      ]
