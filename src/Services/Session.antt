-- ===== src/Services/Session.antt =====
-- A transaction over several repositories (`InMemoryRepositoryStore` of app/repositories/memory.py),
-- and `AuthorizedProjectRepository` of app/repositories/membership.py.
pub mod Scope
pub mod Calls
use ogaforeman.Base.{ℕ, String, Option, List, Result, ok, ◌>>◌ as then_check}
use ogaforeman.Base.Exec.{Exec, lift, ◌>>◌}
use ogaforeman.Domain.Authorization.{
  ProjectAccessContext, ProjectPermission, ProjectMember, ensure_permission, ensure_project_scope,
}
use ogaforeman.Domain.Task.{Task}
use ogaforeman.Domain.Activity.{ActivityEvent}
use ogaforeman.Domain.Issue.{Issue}
use ogaforeman.Domain.Material.{Material, MaterialRequest, MaterialLedgerEntry}
use ogaforeman.Domain.Records.{ConversationProposalClaim}
use ogaforeman.Domain.Outbox.{OutboxMessage}
use ogaforeman.Domain.Approval.{Approval}
use ogaforeman.Domain.AgentRun.{AgentRun}
use ogaforeman.Repositories.Memory.{Entity, Repo, require, create, save, list, version_of}

-- The repositories of the modelled services, one for each entity class.
pub record Session : Type 0 where
  pub tasks : Repo Task
  pub members : Repo ProjectMember
  pub issues : Repo Issue
  pub materials : Repo Material
  pub requests : Repo MaterialRequest
  pub ledger : Repo MaterialLedgerEntry
  pub activities : Repo ActivityEvent
  pub proposal_claims : Repo ConversationProposalClaim
  pub outbox : Repo OutboxMessage
  pub approvals : Repo Approval
  pub runs : Repo AgentRun

-- An operation of one repository of the session, given the session with that repository replaced.
abbrev pub within :
    {A B : Type 0}
    → (Session → Repo A)
    → (Session → Repo A → Session)
    → Exec (Repo A) B
    → Exec Session B
within part with_part m s = let (r, repo) = m (part s) in (r, with_part s repo)

abbrev pub on_tasks : {B : Type 0} → Exec (Repo Task) B → Exec Session B
on_tasks = within (λ s. s.tasks) (λ s repo. record s { tasks = repo })

abbrev pub on_issues : {B : Type 0} → Exec (Repo Issue) B → Exec Session B
on_issues = within (λ s. s.issues) (λ s repo. record s { issues = repo })

abbrev pub on_materials : {B : Type 0} → Exec (Repo Material) B → Exec Session B
on_materials = within (λ s. s.materials) (λ s repo. record s { materials = repo })

abbrev pub on_requests : {B : Type 0} → Exec (Repo MaterialRequest) B → Exec Session B
on_requests = within (λ s. s.requests) (λ s repo. record s { requests = repo })

abbrev pub on_ledger : {B : Type 0} → Exec (Repo MaterialLedgerEntry) B → Exec Session B
on_ledger = within (λ s. s.ledger) (λ s repo. record s { ledger = repo })

abbrev pub on_activities : {B : Type 0} → Exec (Repo ActivityEvent) B → Exec Session B
on_activities = within (λ s. s.activities) (λ s repo. record s { activities = repo })

abbrev pub on_outbox : {B : Type 0} → Exec (Repo OutboxMessage) B → Exec Session B
on_outbox = within (λ s. s.outbox) (λ s repo. record s { outbox = repo })

abbrev pub on_approvals : {B : Type 0} → Exec (Repo Approval) B → Exec Session B
on_approvals = within (λ s. s.approvals) (λ s repo. record s { approvals = repo })

-- To read the repositories of a session changes nothing.
abbrev pub read_session : {A : Type 0} → (Session → A) → Exec Session A
read_session f s = (ok (f s), s)

module _ (access : ProjectAccessContext) where
  unfoldable pub authorize_read : String → Result (Unit {0})
  authorize_read project_id =
      then_check (ensure_project_scope access project_id)
        (ensure_permission access ProjectPermission.read)

  -- with the mutation permission `operate`, which every service repository is given
  unfoldable pub authorize_mutation : String → Result (Unit {0})
  authorize_mutation project_id =
      then_check (ensure_project_scope access project_id)
        (ensure_permission access ProjectPermission.operate)

  module _ {A : Type 0} where
    unfoldable pub require_authorized : String → String → Exec (Repo A) A
    unfolding authorize_read
    require_authorized project_id entity_id = do
      lift (authorize_read project_id)
      require project_id entity_id

    -- `version_of`
    unfoldable pub version_authorized : String → String → Exec (Repo A) (Option ℕ)
    unfolding authorize_read
    version_authorized project_id entity_id = do
      lift (authorize_read project_id)
      (λ repo. (ok (version_of repo project_id entity_id), repo))

    unfoldable pub list_authorized : String → Exec (Repo A) (List A)
    unfolding authorize_read
    list_authorized project_id = do
      lift (authorize_read project_id)
      (λ repo. (ok (list repo project_id), repo))

    unfoldable pub create_authorized : Entity A → A → Exec (Repo A) A
    unfolding authorize_mutation
    create_authorized entity a = do lift (authorize_mutation (entity.project_id a)); create entity a

    unfoldable pub save_authorized : Entity A → A → Option ℕ → Exec (Repo A) A
    unfolding authorize_mutation
    save_authorized entity a expected = do
      lift (authorize_mutation (entity.project_id a))
      save entity a expected
