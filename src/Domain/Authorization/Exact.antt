-- ===== src/Domain/Authorization/Exact.antt =====
-- Whom `authorize_project_member` (app/domain/authorization.py) lets in.
use ogaforeman.Base.{◌≡◌, ◌↔◌, String, true, some, arith, eq_iff, ok}
use ogaforeman.Domain.Enums.{MemberStatus}
use ogaforeman.Domain.Authorization.{
  ProjectPermission, AuthenticatedUser, ProjectAccessContext, ProjectMember, grants,
  ensure_permission, is_active, authorize_project_member,
}

-- The membership is an active one of the user in the project, with a role that has the permission.
pub record IsEntitled (actor : AuthenticatedUser) (project_id : String)
    (permission : ProjectPermission) (m : ProjectMember) : Type 0 where
  pub of_project : m.project_id ≡ project_id
  pub of_user : m.user_id ≡ actor.user_id
  pub active : m.status ≡ MemberStatus.active
  pub granted : grants m.role permission ≡ true

abbrev context_of : AuthenticatedUser → String → ProjectMember → ProjectAccessContext
context_of actor project_id m = record { actor = actor; project_id = project_id; role = m.role }

active-eq : (s : MemberStatus) → is_active s ≡ true → s ≡ MemberStatus.active
active-eq s h = ground arith

-- A membership lets its user into a project, with the role of the membership, exactly when it is an
-- active membership of that user in that project whose role has the permission.
pub authorize_exact :
    (actor : AuthenticatedUser) (project_id : String) (m : ProjectMember)
    (permission : ProjectPermission)
    → (authorize_project_member actor project_id (some m) permission
        ≡ ok (record { actor = actor; project_id = project_id; role = m.role }))
      ↔ IsEntitled actor project_id permission m
unfolding authorize_project_member ensure_permission
authorize_exact actor project_id m permission = (
  λ h. record {
    of_project = ground (arith, h, eq_iff m.project_id project_id);
    of_user = ground (arith, h, eq_iff m.user_id actor.user_id);
    active = active-eq m.status (ground (arith, h));
    granted = ground (arith, h);
  },
  λ e. ground (
    arith,
    e.of_project,
    e.of_user,
    e.active,
    e.granted,
    eq_iff m.project_id project_id,
    eq_iff m.user_id actor.user_id,
  ),
)
