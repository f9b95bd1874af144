-- ===== src/Domain/Authorization.antt =====
-- app/domain/authorization.py: project roles, and the checks every command makes first.
pub mod Exact
use ogaforeman.Base.{
  String, Bool, true, false, ◌&&◌, not, Option, none, some, Result, ok, ◌>>◌, raise_if, str_eq,
  project_forbidden, role_required, err, if◌then◌else◌,
}
use ogaforeman.Domain.Enums.{MemberRole, MemberStatus}

pub data ProjectPermission : Type 0 where
  read operate approve manage : ProjectPermission

pub record AuthenticatedUser : Type 0 where
  pub user_id : String
  pub subject : String
  pub email : Option String

pub record ProjectAccessContext : Type 0 where
  pub actor : AuthenticatedUser
  pub project_id : String
  pub role : MemberRole

pub record ProjectMember : Type 0 where
  pub project_id : String
  pub user_id : String
  pub role : MemberRole
  pub status : MemberStatus

-- `permission in _ROLE_PERMISSIONS[role]`
unfoldable pub grants : MemberRole → ProjectPermission → Bool
grants MemberRole.admin _ = true
grants MemberRole.manager ProjectPermission.manage = false
grants MemberRole.manager _ = true
grants MemberRole.foreman ProjectPermission.read = true
grants MemberRole.foreman ProjectPermission.operate = true
grants MemberRole.foreman _ = false
grants MemberRole.viewer ProjectPermission.read = true
grants MemberRole.viewer _ = false

unfoldable pub ensure_permission : ProjectAccessContext → ProjectPermission → Result (Unit {0})
ensure_permission access permission = raise_if (not (grants access.role permission)) role_required

unfoldable pub ensure_project_scope : ProjectAccessContext → String → Result (Unit {0})
ensure_project_scope access project_id =
    raise_if (not (str_eq access.project_id project_id)) project_forbidden

abbrev pub is_active : MemberStatus → Bool
is_active MemberStatus.active = true
is_active _ = false

unfoldable pub authorize_project_member :
    AuthenticatedUser
    → String
    → Option ProjectMember
    → ProjectPermission
    → Result ProjectAccessContext
unfolding ensure_permission
authorize_project_member actor project_id none permission = err project_forbidden
authorize_project_member actor project_id (some membership) permission =
    if str_eq membership.project_id project_id
      && (str_eq membership.user_id actor.user_id && is_active membership.status)
    then (do
      let access : ProjectAccessContext = record {
        actor = actor;
        project_id = project_id;
        role = membership.role;
      }
      ensure_permission access permission
      ok access)
    else err project_forbidden
