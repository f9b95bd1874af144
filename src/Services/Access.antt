-- ===== src/Services/Access.antt =====
-- The checks that the commands of app/services/tasks.py and app/services/materials.py make first.
use ogaforeman.Base.{
  String, Bool, false, ◌&&◌, not, none, some, str_eq, Result, raise_if, ◌>>◌ as check_then,
  permission_error,
}
use ogaforeman.Domain.Enums.{ActorType, same_actor}
use ogaforeman.Domain.Activity.{MutationContext}
use ogaforeman.Domain.Authorization.{
  ProjectAccessContext, ProjectPermission, ensure_permission, ensure_project_scope,
}

-- The actor of the context is the user who has access.
abbrev pub is_own_actor : ProjectAccessContext → MutationContext → Bool
is_own_actor access context = elim context.actor_id [
  | none ↦ false
  | some id ↦ str_eq id access.actor.user_id
]

-- `_authorize` of the services of tasks and of materials, for a command on a project
unfoldable pub authorize : ProjectAccessContext → String → MutationContext → Result (Unit {0})
authorize access project_id context = check_then (ensure_project_scope access project_id) (
    check_then (ensure_project_scope access context.project_id) (
      check_then (ensure_permission access ProjectPermission.operate) (
        raise_if (same_actor context.actor_type ActorType.user && not (is_own_actor access context))
          permission_error)))

-- The checks of `update_task_details` of the tasks, and `_authorize_user_operation` of the materials.
unfoldable pub authorize_user : ProjectAccessContext → String → MutationContext → Result (Unit {0})
authorize_user access project_id context = check_then (ensure_project_scope access project_id) (
    check_then (ensure_project_scope access context.project_id) (
      check_then (ensure_permission access ProjectPermission.operate) (
        raise_if (not (same_actor context.actor_type ActorType.user && is_own_actor access context))
          permission_error)))
