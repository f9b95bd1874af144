-- ===== src/Services/Tasks/Service.antt =====
-- `TaskService` of app/services/tasks.py: `update_task`, `complete_task` and `update_task_details`,
-- each one mutation with its audit record.
use ogaforeman.Base.{
  Bool, Option, none, some, [], if◌then◌else◌, Result, ok, err, raise_if, task_evidence_rejected,
  runtime_error,
}
use ogaforeman.Base.Exec.{Exec, pure, raise, lift, ◌>>=◌, ◌>>◌}
use ogaforeman.Domain.Enums.{TaskStatus}
use ogaforeman.Domain.Task.{Task}
use ogaforeman.Domain.Activity.{Texts, MutationContext, ActivityEvent}
use ogaforeman.Domain.Authorization.{ProjectAccessContext}
use ogaforeman.Domain.ProcessedEvent.{is_blank}
use ogaforeman.Domain.Records.{task_entity}
use ogaforeman.Repositories.Memory.{get}
use ogaforeman.Services.Access.{authorize, authorize_user}
use ogaforeman.Services.Activity.{Mutation, MutationResult, mutate}
use ogaforeman.Services.Session.{
  Session, on_tasks, require_authorized, list_authorized, save_authorized,
}
use ogaforeman.Services.Tasks.Commands.{
  UpdateTaskCommand, UpdateTaskDetailsCommand, activity_spec, details_activity_spec,
  validate_update, is_status,
}
use ogaforeman.Services.Tasks.Update.{decide_update}
use ogaforeman.Services.Tasks.Details.{decide_details}

pub record TaskChange : Type 0 where
  pub task : Task
  pub activity : ActivityEvent
  pub duplicate : Bool

-- `_validate_evidence`
unfoldable pub validate_evidence : UpdateTaskCommand → Result (Unit {0})
validate_evidence c =
    if c.negated then err task_evidence_rejected else raise_if c.ambiguous task_evidence_rejected

-- `_apply_update`
unfoldable pub apply_update :
    ProjectAccessContext → UpdateTaskCommand → MutationContext → Exec Session Task
apply_update access c context = do
  current ← on_tasks (require_authorized access c.project_id c.task_id)
  tasks ← on_tasks (list_authorized access c.project_id)
  updated ← lift (decide_update tasks current c context)
  on_tasks (save_authorized access task_entity updated (some c.expected_version))

-- `_apply_details`
unfoldable pub apply_details : ProjectAccessContext → UpdateTaskDetailsCommand → Exec Session Task
apply_details access c s =
    (do
      current ← on_tasks (require_authorized access c.project_id c.task_id)
      updated ← lift (decide_details (get s.members c.project_id) current c)
      on_tasks (save_authorized access task_entity updated (some c.expected_version)))
      s

-- The replay: the task as it is now.
unfoldable pub replay_task : ProjectAccessContext → ActivityEvent → Exec Session (Option Task)
replay_task access activity = do
  task ← on_tasks (require_authorized access activity.project_id activity.entity_id)
  pure (some task)

-- A mutation whose value is a task.
abbrev pub task_mutation_of : ProjectAccessContext → Exec Session Task → Mutation Task
task_mutation_of access apply = record {
  apply = apply;
  scope = λ t. some (t.project_id, t.id);
  replay = some (replay_task access);
}

-- the answer of the service
unfoldable pub task_change : MutationResult Task → Result TaskChange
task_change r = elim r.value [
  | none ↦ err runtime_error
  | some task ↦ ok (record { task = task; activity = r.activity; duplicate = r.duplicate })
]

unfoldable pub update_task :
    Texts → ProjectAccessContext → UpdateTaskCommand → MutationContext → Exec Session TaskChange
unfolding apply_update replay_task
update_task x access c context = do
  lift (authorize access c.project_id context)
  lift (validate_evidence c)
  result ←
      mutate (task_mutation_of access (apply_update access c context)) x (some context)
        (activity_spec x c) []
  lift (task_change result)

-- The command with the target status that `complete_task` gives it.
abbrev pub as_completion : UpdateTaskCommand → UpdateTaskCommand
as_completion c = record c { target_status = some TaskStatus.completed }

unfoldable pub complete_task :
    Texts → ProjectAccessContext → UpdateTaskCommand → MutationContext → Exec Session TaskChange
unfolding update_task
complete_task x access c context =
    if is_blank c.evidence
    then raise task_evidence_rejected
    else if is_status c.target_status TaskStatus.completed
    then update_task x access c context
    else do lift (validate_update (as_completion c)); update_task x access (as_completion c) context

unfoldable pub update_task_details :
    Texts
    → ProjectAccessContext
    → UpdateTaskDetailsCommand
    → MutationContext
    → Exec Session TaskChange
unfolding apply_details replay_task
update_task_details x access c context = do
  lift (authorize_user access c.project_id context)
  result ←
      mutate (task_mutation_of access (apply_details access c)) x (some context)
        (details_activity_spec x c) []
  lift (task_change result)
