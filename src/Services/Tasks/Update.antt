-- ===== src/Services/Tasks/Update.antt =====
-- `_apply_update` of app/services/tasks.py: the rules that an update obeys, and what it makes
-- of a task.
use ogaforeman.Base.{
  ℕ, String, Bool, true, false, ◌&&◌, not, Option, none, some, List, [], all, ltb, leb,
  if◌then◌else◌, Result, ok, err, raise_if, ◌>>◌, task_state, task_approval_required,
  task_blocked_completion, task_dependency_incomplete,
}
use ogaforeman.Base.Dict
use ogaforeman.Base.Dict.{Dict}
use ogaforeman.Domain.Enums.{TaskStatus, ActorType, same_task, same_actor}
use ogaforeman.Domain.Task.{Task, full_percent}
use ogaforeman.Domain.Graph.{index_from}
use ogaforeman.Domain.Transitions.{ensure_task_transition}
use ogaforeman.Domain.Activity.{MutationContext}
use ogaforeman.Services.Tasks.Commands.{UpdateTaskCommand, requests_completion}

-- the dependency is a task of the project
abbrev pub is_known : Dict Task → String → Bool
is_known by_id d = elim (Dict.get by_id d) [ none ↦ false | some t ↦ true ]

-- the dependency is completed
abbrev pub is_complete : Dict Task → String → Bool
is_complete by_id d = elim (Dict.get by_id d) [
  | none ↦ false
  | some t ↦ same_task t.status TaskStatus.completed
]

abbrev is_positive : Option ℕ → Bool
is_positive none = false
is_positive (some p) = ltb 0 p

-- `target_status` after the branches that infer it
unfoldable pub target_of : Task → UpdateTaskCommand → TaskStatus
target_of current c = if requests_completion c then TaskStatus.completed else elim c.target_status [
  | some s ↦ s
  | none ↦
      if is_positive c.completion_percent && same_task current.status TaskStatus.planned
      then TaskStatus.in_progress
      else current.status
]

-- `target_percent`
unfoldable pub percent_of : Task → UpdateTaskCommand → ℕ
unfolding target_of
percent_of current c =
    if same_task (target_of current c) TaskStatus.completed
    then full_percent
    else elim c.completion_percent [ none ↦ current.completion_percent | some p ↦ p ]

-- The checks on the target status.
unfoldable pub check_target : Dict Task → Task → TaskStatus → Result (Unit {0})
check_target by_id current target =
    if same_task target TaskStatus.cancelled
    then err task_approval_required
    else if same_task target TaskStatus.completed
    then if same_task current.status TaskStatus.blocked
      then err task_blocked_completion
      else raise_if (not (all (is_complete by_id) current.dependency_ids))
          task_dependency_incomplete
    else ok tt

-- The checks of a human correction.
unfoldable pub check_correction : UpdateTaskCommand → MutationContext → ℕ → Result (Unit {0})
check_correction c context percent =
    if c.human_correction
    then if not (same_actor context.actor_type ActorType.user)
      then err task_state
      else raise_if (leb full_percent percent) task_state
    else ok tt

-- `except InvalidTransitionError as exc: raise TaskStateError`
abbrev pub as_task_state : Result (Unit {0}) → Result (Unit {0})
as_task_state (ok _) = ok tt
as_task_state (err _) = err task_state

-- The copy that is saved.
unfoldable pub updated_task : Task → UpdateTaskCommand → Task
unfolding target_of percent_of
updated_task current c =
    let target = target_of current c in
    record current {
      status = target;
      completion_percent = percent_of current c;
      actual_start = elim current.actual_start [
        | some t ↦ some t
        | none ↦ if same_task target TaskStatus.in_progress then some c.occurred_at else none
      ];
      actual_completion =
          if same_task target TaskStatus.completed
          then some c.occurred_at
          else if same_task current.status TaskStatus.completed
              && same_task target TaskStatus.in_progress
          then none
          else current.actual_completion;
      updated_at = c.occurred_at;
    }

-- Everything between the reads and the write.
unfoldable pub decide_update : List Task → Task → UpdateTaskCommand → MutationContext → Result Task
unfolding target_of percent_of check_target check_correction updated_task
decide_update tasks current c context = do
  let by_id = index_from [] tasks
  raise_if (not (all (is_known by_id) current.dependency_ids)) task_state
  check_target by_id current (target_of current c)
  check_correction c context (percent_of current c)
  as_task_state (
      ensure_task_transition current.status (target_of current c) c.human_correction
        c.reconciled_completion)
  ok (updated_task current c)
