-- ===== src/Examples/Policies.antt =====
-- app/domain/policies.py at concrete inputs.
use ogaforeman.Base.{
  ◌≡◌, ◌↔◌, ◌⊎◌, refl, String, false, none, some, List, [], ◌∷◌, ok, err, value_error, In,
}
use ogaforeman.Base.Dict
use ogaforeman.Domain.Enums.{TaskStatus, TaskPriority, TaskSource, MaterialRequestStatus}
use ogaforeman.Domain.Task.{Task}
use ogaforeman.Domain.Transitions.{ensure_task_transition, ensure_material_request_transition}
use ogaforeman.Domain.Transitions.Runs.{
  ordered_needs_approval, completed_needs_progress, closed_run, final, IsRun, ordinary,
}
use ogaforeman.Domain.Graph.{validate_task_dependency_graph, visit, visit_each, index_from, discard}
use ogaforeman.Domain.Graph.Chains.{IsDependencyGraph}
use ogaforeman.Domain.Graph.Exact.{validate_exact, validate_answers}

abbrev task : String → List String → Task
task id dependency_ids = record {
  id = id;
  project_id = "prj_1";
  title = "Pour the slab";
  description = none;
  status = TaskStatus.planned;
  priority = TaskPriority.medium;
  assigned_to = none;
  phase_id = none;
  trade = none;
  location = none;
  planned_start = none;
  planned_end = none;
  actual_start = none;
  actual_completion = none;
  dependency_ids = dependency_ids;
  is_milestone = false;
  source_refs = [];
  notes = [];
  completion_percent = 0;
  source = TaskSource.manual;
  version = 0;
  created_at = 0;
  updated_at = 0;
}

-- A task after two others, one of which follows the other.
abbrev diamond : List Task
diamond = task "c" ("a" ∷ "b" ∷ []) ∷ task "b" ("a" ∷ []) ∷ task "a" [] ∷ []

abbrev cycle : List Task
cycle = task "a" ("b" ∷ []) ∷ task "b" ("a" ∷ []) ∷ []

diamond-accepted : validate_task_dependency_graph diamond ≡ some (ok tt)
unfolding validate_task_dependency_graph visit visit_each index_from discard Dict.get Dict.put
diamond-accepted = refl

cycle-refused : validate_task_dependency_graph cycle ≡ some (err value_error)
unfolding validate_task_dependency_graph visit visit_each index_from discard Dict.get Dict.put
cycle-refused = refl

validate_exact_example :
    (validate_task_dependency_graph diamond ≡ some (ok tt)) ↔ IsDependencyGraph diamond
validate_exact_example = validate_exact diamond

validate_answers_example :
    (validate_task_dependency_graph cycle ≡ some (ok tt))
    ⊎ (validate_task_dependency_graph cycle ≡ some (err value_error))
validate_answers_example = validate_answers cycle

abbrev ordering : List MaterialRequestStatus
ordering =
    MaterialRequestStatus.awaiting_approval ∷ MaterialRequestStatus.approved
    ∷ MaterialRequestStatus.submitted ∷ []

ordering-IsRun : IsRun ensure_material_request_transition MaterialRequestStatus.proposed ordering
unfolding ensure_material_request_transition
ordering-IsRun = (refl, (refl, (refl, tt)))

ordered_needs_approval_example : In MaterialRequestStatus.approved ordering
ordered_needs_approval_example = ordered_needs_approval ordering ordering-IsRun refl

abbrev working : List TaskStatus
working = TaskStatus.planned ∷ TaskStatus.in_progress ∷ TaskStatus.completed ∷ []

working-IsRun : IsRun ordinary TaskStatus.proposed working
unfolding ensure_task_transition
working-IsRun = (refl, (refl, (refl, tt)))

completed_needs_progress_example : In TaskStatus.in_progress working
completed_needs_progress_example = completed_needs_progress working working-IsRun refl

closed-IsRun : IsRun ordinary TaskStatus.completed (TaskStatus.completed ∷ [])
unfolding ensure_task_transition
closed-IsRun = (refl, tt)

closed_run_example : final TaskStatus.completed (TaskStatus.completed ∷ []) ≡ TaskStatus.completed
closed_run_example = closed_run TaskStatus.completed (TaskStatus.completed ∷ []) refl closed-IsRun
