-- ===== src/Domain/Transitions.antt =====
-- app/domain/policies.py, lines 1-138: the transition tables of tasks, approvals and material
-- requests, and the functions that enforce them.
pub mod Runs
use ogaforeman.Base.{
  Bool, true, false, ◌&&◌, ◌||◌, not, List, [], ◌∷◌, any, if◌then◌else◌, Result, ok, err, ◌>>◌,
  raise_if, invalid_transition,
}
use ogaforeman.Domain.Enums.{
  TaskStatus, ApprovalStatus, MaterialRequestStatus, same_task, same_approval, same_request,
}

-- `_TASK_TRANSITIONS`
unfoldable pub task_transitions : TaskStatus → List TaskStatus
task_transitions TaskStatus.proposed = TaskStatus.planned ∷ TaskStatus.cancelled ∷ []
task_transitions TaskStatus.planned =
    TaskStatus.in_progress ∷ TaskStatus.blocked ∷ TaskStatus.cancelled ∷ []
task_transitions TaskStatus.in_progress =
    TaskStatus.blocked ∷ TaskStatus.completed ∷ TaskStatus.cancelled ∷ []
task_transitions TaskStatus.blocked = TaskStatus.in_progress ∷ TaskStatus.cancelled ∷ []
task_transitions TaskStatus.completed = []
task_transitions TaskStatus.cancelled = []

unfoldable pub ensure_task_transition :
    (current target : TaskStatus) (human_correction reconciled_completion : Bool)
    → Result (Unit {0})
unfolding task_transitions
ensure_task_transition current target human_correction reconciled_completion =
    if same_task current target
    then ok tt
    else if human_correction
    then (if same_task current TaskStatus.completed && same_task target TaskStatus.in_progress
        then ok tt
        else err invalid_transition)
    else if reconciled_completion
        && (same_task current TaskStatus.planned && same_task target TaskStatus.completed)
    then ok tt
    else raise_if (not (any (same_task target) (task_transitions current))) invalid_transition

-- `_APPROVAL_TRANSITIONS`
unfoldable pub approval_transitions : ApprovalStatus → List ApprovalStatus
approval_transitions ApprovalStatus.pending =
    ApprovalStatus.approved ∷ ApprovalStatus.rejected ∷ ApprovalStatus.expired
    ∷ ApprovalStatus.cancelled ∷ []
approval_transitions ApprovalStatus.approved = []
approval_transitions ApprovalStatus.rejected = []
approval_transitions ApprovalStatus.expired = []
approval_transitions ApprovalStatus.cancelled = []

unfoldable pub ensure_approval_transition : (current target : ApprovalStatus) → Result (Unit {0})
unfolding approval_transitions
ensure_approval_transition current target =
    if same_approval current target
    then ok tt
    else raise_if (not (any (same_approval target) (approval_transitions current)))
        invalid_transition

-- `_MATERIAL_REQUEST_TRANSITIONS`
unfoldable pub request_transitions : MaterialRequestStatus → List MaterialRequestStatus
request_transitions MaterialRequestStatus.proposed =
    MaterialRequestStatus.awaiting_approval ∷ MaterialRequestStatus.cancelled ∷ []
request_transitions MaterialRequestStatus.awaiting_approval =
    MaterialRequestStatus.approved ∷ MaterialRequestStatus.rejected
    ∷ MaterialRequestStatus.cancelled ∷ []
request_transitions MaterialRequestStatus.approved =
    MaterialRequestStatus.submitted ∷ MaterialRequestStatus.delayed
    ∷ MaterialRequestStatus.cancelled ∷ []
request_transitions MaterialRequestStatus.rejected = []
request_transitions MaterialRequestStatus.submitted =
    MaterialRequestStatus.confirmed ∷ MaterialRequestStatus.delayed
    ∷ MaterialRequestStatus.cancelled ∷ []
request_transitions MaterialRequestStatus.confirmed =
    MaterialRequestStatus.delayed ∷ MaterialRequestStatus.delivered
    ∷ MaterialRequestStatus.cancelled ∷ []
request_transitions MaterialRequestStatus.delayed =
    MaterialRequestStatus.confirmed ∷ MaterialRequestStatus.delivered ∷ []
request_transitions MaterialRequestStatus.delivered = []
request_transitions MaterialRequestStatus.cancelled = []

unfoldable pub ensure_material_request_transition :
    (current target : MaterialRequestStatus) → Result (Unit {0})
unfolding request_transitions
ensure_material_request_transition current target =
    if same_request current target
    then ok tt
    else raise_if (not (any (same_request target) (request_transitions current))) invalid_transition
