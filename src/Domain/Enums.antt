-- ===== src/Domain/Enums.antt =====
-- app/domain/enums.py: the enumerations of the modelled code. `Enum` gives each member its place
-- in the class, by which Python's `is` and `==` on members are decided.
use ogaforeman.Base.{ℕ, ◌≡◌, Bool, true, ◌==◌, arith}

pub data TaskStatus : Type 0 where
  proposed planned in_progress blocked completed cancelled : TaskStatus

pub data TaskPriority : Type 0 where
  low medium high critical : TaskPriority

pub data TaskSource : Type 0 where
  manual site_update workflow import : TaskSource

pub data MemberRole : Type 0 where
  admin manager foreman viewer : MemberRole

pub data MemberStatus : Type 0 where
  invited active removed : MemberStatus

pub data IssueType : Type 0 where
  blocker delay_risk safety quality observation : IssueType

pub data Severity : Type 0 where
  info low medium high critical : Severity

-- `opened` is `OPEN`.
pub data IssueStatus : Type 0 where
  opened acknowledged mitigated resolved dismissed : IssueStatus

pub data IssueDetectedBy : Type 0 where
  site_update overdue_check delivery_event user : IssueDetectedBy

pub data MaterialRequestStatus : Type 0 where
  proposed awaiting_approval approved rejected submitted : MaterialRequestStatus
  confirmed delayed delivered cancelled : MaterialRequestStatus

pub data ApprovalActionType : Type 0 where
  purchase schedule_change external_commitment task_cancel high_impact_change : ApprovalActionType

pub data ApprovalStatus : Type 0 where
  pending approved rejected expired cancelled : ApprovalStatus

pub data AgentRunStatus : Type 0 where
  queued running waiting_for_approval waiting_for_clarification : AgentRunStatus
  completed failed dead_lettered : AgentRunStatus

pub data WorkflowName : Type 0 where
  daily_site_update material_shortage blocker_delay daily_brief : WorkflowName

pub data ActorType : Type 0 where
  user agent system : ActorType

pub data ProcessedEventStatus : Type 0 where
  claimed completed failed dead_lettered : ProcessedEventStatus

pub data OutboxStatus : Type 0 where
  pending processing completed skipped failed dead_lettered : OutboxStatus

abbrev task_index : TaskStatus → ℕ
task_index TaskStatus.proposed = 0
task_index TaskStatus.planned = 1
task_index TaskStatus.in_progress = 2
task_index TaskStatus.blocked = 3
task_index TaskStatus.completed = 4
task_index TaskStatus.cancelled = 5

abbrev approval_index : ApprovalStatus → ℕ
approval_index ApprovalStatus.pending = 0
approval_index ApprovalStatus.approved = 1
approval_index ApprovalStatus.rejected = 2
approval_index ApprovalStatus.expired = 3
approval_index ApprovalStatus.cancelled = 4

abbrev request_index : MaterialRequestStatus → ℕ
request_index MaterialRequestStatus.proposed = 0
request_index MaterialRequestStatus.awaiting_approval = 1
request_index MaterialRequestStatus.approved = 2
request_index MaterialRequestStatus.rejected = 3
request_index MaterialRequestStatus.submitted = 4
request_index MaterialRequestStatus.confirmed = 5
request_index MaterialRequestStatus.delayed = 6
request_index MaterialRequestStatus.delivered = 7
request_index MaterialRequestStatus.cancelled = 8

abbrev run_index : AgentRunStatus → ℕ
run_index AgentRunStatus.queued = 0
run_index AgentRunStatus.running = 1
run_index AgentRunStatus.waiting_for_approval = 2
run_index AgentRunStatus.waiting_for_clarification = 3
run_index AgentRunStatus.completed = 4
run_index AgentRunStatus.failed = 5
run_index AgentRunStatus.dead_lettered = 6

abbrev action_index : ApprovalActionType → ℕ
action_index ApprovalActionType.purchase = 0
action_index ApprovalActionType.schedule_change = 1
action_index ApprovalActionType.external_commitment = 2
action_index ApprovalActionType.task_cancel = 3
action_index ApprovalActionType.high_impact_change = 4

abbrev claim_index : ProcessedEventStatus → ℕ
claim_index ProcessedEventStatus.claimed = 0
claim_index ProcessedEventStatus.completed = 1
claim_index ProcessedEventStatus.failed = 2
claim_index ProcessedEventStatus.dead_lettered = 3

abbrev actor_index : ActorType → ℕ
actor_index ActorType.user = 0
actor_index ActorType.agent = 1
actor_index ActorType.system = 2

abbrev outbox_index : OutboxStatus → ℕ
outbox_index OutboxStatus.pending = 0
outbox_index OutboxStatus.processing = 1
outbox_index OutboxStatus.completed = 2
outbox_index OutboxStatus.skipped = 3
outbox_index OutboxStatus.failed = 4
outbox_index OutboxStatus.dead_lettered = 5

-- `a is b` on the members of an enumeration
abbrev pub same_task : TaskStatus → TaskStatus → Bool
same_task a b = task_index a == task_index b

abbrev pub same_approval : ApprovalStatus → ApprovalStatus → Bool
same_approval a b = approval_index a == approval_index b

abbrev pub same_request : MaterialRequestStatus → MaterialRequestStatus → Bool
same_request a b = request_index a == request_index b

abbrev pub same_claim : ProcessedEventStatus → ProcessedEventStatus → Bool
same_claim a b = claim_index a == claim_index b

abbrev pub same_actor : ActorType → ActorType → Bool
same_actor a b = actor_index a == actor_index b

abbrev pub same_run : AgentRunStatus → AgentRunStatus → Bool
same_run a b = run_index a == run_index b

abbrev pub same_action : ApprovalActionType → ApprovalActionType → Bool
same_action a b = action_index a == action_index b

abbrev pub same_outbox : OutboxStatus → OutboxStatus → Bool
same_outbox a b = outbox_index a == outbox_index b

pub same_task-eq : (a b : TaskStatus) → same_task a b ≡ true → a ≡ b
same_task-eq a b h = ground arith

pub same_approval-eq : (a b : ApprovalStatus) → same_approval a b ≡ true → a ≡ b
same_approval-eq a b h = ground arith
