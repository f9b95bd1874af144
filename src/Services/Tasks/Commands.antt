-- ===== src/Services/Tasks/Commands.antt =====
-- The commands of app/services/tasks.py with the checks of their validators, and the audit specs
-- that the service makes from them.
use Prim.Native.String.{slice}
use ogaforeman.Base.{
  ℕ, String, Bool, false, ◌&&◌, ◌||◌, not, Option, none, some, [], ◌∷◌, ◌==◌, ltb, if◌then◌else◌,
  Result, raise_if, validation_error, str_eq,
}
use ogaforeman.Domain.Enums.{TaskStatus, TaskPriority, same_task}
use ogaforeman.Domain.Task.{full_percent, is_none}
use ogaforeman.Domain.ProcessedEvent.{is_blank}
use ogaforeman.Domain.Activity.{Texts, Json, ActivitySpec}

pub record UpdateTaskCommand : Type 0 where
  pub project_id : String
  pub task_id : String
  pub expected_version : ℕ
  pub completion_percent : Option ℕ
  pub target_status : Option TaskStatus
  pub evidence : Option String
  pub negated : Bool
  pub ambiguous : Bool
  pub human_correction : Bool
  pub reconciled_completion : Bool
  pub occurred_at : ℕ

-- `option is status`
abbrev pub is_status : Option TaskStatus → TaskStatus → Bool
is_status none s = false
is_status (some t) s = same_task t s

-- `completion_percent == Decimal("100")`
abbrev pub is_full : Option ℕ → Bool
is_full none = false
is_full (some p) = p == full_percent

abbrev pub requests_completion : UpdateTaskCommand → Bool
requests_completion c =
    is_status c.target_status TaskStatus.completed || is_full c.completion_percent

-- `le=100` and the checks of `validate_update`, each of which raises when it holds.
unfoldable pub is_invalid_update : UpdateTaskCommand → Bool
is_invalid_update c =
    elim c.completion_percent [ none ↦ false | some p ↦ ltb full_percent p ]
    || (is_none c.completion_percent && is_none c.target_status
        || (requests_completion c && is_blank c.evidence
            || (c.human_correction && not (is_status c.target_status TaskStatus.in_progress)
                || c.reconciled_completion && not (requests_completion c))))

unfoldable pub validate_update : UpdateTaskCommand → Result (Unit {0})
unfolding is_invalid_update
validate_update c = raise_if (is_invalid_update c) validation_error

pub record UpdateTaskDetailsCommand : Type 0 where
  pub project_id : String
  pub task_id : String
  pub expected_version : ℕ
  pub assigned_to : Option String
  pub priority : Option TaskPriority
  pub planned_end : Option ℕ
  pub note : Option String
  pub occurred_at : ℕ

abbrev status_text : TaskStatus → String
status_text TaskStatus.proposed = "proposed"
status_text TaskStatus.planned = "planned"
status_text TaskStatus.in_progress = "in_progress"
status_text TaskStatus.blocked = "blocked"
status_text TaskStatus.completed = "completed"
status_text TaskStatus.cancelled = "cancelled"

abbrev priority_text : TaskPriority → String
priority_text TaskPriority.low = "low"
priority_text TaskPriority.medium = "medium"
priority_text TaskPriority.high = "high"
priority_text TaskPriority.critical = "critical"

-- `_activity_spec`
unfoldable pub activity_spec : Texts → UpdateTaskCommand → ActivitySpec
activity_spec x c =
    let effective_status =
      if requests_completion c then some TaskStatus.completed else c.target_status in
    record {
      action = if requests_completion c then "task.completed" else "task.updated";
      entity_type = "task";
      entity_id = c.task_id;
      summary =
          if requests_completion c
          then "Task marked complete"
          else "Task progress or status updated";
      metadata =
          (
            "target_status",
            elim effective_status [ none ↦ Json.null | some s ↦ Json.text (status_text s) ],
          )
          ∷ (
            "completion_percent",
            elim c.completion_percent [ none ↦ Json.null | some p ↦ Json.text (x.decimal_text p) ],
          )
          ∷ (
            "evidence_digest",
            elim c.evidence [
              | none ↦ Json.null
              | some e ↦ if str_eq e "" then Json.null else Json.text (slice (x.hexdigest e) 0 16)
            ],
          )
          ∷ ("human_correction", Json.boolean c.human_correction)
          ∷ ("reconciled_completion", Json.boolean c.reconciled_completion)
          ∷ [];
    }

-- The action, the summary and the metadata of `_details_activity_spec`, for the one field that is
-- given.
abbrev details_entry : Texts → UpdateTaskDetailsCommand → String × String × (String × Json)
details_entry x c = elim c.assigned_to [
  | some member ↦ ("task.assigned", "Task assignment updated", ("assignee_id", Json.text member))
  | none ↦ elim c.priority [
    | some p ↦ (
      "task.priority_changed",
      "Task priority updated",
      ("priority", Json.text (priority_text p)),
    )
    | none ↦ elim c.planned_end [
      | some t ↦ (
        "task.due_date_changed",
        "Task due date updated",
        ("planned_end", Json.text (x.isoformat t)),
      )
      | none ↦ (
        "task.note_added",
        "Task note added",
        (
          "note_digest",
          Json.text (slice (x.hexdigest (elim c.note [ none ↦ "" | some n ↦ n ])) 0 16),
        ),
      )
    ]
  ]
]

unfoldable pub details_activity_spec : Texts → UpdateTaskDetailsCommand → ActivitySpec
details_activity_spec x c =
    let (action, summary, entry) = details_entry x c in
    record {
      action = action;
      entity_type = "task";
      entity_id = c.task_id;
      summary = summary;
      metadata = entry ∷ [];
    }
