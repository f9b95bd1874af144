-- ===== src/Domain/Issue.antt =====
-- `Issue` of app/domain/models.py with the checks of its validator.
use ogaforeman.Base.{
  ℕ, String, Bool, true, false, ◌&&◌, ◌||◌, not, Option, List, ltb, length, distinct, Result,
  raise_if, validation_error,
}
use ogaforeman.Domain.Enums.{IssueType, Severity, IssueStatus, IssueDetectedBy}
use ogaforeman.Domain.Task.{is_none}
use ogaforeman.Domain.ProcessedEvent.{is_before}
use ogaforeman.Base.Strip.{strip, strip_option, strip_all}
use ogaforeman.Repositories.Memory.{Entity, no_version}

pub record Issue : Type 0 where
  pub id : String
  pub project_id : String
  pub type : IssueType
  pub severity : Severity
  pub description : String
  pub evidence_refs : List String
  pub task_ids : List String
  pub status : IssueStatus
  pub detected_by : IssueDetectedBy
  pub owner_id : Option String
  pub location : Option String
  pub due_at : Option ℕ
  pub notes : List String
  pub resolved_at : Option ℕ
  pub created_at : ℕ
  pub updated_at : ℕ

-- `status in terminal_statuses`
abbrev pub is_terminal : IssueStatus → Bool
is_terminal IssueStatus.resolved = true
is_terminal IssueStatus.dismissed = true
is_terminal _ = false

-- The length of `notes` and the checks of `validate_issue`, each of which raises when it holds.
unfoldable pub is_invalid_issue : Issue → Bool
is_invalid_issue i =
    ltb 100 (length i.notes)
    || (not (distinct i.evidence_refs)
        || (not (distinct i.task_ids)
            || (is_terminal i.status && is_none i.resolved_at
                || (not (is_terminal i.status) && not (is_none i.resolved_at)
                    || is_before i.resolved_at i.created_at))))

unfoldable pub validate_issue : Issue → Result (Unit {0})
unfolding is_invalid_issue
validate_issue i = raise_if (is_invalid_issue i) validation_error

-- The texts as pydantic keeps them.
abbrev pub strip_issue : Issue → Issue
strip_issue r = record r {
  description = strip r.description;
  evidence_refs = strip_all r.evidence_refs;
  location = strip_option r.location;
  notes = strip_all r.notes;
}

abbrev pub issue_entity : Entity Issue
issue_entity = record {
  project_id = λ i. i.project_id;
  id = λ i. i.id;
  has_version = false;
  version = λ i. 0;
  with_version = λ i n. i;
  strip = strip_issue;
  validate = validate_issue;
  version-with_version = λ i n h. no_version h;
}
