-- ===== src/Examples/Issues.antt =====
-- app/services/issues.py at a concrete input.
use ogaforeman.Base.{◌≢◌, refl, none, some, [], ok}
use ogaforeman.Domain.Enums.{IssueType, Severity, IssueStatus, IssueDetectedBy}
use ogaforeman.Domain.Issue.{Issue}
use ogaforeman.Repositories.Memory.{empty, write}
use ogaforeman.Services.Session.{Session}
use ogaforeman.Services.Issues.{UpdateIssueCommand, apply_issue_update}
use ogaforeman.Services.Issues.Statuses.{never_dismisses}
use ogaforeman.Examples.Tasks.{no_records}

abbrev crack : Issue
crack = record {
  id = "iss_1";
  project_id = "prj_1";
  type = IssueType.quality;
  severity = Severity.low;
  description = "A crack in the plaster.";
  evidence_refs = [];
  task_ids = [];
  status = IssueStatus.opened;
  detected_by = IssueDetectedBy.user;
  owner_id = none;
  location = none;
  due_at = none;
  notes = [];
  resolved_at = none;
  created_at = 100;
  updated_at = 100;
}

abbrev with_crack : Session
with_crack = record no_records { issues = write "prj_1" "iss_1" (crack, 0) empty }

abbrev dismissing : UpdateIssueCommand
dismissing = record {
  project_id = "prj_1";
  issue_id = "iss_1";
  expected_version = 0;
  owner_id = none;
  target_status = some IssueStatus.dismissed;
  note = none;
  occurred_at = 1_000;
}

never_dismisses_example : (apply_issue_update dismissing with_crack).0 ≢ ok crack
never_dismisses_example = never_dismisses dismissing with_crack crack refl refl
