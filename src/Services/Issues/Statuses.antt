-- ===== src/Services/Issues/Statuses.antt =====
-- Which statuses an issue can be given (app/services/issues.py and the validator of `Issue`).
use ogaforeman.Base.{◌≡◌, ◌≢◌, true, none, some, arith, ok}
use ogaforeman.Base.Exec.{lift, >>=-result}
use ogaforeman.Domain.Enums.{IssueStatus}
use ogaforeman.Domain.Issue.{Issue, issue_entity, strip_issue, validate_issue, is_invalid_issue}
use ogaforeman.Repositories.Memory.{get, require, at_version}
use ogaforeman.Repositories.Memory.Guards.{save-ok}
use ogaforeman.Services.Session.{Session, on_issues}
use ogaforeman.Services.Issues.{UpdateIssueCommand, decide_issue, apply_issue_update}

-- The copy for a dismissal has no time of resolution.
dismissed_invalid :
    (current updated : Issue) (c : UpdateIssueCommand) (s : Session)
    → c.owner_id ≡ none
    → c.target_status ≡ some IssueStatus.dismissed
    → decide_issue (get s.members c.project_id) current c ≡ ok updated
    → is_invalid_issue (strip_issue updated) ≡ true
unfolding decide_issue is_invalid_issue
dismissed_invalid current updated c s no_owner target h = ground (arith, no_owner, target, h)

-- No issue can be dismissed: whatever the session, the writes of an update that sets the status
-- dismissed, and no owner, never return.
pub never_dismisses :
    (c : UpdateIssueCommand) (s : Session) (i : Issue)
    → c.owner_id ≡ none
    → c.target_status ≡ some IssueStatus.dismissed
    → (apply_issue_update c s).0 ≢ ok i
unfolding apply_issue_update at_version validate_issue
never_dismisses c s i no_owner target h =
    let (current, _, h1) = >>=-result (on_issues (require c.project_id c.issue_id)) _ s h in
    let t = (on_issues (require c.project_id c.issue_id) s).1 in
    let (updated, decided, saved) =
      >>=-result (lift (decide_issue (get s.members c.project_id) current c)) _ t h1 in
    let w = save-ok issue_entity updated (some c.expected_version) t.issues i saved in
    ground (arith, w.valid, w.stored, dismissed_invalid current updated c s no_owner target decided)
