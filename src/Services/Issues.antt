-- ===== src/Services/Issues.antt =====
-- app/services/issues.py: the update of an issue. The repository of issues is not behind an
-- authorized one, as in the source.
pub mod Statuses
use Prim.Native.String.{slice}
use ogaforeman.Base.{
  ℕ, ◌+◌, String, Bool, true, false, ◌&&◌, not, Option, none, some, List, [], ◌∷◌, ◌++◌, leb, ◌==◌,
  length, if◌then◌else◌, Result, ok, err, raise_if, ◌>>◌ as check_then, permission_error,
  value_error, runtime_error,
}
use ogaforeman.Base.Exec.{Exec, pure, lift, ◌>>=◌, ◌>>◌}
use ogaforeman.Domain.Enums.{IssueStatus, ActorType, same_actor}
use ogaforeman.Domain.Authorization.{
  ProjectAccessContext, ProjectPermission, ProjectMember, ensure_permission, ensure_project_scope,
}
use ogaforeman.Domain.Activity.{Texts, Json, MutationContext, ActivitySpec, ActivityEvent}
use ogaforeman.Domain.Issue.{Issue, issue_entity}
use ogaforeman.Repositories.Memory.{get, require, save}
use ogaforeman.Services.Access.{is_own_actor}
use ogaforeman.Services.Activity.{Mutation, MutationResult, mutate}
use ogaforeman.Services.Session.{Session, on_issues}
use ogaforeman.Services.Tasks.Details.{is_assignable}

pub record UpdateIssueCommand : Type 0 where
  pub project_id : String
  pub issue_id : String
  pub expected_version : ℕ
  pub owner_id : Option String
  pub target_status : Option IssueStatus
  pub note : Option String
  pub occurred_at : ℕ

abbrev count_of {ℓ} : {A : Type ℓ} → Option A → ℕ
count_of none = 0
count_of (some a) = 1

abbrev pub change_count : UpdateIssueCommand → ℕ
change_count c = count_of c.owner_id + count_of c.target_status + count_of c.note

pub record IssueChange : Type 0 where
  pub issue : Issue
  pub activity : ActivityEvent
  pub duplicate : Bool

-- `command.occurred_at if command.target_status is IssueStatus.RESOLVED else None`
abbrev resolution_time : IssueStatus → ℕ → Option ℕ
resolution_time IssueStatus.resolved time = some time
resolution_time _ time = none

-- `_apply_update` between its reads and its write
unfoldable pub decide_issue :
    (String → Option ProjectMember) → Issue → UpdateIssueCommand → Result Issue
decide_issue membership current c = elim c.owner_id [
  | some owner ↦
      if is_assignable (membership owner)
      then ok (record current { updated_at = c.occurred_at; owner_id = some owner })
      else err permission_error
  | none ↦ elim c.target_status [
    | some status ↦ ok (record current {
      updated_at = c.occurred_at;
      status = status;
      resolved_at = resolution_time status c.occurred_at;
    })
    | none ↦
        if leb 100 (length current.notes)
        then err value_error
        else ok (record current {
          updated_at = c.occurred_at;
          notes = current.notes ++ elim c.note [ none ↦ "" | some n ↦ n ] ∷ [];
        })
  ]
]

unfoldable pub apply_issue_update : UpdateIssueCommand → Exec Session Issue
apply_issue_update c s =
    (do
      current ← on_issues (require c.project_id c.issue_id)
      updated ← lift (decide_issue (get s.members c.project_id) current c)
      on_issues (save issue_entity updated (some c.expected_version)))
      s

abbrev status_text : IssueStatus → String
status_text IssueStatus.opened = "open"
status_text IssueStatus.acknowledged = "acknowledged"
status_text IssueStatus.mitigated = "mitigated"
status_text IssueStatus.resolved = "resolved"
status_text IssueStatus.dismissed = "dismissed"

abbrev update_entry : Texts → UpdateIssueCommand → String × String × (String × Json)
update_entry x c = elim c.owner_id [
  | some owner ↦ ("issue.assigned", "Issue assignment updated", ("owner_id", Json.text owner))
  | none ↦ elim c.target_status [
    | some status ↦
        ("issue.status_changed", "Issue status updated", ("status", Json.text (status_text status)))
    | none ↦ (
      "issue.note_added",
      "Issue note added",
      (
        "note_digest",
        Json.text (slice (x.hexdigest (elim c.note [ none ↦ "" | some n ↦ n ])) 0 16),
      ),
    )
  ]
]

-- `_update_activity`
unfoldable pub update_activity : Texts → UpdateIssueCommand → ActivitySpec
update_activity x c =
    let (action, summary, entry) = update_entry x c in
    record {
      action = action;
      entity_type = "issue";
      entity_id = c.issue_id;
      summary = summary;
      metadata = entry ∷ [];
    }

-- The checks of `update_issue`.
unfoldable pub authorize_issue_update :
    ProjectAccessContext → UpdateIssueCommand → MutationContext → Result (Unit {0})
authorize_issue_update access c context = check_then (ensure_project_scope access c.project_id) (
    check_then (ensure_project_scope access context.project_id) (
      check_then (ensure_permission access ProjectPermission.operate) (
        check_then (raise_if (not (change_count c == 1)) value_error) (
          raise_if
            (not (same_actor context.actor_type ActorType.user && is_own_actor access context))
            permission_error))))

unfoldable pub replay_issue : ActivityEvent → Exec Session (Option Issue)
replay_issue activity = do
  issue ← on_issues (require activity.project_id activity.entity_id)
  pure (some issue)

unfoldable pub update_issue :
    Texts → ProjectAccessContext → UpdateIssueCommand → MutationContext → Exec Session IssueChange
unfolding apply_issue_update
update_issue x access c context = do
  lift (authorize_issue_update access c context)
  result ←
      mutate
        (record {
          apply = apply_issue_update c;
          scope = λ i. some (i.project_id, i.id);
          replay = some replay_issue;
        })
        x (some context) (update_activity x c) []
  lift (elim result.value [
    | none ↦ err runtime_error
    | some issue ↦
        ok (record { issue = issue; activity = result.activity; duplicate = result.duplicate })
  ])
