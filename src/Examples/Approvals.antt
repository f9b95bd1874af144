-- ===== src/Examples/Approvals.antt =====
-- app/services/approvals.py at a concrete approval of a purchase.
use ogaforeman.Base.{◌≡◌, ◌≢◌, refl, none, some, [], ◌∷◌, arith, Result, ok}
use ogaforeman.Base.Dict
use ogaforeman.Base.Strip.{strip, is_space}
use ogaforeman.Domain.Enums.{MemberRole, ApprovalActionType, ApprovalStatus, MaterialRequestStatus}
use ogaforeman.Domain.Authorization.{
  ProjectAccessContext, ensure_permission, ensure_project_scope, grants,
}
use ogaforeman.Domain.Activity.{MutationContext, Json, build_event, activity_id, validate_activity}
use ogaforeman.Domain.Approval.{Approval, approval_entity, validate_approval, is_invalid_approval}
use ogaforeman.Domain.Material.{
  MaterialRequest, request_entity, validate_request, is_invalid_request,
}
use ogaforeman.Domain.Outbox.{validate_outbox, is_invalid_message}
use ogaforeman.Repositories.Memory.{
  get, find, partition, setdefault, write, list, sorted, place, require, create, save, admit,
  accept, at_version, version_of, validate_for_create, require_expected_version,
}
use ogaforeman.Services.Session.{
  Session, authorize_read, authorize_mutation, require_authorized, save_authorized,
  version_authorized,
}
use ogaforeman.Services.Approvals.Decision.{
  ResolutionCommand, resolution_message_id, linked_request, at_most_one, resolved, answered,
  request_activity, check_event, event_payload, resolution_message,
}
use ogaforeman.Services.Approvals.{
  Resolution, check_version, answer_request, announce, decide, keep_decision, decide_found,
  apply_resolution,
}
use ogaforeman.Services.Approvals.Outcome.{IsResolution, apply_resolution-IsResolution}
use ogaforeman.Services.Approvals.Keys.{long_key_refused}
use ogaforeman.Services.Approvals.Finality.{IsKeyed, decision_stands}
use ogaforeman.Examples.Tasks.{context, no_records}
use ogaforeman.Examples.Outbox.{digests}

abbrev access : ProjectAccessContext
access = record {
  actor = record { user_id = "usr_1"; subject = "sub_1"; email = none };
  project_id = "prj_1";
  role = MemberRole.manager;
}

abbrev purchase : Approval
purchase = record {
  id = "app_1";
  project_id = "prj_1";
  action_type = ApprovalActionType.purchase;
  proposed_action = ("material_id", Json.text "mat_1") ∷ [];
  reason = "The slab needs cement.";
  evidence_refs = [];
  status = ApprovalStatus.pending;
  requested_by = "system";
  requested_at = 0;
  resolved_at = none;
  resolved_by = none;
  resolution_notes = none;
  version = 0;
}

abbrev waiting_request : MaterialRequest
waiting_request = record {
  id = "req_1";
  project_id = "prj_1";
  material_id = "mat_1";
  quantity = 100;
  delivered_quantity = 0;
  unit = "bags";
  needed_by = none;
  reason = "The slab needs cement.";
  source_event_id = "evt_1";
  supplier = none;
  estimated_total_cost = none;
  status = MaterialRequestStatus.awaiting_approval;
  approval_id = some "app_1";
  created_at = 0;
  updated_at = 0;
}

abbrev office : Session
office = record no_records {
  approvals = (create approval_entity purchase no_records.approvals).1;
  requests = (create request_entity waiting_request no_records.requests).1;
}

abbrev approving : ResolutionCommand
approving = record {
  project_id = "prj_1";
  approval_id = "app_1";
  notes = some "Go ahead.";
  expected_version = some 0;
  occurred_at = 1_000;
}

abbrev first_decision : Result Resolution × Session
first_decision =
    apply_resolution digests access approving context ApprovalStatus.approved 2_000 office

abbrev outcome : Resolution
outcome = (
  record purchase {
    status = ApprovalStatus.approved;
    resolved_at = some 1_000;
    resolved_by = some "usr_1";
    resolution_notes = some "Go ahead.";
    version = 1;
  },
  some "obx_approval_app_1_appro",
)

first_decision-returns : first_decision.0 ≡ ok outcome
unfolding apply_resolution decide_found decide keep_decision answer_request announce check_version
    check_event linked_request at_most_one resolved answered request_activity resolution_message
    resolution_message_id event_payload get find partition setdefault write list sorted place
    require create save admit accept at_version version_of validate_for_create
    require_expected_version authorize_read authorize_mutation require_authorized save_authorized
    version_authorized validate_approval is_invalid_approval validate_request is_invalid_request
    validate_outbox is_invalid_message build_event activity_id validate_activity ensure_permission
    ensure_project_scope grants Dict.get Dict.put strip is_space
first_decision-returns = refl

apply_resolution-IsResolution_example :
    (a : Approval) × (get office.approvals "prj_1" "app_1" ≡ some a)
    × IsResolution digests access approving context ApprovalStatus.approved 2_000 a office
        first_decision.1 outcome
apply_resolution-IsResolution_example =
    apply_resolution-IsResolution digests access approving context ApprovalStatus.approved 2_000
      office outcome first_decision-returns

purchase-found : get office.approvals "prj_1" "app_1" ≡ some purchase
unfolding get find partition setdefault write create admit validate_for_create validate_approval
    is_invalid_approval Dict.get Dict.put strip is_space
purchase-found = refl

office-IsKeyed : IsKeyed office "prj_1" "app_1"
unfolding IsKeyed
office-IsKeyed a found =
    (ground (arith, found, purchase-found), ground (arith, found, purchase-found))

-- A second user rejects what was approved.
abbrev rejecting : ResolutionCommand
rejecting = record approving { expected_version = some 1; notes = none }

decision_stands_example :
    (apply_resolution digests access rejecting context ApprovalStatus.rejected 3_000
      first_decision.1).0
    ≢ ok outcome
decision_stands_example =
    decision_stands digests access approving context ApprovalStatus.approved 2_000 access rejecting
      context ApprovalStatus.rejected 3_000 office outcome outcome office-IsKeyed refl refl
      (λ e. absurd (cc e)) (λ e. absurd (cc e)) first_decision-returns

-- A key of 256 characters, as many as a context may have.
abbrev long_context : MutationContext
long_context = record context {
  idempotency_key =
      "kkkkkkkkkkkkkkkkkkkkkkkkkkkkkkkkkkkkkkkkkkkkkkkkkkkkkkkkkkkkkkkkkkkkkkkkkkkkkkkkkkkkkkkkkkkkkkkkkkkkkkkkkkkkkkkkkkkkkkkkkkkkkkkkkkkkkkkkkkkkkkkkkkkkkkkkkkkkkkkkkkkkkkkkkkkkkkkkkkkkkkkkkkkkkkkkkkkkkkkkkkkkkkkkkkkkkkkkkkkkkkkkkkkkkkkkkkkkkkkkkkkkkkkkkkkkkkkk";
}

long_key_refused_example :
    (apply_resolution digests access approving long_context ApprovalStatus.approved 2_000 office).0
    ≢ ok outcome
long_key_refused_example =
    long_key_refused digests access approving long_context ApprovalStatus.approved 2_000 purchase
      office outcome purchase-found (λ e. absurd (cc e)) (omega arith)
