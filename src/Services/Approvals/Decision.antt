-- ===== src/Services/Approvals/Decision.antt =====
-- What a resolution makes of an approval and of the material request that is linked to it, and the
-- event that it queues (`_apply_resolution` of app/services/approvals.py).
use Prim.Native.String.{count, ◌++◌, slice}
use ogaforeman.Base.{
  ℕ, String, Bool, ◌||◌, Option, none, some, List, [], ◌∷◌, select, ltb, if◌then◌else◌, Result, ok,
  err, raise_if, approval_failed, validation_error,
}
use ogaforeman.Base.Dict.{Dict}
use ogaforeman.Domain.Enums.{
  ApprovalActionType, ApprovalStatus, MaterialRequestStatus, OutboxStatus, same_action,
  same_approval, same_request,
}
use ogaforeman.Domain.Activity.{
  Json, Texts, MutationContext, ActivityEvent, members, optional_text, build_event,
}
use ogaforeman.Domain.Approval.{Approval}
use ogaforeman.Domain.Material.{MaterialRequest}
use ogaforeman.Domain.Outbox.{OutboxMessage}
use ogaforeman.Services.Activity.{same_text}

pub record ResolutionCommand : Type 0 where
  pub project_id : String
  pub approval_id : String
  pub notes : Option String
  pub expected_version : Option ℕ
  pub occurred_at : ℕ

abbrev pub approval_text : ApprovalStatus → String
approval_text ApprovalStatus.pending = "pending"
approval_text ApprovalStatus.approved = "approved"
approval_text ApprovalStatus.rejected = "rejected"
approval_text ApprovalStatus.expired = "expired"
approval_text ApprovalStatus.cancelled = "cancelled"

-- `dedup`
abbrev pub resolution_key : Approval → ApprovalStatus → String
resolution_key approval status = "approval_" ++ (approval.id ++ ("_" ++ approval_text status))

unfoldable pub resolution_message_id : Texts → Approval → ApprovalStatus → String
resolution_message_id x approval status =
    "obx_" ++ slice (x.hexdigest (resolution_key approval status)) 0 20

-- The requests that are linked to an approval.
abbrev pub linked_to : String → List MaterialRequest → List MaterialRequest
linked_to approval_id requests = select (λ r. same_text r.approval_id (some approval_id)) requests

-- The one element of a list, if there is one; more raise ApprovalError.
unfoldable pub at_most_one {ℓ} : {A : Type ℓ} → List A → Result (Option A)
at_most_one [] = ok none
at_most_one (a ∷ []) = ok (some a)
at_most_one (a ∷ b ∷ rest) = err approval_failed

abbrev pub is_purchase : Approval → Bool
is_purchase approval = same_action approval.action_type ApprovalActionType.purchase

-- The request that is linked to a purchase, under the id of its approval.
unfoldable pub linked_request :
    Approval → String → List MaterialRequest → Result (Option MaterialRequest)
unfolding at_most_one
linked_request approval approval_id requests =
    if is_purchase approval then at_most_one (linked_to approval_id requests) else ok none

-- The approval that is saved.
unfoldable pub resolved : ResolutionCommand → String → ApprovalStatus → Approval → Approval
resolved c user_id status approval = record approval {
  status = status;
  resolved_at = some c.occurred_at;
  resolved_by = some user_id;
  resolution_notes = c.notes;
}

-- proposed or awaiting approval
abbrev pub is_open : MaterialRequest → Bool
is_open r =
    same_request r.status MaterialRequestStatus.proposed
    || same_request r.status MaterialRequestStatus.awaiting_approval

abbrev pub request_status : ApprovalStatus → MaterialRequestStatus
request_status status =
    if same_approval status ApprovalStatus.approved
    then MaterialRequestStatus.approved
    else MaterialRequestStatus.cancelled

abbrev pub request_text : ApprovalStatus → String
request_text status =
    if same_approval status ApprovalStatus.approved then "approved" else "cancelled"

-- The request that is saved.
unfoldable pub answered : ResolutionCommand → ApprovalStatus → MaterialRequest → MaterialRequest
answered c status request = record request {
  status = request_status status;
  updated_at = c.occurred_at;
}

-- The activity of the request.
unfoldable pub request_activity :
    Texts → MutationContext → ApprovalStatus → Approval → MaterialRequest → ActivityEvent
request_activity x context status approval request =
    let request_context : MutationContext = record context {
      idempotency_key = "request-resolution:" ++ slice (x.hexdigest context.idempotency_key) 0 32;
    } in
    build_event x request_context (record {
      action = "material_request." ++ request_text status;
      entity_type = "material_request";
      entity_id = request.id;
      summary = "Material request " ++ (request_text status ++ ".");
      metadata = ("approval_id", Json.text approval.id) ∷ [];
    })

abbrev pub event_text : ApprovalStatus → String
event_text status =
    if same_approval status ApprovalStatus.approved then "APPROVAL_GRANTED" else "APPROVAL_REJECTED"

-- The checks of `ProjectEvent` on what the resolution gives it: it was received after it occurred,
-- and its key, the key of the context and `_outbox`, has at most 256 characters.
unfoldable pub check_event : ResolutionCommand → MutationContext → ℕ → Result (Unit {0})
check_event c context received =
    raise_if (ltb received c.occurred_at || ltb 256 (count (context.idempotency_key ++ "_outbox")))
      validation_error

-- `event.model_dump(mode="json")`
unfoldable pub event_payload :
    Texts → ResolutionCommand → MutationContext → String → ApprovalStatus → ℕ → Approval → Dict Json
event_payload x c context user_id status received approval =
    ("schema_version", Json.text "1.0")
    ∷ (
      "event_id",
      Json.text (
          "evt_"
          ++ slice
              (x.hexdigest (c.approval_id ++ (approval_text status ++ context.idempotency_key))) 0
              16),
    )
    ∷ ("project_id", Json.text c.project_id)
    ∷ ("event_type", Json.text (event_text status))
    ∷ ("source", Json.text "system")
    ∷ ("occurred_at", Json.text (x.json_time c.occurred_at))
    ∷ ("received_at", Json.text (x.json_time received))
    ∷ ("actor", Json.object (members (("type", Json.text "user") ∷ ("id", Json.text user_id) ∷ [])))
    ∷ ("idempotency_key", Json.text (context.idempotency_key ++ "_outbox"))
    ∷ (
      "correlation_id",
      Json.text (elim context.source_event_id [ none ↦ c.approval_id | some id ↦ id ]),
    )
    ∷ (
      "payload",
      Json.object (
          members (
            ("approval_id", Json.text approval.id)
            ∷ ("resolver", Json.text user_id)
            ∷ ("notes", optional_text c.notes)
            ∷ [])),
    )
    ∷ ("metadata", Json.object (members []))
    ∷ []

-- The message that is queued.
unfoldable pub resolution_message :
    Texts
    → ResolutionCommand
    → MutationContext
    → String
    → ApprovalStatus
    → ℕ
    → Approval
    → OutboxMessage
unfolding resolution_message_id event_payload
resolution_message x c context user_id status received approval = record {
  id = resolution_message_id x approval status;
  project_id = c.project_id;
  message_type = event_text status;
  deduplication_key = resolution_key approval status;
  payload = event_payload x c context user_id status received approval;
  status = OutboxStatus.pending;
  attempts = 0;
  last_error = none;
  provider = none;
  destination_key = none;
  provider_message_id = none;
  claim_token = none;
  claimed_at = none;
  lease_expires_at = none;
  last_attempt_at = none;
  next_attempt_at = none;
  failure_kind = none;
  created_at = received;
  processed_at = none;
  version = 0;
}
