-- ===== src/Services/Approvals.antt =====
-- app/services/approvals.py: the resolution of an approval, together with the material request that
-- is linked to it, and the message that announces it.
pub mod Decision
pub mod Writes
pub mod Outcome
pub mod Finality
pub mod Keys
use Prim.Native.String.{◌++◌}
use ogaforeman.Base.{
  ℕ, String, Bool, true, false, ◌&&◌, ◌||◌, not, Option, none, some, List, [], ◌∷◌, select, str_eq,
  ◌==◌, if◌then◌else◌, Result, ok, err, raise_if, ◌>>◌ as check_then, ◌>>=◌ as bind,
  approval_failed, version_conflict, permission_error, runtime_error,
}
use ogaforeman.Base.Exec.{Exec, pure, raise, lift, ◌>>=◌, ◌>>◌}
use ogaforeman.Domain.Enums.{ActorType, ApprovalStatus, same_actor, same_approval}
use ogaforeman.Domain.Authorization.{
  ProjectAccessContext, ProjectPermission, ensure_permission, ensure_project_scope,
}
use ogaforeman.Domain.ProcessedEvent.{is_blank}
use ogaforeman.Domain.Activity.{
  Json, Texts, MutationContext, ActivitySpec, ActivityEvent, activity_event, optional_text,
}
use ogaforeman.Domain.Approval.{Approval, approval_entity}
use ogaforeman.Domain.AgentRun.{AgentRun}
use ogaforeman.Domain.Material.{MaterialRequest, request_entity}
use ogaforeman.Domain.Outbox.{OutboxMessage, outbox_message}
use ogaforeman.Repositories.Memory.{get, list, require, create, save, version_of}
use ogaforeman.Services.Access.{is_own_actor}
use ogaforeman.Services.Activity.{Mutation, MutationResult, mutate, same_text}
use ogaforeman.Services.Session.{
  Session, on_activities, on_approvals, on_outbox, on_requests, read_session, require_authorized,
  save_authorized, version_authorized,
}
use ogaforeman.Services.Outbox.{Handler, process}
use ogaforeman.Services.Approvals.Decision.{
  ResolutionCommand, approval_text, resolution_message_id, linked_to, at_most_one, is_purchase,
  linked_request, resolved, is_open, answered, request_activity, check_event, resolution_message,
}

-- The approval and the id of the message, if there is one.
abbrev pub Resolution : Type 0
Resolution = Approval × Option String

pub record ApprovalResult : Type 0 where
  pub approval : Approval
  pub activity : ActivityEvent
  pub duplicate : Bool

-- `message_id if existing is not None else None`
abbrev pub id_if_stored : Session → String → String → Option String
id_if_stored s project_id id = elim (get s.outbox project_id id) [ none ↦ none | some _ ↦ some id ]

-- the version is the one that the command names, if it names one
unfoldable pub check_version : Option ℕ → Option ℕ → Result (Unit {0})
check_version none current = ok tt
check_version (some expected) none = err version_conflict
check_version (some expected) (some current) = raise_if (not (current == expected)) version_conflict

module _ (x : Texts) (access : ProjectAccessContext) (c : ResolutionCommand)
    (context : MutationContext) (status : ApprovalStatus) (received : ℕ) where
  -- The write of the linked request and its activity, if the request is open.
  unfoldable pub answer_request : Approval → Option MaterialRequest → Exec Session (Unit {0})
  unfolding answered request_activity
  answer_request saved none = pure tt
  answer_request saved (some request) =
      if is_open request
      then (do
        version ← read_session (λ s. version_of s.requests c.project_id request.id)
        saved_request ← on_requests (save request_entity (answered c status request) version)
        created ←
            on_activities
              (create activity_event (request_activity x context status saved saved_request))
        pure tt)
      else pure tt

  -- The message, unless it was queued before.
  unfoldable pub announce : String → Approval → Option OutboxMessage → Exec Session (Option String)
  unfolding resolution_message
  announce id saved (some existing) = pure none
  announce id saved none = do
    created ← on_outbox (
        create outbox_message
          (resolution_message x c context access.actor.user_id status received saved))
    pure (some id)

  -- `_apply_resolution`, after its reads, for a pending approval
  unfoldable pub decide :
      Approval → Option MaterialRequest → Option OutboxMessage → Exec Session Resolution
  unfolding answer_request announce resolved check_event resolution_message_id
  decide approval request existing = do
    saved ← on_approvals (
        save_authorized access approval_entity (resolved c access.actor.user_id status approval)
          c.expected_version)
    answer_request saved request
    lift (check_event c context received)
    queued ← announce (resolution_message_id x approval status) saved existing
    pure (saved, queued)

  -- The approval was resolved before.
  unfoldable pub keep_decision : Approval → Exec Session Resolution
  unfolding resolution_message_id
  keep_decision approval s =
      if same_approval approval.status status
      then (ok (approval, id_if_stored s c.project_id (resolution_message_id x approval status)), s)
      else (err approval_failed, s)

  unfoldable pub decide_found : Approval → Exec Session Resolution
  unfolding decide keep_decision linked_request resolution_message_id
  decide_found approval s =
      if not (same_approval approval.status ApprovalStatus.pending)
      then keep_decision approval s
      else (do
        request ← lift (linked_request approval approval.id (list s.requests c.project_id))
        decide approval request
            (get s.outbox c.project_id (resolution_message_id x approval status)))
          s

  -- `_apply_resolution`
  unfoldable pub apply_resolution : Exec Session Resolution
  unfolding decide_found check_version
  apply_resolution = do
    approval ← on_approvals (require_authorized access access.project_id c.approval_id)
    version ← on_approvals (version_authorized access access.project_id c.approval_id)
    lift (check_version c.expected_version version)
    decide_found approval

-- approved or rejected
abbrev is_decision : Approval → Bool
is_decision approval =
    same_approval approval.status ApprovalStatus.approved
    || same_approval approval.status ApprovalStatus.rejected

-- `_replay`
unfoldable pub replay_resolution :
    Texts → ProjectAccessContext → ResolutionCommand → Exec Session (Option Resolution)
unfolding resolution_message_id
replay_resolution x access c = do
  approval ← on_approvals (require_authorized access access.project_id c.approval_id)
  (if not (is_decision approval)
      then pure (some (approval, none))
      else read_session (λ s.
        some (
          approval,
          id_if_stored s c.project_id (resolution_message_id x approval approval.status),
        )))

-- The checks of `_resolve`.
unfoldable pub authorize_resolution :
    ProjectAccessContext → ResolutionCommand → MutationContext → Result (Unit {0})
authorize_resolution access c context = check_then (ensure_project_scope access c.project_id) (
    check_then (ensure_project_scope access context.project_id) (
      check_then (ensure_permission access ProjectPermission.approve) (
        raise_if (same_actor context.actor_type ActorType.user && not (is_own_actor access context))
          permission_error)))

module _ (c : ResolutionCommand) (context : MutationContext) where
  -- `_enrich_workflow_causality`, after the request was found
  unfoldable pub with_run :
      MaterialRequest → Option AgentRun → Result (MutationContext × Option String)
  with_run request none = ok (context, some request.id)
  with_run request (some run) =
      if not (elim context.agent_run_id [ none ↦ true | some id ↦ str_eq id run.id ])
      then err approval_failed
      else ok (
        record context {
          source_event_id =
              if is_blank context.source_event_id
              then some request.source_event_id
              else context.source_event_id;
          agent_run_id = some run.id;
        },
        some request.id,
      )

  unfoldable pub enrich_from :
      Session → Option MaterialRequest → Result (MutationContext × Option String)
  unfolding with_run at_most_one
  enrich_from s none = ok (context, none)
  enrich_from s (some request) =
      bind
        (at_most_one (
          select (λ (r : AgentRun). str_eq r.trigger_event_id request.source_event_id)
            (list s.runs c.project_id)))
        (with_run request)

  -- `_enrich_workflow_causality`
  unfoldable pub enrich_workflow_causality : Exec Session (MutationContext × Option String)
  unfolding enrich_from linked_request
  enrich_workflow_causality = do
    approval ← on_approvals (require c.project_id c.approval_id)
    (λ s. (
      bind (linked_request approval c.approval_id (list s.requests c.project_id)) (enrich_from s),
      s,
    ))

-- The spec of `_resolve`.
unfoldable pub resolution_spec : ResolutionCommand → ApprovalStatus → Option String → ActivitySpec
resolution_spec c status request_id = record {
  action = "approval." ++ approval_text status;
  entity_type = "approval";
  entity_id = c.approval_id;
  summary = "Approval " ++ approval_text status;
  metadata =
      ("notes", optional_text c.notes)
      ∷ ("status", Json.text (approval_text status))
      ∷ ("approval_id", Json.text c.approval_id)
      ∷ ("material_request_id", optional_text request_id)
      ∷ ("reason", Json.text "human_approval_decision")
      ∷ [];
}

-- What `_resolve` has beside the store: the publisher, as the handler that it is for the outbox,
-- and readings of the clock.
pub record Publication : Type 0 where
  pub publisher : Option Handler
  pub claim_time : ℕ
  pub close_time : ℕ
  pub audit_time : ℕ

-- The message is processed, and an exception is dropped.
unfoldable pub publish : Texts → String → Publication → Option String → Exec Session (Unit {0})
unfolding process
publish x project_id p none s = (ok tt, s)
publish x project_id p (some id) s = elim p.publisher [
  | none ↦ (ok tt, s)
  | some handler ↦
      let (r, s') = process x none project_id id handler p.claim_time p.close_time p.audit_time s in
      (ok tt, s')
]

-- `_resolve`
unfoldable pub resolve :
    Texts
    → ProjectAccessContext
    → ResolutionCommand
    → MutationContext
    → ApprovalStatus
    → ℕ
    → Publication
    → Exec Session ApprovalResult
unfolding apply_resolution replay_resolution publish enrich_workflow_causality resolution_spec
resolve x access c given status received p = do
  lift (authorize_resolution access c given)
  enriched ← enrich_workflow_causality c given
  result ←
      mutate
        (record {
          apply = apply_resolution x access c enriched.0 status received;
          scope = λ r. none;
          replay = some (λ activity. replay_resolution x access c);
        })
        x (some enriched.0) (resolution_spec c status enriched.1) []
  resolution ← lift (elim result.value [ none ↦ err runtime_error | some r ↦ ok r ])
  publish x c.project_id p resolution.1
  pure
      (record { approval = resolution.0; activity = result.activity; duplicate = result.duplicate })

unfoldable pub approve :
    Texts
    → ProjectAccessContext
    → ResolutionCommand
    → MutationContext
    → ℕ
    → Publication
    → Exec Session ApprovalResult
unfolding resolve
approve x access c context received p =
    resolve x access c context ApprovalStatus.approved received p

unfoldable pub reject :
    Texts
    → ProjectAccessContext
    → ResolutionCommand
    → MutationContext
    → ℕ
    → Publication
    → Exec Session ApprovalResult
unfolding resolve
reject x access c context received p = resolve x access c context ApprovalStatus.rejected received p
