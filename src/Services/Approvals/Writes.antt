-- ===== src/Services/Approvals/Writes.antt =====
-- What the writes of a resolution (app/services/approvals.py) did when they returned.
use ogaforeman.Base.{
  ℕ, ◌≡◌, ◌≢◌, [], ◌∷◌, refl, sym, ap, ◌∙◌, String, true, false, Option, none, some, arith, ok,
  eq_refl, Bool-cases, inl, inr,
}
use ogaforeman.Base.Exec.{Exec, pure, lift, ◌>>=◌, >>=-eq-ok}
use ogaforeman.Domain.Enums.{
  ApprovalStatus, MaterialRequestStatus, OutboxStatus, same_approval, same_approval-eq,
}
use ogaforeman.Domain.Authorization.{ProjectAccessContext}
use ogaforeman.Domain.Activity.{
  Json, members, optional_text, Texts, MutationContext, activity_event,
}
use ogaforeman.Domain.Approval.{Approval, approval_entity}
use ogaforeman.Domain.Material.{MaterialRequest, request_entity}
use ogaforeman.Domain.Outbox.{OutboxMessage, outbox_message, strip_message}
use ogaforeman.Base.Dict
use ogaforeman.Base.Strip.{strip, is_space}
use ogaforeman.Repositories.Memory.{get, find, require, create, save, at_version, version_of}
use ogaforeman.Repositories.Memory.Find.{get_of_find}
use ogaforeman.Repositories.Memory.Guards.{Saved, save-ok, create-ok}
use ogaforeman.Services.Session.{
  Session, on_activities, on_approvals, on_outbox, on_requests, read_session, require_authorized,
  save_authorized, version_authorized, authorize_mutation,
}
use ogaforeman.Services.Session.Calls.{require_authorized-ok}
use ogaforeman.Services.Approvals.{answer_request, announce}
use ogaforeman.Services.Approvals.Decision.{
  ResolutionCommand, resolution_message, resolution_message_id, is_open, answered, event_payload,
  request_activity,
}

module _ (access : ProjectAccessContext) where
  -- An authorized read of an approval changes nothing.
  pub require_approval-ok :
      (p id : String) (s : Session) (a : Approval)
      → (on_approvals (require_authorized access p id) s).0 ≡ ok a
      → (get s.approvals p id ≡ some a) × ((on_approvals (require_authorized access p id) s).1 ≡ s)
  unfolding require_authorized require
  require_approval-ok p id s a h = (require_authorized-ok access p id s.approvals a h, ground arith)

  pub version_approval-ok :
      (p id : String) (s : Session) (v : Option ℕ)
      → (on_approvals (version_authorized access p id) s).0 ≡ ok v
      → (on_approvals (version_authorized access p id) s).1 ≡ s
  unfolding version_authorized
  version_approval-ok p id s v h = ground (arith, h)

  pub save_approval-ok :
      (a b : Approval) (expected : Option ℕ) (s : Session)
      → (on_approvals (save_authorized access approval_entity a expected) s).0 ≡ ok b
      → Saved approval_entity a expected s.approvals
          (on_approvals (save_authorized access approval_entity a expected) s).1.approvals
          b
  unfolding save_authorized
  save_approval-ok a b expected s h =
      let (_, _, written) =
        >>=-eq-ok (lift (authorize_mutation access a.project_id))
          (λ _. save approval_entity a expected) s.approvals h in
      rw written
        (save-ok approval_entity a expected s.approvals b (ap (λ p. p.0) (sym written) ∙ h))

not_same_approval : (a b : ApprovalStatus) → a ≢ b → same_approval a b ≡ false
not_same_approval a b e = elim (Bool-cases (same_approval a b)) [
  | inl h ↦ absurd (e (same_approval-eq a b h))
  | inr h ↦ h
]

-- What the resolution did to the linked request: there is none, or it is not open and stays as it
-- is, or it is approved with the approval and cancelled otherwise.
pub data IsAnswered (c : ResolutionCommand) (status : ApprovalStatus)
    : Option MaterialRequest → Session → Session → Type 0 where
  unlinked : {s s' : Session} → s'.requests ≡ s.requests → IsAnswered c status none s s'
  closed :
      {r : MaterialRequest} {s s' : Session}
      → is_open r ≡ false
      → s'.requests ≡ s.requests
      → IsAnswered c status (some r) s s'
  answers :
      {r : MaterialRequest} {s s' : Session} (version : Option ℕ) (after : MaterialRequest)
      → is_open r ≡ true
      → (status ≡ ApprovalStatus.approved → after.status ≡ MaterialRequestStatus.approved)
      → (status ≢ ApprovalStatus.approved → after.status ≡ MaterialRequestStatus.cancelled)
      → Saved request_entity (answered c status r) version s.requests s'.requests after
      → IsAnswered c status (some r) s s'

-- It depends on the repositories of requests alone.
pub IsAnswered-frame :
    (c : ResolutionCommand) (status : ApprovalStatus) (o : Option MaterialRequest)
    (s s' t t' : Session)
    → s.requests ≡ t.requests
    → s'.requests ≡ t'.requests
    → IsAnswered c status o s s'
    → IsAnswered c status o t t'
IsAnswered-frame c status none s s' t t' e f (IsAnswered.unlinked same) =
    IsAnswered.unlinked (sym f ∙ (same ∙ e))
IsAnswered-frame c status (some r) s s' t t' e f (IsAnswered.closed shut same) =
    IsAnswered.closed shut (sym f ∙ (same ∙ e))
IsAnswered-frame c status (some r) s s' t t' e f
      (IsAnswered.answers version after open_ when_approved otherwise k) =
    IsAnswered.answers version after open_ when_approved otherwise (rw (← e, ← f) k)

module _ (x : Texts) (access : ProjectAccessContext) (c : ResolutionCommand)
    (context : MutationContext) (status : ApprovalStatus) (received : ℕ) where
  -- The answer to an open request: the write, and the activity.
  answering : Approval → MaterialRequest → Exec Session (Unit {0})
  answering saved request = do
    version ← read_session (λ s. version_of s.requests c.project_id request.id)
    saved_request ← on_requests (save request_entity (answered c status request) version)
    created ←
        on_activities
          (create activity_event (request_activity x context status saved saved_request))
    pure tt

  answering-IsAnswered :
      (saved : Approval) (r : MaterialRequest) (s : Session)
      → is_open r ≡ true
      → (answering saved r s).0 ≡ ok tt
      → IsAnswered c status (some r) s (answering saved r s).1
  unfolding answering answered at_version
  answering-IsAnswered saved r s open_ h =
      let version = version_of s.requests c.project_id r.id in
      let writing : Exec Session MaterialRequest =
        on_requests (save request_entity (answered c status r) version) in
      let noting : MaterialRequest → Exec Session (Unit {0}) = λ b.
        on_activities (create activity_event (request_activity x context status saved b))
        >>= λ created. pure tt in
      let (b, wrote, rest) = >>=-eq-ok writing noting s h in
      let (_, _, last) =
        >>=-eq-ok
          (on_activities (create activity_event (request_activity x context status saved b)))
          (λ created. pure tt) (writing s).1 (ap (λ p. p.0) (sym rest) ∙ h) in
      let k = save-ok request_entity (answered c status r) version s.requests b wrote in
      rw (rest, last)
        (IsAnswered.answers version b open_
          (λ e. ap (λ (r : MaterialRequest). r.status) k.stored ∙ rw e refl)
          (λ e.
            ap (λ (r : MaterialRequest). r.status) k.stored
            ∙ rw (not_same_approval status ApprovalStatus.approved e) refl)
          k)

  pub answer_request-IsAnswered :
      (saved : Approval) (o : Option MaterialRequest) (s : Session)
      → (answer_request x access c context status received saved o s).0 ≡ ok tt
      → IsAnswered c status o s (answer_request x access c context status received saved o s).1
  unfolding answer_request answering
  answer_request-IsAnswered saved none s h = IsAnswered.unlinked refl
  answer_request-IsAnswered saved (some r) s h = elim (Bool-cases (is_open r)) [
    | inl e ↦ rw e (answering-IsAnswered saved r s e (rw e at h))
    | inr e ↦ rw e (IsAnswered.closed e refl)
  ]

  pub answer_request-outbox :
      (saved : Approval) (o : Option MaterialRequest) (s : Session)
      → (answer_request x access c context status received saved o s).1.outbox ≡ s.outbox
  unfolding answer_request
  answer_request-outbox saved none s = refl
  answer_request-outbox saved (some r) s = ground arith

  pub answer_request-approvals :
      (saved : Approval) (o : Option MaterialRequest) (s : Session)
      → (answer_request x access c context status received saved o s).1.approvals ≡ s.approvals
  unfolding answer_request
  answer_request-approvals saved none s = refl
  answer_request-approvals saved (some r) s = ground arith

  -- A message that announces the decision on the approval `b`: it waits for publication under the
  -- name of the event, and carries the approval, the user who resolved it and the notes.
  pub record IsAnnouncement (b : Approval) (m : OutboxMessage) : Type 0 where
    pub pending : m.status ≡ OutboxStatus.pending
    pub granted : status ≡ ApprovalStatus.approved → m.message_type ≡ "APPROVAL_GRANTED"
    pub rejected : status ≢ ApprovalStatus.approved → m.message_type ≡ "APPROVAL_REJECTED"
    pub decision :
        Dict.get m.payload "payload"
        ≡ some (
            Json.object (
              members (
                ("approval_id", Json.text b.id)
                ∷ ("resolver", Json.text access.actor.user_id)
                ∷ ("notes", optional_text c.notes)
                ∷ [])))

  -- The message of a decision: it was queued before, or it is new and announces the decision.
  pub data IsAnnounced (b : Approval) (m : OutboxMessage) : Option OutboxMessage → Type 0 where
    before : IsAnnounced b m (some m)
    announced : IsAnnouncement b m → IsAnnounced b m none

  resolution_message-IsAnnouncement :
      (b : Approval)
      → IsAnnouncement b
          (strip_message (resolution_message x c context access.actor.user_id status received b))
  unfolding resolution_message event_payload Dict.get strip is_space
  resolution_message-IsAnnouncement b = record {
    pending = refl;
    granted = λ e. rw e refl;
    rejected = λ e. rw (not_same_approval status ApprovalStatus.approved e) refl;
    decision = refl;
  }

  -- After the announcement a message stands under the id of the decision.
  pub announce-stored :
      (saved : Approval) (id : String) (found : Option OutboxMessage) (s : Session)
      (o : Option String)
      → get s.outbox c.project_id id ≡ found
      → resolution_message_id x saved status ≡ id
      → (announce x access c context status received id saved found s).0 ≡ ok o
      → (m : OutboxMessage) × (get
            (announce x access c context status received id saved found s).1.outbox
            c.project_id
            id
          ≡ some m)
        × IsAnnounced saved m found
  unfolding announce resolution_message
  announce-stored saved id (some m) s o stored same h = (m, stored, IsAnnounced.before)
  announce-stored saved id none s o stored same h =
      let m = resolution_message x c context access.actor.user_id status received saved in
      let queueing : Exec Session OutboxMessage = on_outbox (create outbox_message m) in
      let (b, made, rest) = >>=-eq-ok queueing (λ created. pure (some id)) s h in
      let k = create-ok outbox_message m s.outbox b made in
      let here : find (queueing s).1.outbox c.project_id id ≡ some (strip_message m, 0) =
        k.finds c.project_id id ∙ rw (← same, eq_refl c.project_id, eq_refl m.id) refl in
      (
        strip_message m,
        rw rest (get_of_find (queueing s).1.outbox c.project_id id (strip_message m) 0 here),
        IsAnnounced.announced (resolution_message-IsAnnouncement saved),
      )

  pub announce-frame :
      (saved : Approval) (id : String) (found : Option OutboxMessage) (s : Session)
      → ((announce x access c context status received id saved found s).1.approvals ≡ s.approvals)
        × ((announce x access c context status received id saved found s).1.requests ≡ s.requests)
  unfolding announce
  announce-frame saved id none s = (ground arith, ground arith)
  announce-frame saved id (some m) s = (refl, refl)
