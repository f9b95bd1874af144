-- ===== src/Services/Approvals/Outcome.antt =====
-- How a resolution (`_apply_resolution` of app/services/approvals.py) ends when it returns.
use ogaforeman.Base.{
  ℕ, ◌≡◌, ◌≢◌, refl, sym, ap, ◌∙◌, String, false, Option, some, arith, ok, Bool-cases, inl, inr,
}
use ogaforeman.Base.Exec.{Exec, lift, >>=-eq-ok}
use ogaforeman.Domain.Enums.{ApprovalStatus, same_approval, same_approval-eq}
use ogaforeman.Domain.Authorization.{ProjectAccessContext}
use ogaforeman.Domain.Activity.{Texts, MutationContext}
use ogaforeman.Domain.Approval.{Approval, approval_entity}
use ogaforeman.Domain.Material.{MaterialRequest}
use ogaforeman.Domain.Outbox.{OutboxMessage}
use ogaforeman.Repositories.Memory.{get, list, at_version}
use ogaforeman.Repositories.Memory.Guards.{Saved}
use ogaforeman.Services.Session.{
  Session, on_approvals, save_authorized, require_authorized, version_authorized,
}
use ogaforeman.Services.Approvals.{
  Resolution, answer_request, announce, decide, keep_decision, decide_found, apply_resolution,
  check_version, id_if_stored,
}
use ogaforeman.Services.Approvals.Decision.{
  ResolutionCommand, resolution_message_id, linked_request, resolved, check_event,
}
use ogaforeman.Services.Approvals.Writes.{
  require_approval-ok, version_approval-ok, save_approval-ok, IsAnswered, IsAnswered-frame,
  IsAnnounced, answer_request-IsAnswered, answer_request-outbox, answer_request-approvals,
  announce-stored, announce-frame,
}

module _ (x : Texts) (access : ProjectAccessContext) (c : ResolutionCommand)
    (context : MutationContext) (status : ApprovalStatus) (received : ℕ) where
  -- The id of the message depends on the id of the approval.
  same_message_id :
      (a b : Approval) (s s' : Session)
      → Saved approval_entity
          (resolved c access.actor.user_id status a)
          c.expected_version
          s.approvals
          s'.approvals
          b
      → resolution_message_id x b status ≡ resolution_message_id x a status
  unfolding resolution_message_id resolved at_version
  same_message_id a b s s' k = rw k.stored refl

  -- The writes for a pending approval `a`, as one decision.
  pub record IsDecided (a : Approval) (request : Option MaterialRequest) (s s' : Session)
      (b : Approval) : Type 0 where
    pub saved :
        Saved approval_entity
          (resolved c access.actor.user_id status a)
          c.expected_version
          s.approvals
          s'.approvals
          b
    pub decided : b.status ≡ status
    pub resolver : b.resolved_by ≡ some access.actor.user_id
    pub request_answered : IsAnswered c status request s s'
    pub checked : check_event c context received ≡ ok tt
    pub message : OutboxMessage
    pub stored : get s'.outbox c.project_id (resolution_message_id x a status) ≡ some message
    pub announced :
        IsAnnounced x access c context status received b message
          (get s.outbox c.project_id (resolution_message_id x a status))

  decide-IsDecided :
      (a : Approval) (request : Option MaterialRequest) (s : Session) (r : Resolution)
      → (decide x access c context status received a request
          (get s.outbox c.project_id (resolution_message_id x a status))
          s).0
        ≡ ok r
      → IsDecided a request s
          (decide x access c context status received a request
            (get s.outbox c.project_id (resolution_message_id x a status))
            s).1
          r.0
  unfolding decide resolved at_version
  decide-IsDecided a request s r h =
      let id = resolution_message_id x a status in
      let found = get s.outbox c.project_id id in
      let saving : Exec Session Approval = on_approvals (
        save_authorized access approval_entity (resolved c access.actor.user_id status a)
          c.expected_version) in
      let (b, wrote, e1) = >>=-eq-ok saving _ s h in
      let h1 = ap (λ p. p.0) (sym e1) ∙ h in
      let answering = answer_request x access c context status received b request in
      let (u, told, e2) = >>=-eq-ok answering _ (saving s).1 h1 in
      let t = (answering (saving s).1).1 in
      let h2 = ap (λ p. p.0) (sym e2) ∙ h1 in
      let (_, checked, e3) = >>=-eq-ok (lift (check_event c context received)) _ t h2 in
      let h3 = ap (λ p. p.0) (sym e3) ∙ h2 in
      let announcing = announce x access c context status received id b found in
      let (o, queued, e4) = >>=-eq-ok announcing _ t h3 in
      let k =
        save_approval-ok access (resolved c access.actor.user_id status a) b c.expected_version s
          wrote in
      let whole : decide x access c context status received a request found s
          ≡ (ok (b, o), (announcing t).1) =
        e1 ∙ (e2 ∙ (e3 ∙ e4)) in
      let is_r : r ≡ (b, o) = ground (arith, ap (λ p. p.0) (sym whole) ∙ h) in
      let (approvals_kept, requests_kept) =
        announce-frame x access c context status received b id found t in
      let approvals_same : (announcing t).1.approvals ≡ (saving s).1.approvals =
        approvals_kept
        ∙ answer_request-approvals x access c context status received b request (saving s).1 in
      let (m, stored, told_of) =
        announce-stored x access c context status received b id found t o
          (ap (λ repo. get repo c.project_id id)
            (answer_request-outbox x access c context status received b request (saving s).1))
          (same_message_id a b s (saving s).1 k) queued in
      rw (whole, is_r)
        (record {
          saved = rw approvals_same k;
          decided = ap (λ (a : Approval). a.status) k.stored;
          resolver = ap (λ (a : Approval). a.resolved_by) k.stored;
          request_answered =
              IsAnswered-frame c status request (saving s).1 t s (announcing t).1 refl
                (sym requests_kept)
                (answer_request-IsAnswered x access c context status received b request (saving s).1
                  told);
          checked = checked;
          message = m;
          stored = stored;
          announced = told_of;
        })

  -- How a resolution ends that returns `r` for the approval `a`: it was resolved with this status
  -- before and nothing has changed, or it was pending and the writes were made.
  pub data IsResolution (a : Approval) (s : Session) : Session → Resolution → Type 0 where
    kept :
        {o : Option String}
        → a.status ≢ ApprovalStatus.pending
        → a.status ≡ status
        → IsResolution a s s (a, o)
    decided :
        {s' : Session} {r : Resolution} (request : Option MaterialRequest)
        → a.status ≡ ApprovalStatus.pending
        → linked_request a a.id (list s.requests c.project_id) ≡ ok request
        → IsDecided a request s s' r.0
        → IsResolution a s s' r

  keep_decision-IsResolution :
      (a : Approval) (s : Session) (r : Resolution)
      → same_approval a.status ApprovalStatus.pending ≡ false
      → (keep_decision x access c context status received a s).0 ≡ ok r
      → IsResolution a s (keep_decision x access c context status received a s).1 r
  unfolding keep_decision
  keep_decision-IsResolution a s r e h = elim (Bool-cases (same_approval a.status status)) [
    | inl same ↦
        let is_r : r ≡ (a, id_if_stored s c.project_id (resolution_message_id x a status)) =
          ground (arith, h, same) in
        rw (same, is_r)
          (IsResolution.kept (λ p. ground (arith, p, e)) (same_approval-eq a.status status same))
    | inr other ↦ absurd (ground (arith, h, other))
  ]

  decide_found-IsResolution :
      (a : Approval) (s : Session) (r : Resolution)
      → (decide_found x access c context status received a s).0 ≡ ok r
      → IsResolution a s (decide_found x access c context status received a s).1 r
  unfolding decide_found
  decide_found-IsResolution a s r h =
      elim (Bool-cases (same_approval a.status ApprovalStatus.pending)) [
        | inl e ↦
            let (request, linked, rest) =
              >>=-eq-ok (lift (linked_request a a.id (list s.requests c.project_id))) _ s
                (rw e at h) in
            rw (e, rest)
              (IsResolution.decided request (same_approval-eq a.status ApprovalStatus.pending e)
                linked (decide-IsDecided a request s r (ap (λ p. p.0) (sym rest) ∙ (rw e at h))))
        | inr e ↦ rw e (keep_decision-IsResolution a s r e (rw e at h))
      ]

  -- A resolution of the stored approval that returns either found it resolved with the same
  -- status and changed nothing, or found it pending and made one decision of it: the approval has
  -- the status and the user who resolved it, the linked request, if it was open, is approved or
  -- cancelled with it, and the outbox holds the message that was queued for the decision before, or
  -- a new one that announces it, with the approval, the user and the notes.
  pub apply_resolution-IsResolution :
      (s : Session) (r : Resolution)
      → (apply_resolution x access c context status received s).0 ≡ ok r
      → (a : Approval) × (get s.approvals access.project_id c.approval_id ≡ some a)
        × IsResolution a s (apply_resolution x access c context status received s).1 r
  unfolding apply_resolution
  apply_resolution-IsResolution s r h =
      let reading : Exec Session Approval =
        on_approvals (require_authorized access access.project_id c.approval_id) in
      let (a, read, e1) = >>=-eq-ok reading _ s h in
      let (found, same) = require_approval-ok access access.project_id c.approval_id s a read in
      let h1 = ap (λ p. p.0) (sym e1) ∙ h in
      let versioning : Exec Session (Option ℕ) =
        on_approvals (version_authorized access access.project_id c.approval_id) in
      let (v, got, e2) = >>=-eq-ok versioning _ (reading s).1 h1 in
      let h2 = ap (λ p. p.0) (sym e2) ∙ h1 in
      let t = (versioning (reading s).1).1 in
      let (_, _, e3) = >>=-eq-ok (lift (check_version c.expected_version v)) _ t h2 in
      let unchanged : t ≡ s =
        version_approval-ok access access.project_id c.approval_id (reading s).1 v got ∙ same in
      let whole : apply_resolution x access c context status received s
          ≡ decide_found x access c context status received a s =
        e1 ∙ (e2 ∙ (e3 ∙ ap (decide_found x access c context status received a) unchanged)) in
      (a, found, rw whole (decide_found-IsResolution a s r (ap (λ p. p.0) (sym whole) ∙ h)))
