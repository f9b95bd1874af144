-- ===== src/Services/Notifications/Delivers.antt =====
-- A message that is due is delivered (app/services/delivery_notifications.py), if the provider
-- takes it.
use Prim.Native.String.{◌++◌, count}
use ogaforeman.Base.{
  ℕ, suc, ◌+◌, ◌<◌, ◌≤◌, ◌≡◌, refl, ap, ◌∙◌, String, true, false, none, some, arith, Result, ok,
  eq_refl, str_eq, leb,
}
use ogaforeman.Base.Strip.{strip}
use ogaforeman.Base.Exec.{Exec, pure, resume, ◌>>=◌, settle}
use ogaforeman.Domain.Enums.{OutboxStatus}
use ogaforeman.Domain.ProcessedEvent.{ProjectEvent}
use ogaforeman.Domain.Activity.{Texts, build_event, activity_id}
use ogaforeman.Domain.Outbox.{OutboxMessage, outbox_message}
use ogaforeman.Repositories.Memory.{get, find, require, at_version, run_transaction}
use ogaforeman.Repositories.Memory.Find.{get_of_find, find-write}
use ogaforeman.Services.Session.{Session, on_outbox}
use ogaforeman.Services.Outbox.Calls.{require_then}
use ogaforeman.Services.Notifications.Messages.{
  NotificationService, NotificationDeliveryResult, claimed, delivered,
}
use ogaforeman.Services.Notifications.{
  Answer, ClaimResult, attempt_notice, sent_notice, claim_message, claim, close_message, close,
  record_success, notice_event, notice_context,
}
use ogaforeman.Services.Notifications.Delivery.{
  Round, Step, attempt, attempt_of, handle, after_claim, round, deliver_loop,
}
use ogaforeman.Services.Notifications.Progress.{
  notice_id, noted, stored, save_noted-noted, get-stored, IsDue, claimed-valid, delivered-valid,
}

-- A transaction whose operation returns is its operation.
run_transaction-returns :
    {A : Type 0} (m : Exec Session A) (s t : Session) (a : A)
    → m s ≡ (ok a, t)
    → run_transaction m s ≡ (ok a, t)
unfolding run_transaction
run_transaction-returns {A} m s t a h = ap (λ (p : Result A × Session). settle s p.0 p.1) h

module _ (x : Texts) (c : NotificationService) (event : ProjectEvent) (run_id : String)
    (m : OutboxMessage) (r : Round) (s : Session)
    (due : IsDue x c event run_id m r.token r.claim_time s)
    (claim_free : get s.activities event.project_id
        (notice_id x c event run_id m.id ("claim-" ++ x.int_text (m.attempts + 1)))
      ≡ none) where
  -- the message after the claim, and the session after it
  holding : OutboxMessage
  holding = at_version outbox_message (claimed c r.token r.claim_time m) (m.version + 1)

  after : Session
  unfolding holding
  after =
      noted x c event run_id (attempt_notice x c.provider) r.claim_audit holding (m.version + 1) s

  claim-returns :
      claim x c event run_id m.id r.token r.claim_time r.claim_audit s
      ≡ (ok (record { message = holding; claimed = true }), after)
  unfolding claim claim_message holding after claimed at_version
  claim-returns =
      let go = claim_message x c event run_id r.token r.claim_time r.claim_audit in
      let saved =
        save_noted-noted x c event run_id (attempt_notice x c.provider) r.claim_audit
          (claimed c r.token r.claim_time m) m m.version s
          (ap (λ p. find s.outbox p m.id) due.project ∙ due.found)
          (claimed-valid x c event run_id m r.token r.claim_time (m.version + 1) due.valid due.due
            due.token_given)
          claim_free in
      run_transaction-returns (on_outbox (require event.project_id m.id) >>= go) s after
        (record { message = holding; claimed = true })
        (require_then event.project_id m.id s m go
            (get_of_find s.outbox event.project_id m.id m m.version due.found)
          ∙ rw due.due (
              ap
                (λ (q : Result OutboxMessage × Session).
                  resume q.0
                    (λ saved. pure {A = ClaimResult} (record { message = saved; claimed = true }))
                    q.1)
                saved))

  holding-found : find after.outbox event.project_id m.id ≡ some (holding, m.version + 1)
  unfolding after noted stored holding at_version claimed
  holding-found =
      find-write m.project_id m.id event.project_id m.id (holding, m.version + 1) s.outbox
      ∙ rw (due.project, eq_refl event.project_id, eq_refl m.id) refl

  module _ (result : NotificationDeliveryResult) (provider : result.provider ≡ c.provider.provider)
      (short : count result.provider_message_id ≤ 500) (later : m.created_at ≤ r.success_time)
      (sent_free : get s.activities event.project_id (notice_id x c event run_id m.id "sent")
        ≡ none)
      (distinct_ids : str_eq
          (notice_id x c event run_id m.id ("claim-" ++ x.int_text (m.attempts + 1)))
          (notice_id x c event run_id m.id "sent")
        ≡ false) where
    -- the message after the delivery
    sent : OutboxMessage
    unfolding holding
    sent = at_version outbox_message (delivered result r.success_time holding) (m.version + 1 + 1)

    sent_free_after :
        get after.activities event.project_id (notice_id x c event run_id m.id "sent") ≡ none
    unfolding after noted notice_id notice_event notice_context build_event activity_id holding
        at_version claimed
    sent_free_after = get-stored event.project_id _ _ _ distinct_ids sent_free

    finished : Session
    unfolding sent after
    finished =
        noted x c event run_id (sent_notice c.provider) r.success_audit sent (m.version + 1 + 1)
          after

    record_success-returns :
        record_success x c event run_id holding result r.success_time r.success_audit after
        ≡ (ok sent, finished)
    unfolding record_success close close_message sent finished holding delivered at_version claimed
    record_success-returns =
        let go =
          close_message x c event run_id holding (delivered result r.success_time)
            (sent_notice c.provider) r.success_audit in
        let saved =
          save_noted-noted x c event run_id (sent_notice c.provider) r.success_audit
            (delivered result r.success_time holding) holding (m.version + 1) after
            (ap (λ p. find after.outbox p m.id) due.project ∙ holding-found)
            (delivered-valid x c event run_id m r.token r.claim_time (m.version + 1)
              (m.version + 1 + 1) r.success_time result due.valid later short)
            sent_free_after in
        rw (provider, eq_refl c.provider.provider)
          (run_transaction-returns (on_outbox (require event.project_id m.id) >>= go) after finished
            sent
            (require_then event.project_id m.id after holding go (
                get_of_find after.outbox event.project_id m.id holding (m.version + 1)
                  holding-found)
              ∙ rw (eq_refl r.token) saved))

    round-returns :
        r.answer ≡ Answer.took result
        → round x c event run_id m r s ≡ (ok (Step.returns sent), finished)
    unfolding round after_claim attempt handle holding claimed at_version
    round-returns takes =
        ap (λ (q : Result ClaimResult × Session). resume q.0 (after_claim x c event run_id r) q.1)
          claim-returns
        ∙ (ap
              (λ a.
                (attempt x c event run_id holding r a >>= handle x c event run_id holding r) after)
              takes
            ∙ ap
                (λ (q : Result OutboxMessage × Session).
                  resume (ok (attempt_of q.0)) (handle x c event run_id holding r) q.1)
                record_success-returns)

    -- A valid message that is stored and due, with an attempt left, is delivered in the round in
    -- which the provider takes it, if the provider names itself and gives an id of at most 500
    -- characters, the clock is not before the creation of the message, and the two entries of the
    -- audit have ids that are free and differ: the loop returns the message, completed, with the id
    -- that the provider gave, stripped.
    pub due-delivers :
        (fuel i : ℕ) (rounds : ℕ → Round)
        → rounds i ≡ r
        → r.answer ≡ Answer.took result
        → m.attempts < c.max_attempts
        → (b : OutboxMessage) × (s' : Session) × (deliver_loop x c event run_id
              (suc fuel)
              rounds
              i
              m
              s
            ≡ some (ok b, s'))
          × (b.status ≡ OutboxStatus.completed)
          × (b.provider_message_id ≡ some (strip result.provider_message_id))
    unfolding deliver_loop sent delivered at_version
    due-delivers fuel i rounds this takes few =
        let more : leb c.max_attempts m.attempts ≡ false = ground (arith, few) in
        (sent, finished, rw (deliver_loop, more, this, round-returns takes) refl, refl, refl)
