-- ===== src/Services/Notifications/Rounds.antt =====
-- The rounds of `deliver` (app/services/delivery_notifications.py): each makes one more attempt.
use ogaforeman.Base.{
  ℕ, ◌+◌, ◌≡◌, refl, sym, ap, ◌∙◌, String, Bool, true, false, some, arith, ok, err, Error, inl, inr,
  Result-cases, Bool-cases, ◌⊎◌, str_eq,
}
use ogaforeman.Base.Exec.{pure, resume, >>=-eq-ok}
use ogaforeman.Domain.Enums.{OutboxStatus}
use ogaforeman.Domain.ProcessedEvent.{ProjectEvent}
use ogaforeman.Domain.Activity.{Texts}
use ogaforeman.Domain.Outbox.{OutboxMessage}
use ogaforeman.Repositories.Memory.{at_version}
use ogaforeman.Repositories.Memory.Transactions.{run_transaction-err}
use ogaforeman.Services.Session.{Session}
use ogaforeman.Services.Notifications.Messages.{
  NotificationService, NotificationDeliveryResult, GatewayError, permanent_error, claimed, failed,
  delivered, is_last,
}
use ogaforeman.Services.Notifications.{
  Answer, sent_notice, failure_notice, close, claim, record_failure, record_success,
}
use ogaforeman.Services.Notifications.Delivery.{
  Round, Attempt, Step, attempt_of, is_gateway, is_done, is_dead, next_step, attempt, handle,
  after_claim, round,
}
use ogaforeman.Services.Notifications.Steps.{IsClaimed, IsRefused, claim-ok, close-ok}
use ogaforeman.Services.Notifications.Ownership.{claimed-IsHeld}
use ogaforeman.Services.Outbox.Calls.{IsTracked, save-IsTracked}

-- How the `try` block leaves the session.
data IsAttempt (s : Session) : Attempt → Session → Type 0 where
  was_sent : {m : OutboxMessage} {s' : Session} → is_done m ≡ true → IsAttempt s (Attempt.sent m) s'
  was_gateway : {e : GatewayError} → IsAttempt s (Attempt.gateway e) s
  was_broken : IsAttempt s Attempt.broken s

module _ (x : Texts) (c : NotificationService) (event : ProjectEvent) (run_id : String) where
  record_success-done :
      (m : OutboxMessage) (result : NotificationDeliveryResult) (now audit : ℕ) (s : Session)
      (b : OutboxMessage)
      → (record_success x c event run_id m result now audit s).0 ≡ ok b
      → is_done b ≡ true
  unfolding record_success delivered at_version
  record_success-done m result now audit s b h =
      elim (Bool-cases (str_eq result.provider c.provider.provider)) [
        | inl e ↦
            let k =
              close-ok x c event run_id m (delivered result now) (sent_notice c.provider) audit s b
                (rw e at h) in
            rw k.saved.stored refl
        | inr e ↦ absurd (ground (arith, h))
      ]

  record_success-err :
      (m : OutboxMessage) (result : NotificationDeliveryResult) (now audit : ℕ) (s : Session)
      (e : Error)
      → (record_success x c event run_id m result now audit s).0 ≡ err e
      → (record_success x c event run_id m result now audit s).1 ≡ s
  unfolding record_success close
  record_success-err m result now audit s e h =
      elim (Bool-cases (str_eq result.provider c.provider.provider)) [
        | inl same ↦ rw same (run_transaction-err _ s e (rw same at h))
        | inr other ↦ rw other refl
      ]

  attempt_of-err : (e : Error) (s : Session) → IsAttempt s (attempt_of (err e)) s
  attempt_of-err e s = elim (Bool-cases (is_gateway e)) [
    | inl h ↦ rw h IsAttempt.was_gateway
    | inr h ↦ rw h IsAttempt.was_broken
  ]

  attempt-ends :
      (m : OutboxMessage) (r : Round) (a : Answer) (s : Session)
      → (t : Attempt) × ((attempt x c event run_id m r a s).0 ≡ ok t)
        × IsAttempt s t (attempt x c event run_id m r a s).1
  unfolding attempt
  attempt-ends m r (Answer.took result) s =
      elim (Result-cases
        (record_success x c event run_id m result r.success_time r.success_audit s).0) [
          | inl (b, e) ↦ (
            Attempt.sent b,
            rw e refl,
            IsAttempt.was_sent (record_success-done m result r.success_time r.success_audit s b e),
          )
          | inr (y, e) ↦ (
            attempt_of (err y),
            rw e refl,
            rw (record_success-err m result r.success_time r.success_audit s y e)
                (attempt_of-err y s),
          )
        ]
  attempt-ends m r (Answer.refused e) s = (Attempt.gateway e, refl, IsAttempt.was_gateway)
  attempt-ends m r Answer.crashed s = (Attempt.broken, refl, IsAttempt.was_broken)

  -- What the end of a round says: a message that is returned is done, and after a round that goes
  -- on, the message is stored with one attempt more.
  pub data IsRound (m : OutboxMessage) (s' : Session) : Step → Type 0 where
    returned : {b : OutboxMessage} → is_done b ≡ true → IsRound m s' (Step.returns b)
    broke : {b : OutboxMessage} → IsRound m s' (Step.breaks b)
    went_on :
        {b : OutboxMessage}
        → IsTracked event.project_id s' b
        → b.attempts ≡ m.attempts + 1
        → IsRound m s' (Step.continues b)

  -- A failure that is recorded keeps the attempts of the message.
  record_failure-IsTracked :
      (m : OutboxMessage) (e : GatewayError) (now audit : ℕ) (s : Session) (b : OutboxMessage)
      → IsTracked event.project_id s m
      → (record_failure x c event run_id m e now audit s).0 ≡ ok b
      → IsTracked event.project_id (record_failure x c event run_id m e now audit s).1 b
        × (b.attempts ≡ m.attempts)
  unfolding record_failure failed at_version
  record_failure-IsTracked m e now audit s b t h =
      let k =
        close-ok x c event run_id m (failed c m e now)
          (failure_notice x c.provider e (is_last c m e)) audit s b h in
      let is_m : k.current ≡ m = ground (arith, t.found, k.found) in
      let (tracked, _) =
        save-IsTracked event.project_id (failed c m e now k.current) b (some k.current.version) s
          (record_failure x c event run_id m e now audit s).1 (rw is_m t.project) k.saved in
      (
        tracked,
        ap (λ (m : OutboxMessage). m.attempts) k.saved.stored
            ∙ ap (λ (m : OutboxMessage). m.attempts) is_m,
      )

  next_step-IsRound :
      (m saved : OutboxMessage) (s : Session)
      → IsTracked event.project_id s saved
      → saved.attempts ≡ m.attempts + 1
      → IsRound m s (next_step saved)
  next_step-IsRound m saved s t n = elim (Bool-cases (is_dead saved)) [
    | inl e ↦ rw e broke
    | inr e ↦ rw e (went_on t n)
  ]

  -- The `except` clauses, after the `try` block on a message `b` that was claimed.
  handle-ok :
      (m b : OutboxMessage) (r : Round) (t : Attempt) (s s' : Session) (step : Step)
      → IsTracked event.project_id s b
      → b.attempts ≡ m.attempts + 1
      → IsAttempt s t s'
      → (handle x c event run_id b r t s').0 ≡ ok step
      → IsRound m (handle x c event run_id b r t s').1 step
  unfolding handle
  handle-ok m b r (Attempt.sent d) s s' step t n (IsAttempt.was_sent done) h =
      let is_step : step ≡ Step.returns d = ground (arith, h) in rw is_step (returned done)
  handle-ok m b r (Attempt.gateway e) s s' step t n (IsAttempt.was_gateway) h =
      let failing = record_failure x c event run_id b e r.failure_time r.failure_audit in
      let (saved, wrote, rest) = >>=-eq-ok failing (λ saved. pure (next_step saved)) s h in
      let (tracked, kept) =
        record_failure-IsTracked b e r.failure_time r.failure_audit s saved t wrote in
      let answer : ok (next_step saved) ≡ ok step = ap (λ p. p.0) (sym rest) ∙ h in
      let is_step : step ≡ next_step saved = ground (arith, answer) in
      rw (is_step, rest) (next_step-IsRound m saved (failing s).1 tracked (kept ∙ n))
  handle-ok m b r Attempt.broken s s' step t n (IsAttempt.was_broken) h =
      let failing =
        record_failure x c event run_id b permanent_error r.failure_time r.failure_audit in
      let (saved, wrote, rest) = >>=-eq-ok failing (λ saved. pure (Step.breaks saved)) s h in
      let answer : ok (Step.breaks saved) ≡ ok step = ap (λ p. p.0) (sym rest) ∙ h in
      let is_step : step ≡ Step.breaks saved = ground (arith, answer) in rw is_step broke

  -- A claim that was made, and what follows.
  claimed-IsRound :
      (m : OutboxMessage) (r : Round) (s s' : Session) (b : OutboxMessage) (step : Step)
      → IsTracked event.project_id s m
      → IsClaimed x c event run_id m.id r.token r.claim_time s s' b
      → (after_claim x c event run_id r (record { message = b; claimed = true }) s').0 ≡ ok step
      → IsRound m
          (after_claim x c event run_id r (record { message = b; claimed = true }) s').1
          step
  unfolding after_claim at_version claimed
  claimed-IsRound m r s s' b step t k h =
      let held = claimed-IsHeld x c event run_id m.id r.token r.claim_time s s' m b t refl k in
      let is_m : k.was ≡ m = ground (arith, t.found, k.found) in
      let processing : b.status ≡ OutboxStatus.processing =
        ap (λ (m : OutboxMessage). m.status) k.saved.stored in
      let one_more : b.attempts ≡ m.attempts + 1 =
        ap (λ (m : OutboxMessage). m.attempts) k.saved.stored
        ∙ ap (λ (m : OutboxMessage). m.attempts + 1) is_m in
      let not_done : is_done b ≡ false = rw processing refl in
      let not_dead : is_dead b ≡ false = rw processing refl in
      let trying = attempt x c event run_id b r r.answer in
      let (a, tried, left) = attempt-ends b r r.answer s' in
      let onward : after_claim x c event run_id r (record { message = b; claimed = true }) s'
          ≡ handle x c event run_id b r a (trying s').1 =
        rw (not_done, not_dead)
          (ap (λ q. resume q (handle x c event run_id b r) (trying s').1) tried) in
      rw onward (
        handle-ok m b r a s' (trying s').1 step held.tracked one_more left
          (ap (λ p. p.0) (sym onward) ∙ h))

  refused-IsRound :
      (m : OutboxMessage) (r : Round) (s : Session) (b : OutboxMessage) (step : Step)
      → (after_claim x c event run_id r (record { message = b; claimed = false }) s).0 ≡ ok step
      → IsRound m
          (after_claim x c event run_id r (record { message = b; claimed = false }) s).1
          step
  unfolding after_claim
  refused-IsRound m r s b step h = elim (Bool-cases (is_done b)) [
    | inl e ↦ let is_step : step ≡ Step.returns b = ground (arith, h) in rw is_step (returned e)
    | inr e ↦ let is_step : step ≡ Step.breaks b = ground (arith, h) in rw is_step broke
  ]

  after_claim-ok :
      (m : OutboxMessage) (r : Round) (s s' : Session) (b : OutboxMessage) (won : Bool)
      (step : Step)
      → IsTracked event.project_id s m
      → (won ≡ true × IsClaimed x c event run_id m.id r.token r.claim_time s s' b)
        ⊎ (won ≡ false × IsRefused x c event run_id m.id r.claim_time s s' b)
      → (after_claim x c event run_id r (record { message = b; claimed = won }) s').0 ≡ ok step
      → IsRound m (after_claim x c event run_id r (record { message = b; claimed = won }) s').1 step
  after_claim-ok m r s s' b true step t (inl (_, k)) h = claimed-IsRound m r s s' b step t k h
  after_claim-ok m r s s' b true step t (inr (e, _)) h = absurd (cc)
  after_claim-ok m r s s' b false step t (inl (e, _)) h = absurd (cc)
  after_claim-ok m r s s' b false step t (inr _) h = refused-IsRound m r s' b step h

  -- A round that ends without an exception.
  pub round-ok :
      (m : OutboxMessage) (r : Round) (s : Session) (step : Step)
      → IsTracked event.project_id s m
      → (round x c event run_id m r s).0 ≡ ok step
      → IsRound m (round x c event run_id m r s).1 step
  unfolding round
  round-ok m r s step t h =
      let claiming = claim x c event run_id m.id r.token r.claim_time r.claim_audit in
      let (res, made, rest) = >>=-eq-ok claiming (after_claim x c event run_id r) s h in
      let answer : (after_claim x c event run_id r res (claiming s).1).0 ≡ ok step =
        ap (λ p. p.0) (sym rest) ∙ h in
      rw rest (
        after_claim-ok m r s (claiming s).1 res.message res.claimed step t
          (claim-ok x c event run_id m.id r.token r.claim_time r.claim_audit s res made) answer)
