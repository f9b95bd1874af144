-- ===== src/Services/Notifications/Delivery.antt =====
-- `deliver` of app/services/delivery_notifications.py: the loop over the attempts. Each round of it
-- has its own readings of the clock, its token and its answer of the provider.
use ogaforeman.Base.{
  ℕ, zero, suc, ◌+◌, Bool, true, false, ◌||◌, not, String, Option, none, some, leb, if◌then◌else◌,
  Result, ok, err, Error, permanent_notification_gateway, delivery_notification,
}
use ogaforeman.Base.Dict.{Dict}
use ogaforeman.Base.Exec.{Exec, pure, raise, ◌>>=◌}
use ogaforeman.Domain.Enums.{OutboxStatus, same_outbox}
use ogaforeman.Domain.ProcessedEvent.{ProjectEvent}
use ogaforeman.Domain.Activity.{Json, Texts}
use ogaforeman.Domain.Outbox.{OutboxMessage}
use ogaforeman.Services.Session.{Session}
use ogaforeman.Services.Notifications.Messages.{NotificationService, GatewayError, permanent_error}
use ogaforeman.Services.Notifications.{
  Answer, ClaimResult, queue, claim, record_failure, record_success,
}

-- What one round of the loop meets: the clock at each transaction and at each entry of the audit.
pub record Round : Type 0 where
  pub token : String
  pub claim_time : ℕ
  pub claim_audit : ℕ
  pub answer : Answer
  pub success_time : ℕ
  pub success_audit : ℕ
  pub failure_time : ℕ
  pub failure_audit : ℕ

-- How the `try` block ends: it returns, or raises a `NotificationGatewayError` or something else.
pub data Attempt : Type 0 where
  sent : OutboxMessage → Attempt
  gateway : GatewayError → Attempt
  broken : Attempt

-- How a round ends: `return message`, `break` or `continue`.
pub data Step : Type 0 where
  returns : OutboxMessage → Step
  breaks : OutboxMessage → Step
  continues : OutboxMessage → Step

-- of the exceptions of `_record_success`, the one that is a `NotificationGatewayError`
abbrev pub is_gateway : Error → Bool
is_gateway permanent_notification_gateway = true
is_gateway _ = false

abbrev pub attempt_of : Result OutboxMessage → Attempt
attempt_of (ok m) = Attempt.sent m
attempt_of (err e) = if is_gateway e then Attempt.gateway permanent_error else Attempt.broken

abbrev pub is_done : OutboxMessage → Bool
is_done m = same_outbox m.status OutboxStatus.completed || same_outbox m.status OutboxStatus.skipped

abbrev pub is_dead : OutboxMessage → Bool
is_dead m = same_outbox m.status OutboxStatus.dead_lettered

-- after a failure that was recorded
abbrev pub next_step : OutboxMessage → Step
next_step saved = if is_dead saved then Step.breaks saved else Step.continues saved

-- What `deliver` returns or raises, and the session after it.
abbrev pub End : Type 0
End = Result OutboxMessage × Session

-- What the loop does with the end of a round.
abbrev pub settle_round :
    (OutboxMessage → Session → Option End) → Result Step × Session → Option End
settle_round again (err e, s) = some (err e, s)
settle_round again (ok (Step.returns done), s) = some (ok done, s)
settle_round again (ok (Step.breaks dead), s) = some (err delivery_notification, s)
settle_round again (ok (Step.continues next), s) = again next s

-- What `deliver` does with the message that was queued.
abbrev pub settle_queue :
    (OutboxMessage → Session → Option End) → Result OutboxMessage × Session → Option End
settle_queue loop (err e, s) = some (err e, s)
settle_queue loop (ok m, s) = elim (is_done m) [ true ↦ some (ok m, s) | false ↦ loop m s ]

module _ (x : Texts) (c : NotificationService) (event : ProjectEvent) (run_id : String) where
  -- the `try` block
  unfoldable pub attempt : OutboxMessage → Round → Answer → Exec Session Attempt
  unfolding record_success
  attempt m r (Answer.took result) s =
      let (done, s') = record_success x c event run_id m result r.success_time r.success_audit s in
      (ok (attempt_of done), s')
  attempt m r (Answer.refused e) s = (ok (Attempt.gateway e), s)
  attempt m r Answer.crashed s = (ok Attempt.broken, s)

  -- the `except` clauses
  unfoldable pub handle : OutboxMessage → Round → Attempt → Exec Session Step
  unfolding record_failure
  handle m r (Attempt.sent done) = pure (Step.returns done)
  handle m r (Attempt.gateway e) = do
    saved ← record_failure x c event run_id m e r.failure_time r.failure_audit
    pure (next_step saved)
  handle m r Attempt.broken = do
    saved ← record_failure x c event run_id m permanent_error r.failure_time r.failure_audit
    pure (Step.breaks saved)

  unfoldable pub after_claim : Round → ClaimResult → Exec Session Step
  unfolding attempt handle
  after_claim r result =
      if is_done result.message
      then pure (Step.returns result.message)
      else if is_dead result.message
      then pure (Step.breaks result.message)
      else if not result.claimed
      then raise delivery_notification
      else attempt result.message r r.answer >>= handle result.message r

  -- the body of the loop
  unfoldable pub round : OutboxMessage → Round → Exec Session Step
  unfolding claim after_claim
  round m r = claim x c event run_id m.id r.token r.claim_time r.claim_audit >>= after_claim r

  -- The loop, from the round with number `i`; `none` when the fuel has run out.
  unfoldable pub deliver_loop : ℕ → (ℕ → Round) → ℕ → OutboxMessage → Session → Option End
  unfolding round
  deliver_loop zero rounds i m s = none
  deliver_loop (suc fuel) rounds i m s = elim (leb c.max_attempts m.attempts) [
    | true ↦ some (err delivery_notification, s)
    | false ↦ settle_round (deliver_loop fuel rounds (i + 1)) (round m (rounds i) s)
  ]

  -- `deliver`, given the payload
  unfoldable pub deliver : ℕ → (ℕ → Round) → Dict Json → ℕ → ℕ → Session → Option End
  unfolding deliver_loop queue
  deliver fuel rounds payload now audit_time s =
      settle_queue (deliver_loop fuel rounds 0) (queue x c event run_id payload now audit_time s)
