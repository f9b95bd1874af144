-- ===== src/Services/Outbox/Publication.antt =====
-- A message that `OutboxService.process` (app/services/outbox.py) handled, and what a later call does.
use Prim.Native.String.{slice}
use ogaforeman.Base.{
  ℕ, ◌+◌, ◌≡◌, refl, sym, ap, ◌∙◌, String, true, false, Option, none, some, arith, ok,
  if◌then◌else◌,
}
use ogaforeman.Base.Strip.{strip}
use ogaforeman.Base.Exec.{Exec, pure, resume, >>=-eq-ok}
use ogaforeman.Domain.Enums.{OutboxStatus}
use ogaforeman.Domain.Activity.{Texts, MutationContext}
use ogaforeman.Domain.Outbox.{OutboxMessage}
use ogaforeman.Repositories.Memory.{get, run_transaction}
use ogaforeman.Repositories.Memory.Transactions.{run_transaction-same}
use ogaforeman.Services.Session.{Session}
use ogaforeman.Services.Outbox.{Failure, Handler, claim, settle, process}
use ogaforeman.Services.Outbox.Calls.{IsTracked}
use ogaforeman.Services.Outbox.Process.{
  is_completed, IsClaimed, IsSettled, claim-ok, settle-ok, claim_read,
}

-- A handler that publishes the message and leaves the outbox alone.
pub record IsPublisher (handler : Handler) : Type 0 where
  pub keeps : (b : OutboxMessage) (s : Session) → (handler b s).1.outbox ≡ s.outbox

module _ (x : Texts) (audit : Option MutationContext) where
  -- The claim of `process` took the message `m`: `claimed` and `t` are what the handler gets, the
  -- message in processing with one attempt more, and the session that the claim left.
  pub record IsTaken (p : String) (now : ℕ) (m : OutboxMessage) (s : Session)
      (claimed : OutboxMessage) (t : Session) : Type 0 where
    pub took : run_transaction (claim x audit p m.id now) s ≡ (ok claimed, t)
    pub busy : claimed.status ≡ OutboxStatus.processing
    pub counted : claimed.attempts ≡ m.attempts + 1
    pub same : claimed.id ≡ m.id

  -- How `process` ended for the message `m`: it was completed before, or the handler was called
  -- with what the claim left, and its outcome is the status of the message.
  pub data IsProcessed (p : String) (now : ℕ) (handler : Handler) (m : OutboxMessage) (s : Session)
      : Session → OutboxMessage → Type 0 where
    before : is_completed m ≡ true → IsProcessed p now handler m s s m
    succeeded :
        {s' : Session} {b : OutboxMessage} (claimed : OutboxMessage) (t : Session)
        → IsTaken p now m s claimed t
        → (handler claimed t).0 ≡ none
        → b.status ≡ OutboxStatus.completed
        → b.attempts ≡ m.attempts + 1
        → IsProcessed p now handler m s s' b
    failed :
        {s' : Session} {b : OutboxMessage} (claimed : OutboxMessage) (t : Session)
        (failure : Failure)
        → IsTaken p now m s claimed t
        → (handler claimed t).0 ≡ some failure
        → b.status ≡ OutboxStatus.failed
        → b.last_error ≡ some (strip (slice failure.text 0 5_000))
        → b.attempts ≡ m.attempts + 1
        → IsProcessed p now handler m s s' b

  -- The rest of `process`, after the claim.
  after_claim : String → String → Handler → ℕ → ℕ → OutboxMessage → Exec Session OutboxMessage
  after_claim p id handler now audit_time m s =
      run_transaction (settle x audit p id (handler m s).0 now audit_time) (handler m s).1

  conclude :
      (p : String) (begin : ℕ) (handler : Handler) (s t s' : Session) (m claimed b : OutboxMessage)
      (o : Option Failure)
      → claimed.project_id ≡ p
      → IsTaken p begin m s claimed t
      → (handler claimed t).0 ≡ o
      → IsSettled x audit claimed s' b o
      → IsTracked p s' b × (b.id ≡ claimed.id) × IsProcessed p begin handler m s s' b
  conclude p begin handler s t s' m claimed b none project n e
        (IsSettled.was_published done same tracked same_id) =
      (rw (← project) tracked, same_id, IsProcessed.succeeded claimed t n e done (same ∙ n.counted))
  conclude p begin handler s t s' m claimed b (some failure) project n e
        (IsSettled.was_failed done text same tracked same_id) =
      (
        rw (← project) tracked,
        same_id,
        IsProcessed.failed claimed t failure n e done text (same ∙ n.counted),
      )

  settled-IsProcessed :
      (p : String) (handler : Handler) (begin now audit_time : ℕ) (s t : Session)
      (m claimed b : OutboxMessage)
      → IsPublisher handler
      → IsTracked p t claimed
      → IsTaken p begin m s claimed t
      → (after_claim p claimed.id handler now audit_time claimed t).0 ≡ ok b
      → IsTracked p (after_claim p claimed.id handler now audit_time claimed t).1 b
        × (b.id ≡ claimed.id)
        × IsProcessed p begin handler m s
            (after_claim p claimed.id handler now audit_time claimed t).1
            b
  unfolding after_claim
  settled-IsProcessed p handler begin now audit_time s t m claimed b publisher tracked n h =
      let found : get (handler claimed t).1.outbox p claimed.id ≡ some claimed =
        rw (publisher.keeps claimed t) tracked.found in
      conclude p begin handler s t (after_claim p claimed.id handler now audit_time claimed t).1 m
        claimed b (handler claimed t).0 tracked.project n refl
        (settle-ok x audit p claimed.id (handler claimed t).0 now audit_time (handler claimed t).1
          claimed b found h)

  finish : String → String → Handler → ℕ → ℕ → OutboxMessage → Exec Session OutboxMessage
  unfolding after_claim
  finish p id handler now audit_time m =
      if is_completed m then pure m else after_claim p id handler now audit_time m

  finish-IsProcessed :
      (p : String) (handler : Handler) (begin now audit_time : ℕ) (s t : Session)
      (m claimed b : OutboxMessage)
      → IsPublisher handler
      → IsTracked p s m
      → IsClaimed x audit m s t claimed
      → run_transaction (claim x audit p m.id begin) s ≡ (ok claimed, t)
      → (finish p m.id handler now audit_time claimed t).0 ≡ ok b
      → IsTracked p (finish p m.id handler now audit_time claimed t).1 b
        × (b.id ≡ m.id)
        × IsProcessed p begin handler m s (finish p m.id handler now audit_time claimed t).1 b
  unfolding finish
  finish-IsProcessed p handler begin now audit_time s t m claimed b publisher tracked
        (IsClaimed.was_completed done is_m same) took h =
      let answer : b ≡ m = ground (arith, h, is_m, done) in
      rw (is_m, done, answer, same) (tracked, refl, IsProcessed.before done)
  finish-IsProcessed p handler begin now audit_time s t m claimed b publisher tracked
        (IsClaimed.was_claimed open_ busy n stored same_id) took h =
      let open_now : is_completed claimed ≡ false = rw busy refl in
      let step : finish p m.id handler now audit_time claimed t
          ≡ after_claim p claimed.id handler now audit_time claimed t =
        ap (λ i. finish p i handler now audit_time claimed t) (sym same_id) ∙ rw open_now refl in
      let (kept, same, done) =
        settled-IsProcessed p handler begin now audit_time s t m claimed b publisher
          (rw (← tracked.project) stored)
          (record { took = took; busy = busy; counted = n; same = same_id })
          (ap (λ q. q.0) (sym step) ∙ h) in
      rw step (kept, same ∙ same_id, done)

  completed_stays :
      (p id : String) (handler : Handler) (claim_time now audit_time : ℕ) (s : Session)
      (b : OutboxMessage)
      → get s.outbox p id ≡ some b
      → b.status ≡ OutboxStatus.completed
      → process x audit p id handler claim_time now audit_time s ≡ (ok b, s)
  unfolding process finish after_claim
  completed_stays p id handler claim_time now audit_time s b found completed =
      let done : is_completed b ≡ true = rw completed refl in
      let step : run_transaction (claim x audit p id claim_time) s ≡ (ok b, s) =
        run_transaction-same (claim x audit p id claim_time) s (ok b)
          (claim_read x audit p id claim_time s b found ∙ rw done refl) in
      ap (λ q. resume q.0 (finish p id handler now audit_time) q.1) step ∙ rw done refl

  -- A call of `process` by a handler that leaves the outbox alone, for a stored message, which
  -- returns: the message was completed before and nothing has changed, or the handler was called
  -- with the message and the session that the claim left, the message in processing with one
  -- attempt more, and the message is completed if the handler succeeded, and failed with the first
  -- 5000 characters of the exception's text, stripped, if it raised. The message is stored.
  pub process-IsProcessed :
      (p : String) (handler : Handler) (claim_time now audit_time : ℕ) (s : Session)
      (m b : OutboxMessage)
      → IsPublisher handler
      → IsTracked p s m
      → (process x audit p m.id handler claim_time now audit_time s).0 ≡ ok b
      → IsTracked p (process x audit p m.id handler claim_time now audit_time s).1 b
        × (b.id ≡ m.id)
        × IsProcessed p claim_time handler m s
            (process x audit p m.id handler claim_time now audit_time s).1
            b
  unfolding process finish after_claim
  process-IsProcessed p handler claim_time now audit_time s m b publisher tracked h =
      let (claimed, made, rest) =
        >>=-eq-ok (run_transaction (claim x audit p m.id claim_time))
          (finish p m.id handler now audit_time) s h in
      let t = (run_transaction (claim x audit p m.id claim_time) s).1 in
      rw rest (
        finish-IsProcessed p handler claim_time now audit_time s
          (run_transaction (claim x audit p m.id claim_time) s).1 m claimed b publisher tracked
          (claim-ok x audit p m.id claim_time s m claimed tracked.found made)
          (ap (λ r. (r, (run_transaction (claim x audit p m.id claim_time) s).1)) made)
          (ap (λ q. q.0) (sym rest) ∙ h))

  -- Once `process` has returned a completed message, every later call for it answers with this
  -- message, calls no handler and changes nothing.
  pub process-again :
      (p : String) (handler again : Handler) (claim_time now audit_time later end end_audit : ℕ)
      (s : Session) (m b : OutboxMessage)
      → IsPublisher handler
      → IsTracked p s m
      → (process x audit p m.id handler claim_time now audit_time s).0 ≡ ok b
      → b.status ≡ OutboxStatus.completed
      → process x audit p m.id again later end end_audit
          (process x audit p m.id handler claim_time now audit_time s).1
        ≡ (ok b, (process x audit p m.id handler claim_time now audit_time s).1)
  process-again p handler again claim_time now audit_time later end end_audit s m b publisher
        tracked h completed =
      let (kept, same, _) =
        process-IsProcessed p handler claim_time now audit_time s m b publisher tracked h in
      completed_stays p m.id again later end end_audit
        (process x audit p m.id handler claim_time now audit_time s).1 b
        (ap (λ i. get (process x audit p m.id handler claim_time now audit_time s).1.outbox p i)
            (sym same)
          ∙ kept.found)
        completed
