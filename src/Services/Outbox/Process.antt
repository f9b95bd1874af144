-- ===== src/Services/Outbox/Process.antt =====
-- What `OutboxService.process` (app/services/outbox.py) did when it returned.
use Prim.Native.String.{slice}
use ogaforeman.Base.{
  ℕ, ◌+◌, ◌≡◌, refl, sym, ap, ◌∙◌, String, Bool, true, false, Option, none, some, arith, ok,
  if◌then◌else◌, Bool-cases, inl, inr, Option-cases,
}
use ogaforeman.Base.Exec.{pure}
use ogaforeman.Base.Strip.{strip}
use ogaforeman.Domain.Enums.{OutboxStatus, same_outbox}
use ogaforeman.Domain.Activity.{Texts, MutationContext}
use ogaforeman.Domain.Outbox.{OutboxMessage, outbox_message}
use ogaforeman.Repositories.Memory.{get, at_version, run_transaction}
use ogaforeman.Repositories.Memory.Guards.{Saved}
use ogaforeman.Repositories.Memory.Transactions.{run_transaction-done}
use ogaforeman.Services.Session.{Session}
use ogaforeman.Services.Outbox.{
  Stage, Failure, record_activity, save_staged, processing, publication_failed, published,
  claim_stage, failure_stage, published_stage, claim, close, settle,
}
use ogaforeman.Services.Outbox.Calls.{
  IsTracked, save-IsTracked, keep_activity-outbox, save_then-ok, require_then,
}

abbrev pub is_completed : OutboxMessage → Bool
is_completed m = same_outbox m.status OutboxStatus.completed

module _ (x : Texts) (audit : Option MutationContext) where
  record_activity-outbox :
      (m : OutboxMessage) (stage : Stage) (now : ℕ) (s : Session)
      → (record_activity x audit m stage now s).1.outbox ≡ s.outbox
  unfolding record_activity
  record_activity-outbox m stage now s = elim (Option-cases audit) [
    | inl e ↦ rw e refl
    | inr (context, e) ↦ rw e (keep_activity-outbox _ _ s)
  ]

  save_staged-ok :
      (stage : OutboxMessage → Stage) (now : ℕ) (next : OutboxMessage) (expected : Option ℕ)
      (s : Session) (b : OutboxMessage)
      → (save_staged x audit stage now next expected s).0 ≡ ok b
      → Saved outbox_message next expected s.outbox
          (save_staged x audit stage now next expected s).1.outbox
          b
  unfolding save_staged
  save_staged-ok stage now next expected s b h =
      save_then-ok (λ saved. record_activity x audit saved (stage saved) now)
        (λ d t. record_activity-outbox d (stage d) now t) next expected s b h

  -- What the claim did to the message `m`: nothing if it was completed, else one attempt more.
  pub data IsClaimed (m : OutboxMessage) (s s' : Session) (b : OutboxMessage) : Type 0 where
    was_completed : is_completed m ≡ true → b ≡ m → s' ≡ s → IsClaimed m s s' b
    was_claimed :
        is_completed m ≡ false
        → b.status ≡ OutboxStatus.processing
        → b.attempts ≡ m.attempts + 1
        → IsTracked m.project_id s' b
        → b.id ≡ m.id
        → IsClaimed m s s' b

  pub claim_read :
      (p id : String) (now : ℕ) (s : Session) (m : OutboxMessage)
      → get s.outbox p id ≡ some m
      → claim x audit p id now s
        ≡ (if is_completed m
              then pure m
              else save_staged x audit (claim_stage x) now (processing m) (some m.version))
            s
  unfolding claim
  claim_read p id now s m found = require_then p id s m _ found

  claim_here-ok :
      (now : ℕ) (s : Session) (m b : OutboxMessage)
      → ((if is_completed m
            then pure m
            else save_staged x audit (claim_stage x) now (processing m) (some m.version))
          s).0
        ≡ ok b
      → IsClaimed m s
          ((if is_completed m
              then pure m
              else save_staged x audit (claim_stage x) now (processing m) (some m.version))
            s).1
          b
  unfolding processing at_version
  claim_here-ok now s m b h = elim (Bool-cases (is_completed m)) [
    | inl e ↦ was_completed e (ground (arith, h, e)) (rw e refl)
    | inr e ↦
        let saved =
          save_staged-ok (claim_stage x) now (processing m) (some m.version) s b (rw e at h) in
        let (tracked, same_id) =
          save-IsTracked m.project_id (processing m) b (some m.version) s
            (save_staged x audit (claim_stage x) now (processing m) (some m.version) s).1 refl
            saved in
        rw e (
          was_claimed e (ap (λ (m : OutboxMessage). m.status) saved.stored)
            (ap (λ (m : OutboxMessage). m.attempts) saved.stored) tracked same_id)
  ]

  pub claim-ok :
      (p id : String) (now : ℕ) (s : Session) (m b : OutboxMessage)
      → get s.outbox p id ≡ some m
      → (run_transaction (claim x audit p id now) s).0 ≡ ok b
      → IsClaimed m s (run_transaction (claim x audit p id now) s).1 b
  claim-ok p id now s m b found h =
      let (same, returned) = run_transaction-done (claim x audit p id now) s b h in
      rw (same, claim_read p id now s m found)
        (claim_here-ok now s m b (rw (claim_read p id now s m found) at returned))

  -- What the end of `process` did to the message `m` that it read.
  pub data IsSettled (m : OutboxMessage) (s' : Session) (b : OutboxMessage)
      : Option Failure → Type 0 where
    was_published :
        b.status ≡ OutboxStatus.completed
        → b.attempts ≡ m.attempts
        → IsTracked m.project_id s' b
        → b.id ≡ m.id
        → IsSettled m s' b none
    was_failed :
        {failure : Failure}
        → b.status ≡ OutboxStatus.failed
        → b.last_error ≡ some (strip (slice failure.text 0 5_000))
        → b.attempts ≡ m.attempts
        → IsTracked m.project_id s' b
        → b.id ≡ m.id
        → IsSettled m s' b (some failure)

  close-ok :
      (m : OutboxMessage) (outcome : Option Failure) (now audit_time : ℕ) (s : Session)
      (b : OutboxMessage)
      → (close x audit m outcome now audit_time s).0 ≡ ok b
      → IsSettled m (close x audit m outcome now audit_time s).1 b outcome
  unfolding close publication_failed published at_version
  close-ok m none now audit_time s b h =
      let saved =
        save_staged-ok published_stage audit_time (published now m) (some m.version) s b h in
      let (tracked, same_id) =
        save-IsTracked m.project_id (published now m) b (some m.version) s
          (close x audit m none now audit_time s).1 refl saved in
      was_published (ap (λ (m : OutboxMessage). m.status) saved.stored)
        (ap (λ (m : OutboxMessage). m.attempts) saved.stored) tracked same_id
  close-ok m (some failure) now audit_time s b h =
      let saved =
        save_staged-ok (failure_stage x failure) audit_time (publication_failed failure m)
          (some m.version) s b h in
      let (tracked, same_id) =
        save-IsTracked m.project_id (publication_failed failure m) b (some m.version) s
          (close x audit m (some failure) now audit_time s).1 refl saved in
      was_failed (ap (λ (m : OutboxMessage). m.status) saved.stored)
        (ap (λ (m : OutboxMessage). m.last_error) saved.stored)
        (ap (λ (m : OutboxMessage). m.attempts) saved.stored) tracked same_id

  pub settle-ok :
      (p id : String) (outcome : Option Failure) (now audit_time : ℕ) (s : Session)
      (m b : OutboxMessage)
      → get s.outbox p id ≡ some m
      → (run_transaction (settle x audit p id outcome now audit_time) s).0 ≡ ok b
      → IsSettled m (run_transaction (settle x audit p id outcome now audit_time) s).1 b outcome
  unfolding settle
  settle-ok p id outcome now audit_time s m b found h =
      let (same, returned) =
        run_transaction-done (settle x audit p id outcome now audit_time) s b h in
      let step : settle x audit p id outcome now audit_time s
          ≡ close x audit m outcome now audit_time s =
        require_then p id s m (λ m. close x audit m outcome now audit_time) found in
      rw (same, step) (close-ok m outcome now audit_time s b (ap (λ p. p.0) (sym step) ∙ returned))
