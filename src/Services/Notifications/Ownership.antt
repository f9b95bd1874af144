-- ===== src/Services/Notifications/Ownership.antt =====
-- Who may work on a message that was claimed, in app/services/delivery_notifications.py.
use ogaforeman.Base.{
  ℕ, ◌<◌, ◌≡◌, refl, ap, ◌∙◌, String, true, false, some, arith, ok, err, eq_refl, runtime_error,
  inl, inr,
}
use ogaforeman.Base.Exec.{◌>>=◌}
use ogaforeman.Domain.ProcessedEvent.{ProjectEvent}
use ogaforeman.Domain.Activity.{Texts}
use ogaforeman.Domain.Outbox.{OutboxMessage}
use ogaforeman.Repositories.Memory.{get, require, at_version}
use ogaforeman.Repositories.Memory.Transactions.{run_transaction-same}
use ogaforeman.Services.Activity.{same_text}
use ogaforeman.Services.Session.{Session, on_outbox}
use ogaforeman.Services.Outbox.Calls.{IsTracked, save-IsTracked, require_then}
use ogaforeman.Services.Notifications.Messages.{
  NotificationService, NotificationDeliveryResult, GatewayError, lease_end, claimed, is_unavailable,
  is_last,
}
use ogaforeman.Services.Notifications.{
  Notice, ClaimResult, sent_notice, failure_notice, claim_message, claim, close_message, close,
  record_failure, record_success,
}
use ogaforeman.Services.Notifications.Steps.{IsClaimed, claim-ok}

module _ (x : Texts) (c : NotificationService) (event : ProjectEvent) (run_id : String) where
  pub claim-refused :
      (id token : String) (now audit : ℕ) (s : Session) (m : OutboxMessage)
      → get s.outbox event.project_id id ≡ some m
      → is_unavailable m now ≡ true
      → claim x c event run_id id token now audit s
        ≡ (ok (record { message = m; claimed = false }), s)
  unfolding claim claim_message
  claim-refused id token now audit s m found unavailable =
      run_transaction-same
        (on_outbox (require event.project_id id) >>= claim_message x c event run_id token now audit)
        s (ok (record { message = m; claimed = false }))
        (require_then event.project_id id s m (claim_message x c event run_id token now audit) found
          ∙ rw unavailable refl)

  pub close-refused :
      (m : OutboxMessage) (change : OutboxMessage → OutboxMessage) (notice : OutboxMessage → Notice)
      (audit : ℕ) (s : Session) (current : OutboxMessage)
      → get s.outbox event.project_id m.id ≡ some current
      → same_text current.claim_token m.claim_token ≡ false
      → close x c event run_id m change notice audit s ≡ (err runtime_error, s)
  unfolding close close_message
  close-refused m change notice audit s current found other =
      run_transaction-same
        (on_outbox (require event.project_id m.id)
          >>= close_message x c event run_id m change notice audit)
        s (err runtime_error)
        (require_then event.project_id m.id s current
            (close_message x c event run_id m change notice audit) found
          ∙ rw other refl)

  -- What a claim that was made leaves: the message is stored under its key, held by the token.
  pub record IsHeld (id token : String) (now : ℕ) (s' : Session) (b : OutboxMessage) : Type 0 where
    pub tracked : IsTracked event.project_id s' b
    pub same_id : b.id ≡ id
    pub token_held : b.claim_token ≡ some token
    pub held_until : (t : ℕ) → t < lease_end c now → is_unavailable b t ≡ true

  pub claimed-IsHeld :
      (id token : String) (now : ℕ) (s s' : Session) (m b : OutboxMessage)
      → IsTracked event.project_id s m
      → m.id ≡ id
      → IsClaimed x c event run_id id token now s s' b
      → IsHeld id token now s' b
  unfolding at_version claimed is_unavailable
  claimed-IsHeld id token now s s' m b t same k =
      let is_m : k.was ≡ m = ground (arith, t.found, k.found, same) in
      let (tracked, same_id) =
        save-IsTracked event.project_id (claimed c token now k.was) b (some k.was.version) s s'
          (rw is_m t.project) k.saved in
      record {
        tracked = tracked;
        same_id = same_id ∙ (ap (λ (m : OutboxMessage). m.id) is_m ∙ same);
        token_held = ap (λ (m : OutboxMessage). m.claim_token) k.saved.stored;
        held_until = λ u early. rw k.saved.stored (ground (arith, early));
      }

module _ (x : Texts) (c : NotificationService) (event : ProjectEvent) (run_id : String)
    (id token : String) (now : ℕ) (s : Session) (b : OutboxMessage)
    (h : IsHeld x c event run_id id token now s b) where
  found_at : (id' : String) → id' ≡ id → get s.outbox event.project_id id' ≡ some b
  found_at id' same = rw (same, ← h.same_id) h.tracked.found

  held-excludes :
      (c' : NotificationService) (event' : ProjectEvent) (run_id' token' : String) (now' audit' : ℕ)
      → event'.project_id ≡ event.project_id
      → now' < lease_end c now
      → claim x c' event' run_id' id token' now' audit' s
        ≡ (ok (record { message = b; claimed = false }), s)
  held-excludes c' event' run_id' token' now' audit' project early =
      claim-refused x c' event' run_id' id token' now' audit' s b (rw project (found_at id refl))
        (h.held_until now' early)

  held-fences :
      (stale : OutboxMessage) (change : OutboxMessage → OutboxMessage)
      (notice : OutboxMessage → Notice) (audit' : ℕ)
      → stale.id ≡ id
      → same_text (some token) stale.claim_token ≡ false
      → close x c event run_id stale change notice audit' s ≡ (err runtime_error, s)
  held-fences stale change notice audit' same other =
      close-refused x c event run_id stale change notice audit' s b (found_at stale.id same)
        (rw h.token_held other)

module _ (x : Texts) (c : NotificationService) (event : ProjectEvent) (run_id : String)
    (token : String) (now audit : ℕ) (s : Session) (m : OutboxMessage) (r : ClaimResult)
    (tracked : IsTracked event.project_id s m)
    (returned : (claim x c event run_id m.id token now audit s).0 ≡ ok r)
    (won : r.claimed ≡ true) where
  held :
      IsHeld x c event run_id m.id token now
        (claim x c event run_id m.id token now audit s).1
        r.message
  held = elim (claim-ok x c event run_id m.id token now audit s r returned) [
    | inl (_, k) ↦
        claimed-IsHeld x c event run_id m.id token now s
          (claim x c event run_id m.id token now audit s).1 m r.message tracked refl k
    | inr (lost, _) ↦ absurd (cc)
  ]

  -- Until the lease of a claim ends, every claim of the message in the project, by whatever worker,
  -- is refused: it answers with the message that the first claim left, and changes nothing.
  pub claim_is_exclusive :
      (c' : NotificationService) (event' : ProjectEvent) (run_id' token' : String) (now' audit' : ℕ)
      → event'.project_id ≡ event.project_id
      → now' < lease_end c now
      → claim x c' event' run_id' m.id token' now' audit'
          (claim x c event run_id m.id token now audit s).1
        ≡ (
          ok (record { message = r.message; claimed = false }),
          (claim x c event run_id m.id token now audit s).1,
        )
  claim_is_exclusive c' event' run_id' token' now' audit' project early =
      held-excludes x c event run_id m.id token now
        (claim x c event run_id m.id token now audit s).1 r.message held c' event' run_id' token'
        now' audit' project early

  -- A worker that holds the message from an earlier claim, with another token, can record neither
  -- a success nor a failure after the claim: the call raises RuntimeError and changes nothing.
  pub stale_claim_refused :
      (stale : OutboxMessage) (result : NotificationDeliveryResult) (e : GatewayError)
      (now' audit' : ℕ)
      → stale.id ≡ m.id
      → same_text (some token) stale.claim_token ≡ false
      → result.provider ≡ c.provider.provider
      → (record_success x c event run_id stale result now' audit'
            (claim x c event run_id m.id token now audit s).1
          ≡ (err runtime_error, (claim x c event run_id m.id token now audit s).1))
        × (record_failure x c event run_id stale e now' audit'
              (claim x c event run_id m.id token now audit s).1
            ≡ (err runtime_error, (claim x c event run_id m.id token now audit s).1))
  unfolding record_success record_failure
  stale_claim_refused stale result e now' audit' same other provider =
      let fenced =
        held-fences x c event run_id m.id token now
          (claim x c event run_id m.id token now audit s).1 r.message held stale in
      (
        rw (provider, eq_refl c.provider.provider)
            (fenced _ (sent_notice c.provider) audit' same other),
        fenced _ (failure_notice x c.provider e (is_last c stale e)) audit' same other,
      )
