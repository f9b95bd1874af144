-- ===== src/Services/Notifications/Steps.antt =====
-- What the transactions of app/services/delivery_notifications.py did when they returned.
use ogaforeman.Base.{
  ℕ, ◌≡◌, refl, sym, ap, ◌∙◌, String, true, false, Option, some, arith, ok, ◌⊎◌, inl, inr,
  Bool-cases,
}
use ogaforeman.Base.Exec.{pure, ◌>>=◌, >>=-eq-ok}
use ogaforeman.Domain.ProcessedEvent.{ProjectEvent}
use ogaforeman.Domain.Activity.{Texts}
use ogaforeman.Domain.Outbox.{OutboxMessage, outbox_message}
use ogaforeman.Repositories.Memory.{get, require}
use ogaforeman.Repositories.Memory.Guards.{Saved}
use ogaforeman.Repositories.Memory.Transactions.{run_transaction-done}
use ogaforeman.Services.Activity.{same_text}
use ogaforeman.Services.Session.{Session, on_outbox}
use ogaforeman.Services.Outbox.Calls.{keep_activity-outbox, save_then-ok, require-ok}
use ogaforeman.Services.Notifications.Messages.{NotificationService, claimed, is_unavailable}
use ogaforeman.Services.Notifications.{
  Notice, ClaimResult, record_notice, save_noted, attempt_notice, claim_message, claim,
  close_message, close,
}

module _ (x : Texts) (c : NotificationService) (event : ProjectEvent) (run_id : String) where
  pub save_noted-ok :
      (notice : OutboxMessage → Notice) (audit : ℕ) (next : OutboxMessage) (expected : Option ℕ)
      (s : Session) (b : OutboxMessage)
      → (save_noted x c event run_id notice audit next expected s).0 ≡ ok b
      → Saved outbox_message next expected s.outbox
          (save_noted x c event run_id notice audit next expected s).1.outbox
          b
  unfolding save_noted record_notice
  save_noted-ok notice audit next expected s b h =
      save_then-ok (λ saved. record_notice x c event run_id saved (notice saved) audit)
        (λ d t. keep_activity-outbox _ _ t) next expected s b h

  -- A claim that was made.
  pub record IsClaimed (id token : String) (now : ℕ) (s s' : Session) (b : OutboxMessage)
      : Type 0 where
    pub was : OutboxMessage
    pub found : get s.outbox event.project_id id ≡ some was
    pub available : is_unavailable was now ≡ false
    pub saved :
        Saved outbox_message (claimed c token now was) (some was.version) s.outbox s'.outbox b

  -- A claim that was refused: the message is as it was.
  pub record IsRefused (id : String) (now : ℕ) (s s' : Session) (m : OutboxMessage) : Type 0 where
    pub found : get s.outbox event.project_id id ≡ some m
    pub unavailable : is_unavailable m now ≡ true
    pub unchanged : s' ≡ s

  claim_message-ok :
      (token id : String) (now audit : ℕ) (s : Session) (m : OutboxMessage) (r : ClaimResult)
      → get s.outbox event.project_id id ≡ some m
      → (claim_message x c event run_id token now audit m s).0 ≡ ok r
      → (r.claimed ≡ true
          × IsClaimed id token now s
              (claim_message x c event run_id token now audit m s).1
              r.message)
        ⊎ (r.claimed ≡ false
            × IsRefused id now s (claim_message x c event run_id token now audit m s).1 r.message)
  unfolding claim_message
  claim_message-ok token id now audit s m r found h = elim (Bool-cases (is_unavailable m now)) [
    | inl e ↦ inr (
      ground arith,
      record { found = ground arith; unavailable = ground arith; unchanged = rw e refl },
    )
    | inr e ↦
        let noted =
          save_noted x c event run_id (attempt_notice x c.provider) audit (claimed c token now m)
            (some m.version) in
        let (b, done, rest) =
          >>=-eq-ok noted (λ saved. pure (record { message = saved; claimed = true })) s
            (rw e at h) in
        let same : r ≡ record { message = b; claimed = true } = ground (arith, rest, h) in
        inl (
          ap (λ r. r.claimed) same,
          rw (e, rest, same)
              (record {
                was = m;
                found = found;
                available = e;
                saved =
                    save_noted-ok (attempt_notice x c.provider) audit (claimed c token now m)
                      (some m.version) s b done;
              }),
        )
  ]

  pub claim-ok :
      (id token : String) (now audit : ℕ) (s : Session) (r : ClaimResult)
      → (claim x c event run_id id token now audit s).0 ≡ ok r
      → (r.claimed ≡ true
          × IsClaimed id token now s (claim x c event run_id id token now audit s).1 r.message)
        ⊎ (r.claimed ≡ false
            × IsRefused id now s (claim x c event run_id id token now audit s).1 r.message)
  unfolding claim
  claim-ok id token now audit s r h =
      let steps =
        on_outbox (require event.project_id id)
        >>= claim_message x c event run_id token now audit in
      let (same, returned) = run_transaction-done steps s r h in
      let (m, read, rest) =
        >>=-eq-ok (on_outbox (require event.project_id id))
          (claim_message x c event run_id token now audit) s returned in
      let (found, kept) = require-ok event.project_id id s m read in
      let step : claim x c event run_id id token now audit s
          ≡ claim_message x c event run_id token now audit m s =
        same ∙ (rest ∙ ap (claim_message x c event run_id token now audit m) kept) in
      rw step (claim_message-ok token id now audit s m r found (ap (λ p. p.0) (sym step) ∙ h))

  -- A message that was closed by the owner of its claim.
  pub record IsClosed (m : OutboxMessage) (change : OutboxMessage → OutboxMessage) (s s' : Session)
      (b : OutboxMessage) : Type 0 where
    pub current : OutboxMessage
    pub found : get s.outbox event.project_id m.id ≡ some current
    pub owned : same_text current.claim_token m.claim_token ≡ true
    pub saved : Saved outbox_message (change current) (some current.version) s.outbox s'.outbox b

  close_message-ok :
      (m : OutboxMessage) (change : OutboxMessage → OutboxMessage) (notice : OutboxMessage → Notice)
      (audit : ℕ) (s : Session) (current b : OutboxMessage)
      → get s.outbox event.project_id m.id ≡ some current
      → (close_message x c event run_id m change notice audit current s).0 ≡ ok b
      → IsClosed m change s (close_message x c event run_id m change notice audit current s).1 b
  unfolding close_message
  close_message-ok m change notice audit s current b found h =
      elim (Bool-cases (same_text current.claim_token m.claim_token)) [
        | inl e ↦
            let done =
              save_noted-ok notice audit (change current) (some current.version) s b (rw e at h) in
            rw e (record { current = current; found = found; owned = e; saved = done })
        | inr e ↦ absurd (ground (arith, h))
      ]

  pub close-ok :
      (m : OutboxMessage) (change : OutboxMessage → OutboxMessage) (notice : OutboxMessage → Notice)
      (audit : ℕ) (s : Session) (b : OutboxMessage)
      → (close x c event run_id m change notice audit s).0 ≡ ok b
      → IsClosed m change s (close x c event run_id m change notice audit s).1 b
  unfolding close
  close-ok m change notice audit s b h =
      let go = close_message x c event run_id m change notice audit in
      let (same, returned) =
        run_transaction-done (on_outbox (require event.project_id m.id) >>= go) s b h in
      let (current, read, rest) =
        >>=-eq-ok (on_outbox (require event.project_id m.id)) go s returned in
      let (found, kept) = require-ok event.project_id m.id s current read in
      let step : close x c event run_id m change notice audit s ≡ go current s =
        same ∙ (rest ∙ ap (go current) kept) in
      rw step
        (close_message-ok m change notice audit s current b found (ap (λ p. p.0) (sym step) ∙ h))
