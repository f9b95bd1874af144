-- ===== src/Services/EventClaims/Progress.antt =====
-- When the calls of app/services/event_claims.py return, and the input on which they do not.
use Prim.Native.String.{count}
use ogaforeman.Base.{
  ℕ, ◌+◌, ◌≤◌, ◌<◌, ◌≡◌, refl, ap, ◌∙◌, String, Bool, true, false, ◌||◌, some, arith, ltb, ok, err,
  str_eq, eq_refl, validation_error,
}
use ogaforeman.Domain.ProcessedEvent.{
  ProcessedEvent, ProjectEvent, processed_event, strip_event, validate_event,
}
use ogaforeman.Base.Strip.{strip, count-strip}
use ogaforeman.Repositories.Memory.{find, get, at_version, save}
use ogaforeman.Repositories.Memory.Find.{get_of_find}
use ogaforeman.Repositories.Memory.Guards.{save_invalid, save_accepted}
use ogaforeman.Repositories.Memory.Transactions.{run_transaction-same, run_transaction-ok}
use ogaforeman.Services.EventClaims.{
  ClaimService, ClaimStore, reason_text, should_dead_letter, failed, fail, fail_claimed, completed,
  complete, complete_claimed, require_event, require_active_claim, is_ascii, compare_digest,
  holds_token,
}
use ogaforeman.Services.EventClaims.Rules.{closing}
use ogaforeman.Services.EventClaims.Safety.{IsSound}
use ogaforeman.Services.EventClaims.Ownership.{IsOwned}

-- The reason that a dead letter would get, the code, a colon, a blank and the summary, is longer
-- than its field allows, the blanks at its ends not counted.
abbrev pub IsOversized : String → String → Type 0
IsOversized code summary = 5_000 < count (strip (reason_text code summary))

failed_invalid :
    (c : ClaimService) (r : ProcessedEvent) (code summary : String) (terminal : Bool) (now n : ℕ)
    → should_dead_letter c r terminal ≡ true
    → IsOversized code summary
    → validate_event (at_version processed_event (failed c r code summary terminal now) n)
      ≡ err validation_error
unfolding validate_event failed at_version
failed_invalid c r code summary terminal now n dead long = ground (arith, dead, long)

module _ (c : ClaimService) {event : ProjectEvent} {token : String} {until : ℕ} {repo : ClaimStore}
    (sound : IsSound c repo) (o : IsOwned repo event token until) (now : ℕ) (early : now < until)
    (ascii : is_ascii token ≡ true) where
  live : require_active_claim o.stored token now ≡ ok tt
  unfolding require_active_claim holds_token compare_digest
  live = rw (o.claimed, o.token_held, o.held_until, ascii, eq_refl token) (ground arith)

  read : get repo event.project_id event.idempotency_key ≡ some o.stored
  read = get_of_find repo event.project_id event.idempotency_key o.stored o.version o.found

  -- The owner of a live claim whose record the validator rejects: the write raises.
  closing_invalid :
      (next : ProcessedEvent → ProcessedEvent)
      → (next o.stored).project_id ≡ o.stored.project_id
      → (next o.stored).id ≡ o.stored.id
      → validate_event (at_version processed_event (next o.stored) (o.version + 1))
        ≡ err validation_error
      → closing event token now next repo ≡ (err validation_error, repo)
  unfolding require_event
  closing_invalid next same_project same_id bad =
      let s = sound.at event.project_id event.idempotency_key o.stored o.version o.found in
      let at : find repo (next o.stored).project_id (next o.stored).id
          ≡ some (o.stored, o.version) =
        ap (λ p. find repo p (next o.stored).id) (same_project ∙ s.of_project)
        ∙ (ap (find repo event.project_id) (same_id ∙ s.of_key) ∙ o.found) in
      rw (read, require_event, o.ours, live)
        (ap (λ v. save processed_event (next o.stored) (some v) repo) s.versioned
          ∙ save_invalid processed_event (next o.stored) o.stored o.version repo validation_error at
              bad)

  -- In a sound store a failure by the owner of a live claim, with an ASCII token, that has to be
  -- dead-lettered, because it is terminal or the last attempt, and whose code and summary, joined by
  -- a colon and a blank and stripped, exceed the 5000 characters of `dead_letter_reason`, cannot be
  -- recorded: `fail` raises pydantic's error, and the event stays claimed.
  pub fail_oversized :
      (code summary : String) (terminal : Bool)
      → (str_eq code "" || str_eq summary "") ≡ false
      → should_dead_letter c o.stored terminal ≡ true
      → IsOversized code summary
      → fail c event token code summary terminal now repo ≡ (err validation_error, repo)
  unfolding fail fail_claimed failed
  fail_oversized code summary terminal given dead long = rw given (
      run_transaction-same (closing event token now (λ r. failed c r code summary terminal now))
        repo (err validation_error)
        (closing_invalid (λ r. failed c r code summary terminal now) refl refl
          (failed_invalid c o.stored code summary terminal now (o.version + 1) dead long)))

  closing_valid :
      (next : ProcessedEvent → ProcessedEvent)
      → (next o.stored).project_id ≡ o.stored.project_id
      → (next o.stored).id ≡ o.stored.id
      → validate_event (at_version processed_event (next o.stored) (o.version + 1)) ≡ ok tt
      → (closing event token now next repo).0
        ≡ ok (at_version processed_event (next o.stored) (o.version + 1))
  unfolding require_event
  closing_valid next same_project same_id good =
      let s = sound.at event.project_id event.idempotency_key o.stored o.version o.found in
      let at : find repo (next o.stored).project_id (next o.stored).id
          ≡ some (o.stored, o.version) =
        ap (λ p. find repo p (next o.stored).id) (same_project ∙ s.of_project)
        ∙ (ap (find repo event.project_id) (same_id ∙ s.of_key) ∙ o.found) in
      rw (read, require_event, o.ours, live)
        (ap (λ v. (save processed_event (next o.stored) (some v) repo).0) s.versioned
          ∙ ap (λ p. p.0)
              (save_accepted processed_event (next o.stored) o.stored o.version repo at good))

  completed_valid :
      (result_ref : String) (n : ℕ)
      → (str_eq result_ref "" || ltb 1_000 (count result_ref)) ≡ false
      → str_eq (strip result_ref) "" ≡ false
      → o.stored.first_seen_at ≤ now
      → validate_event o.stored ≡ ok tt
      → strip_event o.stored ≡ o.stored
      → validate_event (at_version processed_event (completed o.stored result_ref now) n) ≡ ok tt
  unfolding validate_event completed at_version
  completed_valid result_ref n fits full seen valid clean =
      let reason = ap (λ (r : ProcessedEvent). r.dead_letter_reason) clean in
      ground (arith, o.claimed, count-strip result_ref, reason)

  -- In a sound store the owner of a live claim, with an ASCII token, can complete the event with a
  -- reference of at most 1000 characters that are not all blanks, unless its clock shows a time
  -- before the event was first seen: the call returns the record completed with the stripped
  -- reference, one version up.
  pub complete_returns :
      (result_ref : String)
      → (str_eq result_ref "" || ltb 1_000 (count result_ref)) ≡ false
      → str_eq (strip result_ref) "" ≡ false
      → o.stored.first_seen_at ≤ now
      → (complete event token result_ref now repo).0
        ≡ ok (record (completed o.stored (strip result_ref) now) { version = o.version + 1 })
  unfolding complete complete_claimed at_version completed
  complete_returns result_ref fits full seen =
      let s = sound.at event.project_id event.idempotency_key o.stored o.version o.found in
      let reason = ap (λ (r : ProcessedEvent). r.dead_letter_reason) s.stripped in
      rw (fits, ← reason)
        (run_transaction-ok (closing event token now (λ r. completed r result_ref now)) repo _ (
          closing_valid (λ r. completed r result_ref now) (unfold completed in refl)
            (unfold completed in refl)
            (completed_valid result_ref (o.version + 1) fits full seen s.valid s.stripped)))
