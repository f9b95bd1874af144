-- ===== src/Services/EventClaims/Rules.antt =====
-- The effect of each call of app/services/event_claims.py on the store: nothing, or one record
-- that the rules of `ClaimEffect` and `CloseEffect` name.
use Prim.Native.String.{count}
use ogaforeman.Base.{
  ℕ, ◌≡◌, refl, ◌∙◌, inl, inr, String, Bool, true, false, not, Option, none, some, arith, leb,
  Result, ok, err, Error, Result-cases, Bool-cases, if◌then◌else◌, event_claim_conflict,
  value_error, str_eq, ltb, ◌||◌,
}
use ogaforeman.Base.Exec.{Exec, resume-pure, pure, lift, ◌>>=◌, ◌>>◌}
use ogaforeman.Domain.Enums.{ProcessedEventStatus, same_claim}
use ogaforeman.Domain.ProcessedEvent.{ProcessedEvent, ProjectEvent, processed_event}
use ogaforeman.Repositories.Memory.{get, save, run_transaction}
use ogaforeman.Repositories.Memory.Transactions.{
  run_transaction_at, run_transaction-same, run_transaction-save, run_transaction-create,
}
use ogaforeman.Repositories.Memory.Guards.{Saved, Created}
use ogaforeman.Services.EventClaims.{
  ClaimService, ClaimStore, first_claim, exhausted, reclaimed, is_held, is_same_event,
  ensure_same_event, claim_existing, claim_found, claim, completed, failed, require_event,
  require_active_claim, complete_claimed, complete, fail_claimed, fail, EventClaimResult,
  ClaimOutcome, claim_result,
}

-- not completed, not dead-lettered, and nobody holds a live lease
abbrev pub is_free : ProcessedEvent → ℕ → Bool
is_free r now =
    if same_claim r.status ProcessedEventStatus.completed
    then false
    else if same_claim r.status ProcessedEventStatus.dead_lettered
    then false
    else not (is_held r now)

-- the caller now owns the event
abbrev pub is_acquired : Result EventClaimResult → Bool
is_acquired (err x) = false
is_acquired (ok a) = elim a.outcome [ ClaimOutcome.acquired ↦ true | _ ↦ false ]

abbrev taken_outcome : ProcessedEvent → ClaimOutcome
taken_outcome r =
    if same_claim r.status ProcessedEventStatus.completed
    then ClaimOutcome.duplicate_completed
    else if same_claim r.status ProcessedEventStatus.dead_lettered
    then ClaimOutcome.dead_lettered
    else ClaimOutcome.busy

module _ (c : ClaimService) (event : ProjectEvent) (token : String) (now : ℕ) where
  pub data ClaimEffect (repo : ClaimStore) (answer : Result EventClaimResult × ClaimStore)
      : Type 0 where
    same :
        (r : Result EventClaimResult)
        → is_acquired r ≡ false
        → answer ≡ (r, repo)
        → ClaimEffect repo answer
    began :
        (b : ProcessedEvent)
        → answer.0 ≡ ok (claim_result ClaimOutcome.acquired b true)
        → Created processed_event (first_claim c event token now) repo answer.1 b
        → ClaimEffect repo answer
    expired :
        (r b : ProcessedEvent)
        → get repo event.project_id event.idempotency_key ≡ some r
        → is_same_event r event ≡ true
        → is_free r now ≡ true
        → leb c.max_attempts r.attempts ≡ true
        → answer.0 ≡ ok (claim_result ClaimOutcome.dead_lettered b false)
        → Saved processed_event (exhausted r now) (some r.version) repo answer.1 b
        → ClaimEffect repo answer
    retook :
        (r b : ProcessedEvent)
        → get repo event.project_id event.idempotency_key ≡ some r
        → is_same_event r event ≡ true
        → is_free r now ≡ true
        → leb c.max_attempts r.attempts ≡ false
        → answer.0 ≡ ok (claim_result ClaimOutcome.acquired b true)
        → Saved processed_event (reclaimed c r token now) (some r.version) repo answer.1 b
        → ClaimEffect repo answer

  existing_taken :
      (r : ProcessedEvent) (repo : ClaimStore)
      → is_free r now ≡ false
      → (a : EventClaimResult) × (is_acquired (ok a) ≡ false)
        × (claim_existing c token now r repo ≡ (ok a, repo))
  unfolding claim_existing claim_result
  existing_taken r repo h = (claim_result (taken_outcome r) r false, ground arith, ground arith)

  existing_spent :
      (r : ProcessedEvent) (repo : ClaimStore)
      → is_free r now ≡ true
      → leb c.max_attempts r.attempts ≡ true
      → claim_existing c token now r repo
        ≡ (save processed_event (exhausted r now) (some r.version) >>= λ saved.
              pure (claim_result ClaimOutcome.dead_lettered saved false))
            repo
  unfolding claim_existing
  existing_spent r repo h spent = ground arith

  existing_left :
      (r : ProcessedEvent) (repo : ClaimStore)
      → is_free r now ≡ true
      → leb c.max_attempts r.attempts ≡ false
      → claim_existing c token now r repo
        ≡ (save processed_event (reclaimed c r token now) (some r.version) >>= λ saved.
              pure (claim_result ClaimOutcome.acquired saved true))
            repo
  unfolding claim_existing
  existing_left r repo h left = ground arith

  -- The effect of an operation that goes on with the record `r`.
  open_effect :
      (repo : ClaimStore) (r : ProcessedEvent)
      → get repo event.project_id event.idempotency_key ≡ some r
      → is_same_event r event ≡ true
      → (m : Exec ClaimStore EventClaimResult) → m repo ≡ claim_existing c token now r repo
      → ClaimEffect repo (run_transaction m repo)
  open_effect repo r e ours m at = elim (Bool-cases (is_free r now)) [
    | inr taken ↦
        let (a, told, unchanged) = existing_taken r repo taken in
        same (ok a) told (run_transaction-same m repo (ok a) (at ∙ unchanged))
    | inl free ↦ elim (Bool-cases (leb c.max_attempts r.attempts)) [
      | inl spent ↦
          let step = run_transaction_at m _ repo (at ∙ existing_spent r repo free spent) in
          elim (run_transaction-save processed_event
            (λ s. claim_result ClaimOutcome.dead_lettered s false) (exhausted r now)
            (some r.version) repo) [
              | inl (x, unchanged) ↦ same (err x) refl (step ∙ unchanged)
              | inr (b, told, made) ↦ expired r b e ours free spent (rw step told) (rw step made)
            ]
      | inr left ↦
          let step = run_transaction_at m _ repo (at ∙ existing_left r repo free left) in
          elim (run_transaction-save processed_event
            (λ s. claim_result ClaimOutcome.acquired s true) (reclaimed c r token now)
            (some r.version) repo) [
              | inl (x, unchanged) ↦ same (err x) refl (step ∙ unchanged)
              | inr (b, told, made) ↦ retook r b e ours free left (rw step told) (rw step made)
            ]
    ]
  ]

  abbrev attempt : ClaimStore → Option ProcessedEvent → Result EventClaimResult × ClaimStore
  attempt repo found = run_transaction (claim_found c event token now found) repo

  claim_at :
      (repo : ClaimStore)
      → claim c event token now repo
        ≡ attempt repo (get repo event.project_id event.idempotency_key)
  unfolding claim
  claim_at repo = refl

  found_effect :
      (repo : ClaimStore) (found : Option ProcessedEvent)
      → get repo event.project_id event.idempotency_key ≡ found
      → ClaimEffect repo (attempt repo found)
  unfolding claim_found
  found_effect repo none e =
      elim (run_transaction-create processed_event (λ r. claim_result ClaimOutcome.acquired r true)
        (first_claim c event token now) repo) [
          | inl (x, unchanged) ↦ same (err x) refl unchanged
          | inr (b, told, made) ↦ began b told made
        ]
  found_effect repo (some r) e = elim (Bool-cases (is_same_event r event)) [
    | inr other ↦ same (err event_claim_conflict) refl (
        run_transaction-same (claim_found c event token now (some r)) repo _
          (rw (claim_found, ensure_same_event, other)))
    | inl ours ↦
        open_effect repo r e ours (claim_found c event token now (some r))
          (rw (claim_found, ensure_same_event, ours))
  ]

  -- What a call of `claim` can do to the store.
  pub claim_effect : (repo : ClaimStore) → ClaimEffect repo (claim c event token now repo)
  claim_effect repo =
      rw claim_at (found_effect repo (get repo event.project_id event.idempotency_key) refl)

-- A call that closes a claim: `complete` and `fail` write `next r` over the record `r` they claim.
module _ (event : ProjectEvent) (token : String) (now : ℕ)
    (next : ProcessedEvent → ProcessedEvent) where
  pub data CloseEffect (repo : ClaimStore) (answer : Result ProcessedEvent × ClaimStore)
      : Type 0 where
    same : (x : Error) → answer ≡ (err x, repo) → CloseEffect repo answer
    closed :
        (r b : ProcessedEvent)
        → get repo event.project_id event.idempotency_key ≡ some r
        → require_active_claim r token now ≡ ok tt
        → answer.0 ≡ ok b
        → Saved processed_event (next r) (some r.version) repo answer.1 b
        → CloseEffect repo answer

  abbrev pub closing : Exec ClaimStore ProcessedEvent
  closing repo =
      (do
        existing ← lift (require_event event (get repo event.project_id event.idempotency_key))
        lift (require_active_claim existing token now)
        save processed_event (next existing) (some existing.version))
        repo

  require_event-found :
      (found : Option ProcessedEvent) (r : ProcessedEvent)
      → require_event event found ≡ ok r
      → found ≡ some r
  unfolding require_event
  require_event-found found r h = ground arith

  closing_effect : (repo : ClaimStore) → CloseEffect repo (run_transaction closing repo)
  closing_effect repo =
      elim (Result-cases (require_event event (get repo event.project_id event.idempotency_key))) [
        | inr (x, e) ↦ same x (run_transaction-same closing repo (err x) (rw e))
        | inl (r, e) ↦ elim (Result-cases (require_active_claim r token now)) [
          | inr (x, stale) ↦ same x (run_transaction-same closing repo (err x) (rw (e, stale)))
          | inl (_, live) ↦
              let step =
                run_transaction_at closing
                  (save processed_event (next r) (some r.version) >>= λ b. pure b) repo
                  (rw (e, live)
                    (resume-pure (save processed_event (next r) (some r.version) repo))) in
              elim (run_transaction-save processed_event (λ b. b) (next r) (some r.version) repo) [
                | inl (x, unchanged) ↦ same x (step ∙ unchanged)
                | inr (b, told, made) ↦
                    closed r b
                      (require_event-found (get repo event.project_id event.idempotency_key) r e)
                      live (rw step told) (rw step made)
              ]
        ]
      ]

pub complete_effect :
    (event : ProjectEvent) (token result_ref : String) (now : ℕ) (repo : ClaimStore)
    → CloseEffect event token now
        (λ r. completed r result_ref now)
        repo
        (complete event token result_ref now repo)
unfolding complete complete_claimed
complete_effect event token result_ref now repo =
    elim (Bool-cases (str_eq result_ref "" || ltb 1_000 (count result_ref))) [
      | inl bad ↦ same value_error (rw bad)
      | inr good ↦ rw good (closing_effect event token now (λ r. completed r result_ref now) repo)
    ]

pub fail_effect :
    (c : ClaimService) (event : ProjectEvent) (token code summary : String) (terminal : Bool)
    (now : ℕ) (repo : ClaimStore)
    → CloseEffect event token now
        (λ r. failed c r code summary terminal now)
        repo
        (fail c event token code summary terminal now repo)
unfolding fail fail_claimed
fail_effect c event token code summary terminal now repo =
    elim (Bool-cases (str_eq code "" || str_eq summary "")) [
      | inl bad ↦ same value_error (rw bad)
      | inr good ↦
          rw good (closing_effect event token now (λ r. failed c r code summary terminal now) repo)
    ]
