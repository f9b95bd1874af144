-- ===== src/Services/EventClaims/Ownership.antt =====
-- Who owns a claimed event (app/services/event_claims.py): exclusion within the lease, and the
-- fencing of earlier owners.
use Prim.Native.String.{count}
use ogaforeman.Base.{
  ℕ, ◌+◌, ◌<◌, ◌≡◌, ◌≢◌, refl, ap, ◌∙◌, String, Bool, true, false, ◌&&◌, ◌||◌, none, some, arith,
  ltb, Result, ok, err, str_eq, eq_iff, eq_refl, invalid_event_claim, Error, type_error, Bool-cases,
  inl, inr, if◌then◌else◌,
}
use ogaforeman.Domain.Enums.{ProcessedEventStatus}
use ogaforeman.Domain.ProcessedEvent.{ProcessedEvent, ProjectEvent, strip_event}
use ogaforeman.Base.Strip.{strip}
use ogaforeman.Repositories.Memory.{find, get, at_version}
use ogaforeman.Repositories.Memory.Find.{get_of_find}
use ogaforeman.Repositories.Memory.Transactions.{run_transaction-same}
use ogaforeman.Services.EventClaims.{
  ClaimService, ClaimStore, ClaimOutcome, claim_result, first_claim, reclaimed, claim,
  claim_existing, ensure_same_event, claim_found, is_same_event, is_held, lease_end, require_event,
  require_active_claim, is_ascii, compare_digest, holds_token, complete, completed, failed,
  complete_claimed, fail, fail_claimed, EventClaimResult,
}
use ogaforeman.Services.EventClaims.Rules.{ClaimEffect, claim_effect, is_acquired, closing}
use ogaforeman.Services.EventClaims.Safety.{IsSound, read-IsSoundRecord}

-- The stored record says that `token` owns the event until `until`.
pub record IsOwned (repo : ClaimStore) (event : ProjectEvent) (token : String) (until : ℕ)
    : Type 0 where
  pub stored : ProcessedEvent
  pub version : ℕ
  pub found : find repo event.project_id event.idempotency_key ≡ some (stored, version)
  pub ours : is_same_event stored event ≡ true
  pub claimed : stored.status ≡ ProcessedEventStatus.claimed
  pub token_held : stored.claim_token ≡ some token
  pub held_until : stored.lease_expires_at ≡ some until

-- What a call with a token that is not the owner's raises.
unfoldable pub fence_error : String → String → Error
fence_error owner token =
    if is_ascii owner && is_ascii token then invalid_event_claim else type_error

-- A claim that is acquired makes its token, stripped, the owner until the end of the lease.
pub claim-IsOwned :
    (c : ClaimService) (event : ProjectEvent) (token : String) (now : ℕ) (repo : ClaimStore)
    → IsSound c repo
    → is_acquired (claim c event token now repo).0 ≡ true
    → IsOwned (claim c event token now repo).1 event (strip token) (lease_end c now)
unfolding claim_result reclaimed at_version
claim-IsOwned c event token now repo s h =
    go (claim c event token now repo) (claim_effect c event token now repo) h
  where
    go :
        (answer : Result EventClaimResult × ClaimStore)
        → ClaimEffect c event token now repo answer
        → is_acquired answer.0 ≡ true
        → IsOwned answer.1 event (strip token) (lease_end c now)
    go answer (ClaimEffect.same r told e) h = absurd (cc (told, ap (λ p. is_acquired p.0) e))
    go answer (ClaimEffect.expired r b found ours free spent told made) h =
        absurd (cc (ap is_acquired told))
    go answer (ClaimEffect.began b told made) h =
        unfold first_claim in
        record {
          stored = strip_event (first_claim c event token now);
          version = 0;
          found =
              made.finds event.project_id event.idempotency_key
              ∙ rw (eq_refl event.project_id, eq_refl event.idempotency_key);
          ours = rw (
            eq_refl event.project_id,
            eq_refl event.event_id,
            eq_refl event.schema_version,
            eq_refl event.event_type,
            eq_refl event.fingerprint,
          );
          claimed = refl;
          token_held = refl;
          held_until = refl;
        }
    go answer (ClaimEffect.retook r b found ours free left told made) h =
        let (n, at, sound) =
          read-IsSoundRecord c repo event.project_id event.idempotency_key r s found in
        let same : (str_eq r.project_id event.project_id && str_eq r.id event.idempotency_key)
            ≡ true =
          ground (
            arith,
            eq_iff r.project_id event.project_id,
            eq_iff r.id event.idempotency_key,
            sound.of_project,
            sound.of_key,
          ) in
        record {
          stored = b;
          version = made.current + 1;
          found = made.finds event.project_id event.idempotency_key ∙ rw same;
          ours = ap (λ (x : ProcessedEvent). is_same_event x event) made.stored ∙ ours;
          claimed = ap (λ (x : ProcessedEvent). x.status) made.stored;
          token_held = ap (λ (x : ProcessedEvent). x.claim_token) made.stored;
          held_until = ap (λ (x : ProcessedEvent). x.lease_expires_at) made.stored;
        }

module _ (c : ClaimService) {event : ProjectEvent} {owner : String} {until : ℕ} {repo : ClaimStore}
    (o : IsOwned repo event owner until) where
  read : get repo event.project_id event.idempotency_key ≡ some o.stored
  read = get_of_find repo event.project_id event.idempotency_key o.stored o.version o.found

  -- While the lease of an owner lasts, every other claim of the event is told that it is busy,
  -- gets no token, and changes nothing.
  pub claim_busy :
      (token : String) (now : ℕ)
      → now < until
      → claim c event token now repo ≡ (ok (claim_result ClaimOutcome.busy o.stored false), repo)
  unfolding claim
  claim_busy token now early =
      run_transaction-same
        (λ x. claim_found c event token now (get x event.project_id event.idempotency_key) x) repo
        (ok (claim_result ClaimOutcome.busy o.stored false))
        (rw (read, claim_found, ensure_same_event, o.ours)
          (busy (ground (arith, o.claimed, o.held_until, early))))
    where
      busy :
          is_held o.stored now ≡ true
          → claim_existing c token now o.stored repo
            ≡ (ok (claim_result ClaimOutcome.busy o.stored false), repo)
      busy held = unfold claim_existing in ground (arith, o.claimed)

  stale :
      (token : String) (now : ℕ)
      → token ≢ owner
      → require_active_claim o.stored token now ≡ err (fence_error owner token)
  unfolding require_active_claim holds_token compare_digest fence_error
  stale token now other =
      let wrong : str_eq owner token ≡ false = ground (arith, eq_iff owner token, other) in
      rw (o.claimed, o.token_held, wrong)
        (elim (Bool-cases (is_ascii owner && is_ascii token)) [
          | inl e ↦ rw e refl
          | inr e ↦ rw e refl
        ])

  closing_stale :
      (token : String) (now : ℕ) (next : ProcessedEvent → ProcessedEvent)
      → token ≢ owner
      → closing event token now next repo ≡ (err (fence_error owner token), repo)
  unfolding require_event
  closing_stale token now next other = rw (read, require_event, o.ours, stale token now other)

  -- Whoever does not hold the owner's token can neither complete nor fail the event: the call
  -- raises and changes nothing, at any time.
  pub complete_fenced :
      (token result_ref : String) (now : ℕ)
      → (str_eq result_ref "" || ltb 1_000 (count result_ref)) ≡ false
      → token ≢ owner
      → complete event token result_ref now repo ≡ (err (fence_error owner token), repo)
  unfolding complete complete_claimed
  complete_fenced token result_ref now fits other = rw fits (
      run_transaction-same (closing event token now (λ r. completed r result_ref now)) repo
        (err (fence_error owner token))
        (closing_stale token now (λ r. completed r result_ref now) other))

  pub fail_fenced :
      (token code summary : String) (terminal : Bool) (now : ℕ)
      → (str_eq code "" || str_eq summary "") ≡ false
      → token ≢ owner
      → fail c event token code summary terminal now repo ≡ (err (fence_error owner token), repo)
  unfolding fail fail_claimed
  fail_fenced token code summary terminal now given other = rw given (
      run_transaction-same (closing event token now (λ r. failed c r code summary terminal now))
        repo (err (fence_error owner token))
        (closing_stale token now (λ r. failed c r code summary terminal now) other))

module _ (c : ClaimService) (event : ProjectEvent) (token : String) (now : ℕ) (repo : ClaimStore)
    (sound : IsSound c repo) (won : is_acquired (claim c event token now repo).0 ≡ true) where
  owned : IsOwned (claim c event token now repo).1 event (strip token) (lease_end c now)
  owned = claim-IsOwned c event token now repo sound won

  -- After a claim of an event was acquired in a sound store, until its lease ends every claim of
  -- the event is answered "busy", with no token, and changes nothing.
  pub claim_excludes :
      (other : String) (later : ℕ)
      → later < lease_end c now
      → (a : EventClaimResult) × (a.outcome ≡ ClaimOutcome.busy)
        × (a.claim_token ≡ none)
        × (claim c event other later (claim c event token now repo).1
            ≡ (ok a, (claim c event token now repo).1))
  unfolding claim_result
  claim_excludes other later early = (
    claim_result ClaimOutcome.busy owned.stored false,
    refl,
    refl,
    claim_busy c owned other later early,
  )

  -- After a claim of an event was acquired in a sound store, whoever comes with a token other than
  -- the stripped one of the claim, such as an earlier owner whose lease ran out, can neither
  -- complete nor fail the event: the call raises `InvalidEventClaim`, or TypeError if one of the
  -- two tokens is not ASCII, and changes nothing, whatever the time.
  pub claim_fences :
      (stale_token : String) (later : ℕ)
      → stale_token ≢ strip token
      → ((result_ref : String)
          → (str_eq result_ref "" || ltb 1_000 (count result_ref)) ≡ false
          → complete event stale_token result_ref later (claim c event token now repo).1
            ≡ (err (fence_error (strip token) stale_token), (claim c event token now repo).1))
        × ((code summary : String) (terminal : Bool)
            → (str_eq code "" || str_eq summary "") ≡ false
            → fail c event stale_token code summary terminal later (claim c event token now repo).1
              ≡ (err (fence_error (strip token) stale_token), (claim c event token now repo).1))
  claim_fences stale_token later other = (
    λ result_ref fits. complete_fenced c owned stale_token result_ref later fits other,
    λ code summary terminal given.
        fail_fenced c owned stale_token code summary terminal later given other,
  )
