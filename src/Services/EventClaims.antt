-- ===== src/Services/EventClaims.antt =====
-- app/services/event_claims.py: claims, leases, completion and dead-lettering of events that are
-- delivered at least once. The caller's clock and the fresh random token are arguments; a call
-- without `now` reads the clock, so it is a call with the time that it reads.
pub mod Rules
pub mod Safety
pub mod Final
pub mod Ownership
pub mod Progress
use Prim.Native.Char.{code}
use Prim.Native.String.{[], ◌∷◌, count, ◌++◌}
use ogaforeman.Base.{
  ℕ, ◌+◌, ◌*◌, ◌^◌, String, Bool, true, false, ◌&&◌, ◌||◌, not, Option, none, some, ltb, leb, ◌==◌,
  str_eq, if◌then◌else◌, Result, ok, err, raise_if, value_error, entity_not_found,
  event_claim_conflict, invalid_event_claim, type_error, ◌>>=◌ as check,
}
use ogaforeman.Base.Exec.{Exec, pure, raise, lift, ◌>>=◌, ◌>>◌}
use ogaforeman.Domain.Enums.{ProcessedEventStatus, same_claim}
use ogaforeman.Domain.ProcessedEvent.{ProcessedEvent, ProjectEvent, processed_event, is_blank}
use ogaforeman.Repositories.Memory.{Repo, get, create, save, run_transaction}

pub data ClaimOutcome : Type 0 where
  acquired duplicate_completed busy dead_lettered : ClaimOutcome

pub record EventClaimResult : Type 0 where
  pub outcome : ClaimOutcome
  pub event_id : String
  pub attempts : ℕ
  pub claim_token : Option String
  pub lease_expires_at : Option ℕ
  pub result_ref : Option String
  pub dead_letter_reason : Option String

-- `EventClaimService(store, lease_seconds=..., max_attempts=...)`
pub record ClaimService : Type 0 where
  pub lease_seconds : ℕ
  pub max_attempts : ℕ

-- the checks of `__init__`
unfoldable pub claim_service : ℕ → ℕ → Result ClaimService
claim_service lease_seconds max_attempts =
    if lease_seconds == 0
    then err value_error
    else if max_attempts == 0
    then err value_error
    else ok (record { lease_seconds = lease_seconds; max_attempts = max_attempts })

abbrev pub ClaimStore : Type 0
ClaimStore = Repo ProcessedEvent

-- `current_time + timedelta(seconds=self._lease_seconds)`
abbrev pub lease_end : ClaimService → ℕ → ℕ
lease_end c now = now + c.lease_seconds * 10 ^ 6

unfoldable pub claim_result : ClaimOutcome → ProcessedEvent → Bool → EventClaimResult
claim_result outcome event expose_token = record {
  outcome = outcome;
  event_id = event.event_id;
  attempts = event.attempts;
  claim_token = if expose_token then event.claim_token else none;
  lease_expires_at = event.lease_expires_at;
  result_ref = event.result_ref;
  dead_letter_reason = event.dead_letter_reason;
}

abbrev pub is_same_event : ProcessedEvent → ProjectEvent → Bool
is_same_event existing event =
    str_eq existing.project_id event.project_id
    && (str_eq existing.event_id event.event_id
        && (str_eq existing.schema_version event.schema_version
            && (str_eq existing.event_type event.event_type
                && str_eq existing.event_fingerprint event.fingerprint)))

unfoldable pub ensure_same_event : ProcessedEvent → ProjectEvent → Result (Unit {0})
ensure_same_event existing event =
    raise_if (not (is_same_event existing event)) event_claim_conflict

-- The record that `claim` creates for an event that it has not seen.
unfoldable pub first_claim : ClaimService → ProjectEvent → String → ℕ → ProcessedEvent
first_claim c event token now = record {
  id = event.idempotency_key;
  project_id = event.project_id;
  event_id = event.event_id;
  schema_version = event.schema_version;
  event_type = event.event_type;
  status = ProcessedEventStatus.claimed;
  event_fingerprint = event.fingerprint;
  claim_token = some token;
  lease_expires_at = some (lease_end c now);
  result_ref = none;
  first_seen_at = now;
  completed_at = none;
  attempts = 1;
  last_error_code = none;
  last_error_summary = none;
  dead_lettered_at = none;
  dead_letter_reason = none;
  version = 0;
}

-- `text or default`
abbrev pub or_else : Option String → String → String
or_else none default = default
or_else (some s) default = if str_eq s "" then default else s

abbrev pub exhausted_code : ProcessedEvent → String
exhausted_code r = or_else r.last_error_code "CLAIM_ATTEMPTS_EXHAUSTED"

abbrev pub exhausted_summary : ProcessedEvent → String
exhausted_summary r = or_else r.last_error_summary "claim lease expired"

-- f"{error_code}: {error_summary}"
abbrev pub reason_text : String → String → String
reason_text code summary = code ++ (": " ++ summary)

unfoldable pub exhausted : ProcessedEvent → ℕ → ProcessedEvent
exhausted r now = record r {
  status = ProcessedEventStatus.dead_lettered;
  claim_token = none;
  lease_expires_at = none;
  last_error_code = some (exhausted_code r);
  last_error_summary = some (exhausted_summary r);
  dead_lettered_at = some now;
  dead_letter_reason = some (reason_text (exhausted_code r) (exhausted_summary r));
}

unfoldable pub reclaimed : ClaimService → ProcessedEvent → String → ℕ → ProcessedEvent
reclaimed c r token now = record r {
  status = ProcessedEventStatus.claimed;
  claim_token = some token;
  lease_expires_at = some (lease_end c now);
  attempts = r.attempts + 1;
  dead_lettered_at = none;
  dead_letter_reason = none;
}

-- claimed, and the lease has not run out
abbrev pub is_held : ProcessedEvent → ℕ → Bool
is_held r now =
    same_claim r.status ProcessedEventStatus.claimed
    && (elim r.lease_expires_at [ none ↦ false | some t ↦ ltb now t ])

-- The part of `claim` after the record of the event was found.
unfoldable pub claim_existing :
    ClaimService → String → ℕ → ProcessedEvent → Exec ClaimStore EventClaimResult
unfolding exhausted reclaimed claim_result
claim_existing c token now existing =
    if same_claim existing.status ProcessedEventStatus.completed
    then pure (claim_result ClaimOutcome.duplicate_completed existing false)
    else if same_claim existing.status ProcessedEventStatus.dead_lettered
    then pure (claim_result ClaimOutcome.dead_lettered existing false)
    else if is_held existing now
    then pure (claim_result ClaimOutcome.busy existing false)
    else if leb c.max_attempts existing.attempts
    then (do
      saved ← save processed_event (exhausted existing now) (some existing.version)
      pure (claim_result ClaimOutcome.dead_lettered saved false))
    else do
      saved ← save processed_event (reclaimed c existing token now) (some existing.version)
      pure (claim_result ClaimOutcome.acquired saved true)

unfoldable pub claim_found :
    ClaimService
    → ProjectEvent
    → String
    → ℕ
    → Option ProcessedEvent
    → Exec ClaimStore EventClaimResult
unfolding claim_existing ensure_same_event first_claim
claim_found c event token now none = do
  created ← create processed_event (first_claim c event token now)
  pure (claim_result ClaimOutcome.acquired created true)
claim_found c event token now (some existing) = do
  lift (ensure_same_event existing event)
  claim_existing c token now existing

unfoldable pub claim : ClaimService → ProjectEvent → String → ℕ → Exec ClaimStore EventClaimResult
unfolding claim_found run_transaction
claim c event token now =
    run_transaction
      λ repo. claim_found c event token now (get repo event.project_id event.idempotency_key) repo

-- `_require_event`, given what was found
unfoldable pub require_event : ProjectEvent → Option ProcessedEvent → Result ProcessedEvent
unfolding ensure_same_event
require_event event none = err entity_not_found
require_event event (some existing) =
    if is_same_event existing event then ok existing else err event_claim_conflict

-- `str.isascii`
unfoldable pub is_ascii : String → Bool
is_ascii [] = true
is_ascii (c ∷ s) = let rest = is_ascii s in ltb (code c) 128 && rest

-- `secrets.compare_digest`, which raises TypeError for a text that is not ASCII
unfoldable pub compare_digest : String → String → Result Bool
unfolding is_ascii
compare_digest a b = if is_ascii a && is_ascii b then ok (str_eq a b) else err type_error

-- `existing.claim_token is not None and compare_digest(...)`
unfoldable pub holds_token : Option String → String → Result Bool
unfolding compare_digest
holds_token none token = ok false
holds_token (some held) token = compare_digest held token

-- `_require_active_claim`
unfoldable pub require_active_claim : ProcessedEvent → String → ℕ → Result (Unit {0})
unfolding holds_token
require_active_claim existing token now =
    if not (same_claim existing.status ProcessedEventStatus.claimed)
    then err invalid_event_claim
    else check (holds_token existing.claim_token token) λ held.
      if not held
      then err invalid_event_claim
      else if not (elim existing.lease_expires_at [ none ↦ false | some t ↦ ltb now t ])
      then err invalid_event_claim
      else ok tt

unfoldable pub completed : ProcessedEvent → String → ℕ → ProcessedEvent
completed r result_ref now = record r {
  status = ProcessedEventStatus.completed;
  result_ref = some result_ref;
  completed_at = some now;
  claim_token = none;
  lease_expires_at = none;
  last_error_code = none;
  last_error_summary = none;
}

-- `complete` after its check of the result's length
unfoldable pub complete_claimed :
    ProjectEvent → String → String → ℕ → Exec ClaimStore ProcessedEvent
unfolding require_event require_active_claim completed
complete_claimed event token result_ref now repo =
    (do
      existing ← lift (require_event event (get repo event.project_id event.idempotency_key))
      lift (require_active_claim existing token now)
      save processed_event (completed existing result_ref now) (some existing.version))
      repo

unfoldable pub complete : ProjectEvent → String → String → ℕ → Exec ClaimStore ProcessedEvent
unfolding complete_claimed run_transaction
complete event token result_ref now =
    if str_eq result_ref "" || ltb 1_000 (count result_ref)
    then raise value_error
    else run_transaction (complete_claimed event token result_ref now)

-- `terminal or existing.attempts >= self._max_attempts`
abbrev pub should_dead_letter : ClaimService → ProcessedEvent → Bool → Bool
should_dead_letter c r terminal = terminal || leb c.max_attempts r.attempts

unfoldable pub failed : ClaimService → ProcessedEvent → String → String → Bool → ℕ → ProcessedEvent
failed c r code summary terminal now = record r {
  status =
      if should_dead_letter c r terminal
      then ProcessedEventStatus.dead_lettered
      else ProcessedEventStatus.failed;
  claim_token = none;
  lease_expires_at = none;
  last_error_code = some code;
  last_error_summary = some summary;
  dead_lettered_at = if should_dead_letter c r terminal then some now else none;
  dead_letter_reason =
      if should_dead_letter c r terminal then some (reason_text code summary) else none;
}

unfoldable pub fail_claimed :
    ClaimService
    → ProjectEvent
    → String
    → String
    → String
    → Bool
    → ℕ
    → Exec ClaimStore ProcessedEvent
unfolding require_event require_active_claim failed
fail_claimed c event token code summary terminal now repo =
    (do
      existing ← lift (require_event event (get repo event.project_id event.idempotency_key))
      lift (require_active_claim existing token now)
      save processed_event (failed c existing code summary terminal now) (some existing.version))
      repo

unfoldable pub fail :
    ClaimService
    → ProjectEvent
    → String
    → String
    → String
    → Bool
    → ℕ
    → Exec ClaimStore ProcessedEvent
unfolding fail_claimed run_transaction
fail c event token code summary terminal now =
    if str_eq code "" || str_eq summary ""
    then raise value_error
    else run_transaction (fail_claimed c event token code summary terminal now)
