-- ===== src/Examples/Claims.antt =====
-- app/services/event_claims.py and app/repositories/memory.py at concrete inputs.
use Prim.Native.String.{count, ◌++◌}
use ogaforeman.Base.{
  ◌+◌, ◌≡◌, ◌≢◌, refl, String, Bool, true, false, ◌||◌, ltb, none, some, [], ◌∷◌, arith, ok, err,
  str_eq, eq_iff, validation_error, version_conflict, invalid_event_claim,
}
use ogaforeman.Base.Dict
use ogaforeman.Base.Strip.{strip, is_space}
use ogaforeman.Domain.ProcessedEvent.{
  ProcessedEvent, ProjectEvent, processed_event, validate_event, is_invalid_event,
}
use ogaforeman.Repositories.Memory.{
  empty, partition, find, setdefault, write, get, create, save, admit, accept, at_version,
  require_expected_version, validate_for_create, run_transaction,
}
use ogaforeman.Repositories.Memory.Guards.{save-save_conflict}
use ogaforeman.Repositories.Memory.Versions.{
  creates, saves, deletes, IsVersioned, IsVersioned-empty, run_writes, run_writes-IsVersioned,
}
use ogaforeman.Services.EventClaims.{
  is_ascii, ClaimService, ClaimStore, ClaimOutcome, EventClaimResult, claim_result, first_claim,
  claim_found, claim, complete, completed, fail, lease_end, reclaimed, complete_claimed,
  require_event, require_active_claim,
}
use ogaforeman.Services.EventClaims.Safety.{
  claims, completes, fails, after, after_all, IsSound, IsSound-empty, after_all-IsSound,
}
use ogaforeman.Services.EventClaims.Final.{after_all-final}
use ogaforeman.Services.EventClaims.Rules.{is_acquired}
use ogaforeman.Services.EventClaims.Ownership.{IsOwned, claim_excludes, claim_fences, fence_error}
use ogaforeman.Services.EventClaims.Progress.{IsOversized, fail_oversized, complete_returns}

abbrev service : ClaimService
service = record { lease_seconds = 300; max_attempts = 2 }

abbrev event : ProjectEvent
event = record {
  schema_version = "1.0";
  event_id = "evt_1";
  project_id = "prj_1";
  event_type = "site_update.received";
  idempotency_key = "key_1";
  fingerprint = "f0";
}

abbrev claimed_once : ClaimStore
claimed_once = (claim service event "token_a" 1_000 empty).1

first_claim-acquired : is_acquired (claim service event "token_a" 1_000 empty).0 ≡ true
unfolding claim claim_found run_transaction get find partition create setdefault admit write
    validate_for_create validate_event is_invalid_event first_claim claim_result Dict.get Dict.put
    strip is_space
first_claim-acquired = refl

after_all-IsSound_example : IsSound service (
    after_all service
      (claims event "token_a" 1_000
        ∷ completes event "token_b" "ref" 2_000
        ∷ fails event "token_a" "E" "late" false 3_000
        ∷ [])
      empty)
after_all-IsSound_example =
    after_all-IsSound service (omega arith)
      (claims event "token_a" 1_000
        ∷ completes event "token_b" "ref" 2_000
        ∷ fails event "token_a" "E" "late" false 3_000
        ∷ [])
      empty (IsSound-empty service)

-- The first owner of the event.
abbrev owned : IsOwned claimed_once event "token_a" (lease_end service 1_000)
unfolding claim claim_found run_transaction get find partition create setdefault admit write
    validate_for_create validate_event is_invalid_event first_claim claim_result Dict.get Dict.put
    strip is_space
owned = record {
  stored = first_claim service event "token_a" 1_000;
  version = 0;
  found = refl;
  ours = refl;
  claimed = refl;
  token_held = refl;
  held_until = refl;
}

claimed_once-IsSound : IsSound service claimed_once
unfolding after_all after
claimed_once-IsSound =
    after_all-IsSound service (omega arith) (claims event "token_a" 1_000 ∷ []) empty
      (IsSound-empty service)

claim_excludes_example :
    (a : EventClaimResult) × (a.outcome ≡ ClaimOutcome.busy)
    × (a.claim_token ≡ none)
    × (claim service event "token_b" 2_000 claimed_once ≡ (ok a, claimed_once))
claim_excludes_example =
    claim_excludes service event "token_a" 1_000 empty (IsSound-empty service) first_claim-acquired
      "token_b" 2_000 (omega arith)

abbrev stale_token : String
stale_token = "token_b"

abbrev live_token : String
live_token = "token_a"

stale_token-other : stale_token ≢ live_token
stale_token-other h = ground (arith, eq_iff stale_token live_token, h)

live_token-stripped : strip live_token ≡ live_token
unfolding strip is_space
live_token-stripped = refl

live_token-is_ascii : is_ascii (strip live_token) ≡ true
unfolding strip is_space is_ascii
live_token-is_ascii = refl

claim_fences_example :
    ((result_ref : String)
      → (str_eq result_ref "" || ltb 1_000 (count result_ref)) ≡ false
      → complete event "token_b" result_ref 2_000 claimed_once
        ≡ (err invalid_event_claim, claimed_once))
    × ((code summary : String) (terminal : Bool)
        → (str_eq code "" || str_eq summary "") ≡ false
        → fail service event "token_b" code summary terminal 2_000 claimed_once
          ≡ (err invalid_event_claim, claimed_once))
unfolding strip is_space fence_error is_ascii
claim_fences_example =
    claim_fences service event "token_a" 1_000 empty (IsSound-empty service) first_claim-acquired
      "token_b" 2_000 stale_token-other

complete_returns_example :
    (complete event "token_a" " ref" 2_000 claimed_once).0
    ≡ ok (record (completed (first_claim service event "token_a" 1_000) "ref" 2_000) {
      version = 0 + 1;
    })
unfolding owned strip is_space is_ascii
complete_returns_example =
    complete_returns service claimed_once-IsSound owned 2_000 (omega arith) live_token-is_ascii
      " ref" refl refl (unfold first_claim in omega arith)

abbrev ten : String → String
ten s = s ++ (s ++ (s ++ (s ++ (s ++ (s ++ (s ++ (s ++ (s ++ s))))))))

-- 5000 characters, the most that `last_error_summary` holds
abbrev long_summary : String
long_summary = ten (ten (ten "lorem"))

long_summary-IsOversized : IsOversized "ERROR" long_summary
unfolding strip is_space
long_summary-IsOversized = omega arith

fail_oversized_example :
    fail service event "token_a" "ERROR" long_summary true 2_000 claimed_once
    ≡ (err validation_error, claimed_once)
unfolding strip is_space
fail_oversized_example =
    fail_oversized service claimed_once-IsSound owned 2_000 (omega arith) live_token-is_ascii
      "ERROR" long_summary true refl refl long_summary-IsOversized

abbrev completed_store : ClaimStore
completed_store = (complete event "token_a" "ref" 2_000 claimed_once).1

abbrev completed_event : ProcessedEvent
completed_event = record (completed (first_claim service event "token_a" 1_000) "ref" 2_000) {
  version = 1;
}

completed_store-found : find completed_store "prj_1" "key_1" ≡ some (completed_event, 1)
unfolding claim claim_found run_transaction get find partition create setdefault admit write
    validate_for_create validate_event is_invalid_event first_claim claim_result Dict.get Dict.put
    complete complete_claimed completed require_event require_active_claim save accept
    require_expected_version at_version strip is_space
completed_store-found = refl

completed_store-IsSound : IsSound service completed_store
unfolding after_all after
completed_store-IsSound =
    after_all-IsSound service (omega arith)
      (claims event "token_a" 1_000 ∷ completes event "token_a" "ref" 2_000 ∷ []) empty
      (IsSound-empty service)

after_all-final_example :
    find
      (after_all service
        (claims event "token_b" 3_000 ∷ fails event "token_a" "E" "late" false 3_000 ∷ [])
        completed_store)
      "prj_1"
      "key_1"
    ≡ some (completed_event, 1)
after_all-final_example =
    after_all-final service (omega arith) "prj_1" "key_1" completed_event 1
      (unfold completed in refl)
      (claims event "token_b" 3_000 ∷ fails event "token_a" "E" "late" false 3_000 ∷ [])
      completed_store completed_store-IsSound completed_store-found

abbrev fresh_record : ProcessedEvent
fresh_record = first_claim service event "token_a" 1_000

abbrev stored_once : ClaimStore
stored_once = (create processed_event fresh_record empty).1

fresh_record-created : (create processed_event fresh_record empty).0 ≡ ok fresh_record
unfolding claim claim_found run_transaction get find partition create setdefault admit write
    validate_for_create validate_event is_invalid_event first_claim claim_result Dict.get Dict.put
    strip is_space
fresh_record-created = refl

abbrev second_claim : ProcessedEvent
second_claim = reclaimed service fresh_record "token_b" 400_000_000

second_claim-saved :
    (save processed_event second_claim (some 0) stored_once).0
    ≡ ok (record second_claim { version = 1 })
unfolding claim claim_found run_transaction get find partition create setdefault admit write
    validate_for_create validate_event is_invalid_event first_claim claim_result Dict.get Dict.put
    save accept require_expected_version at_version reclaimed strip is_space
second_claim-saved = refl

save-save_conflict_example :
    save processed_event fresh_record
      (some 0)
      (save processed_event second_claim (some 0) stored_once).1
    ≡ (err version_conflict, (save processed_event second_claim (some 0) stored_once).1)
save-save_conflict_example =
    save-save_conflict processed_event second_claim fresh_record
      (record second_claim { version = 1 }) (some 0) stored_once (unfold reclaimed in refl)
      (unfold reclaimed in refl) second_claim-saved

run_writes-IsVersioned_example : IsVersioned processed_event (
    run_writes processed_event
      (creates fresh_record ∷ saves second_claim (some 0) ∷ deletes "prj_1" "key_1" (some 0) ∷ [])
      empty)
run_writes-IsVersioned_example =
    run_writes-IsVersioned processed_event refl
      (creates fresh_record ∷ saves second_claim (some 0) ∷ deletes "prj_1" "key_1" (some 0) ∷ [])
      empty (IsVersioned-empty processed_event)
