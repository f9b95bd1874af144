-- ===== src/Domain/Outbox.antt =====
-- `OutboxMessage` of app/domain/models.py with the checks of its pydantic validator. Times are
-- counted in microseconds. The payload is the JSON that the message carries.
use ogaforeman.Base.{
  ℕ, String, Bool, true, false, ◌&&◌, ◌||◌, not, Option, some, refl, str_eq, Result, raise_if,
  validation_error,
}
use ogaforeman.Base.Dict.{Dict}
use ogaforeman.Domain.Enums.{OutboxStatus, same_outbox}
use ogaforeman.Domain.Task.{is_none}
use ogaforeman.Domain.ProcessedEvent.{is_blank, is_before, is_longer}
use ogaforeman.Domain.Activity.{Json}
use ogaforeman.Base.Strip.{strip, strip_option}
use ogaforeman.Repositories.Memory.{Entity}

pub record OutboxMessage : Type 0 where
  pub id : String
  pub project_id : String
  pub message_type : String
  pub deduplication_key : String
  pub payload : Dict Json
  pub status : OutboxStatus
  pub attempts : ℕ
  pub last_error : Option String
  pub provider : Option String
  pub destination_key : Option String
  pub provider_message_id : Option String
  pub claim_token : Option String
  pub claimed_at : Option ℕ
  pub lease_expires_at : Option ℕ
  pub last_attempt_at : Option ℕ
  pub next_attempt_at : Option ℕ
  pub failure_kind : Option String
  pub created_at : ℕ
  pub processed_at : Option ℕ
  pub version : ℕ

-- `terminal_statuses`
abbrev pub is_terminal : OutboxStatus → Bool
is_terminal status =
    same_outbox status OutboxStatus.completed
    || (same_outbox status OutboxStatus.skipped || same_outbox status OutboxStatus.dead_lettered)

-- processing for a provider, but without a claim
abbrev lacks_claim : OutboxMessage → Bool
lacks_claim m = is_blank m.claim_token || (is_none m.claimed_at || is_none m.lease_expires_at)

-- The lengths of the fields that a provider or an exception fills.
abbrev is_invalid_field : OutboxMessage → Bool
is_invalid_field m =
    str_eq m.message_type ""
    || (is_longer 128 (some m.message_type)
        || (str_eq m.deduplication_key ""
            || (is_longer 256 (some m.deduplication_key)
                || (is_longer 5_000 m.last_error || is_longer 500 m.provider_message_id))))

-- The checks of `validate_outbox`, each of which raises when it holds.
unfoldable pub is_invalid_message : OutboxMessage → Bool
is_invalid_message m =
    is_invalid_field m
    || (is_terminal m.status && is_none m.processed_at
        || (not (is_terminal m.status) && not (is_none m.processed_at)
            || (is_before m.processed_at m.created_at
                || ((elim (same_outbox m.status OutboxStatus.processing) [
                  | true ↦ not (is_none m.provider) && lacks_claim m
                  | false ↦ not (is_none m.claim_token) || not (is_none m.lease_expires_at)
                ])
                    || not (is_none m.provider_message_id)
                      && not (same_outbox m.status OutboxStatus.completed)))))

unfoldable pub validate_outbox : OutboxMessage → Result (Unit {0})
unfolding is_invalid_message
validate_outbox m = raise_if (is_invalid_message m) validation_error

-- The texts as pydantic keeps them.
abbrev pub strip_message : OutboxMessage → OutboxMessage
strip_message r = record r {
  message_type = strip r.message_type;
  deduplication_key = strip r.deduplication_key;
  last_error = strip_option r.last_error;
  provider_message_id = strip_option r.provider_message_id;
}

abbrev pub outbox_message : Entity OutboxMessage
outbox_message = record {
  project_id = λ m. m.project_id;
  id = λ m. m.id;
  has_version = true;
  version = λ m. m.version;
  with_version = λ m n. record m { version = n };
  strip = strip_message;
  validate = validate_outbox;
  version-with_version = λ m n h. refl;
}
