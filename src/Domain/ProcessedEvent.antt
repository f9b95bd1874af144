-- ===== src/Domain/ProcessedEvent.antt =====
-- `ProcessedEvent` of app/domain/models.py with the checks of its pydantic validator, and the part
-- of `ProjectEvent` (app/domain/events.py) by which an event is identified. Times are counted in
-- microseconds.
use Prim.Native.String.{count}
use ogaforeman.Base.{
  ℕ, String, Bool, true, false, ◌&&◌, ◌||◌, not, Option, none, some, ltb, leb, ◌==◌, str_eq, refl,
  Result, raise_if, validation_error,
}
use ogaforeman.Domain.Enums.{ProcessedEventStatus, same_claim}
use ogaforeman.Domain.Task.{is_none}
use ogaforeman.Base.Strip.{strip_option}
use ogaforeman.Repositories.Memory.{Entity}

pub record ProcessedEvent : Type 0 where
  pub id : String
  pub project_id : String
  pub event_id : String
  pub schema_version : String
  pub event_type : String
  pub status : ProcessedEventStatus
  pub event_fingerprint : String
  pub claim_token : Option String
  pub lease_expires_at : Option ℕ
  pub result_ref : Option String
  pub first_seen_at : ℕ
  pub completed_at : Option ℕ
  pub attempts : ℕ
  pub last_error_code : Option String
  pub last_error_summary : Option String
  pub dead_lettered_at : Option ℕ
  pub dead_letter_reason : Option String
  pub version : ℕ

-- `fingerprint` is the digest that the source computes with SHA-256.
pub record ProjectEvent : Type 0 where
  pub schema_version : String
  pub event_id : String
  pub project_id : String
  pub event_type : String
  pub idempotency_key : String
  pub fingerprint : String

-- `not text`, for an optional text
abbrev pub is_blank : Option String → Bool
is_blank none = true
is_blank (some s) = str_eq s ""

-- longer than `max_length`
abbrev pub is_longer : ℕ → Option String → Bool
is_longer n none = false
is_longer n (some s) = ltb n (count s)

-- `time is not None and time < start`
abbrev pub is_before : Option ℕ → ℕ → Bool
is_before none start = false
is_before (some time) start = ltb time start

-- `time is not None and time <= start`
abbrev pub is_not_after : Option ℕ → ℕ → Bool
is_not_after none start = false
is_not_after (some time) start = leb time start

abbrev has_claim : ProcessedEvent → Bool
has_claim r = not (is_none r.claim_token) || not (is_none r.lease_expires_at)

abbrev has_dead_letter : ProcessedEvent → Bool
has_dead_letter r = not (is_none r.dead_lettered_at) || not (is_none r.dead_letter_reason)

-- The checks of `validate_completion` that depend on the status.
abbrev is_invalid_status : ProcessedEvent → Bool
is_invalid_status r = elim r.status [
  | ProcessedEventStatus.claimed ↦
      is_none r.claim_token || (is_none r.lease_expires_at || has_dead_letter r)
  | ProcessedEventStatus.dead_lettered ↦
      is_none r.dead_lettered_at
      || (is_blank r.dead_letter_reason
          || (is_blank r.last_error_code || (is_blank r.last_error_summary || has_claim r)))
  | ProcessedEventStatus.completed ↦ has_claim r || (has_dead_letter r || is_blank r.result_ref)
  | ProcessedEventStatus.failed ↦
      has_claim r
      || (has_dead_letter r || (is_blank r.last_error_code || is_blank r.last_error_summary))
]

-- The lengths of the fields, and the number of attempts.
abbrev is_invalid_field : ProcessedEvent → Bool
is_invalid_field r =
    r.attempts == 0
    || (is_longer 256 r.claim_token
        || (not (is_none r.claim_token) && is_blank r.claim_token
            || (is_longer 1_000 r.result_ref
                || (is_longer 128 r.last_error_code
                    || (is_longer 5_000 r.last_error_summary
                        || is_longer 5_000 r.dead_letter_reason)))))

-- The checks of `validate_completion` on times and results.
abbrev is_invalid_time : ProcessedEvent → Bool
is_invalid_time r =
    same_claim r.status ProcessedEventStatus.completed && is_none r.completed_at
    || (not (same_claim r.status ProcessedEventStatus.completed) && not (is_none r.completed_at)
        || (is_before r.completed_at r.first_seen_at
            || (is_not_after r.lease_expires_at r.first_seen_at
                || (is_before r.dead_lettered_at r.first_seen_at
                    || not (same_claim r.status ProcessedEventStatus.completed)
                      && not (is_none r.result_ref)))))

unfoldable pub is_invalid_event : ProcessedEvent → Bool
is_invalid_event r = is_invalid_field r || (is_invalid_time r || is_invalid_status r)

unfoldable pub validate_event : ProcessedEvent → Result (Unit {0})
unfolding is_invalid_event
validate_event r = raise_if (is_invalid_event r) validation_error

-- The texts as pydantic keeps them. The schema version and the type come from a `ProjectEvent`,
-- where they are constants.
abbrev pub strip_event : ProcessedEvent → ProcessedEvent
strip_event r = record r {
  claim_token = strip_option r.claim_token;
  result_ref = strip_option r.result_ref;
  last_error_code = strip_option r.last_error_code;
  last_error_summary = strip_option r.last_error_summary;
  dead_letter_reason = strip_option r.dead_letter_reason;
}

abbrev pub processed_event : Entity ProcessedEvent
processed_event = record {
  project_id = λ r. r.project_id;
  id = λ r. r.id;
  has_version = true;
  version = λ r. r.version;
  with_version = λ r n. record r { version = n };
  strip = strip_event;
  validate = validate_event;
  version-with_version = λ r n h. refl;
}
