-- ===== src/Services/Notifications/Messages.antt =====
-- The service and the provider of app/services/delivery_notifications.py, and the changes that it
-- makes to a message: queued, claimed, failed, delivered. Times are counted in microseconds.
use Prim.Native.String.{◌++◌, slice}
use ogaforeman.Base.{
  ℕ, ◌+◌, ◌-◌, ◌*◌, ◌^◌, String, Bool, false, ◌&&◌, ◌||◌, not, Option, none, some, ltb, leb, str_eq,
  if◌then◌else◌, Result, ok, err, value_error,
}
use ogaforeman.Base.Dict.{Dict}
use ogaforeman.Domain.Enums.{OutboxStatus, same_outbox}
use ogaforeman.Domain.ProcessedEvent.{ProjectEvent}
use ogaforeman.Domain.Activity.{Json, Texts}
use ogaforeman.Domain.Json.{same_dict}
use ogaforeman.Domain.Outbox.{OutboxMessage}

-- what the service reads of a `NotificationProvider`
pub record Provider : Type 0 where
  pub provider : String
  pub destination_key : String
  pub is_enabled : Bool
  pub is_external : Bool

-- a `NotificationGatewayError`
pub record GatewayError : Type 0 where
  pub error_code : String
  pub transient : Bool

-- `PermanentNotificationGatewayError`
abbrev pub permanent_error : GatewayError
permanent_error = record { error_code = "NOTIFICATION_PROVIDER_PERMANENT"; transient = false }

pub record NotificationDeliveryResult : Type 0 where
  pub provider : String
  pub provider_message_id : String

pub record NotificationService : Type 0 where
  pub provider : Provider
  pub max_attempts : ℕ
  pub base_backoff : ℕ
  pub claim_lease_seconds : ℕ

-- `__init__`, with the base of the backoff in microseconds
unfoldable pub notification_service : Provider → ℕ → ℕ → ℕ → Result NotificationService
notification_service provider max_attempts base_backoff claim_lease_seconds =
    if ltb max_attempts 1 || ltb 5 max_attempts
    then err value_error
    else if ltb (10 * 10 ^ 6) base_backoff
    then err value_error
    else if ltb claim_lease_seconds 5 || ltb 300 claim_lease_seconds
    then err value_error
    else ok (record {
      provider = provider;
      max_attempts = max_attempts;
      base_backoff = base_backoff;
      claim_lease_seconds = claim_lease_seconds;
    })

abbrev pub message_type : Provider → String
message_type p =
    if p.is_external || not p.is_enabled
    then "external_notification:delivery_delay"
    else "development_notification:delivery_delay"

-- `a == b`, of an optional text and a text
abbrev is_text : Option String → String → Bool
is_text none b = false
is_text (some a) b = str_eq a b

module _ (x : Texts) (c : NotificationService) (event : ProjectEvent) where
  unfoldable pub delivery_digest : String
  delivery_digest = x.hexdigest (
      event.idempotency_key
      ++ ("\0" ++ (c.provider.provider ++ ("\0" ++ c.provider.destination_key))))

  unfoldable pub delivery_key : String
  unfolding delivery_digest
  delivery_key = "delivery-notification:" ++ delivery_digest

  unfoldable pub delivery_id : String
  unfolding delivery_digest
  delivery_id = "obx_" ++ slice delivery_digest 0 20

  -- The message under the id is the one that would be queued.
  unfoldable pub is_same_delivery : Dict Json → OutboxMessage → Bool
  unfolding delivery_key
  is_same_delivery payload existing =
      str_eq existing.deduplication_key delivery_key
      && (same_dict existing.payload payload
          && (is_text existing.provider c.provider.provider
              && is_text existing.destination_key c.provider.destination_key))

  unfoldable pub queued : Dict Json → ℕ → OutboxMessage
  unfolding delivery_key delivery_id
  queued payload now = record {
    id = delivery_id;
    project_id = event.project_id;
    message_type = message_type c.provider;
    deduplication_key = delivery_key;
    payload = payload;
    status = if not c.provider.is_enabled then OutboxStatus.skipped else OutboxStatus.pending;
    attempts = 0;
    last_error = none;
    provider = some c.provider.provider;
    destination_key = some c.provider.destination_key;
    provider_message_id = none;
    claim_token = none;
    claimed_at = none;
    lease_expires_at = none;
    last_attempt_at = none;
    next_attempt_at = none;
    failure_kind = none;
    created_at = now;
    processed_at = if not c.provider.is_enabled then some now else none;
    version = 0;
  }

-- `now + timedelta(seconds=self._claim_lease_seconds)`
abbrev pub lease_end : NotificationService → ℕ → ℕ
lease_end c now = now + c.claim_lease_seconds * 10 ^ 6

unfoldable pub claimed : NotificationService → String → ℕ → OutboxMessage → OutboxMessage
claimed c token now m = record m {
  status = OutboxStatus.processing;
  attempts = m.attempts + 1;
  claim_token = some token;
  claimed_at = some now;
  lease_expires_at = some (lease_end c now);
  last_attempt_at = some now;
  next_attempt_at = none;
  last_error = none;
  failure_kind = none;
}

-- `time is not None and time > now`
abbrev pub is_later : Option ℕ → ℕ → Bool
is_later none now = false
is_later (some time) now = ltb now time

-- The early returns of `_claim`: the message is done with, is held, or has to wait.
unfoldable pub is_unavailable : OutboxMessage → ℕ → Bool
is_unavailable m now =
    same_outbox m.status OutboxStatus.completed
    || (same_outbox m.status OutboxStatus.skipped
        || (same_outbox m.status OutboxStatus.dead_lettered
            || (same_outbox m.status OutboxStatus.processing && is_later m.lease_expires_at now
                || is_later m.next_attempt_at now)))

-- The delay before the attempt that follows; a claimed message has at least one attempt, so the
-- exponent of the source is not negative.
unfoldable pub backoff : NotificationService → OutboxMessage → ℕ
backoff c m = c.base_backoff * 2 ^ (m.attempts - 1)

unfoldable pub is_last : NotificationService → OutboxMessage → GatewayError → Bool
is_last c m e = not e.transient || leb c.max_attempts m.attempts

-- The change of `_record_failure` to the message at hand, given the one that was claimed.
unfoldable pub failed :
    NotificationService → OutboxMessage → GatewayError → ℕ → OutboxMessage → OutboxMessage
unfolding backoff is_last
failed c m e now current = record current {
  status = if is_last c m e then OutboxStatus.dead_lettered else OutboxStatus.failed;
  claim_token = none;
  lease_expires_at = none;
  next_attempt_at = if is_last c m e then none else some (now + backoff c m);
  last_error = some e.error_code;
  failure_kind = some (if e.transient then "transient" else "permanent");
  processed_at = if is_last c m e then some now else none;
}

unfoldable pub delivered : NotificationDeliveryResult → ℕ → OutboxMessage → OutboxMessage
delivered result now current = record current {
  status = OutboxStatus.completed;
  claim_token = none;
  lease_expires_at = none;
  provider_message_id = some result.provider_message_id;
  processed_at = some now;
  next_attempt_at = none;
  last_error = none;
  failure_kind = none;
}
