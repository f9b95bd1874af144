-- ===== src/Examples/Notifications.antt =====
-- app/services/delivery_notifications.py at concrete inputs.
use ogaforeman.Base.{
  ℕ, zero, suc, ◌+◌, ◌*◌, ◌^◌, ◌≡◌, refl, true, false, none, some, [], arith, Result, ok, err,
  runtime_error, delivery_notification, str_eq,
}
use ogaforeman.Base.Dict
use ogaforeman.Base.Strip.{strip, is_space}
use ogaforeman.Domain.Enums.{OutboxStatus}
use ogaforeman.Domain.ProcessedEvent.{ProjectEvent}
use ogaforeman.Domain.Activity.{build_event, activity_id, validate_activity}
use ogaforeman.Domain.Outbox.{OutboxMessage, outbox_message, validate_outbox, is_invalid_message}
use ogaforeman.Repositories.Memory.{
  get, find, partition, create, save, setdefault, admit, accept, write, require, at_version,
  validate_for_create, require_expected_version, run_transaction,
}
use ogaforeman.Domain.Json.{same_json}
use ogaforeman.Services.Session.{Session}
use ogaforeman.Services.Outbox.{keep_activity}
use ogaforeman.Services.Outbox.Calls.{IsTracked}
use ogaforeman.Services.Notifications.Messages.{
  Provider, NotificationService, notification_service, GatewayError, NotificationDeliveryResult,
  delivery_digest, delivery_key, delivery_id, is_same_delivery, claimed, is_unavailable, is_last,
  backoff, failed,
}
use ogaforeman.Services.Notifications.{
  notice_context, Answer, ClaimResult, claim, claim_message, save_noted, record_notice,
  record_success, record_failure, close, close_message,
}
use ogaforeman.Services.Notifications.Delivery.{Round, deliver, deliver_loop}
use ogaforeman.Services.Notifications.Ownership.{claim_is_exclusive, stale_claim_refused}
use ogaforeman.Services.Notifications.Bounds.{IsScheduled, backoff_bounded}
use ogaforeman.Services.Notifications.Progress.{IsDue, notice_id}
use ogaforeman.Services.Notifications.Delivers.{due-delivers}
use ogaforeman.Services.Notifications.Endings.{IsEnd, deliver_ends, exhausted_stays}
use ogaforeman.Examples.Tasks.{no_records}
use ogaforeman.Examples.Outbox.{digests}

abbrev chat : Provider
chat = record { provider = "chat"; destination_key = "room"; is_enabled = true; is_external = true }

abbrev notifier : NotificationService
notifier = record {
  provider = chat;
  max_attempts = 2;
  base_backoff = 1_000_000;
  claim_lease_seconds = 30;
}

abbrev event : ProjectEvent
event = record {
  schema_version = "1.0";
  event_id = "evt_1";
  project_id = "prj_1";
  event_type = "delivery_delayed";
  idempotency_key = "key_1";
  fingerprint = "f";
}

-- The message of the event, after the given number of attempts.
abbrev message : OutboxStatus → ℕ → OutboxMessage
message status attempts = record {
  id = "obx_key_1\0chat\0room";
  project_id = "prj_1";
  message_type = "external_notification:delivery_delay";
  deduplication_key = "delivery-notification:key_1\0chat\0room";
  payload = [];
  status = status;
  attempts = attempts;
  last_error = none;
  provider = some "chat";
  destination_key = some "room";
  provider_message_id = none;
  claim_token = none;
  claimed_at = none;
  lease_expires_at = none;
  last_attempt_at = none;
  next_attempt_at = none;
  failure_kind = none;
  created_at = 100;
  processed_at = none;
  version = 0;
}

abbrev pending : OutboxMessage
pending = message OutboxStatus.pending 0

abbrev holding : OutboxMessage → Session
holding m = record no_records { outbox = (create outbox_message m no_records.outbox).1 }

pending-IsTracked : IsTracked "prj_1" (holding pending) pending
unfolding get find partition create setdefault admit write validate_for_create validate_outbox
    is_invalid_message Dict.get Dict.put strip is_space
pending-IsTracked = record { found = refl; project = refl }

abbrev won_claim : Result ClaimResult × Session
won_claim = claim digests notifier event "run_1" pending.id "token_1" 1_000 1_000 (holding pending)

abbrev first_result : ClaimResult
first_result = record {
  message = record pending {
    status = OutboxStatus.processing;
    attempts = 1;
    claim_token = some "token_1";
    claimed_at = some 1_000;
    lease_expires_at = some 30_001_000;
    last_attempt_at = some 1_000;
    version = 1;
  };
  claimed = true;
}

won_claim-returns : won_claim.0 ≡ ok first_result
unfolding claim claim_message is_unavailable save_noted record_notice keep_activity claimed get find
    partition create save setdefault admit accept write require at_version validate_for_create
    require_expected_version run_transaction validate_outbox is_invalid_message validate_activity
    activity_id build_event Dict.get Dict.put strip is_space
won_claim-returns = refl

claim_is_exclusive_example :
    claim digests notifier event "run_2" pending.id "token_2" 2_000 2_000 won_claim.1
    ≡ (ok (record { message = first_result.message; claimed = false }), won_claim.1)
claim_is_exclusive_example =
    claim_is_exclusive digests notifier event "run_1" "token_1" 1_000 1_000 (holding pending)
      pending first_result pending-IsTracked won_claim-returns refl notifier event "run_2" "token_2"
      2_000 2_000 refl (omega arith)

abbrev stale : OutboxMessage
stale = record first_result.message { claim_token = some "token_0" }

abbrev sent : NotificationDeliveryResult
sent = record { provider = "chat"; provider_message_id = "msg_1" }

abbrev refusal : GatewayError
refusal = record { error_code = "NOTIFICATION_PROVIDER_TRANSIENT"; transient = true }

stale_claim_refused_example :
    (record_success digests notifier event "run_1" stale sent 3_000 3_000 won_claim.1
      ≡ (err runtime_error, won_claim.1))
    × (record_failure digests notifier event "run_1" stale refusal 3_000 3_000 won_claim.1
        ≡ (err runtime_error, won_claim.1))
stale_claim_refused_example =
    stale_claim_refused digests notifier event "run_1" "token_1" 1_000 1_000 (holding pending)
      pending first_result pending-IsTracked won_claim-returns refl stale sent refusal 3_000 3_000
      refl refl refl

abbrev scheduled : OutboxMessage
scheduled = record first_result.message {
  status = OutboxStatus.failed;
  claim_token = none;
  lease_expires_at = none;
  next_attempt_at = some 1_003_000;
  last_error = some "NOTIFICATION_PROVIDER_TRANSIENT";
  failure_kind = some "transient";
  version = 2;
}

failure-returns :
    (record_failure digests notifier event "run_1" first_result.message refusal 3_000 3_000
      won_claim.1).0
    ≡ ok scheduled
unfolding record_failure close close_message failed is_last backoff claim claim_message
    is_unavailable save_noted record_notice keep_activity claimed get find partition create save
    setdefault admit accept write require at_version validate_for_create require_expected_version
    run_transaction validate_outbox is_invalid_message validate_activity activity_id build_event
    Dict.get Dict.put strip is_space
failure-returns = refl

notifier-is_made : notification_service chat 2 1_000_000 30 ≡ ok notifier
unfolding notification_service
notifier-is_made = refl

backoff_bounded_example : IsScheduled notifier first_result.message 3_000 scheduled
backoff_bounded_example =
    backoff_bounded digests chat 2 1_000_000 30 notifier event "run_1" first_result.message refusal
      3_000 3_000 won_claim.1 scheduled notifier-is_made failure-returns

-- A first attempt that the provider refuses for a while, and a second that it takes.
abbrev rounds : ℕ → Round
rounds i = record {
  token = "token";
  claim_time = (i + 1) * 10 ^ 7;
  claim_audit = (i + 1) * 10 ^ 7;
  answer = elim i [ zero ↦ Answer.refused refusal | suc _ ↦ Answer.took sent ];
  success_time = (i + 1) * 10 ^ 7;
  success_audit = (i + 1) * 10 ^ 7;
  failure_time = (i + 1) * 10 ^ 7;
  failure_audit = (i + 1) * 10 ^ 7;
}

no_message :
    (b : OutboxMessage)
    → get no_records.outbox "prj_1" (delivery_id digests notifier event) ≡ some b
    → (b.project_id ≡ "prj_1") × (b.id ≡ delivery_id digests notifier event)
unfolding get find partition Dict.get
no_message b h = absurd (cc)

deliver_ends_example : IsEnd (deliver digests notifier event "run_1" 3 rounds [] 100 100 no_records)
deliver_ends_example =
    deliver_ends digests notifier event "run_1" rounds [] 100 100 no_records no_message

-- A worker that was stopped during its last attempt leaves the message claimed.
abbrev abandoned : OutboxMessage
abandoned = record (message OutboxStatus.processing 2) {
  claim_token = some "token";
  claimed_at = some 1_000;
  lease_expires_at = some 30_001_000;
}

abandoned-stored :
    get (holding abandoned).outbox "prj_1" (delivery_id digests notifier event) ≡ some abandoned
unfolding get find partition create setdefault admit write validate_for_create validate_outbox
    is_invalid_message delivery_id delivery_digest Dict.get Dict.put strip is_space
abandoned-stored = refl

abandoned-is_same : is_same_delivery digests notifier event [] abandoned ≡ true
unfolding is_same_delivery delivery_key delivery_digest same_json
abandoned-is_same = refl

exhausted_stays_example :
    deliver digests notifier event "run_1" 3 rounds [] 900_000_000 900_000_000 (holding abandoned)
    ≡ some (err delivery_notification, holding abandoned)
exhausted_stays_example =
    exhausted_stays digests notifier event "run_1" 2 rounds [] 900_000_000 900_000_000
      (holding abandoned) abandoned abandoned-stored abandoned-is_same refl (omega arith)

pending-IsDue :
    IsDue digests notifier event "run_1" pending
      (rounds 1).token
      (rounds 1).claim_time
      (holding pending)
unfolding get find partition create setdefault admit write validate_for_create validate_outbox
    is_invalid_message is_unavailable Dict.get Dict.put strip is_space
pending-IsDue = record {
  found = refl;
  project = refl;
  valid = refl;
  due = refl;
  token_given = refl;
}

claim-is_new :
    get
      (holding pending).activities
      "prj_1"
      (notice_id digests notifier event "run_1" pending.id "claim-1")
    ≡ none
unfolding get find partition Dict.get
claim-is_new = refl

success-is_new :
    get
      (holding pending).activities
      "prj_1"
      (notice_id digests notifier event "run_1" pending.id "sent")
    ≡ none
unfolding get find partition Dict.get
success-is_new = refl

ids-differ :
    str_eq
      (notice_id digests notifier event "run_1" pending.id "claim-1")
      (notice_id digests notifier event "run_1" pending.id "sent")
    ≡ false
unfolding notice_id notice_context activity_id
ids-differ = refl

due-delivers_example :
    (b : OutboxMessage) × (s' : Session) × (deliver_loop digests notifier event "run_1" 3 rounds 1
        pending
        (holding pending)
      ≡ some (ok b, s'))
    × (b.status ≡ OutboxStatus.completed)
    × (b.provider_message_id ≡ some "msg_1")
unfolding strip is_space
due-delivers_example =
    due-delivers digests notifier event "run_1" pending (rounds 1) (holding pending) pending-IsDue
      claim-is_new sent refl (omega arith) (omega arith) success-is_new ids-differ 2 1 rounds refl
      refl (omega arith)
