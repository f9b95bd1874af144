-- ===== src/Services/Notifications.antt =====
-- app/services/delivery_notifications.py: the delivery of a message to an external provider, with
-- claims under a lease, a limited number of attempts and a backoff between them. Readings of the
-- clock, tokens and the provider's answers are arguments; logging and metrics are left out, and so
-- is `_payload`, whose value is an argument.
pub mod Messages
pub mod Delivery
pub mod Steps
pub mod Ownership
pub mod Bounds
pub mod Rounds
pub mod Endings
pub mod Progress
pub mod Delivers
use Prim.Native.String.{◌++◌}
use ogaforeman.Base.{
  ℕ, suc, String, Bool, true, false, ◌||◌, not, Option, none, some, [], ◌∷◌, leb, str_eq,
  if◌then◌else◌, Result, ok, err, Error, runtime_error, permanent_notification_gateway,
  delivery_notification,
}
use ogaforeman.Base.Dict.{Dict}
use ogaforeman.Base.Exec.{Exec, pure, raise, ◌>>=◌, ◌>>◌}
use ogaforeman.Domain.Enums.{ActorType, OutboxStatus, same_outbox}
use ogaforeman.Domain.ProcessedEvent.{ProjectEvent}
use ogaforeman.Domain.Activity.{Json, Texts, MutationContext, ActivityEvent, build_event}
use ogaforeman.Domain.Outbox.{OutboxMessage, outbox_message}
use ogaforeman.Repositories.Memory.{get, require, create, save, run_transaction}
use ogaforeman.Services.Activity.{same_text}
use ogaforeman.Services.Session.{Session, on_outbox}
use ogaforeman.Services.Outbox.{status_text, keep_activity}
use ogaforeman.Services.Notifications.Messages.{
  Provider, GatewayError, permanent_error, NotificationDeliveryResult, NotificationService,
  delivery_id, is_same_delivery, queued, claimed, is_unavailable, is_last, failed, delivered,
}

-- What an entry of the audit says.
pub record Notice : Type 0 where
  pub phase : String
  pub action : String
  pub summary : String
  pub metadata : Dict Json

pub record ClaimResult : Type 0 where
  pub message : OutboxMessage
  pub claimed : Bool

-- What the provider does with one call: it takes the notification, raises a
-- `NotificationGatewayError`, or raises something else.
pub data Answer : Type 0 where
  took : NotificationDeliveryResult → Answer
  refused : GatewayError → Answer
  crashed : Answer

-- `external if self._provider.is_external else development`
abbrev by_provider {ℓ} : {A : Type ℓ} → Provider → A → A → A
by_provider p external development = if p.is_external then external else development

abbrev pub attempt_notice : Texts → Provider → OutboxMessage → Notice
attempt_notice x p m = record {
  phase = "claim-" ++ x.int_text m.attempts;
  action = by_provider p "external_notification.attempted" "development_notification.attempted";
  summary =
      by_provider p "Attempted an external delivery-delay notification."
        "Recorded a development-only notification attempt.";
  metadata =
      ("provider", Json.text p.provider)
      ∷ ("status", Json.text "processing")
      ∷ ("attempt", Json.number m.attempts)
      ∷ [];
}

abbrev pub failure_notice : Texts → Provider → GatewayError → Bool → OutboxMessage → Notice
failure_notice x p e terminal m = record {
  phase = "failure-" ++ x.int_text m.attempts;
  action =
      by_provider p
        (if terminal
          then "external_notification.failed"
          else "external_notification.retry_scheduled")
        "development_notification.failed";
  summary =
      by_provider p
        (if terminal
          then "External delivery-delay notification failed permanently."
          else "Scheduled an external delivery-delay notification retry.")
        "Development-only notification recording failed.";
  metadata =
      ("provider", Json.text p.provider)
      ∷ ("status", Json.text (status_text m.status))
      ∷ ("attempt", Json.number m.attempts)
      ∷ ("error_code", Json.text e.error_code)
      ∷ [];
}

abbrev pub sent_notice : Provider → OutboxMessage → Notice
sent_notice p m = record {
  phase = "sent";
  action = by_provider p "external_notification.sent" "development_notification.recorded";
  summary =
      by_provider p "Sent the delivery-delay notification to the external destination."
        "Recorded the development-only delivery-delay notification.";
  metadata =
      ("provider", Json.text p.provider)
      ∷ ("status", Json.text "completed")
      ∷ ("attempt", Json.number m.attempts)
      ∷ [];
}

abbrev pub queue_notice : Provider → Notice
queue_notice p =
    if not p.is_enabled
    then record {
      phase = "skipped";
      action = "external_notification.skipped";
      summary = "Skipped external delivery because notifications are disabled.";
      metadata =
          ("provider", Json.text p.provider)
          ∷ ("status", Json.text "skipped")
          ∷ ("reason", Json.text "notifications_disabled")
          ∷ [];
    }
    else record {
      phase = "queued";
      action = by_provider p "external_notification.queued" "development_notification.queued";
      summary =
          by_provider p "Queued an external delivery-delay notification."
            "Queued a development-only notification record.";
      metadata = ("provider", Json.text p.provider) ∷ ("status", Json.text "pending") ∷ [];
    }

module _ (x : Texts) (c : NotificationService) (event : ProjectEvent) (run_id : String) where
  -- the context of `_record_activity`
  unfoldable pub notice_context : String → String → ℕ → MutationContext
  notice_context id phase now = record {
    project_id = event.project_id;
    actor_type = ActorType.system;
    actor_id = none;
    source_event_id = some event.event_id;
    agent_run_id = some run_id;
    idempotency_key = "notify:" ++ (id ++ (":" ++ phase));
    request_fingerprint = none;
    confirmation_claim_id = none;
    confirmation_attempt_id = none;
    confirmation_command_fingerprint = none;
    occurred_at = now;
  }

  -- the activity of `_record_activity`
  unfoldable pub notice_event : OutboxMessage → Notice → ℕ → ActivityEvent
  unfolding notice_context
  notice_event m notice now = build_event x (notice_context m.id notice.phase now) (record {
    action = notice.action;
    entity_type = "outbox_message";
    entity_id = m.id;
    summary = notice.summary;
    metadata = notice.metadata;
  })

  -- `_record_activity`
  unfoldable pub record_notice : OutboxMessage → Notice → ℕ → Exec Session (Unit {0})
  unfolding keep_activity notice_event
  record_notice m notice now = keep_activity event.project_id (notice_event m notice now)

  -- A message is saved after a change, and the change is recorded.
  unfoldable pub save_noted :
      (OutboxMessage → Notice) → ℕ → OutboxMessage → Option ℕ → Exec Session OutboxMessage
  unfolding record_notice
  save_noted notice audit_time next expected = do
    saved ← on_outbox (save outbox_message next expected)
    record_notice saved (notice saved) audit_time
    pure saved

  -- `queue`, given what stands under the id
  unfoldable pub queue_found : Dict Json → ℕ → ℕ → Option OutboxMessage → Exec Session OutboxMessage
  unfolding is_same_delivery queued record_notice
  queue_found payload now audit_time (some existing) =
      if not (is_same_delivery x c event payload existing)
      then raise runtime_error
      else pure existing
  queue_found payload now audit_time none = do
    record_notice (queued x c event payload now) (queue_notice c.provider) audit_time
    on_outbox (create outbox_message (queued x c event payload now))

  -- `_queue`
  unfoldable pub queue : Dict Json → ℕ → ℕ → Exec Session OutboxMessage
  unfolding queue_found delivery_id
  queue payload now audit_time = run_transaction λ s.
      queue_found payload now audit_time (get s.outbox event.project_id (delivery_id x c event)) s

  -- `claim`, after the message was read
  unfoldable pub claim_message : String → ℕ → ℕ → OutboxMessage → Exec Session ClaimResult
  unfolding is_unavailable save_noted claimed
  claim_message token now audit_time m =
      if is_unavailable m now then pure (record { message = m; claimed = false }) else do
        saved ←
            save_noted (attempt_notice x c.provider) audit_time (claimed c token now m)
              (some m.version)
        pure (record { message = saved; claimed = true })

  -- `_claim`
  unfoldable pub claim : String → String → ℕ → ℕ → Exec Session ClaimResult
  unfolding claim_message
  claim id token now audit_time =
      run_transaction
        (on_outbox (require event.project_id id) >>= claim_message token now audit_time)

  -- The check of `fail` and `complete`, and the change that follows.
  unfoldable pub close_message :
      OutboxMessage
      → (OutboxMessage → OutboxMessage)
      → (OutboxMessage → Notice)
      → ℕ
      → OutboxMessage
      → Exec Session OutboxMessage
  unfolding save_noted
  close_message m change notice audit_time current =
      if not (same_text current.claim_token m.claim_token)
      then raise runtime_error
      else save_noted notice audit_time (change current) (some current.version)

  unfoldable pub close :
      OutboxMessage
      → (OutboxMessage → OutboxMessage)
      → (OutboxMessage → Notice)
      → ℕ
      → Exec Session OutboxMessage
  unfolding close_message
  close m change notice audit_time =
      run_transaction
        (on_outbox (require event.project_id m.id) >>= close_message m change notice audit_time)

  -- `_record_failure`
  unfoldable pub record_failure : OutboxMessage → GatewayError → ℕ → ℕ → Exec Session OutboxMessage
  unfolding close failed is_last
  record_failure m e now audit_time =
      close m (failed c m e now) (failure_notice x c.provider e (is_last c m e)) audit_time

  -- `_record_success`
  unfoldable pub record_success :
      OutboxMessage → NotificationDeliveryResult → ℕ → ℕ → Exec Session OutboxMessage
  unfolding close delivered
  record_success m result now audit_time =
      if not (str_eq result.provider c.provider.provider)
      then raise permanent_notification_gateway
      else close m (delivered result now) (sent_notice c.provider) audit_time
