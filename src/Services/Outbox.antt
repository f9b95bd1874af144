-- ===== src/Services/Outbox.antt =====
-- app/services/outbox.py: messages that are queued once for a deduplication key and published by a
-- handler. Readings of the clock are arguments. The handler, which publishes the message, is a
-- parameter: it may raise, and may change the session.
pub mod Calls
pub mod Process
pub mod Publication
use Prim.Native.String.{◌++◌, slice}
use ogaforeman.Base.{ℕ, ◌+◌, String, Option, none, some, [], ◌∷◌, if◌then◌else◌, ok}
use ogaforeman.Base.Dict
use ogaforeman.Base.Dict.{Dict}
use ogaforeman.Base.Exec.{Exec, pure, lift, ◌>>=◌, ◌>>◌}
use ogaforeman.Domain.Enums.{OutboxStatus, same_outbox}
use ogaforeman.Domain.Activity.{
  Json, Texts, MutationContext, ActivitySpec, ActivityEvent, activity_event, build_event,
  ensure_replay_matches,
}
use ogaforeman.Domain.Outbox.{OutboxMessage, outbox_message}
use ogaforeman.Repositories.Memory.{get, require, create, save, run_transaction}
use ogaforeman.Services.Session.{Session, on_activities, on_outbox}

abbrev pub status_text : OutboxStatus → String
status_text OutboxStatus.pending = "pending"
status_text OutboxStatus.processing = "processing"
status_text OutboxStatus.completed = "completed"
status_text OutboxStatus.skipped = "skipped"
status_text OutboxStatus.failed = "failed"
status_text OutboxStatus.dead_lettered = "dead_lettered"

-- The last lines of `_record_activity`: the activity is stored unless it already is.
unfoldable pub keep_activity : String → ActivityEvent → Exec Session (Unit {0})
keep_activity project_id activity s = elim (get s.activities project_id activity.id) [
  | none ↦ (on_activities (create activity_event activity) >>= λ created. pure tt) s
  | some existing ↦ (ensure_replay_matches existing activity, s)
]

-- What an entry of the audit says beside the message.
pub record Stage : Type 0 where
  pub phase : String
  pub action : String
  pub summary : String
  pub error_code : Option String

-- the `stage_context` of `_record_activity`
unfoldable pub stage_context :
    Texts → MutationContext → OutboxMessage → String → ℕ → MutationContext
stage_context x context message phase now = record context {
  idempotency_key =
      "outbox:" ++ (x.hexdigest context.idempotency_key ++ (":" ++ (message.id ++ (":" ++ phase))));
  occurred_at = now;
}

unfoldable pub stage_metadata : OutboxMessage → Option String → Dict Json
stage_metadata message error_code =
    let metadata =
      ("message_type", Json.text message.message_type)
      ∷ ("status", Json.text (status_text message.status))
      ∷ ("attempt", Json.number message.attempts)
      ∷ [] in
    elim error_code [
      | none ↦ metadata
      | some code ↦ Dict.put metadata "error_code" (Json.text code)
    ]

unfoldable pub record_activity :
    Texts → Option MutationContext → OutboxMessage → Stage → ℕ → Exec Session (Unit {0})
unfolding stage_context stage_metadata keep_activity
record_activity x none message stage now = pure tt
record_activity x (some context) message stage now = keep_activity message.project_id (
    build_event x (stage_context x context message stage.phase now) (record {
      action = stage.action;
      entity_type = "outbox_message";
      entity_id = message.id;
      summary = stage.summary;
      metadata = stage_metadata message stage.error_code;
    }))

unfoldable pub message_id : Texts → String → String
message_id x deduplication_key = "obx_" ++ slice (x.hexdigest deduplication_key) 0 20

-- The message that `queue` creates.
unfoldable pub queued : Texts → String → String → Dict Json → String → ℕ → OutboxMessage
unfolding message_id
queued x project_id message_type payload deduplication_key now = record {
  id = message_id x deduplication_key;
  project_id = project_id;
  message_type = message_type;
  deduplication_key = deduplication_key;
  payload = payload;
  status = OutboxStatus.pending;
  attempts = 0;
  last_error = none;
  provider = none;
  destination_key = none;
  provider_message_id = none;
  claim_token = none;
  claimed_at = none;
  lease_expires_at = none;
  last_attempt_at = none;
  next_attempt_at = none;
  failure_kind = none;
  created_at = now;
  processed_at = none;
  version = 0;
}

-- `_queue`, given what stands under the id
unfoldable pub queue_found : OutboxMessage → Option OutboxMessage → Exec Session OutboxMessage
queue_found message (some existing) = pure existing
queue_found message none = on_outbox (create outbox_message message)

unfoldable pub queue : Texts → String → String → Dict Json → String → ℕ → Exec Session OutboxMessage
unfolding queue_found queued message_id
queue x project_id message_type payload deduplication_key now = run_transaction λ s.
    queue_found (queued x project_id message_type payload deduplication_key now)
      (get s.outbox project_id (message_id x deduplication_key)) s

-- What a handler that raises leaves: the name of the exception's class and its text.
pub record Failure : Type 0 where
  pub error_code : String
  pub text : String

abbrev pub Handler : Type 0
Handler = OutboxMessage → Session → Option Failure × Session

-- The changes that `process` makes to a message when it claims it, when its handler failed, and
-- when it succeeded.
unfoldable pub processing : OutboxMessage → OutboxMessage
processing m = record m { status = OutboxStatus.processing; attempts = m.attempts + 1 }

unfoldable pub publication_failed : Failure → OutboxMessage → OutboxMessage
publication_failed failure m = record m {
  status = OutboxStatus.failed;
  last_error = some (slice failure.text 0 5_000);
}

unfoldable pub published : ℕ → OutboxMessage → OutboxMessage
published now m = record m { status = OutboxStatus.completed; processed_at = some now }

abbrev pub claim_stage : Texts → OutboxMessage → Stage
claim_stage x m = record {
  phase = "claim-" ++ x.int_text m.attempts;
  action = "outbox.claimed";
  summary = "Claimed an event for publication.";
  error_code = none;
}

abbrev pub failure_stage : Texts → Failure → OutboxMessage → Stage
failure_stage x failure m = record {
  phase = "failure-" ++ x.int_text m.attempts;
  action = "outbox.publication_failed";
  summary = "Event publication failed and remains retryable.";
  error_code = some failure.error_code;
}

abbrev pub published_stage : OutboxMessage → Stage
published_stage m = record {
  phase = "published";
  action = "outbox.published";
  summary = "Published an event for worker processing.";
  error_code = none;
}

module _ (x : Texts) (audit : Option MutationContext) where
  -- A message is saved after a change, and the change is recorded.
  unfoldable pub save_staged :
      (OutboxMessage → Stage) → ℕ → OutboxMessage → Option ℕ → Exec Session OutboxMessage
  unfolding record_activity
  save_staged stage now next expected = do
    saved ← on_outbox (save outbox_message next expected)
    record_activity x audit saved (stage saved) now
    pure saved

  -- `_claim`
  unfoldable pub claim : String → String → ℕ → Exec Session OutboxMessage
  unfolding save_staged processing
  claim project_id id now = do
    m ← on_outbox (require project_id id)
    (if same_outbox m.status OutboxStatus.completed
        then pure m
        else save_staged (claim_stage x) now (processing m) (some m.version))

  -- `_fail` and `_complete`, given what the handler did
  unfoldable pub close : OutboxMessage → Option Failure → ℕ → ℕ → Exec Session OutboxMessage
  unfolding save_staged publication_failed published
  close m (some failure) now audit_time =
      save_staged (failure_stage x failure) audit_time (publication_failed failure m)
        (some m.version)
  close m none now audit_time =
      save_staged published_stage audit_time (published now m) (some m.version)

  unfoldable pub settle : String → String → Option Failure → ℕ → ℕ → Exec Session OutboxMessage
  unfolding close
  settle project_id id outcome now audit_time = do
    m ← on_outbox (require project_id id)
    close m outcome now audit_time

  -- `process`, given the clock at the claim, at the end and at the last entry of the audit
  unfoldable pub process : String → String → Handler → ℕ → ℕ → ℕ → Exec Session OutboxMessage
  unfolding claim settle
  process project_id id handler claim_time now audit_time = do
    m ← run_transaction (claim project_id id claim_time)
    (if same_outbox m.status OutboxStatus.completed then pure m else do
      outcome ← (λ s. let (r, s') = handler m s in (ok r, s'))
      run_transaction (settle project_id id outcome now audit_time))
