-- ===== src/Examples/Outbox.antt =====
-- app/services/outbox.py and the abstract store of app/repositories/memory.py at concrete inputs.
use Prim.Native.String.{count, slice}
use ogaforeman.Base.{◌-◌, ◌≡◌, refl, none, some, [], ◌∷◌, Result, ok}
use ogaforeman.Base.Dict
use ogaforeman.Base.Strip.{strip, is_space}
use ogaforeman.Domain.Enums.{OutboxStatus}
use ogaforeman.Domain.Activity.{Texts, build_event, activity_id, validate_activity}
use ogaforeman.Domain.Outbox.{OutboxMessage, outbox_message, validate_outbox, is_invalid_message}
use ogaforeman.Repositories.Memory.{
  empty, get, find, partition, create, save, setdefault, admit, accept, write, require, at_version,
  validate_for_create, require_expected_version, run_transaction,
}
use ogaforeman.Repositories.Memory.Versions.{creates, saves, deletes}
use ogaforeman.Repositories.Memory.Refinement.{calls, enact_all, calls_refine}
use ogaforeman.Services.Session.{Session}
use ogaforeman.Services.Outbox.{
  Handler, queue, queued, queue_found, message_id, processing, published, stage_context,
  stage_metadata, keep_activity, record_activity, save_staged, claim, close, settle, process,
}
use ogaforeman.Services.Outbox.Calls.{IsTracked}
use ogaforeman.Services.Outbox.Publication.{
  IsPublisher, IsProcessed, process-IsProcessed, process-again,
}
use ogaforeman.Examples.Tasks.{texts, context, no_records}

-- A digest by the last characters.
abbrev pub digests : Texts
digests = record texts { hexdigest = λ s. slice s (count s - 24) (count s) }

abbrev message : OutboxMessage
message = record {
  id = "obx_key";
  project_id = "prj_1";
  message_type = "event";
  deduplication_key = "key";
  payload = [];
  status = OutboxStatus.pending;
  attempts = 0;
  last_error = none;
  provider = none;
  destination_key = none;
  provider_message_id = none;
  claim_token = none;
  claimed_at = none;
  lease_expires_at = none;
  last_attempt_at = none;
  next_attempt_at = none;
  failure_kind = none;
  created_at = 100;
  processed_at = none;
  version = 0;
}

abbrev stored : Session
stored = record no_records { outbox = (create outbox_message message no_records.outbox).1 }

message-is_queued : queue digests "prj_1" "event" [] "key" 100 no_records ≡ (ok message, stored)
unfolding queue queued queue_found message_id get find partition create setdefault admit write
    validate_for_create validate_outbox is_invalid_message run_transaction Dict.get Dict.put strip
    is_space
message-is_queued = refl

-- A second message under the same key is the first.
queue-again_example : (queue digests "prj_1" "other" [] "key" 200 stored).0 ≡ ok message
unfolding queue queued queue_found message_id get find partition create setdefault admit write
    validate_for_create validate_outbox is_invalid_message run_transaction Dict.get Dict.put strip
    is_space
queue-again_example = refl

abbrev publisher : Handler
publisher m s = (none, s)

publisher-IsPublisher : IsPublisher publisher
publisher-IsPublisher = record { keeps = λ b s. refl }

stored-IsTracked : IsTracked "prj_1" stored message
unfolding get find partition create setdefault admit write validate_for_create validate_outbox
    is_invalid_message Dict.get Dict.put strip is_space
stored-IsTracked = record { found = refl; project = refl }

abbrev first_process : Result OutboxMessage × Session
first_process = process digests (some context) "prj_1" "obx_key" publisher 200 300 300 stored

abbrev published_message : OutboxMessage
published_message = record message {
  status = OutboxStatus.completed;
  attempts = 1;
  processed_at = some 300;
  version = 2;
}

first_process-returns : first_process.0 ≡ ok published_message
unfolding process claim settle close save_staged record_activity keep_activity stage_context
    stage_metadata processing published get find partition create save setdefault admit accept write
    require at_version validate_for_create require_expected_version run_transaction validate_outbox
    is_invalid_message validate_activity activity_id build_event Dict.get Dict.put strip is_space
first_process-returns = refl

process-IsProcessed_example :
    IsTracked "prj_1" first_process.1 published_message
    × (published_message.id ≡ message.id)
    × IsProcessed digests
        (some context)
        "prj_1"
        200
        publisher
        message
        stored
        first_process.1
        published_message
process-IsProcessed_example =
    process-IsProcessed digests (some context) "prj_1" publisher 200 300 300 stored message
      published_message publisher-IsPublisher stored-IsTracked first_process-returns

process-again_example :
    process digests (some context) "prj_1" "obx_key" publisher 400 500 500 first_process.1
    ≡ (ok published_message, first_process.1)
process-again_example =
    process-again digests (some context) "prj_1" publisher publisher 200 300 300 400 500 500 stored
      message published_message publisher-IsPublisher stored-IsTracked first_process-returns refl

calls_refine_example :
    ((calls outbox_message
        (creates message ∷ saves message (some 0) ∷ deletes "prj_1" "obx_key" (some 0) ∷ [])
        empty).0
      ≡ (enact_all outbox_message
          (creates message ∷ saves message (some 0) ∷ deletes "prj_1" "obx_key" (some 0) ∷ [])
          (find empty)).0)
    × (find
          (calls outbox_message
            (creates message ∷ saves message (some 0) ∷ deletes "prj_1" "obx_key" (some 0) ∷ [])
            empty).1
        ≡ (enact_all outbox_message
            (creates message ∷ saves message (some 0) ∷ deletes "prj_1" "obx_key" (some 0) ∷ [])
            (find empty)).1)
calls_refine_example =
    calls_refine outbox_message
      (creates message ∷ saves message (some 0) ∷ deletes "prj_1" "obx_key" (some 0) ∷ []) empty
