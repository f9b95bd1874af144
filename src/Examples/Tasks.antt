-- ===== src/Examples/Tasks.antt =====
-- app/services/activity.py and app/services/tasks.py at concrete inputs.
use ogaforeman.Base.{
  inl, ℕ, ◌≡◌, ◌≢◌, refl, String, true, false, none, some, [], ◌∷◌, arith, Result, ok, err, In,
  activity_idempotency_conflict, value_error, ◌==◌, if◌then◌else◌,
}
use ogaforeman.Base.Dict
use ogaforeman.Base.Strip.{strip, is_space}
use ogaforeman.Domain.Enums.{TaskStatus, TaskPriority, TaskSource, ActorType}
use ogaforeman.Domain.Task.{Task, full_percent, validate_task, is_invalid_task}
use ogaforeman.Domain.Graph.{index_from}
use ogaforeman.Domain.Transitions.{ensure_task_transition, task_transitions}
use ogaforeman.Domain.Activity.{
  Texts, MutationContext, ActivitySpec, build_event, is_same_mutation, activity_id,
  validate_activity,
}
use ogaforeman.Repositories.Memory.{
  empty, get, find, partition, create, setdefault, admit, write, validate_for_create,
  run_transaction,
}
use ogaforeman.Services.Session.{Session}
use ogaforeman.Services.Activity.{
  Mutation, MutationResult, mutate, mutate_in, mutate_found, first_mutation, replayed,
  validate_confirmation_fence, missing_or_validate, create_missing, ensure_result_scope,
}
use ogaforeman.Services.Activity.Atomic.{mutate_atomic}
use ogaforeman.Services.Activity.Once.{IsReadOnly, mutate-again}
use ogaforeman.Services.Activity.Conflict.{IsOther, mutate-conflict}
use ogaforeman.Services.Tasks.Commands.{UpdateTaskCommand, validate_update, is_invalid_update}
use ogaforeman.Services.Tasks.Update.{
  decide_update, target_of, percent_of, check_target, check_correction, updated_task,
}
use ogaforeman.Services.Tasks.Completion.{IsTidy, never_cancels, completes, update_keeps_valid}

-- Texts that stay as they are, and a fixed payload.
abbrev pub texts : Texts
texts = record {
  hexdigest = λ s. s;
  dumps = λ d. "payload";
  int_text = λ n. if n == 0 then "0" else if n == 1 then "1" else "2";
  decimal_text = λ n. "0";
  signed_text = λ z. "0";
  isoformat = λ n. "1970-01-01T00:00:00+00:00";
  json_time = λ n. "1970-01-01T00:00:00Z";
}

abbrev pub context : MutationContext
context = record {
  project_id = "prj_1";
  actor_type = ActorType.user;
  actor_id = some "usr_1";
  source_event_id = none;
  agent_run_id = none;
  idempotency_key = "key_1";
  request_fingerprint = none;
  confirmation_claim_id = none;
  confirmation_attempt_id = none;
  confirmation_command_fingerprint = none;
  occurred_at = 1_000;
}

abbrev spec : ActivitySpec
spec = record {
  action = "task.updated";
  entity_type = "task";
  entity_id = "tsk_1";
  summary = "Task progress or status updated";
  metadata = [];
}

abbrev other_spec : ActivitySpec
other_spec = record spec { action = "task.completed" }

abbrev pub no_records : Session
no_records = record {
  tasks = empty;
  members = empty;
  issues = empty;
  materials = empty;
  requests = empty;
  ledger = empty;
  activities = empty;
  proposal_claims = empty;
  outbox = empty;
  approvals = empty;
  runs = empty;
}

-- A mutation that answers with a number.
abbrev answering : Mutation ℕ
answering = record {
  apply = λ s. (ok 7, s);
  scope = λ n. none;
  replay = some (λ a s. (ok (some 7), s));
}

answering-IsReadOnly : IsReadOnly answering
unfolding replayed
answering-IsReadOnly = record { keeps = λ a s. refl }

abbrev first_call : Result (MutationResult ℕ) × Session
first_call = mutate answering texts (some context) spec [] no_records

abbrev first_answer : MutationResult ℕ
first_answer = record {
  value = some 7;
  activity = build_event texts context spec;
  duplicate = false;
}

first_call-returns : first_call.0 ≡ ok first_answer
unfolding mutate mutate_in mutate_found first_mutation validate_confirmation_fence
    missing_or_validate create_missing ensure_result_scope run_transaction get find partition create
    setdefault admit write validate_for_create validate_activity build_event activity_id Dict.get
    Dict.put strip is_space
first_call-returns = refl

first_call-fenced : validate_confirmation_fence first_call.1.proposal_claims context ≡ ok tt
unfolding validate_confirmation_fence
first_call-fenced = refl

mutate-again_example : mutate answering texts (some context) spec [] first_call.1 ≡ (
  ok (record { value = some 7; activity = first_answer.activity; duplicate = true }),
  first_call.1,
)
mutate-again_example =
    mutate-again answering texts context spec answering-IsReadOnly no_records first_answer (some 7)
      first_call-returns first_call-fenced (unfold replayed in refl)

first_call-stored :
    get first_call.1.activities "prj_1" (build_event texts context other_spec).id
    ≡ some (build_event texts context spec)
unfolding mutate mutate_in mutate_found first_mutation validate_confirmation_fence
    missing_or_validate create_missing ensure_result_scope run_transaction get find partition create
    setdefault admit write validate_for_create validate_activity build_event activity_id Dict.get
    Dict.put strip is_space
first_call-stored = refl

specs-differ :
    is_same_mutation (build_event texts context spec) (build_event texts context other_spec) ≡ false
unfolding is_same_mutation build_event strip is_space
specs-differ = refl

specs-IsOther : IsOther texts context spec other_spec
unfolding strip is_space
specs-IsOther = inl (λ e. absurd (cc e))

mutate-conflict_example :
    mutate answering texts (some context) other_spec [] first_call.1
    ≡ (err activity_idempotency_conflict, first_call.1)
mutate-conflict_example =
    mutate-conflict answering answering texts context spec other_spec answering-IsReadOnly
      no_records first_answer specs-IsOther first_call-returns first_call-fenced

abbrev walls : Task
walls = record {
  id = "tsk_1";
  project_id = "prj_1";
  title = "Raise the walls";
  description = none;
  status = TaskStatus.in_progress;
  priority = TaskPriority.high;
  assigned_to = none;
  phase_id = none;
  trade = none;
  location = none;
  planned_start = none;
  planned_end = none;
  actual_start = some 100;
  actual_completion = none;
  dependency_ids = "tsk_2" ∷ [];
  is_milestone = false;
  source_refs = [];
  notes = [];
  completion_percent = 40_000_000;
  source = TaskSource.manual;
  version = 3;
  created_at = 0;
  updated_at = 0;
}

abbrev slab : Task
slab = record walls {
  id = "tsk_2";
  title = "Pour the slab";
  status = TaskStatus.completed;
  completion_percent = 100_000_000;
  actual_completion = some 90;
  actual_start = some 50;
  dependency_ids = [];
}

abbrev finishing : UpdateTaskCommand
finishing = record {
  project_id = "prj_1";
  task_id = "tsk_1";
  expected_version = 3;
  completion_percent = some 100_000_000;
  target_status = none;
  evidence = some "All walls stand.";
  negated = false;
  ambiguous = false;
  human_correction = false;
  reconciled_completion = false;
  occurred_at = 1_000;
}

finishing-accepted :
    decide_update (walls ∷ slab ∷ []) walls finishing context ≡ ok (updated_task walls finishing)
unfolding decide_update target_of percent_of check_target check_correction updated_task index_from
    ensure_task_transition task_transitions Dict.get Dict.put
finishing-accepted = refl

never_cancels_example : (updated_task walls finishing).status ≢ TaskStatus.cancelled
never_cancels_example =
    never_cancels (walls ∷ slab ∷ []) walls finishing context (updated_task walls finishing)
      finishing-accepted

completes_example :
    (walls.status ≢ TaskStatus.blocked)
    × ((d : String)
        → In d walls.dependency_ids
        → (u : Task) × In u (walls ∷ slab ∷ []) × (u.id ≡ d) × (u.status ≡ TaskStatus.completed))
    × ((updated_task walls finishing).completion_percent ≡ full_percent)
    × ((updated_task walls finishing).actual_completion ≡ some finishing.occurred_at)
completes_example =
    completes (walls ∷ slab ∷ []) walls finishing context (updated_task walls finishing)
      finishing-accepted (unfold updated_task target_of in refl)

walls-valid : validate_task walls ≡ ok tt
unfolding validate_task is_invalid_task
walls-valid = refl

finishing-valid : validate_update finishing ≡ ok tt
unfolding validate_update is_invalid_update
finishing-valid = refl

update_keeps_valid_example :
    (validate_task (updated_task walls finishing) ≡ ok tt) × IsTidy (updated_task walls finishing)
update_keeps_valid_example =
    update_keeps_valid (walls ∷ slab ∷ []) walls finishing context (updated_task walls finishing)
      finishing-accepted walls-valid finishing-valid (λ h. refl) (λ start h. ground (arith, h))

-- A mutation that writes and then raises.
abbrev failing : Mutation ℕ
failing = record {
  apply = λ s. (err value_error, record s { tasks = write "prj_1" "tsk_1" (walls, 3) s.tasks });
  scope = λ n. none;
  replay = none;
}

failing-raises : (mutate failing texts (some context) spec [] no_records).0 ≡ err value_error
unfolding mutate mutate_in mutate_found first_mutation validate_confirmation_fence
    missing_or_validate run_transaction get find partition build_event activity_id Dict.get strip
    is_space
failing-raises = refl

mutate_atomic_example : (mutate failing texts (some context) spec [] no_records).1 ≡ no_records
mutate_atomic_example =
    mutate_atomic failing texts (some context) spec [] no_records value_error failing-raises
