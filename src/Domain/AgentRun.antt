-- ===== src/Domain/AgentRun.antt =====
-- `AgentRun` of app/domain/models.py with the checks of its pydantic validator.
use ogaforeman.Base.{
  ℕ, String, Bool, true, ◌&&◌, ◌||◌, not, Option, List, refl, ltb, Result, raise_if,
  validation_error,
}
use ogaforeman.Domain.Enums.{AgentRunStatus, WorkflowName, same_run}
use ogaforeman.Domain.Task.{is_none}
use ogaforeman.Domain.ProcessedEvent.{is_blank, is_before}
use ogaforeman.Base.Strip.{strip, strip_option, strip_all}
use ogaforeman.Repositories.Memory.{Entity}

pub record AgentRun : Type 0 where
  pub id : String
  pub project_id : String
  pub trigger_event_id : String
  pub workflow : WorkflowName
  pub status : AgentRunStatus
  pub attempt : ℕ
  pub step : Option String
  pub started_at : ℕ
  pub updated_at : ℕ
  pub completed_at : Option ℕ
  pub trace_id : String
  pub adk_session_id : Option String
  pub adk_invocation_id : Option String
  pub adk_workflow_id : Option String
  pub result_summary : Option String
  pub pending_actions : List String
  pub error_code : Option String
  pub error_summary : Option String
  pub version : ℕ

-- `terminal_statuses`
abbrev pub is_finished : AgentRunStatus → Bool
is_finished status =
    same_run status AgentRunStatus.completed
    || (same_run status AgentRunStatus.failed || same_run status AgentRunStatus.dead_lettered)

-- The checks of `validate_terminal_state`, each of which raises when it holds.
unfoldable pub is_invalid_run : AgentRun → Bool
is_invalid_run r =
    is_finished r.status && is_none r.completed_at
    || (not (is_finished r.status) && not (is_none r.completed_at)
        || (is_before r.completed_at r.started_at
            || (ltb r.updated_at r.started_at
                || (same_run r.status AgentRunStatus.failed
                    || same_run r.status AgentRunStatus.dead_lettered)
                  && (is_blank r.error_code || is_blank r.error_summary))))

unfoldable pub validate_run : AgentRun → Result (Unit {0})
unfolding is_invalid_run
validate_run r = raise_if (is_invalid_run r) validation_error

-- The texts as pydantic keeps them.
abbrev pub strip_run : AgentRun → AgentRun
strip_run r = record r {
  step = strip_option r.step;
  trace_id = strip r.trace_id;
  adk_session_id = strip_option r.adk_session_id;
  adk_invocation_id = strip_option r.adk_invocation_id;
  adk_workflow_id = strip_option r.adk_workflow_id;
  result_summary = strip_option r.result_summary;
  pending_actions = strip_all r.pending_actions;
  error_code = strip_option r.error_code;
  error_summary = strip_option r.error_summary;
}

abbrev pub run_entity : Entity AgentRun
run_entity = record {
  project_id = λ r. r.project_id;
  id = λ r. r.id;
  has_version = true;
  version = λ r. r.version;
  with_version = λ r n. record r { version = n };
  strip = strip_run;
  validate = validate_run;
  version-with_version = λ r n h. refl;
}
