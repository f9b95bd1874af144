-- ===== src/Domain/Records.antt =====
-- Records of app/domain/models.py that a session holds beside tasks and activities:
-- `ConversationProposalClaim`, and `ProjectMember` and `Task` as entities of a repository.
use ogaforeman.Base.{refl, String, true, Option, ℕ}
use ogaforeman.Domain.Task.{Task, validate_task}
use ogaforeman.Base.Strip.{strip, strip_option, strip_all}
use ogaforeman.Repositories.Memory.{Entity}

pub record ConversationProposalClaim : Type 0 where
  pub id : String
  pub project_id : String
  pub actor_id : String
  pub command_fingerprint : String
  pub outcome : String
  pub activity_id : Option String
  pub reply : Option String
  pub observed_memory_version : Option ℕ
  pub confirmation_attempt_id : Option String
  pub consumed_at : ℕ

-- The texts as pydantic keeps them.
abbrev pub strip_task : Task → Task
strip_task r = record r {
  title = strip r.title;
  description = strip_option r.description;
  trade = strip_option r.trade;
  location = strip_option r.location;
  notes = strip_all r.notes;
}

abbrev pub task_entity : Entity Task
task_entity = record {
  project_id = λ t. t.project_id;
  id = λ t. t.id;
  has_version = true;
  version = λ t. t.version;
  with_version = λ t n. record t { version = n };
  strip = strip_task;
  validate = validate_task;
  version-with_version = λ t n h. refl;
}
