-- ===== src/Domain/ImportDraft.antt =====
-- The drafts of app/domain/project_import.py that an import is made of, and the canonical records
-- of app/domain/import_records.py. Dates are counted in days, quantities in millionths.
use ogaforeman.Base.{ℕ, String, Option, List}

pub record SourceReference : Type 0 where
  pub source_id : String
  pub source_type : String
  pub source_name : String
  pub section : Option String
  pub external_reference : Option String
  pub imported_at : ℕ

pub data DraftTaskStatus : Type 0 where
  proposed planned in_progress completed blocked : DraftTaskStatus

pub record PhaseDraft : Type 0 where
  pub temp_id : String
  pub name : String
  pub sequence : ℕ
  pub description : Option String

pub record TaskDraft : Type 0 where
  pub temp_id : String
  pub name : String
  pub description : Option String
  pub phase_temp_id : Option String
  pub planned_start : Option ℕ
  pub planned_finish : Option ℕ
  pub actual_completion : Option ℕ
  pub duration : Option ℕ
  pub initial_status : DraftTaskStatus
  pub location : Option String
  pub trade : Option String
  pub assignee_reference : Option String
  pub source_reference : Option SourceReference

-- The one type of a dependency is from finish to start.
pub record DependencyDraft : Type 0 where
  pub predecessor_temp_id : String
  pub successor_temp_id : String
  pub source_reference : Option SourceReference

pub record MaterialDraft : Type 0 where
  pub temp_id : String
  pub name : String
  pub canonical_unit : String
  pub initial_on_hand_quantity : ℕ
  pub location : Option String
  pub source_reference : Option SourceReference

pub record MaterialRequirementDraft : Type 0 where
  pub task_temp_id : String
  pub material_temp_id : String
  pub required_quantity : ℕ
  pub unit : String
  pub required_by : Option ℕ
  pub source_reference : Option SourceReference
  pub confidence : ℕ

pub record MilestoneDraft : Type 0 where
  pub temp_id : String
  pub name : String
  pub planned_date : Option ℕ
  pub source_reference : Option SourceReference

-- The part of `ProjectImportDraft` that is compared with the canonical project.
pub record ProjectImportDraft : Type 0 where
  pub id : String
  pub project_id : String
  pub phases : List PhaseDraft
  pub tasks : List TaskDraft
  pub dependencies : List DependencyDraft
  pub materials : List MaterialDraft
  pub material_requirements : List MaterialRequirementDraft
  pub milestones : List MilestoneDraft

pub record ProjectPhase : Type 0 where
  pub id : String
  pub project_id : String
  pub import_id : String
  pub name : String
  pub sequence : ℕ
  pub description : Option String
  pub created_at : ℕ

pub record MaterialRequirement : Type 0 where
  pub id : String
  pub project_id : String
  pub import_id : String
  pub task_id : String
  pub material_id : String
  pub required_quantity : ℕ
  pub unit : String
  pub required_by : Option ℕ
  pub confidence : ℕ
  pub source_provenance_id : Option String
  pub created_at : ℕ

pub record ImportConflict : Type 0 where
  pub code : String
  pub message : String
  pub entity_temp_id : Option String
  pub existing_reference : Option String
  pub source_reference : Option SourceReference
