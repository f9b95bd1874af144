-- ===== src/Examples/Imports.antt =====
-- app/services/project_import_diff.py at a small draft and project.
use Prim.Native.String.{◌++◌}
use ogaforeman.Base.{◌≡◌, ◌↔◌, refl, String, false, none, some, List, [], ◌∷◌, ok}
use ogaforeman.Base.Dict
use ogaforeman.Domain.Enums.{TaskStatus, TaskPriority, TaskSource}
use ogaforeman.Domain.Task.{Task}
use ogaforeman.Domain.Material.{Names}
use ogaforeman.Domain.ImportDraft.{DraftTaskStatus, TaskDraft, ProjectImportDraft}
use ogaforeman.Services.ImportDiff.Index.{
  TaskNames, normalize_task_name_for_match, add_id, add_keys, index_entities, freeze_index,
  index_of, place_text, sorted_texts, match_in, is_new, is_ambiguous, unique_id,
}
use ogaforeman.Services.ImportDiff.Entities.{DiffOperation, EntityDiff, entity_diff, identity_diff}
use ogaforeman.Services.ImportDiff.{
  each, matches_of, Canon, task_keys, phase_keys, material_keys, named_row, compare_with, compare,
  ensure_additive,
}
use ogaforeman.Services.ImportDiff.Additive.{IsAdditive}
use ogaforeman.Services.ImportDiff.Exact.{compare-exact}

-- Plain lower-case texts are their own normal forms.
abbrev task_names : TaskNames
task_names = record { clean_task = λ s. s }

abbrev names : Names
names = record {
  casefold = λ s. s;
  clean_name = λ s. s;
  clean_unit = λ s. s;
  repr = λ s. "'" ++ (s ++ "'");
}

abbrev pouring : Task
pouring = record {
  id = "tsk_1";
  project_id = "prj_1";
  title = "pour slab";
  description = none;
  status = TaskStatus.planned;
  priority = TaskPriority.medium;
  assigned_to = none;
  phase_id = none;
  trade = none;
  location = none;
  planned_start = none;
  planned_end = none;
  actual_start = none;
  actual_completion = none;
  dependency_ids = [];
  is_milestone = false;
  source_refs = [];
  notes = [];
  completion_percent = 0;
  source = TaskSource.manual;
  version = 0;
  created_at = 0;
  updated_at = 0;
}

abbrev canon : Canon
canon = record {
  project_id = "prj_1";
  tasks = pouring ∷ [];
  materials = [];
  requirements = [];
  phases = [];
}

abbrev task_draft : String → String → TaskDraft
task_draft temp_id name = record {
  temp_id = temp_id;
  name = name;
  description = none;
  phase_temp_id = none;
  planned_start = none;
  planned_finish = none;
  actual_completion = none;
  duration = none;
  initial_status = DraftTaskStatus.proposed;
  location = none;
  trade = none;
  assignee_reference = none;
  source_reference = none;
}

-- Two tasks, the second of which stands in the project under the same name.
abbrev draft : ProjectImportDraft
draft = record {
  id = "imp_1";
  project_id = "prj_1";
  phases = [];
  tasks = task_draft "t1" "lay bricks" ∷ task_draft "t2" "pour slab" ∷ [];
  dependencies = [];
  materials = [];
  material_requirements = [];
  milestones = [];
}

abbrev diffs : List EntityDiff
diffs =
    entity_diff "task" "t1" none DiffOperation.added "Task 'lay bricks' will be added."
    ∷ entity_diff "task" "t2" (some "tsk_1") DiffOperation.changed
        "Task 'pour slab' matches existing canonical task tsk_1; V1 imports cannot replace or duplicate it."
    ∷ []

compare-returns : compare task_names names draft canon ≡ ok diffs
unfolding compare compare_with each named_row matches_of index_of index_entities add_keys add_id
    freeze_index sorted_texts place_text task_keys phase_keys material_keys
    normalize_task_name_for_match identity_diff match_in is_new is_ambiguous unique_id Dict.get
    Dict.put
compare-returns = refl

compare-exact_example : (ensure_additive diffs ≡ ok tt) ↔ IsAdditive task_names names draft canon
compare-exact_example = compare-exact task_names names draft canon diffs compare-returns
