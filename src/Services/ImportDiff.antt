-- ===== src/Services/ImportDiff.antt =====
-- app/services/project_import_diff.py: the comparison of an import with the canonical project,
-- under the policy that an import only adds.
pub mod Index
pub mod Entities
pub mod Fresh
pub mod Additive
pub mod Exact
use Prim.Native.String.{◌++◌}
use ogaforeman.Base.{
  ℕ, String, Bool, true, false, ◌&&◌, ◌||◌, not, Option, none, some, List, [], ◌∷◌, ◌++◌ as append,
  map, select, mem, ◌==◌, str_eq, if◌then◌else◌, Result, ok, err, ◌>>=◌, ◌>>◌, raise_if,
  value_error, key_error, stop_iteration,
}
use ogaforeman.Base.Dict
use ogaforeman.Base.Dict.{Dict}
use ogaforeman.Domain.Task.{Task}
use ogaforeman.Domain.Material.{Names, Material, normalize_material_name}
use ogaforeman.Domain.ImportDraft.{
  PhaseDraft, TaskDraft, DependencyDraft, MaterialDraft, MaterialRequirementDraft, MilestoneDraft,
  ProjectImportDraft, ProjectPhase, MaterialRequirement,
}
use ogaforeman.Services.ImportDiff.Entities.{
  DiffOperation, EntityDiff, is_added, entity_diff, identity_diff, dependency_diff,
  requirement_diff,
}
use ogaforeman.Services.ImportDiff.Index.{
  TaskNames, normalize_task_name_for_match, index_of, match_in, is_new, is_ambiguous, unique_id,
  sorted_texts,
}

-- `[f(x) for x in xs]`, of a function that may raise
unfoldable pub each {ℓ κ} : {A : Type ℓ} {B : Type κ} → (A → Result B) → List A → Result (List B)
each f [] = ok []
each f (a ∷ rest) = do b ← f a; bs ← each f rest; ok (b ∷ bs)

-- `matches[temp_id]`
unfoldable pub match_at : Dict (List String) → String → Result (List String)
match_at found temp_id = elim (Dict.get found temp_id) [ none ↦ err key_error | some ids ↦ ok ids ]

-- A draft that was looked up by its name: its key, what it matches, and its difference.
pub record Row : Type 0 where
  pub temp_id : String
  pub found : List String
  pub diff : EntityDiff

-- The assignments to `task_matches` or `material_matches`.
unfoldable pub matches_of : List Row → Dict (List String) → Dict (List String)
matches_of [] found = found
matches_of (row ∷ rows) found = matches_of rows (Dict.put found row.temp_id row.found)

abbrev pub diffs_of : List Row → List EntityDiff
diffs_of rows = map (λ row. row.diff) rows

-- the material with an id, in the list of the context
unfoldable pub material_with : String → List Material → Option Material
material_with id [] = none
material_with id (m ∷ rest) = if str_eq m.id id then some m else material_with id rest

-- What is compared with the draft: the context and the other canonical records.
pub record Canon : Type 0 where
  pub project_id : String
  pub tasks : List Task
  pub materials : List Material
  pub requirements : List MaterialRequirement
  pub phases : List ProjectPhase

module _ (t : TaskNames) (x : Names) where
  -- `_task_index`, `_phase_index` and `_material_index`
  unfoldable pub task_keys : Task → Result (List String)
  unfolding normalize_task_name_for_match
  task_keys task = do key ← normalize_task_name_for_match t task.title; ok (key ∷ [])

  unfoldable pub phase_keys : ProjectPhase → Result (List String)
  unfolding normalize_task_name_for_match
  phase_keys phase = do key ← normalize_task_name_for_match t phase.name; ok (key ∷ [])

  unfoldable pub material_keys : Material → Result (List String)
  unfolding each normalize_material_name
  material_keys m = each (normalize_material_name x) (m.name ∷ m.normalized_name ∷ m.aliases)

  -- A draft of a phase, a task or a milestone, looked up by its name.
  unfoldable pub named_row : String → Dict (List String) → String → String → Result Row
  unfolding normalize_task_name_for_match identity_diff match_in
  named_row entity_type index temp_id name = do
    key ← normalize_task_name_for_match t name
    ok (record {
      temp_id = temp_id;
      found = match_in index key;
      diff = identity_diff entity_type temp_id name (match_in index key);
    })

  -- The difference of a material: a unit that does not agree is a conflict.
  unfoldable pub material_diff : MaterialDraft → List String → List Material → Result EntityDiff
  unfolding identity_diff unique_id material_with
  material_diff m found materials = elim (unique_id found) [
    | none ↦ ok (identity_diff "material" m.temp_id m.name found)
    | some id ↦ elim (material_with id materials) [
      | none ↦ err stop_iteration
      | some existing ↦ ok (
          if not (str_eq existing.unit m.canonical_unit)
          then entity_diff "material" m.temp_id (some existing.id) DiffOperation.conflicted (
              "Material '"
              ++ (m.name
                  ++ ("' matches canonical material "
                      ++ (existing.id
                          ++ (" with incompatible unit " ++ (x.repr existing.unit ++ "."))))))
          else identity_diff "material" m.temp_id m.name found)
    ]
  ]

  unfoldable pub material_row : Dict (List String) → List Material → MaterialDraft → Result Row
  unfolding normalize_material_name match_in material_diff
  material_row index materials m = do
    key ← normalize_material_name x m.name
    diff ← material_diff m (match_in index key) materials
    ok (record { temp_id = m.temp_id; found = match_in index key; diff = diff })

  unfoldable pub dependency_row :
      Dict (List String) → List Task → DependencyDraft → Result EntityDiff
  unfolding match_at dependency_diff
  dependency_row task_matches tasks d = do
    predecessor ← match_at task_matches d.predecessor_temp_id
    successor ← match_at task_matches d.successor_temp_id
    dependency_diff d predecessor successor tasks

  unfoldable pub requirement_row :
      Dict (List String)
      → Dict (List String)
      → List MaterialRequirement
      → MaterialRequirementDraft
      → Result EntityDiff
  unfolding match_at requirement_diff
  requirement_row task_matches material_matches requirements r = do
    task_match ← match_at task_matches r.task_temp_id
    material_match ← match_at material_matches r.material_temp_id
    ok (requirement_diff r task_match material_match requirements)

  -- The comparison after the indexes were made.
  unfoldable pub compare_with :
      ProjectImportDraft
      → Canon
      → Dict (List String)
      → Dict (List String)
      → Dict (List String)
      → Result (List EntityDiff)
  unfolding each named_row material_row dependency_row requirement_row matches_of
  compare_with draft canon task_index material_index phase_index = do
    phases ← each (λ (p : PhaseDraft). named_row "phase" phase_index p.temp_id p.name) draft.phases
    tasks ← each (λ (k : TaskDraft). named_row "task" task_index k.temp_id k.name) draft.tasks
    milestones ←
        each (λ (m : MilestoneDraft). named_row "task" task_index m.temp_id m.name) draft.milestones
    let task_matches = matches_of (append tasks milestones) []
    dependencies ← each (dependency_row task_matches canon.tasks) draft.dependencies
    materials ← each (material_row material_index canon.materials) draft.materials
    requirements ←
        each (requirement_row task_matches (matches_of materials []) canon.requirements)
          draft.material_requirements
    ok (
        append (diffs_of phases) (
          append (diffs_of tasks) (
            append (diffs_of milestones)
              (append dependencies (append (diffs_of materials) requirements)))))

  unfoldable pub compare : ProjectImportDraft → Canon → Result (List EntityDiff)
  unfolding compare_with index_of task_keys material_keys phase_keys
  compare draft canon = do
    raise_if (not (str_eq canon.project_id draft.project_id)) value_error
    task_index ← index_of task_keys (λ (k : Task). k.id) canon.tasks
    material_index ← index_of material_keys (λ (m : Material). m.id) canon.materials
    phase_index ← index_of phase_keys (λ (p : ProjectPhase). p.id) canon.phases
    compare_with draft canon task_index material_index phase_index

-- `ensure_additive`: the differences that block, if there are any, are raised
unfoldable pub ensure_additive : List EntityDiff → Result (Unit {0})
ensure_additive diffs = elim (select (λ d. not (is_added d)) diffs) [
  | [] ↦ ok tt
  | d ∷ blocking ↦ err value_error
]
