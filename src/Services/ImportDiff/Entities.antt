-- ===== src/Services/ImportDiff/Entities.antt =====
-- The differences of app/services/project_import_diff.py: of a name that is looked up, a dependency
-- and a requirement.
use Prim.Native.String.{◌++◌}
use ogaforeman.Base.{
  ℕ, String, Bool, true, false, ◌&&◌, ◌||◌, not, Option, none, some, List, [], ◌∷◌, map, select,
  mem, ◌==◌, str_eq, if◌then◌else◌, Result, ok, err, key_error,
}
use ogaforeman.Domain.Task.{Task}
use ogaforeman.Domain.ImportDraft.{
  DependencyDraft, MaterialRequirementDraft, MaterialRequirement, ImportConflict,
}
use ogaforeman.Services.ImportDiff.Index.{is_new, is_ambiguous, unique_id}

pub data DiffOperation : Type 0 where
  added changed removed conflicted : DiffOperation

pub record EntityDiff : Type 0 where
  pub entity_type : String
  pub temp_id : Option String
  pub entity_id : Option String
  pub operation : DiffOperation
  pub details : String

-- `item.operation is DiffOperation.ADDED`
abbrev pub is_added : EntityDiff → Bool
is_added d = elim d.operation [ DiffOperation.added ↦ true | _ ↦ false ]

abbrev pub entity_diff : String → String → Option String → DiffOperation → String → EntityDiff
entity_diff entity_type temp_id entity_id operation details = record {
  entity_type = entity_type;
  temp_id = some temp_id;
  entity_id = entity_id;
  operation = operation;
  details = details;
}

-- `entity_type.capitalize()`, of the types that are compared by name
abbrev pub label_of : String → String
label_of entity_type =
    if str_eq entity_type "task"
    then "Task"
    else if str_eq entity_type "material"
    then "Material"
    else "Phase"

-- `_identity_diff`
unfoldable pub identity_diff : String → String → String → List String → EntityDiff
unfolding is_new is_ambiguous unique_id
identity_diff entity_type temp_id name found =
    let label = label_of entity_type ++ (" '" ++ (name ++ "'")) in
    if is_new found
    then entity_diff entity_type temp_id none DiffOperation.added (label ++ " will be added.")
    else if is_ambiguous found
    then entity_diff entity_type temp_id none DiffOperation.conflicted (
        label
        ++ (" matches multiple canonical "
            ++ (entity_type ++ "s; V1 cannot reconcile the ambiguous identity.")))
    else entity_diff entity_type temp_id (unique_id found) DiffOperation.changed (
        label
        ++ (" matches existing canonical "
            ++ (entity_type
                ++ (" "
                    ++ ((elim (unique_id found) [ none ↦ "" | some id ↦ id ])
                        ++ "; V1 imports cannot replace or duplicate it.")))))

-- the task with an id, in `tasks_by_id`
unfoldable pub task_with : String → List Task → Option Task
task_with id [] = none
task_with id (task ∷ rest) =
    let later = task_with id rest in
    elim later [ some other ↦ some other | none ↦ if str_eq task.id id then some task else none ]

-- `_dependency_diff`
unfoldable pub dependency_diff :
    DependencyDraft → List String → List String → List Task → Result EntityDiff
unfolding is_new is_ambiguous unique_id task_with
dependency_diff d predecessor successor tasks =
    let diff = entity_diff "dependency" d.successor_temp_id in
    if is_new predecessor && is_new successor
    then ok (diff none DiffOperation.added "Task dependency will be added.")
    else if is_ambiguous predecessor || is_ambiguous successor
    then ok
        (diff none DiffOperation.conflicted "Task dependency has an ambiguous canonical endpoint.")
    else elim (unique_id predecessor) [
      | none ↦ ok (
          diff none DiffOperation.conflicted
            "Task dependency mixes new and existing canonical endpoints.")
      | some predecessor_id ↦ elim (unique_id successor) [
        | none ↦ ok (
            diff none DiffOperation.conflicted
              "Task dependency mixes new and existing canonical endpoints.")
        | some successor_id ↦ elim (task_with successor_id tasks) [
          | none ↦ err key_error
          | some task ↦ ok (
              if mem predecessor_id task.dependency_ids
              then diff (some (predecessor_id ++ ("->" ++ successor_id))) DiffOperation.changed
                  "Task dependency already exists and cannot be duplicated."
              else diff none DiffOperation.conflicted
                  "Task dependency would modify existing canonical tasks.")
        ]
      ]
    ]

-- `requirements_by_pair.get((task_id, material_id), [])`
abbrev pub requirements_of : String → String → List MaterialRequirement → List MaterialRequirement
requirements_of task_id material_id requirements =
    select (λ r. str_eq r.task_id task_id && str_eq r.material_id material_id) requirements

-- `a == b`, of optional dates
abbrev same_date : Option ℕ → Option ℕ → Bool
same_date none none = true
same_date (some a) (some b) = a == b
same_date _ _ = false

-- the end of `_requirement_diff`, for the requirements of the matched task and material
unfoldable pub existing_diff : MaterialRequirementDraft → List MaterialRequirement → EntityDiff
existing_diff r [] =
    entity_diff "requirement" r.task_temp_id none DiffOperation.conflicted
      "Material requirement would modify existing canonical entities."
existing_diff r (current ∷ []) =
    entity_diff "requirement" r.task_temp_id (some current.id) DiffOperation.changed (
      if not (current.required_quantity == r.required_quantity)
        || (not (str_eq current.unit r.unit) || not (same_date current.required_by r.required_by))
      then "Imported material requirement differs from the existing requirement."
      else "Material requirement already exists and cannot be duplicated.")
existing_diff r (current ∷ other ∷ rest) =
    entity_diff "requirement" r.task_temp_id none DiffOperation.conflicted
      "Multiple canonical requirements exist for the matched task and material."

-- `_requirement_diff`
unfoldable pub requirement_diff :
    MaterialRequirementDraft → List String → List String → List MaterialRequirement → EntityDiff
unfolding is_new is_ambiguous unique_id existing_diff
requirement_diff r task_match material_match requirements =
    let diff = entity_diff "requirement" r.task_temp_id none in
    if is_new task_match && is_new material_match
    then diff DiffOperation.added "Material requirement will be added."
    else if is_ambiguous task_match || is_ambiguous material_match
    then diff DiffOperation.conflicted
        "Material requirement has an ambiguous canonical task or material."
    else elim (unique_id task_match) [
      | none ↦
          diff DiffOperation.conflicted
            "Material requirement mixes new and existing canonical entities."
      | some task_id ↦ elim (unique_id material_match) [
        | none ↦
            diff DiffOperation.conflicted
              "Material requirement mixes new and existing canonical entities."
        | some material_id ↦ existing_diff r (requirements_of task_id material_id requirements)
      ]
    ]

-- `entity_type.upper()` and `operation.value.upper()`
abbrev upper_type : String → String
upper_type entity_type =
    if str_eq entity_type "task"
    then "TASK"
    else if str_eq entity_type "dependency"
    then "DEPENDENCY"
    else if str_eq entity_type "material"
    then "MATERIAL"
    else if str_eq entity_type "requirement"
    then "REQUIREMENT"
    else "PHASE"

abbrev upper_operation : DiffOperation → String
upper_operation DiffOperation.added = "ADDED"
upper_operation DiffOperation.changed = "CHANGED"
upper_operation DiffOperation.removed = "REMOVED"
upper_operation DiffOperation.conflicted = "CONFLICTED"

unfoldable pub conflict_of : EntityDiff → ImportConflict
conflict_of d = record {
  code = "CANONICAL_" ++ (upper_type d.entity_type ++ ("_" ++ upper_operation d.operation));
  message = d.details;
  entity_temp_id = d.temp_id;
  existing_reference = d.entity_id;
  source_reference = none;
}

unfoldable pub blocking_conflicts : List EntityDiff → List ImportConflict
unfolding conflict_of
blocking_conflicts diffs = map conflict_of (select (λ d. not (is_added d)) diffs)
