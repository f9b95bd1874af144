-- ===== src/Domain/Graph.antt =====
-- `validate_task_dependency_graph` of app/domain/policies.py: a depth-first search
-- over the task dependencies with the sets `visiting` and `visited`.
-- The recursion of `visit` takes fuel; `none` means that it ran out. The caller gives one more than
-- the number of tasks. Python's own limit on the depth of recursion is not modelled.
pub mod Chains
pub mod Index
pub mod Visits
mod Order
mod Cycles
mod Fuel
pub mod Exact
use ogaforeman.Base.{
  ℕ, zero, suc, String, Bool, not, ◌&&◌, Option, none, some, List, [], ◌∷◌, map, ◌==◌, str_eq, all,
  select, mem, length, if◌then◌else◌, Result, ok, err, value_error, key_error,
}
use ogaforeman.Base.Dict
use ogaforeman.Base.Dict.{Dict}
use ogaforeman.Domain.Task.{Task}

pub record Marks : Type 0 where
  pub visiting : List String
  pub visited : List String

-- The next step of a computation that may raise or run out of fuel.
abbrev pub and_then {ℓ κ} :
    {A : Type ℓ} {B : Type κ} → Option (Result A) → (A → Option (Result B)) → Option (Result B)
and_then none next = none
and_then (some (err e)) next = some (err e)
and_then (some (ok a)) next = next a

-- `visiting.remove(task_id)`
unfoldable pub discard : String → List String → List String
discard x = select (λ y. not (str_eq x y))

-- The last two lines of `visit`.
abbrev leave : String → Marks → Option (Result Marks)
leave x m = some (ok (record { visiting = discard x m.visiting; visited = x ∷ m.visited }))

-- `for dependency_id in ...: visit(dependency_id)`
unfoldable pub visit_each :
    (String → Marks → Option (Result Marks)) → List String → Marks → Option (Result Marks)
visit_each visit_one [] m = some (ok m)
visit_each visit_one (x ∷ xs) m = and_then (visit_one x m) (visit_each visit_one xs)

unfoldable pub visit : Dict Task → ℕ → String → Marks → Option (Result Marks)
visit tasks_by_id zero x m = none
visit tasks_by_id (suc fuel) x m =
    let enter : Option (Result Marks) = elim (Dict.get tasks_by_id x) [
      | none ↦ some (err key_error)
      | some t ↦
          and_then
            (visit_each (visit tasks_by_id fuel) t.dependency_ids
              (record m { visiting = x ∷ m.visiting }))
            (leave x)
    ] in
    if mem x m.visiting
    then some (err value_error)
    else if mem x m.visited
    then some (ok m)
    else enter

-- `{task.id: task for task in task_list}`, from a dict that holds the tasks before.
unfoldable pub index_from : Dict Task → List Task → Dict Task
index_from d [] = d
index_from d (t ∷ ts) = index_from (Dict.put d t.id t) ts

abbrev pub keys : Dict Task → List String
keys d = map (λ entry. entry.0) d

-- every dependency of every task is a key
abbrev knows_all : Dict Task → List Task → Bool
knows_all d = all (λ t. all (λ x. mem x (keys d)) t.dependency_ids)

abbrev unmarked : Marks
unmarked = record { visiting = []; visited = [] }

unfoldable pub validate_task_dependency_graph : List Task → Option (Result (Unit {0}))
validate_task_dependency_graph [] = some (ok tt)
validate_task_dependency_graph (first ∷ rest) =
    let task_list : List Task = first ∷ rest in
    let tasks_by_id = index_from [] task_list in
    let search =
      and_then
        (visit_each (visit tasks_by_id (suc (length (keys tasks_by_id)))) (keys tasks_by_id)
          unmarked)
        (λ _. some (ok tt)) in
    if not (all (λ t. str_eq t.project_id first.project_id) task_list)
    then some (err value_error)
    else if not (length tasks_by_id == length task_list)
    then some (err value_error)
    else if not (knows_all tasks_by_id task_list)
    then some (err value_error)
    else search
