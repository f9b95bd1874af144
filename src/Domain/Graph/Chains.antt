-- ===== src/Domain/Graph/Chains.antt =====
-- The specification: dependency chains of a task list, and well-formed dependency graphs.
use ogaforeman.Base.{◌≡◌, String, true, List, map, In, distinct}
use ogaforeman.Domain.Task.{Task}

-- The task `a` depends on `b`.
pub record Edge (tasks : List Task) (a b : String) : Type 0 where
  pub task : Task
  pub listed : In task tasks
  pub named : task.id ≡ a
  pub depends : In b task.dependency_ids

-- One dependency or several in a row lead from `a` to the index.
pub data Chain (tasks : List Task) (a : String) : String → Type 0 where
  one : {b : String} → Edge tasks a b → Chain tasks a b
  more : {b c : String} → Chain tasks a b → Edge tasks b c → Chain tasks a c

abbrev pub ids : List Task → List String
ids = map (λ t. t.id)

pub record IsDependencyGraph (tasks : List Task) : Type 0 where
  pub one_project : (t u : Task) → In t tasks → In u tasks → t.project_id ≡ u.project_id
  pub distinct_ids : distinct (ids tasks) ≡ true
  pub known : (t : Task) → In t tasks → (d : String) → In d t.dependency_ids → In d (ids tasks)
  pub acyclic : (a : String) → ¬ Chain tasks a a
