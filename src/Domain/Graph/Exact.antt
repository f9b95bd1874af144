-- ===== src/Domain/Graph/Exact.antt =====
-- `validate_task_dependency_graph` (app/domain/policies.py) decides well-formed dependency graphs.
use ogaforeman.Base.{
  suc, ◌≡◌, ◌≢◌, ◌↔◌, refl, sym, ap, ◌∙◌, ◌⊎◌, inl, inr, String, Bool, true, false, Option, none,
  some, List, [], ◌∷◌, arith, eq_iff, str_eq, ◌==◌, ==_iff, mem, In-mem, mem-In, All, In, head,
  Bool-cases, Option-cases, Result, ok, err, Error, value_error, length, distinct, all, all-In,
  In-all,
}
use ogaforeman.Base.Dict
use ogaforeman.Base.Dict.{Dict}
use ogaforeman.Domain.Task.{Task}
use ogaforeman.Domain.Graph.{
  Marks, and_then, visit_each, visit, keys, knows_all, index_from, unmarked,
  validate_task_dependency_graph,
}
use ogaforeman.Domain.Graph.Chains.{Chain, ids, IsDependencyGraph}
use ogaforeman.Domain.Graph.Index.{
  mem-keys, keys-mem, get-index_from, index_from-cases, IsFull, IsFull-distinct, distinct-IsFull,
  ids-In, In-ids,
}
use ogaforeman.Domain.Graph.Visits.{and_then-ok}
use ogaforeman.Domain.Graph.Order.{visit_each-Orders, visit-Orders, ordered-acyclic}
use ogaforeman.Domain.Graph.Cycles.{search-finds}
use ogaforeman.Domain.Graph.Fuel.{search-ends}

All-keys :
    (d : Dict Task) (xs : List String)
    → ((x : String) → mem x xs ≡ true → mem x (keys d) ≡ true)
    → All (λ x. (t : Task) × (Dict.get d x ≡ some t)) xs
All-keys d [] h = tt
All-keys d (x ∷ xs) h =
    (mem-keys d x (h x (ground (arith, eq_iff x x))), All-keys d xs (λ y m. h y (ground arith)))

module _ (tasks : List Task) (full : IsFull [] tasks)
    (knows : knows_all (index_from [] tasks) tasks ≡ true) where
  abbrev d : Dict Task
  d = index_from [] tasks

  listed : (t : Task) → In t tasks → Dict.get d t.id ≡ some t
  listed t i = get-index_from [] tasks t full i

  sound : (x : String) (t : Task) → Dict.get d x ≡ some t → In t tasks × (t.id ≡ x)
  unfolding Dict.get
  sound x t found = elim (index_from-cases [] tasks x t found) [ inl e ↦ absurd (cc) | inr i ↦ i ]

  closed :
      (x b : String) (t : Task)
      → Dict.get d x ≡ some t
      → In b t.dependency_ids
      → (u : Task) × (Dict.get d b ≡ some u)
  closed x b t found i = mem-keys d b (
      all-In (λ y. mem y (keys d)) t.dependency_ids
        (all-In (λ (u : Task). all (λ y. mem y (keys d)) u.dependency_ids) tasks knows
          (sound x t found).0)
        i)

  abbrev search : Option (Result Marks)
  search = visit_each (visit d (suc (length (keys d)))) (keys d) unmarked

  known_keys : All (λ x. (t : Task) × (Dict.get d x ≡ some t)) (keys d)
  known_keys = All-keys d (keys d) (λ x m. m)

  search-total : search ≢ none
  search-total = search-ends d closed (keys d) unmarked known_keys refl

  search-cycle :
      (e : Error) → search ≡ some (err e) → ((a : String) × Chain tasks a a) × (e ≡ value_error)
  search-cycle e h =
      search-finds d tasks sound closed (suc (length (keys d))) (keys d) unmarked e h known_keys
        refl

  Chain-start : {a b : String} → Chain tasks a b → mem a (keys d) ≡ true
  Chain-start (Chain.one e) = rw (← e.named) (keys-mem d e.task.id e.task (listed e.task e.listed))
  Chain-start (Chain.more c e) = Chain-start c

  search-acyclic : (m : Marks) → search ≡ some (ok m) → (a : String) → ¬ Chain tasks a a
  search-acyclic m h a c =
      let (ordered, seen, _) =
        visit_each-Orders d (visit d (suc (length (keys d))))
          (visit-Orders d (suc (length (keys d)))) (keys d) unmarked m h tt in
      ordered-acyclic d tasks listed m.visited ordered a
        (all-In (λ b. mem b m.visited) (keys d) (all_mem (keys d) seen)
          (mem-In a (keys d) (Chain-start c)))
        c
    where
      all_mem :
          (xs : List String)
          → All (λ b. mem b m.visited ≡ true) xs
          → all (λ b. mem b m.visited) xs ≡ true
      all_mem [] h = refl
      all_mem (x ∷ xs) h = ground (arith, all_mem xs h.1)

  known_id : (x : String) → mem x (keys d) ≡ true → In x (ids tasks)
  known_id x h =
      let (u, found) = mem-keys d x h in
      let (i, named) = sound x u found in mem-In x (ids tasks) (rw (← named) (In-ids u tasks i))

-- The three checks before the search.
abbrev one_project : Task → List Task → Bool
one_project first rest = all (λ (t : Task). str_eq t.project_id first.project_id) (first ∷ rest)

abbrev all_distinct : List Task → Bool
all_distinct tasks = length (index_from [] tasks) == length tasks

abbrev all_known : List Task → Bool
all_known tasks = knows_all (index_from [] tasks) tasks

distinct-full : (tasks : List Task) → distinct (ids tasks) ≡ true → IsFull [] tasks
distinct-full tasks h = distinct-IsFull [] tasks h (λ k m. refl)

module _ (first : Task) (rest : List Task) where
  abbrev tasks : List Task
  tasks = first ∷ rest

  full_of_test : all_distinct tasks ≡ true → IsFull [] tasks
  full_of_test h = ground (arith, ==_iff (length (index_from [] tasks)) (length tasks))

  graph_of_checks :
      (same : one_project first rest ≡ true) (full : IsFull [] tasks)
      (knows : all_known tasks ≡ true)
      → ((a : String) → ¬ Chain tasks a a)
      → IsDependencyGraph tasks
  graph_of_checks same full knows acyclic = record {
    one_project = λ t u i j. same_project t i ∙ sym (same_project u j);
    distinct_ids = IsFull-distinct [] tasks full;
    known = λ t i x j. known_id tasks full knows x (
        all-In (λ y. mem y (keys (index_from [] tasks))) t.dependency_ids
          (all-In (λ (u : Task). all (λ y. mem y (keys (index_from [] tasks))) u.dependency_ids)
            tasks knows i)
          j);
    acyclic = acyclic;
  }
    where
      same_project : (t : Task) → In t tasks → t.project_id ≡ first.project_id
      same_project t i =
          (eq_iff t.project_id first.project_id).0
            (all-In (λ (u : Task). str_eq u.project_id first.project_id) tasks same i)

  project_of_graph : IsDependencyGraph tasks → one_project first rest ≡ true
  project_of_graph g =
      In-all (λ (t : Task). str_eq t.project_id first.project_id) tasks
        (λ t i. (eq_iff t.project_id first.project_id).1 (g.one_project t first i (head refl)))

  known_of_graph : IsDependencyGraph tasks → all_known tasks ≡ true
  known_of_graph g =
      In-all (λ (t : Task). all (λ y. mem y (keys (index_from [] tasks))) t.dependency_ids) tasks
        (λ t i.
          In-all (λ y. mem y (keys (index_from [] tasks))) t.dependency_ids
            (λ x j.
              let (u, listed_u, named) = ids-In x tasks (In-mem x (ids tasks) (g.known t i x j)) in
              rw (← named) (
                keys-mem (index_from [] tasks) u.id u
                  (get-index_from [] tasks u (distinct-full tasks g.distinct_ids) listed_u))))

  -- What the validation answers when the three checks pass.
  checked :
      (same : one_project first rest ≡ true) (unique : all_distinct tasks ≡ true)
      (knows : all_known tasks ≡ true)
      → validate_task_dependency_graph tasks
        ≡ and_then (search tasks (full_of_test unique) knows) (λ _. some (ok tt))
  unfolding validate_task_dependency_graph
  checked same unique knows = rw (same, unique, knows)

  -- A check that fails raises `ValueError`.
  unchecked :
      (one_project first rest ≡ false) ⊎ ((all_distinct tasks ≡ false) ⊎ (all_known tasks ≡ false))
      → validate_task_dependency_graph tasks ≡ some (err value_error)
  unfolding validate_task_dependency_graph
  unchecked h = ground arith

  -- Either a check fails, or the search decides.
  checks_cases :
      ((one_project first rest ≡ false)
        ⊎ ((all_distinct tasks ≡ false) ⊎ (all_known tasks ≡ false)))
      ⊎ ((one_project first rest ≡ true) × (all_distinct tasks ≡ true) × (all_known tasks ≡ true))
  checks_cases = elim (Bool-cases (one_project first rest)) [
    | inr e ↦ inl (inl e)
    | inl a ↦ elim (Bool-cases (all_distinct tasks)) [
      | inr e ↦ inl (inr (inl e))
      | inl b ↦ elim (Bool-cases (all_known tasks)) [
        | inr e ↦ inl (inr (inr e))
        | inl c ↦ inr (a, b, c)
      ]
    ]
  ]

  sound_answer : validate_task_dependency_graph tasks ≡ some (ok tt) → IsDependencyGraph tasks
  sound_answer h = elim checks_cases [
    | inl bad ↦ absurd (cc (unchecked bad))
    | inr (a, b, c) ↦
        let (m, found, _) =
          and_then-ok (search tasks (full_of_test b) c) (λ _. some (ok tt))
            (sym (checked a b c) ∙ h) in
        graph_of_checks a (full_of_test b) c (search-acyclic tasks (full_of_test b) c m found)
  ]

  decided :
      (a : one_project first rest ≡ true) (b : all_distinct tasks ≡ true)
      (c : all_known tasks ≡ true)
      → (validate_task_dependency_graph tasks ≡ some (ok tt))
        ⊎ ((validate_task_dependency_graph tasks ≡ some (err value_error))
            × ((x : String) × Chain tasks x x))
  decided a b c = elim (Option-cases (search tasks (full_of_test b) c)) [
    | inl e ↦ absurd (search-total tasks (full_of_test b) c e)
    | inr (ok m, e) ↦ inl (checked a b c ∙ ap (λ r. and_then r (λ _. some (ok tt))) e)
    | inr (err x, e) ↦
        let (cycle, named) = search-cycle tasks (full_of_test b) c x e in
        inr (
          checked a b c ∙ ap (λ r. and_then r (λ _. some (ok tt))) e ∙ ap (λ y. some (err y)) named,
          cycle,
        )
  ]

  complete_answer : IsDependencyGraph tasks → validate_task_dependency_graph tasks ≡ some (ok tt)
  complete_answer g =
      let unique : all_distinct tasks ≡ true =
        (==_iff (length (index_from [] tasks)) (length tasks)).1
          (distinct-full tasks g.distinct_ids ∙ omega arith) in
      elim (decided (project_of_graph g) unique (known_of_graph g)) [
        | inl fine ↦ fine
        | inr (_, (x, c)) ↦ absurd (g.acyclic x c)
      ]

  one_answer :
      (validate_task_dependency_graph tasks ≡ some (ok tt))
      ⊎ (validate_task_dependency_graph tasks ≡ some (err value_error))
  one_answer = elim checks_cases [
    | inl bad ↦ inr (unchecked bad)
    | inr (a, b, c) ↦ elim (decided a b c) [ inl fine ↦ inl fine | inr (e, _) ↦ inr e ]
  ]

-- The empty list is a well-formed graph.
empty-graph : IsDependencyGraph []
empty-graph = record {
  one_project = λ t u i j. elim i [ ];
  distinct_ids = refl;
  known = λ t i x j. elim i [ ];
  acyclic = λ a c. no_edge c;
}
  where
    no_edge : {a b : String} → Chain [] a b → ⊥
    no_edge (Chain.one e) = elim e.listed [ ]
    no_edge (Chain.more c e) = no_edge c

-- The validation accepts a task list exactly when the tasks belong to one project, their ids are
-- distinct, every dependency is a listed task, and no dependency chain returns to its start.
pub validate_exact :
    (tasks : List Task)
    → (validate_task_dependency_graph tasks ≡ some (ok tt)) ↔ IsDependencyGraph tasks
unfolding validate_task_dependency_graph
validate_exact [] = (λ _. empty-graph, λ _. refl)
validate_exact (t ∷ ts) = (sound_answer t ts, complete_answer t ts)

-- Whatever the tasks, the validation ends, and it either accepts or raises `ValueError`: the fuel
-- never runs out, and no key is looked up in vain.
pub validate_answers :
    (tasks : List Task)
    → (validate_task_dependency_graph tasks ≡ some (ok tt))
      ⊎ (validate_task_dependency_graph tasks ≡ some (err value_error))
unfolding validate_task_dependency_graph
validate_answers [] = inl refl
validate_answers (t ∷ ts) = one_answer t ts
