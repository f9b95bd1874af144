-- ===== src/Services/Tasks/Completion.antt =====
-- What an update that `_apply_update` of app/services/tasks.py accepts makes of a task.
use ogaforeman.Base.{
  ℕ, ◌≤◌, ◌≡◌, ◌≢◌, refl, sym, ap, ◌∙◌, inl, inr, String, true, false, ◌&&◌, not, Option, none,
  some, List, [], arith, In, all, all-In, ltb, ◌==◌, ok, >>=-eq-ok, raise_if, Option-cases,
}
use ogaforeman.Base.Dict
use ogaforeman.Domain.Enums.{TaskStatus, same_task, same_task-eq}
use ogaforeman.Domain.Task.{
  Task, full_percent, validate_task, is_invalid_task, is_none, is_reversed,
}
use ogaforeman.Domain.Graph.{index_from}
use ogaforeman.Domain.Graph.Index.{index_from-cases}
use ogaforeman.Domain.Transitions.{ensure_task_transition, task_transitions}
use ogaforeman.Domain.Activity.{MutationContext}
use ogaforeman.Services.Tasks.Commands.{UpdateTaskCommand, validate_update, is_invalid_update}
use ogaforeman.Services.Tasks.Update.{
  is_known, is_complete, target_of, percent_of, check_target, check_correction, as_task_state,
  updated_task, decide_update,
}

-- What was checked before an update was accepted.
pub record IsAccepted (tasks : List Task) (current : Task) (c : UpdateTaskCommand)
    (context : MutationContext) (t : Task) : Type 0 where
  pub known : all (is_known (index_from [] tasks)) current.dependency_ids ≡ true
  pub target : check_target (index_from [] tasks) current (target_of current c) ≡ ok tt
  pub correction : check_correction c context (percent_of current c) ≡ ok tt
  pub transition :
      ensure_task_transition current.status
        (target_of current c)
        c.human_correction
        c.reconciled_completion
      ≡ ok tt
  pub result : t ≡ updated_task current c

module _ (tasks : List Task) (current : Task) (c : UpdateTaskCommand) (context : MutationContext)
    (t : Task) (accepted : decide_update tasks current c context ≡ ok t) where
  decide_update-ok : IsAccepted tasks current c context t
  unfolding decide_update
  decide_update-ok =
      let by_id = index_from [] tasks in
      let (_, known, h1) =
        >>=-eq-ok (raise_if (not (all (is_known by_id) current.dependency_ids)) _) _ accepted in
      let (_, target, h2) = >>=-eq-ok (check_target by_id current (target_of current c)) _ h1 in
      let (_, correction, h3) =
        >>=-eq-ok (check_correction c context (percent_of current c)) _ h2 in
      let (_, transition, h4) =
        >>=-eq-ok
          (as_task_state (
            ensure_task_transition current.status (target_of current c) c.human_correction
              c.reconciled_completion))
          _ h3 in
      record {
        known = ground arith;
        target = target;
        correction = correction;
        transition = ground arith;
        result = ground arith;
      }

  status_of : t.status ≡ target_of current c
  unfolding updated_task
  status_of = ap (λ (u : Task). u.status) decide_update-ok.result

  -- An update never cancels a task.
  pub never_cancels : t.status ≢ TaskStatus.cancelled
  unfolding check_target
  never_cancels h = ground (arith, decide_update-ok.target, status_of, h)

  -- An accepted update completes a task only if it was not blocked and every task that it depends
  -- on is a completed task of the list; the result is then at 100 percent and completed at the time
  -- of the command.
  pub completes :
      t.status ≡ TaskStatus.completed
      → (current.status ≢ TaskStatus.blocked)
        × ((d : String)
            → In d current.dependency_ids
            → (u : Task) × In u tasks × (u.id ≡ d) × (u.status ≡ TaskStatus.completed))
        × (t.completion_percent ≡ full_percent)
        × (t.actual_completion ≡ some c.occurred_at)
  unfolding check_target updated_task percent_of
  completes h =
      let a = decide_update-ok in
      let target : target_of current c ≡ TaskStatus.completed = sym status_of ∙ h in
      (
        λ blocked. ground (arith, a.target, target, blocked),
        λ d i. complete_dependency d (
            all-In (is_complete (index_from [] tasks)) current.dependency_ids
              (ground (arith, a.target, target)) i),
        ground (arith, a.result, target),
        ground (arith, a.result, target),
      )
    where
      complete_dependency :
          (d : String)
          → is_complete (index_from [] tasks) d ≡ true
          → (u : Task) × In u tasks × (u.id ≡ d) × (u.status ≡ TaskStatus.completed)
      complete_dependency d e = elim (Option-cases (Dict.get (index_from [] tasks) d)) [
        | inl absent ↦ absurd (ground (arith, e, absent))
        | inr (u, found) ↦ elim (index_from-cases [] tasks d u found) [
          | inl old ↦ absurd (cc (old, Dict.get-empty {V = Task} d))
          | inr (i, named) ↦
              (u, i, named, same_task-eq u.status TaskStatus.completed (ground (arith, e, found)))
        ]
      ]

-- A task that is not completed has no time of completion.
abbrev pub IsTidy : Task → Type 0
IsTidy t = same_task t.status TaskStatus.completed ≡ false → t.actual_completion ≡ none

-- The time of completion after an update is not before the start.
times_ordered :
    (current : Task) (c : UpdateTaskCommand)
    → is_reversed current.actual_start current.actual_completion ≡ false
    → IsTidy current
    → ((start : ℕ) → current.actual_start ≡ some start → start ≤ c.occurred_at)
    → is_reversed (updated_task current c).actual_start (updated_task current c).actual_completion
      ≡ false
unfolding updated_task
times_ordered current c ordered tidy started = go current.actual_start refl
  where
    go :
        (start : Option ℕ)
        → current.actual_start ≡ start
        → is_reversed
            (updated_task current c).actual_start
            (updated_task current c).actual_completion
          ≡ false
    go none e = ground (arith, e, tidy)
    go (some s) e = ground (arith, e, tidy, started s e)

percent_bounded :
    (current : Task) (c : UpdateTaskCommand)
    → ltb full_percent current.completion_percent ≡ false
    → validate_update c ≡ ok tt
    → ltb full_percent (percent_of current c) ≡ false
unfolding percent_of validate_update is_invalid_update
percent_bounded current c bounded fine = ground arith

stays-IsTidy :
    (current : Task) (c : UpdateTaskCommand)
    → IsTidy current
    → ensure_task_transition current.status
        (target_of current c)
        c.human_correction
        c.reconciled_completion
      ≡ ok tt
    → IsTidy (updated_task current c)
unfolding updated_task ensure_task_transition task_transitions
stays-IsTidy current c tidy moved = ground (arith, tidy)

-- A copy of a valid task with another status and percentage, and other times.
valid_copy :
    (current : Task) (status : TaskStatus) (percent : ℕ) (start end : Option ℕ) (time : ℕ)
    → is_invalid_task current ≡ false
    → ltb full_percent percent ≡ false
    → is_reversed start end ≡ false
    → (same_task status TaskStatus.completed && not (percent == full_percent)) ≡ false
    → (same_task status TaskStatus.completed && is_none end) ≡ false
    → is_invalid_task (record current {
      status = status;
      completion_percent = percent;
      actual_start = start;
      actual_completion = end;
      updated_at = time;
    })
      ≡ false
unfolding is_invalid_task
valid_copy current status percent start end time valid bounded ordered full ended =
    ground (arith, bounded, ordered, full, ended)

completed_full :
    (current : Task) (c : UpdateTaskCommand)
    → ((same_task (target_of current c) TaskStatus.completed
          && not (percent_of current c == full_percent))
        ≡ false)
      × ((same_task (target_of current c) TaskStatus.completed
            && is_none (updated_task current c).actual_completion)
          ≡ false)
unfolding updated_task percent_of
completed_full current c = (ground arith, ground arith)

updated_valid :
    (current : Task) (c : UpdateTaskCommand)
    → is_invalid_task current ≡ false
    → ltb full_percent (percent_of current c) ≡ false
    → is_reversed (updated_task current c).actual_start (updated_task current c).actual_completion
      ≡ false
    → is_invalid_task (updated_task current c) ≡ false
unfolding updated_task
updated_valid current c valid bounded ordered =
    let (full, ended) = completed_full current c in
    valid_copy current (target_of current c) (percent_of current c)
      (updated_task current c).actual_start (updated_task current c).actual_completion c.occurred_at
      valid bounded ordered full ended

valid-not_invalid : (t : Task) → validate_task t ≡ ok tt → is_invalid_task t ≡ false
unfolding validate_task
valid-not_invalid t h = ground arith

-- An accepted update by a valid command leaves a valid task: if the task was valid and had a time of
-- completion only when completed, and if it did not start after the time of the command, then the
-- copy that is saved passes the validator of `Task`, and has a time of completion only when it is
-- completed.
pub update_keeps_valid :
    (tasks : List Task) (current : Task) (c : UpdateTaskCommand) (context : MutationContext)
    (t : Task)
    → decide_update tasks current c context ≡ ok t
    → validate_task current ≡ ok tt
    → validate_update c ≡ ok tt
    → IsTidy current
    → ((start : ℕ) → current.actual_start ≡ some start → start ≤ c.occurred_at)
    → (validate_task t ≡ ok tt) × IsTidy t
update_keeps_valid tasks current c context t accepted valid fine tidy started =
    let a = decide_update-ok tasks current c context t accepted in
    let keeps_valid : validate_task (updated_task current c) ≡ ok tt =
      unfold validate_task in
      rw
        (updated_valid current c (valid-not_invalid current valid)
          (percent_bounded current c (unfold validate_task is_invalid_task in ground arith) fine)
          (times_ordered current c (unfold validate_task is_invalid_task in ground arith) tidy
            started))
        refl in
    rw a.result (keeps_valid, stays-IsTidy current c tidy a.transition)
