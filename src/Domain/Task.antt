-- ===== src/Domain/Task.antt =====
-- `Task` of app/domain/models.py with the checks of its pydantic validator. Times are counted in
-- microseconds, percentages in millionths of a percent.
use ogaforeman.Base.{
  ℕ, ◌*◌, ◌^◌, String, Bool, true, false, ◌&&◌, ◌||◌, not, Option, none, some, List, ltb, ◌==◌,
  length, mem, distinct, Result, raise_if, validation_error,
}
use ogaforeman.Domain.Enums.{TaskStatus, TaskPriority, TaskSource, same_task}

pub record Task : Type 0 where
  pub id : String
  pub project_id : String
  pub title : String
  pub description : Option String
  pub status : TaskStatus
  pub priority : TaskPriority
  pub assigned_to : Option String
  pub phase_id : Option String
  pub trade : Option String
  pub location : Option String
  pub planned_start : Option ℕ
  pub planned_end : Option ℕ
  pub actual_start : Option ℕ
  pub actual_completion : Option ℕ
  pub dependency_ids : List String
  pub is_milestone : Bool
  pub source_refs : List String
  pub notes : List String
  pub completion_percent : ℕ
  pub source : TaskSource
  pub version : ℕ
  pub created_at : ℕ
  pub updated_at : ℕ

-- `Decimal("100")`
abbrev pub full_percent : ℕ
full_percent = 100 * 10 ^ 6

-- `start and end and end < start`
abbrev pub is_reversed : Option ℕ → Option ℕ → Bool
is_reversed (some start) (some end) = ltb end start
is_reversed _ _ = false

-- `start is None or end is None or start != end`
abbrev pub is_spread : Option ℕ → Option ℕ → Bool
is_spread (some start) (some end) = not (start == end)
is_spread _ _ = true

abbrev pub is_none {ℓ} : {A : Type ℓ} → Option A → Bool
is_none none = true
is_none (some _) = false

-- The field constraints with a numeric meaning and the checks of `validate_task_invariants`, each
-- of which raises when it holds.
unfoldable pub is_invalid_task : Task → Bool
is_invalid_task t =
    ltb full_percent t.completion_percent
    || (ltb 10 (length t.source_refs)
        || (ltb 100 (length t.notes)
            || (is_reversed t.planned_start t.planned_end
                || (is_reversed t.actual_start t.actual_completion
                    || (same_task t.status TaskStatus.completed
                          && not (t.completion_percent == full_percent)
                        || (same_task t.status TaskStatus.completed && is_none t.actual_completion
                            || (mem t.id t.dependency_ids
                                || (t.is_milestone && is_spread t.planned_start t.planned_end
                                    || (not (distinct t.source_refs)
                                        || not (distinct t.dependency_ids))))))))))

unfoldable pub validate_task : Task → Result (Unit {0})
validate_task t = raise_if (is_invalid_task t) validation_error
