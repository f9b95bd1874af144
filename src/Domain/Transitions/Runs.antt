-- ===== src/Domain/Transitions/Runs.antt =====
-- What the transition policies of app/domain/policies.py allow over any number of steps.
use ogaforeman.Base.{
  ◌≡◌, refl, ◌∙◌, ◌⊎◌, inl, inr, Bool, true, false, ◌||◌, List, [], ◌∷◌, arith, Result, ok, In,
  head, tail,
}
use ogaforeman.Domain.Enums.{TaskStatus, MaterialRequestStatus, same_request, same_task}
use ogaforeman.Domain.Transitions.{ensure_task_transition, ensure_material_request_transition}

-- Each status of `path` follows the one before it, the first one `s`, by an accepted transition.
abbrev pub IsRun {ℓ} : {S : Type ℓ} → (S → S → Result (Unit {0})) → S → List S → Type 0
IsRun step s [] = Unit
IsRun step s (t ∷ path) = (step s t ≡ ok tt) × IsRun step t path

-- The status in which a run ends.
abbrev pub final {ℓ} : {S : Type ℓ} → S → List S → S
final s [] = s
final s (t ∷ path) = final t path

-- An order with the supplier exists: submitted, confirmed, delayed or delivered.
abbrev pub is_ordered : MaterialRequestStatus → Bool
is_ordered s =
    same_request s MaterialRequestStatus.submitted
    || (same_request s MaterialRequestStatus.confirmed
        || (same_request s MaterialRequestStatus.delayed
            || same_request s MaterialRequestStatus.delivered))

-- The states from which nothing has been approved.
abbrev is_unapproved : MaterialRequestStatus → Bool
is_unapproved s =
    same_request s MaterialRequestStatus.proposed
    || (same_request s MaterialRequestStatus.awaiting_approval
        || (same_request s MaterialRequestStatus.rejected
            || same_request s MaterialRequestStatus.cancelled))

unapproved_step :
    (s t : MaterialRequestStatus)
    → is_unapproved s ≡ true
    → ensure_material_request_transition s t ≡ ok tt
    → (t ≡ MaterialRequestStatus.approved) ⊎ (is_unapproved t ≡ true)
unfolding ensure_material_request_transition
unapproved_step s t u h = ground arith

unapproved_run :
    (s : MaterialRequestStatus) (path : List MaterialRequestStatus)
    → is_unapproved s ≡ true
    → IsRun ensure_material_request_transition s path
    → is_ordered (final s path) ≡ true
    → In MaterialRequestStatus.approved path
unapproved_run s [] u r o = absurd (ground arith)
unapproved_run s (t ∷ path) u (step, rest) o = elim (unapproved_step s t u step) [
  | inl e ↦ head e
  | inr v ↦ tail (unapproved_run t path v rest o)
]

-- Whatever accepted transitions a proposed material request goes through, it is submitted,
-- confirmed, delayed or delivered only if it was approved on the way.
pub ordered_needs_approval :
    (path : List MaterialRequestStatus)
    → IsRun ensure_material_request_transition MaterialRequestStatus.proposed path
    → is_ordered (final MaterialRequestStatus.proposed path) ≡ true
    → In MaterialRequestStatus.approved path
ordered_needs_approval path = unapproved_run MaterialRequestStatus.proposed path refl

-- An ordinary task command: neither a human correction nor a reconciled completion.
abbrev pub ordinary : TaskStatus → TaskStatus → Result (Unit {0})
ordinary s t = ensure_task_transition s t false false

abbrev is_unstarted : TaskStatus → Bool
is_unstarted s =
    same_task s TaskStatus.proposed
    || (same_task s TaskStatus.planned
        || (same_task s TaskStatus.blocked || same_task s TaskStatus.cancelled))

unstarted_step :
    (s t : TaskStatus)
    → is_unstarted s ≡ true
    → ordinary s t ≡ ok tt
    → (t ≡ TaskStatus.in_progress) ⊎ (is_unstarted t ≡ true)
unfolding ensure_task_transition
unstarted_step s t u h = ground arith

unstarted_run :
    (s : TaskStatus) (path : List TaskStatus)
    → is_unstarted s ≡ true
    → IsRun ordinary s path
    → final s path ≡ TaskStatus.completed
    → In TaskStatus.in_progress path
unstarted_run s [] u r o = absurd (ground arith)
unstarted_run s (t ∷ path) u (step, rest) o = elim (unstarted_step s t u step) [
  | inl e ↦ head e
  | inr v ↦ tail (unstarted_run t path v rest o)
]

-- By ordinary commands a proposed task is completed only after it was in progress.
pub completed_needs_progress :
    (path : List TaskStatus)
    → IsRun ordinary TaskStatus.proposed path
    → final TaskStatus.proposed path ≡ TaskStatus.completed
    → In TaskStatus.in_progress path
completed_needs_progress path = unstarted_run TaskStatus.proposed path refl

abbrev pub is_closed : TaskStatus → Bool
is_closed s = same_task s TaskStatus.completed || same_task s TaskStatus.cancelled

closed_step : (s t : TaskStatus) → is_closed s ≡ true → ordinary s t ≡ ok tt → t ≡ s
unfolding ensure_task_transition
closed_step s t c h = ground arith

-- Ordinary commands never move a completed or cancelled task.
pub closed_run :
    (s : TaskStatus) (path : List TaskStatus)
    → is_closed s ≡ true
    → IsRun ordinary s path
    → final s path ≡ s
closed_run s [] c r = refl
closed_run s (t ∷ path) c (step, rest) =
    let same = closed_step s t c step in closed_run t path (rw same c) rest ∙ same
