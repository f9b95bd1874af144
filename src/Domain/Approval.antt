-- ===== src/Domain/Approval.antt =====
-- `Approval` of app/domain/models.py with the checks of its pydantic validator.
use ogaforeman.Base.{
  ℕ, String, Bool, true, ◌&&◌, ◌||◌, not, Option, List, refl, Result, raise_if, validation_error,
}
use ogaforeman.Base.Dict.{Dict}
use ogaforeman.Domain.Enums.{ApprovalActionType, ApprovalStatus, same_approval}
use ogaforeman.Domain.Task.{is_none}
use ogaforeman.Domain.ProcessedEvent.{is_blank, is_before, is_longer}
use ogaforeman.Domain.Json.{Json}
use ogaforeman.Base.Strip.{strip, strip_option, strip_all}
use ogaforeman.Repositories.Memory.{Entity}

pub record Approval : Type 0 where
  pub id : String
  pub project_id : String
  pub action_type : ApprovalActionType
  pub proposed_action : Dict Json
  pub reason : String
  pub evidence_refs : List String
  pub status : ApprovalStatus
  pub requested_by : String
  pub requested_at : ℕ
  pub resolved_at : Option ℕ
  pub resolved_by : Option String
  pub resolution_notes : Option String
  pub version : ℕ

-- The checks of `validate_resolution`, each of which raises when it holds, and the length of the
-- notes.
unfoldable pub is_invalid_approval : Approval → Bool
is_invalid_approval a =
    is_longer 5_000 a.resolution_notes
    || (same_approval a.status ApprovalStatus.pending
          && (not (is_none a.resolved_at)
              || (not (is_blank a.resolved_by) || not (is_blank a.resolution_notes)))
        || ((same_approval a.status ApprovalStatus.approved
                || same_approval a.status ApprovalStatus.rejected)
              && (is_none a.resolved_at || is_none a.resolved_by)
            || is_before a.resolved_at a.requested_at))

unfoldable pub validate_approval : Approval → Result (Unit {0})
unfolding is_invalid_approval
validate_approval a = raise_if (is_invalid_approval a) validation_error

-- The texts as pydantic keeps them.
abbrev pub strip_approval : Approval → Approval
strip_approval r = record r {
  reason = strip r.reason;
  evidence_refs = strip_all r.evidence_refs;
  resolution_notes = strip_option r.resolution_notes;
}

abbrev pub approval_entity : Entity Approval
approval_entity = record {
  project_id = λ a. a.project_id;
  id = λ a. a.id;
  has_version = true;
  version = λ a. a.version;
  with_version = λ a n. record a { version = n };
  strip = strip_approval;
  validate = validate_approval;
  version-with_version = λ a n h. refl;
}
