-- ===== src/Services/Approvals/Finality.antt =====
-- A decision on an approval (app/services/approvals.py) is not overturned.
use ogaforeman.Base.{
  ℕ, ◌+◌, ◌≡◌, ◌≢◌, refl, sym, ap, ◌∙◌, ◌⊎◌, inl, inr, String, some, arith, ok, eq_refl,
}
use ogaforeman.Domain.Enums.{ApprovalStatus}
use ogaforeman.Domain.Authorization.{ProjectAccessContext}
use ogaforeman.Domain.Activity.{Texts, MutationContext}
use ogaforeman.Domain.Approval.{Approval, approval_entity}
use ogaforeman.Repositories.Memory.{get, find}
use ogaforeman.Repositories.Memory.Find.{get_of_find}
use ogaforeman.Repositories.Memory.Guards.{Saved}
use ogaforeman.Services.Session.{Session}
use ogaforeman.Services.Approvals.{Resolution, apply_resolution}
use ogaforeman.Services.Approvals.Decision.{ResolutionCommand, resolved}
use ogaforeman.Services.Approvals.Outcome.{IsResolution, apply_resolution-IsResolution}

-- The approval that stands under a key has this project and this id.
unfoldable pub IsKeyed : Session → String → String → Type 0
IsKeyed s p id = (a : Approval) → get s.approvals p id ≡ some a → (a.project_id ≡ p) × (a.id ≡ id)

was_or_pending :
    (x : Texts) (access : ProjectAccessContext) (c : ResolutionCommand) (context : MutationContext)
    (status : ApprovalStatus) (received : ℕ) (a : Approval) (s s' : Session) (r : Resolution)
    → IsResolution x access c context status received a s s' r
    → (a.status ≡ status) ⊎ (a.status ≡ ApprovalStatus.pending)
was_or_pending x access c context status received a s s' r (IsResolution.kept open_ same) = inl same
was_or_pending x access c context status received a s s' r
      (IsResolution.decided request pending linked d) =
    inr pending

module _ (x : Texts) (access : ProjectAccessContext) (c : ResolutionCommand)
    (context : MutationContext) (status : ApprovalStatus) (received : ℕ) where
  resolved_found :
      (a b : Approval) (s s' : Session) (p id : String)
      → (a.project_id ≡ p) × (a.id ≡ id)
      → Saved approval_entity
          (resolved c access.actor.user_id status a)
          c.expected_version
          s.approvals
          s'.approvals
          b
      → get s'.approvals p id ≡ some b
  unfolding resolved
  resolved_found a b s s' p id (project, same) k =
      let here : find s'.approvals p id ≡ some (b, k.current + 1) =
        k.finds p id ∙ rw (project, same, eq_refl p, eq_refl id) refl in
      get_of_find s'.approvals p id b (k.current + 1) here

  -- After a resolution that returned, the approval is stored with its status.
  resolution-found :
      (a : Approval) (s s' : Session) (r : Resolution)
      → IsKeyed s access.project_id c.approval_id
      → get s.approvals access.project_id c.approval_id ≡ some a
      → IsResolution x access c context status received a s s' r
      → (b : Approval) × (get s'.approvals access.project_id c.approval_id ≡ some b)
        × (b.status ≡ status)
  unfolding IsKeyed
  resolution-found a s s' r keyed found (IsResolution.kept open_ same) = (a, found, same)
  resolution-found a s s' r keyed found (IsResolution.decided request open_ linked d) = (
    r.0,
    resolved_found a r.0 s s' access.project_id c.approval_id (keyed a found) d.saved,
    d.decided,
  )

  -- Once a resolution with a status has returned, no resolution of the approval with another
  -- status returns in the session that it left, whoever asks for it.
  pub decision_stands :
      (access' : ProjectAccessContext) (c' : ResolutionCommand) (context' : MutationContext)
      (status' : ApprovalStatus) (received' : ℕ) (s : Session) (r r' : Resolution)
      → IsKeyed s access.project_id c.approval_id
      → access'.project_id ≡ access.project_id
      → c'.approval_id ≡ c.approval_id
      → status ≢ ApprovalStatus.pending
      → status' ≢ status
      → (apply_resolution x access c context status received s).0 ≡ ok r
      → (apply_resolution x access' c' context' status' received'
          (apply_resolution x access c context status received s).1).0
        ≢ ok r'
  decision_stands access' c' context' status' received' s r r' keyed project same decides other h
        h' =
      let (a, found, outcome) =
        apply_resolution-IsResolution x access c context status received s r h in
      let s' = (apply_resolution x access c context status received s).1 in
      let (b, stored, is_status) =
        resolution-found a s (apply_resolution x access c context status received s).1 r keyed found
          outcome in
      let (a', found', outcome') =
        apply_resolution-IsResolution x access' c' context' status' received' s' r' h' in
      let is_b : a' ≡ b = ground (arith, found', stored, project, same) in
      elim (was_or_pending x access' c' context' status' received' a' s'
        (apply_resolution x access' c' context' status' received' s').1 r' outcome') [
          | inl e ↦ other (sym e ∙ (ap (λ (a : Approval). a.status) is_b ∙ is_status))
          | inr e ↦ decides (sym is_status ∙ (ap (λ (a : Approval). a.status) (sym is_b) ∙ e))
        ]
