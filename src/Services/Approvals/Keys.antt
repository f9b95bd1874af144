-- ===== src/Services/Approvals/Keys.antt =====
-- The idempotency key of the event that a resolution of an approval queues
-- (app/services/approvals.py).
use Prim.Native.String.{◌++◌, count}
use ogaforeman.Base.{ℕ, ◌<◌, ◌≡◌, ◌≢◌, some, arith, ok, ap, sym, ◌∙◌}
use ogaforeman.Domain.Enums.{ApprovalStatus}
use ogaforeman.Domain.Authorization.{ProjectAccessContext}
use ogaforeman.Domain.Activity.{Texts, MutationContext}
use ogaforeman.Domain.Approval.{Approval}
use ogaforeman.Repositories.Memory.{get}
use ogaforeman.Services.Session.{Session}
use ogaforeman.Services.Approvals.{Resolution, apply_resolution}
use ogaforeman.Services.Approvals.Decision.{ResolutionCommand, check_event}
use ogaforeman.Services.Approvals.Outcome.{IsResolution, apply_resolution-IsResolution}

-- An event whose key is too long is refused, whenever it is received.
check_event_refuses :
    (c : ResolutionCommand) (context : MutationContext) (received : ℕ)
    → 256 < count (context.idempotency_key ++ "_outbox")
    → check_event c context received ≢ ok tt
unfolding check_event
check_event_refuses c context received long h = ground (arith, long, h)

-- An approval that does not have the status yet cannot be resolved under an idempotency key that
-- has more than 256 characters together with the suffix `_outbox`: no resolution of it returns.
pub long_key_refused :
    (x : Texts) (access : ProjectAccessContext) (c : ResolutionCommand) (context : MutationContext)
    (status : ApprovalStatus) (received : ℕ) (a : Approval) (s : Session) (r : Resolution)
    → get s.approvals access.project_id c.approval_id ≡ some a
    → a.status ≢ status
    → 256 < count (context.idempotency_key ++ "_outbox")
    → (apply_resolution x access c context status received s).0 ≢ ok r
long_key_refused x access c context status received a s r found other long h =
    let (b, stored, outcome) =
      apply_resolution-IsResolution x access c context status received s r h in
    let is_b : b ≡ a = ground (arith, found, stored) in refuse b is_b outcome
  where
    refuse :
        {s' : Session} (b : Approval)
        → b ≡ a
        → IsResolution x access c context status received b s s' r
        → ⊥
    refuse b is_b (IsResolution.kept open_ same) =
        other (ap (λ (a : Approval). a.status) (sym is_b) ∙ same)
    refuse b is_b (IsResolution.decided request pending linked d) =
        check_event_refuses c context received long d.checked
