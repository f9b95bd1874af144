-- ===== src/Base/Results.antt =====
-- Python code that raises. `Result` is a computation that only returns or raises; `Exec S` also
-- changes a state, and what it wrote before it raised stays written until a transaction undoes it.
use mathlib.Core.Path.{◌≡◌, refl}
use mathlib.Core.Logic.{◌⊎◌, inl, inr}
use mathlib.Core.Bool.{Bool, true, false}

-- The exception classes of the modelled code, one constructor for a class.
-- `validation_error` is pydantic's, `value_error`, `key_error`, `permission_error` and `runtime_error` Python's.
pub data Error : Type 0 where
  value_error key_error stop_iteration validation_error permission_error runtime_error : Error
  entity_not_found entity_already_exists version_conflict : Error
  invalid_transition project_forbidden role_required : Error
  mutation_context_required activity_idempotency_conflict : Error
  event_claim_conflict invalid_event_claim type_error : Error
  task_mutation task_evidence_rejected task_state task_blocked_completion : Error
  task_dependency_incomplete task_approval_required : Error
  material_mutation negative_material_stock unknown_material_unit material_unit_mismatch
        material_identity_conflict :
      Error
  approval_failed permanent_notification_gateway delivery_notification : Error

pub data Result {ℓ} (A : Type ℓ) : Type ℓ where
  err : Error → Result A
  ok : A → Result A

pub Result-cases {ℓ} :
    {A : Type ℓ} (r : Result A) → ((a : A) × (r ≡ ok a)) ⊎ ((e : Error) × (r ≡ err e))
Result-cases (ok a) = inl (a, refl)
Result-cases (err e) = inr (e, refl)

-- `if test: raise error`
abbrev pub raise_if : (test : Bool) (error : Error) → Result (Unit {0})
raise_if false error = ok tt
raise_if true error = err error

module _ {ℓ κ} {A : Type ℓ} {B : Type κ} where
  -- The statements that follow an assignment.
  infixl 5 ◌>>=◌
  abbrev pub ◌>>=◌ : Result A → (A → Result B) → Result B
  err raised >>= rest = err raised
  ok value >>= rest = rest value

  -- A chain that succeeds succeeds at its first step.
  pub >>=-eq-ok :
      (first : Result A) (rest : A → Result B) {b : B}
      → (first >>= rest) ≡ ok b
      → (a : A) × (first ≡ ok a) × (rest a ≡ ok b)
  >>=-eq-ok (err raised) rest h = cc
  >>=-eq-ok (ok value) rest h = (value, refl, h)

-- The statements that follow a check.
infixl 5 ◌>>◌
abbrev pub ◌>>◌ {κ} : {B : Type κ} → Result (Unit {0}) → Result B → Result B
check >> rest = check >>= λ _. rest
