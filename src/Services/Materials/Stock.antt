-- ===== src/Services/Materials/Stock.antt =====
-- The writes of app/services/materials.py inside a mutation: `_apply_quantity`, `_set_quantity`,
-- `_update_details` and `_record_delivery`.
use ogaforeman.Base.{
  ℕ, ◌+◌, String, ◌&&◌, ◌||◌, not, Option, none, some, [], ◌∷◌, ◌++◌ as append, ltb, leb, ◌==◌,
  length, if◌then◌else◌, str_eq, Result, ok, err, raise_if, ◌>>=◌ as and_next, ◌>>◌ as check_then,
  version_conflict, negative_material_stock, material_mutation,
}
use ogaforeman.Base.Int.{ℤ, pos, negsuc, ◌+ℤ◌, sub_ℕ}
use ogaforeman.Base.Exec.{Exec, pure, lift, ◌>>=◌}
use ogaforeman.Domain.Decimal.{rounded, rounded_ℤ}
use ogaforeman.Domain.Enums.{MaterialRequestStatus, same_request}
use ogaforeman.Domain.Transitions.{ensure_material_request_transition}
use ogaforeman.Domain.Authorization.{ProjectAccessContext}
use ogaforeman.Domain.Activity.{Texts, MutationContext, actor_or_system}
use ogaforeman.Domain.Material.{
  Names, Material, MaterialRequest, MaterialLedgerEntry, ensure_same_unit, material_entity,
  ledger_entity, request_entity,
}
use ogaforeman.Repositories.Memory.{create, version_of}
use ogaforeman.Services.Session.{
  Session, on_materials, on_requests, on_ledger, authorize_read, require_authorized,
  save_authorized, create_authorized,
}
use ogaforeman.Services.Materials.Commands.{
  MaterialQuantityCommand, SetMaterialQuantityCommand, UpdateMaterialDetailsCommand,
  RecordMaterialDeliveryCommand, is_zero, validate_material_identity, ledger_id,
}

-- `_MaterialMutationValue`
pub record MaterialMutationValue : Type 0 where
  pub material : Material
  pub entry : Option MaterialLedgerEntry
  pub request : Option MaterialRequest

-- `if current.version != command.expected_version: raise ...`
abbrev pub ensure_version : Material → ℕ → Result (Unit {0})
ensure_version current expected = raise_if (not (current.version == expected)) version_conflict

-- What the checks of a change answer: the unit, the signed change and the new stock.
pub record StockPlan : Type 0 where
  pub unit : String
  pub delta : ℤ
  pub balance : ℕ

-- `current.available_quantity + command.quantity_delta`, which raises when it is negative or less
-- than what is reserved
unfoldable pub new_balance : Material → ℤ → Result ℕ
unfolding rounded
new_balance current delta = elim (pos current.available_quantity +ℤ delta) [
  | negsuc n ↦ err negative_material_stock
  | pos sum ↦
      if ltb (rounded sum) current.reserved_quantity
      then err negative_material_stock
      else ok (rounded sum)
]

-- The checks of `_set_quantity` on the quantity; the answer is the delta.
unfoldable pub set_delta : Material → ℕ → Result ℤ
unfolding rounded_ℤ
set_delta current quantity =
    if ltb quantity current.reserved_quantity
    then err negative_material_stock
    else if is_zero (sub_ℕ quantity current.available_quantity)
    then err material_mutation
    else ok (rounded_ℤ (sub_ℕ quantity current.available_quantity))

-- The copy of `_update_details`.
unfoldable pub detailed : Material → UpdateMaterialDetailsCommand → Result Material
detailed current c = elim c.required_quantity [
  | some quantity ↦
      ok (record current { updated_at = c.occurred_at; minimum_required_quantity = quantity })
  | none ↦
      if leb 100 (length current.notes)
      then err material_mutation
      else ok (record current {
        updated_at = c.occurred_at;
        notes = append current.notes (elim c.note [ none ↦ "" | some n ↦ n ] ∷ []);
      })
]

-- The checks of `_record_delivery` on the quantities; the answer is the delivered quantity.
unfoldable pub delivered : MaterialRequest → RecordMaterialDeliveryCommand → Result ℕ
unfolding rounded
delivered request c =
    let total = rounded (request.delivered_quantity + c.quantity) in
    if ltb request.quantity total
    then err material_mutation
    else if c.complete_delivery && not (total == request.quantity)
    then err material_mutation
    else ok total

-- The status of the request after the delivery.
unfoldable pub delivery_status :
    MaterialRequest → RecordMaterialDeliveryCommand → Result MaterialRequestStatus
delivery_status request c =
    if c.complete_delivery
    then check_then
        (ensure_material_request_transition request.status MaterialRequestStatus.delivered)
        (ok MaterialRequestStatus.delivered)
    else ok request.status

module _ (x : Names) where
  -- The checks of `_apply_quantity`.
  unfoldable pub plan_quantity : Material → MaterialQuantityCommand → Result StockPlan
  plan_quantity current c = check_then (validate_material_identity x current) (
      check_then (ensure_version current c.expected_version) (
        and_next (ensure_same_unit x current.unit c.unit) λ unit.
          and_next (new_balance current c.quantity_delta)
            λ balance. ok (record { unit = unit; delta = c.quantity_delta; balance = balance })))

  -- The checks of `_set_quantity`.
  unfoldable pub plan_set : Material → SetMaterialQuantityCommand → Result StockPlan
  plan_set current c = check_then (ensure_version current c.expected_version) (
      and_next (ensure_same_unit x current.unit c.unit) λ unit.
        and_next (set_delta current c.quantity)
          λ delta. ok (record { unit = unit; delta = delta; balance = c.quantity }))

  -- The checks of `_record_delivery`; the answer holds the delivered quantity of the request, too.
  unfoldable pub plan_delivery :
      Material → MaterialRequest → RecordMaterialDeliveryCommand → Result (StockPlan × ℕ)
  unfolding rounded
  plan_delivery current request c =
      check_then (raise_if (not (str_eq request.material_id current.id)) material_mutation) (
        check_then
          (raise_if
            (not (
              same_request request.status MaterialRequestStatus.confirmed
              || same_request request.status MaterialRequestStatus.delayed))
            material_mutation)
          (and_next (ensure_same_unit x current.unit c.unit) λ unit.
            and_next (ensure_same_unit x request.unit unit) λ request_unit.
              and_next (delivered request c) λ quantity. ok (
                record {
                  unit = unit;
                  delta = pos c.quantity;
                  balance = rounded (current.available_quantity + c.quantity);
                },
                quantity,
              )))

-- `_ledger_entry`; `_apply_quantity` writes the same entry with the time of its command.
unfoldable pub ledger_entry :
    Texts → MutationContext → String → StockPlan → String → ℕ → MaterialLedgerEntry
ledger_entry t context material_id plan reason time = record {
  id = ledger_id t context;
  project_id = context.project_id;
  material_id = material_id;
  quantity_delta = plan.delta;
  unit = plan.unit;
  balance_after = plan.balance;
  reason = reason;
  source_event_id = context.source_event_id;
  agent_run_id = context.agent_run_id;
  actor_id = actor_or_system context.actor_id;
  idempotency_key = context.idempotency_key;
  created_at = time;
}

-- The copy of the material that a change saves.
abbrev pub restocked : Material → StockPlan → ℕ → Material
restocked current plan time = record current {
  available_quantity = plan.balance;
  unit = plan.unit;
  updated_at = time;
}

module _ (t : Texts) (x : Names) (access : ProjectAccessContext) where
  unfoldable pub apply_quantity :
      MaterialQuantityCommand → MutationContext → String → Exec Session MaterialMutationValue
  apply_quantity c context material_id = do
    current ← on_materials (require_authorized access c.project_id material_id)
    plan ← lift (plan_quantity x current c)
    updated ← on_materials (
        save_authorized access (material_entity x) (restocked current plan c.occurred_at)
          (some c.expected_version))
    entry ← on_ledger (
        create_authorized access (ledger_entity x)
          (record (ledger_entry t context material_id plan c.reason c.occurred_at) {
            project_id = c.project_id;
          }))
    pure (record { material = updated; entry = some entry; request = none })

  unfoldable pub set_quantity_in :
      SetMaterialQuantityCommand → MutationContext → String → Exec Session MaterialMutationValue
  set_quantity_in c context material_id = do
    current ← on_materials (require_authorized access c.project_id material_id)
    plan ← lift (plan_set x current c)
    updated ← on_materials (
        save_authorized access (material_entity x)
          (record current { available_quantity = plan.balance; updated_at = c.occurred_at })
          (some c.expected_version))
    entry ← on_ledger (
        create (ledger_entity x)
          (ledger_entry t context material_id plan c.reason context.occurred_at))
    pure (record { material = updated; entry = some entry; request = none })

  unfoldable pub update_details_in :
      UpdateMaterialDetailsCommand → Exec Session MaterialMutationValue
  update_details_in c = do
    current ← on_materials (require_authorized access c.project_id c.material_id)
    updates ← lift (detailed current c)
    updated ←
        on_materials (save_authorized access (material_entity x) updates (some c.expected_version))
    pure (record { material = updated; entry = none; request = none })

  -- `request_repository.version_of(...)`, behind the read permission
  unfoldable pub request_version : String → String → Exec Session (Option ℕ)
  request_version project_id request_id s = (
    check_then (authorize_read access project_id)
        (ok (version_of s.requests project_id request_id)),
    s,
  )

  -- The second half of `_record_delivery`: the request, after the material was saved.
  unfoldable pub save_request :
      MaterialRequest → RecordMaterialDeliveryCommand → ℕ → Exec Session MaterialRequest
  save_request request c quantity = do
    status ← lift (delivery_status request c)
    expected ← request_version c.project_id request.id
    on_requests (
        save_authorized access request_entity
          (record request {
            delivered_quantity = quantity;
            status = status;
            updated_at = c.occurred_at;
          })
          expected)

  unfoldable pub record_delivery_in :
      RecordMaterialDeliveryCommand → MutationContext → Exec Session MaterialMutationValue
  record_delivery_in c context = do
    current ← on_materials (require_authorized access c.project_id c.material_id)
    request ← on_requests (require_authorized access c.project_id c.request_id)
    (plan, quantity) ← lift (plan_delivery x current request c)
    updated ← on_materials (
        save_authorized access (material_entity x)
          (record current { available_quantity = plan.balance; updated_at = c.occurred_at })
          (some c.expected_material_version))
    saved ← save_request request c quantity
    entry ← on_ledger (
        create (ledger_entity x)
          (ledger_entry t context current.id plan c.reason context.occurred_at))
    pure (record { material = updated; entry = some entry; request = some saved })
