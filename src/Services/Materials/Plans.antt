-- ===== src/Services/Materials/Plans.antt =====
-- The plans of a change of stock (app/services/materials.py): the new stock is the stock before and
-- the delta.
use ogaforeman.Base.{
  refl, ℕ, suc, ◌+◌, ◌-◌, ◌<◌, ◌≤◌, ◌≡◌, ◌⊎◌, inl, inr, Bool-cases, leb, not, arith, str_eq, ok,
  raise_if, ◌||◌, material_mutation,
}
use ogaforeman.Base.{>>=-eq-ok as result_of}
use ogaforeman.Base.Int.{ℤ, pos, negsuc, sub_ℕ, pos_part, neg_part, ◌+ℤ◌}
use ogaforeman.Domain.Decimal.{precision_bound, rounded, rounded-exact, rounded_ℤ-exact}
use ogaforeman.Domain.Enums.{MaterialRequestStatus, same_request}
use ogaforeman.Domain.Material.{
  Names, Material, MaterialRequest, ensure_same_unit, validate_material, is_invalid_material,
}
use ogaforeman.Services.Materials.Commands.{
  MaterialQuantityCommand, SetMaterialQuantityCommand, RecordMaterialDeliveryCommand,
  validate_material_identity,
}
use ogaforeman.Services.Materials.Stock.{
  ensure_version, new_balance, set_delta, delivered, StockPlan, plan_quantity, plan_set,
  plan_delivery,
}

pub covers_reserved :
    (x : Names) (a : Material)
    → validate_material x a ≡ ok tt
    → a.reserved_quantity ≤ a.available_quantity
unfolding validate_material is_invalid_material
covers_reserved x a h = ground arith

sum-cases :
    (a : ℕ) (delta : ℤ)
    → a + (pos_part delta + neg_part delta) < precision_bound
    → ((k : ℕ) × (pos a +ℤ delta ≡ pos k) × (rounded k ≡ k))
      ⊎ ((k : ℕ) × (pos a +ℤ delta ≡ negsuc k))
unfolding ◌+ℤ◌
sum-cases a (pos n) small =
    inl (a + n, ground (arith, small), rounded-exact (a + n) (ground (arith, small)))
sum-cases a (negsuc n) small = elim (Bool-cases (leb (suc n) a)) [
  | inl e ↦ inl (a - suc n, ground (arith, e), rounded-exact (a - suc n) (ground (arith, small)))
  | inr e ↦ inr (suc n - a - 1, ground (arith, e))
]

new_balance-ok :
    (current : Material) (delta : ℤ) (n : ℕ)
    → current.available_quantity + (pos_part delta + neg_part delta) < precision_bound
    → new_balance current delta ≡ ok n
    → pos n ≡ pos current.available_quantity +ℤ delta
unfolding new_balance
new_balance-ok current delta n small h = elim (sum-cases current.available_quantity delta small) [
  | inl (k, e, exact) ↦ rw e (ground (arith, rw (new_balance, e) at h, exact))
  | inr (k, e) ↦ absurd (ground (arith, rw (new_balance, e) at h))
]

set_delta-ok :
    (current : Material) (quantity : ℕ) (delta : ℤ)
    → current.available_quantity < precision_bound
    → quantity < precision_bound
    → set_delta current quantity ≡ ok delta
    → pos quantity ≡ pos current.available_quantity +ℤ delta
unfolding set_delta ◌+ℤ◌
set_delta-ok current quantity delta small_stock small h =
    let exact =
      rounded_ℤ-exact (sub_ℕ quantity current.available_quantity) quantity
        current.available_quantity refl small small_stock in
    ground (arith, exact)

add_pos : (a b : ℕ) → pos (a + b) ≡ pos a +ℤ pos b
unfolding ◌+ℤ◌
add_pos a b = ground arith

pub plan_quantity-ok :
    (x : Names) (current : Material) (c : MaterialQuantityCommand) (plan : StockPlan)
    → current.available_quantity + (pos_part c.quantity_delta + neg_part c.quantity_delta)
      < precision_bound
    → plan_quantity x current c ≡ ok plan
    → pos plan.balance ≡ pos current.available_quantity +ℤ plan.delta
unfolding plan_quantity
plan_quantity-ok x current c plan small h =
    let (_, _, h1) = result_of (validate_material_identity x current) _ h in
    let (_, _, h2) = result_of (ensure_version current c.expected_version) _ h1 in
    let (_, _, h3) = result_of (ensure_same_unit x current.unit c.unit) _ h2 in
    let (n, fits, h4) = result_of (new_balance current c.quantity_delta) _ h3 in
    let moved = new_balance-ok current c.quantity_delta n small fits in ground (arith, moved, h4)

pub plan_set-ok :
    (x : Names) (current : Material) (c : SetMaterialQuantityCommand) (plan : StockPlan)
    → current.available_quantity < precision_bound
    → c.quantity < precision_bound
    → plan_set x current c ≡ ok plan
    → pos plan.balance ≡ pos current.available_quantity +ℤ plan.delta
unfolding plan_set
plan_set-ok x current c plan small_stock small h =
    let (_, _, h1) = result_of (ensure_version current c.expected_version) _ h in
    let (_, _, h2) = result_of (ensure_same_unit x current.unit c.unit) _ h1 in
    let (delta, fits, h3) = result_of (set_delta current c.quantity) _ h2 in
    let moved = set_delta-ok current c.quantity delta small_stock small fits in
    ground (arith, moved, h3)

pub plan_delivery-ok :
    (x : Names) (current : Material) (request : MaterialRequest) (c : RecordMaterialDeliveryCommand)
    (plan : StockPlan) (quantity : ℕ)
    → current.available_quantity + c.quantity < precision_bound
    → plan_delivery x current request c ≡ ok (plan, quantity)
    → pos plan.balance ≡ pos current.available_quantity +ℤ plan.delta
unfolding plan_delivery
plan_delivery-ok x current request c plan quantity small h =
    let (_, _, h1) =
      result_of (raise_if (not (str_eq request.material_id current.id)) material_mutation) _ h in
    let (_, _, h2) =
      result_of
        (raise_if
          (not (
            same_request request.status MaterialRequestStatus.confirmed
            || same_request request.status MaterialRequestStatus.delayed))
          material_mutation)
        _ h1 in
    let (unit, _, h3) = result_of (ensure_same_unit x current.unit c.unit) _ h2 in
    let (_, _, h4) = result_of (ensure_same_unit x request.unit unit) _ h3 in
    let (n, _, h5) = result_of (delivered request c) _ h4 in
    let moved = add_pos current.available_quantity c.quantity in
    let exact = rounded-exact (current.available_quantity + c.quantity) small in
    ground (arith, moved, exact, h5)
