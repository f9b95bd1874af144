-- ===== src/Examples/Materials.antt =====
-- app/services/materials.py at concrete inputs.
use Prim.Native.String.{◌++◌}
use ogaforeman.Base.{◌≢◌, ◌↔◌, arith, eq_iff, ℕ, ◌≡◌, refl, String, true, none, some, [], ok}
use ogaforeman.Base.Int.{ℤ, pos, negsuc, ◌+ℤ◌}
use ogaforeman.Base.Dict
use ogaforeman.Base.Strip.{strip, is_space}
use ogaforeman.Domain.Decimal.{rounded, rounded_ℤ}
use ogaforeman.Domain.Enums.{MemberStatus, MemberRole, MaterialRequestStatus}
use ogaforeman.Domain.Authorization.Exact.{IsEntitled, authorize_exact}
use ogaforeman.Domain.Authorization.{
  ProjectMember, ProjectPermission, authorize_project_member, ProjectAccessContext, grants,
  ensure_permission, ensure_project_scope,
}
use ogaforeman.Domain.Transitions.{ensure_material_request_transition, request_transitions}
use ogaforeman.Domain.Material.{
  material_entity, Names, Material, MaterialRequest, MaterialLedgerEntry, normalize_material_name,
  unit_alias, canonicalize_unit, ensure_same_unit, is_invalid_material, validate_material,
  is_invalid_entry, validate_entry, is_invalid_request, validate_request,
}
use ogaforeman.Repositories.Memory.{
  empty, get, find, partition, setdefault, write, require, create, save, admit, accept, at_version,
  version_of, validate_for_create, require_expected_version,
}
use ogaforeman.Services.Session.{
  Session, authorize_read, authorize_mutation, require_authorized, save_authorized,
  create_authorized,
}
use ogaforeman.Services.Session.Scope.{save_isolated, create_isolated}
use ogaforeman.Services.Materials.Commands.{
  MaterialQuantityCommand, SetMaterialQuantityCommand, RecordMaterialDeliveryCommand, map_result,
  validate_material_identity, ledger_id,
}
use ogaforeman.Services.Materials.Stock.{
  MaterialMutationValue, new_balance, set_delta, delivered, delivery_status, plan_quantity,
  plan_set, plan_delivery, ledger_entry, apply_quantity, set_quantity_in, request_version,
  save_request, record_delivery_in,
}
use ogaforeman.Services.Materials.Deliveries.{IsDelivery, record_delivery_in-IsDelivery}
use ogaforeman.Services.Materials.Moves.{
  IsMove, apply_quantity-IsMove, set_quantity_in-IsMove, record_delivery_in-IsMove,
}
use ogaforeman.Examples.Tasks.{texts, context, no_records}

-- Plain lower-case texts are their own normal forms.
abbrev names : Names
names = record {
  casefold = λ s. s;
  clean_name = λ s. s;
  clean_unit = λ s. s;
  repr = λ s. "'" ++ (s ++ "'");
}

abbrev access : ProjectAccessContext
access = record {
  actor = record { user_id = "usr_1"; subject = "sub_1"; email = none };
  project_id = "prj_1";
  role = MemberRole.foreman;
}

abbrev cement : Material
cement = record {
  id = "mat_1";
  project_id = "prj_1";
  name = "cement";
  normalized_name = "cement";
  aliases = [];
  unit = "bags";
  location = none;
  available_quantity = 40;
  reserved_quantity = 10;
  minimum_required_quantity = 0;
  upcoming_requirement_quantity = none;
  estimated_unit_cost = none;
  default_supplier = none;
  notes = [];
  version = 0;
  updated_at = 0;
}

abbrev cement_request : MaterialRequest
cement_request = record {
  id = "req_1";
  project_id = "prj_1";
  material_id = "mat_1";
  quantity = 100;
  delivered_quantity = 40;
  unit = "bags";
  needed_by = none;
  reason = "The slab needs cement.";
  source_event_id = "evt_1";
  supplier = none;
  estimated_total_cost = none;
  status = MaterialRequestStatus.confirmed;
  approval_id = some "app_1";
  created_at = 0;
  updated_at = 0;
}

abbrev yard : Session
yard = record no_records {
  materials = write "prj_1" "mat_1" (cement, 0) empty;
  requests = write "prj_1" "req_1" (cement_request, 2) empty;
}

abbrev taking : MaterialQuantityCommand
taking = record {
  project_id = "prj_1";
  material_id_or_alias = "mat_1";
  quantity_delta = negsuc 29;
  unit = "bag";
  expected_version = 0;
  reason = "Used for the slab.";
  occurred_at = 1_000;
}

abbrev counting : SetMaterialQuantityCommand
counting = record {
  project_id = "prj_1";
  material_id_or_alias = "mat_1";
  quantity = 25;
  unit = "bags";
  expected_version = 0;
  reason = "Counted.";
  occurred_at = 1_000;
}

abbrev delivering : RecordMaterialDeliveryCommand
delivering = record {
  project_id = "prj_1";
  material_id = "mat_1";
  request_id = "req_1";
  quantity = 60;
  unit = "bags";
  expected_material_version = 0;
  complete_delivery = true;
  reason = "The rest arrived.";
  occurred_at = 1_000;
}

abbrev entry_of : ℤ → ℕ → String → MaterialLedgerEntry
entry_of delta balance reason =
    ledger_entry texts context "mat_1" (record { unit = "bags"; delta = delta; balance = balance })
      reason 1_000

abbrev taken : MaterialMutationValue
taken = record {
  material = record cement { available_quantity = 10; updated_at = 1_000; version = 1 };
  entry = some (entry_of (negsuc 29) 10 "Used for the slab.");
  request = none;
}

abbrev counted : MaterialMutationValue
counted = record {
  material = record cement { available_quantity = 25; updated_at = 1_000; version = 1 };
  entry = some (entry_of (negsuc 14) 25 "Counted.");
  request = none;
}

abbrev completed_request : MaterialRequest
completed_request = record cement_request {
  delivered_quantity = 100;
  status = MaterialRequestStatus.delivered;
  updated_at = 1_000;
}

abbrev delivered_value : MaterialMutationValue
delivered_value = record {
  material = record cement { available_quantity = 100; updated_at = 1_000; version = 1 };
  entry = some (entry_of (pos 60) 100 "The rest arrived.");
  request = some completed_request;
}

taking-returns : (apply_quantity texts names access taking context "mat_1" yard).0 ≡ ok taken
unfolding apply_quantity set_quantity_in record_delivery_in plan_quantity plan_set plan_delivery
    new_balance set_delta delivered delivery_status ledger_entry ledger_id request_version
    save_request validate_material_identity map_result normalize_material_name unit_alias
    canonicalize_unit ensure_same_unit is_invalid_material validate_material is_invalid_entry
    validate_entry is_invalid_request validate_request authorize_read authorize_mutation
    require_authorized save_authorized create_authorized grants ensure_permission
    ensure_project_scope ensure_material_request_transition request_transitions get find partition
    setdefault write require create save admit accept at_version version_of validate_for_create
    require_expected_version ◌+ℤ◌ Dict.get Dict.put strip is_space rounded rounded_ℤ
taking-returns = refl

counting-returns : (set_quantity_in texts names access counting context "mat_1" yard).0 ≡ ok counted
unfolding apply_quantity set_quantity_in record_delivery_in plan_quantity plan_set plan_delivery
    new_balance set_delta delivered delivery_status ledger_entry ledger_id request_version
    save_request validate_material_identity map_result normalize_material_name unit_alias
    canonicalize_unit ensure_same_unit is_invalid_material validate_material is_invalid_entry
    validate_entry is_invalid_request validate_request authorize_read authorize_mutation
    require_authorized save_authorized create_authorized grants ensure_permission
    ensure_project_scope ensure_material_request_transition request_transitions get find partition
    setdefault write require create save admit accept at_version version_of validate_for_create
    require_expected_version ◌+ℤ◌ Dict.get Dict.put strip is_space rounded rounded_ℤ
counting-returns = refl

delivering-returns :
    (record_delivery_in texts names access delivering context yard).0 ≡ ok delivered_value
unfolding apply_quantity set_quantity_in record_delivery_in plan_quantity plan_set plan_delivery
    new_balance set_delta delivered delivery_status ledger_entry ledger_id request_version
    save_request validate_material_identity map_result normalize_material_name unit_alias
    canonicalize_unit ensure_same_unit is_invalid_material validate_material is_invalid_entry
    validate_entry is_invalid_request validate_request authorize_read authorize_mutation
    require_authorized save_authorized create_authorized grants ensure_permission
    ensure_project_scope ensure_material_request_transition request_transitions get find partition
    setdefault write require create save admit accept at_version version_of validate_for_create
    require_expected_version ◌+ℤ◌ Dict.get Dict.put strip is_space rounded rounded_ℤ
delivering-returns = refl

cement-found : get yard.materials "prj_1" "mat_1" ≡ some cement
unfolding get find partition write Dict.get Dict.put
cement-found = refl

request-found : get yard.requests "prj_1" "req_1" ≡ some cement_request
unfolding get find partition write Dict.get Dict.put
request-found = refl

apply_quantity-IsMove_example :
    IsMove yard
      (apply_quantity texts names access taking context "mat_1" yard).1
      "prj_1"
      "mat_1"
      taken
apply_quantity-IsMove_example =
    apply_quantity-IsMove texts names access context yard taking "mat_1" taken
      (λ m found. ground (arith, found, cement-found)) taking-returns

set_quantity_in-IsMove_example :
    IsMove yard
      (set_quantity_in texts names access counting context "mat_1" yard).1
      "prj_1"
      "mat_1"
      counted
set_quantity_in-IsMove_example =
    set_quantity_in-IsMove texts names access context yard counting "mat_1" counted
      (λ m found. ground (arith, found, cement-found)) (omega arith) counting-returns

record_delivery_in-IsMove_example :
    IsMove yard
      (record_delivery_in texts names access delivering context yard).1
      "prj_1"
      "mat_1"
      delivered_value
record_delivery_in-IsMove_example =
    record_delivery_in-IsMove texts names access context yard delivering delivered_value
      (λ m found. ground (arith, found, cement-found)) delivering-returns

abbrev other_project : String
other_project = "prj_2"

other_project-other : other_project ≢ access.project_id
other_project-other h = ground (arith, eq_iff other_project access.project_id, h)

save_isolated_example :
    find
      (save_authorized access (material_entity names) cement (some 0) yard.materials).1
      other_project
      "mat_1"
    ≡ find yard.materials other_project "mat_1"
save_isolated_example =
    save_isolated access (material_entity names) cement yard.materials (some 0) other_project
      "mat_1" other_project-other

create_isolated_example :
    find
      (create_authorized access (material_entity names) cement yard.materials).1
      other_project
      "mat_1"
    ≡ find yard.materials other_project "mat_1"
create_isolated_example =
    create_isolated access (material_entity names) cement yard.materials other_project "mat_1"
      other_project-other

abbrev membership : ProjectMember
membership = record {
  project_id = "prj_1";
  user_id = "usr_1";
  role = MemberRole.foreman;
  status = MemberStatus.active;
}

authorize_exact_example :
    (authorize_project_member access.actor "prj_1" (some membership) ProjectPermission.operate
      ≡ ok (record { actor = access.actor; project_id = "prj_1"; role = MemberRole.foreman }))
    ↔ IsEntitled access.actor "prj_1" ProjectPermission.operate membership
authorize_exact_example = authorize_exact access.actor "prj_1" membership ProjectPermission.operate

record_delivery_in-IsDelivery_example :
    (old new : MaterialRequest) × (get yard.requests "prj_1" "req_1" ≡ some old)
    × (delivered_value.request ≡ some new)
    × (get
          (record_delivery_in texts names access delivering context yard).1.requests
          old.project_id
          old.id
        ≡ some new)
    × IsDelivery delivering old new
record_delivery_in-IsDelivery_example =
    record_delivery_in-IsDelivery texts names access context yard delivering delivered_value
      (λ m found. ground (arith, found, request-found)) delivering-returns
