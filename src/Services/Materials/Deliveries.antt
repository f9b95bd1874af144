-- ===== src/Services/Materials/Deliveries.antt =====
-- What a delivery does to its material request (app/services/materials.py).
use ogaforeman.Base.{
  ℕ, ◌+◌, ◌<◌, ◌≤◌, ◌≡◌, refl, ap, ◌∙◌, true, false, ◌||◌, not, some, arith, str_eq, ok, raise_if,
  material_mutation,
}
use ogaforeman.Base.{>>=-eq-ok as result_of}
use ogaforeman.Base.Exec.{lift, >>=-run}
use ogaforeman.Repositories.Memory.Guards.{Saved-get}
use ogaforeman.Domain.Decimal.{precision_bound, rounded-exact}
use ogaforeman.Domain.Enums.{MaterialRequestStatus, same_request}
use ogaforeman.Domain.Authorization.{ProjectAccessContext}
use ogaforeman.Domain.Activity.{Texts, MutationContext}
use ogaforeman.Domain.Material.{
  Names, Material, MaterialRequest, ensure_same_unit, material_entity, ledger_entity,
  request_entity, strip_request,
}
use ogaforeman.Repositories.Memory.{get, create, at_version}
use ogaforeman.Services.Session.{
  Session, on_materials, on_requests, on_ledger, require_authorized, save_authorized,
}
use ogaforeman.Services.Session.Calls.{require_authorized-ok, save_authorized-ok}
use ogaforeman.Services.Materials.Commands.{RecordMaterialDeliveryCommand}
use ogaforeman.Services.Materials.Stock.{
  StockPlan, MaterialMutationValue, delivered, delivery_status, plan_delivery, ledger_entry,
  request_version, save_request, record_delivery_in,
}

-- The request after a delivery: the delivered quantity grew by that of the command and does not
-- exceed what was requested, which is as before. A complete delivery reaches it and sets the
-- status delivered; any other leaves the status.
pub record IsDelivery (c : RecordMaterialDeliveryCommand) (old new : MaterialRequest) : Type 0 where
  pub quantity : new.quantity ≡ old.quantity
  pub grown : new.delivered_quantity ≡ old.delivered_quantity + c.quantity
  pub within : new.delivered_quantity ≤ new.quantity
  pub whole :
      c.complete_delivery ≡ true
      → (new.status ≡ MaterialRequestStatus.delivered) × (new.delivered_quantity ≡ new.quantity)
  pub partial : c.complete_delivery ≡ false → new.status ≡ old.status

plan_delivery-delivered :
    (x : Names) (current : Material) (request : MaterialRequest) (c : RecordMaterialDeliveryCommand)
    (plan : StockPlan) (quantity : ℕ)
    → plan_delivery x current request c ≡ ok (plan, quantity)
    → delivered request c ≡ ok quantity
unfolding plan_delivery
plan_delivery-delivered x current request c plan quantity h =
    let (_, _, h1) =
      result_of (raise_if (not (str_eq request.material_id current.id)) material_mutation) _ h in
    let (_, _, h2) =
      result_of
        (raise_if
          (not (
            same_request request.status MaterialRequestStatus.confirmed
            || same_request request.status MaterialRequestStatus.delayed))
          material_mutation)
        _ h1 in
    let (unit, _, h3) = result_of (ensure_same_unit x current.unit c.unit) _ h2 in
    let (_, _, h4) = result_of (ensure_same_unit x request.unit unit) _ h3 in
    let (n, fits, h5) = result_of (delivered request c) _ h4 in ground (arith, fits, h5)

delivered-IsDelivery :
    (old : MaterialRequest) (c : RecordMaterialDeliveryCommand) (n : ℕ)
    (status : MaterialRequestStatus)
    → old.delivered_quantity + c.quantity < precision_bound
    → delivered old c ≡ ok n
    → delivery_status old c ≡ ok status
    → IsDelivery c old (
        strip_request
          (record old { delivered_quantity = n; status = status; updated_at = c.occurred_at }))
unfolding delivered delivery_status
delivered-IsDelivery old c n status small fits moved =
    let exact = rounded-exact (old.delivered_quantity + c.quantity) small in
    record {
      quantity = refl;
      grown = ground (arith, exact, fits);
      within = ground (arith, fits);
      whole = λ all_of_it. (ground (arith, all_of_it), ground (arith, all_of_it, fits));
      partial = λ part. ground (arith, part);
    }

module _ (t : Texts) (x : Names) (access : ProjectAccessContext) where
  save_request-ok :
      (request : MaterialRequest) (c : RecordMaterialDeliveryCommand) (n : ℕ) (s : Session)
      (saved : MaterialRequest)
      → request.delivered_quantity + c.quantity < precision_bound
      → delivered request c ≡ ok n
      → (save_request t x access request c n s).0 ≡ ok saved
      → IsDelivery c request saved
        × (get (save_request t x access request c n s).1.requests request.project_id request.id
            ≡ some saved)
  unfolding save_request at_version
  save_request-ok request c n s saved small fits h =
      let (status, moved, h1, g1) = >>=-run (lift (delivery_status request c)) _ s h in
      let reading = request_version t x access c.project_id request.id in
      let (expected, _, h2, g2) = >>=-run reading _ s h1 in
      let next : MaterialRequest = record request {
        delivered_quantity = n;
        status = status;
        updated_at = c.occurred_at;
      } in
      let w =
        save_authorized-ok access request_entity next expected (reading s).1.requests saved h2 in
      (
        rw w.stored (delivered-IsDelivery request c n status small fits moved),
        ap (λ q. get q.1.requests request.project_id request.id) (g1 ∙ g2)
            ∙ Saved-get request_entity next saved expected (reading s).1.requests _ w,
      )

  -- A delivery whose writes return, the delivered quantities together having at most 28 digits in
  -- millionths, found its request and saved it with the quantity of the command added to the
  -- delivered one, which does not exceed the requested quantity. If the delivery is complete, the
  -- two are equal and the status is delivered, else the status is as before. The request is stored
  -- so under its key.
  pub record_delivery_in-IsDelivery :
      (context : MutationContext) (s : Session) (c : RecordMaterialDeliveryCommand)
      (v : MaterialMutationValue)
      → ((m : MaterialRequest)
          → get s.requests c.project_id c.request_id ≡ some m
          → m.delivered_quantity + c.quantity < precision_bound)
      → (record_delivery_in t x access c context s).0 ≡ ok v
      → (old new : MaterialRequest) × (get s.requests c.project_id c.request_id ≡ some old)
        × (v.request ≡ some new)
        × (get (record_delivery_in t x access c context s).1.requests old.project_id old.id
            ≡ some new)
        × IsDelivery c old new
  unfolding record_delivery_in
  record_delivery_in-IsDelivery context s c v small h =
      let fetching = on_materials (require_authorized access c.project_id c.material_id) in
      let (current, _, h1, g1) = >>=-run fetching _ s h in
      let s1 = (fetching s).1 in
      let reading = on_requests (require_authorized access c.project_id c.request_id) in
      let (request, read, h2, g2) = >>=-run reading _ s1 h1 in
      let s2 = (reading s1).1 in
      let ((plan, quantity), planned, h3, g3) =
        >>=-run (lift (plan_delivery x current request c)) _ s2 h2 in
      let next : Material = record current {
        available_quantity = plan.balance;
        updated_at = c.occurred_at;
      } in
      let saving =
        on_materials
          (save_authorized access (material_entity x) next (some c.expected_material_version)) in
      let (_, _, h4, g4) = >>=-run saving _ s2 h3 in
      let s3 = (saving s2).1 in
      let requesting = save_request t x access request c quantity in
      let (saved, done, h5, g5) = >>=-run requesting _ s3 h4 in
      let row = ledger_entry t context current.id plan c.reason context.occurred_at in
      let (_, _, h6, g6) =
        >>=-run (on_ledger (create (ledger_entity x) row)) _ (requesting s3).1 h5 in
      let (is_delivery, stored) =
        save_request-ok request c quantity s3 saved
          (small request
            (require_authorized-ok access c.project_id c.request_id s.requests request read))
          (plan_delivery-delivered x current request c plan quantity planned) done in
      (
        request,
        saved,
        require_authorized-ok access c.project_id c.request_id s.requests request read,
        ground (arith, h6),
        ap (λ q. get q.1.requests request.project_id request.id)
              (g1 ∙ (g2 ∙ (g3 ∙ (g4 ∙ (g5 ∙ g6)))))
            ∙ stored,
        is_delivery,
      )
