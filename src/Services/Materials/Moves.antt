-- ===== src/Services/Materials/Moves.antt =====
-- Stock and ledger move together (app/services/materials.py).
use mathlib.Core.Path.{subst}
use ogaforeman.Base.{
  ℕ, ◌+◌, ◌<◌, Option, none, sym, ◌∙◌, refl, ◌≤◌, ◌≡◌, ap, String, some, arith, ok,
}
use ogaforeman.Base.Int.{pos, ◌+ℤ◌, pos_part, neg_part}
use ogaforeman.Domain.Decimal.{precision_bound}
use ogaforeman.Base.Exec.{lift, >>=-run, >>=-read}
use ogaforeman.Domain.Authorization.{ProjectAccessContext}
use ogaforeman.Domain.Activity.{Texts, MutationContext}
use ogaforeman.Domain.Material.{
  Names, Material, MaterialRequest, MaterialLedgerEntry, material_entity, ledger_entity,
}
use ogaforeman.Repositories.Memory.{get, create, at_version}
use ogaforeman.Repositories.Memory.Guards.{
  Saved, Created, Saved-get, Created-get, Created-free, create-ok,
}
use ogaforeman.Services.Session.{
  Session, on_materials, on_requests, on_ledger, require_authorized, save_authorized,
  create_authorized,
}
use ogaforeman.Services.Session.Calls.{
  require_authorized-ok, require_authorized-keeps, save_authorized-ok, create_authorized-ok,
}
use ogaforeman.Services.Materials.Plans.{
  covers_reserved, plan_quantity-ok, plan_set-ok, plan_delivery-ok,
}
use ogaforeman.Services.Materials.Commands.{
  MaterialQuantityCommand, SetMaterialQuantityCommand, RecordMaterialDeliveryCommand,
}
use ogaforeman.Services.Materials.Stock.{
  MaterialMutationValue, StockPlan, plan_quantity, plan_set, plan_delivery, restocked, ledger_entry,
  save_request, request_version, apply_quantity, set_quantity_in, record_delivery_in,
}

-- A change of the stock of one material with its ledger entry: the new stock is the stock before
-- and the delta of the entry, the entry states the new stock as its balance, and the stock still
-- covers what is reserved. Afterwards the material is stored with the new stock, and the ledger
-- holds the entry, under an id that was free.
pub record IsMove (s s' : Session) (p material_id : String) (v : MaterialMutationValue)
    : Type 0 where
  pub old : Material
  pub entry : MaterialLedgerEntry
  pub was : get s.materials p material_id ≡ some old
  pub written : v.entry ≡ some entry
  pub moved : pos v.material.available_quantity ≡ pos old.available_quantity +ℤ entry.quantity_delta
  pub balanced : entry.balance_after ≡ v.material.available_quantity
  pub reserved : v.material.reserved_quantity ≤ v.material.available_quantity
  pub same_id : v.material.id ≡ old.id
  pub stored : get s'.materials v.material.project_id v.material.id ≡ some v.material
  pub was_free : get s.ledger entry.project_id entry.id ≡ none
  pub recorded : get s'.ledger entry.project_id entry.id ≡ some entry

-- A material and an entry that were written for a plan, the material as a copy of the old one.
IsMove-of :
    (x : Names) (s s' : Session) (p id : String) (v : MaterialMutationValue)
    (old next updated : Material) (row entry : MaterialLedgerEntry) (plan : StockPlan)
    (expected : Option ℕ)
    → get s.materials p id ≡ some old
    → pos plan.balance ≡ pos old.available_quantity +ℤ plan.delta
    → next.available_quantity ≡ plan.balance
    → next.id ≡ old.id
    → row.quantity_delta ≡ plan.delta
    → row.balance_after ≡ plan.balance
    → Saved (material_entity x) next expected s.materials s'.materials updated
    → Created (ledger_entity x) row s.ledger s'.ledger entry
    → v.material ≡ updated
    → v.entry ≡ some entry
    → IsMove s s' p id v
unfolding at_version
IsMove-of x s s' p id v old next updated row entry plan expected was planned stock same_id delta
      balance w e same written =
    let now : updated.available_quantity ≡ plan.balance =
      ap (λ (m : Material). m.available_quantity) w.stored ∙ stock in
    let entry_delta : entry.quantity_delta ≡ plan.delta =
      ap (λ (l : MaterialLedgerEntry). l.quantity_delta) e.same ∙ delta in
    let entry_balance : entry.balance_after ≡ plan.balance =
      ap (λ (l : MaterialLedgerEntry). l.balance_after) e.same ∙ balance in
    let in_stock : get s'.materials updated.project_id updated.id ≡ some updated =
      ap (λ (m : Material). get s'.materials m.project_id m.id) w.stored
      ∙ Saved-get (material_entity x) next updated expected s.materials s'.materials w in
    record {
      old = old;
      entry = entry;
      was = was;
      written = written;
      moved = ground (arith, planned, now, entry_delta, same);
      balanced = ground (arith, now, entry_balance, same);
      reserved = rw same (covers_reserved x updated w.valid);
      same_id = rw same (ap (λ (m : Material). m.id) w.stored ∙ same_id);
      stored = rw same in_stock;
      was_free =
          ap (λ (l : MaterialLedgerEntry). get s.ledger l.project_id l.id) e.same
          ∙ Created-free (ledger_entity x) row entry s.ledger s'.ledger e;
      recorded =
          ap (λ (l : MaterialLedgerEntry). get s'.ledger l.project_id l.id) e.same
          ∙ Created-get (ledger_entity x) row entry s.ledger s'.ledger e;
    }

-- The writes to the requests leave the other repositories alone.
save_request-frame :
    (t : Texts) (x : Names) (access : ProjectAccessContext) (request : MaterialRequest)
    (c : RecordMaterialDeliveryCommand) (n : ℕ) (s : Session)
    → ((save_request t x access request c n s).1.materials ≡ s.materials)
      × ((save_request t x access request c n s).1.ledger ≡ s.ledger)
unfolding save_request request_version
save_request-frame t x access request c n s = (ground arith, ground arith)

module _ (t : Texts) (x : Names) (access : ProjectAccessContext) (context : MutationContext)
    (s : Session) where
  keeps_materials : (p id : String) → (on_materials (require_authorized access p id) s).1 ≡ s
  keeps_materials p id =
      ap (λ repo. record s { materials = repo }) (require_authorized-keeps access p id s.materials)

  keeps_requests :
      (c : RecordMaterialDeliveryCommand)
      → (on_requests (require_authorized access c.project_id c.request_id) s).1 ≡ s
  keeps_requests c =
      ap (λ repo. record s { requests = repo })
        (require_authorized-keeps access c.project_id c.request_id s.requests)

  -- A change of a quantity that returns, the stock before and the quantity together having at most
  -- 28 digits in millionths, moved the stock of its material and the ledger together: the material
  -- is stored with the new stock, which is the old one and the delta of the entry, and the ledger
  -- holds the entry, with the new stock as its balance, under an id that was free.
  pub apply_quantity-IsMove :
      (c : MaterialQuantityCommand) (id : String) (v : MaterialMutationValue)
      → ((m : Material)
          → get s.materials c.project_id id ≡ some m
          → m.available_quantity + (pos_part c.quantity_delta + neg_part c.quantity_delta)
            < precision_bound)
      → (apply_quantity t x access c context id s).0 ≡ ok v
      → IsMove s (apply_quantity t x access c context id s).1 c.project_id id v
  unfolding apply_quantity at_version ledger_entry
  apply_quantity-IsMove c id v small h =
      let (current, read, h1, g1) =
        >>=-read (on_materials (require_authorized access c.project_id id)) _ s
          (keeps_materials c.project_id id) h in
      let (plan, planned, h2, g2) = >>=-run (lift (plan_quantity x current c)) _ s h1 in
      let next = restocked current plan c.occurred_at in
      let saving =
        on_materials (save_authorized access (material_entity x) next (some c.expected_version)) in
      let (updated, saved, h3, g3) = >>=-run saving _ s h2 in
      let s2 = (saving s).1 in
      let row : MaterialLedgerEntry =
        record (ledger_entry t context id plan c.reason c.occurred_at) {
          project_id = c.project_id;
        } in
      let (entry, made, h4, g4) =
        >>=-run (on_ledger (create_authorized access (ledger_entity x) row)) _ s2 h3 in
      let w =
        save_authorized-ok access (material_entity x) next (some c.expected_version) s.materials
          updated saved in
      let e = create_authorized-ok access (ledger_entity x) row s2.ledger entry made in
      let end = (on_ledger (create_authorized access (ledger_entity x) row) s2).1 in
      subst (λ q. IsMove s q.1 c.project_id id v) (sym (g1 ∙ (g2 ∙ (g3 ∙ g4))))
        (IsMove-of x s end c.project_id id v current next updated row entry plan
          (some c.expected_version)
          (require_authorized-ok access c.project_id id s.materials current read)
          (plan_quantity-ok x current c plan
            (small current (require_authorized-ok access c.project_id id s.materials current read))
            planned)
          refl refl refl refl w e (ground (arith, h4)) (ground (arith, h4)))

  -- A stock-taking that returns, the stock before and the quantity each having at most 28 digits
  -- in millionths, moved the stock of its material and the ledger together: the material is stored
  -- with the new stock, which is the old one and the delta of the entry, and the ledger holds the
  -- entry, with the new stock as its balance, under an id that was free.
  pub set_quantity_in-IsMove :
      (c : SetMaterialQuantityCommand) (id : String) (v : MaterialMutationValue)
      → ((m : Material)
          → get s.materials c.project_id id ≡ some m
          → m.available_quantity < precision_bound)
      → c.quantity < precision_bound
      → (set_quantity_in t x access c context id s).0 ≡ ok v
      → IsMove s (set_quantity_in t x access c context id s).1 c.project_id id v
  unfolding set_quantity_in at_version ledger_entry
  set_quantity_in-IsMove c id v small_stock small h =
      let (current, read, h1, g1) =
        >>=-read (on_materials (require_authorized access c.project_id id)) _ s
          (keeps_materials c.project_id id) h in
      let (plan, planned, h2, g2) = >>=-run (lift (plan_set x current c)) _ s h1 in
      let next : Material = record current {
        available_quantity = plan.balance;
        updated_at = c.occurred_at;
      } in
      let saving =
        on_materials (save_authorized access (material_entity x) next (some c.expected_version)) in
      let (updated, saved, h3, g3) = >>=-run saving _ s h2 in
      let s2 = (saving s).1 in
      let row = ledger_entry t context id plan c.reason context.occurred_at in
      let (entry, made, h4, g4) = >>=-run (on_ledger (create (ledger_entity x) row)) _ s2 h3 in
      let w =
        save_authorized-ok access (material_entity x) next (some c.expected_version) s.materials
          updated saved in
      let e = create-ok (ledger_entity x) row s2.ledger entry made in
      let end = (on_ledger (create (ledger_entity x) row) s2).1 in
      subst (λ q. IsMove s q.1 c.project_id id v) (sym (g1 ∙ (g2 ∙ (g3 ∙ g4))))
        (IsMove-of x s end c.project_id id v current next updated row entry plan
          (some c.expected_version)
          (require_authorized-ok access c.project_id id s.materials current read)
          (plan_set-ok x current c plan
            (small_stock current
              (require_authorized-ok access c.project_id id s.materials current read))
            small planned)
          refl refl refl refl w e (ground (arith, h4)) (ground (arith, h4)))

  -- A delivery that returns, the stock before and the quantity together having at most 28 digits
  -- in millionths, moved the stock of its material and the ledger together: the material is stored
  -- with the new stock, which is the old one and the delta of the entry, and the ledger holds the
  -- entry, with the new stock as its balance, under an id that was free.
  pub record_delivery_in-IsMove :
      (c : RecordMaterialDeliveryCommand) (v : MaterialMutationValue)
      → ((m : Material)
          → get s.materials c.project_id c.material_id ≡ some m
          → m.available_quantity + c.quantity < precision_bound)
      → (record_delivery_in t x access c context s).0 ≡ ok v
      → IsMove s (record_delivery_in t x access c context s).1 c.project_id c.material_id v
  unfolding record_delivery_in at_version ledger_entry
  record_delivery_in-IsMove c v small h =
      let (current, read, h1, g1) =
        >>=-read (on_materials (require_authorized access c.project_id c.material_id)) _ s
          (keeps_materials c.project_id c.material_id) h in
      let reading = on_requests (require_authorized access c.project_id c.request_id) in
      let (request, _, h2, g2) = >>=-read reading _ s (keeps_requests c) h1 in
      let ((plan, quantity), planned, h3, g3) =
        >>=-run (lift (plan_delivery x current request c)) _ s h2 in
      let next : Material = record current {
        available_quantity = plan.balance;
        updated_at = c.occurred_at;
      } in
      let saving =
        on_materials
          (save_authorized access (material_entity x) next (some c.expected_material_version)) in
      let (updated, saved, h4, g4) = >>=-run saving _ s h3 in
      let s3 = (saving s).1 in
      let requesting = save_request t x access request c quantity in
      let (_, _, h5, g5) = >>=-run requesting _ s3 h4 in
      let s4 = (requesting s3).1 in
      let row = ledger_entry t context current.id plan c.reason context.occurred_at in
      let (entry, made, h6, g6) = >>=-run (on_ledger (create (ledger_entity x) row)) _ s4 h5 in
      let (same_materials, same_ledger) = save_request-frame t x access request c quantity s3 in
      let w =
        save_authorized-ok access (material_entity x) next (some c.expected_material_version)
          s.materials updated saved in
      let e = create-ok (ledger_entity x) row s4.ledger entry made in
      let end = (on_ledger (create (ledger_entity x) row) s4).1 in
      subst (λ q. IsMove s q.1 c.project_id c.material_id v)
        (sym (g1 ∙ (g2 ∙ (g3 ∙ (g4 ∙ (g5 ∙ g6))))))
        (IsMove-of x s end c.project_id c.material_id v current next updated row entry plan
          (some c.expected_material_version)
          (require_authorized-ok access c.project_id c.material_id s.materials current read)
          (plan_delivery-ok x current request c plan quantity
            (small current
              (require_authorized-ok access c.project_id c.material_id s.materials current read))
            planned)
          refl refl refl refl
          (subst
            (λ repo.
              Saved (material_entity x) next (some c.expected_material_version) s.materials repo
                updated)
            (sym same_materials) w)
          (subst (λ repo. Created (ledger_entity x) row repo end.ledger entry) same_ledger e)
          (ground (arith, h6)) (ground (arith, h6)))
