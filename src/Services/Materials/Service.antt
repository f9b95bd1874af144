-- ===== src/Services/Materials/Service.antt =====
-- `MaterialService` of app/services/materials.py, with `resolve_in` of
-- app/repositories/materials.py: each command is one mutation with its audit record.
use Prim.Native.String.{slice}
use ogaforeman.Base.{
  String, Bool, Option, none, some, List, [], ◌∷◌, mem, if◌then◌else◌, Result, ok, err,
  ◌>>=◌ as and_next, ◌>>◌ as check_then, runtime_error, entity_not_found,
  material_identity_conflict,
}
use ogaforeman.Base.Exec.{Exec, pure, lift, ◌>>=◌, ◌>>◌}
use ogaforeman.Domain.Authorization.{ProjectAccessContext, ProjectPermission, ensure_permission}
use ogaforeman.Domain.Activity.{Texts, Json, MutationContext, ActivitySpec, ActivityEvent}
use ogaforeman.Domain.Material.{
  Names, Material, MaterialRequest, MaterialLedgerEntry, normalize_material_name, ensure_same_unit,
}
use ogaforeman.Repositories.Memory.{Repo, get, list, require}
use ogaforeman.Services.Access.{authorize, authorize_user}
use ogaforeman.Services.Activity.{Mutation, MutationResult, mutate}
use ogaforeman.Services.Session.{
  Session, on_materials, on_requests, on_ledger, authorize_read, require_authorized,
}
use ogaforeman.Services.Materials.Commands.{
  MaterialQuantityCommand, SetMaterialQuantityCommand, UpdateMaterialDetailsCommand,
  RecordMaterialDeliveryCommand, validate_material_identity, ledger_id, map_result,
}
use ogaforeman.Services.Materials.Stock.{
  MaterialMutationValue, apply_quantity, set_quantity_in, update_details_in, record_delivery_in,
}

-- `MaterialChange` and `MaterialOperationChange`
pub record MaterialOperationChange : Type 0 where
  pub material : Material
  pub activity : ActivityEvent
  pub entry : Option MaterialLedgerEntry
  pub request : Option MaterialRequest
  pub duplicate : Bool

module _ (x : Names) where
  -- the names by which `resolve_in` knows a material
  unfoldable pub known_names : Material → Result (List String)
  known_names a = and_next (normalize_material_name x a.name) λ name.
      and_next (map_result (normalize_material_name x) a.aliases)
        λ aliases. ok (a.normalized_name ∷ name ∷ aliases)

  -- the materials of the list with that name
  unfoldable pub matches : String → List Material → Result (List Material)
  matches normalized [] = ok []
  matches normalized (a ∷ rest) = and_next (known_names a) λ names.
      and_next (matches normalized rest)
        λ others. ok (if mem normalized names then a ∷ others else others)

  abbrev the_only : List Material → Result Material
  the_only [] = err entity_not_found
  the_only (a ∷ []) = ok a
  the_only (a ∷ b ∷ rest) = err material_identity_conflict

  -- `resolve_in`, behind the read permission
  unfoldable pub resolve : ProjectAccessContext → String → Repo Material → Result Material
  resolve access material_id_or_alias repo =
      check_then (authorize_read access access.project_id)
        (elim (get repo access.project_id material_id_or_alias) [
          | some direct ↦ ok direct
          | none ↦
              and_next (normalize_material_name x material_id_or_alias)
                λ normalized. and_next (matches normalized (list repo access.project_id)) the_only
        ])

  unfoldable pub resolve_material : ProjectAccessContext → String → Session → Result Material
  resolve_material access material_id_or_alias s =
      check_then (ensure_permission access ProjectPermission.read) (
        and_next (resolve access material_id_or_alias s.materials)
          λ material. check_then (validate_material_identity x material) (ok material))

-- The replays: what the repositories hold now.
module _ (t : Texts) (access : ProjectAccessContext) (context : MutationContext) where
  unfoldable pub replay_operation : ActivityEvent → Exec Session (Option MaterialMutationValue)
  replay_operation activity = do
    material ← on_materials (require_authorized access access.project_id activity.entity_id)
    entry ← on_ledger (require access.project_id (ledger_id t context))
    pure (some (record { material = material; entry = some entry; request = none }))

  -- `_replay` of `update_quantity` reads the ledger behind the read permission.
  unfoldable pub replay_quantity : ActivityEvent → Exec Session (Option MaterialMutationValue)
  replay_quantity activity = do
    material ← on_materials (require_authorized access access.project_id activity.entity_id)
    entry ← on_ledger (require_authorized access access.project_id (ledger_id t context))
    pure (some (record { material = material; entry = some entry; request = none }))

  unfoldable pub replay_details : ActivityEvent → Exec Session (Option MaterialMutationValue)
  replay_details activity = do
    material ← on_materials (require_authorized access activity.project_id activity.entity_id)
    pure (some (record { material = material; entry = none; request = none }))

  unfoldable pub replay_delivery :
      String → ActivityEvent → Exec Session (Option MaterialMutationValue)
  replay_delivery request_id activity = do
    material ← on_materials (require_authorized access access.project_id activity.entity_id)
    entry ← on_ledger (require access.project_id (ledger_id t context))
    request ← on_requests (require_authorized access access.project_id request_id)
    pure (some (record { material = material; entry = some entry; request = some request }))

-- A mutation of materials. Its value is not a pydantic model.
abbrev material_change :
    Exec Session MaterialMutationValue
    → (ActivityEvent → Exec Session (Option MaterialMutationValue))
    → Mutation MaterialMutationValue
material_change apply replay = record { apply = apply; scope = λ v. none; replay = some replay }

abbrev change_of :
    MutationResult MaterialMutationValue → MaterialMutationValue → MaterialOperationChange
change_of r v = record {
  material = v.material;
  activity = r.activity;
  entry = v.entry;
  request = v.request;
  duplicate = r.duplicate;
}

-- The answer of the commands that must have a ledger entry.
unfoldable pub entered : MutationResult MaterialMutationValue → Result MaterialOperationChange
entered r = elim r.value [
  | none ↦ err runtime_error
  | some v ↦ elim v.entry [ none ↦ err runtime_error | some entry ↦ ok (change_of r v) ]
]

-- The answer of `update_details`.
unfoldable pub answered : MutationResult MaterialMutationValue → Result MaterialOperationChange
answered r = elim r.value [ none ↦ err runtime_error | some v ↦ ok (change_of r v) ]

abbrev material_spec : String → String → String → List (String × Json) → ActivitySpec
material_spec action id summary metadata = record {
  action = action;
  entity_type = "material";
  entity_id = id;
  summary = summary;
  metadata = metadata;
}

-- `_activity_spec`
unfoldable pub quantity_spec : Texts → MaterialQuantityCommand → String → ActivitySpec
quantity_spec t c id =
    material_spec "material.quantity_updated" id "Material stock quantity updated" (
      ("quantity_delta", Json.text (t.signed_text c.quantity_delta))
      ∷ ("unit", Json.text c.unit)
      ∷ ("reason_digest", Json.text (slice (t.hexdigest c.reason) 0 16))
      ∷ [])

-- `_details_activity_spec`
unfoldable pub details_spec : Texts → UpdateMaterialDetailsCommand → ActivitySpec
details_spec t c = elim c.required_quantity [
  | some quantity ↦
      material_spec "material.required_quantity_updated" c.material_id
        "Material required quantity updated"
        (("required_quantity", Json.text (t.decimal_text quantity)) ∷ [])
  | none ↦ material_spec "material.note_added" c.material_id "Material note added" (
      ("note_digest", Json.text (slice (t.hexdigest (elim c.note [ none ↦ "" | some n ↦ n ])) 0 16))
      ∷ [])
]

module _ (t : Texts) (x : Names) (access : ProjectAccessContext) where
  unfoldable pub update_quantity :
      MaterialQuantityCommand → MutationContext → Exec Session MaterialOperationChange
  update_quantity c context s =
      (do
        lift (authorize access c.project_id context)
        resolved ← lift (resolve_material x access c.material_id_or_alias s)
        unit ← lift (ensure_same_unit x resolved.unit c.unit)
        let canonical : MaterialQuantityCommand = record c {
          material_id_or_alias = resolved.id;
          unit = unit;
        }
        result ←
            mutate
              (material_change (apply_quantity t x access canonical context resolved.id)
                (replay_quantity t access context))
              t (some context) (quantity_spec t canonical resolved.id) []
        lift (entered result))
        s

  unfoldable pub set_quantity :
      SetMaterialQuantityCommand → MutationContext → Exec Session MaterialOperationChange
  set_quantity c context s =
      (do
        lift (authorize_user access c.project_id context)
        resolved ← lift (resolve_material x access c.material_id_or_alias s)
        unit ← lift (ensure_same_unit x resolved.unit c.unit)
        let canonical : SetMaterialQuantityCommand = record c {
          material_id_or_alias = resolved.id;
          unit = unit;
        }
        result ←
            mutate
              (material_change (set_quantity_in t x access canonical context resolved.id)
                (replay_operation t access context))
              t (some context)
              (material_spec "material.quantity_set" resolved.id "Material stock quantity set" (
                ("quantity", Json.text (t.decimal_text c.quantity))
                ∷ ("unit", Json.text unit)
                ∷ []))
              []
        lift (entered result))
        s

  unfoldable pub update_details :
      UpdateMaterialDetailsCommand → MutationContext → Exec Session MaterialOperationChange
  update_details c context = do
    lift (authorize_user access c.project_id context)
    result ←
        mutate (material_change (update_details_in t x access c) (replay_details t access context))
          t (some context) (details_spec t c) []
    lift (answered result)

  unfoldable pub record_delivery :
      RecordMaterialDeliveryCommand → MutationContext → Exec Session MaterialOperationChange
  record_delivery c context s =
      (do
        lift (authorize_user access c.project_id context)
        resolved ← lift (resolve_material x access c.material_id s)
        unit ← lift (ensure_same_unit x resolved.unit c.unit)
        let canonical : RecordMaterialDeliveryCommand = record c { unit = unit }
        result ←
            mutate
              (material_change (record_delivery_in t x access canonical context)
                (replay_delivery t access context c.request_id))
              t (some context)
              (material_spec "material.delivery_recorded" c.material_id "Material delivery recorded"
                (("quantity", Json.text (t.decimal_text c.quantity))
                  ∷ ("unit", Json.text unit)
                  ∷ ("request_id", Json.text c.request_id)
                  ∷ ("complete", Json.boolean c.complete_delivery)
                  ∷ []))
              []
        lift (entered result))
        s
