-- ===== src/Domain/Material.antt =====
-- `Material` and `MaterialRequest` of app/domain/models.py and `MaterialLedgerEntry` of
-- app/domain/materials.py with the checks of their validators, names and units. Quantities are
-- counted in millionths of a unit; a delta is signed. What Python's Unicode functions do to a text
-- is a parameter, `Names`.
use Prim.Native.String.{count}
use ogaforeman.Base.{
  ℕ, refl, String, Bool, true, false, ◌&&◌, ◌||◌, not, Option, none, some, List, [], ◌∷◌, ltb, ◌==◌,
  str_eq, distinct, length, map, Result, ok, err, ◌>>=◌, ◌>>◌, raise_if, validation_error,
  value_error, unknown_material_unit, material_unit_mismatch,
}
use ogaforeman.Base.Dict
use ogaforeman.Base.Dict.{Dict}
use ogaforeman.Base.Int.{ℤ, pos_part, neg_part}
use ogaforeman.Domain.Enums.{MaterialRequestStatus, same_request}
use ogaforeman.Domain.Task.{is_none}
use ogaforeman.Base.Strip.{strip, strip_option, strip_all}
use ogaforeman.Repositories.Memory.{Entity, no_version}

pub record Material : Type 0 where
  pub id : String
  pub project_id : String
  pub name : String
  pub normalized_name : String
  pub aliases : List String
  pub unit : String
  pub location : Option String
  pub available_quantity : ℕ
  pub reserved_quantity : ℕ
  pub minimum_required_quantity : ℕ
  pub upcoming_requirement_quantity : Option ℕ
  pub estimated_unit_cost : Option ℕ
  pub default_supplier : Option String
  pub notes : List String
  pub version : ℕ
  pub updated_at : ℕ

pub record MaterialRequest : Type 0 where
  pub id : String
  pub project_id : String
  pub material_id : String
  pub quantity : ℕ
  pub delivered_quantity : ℕ
  pub unit : String
  pub needed_by : Option ℕ
  pub reason : String
  pub source_event_id : String
  pub supplier : Option String
  pub estimated_total_cost : Option ℕ
  pub status : MaterialRequestStatus
  pub approval_id : Option String
  pub created_at : ℕ
  pub updated_at : ℕ

pub record MaterialLedgerEntry : Type 0 where
  pub id : String
  pub project_id : String
  pub material_id : String
  pub quantity_delta : ℤ
  pub unit : String
  pub balance_after : ℕ
  pub reason : String
  pub source_event_id : Option String
  pub agent_run_id : Option String
  pub actor_id : String
  pub idempotency_key : String
  pub created_at : ℕ

-- The texts as pydantic keeps them.
abbrev pub strip_material : Material → Material
strip_material r = record r {
  name = strip r.name;
  normalized_name = strip r.normalized_name;
  aliases = strip_all r.aliases;
  unit = strip r.unit;
  location = strip_option r.location;
  default_supplier = strip_option r.default_supplier;
  notes = strip_all r.notes;
}

-- The texts as pydantic keeps them.
abbrev pub strip_request : MaterialRequest → MaterialRequest
strip_request r = record r {
  unit = strip r.unit;
  reason = strip r.reason;
  supplier = strip_option r.supplier;
}

-- The texts as pydantic keeps them.
abbrev pub strip_entry : MaterialLedgerEntry → MaterialLedgerEntry
strip_entry r = record r { unit = strip r.unit; reason = strip r.reason }

-- `str.casefold`, and the texts that `normalize_material_name` and `canonicalize_unit` make with
-- `unicodedata.normalize`, `casefold`, `strip`, `split` and a regular expression; and `repr` of a text
pub record Names : Type 0 where
  pub casefold : String → String
  pub clean_name : String → String
  pub clean_unit : String → String
  pub repr : String → String

-- `_UNIT_ALIASES`
abbrev pub unit_aliases : Dict String
unit_aliases =
    ("bag", "bags")
    ∷ ("bags", "bags")
    ∷ ("block", "blocks")
    ∷ ("blocks", "blocks")
    ∷ ("piece", "pieces")
    ∷ ("pieces", "pieces")
    ∷ ("pices", "pieces")
    ∷ ("pc", "pieces")
    ∷ ("pcs", "pieces")
    ∷ ("unit", "units")
    ∷ ("units", "units")
    ∷ ("kg", "kg")
    ∷ ("kilogram", "kg")
    ∷ ("kilograms", "kg")
    ∷ ("ton", "tonnes")
    ∷ ("tons", "tonnes")
    ∷ ("tonne", "tonnes")
    ∷ ("tonnes", "tonnes")
    ∷ ("metric ton", "tonnes")
    ∷ ("metric tons", "tonnes")
    ∷ ("litre", "litres")
    ∷ ("litres", "litres")
    ∷ ("liter", "litres")
    ∷ ("liters", "litres")
    ∷ ("l", "litres")
    ∷ ("metre", "metres")
    ∷ ("metres", "metres")
    ∷ ("meter", "metres")
    ∷ ("meters", "metres")
    ∷ ("m", "metres")
    ∷ ("square metre", "m2")
    ∷ ("square metres", "m2")
    ∷ ("square meter", "m2")
    ∷ ("square meters", "m2")
    ∷ ("m2", "m2")
    ∷ ("m²", "m2")
    ∷ ("cubic metre", "m3")
    ∷ ("cubic metres", "m3")
    ∷ ("cubic meter", "m3")
    ∷ ("cubic meters", "m3")
    ∷ ("m3", "m3")
    ∷ ("m³", "m3")
    ∷ ("sheet", "sheets")
    ∷ ("sheets", "sheets")
    ∷ ("roll", "rolls")
    ∷ ("rolls", "rolls")
    ∷ ("trip", "trips")
    ∷ ("trips", "trips")
    ∷ ("load", "loads")
    ∷ ("loads", "loads")
    ∷ ("length", "lengths")
    ∷ ("lengths", "lengths")
    ∷ ("box", "boxes")
    ∷ ("boxes", "boxes")
    ∷ ("bucket", "buckets")
    ∷ ("buckets", "buckets")
    ∷ ("gallon", "gallons")
    ∷ ("gallons", "gallons")
    ∷ []

module _ (x : Names) where
  unfoldable pub normalize_material_name : String → Result String
  normalize_material_name value = do
    let normalized = x.clean_name value
    raise_if (str_eq normalized "") value_error
    raise_if (ltb 300 (count normalized)) value_error
    ok normalized

  -- the entry of the table for a unit
  unfoldable pub unit_alias : String → Option String
  unit_alias value = Dict.get unit_aliases (x.clean_unit value)

  unfoldable pub canonicalize_unit : String → Result String
  unfolding unit_alias
  canonicalize_unit value = elim (unit_alias value) [
    | none ↦ err unknown_material_unit
    | some unit ↦ ok unit
  ]

  unfoldable pub ensure_same_unit : String → String → Result String
  unfolding canonicalize_unit
  ensure_same_unit material_unit requested_unit = do
    canonical_material ← canonicalize_unit material_unit
    canonical_requested ← canonicalize_unit requested_unit
    raise_if (not (str_eq canonical_material canonical_requested)) material_unit_mismatch
    ok canonical_material

  -- The checks of `validate_stock` and the length of `notes`, each of which raises when it holds.
  unfoldable pub is_invalid_material : Material → Bool
  is_invalid_material a =
      ltb 100 (length a.notes)
      || (ltb a.available_quantity a.reserved_quantity || not (distinct (map x.casefold a.aliases)))

  unfoldable pub validate_material : Material → Result (Unit {0})
  unfolding is_invalid_material
  validate_material a = raise_if (is_invalid_material a) validation_error

  -- The delta is zero, the unit is not canonical, or the balance before the entry was negative.
  unfoldable pub is_invalid_entry : MaterialLedgerEntry → Bool
  unfolding unit_alias
  is_invalid_entry a =
      pos_part a.quantity_delta == 0 && neg_part a.quantity_delta == 0
      || (not (elim (unit_alias a.unit) [ none ↦ false | some unit ↦ str_eq unit a.unit ])
          || ltb a.balance_after (pos_part a.quantity_delta))

  unfoldable pub validate_entry : MaterialLedgerEntry → Result (Unit {0})
  unfolding is_invalid_entry
  validate_entry a = raise_if (is_invalid_entry a) validation_error

  abbrev pub material_entity : Entity Material
  material_entity = record {
    project_id = λ a. a.project_id;
    id = λ a. a.id;
    has_version = true;
    version = λ a. a.version;
    with_version = λ a n. record a { version = n };
    strip = strip_material;
    validate = validate_material;
    version-with_version = λ a n h. refl;
  }

  abbrev pub ledger_entity : Entity MaterialLedgerEntry
  ledger_entity = record {
    project_id = λ a. a.project_id;
    id = λ a. a.id;
    has_version = false;
    version = λ a. 0;
    with_version = λ a n. a;
    strip = strip_entry;
    validate = validate_entry;
    version-with_version = λ a n h. no_version h;
  }

-- The checks of `validate_approval_link` and `quantity > 0`.
unfoldable pub is_invalid_request : MaterialRequest → Bool
is_invalid_request a =
    a.quantity == 0
    || (ltb a.quantity a.delivered_quantity
        || not (same_request a.status MaterialRequestStatus.proposed)
          && (not (same_request a.status MaterialRequestStatus.cancelled) && is_none a.approval_id))

unfoldable pub validate_request : MaterialRequest → Result (Unit {0})
unfolding is_invalid_request
validate_request a = raise_if (is_invalid_request a) validation_error

abbrev pub request_entity : Entity MaterialRequest
request_entity = record {
  project_id = λ a. a.project_id;
  id = λ a. a.id;
  has_version = false;
  version = λ a. 0;
  with_version = λ a n. a;
  strip = strip_request;
  validate = validate_request;
  version-with_version = λ a n h. no_version h;
}
