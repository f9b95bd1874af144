-- ===== src/Services/Materials/Commands.antt =====
-- The commands of app/services/materials.py with the checks of their validators, the check of a
-- material's identity, and the id of a ledger entry.
use Prim.Native.String.{◌++◌, slice}
use ogaforeman.Base.{
  ℕ, String, Bool, ◌&&◌, ◌||◌, not, Option, List, [], ◌∷◌, ◌==◌, distinct, mem, str_eq, Result, ok,
  raise_if, ◌>>=◌, ◌>>◌, validation_error, material_mutation,
}
use ogaforeman.Base.Int.{ℤ, pos_part, neg_part}
use ogaforeman.Domain.Task.{is_none}
use ogaforeman.Domain.Activity.{Texts, MutationContext, scope_text}
use ogaforeman.Domain.Material.{
  Names, Material, normalize_material_name, canonicalize_unit, unit_alias,
}

pub record MaterialQuantityCommand : Type 0 where
  pub project_id : String
  pub material_id_or_alias : String
  pub quantity_delta : ℤ
  pub unit : String
  pub expected_version : ℕ
  pub reason : String
  pub occurred_at : ℕ

pub record SetMaterialQuantityCommand : Type 0 where
  pub project_id : String
  pub material_id_or_alias : String
  pub quantity : ℕ
  pub unit : String
  pub expected_version : ℕ
  pub reason : String
  pub occurred_at : ℕ

pub record UpdateMaterialDetailsCommand : Type 0 where
  pub project_id : String
  pub material_id : String
  pub expected_version : ℕ
  pub required_quantity : Option ℕ
  pub note : Option String
  pub occurred_at : ℕ

pub record RecordMaterialDeliveryCommand : Type 0 where
  pub project_id : String
  pub material_id : String
  pub request_id : String
  pub quantity : ℕ
  pub unit : String
  pub expected_material_version : ℕ
  pub complete_delivery : Bool
  pub reason : String
  pub occurred_at : ℕ

-- `quantity_delta == 0`
abbrev pub is_zero : ℤ → Bool
is_zero z = pos_part z == 0 && neg_part z == 0

-- `validate_delta`: pydantic turns what `canonicalize_unit` raises into its own error
unfoldable pub validate_delta : Names → MaterialQuantityCommand → Result (Unit {0})
validate_delta x c =
    raise_if (is_zero c.quantity_delta || is_none (unit_alias x c.unit)) validation_error

-- `require_one_change`
unfoldable pub require_one_change : UpdateMaterialDetailsCommand → Result (Unit {0})
require_one_change c =
    raise_if
      (is_none c.required_quantity && is_none c.note
        || not (is_none c.required_quantity) && not (is_none c.note))
      validation_error

-- `[f(a) for a in xs]`, where `f` may raise
unfoldable pub map_result {ℓ κ} :
    {A : Type ℓ} {B : Type κ} → (A → Result B) → List A → Result (List B)
map_result f [] = ok []
map_result f (a ∷ rest) = do b ← f a; others ← map_result f rest; ok (b ∷ others)

-- `_validate_material_identity`
unfoldable pub validate_material_identity : Names → Material → Result (Unit {0})
unfolding map_result
validate_material_identity x a = do
  normalized_name ← normalize_material_name x a.name
  raise_if (not (str_eq a.normalized_name normalized_name)) material_mutation
  aliases ← map_result (normalize_material_name x) a.aliases
  raise_if (mem normalized_name aliases || not (distinct aliases)) material_mutation
  canonical ← canonicalize_unit x a.unit
  raise_if (not (str_eq canonical a.unit)) material_mutation

-- `_ledger_id`
unfoldable pub ledger_id : Texts → MutationContext → String
ledger_id t context = "mle_" ++ slice (t.hexdigest (scope_text context)) 0 32
