-- ===== src/Services/ImportDiff/Index.antt =====
-- The indexes of app/services/project_import_diff.py: canonical entities by their normalized names.
use Prim.Native.Nat.{Ordering}
use Prim.Native.String.{compare as str_compare}
use ogaforeman.Base.{
  String, Bool, true, false, Option, none, some, List, [], ◌∷◌, mem, str_eq, if◌then◌else◌, Result,
  ok, ◌>>=◌, ◌>>◌, raise_if, value_error,
}
use ogaforeman.Base.Dict
use ogaforeman.Base.Dict.{Dict}

-- `unicodedata.normalize`, `casefold`, `strip`, `split` and a regular expression make this text of
-- the name of a task.
pub record TaskNames : Type 0 where
  pub clean_task : String → String

unfoldable pub normalize_task_name_for_match : TaskNames → String → Result String
normalize_task_name_for_match x value = do
  raise_if (str_eq (x.clean_task value) "") value_error
  ok (x.clean_task value)

-- `values[key].add(id)`, on a set as a list
unfoldable pub add_id : String → List String → List String
add_id id ids = if mem id ids then ids else id ∷ ids

abbrev pub ids_at : Dict (List String) → String → List String
ids_at index key = elim (Dict.get index key) [ none ↦ [] | some ids ↦ ids ]

unfoldable pub add_keys : List String → String → Dict (List String) → Dict (List String)
unfolding add_id
add_keys [] id index = index
add_keys (key ∷ keys) id index =
    add_keys keys id (Dict.put index key (add_id id (ids_at index key)))

-- The keys of each entity in turn; a name that cannot be normalized raises.
unfoldable pub index_entities {ℓ} :
    {A : Type ℓ}
    → (A → Result (List String))
    → (A → String)
    → List A
    → Dict (List String)
    → Result (Dict (List String))
unfolding add_keys
index_entities keys id [] index = ok index
index_entities keys id (a ∷ rest) index = do
  ks ← keys a
  index_entities keys id rest (add_keys ks (id a) index)

unfoldable pub place_text : String → List String → List String
place_text text [] = text ∷ []
place_text text (first ∷ rest) = elim (str_compare text first) [
  | Ordering.gt ↦ first ∷ place_text text rest
  | _ ↦ text ∷ first ∷ rest
]

-- `sorted(entity_ids)`
unfoldable pub sorted_texts : List String → List String
unfolding place_text
sorted_texts [] = []
sorted_texts (text ∷ rest) = place_text text (sorted_texts rest)

-- `_freeze_index`
unfoldable pub freeze_index : Dict (List String) → Dict (List String)
unfolding sorted_texts
freeze_index [] = []
freeze_index ((key, ids) ∷ rest) = (key, sorted_texts ids) ∷ freeze_index rest

-- `_CanonicalMatch`, by its ids, and `_match`
unfoldable pub match_in : Dict (List String) → String → List String
match_in index key = ids_at index key

unfoldable pub is_new : List String → Bool
is_new [] = true
is_new (id ∷ ids) = false

unfoldable pub is_ambiguous : List String → Bool
is_ambiguous [] = false
is_ambiguous (id ∷ []) = false
is_ambiguous (id ∷ other ∷ ids) = true

unfoldable pub unique_id : List String → Option String
unique_id [] = none
unique_id (id ∷ []) = some id
unique_id (id ∷ other ∷ ids) = none

unfoldable pub index_of {ℓ} :
    {A : Type ℓ} → (A → Result (List String)) → (A → String) → List A → Result (Dict (List String))
unfolding index_entities freeze_index
index_of keys id entities = do index ← index_entities keys id entities []; ok (freeze_index index)
