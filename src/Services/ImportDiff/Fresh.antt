-- ===== src/Services/ImportDiff/Fresh.antt =====
-- What the indexes of app/services/project_import_diff.py know: the names of the canonical entities.
use ogaforeman.Base.{
  ◌≡◌, refl, sym, ap, ◌∙◌, String, Bool, false, ◌&&◌, not, List, [], ◌∷◌, arith, any, mem, eq_iff,
  Result, ok, err, >>=-eq-ok,
}
use ogaforeman.Base.Dict
use ogaforeman.Base.Dict.{Dict, get-put}
use ogaforeman.Services.ImportDiff.Index.{
  add_id, ids_at, add_keys, index_entities, place_text, sorted_texts, freeze_index, match_in,
  is_new, index_of,
}

-- An entity has a key.
pub has_key {ℓ} : {A : Type ℓ} → (A → Result (List String)) → String → A → Bool
has_key keys key a = elim (keys a) [ err e ↦ false | ok ks ↦ mem key ks ]

add_id-is_new : (id : String) (ids : List String) → is_new (add_id id ids) ≡ false
unfolding add_id is_new
add_id-is_new id [] = refl
add_id-is_new id (x ∷ ids) = ground arith

add_keys-is_new :
    (ks : List String) (id k : String) (index : Dict (List String))
    → is_new (ids_at (add_keys ks id index) k) ≡ (is_new (ids_at index k) && not (mem k ks))
unfolding add_keys
add_keys-is_new [] id k index = ground arith
add_keys-is_new (key ∷ ks) id k index = ground (
  arith,
  add_keys-is_new ks id k (Dict.put index key (add_id id (ids_at index key))),
  get-put index key k (add_id id (ids_at index key)),
  add_id-is_new id (ids_at index key),
  eq_iff key k,
  eq_iff k key,
)

module _ {ℓ} {A : Type ℓ} (keys : A → Result (List String)) (id : A → String) where
  index_entities-is_new :
      (es : List A) (index index' : Dict (List String)) (k : String)
      → index_entities keys id es index ≡ ok index'
      → is_new (ids_at index' k) ≡ (is_new (ids_at index k) && not (any (has_key keys k) es))
  unfolding index_entities has_key
  index_entities-is_new [] index index' k h = ground (arith, h)
  index_entities-is_new (a ∷ es) index index' k h =
      let (ks, made, rest) = >>=-eq-ok (keys a) _ h in
      ground (
        arith,
        made,
        index_entities-is_new es (add_keys ks (id a) index) index' k rest,
        add_keys-is_new ks (id a) k index,
      )

place_text-is_new : (text : String) (ids : List String) → is_new (place_text text ids) ≡ false
unfolding place_text is_new
place_text-is_new text [] = refl
place_text-is_new text (x ∷ ids) = ground arith

sorted_texts-is_new : (ids : List String) → is_new (sorted_texts ids) ≡ is_new ids
unfolding sorted_texts is_new
sorted_texts-is_new [] = refl
sorted_texts-is_new (x ∷ ids) = place_text-is_new x (sorted_texts ids)

freeze_index-is_new :
    (index : Dict (List String)) (k : String)
    → is_new (ids_at (freeze_index index) k) ≡ is_new (ids_at index k)
unfolding freeze_index Dict.get
freeze_index-is_new [] k = refl
freeze_index-is_new ((key, ids) ∷ index) k =
    ground (arith, freeze_index-is_new index k, sorted_texts-is_new ids)

-- A key matches nothing in the index exactly when no entity has it.
pub index_of-is_new {ℓ} :
    {A : Type ℓ} (keys : A → Result (List String)) (id : A → String) (es : List A)
    (index : Dict (List String)) (k : String)
    → index_of keys id es ≡ ok index
    → is_new (match_in index k) ≡ not (any (has_key keys k) es)
unfolding index_of match_in is_new Dict.get
index_of-is_new keys id es index k h =
    let (found, made, rest) = >>=-eq-ok (index_entities keys id es []) _ h in
    let same : freeze_index found ≡ index = ground (arith, rest) in
    ap (λ d. is_new (ids_at d k)) (sym same)
    ∙ (freeze_index-is_new found k ∙ index_entities-is_new keys id es [] found k made)
