-- ===== src/Services/ImportDiff/Additive.antt =====
-- When app/services/project_import_diff.py lets an import pass.
use ogaforeman.Base.{
  ◌≡◌, ◌↔◌, refl, ◌∙◌, String, Bool, true, false, ◌&&◌, not, some, List, [], ◌∷◌, ◌++◌ as append,
  arith, any, all, Result, ok, err, >>=-eq-ok,
}
use ogaforeman.Base.Dict
use ogaforeman.Base.Dict.{Dict, get-put}
use ogaforeman.Domain.Task.{Task}
use ogaforeman.Domain.Material.{Names, Material, normalize_material_name}
use ogaforeman.Domain.ImportDraft.{
  PhaseDraft, TaskDraft, DependencyDraft, MaterialDraft, MaterialRequirementDraft, MilestoneDraft,
  ProjectImportDraft, MaterialRequirement,
}
use ogaforeman.Services.ImportDiff.Entities.{
  EntityDiff, is_added, identity_diff, dependency_diff, requirement_diff,
}
use ogaforeman.Services.ImportDiff.Index.{
  TaskNames, normalize_task_name_for_match, index_of, match_in, is_new, unique_id,
}
use ogaforeman.Services.ImportDiff.{
  each, match_at, Row, matches_of, diffs_of, Canon, task_keys, phase_keys, material_keys, named_row,
  material_diff, material_row, dependency_row, requirement_row, ensure_additive,
}
use ogaforeman.Services.ImportDiff.Fresh.{has_key, index_of-is_new}

-- Nothing blocks exactly when every difference adds.
pub ensure_additive_iff :
    (diffs : List EntityDiff) → (ensure_additive diffs ≡ ok tt) ↔ (all is_added diffs ≡ true)
unfolding ensure_additive
ensure_additive_iff [] = ground arith
ensure_additive_iff (d ∷ diffs) = ground (arith, ensure_additive_iff diffs)

pub all-append {ℓ} :
    {A : Type ℓ} (test : A → Bool) (xs ys : List A)
    → all test (append xs ys) ≡ (all test xs && all test ys)
all-append test [] ys = refl
all-append test (x ∷ xs) ys = ground (arith, all-append test xs ys)

-- What holds of each result holds of all.
pub each-all {ℓ κ} :
    {A : Type ℓ} {B : Type κ} (f : A → Result B) (test : B → Bool) (spec : A → Bool)
    → ((a : A) (b : B) → f a ≡ ok b → test b ≡ spec a)
    → (xs : List A) (ys : List B) → each f xs ≡ ok ys
    → all test ys ≡ all spec xs
unfolding each
each-all f test spec law [] ys h = ground (arith, h)
each-all f test spec law (x ∷ xs) ys h =
    let (b, made, rest) = >>=-eq-ok (f x) _ h in
    let (bs, others, done) = >>=-eq-ok (each f xs) _ rest in
    ground (arith, law x b made, each-all f test spec law xs bs others, done)

identity_diff-is_added :
    (entity_type temp_id name : String) (found : List String)
    → is_added (identity_diff entity_type temp_id name found) ≡ is_new found
unfolding identity_diff is_new
identity_diff-is_added entity_type temp_id name [] = refl
identity_diff-is_added entity_type temp_id name (i ∷ []) = ground arith
identity_diff-is_added entity_type temp_id name (i ∷ j ∷ ids) = ground arith

-- A row adds exactly when it matches nothing.
pub is_fresh : Row → Bool
is_fresh row = is_new row.found

-- Rows that match nothing give a dict of empty matches.
unfoldable pub IsFreshDict : Dict (List String) → Type 0
IsFreshDict d = (k : String) (ids : List String) → Dict.get d k ≡ some ids → is_new ids ≡ true

pub matches_of-IsFreshDict :
    (rows : List Row) (d : Dict (List String))
    → all is_fresh rows ≡ true
    → IsFreshDict d
    → IsFreshDict (matches_of rows d)
unfolding matches_of IsFreshDict is_fresh
matches_of-IsFreshDict [] d h fresh = fresh
matches_of-IsFreshDict (row ∷ rows) d h fresh =
    matches_of-IsFreshDict rows (Dict.put d row.temp_id row.found) (ground arith)
      (λ k ids e. ground (arith, get-put d row.temp_id k row.found, fresh k ids))

pub dependency_row-is_added :
    (t : TaskNames) (x : Names) (found : Dict (List String)) (tasks : List Task)
    (d : DependencyDraft) (diff : EntityDiff)
    → IsFreshDict found
    → dependency_row t x found tasks d ≡ ok diff
    → is_added diff ≡ true
unfolding dependency_row dependency_diff match_at IsFreshDict
dependency_row-is_added t x found tasks d diff fresh h =
    let (p, before, rest) = >>=-eq-ok (match_at found d.predecessor_temp_id) _ h in
    let (s, after, made) = >>=-eq-ok (match_at found d.successor_temp_id) _ rest in
    let p_new : is_new p ≡ true = ground (arith, before, fresh d.predecessor_temp_id p) in
    let s_new : is_new s ≡ true = ground (arith, after, fresh d.successor_temp_id s) in
    ground (arith, made, p_new, s_new)

pub requirement_row-is_added :
    (t : TaskNames) (x : Names) (tasks materials : Dict (List String))
    (requirements : List MaterialRequirement) (r : MaterialRequirementDraft) (diff : EntityDiff)
    → IsFreshDict tasks
    → IsFreshDict materials
    → requirement_row t x tasks materials requirements r ≡ ok diff
    → is_added diff ≡ true
unfolding requirement_row requirement_diff match_at IsFreshDict
requirement_row-is_added t x tasks materials requirements r diff fresh fresh' h =
    let (k, before, rest) = >>=-eq-ok (match_at tasks r.task_temp_id) _ h in
    let (m, after, made) = >>=-eq-ok (match_at materials r.material_temp_id) _ rest in
    let k_new : is_new k ≡ true = ground (arith, before, fresh r.task_temp_id k) in
    let m_new : is_new m ≡ true = ground (arith, after, fresh' r.material_temp_id m) in
    ground (arith, made, k_new, m_new)

material_diff-is_added :
    (t : TaskNames) (x : Names) (m : MaterialDraft) (found : List String)
    (materials : List Material) (diff : EntityDiff)
    → material_diff t x m found materials ≡ ok diff
    → is_added diff ≡ is_new found
unfolding material_diff unique_id is_new
material_diff-is_added t x m [] materials diff h =
    ground (arith, h, identity_diff-is_added "material" m.temp_id m.name [])
material_diff-is_added t x m (i ∷ []) materials diff h =
    ground (arith, h, identity_diff-is_added "material" m.temp_id m.name (i ∷ []))
material_diff-is_added t x m (i ∷ j ∷ ids) materials diff h =
    ground (arith, h, identity_diff-is_added "material" m.temp_id m.name (i ∷ j ∷ ids))

-- The key of a name is not a key of an entity.
pub is_unknown {ℓ} : {A : Type ℓ} → (A → Result (List String)) → List A → Result String → Bool
is_unknown keys es (err e) = false
is_unknown keys es (ok key) = not (any (has_key keys key) es)

module _ (t : TaskNames) (x : Names) where
  pub named_row-is_new :
      {A : Type 0} (keys : A → Result (List String)) (id : A → String) (es : List A)
      (index : Dict (List String)) (entity_type temp_id name : String) (row : Row)
      → index_of keys id es ≡ ok index
      → named_row t x entity_type index temp_id name ≡ ok row
      → (is_fresh row ≡ is_unknown keys es (normalize_task_name_for_match t name))
        × (is_added row.diff ≡ is_unknown keys es (normalize_task_name_for_match t name))
  unfolding named_row is_fresh is_unknown
  named_row-is_new keys id es index entity_type temp_id name row made h =
      let (key, normal, rest) = >>=-eq-ok (normalize_task_name_for_match t name) _ h in
      let known = index_of-is_new keys id es index key made in
      let adds = identity_diff-is_added entity_type temp_id name (match_in index key) in
      let is_row : record {
        temp_id = temp_id;
        found = match_in index key;
        diff = identity_diff entity_type temp_id name (match_in index key);
      }
          ≡ row =
        ground (arith, rest) in
      rw (← is_row, normal) (known, adds ∙ known)

  pub material_row-is_new :
      (materials : List Material) (index : Dict (List String)) (m : MaterialDraft) (row : Row)
      → index_of (material_keys t x) (λ (m : Material). m.id) materials ≡ ok index
      → material_row t x index materials m ≡ ok row
      → (is_fresh row ≡ is_unknown (material_keys t x) materials (normalize_material_name x m.name))
        × (is_added row.diff
            ≡ is_unknown (material_keys t x) materials (normalize_material_name x m.name))
  unfolding material_row is_fresh is_unknown
  material_row-is_new materials index m row made h =
      let (key, normal, rest) = >>=-eq-ok (normalize_material_name x m.name) _ h in
      let (diff, differs, done) =
        >>=-eq-ok (material_diff t x m (match_in index key) materials) _ rest in
      let known =
        index_of-is_new (material_keys t x) (λ (m : Material). m.id) materials index key made in
      let adds = material_diff-is_added t x m (match_in index key) materials diff differs in
      let is_row : record { temp_id = m.temp_id; found = match_in index key; diff = diff } ≡ row =
        ground (arith, done) in
      rw (← is_row, normal) (known, adds ∙ known)

  -- What the policy asks of a draft: no phase has the name of a canonical phase, no task and no
  -- milestone that of a canonical task, and no material a name of a canonical material, up to the
  -- normalization of names.
  pub record IsAdditive (draft : ProjectImportDraft) (canon : Canon) : Type 0 where
    pub phases :
        all
          (λ (p : PhaseDraft).
            is_unknown (phase_keys t x) canon.phases (normalize_task_name_for_match t p.name))
          draft.phases
        ≡ true
    pub tasks :
        all
          (λ (k : TaskDraft).
            is_unknown (task_keys t x) canon.tasks (normalize_task_name_for_match t k.name))
          draft.tasks
        ≡ true
    pub milestones :
        all
          (λ (m : MilestoneDraft).
            is_unknown (task_keys t x) canon.tasks (normalize_task_name_for_match t m.name))
          draft.milestones
        ≡ true
    pub materials :
        all
          (λ (m : MaterialDraft).
            is_unknown (material_keys t x) canon.materials (normalize_material_name x m.name))
          draft.materials
        ≡ true

  pub all-diffs_of :
      (rows : List Row) → all is_added (diffs_of rows) ≡ all (λ r. is_added r.diff) rows
  all-diffs_of [] = refl
  all-diffs_of (r ∷ rows) = ground (arith, all-diffs_of rows)
