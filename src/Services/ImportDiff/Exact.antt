-- ===== src/Services/ImportDiff/Exact.antt =====
-- The imports that app/services/project_import_diff.py lets pass, described without its indexes.
use ogaforeman.Base.{
  ◌≡◌, ◌↔◌, refl, sym, ◌∙◌, String, true, ◌&&◌, not, List, [], ◌∷◌, ◌++◌ as append, arith, all,
  Result, ok, >>=-eq-ok, raise_if, str_eq, value_error,
}
use ogaforeman.Base.Dict
use ogaforeman.Base.Dict.{Dict}
use ogaforeman.Domain.Task.{Task}
use ogaforeman.Domain.Material.{Names, Material, normalize_material_name}
use ogaforeman.Domain.ImportDraft.{
  PhaseDraft, TaskDraft, MaterialDraft, MilestoneDraft, ProjectImportDraft, ProjectPhase,
}
use ogaforeman.Services.ImportDiff.Entities.{EntityDiff, is_added}
use ogaforeman.Services.ImportDiff.Index.{TaskNames, normalize_task_name_for_match, index_of}
use ogaforeman.Services.ImportDiff.{
  each, Row, matches_of, diffs_of, Canon, task_keys, phase_keys, material_keys, named_row,
  material_row, dependency_row, requirement_row, compare_with, compare, ensure_additive,
}
use ogaforeman.Services.ImportDiff.Additive.{
  IsAdditive, IsFreshDict, is_fresh, is_unknown, each-all, all-append, all-diffs_of,
  ensure_additive_iff, matches_of-IsFreshDict, dependency_row-is_added, requirement_row-is_added,
  named_row-is_new, material_row-is_new,
}

every_true {ℓ} : {A : Type ℓ} (xs : List A) → all (λ _. true) xs ≡ true
every_true [] = refl
every_true (x ∷ xs) = every_true xs

empty-IsFreshDict : IsFreshDict []
unfolding IsFreshDict Dict.get
empty-IsFreshDict k ids h = absurd (cc)

module _ (t : TaskNames) (x : Names) where
  -- The rows of names that were looked up: they are fresh, and add, just when the names are unknown.
  rows-is_new :
      {A B : Type 0} (keys : A → Result (List String)) (id : A → String) (es : List A)
      (index : Dict (List String)) (entity_type : String) (temp_id name : B → String)
      (drafts : List B) (rows : List Row)
      → index_of keys id es ≡ ok index
      → each (λ b. named_row t x entity_type index (temp_id b) (name b)) drafts ≡ ok rows
      → (all is_fresh rows
          ≡ all (λ b. is_unknown keys es (normalize_task_name_for_match t (name b))) drafts)
        × (all is_added (diffs_of rows)
            ≡ all (λ b. is_unknown keys es (normalize_task_name_for_match t (name b))) drafts)
  rows-is_new keys id es index entity_type temp_id name drafts rows made h = (
    each-all _ is_fresh _
        (λ b row e.
          (named_row-is_new t x keys id es index entity_type (temp_id b) (name b) row made e).0)
        drafts rows h,
    all-diffs_of t x rows
        ∙ each-all _ (λ r. is_added r.diff) _
            (λ b row e.
              (named_row-is_new t x keys id es index entity_type (temp_id b) (name b) row made e).1)
            drafts rows h,
  )

  module _ (draft : ProjectImportDraft) (canon : Canon)
      (task_index material_index phase_index : Dict (List String))
      (tasks_made : index_of (task_keys t x) (λ (k : Task). k.id) canon.tasks ≡ ok task_index)
      (materials_made : index_of (material_keys t x) (λ (m : Material). m.id) canon.materials
        ≡ ok material_index)
      (phases_made : index_of (phase_keys t x) (λ (p : ProjectPhase). p.id) canon.phases
        ≡ ok phase_index) where
    -- The dependencies and the requirements of a draft whose rows are fresh add.
    links-is_added :
        (tasks milestones materials : List Row) (dependencies requirements : List EntityDiff)
        → each
            (dependency_row t x (matches_of (append tasks milestones) []) canon.tasks)
            draft.dependencies
          ≡ ok dependencies
        → each
            (requirement_row t x
              (matches_of (append tasks milestones) [])
              (matches_of materials [])
              canon.requirements)
            draft.material_requirements
          ≡ ok requirements
        → all is_fresh tasks ≡ true
        → all is_fresh milestones ≡ true
        → all is_fresh materials ≡ true
        → (all is_added dependencies ≡ true) × (all is_added requirements ≡ true)
    links-is_added tasks milestones materials dependencies requirements h k f g m =
        let both : all is_fresh (append tasks milestones) ≡ true =
          ground (arith, all-append is_fresh tasks milestones) in
        let found = matches_of-IsFreshDict (append tasks milestones) [] both empty-IsFreshDict in
        let stock = matches_of-IsFreshDict materials [] m empty-IsFreshDict in
        (
          each-all _ is_added (λ _. true)
                (λ d diff e. dependency_row-is_added t x _ canon.tasks d diff found e)
                draft.dependencies dependencies h
              ∙ every_true draft.dependencies,
          each-all _ is_added (λ _. true)
                (λ r diff e.
                  requirement_row-is_added t x _ _ canon.requirements r diff found stock e)
                draft.material_requirements requirements k
              ∙ every_true draft.material_requirements,
        )

    stock-is_new :
        (rows : List Row)
        → each (material_row t x material_index canon.materials) draft.materials ≡ ok rows
        → (all is_fresh rows
            ≡ all
                (λ (m : MaterialDraft).
                  is_unknown (material_keys t x) canon.materials (normalize_material_name x m.name))
                draft.materials)
          × (all is_added (diffs_of rows)
              ≡ all
                  (λ (m : MaterialDraft).
                    is_unknown
                      (material_keys t x)
                      canon.materials
                      (normalize_material_name x m.name))
                  draft.materials)
    stock-is_new rows h = (
      each-all _ is_fresh _
          (λ m row e.
            (material_row-is_new t x canon.materials material_index m row materials_made e).0)
          draft.materials rows h,
      all-diffs_of t x rows
          ∙ each-all _ (λ r. is_added r.diff) _
              (λ m row e.
                (material_row-is_new t x canon.materials material_index m row materials_made e).1)
              draft.materials rows h,
    )

    -- What is asked of all differences is asked of each part.
    sum :
        (phases tasks milestones materials : List Row)
        (dependencies requirements diffs : List EntityDiff)
        → ok (
            append (diffs_of phases) (
              append (diffs_of tasks) (
                append
                  (diffs_of milestones)
                  (append dependencies (append (diffs_of materials) requirements)))))
          ≡ ok diffs
        → all is_added diffs ≡ (
            all is_added (diffs_of phases)
            && (all is_added (diffs_of tasks)
                && (all is_added (diffs_of milestones)
                    && (all is_added dependencies
                        && (all is_added (diffs_of materials) && all is_added requirements)))))
    sum phases tasks milestones materials dependencies requirements diffs h =
        let same : append (diffs_of phases) (
              append (diffs_of tasks) (
                append (diffs_of milestones)
                  (append dependencies (append (diffs_of materials) requirements))))
            ≡ diffs =
          ground (arith, h) in
        rw (← same) (
          rw
            (
              all-append is_added (diffs_of phases),
              all-append is_added (diffs_of tasks),
              all-append is_added (diffs_of milestones),
              all-append is_added dependencies,
              all-append is_added (diffs_of materials),
            )
            refl)

    conclude :
        (phases tasks milestones materials : List Row)
        (dependencies requirements diffs : List EntityDiff)
        → all is_added diffs ≡ (
            all is_added (diffs_of phases)
            && (all is_added (diffs_of tasks)
                && (all is_added (diffs_of milestones)
                    && (all is_added dependencies
                        && (all is_added (diffs_of materials) && all is_added requirements)))))
        → all is_added (diffs_of phases) ≡ true
        → all is_added (diffs_of tasks) ≡ true
        → all is_added (diffs_of milestones) ≡ true
        → all is_added (diffs_of materials) ≡ true
        → all is_added dependencies ≡ true
        → all is_added requirements ≡ true
        → all is_added diffs ≡ true
    conclude phases tasks milestones materials dependencies requirements diffs total p k m s d r =
        total ∙ rw (p, k, m, s, d, r) refl

    compare_with-exact :
        (diffs : List EntityDiff)
        → compare_with t x draft canon task_index material_index phase_index ≡ ok diffs
        → (all is_added diffs ≡ true) ↔ IsAdditive t x draft canon
    unfolding compare_with
    compare_with-exact diffs h =
        let (phases, h1, r1) = >>=-eq-ok (each _ draft.phases) _ h in
        let (tasks, h2, r2) = >>=-eq-ok (each _ draft.tasks) _ r1 in
        let (milestones, h3, r3) = >>=-eq-ok (each _ draft.milestones) _ r2 in
        let (dependencies, h4, r4) = >>=-eq-ok (each _ draft.dependencies) _ r3 in
        let (materials, h5, r5) = >>=-eq-ok (each _ draft.materials) _ r4 in
        let (requirements, h6, r6) = >>=-eq-ok (each _ draft.material_requirements) _ r5 in
        let (p0, p1) =
          rows-is_new (phase_keys t x) (λ (p : ProjectPhase). p.id) canon.phases phase_index "phase"
            (λ (p : PhaseDraft). p.temp_id) (λ (p : PhaseDraft). p.name) draft.phases phases
            phases_made h1 in
        let (k0, k1) =
          rows-is_new (task_keys t x) (λ (k : Task). k.id) canon.tasks task_index "task"
            (λ (k : TaskDraft). k.temp_id) (λ (k : TaskDraft). k.name) draft.tasks tasks tasks_made
            h2 in
        let (m0, m1) =
          rows-is_new (task_keys t x) (λ (k : Task). k.id) canon.tasks task_index "task"
            (λ (m : MilestoneDraft). m.temp_id) (λ (m : MilestoneDraft). m.name) draft.milestones
            milestones tasks_made h3 in
        let (s0, s1) = stock-is_new materials h5 in
        let total = sum phases tasks milestones materials dependencies requirements diffs r6 in
        (
          λ h. record {
            phases = sym p1 ∙ ground (arith, h, total);
            tasks = sym k1 ∙ ground (arith, h, total);
            milestones = sym m1 ∙ ground (arith, h, total);
            materials = sym s1 ∙ ground (arith, h, total);
          },
          λ a.
              let (deps, reqs) =
                links-is_added tasks milestones materials dependencies requirements h4 h6
                  (k0 ∙ a.tasks) (m0 ∙ a.milestones) (s0 ∙ a.materials) in
              conclude phases tasks milestones materials dependencies requirements diffs total
                (p1 ∙ a.phases) (k1 ∙ a.tasks) (m1 ∙ a.milestones) (s1 ∙ a.materials) deps reqs,
        )

  -- Of a comparison that returns, the import passes exactly when it is additive: no phase, task,
  -- milestone or material of the draft has a name of a canonical one, up to normalization.
  pub compare-exact :
      (draft : ProjectImportDraft) (canon : Canon) (diffs : List EntityDiff)
      → compare t x draft canon ≡ ok diffs
      → (ensure_additive diffs ≡ ok tt) ↔ IsAdditive t x draft canon
  unfolding compare
  compare-exact draft canon diffs h =
      let (_, _, r0) =
        >>=-eq-ok (raise_if (not (str_eq canon.project_id draft.project_id)) value_error) _ h in
      let (tasks, h1, r1) = >>=-eq-ok (index_of (task_keys t x) _ canon.tasks) _ r0 in
      let (materials, h2, r2) = >>=-eq-ok (index_of (material_keys t x) _ canon.materials) _ r1 in
      let (phases, h3, r3) = >>=-eq-ok (index_of (phase_keys t x) _ canon.phases) _ r2 in
      let passes = ensure_additive_iff diffs in
      let exact = compare_with-exact draft canon tasks materials phases h1 h2 h3 diffs r3 in
      (λ e. exact.0 (passes.0 e), λ a. passes.1 (exact.1 a))
