-- ===== src/Services/Activity/Conflict.antt =====
-- app/services/activity.py: an idempotency key stands for one mutation.
use ogaforeman.Base.{
  ◌≡◌, ◌≢◌, refl, sym, ap, ◌∙◌, ◌⊎◌, String, true, Option, none, some, [], arith, eq_iff, Result,
  ok, err, activity_idempotency_conflict,
}
use ogaforeman.Base.Dict
use ogaforeman.Base.Strip.{strip}
use ogaforeman.Domain.Activity.{
  Json, Texts, MutationContext, ActivitySpec, ActivityEvent, build_event, mutation_fingerprint,
  same_fingerprint, is_same_mutation, ensure_replay_matches,
}
use ogaforeman.Repositories.Memory.{get}
use ogaforeman.Repositories.Memory.Transactions.{run_transaction-same, run_transaction-done}
use ogaforeman.Services.Session.{Session}
use ogaforeman.Services.Activity.{
  MutationResult, Mutation, validate_confirmation_fence, missing_or_validate, repeat_mutation,
  mutate_found, mutate_in, mutate,
}
use ogaforeman.Services.Activity.Once.{
  IsReadOnly, metadata_fingerprint, build_event-matches, build_event-stripped, mutate_in-stored,
  mutate_alone,
}

-- Two specs that describe different mutations of a context: their actions, their entities or their
-- fingerprints differ.
abbrev pub IsOther : Texts → MutationContext → ActivitySpec → ActivitySpec → Type 0
IsOther x c s t =
    (strip s.action ≢ strip t.action)
    ⊎ ((strip s.entity_type ≢ strip t.entity_type)
        ⊎ ((s.entity_id ≢ t.entity_id) ⊎ (mutation_fingerprint x c s ≢ mutation_fingerprint x c t)))

same_fingerprint-eq :
    (found : Option Json) (p : String)
    → same_fingerprint found (some (Json.text p)) ≡ true
    → found ≡ some (Json.text p)
same_fingerprint-eq none p h = absurd (cc h)
same_fingerprint-eq (some (Json.text q)) p h = ground (arith, h, eq_iff q p)
same_fingerprint-eq (some _) p h = absurd (cc h)

-- An event that matches one spec does not match another.
other_refused :
    (x : Texts) (c : MutationContext) (s t : ActivitySpec) (a : ActivityEvent)
    → IsOther x c s t
    → ensure_replay_matches a (build_event x c s) ≡ ok tt
    → ensure_replay_matches a (build_event x c t) ≡ err activity_idempotency_conflict
unfolding ensure_replay_matches is_same_mutation build_event
other_refused x c s t a other h = ground (
  arith,
  h,
  other,
  metadata_fingerprint x c s,
  metadata_fingerprint x c t,
  same_fingerprint-eq (Dict.get a.metadata "_mutation_fingerprint") (mutation_fingerprint x c s),
  eq_iff a.action (strip s.action),
  eq_iff a.action (strip t.action),
  eq_iff a.entity_type (strip s.entity_type),
  eq_iff a.entity_type (strip t.entity_type),
  eq_iff a.entity_id s.entity_id,
  eq_iff a.entity_id t.entity_id,
  eq_iff (mutation_fingerprint x c s) (mutation_fingerprint x c t),
)

-- When a mutation without additional activities has returned and its replay only reads, a call
-- under the same context in the state it left, for any mutation whose spec has another action,
-- entity or fingerprint, raises `ActivityIdempotencyConflict` and changes nothing, if the
-- confirmation still stands.
pub mutate-conflict :
    {A B : Type 0} (first : Mutation A) (second : Mutation B) (x : Texts)
    (context : MutationContext) (spec other : ActivitySpec) (reads : IsReadOnly first) (s : Session)
    (r : MutationResult A)
    → IsOther x context spec other
    → (mutate first x (some context) spec [] s).0 ≡ ok r
    → validate_confirmation_fence
        (mutate first x (some context) spec [] s).1.proposal_claims
        context
      ≡ ok tt
    → mutate second x (some context) other [] (mutate first x (some context) spec [] s).1
      ≡ (err activity_idempotency_conflict, (mutate first x (some context) spec [] s).1)
unfolding mutate_in missing_or_validate mutate_found repeat_mutation
mutate-conflict first second x context spec other reads s r differs h fenced =
    let expected = build_event x context spec in
    let t = (mutate first x (some context) spec [] s).1 in
    let (same, done) =
      run_transaction-done (mutate_in first context expected []) s r
        (ap (λ p. p.0) (sym (mutate_alone first x context spec s)) ∙ h) in
    let (stored, match) =
      mutate_in-stored first reads expected (build_event-matches x context spec)
        (build_event-stripped x context spec) context s r (unfold build_event in refl) done in
    let at : get t.activities context.project_id (build_event x context other).id
        ≡ some r.activity =
      unfold build_event in
      (ap
          (λ (p : Result (MutationResult _) × Session).
            get p.1.activities expected.project_id expected.id)
          (mutate_alone first x context spec s ∙ same)
        ∙ stored) in
    mutate_alone second x context other t
    ∙ run_transaction-same (mutate_in second context (build_event x context other) []) t _
        (rw (fenced, at, other_refused x context spec other r.activity differs match) refl)
