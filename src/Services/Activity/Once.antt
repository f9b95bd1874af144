-- ===== src/Services/Activity/Once.antt =====
-- app/services/activity.py: a mutation is done once for an idempotency key.
use ogaforeman.Base.{
  ◌≡◌, refl, sym, ap, ◌∙◌, true, Option, none, some, [], arith, eq_refl, Result, ok,
}
use ogaforeman.Base.Dict
use ogaforeman.Base.Exec.{lift, >>=-eq-ok}
use ogaforeman.Domain.Activity.{
  Json, Texts, MutationContext, ActivitySpec, ActivityEvent, activity_event, strip_activity,
  build_event, event_metadata, mutation_fingerprint, is_same_mutation, ensure_replay_matches,
}
use ogaforeman.Base.Strip.{strip, strip-strip}
use ogaforeman.Repositories.Memory.{get, create, run_transaction}
use ogaforeman.Repositories.Memory.Find.{get_of_find}
use ogaforeman.Repositories.Memory.Guards.{create-ok}
use ogaforeman.Repositories.Memory.Transactions.{run_transaction-same, run_transaction-done}
use ogaforeman.Services.Session.{Session, on_activities}
use ogaforeman.Services.Activity.{
  MutationResult, Mutation, validate_confirmation_fence, missing_or_validate, create_missing,
  ensure_result_scope, replayed, repeat_mutation, first_mutation, mutate_found, mutate_in, mutate,
}

pub metadata_fingerprint :
    (x : Texts) (c : MutationContext) (s : ActivitySpec)
    → Dict.get (event_metadata x c s) "_mutation_fingerprint"
      ≡ some (Json.text (mutation_fingerprint x c s))
unfolding event_metadata
metadata_fingerprint x c s = grind (arith, Dict.get-put)

-- An event matches itself.
pub build_event-matches :
    (x : Texts) (c : MutationContext) (s : ActivitySpec)
    → ensure_replay_matches (build_event x c s) (build_event x c s) ≡ ok tt
unfolding ensure_replay_matches is_same_mutation build_event
build_event-matches x c s =
    rw
      (
        metadata_fingerprint x c s,
        eq_refl c.project_id,
        eq_refl (strip s.action),
        eq_refl (strip s.entity_type),
        eq_refl s.entity_id,
        eq_refl (mutation_fingerprint x c s),
      )
      refl

-- The texts of an event are stripped.
pub build_event-stripped :
    (x : Texts) (c : MutationContext) (s : ActivitySpec)
    → strip_activity (build_event x c s) ≡ build_event x c s
unfolding build_event
build_event-stripped x c s =
    rw (strip-strip s.action, strip-strip s.entity_type, strip-strip s.summary) refl

-- Replays only read.
pub record IsReadOnly {A : Type 0} (mutation : Mutation A) : Type 0 where
  pub keeps : (existing : ActivityEvent) (s : Session) → (replayed mutation existing s).1 ≡ s

module _ {A : Type 0} (mutation : Mutation A) where
  -- A mutation of a new key leaves its event under the key.
  pub first_mutation-ok :
      (expected : ActivityEvent) (s : Session) (r : MutationResult A)
      → strip_activity expected ≡ expected
      → (first_mutation mutation expected [] s).0 ≡ ok r
      → (r.activity ≡ expected)
        × (get (first_mutation mutation expected [] s).1.activities expected.project_id expected.id
            ≡ some expected)
  unfolding first_mutation create_missing
  first_mutation-ok expected s r clean h =
      let (value, _, then_scope) = >>=-eq-ok mutation.apply _ s h in
      let t = (mutation.apply s).1 in
      let scope =
        lift (ensure_result_scope (mutation.scope value) expected.project_id expected.entity_id) in
      let (_, _, then_create) = >>=-eq-ok scope _ t (ap (λ p. p.0) (sym then_scope) ∙ h) in
      let (saved, made, then_return) =
        >>=-eq-ok (on_activities (create activity_event expected)) _ t
          (ap (λ p. p.0) (sym (then_scope ∙ then_create)) ∙ h) in
      let whole = then_scope ∙ then_create ∙ then_return in
      let c = create-ok activity_event expected t.activities saved made in
      (
        activity_of saved r (ap (λ p. p.0) (sym whole) ∙ h) ∙ (c.same ∙ clean),
        ap
              (λ (p : Result (MutationResult A) × Session).
                get p.1.activities expected.project_id expected.id)
              whole
            ∙ get_of_find _ expected.project_id expected.id expected 0 (
                c.finds expected.project_id expected.id
                ∙ rw (eq_refl expected.project_id, eq_refl expected.id)
                    (ap (λ a. some (a, 0)) clean)),
      )
    where
      activity_of :
          {m : MutationResult A} (saved : ActivityEvent) (r : MutationResult A)
          → ok m ≡ ok r
          → r.activity ≡ m.activity
      activity_of saved r e = ground (arith, e)

  -- A repetition that returns found the same mutation under the key, and wrote nothing.
  pub repeat_mutation-ok :
      (expected existing : ActivityEvent) (s : Session) (r : MutationResult A)
      → IsReadOnly mutation
      → (repeat_mutation mutation expected [] existing s).0 ≡ ok r
      → (r.activity ≡ existing)
        × (ensure_replay_matches existing expected ≡ ok tt)
        × ((repeat_mutation mutation expected [] existing s).1 ≡ s)
  unfolding repeat_mutation create_missing
  repeat_mutation-ok expected existing s r reads h =
      let (_, matches, then_replay) =
        >>=-eq-ok (lift (ensure_replay_matches existing expected)) _ s h in
      let (value, _, then_return) =
        >>=-eq-ok (replayed mutation existing) _ s (ap (λ p. p.0) (sym then_replay) ∙ h) in
      let whole = then_replay ∙ then_return in
      (
        activity_of r (ap (λ p. p.0) (sym whole) ∙ h),
        matches,
        ap (λ (p : Result (MutationResult A) × Session). p.1) whole ∙ reads.keeps existing s,
      )
    where
      activity_of :
          {m : MutationResult A} (r : MutationResult A) → ok m ≡ ok r → r.activity ≡ m.activity
      activity_of r e = ground (arith, e)

  module _ (reads : IsReadOnly mutation) (expected : ActivityEvent)
      (matches : ensure_replay_matches expected expected ≡ ok tt)
      (clean : strip_activity expected ≡ expected) where
    mutate_found-stored :
        (s : Session) (r : MutationResult A) (found : Option ActivityEvent)
        → get s.activities expected.project_id expected.id ≡ found
        → (mutate_found mutation expected [] found s).0 ≡ ok r
        → (get
              (mutate_found mutation expected [] found s).1.activities
              expected.project_id
              expected.id
            ≡ some r.activity)
          × (ensure_replay_matches r.activity expected ≡ ok tt)
    unfolding mutate_found
    mutate_found-stored s r none e h =
        let (same, stored) = first_mutation-ok expected s r clean h in
        (stored ∙ ap some (sym same), ap (λ a. ensure_replay_matches a expected) same ∙ matches)
    mutate_found-stored s r (some existing) e h =
        let (same, match, kept) = repeat_mutation-ok expected existing s r reads h in
        (
          ap (λ (t : Session). get t.activities expected.project_id expected.id) kept
              ∙ (e ∙ ap some (sym same)),
          ap (λ a. ensure_replay_matches a expected) same ∙ match,
        )

    -- After a call that returned, the event of its answer stands under the key and matches.
    pub mutate_in-stored :
        (context : MutationContext) (s : Session) (r : MutationResult A)
        → expected.project_id ≡ context.project_id
        → (mutate_in mutation context expected [] s).0 ≡ ok r
        → (get
              (mutate_in mutation context expected [] s).1.activities
              expected.project_id
              expected.id
            ≡ some r.activity)
          × (ensure_replay_matches r.activity expected ≡ ok tt)
    unfolding mutate_in missing_or_validate
    mutate_in-stored context s r same_project h =
        let found = get s.activities context.project_id expected.id in
        let (_, fenced, then_find) =
          >>=-eq-ok (lift (validate_confirmation_fence s.proposal_claims context)) _ s h in
        let (stored, match) =
          mutate_found-stored s r found (ap (λ p. get s.activities p expected.id) same_project)
            (ap (λ p. p.0) (sym then_find) ∙ h) in
        (
          ap
                (λ (p : Result (MutationResult A) × Session).
                  get p.1.activities expected.project_id expected.id)
                then_find
              ∙ stored,
          match,
        )

    -- The same call again, when the confirmation still stands.
    mutate_in-again :
        (context : MutationContext) (s : Session) (a : ActivityEvent) (v : Option A)
        → expected.project_id ≡ context.project_id
        → get s.activities expected.project_id expected.id ≡ some a
        → ensure_replay_matches a expected ≡ ok tt
        → validate_confirmation_fence s.proposal_claims context ≡ ok tt
        → (replayed mutation a s).0 ≡ ok v
        → mutate_in mutation context expected [] s
          ≡ (ok (record { value = v; activity = a; duplicate = true }), s)
    unfolding mutate_in missing_or_validate mutate_found repeat_mutation create_missing
    mutate_in-again context s a v same_project stored match fenced value =
        rw (fenced, ← same_project, stored, match, value, reads.keeps a s) refl

  module _ (x : Texts) (context : MutationContext) (spec : ActivitySpec) where
    -- What `mutate` does without additional activities.
    pub mutate_alone :
        (s : Session)
        → mutate mutation x (some context) spec [] s
          ≡ run_transaction (mutate_in mutation context (build_event x context spec) []) s
    unfolding mutate
    mutate_alone s = refl

    -- A mutation is done once for an idempotency key. When a call has returned, the same call made
    -- again in the state it left (the confirmation, if there is one, still standing, and the replay
    -- reading a value) answers with that value and the activity of the first answer, marked as a
    -- duplicate, and changes nothing. The replay of the mutation is assumed only to read.
    pub mutate-again :
        (reads : IsReadOnly mutation) (s : Session) (r : MutationResult A) (v : Option A)
        → (mutate mutation x (some context) spec [] s).0 ≡ ok r
        → validate_confirmation_fence
            (mutate mutation x (some context) spec [] s).1.proposal_claims
            context
          ≡ ok tt
        → (replayed mutation r.activity (mutate mutation x (some context) spec [] s).1).0 ≡ ok v
        → mutate mutation x (some context) spec [] (mutate mutation x (some context) spec [] s).1
          ≡ (
            ok (record { value = v; activity = r.activity; duplicate = true }),
            (mutate mutation x (some context) spec [] s).1,
          )
    mutate-again reads s r v h fenced value =
        let expected = build_event x context spec in
        let body = mutate_in mutation context expected [] in
        let t = (mutate mutation x (some context) spec [] s).1 in
        let (same, done) =
          run_transaction-done body s r (ap (λ p. p.0) (sym (mutate_alone s)) ∙ h) in
        let (stored, match) =
          mutate_in-stored reads expected (build_event-matches x context spec)
            (build_event-stripped x context spec) context s r (unfold build_event in refl) done in
        let at : get t.activities expected.project_id expected.id ≡ some r.activity =
          ap
            (λ (p : Result (MutationResult A) × Session).
              get p.1.activities expected.project_id expected.id)
            (mutate_alone s ∙ same)
          ∙ stored in
        mutate_alone t
        ∙ run_transaction-same body t _ (
            mutate_in-again reads expected (build_event-matches x context spec)
              (build_event-stripped x context spec) context t r.activity v
              (unfold build_event in refl) at match fenced value)
