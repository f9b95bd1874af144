-- ===== src/Services/Activity.antt =====
-- app/services/activity.py: one mutation and its audit records in one transaction, done once for
-- an idempotency key. The mutation and its replay are arguments, as in the source.
pub mod Once
pub mod Conflict
pub mod Atomic
use ogaforeman.Base.{
  ℕ, String, Bool, true, false, ◌&&◌, not, Option, none, some, List, [], ◌∷◌, map, any, distinct,
  str_eq, if◌then◌else◌, Result, ok, err, raise_if, value_error, permission_error,
  mutation_context_required, entity_not_found,
}
use ogaforeman.Base.Exec.{Exec, pure, raise, lift, ◌>>=◌, ◌>>◌}
use ogaforeman.Domain.Activity.{
  Texts, MutationContext, ActivitySpec, ActivityEvent, activity_event, build_event,
  ensure_replay_matches,
}
use ogaforeman.Domain.Records.{ConversationProposalClaim}
use ogaforeman.Repositories.Memory.{Repo, get, create, run_transaction}
use ogaforeman.Services.Session.{Session, on_activities}

pub record MutationResult (A : Type 0) : Type 0 where
  pub value : Option A
  pub activity : ActivityEvent
  pub duplicate : Bool

-- `a == b`, for optional texts
abbrev pub same_text : Option String → Option String → Bool
same_text none none = true
same_text (some a) (some b) = str_eq a b
same_text _ _ = false

-- the claim belongs to the confirmation attempt of the context
abbrev pub is_confirmed : ConversationProposalClaim → MutationContext → Bool
is_confirmed claim context =
    str_eq claim.outcome "confirming"
    && (same_text (some claim.actor_id) context.actor_id
        && (same_text claim.confirmation_attempt_id context.confirmation_attempt_id
            && same_text (some claim.command_fingerprint) context.confirmation_command_fingerprint))

-- `_validate_confirmation_fence`
unfoldable pub validate_confirmation_fence :
    Repo ConversationProposalClaim → MutationContext → Result (Unit {0})
validate_confirmation_fence claims context = elim context.confirmation_claim_id [
  | none ↦ ok tt
  | some id ↦ elim (get claims context.project_id id) [
    | none ↦ err entity_not_found
    | some claim ↦ raise_if (not (is_confirmed claim context)) permission_error
  ]
]

-- `_missing_or_validate`
unfoldable pub missing_or_validate :
    Repo ActivityEvent → List ActivityEvent → Result (List ActivityEvent)
missing_or_validate repo [] = ok []
missing_or_validate repo (expected ∷ rest) = elim (get repo expected.project_id expected.id) [
  | none ↦ elim (missing_or_validate repo rest) [
    | err x ↦ err x
    | ok missing ↦ ok (expected ∷ missing)
  ]
  | some existing ↦ elim (ensure_replay_matches existing expected) [
    | err x ↦ err x
    | ok _ ↦ missing_or_validate repo rest
  ]
]

-- `_create_missing`
unfoldable pub create_missing : List ActivityEvent → Exec Session (Unit {0})
create_missing [] = pure tt
create_missing (expected ∷ rest) = do
  created ← on_activities (create activity_event expected)
  create_missing rest

-- `_ensure_result_scope`, given the project and the id of a value that is a pydantic model
unfoldable pub ensure_result_scope : Option (String × String) → String → String → Result (Unit {0})
ensure_result_scope none project_id entity_id = ok tt
ensure_result_scope (some (project, id)) project_id entity_id =
    raise_if (not (str_eq project project_id && str_eq id entity_id)) value_error

-- What `mutate` is given beside the context and the spec: the mutation, what its value shows of
-- a pydantic model, and the replay.
pub record Mutation (A : Type 0) : Type 0 where
  pub apply : Exec Session A
  pub scope : A → Option (String × String)
  pub replay : Option (ActivityEvent → Exec Session (Option A))

module _ {A : Type 0} (mutation : Mutation A) where
  -- `replay(session, existing) if replay is not None else None`
  unfoldable pub replayed : ActivityEvent → Exec Session (Option A)
  replayed existing = elim mutation.replay [ none ↦ pure none | some replay ↦ replay existing ]

  -- The key was used before.
  unfoldable pub repeat_mutation :
      ActivityEvent → List ActivityEvent → ActivityEvent → Exec Session (MutationResult A)
  unfolding replayed ensure_replay_matches
  repeat_mutation expected missing existing = do
    lift (ensure_replay_matches existing expected)
    value ← replayed existing
    create_missing missing
    pure (record { value = value; activity = existing; duplicate = true })

  -- The key is new.
  unfoldable pub first_mutation :
      ActivityEvent → List ActivityEvent → Exec Session (MutationResult A)
  unfolding ensure_result_scope
  first_mutation expected missing = do
    value ← mutation.apply
    lift (ensure_result_scope (mutation.scope value) expected.project_id expected.entity_id)
    saved ← on_activities (create activity_event expected)
    create_missing missing
    pure (record { value = some value; activity = saved; duplicate = false })

  -- The body of the transaction after the reads.
  unfoldable pub mutate_found :
      ActivityEvent → List ActivityEvent → Option ActivityEvent → Exec Session (MutationResult A)
  unfolding repeat_mutation first_mutation
  mutate_found expected missing (some existing) = repeat_mutation expected missing existing
  mutate_found expected missing none = first_mutation expected missing

  -- `operation`: the body of the transaction
  unfoldable pub mutate_in :
      MutationContext → ActivityEvent → List ActivityEvent → Exec Session (MutationResult A)
  unfolding mutate_found
  mutate_in context expected additional s =
      (do
        lift (validate_confirmation_fence s.proposal_claims context)
        missing ← lift (missing_or_validate s.activities additional)
        mutate_found expected missing (get s.activities context.project_id expected.id))
        s

  unfoldable pub mutate :
      Texts
      → Option MutationContext
      → ActivitySpec
      → List (MutationContext × ActivitySpec)
      → Exec Session (MutationResult A)
  unfolding mutate_in
  mutate x none spec additional = raise mutation_context_required
  mutate x (some context) spec additional =
      let expected = build_event x context spec in
      let others = map (λ (p : MutationContext × ActivitySpec). build_event x p.0 p.1) additional in
      if not (distinct (expected.id ∷ map (λ (a : ActivityEvent). a.id) others))
      then raise value_error
      else if any (λ (a : ActivityEvent). not (str_eq a.project_id context.project_id)) others
      then raise value_error
      else run_transaction (mutate_in context expected others)
