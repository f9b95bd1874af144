-- ===== src/Domain/Activity.antt =====
-- app/domain/activity.py, `ActivityEvent` of app/domain/models.py, and the pure part of
-- app/repositories/activity.py: the audit record of one mutation and its identity.
-- SHA-256, `json.dumps` and the texts of decimals and times are a parameter, `Texts`.
use Prim.Native.String.{◌++◌, slice}
use ogaforeman.Base.{
  ℕ, String, Bool, true, false, ◌&&◌, ◌||◌, not, Option, none, some, [], ◌∷◌, ◌++◌ as append,
  str_eq, Result, raise_if, validation_error, if◌then◌else◌, activity_idempotency_conflict,
}
use ogaforeman.Base.Int.{ℤ}
use ogaforeman.Base.Dict
use ogaforeman.Base.Dict.{Dict}
pub use ogaforeman.Domain.Json.{Json, Members, members}
use ogaforeman.Domain.Enums.{ActorType, same_actor}
use ogaforeman.Domain.Task.{is_none}
use ogaforeman.Domain.ProcessedEvent.{is_blank}
use ogaforeman.Base.Strip.{strip}
use ogaforeman.Repositories.Memory.{Entity, no_version}

-- `sha256(text.encode()).hexdigest()`, `json.dumps(payload, sort_keys=True, ...)`, `str(int)`,
-- `str(decimal)` of quantities and of signed quantities, `time.isoformat()`, and the text of a time
-- in the JSON of pydantic
pub record Texts : Type 0 where
  pub hexdigest : String → String
  pub dumps : Dict Json → String
  pub int_text : ℕ → String
  pub decimal_text : ℕ → String
  pub signed_text : ℤ → String
  pub isoformat : ℕ → String
  pub json_time : ℕ → String

-- `null` for `None`
abbrev pub optional_text : Option String → Json
optional_text none = Json.null
optional_text (some s) = Json.text s

pub record MutationContext : Type 0 where
  pub project_id : String
  pub actor_type : ActorType
  pub actor_id : Option String
  pub source_event_id : Option String
  pub agent_run_id : Option String
  pub idempotency_key : String
  pub request_fingerprint : Option String
  pub confirmation_claim_id : Option String
  pub confirmation_attempt_id : Option String
  pub confirmation_command_fingerprint : Option String
  pub occurred_at : ℕ

-- The checks of `validate_causality`, each of which raises when it holds.
unfoldable pub is_invalid_context : MutationContext → Bool
is_invalid_context c =
    let confirms =
      not (is_blank c.confirmation_claim_id)
      || (not (is_blank c.confirmation_attempt_id)
          || not (is_blank c.confirmation_command_fingerprint)) in
    let confirmed =
      not (is_blank c.confirmation_claim_id)
      && (not (is_blank c.confirmation_attempt_id)
          && not (is_blank c.confirmation_command_fingerprint)) in
    not (same_actor c.actor_type ActorType.system) && is_none c.actor_id
    || (same_actor c.actor_type ActorType.system && not (is_none c.actor_id)
        || (is_none c.source_event_id && not (same_actor c.actor_type ActorType.user)
            || confirms && not confirmed))

pub record ActivitySpec : Type 0 where
  pub action : String
  pub entity_type : String
  pub entity_id : String
  pub summary : String
  pub metadata : Dict Json

pub record ActivityEvent : Type 0 where
  pub id : String
  pub project_id : String
  pub actor_type : ActorType
  pub actor_id : Option String
  pub action : String
  pub entity_type : String
  pub entity_id : String
  pub summary : String
  pub metadata : Dict Json
  pub source_event_id : Option String
  pub agent_run_id : Option String
  pub created_at : ℕ

-- `validate_actor`
unfoldable pub validate_activity : ActivityEvent → Result (Unit {0})
validate_activity a =
    raise_if (not (same_actor a.actor_type ActorType.system) && is_none a.actor_id) validation_error

-- The texts as pydantic keeps them.
abbrev pub strip_activity : ActivityEvent → ActivityEvent
strip_activity r = record r {
  action = strip r.action;
  entity_type = strip r.entity_type;
  summary = strip r.summary;
}

abbrev pub activity_event : Entity ActivityEvent
activity_event = record {
  project_id = λ a. a.project_id;
  id = λ a. a.id;
  has_version = false;
  version = λ a. 0;
  with_version = λ a n. a;
  strip = strip_activity;
  validate = validate_activity;
  version-with_version = λ a n h. no_version h;
}

abbrev pub actor_text : ActorType → String
actor_text ActorType.user = "user"
actor_text ActorType.agent = "agent"
actor_text ActorType.system = "system"

-- `context.actor_id or 'system'`
abbrev pub actor_or_system : Option String → String
actor_or_system none = "system"
actor_or_system (some s) = if str_eq s "" then "system" else s

-- The project, the actor and the idempotency key with zero characters between them.
abbrev pub scope_text : MutationContext → String
scope_text c = c.project_id ++ ("\0" ++ (actor_or_system c.actor_id ++ ("\0" ++ c.idempotency_key)))

unfoldable pub activity_id : Texts → MutationContext → String
activity_id x c = "act_" ++ slice (x.hexdigest (scope_text c)) 0 32

-- The payload whose digest is the fingerprint.
unfoldable pub fingerprint_payload : MutationContext → ActivitySpec → Dict Json
fingerprint_payload c s =
    append
      (("project_id", Json.text c.project_id)
        ∷ ("actor_type", Json.text (actor_text c.actor_type))
        ∷ ("actor_id", optional_text c.actor_id)
        ∷ ("source_event_id", optional_text c.source_event_id)
        ∷ ("agent_run_id", optional_text c.agent_run_id)
        ∷ ("idempotency_key", Json.text c.idempotency_key)
        ∷ ("action", Json.text s.action)
        ∷ ("entity_type", Json.text s.entity_type)
        ∷ ("entity_id", Json.text s.entity_id)
        ∷ ("summary", Json.text s.summary)
        ∷ ("metadata", Json.object (members s.metadata))
        ∷ [])
      (append
        (if is_none c.request_fingerprint
          then []
          else ("request_fingerprint", optional_text c.request_fingerprint) ∷ [])
        (if is_none c.confirmation_claim_id
          then []
          else (("confirmation_claim_id", optional_text c.confirmation_claim_id)
              ∷ ("confirmation_attempt_id", optional_text c.confirmation_attempt_id)
              ∷ (
                "confirmation_command_fingerprint",
                optional_text c.confirmation_command_fingerprint,
              )
              ∷ [])))

unfoldable pub mutation_fingerprint : Texts → MutationContext → ActivitySpec → String
mutation_fingerprint x c s = x.hexdigest (x.dumps (fingerprint_payload c s))

-- The metadata that `build_event` stores.
unfoldable pub event_metadata : Texts → MutationContext → ActivitySpec → Dict Json
event_metadata x c s =
    let marked =
      Dict.put
        (Dict.put s.metadata "_mutation_fingerprint" (Json.text (mutation_fingerprint x c s)))
        "_idempotency_key_digest" (Json.text (slice (x.hexdigest c.idempotency_key) 0 16)) in
    if is_none c.confirmation_claim_id
    then marked
    else Dict.put (Dict.put marked "_confirmation_claim_id" (optional_text c.confirmation_claim_id))
        "_confirmation_command_fingerprint" (optional_text c.confirmation_command_fingerprint)

unfoldable pub build_event : Texts → MutationContext → ActivitySpec → ActivityEvent
build_event x c s = record {
  id = activity_id x c;
  project_id = c.project_id;
  actor_type = c.actor_type;
  actor_id = c.actor_id;
  action = strip s.action;
  entity_type = strip s.entity_type;
  entity_id = s.entity_id;
  summary = strip s.summary;
  metadata = event_metadata x c s;
  source_event_id = c.source_event_id;
  agent_run_id = c.agent_run_id;
  created_at = c.occurred_at;
}

-- equality of what `metadata.get("_mutation_fingerprint")` gives, a text wherever it was stored
-- by `build_event`
abbrev pub same_fingerprint : Option Json → Option Json → Bool
same_fingerprint none none = true
same_fingerprint (some (Json.text a)) (some (Json.text b)) = str_eq a b
same_fingerprint _ _ = false

unfoldable pub is_same_mutation : ActivityEvent → ActivityEvent → Bool
is_same_mutation existing expected =
    str_eq existing.project_id expected.project_id
    && (str_eq existing.action expected.action
        && (str_eq existing.entity_type expected.entity_type
            && (str_eq existing.entity_id expected.entity_id
                && same_fingerprint (Dict.get existing.metadata "_mutation_fingerprint")
                    (Dict.get expected.metadata "_mutation_fingerprint"))))

unfoldable pub ensure_replay_matches : ActivityEvent → ActivityEvent → Result (Unit {0})
unfolding is_same_mutation
ensure_replay_matches existing expected =
    raise_if (not (is_same_mutation existing expected)) activity_idempotency_conflict
