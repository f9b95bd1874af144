-- ===== src/Services/EventClaims/Safety.antt =====
-- Invariants of app/services/event_claims.py over any sequence of calls.
use ogaforeman.Base.{
  ℕ, ◌+◌, ◌≤◌, ◌<◌, ◌≡◌, refl, ap, ◌⊎◌, inl, inr, String, Bool, true, false, ◌&&◌, Option, some,
  List, [], ◌∷◌, arith, Result, ok, Bool-cases, if◌then◌else◌, str_eq, eq_iff, >>=-eq-ok,
}
use ogaforeman.Base.Dict
use ogaforeman.Domain.ProcessedEvent.{
  ProcessedEvent, ProjectEvent, processed_event, strip_event, validate_event,
}
use ogaforeman.Base.Strip.{strip_option-again}
use ogaforeman.Repositories.Memory.{empty, find, get, at_version, validate_for_create}
use ogaforeman.Repositories.Memory.Find.{get-some}
use ogaforeman.Repositories.Memory.Guards.{Saved}
use ogaforeman.Services.EventClaims.{
  ClaimService, ClaimStore, first_claim, exhausted, reclaimed, claim, completed, failed, complete,
  fail, EventClaimResult,
}
use ogaforeman.Services.EventClaims.Rules.{
  ClaimEffect, claim_effect, CloseEffect, complete_effect, fail_effect,
}

-- One call of the service. What it raises is the caller's.
pub data Call : Type 0 where
  claims : (event : ProjectEvent) (token : String) (now : ℕ) → Call
  completes : (event : ProjectEvent) (token result_ref : String) (now : ℕ) → Call
  fails : (event : ProjectEvent) (token code summary : String) (terminal : Bool) (now : ℕ) → Call

module _ (c : ClaimService) where
  unfoldable pub after : Call → ClaimStore → ClaimStore
  after (claims event token now) repo = (claim c event token now repo).1
  after (completes event token result_ref now) repo = (complete event token result_ref now repo).1
  after (fails event token code summary terminal now) repo =
      (fail c event token code summary terminal now repo).1

  unfoldable pub after_all : List Call → ClaimStore → ClaimStore
  unfolding after
  after_all [] repo = repo
  after_all (x ∷ xs) repo = after_all xs (after x repo)

  -- The record stands under its own key, carries its version, passes the validator of
  -- `ProcessedEvent`, holds texts that were stripped, and was not claimed more often than `max_attempts` allows.
  pub record IsSoundRecord (p e : String) (r : ProcessedEvent) (n : ℕ) : Type 0 where
    pub of_project : r.project_id ≡ p
    pub of_key : r.id ≡ e
    pub versioned : r.version ≡ n
    pub valid : validate_event r ≡ ok tt
    pub stripped : strip_event r ≡ r
    pub bounded : r.attempts ≤ c.max_attempts

  pub record IsSound (repo : ClaimStore) : Type 0 where
    pub at :
        (p e : String) (r : ProcessedEvent) (n : ℕ)
        → find repo p e ≡ some (r, n)
        → IsSoundRecord p e r n

  wrote-IsSound :
      (repo repo' : ClaimStore) (b : ProcessedEvent) (n : ℕ)
      → IsSoundRecord b.project_id b.id b n
      → ((q f : String)
          → find repo' q f
            ≡ (if str_eq b.project_id q && str_eq b.id f then some (b, n) else find repo q f))
      → IsSound repo
      → IsSound repo'
  wrote-IsSound repo repo' b n sound finds s = record {
    at = λ q f r m found. go q f r m found (Bool-cases (str_eq b.project_id q && str_eq b.id f));
  }
    where
      go :
          (q f : String) (r : ProcessedEvent) (m : ℕ)
          → find repo' q f ≡ some (r, m)
          → ((str_eq b.project_id q && str_eq b.id f) ≡ true)
            ⊎ ((str_eq b.project_id q && str_eq b.id f) ≡ false)
          → IsSoundRecord q f r m
      go q f r m found (inr away) = s.at q f r m (ground (arith, finds q f))
      go q f r m found (inl here) = record {
        of_project = ground (arith, finds q f, eq_iff b.project_id q);
        of_key = ground (arith, finds q f, eq_iff b.id f);
        versioned = ground (arith, finds q f, sound.versioned);
        valid = ground (arith, finds q f, sound.valid);
        stripped = ground (arith, finds q f, sound.stripped);
        bounded = ground (arith, finds q f, sound.bounded);
      }

  strip_event-again :
      (x : ProcessedEvent) (n : ℕ)
      → strip_event (record (strip_event x) { version = n })
        ≡ record (strip_event x) { version = n }
  strip_event-again x n =
      rw
        (
          strip_option-again x.claim_token,
          strip_option-again x.result_ref,
          strip_option-again x.last_error_code,
          strip_option-again x.last_error_summary,
          strip_option-again x.dead_letter_reason,
        )
        refl

  Saved-IsSound :
      (x : ProcessedEvent) (expected : Option ℕ) (repo repo' : ClaimStore) (b : ProcessedEvent)
      → x.attempts ≤ c.max_attempts
      → Saved processed_event x expected repo repo' b
      → IsSound repo
      → IsSound repo'
  unfolding at_version
  Saved-IsSound x expected repo repo' b bounded s =
      wrote-IsSound repo repo' (record (strip_event x) { version = s.current + 1 }) (s.current + 1)
        (record {
          of_project = refl;
          of_key = refl;
          versioned = refl;
          valid = rw s.stored at s.valid;
          stripped = strip_event-again x (s.current + 1);
          bounded = bounded;
        })
        (rw s.stored at s.finds)

  first-IsSoundRecord :
      (event : ProjectEvent) (token : String) (now : ℕ)
      → 0 < c.max_attempts
      → validate_for_create processed_event (first_claim c event token now) ≡ ok tt
      → IsSoundRecord event.project_id event.idempotency_key
          (strip_event (first_claim c event token now))
          0
  unfolding first_claim validate_for_create
  first-IsSoundRecord event token now positive h = record {
    of_project = refl;
    of_key = refl;
    versioned = refl;
    valid = (>>=-eq-ok (validate_event (strip_event (first_claim c event token now))) _ h).1;
    stripped = strip_event-again (first_claim c event token now) 0;
    bounded = omega arith;
  }

  pub read-IsSoundRecord :
      (repo : ClaimStore) (p e : String) (r : ProcessedEvent)
      → IsSound repo
      → get repo p e ≡ some r
      → (n : ℕ) × (find repo p e ≡ some (r, n)) × IsSoundRecord p e r n
  read-IsSoundRecord repo p e r s h =
      let (n, found) = get-some repo p e r h in (n, found, s.at p e r n found)

  module _ (positive : 0 < c.max_attempts) where
    claim-IsSound :
        (event : ProjectEvent) (token : String) (now : ℕ) (repo : ClaimStore)
        → IsSound repo
        → IsSound (claim c event token now repo).1
    claim-IsSound event token now repo s =
        go (claim c event token now repo) (claim_effect c event token now repo)
      where
        go :
            (answer : Result EventClaimResult × ClaimStore)
            → ClaimEffect c event token now repo answer
            → IsSound answer.1
        go answer (ClaimEffect.same r told e) = rw (ap (λ p. p.1) e) s
        go answer (ClaimEffect.began b told made) =
            unfold first_claim in
            wrote-IsSound repo answer.1 (strip_event (first_claim c event token now)) 0
              (first-IsSoundRecord event token now positive made.valid) made.finds s
        go answer (ClaimEffect.expired r b found ours free spent told made) =
            let (n, _, sound) =
              read-IsSoundRecord repo event.project_id event.idempotency_key r s found in
            Saved-IsSound (exhausted r now) (some r.version) repo answer.1 b
              (unfold exhausted in sound.bounded) made s
        go answer (ClaimEffect.retook r b found ours free left told made) =
            Saved-IsSound (reclaimed c r token now) (some r.version) repo answer.1 b
              (unfold reclaimed in ground arith) made s

    close-IsSound :
        (event : ProjectEvent) (token : String) (now : ℕ) (next : ProcessedEvent → ProcessedEvent)
        (repo : ClaimStore) (answer : Result ProcessedEvent × ClaimStore)
        → ((r : ProcessedEvent) → (next r).attempts ≡ r.attempts)
        → IsSound repo
        → CloseEffect event token now next repo answer
        → IsSound answer.1
    close-IsSound event token now next repo answer keeps s (CloseEffect.same x e) =
        rw (ap (λ p. p.1) e) s
    close-IsSound event token now next repo answer keeps s
          (CloseEffect.closed r b found live told made) =
        let (n, _, sound) =
          read-IsSoundRecord repo event.project_id event.idempotency_key r s found in
        Saved-IsSound (next r) (some r.version) repo answer.1 b (rw keeps sound.bounded) made s

    pub after-IsSound : (x : Call) (repo : ClaimStore) → IsSound repo → IsSound (after x repo)
    unfolding after completed failed
    after-IsSound (claims event token now) repo s = claim-IsSound event token now repo s
    after-IsSound (completes event token result_ref now) repo s =
        close-IsSound event token now (λ r. completed r result_ref now) repo
          (complete event token result_ref now repo) (λ r. refl) s
          (complete_effect event token result_ref now repo)
    after-IsSound (fails event token code summary terminal now) repo s =
        close-IsSound event token now (λ r. failed c r code summary terminal now) repo
          (fail c event token code summary terminal now repo) (λ r. refl) s
          (fail_effect c event token code summary terminal now repo)

    -- From a sound store, whatever calls follow, the store stays sound: every record stands under
    -- its key, carries its version, is valid, and was claimed at most `max_attempts` times.
    pub after_all-IsSound :
        (xs : List Call) (repo : ClaimStore) → IsSound repo → IsSound (after_all xs repo)
    unfolding after_all
    after_all-IsSound [] repo s = s
    after_all-IsSound (x ∷ xs) repo s = after_all-IsSound xs (after x repo) (after-IsSound x repo s)

pub IsSound-empty : (c : ClaimService) → IsSound c empty
unfolding find Dict.get
IsSound-empty c = record { at = λ p e r n h. absurd (cc h) }
