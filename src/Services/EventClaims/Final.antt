-- ===== src/Services/EventClaims/Final.antt =====
-- A completed or dead-lettered event stays as it is (app/services/event_claims.py).
use ogaforeman.Base.{
  ℕ, ◌<◌, ◌≡◌, refl, ap, ◌∙◌, inl, inr, String, Bool, true, false, ◌&&◌, ◌||◌, Option, none, some,
  List, [], ◌∷◌, arith, Result, ok, Bool-cases, str_eq, eq_iff,
}
use ogaforeman.Domain.Enums.{ProcessedEventStatus, same_claim}
use ogaforeman.Domain.ProcessedEvent.{ProcessedEvent, ProjectEvent, processed_event}
use ogaforeman.Repositories.Memory.{find}
use ogaforeman.Repositories.Memory.Guards.{Saved, Created}
use ogaforeman.Services.EventClaims.{
  ClaimService, ClaimStore, first_claim, exhausted, reclaimed, claim, completed, failed,
  require_active_claim, complete, fail, EventClaimResult,
}
use ogaforeman.Services.EventClaims.Rules.{
  is_free, ClaimEffect, claim_effect, CloseEffect, complete_effect, fail_effect,
}
use ogaforeman.Services.EventClaims.Safety.{
  Call, claims, completes, fails, after, after_all, IsSound, IsSoundRecord, read-IsSoundRecord,
  after-IsSound,
}

abbrev pub is_final : ProcessedEvent → Bool
is_final r =
    same_claim r.status ProcessedEventStatus.completed
    || same_claim r.status ProcessedEventStatus.dead_lettered

free-not_final : (r : ProcessedEvent) (now : ℕ) → is_free r now ≡ true → is_final r ≡ false
free-not_final r now h = ground arith

active-not_final :
    (r : ProcessedEvent) (token : String) (now : ℕ)
    → require_active_claim r token now ≡ ok tt
    → is_final r ≡ false
unfolding require_active_claim
active-not_final r token now h = ground arith

module _ (c : ClaimService) (positive : 0 < c.max_attempts) where
  pub own_found :
      {p e : String} (repo : ClaimStore) (r : ProcessedEvent) (m : ℕ)
      → IsSoundRecord c p e r m
      → find repo p e ≡ some (r, m)
      → find repo r.project_id r.id ≡ some (r, m)
  own_found {p} {e} repo r m sound at =
      ap (λ x. find repo x r.id) sound.of_project ∙ (ap (find repo p) sound.of_key ∙ at)

  module _ (q f : String) (r : ProcessedEvent) (n : ℕ) (final : is_final r ≡ true) where
    -- A write over a record that is not final leaves the final record at `q`, `f` alone.
    Saved-keeps :
        (x old : ProcessedEvent) (expected : Option ℕ) (repo repo' : ClaimStore)
        (b : ProcessedEvent) (m : ℕ)
        → Saved processed_event x expected repo repo' b
        → find repo x.project_id x.id ≡ some (old, m)
        → is_final old ≡ false
        → find repo q f ≡ some (r, n)
        → find repo' q f ≡ some (r, n)
    Saved-keeps x old expected repo repo' b m s found unfinished here =
        elim (Bool-cases (str_eq x.project_id q && str_eq x.id f)) [
          | inr away ↦ ground (arith, s.finds q f)
          | inl same ↦
              let p : x.project_id ≡ q = ground (arith, eq_iff x.project_id q) in
              let e : x.id ≡ f = ground (arith, eq_iff x.id f) in
              let there : find repo q f ≡ some (old, m) = rw (← p, ← e) found in
              absurd (ground arith)
        ]

    Created-keeps :
        (x : ProcessedEvent) (repo repo' : ClaimStore) (b : ProcessedEvent)
        → Created processed_event x repo repo' b
        → find repo q f ≡ some (r, n)
        → find repo' q f ≡ some (r, n)
    Created-keeps x repo repo' b made here =
        elim (Bool-cases (str_eq x.project_id q && str_eq x.id f)) [
          | inr away ↦ ground (arith, made.finds q f)
          | inl same ↦
              let p : x.project_id ≡ q = ground (arith, eq_iff x.project_id q) in
              let e : x.id ≡ f = ground (arith, eq_iff x.id f) in
              let nothing : find repo q f ≡ none = rw (← p, ← e) made.free in absurd (ground arith)
        ]

    claim_keeps :
        (event : ProjectEvent) (token : String) (now : ℕ) (repo : ClaimStore)
        → IsSound c repo
        → find repo q f ≡ some (r, n)
        → find (claim c event token now repo).1 q f ≡ some (r, n)
    claim_keeps event token now repo s here =
        go (claim c event token now repo) (claim_effect c event token now repo)
      where
        go :
            (answer : Result EventClaimResult × ClaimStore)
            → ClaimEffect c event token now repo answer
            → find answer.1 q f ≡ some (r, n)
        go answer (ClaimEffect.same r told e) = rw (ap (λ p. p.1) e) here
        go answer (ClaimEffect.began b told made) =
            Created-keeps (first_claim c event token now) repo answer.1 b made here
        go answer (ClaimEffect.expired old b found ours free spent told made) =
            let (m, at, sound) =
              read-IsSoundRecord c repo event.project_id event.idempotency_key old s found in
            Saved-keeps (exhausted old now) old (some old.version) repo answer.1 b m made
              (unfold exhausted in own_found repo old m sound at) (free-not_final old now free) here
        go answer (ClaimEffect.retook old b found ours free left told made) =
            let (m, at, sound) =
              read-IsSoundRecord c repo event.project_id event.idempotency_key old s found in
            Saved-keeps (reclaimed c old token now) old (some old.version) repo answer.1 b m made
              (unfold reclaimed in own_found repo old m sound at) (free-not_final old now free) here

    close_keeps :
        (event : ProjectEvent) (token : String) (now : ℕ) (next : ProcessedEvent → ProcessedEvent)
        (repo : ClaimStore) (answer : Result ProcessedEvent × ClaimStore)
        → ((x : ProcessedEvent) → ((next x).project_id ≡ x.project_id) × ((next x).id ≡ x.id))
        → IsSound c repo
        → CloseEffect event token now next repo answer
        → find repo q f ≡ some (r, n)
        → find answer.1 q f ≡ some (r, n)
    close_keeps event token now next repo answer keeps s (CloseEffect.same x e) here =
        rw (ap (λ p. p.1) e) here
    close_keeps event token now next repo answer keeps s
          (CloseEffect.closed old b found live told made) here =
        let (m, at, sound) =
          read-IsSoundRecord c repo event.project_id event.idempotency_key old s found in
        Saved-keeps (next old) old (some old.version) repo answer.1 b m made
          (ap (λ p. find repo p (next old).id) (keeps old).0
            ∙ (ap (find repo old.project_id) (keeps old).1 ∙ own_found repo old m sound at))
          (active-not_final old token now live) here

    after_keeps :
        (x : Call) (repo : ClaimStore)
        → IsSound c repo
        → find repo q f ≡ some (r, n)
        → find (after c x repo) q f ≡ some (r, n)
    unfolding after completed failed
    after_keeps (claims event token now) repo s here = claim_keeps event token now repo s here
    after_keeps (completes event token result_ref now) repo s here =
        close_keeps event token now (λ x. completed x result_ref now) repo
          (complete event token result_ref now repo) (λ x. (refl, refl)) s
          (complete_effect event token result_ref now repo) here
    after_keeps (fails event token code summary terminal now) repo s here =
        close_keeps event token now (λ x. failed c x code summary terminal now) repo
          (fail c event token code summary terminal now repo) (λ x. (refl, refl)) s
          (fail_effect c event token code summary terminal now repo) here

    -- In a sound store a completed or dead-lettered event is never claimed, completed or failed
    -- again: whatever calls follow, its record stays as it is, and so does its version.
    pub after_all-final :
        (xs : List Call) (repo : ClaimStore)
        → IsSound c repo
        → find repo q f ≡ some (r, n)
        → find (after_all c xs repo) q f ≡ some (r, n)
    unfolding after_all
    after_all-final [] repo s here = here
    after_all-final (x ∷ xs) repo s here =
        after_all-final xs (after c x repo) (after-IsSound c positive x repo s)
          (after_keeps x repo s here)
