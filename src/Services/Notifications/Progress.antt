-- ===== src/Services/Notifications/Progress.antt =====
-- When the calls of app/services/delivery_notifications.py return: a message that is due is
-- delivered if the provider takes it.
use Prim.Native.String.{count}
use ogaforeman.Base.{ℕ, ◌+◌, ◌≤◌, ◌≡◌, refl, ap, ◌∙◌, String, false, none, some, arith, ok, str_eq}
use ogaforeman.Base.Strip.{strip-strip, count-strip}
use ogaforeman.Base.Exec.{Exec, pure, resume, ◌>>◌}
use ogaforeman.Domain.ProcessedEvent.{ProjectEvent, is_blank}
use ogaforeman.Domain.Activity.{
  Texts, ActivityEvent, activity_event, strip_activity, activity_id, build_event, validate_activity,
}
use ogaforeman.Domain.Outbox.{
  OutboxMessage, outbox_message, strip_message, validate_outbox, is_invalid_message,
}
use ogaforeman.Repositories.Memory.{
  get, find, save, at_version, write, setdefault, validate_for_create,
}
use ogaforeman.Repositories.Memory.Find.{get-none, find-write, find-setdefault}
use ogaforeman.Repositories.Memory.Guards.{save_accepted, create_accepted}
use ogaforeman.Services.Session.{Session, on_outbox}
use ogaforeman.Services.Outbox.{keep_activity}
use ogaforeman.Services.Notifications.Messages.{
  NotificationService, NotificationDeliveryResult, claimed, is_unavailable, delivered,
}
use ogaforeman.Services.Notifications.{
  Notice, notice_context, notice_event, record_notice, save_noted,
}

-- The session after an activity was stored.
unfoldable pub stored : ActivityEvent → Session → Session
stored a s = record s {
  activities = write a.project_id a.id (strip_activity a, 0) (setdefault a.project_id s.activities);
}

-- An activity under a free id is stored.
keep_activity-stored :
    (p : String) (a : ActivityEvent) (s : Session)
    → a.project_id ≡ p
    → validate_activity (strip_activity a) ≡ ok tt
    → get s.activities p a.id ≡ none
    → keep_activity p a s ≡ (ok tt, stored a s)
unfolding keep_activity validate_for_create stored
keep_activity-stored p a s project valid free =
    let empty : find s.activities a.project_id a.id ≡ none =
      rw project (get-none s.activities p a.id free) in
    let made = create_accepted activity_event a s.activities empty (rw valid refl) in
    ground (arith, free, made)

-- Every other id keeps what it had.
pub get-stored :
    (p key : String) (a : ActivityEvent) (s : Session)
    → str_eq a.id key ≡ false
    → get s.activities p key ≡ none
    → get (stored a s).activities p key ≡ none
unfolding get stored
get-stored p key a s other free = ground (
  arith,
  find-write a.project_id a.id p key (strip_activity a, 0) (setdefault a.project_id s.activities),
  find-setdefault a.project_id p key s.activities,
)

module _ (x : Texts) (c : NotificationService) (event : ProjectEvent) (run_id : String) where
  -- The id of the entry of the audit for a phase.
  unfoldable pub notice_id : String → String → String
  notice_id id phase = activity_id x (notice_context x c event run_id id phase 0)

  -- The session after a message was saved and the change recorded.
  unfoldable pub noted : (OutboxMessage → Notice) → ℕ → OutboxMessage → ℕ → Session → Session
  noted notice now b n s =
      stored (notice_event x c event run_id b (notice b) now)
        (record s { outbox = write b.project_id b.id (b, n) s.outbox })

  pub save_noted-noted :
      (notice : OutboxMessage → Notice) (audit : ℕ) (next old : OutboxMessage) (n : ℕ) (s : Session)
      → find s.outbox next.project_id next.id ≡ some (old, n)
      → validate_outbox (at_version outbox_message next (n + 1)) ≡ ok tt
      → get s.activities event.project_id
          (notice_id next.id (notice (at_version outbox_message next (n + 1))).phase)
        ≡ none
      → save_noted x c event run_id notice audit next (some n) s ≡ (
        ok (at_version outbox_message next (n + 1)),
        noted notice audit (at_version outbox_message next (n + 1)) (n + 1) s,
      )
  unfolding save_noted record_notice noted notice_id notice_event notice_context build_event
      activity_id at_version validate_activity
  save_noted-noted notice audit next old n s found valid free =
      let b = at_version outbox_message next (n + 1) in
      let wrote = save_accepted outbox_message next old n s.outbox found valid in
      let t : Session = record s { outbox = write next.project_id next.id (b, n + 1) s.outbox } in
      let kept =
        keep_activity-stored event.project_id (notice_event x c event run_id b (notice b) audit) t
          refl refl free in
      let saving : Exec Session OutboxMessage = on_outbox (save outbox_message next (some n)) in
      let step : saving s ≡ (ok b, t) = ap (λ p. (p.0, record s { outbox = p.1 })) wrote in
      let rest : OutboxMessage → Exec Session OutboxMessage =
        λ saved. record_notice x c event run_id saved (notice saved) audit >> pure saved in
      ap (λ q. resume q.0 rest q.1) step ∙ ap (λ q. resume q.0 (λ _. pure b) q.1) kept

  -- What a delivery needs of the message, the clock and the token: the message is stored, valid and
  -- due, and no entry of the audit stands in its way.
  pub record IsDue (m : OutboxMessage) (token : String) (now : ℕ) (s : Session) : Type 0 where
    pub found : find s.outbox event.project_id m.id ≡ some (m, m.version)
    pub project : m.project_id ≡ event.project_id
    pub valid : validate_outbox (strip_message m) ≡ ok tt
    pub due : is_unavailable m now ≡ false
    pub token_given : is_blank (some token) ≡ false

  pub claimed-valid :
      (m : OutboxMessage) (token : String) (now n : ℕ)
      → validate_outbox (strip_message m) ≡ ok tt
      → is_unavailable m now ≡ false
      → is_blank (some token) ≡ false
      → validate_outbox (at_version outbox_message (claimed c token now m) n) ≡ ok tt
  unfolding validate_outbox is_invalid_message claimed at_version is_unavailable
  claimed-valid m token now n valid due given = ground (arith, valid, due, given)

  pub delivered-valid :
      (m : OutboxMessage) (token : String) (now n k later : ℕ) (result : NotificationDeliveryResult)
      → validate_outbox (strip_message m) ≡ ok tt
      → m.created_at ≤ later
      → count result.provider_message_id ≤ 500
      → validate_outbox (
          at_version outbox_message
            (delivered result later (at_version outbox_message (claimed c token now m) n))
            k)
        ≡ ok tt
  unfolding validate_outbox is_invalid_message claimed delivered at_version
  delivered-valid m token now n k later result valid after short =
      rw (strip-strip m.message_type, strip-strip m.deduplication_key)
        (ground (arith, valid, after, short, count-strip result.provider_message_id))
