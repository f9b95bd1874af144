-- ===== src/Services/Outbox/Calls.antt =====
-- What a write to the outbox and the entry of the audit after it did when they returned, in
-- app/services/outbox.py and app/services/delivery_notifications.py.
use ogaforeman.Base.{ℕ, ◌+◌, ◌≡◌, eq_refl, refl, sym, ap, ◌∙◌, String, Option, some, arith, ok}
use ogaforeman.Base.Exec.{Exec, pure, resume, ◌>>=◌, ◌>>◌, >>=-eq-ok}
use ogaforeman.Domain.Activity.{ActivityEvent}
use ogaforeman.Domain.Outbox.{OutboxMessage, outbox_message, strip_message}
use ogaforeman.Repositories.Memory.{find, get, require, save, at_version}
use ogaforeman.Repositories.Memory.Find.{get_of_find}
use ogaforeman.Repositories.Memory.Guards.{Saved, Created, save-ok}
use ogaforeman.Services.Session.{Session, on_outbox}
use ogaforeman.Services.Outbox.{keep_activity}

pub keep_activity-outbox :
    (p : String) (a : ActivityEvent) (s : Session) → (keep_activity p a s).1.outbox ≡ s.outbox
unfolding keep_activity
keep_activity-outbox p a s = ground arith

-- A write and an entry that leaves the outbox alone.
pub save_then-ok :
    (record_entry : OutboxMessage → Exec Session (Unit {0}))
    (keeps : (b : OutboxMessage) (s : Session) → (record_entry b s).1.outbox ≡ s.outbox)
    (next : OutboxMessage) (expected : Option ℕ) (s : Session) (b : OutboxMessage)
    → ((on_outbox (save outbox_message next expected) >>= λ saved. record_entry saved >> pure saved)
        s).0
      ≡ ok b
    → Saved outbox_message next expected s.outbox
        ((on_outbox (save outbox_message next expected) >>= λ saved.
            record_entry saved >> pure saved)
          s).1.outbox
        b
save_then-ok record_entry keeps next expected s b h =
    let saving : Exec Session OutboxMessage = on_outbox (save outbox_message next expected) in
    let (d, saved, rest) = >>=-eq-ok saving (λ d. record_entry d >> pure d) s h in
    let (_, _, last) =
      >>=-eq-ok (record_entry d) (λ _. pure d) (saving s).1 (ap (λ p. p.0) (sym rest) ∙ h) in
    let same : d ≡ b = cc in
    let kept : ((saving >>= λ saved. record_entry saved >> pure saved) s).1.outbox
        ≡ (save outbox_message next expected s.outbox).1 =
      ap (λ p. p.1.outbox) rest ∙ (ap (λ p. p.1.outbox) last ∙ keeps d (saving s).1) in
    rw kept (save-ok outbox_message next expected s.outbox b (saved ∙ ap ok same))

-- A message that was read is stored, and reading changes nothing.
pub require-ok :
    (p id : String) (s : Session) (m : OutboxMessage)
    → (on_outbox (require p id) s).0 ≡ ok m
    → (get s.outbox p id ≡ some m) × ((on_outbox (require p id) s).1 ≡ s)
unfolding require
require-ok p id s m h = ground arith

-- What follows a read of a stored message goes on with it.
pub require_then :
    {A : Type 0} (p id : String) (s : Session) (m : OutboxMessage)
    (rest : OutboxMessage → Exec Session A)
    → get s.outbox p id ≡ some m
    → (on_outbox (require p id) >>= rest) s ≡ rest m s
unfolding require
require_then p id s m rest found = ap (λ p. resume p.0 rest p.1) (require_at)
  where
    require_at : on_outbox (require p id) s ≡ (ok m, s)
    require_at = ground (arith, found)

-- A message that stands under its own project and id.
pub record IsTracked (p : String) (s : Session) (m : OutboxMessage) : Type 0 where
  pub found : get s.outbox p m.id ≡ some m
  pub project : m.project_id ≡ p

-- A saved message stands under its own project and id, if it keeps those of the one before.
pub save-IsTracked :
    (p : String) (a b : OutboxMessage) (expected : Option ℕ) (s s' : Session)
    → a.project_id ≡ p
    → Saved outbox_message a expected s.outbox s'.outbox b
    → (IsTracked p s' b) × (b.id ≡ a.id)
unfolding at_version
save-IsTracked p a b expected s s' project saved =
    let same_id : b.id ≡ a.id = ap (λ (m : OutboxMessage). m.id) saved.stored in
    let same_project : b.project_id ≡ a.project_id =
      ap (λ (m : OutboxMessage). m.project_id) saved.stored in
    let here : find s'.outbox p b.id ≡ some (b, saved.current + 1) =
      saved.finds p b.id ∙ rw (← project, same_id, eq_refl a.project_id, eq_refl a.id) refl in
    (
      record {
        found = get_of_find s'.outbox p b.id b (saved.current + 1) here;
        project = same_project ∙ project;
      },
      same_id,
    )

-- A created message stands under its own project and id.
pub create-IsTracked :
    (p : String) (a b : OutboxMessage) (s s' : Session)
    → a.project_id ≡ p
    → Created outbox_message a s.outbox s'.outbox b
    → IsTracked p s' b
create-IsTracked p a b s s' project made =
    let here : find s'.outbox p a.id ≡ some (strip_message a, 0) =
      made.finds p a.id ∙ rw (← project, eq_refl a.project_id, eq_refl a.id) refl in
    rw made.same
      (record { found = get_of_find s'.outbox p a.id (strip_message a) 0 here; project = project })
