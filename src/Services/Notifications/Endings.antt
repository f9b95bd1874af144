-- ===== src/Services/Notifications/Endings.antt =====
-- How `deliver` (app/services/delivery_notifications.py) ends.
use ogaforeman.Base.{
  ℕ, zero, suc, ◌+◌, ◌<◌, ◌≡◌, refl, sym, ap, ◌∙◌, String, true, false, Option, none, some, arith,
  Result, ok, err, Error, inl, inr, Bool-cases, leb, delivery_notification, ◌≤◌,
}
use ogaforeman.Base.Dict.{Dict}
use ogaforeman.Base.Exec.{>>=-eq-ok}
use ogaforeman.Domain.ProcessedEvent.{ProjectEvent}
use ogaforeman.Domain.Activity.{Json, Texts}
use ogaforeman.Domain.Outbox.{OutboxMessage, outbox_message}
use ogaforeman.Repositories.Memory.{get, create}
use ogaforeman.Repositories.Memory.Guards.{create-ok}
use ogaforeman.Repositories.Memory.Transactions.{run_transaction-done, run_transaction-same}
use ogaforeman.Services.Session.{Session, on_outbox}
use ogaforeman.Services.Notifications.Messages.{
  NotificationService, delivery_id, queued, is_same_delivery,
}
use ogaforeman.Services.Notifications.{queue_notice, record_notice, queue_found, queue}
use ogaforeman.Services.Notifications.Delivery.{
  Round, Step, End, is_done, round, settle_round, settle_queue, deliver_loop, deliver,
}
use ogaforeman.Services.Outbox.Calls.{IsTracked, create-IsTracked}
use ogaforeman.Services.Notifications.Rounds.{IsRound, round-ok}

-- It ended, and a message that it returns is completed or skipped.
pub record IsEnd (o : Option End) : Type 0 where
  pub end : End
  pub ended : o ≡ some end
  pub done : (b : OutboxMessage) → end.0 ≡ ok b → is_done b ≡ true

module _ (x : Texts) (c : NotificationService) (event : ProjectEvent) (run_id : String) where
  failing-IsEnd : (e : Error) (s : Session) → IsEnd (some (err e, s))
  failing-IsEnd e s = record { end = (err e, s); ended = refl; done = λ b h. absurd (cc h) }

  returning-IsEnd : (b : OutboxMessage) (s : Session) → is_done b ≡ true → IsEnd (some (ok b, s))
  returning-IsEnd b s e = record {
    end = (ok b, s);
    ended = refl;
    done = λ d h. ground (arith, e, h);
  }

  settle_round-IsEnd :
      (again : OutboxMessage → Session → Option End) (m : OutboxMessage) (r : Result Step)
      (s : Session)
      → ((step : Step) → r ≡ ok step → IsRound x c event run_id m s step)
      → ((b : OutboxMessage)
          → IsTracked event.project_id s b
          → b.attempts ≡ m.attempts + 1
          → IsEnd (again b s))
      → IsEnd (settle_round again (r, s))
  settle_round-IsEnd again m (err e) s facts next = failing-IsEnd e s
  settle_round-IsEnd again m (ok (Step.returns b)) s facts next =
      elim (facts (Step.returns b) refl) [ IsRound.returned e ↦ returning-IsEnd b s e ]
  settle_round-IsEnd again m (ok (Step.breaks b)) s facts next =
      failing-IsEnd delivery_notification s
  settle_round-IsEnd again m (ok (Step.continues b)) s facts next =
      elim (facts (Step.continues b) refl) [ IsRound.went_on t n ↦ next b t n ]

  loop-IsEnd :
      (fuel : ℕ) (rounds : ℕ → Round) (i : ℕ) (m : OutboxMessage) (s : Session)
      → 0 < fuel
      → c.max_attempts < fuel + m.attempts
      → IsTracked event.project_id s m
      → IsEnd (deliver_loop x c event run_id fuel rounds i m s)
  unfolding deliver_loop
  loop-IsEnd zero rounds i m s some_fuel enough t = absurd (omega arith)
  loop-IsEnd (suc fuel) rounds i m s some_fuel enough t =
      elim (Bool-cases (leb c.max_attempts m.attempts)) [
        | inl e ↦ rw (e, deliver_loop) (failing-IsEnd delivery_notification s)
        | inr e ↦
            let below : m.attempts < c.max_attempts = ground (arith, e) in
            rw (e, deliver_loop)
              (settle_round-IsEnd (deliver_loop x c event run_id fuel rounds (i + 1)) m
                (round x c event run_id m (rounds i) s).0 (round x c event run_id m (rounds i) s).1
                (λ step h. round-ok x c event run_id m (rounds i) s step t h)
                (λ b t' n.
                  loop-IsEnd fuel rounds (i + 1) b (round x c event run_id m (rounds i) s).1
                    (omega (arith, enough, below)) (omega (arith, enough, n)) t'))
      ]

  project_of :
      (payload : Dict Json) (now : ℕ) → (queued x c event payload now).project_id ≡ event.project_id
  unfolding queued
  project_of payload now = refl

  -- The message that the queue answers with stands under its key.
  queue_found-IsTracked :
      (payload : Dict Json) (now audit : ℕ) (o : Option OutboxMessage) (s : Session)
      (m : OutboxMessage)
      → get s.outbox event.project_id (delivery_id x c event) ≡ o
      → ((b : OutboxMessage)
          → o ≡ some b
          → (b.project_id ≡ event.project_id) × (b.id ≡ delivery_id x c event))
      → (queue_found x c event run_id payload now audit o s).0 ≡ ok m
      → IsTracked event.project_id (queue_found x c event run_id payload now audit o s).1 m
  unfolding queue_found
  queue_found-IsTracked payload now audit (some b) s m found keys h =
      elim (Bool-cases (is_same_delivery x c event payload b)) [
        | inl e ↦
            let is_b : m ≡ b = ground (arith, h, e) in
            let (project, same_id) = keys b refl in
            rw (e, is_b)
              (record {
                found = ap (λ i. get s.outbox event.project_id i) same_id ∙ found;
                project = project;
              })
        | inr e ↦ absurd (ground (arith, h, e))
      ]
  queue_found-IsTracked payload now audit none s m found keys h =
      let q = queued x c event payload now in
      let noting = record_notice x c event run_id q (queue_notice c.provider) audit in
      let (_, _, rest) = >>=-eq-ok noting (λ _. on_outbox (create outbox_message q)) s h in
      let made : (create outbox_message q (noting s).1.outbox).0 ≡ ok m =
        ap (λ p. p.0) (sym rest) ∙ h in
      rw rest (
        create-IsTracked event.project_id q m (noting s).1
          (on_outbox (create outbox_message q) (noting s).1).1 (project_of payload now)
          (create-ok outbox_message q (noting s).1.outbox m made))

  queue-IsTracked :
      (payload : Dict Json) (now audit : ℕ) (s : Session) (m : OutboxMessage)
      → ((b : OutboxMessage)
          → get s.outbox event.project_id (delivery_id x c event) ≡ some b
          → (b.project_id ≡ event.project_id) × (b.id ≡ delivery_id x c event))
      → (queue x c event run_id payload now audit s).0 ≡ ok m
      → IsTracked event.project_id (queue x c event run_id payload now audit s).1 m
  unfolding queue
  queue-IsTracked payload now audit s m keys h =
      let (same, returned) = run_transaction-done _ s m h in
      rw same (
        queue_found-IsTracked payload now audit
          (get s.outbox event.project_id (delivery_id x c event)) s m refl keys returned)

  -- If the message of the delivery stands under its key, `deliver` ends after at most one round
  -- more than the attempts that are allowed, whatever the clocks, the tokens and the provider
  -- do; if it returns a message, the message is completed or skipped.
  pub deliver_ends :
      (rounds : ℕ → Round) (payload : Dict Json) (now audit : ℕ) (s : Session)
      → ((b : OutboxMessage)
          → get s.outbox event.project_id (delivery_id x c event) ≡ some b
          → (b.project_id ≡ event.project_id) × (b.id ≡ delivery_id x c event))
      → IsEnd (deliver x c event run_id (c.max_attempts + 1) rounds payload now audit s)
  unfolding deliver
  deliver_ends rounds payload now audit s keys =
      go (queue x c event run_id payload now audit s)
        (λ m. queue-IsTracked payload now audit s m keys)
    where
      go :
          (q : End)
          → ((m : OutboxMessage) → q.0 ≡ ok m → IsTracked event.project_id q.1 m)
          → IsEnd (settle_queue (deliver_loop x c event run_id (c.max_attempts + 1) rounds 0) q)
      go (err e, s') tracked = failing-IsEnd e s'
      go (ok m, s') tracked = elim (Bool-cases (is_done m)) [
        | inl e ↦ rw (e, settle_queue) (returning-IsEnd m s' e)
        | inr e ↦
            rw (e, settle_queue)
              (loop-IsEnd (c.max_attempts + 1) rounds 0 m s' (omega arith) (omega arith)
                (tracked m refl))
      ]

  -- A message of the delivery that has used up its attempts, and is neither completed nor skipped,
  -- stays as it is: `deliver` raises and changes nothing, at whatever time it is called.
  pub exhausted_stays :
      (fuel : ℕ) (rounds : ℕ → Round) (payload : Dict Json) (now audit : ℕ) (s : Session)
      (m : OutboxMessage)
      → get s.outbox event.project_id (delivery_id x c event) ≡ some m
      → is_same_delivery x c event payload m ≡ true
      → is_done m ≡ false
      → c.max_attempts ≤ m.attempts
      → deliver x c event run_id (suc fuel) rounds payload now audit s
        ≡ some (err delivery_notification, s)
  unfolding deliver deliver_loop queue queue_found
  exhausted_stays fuel rounds payload now audit s m found same going many =
      let again : queue x c event run_id payload now audit s ≡ (ok m, s) =
        run_transaction-same
          (λ s.
            queue_found x c event run_id payload now audit
              (get s.outbox event.project_id (delivery_id x c event)) s)
          s (ok m) (rw (found, same) refl) in
      let exhausted : leb c.max_attempts m.attempts ≡ true = ground (arith, many) in
      ap (λ q. settle_queue (deliver_loop x c event run_id (suc fuel) rounds 0) q) again
      ∙ rw (going, exhausted, settle_queue, deliver_loop) refl
