-- ===== src/Services/Notifications/Bounds.antt =====
-- The backoff of app/services/delivery_notifications.py.
use ogaforeman.Base.{
  ℕ, zero, suc, ◌+◌, ◌-◌, ◌*◌, ◌^◌, ◌≤◌, ◌<◌, ◌≡◌, refl, ap, ◌∙◌, String, none, some, arith, ok,
  inl, inr, Bool-cases,
}
use ogaforeman.Domain.Enums.{OutboxStatus}
use ogaforeman.Domain.ProcessedEvent.{ProjectEvent}
use ogaforeman.Domain.Activity.{Texts}
use ogaforeman.Domain.Outbox.{OutboxMessage}
use ogaforeman.Repositories.Memory.{at_version}
use ogaforeman.Services.Session.{Session}
use ogaforeman.Services.Notifications.Messages.{
  Provider, NotificationService, notification_service, GatewayError, backoff, is_last, failed,
}
use ogaforeman.Services.Notifications.{record_failure}
use ogaforeman.Services.Notifications.Steps.{close-ok}

limits :
    (p : Provider) (max base lease : ℕ) (c : NotificationService)
    → notification_service p max base lease ≡ ok c
    → (c.max_attempts ≤ 5) × (c.base_backoff ≤ 10 * 10 ^ 6)
unfolding notification_service
limits p max base lease c h = ground (arith, h)

power_bound : (n : ℕ) → n < 5 → 2 ^ (n - 1) ≤ 8
power_bound zero h = omega arith
power_bound (suc zero) h = omega arith
power_bound (suc (suc zero)) h = omega arith
power_bound (suc (suc (suc zero))) h = omega arith
power_bound (suc (suc (suc (suc zero)))) h = omega arith
power_bound (suc (suc (suc (suc (suc n))))) h = absurd (omega arith)

mul_mono_left : (a b c : ℕ) → a ≤ c → a * b ≤ c * b
mul_mono_left a zero c h = omega arith
mul_mono_left a (suc b) c h = omega (arith, h, mul_mono_left a b c h)

mul_mono_right : (c b d : ℕ) → b ≤ d → c * b ≤ c * d
mul_mono_right zero b d h = omega arith
mul_mono_right (suc c) b d h = omega (arith, h, mul_mono_right c b d h)

mul_mono : (a b c d : ℕ) → a ≤ c → b ≤ d → a * b ≤ c * d
mul_mono a b c d h k = omega (arith, mul_mono_left a b c h, mul_mono_right c b d k)

-- How a failure that was recorded leaves the message: dead-lettered, or due again within 80 seconds.
pub data IsScheduled (c : NotificationService) (m : OutboxMessage) (now : ℕ) (b : OutboxMessage)
    : Type 0 where
  dead : b.status ≡ OutboxStatus.dead_lettered → b.next_attempt_at ≡ none → IsScheduled c m now b
  again :
      (delay : ℕ)
      → b.status ≡ OutboxStatus.failed
      → m.attempts < c.max_attempts
      → b.next_attempt_at ≡ some (now + delay)
      → delay ≤ 80 * 10 ^ 6
      → IsScheduled c m now b

-- With a service that the constructor accepts, a failure that is recorded leaves the message either
-- dead-lettered and not due again, or failed after fewer attempts than allowed and due again after
-- a delay of at most 80 seconds.
pub backoff_bounded :
    (x : Texts) (p : Provider) (max base lease : ℕ) (c : NotificationService) (event : ProjectEvent)
    (run_id : String) (m : OutboxMessage) (e : GatewayError) (now audit : ℕ) (s : Session)
    (b : OutboxMessage)
    → notification_service p max base lease ≡ ok c
    → (record_failure x c event run_id m e now audit s).0 ≡ ok b
    → IsScheduled c m now b
unfolding record_failure failed at_version is_last backoff
backoff_bounded x p max base lease c event run_id m e now audit s b made h =
    let k = close-ok x c event run_id m (failed c m e now) _ audit s b h in
    let (few, small) = limits p max base lease c made in
    elim (Bool-cases (is_last c m e)) [
      | inl last ↦
          IsScheduled.dead (ap (λ (m : OutboxMessage). m.status) k.saved.stored ∙ rw last refl)
            (ap (λ (m : OutboxMessage). m.next_attempt_at) k.saved.stored ∙ rw last refl)
      | inr more ↦
          let below : m.attempts < c.max_attempts = ground (arith, more) in
          IsScheduled.again (backoff c m)
            (ap (λ (m : OutboxMessage). m.status) k.saved.stored ∙ rw more refl) below
            (ap (λ (m : OutboxMessage). m.next_attempt_at) k.saved.stored ∙ rw more refl)
            (mul_mono c.base_backoff (2 ^ (m.attempts - 1)) (10 * 10 ^ 6) 8 small
              (power_bound m.attempts (omega (arith, below, few))))
    ]
