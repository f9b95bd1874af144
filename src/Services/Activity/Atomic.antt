-- ===== src/Services/Activity/Atomic.antt =====
-- app/services/activity.py: a mutation is made with all of its audit records or not at all.
use ogaforeman.Base.{
  ◌≡◌, refl, Bool, true, false, not, Option, none, some, List, ◌∷◌, map, any, distinct, str_eq, err,
  Error, if◌then◌else◌, value_error,
}
use ogaforeman.Domain.Activity.{Texts, MutationContext, ActivitySpec, ActivityEvent, build_event}
use ogaforeman.Base.Exec.{Exec, raise}
use ogaforeman.Repositories.Memory.{run_transaction}
use ogaforeman.Repositories.Memory.Transactions.{run_transaction-err}
use ogaforeman.Services.Session.{Session}
use ogaforeman.Services.Activity.{Mutation, mutate, mutate_in}

guarded_atomic :
    {A : Type 0} (bad foreign : Bool) (m : Exec Session A) (s : Session) (e : Error)
    → ((if bad then raise value_error else if foreign then raise value_error else run_transaction m)
        s).0
      ≡ err e
    → ((if bad then raise value_error else if foreign then raise value_error else run_transaction m)
        s).1
      ≡ s
guarded_atomic true foreign m s e h = refl
guarded_atomic false true m s e h = refl
guarded_atomic false false m s e h = run_transaction-err m s e h

-- Whatever the mutation, its replay and the additional activities do, a call of `mutate` that raises
-- leaves every repository as it was.
pub mutate_atomic :
    {A : Type 0} (mutation : Mutation A) (x : Texts) (context : Option MutationContext)
    (spec : ActivitySpec) (additional : List (MutationContext × ActivitySpec)) (s : Session)
    (e : Error)
    → (mutate mutation x context spec additional s).0 ≡ err e
    → (mutate mutation x context spec additional s).1 ≡ s
unfolding mutate
mutate_atomic mutation x none spec additional s e h = refl
mutate_atomic mutation x (some context) spec additional s e h =
    let expected = build_event x context spec in
    let others = map (λ (p : MutationContext × ActivitySpec). build_event x p.0 p.1) additional in
    guarded_atomic (not (distinct (expected.id ∷ map (λ (a : ActivityEvent). a.id) others)))
      (any (λ (a : ActivityEvent). not (str_eq a.project_id context.project_id)) others)
      (mutate_in mutation context expected others) s e h
