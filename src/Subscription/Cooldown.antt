-- ===== src/Subscription/Cooldown.antt =====
-- internal/store: the time between two changes of a subscription.
use accounts.Base.{
  ◌≡◌, ◌≢◌, ◌≤◌, ◌<◌, ◌+◌, refl, ap, subst, ◌∙◌, String, true, some, inl, inr, arith, ok, err,
  err_unless-ok,
}
use accounts.Base.Text.{is_empty}
use accounts.Base.Dict.{lookup}
use accounts.Base.Time.{Time}
use accounts.Finance.Refunds.{text_at}
use accounts.Finance.Types.{FinanceOperation, Fresh}
use accounts.Subscription.Policy.{
  check_subscription_action, subscription_change_cooldown, is_change, is_cooling,
}
use accounts.Subscription.Actions.{
  lifecycle_of, is_open, lifecycle_action, new_action, reserve_subscription_action,
}
use accounts.Subscription.Endings.{Outcome, is_plan_change, released, finish_subscription_action}
use accounts.Subscription.Machine.{Course, here, call, elsewhere, step}
use accounts.Subscription.Release.{finish_subscription_action-cases, lifecycle_of-end_state}
use accounts.Subscription.Types.{Accounts, Reader, LifecycleError, SubscriptionLifecycle}
use accounts.Subscription.Versions.{step-Moves, Moves}
use accounts.Subscription.Writes.{owned}

-- The last change is at the given time or later.
abbrev ChangedSince : Time → SubscriptionLifecycle → Type 0
ChangedSince since v = (t : Time) × (v.last_change_at ≡ some t) × (since ≤ t)

Moves-ChangedSince :
    (since now : Time) (v w : SubscriptionLifecycle)
    → since ≤ now
    → Moves now v w
    → ChangedSince since v
    → ChangedSince since w
Moves-ChangedSince since now v w later (inl e) (t, at, le) =
    (t, ap (λ (x : SubscriptionLifecycle). x.last_change_at) e ∙ at, le)
Moves-ChangedSince since now v w later (inr (_, inl e)) (t, at, le) = (t, e ∙ at, le)
Moves-ChangedSince since now v w later (inr (_, inr e)) (t, at, le) = (now, e, later)

Course-ChangedSince :
    (reader : Reader) (user : String) (since : Time) {from s : Accounts}
    → ChangedSince since (lifecycle_of user from)
    → Course reader since from s
    → ChangedSince since (lifecycle_of user s)
Course-ChangedSince reader user since c here = c
Course-ChangedSince reader user since c (call {s} r k fresh unused later) =
    Moves-ChangedSince since fresh.now (lifecycle_of user s)
      (lifecycle_of user (step reader k fresh s)) later (step-Moves reader fresh user s k)
      (Course-ChangedSince reader user since c r)
Course-ChangedSince reader user since c (elsewhere {s} r t leaves) =
    Course-ChangedSince reader user since c r

check_subscription_action-cooling :
    (reader : Reader) (user kind : String) (now since : Time) (s : Accounts)
    → is_change kind ≡ true
    → ChangedSince since (lifecycle_of user s)
    → now < since + subscription_change_cooldown
    → check_subscription_action (owned user s) kind now ≢ ok tt
unfolding check_subscription_action
check_subscription_action-cooling reader user kind now since s change (t, at, le) early =
    let cooling : is_cooling (lifecycle_of user s).last_change_at now ≡ true =
      rw at (ground arith) in
    λ admitted. ground arith

-- A confirmed change is dated.
finish_subscription_action-dates :
    (reader : Reader) (fresh : Fresh) (user id : String) (outcome : Outcome) (op : FinanceOperation)
    (s t : Accounts)
    → lookup id s.ledger.operations ≡ some op
    → is_open op ≡ true
    → is_plan_change reader op ≡ true
    → outcome.confirmed ≡ true
    → finish_subscription_action reader fresh user id outcome s ≡ ok (tt, t)
    → (lifecycle_of user t).last_change_at ≡ some fresh.now
unfolding released
finish_subscription_action-dates reader fresh user id outcome op s t found active change sure h =
    let (op', found', _, _, wrote) =
      finish_subscription_action-cases reader fresh user id outcome s t h in
    let same : op ≡ op' = ground arith in
    let changes : is_plan_change reader op' ≡ true =
      subst (λ x. is_plan_change reader x ≡ true) same change in
    elim wrote [
      | inl (closed, _, _, _) ↦ absurd (ground arith)
      | inr (_, e) ↦
          ap (λ (x : Accounts). (lifecycle_of user x).last_change_at) e
          ∙ ap (λ (v : SubscriptionLifecycle). v.last_change_at)
              (lifecycle_of-end_state reader fresh user id outcome op' s)
          ∙ rw (sure, changes) refl
    ]

reserve_subscription_action-admitted :
    (reader : Reader) (later : Fresh) (user key action request : String) (o : FinanceOperation)
    (s t : Accounts)
    → is_empty (text_at key s.ledger.operation_keys) ≡ true
    → reserve_subscription_action reader later user key action request s ≡ ok (o, t)
    → check_subscription_action (owned user s) (lifecycle_action reader action request) later.now
      ≡ ok tt
unfolding reserve_subscription_action new_action
reserve_subscription_action-admitted reader later user key action request o s t new h = ground arith

-- The cooldown holds whatever happens in between: once an upgrade, a downgrade, a renewal or a purchase that upgrades has been confirmed,
-- no new upgrade, downgrade or renewal of the account is reserved under a new key in the next 30 days, whatever calls are made from there on
-- (cancellations, purchases, reviews), as long as no clock goes back behind the confirmation.
pub reserve_subscription_action-cooldown :
    (reader : Reader) (fresh later : Fresh) (user id key action request : String)
    (outcome : Outcome) (op : FinanceOperation) (s t u : Accounts)
    → lookup id s.ledger.operations ≡ some op
    → is_open op ≡ true
    → is_plan_change reader op ≡ true
    → outcome.confirmed ≡ true
    → finish_subscription_action reader fresh user id outcome s ≡ ok (tt, t)
    → Course reader fresh.now t u
    → is_empty (text_at key u.ledger.operation_keys) ≡ true
    → is_change (lifecycle_action reader action request) ≡ true
    → later.now < fresh.now + subscription_change_cooldown
    → (e : LifecycleError) × (reserve_subscription_action reader later user key action request u
        ≡ err e)
reserve_subscription_action-cooldown reader fresh later user id key action request outcome op s t u
      found active change sure h course new moves early =
    let dated =
      finish_subscription_action-dates reader fresh user id outcome op s t found active change sure
        h in
    let cooling =
      Course-ChangedSince reader user fresh.now (fresh.now, dated, omega arith) course in
    err_unless-ok (reserve_subscription_action reader later user key action request u) λ r h'.
      check_subscription_action-cooling reader user (lifecycle_action reader action request)
        later.now fresh.now u moves cooling early
        (reserve_subscription_action-admitted reader later user key action request r.0 u r.1 new h')
