-- ===== src/Subscription/Policy.antt =====
-- internal/store/subscription_lifecycle_policy.go: which actions a lifecycle admits.
use accounts.Base.{
  ℕ, ◌+◌, String, Bool, false, ◌&&◌, ◌||◌, not, Option, none, some, ltb, if◌then◌else◌, Result, err,
  ◌>>◌, fail_if,
}
use accounts.Base.Text.{eqs, is_empty}
use accounts.Base.Time.{Time}
use accounts.Subscription.Types.{
  LifecycleError, SubscriptionLifecycle, subscription_cooldown, subscription_state_conflict,
  subscription_change_pending, finance_operation_in_progress,
}

-- 30 days, in nanoseconds.
abbrev pub subscription_change_cooldown : ℕ
subscription_change_cooldown = 2592000000000000

-- `now.Before(*s.CooldownUntil())`, where there is one.
abbrev pub is_cooling : Option Time → Time → Bool
is_cooling none now = false
is_cooling (some t) now = ltb now (t + subscription_change_cooldown)

-- The actions that the cooldown keeps apart.
abbrev pub is_change : String → Bool
is_change action = eqs action "upgrade" || eqs action "downgrade" || eqs action "renewal"

-- The actions that a pending plan or review may stop.
abbrev pub is_order : String → Bool
is_order action = eqs action "subscribe" || is_change action

unfoldable pub check_kind : SubscriptionLifecycle → String → Result LifecycleError (Unit {0})
check_kind s action =
    if is_order action
    then if s.refund_review_pending && not (eqs action "subscribe")
      then err subscription_change_pending
      else fail_if (not (is_empty s.pending_plan_id)) subscription_change_pending
    else fail_if (not (eqs action "cancel" || eqs action "refund_execute"))
        subscription_state_conflict

unfoldable pub check_subscription_action :
    SubscriptionLifecycle → String → Time → Result LifecycleError (Unit {0})
unfolding check_kind
check_subscription_action s action now = do
  fail_if (not (is_empty s.operation_id)) finance_operation_in_progress
  check_kind s action
  fail_if (is_change action && is_cooling s.last_change_at now) subscription_cooldown
