-- ===== src/Subscription/Endings.antt =====
-- internal/store/subscription_lifecycle.go: the end of an action.
use accounts.Base.{
  String, Bool, ◌&&◌, ◌||◌, not, Option, some, if◌then◌else◌, is_some, Result, ok, err, ◌>>=◌, ◌>>◌,
  fail_if, or_fail,
}
use accounts.Base.Word.{add64}
use accounts.Base.Json.{json_equal}
use accounts.Base.Text.{eqs, is_empty}
use accounts.Base.Dict.{lookup, insert}
use accounts.Base.Time.{Time}
use accounts.Finance.Requests.{finance_json}
use accounts.Finance.Refunds.{log_event}
use accounts.Finance.Operations.{has_status, operation_event}
use accounts.Finance.Types.{
  FinanceOperation, Fresh, finance_operation_succeeded, finance_operation_failed,
}
use accounts.Subscription.Actions.{lifecycle_of, is_open, lifecycle_action}
use accounts.Subscription.Types.{
  LifecycleError, SubscriptionLifecycle, Accounts, Reader, subscription_state_conflict,
  finance_record_not_found, finance_idempotency_conflict,
}

-- What the provider is known to have done, and what it leaves for later.
pub record Outcome : Type 0 where
  pub provider_id : String
  pub response : String
  pub confirmed : Bool
  pub pending_plan : String
  pub effective_at : Option Time

-- The operations whose success starts the cooldown.
unfoldable pub is_plan_change : Reader → FinanceOperation → Bool
is_plan_change reader op =
    eqs op.operation_type "subscription_renewal"
    || eqs op.operation_type "subscription_upgrade"
    || eqs op.operation_type "subscription_downgrade"
    || (eqs op.operation_type "subscription_purchase"
        && eqs (lifecycle_action reader "purchase" op.request) "upgrade")

abbrev pub sets_plan : FinanceOperation → Bool
sets_plan op =
    eqs op.operation_type "subscription_downgrade" || eqs op.operation_type "subscription_cancel"

-- The lifecycle once its operation has ended.
unfoldable pub released :
    Reader → Time → Outcome → FinanceOperation → SubscriptionLifecycle → SubscriptionLifecycle
unfolding is_plan_change
released reader now outcome op v = record v {
  last_change_at =
      if outcome.confirmed && is_plan_change reader op then some now else v.last_change_at;
  pending_plan_id =
      if outcome.confirmed && sets_plan op then outcome.pending_plan else v.pending_plan_id;
  effective_at = if outcome.confirmed && sets_plan op then outcome.effective_at else v.effective_at;
  operation_id = "";
  version = add64 v.version 1;
}

unfoldable pub finish_lifecycle :
    Reader
    → Time
    → Outcome
    → FinanceOperation
    → SubscriptionLifecycle
    → Result LifecycleError SubscriptionLifecycle
unfolding released
finish_lifecycle reader now outcome op v = do
  fail_if (not (eqs v.operation_id op.id)) subscription_state_conflict
  fail_if
      (if is_empty outcome.pending_plan
        then is_some outcome.effective_at
        else not (is_some outcome.effective_at))
      subscription_state_conflict
  fail_if (not outcome.confirmed && not (is_empty outcome.pending_plan)) subscription_state_conflict
  ok (released reader now outcome op v)

-- The operation once it has ended.
unfoldable pub ended : Time → Outcome → FinanceOperation → FinanceOperation
ended now outcome op = record op {
  status = if outcome.confirmed then finance_operation_succeeded else finance_operation_failed;
  provider_operation_id = outcome.provider_id;
  response = finance_json outcome.response;
  updated_at = now;
}

unfoldable pub put_end :
    Fresh → String → String → SubscriptionLifecycle → FinanceOperation → Accounts → Accounts
put_end fresh user id v op s = record s {
  ledger =
      log_event id
        (record (operation_event fresh.event_id "attempt_finished" op.response "" op) {
          operation_id = id;
          provider_operation_id = op.provider_operation_id;
        })
        (record s.ledger { operations = insert id op s.ledger.operations });
  lifecycles = insert user v s.lifecycles;
}

-- A provider's reference that is known may not change.
abbrev pub has_other_reference : String → FinanceOperation → Bool
has_other_reference provider_id op =
    not (is_empty op.provider_operation_id) && not (eqs op.provider_operation_id provider_id)

-- A report on an operation that has ended must agree with its end.
unfoldable pub repeat_end :
    Reader → Outcome → FinanceOperation → Accounts → Result LifecycleError (Unit {0} × Accounts)
repeat_end reader outcome op s =
    if (if has_status finance_operation_succeeded op
        then not outcome.confirmed
        else outcome.confirmed)
      || not (json_equal reader.unmarshal op.response (finance_json outcome.response))
    then err finance_idempotency_conflict
    else ok (tt, s)

unfoldable pub end_action :
    Reader
    → Fresh
    → String
    → String
    → Outcome
    → FinanceOperation
    → Accounts
    → Result LifecycleError (Unit {0} × Accounts)
unfolding finish_lifecycle ended put_end
end_action reader fresh user id outcome op s = do
  v ← finish_lifecycle reader fresh.now outcome op (lifecycle_of user s)
  ok (tt, put_end fresh user id v (ended fresh.now outcome op) s)

unfoldable pub finish_subscription_action :
    Reader
    → Fresh
    → String
    → String
    → Outcome
    → Accounts
    → Result LifecycleError (Unit {0} × Accounts)
finish_subscription_action reader fresh user id outcome s = do
  op ← or_fail (lookup id s.ledger.operations) finance_record_not_found
  fail_if (not (eqs op.target_id user) || not (eqs op.target_type "account"))
      finance_record_not_found
  fail_if (has_other_reference outcome.provider_id op) finance_idempotency_conflict
  let repeated = repeat_end reader outcome op s
  let made = end_action reader fresh user id outcome op s
  (if is_open op then made else repeated)
