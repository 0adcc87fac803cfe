-- ===== src/Subscription/Actions.antt =====
-- internal/store/subscription_lifecycle.go: the reservation of an action and its end.
use accounts.Base.{
  ℕ, String, Bool, false, ◌&&◌, ◌||◌, not, Option, none, some, List, [], ◌∷◌, any, if◌then◌else◌,
  get_or, Result, ok, err, ◌>>◌, fail_if,
}
use accounts.Base.Word.{add64, eq64}
use accounts.Base.Json.{json_equal}
use accounts.Base.Text.{eqs, is_empty}
use accounts.Base.Dict.{lookup, insert, values}
use accounts.Finance.Requests.{finance_json}
use accounts.Finance.Refunds.{text_at, log_event}
use accounts.Finance.Operations.{has_status, operation_event}
use accounts.Finance.Types.{
  FinanceOperation, Fresh, finance_operation_in_progress, finance_operation_succeeded,
  finance_operation_failed,
}
use accounts.Subscription.Policy.{check_subscription_action}
use accounts.Subscription.Types.{
  LifecycleError, SubscriptionLifecycle, Accounts, Reader, user_not_found,
  subscription_state_conflict, subscription_change_pending, finance_idempotency_conflict,
}

-- The zero value of a lifecycle, which the map gives for a user without one.
abbrev pub new_lifecycle : SubscriptionLifecycle
new_lifecycle = record {
  account_id = "";
  version = 0;
  last_change_at = none;
  operation_id = "";
  pending_plan_id = "";
  effective_at = none;
  refund_review_pending = false;
}

abbrev pub lifecycle_of : String → Accounts → SubscriptionLifecycle
lifecycle_of user s = get_or (lookup user s.lifecycles) new_lifecycle

abbrev pub is_user : String → Accounts → Bool
is_user user s = any (eqs user) s.ledger.by_id

-- An operation that has ended neither way.
abbrev pub is_open : FinanceOperation → Bool
is_open op =
    not (has_status finance_operation_succeeded op) && not (has_status finance_operation_failed op)

abbrev pub is_pending : String → String → FinanceOperation → Bool
is_pending type user op =
    eqs op.operation_type type
    && eqs op.target_id user
    && eqs op.target_type "account"
    && is_open op

abbrev pub purchase_pending : String → FinanceOperation → Bool
purchase_pending user op = is_pending "subscription_purchase" user op

abbrev pub refund_review_pending : String → FinanceOperation → Bool
refund_review_pending user op = is_pending "refund_review" user op

unfoldable pub get_subscription_lifecycle :
    String → Accounts → Result LifecycleError SubscriptionLifecycle
get_subscription_lifecycle user s = do
  fail_if (not (is_user user s)) user_not_found
  let v = lifecycle_of user s
  ok (record v {
    account_id = user;
    refund_review_pending =
        v.refund_review_pending || any (refund_review_pending user) (values s.ledger.operations);
  })

-- A quote that names a version of the lifecycle is refused at any other.
unfoldable pub check_lifecycle_preview_version :
    Reader → String → ℕ → Result LifecycleError (Unit {0})
check_lifecycle_preview_version reader request version =
    let quoted : Option (Option ℕ) =
      if is_empty request then some none else reader.state_version request in
    elim quoted [
      | none ↦ err subscription_state_conflict
      | some none ↦ ok tt
      | some (some v) ↦ fail_if (not (eq64 v version)) subscription_state_conflict
    ]

abbrev pub subscription_type : String → String
subscription_type action = Prim.Native.String.◌++◌ "subscription_" action

abbrev pub action_operation : Fresh → String → String → String → String → FinanceOperation
action_operation fresh user key action request = record {
  id = fresh.id;
  idempotency_key = key;
  operation_type = subscription_type action;
  target_type = "account";
  target_id = user;
  provider = "stripe";
  provider_operation_id = "";
  status = finance_operation_in_progress;
  attempt_count = 1;
  next_attempt_at = none;
  last_error = "";
  request = finance_json request;
  response = "{}";
  created_at = fresh.now;
  updated_at = fresh.now;
}

unfoldable pub same_action : Reader → FinanceOperation → String → String → String → String → Bool
same_action reader op user key action request =
    eqs op.idempotency_key key
    && eqs op.target_id user
    && eqs op.target_type "account"
    && eqs op.operation_type (subscription_type action)
    && json_equal reader.unmarshal op.request (finance_json request)

-- What a purchase does to the lifecycle.
unfoldable pub lifecycle_action : Reader → String → String → String
lifecycle_action reader action request =
    if not (eqs action "purchase") then action else elim (reader.quoted_action request) [
      | some quoted ↦ if eqs quoted "upgrade" then "upgrade" else "subscribe"
      | none ↦ "subscribe"
    ]

-- The loop over the operations of the ledger: the first one that stands in the way decides.
unfoldable pub check_pending :
    Bool → String → List FinanceOperation → Result LifecycleError (Unit {0})
check_pending moves user [] = ok tt
check_pending moves user (op ∷ ops) =
    if purchase_pending user op
    then err LifecycleError.finance_operation_in_progress
    else if moves && refund_review_pending user op
    then err subscription_change_pending
    else check_pending moves user ops

-- The operation and the lifecycle that a reservation writes.
unfoldable pub put_action :
    Fresh → String → String → SubscriptionLifecycle → FinanceOperation → Accounts → Accounts
put_action fresh user key v op s = record s {
  ledger =
      log_event op.id
        (operation_event fresh.event_id "attempt_started" (finance_json op.request) "" op)
        (record s.ledger {
          operations = insert op.id op s.ledger.operations;
          operation_keys = insert key op.id s.ledger.operation_keys;
        });
  lifecycles =
      insert user (record v { operation_id = op.id; version = add64 v.version 1 }) s.lifecycles;
}

-- A copy of an operation, as it is returned.
abbrev pub cloned : FinanceOperation → FinanceOperation
cloned op = record op { request = finance_json op.request; response = finance_json op.response }

-- An operation of the key is returned if it is of the same action.
unfoldable pub repeat_action :
    Reader
    → String
    → String
    → String
    → String
    → String
    → Accounts
    → Result LifecycleError (FinanceOperation × Accounts)
unfolding same_action
repeat_action reader id user key action request s = elim (lookup id s.ledger.operations) [
  | none ↦ err finance_idempotency_conflict
  | some op ↦
      if same_action reader op user key action request
      then ok (cloned op, s)
      else err finance_idempotency_conflict
]

unfoldable pub new_action :
    Reader
    → Fresh
    → String
    → String
    → String
    → String
    → Accounts
    → Result LifecycleError (FinanceOperation × Accounts)
unfolding put_action lifecycle_action
new_action reader fresh user key action request s = do
  let v : SubscriptionLifecycle = record (lifecycle_of user s) { account_id = user }
  let kind = lifecycle_action reader action request
  check_lifecycle_preview_version reader request v.version
  check_subscription_action v kind fresh.now
  check_pending (eqs kind "upgrade" || eqs action "downgrade") user (values s.ledger.operations)
  let op = action_operation fresh user key action request
  ok (record op { request = finance_json op.request }, put_action fresh user key v op s)

unfoldable pub reserve_subscription_action :
    Reader
    → Fresh
    → String
    → String
    → String
    → String
    → Accounts
    → Result LifecycleError (FinanceOperation × Accounts)
reserve_subscription_action reader fresh user key action request s = do
  fail_if (not (is_user user s)) user_not_found
  fail_if (is_empty key) finance_idempotency_conflict
  let id = text_at key s.ledger.operation_keys
  let repeated = repeat_action reader id user key action request s
  let made = new_action reader fresh user key action request s
  (if not (is_empty id) then repeated else made)
