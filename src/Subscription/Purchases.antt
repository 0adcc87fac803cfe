-- ===== src/Subscription/Purchases.antt =====
-- internal/store/subscription_purchase.go and subscription_refund_review.go: purchases, and the
-- requests for a review of a refund.
use accounts.Base.{
  ℕ, String, Bool, ◌&&◌, ◌||◌, not, Option, none, some, any, find, if◌then◌else◌, Result, ok, ◌>>=◌,
  ◌>>◌, fail_if, or_fail,
}
use accounts.Base.Word.{add64, eq64}
use accounts.Base.Text.{eqs, is_empty}
use accounts.Base.Dict.{lookup, insert, values}
use accounts.Finance.Requests.{finance_json}
use accounts.Finance.Refunds.{text_at, log_event}
use accounts.Finance.Operations.{operation_event}
use accounts.Finance.Types.{
  FinanceOperation, Fresh, finance_operation_in_progress, finance_operation_reconciliation_required,
}
use accounts.Subscription.Actions.{
  lifecycle_of, is_user, is_open, purchase_pending, cloned, reserve_subscription_action,
}
use accounts.Subscription.Endings.{has_other_reference, Outcome, finish_subscription_action}
use accounts.Subscription.Types.{
  LifecycleError, SubscriptionLifecycle, Accounts, Reader, user_not_found,
  subscription_state_conflict, finance_record_not_found, finance_idempotency_conflict, nil_pointer,
}

-- The first pending purchase that the range meets.
unfoldable pub pending_subscription_purchase : String → Accounts → Option FinanceOperation
pending_subscription_purchase user s =
    elim (find (purchase_pending user) (values s.ledger.operations)) [
      | none ↦ none
      | some op ↦ some (cloned op)
    ]

-- The key ends with a fresh id of its own.
unfoldable pub reserve_subscription_purchase :
    Reader
    → Fresh
    → String
    → String
    → String
    → Accounts
    → Result LifecycleError (FinanceOperation × Accounts)
reserve_subscription_purchase reader fresh key_id user request s =
    reserve_subscription_action reader fresh user
      (Prim.Native.String.◌++◌ "subscription-purchase:" key_id) "purchase" request s

-- What a receipt of a complete purchase says.
abbrev pub receipt_outcome : Reader → String → String → Outcome
receipt_outcome reader provider_id response = record {
  provider_id = provider_id;
  response = response;
  confirmed = eqs (reader.outcome response) "webhook_confirmed";
  pending_plan = "";
  effective_at = none;
}

-- The user of an operation, which is written once.
abbrev pub target_of : Option FinanceOperation → String
target_of none = ""
target_of (some op) = op.target_id

unfoldable pub complete_purchase :
    Reader
    → Fresh
    → String
    → String
    → String
    → Accounts
    → Result LifecycleError (Unit {0} × Accounts)
complete_purchase reader fresh id provider_id response s = do
  let user = target_of (lookup id s.ledger.operations)
  fail_if (is_empty user) finance_record_not_found
  finish_subscription_action reader fresh user id (receipt_outcome reader provider_id response) s

abbrev pub unreconciled : Fresh → String → String → FinanceOperation → FinanceOperation
unreconciled fresh provider_id response op = record op {
  provider_operation_id = provider_id;
  response = finance_json response;
  status = finance_operation_reconciliation_required;
  updated_at = fresh.now;
}

-- A purchase whose end is not known is left to the reconciliation.
unfoldable pub suspend_purchase :
    Fresh → String → String → String → Accounts → Result LifecycleError (Unit {0} × Accounts)
suspend_purchase fresh id provider_id response s = do
  op ← or_fail (lookup id s.ledger.operations) finance_record_not_found
  fail_if (not (eqs op.operation_type "subscription_purchase")) finance_record_not_found
  fail_if (has_other_reference provider_id op) finance_idempotency_conflict
  let written : Accounts = record s {
    ledger = record s.ledger {
      operations = insert id (unreconciled fresh provider_id response op) s.ledger.operations;
    };
  }
  ok (tt, (if is_open op then written else s))

unfoldable pub update_subscription_purchase :
    Reader
    → Fresh
    → String
    → String
    → String
    → Bool
    → Accounts
    → Result LifecycleError (Unit {0} × Accounts)
unfolding complete_purchase suspend_purchase
update_subscription_purchase reader fresh id provider_id response complete s =
    if complete
    then complete_purchase reader fresh id provider_id response s
    else suspend_purchase fresh id provider_id response s

abbrev pub review_key : String → String
review_key user = Prim.Native.String.◌++◌ "subscription-refund-review:" user

unfoldable pub valid_review : FinanceOperation → Bool
valid_review op =
    eqs op.operation_type "refund_review"
    && eqs op.target_type "account"
    && not (is_empty op.target_id)
    && eqs op.provider "stripe"
    && eqs op.idempotency_key (review_key op.target_id)

unfoldable pub review_operation : Fresh → FinanceOperation → FinanceOperation
review_operation fresh op = record op {
  id = fresh.id;
  request = finance_json op.request;
  response = "{}";
  status = finance_operation_in_progress;
  attempt_count = 1;
  created_at = fresh.now;
  updated_at = fresh.now;
}

unfoldable pub put_review : Fresh → SubscriptionLifecycle → FinanceOperation → Accounts → Accounts
put_review fresh v op s = record s {
  ledger =
      log_event op.id
        (operation_event fresh.event_id "review_requested" (finance_json op.request) "" op)
        (record s.ledger {
          operations = insert op.id op s.ledger.operations;
          operation_keys = insert op.idempotency_key op.id s.ledger.operation_keys;
        });
  lifecycles =
      insert op.target_id (record v { account_id = op.target_id; version = add64 v.version 1 })
        s.lifecycles;
}

unfoldable pub repeat_review :
    String → Accounts → Result LifecycleError (FinanceOperation × Accounts)
repeat_review id s = do
  saved ← or_fail (lookup id s.ledger.operations) nil_pointer
  ok (record saved { request = finance_json saved.request }, s)

unfoldable pub new_review :
    Fresh → FinanceOperation → ℕ → Accounts → Result LifecycleError (FinanceOperation × Accounts)
unfolding review_operation put_review
new_review fresh op expected s = do
  let v = lifecycle_of op.target_id s
  fail_if (not (is_empty v.operation_id) || not (eq64 v.version expected))
      subscription_state_conflict
  fail_if (any (purchase_pending op.target_id) (values s.ledger.operations))
      LifecycleError.finance_operation_in_progress
  let made = review_operation fresh op
  ok (record made { request = finance_json made.request }, put_review fresh v made s)

unfoldable pub create_subscription_refund_review :
    Fresh → FinanceOperation → ℕ → Accounts → Result LifecycleError (FinanceOperation × Accounts)
unfolding valid_review
create_subscription_refund_review fresh op expected s = do
  fail_if (not (valid_review op)) finance_idempotency_conflict
  fail_if (not (is_user op.target_id s)) user_not_found
  let id = text_at op.idempotency_key s.ledger.operation_keys
  let repeated = repeat_review id s
  let made = new_review fresh op expected s
  (if not (is_empty id) then repeated else made)
