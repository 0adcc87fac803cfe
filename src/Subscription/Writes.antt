-- ===== src/Subscription/Writes.antt =====
-- internal/store: the writes of the operations on a lifecycle that succeed.
use accounts.Base.{ℕ, ◌≡◌, String, true, false, some, ◌⊎◌, arith, ok}
use accounts.Base.Word.{eq64}
use accounts.Base.Text.{eqs, is_empty}
use accounts.Base.Dict.{lookup, insert}
use accounts.Finance.Refunds.{text_at}
use accounts.Finance.Types.{FinanceOperation, Fresh}
use accounts.Subscription.Policy.{check_subscription_action}
use accounts.Subscription.Actions.{
  lifecycle_of, is_user, is_open, check_lifecycle_preview_version, lifecycle_action, repeat_action,
  new_action, reserve_subscription_action, action_operation, put_action,
}
use accounts.Subscription.Endings.{
  Outcome, finish_subscription_action, finish_lifecycle, repeat_end, end_action, released, ended,
  put_end,
}
use accounts.Subscription.Purchases.{
  create_subscription_refund_review, valid_review, new_review, repeat_review, put_review,
  review_operation, suspend_purchase, unreconciled,
}
use accounts.Subscription.Types.{Accounts, Reader, SubscriptionLifecycle}

abbrev pub owned : String → Accounts → SubscriptionLifecycle
owned user s = record (lifecycle_of user s) { account_id = user }

module _ (reader : Reader) (fresh : Fresh) (user key action request : String) (s t : Accounts) where
  pub reserve_subscription_action-writes :
      (o : FinanceOperation)
      → reserve_subscription_action reader fresh user key action request s ≡ ok (o, t)
      → (t ≡ s)
        ⊎ ((is_empty (text_at key s.ledger.operation_keys) ≡ true)
            × (is_empty key ≡ false)
            × (is_user user s ≡ true)
            × (check_lifecycle_preview_version reader request (lifecycle_of user s).version ≡ ok tt)
            × (check_subscription_action
                  (owned user s)
                  (lifecycle_action reader action request)
                  fresh.now
                ≡ ok tt)
            × (o ≡ action_operation fresh user key action request)
            × (t
                ≡ put_action fresh user key
                    (owned user s)
                    (action_operation fresh user key action request)
                    s))
  unfolding reserve_subscription_action repeat_action new_action
  reserve_subscription_action-writes o h = ground arith

module _ (reader : Reader) (fresh : Fresh) (user id : String) (outcome : Outcome)
    (s t : Accounts) where
  pub finish_subscription_action-writes :
      finish_subscription_action reader fresh user id outcome s ≡ ok (tt, t)
      → (t ≡ s)
        ⊎ ((op : FinanceOperation) × (lookup id s.ledger.operations ≡ some op)
            × (eqs op.target_id user ≡ true)
            × (eqs op.target_type "account" ≡ true)
            × (is_open op ≡ true)
            × (eqs (lifecycle_of user s).operation_id op.id ≡ true)
            × (t
                ≡ put_end fresh user id
                    (released reader fresh.now outcome op (lifecycle_of user s))
                    (ended fresh.now outcome op)
                    s))
  unfolding finish_subscription_action repeat_end end_action finish_lifecycle
  finish_subscription_action-writes h = ground arith

pub suspend_purchase-writes :
    (fresh : Fresh) (id provider_id response : String) (s t : Accounts)
    → suspend_purchase fresh id provider_id response s ≡ ok (tt, t)
    → (t ≡ s)
      ⊎ ((op : FinanceOperation) × (lookup id s.ledger.operations ≡ some op)
          × (eqs op.operation_type "subscription_purchase" ≡ true)
          × (is_open op ≡ true)
          × (t ≡ record s {
            ledger = record s.ledger {
              operations =
                  insert id (unreconciled fresh provider_id response op) s.ledger.operations;
            };
          }))
unfolding suspend_purchase
suspend_purchase-writes fresh id provider_id response s t h = ground arith

pub create_subscription_refund_review-writes :
    (fresh : Fresh) (op o : FinanceOperation) (expected : ℕ) (s t : Accounts)
    → create_subscription_refund_review fresh op expected s ≡ ok (o, t)
    → (valid_review op ≡ true)
      × ((t ≡ s)
          ⊎ ((is_empty (text_at op.idempotency_key s.ledger.operation_keys) ≡ true)
              × (is_empty (lifecycle_of op.target_id s).operation_id ≡ true)
              × (eq64 (lifecycle_of op.target_id s).version expected ≡ true)
              × (o ≡ review_operation fresh op)
              × (t ≡ put_review fresh (lifecycle_of op.target_id s) (review_operation fresh op) s)))
unfolding create_subscription_refund_review repeat_review new_review review_operation
create_subscription_refund_review-writes fresh op o expected s t h = ground arith
