-- ===== src/Finance/Coverage/Facts.antt =====
-- internal/store/finance_memory.go: what an operation that succeeds has checked and written.
use accounts.Base.{◌≡◌, String, Bool, false, some, none, arith, ◌⊎◌, ok}
use accounts.Base.Word.{sub64, slt, sle}
use accounts.Base.Text.{is_empty}
use accounts.Base.Dict.{lookup, insert}
use accounts.Finance.Requests.{finance_id}
use accounts.Finance.Payments.{
  record_finance_payment, normalize_payment, repeat_payment, new_payment, dated, put_payment,
}
use accounts.Finance.Refunds.{
  record_finance_refund, normalize_refund, repeat_refund, new_refund, dated_refund, put_refund,
  bind_refund, committed, text_at, log_event, refund_event, with_reference,
}
use accounts.Finance.Types.{FinancePayment, FinanceRefund, FinanceOperation, Store, Library, Fresh}

pub finance_id-solid :
    (fresh id : String) → is_empty fresh ≡ false → is_empty (finance_id fresh id) ≡ false
unfolding finance_id
finance_id-solid fresh id h = ground arith

-- A payment that is recorded is new, of a positive amount, and stored under its id.
pub record_finance_payment-new :
    (lib : Library) (fresh : Fresh) (raw p : FinancePayment) (inserted : Bool) (s t : Store)
    → record_finance_payment lib fresh raw s ≡ ok (inserted, p, t)
    → let q = dated fresh (normalize_payment lib fresh raw) in
      (t ≡ s)
      ⊎ ((t ≡ put_payment q s) × (lookup q.id s.payments ≡ none) × (sle q.amount_minor 0 ≡ false))
unfolding record_finance_payment repeat_payment new_payment normalize_payment
record_finance_payment-new lib fresh raw p inserted s t h = ground arith

-- A refund that is recorded is new, and its amount was left of the payment.
pub record_finance_refund-new :
    (lib : Library) (fresh : Fresh) (raw r : FinanceRefund) (inserted : Bool) (s t : Store)
    → record_finance_refund lib fresh raw s ≡ ok (inserted, r, t)
    → let q = dated_refund fresh (normalize_refund lib fresh raw) in
      (t ≡ s)
      ⊎ ((bind_refund lib fresh q (put_refund q s) ≡ ok t)
          × ((payment : FinancePayment) × (lookup q.payment_id s.payments ≡ some payment)
              × (slt
                    (sub64 payment.amount_minor (committed lib q.idempotency_key q.payment_id s))
                    q.amount_minor
                  ≡ false))
          × (sle q.amount_minor 0 ≡ false)
          × (lookup q.id s.refunds ≡ none)
          × (lookup q.idempotency_key s.refund_keys ≡ none))
unfolding record_finance_refund repeat_refund new_refund normalize_refund dated_refund
record_finance_refund-new lib fresh raw r inserted s t h = ground arith

-- The binding of a refund changes no more than the reference of the operation of its key.
pub bind_refund-writes :
    (lib : Library) (fresh : Fresh) (q : FinanceRefund) (s t : Store)
    → bind_refund lib fresh q s ≡ ok t
    → let id = text_at q.idempotency_key s.operation_keys in
      (t ≡ s)
      ⊎ ((op : FinanceOperation) × (lookup id s.operations ≡ some op)
          × (t
              ≡ log_event id (refund_event lib fresh q id op) (record s {
                operations = insert id (with_reference q.provider_refund_id op) s.operations;
              })))
unfolding bind_refund
bind_refund-writes lib fresh q s t h = ground arith
