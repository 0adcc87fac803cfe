-- ===== src/Finance/Tests/Theorems.antt =====
-- The theorems on the finance ledger at the concrete ledgers.
use accounts.Base.{◌+◌, ◌≤◌, ◌<◌, ◌≡◌, ◌≢◌, refl, some, true, false, ok, err}
use accounts.Base.Word.{half_word, eq64}
use accounts.Base.Json.{json_equal, deep_equal}
use accounts.Base.Text.{trim, has_prefix}
use accounts.Base.Dict.{lookup, total}
use accounts.Finance.Types.{
  FinanceInvoice, FinancePayment, FinanceRefund, FinanceOperation, operation_in_progress,
  nil_pointer,
}
use accounts.Finance.Refunds.{
  committed, record_finance_refund, normalize_refund, new_refund, bind_refund, check_operation,
  dated_refund, put_refund,
}
use accounts.Finance.Coverage.{exposure, paid, refund_value, others_value}
use accounts.Finance.Coverage.Reachable.{ExactReach-covered, ExactReach-committed}
use accounts.Finance.Settlement.{Reach-settles, Reach-paid_once}
use accounts.Finance.RefundRetry.{record_finance_refund-retry}
use accounts.Finance.Retry.{record_finance_payment-retry}
use accounts.Finance.Pointers.{Reach-pointers}
use accounts.Finance.Attempts.{get_finance_operation}
use accounts.Finance.Exclusion.{begin_finance_operation-exclusive}
use accounts.Finance.Requests.{
  finance_id, finance_provider, finance_currency, valid_finance_currency, finance_refund_request,
  finance_refund_attempt_expired,
}
use accounts.Finance.Payments.{record_finance_payment, normalize_payment, new_payment}
use accounts.Finance.Operations.{
  begin_finance_operation, normalize_operation, begin_request, pick_operation, check_reservation,
  start_operation,
}
use accounts.Finance.Tests.{
  plain, exact4, at, payment, refund, operation, store1, store2, store3, store4, reach2, reach4,
}

ExactReach-covered_example :
    (exposure plain "p1" store4 ≤ paid "p1" store4) × (paid "p1" store4 < half_word)
ExactReach-covered_example = ExactReach-covered plain exact4 "p1"

ExactReach-committed_example :
    committed plain "another" "p1" store4
    ≡ total (refund_value "p1") store4.refunds
      + total (others_value plain store4.refund_keys "another" "p1") store4.operations
ExactReach-committed_example = ExactReach-committed plain exact4 "another" "p1"

abbrev stored_payment : FinancePayment
stored_payment = record payment { paid_at = 2; created_at = 2 }

Reach-settles_example :
    (i : FinanceInvoice) × (lookup "i1" store4.invoices ≡ some i)
    × (i.account_uuid ≡ "acct")
    × (i.currency ≡ "USD")
    × (eq64 i.amount_minor 1000 ≡ true)
Reach-settles_example = Reach-settles plain reach4 "p1" stored_payment refl

Reach-paid_once_example : stored_payment.id ≡ "p1"
Reach-paid_once_example =
    Reach-paid_once plain reach4 "p1" "p1" stored_payment stored_payment refl refl refl

records_first :
    record_finance_payment plain (at 2) payment store1 ≡ ok (true, stored_payment, store2)
unfolding record_finance_payment normalize_payment new_payment finance_id finance_provider
    finance_currency valid_finance_currency trim
records_first = refl

record_finance_payment-retry_example :
    record_finance_payment plain (at 9) payment store2
    ≡ ok (false, record payment { id = "p1"; created_at = 2 }, store2)
record_finance_payment-retry_example =
    record_finance_payment-retry plain (at 2) (at 9) payment stored_payment store1 store2
      records_first

abbrev started_operation : FinanceOperation
started_operation = record operation {
  status = "in_progress";
  attempt_count = 1;
  response = "{}";
  created_at = 3;
  updated_at = 3;
}

begins_first :
    begin_finance_operation plain (at 3) operation store2 ≡ ok (true, started_operation, store3)
unfolding begin_finance_operation normalize_operation begin_request pick_operation check_reservation
    start_operation finance_refund_request finance_id finance_provider finance_currency
    valid_finance_currency trim
begins_first = refl

begin_finance_operation-exclusive_example :
    begin_finance_operation plain (at 9) operation store3 ≡ err operation_in_progress
unfolding json_equal deep_equal finance_refund_attempt_expired has_prefix finance_provider trim
begin_finance_operation-exclusive_example =
    begin_finance_operation-exclusive plain (at 3) (at 9) operation started_operation store3 reach2
      refl refl begins_first refl

Reach-pointers_example :
    (begin_finance_operation plain (at 9) operation store4 ≢ err nil_pointer)
    × (get_finance_operation "ok" store4 ≢ err nil_pointer)
Reach-pointers_example = Reach-pointers plain reach4 (at 9) operation "ok"

abbrev stored_refund : FinanceRefund
stored_refund = record refund { refunded_at = 4; created_at = 4 }

refunds_first : record_finance_refund plain (at 4) refund store3 ≡ ok (true, stored_refund, store4)
unfolding record_finance_refund normalize_refund new_refund bind_refund check_operation committed
    dated_refund put_refund finance_refund_request finance_id finance_provider finance_currency
    valid_finance_currency trim
refunds_first = refl

record_finance_refund-retry_example :
    record_finance_refund plain (at 9) refund store4
    ≡ ok (false, record refund { id = "r1"; created_at = 4 }, store4)
record_finance_refund-retry_example =
    record_finance_refund-retry plain (at 4) (at 9) refund stored_refund store3 store4 refunds_first
