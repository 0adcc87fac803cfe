-- ===== src/Finance/Payments.antt =====
-- internal/store/finance_memory.go: the payments (`RecordFinancePayment`, `ListFinancePayments`,
-- `GetFinancePaymentByProvider`).
use accounts.Base.{
  ℕ, String, Bool, true, false, ◌&&◌, ◌||◌, not, Option, none, some, List, ltb, ◌==◌, any, find,
  keep, sort_by, if◌then◌else◌, Result, ok, ◌>>=◌, ◌>>◌, fail_if, or_fail,
}
use accounts.Base.Word.{eq64, sle}
use accounts.Base.Text.{eqs, is_empty, trim}
use accounts.Base.Dict.{lookup, contains, insert, values}
use accounts.Base.Time.{is_zero}
use accounts.Finance.Requests.{
  finance_id, finance_provider, finance_currency, valid_finance_currency,
}
use accounts.Finance.Invoices.{at_most}
use accounts.Finance.Types.{
  Error, record_not_found, idempotency_conflict, invoice_already_paid, nil_pointer, FinanceInvoice,
  FinancePayment, Store, Library, Fresh,
}

unfoldable pub normalize_payment : Library → Fresh → FinancePayment → FinancePayment
normalize_payment lib fresh payment = record payment {
  id = finance_id fresh.id payment.id;
  idempotency_key = trim payment.idempotency_key;
  invoice_id = trim payment.invoice_id;
  account_uuid = trim payment.account_uuid;
  provider = finance_provider lib payment.provider;
  currency = finance_currency lib payment.currency;
  provider_payment_id = trim payment.provider_payment_id;
}

unfoldable pub same_payment : FinancePayment → FinancePayment → Bool
same_payment payment old =
    eqs old.invoice_id payment.invoice_id
    && eq64 old.amount_minor payment.amount_minor
    && eqs old.currency payment.currency
    && eqs old.provider payment.provider
    && eqs old.provider_payment_id payment.provider_payment_id
    && (is_zero payment.paid_at || (payment.paid_at == old.paid_at))

unfoldable pub repeat_payment :
    String → FinancePayment → FinancePayment → Store → Result Error (Bool × FinancePayment × Store)
repeat_payment id raw payment s = do
  old ← or_fail (lookup id s.payments) nil_pointer
  fail_if (not (same_payment payment old)) idempotency_conflict
  ok (false, record raw { id = old.id; created_at = old.created_at }, s)

-- The invoice is there, and the payment is of its account, its currency and its whole amount.
abbrev pub settles : FinancePayment → Option FinanceInvoice → Bool
settles payment none = false
settles payment (some invoice) =
    eqs invoice.account_uuid payment.account_uuid
    && eqs invoice.currency payment.currency
    && eq64 invoice.amount_minor payment.amount_minor

abbrev pub pays_for : String → FinancePayment → Bool
pays_for invoice payment = eqs payment.invoice_id invoice

abbrev pub has_provider_payment : String → String → FinancePayment → Bool
has_provider_payment provider id payment =
    eqs payment.provider provider && eqs payment.provider_payment_id id

-- The payment as it is stored.
abbrev pub dated : Fresh → FinancePayment → FinancePayment
dated fresh payment = record payment {
  paid_at = if is_zero payment.paid_at then fresh.now else payment.paid_at;
  created_at = fresh.now;
}

unfoldable pub put_payment : FinancePayment → Store → Store
put_payment payment s = record s {
  payments = insert payment.id payment s.payments;
  payment_keys = insert payment.idempotency_key payment.id s.payment_keys;
}

unfoldable pub new_payment :
    Fresh → FinancePayment → Store → Result Error (Bool × FinancePayment × Store)
unfolding put_payment
new_payment fresh payment s = do
  fail_if (not (settles payment (lookup payment.invoice_id s.invoices))) idempotency_conflict
  fail_if (any (pays_for payment.invoice_id) (values s.payments)) invoice_already_paid
  fail_if (contains payment.id s.payments) idempotency_conflict
  fail_if
      (not (is_empty payment.provider_payment_id)
        && any (has_provider_payment payment.provider payment.provider_payment_id)
            (values s.payments))
      idempotency_conflict
  ok (true, dated fresh payment, put_payment (dated fresh payment) s)

unfoldable pub record_finance_payment :
    Library → Fresh → FinancePayment → Store → Result Error (Bool × FinancePayment × Store)
record_finance_payment lib fresh raw s = do
  fail_if (is_empty (trim raw.idempotency_key) || sle raw.amount_minor 0) idempotency_conflict
  let payment = normalize_payment lib fresh raw
  fail_if (not (valid_finance_currency payment.currency)) idempotency_conflict
  elim (lookup payment.idempotency_key s.payment_keys) [
    | some id ↦ repeat_payment id raw payment s
    | none ↦ new_payment fresh payment s
  ]

abbrev newer_payment : FinancePayment → FinancePayment → Bool
newer_payment a b = ltb b.created_at a.created_at

unfoldable pub list_finance_payments : String → ℕ → Store → List FinancePayment
list_finance_payments account limit s = at_most limit (
    sort_by newer_payment (
      keep (λ (p : FinancePayment). is_empty account || eqs p.account_uuid account)
        (values s.payments)))

unfoldable pub get_finance_payment_by_provider :
    Library → String → String → Store → Result Error FinancePayment
get_finance_payment_by_provider lib provider provider_payment_id s = do
  fail_if (is_empty (trim provider_payment_id)) record_not_found
  or_fail
      (find (has_provider_payment (finance_provider lib provider) (trim provider_payment_id))
        (values s.payments))
      record_not_found
