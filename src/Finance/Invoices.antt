-- ===== src/Finance/Invoices.antt =====
-- internal/store/finance_memory.go: the invoices (`CreateFinanceInvoice`, `GetFinanceInvoice`,
-- `ListFinanceInvoices`).
use accounts.Base.{
  ℕ, String, Bool, true, false, ◌&&◌, ◌||◌, not, Option, none, some, List, [], ltb, ◌==◌, is_some,
  any, keep, take, get_or, sort_by, if◌then◌else◌, Result, ok, err, ◌>>=◌, ◌>>◌, fail_if, or_fail,
}
use accounts.Base.Word.{eq64, slt}
use accounts.Base.Text.{eqs, is_empty, trim}
use accounts.Base.Dict.{lookup, contains, insert, values}
use accounts.Base.Time.{Time, is_zero}
use accounts.Finance.Requests.{
  finance_id, finance_provider, finance_currency, valid_finance_currency, same_optional_time,
}
use accounts.Finance.Types.{
  Error, record_not_found, idempotency_conflict, nil_pointer, FinanceInvoice, Store, Library, Fresh,
}

unfoldable pub normalize_invoice : Library → Fresh → FinanceInvoice → FinanceInvoice
normalize_invoice lib fresh invoice = record invoice {
  id = finance_id fresh.id invoice.id;
  idempotency_key = trim invoice.idempotency_key;
  account_uuid = trim invoice.account_uuid;
  subscription_uuid = trim invoice.subscription_uuid;
  provider = finance_provider lib invoice.provider;
  currency = finance_currency lib invoice.currency;
  provider_invoice_id = trim invoice.provider_invoice_id;
  description = trim invoice.description;
  issued_at = if is_zero invoice.issued_at then fresh.now else invoice.issued_at;
}

-- A period has both ends or none, and its start lies before its end.
abbrev pub valid_period : Option Time → Option Time → Bool
valid_period none none = true
valid_period (some a) (some b) = ltb a b
valid_period _ _ = false

-- The subscription that an invoice names is one of its account.
abbrev pub known_subscription : FinanceInvoice → Store → Bool
known_subscription invoice s =
    is_empty invoice.subscription_uuid
    || any (eqs invoice.subscription_uuid) (get_or (lookup invoice.account_uuid s.subscriptions) [])

-- The invoice of an earlier request and that of its repetition; whether the time of issue was given counts.
unfoldable pub same_invoice : Bool → FinanceInvoice → FinanceInvoice → Bool
same_invoice issued_at_provided invoice old =
    eqs old.account_uuid invoice.account_uuid
    && eqs old.subscription_uuid invoice.subscription_uuid
    && eqs old.provider invoice.provider
    && eqs old.provider_invoice_id invoice.provider_invoice_id
    && eq64 old.amount_minor invoice.amount_minor
    && eqs old.currency invoice.currency
    && eqs old.description invoice.description
    && same_optional_time invoice.due_at old.due_at
    && (not issued_at_provided || (invoice.issued_at == old.issued_at))

abbrev set_period : Option Time → Option Time → FinanceInvoice → FinanceInvoice
set_period a b invoice = record invoice { service_period_start = a; service_period_end = b }

-- The stored invoice after a repeated request: a service period is added once and then stays.
unfoldable pub merge_period : FinanceInvoice → FinanceInvoice → Result Error FinanceInvoice
merge_period invoice old =
    if not (is_some invoice.service_period_start)
    then ok old
    else if is_some old.service_period_start || is_some old.service_period_end
    then if same_optional_time invoice.service_period_start old.service_period_start
        && same_optional_time invoice.service_period_end old.service_period_end
      then ok old
      else err idempotency_conflict
    else ok (set_period invoice.service_period_start invoice.service_period_end old)

abbrev pub put_invoice : FinanceInvoice → Store → Store
put_invoice invoice s = record s { invoices = insert invoice.id invoice s.invoices }

-- A request whose key has been seen: the caller's record takes the stored id, time and period.
unfoldable pub repeat_invoice :
    Bool
    → String
    → FinanceInvoice
    → FinanceInvoice
    → Store
    → Result Error (Bool × FinanceInvoice × Store)
unfolding same_invoice merge_period
repeat_invoice provided id raw invoice s = do
  old ← or_fail (lookup id s.invoices) nil_pointer
  fail_if (not (same_invoice provided invoice old)) idempotency_conflict
  old' ← merge_period invoice old
  ok (
    false,
    set_period old'.service_period_start old'.service_period_end
        (record raw { id = old'.id; created_at = old'.created_at }),
    record s { invoices = insert id old' s.invoices },
  )

abbrev pub has_provider_invoice : FinanceInvoice → FinanceInvoice → Bool
has_provider_invoice invoice existing =
    eqs existing.provider invoice.provider
    && eqs existing.provider_invoice_id invoice.provider_invoice_id

unfoldable pub new_invoice :
    Fresh → FinanceInvoice → Store → Result Error (Bool × FinanceInvoice × Store)
new_invoice fresh invoice s = do
  fail_if (contains invoice.id s.invoices) idempotency_conflict
  fail_if
      (not (is_empty invoice.provider_invoice_id)
        && any (has_provider_invoice invoice) (values s.invoices))
      idempotency_conflict
  let made = record invoice { created_at = fresh.now }
  ok (
    true,
    made,
    record s {
      invoices = insert made.id made s.invoices;
      invoice_keys = insert made.idempotency_key made.id s.invoice_keys;
    },
  )

unfoldable pub create_finance_invoice :
    Library → Fresh → FinanceInvoice → Store → Result Error (Bool × FinanceInvoice × Store)
create_finance_invoice lib fresh raw s = do
  fail_if
      (is_empty (trim raw.idempotency_key)
        || is_empty (trim raw.account_uuid)
        || slt raw.amount_minor 0)
      idempotency_conflict
  let invoice = normalize_invoice lib fresh raw
  fail_if (not (valid_finance_currency invoice.currency)) idempotency_conflict
  fail_if (not (valid_period invoice.service_period_start invoice.service_period_end))
      idempotency_conflict
  fail_if (not (any (eqs invoice.account_uuid) s.by_id)) record_not_found
  fail_if (not (known_subscription invoice s)) record_not_found
  elim (lookup invoice.idempotency_key s.invoice_keys) [
    | some id ↦ repeat_invoice (not (is_zero raw.issued_at)) id raw invoice s
    | none ↦ new_invoice fresh invoice s
  ]

unfoldable pub get_finance_invoice : String → Store → Result Error FinanceInvoice
get_finance_invoice id s = or_fail (lookup (trim id) s.invoices) record_not_found

-- `if limit > 0 && len(result) > limit { result = result[:limit] }`
abbrev pub at_most {ℓ} : {A : Type ℓ} → ℕ → List A → List A
at_most limit xs = if slt 0 limit then take limit xs else xs

abbrev newer_invoice : FinanceInvoice → FinanceInvoice → Bool
newer_invoice a b = ltb b.created_at a.created_at

unfoldable pub list_finance_invoices : String → String → ℕ → Store → List FinanceInvoice
list_finance_invoices account subscription limit s = at_most limit (
    sort_by newer_invoice (
      keep
        (λ (i : FinanceInvoice).
          (is_empty account || eqs i.account_uuid account)
          && (is_empty subscription || eqs i.subscription_uuid subscription))
        (values s.invoices)))
