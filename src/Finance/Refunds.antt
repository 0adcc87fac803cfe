-- ===== src/Finance/Refunds.antt =====
-- internal/store/finance_memory.go: the refunds (`RecordFinanceRefund`, `ListFinanceRefunds`).
use accounts.Base.{
  ℕ, String, Bool, true, false, ◌&&◌, ◌||◌, not, Option, none, some, List, [], ◌∷◌, ◌++◌, ltb, ◌==◌,
  any, keep, get_or, sort_by, if◌then◌else◌, Result, ok, err, ◌>>=◌, ◌>>◌, fail_if, or_fail,
}
use accounts.Base.Word.{eq64, sle, slt, add64, sub64}
use accounts.Base.Text.{eqs, is_empty, trim}
use accounts.Base.Dict.{Dict, lookup, contains, insert, values}
use accounts.Base.Time.{is_zero}
use accounts.Finance.Requests.{
  finance_id, finance_provider, finance_currency, valid_finance_currency, finance_refund_request,
  finance_operation_reserves_refund, finance_refund_matches_operation,
}
use accounts.Finance.Invoices.{at_most}
use accounts.Finance.Types.{
  Error, record_not_found, idempotency_conflict, refund_exceeds_payment, nil_pointer,
  FinancePayment, FinanceRefund, FinanceOperation, FinanceOperationEvent, Store, Library, Fresh,
}

unfoldable pub normalize_refund : Library → Fresh → FinanceRefund → FinanceRefund
normalize_refund lib fresh refund = record refund {
  id = finance_id fresh.id refund.id;
  idempotency_key = trim refund.idempotency_key;
  payment_id = trim refund.payment_id;
  provider = finance_provider lib refund.provider;
  currency = finance_currency lib refund.currency;
  provider_refund_id = trim refund.provider_refund_id;
  reason = trim refund.reason;
}

unfoldable pub same_refund : FinanceRefund → FinanceRefund → Bool
same_refund refund old =
    eqs old.payment_id refund.payment_id
    && eq64 old.amount_minor refund.amount_minor
    && eqs old.currency refund.currency
    && eqs old.provider refund.provider
    && eqs old.provider_refund_id refund.provider_refund_id
    && eqs old.reason (trim refund.reason)
    && (is_zero refund.refunded_at || (refund.refunded_at == old.refunded_at))

unfoldable pub repeat_refund :
    String → FinanceRefund → FinanceRefund → Store → Result Error (Bool × FinanceRefund × Store)
repeat_refund id raw refund s = do
  old ← or_fail (lookup id s.refunds) nil_pointer
  fail_if (not (same_refund refund old)) idempotency_conflict
  ok (false, record raw { id = old.id; created_at = old.created_at }, s)

-- `m[k]` for a map of texts, where a missing key reads as the empty text.
abbrev pub text_at : String → Dict String → String
text_at k m = get_or (lookup k m) ""

-- What the sum over a map comes to in int64, entry by entry.
abbrev pub total64 {ℓ} : {V : Type ℓ} → (V → ℕ) → Dict V → ℕ
total64 f [] = 0
total64 f ((k, v) ∷ m) = add64 (f v) (total64 f m)

-- What a refund takes from the payment.
abbrev pub refunded : String → FinanceRefund → ℕ
refunded payment refund = if eqs refund.payment_id payment then refund.amount_minor else 0

abbrev pub requested_amount : Result Error (ℕ × String) → ℕ
requested_amount (ok (amount, currency)) = amount
requested_amount (err e) = 0

-- What an operation reserves of the payment while its own refund has not been recorded.
unfoldable pub reserved : Library → Dict String → String → FinanceOperation → ℕ
reserved lib refund_keys payment operation =
    if finance_operation_reserves_refund operation
      && eqs operation.target_id payment
      && is_empty (text_at operation.idempotency_key refund_keys)
    then requested_amount (finance_refund_request lib operation)
    else 0

-- The same, but nothing for the operation of the given key.
unfoldable pub reserved_by_others : Library → Dict String → String → String → FinanceOperation → ℕ
reserved_by_others lib refund_keys key payment operation =
    if eqs operation.idempotency_key key then 0 else reserved lib refund_keys payment operation

-- `total` of `RecordFinanceRefund`.
unfoldable pub committed : Library → String → String → Store → ℕ
unfolding reserved_by_others reserved
committed lib key payment s =
    add64 (total64 (refunded payment) s.refunds)
      (total64 (reserved_by_others lib s.refund_keys key payment) s.operations)

-- Another operation that has the provider's reference already.
abbrev has_reference : String → FinanceRefund → FinanceOperation → Bool
has_reference operation_id refund other =
    not (eqs other.id operation_id)
    && eqs other.provider refund.provider
    && eqs other.operation_type "refund"
    && eqs other.provider_operation_id refund.provider_refund_id

-- The operation of the same key, if there is one, must have asked for this refund.
unfoldable pub check_operation : Library → FinanceRefund → Store → Result Error (Unit {0})
check_operation lib refund s = elim (lookup refund.idempotency_key s.operation_keys) [
  | none ↦ ok tt
  | some operation_id ↦ do
    operation ← or_fail (lookup operation_id s.operations) nil_pointer
    fail_if (not (finance_refund_matches_operation lib operation refund)) idempotency_conflict
    fail_if (any (has_reference operation_id refund) (values s.operations)) idempotency_conflict
]

abbrev pub has_provider_refund : FinanceRefund → FinanceRefund → Bool
has_provider_refund refund existing =
    eqs existing.provider refund.provider
    && eqs existing.provider_refund_id refund.provider_refund_id

-- The refund as it is stored.
unfoldable pub dated_refund : Fresh → FinanceRefund → FinanceRefund
dated_refund fresh refund = record refund {
  refunded_at = if is_zero refund.refunded_at then fresh.now else refund.refunded_at;
  created_at = fresh.now;
}

unfoldable pub put_refund : FinanceRefund → Store → Store
put_refund refund s = record s {
  refunds = insert refund.id refund s.refunds;
  refund_keys = insert refund.idempotency_key refund.id s.refund_keys;
}

-- One more event of an operation.
abbrev pub log_event : String → FinanceOperationEvent → Store → Store
log_event id event s = record s {
  operation_events =
      insert id (get_or (lookup id s.operation_events) [] ++ event ∷ []) s.operation_events;
}

-- The event of a refund that is bound to an operation.
unfoldable pub refund_event :
    Library → Fresh → FinanceRefund → String → FinanceOperation → FinanceOperationEvent
refund_event lib fresh refund id op = record {
  id = fresh.event_id;
  operation_id = id;
  attempt = op.attempt_count;
  event_type = "refund_recorded";
  status = op.status;
  provider_operation_id = refund.provider_refund_id;
  payload =
      Prim.Native.String.◌++◌ "{\"refund_uuid\":"
        (Prim.Native.String.◌++◌ (lib.quote refund.id) "}");
  error = "";
  occurred_at = refund.created_at;
}

abbrev pub with_reference : String → FinanceOperation → FinanceOperation
with_reference reference op = record op { provider_operation_id = reference }

-- The operation of the same key takes the provider's reference, with an event.
unfoldable pub bind_refund : Library → Fresh → FinanceRefund → Store → Result Error Store
bind_refund lib fresh refund s =
    let id = text_at refund.idempotency_key s.operation_keys in
    if is_empty id then ok s else do
      op ← or_fail (lookup id s.operations) nil_pointer
      ok (
          log_event id (refund_event lib fresh refund id op) (record s {
            operations = insert id (with_reference refund.provider_refund_id op) s.operations;
          }))

unfoldable pub new_refund :
    Library → Fresh → FinanceRefund → Store → Result Error (Bool × FinanceRefund × Store)
new_refund lib fresh refund s = do
  checked ← check_operation lib refund s
  payment ← or_fail (lookup refund.payment_id s.payments) record_not_found
  fail_if (not (eqs payment.currency refund.currency)) record_not_found
  fail_if
      (slt (sub64 payment.amount_minor (committed lib refund.idempotency_key refund.payment_id s))
        refund.amount_minor)
      refund_exceeds_payment
  fail_if (contains refund.id s.refunds) idempotency_conflict
  fail_if
      (not (is_empty refund.provider_refund_id)
        && any (has_provider_refund refund) (values s.refunds))
      idempotency_conflict
  let made = dated_refund fresh refund
  t ← bind_refund lib fresh made (put_refund made s)
  ok (true, made, t)

unfoldable pub record_finance_refund :
    Library → Fresh → FinanceRefund → Store → Result Error (Bool × FinanceRefund × Store)
record_finance_refund lib fresh raw s = do
  fail_if (is_empty (trim raw.idempotency_key) || sle raw.amount_minor 0) idempotency_conflict
  let refund = normalize_refund lib fresh raw
  fail_if (not (valid_finance_currency refund.currency)) idempotency_conflict
  elim (lookup refund.idempotency_key s.refund_keys) [
    | some id ↦ repeat_refund id raw refund s
    | none ↦ new_refund lib fresh refund s
  ]

abbrev newer_refund : FinanceRefund → FinanceRefund → Bool
newer_refund a b = ltb b.created_at a.created_at

abbrev of_account : String → Option FinancePayment → Bool
of_account account none = false
of_account account (some payment) = is_empty account || eqs payment.account_uuid account

unfoldable pub list_finance_refunds : String → ℕ → Store → List FinanceRefund
list_finance_refunds account limit s = at_most limit (
    sort_by newer_refund (
      keep (λ (r : FinanceRefund). of_account account (lookup r.payment_id s.payments))
        (values s.refunds)))
