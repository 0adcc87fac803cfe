-- ===== src/Finance/Operations.antt =====
-- internal/store/finance_memory.go: the start of an operation on a provider (`BeginFinanceOperation`).
use accounts.Base.{
  ℕ, String, Bool, true, false, ◌&&◌, ◌||◌, not, none, some, if◌then◌else◌, Result, ok, err, ◌>>=◌,
  ◌>>◌, fail_if, or_fail,
}
use accounts.Base.Word.{slt, add64, sub64}
use accounts.Base.Json.{json_equal}
use accounts.Base.Text.{eqs, is_empty, trim}
use accounts.Base.Dict.{lookup, contains, insert}
use accounts.Base.Time.{Time}
use accounts.Finance.Requests.{
  finance_id, finance_provider, finance_json, finance_refund_request,
  finance_refund_attempt_expired,
}
use accounts.Finance.Refunds.{total64, refunded, reserved_by_others, text_at, log_event}
use accounts.Finance.Types.{
  Error, record_not_found, idempotency_conflict, refund_exceeds_payment, operation_in_progress,
  operation_not_retryable, nil_pointer, FinanceRefund, FinanceOperation, FinanceOperationEvent,
  Store, Library, Fresh, finance_operation_pending, finance_operation_in_progress,
  finance_operation_succeeded, finance_operation_failed, finance_operation_reconciliation_required,
}

-- What `BeginFinanceOperation` first makes of the caller's record.
unfoldable pub normalize_operation : Library → FinanceOperation → FinanceOperation
normalize_operation lib operation = record operation {
  operation_type = trim operation.operation_type;
  target_type = trim operation.target_type;
  target_id = trim operation.target_id;
  provider = finance_provider lib operation.provider;
  request = finance_json operation.request;
}

abbrev pub is_refund : FinanceOperation → Bool
is_refund operation = eqs operation.operation_type "refund"

-- What a refund operation asks for; the amount and the currency are read from it for no other type.
unfoldable pub begin_request : Library → FinanceOperation → Result Error (ℕ × String)
begin_request lib operation =
    if is_refund operation
    then if not (eqs operation.target_type "payment") || is_empty operation.target_id
      then err idempotency_conflict
      else elim (finance_refund_request lib operation) [
        | ok request ↦ ok request
        | err e ↦ err idempotency_conflict
      ]
    else ok (0, "")

unfoldable pub same_operation : Library → FinanceOperation → FinanceOperation → Bool
same_operation lib operation stored =
    eqs stored.operation_type operation.operation_type
    && eqs stored.target_type operation.target_type
    && eqs stored.target_id operation.target_id
    && eqs stored.provider operation.provider
    && json_equal lib.unmarshal stored.request operation.request

abbrev pub has_status : String → FinanceOperation → Bool
has_status status operation = eqs operation.status status

-- An operation that may be started again.
abbrev pub is_retryable : Time → FinanceOperation → Bool
is_retryable now stored =
    has_status finance_operation_pending stored
    || has_status finance_operation_failed stored
    || has_status finance_operation_reconciliation_required stored
    || finance_refund_attempt_expired now stored

-- The stored operation of the key, once it may be started again; `inl` if it has succeeded and is returned.
unfoldable pub restart :
    Library → Time → FinanceOperation → String → Store → Result Error (Bool × FinanceOperation)
unfolding same_operation
restart lib now operation id s = do
  stored ← or_fail (lookup id s.operations) nil_pointer
  fail_if (not (same_operation lib operation stored)) idempotency_conflict
  fail_if
      (has_status finance_operation_in_progress stored
        && not (finance_refund_attempt_expired now stored))
      operation_in_progress
  fail_if (not (has_status finance_operation_succeeded stored) && not (is_retryable now stored))
      operation_not_retryable
  ok (has_status finance_operation_succeeded stored, stored)

-- The operation of a new key.
unfoldable pub first_attempt : Library → Fresh → String → FinanceOperation → FinanceOperation
first_attempt lib fresh key operation = record operation {
  id = finance_id fresh.id operation.id;
  idempotency_key = key;
  operation_type = trim operation.operation_type;
  target_type = trim operation.target_type;
  target_id = trim operation.target_id;
  provider = finance_provider lib operation.provider;
  status = finance_operation_pending;
  request = finance_json operation.request;
  response = "{}";
  created_at = fresh.now;
}

-- The operation to start, and whether it has succeeded already.
unfoldable pub pick_operation :
    Library → Fresh → String → FinanceOperation → Store → Result Error (Bool × FinanceOperation)
unfolding restart first_attempt
pick_operation lib fresh key operation s = elim (lookup key s.operation_keys) [
  | some id ↦ restart lib fresh.now operation id s
  | none ↦ do
    fail_if (contains (first_attempt lib fresh key operation).id s.operations) idempotency_conflict
    ok (false, first_attempt lib fresh key operation)
]

-- What a refund takes from the payment, but nothing for the one with the given id.
unfoldable pub refunded_besides : String → String → FinanceRefund → ℕ
refunded_besides own payment refund = if eqs refund.id own then 0 else refunded payment refund

-- `reserved` of `BeginFinanceOperation`.
unfoldable pub taken : Library → String → String → Store → ℕ
unfolding refunded_besides reserved_by_others
taken lib key payment s =
    add64 (total64 (refunded_besides (text_at key s.refund_keys) payment) s.refunds)
      (total64 (reserved_by_others lib s.refund_keys key payment) s.operations)

-- A refund operation must leave enough of its payment to the others.
unfoldable pub check_reservation :
    Library → String → ℕ → String → FinanceOperation → Store → Result Error (Unit {0})
unfolding taken
check_reservation lib key amount currency operation s =
    if not (is_refund operation) then ok tt else do
      payment ← or_fail (lookup operation.target_id s.payments) record_not_found
      fail_if (not (eqs payment.currency currency)) record_not_found
      fail_if (slt (sub64 payment.amount_minor (taken lib key payment.id s)) amount)
          refund_exceeds_payment

-- The operation with one more attempt.
unfoldable pub started : Time → FinanceOperation → FinanceOperation
started now stored = record stored {
  attempt_count = add64 stored.attempt_count 1;
  status = finance_operation_in_progress;
  updated_at = now;
}

-- What an attempt leaves in the log of its operation.
abbrev pub operation_event :
    String → String → String → String → FinanceOperation → FinanceOperationEvent
operation_event event_id type payload error operation = record {
  id = event_id;
  operation_id = operation.id;
  attempt = operation.attempt_count;
  event_type = type;
  status = operation.status;
  provider_operation_id = "";
  payload = payload;
  error = error;
  occurred_at = operation.updated_at;
}

-- The key of an operation is written once.
unfoldable pub put_operation : String → FinanceOperation → Store → Store
put_operation key operation s = record s {
  operations = insert operation.id operation s.operations;
  operation_keys =
      if contains key s.operation_keys
      then s.operation_keys
      else insert key operation.id s.operation_keys;
}

-- The end of `BeginFinanceOperation`: the next attempt of an operation.
unfoldable pub start_operation :
    Library
    → Fresh
    → String
    → ℕ
    → String
    → FinanceOperation
    → FinanceOperation
    → Store
    → Result Error (Bool × FinanceOperation × Store)
unfolding started put_operation
start_operation lib fresh key amount currency operation stored s = do
  checked ← check_reservation lib key amount currency operation s
  let made = started fresh.now stored
  ok (
    true,
    made,
    log_event made.id (operation_event fresh.event_id "attempt_started" made.request "" made)
        (put_operation key made s),
  )

unfoldable pub begin_finance_operation :
    Library → Fresh → FinanceOperation → Store → Result Error (Bool × FinanceOperation × Store)
begin_finance_operation lib fresh raw s = do
  fail_if (is_empty (trim raw.idempotency_key) || is_empty (trim raw.operation_type))
      idempotency_conflict
  let key = trim raw.idempotency_key
  let operation = normalize_operation lib raw
  (amount, currency) ← begin_request lib operation
  (has_succeeded, stored) ← pick_operation lib fresh key operation s
  let next = start_operation lib fresh key amount currency operation stored s
  (if has_succeeded then ok (false, stored, s) else next)
