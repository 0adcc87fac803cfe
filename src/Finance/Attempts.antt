-- ===== src/Finance/Attempts.antt =====
-- internal/store/finance_memory.go: the course of an attempt (`CheckpointFinanceOperation`,
-- `FinishFinanceOperation`) and the queries of operations.
use accounts.Base.{
  ℕ, String, Bool, true, ◌&&◌, ◌||◌, not, Option, none, some, List, [], map, ltb, any, keep, get_or,
  sort_by, if◌then◌else◌, Result, ok, err, ◌>>=◌, ◌>>◌, fail_if, or_fail,
}
use accounts.Base.Word.{eq64}
use accounts.Base.Text.{eqs, is_empty, trim}
use accounts.Base.Dict.{Dict, lookup, contains, insert, values}
use accounts.Base.Time.{Time}
use accounts.Finance.Requests.{finance_json}
use accounts.Finance.Invoices.{at_most}
use accounts.Finance.Refunds.{text_at, log_event}
use accounts.Finance.Types.{
  Error, record_not_found, idempotency_conflict, operation_not_retryable, nil_pointer,
  FinanceOperation, FinanceOperationEvent, Store, Fresh, finance_operation_pending,
  finance_operation_in_progress, finance_operation_succeeded, finance_operation_failed,
  finance_operation_reconciliation_required,
}
use accounts.Finance.Operations.{has_status, is_refund, operation_event}

-- A write of one operation, with an event of its log.
abbrev pub write_operation : String → FinanceOperation → FinanceOperationEvent → Store → Store
write_operation id operation event s =
    log_event operation.id event (record s { operations = insert id operation s.operations })

unfoldable pub checkpoint_finance_operation :
    Fresh → String → ℕ → String → Store → Result Error (Unit {0} × Store)
checkpoint_finance_operation fresh operation_id expected_attempt response s = do
  op ← or_fail (lookup operation_id s.operations) operation_not_retryable
  fail_if
      (not (has_status finance_operation_in_progress op)
        || not (eq64 op.attempt_count expected_attempt))
      operation_not_retryable
  let op' : FinanceOperation = record op {
    response = finance_json response;
    updated_at = fresh.now;
  }
  ok (
    tt,
    write_operation operation_id op'
        (operation_event fresh.event_id "attempt_checkpoint" (finance_json response) "" op') s,
  )

-- What a caller reports at the end of an attempt.
pub record Finish : Type 0 where
  pub operation_id : String
  pub status : String
  pub provider_operation_id : String
  pub response : String
  pub operation_err : Option String
  pub next_attempt_at : Option Time
  pub expected_attempt : Option ℕ

abbrev pub is_final_status : String → Bool
is_final_status status =
    eqs status finance_operation_succeeded
    || eqs status finance_operation_failed
    || eqs status finance_operation_reconciliation_required

abbrev expects : Option ℕ → ℕ → Bool
expects none attempt = true
expects (some expected) attempt = eq64 attempt expected

-- The provider's reference is bound once: a report may repeat it or leave it out.
unfoldable pub provider_reference : String → FinanceOperation → Result Error String
provider_reference reported operation =
    if is_empty operation.provider_operation_id
    then ok reported
    else if not (is_empty reported) && not (eqs reported operation.provider_operation_id)
    then err idempotency_conflict
    else ok operation.provider_operation_id

abbrev shares_reference : String → FinanceOperation → FinanceOperation → Bool
shares_reference reference operation existing =
    not (eqs existing.id operation.id)
    && eqs existing.provider operation.provider
    && eqs existing.operation_type operation.operation_type
    && eqs existing.provider_operation_id reference

-- An error makes the attempt a failed one, unless it is left to the reconciliation.
unfoldable pub final_status : Finish → String
final_status report = elim report.operation_err [
  | none ↦ report.status
  | some e ↦
      if eqs report.status finance_operation_reconciliation_required
      then report.status
      else finance_operation_failed
]

unfoldable pub finished : Time → Finish → String → FinanceOperation → FinanceOperation
unfolding final_status
finished now report reference operation = record operation {
  status = final_status report;
  provider_operation_id = reference;
  response = finance_json report.response;
  next_attempt_at = report.next_attempt_at;
  last_error = get_or report.operation_err "";
  updated_at = now;
}

unfoldable pub finish_finance_operation : Fresh → Finish → Store → Result Error (Unit {0} × Store)
unfolding finished
finish_finance_operation fresh report s = do
  fail_if (not (is_final_status report.status)) operation_not_retryable
  operation ← or_fail (lookup (trim report.operation_id) s.operations) record_not_found
  fail_if (not (has_status finance_operation_in_progress operation)) operation_not_retryable
  fail_if (not (expects report.expected_attempt operation.attempt_count)) operation_not_retryable
  reference ← provider_reference (trim report.provider_operation_id) operation
  fail_if
      (not (is_empty reference) && any (shares_reference reference operation) (values s.operations))
      idempotency_conflict
  let made = finished fresh.now report reference operation
  let event =
      operation_event fresh.event_id (Prim.Native.String.◌++◌ "attempt_" made.status)
        (finance_json report.response) made.last_error made
  ok (
    tt,
    write_operation (trim report.operation_id) made
        (record event { provider_operation_id = made.provider_operation_id }) s,
  )

-- A copy of an operation, as the queries return it.
abbrev copied : FinanceOperation → FinanceOperation
copied operation = record operation {
  request = finance_json operation.request;
  response = finance_json operation.response;
}

unfoldable pub get_finance_operation : String → Store → Result Error FinanceOperation
get_finance_operation key s = do
  id ← or_fail (lookup (trim key) s.operation_keys) record_not_found
  operation ← or_fail (lookup id s.operations) nil_pointer
  ok (copied operation)

-- An operation that is open, or a refund that has succeeded and whose fact has not been recorded.
abbrev pub needs_reconciliation : Dict String → FinanceOperation → Bool
needs_reconciliation refund_keys operation =
    has_status finance_operation_pending operation
    || has_status finance_operation_in_progress operation
    || has_status finance_operation_failed operation
    || has_status finance_operation_reconciliation_required operation
    || (is_refund operation
        && has_status finance_operation_succeeded operation
        && is_empty (text_at operation.idempotency_key refund_keys))

abbrev older_operation : FinanceOperation → FinanceOperation → Bool
older_operation a b = ltb a.updated_at b.updated_at

unfoldable pub list_finance_operations_for_reconciliation : ℕ → Store → List FinanceOperation
list_finance_operations_for_reconciliation limit s =
    at_most limit
      (sort_by older_operation (keep (needs_reconciliation s.refund_keys) (values s.operations)))

unfoldable pub list_finance_operation_events :
    String → Store → Result Error (List FinanceOperationEvent)
list_finance_operation_events id s = do
  fail_if (not (contains (trim id) s.operations)) record_not_found
  ok (
      map (λ (e : FinanceOperationEvent). record e { payload = finance_json e.payload })
        (get_or (lookup (trim id) s.operation_events) []))
