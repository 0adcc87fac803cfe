-- ===== src/Finance/Coverage/Attempts.antt =====
-- internal/store/finance_memory.go: what an attempt of an operation has checked and written.
use accounts.Base.{ℕ, ◌≡◌, String, Bool, true, false, some, none, arith, ◌⊎◌, ok}
use accounts.Base.Word.{sub64, slt, sle}
use accounts.Base.Text.{trim}
use accounts.Base.Dict.{lookup, insert}
use accounts.Finance.Requests.{finance_refund_request, finance_json}
use accounts.Finance.Refunds.{log_event}
use accounts.Finance.Operations.{
  normalize_operation, is_refund, begin_request, same_operation, has_status, restart, first_attempt,
  pick_operation, taken, check_reservation, started, operation_event, put_operation,
  start_operation, begin_finance_operation,
}
use accounts.Finance.Attempts.{
  write_operation, checkpoint_finance_operation, Finish, finish_finance_operation, finished,
  provider_reference,
}
use accounts.Finance.Types.{
  FinancePayment, FinanceOperation, Store, Library, Fresh, finance_operation_in_progress,
}

pub begin_finance_operation-new :
    (lib : Library) (fresh : Fresh) (raw o : FinanceOperation) (claimed : Bool) (s t : Store)
    → begin_finance_operation lib fresh raw s ≡ ok (claimed, o, t)
    → let key = trim raw.idempotency_key in
      let operation = normalize_operation lib raw in
      (t ≡ s)
      ⊎ ((request : ℕ × String) × (picked : Bool × FinanceOperation) × (checked : Unit {0})
          × (begin_request lib operation ≡ ok request)
          × (pick_operation lib fresh key operation s ≡ ok picked)
          × (picked.0 ≡ false)
          × (check_reservation lib key request.0 request.1 operation s ≡ ok checked)
          × (t
              ≡ log_event
                  (started fresh.now picked.1).id
                  (operation_event fresh.event_id "attempt_started"
                    (started fresh.now picked.1).request
                    ""
                    (started fresh.now picked.1))
                  (put_operation key (started fresh.now picked.1) s)))
unfolding begin_finance_operation start_operation
begin_finance_operation-new lib fresh raw o claimed s t h = ground arith

pub pick_operation-cases :
    (lib : Library) (fresh : Fresh) (key : String) (operation : FinanceOperation)
    (picked : Bool × FinanceOperation) (s : Store)
    → pick_operation lib fresh key operation s ≡ ok picked
    → ((lookup key s.operation_keys ≡ none)
        × (picked.1 ≡ first_attempt lib fresh key operation)
        × (lookup picked.1.id s.operations ≡ none))
      ⊎ ((id : String) × (lookup key s.operation_keys ≡ some id)
          × (lookup id s.operations ≡ some picked.1)
          × (same_operation lib operation picked.1 ≡ true))
unfolding pick_operation restart
pick_operation-cases lib fresh key operation picked s h = ground arith

pub check_reservation-left :
    (lib : Library) (key : String) (amount : ℕ) (currency : String) (operation : FinanceOperation)
    (s : Store)
    → is_refund operation ≡ true
    → {checked : Unit {0}} → check_reservation lib key amount currency operation s ≡ ok checked
    → (payment : FinancePayment) × (lookup operation.target_id s.payments ≡ some payment)
      × (slt (sub64 payment.amount_minor (taken lib key payment.id s)) amount ≡ false)
unfolding check_reservation
check_reservation-left lib key amount currency operation s r {checked} h = ground arith

pub begin_request-amount :
    (lib : Library) (operation : FinanceOperation) (request : ℕ × String)
    → is_refund operation ≡ true
    → begin_request lib operation ≡ ok request
    → (finance_refund_request lib operation ≡ ok request) × (sle request.0 0 ≡ false)
unfolding begin_request finance_refund_request
begin_request-amount lib operation request r h = ground arith

pub checkpoint_finance_operation-writes :
    (fresh : Fresh) (id : String) (attempt : ℕ) (response : String) (s t : Store)
    → checkpoint_finance_operation fresh id attempt response s ≡ ok (tt, t)
    → (op : FinanceOperation) × (lookup id s.operations ≡ some op)
      × (has_status finance_operation_in_progress op ≡ true)
      × (let op' : FinanceOperation = record op {
        response = finance_json response;
        updated_at = fresh.now;
      } in
          t
          ≡ write_operation id op'
              (operation_event fresh.event_id "attempt_checkpoint" (finance_json response) "" op')
              s)
unfolding checkpoint_finance_operation
checkpoint_finance_operation-writes fresh id attempt response s t h = ground arith

pub finish_finance_operation-writes :
    (fresh : Fresh) (report : Finish) (s t : Store)
    → finish_finance_operation fresh report s ≡ ok (tt, t)
    → (op : FinanceOperation) × (reference : String) × (lookup
          (trim report.operation_id)
          s.operations
        ≡ some op)
      × (has_status finance_operation_in_progress op ≡ true)
      × (provider_reference (trim report.provider_operation_id) op ≡ ok reference)
      × (t ≡ record s {
        operations =
            insert (trim report.operation_id) (finished fresh.now report reference op) s.operations;
        operation_events = t.operation_events;
      })
unfolding finish_finance_operation
finish_finance_operation-writes fresh report s t h = ground arith
