-- ===== src/Finance/Types.antt =====
-- internal/store/store.go: the records of the finance ledger, and the part of the in-memory store
-- (`memoryStore`) that its operations read and write.
use accounts.Base.{ℕ, String, Option, List}
use accounts.Base.Dict.{Dict}
use accounts.Base.Json.{Json}
use accounts.Base.Time.{Time}

abbrev pub finance_operation_pending : String
finance_operation_pending = "pending"

abbrev pub finance_operation_in_progress : String
finance_operation_in_progress = "in_progress"

abbrev pub finance_operation_succeeded : String
finance_operation_succeeded = "succeeded"

abbrev pub finance_operation_failed : String
finance_operation_failed = "failed"

abbrev pub finance_operation_reconciliation_required : String
finance_operation_reconciliation_required = "reconcile_needed"

-- The errors; the last one stands for the panic of a nil pointer that is read.
pub data Error : Type 0 where
  record_not_found : Error
  idempotency_conflict : Error
  invoice_already_paid : Error
  refund_exceeds_payment : Error
  operation_in_progress : Error
  operation_not_retryable : Error
  nil_pointer : Error

pub record FinanceInvoice : Type 0 where
  pub id : String
  pub idempotency_key : String
  pub account_uuid : String
  pub subscription_uuid : String
  pub provider : String
  pub provider_invoice_id : String
  pub amount_minor : ℕ
  pub currency : String
  pub description : String
  pub issued_at : Time
  pub due_at : Option Time
  pub service_period_start : Option Time
  pub service_period_end : Option Time
  pub created_at : Time

pub record FinancePayment : Type 0 where
  pub id : String
  pub idempotency_key : String
  pub invoice_id : String
  pub account_uuid : String
  pub provider : String
  pub provider_payment_id : String
  pub amount_minor : ℕ
  pub currency : String
  pub paid_at : Time
  pub created_at : Time

pub record FinanceRefund : Type 0 where
  pub id : String
  pub idempotency_key : String
  pub payment_id : String
  pub provider : String
  pub provider_refund_id : String
  pub amount_minor : ℕ
  pub currency : String
  pub reason : String
  pub refunded_at : Time
  pub created_at : Time

-- `json.RawMessage` is a text here.
pub record FinanceOperation : Type 0 where
  pub id : String
  pub idempotency_key : String
  pub operation_type : String
  pub target_type : String
  pub target_id : String
  pub provider : String
  pub provider_operation_id : String
  pub status : String
  pub attempt_count : ℕ
  pub next_attempt_at : Option Time
  pub last_error : String
  pub request : String
  pub response : String
  pub created_at : Time
  pub updated_at : Time

pub record FinanceOperationEvent : Type 0 where
  pub id : String
  pub operation_id : String
  pub attempt : ℕ
  pub event_type : String
  pub status : String
  pub provider_operation_id : String
  pub payload : String
  pub error : String
  pub occurred_at : Time

-- Of the users only the ids are kept, and of their subscriptions the ids, by account.
pub record Store : Type 0 where
  pub by_id : List String
  pub subscriptions : Dict (List String)
  pub invoices : Dict FinanceInvoice
  pub invoice_keys : Dict String
  pub payments : Dict FinancePayment
  pub payment_keys : Dict String
  pub refunds : Dict FinanceRefund
  pub refund_keys : Dict String
  pub operations : Dict FinanceOperation
  pub operation_keys : Dict String
  pub operation_events : Dict (List FinanceOperationEvent)

-- What the operations take from Go's library: the case maps of `strings`, `json.Unmarshal` of a refund
-- request into a struct (amount and currency) and of a message into a value of any type, and the verb
-- `%q` of fmt. Nothing is assumed of them unless a theorem says so.
pub record Library : Type 0 where
  pub to_lower : String → String
  pub to_upper : String → String
  pub refund_payload : String → Option (ℕ × String)
  pub unmarshal : String → Option Json
  pub quote : String → String

-- What one call gets from outside: a fresh id for a record and one for an event, and the clock.
pub record Fresh : Type 0 where
  pub id : String
  pub event_id : String
  pub now : Time
