-- ===== src/Finance/Machine.antt =====
-- internal/store/finance_memory.go: the ledger as a state machine. A call is one operation that writes.
use accounts.Base.{ℕ, String, Bool, false, [], List, after, Result, ok, err, ◌≡◌, refl}
use accounts.Base.Text.{is_empty}
use accounts.Base.Dict.{Dict}
use accounts.Finance.Types.{
  Error, FinanceInvoice, FinancePayment, FinanceRefund, FinanceOperation, Store, Library, Fresh,
}
use accounts.Finance.Invoices.{create_finance_invoice}
use accounts.Finance.Payments.{record_finance_payment}
use accounts.Finance.Refunds.{record_finance_refund}
use accounts.Finance.Operations.{begin_finance_operation}
use accounts.Finance.Attempts.{Finish, checkpoint_finance_operation, finish_finance_operation}

abbrev pub empty_store : Store
empty_store = record {
  by_id = [];
  subscriptions = [];
  invoices = [];
  invoice_keys = [];
  payments = [];
  payment_keys = [];
  refunds = [];
  refund_keys = [];
  operations = [];
  operation_keys = [];
  operation_events = [];
}

pub data Call : Type 0 where
  creates_invoice : FinanceInvoice → Call
  records_payment : FinancePayment → Call
  records_refund : FinanceRefund → Call
  begins : FinanceOperation → Call
  checkpoints : String → ℕ → String → Call
  finishes : Finish → Call

abbrev pub after_record {ℓ} : {A : Type ℓ} → Store → Result Error (Bool × A × Store) → Store
after_record s (ok (inserted, a, t)) = t
after_record s (err e) = s

unfoldable pub step : Library → Call → Fresh → Store → Store
step lib (creates_invoice i) fresh s = after_record s (create_finance_invoice lib fresh i s)
step lib (records_payment p) fresh s = after_record s (record_finance_payment lib fresh p s)
step lib (records_refund r) fresh s = after_record s (record_finance_refund lib fresh r s)
step lib (begins o) fresh s = after_record s (begin_finance_operation lib fresh o s)
step lib (checkpoints id attempt response) fresh s =
    after s (checkpoint_finance_operation fresh id attempt response s)
step lib (finishes report) fresh s = after s (finish_finance_operation fresh report s)

-- The ledgers that calls lead to, with ids that are not empty; the users and their subscriptions are
-- written elsewhere, at any time.
pub data Reach (lib : Library) : Store → Type 0 where
  start : Reach lib empty_store
  next :
      {s : Store}
      → Reach lib s
      → (c : Call) (fresh : Fresh) → is_empty fresh.id ≡ false
      → Reach lib (step lib c fresh s)
  elsewhere :
      {s : Store}
      → Reach lib s
      → (by_id : List String) (subscriptions : Dict (List String))
      → Reach lib (record s { by_id = by_id; subscriptions = subscriptions })

pub after_record-rule {ℓ κ} :
    {A : Type ℓ} (P : Store → Type κ) (s : Store) (r : Result Error (Bool × A × Store))
    → P s
    → ((inserted : Bool) (a : A) (t : Store) → r ≡ ok (inserted, a, t) → P t)
    → P (after_record s r)
after_record-rule P s (ok (inserted, a, t)) h k = k inserted a t refl
after_record-rule P s (err e) h k = h
