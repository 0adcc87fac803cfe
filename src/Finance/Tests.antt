-- ===== src/Finance/Tests.antt =====
-- Runs of the finance ledger on concrete calls: an invoice of 1000, its payment, a refund operation that
-- reserves 400, and a refund of 300.
mod Theorems
use accounts.Base.{
  ℕ, ◌≡◌, refl, arith, inl, inr, ap, subst, String, Bool, true, Option, some, none, [], ◌∷◌,
  if◌then◌else◌,
}
use accounts.Base.Json.{json_text, json_number, json_object, Members, member, no_members}
use accounts.Base.Text.{eqs, eqs_iff, trim, has_prefix}
use accounts.Finance.Types.{
  FinanceInvoice, FinancePayment, FinanceRefund, FinanceOperation, Store, Library, Fresh,
}
use accounts.Finance.Requests.{
  finance_id, finance_provider, finance_currency, valid_finance_currency, finance_refund_request,
}
use accounts.Finance.Invoices.{create_finance_invoice, normalize_invoice, new_invoice}
use accounts.Finance.Payments.{record_finance_payment, normalize_payment, new_payment}
use accounts.Finance.Refunds.{
  record_finance_refund, normalize_refund, new_refund, bind_refund, refund_event, check_operation,
  committed, dated_refund, put_refund,
}
use accounts.Finance.Operations.{
  begin_finance_operation, normalize_operation, begin_request, pick_operation, check_reservation,
  start_operation,
}
use accounts.Finance.Coverage.{IsExact}
use accounts.Finance.Coverage.Reachable.{ExactReach, starts, calls, writes_users}
use accounts.Finance.Machine.{
  empty_store, Reach, start, next, elsewhere, step, creates_invoice, records_payment, begins,
  records_refund,
}

abbrev pub four_hundred : String
four_hundred = "{\"amount_minor\":400,\"currency\":\"USD\"}"

-- The float64 of 400 is 4645744490609377280.
abbrev pub four_hundred_members : Members
four_hundred_members =
    member "amount_minor" (json_number 4645744490609377280)
      (member "currency" (json_text "USD") no_members)

-- Texts in one case, and decoders that know one request.
abbrev pub plain : Library
plain = record {
  to_lower = λ s. s;
  to_upper = λ s. s;
  refund_payload = λ raw. if eqs raw four_hundred then some (400, "USD") else none;
  unmarshal = λ raw.
      if eqs raw four_hundred
      then some (json_object four_hundred_members)
      else some (json_text raw);
  quote = λ s. s;
}

four_hundred-IsExact : IsExact plain four_hundred
four_hundred-IsExact = record {
  members = four_hundred_members;
  bits = 4645744490609377280;
  money = "USD";
  value = refl;
  amount_at = refl;
  money_at = refl;
  positive = omega arith;
  payload = refl;
}

abbrev pub at : ℕ → Fresh
at now = record { id = "fresh"; event_id = "event"; now = now }

abbrev pub invoice : FinanceInvoice
invoice = record {
  id = "i1";
  idempotency_key = "ik";
  account_uuid = "acct";
  subscription_uuid = "";
  provider = "stripe";
  provider_invoice_id = "";
  amount_minor = 1000;
  currency = "USD";
  description = "plan";
  issued_at = 0;
  due_at = none;
  service_period_start = none;
  service_period_end = none;
  created_at = 0;
}

abbrev pub payment : FinancePayment
payment = record {
  id = "p1";
  idempotency_key = "pk";
  invoice_id = "i1";
  account_uuid = "acct";
  provider = "stripe";
  provider_payment_id = "";
  amount_minor = 1000;
  currency = "USD";
  paid_at = 0;
  created_at = 0;
}

abbrev pub operation : FinanceOperation
operation = record {
  id = "o1";
  idempotency_key = "ok";
  operation_type = "refund";
  target_type = "payment";
  target_id = "p1";
  provider = "stripe";
  provider_operation_id = "";
  status = "";
  attempt_count = 0;
  next_attempt_at = none;
  last_error = "";
  request = four_hundred;
  response = "";
  created_at = 0;
  updated_at = 0;
}

abbrev pub refund : FinanceRefund
refund = record {
  id = "r1";
  idempotency_key = "rk";
  payment_id = "p1";
  provider = "stripe";
  provider_refund_id = "re1";
  amount_minor = 300;
  currency = "USD";
  reason = "";
  refunded_at = 0;
  created_at = 0;
}

abbrev pub store1 : Store
store1 = record {
  by_id = "acct" ∷ [];
  subscriptions = [];
  invoices =
      (
        "i1",
        record {
          id = "i1";
          idempotency_key = "ik";
          account_uuid = "acct";
          subscription_uuid = "";
          provider = "stripe";
          provider_invoice_id = "";
          amount_minor = 1000;
          currency = "USD";
          description = "plan";
          issued_at = 1;
          due_at = none;
          service_period_start = none;
          service_period_end = none;
          created_at = 1;
        },
      )
      ∷ [];
  invoice_keys = ("ik", "i1") ∷ [];
  payments = [];
  payment_keys = [];
  refunds = [];
  refund_keys = [];
  operations = [];
  operation_keys = [];
  operation_events = [];
}

abbrev pub store2 : Store
store2 = record {
  by_id = "acct" ∷ [];
  subscriptions = [];
  invoices =
      (
        "i1",
        record {
          id = "i1";
          idempotency_key = "ik";
          account_uuid = "acct";
          subscription_uuid = "";
          provider = "stripe";
          provider_invoice_id = "";
          amount_minor = 1000;
          currency = "USD";
          description = "plan";
          issued_at = 1;
          due_at = none;
          service_period_start = none;
          service_period_end = none;
          created_at = 1;
        },
      )
      ∷ [];
  invoice_keys = ("ik", "i1") ∷ [];
  payments =
      (
        "p1",
        record {
          id = "p1";
          idempotency_key = "pk";
          invoice_id = "i1";
          account_uuid = "acct";
          provider = "stripe";
          provider_payment_id = "";
          amount_minor = 1000;
          currency = "USD";
          paid_at = 2;
          created_at = 2;
        },
      )
      ∷ [];
  payment_keys = ("pk", "p1") ∷ [];
  refunds = [];
  refund_keys = [];
  operations = [];
  operation_keys = [];
  operation_events = [];
}

abbrev pub store3 : Store
store3 = record {
  by_id = "acct" ∷ [];
  subscriptions = [];
  invoices =
      (
        "i1",
        record {
          id = "i1";
          idempotency_key = "ik";
          account_uuid = "acct";
          subscription_uuid = "";
          provider = "stripe";
          provider_invoice_id = "";
          amount_minor = 1000;
          currency = "USD";
          description = "plan";
          issued_at = 1;
          due_at = none;
          service_period_start = none;
          service_period_end = none;
          created_at = 1;
        },
      )
      ∷ [];
  invoice_keys = ("ik", "i1") ∷ [];
  payments =
      (
        "p1",
        record {
          id = "p1";
          idempotency_key = "pk";
          invoice_id = "i1";
          account_uuid = "acct";
          provider = "stripe";
          provider_payment_id = "";
          amount_minor = 1000;
          currency = "USD";
          paid_at = 2;
          created_at = 2;
        },
      )
      ∷ [];
  payment_keys = ("pk", "p1") ∷ [];
  refunds = [];
  refund_keys = [];
  operations =
      (
        "o1",
        record {
          id = "o1";
          idempotency_key = "ok";
          operation_type = "refund";
          target_type = "payment";
          target_id = "p1";
          provider = "stripe";
          provider_operation_id = "";
          status = "in_progress";
          attempt_count = 1;
          next_attempt_at = none;
          last_error = "";
          request = four_hundred;
          response = "{}";
          created_at = 3;
          updated_at = 3;
        },
      )
      ∷ [];
  operation_keys = ("ok", "o1") ∷ [];
  operation_events =
      (
        "o1",
        record {
          id = "event";
          operation_id = "o1";
          attempt = 1;
          event_type = "attempt_started";
          status = "in_progress";
          provider_operation_id = "";
          payload = four_hundred;
          error = "";
          occurred_at = 3;
        }
            ∷ [],
      )
      ∷ [];
}

abbrev pub store4 : Store
store4 = record {
  by_id = "acct" ∷ [];
  subscriptions = [];
  invoices =
      (
        "i1",
        record {
          id = "i1";
          idempotency_key = "ik";
          account_uuid = "acct";
          subscription_uuid = "";
          provider = "stripe";
          provider_invoice_id = "";
          amount_minor = 1000;
          currency = "USD";
          description = "plan";
          issued_at = 1;
          due_at = none;
          service_period_start = none;
          service_period_end = none;
          created_at = 1;
        },
      )
      ∷ [];
  invoice_keys = ("ik", "i1") ∷ [];
  payments =
      (
        "p1",
        record {
          id = "p1";
          idempotency_key = "pk";
          invoice_id = "i1";
          account_uuid = "acct";
          provider = "stripe";
          provider_payment_id = "";
          amount_minor = 1000;
          currency = "USD";
          paid_at = 2;
          created_at = 2;
        },
      )
      ∷ [];
  payment_keys = ("pk", "p1") ∷ [];
  refunds =
      (
        "r1",
        record {
          id = "r1";
          idempotency_key = "rk";
          payment_id = "p1";
          provider = "stripe";
          provider_refund_id = "re1";
          amount_minor = 300;
          currency = "USD";
          reason = "";
          refunded_at = 4;
          created_at = 4;
        },
      )
      ∷ [];
  refund_keys = ("rk", "r1") ∷ [];
  operations =
      (
        "o1",
        record {
          id = "o1";
          idempotency_key = "ok";
          operation_type = "refund";
          target_type = "payment";
          target_id = "p1";
          provider = "stripe";
          provider_operation_id = "";
          status = "in_progress";
          attempt_count = 1;
          next_attempt_at = none;
          last_error = "";
          request = four_hundred;
          response = "{}";
          created_at = 3;
          updated_at = 3;
        },
      )
      ∷ [];
  operation_keys = ("ok", "o1") ∷ [];
  operation_events =
      (
        "o1",
        record {
          id = "event";
          operation_id = "o1";
          attempt = 1;
          event_type = "attempt_started";
          status = "in_progress";
          provider_operation_id = "";
          payload = four_hundred;
          error = "";
          occurred_at = 3;
        }
            ∷ [],
      )
      ∷ [];
}

-- Each call leads to the next ledger.
pub step1 :
    step plain
      (creates_invoice invoice)
      (at 1)
      (record empty_store { by_id = "acct" ∷ []; subscriptions = [] })
    ≡ store1
unfolding step create_finance_invoice normalize_invoice new_invoice finance_id finance_provider
    finance_currency valid_finance_currency trim
step1 = refl

pub step2 : step plain (records_payment payment) (at 2) store1 ≡ store2
unfolding step record_finance_payment normalize_payment new_payment finance_id finance_provider
    finance_currency valid_finance_currency trim
step2 = refl

pub step3 : step plain (begins operation) (at 3) store2 ≡ store3
unfolding step begin_finance_operation normalize_operation begin_request pick_operation
    check_reservation start_operation finance_refund_request finance_id finance_provider
    finance_currency valid_finance_currency trim
step3 = refl

pub step4 : step plain (records_refund refund) (at 4) store3 ≡ store4
unfolding step record_finance_refund normalize_refund new_refund bind_refund check_operation
    committed dated_refund put_refund finance_refund_request finance_id finance_provider
    finance_currency valid_finance_currency trim
step4 = refl

pub reach1 : Reach plain store1
reach1 =
    subst (Reach plain) step1
      (next (elsewhere start ("acct" ∷ []) []) (creates_invoice invoice) (at 1) refl)

pub reach2 : Reach plain store2
reach2 = subst (Reach plain) step2 (next reach1 (records_payment payment) (at 2) refl)

pub reach3 : Reach plain store3
reach3 = subst (Reach plain) step3 (next reach2 (begins operation) (at 3) refl)

pub reach4 : Reach plain store4
reach4 = subst (Reach plain) step4 (next reach3 (records_refund refund) (at 4) refl)

pub exact4 : ExactReach plain store4
exact4 =
    let first =
      subst (ExactReach plain) step1
        (calls (writes_users starts ("acct" ∷ []) []) (creates_invoice invoice) (at 1) refl tt) in
    let second =
      subst (ExactReach plain) step2 (calls first (records_payment payment) (at 2) refl tt) in
    let third =
      subst (ExactReach plain) step3
        (calls second (begins operation) (at 3) refl (inr four_hundred-IsExact)) in
    subst (ExactReach plain) step4 (calls third (records_refund refund) (at 4) refl tt)
