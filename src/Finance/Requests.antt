-- ===== src/Finance/Requests.antt =====
-- internal/store/finance_memory.go: the normal forms of ids, providers and currencies, and what a
-- refund operation asks for.
use accounts.Base.{
  ℕ, ◌+◌, String, Bool, true, false, ◌&&◌, ◌||◌, not, Option, none, some, ltb, leb, ◌==◌,
  if◌then◌else◌, Result, ok, err, ◌>>=◌, ◌>>◌, fail_if, or_fail,
}
use Prim.Native.Char.{Char, code}
use accounts.Base.Word.{eq64, sle}
use accounts.Base.Text.{eqs, is_empty, trim, has_prefix}
use accounts.Base.Time.{Time}
use accounts.Finance.Types.{
  Error, idempotency_conflict, FinanceOperation, FinanceRefund, Library, finance_operation_pending,
  finance_operation_in_progress, finance_operation_succeeded,
  finance_operation_reconciliation_required,
}

-- A blank id is replaced by `uuid.NewString()`.
unfoldable pub finance_id : String → String → String
finance_id fresh id = if is_empty (trim id) then fresh else trim id

unfoldable pub finance_provider : Library → String → String
finance_provider lib provider =
    let p = lib.to_lower (trim provider) in if is_empty p then "local" else p

unfoldable pub finance_currency : Library → String → String
finance_currency lib currency = lib.to_upper (trim currency)

is_upper : Char → Bool
is_upper c = leb 65 (code c) && leb (code c) 90

-- Three upper-case ASCII letters.
unfoldable pub valid_finance_currency : String → Bool
unfolding is_upper
valid_finance_currency (String.◌∷◌ a (String.◌∷◌ b (String.◌∷◌ c String.[]))) =
    is_upper a && is_upper b && is_upper c
valid_finance_currency _ = false

abbrev pub same_optional_time : Option Time → Option Time → Bool
same_optional_time none none = true
same_optional_time (some a) (some b) = a == b
same_optional_time _ _ = false

abbrev pub finance_json : String → String
finance_json raw = if is_empty raw then "{}" else raw

-- The amount and the currency of a refund operation's request.
unfoldable pub finance_refund_request : Library → FinanceOperation → Result Error (ℕ × String)
unfolding finance_currency
finance_refund_request lib operation = do
  (amount, raw) ← or_fail (lib.refund_payload operation.request) idempotency_conflict
  let currency = finance_currency lib raw
  fail_if (sle amount 0 || not (valid_finance_currency currency)) idempotency_conflict
  ok (amount, currency)

-- Whether the operation reserves a part of its payment.
abbrev pub finance_operation_reserves_refund : FinanceOperation → Bool
finance_operation_reserves_refund operation =
    eqs operation.operation_type "refund"
    && eqs operation.target_type "payment"
    && (eqs operation.status finance_operation_pending
        || eqs operation.status finance_operation_in_progress
        || eqs operation.status finance_operation_succeeded
        || eqs operation.status finance_operation_reconciliation_required)

-- Two minutes.
abbrev refund_attempt_ttl : ℕ
refund_attempt_ttl = 120000000000

unfoldable pub finance_refund_attempt_expired : Time → FinanceOperation → Bool
finance_refund_attempt_expired now operation =
    eqs operation.status finance_operation_in_progress
    && eqs operation.operation_type "refund"
    && has_prefix "subscription-refund:" operation.idempotency_key
    && ltb (operation.updated_at + refund_attempt_ttl) now

abbrev asks_for : FinanceRefund → Result Error (ℕ × String) → Bool
asks_for refund (err e) = false
asks_for refund (ok (amount, currency)) =
    eq64 amount refund.amount_minor && eqs currency refund.currency

unfoldable pub finance_refund_matches_operation : Library → FinanceOperation → FinanceRefund → Bool
unfolding finance_refund_request
finance_refund_matches_operation lib operation refund =
    asks_for refund (finance_refund_request lib operation)
    && finance_operation_reserves_refund operation
    && eqs operation.target_id refund.payment_id
    && eqs operation.provider refund.provider
    && not (is_empty refund.provider_refund_id)
    && (is_empty operation.provider_operation_id
        || eqs operation.provider_operation_id refund.provider_refund_id)
