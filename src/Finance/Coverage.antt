-- ===== src/Finance/Coverage.antt =====
-- internal/store/finance_memory.go: what is refunded and reserved of each payment, and its amount.
pub mod Sums
pub mod Facts
pub mod Attempts
pub mod Refunding
pub mod Rewriting
pub mod Starting
pub mod Reserving
pub mod Kept
pub mod Reachable
use accounts.Base.{
  ℕ, ◌+◌, ◌%◌, ◌≤◌, ◌<◌, ◌≡◌, sym, ap, ◌∙◌, ◌⊎◌, String, Bool, true, false, Option, none, some,
}
use accounts.Base.Word.{word, half_word}
use accounts.Base.Json.{
  json_object, json_number, json_text, Members, member_at, whole, json_equal, json_equal-deep_equal,
  deep_equal-member_at, number-same, text-same,
}
use accounts.Base.Text.{is_empty, eqs}
use accounts.Base.Dict.{Dict, lookup, total}
use accounts.Base.Keyed.{Keyed}
use accounts.Finance.Refunds.{refunded, reserved, reserved_by_others}
use accounts.Finance.Types.{FinancePayment, FinanceRefund, FinanceOperation, Store, Library}

-- The amount of a payment, 0 if there is none.
abbrev amount_of : Option FinancePayment → ℕ
amount_of none = 0
amount_of (some payment) = payment.amount_minor % word

abbrev pub paid : String → Store → ℕ
paid payment s = amount_of (lookup payment s.payments)

-- The refunds and the reservations of a payment, as numbers.
abbrev pub refund_value : String → FinanceRefund → ℕ
refund_value payment refund = refunded payment refund % word

abbrev pub reserved_value : Library → Dict String → String → FinanceOperation → ℕ
reserved_value lib refund_keys payment operation = reserved lib refund_keys payment operation % word

abbrev pub others_value : Library → Dict String → String → String → FinanceOperation → ℕ
others_value lib refund_keys key payment operation =
    reserved_by_others lib refund_keys key payment operation % word

abbrev pub exposure : Library → String → Store → ℕ
exposure lib payment s =
    total (refund_value payment) s.refunds
    + total (reserved_value lib s.refund_keys payment) s.operations

-- The payments, the refunds and the operations are held under their ids, each operation is the one of its
-- key, the refunds have ids, and the amounts of payments are below 2^63.
pub record IsKept (s : Store) : Type 0 where
  pub payments_keyed : Keyed (λ (p : FinancePayment). p.id) s.payments
  pub operations_keyed : Keyed (λ (o : FinanceOperation). o.id) s.operations
  pub operations_linked :
      (k : String) (o : FinanceOperation)
      → lookup k s.operations ≡ some o
      → lookup o.idempotency_key s.operation_keys ≡ some k
  pub keys_linked :
      (key id : String)
      → lookup key s.operation_keys ≡ some id
      → (o : FinanceOperation) × (lookup id s.operations ≡ some o) × (o.idempotency_key ≡ key)
  pub refunds_named :
      (k : String) (r : FinanceRefund) → lookup k s.refunds ≡ some r → is_empty r.id ≡ false
  pub refunds_keyed : Keyed (λ (r : FinanceRefund). r.id) s.refunds
  pub small : (p : String) → paid p s < half_word

-- A refund request that is read alike into the struct and into a value of any type: an object whose amount_minor is a whole
-- number that a float64 holds, below 2^53, and whose currency is a text.
pub record IsExact (lib : Library) (raw : String) : Type 0 where
  pub members : Members
  pub bits : ℕ
  pub money : String
  pub value : lib.unmarshal raw ≡ some (json_object members)
  pub amount_at : member_at "amount_minor" members ≡ some (json_number bits)
  pub money_at : member_at "currency" members ≡ some (json_text money)
  pub positive : bits < half_word
  pub payload : lib.refund_payload raw ≡ some (whole bits, money)

-- An operation that is no refund, or whose request is exact.
abbrev pub AsksExactly : Library → String → String → Type 0
AsksExactly lib type raw = (eqs type "refund" ≡ false) ⊎ IsExact lib raw

-- Each payment covers what is taken and reserved of it, and the stored refund operations have exact requests.
pub record IsCovered (lib : Library) (s : Store) : Type 0 where
  pub kept : IsKept s
  pub exact :
      (k : String) (o : FinanceOperation)
      → lookup k s.operations ≡ some o
      → AsksExactly lib o.operation_type o.request
  pub covered : (p : String) → exposure lib p s ≤ paid p s

-- Exact requests that `jsonEqual` equates ask for the same refund.
pub IsExact-same :
    (lib : Library) (a b : String)
    → IsExact lib a
    → IsExact lib b
    → json_equal lib.unmarshal a b ≡ true
    → lib.refund_payload a ≡ lib.refund_payload b
IsExact-same lib a b x y equal =
    let same = json_equal-deep_equal lib.unmarshal a b _ _ equal x.value y.value in
    let amount =
      deep_equal-member_at "amount_minor" x.members y.members _ _ same x.amount_at y.amount_at in
    let money =
      deep_equal-member_at "currency" x.members y.members _ _ same x.money_at y.money_at in
    let bits_same = number-same x.bits y.bits x.positive y.positive amount in
    let money_same = text-same x.money y.money money in
    x.payload
    ∙ ap (λ n. some (whole n, x.money)) bits_same
    ∙ ap (λ c. some (whole y.bits, c)) money_same
    ∙ sym y.payload
