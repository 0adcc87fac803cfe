-- ===== src/Finance/Coverage/Refunding.antt =====
-- internal/store/finance_memory.go: `RecordFinanceRefund` and the amount of its payment.
use accounts.Base.{
  ℕ, ◌+◌, ◌%◌, ◌≤◌, ◌<◌, ◌≡◌, ◌≢◌, refl, subst, String, false, some, none, arith, Bool-cases, inl,
  inr,
}
use accounts.Base.Word.{word, half_word, sub64, slt, sle}
use accounts.Base.Text.{eqs, eqs_iff, is_empty}
use accounts.Base.Dict.{Dict, lookup, insert, total, total-insert_new, lookup-insert}
use accounts.Finance.Coverage.{
  paid, refund_value, reserved_value, others_value, exposure, IsCovered,
}
use accounts.Finance.Coverage.Sums.{total64-total, total_le}
use accounts.Finance.Refunds.{refunded, reserved, reserved_by_others, committed, put_refund}
use accounts.Finance.Types.{FinancePayment, FinanceRefund, FinanceOperation, Store, Library}

-- A positive amount that the check passes fits beside what is taken, where that fits the payment.
pub room :
    (amount payment taken sum : ℕ)
    → taken ≡ sum % word
    → sum ≤ payment % word
    → payment % word < half_word
    → slt (sub64 payment taken) amount ≡ false
    → sle amount 0 ≡ false
    → sum + amount % word ≤ payment % word
room amount payment taken sum e fits small left positive = ground arith

module _ (lib : Library) (p : String) where
  pub others_le :
      (keys : Dict String) (key : String) (o : FinanceOperation)
      → others_value lib keys key p o ≤ reserved_value lib keys p o
  unfolding reserved_by_others
  others_le keys key o = ground arith

  pub others_eq :
      (keys : Dict String) (key : String) (o : FinanceOperation)
      → o.idempotency_key ≢ key
      → reserved_value lib keys p o ≡ others_value lib keys key p o
  unfolding reserved_by_others
  others_eq keys key o ne = ground (arith, eqs_iff o.idempotency_key key)

  -- Once the refund of a key has been recorded, its operation reserves nothing.
  recorded_value :
      (keys : Dict String) (key id : String) (o : FinanceOperation)
      → is_empty id ≡ false
      → reserved_value lib (insert key id keys) p o ≤ others_value lib keys key p o
  unfolding reserved_by_others reserved
  recorded_value keys key id o h = ground (arith, lookup-insert o.idempotency_key key id keys)

  pub committed_sum :
      (key : String) (s : Store)
      → committed lib key p s
        ≡ (total (refund_value p) s.refunds
            + total (others_value lib s.refund_keys key p) s.operations)
          % word
  unfolding committed
  committed_sum key s = omega (
    arith,
    total64-total (refunded p) s.refunds,
    total64-total (reserved_by_others lib s.refund_keys key p) s.operations,
  )

module _ (lib : Library) (s : Store) (v : IsCovered lib s) (q : FinanceRefund)
    (payment : FinancePayment) where
  -- What is taken and reserved once the refund has been put.
  pub put_refund-exposure :
      (p : String)
      → lookup q.payment_id s.payments ≡ some payment
      → slt
          (sub64 payment.amount_minor (committed lib q.idempotency_key q.payment_id s))
          q.amount_minor
        ≡ false
      → sle q.amount_minor 0 ≡ false
      → lookup q.id s.refunds ≡ none
      → is_empty q.id ≡ false
      → exposure lib p (put_refund q s) ≤ paid p s
  unfolding put_refund
  put_refund-exposure p found left positive new solid =
      let added = total-insert_new (refund_value p) q.id q s.refunds new in
      let released : total (reserved_value lib (put_refund q s).refund_keys p) s.operations
          ≤ total (others_value lib s.refund_keys q.idempotency_key p) s.operations =
        total_le _ _ s.operations
          λ o. recorded_value lib p s.refund_keys q.idempotency_key q.id o solid in
      let fewer : total (others_value lib s.refund_keys q.idempotency_key p) s.operations
          ≤ total (reserved_value lib s.refund_keys p) s.operations =
        total_le _ _ s.operations λ o. others_le lib p s.refund_keys q.idempotency_key o in
      let before = v.covered p in
      let small = v.kept.small p in
      elim (Bool-cases (eqs q.payment_id p)) [
        | inl hit ↦
            let same : q.payment_id ≡ p = (eqs_iff q.payment_id p).0 hit in
            let here : lookup p s.payments ≡ some payment =
              subst (λ i. lookup i s.payments ≡ some payment) same found in
            let amount : paid p s ≡ payment.amount_minor % word = rw here refl in
            let fits =
              room q.amount_minor payment.amount_minor (committed lib q.idempotency_key p s) _
                (committed_sum lib p q.idempotency_key s) (omega arith) (omega arith)
                (subst
                  (λ i.
                    slt (sub64 payment.amount_minor (committed lib q.idempotency_key i s))
                      q.amount_minor
                    ≡ false)
                  same left)
                positive in
            ground arith
        | inr miss ↦ ground arith
      ]
