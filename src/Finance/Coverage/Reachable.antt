-- ===== src/Finance/Coverage/Reachable.antt =====
-- internal/store/finance_memory.go: the calls, and the amounts of the payments.
use accounts.Base.{
  List, ℕ, ◌+◌, ◌≤◌, ◌<◌, ◌≡◌, refl, sym, ◌∙◌, subst, String, Bool, false, none, arith, Bool-cases,
  inl, inr, ok, after-rule,
}
use native.Mathlib.Nat.{mod-eq_of_lt}
use accounts.Base.Word.{half_word, sle}
use accounts.Base.Text.{eqs, eqs_iff, is_empty, trim}
use accounts.Base.Dict.{Dict, lookup, total, lookup-insert}
use accounts.Finance.Requests.{finance_refund_request, finance_json}
use accounts.Finance.Invoices.{create_finance_invoice}
use accounts.Finance.Payments.{put_payment, record_finance_payment}
use accounts.Finance.Refunds.{reserved, committed}
use accounts.Finance.Attempts.{
  checkpoint_finance_operation, finish_finance_operation, finished, Finish,
}
use accounts.Finance.Coverage.{
  paid, refund_value, reserved_value, others_value, exposure, IsCovered, AsksExactly,
}
use accounts.Finance.Coverage.Sums.{total_le}
use accounts.Finance.Coverage.Facts.{record_finance_payment-new}
use accounts.Finance.Coverage.Attempts.{
  checkpoint_finance_operation-writes, finish_finance_operation-writes,
}
use accounts.Finance.Coverage.Refunding.{others_le, committed_sum}
use accounts.Finance.Coverage.Rewriting.{rewrite-IsCovered, record_finance_refund-IsCovered}
use accounts.Finance.Coverage.Kept.{
  put_payment-IsKept, create_finance_invoice-writes, same_parts-IsKept, Reach-IsKept,
}
use accounts.Finance.Coverage.Reserving.{begin_finance_operation-IsCovered}
use accounts.Finance.Machine.{
  empty_store, start, step, after_record-rule, Call, creates_invoice, records_payment,
  records_refund, begins, checkpoints, finishes,
}
use accounts.Finance.Types.{FinanceInvoice, FinancePayment, Store, Library, Fresh}

put_payment-IsCovered :
    (lib : Library) (q : FinancePayment) (s : Store)
    → IsCovered lib s
    → lookup q.id s.payments ≡ none
    → sle q.amount_minor 0 ≡ false
    → IsCovered lib (put_payment q s)
unfolding put_payment
put_payment-IsCovered lib q s v new positive = record {
  kept = put_payment-IsKept q s v.kept new positive;
  exact = v.exact;
  covered = λ p.
      let before = v.covered p in
      let now_paid = lookup-insert p q.id q s.payments in
      elim (Bool-cases (eqs p q.id)) [
        | inl hit ↦
            let here : p ≡ q.id = (eqs_iff p q.id).0 hit in
            let nothing : lookup p s.payments ≡ none = rw here new in
            let unpaid : paid p s ≡ 0 = rw nothing refl in omega arith
        | inr miss ↦ rw (now_paid, miss) before
      ];
}

module _ (lib : Library) (s t : Store) (v : IsCovered lib s) where
  create_finance_invoice-IsCovered :
      (fresh : Fresh) (raw i : FinanceInvoice) (inserted : Bool)
      → create_finance_invoice lib fresh raw s ≡ ok (inserted, i, t)
      → IsCovered lib t
  create_finance_invoice-IsCovered fresh raw i inserted h =
      subst (IsCovered lib) (sym (create_finance_invoice-writes lib fresh raw i inserted s t h))
        (record {
          kept = same_parts-IsKept s _ v.kept refl refl refl refl;
          exact = v.exact;
          covered = v.covered;
        })

  record_finance_payment-IsCovered :
      (fresh : Fresh) (raw p : FinancePayment) (inserted : Bool)
      → record_finance_payment lib fresh raw s ≡ ok (inserted, p, t)
      → IsCovered lib t
  record_finance_payment-IsCovered fresh raw p inserted h =
      elim (record_finance_payment-new lib fresh raw p inserted s t h) [
        | inl e ↦ subst (IsCovered lib) (sym e) v
        | inr (e, new, positive) ↦
            subst (IsCovered lib) (sym e) (put_payment-IsCovered lib _ s v new positive)
      ]

  checkpoint_finance_operation-IsCovered :
      (fresh : Fresh) (id : String) (attempt : ℕ) (response : String)
      → checkpoint_finance_operation fresh id attempt response s ≡ ok (tt, t)
      → IsCovered lib t
  unfolding reserved finance_refund_request
  checkpoint_finance_operation-IsCovered fresh id attempt response h =
      let (op, found, _, e) = checkpoint_finance_operation-writes fresh id attempt response s t h in
      subst (IsCovered lib) (sym e) (
        rewrite-IsCovered lib s id op
          (record op { response = finance_json response; updated_at = fresh.now }) _ v found refl
          refl refl refl λ p. omega arith)

  finish_finance_operation-IsCovered :
      (fresh : Fresh) (report : Finish)
      → finish_finance_operation fresh report s ≡ ok (tt, t)
      → IsCovered lib t
  unfolding reserved finance_refund_request finished
  finish_finance_operation-IsCovered fresh report h =
      let (op, reference, found, active, _, e) =
        finish_finance_operation-writes fresh report s t h in
      subst (IsCovered lib) (sym e) (
        rewrite-IsCovered lib s _ op (finished fresh.now report reference op) _ v found refl refl
          refl refl λ p. ground arith)

-- A refund that the call asks for is asked for exactly.
abbrev pub AsksCall : Library → Call → Type 0
AsksCall lib (creates_invoice i) = Unit
AsksCall lib (records_payment p) = Unit
AsksCall lib (records_refund r) = Unit
AsksCall lib (begins o) = AsksExactly lib (trim o.operation_type) (finance_json o.request)
AsksCall lib (checkpoints id attempt response) = Unit
AsksCall lib (finishes report) = Unit

-- The ledgers that such calls lead to.
pub data ExactReach (lib : Library) : Store → Type 0 where
  starts : ExactReach lib empty_store
  calls :
      {s : Store}
      → ExactReach lib s
      → (c : Call) (fresh : Fresh) → is_empty fresh.id ≡ false
      → AsksCall lib c
      → ExactReach lib (step lib c fresh s)
  writes_users :
      {s : Store}
      → ExactReach lib s
      → (by_id : List String) (subscriptions : Dict (List String))
      → ExactReach lib (record s { by_id = by_id; subscriptions = subscriptions })

step-IsCovered :
    (lib : Library) (c : Call) (fresh : Fresh) (s : Store)
    → AsksCall lib c
    → is_empty fresh.id ≡ false
    → IsCovered lib s
    → IsCovered lib (step lib c fresh s)
unfolding step
step-IsCovered lib (creates_invoice raw) fresh s asks f v =
    after_record-rule (IsCovered lib) s _ v
      λ inserted i t h. create_finance_invoice-IsCovered lib s t v fresh raw i inserted h
step-IsCovered lib (records_payment raw) fresh s asks f v =
    after_record-rule (IsCovered lib) s _ v
      λ inserted p t h. record_finance_payment-IsCovered lib s t v fresh raw p inserted h
step-IsCovered lib (records_refund raw) fresh s asks f v =
    after_record-rule (IsCovered lib) s _ v
      λ inserted r t h. record_finance_refund-IsCovered lib fresh raw r inserted s t v f h
step-IsCovered lib (begins raw) fresh s asks f v =
    after_record-rule (IsCovered lib) s _ v
      λ claimed o t h. begin_finance_operation-IsCovered lib fresh raw o claimed s t asks v h
step-IsCovered lib (checkpoints id attempt response) fresh s asks f v =
    after-rule (IsCovered lib) s _ v
      λ _ t h. checkpoint_finance_operation-IsCovered lib s t v fresh id attempt response h
step-IsCovered lib (finishes report) fresh s asks f v =
    after-rule (IsCovered lib) s _ v
      λ _ t h. finish_finance_operation-IsCovered lib s t v fresh report h

ExactReach-IsCovered : (lib : Library) {s : Store} → ExactReach lib s → IsCovered lib s
ExactReach-IsCovered lib starts = record {
  kept = Reach-IsKept lib start;
  exact = λ k o e. cc;
  covered = λ p. omega arith;
}
ExactReach-IsCovered lib (calls {s = s} r c fresh f asks) =
    step-IsCovered lib c fresh s asks f (ExactReach-IsCovered lib r)
ExactReach-IsCovered lib (writes_users {s} r by_id subscriptions) =
    let v = ExactReach-IsCovered lib r in
    record {
      kept = same_parts-IsKept s _ v.kept refl refl refl refl;
      exact = v.exact;
      covered = v.covered;
    }

-- No payment is refunded beyond its amount: in every ledger that calls lead to, for every payment id, the
-- sum of its refunds and of the amounts that refund operations without a recorded refund reserve of it is at
-- most the payment's amount, which is below 2^63; without a payment of the id there are none. (The refund
-- requests of the calls are exact: an amount below 2^53 and a currency, read alike by both decoders.)
pub ExactReach-covered :
    (lib : Library) {s : Store}
    → ExactReach lib s
    → (p : String) → (exposure lib p s ≤ paid p s) × (paid p s < half_word)
ExactReach-covered lib r p = let v = ExactReach-IsCovered lib r in (v.covered p, v.kept.small p)

-- The sum that RecordFinanceRefund forms in int64 is exact: in every ledger that calls lead to, it is the
-- number that is refunded of the payment and reserved of it by operations with other keys, if the refund
-- requests of the calls are exact.
pub ExactReach-committed :
    (lib : Library) {s : Store}
    → ExactReach lib s
    → (key p : String)
    → committed lib key p s
      ≡ total (refund_value p) s.refunds + total (others_value lib s.refund_keys key p) s.operations
ExactReach-committed lib {s} r key p =
    let v = ExactReach-IsCovered lib r in
    let fewer : total (others_value lib s.refund_keys key p) s.operations
        ≤ total (reserved_value lib s.refund_keys p) s.operations =
      total_le _ _ s.operations λ o. others_le lib p s.refund_keys key o in
    let before = v.covered p in
    let small = v.kept.small p in committed_sum lib p key s ∙ mod-eq_of_lt (omega arith)
