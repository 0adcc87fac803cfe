-- ===== src/Finance/Coverage/Kept.antt =====
-- internal/store/finance_memory.go: the calls, and the links between the maps of the ledger.
use accounts.Base.{
  ◌≡◌, refl, sym, subst, Bool, false, none, arith, Bool-cases, inl, inr, ok, after-rule,
}
use accounts.Base.Word.{sle}
use accounts.Base.Text.{eqs, is_empty}
use accounts.Base.Dict.{lookup, lookup-insert}
use accounts.Base.Keyed.{Keyed-insert}
use accounts.Finance.Requests.{finance_json}
use accounts.Finance.Invoices.{create_finance_invoice, repeat_invoice, new_invoice}
use accounts.Finance.Payments.{put_payment}
use accounts.Finance.Attempts.{finished}
use accounts.Finance.Coverage.{IsKept}
use accounts.Finance.Coverage.Facts.{record_finance_payment-new}
use accounts.Finance.Coverage.Attempts.{
  checkpoint_finance_operation-writes, finish_finance_operation-writes,
}
use accounts.Finance.Coverage.Rewriting.{rewrite-IsKept, record_finance_refund-IsKept}
use accounts.Finance.Coverage.Reserving.{begin_finance_operation-IsKept}
use accounts.Finance.Machine.{
  Reach, start, next, elsewhere, step, after_record-rule, Call, creates_invoice, records_payment,
  records_refund, begins, checkpoints, finishes,
}
use accounts.Finance.Types.{FinanceInvoice, FinancePayment, Store, Library, Fresh}

pub put_payment-IsKept :
    (q : FinancePayment) (s : Store)
    → IsKept s
    → lookup q.id s.payments ≡ none
    → sle q.amount_minor 0 ≡ false
    → IsKept (put_payment q s)
unfolding put_payment
put_payment-IsKept q s v new positive = record {
  payments_keyed = Keyed-insert _ q.id q s.payments v.payments_keyed refl;
  operations_keyed = v.operations_keyed;
  operations_linked = v.operations_linked;
  keys_linked = v.keys_linked;
  refunds_named = v.refunds_named;
  refunds_keyed = v.refunds_keyed;
  small = λ p.
      let before = v.small p in
      let now_paid = lookup-insert p q.id q s.payments in
      elim (Bool-cases (eqs p q.id)) [
        | inl hit ↦ rw (now_paid, hit) (ground arith)
        | inr miss ↦ rw (now_paid, miss) before
      ];
}

pub create_finance_invoice-writes :
    (lib : Library) (fresh : Fresh) (raw i : FinanceInvoice) (inserted : Bool) (s t : Store)
    → create_finance_invoice lib fresh raw s ≡ ok (inserted, i, t)
    → t ≡ record s { invoices = t.invoices; invoice_keys = t.invoice_keys }
unfolding create_finance_invoice repeat_invoice new_invoice
create_finance_invoice-writes lib fresh raw i inserted s t h = ground arith

pub same_parts-IsKept :
    (s t : Store)
    → IsKept s
    → t.payments ≡ s.payments
    → t.refunds ≡ s.refunds
    → t.operations ≡ s.operations
    → t.operation_keys ≡ s.operation_keys
    → IsKept t
same_parts-IsKept s t v payments refunds operations keys = record {
  payments_keyed = rw payments v.payments_keyed;
  operations_keyed = rw operations v.operations_keyed;
  operations_linked = rw (operations, keys) v.operations_linked;
  keys_linked = rw (operations, keys) v.keys_linked;
  refunds_named = rw refunds v.refunds_named;
  refunds_keyed = rw refunds v.refunds_keyed;
  small = rw payments v.small;
}

step-IsKept :
    (lib : Library) (c : Call) (fresh : Fresh) (s : Store)
    → is_empty fresh.id ≡ false
    → IsKept s
    → IsKept (step lib c fresh s)
unfolding step finished
step-IsKept lib (creates_invoice raw) fresh s f v = after_record-rule IsKept s _ v λ inserted i t h.
    let e = create_finance_invoice-writes lib fresh raw i inserted s t h in
    subst IsKept (sym e) (same_parts-IsKept s _ v refl refl refl refl)
step-IsKept lib (records_payment raw) fresh s f v = after_record-rule IsKept s _ v λ inserted p t h.
    elim (record_finance_payment-new lib fresh raw p inserted s t h) [
      | inl e ↦ subst IsKept (sym e) v
      | inr (e, new, positive) ↦ subst IsKept (sym e) (put_payment-IsKept _ s v new positive)
    ]
step-IsKept lib (records_refund raw) fresh s f v =
    after_record-rule IsKept s _ v
      λ inserted r t h. record_finance_refund-IsKept lib fresh raw r inserted s t v f h
step-IsKept lib (begins raw) fresh s f v =
    after_record-rule IsKept s _ v
      λ claimed o t h. begin_finance_operation-IsKept lib fresh raw o claimed s t v h
step-IsKept lib (checkpoints id attempt response) fresh s f v = after-rule IsKept s _ v λ _ t h.
    let (op, found, _, e) = checkpoint_finance_operation-writes fresh id attempt response s t h in
    subst IsKept (sym e) (
      rewrite-IsKept s id op
        (record op { response = finance_json response; updated_at = fresh.now }) _ v found refl
        refl)
step-IsKept lib (finishes report) fresh s f v = after-rule IsKept s _ v λ _ t h.
    let (op, reference, found, _, _, e) = finish_finance_operation-writes fresh report s t h in
    subst IsKept (sym e)
      (rewrite-IsKept s _ op (finished fresh.now report reference op) _ v found refl refl)

pub Reach-IsKept : (lib : Library) {s : Store} → Reach lib s → IsKept s
Reach-IsKept lib start = record {
  payments_keyed = tt;
  operations_keyed = tt;
  operations_linked = λ k o e. cc;
  keys_linked = λ key id e. cc;
  refunds_named = λ k r e. cc;
  refunds_keyed = tt;
  small = λ p. omega arith;
}
Reach-IsKept lib (next {s = s} r c fresh f) = step-IsKept lib c fresh s f (Reach-IsKept lib r)
Reach-IsKept lib (elsewhere {s} r by_id subscriptions) =
    same_parts-IsKept s _ (Reach-IsKept lib r) refl refl refl refl
