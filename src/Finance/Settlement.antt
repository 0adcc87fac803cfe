-- ===== src/Finance/Settlement.antt =====
-- internal/store/finance_memory.go: payments and the invoices that they settle.
use accounts.Base.Time.{is_zero}
use accounts.Base.{
  Option, none, not, ℕ, ◌≡◌, ◌≢◌, refl, ap, sym, ◌∙◌, subst, String, Bool, true, false, some, List,
  [], ◌∷◌, arith, inl, inr, ◌⊎◌, ok, any, In, after-rule,
}
use accounts.Base.Word.{eq64}
use accounts.Base.Text.{eqs_iff}
use accounts.Base.Dict.{lookup, insert, values, In-values, lookup-insert, lookup-insert-cases}
use accounts.Finance.Invoices.{
  create_finance_invoice, repeat_invoice, new_invoice, normalize_invoice, merge_period,
}
use accounts.Finance.Payments.{
  put_payment, record_finance_payment, repeat_payment, new_payment, normalize_payment, dated,
  settles, pays_for,
}
use accounts.Finance.Refunds.{
  record_finance_refund, repeat_refund, new_refund, bind_refund, put_refund,
}
use accounts.Finance.Operations.{begin_finance_operation, start_operation, put_operation}
use accounts.Finance.Attempts.{checkpoint_finance_operation, finish_finance_operation, Finish}
use accounts.Finance.Machine.{
  Reach, start, next, elsewhere, step, after_record-rule, Call, creates_invoice, records_payment,
  records_refund, begins, checkpoints, finishes,
}
use accounts.Finance.Types.{
  FinanceInvoice, FinancePayment, FinanceRefund, FinanceOperation, Store, Library, Fresh,
}

pub record IsSettled (s : Store) : Type 0 where
  pub payments_settle :
      (k : String) (p : FinancePayment)
      → lookup k s.payments ≡ some p
      → settles p (lookup p.invoice_id s.invoices) ≡ true
  pub one_each :
      (j k : String) (p q : FinancePayment)
      → lookup j s.payments ≡ some p
      → lookup k s.payments ≡ some q
      → p.invoice_id ≡ q.invoice_id
      → j ≡ k

-- What no value passes, none that is found passes.
any-In :
    {A : Type 0} (f : A → Bool) (a : A) (xs : List A) → any f xs ≡ false → In a xs → f a ≡ false
any-In f a [] h i = absurd i
any-In f a (x ∷ xs) h (inl e) = subst (λ b. f b ≡ false) (sym e) (ground arith)
any-In f a (x ∷ xs) h (inr i) = any-In f a xs (ground arith) i

record_finance_payment-settles :
    (lib : Library) (fresh : Fresh) (raw p : FinancePayment) (inserted : Bool) (s t : Store)
    → record_finance_payment lib fresh raw s ≡ ok (inserted, p, t)
    → let q = dated fresh (normalize_payment lib fresh raw) in
      (t ≡ s)
      ⊎ ((t ≡ put_payment q s)
          × (settles q (lookup q.invoice_id s.invoices) ≡ true)
          × (any (pays_for q.invoice_id) (values s.payments) ≡ false))
unfolding record_finance_payment repeat_payment new_payment normalize_payment
record_finance_payment-settles lib fresh raw p inserted s t h = ground arith

put_payment-IsSettled :
    (q : FinancePayment) (s : Store)
    → IsSettled s
    → settles q (lookup q.invoice_id s.invoices) ≡ true
    → any (pays_for q.invoice_id) (values s.payments) ≡ false
    → IsSettled (put_payment q s)
unfolding put_payment
put_payment-IsSettled q s v fits alone = record {
  payments_settle = λ k p found. elim (lookup-insert-cases k q.id q p s.payments found) [
    | inl (_, is) ↦
        subst (λ (w : FinancePayment). settles w (lookup w.invoice_id s.invoices) ≡ true) (sym is)
          fits
    | inr (_, old) ↦ v.payments_settle k p old
  ];
  one_each = λ j k p r found found' same. elim (lookup-insert-cases j q.id q p s.payments found) [
    | inl (here, is) ↦ elim (lookup-insert-cases k q.id q r s.payments found') [
      | inl (here', _) ↦ here ∙ sym here'
      | inr (_, old') ↦
          absurd (apart k r old' (sym (ap (λ (w : FinancePayment). w.invoice_id) (sym is) ∙ same)))
    ]
    | inr (_, old) ↦ elim (lookup-insert-cases k q.id q r s.payments found') [
      | inl (_, is') ↦ absurd (apart j p old (same ∙ ap (λ (w : FinancePayment). w.invoice_id) is'))
      | inr (_, old') ↦ v.one_each j k p r old old' same
    ]
  ];
}
  where
    apart :
        (k : String) (r : FinancePayment)
        → lookup k s.payments ≡ some r
        → r.invoice_id ≢ q.invoice_id
    apart k r found same =
        let miss =
          any-In (pays_for q.invoice_id) r (values s.payments) alone
            (In-values k r s.payments found) in
        ground (arith, eqs_iff r.invoice_id q.invoice_id)

-- The account, the currency and the amount of an invoice stay once it is there.
Keeps : Store → Store → Type 0
Keeps s t =
    (t.payments ≡ s.payments)
    × ((p : FinancePayment)
        → settles p (lookup p.invoice_id s.invoices) ≡ true
        → settles p (lookup p.invoice_id t.invoices) ≡ true)

Keeps-IsSettled : (s t : Store) → Keeps s t → IsSettled s → IsSettled t
unfolding Keeps
Keeps-IsSettled s t (same, keeps) v = record {
  payments_settle = λ k p found. keeps p (v.payments_settle k p (rw same at found));
  one_each = λ j k p q found found' e. v.one_each j k p q (rw same at found) (rw same at found') e;
}

merge_period-settles :
    (invoice old old' : FinanceInvoice) (p : FinancePayment)
    → merge_period invoice old ≡ ok old'
    → settles p (some old') ≡ settles p (some old)
unfolding merge_period
merge_period-settles invoice old old' p h = ground arith

repeat_invoice-writes :
    (provided : Bool) (id : String) (raw invoice i : FinanceInvoice) (inserted : Bool) (s t : Store)
    → repeat_invoice provided id raw invoice s ≡ ok (inserted, i, t)
    → (old : FinanceInvoice) × (old' : FinanceInvoice) × (lookup id s.invoices ≡ some old)
      × (merge_period invoice old ≡ ok old')
      × (t ≡ record s { invoices = insert id old' s.invoices })
unfolding repeat_invoice
repeat_invoice-writes provided id raw invoice i inserted s t h = ground arith

repeat_invoice-Keeps :
    (provided : Bool) (id : String) (raw invoice i : FinanceInvoice) (inserted : Bool) (s t : Store)
    → repeat_invoice provided id raw invoice s ≡ ok (inserted, i, t)
    → Keeps s t
unfolding Keeps
repeat_invoice-Keeps provided id raw invoice i inserted s t h =
    let (old, old', found, merged, e) =
      repeat_invoice-writes provided id raw invoice i inserted s t h in
    subst (Keeps s) (sym e) (
      refl,
      λ p before.
          let same = merge_period-settles invoice old old' p merged in
          ground (arith, lookup-insert p.invoice_id id old' s.invoices, eqs_iff p.invoice_id id),
    )

new_invoice-Keeps :
    (fresh : Fresh) (invoice i : FinanceInvoice) (inserted : Bool) (s t : Store)
    → new_invoice fresh invoice s ≡ ok (inserted, i, t)
    → Keeps s t
unfolding Keeps new_invoice
new_invoice-Keeps fresh invoice i inserted s t h = (
  ground arith,
  λ p before. ground (
    arith,
    lookup-insert p.invoice_id invoice.id (record invoice { created_at = fresh.now }) s.invoices,
    eqs_iff p.invoice_id invoice.id,
  ),
)

create_finance_invoice-cases :
    (lib : Library) (fresh : Fresh) (raw i : FinanceInvoice) (inserted : Bool) (s t : Store)
    → create_finance_invoice lib fresh raw s ≡ ok (inserted, i, t)
    → let invoice = normalize_invoice lib fresh raw in
      ((id : String) × (lookup invoice.idempotency_key s.invoice_keys ≡ some id)
        × (repeat_invoice (not (is_zero raw.issued_at)) id raw invoice s ≡ ok (inserted, i, t)))
      ⊎ (new_invoice fresh invoice s ≡ ok (inserted, i, t))
unfolding create_finance_invoice
create_finance_invoice-cases lib fresh raw i inserted s t h = ground arith

create_finance_invoice-Keeps :
    (lib : Library) (fresh : Fresh) (raw i : FinanceInvoice) (inserted : Bool) (s t : Store)
    → create_finance_invoice lib fresh raw s ≡ ok (inserted, i, t)
    → Keeps s t
create_finance_invoice-Keeps lib fresh raw i inserted s t h =
    elim (create_finance_invoice-cases lib fresh raw i inserted s t h) [
      | inl (id, _, again) ↦ repeat_invoice-Keeps _ id raw _ i inserted s t again
      | inr first ↦ new_invoice-Keeps fresh _ i inserted s t first
    ]

-- The other operations write neither invoices nor payments.
record_finance_refund-keeps :
    (lib : Library) (fresh : Fresh) (raw r : FinanceRefund) (inserted : Bool) (s t : Store)
    → record_finance_refund lib fresh raw s ≡ ok (inserted, r, t)
    → (t.payments ≡ s.payments) × (t.invoices ≡ s.invoices)
unfolding record_finance_refund repeat_refund new_refund bind_refund put_refund
record_finance_refund-keeps lib fresh raw r inserted s t h = ground arith

begin_finance_operation-keeps :
    (lib : Library) (fresh : Fresh) (raw o : FinanceOperation) (claimed : Bool) (s t : Store)
    → begin_finance_operation lib fresh raw s ≡ ok (claimed, o, t)
    → (t.payments ≡ s.payments) × (t.invoices ≡ s.invoices)
unfolding begin_finance_operation start_operation put_operation
begin_finance_operation-keeps lib fresh raw o claimed s t h = ground arith

unchanged-Keeps : (s t : Store) → t.payments ≡ s.payments → t.invoices ≡ s.invoices → Keeps s t
unfolding Keeps
unchanged-Keeps s t same_payments same_invoices =
    (same_payments, λ p before. rw same_invoices before)

checkpoint_finance_operation-keeps :
    (fresh : Fresh) (id : String) (attempt : ℕ) (response : String) (u : Unit {0}) (s t : Store)
    → checkpoint_finance_operation fresh id attempt response s ≡ ok (u, t)
    → (t.payments ≡ s.payments) × (t.invoices ≡ s.invoices)
unfolding checkpoint_finance_operation
checkpoint_finance_operation-keeps fresh id attempt response u s t h = ground arith

finish_finance_operation-keeps :
    (fresh : Fresh) (report : Finish) (u : Unit {0}) (s t : Store)
    → finish_finance_operation fresh report s ≡ ok (u, t)
    → (t.payments ≡ s.payments) × (t.invoices ≡ s.invoices)
unfolding finish_finance_operation
finish_finance_operation-keeps fresh report u s t h = ground arith

step-IsSettled :
    (lib : Library) (c : Call) (fresh : Fresh) (s : Store)
    → IsSettled s
    → IsSettled (step lib c fresh s)
unfolding step
step-IsSettled lib (creates_invoice raw) fresh s v =
    after_record-rule IsSettled s _ v λ inserted i t h.
      Keeps-IsSettled s t (create_finance_invoice-Keeps lib fresh raw i inserted s t h) v
step-IsSettled lib (records_payment raw) fresh s v =
    after_record-rule IsSettled s _ v λ inserted p t h.
      elim (record_finance_payment-settles lib fresh raw p inserted s t h) [
        | inl e ↦ subst IsSettled (sym e) v
        | inr (e, fits, alone) ↦ subst IsSettled (sym e) (put_payment-IsSettled _ s v fits alone)
      ]
step-IsSettled lib (records_refund raw) fresh s v =
    after_record-rule IsSettled s _ v λ inserted r t h.
      let (a, b) = record_finance_refund-keeps lib fresh raw r inserted s t h in
      Keeps-IsSettled s t (unchanged-Keeps s t a b) v
step-IsSettled lib (begins raw) fresh s v = after_record-rule IsSettled s _ v λ claimed o t h.
    let (a, b) = begin_finance_operation-keeps lib fresh raw o claimed s t h in
    Keeps-IsSettled s t (unchanged-Keeps s t a b) v
step-IsSettled lib (checkpoints id attempt response) fresh s v = after-rule IsSettled s _ v λ u t h.
    let (a, b) = checkpoint_finance_operation-keeps fresh id attempt response u s t h in
    Keeps-IsSettled s t (unchanged-Keeps s t a b) v
step-IsSettled lib (finishes report) fresh s v = after-rule IsSettled s _ v λ u t h.
    let (a, b) = finish_finance_operation-keeps fresh report u s t h in
    Keeps-IsSettled s t (unchanged-Keeps s t a b) v

-- In every ledger that calls lead to, the invoice of a payment exists and has the payment's account,
-- currency and amount; and two payments of one invoice are one payment.
pub Reach-IsSettled : (lib : Library) {s : Store} → Reach lib s → IsSettled s
Reach-IsSettled lib start = record {
  payments_settle = λ k p e. cc;
  one_each = λ j k p q e f same. cc;
}
Reach-IsSettled lib (next {s = s} r c fresh f) =
    step-IsSettled lib c fresh s (Reach-IsSettled lib r)
Reach-IsSettled lib (elsewhere r by_id subscriptions) =
    let v = Reach-IsSettled lib r in
    record { payments_settle = v.payments_settle; one_each = v.one_each }

settles-found :
    (p : FinancePayment) (o : Option FinanceInvoice)
    → settles p o ≡ true
    → (i : FinanceInvoice) × (o ≡ some i)
      × (i.account_uuid ≡ p.account_uuid)
      × (i.currency ≡ p.currency)
      × (eq64 i.amount_minor p.amount_minor ≡ true)
settles-found p none h = cc
settles-found p (some i) h =
    (i, refl, (eqs_iff _ _).0 (ground arith), (eqs_iff _ _).0 (ground arith), ground arith)

-- In every ledger that calls lead to, a payment's invoice exists and has the payment's account, currency and
-- amount.
pub Reach-settles :
    (lib : Library) {s : Store}
    → Reach lib s
    → (k : String) (p : FinancePayment) → lookup k s.payments ≡ some p
    → (i : FinanceInvoice) × (lookup p.invoice_id s.invoices ≡ some i)
      × (i.account_uuid ≡ p.account_uuid)
      × (i.currency ≡ p.currency)
      × (eq64 i.amount_minor p.amount_minor ≡ true)
Reach-settles lib {s} r k p found =
    settles-found p (lookup p.invoice_id s.invoices)
      ((Reach-IsSettled lib r).payments_settle k p found)

-- In every ledger that calls lead to, no invoice is paid twice: two payments of one invoice are held under
-- one id.
pub Reach-paid_once :
    (lib : Library) {s : Store}
    → Reach lib s
    → (j k : String) (p q : FinancePayment) → lookup j s.payments ≡ some p
    → lookup k s.payments ≡ some q
    → p.invoice_id ≡ q.invoice_id
    → j ≡ k
Reach-paid_once lib r j k p q found found' e =
    (Reach-IsSettled lib r).one_each j k p q found found' e
