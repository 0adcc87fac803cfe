-- ===== src/Finance/Retry.antt =====
-- internal/store/finance_memory.go: the repetition of a recorded payment.
use accounts.Base.{
  ℕ, ◌%◌, ◌≡◌, refl, sym, subst, String, true, false, ◌||◌, some, arith, Bool-cases, inl, inr, ok,
  if◌then◌else◌, ◌==◌, ==_iff,
}
use accounts.Base.Word.{word, sle}
use accounts.Base.Text.{eqs_refl, is_empty, trim}
use accounts.Base.Dict.{lookup, lookup-insert_self}
use accounts.Base.Time.{is_zero}
use accounts.Finance.Requests.{valid_finance_currency, finance_currency, finance_provider}
use accounts.Finance.Payments.{
  record_finance_payment, normalize_payment, same_payment, repeat_payment, new_payment, dated,
  put_payment,
}
use accounts.Finance.Types.{FinancePayment, Store, Library, Fresh}

==_refl : (n : ℕ) → (n == n) ≡ true
==_refl n = (==_iff n n).1 refl

-- The stored payment is what its own request asks for, whatever the clock says.
same_payment-dated :
    (lib : Library) (fresh later : Fresh) (raw : FinancePayment)
    → same_payment (normalize_payment lib later raw) (dated fresh (normalize_payment lib fresh raw))
      ≡ true
unfolding same_payment normalize_payment
same_payment-dated lib fresh later raw =
    let dates : (is_zero raw.paid_at
          || (raw.paid_at == (if is_zero raw.paid_at then fresh.now else raw.paid_at)))
        ≡ true =
      elim (Bool-cases (is_zero raw.paid_at)) [
        | inl e ↦ rw e refl
        | inr e ↦ rw e (==_refl raw.paid_at)
      ] in
    rw
      (
        eqs_refl (trim raw.invoice_id),
        ==_refl (raw.amount_minor % word),
        eqs_refl (finance_currency lib raw.currency),
        eqs_refl (finance_provider lib raw.provider),
        eqs_refl (trim raw.provider_payment_id),
      )
      dates

-- What a request that records a payment has passed and written.
record_finance_payment-first :
    (lib : Library) (fresh : Fresh) (raw p : FinancePayment) (s t : Store)
    → record_finance_payment lib fresh raw s ≡ ok (true, p, t)
    → let q = dated fresh (normalize_payment lib fresh raw) in
      ((is_empty (trim raw.idempotency_key) || sle raw.amount_minor 0) ≡ false)
      × (valid_finance_currency (normalize_payment lib fresh raw).currency ≡ true)
      × (p ≡ q)
      × (t ≡ put_payment q s)
unfolding record_finance_payment repeat_payment new_payment
record_finance_payment-first lib fresh raw p s t h = ground arith

record_finance_payment-known :
    (lib : Library) (later : Fresh) (raw q : FinancePayment) (id : String) (t : Store)
    → (is_empty (trim raw.idempotency_key) || sle raw.amount_minor 0) ≡ false
    → valid_finance_currency (normalize_payment lib later raw).currency ≡ true
    → lookup (normalize_payment lib later raw).idempotency_key t.payment_keys ≡ some id
    → lookup id t.payments ≡ some q
    → same_payment (normalize_payment lib later raw) q ≡ true
    → record_finance_payment lib later raw t
      ≡ ok (false, record raw { id = q.id; created_at = q.created_at }, t)
unfolding record_finance_payment repeat_payment
record_finance_payment-known lib later raw q id t guards valid key found same =
    rw (guards, valid, key, found, same) refl

-- A payment is recorded once: after RecordFinancePayment has stored a payment, the same request at any later
-- time, whatever fresh ids it draws, inserts nothing, returns the stored id and time of creation, and leaves
-- the ledger as it is.
pub record_finance_payment-retry :
    (lib : Library) (fresh later : Fresh) (raw p : FinancePayment) (s t : Store)
    → record_finance_payment lib fresh raw s ≡ ok (true, p, t)
    → record_finance_payment lib later raw t
      ≡ ok (false, record raw { id = p.id; created_at = p.created_at }, t)
unfolding normalize_payment put_payment
record_finance_payment-retry lib fresh later raw p s t h =
    let (guards, valid, is, e) = record_finance_payment-first lib fresh raw p s t h in
    let q = dated fresh (normalize_payment lib fresh raw) in
    let again =
      record_finance_payment-known lib later raw q q.id (put_payment q s) guards valid
        (lookup-insert_self q.idempotency_key q.id s.payment_keys)
        (lookup-insert_self q.id q s.payments) (same_payment-dated lib fresh later raw) in
    subst
      (λ u.
        record_finance_payment lib later raw u
        ≡ ok (false, record raw { id = p.id; created_at = p.created_at }, u))
      (sym e)
      (subst
        (λ (w : FinancePayment).
          record_finance_payment lib later raw (put_payment q s)
          ≡ ok (false, record raw { id = w.id; created_at = w.created_at }, put_payment q s))
        (sym is) again)
