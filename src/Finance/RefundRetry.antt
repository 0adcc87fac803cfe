-- ===== src/Finance/RefundRetry.antt =====
-- internal/store/finance_memory.go: the repetition of a recorded refund.
use accounts.Base.{
  ◌%◌, ◌≡◌, refl, sym, ap, subst, ◌∙◌, String, true, false, ◌||◌, some, arith, Bool-cases, inl, inr,
  ok, if◌then◌else◌, ◌==◌, ==_iff,
}
use accounts.Base.Word.{word, sle}
use accounts.Base.Text.{eqs_refl, is_empty, trim, trim_idem}
use accounts.Base.Dict.{lookup, lookup-insert_self}
use accounts.Base.Time.{is_zero}
use accounts.Finance.Requests.{valid_finance_currency, finance_currency, finance_provider}
use accounts.Finance.Refunds.{
  record_finance_refund, normalize_refund, same_refund, repeat_refund, new_refund, dated_refund,
  put_refund, bind_refund,
}
use accounts.Finance.Types.{FinanceRefund, Store, Library, Fresh}

-- The stored refund is what its own request asks for, whatever the clock says.
same_refund-dated :
    (lib : Library) (fresh later : Fresh) (raw : FinanceRefund)
    → same_refund
        (normalize_refund lib later raw)
        (dated_refund fresh (normalize_refund lib fresh raw))
      ≡ true
unfolding same_refund normalize_refund dated_refund
same_refund-dated lib fresh later raw =
    let dates : (is_zero raw.refunded_at
          || (raw.refunded_at == (if is_zero raw.refunded_at then fresh.now else raw.refunded_at)))
        ≡ true =
      elim (Bool-cases (is_zero raw.refunded_at)) [
        | inl e ↦ rw e refl
        | inr e ↦ rw e ((==_iff raw.refunded_at raw.refunded_at).1 refl)
      ] in
    rw
      (
        eqs_refl (trim raw.payment_id),
        (==_iff (raw.amount_minor % word) (raw.amount_minor % word)).1 refl,
        eqs_refl (finance_currency lib raw.currency),
        eqs_refl (finance_provider lib raw.provider),
        eqs_refl (trim raw.provider_refund_id),
        trim_idem raw.reason,
        eqs_refl (trim raw.reason),
      )
      dates

bind_refund-keeps :
    (lib : Library) (fresh : Fresh) (q : FinanceRefund) (s t : Store)
    → bind_refund lib fresh q s ≡ ok t
    → (t.refunds ≡ s.refunds) × (t.refund_keys ≡ s.refund_keys)
unfolding bind_refund
bind_refund-keeps lib fresh q s t h = ground arith

-- What a request that records a refund has passed and written.
record_finance_refund-first :
    (lib : Library) (fresh : Fresh) (raw r : FinanceRefund) (s t : Store)
    → record_finance_refund lib fresh raw s ≡ ok (true, r, t)
    → let q = dated_refund fresh (normalize_refund lib fresh raw) in
      ((is_empty (trim raw.idempotency_key) || sle raw.amount_minor 0) ≡ false)
      × (valid_finance_currency (normalize_refund lib fresh raw).currency ≡ true)
      × (r ≡ q)
      × (bind_refund lib fresh q (put_refund q s) ≡ ok t)
unfolding record_finance_refund repeat_refund new_refund
record_finance_refund-first lib fresh raw r s t h = ground arith

record_finance_refund-known :
    (lib : Library) (later : Fresh) (raw q : FinanceRefund) (id : String) (t : Store)
    → (is_empty (trim raw.idempotency_key) || sle raw.amount_minor 0) ≡ false
    → valid_finance_currency (normalize_refund lib later raw).currency ≡ true
    → lookup (normalize_refund lib later raw).idempotency_key t.refund_keys ≡ some id
    → lookup id t.refunds ≡ some q
    → same_refund (normalize_refund lib later raw) q ≡ true
    → record_finance_refund lib later raw t
      ≡ ok (false, record raw { id = q.id; created_at = q.created_at }, t)
unfolding record_finance_refund repeat_refund
record_finance_refund-known lib later raw q id t guards valid key found same =
    rw (guards, valid, key, found, same) refl

-- A refund is recorded once: after RecordFinanceRefund has stored a refund, the same request at any later
-- time, whatever fresh ids it draws, inserts nothing, returns the stored id and time of creation, and leaves
-- the ledger as it is.
pub record_finance_refund-retry :
    (lib : Library) (fresh later : Fresh) (raw r : FinanceRefund) (s t : Store)
    → record_finance_refund lib fresh raw s ≡ ok (true, r, t)
    → record_finance_refund lib later raw t
      ≡ ok (false, record raw { id = r.id; created_at = r.created_at }, t)
unfolding normalize_refund put_refund dated_refund
record_finance_refund-retry lib fresh later raw r s t h =
    let (guards, valid, is, bound) = record_finance_refund-first lib fresh raw r s t h in
    let q = dated_refund fresh (normalize_refund lib fresh raw) in
    let (refunds, keys) = bind_refund-keeps lib fresh q (put_refund q s) t bound in
    let again =
      record_finance_refund-known lib later raw q q.id t guards valid
        (ap (lookup q.idempotency_key) keys
          ∙ lookup-insert_self q.idempotency_key q.id s.refund_keys)
        (ap (lookup q.id) refunds ∙ lookup-insert_self q.id q s.refunds)
        (same_refund-dated lib fresh later raw) in
    subst
      (λ (w : FinanceRefund).
        record_finance_refund lib later raw t
        ≡ ok (false, record raw { id = w.id; created_at = w.created_at }, t))
      (sym is) again
