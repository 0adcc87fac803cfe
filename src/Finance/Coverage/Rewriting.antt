-- ===== src/Finance/Coverage/Rewriting.antt =====
-- internal/store/finance_memory.go: writes of a stored operation under its id.
use accounts.Base.{
  ◌≤◌, ◌≡◌, refl, sym, ◌∙◌, subst, String, some, arith, List, Bool, false, ok, inl, inr, Bool-cases,
}
use accounts.Base.Text.{is_empty, eqs, eqs_iff}
use accounts.Base.Dict.{Dict, lookup, insert, total-insert_old, found-insert, lookup-insert}
use accounts.Base.Keyed.{Keyed-insert, Keyed-lookup}
use accounts.Finance.Requests.{finance_refund_request}
use accounts.Finance.Coverage.{reserved_value, paid, exposure, IsKept, IsCovered, AsksExactly}
use accounts.Finance.Coverage.Facts.{
  bind_refund-writes, record_finance_refund-new, finance_id-solid,
}
use accounts.Finance.Coverage.Refunding.{put_refund-exposure}
use accounts.Finance.Refunds.{
  reserved, put_refund, bind_refund, with_reference, record_finance_refund, normalize_refund,
  dated_refund,
}
use accounts.Finance.Types.{
  FinanceRefund, FinanceOperation, FinanceOperationEvent, Store, Library, Fresh,
}

pub rewrite-IsKept :
    (u : Store) (id : String) (op op' : FinanceOperation)
    (events : Dict (List FinanceOperationEvent))
    → IsKept u
    → lookup id u.operations ≡ some op
    → op'.id ≡ op.id
    → op'.idempotency_key ≡ op.idempotency_key
    → IsKept (record u { operations = insert id op' u.operations; operation_events = events })
rewrite-IsKept u id op op' events v found same_id same_key = record {
  payments_keyed = v.payments_keyed;
  operations_keyed =
      Keyed-insert _ id op' u.operations v.operations_keyed
        (same_id ∙ Keyed-lookup _ id op u.operations v.operations_keyed found);
  operations_linked =
      found-insert (λ k (o : FinanceOperation). lookup o.idempotency_key u.operation_keys ≡ some k)
        id op' u.operations v.operations_linked (rw same_key (v.operations_linked id op found));
  keys_linked = λ key i e. elim (Bool-cases (eqs i id)) [
    | inl hit ↦
        let same_entry : i ≡ id = (eqs_iff i id).0 hit in
        let (o, at, is_key) = v.keys_linked key i e in
        (op', ground (arith, lookup-insert i id op' u.operations), ground arith)
    | inr miss ↦
        let (o, at, is_key) = v.keys_linked key i e in
        (o, ground (arith, lookup-insert i id op' u.operations), is_key)
  ];
  refunds_named = v.refunds_named;
  refunds_keyed = v.refunds_keyed;
  small = v.small;
}

pub rewrite-IsCovered :
    (lib : Library) (u : Store) (id : String) (op op' : FinanceOperation)
    (events : Dict (List FinanceOperationEvent))
    → IsCovered lib u
    → lookup id u.operations ≡ some op
    → op'.id ≡ op.id
    → op'.idempotency_key ≡ op.idempotency_key
    → op'.operation_type ≡ op.operation_type
    → op'.request ≡ op.request
    → ((p : String)
        → reserved_value lib u.refund_keys p op' ≤ reserved_value lib u.refund_keys p op)
    → IsCovered lib
        (record u { operations = insert id op' u.operations; operation_events = events })
rewrite-IsCovered lib u id op op' events v found same_id same_key same_type same_request less =
    record {
      kept = rewrite-IsKept u id op op' events v.kept found same_id same_key;
      exact =
          found-insert (λ _ (o : FinanceOperation). AsksExactly lib o.operation_type o.request) id
            op' u.operations v.exact (rw (same_type, same_request) (v.exact id op found));
      covered = λ p. omega (
        arith,
        less p,
        v.covered p,
        total-insert_old (reserved_value lib u.refund_keys p) id op' op u.operations found,
      );
    }

put_refund-IsKept :
    (s : Store) (q : FinanceRefund) → IsKept s → is_empty q.id ≡ false → IsKept (put_refund q s)
unfolding put_refund
put_refund-IsKept s q v solid = record {
  payments_keyed = v.payments_keyed;
  operations_keyed = v.operations_keyed;
  operations_linked = v.operations_linked;
  keys_linked = v.keys_linked;
  refunds_named =
      found-insert (λ k (r : FinanceRefund). is_empty r.id ≡ false) q.id q s.refunds v.refunds_named
        solid;
  refunds_keyed = Keyed-insert _ q.id q s.refunds v.refunds_keyed refl;
  small = v.small;
}

put_refund-IsCovered :
    (lib : Library) (s : Store) (q : FinanceRefund)
    → IsCovered lib s
    → ((p : String) → exposure lib p (put_refund q s) ≤ paid p s)
    → is_empty q.id ≡ false
    → IsCovered lib (put_refund q s)
unfolding put_refund
put_refund-IsCovered lib s q v within solid = record {
  kept = put_refund-IsKept s q v.kept solid;
  exact = v.exact;
  covered = within;
}

bind_refund-IsKept :
    (lib : Library) (fresh : Fresh) (q : FinanceRefund) (u t : Store)
    → IsKept u
    → bind_refund lib fresh q u ≡ ok t
    → IsKept t
bind_refund-IsKept lib fresh q u t v h = elim (bind_refund-writes lib fresh q u t h) [
  | inl e ↦ subst IsKept (sym e) v
  | inr (op, found, e) ↦
      subst IsKept (sym e)
        (rewrite-IsKept u _ op (with_reference q.provider_refund_id op) _ v found refl refl)
]

bind_refund-IsCovered :
    (lib : Library) (fresh : Fresh) (q : FinanceRefund) (u t : Store)
    → IsCovered lib u
    → bind_refund lib fresh q u ≡ ok t
    → IsCovered lib t
unfolding reserved finance_refund_request
bind_refund-IsCovered lib fresh q u t v h = elim (bind_refund-writes lib fresh q u t h) [
  | inl e ↦ subst (IsCovered lib) (sym e) v
  | inr (op, found, e) ↦ subst (IsCovered lib) (sym e) (
      rewrite-IsCovered lib u _ op (with_reference q.provider_refund_id op) _ v found refl refl refl
        refl λ p. omega arith)
]

-- Recording a refund keeps the ledger's links, and every payment covered.
pub record_finance_refund-IsKept :
    (lib : Library) (fresh : Fresh) (raw r : FinanceRefund) (inserted : Bool) (s t : Store)
    → IsKept s
    → is_empty fresh.id ≡ false
    → record_finance_refund lib fresh raw s ≡ ok (inserted, r, t)
    → IsKept t
unfolding normalize_refund dated_refund
record_finance_refund-IsKept lib fresh raw r inserted s t v f h =
    elim (record_finance_refund-new lib fresh raw r inserted s t h) [
      | inl e ↦ subst IsKept (sym e) v
      | inr (bound, _, _, _, _) ↦
          let q = dated_refund fresh (normalize_refund lib fresh raw) in
          bind_refund-IsKept lib fresh q (put_refund q s) t
            (put_refund-IsKept s q v (finance_id-solid fresh.id raw.id f)) bound
    ]

pub record_finance_refund-IsCovered :
    (lib : Library) (fresh : Fresh) (raw r : FinanceRefund) (inserted : Bool) (s t : Store)
    → IsCovered lib s
    → is_empty fresh.id ≡ false
    → record_finance_refund lib fresh raw s ≡ ok (inserted, r, t)
    → IsCovered lib t
unfolding normalize_refund dated_refund
record_finance_refund-IsCovered lib fresh raw r inserted s t v f h =
    elim (record_finance_refund-new lib fresh raw r inserted s t h) [
      | inl e ↦ subst (IsCovered lib) (sym e) v
      | inr (bound, (payment, found, left), positive, new, _) ↦
          let q = dated_refund fresh (normalize_refund lib fresh raw) in
          let solid = finance_id-solid fresh.id raw.id f in
          bind_refund-IsCovered lib fresh q (put_refund q s) t
            (put_refund-IsCovered lib s q v
              (λ p. put_refund-exposure lib s v q payment p found left positive new solid) solid)
            bound
    ]
