-- ===== src/Finance/Coverage/Reserving.antt =====
-- internal/store/finance_memory.go: `BeginFinanceOperation` and the amount of its payment.
use accounts.Base.{
  ℕ, ◌+◌, ◌%◌, ◌≤◌, ◌≡◌, ◌&&◌, refl, ap, sym, ◌∙◌, subst, String, Bool, true, false, some, none,
  arith, Bool-cases, inl, inr, ◌⊎◌, ok, if◌then◌else◌,
}
use accounts.Base.Word.{word, sub64, slt}
use accounts.Base.Text.{eqs_refl, eqs, eqs_iff, is_empty, trim}
use accounts.Base.Dict.{
  Dict, lookup, insert, total, contains, lookup-insert, lookup-insert-cases, found-insert,
}
use accounts.Base.Keyed.{Keyed-insert, Keyed-lookup}
use accounts.Base.Time.{Time}
use accounts.Finance.Requests.{
  finance_operation_reserves_refund, finance_refund_request, finance_json,
}
use accounts.Finance.Coverage.{
  paid, refund_value, reserved_value, others_value, exposure, IsKept, IsCovered, AsksExactly,
}
use accounts.Finance.Coverage.Sums.{total64-total, total_congr, total_le, total-insert_le}
use accounts.Finance.Coverage.Refunding.{room, others_le, others_eq}
use accounts.Finance.Coverage.Attempts.{
  begin_finance_operation-new, check_reservation-left, begin_request-amount,
}
use accounts.Finance.Refunds.{reserved, reserved_by_others, text_at}
use accounts.Finance.Operations.{
  normalize_operation, is_refund, begin_request, refunded_besides, taken, check_reservation,
  started, put_operation, begin_finance_operation,
}
use accounts.Finance.Types.{FinanceRefund, FinanceOperation, Store, Library, Fresh}
use accounts.Finance.Coverage.Starting.{
  IsPicked, pick-IsPicked, pick-AsksExactly, pick-same_amount, same_request,
}

module _ (lib : Library) (s : Store) (v : IsCovered lib s) (key : String) where
  -- Where the key has no refund yet, the sum leaves no refund out.
  taken_sum :
      (p : String)
      → is_empty (text_at key s.refund_keys) ≡ true
      → taken lib key p s
        ≡ (total (refund_value p) s.refunds
            + total (others_value lib s.refund_keys key p) s.operations)
          % word
  unfolding taken refunded_besides
  taken_sum p none_yet =
      let own = text_at key s.refund_keys in
      let all : total (λ r. refunded_besides own p r % word) s.refunds
          ≡ total (refund_value p) s.refunds =
        total_congr _ _ _ s.refunds v.kept.refunds_keyed λ k (r : FinanceRefund) found.
          ground (arith, v.kept.refunds_named k r found, eqs_iff r.id own) in
      omega (
        arith,
        all,
        total64-total (refunded_besides own p) s.refunds,
        total64-total (reserved_by_others lib s.refund_keys key p) s.operations,
      )

  -- The amount that is asked for fits beside what the others have.
  asked-fits :
      (operation : FinanceOperation) (p : String) (request : ℕ × String) {checked : Unit {0}}
      → begin_request lib operation ≡ ok request
      → check_reservation lib key request.0 request.1 operation s ≡ ok checked
      → is_refund operation ≡ true
      → operation.target_id ≡ p
      → is_empty (text_at key s.refund_keys) ≡ true
      → total (refund_value p) s.refunds
          + total (others_value lib s.refund_keys key p) s.operations
          + request.0 % word
        ≤ paid p s
  asked-fits operation p request asked checks refunds target none_yet =
      let (payment, found, left) =
        check_reservation-left lib key request.0 request.1 operation s refunds checks in
      let (_, positive) = begin_request-amount lib operation request refunds asked in
      let here : lookup p s.payments ≡ some payment =
        subst (λ i. lookup i s.payments ≡ some payment) target found in
      let own : payment.id ≡ p = Keyed-lookup _ p payment s.payments v.kept.payments_keyed here in
      let amount : paid p s ≡ payment.amount_minor % word = rw here refl in
      let fewer : total (others_value lib s.refund_keys key p) s.operations
          ≤ total (reserved_value lib s.refund_keys p) s.operations =
        total_le _ _ s.operations λ o. others_le lib p s.refund_keys key o in
      let before = v.covered p in
      let small = v.kept.small p in
      let fits =
        room request.0 payment.amount_minor (taken lib key p s) _ (taken_sum p none_yet)
          (omega arith) (omega arith)
          (subst (λ i. slt (sub64 payment.amount_minor (taken lib key i s)) request.0 ≡ false) own
            left)
          positive in
      ground arith

  module _ (operation stored : FinanceOperation) (now : Time)
      (i : IsPicked key operation stored s) where
    others_after :
        (p : String)
        → total
            (reserved_value lib s.refund_keys p)
            (insert stored.id (started now stored) s.operations)
          ≤ total (others_value lib s.refund_keys key p) s.operations
            + reserved_value lib s.refund_keys p (started now stored)
    others_after p =
        total-insert_le _ _ (others_value lib s.refund_keys key p) stored.id (started now stored)
          s.operations v.kept.operations_keyed
          λ j w found ne.
            let same = others_eq lib p s.refund_keys key w (i.alone j w found ne) in omega arith

    start-exposure :
        (p : String) (request : ℕ × String) {checked : Unit {0}}
        → begin_request lib operation ≡ ok request
        → check_reservation lib key request.0 request.1 operation s ≡ ok checked
        → (is_refund operation ≡ true
            → eqs stored.operation_type "refund" ≡ true
            → finance_refund_request lib stored ≡ finance_refund_request lib operation)
        → total (refund_value p) s.refunds
            + total
                (reserved_value lib s.refund_keys p)
                (insert stored.id (started now stored) s.operations)
          ≤ paid p s
    unfolding started reserved
    start-exposure p request asked checks same_amount =
        let made = started now stored in
        let bound = others_after p in
        let fewer : total (others_value lib s.refund_keys key p) s.operations
            ≤ total (reserved_value lib s.refund_keys p) s.operations =
          total_le _ _ s.operations λ o. others_le lib p s.refund_keys key o in
        let before = v.covered p in
        elim (Bool-cases (
          finance_operation_reserves_refund made
          && eqs made.target_id p
          && is_empty (text_at made.idempotency_key s.refund_keys))) [
            | inr idle ↦
                let nothing : reserved_value lib s.refund_keys p made ≡ 0 = rw idle refl in
                omega arith
            | inl busy ↦
                let none_yet : is_empty (text_at key s.refund_keys) ≡ true =
                  subst (λ k. is_empty (text_at k s.refund_keys) ≡ true) i.same_key
                    (ground arith) in
                let refunds : is_refund operation ≡ true =
                  subst (λ t. eqs t "refund" ≡ true) i.same_type (ground arith) in
                let wanted : finance_refund_request lib made ≡ ok request =
                  same_request lib made stored refl
                  ∙ same_amount refunds (ground arith)
                  ∙ (begin_request-amount lib operation request refunds asked).0 in
                let fits =
                  asked-fits operation p request asked checks refunds
                    (sym i.same_target ∙ (eqs_iff stored.target_id p).0 (ground arith)) none_yet in
                let amount : reserved_value lib s.refund_keys p made ≡ request.0 % word =
                  rw (busy, wanted) refl in
                omega arith
          ]

-- The keys after a write of one that is new or leads to the same id.
pub keys_after :
    (k key id : String) (keys : Dict String)
    → (lookup key keys ≡ none) ⊎ (lookup key keys ≡ some id)
    → lookup k (if contains key keys then keys else insert key id keys)
      ≡ (if eqs k key then some id else lookup k keys)
keys_after k key id keys h = ground (arith, lookup-insert k key id keys, eqs_iff k key)

module _ (s : Store) (v : IsKept s) (key : String) (operation stored : FinanceOperation)
    (now : Time) (i : IsPicked key operation stored s) where
  start-operations_linked :
      (k : String) (o : FinanceOperation)
      → lookup k (put_operation key (started now stored) s).operations ≡ some o
      → lookup o.idempotency_key (put_operation key (started now stored) s).operation_keys ≡ some k
  unfolding put_operation started
  start-operations_linked k o found =
      let after = keys_after o.idempotency_key key stored.id s.operation_keys i.linked in
      elim (lookup-insert-cases k stored.id (started now stored) o s.operations found) [
        | inl (here, is) ↦
            let own : o.idempotency_key ≡ key =
              ap (λ (w : FinanceOperation). w.idempotency_key) is ∙ i.same_key in
            after ∙ rw (own, eqs_refl key, here) refl
        | inr (ne, old) ↦
            let other = i.alone k o old ne in
            ground (arith, eqs_iff o.idempotency_key key, v.operations_linked k o)
      ]

  start-keys_linked :
      (k id : String)
      → lookup k (put_operation key (started now stored) s).operation_keys ≡ some id
      → (o : FinanceOperation) × (lookup id (put_operation key (started now stored) s).operations
          ≡ some o)
        × (o.idempotency_key ≡ k)
  unfolding put_operation started
  start-keys_linked k id found =
      let after = keys_after k key stored.id s.operation_keys i.linked in
      elim (Bool-cases (eqs id stored.id)) [
        | inl hit ↦
            let here : id ≡ stored.id = (eqs_iff id stored.id).0 hit in
            (
              started now stored,
              lookup-insert id stored.id (started now stored) s.operations ∙ rw hit refl,
              i.same_key ∙ sym (names_key here),
            )
        | inr miss ↦
            let other : eqs k key ≡ false = ground (arith, eqs_iff id stored.id) in
            let (o, old, is_key) = v.keys_linked k id (ground arith) in
            (o, lookup-insert id stored.id (started now stored) s.operations ∙ rw miss old, is_key)
      ]
    where
      names_key : id ≡ stored.id → k ≡ key
      names_key here = elim (Bool-cases (eqs k key)) [
        | inl hit ↦ (eqs_iff k key).0 hit
        | inr miss ↦
            let after = keys_after k key stored.id s.operation_keys i.linked in
            let (o, old, is_key) = v.keys_linked k id (ground arith) in
            sym is_key ∙ i.own_key o (subst (λ j. lookup j s.operations ≡ some o) here old)
      ]

-- An attempt that is started keeps the ledger's links.
pub begin_finance_operation-IsKept :
    (lib : Library) (fresh : Fresh) (raw o : FinanceOperation) (claimed : Bool) (s t : Store)
    → IsKept s
    → begin_finance_operation lib fresh raw s ≡ ok (claimed, o, t)
    → IsKept t
unfolding started put_operation
begin_finance_operation-IsKept lib fresh raw o claimed s t v h =
    elim (begin_finance_operation-new lib fresh raw o claimed s t h) [
      | inl e ↦ subst IsKept (sym e) v
      | inr (request, picked, checked, asked, pick, _, checks, e) ↦
          let key = trim raw.idempotency_key in
          let i = pick-IsPicked lib fresh raw picked s v pick in
          let made = started fresh.now picked.1 in
          subst IsKept (sym e) (record {
            payments_keyed = v.payments_keyed;
            operations_keyed = Keyed-insert _ made.id made s.operations v.operations_keyed refl;
            operations_linked = start-operations_linked s v key _ picked.1 fresh.now i;
            keys_linked = start-keys_linked s v key _ picked.1 fresh.now i;
            refunds_named = v.refunds_named;
            refunds_keyed = v.refunds_keyed;
            small = v.small;
          })
    ]

-- An attempt that is started keeps every payment covered, if a refund is asked for exactly.
pub begin_finance_operation-IsCovered :
    (lib : Library) (fresh : Fresh) (raw o : FinanceOperation) (claimed : Bool) (s t : Store)
    → AsksExactly lib (trim raw.operation_type) (finance_json raw.request)
    → IsCovered lib s
    → begin_finance_operation lib fresh raw s ≡ ok (claimed, o, t)
    → IsCovered lib t
unfolding started put_operation normalize_operation
begin_finance_operation-IsCovered lib fresh raw o claimed s t asks v h =
    elim (begin_finance_operation-new lib fresh raw o claimed s t h) [
      | inl e ↦ subst (IsCovered lib) (sym e) v
      | inr (request, picked, checked, asked, pick, _, checks, e) ↦
          let key = trim raw.idempotency_key in
          let i = pick-IsPicked lib fresh raw picked s v.kept pick in
          let made = started fresh.now picked.1 in
          record {
            kept = begin_finance_operation-IsKept lib fresh raw o claimed s t v.kept h;
            exact =
                subst
                  (λ (u : Store).
                    (k : String) (w : FinanceOperation)
                    → lookup k u.operations ≡ some w
                    → AsksExactly lib w.operation_type w.request)
                  (sym e)
                  (found-insert
                    (λ _ (w : FinanceOperation). AsksExactly lib w.operation_type w.request) made.id
                    made s.operations v.exact
                    (pick-AsksExactly lib fresh raw picked s v asks pick));
            covered =
                subst (λ u. (p : String) → exposure lib p u ≤ paid p u) (sym e)
                  λ p.
                    start-exposure lib s v key _ picked.1 fresh.now i p request asked checks
                      (pick-same_amount lib fresh raw picked s v asks pick);
          }
    ]
