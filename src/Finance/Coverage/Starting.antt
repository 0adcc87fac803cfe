-- ===== src/Finance/Coverage/Starting.antt =====
-- internal/store/finance_memory.go: the operation that `BeginFinanceOperation` picks for a request.
use accounts.Base.{
  ◌≡◌, ◌≢◌, refl, ap, sym, subst, ◌∙◌, true, String, Bool, some, none, arith, Bool-cases, inl, inr,
  ◌⊎◌, ok,
}
use accounts.Base.Text.{eqs, eqs_iff, is_empty, trim, trim_idem}
use accounts.Base.Dict.{lookup}
use accounts.Base.Keyed.{Keyed-lookup}
use accounts.Finance.Requests.{finance_refund_request, finance_json}
use accounts.Finance.Coverage.{IsKept, IsCovered, IsExact, AsksExactly, IsExact-same}
use accounts.Finance.Coverage.Attempts.{pick_operation-cases}
use accounts.Finance.Operations.{normalize_operation, same_operation, first_attempt, pick_operation}
use accounts.Finance.Types.{FinanceOperation, Store, Library, Fresh}

-- The picked operation has the key, the type and the target of the request, and only it has the key.
pub record IsPicked (key : String) (operation stored : FinanceOperation) (s : Store) : Type 0 where
  pub same_key : stored.idempotency_key ≡ key
  pub same_type : stored.operation_type ≡ operation.operation_type
  pub same_target : stored.target_id ≡ operation.target_id
  pub alone :
      (j : String) (o : FinanceOperation)
      → lookup j s.operations ≡ some o
      → j ≢ stored.id
      → o.idempotency_key ≢ key
  pub own_key :
      (o : FinanceOperation) → lookup stored.id s.operations ≡ some o → o.idempotency_key ≡ key
  pub linked : (lookup key s.operation_keys ≡ none) ⊎ (lookup key s.operation_keys ≡ some stored.id)

pub same_request :
    (lib : Library) (a b : FinanceOperation)
    → lib.refund_payload a.request ≡ lib.refund_payload b.request
    → finance_refund_request lib a ≡ finance_refund_request lib b
unfolding finance_refund_request
same_request lib a b e = rw e refl

pub finance_json_idem : (raw : String) → finance_json (finance_json raw) ≡ finance_json raw
finance_json_idem raw = elim (Bool-cases (is_empty raw)) [
  | inl e ↦ rw e refl
  | inr e ↦ rw e (rw e refl)
]

of_refund :
    (lib : Library) (type raw : String)
    → eqs type "refund" ≡ true
    → AsksExactly lib type raw
    → IsExact lib raw
of_refund lib type raw refunds (inl other) = absurd (cc)
of_refund lib type raw refunds (inr exact) = exact

pub pick-IsPicked :
    (lib : Library) (fresh : Fresh) (raw : FinanceOperation) (picked : Bool × FinanceOperation)
    (s : Store)
    → IsKept s
    → pick_operation lib fresh (trim raw.idempotency_key) (normalize_operation lib raw) s
      ≡ ok picked
    → IsPicked (trim raw.idempotency_key) (normalize_operation lib raw) picked.1 s
unfolding normalize_operation first_attempt same_operation
pick-IsPicked lib fresh raw picked s v h =
    elim (pick_operation-cases lib fresh (trim raw.idempotency_key) (normalize_operation lib raw)
      picked s h) [
        | inl (free, e, new) ↦ record {
          same_key = ap (λ (o : FinanceOperation). o.idempotency_key) e;
          same_type =
              ap (λ (o : FinanceOperation). o.operation_type) e ∙ trim_idem raw.operation_type;
          same_target = ap (λ (o : FinanceOperation). o.target_id) e ∙ trim_idem raw.target_id;
          alone = λ j o found ne same. ground (arith, v.operations_linked j o);
          own_key = λ o found. ground arith;
          linked = inl free;
        }
        | inr (id, at, found, same) ↦
            let (o, there, is_key) = v.keys_linked (trim raw.idempotency_key) id at in
            let own_id : picked.1.id ≡ id =
              Keyed-lookup _ id picked.1 s.operations v.operations_keyed found in
            record {
              same_key = ground arith;
              same_type = (eqs_iff _ _).0 (ground arith);
              same_target = (eqs_iff _ _).0 (ground arith);
              alone = λ j w there_too ne same_key. ground (arith, v.operations_linked j w);
              own_key = λ w found_too. ground (arith, v.operations_linked id w);
              linked = inr (at ∙ ap some (sym own_id));
            }
      ]

module _ (lib : Library) (fresh : Fresh) (raw : FinanceOperation) (picked : Bool × FinanceOperation)
    (s : Store) (v : IsCovered lib s)
    (asks : AsksExactly lib (trim raw.operation_type) (finance_json raw.request))
    (pick : pick_operation lib fresh (trim raw.idempotency_key) (normalize_operation lib raw) s
      ≡ ok picked) where
  -- The picked operation is a refund with an exact request, or none.
  pub pick-AsksExactly : AsksExactly lib picked.1.operation_type picked.1.request
  unfolding normalize_operation first_attempt
  pick-AsksExactly =
      elim (pick_operation-cases lib fresh (trim raw.idempotency_key) (normalize_operation lib raw)
        picked s pick) [
          | inl (_, e, _) ↦
              subst (λ (o : FinanceOperation). AsksExactly lib o.operation_type o.request) (sym e)
                (rw (trim_idem raw.operation_type, finance_json_idem raw.request) asks)
          | inr (id, _, found, _) ↦ v.exact id picked.1 found
        ]

  -- A refund that is picked asks for what the request asks for.
  pub pick-same_amount :
      eqs (trim raw.operation_type) "refund" ≡ true
      → eqs picked.1.operation_type "refund" ≡ true
      → finance_refund_request lib picked.1
        ≡ finance_refund_request lib (normalize_operation lib raw)
  unfolding normalize_operation first_attempt same_operation
  pick-same_amount refunds picked_refunds =
      elim (pick_operation-cases lib fresh (trim raw.idempotency_key) (normalize_operation lib raw)
        picked s pick) [
          | inl (_, e, _) ↦ same_request lib _ _ (
              ap (λ (o : FinanceOperation). lib.refund_payload o.request) e
              ∙ ap lib.refund_payload (finance_json_idem raw.request))
          | inr (_, _, _, same) ↦ same_request lib _ _ (
              IsExact-same lib picked.1.request (finance_json raw.request)
                (of_refund lib _ _ picked_refunds pick-AsksExactly) (of_refund lib _ _ refunds asks)
                (ground arith))
        ]
