-- ===== src/Finance/Exclusion.antt =====
-- internal/store/finance_memory.go: `BeginFinanceOperation` on an operation that is under way.
use accounts.Base.{
  ℕ, ◌≡◌, refl, sym, ap, subst, ◌∙◌, String, Bool, true, false, ◌||◌, some, none, arith, inl, inr,
  ◌⊎◌, ok, err,
}
use accounts.Base.Json.{json_equal}
use accounts.Base.Text.{eqs_refl, is_empty, trim, trim_idem}
use accounts.Base.Dict.{lookup, lookup-insert_self}
use accounts.Finance.Requests.{finance_json, finance_provider, finance_refund_attempt_expired}
use accounts.Finance.Coverage.{IsKept}
use accounts.Finance.Coverage.Attempts.{pick_operation-cases}
use accounts.Finance.Coverage.Starting.{finance_json_idem, pick-IsPicked}
use accounts.Finance.Coverage.Reserving.{keys_after}
use accounts.Finance.Coverage.Kept.{Reach-IsKept}
use accounts.Finance.Machine.{Reach}
use accounts.Finance.Operations.{
  normalize_operation, begin_request, same_operation, has_status, restart, first_attempt,
  pick_operation, started, put_operation, begin_finance_operation, start_operation,
}
use accounts.Finance.Types.{
  operation_in_progress, FinanceOperation, Store, Library, Fresh, finance_operation_in_progress,
}

pick_operation-busy :
    (lib : Library) (later : Fresh) (key : String) (operation made : FinanceOperation) (id : String)
    (t : Store)
    → lookup key t.operation_keys ≡ some id
    → lookup id t.operations ≡ some made
    → same_operation lib operation made ≡ true
    → has_status finance_operation_in_progress made ≡ true
    → finance_refund_attempt_expired later.now made ≡ false
    → pick_operation lib later key operation t ≡ err operation_in_progress
unfolding pick_operation restart
pick_operation-busy lib later key operation made id t is_key found same busy live = ground arith

-- A request for an operation that another caller has under way is refused.
begin_finance_operation-busy :
    (lib : Library) (later : Fresh) (raw made : FinanceOperation) (request : ℕ × String)
    (id : String) (t : Store)
    → (is_empty (trim raw.idempotency_key) || is_empty (trim raw.operation_type)) ≡ false
    → begin_request lib (normalize_operation lib raw) ≡ ok request
    → lookup (trim raw.idempotency_key) t.operation_keys ≡ some id
    → lookup id t.operations ≡ some made
    → same_operation lib (normalize_operation lib raw) made ≡ true
    → has_status finance_operation_in_progress made ≡ true
    → finance_refund_attempt_expired later.now made ≡ false
    → begin_finance_operation lib later raw t ≡ err operation_in_progress
unfolding begin_finance_operation
begin_finance_operation-busy lib later raw made request id t guards asked key found same busy live =
    let refused =
      pick_operation-busy lib later (trim raw.idempotency_key) (normalize_operation lib raw) made id
        t key found same busy live in
    rw (guards, asked, refused) refl

begin_finance_operation-guards :
    (lib : Library) (fresh : Fresh) (raw o : FinanceOperation) (s t : Store)
    → begin_finance_operation lib fresh raw s ≡ ok (true, o, t)
    → (is_empty (trim raw.idempotency_key) || is_empty (trim raw.operation_type)) ≡ false
unfolding begin_finance_operation
begin_finance_operation-guards lib fresh raw o s t h = ground arith

-- An attempt that is started is of the operation that it returns.
begin_finance_operation-started :
    (lib : Library) (fresh : Fresh) (raw o : FinanceOperation) (s t : Store)
    → begin_finance_operation lib fresh raw s ≡ ok (true, o, t)
    → (request : ℕ × String) × (picked : Bool × FinanceOperation) × (begin_request lib
          (normalize_operation lib raw)
        ≡ ok request)
      × (pick_operation lib fresh (trim raw.idempotency_key) (normalize_operation lib raw) s
          ≡ ok picked)
      × (o ≡ started fresh.now picked.1)
      × (t.operations ≡ (put_operation (trim raw.idempotency_key) o s).operations)
      × (t.operation_keys ≡ (put_operation (trim raw.idempotency_key) o s).operation_keys)
unfolding begin_finance_operation start_operation
begin_finance_operation-started lib fresh raw o s t h = ground arith

-- The operation that was picked for a request is found again for the same request.
same_operation-again :
    (lib : Library) (fresh : Fresh) (raw : FinanceOperation) (picked : Bool × FinanceOperation)
    (s : Store)
    → json_equal lib.unmarshal (finance_json raw.request) (finance_json raw.request) ≡ true
    → finance_provider lib (finance_provider lib raw.provider) ≡ finance_provider lib raw.provider
    → pick_operation lib fresh (trim raw.idempotency_key) (normalize_operation lib raw) s
      ≡ ok picked
    → same_operation lib (normalize_operation lib raw) picked.1 ≡ true
unfolding same_operation normalize_operation first_attempt
same_operation-again lib fresh raw picked s itself stable h =
    elim (pick_operation-cases lib fresh (trim raw.idempotency_key) (normalize_operation lib raw)
      picked s h) [
        | inl (_, e, _) ↦
            subst (λ w. same_operation lib (normalize_operation lib raw) w ≡ true) (sym e)
              (rw
                (
                  trim_idem raw.operation_type,
                  trim_idem raw.target_type,
                  trim_idem raw.target_id,
                  stable,
                  finance_json_idem raw.request,
                  eqs_refl (trim raw.operation_type),
                  eqs_refl (trim raw.target_type),
                  eqs_refl (trim raw.target_id),
                  eqs_refl (finance_provider lib raw.provider),
                )
                itself)
        | inr (_, _, _, same) ↦ same
      ]

-- What an attempt leaves under the key: the operation that it returns, under way and of the same request.
begin_finance_operation-leaves :
    (lib : Library) (fresh : Fresh) (raw o : FinanceOperation) (s t : Store)
    → IsKept s
    → json_equal lib.unmarshal (finance_json raw.request) (finance_json raw.request) ≡ true
    → finance_provider lib (finance_provider lib raw.provider) ≡ finance_provider lib raw.provider
    → begin_finance_operation lib fresh raw s ≡ ok (true, o, t)
    → (lookup (trim raw.idempotency_key) t.operation_keys ≡ some o.id)
      × (lookup o.id t.operations ≡ some o)
      × (same_operation lib (normalize_operation lib raw) o ≡ true)
      × (has_status finance_operation_in_progress o ≡ true)
unfolding put_operation started same_operation
begin_finance_operation-leaves lib fresh raw o s t v itself stable h =
    let (request, picked, asked, pick, is, operations, keys) =
      begin_finance_operation-started lib fresh raw o s t h in
    let key = trim raw.idempotency_key in
    let i = pick-IsPicked lib fresh raw picked s v pick in
    let same_id : o.id ≡ picked.1.id = ap (λ (w : FinanceOperation). w.id) is in
    let linked : (lookup key s.operation_keys ≡ none) ⊎ (lookup key s.operation_keys ≡ some o.id) =
      subst (λ j. (lookup key s.operation_keys ≡ none) ⊎ (lookup key s.operation_keys ≡ some j))
        (sym same_id) i.linked in
    let key_found = keys_after key key o.id s.operation_keys linked in
    let same = same_operation-again lib fresh raw picked s itself stable pick in
    (
      ap (lookup key) keys ∙ key_found ∙ rw (eqs_refl key) refl,
      ap (lookup o.id) operations ∙ lookup-insert_self o.id o s.operations,
      subst (λ w. same_operation lib (normalize_operation lib raw) w ≡ true) (sym is) same,
      subst (λ w. has_status finance_operation_in_progress w ≡ true) (sym is) refl,
    )

-- An operation is given to one caller at a time: in a ledger that calls lead to, once BeginFinanceOperation
-- has claimed an operation, the same request is refused as in progress for as long as the attempt has not
-- expired, whatever fresh ids it draws. (The request's JSON equals itself, and the provider's normal form is
-- stable.)
pub begin_finance_operation-exclusive :
    (lib : Library) (fresh later : Fresh) (raw o : FinanceOperation) {s : Store} (t : Store)
    → Reach lib s
    → json_equal lib.unmarshal (finance_json raw.request) (finance_json raw.request) ≡ true
    → finance_provider lib (finance_provider lib raw.provider) ≡ finance_provider lib raw.provider
    → begin_finance_operation lib fresh raw s ≡ ok (true, o, t)
    → finance_refund_attempt_expired later.now o ≡ false
    → begin_finance_operation lib later raw t ≡ err operation_in_progress
begin_finance_operation-exclusive lib fresh later raw o {s} t r itself stable h live =
    let (key, found, same, busy) =
      begin_finance_operation-leaves lib fresh raw o s t (Reach-IsKept lib r) itself stable h in
    let (request, _, asked, _, _, _, _) = begin_finance_operation-started lib fresh raw o s t h in
    begin_finance_operation-busy lib later raw o request o.id t
      (begin_finance_operation-guards lib fresh raw o s t h) asked key found same busy live
