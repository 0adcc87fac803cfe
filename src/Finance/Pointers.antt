-- ===== src/Finance/Pointers.antt =====
-- internal/store/finance_memory.go: the look-ups of operations that the code does not check.
use accounts.Base.{◌≡◌, ◌≢◌, String, arith, Option-cases, inl, inr, err}
use accounts.Base.Text.{trim}
use accounts.Base.Dict.{lookup}
use accounts.Finance.Coverage.{IsKept}
use accounts.Finance.Coverage.Kept.{Reach-IsKept}
use accounts.Finance.Machine.{Reach}
use accounts.Finance.Operations.{
  normalize_operation, begin_request, restart, pick_operation, check_reservation,
  begin_finance_operation, start_operation,
}
use accounts.Finance.Attempts.{get_finance_operation}
use accounts.Finance.Types.{nil_pointer, FinanceOperation, Store, Library, Fresh}

pick_operation-found :
    (lib : Library) (fresh : Fresh) (key : String) (operation : FinanceOperation) (s : Store)
    → IsKept s
    → pick_operation lib fresh key operation s ≢ err nil_pointer
unfolding pick_operation restart
pick_operation-found lib fresh key operation s v h =
    elim (Option-cases (lookup key s.operation_keys)) [
      | inl free ↦ ground arith
      | inr (id, at) ↦ let (o, found, _) = v.keys_linked key id at in ground arith
    ]

begin_finance_operation-picks :
    (lib : Library) (fresh : Fresh) (raw : FinanceOperation) (s : Store)
    → begin_finance_operation lib fresh raw s ≡ err nil_pointer
    → pick_operation lib fresh (trim raw.idempotency_key) (normalize_operation lib raw) s
      ≡ err nil_pointer
unfolding begin_finance_operation begin_request start_operation check_reservation
begin_finance_operation-picks lib fresh raw s h = ground arith

get_finance_operation-found :
    (lib : Library) (key : String) (s : Store)
    → IsKept s
    → get_finance_operation key s ≢ err nil_pointer
unfolding get_finance_operation
get_finance_operation-found lib key s v h =
    elim (Option-cases (lookup (trim key) s.operation_keys)) [
      | inl free ↦ ground arith
      | inr (id, at) ↦ let (o, found, _) = v.keys_linked (trim key) id at in ground arith
    ]

-- In every ledger that calls lead to, neither BeginFinanceOperation nor GetFinanceOperation, on any request
-- and any key, reads an operation that is not there.
pub Reach-pointers :
    (lib : Library) {s : Store}
    → Reach lib s
    → (fresh : Fresh) (raw : FinanceOperation) (key : String)
    → (begin_finance_operation lib fresh raw s ≢ err nil_pointer)
      × (get_finance_operation key s ≢ err nil_pointer)
Reach-pointers lib {s} r fresh raw key =
    let v = Reach-IsKept lib r in
    (
      λ h.
          pick_operation-found lib fresh (trim raw.idempotency_key) (normalize_operation lib raw) s
            v (begin_finance_operation-picks lib fresh raw s h),
      get_finance_operation-found lib key s v,
    )
