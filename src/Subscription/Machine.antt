-- ===== src/Subscription/Machine.antt =====
-- internal/store: the lifecycles and their operations as a state machine, beside the rest of the ledger.
use accounts.Base.{
  ℕ, ◌≤◌, ◌≡◌, String, Bool, false, ◌&&◌, Option, none, some, [], if◌then◌else◌, after,
}
use accounts.Base.Text.{eqs, is_empty, has_prefix}
use accounts.Base.Dict.{lookup}
use accounts.Base.Time.{Time}
use accounts.Finance.Types.{FinanceOperation, Store, Fresh}
use accounts.Finance.Machine.{empty_store}
use accounts.Subscription.Actions.{reserve_subscription_action}
use accounts.Subscription.Endings.{Outcome, finish_subscription_action}
use accounts.Subscription.Purchases.{
  reserve_subscription_purchase, update_subscription_purchase, create_subscription_refund_review,
}
use accounts.Subscription.Types.{Accounts, Reader}

pub data Call : Type 0 where
  reserves : String → String → String → String → Call
  purchases : String → String → String → Call
  finishes : String → String → Outcome → Call
  updates : String → String → String → Bool → Call
  reviews : FinanceOperation → ℕ → Call

unfoldable pub step : Reader → Call → Fresh → Accounts → Accounts
step reader (reserves user key action request) fresh s =
    after s (reserve_subscription_action reader fresh user key action request s)
step reader (purchases key_id user request) fresh s =
    after s (reserve_subscription_purchase reader fresh key_id user request s)
step reader (finishes user id outcome) fresh s =
    after s (finish_subscription_action reader fresh user id outcome s)
step reader (updates id provider_id response complete) fresh s =
    after s (update_subscription_purchase reader fresh id provider_id response complete s)
step reader (reviews op expected) fresh s =
    after s (create_subscription_refund_review fresh op expected s)

-- An operation that an account's action has made.
abbrev pub is_action : FinanceOperation → Bool
is_action op = has_prefix "subscription_" op.operation_type && eqs op.target_type "account"

abbrev pub action_of : Option FinanceOperation → Option FinanceOperation
action_of none = none
action_of (some op) = if is_action op then some op else none

-- The operations are held under their ids, which are not empty.
abbrev pub IsNamed : Store → Type 0
IsNamed s =
    (id : String) (op : FinanceOperation)
    → lookup id s.operations ≡ some op
    → (op.id ≡ id) × (is_empty id ≡ false)

-- What the rest of the program does to the ledger leaves the actions alone.
pub record LeavesActions (s t : Store) : Type 0 where
  pub kept : (id : String) → action_of (lookup id s.operations) ≡ action_of (lookup id t.operations)
  pub named : IsNamed t

-- `uuid.NewString()` is the id of no operation.
abbrev pub IsUnused : Fresh → Accounts → Type 0
IsUnused fresh s = (is_empty fresh.id ≡ false) × (lookup fresh.id s.ledger.operations ≡ none)

-- The states that calls lead to, at times from the given one on.
pub data Course (reader : Reader) (since : Time) (from : Accounts) : Accounts → Type 0 where
  here : Course reader since from from
  call :
      {s : Accounts}
      → Course reader since from s
      → (c : Call) (fresh : Fresh) → IsUnused fresh s
      → since ≤ fresh.now
      → Course reader since from (step reader c fresh s)
  elsewhere :
      {s : Accounts}
      → Course reader since from s
      → (t : Store) → LeavesActions s.ledger t
      → Course reader since from (record s { ledger = t })

abbrev pub no_accounts : Accounts
no_accounts = record { ledger = empty_store; lifecycles = [] }

abbrev pub Reach : Reader → Accounts → Type 0
Reach reader s = Course reader 0 no_accounts s
