-- ===== src/Subscription/Tests.antt =====
-- Runs of the subscription lifecycle on concrete calls: an upgrade is reserved and confirmed.
mod Theorems
use accounts.Base.{
  ℕ, ◌≡◌, refl, arith, String, Bool, true, false, Option, some, none, [], ◌∷◌, if◌then◌else◌, ok,
  err,
}
use accounts.Base.Json.{json_text}
use accounts.Base.Text.{eqs, has_prefix}
use accounts.Finance.Types.{FinanceOperation, FinanceOperationEvent, Fresh}
use accounts.Finance.Machine.{empty_store}
use accounts.Finance.Operations.{operation_event}
use accounts.Subscription.Policy.{check_kind, check_subscription_action}
use accounts.Subscription.Actions.{
  new_lifecycle, check_lifecycle_preview_version, lifecycle_action, check_pending, action_operation,
  put_action, repeat_action, new_action, reserve_subscription_action, get_subscription_lifecycle,
  lifecycle_of,
}
use accounts.Subscription.Endings.{
  Outcome, finish_lifecycle, released, is_plan_change, ended, put_end, end_action, repeat_end,
  finish_subscription_action,
}
use accounts.Subscription.Machine.{
  Course, Reach, here, call, elsewhere, reserves, finishes, step, no_accounts, LeavesActions,
}
use accounts.Subscription.Types.{
  Accounts, Reader, SubscriptionLifecycle, subscription_cooldown, finance_operation_in_progress,
}

-- A decoder that knows two quotes.
abbrev pub plain : Reader
plain = record {
  state_version = λ raw. if eqs raw "first" then some (some 0) else some none;
  quoted_action = λ raw. none;
  outcome = λ raw. raw;
  unmarshal = λ raw. some (json_text raw);
}

abbrev pub at : String → ℕ → Fresh
at id now = record { id = id; event_id = "event"; now = now }

abbrev pub state1 : Accounts
state1 = record { ledger = record empty_store { by_id = "acct" ∷ [] }; lifecycles = [] }

abbrev pub action : FinanceOperation
action = action_operation (at "op1" 10) "acct" "k1" "upgrade" "first"

abbrev pub state2 : Accounts
state2 = record {
  ledger = record state1.ledger {
    operations = ("op1", action) ∷ [];
    operation_keys = ("k1", "op1") ∷ [];
    operation_events =
        ("op1", operation_event "event" "attempt_started" "first" "" action ∷ []) ∷ [];
  };
  lifecycles =
      ("acct", record new_lifecycle { account_id = "acct"; version = 1; operation_id = "op1" })
      ∷ [];
}

abbrev pub confirmation : Outcome
confirmation = record {
  provider_id = "sub_1";
  response = "done";
  confirmed = true;
  pending_plan = "";
  effective_at = none;
}

pub reach1 : Reach plain state1
reach1 = elsewhere here state1.ledger (record { kept = λ id. refl; named = λ id op found. cc })

pub reach2 : Reach plain state2
unfolding step reserve_subscription_action repeat_action new_action put_action
    check_lifecycle_preview_version lifecycle_action check_subscription_action check_kind
    check_pending
reach2 =
    call reach1 (reserves "acct" "k1" "upgrade" "first") (at "op1" 10) (refl, refl) (omega arith)

-- Another action is refused while the first one is under way.
busy :
    reserve_subscription_action plain (at "op2" 11) "acct" "k2" "cancel" "" state2
    ≡ err finance_operation_in_progress
unfolding reserve_subscription_action repeat_action new_action check_lifecycle_preview_version
    lifecycle_action check_subscription_action check_kind check_pending
busy = refl

abbrev pub state3 : Accounts
state3 =
    put_end (at "" 20) "acct" "op1"
      (released plain 20 confirmation action (lifecycle_of "acct" state2))
      (ended 20 confirmation action) state2

pub confirms :
    finish_subscription_action plain (at "" 20) "acct" "op1" confirmation state2 ≡ ok (tt, state3)
unfolding finish_subscription_action end_action finish_lifecycle
confirms = refl

-- The next change waits.
cooling :
    reserve_subscription_action plain (at "op2" 21) "acct" "k2" "downgrade" "" state3
    ≡ err subscription_cooldown
unfolding reserve_subscription_action repeat_action new_action check_lifecycle_preview_version
    lifecycle_action check_subscription_action check_kind check_pending put_end released
    is_plan_change ended
cooling = refl
