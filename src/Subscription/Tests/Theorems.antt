-- ===== src/Subscription/Tests/Theorems.antt =====
-- The theorems of the lifecycle at concrete calls.
use accounts.Base.{◌≡◌, ◌⊎◌, refl, arith, subst, String, true, false, some, ok, err}
use accounts.Base.Json.{json_equal, deep_equal}
use accounts.Base.Text.{has_prefix}
use accounts.Base.Word.{add64}
use accounts.Base.Dict.{lookup}
use accounts.Finance.Operations.{has_status}
use accounts.Finance.Types.{FinanceOperation, finance_operation_succeeded}
use accounts.Subscription.Actions.{
  lifecycle_of, lifecycle_action, is_open, reserve_subscription_action,
  check_lifecycle_preview_version, check_pending, repeat_action, new_action, put_action,
}
use accounts.Subscription.Policy.{check_kind, check_subscription_action}
use accounts.Subscription.Cooldown.{reserve_subscription_action-cooldown}
use accounts.Subscription.Endings.{
  finish_subscription_action, is_plan_change, put_end, has_other_reference,
}
use accounts.Subscription.Gate.{gate}
use accounts.Subscription.Machine.{here, step, reserves}
use accounts.Subscription.Release.{
  finish_subscription_action-releases, finish_subscription_action-once,
}
use accounts.Subscription.Repeat.{reserve_subscription_action-once}
use accounts.Subscription.Single.{Reach-single_action}
use accounts.Subscription.Tests.{
  plain, at, action, confirmation, state1, state2, state3, reach2, confirms,
}
use accounts.Subscription.Types.{
  Accounts, LifecycleError, subscription_state_conflict, finance_idempotency_conflict,
}
use accounts.Subscription.Versions.{step-version}

Reach-single_action_example :
    (◌≡◌ {A = String} "op1" "op1") × (action ≡ action) × (gate "acct" state2 ≡ "op1")
unfolding has_prefix
Reach-single_action_example =
    Reach-single_action plain "op1" "op1" action action reach2 refl refl refl refl refl

finish_subscription_action-releases_example :
    (op : FinanceOperation) × (t : Accounts) × (finish_subscription_action plain
        (at "" 20)
        "acct"
        "op1"
        confirmation
        state2
      ≡ ok (tt, t))
    × (gate "acct" t ≡ "")
    × ((lifecycle_of "acct" t).version ≡ add64 1 1)
    × (lookup "op1" t.ledger.operations ≡ some op)
    × (has_status finance_operation_succeeded op ≡ true)
    × (is_open op ≡ false)
finish_subscription_action-releases_example =
    finish_subscription_action-releases plain (at "" 20) "acct" confirmation reach2 refl refl
      λ op found.
        let is : action ≡ op = cc in subst (λ x. has_other_reference "sub_1" x ≡ false) is refl

finish_subscription_action-once_example :
    (finish_subscription_action plain (at "" 30) "acct" "op1" confirmation state3 ≡ ok (tt, state3))
    × (finish_subscription_action plain
          (at "" 30)
          "acct"
          "op1"
          (record confirmation { confirmed = false })
          state3
        ≡ err finance_idempotency_conflict)
unfolding json_equal deep_equal
finish_subscription_action-once_example =
    finish_subscription_action-once plain (at "" 20) (at "" 30) "acct" "op1" confirmation state2
      state3 refl confirms

reserved :
    reserve_subscription_action plain (at "op1" 10) "acct" "k1" "upgrade" "first" state1
    ≡ ok (action, state2)
unfolding reserve_subscription_action repeat_action new_action put_action
    check_lifecycle_preview_version lifecycle_action check_subscription_action check_kind
    check_pending
reserved = refl

reserve_subscription_action-once_example :
    (reserve_subscription_action plain (at "op2" 30) "acct" "k1" "upgrade" "first" state2
      ≡ ok (action, state2))
    × (reserve_subscription_action plain (at "op2" 30) "acct" "k1" "cancel" "" state2
        ≡ err finance_idempotency_conflict)
unfolding json_equal deep_equal
reserve_subscription_action-once_example =
    reserve_subscription_action-once plain (at "op1" 10) (at "op2" 30) "acct" "k1" "upgrade" "first"
      "acct" "cancel" "" action state1 state2 refl refl reserved refl refl

step-version_example :
    (lifecycle_of "acct" (step plain (reserves "acct" "k1" "upgrade" "first") (at "op1" 10) state1)
      ≡ lifecycle_of "acct" state1)
    ⊎ (((lifecycle_of "acct"
            (step plain (reserves "acct" "k1" "upgrade" "first") (at "op1" 10) state1)).version
          ≡ add64 0 1)
        × (reserve_subscription_action plain
              (at "op2" 11)
              "acct"
              "k2"
              "cancel"
              "first"
              (step plain (reserves "acct" "k1" "upgrade" "first") (at "op1" 10) state1)
            ≡ err subscription_state_conflict))
unfolding step reserve_subscription_action repeat_action new_action put_action
    check_lifecycle_preview_version lifecycle_action check_subscription_action check_kind
    check_pending
step-version_example =
    step-version plain (reserves "acct" "k1" "upgrade" "first") (at "op1" 10) (at "op2" 11) "acct"
      "k2" "cancel" "first" state1 refl refl refl refl refl

reserve_subscription_action-cooldown_example :
    (e : LifecycleError) × (reserve_subscription_action plain
        (at "op2" 21)
        "acct"
        "k2"
        "downgrade"
        ""
        state3
      ≡ err e)
unfolding is_plan_change put_end lifecycle_action
reserve_subscription_action-cooldown_example =
    reserve_subscription_action-cooldown plain (at "" 20) (at "op2" 21) "acct" "op1" "k2"
      "downgrade" "" confirmation action state2 state3 state3 refl refl refl refl confirms here refl
      refl (omega arith)
