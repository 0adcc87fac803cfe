-- ===== src/Subscription/Release.antt =====
-- internal/store/subscription_lifecycle.go: `FinishSubscriptionAction` and its repetition.
use accounts.Base.{
  ◌≡◌, refl, ap, ◌∙◌, String, Bool, true, false, not, ◌&&◌, if◌then◌else◌, some, inl, inr, arith,
  ok, err, ◌⊎◌, Bool-cases, is_some,
}
use accounts.Base.Word.{add64}
use accounts.Base.Json.{json_equal}
use accounts.Base.Text.{eqs, eqs_refl, is_empty}
use accounts.Base.Dict.{lookup, lookup-insert_self}
use accounts.Base.Time.{Time}
use accounts.Finance.Requests.{finance_json}
use accounts.Finance.Operations.{has_status}
use accounts.Finance.Types.{FinanceOperation, Fresh, finance_operation_succeeded}
use accounts.Subscription.Actions.{lifecycle_of, is_open}
use accounts.Subscription.Endings.{
  Outcome, finish_subscription_action, finish_lifecycle, repeat_end, end_action, released, ended,
  put_end, has_other_reference,
}
use accounts.Subscription.Gate.{gate, is_open_action}
use accounts.Subscription.Machine.{Reach}
use accounts.Subscription.Single.{Reach-IsGated, ended_closed}
use accounts.Subscription.Types.{
  Accounts, Reader, SubscriptionLifecycle, finance_idempotency_conflict,
}

-- What a report says of a plan is in order: a plan comes with its time, and only a confirmed report has one.
abbrev pub is_consistent : Outcome → Bool
is_consistent outcome =
    if is_empty outcome.pending_plan
    then not (is_some outcome.effective_at)
    else is_some outcome.effective_at && outcome.confirmed

-- A report in order on the operation that the lifecycle names ends it.
finish_subscription_action-ends :
    (reader : Reader) (fresh : Fresh) (user id : String) (outcome : Outcome) (op : FinanceOperation)
    (s : Accounts)
    → lookup id s.ledger.operations ≡ some op
    → eqs op.target_id user ≡ true
    → is_open_action op ≡ true
    → eqs (gate user s) op.id ≡ true
    → is_consistent outcome ≡ true
    → has_other_reference outcome.provider_id op ≡ false
    → finish_subscription_action reader fresh user id outcome s
      ≡ ok (
        tt,
        put_end fresh user id
            (released reader fresh.now outcome op (lifecycle_of user s))
            (ended fresh.now outcome op)
            s,
      )
unfolding finish_subscription_action end_action finish_lifecycle
finish_subscription_action-ends reader fresh user id outcome op s found owner active names
      consistent reference =
    ground arith

-- What an end leaves.
module _ (reader : Reader) (fresh : Fresh) (user id : String) (outcome : Outcome)
    (op : FinanceOperation) (s : Accounts) where
  abbrev pub end_state : Accounts
  end_state =
      put_end fresh user id (released reader fresh.now outcome op (lifecycle_of user s))
        (ended fresh.now outcome op) s

  pub lifecycle_of-end_state :
      lifecycle_of user end_state ≡ released reader fresh.now outcome op (lifecycle_of user s)
  unfolding put_end
  lifecycle_of-end_state = ground (
    arith,
    lookup-insert_self user (released reader fresh.now outcome op (lifecycle_of user s))
        s.lifecycles,
  )

  lookup-end_state : lookup id end_state.ledger.operations ≡ some (ended fresh.now outcome op)
  unfolding put_end
  lookup-end_state = lookup-insert_self id (ended fresh.now outcome op) s.ledger.operations

ended-succeeds :
    (now : Time) (outcome : Outcome) (op : FinanceOperation)
    → has_status finance_operation_succeeded (ended now outcome op) ≡ outcome.confirmed
unfolding ended
ended-succeeds now outcome op = elim (Bool-cases outcome.confirmed) [
  | inl sure ↦ rw sure refl
  | inr unsure ↦ rw unsure refl
]

-- No lifecycle is stuck: in every state that calls lead to, the operation that an account's lifecycle
-- names can be finished, by any report in order whose provider reference does not contradict the stored one. After
-- it the lifecycle names no operation, its version is one more, and the operation has succeeded if the report is confirmed
-- and failed if it is not.
pub finish_subscription_action-releases :
    (reader : Reader) (fresh : Fresh) (user : String) (outcome : Outcome) {s : Accounts}
    → Reach reader s
    → is_empty (gate user s) ≡ false
    → is_consistent outcome ≡ true
    → ((op : FinanceOperation)
        → lookup (gate user s) s.ledger.operations ≡ some op
        → has_other_reference outcome.provider_id op ≡ false)
    → (op : FinanceOperation) × (t : Accounts) × (finish_subscription_action reader fresh user
          (gate user s)
          outcome
          s
        ≡ ok (tt, t))
      × (gate user t ≡ "")
      × ((lifecycle_of user t).version ≡ add64 (lifecycle_of user s).version 1)
      × (lookup (gate user s) t.ledger.operations ≡ some op)
      × (has_status finance_operation_succeeded op ≡ outcome.confirmed)
      × (is_open op ≡ false)
unfolding released
finish_subscription_action-releases reader fresh user outcome {s} r full consistent reference =
    let g = Reach-IsGated reader r in
    let id = gate user s in
    let (op, found, active, owner) = g.held user full in
    let names : eqs id op.id ≡ true = rw (g.named id op found).0 (eqs_refl id) in
    (
      ended fresh.now outcome op,
      end_state reader fresh user id outcome op s,
      finish_subscription_action-ends reader fresh user id outcome op s found
          (rw owner (eqs_refl user)) active names consistent (reference op found),
      ap (λ (v : SubscriptionLifecycle). v.operation_id)
          (lifecycle_of-end_state reader fresh user id outcome op s),
      ap (λ (v : SubscriptionLifecycle). v.version)
          (lifecycle_of-end_state reader fresh user id outcome op s),
      lookup-end_state reader fresh user id outcome op s,
      ended-succeeds fresh.now outcome op,
      ended_closed fresh.now outcome op,
    )

-- A report on an operation that has ended is compared with its end; it writes nothing.
finish_subscription_action-repeated :
    (reader : Reader) (later : Fresh) (user id : String) (outcome : Outcome) (op : FinanceOperation)
    (t : Accounts)
    → lookup id t.ledger.operations ≡ some op
    → is_open op ≡ false
    → (eqs op.target_id user && eqs op.target_type "account") ≡ true
    → has_other_reference outcome.provider_id op ≡ false
    → finish_subscription_action reader later user id outcome t ≡ repeat_end reader outcome op t
unfolding finish_subscription_action
finish_subscription_action-repeated reader later user id outcome op t found closed owner reference =
    ground arith

pub finish_subscription_action-cases :
    (reader : Reader) (fresh : Fresh) (user id : String) (outcome : Outcome) (s t : Accounts)
    → finish_subscription_action reader fresh user id outcome s ≡ ok (tt, t)
    → (op : FinanceOperation) × (lookup id s.ledger.operations ≡ some op)
      × ((eqs op.target_id user && eqs op.target_type "account") ≡ true)
      × (has_other_reference outcome.provider_id op ≡ false)
      × (((is_open op ≡ false)
            × (t ≡ s)
            × (has_status finance_operation_succeeded op ≡ outcome.confirmed)
            × (json_equal reader.unmarshal op.response (finance_json outcome.response) ≡ true))
          ⊎ ((is_open op ≡ true) × (t ≡ end_state reader fresh user id outcome op s)))
unfolding finish_subscription_action repeat_end end_action finish_lifecycle
finish_subscription_action-cases reader fresh user id outcome s t h = ground arith

-- What a report that is accepted leaves of its operation.
finish_subscription_action-leaves :
    (reader : Reader) (fresh : Fresh) (user id : String) (outcome : Outcome) (s t : Accounts)
    → json_equal reader.unmarshal (finance_json outcome.response) (finance_json outcome.response)
      ≡ true
    → finish_subscription_action reader fresh user id outcome s ≡ ok (tt, t)
    → (op : FinanceOperation) × (lookup id t.ledger.operations ≡ some op)
      × (is_open op ≡ false)
      × ((eqs op.target_id user && eqs op.target_type "account") ≡ true)
      × (has_other_reference outcome.provider_id op ≡ false)
      × (has_status finance_operation_succeeded op ≡ outcome.confirmed)
      × (json_equal reader.unmarshal op.response (finance_json outcome.response) ≡ true)
unfolding ended
finish_subscription_action-leaves reader fresh user id outcome s t itself h =
    let (op, found, owner, reference, wrote) =
      finish_subscription_action-cases reader fresh user id outcome s t h in
    elim wrote [
      | inl (closed, e, status, response) ↦ (
        op,
        ap (λ (x : Accounts). lookup id x.ledger.operations) e ∙ found,
        closed,
        owner,
        reference,
        status,
        response,
      )
      | inr (_, e) ↦ (
        ended fresh.now outcome op,
        ap (λ (x : Accounts). lookup id x.ledger.operations) e
            ∙ lookup-end_state reader fresh user id outcome op s,
        ended_closed fresh.now outcome op,
        owner,
        ground (arith, eqs_refl outcome.provider_id),
        ended-succeeds fresh.now outcome op,
        itself,
      )
    ]

-- An end is reported once: after a report has been accepted, the same report is accepted again at any time and changes nothing,
-- and a report with the opposite result is refused as a conflict. (The response's JSON equals itself.)
pub finish_subscription_action-once :
    (reader : Reader) (fresh later : Fresh) (user id : String) (outcome : Outcome) (s t : Accounts)
    → json_equal reader.unmarshal (finance_json outcome.response) (finance_json outcome.response)
      ≡ true
    → finish_subscription_action reader fresh user id outcome s ≡ ok (tt, t)
    → (finish_subscription_action reader later user id outcome t ≡ ok (tt, t))
      × (finish_subscription_action reader later user id
            (record outcome { confirmed = not outcome.confirmed })
            t
          ≡ err finance_idempotency_conflict)
unfolding repeat_end
finish_subscription_action-once reader fresh later user id outcome s t itself h =
    let (op, found, closed, owner, reference, status, response) =
      finish_subscription_action-leaves reader fresh user id outcome s t itself h in
    let contrary : Outcome = record outcome { confirmed = not outcome.confirmed } in
    (
      finish_subscription_action-repeated reader later user id outcome op t found closed owner
            reference
          ∙ ground arith,
      finish_subscription_action-repeated reader later user id contrary op t found closed owner
            reference
          ∙ ground arith,
    )
