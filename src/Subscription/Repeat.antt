-- ===== src/Subscription/Repeat.antt =====
-- internal/store/subscription_lifecycle.go: the keys of `ReserveSubscriptionAction`.
use accounts.Base.{
  ◌≡◌, sym, ap, ◌∙◌, subst, String, true, false, ◌&&◌, some, inl, inr, ◌⊎◌, arith, ok, err,
}
use accounts.Base.Json.{json_equal}
use accounts.Base.Text.{eqs, eqs_iff, eqs_refl, is_empty, append-inj_right}
use accounts.Base.Dict.{lookup, lookup-insert_self}
use accounts.Finance.Requests.{finance_json}
use accounts.Finance.Refunds.{text_at}
use accounts.Finance.Types.{FinanceOperation, Fresh}
use accounts.Subscription.Actions.{
  is_user, same_action, repeat_action, new_action, reserve_subscription_action, action_operation,
  put_action, cloned, subscription_type,
}
use accounts.Subscription.Types.{Accounts, Reader, finance_idempotency_conflict}
use accounts.Subscription.Writes.{owned}

-- The operation that a key stands for.
abbrev StandsFor : Reader → String → String → String → String → FinanceOperation → Accounts → Type 0
StandsFor reader user key action request op s =
    (is_user user s ≡ true)
    × (is_empty key ≡ false)
    × (is_empty (text_at key s.ledger.operation_keys) ≡ false)
    × (lookup (text_at key s.ledger.operation_keys) s.ledger.operations ≡ some op)
    × (same_action reader op user key action request ≡ true)

reserve_subscription_action-cases :
    (reader : Reader) (fresh : Fresh) (user key action request : String) (o : FinanceOperation)
    (s t : Accounts)
    → reserve_subscription_action reader fresh user key action request s ≡ ok (o, t)
    → ((t ≡ s)
        × ((op : FinanceOperation) × StandsFor reader user key action request op s
            × (o ≡ cloned op)))
      ⊎ ((is_user user s ≡ true)
          × (is_empty key ≡ false)
          × (o ≡ action_operation fresh user key action request)
          × (t
              ≡ put_action fresh user key
                  (owned user s)
                  (action_operation fresh user key action request)
                  s))
unfolding reserve_subscription_action repeat_action new_action
reserve_subscription_action-cases reader fresh user key action request o s t h = ground arith

reserve_subscription_action-repeated :
    (reader : Reader) (later : Fresh) (user key action request : String) (op : FinanceOperation)
    (t : Accounts)
    → StandsFor reader user key action request op t
    → reserve_subscription_action reader later user key action request t ≡ ok (cloned op, t)
unfolding reserve_subscription_action repeat_action
reserve_subscription_action-repeated reader later user key action request op t stands = ground arith

-- A reservation that succeeds leaves its operation under its key.
reserve_subscription_action-leaves :
    (reader : Reader) (fresh : Fresh) (user key action request : String) (o : FinanceOperation)
    (s t : Accounts)
    → json_equal reader.unmarshal (finance_json request) (finance_json request) ≡ true
    → is_empty fresh.id ≡ false
    → reserve_subscription_action reader fresh user key action request s ≡ ok (o, t)
    → (op : FinanceOperation) × StandsFor reader user key action request op t × (o ≡ cloned op)
unfolding put_action same_action
reserve_subscription_action-leaves reader fresh user key action request o s t itself solid h =
    elim (reserve_subscription_action-cases reader fresh user key action request o s t h) [
      | inl (e, (op, stands, is)) ↦
          (op, subst (StandsFor reader user key action request op) (sym e) stands, is)
      | inr (known, keyed, is, e) ↦
          let op = action_operation fresh user key action request in
          let u = put_action fresh user key (owned user s) op s in
          let key_found : text_at key u.ledger.operation_keys ≡ fresh.id =
            ground (arith, lookup-insert_self key fresh.id s.ledger.operation_keys) in
          let stands : StandsFor reader user key action request op u = (
            known,
            keyed,
            rw key_found solid,
            ap (λ i. lookup i u.ledger.operations) key_found
                ∙ lookup-insert_self fresh.id op s.ledger.operations,
            ground (arith, eqs_refl key, eqs_refl user, eqs_refl (subscription_type action)),
          ) in
          (op, subst (StandsFor reader user key action request op) (sym e) stands, ground arith)
    ]

-- Only what a key stands for is returned under it.
reserve_subscription_action-conflict :
    (reader : Reader) (later : Fresh) (user key action request user' action' request' : String)
    (op : FinanceOperation) (t : Accounts)
    → StandsFor reader user key action request op t
    → is_user user' t ≡ true
    → same_action reader op user' key action' request' ≡ false
    → reserve_subscription_action reader later user' key action' request' t
      ≡ err finance_idempotency_conflict
unfolding reserve_subscription_action repeat_action
reserve_subscription_action-conflict reader later user key action request user' action' request' op
      t stands known other =
    ground arith

same_action-other :
    (reader : Reader) (op : FinanceOperation)
    (user key action request user' action' request' : String)
    → same_action reader op user key action request ≡ true
    → (eqs user user' && eqs action action') ≡ false
    → same_action reader op user' key action' request' ≡ false
unfolding same_action
same_action-other reader op user key action request user' action' request' same other = ground (
  arith,
  eqs_iff op.target_id user,
  eqs_iff op.target_id user',
  eqs_iff user user',
  eqs_iff op.operation_type (subscription_type action),
  eqs_iff op.operation_type (subscription_type action'),
  eqs_iff action action',
  append-inj_right "subscription_" action action',
)

-- A key stands for one action of one account: after a reservation has succeeded, the same call returns the same operation and
-- changes nothing, and a call with this key by another user of the store or for another action is a conflict, whatever the time and
-- the fresh ids. (The request's JSON equals itself.)
pub reserve_subscription_action-once :
    (reader : Reader) (fresh later : Fresh)
    (user key action request user' action' request' : String) (o : FinanceOperation)
    (s t : Accounts)
    → json_equal reader.unmarshal (finance_json request) (finance_json request) ≡ true
    → is_empty fresh.id ≡ false
    → reserve_subscription_action reader fresh user key action request s ≡ ok (o, t)
    → is_user user' t ≡ true
    → (eqs user user' && eqs action action') ≡ false
    → (reserve_subscription_action reader later user key action request t ≡ ok (o, t))
      × (reserve_subscription_action reader later user' key action' request' t
          ≡ err finance_idempotency_conflict)
reserve_subscription_action-once reader fresh later user key action request user' action' request' o
      s t itself solid h known other =
    let (op, stands, is) =
      reserve_subscription_action-leaves reader fresh user key action request o s t itself solid
        h in
    (
      subst (λ x. reserve_subscription_action reader later user key action request t ≡ ok (x, t))
          (sym is)
          (reserve_subscription_action-repeated reader later user key action request op t stands),
      reserve_subscription_action-conflict reader later user key action request user' action'
          request' op t stands known
          (same_action-other reader op user key action request user' action' request' stands.4
            other),
    )
