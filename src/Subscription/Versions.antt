-- ===== src/Subscription/Versions.antt =====
-- internal/store: what the calls make of the version and of the last change of a lifecycle.
use accounts.Base.{
  ◌≡◌, refl, sym, ap, subst, ℕ, String, Bool, true, false, some, inl, inr, ◌⊎◌, arith, ok, err,
  Bool-cases, after, after-rule,
}
use accounts.Base.Word.{add64}
use accounts.Base.Text.{eqs, eqs_iff, is_empty}
use accounts.Base.Dict.{insert, lookup-insert}
use accounts.Base.Time.{Time}
use accounts.Finance.Refunds.{text_at}
use accounts.Finance.Types.{FinanceOperation, Fresh}
use accounts.Subscription.Actions.{
  lifecycle_of, is_user, put_action, check_lifecycle_preview_version, new_action,
  reserve_subscription_action,
}
use accounts.Subscription.Endings.{Outcome, released, put_end, finish_subscription_action}
use accounts.Subscription.Purchases.{
  reserve_subscription_purchase, update_subscription_purchase, create_subscription_refund_review,
  review_operation, put_review, receipt_outcome,
}
use accounts.Subscription.Machine.{Call, reserves, purchases, finishes, updates, reviews, step}
use accounts.Subscription.Single.{complete_purchase-finishes}
use accounts.Subscription.Types.{
  Accounts, Reader, SubscriptionLifecycle, subscription_state_conflict,
}
use accounts.Subscription.Writes.{
  reserve_subscription_action-writes, finish_subscription_action-writes, suspend_purchase-writes,
  create_subscription_refund_review-writes,
}

-- One call at the given time leaves a lifecycle as it was, or makes its version one more.
abbrev pub Moves : Time → SubscriptionLifecycle → SubscriptionLifecycle → Type 0
Moves now v w =
    (w ≡ v)
    ⊎ ((w.version ≡ add64 v.version 1)
        × ((w.last_change_at ≡ v.last_change_at) ⊎ (w.last_change_at ≡ some now)))

abbrev StepMoves : String → Time → Accounts → Accounts → Type 0
StepMoves u now s t = Moves now (lifecycle_of u s) (lifecycle_of u t)

insert-Moves :
    (u user : String) (now : Time) (v : SubscriptionLifecycle) (s t : Accounts)
    → t.lifecycles ≡ insert user v s.lifecycles
    → Moves now (lifecycle_of user s) v
    → StepMoves u now s t
insert-Moves u user now v s t e moves = elim (Bool-cases (eqs u user)) [
  | inl hit ↦
      let same : u ≡ user = (eqs_iff u user).0 hit in
      let written : lifecycle_of user t ≡ v =
        ground (arith, eqs_iff u user, lookup-insert user user v s.lifecycles) in
      rw same (subst (Moves now (lifecycle_of user s)) (sym written) moves)
  | inr miss ↦ inl (ground (arith, lookup-insert u user v s.lifecycles))
]

module _ (reader : Reader) (fresh : Fresh) (u : String) (s : Accounts) where
  same-Moves : (t : Accounts) → t ≡ s → StepMoves u fresh.now s t
  same-Moves t e = inl (ap (lifecycle_of u) e)

  reserve-Moves :
      (user key action request : String)
      → StepMoves u fresh.now s
          (after s (reserve_subscription_action reader fresh user key action request s))
  unfolding put_action
  reserve-Moves user key action request =
      after-rule (StepMoves u fresh.now s) s _ (inl refl) λ o t h.
        elim (reserve_subscription_action-writes reader fresh user key action request s t o h) [
          | inl e ↦ same-Moves t e
          | inr (_, _, _, _, _, _, e) ↦
              insert-Moves u user fresh.now _ s t (ap (λ (x : Accounts). x.lifecycles) e)
                (inr (refl, inl refl))
        ]

  released-Moves :
      (user : String) (outcome : Outcome) (op : FinanceOperation)
      → Moves fresh.now
          (lifecycle_of user s)
          (released reader fresh.now outcome op (lifecycle_of user s))
  unfolding released
  released-Moves user outcome op = inr (refl, ground arith)

  finish-Moves :
      (user id : String) (outcome : Outcome) (t : Accounts)
      → finish_subscription_action reader fresh user id outcome s ≡ ok (tt, t)
      → StepMoves u fresh.now s t
  unfolding put_end
  finish-Moves user id outcome t h =
      elim (finish_subscription_action-writes reader fresh user id outcome s t h) [
        | inl e ↦ same-Moves t e
        | inr (op, _, _, _, _, _, e) ↦
            insert-Moves u user fresh.now _ s t (ap (λ (x : Accounts). x.lifecycles) e)
              (released-Moves user outcome op)
      ]

  update-Moves :
      (id provider_id response : String) (complete : Bool) (t : Accounts)
      → update_subscription_purchase reader fresh id provider_id response complete s ≡ ok (tt, t)
      → StepMoves u fresh.now s t
  unfolding update_subscription_purchase
  update-Moves id provider_id response true t h =
      let (user, finished) =
        complete_purchase-finishes reader fresh id provider_id response s t h in
      finish-Moves user id (receipt_outcome reader provider_id response) t finished
  update-Moves id provider_id response false t h =
      elim (suspend_purchase-writes fresh id provider_id response s t h) [
        | inl e ↦ same-Moves t e
        | inr (_, _, _, _, e) ↦ inl (ap (lifecycle_of u) e)
      ]

  review-Moves :
      (op o : FinanceOperation) (expected : ℕ) (t : Accounts)
      → create_subscription_refund_review fresh op expected s ≡ ok (o, t)
      → StepMoves u fresh.now s t
  unfolding put_review review_operation
  review-Moves op o expected t h =
      let (_, wrote) = create_subscription_refund_review-writes fresh op o expected s t h in
      elim wrote [
        | inl e ↦ same-Moves t e
        | inr (_, _, _, _, e) ↦
            insert-Moves u op.target_id fresh.now _ s t (ap (λ (x : Accounts). x.lifecycles) e)
              (inr (refl, inl refl))
      ]

  pub step-Moves : (c : Call) → StepMoves u fresh.now s (step reader c fresh s)
  unfolding step reserve_subscription_purchase
  step-Moves (reserves user key action request) = reserve-Moves user key action request
  step-Moves (purchases key_id user request) = reserve-Moves user _ "purchase" request
  step-Moves (finishes user id outcome) =
      after-rule (StepMoves u fresh.now s) s _ (inl refl) λ _ t h. finish-Moves user id outcome t h
  step-Moves (updates id provider_id response complete) =
      after-rule (StepMoves u fresh.now s) s _ (inl refl)
        λ _ t h. update-Moves id provider_id response complete t h
  step-Moves (reviews op expected) =
      after-rule (StepMoves u fresh.now s) s _ (inl refl) λ o t h. review-Moves op o expected t h

-- A preview is good for one version.
check_lifecycle_preview_version-stale :
    (reader : Reader) (request : String) (v w : ℕ)
    → is_empty request ≡ false
    → reader.state_version request ≡ some (some v)
    → w ≡ add64 v 1
    → check_lifecycle_preview_version reader request w ≡ err subscription_state_conflict
unfolding check_lifecycle_preview_version
check_lifecycle_preview_version-stale reader request v w full quoted e = ground arith

-- A preview is used once: whatever call is made, the lifecycle of an account stays as it was, or its version is one
-- more; and then a reservation under a new key whose request quotes the version before is a conflict.
pub step-version :
    (reader : Reader) (c : Call) (fresh later : Fresh) (user key action request : String)
    (s : Accounts)
    → is_user user (step reader c fresh s) ≡ true
    → is_empty key ≡ false
    → is_empty (text_at key (step reader c fresh s).ledger.operation_keys) ≡ true
    → is_empty request ≡ false
    → reader.state_version request ≡ some (some (lifecycle_of user s).version)
    → (lifecycle_of user (step reader c fresh s) ≡ lifecycle_of user s)
      ⊎ (((lifecycle_of user (step reader c fresh s)).version
            ≡ add64 (lifecycle_of user s).version 1)
          × (reserve_subscription_action reader later user key action request
                (step reader c fresh s)
              ≡ err subscription_state_conflict))
unfolding reserve_subscription_action new_action
step-version reader c fresh later user key action request s known keyed new full quoted =
    elim (step-Moves reader fresh user s c) [
      | inl e ↦ inl e
      | inr (next, _) ↦ inr (
        next,
        rw
            (
              known,
              keyed,
              new,
              check_lifecycle_preview_version-stale reader request _ _ full quoted next,
            )
            refl,
      )
    ]
