-- ===== src/Subscription/Single.antt =====
-- internal/store: the operations on a lifecycle, and the operation that it names.
use accounts.Base.{
  ◌≡◌, refl, sym, ◌∙◌, ap, subst, ℕ, String, Bool, true, false, Option, some, inl, inr, arith, ok,
  Bool-cases, after, after-rule, if◌then◌else◌,
}
use accounts.Base.Text.{eqs, eqs_iff, is_empty, has_prefix, has_prefix-append}
use accounts.Base.Dict.{lookup, insert, lookup-insert}
use accounts.Base.Time.{Time}
use accounts.Finance.Types.{FinanceOperation, Store, Fresh}
use accounts.Subscription.Actions.{
  lifecycle_of, is_open, action_operation, put_action, reserve_subscription_action,
  subscription_type,
}
use accounts.Subscription.Policy.{check_subscription_action}
use accounts.Subscription.Endings.{Outcome, released, ended, put_end, finish_subscription_action}
use accounts.Subscription.Purchases.{
  reserve_subscription_purchase, update_subscription_purchase, complete_purchase,
  create_subscription_refund_review, receipt_outcome, target_of, unreconciled, put_review,
  review_operation, valid_review,
}
use accounts.Subscription.Gate.{gate, is_open_action, Holds, IsGated, write-IsGated}
use accounts.Subscription.Machine.{
  Call, reserves, purchases, finishes, updates, reviews, step, is_action, LeavesActions, action_of,
  IsUnused, Course, here, call, elsewhere, Reach,
}
use accounts.Subscription.Types.{Accounts, Reader, SubscriptionLifecycle}
use accounts.Subscription.Writes.{
  owned, reserve_subscription_action-writes, finish_subscription_action-writes,
  suspend_purchase-writes, create_subscription_refund_review-writes,
}

subscription_type-has_prefix :
    (action : String) → has_prefix "subscription_" (subscription_type action) ≡ true
subscription_type-has_prefix action = has_prefix-append "subscription_" action

gate-insert :
    (user u : String) (v : SubscriptionLifecycle) (s t : Accounts)
    → t.lifecycles ≡ insert user v s.lifecycles
    → gate u t ≡ (if eqs u user then v.operation_id else gate u s)
gate-insert user u v s t e = ground (arith, lookup-insert u user v s.lifecycles)

pub ended_closed :
    (now : ℕ) (outcome : Outcome) (op : FinanceOperation) → is_open (ended now outcome op) ≡ false
unfolding ended
ended_closed now outcome op = elim (Bool-cases outcome.confirmed) [
  | inl sure ↦ rw sure refl
  | inr unsure ↦ rw unsure refl
]

review-no_action : (op : FinanceOperation) → valid_review op ≡ true → is_action op ≡ false
unfolding valid_review has_prefix
review-no_action op valid =
    let is_review : op.operation_type ≡ "refund_review" =
      ground (arith, eqs_iff op.operation_type "refund_review") in
    rw is_review refl

check_subscription_action-idle :
    (reader : Reader) (user kind : String) (now : ℕ) (s : Accounts)
    → check_subscription_action (owned user s) kind now ≡ ok tt
    → is_empty (gate user s) ≡ true
unfolding check_subscription_action
check_subscription_action-idle reader user kind now s h = ground arith

module _ (reader : Reader) (fresh : Fresh) (s : Accounts) (g : IsGated s) where
  put_action-IsGated :
      (user key action request : String)
      → IsUnused fresh s
      → is_empty (gate user s) ≡ true
      → IsGated (
          put_action fresh user key
            (owned user s)
            (action_operation fresh user key action request)
            s)
  unfolding put_action
  put_action-IsGated user key action request unused idle =
      let op = action_operation fresh user key action request in
      write-IsGated s (put_action fresh user key (owned user s) op s) fresh.id user fresh.id op g
        (record {
          operations = refl;
          gates = λ u. gate-insert user u _ s (put_action fresh user key (owned user s) op s) refl;
          own_id = refl;
          solid = unused.0;
          new_taken = λ _. (refl, refl);
          new_held = λ _. (rw (subscription_type-has_prefix action) refl, refl);
          old_owner = λ o found _. cc;
          still = λ _ full. cc;
          no_other = λ miss _. ground (arith, eqs_iff fresh.id fresh.id);
        })

  put_end-IsGated :
      (user id : String) (outcome : Outcome) (op : FinanceOperation)
      → lookup id s.ledger.operations ≡ some op
      → eqs op.target_id user ≡ true
      → eqs (gate user s) op.id ≡ true
      → IsGated (
          put_end fresh user id
            (released reader fresh.now outcome op (lifecycle_of user s))
            (ended fresh.now outcome op)
            s)
  unfolding put_end released ended
  put_end-IsGated user id outcome op found owner names =
      let v = released reader fresh.now outcome op (lifecycle_of user s) in
      let op' = ended fresh.now outcome op in
      let t = put_end fresh user id v op' s in
      let (own_id, solid) = g.named id op found in
      write-IsGated s t id user "" op' g (record {
        operations = refl;
        gates = λ u. gate-insert user u v s t refl;
        own_id = own_id;
        solid = solid;
        new_taken = λ active. absurd (ground (arith, ended_closed fresh.now outcome op));
        new_held = λ names'. cc (ap is_empty names');
        old_owner = λ o found' _. ground (arith, eqs_iff op.target_id user);
        still = λ apart _.
            absurd (ground (arith, eqs_iff (gate user s) op.id, eqs_iff (gate user s) id));
        no_other = λ _ full. cc;
      })

  unreconciled-IsGated :
      (id provider_id response : String) (op : FinanceOperation)
      → lookup id s.ledger.operations ≡ some op
      → is_open op ≡ true
      → IsGated (record s {
        ledger = record s.ledger {
          operations = insert id (unreconciled fresh provider_id response op) s.ledger.operations;
        };
      })
  unreconciled-IsGated id provider_id response op found active =
      let op' = unreconciled fresh provider_id response op in
      let t : Accounts = record s {
        ledger = record s.ledger { operations = insert id op' s.ledger.operations };
      } in
      let (own_id, solid) = g.named id op found in
      write-IsGated s t id op.target_id (gate op.target_id s) op' g (record {
        operations = refl;
        gates = λ u. ground (arith, eqs_iff u op.target_id);
        own_id = own_id;
        solid = solid;
        new_taken = λ active'. (refl, g.taken id op found (ground arith));
        new_held = λ names.
            let (o, found', active', _) =
              subst (Holds s op.target_id) names
                (g.held op.target_id (subst (λ j. is_empty j ≡ false) (sym names) solid)) in
            (ground arith, refl);
        old_owner = λ o found' _. ground arith;
        still = λ _ _. refl;
        no_other = λ _ _. refl;
      })

  put_review-IsGated :
      (op : FinanceOperation)
      → IsUnused fresh s
      → valid_review op ≡ true
      → is_empty (gate op.target_id s) ≡ true
      → IsGated (put_review fresh (lifecycle_of op.target_id s) (review_operation fresh op) s)
  unfolding put_review review_operation valid_review
  put_review-IsGated op unused valid idle =
      let made = review_operation fresh op in
      let t = put_review fresh (lifecycle_of op.target_id s) made s in
      write-IsGated s t fresh.id op.target_id (gate op.target_id s) made g (record {
        operations = refl;
        gates = λ u. gate-insert op.target_id u _ s t refl;
        own_id = refl;
        solid = unused.0;
        new_taken = λ active. absurd (ground (arith, review-no_action op valid));
        new_held = λ names. cc (ap is_empty names);
        old_owner = λ o found _. cc;
        still = λ _ _. refl;
        no_other = λ _ _. refl;
      })

reserve_subscription_action-IsGated :
    (reader : Reader) (fresh : Fresh) (user key action request : String) (s : Accounts)
    → IsUnused fresh s
    → IsGated s
    → IsGated (after s (reserve_subscription_action reader fresh user key action request s))
reserve_subscription_action-IsGated reader fresh user key action request s unused g =
    after-rule IsGated s _ g λ o t h.
      elim (reserve_subscription_action-writes reader fresh user key action request s t o h) [
        | inl e ↦ subst IsGated (sym e) g
        | inr (_, _, _, _, checked, _, e) ↦ subst IsGated (sym e) (
            put_action-IsGated reader fresh s g user key action request unused
              (check_subscription_action-idle reader user _ fresh.now s checked))
      ]

finish_subscription_action-IsGated :
    (reader : Reader) (fresh : Fresh) (user id : String) (outcome : Outcome) (s t : Accounts)
    → IsGated s
    → finish_subscription_action reader fresh user id outcome s ≡ ok (tt, t)
    → IsGated t
finish_subscription_action-IsGated reader fresh user id outcome s t g h =
    elim (finish_subscription_action-writes reader fresh user id outcome s t h) [
      | inl e ↦ subst IsGated (sym e) g
      | inr (op, found, owner, _, _, names, e) ↦
          subst IsGated (sym e)
            (put_end-IsGated reader fresh s g user id outcome op found owner names)
    ]

pub complete_purchase-finishes :
    (reader : Reader) (fresh : Fresh) (id provider_id response : String) (s t : Accounts)
    → complete_purchase reader fresh id provider_id response s ≡ ok (tt, t)
    → (user : String) × (finish_subscription_action reader fresh user id
          (receipt_outcome reader provider_id response)
          s
        ≡ ok (tt, t))
unfolding complete_purchase
complete_purchase-finishes reader fresh id provider_id response s t h =
    (target_of (lookup id s.ledger.operations), ground arith)

update_subscription_purchase-IsGated :
    (reader : Reader) (fresh : Fresh) (id provider_id response : String) (complete : Bool)
    (s t : Accounts)
    → IsGated s
    → update_subscription_purchase reader fresh id provider_id response complete s ≡ ok (tt, t)
    → IsGated t
unfolding update_subscription_purchase
update_subscription_purchase-IsGated reader fresh id provider_id response true s t g h =
    let (user, finished) = complete_purchase-finishes reader fresh id provider_id response s t h in
    finish_subscription_action-IsGated reader fresh user id _ s t g finished
update_subscription_purchase-IsGated reader fresh id provider_id response false s t g h =
    elim (suspend_purchase-writes fresh id provider_id response s t h) [
      | inl e ↦ subst IsGated (sym e) g
      | inr (op, found, _, active, e) ↦
          subst IsGated (sym e)
            (unreconciled-IsGated reader fresh s g id provider_id response op found active)
    ]

create_subscription_refund_review-IsGated :
    (reader : Reader) (fresh : Fresh) (op o : FinanceOperation) (expected : ℕ) (s t : Accounts)
    → IsUnused fresh s
    → IsGated s
    → create_subscription_refund_review fresh op expected s ≡ ok (o, t)
    → IsGated t
create_subscription_refund_review-IsGated reader fresh op o expected s t unused g h =
    let (valid, wrote) = create_subscription_refund_review-writes fresh op o expected s t h in
    elim wrote [
      | inl e ↦ subst IsGated (sym e) g
      | inr (_, idle, _, _, e) ↦
          subst IsGated (sym e) (put_review-IsGated reader fresh s g op unused valid idle)
    ]

pub step-IsGated :
    (reader : Reader) (c : Call) (fresh : Fresh) (s : Accounts)
    → IsUnused fresh s
    → IsGated s
    → IsGated (step reader c fresh s)
unfolding step reserve_subscription_purchase
step-IsGated reader (reserves user key action request) fresh s unused g =
    reserve_subscription_action-IsGated reader fresh user key action request s unused g
step-IsGated reader (purchases key_id user request) fresh s unused g =
    reserve_subscription_action-IsGated reader fresh user _ "purchase" request s unused g
step-IsGated reader (finishes user id outcome) fresh s unused g =
    after-rule IsGated s _ g
      λ _ t h. finish_subscription_action-IsGated reader fresh user id outcome s t g h
step-IsGated reader (updates id provider_id response complete) fresh s unused g =
    after-rule IsGated s _ g λ _ t h.
      update_subscription_purchase-IsGated reader fresh id provider_id response complete s t g h
step-IsGated reader (reviews op expected) fresh s unused g =
    after-rule IsGated s _ g
      λ o t h. create_subscription_refund_review-IsGated reader fresh op o expected s t unused g h

-- An open action is found in one ledger exactly if it is found in the other.
action_of-open :
    (before after : Option FinanceOperation) (o : FinanceOperation)
    → action_of before ≡ action_of after
    → after ≡ some o
    → is_action o ≡ true
    → before ≡ some o
action_of-open before after o e found active = ground arith

leaves-IsGated :
    (s : Accounts) (t : Store)
    → LeavesActions s.ledger t
    → IsGated s
    → IsGated (record s { ledger = t })
leaves-IsGated s t l g = record {
  named = l.named;
  taken = λ i o found active.
      g.taken i o
        (action_of-open (lookup i s.ledger.operations) _ o (l.kept i) found (ground arith)) active;
  held = λ user full.
      let (o, found, active, owner) = g.held user full in
      (
        o,
        action_of-open _ (lookup (gate user s) s.ledger.operations) o (sym (l.kept (gate user s)))
            found (ground arith),
        active,
        owner,
      );
}

pub Course-IsGated :
    (reader : Reader) {since : Time} {from s : Accounts}
    → IsGated from
    → Course reader since from s
    → IsGated s
Course-IsGated reader g here = g
Course-IsGated reader g (call {s} r c fresh unused later) =
    step-IsGated reader c fresh s unused (Course-IsGated reader g r)
Course-IsGated reader g (elsewhere {s} r t leaves) =
    leaves-IsGated s t leaves (Course-IsGated reader g r)

pub Reach-IsGated : (reader : Reader) {s : Accounts} → Reach reader s → IsGated s
Reach-IsGated reader r =
    Course-IsGated reader
      (record { named = λ i o found. cc; taken = λ i o found _. cc; held = λ user full. cc }) r

-- An account has at most one action under way: in every state that calls lead to, whatever the rest of the
-- program does to other operations of the ledger, two actions (operations of a subscription_ type on an account) of one
-- account that have neither succeeded nor failed are the same operation, and the account's lifecycle names it.
pub Reach-single_action :
    (reader : Reader) (id id' : String) (op op' : FinanceOperation) {s : Accounts}
    → Reach reader s
    → lookup id s.ledger.operations ≡ some op
    → lookup id' s.ledger.operations ≡ some op'
    → is_open_action op ≡ true
    → is_open_action op' ≡ true
    → op.target_id ≡ op'.target_id
    → (id ≡ id') × (op ≡ op') × (gate op.target_id s ≡ id)
Reach-single_action reader id id' op op' {s} r found found' active active' same =
    let g = Reach-IsGated reader r in
    let at = g.taken id op found active in
    let at' : gate op.target_id s ≡ id' = rw same (g.taken id' op' found' active') in
    (sym at ∙ at', ground arith, at)
