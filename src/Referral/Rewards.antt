-- ===== src/Referral/Rewards.antt =====
-- internal/store/referral_memory.go and referral_plan.go: rewards, their risks and reversals.
use accounts.Base.{
  ℕ, ◌+◌, ◌%◌, ◌/◌, String, Bool, true, false, ◌&&◌, ◌||◌, not, Option, none, some, List, any, map,
  keep, ltb, sort_by, get_or, if◌then◌else◌, Result, ok, ◌>>=◌, ◌>>◌, fail_if, or_fail,
}
use accounts.Base.Word.{word, eq64, sle}
use accounts.Base.Text.{eqs, is_empty, trim}
use accounts.Base.Dict.{Dict, lookup, insert, values, map_values}
use accounts.Base.Time.{is_zero}
use accounts.Finance.Invoices.{at_most}
use accounts.Finance.Refunds.{text_at}
use accounts.Finance.Types.{Fresh}
use accounts.Referral.Campaigns.{referral_campaign_at}
use accounts.Referral.Types.{
  ReferralError, ReferralAttribution, ReferralReward, ReferralPaymentRisk, ReferralSettlement,
  ReferralCampaign, Referrals, referral_not_found, referral_risk_incomplete,
  finance_idempotency_conflict, nil_pointer,
}

unfoldable pub is_xconnect_referral_plan : (String → String) → String → Bool
is_xconnect_referral_plan to_upper plan =
    let p = to_upper (trim plan) in
    eqs p "PRO-MONTHLY" || eqs p "PRO-YEARLY" || eqs p "PRO-MONTHLY-V2" || eqs p "PRO-YEARLY-V2"

-- A tenth of a payment for a plan of the programme.
unfoldable pub valid_reward : (String → String) → ReferralReward → Bool
unfolding is_xconnect_referral_plan
valid_reward to_upper reward =
    not (is_empty reward.provider_invoice_id)
    && not (sle reward.paid_minor 0)
    && eq64 reward.reward_minor (reward.paid_minor % word / 10)
    && not (is_empty reward.currency)
    && eqs reward.product_slug "xconnect"
    && is_xconnect_referral_plan to_upper reward.plan_id

abbrev pub is_of_invitee : String → ReferralReward → Bool
is_of_invitee invitee reward = eqs reward.invitee_uuid invitee

abbrev pub is_on_invoice : String → ReferralPaymentRisk → Bool
is_on_invoice invoice risk = eqs risk.provider_invoice_id invoice

-- Seven days, in nanoseconds.
abbrev pub reward_hold : ℕ
reward_hold = 604800000000000

unfoldable pub reward_of : Fresh → ReferralAttribution → ReferralReward → ReferralReward
reward_of fresh referral reward =
    let paid_at = if is_zero reward.paid_at then fresh.now else reward.paid_at in
    record reward {
      id = fresh.id;
      referrer_uuid = referral.referrer_uuid;
      referral_id = referral.id;
      referral_created_at = referral.created_at;
      paid_at = paid_at;
      eligible_at = paid_at + reward_hold;
      status = if is_empty reward.status then "pending" else reward.status;
      created_at = fresh.now;
    }

unfoldable pub put_reward : ReferralCampaign → ReferralReward → Referrals → Referrals
put_reward campaign reward s = record s {
  reward_campaigns = insert reward.id campaign s.reward_campaigns;
  rewards = insert reward.id reward s.rewards;
  reward_by_invoice = insert reward.provider_invoice_id reward.id s.reward_by_invoice;
}

-- The reward of an attributed invitee, if it is the first and its payment is not at risk.
unfoldable pub new_reward :
    Fresh → ReferralReward → Referrals → Result ReferralError (Bool × ReferralReward × Referrals)
new_reward fresh reward s = do
  referral ← or_fail (lookup reward.invitee_uuid s.by_invitee) referral_not_found
  fail_if
      (not (is_empty reward.referrer_uuid) && not (eqs referral.referrer_uuid reward.referrer_uuid))
      referral_not_found
  let attributed : ReferralReward = record reward { referrer_uuid = referral.referrer_uuid }
  let made = reward_of fresh referral reward
  let refused =
      any (is_of_invitee reward.invitee_uuid) (values s.rewards)
      || any (is_on_invoice reward.provider_invoice_id) (values s.risks)
  let created : Result ReferralError (Bool × ReferralReward × Referrals) = do
    campaign ← or_fail (referral_campaign_at made.paid_at s) referral_not_found
    ok (true, made, put_reward campaign made s)
  (if refused then ok (false, attributed, s) else created)

unfoldable pub create_referral_reward :
    (String → String)
    → Fresh
    → ReferralReward
    → Referrals
    → Result ReferralError (Bool × ReferralReward × Referrals)
create_referral_reward to_upper fresh reward s = do
  fail_if (not (valid_reward to_upper reward)) referral_not_found
  let prior = text_at reward.provider_invoice_id s.reward_by_invoice
  let made = new_reward fresh reward s
  (if not (is_empty prior) then ok (false, record reward { id = prior }, s) else made)

abbrev pub reversed : ReferralReward → ReferralReward
reversed reward = record reward { status = "reversed" }

abbrev pub is_reversed : ReferralReward → Bool
is_reversed reward = eqs reward.status "reversed"

-- A settlement that waits and takes from the reward.
abbrev pub is_held_by : ReferralReward → ReferralSettlement → Bool
is_held_by reward settlement =
    eqs settlement.status "pending_review"
    && eqs reward.referrer_uuid settlement.referrer_uuid
    && eqs reward.currency settlement.currency

-- The inner loop over the rewards looks for the one with the id.
abbrev pub matches_held : String → ReferralSettlement → ReferralReward → Bool
matches_held id settlement reward = eqs reward.id id && is_held_by reward settlement

unfoldable pub hold_settlement :
    String → String → Dict ReferralReward → ReferralSettlement → ReferralSettlement
hold_settlement type id rewards settlement =
    if any (matches_held id settlement) (values rewards)
    then record settlement { reason = Prim.Native.String.◌++◌ "payment risk hold: " type }
    else settlement

-- The reward of an invoice at risk is reversed.
unfoldable pub reverse_at_risk : String → String → Referrals → Result ReferralError Referrals
unfolding hold_settlement
reverse_at_risk type id s = if is_empty id then ok s else do
  reward ← or_fail (lookup id s.rewards) nil_pointer
  let rewards = insert id (reversed reward) s.rewards
  ok (record s {
    rewards = rewards;
    settlements = map_values (hold_settlement type id rewards) s.settlements;
  })

abbrev pub is_other_risk : Option ReferralPaymentRisk → ReferralPaymentRisk → Bool
is_other_risk none risk = false
is_other_risk (some old) risk = not (eqs old.provider_invoice_id risk.provider_invoice_id)

unfoldable pub record_referral_risk :
    ReferralPaymentRisk → Referrals → Result ReferralError (Unit {0} × Referrals)
unfolding reverse_at_risk
record_referral_risk risk s = do
  fail_if (is_empty (trim risk.source_key) || is_empty (trim risk.provider_invoice_id))
      referral_risk_incomplete
  fail_if (is_other_risk (lookup risk.source_key s.risks) risk) finance_idempotency_conflict
  let t : Referrals = record s { risks = insert risk.source_key risk s.risks }
  u ← reverse_at_risk risk.type (text_at risk.provider_invoice_id s.reward_by_invoice) t
  ok (tt, u)

-- A reversal by hand; the source key is looked up among the invoices.
unfoldable pub reverse_referral_reward :
    String → String → Referrals → Result ReferralError (Unit {0} × Referrals)
reverse_referral_reward raw source_key s =
    if not (is_empty (text_at (Prim.Native.String.◌++◌ "source:" source_key) s.reward_by_invoice))
    then ok (tt, s)
    else do
      reward ← or_fail (lookup (trim raw) s.rewards) referral_not_found
      ok (
        tt,
        (if is_reversed reward
            then s
            else record s { rewards = insert (trim raw) (reversed reward) s.rewards }),
      )

abbrev newer_reward : ReferralReward → ReferralReward → Bool
newer_reward a b = ltb b.created_at a.created_at

unfoldable pub list_referral_rewards : String → ℕ → Referrals → List ReferralReward
list_referral_rewards referrer limit s = at_most limit (
    sort_by newer_reward (
      map
        (λ (r : ReferralReward). record r {
          invitee_email = get_or (lookup r.invitee_uuid s.by_id) r.invitee_email;
        })
        (keep (λ (r : ReferralReward). eqs r.referrer_uuid referrer) (values s.rewards))))
