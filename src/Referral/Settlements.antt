-- ===== src/Referral/Settlements.antt =====
-- internal/store/referral_memory.go: settlements of rewards.
use accounts.Base.{
  ℕ, String, Bool, ◌&&◌, ◌||◌, not, none, some, List, any, keep, ltb, sort_by, if◌then◌else◌,
  Result, ok, ◌>>=◌, ◌>>◌, fail_if, or_fail,
}
use accounts.Base.Word.{sle}
use accounts.Base.Text.{eqs, is_empty, trim}
use accounts.Base.Dict.{lookup, contains, insert, values}
use accounts.Base.Time.{Time}
use accounts.Finance.Invoices.{at_most}
use accounts.Finance.Refunds.{total64}
use accounts.Finance.Types.{Fresh}
use accounts.Referral.Rewards.{is_reversed}
use accounts.Referral.Types.{
  ReferralError, ReferralReward, ReferralSettlement, Referrals, referral_settlement_unavailable,
  referral_settlement_risk,
}

abbrev pub is_live : ReferralSettlement → Bool
is_live settlement = eqs settlement.status "pending_review" || eqs settlement.status "paid"

-- `reserved`: another settlement of the referrer takes the rewards of the currency.
abbrev pub is_reserved_by : String → String → ReferralSettlement → Bool
is_reserved_by referrer currency settlement =
    eqs settlement.referrer_uuid referrer && eqs settlement.currency currency && is_live settlement

abbrev pub is_reserved : String → String → Referrals → Bool
is_reserved referrer currency s = any (is_reserved_by referrer currency) (values s.settlements)

-- The reward can be paid out: the risks are looked up by the invoice.
abbrev pub is_payable : String → String → Time → Referrals → ReferralReward → Bool
is_payable referrer currency now s reward =
    eqs reward.referrer_uuid referrer
    && eqs reward.currency currency
    && not (is_reversed reward)
    && not (ltb now reward.eligible_at)
    && not (contains reward.provider_invoice_id s.risks)

unfoldable pub payable : String → String → Time → Referrals → ReferralReward → ℕ
payable referrer currency now s reward =
    if is_payable referrer currency now s reward && not (is_reserved referrer currency s)
    then reward.reward_minor
    else 0

unfoldable pub settlement_amount : String → String → Time → Referrals → ℕ
unfolding payable
settlement_amount referrer currency now s = total64 (payable referrer currency now s) s.rewards

abbrev pub settlement_of : Fresh → String → String → ℕ → Time → ReferralSettlement
settlement_of fresh referrer currency amount now = record {
  id = fresh.id;
  referrer_uuid = referrer;
  currency = currency;
  status = "pending_review";
  amount_minor = amount;
  payout_reference = "";
  reason = "";
  requested_at = now;
  completed_at = none;
}

abbrev pub put_settlement : String → ReferralSettlement → Referrals → Referrals
put_settlement id settlement s = record s { settlements = insert id settlement s.settlements }

unfoldable pub request_referral_settlement :
    (String → String)
    → Fresh
    → String
    → String
    → Time
    → Referrals
    → Result ReferralError (ReferralSettlement × Referrals)
request_referral_settlement to_upper fresh referrer raw now s = do
  let currency = to_upper (trim raw)
  let amount = settlement_amount referrer currency now s
  fail_if (sle amount 0) referral_settlement_unavailable
  let item = settlement_of fresh referrer currency amount now
  ok (item, put_settlement item.id item s)

abbrev pub is_paid_as : String → ReferralSettlement → Bool
is_paid_as reference item = eqs item.status "paid" && eqs item.payout_reference reference

-- A reversed reward of the settlement's referrer and currency.
abbrev pub is_risk_to : ReferralSettlement → ReferralReward → Bool
is_risk_to item reward =
    eqs reward.referrer_uuid item.referrer_uuid
    && eqs reward.currency item.currency
    && is_reversed reward

abbrev pub blocks_payout : Time → ReferralSettlement → ReferralReward → Bool
blocks_payout now item reward = not (ltb now reward.eligible_at) && is_risk_to item reward

abbrev pub paid_as : Time → String → String → ReferralSettlement → ReferralSettlement
paid_as now reference reason item = record item {
  status = "paid";
  payout_reference = reference;
  reason = reason;
  completed_at = some now;
}

unfoldable pub pay_out :
    Time
    → String
    → String
    → ReferralSettlement
    → Referrals
    → Result ReferralError (ReferralSettlement × Referrals)
pay_out now id reference item s = do
  fail_if (not (eqs item.status "pending_review")) referral_settlement_unavailable
  fail_if (any (blocks_payout now item) (values s.rewards)) referral_settlement_risk
  let made = paid_as now reference item.reason item
  ok (made, put_settlement id made s)

unfoldable pub complete_referral_settlement :
    String → String → Time → Referrals → Result ReferralError (ReferralSettlement × Referrals)
unfolding pay_out
complete_referral_settlement raw reference now s = do
  item ← or_fail (lookup (trim raw) s.settlements) referral_settlement_unavailable
  fail_if (is_empty (trim reference)) referral_settlement_unavailable
  let made = pay_out now (trim raw) (trim reference) item s
  (if is_paid_as (trim reference) item then ok (item, s) else made)

-- A payment that was made is recorded for a settlement that is held or was rejected.
unfoldable pub pay_anyway :
    Time
    → String
    → String
    → String
    → ReferralSettlement
    → Referrals
    → Result ReferralError (ReferralSettlement × Referrals)
pay_anyway now id reference reason item s = do
  fail_if (not (eqs item.status "pending_review") && not (eqs item.status "rejected"))
      referral_settlement_unavailable
  fail_if (eqs item.status "pending_review" && not (any (is_risk_to item) (values s.rewards)))
      referral_settlement_unavailable
  let told = trim (
      Prim.Native.String.◌++◌ item.reason
        (Prim.Native.String.◌++◌ "; reconciled actual payment: " reason))
  let made = paid_as now reference told item
  ok (made, put_settlement id made s)

unfoldable pub reconcile_referral_settlement :
    String
    → String
    → String
    → Time
    → Referrals
    → Result ReferralError (ReferralSettlement × Referrals)
unfolding pay_anyway
reconcile_referral_settlement raw reference reason now s = do
  item ← or_fail (lookup (trim raw) s.settlements) referral_settlement_unavailable
  fail_if (is_empty (trim reference) || is_empty (trim reason)) referral_settlement_unavailable
  let made = pay_anyway now (trim raw) (trim reference) reason item s
  (if is_paid_as (trim reference) item then ok (item, s) else made)

unfoldable pub reject_referral_settlement :
    String → String → Time → Referrals → Result ReferralError (ReferralSettlement × Referrals)
reject_referral_settlement raw reason now s = do
  item ← or_fail (lookup (trim raw) s.settlements) referral_settlement_unavailable
  fail_if
      (not (eqs item.status "pending_review")
        || not (is_empty item.payout_reference)
        || is_empty (trim reason))
      referral_settlement_unavailable
  let made : ReferralSettlement = record item {
    status = "rejected";
    reason = trim reason;
    completed_at = some now;
  }
  ok (made, put_settlement (trim raw) made s)

abbrev newer_settlement : ReferralSettlement → ReferralSettlement → Bool
newer_settlement a b = ltb b.requested_at a.requested_at

unfoldable pub list_referral_settlements : String → ℕ → Referrals → List ReferralSettlement
list_referral_settlements referrer limit s = at_most limit (
    sort_by newer_settlement
      (keep (λ (i : ReferralSettlement). eqs i.referrer_uuid referrer) (values s.settlements)))
