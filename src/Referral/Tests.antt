-- ===== src/Referral/Tests.antt =====
-- Runs of the referral programme on concrete calls: an invitee pays 1000, the referrer is paid out 100.
mod Theorems
use accounts.Base.{
  ℕ, ◌≡◌, refl, String, Bool, true, false, Option, some, none, [], ◌∷◌, if◌then◌else◌, ok, err,
}
use accounts.Base.Text.{eqs, trim}
use accounts.Finance.Types.{Fresh}
use accounts.Referral.Campaigns.{
  default_referral_campaign, referral_campaign_at, configure_referral_campaign,
  validate_referral_campaign,
}
use accounts.Referral.Codes.{
  attribution_of, ensure_referral_code, new_code, put_code, create_referral_attribution,
}
use accounts.Referral.Machine.{
  no_referrals, Reach, start, next, elsewhere, step, ensures, attributes, creates_reward,
  records_risk, requests, completes,
}
use accounts.Referral.Rewards.{
  reward_of, valid_reward, is_xconnect_referral_plan, new_reward, put_reward,
  create_referral_reward, record_referral_risk, reverse_at_risk, hold_settlement, reversed,
}
use accounts.Referral.Settlements.{
  payable, settlement_amount, settlement_of, request_referral_settlement, pay_out,
  complete_referral_settlement, paid_as,
}
use accounts.Referral.Types.{
  ReferralCode, ReferralAttribution, ReferralReward, ReferralPaymentRisk, ReferralSettlement,
  Referrals,
}

-- Texts in one case.
abbrev pub upper : String → String
upper s = s

abbrev pub at : String → Fresh
at id = record { id = id; event_id = ""; now = 64000000000000000000 }

abbrev pub users : Referrals
users = record no_referrals { by_id = ("ann", "a@x") ∷ ("bob", "b@x") ∷ [] }

abbrev pub code : ReferralCode
code = record { user_uuid = "ann"; code = "ANN1"; created_at = 64000000000000000000 }

abbrev pub coded : Referrals
coded = record users { codes = ("ann", code) ∷ []; codes_by_value = ("ANN1", "ann") ∷ [] }

abbrev pub attribution : ReferralAttribution
attribution = attribution_of (at "at1") "ANN1" "ann" "bob" 0

abbrev pub attributed : Referrals
attributed = record coded { by_invitee = ("bob", attribution) ∷ [] }

abbrev raw_reward : ReferralReward
raw_reward = record {
  id = "";
  referral_id = "";
  provider_invoice_id = "in_1";
  referrer_uuid = "";
  invitee_uuid = "bob";
  plan_id = "PRO-MONTHLY";
  product_slug = "xconnect";
  paid_minor = 1000;
  reward_minor = 100;
  currency = "USD";
  paid_at = 63930000000000000000;
  eligible_at = 0;
  annual_days = 0;
  status = "";
  created_at = 0;
  referral_created_at = 0;
  invitee_email = "";
}

abbrev pub reward : ReferralReward
reward = record raw_reward {
  id = "rw1";
  referral_id = "at1";
  referrer_uuid = "ann";
  eligible_at = 63930604800000000000;
  status = "pending";
  created_at = 64000000000000000000;
  referral_created_at = 64000000000000000000;
}

abbrev pub rewarded : Referrals
rewarded = record attributed {
  reward_campaigns = ("rw1", default_referral_campaign) ∷ [];
  rewards = ("rw1", reward) ∷ [];
  reward_by_invoice = ("in_1", "rw1") ∷ [];
}

pub reach1 : Reach upper users
reach1 = elsewhere start users.by_id refl

pub ensures_code :
    ensure_referral_code upper 64000000000000000000 "ann" "ANN1" users ≡ ok (code, coded)
unfolding ensure_referral_code new_code put_code trim
ensures_code = refl

reach2 : Reach upper coded
unfolding step ensure_referral_code trim
reach2 = next reach1 (ensures "ann" "ANN1") (at "c1") (refl, refl, refl)

reach3 : Reach upper attributed
unfolding step create_referral_attribution trim
reach3 = next reach2 (attributes "ANN1" "bob" 0) (at "at1") (refl, refl, refl)

pub reach4 : Reach upper rewarded
unfolding step create_referral_reward new_reward reward_of put_reward valid_reward
    referral_campaign_at trim
reach4 = next reach3 (creates_reward raw_reward) (at "rw1") (refl, refl, refl)

-- The reward can be asked for, and is the amount of the settlement.
amount : settlement_amount "ann" "USD" 64000000000000000000 rewarded ≡ 100
unfolding settlement_amount
amount = refl

abbrev pub settlement : ReferralSettlement
settlement = settlement_of (at "se1") "ann" "USD" 100 64000000000000000000

abbrev pub settled : Referrals
settled = record rewarded { settlements = ("se1", settlement) ∷ [] }

abbrev pub risk : ReferralPaymentRisk
risk = record {
  source_key = "evt_1";
  provider_invoice_id = "in_1";
  type = "dispute";
  reason = "";
  occurred_at = 0;
}

abbrev pub risky : Referrals
risky = record rewarded { risks = ("evt_1", risk) ∷ []; rewards = ("rw1", reversed reward) ∷ [] }

pub reach5 : Reach upper risky
unfolding step record_referral_risk trim
reach5 = next reach4 (records_risk risk) (at "x1") (refl, refl, refl)
