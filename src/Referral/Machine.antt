-- ===== src/Referral/Machine.antt =====
-- internal/store: the referral programme as a state machine. A call is one operation that writes.
use accounts.Base.{◌≡◌, String, Bool, false, none, [], ◌∷◌, after, Result, ok, err}
use accounts.Base.Text.{is_empty}
use accounts.Base.Dict.{Dict, lookup}
use accounts.Base.Time.{Time}
use accounts.Finance.Types.{Fresh, Store}
use accounts.Referral.Campaigns.{default_referral_campaign, configure_referral_campaign}
use accounts.Referral.Codes.{ensure_referral_code, create_referral_attribution}
use accounts.Referral.Extensions.{verify_referral_invoice}
use accounts.Referral.Rewards.{
  create_referral_reward, record_referral_risk, reverse_referral_reward,
}
use accounts.Referral.Settlements.{
  request_referral_settlement, complete_referral_settlement, reconcile_referral_settlement,
  reject_referral_settlement,
}
use accounts.Referral.Types.{
  ReferralError, ReferralReward, ReferralPaymentRisk, ReferralCampaign, ReferralInvoiceVerification,
  Referrals,
}

-- `newMemoryStore`: the programme starts with the default campaign.
abbrev pub no_referrals : Referrals
no_referrals = record {
  by_id = [];
  invoice_proofs = [];
  campaigns = default_referral_campaign ∷ [];
  reward_campaigns = [];
  codes = [];
  codes_by_value = [];
  by_invitee = [];
  rewards = [];
  reward_by_invoice = [];
  risks = [];
  settlements = [];
  extensions = [];
}

pub data Call : Type 0 where
  ensures : String → String → Call
  attributes : String → String → Time → Call
  creates_reward : ReferralReward → Call
  records_risk : ReferralPaymentRisk → Call
  reverses : String → String → Call
  requests : String → String → Time → Call
  completes : String → String → Time → Call
  reconciles : String → String → String → Time → Call
  rejects : String → String → Time → Call
  configures : ReferralCampaign → Call
  verifies : ReferralInvoiceVerification → Store → Call

-- The state that the creation of a reward leaves.
abbrev pub after_reward :
    Referrals → Result ReferralError (Bool × ReferralReward × Referrals) → Referrals
after_reward s (ok (created, reward, t)) = t
after_reward s (err e) = s

unfoldable pub step : (String → String) → Call → Fresh → Referrals → Referrals
step upper (ensures user candidate) fresh s =
    after s (ensure_referral_code upper fresh.now user candidate s)
step upper (attributes code invitee created_at) fresh s =
    after s (create_referral_attribution upper fresh code invitee created_at s)
step upper (creates_reward reward) fresh s =
    after_reward s (create_referral_reward upper fresh reward s)
step upper (records_risk risk) fresh s = after s (record_referral_risk risk s)
step upper (reverses id source_key) fresh s = after s (reverse_referral_reward id source_key s)
step upper (requests referrer currency now) fresh s =
    after s (request_referral_settlement upper fresh referrer currency now s)
step upper (completes id reference now) fresh s =
    after s (complete_referral_settlement id reference now s)
step upper (reconciles id reference reason now) fresh s =
    after s (reconcile_referral_settlement id reference reason now s)
step upper (rejects id reason now) fresh s = after s (reject_referral_settlement id reason now s)
step upper (configures campaign) fresh s =
    after s (configure_referral_campaign fresh.now campaign s)
step upper (verifies v ledger) fresh s = after s (verify_referral_invoice upper v ledger s)

-- `uuid.NewString()` is the id of no reward and of no settlement.
abbrev pub IsUnused : Fresh → Referrals → Type 0
IsUnused fresh s =
    (is_empty fresh.id ≡ false)
    × (lookup fresh.id s.rewards ≡ none)
    × (lookup fresh.id s.settlements ≡ none)

-- The states that calls lead to; the users, whose ids are not empty, are written elsewhere at any time.
pub data Reach (upper : String → String) : Referrals → Type 0 where
  start : Reach upper no_referrals
  next :
      {s : Referrals}
      → Reach upper s
      → (c : Call) (fresh : Fresh) → IsUnused fresh s
      → Reach upper (step upper c fresh s)
  elsewhere :
      {s : Referrals}
      → Reach upper s
      → (by_id : Dict String) → lookup "" by_id ≡ none
      → Reach upper (record s { by_id = by_id })
