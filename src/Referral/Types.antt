-- ===== src/Referral/Types.antt =====
-- internal/store/store.go, referral_campaign.go and referral_invoice_verification.go: the records of
-- the referral programme, and the maps of `memoryStore` that hold them.
use accounts.Base.{ℕ, String, Bool, Option, List}
use accounts.Base.Dict.{Dict}
use accounts.Base.Time.{Time}

-- The errors; the last one stands for the panic of a nil pointer that is read, or of an empty slice.
pub data ReferralError : Type 0 where
  user_not_found : ReferralError
  referral_not_found : ReferralError
  referral_self : ReferralError
  referral_already_attributed : ReferralError
  referral_settlement_unavailable : ReferralError
  referral_settlement_risk : ReferralError
  referral_campaign_invalid : ReferralError
  referral_risk_incomplete : ReferralError
  finance_idempotency_conflict : ReferralError
  nil_pointer : ReferralError

pub record ReferralCode : Type 0 where
  pub user_uuid : String
  pub code : String
  pub created_at : Time

pub record ReferralAttribution : Type 0 where
  pub id : String
  pub referrer_uuid : String
  pub invitee_uuid : String
  pub code : String
  pub created_at : Time

pub record ReferralReward : Type 0 where
  pub id : String
  pub referral_id : String
  pub provider_invoice_id : String
  pub referrer_uuid : String
  pub invitee_uuid : String
  pub plan_id : String
  pub product_slug : String
  pub paid_minor : ℕ
  pub reward_minor : ℕ
  pub currency : String
  pub paid_at : Time
  pub eligible_at : Time
  pub annual_days : ℕ
  pub status : String
  pub created_at : Time
  pub referral_created_at : Time
  pub invitee_email : String

pub record ReferralPaymentRisk : Type 0 where
  pub source_key : String
  pub provider_invoice_id : String
  pub type : String
  pub reason : String
  pub occurred_at : Time

pub record ReferralSettlement : Type 0 where
  pub id : String
  pub referrer_uuid : String
  pub currency : String
  pub status : String
  pub amount_minor : ℕ
  pub payout_reference : String
  pub reason : String
  pub requested_at : Time
  pub completed_at : Option Time

pub record SubscriptionExtension : Type 0 where
  pub id : String
  pub reward_id : String
  pub referral_id : String
  pub user_uuid : String
  pub subscription_uuid : String
  pub days : ℕ
  pub effective_from : Time
  pub effective_until : Time
  pub status : String
  pub created_at : Time

pub record ReferralCampaign : Type 0 where
  pub revision : ℕ
  pub enabled : Bool
  pub starts_at : Option Time
  pub ends_at : Option Time
  pub effective_at : Time
  pub actor_uuid : String
  pub reason : String

pub record ReferralInvoiceVerification : Type 0 where
  pub invoice_id : String
  pub provider_price_id : String
  pub plan_id : String
  pub product_slug : String

-- Of the users the email is kept, by id.
pub record Referrals : Type 0 where
  pub by_id : Dict String
  pub invoice_proofs : Dict ReferralInvoiceVerification
  pub campaigns : List ReferralCampaign
  pub reward_campaigns : Dict ReferralCampaign
  pub codes : Dict ReferralCode
  pub codes_by_value : Dict String
  pub by_invitee : Dict ReferralAttribution
  pub rewards : Dict ReferralReward
  pub reward_by_invoice : Dict String
  pub risks : Dict ReferralPaymentRisk
  pub settlements : Dict ReferralSettlement
  pub extensions : Dict SubscriptionExtension
