-- ===== src/Referral/Spent.antt =====
-- internal/store/referral_memory.go: `RequestReferralSettlement` beside another settlement.
use accounts.Base.{◌≡◌, refl, String, true, In-any, arith, some, [], ◌∷◌, err}
use accounts.Base.Text.{eqs_refl, trim}
use accounts.Base.Dict.{Dict, lookup, values, In-values}
use accounts.Base.Time.{Time}
use accounts.Finance.Refunds.{total64}
use accounts.Finance.Types.{Fresh}
use accounts.Referral.Settlements.{
  is_live, is_reserved_by, is_reserved, payable, settlement_amount, request_referral_settlement,
}
use accounts.Referral.Types.{
  ReferralReward, ReferralSettlement, Referrals, referral_settlement_unavailable,
}

payable-reserved :
    (referrer currency : String) (now : Time) (s : Referrals) (rewards : Dict ReferralReward)
    → is_reserved referrer currency s ≡ true
    → total64 (payable referrer currency now s) rewards ≡ 0
unfolding payable
payable-reserved referrer currency now s [] taken = refl
payable-reserved referrer currency now s ((k, r) ∷ rs) taken =
    ground (arith, payable-reserved referrer currency now s rs taken)

-- One settlement takes all: a referrer who has a settlement in a currency that waits or is paid gets no other one in that
-- currency, whatever rewards have come since.
pub request_referral_settlement-spent :
    (upper : String → String) (fresh : Fresh) (k raw : String) (now : Time) (v : ReferralSettlement)
    (s : Referrals)
    → lookup k s.settlements ≡ some v
    → is_live v ≡ true
    → upper (trim raw) ≡ v.currency
    → request_referral_settlement upper fresh v.referrer_uuid raw now s
      ≡ err referral_settlement_unavailable
unfolding request_referral_settlement settlement_amount
request_referral_settlement-spent upper fresh k raw now v s found live same =
    let taken : is_reserved v.referrer_uuid v.currency s ≡ true =
      In-any (is_reserved_by v.referrer_uuid v.currency) v (values s.settlements)
        (In-values k v s.settlements found)
        (rw (eqs_refl v.referrer_uuid, eqs_refl v.currency) live) in
    rw (same, payable-reserved v.referrer_uuid v.currency now s s.rewards taken) refl
