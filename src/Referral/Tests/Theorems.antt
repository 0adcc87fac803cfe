-- ===== src/Referral/Tests/Theorems.antt =====
-- The theorems of the programme at the concrete states.
use accounts.Base.{◌≡◌, ◌≤◌, ◌%◌, ◌/◌, refl, String, true, false, some, [], ◌∷◌, ok, err}
use accounts.Base.Word.{word, eq64, sle}
use accounts.Base.Text.{eqs, trim, trim_idem}
use accounts.Base.Dict.{lookup}
use accounts.Referral.Campaigns.{
  default_referral_campaign, referral_campaign_at, configure_referral_campaign, next_campaign,
}
use accounts.Referral.Codes.{get_referral_code}
use accounts.Referral.Coded.{ensure_referral_code-read}
use accounts.Referral.History.{configure_referral_campaign-history}
use accounts.Referral.Machine.{step, completes}
use accounts.Referral.Paid.{Moves, step-settlement}
use accounts.Referral.Reachable.{Reach-rewarded_once, Reach-at_risk}
use accounts.Referral.Rewards.{is_reversed, reversed}
use accounts.Referral.Settlements.{payable, request_referral_settlement}
use accounts.Referral.Spent.{request_referral_settlement-spent}
use accounts.Referral.Tests.{
  upper, at, users, code, coded, reward, rewarded, settlement, settled, risk, risky, reach1,
  ensures_code, reach4, reach5,
}
use accounts.Referral.Types.{
  ReferralAttribution, ReferralCampaign, ReferralSettlement, referral_settlement_unavailable,
}

Reach-rewarded_once_example :
    (◌≡◌ {A = String} "rw1" "rw1")
    × (eq64 100 (1000 % word / 10) ≡ true)
    × (sle 1000 0 ≡ false)
    × ((a : ReferralAttribution) × (lookup "bob" rewarded.by_invitee ≡ some a)
        × (a.referrer_uuid ≡ "ann"))
    × (eqs "ann" "bob" ≡ false)
Reach-rewarded_once_example =
    Reach-rewarded_once upper "rw1" "rw1" reward reward reach4 refl refl refl

Reach-at_risk_example :
    (is_reversed (reversed reward) ≡ true)
    × (payable "ann" "USD" 64000000000000000000 risky (reversed reward) ≡ 0)
Reach-at_risk_example =
    Reach-at_risk upper "rw1" "evt_1" "ann" "USD" 64000000000000000000 (reversed reward) risk reach5
      refl refl refl

step-settlement_example :
    (w : ReferralSettlement) × (lookup "se1"
        (step upper (completes "se1" "wire 7" 64000000000000000001) (at "x1") settled).settlements
      ≡ some w)
    × Moves settlement w
step-settlement_example =
    step-settlement upper (completes "se1" "wire 7" 64000000000000000001) (at "x1") "se1" settlement
      settled (refl, refl, refl) refl

ensure_referral_code-read_example :
    (◌≡◌ {A = String} "ann" "ann")
    × (get_referral_code upper "ANN1" coded ≡ ok code)
    × (get_referral_code upper " ANN1" coded ≡ ok code)
unfolding trim
ensure_referral_code-read_example =
    ensure_referral_code-read upper (at "c1") "ann" "ANN1" " ANN1" code coded (λ x. trim_idem x)
      reach1 ensures_code refl

abbrev input : ReferralCampaign
input = record default_referral_campaign { enabled = false; reason = "pause" }

abbrev paused : ReferralCampaign
paused = next_campaign 64000000000000000000 default_referral_campaign 1 input

configures :
    configure_referral_campaign 64000000000000000000 input users
    ≡ ok (paused, record users { campaigns = default_referral_campaign ∷ paused ∷ [] })
unfolding configure_referral_campaign trim
configures = refl

configure_referral_campaign-history_example :
    (referral_campaign_at 63999999999999999999
        (record users { campaigns = default_referral_campaign ∷ paused ∷ [] })
      ≡ referral_campaign_at 63999999999999999999 users)
    × (64000000000000000000 ≤ 64000000000000000000)
configure_referral_campaign-history_example =
    configure_referral_campaign-history upper 64000000000000000000 63999999999999999999 input paused
      (record users { campaigns = default_referral_campaign ∷ paused ∷ [] }) reach1 configures

request_referral_settlement-spent_example :
    request_referral_settlement upper (at "se2") "ann" "USD" 64000000000000000001 settled
    ≡ err referral_settlement_unavailable
unfolding trim
request_referral_settlement-spent_example =
    request_referral_settlement-spent upper (at "se2") "se1" "USD" 64000000000000000001 settlement
      settled refl refl refl
