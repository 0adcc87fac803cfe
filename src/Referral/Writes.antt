-- ===== src/Referral/Writes.antt =====
-- internal/store/referral_memory.go: the writes of the operations that succeed.
use accounts.Base.{
  ◌≡◌, ◌++◌, [], ◌∷◌, String, Bool, true, false, ◌||◌, none, some, ◌⊎◌, arith, ok, any,
}
use accounts.Base.Text.{eqs, is_empty, trim}
use accounts.Base.Dict.{lookup, contains, insert, values, map_values}
use accounts.Base.Time.{Time}
use accounts.Finance.Refunds.{text_at}
use accounts.Finance.Types.{Fresh, Store}
use accounts.Referral.Campaigns.{
  referral_campaign_at, configure_referral_campaign, last_of, effective_after,
}
use accounts.Referral.Codes.{
  normal_code, put_code, new_code, attribution_of, ensure_referral_code,
  create_referral_attribution,
}
use accounts.Referral.Extensions.{verify_referral_invoice}
use accounts.Referral.Rewards.{
  valid_reward, is_of_invitee, is_on_invoice, reward_of, put_reward, new_reward,
  create_referral_reward, reversed, hold_settlement, reverse_at_risk, record_referral_risk,
  reverse_referral_reward,
}
use accounts.Referral.Settlements.{
  settlement_amount, settlement_of, put_settlement, paid_as, request_referral_settlement,
  complete_referral_settlement, reconcile_referral_settlement, reject_referral_settlement,
}
use accounts.Referral.Types.{
  ReferralCode, ReferralAttribution, ReferralReward, ReferralPaymentRisk, ReferralSettlement,
  ReferralCampaign, ReferralInvoiceVerification, Referrals,
}

module _ (upper : String → String) (fresh : Fresh) (s t : Referrals) where
  pub ensure_referral_code-writes :
      (user candidate : String) (c : ReferralCode)
      → ensure_referral_code upper fresh.now user candidate s ≡ ok (c, t)
      → ((t ≡ s) × (lookup (trim user) s.codes ≡ some c))
        ⊎ ((lookup (trim user) s.codes ≡ none)
            × (contains (trim user) s.by_id ≡ true)
            × (is_empty (normal_code upper candidate) ≡ false)
            × ((is_empty (text_at (normal_code upper candidate) s.codes_by_value)
                  || eqs (text_at (normal_code upper candidate) s.codes_by_value) (trim user))
                ≡ true)
            × (c ≡ record {
              user_uuid = trim user;
              code = normal_code upper candidate;
              created_at = fresh.now;
            })
            × (t ≡ put_code c s))
  unfolding ensure_referral_code new_code
  ensure_referral_code-writes user candidate c h = ground arith

  pub create_referral_attribution-writes :
      (code invitee : String) (created_at : Time)
      → create_referral_attribution upper fresh code invitee created_at s ≡ ok (tt, t)
      → (lookup (trim invitee) s.by_invitee ≡ none)
        × (eqs (text_at (normal_code upper code) s.codes_by_value) (trim invitee) ≡ false)
        × (t ≡ record s {
          by_invitee =
              insert
                (trim invitee)
                (attribution_of fresh
                  (normal_code upper code)
                  (text_at (normal_code upper code) s.codes_by_value)
                  (trim invitee)
                  created_at)
                s.by_invitee;
        })
  unfolding create_referral_attribution
  create_referral_attribution-writes code invitee created_at h = ground arith

  pub create_referral_reward-writes :
      (raw r : ReferralReward) (created : Bool)
      → create_referral_reward upper fresh raw s ≡ ok (created, r, t)
      → (t ≡ s)
        ⊎ ((a : ReferralAttribution) × (campaign : ReferralCampaign) × (valid_reward upper raw
              ≡ true)
            × (is_empty (text_at raw.provider_invoice_id s.reward_by_invoice) ≡ true)
            × (lookup raw.invitee_uuid s.by_invitee ≡ some a)
            × (referral_campaign_at (reward_of fresh a raw).paid_at s ≡ some campaign)
            × (any (is_of_invitee raw.invitee_uuid) (values s.rewards) ≡ false)
            × (any (is_on_invoice raw.provider_invoice_id) (values s.risks) ≡ false)
            × (t ≡ put_reward campaign (reward_of fresh a raw) s))
  unfolding create_referral_reward new_reward
  create_referral_reward-writes raw r created h = ground arith

pub record_referral_risk-writes :
    (risk : ReferralPaymentRisk) (s t : Referrals)
    → record_referral_risk risk s ≡ ok (tt, t)
    → ((is_empty (text_at risk.provider_invoice_id s.reward_by_invoice) ≡ true)
        × (t ≡ record s { risks = insert risk.source_key risk s.risks }))
      ⊎ ((r : ReferralReward) × (lookup
              (text_at risk.provider_invoice_id s.reward_by_invoice)
              s.rewards
            ≡ some r)
          × (t.by_id ≡ s.by_id)
          × (t ≡ record s {
            risks = insert risk.source_key risk s.risks;
            rewards =
                insert
                  (text_at risk.provider_invoice_id s.reward_by_invoice)
                  (reversed r)
                  s.rewards;
            settlements =
                map_values
                  (hold_settlement risk.type
                    (text_at risk.provider_invoice_id s.reward_by_invoice)
                    (insert
                      (text_at risk.provider_invoice_id s.reward_by_invoice)
                      (reversed r)
                      s.rewards))
                  s.settlements;
          }))
unfolding record_referral_risk reverse_at_risk
record_referral_risk-writes risk s t h = ground arith

pub reverse_referral_reward-writes :
    (id source_key : String) (s t : Referrals)
    → reverse_referral_reward id source_key s ≡ ok (tt, t)
    → (t ≡ s)
      ⊎ ((r : ReferralReward) × (lookup (trim id) s.rewards ≡ some r)
          × (t ≡ record s { rewards = insert (trim id) (reversed r) s.rewards }))
unfolding reverse_referral_reward
reverse_referral_reward-writes id source_key s t h = ground arith

-- A revision is appended.
pub configure_referral_campaign-appends :
    (now : Time) (input c : ReferralCampaign) (s t : Referrals)
    → configure_referral_campaign now input s ≡ ok (c, t)
    → (last : ReferralCampaign) × (last_of s.campaigns ≡ some last)
      × (c.effective_at ≡ effective_after now last.effective_at)
      × (t ≡ record s { campaigns = s.campaigns ++ c ∷ [] })
unfolding configure_referral_campaign
configure_referral_campaign-appends now input c s t h = ground arith

pub verify_referral_invoice-writes :
    (upper : String → String) (v : ReferralInvoiceVerification) (ledger : Store) (s t : Referrals)
    → verify_referral_invoice upper v ledger s ≡ ok (tt, t)
    → t ≡ record s { invoice_proofs = t.invoice_proofs }
unfolding verify_referral_invoice
verify_referral_invoice-writes upper v ledger s t h = ground arith

abbrev pub waits : ReferralSettlement → Bool
waits item = eqs item.status "pending_review"

pub complete_referral_settlement-pays :
    (raw reference : String) (now : Time) (item : ReferralSettlement) (s t : Referrals)
    → complete_referral_settlement raw reference now s ≡ ok (item, t)
    → (t ≡ s)
      ⊎ ((x : ReferralSettlement) × (lookup (trim raw) s.settlements ≡ some x)
          × (waits x ≡ true)
          × (is_empty (trim reference) ≡ false)
          × (t ≡ put_settlement (trim raw) (paid_as now (trim reference) x.reason x) s))
unfolding complete_referral_settlement
complete_referral_settlement-pays raw reference now item s t h = ground arith

-- The reason of a payment that is recorded afterwards.
abbrev pub reconciled_reason : String → ReferralSettlement → String
reconciled_reason reason x = trim (
    Prim.Native.String.◌++◌ x.reason
      (Prim.Native.String.◌++◌ "; reconciled actual payment: " reason))

pub reconcile_referral_settlement-pays :
    (raw reference reason : String) (now : Time) (item : ReferralSettlement) (s t : Referrals)
    → reconcile_referral_settlement raw reference reason now s ≡ ok (item, t)
    → (t ≡ s)
      ⊎ ((x : ReferralSettlement) × (lookup (trim raw) s.settlements ≡ some x)
          × ((waits x || eqs x.status "rejected") ≡ true)
          × (is_empty (trim reference) ≡ false)
          × (t
              ≡ put_settlement
                  (trim raw)
                  (paid_as now (trim reference) (reconciled_reason reason x) x)
                  s))
unfolding reconcile_referral_settlement
reconcile_referral_settlement-pays raw reference reason now item s t h = ground arith

abbrev pub rejected_as : Time → String → ReferralSettlement → ReferralSettlement
rejected_as now reason x = record x {
  status = "rejected";
  reason = reason;
  completed_at = some now;
}

pub reject_referral_settlement-rejects :
    (raw reason : String) (now : Time) (item : ReferralSettlement) (s t : Referrals)
    → reject_referral_settlement raw reason now s ≡ ok (item, t)
    → (x : ReferralSettlement) × (lookup (trim raw) s.settlements ≡ some x)
      × (waits x ≡ true)
      × (t ≡ put_settlement (trim raw) (rejected_as now (trim reason) x) s)
unfolding reject_referral_settlement
reject_referral_settlement-rejects raw reason now item s t h = ground arith

pub request_referral_settlement-writes :
    (upper : String → String) (fresh : Fresh) (referrer currency : String) (now : Time)
    (item : ReferralSettlement) (s t : Referrals)
    → request_referral_settlement upper fresh referrer currency now s ≡ ok (item, t)
    → (item
        ≡ settlement_of fresh referrer
            (upper (trim currency))
            (settlement_amount referrer (upper (trim currency)) now s)
            now)
      × (t ≡ put_settlement fresh.id item s)
unfolding request_referral_settlement
request_referral_settlement-writes upper fresh referrer currency now item s t h = ground arith
