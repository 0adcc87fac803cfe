-- ===== src/Referral/Effects.antt =====
-- internal/store: what a call of the referral programme can do to its state.
use accounts.Base.{
  ◌≡◌, refl, sym, ap, subst, ◌⊎◌, inl, inr, String, Bool, true, false, ◌||◌, none, some, [], ◌∷◌,
  ◌++◌, any, arith, Result, ok, err, after-rule,
}
use accounts.Base.Text.{eqs, is_empty, trim}
use accounts.Base.Dict.{Dict, lookup, contains, insert, values, map_values}
use accounts.Base.Time.{Time}
use accounts.Finance.Refunds.{text_at}
use accounts.Finance.Types.{Fresh}
use accounts.Referral.Campaigns.{last_of, effective_after}
use accounts.Referral.Codes.{normal_code, put_code}
use accounts.Referral.Machine.{
  Call, ensures, attributes, creates_reward, records_risk, reverses, requests, completes,
  reconciles, rejects, configures, verifies, step, after_reward,
}
use accounts.Referral.Rewards.{
  valid_reward, is_of_invitee, is_on_invoice, reward_of, put_reward, reversed, hold_settlement,
}
use accounts.Referral.Settlements.{paid_as, put_settlement}
use accounts.Referral.Types.{
  ReferralError, ReferralCode, ReferralAttribution, ReferralReward, ReferralPaymentRisk,
  ReferralSettlement, ReferralCampaign, ReferralInvoiceVerification, Referrals,
}
use accounts.Referral.Writes.{
  ensure_referral_code-writes, create_referral_attribution-writes, create_referral_reward-writes,
  record_referral_risk-writes, reverse_referral_reward-writes, configure_referral_campaign-appends,
  verify_referral_invoice-writes, request_referral_settlement-writes,
  complete_referral_settlement-pays, reconcile_referral_settlement-pays,
  reject_referral_settlement-rejects, waits, rejected_as,
}

-- What one step may do to a settlement besides a note on one that waits: the end of one that waits, and the record
-- of a payment for one that waits or was rejected, with its reference. Whose it is and its amount stay.
pub record Advances (v w : ReferralSettlement) : Type 0 where
  pub same_id : w.id ≡ v.id
  pub same_referrer : w.referrer_uuid ≡ v.referrer_uuid
  pub same_currency : w.currency ≡ v.currency
  pub same_amount : w.amount_minor ≡ v.amount_minor
  pub moved :
      ((waits v ≡ true) × (waits w ≡ true) × (w.payout_reference ≡ v.payout_reference))
      ⊎ (((waits v ≡ true) × (eqs w.status "rejected" ≡ true))
          ⊎ (((waits v || eqs v.status "rejected") ≡ true)
              × (eqs w.status "paid" ≡ true)
              × (is_empty w.payout_reference ≡ false)))

pub data Effect (upper : String → String) (fresh : Fresh) (s : Referrals) : Referrals → Type 0 where
  nothing : Effect upper fresh s s
  coded :
      (c : ReferralCode) (candidate : String)
      → lookup c.user_uuid s.codes ≡ none
      → contains c.user_uuid s.by_id ≡ true
      → (is_empty (text_at c.code s.codes_by_value)
          || eqs (text_at c.code s.codes_by_value) c.user_uuid)
        ≡ true
      → c.code ≡ normal_code upper candidate
      → Effect upper fresh s (put_code c s)
  attributed :
      (u : String) (a : ReferralAttribution)
      → lookup u s.by_invitee ≡ none
      → eqs a.referrer_uuid u ≡ false
      → Effect upper fresh s (record s { by_invitee = insert u a s.by_invitee })
  rewarded :
      (raw : ReferralReward) (a : ReferralAttribution) (campaign : ReferralCampaign)
      → valid_reward upper raw ≡ true
      → is_empty (text_at raw.provider_invoice_id s.reward_by_invoice) ≡ true
      → lookup raw.invitee_uuid s.by_invitee ≡ some a
      → any (is_of_invitee raw.invitee_uuid) (values s.rewards) ≡ false
      → any (is_on_invoice raw.provider_invoice_id) (values s.risks) ≡ false
      → Effect upper fresh s (put_reward campaign (reward_of fresh a raw) s)
  warned :
      (p : ReferralPaymentRisk)
      → is_empty (text_at p.provider_invoice_id s.reward_by_invoice) ≡ true
      → Effect upper fresh s (record s { risks = insert p.source_key p s.risks })
  stopped :
      (p : ReferralPaymentRisk) (i : String) (r : ReferralReward)
      → text_at p.provider_invoice_id s.reward_by_invoice ≡ i
      → lookup i s.rewards ≡ some r
      → Effect upper fresh s (record s {
        risks = insert p.source_key p s.risks;
        rewards = insert i (reversed r) s.rewards;
        settlements =
            map_values (hold_settlement p.type i (insert i (reversed r) s.rewards)) s.settlements;
      })
  taken_back :
      (i : String) (r : ReferralReward)
      → lookup i s.rewards ≡ some r
      → Effect upper fresh s (record s { rewards = insert i (reversed r) s.rewards })
  asked : (item : ReferralSettlement) → Effect upper fresh s (put_settlement fresh.id item s)
  advanced :
      (i : String) (v w : ReferralSettlement)
      → lookup i s.settlements ≡ some v
      → Advances v w
      → Effect upper fresh s (put_settlement i w s)
  configured :
      (last c : ReferralCampaign)
      → last_of s.campaigns ≡ some last
      → c.effective_at ≡ effective_after fresh.now last.effective_at
      → Effect upper fresh s (record s { campaigns = s.campaigns ++ c ∷ [] })
  proved :
      (proofs : Dict ReferralInvoiceVerification)
      → Effect upper fresh s (record s { invoice_proofs = proofs })

paid_as-Advances :
    (now : Time) (reference reason : String) (v : ReferralSettlement)
    → (waits v || eqs v.status "rejected") ≡ true
    → is_empty reference ≡ false
    → Advances v (paid_as now reference reason v)
paid_as-Advances now reference reason v still solid = record {
  same_id = refl;
  same_referrer = refl;
  same_currency = refl;
  same_amount = refl;
  moved = inr (inr (still, refl, solid));
}

rejected_as-Advances :
    (now : Time) (reason : String) (v : ReferralSettlement)
    → waits v ≡ true
    → Advances v (rejected_as now reason v)
rejected_as-Advances now reason v waiting = record {
  same_id = refl;
  same_referrer = refl;
  same_currency = refl;
  same_amount = refl;
  moved = inr (inl (waiting, refl));
}

after_reward-rule {κ} :
    (P : Referrals → Type κ) (s : Referrals)
    (r : Result ReferralError (Bool × ReferralReward × Referrals))
    → P s
    → ((created : Bool) (w : ReferralReward) (t : Referrals) → r ≡ ok (created, w, t) → P t)
    → P (after_reward s r)
after_reward-rule P s (ok (created, w, t)) h k = k created w t refl
after_reward-rule P s (err e) h k = h

module _ (upper : String → String) (fresh : Fresh) (s : Referrals) where
  -- A call that fails has no effect; one that succeeds has the effect at hand.
  by_effect : {t w : Referrals} → t ≡ w → Effect upper fresh s w → Effect upper fresh s t
  by_effect e f = subst (Effect upper fresh s) (sym e) f

  pub step-Effect : (c : Call) → Effect upper fresh s (step upper c fresh s)
  unfolding step
  step-Effect (ensures user candidate) = after-rule (Effect upper fresh s) s _ nothing λ c t h.
      elim (ensure_referral_code-writes upper fresh s t user candidate c h) [
        | inl (e, _) ↦ by_effect e nothing
        | inr (first, known, _, free, is, e) ↦ by_effect e (
            coded c candidate (ground arith) (ground arith) (ground arith)
              (ap (λ (x : ReferralCode). x.code) is))
      ]
  step-Effect (attributes code invitee created_at) =
      after-rule (Effect upper fresh s) s _ nothing λ _ t h.
        let (new, other, e) =
          create_referral_attribution-writes upper fresh s t code invitee created_at h in
        by_effect e (attributed (trim invitee) _ new other)
  step-Effect (creates_reward raw) =
      after_reward-rule (Effect upper fresh s) s _ nothing λ created w t h.
        elim (create_referral_reward-writes upper fresh s t raw w created h) [
          | inl e ↦ by_effect e nothing
          | inr (a, campaign, valid, unpaid, brought, _, first, safe, e) ↦
              by_effect e (rewarded raw a campaign valid unpaid brought first safe)
        ]
  step-Effect (records_risk risk) = after-rule (Effect upper fresh s) s _ nothing λ _ t h.
      elim (record_referral_risk-writes risk s t h) [
        | inl (none_paid, e) ↦ by_effect e (warned risk none_paid)
        | inr (r, found, _, e) ↦ by_effect e (stopped risk _ r refl found)
      ]
  step-Effect (reverses id source_key) = after-rule (Effect upper fresh s) s _ nothing λ _ t h.
      elim (reverse_referral_reward-writes id source_key s t h) [
        | inl e ↦ by_effect e nothing
        | inr (r, found, e) ↦ by_effect e (taken_back (trim id) r found)
      ]
  step-Effect (requests referrer currency now) =
      after-rule (Effect upper fresh s) s _ nothing λ item t h.
        by_effect
          (request_referral_settlement-writes upper fresh referrer currency now item s t h).1
          (asked item)
  step-Effect (completes id reference now) =
      after-rule (Effect upper fresh s) s _ nothing λ item t h.
        elim (complete_referral_settlement-pays id reference now item s t h) [
          | inl e ↦ by_effect e nothing
          | inr (x, there, waiting, solid, e) ↦ by_effect e (
              advanced (trim id) x _ there
                (paid_as-Advances now (trim reference) x.reason x (rw waiting refl) solid))
        ]
  step-Effect (reconciles id reference reason now) =
      after-rule (Effect upper fresh s) s _ nothing λ item t h.
        elim (reconcile_referral_settlement-pays id reference reason now item s t h) [
          | inl e ↦ by_effect e nothing
          | inr (x, there, still, solid, e) ↦
              by_effect e (
                advanced (trim id) x _ there
                  (paid_as-Advances now (trim reference) _ x still solid))
        ]
  step-Effect (rejects id reason now) = after-rule (Effect upper fresh s) s _ nothing λ item t h.
      let (x, there, waiting, e) = reject_referral_settlement-rejects id reason now item s t h in
      by_effect e (advanced (trim id) x _ there (rejected_as-Advances now (trim reason) x waiting))
  step-Effect (configures campaign) = after-rule (Effect upper fresh s) s _ nothing λ c t h.
      let (last, is_last, dated, e) =
        configure_referral_campaign-appends fresh.now campaign c s t h in
      by_effect e (configured last c is_last dated)
  step-Effect (verifies proof ledger) = after-rule (Effect upper fresh s) s _ nothing λ _ t h.
      by_effect (verify_referral_invoice-writes upper proof ledger s t h) (proved t.invoice_proofs)
