-- ===== src/Referral/Reachable.antt =====
-- internal/store/referral_memory.go: the rewards over all calls.
use accounts.Base.{
  ◌≡◌, refl, sym, ap, subst, ◌∙◌, ◌%◌, ◌/◌, String, true, false, ◌||◌, none, some, inl, inr, arith,
  Bool-cases,
}
use accounts.Base.Word.{word, eq64, sle}
use accounts.Base.Text.{eqs, eqs_iff, is_empty}
use accounts.Base.Dict.{lookup, insert, lookup-insert-cases, lookup-insert}
use accounts.Base.Time.{Time}
use accounts.Finance.Refunds.{text_at}
use accounts.Finance.Types.{Fresh}
use accounts.Referral.Codes.{put_code}
use accounts.Referral.Effects.{
  Effect, nothing, coded, attributed, rewarded, warned, stopped, taken_back, asked, advanced,
  configured, proved, step-Effect,
}
use accounts.Referral.Machine.{IsUnused, Reach, start, next, elsewhere}
use accounts.Referral.Rewards.{is_reversed}
use accounts.Referral.Rewarded.{IsRewarded, put_reward-IsRewarded, reversed-IsRewarded}
use accounts.Referral.Settlements.{payable}
use accounts.Referral.Types.{ReferralAttribution, ReferralReward, ReferralPaymentRisk, Referrals}

-- A write that leaves the rewards and what belongs to them.
record SameRewards (s t : Referrals) : Type 0 where
  rewards : t.rewards ≡ s.rewards
  by_invoice : t.reward_by_invoice ≡ s.reward_by_invoice
  by_invitee : t.by_invitee ≡ s.by_invitee
  risks : t.risks ≡ s.risks

same-IsRewarded : (s t : Referrals) → SameRewards s t → IsRewarded s → IsRewarded t
same-IsRewarded s t e v = record {
  sound = λ i r h.
      let before = v.sound i r (sym (ap (lookup i) e.rewards) ∙ h) in
      record {
        own_id = before.own_id;
        solid = before.solid;
        indexed = ap (lookup r.provider_invoice_id) e.by_invoice ∙ before.indexed;
        attribution = before.attribution;
        attributed = ap (lookup r.invitee_uuid) e.by_invitee ∙ before.attributed;
        referrer = before.referrer;
        tenth = before.tenth;
        positive = before.positive;
      };
  linked = λ invoice i h.
      let (r, found, named) = v.linked invoice i (sym (ap (lookup invoice) e.by_invoice) ∙ h) in
      (r, ap (lookup i) e.rewards ∙ found, named);
  single = λ i j r q h h' same.
      v.single i j r q (sym (ap (lookup i) e.rewards) ∙ h) (sym (ap (lookup j) e.rewards) ∙ h')
        same;
  risky = λ i k r p h at same.
      v.risky i k r p (sym (ap (lookup i) e.rewards) ∙ h) (sym (ap (lookup k) e.risks) ∙ at) same;
  invited = λ u a h. v.invited u a (sym (ap (lookup u) e.by_invitee) ∙ h);
}

-- A state that differs in other maps only.
keeps-IsRewarded :
    (s t : Referrals)
    → IsRewarded s
    → t ≡ record s {
      campaigns = t.campaigns;
      invoice_proofs = t.invoice_proofs;
      settlements = t.settlements;
      codes = t.codes;
      codes_by_value = t.codes_by_value;
    }
    → IsRewarded t
keeps-IsRewarded s t v e =
    same-IsRewarded s t
      (record {
        rewards = ap (λ (x : Referrals). x.rewards) e;
        by_invoice = ap (λ (x : Referrals). x.reward_by_invoice) e;
        by_invitee = ap (λ (x : Referrals). x.by_invitee) e;
        risks = ap (λ (x : Referrals). x.risks) e;
      })
      v

attributed-IsRewarded :
    (s : Referrals) (u : String) (a : ReferralAttribution)
    → IsRewarded s
    → lookup u s.by_invitee ≡ none
    → eqs a.referrer_uuid u ≡ false
    → IsRewarded (record s { by_invitee = insert u a s.by_invitee })
attributed-IsRewarded s u a v new other = record {
  sound = λ i r h.
      let before = v.sound i r h in
      record {
        own_id = before.own_id;
        solid = before.solid;
        indexed = before.indexed;
        attribution = before.attribution;
        attributed = ground (
          arith,
          before.attributed,
          eqs_iff r.invitee_uuid u,
          lookup-insert r.invitee_uuid u a s.by_invitee,
        );
        referrer = before.referrer;
        tenth = before.tenth;
        positive = before.positive;
      };
  linked = v.linked;
  single = v.single;
  risky = v.risky;
  invited = λ w b h. elim (lookup-insert-cases w u a b s.by_invitee h) [
    | inl (at, is) ↦ ground arith
    | inr (_, old) ↦ v.invited w b old
  ];
}

-- A risk whose invoice has no reward.
unrewarded_risk-IsRewarded :
    (s : Referrals) (p : ReferralPaymentRisk)
    → IsRewarded s
    → is_empty (text_at p.provider_invoice_id s.reward_by_invoice) ≡ true
    → IsRewarded (record s { risks = insert p.source_key p s.risks })
unrewarded_risk-IsRewarded s p v unpaid = record {
  sound = λ i r h.
      let before = v.sound i r h in
      record {
        own_id = before.own_id;
        solid = before.solid;
        indexed = before.indexed;
        attribution = before.attribution;
        attributed = before.attributed;
        referrer = before.referrer;
        tenth = before.tenth;
        positive = before.positive;
      };
  linked = v.linked;
  single = v.single;
  risky = λ i k r q found at same. elim (lookup-insert-cases k p.source_key p q s.risks at) [
    | inl (_, is) ↦
        let before = v.sound i r found in absurd (ground (arith, before.indexed, before.solid))
    | inr (_, old) ↦ v.risky i k r q found old same
  ];
  invited = v.invited;
}

-- A risk that reverses the reward of its invoice.
module _ (s : Referrals) (p : ReferralPaymentRisk) (v : IsRewarded s) where
  risk_known :
      (i : String)
      → text_at p.provider_invoice_id s.reward_by_invoice ≡ i
      → (k j : String) (q : ReferralPaymentRisk) (r : ReferralReward)
      → lookup k (insert p.source_key p s.risks) ≡ some q
      → lookup j s.rewards ≡ some r
      → q.provider_invoice_id ≡ r.provider_invoice_id
      → (is_reversed r || eqs j i) ≡ true
  risk_known i named k j q r at found same =
      elim (lookup-insert-cases k p.source_key p q s.risks at) [
        | inl (_, is) ↦
            let before = v.sound j r found in ground (arith, before.indexed, eqs_iff j i)
        | inr (_, old) ↦ let reversed_before = v.risky j k r q found old same in ground arith
      ]

pub Effect-IsRewarded :
    (upper : String → String) (fresh : Fresh) (s : Referrals) {t : Referrals}
    → IsUnused fresh s
    → IsRewarded s
    → Effect upper fresh s t
    → IsRewarded t
unfolding put_code
Effect-IsRewarded upper fresh s unused v nothing = v
Effect-IsRewarded upper fresh s unused v (coded c candidate _ _ _ _) =
    keeps-IsRewarded s (put_code c s) v refl
Effect-IsRewarded upper fresh s unused v (attributed u a new other) =
    attributed-IsRewarded s u a v new other
Effect-IsRewarded upper fresh s unused v (rewarded raw a campaign valid unpaid brought first safe) =
    put_reward-IsRewarded upper fresh raw a campaign s v unused.0 unused.1 valid unpaid brought
      first safe
Effect-IsRewarded upper fresh s unused v (warned p unpaid) = unrewarded_risk-IsRewarded s p v unpaid
Effect-IsRewarded upper fresh s unused v (stopped p i r named found) =
    reversed-IsRewarded s _ v i r found refl refl refl (risk_known s p v i named)
Effect-IsRewarded upper fresh s unused v (taken_back i r found) =
    reversed-IsRewarded s _ v i r found refl refl refl
      λ k j p w at there same. let reversed_before = v.risky j k w p there at same in ground arith
Effect-IsRewarded upper fresh s unused v (asked item) = keeps-IsRewarded s _ v refl
Effect-IsRewarded upper fresh s unused v (advanced i x w _ _) = keeps-IsRewarded s _ v refl
Effect-IsRewarded upper fresh s unused v (configured last c _ _) = keeps-IsRewarded s _ v refl
Effect-IsRewarded upper fresh s unused v (proved proofs) = keeps-IsRewarded s _ v refl

pub Reach-IsRewarded : (upper : String → String) {s : Referrals} → Reach upper s → IsRewarded s
Reach-IsRewarded upper start = record {
  sound = λ i r h. cc;
  linked = λ invoice i h. cc;
  single = λ i j r q h _ _. cc;
  risky = λ i k r p h _ _. cc;
  invited = λ u a h. cc;
}
Reach-IsRewarded upper (next {s} r c fresh unused) =
    Effect-IsRewarded upper fresh s unused (Reach-IsRewarded upper r) (step-Effect upper fresh s c)
Reach-IsRewarded upper (elsewhere {s} r by_id _) =
    same-IsRewarded s (record s { by_id = by_id })
      (record { rewards = refl; by_invoice = refl; by_invitee = refl; risks = refl })
      (Reach-IsRewarded upper r)

-- Rewards are earned once: in every state that calls lead to, a reward is a tenth of a positive payment, its referrer is the one
-- to whom its invitee is attributed and is not the invitee, and another reward of the same invitee or the same
-- invoice is the same one.
pub Reach-rewarded_once :
    (upper : String → String) (i j : String) (r q : ReferralReward) {s : Referrals}
    → Reach upper s
    → lookup i s.rewards ≡ some r
    → lookup j s.rewards ≡ some q
    → (eqs r.invitee_uuid q.invitee_uuid || eqs r.provider_invoice_id q.provider_invoice_id) ≡ true
    → (i ≡ j)
      × (eq64 r.reward_minor (r.paid_minor % word / 10) ≡ true)
      × (sle r.paid_minor 0 ≡ false)
      × ((a : ReferralAttribution) × (lookup r.invitee_uuid s.by_invitee ≡ some a)
          × (a.referrer_uuid ≡ r.referrer_uuid))
      × (eqs r.referrer_uuid r.invitee_uuid ≡ false)
Reach-rewarded_once upper i j r q {s} reach found found' same =
    let v = Reach-IsRewarded upper reach in
    let here = v.sound i r found in
    let there = v.sound j q found' in
    let other = v.invited r.invitee_uuid here.attribution here.attributed in
    (
      elim (Bool-cases (eqs r.invitee_uuid q.invitee_uuid)) [
        | inl hit ↦ v.single i j r q found found' ((eqs_iff r.invitee_uuid q.invitee_uuid).0 hit)
        | inr miss ↦ ground (
          arith,
          here.indexed,
          there.indexed,
          eqs_iff r.provider_invoice_id q.provider_invoice_id,
        )
      ],
      here.tenth,
      here.positive,
      (here.attribution, here.attributed, here.referrer),
      subst (λ x. eqs x r.invitee_uuid ≡ false) here.referrer other,
    )

-- A reward at risk cannot be asked for any more: in every state that calls lead to, a reward whose invoice has a recorded risk is
-- reversed and counts nothing towards the amount of a settlement that is requested in that state, whoever asks, in whatever currency
-- and at whatever time. (Settlements requested earlier are not spoken of.)
pub Reach-at_risk :
    (upper : String → String) (i k referrer currency : String) (now : Time) (r : ReferralReward)
    (p : ReferralPaymentRisk) {s : Referrals}
    → Reach upper s
    → lookup i s.rewards ≡ some r
    → lookup k s.risks ≡ some p
    → p.provider_invoice_id ≡ r.provider_invoice_id
    → (is_reversed r ≡ true) × (payable referrer currency now s r ≡ 0)
unfolding payable
Reach-at_risk upper i k referrer currency now r p {s} reach found at same =
    let gone = (Reach-IsRewarded upper reach).risky i k r p found at same in (gone, ground arith)
