-- ===== src/Referral/Rewarded.antt =====
-- internal/store/referral_memory.go: the rewards, their invitees, invoices and risks.
use accounts.Base.{
  ◌≡◌, refl, sym, ap, ◌∙◌, ◌%◌, ◌/◌, String, true, false, ◌||◌, none, some, inl, inr, arith, any,
  Bool-cases,
}
use accounts.Base.Word.{word, eq64, sle}
use accounts.Base.Text.{eqs, eqs_iff, is_empty}
use accounts.Base.Dict.{
  lookup, insert, values, lookup-insert, lookup-insert_self, lookup-insert-cases, found-insert,
  any-values-none,
}
use accounts.Finance.Refunds.{text_at}
use accounts.Finance.Types.{Fresh}
use accounts.Referral.Rewards.{
  valid_reward, is_of_invitee, is_on_invoice, reward_of, put_reward, reversed, is_reversed,
}
use accounts.Referral.Types.{
  ReferralAttribution, ReferralReward, ReferralPaymentRisk, ReferralCampaign, Referrals,
}

-- What a reward is on its own: held under its id, for an invitee whom another user has brought, a tenth of a payment.
pub record IsSound (s : Referrals) (i : String) (r : ReferralReward) : Type 0 where
  pub own_id : r.id ≡ i
  pub solid : is_empty i ≡ false
  pub indexed : lookup r.provider_invoice_id s.reward_by_invoice ≡ some i
  pub attribution : ReferralAttribution
  pub attributed : lookup r.invitee_uuid s.by_invitee ≡ some attribution
  pub referrer : attribution.referrer_uuid ≡ r.referrer_uuid
  pub tenth : eq64 r.reward_minor (r.paid_minor % word / 10) ≡ true
  pub positive : sle r.paid_minor 0 ≡ false

pub record IsRewarded (s : Referrals) : Type 0 where
  pub sound : (i : String) (r : ReferralReward) → lookup i s.rewards ≡ some r → IsSound s i r
  pub linked :
      (invoice i : String)
      → lookup invoice s.reward_by_invoice ≡ some i
      → (r : ReferralReward) × (lookup i s.rewards ≡ some r) × (r.provider_invoice_id ≡ invoice)
  pub single :
      (i j : String) (r q : ReferralReward)
      → lookup i s.rewards ≡ some r
      → lookup j s.rewards ≡ some q
      → r.invitee_uuid ≡ q.invitee_uuid
      → i ≡ j
  pub risky :
      (i k : String) (r : ReferralReward) (p : ReferralPaymentRisk)
      → lookup i s.rewards ≡ some r
      → lookup k s.risks ≡ some p
      → p.provider_invoice_id ≡ r.provider_invoice_id
      → is_reversed r ≡ true
  pub invited :
      (u : String) (a : ReferralAttribution)
      → lookup u s.by_invitee ≡ some a
      → eqs a.referrer_uuid u ≡ false

-- A new reward.
module _ (upper : String → String) (fresh : Fresh) (raw : ReferralReward) (a : ReferralAttribution)
    (campaign : ReferralCampaign) (s : Referrals) (v : IsRewarded s)
    (solid : is_empty fresh.id ≡ false) (new : lookup fresh.id s.rewards ≡ none)
    (valid : valid_reward upper raw ≡ true)
    (unpaid : is_empty (text_at raw.provider_invoice_id s.reward_by_invoice) ≡ true)
    (brought : lookup raw.invitee_uuid s.by_invitee ≡ some a)
    (first : any (is_of_invitee raw.invitee_uuid) (values s.rewards) ≡ false)
    (safe : any (is_on_invoice raw.provider_invoice_id) (values s.risks) ≡ false) where
  abbrev made : ReferralReward
  made = reward_of fresh a raw

  made-fields :
      (made.id ≡ fresh.id)
      × (made.provider_invoice_id ≡ raw.provider_invoice_id)
      × (made.invitee_uuid ≡ raw.invitee_uuid)
      × (made.referrer_uuid ≡ a.referrer_uuid)
      × (made.reward_minor ≡ raw.reward_minor)
      × (made.paid_minor ≡ raw.paid_minor)
  unfolding reward_of
  made-fields = (refl, refl, refl, refl, refl, refl)

  made-IsSound : IsSound (put_reward campaign made s) fresh.id made
  unfolding put_reward reward_of valid_reward
  made-IsSound = record {
    own_id = refl;
    solid = solid;
    indexed = lookup-insert_self raw.provider_invoice_id fresh.id s.reward_by_invoice;
    attribution = a;
    attributed = brought;
    referrer = refl;
    tenth = ground arith;
    positive = ground arith;
  }

  -- An invoice that was paid out has another reward.
  other_invoice :
      (i : String) (r : ReferralReward)
      → lookup i s.rewards ≡ some r
      → eqs r.provider_invoice_id raw.provider_invoice_id ≡ false
  other_invoice i r found = elim (Bool-cases (eqs r.provider_invoice_id raw.provider_invoice_id)) [
    | inl hit ↦
        let before = v.sound i r found in
        let same = (eqs_iff r.provider_invoice_id raw.provider_invoice_id).0 hit in
        absurd (ground (arith, before.indexed, before.solid))
    | inr miss ↦ miss
  ]

  old-IsSound :
      (i : String) (r : ReferralReward)
      → lookup i s.rewards ≡ some r
      → IsSound (put_reward campaign made s) i r
  unfolding put_reward reward_of
  old-IsSound i r found =
      let before = v.sound i r found in
      record {
        own_id = before.own_id;
        solid = before.solid;
        indexed =
            lookup-insert r.provider_invoice_id raw.provider_invoice_id fresh.id s.reward_by_invoice
            ∙ rw (other_invoice i r found) before.indexed;
        attribution = before.attribution;
        attributed = before.attributed;
        referrer = before.referrer;
        tenth = before.tenth;
        positive = before.positive;
      }

  new_linked :
      (invoice i : String)
      → lookup invoice (put_reward campaign made s).reward_by_invoice ≡ some i
      → (r : ReferralReward) × (lookup i (put_reward campaign made s).rewards ≡ some r)
        × (r.provider_invoice_id ≡ invoice)
  unfolding put_reward reward_of
  new_linked invoice i found =
      elim (lookup-insert-cases invoice raw.provider_invoice_id fresh.id i s.reward_by_invoice
        found) [
          | inl (at, is) ↦ (
            made,
            ap (λ j. lookup j (insert fresh.id made s.rewards)) is
                ∙ lookup-insert_self fresh.id made s.rewards,
            sym at,
          )
          | inr (_, old) ↦
              let (r, there, named) = v.linked invoice i old in
              (
                r,
                ground (arith, lookup-insert i fresh.id made s.rewards, eqs_iff i fresh.id),
                named,
              )
        ]

  new_single :
      (i j : String) (r q : ReferralReward)
      → lookup i (put_reward campaign made s).rewards ≡ some r
      → lookup j (put_reward campaign made s).rewards ≡ some q
      → r.invitee_uuid ≡ q.invitee_uuid
      → i ≡ j
  unfolding put_reward reward_of
  new_single i j r q found found' same =
      elim (lookup-insert-cases i fresh.id made r s.rewards found) [
        | inl (at, is) ↦ elim (lookup-insert-cases j fresh.id made q s.rewards found') [
          | inl (at', _) ↦ at ∙ sym at'
          | inr (_, old') ↦ absurd (
              ground (
                arith,
                any-values-none (is_of_invitee raw.invitee_uuid) j q s.rewards,
                eqs_iff q.invitee_uuid raw.invitee_uuid,
              ))
        ]
        | inr (_, old) ↦ elim (lookup-insert-cases j fresh.id made q s.rewards found') [
          | inl (_, is') ↦ absurd (
              ground (
                arith,
                any-values-none (is_of_invitee raw.invitee_uuid) i r s.rewards,
                eqs_iff r.invitee_uuid raw.invitee_uuid,
              ))
          | inr (_, old') ↦ v.single i j r q old old' same
        ]
      ]

  new_risky :
      (i k : String) (r : ReferralReward) (p : ReferralPaymentRisk)
      → lookup i (put_reward campaign made s).rewards ≡ some r
      → lookup k s.risks ≡ some p
      → p.provider_invoice_id ≡ r.provider_invoice_id
      → is_reversed r ≡ true
  unfolding put_reward reward_of
  new_risky i k r p found at same = elim (lookup-insert-cases i fresh.id made r s.rewards found) [
    | inl (_, is) ↦ absurd (
        ground (
          arith,
          any-values-none (is_on_invoice raw.provider_invoice_id) k p s.risks,
          eqs_iff p.provider_invoice_id raw.provider_invoice_id,
        ))
    | inr (_, old) ↦ v.risky i k r p old at same
  ]

  pub put_reward-IsRewarded : IsRewarded (put_reward campaign made s)
  unfolding put_reward reward_of
  put_reward-IsRewarded = record {
    sound =
        found-insert (IsSound (put_reward campaign made s)) fresh.id made s.rewards old-IsSound
          made-IsSound;
    linked = new_linked;
    single = new_single;
    risky = new_risky;
    invited = v.invited;
  }

-- A reward is reversed, and a risk may be recorded with it.
module _ (s t : Referrals) (v : IsRewarded s) (i : String) (r : ReferralReward)
    (found : lookup i s.rewards ≡ some r) (rewards : t.rewards ≡ insert i (reversed r) s.rewards)
    (by_invoice : t.reward_by_invoice ≡ s.reward_by_invoice)
    (by_invitee : t.by_invitee ≡ s.by_invitee)
    (known : (k j : String) (p : ReferralPaymentRisk) (q : ReferralReward)
      → lookup k t.risks ≡ some p
      → lookup j s.rewards ≡ some q
      → p.provider_invoice_id ≡ q.provider_invoice_id
      → (is_reversed q || eqs j i) ≡ true) where
  IsSound-before : (j : String) (q : ReferralReward) → IsSound s j q → IsSound t j q
  IsSound-before j q h = record {
    own_id = h.own_id;
    solid = h.solid;
    indexed = ap (lookup q.provider_invoice_id) by_invoice ∙ h.indexed;
    attribution = h.attribution;
    attributed = ap (lookup q.invitee_uuid) by_invitee ∙ h.attributed;
    referrer = h.referrer;
    tenth = h.tenth;
    positive = h.positive;
  }

  -- What is found now was found before, or is the reversed one.
  found_before :
      (j : String) (q : ReferralReward)
      → lookup j t.rewards ≡ some q
      → (w : ReferralReward) × (lookup j s.rewards ≡ some w)
        × (q.invitee_uuid ≡ w.invitee_uuid)
        × (q.provider_invoice_id ≡ w.provider_invoice_id)
        × ((eqs j i || is_reversed w) ≡ true → is_reversed q ≡ true)
  found_before j q h =
      elim (lookup-insert-cases j i (reversed r) q s.rewards (sym (ap (lookup j) rewards) ∙ h)) [
        | inl (at, is) ↦ (
          r,
          ap (λ k. lookup k s.rewards) at ∙ found,
          ground arith,
          ground arith,
          λ _. ap is_reversed is,
        )
        | inr (ne, old) ↦ (q, old, refl, refl, λ e. ground (arith, eqs_iff j i))
      ]

  reversed-IsSound : IsSound s i r → IsSound t i (reversed r)
  reversed-IsSound h = IsSound-before i (reversed r) (record {
    own_id = h.own_id;
    solid = h.solid;
    indexed = h.indexed;
    attribution = h.attribution;
    attributed = h.attributed;
    referrer = h.referrer;
    tenth = h.tenth;
    positive = h.positive;
  })

  pub reversed-IsRewarded : IsRewarded t
  reversed-IsRewarded = record {
    sound = λ j q h.
        found-insert (IsSound t) i (reversed r) s.rewards
          (λ k w e. IsSound-before k w (v.sound k w e)) (reversed-IsSound (v.sound i r found)) j q
          (sym (ap (lookup j) rewards) ∙ h);
    linked = λ invoice j h.
        let (w, there, named) = v.linked invoice j (sym (ap (lookup invoice) by_invoice) ∙ h) in
        elim (Bool-cases (eqs j i)) [
          | inl hit ↦ (
            reversed r,
            ap (lookup j) rewards ∙ lookup-insert j i (reversed r) s.rewards ∙ rw hit refl,
            ground (arith, eqs_iff j i),
          )
          | inr miss ↦ (
            w,
            ap (lookup j) rewards ∙ lookup-insert j i (reversed r) s.rewards ∙ rw miss there,
            named,
          )
        ];
    single = λ j k q w h h' same.
        let (q', old, invitee, _, _) = found_before j q h in
        let (w', old', invitee', _, _) = found_before k w h' in
        v.single j k q' w' old old' (sym invitee ∙ same ∙ invitee');
    risky = λ j k q p h at same.
        let (q', old, _, invoice, reverses) = found_before j q h in
        let covered = known k j p q' at old (same ∙ invoice) in reverses (ground arith);
    invited = λ u a h. v.invited u a (sym (ap (lookup u) by_invitee) ∙ h);
  }
