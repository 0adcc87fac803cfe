-- ===== src/Referral/History.antt =====
-- internal/store/referral_campaign.go: the revisions of the campaign in time.
use accounts.Base.{
  ◌≡◌, ◌≤◌, ◌<◌, refl, sym, ap, subst, ◌∙◌, inl, inr, String, true, not, ◌&&◌, Option, none, some,
  List, [], ◌∷◌, ◌++◌, ltb, All, if◌then◌else◌, arith, ok, Bool-cases,
}
use accounts.Base.Time.{Time}
use accounts.Finance.Types.{Fresh}
use accounts.Referral.Campaigns.{
  replaces, select_campaign, referral_campaign_at, last_of, effective_after,
  configure_referral_campaign,
}
use accounts.Referral.Codes.{put_code}
use accounts.Referral.Effects.{
  Effect, nothing, coded, attributed, rewarded, warned, stopped, taken_back, asked, advanced,
  configured, proved, step-Effect,
}
use accounts.Referral.Machine.{Reach, start, next, elsewhere}
use accounts.Referral.Rewards.{put_reward}
use accounts.Referral.Types.{ReferralCampaign, Referrals}
use accounts.Referral.Writes.{configure_referral_campaign-appends}

-- No revision takes effect after the last one.
abbrev IsDated : List ReferralCampaign → Type 0
IsDated cs =
    (last : ReferralCampaign)
    → last_of cs ≡ some last
    → All (λ (c : ReferralCampaign). c.effective_at ≤ last.effective_at) cs

last_of-append :
    (cs : List ReferralCampaign) (c : ReferralCampaign) → last_of (cs ++ c ∷ []) ≡ some c
last_of-append [] c = refl
last_of-append (x ∷ xs) c = ground (arith, last_of-append xs c)

All-append_below :
    (a b : Time) (cs : List ReferralCampaign) (c : ReferralCampaign)
    → a ≤ b
    → c.effective_at ≤ b
    → All (λ (x : ReferralCampaign). x.effective_at ≤ a) cs
    → All (λ (x : ReferralCampaign). x.effective_at ≤ b) (cs ++ c ∷ [])
All-append_below a b [] c le own h = (own, tt)
All-append_below a b (x ∷ xs) c le own h = (omega arith, All-append_below a b xs c le own h.1)

-- The last revision is looked at last.
select_campaign-append :
    (at : Time) (selected : Option ReferralCampaign) (cs : List ReferralCampaign)
    (c : ReferralCampaign)
    → select_campaign at selected (cs ++ c ∷ [])
      ≡ select_campaign at (select_campaign at selected cs) (c ∷ [])
select_campaign-append at selected [] c = refl
select_campaign-append at selected (x ∷ xs) c =
    select_campaign-append at
      (if not (ltb at x.effective_at) && replaces x selected then some x else selected) xs c

-- What is selected takes effect no later than the bound of all.
abbrev Below : Time → Option ReferralCampaign → Type 0
Below b none = Unit {0}
Below b (some c) = c.effective_at ≤ b

select_campaign-Below :
    (at b : Time) (selected : Option ReferralCampaign) (cs : List ReferralCampaign)
    → Below b selected
    → All (λ (c : ReferralCampaign). c.effective_at ≤ b) cs
    → Below b (select_campaign at selected cs)
select_campaign-Below at b selected [] below h = below
select_campaign-Below at b selected (c ∷ cs) below h =
    elim (Bool-cases (not (ltb at c.effective_at) && replaces c selected)) [
      | inl taken ↦ rw taken (select_campaign-Below at b (some c) cs h.0 h.1)
      | inr left ↦ rw left (select_campaign-Below at b selected cs below h.1)
    ]

replaces-Below :
    (b : Time) (c : ReferralCampaign) (selected : Option ReferralCampaign)
    → Below b selected
    → b < c.effective_at
    → replaces c selected ≡ true
replaces-Below b c none below later = refl
replaces-Below b c (some x) below later = ground arith

effective_after-later : (now last : Time) → last < effective_after now last
effective_after-later now last = ground arith

append-IsDated :
    (now : Time) (old c : ReferralCampaign) (cs : List ReferralCampaign)
    → IsDated cs
    → last_of cs ≡ some old
    → c.effective_at ≡ effective_after now old.effective_at
    → IsDated (cs ++ c ∷ [])
append-IsDated now old c cs dated was_last at last is_last =
    let same : c ≡ last = let appended = last_of-append cs c in ground arith in
    let later : old.effective_at ≤ c.effective_at =
      omega (arith, effective_after-later now old.effective_at) in
    subst
      (λ (x : ReferralCampaign).
        All (λ (y : ReferralCampaign). y.effective_at ≤ x.effective_at) (cs ++ c ∷ []))
      same
      (All-append_below old.effective_at c.effective_at cs c later (omega arith)
        (dated old was_last))

Effect-IsDated :
    (upper : String → String) (fresh : Fresh) (s : Referrals) {t : Referrals}
    → IsDated s.campaigns
    → Effect upper fresh s t
    → IsDated t.campaigns
unfolding put_code put_reward
Effect-IsDated upper fresh s v nothing = v
Effect-IsDated upper fresh s v (coded c candidate _ _ _ _) = v
Effect-IsDated upper fresh s v (attributed u a _ _) = v
Effect-IsDated upper fresh s v (rewarded raw a campaign _ _ _ _ _) = v
Effect-IsDated upper fresh s v (warned p _) = v
Effect-IsDated upper fresh s v (stopped p i r _ _) = v
Effect-IsDated upper fresh s v (taken_back i r _) = v
Effect-IsDated upper fresh s v (asked item) = v
Effect-IsDated upper fresh s v (advanced i x w _ _) = v
Effect-IsDated upper fresh s v (configured last c was_last at) =
    append-IsDated fresh.now last c s.campaigns v was_last at
Effect-IsDated upper fresh s v (proved proofs) = v

pub Reach-IsDated : (upper : String → String) {s : Referrals} → Reach upper s → IsDated s.campaigns
Reach-IsDated upper start = λ last is_last. ground arith
Reach-IsDated upper (next {s} r c fresh _) =
    Effect-IsDated upper fresh s (Reach-IsDated upper r) (step-Effect upper fresh s c)
Reach-IsDated upper (elsewhere r by_id _) = Reach-IsDated upper r

-- A new revision takes effect and leaves the past: in every state that calls lead to, after ConfigureReferralCampaign has made a revision, the campaign of a time before the one at
-- which it takes effect is the same as before the call, and the campaign of any later time, that one included, is the new revision. It takes effect at the call or later.
pub configure_referral_campaign-history :
    (upper : String → String) (now at : Time) (input c : ReferralCampaign) {s : Referrals}
    (t : Referrals)
    → Reach upper s
    → configure_referral_campaign now input s ≡ ok (c, t)
    → (referral_campaign_at at t
        ≡ (if ltb at c.effective_at then referral_campaign_at at s else some c))
      × (now ≤ c.effective_at)
unfolding referral_campaign_at
configure_referral_campaign-history upper now at input c {s} t r h =
    let (old, was_last, dated, e) = configure_referral_campaign-appends now input c s t h in
    let before =
      select_campaign-Below at old.effective_at none s.campaigns tt
        (Reach-IsDated upper r old was_last) in
    let wins = replaces-Below old.effective_at c (select_campaign at none s.campaigns) before (
      subst (λ x. old.effective_at < x) (sym dated) (effective_after-later now old.effective_at)) in
    (
      ap (λ (x : Referrals). select_campaign at none x.campaigns) e
          ∙ select_campaign-append at none s.campaigns c
          ∙ ground arith,
      ground arith,
    )
