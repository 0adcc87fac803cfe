-- ===== src/Referral/Campaigns.antt =====
-- internal/store/referral_campaign.go: the revisions of the campaign.
use accounts.Base.{
  ℕ, ◌+◌, String, Bool, true, false, ◌&&◌, ◌||◌, not, Option, none, some, List, [], ◌∷◌, ◌++◌, ltb,
  ◌==◌, length, if◌then◌else◌, Result, ok, ◌>>=◌, ◌>>◌, fail_if, or_fail,
}
use Prim.Native.String.{len}
use accounts.Base.Text.{is_empty, trim}
use accounts.Base.Dict.{lookup}
use accounts.Base.Time.{Time}
use accounts.Referral.Types.{
  ReferralError, ReferralCampaign, Referrals, referral_not_found, referral_campaign_invalid,
  nil_pointer,
}

abbrev pub begun : Option Time → Time → Bool
begun none at = true
begun (some t) at = not (ltb at t)

abbrev pub not_over : Option Time → Time → Bool
not_over none at = true
not_over (some t) at = ltb at t

unfoldable pub is_active : Option ReferralCampaign → Time → Bool
is_active none at = false
is_active (some c) at = c.enabled && begun c.starts_at at && not_over c.ends_at at

-- The first revision: from the 13th of October 2026 to the end of that year, in Shanghai.
abbrev pub default_referral_campaign : ReferralCampaign
default_referral_campaign = record {
  revision = 1;
  enabled = true;
  starts_at = some 63927417600000000000;
  ends_at = some 63934329600000000000;
  effective_at = 62135596800000000000;
  actor_uuid = "";
  reason = "initial XConnect campaign defaults";
}

abbrev pub ends_before_start : Option Time → Option Time → Bool
ends_before_start (some a) (some b) = not (ltb a b)
ends_before_start _ _ = false

unfoldable pub validate_referral_campaign : ReferralCampaign → Result ReferralError (Unit {0})
validate_referral_campaign c =
    fail_if
      (is_empty (trim c.reason)
        || ltb 500 (len (trim c.reason))
        || ends_before_start c.starts_at c.ends_at)
      referral_campaign_invalid

-- Whether a revision that has taken effect goes before the one selected so far.
abbrev pub replaces : ReferralCampaign → Option ReferralCampaign → Bool
replaces c none = true
replaces c (some selected) =
    ltb selected.effective_at c.effective_at
    || (c.effective_at == selected.effective_at && ltb selected.revision c.revision)

abbrev pub select_campaign :
    Time → Option ReferralCampaign → List ReferralCampaign → Option ReferralCampaign
select_campaign at selected [] = selected
select_campaign at selected (c ∷ cs) =
    select_campaign at
      (if not (ltb at c.effective_at) && replaces c selected then some c else selected) cs

unfoldable pub referral_campaign_at : Time → Referrals → Option ReferralCampaign
referral_campaign_at at s = select_campaign at none s.campaigns

unfoldable pub get_referral_campaign : Time → Referrals → Result ReferralError ReferralCampaign
unfolding referral_campaign_at
get_referral_campaign at s = or_fail (referral_campaign_at at s) referral_not_found

abbrev pub last_of {ℓ} : {A : Type ℓ} → List A → Option A
last_of [] = none
last_of (x ∷ xs) = elim (last_of xs) [ none ↦ some x | some y ↦ some y ]

-- A revision takes effect now, and a microsecond after the last one if that is later.
abbrev pub effective_after : Time → Time → Time
effective_after now last = if ltb last now then now else last + 1000

abbrev pub next_campaign : Time → ReferralCampaign → ℕ → ReferralCampaign → ReferralCampaign
next_campaign now last count input = record input {
  revision = count + 1;
  effective_at = effective_after now last.effective_at;
  reason = trim input.reason;
  actor_uuid = trim input.actor_uuid;
}

unfoldable pub configure_referral_campaign :
    Time → ReferralCampaign → Referrals → Result ReferralError (ReferralCampaign × Referrals)
unfolding validate_referral_campaign
configure_referral_campaign now input s = do
  validate_referral_campaign input
  last ← or_fail (last_of s.campaigns) nil_pointer
  let c = next_campaign now last (length s.campaigns) input
  ok (c, record s { campaigns = s.campaigns ++ c ∷ [] })

unfoldable pub get_referral_reward_campaign :
    String → Referrals → Result ReferralError ReferralCampaign
get_referral_reward_campaign id s = or_fail (lookup id s.reward_campaigns) referral_not_found
