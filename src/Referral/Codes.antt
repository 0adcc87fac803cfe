-- ===== src/Referral/Codes.antt =====
-- internal/store/referral_memory.go: codes, and the attribution of invitees.
use accounts.Base.{
  String, ◌&&◌, ◌||◌, not, none, some, if◌then◌else◌, Result, ok, ◌>>=◌, ◌>>◌, fail_if, or_fail,
}
use accounts.Base.Text.{eqs, is_empty, trim}
use accounts.Base.Dict.{lookup, contains, insert}
use accounts.Base.Time.{Time, is_zero}
use accounts.Finance.Refunds.{text_at}
use accounts.Finance.Types.{Fresh}
use accounts.Referral.Types.{
  ReferralError, ReferralCode, ReferralAttribution, Referrals, user_not_found, referral_not_found,
  referral_self, referral_already_attributed, nil_pointer,
}

-- The case map is `strings.ToUpper`.
abbrev pub normal_code : (String → String) → String → String
normal_code to_upper code = to_upper (trim code)

unfoldable pub put_code : ReferralCode → Referrals → Referrals
put_code code s = record s {
  codes = insert code.user_uuid code s.codes;
  codes_by_value = insert code.code code.user_uuid s.codes_by_value;
}

unfoldable pub new_code :
    Time → String → String → Referrals → Result ReferralError (ReferralCode × Referrals)
unfolding put_code
new_code now user candidate s = do
  fail_if (not (contains user s.by_id) || is_empty candidate) user_not_found
  let owner = text_at candidate s.codes_by_value
  fail_if (not (is_empty owner) && not (eqs owner user)) referral_already_attributed
  let code : ReferralCode = record { user_uuid = user; code = candidate; created_at = now }
  ok (code, put_code code s)

unfoldable pub ensure_referral_code :
    (String → String)
    → Time
    → String
    → String
    → Referrals
    → Result ReferralError (ReferralCode × Referrals)
unfolding new_code
ensure_referral_code to_upper now raw candidate s = elim (lookup (trim raw) s.codes) [
  | some old ↦ ok (old, s)
  | none ↦ new_code now (trim raw) (normal_code to_upper candidate) s
]

unfoldable pub get_referral_code :
    (String → String) → String → Referrals → Result ReferralError ReferralCode
get_referral_code to_upper code s = do
  let owner = text_at (normal_code to_upper code) s.codes_by_value
  fail_if (is_empty owner) referral_not_found
  or_fail (lookup owner s.codes) nil_pointer

abbrev pub attribution_of : Fresh → String → String → String → Time → ReferralAttribution
attribution_of fresh code referrer invitee created_at = record {
  id = fresh.id;
  referrer_uuid = referrer;
  invitee_uuid = invitee;
  code = code;
  created_at = if is_zero created_at then fresh.now else created_at;
}

unfoldable pub create_referral_attribution :
    (String → String)
    → Fresh
    → String
    → String
    → Time
    → Referrals
    → Result ReferralError (Unit {0} × Referrals)
create_referral_attribution to_upper fresh raw_code raw_invitee created_at s = do
  let code = normal_code to_upper raw_code
  let invitee = trim raw_invitee
  let referrer = text_at code s.codes_by_value
  fail_if (is_empty referrer || not (contains invitee s.by_id)) referral_not_found
  fail_if (eqs referrer invitee) referral_self
  fail_if (contains invitee s.by_invitee) referral_already_attributed
  let attribution = attribution_of fresh code referrer invitee created_at
  ok (tt, record s { by_invitee = insert invitee attribution s.by_invitee })

unfoldable pub get_referral_referrer : String → Referrals → Result ReferralError String
get_referral_referrer invitee s = do
  referral ← or_fail (lookup (trim invitee) s.by_invitee) referral_not_found
  ok referral.referrer_uuid
