-- ===== src/Referral/Coded.antt =====
-- internal/store/referral_memory.go: the two maps of codes.
use accounts.Base.{
  ◌≡◌, refl, sym, ap, subst, ◌∙◌, inl, inr, String, true, false, ◌||◌, none, some, arith, ok, after,
  Bool-cases, Option-cases,
}
use accounts.Base.Text.{eqs, eqs_iff, is_empty, is_empty-eq, trim}
use accounts.Base.Dict.{
  lookup, contains, insert, lookup-insert, lookup-insert_self, lookup-insert-cases,
}
use accounts.Finance.Refunds.{text_at}
use accounts.Finance.Types.{Fresh}
use accounts.Referral.Codes.{normal_code, put_code, ensure_referral_code, get_referral_code}
use accounts.Referral.Effects.{
  Effect, nothing, coded, attributed, rewarded, warned, stopped, taken_back, asked, advanced,
  configured, proved, step-Effect,
}
use accounts.Referral.Machine.{ensures, step, Reach, start, next, elsewhere}
use accounts.Referral.Rewards.{put_reward, reward_of}
use accounts.Referral.Types.{ReferralCode, Referrals}
use accounts.Referral.Writes.{ensure_referral_code-writes}

module _ (upper : String → String) where
  -- A code that a user holds: in normal form, and found by its value.
  pub record IsHeld (s : Referrals) (u : String) (c : ReferralCode) : Type 0 where
    pub own_user : c.user_uuid ≡ u
    pub solid : is_empty u ≡ false
    pub normal : normal_code upper c.code ≡ c.code
    pub by_value : lookup c.code s.codes_by_value ≡ some u

  pub record IsCoded (s : Referrals) : Type 0 where
    pub users : lookup "" s.by_id ≡ none
    pub owned : (u : String) (c : ReferralCode) → lookup u s.codes ≡ some c → IsHeld s u c
    pub valued :
        (v u : String)
        → lookup v s.codes_by_value ≡ some u
        → (c : ReferralCode) × (lookup u s.codes ≡ some c) × (c.code ≡ v)

  record SameCodes (s t : Referrals) : Type 0 where
    by_id : t.by_id ≡ s.by_id
    codes : t.codes ≡ s.codes
    codes_by_value : t.codes_by_value ≡ s.codes_by_value

  same-IsCoded : (s t : Referrals) → SameCodes s t → IsCoded s → IsCoded t
  same-IsCoded s t e v = record {
    users = ap (lookup "") e.by_id ∙ v.users;
    owned = λ u c h.
        let before = v.owned u c (sym (ap (lookup u) e.codes) ∙ h) in
        record {
          own_user = before.own_user;
          solid = before.solid;
          normal = before.normal;
          by_value = ap (lookup c.code) e.codes_by_value ∙ before.by_value;
        };
    valued = λ w u h.
        let (c, found, named) = v.valued w u (sym (ap (lookup w) e.codes_by_value) ∙ h) in
        (c, ap (lookup u) e.codes ∙ found, named);
  }

  -- A state that differs in other maps only.
  rest-IsCoded :
      (s t : Referrals)
      → IsCoded s
      → t.by_id ≡ s.by_id
      → t.codes ≡ s.codes
      → t.codes_by_value ≡ s.codes_by_value
      → IsCoded t
  rest-IsCoded s t v by_id codes values =
      same-IsCoded s t (record { by_id = by_id; codes = codes; codes_by_value = values }) v

  -- A code whose value is the value of no other.
  module _ (s : Referrals) (v : IsCoded s) (c : ReferralCode)
      (first : lookup c.user_uuid s.codes ≡ none) (known : contains c.user_uuid s.by_id ≡ true)
      (free : (is_empty (text_at c.code s.codes_by_value)
          || eqs (text_at c.code s.codes_by_value) c.user_uuid)
        ≡ true)
      (normal : normal_code upper c.code ≡ c.code) where
    user_solid : is_empty c.user_uuid ≡ false
    user_solid = elim (Bool-cases (is_empty c.user_uuid)) [
      | inl blank ↦
          let same : c.user_uuid ≡ "" = is_empty-eq c.user_uuid blank in
          let missing : lookup c.user_uuid s.by_id ≡ none =
            ap (λ u. lookup u s.by_id) same ∙ v.users in
          absurd (ground arith)
      | inr solid ↦ solid
    ]

    unvalued : lookup c.code s.codes_by_value ≡ none
    unvalued = elim (Option-cases (lookup c.code s.codes_by_value)) [
      | inl absent ↦ absent
      | inr (u, found) ↦
          let (held, there, _) = v.valued c.code u found in
          let holder = v.owned u held there in
          absurd (ground (arith, holder.solid, eqs_iff u c.user_uuid))
    ]

    put_code-IsCoded : IsCoded (put_code c s)
    unfolding put_code
    put_code-IsCoded = record {
      users = v.users;
      owned = λ u d h. elim (lookup-insert-cases u c.user_uuid c d s.codes h) [
        | inl (at, is) ↦ record {
          own_user = ground arith;
          solid = subst (λ x. is_empty x ≡ false) (sym at) user_solid;
          normal = subst (λ (x : ReferralCode). normal_code upper x.code ≡ x.code) (sym is) normal;
          by_value =
              ap (λ (x : ReferralCode). lookup x.code (insert c.code c.user_uuid s.codes_by_value))
                is
              ∙ lookup-insert_self c.code c.user_uuid s.codes_by_value
              ∙ ap some (sym at);
        }
        | inr (_, old) ↦
            let before = v.owned u d old in
            record {
              own_user = before.own_user;
              solid = before.solid;
              normal = before.normal;
              by_value = ground (
                arith,
                before.by_value,
                unvalued,
                eqs_iff d.code c.code,
                lookup-insert d.code c.code c.user_uuid s.codes_by_value,
              );
            }
      ];
      valued = λ w u h. elim (lookup-insert-cases w c.code c.user_uuid u s.codes_by_value h) [
        | inl (at, is) ↦ (
          c,
          ap (λ x. lookup x (insert c.user_uuid c s.codes)) is
              ∙ lookup-insert_self c.user_uuid c s.codes,
          sym at,
        )
        | inr (_, old) ↦
            let (d, found, named) = v.valued w u old in
            let other : eqs u c.user_uuid ≡ false = ground (arith, first, eqs_iff u c.user_uuid) in
            (d, lookup-insert u c.user_uuid c s.codes ∙ rw other found, named)
      ];
    }

-- The case map of strings, as it works on codes: a code in normal form is its own normal form.
abbrev pub IsNormal : (String → String) → Type 0
IsNormal upper =
    (code : String) → normal_code upper (normal_code upper code) ≡ normal_code upper code

Effect-IsCoded :
    (upper : String → String) (fresh : Fresh) (s : Referrals) {t : Referrals}
    → IsNormal upper
    → IsCoded upper s
    → Effect upper fresh s t
    → IsCoded upper t
unfolding put_reward
Effect-IsCoded upper fresh s stable v nothing = v
Effect-IsCoded upper fresh s stable v (coded c candidate first known free is) =
    put_code-IsCoded upper s v c first known free
      (subst (λ x. normal_code upper x ≡ x) (sym is) (stable candidate))
Effect-IsCoded upper fresh s stable v (attributed u a _ _) = rest-IsCoded upper s _ v refl refl refl
Effect-IsCoded upper fresh s stable v (rewarded raw a campaign _ _ _ _ _) =
    rest-IsCoded upper s (put_reward campaign (reward_of fresh a raw) s) v refl refl refl
Effect-IsCoded upper fresh s stable v (warned p _) = rest-IsCoded upper s _ v refl refl refl
Effect-IsCoded upper fresh s stable v (stopped p i r _ _) = rest-IsCoded upper s _ v refl refl refl
Effect-IsCoded upper fresh s stable v (taken_back i r _) = rest-IsCoded upper s _ v refl refl refl
Effect-IsCoded upper fresh s stable v (asked item) = rest-IsCoded upper s _ v refl refl refl
Effect-IsCoded upper fresh s stable v (advanced i x w _ _) = rest-IsCoded upper s _ v refl refl refl
Effect-IsCoded upper fresh s stable v (configured last c _ _) =
    rest-IsCoded upper s _ v refl refl refl
Effect-IsCoded upper fresh s stable v (proved proofs) = rest-IsCoded upper s _ v refl refl refl

pub Reach-IsCoded :
    (upper : String → String) → IsNormal upper → {s : Referrals} → Reach upper s → IsCoded upper s
Reach-IsCoded upper stable start = record {
  users = refl;
  owned = λ u c h. cc;
  valued = λ v u h. cc;
}
Reach-IsCoded upper stable (next {s} r c fresh _) =
    Effect-IsCoded upper fresh s stable (Reach-IsCoded upper stable r) (step-Effect upper fresh s c)
Reach-IsCoded upper stable (elsewhere {s} r by_id no_blank) =
    let before = Reach-IsCoded upper stable r in
    record {
      users = no_blank;
      owned = λ u c h.
          let held = before.owned u c h in
          record {
            own_user = held.own_user;
            solid = held.solid;
            normal = held.normal;
            by_value = held.by_value;
          };
      valued = before.valued;
    }

get_referral_code-held :
    (upper : String → String) (raw : String) (c : ReferralCode) (u : String) (s : Referrals)
    → lookup u s.codes ≡ some c
    → is_empty u ≡ false
    → lookup c.code s.codes_by_value ≡ some u
    → normal_code upper raw ≡ c.code
    → get_referral_code upper raw s ≡ ok c
unfolding get_referral_code
get_referral_code-held upper raw c u s found solid by_value same =
    let named : text_at (normal_code upper raw) s.codes_by_value ≡ u = rw same (ground arith) in
    rw (named, solid, found) refl

-- A code is read back: in every state that calls lead to, what EnsureReferralCode returns belongs to the user of the call, and afterwards GetReferralCode
-- finds it by every text that has its value as the normal form, its value included. (Normal forms are stable.)
pub ensure_referral_code-read :
    (upper : String → String) (fresh : Fresh) (user candidate raw : String) (c : ReferralCode)
    {s : Referrals} (t : Referrals)
    → IsNormal upper
    → Reach upper s
    → ensure_referral_code upper fresh.now user candidate s ≡ ok (c, t)
    → normal_code upper raw ≡ c.code
    → (c.user_uuid ≡ trim user)
      × (get_referral_code upper c.code t ≡ ok c)
      × (get_referral_code upper raw t ≡ ok c)
unfolding put_code step
ensure_referral_code-read upper fresh user candidate raw c {s} t stable r h same =
    let v : IsCoded upper t =
      subst (λ x. IsCoded upper (after s x)) h
        (Effect-IsCoded upper fresh s stable (Reach-IsCoded upper stable r)
          (step-Effect upper fresh s (ensures user candidate))) in
    let found : lookup (trim user) t.codes ≡ some c =
      elim (ensure_referral_code-writes upper fresh s t user candidate c h) [
        | inl (e, found) ↦ ap (λ (x : Referrals). lookup (trim user) x.codes) e ∙ found
        | inr (_, _, _, _, is, e) ↦
            let named : c.user_uuid ≡ trim user = ap (λ (x : ReferralCode). x.user_uuid) is in
            ap (λ (x : Referrals). lookup (trim user) x.codes) e
            ∙ subst (λ u. lookup u (insert c.user_uuid c s.codes) ≡ some c) named
                (lookup-insert_self c.user_uuid c s.codes)
      ] in
    let held = v.owned (trim user) c found in
    (
      held.own_user,
      get_referral_code-held upper c.code c (trim user) t found held.solid held.by_value
          held.normal,
      get_referral_code-held upper raw c (trim user) t found held.solid held.by_value same,
    )
