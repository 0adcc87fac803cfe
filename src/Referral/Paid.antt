-- ===== src/Referral/Paid.antt =====
-- internal/store/referral_memory.go: the life of a settlement.
use accounts.Base.{
  ◌≡◌, refl, subst, ◌∙◌, ◌⊎◌, inl, inr, String, true, false, some, arith, Bool-cases, any, List, [],
  ◌∷◌,
}
use accounts.Base.Text.{eqs, eqs_iff}
use accounts.Base.Dict.{Dict, lookup, values, insert, lookup-insert, map_values, lookup-map_values}
use accounts.Finance.Types.{Fresh}
use accounts.Referral.Codes.{put_code}
use accounts.Referral.Effects.{
  Advances, Effect, nothing, coded, attributed, rewarded, warned, stopped, taken_back, asked,
  advanced, configured, proved, step-Effect,
}
use accounts.Referral.Machine.{Call, step, IsUnused}
use accounts.Referral.Rewards.{hold_settlement, matches_held, put_reward, reversed}
use accounts.Referral.Types.{ReferralReward, ReferralSettlement, Referrals}
use accounts.Referral.Writes.{waits}

abbrev pub Moves : ReferralSettlement → ReferralSettlement → Type 0
Moves v w = (w ≡ v) ⊎ Advances v w

-- The settlement is still there and has made at most one move.
abbrev pub Follows : String → ReferralSettlement → Dict ReferralSettlement → Type 0
Follows k v m = (w : ReferralSettlement) × (lookup k m ≡ some w) × Moves v w

matches_held-waits :
    (i : String) (v : ReferralSettlement) (xs : List ReferralReward)
    → any (matches_held i v) xs ≡ true
    → waits v ≡ true
matches_held-waits i v [] h = cc
matches_held-waits i v (x ∷ xs) h = ground (arith, matches_held-waits i v xs)

hold-Moves :
    (type i : String) (rewards : Dict ReferralReward) (v : ReferralSettlement)
    → Moves v (hold_settlement type i rewards v)
unfolding hold_settlement
hold-Moves type i rewards v = elim (Bool-cases (any (matches_held i v) (values rewards))) [
  | inl held ↦
      let waiting = matches_held-waits i v (values rewards) held in
      rw held (
        inr (record {
          same_id = refl;
          same_referrer = refl;
          same_currency = refl;
          same_amount = refl;
          moved = inl (waiting, waiting, refl);
        }))
  | inr free ↦ rw free (inl refl)
]

module _ (k : String) (v : ReferralSettlement) (m : Dict ReferralSettlement)
    (found : lookup k m ≡ some v) where
  stays : Follows k v m
  stays = (v, found, inl refl)

  -- A write of one settlement by a move of its own.
  written :
      (i : String) (x w : ReferralSettlement)
      → lookup i m ≡ some x
      → Advances x w
      → Follows k v (insert i w m)
  written i x w there moves = elim (Bool-cases (eqs k i)) [
    | inl hit ↦
        let at : k ≡ i = (eqs_iff k i).0 hit in
        let same : x ≡ v = ground arith in
        (w, lookup-insert k i w m ∙ rw hit refl, inr (subst (λ y. Advances y w) same moves))
    | inr miss ↦ (v, lookup-insert k i w m ∙ rw miss found, inl refl)
  ]

  hold-Follows :
      (type i : String) (rewards : Dict ReferralReward)
      → Follows k v (map_values (hold_settlement type i rewards) m)
  hold-Follows type i rewards = (
    hold_settlement type i rewards v,
    lookup-map_values (hold_settlement type i rewards) k m ∙ rw found refl,
    hold-Moves type i rewards v,
  )

Effect-Follows :
    (upper : String → String) (fresh : Fresh) (k : String) (v : ReferralSettlement) (s : Referrals)
    {t : Referrals}
    → IsUnused fresh s
    → lookup k s.settlements ≡ some v
    → Effect upper fresh s t
    → Follows k v t.settlements
unfolding put_code put_reward
Effect-Follows upper fresh k v s unused found nothing = stays k v s.settlements found
Effect-Follows upper fresh k v s unused found (coded c candidate _ _ _ _) =
    stays k v s.settlements found
Effect-Follows upper fresh k v s unused found (attributed u a _ _) = stays k v s.settlements found
Effect-Follows upper fresh k v s unused found (rewarded raw a campaign _ _ _ _ _) =
    stays k v s.settlements found
Effect-Follows upper fresh k v s unused found (warned p _) = stays k v s.settlements found
Effect-Follows upper fresh k v s unused found (stopped p i r _ _) =
    hold-Follows k v s.settlements found p.type i (insert i (reversed r) s.rewards)
Effect-Follows upper fresh k v s unused found (taken_back i r _) = stays k v s.settlements found
Effect-Follows upper fresh k v s unused found (asked item) =
    let other : eqs k fresh.id ≡ false = ground (arith, eqs_iff k fresh.id, unused.2) in
    (v, lookup-insert k fresh.id item s.settlements ∙ rw other found, inl refl)
Effect-Follows upper fresh k v s unused found (advanced i x w there moves) =
    written k v s.settlements found i x w there moves
Effect-Follows upper fresh k v s unused found (configured last c _ _) =
    stays k v s.settlements found
Effect-Follows upper fresh k v s unused found (proved proofs) = stays k v s.settlements found

-- The life of a settlement, over any call with an unused fresh id: it stays under its id, and either nothing of it changes, or it keeps its own id, its
-- referrer, its currency and its amount, and it waited and still waits, or it waited and is rejected, or it waited or was
-- rejected and is paid under a reference.
pub step-settlement :
    (upper : String → String) (c : Call) (fresh : Fresh) (k : String) (v : ReferralSettlement)
    (s : Referrals)
    → IsUnused fresh s
    → lookup k s.settlements ≡ some v
    → (w : ReferralSettlement) × (lookup k (step upper c fresh s).settlements ≡ some w) × Moves v w
step-settlement upper c fresh k v s unused found =
    Effect-Follows upper fresh k v s unused found (step-Effect upper fresh s c)
