-- ===== src/Subscription/Gate.antt =====
-- internal/store: the operation that a lifecycle names, and the actions that have not ended.
use accounts.Base.{
  ◌≡◌, ◌≢◌, refl, sym, ◌∙◌, ap, subst, String, Bool, true, false, ◌&&◌, some, arith, Bool-cases,
  inl, inr, if◌then◌else◌,
}
use accounts.Base.Text.{eqs, eqs_iff, eqs_refl, is_empty}
use accounts.Base.Dict.{
  lookup, insert, lookup-insert, lookup-insert_self, lookup-insert-cases, found-insert,
}
use accounts.Finance.Types.{FinanceOperation}
use accounts.Subscription.Actions.{lifecycle_of, is_open}
use accounts.Subscription.Machine.{is_action, IsNamed}
use accounts.Subscription.Types.{Accounts}

abbrev pub gate : String → Accounts → String
gate user s = (lifecycle_of user s).operation_id

abbrev pub is_open_action : FinanceOperation → Bool
is_open_action op = is_action op && is_open op

-- A gate that is not empty names an open action of its user.
abbrev pub Holds : Accounts → String → String → Type 0
Holds s user id =
    (op : FinanceOperation) × (lookup id s.ledger.operations ≡ some op)
    × (is_open_action op ≡ true)
    × (op.target_id ≡ user)

-- Each open action is the one that the lifecycle of its user names, and each lifecycle names an open action of its user or nothing.
pub record IsGated (s : Accounts) : Type 0 where
  pub named : IsNamed s.ledger
  pub taken :
      (id : String) (op : FinanceOperation)
      → lookup id s.ledger.operations ≡ some op
      → is_open_action op ≡ true
      → gate op.target_id s ≡ id
  pub held : (user : String) → is_empty (gate user s) ≡ false → Holds s user (gate user s)

eqs_ne : (a b : String) → a ≢ b → eqs a b ≡ false
eqs_ne a b ne = ground (arith, eqs_iff a b)

-- A write of one operation and of the gate of one user, which keeps the two together.
pub record IsGateWrite (s t : Accounts) (id user gate' : String) (op' : FinanceOperation)
    : Type 0 where
  pub operations : t.ledger.operations ≡ insert id op' s.ledger.operations
  pub gates : (u : String) → gate u t ≡ (if eqs u user then gate' else gate u s)
  pub own_id : op'.id ≡ id
  pub solid : is_empty id ≡ false
  pub new_taken : is_open_action op' ≡ true → (op'.target_id ≡ user) × (gate' ≡ id)
  pub new_held : gate' ≡ id → (is_open_action op' ≡ true) × (op'.target_id ≡ user)
  pub old_owner :
      (o : FinanceOperation)
      → lookup id s.ledger.operations ≡ some o
      → is_open_action o ≡ true
      → o.target_id ≡ user
  pub still : eqs (gate user s) id ≡ false → is_empty (gate user s) ≡ false → gate' ≡ gate user s
  pub no_other : eqs gate' id ≡ false → is_empty gate' ≡ false → gate' ≡ gate user s

module _ (s t : Accounts) (id user gate' : String) (op' : FinanceOperation) (g : IsGated s)
    (w : IsGateWrite s t id user gate' op') where
  write-taken :
      (i : String) (o : FinanceOperation)
      → lookup i t.ledger.operations ≡ some o
      → is_open_action o ≡ true
      → gate o.target_id t ≡ i
  write-taken i o found active =
      elim (lookup-insert-cases i id op' o s.ledger.operations
        (sym (ap (lookup i) w.operations) ∙ found)) [
          | inl (at, is) ↦
              let (owner, names) = w.new_taken (subst (λ x. is_open_action x ≡ true) is active) in
              w.gates o.target_id
              ∙ rw (ap (λ (x : FinanceOperation). x.target_id) is ∙ owner, eqs_refl user)
                  (names ∙ sym at)
          | inr (ne, old) ↦
              let before = g.taken i o old active in
              let solid = (g.named i o old).1 in
              elim (Bool-cases (eqs o.target_id user)) [
                | inl hit ↦
                    let same : o.target_id ≡ user = (eqs_iff o.target_id user).0 hit in
                    let was : gate user s ≡ i = rw same at before in
                    w.gates o.target_id
                    ∙ rw hit (w.still (rw was (eqs_ne i id ne)) (rw was solid) ∙ was)
                | inr miss ↦ w.gates o.target_id ∙ rw miss before
              ]
        ]

  -- An open action that is not the one written stays where it was.
  Holds-write : (u i : String) → eqs i id ≡ false → Holds s u i → Holds t u i
  Holds-write u i miss (o, found, active, owner) = (
    o,
    ap (lookup i) w.operations ∙ lookup-insert i id op' s.ledger.operations ∙ rw miss found,
    active,
    owner,
  )

  Holds-written : gate' ≡ id → Holds t user id
  Holds-written names = (
    op',
    ap (lookup id) w.operations ∙ lookup-insert_self id op' s.ledger.operations,
    (w.new_held names).0,
    (w.new_held names).1,
  )

  own_held : is_empty gate' ≡ false → Holds t user gate'
  own_held full = elim (Bool-cases (eqs gate' id)) [
    | inl hit ↦
        let names : gate' ≡ id = (eqs_iff gate' id).0 hit in
        subst (Holds t user) (sym names) (Holds-written names)
    | inr miss ↦
        let same : gate' ≡ gate user s = w.no_other miss full in
        Holds-write user gate' miss (
          subst (Holds s user) (sym same) (g.held user (subst (λ x. is_empty x ≡ false) same full)))
  ]

  other_held :
      (u : String) → eqs u user ≡ false → is_empty (gate u s) ≡ false → Holds t u (gate u s)
  other_held u miss full = elim (Bool-cases (eqs (gate u s) id)) [
    | inl hit ↦
        let (o, found, active, owner) = g.held u full in
        let at : gate u s ≡ id = (eqs_iff (gate u s) id).0 hit in
        let users : o.target_id ≡ user =
          w.old_owner o (subst (λ j. lookup j s.ledger.operations ≡ some o) at found) active in
        absurd (ground (arith, eqs_iff u user))
    | inr apart ↦ Holds-write u (gate u s) apart (g.held u full)
  ]

  write-held : (u : String) → is_empty (gate u t) ≡ false → Holds t u (gate u t)
  write-held u full = elim (Bool-cases (eqs u user)) [
    | inl hit ↦
        let now : gate u t ≡ gate' = w.gates u ∙ rw hit refl in
        let mine : Holds t user (gate u t) =
          subst (Holds t user) (sym now) (own_held (subst (λ x. is_empty x ≡ false) now full)) in
        subst (λ x. Holds t x (gate u t)) (sym ((eqs_iff u user).0 hit)) mine
    | inr miss ↦
        let now : gate u t ≡ gate u s = w.gates u ∙ rw miss refl in
        subst (Holds t u) (sym now) (other_held u miss (subst (λ x. is_empty x ≡ false) now full))
  ]

  pub write-IsGated : IsGated t
  write-IsGated = record {
    named = λ i o found.
        found-insert (λ j (x : FinanceOperation). (x.id ≡ j) × (is_empty j ≡ false)) id op'
          s.ledger.operations g.named (w.own_id, w.solid) i o
          (sym (ap (lookup i) w.operations) ∙ found);
    taken = write-taken;
    held = write-held;
  }
