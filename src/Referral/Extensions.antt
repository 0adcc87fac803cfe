-- ===== src/Referral/Extensions.antt =====
-- internal/store/referral_memory.go and referral_invoice_verification.go: the summary of a referrer,
-- extensions, and the end of a subscription that they extend, which is read off the finance ledger.
use accounts.Base.{
  ℕ, ◌+◌, ◌*◌, String, Bool, false, ◌&&◌, ◌||◌, not, Option, none, some, List, [], ◌∷◌, any, keep,
  ltb, sort_by, get_or, if◌then◌else◌, Result, ok, err, ◌>>◌, fail_if,
}
use accounts.Base.Word.{add64, sub64}
use accounts.Base.Text.{eqs, is_empty, trim}
use accounts.Base.Dict.{Dict, lookup, contains, insert, values}
use accounts.Base.Time.{Time, is_zero}
use accounts.Finance.Invoices.{at_most}
use accounts.Finance.Types.{FinanceInvoice, FinancePayment, FinanceRefund, Store}
use accounts.Referral.Rewards.{is_xconnect_referral_plan, is_on_invoice, is_reversed}
use accounts.Referral.Types.{
  ReferralError, ReferralReward, ReferralSettlement, SubscriptionExtension,
  ReferralInvoiceVerification, Referrals, referral_not_found, finance_idempotency_conflict,
}

pub record ReferralCurrencySummary : Type 0 where
  pub currency : String
  pub earned_minor : ℕ
  pub pending_minor : ℕ
  pub eligible_minor : ℕ
  pub settled_minor : ℕ
  pub reversed_minor : ℕ

pub record ReferralSummary : Type 0 where
  pub successful_invites : ℕ
  pub awarded_days : ℕ
  pub cash_by_currency : List ReferralCurrencySummary

abbrev empty_row : String → ReferralCurrencySummary
empty_row currency = record {
  currency = currency;
  earned_minor = 0;
  pending_minor = 0;
  eligible_minor = 0;
  settled_minor = 0;
  reversed_minor = 0;
}

abbrev row_of : String → Dict ReferralCurrencySummary → ReferralCurrencySummary
row_of currency rows = get_or (lookup currency rows) (empty_row currency)

-- What one reward adds to its row.
unfoldable pub count_reward :
    Time → ReferralReward → ReferralCurrencySummary → ReferralCurrencySummary
count_reward now reward row =
    if is_reversed reward
    then record row { reversed_minor = add64 row.reversed_minor reward.reward_minor }
    else record row {
      earned_minor = add64 row.earned_minor reward.reward_minor;
      pending_minor =
          if eqs reward.status "pending" && ltb now reward.eligible_at
          then add64 row.pending_minor reward.reward_minor
          else row.pending_minor;
      eligible_minor =
          if (eqs reward.status "pending" && not (ltb now reward.eligible_at))
            || eqs reward.status "eligible"
          then add64 row.eligible_minor reward.reward_minor
          else row.eligible_minor;
    }

unfoldable pub count_settlement :
    ReferralSettlement → ReferralCurrencySummary → ReferralCurrencySummary
count_settlement settlement row = record row {
  settled_minor =
      if eqs settlement.status "paid"
      then add64 row.settled_minor settlement.amount_minor
      else row.settled_minor;
  eligible_minor =
      if eqs settlement.status "pending_review"
      then sub64 row.eligible_minor settlement.amount_minor
      else row.eligible_minor;
}

-- The loops over the rewards and over the settlements of a referrer.
unfoldable pub add_rewards :
    Time → List ReferralReward → Dict ReferralCurrencySummary → Dict ReferralCurrencySummary
unfolding count_reward
add_rewards now [] rows = rows
add_rewards now (r ∷ rs) rows =
    add_rewards now rs (insert r.currency (count_reward now r (row_of r.currency rows)) rows)

unfoldable pub add_settlements :
    List ReferralSettlement → Dict ReferralCurrencySummary → Dict ReferralCurrencySummary
unfolding count_settlement
add_settlements [] rows = rows
add_settlements (i ∷ is) rows =
    add_settlements is (insert i.currency (count_settlement i (row_of i.currency rows)) rows)

abbrev sum_days : List SubscriptionExtension → ℕ
sum_days [] = 0
sum_days (e ∷ es) = add64 e.days (sum_days es)

abbrev count_invites : List ReferralReward → ℕ
count_invites [] = 0
count_invites (r ∷ rs) = if is_reversed r then count_invites rs else add64 (count_invites rs) 1

unfoldable pub get_referral_summary : String → Time → Referrals → ReferralSummary
unfolding add_rewards add_settlements
get_referral_summary referrer now s =
    let rewards = keep (λ (r : ReferralReward). eqs r.referrer_uuid referrer) (values s.rewards) in
    let settlements =
      keep (λ (i : ReferralSettlement). eqs i.referrer_uuid referrer) (values s.settlements) in
    record {
      successful_invites = count_invites rewards;
      awarded_days = sum_days (
          keep (λ (e : SubscriptionExtension). eqs e.user_uuid referrer && eqs e.status "applied")
            (values s.extensions));
      cash_by_currency = values (add_settlements settlements (add_rewards now rewards []));
    }

abbrev newer_extension : SubscriptionExtension → SubscriptionExtension → Bool
newer_extension a b = ltb b.created_at a.created_at

unfoldable pub list_subscription_extensions : String → ℕ → Referrals → List SubscriptionExtension
list_subscription_extensions user limit s = at_most limit (
    sort_by newer_extension
      (keep (λ (e : SubscriptionExtension). eqs e.user_uuid user) (values s.extensions)))

abbrev is_span : Option Time → Option Time → Bool
is_span (some a) (some b) = ltb a b
is_span _ _ = false

-- The evidence of an invoice, which holds the invoice's id.
abbrev has_proof : Option ReferralInvoiceVerification → Bool
has_proof none = false
has_proof (some v) = not (is_empty v.invoice_id)

-- An invoice of a service period of the subscription, known to be of the programme.
unfoldable pub is_service_invoice : String → Referrals → FinanceInvoice → Bool
is_service_invoice subscription s invoice =
    eqs invoice.subscription_uuid subscription
    && eqs invoice.provider "stripe"
    && is_span invoice.service_period_start invoice.service_period_end
    && (eqs invoice.description "Verified XConnect subscription invoice"
        || eqs invoice.description "Verified XConnect inviter subscription invoice"
        || has_proof (lookup invoice.id s.invoice_proofs))

abbrev is_refund_of : FinancePayment → FinanceRefund → Bool
is_refund_of payment refund = eqs refund.payment_id payment.id

-- A payment of the invoice that counts: by Stripe, not refunded and not at risk.
unfoldable pub settles_period : FinanceInvoice → Store → Referrals → FinancePayment → Bool
settles_period invoice ledger s payment =
    eqs payment.invoice_id invoice.id
    && eqs payment.provider "stripe"
    && not (any (is_refund_of payment) (values ledger.refunds))
    && not (any (is_on_invoice invoice.provider_invoice_id) (values s.risks))

-- The loop over the invoices: the latest end of a paid service period.
unfoldable pub latest_end : String → Store → Referrals → List FinanceInvoice → Time → Time
unfolding is_service_invoice settles_period
latest_end subscription ledger s [] base = base
latest_end subscription ledger s (i ∷ is) base = latest_end subscription ledger s is (
    if is_service_invoice subscription s i
      && any (settles_period i ledger s) (values ledger.payments)
      && (is_zero base || ltb base (get_or i.service_period_end 0))
    then get_or i.service_period_end 0
    else base)

-- A day, in nanoseconds.
abbrev pub day : ℕ
day = 86400000000000

unfoldable pub referral_extension_end : String → Store → Referrals → Time
unfolding latest_end
referral_extension_end subscription ledger s =
    let base = latest_end subscription ledger s (values ledger.invoices) 0 in
    let days = sum_days (
      keep
        (λ (e : SubscriptionExtension).
          eqs e.subscription_uuid subscription && eqs e.status "applied")
        (values s.extensions)) in
    if is_zero base then 0 else base + days * day

unfoldable pub valid_referral_invoice_verification :
    (String → String) → ReferralInvoiceVerification → Bool
valid_referral_invoice_verification to_upper v =
    not (is_empty (trim v.invoice_id))
    && not (is_empty (trim v.provider_price_id))
    && eqs v.product_slug "xconnect"
    && is_xconnect_referral_plan to_upper v.plan_id

abbrev same_verification : ReferralInvoiceVerification → ReferralInvoiceVerification → Bool
same_verification a b =
    eqs a.invoice_id b.invoice_id
    && eqs a.provider_price_id b.provider_price_id
    && eqs a.plan_id b.plan_id
    && eqs a.product_slug b.product_slug

-- The evidence of an invoice is written once.
unfoldable pub verify_referral_invoice :
    (String → String)
    → ReferralInvoiceVerification
    → Store
    → Referrals
    → Result ReferralError (Unit {0} × Referrals)
unfolding valid_referral_invoice_verification
verify_referral_invoice to_upper v ledger s = do
  fail_if
      (not (valid_referral_invoice_verification to_upper v)
        || not (contains v.invoice_id ledger.invoices))
      referral_not_found
  elim (lookup v.invoice_id s.invoice_proofs) [
    | none ↦ ok (tt, record s { invoice_proofs = insert v.invoice_id v s.invoice_proofs })
    | some old ↦ if same_verification old v then ok (tt, s) else err finance_idempotency_conflict
  ]
