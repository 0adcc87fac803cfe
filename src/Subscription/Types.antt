-- ===== src/Subscription/Types.antt =====
-- internal/store/subscription_lifecycle_policy.go: the lifecycle of an account's subscription, and the
-- part of the in-memory store that its operations read and write.
use accounts.Base.{ℕ, String, Bool, Option}
use accounts.Base.Json.{Json}
use accounts.Base.Dict.{Dict}
use accounts.Base.Time.{Time}
use accounts.Finance.Types.{Store}

-- The errors of the lifecycle, and those of the ledger that its operations return; the last one stands
-- for the panic of a nil pointer that is read.
pub data LifecycleError : Type 0 where
  user_not_found : LifecycleError
  subscription_cooldown : LifecycleError
  subscription_state_conflict : LifecycleError
  subscription_change_pending : LifecycleError
  finance_record_not_found : LifecycleError
  finance_idempotency_conflict : LifecycleError
  finance_operation_in_progress : LifecycleError
  nil_pointer : LifecycleError

pub record SubscriptionLifecycle : Type 0 where
  pub account_id : String
  pub version : ℕ
  pub last_change_at : Option Time
  pub operation_id : String
  pub pending_plan_id : String
  pub effective_at : Option Time
  pub refund_review_pending : Bool

-- The ledger, with the users' ids, and the lifecycles by user.
pub record Accounts : Type 0 where
  pub ledger : Store
  pub lifecycles : Dict SubscriptionLifecycle

-- What the operations read of a JSON message by encoding/json: the field `stateVersion` of a quote
-- (`none` if the message is refused, `some none` if the field is absent), its field `action`
-- (`none` if the message is refused), and the field `outcome` of a receipt, as far as it was read.
-- `unmarshal` is what it reads of a message into a value of any type.
pub record Reader : Type 0 where
  pub state_version : String → Option (Option ℕ)
  pub quoted_action : String → Option String
  pub outcome : String → String
  pub unmarshal : String → Option Json
