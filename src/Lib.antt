-- ===== src/Lib.antt =====
-- The account service: task sessions, the finance ledger, subscriptions, referrals, a limiter of calls
-- and the overlay's policies.
--
-- The service keeps accounts, their subscriptions and payments, and the sessions in which an
-- account's tasks are queued for workers. Some of its stores are modelled here. The in-memory stores
-- implement the same interfaces as the Postgres ones and stand for their rules; SQL is not
-- modelled.
--
-- Task sessions (internal/tasksession; modules TaskSession.*). `MemoryStore` is the record `Store`
-- of Types: its maps are association lists (Base.Dict), and `request_key` is the key of
-- `eventByRequest`. Each method is one function that takes the input, the clock and a fresh id
-- where the code asks for them, and returns an error or the result with the new store: Namespaces
-- (`createNamespaceLocked`, `EnsurePersonalNamespace`, `ListNamespaces`), Sessions
-- (`CreateSession`, `GetSession`, `GetSnapshot`, `ListSessions`), Events (`AppendEvent`,
-- `ListEvents`), Messages (`AppendMessage`), Runs (`EnqueueTaskRun`, `RecordTaskRunEvent`), Leases
-- (of scheduler.go `RenewLease`, `RequestCancel`, `RunMessage`), Claim (`ClaimNext`), Routing
-- (`NormalizeRouting`), Payload (the payloads and their limits, of store.go, scheduler.go and
-- postgres_store.go). Value is what a `map[string]any` holds. Machine makes a state machine of the
-- operations that write: `step` runs one call, and `Reach` holds of the stores that any sequence of
-- calls at any times leads to; since each method holds the store's mutex, an interleaving of
-- callers is such a sequence. Change says what a step can do, in nine kinds of change; Invariant,
-- Limits, Tenancy, Counters, Lifecycle, Replay, Fairness, Progress, Fencing and Retry are about the
-- steps.
--
-- The finance ledger (internal/store/finance_memory.go and the records of internal/store/store.go;
-- modules Finance.*). Types has the records and the maps of `memoryStore` that the ledger uses,
-- Requests the normal forms, and Invoices, Payments, Refunds, Operations and Attempts the methods.
-- A call reads the clock once. Machine is its state machine; Coverage, Settlement, Exclusion, Retry,
-- RefundRetry and Pointers are about it.
--
-- The subscription lifecycle (internal/store/subscription_lifecycle.go, subscription_lifecycle_policy.go,
-- subscription_purchase.go, subscription_refund_review.go; modules Subscription.*). Its state is the
-- ledger together with the map `subscriptionLifecycles`. Policy is `CheckSubscriptionAction`, Actions and
-- Endings are `ReserveSubscriptionAction` and `FinishSubscriptionAction`, Purchases the purchases and the
-- refund reviews. `Reader` stands for what encoding/json reads of a message. Machine has the calls, and
-- `Course` the states that calls lead to while the rest of the program writes other operations
-- (`LeavesActions`). A fresh id of an operation is the id of no other. `UpdateSubscriptionPurchase` reads
-- the user of an operation, which is written once, and then finishes it; the two are one step here.
--
-- The referral programme (internal/store/referral_memory.go, referral_campaign.go, referral_plan.go,
-- referral_invoice_verification.go; modules Referral.*). `Referrals` has its maps. Codes are codes and
-- attributions, Rewards rewards with their risks and reversals, Settlements the payouts, Campaigns the
-- revisions of the campaign, Extensions the summary and the end of an extended subscription, which is
-- read off the finance ledger. `upper` is `strings.ToUpper`. Machine has the calls and the states they
-- lead to; a fresh id is the id of no reward and of no settlement, and no user has an empty id.
--
-- The limiter of calls (internal/auth/ratelimit.go; modules Auth.*). RateLimiter is `Allow` on the map of the
-- limiter, with the order in which Go ranges over the map in a sweep as an argument; Windows counts what
-- passes, Metered compares it with one meter per key.
--
-- The overlay (internal/overlay/mesh.go, and of service.go and repository.go the policies and generations;
-- modules Overlay.*). Masks and Grants are `grantEvaluator`, Mesh is `oneMeshSpec` and `relaySpec`,
-- Generations is `AdminUpdatePolicy`, `advanceNetworkGeneration` and the increment of
-- `ExchangeRegistration`; Opened and Mutual are about the grants and the meshes. `Outside` has the
-- query for the active devices of a network and the decoders and encoders of encoding/json,
-- encoding/base64 and net/netip.
--
-- Numbers: int and int64 are 64-bit patterns below 2^64 (Base.Word), with wrap-around, signed order
-- and equality written out; a count of entries is a number. Time is in nanoseconds since Go's zero
-- time, without wrap-around. Text is Unicode (Base.Text); `strings.TrimSpace` is `trim`.
--
-- Loops are recursion on the list or map that the code ranges over. `ClaimNext` goes round the
-- eligible namespaces with as many rounds as there are namespaces, which is the code's own bound.
-- `sort_by` is the sort of `sort.Slice`, whose order among ties Go leaves open.
--
-- Base.Json has `jsonEqual` of internal/store/finance_postgres.go, which the in-memory store uses too: both
-- messages are read into values of type `any` (`Json`), which reflect.DeepEqual compares (`deep_equal`).
--
-- From outside come fresh ids (`uuid.NewString`), the clock, and for the ledger the record
-- `Library`: the case maps of strings, the decoders of encoding/json (of a refund request into a
-- struct, of a message into a value of any type) and the `%q` of fmt, for any such functions. The
-- theorems on what is refunded of a payment are about calls whose refund requests are exact
-- (`IsExact`, `ExactReach`): the two decoders read the same amount, below 2^53, and the same currency.
-- The requests of api/billing_refund_operations.go, a struct with these two fields, are so for
-- amounts below 2^53. The ids that `Reach` of the ledger takes are not empty.
--
-- Not modelled: the HTTP API, the Postgres stores, the other maps of the store (users, accounting,
-- MFA), agents, the registrations and signed configurations of the overlay, and the calls to Stripe
-- and mail. `Reach` of the ledger has the ledger's own operations, without those that subscription
-- actions write.
pub mod Auth
pub mod Base
pub mod Finance
pub mod Overlay
pub mod Referral
pub mod Subscription
pub mod TaskSession
