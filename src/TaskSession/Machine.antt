-- ===== src/TaskSession/Machine.antt =====
-- internal/tasksession/store.go: the `MemoryStore` as a state machine. A call is one operation of
-- `Store` with its input; the clock and the fresh id are inputs of each step.
use accounts.Base.{String, [], after}
use accounts.TaskSession.Types.{
  Time, CreateNamespaceInput, CreateSessionInput, AppendEventInput, AppendMessageInput,
  EnqueueTaskRunInput, ClaimInput, TaskRunEventInput, RenewLeaseInput, CancelRunInput, Store,
}
use accounts.TaskSession.Namespaces.{create_namespace, ensure_personal_namespace}
use accounts.TaskSession.Sessions.{create_session}
use accounts.TaskSession.Events.{append_event}
use accounts.TaskSession.Messages.{append_message}
use accounts.TaskSession.Runs.{enqueue_task_run, record_task_run_event}
use accounts.TaskSession.Leases.{renew_lease, request_cancel}
use accounts.TaskSession.Claim.{claim_next}

-- `NewMemoryStore`
abbrev pub empty_store : Store
empty_store = record {
  namespaces = [];
  namespaces_by_acct = [];
  sessions = [];
  events = [];
  event_by_request = [];
  task_runs = [];
  run_routing = [];
  last_claim_namespace = [];
}

-- The operations of the interface `Store` that write.
pub data Call : Type 0 where
  ensures_namespace : String → Time → Call
  creates_namespace : CreateNamespaceInput → Call
  creates_session : CreateSessionInput → Call
  appends_event : AppendEventInput → Call
  appends_message : AppendMessageInput → Call
  enqueues : EnqueueTaskRunInput → Call
  claims : ClaimInput → Call
  records : TaskRunEventInput → Call
  renews : RenewLeaseInput → Call
  cancels : CancelRunInput → Call

unfoldable pub step : Call → String → Time → Store → Store
step (ensures_namespace account created) fresh now s =
    after s (ensure_personal_namespace account created fresh now s)
step (creates_namespace input) fresh now s = after s (create_namespace input now s)
step (creates_session input) fresh now s = after s (create_session input now s)
step (appends_event input) fresh now s = after s (append_event input now s)
step (appends_message input) fresh now s = after s (append_message input fresh now s)
step (enqueues input) fresh now s = after s (enqueue_task_run input now s)
step (claims input) fresh now s = after s (claim_next input fresh now s)
step (records input) fresh now s = after s (record_task_run_event input now s)
step (renews input) fresh now s = after s (renew_lease input now s)
step (cancels input) fresh now s = after s (request_cancel input now s)

-- The stores that calls lead to, in any order and at any times.
pub data Reach : Store → Type 0 where
  start : Reach empty_store
  next :
      {s : Store} → Reach s → (c : Call) (fresh : String) (now : Time) → Reach (step c fresh now s)
