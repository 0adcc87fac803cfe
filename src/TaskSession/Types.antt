-- ===== src/TaskSession/Types.antt =====
-- internal/tasksession/types.go: the constants, errors and records. A time is the number of
-- nanoseconds since Go's zero time, which is 0; an int or int64 is a 64-bit pattern.
use accounts.Base.{ℕ, String, Bool, Option, List}
pub use accounts.Base.Time.{Time, is_zero}
use accounts.Base.Dict.{Dict}
use accounts.TaskSession.Value.{Object}

abbrev pub namespace_personal : String
namespace_personal = "personal"

abbrev pub session_ready : String
session_ready = "ready"

abbrev pub task_run_queued : String
task_run_queued = "queued"

abbrev pub task_run_running : String
task_run_running = "running"

abbrev pub task_run_complete : String
task_run_complete = "completed"

abbrev pub task_run_failed : String
task_run_failed = "failed"

abbrev pub task_run_canceled : String
task_run_canceled = "cancelled"

abbrev pub event_message_created : String
event_message_created = "message.created"

abbrev pub event_run_queued : String
event_run_queued = "run.queued"

abbrev pub event_run_running : String
event_run_running = "run.running"

abbrev pub event_run_progressed : String
event_run_progressed = "run.progressed"

abbrev pub event_assistant_message_created : String
event_assistant_message_created = "assistant.message.created"

abbrev pub event_run_completed : String
event_run_completed = "run.completed"

abbrev pub event_run_failed : String
event_run_failed = "run.failed"

abbrev pub event_run_cancelled : String
event_run_cancelled = "run.cancelled"

abbrev pub event_run_cancel_requested : String
event_run_cancel_requested = "run.cancel_requested"

-- `ErrAlreadyExists` and the others, with `ErrRunFinished` of scheduler.go.
pub data Error : Type 0 where
  already_exists not_found account_mismatch payload_too_large no_eligible_task invalid_input : Error
  lease_conflict artifact_payload run_finished : Error

pub record Namespace : Type 0 where
  pub id : String
  pub account_id : String
  pub slug : String
  pub display_name : String
  pub max_active_runs : ℕ
  pub created_at : Time

pub record Session : Type 0 where
  pub id : String
  pub account_id : String
  pub namespace_id : String
  pub title : String
  pub snapshot_ver : ℕ
  pub last_event_seq : ℕ
  pub lifecycle_state : String
  pub context : Object
  pub created_at : Time
  pub updated_at : Time

pub record Event : Type 0 where
  pub session_id : String
  pub seq : ℕ
  pub type : String
  pub payload : Object
  pub actor_id : String
  pub client_request_id : String
  pub created_at : Time

pub record TaskRun : Type 0 where
  pub id : String
  pub account_id : String
  pub namespace_id : String
  pub session_id : String
  pub client_request_id : String
  pub state : String
  pub priority : ℕ
  pub not_before : Time
  pub created_at : Time
  pub updated_at : Time
  pub attempt : ℕ
  pub lease_owner : String
  pub lease_token : String
  pub lease_expires : Time
  pub fence : ℕ
  pub bridge_ref : String

pub record Snapshot : Type 0 where
  pub session_id : String
  pub namespace_id : String
  pub title : String
  pub snapshot_ver : ℕ
  pub last_event_seq : ℕ
  pub lifecycle_state : String
  pub context : Object
  pub task_run : Option TaskRun
  pub updated_at : Time

pub record CreateNamespaceInput : Type 0 where
  pub id : String
  pub account_id : String
  pub slug : String
  pub display_name : String
  pub max_active_runs : ℕ
  pub created_at : Time

pub record CreateSessionInput : Type 0 where
  pub id : String
  pub account_id : String
  pub namespace_id : String
  pub title : String
  pub created_at : Time

pub record AppendEventInput : Type 0 where
  pub account_id : String
  pub session_id : String
  pub actor_id : String
  pub client_request_id : String
  pub type : String
  pub payload : Object
  pub created_at : Time

pub record EnqueueTaskRunInput : Type 0 where
  pub id : String
  pub account_id : String
  pub namespace_id : String
  pub session_id : String
  pub client_request_id : String
  pub priority : ℕ
  pub not_before : Time
  pub created_at : Time

pub record AppendMessageInput : Type 0 where
  pub account_id : String
  pub session_id : String
  pub actor_id : String
  pub client_request_id : String
  pub text : String
  pub routing : Object
  pub task_run_id : String
  pub priority : ℕ
  pub not_before : Time
  pub created_at : Time

pub record MessageCommandResult : Type 0 where
  pub message : Event
  pub queued : Event
  pub task_run : TaskRun
  pub snapshot_ver : ℕ
  pub last_event_seq : ℕ
  pub existing : Bool

pub record TaskRunEventInput : Type 0 where
  pub account_id : String
  pub task_run_id : String
  pub actor_id : String
  pub client_request_id : String
  pub fence : ℕ
  pub lease_token : String
  pub type : String
  pub payload : Object
  pub bridge_ref : String
  pub created_at : Time

pub record TaskRunEventResult : Type 0 where
  pub event : Event
  pub task_run : TaskRun
  pub snapshot_ver : ℕ
  pub last_event_seq : ℕ

pub record ClaimInput : Type 0 where
  pub account_id : String
  pub worker_id : String
  pub now : Time
  pub max_global_active : ℕ
  pub lease_ttl : ℕ

-- scheduler.go
pub record RenewLeaseInput : Type 0 where
  pub account_id : String
  pub task_run_id : String
  pub worker_id : String
  pub fence : ℕ
  pub lease_token : String
  pub lease_ttl : ℕ
  pub now : Time

pub record RenewLeaseResult : Type 0 where
  pub task_run : TaskRun
  pub cancel_requested : Bool

pub record CancelRunInput : Type 0 where
  pub account_id : String
  pub session_id : String
  pub task_run_id : String
  pub actor_id : String
  pub client_request_id : String
  pub created_at : Time

pub record RunMessage : Type 0 where
  pub text : String
  pub routing : Object

-- The fields of `MemoryStore` but its mutex: each operation holds it from its first look at the
-- store to its end, so operations are steps.
pub record Store : Type 0 where
  pub namespaces : Dict Namespace
  pub namespaces_by_acct : Dict (Dict String)
  pub sessions : Dict Session
  pub events : Dict (List Event)
  pub event_by_request : Dict Event
  pub task_runs : Dict TaskRun
  pub run_routing : Dict Object
  pub last_claim_namespace : Dict String
