-- ===== src/TaskSession/Runs.antt =====
-- internal/tasksession/store.go: a run from the queue to its end (`EnqueueTaskRun`, `RecordTaskRunEvent`).
use accounts.Base.{
  ℕ, String, Bool, false, ◌||◌, ◌&&◌, not, Option, none, some, [], ◌∷◌, ◌++◌, ltb, ◌==◌,
  if◌then◌else◌, Result, ok, ◌>>=◌, ◌>>◌, fail_if, or_fail,
}
use accounts.Base.Word.{add64}
use accounts.Base.Text.{eqs, is_empty, trim}
use accounts.Base.Dict.{lookup, contains, insert}
use accounts.TaskSession.Value.{Object, text}
use accounts.TaskSession.Payload.{
  marshal_event_payload, task_run_event_payload, state_for_run_event,
}
use accounts.TaskSession.Events.{log, request_key, advance}
use accounts.TaskSession.Types.{
  Time, is_zero, task_run_queued, task_run_running, Error, already_exists, account_mismatch,
  not_found, invalid_input, lease_conflict, Session, Event, TaskRun, EnqueueTaskRunInput,
  TaskRunEventInput, TaskRunEventResult, Store,
}

unfoldable pub run_of : EnqueueTaskRunInput → Time → TaskRun
run_of input now =
    let created : Time = if is_zero input.created_at then now else input.created_at in
    record {
      id = input.id;
      account_id = input.account_id;
      namespace_id = input.namespace_id;
      session_id = input.session_id;
      client_request_id = input.client_request_id;
      state = task_run_queued;
      priority = input.priority;
      not_before = if is_zero input.not_before then created else input.not_before;
      created_at = created;
      updated_at = created;
      attempt = 0;
      lease_owner = "";
      lease_token = "";
      lease_expires = 0;
      fence = 0;
      bridge_ref = "";
    }

-- A write to `s.taskRuns`.
abbrev pub put_run : TaskRun → Store → Store
put_run run s = record s { task_runs = insert run.id run s.task_runs }

-- `ok && session.AccountID == account && session.NamespaceID == namespace`
abbrev pub owned_session : Option Session → String → String → Bool
owned_session none account namespace = false
owned_session (some session) account namespace =
    eqs session.account_id account && eqs session.namespace_id namespace

unfoldable pub enqueue_task_run :
    EnqueueTaskRunInput → Time → Store → Result Error (TaskRun × Store)
unfolding run_of
enqueue_task_run input now s = do
  fail_if (contains input.id s.task_runs) already_exists
  fail_if
      (not (owned_session (lookup input.session_id s.sessions) input.account_id input.namespace_id))
      account_mismatch
  ok (run_of input now, put_run (run_of input now) s)

-- The holder of the lease: the fence and the token are the current ones, and the lease has not run out.
abbrev pub holds_lease : TaskRun → ℕ → String → Time → Bool
holds_lease run fence token at =
    run.fence == fence && eqs run.lease_token token && ltb at run.lease_expires

-- The writes that `RecordTaskRunEvent` and `RequestCancel` end with.
unfoldable pub put_run_event : Event → TaskRun → Session → Store → Store
put_run_event event run session s = record s {
  events = insert event.session_id (log s event.session_id ++ event ∷ []) s.events;
  event_by_request =
      insert (request_key event.session_id event.client_request_id) event s.event_by_request;
  task_runs = insert run.id run s.task_runs;
  sessions = insert session.id session s.sessions;
}

abbrev pub run_event_result : Event → TaskRun → Session → TaskRunEventResult
run_event_result event run session = record {
  event = event;
  task_run = run;
  snapshot_ver = session.snapshot_ver;
  last_event_seq = session.last_event_seq;
}

-- The checks at the end of `RecordTaskRunEvent`, with the run's next state and the event's payload.
unfoldable pub run_event_parts : TaskRunEventInput → TaskRun → Result Error (String × Object)
run_event_parts input run = do
  fail_if (not (eqs run.state task_run_running)) lease_conflict
  next_state ← state_for_run_event (trim input.type) run.state
  let payload = task_run_event_payload input.payload run.id input.fence next_state
  size ← marshal_event_payload payload
  ok (next_state, payload)

unfoldable pub run_event_of : TaskRunEventInput → Time → Object → TaskRun → Session → Event
run_event_of input at payload run session = record {
  session_id = run.session_id;
  seq = add64 session.last_event_seq 1;
  type = trim input.type;
  payload = payload;
  actor_id = trim input.actor_id;
  client_request_id = trim input.client_request_id;
  created_at = at;
}

unfoldable pub run_after : TaskRunEventInput → Time → String → TaskRun → TaskRun
run_after input at next_state run =
    let bridge_ref = trim input.bridge_ref in
    record run {
      state = next_state;
      bridge_ref = if is_empty bridge_ref then run.bridge_ref else bridge_ref;
      updated_at = at;
    }

-- The end of `RecordTaskRunEvent`: the lease is held, and the request is new.
unfoldable pub record_new_event :
    TaskRunEventInput → Time → TaskRun → Session → Store → Result Error (TaskRunEventResult × Store)
unfolding put_run_event advance run_event_of run_after
record_new_event input at run session s = do
  (next_state, payload) ← run_event_parts input run
  let event = run_event_of input at payload run session
  let run' = run_after input at next_state run
  let session' = advance event (insert "lastRunState" (text next_state) session.context) session
  ok (run_event_result event run' session', put_run_event event run' session' s)

-- `run, ok := s.taskRuns[id]; if !ok || run.AccountID != account`
abbrev pub own_run : String → String → Store → Result Error TaskRun
own_run id account s = do
  run ← or_fail (lookup id s.task_runs) not_found
  fail_if (not (eqs run.account_id account)) not_found
  ok run

unfoldable pub record_task_run_event :
    TaskRunEventInput → Time → Store → Result Error (TaskRunEventResult × Store)
record_task_run_event input now s = do
  let request = trim input.client_request_id
  let token = trim input.lease_token
  let at : Time = if is_zero input.created_at then now else input.created_at
  fail_if
      (is_empty (trim input.account_id)
        || is_empty (trim input.task_run_id)
        || is_empty request
        || is_empty token)
      invalid_input
  run ← own_run (trim input.task_run_id) (trim input.account_id) s
  session ← or_fail (lookup run.session_id s.sessions) not_found
  fail_if (not (holds_lease run input.fence token at)) lease_conflict
  elim (lookup (request_key run.session_id request) s.event_by_request) [
    | some event ↦ ok (run_event_result event run session, s)
    | none ↦ record_new_event input at run session s
  ]
