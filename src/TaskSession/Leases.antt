-- ===== src/TaskSession/Leases.antt =====
-- internal/tasksession/scheduler.go: the renewal of a lease, the request to cancel a run, and the message
-- of a run.
use accounts.Base.{
  ℕ, ◌+◌, String, Bool, ◌||◌, ◌&&◌, not, none, some, [], find, any, get_or, if◌then◌else◌, Result,
  ok, err, ◌>>=◌, ◌>>◌, fail_if, or_fail,
}
use accounts.Base.Word.{add64, slt}
use accounts.Base.Text.{eqs, is_empty, trim}
use accounts.Base.Dict.{lookup, insert}
use accounts.TaskSession.Value.{Object, text}
use accounts.TaskSession.Payload.{cancel_requested_payload, cancelled_before_start_payload, as_text}
use accounts.TaskSession.Events.{log, request_key, names_run, advance}
use accounts.TaskSession.Types.{
  Time, is_zero, task_run_queued, task_run_running, task_run_complete, task_run_failed,
  task_run_canceled, event_message_created, event_run_cancelled, event_run_cancel_requested, Error,
  already_exists, not_found, invalid_input, lease_conflict, run_finished, Session, Event, TaskRun,
  TaskRunEventResult, RenewLeaseInput, RenewLeaseResult, CancelRunInput, RunMessage, Store,
}
use accounts.TaskSession.Runs.{holds_lease, own_run, put_run, put_run_event, run_event_result}

-- Ten seconds and ten minutes.
abbrev pub min_scheduler_lease_ttl : ℕ
min_scheduler_lease_ttl = 10000000000

abbrev pub max_scheduler_lease_ttl : ℕ
max_scheduler_lease_ttl = 600000000000

unfoldable pub normalize_renew : RenewLeaseInput → Time → Result Error RenewLeaseInput
normalize_renew raw now = do
  let input = record raw {
    account_id = trim raw.account_id;
    task_run_id = trim raw.task_run_id;
    worker_id = trim raw.worker_id;
    lease_token = trim raw.lease_token;
    now = if is_zero raw.now then now else raw.now;
  }
  fail_if
      (is_empty input.account_id
        || is_empty input.task_run_id
        || is_empty input.worker_id
        || is_empty input.lease_token)
      invalid_input
  fail_if
      (slt input.lease_ttl min_scheduler_lease_ttl || slt max_scheduler_lease_ttl input.lease_ttl)
      invalid_input
  ok input

-- `cancelRequestedLocked` searches for such an event.
abbrev pub asks_cancel : TaskRun → Event → Bool
asks_cancel run e = eqs e.type event_run_cancel_requested && names_run run.id e

unfoldable pub cancel_requested : TaskRun → Store → Bool
cancel_requested run s = any (asks_cancel run) (log s run.session_id)

unfoldable pub renewed : RenewLeaseInput → TaskRun → TaskRun
renewed input run = record run {
  lease_expires = input.now + input.lease_ttl;
  updated_at = input.now;
}

unfoldable pub renew_lease :
    RenewLeaseInput → Time → Store → Result Error (RenewLeaseResult × Store)
unfolding renewed cancel_requested
renew_lease raw now s = do
  input ← normalize_renew raw now
  run ← own_run input.task_run_id input.account_id s
  fail_if
      (not (eqs run.state task_run_running)
        || not (holds_lease run input.fence input.lease_token input.now)
        || not (eqs run.lease_owner input.worker_id))
      lease_conflict
  let run' = renewed input run
  ok (
    record { task_run = run'; cancel_requested = cancel_requested run' (put_run run' s) },
    put_run run' s,
  )

unfoldable pub normalize_cancel : CancelRunInput → Time → Result Error CancelRunInput
normalize_cancel raw now = do
  let actor = trim raw.actor_id
  let input : CancelRunInput = record {
    account_id = trim raw.account_id;
    session_id = trim raw.session_id;
    task_run_id = trim raw.task_run_id;
    actor_id = if is_empty actor then trim raw.account_id else actor;
    client_request_id = trim raw.client_request_id;
    created_at = if is_zero raw.created_at then now else raw.created_at;
  }
  fail_if
      (is_empty input.account_id
        || is_empty input.session_id
        || is_empty input.task_run_id
        || is_empty input.client_request_id)
      invalid_input
  ok input

abbrev pub is_finished : String → Bool
is_finished state =
    eqs state task_run_complete || eqs state task_run_failed || eqs state task_run_canceled

-- The event of a cancel, of the given type and payload, as the next of the session.
unfoldable pub cancel_event : CancelRunInput → String → Object → Session → Event
cancel_event input type payload session = record {
  session_id = input.session_id;
  seq = add64 session.last_event_seq 1;
  type = type;
  payload = payload;
  actor_id = input.actor_id;
  client_request_id = input.client_request_id;
  created_at = input.created_at;
}

-- The end of `RequestCancel`.
unfoldable pub put_cancel :
    Event → TaskRun → Session → Store → Result Error (TaskRunEventResult × Store)
unfolding put_run_event advance
put_cancel event run session s =
    let session' = advance event (insert "lastRunState" (text run.state) session.context) session in
    ok (run_event_result event run session', put_run_event event run session' s)

-- The `switch` of `RequestCancel`: a finished run is refused, a queued one is cancelled outright, and
-- a running one is asked once.
unfoldable pub cancel_new :
    CancelRunInput → TaskRun → Session → Store → Result Error (TaskRunEventResult × Store)
unfolding cancel_event put_cancel
cancel_new input run session s =
    if is_finished run.state
    then err run_finished
    else if eqs run.state task_run_queued
    then put_cancel
        (cancel_event input event_run_cancelled (cancelled_before_start_payload run.id) session)
        (record run { state = task_run_canceled; updated_at = input.created_at }) session s
    else elim (find (asks_cancel run) (log s run.session_id)) [
      | some event ↦ ok (run_event_result event run session, s)
      | none ↦
          put_cancel
            (cancel_event input event_run_cancel_requested (cancel_requested_payload run.id)
              session)
            run session s
    ]

unfoldable pub request_cancel :
    CancelRunInput → Time → Store → Result Error (TaskRunEventResult × Store)
request_cancel raw now s = do
  input ← normalize_cancel raw now
  session ← or_fail (lookup input.session_id s.sessions) not_found
  fail_if (not (eqs session.account_id input.account_id)) not_found
  run ← own_run input.task_run_id input.account_id s
  fail_if (not (eqs run.session_id input.session_id)) not_found
  elim (lookup (request_key input.session_id input.client_request_id) s.event_by_request) [
    | some event ↦
        if names_run run.id event
        then ok (run_event_result event run session, s)
        else err already_exists
    | none ↦ cancel_new input run session s
  ]

unfoldable pub run_message : String → String → Store → Result Error RunMessage
run_message account_id task_run_id s = do
  run ← own_run (trim task_run_id) (trim account_id) s
  let asks = λ (e : Event). eqs e.type event_message_created && names_run run.id e
  event ← or_fail (find asks (log s run.session_id)) not_found
  ok (record {
    text = as_text (lookup "text" event.payload);
    routing = get_or (lookup run.id s.run_routing) [];
  })
