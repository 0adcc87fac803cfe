-- ===== src/TaskSession/Messages.antt =====
-- internal/tasksession/store.go: `AppendMessage`, the command that records a user's message and
-- queues its run.
use accounts.Base.{
  String, Bool, true, false, ◌||◌, ◌&&◌, not, none, some, [], ◌∷◌, ◌++◌, ◌==◌, find, if◌then◌else◌,
  Result, ok, ◌>>=◌, ◌>>◌, fail_if, or_fail,
}
use accounts.Base.Word.{add64}
use accounts.Base.Text.{eqs, is_empty, trim}
use accounts.Base.Dict.{lookup, contains, insert}
use accounts.TaskSession.Value.{Object}
use accounts.TaskSession.Payload.{
  marshal_event_payload, append_message_to_context, message_event_payload, run_queued_event_payload,
  message_context_value, as_text,
}
use accounts.TaskSession.Routing.{normalize_routing}
use accounts.TaskSession.Events.{log, request_key}
use accounts.TaskSession.Types.{
  Time, is_zero, task_run_queued, event_message_created, event_run_queued, Error, already_exists,
  account_mismatch, not_found, invalid_input, Session, Event, TaskRun, AppendMessageInput,
  MessageCommandResult, Store,
}

-- The input with its texts trimmed, and its defaults filled in.
unfoldable pub normalize_message : AppendMessageInput → String → Time → AppendMessageInput
normalize_message input fresh now =
    let created : Time = if is_zero input.created_at then now else input.created_at in
    record {
      account_id = trim input.account_id;
      session_id = trim input.session_id;
      actor_id = trim input.actor_id;
      client_request_id = trim input.client_request_id;
      text = trim input.text;
      routing = input.routing;
      task_run_id = if is_empty (trim input.task_run_id) then fresh else trim input.task_run_id;
      priority = input.priority;
      not_before = if is_zero input.not_before then created else input.not_before;
      created_at = created;
    }

unfoldable pub message_event : AppendMessageInput → Object → Session → Event
message_event input payload session = record {
  session_id = input.session_id;
  seq = add64 session.last_event_seq 1;
  type = event_message_created;
  payload = payload;
  actor_id = input.actor_id;
  client_request_id = input.client_request_id;
  created_at = input.created_at;
}

unfoldable pub queued_event : AppendMessageInput → Object → Event → Event
queued_event input payload message = record {
  session_id = input.session_id;
  seq = add64 message.seq 1;
  type = event_run_queued;
  payload = payload;
  actor_id = input.actor_id;
  client_request_id = "";
  created_at = input.created_at;
}

unfoldable pub run_of_message : AppendMessageInput → Session → TaskRun
run_of_message input session = record {
  id = input.task_run_id;
  account_id = input.account_id;
  namespace_id = session.namespace_id;
  session_id = input.session_id;
  client_request_id = input.client_request_id;
  state = task_run_queued;
  priority = input.priority;
  not_before = input.not_before;
  created_at = input.created_at;
  updated_at = input.created_at;
  attempt = 0;
  lease_owner = "";
  lease_token = "";
  lease_expires = 0;
  fence = 0;
  bridge_ref = "";
}

-- The session after the two events.
unfoldable pub advance_twice : Event → Object → Session → Session
advance_twice queued context session = record session {
  last_event_seq = queued.seq;
  snapshot_ver = add64 session.snapshot_ver 2;
  context = context;
  updated_at = queued.created_at;
}

-- What `AppendMessage` writes.
unfoldable pub put_message : Event → Event → TaskRun → Object → Session → Store → Store
put_message message queued run routing session s = record s {
  events = insert message.session_id (log s message.session_id ++ message ∷ queued ∷ []) s.events;
  event_by_request =
      insert (request_key message.session_id message.client_request_id) message s.event_by_request;
  task_runs = insert run.id run s.task_runs;
  run_routing = insert run.id routing s.run_routing;
  sessions = insert session.id session s.sessions;
}

abbrev pub message_result : Event → Event → TaskRun → Session → Bool → MessageCommandResult
message_result message queued run session existing = record {
  message = message;
  queued = queued;
  task_run = run;
  snapshot_ver = session.snapshot_ver;
  last_event_seq = session.last_event_seq;
  existing = existing;
}

-- The answer to a request that was made before.
unfoldable pub repeat_message :
    Event → String → Session → Store → Result Error (MessageCommandResult × Store)
repeat_message message session_id session s = do
  run ← or_fail (lookup (as_text (lookup "taskRunId" message.payload)) s.task_runs) not_found
  let follows = λ (e : Event). e.seq == add64 message.seq 1 && eqs e.type event_run_queued
  queued ← or_fail (find follows (log s session_id)) not_found
  ok (message_result message queued run session true, s)

-- The checks of a new request, with the payload of its message and the session's next context.
unfoldable pub message_parts : AppendMessageInput → Session → Store → Result Error (Object × Object)
message_parts input session s = do
  fail_if (contains input.task_run_id s.task_runs) already_exists
  payload ← message_event_payload input.text input.task_run_id
  message_size ← marshal_event_payload payload
  queued_size ← marshal_event_payload (run_queued_event_payload input.task_run_id)
  context ←
      append_message_to_context session.context
        (message_context_value input.text input.task_run_id input.created_at)
  ok (payload, context)

-- The answer to a new request.
unfoldable pub new_message :
    AppendMessageInput → Object → Session → Store → Result Error (MessageCommandResult × Store)
unfolding message_event queued_event run_of_message advance_twice put_message
new_message input routing session s = do
  (payload, context) ← message_parts input session s
  let message = message_event input payload session
  let queued = queued_event input (run_queued_event_payload input.task_run_id) message
  let run = run_of_message input session
  let session' = advance_twice queued context session
  ok (
    message_result message queued run session' false,
    put_message message queued run routing session' s,
  )

unfoldable pub append_message :
    AppendMessageInput → String → Time → Store → Result Error (MessageCommandResult × Store)
append_message raw fresh now s = do
  let input = normalize_message raw fresh now
  fail_if
      (is_empty input.account_id
        || is_empty input.session_id
        || is_empty input.client_request_id
        || is_empty input.text)
      invalid_input
  routing ← normalize_routing input.routing
  session ← or_fail (lookup input.session_id s.sessions) not_found
  fail_if (not (eqs session.account_id input.account_id)) account_mismatch
  elim (lookup (request_key input.session_id input.client_request_id) s.event_by_request) [
    | some message ↦ repeat_message message input.session_id session s
    | none ↦ new_message input routing session s
  ]
