-- ===== src/TaskSession/Events.antt =====
-- internal/tasksession/store.go: the event log of a session.
use accounts.Base.{
  ℕ, zero, suc, String, Bool, false, ◌||◌, not, Option, none, some, List, [], ◌∷◌, ◌++◌, get_or,
  if◌then◌else◌, Result, ok, ◌>>=◌, ◌>>◌, fail_if, or_fail,
}
use accounts.Base.Word.{add64, slt, sle}
use accounts.Base.Text.{eqs, is_empty, trim}
use accounts.Base.Dict.{lookup, insert}
use accounts.TaskSession.Value.{Object, text, is_text}
use accounts.TaskSession.Payload.{marshal_event_payload, as_text}
use accounts.TaskSession.Types.{
  Time, is_zero, Error, account_mismatch, not_found, Session, Event, AppendEventInput, Store,
}

-- `s.events[id]`
abbrev pub log : Store → String → List Event
log s id = get_or (lookup id s.events) []

-- `input.SessionID + "\x00" + input.ClientRequestID`
abbrev pub request_key : String → String → String
request_key session_id client_request_id =
    Prim.Native.String.◌++◌ session_id (Prim.Native.String.◌++◌ "\0" client_request_id)

-- `event.Payload["taskRunId"] == id`
abbrev pub names_run : String → Event → Bool
names_run id e = elim (lookup "taskRunId" e.payload) [ none ↦ false | some v ↦ is_text (eqs id) v ]

-- `if text, ok := payload[key].(string); ok && strings.TrimSpace(text) != ""`
abbrev note_text : Object → String → String → Object → Object
note_text payload key name context =
    let found = as_text (lookup key payload) in
    if is_empty (trim found) then context else insert name (text found) context

-- The event that an input describes, as the next one of its session.
unfoldable pub event_of : AppendEventInput → Time → Session → Event
event_of input now session = record {
  session_id = input.session_id;
  seq = add64 session.last_event_seq 1;
  type = trim input.type;
  payload = input.payload;
  actor_id = trim input.actor_id;
  client_request_id = trim input.client_request_id;
  created_at = if is_zero input.created_at then now else input.created_at;
}

-- The session after one more event, with its new context.
unfoldable pub advance : Event → Object → Session → Session
advance event context session = record session {
  last_event_seq = event.seq;
  snapshot_ver = add64 session.snapshot_ver 1;
  context = context;
  updated_at = event.created_at;
}

-- What `AppendEvent` writes.
unfoldable pub put_event : Event → Session → Store → Store
put_event event session s = record s {
  events = insert event.session_id (log s event.session_id ++ event ∷ []) s.events;
  event_by_request =
      if is_empty event.client_request_id
      then s.event_by_request
      else insert (request_key event.session_id event.client_request_id) event s.event_by_request;
  sessions = insert session.id session s.sessions;
}

-- The event that an earlier request with the id has left; the id is looked up as it was sent.
abbrev earlier_event : AppendEventInput → Store → Option Event
earlier_event input s =
    if is_empty input.client_request_id
    then none
    else lookup (request_key input.session_id input.client_request_id) s.event_by_request

-- The context after an event with the payload.
abbrev pub event_context : Object → Object → Object
event_context payload context =
    note_text payload "summary" "summary" (note_text payload "text" "lastMessage" context)

-- The end of `AppendEvent`, once no earlier event was found.
unfoldable pub append_new_event :
    AppendEventInput → Time → Session → Store → Result Error (Event × Store)
unfolding event_of advance put_event
append_new_event input now session s = do
  size ← marshal_event_payload input.payload
  let event = event_of input now session
  let context = event_context input.payload session.context
  ok (event, put_event event (advance event context session) s)

unfoldable pub append_event : AppendEventInput → Time → Store → Result Error (Event × Store)
append_event input now s = do
  session ← or_fail (lookup input.session_id s.sessions) not_found
  fail_if (not (eqs session.account_id input.account_id)) account_mismatch
  elim (earlier_event input s) [
    | some event ↦ ok (event, s)
    | none ↦ append_new_event input now session s
  ]

-- The loop of `ListEvents`: the events past a sequence number, until there are `limit`.
unfoldable pub page_from : ℕ → ℕ → List Event → List Event
page_from after limit [] = []
page_from after zero (e ∷ es) = []
page_from after (suc limit) (e ∷ es) =
    let rest = page_from after (suc limit) es in
    let more = e ∷ page_from after limit es in if sle e.seq after then rest else more

-- A cursor before the first event is read as 0, and a limit out of bounds as 100.
abbrev pub cursor : ℕ → ℕ
cursor after_seq = if slt after_seq 0 then 0 else after_seq

abbrev pub page_size : ℕ → ℕ
page_size limit = if sle limit 0 || slt 500 limit then 100 else limit

unfoldable pub list_events : String → String → ℕ → ℕ → Store → Result Error (List Event)
list_events account_id session_id after_seq limit s = do
  session ← or_fail (lookup (trim session_id) s.sessions) not_found
  fail_if (not (eqs session.account_id (trim account_id))) account_mismatch
  ok (page_from (cursor after_seq) (page_size limit) (log s session.id))
