-- ===== src/TaskSession/Payload.antt =====
-- internal/tasksession: what an event's payload or a session's context may hold, and the payloads
-- and contexts that the store builds.
use Prim.Native.Char.{code}
use accounts.Base.{
  ℕ, ◌+◌, ◌-◌, ◌/◌, ◌%◌, String, Bool, true, false, ◌||◌, ◌&&◌, Option, some, List, [], ◌∷◌, ◌++◌,
  length, drop, ltb, ◌==◌, if◌then◌else◌, Result, ok, err, ◌>>◌, fail_if,
}
use accounts.Base.Word.{word}
use accounts.Base.Text.{eqs, is_empty, trim, lower}
use accounts.Base.Dict.{lookup, insert}
use accounts.TaskSession.Value.{
  Value, Items, Fields, Object, null, flag, text, int, whole, fractional, list, object, nil, cons,
  end, field, to_fields, items_to_list, list_to_items, value_len,
}
use accounts.TaskSession.Types.{
  Time, Error, artifact_payload, payload_too_large, invalid_input, task_run_queued,
  task_run_running, task_run_canceled, task_run_complete, task_run_failed, event_run_running,
  event_run_progressed, event_assistant_message_created, event_run_completed, event_run_failed,
  event_run_cancelled,
}

abbrev pub max_event_payload_bytes : ℕ
max_event_payload_bytes = 16384

abbrev pub max_snapshot_bytes : ℕ
max_snapshot_bytes = 131072

abbrev pub max_snapshot_messages : ℕ
max_snapshot_messages = 100

-- The code points of a key in lower case, without the characters that the replacer drops.
normalized : String → List ℕ
normalized String.[] = []
normalized (String.◌∷◌ c s) =
    let n = code c in
    let rest = normalized s in if n == b'_' || n == b'-' || n == b'.' then rest else lower n ∷ rest

same_codes : List ℕ → String → Bool
same_codes [] String.[] = true
same_codes [] (String.◌∷◌ d t) = false
same_codes (c ∷ s) String.[] = false
same_codes (c ∷ s) (String.◌∷◌ d t) = c == code d && same_codes s t

-- The `switch` of `containsArtifactContent`.
unfoldable pub is_artifact_key : String → Bool
unfolding normalized same_codes lower
is_artifact_key key =
    let k = normalized (trim key) in
    same_codes k "artifactbytes"
    || same_codes k "filebytes"
    || same_codes k "filecontent"
    || same_codes k "attachmentcontent"
    || same_codes k "base64"
    || same_codes k "blob"
    || same_codes k "toollog"
    || same_codes k "toollogs"

unfoldable mutual
  unfolding is_artifact_key

  pub contains_artifact_content : Value → Bool
  contains_artifact_content null = false
  contains_artifact_content (flag b) = false
  contains_artifact_content (text s) = false
  contains_artifact_content (int n) = false
  contains_artifact_content (whole n) = false
  contains_artifact_content (fractional s) = false
  contains_artifact_content (list vs) = items_contain vs
  contains_artifact_content (object fs) = fields_contain fs

  pub items_contain : Items → Bool
  items_contain nil = false
  items_contain (cons v vs) = contains_artifact_content v || items_contain vs

  pub fields_contain : Fields → Bool
  fields_contain end = false
  fields_contain (field k v fs) =
      is_artifact_key k || contains_artifact_content v || fields_contain fs

-- `marshalEventPayload` and `marshalContextSummary`: no caller here uses the bytes, so the result is
-- their number.
marshal_within : ℕ → Object → Result Error ℕ
unfolding contains_artifact_content value_len
marshal_within limit o = do
  let v = object (to_fields o)
  fail_if (contains_artifact_content v) artifact_payload
  fail_if (ltb limit (value_len v)) payload_too_large
  ok (value_len v)

unfoldable pub marshal_event_payload : Object → Result Error ℕ
unfolding marshal_within
marshal_event_payload payload = marshal_within max_event_payload_bytes payload

unfoldable pub marshal_context_summary : Object → Result Error ℕ
unfolding marshal_within
marshal_context_summary context = marshal_within max_snapshot_bytes context

-- `v.(string)`, with "" where that fails.
abbrev pub as_text : Option Value → String
as_text (some (text s)) = s
as_text _ = ""

-- `v.([]any)`, with nil where that fails.
abbrev pub as_list : Option Value → List Value
as_list (some (list vs)) = items_to_list vs
as_list _ = []

-- The loop of `appendMessageToContext`, which drops the oldest messages until the context fits.
fit_messages : Object → List Value → Result Error Object
fit_messages next [] = err payload_too_large
fit_messages next (m ∷ messages) =
    let shorter = fit_messages next messages in
    let whole_context = insert "messages" (list (list_to_items (m ∷ messages))) next in
    elim (marshal_context_summary whole_context) [
      | ok n ↦ ok whole_context
      | err payload_too_large ↦ shorter
      | err e ↦ err e
    ]

-- The last 100 messages.
abbrev recent : List Value → List Value
recent messages =
    if ltb max_snapshot_messages (length messages)
    then drop (length messages - max_snapshot_messages) messages
    else messages

-- `appendMessageToContext`. `message["text"]` is a string wherever it is called.
unfoldable pub append_message_to_context : Object → Object → Result Error Object
unfolding fit_messages
append_message_to_context context message =
    fit_messages (insert "lastMessage" (text (trim (as_text (lookup "text" message)))) context)
      (recent (as_list (lookup "messages" context) ++ object (to_fields message) ∷ []))

unfoldable pub message_event_payload : String → String → Result Error Object
message_event_payload t task_run_id = do
  fail_if (is_empty (trim t) || is_empty (trim task_run_id)) invalid_input
  ok (
      ("schemaVersion", int 1)
      ∷ ("text", text (trim t))
      ∷ ("taskRunId", text (trim task_run_id))
      ∷ [])

unfoldable pub run_queued_event_payload : String → Object
run_queued_event_payload task_run_id =
    ("schemaVersion", int 1)
    ∷ ("taskRunId", text (trim task_run_id))
    ∷ ("state", text task_run_queued)
    ∷ []

-- Milliseconds from Go's zero time to the epoch of Unix.
abbrev unix_epoch_ms : ℕ
unix_epoch_ms = 62135596800000

abbrev unix_milli : Time → ℕ
unix_milli t = (t / 1000000 + word - unix_epoch_ms) % word

unfoldable pub message_context_value : String → String → Time → Object
message_context_value t task_run_id created_at =
    ("id", text (trim task_run_id))
    ∷ ("role", text "user")
    ∷ ("text", text (trim t))
    ∷ ("timestampMs", int (unix_milli created_at))
    ∷ ("pending", flag false)
    ∷ ("error", flag false)
    ∷ []

unfoldable pub task_run_event_payload : Object → String → ℕ → String → Object
task_run_event_payload input task_run_id fence state = insert "state" (text state) (
    insert "fence" (int fence)
      (insert "taskRunId" (text (trim task_run_id)) (insert "schemaVersion" (int 1) input)))

-- The next state; the Boolean of the source, whether the run has settled, goes unused there.
unfoldable pub state_for_run_event : String → String → Result Error String
state_for_run_event event_type current_state =
    let t = trim event_type in
    if eqs t event_run_running
      || eqs t event_run_progressed
      || eqs t event_assistant_message_created
    then ok current_state
    else if eqs t event_run_completed
    then ok task_run_complete
    else if eqs t event_run_failed
    then ok task_run_failed
    else if eqs t event_run_cancelled
    then ok task_run_canceled
    else err invalid_input

unfoldable pub cancel_requested_payload : String → Object
cancel_requested_payload task_run_id =
    ("schemaVersion", int 1)
    ∷ ("taskRunId", text task_run_id)
    ∷ ("state", text task_run_running)
    ∷ []

unfoldable pub cancelled_before_start_payload : String → Object
cancelled_before_start_payload task_run_id =
    ("schemaVersion", int 1)
    ∷ ("taskRunId", text task_run_id)
    ∷ ("state", text task_run_canceled)
    ∷ ("reason", text "cancelled_before_start")
    ∷ []
