-- ===== src/TaskSession/Change/Refines.antt =====
-- internal/tasksession: the operations on namespaces, sessions, events, messages and runs as changes.
use accounts.Base.{
  ◌≡◌, refl, ◌⊎◌, String, Bool, true, false, some, ok, err, arith, inl, inr, >>=-eq-ok,
  if◌then◌else◌,
}
use accounts.Base.Text.{eqs, eqs_iff, trim}
use accounts.Base.Dict.{lookup, contains, insert}
use accounts.TaskSession.Value.{Object, text}
use accounts.TaskSession.Payload.{state_for_run_event, run_queued_event_payload}
use accounts.TaskSession.Types.{
  Time, is_zero, Namespace, Session, Event, TaskRun, CreateNamespaceInput, CreateSessionInput,
  task_run_running, task_run_complete, task_run_failed, task_run_canceled, invalid_input,
  AppendEventInput, AppendMessageInput, EnqueueTaskRunInput, TaskRunEventInput, Store,
  MessageCommandResult, TaskRunEventResult,
}
use accounts.TaskSession.Routing.{normalize_routing}
use accounts.TaskSession.Namespaces.{
  create_namespace, ensure_personal_namespace, personal_namespace,
}
use accounts.TaskSession.Sessions.{create_session}
use accounts.TaskSession.Events.{append_event, append_new_event, event_context}
use accounts.TaskSession.Messages.{
  append_message, new_message, repeat_message, normalize_message, message_parts, message_event,
  queued_event, run_of_message,
}
use accounts.TaskSession.Runs.{
  enqueue_task_run, record_task_run_event, record_new_event, run_event_parts, run_event_of,
  run_after,
}
use accounts.TaskSession.Leases.{is_finished}
use accounts.TaskSession.Change.{
  Change, Continues, same, add_namespace, add_session, add_event, add_message, add_run,
  add_run_event,
}

pub create_namespace-Change :
    (input : CreateNamespaceInput) (now : Time) (s t : Store) (ns : Namespace)
    → create_namespace input now s ≡ ok (ns, t)
    → Change s t
unfolding create_namespace
create_namespace-Change input now s t ns h =
    add_namespace ns (ground arith) (ground arith) (ground arith)

ensure_personal_namespace-cases :
    (account fresh : String) (created now : Time) (s t : Store) (ns : Namespace)
    → ensure_personal_namespace account created fresh now s ≡ ok (ns, t)
    → (t ≡ s)
      ⊎ (create_namespace (personal_namespace (trim account) created fresh) now s ≡ ok (ns, t))
unfolding ensure_personal_namespace
ensure_personal_namespace-cases account fresh created now s t ns h = ground arith

pub ensure_personal_namespace-Change :
    (account fresh : String) (created now : Time) (s t : Store) (ns : Namespace)
    → ensure_personal_namespace account created fresh now s ≡ ok (ns, t)
    → Change s t
ensure_personal_namespace-Change account fresh created now s t ns h =
    elim (ensure_personal_namespace-cases account fresh created now s t ns h) [
      | inl e ↦ same e
      | inr made ↦ create_namespace-Change _ now s t ns made
    ]

pub create_session-Change :
    (input : CreateSessionInput) (now : Time) (s t : Store) (x : Session)
    → create_session input now s ≡ ok (x, t)
    → Change s t
unfolding create_session
create_session-Change input now s t x h =
    add_session x (ground arith) (ground arith) (ground arith) (ground arith) (ground arith)

append_new_event-Change :
    (input : AppendEventInput) (now : Time) (x : Session) (s t : Store) (e : Event)
    → lookup input.session_id s.sessions ≡ some x
    → append_new_event input now x s ≡ ok (e, t)
    → Change s t
unfolding append_new_event
append_new_event-Change input now x s t e f h =
    add_event e (event_context input.payload x.context) x (ground arith) (ground arith)
      (ground arith)

append_event-cases :
    (input : AppendEventInput) (now : Time) (s t : Store) (e : Event)
    → append_event input now s ≡ ok (e, t)
    → (x : Session) × (lookup input.session_id s.sessions ≡ some x)
      × ((t ≡ s) ⊎ (append_new_event input now x s ≡ ok (e, t)))
unfolding append_event
append_event-cases input now s t e h = ground arith

pub append_event-Change :
    (input : AppendEventInput) (now : Time) (s t : Store) (e : Event)
    → append_event input now s ≡ ok (e, t)
    → Change s t
append_event-Change input now s t e h =
    let (x, f, how) = append_event-cases input now s t e h in
    elim how [ inl kept ↦ same kept | inr new ↦ append_new_event-Change input now x s t e f new ]

message_parts-fresh :
    (input : AppendMessageInput) (x : Session) (s : Store) (p : Object × Object)
    → message_parts input x s ≡ ok p
    → contains input.task_run_id s.task_runs ≡ false
unfolding message_parts
message_parts-fresh input x s p h = ground arith

new_message-Change :
    (input : AppendMessageInput) (routing : Object) (x : Session) (s t : Store)
    (r : MessageCommandResult)
    → lookup input.session_id s.sessions ≡ some x
    → x.account_id ≡ input.account_id
    → new_message input routing x s ≡ ok (r, t)
    → Change s t
unfolding new_message
new_message-Change input routing x s t r f a h =
    let (p, made, rest) = >>=-eq-ok (message_parts input x s) _ h in
    let m = message_event input p.0 x in
    let q = queued_event input (run_queued_event_payload input.task_run_id) m in
    add_message m q (run_of_message input x) routing p.1 x (ground arith) refl refl
      (record {
        fresh = message_parts-fresh input x s p made;
        queued = refl;
        owned =
            ground
              (arith, eqs_iff x.account_id input.account_id, eqs_iff x.namespace_id x.namespace_id);
      })
      (ground arith)

append_message-cases :
    (raw : AppendMessageInput) (fresh : String) (now : Time) (s t : Store)
    (r : MessageCommandResult)
    → append_message raw fresh now s ≡ ok (r, t)
    → let input = normalize_message raw fresh now in
      (routing : Object) × (normalize_routing input.routing ≡ ok routing)
      × (x : Session) × (lookup input.session_id s.sessions ≡ some x)
      × (eqs x.account_id input.account_id ≡ true)
      × ((t ≡ s) ⊎ (new_message input routing x s ≡ ok (r, t)))
unfolding append_message repeat_message
append_message-cases raw fresh now s t r h = ground arith

pub append_message-Change :
    (raw : AppendMessageInput) (fresh : String) (now : Time) (s t : Store)
    (r : MessageCommandResult)
    → append_message raw fresh now s ≡ ok (r, t)
    → Change s t
append_message-Change raw fresh now s t r h =
    let (routing, _, x, f, a, how) = append_message-cases raw fresh now s t r h in
    elim how [
      | inl kept ↦ same kept
      | inr new ↦ new_message-Change _ routing x s t r f ((eqs_iff _ _).0 a) new
    ]

pub enqueue_task_run-Change :
    (input : EnqueueTaskRunInput) (now : Time) (s t : Store) (run : TaskRun)
    → enqueue_task_run input now s ≡ ok (run, t)
    → Change s t
unfolding enqueue_task_run
enqueue_task_run-Change input now s t run h =
    add_run run (record { fresh = ground arith; queued = ground arith; owned = ground arith })
      (ground arith)

-- What an event of a worker can make of the state of a run.
pick-state :
    (kept completed failed cancelled : Bool) (a b : String)
    → (if kept
        then ok a
        else if completed
        then ok task_run_complete
        else if failed
        then ok task_run_failed
        else if cancelled
        then ok task_run_canceled
        else err invalid_input)
      ≡ ok b
    → (b ≡ a) ⊎ (is_finished b ≡ true)
pick-state true completed failed cancelled a b h = inl (cc)
pick-state false true failed cancelled a b h = let e : b ≡ task_run_complete = cc in inr (rw e)
pick-state false false true cancelled a b h = let e : b ≡ task_run_failed = cc in inr (rw e)
pick-state false false false true a b h = let e : b ≡ task_run_canceled = cc in inr (rw e)
pick-state false false false false a b h = cc

state_for_run_event-Follows :
    (type a b : String) → state_for_run_event type a ≡ ok b → (b ≡ a) ⊎ (is_finished b ≡ true)
unfolding state_for_run_event
state_for_run_event-Follows type a b h = pick-state _ _ _ _ a b h

run_event_parts-Follows :
    (input : TaskRunEventInput) (run : TaskRun) (p : String × Object)
    → run_event_parts input run ≡ ok p
    → (eqs run.state task_run_running ≡ true) × ((p.0 ≡ run.state) ⊎ (is_finished p.0 ≡ true))
unfolding run_event_parts
run_event_parts-Follows input run p h =
    ground (arith, state_for_run_event-Follows (trim input.type) run.state p.0)

run_after-Continues :
    (input : TaskRunEventInput) (at : Time) (state : String) (run : TaskRun)
    → eqs run.state task_run_running ≡ true
    → (state ≡ run.state) ⊎ (is_finished state ≡ true)
    → Continues run (run_after input at state run)
unfolding run_after
run_after-Continues input at state run running how = record {
  same_id = refl;
  same_account = refl;
  same_namespace = refl;
  same_session = refl;
  same_fence = refl;
  follows = elim how [
    | inl kept ↦ inl kept
    | inr done ↦ inr (inl ((eqs_iff run.state task_run_running).0 running, done))
  ];
}

record_new_event-Change :
    (k : String) (input : TaskRunEventInput) (at : Time) (run : TaskRun) (x : Session) (s t : Store)
    (r : TaskRunEventResult)
    → lookup k s.task_runs ≡ some run
    → lookup run.session_id s.sessions ≡ some x
    → record_new_event input at run x s ≡ ok (r, t)
    → Change s t
unfolding record_new_event
record_new_event-Change k input at run x s t r f g h =
    let (p, made, rest) = >>=-eq-ok (run_event_parts input run) _ h in
    let facts = run_event_parts-Follows input run p made in
    add_run_event (run_event_of input at p.1 run x) (insert "lastRunState" (text p.0) x.context) k
      run (run_after input at p.0 run) x g refl f
      (run_after-Continues input at p.0 run facts.0 facts.1) (ground arith)

record_task_run_event-cases :
    (input : TaskRunEventInput) (now : Time) (s t : Store) (r : TaskRunEventResult)
    → record_task_run_event input now s ≡ ok (r, t)
    → let at : Time = if is_zero input.created_at then now else input.created_at in
      (run : TaskRun) × (lookup (trim input.task_run_id) s.task_runs ≡ some run)
      × (x : Session) × (lookup run.session_id s.sessions ≡ some x)
      × ((t ≡ s) ⊎ (record_new_event input at run x s ≡ ok (r, t)))
unfolding record_task_run_event
record_task_run_event-cases input now s t r h = ground arith

pub record_task_run_event-Change :
    (input : TaskRunEventInput) (now : Time) (s t : Store) (r : TaskRunEventResult)
    → record_task_run_event input now s ≡ ok (r, t)
    → Change s t
record_task_run_event-Change input now s t r h =
    let at : Time = if is_zero input.created_at then now else input.created_at in
    let (run, f, x, g, how) = record_task_run_event-cases input now s t r h in
    elim how [
      | inl kept ↦ same kept
      | inr new ↦ record_new_event-Change (trim input.task_run_id) input at run x s t r f g new
    ]
