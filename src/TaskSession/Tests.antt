-- ===== src/TaskSession/Tests.antt =====
-- Runs of the in-memory store of internal/tasksession on concrete calls: a personal namespace, a session,
-- a message, the claim of its run and the run's end.
mod Theorems
use accounts.Base.{ℕ, ◌≡◌, refl, subst, sort_by, String, [], ◌∷◌, false}
use accounts.Base.Text.{trim}
use accounts.TaskSession.Value.{text, int, list, object, cons, nil, field, end, flag}
use accounts.TaskSession.Types.{
  Store, TaskRun, Namespace, Session, Event, AppendMessageInput, ClaimInput, CreateSessionInput,
  TaskRunEventInput,
}
use accounts.TaskSession.Machine.{
  empty_store, Reach, start, next, step, ensures_namespace, creates_session, appends_message,
  claims, records,
}
use accounts.TaskSession.Namespaces.{create_namespace, ensure_personal_namespace}
use accounts.TaskSession.Sessions.{create_session}
use accounts.TaskSession.Messages.{append_message, new_message, message_parts, normalize_message}
use accounts.TaskSession.Payload.{
  message_event_payload, run_queued_event_payload, marshal_event_payload, append_message_to_context,
  message_context_value, marshal_context_summary, state_for_run_event, task_run_event_payload,
}
use accounts.TaskSession.Routing.{normalize_routing}
use accounts.TaskSession.Claim.{
  claim_next, choose, normalize_claim, eligible_namespace_ids, try_namespace, count_active,
  seen_namespaces,
}
use accounts.TaskSession.Runs.{record_task_run_event, record_new_event, run_event_parts}

abbrev pub session_input : CreateSessionInput
session_input = record {
  id = "s1";
  account_id = "acct";
  namespace_id = "ns1";
  title = " Demo ";
  created_at = 0;
}

abbrev pub message : AppendMessageInput
message = record {
  account_id = " acct";
  session_id = "s1";
  actor_id = "u";
  client_request_id = "req1 ";
  text = " hello ";
  routing = [];
  task_run_id = "";
  priority = 0;
  not_before = 0;
  created_at = 0;
}

abbrev pub claim_input : ClaimInput
claim_input = record {
  account_id = "acct";
  worker_id = "w";
  now = 0;
  max_global_active = 0;
  lease_ttl = 0;
}

abbrev pub done_input : TaskRunEventInput
done_input = record {
  account_id = "acct";
  task_run_id = "run1";
  actor_id = "w";
  client_request_id = "done";
  fence = 1;
  lease_token = "tok";
  type = "run.completed";
  payload = [];
  bridge_ref = "";
  created_at = 0;
}

abbrev pub store2 : Store
store2 = record {
  namespaces =
      (
        "ns1",
        record {
          id = "ns1";
          account_id = "acct";
          slug = "personal";
          display_name = "Personal";
          max_active_runs = 2;
          created_at = 100;
        },
      )
      ∷ [];
  namespaces_by_acct = ("acct", ("personal", "ns1") ∷ []) ∷ [];
  sessions =
      (
        "s1",
        record {
          id = "s1";
          account_id = "acct";
          namespace_id = "ns1";
          title = "Demo";
          snapshot_ver = 0;
          last_event_seq = 0;
          lifecycle_state = "ready";
          context = [];
          created_at = 101;
          updated_at = 101;
        },
      )
      ∷ [];
  events = [];
  event_by_request = [];
  task_runs = [];
  run_routing = [];
  last_claim_namespace = [];
}

abbrev pub store3 : Store
store3 = record {
  namespaces =
      (
        "ns1",
        record {
          id = "ns1";
          account_id = "acct";
          slug = "personal";
          display_name = "Personal";
          max_active_runs = 2;
          created_at = 100;
        },
      )
      ∷ [];
  namespaces_by_acct = ("acct", ("personal", "ns1") ∷ []) ∷ [];
  sessions =
      (
        "s1",
        record {
          id = "s1";
          account_id = "acct";
          namespace_id = "ns1";
          title = "Demo";
          snapshot_ver = 2;
          last_event_seq = 2;
          lifecycle_state = "ready";
          context =
              ("lastMessage", text "hello")
              ∷ (
                "messages",
                list (
                    cons
                      (object (
                        field "id" (text "run1") (
                          field "role" (text "user") (
                            field "text" (text "hello") (
                              field "timestampMs" (int 18446681938112751616)
                                (field "pending" (flag false) (field "error" (flag false) end)))))))
                      nil),
              )
              ∷ [];
          created_at = 101;
          updated_at = 102;
        },
      )
      ∷ [];
  events =
      (
        "s1",
        record {
          session_id = "s1";
          seq = 1;
          type = "message.created";
          payload =
              ("schemaVersion", int 1) ∷ ("text", text "hello") ∷ ("taskRunId", text "run1") ∷ [];
          actor_id = "u";
          client_request_id = "req1";
          created_at = 102;
        }
            ∷ record {
              session_id = "s1";
              seq = 2;
              type = "run.queued";
              payload =
                  ("schemaVersion", int 1)
                  ∷ ("taskRunId", text "run1")
                  ∷ ("state", text "queued")
                  ∷ [];
              actor_id = "u";
              client_request_id = "";
              created_at = 102;
            }
            ∷ [],
      )
      ∷ [];
  event_by_request =
      (
        "s1\0req1",
        record {
          session_id = "s1";
          seq = 1;
          type = "message.created";
          payload =
              ("schemaVersion", int 1) ∷ ("text", text "hello") ∷ ("taskRunId", text "run1") ∷ [];
          actor_id = "u";
          client_request_id = "req1";
          created_at = 102;
        },
      )
      ∷ [];
  task_runs =
      (
        "run1",
        record {
          id = "run1";
          account_id = "acct";
          namespace_id = "ns1";
          session_id = "s1";
          client_request_id = "req1";
          state = "queued";
          priority = 0;
          not_before = 102;
          created_at = 102;
          updated_at = 102;
          attempt = 0;
          lease_owner = "";
          lease_token = "";
          lease_expires = 0;
          fence = 0;
          bridge_ref = "";
        },
      )
      ∷ [];
  run_routing = ("run1", []) ∷ [];
  last_claim_namespace = [];
}

abbrev pub store4 : Store
store4 = record {
  namespaces =
      (
        "ns1",
        record {
          id = "ns1";
          account_id = "acct";
          slug = "personal";
          display_name = "Personal";
          max_active_runs = 2;
          created_at = 100;
        },
      )
      ∷ [];
  namespaces_by_acct = ("acct", ("personal", "ns1") ∷ []) ∷ [];
  sessions =
      (
        "s1",
        record {
          id = "s1";
          account_id = "acct";
          namespace_id = "ns1";
          title = "Demo";
          snapshot_ver = 2;
          last_event_seq = 2;
          lifecycle_state = "ready";
          context =
              ("lastMessage", text "hello")
              ∷ (
                "messages",
                list (
                    cons
                      (object (
                        field "id" (text "run1") (
                          field "role" (text "user") (
                            field "text" (text "hello") (
                              field "timestampMs" (int 18446681938112751616)
                                (field "pending" (flag false) (field "error" (flag false) end)))))))
                      nil),
              )
              ∷ [];
          created_at = 101;
          updated_at = 102;
        },
      )
      ∷ [];
  events =
      (
        "s1",
        record {
          session_id = "s1";
          seq = 1;
          type = "message.created";
          payload =
              ("schemaVersion", int 1) ∷ ("text", text "hello") ∷ ("taskRunId", text "run1") ∷ [];
          actor_id = "u";
          client_request_id = "req1";
          created_at = 102;
        }
            ∷ record {
              session_id = "s1";
              seq = 2;
              type = "run.queued";
              payload =
                  ("schemaVersion", int 1)
                  ∷ ("taskRunId", text "run1")
                  ∷ ("state", text "queued")
                  ∷ [];
              actor_id = "u";
              client_request_id = "";
              created_at = 102;
            }
            ∷ [],
      )
      ∷ [];
  event_by_request =
      (
        "s1\0req1",
        record {
          session_id = "s1";
          seq = 1;
          type = "message.created";
          payload =
              ("schemaVersion", int 1) ∷ ("text", text "hello") ∷ ("taskRunId", text "run1") ∷ [];
          actor_id = "u";
          client_request_id = "req1";
          created_at = 102;
        },
      )
      ∷ [];
  task_runs =
      (
        "run1",
        record {
          id = "run1";
          account_id = "acct";
          namespace_id = "ns1";
          session_id = "s1";
          client_request_id = "req1";
          state = "running";
          priority = 0;
          not_before = 102;
          created_at = 102;
          updated_at = 103;
          attempt = 1;
          lease_owner = "w";
          lease_token = "tok";
          lease_expires = 60000000103;
          fence = 1;
          bridge_ref = "";
        },
      )
      ∷ [];
  run_routing = ("run1", []) ∷ [];
  last_claim_namespace = ("acct", "ns1") ∷ [];
}

abbrev pub store5 : Store
store5 = record {
  namespaces =
      (
        "ns1",
        record {
          id = "ns1";
          account_id = "acct";
          slug = "personal";
          display_name = "Personal";
          max_active_runs = 2;
          created_at = 100;
        },
      )
      ∷ [];
  namespaces_by_acct = ("acct", ("personal", "ns1") ∷ []) ∷ [];
  sessions =
      (
        "s1",
        record {
          id = "s1";
          account_id = "acct";
          namespace_id = "ns1";
          title = "Demo";
          snapshot_ver = 3;
          last_event_seq = 3;
          lifecycle_state = "ready";
          context =
              ("lastMessage", text "hello")
              ∷ (
                "messages",
                list (
                    cons
                      (object (
                        field "id" (text "run1") (
                          field "role" (text "user") (
                            field "text" (text "hello") (
                              field "timestampMs" (int 18446681938112751616)
                                (field "pending" (flag false) (field "error" (flag false) end)))))))
                      nil),
              )
              ∷ ("lastRunState", text "completed")
              ∷ [];
          created_at = 101;
          updated_at = 104;
        },
      )
      ∷ [];
  events =
      (
        "s1",
        record {
          session_id = "s1";
          seq = 1;
          type = "message.created";
          payload =
              ("schemaVersion", int 1) ∷ ("text", text "hello") ∷ ("taskRunId", text "run1") ∷ [];
          actor_id = "u";
          client_request_id = "req1";
          created_at = 102;
        }
            ∷ record {
              session_id = "s1";
              seq = 2;
              type = "run.queued";
              payload =
                  ("schemaVersion", int 1)
                  ∷ ("taskRunId", text "run1")
                  ∷ ("state", text "queued")
                  ∷ [];
              actor_id = "u";
              client_request_id = "";
              created_at = 102;
            }
            ∷ record {
              session_id = "s1";
              seq = 3;
              type = "run.completed";
              payload =
                  ("schemaVersion", int 1)
                  ∷ ("taskRunId", text "run1")
                  ∷ ("fence", int 1)
                  ∷ ("state", text "completed")
                  ∷ [];
              actor_id = "w";
              client_request_id = "done";
              created_at = 104;
            }
            ∷ [],
      )
      ∷ [];
  event_by_request =
      (
        "s1\0req1",
        record {
          session_id = "s1";
          seq = 1;
          type = "message.created";
          payload =
              ("schemaVersion", int 1) ∷ ("text", text "hello") ∷ ("taskRunId", text "run1") ∷ [];
          actor_id = "u";
          client_request_id = "req1";
          created_at = 102;
        },
      )
      ∷ (
        "s1\0done",
        record {
          session_id = "s1";
          seq = 3;
          type = "run.completed";
          payload =
              ("schemaVersion", int 1)
              ∷ ("taskRunId", text "run1")
              ∷ ("fence", int 1)
              ∷ ("state", text "completed")
              ∷ [];
          actor_id = "w";
          client_request_id = "done";
          created_at = 104;
        },
      )
      ∷ [];
  task_runs =
      (
        "run1",
        record {
          id = "run1";
          account_id = "acct";
          namespace_id = "ns1";
          session_id = "s1";
          client_request_id = "req1";
          state = "completed";
          priority = 0;
          not_before = 102;
          created_at = 102;
          updated_at = 104;
          attempt = 1;
          lease_owner = "w";
          lease_token = "tok";
          lease_expires = 60000000103;
          fence = 1;
          bridge_ref = "";
        },
      )
      ∷ [];
  run_routing = ("run1", []) ∷ [];
  last_claim_namespace = ("acct", "ns1") ∷ [];
}

abbrev pub queued_run : TaskRun
queued_run = record {
  id = "run1";
  account_id = "acct";
  namespace_id = "ns1";
  session_id = "s1";
  client_request_id = "req1";
  state = "queued";
  priority = 0;
  not_before = 102;
  created_at = 102;
  updated_at = 102;
  attempt = 0;
  lease_owner = "";
  lease_token = "";
  lease_expires = 0;
  fence = 0;
  bridge_ref = "";
}

abbrev pub running_run : TaskRun
running_run = record {
  id = "run1";
  account_id = "acct";
  namespace_id = "ns1";
  session_id = "s1";
  client_request_id = "req1";
  state = "running";
  priority = 0;
  not_before = 102;
  created_at = 102;
  updated_at = 103;
  attempt = 1;
  lease_owner = "w";
  lease_token = "tok";
  lease_expires = 60000000103;
  fence = 1;
  bridge_ref = "";
}

abbrev pub finished_run : TaskRun
finished_run = record {
  id = "run1";
  account_id = "acct";
  namespace_id = "ns1";
  session_id = "s1";
  client_request_id = "req1";
  state = "completed";
  priority = 0;
  not_before = 102;
  created_at = 102;
  updated_at = 104;
  attempt = 1;
  lease_owner = "w";
  lease_token = "tok";
  lease_expires = 60000000103;
  fence = 1;
  bridge_ref = "";
}

abbrev pub personal : Namespace
personal = record {
  id = "ns1";
  account_id = "acct";
  slug = "personal";
  display_name = "Personal";
  max_active_runs = 2;
  created_at = 100;
}

abbrev pub demo : Session
demo = record {
  id = "s1";
  account_id = "acct";
  namespace_id = "ns1";
  title = "Demo";
  snapshot_ver = 2;
  last_event_seq = 2;
  lifecycle_state = "ready";
  context =
      ("lastMessage", text "hello")
      ∷ (
        "messages",
        list (
            cons
              (object (
                field "id" (text "run1") (
                  field "role" (text "user") (
                    field "text" (text "hello") (
                      field "timestampMs" (int 18446681938112751616)
                        (field "pending" (flag false) (field "error" (flag false) end)))))))
              nil),
      )
      ∷ [];
  created_at = 101;
  updated_at = 102;
}

abbrev pub queued_event : Event
queued_event = record {
  session_id = "s1";
  seq = 2;
  type = "run.queued";
  payload = ("schemaVersion", int 1) ∷ ("taskRunId", text "run1") ∷ ("state", text "queued") ∷ [];
  actor_id = "u";
  client_request_id = "";
  created_at = 102;
}

-- Each call leads to the next store.
pub step2 :
    step
      (creates_session session_input)
      ""
      101
      (step (ensures_namespace "acct" 0) "ns1" 100 empty_store)
    ≡ store2
unfolding step ensure_personal_namespace create_namespace create_session trim
step2 = refl

pub step3 : step (appends_message message) "run1" 102 store2 ≡ store3
unfolding step append_message normalize_message new_message message_parts normalize_routing
    message_event_payload run_queued_event_payload marshal_event_payload append_message_to_context
    message_context_value marshal_context_summary trim
step3 = refl

pub step4 : step (claims claim_input) "tok" 103 store3 ≡ store4
unfolding step claim_next choose normalize_claim eligible_namespace_ids try_namespace count_active
    sort_by seen_namespaces trim
step4 = refl

pub step5 : step (records done_input) "" 104 store4 ≡ store5
unfolding step record_task_run_event record_new_event run_event_parts state_for_run_event
    task_run_event_payload marshal_event_payload trim
step5 = refl

pub reach2 : Reach store2
reach2 = subst Reach step2 (
    next (next start (ensures_namespace "acct" 0) "ns1" 100) (creates_session session_input) "" 101)

pub reach3 : Reach store3
reach3 = subst Reach step3 (next reach2 (appends_message message) "run1" 102)

pub reach4 : Reach store4
reach4 = subst Reach step4 (next reach3 (claims claim_input) "tok" 103)

pub reach5 : Reach store5
reach5 = subst Reach step5 (next reach4 (records done_input) "" 104)
