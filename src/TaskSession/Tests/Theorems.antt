-- ===== src/TaskSession/Tests/Theorems.antt =====
-- The theorems on internal/tasksession at the concrete stores.
use accounts.Base.{
  ℕ, ◌<◌, ◌≤◌, ◌%◌, ◌+◌, ◌≡◌, ◌≢◌, refl, String, some, List, [], ◌∷◌, Bool, true, false, arith,
  length, take, drop, ok, err, Result, In, inl, inr, All,
}
use accounts.TaskSession.Events.{append_new_event}
use accounts.TaskSession.Payload.{marshal_event_payload}
use accounts.Base.{after}
use accounts.TaskSession.Value.{text, int, list, object, cons, nil, field, end, flag}
use accounts.Base.Word.{word}
use accounts.Base.Word.{add64}
use accounts.Base.Text.{trim}
use accounts.Base.Dict.{lookup, values}
use accounts.TaskSession.Types.{
  Store, TaskRun, Session, Namespace, Event, TaskRunEventInput, RenewLeaseInput, RenewLeaseResult,
  AppendEventInput, Error,
}
use accounts.TaskSession.Tests.{
  store3, store4, store5, reach3, reach4, reach5, claim_input, done_input, queued_run, running_run,
  finished_run, personal, demo, queued_event,
}
use accounts.TaskSession.Machine.{step, claims}
use accounts.TaskSession.Events.{log, list_events, append_event}
use accounts.TaskSession.Claim.{
  claim_next, choose, normalize_claim, eligible_namespace_ids, try_namespace, count_active,
  seen_namespaces, count_active_for_namespace, is_candidate, claimed,
}
use accounts.TaskSession.Runs.{record_task_run_event}
use accounts.TaskSession.Leases.{renew_lease}
use accounts.TaskSession.Limits.{Reach-count_active, Reach-count_active_for_namespace}
use accounts.TaskSession.Tenancy.{Reach-tenant}
use accounts.TaskSession.Counters.{Reach-counters, Reach-seq}
use accounts.TaskSession.Replay.{list_events-take}
use accounts.TaskSession.Lifecycle.{Lives, step-Lives, step-finished}
use accounts.TaskSession.Fairness.{IsBest}
use accounts.TaskSession.Progress.{claim_next-progress, claim_next-IsBest}
use accounts.TaskSession.Fencing.{claim_next-fences, claim_next-renew}
use accounts.TaskSession.Retry.{append_event-retry, append_event-padded}
use accounts.TaskSession.Invariant.Keys.{Reach-HasKeys}

Reach-count_active_example : count_active "acct" store4.task_runs ≤ 5
Reach-count_active_example = Reach-count_active reach4 "acct"

Reach-count_active_for_namespace_example :
    (count_active_for_namespace "acct" "ns1" store4.task_runs ≤ personal.max_active_runs % word)
    × (personal.max_active_runs % word ≤ 2)
Reach-count_active_for_namespace_example =
    Reach-count_active_for_namespace reach4 "acct" "ns1" personal refl

Reach-tenant_example :
    (x : Session) × (ns : Namespace) × (lookup "s1" store4.sessions ≡ some x)
    × (lookup "ns1" store4.namespaces ≡ some ns)
    × (x.account_id ≡ "acct")
    × (x.namespace_id ≡ "ns1")
    × (ns.account_id ≡ "acct")
Reach-tenant_example = Reach-tenant reach4 "run1" running_run refl

Reach-counters_example :
    (demo.last_event_seq ≡ length (log store4 "s1"))
    × (demo.snapshot_ver ≡ length (log store4 "s1"))
Reach-counters_example = Reach-counters reach4 "s1" demo refl (omega arith)

Reach-seq_example : queued_event.seq ≡ 1 + 1
Reach-seq_example = Reach-seq reach4 "s1" demo 1 queued_event refl (omega arith) refl

list_events-take_example :
    list_events "acct" "s1" 1 10 store4 ≡ ok (take 10 (drop 1 (log store4 "s1")))
unfolding trim
list_events-take_example =
    list_events-take "acct" "s1" 1 10 demo reach4 refl refl (omega arith) (omega arith)

step-Lives_example :
    (run' : TaskRun) × (lookup "run1" (step (claims claim_input) "tok" 103 store3).task_runs
      ≡ some run')
    × Lives queued_run run'
step-Lives_example = step-Lives reach3 (claims claim_input) "tok" 103 "run1" queued_run refl

step-finished_example :
    (run' : TaskRun) × (lookup "run1" (step (claims claim_input) "tok" 105 store5).task_runs
      ≡ some run')
    × (run'.state ≡ "completed")
    × (run'.fence ≡ 1)
step-finished_example =
    step-finished reach5 (claims claim_input) "tok" 105 "run1" finished_run refl refl

claim_next-progress_example :
    (r : TaskRun) × (t : Store) × (claim_next claim_input "tok" 103 store3 ≡ ok (r, t))
unfolding normalize_claim count_active count_active_for_namespace
claim_next-progress_example =
    claim_next-progress claim_input "tok" 103 store3 queued_run refl (inl refl) refl refl refl

-- The claim, as the other theorems take it.
claims_run : claim_next claim_input "tok" 103 store3 ≡ ok (running_run, store4)
unfolding claim_next choose normalize_claim eligible_namespace_ids try_namespace count_active
    accounts.Base.sort_by seen_namespaces
claims_run = refl

claim_next-IsBest_example :
    (run : TaskRun) × (running_run ≡ claimed (normalize_claim claim_input 103) "tok" run)
    × (is_candidate "acct" run.namespace_id (normalize_claim claim_input 103).now run ≡ true)
    × In run (values store3.task_runs)
    × All
        (IsBest "acct" run.namespace_id (normalize_claim claim_input 103).now run)
        (values store3.task_runs)
claim_next-IsBest_example =
    claim_next-IsBest claim_input "tok" 103 store3 store4 running_run claims_run

abbrev stale_input : TaskRunEventInput
stale_input = record done_input { fence = 0 }

claim_next-fences_example : (e : Error) × (record_task_run_event stale_input 104 store4 ≡ err e)
unfolding trim
claim_next-fences_example =
    claim_next-fences claim_input "tok" 103 store3 store4 running_run stale_input 104 claims_run
      refl (λ e. omega (arith, e))

abbrev renew_input : RenewLeaseInput
renew_input = record {
  account_id = "acct";
  task_run_id = " run1";
  worker_id = "w";
  fence = 1;
  lease_token = "tok";
  lease_ttl = 30000000000;
  now = 1000;
}

claim_next-renew_example :
    (result : RenewLeaseResult) × (u : Store) × (renew_lease renew_input 104 store4
      ≡ ok (result, u))
    × (result.task_run.lease_expires ≡ 1000 + 30000000000)
    × (lookup "run1" u.task_runs ≡ some result.task_run)
unfolding trim
claim_next-renew_example =
    claim_next-renew claim_input "tok" 103 store3 store4 running_run renew_input 104 claims_run refl
      refl refl refl refl refl (omega arith) refl refl

abbrev fresh_input : AppendEventInput
fresh_input = record {
  account_id = "acct";
  session_id = "s1";
  actor_id = "u";
  client_request_id = "new";
  type = "note";
  payload = [];
  created_at = 0;
}

abbrev padded_input : AppendEventInput
padded_input = record fresh_input { client_request_id = " new" }

abbrev fresh_event : Event
fresh_event = record {
  session_id = "s1";
  seq = 3;
  type = "note";
  payload = [];
  actor_id = "u";
  client_request_id = "new";
  created_at = 200;
}

abbrev fresh_store : Store
fresh_store = record {
  namespaces =
      (
        "ns1",
        record {
          id = "ns1";
          account_id = "acct";
          slug = "personal";
          display_name = "Personal";
          max_active_runs = 2;
          created_at = 100;
        },
      )
      ∷ [];
  namespaces_by_acct = ("acct", ("personal", "ns1") ∷ []) ∷ [];
  sessions =
      (
        "s1",
        record {
          id = "s1";
          account_id = "acct";
          namespace_id = "ns1";
          title = "Demo";
          snapshot_ver = 3;
          last_event_seq = 3;
          lifecycle_state = "ready";
          context =
              ("lastMessage", text "hello")
              ∷ (
                "messages",
                list (
                    cons
                      (object (
                        field "id" (text "run1") (
                          field "role" (text "user") (
                            field "text" (text "hello") (
                              field "timestampMs" (int 18446681938112751616)
                                (field "pending" (flag false) (field "error" (flag false) end)))))))
                      nil),
              )
              ∷ [];
          created_at = 101;
          updated_at = 200;
        },
      )
      ∷ [];
  events =
      (
        "s1",
        record {
          session_id = "s1";
          seq = 1;
          type = "message.created";
          payload =
              ("schemaVersion", int 1) ∷ ("text", text "hello") ∷ ("taskRunId", text "run1") ∷ [];
          actor_id = "u";
          client_request_id = "req1";
          created_at = 102;
        }
            ∷ record {
              session_id = "s1";
              seq = 2;
              type = "run.queued";
              payload =
                  ("schemaVersion", int 1)
                  ∷ ("taskRunId", text "run1")
                  ∷ ("state", text "queued")
                  ∷ [];
              actor_id = "u";
              client_request_id = "";
              created_at = 102;
            }
            ∷ record {
              session_id = "s1";
              seq = 3;
              type = "note";
              payload = [];
              actor_id = "u";
              client_request_id = "new";
              created_at = 200;
            }
            ∷ [],
      )
      ∷ [];
  event_by_request =
      (
        "s1\0req1",
        record {
          session_id = "s1";
          seq = 1;
          type = "message.created";
          payload =
              ("schemaVersion", int 1) ∷ ("text", text "hello") ∷ ("taskRunId", text "run1") ∷ [];
          actor_id = "u";
          client_request_id = "req1";
          created_at = 102;
        },
      )
      ∷ (
        "s1\0new",
        record {
          session_id = "s1";
          seq = 3;
          type = "note";
          payload = [];
          actor_id = "u";
          client_request_id = "new";
          created_at = 200;
        },
      )
      ∷ [];
  task_runs =
      (
        "run1",
        record {
          id = "run1";
          account_id = "acct";
          namespace_id = "ns1";
          session_id = "s1";
          client_request_id = "req1";
          state = "running";
          priority = 0;
          not_before = 102;
          created_at = 102;
          updated_at = 103;
          attempt = 1;
          lease_owner = "w";
          lease_token = "tok";
          lease_expires = 60000000103;
          fence = 1;
          bridge_ref = "";
        },
      )
      ∷ [];
  run_routing = ("run1", []) ∷ [];
  last_claim_namespace = ("acct", "ns1") ∷ [];
}

appends_fresh : append_event fresh_input 200 store4 ≡ ok (fresh_event, fresh_store)
unfolding append_event append_new_event marshal_event_payload trim
appends_fresh = refl

abbrev padded_event : Event
padded_event = record {
  session_id = "s1";
  seq = 3;
  type = "note";
  payload = [];
  actor_id = "u";
  client_request_id = "new";
  created_at = 200;
}

abbrev padded_store : Store
padded_store = record {
  namespaces =
      (
        "ns1",
        record {
          id = "ns1";
          account_id = "acct";
          slug = "personal";
          display_name = "Personal";
          max_active_runs = 2;
          created_at = 100;
        },
      )
      ∷ [];
  namespaces_by_acct = ("acct", ("personal", "ns1") ∷ []) ∷ [];
  sessions =
      (
        "s1",
        record {
          id = "s1";
          account_id = "acct";
          namespace_id = "ns1";
          title = "Demo";
          snapshot_ver = 3;
          last_event_seq = 3;
          lifecycle_state = "ready";
          context =
              ("lastMessage", text "hello")
              ∷ (
                "messages",
                list (
                    cons
                      (object (
                        field "id" (text "run1") (
                          field "role" (text "user") (
                            field "text" (text "hello") (
                              field "timestampMs" (int 18446681938112751616)
                                (field "pending" (flag false) (field "error" (flag false) end)))))))
                      nil),
              )
              ∷ [];
          created_at = 101;
          updated_at = 200;
        },
      )
      ∷ [];
  events =
      (
        "s1",
        record {
          session_id = "s1";
          seq = 1;
          type = "message.created";
          payload =
              ("schemaVersion", int 1) ∷ ("text", text "hello") ∷ ("taskRunId", text "run1") ∷ [];
          actor_id = "u";
          client_request_id = "req1";
          created_at = 102;
        }
            ∷ record {
              session_id = "s1";
              seq = 2;
              type = "run.queued";
              payload =
                  ("schemaVersion", int 1)
                  ∷ ("taskRunId", text "run1")
                  ∷ ("state", text "queued")
                  ∷ [];
              actor_id = "u";
              client_request_id = "";
              created_at = 102;
            }
            ∷ record {
              session_id = "s1";
              seq = 3;
              type = "note";
              payload = [];
              actor_id = "u";
              client_request_id = "new";
              created_at = 200;
            }
            ∷ [],
      )
      ∷ [];
  event_by_request =
      (
        "s1\0req1",
        record {
          session_id = "s1";
          seq = 1;
          type = "message.created";
          payload =
              ("schemaVersion", int 1) ∷ ("text", text "hello") ∷ ("taskRunId", text "run1") ∷ [];
          actor_id = "u";
          client_request_id = "req1";
          created_at = 102;
        },
      )
      ∷ (
        "s1\0new",
        record {
          session_id = "s1";
          seq = 3;
          type = "note";
          payload = [];
          actor_id = "u";
          client_request_id = "new";
          created_at = 200;
        },
      )
      ∷ [];
  task_runs =
      (
        "run1",
        record {
          id = "run1";
          account_id = "acct";
          namespace_id = "ns1";
          session_id = "s1";
          client_request_id = "req1";
          state = "running";
          priority = 0;
          not_before = 102;
          created_at = 102;
          updated_at = 103;
          attempt = 1;
          lease_owner = "w";
          lease_token = "tok";
          lease_expires = 60000000103;
          fence = 1;
          bridge_ref = "";
        },
      )
      ∷ [];
  run_routing = ("run1", []) ∷ [];
  last_claim_namespace = ("acct", "ns1") ∷ [];
}

appends_padded : append_event padded_input 200 store4 ≡ ok (padded_event, padded_store)
unfolding append_event append_new_event marshal_event_payload trim
appends_padded = refl

append_event-retry_example :
    append_event fresh_input 300 fresh_store ≡ ok (fresh_event, fresh_store)
unfolding trim
append_event-retry_example =
    append_event-retry fresh_input 200 300 store4 fresh_store fresh_event (Reach-HasKeys reach4)
      refl refl appends_fresh

append_event-padded_example :
    (again : Event) × (u : Store) × (append_event padded_input 300 padded_store ≡ ok (again, u))
    × (again.seq ≡ add64 padded_event.seq 1)
unfolding trim
append_event-padded_example =
    append_event-padded padded_input 200 300 store4 padded_store padded_event (Reach-HasKeys reach4)
      refl (λ e. cc) refl appends_padded
