-- ===== src/TaskSession/Sessions.antt =====
-- internal/tasksession/store.go: sessions, and the snapshots of a session with its latest run.
use accounts.Base.{
  String, Bool, true, false, ◌||◌, ◌&&◌, not, Option, none, some, List, [], ◌∷◌, ltb, ◌==◌, keep,
  map, sort_by, if◌then◌else◌, Result, ok, ◌>>=◌, ◌>>◌, fail_if, or_fail,
}
use accounts.Base.Text.{eqs, lts, is_empty, trim}
use accounts.Base.Dict.{Dict, lookup, contains, insert, values}
use accounts.TaskSession.Types.{
  Time, is_zero, session_ready, Error, already_exists, account_mismatch, not_found, Namespace,
  Session, TaskRun, Snapshot, CreateSessionInput, Store,
}

-- `!ok || ns.AccountID != account`
abbrev pub owned_namespace : Option Namespace → String → Bool
owned_namespace none account = false
owned_namespace (some ns) account = eqs ns.account_id account

unfoldable pub session_of : CreateSessionInput → Time → Session
session_of input now =
    let at : Time = if is_zero input.created_at then now else input.created_at in
    record {
      id = input.id;
      account_id = input.account_id;
      namespace_id = input.namespace_id;
      title = trim input.title;
      snapshot_ver = 0;
      last_event_seq = 0;
      lifecycle_state = session_ready;
      context = [];
      created_at = at;
      updated_at = at;
    }

unfoldable pub create_session : CreateSessionInput → Time → Store → Result Error (Session × Store)
unfolding session_of
create_session input now s = do
  let session = session_of input now
  fail_if (contains input.id s.sessions) already_exists
  fail_if (not (owned_namespace (lookup input.namespace_id s.namespaces) input.account_id))
      account_mismatch
  fail_if (is_empty (trim input.id)) not_found
  ok (session, record s { sessions = insert session.id session s.sessions })

unfoldable pub get_session : String → String → String → Store → Result Error Session
get_session account_id namespace_id session_id s = do
  session ← or_fail (lookup session_id s.sessions) not_found
  fail_if (not (eqs session.account_id account_id) || not (eqs session.namespace_id namespace_id))
      account_mismatch
  ok session

-- Whether a run is later than the one chosen so far: by its update, then by its id.
later_than : TaskRun → Option TaskRun → Bool
later_than run none = true
later_than run (some chosen) =
    ltb chosen.updated_at run.updated_at
    || (run.updated_at == chosen.updated_at && lts chosen.id run.id)

-- The loop of `snapshotFromMemoryState`.
unfoldable pub latest_run : String → Option TaskRun → List TaskRun → Option TaskRun
unfolding later_than
latest_run session_id chosen [] = chosen
latest_run session_id chosen (run ∷ runs) =
    latest_run session_id
      (if eqs run.session_id session_id && later_than run chosen then some run else chosen) runs

unfoldable pub snapshot_from : Session → Dict TaskRun → Snapshot
unfolding latest_run
snapshot_from session runs = record {
  session_id = session.id;
  namespace_id = session.namespace_id;
  title = session.title;
  snapshot_ver = session.snapshot_ver;
  last_event_seq = session.last_event_seq;
  lifecycle_state = session.lifecycle_state;
  context = session.context;
  task_run = latest_run session.id none (values runs);
  updated_at = session.updated_at;
}

unfoldable pub get_snapshot : String → String → Store → Result Error Snapshot
unfolding snapshot_from
get_snapshot account_id session_id s = do
  session ← or_fail (lookup session_id s.sessions) not_found
  fail_if (not (eqs session.account_id account_id)) account_mismatch
  ok (snapshot_from session s.task_runs)

abbrev snapshot_before : Snapshot → Snapshot → Bool
snapshot_before a b =
    if a.updated_at == b.updated_at
    then lts a.session_id b.session_id
    else ltb b.updated_at a.updated_at

unfoldable pub list_sessions : String → String → Store → Result Error (List Snapshot)
unfolding snapshot_from sort_by
list_sessions account_id namespace_id s = do
  let account = trim account_id
  let namespace = trim namespace_id
  fail_if (not (owned_namespace (lookup namespace s.namespaces) account)) not_found
  let mine =
      λ (session : Session). eqs session.account_id account && eqs session.namespace_id namespace
  ok (
      sort_by snapshot_before
        (map (λ session. snapshot_from session s.task_runs) (keep mine (values s.sessions))))
