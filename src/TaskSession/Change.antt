-- ===== src/TaskSession/Change.antt =====
-- What the operations of internal/tasksession can do to the store: nine kinds of change.
pub mod Refines
pub mod Scheduling
use accounts.Base.{ℕ, ◌%◌, ◌≤◌, ◌<◌, ◌≡◌, ◌⊎◌, String, Bool, true, false, Option, none, some}
use accounts.Base.Word.{word, add64}
use accounts.Base.Dict.{lookup, insert, contains}
use accounts.TaskSession.Value.{Object}
use accounts.TaskSession.Types.{
  task_run_queued, task_run_running, task_run_canceled, Namespace, Session, Event, TaskRun,
  ClaimInput, Store,
}
use accounts.TaskSession.Namespaces.{put_namespace}
use accounts.TaskSession.Sessions.{owned_namespace}
use accounts.TaskSession.Events.{put_event, advance}
use accounts.TaskSession.Messages.{put_message, advance_twice}
use accounts.TaskSession.Runs.{put_run, put_run_event, owned_session}
use accounts.TaskSession.Leases.{is_finished}
use accounts.TaskSession.Claim.{put_claim, claimed, choose, count_active}

-- The states that a run can have next without a claim.
abbrev pub Follows : String → String → Type 0
Follows a b =
    (b ≡ a)
    ⊎ (((a ≡ task_run_running) × (is_finished b ≡ true))
        ⊎ ((a ≡ task_run_queued) × (b ≡ task_run_canceled)))

-- A run after anything but a claim: whose it is, where it stands and its fence stay.
pub record Continues (run run' : TaskRun) : Type 0 where
  pub same_id : run'.id ≡ run.id
  pub same_account : run'.account_id ≡ run.account_id
  pub same_namespace : run'.namespace_id ≡ run.namespace_id
  pub same_session : run'.session_id ≡ run.session_id
  pub same_fence : run'.fence ≡ run.fence
  pub follows : Follows run.state run'.state

-- A run that enters the queue, of the session and its namespace.
pub record Enters (s : Store) (run : TaskRun) : Type 0 where
  pub fresh : contains run.id s.task_runs ≡ false
  pub queued : run.state ≡ task_run_queued
  pub owned :
      owned_session (lookup run.session_id s.sessions) run.account_id run.namespace_id ≡ true

pub data Change (s t : Store) : Type 0 where
  same : t ≡ s → Change s t
  add_namespace :
      (ns : Namespace)
      → contains ns.id s.namespaces ≡ false
      → ns.max_active_runs % word ≤ 2
      → t ≡ put_namespace ns s
      → Change s t
  add_session :
      (x : Session)
      → contains x.id s.sessions ≡ false
      → owned_namespace (lookup x.namespace_id s.namespaces) x.account_id ≡ true
      → x.last_event_seq ≡ 0
      → x.snapshot_ver ≡ 0
      → t ≡ record s { sessions = insert x.id x s.sessions }
      → Change s t
  add_event :
      (e : Event) (context : Object) (x : Session)
      → lookup e.session_id s.sessions ≡ some x
      → e.seq ≡ add64 x.last_event_seq 1
      → t ≡ put_event e (advance e context x) s
      → Change s t
  add_message :
      (m q : Event) (run : TaskRun) (routing context : Object) (x : Session)
      → lookup m.session_id s.sessions ≡ some x
      → m.seq ≡ add64 x.last_event_seq 1
      → q.seq ≡ add64 m.seq 1
      → Enters s run
      → t ≡ put_message m q run routing (advance_twice q context x) s
      → Change s t
  add_run : (run : TaskRun) → Enters s run → t ≡ put_run run s → Change s t
  continue_run :
      (k : String) (run run' : TaskRun)
      → lookup k s.task_runs ≡ some run
      → Continues run run'
      → t ≡ put_run run' s
      → Change s t
  add_run_event :
      (e : Event) (context : Object) (k : String) (run run' : TaskRun) (x : Session)
      → lookup e.session_id s.sessions ≡ some x
      → e.seq ≡ add64 x.last_event_seq 1
      → lookup k s.task_runs ≡ some run
      → Continues run run'
      → t ≡ put_run_event e run' (advance e context x) s
      → Change s t
  claim :
      (input : ClaimInput) (token namespace : String) (run : TaskRun)
      → count_active input.account_id s.task_runs < 5
      → choose input s ≡ some (namespace, run)
      → t ≡ put_claim input namespace (claimed input token run) s
      → Change s t
