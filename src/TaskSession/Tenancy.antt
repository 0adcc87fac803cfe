-- ===== src/TaskSession/Tenancy.antt =====
-- internal/tasksession/store.go: what belongs to whom.
use accounts.Base.{◌≡◌, String, some}
use accounts.Base.Dict.{lookup}
use accounts.TaskSession.Types.{Namespace, Session, TaskRun, Store}
use accounts.TaskSession.Invariant.Ownership.{Reach-IsOwned, run-tenant}
use accounts.TaskSession.Machine.{Reach}

-- In every store that calls lead to, a run has a session and a namespace there; both are of the run's own
-- account, and the session lies in the namespace.
pub Reach-tenant :
    {s : Store}
    → Reach s
    → (k : String) (run : TaskRun) → lookup k s.task_runs ≡ some run
    → (x : Session) × (ns : Namespace) × (lookup run.session_id s.sessions ≡ some x)
      × (lookup run.namespace_id s.namespaces ≡ some ns)
      × (x.account_id ≡ run.account_id)
      × (x.namespace_id ≡ run.namespace_id)
      × (ns.account_id ≡ run.account_id)
Reach-tenant r k run f = run-tenant k run (Reach-IsOwned r) f
