-- ===== src/TaskSession/Limits.antt =====
-- internal/tasksession/store.go: the limits on running runs.
use accounts.Base.{◌≤◌, ◌%◌, ◌≡◌, String, some}
use accounts.Base.Word.{word}
use accounts.Base.Dict.{lookup}
use accounts.TaskSession.Types.{Namespace, Store}
use accounts.TaskSession.Claim.{count_active, count_active_for_namespace}
use accounts.TaskSession.Invariant.Capacity.{Reach-IsCapped}
use accounts.TaskSession.Machine.{Reach}

-- In every store that calls lead to, in whatever order and with whatever limits the workers ask for, no
-- account has more than five runs running.
pub Reach-count_active :
    {s : Store} → Reach s → (account : String) → count_active account s.task_runs ≤ 5
Reach-count_active r account = (Reach-IsCapped r).account_cap account

-- In every store that calls lead to, no namespace has more runs of an account running than its own limit,
-- and that limit is at most two.
pub Reach-count_active_for_namespace :
    {s : Store}
    → Reach s
    → (account k : String) (ns : Namespace) → lookup k s.namespaces ≡ some ns
    → (count_active_for_namespace account k s.task_runs ≤ ns.max_active_runs % word)
      × (ns.max_active_runs % word ≤ 2)
Reach-count_active_for_namespace r account k ns f =
    let v = Reach-IsCapped r in (v.namespace_cap account k ns f, v.small_limits k ns f)
