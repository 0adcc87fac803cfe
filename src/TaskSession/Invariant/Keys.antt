-- ===== src/TaskSession/Invariant/Keys.antt =====
-- internal/tasksession/store.go: the keys of the maps of `MemoryStore`.
use accounts.Base.{◌≡◌, refl, sym, subst, some}
use accounts.Base.Dict.{lookup}
use accounts.Base.Keyed.{Keyed, Keyed-insert, Keyed-lookup}
use accounts.TaskSession.Types.{Session, TaskRun, Store}
use accounts.TaskSession.Namespaces.{put_namespace}
use accounts.TaskSession.Events.{put_event, advance}
use accounts.TaskSession.Messages.{put_message, advance_twice}
use accounts.TaskSession.Runs.{put_run_event}
use accounts.TaskSession.Claim.{put_claim}
use accounts.TaskSession.Change.{
  Change, same, add_namespace, add_session, add_event, add_message, add_run, continue_run,
  add_run_event, claim,
}
use accounts.TaskSession.Change.Scheduling.{step-Change}
use accounts.TaskSession.Machine.{Reach, start, next}

pub record HasKeys (s : Store) : Type 0 where
  pub runs_keyed : Keyed (λ (run : TaskRun). run.id) s.task_runs
  pub sessions_keyed : Keyed (λ (x : Session). x.id) s.sessions

module _ (s t : Store) (v : HasKeys s) where
  Change-HasKeys : Change s t → HasKeys t
  unfolding put_namespace put_event advance put_message advance_twice put_run_event put_claim
  Change-HasKeys (same e) = subst HasKeys (sym e) v
  Change-HasKeys (add_namespace ns fresh small e) =
      subst HasKeys (sym e)
        (record { runs_keyed = v.runs_keyed; sessions_keyed = v.sessions_keyed })
  Change-HasKeys (add_session x fresh owned zero_seq zero_ver e) = subst HasKeys (sym e) (record {
    runs_keyed = v.runs_keyed;
    sessions_keyed = Keyed-insert _ x.id x s.sessions v.sessions_keyed refl;
  })
  Change-HasKeys (add_event ev context x f n e) = subst HasKeys (sym e) (record {
    runs_keyed = v.runs_keyed;
    sessions_keyed = Keyed-insert _ x.id _ s.sessions v.sessions_keyed refl;
  })
  Change-HasKeys (add_message m q run routing context x f n o enters e) =
      subst HasKeys (sym e) (record {
        runs_keyed = Keyed-insert _ run.id run s.task_runs v.runs_keyed refl;
        sessions_keyed = Keyed-insert _ x.id _ s.sessions v.sessions_keyed refl;
      })
  Change-HasKeys (add_run run enters e) = subst HasKeys (sym e) (record {
    runs_keyed = Keyed-insert _ run.id run s.task_runs v.runs_keyed refl;
    sessions_keyed = v.sessions_keyed;
  })
  Change-HasKeys (continue_run k run run' f c e) = subst HasKeys (sym e) (record {
    runs_keyed = Keyed-insert _ run'.id run' s.task_runs v.runs_keyed refl;
    sessions_keyed = v.sessions_keyed;
  })
  Change-HasKeys (add_run_event ev context k run run' x f n g c e) = subst HasKeys (sym e) (record {
    runs_keyed = Keyed-insert _ run'.id run' s.task_runs v.runs_keyed refl;
    sessions_keyed = Keyed-insert _ x.id _ s.sessions v.sessions_keyed refl;
  })
  Change-HasKeys (claim input token namespace run below chosen e) = subst HasKeys (sym e) (record {
    runs_keyed = Keyed-insert _ _ _ s.task_runs v.runs_keyed refl;
    sessions_keyed = v.sessions_keyed;
  })

-- In every store that calls lead to, runs and sessions are held under their own ids, each once.
pub Reach-HasKeys : {s : Store} → Reach s → HasKeys s
Reach-HasKeys start = record { runs_keyed = tt; sessions_keyed = tt }
Reach-HasKeys (next {s = s} r c fresh now) =
    Change-HasKeys s _ (Reach-HasKeys r) (step-Change c fresh now s)

-- The key under which a run or a session is found is its id.
pub run_id :
    (s : Store) {k : _} {run : TaskRun} → HasKeys s → lookup k s.task_runs ≡ some run → run.id ≡ k
run_id s {k} {run} v e = Keyed-lookup _ k run s.task_runs v.runs_keyed e

pub session_id :
    (s : Store) {k : _} {x : Session} → HasKeys s → lookup k s.sessions ≡ some x → x.id ≡ k
session_id s {k} {x} v e = Keyed-lookup _ k x s.sessions v.sessions_keyed e
