-- ===== src/TaskSession/Invariant/Ownership.antt =====
-- internal/tasksession/store.go: the account and the namespace of a session and of a run.
use accounts.Base.{
  String, ◌≡◌, refl, sym, subst, ◌∙◌, true, false, some, none, Option, arith, &&-true,
}
use accounts.Base.Text.{eqs_iff}
use accounts.Base.Dict.{Dict, lookup, insert, contains, lookup-insert, found-insert}
use accounts.TaskSession.Types.{Namespace, Session, TaskRun, Store}
use accounts.TaskSession.Namespaces.{put_namespace}
use accounts.TaskSession.Sessions.{owned_namespace}
use accounts.TaskSession.Events.{put_event, advance}
use accounts.TaskSession.Messages.{put_message, advance_twice}
use accounts.TaskSession.Runs.{put_run_event, owned_session}
use accounts.TaskSession.Claim.{put_claim, claimed}
use accounts.TaskSession.Change.{
  Change, Continues, same, add_namespace, add_session, add_event, add_message, add_run,
  continue_run, add_run_event, claim,
}
use accounts.TaskSession.Change.Scheduling.{step-Change}
use accounts.TaskSession.Machine.{Reach, start, next}
use accounts.TaskSession.Invariant.Keys.{HasKeys, Reach-HasKeys, session_id}
use accounts.TaskSession.Invariant.Choice.{choose-run}

-- Each session lies in a namespace of its account.
abbrev pub SessionsOwned : Dict Session → Dict Namespace → Type 0
SessionsOwned sessions namespaces =
    (k : String) (x : Session)
    → lookup k sessions ≡ some x
    → owned_namespace (lookup x.namespace_id namespaces) x.account_id ≡ true

-- Each run belongs to a session of its account and its namespace.
abbrev pub RunsOwned : Dict TaskRun → Dict Session → Type 0
RunsOwned runs sessions =
    (k : String) (run : TaskRun)
    → lookup k runs ≡ some run
    → owned_session (lookup run.session_id sessions) run.account_id run.namespace_id ≡ true

pub record IsOwned (s : Store) : Type 0 where
  pub sessions_owned : SessionsOwned s.sessions s.namespaces
  pub runs_owned : RunsOwned s.task_runs s.sessions

owned_namespace-insert :
    (j a k : String) (ns : Namespace) (m : Dict Namespace)
    → contains k m ≡ false
    → owned_namespace (lookup j m) a ≡ true
    → owned_namespace (lookup j (insert k ns m)) a ≡ true
owned_namespace-insert j a k ns m fresh h = ground (arith, lookup-insert j k ns m, eqs_iff j k)

owned_session-insert :
    (j a n k : String) (x : Session) (m : Dict Session)
    → contains k m ≡ false
    → owned_session (lookup j m) a n ≡ true
    → owned_session (lookup j (insert k x m)) a n ≡ true
owned_session-insert j a n k x m fresh h = ground (arith, lookup-insert j k x m, eqs_iff j k)

owned_session-insert_old :
    (j a n k : String) (x x' : Session) (m : Dict Session)
    → lookup k m ≡ some x
    → x'.account_id ≡ x.account_id
    → x'.namespace_id ≡ x.namespace_id
    → owned_session (lookup j m) a n ≡ true
    → owned_session (lookup j (insert k x' m)) a n ≡ true
owned_session-insert_old j a n k x x' m f ea en h = ground (
  arith,
  lookup-insert j k x' m,
  eqs_iff j k,
  eqs_iff x.account_id a,
  eqs_iff x'.account_id a,
  eqs_iff x.namespace_id n,
  eqs_iff x'.namespace_id n,
)

SessionsOwned-insert :
    (k : String) (x : Session) (m : Dict Session) (nss : Dict Namespace)
    → SessionsOwned m nss
    → owned_namespace (lookup x.namespace_id nss) x.account_id ≡ true
    → SessionsOwned (insert k x m) nss
SessionsOwned-insert k x m nss h o =
    found-insert
      (λ _ (y : Session). owned_namespace (lookup y.namespace_id nss) y.account_id ≡ true) k x m h o

RunsOwned-insert :
    (k : String) (run : TaskRun) (m : Dict TaskRun) (ss : Dict Session)
    → RunsOwned m ss
    → owned_session (lookup run.session_id ss) run.account_id run.namespace_id ≡ true
    → RunsOwned (insert k run m) ss
RunsOwned-insert k run m ss h o =
    found-insert
      (λ _ (y : TaskRun). owned_session (lookup y.session_id ss) y.account_id y.namespace_id ≡ true)
      k run m h o

-- A session that is written again with its owner keeps what was owned.
module _ (s : Store) (k : String) (x x' : Session) (v : IsOwned s)
    (f : lookup k s.sessions ≡ some x) (ea : x'.account_id ≡ x.account_id)
    (en : x'.namespace_id ≡ x.namespace_id) where
  sessions_again : SessionsOwned (insert k x' s.sessions) s.namespaces
  sessions_again = SessionsOwned-insert k x' s.sessions s.namespaces v.sessions_owned (
      subst (λ n. owned_namespace (lookup n s.namespaces) x'.account_id ≡ true) (sym en)
        (subst (λ a. owned_namespace (lookup x.namespace_id s.namespaces) a ≡ true) (sym ea)
          (v.sessions_owned k x f)))

  runs_again : RunsOwned s.task_runs (insert k x' s.sessions)
  runs_again j run e =
      owned_session-insert_old run.session_id run.account_id run.namespace_id k x x' s.sessions f ea
        en (v.runs_owned j run e)

Continues-owned :
    (run run' : TaskRun) (ss : Dict Session)
    → Continues run run'
    → owned_session (lookup run.session_id ss) run.account_id run.namespace_id ≡ true
    → owned_session (lookup run'.session_id ss) run'.account_id run'.namespace_id ≡ true
Continues-owned run run' ss c h =
    subst (λ a. owned_session (lookup run'.session_id ss) a run'.namespace_id ≡ true)
      (sym c.same_account)
      (subst (λ n. owned_session (lookup run'.session_id ss) run.account_id n ≡ true)
        (sym c.same_namespace)
        (subst (λ i. owned_session (lookup i ss) run.account_id run.namespace_id ≡ true)
          (sym c.same_session) h))

module _ (s t : Store) (keys : HasKeys s) (v : IsOwned s) where
  -- A session that was found under a key is found under its id.
  by_id :
      (k : String) (x : Session) → lookup k s.sessions ≡ some x → lookup x.id s.sessions ≡ some x
  by_id k x f = subst (λ i. lookup i s.sessions ≡ some x) (sym (session_id s keys f)) f

  Change-IsOwned : Change s t → IsOwned t
  unfolding put_namespace put_event advance put_message advance_twice put_run_event put_claim
      claimed
  Change-IsOwned (same e) = subst IsOwned (sym e) v
  Change-IsOwned (add_namespace ns fresh small e) = subst IsOwned (sym e) (record {
    sessions_owned = λ k x f.
        owned_namespace-insert x.namespace_id x.account_id ns.id ns s.namespaces fresh
          (v.sessions_owned k x f);
    runs_owned = v.runs_owned;
  })
  Change-IsOwned (add_session x fresh owned zero_seq zero_ver e) = subst IsOwned (sym e) (record {
    sessions_owned = SessionsOwned-insert x.id x s.sessions s.namespaces v.sessions_owned owned;
    runs_owned = λ k run f.
        owned_session-insert run.session_id run.account_id run.namespace_id x.id x s.sessions fresh
          (v.runs_owned k run f);
  })
  Change-IsOwned (add_event ev context x f n e) = subst IsOwned (sym e) (record {
    sessions_owned = sessions_again s x.id x _ v (by_id _ x f) refl refl;
    runs_owned = runs_again s x.id x _ v (by_id _ x f) refl refl;
  })
  Change-IsOwned (add_message m q run routing context x f n o enters e) =
      subst IsOwned (sym e) (record {
        sessions_owned = sessions_again s x.id x _ v (by_id _ x f) refl refl;
        runs_owned =
            RunsOwned-insert run.id run s.task_runs _
              (runs_again s x.id x _ v (by_id _ x f) refl refl)
              (owned_session-insert_old run.session_id run.account_id run.namespace_id x.id x _
                s.sessions (by_id _ x f) refl refl enters.owned);
      })
  Change-IsOwned (add_run run enters e) = subst IsOwned (sym e) (record {
    sessions_owned = v.sessions_owned;
    runs_owned = RunsOwned-insert run.id run s.task_runs s.sessions v.runs_owned enters.owned;
  })
  Change-IsOwned (continue_run k run run' f c e) = subst IsOwned (sym e) (record {
    sessions_owned = v.sessions_owned;
    runs_owned =
        RunsOwned-insert run'.id run' s.task_runs s.sessions v.runs_owned
          (Continues-owned run run' s.sessions c (v.runs_owned k run f));
  })
  Change-IsOwned (add_run_event ev context k run run' x f n g c e) = subst IsOwned (sym e) (record {
    sessions_owned = sessions_again s x.id x _ v (by_id _ x f) refl refl;
    runs_owned =
        RunsOwned-insert run'.id run' s.task_runs _
          (runs_again s x.id x _ v (by_id _ x f) refl refl)
          (owned_session-insert_old run'.session_id run'.account_id run'.namespace_id x.id x _
            s.sessions (by_id _ x f) refl refl
            (Continues-owned run run' s.sessions c (v.runs_owned k run g)));
  })
  Change-IsOwned (claim input token namespace run below chosen e) = subst IsOwned (sym e) (record {
    sessions_owned = v.sessions_owned;
    runs_owned =
        RunsOwned-insert run.id _ s.task_runs s.sessions v.runs_owned
          (v.runs_owned run.id run (choose-run input s namespace run keys chosen).0);
  })

-- In every store that calls lead to, a run belongs to a session of its own account and namespace, and a
-- session lies in a namespace of its own account.
pub Reach-IsOwned : {s : Store} → Reach s → IsOwned s
Reach-IsOwned start = record { sessions_owned = λ k x e. cc; runs_owned = λ k run e. cc }
Reach-IsOwned (next {s = s} r c fresh now) =
    Change-IsOwned s _ (Reach-HasKeys r) (Reach-IsOwned r) (step-Change c fresh now s)

owned_session-found :
    (o : Option Session) (a n : String)
    → owned_session o a n ≡ true
    → (x : Session) × (o ≡ some x) × (x.account_id ≡ a) × (x.namespace_id ≡ n)
owned_session-found none a n h = cc
owned_session-found (some x) a n h =
    let (ea, en) = &&-true _ _ h in (x, refl, (eqs_iff _ _).0 ea, (eqs_iff _ _).0 en)

owned_namespace-found :
    (o : Option Namespace) (a : String)
    → owned_namespace o a ≡ true
    → (ns : Namespace) × (o ≡ some ns) × (ns.account_id ≡ a)
owned_namespace-found none a h = cc
owned_namespace-found (some ns) a h = (ns, refl, (eqs_iff _ _).0 h)

-- A run that the store holds has a session and a namespace there, both of the run's own account.
pub run-tenant :
    {s : Store} (k : String) (run : TaskRun)
    → IsOwned s
    → lookup k s.task_runs ≡ some run
    → (x : Session) × (ns : Namespace) × (lookup run.session_id s.sessions ≡ some x)
      × (lookup run.namespace_id s.namespaces ≡ some ns)
      × (x.account_id ≡ run.account_id)
      × (x.namespace_id ≡ run.namespace_id)
      × (ns.account_id ≡ run.account_id)
run-tenant {s} k run o f =
    let (x, fx, ea, en) = owned_session-found _ _ _ (o.runs_owned k run f) in
    let (ns, fn, na) = owned_namespace-found _ _ (o.sessions_owned run.session_id x fx) in
    (x, ns, fx, subst (λ i. lookup i s.namespaces ≡ some ns) en fn, ea, en, na ∙ ea)
