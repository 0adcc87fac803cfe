-- ===== src/TaskSession/Lifecycle.antt =====
-- internal/tasksession/store.go: the life of a run over the calls.
use accounts.Base.{
  ◌≡◌, ◌≢◌, ◌⊎◌, inl, inr, refl, sym, subst, ◌∙◌, String, Bool, true, false, some, arith,
  Bool-cases,
}
use accounts.Base.Word.{add64}
use accounts.Base.Text.{eqs, eqs_iff}
use accounts.Base.Dict.{Dict, lookup, insert, contains, lookup-insert}
use accounts.TaskSession.Types.{Time, TaskRun, Store, task_run_queued, task_run_running}
use accounts.TaskSession.Namespaces.{put_namespace}
use accounts.TaskSession.Events.{put_event}
use accounts.TaskSession.Messages.{put_message}
use accounts.TaskSession.Runs.{put_run_event}
use accounts.TaskSession.Leases.{is_finished}
use accounts.TaskSession.Claim.{put_claim, claimed}
use accounts.TaskSession.Change.{
  Change, Continues, Follows, same, add_namespace, add_session, add_event, add_message, add_run,
  continue_run, add_run_event, claim,
}
use accounts.TaskSession.Change.Scheduling.{step-Change}
use accounts.TaskSession.Invariant.Keys.{HasKeys, Reach-HasKeys, run_id}
use accounts.TaskSession.Invariant.Choice.{choose-run}
use accounts.TaskSession.Machine.{Call, Reach, step}

-- The state and the fence of a run after a call: a queued run is claimed with the next fence; or the fence
-- stays, and the state stays, or goes from running to a finished one, or from queued to cancelled.
abbrev pub Moves : TaskRun → TaskRun → Type 0
Moves run run' =
    ((run.state ≡ task_run_queued)
      × (run'.state ≡ task_run_running)
      × (run'.fence ≡ add64 run.fence 1))
    ⊎ ((run'.fence ≡ run.fence) × Follows run.state run'.state)

-- A run after a call: it is still whose it was, and has moved as it may.
pub record Lives (run run' : TaskRun) : Type 0 where
  pub still_id : run'.id ≡ run.id
  pub still_account : run'.account_id ≡ run.account_id
  pub still_namespace : run'.namespace_id ≡ run.namespace_id
  pub still_session : run'.session_id ≡ run.session_id
  pub moves : Moves run run'

Lives-refl : (run : TaskRun) → Lives run run
Lives-refl run = record {
  still_id = refl;
  still_account = refl;
  still_namespace = refl;
  still_session = refl;
  moves = inr (refl, inl refl);
}

Continues-Lives : (run run' : TaskRun) → Continues run run' → Lives run run'
Continues-Lives run run' c = record {
  still_id = c.same_id;
  still_account = c.same_account;
  still_namespace = c.same_namespace;
  still_session = c.same_session;
  moves = inr (c.same_fence, c.follows);
}

claimed-Lives :
    (input : _) (token : String) (run : TaskRun)
    → run.state ≡ task_run_queued
    → Lives run (claimed input token run)
unfolding claimed
claimed-Lives input token run queued = record {
  still_id = refl;
  still_account = refl;
  still_namespace = refl;
  still_session = refl;
  moves = inl (queued, refl, refl);
}

abbrev Survives : String → TaskRun → Dict TaskRun → Type 0
Survives k run runs = (run' : TaskRun) × (lookup k runs ≡ some run') × Lives run run'

-- A write under a new id leaves the run.
enters-Survives :
    (k : String) (run made : TaskRun) (runs : Dict TaskRun)
    → lookup k runs ≡ some run
    → contains made.id runs ≡ false
    → Survives k run (insert made.id made runs)
enters-Survives k run made runs found fresh =
    (run, ground (arith, lookup-insert k made.id made runs, eqs_iff k made.id), Lives-refl run)

-- A write of a run that lives on leaves every run living on.
rewrite-Survives :
    (k j : String) (run old made : TaskRun) (runs : Dict TaskRun)
    → lookup k runs ≡ some run
    → lookup j runs ≡ some old
    → made.id ≡ j
    → Lives old made
    → Survives k run (insert made.id made runs)
rewrite-Survives k j run old made runs found there is lives = elim (Bool-cases (eqs k made.id)) [
  | inl hit ↦
      let here : k ≡ j = (eqs_iff k made.id).0 hit ∙ is in
      let one : run ≡ old = ground arith in
      (
        made,
        lookup-insert k made.id made runs ∙ rw hit refl,
        subst (λ r. Lives r made) (sym one) lives,
      )
  | inr miss ↦ (run, lookup-insert k made.id made runs ∙ rw miss found, Lives-refl run)
]

module _ (s t : Store) (v : HasKeys s) (k : String) (run : TaskRun)
    (found : lookup k s.task_runs ≡ some run) where
  Change-Survives : Change s t → Survives k run t.task_runs
  unfolding put_namespace put_event put_message put_run_event put_claim
  Change-Survives (same e) = rw e (run, found, Lives-refl run)
  Change-Survives (add_namespace ns fresh small e) = rw e (run, found, Lives-refl run)
  Change-Survives (add_session x fresh owned zero_seq zero_ver e) =
      rw e (run, found, Lives-refl run)
  Change-Survives (add_event ev context x f n e) = rw e (run, found, Lives-refl run)
  Change-Survives (add_message m q made routing context x f n o enters e) =
      rw e (enters-Survives k run made s.task_runs found enters.fresh)
  Change-Survives (add_run made enters e) =
      rw e (enters-Survives k run made s.task_runs found enters.fresh)
  Change-Survives (continue_run j old made f c e) = rw e (
      rewrite-Survives k j run old made s.task_runs found f (c.same_id ∙ run_id s v f)
        (Continues-Lives old made c))
  Change-Survives (add_run_event ev context j old made x f n g c e) = rw e (
      rewrite-Survives k j run old made s.task_runs found g (c.same_id ∙ run_id s v g)
        (Continues-Lives old made c))
  Change-Survives (claim input token namespace old below chosen e) =
      let (there, fits, _) = choose-run input s namespace old v chosen in
      let lives =
        claimed-Lives input token old ((eqs_iff old.state task_run_queued).0 (ground arith)) in
      rw e (
        rewrite-Survives k old.id run old (claimed input token old) s.task_runs found there
          lives.still_id lives)

-- No call loses a run or moves it against its life: after any call, at any time, on a store that calls lead
-- to, a run is found under the same key, with the same id, account, namespace and session; it was queued and
-- is now running under the next fence (mod 2^64), or its fence is the same and its state is the same, or it
-- was running and is finished, or it was queued and is cancelled.
pub step-Lives :
    {s : Store}
    → Reach s
    → (c : Call) (fresh : String) (now : Time) (k : String) (run : TaskRun)
    → lookup k s.task_runs ≡ some run
    → (run' : TaskRun) × (lookup k (step c fresh now s).task_runs ≡ some run') × Lives run run'
step-Lives {s} r c fresh now k run found =
    Change-Survives s (step c fresh now s) (Reach-HasKeys r) k run found (step-Change c fresh now s)

not_both : (b : Bool) → b ≡ true → b ≢ false
not_both b e f = cc

-- A finished run stays as it ended: whatever is called, its state and its fence are the same afterwards.
pub step-finished :
    {s : Store}
    → Reach s
    → (c : Call) (fresh : String) (now : Time) (k : String) (run : TaskRun)
    → lookup k s.task_runs ≡ some run
    → is_finished run.state ≡ true
    → (run' : TaskRun) × (lookup k (step c fresh now s).task_runs ≡ some run')
      × (run'.state ≡ run.state)
      × (run'.fence ≡ run.fence)
step-finished r c fresh now k run found done =
    let (run', there, lives) = step-Lives r c fresh now k run found in
    let ends : (run'.state ≡ run.state) × (run'.fence ≡ run.fence) = elim lives.moves [
      | inl (queued, _, _) ↦ absurd (ended queued refl)
      | inr (fence, inl stays) ↦ (stays, fence)
      | inr (fence, inr (inl (running, _))) ↦ absurd (ended running refl)
      | inr (fence, inr (inr (queued, _))) ↦ absurd (ended queued refl)
    ] in
    (run', there, ends.0, ends.1)
  where
    ended : {x : String} → run.state ≡ x → is_finished x ≢ false
    ended {x} e failed = cc
