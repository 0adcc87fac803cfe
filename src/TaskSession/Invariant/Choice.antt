-- ===== src/TaskSession/Invariant/Choice.antt =====
-- internal/tasksession/store.go: what `ClaimNext` chooses.
use accounts.Base.{
  ◌⊎◌, ℕ, zero, suc, ◌+◌, ◌≡◌, true, false, Option, none, some, String, List, [], ◌∷◌, arith, In,
  All-In, get_or, inl,
}
use accounts.Base.Word.{reaches}
use accounts.Base.Dict.{lookup, values}
use accounts.Base.Keyed.{values_found}
use accounts.TaskSession.Namespaces.{zero_namespace}
use accounts.TaskSession.Types.{Time, TaskRun, ClaimInput, Store}
use accounts.TaskSession.Claim.{
  is_candidate, oldest_from, oldest_eligible_run, try_namespace, claim_round, choose,
  count_active_for_namespace,
}
use accounts.TaskSession.Invariant.Keys.{HasKeys}

-- The loop ends with what it began with, or with one of the runs, a candidate.
oldest_from-In :
    (account namespace : String) (now : Time) (o : Option TaskRun) (runs : List TaskRun)
    (run : TaskRun)
    → oldest_from account namespace now o runs ≡ some run
    → (o ≡ some run) ⊎ (In run runs × (is_candidate account namespace now run ≡ true))
unfolding oldest_from
oldest_from-In account namespace now o [] run e = inl e
oldest_from-In account namespace now none (x ∷ runs) run e = ground (
  arith,
  oldest_from-In account namespace now none runs run,
  oldest_from-In account namespace now (some x) runs run,
)
oldest_from-In account namespace now (some y) (x ∷ runs) run e = ground (
  arith,
  oldest_from-In account namespace now (some y) runs run,
  oldest_from-In account namespace now (some x) runs run,
)

-- What the loop of the namespaces stops at is what that namespace can give.
claim_round-try :
    (input : ClaimInput) (s : Store) (ids : List String) (start left offset : ℕ)
    (namespace : String) (run : TaskRun)
    → claim_round input s ids start left offset ≡ some (namespace, run)
    → try_namespace input namespace s ≡ some run
unfolding claim_round
claim_round-try input s ids start zero offset namespace run e = cc
claim_round-try input s ids start (suc left) offset namespace run e =
    ground (arith, claim_round-try input s ids start left (offset + 1) namespace run)

pub choose-try :
    (input : ClaimInput) (s : Store) (namespace : String) (run : TaskRun)
    → choose input s ≡ some (namespace, run)
    → try_namespace input namespace s ≡ some run
unfolding choose
choose-try input s namespace run e = claim_round-try input s _ _ _ 0 namespace run e

pub try_namespace-run :
    (input : ClaimInput) (namespace : String) (s : Store) (run : TaskRun)
    → try_namespace input namespace s ≡ some run
    → (reaches
          (count_active_for_namespace input.account_id namespace s.task_runs)
          (get_or (lookup namespace s.namespaces) zero_namespace).max_active_runs
        ≡ false)
      × In run (values s.task_runs)
      × (is_candidate input.account_id namespace input.now run ≡ true)
unfolding try_namespace oldest_eligible_run
try_namespace-run input namespace s run e =
    ground
      (arith, oldest_from-In input.account_id namespace input.now none (values s.task_runs) run)

-- The run that is chosen stands in the store under its id, is queued in the namespace and due, and the
-- namespace has room.
pub choose-run :
    (input : ClaimInput) (s : Store) (namespace : String) (run : TaskRun)
    → HasKeys s
    → choose input s ≡ some (namespace, run)
    → (lookup run.id s.task_runs ≡ some run)
      × (is_candidate input.account_id namespace input.now run ≡ true)
      × (reaches
            (count_active_for_namespace input.account_id namespace s.task_runs)
            (get_or (lookup namespace s.namespaces) zero_namespace).max_active_runs
          ≡ false)
choose-run input s namespace run v e =
    let (room, member, fits) =
      try_namespace-run input namespace s run (choose-try input s namespace run e) in
    (
      All-In (λ (r : TaskRun). lookup r.id s.task_runs ≡ some r) run (values s.task_runs)
          (values_found _ s.task_runs v.runs_keyed) member,
      fits,
      room,
    )
