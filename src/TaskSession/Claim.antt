-- ===== src/TaskSession/Claim.antt =====
-- internal/tasksession/store.go: `ClaimNext`, by which a worker takes the next run of an account.
use accounts.Base.{
  ℕ, zero, suc, ◌+◌, ◌%◌, String, Bool, ◌||◌, ◌&&◌, not, Option, none, some, List, [], ◌∷◌, length,
  get_elem?, get_or, keep, count, any, ltb, leb, sort_by, if◌then◌else◌, Result, ok, ◌>>=◌, ◌>>◌,
  fail_if, or_fail,
}
use accounts.Base.Word.{add64, eq64, slt, sle, reaches}
use accounts.Base.Text.{eqs, lts, is_empty}
use accounts.Base.Dict.{lookup, contains, insert, values, Dict}
use accounts.TaskSession.Namespaces.{zero_namespace}
use accounts.TaskSession.Types.{
  Time, is_zero, task_run_queued, task_run_running, Error, no_eligible_task, TaskRun, ClaimInput,
  Store,
}

abbrev pub default_global_max_active : ℕ
default_global_max_active = 5

-- A minute.
abbrev pub default_lease_ttl : ℕ
default_lease_ttl = 60000000000

unfoldable pub normalize_claim : ClaimInput → Time → ClaimInput
normalize_claim input now = record input {
  now = if is_zero input.now then now else input.now;
  max_global_active =
      if sle input.max_global_active 0 || slt default_global_max_active input.max_global_active
      then default_global_max_active
      else input.max_global_active;
  lease_ttl = if sle input.lease_ttl 0 then default_lease_ttl else input.lease_ttl;
}

-- The runs of an account, and of a namespace, that are running, and their numbers.
abbrev pub is_active : String → TaskRun → Bool
is_active account run = eqs run.account_id account && eqs run.state task_run_running

abbrev pub is_active_in : String → String → TaskRun → Bool
is_active_in account namespace run =
    eqs run.account_id account && eqs run.namespace_id namespace && eqs run.state task_run_running

unfoldable pub count_active : String → Dict TaskRun → ℕ
count_active account runs = count (is_active account) (values runs)

unfoldable pub count_active_for_namespace : String → String → Dict TaskRun → ℕ
count_active_for_namespace account namespace runs =
    count (is_active_in account namespace) (values runs)

-- A queued run of the account whose time has come.
abbrev pub is_due : String → Time → TaskRun → Bool
is_due account now run =
    eqs run.account_id account && eqs run.state task_run_queued && leb run.not_before now

-- `seen[id] = true` for the namespaces of the due runs.
unfoldable pub seen_namespaces : String → Time → List TaskRun → List String
seen_namespaces account now [] = []
seen_namespaces account now (run ∷ runs) =
    let rest = seen_namespaces account now runs in
    if is_due account now run && not (any (eqs run.namespace_id) rest)
    then run.namespace_id ∷ rest
    else rest

unfoldable pub eligible_namespace_ids : ClaimInput → Store → List String
eligible_namespace_ids input s = sort_by lts (
    keep (λ id. contains id s.namespaces)
      (seen_namespaces input.account_id input.now (values s.task_runs)))

-- Whether a run goes before the one selected so far: by priority, then by age.
abbrev pub goes_before : TaskRun → TaskRun → Bool
goes_before run selected =
    slt selected.priority run.priority
    || (eq64 run.priority selected.priority && ltb run.created_at selected.created_at)

abbrev pub is_candidate : String → String → Time → TaskRun → Bool
is_candidate account namespace now run =
    eqs run.account_id account
    && eqs run.namespace_id namespace
    && eqs run.state task_run_queued
    && leb run.not_before now

abbrev pub select : Option TaskRun → TaskRun → Option TaskRun
select none run = some run
select (some selected) run = some (if goes_before run selected then run else selected)

-- The loop of `oldestEligibleRun`.
unfoldable pub oldest_from : String → String → Time → Option TaskRun → List TaskRun → Option TaskRun
oldest_from account namespace now selected [] = selected
oldest_from account namespace now selected (run ∷ runs) =
    oldest_from account namespace now
      (if is_candidate account namespace now run then select selected run else selected) runs

unfoldable pub oldest_eligible_run : String → String → Time → Dict TaskRun → Option TaskRun
unfolding oldest_from
oldest_eligible_run account namespace now runs =
    oldest_from account namespace now none (values runs)

-- The first position of a text, if it is there.
unfoldable pub index_of : String → ℕ → List String → Option ℕ
index_of last i [] = none
index_of last i (id ∷ ids) = if eqs id last then some i else index_of last (i + 1) ids

-- Where the round starts: behind the namespace that was served last.
unfoldable pub start_of : String → List String → ℕ
unfolding index_of
start_of last ids =
    if is_empty last
    then 0
    else elim (index_of last 0 ids) [ none ↦ 0 | some i ↦ (i + 1) % length ids ]

-- The run as its new holder has it; the token is `uuid.NewString()`.
unfoldable pub claimed : ClaimInput → String → TaskRun → TaskRun
claimed input token run = record run {
  state = task_run_running;
  attempt = add64 run.attempt 1;
  lease_owner = input.worker_id;
  lease_token = token;
  lease_expires = input.now + input.lease_ttl;
  fence = add64 run.fence 1;
  updated_at = input.now;
}

unfoldable pub put_claim : ClaimInput → String → TaskRun → Store → Store
put_claim input namespace run s = record s {
  task_runs = insert run.id run s.task_runs;
  last_claim_namespace = insert input.account_id namespace s.last_claim_namespace;
}

-- What a namespace can give: nothing if it is full or has no candidate.
unfoldable pub try_namespace : ClaimInput → String → Store → Option TaskRun
unfolding count_active_for_namespace oldest_eligible_run
try_namespace input namespace s =
    let ns = get_or (lookup namespace s.namespaces) zero_namespace in
    if reaches (count_active_for_namespace input.account_id namespace s.task_runs)
      ns.max_active_runs
    then none
    else oldest_eligible_run input.account_id namespace input.now s.task_runs

-- The loop of `ClaimNext`, with the rounds that are left: the namespace that it stops at, and its run.
unfoldable pub claim_round :
    ClaimInput → Store → List String → ℕ → ℕ → ℕ → Option (String × TaskRun)
claim_round input s ids start zero offset = none
claim_round input s ids start (suc left) offset =
    let rest = claim_round input s ids start left (offset + 1) in
    let namespace = get_or (get_elem? ids ((start + offset) % length ids)) "" in
    elim (try_namespace input namespace s) [ none ↦ rest | some run ↦ some (namespace, run) ]

-- The choice that `ClaimNext` makes among the eligible namespaces.
unfoldable pub choose : ClaimInput → Store → Option (String × TaskRun)
unfolding claim_round start_of
choose input s =
    let ids = eligible_namespace_ids input s in
    let last = get_or (lookup input.account_id s.last_claim_namespace) "" in
    claim_round input s ids (start_of last ids) (length ids) 0

unfoldable pub claim_next : ClaimInput → String → Time → Store → Result Error (TaskRun × Store)
unfolding claimed put_claim
claim_next raw token now s = do
  let input = normalize_claim raw now
  fail_if (reaches (count_active input.account_id s.task_runs) input.max_global_active)
      no_eligible_task
  (namespace, run) ← or_fail (choose input s) no_eligible_task
  ok (claimed input token run, put_claim input namespace (claimed input token run) s)
