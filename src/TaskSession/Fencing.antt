-- ===== src/TaskSession/Fencing.antt =====
-- internal/tasksession: the lease of a claimed run and its fence (`ClaimNext`, `RecordTaskRunEvent`,
-- `RenewLease`).
use accounts.Base.{
  ◌+◌, ◌≡◌, ◌≢◌, ◌<◌, refl, sym, subst, String, true, false, ◌||◌, some, arith, ok, err,
  err_unless-ok, if◌then◌else◌,
}
use accounts.Base.Word.{slt}
use accounts.Base.Text.{eqs, eqs_iff, is_empty, trim}
use accounts.Base.Dict.{lookup, lookup-insert_self}
use accounts.TaskSession.Types.{
  Time, is_zero, Error, TaskRun, ClaimInput, TaskRunEventInput, TaskRunEventResult, RenewLeaseInput,
  RenewLeaseResult, Store, task_run_running,
}
use accounts.TaskSession.Claim.{normalize_claim, claim_next, claimed, put_claim}
use accounts.TaskSession.Runs.{holds_lease, record_task_run_event, put_run}
use accounts.TaskSession.Leases.{
  renew_lease, renewed, normalize_renew, min_scheduler_lease_ttl, max_scheduler_lease_ttl,
  cancel_requested,
}
use accounts.TaskSession.Change.Scheduling.{claim_next-found}

-- The claimed run stands in the new store, running.
claim_next-stored :
    (raw : ClaimInput) (token : String) (now : Time) (s t : Store) (r : TaskRun)
    → claim_next raw token now s ≡ ok (r, t)
    → (lookup r.id t.task_runs ≡ some r) × (r.state ≡ task_run_running)
unfolding put_claim claimed
claim_next-stored raw token now s t r h =
    let (_, (namespace, run), _, is, e) = claim_next-found raw token now s t r h in
    let made = claimed (normalize_claim raw now) token run in
    let there : lookup r.id t.task_runs ≡ some r =
      subst (λ u. lookup r.id u.task_runs ≡ some r) (sym e)
        (subst
          (λ w.
            lookup w.id (put_claim (normalize_claim raw now) namespace made s).task_runs ≡ some w)
          (sym is) (lookup-insert_self made.id made s.task_runs)) in
    let running : r.state ≡ task_run_running = rw is refl in (there, running)

record-stale :
    (input : TaskRunEventInput) (now : Time) (t : Store) (r : TaskRun)
    → lookup (trim input.task_run_id) t.task_runs ≡ some r
    → input.fence ≢ r.fence
    → (e : Error) × (record_task_run_event input now t ≡ err e)
unfolding record_task_run_event
record-stale input now t r found ne = err_unless-ok _ λ (result, u) h. stale result u h
  where
    stale :
        (result : TaskRunEventResult) (u : Store)
        → record_task_run_event input now t ≢ ok (result, u)
    stale result u h = ground arith

-- A claim fences earlier holders off: once ClaimNext has handed a run out, RecordTaskRunEvent for that run
-- with any other fence than the one handed out is an error, whatever else it says.
pub claim_next-fences :
    (raw : ClaimInput) (token : String) (now : Time) (s t : Store) (r : TaskRun)
    (input : TaskRunEventInput) (later : Time)
    → claim_next raw token now s ≡ ok (r, t)
    → trim input.task_run_id ≡ r.id
    → input.fence ≢ r.fence
    → (e : Error) × (record_task_run_event input later t ≡ err e)
claim_next-fences raw token now s t r input later h same ne =
    let (there, _) = claim_next-stored raw token now s t r h in
    record-stale input later t r (rw same there) ne

-- The input as it is read, at the time that counts.
abbrev read : RenewLeaseInput → Time → RenewLeaseInput
read input later = record input {
  account_id = trim input.account_id;
  task_run_id = trim input.task_run_id;
  worker_id = trim input.worker_id;
  lease_token = trim input.lease_token;
  now = if is_zero input.now then later else input.now;
}

normalize_renew-read :
    (input : RenewLeaseInput) (later : Time)
    → (is_empty (trim input.account_id)
        || is_empty (trim input.task_run_id)
        || is_empty (trim input.worker_id)
        || is_empty (trim input.lease_token))
      ≡ false
    → slt input.lease_ttl min_scheduler_lease_ttl ≡ false
    → slt max_scheduler_lease_ttl input.lease_ttl ≡ false
    → normalize_renew input later ≡ ok (read input later)
unfolding normalize_renew
normalize_renew-read input later solid long short = ground arith

renew_lease-held :
    (input : RenewLeaseInput) (later : Time) (t : Store) (r : TaskRun)
    → normalize_renew input later ≡ ok (read input later)
    → lookup (trim input.task_run_id) t.task_runs ≡ some r
    → r.state ≡ task_run_running
    → eqs r.account_id (trim input.account_id) ≡ true
    → eqs r.lease_owner (trim input.worker_id) ≡ true
    → holds_lease r input.fence (trim input.lease_token) (read input later).now ≡ true
    → renew_lease input later t
      ≡ ok (
        record {
          task_run = renewed (read input later) r;
          cancel_requested =
              cancel_requested
                (renewed (read input later) r)
                (put_run (renewed (read input later) r) t);
        },
        put_run (renewed (read input later) r) t,
      )
unfolding renew_lease
renew_lease-held input later t r normal found running account worker lease =
    rw (normal, found, account, running, lease, worker) refl

-- The holder can renew: after ClaimNext has handed a run out, RenewLease with its account, id, worker, token
-- and fence, at a time before the lease runs out and for a lease time from ten seconds to ten minutes, puts
-- off the end of the lease to that time plus the lease time.
pub claim_next-renew :
    (raw : ClaimInput) (token : String) (now : Time) (s t : Store) (r : TaskRun)
    (input : RenewLeaseInput) (later : Time)
    → claim_next raw token now s ≡ ok (r, t)
    → trim input.account_id ≡ r.account_id
    → trim input.task_run_id ≡ r.id
    → trim input.worker_id ≡ r.lease_owner
    → trim input.lease_token ≡ r.lease_token
    → input.fence ≡ r.fence
    → (is_empty r.account_id || is_empty r.id || is_empty r.lease_owner || is_empty r.lease_token)
      ≡ false
    → (if is_zero input.now then later else input.now) < r.lease_expires
    → slt input.lease_ttl min_scheduler_lease_ttl ≡ false
    → slt max_scheduler_lease_ttl input.lease_ttl ≡ false
    → (result : RenewLeaseResult) × (u : Store) × (renew_lease input later t ≡ ok (result, u))
      × (result.task_run.lease_expires
          ≡ (if is_zero input.now then later else input.now) + input.lease_ttl)
      × (lookup r.id u.task_runs ≡ some result.task_run)
unfolding renewed
claim_next-renew raw token now s t r input later h account id worker lease fence solid before long
      short =
    let (there, running) = claim_next-stored raw token now s t r h in
    let held : holds_lease r input.fence (trim input.lease_token) (read input later).now ≡ true =
      ground (arith, eqs_iff r.lease_token (trim input.lease_token)) in
    (
      _,
      _,
      renew_lease-held input later t r
          (normalize_renew-read input later (rw (account, id, worker, lease) solid) long short)
          (rw id there) running ((eqs_iff _ _).1 (sym account)) ((eqs_iff _ _).1 (sym worker)) held,
      refl,
      lookup-insert_self r.id (renewed (read input later) r) t.task_runs,
    )
