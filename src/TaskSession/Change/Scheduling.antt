-- ===== src/TaskSession/Change/Scheduling.antt =====
-- internal/tasksession: the operations of scheduler.go, `ClaimNext` and the steps of the machine as
-- changes.
use accounts.Base.{
  ℕ, ◌<◌, ◌≡◌, refl, ◌⊎◌, String, true, false, some, ok, after-rule, arith, inl, inr,
}
use accounts.Base.Word.{add64, reaches}
use accounts.Base.Text.{eqs, eqs_iff}
use accounts.Base.Dict.{lookup, insert}
use accounts.TaskSession.Value.{text}
use accounts.TaskSession.Payload.{cancel_requested_payload, cancelled_before_start_payload}
use accounts.TaskSession.Types.{
  Time, Session, Event, TaskRun, task_run_queued, task_run_canceled, event_run_cancelled,
  event_run_cancel_requested, ClaimInput, RenewLeaseInput, CancelRunInput, Store, RenewLeaseResult,
  TaskRunEventResult,
}
use accounts.TaskSession.Leases.{
  renew_lease, renewed, normalize_renew, request_cancel, normalize_cancel, cancel_new, cancel_event,
  put_cancel,
}
use accounts.TaskSession.Claim.{
  claim_next, normalize_claim, choose, count_active, claimed, put_claim,
}
use accounts.TaskSession.Machine.{
  Call, ensures_namespace, creates_namespace, creates_session, appends_event, appends_message,
  enqueues, claims, records, renews, cancels, step,
}
use accounts.TaskSession.Change.{Change, Continues, same, continue_run, add_run_event, claim}
use accounts.TaskSession.Change.Refines.{
  create_namespace-Change, ensure_personal_namespace-Change, create_session-Change,
  append_event-Change, append_message-Change, enqueue_task_run-Change, record_task_run_event-Change,
}

kept_run : (run : TaskRun) → Continues run run
kept_run run = record {
  same_id = refl;
  same_account = refl;
  same_namespace = refl;
  same_session = refl;
  same_fence = refl;
  follows = inl refl;
}

renew_lease-found :
    (raw : RenewLeaseInput) (now : Time) (s t : Store) (r : RenewLeaseResult)
    → renew_lease raw now s ≡ ok (r, t)
    → (input : RenewLeaseInput) × (normalize_renew raw now ≡ ok input)
      × (run : TaskRun) × (lookup input.task_run_id s.task_runs ≡ some run)
      × (t ≡ record s { task_runs = insert run.id (renewed input run) s.task_runs })
unfolding renew_lease
renew_lease-found raw now s t r h = ground arith

renew_lease-Change :
    (raw : RenewLeaseInput) (now : Time) (s t : Store) (r : RenewLeaseResult)
    → renew_lease raw now s ≡ ok (r, t)
    → Change s t
unfolding renewed
renew_lease-Change raw now s t r h =
    let (input, _, run, f, e) = renew_lease-found raw now s t r h in
    continue_run input.task_run_id run (renewed input run) f
      (record {
        same_id = refl;
        same_account = refl;
        same_namespace = refl;
        same_session = refl;
        same_fence = refl;
        follows = inl refl;
      })
      e

put_cancel-Change :
    (k : String) (e : Event) (run run' : TaskRun) (x : Session) (s t : Store)
    (r : TaskRunEventResult)
    → lookup k s.task_runs ≡ some run
    → lookup e.session_id s.sessions ≡ some x
    → e.seq ≡ add64 x.last_event_seq 1
    → Continues run run'
    → put_cancel e run' x s ≡ ok (r, t)
    → Change s t
unfolding put_cancel
put_cancel-Change k e run run' x s t r f g n c h =
    add_run_event e (insert "lastRunState" (text run'.state) x.context) k run run' x g n f c
      (ground arith)

-- The event and the run of an outright cancel, and the event of a request to cancel.
abbrev outright : CancelRunInput → TaskRun → Session → Event
outright input run x =
    cancel_event input event_run_cancelled (cancelled_before_start_payload run.id) x

abbrev dropped : CancelRunInput → TaskRun → TaskRun
dropped input run = record run { state = task_run_canceled; updated_at = input.created_at }

abbrev asked : CancelRunInput → TaskRun → Session → Event
asked input run x =
    cancel_event input event_run_cancel_requested (cancel_requested_payload run.id) x

cancel_new-cases :
    (input : CancelRunInput) (run : TaskRun) (x : Session) (s t : Store) (r : TaskRunEventResult)
    → cancel_new input run x s ≡ ok (r, t)
    → (t ≡ s)
      ⊎ ((eqs run.state task_run_queued ≡ true)
          × (put_cancel (outright input run x) (dropped input run) x s ≡ ok (r, t)))
      ⊎ (put_cancel (asked input run x) run x s ≡ ok (r, t))
unfolding cancel_new
cancel_new-cases input run x s t r h = ground arith

cancel_new-Change :
    (k : String) (input : CancelRunInput) (run : TaskRun) (x : Session) (s t : Store)
    (r : TaskRunEventResult)
    → lookup k s.task_runs ≡ some run
    → lookup input.session_id s.sessions ≡ some x
    → cancel_new input run x s ≡ ok (r, t)
    → Change s t
unfolding cancel_event
cancel_new-Change k input run x s t r f g h = elim (cancel_new-cases input run x s t r h) [
  | inl kept ↦ same kept
  | inr (inl (waiting, put)) ↦
      put_cancel-Change k (outright input run x) run (dropped input run) x s t r f g refl
        (record {
          same_id = refl;
          same_account = refl;
          same_namespace = refl;
          same_session = refl;
          same_fence = refl;
          follows = inr (inr ((eqs_iff _ _).0 waiting, refl));
        })
        put
  | inr (inr put) ↦
      put_cancel-Change k (asked input run x) run run x s t r f g refl (kept_run run) put
]

request_cancel-cases :
    (raw : CancelRunInput) (now : Time) (s t : Store) (r : TaskRunEventResult)
    → request_cancel raw now s ≡ ok (r, t)
    → (input : CancelRunInput) × (normalize_cancel raw now ≡ ok input)
      × (x : Session) × (lookup input.session_id s.sessions ≡ some x)
      × (run : TaskRun) × (lookup input.task_run_id s.task_runs ≡ some run)
      × ((t ≡ s) ⊎ (cancel_new input run x s ≡ ok (r, t)))
unfolding request_cancel
request_cancel-cases raw now s t r h = ground arith

request_cancel-Change :
    (raw : CancelRunInput) (now : Time) (s t : Store) (r : TaskRunEventResult)
    → request_cancel raw now s ≡ ok (r, t)
    → Change s t
request_cancel-Change raw now s t r h =
    let (input, _, x, g, run, f, how) = request_cancel-cases raw now s t r h in
    elim how [
      | inl kept ↦ same kept
      | inr new ↦ cancel_new-Change input.task_run_id input run x s t r f g new
    ]

-- At most five runs of an account, whatever the worker asks for.
normalize_claim-bound :
    (raw : ClaimInput) (now : Time) (n : ℕ)
    → reaches n (normalize_claim raw now).max_global_active ≡ false
    → n < 5
unfolding normalize_claim
normalize_claim-bound raw now n h = ground arith

pub claim_next-found :
    (raw : ClaimInput) (token : String) (now : Time) (s t : Store) (run : TaskRun)
    → claim_next raw token now s ≡ ok (run, t)
    → let input = normalize_claim raw now in
      (reaches (count_active input.account_id s.task_runs) input.max_global_active ≡ false)
      × (found : String × TaskRun) × (choose input s ≡ some found)
      × (run ≡ claimed input token found.1)
      × (t ≡ put_claim input found.0 (claimed input token found.1) s)
unfolding claim_next
claim_next-found raw token now s t run h = ground arith

claim_next-Change :
    (raw : ClaimInput) (token : String) (now : Time) (s t : Store) (run : TaskRun)
    → claim_next raw token now s ≡ ok (run, t)
    → Change s t
claim_next-Change raw token now s t run h =
    let (below, found, chosen, _, e) = claim_next-found raw token now s t run h in
    claim (normalize_claim raw now) token found.0 found.1 (normalize_claim-bound raw now _ below)
      chosen e

-- Every step of the store is one of the nine changes.
pub step-Change :
    (c : Call) (fresh : String) (now : Time) (s : Store) → Change s (step c fresh now s)
unfolding step
step-Change (ensures_namespace account created) fresh now s =
    after-rule (Change s) s _ (same refl)
      (λ a t. ensure_personal_namespace-Change account fresh created now s t a)
step-Change (creates_namespace input) fresh now s =
    after-rule (Change s) s _ (same refl) (λ a t. create_namespace-Change input now s t a)
step-Change (creates_session input) fresh now s =
    after-rule (Change s) s _ (same refl) (λ a t. create_session-Change input now s t a)
step-Change (appends_event input) fresh now s =
    after-rule (Change s) s _ (same refl) (λ a t. append_event-Change input now s t a)
step-Change (appends_message input) fresh now s =
    after-rule (Change s) s _ (same refl) (λ a t. append_message-Change input fresh now s t a)
step-Change (enqueues input) fresh now s =
    after-rule (Change s) s _ (same refl) (λ a t. enqueue_task_run-Change input now s t a)
step-Change (claims input) fresh now s =
    after-rule (Change s) s _ (same refl) (λ a t. claim_next-Change input fresh now s t a)
step-Change (records input) fresh now s =
    after-rule (Change s) s _ (same refl) (λ a t. record_task_run_event-Change input now s t a)
step-Change (renews input) fresh now s =
    after-rule (Change s) s _ (same refl) (λ a t. renew_lease-Change input now s t a)
step-Change (cancels input) fresh now s =
    after-rule (Change s) s _ (same refl) (λ a t. request_cancel-Change input now s t a)
