-- ===== src/TaskSession/Progress.antt =====
-- internal/tasksession/store.go: the rounds of `ClaimNext` and what they find.
use accounts.Base.{
  ℕ, zero, suc, ◌+◌, ◌-◌, ◌%◌, ◌≤◌, ◌<◌, String, ◌≡◌, refl, sym, subst, ◌∙◌, ap, true, false, ◌&&◌,
  not, some, none, List, [], ◌∷◌, arith, is_some, In, All, any, length, get_elem?, get_or, ok,
  Bool-cases, Option-cases, inl, inr, ◌⊎◌, In-sort_by, In-keep, In-position,
}
use native.Mathlib.Nat.{mod-eq_of_lt, add-mod_right, mod-lt}
use accounts.Base.Word.{reaches}
use accounts.Base.Text.{eqs_refl, eqs, eqs_iff, lts, is_empty}
use accounts.Base.Dict.{lookup, values, contains}
use accounts.TaskSession.Types.{Time, TaskRun, ClaimInput, Store}
use accounts.TaskSession.Namespaces.{zero_namespace}
use accounts.TaskSession.Change.Scheduling.{claim_next-found}
use accounts.TaskSession.Invariant.Choice.{choose-try, try_namespace-run}
use accounts.TaskSession.Claim.{
  is_candidate, oldest_eligible_run, try_namespace, seen_namespaces, is_due, eligible_namespace_ids,
  start_of, index_of, claim_round, choose, claim_next, normalize_claim, claimed, put_claim,
  count_active, count_active_for_namespace,
}
use accounts.TaskSession.Fairness.{IsBest, oldest_from-In_some, oldest_from-IsBest}

-- The namespaces of the due runs are seen.
In-any : (id : String) (ids : List String) → any (eqs id) ids ≡ true → In id ids
In-any id [] h = cc
In-any id (x ∷ ids) h = elim (Bool-cases (eqs id x)) [
  | inl hit ↦ inl ((eqs_iff id x).0 hit)
  | inr miss ↦ inr (In-any id ids (ground arith))
]

In-seen_namespaces :
    (account : String) (now : Time) (run : TaskRun) (runs : List TaskRun)
    → In run runs
    → is_due account now run ≡ true
    → In run.namespace_id (seen_namespaces account now runs)
unfolding seen_namespaces
In-seen_namespaces account now run [] i h = absurd i
In-seen_namespaces account now run (x ∷ runs) (inr i) h =
    let ih = In-seen_namespaces account now run runs i h in
    elim (Bool-cases
      (is_due account now x && not (any (eqs x.namespace_id) (seen_namespaces account now runs)))) [
        | inl new ↦ rw new (inr ih)
        | inr old ↦ rw old ih
      ]
In-seen_namespaces account now run (x ∷ runs) (inl e) h =
    elim (Bool-cases (any (eqs x.namespace_id) (seen_namespaces account now runs))) [
      | inl old ↦
          let there : In run.namespace_id (seen_namespaces account now runs) =
            subst (λ (r : TaskRun). In r.namespace_id (seen_namespaces account now runs)) (sym e)
              (In-any x.namespace_id _ old) in
          rw (old, due) there
      | inr new ↦ rw (new, due) (inl (ap (λ (r : TaskRun). r.namespace_id) e))
    ]
  where
    due : is_due account now x ≡ true
    due = subst (λ r. is_due account now r ≡ true) e h

-- The namespace at a position of the round.
abbrev served : List String → ℕ → String
served ids p = get_or (get_elem? ids (p % length ids)) ""

-- If the rounds that are left find nothing, no namespace that they visit had anything.
claim_round-none :
    (input : ClaimInput) (s : Store) (ids : List String) (start left offset j p : ℕ)
    → claim_round input s ids start left offset ≡ none
    → j < left
    → p ≡ start + offset + j
    → try_namespace input (served ids p) s ≡ none
unfolding claim_round
claim_round-none input s ids start zero offset j p e h at = absurd (omega arith)
claim_round-none input s ids start (suc left) offset zero p e h at =
    let here : p ≡ start + offset = omega arith in rw here (ground arith)
claim_round-none input s ids start (suc left) offset (suc j) p e h at =
    claim_round-none input s ids start left (offset + 1) j p (ground arith) (omega arith)
      (omega arith)

le-or-lt : (a b : ℕ) → (a ≤ b) ⊎ (b < a)
le-or-lt zero b = inl (omega arith)
le-or-lt (suc a) zero = inr (omega arith)
le-or-lt (suc a) (suc b) = elim (le-or-lt a b) [
  | inl p ↦ inl (omega arith)
  | inr q ↦ inr (omega arith)
]

-- Some round comes to each position.
round_reaches : (start i n : ℕ) → start < n → i < n → (j : ℕ) × (j < n) × ((start + j) % n ≡ i)
round_reaches start i n h k = elim (le-or-lt start i) [
  | inl e ↦ (i - start, omega arith, ap (λ a. a % n) (omega arith) ∙ mod-eq_of_lt k)
  | inr less ↦ (
    i + n - start,
    omega arith,
    ap (λ a. a % n) (omega arith) ∙ add-mod_right i n ∙ mod-eq_of_lt k,
  )
]

start_of-lt : (last : String) (ids : List String) → 0 < length ids → start_of last ids < length ids
unfolding start_of
start_of-lt last ids h = elim (Bool-cases (is_empty last)) [
  | inl e ↦ rw e h
  | inr e ↦ rw e (elim (Option-cases (index_of last 0 ids)) [
    | inl n ↦ rw n h
    | inr (i, f) ↦ rw f (mod-lt (i + 1) h)
  ])
]

due-candidate :
    (account : String) (now : Time) (run : TaskRun)
    → is_due account now run ≡ true
    → is_candidate account run.namespace_id now run ≡ true
due-candidate account now run h = ground (arith, eqs_refl run.namespace_id)

-- A namespace with room and a due run has something to give.
try_namespace-some :
    (input : ClaimInput) (s : Store) (run : TaskRun)
    → In run (values s.task_runs)
    → is_due input.account_id input.now run ≡ true
    → reaches
        (count_active_for_namespace input.account_id run.namespace_id s.task_runs)
        (get_or (lookup run.namespace_id s.namespaces) zero_namespace).max_active_runs
      ≡ false
    → is_some (try_namespace input run.namespace_id s) ≡ true
unfolding try_namespace oldest_eligible_run
try_namespace-some input s run member due room = rw room (
    oldest_from-In_some input.account_id run.namespace_id input.now none run (values s.task_runs)
      member (due-candidate input.account_id input.now run due))

-- A due run of an existing namespace with room makes the choice succeed.
choose-some :
    (input : ClaimInput) (s : Store) (run : TaskRun)
    → In run (values s.task_runs)
    → is_due input.account_id input.now run ≡ true
    → contains run.namespace_id s.namespaces ≡ true
    → reaches
        (count_active_for_namespace input.account_id run.namespace_id s.task_runs)
        (get_or (lookup run.namespace_id s.namespaces) zero_namespace).max_active_runs
      ≡ false
    → is_some (choose input s) ≡ true
unfolding choose eligible_namespace_ids
choose-some input s run member due there room =
    let ids = eligible_namespace_ids input s in
    let seen = In-seen_namespaces input.account_id input.now run (values s.task_runs) member due in
    let (i, small, at) = In-position run.namespace_id ids (
      In-sort_by lts run.namespace_id _
        (In-keep (λ id. contains id s.namespaces) run.namespace_id _ seen there)) in
    let start = start_of (get_or (lookup input.account_id s.last_claim_namespace) "") ids in
    let (j, below, lands) =
      round_reaches start i (length ids) (start_of-lt _ ids (omega arith)) small in
    elim (Option-cases (claim_round input s ids start (length ids) 0)) [
      | inl nothing ↦
          let empty : try_namespace input (served ids (start + j)) s ≡ none =
            claim_round-none input s ids start (length ids) 0 j (start + j) nothing below
              (omega arith) in
          let is_here : served ids (start + j) ≡ run.namespace_id = rw (lands, at) refl in
          let some_here : is_some (try_namespace input run.namespace_id s) ≡ true =
            try_namespace-some input s run member due room in
          ground arith
      | inr (x, found) ↦ rw found refl
    ]

-- `ClaimNext` finds work: if the account is below its limit, and has a due run whose namespace exists and
-- has room, then the call claims a run. (It need not be that run.)
pub claim_next-progress :
    (raw : ClaimInput) (token : String) (now : Time) (s : Store) (run : TaskRun)
    → reaches (count_active raw.account_id s.task_runs) (normalize_claim raw now).max_global_active
      ≡ false
    → In run (values s.task_runs)
    → is_due raw.account_id (normalize_claim raw now).now run ≡ true
    → contains run.namespace_id s.namespaces ≡ true
    → reaches
        (count_active_for_namespace raw.account_id run.namespace_id s.task_runs)
        (get_or (lookup run.namespace_id s.namespaces) zero_namespace).max_active_runs
      ≡ false
    → (r : TaskRun) × (t : Store) × (claim_next raw token now s ≡ ok (r, t))
unfolding claim_next normalize_claim
claim_next-progress raw token now s run below member due there room =
    let input = normalize_claim raw now in
    let can : is_some (choose (normalize_claim raw now) s) ≡ true =
      choose-some input s run member due there room in
    elim (Option-cases (choose input s)) [
      | inl nothing ↦ ground arith
      | inr ((namespace, x), found) ↦ (
        claimed input token x,
        put_claim input namespace (claimed input token x) s,
        rw (below, found) refl,
      )
    ]

-- What a namespace gives is its best candidate.
try_namespace-IsBest :
    (input : ClaimInput) (namespace : String) (s : Store) (run : TaskRun)
    → try_namespace input namespace s ≡ some run
    → All (IsBest input.account_id namespace input.now run) (values s.task_runs)
unfolding try_namespace oldest_eligible_run
try_namespace-IsBest input namespace s run e =
    elim (Bool-cases (
      reaches (count_active_for_namespace input.account_id namespace s.task_runs)
        (get_or (lookup namespace s.namespaces) zero_namespace).max_active_runs)) [
          | inl full ↦ cc
          | inr room ↦
              (oldest_from-IsBest input.account_id namespace input.now none (values s.task_runs) run
                (rw room at e)).1
        ]

-- `ClaimNext` serves its namespace by priority and then by age: the run that it claims was a queued run of
-- the account and is due; it comes back as `claimed` makes it; and no due queued run of the same namespace
-- has a higher priority, or the same priority and an earlier creation.
pub claim_next-IsBest :
    (raw : ClaimInput) (token : String) (now : Time) (s t : Store) (r : TaskRun)
    → claim_next raw token now s ≡ ok (r, t)
    → (run : TaskRun) × (r ≡ claimed (normalize_claim raw now) token run)
      × (is_candidate raw.account_id run.namespace_id (normalize_claim raw now).now run ≡ true)
      × In run (values s.task_runs)
      × All
          (IsBest raw.account_id run.namespace_id (normalize_claim raw now).now run)
          (values s.task_runs)
unfolding normalize_claim
claim_next-IsBest raw token now s t r e =
    let (_, (namespace, run), chosen, is, _) = claim_next-found raw token now s t r e in
    let tried = choose-try (normalize_claim raw now) s namespace run chosen in
    let (_, member, fits) = try_namespace-run (normalize_claim raw now) namespace s run tried in
    let same : namespace ≡ run.namespace_id =
      sym ((eqs_iff run.namespace_id namespace).0 (ground arith)) in
    (
      run,
      is,
      subst (λ n. is_candidate raw.account_id n (normalize_claim raw now).now run ≡ true) same fits,
      member,
      subst
          (λ n.
            All (IsBest raw.account_id n (normalize_claim raw now).now run) (values s.task_runs))
          same (try_namespace-IsBest (normalize_claim raw now) namespace s run tried),
    )
