-- ===== src/TaskSession/Invariant/Capacity.antt =====
-- internal/tasksession/store.go: how many runs are running at once.
use accounts.Base.{
  ◌%◌, ◌≤◌, ◌<◌, String, ◌≡◌, refl, sym, subst, ◌∙◌, true, false, some, arith, inl, inr, get_or,
}
use accounts.Base.Word.{word, reaches}
use accounts.Base.Text.{eqs, eqs_iff}
use accounts.Base.Dict.{
  Dict, lookup, insert, contains, one_if, found-insert, count-insert_new, count-insert_old,
}
use accounts.Base.Keyed.{count-eq-zero}
use accounts.TaskSession.Types.{
  Namespace, TaskRun, ClaimInput, Store, task_run_running, task_run_queued,
}
use accounts.TaskSession.Namespaces.{put_namespace, zero_namespace}
use accounts.TaskSession.Events.{put_event}
use accounts.TaskSession.Messages.{put_message}
use accounts.TaskSession.Runs.{put_run_event}
use accounts.TaskSession.Claim.{
  put_claim, claimed, is_active, is_active_in, is_candidate, count_active,
  count_active_for_namespace,
}
use accounts.TaskSession.Change.{
  Change, Continues, Follows, Enters, same, add_namespace, add_session, add_event, add_message,
  add_run, continue_run, add_run_event, claim,
}
use accounts.TaskSession.Change.Scheduling.{step-Change}
use accounts.TaskSession.Machine.{Reach, start, next}
use accounts.TaskSession.Invariant.Keys.{HasKeys, Reach-HasKeys, run_id}
use accounts.TaskSession.Invariant.Ownership.{IsOwned, Reach-IsOwned, run-tenant}
use accounts.TaskSession.Invariant.Choice.{choose-run}

abbrev pub AccountCap : Dict TaskRun → Type 0
AccountCap runs = (a : String) → count_active a runs ≤ 5

abbrev pub NamespaceCap : Dict TaskRun → Dict Namespace → Type 0
NamespaceCap runs namespaces =
    (a k : String) (ns : Namespace)
    → lookup k namespaces ≡ some ns
    → count_active_for_namespace a k runs ≤ ns.max_active_runs % word

-- No account has more than five runs running, no namespace more than its own limit, and no limit is
-- above two.
pub record IsCapped (s : Store) : Type 0 where
  pub account_cap : AccountCap s.task_runs
  pub namespace_cap : NamespaceCap s.task_runs s.namespaces
  pub small_limits :
      (k : String) (ns : Namespace)
      → lookup k s.namespaces ≡ some ns
      → ns.max_active_runs % word ≤ 2

running_before : (a b : String) → Follows a b → eqs b task_run_running ≡ true → a ≡ task_run_running
running_before a b (inl e) r = sym e ∙ (eqs_iff b _).0 r
running_before a b (inr (inl (e, done))) r = e
running_before a b (inr (inr (e, f))) r =
    let never : false ≡ true = subst (λ c. eqs c task_run_running ≡ true) f r in cc

queued_idle : (a : String) → a ≡ task_run_queued → eqs a task_run_running ≡ false
queued_idle a e = subst (λ c. eqs c task_run_running ≡ false) (sym e) refl

-- Running runs stay counted, and no other begins to count.
Continues-count :
    (run run' : TaskRun) (a : String)
    → Continues run run'
    → one_if (is_active a) run' ≤ one_if (is_active a) run
Continues-count run run' a c =
    ground
      (arith, running_before run.state run'.state c.follows, eqs_iff run.state task_run_running)

Continues-count_in :
    (run run' : TaskRun) (a k : String)
    → Continues run run'
    → one_if (is_active_in a k) run' ≤ one_if (is_active_in a k) run
Continues-count_in run run' a k c =
    ground
      (arith, running_before run.state run'.state c.follows, eqs_iff run.state task_run_running)

module _ (s : Store) (keys : HasKeys s) (v : IsCapped s) where
  -- A run that enters the queue is not counted.
  Enters-account : (run : TaskRun) → Enters s run → AccountCap (insert run.id run s.task_runs)
  unfolding count_active
  Enters-account run enters a = ground (
    arith,
    v.account_cap a,
    count-insert_new (is_active a) run.id run s.task_runs,
    enters.fresh,
    queued_idle run.state enters.queued,
  )

  Enters-namespace :
      (run : TaskRun) → Enters s run → NamespaceCap (insert run.id run s.task_runs) s.namespaces
  unfolding count_active_for_namespace
  Enters-namespace run enters a k ns f = ground (
    arith,
    v.namespace_cap a k ns f,
    count-insert_new (is_active_in a k) run.id run s.task_runs,
    enters.fresh,
    queued_idle run.state enters.queued,
  )

  module _ (k : String) (run run' : TaskRun) (f : lookup k s.task_runs ≡ some run)
      (c : Continues run run') where
    -- The run is found under the id that it is written back to.
    continued_key : lookup run'.id s.task_runs ≡ some run
    continued_key =
        subst (λ i. lookup i s.task_runs ≡ some run) (sym (c.same_id ∙ run_id s keys f)) f

    Continues-account : AccountCap (insert run'.id run' s.task_runs)
    unfolding count_active
    Continues-account a = omega (
      arith,
      v.account_cap a,
      count-insert_old (is_active a) run'.id run' run s.task_runs continued_key,
      Continues-count run run' a c,
    )

    Continues-namespace : NamespaceCap (insert run'.id run' s.task_runs) s.namespaces
    unfolding count_active_for_namespace
    Continues-namespace a j ns g = omega (
      arith,
      v.namespace_cap a j ns g,
      count-insert_old (is_active_in a j) run'.id run' run s.task_runs continued_key,
      Continues-count_in run run' a j c,
    )

-- A claim adds one run to the count of its account and of its namespace, and both had room.
claimed-account :
    (s : Store) (input : ClaimInput) (token namespace : String) (run : TaskRun)
    → AccountCap s.task_runs
    → lookup run.id s.task_runs ≡ some run
    → is_candidate input.account_id namespace input.now run ≡ true
    → count_active input.account_id s.task_runs < 5
    → AccountCap (insert run.id (claimed input token run) s.task_runs)
unfolding count_active claimed
claimed-account s input token namespace run v f fits below a = ground (
  arith,
  v a,
  count-insert_old (is_active a) run.id (claimed input token run) run s.task_runs f,
  eqs_iff run.account_id input.account_id,
  eqs_iff run.account_id a,
  eqs_iff input.account_id a,
  eqs_iff run.state task_run_queued,
  queued_idle run.state,
)

claimed-namespace :
    (s : Store) (input : ClaimInput) (token namespace : String) (run : TaskRun)
    → NamespaceCap s.task_runs s.namespaces
    → lookup run.id s.task_runs ≡ some run
    → is_candidate input.account_id namespace input.now run ≡ true
    → reaches
        (count_active_for_namespace input.account_id namespace s.task_runs)
        (get_or (lookup namespace s.namespaces) zero_namespace).max_active_runs
      ≡ false
    → NamespaceCap (insert run.id (claimed input token run) s.task_runs) s.namespaces
unfolding count_active_for_namespace claimed
claimed-namespace s input token namespace run v f fits room a k ns g = ground (
  arith,
  v a k ns g,
  count-insert_old (is_active_in a k) run.id (claimed input token run) run s.task_runs f,
  eqs_iff run.account_id input.account_id,
  eqs_iff run.account_id a,
  eqs_iff run.namespace_id namespace,
  eqs_iff run.namespace_id k,
  eqs_iff run.state task_run_queued,
  queued_idle run.state,
)

-- A namespace that is not there has no run.
no_runs :
    (s : Store) (a k : String)
    → HasKeys s
    → IsOwned s
    → contains k s.namespaces ≡ false
    → count_active_for_namespace a k s.task_runs ≡ 0
unfolding count_active_for_namespace
no_runs s a k keys o fresh =
    count-eq-zero _ (is_active_in a k) s.task_runs keys.runs_keyed λ j run f.
      let (_, ns, _, g, _, _, _) = run-tenant j run o f in
      ground (arith, g, eqs_iff run.namespace_id k)

module _ (s t : Store) (keys : HasKeys s) (o : IsOwned s) (v : IsCapped s) where
  Change-IsCapped : Change s t → IsCapped t
  unfolding put_namespace put_event put_message put_run_event put_claim claimed
  Change-IsCapped (same e) = subst IsCapped (sym e) v
  Change-IsCapped (add_namespace ns fresh small e) = subst IsCapped (sym e) (record {
    account_cap = v.account_cap;
    namespace_cap = λ a.
        found-insert
          (λ k (w : Namespace).
            count_active_for_namespace a k s.task_runs ≤ w.max_active_runs % word)
          ns.id ns s.namespaces (v.namespace_cap a) (omega (arith, no_runs s a ns.id keys o fresh));
    small_limits =
        found-insert (λ _ (w : Namespace). w.max_active_runs % word ≤ 2) ns.id ns s.namespaces
          v.small_limits small;
  })
  Change-IsCapped (add_session x fresh owned zero_seq zero_ver e) = subst IsCapped (sym e) (record {
    account_cap = v.account_cap;
    namespace_cap = v.namespace_cap;
    small_limits = v.small_limits;
  })
  Change-IsCapped (add_event ev context x f n e) = subst IsCapped (sym e) (record {
    account_cap = v.account_cap;
    namespace_cap = v.namespace_cap;
    small_limits = v.small_limits;
  })
  Change-IsCapped (add_message m q run routing context x f n o' enters e) =
      subst IsCapped (sym e) (record {
        account_cap = (Enters-account s keys v run enters);
        namespace_cap = (Enters-namespace s keys v run enters);
        small_limits = v.small_limits;
      })
  Change-IsCapped (add_run run enters e) = subst IsCapped (sym e) (record {
    account_cap = (Enters-account s keys v run enters);
    namespace_cap = (Enters-namespace s keys v run enters);
    small_limits = v.small_limits;
  })
  Change-IsCapped (continue_run k run run' f c e) = subst IsCapped (sym e) (record {
    account_cap = (Continues-account s keys v k run run' f c);
    namespace_cap = (Continues-namespace s keys v k run run' f c);
    small_limits = v.small_limits;
  })
  Change-IsCapped (add_run_event ev context k run run' x f n g c e) =
      subst IsCapped (sym e) (record {
        account_cap = (Continues-account s keys v k run run' g c);
        namespace_cap = (Continues-namespace s keys v k run run' g c);
        small_limits = v.small_limits;
      })
  Change-IsCapped (claim input token namespace run below chosen e) =
      let (f, fits, room) = choose-run input s namespace run keys chosen in
      subst IsCapped (sym e) (record {
        account_cap = (claimed-account s input token namespace run v.account_cap f fits below);
        namespace_cap = (claimed-namespace s input token namespace run v.namespace_cap f fits room);
        small_limits = v.small_limits;
      })

-- In every store that calls lead to, in whatever order and with whatever limits the workers ask for, no
-- account has more than five runs running, no namespace more than its limit, and no limit is above two.
pub Reach-IsCapped : {s : Store} → Reach s → IsCapped s
Reach-IsCapped start = record {
  account_cap = λ a. (unfold count_active in omega arith);
  namespace_cap = λ a k ns f. cc;
  small_limits = λ k ns f. cc;
}
Reach-IsCapped (next {s = s} r c fresh now) =
    Change-IsCapped s _ (Reach-HasKeys r) (Reach-IsOwned r) (Reach-IsCapped r)
      (step-Change c fresh now s)
