-- ===== src/TaskSession/Fairness.antt =====
-- internal/tasksession/store.go: the loop of `oldestEligibleRun`.
use accounts.Base.{
  String, ◌≡◌, refl, subst, true, false, Option, some, none, List, [], ◌∷◌, arith, is_some, In, All,
  Bool-cases, inl, inr, if◌then◌else◌,
}
use accounts.TaskSession.Types.{Time, TaskRun}
use accounts.TaskSession.Claim.{is_candidate, goes_before, select, oldest_from}

not_before_trans :
    (x y z : TaskRun) → goes_before x y ≡ false → goes_before y z ≡ false → goes_before x z ≡ false
not_before_trans x y z h k = ground arith

before_asymm : (x y : TaskRun) → goes_before x y ≡ true → goes_before y x ≡ false
before_asymm x y h = ground arith

before_irrefl : (x : TaskRun) → goes_before x x ≡ false
before_irrefl x = ground arith

-- The result of the loop goes behind neither what it began with nor any candidate.
module _ (account namespace : String) (now : Time) where
  abbrev pub IsBest : TaskRun → TaskRun → Type 0
  IsBest run x = is_candidate account namespace now x ≡ true → goes_before x run ≡ false

  abbrev BestOf : TaskRun → Option TaskRun → Type 0
  BestOf run none = Unit
  BestOf run (some y) = goes_before y run ≡ false

  -- One round of the loop.
  abbrev round : Option TaskRun → TaskRun → Option TaskRun
  round o x = if is_candidate account namespace now x then select o x else o

  round-BestOf :
      (run x : TaskRun) (o : Option TaskRun) → BestOf run (round o x) → BestOf run o × IsBest run x
  round-BestOf run x none h = elim (Bool-cases (is_candidate account namespace now x)) [
    | inl hit ↦ (tt, λ _. rw hit at h)
    | inr miss ↦ (tt, λ hit. ground arith)
  ]
  round-BestOf run x (some y) h = elim (Bool-cases (is_candidate account namespace now x)) [
    | inl hit ↦ chosen (rw hit at h)
    | inr miss ↦ (rw miss at h, λ hit. ground arith)
  ]
    where
      chosen : BestOf run (select (some y) x) → BestOf run (some y) × IsBest run x
      chosen b = elim (Bool-cases (goes_before x y)) [
        | inl first ↦
            let at : goes_before x run ≡ false = rw first at b in
            (not_before_trans y x run (before_asymm x y first) at, λ _. at)
        | inr later ↦
            let at : goes_before y run ≡ false = rw later at b in
            (at, λ _. not_before_trans x y run later at)
      ]

  pub oldest_from-IsBest :
      (o : Option TaskRun) (runs : List TaskRun) (run : TaskRun)
      → oldest_from account namespace now o runs ≡ some run
      → BestOf run o × All (IsBest run) runs
  unfolding oldest_from
  oldest_from-IsBest o [] run e = (rw e (before_irrefl run), tt)
  oldest_from-IsBest o (x ∷ runs) run e =
      let (b, rest) = oldest_from-IsBest (round o x) runs run e in
      let (c, d) = round-BestOf run x o b in (c, (d, rest))

  oldest_from-some :
      (o : Option TaskRun) (runs : List TaskRun)
      → is_some o ≡ true
      → is_some (oldest_from account namespace now o runs) ≡ true
  unfolding oldest_from
  oldest_from-some o [] h = h
  oldest_from-some none (x ∷ runs) h = cc
  oldest_from-some (some y) (x ∷ runs) h = oldest_from-some (round (some y) x) runs (ground arith)

  pub oldest_from-In_some :
      (o : Option TaskRun) (run : TaskRun) (runs : List TaskRun)
      → In run runs
      → is_candidate account namespace now run ≡ true
      → is_some (oldest_from account namespace now o runs) ≡ true
  unfolding oldest_from
  oldest_from-In_some o run [] i h = absurd i
  oldest_from-In_some o run (x ∷ runs) (inl e) h = oldest_from-some (round o x) runs (
      let hit : is_candidate account namespace now x ≡ true =
        subst (λ r. is_candidate account namespace now r ≡ true) e h in
      rw hit (selected o))
    where
      selected : (o : Option TaskRun) → is_some (select o x) ≡ true
      selected none = refl
      selected (some y) = refl
  oldest_from-In_some o run (x ∷ runs) (inr i) h = oldest_from-In_some (round o x) run runs i h
