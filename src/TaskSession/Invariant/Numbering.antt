-- ===== src/TaskSession/Invariant/Numbering.antt =====
-- internal/tasksession: the numbers of the events of a session.
use accounts.Base.{
  ℕ, zero, suc, ◌+◌, ◌<◌, String, ◌≡◌, refl, ap, sym, subst, ◌∙◌, true, false, some, none, Option,
  List, [], ◌∷◌, ◌++◌, arith, inl, inr, get_or, length, get_elem?, Bool-cases, if◌then◌else◌,
}
use accounts.Base.Word.{half_word, add64}
use accounts.Base.Text.{eqs, eqs_iff}
use accounts.Base.Dict.{Dict, lookup, insert, contains, lookup-insert}
use accounts.TaskSession.Value.{Object}
use accounts.TaskSession.Types.{Session, Event, Store}
use accounts.TaskSession.Namespaces.{put_namespace}
use accounts.TaskSession.Events.{log, put_event, advance}
use accounts.TaskSession.Messages.{put_message, advance_twice}
use accounts.TaskSession.Runs.{put_run_event}
use accounts.TaskSession.Claim.{put_claim}
use accounts.TaskSession.Change.{
  Change, same, add_namespace, add_session, add_event, add_message, add_run, continue_run,
  add_run_event, claim,
}
use accounts.TaskSession.Change.Scheduling.{step-Change}
use accounts.TaskSession.Machine.{Reach, start, next}
use accounts.TaskSession.Invariant.Keys.{HasKeys, Reach-HasKeys, session_id}

-- Each event's number is the successor of the one before; the first follows `n`, the last is `m`.
abbrev pub Gapless : ℕ → List Event → ℕ → Type 0
Gapless n [] m = m ≡ n
Gapless n (e ∷ es) m = (e.seq ≡ add64 n 1) × Gapless e.seq es m

Gapless-snoc :
    (n m : ℕ) (es : List Event) (e : Event)
    → Gapless n es m
    → e.seq ≡ add64 m 1
    → Gapless n (es ++ e ∷ []) e.seq
Gapless-snoc n m [] e h q = (q ∙ ap (λ i. add64 i 1) h, refl)
Gapless-snoc n m (x ∷ es) e h q = (h.0, Gapless-snoc x.seq m es e h.1 q)

Gapless-snoc_snoc :
    (n m : ℕ) (es : List Event) (e f : Event)
    → Gapless n es m
    → e.seq ≡ add64 m 1
    → f.seq ≡ add64 e.seq 1
    → Gapless n (es ++ e ∷ f ∷ []) f.seq
Gapless-snoc_snoc n m [] e f h q r = (q ∙ ap (λ i. add64 i 1) h, (r, refl))
Gapless-snoc_snoc n m (x ∷ es) e f h q r = (h.0, Gapless-snoc_snoc x.seq m es e f h.1 q r)

-- What a session knows of its log.
abbrev pub Numbered : Session → List Event → Type 0
Numbered x es = Gapless 0 es x.last_event_seq × (x.snapshot_ver ≡ x.last_event_seq)

-- A session knows its log, and where there is no session there is no log.
abbrev pub NumberedAt : Option Session → Option (List Event) → Type 0
NumberedAt none es = get_or es [] ≡ []
NumberedAt (some x) es = Numbered x (get_or es [])

abbrev pub AllNumbered : Dict Session → Dict (List Event) → Type 0
AllNumbered sessions events = (k : String) → NumberedAt (lookup k sessions) (lookup k events)

-- A session and its log are written together.
AllNumbered-insert :
    (k : String) (x : Session) (es : List Event) (ss : Dict Session) (ls : Dict (List Event))
    → AllNumbered ss ls
    → Numbered x es
    → AllNumbered (insert k x ss) (insert k es ls)
AllNumbered-insert k x es ss ls h n j =
    rw (lookup-insert j k x ss, lookup-insert j k es ls)
      (elim (eqs j k)
        as (λ b.
          NumberedAt (if b then some x else lookup j ss) (if b then some es else lookup j ls)) [
            | true ↦ n
            | false ↦ h j
          ])

-- Where there is no session there is no log.
no_log :
    (k : String) (ss : Dict Session) (ls : Dict (List Event))
    → AllNumbered ss ls
    → contains k ss ≡ false
    → get_or (lookup k ls) [] ≡ []
no_log k ss ls h fresh =
    let none_there : lookup k ss ≡ none = ground arith in
    subst (λ o. NumberedAt o (lookup k ls)) none_there (h k)

AllNumbered-insert_new :
    (k : String) (x : Session) (ss : Dict Session) (ls : Dict (List Event))
    → AllNumbered ss ls
    → contains k ss ≡ false
    → x.last_event_seq ≡ 0
    → x.snapshot_ver ≡ 0
    → AllNumbered (insert k x ss) ls
AllNumbered-insert_new k x ss ls h fresh seq ver j =
    rw (lookup-insert j k x ss) (elim (Bool-cases (eqs j k)) [
      | inl hit ↦
          rw (hit, (eqs_iff j k).0 hit)
            (subst (λ es. Numbered x es) (sym (no_log k ss ls h fresh)) (seq, ver ∙ sym seq))
      | inr miss ↦ rw miss (h j)
    ])

abbrev pub IsNumbered : Store → Type 0
IsNumbered r = AllNumbered r.sessions r.events

module _ (s t : Store) (keys : HasKeys s) (v : IsNumbered s) where
  -- What the session under a key knows of its log.
  numbered : (k : String) (x : Session) → lookup k s.sessions ≡ some x → Numbered x (log s k)
  numbered k x f = subst (λ o. NumberedAt o (lookup k s.events)) f (v k)

  -- One more event, with the session that it was numbered by.
  one_more :
      (e : Event) (x x' : Session)
      → lookup e.session_id s.sessions ≡ some x
      → e.seq ≡ add64 x.last_event_seq 1
      → x'.last_event_seq ≡ e.seq
      → x'.snapshot_ver ≡ add64 x.snapshot_ver 1
      → AllNumbered
          (insert x.id x' s.sessions)
          (insert e.session_id (log s e.session_id ++ e ∷ []) s.events)
  one_more e x x' f q seq ver =
      let (chain, level) = numbered e.session_id x f in
      subst
        (λ i.
          AllNumbered (insert i x' s.sessions)
            (insert e.session_id (log s e.session_id ++ e ∷ []) s.events))
        (sym (session_id s keys f))
        (AllNumbered-insert e.session_id x' _ s.sessions s.events v (
          subst (Gapless 0 _) (sym seq) (Gapless-snoc 0 x.last_event_seq _ e chain q),
          ver ∙ ap (λ i. add64 i 1) level ∙ sym q ∙ sym seq,
        ))

  -- Two more events at once.
  two_more :
      (m q : Event) (context : Object) (x : Session)
      → lookup m.session_id s.sessions ≡ some x
      → m.seq ≡ add64 x.last_event_seq 1
      → q.seq ≡ add64 m.seq 1
      → AllNumbered
          (insert x.id (advance_twice q context x) s.sessions)
          (insert m.session_id (log s m.session_id ++ m ∷ q ∷ []) s.events)
  unfolding advance_twice
  two_more m q context x f n o =
      let (chain, level) = numbered m.session_id x f in
      subst
        (λ i.
          AllNumbered (insert i (advance_twice q context x) s.sessions)
            (insert m.session_id (log s m.session_id ++ m ∷ q ∷ []) s.events))
        (sym (session_id s keys f))
        (AllNumbered-insert m.session_id (advance_twice q context x) _ s.sessions s.events v
          (Gapless-snoc_snoc 0 x.last_event_seq _ m q chain n o, omega (arith, level, n, o)))

  Change-IsNumbered : Change s t → IsNumbered t
  unfolding put_namespace put_event advance put_message advance_twice put_run_event put_claim
  Change-IsNumbered (same e) = subst IsNumbered (sym e) v
  Change-IsNumbered (add_namespace ns fresh small e) = subst IsNumbered (sym e) v
  Change-IsNumbered (add_session x fresh owned seq ver e) =
      subst IsNumbered (sym e) (AllNumbered-insert_new x.id x s.sessions s.events v fresh seq ver)
  Change-IsNumbered (add_event ev context x f n e) =
      subst IsNumbered (sym e) (one_more ev x (advance ev context x) f n refl refl)
  Change-IsNumbered (add_message m q run routing context x f n o enters e) =
      subst IsNumbered (sym e) (two_more m q context x f n o)
  Change-IsNumbered (add_run run enters e) = subst IsNumbered (sym e) v
  Change-IsNumbered (continue_run k run run' f c e) = subst IsNumbered (sym e) v
  Change-IsNumbered (add_run_event ev context k run run' x f n g c e) =
      subst IsNumbered (sym e) (one_more ev x (advance ev context x) f n refl refl)
  Change-IsNumbered (claim input token namespace run below chosen e) = subst IsNumbered (sym e) v

-- In every store that calls lead to, the events of a session are numbered one after the other from 1
-- (as int64), the session's `LastEventSeq` and `SnapshotVer` are the last number, and an id that is no
-- session's has no events.
pub Reach-IsNumbered : {s : Store} → Reach s → IsNumbered s
Reach-IsNumbered start = λ k. refl
Reach-IsNumbered (next {s = s} r c fresh now) =
    Change-IsNumbered s _ (Reach-HasKeys r) (Reach-IsNumbered r) (step-Change c fresh now s)

-- A log of fewer than 2^63 events holds the event number i + 1 at its position i.
pub Gapless-seq :
    (n m : ℕ) (es : List Event) (i : ℕ) (e : Event)
    → Gapless n es m
    → n + length es < half_word
    → get_elem? es i ≡ some e
    → e.seq ≡ n + i + 1
Gapless-seq n m [] i e g small f = cc
Gapless-seq n m (x ∷ es) zero e g small f = let at : x ≡ e = cc in rw (← at) (omega arith)
Gapless-seq n m (x ∷ es) (suc i) e g small f =
    omega (arith, Gapless-seq x.seq m es i e g.1 (omega arith) f)

pub Gapless-last :
    (n m : ℕ) (es : List Event) → Gapless n es m → n + length es < half_word → m ≡ n + length es
Gapless-last n m [] g small = omega arith
Gapless-last n m (x ∷ es) g small = omega (arith, Gapless-last x.seq m es g.1 (omega arith))
