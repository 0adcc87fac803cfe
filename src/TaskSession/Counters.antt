-- ===== src/TaskSession/Counters.antt =====
-- internal/tasksession/store.go: the numbers of a session's events, and the session's counters.
use accounts.Base.{ℕ, ◌+◌, ◌<◌, ◌≡◌, arith, subst, String, some, length, get_elem?}
use accounts.Base.Word.{half_word}
use accounts.Base.Dict.{lookup}
use accounts.TaskSession.Types.{Session, Event, Store}
use accounts.TaskSession.Events.{log}
use accounts.TaskSession.Invariant.Numbering.{
  Numbered, NumberedAt, Reach-IsNumbered, Gapless-seq, Gapless-last,
}
use accounts.TaskSession.Machine.{Reach}

Reach-Numbered :
    {s : Store}
    → Reach s
    → (k : String) (x : Session) → lookup k s.sessions ≡ some x
    → Numbered x (log s k)
Reach-Numbered {s} r k x f = subst (λ o. NumberedAt o (lookup k s.events)) f (Reach-IsNumbered r k)

-- In every store that calls lead to, a session of fewer than 2^63 events has LastEventSeq and SnapshotVer
-- equal to the number of its events.
pub Reach-counters :
    {s : Store}
    → Reach s
    → (k : String) (x : Session) → lookup k s.sessions ≡ some x
    → length (log s k) < half_word
    → (x.last_event_seq ≡ length (log s k)) × (x.snapshot_ver ≡ length (log s k))
Reach-counters {s} r k x f small =
    let (gapless, version) = Reach-Numbered r k x f in
    let last = Gapless-last 0 x.last_event_seq (log s k) gapless (omega arith) in
    (omega arith, omega arith)

-- In every store that calls lead to, the event at position i of a session's log of fewer than 2^63 events has
-- the number i + 1: there is no gap and no repetition.
pub Reach-seq :
    {s : Store}
    → Reach s
    → (k : String) (x : Session) (i : ℕ) (e : Event) → lookup k s.sessions ≡ some x
    → length (log s k) < half_word
    → get_elem? (log s k) i ≡ some e
    → e.seq ≡ i + 1
Reach-seq {s} r k x i e f small at =
    let number =
      Gapless-seq 0 x.last_event_seq (log s k) i e (Reach-Numbered r k x f).0 (omega arith) at in
    omega arith
