-- ===== src/TaskSession/Replay.antt =====
-- internal/tasksession/store.go: `ListEvents` and the log of a session.
use accounts.Base.{
  ℕ, zero, suc, ◌+◌, ◌≤◌, ◌<◌, String, ◌≡◌, refl, ap, subst, ◌∙◌, some, List, [], ◌∷◌, arith,
  length, take, drop, Result, ok,
}
use accounts.Base.Word.{half_word}
use accounts.Base.Text.{eqs_iff, trim}
use accounts.Base.Dict.{lookup}
use accounts.TaskSession.Types.{Error, Session, Event, Store}
use accounts.TaskSession.Events.{log, list_events, page_from, page_size, cursor}
use accounts.TaskSession.Machine.{Reach}
use accounts.TaskSession.Invariant.Keys.{Reach-HasKeys, session_id}
use accounts.TaskSession.Invariant.Numbering.{Gapless, Numbered, NumberedAt, Reach-IsNumbered}

-- Behind the cursor the page is the next events.
page_from-behind :
    (after n m limit : ℕ) (es : List Event)
    → Gapless n es m
    → after ≤ n
    → n + length es < half_word
    → page_from after limit es ≡ take limit es
unfolding page_from
page_from-behind after n m zero [] g h small = refl
page_from-behind after n m (suc limit) [] g h small = refl
page_from-behind after n m zero (e ∷ es) g h small = refl
page_from-behind after n m (suc limit) (e ∷ es) g h small =
    ground (arith, page_from-behind after e.seq m limit es g.1)

-- Before the cursor the events are passed over.
page_from-drop :
    (d after n m limit : ℕ) (es : List Event)
    → Gapless n es m
    → after ≡ n + d
    → after < half_word
    → n + length es < half_word
    → 0 < limit
    → page_from after limit es ≡ take limit (drop d es)
unfolding page_from
page_from-drop d after n m zero es g h bound small pos = absurd (omega arith)
page_from-drop zero after n m (suc limit) es g h bound small pos =
    page_from-behind after n m (suc limit) es g (omega arith) small
page_from-drop (suc d) after n m (suc limit) [] g h bound small pos = refl
page_from-drop (suc d) after n m (suc limit) (e ∷ es) g h bound small pos =
    ground (arith, page_from-drop d after e.seq m (suc limit) es g.1)

page_size-pos : (limit : ℕ) → 0 < page_size limit
page_size-pos limit = ground arith

list_events-page :
    (account k : String) (after limit : ℕ) (s : Store) (x : Session)
    → lookup (trim k) s.sessions ≡ some x
    → x.id ≡ trim k
    → x.account_id ≡ trim account
    → list_events account k after limit s
      ≡ ok (page_from (cursor after) (page_size limit) (log s (trim k)))
unfolding list_events
list_events-page account k after limit s x f i a =
    ground (arith, eqs_iff x.account_id (trim account))

-- For the owner of a session of fewer than 2^63 events, `ListEvents` returns exactly the events behind
-- the cursor, in order and as many as a page holds: a negative cursor counts as 0, and a limit outside
-- 1..500 as 100.
pub list_events-take :
    {s : Store} (account k : String) (after limit : ℕ) (x : Session)
    → Reach s
    → lookup (trim k) s.sessions ≡ some x
    → x.account_id ≡ trim account
    → cursor after < half_word
    → length (log s (trim k)) < half_word
    → list_events account k after limit s
      ≡ ok (take (page_size limit) (drop (cursor after) (log s (trim k))))
list_events-take {s} account k after limit x r f a bound small =
    let at : Numbered x (log s (trim k)) =
      subst (λ o. NumberedAt o (lookup (trim k) s.events)) f (Reach-IsNumbered r (trim k)) in
    list_events-page account k after limit s x f (session_id s (Reach-HasKeys r) f) a
    ∙ ap {B = Result Error (List Event)} ok (
        page_from-drop (cursor after) (cursor after) 0 x.last_event_seq (page_size limit) _ at.0
          (omega arith) bound (omega arith) (page_size-pos limit))
