-- ===== src/TaskSession/Retry.antt =====
-- internal/tasksession/store.go: the repetition of `AppendEvent` under the same client request id.
use accounts.Base.{
  ◌≡◌, ◌≢◌, Bool-cases, ℕ, Option, String, ◌⊎◌, inl, inr, refl, sym, ap, subst, ◌∙◌, true, false,
  some, none, arith, ok,
}
use text.Mathlib.TextLemmas.{append_cancel_left}
use accounts.Base.Text.{eqs, is_empty, trim}
use accounts.Base.Dict.{lookup, lookup-insert_self, lookup-insert_ne}
use accounts.Base.Word.{add64}
use accounts.TaskSession.Payload.{marshal_event_payload}
use accounts.TaskSession.Types.{Time, Event, Session, AppendEventInput, Store}
use accounts.TaskSession.Events.{
  append_event, append_new_event, put_event, event_of, advance, request_key, event_context,
}
use accounts.TaskSession.Invariant.Keys.{HasKeys, session_id}

-- What a new event leaves: itself under its request, and the session one event further.
append_event-new :
    (input : AppendEventInput) (now : Time) (s t : Store) (e : Event)
    → append_event input now s ≡ ok (e, t)
    → is_empty input.client_request_id ≡ false
    → (x : Session) × (lookup input.session_id s.sessions ≡ some x)
      × (eqs x.account_id input.account_id ≡ true)
      × (((t ≡ s)
            × (lookup (request_key input.session_id input.client_request_id) s.event_by_request
                ≡ some e))
          ⊎ ((lookup (request_key input.session_id input.client_request_id) s.event_by_request
                ≡ none)
              × (e ≡ event_of input now x)
              × (t ≡ put_event e (advance e (event_context input.payload x.context) x) s)))
unfolding append_event append_new_event
append_event-new input now s t e h solid = ground arith

-- A request that is known is answered with its event.
append_event-known :
    (input : AppendEventInput) (now : Time) (s : Store) (e : Event) (x : Session)
    → lookup input.session_id s.sessions ≡ some x
    → eqs x.account_id input.account_id ≡ true
    → is_empty input.client_request_id ≡ false
    → lookup (request_key input.session_id input.client_request_id) s.event_by_request ≡ some e
    → append_event input now s ≡ ok (e, s)
unfolding append_event
append_event-known input now s e x found own solid known = rw (found, own, solid, known) refl

put_event-request :
    (e : Event) (x : Session) (s : Store)
    → is_empty e.client_request_id ≡ false
    → lookup (request_key e.session_id e.client_request_id) (put_event e x s).event_by_request
      ≡ some e
unfolding put_event
put_event-request e x s solid =
    rw solid
      (lookup-insert_self (request_key e.session_id e.client_request_id) e s.event_by_request)

put_event-session :
    (e : Event) (x : Session) (s : Store) → lookup x.id (put_event e x s).sessions ≡ some x
unfolding put_event
put_event-session e x s = lookup-insert_self x.id x s.sessions

-- A request with a trimmed id that is repeated is answered as before: after AppendEvent has returned an event,
-- the same call at any later time returns the same event and leaves the store as it is. (The client request
-- id is not empty and has no spaces around it; the store holds its sessions under their ids.)
pub append_event-retry :
    (input : AppendEventInput) (now later : Time) (s t : Store) (e : Event)
    → HasKeys s
    → is_empty input.client_request_id ≡ false
    → trim input.client_request_id ≡ input.client_request_id
    → append_event input now s ≡ ok (e, t)
    → append_event input later t ≡ ok (e, t)
unfolding event_of advance
append_event-retry input now later s t e v solid trimmed h =
    let (x, found, own, cases) = append_event-new input now s t e h solid in
    elim cases [
      | inl (is, old) ↦
          subst (λ u. append_event input later u ≡ ok (e, u)) (sym is)
            (append_event-known input later s e x found own solid old)
      | inr (_, made, is) ↦
          let y = advance e (event_context input.payload x.context) x in
          let request_id : e.client_request_id ≡ input.client_request_id =
            ap (λ (w : Event). w.client_request_id) made ∙ trimmed in
          let session : e.session_id ≡ input.session_id = ap (λ (w : Event). w.session_id) made in
          let known : lookup (request_key input.session_id input.client_request_id)
                (put_event e y s).event_by_request
              ≡ some e =
            subst
              (λ i.
                lookup (request_key i input.client_request_id) (put_event e y s).event_by_request
                ≡ some e)
              session
              (subst
                (λ c.
                  lookup (request_key e.session_id c) (put_event e y s).event_by_request ≡ some e)
                request_id
                (put_event-request e y s
                  (subst (λ c. is_empty c ≡ false) (sym request_id) solid))) in
          let there : lookup input.session_id (put_event e y s).sessions ≡ some y =
            subst (λ i. lookup i (put_event e y s).sessions ≡ some y) (session_id s v found)
              (put_event-session e y s) in
          subst (λ u. append_event input later u ≡ ok (e, u)) (sym is)
            (append_event-known input later (put_event e y s) e y there own solid known)
    ]

-- Two ids of one session that differ have different keys.
request_key_ne : (session a b : String) → a ≢ b → request_key session a ≢ request_key session b
request_key_ne session a b ne e =
    ne (append_cancel_left "\0" a b (append_cancel_left session _ _ e))

-- A new event that was stored under another id than it was sent with is not found again.
put_event-padded :
    (input : AppendEventInput) (now : Time) (s : Store) (x y : Session)
    → trim input.client_request_id ≢ input.client_request_id
    → lookup (request_key input.session_id input.client_request_id) s.event_by_request ≡ none
    → lookup
        (request_key input.session_id input.client_request_id)
        (put_event (event_of input now x) y s).event_by_request
      ≡ none
unfolding put_event event_of
put_event-padded input now s x y padded none_yet =
    let key = request_key input.session_id input.client_request_id in
    let stored = request_key input.session_id (trim input.client_request_id) in
    let apart : key ≢ stored = request_key_ne input.session_id _ _ (λ e. padded (sym e)) in
    let kept = lookup-insert_ne key stored (event_of input now x) s.event_by_request apart in
    elim (Bool-cases (is_empty (trim input.client_request_id))) [
      | inl blank ↦ rw blank none_yet
      | inr solid ↦ rw solid (kept ∙ none_yet)
    ]

append_event-fits :
    (input : AppendEventInput) (now : Time) (s t : Store) (e : Event)
    → append_event input now s ≡ ok (e, t)
    → lookup (request_key input.session_id input.client_request_id) s.event_by_request ≡ none
    → (size : ℕ) × (marshal_event_payload input.payload ≡ ok size)
unfolding append_event append_new_event
append_event-fits input now s t e h none_yet = ground arith

append_event-unknown :
    (input : AppendEventInput) (now : Time) (s : Store) (x : Session) (size : ℕ)
    → lookup input.session_id s.sessions ≡ some x
    → eqs x.account_id input.account_id ≡ true
    → is_empty input.client_request_id ≡ false
    → lookup (request_key input.session_id input.client_request_id) s.event_by_request ≡ none
    → marshal_event_payload input.payload ≡ ok size
    → append_event input now s
      ≡ ok (
        event_of input now x,
        put_event
            (event_of input now x)
            (advance (event_of input now x) (event_context input.payload x.context) x)
            s,
      )
unfolding append_event append_new_event
append_event-unknown input now s x size found own solid none_yet fits =
    rw (found, own, solid, none_yet, fits) refl

-- A request whose id has spaces around it is not recognised when it is repeated: after AppendEvent has stored
-- an event for it, the same call at any later time stores another event, with the next number. (The client
-- request id is not its own trimmed text, no event is stored under the id as it was sent, and the store holds
-- its sessions under their ids.)
pub append_event-padded :
    (input : AppendEventInput) (now later : Time) (s t : Store) (e : Event)
    → HasKeys s
    → is_empty input.client_request_id ≡ false
    → trim input.client_request_id ≢ input.client_request_id
    → lookup (request_key input.session_id input.client_request_id) s.event_by_request ≡ none
    → append_event input now s ≡ ok (e, t)
    → (again : Event) × (u : Store) × (append_event input later t ≡ ok (again, u))
      × (again.seq ≡ add64 e.seq 1)
unfolding event_of advance
append_event-padded input now later s t e v solid padded none_yet h =
    let (x, found, own, cases) = append_event-new input now s t e h solid in
    let (size, fits) = append_event-fits input now s t e h none_yet in
    elim cases [
      | inl (_, old) ↦ absurd (clash none_yet old)
      | inr (_, made, is) ↦
          let y = advance e (event_context input.payload x.context) x in
          let there : lookup input.session_id t.sessions ≡ some y =
            subst (λ u. lookup input.session_id u.sessions ≡ some y) (sym is)
              (subst (λ i. lookup i (put_event e y s).sessions ≡ some y) (session_id s v found)
                (put_event-session e y s)) in
          let unknown : lookup (request_key input.session_id input.client_request_id)
                t.event_by_request
              ≡ none =
            subst
              (λ u.
                lookup (request_key input.session_id input.client_request_id) u.event_by_request
                ≡ none)
              (sym is)
              (subst
                (λ w.
                  lookup (request_key input.session_id input.client_request_id)
                    (put_event w y s).event_by_request
                  ≡ none)
                (sym made) (put_event-padded input now s x y padded none_yet)) in
          (_, _, append_event-unknown input later t y size there own solid unknown fits, refl)
    ]
  where
    clash : {o : Option Event} {w : Event} → o ≡ none → o ≢ some w
    clash e f = cc
