-- ===== src/Auth/Windows.antt =====
-- internal/auth/ratelimit.go: how many calls for a key are let through.
use accounts.Base.{
  ℕ, ◌+◌, ◌-◌, ◌≤◌, ◌<◌, ◌≡◌, refl, sym, ◌∙◌, ap, ◌⊎◌, inl, inr, String, Bool, true, false, ◌&&◌,
  Option, none, some, List, [], ◌∷◌, leb, ltb, if◌then◌else◌, arith, Bool-cases, Option-cases, All,
  count,
}
use accounts.Base.Text.{eqs, eqs_iff, is_empty}
use accounts.Base.Dict.{Dict, lookup, insert, lookup-insert, found-insert}
use accounts.Base.Time.{Time}
use accounts.Base.Word.{sle, sle-leb, add64, half_word}
use accounts.Auth.RateLimiter.{
  RateWindow, RateLimiter, new_rate_limiter, Attempt, allow, leave, answers_to, count_hit,
  open_window, swept_first, swept_first-Kept, is_expired,
}

-- No entry has counted more than the limit.
abbrev pub IsWithin : ℕ → Dict RateWindow → Type 0
IsWithin limit hits = (j : String) (w : RateWindow) → lookup j hits ≡ some w → w.count ≤ limit

module _ (limit window : ℕ) (some_calls : 0 < limit) (small : limit < half_word) where
  -- What counting a call does to the entry of its key, and to the others nothing.
  pub data Counts (now : Time) (key : String) (hits : Dict RateWindow)
      : Bool → Dict RateWindow → Type 0 where
    opens :
        (lookup key hits ≡ none) ⊎ (is_expired now (lookup key hits) ≡ true)
        → Counts now key hits true (insert key (open_window window now) hits)
    counts :
        (w : RateWindow)
        → lookup key hits ≡ some w
        → ltb w.end_at now ≡ false
        → w.count < limit
        → Counts now key hits true (insert key (record w { count = w.count + 1 }) hits)
    refuses :
        (w : RateWindow)
        → lookup key hits ≡ some w
        → ltb w.end_at now ≡ false
        → limit ≤ w.count
        → Counts now key hits false hits

  pub count_hit-Counts :
      (now : Time) (key : String) (hits : Dict RateWindow)
      → IsWithin limit hits
      → let counted = count_hit limit window now key hits in Counts now key hits counted.0 counted.1
  unfolding count_hit
  count_hit-Counts now key hits within = elim (Option-cases (lookup key hits)) [
    | inl new ↦ rw (count_hit, new) (opens (inl new))
    | inr (w, found) ↦ elim (Bool-cases (ltb w.end_at now)) [
      | inl old ↦ rw (count_hit, found, old) (opens (inr (ap (is_expired now) found ∙ old)))
      | inr live ↦
          let bound = within key w found in
          let same : sle limit w.count ≡ leb limit w.count =
            sle-leb limit w.count small (omega arith) in
          elim (Bool-cases (leb limit w.count)) [
            | inl full ↦
                rw (count_hit, found, live, same, full) (refuses w found live (ground arith))
            | inr free ↦
                let next : add64 w.count 1 ≡ w.count + 1 = ground arith in
                rw (count_hit, found, live, same, free, next) (counts w found live (ground arith))
          ]
    ]
  ]

  -- A swept map has no entry above the limit either.
  pub swept-IsWithin :
      (now : Time) (order : List String) (hits : Dict RateWindow)
      → IsWithin limit hits
      → IsWithin limit (swept_first now order hits)
  swept-IsWithin now order hits within j w found = elim (swept_first-Kept now j order hits) [
    | inl same ↦ within j w (sym same ∙ found)
    | inr (gone, _) ↦ absurd (cc)
  ]

  pub Counts-IsWithin :
      (now : Time) (key : String) (hits left : Dict RateWindow) (fine : Bool)
      → IsWithin limit hits
      → Counts now key hits fine left
      → IsWithin limit left
  Counts-IsWithin now key hits left fine within (opens new) =
      found-insert (λ _ (w : RateWindow). w.count ≤ limit) key (open_window window now) hits within
        (omega arith)
  Counts-IsWithin now key hits left fine within (counts w found live free) =
      found-insert (λ _ (v : RateWindow). v.count ≤ limit) key (record w { count = w.count + 1 })
        hits within (omega arith)
  Counts-IsWithin now key hits left fine within (refuses w found live full) = within

  module _ (lasts : 0 < window) (short : window < half_word) where
    abbrev pub limiter : Dict RateWindow → Option RateLimiter
    limiter hits = some (record { limit = limit; window = window; hits = hits })

    -- A call passes by the limiter, or is counted in the swept map.
    pub data Allows (a : Attempt) (hits : Dict RateWindow)
        : Bool × Option RateLimiter → Type 0 where
      passes : is_empty a.key ≡ true → Allows a hits (true, limiter hits)
      counted :
          (fine : Bool) (left : Dict RateWindow)
          → is_empty a.key ≡ false
          → Counts a.at a.key (swept_first a.at a.order hits) fine left
          → IsWithin limit left
          → Allows a hits (fine, limiter left)

    pub allow-Allows :
        (a : Attempt) (hits : Dict RateWindow)
        → IsWithin limit hits
        → Allows a hits (allow (limiter hits) a.at a.order a.key)
    unfolding allow
    allow-Allows a hits within =
        let on_limit : sle limit 0 ≡ false = ground (arith, sle-leb limit 0 small (omega arith)) in
        let on_window : sle window 0 ≡ false =
          ground (arith, sle-leb window 0 short (omega arith)) in
        let swept = swept-IsWithin a.at a.order hits within in
        let counts = count_hit-Counts a.at a.key (swept_first a.at a.order hits) swept in
        elim (Bool-cases (is_empty a.key)) [
          | inl blank ↦ rw (allow, on_limit, on_window, blank) (passes blank)
          | inr named ↦
              rw (allow, on_limit, on_window, named)
                (counted _ _ named counts (Counts-IsWithin a.at a.key _ _ _ swept counts))
        ]

    -- Calls leave a limiter whose entries are within the limit.
    pub leave-limiter :
        (calls : List Attempt) (hits : Dict RateWindow)
        → IsWithin limit hits
        → (left : Dict RateWindow) × (leave calls (limiter hits) ≡ limiter left)
          × IsWithin limit left
    unfolding leave
    leave-limiter [] hits within = (hits, refl, within)
    leave-limiter (a ∷ calls) hits within =
        after_call a calls hits (λ left h. leave-limiter calls left h) within _
          (allow-Allows a hits within)
      where
        after_call :
            (a : Attempt) (calls : List Attempt) (hits : Dict RateWindow)
            → ((left : Dict RateWindow)
                → IsWithin limit left
                → (end : Dict RateWindow) × (leave calls (limiter left) ≡ limiter end)
                  × IsWithin limit end)
            → IsWithin limit hits
            → (r : Bool × Option RateLimiter) → Allows a hits r
            → (end : Dict RateWindow) × (leave calls r.1 ≡ limiter end) × IsWithin limit end
        after_call a calls hits ih within r (passes blank) = ih hits within
        after_call a calls hits ih within r (counted fine left named c ok) = ih left ok

    -- What an entry lets through until a time at most one window away.
    abbrev room : Time → Option RateWindow → ℕ
    room until none = limit
    room until (some w) = if leb until w.end_at then limit - w.count else (limit - w.count) + limit

    room-bounded : (until : Time) (o : Option RateWindow) → room until o ≤ limit + limit
    room-bounded until none = omega arith
    room-bounded until (some w) = ground arith

    module _ (k : String) (given : is_empty k ≡ false) (since : Time) where
      abbrev InWindow : Attempt → Type 0
      InWindow a = (since ≤ a.at) × (a.at ≤ since + window)

      abbrev left_over : Dict RateWindow → ℕ
      left_over hits = room (since + window) (lookup k hits)

      swept-room :
          (a : Attempt) (hits : Dict RateWindow)
          → InWindow a
          → left_over (swept_first a.at a.order hits) ≤ left_over hits
      swept-room a hits (after, before) = elim (swept_first-Kept a.at k a.order hits) [
        | inl same ↦ rw same (omega arith)
        | inr (gone, old) ↦ elim (Option-cases (lookup k hits)) [
          | inl none_found ↦ ground arith
          | inr (w, found) ↦ ground arith
        ]
      ]

      counted-room :
          (a : Attempt) (hits left : Dict RateWindow) (fine : Bool)
          → InWindow a
          → Counts a.at a.key hits fine left
          → (if eqs a.key k && fine then 1 else 0) + left_over left ≤ left_over hits
      counted-room a hits left fine (after, before) (opens new) =
          let written = lookup-insert k a.key (open_window window a.at) hits in
          elim (Bool-cases (eqs a.key k)) [
            | inl hit ↦ ground (arith, written, eqs_iff a.key k, eqs_iff k a.key)
            | inr miss ↦ ground (arith, written, eqs_iff a.key k, eqs_iff k a.key)
          ]
      counted-room a hits left fine (after, before) (counts w found live free) =
          let written = lookup-insert k a.key (record w { count = w.count + 1 }) hits in
          elim (Bool-cases (eqs a.key k)) [
            | inl hit ↦ ground (arith, written, eqs_iff a.key k, eqs_iff k a.key)
            | inr miss ↦ ground (arith, written, eqs_iff a.key k, eqs_iff k a.key)
          ]
      counted-room a hits left fine (after, before) (refuses w found live full) = ground arith

      answers_to-room :
          (calls : List Attempt) (hits : Dict RateWindow)
          → IsWithin limit hits
          → All InWindow calls
          → count (λ b. b) (answers_to k calls (limiter hits)) ≤ left_over hits
      unfolding answers_to
      answers_to-room [] hits within inside = omega arith
      answers_to-room (a ∷ calls) hits within (inside, later) =
          of_call (allow (limiter hits) a.at a.order a.key) (allow-Allows a hits within)
            λ left w. answers_to-room calls left w later
        where
          of_call :
              (r : Bool × Option RateLimiter)
              → Allows a hits r
              → ((left : Dict RateWindow)
                  → IsWithin limit left
                  → count (λ b. b) (answers_to k calls (limiter left)) ≤ left_over left)
              → count
                  (λ b. b)
                  (if eqs a.key k then r.0 ∷ answers_to k calls r.1 else answers_to k calls r.1)
                ≤ left_over hits
          of_call r (passes blank) ih =
              let other : eqs a.key k ≡ false = ground (arith, eqs_iff a.key k) in
              rw other (ih hits within)
          of_call r (counted fine left named c ok) ih =
              let rest = ih left ok in
              let step = counted-room a (swept_first a.at a.order hits) left fine inside c in
              let kept = swept-room a hits inside in ground arith

-- With a positive limit and window, whatever calls came before, of the calls for a key (which is not empty) within any stretch
-- of time no longer than the window at most twice the limit are let through.
pub answers_to-bounded :
    (limit window : ℕ)
    → 0 < limit
    → limit < half_word
    → 0 < window
    → window < half_word
    → (k : String) (since : Time) (earlier calls : List Attempt) → is_empty k ≡ false
    → All (λ (a : Attempt). (since ≤ a.at) × (a.at ≤ since + window)) calls
    → count (λ b. b) (answers_to k calls (leave earlier (some (new_rate_limiter limit window))))
      ≤ limit + limit
answers_to-bounded limit window some_calls small lasts short k since earlier calls named inside =
    let (hits, is, within) =
      leave-limiter limit window some_calls small lasts short earlier [] λ j w h. cc in
    let bound =
      answers_to-room limit window some_calls small lasts short k named since calls hits within
        inside in
    let most =
      room-bounded limit window some_calls small lasts short (since + window) (lookup k hits) in
    rw is (omega (arith, bound, most))
