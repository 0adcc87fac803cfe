-- ===== src/Auth/Metered.antt =====
-- internal/auth/ratelimit.go: the limiter against one meter per key, which shares no map and forgets nothing.
use accounts.Base.{
  ℕ, ◌+◌, ◌≤◌, ◌<◌, ◌≡◌, refl, sym, ap, subst, ◌∙◌, inl, inr, String, Bool, true, false, Option,
  none, some, List, [], ◌∷◌, ltb, lt→ltb, if◌then◌else◌, arith, Bool-cases,
}
use accounts.Base.Text.{eqs, eqs_iff, is_empty}
use accounts.Base.Dict.{Dict, lookup, insert, lookup-insert, lookup-insert_self}
use accounts.Base.Time.{Time}
use accounts.Base.Word.{half_word}
use accounts.Auth.RateLimiter.{
  RateWindow, RateLimiter, new_rate_limiter, Attempt, allow, answers_to, open_window, swept_first,
  swept_first-Kept, is_expired,
}
use accounts.Auth.Windows.{
  IsWithin, Counts, opens, counts, refuses, limiter, Allows, passes, counted, allow-Allows,
}

-- How many calls the window at hand has let through, and when it ends.
abbrev pub Meter : Type 0
Meter = Option (ℕ × Time)

abbrev pub read_meter : ℕ → ℕ → Time → Meter → Bool × Meter
read_meter limit window now none = (true, some (1, now + window))
read_meter limit window now (some (used, until)) =
    if ltb until now
    then (true, some (1, now + window))
    else if ltb used limit
    then (true, some (used + 1, until))
    else (false, some (used, until))

abbrev pub metered : ℕ → ℕ → Meter → List Time → List Bool
metered limit window m [] = []
metered limit window m (now ∷ times) =
    let (fine, next) = read_meter limit window now m in fine ∷ metered limit window next times

-- The times of the calls for one key.
abbrev pub times_of : String → List Attempt → List Time
times_of k [] = []
times_of k (a ∷ calls) = let rest = times_of k calls in if eqs a.key k then a.at ∷ rest else rest

-- A clock that does not go back.
abbrev pub InOrder : Time → List Attempt → Type 0
InOrder since [] = Unit
InOrder since (a ∷ calls) = (since ≤ a.at) × InOrder a.at calls

-- An entry shows a meter, which may have run out where there is none.
pub data Shows (now : Time) : Option RateWindow → Meter → Type 0 where
  unseen : Shows now none none
  shown : (w : RateWindow) → Shows now (some w) (some (w.count, w.end_at))
  dropped : (used : ℕ) (until : Time) → until < now → Shows now none (some (used, until))

later-Shows :
    (now next : Time) (o : Option RateWindow) (m : Meter)
    → now ≤ next
    → Shows now o m
    → Shows next o m
later-Shows now next o m after unseen = unseen
later-Shows now next o m after (shown w) = shown w
later-Shows now next o m after (dropped used until old) = dropped used until (omega arith)

-- A sweep keeps what is shown.
swept-Shows :
    (now : Time) (k : String) (order : List String) (hits : Dict RateWindow) (m : Meter)
    → Shows now (lookup k hits) m
    → Shows now (lookup k (swept_first now order hits)) m
swept-Shows now k order hits m shows = elim (swept_first-Kept now k order hits) [
  | inl same ↦ subst (λ o. Shows now o m) (sym same) shows
  | inr (gone, old) ↦ subst (λ o. Shows now o m) (sym gone) (expired (lookup k hits) m old shows)
]
  where
    expired :
        (o : Option RateWindow) (m : Meter)
        → is_expired now o ≡ true
        → Shows now o m
        → Shows now none m
    expired o m old unseen = cc
    expired o m old (shown w) = dropped w.count w.end_at (ground arith)
    expired o m old (dropped used until before) = cc

module _ (limit window : ℕ) (some_calls : 0 < limit) (small : limit < half_word) where
  -- What is written under the key is shown.
  written-Shows :
      (now : Time) (k : String) (w : RateWindow) (hits : Dict RateWindow)
      → Shows now (lookup k (insert k w hits)) (some (w.count, w.end_at))
  written-Shows now k w hits =
      subst (λ o. Shows now o (some (w.count, w.end_at))) (sym (lookup-insert_self k w hits))
        (shown w)

  abbrev Answers : Time → String → Dict RateWindow → Bool → Bool × Meter → Type 0
  Answers now k left fine read = (fine ≡ read.0) × Shows now (lookup k left) read.1

  -- Counting a call for the key answers as the meter does.
  Counts-Shows :
      (now : Time) (k : String) (hits left : Dict RateWindow) (fine : Bool) (o : Option RateWindow)
      (m : Meter)
      → lookup k hits ≡ o
      → Shows now o m
      → Counts limit window some_calls small now k hits fine left
      → Answers now k left fine (read_meter limit window now m)
  Counts-Shows now k hits left fine o m e unseen (opens new) =
      (refl, written-Shows now k (open_window window now) hits)
  Counts-Shows now k hits left fine o m e unseen (counts w found live free) = absurd (cc)
  Counts-Shows now k hits left fine o m e unseen (refuses w found live full) = absurd (cc)
  Counts-Shows now k hits left fine o m e (dropped used until old) (opens new) =
      rw (lt→ltb until now old) (refl, written-Shows now k (open_window window now) hits)
  Counts-Shows now k hits left fine o m e (dropped used until old) (counts w found live free) =
      absurd (cc)
  Counts-Shows now k hits left fine o m e (dropped used until old) (refuses w found live full) =
      absurd (cc)
  Counts-Shows now k hits left fine o m e (shown v) (opens new) =
      let over : ltb v.end_at now ≡ true = ground (arith, new, e) in
      rw over (refl, written-Shows now k (open_window window now) hits)
  Counts-Shows now k hits left fine o m e (shown v) (counts w found live free) =
      let same : w ≡ v = ground (arith, found, e) in
      let running : ltb v.end_at now ≡ false =
        ap (λ (x : RateWindow). ltb x.end_at now) (sym same) ∙ live in
      let below : ltb v.count limit ≡ true = ground arith in
      rw (running, below)
        (subst
          (λ (x : RateWindow).
            Answers now k (insert k (record w { count = w.count + 1 }) hits) true
              (true, some (x.count + 1, x.end_at)))
          same (refl, written-Shows now k (record w { count = w.count + 1 }) hits))
  Counts-Shows now k hits left fine o m e (shown v) (refuses w found live full) =
      let same : w ≡ v = ground (arith, found, e) in
      let running : ltb v.end_at now ≡ false =
        ap (λ (x : RateWindow). ltb x.end_at now) (sym same) ∙ live in
      let above : ltb v.count limit ≡ false = ground arith in
      rw (running, above)
        (refl, subst (λ x. Shows now x (some (v.count, v.end_at))) (sym e) (shown v))

  -- Counting a call for another key leaves the entry.
  other-lookup :
      (now : Time) (j k : String) (hits left : Dict RateWindow) (fine : Bool)
      → eqs j k ≡ false
      → Counts limit window some_calls small now j hits fine left
      → lookup k left ≡ lookup k hits
  other-lookup now j k hits left fine other (opens new) =
      ground (arith, lookup-insert k j (open_window window now) hits, eqs_iff j k, eqs_iff k j)
  other-lookup now j k hits left fine other (counts w found live free) =
      ground
        (arith, lookup-insert k j (record w { count = w.count + 1 }) hits, eqs_iff j k, eqs_iff k j)
  other-lookup now j k hits left fine other (refuses w found live full) = refl

  module _ (lasts : 0 < window) (short : window < half_word) (k : String)
      (named : is_empty k ≡ false) where
    abbrev on : Dict RateWindow → Option RateLimiter
    on = limiter limit window some_calls small lasts short

    answers_to-Shows :
        (calls : List Attempt) (since : Time) (hits : Dict RateWindow) (m : Meter)
        → InOrder since calls
        → IsWithin limit hits
        → Shows since (lookup k hits) m
        → answers_to k calls (on hits) ≡ metered limit window m (times_of k calls)
    unfolding answers_to
    answers_to-Shows [] since hits m ordered within shows = refl
    answers_to-Shows (a ∷ calls) since hits m (after, ordered) within shows =
        of_call (allow (on hits) a.at a.order a.key)
          (allow-Allows limit window some_calls small lasts short a hits within)
          λ left next ok w. answers_to-Shows calls a.at left next ordered ok w
      where
        cong_cons : {x y : Bool} {xs ys : List Bool} → x ≡ y → xs ≡ ys → (x ∷ xs) ≡ (y ∷ ys)
        cong_cons p q = cc

        of_call :
            (r : Bool × Option RateLimiter)
            → Allows limit window some_calls small lasts short a hits r
            → ((left : Dict RateWindow) (next : Meter)
                → IsWithin limit left
                → Shows a.at (lookup k left) next
                → answers_to k calls (on left) ≡ metered limit window next (times_of k calls))
            → (if eqs a.key k then r.0 ∷ answers_to k calls r.1 else answers_to k calls r.1)
              ≡ metered limit window m (times_of k (a ∷ calls))
        of_call r (passes blank) ih =
            let other : eqs a.key k ≡ false = ground (arith, eqs_iff a.key k) in
            rw other (ih hits m within (later-Shows since a.at _ m after shows))
        of_call r (counted fine left _ c ok) ih =
            let swept =
              swept-Shows a.at k a.order hits m (later-Shows since a.at _ m after shows) in
            elim (Bool-cases (eqs a.key k)) [
              | inl hit ↦
                  let same : a.key ≡ k = (eqs_iff a.key k).0 hit in
                  let swept_map = swept_first a.at a.order hits in
                  let own =
                    subst (λ i. Counts limit window some_calls small a.at i swept_map fine left)
                      same c in
                  let (answer, next_shown) =
                    Counts-Shows a.at k swept_map left fine (lookup k swept_map) m refl swept own in
                  rw hit
                    (cong_cons answer (ih left (read_meter limit window a.at m).1 ok next_shown))
              | inr other ↦ rw other (
                  ih left m ok (
                    subst (λ o. Shows a.at o m)
                      (sym (other-lookup a.at a.key k _ left fine other c)) swept))
            ]

-- With a positive limit and window, the answers to a key that is not empty are those of one meter that is read at the times of its own calls: neither the calls for other keys nor
-- the sweeps, in whatever order they go over the map, make a difference, while the clock does not go back.
pub answers_to-metered :
    (limit window : ℕ)
    → 0 < limit
    → limit < half_word
    → 0 < window
    → window < half_word
    → (k : String) (since : Time) (calls : List Attempt) → is_empty k ≡ false
    → InOrder since calls
    → answers_to k calls (some (new_rate_limiter limit window))
      ≡ metered limit window none (times_of k calls)
answers_to-metered limit window some_calls small lasts short k since calls named ordered =
    answers_to-Shows limit window some_calls small lasts short k named calls since [] none ordered
      (λ j w h. cc) unseen
