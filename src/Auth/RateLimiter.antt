-- ===== src/Auth/RateLimiter.antt =====
-- internal/auth/ratelimit.go: the fixed-window counter of calls per key.
use accounts.Base.{
  ℕ, ◌+◌, ◌≡◌, refl, ap, ◌∙◌, ◌⊎◌, inl, inr, String, Bool, true, false, ◌&&◌, ◌||◌, Option, none,
  some, List, [], ◌∷◌, length, ltb, leb, if◌then◌else◌, arith, Bool-cases,
}
use accounts.Base.Text.{eqs, eqs_iff, is_empty}
use accounts.Base.Dict.{Dict, lookup, insert, delete, lookup-delete}
use accounts.Base.Time.{Time}
use accounts.Base.Word.{sle, add64}

pub record RateWindow : Type 0 where
  pub count : ℕ
  pub end_at : Time

-- The limit and the window are an int and a duration, as 64-bit patterns.
pub record RateLimiter : Type 0 where
  pub limit : ℕ
  pub window : ℕ
  pub hits : Dict RateWindow

abbrev pub new_rate_limiter : ℕ → ℕ → RateLimiter
new_rate_limiter limit window = record { limit = limit; window = window; hits = [] }

-- `now.After(w.endAt)`, of an entry that is there.
abbrev pub is_expired : Time → Option RateWindow → Bool
is_expired now none = false
is_expired now (some w) = ltb w.end_at now

-- The loop over the map, which goes on until 512 entries are dropped. The order in which Go ranges over the
-- keys is any list.
unfoldable pub sweep : Time → List String → ℕ → Dict RateWindow → Dict RateWindow
sweep now [] swept hits = hits
sweep now (k ∷ order) swept hits =
    let expired = is_expired now (lookup k hits) in
    let left = if expired then delete k hits else hits in
    let dropped = if expired then swept + 1 else swept in
    let rest = sweep now order dropped left in if expired && leb 512 dropped then left else rest

abbrev pub open_window : ℕ → Time → RateWindow
open_window window now = record { count = 1; end_at = now + window }

-- The part after the sweep.
unfoldable pub count_hit : ℕ → ℕ → Time → String → Dict RateWindow → Bool × Dict RateWindow
count_hit limit window now key hits = elim (lookup key hits) [
  | none ↦ (true, insert key (open_window window now) hits)
  | some w ↦
      if ltb w.end_at now
      then (true, insert key (open_window window now) hits)
      else if sle limit w.count
      then (false, hits)
      else (true, insert key (record w { count = add64 w.count 1 }) hits)
]

abbrev pub swept_first : Time → List String → Dict RateWindow → Dict RateWindow
swept_first now order hits = if ltb 4096 (length hits) then sweep now order 0 hits else hits

-- A limiter may be nil.
unfoldable pub allow : Option RateLimiter → Time → List String → String → Bool × Option RateLimiter
unfolding count_hit sweep
allow none now order key = (true, none)
allow (some r) now order key =
    if sle r.limit 0 || sle r.window 0 || is_empty key
    then (true, some r)
    else let counted = count_hit r.limit r.window now key (swept_first now order r.hits) in
      (counted.0, some (record r { hits = counted.1 }))

-- A call: when, for which key, and the order of the sweep.
pub record Attempt : Type 0 where
  pub at : Time
  pub key : String
  pub order : List String

-- The limiter that calls leave, and the answers they give to one key.
unfoldable pub leave : List Attempt → Option RateLimiter → Option RateLimiter
leave [] r = r
leave (a ∷ calls) r = leave calls (allow r a.at a.order a.key).1

unfoldable pub answers_to : String → List Attempt → Option RateLimiter → List Bool
answers_to k [] r = []
answers_to k (a ∷ calls) r =
    let (fine, next) = allow r a.at a.order a.key in
    let rest = answers_to k calls next in if eqs a.key k then fine ∷ rest else rest

-- The sweep leaves what is found under a key, or drops it when it has expired.
abbrev pub Kept : Time → Option RateWindow → Option RateWindow → Type 0
Kept now before left = (left ≡ before) ⊎ ((left ≡ none) × (is_expired now before ≡ true))

Kept-drop :
    (now : Time) (j k : String) (hits : Dict RateWindow)
    → is_expired now (lookup k hits) ≡ true
    → Kept now (lookup j hits) (lookup j (delete k hits))
Kept-drop now j k hits old = elim (Bool-cases (eqs j k)) [
  | inl hit ↦ inr (
    lookup-delete j k hits ∙ rw hit refl,
    ap (λ i. is_expired now (lookup i hits)) ((eqs_iff j k).0 hit) ∙ old,
  )
  | inr miss ↦ inl (lookup-delete j k hits ∙ rw miss refl)
]

Kept-trans : (now : Time) (a b c : Option RateWindow) → Kept now a b → Kept now b c → Kept now a c
Kept-trans now a b c f g = ground arith

sweep-Kept :
    (now : Time) (j : String) (order : List String) (swept : ℕ) (hits : Dict RateWindow)
    → Kept now (lookup j hits) (lookup j (sweep now order swept hits))
unfolding sweep
sweep-Kept now j [] swept hits = inl refl
sweep-Kept now j (k ∷ order) swept hits = elim (Bool-cases (is_expired now (lookup k hits))) [
  | inl old ↦
      let dropped = Kept-drop now j k hits old in
      elim (Bool-cases (leb 512 (swept + 1))) [
        | inl full ↦ rw (old, full) dropped
        | inr more ↦
            rw (old, more)
              (Kept-trans now _ _ _ dropped (sweep-Kept now j order (swept + 1) (delete k hits)))
      ]
  | inr live ↦ rw live (sweep-Kept now j order swept hits)
]

pub swept_first-Kept :
    (now : Time) (j : String) (order : List String) (hits : Dict RateWindow)
    → Kept now (lookup j hits) (lookup j (swept_first now order hits))
swept_first-Kept now j order hits = elim (Bool-cases (ltb 4096 (length hits))) [
  | inl full ↦ rw full (sweep-Kept now j order 0 hits)
  | inr more ↦ rw more (inl refl)
]
