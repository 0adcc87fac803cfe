-- ===== src/Auth/Tests.antt =====
-- internal/auth/ratelimit.go: runs of the limiter, and the theorems at concrete calls.
use accounts.Base.{
  ℕ, ◌≡◌, ◌≤◌, refl, String, true, false, Option, none, some, List, [], ◌∷◌, arith, count,
}
use accounts.Auth.RateLimiter.{
  RateLimiter, new_rate_limiter, Attempt, allow, leave, answers_to, count_hit, sweep,
}
use accounts.Auth.Windows.{answers_to-bounded}
use accounts.Auth.Metered.{metered, times_of, answers_to-metered}

abbrev call : ℕ → String → Attempt
call at key = record { at = at; key = key; order = "a" ∷ "b" ∷ [] }

abbrev calls : List Attempt
calls =
    call 5 "a" ∷ call 6 "b" ∷ call 7 "a" ∷ call 8 "a" ∷ call 15 "a" ∷ call 16 "a" ∷ call 17 "" ∷ []

abbrev limiter_of_two : Option RateLimiter
limiter_of_two = some (new_rate_limiter 2 10)

-- The third call in a window is refused, the end of the window included; a later one opens the next.
test_answers_a : answers_to "a" calls limiter_of_two ≡ true ∷ true ∷ false ∷ false ∷ true ∷ []
unfolding answers_to allow count_hit sweep
test_answers_a = refl

test_answers_b : answers_to "b" calls limiter_of_two ≡ true ∷ []
unfolding answers_to allow count_hit sweep
test_answers_b = refl

-- Without a limit, for an empty key and on a nil limiter every call passes.
test_unlimited :
    answers_to "a" calls (some (new_rate_limiter 0 10)) ≡ true ∷ true ∷ true ∷ true ∷ true ∷ []
unfolding answers_to allow count_hit sweep
test_unlimited = refl

test_nil : answers_to "a" calls none ≡ true ∷ true ∷ true ∷ true ∷ true ∷ []
unfolding answers_to allow count_hit sweep
test_nil = refl

answers_to-bounded_example :
    count (λ b. b) (answers_to "a" calls (leave calls (some (new_rate_limiter 2 12)))) ≤ 4
answers_to-bounded_example =
    answers_to-bounded 2 12 (omega arith) (omega arith) (omega arith) (omega arith) "a" 5 calls
      calls refl (ground arith)

answers_to-metered_example :
    answers_to "a" calls limiter_of_two ≡ metered 2 10 none (times_of "a" calls)
answers_to-metered_example =
    answers_to-metered 2 10 (omega arith) (omega arith) (omega arith) (omega arith) "a" 5 calls refl
      (ground arith)
