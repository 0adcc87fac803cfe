-- ===== src/Base/Outcome.antt =====
-- What a fallible operation returns: a value, or an error of the component's own type. An operation
-- on a store returns its value with the new store; after an error the store is the one before.
use mathlib.Core.Path.{◌≡◌, refl}
use mathlib.Core.Logic.{◌≢◌}
use mathlib.Core.Bool.{Bool, true, false}
use mathlib.Core.Option.{Option, none, some}

pub data Result {ℓ κ} (E : Type ℓ) (A : Type κ) : Type (ℓ ⊔ κ) where
  ok : A → Result E A
  err : E → Result E A

infixl 5 ◌>>=◌ ◌>>◌
abbrev pub ◌>>=◌ {ℓ κ μ} :
    {F : Type ℓ} {V : Type κ} {W : Type μ} → Result F V → (V → Result F W) → Result F W
err failure >>= next = err failure
ok value >>= next = next value

-- `if c { return e }`
abbrev pub fail_if {ℓ} : {F : Type ℓ} → Bool → F → Result F (Unit {0})
fail_if false failure = ok tt
fail_if true failure = err failure

abbrev pub ◌>>◌ {ℓ κ} : {F : Type ℓ} {W : Type κ} → Result F (Unit {0}) → Result F W → Result F W
check >> rest = check >>= (λ passed. rest)

-- `v, ok := m[k]; if !ok { return e }`
abbrev pub or_fail {ℓ κ} : {E : Type ℓ} {A : Type κ} → Option A → E → Result E A
or_fail none e = err e
or_fail (some a) e = ok a

-- The store that an operation leaves.
abbrev pub after {ℓ κ μ} : {E : Type ℓ} {A : Type κ} {S : Type μ} → S → Result E (A × S) → S
after s (ok (a, t)) = t
after s (err e) = s

pub >>=-eq-ok {ℓ κ μ} :
    {F : Type ℓ} {V : Type κ} {W : Type μ} (first : Result F V) (next : V → Result F W) {w : W}
    → (first >>= next) ≡ ok w
    → (value : V) × (first ≡ ok value) × (next value ≡ ok w)
>>=-eq-ok (err failure) next success = cc
>>=-eq-ok (ok value) next success = (value, refl, success)

-- An operation that succeeds leads `after` to its new store, and what holds of every such store holds.
pub after-rule {ℓ κ μ ν} :
    {E : Type ℓ} {A : Type κ} {S : Type μ} (P : S → Type ν) (s : S) (r : Result E (A × S))
    → P s
    → ((a : A) (t : S) → r ≡ ok (a, t) → P t)
    → P (after s r)
after-rule P s (ok (a, t)) h k = k a t refl
after-rule P s (err e) h k = h

-- What does not succeed is an error.
pub err_unless-ok {ℓ κ} :
    {E : Type ℓ} {A : Type κ} (m : Result E A) → ((a : A) → m ≢ ok a) → (e : E) × (m ≡ err e)
err_unless-ok (ok a) h = absurd (h a refl)
err_unless-ok (err e) h = (e, refl)
