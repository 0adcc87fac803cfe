-- ===== src/Base/Keyed.antt =====
-- Maps whose values carry their own key, each key once: what a map of records by id is.
use Prim.Native.String.{String}
use mathlib.Core.Path.{◌≡◌, refl}
use mathlib.Core.Bool.{Bool, false}
use mathlib.Core.List.{[], ◌∷◌}
use mathlib.Core.Option.{none, some}
use native.Mathlib.Omega.{arith}
use accounts.Base.Lists.{All, count}
use accounts.Base.Text.{eqs_iff}
use accounts.Base.Dict.{Dict, lookup, insert, values, lookup-insert}

module _ {ℓ} {V : Type ℓ} (f : V → String) where
  abbrev pub Keyed : Dict V → Type ℓ
  Keyed [] = Unit
  Keyed ((k, v) ∷ m) = (f v ≡ k) × (lookup k m ≡ none) × Keyed m

  pub Keyed-lookup : (k : String) (v : V) (m : Dict V) → Keyed m → lookup k m ≡ some v → f v ≡ k
  Keyed-lookup k v [] h e = cc
  Keyed-lookup k v ((j, w) ∷ m) h e = ground (arith, eqs_iff k j, Keyed-lookup k v m h.2)

  pub Keyed-insert : (k : String) (v : V) (m : Dict V) → Keyed m → f v ≡ k → Keyed (insert k v m)
  Keyed-insert k v [] h e = (e, refl, tt)
  Keyed-insert k v ((j, w) ∷ m) h e =
      ground (arith, eqs_iff k j, eqs_iff j k, lookup-insert j k v m, Keyed-insert k v m h.2 e)

  -- Every value of the range is found under its key.
  values_found_below :
      (big m : Dict V)
      → Keyed m
      → ((k : String) (v : V) → lookup k m ≡ some v → lookup k big ≡ some v)
      → All (λ v. lookup (f v) big ≡ some v) (values m)
  values_found_below big [] h inside = tt
  values_found_below big ((j, w) ∷ m) h inside = (
    ground (arith, eqs_iff (f w) j, inside (f w) w),
    values_found_below big m h.2 λ k v e. ground (arith, eqs_iff k j, inside k v),
  )

  pub values_found : (m : Dict V) → Keyed m → All (λ v. lookup (f v) m ≡ some v) (values m)
  values_found m h = values_found_below m m h (λ k v e. e)

  -- Where the test fails for every value that is found, it passes for none.
  pub count-eq-zero :
      (p : V → Bool) (m : Dict V)
      → Keyed m
      → ((k : String) (v : V) → lookup k m ≡ some v → p v ≡ false)
      → count p (values m) ≡ 0
  count-eq-zero p [] h fails = refl
  count-eq-zero p ((j, w) ∷ m) h fails = ground (
    arith,
    eqs_iff j j,
    fails j w,
    count-eq-zero p m h.2 (λ k v e. ground (arith, eqs_iff k j, fails k v)),
  )
