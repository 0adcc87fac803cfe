-- ===== src/Base/Dict.antt =====
-- Go maps keyed by strings, as association lists with one entry for each key that was written. A
-- `range` goes through the list; what is proved for every list holds for every order of a range.
use Prim.Native.Nat.{ℕ, ◌+◌, ◌≤◌}
use Prim.Native.String.{String}
use mathlib.Core.Path.{◌≡◌, refl, sym, subst}
use mathlib.Core.Logic.{◌≢◌, ◌⊎◌, inl, inr}
use mathlib.Core.Bool.{Bool, false}
use mathlib.Core.List.{List, [], ◌∷◌}
use mathlib.Core.Option.{Option, none, some}
use native.Mathlib.Omega.{arith}
use accounts.Base.Tests.{Bool-cases, if◌then◌else◌, is_some}
use accounts.Base.Lists.{All, In, count, any}
use accounts.Base.Text.{eqs, eqs_iff}

abbrev pub Dict {ℓ} : Type ℓ → Type ℓ
Dict V = List (String × V)

module _ {ℓ} {V : Type ℓ} where
  -- `m[k]`
  abbrev pub lookup : String → Dict V → Option V
  lookup k [] = none
  lookup k ((j, v) ∷ m) = if eqs k j then some v else lookup k m

  -- `_, ok := m[k]`
  abbrev pub contains : String → Dict V → Bool
  contains k m = is_some (lookup k m)

  -- `m[k] = v`
  abbrev pub insert : String → V → Dict V → Dict V
  insert k v [] = (k, v) ∷ []
  insert k v (e ∷ m) = if eqs k e.0 then (k, v) ∷ m else e ∷ insert k v m

  -- `delete(m, k)`
  abbrev pub delete : String → Dict V → Dict V
  delete k [] = []
  delete k (e ∷ m) = if eqs k e.0 then delete k m else e ∷ delete k m

  -- The values, in the order of a `range`.
  abbrev pub values : Dict V → List V
  values [] = []
  values ((k, v) ∷ m) = v ∷ values m

  -- A write of every value in place.
  abbrev pub map_values : (V → V) → Dict V → Dict V
  map_values f [] = []
  map_values f ((k, v) ∷ m) = (k, f v) ∷ map_values f m

  pub lookup-map_values :
      (f : V → V) (k : String) (m : Dict V)
      → lookup k (map_values f m) ≡ elim (lookup k m) [ none ↦ none | some v ↦ some (f v) ]
  lookup-map_values f k [] = refl
  lookup-map_values f k ((j, v) ∷ m) = ground (arith, lookup-map_values f k m)

  pub lookup-delete :
      (j k : String) (m : Dict V) → lookup j (delete k m) ≡ (if eqs j k then none else lookup j m)
  lookup-delete j k [] = ground arith
  lookup-delete j k ((i, w) ∷ m) =
      ground (arith, eqs_iff j k, eqs_iff k i, eqs_iff j i, lookup-delete j k m)

  pub lookup-insert :
      (j k : String) (v : V) (m : Dict V)
      → lookup j (insert k v m) ≡ (if eqs j k then some v else lookup j m)
  lookup-insert j k v [] = refl
  lookup-insert j k v ((i, w) ∷ m) =
      ground (arith, eqs_iff j k, eqs_iff k i, eqs_iff j i, lookup-insert j k v m)

  pub lookup-insert_self : (k : String) (v : V) (m : Dict V) → lookup k (insert k v m) ≡ some v
  lookup-insert_self k v m = ground (arith, lookup-insert k k v m, eqs_iff k k)

  pub lookup-insert_ne :
      (j k : String) (v : V) (m : Dict V) → j ≢ k → lookup j (insert k v m) ≡ lookup j m
  lookup-insert_ne j k v m h = ground (arith, lookup-insert j k v m, eqs_iff j k)

-- The sum of a measure over the values, and how a write changes it.
module _ {ℓ} {V : Type ℓ} (f : V → ℕ) where
  abbrev pub total : Dict V → ℕ
  total [] = 0
  total ((k, v) ∷ m) = f v + total m

  pub total-insert_new :
      (k : String) (v : V) (m : Dict V) → lookup k m ≡ none → total (insert k v m) ≡ total m + f v
  total-insert_new k v [] h = omega arith
  total-insert_new k v ((j, w) ∷ m) h = ground (arith, total-insert_new k v m)

  pub total-insert_old :
      (k : String) (v w : V) (m : Dict V)
      → lookup k m ≡ some w
      → total (insert k v m) + f w ≡ total m + f v
  total-insert_old k v w [] h = cc
  total-insert_old k v w ((j, x) ∷ m) h = ground (arith, total-insert_old k v w m)

  pub total-lookup : (k : String) (w : V) (m : Dict V) → lookup k m ≡ some w → f w ≤ total m
  total-lookup k w [] h = cc
  total-lookup k w ((j, x) ∷ m) h = ground (arith, total-lookup k w m)

module _ {ℓ} {V : Type ℓ} (p : V → Bool) where
  -- One for a value that passes the test.
  abbrev pub one_if : V → ℕ
  one_if v = if p v then 1 else 0

  pub count-total : (m : Dict V) → count p (values m) ≡ total one_if m
  count-total [] = refl
  count-total ((k, v) ∷ m) = ground (arith, count-total m)

module _ {ℓ κ} {V : Type ℓ} (P : V → Type κ) where
  -- What holds of every value holds of the one that is found, and of all after a write of one that has it.
  pub All-lookup : (k : String) (v : V) (m : Dict V) → All P (values m) → lookup k m ≡ some v → P v
  All-lookup k v [] a h = cc
  All-lookup k v ((j, w) ∷ m) a h = grind (arith, All-lookup k v m a.1)

  pub All-insert :
      (k : String) (v : V) (m : Dict V) → All P (values m) → P v → All P (values (insert k v m))
  All-insert k v [] a h = (h, tt)
  All-insert k v ((j, w) ∷ m) a h = ground (arith, All-insert k v m a.1 h)

module _ {ℓ} {V : Type ℓ} where
  -- What is found after a write is what was written, or was found before under another key.
  pub lookup-insert-cases :
      (j k : String) (v w : V) (m : Dict V)
      → lookup j (insert k v m) ≡ some w
      → ((j ≡ k) × (w ≡ v)) ⊎ ((j ≢ k) × (lookup j m ≡ some w))
  lookup-insert-cases j k v w m e = elim (Bool-cases (eqs j k)) [
    | inl hit ↦ inl ((eqs_iff j k).0 hit, ground (arith, lookup-insert j k v m))
    | inr miss ↦ inr (λ p. ground (arith, eqs_iff j k), ground (arith, lookup-insert j k v m))
  ]

-- Of all that is found: it holds after a write if it held before and holds of what is written.
module _ {ℓ κ} {V : Type ℓ} (P : String → V → Type κ) where
  pub found-insert :
      (k : String) (v : V) (m : Dict V)
      → ((j : String) (w : V) → lookup j m ≡ some w → P j w)
      → P k v
      → (j : String) (w : V) → lookup j (insert k v m) ≡ some w
      → P j w
  found-insert k v m h p j w e = elim (lookup-insert-cases j k v w m e) [
    | inl (ej, ew) ↦ subst (λ i. P i w) (sym ej) (subst (P k) (sym ew) p)
    | inr (_, old) ↦ h j w old
  ]

-- How a write changes the number of values that pass a test.
module _ {ℓ} {V : Type ℓ} (p : V → Bool) where
  pub count-insert_new :
      (k : String) (v : V) (m : Dict V)
      → lookup k m ≡ none
      → count p (values (insert k v m)) ≡ count p (values m) + one_if p v
  count-insert_new k v m h =
      omega
        (arith, count-total p (insert k v m), count-total p m, total-insert_new (one_if p) k v m h)

  pub count-insert_old :
      (k : String) (v w : V) (m : Dict V)
      → lookup k m ≡ some w
      → count p (values (insert k v m)) + one_if p w ≡ count p (values m) + one_if p v
  count-insert_old k v w m h =
      omega (
        arith,
        count-total p (insert k v m),
        count-total p m,
        total-insert_old (one_if p) k v w m h,
      )

pub In-values :
    {V : Type 0} (k : String) (v : V) (m : Dict V) → lookup k m ≡ some v → In v (values m)
In-values k v [] h = cc
In-values k v ((j, w) ∷ m) h = elim (Bool-cases (eqs k j)) [
  | inl hit ↦ inl (ground arith)
  | inr miss ↦ inr (In-values k v m (rw miss at h))
]

-- Where a test passes for no value, it fails for what is found.
module _ {ℓ} {V : Type ℓ} (p : V → Bool) where
  pub any-values-none :
      (k : String) (v : V) (m : Dict V)
      → any p (values m) ≡ false
      → lookup k m ≡ some v
      → p v ≡ false
  any-values-none k v [] h e = cc
  any-values-none k v ((j, w) ∷ m) h e = grind (arith, any-values-none k v m)
