-- ===== src/Finance/Coverage/Sums.antt =====
-- Sums over a map, in int64 and as numbers, and how a write changes them.
use accounts.Base.{
  ℕ, ◌+◌, ◌%◌, ◌≤◌, ◌≡◌, ◌≢◌, refl, String, [], ◌∷◌, some, arith, Bool-cases, inl, inr,
}
use accounts.Base.Word.{word}
use accounts.Base.Text.{eqs_iff, eqs}
use accounts.Base.Dict.{Dict, lookup, insert, total}
use accounts.Base.Keyed.{Keyed}
use accounts.Finance.Refunds.{total64}

module _ {ℓ} {V : Type ℓ} where
  pub total64-total : (f : V → ℕ) (m : Dict V) → total64 f m ≡ total (λ v. f v % word) m % word
  total64-total f [] = refl
  total64-total f ((k, v) ∷ m) = omega (arith, total64-total f m)

  pub total_le : (f g : V → ℕ) (m : Dict V) → ((v : V) → f v ≤ g v) → total f m ≤ total g m
  total_le f g [] h = omega arith
  total_le f g ((k, v) ∷ m) h = omega (arith, total_le f g m h, h v)

  -- Where two measures agree on all that is found, so do the sums.
  pub total_congr :
      (key : V → String) (f g : V → ℕ) (m : Dict V)
      → Keyed key m
      → ((k : String) (v : V) → lookup k m ≡ some v → f v ≡ g v)
      → total f m ≡ total g m
  total_congr key f g [] h e = refl
  total_congr key f g ((k, v) ∷ m) h e =
      let rest : total f m ≡ total g m =
        total_congr key f g m h.2 λ j w found. ground (arith, eqs_iff j k, e j w) in
      ground (arith, eqs_iff k k, e k v)

  pub total-le_found :
      (key : V → String) (f g : V → ℕ) (m : Dict V)
      → Keyed key m
      → ((k : String) (v : V) → lookup k m ≡ some v → f v ≤ g v)
      → total f m ≤ total g m
  total-le_found key f g [] h e = omega arith
  total-le_found key f g ((k, v) ∷ m) h e =
      let rest : total f m ≤ total g m =
        total-le_found key f g m h.2 λ j w found. ground (arith, eqs_iff j k, e j w) in
      ground (arith, eqs_iff k k, e k v)

  -- The sum after a write, where a second measure bounds the first on the other entries.
  pub total-insert_le :
      (key : V → String) (f g : V → ℕ) (k : String) (v : V) (m : Dict V)
      → Keyed key m
      → ((j : String) (w : V) → lookup j m ≡ some w → j ≢ k → f w ≤ g w)
      → total f (insert k v m) ≤ total g m + f v
  total-insert_le key f g k v [] h e = omega arith
  total-insert_le key f g k v ((j, w) ∷ m) h e = elim (Bool-cases (eqs k j)) [
    | inl hit ↦
        let rest : total f m ≤ total g m =
          total-le_found key f g m h.2
            λ i x found. ground (arith, eqs_iff k j, eqs_iff i j, e i x) in
        ground arith
    | inr miss ↦
        let rest : total f (insert k v m) ≤ total g m + f v =
          total-insert_le key f g k v m h.2 λ i x found ne. ground (arith, eqs_iff i j, e i x) in
        let head : f w ≤ g w =
          e j w (ground (arith, eqs_iff j j)) (λ p. ground (arith, eqs_iff k j)) in
        ground arith
  ]
