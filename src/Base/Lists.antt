-- ===== src/Base/Lists.antt =====
-- Lists measured, indexed and searched by native numbers and Boolean tests, under the library's names.
use Prim.Native.Nat.{ℕ, zero, suc, ◌+◌, ◌-◌, ◌<◌}
use mathlib.Core.Path.{◌∙◌, ◌≡◌, refl, sym, ap, subst}
use mathlib.Core.Logic.{◌⊎◌, inl, inr}
use mathlib.Core.Bool.{Bool, true, false, ◌||◌}
use mathlib.Core.List.{map, List, [], ◌∷◌, ◌++◌}
use mathlib.Core.Option.{Option, none, some}
use native.Mathlib.Omega.{arith}
use accounts.Base.Tests.{if◌then◌else◌, Bool-cases}

module _ {ℓ} {A : Type ℓ} where
  abbrev pub length : List A → ℕ
  length [] = 0
  length (x ∷ xs) = suc (length xs)

  abbrev pub get_elem? : List A → ℕ → Option A
  get_elem? [] i = none
  get_elem? (x ∷ xs) zero = some x
  get_elem? (x ∷ xs) (suc i) = get_elem? xs i

  abbrev pub take : ℕ → List A → List A
  take zero xs = []
  take (suc n) [] = []
  take (suc n) (x ∷ xs) = x ∷ take n xs

  abbrev pub drop : ℕ → List A → List A
  drop zero xs = xs
  drop (suc n) [] = []
  drop (suc n) (x ∷ xs) = drop n xs

  pub length-append : (xs ys : List A) → length (xs ++ ys) ≡ length xs + length ys
  length-append [] ys = omega arith
  length-append (x ∷ xs) ys = omega (arith, length-append xs ys)

  pub length-drop : (n : ℕ) (xs : List A) → length (drop n xs) ≡ length xs - n
  length-drop zero xs = omega arith
  length-drop (suc n) [] = omega arith
  length-drop (suc n) (x ∷ xs) = omega (arith, length-drop n xs)

-- The entries that pass a test: all, whether there is one, how many, and the first.
module _ {ℓ} {A : Type ℓ} (p : A → Bool) where
  abbrev pub keep : List A → List A
  keep [] = []
  keep (x ∷ xs) = if p x then x ∷ keep xs else keep xs

  abbrev pub any : List A → Bool
  any [] = false
  any (x ∷ xs) = p x || any xs

  abbrev pub count : List A → ℕ
  count [] = 0
  count (x ∷ xs) = if p x then suc (count xs) else count xs

  abbrev pub find : List A → Option A
  find [] = none
  find (x ∷ xs) = if p x then some x else find xs

-- A predicate of every entry, and membership, by recursion for proofs that split cases.
abbrev pub All {ℓ κ} : {A : Type ℓ} → (A → Type κ) → List A → Type κ
All P [] = Unit
All P (x ∷ xs) = P x × All P xs

abbrev pub In : {A : Type 0} → A → List A → Type 0
In a [] = ⊥
In a (x ∷ xs) = (a ≡ x) ⊎ In a xs

pub All-In {κ} : {A : Type 0} (P : A → Type κ) (a : A) (xs : List A) → All P xs → In a xs → P a
All-In P a [] h i = absurd i
All-In P a (x ∷ xs) h (inl e) = subst P (sym e) h.0
All-In P a (x ∷ xs) h (inr i) = All-In P a xs h.1 i

pub In-get_elem? : {A : Type 0} (a : A) (i : ℕ) (xs : List A) → get_elem? xs i ≡ some a → In a xs
In-get_elem? a i [] e = cc
In-get_elem? a zero (x ∷ xs) e = inl (cc)
In-get_elem? a (suc i) (x ∷ xs) e = inr (In-get_elem? a i xs e)

pub get_elem?_below {ℓ} :
    {A : Type ℓ} (xs : List A) (i : ℕ) → i < length xs → (a : A) × (get_elem? xs i ≡ some a)
get_elem?_below [] i h = elim h [ ]
get_elem?_below (x ∷ xs) zero h = (x, refl)
get_elem?_below (x ∷ xs) (suc i) h = get_elem?_below xs i (omega arith)

-- `sort.Slice` by a strict order; where no two entries tie, the order of the result is determined.
module _ {A : Type 0} (less : A → A → Bool) where
  insert_sorted : A → List A → List A
  insert_sorted a [] = a ∷ []
  insert_sorted a (x ∷ xs) = if less x a then x ∷ insert_sorted a xs else a ∷ x ∷ xs

  unfoldable pub sort_by : List A → List A
  unfolding insert_sorted
  sort_by [] = []
  sort_by (x ∷ xs) = insert_sorted x (sort_by xs)

  In-insert_sorted : (a b : A) (xs : List A) → (a ≡ b) ⊎ In a xs → In a (insert_sorted b xs)
  unfolding insert_sorted
  In-insert_sorted a b [] h = h
  In-insert_sorted a b (x ∷ xs) h = elim (Bool-cases (less x b)) [
    | inl before ↦ rw before (later (In-insert_sorted a b xs) h)
    | inr behind ↦ rw behind h
  ]
    where
      later :
          ((a ≡ b) ⊎ In a xs → In a (insert_sorted b xs))
          → (a ≡ b) ⊎ In a (x ∷ xs)
          → In a (x ∷ insert_sorted b xs)
      later ih (inl e) = inr (ih (inl e))
      later ih (inr (inl e)) = inl e
      later ih (inr (inr i)) = inr (ih (inr i))

  pub In-sort_by : (a : A) (xs : List A) → In a xs → In a (sort_by xs)
  unfolding sort_by
  In-sort_by a [] h = h
  In-sort_by a (x ∷ xs) (inl e) = In-insert_sorted a x (sort_by xs) (inl e)
  In-sort_by a (x ∷ xs) (inr i) = In-insert_sorted a x (sort_by xs) (inr (In-sort_by a xs i))

module _ {A : Type 0} (p : A → Bool) where
  pub In-keep : (a : A) (xs : List A) → In a xs → p a ≡ true → In a (keep p xs)
  In-keep a (x ∷ xs) (inl e) h =
      let hit : p x ≡ true = subst (λ b. p b ≡ true) e h in rw hit (inl e)
  In-keep a (x ∷ xs) (inr i) h = elim (Bool-cases (p x)) [
    | inl hit ↦ rw hit (inr (In-keep a xs i h))
    | inr miss ↦ rw miss (In-keep a xs i h)
  ]
  In-keep a [] i h = absurd i

-- A member can be found by its position.
pub In-position :
    {A : Type 0} (a : A) (xs : List A)
    → In a xs
    → (i : ℕ) × (i < length xs) × (get_elem? xs i ≡ some a)
In-position a [] i = absurd i
In-position a (x ∷ xs) (inl e) = (0, omega arith, ap some (sym e))
In-position a (x ∷ xs) (inr i) =
    let (j, small, found) = In-position a xs i in (suc j, omega arith, found)

-- A test that passes for some entry passes for a member.
pub any-In :
    {A : Type 0} (p : A → Bool) (xs : List A) → any p xs ≡ true → (a : A) × In a xs × (p a ≡ true)
any-In p [] h = absurd (cc)
any-In p (x ∷ xs) h = elim (Bool-cases (p x)) [
  | inl hit ↦ (x, inl refl, hit)
  | inr miss ↦ let (a, member, hit) = any-In p xs (rw miss at h) in (a, inr member, hit)
]

pub In-any :
    {A : Type 0} (p : A → Bool) (a : A) (xs : List A) → In a xs → p a ≡ true → any p xs ≡ true
In-any p a [] member h = absurd member
In-any p a (x ∷ xs) (inl e) h = rw (ap p (sym e) ∙ h) refl
In-any p a (x ∷ xs) (inr member) h = ground (arith, In-any p a xs member h)

-- A member of the entries kept is one that passes, and a member of the images is an image.
pub keep-In :
    {A : Type 0} (p : A → Bool) (a : A) (xs : List A) → In a (keep p xs) → In a xs × (p a ≡ true)
keep-In p a [] member = absurd member
keep-In p a (x ∷ xs) member = elim (Bool-cases (p x)) [
  | inl hit ↦ of_hit hit (keep-In p a xs) (rw hit at member)
  | inr miss ↦ let (later, passes) = keep-In p a xs (rw miss at member) in (inr later, passes)
]
  where
    of_hit :
        p x ≡ true
        → (In a (keep p xs) → In a xs × (p a ≡ true))
        → In a (x ∷ keep p xs)
        → In a (x ∷ xs) × (p a ≡ true)
    of_hit hit rest (inl e) = (inl e, ap p e ∙ hit)
    of_hit hit rest (inr later) = let (member, passes) = rest later in (inr member, passes)

pub map-In :
    {A B : Type 0} (f : A → B) (b : B) (xs : List A)
    → In b (map f xs)
    → (a : A) × In a xs × (b ≡ f a)
map-In f b [] member = absurd member
map-In f b (x ∷ xs) (inl e) = (x, inl refl, e)
map-In f b (x ∷ xs) (inr later) = let (a, member, e) = map-In f b xs later in (a, inr member, e)

pub In-map : {A B : Type 0} (f : A → B) (a : A) (xs : List A) → In a xs → In (f a) (map f xs)
In-map f a [] member = absurd member
In-map f a (x ∷ xs) (inl e) = inl (ap f e)
In-map f a (x ∷ xs) (inr later) = inr (In-map f a xs later)
