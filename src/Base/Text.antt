-- ===== src/Base/Text.antt =====
-- Go strings: tests, `strings.TrimSpace` and `strings.ToLower`, on texts of code points. (A Go string
-- that is no UTF-8 is not represented.)
use Prim.Native.Nat.{ℕ, ◌+◌}
use Prim.Native.Char.{Char, code}
use Prim.Native.String.{String, ◌++◌, compare}
use Prim.Native.String.append
use mathlib.Core.Path.{◌≡◌, refl, ap, ◌∙◌}
use mathlib.Core.Logic.{◌↔◌, inl, inr}
use mathlib.Core.Bool.{Bool, true, false, ◌&&◌, ◌||◌}
use native.Mathlib.Omega.{arith}
use text.Mathlib.Text.{◌==◌ as str_eq, is_lt}
use text.Mathlib.TextEquality.{eq_iff}
use accounts.Base.Tests.{leb, ◌==◌, if◌then◌else◌, Bool-cases}

-- `s == t`, and `s < t` by bytes, which is by code points.
abbrev pub eqs : String → String → Bool
eqs s t = str_eq s t

abbrev pub lts : String → String → Bool
lts s t = is_lt (compare s t)

pub eqs_iff : (s t : String) → (eqs s t ≡ true) ↔ (s ≡ t)
eqs_iff s t = eq_iff s t

pub eqs_refl : (s : String) → eqs s s ≡ true
eqs_refl s = (eqs_iff s s).1 refl

-- `s == ""`
abbrev pub is_empty : String → Bool
is_empty String.[] = true
is_empty (String.◌∷◌ c s) = false

-- `unicode.IsSpace`
unfoldable pub is_space : ℕ → Bool
is_space c =
    (leb 9 c && leb c 13)
    || (c == 32)
    || (c == 0x85)
    || (c == 0xa0)
    || (c == 0x1680)
    || (leb 0x2000 c && leb c 0x200a)
    || (c == 0x2028)
    || (c == 0x2029)
    || (c == 0x202f)
    || (c == 0x205f)
    || (c == 0x3000)

trim_left : String → String
trim_left String.[] = String.[]
trim_left (String.◌∷◌ c s) =
    let rest = trim_left s in if is_space (code c) then rest else String.◌∷◌ c s

-- A character stays unless it and all behind it are spaces.
abbrev cons_unless_blank : Char → String → String
cons_unless_blank c String.[] = if is_space (code c) then String.[] else String.◌∷◌ c String.[]
cons_unless_blank c (String.◌∷◌ d s) = String.◌∷◌ c (String.◌∷◌ d s)

trim_right : String → String
trim_right String.[] = String.[]
trim_right (String.◌∷◌ c s) = cons_unless_blank c (trim_right s)

-- `strings.TrimSpace`
unfoldable pub trim : String → String
unfolding is_space trim_left trim_right
trim s = trim_right (trim_left s)

trim_right-cons_unless_blank :
    (c : Char) (s : String)
    → trim_right s ≡ s
    → trim_right (cons_unless_blank c s) ≡ cons_unless_blank c s
unfolding trim_right
trim_right-cons_unless_blank c String.[] h = elim (Bool-cases (is_space (code c))) [
  | inl blank ↦ rw blank
  | inr solid ↦ rw solid (rw solid)
]
trim_right-cons_unless_blank c (String.◌∷◌ d s) h = rw h

trim_right_idem : (s : String) → trim_right (trim_right s) ≡ trim_right s
unfolding trim_right
trim_right_idem String.[] = refl
trim_right_idem (String.◌∷◌ c s) = trim_right-cons_unless_blank c (trim_right s) (trim_right_idem s)

-- The text does not begin with a space.
abbrev StartsSolid : String → Type 0
StartsSolid String.[] = Unit
StartsSolid (String.◌∷◌ c s) = is_space (code c) ≡ false

trim_left-StartsSolid : (s : String) → StartsSolid (trim_left s)
unfolding trim_left
trim_left-StartsSolid String.[] = tt
trim_left-StartsSolid (String.◌∷◌ c s) = elim (Bool-cases (is_space (code c))) [
  | inl blank ↦ rw blank (trim_left-StartsSolid s)
  | inr solid ↦ rw solid solid
]

trim_left-solid : (s : String) → StartsSolid s → trim_left s ≡ s
unfolding trim_left
trim_left-solid String.[] h = refl
trim_left-solid (String.◌∷◌ c s) h = rw h

cons_unless_blank-StartsSolid :
    (c : Char) (s : String) → is_space (code c) ≡ false → StartsSolid (cons_unless_blank c s)
cons_unless_blank-StartsSolid c String.[] h = rw h h
cons_unless_blank-StartsSolid c (String.◌∷◌ d s) h = h

trim_right-StartsSolid : (s : String) → StartsSolid s → StartsSolid (trim_right s)
unfolding trim_right
trim_right-StartsSolid String.[] h = tt
trim_right-StartsSolid (String.◌∷◌ c s) h = cons_unless_blank-StartsSolid c (trim_right s) h

-- A trimmed text is trimmed.
pub trim_idem : (s : String) → trim (trim s) ≡ trim s
unfolding trim
trim_idem s =
    ap trim_right (
      trim_left-solid (trim_right (trim_left s))
        (trim_right-StartsSolid (trim_left s) (trim_left-StartsSolid s)))
    ∙ trim_right_idem (trim_left s)

trim_test : trim " \t a b \n" ≡ "a b"
unfolding trim
trim_test = refl

-- `strings.ToLower`, as far as the result can be an ASCII letter or stay as it is: the upper-case
-- letters of ASCII, and the two others whose lower case is in ASCII.
unfoldable pub lower : ℕ → ℕ
lower c =
    if leb 65 c && leb c 90
    then c + 32
    else if c == 0x130
    then 105
    else if c == 0x212a
    then 107
    else c

-- `strings.HasPrefix`
unfoldable pub has_prefix : String → String → Bool
has_prefix String.[] s = true
has_prefix (String.◌∷◌ c p) String.[] = false
has_prefix (String.◌∷◌ c p) (String.◌∷◌ d s) = (code c == code d) && has_prefix p s

pub has_prefix-append : (p s : String) → has_prefix p (p ++ s) ≡ true
unfolding has_prefix
has_prefix-append String.[] s = refl
has_prefix-append (String.◌∷◌ c p) s =
    rw (append.cons c p s) (ground (arith, has_prefix-append p s))

pub append-inj_right : (p s t : String) → (p ++ s) ≡ (p ++ t) → s ≡ t
append-inj_right String.[] s t e = cc (append.nil s, append.nil t, e)
append-inj_right (String.◌∷◌ c p) s t e =
    append-inj_right p s t (cc (append.cons c p s, append.cons c p t, e))

pub is_empty-eq : (s : String) → is_empty s ≡ true → s ≡ ""
is_empty-eq String.[] h = refl
is_empty-eq (String.◌∷◌ c s) h = cc
