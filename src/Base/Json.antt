-- ===== src/Base/Json.antt =====
-- What encoding/json reads of a message into a value of type `any`, and reflect.DeepEqual on such values.
use Prim.Native.Nat.{ℕ, ◌+◌, ◌-◌, ◌/◌, ◌%◌, ◌^◌, ◌<◌}
use Prim.Native.String.{String}
use mathlib.Core.Path.{◌≡◌, refl, sym, ap, ◌∙◌}
use mathlib.Core.Logic.{inl, inr}
use mathlib.Core.Bool.{Bool, true, false, ◌&&◌, ◌||◌, not}
use mathlib.Core.Option.{Option, none, some}
use native.Mathlib.Omega.{arith}
use accounts.Base.Tests.{◌==◌, &&-true, Bool-cases, if◌then◌else◌}
use accounts.Base.Text.{eqs, eqs_iff}
use accounts.Base.Word.{half_word}

-- A number is the bit pattern of its float64. An object is a map: it has each key once.
mutual
  pub data Json : Type 0 where
    json_null : Json
    json_bool : Bool → Json
    json_number : ℕ → Json
    json_text : String → Json
    json_array : Items → Json
    json_object : Members → Json

  pub data Items : Type 0 where
    no_items : Items
    item : Json → Items → Items

  pub data Members : Type 0 where
    no_members : Members
    member : String → Json → Members → Members

abbrev pub member_at : String → Members → Option Json
member_at k no_members = none
member_at k (member j v m) = if eqs k j then some v else member_at k m

abbrev size : Members → ℕ
size no_members = 0
size (member j v m) = size m + 1

-- 0 and -0 are equal; no JSON number is a NaN.
abbrev pub float_equal : ℕ → ℕ → Bool
float_equal a b = a == b || (a % half_word == 0 && b % half_word == 0)

abbrev same_bool : Bool → Bool → Bool
same_bool a b = if a then b else not b

unfoldable mutual
  pub deep_equal : Json → Json → Bool
  deep_equal json_null json_null = true
  deep_equal (json_bool a) (json_bool b) = same_bool a b
  deep_equal (json_number a) (json_number b) = float_equal a b
  deep_equal (json_text a) (json_text b) = eqs a b
  deep_equal (json_array a) (json_array b) = items_equal a b
  deep_equal (json_object a) (json_object b) = size a == size b && members_in a b
  deep_equal _ _ = false

  pub items_equal : Items → Items → Bool
  items_equal no_items no_items = true
  items_equal (item v a) (item w b) = deep_equal v w && items_equal a b
  items_equal _ _ = false

  -- Each member of the first is one of the second.
  pub members_in : Members → Members → Bool
  members_in no_members n = true
  members_in (member k v m) n =
      (elim (member_at k n) [ none ↦ false | some w ↦ deep_equal v w ]) && members_in m n

-- The comparison of two messages: both are read, and their values are compared.
unfoldable pub json_equal : (String → Option Json) → String → String → Bool
json_equal unmarshal a b = elim (unmarshal a) [
  | none ↦ false
  | some left ↦ elim (unmarshal b) [ none ↦ false | some right ↦ deep_equal left right ]
]

pub json_equal-deep_equal :
    (unmarshal : String → Option Json) (a b : String) (v w : Json)
    → json_equal unmarshal a b ≡ true
    → unmarshal a ≡ some v
    → unmarshal b ≡ some w
    → deep_equal v w ≡ true
unfolding json_equal
json_equal-deep_equal unmarshal a b v w same left right = rw (json_equal, left, right) at same

members_in-member_at :
    (k : String) (m n : Members) (v w : Json)
    → members_in m n ≡ true
    → member_at k m ≡ some v
    → member_at k n ≡ some w
    → deep_equal v w ≡ true
unfolding deep_equal
members_in-member_at k no_members n v w all left right = cc
members_in-member_at k (member j u m) n v w all left right =
    let (first, rest) = &&-true _ (members_in m n) all in
    elim (Bool-cases (eqs k j)) [
      | inl hit ↦
          let same : k ≡ j = (eqs_iff k j).0 hit in
          let there : member_at j n ≡ some w = ap (λ i. member_at i n) (sym same) ∙ right in
          let is : u ≡ v = ground arith in ap (λ x. deep_equal x w) (sym is) ∙ (rw there at first)
      | inr miss ↦ members_in-member_at k m n v w rest (rw miss at left) right
    ]

-- What equal objects have under a key is equal.
pub deep_equal-member_at :
    (k : String) (m n : Members) (v w : Json)
    → deep_equal (json_object m) (json_object n) ≡ true
    → member_at k m ≡ some v
    → member_at k n ≡ some w
    → deep_equal v w ≡ true
unfolding deep_equal
deep_equal-member_at k m n v w same left right =
    members_in-member_at k m n v w (&&-true (size m == size n) (members_in m n) same).1 left right

-- The whole number that a float64 is, for numbers from 1 to 2^53 and for 0.
abbrev pub whole : ℕ → ℕ
whole bits = (4503599627370496 + bits % 4503599627370496) / 2 ^ (1075 - bits / 4503599627370496)

pub number-same :
    (a b : ℕ)
    → a < half_word
    → b < half_word
    → deep_equal (json_number a) (json_number b) ≡ true
    → a ≡ b
unfolding deep_equal
number-same a b p q same = ground arith

pub text-same : (a b : String) → deep_equal (json_text a) (json_text b) ≡ true → a ≡ b
unfolding deep_equal
text-same a b same = (eqs_iff a b).0 same

test_whole : whole 4645744490609377280 ≡ 400
test_whole = refl
