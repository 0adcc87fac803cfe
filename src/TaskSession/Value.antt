-- ===== src/TaskSession/Value.antt =====
-- The values that a `map[string]any` holds once encoding/json has read it or the service built it,
-- and the length of their encoding by encoding/json.
use Prim.Native.Char.{Char, code, len_utf8}
use accounts.Base.{
  ℕ, zero, suc, ◌+◌, ◌-◌, ◌/◌, String, Bool, false, ◌||◌, List, [], ◌∷◌, ltb, ◌==◌, if◌then◌else◌,
}
use accounts.Base.Word.{word, half_word}
use accounts.Base.Dict.{Dict}

-- `int` is a Go int. A float64 is `whole` if it is an integer in the range of int64, and else
-- `fractional`, with the text that encoding/json prints for it.
mutual
  pub data Value : Type 0 where
    null : Value
    flag : Bool → Value
    text : String → Value
    int : ℕ → Value
    whole : ℕ → Value
    fractional : String → Value
    list : Items → Value
    object : Fields → Value

  pub data Items : Type 0 where
    nil : Items
    cons : Value → Items → Items

  pub data Fields : Type 0 where
    end : Fields
    field : String → Value → Fields → Fields

-- A `map[string]any`.
abbrev pub Object : Type 0
Object = Dict Value

abbrev pub to_fields : Object → Fields
to_fields [] = end
to_fields ((k, v) ∷ o) = field k v (to_fields o)

abbrev pub items_to_list : Items → List Value
items_to_list nil = []
items_to_list (cons v vs) = v ∷ items_to_list vs

abbrev pub list_to_items : List Value → Items
list_to_items [] = nil
list_to_items (v ∷ vs) = cons v (list_to_items vs)

-- `v == any(s)` for a string s.
abbrev pub is_text : (String → Bool) → Value → Bool
is_text p (text s) = p s
is_text p _ = false

-- Decimal digits; 20 rounds are enough for a number below 2^64.
digits : ℕ → ℕ → ℕ
digits zero n = 1
digits (suc f) n = let rest = digits f (n / 10) in if ltb n 10 then 1 else suc rest

int_len : ℕ → ℕ
unfolding digits
int_len n = if ltb n half_word then digits 20 n else suc (digits 20 (word - n))

-- The bytes of a character in a JSON text, where encoding/json escapes HTML too.
char_len : Char → ℕ
char_len c =
    let n = code c in
    if n == 34 || n == 92 || n == 8 || n == 9 || n == 10 || n == 12 || n == 13
    then 2
    else if ltb n 32 || n == 38 || n == 60 || n == 62 || n == 0x2028 || n == 0x2029
    then 6
    else len_utf8 c

chars_len : String → ℕ
unfolding char_len
chars_len String.[] = 0
chars_len (String.◌∷◌ c s) = char_len c + chars_len s

text_len : String → ℕ
unfolding chars_len
text_len s = 2 + chars_len s

-- The bytes of a value; those of the parts of a list or an object, a comma after each.
unfoldable mutual
  unfolding int_len text_len

  pub value_len : Value → ℕ
  value_len null = 4
  value_len (flag b) = if b then 4 else 5
  value_len (text s) = text_len s
  value_len (int n) = int_len n
  value_len (whole n) = int_len n
  value_len (fractional s) = Prim.Native.String.len s
  value_len (list nil) = 2
  value_len (list (cons v vs)) = 1 + value_len v + 1 + items_len vs
  value_len (object end) = 2
  value_len (object (field k v fs)) = 1 + text_len k + 1 + value_len v + 1 + fields_len fs

  pub items_len : Items → ℕ
  items_len nil = 0
  items_len (cons v vs) = value_len v + 1 + items_len vs

  pub fields_len : Fields → ℕ
  fields_len end = 0
  fields_len (field k v fs) = text_len k + 1 + value_len v + 1 + fields_len fs
