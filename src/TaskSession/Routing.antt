-- ===== src/TaskSession/Routing.antt =====
-- internal/tasksession/scheduler.go: the routing hints of a message.
use Prim.Native.Char.{code}
use Prim.Native.String.{len}
use accounts.Base.{
  ℕ, String, Bool, true, ◌||◌, ◌&&◌, not, Option, none, some, [], ◌∷◌, ltb, leb, ◌==◌,
  if◌then◌else◌, Result, ok, err, ◌>>◌, fail_if,
}
use accounts.Base.Word.{slt}
use accounts.Base.Text.{eqs, is_empty, trim}
use accounts.Base.Dict.{insert}
use accounts.TaskSession.Value.{Value, Object, flag, text, int, whole}
use accounts.TaskSession.Types.{Error, invalid_input}

abbrev pub routing_string_max : ℕ
routing_string_max = 512

abbrev pub routing_ref_max : ℕ
routing_ref_max = 128

abbrev pub routing_attach_max : ℕ
routing_attach_max = 1000

-- `routingStrings[key]`, 0 for a key that is not there.
routing_strings : String → ℕ
routing_strings key =
    if eqs key "role" || eqs key "roleMode" || eqs key "roleModel"
    then routing_string_max
    else if eqs key "productMode" || eqs key "specialty" || eqs key "dataClass"
    then routing_string_max
    else if eqs key "projectId" || eqs key "workspace"
    then routing_ref_max
    else 0

routing_refs : String → Bool
routing_refs key = eqs key "projectId" || eqs key "workspace"

routing_bools : String → Bool
routing_bools key = eqs key "followUp" || eqs key "previousTurnFailed"

plain_char : ℕ → Bool
plain_char c =
    (leb b'a' c && leb c b'z')
    || (leb b'A' c && leb c b'Z')
    || (leb b'0' c && leb c b'9')
    || (c == b'.')
    || (c == b'_')
    || (c == b':')
    || (c == b'-')

all_plain : String → Bool
all_plain String.[] = true
all_plain (String.◌∷◌ c s) = plain_char (code c) && all_plain s

unfoldable pub plain_key : String → Bool
unfolding plain_char all_plain
plain_key value = all_plain value && not (eqs value ".") && not (eqs value "..")

whole_number : Value → Option ℕ
whole_number (int n) = some n
whole_number (whole n) = some n
whole_number _ = none

-- One round of the loop of `NormalizeRouting`: what the key and value add to the result, or `none` for
-- a blank text, which adds nothing.
normalize_text : String → Value → Result Error (Option Value)
unfolding routing_strings routing_refs plain_key
normalize_text key (text s) = do
  fail_if (ltb (routing_strings key) (len s)) invalid_input
  if is_empty (trim s)
      then ok none
      else if routing_refs key && not (plain_key (trim s))
      then err invalid_input
      else ok (some (text (trim s)))
normalize_text key _ = err invalid_input

normalize_flag : Value → Result Error (Option Value)
normalize_flag (flag b) = ok (some (flag b))
normalize_flag _ = err invalid_input

normalize_count : Option ℕ → Result Error (Option Value)
normalize_count (some n) = do
  fail_if (slt n 0 || slt routing_attach_max n) invalid_input
  ok (some (int n))
normalize_count none = err invalid_input

normalize_hint : String → Value → Result Error (Option Value)
unfolding normalize_text normalize_flag normalize_count routing_strings routing_bools whole_number
normalize_hint key value =
    if ltb 0 (routing_strings key)
    then normalize_text key value
    else if routing_bools key
    then normalize_flag value
    else if eqs key "attachments"
    then normalize_count (whole_number value)
    else err invalid_input

abbrev add_hint : String → Option Value → Object → Object
add_hint key none routing = routing
add_hint key (some v) routing = insert key v routing

normalize_from : Object → Object → Result Error Object
unfolding normalize_hint
normalize_from routing [] = ok routing
normalize_from routing ((key, value) ∷ input) = elim (normalize_hint key value) [
  | ok hint ↦ normalize_from (add_hint key hint routing) input
  | err e ↦ err e
]

unfoldable pub normalize_routing : Object → Result Error Object
unfolding normalize_from
normalize_routing input = normalize_from [] input
