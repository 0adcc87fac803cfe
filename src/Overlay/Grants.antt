-- ===== src/Overlay/Grants.antt =====
-- internal/overlay/mesh.go: the evaluator of a policy.
use Prim.Native.Nat.{bit_or}
use accounts.Base.{ℕ, String, Bool, false, ◌&&◌, List, [], ◌∷◌, map, ◌==◌, if◌then◌else◌, any}
use accounts.Base.Text.{eqs}
use accounts.Overlay.Masks.{rule_mask}
use accounts.Overlay.Types.{PolicyRule, PolicyArtifact}

-- The local function `contains`.
abbrev pub contains_id : List String → String → Bool
contains_id values id = any (λ v. eqs v id) values

abbrev pub covers : String → String → PolicyRule → Bool
covers source destination rule =
    contains_id rule.source_devices source && contains_id rule.destination_devices destination

-- The loop over the rules with their masks, which ends at the first deny.
abbrev pub evaluate : String → String → List (PolicyRule × ℕ) → ℕ → Bool
evaluate source destination [] mask = mask == 15
evaluate source destination ((rule, own) ∷ rules) mask =
    let hit = covers source destination rule in
    let next = if hit && eqs rule.action "accept" then bit_or mask own else mask in
    let rest = evaluate source destination rules next in
    if hit && eqs rule.action "deny" then false else rest

abbrev pub with_mask : PolicyRule → PolicyRule × ℕ
with_mask rule = (rule, rule_mask rule)

unfoldable pub grant_evaluator : PolicyArtifact → String → String → Bool
grant_evaluator policy source destination =
    if eqs policy.default_action "deny"
    then evaluate source destination (map with_mask policy.rules) 0
    else false

unfoldable pub whole_device_allowed : PolicyArtifact → String → String → Bool
unfolding grant_evaluator
whole_device_allowed policy source destination = grant_evaluator policy source destination
