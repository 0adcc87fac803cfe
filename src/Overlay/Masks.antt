-- ===== src/Overlay/Masks.antt =====
-- internal/overlay/mesh.go: the bits of a policy rule.
use Prim.Native.Nat.{bit_or}
use accounts.Base.{
  ℕ, ◌+◌, ◌<◌, ◌≡◌, refl, ◌⊎◌, inl, inr, String, Bool, true, false, ◌&&◌, ◌||◌, List, [], ◌∷◌,
  length, ◌==◌, if◌then◌else◌, arith, any, Bool-cases, ap, ◌∙◌,
}
use accounts.Base.Text.{eqs, eqs_iff}
use accounts.Overlay.Types.{PolicyRule}

-- The loop over the ports with its index: each is the next number, from 1.
abbrev pub counts_up : ℕ → List ℕ → Bool
counts_up j [] = true
counts_up j (p ∷ ports) = (p == j + 1) && counts_up (j + 1) ports

abbrev pub all_ports : List ℕ → Bool
all_ports ports = length ports == 65535 && counts_up 0 ports

abbrev pub protocol_mask : Bool → String → ℕ → ℕ
protocol_mask every protocol mask =
    if eqs protocol "icmp"
    then bit_or mask 1
    else if eqs protocol "tcp"
    then (if every then bit_or mask 2 else mask)
    else if eqs protocol "udp"
    then (if every then bit_or mask 4 else mask)
    else mask

abbrev pub protocols_mask : Bool → List String → ℕ → ℕ
protocols_mask every [] mask = mask
protocols_mask every (p ∷ protocols) mask =
    protocols_mask every protocols (protocol_mask every p mask)

-- `masks[i]`
unfoldable pub rule_mask : PolicyRule → ℕ
rule_mask rule =
    let mask = protocols_mask (all_ports rule.ports) rule.protocols 0 in
    if rule.whole_device && eqs rule.action "accept" && mask == 7 then bit_or mask 8 else mask

-- Three bits as a number.
abbrev pub bits : Bool → Bool → Bool → ℕ
bits i t u = (if i then 1 else 0) + (if t then 2 else 0) + (if u then 4 else 0)

abbrev is : String → String → Bool
is name protocol = eqs protocol name

bit_or-bits :
    (i t u : Bool)
    → (bit_or (bits i t u) 1 ≡ bits true t u)
      × (bit_or (bits i t u) 2 ≡ bits i true u)
      × (bit_or (bits i t u) 4 ≡ bits i t true)
bit_or-bits true true true = (refl, refl, refl)
bit_or-bits true true false = (refl, refl, refl)
bit_or-bits true false true = (refl, refl, refl)
bit_or-bits true false false = (refl, refl, refl)
bit_or-bits false true true = (refl, refl, refl)
bit_or-bits false true false = (refl, refl, refl)
bit_or-bits false false true = (refl, refl, refl)
bit_or-bits false false false = (refl, refl, refl)

protocol_mask-bits :
    (every : Bool) (p : String) (i t u : Bool)
    → protocol_mask every p (bits i t u)
      ≡ bits (i || is "icmp" p) (t || (every && is "tcp" p)) (u || (every && is "udp" p))
protocol_mask-bits every p i t u =
    let (one, two, four) = bit_or-bits i t u in
    elim (Bool-cases (eqs p "icmp")) [
      | inl icmp ↦
          let same = (eqs_iff p "icmp").0 icmp in
          let not_tcp : eqs p "tcp" ≡ false = ap (λ x. eqs x "tcp") same in
          let not_udp : eqs p "udp" ≡ false = ap (λ x. eqs x "udp") same in ground (arith, one)
      | inr rest ↦ elim (Bool-cases (eqs p "tcp")) [
        | inl tcp ↦
            let same = (eqs_iff p "tcp").0 tcp in
            let not_udp : eqs p "udp" ≡ false = ap (λ x. eqs x "udp") same in ground (arith, two)
        | inr last ↦ ground (arith, four)
      ]
    ]

protocols_mask-bits :
    (every : Bool) (protocols : List String) (i t u : Bool)
    → protocols_mask every protocols (bits i t u)
      ≡ bits
          (i || any (is "icmp") protocols)
          (t || (every && any (is "tcp") protocols))
          (u || (every && any (is "udp") protocols))
protocols_mask-bits every [] i t u = ground arith
protocols_mask-bits every (p ∷ protocols) i t u =
    ap (protocols_mask every protocols) (protocol_mask-bits every p i t u)
    ∙ protocols_mask-bits every protocols _ _ _
    ∙ ground arith

-- What makes a rule grant a whole device.
abbrev pub is_whole : PolicyRule → Bool
is_whole rule =
    rule.whole_device
    && eqs rule.action "accept"
    && all_ports rule.ports
    && any (is "icmp") rule.protocols
    && any (is "tcp") rule.protocols
    && any (is "udp") rule.protocols

abbrev with_last : Bool → Bool → ℕ → ℕ
with_last w accepts mask = if w && accepts && mask == 7 then bit_or mask 8 else mask

with_last-bits :
    (w accepts every i t u : Bool)
    → (((w && accepts && every && i && t && u) ≡ true)
        × (with_last w accepts (bits i (every && t) (every && u)) ≡ 15))
      ⊎ (((w && accepts && every && i && t && u) ≡ false)
          × (with_last w accepts (bits i (every && t) (every && u)) < 8))
with_last-bits false accepts every i t u = inr (refl, ground arith)
with_last-bits true false every i t u = inr (refl, ground arith)
with_last-bits true true false i t u = inr (refl, ground arith)
with_last-bits true true true false t u = inr (refl, ground arith)
with_last-bits true true true true false u = inr (refl, ground arith)
with_last-bits true true true true true false = inr (refl, ground arith)
with_last-bits true true true true true true = inl (refl, refl)

-- The mask of a rule is 15 when it grants a whole device, and below 8 otherwise.
pub rule_mask-is_whole :
    (rule : PolicyRule)
    → ((is_whole rule ≡ true) × (rule_mask rule ≡ 15))
      ⊎ ((is_whole rule ≡ false) × (rule_mask rule < 8))
unfolding rule_mask
rule_mask-is_whole rule =
    let i = any (is "icmp") rule.protocols in
    let t = any (is "tcp") rule.protocols in
    let u = any (is "udp") rule.protocols in
    let every = all_ports rule.ports in
    let mask : protocols_mask every rule.protocols 0 ≡ bits i (every && t) (every && u) =
      protocols_mask-bits every rule.protocols false false false in
    rw mask (with_last-bits rule.whole_device (eqs rule.action "accept") every i t u)
