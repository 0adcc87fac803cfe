-- ===== src/Overlay/Opened.antt =====
-- internal/overlay/mesh.go: what the evaluator of a policy decides.
use Prim.Native.Nat.{bit_or}
use accounts.Base.{
  ℕ, zero, suc, ◌+◌, ◌<◌, ◌≡◌, ◌≢◌, refl, sym, ap, subst, ◌∙◌, ◌↔◌, ◌⊎◌, inl, inr, String, Bool,
  true, false, not, ◌&&◌, ◌||◌, List, [], ◌∷◌, map, length, ◌==◌, ==_iff, if◌then◌else◌, arith, any,
  In, In-any, any-In, Bool-cases, some, get_elem?, ltb, ltb→lt, &&-true,
}
use accounts.Base.Text.{eqs, eqs_iff, eqs_refl}
use accounts.Overlay.Grants.{contains_id, covers, evaluate, with_mask, grant_evaluator}
use accounts.Overlay.Masks.{all_ports, counts_up, is_whole, rule_mask, rule_mask-is_whole}
use accounts.Overlay.Types.{PolicyRule, PolicyArtifact}

-- A test of all masks under a bound.
passes_under : (ℕ → Bool) → ℕ → Bool
passes_under test zero = true
passes_under test (suc bound) = passes_under test bound && test bound

passes_under-at :
    (test : ℕ → Bool) (bound mask : ℕ)
    → mask < bound
    → passes_under test bound ≡ true
    → test mask ≡ true
unfolding passes_under
passes_under-at test zero mask under passed = absurd (omega arith)
passes_under-at test (suc bound) mask under passed = elim (Bool-cases (mask == bound)) [
  | inl last ↦ subst (λ m. test m ≡ true) (sym ((==_iff mask bound).0 last)) (&&-true _ _ passed).1
  | inr earlier ↦ passes_under-at test bound mask (ground arith) (&&-true _ _ passed).0
]

three_bits : passes_under (λ a. passes_under (λ b. ltb (bit_or a b) 8) 8) 8 ≡ true
unfolding passes_under
three_bits = refl

four_bits : passes_under (λ a. bit_or a 15 == 15 && bit_or 15 a == 15) 16 ≡ true
unfolding passes_under
four_bits = refl

-- A mask that has no bit of a whole device, or all bits.
abbrev Sound : ℕ → Type 0
Sound m = (m < 8) ⊎ (m ≡ 15)

bit_or-low : (a b : ℕ) → a < 8 → b < 8 → bit_or a b < 8
bit_or-low a b p q =
    let row = passes_under-at (λ x. passes_under (λ y. ltb (bit_or x y) 8) 8) 8 a p three_bits in
    ltb→lt _ 8 (passes_under-at (λ y. ltb (bit_or a y) 8) 8 b q row)

bit_or-full : (a : ℕ) → a < 16 → (bit_or a 15 ≡ 15) × (bit_or 15 a ≡ 15)
bit_or-full a p =
    let both = passes_under-at (λ x. bit_or x 15 == 15 && bit_or 15 x == 15) 16 a p four_bits in
    let (right, left) = &&-true (bit_or a 15 == 15) (bit_or 15 a == 15) both in
    ((==_iff _ 15).0 right, (==_iff _ 15).0 left)

module _ (source destination : String) where
  abbrev pub denies : PolicyRule → Bool
  denies rule = covers source destination rule && eqs rule.action "deny"

  abbrev pub grants : PolicyRule → Bool
  grants rule = covers source destination rule && is_whole rule

  abbrev next_mask : PolicyRule → ℕ → ℕ
  next_mask rule mask =
      if covers source destination rule && eqs rule.action "accept"
      then bit_or mask (rule_mask rule)
      else mask

  -- A rule that grants makes the mask full, and only such a rule does.
  next_mask-Sound :
      (rule : PolicyRule) (mask : ℕ)
      → Sound mask
      → Sound (next_mask rule mask) × ((next_mask rule mask == 15) ≡ (mask == 15 || grants rule))
  next_mask-Sound rule mask (inr full) =
      let own : rule_mask rule < 16 = ground (arith, rule_mask-is_whole rule) in
      let or_full : bit_or mask (rule_mask rule) ≡ 15 =
        ap (λ m. bit_or m (rule_mask rule)) full ∙ (bit_or-full (rule_mask rule) own).1 in
      let still : next_mask rule mask ≡ 15 = ground (arith, or_full, full) in
      (inr still, ground (arith, still, full))
  next_mask-Sound rule mask (inl low) = elim (rule_mask-is_whole rule) [
    | inl (whole, own) ↦
        let or_full = (bit_or-full mask (omega arith)).0 in
        let accepts : eqs rule.action "accept" ≡ true = ground arith in
        let or_own : bit_or mask (rule_mask rule) ≡ 15 = ap (bit_or mask) own ∙ or_full in
        (ground (arith, or_own, low), ground (arith, or_own, low, whole, accepts))
    | inr (part, own) ↦
        let or_low = bit_or-low mask (rule_mask rule) low own in
        (ground (arith, or_low, low), ground (arith, or_low, low, part))
  ]

  evaluate-any :
      (rules : List PolicyRule) (mask : ℕ)
      → Sound mask
      → evaluate source destination (map with_mask rules) mask
        ≡ (not (any denies rules) && (mask == 15 || any grants rules))
  evaluate-any [] mask sound = ground arith
  evaluate-any (rule ∷ rules) mask sound =
      let (next, full) = next_mask-Sound rule mask sound in
      let rest = evaluate-any rules (next_mask rule mask) next in ground arith

-- The ports 1 to 65535, each once and in order.
abbrev pub AllPorts : List ℕ → Type 0
AllPorts ports = (length ports ≡ 65535) × ((i : ℕ) → i < 65535 → get_elem? ports i ≡ some (i + 1))

counts_up-get_elem? :
    (j : ℕ) (ports : List ℕ)
    → counts_up j ports ≡ true
    → (i : ℕ) → i < length ports
    → get_elem? ports i ≡ some (j + i + 1)
counts_up-get_elem? j [] h i below = absurd (omega arith)
counts_up-get_elem? j (p ∷ ports) h zero below = ground (arith)
counts_up-get_elem? j (p ∷ ports) h (suc i) below =
    let (_, rest) = &&-true (p == j + 1) (counts_up (j + 1) ports) h in
    counts_up-get_elem? (j + 1) ports rest i (omega arith) ∙ ap some (omega arith)

get_elem?-counts_up :
    (j : ℕ) (ports : List ℕ)
    → ((i : ℕ) → i < length ports → get_elem? ports i ≡ some (j + i + 1))
    → counts_up j ports ≡ true
get_elem?-counts_up j [] h = refl
get_elem?-counts_up j (p ∷ ports) h =
    let first = h 0 (omega arith) in
    let rest =
      get_elem?-counts_up (j + 1) ports
        λ i below. h (suc i) (omega arith) ∙ ap some (omega arith) in
    ground (arith, first, rest)

all_ports-AllPorts : (ports : List ℕ) → all_ports ports ≡ true → AllPorts ports
all_ports-AllPorts ports h =
    let (size, up) = &&-true (length ports == 65535) (counts_up 0 ports) h in
    let long = (==_iff (length ports) 65535).0 size in
    (
      long,
      λ i below.
          counts_up-get_elem? 0 ports up i (subst (λ n. i < n) (sym long) below)
          ∙ ap some (omega arith),
    )

AllPorts-all_ports : (ports : List ℕ) → AllPorts ports → all_ports ports ≡ true
AllPorts-all_ports ports (long, each) =
    let size = (==_iff (length ports) 65535).1 long in
    let up =
      get_elem?-counts_up 0 ports
        λ i below. each i (subst (λ n. i < n) long below) ∙ ap some (omega arith) in
    rw (size, up) refl

contains_id-In :
    (values : List String) (id : String) → (contains_id values id ≡ true) ↔ In id values
contains_id-In values id = (
  λ h.
      let (v, member, same) = any-In (λ v. eqs v id) values h in
      subst (λ x. In x values) ((eqs_iff v id).0 same) member,
  λ member. In-any (λ v. eqs v id) id values member (eqs_refl id),
)

-- The pair is opened: everything is denied by default, no rule for the pair denies it, and one rule for the pair accepts it
-- for whole devices, with each of the protocols and on all ports.
pub record IsOpen (policy : PolicyArtifact) (source destination : String) : Type 0 where
  pub closed : policy.default_action ≡ "deny"
  pub undenied :
      (rule : PolicyRule)
      → In rule policy.rules
      → In source rule.source_devices
      → In destination rule.destination_devices
      → rule.action ≢ "deny"
  pub rule : PolicyRule
  pub listed : In rule policy.rules
  pub from : In source rule.source_devices
  pub to : In destination rule.destination_devices
  pub accepted : rule.action ≡ "accept"
  pub whole : rule.whole_device ≡ true
  pub icmp : In "icmp" rule.protocols
  pub tcp : In "tcp" rule.protocols
  pub udp : In "udp" rule.protocols
  pub every : AllPorts rule.ports

covers-In :
    (source destination : String) (rule : PolicyRule)
    → (covers source destination rule ≡ true)
      ↔ (In source rule.source_devices × In destination rule.destination_devices)
covers-In source destination rule = (
  λ h.
      let (a, b) =
        &&-true (contains_id rule.source_devices source)
          (contains_id rule.destination_devices destination) h in
      (
        (contains_id-In rule.source_devices source).0 a,
        (contains_id-In rule.destination_devices destination).0 b,
      ),
  λ h.
      let a = (contains_id-In rule.source_devices source).1 h.0 in
      let b = (contains_id-In rule.destination_devices destination).1 h.1 in ground (arith, a, b),
)

pub grant_evaluator-IsOpen :
    (policy : PolicyArtifact) (source destination : String)
    → grant_evaluator policy source destination ≡ true
    → IsOpen policy source destination
unfolding grant_evaluator
grant_evaluator-IsOpen policy source destination h =
    let any_rule = evaluate-any source destination policy.rules 0 (inl (omega arith)) in
    let closed : eqs policy.default_action "deny" ≡ true = ground arith in
    let none_denies : any (denies source destination) policy.rules ≡ false = ground arith in
    let one_grants : any (grants source destination) policy.rules ≡ true = ground arith in
    let (rule, listed, granted) = any-In (grants source destination) policy.rules one_grants in
    let (hit, whole) = &&-true (covers source destination rule) (is_whole rule) granted in
    let (from, to) = (covers-In source destination rule).0 hit in
    record {
      closed = (eqs_iff policy.default_action "deny").0 closed;
      undenied = λ other there a b refused.
          let hit : denies source destination other ≡ true = ground (
            arith,
            (covers-In source destination other).1 (a, b),
            (eqs_iff other.action "deny").1 refused,
          ) in
          absurd (
            ground (
              arith,
              none_denies,
              In-any (denies source destination) other policy.rules there hit,
            ));
      rule = rule;
      listed = listed;
      from = from;
      to = to;
      accepted = (eqs_iff rule.action "accept").0 (ground arith);
      whole = ground arith;
      icmp = (contains_id-In rule.protocols "icmp").0 (ground arith);
      tcp = (contains_id-In rule.protocols "tcp").0 (ground arith);
      udp = (contains_id-In rule.protocols "udp").0 (ground arith);
      every = all_ports-AllPorts rule.ports (ground arith);
    }

IsOpen-grant_evaluator :
    (policy : PolicyArtifact) (source destination : String)
    → IsOpen policy source destination
    → grant_evaluator policy source destination ≡ true
unfolding grant_evaluator
IsOpen-grant_evaluator policy source destination o =
    let any_rule = evaluate-any source destination policy.rules 0 (inl (omega arith)) in
    let none_denies : any (denies source destination) policy.rules ≡ false =
      elim (Bool-cases (any (denies source destination) policy.rules)) [
        | inl refused ↦
            let (other, there, hit) = any-In (denies source destination) policy.rules refused in
            let (covered, deny) =
              &&-true (covers source destination other) (eqs other.action "deny") hit in
            let (a, b) = (covers-In source destination other).0 covered in
            absurd (o.undenied other there a b ((eqs_iff other.action "deny").0 deny))
        | inr fine ↦ fine
      ] in
    let whole : is_whole o.rule ≡ true = ground (
      arith,
      o.whole,
      (eqs_iff o.rule.action "accept").1 o.accepted,
      AllPorts-all_ports o.rule.ports o.every,
      (contains_id-In o.rule.protocols "icmp").1 o.icmp,
      (contains_id-In o.rule.protocols "tcp").1 o.tcp,
      (contains_id-In o.rule.protocols "udp").1 o.udp,
    ) in
    let hit : grants source destination o.rule ≡ true =
      ground (arith, whole, (covers-In source destination o.rule).1 (o.from, o.to)) in
    let one_grants = In-any (grants source destination) o.rule policy.rules o.listed hit in
    ground
      (arith, any_rule, none_denies, one_grants, (eqs_iff policy.default_action "deny").1 o.closed)

-- The evaluator grants a pair exactly when everything is denied by default, no rule for the pair denies it, and one rule for
-- the pair accepts it for whole devices, with each of the protocols icmp, tcp and udp and with the ports 1 to 65535 in order.
pub grant_evaluator_iff :
    (policy : PolicyArtifact) (source destination : String)
    → (grant_evaluator policy source destination ≡ true) ↔ IsOpen policy source destination
grant_evaluator_iff policy source destination = (
  grant_evaluator-IsOpen policy source destination,
  IsOpen-grant_evaluator policy source destination,
)
