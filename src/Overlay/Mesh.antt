-- ===== src/Overlay/Mesh.antt =====
-- internal/overlay/mesh.go, with `policyArtifact` and `defaultPolicyArtifact` of service.go.
use accounts.Base.{
  ℕ, String, Bool, false, not, ◌&&◌, ◌||◌, Option, none, some, List, [], ◌∷◌, map, length, ◌==◌,
  ltb, if◌then◌else◌, keep, Result, ok, ◌>>=◌, ◌>>◌, fail_if, or_fail,
}
use accounts.Base.Text.{eqs, is_empty, trim}
use accounts.Overlay.Grants.{grant_evaluator}
use accounts.Overlay.Types.{
  PolicyArtifact, DeviceRecord, NetworkRecord, MeshPeer, MeshSpec, RelayPeer, RelaySpec,
  OverlayError, decode_stored_policy, generation_conflict, invalid_input, role_one,
  policy_compiler_version,
}

-- What net/netip reads of a prefix: `Bits()`, `Addr().BitLen()` and `String()`.
pub record Prefix : Type 0 where
  pub bits : ℕ
  pub bit_len : ℕ
  pub text : String

-- What the code takes from outside: the query for the active devices of a network in the order of their ids, and the decoders
-- of encoding/json, encoding/base64 and net/netip.
pub record Outside : Type 0 where
  pub devices : String → Result OverlayError (List DeviceRecord)
  pub decode_policy : String → Option PolicyArtifact
  pub encode_policy : PolicyArtifact → String
  pub decode_base64 : String → Option (List ℕ)
  pub encode_base64 : List ℕ → String
  pub parse_prefix : String → Option Prefix

abbrev pub default_policy_artifact : String → ℕ → PolicyArtifact
default_policy_artifact network_id generation = record {
  schema_version = 1;
  compiler_version = policy_compiler_version;
  network_id = network_id;
  revision = generation;
  default_action = "deny";
  protected_flows =
      "control:controller-session" ∷ "control:gateway-apply-result" ∷ "control:gateway-heartbeat"
      ∷ "control:gateway-policy-artifact" ∷ "control:gateway-snapshot" ∷ [];
  rules = [];
}

-- The test that both loops make of a pair.
abbrev pub is_peer : PolicyArtifact → DeviceRecord → DeviceRecord → Bool
is_peer policy a b =
    not (eqs b.id a.id)
    && not (eqs b.wire_guard_public_key a.wire_guard_public_key)
    && grant_evaluator policy a.id b.id
    && grant_evaluator policy b.id a.id

abbrev pub peer_of : DeviceRecord → MeshPeer
peer_of d = record {
  device_id = d.id;
  public_key = d.wire_guard_public_key;
  address = d.wire_guard_address;
}

-- The ids that the relay lets a device reach.
abbrev pub allowed_peers : PolicyArtifact → DeviceRecord → List DeviceRecord → List String
allowed_peers policy a [] = []
allowed_peers policy a (b ∷ devices) =
    let rest = allowed_peers policy a devices in
    if not (eqs a.id b.id)
      && not (eqs a.wire_guard_public_key b.wire_guard_public_key)
      && grant_evaluator policy a.id b.id
      && grant_evaluator policy b.id a.id
    then b.id ∷ rest
    else rest

-- A device that reaches some gets an entry.
abbrev pub add_relay_peer : DeviceRecord → List String → List RelayPeer → List RelayPeer
add_relay_peer a [] rest = rest
add_relay_peer a (i ∷ ids) rest =
    record { device_id = a.id; public_key = a.wire_guard_public_key; allowed_peers = i ∷ ids }
    ∷ rest

abbrev pub relay_peers : PolicyArtifact → List DeviceRecord → List DeviceRecord → List RelayPeer
relay_peers policy devices [] = []
relay_peers policy devices (a ∷ others) =
    add_relay_peer a (allowed_peers policy a devices) (relay_peers policy devices others)

-- `if len(spec.Peers) == 0 { return nil, nil }`
abbrev pub unless_empty : List RelayPeer → Option RelaySpec
unless_empty [] = none
unless_empty (p ∷ peers) = some (record { peers = p ∷ peers })

module _ (outside : Outside) where
  unfoldable pub policy_artifact : NetworkRecord → Result OverlayError PolicyArtifact
  policy_artifact network =
      if is_empty (trim network.policy_json)
      then ok (default_policy_artifact network.id network.config_generation)
      else or_fail (outside.decode_policy network.policy_json) decode_stored_policy >>= λ policy.
          fail_if
            (not (eqs policy.network_id network.id)
              || not (policy.revision == network.config_generation))
            generation_conflict
          >> ok policy

  abbrev pub is_key : String → Bool
  is_key text = elim (outside.decode_base64 text) [
    | none ↦ false
    | some key ↦ length key == 32 && eqs (outside.encode_base64 key) text
  ]

  abbrev pub is_host_address : String → Bool
  is_host_address text = elim (outside.parse_prefix text) [
    | none ↦ false
    | some address ↦ address.bits == address.bit_len && eqs address.text text
  ]

  unfoldable pub mesh_capable : DeviceRecord → Bool
  mesh_capable d =
      if not (eqs d.role role_one)
        || not (eqs d.status "active")
        || (not (eqs d.platform "linux")
            && not (eqs d.platform "darwin")
            && not (eqs d.platform "windows"))
      then false
      else is_key d.wire_guard_public_key && is_host_address d.wire_guard_address

  unfoldable pub mesh_devices :
      NetworkRecord → Result OverlayError (List DeviceRecord × PolicyArtifact)
  mesh_devices network = outside.devices network.id >>= λ devices.
      policy_artifact network >>= λ policy.
      let result = keep mesh_capable devices in
      fail_if (ltb 256 (length result)) invalid_input >> ok (result, policy)

  unfoldable pub one_mesh_spec :
      DeviceRecord → NetworkRecord → Result OverlayError (Option MeshSpec)
  one_mesh_spec self network =
      if mesh_capable self
      then mesh_devices network >>= (λ found.
        let (devices, policy) = found in
        elim (map peer_of (keep (is_peer policy self) devices)) [
          | [] ↦ ok none
          | p ∷ peers ↦ ok (some (record { peers = p ∷ peers }))
        ])
      else ok none

  unfoldable pub relay_spec : NetworkRecord → Result OverlayError (Option RelaySpec)
  relay_spec network = mesh_devices network >>= λ found.
      let (devices, policy) = found in ok (unless_empty (relay_peers policy devices devices))
