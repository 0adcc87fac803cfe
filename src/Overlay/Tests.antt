-- ===== src/Overlay/Tests.antt =====
-- internal/overlay: runs of the mesh, and the theorems at concrete policies.
use accounts.Base.{
  ℕ, zero, suc, ◌+◌, ◌≡◌, ◌≢◌, ◌↔◌, refl, inl, String, true, false, none, some, List, [], ◌∷◌, In,
  arith, ok, err, ◌>>=◌, ◌==◌, if◌then◌else◌,
}
use accounts.Base.Text.{eqs, trim, is_space}
use accounts.Overlay.Types.{
  PolicyRule, PolicyArtifact, DeviceRecord, NetworkRecord, MeshPeer, generation_conflict,
}
use accounts.Overlay.Masks.{rule_mask}
use accounts.Overlay.Grants.{grant_evaluator, whole_device_allowed}
use accounts.Overlay.Opened.{IsOpen, grant_evaluator_iff}
use accounts.Overlay.Mesh.{
  Outside, policy_artifact, mesh_capable, mesh_devices, one_mesh_spec, relay_spec, unless_empty,
  peer_of, default_policy_artifact,
}
use accounts.Overlay.Mutual.{mesh_of, entries, relay_spec-entries, one_mesh_spec-mutual}
use accounts.Overlay.Generations.{
  admin_update_policy, admin_update_policy-read, advance_network_generation, count_registration,
  updated_policy, with_revision, IsReadBack,
}

-- The numbers from j + 1 on.
abbrev numbers : ℕ → ℕ → List ℕ
numbers j zero = []
numbers j (suc n) = (j + 1) ∷ numbers (j + 1) n

abbrev both : List String
both = "one-a" ∷ "one-b" ∷ []

abbrev rule_on : List ℕ → PolicyRule
rule_on ports = record {
  whole_device = true;
  id = "all-traffic";
  action = "accept";
  source_devices = both;
  destination_devices = both;
  protocols = "icmp" ∷ "tcp" ∷ "udp" ∷ [];
  ports = ports;
}

abbrev deny_ssh : PolicyRule
deny_ssh = record {
  whole_device = false;
  id = "deny-ssh";
  action = "deny";
  source_devices = "one-a" ∷ [];
  destination_devices = "one-b" ∷ [];
  protocols = "tcp" ∷ [];
  ports = 22 ∷ [];
}

abbrev policy_of : List PolicyRule → PolicyArtifact
policy_of rules = record (default_policy_artifact "net" 1) { rules = rules }

test_full : whole_device_allowed (policy_of (rule_on (numbers 0 65535) ∷ [])) "one-a" "one-b" ≡ true
unfolding whole_device_allowed grant_evaluator rule_mask
test_full = refl

test_ports : whole_device_allowed (policy_of (rule_on (443 ∷ []) ∷ [])) "one-a" "one-b" ≡ false
unfolding whole_device_allowed grant_evaluator rule_mask
test_ports = refl

test_deny :
    whole_device_allowed (policy_of (rule_on (443 ∷ []) ∷ deny_ssh ∷ [])) "one-a" "one-b" ≡ false
unfolding whole_device_allowed grant_evaluator rule_mask
test_deny = refl

grant_evaluator_iff_example :
    (grant_evaluator (policy_of (rule_on (443 ∷ []) ∷ deny_ssh ∷ [])) "one-a" "one-b" ≡ true)
    ↔ IsOpen (policy_of (rule_on (443 ∷ []) ∷ deny_ssh ∷ [])) "one-a" "one-b"
grant_evaluator_iff_example =
    grant_evaluator_iff (policy_of (rule_on (443 ∷ []) ∷ deny_ssh ∷ [])) "one-a" "one-b"

abbrev full_policy : PolicyArtifact
full_policy = policy_of (rule_on (numbers 0 65535) ∷ [])

abbrev key_bytes : ℕ → List ℕ
key_bytes zero = []
key_bytes (suc n) = 7 ∷ key_bytes n

-- A key of 32 bytes is read of two texts; every text is an address of one host.
abbrev encode_key : List ℕ → String
encode_key [] = ""
encode_key (b ∷ bytes) = if b == 7 then "key-a" else "key-b"

abbrev device : String → String → DeviceRecord
device id key = record {
  id = id;
  user_uuid = "owner";
  user_id = "owner";
  network_id = "net";
  role = "one";
  name = id;
  platform = "linux";
  hostname = id;
  wire_guard_public_key = key;
  wire_guard_address = "10.79.0.2/32";
  status = "active";
  last_seen_at = none;
  created_at = 1;
  updated_at = 1;
}

abbrev two_devices : List DeviceRecord
two_devices = device "one-a" "key-a" ∷ device "one-b" "key-b" ∷ []

abbrev outside_of : PolicyArtifact → PolicyArtifact → Outside
outside_of stored next = record {
  devices = λ network_id. ok two_devices;
  decode_policy = λ text. if eqs text "next" then some next else some stored;
  encode_policy = λ policy. if policy.revision == next.revision then "next" else "stored";
  decode_base64 = λ text. if eqs text "key-a" then some (key_bytes 32) else some (8 ∷ key_bytes 31);
  encode_base64 = encode_key;
  parse_prefix = λ text. some (record { bits = 32; bit_len = 32; text = text });
}

abbrev full_outside : Outside
full_outside = outside_of full_policy full_policy

abbrev network : NetworkRecord
network = record {
  id = "net";
  display_name = "";
  cidr = "";
  gateway_id = "";
  gateway_wire_guard_key = "";
  gateway_wire_guard_address = "";
  gateway_endpoint_host = "";
  gateway_endpoint_port = 1;
  transport_server_name = "";
  transport_port = 1;
  transport_auth_id = "";
  transport_kind = "";
  transport_path = "";
  transport_mode = "";
  transport_host = "";
  gateway_frontend = "";
  gateway_listen_socket = "";
  owner_user_id = "";
  policy_json = "stored";
  config_generation = 1;
  created_at = 1;
  updated_at = 1;
}

abbrev peer_b : MeshPeer
peer_b = record { device_id = "one-b"; public_key = "key-b"; address = "10.79.0.2/32" }

two_found : mesh_devices full_outside network ≡ ok (two_devices, full_policy)
unfolding mesh_devices policy_artifact mesh_capable trim is_space
two_found = refl

b_told : In peer_b (mesh_of full_outside network (device "one-a" "key-a"))
unfolding one_mesh_spec mesh_devices policy_artifact mesh_capable trim is_space grant_evaluator
    rule_mask
b_told = inl refl

one_mesh_spec-mutual_example :
    (d : DeviceRecord) × In d two_devices
    × (peer_b ≡ peer_of d)
    × ("one-a" ≢ d.id)
    × IsOpen full_policy "one-a" d.id
    × IsOpen full_policy d.id "one-a"
    × In (peer_of (device "one-a" "key-a")) (mesh_of full_outside network d)
one_mesh_spec-mutual_example =
    one_mesh_spec-mutual full_outside network two_devices full_policy (device "one-a" "key-a")
      peer_b two_found (inl refl) b_told

relay_spec-entries_example : relay_spec full_outside network ≡ (
    mesh_devices full_outside network >>= λ found.
    ok (unless_empty (entries full_outside network found.0)))
relay_spec-entries_example = relay_spec-entries full_outside network

-- A policy for ssh, under the revisions 2 and 3.
abbrev ssh_policy : PolicyArtifact
ssh_policy = updated_policy network (policy_of (deny_ssh ∷ []))

abbrev ssh_outside : Outside
ssh_outside = outside_of ssh_policy (with_revision 3 ssh_policy)

abbrev updated : NetworkRecord
updated = record network { policy_json = "stored"; config_generation = 2 }

ssh_updated :
    admin_update_policy ssh_outside network (policy_of (deny_ssh ∷ [])) ≡ ok (ssh_policy, updated)
unfolding admin_update_policy
ssh_updated = refl

ssh_read : IsReadBack ssh_outside ssh_policy
unfolding trim is_space
ssh_read = record { read = refl; solid = refl }

ssh_next_read : IsReadBack ssh_outside (with_revision 3 ssh_policy)
unfolding trim is_space
ssh_next_read = record { read = refl; solid = refl }

admin_update_policy-read_example :
    (policy_artifact ssh_outside updated ≡ ok ssh_policy)
    × ((advanced : NetworkRecord) × (advance_network_generation ssh_outside 2 updated ≡ ok advanced)
        × (policy_artifact ssh_outside advanced ≡ ok (with_revision 3 ssh_policy)))
    × (policy_artifact ssh_outside (count_registration updated) ≡ err generation_conflict)
admin_update_policy-read_example =
    admin_update_policy-read ssh_outside network updated (policy_of (deny_ssh ∷ [])) ssh_policy
      (omega arith) ssh_updated ssh_read ssh_next_read
