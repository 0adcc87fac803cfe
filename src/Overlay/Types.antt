-- ===== src/Overlay/Types.antt =====
-- internal/overlay/domain.go and repository.go: the records of policies, devices and meshes.
use accounts.Base.{ℕ, String, Bool, Option, List}
use accounts.Base.Time.{Time}

pub record PolicyRule : Type 0 where
  pub whole_device : Bool
  pub id : String
  pub action : String
  pub source_devices : List String
  pub destination_devices : List String
  pub protocols : List String
  pub ports : List ℕ

pub record PolicyArtifact : Type 0 where
  pub schema_version : ℕ
  pub compiler_version : String
  pub network_id : String
  pub revision : ℕ
  pub default_action : String
  pub protected_flows : List String
  pub rules : List PolicyRule

pub record DeviceRecord : Type 0 where
  pub id : String
  pub user_uuid : String
  pub user_id : String
  pub network_id : String
  pub role : String
  pub name : String
  pub platform : String
  pub hostname : String
  pub wire_guard_public_key : String
  pub wire_guard_address : String
  pub status : String
  pub last_seen_at : Option Time
  pub created_at : Time
  pub updated_at : Time

pub record NetworkRecord : Type 0 where
  pub id : String
  pub display_name : String
  pub cidr : String
  pub gateway_id : String
  pub gateway_wire_guard_key : String
  pub gateway_wire_guard_address : String
  pub gateway_endpoint_host : String
  pub gateway_endpoint_port : ℕ
  pub transport_server_name : String
  pub transport_port : ℕ
  pub transport_auth_id : String
  pub transport_kind : String
  pub transport_path : String
  pub transport_mode : String
  pub transport_host : String
  pub gateway_frontend : String
  pub gateway_listen_socket : String
  pub owner_user_id : String
  pub policy_json : String
  pub config_generation : ℕ
  pub created_at : Time
  pub updated_at : Time

pub record MeshPeer : Type 0 where
  pub device_id : String
  pub public_key : String
  pub address : String

pub record MeshSpec : Type 0 where
  pub peers : List MeshPeer

pub record RelayPeer : Type 0 where
  pub device_id : String
  pub public_key : String
  pub allowed_peers : List String

pub record RelaySpec : Type 0 where
  pub peers : List RelayPeer

pub data OverlayError : Type 0 where
  storage_failed : OverlayError
  decode_stored_policy : OverlayError
  generation_conflict : OverlayError
  invalid_input : OverlayError

abbrev pub role_one : String
role_one = "one"

abbrev pub policy_compiler_version : String
policy_compiler_version = "xconnect-acl-v1alpha1.1"
