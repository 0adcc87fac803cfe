-- ===== src/Overlay/Mutual.antt =====
-- internal/overlay/mesh.go: the meshes of the devices against each other and against the relay.
use accounts.Base.{
  ◌≡◌, refl, sym, ap, subst, ◌∙◌, inl, inr, String, true, Option, none, some, List, [], ◌∷◌, map,
  keep, In, In-keep, keep-In, In-map, map-In, arith, Bool-cases, Result, ok, err, ◌>>=◌, >>=-eq-ok,
  fail_if, ltb, length, All, ◌≢◌,
}
use accounts.Base.Text.{eqs, eqs_iff}
use accounts.Overlay.Mesh.{
  Outside, mesh_capable, mesh_devices, policy_artifact, is_peer, peer_of, one_mesh_spec,
  allowed_peers, add_relay_peer, relay_peers, unless_empty, relay_spec,
}
use accounts.Overlay.Opened.{IsOpen, grant_evaluator-IsOpen}
use accounts.Overlay.Types.{
  PolicyArtifact, DeviceRecord, NetworkRecord, MeshPeer, MeshSpec, RelayPeer, OverlayError,
  invalid_input,
}

-- The peers that a device is told.
abbrev pub peers_of : Result OverlayError (Option MeshSpec) → List MeshPeer
peers_of (ok (some spec)) = spec.peers
peers_of (ok none) = []
peers_of (err e) = []

abbrev pub ids : List MeshPeer → List String
ids = map (λ (p : MeshPeer). p.device_id)

eqs_sym : (s t : String) → eqs s t ≡ eqs t s
eqs_sym s t = ground (arith, eqs_iff s t, eqs_iff t s)

is_peer_sym :
    (policy : PolicyArtifact) (a b : DeviceRecord) → is_peer policy a b ≡ is_peer policy b a
is_peer_sym policy a b =
    ground (arith, eqs_sym a.id b.id, eqs_sym a.wire_guard_public_key b.wire_guard_public_key)

allowed_peers-ids :
    (policy : PolicyArtifact) (a : DeviceRecord) (devices : List DeviceRecord)
    → allowed_peers policy a devices ≡ ids (map peer_of (keep (is_peer policy a) devices))
allowed_peers-ids policy a [] = refl
allowed_peers-ids policy a (b ∷ devices) =
    let ids_sym = eqs_sym a.id b.id in
    let keys_sym = eqs_sym a.wire_guard_public_key b.wire_guard_public_key in
    elim (Bool-cases (is_peer policy a b)) [
      | inl hit ↦ rw (ids_sym, keys_sym, hit, allowed_peers-ids policy a devices) refl
      | inr miss ↦ rw (ids_sym, keys_sym, miss, allowed_peers-ids policy a devices) refl
    ]

module _ (outside : Outside) (network : NetworkRecord) where
  abbrev pub mesh_of : DeviceRecord → List MeshPeer
  mesh_of a = peers_of (one_mesh_spec outside a network)

  -- An entry for each device whose mesh is not empty.
  abbrev pub entries : List DeviceRecord → List RelayPeer
  entries [] = []
  entries (a ∷ devices) = add_relay_peer a (ids (mesh_of a)) (entries devices)

  module _ (devices : List DeviceRecord) (policy : PolicyArtifact)
      (found : mesh_devices outside network ≡ ok (devices, policy)) where
    mesh_of-keep :
        (a : DeviceRecord)
        → mesh_capable outside a ≡ true
        → mesh_of a ≡ map peer_of (keep (is_peer policy a) devices)
    unfolding one_mesh_spec
    mesh_of-keep a capable =
        rw (capable, found) (listed (map peer_of (keep (is_peer policy a) devices)))
      where
        listed :
            (peers : List MeshPeer)
            → peers_of
                (elim peers [ [] ↦ ok none | p ∷ rest ↦ ok (some (record { peers = p ∷ rest })) ])
              ≡ peers
        listed [] = refl
        listed (p ∷ rest) = refl

    mesh_devices-capable : (a : DeviceRecord) → In a devices → mesh_capable outside a ≡ true
    unfolding mesh_devices
    mesh_devices-capable a member =
        let (all, queried, rest) = >>=-eq-ok (outside.devices network.id) _ found in
        let (read, decoded, last) = >>=-eq-ok (policy_artifact outside network) _ rest in
        let (checked, few, is) =
          >>=-eq-ok (fail_if (ltb 256 (length (keep (mesh_capable outside) all))) invalid_input) _
            last in
        let same : devices ≡ keep (mesh_capable outside) all = cc in
        (keep-In (mesh_capable outside) a all (subst (In a) same member)).1

    -- The relay's entries for some of the devices are those of their own meshes.
    relay_peers-entries :
        (some_devices : List DeviceRecord)
        → All (λ a. mesh_capable outside a ≡ true) some_devices
        → relay_peers policy devices some_devices ≡ entries some_devices
    relay_peers-entries [] capable = refl
    relay_peers-entries (a ∷ others) (first, later) =
        let same : allowed_peers policy a devices ≡ ids (mesh_of a) =
          allowed_peers-ids policy a devices ∙ ap ids (sym (mesh_of-keep a first)) in
        rw (same, relay_peers-entries others later) refl

    mesh_of-mutual :
        (a : DeviceRecord) (p : MeshPeer)
        → In a devices
        → In p (mesh_of a)
        → (d : DeviceRecord) × In d devices
          × (p ≡ peer_of d)
          × (a.id ≢ d.id)
          × IsOpen policy a.id d.id
          × IsOpen policy d.id a.id
          × In (peer_of a) (mesh_of d)
    mesh_of-mutual a p member peer =
        let own = mesh_of-keep a (mesh_devices-capable a member) in
        let (d, kept, is) =
          map-In peer_of p (keep (is_peer policy a) devices) (subst (In p) own peer) in
        let (there, pair) = keep-In (is_peer policy a) d devices kept in
        let back : is_peer policy d a ≡ true = is_peer_sym policy d a ∙ pair in
        let others = mesh_of-keep d (mesh_devices-capable d there) in
        let told =
          In-map peer_of a (keep (is_peer policy d) devices)
            (In-keep (is_peer policy d) a devices member back) in
        (
          d,
          there,
          is,
          λ same. absurd (ground (arith, eqs_iff d.id a.id, pair)),
          grant_evaluator-IsOpen policy a.id d.id (ground (arith, pair)),
          grant_evaluator-IsOpen policy d.id a.id (ground (arith, pair)),
          subst (In (peer_of a)) (sym others) told,
        )

    relay_spec-found : relay_spec outside network ≡ ok (unless_empty (entries devices))
    unfolding relay_spec
    relay_spec-found = rw found (
        ap (λ peers. ok (unless_empty peers))
          (relay_peers-entries devices (all_capable devices λ a m. m)))
      where
        all_capable :
            (xs : List DeviceRecord)
            → ((a : DeviceRecord) → In a xs → In a devices)
            → All (λ a. mesh_capable outside a ≡ true) xs
        all_capable [] h = tt
        all_capable (x ∷ xs) h =
            (mesh_devices-capable x (h x (inl refl)), all_capable xs λ a m. h a (inr m))

-- The relay of a network has one entry for each device whose own mesh is not empty, with the ids of the peers of that mesh, in
-- the order of the devices, and no relay where there is no entry; it fails as the lookup of the devices fails.
pub relay_spec-entries :
    (outside : Outside) (network : NetworkRecord)
    → relay_spec outside network ≡ (
        mesh_devices outside network >>= λ found.
        ok (unless_empty (entries outside network found.0)))
unfolding relay_spec
relay_spec-entries outside network = by_result (mesh_devices outside network) refl
  where
    by_result :
        (r : Result OverlayError (List DeviceRecord × PolicyArtifact))
        → mesh_devices outside network ≡ r
        → relay_spec outside network
          ≡ (r >>= λ found. ok (unless_empty (entries outside network found.0)))
    by_result (ok (devices, policy)) found = relay_spec-found outside network devices policy found
    by_result (err e) found = rw found refl

-- Where the devices are found, a peer that a device of the network is told is another device of the network, the policy opens the pair in both directions,
-- and the other device is told of the first.
pub one_mesh_spec-mutual :
    (outside : Outside) (network : NetworkRecord) (devices : List DeviceRecord)
    (policy : PolicyArtifact) (a : DeviceRecord) (p : MeshPeer)
    → mesh_devices outside network ≡ ok (devices, policy)
    → In a devices
    → In p (mesh_of outside network a)
    → (d : DeviceRecord) × In d devices
      × (p ≡ peer_of d)
      × (a.id ≢ d.id)
      × IsOpen policy a.id d.id
      × IsOpen policy d.id a.id
      × In (peer_of a) (mesh_of outside network d)
one_mesh_spec-mutual outside network devices policy a p found =
    mesh_of-mutual outside network devices policy found a p
