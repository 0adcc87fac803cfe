-- ===== src/Overlay/Generations.antt =====
-- internal/overlay/service.go and repository.go: the generation of a network's configuration and the revision of its policy.
use accounts.Base.{
  ℕ, ◌+◌, ◌<◌, ◌≡◌, refl, sym, ◌∙◌, String, true, false, not, ◌&&◌, ◌||◌, some, ◌==◌, ==_iff, ap,
  if◌then◌else◌, arith, Result, ok, err, ◌>>=◌, ◌>>◌, fail_if, or_fail, >>=-eq-ok,
}
use accounts.Base.Text.{eqs, eqs_iff, is_empty, trim}
use accounts.Base.Word.{add64, half_word}
use accounts.Overlay.Mesh.{Outside, policy_artifact}
use accounts.Overlay.Types.{
  PolicyArtifact, NetworkRecord, OverlayError, decode_stored_policy, generation_conflict,
  invalid_input, policy_compiler_version,
}

-- What `AdminUpdatePolicy` makes of a policy for a network that was found.
abbrev pub updated_policy : NetworkRecord → PolicyArtifact → PolicyArtifact
updated_policy network policy = record policy {
  schema_version = 1;
  compiler_version = policy_compiler_version;
  network_id = network.id;
  revision = add64 network.config_generation 1;
  default_action = if is_empty policy.default_action then "deny" else policy.default_action;
}

module _ (outside : Outside) where
  unfoldable pub admin_update_policy :
      NetworkRecord → PolicyArtifact → Result OverlayError (PolicyArtifact × NetworkRecord)
  admin_update_policy network policy =
      fail_if
        ((not (is_empty policy.network_id) && not (eqs policy.network_id network.id))
          || (not (is_empty policy.default_action)
              && not (eqs policy.default_action "deny")
              && not (eqs policy.default_action "allow")))
        invalid_input
      >> (let result = updated_policy network policy in
          ok (
            result,
            record network {
              policy_json = outside.encode_policy result;
              config_generation = add64 network.config_generation 1;
            },
          ))

  -- The stored policy under the next revision.
  abbrev pub next_policy_json : NetworkRecord → Result OverlayError String
  next_policy_json network =
      if is_empty (trim network.policy_json)
      then ok network.policy_json
      else or_fail (outside.decode_policy network.policy_json) decode_stored_policy >>= λ policy.
          fail_if
            (not (eqs policy.network_id network.id)
              || not (policy.revision == network.config_generation))
            generation_conflict
          >> ok (
              outside.encode_policy
                (record policy { revision = add64 network.config_generation 1 }))

  -- The generation of the row that the update finds may be another one than that of the record read before.
  unfoldable pub advance_network_generation : ℕ → NetworkRecord → Result OverlayError NetworkRecord
  advance_network_generation stored network = next_policy_json network >>= λ policy_json.
      fail_if (not (stored == network.config_generation)) generation_conflict
      >> ok (record network {
        policy_json = policy_json;
        config_generation = add64 network.config_generation 1;
      })

-- The update of the network in `ExchangeRegistration`: `config_generation + 1` in SQL.
abbrev pub count_registration : NetworkRecord → NetworkRecord
count_registration network = record network { config_generation = network.config_generation + 1 }

-- What is stored of a policy is not blank and is read as the policy.
pub record IsReadBack (outside : Outside) (policy : PolicyArtifact) : Type 0 where
  pub read : outside.decode_policy (outside.encode_policy policy) ≡ some policy
  pub solid : is_empty (trim (outside.encode_policy policy)) ≡ false

abbrev pub with_revision : ℕ → PolicyArtifact → PolicyArtifact
with_revision revision policy = record policy { revision = revision }

module _ (outside : Outside) (policy : PolicyArtifact) (network : NetworkRecord)
    (back : IsReadBack outside policy) (stored : network.policy_json ≡ outside.encode_policy policy)
    (own : policy.network_id ≡ network.id) where
  stored_solid : is_empty (trim network.policy_json) ≡ false
  stored_solid = ap (λ t. is_empty (trim t)) stored ∙ back.solid

  stored_read : outside.decode_policy network.policy_json ≡ some policy
  stored_read = ap outside.decode_policy stored ∙ back.read

  stored_own : eqs policy.network_id network.id ≡ true
  stored_own = (eqs_iff policy.network_id network.id).1 own

  current-policy_artifact :
      policy.revision ≡ network.config_generation → policy_artifact outside network ≡ ok policy
  unfolding policy_artifact
  current-policy_artifact current =
      let same = (==_iff policy.revision network.config_generation).1 current in
      rw (stored_solid, stored_read, stored_own, same) refl

  stale-policy_artifact :
      (policy.revision == network.config_generation) ≡ false
      → policy_artifact outside network ≡ err generation_conflict
  unfolding policy_artifact
  stale-policy_artifact stale = rw (stored_solid, stored_read, stored_own, stale) refl

  advance_network_generation-encodes :
      policy.revision ≡ network.config_generation
      → advance_network_generation outside network.config_generation network
        ≡ ok (record network {
          policy_json =
              outside.encode_policy (with_revision (add64 network.config_generation 1) policy);
          config_generation = add64 network.config_generation 1;
        })
  unfolding advance_network_generation
  advance_network_generation-encodes current =
      let same = (==_iff policy.revision network.config_generation).1 current in
      let row = (==_iff network.config_generation network.config_generation).1 refl in
      rw (stored_solid, stored_read, stored_own, same, row) refl

-- The policy that AdminUpdatePolicy returns is the one that is read of the network it leaves, where this policy and the one under the
-- next revision are stored in a form that is read back and the generation is below 2^63 - 2. A new generation by advanceNetworkGeneration keeps it readable under the next revision. After ExchangeRegistration
-- has counted the generation up, it is refused as a conflict instead.
pub admin_update_policy-read :
    (outside : Outside) (network updated : NetworkRecord) (policy result : PolicyArtifact)
    → network.config_generation + 2 < half_word
    → admin_update_policy outside network policy ≡ ok (result, updated)
    → IsReadBack outside result
    → IsReadBack outside (with_revision (network.config_generation + 2) result)
    → (policy_artifact outside updated ≡ ok result)
      × ((advanced : NetworkRecord) × (advance_network_generation outside updated.config_generation
              updated
            ≡ ok advanced)
          × (policy_artifact outside advanced
              ≡ ok (with_revision (network.config_generation + 2) result)))
      × (policy_artifact outside (count_registration updated) ≡ err generation_conflict)
unfolding admin_update_policy
admin_update_policy-read outside network updated policy result small success back next_back =
    let (checked, valid, is) =
      >>=-eq-ok
        (fail_if
          ((not (is_empty policy.network_id) && not (eqs policy.network_id network.id))
            || (not (is_empty policy.default_action)
                && not (eqs policy.default_action "deny")
                && not (eqs policy.default_action "allow")))
          invalid_input)
        _ success in
    let is_result : result ≡ updated_policy network policy = cc in
    let is_updated : updated ≡ record network {
      policy_json = outside.encode_policy (updated_policy network policy);
      config_generation = add64 network.config_generation 1;
    } =
      cc in
    let stored : updated.policy_json ≡ outside.encode_policy result =
      ap (λ (n : NetworkRecord). n.policy_json) is_updated
      ∙ sym (ap outside.encode_policy is_result) in
    let own : result.network_id ≡ updated.id =
      ap (λ (p : PolicyArtifact). p.network_id) is_result
      ∙ sym (ap (λ (n : NetworkRecord). n.id) is_updated) in
    let generation = ap (λ (n : NetworkRecord). n.config_generation) is_updated in
    let current : result.revision ≡ updated.config_generation =
      ap (λ (p : PolicyArtifact). p.revision) is_result ∙ sym generation in
    let next : add64 updated.config_generation 1 ≡ network.config_generation + 2 = ground arith in
    let counted : (result.revision == updated.config_generation + 1) ≡ false = ground arith in
    let encoded =
      advance_network_generation-encodes outside result updated back stored own current in
    (
      current-policy_artifact outside result updated back stored own current,
      (
        _,
        encoded,
        rw next (
            current-policy_artifact outside (with_revision (network.config_generation + 2) result)
              (record updated {
                policy_json =
                    outside.encode_policy (with_revision (network.config_generation + 2) result);
                config_generation = network.config_generation + 2;
              })
              next_back refl own refl),
      ),
      stale-policy_artifact outside result (count_registration updated) back stored own counted,
    )
