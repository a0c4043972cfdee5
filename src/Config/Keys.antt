-- ===== src/Config/Keys.antt =====
-- The key lists of src/config.rs per endpoint group, as the values behind the references that
-- `key_groups_mut` and `group_keys_mut` hand out.
use open_proxy.Common.{
  String, ◌≡◌, refl, Option, none, some, List, [], ◌∷◌, map, if◌then◌else◌, lookup, ◌==◌, string_eq,
  arith,
}
use open_proxy.Config.Types.{NimKey, UpstreamEndpoint, StoredConfig}
use open_proxy.Config.Views.{primary_upstream}

-- `StoredConfig::key_groups_mut`
unfoldable pub key_groups : StoredConfig → List (String × List NimKey)
key_groups sc =
    (primary_upstream, sc.upstream.nim_keys) ∷ map (λ ep. (ep.name, ep.keys)) sc.upstreams

-- `iter_mut().find(|ep| ep.name == name).map(|ep| &mut ep.keys)`
unfoldable pub keys_named : String → List UpstreamEndpoint → Option (List NimKey)
keys_named name [] = none
keys_named name (ep ∷ eps) = if ep.name == name then some ep.keys else keys_named name eps

-- `StoredConfig::group_keys_mut`
unfoldable pub group_keys : StoredConfig → String → Option (List NimKey)
group_keys sc name =
    if name == primary_upstream then some sc.upstream.nim_keys else keys_named name sc.upstreams

lookup-keys_named :
    (name : String) (eps : List UpstreamEndpoint)
    → lookup name (map (λ ep. (ep.name, ep.keys)) eps) ≡ keys_named name eps
unfolding keys_named lookup
lookup-keys_named name [] = refl
lookup-keys_named name (ep ∷ eps) = let rest = lookup-keys_named name eps in ground arith

-- The key list of a group by its name is that of the first of all groups that has this name.
lookup-key_groups :
    (sc : StoredConfig) (name : String) → lookup name (key_groups sc) ≡ group_keys sc name
unfolding key_groups group_keys lookup
lookup-key_groups sc name =
    let rest = lookup-keys_named name sc.upstreams in
    ground (arith, string_eq.beq_iff primary_upstream name, string_eq.beq_iff name primary_upstream)
