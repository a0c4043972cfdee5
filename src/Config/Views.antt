-- ===== src/Config/Views.antt =====
-- `impl StoredConfig` of src/config.rs: the views that the pool and the router take.
use open_proxy.Common.{
  ℕ, ◌+◌, String, ◌==◌, string_eq, Bool, true, false, ◌&&◌, Option, none, some, List, [], ◌∷◌, ◌++◌,
  map, if◌then◌else◌, insert,
}
use open_proxy.Common.Clock.{from_secs}
use open_proxy.Config.Text.{trim_end_slashes}
use open_proxy.Pool.Lanes.{LaneSpec}
use open_proxy.Config.Types.{
  NimKey, Upstream, UpstreamEndpoint, EndpointView, Mode, ClientKey, Role, superuser, admin, user,
  User, StoredConfig, EndpointRuntime, Config,
}

-- `PRIMARY_UPSTREAM`
abbrev pub primary_upstream : String
primary_upstream = "nvidia"

-- `Role::is_admin`
unfoldable pub is_admin : Role → Bool
is_admin superuser = true
is_admin admin = true
is_admin user = false

abbrev pub is_superuser : Role → Bool
is_superuser superuser = true
is_superuser admin = false
is_superuser user = false

unfoldable pub find_superuser : List User → Option User
find_superuser [] = none
find_superuser (u ∷ us) = if is_superuser u.role then some u else find_superuser us

-- `StoredConfig::superuser`
unfoldable pub superuser_of : StoredConfig → Option User
unfolding find_superuser
superuser_of sc = find_superuser sc.users

unfoldable pub find_user : String → List User → Option User
find_user name [] = none
find_user name (u ∷ us) = if u.username == name then some u else find_user name us

-- `StoredConfig::user`
unfoldable pub user_of : StoredConfig → String → Option User
unfolding find_user
user_of sc name = find_user name sc.users

abbrev pub lane_spec : ℕ → String → String → Bool → Bool → NimKey → LaneSpec
lane_spec idx name url group_enabled stream_options k = record {
  key = k.key;
  rpm = k.rpm;
  enabled = k.enabled && group_enabled;
  endpoint = idx;
  base_url = trim_end_slashes url;
  upstream = name;
  supports_stream_options = stream_options;
}

unfoldable pub group_specs : ℕ → List UpstreamEndpoint → List LaneSpec
group_specs i [] = []
group_specs i (ep ∷ eps) =
    map (lane_spec i ep.name ep.base_url ep.enabled ep.supports_stream_options) ep.keys
    ++ group_specs (i + 1) eps

-- `StoredConfig::pool_specs`
unfoldable pub pool_specs : StoredConfig → List LaneSpec
pool_specs sc =
    let up = sc.upstream in
    map (lane_spec 0 primary_upstream up.base_url up.enabled up.supports_stream_options) up.nim_keys
    ++ group_specs 1 sc.upstreams

abbrev pub endpoint_view : UpstreamEndpoint → EndpointView
endpoint_view ep = record {
  name = ep.name;
  base_url = trim_end_slashes ep.base_url;
  enabled = ep.enabled;
  models = ep.models;
  supports_stream_options = ep.supports_stream_options;
}

abbrev pub primary_view : Upstream → EndpointView
primary_view up = record {
  name = primary_upstream;
  base_url = trim_end_slashes up.base_url;
  enabled = up.enabled;
  models = up.models;
  supports_stream_options = up.supports_stream_options;
}

-- `StoredConfig::endpoints`
unfoldable pub endpoints : StoredConfig → List EndpointView
endpoints sc = primary_view sc.upstream ∷ map endpoint_view sc.upstreams

-- `iter().position(|ep| ep.name == name)`, counted from `i`
unfoldable pub position : String → ℕ → List UpstreamEndpoint → Option ℕ
position name i [] = none
position name i (ep ∷ eps) = if ep.name == name then some i else position name (i + 1) eps

-- `StoredConfig::endpoint_index`
unfoldable pub endpoint_index : StoredConfig → String → Option ℕ
endpoint_index sc name = if name == primary_upstream then some 0 else position name 1 sc.upstreams

-- `collect` into a `HashMap`: a later key replaces an earlier one.
collect_clients : List ClientKey → List (String × String) → List (String × String)
collect_clients [] m = m
collect_clients (k ∷ ks) m = collect_clients ks (insert k.secret_sha256 k.name m)

clients_of : Mode → List ClientKey → Option (List (String × String))
unfolding collect_clients
clients_of Mode.«open» ks = none
clients_of Mode.keyed ks = some (collect_clients ks [])

abbrev pub endpoint_runtime : EndpointView → EndpointRuntime
endpoint_runtime e = record {
  name = e.name;
  base_url = e.base_url;
  enabled = e.enabled;
  models = e.models;
}

-- `StoredConfig::runtime`
unfoldable pub runtime : StoredConfig → Config
unfolding clients_of
runtime sc = record {
  base_url = trim_end_slashes sc.upstream.base_url;
  endpoints = map endpoint_runtime (endpoints sc);
  disabled_models = sc.disabled_models;
  max_wait = from_secs sc.limits.max_wait_secs;
  heartbeat = from_secs sc.limits.heartbeat_secs;
  models_ttl = from_secs sc.limits.models_ttl_secs;
  stream_idle = from_secs sc.limits.stream_idle_secs;
  request_timeout = from_secs sc.limits.request_timeout_secs;
  strict_passthrough = sc.limits.strict_passthrough;
  clients = clients_of sc.client_auth.mode sc.client_auth.keys;
  max_inflight = sc.limits.max_inflight;
  governor = record { enabled = sc.governor.enabled; overrides = sc.governor.overrides };
}
