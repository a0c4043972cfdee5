-- ===== src/Examples/Requests.antt =====
-- The theorems on src/config.rs, src/lib.rs, src/proxy.rs and src/auth.rs at concrete inputs.
use open_proxy.Common.{
  ℕ, ◌+◌, ◌≤◌, max, String, ◌≡◌, ◌⊎◌, ◌↔◌, true, false, none, some, List, [], ◌∷◌, All, length,
  contains, string_eq, nat_eq, arith,
}
use open_proxy.Config.Types.{NimKey, UpstreamEndpoint, Mode, StoredConfig}
use open_proxy.Config.Views.{pool_specs, endpoints, runtime}
use open_proxy.Config.Indexes.{Tagged, pool_specs-Tagged}
use open_proxy.Config.Routing.{route_model, MayServe, route_model_lem}
use open_proxy.Proxy.Labels.{IsLabel, sanitize_label, sanitize_label-IsLabel}
use open_proxy.Proxy.Cardinality.{label_all, Known, label_all-Bounded}
use open_proxy.Auth.{Throttle, throttle_max_failures}
use open_proxy.Auth.Admission.{admitted, admitted-InWindow}

abbrev key_of : String → NimKey
key_of k = record { key = k; owner = "root"; enabled = true; rpm = 40 }

abbrev extra : UpstreamEndpoint
extra = record {
  name = "local";
  base_url = "http://10.0.0.2:8000/";
  enabled = true;
  keys = key_of "k1" ∷ [];
  models = "meta/llama" ∷ [];
  supports_stream_options = false;
}

abbrev stored : StoredConfig
stored = record {
  version = 1;
  default_locale = "en";
  upstream = record {
    base_url = "https://integrate.api.nvidia.com";
    nim_keys = key_of "k0" ∷ [];
    enabled = true;
    models = [];
    supports_stream_options = true;
  };
  upstreams = extra ∷ [];
  disabled_models = "old" ∷ [];
  client_auth = record { mode = Mode.keyed; keys = [] };
  limits = record {
    heartbeat_secs = 10;
    max_inflight = 512;
    max_wait_secs = 900;
    models_ttl_secs = 600;
    request_timeout_secs = 300;
    stream_idle_secs = 300;
    strict_passthrough = false;
  };
  history = record { days = 30 };
  dashboard = record { default_window_days = 30; slo_target_percent = 0x4058C00000000000 };
  governor = record { enabled = true; overrides = [] };
  users = [];
}

route_model_lem_example :
    ((contains (runtime stored).disabled_models "meta/llama" ≡ true)
      × (route_model (runtime stored) "meta/llama" ≡ none))
    ⊎ ((contains (runtime stored).disabled_models "meta/llama" ≡ false)
        × (js : List ℕ) × (route_model (runtime stored) "meta/llama" ≡ some js)
        × ((j : ℕ) → (contains js j ≡ true) ↔ MayServe "meta/llama" (runtime stored).endpoints j))
route_model_lem_example = route_model_lem (runtime stored) "meta/llama"

pool_specs-Tagged_example : All (Tagged (endpoints stored)) (pool_specs stored)
pool_specs-Tagged_example = pool_specs-Tagged stored

sanitize_label-IsLabel_example : IsLabel (sanitize_label "a b")
sanitize_label-IsLabel_example = sanitize_label-IsLabel "a b"

label_all-Bounded_example :
    (length (label_all [] ("a" ∷ "b" ∷ "a" ∷ []) 1).0 ≤ max (length {A = String} []) 1)
    × All
        (Known (label_all [] ("a" ∷ "b" ∷ "a" ∷ []) 1).0)
        (label_all [] ("a" ∷ "b" ∷ "a" ∷ []) 1).1
label_all-Bounded_example = label_all-Bounded [] ("a" ∷ "b" ∷ "a" ∷ []) 1

abbrev ten_failures : Throttle
ten_failures = record { window_start = 100; failures = 10 }

admitted-InWindow_example : admitted ten_failures (120 ∷ 130 ∷ []) + 10 ≤ throttle_max_failures + 1
admitted-InWindow_example =
    admitted-InWindow ten_failures (120 ∷ 130 ∷ []) (omega arith) (omega arith, (omega arith, tt))
