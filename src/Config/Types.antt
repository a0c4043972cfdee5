-- ===== src/Config/Types.antt =====
-- src/config.rs and src/lib.rs: the stored configuration and the runtime's snapshot of it.
use open_proxy.Common.{ℕ, String, Bool, Option, List}

pub record NimKey : Type 0 where
  pub key : String
  pub owner : String
  pub enabled : Bool
  pub rpm : ℕ

pub record Upstream : Type 0 where
  pub base_url : String
  pub nim_keys : List NimKey
  pub enabled : Bool
  pub models : List String
  pub supports_stream_options : Bool

pub record UpstreamEndpoint : Type 0 where
  pub name : String
  pub base_url : String
  pub enabled : Bool
  pub keys : List NimKey
  pub models : List String
  pub supports_stream_options : Bool

pub record EndpointView : Type 0 where
  pub name : String
  pub base_url : String
  pub enabled : Bool
  pub models : List String
  pub supports_stream_options : Bool

pub data Mode : Type 0 where
  «open» keyed : Mode

pub record ClientKey : Type 0 where
  pub name : String
  pub secret_sha256 : String
  pub last4 : String
  pub owner : String

pub record ClientAuth : Type 0 where
  pub mode : Mode
  pub keys : List ClientKey

pub record Limits : Type 0 where
  pub heartbeat_secs : ℕ
  pub max_inflight : ℕ
  pub max_wait_secs : ℕ
  pub models_ttl_secs : ℕ
  pub request_timeout_secs : ℕ
  pub stream_idle_secs : ℕ
  pub strict_passthrough : Bool

pub record GovernorCfg : Type 0 where
  pub enabled : Bool
  pub overrides : List (String × ℕ)

pub data Role : Type 0 where
  superuser admin user : Role

pub record User : Type 0 where
  pub username : String
  pub password_hash : String
  pub role : Role
  pub locale : Option String

pub record HistoryCfg : Type 0 where
  pub days : ℕ

-- `slo_target_percent`, an `f64`, is given by its bits.
pub record DashboardCfg : Type 0 where
  pub default_window_days : ℕ
  pub slo_target_percent : ℕ

pub record StoredConfig : Type 0 where
  pub version : ℕ
  pub default_locale : String
  pub upstream : Upstream
  pub upstreams : List UpstreamEndpoint
  pub disabled_models : List String
  pub client_auth : ClientAuth
  pub limits : Limits
  pub history : HistoryCfg
  pub dashboard : DashboardCfg
  pub governor : GovernorCfg
  pub users : List User

-- `EndpointRuntime` of src/lib.rs
pub record EndpointRuntime : Type 0 where
  pub name : String
  pub base_url : String
  pub enabled : Bool
  pub models : List String

pub record GovernorSettings : Type 0 where
  pub enabled : Bool
  pub overrides : List (String × ℕ)

-- `Config` of src/lib.rs; a duration is in nanoseconds.
pub record Config : Type 0 where
  pub base_url : String
  pub endpoints : List EndpointRuntime
  pub disabled_models : List String
  pub max_wait : ℕ
  pub heartbeat : ℕ
  pub models_ttl : ℕ
  pub stream_idle : ℕ
  pub request_timeout : ℕ
  pub strict_passthrough : Bool
  pub clients : Option (List (String × String))
  pub max_inflight : ℕ
  pub governor : GovernorSettings
