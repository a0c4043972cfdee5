-- ===== src/Config/Wellformed.antt =====
-- What `validate` of src/config.rs accepts, in its own words.
use open_proxy.Common.{
  ℕ, ◌≤◌, ◌<◌, String, ◌≡◌, ◌⊎◌, true, Option, none, some, List, ◌∷◌, ◌++◌, map, nat_eq, string_eq,
  is_some, length, All, Any,
}
use open_proxy.Common.Count.{count}
use open_proxy.Config.Types.{NimKey, UpstreamEndpoint, ClientKey, Limits, User, StoredConfig}
use open_proxy.Config.Text.{is_nonempty, label_ok, valid_model_id}
use open_proxy.Config.Chars.{trim}
use open_proxy.Config.Views.{primary_upstream, is_superuser, superuser_of, user_of}
use open_proxy.Config.Urls.{check_base_url}
use open_proxy.Config.Verdict.{Passes, Distinct, ◌and◌}
use open_proxy.Config.Validate.{is_percent, later_keys, is_digest}

-- Requests wait longer than a heartbeat takes, and nothing is bounded by zero.
abbrev pub Bounded : Limits → Type 0
Bounded l =
    (0 < l.heartbeat_secs)
    and (l.heartbeat_secs < l.max_wait_secs)
    and (0 < l.request_timeout_secs)
    and (0 < l.max_inflight)

-- The default window is within what the history keeps, all of it where `days` is 0.
abbrev pub Windowed : StoredConfig → Type 0
Windowed sc =
    (0 < sc.dashboard.default_window_days)
    and ((sc.history.days ≡ 0) ⊎ (sc.dashboard.default_window_days ≤ sc.history.days))
    and (is_percent sc.dashboard.slo_target_percent ≡ true)

abbrev pub Models : List String → Type 0
Models ms = All (λ m. valid_model_id m ≡ true) ms and Distinct ms

abbrev pub Group : UpstreamEndpoint → Type 0
Group ep = (label_ok ep.name 64 ≡ true) and Passes (check_base_url ep.base_url) and Models ep.models

-- The names of the groups differ from each other and from the primary group's.
abbrev pub Groups : List UpstreamEndpoint → Type 0
Groups eps = All Group eps and Distinct (primary_upstream ∷ map (λ ep. ep.name) eps)

abbrev pub Preference : Option String → Type 0
Preference none = Unit
Preference (some locale) = locale ≡ "en-US"

abbrev pub Account : User → Type 0
Account u =
    (label_ok u.username 32 ≡ true) and (is_nonempty u.password_hash ≡ true) and Preference u.locale

abbrev pub Accounts : List User → Type 0
Accounts us =
    (All Account us and Distinct (map (λ u. u.username) us))
    and (count (λ u. is_superuser u.role) us ≤ 1)

abbrev pub Key : NimKey → Type 0
Key k = (is_nonempty (trim k.key) ≡ true) and (1 ≤ k.rpm) and (k.rpm ≤ 10000)

abbrev pub Client : ClientKey → Type 0
Client c = (label_ok c.name 64 ≡ true) and (is_digest c.secret_sha256 ≡ true)

abbrev pub Pinned : String × ℕ → Type 0
Pinned o = (is_nonempty (trim o.0) ≡ true) and (1 ≤ o.1) and (o.1 ≤ 10000)

abbrev pub Known : StoredConfig → String → Type 0
Known sc owner = is_some (user_of sc owner) ≡ true

abbrev pub Floor : String → NimKey → Type 0
Floor su k = (k.enabled ≡ true) and (k.owner ≡ su)

-- Once there is a superuser, every key belongs to a user, and an enabled key of an enabled group
-- belongs to the superuser.
abbrev pub Owned : StoredConfig → Option User → Type 0
Owned sc none = Unit
Owned sc (some su) =
    All (λ k. Known sc k.owner) sc.upstream.nim_keys
    and All (λ ep. All (λ k. Known sc k.owner) ep.keys) sc.upstreams
    and All (λ c. Known sc c.owner) sc.client_auth.keys
    and (((sc.upstream.enabled ≡ true) and Any (Floor su.username) sc.upstream.nim_keys)
        ⊎ Any (λ ep. (ep.enabled ≡ true) and Any (Floor su.username) ep.keys) sc.upstreams)

abbrev pub WellFormed : StoredConfig → Type 0
WellFormed sc =
    (sc.version ≡ 1)
    and (sc.default_locale ≡ "en-US")
    and Bounded sc.limits
    and Windowed sc
    and Passes (check_base_url sc.upstream.base_url)
    and Models sc.upstream.models
    and Groups sc.upstreams
    and ((length sc.disabled_models ≤ 256) and Models sc.disabled_models)
    and Accounts sc.users
    and (All Key (sc.upstream.nim_keys ++ later_keys sc.upstreams)
        and Distinct (map (λ k. k.key) (sc.upstream.nim_keys ++ later_keys sc.upstreams)))
    and (All Client sc.client_auth.keys and Distinct (map (λ c. c.name) sc.client_auth.keys))
    and All Pinned sc.governor.overrides
    and Owned sc (superuser_of sc)
