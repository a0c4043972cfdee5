-- ===== src/Config/Validate.antt =====
-- `validate` of src/config.rs, the rulebook that every write of the store passes.
use Prim.Native.String.{len}
use open_proxy.Common.{
  ℕ, ◌/◌, ◌%◌, ◌^◌, String, Bool, not, ◌&&◌, ◌||◌, Option, none, some, List, [], ◌∷◌, ◌++◌, ltb,
  leb, nat_beq, nat_eq, ◌==◌, string_eq, is_some, length, any, Result, err, ok,
}
use open_proxy.Common.Count.{count}
use open_proxy.Config.Types.{NimKey, UpstreamEndpoint, ClientKey, Limits, User, StoredConfig}
use open_proxy.Config.Text.{is_nonempty, label_ok, valid_model_id, within, all_chars}
use open_proxy.Config.Chars.{trim, is_hexdigit}
use open_proxy.Config.Views.{primary_upstream, is_superuser, superuser_of, user_of}
use open_proxy.Config.Locale.{LocaleError, canonical_locale, installed_locale}
use open_proxy.Config.Urls.{check_base_url}
use open_proxy.Config.Verdict.{Rejection, Verdict, require, ◌>>◌, each, each_new}

unfoldable pub installed : Result LocaleError String → Verdict
installed (err e) = err Rejection.locale_not_installed
installed (ok canonical) = ok tt

unfoldable pub stored : String → Result LocaleError String → Verdict
unfolding installed
stored locale (err e) = err Rejection.locale_malformed
stored locale (ok canonical) =
    require (canonical == locale) Rejection.locale_spelling
    >> installed (installed_locale canonical)

-- `validate_stored_locale`
unfoldable pub validate_stored_locale : String → Verdict
unfolding stored
validate_stored_locale locale = stored locale (canonical_locale locale)

-- `0.0 < x && x <= 100.0` of a finite `f64`, on its bits.
abbrev pub is_percent : ℕ → Bool
is_percent bits =
    not (nat_beq (bits / 2 ^ 52 % 2048) 2047)
    && ltb 0 bits
    && ltb bits (2 ^ 63)
    && leb bits 0x4059000000000000

unfoldable pub validate_limits : Limits → Verdict
validate_limits l =
    require (ltb 0 l.heartbeat_secs) Rejection.heartbeat_zero
    >> require (ltb l.heartbeat_secs l.max_wait_secs) Rejection.wait_too_short
    >> require (ltb 0 l.request_timeout_secs) Rejection.timeout_zero
    >> require (ltb 0 l.max_inflight) Rejection.inflight_zero

unfoldable pub validate_windows : StoredConfig → Verdict
validate_windows sc =
    let window = sc.dashboard.default_window_days in
    require (ltb 0 window) Rejection.window_zero
    >> require (nat_beq sc.history.days 0 || leb window sc.history.days) Rejection.history_too_short
    >> require (is_percent sc.dashboard.slo_target_percent) Rejection.bad_slo

-- `validate_models_list`
unfoldable pub validate_models_list : List String → Verdict
validate_models_list =
    each_new (λ m. m) Rejection.duplicate_model
      (λ m. require (valid_model_id m) Rejection.bad_model) (λ m. ok tt) []

-- `validate_disabled_models`
unfoldable pub validate_disabled_models : List String → Verdict
validate_disabled_models models =
    require (leb (length models) 256) Rejection.too_many_disabled >> validate_models_list models

unfoldable pub check_group_name : UpstreamEndpoint → Verdict
check_group_name ep =
    require (label_ok ep.name 64) Rejection.bad_upstream_name
    >> require (not (ep.name == primary_upstream)) Rejection.reserved_upstream

unfoldable pub check_group : UpstreamEndpoint → Verdict
check_group ep = check_base_url ep.base_url >> validate_models_list ep.models

unfoldable pub validate_upstreams : List UpstreamEndpoint → Verdict
validate_upstreams =
    each_new (λ ep. ep.name) Rejection.duplicate_upstream check_group_name check_group
      (primary_upstream ∷ [])

unfoldable pub preference : Option String → Verdict
preference none = ok tt
preference (some locale) = validate_stored_locale locale

unfoldable pub check_user : User → Verdict
unfolding preference
check_user u = require (is_nonempty u.password_hash) Rejection.empty_hash >> preference u.locale

unfoldable pub validate_users : List User → Verdict
validate_users users =
    each_new (λ u. u.username) Rejection.duplicate_username
      (λ u. require (label_ok u.username 32) Rejection.bad_username) check_user [] users
    >> require (leb (count (λ u. is_superuser u.role) users) 1) Rejection.two_superusers

-- Every key, group after group.
unfoldable pub later_keys : List UpstreamEndpoint → List NimKey
later_keys [] = []
later_keys (ep ∷ eps) = ep.keys ++ later_keys eps

unfoldable pub validate_keys : List NimKey → Verdict
validate_keys =
    each_new (λ k. k.key) Rejection.duplicate_key
      (λ k. require (is_nonempty (trim k.key)) Rejection.empty_key)
      (λ k. require (within 1 10000 k.rpm) Rejection.bad_rpm) []

unfoldable pub is_digest : String → Bool
is_digest s = nat_beq (len s) 64 && all_chars is_hexdigit s

unfoldable pub validate_clients : List ClientKey → Verdict
validate_clients =
    each_new (λ c. c.name) Rejection.duplicate_client
      (λ c. require (label_ok c.name 64) Rejection.bad_client_name)
      (λ c. require (is_digest c.secret_sha256) Rejection.bad_digest) []

unfoldable pub validate_overrides : List (String × ℕ) → Verdict
validate_overrides =
    each (λ o. require (is_nonempty (trim o.0) && within 1 10000 o.1) Rejection.bad_override)

abbrev pub is_floor : String → NimKey → Bool
is_floor su k = k.enabled && k.owner == su

-- The superuser owns an enabled key of an enabled group.
unfoldable pub has_floor : String → StoredConfig → Bool
has_floor su sc =
    (sc.upstream.enabled && any (is_floor su) sc.upstream.nim_keys)
    || any (λ ep. ep.enabled && any (is_floor su) ep.keys) sc.upstreams

unfoldable pub check_owner : StoredConfig → NimKey → Verdict
check_owner sc k = require (is_some (user_of sc k.owner)) Rejection.key_without_user

unfoldable pub validate_owners : StoredConfig → Option User → Verdict
validate_owners sc none = ok tt
validate_owners sc (some su) =
    each (check_owner sc) sc.upstream.nim_keys
    >> each (λ ep. each (check_owner sc) ep.keys) sc.upstreams
    >> each (λ c. require (is_some (user_of sc c.owner)) Rejection.client_without_user)
        sc.client_auth.keys
    >> require (has_floor su.username sc) Rejection.no_pool_floor

-- `validate`
unfoldable pub validate : StoredConfig → Verdict
validate sc =
    require (sc.version == 1) Rejection.wrong_version
    >> validate_stored_locale sc.default_locale
    >> validate_limits sc.limits
    >> validate_windows sc
    >> check_base_url sc.upstream.base_url
    >> validate_models_list sc.upstream.models
    >> validate_upstreams sc.upstreams
    >> validate_disabled_models sc.disabled_models
    >> validate_users sc.users
    >> validate_keys (sc.upstream.nim_keys ++ later_keys sc.upstreams)
    >> validate_clients sc.client_auth.keys
    >> validate_overrides sc.governor.overrides
    >> validate_owners sc (superuser_of sc)
