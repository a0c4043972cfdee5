-- ===== src/Settings/Sections.antt =====
-- The sections of src/settings.rs that only an administrator writes: the upstream, the endpoint
-- groups, the models, the limits, the server form, the history and the governor.
use open_proxy.Common.{
  ℕ, String, Bool, true, not, Option, none, some, List, [], ◌∷◌, ◌++◌, if◌then◌else◌, any, insert,
  ◌==◌, string_eq, Result, err, ok,
}
use open_proxy.Config.Types.{Limits, UpstreamEndpoint, StoredConfig}
use open_proxy.Config.Chars.{trim}
use open_proxy.Config.Urls.{normalize_base_url}
use open_proxy.Config.Views.{primary_upstream}
use open_proxy.Settings.State.{Server, Response, bad_request, Flush, settle, admin_only}
use open_proxy.Settings.Edits.{update_first, remove_first, retain, unwrap_or, if_given}

unfoldable pub with_base_url : String → StoredConfig → StoredConfig
with_base_url url sc = record sc { upstream = record sc.upstream { base_url = url } }

-- `upstream`
unfoldable pub upstream_edit : StoredConfig → String → String → Result Response StoredConfig
upstream_edit sc username url =
    admin_only sc username (ok (with_base_url (normalize_base_url (trim url)) sc))

unfoldable pub upstream : Bool → ℕ → Server → String → String → Response × Server
upstream saved now s username url =
    settle saved now Response.okay Flush.upstream_caches s (upstream_edit s.store username url)

pub record AddUpstream : Type 0 where
  pub name : String
  pub base_url : String
  pub models : Option (List String)
  pub supports_stream_options : Bool

pub record SetUpstream : Type 0 where
  pub name : String
  pub enabled : Option Bool
  pub base_url : Option String
  pub models : Option (List String)
  pub supports_stream_options : Option Bool

pub record UpstreamsReq : Type 0 where
  pub add : Option AddUpstream
  pub remove : Option String
  pub set : Option SetUpstream

unfoldable pub new_group : AddUpstream → UpstreamEndpoint
new_group add = record {
  name = trim add.name;
  base_url = normalize_base_url (trim add.base_url);
  enabled = true;
  keys = [];
  models = unwrap_or add.models [];
  supports_stream_options = add.supports_stream_options;
}

unfoldable pub set_group : SetUpstream → UpstreamEndpoint → UpstreamEndpoint
set_group set ep0 =
    let ep1 = if_given set.enabled (λ e ep. record ep { enabled = e }) ep0 in
    let ep2 =
      if_given set.base_url (λ b ep. record ep { base_url = normalize_base_url (trim b) }) ep1 in
    let ep3 = if_given set.models (λ m ep. record ep { models = m }) ep2 in
    if_given set.supports_stream_options (λ o ep. record ep { supports_stream_options = o }) ep3

unfoldable pub set_primary : SetUpstream → StoredConfig → StoredConfig
set_primary set sc =
    let up0 = sc.upstream in
    let up1 = if_given set.enabled (λ e up. record up { enabled = e }) up0 in
    let up2 =
      if_given set.base_url (λ b up. record up { base_url = normalize_base_url (trim b) }) up1 in
    let up3 = if_given set.models (λ m up. record up { models = m }) up2 in
    record sc {
      upstream =
          if_given set.supports_stream_options (λ o up. record up { supports_stream_options = o })
            up3;
    }

unfoldable pub remove_group : StoredConfig → String → Result Response StoredConfig
remove_group sc name =
    if name == primary_upstream
    then err bad_request
    else if any (λ ep. ep.name == name) sc.upstreams
    then ok (record sc { upstreams = remove_first (λ ep. ep.name == name) sc.upstreams })
    else err bad_request

unfoldable pub set_named : StoredConfig → SetUpstream → Result Response StoredConfig
set_named sc set =
    if set.name == primary_upstream
    then ok (set_primary set sc)
    else if any (λ ep. ep.name == set.name) sc.upstreams
    then ok (record sc {
      upstreams = update_first (λ ep. ep.name == set.name) (set_group set) sc.upstreams;
    })
    else err bad_request

unfoldable pub upstreams_action :
    StoredConfig
    → Option AddUpstream
    → Option String
    → Option SetUpstream
    → Result Response StoredConfig
upstreams_action sc (some add) none none =
    ok (record sc { upstreams = sc.upstreams ++ new_group add ∷ [] })
upstreams_action sc none (some name) none = remove_group sc name
upstreams_action sc none none (some set) = set_named sc set
upstreams_action sc none none none = err bad_request
upstreams_action sc none (some name) (some set) = err bad_request
upstreams_action sc (some add) none (some set) = err bad_request
upstreams_action sc (some add) (some name) set = err bad_request

-- `upstreams`
unfoldable pub upstreams_edit : StoredConfig → String → UpstreamsReq → Result Response StoredConfig
unfolding upstreams_action
upstreams_edit sc username req =
    admin_only sc username (upstreams_action sc req.add req.remove req.set)

unfoldable pub upstreams : Bool → ℕ → Server → String → UpstreamsReq → Response × Server
upstreams saved now s username req =
    settle saved now Response.okay Flush.upstream_caches s (upstreams_edit s.store username req)

-- `models_cfg`
unfoldable pub models_edit : StoredConfig → String → List String → Result Response StoredConfig
models_edit sc username disabled =
    admin_only sc username (ok (record sc { disabled_models = disabled }))

unfoldable pub models_cfg : Bool → ℕ → Server → String → List String → Response × Server
models_cfg saved now s username disabled =
    settle saved now Response.okay Flush.catalog_only s (models_edit s.store username disabled)

-- `LimitsReq` has the fields of `Limits`; `replace_limits` copies them.
unfoldable pub replace_limits : StoredConfig → Limits → StoredConfig
replace_limits sc req = record sc { limits = req }

unfoldable pub limits_edit : StoredConfig → String → Limits → Result Response StoredConfig
limits_edit sc username req = admin_only sc username (ok (replace_limits sc req))

unfoldable pub limits : Bool → ℕ → Server → String → Limits → Response × Server
limits saved now s username req =
    settle saved now Response.okay Flush.nothing s (limits_edit s.store username req)

pub record ServerReq : Type 0 where
  pub base_url : String
  pub limits : Limits

unfoldable pub server_edit : StoredConfig → String → ServerReq → Result Response StoredConfig
server_edit sc username req =
    let url = normalize_base_url (trim req.base_url) in
    admin_only sc username (ok (replace_limits (with_base_url url sc) req.limits))

-- The caches belong to the upstream, and go only when its URL changes.
unfoldable pub server_flush : StoredConfig → ServerReq → Flush
server_flush sc req =
    if sc.upstream.base_url == normalize_base_url (trim req.base_url)
    then Flush.nothing
    else Flush.upstream_caches

-- `server`
unfoldable pub server : Bool → ℕ → Server → String → ServerReq → Response × Server
server saved now s username req =
    settle saved now Response.okay (server_flush s.store req) s (server_edit s.store username req)

pub record HistoryReq : Type 0 where
  pub days : ℕ
  pub default_window_days : ℕ
  pub slo_target_percent : ℕ

unfoldable pub history_edit : StoredConfig → String → HistoryReq → Result Response StoredConfig
history_edit sc username req = admin_only sc username (
    ok (record sc {
      history = record sc.history { days = req.days };
      dashboard = record {
        default_window_days = req.default_window_days;
        slo_target_percent = req.slo_target_percent;
      };
    }))

unfoldable pub history : Bool → ℕ → Server → String → HistoryReq → Response × Server
history saved now s username req =
    settle saved now Response.okay Flush.nothing s (history_edit s.store username req)

-- `GovernorOverride` is the pair of a model and its cap.
pub record GovernorReq : Type 0 where
  pub enabled : Option Bool
  pub set_override : Option (String × ℕ)
  pub remove_override : Option String

unfoldable pub set_governor : StoredConfig → GovernorReq → StoredConfig
set_governor sc req =
    let g0 = sc.governor in
    let g1 = if_given req.enabled (λ e g. record g { enabled = e }) g0 in
    let g2 =
      if_given req.set_override (λ o g. record g { overrides = insert o.0 o.1 g.overrides }) g1 in
    record sc {
      governor =
          if_given req.remove_override
            (λ m g. record g { overrides = retain (λ o. not (o.0 == m)) g.overrides }) g2;
    }

unfoldable pub governor_edit : StoredConfig → String → GovernorReq → Result Response StoredConfig
governor_edit sc username req = admin_only sc username (ok (set_governor sc req))

unfoldable pub governor_cfg : Bool → ℕ → Server → String → GovernorReq → Response × Server
governor_cfg saved now s username req =
    settle saved now Response.okay Flush.nothing s (governor_edit s.store username req)
