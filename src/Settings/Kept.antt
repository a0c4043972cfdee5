-- ===== src/Settings/Kept.antt =====
-- The handlers of src/settings.rs that do not write the users.
use open_proxy.Common.{
  String, Bool, ◌||◌, Option, none, some, List, any, ◌==◌, string_eq, Result, err, ok,
}
use open_proxy.Config.Types.{StoredConfig, User, NimKey, UpstreamEndpoint, Limits, Role, ClientKey}
use open_proxy.Config.Views.{primary_upstream, is_admin}
use open_proxy.Config.Locale.{LocaleError, installed_locale}
use open_proxy.Settings.State.{role_of, admin_only}
use open_proxy.Settings.Edits.{find_first}
use open_proxy.Settings.Gives.{Gives, by_if, by_step, by_role, by_admin}
use open_proxy.Settings.NimKeys.{
  AddNimKey, SetNimKey, NimKeysReq, push_key, with_keys, edit_groups, edit_primary, edit_key,
  allowed, remove_key, set_key, nim_keys_action, nim_keys_edit,
}
use open_proxy.Settings.Clients.{
  ClientsReq, with_clients, revoke, set_mode, mode_named, clients_action, clients_edit,
}
use open_proxy.Settings.Sections.{
  AddUpstream, SetUpstream, UpstreamsReq, ServerReq, HistoryReq, GovernorReq, with_base_url,
  upstream_edit, remove_group, set_named, set_primary, upstreams_action, upstreams_edit,
  models_edit, replace_limits, limits_edit, server_edit, history_edit, set_governor, governor_edit,
}
use open_proxy.Settings.Locales.{default_locale, locale_edit}

module _ (P : List User → Type 0) (sc : StoredConfig) (username : String) (h : P sc.users) where
  abbrev On : StoredConfig → Type 0
  On c = P c.users

  allowed_kept :
      (p : NimKey → Bool) (change : List NimKey → List NimKey) (role : Role)
      → Gives On (allowed username role (edit_key p change sc))
  unfolding edit_key allowed with_keys
  allowed_kept p change role =
      from (edit_groups p change sc.upstreams) (find_first p sc.upstream.nim_keys)
    where
      from :
          (later : Option (NimKey × List UpstreamEndpoint)) (found : Option NimKey)
          → Gives On (allowed username role (edit_primary p change sc later found))
      from later (some k) =
          by_if On (is_admin role || k.owner == username) _ _ (λ on. h) (λ off. tt)
      from none none = tt
      from (some (k, eps)) none =
          by_if On (is_admin role || k.owner == username) _ _ (λ on. h) (λ off. tt)

  push_kept : (group : String) (k : NimKey) → Gives On (push_key group k sc)
  unfolding push_key with_keys
  push_kept group k =
      by_if On (group == primary_upstream) _ _ (λ on. h)
        (λ off. by_if On (any (λ ep. ep.name == group) sc.upstreams) _ _ (λ on. h) (λ none_so. tt))

  pub nim_keys_kept :
      (sha256_hex : String → String) (req : NimKeysReq)
      → Gives On (nim_keys_edit sha256_hex sc username req)
  unfolding nim_keys_edit remove_key set_key
  nim_keys_kept sha256_hex req =
      by_role On (role_of sc username) _ (λ role known. from role req.add req.remove req.set)
    where
      from :
          (role : Role) (add : Option AddNimKey) (remove : Option String) (set : Option SetNimKey)
          → Gives On (nim_keys_action sha256_hex sc username role add remove set)
      from role (some add) none none = push_kept _ _
      from role none (some fp) none = allowed_kept _ _ role
      from role none none (some set) = allowed_kept _ _ role
      from role none none none = tt
      from role none (some fp) (some set) = tt
      from role (some add) none (some set) = tt
      from role (some add) (some fp) set = tt

  revoke_kept :
      (role : Role) (name : String) (o : Option ClientKey)
      → Gives On (revoke sc username role name o)
  unfolding revoke with_clients
  revoke_kept role name none = tt
  revoke_kept role name (some c) =
      by_if On (is_admin role || c.owner == username) _ _ (λ on. h) (λ off. tt)

  pub clients_kept :
      (sha256_hex : String → String) (req : ClientsReq) (secret : String)
      → Gives On (clients_edit sha256_hex sc username req secret)
  unfolding clients_edit set_mode with_clients clients_action
  clients_kept sha256_hex req secret =
      by_role On (role_of sc username) _ (λ role known. from role req.add req.remove req.mode)
    where
      from :
          (role : Role) (add remove mode : Option String)
          → Gives On (clients_action sha256_hex sc username role secret add remove mode)
      from role (some name) none none = h
      from role none (some name) none = revoke_kept role name _
      from role none none (some mode) =
          by_if On (is_admin role) _ _ (λ on. by_step On (mode_named mode) _ (λ m. h)) (λ off. tt)
      from role none none none = tt
      from role none (some name) (some mode) = tt
      from role (some name) none (some mode) = tt
      from role (some name) (some old) mode = tt

  pub upstream_kept : (url : String) → Gives On (upstream_edit sc username url)
  unfolding upstream_edit with_base_url
  upstream_kept url = by_admin On sc username _ (λ r known on. h)

  pub upstreams_kept : (req : UpstreamsReq) → Gives On (upstreams_edit sc username req)
  unfolding upstreams_edit upstreams_action remove_group set_named set_primary
  upstreams_kept req = by_admin On sc username _ (λ r known on. from req.add req.remove req.set)
    where
      from :
          (add : Option AddUpstream) (remove : Option String) (set : Option SetUpstream)
          → Gives On (upstreams_action sc add remove set)
      from (some add) none none = h
      from none (some name) none =
          by_if On (name == primary_upstream) _ _ (λ on. tt)
            (λ off.
              by_if On (any (λ ep. ep.name == name) sc.upstreams) _ _ (λ on. h) (λ none_so. tt))
      from none none (some set) =
          by_if On (set.name == primary_upstream) _ _ (λ on. h)
            (λ off.
              by_if On (any (λ ep. ep.name == set.name) sc.upstreams) _ _ (λ on. h) (λ none_so. tt))
      from none none none = tt
      from none (some name) (some set) = tt
      from (some add) none (some set) = tt
      from (some add) (some name) set = tt

  pub models_kept : (disabled : List String) → Gives On (models_edit sc username disabled)
  unfolding models_edit
  models_kept disabled = by_admin On sc username _ (λ r known on. h)

  pub limits_kept : (req : Limits) → Gives On (limits_edit sc username req)
  unfolding limits_edit replace_limits
  limits_kept req = by_admin On sc username _ (λ r known on. h)

  pub server_kept : (req : ServerReq) → Gives On (server_edit sc username req)
  unfolding server_edit replace_limits with_base_url
  server_kept req = by_admin On sc username _ (λ r known on. h)

  pub history_kept : (req : HistoryReq) → Gives On (history_edit sc username req)
  unfolding history_edit
  history_kept req = by_admin On sc username _ (λ r known on. h)

  pub governor_kept : (req : GovernorReq) → Gives On (governor_edit sc username req)
  unfolding governor_edit set_governor
  governor_kept req = by_admin On sc username _ (λ r known on. h)

  pub locale_kept :
      (earlier : StoredConfig) (l : String) → Gives On (locale_edit earlier sc username l)
  unfolding locale_edit default_locale
  locale_kept earlier l =
      by_step On (admin_only earlier username (ok earlier)) _ (λ checked. from (installed_locale l))
    where
      from : (r : Result LocaleError String) → Gives On (default_locale sc username r)
      from (err e) = tt
      from (ok canonical) = by_admin On sc username _ (λ r known on. h)
