-- ===== src/Settings/NimKeys.antt =====
-- `nim_keys` of src/settings.rs: a user adds keys and manages its own, an administrator all.
-- `sha256_hex` stands for the digest, of which nothing is assumed.
use Prim.Native.String.{slice}
use open_proxy.Common.{
  ℕ, String, Bool, true, ◌||◌, Option, none, some, List, [], ◌∷◌, ◌++◌, if◌then◌else◌, any, ◌==◌,
  string_eq, Result, err, ok,
}
use open_proxy.Config.Types.{NimKey, UpstreamEndpoint, StoredConfig, Role}
use open_proxy.Config.Chars.{trim}
use open_proxy.Config.Views.{primary_upstream, is_admin}
use open_proxy.Settings.State.{
  Server, Response, bad_request, forbidden, Flush, settle, role_of, with_role,
}
use open_proxy.Settings.Edits.{find_first, update_first, remove_first, unwrap_or, if_given}

pub record AddNimKey : Type 0 where
  pub key : String
  pub rpm : Option ℕ
  pub upstream : Option String

pub record SetNimKey : Type 0 where
  pub fingerprint : String
  pub enabled : Option Bool
  pub rpm : Option ℕ

pub record NimKeysReq : Type 0 where
  pub add : Option AddNimKey
  pub remove : Option String
  pub set : Option SetNimKey

unfoldable pub with_keys : List NimKey → StoredConfig → StoredConfig
with_keys ks sc = record sc { upstream = record sc.upstream { nim_keys = ks } }

-- A push on what `group_keys_mut` hands out.
unfoldable pub push_key : String → NimKey → StoredConfig → Result Response StoredConfig
unfolding with_keys
push_key group k sc =
    if group == primary_upstream
    then ok (with_keys (sc.upstream.nim_keys ++ k ∷ []) sc)
    else if any (λ ep. ep.name == group) sc.upstreams
    then ok (record sc {
      upstreams =
          update_first (λ ep. ep.name == group) (λ ep. record ep { keys = ep.keys ++ k ∷ [] })
            sc.upstreams;
    })
    else err bad_request

unfoldable pub new_key : String → AddNimKey → NimKey
new_key username add = record {
  key = trim add.key;
  owner = username;
  enabled = true;
  rpm = unwrap_or add.rpm 40;
}

-- The first key over all groups that passes a test, and the store with `change` made to its group.
module _ (p : NimKey → Bool) (change : List NimKey → List NimKey) where
  unfoldable pub edit_group :
      UpstreamEndpoint
      → List UpstreamEndpoint
      → Option (NimKey × List UpstreamEndpoint)
      → Option NimKey
      → Option (NimKey × List UpstreamEndpoint)
  edit_group ep eps later (some k) = some (k, record ep { keys = change ep.keys } ∷ eps)
  edit_group ep eps none none = none
  edit_group ep eps (some (k, rest)) none = some (k, ep ∷ rest)

  unfoldable pub edit_groups : List UpstreamEndpoint → Option (NimKey × List UpstreamEndpoint)
  unfolding edit_group
  edit_groups [] = none
  edit_groups (ep ∷ eps) = edit_group ep eps (edit_groups eps) (find_first p ep.keys)

  unfoldable pub edit_primary :
      StoredConfig
      → Option (NimKey × List UpstreamEndpoint)
      → Option NimKey
      → Option (NimKey × StoredConfig)
  edit_primary sc later (some k) = some (k, with_keys (change sc.upstream.nim_keys) sc)
  edit_primary sc none none = none
  edit_primary sc (some (k, eps)) none = some (k, record sc { upstreams = eps })

  unfoldable pub edit_key : StoredConfig → Option (NimKey × StoredConfig)
  unfolding edit_primary
  edit_key sc = edit_primary sc (edit_groups sc.upstreams) (find_first p sc.upstream.nim_keys)

-- A found key may be changed by its owner and by an administrator.
unfoldable pub allowed :
    String → Role → Option (NimKey × StoredConfig) → Result Response StoredConfig
allowed username role none = err bad_request
allowed username role (some (k, cand)) =
    if is_admin role || k.owner == username then ok cand else err forbidden

unfoldable pub set_fields : SetNimKey → NimKey → NimKey
set_fields set k =
    if_given set.rpm (λ n l. record l { rpm = n })
      (if_given set.enabled (λ e l. record l { enabled = e }) k)

module _ (sha256_hex : String → String) where
  -- `fingerprint`
  unfoldable pub fingerprint : String → String
  fingerprint key = slice (sha256_hex key) 0 8

  abbrev pub has_fingerprint : String → NimKey → Bool
  has_fingerprint fp k = fingerprint k.key == fp

  -- `remove_key`
  unfoldable pub remove_key : StoredConfig → String → Option (NimKey × StoredConfig)
  remove_key sc fp = edit_key (has_fingerprint fp) (remove_first (has_fingerprint fp)) sc

  -- `find_key_mut` and the writes through what it finds
  unfoldable pub set_key : StoredConfig → SetNimKey → Option (NimKey × StoredConfig)
  set_key sc set =
      let p = has_fingerprint set.fingerprint in edit_key p (update_first p (set_fields set)) sc

  unfoldable pub nim_keys_action :
      StoredConfig
      → String
      → Role
      → Option AddNimKey
      → Option String
      → Option SetNimKey
      → Result Response StoredConfig
  nim_keys_action sc username role (some add) none none =
      push_key (unwrap_or add.upstream primary_upstream) (new_key username add) sc
  nim_keys_action sc username role none (some fp) none = allowed username role (remove_key sc fp)
  nim_keys_action sc username role none none (some set) = allowed username role (set_key sc set)
  nim_keys_action sc username role none none none = err bad_request
  nim_keys_action sc username role none (some fp) (some set) = err bad_request
  nim_keys_action sc username role (some add) none (some set) = err bad_request
  nim_keys_action sc username role (some add) (some fp) set = err bad_request

  unfoldable pub nim_keys_edit : StoredConfig → String → NimKeysReq → Result Response StoredConfig
  unfolding nim_keys_action
  nim_keys_edit sc username req =
      with_role (role_of sc username)
        (λ role. nim_keys_action sc username role req.add req.remove req.set)

  -- `nim_keys`
  unfoldable pub nim_keys : Bool → ℕ → Server → String → NimKeysReq → Response × Server
  nim_keys saved now s username req =
      settle saved now Response.okay Flush.nothing s (nim_keys_edit s.store username req)
