-- ===== src/Settings/Users.antt =====
-- `users` and `account` of src/settings.rs. Both hash passwords outside the store's lock, so each
-- has a part that reads the store as it was before and a part that writes it as it is after.
-- `hash_password` stands for the salted hash, `verify_password` for its check.
use Prim.Native.String.{len}
use open_proxy.Common.{
  ℕ, String, Bool, false, not, Option, none, some, List, [], ◌∷◌, ◌++◌, map, if◌then◌else◌, ltb,
  ◌==◌, string_eq, Result, err, ok, ◌>>=◌,
}
use open_proxy.Config.Types.{Role, User, UpstreamEndpoint, StoredConfig}
use open_proxy.Config.Chars.{trim}
use open_proxy.Config.Views.{is_superuser, user_of}
use open_proxy.Settings.State.{
  Server, Response, bad_request, forbidden, weak_password, Flush, settle, admin_only,
}
use open_proxy.Settings.Edits.{find_first, update_first, retain}

pub record AddUser : Type 0 where
  pub username : String
  pub password : String
  pub role : String

pub record ResetPassword : Type 0 where
  pub username : String
  pub new_password : String

pub record SetRole : Type 0 where
  pub username : String
  pub role : String

pub record UsersReq : Type 0 where
  pub add : Option AddUser
  pub remove : Option String
  pub reset_password : Option ResetPassword
  pub set_role : Option SetRole

-- `parse_role`
unfoldable pub parse_role : String → Option Role
parse_role s =
    if s == "admin" then some Role.admin else if s == "user" then some Role.user else none

abbrev pub is_weak : String → Bool
is_weak password = ltb (len password) 10

unfoldable pub weak_request : Option AddUser → Option ResetPassword → Bool
weak_request (some a) none = is_weak a.password
weak_request none (some r) = is_weak r.new_password
weak_request none none = false
weak_request (some a) (some r) = false

-- The part of `users` before the hash.
unfoldable pub users_gate : StoredConfig → String → UsersReq → Result Response StoredConfig
unfolding weak_request
users_gate sc username req =
    admin_only sc username
      (if weak_request req.add req.reset_password then err weak_password else ok sc)

abbrev pub named : String → User → Bool
named name u = u.username == name

unfoldable pub with_users : List User → StoredConfig → StoredConfig
with_users us sc = record sc { users = us }

unfoldable pub add_user :
    StoredConfig → AddUser → String → Option Role → Result Response StoredConfig
add_user sc add hash none = err bad_request
add_user sc add hash (some r) = ok (
    with_users
      (sc.users
        ++ record { username = trim add.username; password_hash = hash; role = r; locale = none }
          ∷ [])
      sc)

-- All that is left when a user goes, and what belongs to it.
unfoldable pub without_user : String → StoredConfig → StoredConfig
without_user target sc = record sc {
  users = retain (λ u. not (u.username == target)) sc.users;
  upstream = record sc.upstream {
    nim_keys = retain (λ k. not (k.owner == target)) sc.upstream.nim_keys;
  };
  upstreams =
      map {A = UpstreamEndpoint}
        (λ ep. record ep { keys = retain (λ k. not (k.owner == target)) ep.keys }) sc.upstreams;
  client_auth = record sc.client_auth {
    keys = retain (λ c. not (c.owner == target)) sc.client_auth.keys;
  };
}

-- A write against one user: it has to exist, and may not be the superuser.
unfoldable pub against : Option User → StoredConfig → Result Response StoredConfig
against none cand = err bad_request
against (some u) cand = if is_superuser u.role then err forbidden else ok cand

unfoldable pub set_hash : String → User → User
set_hash hash u = record u { password_hash = hash }

unfoldable pub set_user_role : StoredConfig → SetRole → Option Role → Result Response StoredConfig
set_user_role sc set none = err bad_request
set_user_role sc set (some r) =
    against (find_first (named set.username) sc.users)
      (with_users (update_first (named set.username) (λ u. record u { role = r }) sc.users) sc)

module _ (hash_password : String → String → String) where
  unfoldable pub users_action :
      StoredConfig
      → String
      → Option AddUser
      → Option String
      → Option ResetPassword
      → Option SetRole
      → Result Response StoredConfig
  users_action sc salt (some add) none none none =
      add_user sc add (hash_password salt add.password) (parse_role add.role)
  users_action sc salt none (some target) none none =
      against (user_of sc target) (without_user target sc)
  users_action sc salt none none (some reset) none =
      against (find_first (named reset.username) sc.users) (
        with_users
          (update_first (named reset.username) (set_hash (hash_password salt reset.new_password))
            sc.users)
          sc)
  users_action sc salt none none none (some set) = set_user_role sc set (parse_role set.role)
  users_action sc salt none none none none = err bad_request
  users_action sc salt none none (some reset) (some set) = err bad_request
  users_action sc salt none (some target) none (some set) = err bad_request
  users_action sc salt none (some target) (some reset) set = err bad_request
  users_action sc salt (some add) none none (some set) = err bad_request
  users_action sc salt (some add) none (some reset) set = err bad_request
  users_action sc salt (some add) (some target) reset set = err bad_request

  -- The whole of `users`: `earlier` is the store at the first lock, `sc` the one at the second.
  unfoldable pub users_edit :
      StoredConfig → StoredConfig → String → UsersReq → String → Result Response StoredConfig
  unfolding users_action
  users_edit earlier sc username req salt = users_gate earlier username req >>= λ checked.
      admin_only sc username
        (users_action sc salt req.add req.remove req.reset_password req.set_role)

  -- `users`
  unfoldable pub users :
      Bool → ℕ → StoredConfig → Server → String → UsersReq → String → Response × Server
  users saved now earlier s username req salt =
      settle saved now Response.okay Flush.scraper_memo s
        (users_edit earlier s.store username req salt)
