-- ===== src/Settings/Clients.antt =====
-- `clients` of src/settings.rs: client keys are minted and revoked, the access mode is switched.
-- `secret` is what the random bytes of a mint give, `sha256_hex` its digest.
use Prim.Native.String.{count, [] as empty, ◌∷◌ as ◌then◌}
use open_proxy.Common.{
  ℕ, zero, suc, ◌-◌, String, Bool, ◌||◌, Option, none, some, [], ◌∷◌, ◌++◌, if◌then◌else◌, ◌==◌,
  string_eq, Result, err, ok, ◌>>=◌, List,
}
use open_proxy.Config.Types.{ClientKey, Mode, StoredConfig, Role}
use open_proxy.Config.Chars.{trim}
use open_proxy.Config.Views.{is_admin}
use open_proxy.Settings.State.{
  Server, Response, bad_request, forbidden, Flush, settle, role_of, with_role,
}
use open_proxy.Settings.Edits.{find_first, remove_first}

-- `AddClient` has one field, the name.
pub record ClientsReq : Type 0 where
  pub add : Option String
  pub remove : Option String
  pub mode : Option String

-- `chars().skip(n)`
skip_chars : ℕ → String → String
skip_chars zero s = s
skip_chars (suc n) empty = empty
skip_chars (suc n) (c then s) = skip_chars n s

-- `last4`
unfoldable pub last4 : String → String
unfolding skip_chars
last4 s = skip_chars (count s - 4) s

unfoldable pub with_clients : List ClientKey → StoredConfig → StoredConfig
with_clients ks sc = record sc { client_auth = record sc.client_auth { keys = ks } }

unfoldable pub mode_named : String → Result Response Mode
mode_named mode =
    if mode == "open"
    then ok Mode.«open»
    else if mode == "keyed"
    then ok Mode.keyed
    else err bad_request

unfoldable pub revoke :
    StoredConfig → String → Role → String → Option ClientKey → Result Response StoredConfig
revoke sc username role name none = err bad_request
revoke sc username role name (some c) =
    if is_admin role || c.owner == username
    then ok (with_clients (remove_first (λ k. k.name == name) sc.client_auth.keys) sc)
    else err forbidden

unfoldable pub set_mode : StoredConfig → Role → String → Result Response StoredConfig
set_mode sc role mode =
    if is_admin role
    then (mode_named mode >>= λ m.
        ok (record sc { client_auth = record sc.client_auth { mode = m } }))
    else err forbidden

-- The secret that a successful `add` shows.
unfoldable pub minted : ClientsReq → String → Option String
minted req secret = elim req.add [ none ↦ none | some name ↦ some secret ]

module _ (sha256_hex : String → String) where
  unfoldable pub new_client : String → String → String → ClientKey
  new_client username name secret = record {
    name = trim name;
    secret_sha256 = sha256_hex secret;
    last4 = last4 secret;
    owner = username;
  }

  unfoldable pub clients_action :
      StoredConfig
      → String
      → Role
      → String
      → Option String
      → Option String
      → Option String
      → Result Response StoredConfig
  clients_action sc username role secret (some name) none none =
      ok (with_clients (sc.client_auth.keys ++ new_client username name secret ∷ []) sc)
  clients_action sc username role secret none (some name) none =
      revoke sc username role name (find_first (λ k. k.name == name) sc.client_auth.keys)
  clients_action sc username role secret none none (some mode) = set_mode sc role mode
  clients_action sc username role secret none none none = err bad_request
  clients_action sc username role secret none (some name) (some mode) = err bad_request
  clients_action sc username role secret (some name) none (some mode) = err bad_request
  clients_action sc username role secret (some name) (some old) mode = err bad_request

  unfoldable pub clients_edit :
      StoredConfig → String → ClientsReq → String → Result Response StoredConfig
  unfolding clients_action
  clients_edit sc username req secret =
      with_role (role_of sc username)
        (λ role. clients_action sc username role secret req.add req.remove req.mode)

  -- `clients`
  unfoldable pub clients : Bool → ℕ → Server → String → ClientsReq → String → Response × Server
  clients saved now s username req secret =
      settle saved now (Response.clients_answer (minted req secret)) Flush.nothing s
        (clients_edit s.store username req secret)
