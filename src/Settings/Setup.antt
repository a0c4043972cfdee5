-- ===== src/Settings/Setup.antt =====
-- `setup_submit` of src/settings.rs, the claim of a server that has no superuser. `admitted` is the
-- answer of the limiter of Auth/Admission.antt, `secret` what a mint's random bytes give.
use open_proxy.Common.{
  ℕ, String, Bool, true, Option, none, some, List, [], ◌∷◌, ◌++◌, map, if◌then◌else◌, is_some, ◌==◌,
  string_eq, Result, err, ok,
}
use open_proxy.Config.Types.{NimKey, ClientKey, Role, User, UpstreamEndpoint, StoredConfig}
use open_proxy.Config.Text.{is_nonempty, trim_end_slashes}
use open_proxy.Config.Chars.{trim}
use open_proxy.Config.Urls.{normalize_base_url}
use open_proxy.Config.Views.{primary_upstream, superuser_of}
use open_proxy.Settings.State.{Server, Response, setup_complete, weak_password, Flush, settle}
use open_proxy.Settings.Edits.{unwrap_or, if_given}
use open_proxy.Settings.NimKeys.{with_keys}
use open_proxy.Settings.Clients.{with_clients, new_client}
use open_proxy.Settings.Sections.{with_base_url}
use open_proxy.Settings.Users.{is_weak, with_users}

pub record SetupKey : Type 0 where
  pub key : String
  pub rpm : Option ℕ

pub record SetupGroup : Type 0 where
  pub name : String
  pub base_url : String
  pub keys : List SetupKey
  pub supports_stream_options : Bool

-- `CreateClientKey` has one field, the name.
pub record SetupReq : Type 0 where
  pub username : String
  pub password : String
  pub base_url : Option String
  pub nim_keys : List SetupKey
  pub groups : List SetupGroup
  pub create_client_key : Option String

pub record NoScriptSetupForm : Type 0 where
  pub username : String
  pub password : String
  pub base_url : Option String
  pub nim_key : Option String
  pub nim_rpm : Option ℕ

form_keys : Option String → Option ℕ → List SetupKey
form_keys none rpm = []
form_keys (some key) rpm =
    if is_nonempty (trim key) then record { key = key; rpm = rpm } ∷ [] else []

-- `impl From<NoScriptSetupForm> for SetupReq`
unfoldable pub from_form : NoScriptSetupForm → SetupReq
unfolding form_keys
from_form form = record {
  username = form.username;
  password = form.password;
  base_url = form.base_url;
  nim_keys = form_keys form.nim_key form.nim_rpm;
  groups = [];
  create_client_key = none;
}

unfoldable pub setup_key : String → SetupKey → NimKey
setup_key username k = record {
  key = trim k.key;
  owner = username;
  enabled = true;
  rpm = unwrap_or k.rpm 40;
}

-- The claim's own user, and the orphans it adopts.
unfoldable pub adopt : String → String → StoredConfig → StoredConfig
adopt username hash sc =
    let root : User = record {
      username = username;
      password_hash = hash;
      role = Role.superuser;
      locale = none;
    } in
    let keys = map {A = NimKey} (λ k. record k { owner = username }) sc.upstream.nim_keys in
    let clients = map {A = ClientKey} (λ c. record c { owner = username }) sc.client_auth.keys in
    with_users (root ∷ []) (with_keys keys (with_clients clients sc))

unfoldable pub setup_group : String → SetupGroup → UpstreamEndpoint
setup_group username g = record {
  name = trim g.name;
  base_url = normalize_base_url (trim g.base_url);
  enabled = true;
  keys = map (setup_key username) g.keys;
  models = [];
  supports_stream_options = g.supports_stream_options;
}

-- The groups after the first; one with the primary group's name is left out.
unfoldable pub later_groups : String → List SetupGroup → List UpstreamEndpoint
later_groups username [] = []
later_groups username (g ∷ gs) =
    let rest = later_groups username gs in
    if trim g.name == primary_upstream then rest else setup_group username g ∷ rest

unfoldable pub push_keys : List NimKey → StoredConfig → StoredConfig
push_keys ks sc = with_keys (sc.upstream.nim_keys ++ ks) sc

unfoldable pub with_groups : SetupReq → List SetupGroup → StoredConfig → StoredConfig
with_groups req [] sc = push_keys (map (setup_key req.username) req.nim_keys) sc
with_groups req (first ∷ gs) sc =
    let url =
      if is_nonempty first.base_url
      then normalize_base_url (trim first.base_url)
      else sc.upstream.base_url in
    let with_first = push_keys (map (setup_key req.username) first.keys) (with_base_url url sc) in
    record with_first { upstreams = sc.upstreams ++ later_groups req.username gs }

module _ (hash_password : String → String → String) (sha256_hex : String → String) where
  unfoldable pub claimed : SetupReq → String → String → StoredConfig → StoredConfig
  claimed req salt secret sc =
      let adopted = adopt req.username (hash_password salt req.password) sc in
      let at = if_given req.base_url (λ b c. with_base_url (trim_end_slashes (trim b)) c) adopted in
      let grouped = with_groups req req.groups at in
      if_given req.create_client_key
        (λ name c.
          with_clients (c.client_auth.keys ++ new_client sha256_hex req.username name secret ∷ [])
            c)
        grouped

  unfoldable pub setup_edit :
      Bool → Bool → StoredConfig → SetupReq → String → String → Result Response StoredConfig
  setup_edit required admitted sc req salt secret =
      if required
      then if is_weak req.password
        then err weak_password
        else if admitted
        then if is_some (superuser_of sc)
          then err setup_complete
          else ok (claimed req salt secret sc)
        else err (Response.json_error 429 "throttled")
      else err setup_complete

  unfoldable pub shown : SetupReq → String → Option (String × String)
  shown req secret = elim req.create_client_key [
    | none ↦ none
    | some name ↦ some (trim name, secret)
  ]

  -- `setup_submit` of a body that is read; `required` is the flag as the request found it. The
  -- redirect of the native form and the JSON answer are one answer here.
  unfoldable pub setup_submit :
      Bool → ℕ → Bool → Bool → Server → SetupReq → String → String → Response × Server
  unfolding shown
  setup_submit saved now required admitted s req salt secret =
      settle saved now
        (Response.setup_answer req.username (hash_password salt req.password) (shown req secret))
        Flush.claim s (setup_edit required admitted s.store req salt secret)
