-- ===== src/Settings/Calls.antt =====
-- The handlers of src/settings.rs as the calls of one server, and runs of calls. A call that lets
-- go of the store's lock carries the store that its first lock saw, which may be any.
use open_proxy.Common.{ℕ, String, Bool, true, false, ◌≡◌, refl, List, [], ◌∷◌, Result}
use open_proxy.Config.Types.{Limits, StoredConfig}
use open_proxy.Settings.State.{Server, Response, Flush, settle}
use open_proxy.Settings.NimKeys.{NimKeysReq, nim_keys_edit, nim_keys}
use open_proxy.Settings.Clients.{ClientsReq, clients_edit, clients}
use open_proxy.Settings.Sections.{
  UpstreamsReq, ServerReq, HistoryReq, GovernorReq, upstream_edit, upstream, upstreams_edit,
  upstreams, models_edit, models_cfg, limits_edit, limits, server_edit, server, history_edit,
  history, governor_edit, governor_cfg,
}
use open_proxy.Settings.Users.{UsersReq, users_edit, users}
use open_proxy.Settings.Accounts.{AccountBody, account_edit, account_answer, account}
use open_proxy.Settings.Locales.{locale_edit, locale}
use open_proxy.Settings.Setup.{SetupReq, setup_edit, setup_submit}

pub data Call : Type 0 where
  on_nim_keys : NimKeysReq → Call
  on_clients : ClientsReq → String → Call
  on_upstream : String → Call
  on_upstreams : UpstreamsReq → Call
  on_models : List String → Call
  on_limits : Limits → Call
  on_server : ServerReq → Call
  on_history : HistoryReq → Call
  on_governor : GovernorReq → Call
  on_users : StoredConfig → UsersReq → String → Call
  on_account : StoredConfig → AccountBody → String → Call
  on_locale : StoredConfig → String → Call
  on_setup : Bool → Bool → SetupReq → String → String → Call

-- One call: whether the disk takes a write, the time, the caller and what it asks.
pub record Turn : Type 0 where
  pub saved : Bool
  pub now : ℕ
  pub caller : String
  pub asked : Call

-- An answer that reports an error.
unfoldable pub is_error : Response → Bool
is_error (Response.json_error status code) = true
is_error Response.okay = false
is_error (Response.clients_answer secret) = false
is_error (Response.session_answer username hash) = false
is_error (Response.setup_answer username hash minted) = false

module _ (sha256_hex : String → String) (hash_password : String → String → String)
    (verify_password : String → String → Bool) where
  -- What the call makes of the store before `commit` sees it.
  unfoldable pub edit : StoredConfig → String → Call → Result Response StoredConfig
  edit sc username (Call.on_nim_keys req) = nim_keys_edit sha256_hex sc username req
  edit sc username (Call.on_clients req secret) = clients_edit sha256_hex sc username req secret
  edit sc username (Call.on_upstream url) = upstream_edit sc username url
  edit sc username (Call.on_upstreams req) = upstreams_edit sc username req
  edit sc username (Call.on_models disabled) = models_edit sc username disabled
  edit sc username (Call.on_limits req) = limits_edit sc username req
  edit sc username (Call.on_server req) = server_edit sc username req
  edit sc username (Call.on_history req) = history_edit sc username req
  edit sc username (Call.on_governor req) = governor_edit sc username req
  edit sc username (Call.on_users earlier req salt) =
      users_edit hash_password earlier sc username req salt
  edit sc username (Call.on_account earlier body salt) =
      account_edit hash_password verify_password earlier sc username body salt
  edit sc username (Call.on_locale earlier l) = locale_edit earlier sc username l
  edit sc username (Call.on_setup required admitted req salt secret) =
      setup_edit hash_password sha256_hex required admitted sc req salt secret

  unfoldable pub respond : Bool → ℕ → Server → String → Call → Response × Server
  respond saved now s username (Call.on_nim_keys req) = nim_keys sha256_hex saved now s username req
  respond saved now s username (Call.on_clients req secret) =
      clients sha256_hex saved now s username req secret
  respond saved now s username (Call.on_upstream url) = upstream saved now s username url
  respond saved now s username (Call.on_upstreams req) = upstreams saved now s username req
  respond saved now s username (Call.on_models disabled) = models_cfg saved now s username disabled
  respond saved now s username (Call.on_limits req) = limits saved now s username req
  respond saved now s username (Call.on_server req) = server saved now s username req
  respond saved now s username (Call.on_history req) = history saved now s username req
  respond saved now s username (Call.on_governor req) = governor_cfg saved now s username req
  respond saved now s username (Call.on_users earlier req salt) =
      users hash_password saved now earlier s username req salt
  respond saved now s username (Call.on_account earlier body salt) =
      account hash_password verify_password saved now earlier s username body salt
  respond saved now s username (Call.on_locale earlier l) = locale saved now earlier s username l
  respond saved now s username (Call.on_setup required admitted req salt secret) =
      setup_submit hash_password sha256_hex saved now required admitted s req salt secret

  -- Calls one after another.
  unfoldable pub run : Server → List Turn → Server
  run s [] = s
  run s (t ∷ ts) = run (respond t.saved t.now s t.caller t.asked).1 ts

  -- Every call ends in `settle`, with an answer for its success that is no error.
  pub respond-settle :
      (P : Response × Server → Type 0) (saved : Bool) (now : ℕ) (s : Server) (username : String)
      (c : Call)
      → ((done : Response) (f : Flush)
          → is_error done ≡ false
          → P (settle saved now done f s (edit s.store username c)))
      → P (respond saved now s username c)
  unfolding respond edit is_error nim_keys clients upstream upstreams models_cfg limits server
      history governor_cfg users account locale setup_submit account_answer
  respond-settle P saved now s username (Call.on_nim_keys req) h = h _ _ refl
  respond-settle P saved now s username (Call.on_clients req secret) h = h _ _ refl
  respond-settle P saved now s username (Call.on_upstream url) h = h _ _ refl
  respond-settle P saved now s username (Call.on_upstreams req) h = h _ _ refl
  respond-settle P saved now s username (Call.on_models disabled) h = h _ _ refl
  respond-settle P saved now s username (Call.on_limits req) h = h _ _ refl
  respond-settle P saved now s username (Call.on_server req) h = h _ _ refl
  respond-settle P saved now s username (Call.on_history req) h = h _ _ refl
  respond-settle P saved now s username (Call.on_governor req) h = h _ _ refl
  respond-settle P saved now s username (Call.on_users earlier req salt) h = h _ _ refl
  respond-settle P saved now s username (Call.on_account earlier (AccountBody.password a b) salt)
        h =
      h _ _ refl
  respond-settle P saved now s username (Call.on_account earlier (AccountBody.locale l) salt) h =
      h _ _ refl
  respond-settle P saved now s username (Call.on_account earlier AccountBody.invalid_locale salt)
        h =
      h _ _ refl
  respond-settle P saved now s username (Call.on_account earlier AccountBody.invalid_action salt)
        h =
      h _ _ refl
  respond-settle P saved now s username (Call.on_locale earlier l) h = h _ _ refl
  respond-settle P saved now s username (Call.on_setup required admitted req salt secret) h =
      h _ _ refl
