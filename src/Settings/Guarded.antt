-- ===== src/Settings/Guarded.antt =====
-- Runs of calls of src/settings.rs by callers other than the superuser.
use open_proxy.Common.{
  ℕ, String, Bool, true, ◌≡◌, ◌≢◌, refl, some, List, [], ◌∷◌, map, is_some, All,
}
use open_proxy.Config.Types.{User, StoredConfig}
use open_proxy.Config.Views.{superuser_of}
use open_proxy.Config.Verdict.{Distinct}
use open_proxy.Config.Rulebook.{validate-WellFormed}
use open_proxy.Settings.State.{Server}
use open_proxy.Settings.Gives.{Gives, by_if, store-settle}
use open_proxy.Settings.Users.{is_weak}
use open_proxy.Settings.Setup.{SetupReq, setup_edit}
use open_proxy.Settings.Kept.{
  nim_keys_kept, clients_kept, upstream_kept, upstreams_kept, models_kept, limits_kept, server_kept,
  history_kept, governor_kept, locale_kept,
}
use open_proxy.Settings.Superuser.{Rules}
use open_proxy.Settings.Immune.{users_immune, account_immune}
use open_proxy.Settings.Calls.{Call, Turn, edit, respond, respond-settle, run}
use open_proxy.Settings.Written.{Consistent, run-Consistent}

pub setup_refused :
    (hash_password : String → String → String) (sha256_hex : String → String)
    (P : StoredConfig → Type 0) (required admitted : Bool) (sc : StoredConfig) (req : SetupReq)
    (salt secret : String)
    → is_some (superuser_of sc) ≡ true
    → Gives P (setup_edit hash_password sha256_hex required admitted sc req salt secret)
unfolding setup_edit
setup_refused hash_password sha256_hex P required admitted sc req salt secret claimed =
    by_if P required _ _
      (λ on.
        by_if P (is_weak req.password) _ _ (λ weak. tt)
          (λ strong.
            by_if P admitted _ _
              (λ go. by_if P (is_some (superuser_of sc)) _ _ (λ yes. tt) (λ no. absurd (cc)))
              (λ busy. tt)))
      (λ off. tt)

module _ (sha256_hex : String → String) (hash_password : String → String → String)
    (verify_password : String → String → Bool) (su : User) where
  edit_immune :
      (sc : StoredConfig) (username : String) (c : Call)
      → superuser_of sc ≡ some su
      → Distinct (map (λ u. u.username) sc.users)
      → su.username ≢ username
      → Gives
          (λ cand. Rules su cand.users)
          (edit sha256_hex hash_password verify_password sc username c)
  unfolding edit superuser_of
  edit_immune sc username (Call.on_nim_keys req) h d o =
      nim_keys_kept (Rules su) sc username h sha256_hex req
  edit_immune sc username (Call.on_clients req secret) h d o =
      clients_kept (Rules su) sc username h sha256_hex req secret
  edit_immune sc username (Call.on_upstream url) h d o = upstream_kept (Rules su) sc username h url
  edit_immune sc username (Call.on_upstreams req) h d o =
      upstreams_kept (Rules su) sc username h req
  edit_immune sc username (Call.on_models disabled) h d o =
      models_kept (Rules su) sc username h disabled
  edit_immune sc username (Call.on_limits req) h d o = limits_kept (Rules su) sc username h req
  edit_immune sc username (Call.on_server req) h d o = server_kept (Rules su) sc username h req
  edit_immune sc username (Call.on_history req) h d o = history_kept (Rules su) sc username h req
  edit_immune sc username (Call.on_governor req) h d o = governor_kept (Rules su) sc username h req
  edit_immune sc username (Call.on_users earlier req salt) h d o =
      users_immune su sc h d hash_password earlier username salt req
  edit_immune sc username (Call.on_account earlier body salt) h d o =
      account_immune su sc h username o hash_password verify_password earlier body salt
  edit_immune sc username (Call.on_locale earlier l) h d o =
      locale_kept (Rules su) sc username h earlier l
  edit_immune sc username (Call.on_setup required admitted req salt secret) h d o =
      setup_refused hash_password sha256_hex _ required admitted sc req salt secret (rw h refl)

  respond-superuser_of :
      (saved : Bool) (now : ℕ) (s : Server) (username : String) (c : Call)
      → Consistent s
      → superuser_of s.store ≡ some su
      → su.username ≢ username
      → superuser_of
          (respond sha256_hex hash_password verify_password saved now s username c).1.store
        ≡ some su
  unfolding superuser_of
  respond-superuser_of saved now s username c (valid, disk, cfg, sent) h o =
      let rules = (validate-WellFormed s.store).0 valid in
      let distinct = rules.1.1.1.1.1.1.1.1.0.0.1 in
      respond-settle sha256_hex hash_password verify_password (λ r. Rules su r.1.store.users) saved
        now s username c
        (λ done f fine.
          store-settle (λ sc. Rules su sc.users) saved now done f s _ h
            (edit_immune s.store username c h distinct o))

  -- On a consistent server with a superuser, while all callers are others, administrators included,
  -- the superuser stays who it is: its name, its role, its password hash and its locale. The stores
  -- that the calls saw before they hashed a password may be any.
  pub run-superuser_of :
      (s : Server) (turns : List Turn)
      → Consistent s
      → superuser_of s.store ≡ some su
      → All (λ t. su.username ≢ t.caller) turns
      → superuser_of (run sha256_hex hash_password verify_password s turns).store ≡ some su
  unfolding run
  run-superuser_of s [] good h others = h
  run-superuser_of s (t ∷ ts) good h others =
      let next =
        (respond sha256_hex hash_password verify_password t.saved t.now s t.caller t.asked).1 in
      run-superuser_of next ts
        (run-Consistent sha256_hex hash_password verify_password s (t ∷ []) good)
        (respond-superuser_of t.saved t.now s t.caller t.asked good h others.0) others.1
