-- ===== src/Settings/Plain.antt =====
-- Calls of src/settings.rs by a user that is no administrator.
use open_proxy.Common.{
  ℕ, String, Bool, true, ◌≡◌, refl, Option, none, some, is_some, ◌==◌, string_eq, inl, inr,
  Bool-cases, Result, err, ok,
}
use open_proxy.Config.Types.{Role, User, StoredConfig}
use open_proxy.Config.Locale.{LocaleError, installed_locale}
use open_proxy.Config.Views.{superuser_of, user_of}
use open_proxy.Settings.State.{Server, role_of, admin_only}
use open_proxy.Settings.Edits.{update_first}
use open_proxy.Settings.Gives.{Gives, by_if, by_step, store-settle}
use open_proxy.Settings.Users.{named, with_users, set_hash, is_weak, users_gate, users_edit}
use open_proxy.Settings.Sections.{
  upstream_edit, upstreams_edit, models_edit, limits_edit, server_edit, history_edit, governor_edit,
}
use open_proxy.Settings.Locales.{default_locale, locale_edit}
use open_proxy.Settings.Accounts.{
  AccountBody, change_found, apply_password_change, changed, set_preference, chosen,
  change_password, account_edit,
}
use open_proxy.Settings.Owned.{others, others_user, map-update_first}
use open_proxy.Settings.Authority.{
  Left, with_users-Left, nim_keys-Left, clients-Left, admin_only-Left,
}
use open_proxy.Settings.Calls.{Call, edit, respond, respond-settle}
use open_proxy.Settings.Guarded.{setup_refused}

module _ (sc : StoredConfig) (username : String) where
  abbrev LeftBy : StoredConfig → Type 0
  LeftBy = Left sc username

  -- A write to the caller's own entry, of its hash or its preference alone.
  own_entry :
      (f : User → User)
      → ((u : User)
          → (u.username == username) ≡ true
          → others_user username (f u) ≡ others_user username u)
      → LeftBy (with_users (update_first (named username) f sc.users) sc)
  unfolding with_users
  own_entry f same =
      with_users-Left sc username _ (map-update_first (others_user username) _ f sc.users same)

  set_preference-Left :
      (l : Option String) (o : Option User) → Gives LeftBy (set_preference sc username l o)
  unfolding set_preference
  set_preference-Left l none = tt
  set_preference-Left l (some u) = own_entry _ (λ v e. rw (e) refl)

  change-Left :
      (verified new_hash : String) (o : Option User)
      → Gives LeftBy (changed (change_found sc username verified new_hash o))
  unfolding changed change_found set_hash
  change-Left verified new_hash none = tt
  change-Left verified new_hash (some u) = elim (Bool-cases (u.password_hash == verified)) [
    | inl e ↦ rw (changed, e) (own_entry _ (λ v h. rw (h) refl))
    | inr e ↦ rw (changed, e) tt
  ]

  account-Left :
      (hash_password : String → String → String) (verify_password : String → String → Bool)
      (earlier : StoredConfig) (body : AccountBody) (salt : String)
      → Gives LeftBy (account_edit hash_password verify_password earlier sc username body salt)
  unfolding account_edit chosen change_password apply_password_change
  account-Left hash_password verify_password earlier AccountBody.invalid_action salt = tt
  account-Left hash_password verify_password earlier AccountBody.invalid_locale salt = tt
  account-Left hash_password verify_password earlier (AccountBody.locale none) salt =
      set_preference-Left none _
  account-Left hash_password verify_password earlier (AccountBody.locale (some l)) salt =
      from (installed_locale l)
    where
      from : (r : Result LocaleError String) → Gives LeftBy (chosen sc username r)
      from (err e) = tt
      from (ok c) = set_preference-Left (some c) _
  account-Left hash_password verify_password earlier (AccountBody.password current new) salt =
      by_if LeftBy (is_weak new) _ _ (λ weak. tt) (λ strong. from (user_of earlier username))
    where
      from :
          (o : Option User)
          → Gives LeftBy
              (change_password hash_password verify_password sc username current new salt o)
      from none = tt
      from (some u) =
          by_if LeftBy (verify_password current u.password_hash) _ _
            (λ right. change-Left u.password_hash _ _) (λ wrong. tt)

module _ (sha256_hex : String → String) (hash_password : String → String → String)
    (verify_password : String → String → Bool) where
  edit-Left :
      (sc : StoredConfig) (username : String) (c : Call)
      → role_of sc username ≡ some Role.user
      → is_some (superuser_of sc) ≡ true
      → Gives (Left sc username) (edit sha256_hex hash_password verify_password sc username c)
  unfolding edit upstream_edit upstreams_edit models_edit limits_edit server_edit history_edit
      governor_edit users_edit locale_edit default_locale
  edit-Left sc username (Call.on_nim_keys req) h d = nim_keys-Left sc username sha256_hex req h
  edit-Left sc username (Call.on_clients req secret) h d =
      clients-Left sc username sha256_hex req secret h
  edit-Left sc username (Call.on_upstream url) h d = admin_only-Left sc username _ h
  edit-Left sc username (Call.on_upstreams req) h d = admin_only-Left sc username _ h
  edit-Left sc username (Call.on_models disabled) h d = admin_only-Left sc username _ h
  edit-Left sc username (Call.on_limits req) h d = admin_only-Left sc username _ h
  edit-Left sc username (Call.on_server req) h d = admin_only-Left sc username _ h
  edit-Left sc username (Call.on_history req) h d = admin_only-Left sc username _ h
  edit-Left sc username (Call.on_governor req) h d = admin_only-Left sc username _ h
  edit-Left sc username (Call.on_users earlier req salt) h d =
      by_step (Left sc username) (users_gate earlier username req) _
        (λ checked. admin_only-Left sc username _ h)
  edit-Left sc username (Call.on_account earlier body salt) h d =
      account-Left sc username hash_password verify_password earlier body salt
  edit-Left sc username (Call.on_locale earlier l) h d =
      by_step (Left sc username) (admin_only earlier username (ok earlier)) _
        (λ checked. from (installed_locale l))
    where
      from :
          (r : Result LocaleError String) → Gives (Left sc username) (default_locale sc username r)
      from (err e) = tt
      from (ok canonical) = admin_only-Left sc username _ h
  edit-Left sc username (Call.on_setup required admitted req salt secret) h d =
      setup_refused hash_password sha256_hex _ required admitted sc req salt secret d

  -- On a claimed server, a call by a user that is no administrator, whatever it asks, leaves all of
  -- the store but the caller's own keys, client keys, password hash and locale as it was.
  pub others-respond :
      (saved : Bool) (now : ℕ) (s : Server) (username : String) (c : Call)
      → role_of s.store username ≡ some Role.user
      → is_some (superuser_of s.store) ≡ true
      → others username
          (respond sha256_hex hash_password verify_password saved now s username c).1.store
        ≡ others username s.store
  others-respond saved now s username c plain claimed =
      respond-settle sha256_hex hash_password verify_password (λ r. Left s.store username r.1.store)
        saved now s username c
        (λ done f fine.
          store-settle (Left s.store username) saved now done f s _ refl
            (edit-Left s.store username c plain claimed))
