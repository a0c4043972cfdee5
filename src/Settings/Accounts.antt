-- ===== src/Settings/Accounts.antt =====
-- `account` of src/settings.rs: a user's own password and preference. Its two stores are as in
-- Settings/Users.antt.
use open_proxy.Common.{
  ℕ, String, Bool, Option, none, some, if◌then◌else◌, ◌==◌, string_eq, Result, err, ok,
}
use open_proxy.Config.Types.{User, StoredConfig}
use open_proxy.Config.Locale.{LocaleError, installed_locale}
use open_proxy.Config.Views.{user_of}
use open_proxy.Settings.State.{Server, Response, stale_session, weak_password, Flush, settle}
use open_proxy.Settings.Edits.{find_first, update_first}
use open_proxy.Settings.Users.{named, is_weak, with_users, set_hash}

pub data AccountBody : Type 0 where
  password : String → String → AccountBody
  locale : Option String → AccountBody
  invalid_locale invalid_action : AccountBody

pub data PasswordChangeErr : Type 0 where
  user_gone hash_rotated : PasswordChangeErr

unfoldable pub change_found :
    StoredConfig → String → String → String → Option User → Result PasswordChangeErr StoredConfig
change_found sc username verified_hash new_hash none = err PasswordChangeErr.user_gone
change_found sc username verified_hash new_hash (some u) =
    if u.password_hash == verified_hash
    then ok (with_users (update_first (named username) (set_hash new_hash) sc.users) sc)
    else err PasswordChangeErr.hash_rotated

-- `apply_password_change`
unfoldable pub apply_password_change :
    StoredConfig → String → String → String → Result PasswordChangeErr StoredConfig
unfolding change_found
apply_password_change sc username verified_hash new_hash =
    change_found sc username verified_hash new_hash (find_first (named username) sc.users)

unfoldable pub changed : Result PasswordChangeErr StoredConfig → Result Response StoredConfig
changed (err PasswordChangeErr.user_gone) = err stale_session
changed (err PasswordChangeErr.hash_rotated) = err (Response.json_error 409 "password_changed")
changed (ok cand) = ok cand

unfoldable pub set_preference :
    StoredConfig → String → Option String → Option User → Result Response StoredConfig
set_preference sc username preference none = err stale_session
set_preference sc username preference (some u) =
    ok (
      with_users (update_first (named username) (λ v. record v { locale = preference }) sc.users)
        sc)

-- `locale_error_response`
unfoldable pub locale_error_response : LocaleError → Response
locale_error_response LocaleError.invalid = Response.json_error 400 "invalid_locale"
locale_error_response (LocaleError.not_installed l) = Response.json_error 400 "locale_not_installed"

unfoldable pub chosen :
    StoredConfig → String → Result LocaleError String → Result Response StoredConfig
unfolding set_preference
chosen sc username (err e) = err (locale_error_response e)
chosen sc username (ok l) =
    set_preference sc username (some l) (find_first (named username) sc.users)

module _ (hash_password : String → String → String) (verify_password : String → String → Bool) where
  -- The user as the first lock shows it, and what the second does.
  unfoldable pub change_password :
      StoredConfig → String → String → String → String → Option User → Result Response StoredConfig
  unfolding changed
  change_password sc username current new salt none = err stale_session
  change_password sc username current new salt (some u) =
      if verify_password current u.password_hash
      then changed (apply_password_change sc username u.password_hash (hash_password salt new))
      else err (Response.json_error 403 "wrong_password")

  unfoldable pub account_edit :
      StoredConfig → StoredConfig → String → AccountBody → String → Result Response StoredConfig
  unfolding change_password chosen
  account_edit earlier sc username AccountBody.invalid_action salt =
      err (Response.json_error 400 "invalid_action")
  account_edit earlier sc username AccountBody.invalid_locale salt =
      err (Response.json_error 400 "invalid_locale")
  account_edit earlier sc username (AccountBody.locale none) salt =
      set_preference sc username none (find_first (named username) sc.users)
  account_edit earlier sc username (AccountBody.locale (some l)) salt =
      chosen sc username (installed_locale l)
  account_edit earlier sc username (AccountBody.password current new) salt =
      if is_weak new
      then err weak_password
      else change_password sc username current new salt (user_of earlier username)

  unfoldable pub account_answer : String → String → AccountBody → Response
  account_answer username salt (AccountBody.password current new) =
      Response.session_answer username (hash_password salt new)
  account_answer username salt (AccountBody.locale l) = Response.okay
  account_answer username salt AccountBody.invalid_locale = Response.okay
  account_answer username salt AccountBody.invalid_action = Response.okay

  unfoldable pub account_flush : AccountBody → Flush
  account_flush (AccountBody.password current new) = Flush.scraper_memo
  account_flush (AccountBody.locale l) = Flush.nothing
  account_flush AccountBody.invalid_locale = Flush.nothing
  account_flush AccountBody.invalid_action = Flush.nothing

  -- `account`
  unfoldable pub account :
      Bool → ℕ → StoredConfig → Server → String → AccountBody → String → Response × Server
  unfolding account_answer account_flush
  account saved now earlier s username body salt =
      settle saved now (account_answer username salt body) (account_flush body) s
        (account_edit earlier s.store username body salt)
