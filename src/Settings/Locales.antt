-- ===== src/Settings/Locales.antt =====
-- `locale` of src/settings.rs: an administrator sets the server's default locale.
use open_proxy.Common.{ℕ, String, Bool, Result, err, ok, ◌>>=◌}
use open_proxy.Config.Types.{StoredConfig}
use open_proxy.Config.Locale.{LocaleError, installed_locale}
use open_proxy.Settings.State.{Server, Response, Flush, settle, admin_only}
use open_proxy.Settings.Accounts.{locale_error_response}

unfoldable pub default_locale :
    StoredConfig → String → Result LocaleError String → Result Response StoredConfig
default_locale sc username (err e) = err (locale_error_response e)
default_locale sc username (ok l) = admin_only sc username (ok (record sc { default_locale = l }))

-- The whole of `locale`: `earlier` is the store at the first check, `sc` the one at the second.
unfoldable pub locale_edit :
    StoredConfig → StoredConfig → String → String → Result Response StoredConfig
unfolding default_locale
locale_edit earlier sc username l = admin_only earlier username (ok earlier) >>= λ checked.
    default_locale sc username (installed_locale l)

unfoldable pub locale : Bool → ℕ → StoredConfig → Server → String → String → Response × Server
locale saved now earlier s username l =
    settle saved now Response.okay Flush.nothing s (locale_edit earlier s.store username l)
