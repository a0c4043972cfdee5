-- ===== src/Config/Rulebook.antt =====
-- When `validate` passes.
use open_proxy.Common.{
  ℕ, String, ◌≡◌, refl, ◌↔◌, ◌⊎◌, Bool, true, ◌&&◌, ◌||◌, Option, none, some, List, ◌++◌, map, leb,
  nat_eq, ◌==◌, string_eq, any, All, Any, any_iff, arith, nat_beq,
}
use open_proxy.Config.Types.{NimKey, ClientKey, Limits, User, StoredConfig}
use open_proxy.Config.Text.{is_nonempty, label_ok, within}
use open_proxy.Config.Chars.{trim}
use open_proxy.Config.Views.{superuser_of}
use open_proxy.Config.Verdict.{
  Rejection, Passes, require, require-Passes, then_iff, each-Passes, Distinct, ◌and◌,
  each_new-Distinct,
}
use open_proxy.Config.Validate.{
  validate_limits, validate_windows, check_user, preference, validate_users, later_keys,
  validate_keys, validate_clients, validate_overrides, is_floor, has_floor, check_owner,
  validate_owners, validate,
}
use open_proxy.Config.Wellformed.{
  Bounded, Windowed, Preference, Account, Accounts, Key, Client, Pinned, Known, Floor, Owned,
  WellFormed,
}
use open_proxy.Config.Checks.{
  both, same, require_iff, at_least, at_most, between, and_true, or_true,
  validate_stored_locale_lem,
}
use open_proxy.Config.Groups.{
  validate_models_list-Models, validate_disabled_models-Models, validate_upstreams-Groups,
}

validate_limits-Bounded : (l : Limits) → Passes (validate_limits l) ↔ Bounded l
unfolding validate_limits
validate_limits-Bounded l =
    then_iff _ _ (at_least _ _ _)
      (then_iff _ _ (at_least _ _ _) (then_iff _ _ (at_least _ _ _) (at_least _ _ _)))

validate_windows-Windowed : (sc : StoredConfig) → Passes (validate_windows sc) ↔ Windowed sc
unfolding validate_windows
validate_windows-Windowed sc =
    let window = sc.dashboard.default_window_days in
    let days = sc.history.days in
    then_iff _ _ (at_least _ _ _) (
      then_iff _ _ (require_iff (nat_beq days 0 || leb window days) _ (ground arith))
        (require-Passes _ _))

preference-Preference : (p : Option String) → Passes (preference p) ↔ Preference p
unfolding preference
preference-Preference none = (λ h. tt, λ h. refl)
preference-Preference (some locale) = validate_stored_locale_lem locale

check_user-Account :
    (u : User)
    → (Passes (require (label_ok u.username 32) Rejection.bad_username) × Passes (check_user u))
      ↔ Account u
unfolding check_user
check_user-Account u =
    both (require-Passes _ _) (then_iff _ _ (require-Passes _ _) (preference-Preference u.locale))

validate_users-Accounts : (us : List User) → Passes (validate_users us) ↔ Accounts us
unfolding validate_users
validate_users-Accounts us =
    then_iff _ _ (each_new-Distinct _ _ _ _ check_user-Account us) (at_most _ _ _)

validate_keys-Key :
    (ks : List NimKey) → Passes (validate_keys ks) ↔ (All Key ks and Distinct (map (λ k. k.key) ks))
unfolding validate_keys
validate_keys-Key =
    each_new-Distinct _ _ _ _ (λ k. both (require-Passes _ _) (between 1 10000 k.rpm _))

validate_clients-Client :
    (cs : List ClientKey)
    → Passes (validate_clients cs) ↔ (All Client cs and Distinct (map (λ c. c.name) cs))
unfolding validate_clients
validate_clients-Client =
    each_new-Distinct _ _ _ _ (λ c. both (require-Passes _ _) (require-Passes _ _))

validate_overrides-Pinned :
    (os : List (String × ℕ)) → Passes (validate_overrides os) ↔ All Pinned os
unfolding validate_overrides
validate_overrides-Pinned os =
    each-Passes _ os
      (λ o. require_iff (is_nonempty (trim o.0) && within 1 10000 o.1) _ (ground arith))

check_owner-Known : (sc : StoredConfig) (k : NimKey) → Passes (check_owner sc k) ↔ Known sc k.owner
unfolding check_owner
check_owner-Known sc k = require-Passes _ _

is_floor-Floor : (su : String) (k : NimKey) → (is_floor su k ≡ true) ↔ Floor su k
is_floor-Floor su k = and_true k.enabled (k.owner == su) same (string_eq.beq_iff k.owner su)

group_iff :
    (su : String) (enabled : Bool) (ks : List NimKey)
    → ((enabled && any (is_floor su) ks) ≡ true) ↔ ((enabled ≡ true) and Any (Floor su) ks)
group_iff su enabled ks = and_true enabled _ same (any_iff (is_floor su) ks (is_floor-Floor su))

has_floor-Floor :
    (sc : StoredConfig) (su : String)
    → Passes (require (has_floor su sc) Rejection.no_pool_floor) ↔ (
        ((sc.upstream.enabled ≡ true) and Any (Floor su) sc.upstream.nim_keys)
        ⊎ Any (λ ep. (ep.enabled ≡ true) and Any (Floor su) ep.keys) sc.upstreams)
unfolding has_floor
has_floor-Floor sc su = require_iff _ _ (
    or_true _ _ (group_iff su sc.upstream.enabled sc.upstream.nim_keys)
      (any_iff _ sc.upstreams (λ ep. group_iff su ep.enabled ep.keys)))

validate_owners-Owned :
    (sc : StoredConfig) (su : Option User) → Passes (validate_owners sc su) ↔ Owned sc su
unfolding validate_owners
validate_owners-Owned sc none = (λ h. tt, λ h. refl)
validate_owners-Owned sc (some su) = then_iff _ _ (each-Passes _ _ (check_owner-Known sc)) (
    then_iff _ _ (each-Passes _ _ (λ ep. each-Passes _ _ (check_owner-Known sc)))
      (then_iff _ _ (each-Passes _ _ (λ c. require-Passes _ _)) (has_floor-Floor sc su.username)))

-- A store passes the validation exactly when it is well formed: its limits, windows, locales, names,
-- URLs, models, keys and overrides are each in form, no two groups, users, keys or client keys share
-- a name, at most one user is the superuser, and once there is one, every key has a user and the
-- superuser owns an enabled key of an enabled group.
pub validate-WellFormed : (sc : StoredConfig) → Passes (validate sc) ↔ WellFormed sc
unfolding validate
validate-WellFormed sc =
    let version =
      require_iff (sc.version == 1) Rejection.wrong_version (nat_eq.beq_iff sc.version 1) in
    let keys = sc.upstream.nim_keys ++ later_keys sc.upstreams in
    then_iff _ _ version (
      then_iff _ _ (validate_stored_locale_lem sc.default_locale) (
        then_iff _ _ (validate_limits-Bounded sc.limits) (
          then_iff _ _ (validate_windows-Windowed sc) (
            then_iff _ _ same (
              then_iff _ _ (validate_models_list-Models sc.upstream.models) (
                then_iff _ _ (validate_upstreams-Groups sc.upstreams) (
                  then_iff _ _ (validate_disabled_models-Models sc.disabled_models) (
                    then_iff _ _ (validate_users-Accounts sc.users) (
                      then_iff _ _ (validate_keys-Key keys) (
                        then_iff _ _ (validate_clients-Client sc.client_auth.keys) (
                          then_iff _ _ (validate_overrides-Pinned sc.governor.overrides)
                            (validate_owners-Owned sc (superuser_of sc)))))))))))))
