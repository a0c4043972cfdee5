-- ===== src/Settings/Immune.antt =====
-- The superuser of src/settings.rs is out of reach of every other caller.
use open_proxy.Common.{
  String, Bool, false, ◌≡◌, ◌≢◌, refl, sym, ap, subst, ◌∙◌, inl, inr, Option, none, some, map, ◌==◌,
  string_eq, Bool-cases, Result, err, ok, arith,
}
use open_proxy.Config.Types.{Role, User, StoredConfig}
use open_proxy.Config.Locale.{LocaleError, installed_locale}
use open_proxy.Config.Views.{is_superuser, find_user, user_of}
use open_proxy.Config.Verdict.{Distinct}
use open_proxy.Settings.Edits.{find_first}
use open_proxy.Settings.Gives.{Gives, by_if, by_step, by_admin}
use open_proxy.Settings.Users.{
  AddUser, ResetPassword, SetRole, UsersReq, parse_role, named, with_users, add_user, without_user,
  against, set_hash, set_user_role, users_gate, users_action, users_edit, is_weak,
}
use open_proxy.Settings.Accounts.{
  AccountBody, change_found, apply_password_change, changed, set_preference, chosen,
  change_password, account_edit,
}
use open_proxy.Settings.Superuser.{Rules, top, added, retained, updated, own_write, found}

module _ (su : User) (sc : StoredConfig) (h : Rules su sc.users) where
  abbrev Ruled : StoredConfig → Type 0
  Ruled c = Rules su c.users

  against_immune :
      (cand : StoredConfig) (o : Option User)
      → ((v : User) → o ≡ some v → is_superuser v.role ≡ false → Ruled cand)
      → Gives Ruled (against o cand)
  unfolding against
  against_immune cand none step = tt
  against_immune cand (some v) step =
      by_if Ruled (is_superuser v.role) _ _ (λ top. tt) (λ low. step v refl low)

  parse_role_low : (s : String) (r : Role) → parse_role s ≡ some r → is_superuser r ≡ false
  unfolding parse_role
  parse_role_low s Role.superuser e = ground arith
  parse_role_low s Role.admin e = refl
  parse_role_low s Role.user e = refl

  set_hash_low :
      (hash : String) (u : User)
      → is_superuser u.role ≡ false
      → is_superuser (set_hash hash u).role ≡ false
  unfolding set_hash
  set_hash_low hash u low = low

  add_user_immune :
      (add : AddUser) (hash : String) (o : Option Role) → Gives Ruled (add_user sc add hash o)
  unfolding add_user with_users
  add_user_immune add hash none = tt
  add_user_immune add hash (some r) = added su sc.users _ h

  set_user_role_immune :
      (set : SetRole) (o : Option Role)
      → ((r : Role) → o ≡ some r → is_superuser r ≡ false)
      → Gives Ruled (set_user_role sc set o)
  unfolding set_user_role with_users
  set_user_role_immune set none low = tt
  set_user_role_immune set (some r) low =
      against_immune _ (find_first (named set.username) sc.users)
        (λ v e plain. updated su sc.users _ _ v e plain (λ u was. low r refl) h)

  module _ (distinct : Distinct (map (λ u. u.username) sc.users)) where
    without_user_immune :
        (target : String) → Gives Ruled (against (user_of sc target) (without_user target sc))
    unfolding user_of without_user
    without_user_immune target = against_immune _ (find_user target sc.users) (λ v e plain.
        let other : su.username ≢ target = λ same. spared target v e plain same in
        retained su sc.users target other h)
      where
        spared :
            (target : String) (v : User)
            → find_user target sc.users ≡ some v
            → is_superuser v.role ≡ false
            → su.username ≢ target
        spared target v e plain same =
            let there =
              subst (λ n. find_user n sc.users ≡ some su) same (found su sc.users distinct h) in
            let one : v ≡ su = ground arith in
            let high = top su sc.users h in
            let low : is_superuser su.role ≡ false =
              ap (λ w. is_superuser w.role) (sym one) ∙ plain in
            absurd (cc)

    pub users_immune :
        (hash_password : String → String → String) (earlier : StoredConfig) (username salt : String)
        (req : UsersReq)
        → Gives Ruled (users_edit hash_password earlier sc username req salt)
    unfolding users_edit users_action with_users
    users_immune hash_password earlier username salt req =
        by_step Ruled (users_gate earlier username req) _ (λ checked.
          by_admin Ruled sc username _
            (λ r known on. from req.add req.remove req.reset_password req.set_role))
      where
        from :
            (add : Option AddUser) (remove : Option String) (reset : Option ResetPassword)
            (set : Option SetRole)
            → Gives Ruled (users_action hash_password sc salt add remove reset set)
        from (some add) none none none = add_user_immune add _ (parse_role add.role)
        from none (some target) none none = without_user_immune target
        from none none (some reset) none =
            against_immune _ (find_first (named reset.username) sc.users)
              (λ v e plain. updated su sc.users _ _ v e plain (set_hash_low _) h)
        from none none none (some set) =
            set_user_role_immune set (parse_role set.role) (parse_role_low set.role)
        from none none none none = tt
        from none none (some reset) (some set) = tt
        from none (some target) none (some set) = tt
        from none (some target) (some reset) set = tt
        from (some add) none none (some set) = tt
        from (some add) none (some reset) set = tt
        from (some add) (some target) reset set = tt

  module _ (username : String) (other : su.username ≢ username) where
    set_preference_immune :
        (l : Option String) (o : Option User) → Gives Ruled (set_preference sc username l o)
    unfolding set_preference with_users
    set_preference_immune l none = tt
    set_preference_immune l (some u) = own_write su sc.users username _ other (λ v. refl) h

    change_immune :
        (verified new_hash : String) (o : Option User)
        → Gives Ruled (changed (change_found sc username verified new_hash o))
    unfolding changed change_found with_users set_hash
    change_immune verified new_hash none = tt
    change_immune verified new_hash (some u) = elim (Bool-cases (u.password_hash == verified)) [
      | inl e ↦ rw (changed, e) (own_write su sc.users username _ other (λ v. refl) h)
      | inr e ↦ rw (changed, e) tt
    ]

    pub account_immune :
        (hash_password : String → String → String) (verify_password : String → String → Bool)
        (earlier : StoredConfig) (body : AccountBody) (salt : String)
        → Gives Ruled (account_edit hash_password verify_password earlier sc username body salt)
    unfolding account_edit chosen change_password apply_password_change
    account_immune hash_password verify_password earlier AccountBody.invalid_action salt = tt
    account_immune hash_password verify_password earlier AccountBody.invalid_locale salt = tt
    account_immune hash_password verify_password earlier (AccountBody.locale none) salt =
        set_preference_immune none _
    account_immune hash_password verify_password earlier (AccountBody.locale (some l)) salt =
        from (installed_locale l)
      where
        from : (r : Result LocaleError String) → Gives Ruled (chosen sc username r)
        from (err e) = tt
        from (ok c) = set_preference_immune (some c) _
    account_immune hash_password verify_password earlier (AccountBody.password current new) salt =
        by_if Ruled (is_weak new) _ _ (λ weak. tt) (λ strong. from (user_of earlier username))
      where
        from :
            (o : Option User)
            → Gives Ruled
                (change_password hash_password verify_password sc username current new salt o)
        from none = tt
        from (some u) =
            by_if Ruled (verify_password current u.password_hash) _ _
              (λ right. change_immune u.password_hash _ _) (λ wrong. tt)
