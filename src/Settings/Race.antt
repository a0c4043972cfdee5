-- ===== src/Settings/Race.antt =====
-- `account` of src/settings.rs against a write of the same password that comes in between.
use open_proxy.Common.{
  ℕ, String, Bool, true, false, ◌≡◌, ◌≢◌, refl, some, ◌==◌, string_eq, Result, by_test, inl, inr,
  Bool-cases,
}
use open_proxy.Config.Types.{User, StoredConfig}
use open_proxy.Config.Views.{user_of}
use open_proxy.Settings.State.{Server, Response, Flush, settle}
use open_proxy.Settings.Edits.{find_first}
use open_proxy.Settings.Users.{named, is_weak}
use open_proxy.Settings.Accounts.{
  AccountBody, change_found, apply_password_change, changed, change_password, account_edit,
  account_answer, account,
}
use open_proxy.Settings.Calls.{is_error}

module _ (hash_password : String → String → String) (verify_password : String → String → Bool) where
  -- Where the hash that a password change was verified against is no longer the stored one, the change
  -- is refused and nothing is written, whatever the passwords.
  pub account_rotated :
      (saved : Bool) (now : ℕ) (earlier : StoredConfig) (s : Server)
      (username current new salt : String) (before after : User)
      → user_of earlier username ≡ some before
      → find_first (named username) s.store.users ≡ some after
      → after.password_hash ≢ before.password_hash
      → let body = AccountBody.password current new in
        let r = account hash_password verify_password saved now earlier s username body salt in
        (is_error r.0 ≡ true) × (r.1 ≡ s)
  unfolding account account_edit change_password apply_password_change change_found changed settle
      is_error
  account_rotated saved now earlier s username current new salt before after was is differs =
      let done =
        account_answer hash_password verify_password username salt
          (AccountBody.password current new) in
      let Refused : Result Response StoredConfig → Type 0 = λ e.
        let r = settle saved now done Flush.scraper_memo s e in (is_error r.0 ≡ true) × (r.1 ≡ s) in
      let rotated : (after.password_hash == before.password_hash) ≡ false =
        elim (Bool-cases (after.password_hash == before.password_hash)) [
          | inl e ↦
              absurd (differs ((string_eq.beq_iff after.password_hash before.password_hash).0 e))
          | inr e ↦ e
        ] in
      by_test Refused (is_weak new) (λ weak. (refl, refl))
        (λ strong. rw (was) (
          by_test Refused (verify_password current before.password_hash)
            (λ right. rw (is, rotated) (refl, refl)) (λ wrong. (refl, refl))))
