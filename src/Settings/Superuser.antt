-- ===== src/Settings/Superuser.antt =====
-- What the writes of src/settings.rs to a list of users do to the superuser in it.
use open_proxy.Common.{
  String, Bool, true, false, not, ◌≡◌, ◌≢◌, sym, ap, subst, ◌∙◌, inl, inr, some, List, [], ◌∷◌,
  ◌++◌, map, contains, ◌==◌, string_eq, Bool-cases, arith,
}
use open_proxy.Config.Types.{User}
use open_proxy.Config.Views.{is_superuser, find_superuser, find_user}
use open_proxy.Config.Verdict.{Distinct}
use open_proxy.Settings.Edits.{find_first, update_first, retain}
use open_proxy.Settings.Users.{named}

module _ (su : User) where
  abbrev pub Rules : List User → Type 0
  Rules us = find_superuser us ≡ some su

  pub top : (us : List User) → Rules us → is_superuser su.role ≡ true
  unfolding find_superuser
  top [] h = absurd (cc)
  top (u ∷ us) h = elim (Bool-cases (is_superuser u.role)) [
    | inl here ↦ let same : u ≡ su = ground arith in ap (λ w. is_superuser w.role) (sym same) ∙ here
    | inr later ↦ top us (ground arith)
  ]

  pub added : (us : List User) (u : User) → Rules us → Rules (us ++ u ∷ [])
  unfolding find_superuser
  added [] u h = absurd (cc)
  added (v ∷ us) u h = elim (Bool-cases (is_superuser v.role)) [
    | inl here ↦ ground arith
    | inr later ↦ let rest = added us u (ground arith) in ground arith
  ]

  pub retained :
      (us : List User) (name : String)
      → su.username ≢ name
      → Rules us
      → Rules (retain (λ u. not (u.username == name)) us)
  unfolding find_superuser retain
  retained [] name other h = absurd (cc)
  retained (v ∷ us) name other h = elim (Bool-cases (is_superuser v.role)) [
    | inl here ↦
        let same : v ≡ su = ground arith in
        let unnamed : (v.username == name) ≡ false = elim (Bool-cases (v.username == name)) [
          | inl e ↦
              absurd
                (other (ap (λ u. u.username) (sym same) ∙ (string_eq.beq_iff v.username name).0 e))
          | inr e ↦ e
        ] in
        ground arith
    | inr later ↦ let rest = retained us name other (ground arith) in ground arith
  ]

  -- A write to a user that is not a superuser, and does not become one.
  pub updated :
      (us : List User) (p : User → Bool) (f : User → User) (v : User)
      → find_first p us ≡ some v
      → is_superuser v.role ≡ false
      → ((u : User) → is_superuser u.role ≡ false → is_superuser (f u).role ≡ false)
      → Rules us
      → Rules (update_first p f us)
  unfolding find_superuser update_first find_first
  updated [] p f v e low keeps h = absurd (cc)
  updated (u ∷ us) p f v e low keeps h = elim (Bool-cases (p u)) [
    | inl here ↦
        let same : u ≡ v = ground arith in
        let plain : is_superuser u.role ≡ false = ap (λ w. is_superuser w.role) same ∙ low in
        let after = keeps u plain in ground arith
    | inr later ↦ elim (Bool-cases (is_superuser u.role)) [
      | inl top ↦ ground arith
      | inr plain ↦
          let rest = updated us p f v (ground arith) low keeps (ground arith) in ground arith
    ]
  ]

  -- A user's write to itself, which leaves its role.
  pub own_write :
      (us : List User) (name : String) (f : User → User)
      → su.username ≢ name
      → ((u : User) → (f u).role ≡ u.role)
      → Rules us
      → Rules (update_first (named name) f us)
  unfolding find_superuser update_first
  own_write [] name f other keeps h = absurd (cc)
  own_write (u ∷ us) name f other keeps h = elim (Bool-cases (is_superuser u.role)) [
    | inl top ↦
        let same : u ≡ su = ground arith in
        let unnamed : (u.username == name) ≡ false = elim (Bool-cases (u.username == name)) [
          | inl e ↦
              absurd
                (other (ap (λ u. u.username) (sym same) ∙ (string_eq.beq_iff u.username name).0 e))
          | inr e ↦ e
        ] in
        ground arith
    | inr plain ↦
        let after : is_superuser (f u).role ≡ false = ap is_superuser (keeps u) ∙ plain in
        let rest = own_write us name f other keeps (ground arith) in ground arith
  ]

  -- Where no two share a name, the superuser is found by its name.
  pub found :
      (us : List User)
      → Distinct (map (λ u. u.username) us)
      → Rules us
      → find_user su.username us ≡ some su
  unfolding find_superuser find_user contains
  found [] d h = absurd (cc)
  found (u ∷ us) d h = elim (Bool-cases (is_superuser u.role)) [
    | inl top ↦
        let same : u ≡ su = ground arith in
        let here : (u.username == su.username) ≡ true =
          (string_eq.beq_iff u.username su.username).1 (ap (λ w. w.username) same) in
        ground arith
    | inr plain ↦
        let later : Rules us = ground arith in
        let rest = found us d.1 later in
        let among = held us later in
        elim (Bool-cases (u.username == su.username)) [
          | inl e ↦
              let same = (string_eq.beq_iff u.username su.username).0 e in
              let away : contains (map (λ w. w.username) us) u.username ≡ false = d.0 in
              absurd (
                ground
                  (arith, subst (λ n. contains (map (λ w. w.username) us) n ≡ false) same away))
          | inr e ↦ ground arith
        ]
  ]
    where
      held : (us : List User) → Rules us → contains (map (λ w. w.username) us) su.username ≡ true
      held [] h = absurd (cc)
      held (u ∷ us) h = elim (Bool-cases (is_superuser u.role)) [
        | inl top ↦
            let same : u ≡ su = ground arith in
            let here : (u.username == su.username) ≡ true =
              (string_eq.beq_iff u.username su.username).1 (ap (λ w. w.username) same) in
            ground arith
        | inr plain ↦ let rest = held us (ground arith) in ground arith
      ]
