-- ===== src/Settings/Orphans.antt =====
-- `setup_submit` of src/settings.rs on a store whose users are gone: what the claim makes of the keys
-- that they left.
use open_proxy.Common.{
  ℕ, String, Bool, true, ◌≡◌, ◌≢◌, refl, sym, ap, subst, ◌∙◌, inl, inr, none, some, List, [], ◌∷◌,
  ◌++◌, string_eq, is_some, Any, All, Result-cases, Result, append-nil, append_assoc, arith,
  by_test,
}
use open_proxy.Config.Types.{Role, NimKey, User, UpstreamEndpoint, StoredConfig}
use open_proxy.Config.Views.{is_superuser, superuser_of, find_superuser, user_of, find_user}
use open_proxy.Config.Verdict.{Passes}
use open_proxy.Config.Validate.{validate}
use open_proxy.Config.Wellformed.{Owned, Known}
use open_proxy.Config.Rulebook.{validate-WellFormed}
use open_proxy.Settings.State.{Server, Response, Flush, settle, answer, commit, on_valid}
use open_proxy.Settings.NimKeys.{with_keys}
use open_proxy.Settings.Clients.{with_clients}
use open_proxy.Settings.Sections.{with_base_url}
use open_proxy.Settings.Users.{with_users, is_weak}
use open_proxy.Settings.Gives.{by_given}
use open_proxy.Settings.Setup.{
  SetupReq, SetupGroup, adopt, push_keys, with_groups, later_groups, claimed, setup_edit, shown,
  setup_submit,
}
use open_proxy.Settings.Calls.{is_error}

-- The endpoint groups of the store are still there, untouched, and the claimant is the only user.
abbrev Claims : String → String → StoredConfig → StoredConfig → Type 0
Claims username hash sc c =
    (c.users
      ≡ record { username = username; password_hash = hash; role = Role.superuser; locale = none }
        ∷ [])
    × ((more : List UpstreamEndpoint) × (c.upstreams ≡ sc.upstreams ++ more))

module _ (hash_password : String → String → String) (sha256_hex : String → String)
    (sc : StoredConfig) (req : SetupReq) (salt secret : String) where
  abbrev Claimed : StoredConfig → Type 0
  Claimed = Claims req.username (hash_password salt req.password) sc

  adopt-Claimed : Claimed (adopt req.username (hash_password salt req.password) sc)
  unfolding adopt with_users with_keys with_clients
  adopt-Claimed = (refl, ([], sym (append-nil sc.upstreams)))

  with_groups-Claimed :
      (gs : List SetupGroup) (c : StoredConfig) → Claimed c → Claimed (with_groups req gs c)
  unfolding with_groups push_keys with_keys with_base_url
  with_groups-Claimed [] c h = h
  with_groups-Claimed (g ∷ gs) c (root, (more, kept)) =
      let later = later_groups req.username gs in
      (root, (more ++ later, ap (λ eps. eps ++ later) kept ∙ append_assoc sc.upstreams more later))

  claimed-Claimed : Claimed (claimed hash_password sha256_hex req salt secret sc)
  unfolding claimed with_base_url with_clients
  claimed-Claimed =
      by_given Claimed req.create_client_key _ _ (λ name c h. h)
        (with_groups-Claimed req.groups _
          (by_given Claimed req.base_url _ _ (λ b c h. h) adopt-Claimed))

-- A key of some endpoint group has an owner other than the claimant.
abbrev pub Orphaned : String → StoredConfig → Type 0
Orphaned username sc = Any (λ ep. Any (λ k. k.owner ≢ username) ep.keys) sc.upstreams

superuser_root :
    (root : User) (c : StoredConfig)
    → is_superuser root.role ≡ true
    → c.users ≡ root ∷ []
    → superuser_of c ≡ some root
unfolding superuser_of find_superuser
superuser_root root c top users =
    subst (λ us. find_superuser us ≡ some root) (sym users) (rw (top) refl)

owner_of_root :
    (root : User) (c : StoredConfig) (owner : String)
    → c.users ≡ root ∷ []
    → Known c owner
    → owner ≡ root.username
unfolding user_of find_user
owner_of_root root c owner users known =
    let test : is_some (find_user owner (root ∷ [])) ≡ true =
      subst (λ us. is_some (find_user owner us) ≡ true) users known in
    ground (arith, string_eq.beq_iff root.username owner)

no_orphan_key :
    (root : User) (c : StoredConfig) (ks : List NimKey)
    → c.users ≡ root ∷ []
    → All (λ k. Known c k.owner) ks
    → Any (λ k. k.owner ≢ root.username) ks
    → ⊥
no_orphan_key root c [] users known h = h
no_orphan_key root c (k ∷ ks) users known h = elim h [
  | inl here ↦ here (owner_of_root root c k.owner users known.0)
  | inr later ↦ no_orphan_key root c ks users known.1 later
]

no_orphan :
    (root : User) (c : StoredConfig) (eps more : List UpstreamEndpoint)
    → c.users ≡ root ∷ []
    → All (λ ep. All (λ k. Known c k.owner) ep.keys) (eps ++ more)
    → Any (λ ep. Any (λ k. k.owner ≢ root.username) ep.keys) eps
    → ⊥
no_orphan root c [] more users known h = h
no_orphan root c (ep ∷ eps) more users known h = elim h [
  | inl here ↦ no_orphan_key root c ep.keys users known.0 here
  | inr later ↦ no_orphan root c eps more users known.1 later
]

module _ (hash_password : String → String → String) (sha256_hex : String → String) where
  claimed_fails :
      (sc : StoredConfig) (req : SetupReq) (salt secret : String)
      → Orphaned req.username sc
      → Passes (validate (claimed hash_password sha256_hex req salt secret sc))
      → ⊥
  claimed_fails sc req salt secret orphan valid =
      let c = claimed hash_password sha256_hex req salt secret sc in
      let root : User = record {
        username = req.username;
        password_hash = hash_password salt req.password;
        role = Role.superuser;
        locale = none;
      } in
      let (users, (more, kept)) = claimed-Claimed hash_password sha256_hex sc req salt secret in
      let owned : Owned c (superuser_of c) =
        ((validate-WellFormed c).0 valid).1.1.1.1.1.1.1.1.1.1.1.1 in
      let there : superuser_of c ≡ some root = superuser_root root c refl users in
      let rules : Owned c (some root) = subst (Owned c) there owned in
      no_orphan root c sc.upstreams more users
        (subst (All (λ ep. All (λ k. Known c k.owner) ep.keys)) kept rules.1.0) orphan

  -- A claim never succeeds on a store in which an endpoint group holds a key of an owner other than
  -- the claimant: it is answered with an error and changes nothing, whatever else it carries.
  pub setup_submit-Orphaned :
      (saved : Bool) (now : ℕ) (required admitted : Bool) (s : Server) (req : SetupReq)
      (salt secret : String)
      → Orphaned req.username s.store
      → let r =
          setup_submit hash_password sha256_hex saved now required admitted s req salt secret in
        (is_error r.0 ≡ true) × (r.1 ≡ s)
  unfolding setup_submit setup_edit settle answer commit on_valid is_error
  setup_submit-Orphaned saved now required admitted s req salt secret orphan =
      let done =
        Response.setup_answer req.username (hash_password salt req.password)
          (shown hash_password sha256_hex req secret) in
      let Refused : Result Response StoredConfig → Type 0 =
        λ e. let r = settle saved now done Flush.claim s e in (is_error r.0 ≡ true) × (r.1 ≡ s) in
      elim (Result-cases (validate (claimed hash_password sha256_hex req salt secret s.store))) [
        | inl (e, q) ↦
            by_test Refused required
              (λ on.
                by_test Refused (is_weak req.password) (λ weak. (refl, refl))
                  (λ strong.
                    by_test Refused admitted
                      (λ go.
                        by_test Refused (is_some (superuser_of s.store)) (λ won. (refl, refl))
                          (λ free. rw (q) (refl, refl)))
                      (λ busy. (refl, refl))))
              (λ off. (refl, refl))
        | inr (a, q) ↦ absurd (claimed_fails s.store req salt secret orphan q)
      ]
