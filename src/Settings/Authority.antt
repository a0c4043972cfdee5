-- ===== src/Settings/Authority.antt =====
-- A caller of src/settings.rs that is no administrator changes nothing but what it owns.
use open_proxy.Common.{
  String, Bool, ◌≡◌, refl, ap, inl, inr, Option, none, some, List, map, any, ◌==◌, string_eq,
  Option-cases, Result,
}
use open_proxy.Config.Types.{Role, NimKey, ClientKey, User, UpstreamEndpoint, StoredConfig}
use open_proxy.Config.Views.{primary_upstream, is_admin}
use open_proxy.Settings.State.{Response, role_of, with_role, admin_only}
use open_proxy.Settings.Edits.{find_first, retain, if_given}
use open_proxy.Settings.NimKeys.{
  AddNimKey, SetNimKey, NimKeysReq, with_keys, push_key, new_key, edit_groups, edit_primary,
  edit_key, allowed, set_fields, remove_key, set_key, nim_keys_action, nim_keys_edit,
}
use open_proxy.Settings.Clients.{
  ClientsReq, with_clients, revoke, set_mode, new_client, clients_action, clients_edit,
}
use open_proxy.Settings.Gives.{Gives, by_if}
use open_proxy.Settings.Owned.{
  not_own, others_keys, others_user, others, own_test, retain-append, retain-remove_first,
  retain-update_first, map-update_first, Touches, Edited, edit_groups-Edited,
}

module _ (sc : StoredConfig) (username : String) where
  abbrev pub Left : StoredConfig → Type 0
  Left c = others username c ≡ others username sc

  with_keys-Left :
      (ks : List NimKey)
      → retain (λ k. not_own username k.owner) ks
        ≡ retain (λ k. not_own username k.owner) sc.upstream.nim_keys
      → Left (with_keys ks sc)
  unfolding others with_keys
  with_keys-Left ks e =
      ap (λ kept. record (others username sc) { upstream = record sc.upstream { nim_keys = kept } })
        e

  with_groups-Left :
      (eps : List UpstreamEndpoint)
      → map (others_keys username) eps ≡ map (others_keys username) sc.upstreams
      → Left (record sc { upstreams = eps })
  unfolding others
  with_groups-Left eps e = ap (λ kept. record (others username sc) { upstreams = kept }) e

  with_clients-Left :
      (cs : List ClientKey)
      → retain (λ c. not_own username c.owner) cs
        ≡ retain (λ c. not_own username c.owner) sc.client_auth.keys
      → Left (with_clients cs sc)
  unfolding others with_clients
  with_clients-Left cs e =
      ap
        (λ kept. record (others username sc) {
          client_auth = record sc.client_auth { keys = kept };
        })
        e

  pub with_users-Left :
      (us : List User)
      → map (others_user username) us ≡ map (others_user username) sc.users
      → Left (record sc { users = us })
  unfolding others
  with_users-Left us e = ap (λ kept. record (others username sc) { users = kept }) e

  push_key-Left :
      (group : String) (k : NimKey) → k.owner ≡ username → Gives Left (push_key group k sc)
  unfolding push_key
  push_key-Left group k own =
      let mine = own_test username k.owner own in
      by_if Left (group == primary_upstream) _ _
        (λ on. with_keys-Left _ (retain-append _ sc.upstream.nim_keys k mine))
        (λ off.
          by_if Left (any (λ ep. ep.name == group) sc.upstreams) _ _
            (λ on. with_groups-Left _ (
              map-update_first (others_keys username) _ _ sc.upstreams
                (λ ep e. ap (λ ks. record ep { keys = ks }) (retain-append _ ep.keys k mine))))
            (λ none_so. tt))

  allowed-Left :
      (p : NimKey → Bool) (change : List NimKey → List NimKey)
      → Touches username p change
      → Gives Left (allowed username Role.user (edit_key p change sc))
  unfolding edit_key edit_primary allowed is_admin
  allowed-Left p change touches =
      from (edit_groups p change sc.upstreams) (find_first p sc.upstream.nim_keys)
        (edit_groups-Edited username p change touches sc.upstreams) refl
    where
      from :
          (later : Option (NimKey × List UpstreamEndpoint)) (found : Option NimKey)
          → Edited username p change touches sc.upstreams later
          → find_first p sc.upstream.nim_keys ≡ found
          → Gives Left (allowed username Role.user (edit_primary p change sc later found))
      from later (some k) h e =
          by_if Left (k.owner == username) _ _
            (λ own.
              with_keys-Left _
                (touches sc.upstream.nim_keys k e ((string_eq.beq_iff k.owner username).0 own)))
            (λ off. tt)
      from none none h e = tt
      from (some (k, eps)) none h e =
          by_if Left (k.owner == username) _ _
            (λ own. with_groups-Left eps (h ((string_eq.beq_iff k.owner username).0 own)))
            (λ off. tt)

  owner-set_fields : (set : SetNimKey) (k : NimKey) → (set_fields set k).owner ≡ k.owner
  unfolding set_fields if_given
  owner-set_fields set k = elim (Option-cases set.enabled) [
    | inl e ↦ elim (Option-cases set.rpm) [ inl r ↦ rw (e, r) refl | inr (n, r) ↦ rw (e, r) refl ]
    | inr (b, e) ↦ elim (Option-cases set.rpm) [
      | inl r ↦ rw (e, r) refl
      | inr (n, r) ↦ rw (e, r) refl
    ]
  ]

  pub nim_keys-Left :
      (sha256_hex : String → String) (req : NimKeysReq)
      → role_of sc username ≡ some Role.user
      → Gives Left (nim_keys_edit sha256_hex sc username req)
  unfolding nim_keys_edit with_role nim_keys_action remove_key set_key new_key
  nim_keys-Left sha256_hex req plain = rw (plain) (from req.add req.remove req.set)
    where
      from :
          (add : Option AddNimKey) (remove : Option String) (set : Option SetNimKey)
          → Gives Left (nim_keys_action sha256_hex sc username Role.user add remove set)
      from (some add) none none = push_key-Left _ _ refl
      from none (some fp) none =
          allowed-Left _ _
            (λ ks k e own. retain-remove_first _ _ ks k e (own_test username k.owner own))
      from none none (some set) = allowed-Left _ _ (λ ks k e own.
          retain-update_first _ _ (set_fields set) ks k e (own_test username k.owner own)
            (λ l. ap (not_own username) (owner-set_fields set l)))
      from none none none = tt
      from none (some fp) (some set) = tt
      from (some add) none (some set) = tt
      from (some add) (some fp) set = tt

  revoke-Left :
      (name : String) (o : Option ClientKey)
      → find_first (λ k. k.name == name) sc.client_auth.keys ≡ o
      → Gives Left (revoke sc username Role.user name o)
  unfolding revoke is_admin
  revoke-Left name none e = tt
  revoke-Left name (some c) e =
      by_if Left (c.owner == username) _ _
        (λ own. with_clients-Left _ (
          retain-remove_first _ _ sc.client_auth.keys c e
            (own_test username c.owner ((string_eq.beq_iff c.owner username).0 own))))
        (λ off. tt)

  pub clients-Left :
      (sha256_hex : String → String) (req : ClientsReq) (secret : String)
      → role_of sc username ≡ some Role.user
      → Gives Left (clients_edit sha256_hex sc username req secret)
  unfolding clients_edit with_role clients_action set_mode is_admin new_client
  clients-Left sha256_hex req secret plain = rw (plain) (from req.add req.remove req.mode)
    where
      from :
          (add remove mode : Option String)
          → Gives Left (clients_action sha256_hex sc username Role.user secret add remove mode)
      from (some name) none none =
          with_clients-Left _
            (retain-append _ sc.client_auth.keys _ (own_test username username refl))
      from none (some name) none = revoke-Left name _ refl
      from none none (some mode) = tt
      from none none none = tt
      from none (some name) (some mode) = tt
      from (some name) none (some mode) = tt
      from (some name) (some old) mode = tt

  pub admin_only-Left :
      (next : Result Response StoredConfig)
      → role_of sc username ≡ some Role.user
      → Gives Left (admin_only sc username next)
  unfolding admin_only with_role is_admin
  admin_only-Left next plain = rw (plain) tt
