-- ===== src/Settings/Floor.antt =====
-- The pool floor of src/config.rs, seen from the pool: a claimed server sends on a key of its
-- superuser.
use open_proxy.Common.{
  ℕ, ◌+◌, String, Bool, true, ◌≡◌, sym, subst, inl, inr, some, List, [], ◌∷◌, ◌++◌, map, contains,
  string_eq, Any, refl, ◌⊎◌, arith, ◌&&◌,
}
use open_proxy.Pool.{keep}
use open_proxy.Pool.Lanes.{LaneSpec}
use open_proxy.Pool.Rebuild.{enabled_specs}
use open_proxy.Config.Types.{NimKey, UpstreamEndpoint, User, StoredConfig}
use open_proxy.Config.Views.{primary_upstream, superuser_of, lane_spec, group_specs, pool_specs}
use open_proxy.Config.Wellformed.{Floor, Owned}
use open_proxy.Config.Rulebook.{validate-WellFormed}
use open_proxy.Settings.State.{Server}
use open_proxy.Settings.Calls.{Turn, run}
use open_proxy.Settings.Written.{Consistent, serving, run-Consistent}

abbrev sent_keys : List LaneSpec → List String
sent_keys specs = map (λ s. s.key) (enabled_specs specs)

-- The key stands in a group that is enabled: the primary one, or one of the others.
abbrev pub Listed : StoredConfig → NimKey → Type 0
Listed sc k =
    ((sc.upstream.enabled ≡ true) × Any (λ x. x ≡ k) sc.upstream.nim_keys)
    ⊎ Any (λ ep. (ep.enabled ≡ true) × Any (λ x. x ≡ k) ep.keys) sc.upstreams

-- One of the keys is an enabled key of the store, in an enabled group, and the user's own.
abbrev pub Sends : StoredConfig → String → List String → Type 0
Sends sc su keys =
    (k : NimKey) × Listed sc k × (k.enabled ≡ true) × (k.owner ≡ su) × (contains keys k.key ≡ true)

-- Which key of a list, and of which group, meets the floor.
listed_key :
    (su : String) (ks : List NimKey)
    → Any (Floor su) ks
    → (k : NimKey) × Floor su k × Any (λ x. x ≡ k) ks
listed_key su [] h = elim h [ ]
listed_key su (k ∷ ks) (inl here) = (k, here, inl refl)
listed_key su (k ∷ ks) (inr there) = let (l, f, m) = listed_key su ks there in (l, f, inr m)

listed_group :
    (su : String) (eps : List UpstreamEndpoint)
    → Any (λ ep. (ep.enabled ≡ true) × Any (Floor su) ep.keys) eps
    → (k : NimKey) × Floor su k × Any (λ ep. (ep.enabled ≡ true) × Any (λ x. x ≡ k) ep.keys) eps
listed_group su [] h = elim h [ ]
listed_group su (ep ∷ eps) (inl here) =
    let (k, f, m) = listed_key su ep.keys here.1 in (k, f, inl (here.0, m))
listed_group su (ep ∷ eps) (inr there) = let (k, f, m) = listed_group su eps there in (k, f, inr m)

sent_behind :
    (s : LaneSpec) (specs : List LaneSpec) (key : String)
    → contains (sent_keys specs) key ≡ true
    → contains (sent_keys (s ∷ specs)) key ≡ true
unfolding contains keep
sent_behind s specs key h = ground arith

sent_here :
    (s : LaneSpec) (specs : List LaneSpec)
    → s.enabled ≡ true
    → contains (sent_keys (s ∷ specs)) s.key ≡ true
unfolding contains keep
sent_here s specs h = ground (arith, string_eq.beq_iff s.key s.key)

sent_after :
    (front specs : List LaneSpec) (key : String)
    → contains (sent_keys specs) key ≡ true
    → contains (sent_keys (front ++ specs)) key ≡ true
sent_after [] specs key h = h
sent_after (s ∷ front) specs key h =
    sent_behind s (front ++ specs) key (sent_after front specs key h)

-- An enabled key of the store is sent on where its group is enabled.
module _ (k : NimKey) (on : k.enabled ≡ true) where
  sent_group :
      (name url : String) (i : ℕ) (group options : Bool) (ks : List NimKey) (rest : List LaneSpec)
      → group ≡ true
      → Any (λ x. x ≡ k) ks
      → contains (sent_keys (map (lane_spec i name url group options) ks ++ rest)) k.key ≡ true
  sent_group name url i group options [] rest lit h = elim h [ ]
  sent_group name url i group options (x ∷ ks) rest lit (inl here) =
      let both : (x.enabled && group) ≡ true = ground arith in
      let tail = map (lane_spec i name url group options) ks ++ rest in
      subst (λ y. contains (sent_keys (lane_spec i name url group options x ∷ tail)) y.key ≡ true)
        here (sent_here (lane_spec i name url group options x) tail both)
  sent_group name url i group options (x ∷ ks) rest lit (inr there) =
      sent_behind (lane_spec i name url group options x) _ k.key
        (sent_group name url i group options ks rest lit there)

  sent_groups :
      (i : ℕ) (eps : List UpstreamEndpoint)
      → Any (λ ep. (ep.enabled ≡ true) × Any (λ x. x ≡ k) ep.keys) eps
      → contains (sent_keys (group_specs i eps)) k.key ≡ true
  unfolding group_specs
  sent_groups i [] h = elim h [ ]
  sent_groups i (ep ∷ eps) (inl here) =
      sent_group ep.name ep.base_url i ep.enabled ep.supports_stream_options ep.keys _ here.0 here.1
  sent_groups i (ep ∷ eps) (inr there) =
      sent_after
        (map (lane_spec i ep.name ep.base_url ep.enabled ep.supports_stream_options) ep.keys)
        (group_specs (i + 1) eps) k.key (sent_groups (i + 1) eps there)

  sent_Listed :
      (sc : StoredConfig) → Listed sc k → contains (sent_keys (pool_specs sc)) k.key ≡ true
  unfolding pool_specs
  sent_Listed sc (inl here) =
      sent_group primary_upstream sc.upstream.base_url 0 sc.upstream.enabled
        sc.upstream.supports_stream_options sc.upstream.nim_keys _ here.0 here.1
  sent_Listed sc (inr there) =
      sent_after
        (map
          (lane_spec 0 primary_upstream sc.upstream.base_url sc.upstream.enabled
            sc.upstream.supports_stream_options)
          sc.upstream.nim_keys)
        (group_specs 1 sc.upstreams) k.key (sent_groups 1 sc.upstreams there)

sent_floor :
    (sc : StoredConfig) (su : User)
    → Owned sc (some su)
    → Sends sc su.username (sent_keys (pool_specs sc))
sent_floor sc su h = elim h.1.1.1 [
  | inl here ↦
      let (k, f, m) = listed_key su.username sc.upstream.nim_keys here.1 in
      (k, inl (here.0, m), f.0, f.1, sent_Listed k f.0 sc (inl (here.0, m)))
  | inr there ↦
      let (k, f, m) = listed_group su.username sc.upstreams there in
      (k, inr m, f.0, f.1, sent_Listed k f.0 sc (inr m))
]

serving-Sends :
    (s : Server) (su : User)
    → Consistent s
    → superuser_of s.store ≡ some su
    → Sends s.store su.username (serving s.pool)
serving-Sends s su (valid, disk, cfg, sent) claimed =
    let rules = (validate-WellFormed s.store).0 valid in
    let owned : Owned s.store (superuser_of s.store) = rules.1.1.1.1.1.1.1.1.1.1.1.1 in
    let floor = sent_floor s.store su (subst (Owned s.store) claimed owned) in
    subst (Sends s.store su.username) (sym sent) floor

module _ (sha256_hex : String → String) (hash_password : String → String → String)
    (verify_password : String → String → Bool) where
  -- After any number of calls on a consistent server, while the store has a superuser, one of the keys
  -- that requests are sent on is that of an enabled key of the store, in an enabled group, that the
  -- superuser owns: no call, its own included, can leave the pool without one.
  pub run-Sends :
      (s : Server) (turns : List Turn) (su : User)
      → Consistent s
      → let s' = run sha256_hex hash_password verify_password s turns in
        superuser_of s'.store ≡ some su → Sends s'.store su.username (serving s'.pool)
  run-Sends s turns su h =
      serving-Sends (run sha256_hex hash_password verify_password s turns) su
        (run-Consistent sha256_hex hash_password verify_password s turns h)
