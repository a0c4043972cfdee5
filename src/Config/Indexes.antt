-- ===== src/Config/Indexes.antt =====
-- The endpoint indexes of src/config.rs agree between the lanes, the views and the names.
use open_proxy.Common.{
  ℕ, zero, suc, ◌+◌, ◌≡◌, refl, sym, ap, subst, ◌∙◌, String, Bool, true, ◌&&◌, some, List, [], ◌∷◌,
  map, All, All-append, get_elem?, Bool-cases, inl, inr, string_eq, ◌==◌, arith,
}
use open_proxy.Pool.Lanes.{LaneSpec}
use open_proxy.Config.Types.{NimKey, UpstreamEndpoint, EndpointView, StoredConfig}
use open_proxy.Config.Text.{trim_end_slashes}
use open_proxy.Config.Views.{
  primary_upstream, lane_spec, group_specs, pool_specs, endpoint_view, primary_view, endpoints,
  position, endpoint_index,
}

-- A lane's tags are those of the endpoint that its index names.
abbrev pub Tagged : List EndpointView → LaneSpec → Type 0
Tagged views s =
    (v : EndpointView) × (get_elem? views s.endpoint ≡ some v)
    × (v.name ≡ s.upstream)
    × (v.base_url ≡ s.base_url)
    × (v.supports_stream_options ≡ s.supports_stream_options)
    × ((s.enabled ≡ true) → v.enabled ≡ true)

and-right : (a b : Bool) → (a && b) ≡ true → b ≡ true
and-right a b h = ground arith

keys-Tagged :
    (views : List EndpointView) (i : ℕ) (v : EndpointView) (name url : String) (on so : Bool)
    (ks : List NimKey)
    → get_elem? views i ≡ some v
    → v.name ≡ name
    → v.base_url ≡ trim_end_slashes url
    → v.supports_stream_options ≡ so
    → v.enabled ≡ on
    → All (Tagged views) (map (lane_spec i name url on so) ks)
keys-Tagged views i v name url on so [] e a b c d = tt
keys-Tagged views i v name url on so (k ∷ ks) e a b c d = (
  (v, e, a, b, c, λ h. d ∙ and-right k.enabled on h),
  keys-Tagged views i v name url on so ks e a b c d,
)

groups-Tagged :
    (views : List EndpointView) (i : ℕ) (eps : List UpstreamEndpoint)
    → ((k : ℕ) (ep : UpstreamEndpoint)
        → get_elem? eps k ≡ some ep
        → get_elem? views (i + k) ≡ some (endpoint_view ep))
    → All (Tagged views) (group_specs i eps)
unfolding group_specs
groups-Tagged views i [] h = tt
groups-Tagged views i (ep ∷ eps) h =
    All-append (Tagged views)
      (map (lane_spec i ep.name ep.base_url ep.enabled ep.supports_stream_options) ep.keys)
      (group_specs (i + 1) eps)
      (keys-Tagged views i (endpoint_view ep) ep.name ep.base_url ep.enabled
        ep.supports_stream_options ep.keys
        (subst (λ j. get_elem? views j ≡ some (endpoint_view ep)) (omega arith) (h 0 ep refl)) refl
        refl refl refl)
      (groups-Tagged views (i + 1) eps (λ k e g.
        subst (λ j. get_elem? views j ≡ some (endpoint_view e)) (omega arith) (h (suc k) e g)))

get_elem?-map :
    {A B : Type 0}
    → (f : A → B) (xs : List A) (i : ℕ) (a : A) → get_elem? xs i ≡ some a
    → get_elem? (map f xs) i ≡ some (f a)
get_elem?-map f [] i a h = absurd (ground arith)
get_elem?-map f (x ∷ xs) zero a h = let q : x ≡ a = cc in ap (λ y. some (f y)) q
get_elem?-map f (x ∷ xs) (suc i) a h = get_elem?-map f xs i a h

view_at :
    (sc : StoredConfig) (i k : ℕ) (ep : UpstreamEndpoint)
    → i ≡ 1 + k
    → get_elem? sc.upstreams k ≡ some ep
    → get_elem? (endpoints sc) i ≡ some (endpoint_view ep)
unfolding endpoints
view_at sc i k ep q a =
    let r : suc k ≡ i = omega arith in
    subst (λ j. get_elem? (endpoints sc) j ≡ some (endpoint_view ep)) r
      (get_elem?-map endpoint_view sc.upstreams k ep a)

-- Every lane that the pool is given carries the name, the trimmed URL and the stream options of the
-- endpoint that its index names in the endpoint views, and is enabled only if that endpoint is.
pub pool_specs-Tagged : (sc : StoredConfig) → All (Tagged (endpoints sc)) (pool_specs sc)
unfolding pool_specs endpoints
pool_specs-Tagged sc =
    let up = sc.upstream in
    All-append (Tagged (endpoints sc))
      (map (lane_spec 0 primary_upstream up.base_url up.enabled up.supports_stream_options)
        up.nim_keys)
      (group_specs 1 sc.upstreams)
      (keys-Tagged (endpoints sc) 0 (primary_view up) primary_upstream up.base_url up.enabled
        up.supports_stream_options up.nim_keys refl refl refl refl refl)
      (groups-Tagged (endpoints sc) 1 sc.upstreams (λ k ep e. view_at sc (1 + k) k ep refl e))

position-named :
    (name : String) (i j : ℕ) (eps : List UpstreamEndpoint)
    → position name i eps ≡ some j
    → (k : ℕ) × (ep : UpstreamEndpoint) × (j ≡ i + k)
      × (get_elem? eps k ≡ some ep)
      × (ep.name ≡ name)
unfolding position
position-named name i j [] h = absurd (ground arith)
position-named name i j (ep ∷ eps) h = elim (Bool-cases (ep.name == name)) [
  | inl e ↦ (0, ep, ground arith, refl, (string_eq.beq_iff ep.name name).0 e)
  | inr e ↦
      let (k, q, a, b, c) = position-named name (i + 1) j eps (rw e at h) in
      (suc k, q, omega arith, b, c)
]

primary_at :
    (sc : StoredConfig) (i : ℕ)
    → some 0 ≡ some i
    → get_elem? (endpoints sc) i ≡ some (primary_view sc.upstream)
unfolding endpoints
primary_at sc i h =
    let q : 0 ≡ i = cc in
    subst (λ j. get_elem? (endpoints sc) j ≡ some (primary_view sc.upstream)) q refl

-- The index that a group's name finds is that of an endpoint view with this name.
endpoint_index-endpoints :
    (sc : StoredConfig) (name : String) (i : ℕ)
    → endpoint_index sc name ≡ some i
    → (v : EndpointView) × (get_elem? (endpoints sc) i ≡ some v) × (v.name ≡ name)
unfolding endpoint_index endpoints
endpoint_index-endpoints sc name i h = elim (Bool-cases (name == primary_upstream)) [
  | inl e ↦ (
    primary_view sc.upstream,
    primary_at sc i (rw e at h),
    sym ((string_eq.beq_iff name primary_upstream).0 e),
  )
  | inr e ↦
      let (k, ep, q, a, b) = position-named name 1 i sc.upstreams (rw e at h) in
      (endpoint_view ep, view_at sc i k ep q a, b)
]
