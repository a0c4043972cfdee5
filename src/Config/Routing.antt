-- ===== src/Config/Routing.antt =====
-- `Config::route_model` of src/lib.rs: which endpoint groups may serve a model.
use open_proxy.Common.{
  by_test, ℕ, zero, suc, ◌+◌, ◌≡◌, refl, subst, ◌⊎◌, inl, inr, ◌↔◌, String, Bool, true, false, not,
  Option, none, some, List, [], ◌∷◌, ◌++◌, get_elem?, if◌then◌else◌, Bool-cases, contains,
  string_eq, nat_eq, arith,
}
use open_proxy.Config.Types.{EndpointRuntime, Config}

abbrev pub is_nil : {A : Type 0} → List A → Bool
is_nil [] = true
is_nil (x ∷ xs) = false

-- The two lists that the loop grows, from index `i` on: specific groups, then catch-alls.
unfoldable pub sort_groups : String → ℕ → List EndpointRuntime → List ℕ → List ℕ → List ℕ × List ℕ
sort_groups model i [] specific catch_all = (specific, catch_all)
sort_groups model i (ep ∷ eps) specific catch_all =
    let skip = sort_groups model (i + 1) eps specific catch_all in
    let to_all = sort_groups model (i + 1) eps specific (catch_all ++ i ∷ []) in
    let to_specific = sort_groups model (i + 1) eps (specific ++ i ∷ []) catch_all in
    if not ep.enabled
    then skip
    else if is_nil ep.models
    then to_all
    else if contains ep.models model
    then to_specific
    else skip

-- `Config::route_model`: `none` where the model is disabled.
unfoldable pub route_model : Config → String → Option (List ℕ)
route_model cfg model =
    if contains cfg.disabled_models model
    then none
    else let (specific, catch_all) = sort_groups model 0 cfg.endpoints [] [] in
      some (if is_nil specific then catch_all else specific)

-- A group that lists the model, and one that serves every model.
abbrev pub Lists : String → EndpointRuntime → Type 0
Lists model ep =
    (ep.enabled ≡ true) × (is_nil ep.models ≡ false) × (contains ep.models model ≡ true)

abbrev pub CatchesAll : EndpointRuntime → Type 0
CatchesAll ep = (ep.enabled ≡ true) × (is_nil ep.models ≡ true)

-- The group at an index has a property.
abbrev pub At : (EndpointRuntime → Type 0) → List EndpointRuntime → ℕ → Type 0
At P eps j = (ep : EndpointRuntime) × (get_elem? eps j ≡ some ep) × P ep

-- Membership in the lists, after a push.
contains-push :
    (js : List ℕ) (i j : ℕ)
    → (contains (js ++ i ∷ []) j ≡ true) ↔ ((contains js j ≡ true) ⊎ (i ≡ j))
unfolding contains
contains-push [] i j = ground arith
contains-push (k ∷ js) i j = let rest = contains-push js i j in ground arith

At-zero :
    (P : EndpointRuntime → Type 0) (ep : EndpointRuntime) (eps : List EndpointRuntime)
    → P ep
    → At P (ep ∷ eps) 0
At-zero P ep eps p = (ep, refl, p)

-- What a list holds after the loop: what it held, and the groups with the property, from `i` on.
abbrev Gained : (EndpointRuntime → Type 0) → ℕ → List EndpointRuntime → List ℕ → List ℕ → Type 0
Gained P i eps before after =
    (j : ℕ)
    → (contains after j ≡ true)
      ↔ ((contains before j ≡ true) ⊎ ((k : ℕ) × (j ≡ i + k) × At P eps k))

Gained-none : (P : EndpointRuntime → Type 0) (i : ℕ) (js : List ℕ) → Gained P i [] js js
Gained-none P i js j =
    (λ h. inl h, λ h. elim h [ inl a ↦ a | inr (k, e, (ep, f, p)) ↦ absurd (ground arith) ])

Gained-skip :
    (P : EndpointRuntime → Type 0) (i : ℕ) (ep : EndpointRuntime) (eps : List EndpointRuntime)
    (before after : List ℕ)
    → (P ep → ⊥)
    → Gained P (i + 1) eps before after
    → Gained P i (ep ∷ eps) before after
Gained-skip P i ep eps before after never g j = (
  λ h. elim ((g j).0 h) [ inl a ↦ inl a | inr (k, e, a) ↦ inr (suc k, omega arith, a) ],
  λ h. elim h [
    | inl a ↦ (g j).1 (inl a)
    | inr (zero, e, (x, f, p)) ↦ absurd (never (let q : x ≡ ep = cc in subst P q p))
    | inr (suc k, e, a) ↦ (g j).1 (inr (k, omega arith, a))
  ],
)

Gained-push :
    (P : EndpointRuntime → Type 0) (i : ℕ) (ep : EndpointRuntime) (eps : List EndpointRuntime)
    (before after : List ℕ)
    → P ep
    → Gained P (i + 1) eps (before ++ i ∷ []) after
    → Gained P i (ep ∷ eps) before after
Gained-push P i ep eps before after p g j = (
  λ h. elim ((g j).0 h) [
    | inl a ↦ elim ((contains-push before i j).0 a) [
      | inl b ↦ inl b
      | inr e ↦ inr (0, omega arith, At-zero P ep eps p)
    ]
    | inr (k, e, a) ↦ inr (suc k, omega arith, a)
  ],
  λ h. elim h [
    | inl a ↦ (g j).1 (inl ((contains-push before i j).1 (inl a)))
    | inr (zero, e, a) ↦ (g j).1 (inl ((contains-push before i j).1 (inr (omega arith))))
    | inr (suc k, e, a) ↦ (g j).1 (inr (k, omega arith, a))
  ],
)

abbrev GainedBoth : String → ℕ → List EndpointRuntime → List ℕ → List ℕ → List ℕ × List ℕ → Type 0
GainedBoth model i eps sp ca r = Gained (Lists model) i eps sp r.0 × Gained CatchesAll i eps ca r.1

skip_both :
    (model : String) (i : ℕ) (ep : EndpointRuntime) (eps : List EndpointRuntime) (sp ca : List ℕ)
    (r : List ℕ × List ℕ)
    → (Lists model ep → ⊥)
    → (CatchesAll ep → ⊥)
    → GainedBoth model (i + 1) eps sp ca r
    → GainedBoth model i (ep ∷ eps) sp ca r
skip_both model i ep eps sp ca r l c (a, b) =
    (Gained-skip (Lists model) i ep eps sp r.0 l a, Gained-skip CatchesAll i ep eps ca r.1 c b)

sort_groups-Gained :
    (model : String) (i : ℕ) (eps : List EndpointRuntime) (sp ca : List ℕ)
    → GainedBoth model i eps sp ca (sort_groups model i eps sp ca)
unfolding sort_groups
sort_groups-Gained model i [] sp ca = (Gained-none (Lists model) i sp, Gained-none CatchesAll i ca)
sort_groups-Gained model i (ep ∷ eps) sp ca =
    let skip = sort_groups-Gained model (i + 1) eps sp ca in
    let (a, b) = sort_groups-Gained model (i + 1) eps sp (ca ++ i ∷ []) in
    let (c, d) = sort_groups-Gained model (i + 1) eps (sp ++ i ∷ []) ca in
    by_test (GainedBoth model i (ep ∷ eps) sp ca) (not ep.enabled)
      (λ e.
        skip_both model i ep eps sp ca (sort_groups model (i + 1) eps sp ca) (λ h. ground arith)
          (λ h. ground arith) skip)
      (λ e.
        by_test (GainedBoth model i (ep ∷ eps) sp ca) (is_nil ep.models)
          (λ f. (
            Gained-skip (Lists model) i ep eps sp
                (sort_groups model (i + 1) eps sp (ca ++ i ∷ [])).0 (λ h. ground arith) a,
            Gained-push CatchesAll i ep eps ca (sort_groups model (i + 1) eps sp (ca ++ i ∷ [])).1
                (ground arith, f) b,
          ))
          (λ f.
            by_test (GainedBoth model i (ep ∷ eps) sp ca) (contains ep.models model)
              (λ g. (
                Gained-push (Lists model) i ep eps sp
                    (sort_groups model (i + 1) eps (sp ++ i ∷ []) ca).0 (ground arith, f, g) c,
                Gained-skip CatchesAll i ep eps ca
                    (sort_groups model (i + 1) eps (sp ++ i ∷ []) ca).1 (λ h. ground arith) d,
              ))
              (λ g.
                skip_both model i ep eps sp ca (sort_groups model (i + 1) eps sp ca)
                  (λ h. ground arith) (λ h. ground arith) skip)))

contains_head : (k : ℕ) (js : List ℕ) → contains (k ∷ js) k ≡ true
unfolding contains
contains_head k js = ground arith

contains_nil : (j : ℕ) → contains [] j ≡ true → ⊥
unfolding contains
contains_nil j h = ground arith

-- What the groups that may serve a model are: those that list it if there are any, otherwise
-- those that serve every model.
abbrev pub MayServe : String → List EndpointRuntime → ℕ → Type 0
MayServe model eps j =
    At (Lists model) eps j ⊎ (((k : ℕ) → At (Lists model) eps k → ⊥) × At CatchesAll eps j)

from_start :
    (P : EndpointRuntime → Type 0) (eps : List EndpointRuntime) (js : List ℕ)
    → Gained P 0 eps [] js
    → (j : ℕ) → (contains js j ≡ true) ↔ At P eps j
unfolding contains
from_start P eps js g j = (
  λ h. elim ((g j).0 h) [
    | inl a ↦ absurd (ground arith)
    | inr (k, e, a) ↦ let q : k ≡ j = omega arith in subst (At P eps) q a
  ],
  λ a. (g j).1 (inr (j, omega arith, a)),
)

-- The specific groups win over the catch-alls.
choose :
    (model : String) (eps : List EndpointRuntime) (r : List ℕ × List ℕ)
    → GainedBoth model 0 eps [] [] r
    → (j : ℕ) → (contains (if is_nil r.0 then r.1 else r.0) j ≡ true) ↔ MayServe model eps j
choose model eps ([], ca) (a, b) j = (
  λ h. inr (
    λ k l. contains_nil k ((from_start (Lists model) eps [] a k).1 l),
    (from_start CatchesAll eps ca b j).0 h,
  ),
  λ m. elim m [
    | inl l ↦ absurd (contains_nil j ((from_start (Lists model) eps [] a j).1 l))
    | inr (never, c) ↦ (from_start CatchesAll eps ca b j).1 c
  ],
)
choose model eps (s ∷ sp, ca) (a, b) j = (
  λ h. inl ((from_start (Lists model) eps (s ∷ sp) a j).0 h),
  λ m. elim m [
    | inl l ↦ (from_start (Lists model) eps (s ∷ sp) a j).1 l
    | inr (never, c) ↦
        absurd (never s ((from_start (Lists model) eps (s ∷ sp) a s).0 (contains_head s sp)))
  ],
)

-- An enabled model is routed to exactly the groups that may serve it: the enabled groups that list
-- it if there are any, otherwise the enabled groups without an allowlist. A disabled one is not
-- routed at all.
pub route_model_lem :
    (cfg : Config) (model : String)
    → ((contains cfg.disabled_models model ≡ true) × (route_model cfg model ≡ none))
      ⊎ ((contains cfg.disabled_models model ≡ false)
          × (js : List ℕ) × (route_model cfg model ≡ some js)
          × ((j : ℕ) → (contains js j ≡ true) ↔ MayServe model cfg.endpoints j))
unfolding route_model
route_model_lem cfg model = elim (Bool-cases (contains cfg.disabled_models model)) [
  | inl e ↦ inl (e, rw e)
  | inr e ↦
      inr
        (e, _, rw e, choose model cfg.endpoints _ (sort_groups-Gained model 0 cfg.endpoints [] []))
]
