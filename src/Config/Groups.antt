-- ===== src/Config/Groups.antt =====
-- When `validate_models_list` and the loop over the endpoint groups pass.
use open_proxy.Common.{
  ◌≤◌, String, ◌≡◌, ◌≢◌, refl, ap, subst, ◌↔◌, true, false, not, List, [], ◌∷◌, map, nat_eq, ◌==◌,
  string_eq, length, ok, All, contains, arith,
}
use open_proxy.Config.Types.{UpstreamEndpoint}
use open_proxy.Config.Text.{valid_model_id}
use open_proxy.Config.Views.{primary_upstream}
use open_proxy.Config.Verdict.{
  Rejection, Passes, require, require-Passes, then_iff, Distinct, ◌and◌, Apart-cons, each_new-Good,
  Apart-nil, each_new-Distinct,
}
use open_proxy.Config.Validate.{
  validate_models_list, validate_disabled_models, check_group_name, check_group, validate_upstreams,
}
use open_proxy.Config.Wellformed.{Models, Group, Groups}
use open_proxy.Config.Checks.{same, require_iff, at_most}

map_id : (ms : List String) → map (λ m. m) ms ≡ ms
map_id [] = refl
map_id (m ∷ ms) = ap (λ rest. m ∷ rest) (map_id ms)

check_model :
    (m : String)
    → (Passes (require (valid_model_id m) Rejection.bad_model) × Passes (ok tt))
      ↔ (valid_model_id m ≡ true)
check_model m =
    let valid = require-Passes (valid_model_id m) Rejection.bad_model in
    (λ h. valid.0 h.0, λ v. (valid.1 v, refl))

pub validate_models_list-Models : (ms : List String) → Passes (validate_models_list ms) ↔ Models ms
unfolding validate_models_list
validate_models_list-Models ms =
    subst
      (λ names.
        Passes (validate_models_list ms)
        ↔ (All (λ m. valid_model_id m ≡ true) ms and Distinct names))
      (map_id ms) (each_new-Distinct _ _ _ _ check_model ms)

pub validate_disabled_models-Models :
    (ms : List String) → Passes (validate_disabled_models ms) ↔ ((length ms ≤ 256) and Models ms)
unfolding validate_disabled_models
validate_disabled_models-Models ms = then_iff _ _ (at_most _ _ _) (validate_models_list-Models ms)

differs : (x y : String) → (not (x == y) ≡ true) ↔ (x ≢ y)
differs x y = ground (arith, string_eq.beq_iff x y)

Named : UpstreamEndpoint → Type 0
Named ep = (ep.name ≢ primary_upstream) × Group ep

check_group-Named :
    (ep : UpstreamEndpoint) → (Passes (check_group_name ep) × Passes (check_group ep)) ↔ Named ep
unfolding check_group_name check_group Named
check_group-Named ep =
    let other =
      require_iff (not (ep.name == primary_upstream)) _ (differs ep.name primary_upstream) in
    let names = then_iff _ _ (require-Passes _ _) other in
    let rest = then_iff _ _ same (validate_models_list-Models ep.models) in
    (
      λ h. let n = names.0 h.0 in (n.1, (n.0, rest.0 h.1)),
      λ h. (names.1 (h.1.0, h.0), rest.1 h.1.1),
    )

groups : (eps : List UpstreamEndpoint) → All Named eps → All Group eps
unfolding Named
groups [] h = tt
groups (ep ∷ eps) h = (h.0.1, groups eps h.1)

named :
    (eps : List UpstreamEndpoint)
    → contains (map (λ ep. ep.name) eps) primary_upstream ≡ false
    → All Group eps
    → All Named eps
unfolding Named contains
named [] away h = tt
named (ep ∷ eps) away h =
    let other : (ep.name == primary_upstream) ≡ false = ground arith in
    let later : contains (map (λ e. e.name) eps) primary_upstream ≡ false = ground arith in
    (
      ((λ e. let q = (string_eq.beq_iff ep.name primary_upstream).1 e in absurd (cc)), h.0),
      named eps later h.1,
    )

pub validate_upstreams-Groups :
    (eps : List UpstreamEndpoint) → Passes (validate_upstreams eps) ↔ Groups eps
unfolding validate_upstreams
validate_upstreams-Groups eps =
    let loop =
      each_new-Good (λ ep. ep.name) Rejection.duplicate_upstream check_group_name check_group
        check_group-Named (primary_upstream ∷ []) eps in
    let apart = Apart-cons primary_upstream [] (map (λ ep. ep.name) eps) in
    (
      λ p. let h = loop.0 p in (groups eps h.0, ((apart.0 h.1.0).0, h.1.1)),
      λ h. loop.1 (named eps h.1.0 h.0, (apart.1 (h.1.0, Apart-nil _), h.1.1)),
    )
