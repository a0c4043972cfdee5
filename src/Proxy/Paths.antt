-- ===== src/Proxy/Paths.antt =====
-- `label_path` and `per_model_path_id` of src/proxy.rs. `decode` stands for the percent decoding, of
-- which nothing is assumed.
use open_proxy.Common.{
  String, ◌≡◌, refl, true, Option, none, some, List, [], ◌∷◌, ◌++◌, if◌then◌else◌, contains,
  is_some, string_eq, by_test, arith,
}
use open_proxy.Config.Text.{strip_text, is_nonempty}

-- The paths that are their own labels.
abbrev pub endpoint_paths : List String
endpoint_paths =
    "/v1/chat/completions" ∷ "/v1/completions" ∷ "/v1/embeddings" ∷ "/v1/models" ∷ "/v1/rankings"
    ∷ []

abbrev pub path_labels : List String
path_labels = endpoint_paths ++ "other" ∷ []

module _ (decode : String → String) where
  unless_empty : String → Option String
  unless_empty raw = if is_nonempty raw then some (decode raw) else none

  unfoldable pub per_model_path_id : String → Option String
  unfolding unless_empty
  per_model_path_id path = elim (strip_text "/v1/models/" path) [
    | none ↦ none
    | some raw ↦ unless_empty raw
  ]

  unfoldable pub label_path : String → String
  label_path path =
      if contains endpoint_paths path
      then path
      else if is_some (per_model_path_id path)
      then "/v1/models"
      else "other"

contains-append_left :
    (xs ys : List String) (s : String) → contains xs s ≡ true → contains (xs ++ ys) s ≡ true
unfolding contains
contains-append_left [] ys s h = absurd (ground arith)
contains-append_left (x ∷ xs) ys s h = let rest = contains-append_left xs ys s in ground arith

abbrev InLabels : String → Type 0
InLabels s = contains path_labels s ≡ true

-- Whatever path a client asks for, its label is one of six: the five endpoints and `other`.
contains-label_path :
    (decode : String → String) (path : String)
    → contains path_labels (label_path decode path) ≡ true
unfolding label_path contains
contains-label_path decode path =
    by_test InLabels (contains endpoint_paths path)
      (λ e. contains-append_left endpoint_paths ("other" ∷ []) path e)
      (λ e. by_test InLabels (is_some (per_model_path_id decode path)) (λ f. refl) (λ f. refl))
