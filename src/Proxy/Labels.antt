-- ===== src/Proxy/Labels.antt =====
-- `sanitize_label` of src/proxy.rs.
use Prim.Native.String.{String, [], ◌∷◌, count}
use Prim.Native.String.count as count_clauses
use open_proxy.Common.{
  ℕ, zero, suc, ◌≤◌, ◌≡◌, refl, ap, ◌∙◌, inl, inr, Bool, true, ◌&&◌, if◌then◌else◌, Bool-cases,
  by_test, arith,
}
use open_proxy.Config.Text.{is_model_char, is_nonempty, all_chars, valid_model_id}

-- `chars().filter(…).take(64).collect()`
unfoldable pub cleaned : ℕ → String → String
cleaned zero s = []
cleaned (suc n) [] = []
cleaned (suc n) (c ∷ s) =
    let kept = cleaned n s in
    let skipped = cleaned (suc n) s in if is_model_char c then c ∷ kept else skipped

-- `if cleaned.is_empty() { "none" } else { cleaned }`
abbrev pub or_none : String → String
or_none [] = "none"
or_none (c ∷ s) = c ∷ s

-- `sanitize_label`
unfoldable pub sanitize_label : String → String
sanitize_label raw = or_none (cleaned 64 raw)

abbrev Clean : ℕ → String → Type 0
Clean n s = (all_chars is_model_char s ≡ true) × (count s ≤ n)

and-intro : (a b : Bool) → a ≡ true → b ≡ true → (a && b) ≡ true
and-intro a b p q = ground arith

cleaned-Clean : (n : ℕ) (s : String) → Clean n (cleaned n s)
unfolding cleaned all_chars
cleaned-Clean zero s = (refl, omega arith)
cleaned-Clean (suc n) [] = (refl, omega arith)
cleaned-Clean (suc n) (c ∷ s) =
    let (a, b) = cleaned-Clean n s in
    by_test (Clean (suc n)) (is_model_char c)
      (λ e. (
        and-intro (is_model_char c) (all_chars is_model_char (cleaned n s)) e a,
        omega (arith, count_clauses.cons c (cleaned n s)),
      ))
      (λ e. cleaned-Clean (suc n) s)

-- What a label is: not empty, of at most 64 characters, all of them inert in metrics and logs.
abbrev pub IsLabel : String → Type 0
IsLabel s = (is_nonempty s ≡ true) × Clean 64 s

or_none-IsLabel : (s : String) → Clean 64 s → IsLabel (or_none s)
unfolding all_chars
or_none-IsLabel [] h = (refl, (refl, ground arith))
or_none-IsLabel (c ∷ s) h = (refl, h)

-- Whatever text a client sends, the label made of it is not empty, has at most 64 characters, and
-- holds only letters, digits and `.`, `_`, `-`, `/`, `:`.
pub sanitize_label-IsLabel : (raw : String) → IsLabel (sanitize_label raw)
unfolding sanitize_label
sanitize_label-IsLabel raw = or_none-IsLabel (cleaned 64 raw) (cleaned-Clean 64 raw)

cleaned_clean :
    (n : ℕ) (s : String) → all_chars is_model_char s ≡ true → count s ≤ n → cleaned n s ≡ s
unfolding cleaned all_chars
cleaned_clean zero [] h l = refl
cleaned_clean zero (c ∷ s) h l = absurd (omega (arith, count_clauses.cons c s))
cleaned_clean (suc n) [] h l = refl
cleaned_clean (suc n) (c ∷ s) h l = elim (Bool-cases (is_model_char c)) [
  | inl e ↦
      let rest = cleaned_clean n s (ground arith) (omega (arith, count_clauses.cons c s)) in
      rw e (ap (λ r. c ∷ r) rest)
  | inr e ↦ absurd (ground arith)
]

or_none_nonempty : (s : String) → is_nonempty s ≡ true → or_none s ≡ s
or_none_nonempty [] h = absurd (ground arith)
or_none_nonempty (c ∷ s) h = refl

-- A model id that the configuration accepts, of at most 64 characters, is its own label.
sanitize_label-valid_model_id :
    (s : String) → valid_model_id s ≡ true → count s ≤ 64 → sanitize_label s ≡ s
unfolding sanitize_label valid_model_id
sanitize_label-valid_model_id s h l =
    let chars : all_chars is_model_char s ≡ true = ground arith in
    let nonempty : is_nonempty s ≡ true = ground arith in
    ap or_none (cleaned_clean 64 s chars l) ∙ or_none_nonempty s nonempty
