-- ===== src/Proxy/Cardinality.antt =====
-- `bounded_label` of src/proxy.rs keeps the metrics' cardinality bounded.
use open_proxy.Common.{
  ℕ, ◌≤◌, max, String, ◌≡◌, refl, ◌⊎◌, inl, inr, true, List, [], ◌∷◌, All, length, contains,
  if◌then◌else◌, ltb, string_eq, arith,
}

abbrev pub label_cap : ℕ
label_cap = 256

-- `bounded_label`: the set behind the call, and the label.
unfoldable pub bounded_label : List String → String → ℕ → List String × String
bounded_label seen s cap =
    if contains seen s
    then (seen, s)
    else if ltb (length seen) cap
    then (s ∷ seen, s)
    else (seen, "other")

-- The labels of a sequence of requests.
unfoldable pub label_all : List String → List String → ℕ → List String × List String
label_all seen [] cap = (seen, [])
label_all seen (s ∷ ss) cap =
    let (seen', label) = bounded_label seen s cap in
    let (seen'', labels) = label_all seen' ss cap in (seen'', label ∷ labels)

abbrev pub Known : List String → String → Type 0
Known seen label = (contains seen label ≡ true) ⊎ (label ≡ "other")

bounded_label-le :
    (seen : List String) (s : String) (cap : ℕ)
    → length (bounded_label seen s cap).0 ≤ max (length seen) cap
unfolding bounded_label
bounded_label-le seen s cap = ground arith

-- A label that is known stays known.
abbrev pub Grows : List String → List String → Type 0
Grows xs ys = (s : String) → contains xs s ≡ true → contains ys s ≡ true

bounded_label-Grows :
    (seen : List String) (s : String) (cap : ℕ) → Grows seen (bounded_label seen s cap).0
unfolding bounded_label contains
bounded_label-Grows seen s cap t h = ground arith

bounded_label-Known :
    (seen : List String) (s : String) (cap : ℕ)
    → Known (bounded_label seen s cap).0 (bounded_label seen s cap).1
unfolding bounded_label contains
bounded_label-Known seen s cap = let e = (string_eq.beq_iff s s).1 refl in ground arith

label_all-Grows :
    (seen : List String) (ss : List String) (cap : ℕ) → Grows seen (label_all seen ss cap).0
unfolding label_all
label_all-Grows seen [] cap t h = h
label_all-Grows seen (s ∷ ss) cap t h =
    label_all-Grows (bounded_label seen s cap).0 ss cap t (bounded_label-Grows seen s cap t h)

label_all-le :
    (seen : List String) (ss : List String) (cap : ℕ)
    → length (label_all seen ss cap).0 ≤ max (length seen) cap
unfolding label_all
label_all-le seen [] cap = omega arith
label_all-le seen (s ∷ ss) cap =
    omega (arith, bounded_label-le seen s cap, label_all-le (bounded_label seen s cap).0 ss cap)

label_all-Known :
    (seen : List String) (ss : List String) (cap : ℕ)
    → All (Known (label_all seen ss cap).0) (label_all seen ss cap).1
unfolding label_all
label_all-Known seen [] cap = tt
label_all-Known seen (s ∷ ss) cap = (
  elim (bounded_label-Known seen s cap) [
    | inl a ↦
        inl (label_all-Grows (bounded_label seen s cap).0 ss cap (bounded_label seen s cap).1 a)
    | inr b ↦ inr b
  ],
  label_all-Known (bounded_label seen s cap).0 ss cap,
)

-- However many requests there are and whatever models they name, the metrics carry at most `cap`
-- model labels and `other`: each label is in the set that is left, which outgrows neither `cap` nor
-- its first size, or is `other`.
pub label_all-Bounded :
    (seen : List String) (ss : List String) (cap : ℕ)
    → (length (label_all seen ss cap).0 ≤ max (length seen) cap)
      × All (Known (label_all seen ss cap).0) (label_all seen ss cap).1
label_all-Bounded seen ss cap = (label_all-le seen ss cap, label_all-Known seen ss cap)
