-- ===== src/Observation/Tables.antt =====
-- The ordered map and set of src/observation.rs, `BTreeMap` and `BTreeSet`, as lists.
use open_proxy.Common.{
  ℕ, ◌≡◌, ◌↔◌, Bool, true, ◌&&◌, List, [], ◌∷◌, if◌then◌else◌, ltb, nat_eq, Eq, ◌==◌, arith, map,
}

-- `entry(key).or_default()` and a change of what it holds; the keys ascend.
module _ {ℓ} {V : Type ℓ} where
  unfoldable pub upsert : ℕ → V → (V → V) → List (ℕ × V) → List (ℕ × V)
  upsert k d f [] = (k, f d) ∷ []
  upsert k d f ((j, v) ∷ m) =
      let rest = upsert k d f m in
      if j == k then (j, f v) ∷ m else if ltb k j then (k, f d) ∷ (j, v) ∷ m else (j, v) ∷ rest

  abbrev pub keys : List (ℕ × V) → List ℕ
  keys = map (λ e. e.0)

abbrev pair_beq : ℕ × ℕ → ℕ × ℕ → Bool
pair_beq (a, b) (c, d) = a == c && b == d

pub pair_beq_iff : (x y : ℕ × ℕ) → (pair_beq x y ≡ true) ↔ (x ≡ y)
pair_beq_iff (a, b) (c, d) = ground arith

instance abbrev pub pair_eq : Eq (ℕ × ℕ)
pair_eq = record { beq = pair_beq; beq_iff = pair_beq_iff }
