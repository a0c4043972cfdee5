-- ===== src/Pool/Order.antt =====
-- `ready.sort_unstable()` of src/pool.rs: what stands first.
use open_proxy.Common.{
  ℕ, ◌≡◌, sym, subst, ◌⊎◌, inl, inr, true, false, List, [], ◌∷◌, arith, All, Bool-cases, nat_eq,
}
use open_proxy.Pool.Reserve.{before, insert_ready, sort_ready}

-- Membership with the position kept.
abbrev pub In : ℕ × ℕ → List (ℕ × ℕ) → Type 0
In x [] = ⊥
In x (y ∷ ys) = (x ≡ y) ⊎ In x ys

abbrev pub Ascending : List (ℕ × ℕ) → Type 0
Ascending [] = Unit
Ascending (x ∷ xs) = All (λ y. before x y ≡ true) xs × Ascending xs

before_trans : (x y z : ℕ × ℕ) → before x y ≡ true → before y z ≡ true → before x z ≡ true
before_trans (a, i) (b, j) (c, k) p q = ground arith

before-total : (x y : ℕ × ℕ) → before x y ≡ false → before y x ≡ true
before-total (a, i) (b, j) p = ground arith

before_refl : (x : ℕ × ℕ) → before x x ≡ true
before_refl (a, i) = ground arith

All-before :
    (x y : ℕ × ℕ) (xs : List (ℕ × ℕ))
    → before x y ≡ true
    → All (λ z. before y z ≡ true) xs
    → All (λ z. before x z ≡ true) xs
All-before x y [] p h = tt
All-before x y (z ∷ xs) p h = (before_trans x y z p h.0, All-before x y xs p h.1)

module _ {κ} (P : ℕ × ℕ → Type κ) where
  All-insert_ready : (x : ℕ × ℕ) (ys : List (ℕ × ℕ)) → P x → All P ys → All P (insert_ready x ys)
  unfolding insert_ready
  All-insert_ready x [] p h = (p, tt)
  All-insert_ready x (y ∷ ys) p h = elim (Bool-cases (before x y)) [
    | inl e ↦ rw e (p, h)
    | inr e ↦ rw e (h.0, All-insert_ready x ys p h.1)
  ]

  insert_ready-All : (x : ℕ × ℕ) (ys : List (ℕ × ℕ)) → All P (insert_ready x ys) → P x × All P ys
  unfolding insert_ready
  insert_ready-All x [] h = h
  insert_ready-All x (y ∷ ys) h = elim (Bool-cases (before x y)) [
    | inl e ↦ rw e at h
    | inr e ↦
        let g = insert_ready-All x ys (let k = rw e at h in k.1) in
        (g.0, (let k = rw e at h in k.0, g.1))
  ]

  pub All-sort_ready : (xs : List (ℕ × ℕ)) → All P xs → All P (sort_ready xs)
  unfolding sort_ready
  All-sort_ready [] h = tt
  All-sort_ready (x ∷ xs) h = All-insert_ready x (sort_ready xs) h.0 (All-sort_ready xs h.1)

  pub sort_ready-All : (xs : List (ℕ × ℕ)) → All P (sort_ready xs) → All P xs
  unfolding sort_ready
  sort_ready-All [] h = tt
  sort_ready-All (x ∷ xs) h =
      let (p, g) = insert_ready-All x (sort_ready xs) h in (p, sort_ready-All xs g)

  pub All-In : (x : ℕ × ℕ) (xs : List (ℕ × ℕ)) → All P xs → In x xs → P x
  All-In x [] h i = absurd i
  All-In x (y ∷ ys) h (inl e) = subst P (sym e) h.0
  All-In x (y ∷ ys) h (inr i) = All-In x ys h.1 i

insert_ready-Ascending :
    (x : ℕ × ℕ) (ys : List (ℕ × ℕ)) → Ascending ys → Ascending (insert_ready x ys)
unfolding insert_ready
insert_ready-Ascending x [] h = (tt, tt)
insert_ready-Ascending x (y ∷ ys) h = elim (Bool-cases (before x y)) [
  | inl e ↦ rw e ((e, All-before x y ys e h.0), h)
  | inr e ↦ rw e (
    All-insert_ready (λ z. before y z ≡ true) x ys (before-total x y e) h.0,
    insert_ready-Ascending x ys h.1,
  )
]

sort_ready-Ascending : (xs : List (ℕ × ℕ)) → Ascending (sort_ready xs)
unfolding sort_ready
sort_ready-Ascending [] = tt
sort_ready-Ascending (x ∷ xs) = insert_ready-Ascending x (sort_ready xs) (sort_ready-Ascending xs)

-- The first pair of the sorted list comes before every pair.
pub sort_ready-first :
    (xs : List (ℕ × ℕ)) (y : ℕ × ℕ) (ys : List (ℕ × ℕ))
    → sort_ready xs ≡ y ∷ ys
    → All (λ x. before y x ≡ true) xs
sort_ready-first xs y ys e =
    let a : Ascending (y ∷ ys) = subst Ascending e (sort_ready-Ascending xs) in
    sort_ready-All (λ x. before y x ≡ true) xs
      (subst (All (λ x. before y x ≡ true)) (sym e) (before_refl y, a.0))
