-- ===== src/Observation/Agreement.antt =====
-- `SeenNumber` of src/observation.rs: many readings of one number.
use open_proxy.Common.{
  ℕ, ◌≡◌, refl, sym, ap, subst, ◌∙◌, ◌⊎◌, inl, inr, ◌↔◌, Option, none, some, List, [], ◌∷◌, arith,
  All, Bool-cases, Option-cases, ◌==◌, nat_eq,
}
use open_proxy.Observation.Json.{Value, present, as_u64}
use open_proxy.Observation.Seen.{
  Seen, absent, conflict, value, merge, number_of, observe_number, number_result, measured,
}

-- What one event says of a number: nothing, a number, or something that is no u64.
pub data Reading : Type 0 where
  silent wrong : Reading
  says : ℕ → Reading

read_present : Option Value → Reading
read_present none = silent
read_present (some v) = elim (as_u64 v) [ none ↦ wrong | some n ↦ says n ]

pub reading : Option Value → Reading
unfolding read_present
reading v = read_present (present v)

take_in : Seen ℕ → Reading → Seen ℕ
unfolding merge
take_in s silent = s
take_in s wrong = merge s conflict
take_in s (says n) = merge s (value n)

take_in-present :
    (s : Seen ℕ) (x : Value) → merge s (number_of x) ≡ take_in s (read_present (some x))
unfolding read_present take_in number_of
take_in-present s x = elim (Option-cases (as_u64 x)) [
  | inl f ↦ rw (number_of, f, take_in)
  | inr (n, f) ↦ rw (number_of, f, take_in)
]

observe_number-present :
    (s : Seen ℕ) (p : Option Value)
    → elim p [ none ↦ s | some x ↦ merge s (number_of x) ] ≡ take_in s (read_present p)
unfolding read_present take_in number_of
observe_number-present s none = refl
observe_number-present s (some x) = take_in-present s x

observe_number-take_in :
    (s : Seen ℕ) (v : Option Value) → observe_number s v ≡ take_in s (reading v)
unfolding observe_number reading
observe_number-take_in s v = observe_number-present s (present v)

take_in_comm : (s : Seen ℕ) (a b : Reading) → take_in (take_in s a) b ≡ take_in (take_in s b) a
unfolding take_in
take_in_comm s a b = ground arith

-- The order in which two events report a number does not matter.
observe_number_comm :
    (s : Seen ℕ) (u v : Option Value)
    → observe_number (observe_number s u) v ≡ observe_number (observe_number s v) u
observe_number_comm s u v = simp observe_number-take_in (take_in_comm s (reading u) (reading v))

-- The readings of a whole response.
unfoldable pub observe_all : Seen ℕ → List (Option Value) → Seen ℕ
observe_all s [] = s
observe_all s (v ∷ vs) = observe_all (observe_number s v) vs

take_in_all : Seen ℕ → List (Option Value) → Seen ℕ
take_in_all s [] = s
take_in_all s (v ∷ vs) = take_in_all (take_in s (reading v)) vs

observe_all-take_in_all :
    (s : Seen ℕ) (vs : List (Option Value)) → observe_all s vs ≡ take_in_all s vs
unfolding observe_all take_in_all
observe_all-take_in_all s [] = refl
observe_all-take_in_all s (v ∷ vs) =
    rw (observe_number-take_in s v) (observe_all-take_in_all (take_in s (reading v)) vs)

-- No event contradicts `n`.
abbrev pub Agrees : ℕ → Option Value → Type 0
Agrees n v = (reading v ≡ silent) ⊎ (reading v ≡ says n)

-- Some event says `n`.
abbrev pub Said : ℕ → List (Option Value) → Type 0
Said n [] = ⊥
Said n (v ∷ vs) = (reading v ≡ says n) ⊎ Said n vs

take_in-conflict : (r : Reading) → take_in conflict r ≡ conflict
unfolding take_in
take_in-conflict r = ground arith

conflict_stays : (vs : List (Option Value)) → take_in_all conflict vs ≡ conflict
unfolding take_in_all
conflict_stays [] = refl
conflict_stays (v ∷ vs) = rw (take_in-conflict (reading v)) (conflict_stays vs)

conflict_no_value : (n : ℕ) (vs : List (Option Value)) → take_in_all conflict vs ≡ value n → ⊥
conflict_no_value n vs h = cc (conflict_stays vs)

-- One reading of a number that is known: it agrees, or there is a conflict.
take_in-value :
    (n : ℕ) (r : Reading)
    → (((r ≡ silent) ⊎ (r ≡ says n)) × (take_in (value n) r ≡ value n))
      ⊎ ((((r ≡ silent) ⊎ (r ≡ says n)) → ⊥) × (take_in (value n) r ≡ conflict))
unfolding take_in
take_in-value n silent = inl (inl refl, refl)
take_in-value n wrong = inr (λ h. ground arith, refl)
take_in-value n (says m) = elim (Bool-cases (n == m)) [
  | inl e ↦ inl (ground arith, rw e)
  | inr e ↦ inr (λ h. ground arith, rw e)
]

value_stays :
    (n : ℕ) (vs : List (Option Value)) → All (Agrees n) vs → take_in_all (value n) vs ≡ value n
unfolding take_in_all
value_stays n [] h = refl
value_stays n (v ∷ vs) h = elim (take_in-value n (reading v)) [
  | inl (a, e) ↦ rw e (value_stays n vs h.1)
  | inr (d, e) ↦ absurd (d h.0)
]

value-Agrees :
    (n m : ℕ) (vs : List (Option Value))
    → take_in_all (value n) vs ≡ value m
    → (n ≡ m) × All (Agrees n) vs
unfolding take_in_all
value-Agrees n m [] h = (ground arith, tt)
value-Agrees n m (v ∷ vs) h = elim (take_in-value n (reading v)) [
  | inl (a, e) ↦ let (q, r) = value-Agrees n m vs (rw e at h) in (q, (a, r))
  | inr (d, e) ↦ absurd (conflict_no_value m vs (rw e at h))
]

Reading-cases : (r : Reading) → (r ≡ silent) ⊎ (r ≡ wrong) ⊎ ((n : ℕ) × (r ≡ says n))
Reading-cases silent = inl refl
Reading-cases wrong = inr (inl refl)
Reading-cases (says n) = inr (inr (n, refl))

absent_measures :
    (n : ℕ) (vs : List (Option Value))
    → take_in_all absent vs ≡ value n
    → All (Agrees n) vs × Said n vs
unfolding take_in_all take_in
absent_measures n [] h = absurd (cc)
absent_measures n (v ∷ vs) h = elim (Reading-cases (reading v)) [
  | inl e ↦ let (a, s) = absent_measures n vs (rw (e, take_in) at h) in ((inl e, a), inr s)
  | inr (inl e) ↦ absurd (conflict_no_value n vs (rw (e, take_in) at h))
  | inr (inr (m, e)) ↦
      let (q, a) = value-Agrees m n vs (rw (e, take_in) at h) in
      ((inr (e ∙ ap says q), subst (λ k. All (Agrees k) vs) q a), inl (e ∙ ap says q))
]

agreed_reading : (n m : ℕ) (v : Option Value) → Agrees n v → reading v ≡ says m → m ≡ n
agreed_reading n m v a e = ground arith

Said-later :
    (n : ℕ) (v : Option Value) (vs : List (Option Value))
    → reading v ≡ silent
    → Said n (v ∷ vs)
    → Said n vs
Said-later n v vs e s = elim s [ inl f ↦ absurd (let b : ⊥ = cc in b) | inr t ↦ t ]

disagrees : (n : ℕ) (v : Option Value) → reading v ≡ wrong → Agrees n v → ⊥
disagrees n v e a = ground arith

measures_absent :
    (n : ℕ) (vs : List (Option Value))
    → All (Agrees n) vs
    → Said n vs
    → take_in_all absent vs ≡ value n
unfolding take_in_all take_in
measures_absent n [] a s = absurd s
measures_absent n (v ∷ vs) a s = elim (Reading-cases (reading v)) [
  | inl e ↦ rw (e, take_in) (measures_absent n vs a.1 (Said-later n v vs e s))
  | inr (inl e) ↦ absurd (disagrees n v e a.0)
  | inr (inr (m, e)) ↦ rw (e, take_in, agreed_reading n m v a.0 e) (value_stays n vs a.1)
]

result_measured : (n : ℕ) (s : Seen ℕ) → number_result s ≡ measured n → s ≡ value n
unfolding number_result
result_measured n s h = ground arith

-- What the events of a response say of one field, as `SeenNumber` gathers it: it is measured as `n`
-- exactly when every event that has the field has the u64 `n` there, absent and null fields apart, and
-- at least one event does. The checks between fields come behind this, in `finish`.
pub measured-iff-agreed :
    (n : ℕ) (vs : List (Option Value))
    → (number_result (observe_all absent vs) ≡ measured n) ↔ (All (Agrees n) vs × Said n vs)
unfolding number_result
measured-iff-agreed n vs = (
  λ h.
      absent_measures n vs
        (sym (observe_all-take_in_all absent vs) ∙ result_measured n (observe_all absent vs) h),
  λ h. rw (observe_all-take_in_all absent vs, measures_absent n vs h.0 h.1),
)
