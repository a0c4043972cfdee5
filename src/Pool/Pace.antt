-- ===== src/Pool/Pace.antt =====
-- The pace of one key: no 61-second window holds more stamps than its `rpm`.
use open_proxy.Common.{
  ℕ, ◌+◌, ◌-◌, ◌≤◌, ◌<◌, ◌≡◌, refl, ap, ◌||◌, inl, inr, false, ◌&&◌, List, [], ◌∷◌, ◌++◌, arith,
  leb, ltb, if◌then◌else◌, length, length-append, All, All-append, Bool-cases, contains, ◌==◌,
  nat_eq,
}
use open_proxy.Common.Count.{count, count-append, count-le-length}
use open_proxy.Pool.Lanes.{window, prune, remove_last}

-- How many of the stamps lie in the window that starts at `a`.
abbrev pub in_window_from : ℕ → List ℕ → ℕ
in_window_from a = count (λ t. leb a t && ltb t (a + window))

-- Every window that starts at a stamp holds at most `rpm` stamps, that one and those after it.
abbrev pub Paced : ℕ → List ℕ → Type 0
Paced rpm [] = Unit
Paced rpm (t ∷ ts) = (in_window_from t ts < rpm) × Paced rpm ts

abbrev pub Sorted : List ℕ → Type 0
Sorted [] = Unit
Sorted (t ∷ ts) = All (λ u. t ≤ u) ts × Sorted ts

abbrev pub Expired : ℕ → List ℕ → Type 0
Expired now = All (λ t. t + window ≤ now)

-- What `prune` drops has expired.
pub prune-split :
    (now : ℕ) (ts : List ℕ) → (old : List ℕ) × (ts ≡ old ++ prune now ts) × Expired now old
unfolding prune
prune-split now [] = ([], refl, tt)
prune-split now (t ∷ ts) = elim (Bool-cases (leb window (now - t))) [
  | inl e ↦
      let (old, p, x) = prune-split now ts in (t ∷ old, rw e (ap (◌∷◌ t) p), (ground arith, x))
  | inr e ↦ ([], rw e, tt)
]

count_all_expired :
    (now : ℕ) (t : ℕ) (rest : List ℕ)
    → t + window ≤ now
    → in_window_from t (rest ++ now ∷ []) ≡ in_window_from t rest
count_all_expired now t rest h =
    ground (arith, count-append (λ u. leb t u && ltb u (t + window)) rest (now ∷ []))

in_window-snoc-le : (a now : ℕ) (ts : List ℕ) → in_window_from a (ts ++ now ∷ []) ≤ length ts + 1
in_window-snoc-le a now ts = omega (
  arith,
  count-le-length (λ t. leb a t && ltb t (a + window)) (ts ++ now ∷ []),
  length-append ts (now ∷ []),
)

-- One more stamp, while fewer than `rpm` are left.
Paced-snoc_short :
    (rpm now : ℕ) (ts : List ℕ) → length ts < rpm → Paced rpm ts → Paced rpm (ts ++ now ∷ [])
Paced-snoc_short rpm now [] h p = (omega arith, tt)
Paced-snoc_short rpm now (t ∷ ts) h p =
    (omega (arith, in_window-snoc-le t now ts), Paced-snoc_short rpm now ts (omega arith) p.1)

-- The step of the rate limit: before the stamp `now` the history is an expired part and at most
-- `rpm - 1` stamps.
pub Paced-grant :
    (rpm now : ℕ) (old ts : List ℕ)
    → Expired now old
    → length ts < rpm
    → Paced rpm (old ++ ts)
    → Paced rpm ((old ++ ts) ++ now ∷ [])
Paced-grant rpm now [] ts x h p = Paced-snoc_short rpm now ts h p
Paced-grant rpm now (t ∷ old) ts x h p =
    (rw (count_all_expired now t (old ++ ts) x.0) p.0, Paced-grant rpm now old ts x.1 h p.1)

in_window-remove_last-le :
    (a stamp : ℕ) (ts : List ℕ) → in_window_from a (remove_last stamp ts) ≤ in_window_from a ts
unfolding remove_last
in_window-remove_last-le a stamp [] = omega arith
in_window-remove_last-le a stamp (t ∷ ts) = elim (Bool-cases (contains ts stamp)) [
  | inl e ↦ rw e (ground (arith, in_window-remove_last-le a stamp ts))
  | inr e ↦ rw e (ground arith)
]

pub Paced-remove_last :
    (rpm stamp : ℕ) (ts : List ℕ) → Paced rpm ts → Paced rpm (remove_last stamp ts)
unfolding remove_last
Paced-remove_last rpm stamp [] p = tt
Paced-remove_last rpm stamp (t ∷ ts) p = elim (Bool-cases (contains ts stamp)) [
  | inl e ↦
      rw e (
        omega (arith, p.0, in_window-remove_last-le t stamp ts),
        Paced-remove_last rpm stamp ts p.1,
      )
  | inr e ↦ rw e (ground arith)
]

-- A window that starts anywhere holds no more than one that starts at its first stamp.
in_window-shift :
    (a t : ℕ) (ts : List ℕ)
    → a ≤ t
    → All (λ u. t ≤ u) ts
    → in_window_from a ts ≤ in_window_from t ts
in_window-shift a t [] h s = omega arith
in_window-shift a t (u ∷ ts) h s = ground (arith, in_window-shift a t ts h s.1)

-- In a sorted history every window, wherever it starts, holds at most `rpm` stamps.
pub in_window-le : (rpm a : ℕ) (ts : List ℕ) → Sorted ts → Paced rpm ts → in_window_from a ts ≤ rpm
in_window-le rpm a [] s p = omega arith
in_window-le rpm a (t ∷ ts) s p = elim (Bool-cases (leb a t)) [
  | inl e ↦ ground (arith, in_window-shift a t ts, p.0)
  | inr e ↦ ground (arith, in_window-le rpm a ts s.1 p.1)
]

pub All-remove_last {κ} :
    (P : ℕ → Type κ) (stamp : ℕ) (ts : List ℕ) → All P ts → All P (remove_last stamp ts)
unfolding remove_last
All-remove_last P stamp [] h = tt
All-remove_last P stamp (t ∷ ts) h = elim (Bool-cases (contains ts stamp)) [
  | inl e ↦ rw e (h.0, All-remove_last P stamp ts h.1)
  | inr e ↦ rw e (elim (Bool-cases (t == stamp)) [ inl f ↦ rw f h.1 | inr f ↦ rw f h ])
]

pub Sorted-remove_last : (stamp : ℕ) (ts : List ℕ) → Sorted ts → Sorted (remove_last stamp ts)
unfolding remove_last
Sorted-remove_last stamp [] h = tt
Sorted-remove_last stamp (t ∷ ts) h = elim (Bool-cases (contains ts stamp)) [
  | inl e ↦ rw e (All-remove_last (λ u. t ≤ u) stamp ts h.0, Sorted-remove_last stamp ts h.1)
  | inr e ↦ rw e (elim (Bool-cases (t == stamp)) [ inl f ↦ rw f h.1 | inr f ↦ rw f h ])
]

pub Sorted-snoc :
    (now : ℕ) (ts : List ℕ) → Sorted ts → All (λ t. t ≤ now) ts → Sorted (ts ++ now ∷ [])
Sorted-snoc now [] s h = (tt, tt)
Sorted-snoc now (t ∷ ts) s h =
    (All-append (λ u. t ≤ u) ts (now ∷ []) s.0 (h.0, tt), Sorted-snoc now ts s.1 h.1)

contains-append :
    (xs ys : List ℕ) (a : ℕ) → contains (xs ++ ys) a ≡ (contains xs a || contains ys a)
unfolding contains
contains-append [] ys a = refl
contains-append (x ∷ xs) ys a = ground (arith, contains-append xs ys a)

pub remove_last_absent :
    (stamp : ℕ) (ts : List ℕ) → contains ts stamp ≡ false → remove_last stamp ts ≡ ts
unfolding remove_last contains
remove_last_absent stamp [] h = refl
remove_last_absent stamp (t ∷ ts) h = ground arith

-- The last occurrence lies in the second part if there is one there.
pub remove_last-append :
    (stamp : ℕ) (xs ys : List ℕ)
    → remove_last stamp (xs ++ ys)
      ≡ (if contains ys stamp then xs ++ remove_last stamp ys else remove_last stamp xs ++ ys)
unfolding remove_last
remove_last-append stamp [] ys = ground (arith, remove_last_absent stamp ys)
remove_last-append stamp (x ∷ xs) ys = ground (
  arith,
  remove_last-append stamp xs ys,
  contains-append xs ys stamp,
  remove_last_absent stamp xs,
)
