-- ===== src/Pool/Ready.antt =====
-- When a lane has room: `is_open` is the test that `try_take` makes, at any time; `ready_at` is the
-- time that `reserve_filtered` computes for it.
use open_proxy.Common.{
  ℕ, zero, suc, ◌+◌, ◌-◌, ◌≤◌, ◌<◌, ◌≡◌, refl, ap, ◌∙◌, inl, inr, Bool, true, ◌&&◌, List, [], ◌∷◌,
  arith, leb, ltb, length, get_or, All, Bool-cases,
}
use open_proxy.Pool.Lanes.{Lane, window, prune, take_slot, ready_at}
use open_proxy.Pool.Pace.{Sorted}
use open_proxy.Pool.Step.{Settles}

abbrev pub is_open : ℕ → Lane → Bool
is_open t l = leb l.cooldown_until t && ltb (length (prune t l.sent)) l.rpm

pub took-is_open : (now : ℕ) (l : Lane) → (take_slot now l).1 ≡ is_open now l
unfolding take_slot
took-is_open now l = ground arith

-- Pruning twice is pruning at the later time.
pub prune-prune : (now t : ℕ) (ts : List ℕ) → now ≤ t → prune t (prune now ts) ≡ prune t ts
unfolding prune
prune-prune now t [] h = refl
prune-prune now t (x ∷ ts) h = elim (Bool-cases (leb window (now - x))) [
  | inl e ↦ rw e (ground (arith, prune-prune now t ts h))
  | inr e ↦ rw e
]

pub is_open-Settles :
    (now t : ℕ) (l l' : Lane) → now ≤ t → Settles now l l' → is_open t l' ≡ is_open t l
is_open-Settles now t l l' h (inl e) = ap (is_open t) e
is_open-Settles now t l l' h (inr e) = ap (is_open t) e ∙ rw (prune-prune now t l.sent h)

All-le-prune : (x t : ℕ) (ts : List ℕ) → All (λ u. x ≤ u) ts → All (λ u. x ≤ u) (prune t ts)
unfolding prune
All-le-prune x t [] h = tt
All-le-prune x t (u ∷ ts) h = elim (Bool-cases (leb window (t - u))) [
  | inl e ↦ rw e (All-le-prune x t ts h.1)
  | inr e ↦ rw e h
]

pub Sorted-prune : (t : ℕ) (ts : List ℕ) → Sorted ts → Sorted (prune t ts)
unfolding prune
Sorted-prune t [] h = tt
Sorted-prune t (u ∷ ts) h = elim (Bool-cases (leb window (t - u))) [
  | inl e ↦ rw e (Sorted-prune t ts h.1)
  | inr e ↦ rw e h
]

length-prune-le : (t : ℕ) (ts : List ℕ) → length (prune t ts) ≤ length ts
unfolding prune
length-prune-le t [] = omega arith
length-prune-le t (u ∷ ts) = ground (arith, length-prune-le t ts)

get_or-le : (x k d : ℕ) (ts : List ℕ) → All (λ u. x ≤ u) ts → k < length ts → x ≤ get_or ts k d
get_or-le x k d [] h lt = absurd (omega arith)
get_or-le x zero d (u ∷ ts) h lt = h.0
get_or-le x (suc k) d (u ∷ ts) h lt = get_or-le x k d ts h.1 (omega arith)

-- The stamp that has to leave the window before the count falls below `r`.
expiry :
    (r t : ℕ) (ts : List ℕ)
    → Sorted ts
    → 0 < r
    → r ≤ length ts
    → ltb (length (prune t ts)) r ≡ leb (get_or ts (length ts - r) 0 + window) t
unfolding prune
expiry r t [] s p h = absurd (omega arith)
expiry r t (x ∷ ts) s p h = elim (Bool-cases (leb r (length ts))) [
  | inl more ↦
      let e : suc (length ts) - r ≡ suc (length ts - r) = ground arith in
      rw e (elim (Bool-cases (leb window (t - x))) [
        | inl out ↦ rw out (expiry r t ts s.1 p (ground arith))
        | inr held ↦ rw held (ground (arith, get_or-le x (length ts - r) 0 ts s.0))
      ])
  | inr full ↦
      let e : suc (length ts) - r ≡ 0 = ground arith in
      rw e (elim (Bool-cases (leb window (t - x))) [
        | inl out ↦ rw out (ground (arith, length-prune-le t ts))
        | inr held ↦ rw held (ground arith)
      ])
]

-- A lane that was pruned at `now` has room at a later time only from `ready_at` on.
pub ready_at-le_of_open :
    (now t : ℕ) (l : Lane) → Sorted l.sent → now ≤ t → is_open t l ≡ true → ready_at now l ≤ t
unfolding ready_at
ready_at-le_of_open now t l s h o = elim (Bool-cases (ltb (length l.sent) l.rpm)) [
  | inl e ↦ rw e (ground arith)
  | inr e ↦ elim (Bool-cases (leb l.rpm 0)) [
    | inl z ↦ absurd (ground arith)
    | inr z ↦ rw (e, z) (ground (arith, expiry l.rpm t l.sent s (ground arith) (ground arith)))
  ]
]

-- And from then on it has room, if it may send at all.
pub open_of_ready_at-le :
    (now t : ℕ) (l : Lane)
    → Sorted l.sent
    → now ≤ t
    → 0 < l.rpm
    → ready_at now l ≤ t
    → is_open t l ≡ true
unfolding ready_at
open_of_ready_at-le now t l s h p o = elim (Bool-cases (ltb (length l.sent) l.rpm)) [
  | inl e ↦ ground (arith, length-prune-le t l.sent)
  | inr e ↦ ground (arith, expiry l.rpm t l.sent s p (ground arith))
]

pub open_of_ready_now :
    (now : ℕ) (l : Lane) → Sorted l.sent → ready_at now l ≤ now → is_open now l ≡ true
open_of_ready_now now l s h = elim (Bool-cases (leb l.rpm 0)) [
  | inl z ↦ absurd (unfold ready_at in ground arith)
  | inr z ↦ open_of_ready_at-le now now l s (omega arith) (ground arith) h
]
