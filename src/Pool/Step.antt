-- ===== src/Pool/Step.antt =====
-- What one reservation does to every lane: it only lets old stamps expire, but for the granted lane,
-- which had room and gets one stamp.
use open_proxy.Common.{
  ℕ, zero, suc, ◌≤◌, ◌<◌, ◌≡◌, refl, ◌⊎◌, inl, inr, Bool, true, false, Option, none, some, List, [],
  ◌∷◌, arith, if◌then◌else◌, ltb, by_test, length, get_elem?, set, Bool-cases, Option-cases,
}
use open_proxy.Pool.Lanes.{Lane, window, prune, pruned, taken, take_slot}
use open_proxy.Pool.Reserve.{
  Reservation, ready, wait, out_of_bounds, try_take, Scan, serves, scan, note, or_else, or_answer,
  take_first, sort_ready, eligible, try_preferred, reserve_least, reserve_filtered,
}
use open_proxy.Pool.{Pool}

abbrev pub Settles : ℕ → Lane → Lane → Type 0
Settles now l l' = (l' ≡ l) ⊎ (l' ≡ pruned now l)

abbrev pub Takes : ℕ → Lane → Lane → Type 0
Takes now l l' = (l.cooldown_until ≤ now) × (length (prune now l.sent) < l.rpm) × (l' ≡ taken now l)

abbrev pub Settled : ℕ → List Lane → List Lane → Type 0
Settled now [] [] = Unit
Settled now [] (l' ∷ ls') = ⊥
Settled now (l ∷ ls) [] = ⊥
Settled now (l ∷ ls) (l' ∷ ls') = Settles now l l' × Settled now ls ls'

-- Lane `i` takes a slot, and the others settle.
abbrev pub Granted : ℕ → ℕ → List Lane → List Lane → Type 0
Granted now i [] ls' = ⊥
Granted now i (l ∷ ls) [] = ⊥
Granted now zero (l ∷ ls) (l' ∷ ls') = Takes now l l' × Settled now ls ls'
Granted now (suc i) (l ∷ ls) (l' ∷ ls') = Settles now l l' × Granted now i ls ls'

pub prune_idem : (now : ℕ) (ts : List ℕ) → prune now (prune now ts) ≡ prune now ts
unfolding prune
prune_idem now [] = refl
prune_idem now (t ∷ ts) = ground (arith, prune_idem now ts)

Settles-trans : (now : ℕ) (a b c : Lane) → Settles now a b → Settles now b c → Settles now a c
Settles-trans now a b c p q = ground (arith, prune_idem now a.sent)

Settles-Takes : (now : ℕ) (a b c : Lane) → Settles now a b → Takes now b c → Takes now a c
Settles-Takes now a b c p q = ground (arith, prune_idem now a.sent)

pub Settled-refl : (now : ℕ) (ls : List Lane) → Settled now ls ls
Settled-refl now [] = tt
Settled-refl now (l ∷ ls) = (inl refl, Settled-refl now ls)

pub length-Settled : (now : ℕ) (ls ls' : List Lane) → Settled now ls ls' → length ls' ≡ length ls
length-Settled now [] [] s = refl
length-Settled now [] (l' ∷ ls') s = absurd s
length-Settled now (l ∷ ls) [] s = absurd s
length-Settled now (l ∷ ls) (l' ∷ ls') s = omega (arith, length-Settled now ls ls' s.1)

Settled-trans :
    (now : ℕ) (xs ys zs : List Lane) → Settled now xs ys → Settled now ys zs → Settled now xs zs
Settled-trans now [] [] [] p q = tt
Settled-trans now (a ∷ xs) (b ∷ ys) (c ∷ zs) p q =
    (Settles-trans now a b c p.0 q.0, Settled-trans now xs ys zs p.1 q.1)
Settled-trans now _ _ _ p q = absurd (omega arith)

Settled-Granted :
    (now i : ℕ) (xs ys zs : List Lane)
    → Settled now xs ys
    → Granted now i ys zs
    → Granted now i xs zs
Settled-Granted now i [] [] zs p q = absurd q
Settled-Granted now i [] (y ∷ ys) zs p q = absurd p
Settled-Granted now i (x ∷ xs) [] zs p q = absurd p
Settled-Granted now i (x ∷ xs) (y ∷ ys) [] p q = absurd q
Settled-Granted now zero (x ∷ xs) (y ∷ ys) (z ∷ zs) p q =
    (Settles-Takes now x y z p.0 q.0, Settled-trans now xs ys zs p.1 q.1)
Settled-Granted now (suc i) (x ∷ xs) (y ∷ ys) (z ∷ zs) p q =
    (Settles-trans now x y z p.0 q.0, Settled-Granted now i xs ys zs p.1 q.1)

Settled-set :
    (now : ℕ) (ls : List Lane) (i : ℕ) (l l' : Lane)
    → get_elem? ls i ≡ some l
    → Settles now l l'
    → Settled now ls (set ls i l')
Settled-set now [] i l l' e s = tt
Settled-set now (x ∷ xs) zero l l' e s = (ground arith, Settled-refl now xs)
Settled-set now (x ∷ xs) (suc i) l l' e s = (inl refl, Settled-set now xs i l l' e s)

Granted-set :
    (now : ℕ) (ls : List Lane) (i : ℕ) (l l' : Lane)
    → get_elem? ls i ≡ some l
    → Takes now l l'
    → Granted now i ls (set ls i l')
Granted-set now [] i l l' e s = ground arith
Granted-set now (x ∷ xs) zero l l' e s = (ground arith, Settled-refl now xs)
Granted-set now (x ∷ xs) (suc i) l l' e s = (inl refl, Granted-set now xs i l l' e s)

pub take_slot-cases :
    (now : ℕ) (l : Lane)
    → (((take_slot now l).1 ≡ false) × Settles now l (take_slot now l).0)
      ⊎ (((take_slot now l).1 ≡ true) × Takes now l (take_slot now l).0)
unfolding take_slot
take_slot-cases now l = ground arith

-- What a reservation that answered `r` at `now` did to the lanes.
abbrev pub Effect : ℕ → List Lane → List Lane → Option Reservation → Type 0
Effect now ls ls' none = Settled now ls ls'
Effect now ls ls' (some (wait d)) = Settled now ls ls'
Effect now ls ls' (some out_of_bounds) = Settled now ls ls'
Effect now ls ls' (some (ready i key stamp sticky)) = Granted now i ls ls' × (stamp ≡ now)

Settled-Effect :
    (now : ℕ) (xs ys zs : List Lane) (r : Option Reservation)
    → Settled now xs ys
    → Effect now ys zs r
    → Effect now xs zs r
Settled-Effect now xs ys zs none p q = Settled-trans now xs ys zs p q
Settled-Effect now xs ys zs (some (wait d)) p q = Settled-trans now xs ys zs p q
Settled-Effect now xs ys zs (some out_of_bounds) p q = Settled-trans now xs ys zs p q
Settled-Effect now xs ys zs (some (ready i key stamp sticky)) p q =
    (Settled-Granted now i xs ys zs p q.0, q.1)

-- `try_take` in its three cases.
pub try_take_missing :
    (p : Pool) (i now : ℕ) (sticky : Bool)
    → get_elem? p.lanes i ≡ none
    → try_take p i now sticky ≡ (p, some out_of_bounds)
unfolding try_take
try_take_missing p i now sticky e = rw (e, try_take)

pub try_take_refused :
    (p : Pool) (i now : ℕ) (sticky : Bool) (l : Lane)
    → get_elem? p.lanes i ≡ some l
    → (take_slot now l).1 ≡ false
    → try_take p i now sticky ≡ (record p { lanes = set p.lanes i (take_slot now l).0 }, none)
unfolding try_take
try_take_refused p i now sticky l e f = rw (e, try_take) (rw f)

pub try_take_granted :
    (p : Pool) (i now : ℕ) (sticky : Bool) (l : Lane)
    → get_elem? p.lanes i ≡ some l
    → (take_slot now l).1 ≡ true
    → try_take p i now sticky
      ≡ (record p { lanes = set p.lanes i (take_slot now l).0 }, some (ready i l.key now sticky))
unfolding try_take
try_take_granted p i now sticky l e f = rw (e, try_take) (rw f)

abbrev pub Done : ℕ → List Lane → Pool × Option Reservation → Type 0
Done now ls (p, r) = Effect now ls p.lanes r

pub try_take-Done :
    (p : Pool) (i now : ℕ) (sticky : Bool) → Done now p.lanes (try_take p i now sticky)
try_take-Done p i now sticky = elim (Option-cases (get_elem? p.lanes i)) [
  | inl e ↦ rw (try_take_missing p i now sticky e) (Settled-refl now p.lanes)
  | inr (l, e) ↦ elim (take_slot-cases now l) [
    | inl (f, s) ↦ rw (try_take_refused p i now sticky l e f) (Settled-set now p.lanes i l _ e s)
    | inr (f, t) ↦
        rw (try_take_granted p i now sticky l e f) (Granted-set now p.lanes i l _ e t, refl)
  ]
]

or_else-Done :
    (now : ℕ) (ls : List Lane) (m : Pool × Option Reservation)
    (next : Pool → Pool × Option Reservation)
    → Done now ls m
    → ((p : Pool) → Done now p.lanes (next p))
    → Done now ls (or_else m next)
or_else-Done now ls (p, none) next d h =
    Settled-Effect now ls p.lanes (next p).0.lanes (next p).1 d (h p)
or_else-Done now ls (p, some r) next d h = d

abbrev pub Answered : ℕ → List Lane → Pool × Reservation → Type 0
Answered now ls (p, r) = Effect now ls p.lanes (some r)

or_answer-Answered :
    (now : ℕ) (ls : List Lane) (m : Pool × Option Reservation) (next : Pool → Pool × Reservation)
    → Done now ls m
    → ((p : Pool) → Answered now p.lanes (next p))
    → Answered now ls (or_answer m next)
or_answer-Answered now ls (p, none) next d h =
    Settled-Effect now ls p.lanes (next p).0.lanes (some (next p).1) d (h p)
or_answer-Answered now ls (p, some r) next d h = d

lanes-note : (now i : ℕ) (l : Lane) (s : Scan) → (note now i l s).lanes ≡ l ∷ s.lanes
unfolding note
lanes-note now i l s = ground arith

pub scan-Settled :
    (allowed : Option (List ℕ)) (now n i : ℕ) (ls : List Lane)
    → Settled now ls (scan allowed now n i ls).lanes
unfolding scan
scan-Settled allowed now zero i ls = Settled-refl now ls
scan-Settled allowed now (suc n) i [] = tt
scan-Settled allowed now (suc n) i (l ∷ ls) = elim (Bool-cases (serves allowed l)) [
  | inl e ↦ rw (e, lanes-note) (inr refl, scan-Settled allowed now n (suc i) ls)
  | inr e ↦ rw e (inl refl, scan-Settled allowed now n (suc i) ls)
]

take_first-Done : (now : ℕ) (q : List (ℕ × ℕ)) (p : Pool) → Done now p.lanes (take_first p now q)
unfolding take_first
take_first-Done now [] p = Settled-refl now p.lanes
take_first-Done now ((load, i) ∷ q) p =
    or_else-Done now p.lanes (try_take p i now false) _ (try_take-Done p i now false)
      (take_first-Done now q)

if-wait :
    (now : ℕ) (ls ls' : List Lane) (b : Bool) (d e : ℕ)
    → Settled now ls ls'
    → Effect now ls ls' (some (if b then wait d else wait e))
if-wait now ls ls' true d e h = h
if-wait now ls ls' false d e h = h

reserve_least-Answered :
    (allowed : Option (List ℕ)) (now : ℕ) (p : Pool)
    → Answered now p.lanes (reserve_least p allowed now)
unfolding reserve_least
reserve_least-Answered allowed now p =
    let s = scan allowed now p.active 0 p.lanes in
    by_test (Answered now p.lanes) (ltb (length p.lanes) p.active)
      (λ short. Settled-refl now p.lanes)
      λ enough.
        or_answer-Answered now p.lanes
          (take_first (record p { lanes = s.lanes }) now (sort_ready s.ready)) _
          (Settled-Effect now p.lanes s.lanes _ _ (scan-Settled allowed now p.active 0 p.lanes)
            (take_first-Done now (sort_ready s.ready) (record p { lanes = s.lanes })))
          (λ p'. if-wait now p'.lanes p'.lanes s.any s.best_wait window (Settled-refl now p'.lanes))

try_preferred-Done :
    (p : Pool) (prefer : Option ℕ) (allowed : Option (List ℕ)) (now : ℕ)
    → Done now p.lanes (try_preferred p prefer allowed now)
unfolding try_preferred
try_preferred-Done p none allowed now = Settled-refl now p.lanes
try_preferred-Done p (some i) allowed now = elim (Bool-cases (eligible p allowed i)) [
  | inl e ↦ rw e (try_take-Done p i now true)
  | inr e ↦ rw e (Settled-refl now p.lanes)
]

-- A reservation lets old stamps expire, and where it grants lane `i` it adds one stamp, `now`, to
-- that lane, which was not cooling down and had fewer than `rpm` stamps in its window. It touches
-- nothing else of any lane.
pub reserve_filtered-Answered :
    (p : Pool) (prefer : Option ℕ) (allowed : Option (List ℕ)) (now : ℕ)
    → Answered now p.lanes (reserve_filtered p prefer allowed now)
unfolding reserve_filtered
reserve_filtered-Answered p prefer allowed now =
    or_answer-Answered now p.lanes (try_preferred p prefer allowed now) _
      (try_preferred-Done p prefer allowed now) (reserve_least-Answered allowed now)
