-- ===== src/Pool/Bounds.antt =====
-- src/pool.rs: the calls stay inside the lanes of a pool that has a lane for each active index.
use open_proxy.Common.{
  ℕ, ◌≤◌, ◌<◌, ◌≡◌, ◌≢◌, refl, sym, subst, ◌∙◌, inl, inr, Bool, true, false, Option, none, some,
  List, [], ◌∷◌, All, arith, by_test, ltb, if◌then◌else◌, length, length-set, length_of_none,
  length_of_some, get_elem?, Option-cases,
}
use open_proxy.Pool.Lanes.{Lane}
use open_proxy.Pool.Reserve.{
  Reservation, wait, out_of_bounds, try_take, scan, sort_ready, take_first, or_else, or_answer,
  eligible, try_preferred, reserve_least, reserve_filtered,
}
use open_proxy.Pool.Step.{
  scan-Settled, length-Settled, take_slot-cases, try_take_refused, try_take_granted,
}
use open_proxy.Pool.Order.{All-sort_ready}
use open_proxy.Pool.Scanned.{Entry, Found, scan-Found}
use open_proxy.Pool.{Pool}

abbrev pub InBounds : Pool → Type 0
InBounds p = p.active ≤ length p.lanes

-- An answer that is no panic, and the lanes of the pool counted.
abbrev Kept : Pool → Pool × Option Reservation → Type 0
Kept p (p', r) =
    (r ≢ some out_of_bounds) × (length p'.lanes ≡ length p.lanes) × (p'.active ≡ p.active)

try_take-Kept :
    (p : Pool) (i now : ℕ) (sticky : Bool) → i < length p.lanes → Kept p (try_take p i now sticky)
try_take-Kept p i now sticky lt = elim (Option-cases (get_elem? p.lanes i)) [
  | inl e ↦ absurd (omega (arith, length_of_none p.lanes i e))
  | inr (l, e) ↦ elim (take_slot-cases now l) [
    | inl (f, _) ↦
        rw (try_take_refused p i now sticky l e f) (λ q. cc, length-set p.lanes i _, refl)
    | inr (f, _) ↦
        rw (try_take_granted p i now sticky l e f) (λ q. cc, length-set p.lanes i _, refl)
  ]
]

or_else-Kept :
    (p : Pool) (m : Pool × Option Reservation) (next : Pool → Pool × Option Reservation)
    → Kept p m
    → ((q : Pool) → length q.lanes ≡ length p.lanes → Kept q (next q))
    → Kept p (or_else m next)
or_else-Kept p (q, none) next k h = ((h q k.1).0, (h q k.1).1 ∙ k.1, (h q k.1).2 ∙ k.2)
or_else-Kept p (q, some r) next k h = k

abbrev Within : ℕ → ℕ × ℕ → Type 0
Within n (m, i) = i < n

take_first-Kept :
    (p : Pool) (now : ℕ) (xs : List (ℕ × ℕ))
    → All (Within (length p.lanes)) xs
    → Kept p (take_first p now xs)
unfolding take_first
take_first-Kept p now [] h = (λ q. cc, refl, refl)
take_first-Kept p now ((m, i) ∷ xs) h =
    or_else-Kept p (try_take p i now false) _ (try_take-Kept p i now false h.0)
      (λ q same. take_first-Kept q now xs (subst (λ n. All (Within n) xs) (sym same) h.1))

Entry-Within :
    (allowed : Option (List ℕ)) (now n : ℕ) (ls : List Lane) (xs : List (ℕ × ℕ))
    → All (Entry allowed now n 0 ls) xs
    → All (Within (length ls)) xs
Entry-Within allowed now n ls [] h = tt
Entry-Within allowed now n ls ((m, i) ∷ xs) ((j, l, c, at, _, _), h) =
    (omega (arith, at, length_of_some ls j l c.1), Entry-Within allowed now n ls xs h)

-- A reservation of the pool, when the answer is no panic.
abbrev KeptAnswer : Pool → Pool × Reservation → Type 0
KeptAnswer p (p', r) =
    (r ≢ out_of_bounds) × (length p'.lanes ≡ length p.lanes) × (p'.active ≡ p.active)

or_answer-Kept :
    (p : Pool) (m : Pool × Option Reservation) (next : Pool → Pool × Reservation)
    → Kept p m
    → ((q : Pool) → length q.lanes ≡ length p.lanes → q.active ≡ p.active → KeptAnswer q (next q))
    → KeptAnswer p (or_answer m next)
or_answer-Kept p (q, none) next k h =
    ((h q k.1 k.2).0, (h q k.1 k.2).1 ∙ k.1, (h q k.1 k.2).2 ∙ k.2)
or_answer-Kept p (q, some r) next k h = (λ e. k.0 (cc), k.1, k.2)

if-waits : (b : Bool) (d e : ℕ) → (if b then wait d else wait e) ≢ out_of_bounds
if-waits true d e q = absurd (cc)
if-waits false d e q = absurd (cc)

reserve_least-Kept :
    (p : Pool) (allowed : Option (List ℕ)) (now : ℕ)
    → InBounds p
    → KeptAnswer p (reserve_least p allowed now)
unfolding reserve_least
reserve_least-Kept p allowed now h =
    let s = scan allowed now p.active 0 p.lanes in
    let same = length-Settled now p.lanes s.lanes (scan-Settled allowed now p.active 0 p.lanes) in
    let facts : Found allowed now p.active 0 p.lanes s =
      scan-Found allowed now p.active 0 p.lanes in
    let inside : All (Within (length s.lanes)) (sort_ready s.ready) =
      subst (λ n. All (Within n) (sort_ready s.ready)) (sym same)
        (Entry-Within allowed now p.active p.lanes (sort_ready s.ready)
          (All-sort_ready (Entry allowed now p.active 0 p.lanes) s.ready facts.listed)) in
    let k = take_first-Kept (record p { lanes = s.lanes }) now (sort_ready s.ready) inside in
    by_test (KeptAnswer p) (ltb (length p.lanes) p.active) (λ short. absurd (ground arith))
      (λ enough.
        or_answer-Kept p (take_first (record p { lanes = s.lanes }) now (sort_ready s.ready)) _
          (k.0, k.1 ∙ same, k.2) (λ q _ _. (if-waits s.any s.best_wait _, refl, refl)))

eligible-lt :
    (p : Pool) (allowed : Option (List ℕ)) (i : ℕ) → eligible p allowed i ≡ true → i < p.active
unfolding eligible
eligible-lt p allowed i h = ground arith

try_preferred-Kept :
    (p : Pool) (prefer : Option ℕ) (allowed : Option (List ℕ)) (now : ℕ)
    → InBounds p
    → Kept p (try_preferred p prefer allowed now)
unfolding try_preferred
try_preferred-Kept p none allowed now h = (λ q. cc, refl, refl)
try_preferred-Kept p (some i) allowed now h =
    by_test (Kept p) (eligible p allowed i)
      (λ e. try_take-Kept p i now true (omega (arith, eligible-lt p allowed i e)))
      (λ e. (λ q. cc, refl, refl))

-- Where each active index has a lane a reservation does not panic, and each still has one.
pub reserve_filtered-InBounds :
    (p : Pool) (prefer : Option ℕ) (allowed : Option (List ℕ)) (now : ℕ)
    → InBounds p
    → ((reserve_filtered p prefer allowed now).1 ≢ out_of_bounds)
      × InBounds (reserve_filtered p prefer allowed now).0
unfolding reserve_filtered
reserve_filtered-InBounds p prefer allowed now h =
    let k =
      or_answer-Kept p (try_preferred p prefer allowed now) (λ q. reserve_least q allowed now)
        (try_preferred-Kept p prefer allowed now h)
        (λ q same act. reserve_least-Kept q allowed now (omega arith)) in
    (k.0, omega (arith, k.1, k.2))
