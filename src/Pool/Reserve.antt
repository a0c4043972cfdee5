-- ===== src/Pool/Reserve.antt =====
-- src/pool.rs: `try_take` and `reserve_filtered`.
use open_proxy.Common.{
  ℕ, zero, suc, ◌-◌, min, String, Bool, true, false, ◌&&◌, ◌||◌, Option, none, some, List, [], ◌∷◌,
  leb, ltb, if◌then◌else◌, length, get_elem?, set, contains, ◌==◌, nat_eq,
}
use open_proxy.Pool.Lanes.{Lane, window, pruned, take_slot, ready_at}
use open_proxy.Pool.{Pool}

pub data Reservation : Type 0 where
  -- The lane, its key, the stamp of the reservation, and whether the preferred lane won.
  ready : ℕ → String → ℕ → Bool → Reservation
  wait : ℕ → Reservation
  -- The call has indexed a lane that is not there: it panics and answers nothing.
  out_of_bounds : Reservation

-- `self.lanes[i]` is its first step, and panics where there is no such lane.
unfoldable pub try_take : Pool → ℕ → ℕ → Bool → Pool × Option Reservation
try_take p i now sticky = elim (get_elem? p.lanes i) [
  | none ↦ (p, some out_of_bounds)
  | some l ↦
      let (l', took) = take_slot now l in
      (
        record p { lanes = set p.lanes i l' },
        if took then some (ready i l.key now sticky) else none,
      )
]

-- `if let Some(r) = … { return r; }`, and what follows it; after a panic nothing does.
abbrev pub or_else :
    Pool × Option Reservation → (Pool → Pool × Option Reservation) → Pool × Option Reservation
or_else (p, none) next = next p
or_else (p, some r) next = (p, some r)

abbrev pub or_answer : Pool × Option Reservation → (Pool → Pool × Reservation) → Pool × Reservation
or_answer (p, none) next = next p
or_answer (p, some r) next = (p, r)

-- `allowed.is_none_or(|set| set.contains(&endpoint))`
abbrev pub serves : Option (List ℕ) → Lane → Bool
serves none l = true
serves (some groups) l = contains groups l.endpoint

-- What the loop over the active lanes collects: (load, lane) of the ready ones, the soonest wake-up
-- among the others, and whether any lane is allowed at all.
pub record Scan : Type 0 where
  pub lanes : List Lane
  pub ready : List (ℕ × ℕ)
  pub best_wait : ℕ
  pub any : Bool

unfoldable pub note : ℕ → ℕ → Lane → Scan → Scan
note now i l s =
    if leb (ready_at now l) now
    then record {
      lanes = l ∷ s.lanes;
      ready = (length l.sent, i) ∷ s.ready;
      best_wait = s.best_wait;
      any = true;
    }
    else record {
      lanes = l ∷ s.lanes;
      ready = s.ready;
      best_wait = min (ready_at now l - now) s.best_wait;
      any = true;
    }

-- `for (i, lane) in self.lanes[..self.active].iter().enumerate()`, from index `i` on, with `n` active
-- lanes to go. The lanes past them are left as they are. The slice has `n` lanes wherever it is taken,
-- so that the second clause is for no call.
unfoldable pub scan : Option (List ℕ) → ℕ → ℕ → ℕ → List Lane → Scan
scan allowed now zero i ls = record { lanes = ls; ready = []; best_wait = window; any = false }
scan allowed now (suc n) i [] = record { lanes = []; ready = []; best_wait = window; any = false }
scan allowed now (suc n) i (l ∷ ls) =
    let rest = scan allowed now n (suc i) ls in
    if serves allowed l
    then note now i (pruned now l) rest
    else record rest { lanes = l ∷ rest.lanes }

-- Pairs are ordered by load, then by index.
abbrev pub before : ℕ × ℕ → ℕ × ℕ → Bool
before (a, i) (b, j) = ltb a b || (a == b && leb i j)

unfoldable pub insert_ready : ℕ × ℕ → List (ℕ × ℕ) → List (ℕ × ℕ)
insert_ready x [] = x ∷ []
insert_ready x (y ∷ ys) =
    let rest = insert_ready x ys in if before x y then x ∷ y ∷ ys else y ∷ rest

-- `ready.sort_unstable()`: the pairs are distinct, so there is one sorted order.
unfoldable pub sort_ready : List (ℕ × ℕ) → List (ℕ × ℕ)
unfolding insert_ready
sort_ready [] = []
sort_ready (x ∷ xs) = insert_ready x (sort_ready xs)

-- `for (_, i) in ready { if let Some(r) = self.try_take(i, now, false) { return r; } }`
unfoldable pub take_first : Pool → ℕ → List (ℕ × ℕ) → Pool × Option Reservation
take_first p now [] = (p, none)
take_first p now ((load, i) ∷ rest) = or_else (try_take p i now false) λ p'. take_first p' now rest

-- `prefer.filter(|&p| p < self.active && ok(p))`. An active index without a lane passes here, and
-- panics in the `try_take` that follows, where the source panics in `ok` or there.
unfoldable pub eligible : Pool → Option (List ℕ) → ℕ → Bool
eligible p allowed i =
    ltb i p.active && elim (get_elem? p.lanes i) [ none ↦ true | some l ↦ serves allowed l ]

unfoldable pub try_preferred : Pool → Option ℕ → Option (List ℕ) → ℕ → Pool × Option Reservation
try_preferred p none allowed now = (p, none)
try_preferred p (some i) allowed now =
    if eligible p allowed i then try_take p i now true else (p, none)

-- The rest of `reserve_filtered`, when the preferred lane has given nothing. The slice
-- `self.lanes[..self.active]` panics if there are fewer lanes.
unfoldable pub reserve_least : Pool → Option (List ℕ) → ℕ → Pool × Reservation
reserve_least p allowed now =
    let s = scan allowed now p.active 0 p.lanes in
    if ltb (length p.lanes) p.active
    then (p, out_of_bounds)
    else or_answer (take_first (record p { lanes = s.lanes }) now (sort_ready s.ready))
        λ p'. (p', if s.any then wait s.best_wait else wait window)

unfoldable pub reserve_filtered : Pool → Option ℕ → Option (List ℕ) → ℕ → Pool × Reservation
reserve_filtered p prefer allowed now =
    or_answer (try_preferred p prefer allowed now) λ p'. reserve_least p' allowed now

unfoldable pub reserve : Pool → Option ℕ → ℕ → Pool × Reservation
reserve p prefer now = reserve_filtered p prefer none now
