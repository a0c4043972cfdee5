-- ===== src/Pool/History.antt =====
-- Runs of the pool's calls, beside the stamps that each key was granted.
use open_proxy.Common.{
  ℕ, ◌+◌, ◌≤◌, ◌≡◌, refl, inl, inr, Option, none, some, List, [], ◌∷◌, map, arith, All, get_elem?,
  Bool-cases, Option-cases, ltb,
}
use open_proxy.Pool.Lanes.{LaneSpec, Lane}
use open_proxy.Pool.Reserve.{Reservation, ready, wait, out_of_bounds, reserve_filtered}
use open_proxy.Pool.Step.{Answered, reserve_filtered-Answered}
use open_proxy.Pool.Pace.{Sorted, in_window_from, in_window-le}
use open_proxy.Pool.Tracks.{
  Tracks, TracksAll, TracksAll-later, append_at, remove_from, TracksAll-Settled, TracksAll-Granted,
  TracksAll-released, TracksAll-cooled, Tracks-at, TracksAll-Sorted,
}
use open_proxy.Pool.{Pool, assemble, new, carry, sort_specs, find, release, penalize}

-- The pool and, lane by lane, the stamps granted and not returned, oldest first.
pub record Logged : Type 0 where
  pub pool : Pool
  pub grants : List (List ℕ)

pub data Call : Type 0 where
  reserves : Option ℕ → Option (List ℕ) → ℕ → Call
  releases : ℕ → ℕ → Call
  penalizes : ℕ → ℕ → ℕ → Call

unfoldable pub log : Reservation → List (List ℕ) → List (List ℕ)
log (ready i key stamp sticky) hs = append_at i stamp hs
log (wait d) hs = hs
log out_of_bounds hs = hs

-- A call that panics ends its own task and grants nothing.
abbrev or_same : Logged → List (List ℕ) → Option Pool → Logged
or_same s hs none = s
or_same s hs (some p) = record { pool = p; grants = hs }

unfoldable pub step : Logged → Call → Logged
unfolding log
step s (reserves prefer allowed now) =
    let (p, r) = reserve_filtered s.pool prefer allowed now in
    record { pool = p; grants = log r s.grants }
step s (releases i stamp) = or_same s (remove_from i stamp s.grants) (release s.pool i stamp)
step s (penalizes i backoff now) = or_same s s.grants (penalize s.pool i backoff now)

unfoldable pub run : Logged → List Call → Logged
run s [] = s
run s (c ∷ cs) = run (step s c) cs

unfoldable pub no_stamps : List Lane → List (List ℕ)
no_stamps = map (λ l. [])

unfoldable pub start : ℕ → List LaneSpec → Logged
unfolding no_stamps
start now specs = record { pool = new now specs; grants = no_stamps (new now specs).lanes }

-- The reservations come in the order of the clock: the dispatcher makes them one after another.
abbrev pub InOrder : ℕ → List Call → Type 0
InOrder clock [] = Unit
InOrder clock (reserves prefer allowed now ∷ cs) = (clock ≤ now) × InOrder now cs
InOrder clock (releases i stamp ∷ cs) = InOrder clock cs
InOrder clock (penalizes i backoff now ∷ cs) = InOrder clock cs

abbrev Logs : ℕ → Logged → Type 0
Logs clock s = TracksAll clock s.pool.lanes s.grants

Answered-Logs :
    (now : ℕ) (ls : List Lane) (hs : List (List ℕ)) (p : Pool) (r : Reservation)
    → Answered now ls (p, r)
    → TracksAll now ls hs
    → TracksAll now p.lanes (log r hs)
unfolding log
Answered-Logs now ls hs p (wait d) a t = TracksAll-Settled now ls p.lanes hs a t
Answered-Logs now ls hs p out_of_bounds a t = TracksAll-Settled now ls p.lanes hs a t
Answered-Logs now ls hs p (ready i key stamp sticky) a t =
    rw a.1 (TracksAll-Granted now i ls p.lanes hs a.0 t)

reserve-Logs :
    (clock now : ℕ) (prefer : Option ℕ) (allowed : Option (List ℕ)) (s : Logged)
    → clock ≤ now
    → Logs clock s
    → Logs now (step s (reserves prefer allowed now))
unfolding step
reserve-Logs clock now prefer allowed s le t =
    let (p, r) = reserve_filtered s.pool prefer allowed now in
    Answered-Logs now s.pool.lanes s.grants p r
      (reserve_filtered-Answered s.pool prefer allowed now)
      (TracksAll-later clock now s.pool.lanes s.grants le t)

release-Logs :
    (clock i stamp : ℕ) (s : Logged) → Logs clock s → Logs clock (step s (releases i stamp))
unfolding step release
release-Logs clock i stamp s t = elim (Option-cases (get_elem? s.pool.lanes i)) [
  | inl e ↦ rw (e, release) t
  | inr (l, e) ↦ rw (e, release) (TracksAll-released clock i stamp s.pool.lanes s.grants l e t)
]

penalize-Logs :
    (clock i backoff now : ℕ) (s : Logged)
    → Logs clock s
    → Logs clock (step s (penalizes i backoff now))
unfolding step penalize
penalize-Logs clock i backoff now s t = elim (Option-cases (get_elem? s.pool.lanes i)) [
  | inl e ↦ rw (e, penalize) t
  | inr (l, e) ↦ elim (Bool-cases (ltb l.cooldown_until (now + backoff))) [
    | inl f ↦
        rw (e, penalize, f) (TracksAll-cooled clock i (now + backoff) s.pool.lanes s.grants l e t)
    | inr f ↦ rw (e, penalize, f) t
  ]
]

fresh-Logs :
    (now : ℕ) (specs : List LaneSpec)
    → TracksAll now
        (map (λ s. carry now s (find s.key [])) specs)
        (no_stamps (map (λ s. carry now s (find s.key [])) specs))
unfolding no_stamps find carry
fresh-Logs now [] = tt
fresh-Logs now (s ∷ ss) = (
  record {
    old = [];
    split = refl;
    gone = tt;
    within = omega arith;
    paced = tt;
    sorted = tt;
    past = tt;
  },
  fresh-Logs now ss,
)

start-Logs : (now : ℕ) (specs : List LaneSpec) → Logs now (start now specs)
unfolding start new assemble
start-Logs now specs = fresh-Logs now (sort_specs specs)

run-Logs :
    (clock : ℕ) (s : Logged) (cs : List Call)
    → InOrder clock cs
    → Logs clock s
    → (now : ℕ) × Logs now (run s cs)
unfolding run
run-Logs clock s [] o t = (clock, t)
run-Logs clock s (reserves prefer allowed now ∷ cs) o t =
    run-Logs now (step s (reserves prefer allowed now)) cs o.1
      (reserve-Logs clock now prefer allowed s o.0 t)
run-Logs clock s (releases i stamp ∷ cs) o t =
    run-Logs clock (step s (releases i stamp)) cs o (release-Logs clock i stamp s t)
run-Logs clock s (penalizes i backoff now ∷ cs) o t =
    run-Logs clock (step s (penalizes i backoff now)) cs o (penalize-Logs clock i backoff now s t)

-- In every pool that such calls lead to, each lane's stamps stand in the order of the clock.
pub run-AllSorted :
    (t0 : ℕ) (specs : List LaneSpec) (cs : List Call)
    → InOrder t0 cs
    → All (λ l. Sorted l.sent) (run (start t0 specs) cs).pool.lanes
run-AllSorted t0 specs cs o =
    let (now, t) = run-Logs t0 (start t0 specs) cs o (start-Logs t0 specs) in
    TracksAll-Sorted now _ _ t

-- The rate limit. Whatever reservations, returned slots and cooldowns a pool serves, its clock never
-- going back between reservations: no 61 seconds, wherever they start, hold more grants of one key
-- than the key's `rpm`, the returned grants not counted.
pub rate_limit :
    (t0 : ℕ) (specs : List LaneSpec) (cs : List Call) (i a : ℕ) (l : Lane) (h : List ℕ)
    → InOrder t0 cs
    → get_elem? (run (start t0 specs) cs).pool.lanes i ≡ some l
    → get_elem? (run (start t0 specs) cs).grants i ≡ some h
    → in_window_from a h ≤ l.rpm
rate_limit t0 specs cs i a l h o e f =
    let (now, t) = run-Logs t0 (start t0 specs) cs o (start-Logs t0 specs) in
    let k : Tracks l.rpm now l h = Tracks-at now i _ _ l h t e f in
    in_window-le l.rpm a h k.sorted k.paced
