-- ===== src/Dispatch/Outcome.antt =====
-- How a round of the loop of src/dispatch.rs ends.
use open_proxy.Common.{
  ℕ, String, zero, suc, ◌+◌, ◌≤◌, ◌<◌, ◌≡◌, ◌≢◌, refl, ap, ◌∙◌, sym, subst, inr, true, false, some,
  List, [], ◌∷◌, ◌++◌, get_elem?, set, if◌then◌else◌, by_test, ltb, contains, nat_eq, arith,
}
use open_proxy.Pool.{Pool, lane_endpoint, release}
use open_proxy.Pool.Lanes.{Lane, prune, pruned, remove_last}
use open_proxy.Pool.Reserve.{Reservation, ready, wait, out_of_bounds, reserve_filtered}
use open_proxy.Pool.Bounds.{InBounds, reserve_filtered-InBounds}
use open_proxy.Pool.Step.{Takes, Settled, Granted, Effect, reserve_filtered-Answered}
use open_proxy.Dispatch.{
  Waiter, Poll, Turn, left, granted, returned, expired, panicked, asleep, hand_back, slot_of,
  send_slot, longest_sleep, answer, turn,
}

-- What each way to end says: of a slot, that its lane took it and that the client received it; of a
-- slot that no client received, that every lane is as before but for expired stamps; of a wait, that
-- it ends behind the deadline or that the sleep is short and ends before it.
abbrev pub Outcome : Waiter → Poll → Turn → Type 0
Outcome w q left = q.closed ≡ true
Outcome w q (granted slot p) = (q.received ≡ true) × Granted q.now slot.lane q.pool.lanes p.lanes
Outcome w q (returned p) = (q.received ≡ false) × Settled q.now q.pool.lanes p.lanes
Outcome w q (expired p) =
    Settled q.now q.pool.lanes p.lanes
    × ((d : ℕ) × ((reserve_filtered q.pool w.prefer w.allowed q.now).1 ≡ wait d)
        × (w.deadline < q.judged_at + d))
Outcome w q (panicked p) = ⊥
Outcome w q (asleep n p) =
    Settled q.now q.pool.lanes p.lanes × (n ≤ longest_sleep) × (q.judged_at + n ≤ w.deadline)

contains-snoc : (now : ℕ) (ts : List ℕ) → contains (ts ++ now ∷ []) now ≡ true
unfolding contains
contains-snoc now [] = ground arith
contains-snoc now (t ∷ ts) = ground (arith, contains-snoc now ts)

remove_last-taken : (now : ℕ) (ts : List ℕ) → remove_last now (ts ++ now ∷ []) ≡ ts
unfolding remove_last contains
remove_last-taken now [] = ground arith
remove_last-taken now (t ∷ ts) = rw (contains-snoc now ts, remove_last-taken now ts)

untaken :
    (now : ℕ) (l l' : Lane)
    → Takes now l l'
    → record l' { sent = remove_last now l'.sent } ≡ pruned now l
untaken now l l' (c, lt, e) =
    ap {A = Lane} {B = Lane} (λ x. record x { sent = remove_last now x.sent }) e
    ∙ ap {A = List ℕ} {B = Lane} (λ ts. record l { sent = ts })
        (remove_last-taken now (prune now l.sent))

-- A lane that took a slot gives it back.
given_back :
    (now i : ℕ) (ls ls' : List Lane)
    → Granted now i ls ls'
    → (l' : Lane) × (get_elem? ls' i ≡ some l')
      × Settled now ls (set ls' i (record l' { sent = remove_last now l'.sent }))
given_back now i [] ls' g = absurd g
given_back now i (l ∷ ls) [] g = absurd g
given_back now zero (l ∷ ls) (l' ∷ ls') g = (l', refl, (inr (untaken now l l' g.0), g.1))
given_back now (suc i) (l ∷ ls) (l' ∷ ls') g =
    let (x, e, s) = given_back now i ls ls' g.1 in (x, e, (g.0, s))

hand_back_eq :
    (p : Pool) (lane stamp : ℕ) (l : Lane)
    → get_elem? p.lanes lane ≡ some l
    → hand_back p lane stamp
      ≡ returned
          (record p { lanes = set p.lanes lane (record l { sent = remove_last stamp l.sent }) })
unfolding hand_back release
hand_back_eq p lane stamp l e = rw (e, hand_back, release)

hand_back-Outcome :
    (w : Waiter) (q : Poll) (p : Pool) (lane : ℕ)
    → q.received ≡ false
    → Granted q.now lane q.pool.lanes p.lanes
    → Outcome w q (hand_back p lane q.now)
hand_back-Outcome w q p lane r g =
    let (l, e, s) = given_back q.now lane q.pool.lanes p.lanes g in
    subst (Outcome w q) (sym (hand_back_eq p lane q.now l e)) (r, s)

send_slot_eq :
    (q : Poll) (p : Pool) (lane stamp : ℕ) (key : String) (l : Lane)
    → get_elem? p.lanes lane ≡ some l
    → send_slot q p lane key stamp ≡ (
        if q.received
        then granted
            (slot_of lane key (l.base_url, l.upstream, l.endpoint, l.supports_stream_options))
            p
        else hand_back p lane stamp)
unfolding send_slot lane_endpoint
send_slot_eq q p lane stamp key l e = rw (e, send_slot, lane_endpoint)

send_slot-Outcome :
    (w : Waiter) (q : Poll) (p : Pool) (lane : ℕ) (key : String)
    → Granted q.now lane q.pool.lanes p.lanes
    → Outcome w q (send_slot q p lane key q.now)
send_slot-Outcome w q p lane key g =
    let (l, e, s) = given_back q.now lane q.pool.lanes p.lanes g in
    subst (Outcome w q) (sym (send_slot_eq q p lane q.now key l e))
      (by_test (Outcome w q) q.received (λ r. (r, g)) (λ r. hand_back-Outcome w q p lane r g))

answer-Outcome :
    (w : Waiter) (q : Poll) (r : Pool × Reservation)
    → (reserve_filtered q.pool w.prefer w.allowed q.now) ≡ r
    → r.1 ≢ out_of_bounds
    → Effect q.now q.pool.lanes r.0.lanes (some r.1)
    → Outcome w q (answer w q r)
unfolding answer
answer-Outcome w q (p, ready lane key stamp sticky) e in_bounds (g, same) =
    subst (λ t. Outcome w q (send_slot q p lane key t)) (sym same)
      (send_slot-Outcome w q p lane key g)
answer-Outcome w q (p, out_of_bounds) e in_bounds s = absurd (in_bounds refl)
answer-Outcome w q (p, wait d) e in_bounds s =
    by_test (Outcome w q) (ltb w.deadline (q.judged_at + d))
      (λ late. (s, (d, ap (λ r. r.1) e, ground arith))) (λ soon. (s, ground arith, ground arith))

-- On a pool with a lane for each active index, as every pool that is built has, a round of the loop
-- ends right, however it ends, and never panics on a lane that is not there. A slot is handed over
-- only if its lane had room and took it. A slot that the client no longer takes is returned: every
-- lane is then as it was, but for expired stamps. The waiter fails only if the pool's wait ends behind
-- its deadline; otherwise it sleeps at most 500 ms and not past the deadline.
pub turn-Outcome : (w : Waiter) (q : Poll) → InBounds q.pool → Outcome w q (turn w q)
unfolding turn
turn-Outcome w q h =
    by_test (Outcome w q) q.closed (λ c. c)
      (λ c.
        answer-Outcome w q (reserve_filtered q.pool w.prefer w.allowed q.now) refl
          (reserve_filtered-InBounds q.pool w.prefer w.allowed q.now h).0
          (reserve_filtered-Answered q.pool w.prefer w.allowed q.now))
