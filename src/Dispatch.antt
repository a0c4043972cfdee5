-- ===== src/Dispatch.antt =====
-- src/dispatch.rs: the dispatcher's loop over one waiter. What happens between its polls (time, other
-- callers of the pool, a swap of the pool, the client) is what the next poll finds.
pub mod Outcome
use open_proxy.Common.{
  ℕ, ◌+◌, min, String, Bool, true, false, Option, none, some, List, [], ◌∷◌, if◌then◌else◌, ltb,
}
use open_proxy.Common.Clock.{from_millis}
use open_proxy.Pool.{Pool, lane_endpoint, release}
use open_proxy.Pool.Reserve.{Reservation, ready, wait, out_of_bounds, reserve_filtered}

-- `Slot`; the pool that granted it is a value of its own here.
pub record Slot : Type 0 where
  pub lane : ℕ
  pub key : String
  pub base_url : String
  pub upstream : String
  pub endpoint : ℕ
  pub supports_stream_options : Bool

pub record Waiter : Type 0 where
  pub deadline : ℕ
  pub prefer : Option ℕ
  pub allowed : Option (List ℕ)

-- What one round of the loop finds: whether the waiter has hung up, the current pool, the time of the
-- reservation, whether the waiter still receives a slot then, and the time at which a wait is judged.
pub record Poll : Type 0 where
  pub closed : Bool
  pub pool : Pool
  pub now : ℕ
  pub received : Bool
  pub judged_at : ℕ

-- How a round ends, with the pool after it.
pub data Turn : Type 0 where
  left : Turn
  granted : Slot → Pool → Turn
  returned expired panicked : Pool → Turn
  asleep : ℕ → Pool → Turn

unfoldable pub hand_back : Pool → ℕ → ℕ → Turn
hand_back p lane stamp = elim (release p lane stamp) [ none ↦ panicked p | some p' ↦ returned p' ]

abbrev pub slot_of : ℕ → String → String × String × ℕ × Bool → Slot
slot_of lane key (url, upstream, endpoint, stream_options) = record {
  lane = lane;
  key = key;
  base_url = url;
  upstream = upstream;
  endpoint = endpoint;
  supports_stream_options = stream_options;
}

unfoldable pub send_slot : Poll → Pool → ℕ → String → ℕ → Turn
send_slot q p lane key stamp = elim (lane_endpoint p lane) [
  | none ↦ panicked p
  | some tags ↦ if q.received then granted (slot_of lane key tags) p else hand_back p lane stamp
]

abbrev pub longest_sleep : ℕ
longest_sleep = from_millis 500

unfoldable pub answer : Waiter → Poll → Pool × Reservation → Turn
answer w q (p, ready lane key stamp sticky) = send_slot q p lane key stamp
answer w q (p, wait d) =
    if ltb w.deadline (q.judged_at + d) then expired p else asleep (min d longest_sleep) p
answer w q (p, out_of_bounds) = panicked p

-- One round of the loop.
unfoldable pub turn : Waiter → Poll → Turn
turn w q = if q.closed then left else answer w q (reserve_filtered q.pool w.prefer w.allowed q.now)

abbrev pub is_asleep : Turn → Bool
is_asleep left = false
is_asleep (granted slot p) = false
is_asleep (returned p) = false
is_asleep (expired p) = false
is_asleep (panicked p) = false
is_asleep (asleep n p) = true

-- The loop, over the rounds that it gets: `none` if it sleeps behind the last of them.
unfoldable pub run : Waiter → List Poll → Option Turn
run w [] = none
run w (q ∷ qs) = let rest = run w qs in if is_asleep (turn w q) then rest else some (turn w q)
