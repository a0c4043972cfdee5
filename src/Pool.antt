-- ===== src/Pool.antt =====
-- src/pool.rs: the key pool. The locks make each call one step, and `Instant::now()` is an argument.
pub mod Lanes
pub mod Reserve
pub mod Step
pub mod Pace
pub mod Tracks
pub mod History
pub mod Ready
pub mod Order
pub mod Scanned
pub mod Choice
pub mod Settling
pub mod Answer
pub mod Rebuild
pub mod Bounds
pub mod Indexed
use open_proxy.Common.{
  ℕ, zero, suc, ◌+◌, ◌-◌, ◌<◌, max, String, ◌≡◌, Bool, true, false, not, Option, none, some, List,
  [], ◌∷◌, ◌++◌, map, ltb, if◌then◌else◌, length, get_elem?, set, take, ◌/◌, contains, ◌==◌, nat_eq,
  string_eq,
}
use open_proxy.Common.Clock.{nanos_per_milli}
use open_proxy.Common.Count.{count}
use Lanes.{LaneSpec, Lane, window, remove_last}

-- Enabled lanes first, then the disabled ones that only carry state. Locks are not modelled.
pub record Pool : Type 0 where
  pub lanes : List Lane
  pub active : ℕ

unfoldable pub keep : (LaneSpec → Bool) → List LaneSpec → List LaneSpec
keep p [] = []
keep p (s ∷ ss) = if p s then s ∷ keep p ss else keep p ss

-- The stable sort by `!s.enabled`: the enabled specs in their order, then the others in theirs.
unfoldable pub sort_specs : List LaneSpec → List LaneSpec
unfolding keep
sort_specs ss = keep (λ s. s.enabled) ss ++ keep (λ s. not s.enabled) ss

-- `o.lanes.iter().find(|l| l.key == s.key)`
unfoldable pub find : String → List Lane → Option Lane
find key [] = none
find key (l ∷ ls) = if l.key == key then some l else find key ls

-- A kept key carries its window and its cooldown over; a new one starts with an empty window.
unfoldable pub carry : ℕ → LaneSpec → Option Lane → Lane
carry now s (some prev) = record {
  key = s.key;
  rpm = s.rpm;
  endpoint = s.endpoint;
  base_url = s.base_url;
  upstream = s.upstream;
  supports_stream_options = s.supports_stream_options;
  sent = prev.sent;
  cooldown_until = prev.cooldown_until;
}
carry now s none = record {
  key = s.key;
  rpm = s.rpm;
  endpoint = s.endpoint;
  base_url = s.base_url;
  upstream = s.upstream;
  supports_stream_options = s.supports_stream_options;
  sent = [];
  cooldown_until = now;
}

-- `old` is the lanes of the pool that is replaced, and empty for a first pool.
unfoldable pub assemble : ℕ → List LaneSpec → List Lane → Pool
unfolding sort_specs carry find
assemble now specs old = record {
  lanes = map (λ s. carry now s (find s.key old)) (sort_specs specs);
  active = count (λ s. s.enabled) specs;
}

unfoldable pub new : ℕ → List LaneSpec → Pool
unfolding assemble
new now specs = assemble now specs []

unfoldable pub rebuild : ℕ → Pool → List LaneSpec → Pool
unfolding assemble
rebuild now p specs = assemble now specs p.lanes

pub len : Pool → ℕ
len p = p.active

pub sum : List ℕ → ℕ
sum [] = 0
sum (n ∷ ns) = n + sum ns

pub rpms : Pool → List ℕ
rpms p = map (λ l. l.rpm) (take p.active p.lanes)

pub capacity_rpm : Pool → ℕ
unfolding rpms sum
capacity_rpm p = sum (rpms p)

collect : List Lane → List ℕ → List ℕ
collect [] out = out
collect (l ∷ ls) out = collect ls (if contains out l.endpoint then out else out ++ l.endpoint ∷ [])

pub active_endpoints : Pool → List ℕ
unfolding collect
active_endpoints p = collect (take p.active p.lanes) []

pub record LaneStat : Type 0 where
  pub key : String
  pub rpm : ℕ
  pub in_window : ℕ
  pub cooldown_ms : ℕ

pub lane_stat : ℕ → Lane → LaneStat
lane_stat now l = record {
  key = l.key;
  rpm = l.rpm;
  in_window = count (λ t. ltb (now - t) window) l.sent;
  cooldown_ms = (l.cooldown_until - now) / nanos_per_milli;
}

pub lane_stats : ℕ → Pool → List LaneStat
unfolding lane_stat
lane_stats now p = map (lane_stat now) (take p.active p.lanes)

-- The calls that index the lanes panic past their end: `none`.
unfoldable pub lane_endpoint : Pool → ℕ → Option (String × String × ℕ × Bool)
lane_endpoint p i = elim (get_elem? p.lanes i) [
  | none ↦ none
  | some l ↦ some (l.base_url, l.upstream, l.endpoint, l.supports_stream_options)
]

unfoldable pub release : Pool → ℕ → ℕ → Option Pool
release p i stamp = elim (get_elem? p.lanes i) [
  | none ↦ none
  | some l ↦
      some (record p { lanes = set p.lanes i (record l { sent = remove_last stamp l.sent }) })
]

-- The source writes the cooldown only when the new one ends later.
unfoldable pub penalize : Pool → ℕ → ℕ → ℕ → Option Pool
penalize p i backoff now = elim (get_elem? p.lanes i) [
  | none ↦ none
  | some l ↦ some (
      if ltb l.cooldown_until (now + backoff)
      then record p { lanes = set p.lanes i (record l { cooldown_until = now + backoff }) }
      else p)
]
