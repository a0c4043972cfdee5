-- ===== src/Pool/Lanes.antt =====
-- src/pool.rs: one key's lane, its sliding window and its cooldown. Time is an argument.
use open_proxy.Common.{
  ℕ, ◌+◌, ◌-◌, max, String, Bool, true, false, List, [], ◌∷◌, ◌++◌, leb, ltb, if◌then◌else◌, length,
  get_or, contains, ◌==◌, nat_eq,
}
use open_proxy.Common.Clock.{from_secs}

-- `WINDOW`: the upstream's 60 s and a second for delivery jitter.
abbrev pub window : ℕ
window = from_secs 61

pub record LaneSpec : Type 0 where
  pub key : String
  pub rpm : ℕ
  pub enabled : Bool
  pub endpoint : ℕ
  pub base_url : String
  pub upstream : String
  pub supports_stream_options : Bool

-- `sent` is the deque, its front first.
pub record Lane : Type 0 where
  pub key : String
  pub rpm : ℕ
  pub endpoint : ℕ
  pub base_url : String
  pub upstream : String
  pub supports_stream_options : Bool
  pub sent : List ℕ
  pub cooldown_until : ℕ

-- `while sent.front().is_some_and(|t| now - *t >= WINDOW) { sent.pop_front(); }`
unfoldable pub prune : ℕ → List ℕ → List ℕ
prune now [] = []
prune now (t ∷ ts) = if leb window (now - t) then prune now ts else t ∷ ts

abbrev pub pruned : ℕ → Lane → Lane
pruned now l = record l { sent = prune now l.sent }

abbrev pub taken : ℕ → Lane → Lane
taken now l = record l { sent = prune now l.sent ++ now ∷ [] }

-- The part of `try_take` that works on its lane: the lane after it, and whether a slot was taken.
unfoldable pub take_slot : ℕ → Lane → Lane × Bool
take_slot now l =
    if ltb now l.cooldown_until
    then (l, false)
    else if ltb (length (prune now l.sent)) l.rpm
    then (taken now l, true)
    else (pruned now l, false)

-- When the window of a lane that was just pruned next has room.
unfoldable pub window_ready : ℕ → Lane → ℕ
window_ready now l =
    if ltb (length l.sent) l.rpm
    then now
    else if leb l.rpm 0
    then now + window
    else get_or l.sent (length l.sent - l.rpm) 0 + window

unfoldable pub ready_at : ℕ → Lane → ℕ
unfolding window_ready
ready_at now l = max (window_ready now l) l.cooldown_until

-- `sent.iter().rposition(|t| *t == stamp)` and `sent.remove(pos)`: the last occurrence goes.
unfoldable pub remove_last : ℕ → List ℕ → List ℕ
remove_last stamp [] = []
remove_last stamp (t ∷ ts) =
    let rest = remove_last stamp ts in
    if contains ts stamp then t ∷ rest else if t == stamp then ts else t ∷ ts
