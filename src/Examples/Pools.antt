-- ===== src/Examples/Pools.antt =====
-- The theorems on src/pool.rs and src/dispatch.rs at concrete inputs.
use open_proxy.Common.{
  ◌≢◌, ℕ, String, ◌≤◌, ◌≡◌, refl, true, false, none, some, List, [], ◌∷◌, map, All, length, arith,
}
use open_proxy.Common.Clock.{from_secs}
use open_proxy.Pool.Lanes.{LaneSpec, Lane, take_slot, prune, window_ready, ready_at}
use open_proxy.Pool.{
  Pool, new, rebuild, len, rpms, capacity_rpm, sum, assemble, sort_specs, keep, find, carry,
}
use open_proxy.Pool.Reserve.{
  out_of_bounds, reserve_filtered, try_preferred, reserve_least, try_take, take_first, sort_ready,
  insert_ready, scan, note, eligible,
}
use open_proxy.Pool.History.{
  Call, reserves, run, step, start, log, no_stamps, run-AllSorted, rate_limit,
}
use open_proxy.Pool.Pace.{Sorted, in_window_from}
use open_proxy.Pool.Tracks.{append_at}
use open_proxy.Pool.Answer.{Answer, reserve_filtered-Answer}
use open_proxy.Pool.Rebuild.{
  Holds, names_key, rebuilds, rebuilds-Holds, enabled_specs, rebuild-enabled,
}
use open_proxy.Pool.Bounds.{InBounds}
use open_proxy.Pool.Indexed.{reserve_filtered-run}
use open_proxy.Dispatch.{Waiter, Poll, turn}
use open_proxy.Dispatch.Outcome.{Outcome, turn-Outcome}

abbrev spec_of : String → ℕ → LaneSpec
spec_of k n = record {
  key = k;
  rpm = n;
  enabled = true;
  endpoint = 0;
  base_url = "https://integrate.api.nvidia.com";
  upstream = "nvidia";
  supports_stream_options = true;
}

abbrev lane_of : String → ℕ → List ℕ → Lane
lane_of k n stamps = record {
  key = k;
  rpm = n;
  endpoint = 0;
  base_url = "https://integrate.api.nvidia.com";
  upstream = "nvidia";
  supports_stream_options = true;
  sent = stamps;
  cooldown_until = 0;
}

abbrev two_lanes : Pool
two_lanes = record {
  lanes = lane_of "k0" 1 (5 ∷ []) ∷ lane_of "k1" 2 (3 ∷ 7 ∷ []) ∷ [];
  active = 2;
}

abbrev three_calls : List Call
three_calls = reserves none none 10 ∷ reserves none none 20 ∷ reserves none none 30 ∷ []

rate_limit_example : in_window_from 10 (10 ∷ 20 ∷ []) ≤ 2
unfolding run step start new assemble sort_specs keep find carry log no_stamps reserve_filtered
    try_preferred reserve_least try_take take_first sort_ready insert_ready scan note eligible
    take_slot prune window_ready ready_at append_at
rate_limit_example =
    rate_limit 0 (spec_of "k0" 2 ∷ []) three_calls 0 10 (lane_of "k0" 2 (10 ∷ 20 ∷ []))
      (10 ∷ 20 ∷ []) (omega arith, (omega arith, (omega arith, tt))) refl refl

run-AllSorted_example :
    All (λ l. Sorted l.sent) (run (start 0 (spec_of "k0" 2 ∷ [])) three_calls).pool.lanes
run-AllSorted_example =
    run-AllSorted 0 (spec_of "k0" 2 ∷ []) three_calls
      (omega arith, (omega arith, (omega arith, tt)))

reserve_filtered-Answer_example :
    Answer two_lanes
      (some 0)
      none
      (from_secs 61)
      (reserve_filtered two_lanes (some 0) none (from_secs 61)).1
reserve_filtered-Answer_example =
    reserve_filtered-Answer two_lanes (some 0) none (from_secs 61)
      ((tt, tt), (((omega arith, tt), (tt, tt)), tt))

rebuilds-Holds_example :
    Holds "k1"
      (lane_of "k1" 2 (3 ∷ 7 ∷ []))
      (rebuilds two_lanes (
        (9, record (spec_of "k1" 2) { enabled = false } ∷ [])
        ∷ (12, spec_of "k1" 5 ∷ [])
        ∷ [])).lanes
unfolding find names_key
rebuilds-Holds_example =
    rebuilds-Holds two_lanes
      ((9, record (spec_of "k1" 2) { enabled = false } ∷ []) ∷ (12, spec_of "k1" 5 ∷ []) ∷ []) "k1"
      (lane_of "k1" 2 (3 ∷ 7 ∷ [])) refl (refl, (refl, tt))

rebuild-enabled_example :
    (len (rebuild 9 two_lanes (spec_of "k1" 5 ∷ [])) ≡ length (enabled_specs (spec_of "k1" 5 ∷ [])))
    × (rpms (rebuild 9 two_lanes (spec_of "k1" 5 ∷ []))
        ≡ map (λ s. s.rpm) (enabled_specs (spec_of "k1" 5 ∷ [])))
    × (capacity_rpm (rebuild 9 two_lanes (spec_of "k1" 5 ∷ []))
        ≡ sum (map (λ s. s.rpm) (enabled_specs (spec_of "k1" 5 ∷ []))))
rebuild-enabled_example = rebuild-enabled 9 two_lanes (spec_of "k1" 5 ∷ [])

abbrev patient : Waiter
patient = record { deadline = from_secs 900; prefer = none; allowed = none }

abbrev gone : Poll
gone = record {
  closed = false;
  pool = two_lanes;
  now = from_secs 62;
  received = false;
  judged_at = from_secs 62;
}

turn-Outcome_example : Outcome patient gone (turn patient gone)
turn-Outcome_example = turn-Outcome patient gone (omega arith)

reserve_filtered-run_example :
    let p = (run (start 0 (spec_of "k0" 2 ∷ [])) three_calls).pool in
    ((reserve_filtered p (some 0) none 30).1 ≢ out_of_bounds)
    × ((reserve_filtered (rebuild 25 p []) (some 0) none 30).1 ≢ out_of_bounds)
    × InBounds (rebuild 25 p [])
reserve_filtered-run_example =
    reserve_filtered-run 0 25 (spec_of "k0" 2 ∷ []) [] three_calls (some 0) none 30
