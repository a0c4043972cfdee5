-- ===== src/Examples/Models.antt =====
-- The theorems on src/governor.rs at concrete inputs.
use open_proxy.Common.{
  ◌+◌, ◌-◌, ◌/◌, ◌≤◌, max, ◌≡◌, ◌⊎◌, refl, true, false, none, some, List, [], ◌∷◌, arith,
}
use open_proxy.Common.Clock.{from_secs}
use open_proxy.Governor.{Call, admits, releases, init, entry, run, admit_at, note_exhausted_at}
use open_proxy.Governor.State.{grow_interval, dissolve_after}
use open_proxy.Governor.Local.{local_run}
use open_proxy.Governor.Independence.{calls_of, local_call, entry-run}
use open_proxy.Governor.Caps.{Decision, admit_at-Decision, Pinned-cap}
use open_proxy.Governor.Recovery.{drain_gap, growth_bound, dissolves}
use open_proxy.Governor.Permits.{requests, drops, history, start, held_on, inflight-held}

abbrev two_admissions : List Call
two_admissions = admits "m" (some 1) 5 ∷ admits "n" none 6 ∷ admits "m" (some 1) 7 ∷ []

inflight-held_example :
    (entry
      (history start (requests "m" none 1 ∷ requests "m" none 2 ∷ drops 0 ∷ [])).governor
      "m").inflight
    ≡ held_on "m" (history start (requests "m" none 1 ∷ requests "m" none 2 ∷ drops 0 ∷ [])).permits
inflight-held_example = inflight-held (requests "m" none 1 ∷ requests "m" none 2 ∷ drops 0 ∷ []) "m"

Pinned-cap_example : (entry (run init two_admissions) "m").inflight ≤ 1
unfolding calls_of local_call
Pinned-cap_example = Pinned-cap "m" 1 two_admissions (omega arith) (refl, (refl, tt))

admit_at-Decision_example : Decision (some 1) 8 (entry (run init two_admissions) "m") (
  entry (admit_at (run init two_admissions) "m" (some 1) 8).0 "m",
  (admit_at (run init two_admissions) "m" (some 1) 8).1,
)
admit_at-Decision_example = admit_at-Decision (run init two_admissions) "m" (some 1) 8

entry-run_example :
    entry (run init two_admissions) "m" ≡ local_run (entry init "m") (calls_of "m" two_admissions)
entry-run_example = entry-run init two_admissions "m"

abbrev later_calls : List Call
later_calls = admits "m" none (from_secs 10) ∷ releases "m" ∷ admits "m" none (from_secs 90) ∷ []

drain_gap_example :
    (admit_at
      (run (note_exhausted_at (run init two_admissions) "m" none (from_secs 9)) later_calls)
      "m"
      none
      (from_secs 10)).1
    ≡ false
unfolding calls_of local_call
drain_gap_example =
    drain_gap (run init two_admissions) "m" none none (from_secs 9) (from_secs 10) later_calls
      (omega arith, (tt, (omega arith, tt))) (omega arith)

growth_bound_example :
    let s =
      entry
        (run (note_exhausted_at (run init two_admissions) "m" none (from_secs 9)) later_calls)
        "m" in
    (s.limit
      ≤ max ((entry (run init two_admissions) "m").inflight / 2) 1
        + (from_secs 100 - from_secs 9) / grow_interval)
    × ((from_secs 9 + dissolve_after ≤ from_secs 100) ⊎ (1 ≤ s.limit))
unfolding calls_of local_call
growth_bound_example =
    growth_bound (run init two_admissions) "m" (from_secs 9) (from_secs 100) later_calls
      (omega arith) ((omega arith, omega arith), (tt, ((omega arith, omega arith), tt)))

dissolves_example :
    let after =
      admit_at
        (run (note_exhausted_at (run init two_admissions) "m" none (from_secs 9)) later_calls)
        "m"
        none
        (from_secs 2000) in
    (after.1 ≡ true) × ((entry after.0 "m").limit ≡ 0)
unfolding calls_of local_call
dissolves_example =
    dissolves (run init two_admissions) "m" (from_secs 9) (from_secs 2000) later_calls
      ((omega arith, omega arith), (tt, ((omega arith, omega arith), tt))) (omega arith)
