-- ===== src/Observation/Totals.antt =====
-- What `UsageState::finish` of src/observation.rs promises of the counts that it reports.
use open_proxy.Common.{ℕ, ◌+◌, ◌≤◌, ◌<◌, ◌≡◌, Option, arith}
use open_proxy.Observation.Seen.{Observation, measured}
use open_proxy.Observation.Usage.{
  UsageState, UsageObservations, u64_mod, check_total, check_part, fall_back, finish_usage,
}
use open_proxy.Observation.Seen.{number_result}

-- A measured total covers the measured parts, and their sum is a u64.
abbrev pub TotalCovers : Observation → Observation → Observation → Type 0
TotalCovers p c t =
    (x y z : ℕ) → p ≡ measured x → c ≡ measured y → t ≡ measured z → (x + y ≤ z) × (x + y < u64_mod)

-- A measured part belongs to a measured whole that is not smaller.
abbrev pub PartOf : Observation → Observation → Type 0
PartOf part whole = (n : ℕ) → part ≡ measured n → (m : ℕ) × (whole ≡ measured m) × (n ≤ m)

abbrev pub Consistent : UsageObservations → Type 0
Consistent r =
    TotalCovers r.prompt_tokens r.completion_tokens r.total_tokens
    × PartOf r.cached_tokens r.prompt_tokens
    × PartOf r.reasoning_tokens r.completion_tokens

check_total-TotalCovers :
    (e f : Option ℕ) (p c t : Observation)
    → TotalCovers (fall_back e p) (fall_back f c) (check_total p c t)
unfolding fall_back check_total
check_total-TotalCovers e f p c t = ground arith

check_part-PartOf :
    (e : Option ℕ) (whole part : Observation) → PartOf (check_part whole part) (fall_back e whole)
unfolding fall_back check_part
check_part-PartOf e (measured m) (measured k) = λ n h. (m, ground arith, ground arith)
check_part-PartOf e whole part = λ n h. absurd (ground arith)

-- Whatever the events said and whatever the estimates are, the counts of a finished response are
-- consistent: a measured total is at least the sum of a measured prompt and a measured completion,
-- which is a u64; measured cached tokens come with a measured prompt that is not smaller, and
-- measured reasoning tokens with such a completion.
pub finish_usage-Consistent :
    (u : UsageState) (estimate prompt_estimate : Option ℕ)
    → Consistent (finish_usage u estimate prompt_estimate)
unfolding finish_usage
finish_usage-Consistent u e f = (
  check_total-TotalCovers f e (number_result u.prompt) (number_result u.completion)
      (number_result u.total),
  check_part-PartOf f (number_result u.prompt) (number_result u.cached),
  check_part-PartOf e (number_result u.completion) (number_result u.reasoning),
)
