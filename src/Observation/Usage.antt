-- ===== src/Observation/Usage.antt =====
-- src/observation.rs: `UsageState`, the token counts of one response.
use open_proxy.Common.{ℕ, ◌+◌, ◌^◌, String, Option, none, some, if◌then◌else◌, ltb, leb}
use open_proxy.Observation.Json.{Value, Fields, get_field, as_object, present}
use open_proxy.Observation.Seen.{
  Observation, measured, estimated, unavailable, invalid, Seen, absent, conflict, observe_number,
  number_result,
}

abbrev pub u64_mod : ℕ
u64_mod = 2 ^ 64

pub record UsageState : Type 0 where
  pub cached : Seen ℕ
  pub completion : Seen ℕ
  pub prompt : Seen ℕ
  pub reasoning : Seen ℕ
  pub total : Seen ℕ

abbrev pub no_usage : UsageState
no_usage = record {
  cached = absent;
  completion = absent;
  prompt = absent;
  reasoning = absent;
  total = absent;
}

pub record UsageObservations : Type 0 where
  pub cached_tokens : Observation
  pub completion_tokens : Observation
  pub prompt_tokens : Observation
  pub reasoning_tokens : Observation
  pub total_tokens : Observation

abbrev pub unavailable_usage : UsageObservations
unavailable_usage = record {
  cached_tokens = unavailable;
  completion_tokens = unavailable;
  prompt_tokens = unavailable;
  reasoning_tokens = unavailable;
  total_tokens = unavailable;
}

abbrev pub all_conflict : UsageState
all_conflict = record {
  cached = conflict;
  completion = conflict;
  prompt = conflict;
  reasoning = conflict;
  total = conflict;
}

-- One field of a details object: absent or null says nothing, another type is a conflict.
observe_detail : String → Option Value → Seen ℕ → Seen ℕ
observe_detail name details s = elim (present details) [
  | none ↦ s
  | some v ↦ elim (as_object v) [ none ↦ conflict | some fs ↦ observe_number s (get_field name fs) ]
]

observe_fields : UsageState → Fields → UsageState
unfolding observe_detail
observe_fields u fs = record {
  prompt = observe_number u.prompt (get_field "prompt_tokens" fs);
  completion = observe_number u.completion (get_field "completion_tokens" fs);
  total = observe_number u.total (get_field "total_tokens" fs);
  cached = observe_detail "cached_tokens" (get_field "prompt_tokens_details" fs) u.cached;
  reasoning =
      observe_detail "reasoning_tokens" (get_field "completion_tokens_details" fs) u.reasoning;
}

-- `UsageState::observe`
unfoldable pub observe_usage : UsageState → Option Value → UsageState
unfolding observe_fields
observe_usage u usage = elim (present usage) [
  | none ↦ u
  | some v ↦ elim (as_object v) [ none ↦ all_conflict | some fs ↦ observe_fields u fs ]
]

-- A total below the sum of its measured parts, or a sum that overflows u64, is invalid.
unfoldable pub check_total : Observation → Observation → Observation → Observation
check_total (measured p) (measured c) (measured t) =
    if leb u64_mod (p + c) then invalid else if ltb t (p + c) then invalid else measured t
check_total (measured p) (measured c) total = if leb u64_mod (p + c) then invalid else total
check_total prompt completion total = total

-- A measured part wants a measured whole that is not smaller.
unfoldable pub check_part : Observation → Observation → Observation
check_part (measured whole) (measured part) = if leb part whole then measured part else invalid
check_part whole (measured part) = invalid
check_part whole part = part

-- An estimate stands in for what is unavailable, if it is positive.
unfoldable pub fall_back : Option ℕ → Observation → Observation
fall_back (some n) unavailable = if ltb 0 n then estimated n else unavailable
fall_back estimate o = o

-- `UsageState::finish`
unfoldable pub finish_usage : UsageState → Option ℕ → Option ℕ → UsageObservations
unfolding check_total check_part fall_back number_result
finish_usage u estimate prompt_estimate =
    let prompt = number_result u.prompt in
    let completion = number_result u.completion in
    record {
      cached_tokens = check_part prompt (number_result u.cached);
      completion_tokens = fall_back estimate completion;
      prompt_tokens = fall_back prompt_estimate prompt;
      reasoning_tokens = check_part completion (number_result u.reasoning);
      total_tokens = check_total prompt completion (number_result u.total);
    }
