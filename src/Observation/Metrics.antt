-- ===== src/Observation/Metrics.antt =====
-- `usage_observation_metrics` of src/observation.rs: the labels that the metrics count.
use open_proxy.Common.{String, List, [], ◌∷◌}
use open_proxy.Observation.Seen.{Observation, measured, estimated, unavailable, invalid}
use open_proxy.Observation.Usage.{UsageObservations}

pub record UsageObservationMetric : Type 0 where
  pub field : String
  pub result : String

abbrev pub result_label : Observation → String
result_label (measured n) = "measured"
result_label (estimated n) = "estimated"
result_label unavailable = "unavailable"
result_label invalid = "invalid"

abbrev metric_of : String → Observation → UsageObservationMetric
metric_of name o = record { field = name; result = result_label o }

unfoldable pub usage_observation_metrics : UsageObservations → List UsageObservationMetric
usage_observation_metrics usage =
    metric_of "prompt_tokens" usage.prompt_tokens
    ∷ metric_of "completion_tokens" usage.completion_tokens
    ∷ metric_of "total_tokens" usage.total_tokens
    ∷ metric_of "cached_tokens" usage.cached_tokens
    ∷ metric_of "reasoning_tokens" usage.reasoning_tokens
    ∷ []
