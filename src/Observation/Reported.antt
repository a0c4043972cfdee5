-- ===== src/Observation/Reported.antt =====
-- src/observation.rs: the prompt and completion tokens of a response, from the `usage` fields of its
-- events to `UsageState::finish`.
use open_proxy.Common.{ℕ, ◌≡◌, String, Option, none, some, List, [], ◌∷◌, map, All, nat_eq}
use open_proxy.Observation.Json
use open_proxy.Observation.Json.{Value, Fields, get_field, as_object, present}
use open_proxy.Observation.Seen.{Observation, Seen, observe_number}
use open_proxy.Observation.Usage.{UsageState, observe_usage}
use open_proxy.Observation.Agreement.{Agrees, Said}

-- The `usage` fields of the events, one after another.
pub observe_usages : UsageState → List (Option Value) → UsageState
observe_usages u [] = u
observe_usages u (v ∷ vs) = observe_usages (observe_usage u v) vs

-- What one `usage` field says of a count: nothing where it is absent or null, what is no number where
-- it is not an object, and else the field of that name.
pub stated : String → Option Value → Option Value
stated name usage = elim (present usage) [
  | none ↦ none
  | some v ↦ elim (as_object v) [
    | none ↦ some (Json.object Json.close)
    | some fs ↦ get_field name fs
  ]
]

-- All events that say anything of a count say `n`, and one does.
abbrev pub Stated : String → ℕ → List (Option Value) → Type 0
Stated name n us = All (Agrees n) (map (stated name) us) × Said n (map (stated name) us)

abbrev Tracks : UsageState → UsageState → Option Value → Type 0
Tracks u u' usage =
    (u'.prompt ≡ observe_number u.prompt (stated "prompt_tokens" usage))
    × (u'.completion ≡ observe_number u.completion (stated "completion_tokens" usage))
