-- ===== src/Observation/State.antt =====
-- src/observation.rs: `ObservationState`, all that is kept of one response.
use open_proxy.Common.{
  ℕ, ◌+◌, String, Bool, true, false, not, ◌&&◌, ◌||◌, Option, none, some, List, [], ◌∷◌, map,
  if◌then◌else◌, ltb, leb, length, contains, nat_eq, is_some,
}
use open_proxy.Observation.Json.{
  Value, Fields, get, get_field, as_array, as_object, as_u64, present,
}
use open_proxy.Observation.Seen.{
  Observation, measured, unavailable, invalid, Seen, absent, FinishReason, FinishResult,
  observe_finish, finish_result,
}
use open_proxy.Observation.Usage.{
  UsageState, UsageObservations, no_usage, unavailable_usage, observe_usage, finish_usage, u64_mod,
}
use open_proxy.Observation.Tables.{upsert, keys, pair_eq}

pub data StreamOutcome : Type 0 where
  completed deadline disconnected truncated : StreamOutcome

abbrev pub max_indexed : ℕ
max_indexed = 128

pub record ObservationState : Type 0 where
  pub finishes : List (ℕ × Seen FinishReason)
  pub finishes_overflowed : Bool
  pub buffered_tool_calls : ℕ
  pub observed_stream : Bool
  pub tools_invalid : Bool
  pub tools_present : Bool
  pub tool_pairs : List (ℕ × ℕ)
  pub usage : UsageState

abbrev pub blank : ObservationState
blank = record {
  finishes = [];
  finishes_overflowed = false;
  buffered_tool_calls = 0;
  observed_stream = false;
  tools_invalid = false;
  tools_present = false;
  tool_pairs = [];
  usage = no_usage;
}

pub record FinishObservation : Type 0 where
  pub choice_index : ℕ
  pub result : FinishResult

pub record ResponseObservations : Type 0 where
  pub finish_reasons : List FinishObservation
  pub tool_calls : Observation
  pub usage : UsageObservations

-- `finish_for(index)` and what the caller does with the entry that it returns.
unfoldable pub finish_for :
    ℕ → (Seen FinishReason → Seen FinishReason) → ObservationState → ObservationState
finish_for index f s =
    if contains (keys s.finishes) index || ltb (length s.finishes) max_indexed
    then record s { finishes = upsert index absent f s.finishes }
    else record s { finishes_overflowed = true }

unfoldable pub remember_tool_pair : ℕ × ℕ → ObservationState → ObservationState
remember_tool_pair pair s =
    if contains s.tool_pairs pair
    then s
    else if ltb (length s.tool_pairs) max_indexed
    then record s { tool_pairs = pair ∷ s.tool_pairs }
    else record s { tools_invalid = true }

abbrev pub spoil : ObservationState → ObservationState
spoil s = record s { tools_invalid = true }

-- `choice.get("index").and_then(as_u64)`
abbrev pub index_of : Fields → Option ℕ
index_of fs = elim (get_field "index" fs) [ none ↦ none | some v ↦ as_u64 v ]

-- `fields.get(name)` as an array: absent, an array, or something else.
pub data Listed : Type 0 where
  missing malformed : Listed
  listed : List Value → Listed

abbrev listed_field : String → Fields → Listed
listed_field name fs = elim (get_field name fs) [
  | none ↦ missing
  | some v ↦ elim (as_array v) [ none ↦ malformed | some vs ↦ listed vs ]
]

-- `choice.get(outer)` as an object and its `tool_calls`.
unfoldable pub tool_calls_in : String → Fields → Listed
tool_calls_in outer choice = elim (get_field outer choice) [
  | none ↦ missing
  | some v ↦ elim (as_object v) [ none ↦ malformed | some fs ↦ listed_field "tool_calls" fs ]
]

-- One choice of a buffered response; `calls` is the count so far, a u64.
unfoldable pub count_calls : ℕ → ObservationState → Listed → ObservationState × ℕ
count_calls calls s missing = (s, calls)
count_calls calls s malformed = (spoil s, calls)
count_calls calls s (listed vs) =
    if leb u64_mod (calls + length vs) then (spoil s, calls) else (s, calls + length vs)

unfoldable pub buffered_choice : ObservationState → ℕ → Value → ObservationState × ℕ
buffered_choice s calls choice = elim (as_object choice) [
  | none ↦ (spoil s, calls)
  | some fs ↦ elim (index_of fs) [
    | none ↦ (spoil s, calls)
    | some index ↦
        count_calls calls
          (finish_for index (λ e. observe_finish e (get_field "finish_reason" fs)) s)
          (tool_calls_in "message" fs)
  ]
]

unfoldable pub buffered_choices : ObservationState → ℕ → List Value → ObservationState
buffered_choices s calls [] = record s { buffered_tool_calls = calls }
buffered_choices s calls (choice ∷ rest) =
    let (s', calls') = buffered_choice s calls choice in buffered_choices s' calls' rest

-- `ObservationState::observe_buffered`
unfoldable pub observe_buffered_value : ObservationState → Value → ObservationState
observe_buffered_value s v =
    let s' = record s { usage = observe_usage s.usage (get "usage" v) } in
    elim (get "choices" v) [
      | none ↦ s'
      | some choices ↦ elim (as_array choices) [
        | none ↦ spoil s'
        | some vs ↦ buffered_choices (record s' { tools_present = true }) 0 vs
      ]
    ]

unfoldable pub stream_tool_call : ℕ → ObservationState → Value → ObservationState
stream_tool_call index s call = elim (as_object call) [
  | none ↦ spoil s
  | some fs ↦ elim (index_of fs) [
    | none ↦ spoil s
    | some tool_index ↦ remember_tool_pair (index, tool_index) s
  ]
]

unfoldable pub stream_tool_calls : ℕ → ObservationState → List Value → ObservationState
stream_tool_calls index s [] = s
stream_tool_calls index s (call ∷ rest) =
    stream_tool_calls index (stream_tool_call index s call) rest

unfoldable pub stream_delta : ℕ → ObservationState → Listed → ObservationState
stream_delta index s missing = s
stream_delta index s malformed = spoil s
stream_delta index s (listed vs) = stream_tool_calls index s vs

-- One choice of a streamed event, and whether the event is still countable.
unfoldable pub stream_choice : ObservationState → Bool → Value → ObservationState × Bool
stream_choice s countable choice = elim (as_object choice) [
  | none ↦ (spoil s, false)
  | some fs ↦ elim (index_of fs) [
    | none ↦ (spoil s, false)
    | some index ↦
        let finish = get_field "finish_reason" fs in
        let s' = finish_for index (λ e. observe_finish e finish) s in
        (
          stream_delta index s' (tool_calls_in "delta" fs),
          not (is_some (present finish)) && countable,
        )
  ]
]

unfoldable pub stream_choices : ObservationState → Bool → List Value → ObservationState × Bool
stream_choices s countable [] = (s, countable)
stream_choices s countable (choice ∷ rest) =
    let (s', countable') = stream_choice s countable choice in stream_choices s' countable' rest

abbrev pub nonempty : List Value → Bool
nonempty [] = false
nonempty (v ∷ vs) = true

-- `ObservationState::observe_stream`: the state, and whether the event counts towards the estimate.
unfoldable pub observe_stream : ObservationState → Value → ObservationState × Bool
observe_stream s v =
    let s' = record s { observed_stream = true; usage = observe_usage s.usage (get "usage" v) } in
    elim (get "choices" v) [
      | none ↦ (s', false)
      | some choices ↦ elim (as_array choices) [
        | none ↦ (spoil s', false)
        | some vs ↦ stream_choices (record s' { tools_present = true }) (nonempty vs) vs
      ]
    ]

unfoldable pub remember_index : ObservationState → Value → ObservationState
remember_index s choice = elim (as_object choice) [
  | none ↦ s
  | some fs ↦ elim (index_of fs) [ none ↦ s | some index ↦ finish_for index (λ e. e) s ]
]

unfoldable pub remember_indexes : ObservationState → List Value → ObservationState
remember_indexes s [] = s
remember_indexes s (choice ∷ rest) = remember_indexes (remember_index s choice) rest

unfoldable pub remember_choice_indexes : ObservationState → Value → ObservationState
remember_choice_indexes s v = elim (get "choices" v) [
  | none ↦ s
  | some choices ↦ elim (as_array choices) [ none ↦ s | some vs ↦ remember_indexes s vs ]
]

abbrev pub lost : StreamOutcome → Bool
lost disconnected = true
lost truncated = true
lost completed = false
lost deadline = false

unfoldable pub finish_tools : ObservationState → Bool → Observation
finish_tools s incomplete =
    if incomplete
    then unavailable
    else if s.tools_invalid
    then invalid
    else if not s.tools_present
    then unavailable
    else if s.observed_stream
    then measured (length s.tool_pairs)
    else measured s.buffered_tool_calls

unfoldable pub finish_entry : Bool → Bool → ℕ × Seen FinishReason → FinishObservation
finish_entry incomplete overflowed (index, seen) = record {
  choice_index = index;
  result =
      if incomplete
      then finish_result true seen
      else if overflowed
      then FinishResult.invalid
      else finish_result false seen;
}

-- `ObservationState::finish`
unfoldable pub finish :
    ObservationState → StreamOutcome → Bool → Option ℕ → Option ℕ → ResponseObservations
finish s outcome incomplete estimate prompt_estimate = record {
  finish_reasons = map (finish_entry incomplete s.finishes_overflowed) s.finishes;
  tool_calls = finish_tools s incomplete;
  usage = if lost outcome then unavailable_usage else finish_usage s.usage estimate prompt_estimate;
}
