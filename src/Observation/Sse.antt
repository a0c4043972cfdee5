-- ===== src/Observation/Sse.antt =====
-- src/observation.rs: `SseObserver`, which reassembles server-sent events from relayed bytes.
-- `parse` stands for `std::str::from_utf8` and then `serde_json::from_str`.
use open_proxy.Common.{
  ℕ, ◌+◌, ◌-◌, min, Bool, true, false, not, ◌&&◌, ◌||◌, Option, none, some, List, [], ◌∷◌, ◌++◌,
  if◌then◌else◌, ltb, nat_beq, length, nat_eq,
}
use open_proxy.Observation.Json.{Value}
use open_proxy.Observation.Usage.{u64_mod}
use open_proxy.Observation.State.{
  ObservationState, StreamOutcome, ResponseObservations, blank, observe_stream,
  remember_choice_indexes, finish, completed, deadline, disconnected, truncated,
  observe_buffered_value,
}

abbrev pub max_event_bytes : ℕ
max_event_bytes = 1_048_576

abbrev pub newline : ℕ
newline = 10

abbrev pub carriage_return : ℕ
carriage_return = 13

pub record SseObserver : Type 0 where
  pub state : ObservationState
  pub current_data : List ℕ
  pub current_line : List ℕ
  pub discarded_event : Bool
  pub discarded_line_has_content : Bool
  pub discarded_line_ends_cr : Bool
  pub completion_events : ℕ

abbrev pub new_observer : SseObserver
new_observer = record {
  state = blank;
  current_data = [];
  current_line = [];
  discarded_event = false;
  discarded_line_has_content = false;
  discarded_line_ends_cr = false;
  completion_events = 0;
}

-- `bytes.strip_prefix(prefix)`
unfoldable pub strip_prefix : List ℕ → List ℕ → Option (List ℕ)
strip_prefix [] bytes = some bytes
strip_prefix (p ∷ ps) [] = none
strip_prefix (p ∷ ps) (b ∷ bs) = if nat_beq p b then strip_prefix ps bs else none

abbrev pub or_else_whole : Option (List ℕ) → List ℕ → List ℕ
or_else_whole none whole = whole
or_else_whole (some rest) whole = rest

-- `data:` and one space after it.
abbrev pub data_prefix : List ℕ
data_prefix = b'd' ∷ b'a' ∷ b't' ∷ b'a' ∷ b':' ∷ []

unfoldable pub strip_space : List ℕ → List ℕ
unfolding strip_prefix
strip_space line = or_else_whole (strip_prefix (b' ' ∷ []) line) line

abbrev pub done_marker : List ℕ
done_marker = b'[' ∷ b'D' ∷ b'O' ∷ b'N' ∷ b'E' ∷ b']' ∷ []

-- `if self.current_line.last() == Some(&b'\r') { self.current_line.pop(); }`
unfoldable pub drop_cr : List ℕ → List ℕ
drop_cr [] = []
drop_cr (b ∷ []) = if nat_beq b carriage_return then [] else b ∷ []
drop_cr (b ∷ c ∷ rest) = b ∷ drop_cr (c ∷ rest)

abbrev pub is_empty : List ℕ → Bool
is_empty [] = true
is_empty (b ∷ bs) = false

unfoldable pub bytes_beq : List ℕ → List ℕ → Bool
bytes_beq [] [] = true
bytes_beq [] (c ∷ cs) = false
bytes_beq (b ∷ bs) [] = false
bytes_beq (b ∷ bs) (c ∷ cs) = nat_beq b c && bytes_beq bs cs

abbrev pub retained_len : SseObserver → ℕ
retained_len o = length o.current_data + length o.current_line

-- The rest of the event is dropped: it has outgrown the bound.
unfoldable pub discard : SseObserver → SseObserver
discard o = record o {
  current_data = [];
  current_line = [];
  discarded_event = true;
  discarded_line_has_content = true;
  discarded_line_ends_cr = false;
}

-- `saturating_add(1)` on u64
unfoldable pub count_event : Bool → ℕ → ℕ
count_event counts n = if counts then min (n + 1) (u64_mod - 1) else n

abbrev pub unterminated : SseObserver → Bool
unterminated o =
    o.discarded_event || (not (is_empty o.current_data) || not (is_empty o.current_line))

abbrev pub is_completed : StreamOutcome → Bool
is_completed completed = true
is_completed deadline = false
is_completed disconnected = false
is_completed truncated = false

module _ (parse : List ℕ → Option Value) where
  -- One complete event, by its data.
  unfoldable pub observe_event : ObservationState → ℕ → List ℕ → ObservationState × ℕ
  observe_event s n bytes = if bytes_beq bytes done_marker then (s, n) else elim (parse bytes) [
    | none ↦ (s, n)
    | some v ↦ let (s', counts) = observe_stream s v in (s', count_event counts n)
  ]

  unfoldable pub classify_event : SseObserver → SseObserver
  classify_event o =
      let (s, n) = observe_event o.state o.completion_events o.current_data in
      record o { state = s; completion_events = n; current_data = []; current_line = [] }

  -- The data of one `data:` line joins the event's, behind a newline if there is some already.
  unfoldable pub append_data : SseObserver → List ℕ → SseObserver
  append_data o bytes =
      let separator = if is_empty o.current_data then [] else newline ∷ [] in
      if ltb (max_event_bytes - length o.current_data) (length bytes + length separator)
      then discard o
      else record o { current_data = o.current_data ++ (separator ++ bytes); current_line = [] }

  unfoldable pub data_line : SseObserver → SseObserver
  data_line o = elim (strip_prefix data_prefix o.current_line) [
    | none ↦ record o { current_line = [] }
    | some rest ↦ append_data o (strip_space rest)
  ]

  unfoldable pub finish_discarded_line : SseObserver → SseObserver
  finish_discarded_line o = record o {
    current_line = [];
    discarded_event = o.discarded_line_has_content;
    discarded_line_has_content = false;
    discarded_line_ends_cr = false;
  }

  unfoldable pub finish_kept_line : SseObserver → SseObserver
  finish_kept_line o = if is_empty o.current_line then classify_event o else data_line o

  unfoldable pub finish_line : SseObserver → SseObserver
  finish_line o =
      if o.discarded_event
      then finish_discarded_line o
      else finish_kept_line (record o { current_line = drop_cr o.current_line })

  unfoldable pub skip_byte : SseObserver → ℕ → SseObserver
  skip_byte o byte =
      if nat_beq byte carriage_return
      then record o {
        discarded_line_has_content = o.discarded_line_has_content || o.discarded_line_ends_cr;
        discarded_line_ends_cr = true;
      }
      else record o { discarded_line_has_content = true; discarded_line_ends_cr = false }

  unfoldable pub push_byte : SseObserver → ℕ → SseObserver
  push_byte o byte =
      if nat_beq byte newline
      then finish_line o
      else if o.discarded_event
      then skip_byte o byte
      else if nat_beq (retained_len o) max_event_bytes
      then discard o
      else record o { current_line = o.current_line ++ byte ∷ [] }

  unfoldable pub push : SseObserver → List ℕ → SseObserver
  push o [] = o
  push o (byte ∷ bytes) = push (push_byte o byte) bytes

  remember_parsed : List ℕ → ObservationState → ObservationState
  remember_parsed bytes s = elim (parse bytes) [ none ↦ s | some v ↦ remember_choice_indexes s v ]

  remember_line : List ℕ → ObservationState → ObservationState
  unfolding remember_parsed
  remember_line line s = elim (strip_prefix data_prefix line) [
    | none ↦ s
    | some rest ↦ remember_parsed (strip_space rest) s
  ]

  unfoldable pub remember_unterminated_indexes : SseObserver → ObservationState
  unfolding remember_line
  remember_unterminated_indexes o =
      remember_line o.current_line (remember_parsed o.current_data o.state)

  -- `SseObserver::finish`
  unfoldable pub finish_stream : SseObserver → StreamOutcome → Option ℕ → ResponseObservations
  finish_stream o outcome prompt_estimate =
      let cut = unterminated o in
      let s = if is_completed outcome && cut then remember_unterminated_indexes o else o.state in
      finish s outcome (not (is_completed outcome) || cut)
        (if is_completed outcome && not cut then some o.completion_events else none) prompt_estimate

  -- `observe_buffered`
  unfoldable pub observe_buffered : List ℕ → Option ℕ → ResponseObservations
  observe_buffered body prompt_estimate =
      let s : ObservationState = elim (parse body) [
        | none ↦ blank
        | some v ↦ observe_buffered_value blank v
      ] in
      finish s completed false none prompt_estimate
