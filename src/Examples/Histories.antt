-- ===== src/Examples/Histories.antt =====
-- The theorems on src/history at concrete inputs: `f64` is ℕ with 0 for what is not finite, and a
-- serialiser that knows the records of these files.
use open_proxy.Common.{
  ℕ, ◌≡◌, ◌↔◌, refl, Bool, true, false, not, ◌&&◌, Option, none, some, List, [], ◌∷◌, ◌++◌, All,
  contains, Result, ok, err, arith, ◌==◌, nat_eq, string_eq, if◌then◌else◌,
}
use open_proxy.History.Records.{Capacity, counter, StateEntry, Record, boot, sample, checkpoint}
use open_proxy.History.Codec.{
  JsonError, RawRecord, Encoded, head_only, with_state, head_of, fields_of, kind_named,
  decode_entries, decode_state, decode_kind, decode_raw, decode_record, encode_entries, encoded,
  encode_record, raw_of, DecodeError, EncodeError,
}
use open_proxy.History.Recovery.{
  Replay, DiagnosticEvent, no_replay, no_diagnostics, close_last, commit_epoch, push_events,
}
use open_proxy.History.Scanner.{
  read_lines, settle, start_boot, ingest_record, scan_record, scan_line, scan_lines,
  validate_canonical,
}
use open_proxy.History.Retention.{
  until_boot, from_boot, baseline, keep, has_retained_observation, retained_epoch, retain,
  retained_compaction_records,
}
use open_proxy.History.Canonical.{Canonical}
use open_proxy.History.Compacted.{retained_compaction_records-Canonical}
use open_proxy.History.Epochs.{recent}
use open_proxy.History.Pending.{Clean}
use open_proxy.History.Validated.{validate_canonical-Canonical}
use open_proxy.History.Accepted.{Reads, file_of, validate_canonical-file_of}
use open_proxy.History.Writing.{HistoryStore, write_records}
use open_proxy.History.Compaction.{
  ends_after, last_state_of, prepare, rename_over, compact_inner_if_authorized,
}
use open_proxy.History.Replaced.{Durable, compact_inner_if_authorized-Durable}
use open_proxy.History.Opening.{open_existing}
use open_proxy.History.Scanner.{invalid_stream}
use open_proxy.History.Writing.{record_bytes}
use open_proxy.History.Outcome.{
  Call, take_sample, take_checkpoint, run_calls, Appends, run_calls-Appends,
}
use open_proxy.History.RoundTrip.{decode_raw-encoded}

abbrev capacity : Capacity
capacity = record { capacity_rpm = 40; enabled_keys = 1; key_rpms = 40 ∷ [] }

abbrev served : ℕ → StateEntry ℕ
served n = record { kind = counter; metric = "requests"; labels = ("model", "m") ∷ []; value = n }

abbrev boot_a : Record ℕ
boot_a = boot (record { timestamp = 1; boot_id = "a"; capacity = capacity })

abbrev sample_a : Record ℕ
sample_a =
    sample (record { timestamp = 2; boot_id = "a"; capacity = capacity; state = served 5 ∷ [] })

abbrev checkpoint_a : ℕ → Record ℕ
checkpoint_a t = checkpoint (record { timestamp = t; boot_id = "a"; capacity = capacity })

abbrev finite : ℕ → Bool
finite x = not (x == 0)

abbrev same_value : ℕ → ℕ → Bool
same_value x y = not (x == 0) && x == y

abbrev encoded_boot : Encoded ℕ
encoded_boot = head_only (head_of "boot" 1 "a" capacity)

abbrev encoded_sample : Encoded ℕ
encoded_sample = with_state (head_of "sample" 2 "a" capacity) (raw_of (served 5) ∷ [])

abbrev encoded_checkpoint : ℕ → Encoded ℕ
encoded_checkpoint t = head_only (head_of "checkpoint" t "a" capacity)

-- `B`, `S`, and `C` with the time.
abbrev to_vec : Encoded ℕ → Option (List ℕ)
to_vec (head_only h) = if h.kind == "boot" then some (66 ∷ []) else some (67 ∷ h.timestamp ∷ [])
to_vec (with_state h rs) = some (83 ∷ [])

abbrev bad_json : JsonError
bad_json = record { is_eof = false; is_syntax = true; out_of_range = false }

abbrev parse : List ℕ → Result JsonError (RawRecord ℕ)
parse (b ∷ []) =
    if b == 66
    then ok (fields_of encoded_boot)
    else if b == 83
    then ok (fields_of encoded_sample)
    else err bad_json
parse (b ∷ t ∷ []) = if b == 67 then ok (fields_of (encoded_checkpoint t)) else err bad_json
parse _ = err bad_json

abbrev is_utf8 : List ℕ → Bool
is_utf8 line = true

abbrev no_time : List ℕ → Option ℕ
no_time line = none

decode_raw-encoded_example : (decode_raw finite (fields_of encoded_sample) ≡ ok sample_a) ↔ (
    (e : Encoded ℕ) × (encoded finite sample_a ≡ ok e) × (fields_of e ≡ fields_of encoded_sample))
decode_raw-encoded_example = decode_raw-encoded finite (fields_of encoded_sample) sample_a

abbrev history : List (Record ℕ)
history = boot_a ∷ sample_a ∷ checkpoint_a 2 ∷ checkpoint_a 4 ∷ []

history-Canonical : Canonical history
history-Canonical =
    ((refl, (refl, (refl, tt))), (omega arith, (omega arith, (omega arith, (omega arith, tt)))))

-- The checkpoint at 2 is before the cutoff, and the sample at 2 is the baseline.
retained_compaction_records-Canonical_example :
    (kept : List (Record ℕ)) × (retained_compaction_records history 3 "a" true ≡ some kept)
    × Canonical kept
    × (recent 3 kept ≡ recent 3 history)
retained_compaction_records-Canonical_example =
    retained_compaction_records-Canonical 3 "a" true history history-Canonical

abbrev decode : List ℕ → Result DecodeError (Record ℕ)
decode line = decode_record finite is_utf8 parse line

abbrev encode : Record ℕ → Result EncodeError (List ℕ)
encode r = encode_record finite to_vec r

abbrev history_bytes : List ℕ
history_bytes = 66 ∷ 10 ∷ 83 ∷ 10 ∷ 67 ∷ 2 ∷ 10 ∷ 67 ∷ 4 ∷ 10 ∷ []

abbrev event : ℕ → ℕ → ℕ → DiagnosticEvent
event t samples checkpoints = record {
  at_time = t;
  diagnostics = record no_diagnostics {
    normalized_series = 1;
    valid_samples = samples;
    valid_checkpoints = checkpoints;
  };
}

abbrev history_replay : Replay ℕ
history_replay = record no_replay {
  records = history;
  diagnostics = record no_diagnostics {
    normalized_series = 3;
    valid_checkpoints = 2;
    valid_samples = 1;
  };
  diagnostic_events = event 2 1 0 ∷ event 2 0 1 ∷ event 4 0 1 ∷ [];
  ordering_bound = some 4;
}

history_scanned : validate_canonical decode no_time history_bytes ≡ ok history_replay
unfolding validate_canonical read_lines scan_lines scan_line scan_record start_boot ingest_record
    settle commit_epoch push_events close_last decode_record decode_raw decode_kind decode_state
    decode_entries kind_named contains
history_scanned = refl

-- What a line may be decoded to.
abbrev Decoded : Record ℕ → Type 0
Decoded r = (line : List ℕ) × (decode line ≡ ok r)

line-Decoded : (line : List ℕ) (r : Record ℕ) → decode line ≡ ok r → Decoded r
line-Decoded line r h = (line, h)

validate_canonical-Canonical_example : Canonical history × All Decoded history
validate_canonical-Canonical_example =
    validate_canonical-Canonical Decoded decode no_time line-Decoded history_bytes history_replay
      history_scanned

abbrev two_lines : List (List ℕ × Record ℕ)
two_lines = (66 ∷ [], boot_a) ∷ (83 ∷ [], sample_a) ∷ []

boot_Reads : Reads decode no_time (66 ∷ [], boot_a)
unfolding decode_record decode_raw decode_kind
boot_Reads = ((λ h. absurd (omega arith), tt), refl, refl)

sample_Reads : Reads decode no_time (83 ∷ [], sample_a)
unfolding decode_record decode_raw decode_kind decode_state decode_entries kind_named contains
sample_Reads = ((λ h. absurd (omega arith), tt), refl, refl)

validate_canonical-file_of_example :
    (replay : Replay ℕ) × (validate_canonical decode no_time (file_of two_lines) ≡ ok replay)
    × Clean replay
    × (replay.records ≡ boot_a ∷ sample_a ∷ [])
validate_canonical-file_of_example =
    validate_canonical-file_of decode no_time (66 ∷ [], boot_a) ((83 ∷ [], sample_a) ∷ [])
      (boot_Reads, (sample_Reads, tt)) ((refl, tt), (omega arith, (omega arith, tt)))

abbrev store_a : HistoryStore ℕ
store_a = record {
  file = history_bytes;
  boot_id = "a";
  last_state = some (served 5 ∷ []);
  replay = no_replay;
  last_timestamp = some 4;
  poisoned = false;
}

compact_inner_if_authorized-Durable_example :
    Durable finite same_value is_utf8 parse to_vec no_time 3 true none none store_a
      (compact_inner_if_authorized encode same_value decode no_time 3 none true none none store_a)
compact_inner_if_authorized-Durable_example =
    compact_inner_if_authorized-Durable finite same_value is_utf8 parse to_vec no_time 3 none true
      none none store_a

-- The compaction commits: the checkpoint at 2 is gone.
compacted_file :
    (compact_inner_if_authorized encode same_value decode no_time 3 none true none none
      store_a).1.file
    ≡ 66 ∷ 10 ∷ 83 ∷ 10 ∷ 67 ∷ 4 ∷ 10 ∷ []
unfolding compact_inner_if_authorized prepare rename_over ends_after last_state_of write_records
    record_bytes encode_record encoded encode_entries retain retained_epoch has_retained_observation
    keep baseline until_boot from_boot validate_canonical read_lines scan_lines scan_line
    scan_record start_boot ingest_record settle commit_epoch push_events close_last decode_record
    decode_raw decode_kind decode_state decode_entries kind_named contains
compacted_file = refl

-- A sample, an append that is cut short behind one byte, and a checkpoint that is refused.
abbrev calls : List (Call ℕ)
calls =
    take_sample none 5 capacity (served 6 ∷ [])
    ∷ take_checkpoint (some (1, "disk full")) 6 capacity
    ∷ take_checkpoint none 7 capacity
    ∷ []

run_calls-Appends_example : Appends encode store_a (run_calls encode same_value calls store_a)
run_calls-Appends_example = run_calls-Appends encode same_value calls store_a

-- A restart at 5 appends its boot to the history, and one at 3 is refused.
reopened_file :
    (open_existing encode decode no_time 5 capacity "b" none history_bytes).1
    ≡ history_bytes ++ 66 ∷ 10 ∷ []
unfolding open_existing record_bytes encode_record encoded validate_canonical read_lines scan_lines
    scan_line scan_record start_boot ingest_record settle commit_epoch push_events close_last
    decode_record decode_raw decode_kind decode_state decode_entries kind_named contains
reopened_file = refl

early_restart :
    open_existing encode decode no_time 3 capacity "b" none history_bytes
    ≡ (err (invalid_stream 0 "timestamp regresses"), history_bytes)
unfolding open_existing validate_canonical read_lines scan_lines scan_line scan_record start_boot
    ingest_record settle commit_epoch push_events close_last decode_record decode_raw decode_kind
    decode_state decode_entries kind_named contains
early_restart = refl
