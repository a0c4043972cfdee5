-- ===== src/History/Scanner.antt =====
-- src/history/store.rs: `validate_canonical`, the scan of the history file. A file is its bytes.
use open_proxy.Common.{
  ℕ, suc, String, Bool, true, false, not, ◌||◌, Option, none, some, List, [], ◌∷◌, all, ltb,
  if◌then◌else◌, Result, err, ok, ◌>>=◌, ◌==◌, nat_eq, string_eq,
}
use open_proxy.History.Records.{
  Record, boot, sample, checkpoint, record_timestamp, record_boot_id, BootRecord,
}
use open_proxy.History.Codec.{DecodeError, unsupported_format, unsupported_version}
use open_proxy.History.Recovery.{
  Replay, Epoch, no_replay, open_gap, close_open_gap, exclude_record, exclude_epoch, commit_epoch,
  advance_ordering_bound, new_epoch, add_sample, add_checkpoint, push_record,
}

pub data OpenError : Type 0 where
  io : String → OpenError
  empty_canonical : OpenError
  invalid_canonical : ℕ → DecodeError → OpenError
  unterminated_record : OpenError
  invalid_stream : ℕ → String → OpenError

pub data ScannerState (F : Type 0) : Type 0 where
  await_boot : ScannerState F
  await_sample : Epoch F → ScannerState F
  usable : Epoch F → ScannerState F
  invalid_epoch : ScannerState F

-- The loop's variables.
pub record Scan (F : Type 0) : Type 0 where
  pub state : ScannerState F
  pub replay : Replay F

abbrev pub newline : ℕ
newline = 10

-- `u8::is_ascii_whitespace`
abbrev pub is_ascii_whitespace : ℕ → Bool
is_ascii_whitespace b = b == 32 || (b == 9 || (b == 10 || (b == 12 || b == 13)))

abbrev pub is_blank : List ℕ → Bool
is_blank line = all is_ascii_whitespace line

-- What `read_until` reads: a line up to its newline, or the bytes behind the last newline.
pub data Line : Type 0 where
  ended unended : List ℕ → Line

abbrev pub prepend : ℕ → List Line → List Line
prepend b [] = unended (b ∷ []) ∷ []
prepend b (ended line ∷ lines) = ended (b ∷ line) ∷ lines
prepend b (unended line ∷ lines) = unended (b ∷ line) ∷ lines

unfoldable pub read_lines : List ℕ → List Line
read_lines [] = []
read_lines (b ∷ bs) =
    let rest = read_lines bs in if b == newline then ended [] ∷ rest else prepend b rest

-- `UnsupportedFormat | UnsupportedVersion`
abbrev pub is_unsupported : DecodeError → Bool
is_unsupported unsupported_format = true
is_unsupported unsupported_version = true
is_unsupported _ = false

-- `at.or(ordering_bound).unwrap_or(0)`
abbrev pub decision_at : Option ℕ → Option ℕ → ℕ
decision_at (some time) bound = time
decision_at none (some bound) = bound
decision_at none none = 0

-- `ordering_bound.is_some_and(|bound| timestamp < bound)`
abbrev pub regresses : ℕ → Option ℕ → Bool
regresses time none = false
regresses time (some bound) = ltb time bound

module _ {F : Type 0} where
  -- The epoch that a boot, or the end of the file, closes.
  unfoldable pub settle : ScannerState F → Replay F → Replay F
  settle (await_sample epoch) replay = exclude_epoch epoch none replay
  settle (usable epoch) replay = commit_epoch epoch replay
  settle await_boot replay = replay
  settle invalid_epoch replay = replay

  unfoldable pub start_boot : BootRecord → Scan F → Scan F
  start_boot b scan = record {
    state = await_sample (new_epoch b);
    replay = close_open_gap b.timestamp (settle scan.state scan.replay);
  }

  abbrev pub drop_epoch : Epoch F → ℕ → Replay F → Scan F
  drop_epoch epoch time replay = record {
    state = invalid_epoch;
    replay = exclude_epoch epoch (some time) replay;
  }

  abbrev pub drop_record : ℕ → Replay F → Scan F
  drop_record time replay = record {
    state = invalid_epoch;
    replay = open_gap time (exclude_record time replay);
  }

  -- The arms of `ingest_record` for a record of the epoch's own boot. A boot is not among them: the
  -- scan hands boots to `start_boot`, and here the source stops, with `AwaitBoot` for a state.
  abbrev pub ingest_first : Record F → Epoch F → Replay F → Scan F
  ingest_first (sample m) epoch replay = record {
    state = usable (push_record (sample m) (add_sample m epoch));
    replay = replay;
  }
  ingest_first (checkpoint c) epoch replay = drop_epoch epoch c.timestamp replay
  ingest_first (boot b) epoch replay = record { state = await_boot; replay = replay }

  abbrev pub ingest_next : Record F → Epoch F → Replay F → Scan F
  ingest_next (sample m) epoch replay = record {
    state = usable (push_record (sample m) (add_sample m epoch));
    replay = replay;
  }
  ingest_next (checkpoint c) epoch replay = record {
    state = usable (push_record (checkpoint c) (add_checkpoint c epoch));
    replay = replay;
  }
  ingest_next (boot b) epoch replay = record { state = await_boot; replay = replay }

  abbrev pub ingest_into : Record F → ScannerState F → Replay F → Scan F
  ingest_into r (await_sample epoch) replay =
      if epoch.boot_id == record_boot_id r
      then ingest_first r epoch replay
      else drop_epoch epoch (record_timestamp r) replay
  ingest_into r (usable epoch) replay =
      if epoch.boot_id == record_boot_id r
      then ingest_next r epoch replay
      else drop_epoch epoch (record_timestamp r) replay
  ingest_into r await_boot replay = drop_record (record_timestamp r) replay
  ingest_into r invalid_epoch replay = drop_record (record_timestamp r) replay

  unfoldable pub ingest_record : Record F → Scan F → Scan F
  ingest_record r scan = ingest_into r scan.state scan.replay

  abbrev pub invalidate_in : ScannerState F → ℕ → Replay F → Scan F
  invalidate_in (await_sample epoch) time replay = drop_epoch epoch time replay
  invalidate_in (usable epoch) time replay = drop_epoch epoch time replay
  invalidate_in await_boot time replay = drop_record time replay
  invalidate_in invalid_epoch time replay = drop_record time replay

  unfoldable pub invalidate : ℕ → Scan F → Scan F
  invalidate time scan = invalidate_in scan.state time scan.replay

  -- A record in order: a boot starts an epoch, and any other record goes into one.
  abbrev pub take_record : Record F → Scan F → Scan F
  take_record (boot b) scan = start_boot b scan
  take_record (sample m) scan = ingest_record (sample m) scan
  take_record (checkpoint c) scan = ingest_record (checkpoint c) scan

  -- The loop's body behind `decode_record`.
  unfoldable pub scan_record : Record F → Scan F → Scan F
  scan_record r scan =
      if regresses (record_timestamp r) scan.replay.ordering_bound
      then invalidate (record_timestamp r) scan
      else take_record r
          (record scan { replay = advance_ordering_bound (record_timestamp r) scan.replay })

  abbrev pub advance_to : Option ℕ → Replay F → Replay F
  advance_to none replay = replay
  advance_to (some time) replay = advance_ordering_bound time replay

  -- A line that is no record: `read` is its `trustworthy_timestamp`.
  unfoldable pub scan_damaged : Option ℕ → Scan F → Scan F
  scan_damaged read scan =
      let replay = advance_to read scan.replay in
      invalidate (decision_at read replay.ordering_bound) (record scan { replay = replay })

  -- `ScannerState::AwaitBoot` and `Replay::default()`
  abbrev pub scan_start : Scan F
  scan_start = record { state = await_boot; replay = no_replay }

  module _ (decode : List ℕ → Result DecodeError (Record F))
      (trustworthy_timestamp : List ℕ → Option ℕ) where
    -- A line with its newline, which is not blank.
    unfoldable pub scan_line : ℕ → List ℕ → Scan F → Result OpenError (Scan F)
    scan_line index line scan = elim (decode line) [
      | ok r ↦ ok (scan_record r scan)
      | err e ↦
          if is_unsupported e
          then err (invalid_canonical index e)
          else ok (scan_damaged (trustworthy_timestamp line) scan)
    ]

    -- The bytes behind the last newline.
    abbrev pub scan_tail : ℕ → List ℕ → Scan F → Result OpenError (Scan F)
    scan_tail index line scan =
        let damaged = ok (
          scan_damaged (trustworthy_timestamp line) (record scan {
            replay = record scan.replay { needs_separator = not (is_blank line) };
          })) in
        elim (decode line) [
          | ok r ↦ damaged
          | err e ↦ if is_unsupported e then err (invalid_canonical index e) else damaged
        ]

    -- The loop, with the number of the line and whether a line so far was not blank.
    unfoldable pub scan_lines : ℕ → Bool → List Line → Scan F → Result OpenError (Scan F × Bool)
    scan_lines index seen [] scan = ok (scan, seen)
    scan_lines index seen (unended line ∷ _) scan =
        scan_tail (suc index) line scan >>= λ scan. ok (scan, seen || not (is_blank line))
    scan_lines index seen (ended line ∷ lines) scan =
        let blank = scan_lines (suc index) seen lines scan in
        let next =
          scan_line (suc index) line scan >>= λ scan. scan_lines (suc index) true lines scan in
        if is_blank line then blank else next

    abbrev pub finish_scan : Scan F × Bool → Result OpenError (Replay F)
    finish_scan (scan, seen) =
        if seen then ok (settle scan.state scan.replay) else err empty_canonical

    unfoldable pub validate_canonical : List ℕ → Result OpenError (Replay F)
    validate_canonical bytes = scan_lines 0 false (read_lines bytes) scan_start >>= finish_scan
