-- ===== src/History/Opening.antt =====
-- src/history/store.rs: `HistoryStore::open`. The boot's id, which the source draws at random, is an
-- argument, and so is what the file system answers.
use open_proxy.Common.{
  ℕ, String, Bool, true, false, Option, none, some, List, [], ◌∷◌, ◌++◌, if◌then◌else◌, Result, err,
  ok,
}
use open_proxy.History.Records.{Capacity, Record, boot}
use open_proxy.History.Codec.{DecodeError, EncodeError}
use open_proxy.History.Recovery.{Replay, no_replay, close_open_gap}
use open_proxy.History.Scanner.{OpenError, invalid_stream, newline, regresses, validate_canonical}
use open_proxy.History.Writing.{
  HistoryStore, Fault, WriteError, timestamp_regression, record_bytes, append_record,
}

-- `From<WriteError> for OpenError`
abbrev pub open_write_error : WriteError → OpenError
open_write_error WriteError.encode = OpenError.io "canonical history encode failure"
open_write_error (WriteError.io why) = OpenError.io why
open_write_error WriteError.poisoned = OpenError.io "canonical history store is poisoned"
open_write_error timestamp_regression = OpenError.io "canonical history timestamp regresses"

-- How the first publication of a history ends: it may fail, before or behind the link that makes the
-- file, and another process may have made the file first.
pub data Publication : Type 0 where
  published : Publication
  failed_unlinked failed_linked : String → Publication
  already_exists : List ℕ → Publication

-- `append_recovery_separator`
abbrev pub separated : Bool → List ℕ → List ℕ
separated true file = file ++ newline ∷ []
separated false file = file

module _ {F : Type 0} (encode_record : Record F → Result EncodeError (List ℕ))
    (decode_record : List ℕ → Result DecodeError (Record F))
    (trustworthy_timestamp : List ℕ → Option ℕ) where
  abbrev pub boot_record : ℕ → Capacity → String → Record F
  boot_record time capacity id =
      boot (record { timestamp = time; boot_id = id; capacity = capacity })

  -- The store behind the append of the boot.
  abbrev pub reopened :
      ℕ
      → Capacity
      → String
      → Replay F
      → Result WriteError (Unit {0}) × List ℕ
      → Result OpenError (HistoryStore F) × List ℕ
  reopened time capacity id replay (err e, file) = (err (open_write_error e), file)
  reopened time capacity id replay (ok _, file) = (
    ok (record {
      file = file;
      boot_id = id;
      last_state = none;
      replay =
          close_open_gap time
            (record replay { records = replay.records ++ boot_record time capacity id ∷ [] });
      last_timestamp = some time;
      poisoned = false;
    }),
    file,
  )

  -- A history that is there: it is scanned, and the boot is appended. With the file that is left.
  unfoldable pub open_existing :
      ℕ → Capacity → String → Option Fault → List ℕ → Result OpenError (HistoryStore F) × List ℕ
  open_existing time capacity id fault file =
      elim (validate_canonical decode_record trustworthy_timestamp file) [
        | err e ↦ (err e, file)
        | ok replay ↦
            if regresses time replay.ordering_bound
            then (err (invalid_stream 0 "timestamp regresses"), file)
            else reopened time capacity id replay (
                append_record encode_record fault (separated replay.needs_separator file)
                  (boot_record time capacity id))
      ]

  -- `publish_first_boot`, and the store on the file that it links. `none` is no file.
  abbrev pub first_boot :
      ℕ
      → Capacity
      → String
      → Option Fault
      → Publication
      → Result WriteError (List ℕ)
      → Result OpenError (HistoryStore F) × Option (List ℕ)
  first_boot time capacity id fault publication (err e) = (err (open_write_error e), none)
  first_boot time capacity id fault (failed_unlinked why) (ok bytes) =
      (err (OpenError.io why), none)
  first_boot time capacity id fault (failed_linked why) (ok bytes) =
      (err (OpenError.io why), some bytes)
  first_boot time capacity id fault (already_exists file) (ok bytes) =
      let (answer, left) = open_existing time capacity id fault file in (answer, some left)
  first_boot time capacity id fault published (ok bytes) = (
    ok (record {
      file = bytes;
      boot_id = id;
      last_state = none;
      replay = record no_replay { records = boot_record time capacity id ∷ [] };
      last_timestamp = some time;
      poisoned = false;
    }),
    some bytes,
  )

  -- `open_inner`: the file under the path, or none.
  unfoldable pub open_inner :
      ℕ
      → Capacity
      → String
      → Option Fault
      → Publication
      → Option (List ℕ)
      → Result OpenError (HistoryStore F) × Option (List ℕ)
  open_inner time capacity id fault publication (some file) =
      let (answer, left) = open_existing time capacity id fault file in (answer, some left)
  open_inner time capacity id fault publication none =
      first_boot time capacity id fault publication
        (record_bytes encode_record (boot_record time capacity id))
