-- ===== src/History/Compaction.antt =====
-- src/history/store.rs: how `HistoryStore` compacts its file.
use open_proxy.Common.{
  ℕ, String, Bool, true, false, not, ◌||◌, ◌&&◌, Option, none, some, List, [], ◌∷◌, ltb, is_some,
  Result, err, ok, ◌>>=◌, if◌then◌else◌, ◌==◌, nat_eq, string_eq, product_eq, list_eq, is_some,
}
use open_proxy.History.Records.{
  StateEntry, kind_eq, Record, boot, sample, checkpoint, record_timestamp,
}
use open_proxy.History.Codec.{DecodeError, EncodeError}
use open_proxy.History.Recovery.{Replay, RecoveryGap}
use open_proxy.History.Scanner.{OpenError, validate_canonical}
use open_proxy.History.Retention.{retained_compaction_records}
use open_proxy.History.Writing.{HistoryStore, WriteError, records_beq, write_records}

-- `None` of a list is the end: the last of the records.
abbrev pub last : {A : Type 0} → List A → Option A
last [] = none
last (x ∷ []) = some x
last (x ∷ y ∷ ys) = last (y ∷ ys)

abbrev timestamp_of : {F : Type 0} → Option (Record F) → Option ℕ
timestamp_of none = none
timestamp_of (some r) = some (record_timestamp r)

-- `Ok(CommittedSyncPending(error))` has the failure to sync the directory.
pub data CompactionOutcome : Type 0 where
  deferred superseded durable : CompactionOutcome
  committed_sync_pending : String → CompactionOutcome

pub data CompactionError : Type 0 where
  open_error : OpenError → CompactionError
  write_error : WriteError → CompactionError
  io_error : String → CompactionError
  -- the replacement does not exactly validate as retained canonical history
  not_exact : CompactionError
  -- what the source has no case for: the loop of `retained_compaction_records` out of fuel
  out_of_fuel : CompactionError

unfoldable pub ends_after : ℕ → List RecoveryGap → Bool
ends_after cutoff [] = false
ends_after cutoff (gap ∷ gaps) = ltb cutoff gap.to || ends_after cutoff gaps

abbrev pub is_empty : List RecoveryGap → Bool
is_empty [] = true
is_empty (gap ∷ gaps) = false

abbrev pub map_err : {E A : Type 0} → (E → CompactionError) → Result E A → Result CompactionError A
map_err f (err e) = err (f e)
map_err f (ok a) = ok a

abbrev pub required : {A : Type 0} → Option A → Result CompactionError A
required none = err out_of_fuel
required (some a) = ok a

-- The answer of `sync_directory`.
abbrev pub synced : Option String → CompactionOutcome
synced none = durable
synced (some why) = committed_sync_pending why

module _ {F : Type 0} where
  abbrev state_of : String → Record F → Option (List (StateEntry F))
  state_of id (sample m) = if m.boot_id == id then some m.state else none
  state_of id (boot b) = none
  state_of id (checkpoint c) = none

  -- `iter().rev().find_map(..)`
  unfoldable pub last_state_of : String → List (Record F) → Option (List (StateEntry F))
  last_state_of id [] = none
  last_state_of id (r ∷ rs) = elim (last_state_of id rs) [
    | none ↦ state_of id r
    | some state ↦ some state
  ]

  -- The store behind the rename.
  abbrev pub replaced : List ℕ → Replay F → HistoryStore F → HistoryStore F
  replaced bytes replacement store = record store {
    file = bytes;
    last_timestamp = timestamp_of (last replacement.records);
    last_state = last_state_of store.boot_id replacement.records;
    replay = replacement;
  }

  -- What follows a replacement that is ready: the caller's consent, and the rename.
  unfoldable pub rename_over :
      Bool
      → Option String
      → Option String
      → HistoryStore F
      → Result CompactionError (List ℕ × Replay F)
      → Result CompactionError CompactionOutcome × HistoryStore F
  rename_over authorized rename sync store (err e) = (err e, store)
  rename_over false rename sync store (ok prepared) = (ok superseded, store)
  rename_over true (some why) sync store (ok prepared) = (err (io_error why), store)
  rename_over true none sync store (ok (bytes, replacement)) =
      (ok (synced sync), replaced bytes replacement store)

module _ {F : Type 0} (encode_record : Record F → Result EncodeError (List ℕ))
    (f64_eq : F → F → Bool) where
  module _ (decode_record : List ℕ → Result DecodeError (Record F))
      (trustworthy_timestamp : List ℕ → Option ℕ) where
    -- What the replacement is checked for before it takes the place of the history.
    abbrev pub is_exact : Replay F → List (Record F) → Bool
    is_exact replacement retained =
        records_beq f64_eq replacement.records retained
        && (is_empty replacement.gaps
            && (not replacement.needs_separator
                && (replacement.diagnostics.excluded_epochs == 0
                    && replacement.diagnostics.excluded_records == 0)))

    -- The replacement's bytes, and its replay.
    unfoldable pub prepare : List (Record F) → Result CompactionError (List ℕ × Replay F)
    prepare retained = map_err write_error (write_records encode_record retained) >>= λ bytes.
        map_err open_error (validate_canonical decode_record trustworthy_timestamp bytes)
        >>= λ replacement.
            if is_exact replacement retained then ok (bytes, replacement) else err not_exact

    -- What the file system and the caller answer: whether the temporary file fails before it is read
    -- back, whether `authorize` consents, and whether the rename or the directory's sync fails.
    unfoldable pub compact_inner_if_authorized :
        ℕ
        → Option String
        → Bool
        → Option String
        → Option String
        → HistoryStore F
        → Result CompactionError CompactionOutcome × HistoryStore F
    compact_inner_if_authorized cutoff temporary authorized rename sync store =
        elim (validate_canonical decode_record trustworthy_timestamp store.file) [
          | err e ↦ (err (open_error e), store)
          | ok replay ↦
              let live = is_some store.last_state in
              let prepared =
                required (retained_compaction_records replay.records cutoff store.boot_id live)
                >>= λ retained. prepare retained in
              if ends_after cutoff replay.gaps || not live
              then (ok deferred, store)
              else elim temporary [
                | some why ↦ (err (io_error why), store)
                | none ↦ rename_over authorized rename sync store prepared
              ]
        ]
