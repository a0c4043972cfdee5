-- ===== src/History/Writing.antt =====
-- src/history/store.rs: `HistoryStore`, and what it appends. `file` is the bytes under the
-- store's path, and what the file system answers is an argument of each operation.
use open_proxy.Common.{
  ℕ, String, Bool, true, false, ◌&&◌, Option, none, some, List, [], ◌∷◌, ◌++◌, take, Result, err,
  ok, ◌>>=◌, if◌then◌else◌, ◌==◌, nat_eq, string_eq, product_eq, list_eq,
}
use open_proxy.History.Records.{
  Capacity, StateEntry, kind_eq, Record, boot, sample, checkpoint, record_timestamp,
}
use open_proxy.History.Codec.{EncodeError}
use open_proxy.History.Recovery.{Replay}
use open_proxy.History.Scanner.{newline, regresses}

pub data WriteError : Type 0 where
  encode : WriteError
  io : String → WriteError
  poisoned timestamp_regression : WriteError

-- The derived equalities, over the equality of `f64`.
abbrev pub capacity_beq : Capacity → Capacity → Bool
capacity_beq a b =
    a.capacity_rpm == b.capacity_rpm
    && (a.enabled_keys == b.enabled_keys && a.key_rpms == b.key_rpms)

module _ {F : Type 0} (f64_eq : F → F → Bool) where
  abbrev entry_beq : StateEntry F → StateEntry F → Bool
  entry_beq a b =
      a.kind == b.kind && (a.metric == b.metric && (a.labels == b.labels && f64_eq a.value b.value))

  abbrev pub state_beq : List (StateEntry F) → List (StateEntry F) → Bool
  state_beq [] [] = true
  state_beq [] (b ∷ bs) = false
  state_beq (a ∷ more) [] = false
  state_beq (a ∷ more) (b ∷ bs) = entry_beq a b && state_beq more bs

  abbrev pub record_beq : Record F → Record F → Bool
  record_beq (boot a) (boot b) =
      a.timestamp == b.timestamp && (a.boot_id == b.boot_id && capacity_beq a.capacity b.capacity)
  record_beq (sample a) (sample b) =
      a.timestamp == b.timestamp
      && (a.boot_id == b.boot_id
          && (capacity_beq a.capacity b.capacity && state_beq a.state b.state))
  record_beq (checkpoint a) (checkpoint b) =
      a.timestamp == b.timestamp && (a.boot_id == b.boot_id && capacity_beq a.capacity b.capacity)
  record_beq _ _ = false

  abbrev pub records_beq : List (Record F) → List (Record F) → Bool
  records_beq [] [] = true
  records_beq [] (b ∷ bs) = false
  records_beq (a ∷ more) [] = false
  records_beq (a ∷ more) (b ∷ bs) = record_beq a b && records_beq more bs

pub record HistoryStore (F : Type 0) : Type 0 where
  pub file : List ℕ
  pub boot_id : String
  pub last_state : Option (List (StateEntry F))
  pub replay : Replay F
  pub last_timestamp : Option ℕ
  pub poisoned : Bool

-- A write that the file system cuts short leaves so many bytes, and says why.
abbrev pub Fault : Type 0
Fault = ℕ × String

abbrev pub append_bytes :
    Option Fault → List ℕ → Result WriteError (List ℕ) → Result WriteError (Unit {0}) × List ℕ
append_bytes fault file (err e) = (err e, file)
append_bytes none file (ok bytes) = (ok tt, file ++ bytes)
append_bytes (some (written, why)) file (ok bytes) =
    (err (WriteError.io why), file ++ take written bytes)

abbrev pub note_append :
    {F : Type 0}
    → ℕ
    → Option (List (StateEntry F))
    → HistoryStore F
    → Result WriteError (Unit {0}) × List ℕ
    → Result WriteError (Unit {0}) × HistoryStore F
note_append time state store (err e, file) = (err e, record store { file = file; poisoned = true })
note_append time state store (ok _, file) =
    (ok tt, record store { file = file; last_timestamp = some time; last_state = state })

module _ {F : Type 0} (encode_record : Record F → Result EncodeError (List ℕ)) where
  -- `write_record`: the bytes of a record and its newline.
  unfoldable pub record_bytes : Record F → Result WriteError (List ℕ)
  record_bytes r = elim (encode_record r) [
    | err e ↦ err WriteError.encode
    | ok line ↦ ok (line ++ newline ∷ [])
  ]

  -- The loop over the retained records, into an empty file.
  unfoldable pub write_records : List (Record F) → Result WriteError (List ℕ)
  write_records [] = ok []
  write_records (r ∷ rs) =
      record_bytes r >>= λ bytes. write_records rs >>= λ rest. ok (bytes ++ rest)

  -- `append_record`, with the file that it leaves.
  abbrev pub append_record :
      Option Fault → List ℕ → Record F → Result WriteError (Unit {0}) × List ℕ
  append_record fault file r = append_bytes fault file (record_bytes r)

  -- What an append leaves of the store when the record is in order: `state` is the new `last_state`.
  abbrev pub appended :
      Option Fault
      → Record F
      → Option (List (StateEntry F))
      → HistoryStore F
      → Result WriteError (Unit {0}) × HistoryStore F
  appended fault r state store =
      note_append (record_timestamp r) state store (append_record fault store.file r)

  unfoldable pub checkpoint_inner :
      Option Fault → ℕ → Capacity → HistoryStore F → Result WriteError (Unit {0}) × HistoryStore F
  checkpoint_inner fault time capacity store =
      if store.poisoned
      then (err WriteError.poisoned, store)
      else if regresses time store.last_timestamp
      then (err timestamp_regression, store)
      else appended fault
          (checkpoint (record { timestamp = time; boot_id = store.boot_id; capacity = capacity }))
          store.last_state store

  module _ (f64_eq : F → F → Bool) where
    -- `self.last_state.as_ref() == Some(&state)`
    abbrev pub is_last_state : Option (List (StateEntry F)) → List (StateEntry F) → Bool
    is_last_state none state = false
    is_last_state (some held) state = state_beq f64_eq held state

    unfoldable pub append_sample_inner :
        Option Fault
        → ℕ
        → Capacity
        → List (StateEntry F)
        → HistoryStore F
        → Result WriteError (Unit {0}) × HistoryStore F
    append_sample_inner fault time capacity state store =
        if store.poisoned
        then (err WriteError.poisoned, store)
        else if is_last_state store.last_state state
        then checkpoint_inner fault time capacity store
        else if regresses time store.last_timestamp
        then (err timestamp_regression, store)
        else appended fault
            (sample (record {
              timestamp = time;
              boot_id = store.boot_id;
              capacity = capacity;
              state = state;
            }))
            (some state) store
