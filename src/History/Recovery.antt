-- ===== src/History/Recovery.antt =====
-- src/history/store.rs: what a scan of the canonical history collects, and `HistoryDiagnostics` of
-- src/history.rs.
use open_proxy.Common.{
  ℕ, ◌+◌, min, max, String, Bool, false, ◌||◌, Option, none, some, List, [], ◌∷◌, ◌++◌,
  if◌then◌else◌, ◌==◌, nat_eq, length,
}
use open_proxy.History.Records.{
  StateEntry, Record, record_timestamp, SampleRecord, CheckpointRecord, BootRecord, boot,
}

abbrev pub u64_max : ℕ
u64_max = 18446744073709551615

pub record HistoryDiagnostics : Type 0 where
  pub excluded_epochs : ℕ
  pub excluded_records : ℕ
  pub inferred_resets : ℕ
  pub normalized_series : ℕ
  pub skipped_metric_lines : ℕ
  pub valid_checkpoints : ℕ
  pub valid_samples : ℕ

-- `HistoryDiagnostics::default()`
abbrev pub no_diagnostics : HistoryDiagnostics
no_diagnostics = record {
  excluded_epochs = 0;
  excluded_records = 0;
  inferred_resets = 0;
  normalized_series = 0;
  skipped_metric_lines = 0;
  valid_checkpoints = 0;
  valid_samples = 0;
}

abbrev pub add_diagnostics : HistoryDiagnostics → HistoryDiagnostics → HistoryDiagnostics
add_diagnostics total delta = record {
  excluded_epochs = total.excluded_epochs + delta.excluded_epochs;
  excluded_records = total.excluded_records + delta.excluded_records;
  inferred_resets = total.inferred_resets + delta.inferred_resets;
  normalized_series = total.normalized_series + delta.normalized_series;
  skipped_metric_lines = total.skipped_metric_lines + delta.skipped_metric_lines;
  valid_checkpoints = total.valid_checkpoints + delta.valid_checkpoints;
  valid_samples = total.valid_samples + delta.valid_samples;
}

pub record DiagnosticEvent : Type 0 where
  pub at_time : ℕ
  pub diagnostics : HistoryDiagnostics

-- A gap that is still open ends at `u64::MAX`.
pub record RecoveryGap : Type 0 where
  pub from : ℕ
  pub to : ℕ

pub record Replay (F : Type 0) : Type 0 where
  pub records : List (Record F)
  pub diagnostics : HistoryDiagnostics
  pub diagnostic_events : List DiagnosticEvent
  pub gaps : List RecoveryGap
  pub ordering_bound : Option ℕ
  pub needs_separator : Bool

-- An epoch that the scan has not committed yet.
pub record Epoch (F : Type 0) : Type 0 where
  pub boot_id : String
  pub from : ℕ
  pub records : List (Record F)
  pub state : Option (List (StateEntry F))
  pub diagnostic_events : List DiagnosticEvent

-- `gaps.last_mut().filter(..)`: the gap that is last is widened when it is open.
unfoldable pub widen_last : ℕ → List RecoveryGap → List RecoveryGap
widen_last start [] = record { from = start; to = u64_max } ∷ []
widen_last start (g ∷ []) =
    if g.to == u64_max
    then record g { from = min g.from start } ∷ []
    else g ∷ record { from = start; to = u64_max } ∷ []
widen_last start (g ∷ h ∷ gs) = g ∷ widen_last start (h ∷ gs)

unfoldable pub any_open : List RecoveryGap → Bool
any_open [] = false
any_open (g ∷ gs) = g.to == u64_max || any_open gs

-- `gaps.iter_mut().rev().find(..)`: the last gap that is open is closed.
unfoldable pub close_last : ℕ → List RecoveryGap → List RecoveryGap
close_last end [] = []
close_last end (g ∷ gs) =
    let rest = close_last end gs in
    if any_open gs then g ∷ rest else if g.to == u64_max then record g { to = end } ∷ gs else g ∷ gs

-- `ordering_bound.map_or(timestamp, |previous| previous.max(timestamp))`
abbrev pub later : ℕ → Option ℕ → ℕ
later time none = time
later time (some previous) = max previous time

module _ {F : Type 0} where
  -- `Replay::default()`
  abbrev pub no_replay : Replay F
  no_replay = record {
    records = [];
    diagnostics = no_diagnostics;
    diagnostic_events = [];
    gaps = [];
    ordering_bound = none;
    needs_separator = false;
  }

  abbrev pub open_gap : ℕ → Replay F → Replay F
  open_gap start replay = record replay { gaps = widen_last start replay.gaps }

  abbrev pub close_open_gap : ℕ → Replay F → Replay F
  close_open_gap end replay = record replay { gaps = close_last end replay.gaps }

  -- Adding to the total, with the event that is pushed beside it.
  abbrev pub push_event : DiagnosticEvent → Replay F → Replay F
  push_event event replay = record replay {
    diagnostics = add_diagnostics replay.diagnostics event.diagnostics;
    diagnostic_events = replay.diagnostic_events ++ event ∷ [];
  }

  abbrev pub exclude_record : ℕ → Replay F → Replay F
  exclude_record time =
      push_event
        (record { at_time = time; diagnostics = record no_diagnostics { excluded_records = 1 } })

  unfoldable pub exclude_records : List (Record F) → Replay F → Replay F
  exclude_records [] replay = replay
  exclude_records (r ∷ rs) replay = exclude_records rs (exclude_record (record_timestamp r) replay)

  abbrev pub exclude_damaging : Option ℕ → Replay F → Replay F
  exclude_damaging none replay = replay
  exclude_damaging (some time) replay = exclude_record time replay

  unfoldable pub exclude_epoch : Epoch F → Option ℕ → Replay F → Replay F
  exclude_epoch epoch damaging replay =
      let excluded =
        push_event
          (record {
            at_time = epoch.from;
            diagnostics = record no_diagnostics { excluded_epochs = 1 };
          })
          replay in
      open_gap epoch.from (exclude_damaging damaging (exclude_records epoch.records excluded))

  unfoldable pub push_events : List DiagnosticEvent → Replay F → Replay F
  push_events [] replay = replay
  push_events (e ∷ es) replay = push_events es (push_event e replay)

  unfoldable pub commit_epoch : Epoch F → Replay F → Replay F
  commit_epoch epoch replay =
      let replay = push_events epoch.diagnostic_events replay in
      record replay { records = replay.records ++ epoch.records }

  abbrev pub advance_ordering_bound : ℕ → Replay F → Replay F
  advance_ordering_bound time replay = record replay {
    ordering_bound = some (later time replay.ordering_bound);
  }

  -- `Epoch::new`
  abbrev pub new_epoch : BootRecord → Epoch F
  new_epoch b = record {
    boot_id = b.boot_id;
    from = b.timestamp;
    records = boot b ∷ [];
    state = none;
    diagnostic_events = [];
  }

  abbrev pub add_sample : SampleRecord F → Epoch F → Epoch F
  add_sample m epoch = record epoch {
    state = some m.state;
    diagnostic_events =
        epoch.diagnostic_events
        ++ record {
          at_time = m.timestamp;
          diagnostics = record no_diagnostics {
            normalized_series = length m.state;
            valid_samples = 1;
          };
        }
          ∷ [];
  }

  -- `epoch.state.as_ref().map_or(0, Vec::len)`
  abbrev pub series_in : Option (List (StateEntry F)) → ℕ
  series_in none = 0
  series_in (some state) = length state

  abbrev pub add_checkpoint : CheckpointRecord → Epoch F → Epoch F
  add_checkpoint c epoch = record epoch {
    diagnostic_events =
        epoch.diagnostic_events
        ++ record {
          at_time = c.timestamp;
          diagnostics = record no_diagnostics {
            normalized_series = series_in epoch.state;
            valid_checkpoints = 1;
          };
        }
          ∷ [];
  }

  abbrev pub push_record : Record F → Epoch F → Epoch F
  push_record r epoch = record epoch { records = epoch.records ++ r ∷ [] }
