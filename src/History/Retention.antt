-- ===== src/History/Retention.antt =====
-- src/history/store.rs: `retained_compaction_records`, what compaction keeps of the history.
use open_proxy.Common.{
  ℕ, zero, suc, String, Bool, true, false, ◌||◌, ◌&&◌, Option, none, some, List, [], ◌∷◌, ◌++◌, leb,
  ltb, length, if◌then◌else◌, ◌==◌, nat_eq, string_eq,
}
use open_proxy.History.Records.{Record, boot, sample, checkpoint, record_timestamp}

abbrev pub or_this : Bool → ℕ → Option ℕ → Option ℕ
or_this old i (some j) = some j
or_this old i none = if old then some i else none

abbrev pub is_index : ℕ → Option ℕ → Bool
is_index i none = false
is_index i (some j) = i == j

module _ {F : Type 0} where
  abbrev pub is_boot : Record F → Bool
  is_boot (boot b) = true
  is_boot (sample m) = false
  is_boot (checkpoint c) = false

  -- The records before the next boot, and those from it on: `start + 1` to `end`, and the rest.
  unfoldable pub until_boot : List (Record F) → List (Record F)
  until_boot [] = []
  until_boot (r ∷ rs) = if is_boot r then [] else r ∷ until_boot rs

  unfoldable pub from_boot : List (Record F) → List (Record F)
  from_boot [] = []
  from_boot (r ∷ rs) = let rest = from_boot rs in if is_boot r then r ∷ rs else rest

  -- `Record::Sample(sample) if sample.timestamp < cutoff`
  abbrev pub is_old_sample : ℕ → Record F → Bool
  is_old_sample cutoff (boot b) = false
  is_old_sample cutoff (sample m) = ltb m.timestamp cutoff
  is_old_sample cutoff (checkpoint c) = false

  -- The index of the last sample before the cutoff, where the list's head has index `i`.
  unfoldable pub baseline : ℕ → ℕ → List (Record F) → Option ℕ
  baseline cutoff i [] = none
  baseline cutoff i (r ∷ rs) = or_this (is_old_sample cutoff r) i (baseline cutoff (suc i) rs)

  -- The records of an epoch that are kept, where the list's head has index `i`.
  unfoldable pub keep : ℕ → Option ℕ → ℕ → List (Record F) → List (Record F)
  keep cutoff base i [] = []
  keep cutoff base i (r ∷ rs) =
      let rest = keep cutoff base (suc i) rs in
      if i == 0 || (is_index i base || leb cutoff (record_timestamp r)) then r ∷ rest else rest

  unfoldable pub has_retained_observation : ℕ → List (Record F) → Bool
  has_retained_observation cutoff [] = false
  has_retained_observation cutoff (r ∷ rs) =
      leb cutoff (record_timestamp r) || has_retained_observation cutoff rs

  abbrev pub is_boot_of : String → Record F → Bool
  is_boot_of id (boot b) = b.boot_id == id
  is_boot_of id (sample m) = false
  is_boot_of id (checkpoint c) = false

  -- What one turn of the loop adds for the epoch `r ∷ rs`.
  unfoldable pub retained_epoch : ℕ → String → Bool → Record F → List (Record F) → List (Record F)
  retained_epoch cutoff live_boot_id live_epoch_usable r rs =
      if (live_epoch_usable && is_boot_of live_boot_id r)
        || has_retained_observation cutoff (r ∷ rs)
      then keep cutoff (baseline cutoff 0 (r ∷ rs)) 0 (r ∷ rs)
      else []

  -- The loop on fuel, from `start` on; `none` when the fuel is spent.
  unfoldable pub retain : ℕ → ℕ → String → Bool → List (Record F) → Option (List (Record F))
  retain fuel cutoff id live [] = some []
  retain zero cutoff id live (r ∷ rs) = none
  retain (suc fuel) cutoff id live (r ∷ rs) = elim (retain fuel cutoff id live (from_boot rs)) [
    | none ↦ none
    | some later ↦ some (retained_epoch cutoff id live r (until_boot rs) ++ later)
  ]

  -- Each turn takes one record at least.
  abbrev pub retained_compaction_records :
      List (Record F) → ℕ → String → Bool → Option (List (Record F))
  retained_compaction_records records cutoff id live =
      retain (length records) cutoff id live records
