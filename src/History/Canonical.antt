-- ===== src/History/Canonical.antt =====
-- The histories that src/history/store.rs keeps: sequences of whole epochs, in the order of time.
use open_proxy.Common.{ℕ, ◌≤◌, ◌≡◌, String, List, [], ◌∷◌}
use open_proxy.History.Records.{Record, boot, sample, checkpoint, record_timestamp}

-- Where a stream of records stands: between epochs, behind a boot, or behind a boot's first sample.
pub data Phase : Type 0 where
  between : Phase
  opened usable : String → Phase

module _ {F : Type 0} where
  -- From a phase on, every boot is followed by a sample of its own, and every other record stands
  -- behind such a sample and names the same boot.
  abbrev pub Within : Phase → List (Record F) → Type 0
  Within between [] = Unit
  Within (opened id) [] = ⊥
  Within (usable id) [] = Unit
  Within between (boot b ∷ rs) = Within (opened b.boot_id) rs
  Within (opened id) (boot b ∷ rs) = ⊥
  Within (usable id) (boot b ∷ rs) = Within (opened b.boot_id) rs
  Within between (sample m ∷ rs) = ⊥
  Within (opened id) (sample m ∷ rs) = (id ≡ m.boot_id) × Within (usable id) rs
  Within (usable id) (sample m ∷ rs) = (id ≡ m.boot_id) × Within (usable id) rs
  Within between (checkpoint c ∷ rs) = ⊥
  Within (opened id) (checkpoint c ∷ rs) = ⊥
  Within (usable id) (checkpoint c ∷ rs) = (id ≡ c.boot_id) × Within (usable id) rs

  -- No timestamp is before the one ahead of it, or before `t`.
  abbrev pub Ordered : ℕ → List (Record F) → Type 0
  Ordered t [] = Unit
  Ordered t (r ∷ rs) = (t ≤ record_timestamp r) × Ordered (record_timestamp r) rs

  -- A history: whole epochs, in the order of time.
  abbrev pub Canonical : List (Record F) → Type 0
  Canonical rs = Within between rs × Ordered 0 rs
