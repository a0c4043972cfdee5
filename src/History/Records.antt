-- ===== src/History/Records.antt =====
-- The records of src/history/codec.rs. `F` stands for `f64`.
use open_proxy.Common.{ℕ, ◌≡◌, ◌↔◌, String, Bool, List, Eq, ◌==◌, nat_eq, arith}

pub record Capacity : Type 0 where
  pub capacity_rpm : ℕ
  pub enabled_keys : ℕ
  pub key_rpms : List ℕ

pub data StateKind : Type 0 where
  counter gauge : StateKind

-- `BTreeMap<String, String>`, by its ascending entries.
abbrev pub Labels : Type 0
Labels = List (String × String)

pub record StateEntry (F : Type 0) : Type 0 where
  pub kind : StateKind
  pub metric : String
  pub labels : Labels
  pub value : F

pub record BootRecord : Type 0 where
  pub timestamp : ℕ
  pub boot_id : String
  pub capacity : Capacity

pub record SampleRecord (F : Type 0) : Type 0 where
  pub timestamp : ℕ
  pub boot_id : String
  pub capacity : Capacity
  pub state : List (StateEntry F)

pub record CheckpointRecord : Type 0 where
  pub timestamp : ℕ
  pub boot_id : String
  pub capacity : Capacity

pub data Record (F : Type 0) : Type 0 where
  boot : BootRecord → Record F
  sample : SampleRecord F → Record F
  checkpoint : CheckpointRecord → Record F

-- `record_timestamp` of src/history/store.rs
abbrev pub record_timestamp : {F : Type 0} → Record F → ℕ
record_timestamp (boot r) = r.timestamp
record_timestamp (sample r) = r.timestamp
record_timestamp (checkpoint r) = r.timestamp

-- `record_boot_id` of src/history/store.rs
abbrev pub record_boot_id : {F : Type 0} → Record F → String
record_boot_id (boot r) = r.boot_id
record_boot_id (sample r) = r.boot_id
record_boot_id (checkpoint r) = r.boot_id

-- The discriminant, which the derived equality and order compare.
abbrev pub kind_index : StateKind → ℕ
kind_index counter = 0
kind_index gauge = 1

abbrev pub kind_beq : (a b : StateKind) → Bool
kind_beq a b = kind_index a == kind_index b

pub kind_beq_iff : (a b : StateKind) → (kind_beq a b ≡ Bool.true) ↔ (a ≡ b)
kind_beq_iff a b = ground arith

instance abbrev pub kind_eq : Eq StateKind
kind_eq = record { beq = kind_beq; beq_iff = kind_beq_iff }
