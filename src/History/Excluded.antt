-- ===== src/History/Excluded.antt =====
-- src/history/store.rs: what is excluded leaves the records of the replay as they are.
use open_proxy.Common.{ℕ, ◌≡◌, refl, Option, none, some, List, [], ◌∷◌}
use open_proxy.History.Records.{Record, record_timestamp}
use open_proxy.History.Recovery.{Replay, Epoch, exclude_record, exclude_records, exclude_epoch}

module _ {F : Type 0} where
  exclude_records-records :
      (rs : List (Record F)) (replay : Replay F)
      → (exclude_records rs replay).records ≡ replay.records
  unfolding exclude_records
  exclude_records-records [] replay = refl
  exclude_records-records (r ∷ rs) replay =
      exclude_records-records rs (exclude_record (record_timestamp r) replay)

  exclude_records-ordering_bound :
      (rs : List (Record F)) (replay : Replay F)
      → (exclude_records rs replay).ordering_bound ≡ replay.ordering_bound
  unfolding exclude_records
  exclude_records-ordering_bound [] replay = refl
  exclude_records-ordering_bound (r ∷ rs) replay =
      exclude_records-ordering_bound rs (exclude_record (record_timestamp r) replay)

  pub exclude_epoch-records :
      (epoch : Epoch F) (damaging : Option ℕ) (replay : Replay F)
      → (exclude_epoch epoch damaging replay).records ≡ replay.records
  unfolding exclude_epoch
  exclude_epoch-records epoch none replay = exclude_records-records epoch.records _
  exclude_epoch-records epoch (some t) replay = exclude_records-records epoch.records _

  pub exclude_epoch-ordering_bound :
      (epoch : Epoch F) (damaging : Option ℕ) (replay : Replay F)
      → (exclude_epoch epoch damaging replay).ordering_bound ≡ replay.ordering_bound
  unfolding exclude_epoch
  exclude_epoch-ordering_bound epoch none replay = exclude_records-ordering_bound epoch.records _
  exclude_epoch-ordering_bound epoch (some t) replay =
      exclude_records-ordering_bound epoch.records _
