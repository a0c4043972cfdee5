-- ===== src/History/Taken.antt =====
-- src/history/store.rs: how the scan takes a record that is in order.
use open_proxy.Common.{
  ℕ, ◌≤◌, ◌≡◌, refl, sym, ap, subst, false, Option, none, some, List, [], ◌∷◌, ◌++◌, append-nil,
  append_assoc, All, All-append, arith, ◌==◌, string_eq, by_test,
}
use open_proxy.History.Records.{
  Record, boot, sample, checkpoint, record_timestamp, record_boot_id, BootRecord, SampleRecord,
  CheckpointRecord,
}
use open_proxy.History.Recovery.{Replay, Epoch, push_record, add_sample, add_checkpoint}
use open_proxy.History.Scanner.{
  Scan, ScannerState, await_boot, await_sample, invalid_epoch, settle, start_boot, ingest_into,
  ingest_record, take_record,
}
use open_proxy.History.Retention.{is_boot}
use open_proxy.History.Pending.{commit_epoch-ordering_bound}
use open_proxy.History.Excluded.{exclude_epoch-ordering_bound}
use open_proxy.History.Sound.{Fine, Ordered-snoc}
use open_proxy.History.Gathered.{
  Shape, Gathers, Gathers-Settled, drop_epoch-Gathers, drop_record-Gathers, settle-Settled,
}

module _ {F : Type 0} where
  settle-ordering_bound :
      (state : ScannerState F) (replay : Replay F)
      → (settle state replay).ordering_bound ≡ replay.ordering_bound
  unfolding settle
  settle-ordering_bound await_boot replay = refl
  settle-ordering_bound invalid_epoch replay = refl
  settle-ordering_bound (await_sample e) replay = exclude_epoch-ordering_bound e none replay
  settle-ordering_bound (ScannerState.usable e) replay = commit_epoch-ordering_bound e replay

  pub All_weaken :
      (P Q : Record F → Type 0)
      → ((x : Record F) → P x → Q x)
      → (xs : List (Record F)) → All P xs
      → All Q xs
  All_weaken P Q f [] h = tt
  All_weaken P Q f (x ∷ xs) h = (f x h.0, All_weaken P Q f xs h.1)

  abbrev pub Reached : Record F → Option ℕ → Type 0
  Reached r none = ⊥
  Reached r (some bound) = record_timestamp r ≤ bound

  -- The record `r` is taken when it is later than what was gathered and the bound has reached it.
  module _ (P : Record F → Type 0) (r : Record F) (p : P r)
      (upto : (x : Record F) → P x → record_timestamp x ≤ record_timestamp r) where
    Fine-taken :
        (bound : Option ℕ) (records mine : List (Record F))
        → Reached r bound
        → Fine P bound (records ++ mine)
        → Fine P bound (records ++ (mine ++ r ∷ []))
    Fine-taken none records mine h f = absurd h
    Fine-taken (some b) records mine h (o, below, all) =
        let xs = records ++ mine in
        rw (sym (append_assoc records mine (r ∷ []))) (
          Ordered-snoc 0 xs r o (omega arith)
              (All_weaken P (λ x. record_timestamp x ≤ record_timestamp r) upto xs all),
          All-append (λ x. record_timestamp x ≤ b) xs (r ∷ []) below (h, tt),
          All-append P xs (r ∷ []) all (p, tt),
        )

  abbrev pub Kept : (Record F → Type 0) → Scan F → Type 0
  Kept P scan = Gathers P scan.state scan.replay

  -- An epoch that took its first sample, or a record behind it.
  first-Shape :
      (e : Epoch F) (m : SampleRecord F)
      → Shape (await_sample e)
      → e.boot_id ≡ m.boot_id
      → Shape (ScannerState.usable (push_record (sample m) (add_sample m e)))
  first-Shape e m (b, same, of_boot) mine =
      (b, m, [], ap (λ rs. rs ++ sample m ∷ []) same, of_boot, mine, tt)

  module _ (P : Record F → Type 0) where
    sample-Shape :
        (e : Epoch F) (m : SampleRecord F)
        → Shape (ScannerState.usable e)
        → e.boot_id ≡ m.boot_id
        → Shape (ScannerState.usable (push_record (sample m) (add_sample m e)))
    sample-Shape e m (b, n, xs, same, of_boot, of_sample, ms) mine = (
      b,
      n,
      xs ++ sample m ∷ [],
      ap (λ rs. rs ++ sample m ∷ []) same,
      of_boot,
      of_sample,
      All-append (λ r. (is_boot r ≡ false) × (e.boot_id ≡ record_boot_id r)) xs (sample m ∷ []) ms
          ((refl, mine), tt),
    )

    checkpoint-Shape :
        (e : Epoch F) (c : CheckpointRecord)
        → Shape (ScannerState.usable e)
        → e.boot_id ≡ c.boot_id
        → Shape (ScannerState.usable (push_record (checkpoint c) (add_checkpoint c e)))
    checkpoint-Shape e c (b, n, xs, same, of_boot, of_sample, ms) mine = (
      b,
      n,
      xs ++ checkpoint c ∷ [],
      ap (λ rs. rs ++ checkpoint c ∷ []) same,
      of_boot,
      of_sample,
      All-append (λ r. (is_boot r ≡ false) × (e.boot_id ≡ record_boot_id r)) xs (checkpoint c ∷ [])
          ms ((refl, mine), tt),
    )

    ingest_into-Gathers :
        (r : Record F) (state : ScannerState F) (replay : Replay F)
        → P r
        → ((x : Record F) → P x → record_timestamp x ≤ record_timestamp r)
        → is_boot r ≡ false
        → Reached r replay.ordering_bound
        → Gathers P state replay
        → Kept P (ingest_into r state replay)
    ingest_into-Gathers r await_boot replay p upto n h g =
        drop_record-Gathers P (record_timestamp r) replay (Gathers-Settled P await_boot replay g)
    ingest_into-Gathers r invalid_epoch replay p upto n h g =
        drop_record-Gathers P (record_timestamp r) replay (Gathers-Settled P invalid_epoch replay g)
    ingest_into-Gathers (boot b) (await_sample e) replay p upto n h g = absurd (ground arith)
    ingest_into-Gathers (boot b) (ScannerState.usable e) replay p upto n h g = absurd (ground arith)
    ingest_into-Gathers (sample m) (await_sample e) replay p upto n h (w, s, f) =
        by_test (Kept P) (e.boot_id == m.boot_id)
          (λ t. (
            w,
            first-Shape e m s ((string_eq.beq_iff e.boot_id m.boot_id).0 t),
            Fine-taken P (sample m) p upto replay.ordering_bound replay.records e.records h f,
          ))
          (λ _.
            drop_epoch-Gathers P e m.timestamp replay
              (Gathers-Settled P (await_sample e) replay (w, s, f)))
    ingest_into-Gathers (checkpoint c) (await_sample e) replay p upto n h g =
        let dropped =
          drop_epoch-Gathers P e c.timestamp replay (Gathers-Settled P (await_sample e) replay g) in
        by_test (Kept P) (e.boot_id == c.boot_id) (λ _. dropped) (λ _. dropped)
    ingest_into-Gathers (sample m) (ScannerState.usable e) replay p upto n h (w, s, f) =
        by_test (Kept P) (e.boot_id == m.boot_id)
          (λ t. (
            w,
            sample-Shape e m s ((string_eq.beq_iff e.boot_id m.boot_id).0 t),
            Fine-taken P (sample m) p upto replay.ordering_bound replay.records e.records h f,
          ))
          (λ _.
            drop_epoch-Gathers P e m.timestamp replay
              (Gathers-Settled P (ScannerState.usable e) replay (w, s, f)))
    ingest_into-Gathers (checkpoint c) (ScannerState.usable e) replay p upto n h (w, s, f) =
        by_test (Kept P) (e.boot_id == c.boot_id)
          (λ t. (
            w,
            checkpoint-Shape e c s ((string_eq.beq_iff e.boot_id c.boot_id).0 t),
            Fine-taken P (checkpoint c) p upto replay.ordering_bound replay.records e.records h f,
          ))
          (λ _.
            drop_epoch-Gathers P e c.timestamp replay
              (Gathers-Settled P (ScannerState.usable e) replay (w, s, f)))

    start_boot-Gathers :
        (b : BootRecord) (scan : Scan F)
        → P (boot b)
        → ((x : Record F) → P x → record_timestamp x ≤ b.timestamp)
        → Reached (boot b) scan.replay.ordering_bound
        → Kept P scan
        → Kept P (start_boot b scan)
    unfolding start_boot
    start_boot-Gathers b scan p upto h g =
        let settled = settle scan.state scan.replay in
        let (w, f) = settle-Settled P scan.state scan.replay g in
        let reached : Reached (boot b) settled.ordering_bound =
          rw (settle-ordering_bound scan.state scan.replay) h in
        (
          w,
          (b, refl, refl),
          Fine-taken P (boot b) p upto settled.ordering_bound settled.records [] reached
              (subst (Fine P settled.ordering_bound) (sym (append-nil settled.records)) f),
        )

    pub take_record-Gathers :
        (r : Record F) (scan : Scan F)
        → P r
        → ((x : Record F) → P x → record_timestamp x ≤ record_timestamp r)
        → Reached r scan.replay.ordering_bound
        → Kept P scan
        → Kept P (take_record r scan)
    unfolding ingest_record
    take_record-Gathers (boot b) scan p upto h g = start_boot-Gathers b scan p upto h g
    take_record-Gathers (sample m) scan p upto h g =
        ingest_into-Gathers (sample m) scan.state scan.replay p upto refl h g
    take_record-Gathers (checkpoint c) scan p upto h g =
        ingest_into-Gathers (checkpoint c) scan.state scan.replay p upto refl h g
