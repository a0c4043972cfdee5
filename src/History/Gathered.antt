-- ===== src/History/Gathered.antt =====
-- src/history/store.rs: whatever the bytes of the file, a scan that succeeds gathers a history.
use open_proxy.Common.{
  ℕ, ◌≡◌, sym, ◌∙◌, subst, Option, none, some, List, [], ◌∷◌, ◌++◌, append-nil, string_eq,
}
use open_proxy.History.Records.{Record, boot, sample, BootRecord, SampleRecord}
use open_proxy.History.Recovery.{Replay, Epoch, exclude_epoch, advance_ordering_bound}
use open_proxy.History.Scanner.{
  ScannerState, await_boot, await_sample, invalid_epoch, settle, invalidate_in, drop_epoch,
  drop_record,
}
use open_proxy.History.Canonical.{between, usable, Within}
use open_proxy.History.Retained.{Members}
use open_proxy.History.Pending.{pending, commit_epoch-records, commit_epoch-ordering_bound}
use open_proxy.History.Excluded.{exclude_epoch-records, exclude_epoch-ordering_bound}
use open_proxy.History.Sound.{Within-append, Members-append, Fine, Fine-front, Fine-later}

module _ {F : Type 0} where
  -- A boot alone, or a boot, its first sample and what its epoch took since.
  abbrev pub Shape : ScannerState F → Type 0
  Shape await_boot = Unit
  Shape invalid_epoch = Unit
  Shape (await_sample e) = (b : BootRecord) × (e.records ≡ boot b ∷ []) × (e.boot_id ≡ b.boot_id)
  Shape (ScannerState.usable e) =
      (b : BootRecord) × (m : SampleRecord F) × (xs : List (Record F)) × (e.records
        ≡ boot b ∷ sample m ∷ xs)
      × (e.boot_id ≡ b.boot_id)
      × (e.boot_id ≡ m.boot_id)
      × Members e.boot_id xs

  module _ (P : Record F → Type 0) where
    abbrev pub Gathers : ScannerState F → Replay F → Type 0
    Gathers state replay =
        Within between replay.records
        × Shape state
        × Fine P replay.ordering_bound (replay.records ++ pending state)

    abbrev pub Settled : Replay F → Type 0
    Settled replay = Within between replay.records × Fine P replay.ordering_bound replay.records

    pub Settled-Gathers : (replay : Replay F) → Settled replay → Gathers invalid_epoch replay
    Settled-Gathers replay (w, f) =
        (w, tt, subst (Fine P replay.ordering_bound) (sym (append-nil replay.records)) f)

    pub Gathers-Settled :
        (state : ScannerState F) (replay : Replay F) → Gathers state replay → Settled replay
    Gathers-Settled state replay (w, s, f) =
        (w, Fine-front P replay.ordering_bound replay.records (pending state) f)

    exclude_epoch-Settled :
        (e : Epoch F) (damaging : Option ℕ) (replay : Replay F)
        → Settled replay
        → Settled (exclude_epoch e damaging replay)
    exclude_epoch-Settled e damaging replay (w, f) =
        rw (exclude_epoch-records e damaging replay, exclude_epoch-ordering_bound e damaging replay)
          (w, f)

    pub drop_epoch-Gathers :
        (e : Epoch F) (t : ℕ) (replay : Replay F)
        → Settled replay
        → Gathers (drop_epoch e t replay).state (drop_epoch e t replay).replay
    drop_epoch-Gathers e t replay h =
        Settled-Gathers (exclude_epoch e (some t) replay)
          (exclude_epoch-Settled e (some t) replay h)

    pub drop_record-Gathers :
        (t : ℕ) (replay : Replay F)
        → Settled replay
        → Gathers (drop_record t replay).state (drop_record t replay).replay
    drop_record-Gathers t replay h = Settled-Gathers (drop_record t replay).replay h

    pub settle-Settled :
        (state : ScannerState F) (replay : Replay F)
        → Gathers state replay
        → Settled (settle state replay)
    unfolding settle
    settle-Settled await_boot replay h = Gathers-Settled await_boot replay h
    settle-Settled invalid_epoch replay h = Gathers-Settled invalid_epoch replay h
    settle-Settled (await_sample e) replay h =
        exclude_epoch-Settled e none replay (Gathers-Settled (await_sample e) replay h)
    settle-Settled (ScannerState.usable e) replay (w, (b, m, xs, same, of_boot, of_sample, ms), f) =
        let epoch : Within between e.records = rw same (
          sym of_boot ∙ of_sample,
          subst (λ id. Within (usable id) xs) of_boot
              (subst (Within (usable e.boot_id)) (append-nil xs)
                (Members-append e.boot_id xs [] ms tt)),
        ) in
        rw (commit_epoch-records e replay, commit_epoch-ordering_bound e replay)
          (Within-append between replay.records e.records w epoch, f)

    pub invalidate_in-Gathers :
        (state : ScannerState F) (t : ℕ) (replay : Replay F)
        → Gathers state replay
        → Gathers (invalidate_in state t replay).state (invalidate_in state t replay).replay
    invalidate_in-Gathers await_boot t replay h =
        drop_record-Gathers t replay (Gathers-Settled await_boot replay h)
    invalidate_in-Gathers invalid_epoch t replay h =
        drop_record-Gathers t replay (Gathers-Settled invalid_epoch replay h)
    invalidate_in-Gathers (await_sample e) t replay h =
        drop_epoch-Gathers e t replay (Gathers-Settled (await_sample e) replay h)
    invalidate_in-Gathers (ScannerState.usable e) t replay h =
        drop_epoch-Gathers e t replay (Gathers-Settled (ScannerState.usable e) replay h)

    pub advance-Gathers :
        (state : ScannerState F) (t : ℕ) (replay : Replay F)
        → Gathers state replay
        → Gathers state (advance_ordering_bound t replay)
    advance-Gathers state t replay (w, s, f) =
        (w, s, Fine-later P replay.ordering_bound t (replay.records ++ pending state) f)
