-- ===== src/History/Scanned.antt =====
-- src/history/store.rs: scanning a history in order takes every record and excludes none.
use open_proxy.Common.{
  ℕ, ◌≤◌, ◌≡◌, refl, sym, ap, ◌∙◌, false, List, [], ◌∷◌, ◌++◌, append-nil, append_assoc, arith,
  string_eq,
}
use open_proxy.History.Records.{Record, boot, sample, checkpoint, record_timestamp, BootRecord}
use open_proxy.History.Recovery.{Replay, close_last, advance_ordering_bound}
use open_proxy.History.Scanner.{
  Scan, ScannerState, await_sample, scan_record, settle, start_boot, ingest_into, ingest_record,
  scan_start, take_record,
}
use open_proxy.History.Retention.{is_boot}
use open_proxy.History.Canonical.{Phase, between, opened, usable, Within, Ordered, Canonical}
use open_proxy.History.Pending.{
  Bounded-later, Bounded-le, Clean, Holds, Within-after, Within-closed, after, kept,
  regresses-Bounded, settle-Holds,
}

module _ {F : Type 0} where
  unfoldable pub scan_all : List (Record F) → Scan F → Scan F
  scan_all [] scan = scan
  scan_all (r ∷ rs) scan = scan_all rs (scan_record r scan)

  -- A boot behind whole epochs commits the last of them.
  start_boot-Holds :
      (p : Phase) (b : BootRecord) (rs taken : List (Record F)) (scan : Scan F)
      → Within p (boot b ∷ rs)
      → Holds p b.timestamp taken scan.state scan.replay
      → Holds
          (opened b.boot_id)
          b.timestamp
          (taken ++ boot b ∷ [])
          (start_boot b scan).state
          (start_boot b scan).replay
  unfolding start_boot close_last
  start_boot-Holds p b rs taken scan w h =
      let (clean, bound, same) =
        settle-Holds p b.timestamp taken scan.state scan.replay (Within-closed p b rs w) h in
      (
        (ap (close_last b.timestamp) clean.0, clean.1, clean.2, clean.3),
        bound,
        (refl, tt),
        ap (λ rs. rs ++ boot b ∷ []) same,
      )

  pub taken_in :
      (taken records mine : List (Record F)) (r : Record F)
      → records ++ mine ≡ taken
      → records ++ (mine ++ r ∷ []) ≡ taken ++ r ∷ []
  taken_in taken records mine r same =
      sym (append_assoc records mine (r ∷ [])) ∙ ap (λ rs. rs ++ r ∷ []) same

  ingest_into-Holds :
      (p : Phase) (r : Record F) (rs taken : List (Record F)) (state : ScannerState F)
      (replay : Replay F)
      → is_boot r ≡ false
      → Within p (r ∷ rs)
      → Holds p (record_timestamp r) taken state replay
      → Holds
          (after p r)
          (record_timestamp r)
          (taken ++ r ∷ [])
          (ingest_into r state replay).state
          (ingest_into r state replay).replay
  unfolding after
  ingest_into-Holds (opened id) (sample m) rs taken (await_sample e) replay n w
        (clean, bound, stands, same) =
      let mine = (string_eq.beq_iff e.boot_id m.boot_id).1 (stands.0 ∙ w.0) in
      rw mine (
        clean,
        bound,
        (stands.0 ∙ w.0, kept e.diagnostic_events _ (refl, refl) stands.1),
        taken_in taken replay.records e.records (sample m) same,
      )
  ingest_into-Holds _ (boot b) rs taken state replay n w h = absurd (ground arith)
  ingest_into-Holds (usable id) (sample m) rs taken (ScannerState.usable e) replay n w
        (clean, bound, stands, same) =
      let mine = (string_eq.beq_iff e.boot_id m.boot_id).1 (stands.0 ∙ w.0) in
      rw mine (
        clean,
        bound,
        (stands.0 ∙ w.0, kept e.diagnostic_events _ (refl, refl) stands.1),
        taken_in taken replay.records e.records (sample m) same,
      )
  ingest_into-Holds (usable id) (checkpoint c) rs taken (ScannerState.usable e) replay n w
        (clean, bound, stands, same) =
      let mine = (string_eq.beq_iff e.boot_id c.boot_id).1 (stands.0 ∙ w.0) in
      rw mine (
        clean,
        bound,
        (stands.0 ∙ w.0, kept e.diagnostic_events _ (refl, refl) stands.1),
        taken_in taken replay.records e.records (checkpoint c) same,
      )
  ingest_into-Holds between (sample m) rs taken state replay n w h = absurd w
  ingest_into-Holds between (checkpoint c) rs taken state replay n w h = absurd w
  ingest_into-Holds (opened id) (checkpoint c) rs taken state replay n w h = absurd w
  ingest_into-Holds (opened id) (sample m) rs taken _ replay n w h = absurd h.2
  ingest_into-Holds (usable id) _ rs taken _ replay n w h = absurd h.2

  take_record-Holds :
      (p : Phase) (r : Record F) (rs taken : List (Record F)) (scan : Scan F)
      → Within p (r ∷ rs)
      → Holds p (record_timestamp r) taken scan.state scan.replay
      → Holds
          (after p r)
          (record_timestamp r)
          (taken ++ r ∷ [])
          (take_record r scan).state
          (take_record r scan).replay
  unfolding ingest_record after
  take_record-Holds p (boot b) rs taken scan w h = start_boot-Holds p b rs taken scan w h
  take_record-Holds p (sample m) rs taken scan w h =
      ingest_into-Holds p (sample m) rs taken scan.state scan.replay refl w h
  take_record-Holds p (checkpoint c) rs taken scan w h =
      ingest_into-Holds p (checkpoint c) rs taken scan.state scan.replay refl w h

  scan_record-Holds :
      (p : Phase) (t : ℕ) (r : Record F) (rs taken : List (Record F)) (scan : Scan F)
      → t ≤ record_timestamp r
      → Within p (r ∷ rs)
      → Holds p t taken scan.state scan.replay
      → Holds
          (after p r)
          (record_timestamp r)
          (taken ++ r ∷ [])
          (scan_record r scan).state
          (scan_record r scan).replay
  unfolding scan_record
  scan_record-Holds p t r rs taken scan le w (clean, bound, stands, same) =
      rw
        (regresses-Bounded (record_timestamp r) scan.replay.ordering_bound
          (Bounded-le t (record_timestamp r) scan.replay.ordering_bound bound le))
        (take_record-Holds p r rs taken
          (record scan { replay = advance_ordering_bound (record_timestamp r) scan.replay }) w
          (
            clean,
            Bounded-later t (record_timestamp r) scan.replay.ordering_bound bound le,
            stands,
            same,
          ))

  scan_all-Holds :
      (p : Phase) (t : ℕ) (rs taken : List (Record F)) (scan : Scan F)
      → Within p rs
      → Ordered t rs
      → Holds p t taken scan.state scan.replay
      → (q : Phase) × (u : ℕ) × Within {F = F} q []
        × Holds q u (taken ++ rs) (scan_all rs scan).state (scan_all rs scan).replay
  unfolding scan_all
  scan_all-Holds p t [] taken scan w o h = (p, t, w, rw (append-nil taken) h)
  scan_all-Holds p t (r ∷ rs) taken scan w o h =
      let (q, u, closed, rest) =
        scan_all-Holds (after p r) (record_timestamp r) rs (taken ++ r ∷ []) (scan_record r scan)
          (Within-after p r rs w) o.1 (scan_record-Holds p t r rs taken scan o.0 w h) in
      (q, u, closed, rw (sym (append_assoc taken (r ∷ []) rs)) rest)

  pub settle-scan_all :
      (rs : List (Record F))
      → Canonical rs
      → let last = scan_all rs scan_start in
        Clean (settle last.state last.replay) × ((settle last.state last.replay).records ≡ rs)
  settle-scan_all rs (w, o) =
      let (q, u, closed, holds) =
        scan_all-Holds between 0 rs [] scan_start w o ((refl, refl, refl, refl), tt, tt, refl) in
      let last = scan_all rs scan_start in
      let (clean, bound, same) = settle-Holds q u rs last.state last.replay closed holds in
      (clean, same)
