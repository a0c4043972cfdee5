-- ===== src/History/Pending.antt =====
-- src/history/store.rs: what a scan holds while it takes a history in order.
use open_proxy.Common.{
  ℕ, All, All-append, subst, ◌≤◌, ◌≡◌, refl, sym, ap, ◌∙◌, false, Option, none, some, List, [], ◌∷◌,
  ◌++◌, append-nil, arith, string_eq,
}
use open_proxy.History.Records.{Record, boot, sample, checkpoint, BootRecord}
use open_proxy.History.Recovery.{
  Replay, Epoch, DiagnosticEvent, push_events, push_event, commit_epoch, later,
}
use open_proxy.History.Scanner.{
  ScannerState, await_boot, await_sample, invalid_epoch, settle, regresses,
}
use open_proxy.History.Canonical.{Phase, between, opened, usable, Within}

abbrev pub Bounded : ℕ → Option ℕ → Type 0
Bounded t none = Unit
Bounded t (some bound) = bound ≤ t

abbrev pub ExcludesNone : DiagnosticEvent → Type 0
ExcludesNone e = (e.diagnostics.excluded_epochs ≡ 0) × (e.diagnostics.excluded_records ≡ 0)

pub Bounded-le : (t u : ℕ) (bound : Option ℕ) → Bounded t bound → t ≤ u → Bounded u bound
Bounded-le t u none h le = tt
Bounded-le t u (some b) h le = omega arith

pub regresses-Bounded : (t : ℕ) (bound : Option ℕ) → Bounded t bound → regresses t bound ≡ false
regresses-Bounded t none h = refl
regresses-Bounded t (some b) h = ground arith

pub Bounded-later : (t u : ℕ) (bound : Option ℕ) → Bounded t bound → t ≤ u → later u bound ≤ u
Bounded-later t u none h le = omega arith
Bounded-later t u (some b) h le = ground arith

pub kept :
    (es : List DiagnosticEvent) (e : DiagnosticEvent)
    → ExcludesNone e
    → All ExcludesNone es
    → All ExcludesNone (es ++ e ∷ [])
kept es e k h = All-append ExcludesNone es (e ∷ []) h (k, tt)

module _ {F : Type 0} where
  -- The replay of a file from which nothing was left out.
  abbrev pub Clean : Replay F → Type 0
  Clean replay =
      (replay.gaps ≡ [])
      × (replay.diagnostics.excluded_epochs ≡ 0)
      × (replay.diagnostics.excluded_records ≡ 0)
      × (replay.needs_separator ≡ false)

  abbrev pub Stands : Phase → ScannerState F → Type 0
  Stands between await_boot = Unit
  Stands (opened id) (await_sample epoch) =
      (epoch.boot_id ≡ id) × All ExcludesNone epoch.diagnostic_events
  Stands (usable id) (ScannerState.usable epoch) =
      (epoch.boot_id ≡ id) × All ExcludesNone epoch.diagnostic_events
  Stands _ _ = ⊥

  abbrev pub pending : ScannerState F → List (Record F)
  pending (await_sample epoch) = epoch.records
  pending (ScannerState.usable epoch) = epoch.records
  pending await_boot = []
  pending invalid_epoch = []

  abbrev pub Holds : Phase → ℕ → List (Record F) → ScannerState F → Replay F → Type 0
  Holds p t taken state replay =
      Clean replay
      × Bounded t replay.ordering_bound
      × Stands p state
      × (replay.records ++ pending state ≡ taken)

  pub push_events-Clean :
      (es : List DiagnosticEvent) (replay : Replay F)
      → All ExcludesNone es
      → Clean replay
      → Clean (push_events es replay)
  unfolding push_events
  push_events-Clean [] replay h clean = clean
  push_events-Clean (e ∷ es) replay h clean =
      push_events-Clean es (push_event e replay) h.1 (clean.0, ground arith, ground arith, clean.3)

  pub push_events-records :
      (es : List DiagnosticEvent) (replay : Replay F)
      → (push_events es replay).records ≡ replay.records
  unfolding push_events
  push_events-records [] replay = refl
  push_events-records (e ∷ es) replay = push_events-records es (push_event e replay)

  pub push_events-ordering_bound :
      (es : List DiagnosticEvent) (replay : Replay F)
      → (push_events es replay).ordering_bound ≡ replay.ordering_bound
  unfolding push_events
  push_events-ordering_bound [] replay = refl
  push_events-ordering_bound (e ∷ es) replay = push_events-ordering_bound es (push_event e replay)

  pub commit_epoch-records :
      (epoch : Epoch F) (replay : Replay F)
      → (commit_epoch epoch replay).records ≡ replay.records ++ epoch.records
  unfolding commit_epoch
  commit_epoch-records epoch replay =
      ap (λ rs. rs ++ epoch.records) (push_events-records epoch.diagnostic_events replay)

  pub commit_epoch-Clean :
      (epoch : Epoch F) (replay : Replay F)
      → All ExcludesNone epoch.diagnostic_events
      → Clean replay
      → Clean (commit_epoch epoch replay)
  unfolding commit_epoch
  commit_epoch-Clean epoch replay h clean = push_events-Clean epoch.diagnostic_events replay h clean

  pub commit_epoch-ordering_bound :
      (epoch : Epoch F) (replay : Replay F)
      → (commit_epoch epoch replay).ordering_bound ≡ replay.ordering_bound
  unfolding commit_epoch
  commit_epoch-ordering_bound epoch replay =
      push_events-ordering_bound epoch.diagnostic_events replay

  pub Within-closed :
      (p : Phase) (b : BootRecord) (rs : List (Record F))
      → Within p (boot b ∷ rs)
      → Within {F = F} p []
  Within-closed between b rs h = tt
  Within-closed (opened id) b rs h = h
  Within-closed (usable id) b rs h = tt

  unfoldable pub after : Phase → Record F → Phase
  after p (boot b) = opened b.boot_id
  after p (sample m) = usable m.boot_id
  after p (checkpoint c) = usable c.boot_id

  pub Within-after :
      (p : Phase) (r : Record F) (rs : List (Record F)) → Within p (r ∷ rs) → Within (after p r) rs
  unfolding after
  Within-after between (boot b) rs h = h
  Within-after (usable id) (boot b) rs h = h
  Within-after (opened id) (sample m) rs h = subst (λ x. Within (usable x) rs) h.0 h.1
  Within-after (usable id) (sample m) rs h = subst (λ x. Within (usable x) rs) h.0 h.1
  Within-after (usable id) (checkpoint c) rs h = subst (λ x. Within (usable x) rs) h.0 h.1
  Within-after between (sample m) rs h = absurd h
  Within-after between (checkpoint c) rs h = absurd h
  Within-after (opened id) (boot b) rs h = absurd h
  Within-after (opened id) (checkpoint c) rs h = absurd h

  -- Behind whole epochs, settling commits the last of them.
  pub settle-Holds :
      (p : Phase) (t : ℕ) (taken : List (Record F)) (state : ScannerState F) (replay : Replay F)
      → Within {F = F} p []
      → Holds p t taken state replay
      → Clean (settle state replay)
        × Bounded t (settle state replay).ordering_bound
        × ((settle state replay).records ≡ taken)
  unfolding settle
  settle-Holds between t taken await_boot replay w (clean, bound, stands, same) =
      (clean, bound, sym (append-nil replay.records) ∙ same)
  settle-Holds (usable id) t taken (ScannerState.usable epoch) replay w
        (clean, bound, stands, same) =
      (
        commit_epoch-Clean epoch replay stands.1 clean,
        subst (Bounded t) (sym (commit_epoch-ordering_bound epoch replay)) bound,
        commit_epoch-records epoch replay ∙ same,
      )
  settle-Holds (opened id) t taken state replay w h = absurd w
  settle-Holds _ t taken _ replay w h = absurd (ground arith)
