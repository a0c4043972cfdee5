-- ===== src/History/Validated.antt =====
-- src/history/store.rs: whatever the bytes of the file, a scan that succeeds gathers a history.
use open_proxy.Common.{
  ℕ, ◌≤◌, ◌≡◌, refl, subst, Bool, true, false, Option, none, some, List, [], ◌∷◌, ◌++◌, not, All,
  arith, Bool-cases, inl, inr, Result, Result-cases, ok, suc,
}
use open_proxy.History.Records.{Record, record_timestamp}
use open_proxy.History.Codec.{DecodeError}
use open_proxy.History.Recovery.{Replay, advance_ordering_bound}
use open_proxy.History.Scanner.{
  Scan, Line, ended, unended, read_lines, settle, scan_start, invalidate, regresses, take_record,
  scan_record, scan_damaged, scan_line, scan_tail, scan_lines, validate_canonical, advance_to,
  is_blank, is_unsupported,
}
use open_proxy.History.Canonical.{Canonical}
use open_proxy.History.Sound.{Below-time, le-later, All_both}
use open_proxy.History.Pending.{pending}
use open_proxy.History.Gathered.{invalidate_in-Gathers, advance-Gathers, settle-Settled}
use open_proxy.History.Taken.{Kept, All_weaken, take_record-Gathers}

module _ {F : Type 0} (P : Record F → Type 0) where
  invalidate-Kept : (t : ℕ) (scan : Scan F) → Kept P scan → Kept P (invalidate t scan)
  unfolding invalidate
  invalidate-Kept t scan h = invalidate_in-Gathers P scan.state t scan.replay h

  Kept-upto :
      (t : ℕ) (scan : Scan F)
      → regresses t scan.replay.ordering_bound ≡ false
      → Kept P scan
      → Kept (λ x. P x × (record_timestamp x ≤ t)) scan
  Kept-upto t scan e (w, s, (o, below, all)) =
      let xs = scan.replay.records ++ pending scan.state in
      (
        w,
        s,
        (
          o,
          below,
          All_both P (λ x. record_timestamp x ≤ t) xs all
              (Below-time scan.replay.ordering_bound t xs e below),
        ),
      )

  Kept-weaken :
      (Q : Record F → Type 0)
      → ((x : Record F) → Q x → P x)
      → (scan : Scan F) → Kept Q scan
      → Kept P scan
  Kept-weaken Q f scan (w, s, (o, below, all)) =
      (w, s, (o, below, All_weaken Q P f (scan.replay.records ++ pending scan.state) all))

  scan_record-Kept :
      (r : Record F) (scan : Scan F) → P r → Kept P scan → Kept P (scan_record r scan)
  unfolding scan_record
  scan_record-Kept r scan p h =
      elim (Bool-cases (regresses (record_timestamp r) scan.replay.ordering_bound)) [
        | inl e ↦ rw e (invalidate-Kept (record_timestamp r) scan h)
        | inr e ↦
            let t = record_timestamp r in
            let Q : Record F → Type 0 = λ x. P x × (record_timestamp x ≤ t) in
            let ahead = advance-Gathers Q scan.state t scan.replay (Kept-upto t scan e h) in
            let later_scan = record scan { replay = advance_ordering_bound t scan.replay } in
            rw e (
              Kept-weaken Q (λ x h. h.0) (take_record r later_scan)
                (take_record-Gathers Q r later_scan (p, omega arith) (λ x h. h.1)
                  (le-later t scan.replay.ordering_bound) ahead))
      ]

  advance_to-Kept :
      (read : Option ℕ) (scan : Scan F)
      → Kept P scan
      → Kept P (record scan { replay = advance_to read scan.replay })
  advance_to-Kept none scan h = h
  advance_to-Kept (some t) scan h = advance-Gathers P scan.state t scan.replay h

  scan_damaged-Kept :
      (read : Option ℕ) (scan : Scan F) → Kept P scan → Kept P (scan_damaged read scan)
  unfolding scan_damaged
  scan_damaged-Kept read scan h =
      invalidate-Kept _ (record scan { replay = advance_to read scan.replay })
        (advance_to-Kept read scan h)

  module _ (decode : List ℕ → Result DecodeError (Record F)) (time : List ℕ → Option ℕ)
      (decoded : (line : List ℕ) (r : Record F) → decode line ≡ ok r → P r) where
    scan_line-Kept :
        (index : ℕ) (line : List ℕ) (scan next : Scan F)
        → Kept P scan
        → scan_line decode time index line scan ≡ ok next
        → Kept P next
    unfolding scan_line
    scan_line-Kept index line scan next h e = elim (Result-cases (decode line)) [
      | inl (error, f) ↦ elim (Bool-cases (is_unsupported error)) [
        | inl u ↦ absurd (ground arith)
        | inr u ↦
            let same : scan_damaged (time line) scan ≡ next = ground arith in
            subst (Kept P) same (scan_damaged-Kept (time line) scan h)
      ]
      | inr (r, f) ↦
          let same : scan_record r scan ≡ next = ground arith in
          subst (Kept P) same (scan_record-Kept r scan (decoded line r f) h)
    ]

    scan_tail-Kept :
        (index : ℕ) (line : List ℕ) (scan next : Scan F)
        → Kept P scan
        → scan_tail decode time index line scan ≡ ok next
        → Kept P next
    scan_tail-Kept index line scan next h e =
        let marked = record scan {
          replay = record scan.replay { needs_separator = not (is_blank line) };
        } in
        let same : scan_damaged (time line) marked ≡ next = elim (Result-cases (decode line)) [
          | inl (error, f) ↦ elim (Bool-cases (is_unsupported error)) [
            | inl u ↦ absurd (ground arith)
            | inr u ↦ ground arith
          ]
          | inr (r, f) ↦ ground arith
        ] in
        subst (Kept P) same (scan_damaged-Kept (time line) marked h)

    scan_lines-Kept :
        (index : ℕ) (seen : Bool) (lines : List Line) (scan last : Scan F) (any : Bool)
        → Kept P scan
        → scan_lines decode time index seen lines scan ≡ ok (last, any)
        → Kept P last
    unfolding scan_lines
    scan_lines-Kept index seen [] scan last any h e =
        let same : scan ≡ last = ground arith in subst (Kept P) same h
    scan_lines-Kept index seen (unended line ∷ lines) scan last any h e =
        elim (Result-cases (scan_tail decode time (suc index) line scan)) [
          | inl (error, f) ↦ absurd (ground arith)
          | inr (next, f) ↦
              let same : next ≡ last = ground arith in
              subst (Kept P) same (scan_tail-Kept (suc index) line scan next h f)
        ]
    scan_lines-Kept index seen (ended line ∷ lines) scan last any h e =
        elim (Bool-cases (is_blank line)) [
          | inl b ↦ scan_lines-Kept (suc index) seen lines scan last any h (ground arith)
          | inr b ↦ elim (Result-cases (scan_line decode time (suc index) line scan)) [
            | inl (error, f) ↦ absurd (ground arith)
            | inr (next, f) ↦
                scan_lines-Kept (suc index) true lines next last any
                  (scan_line-Kept (suc index) line scan next h f) (ground arith)
          ]
        ]

    -- Whatever the bytes of the file, the records that a successful scan gathers are whole epochs in
    -- the order of time, and each was decoded from a line.
    pub validate_canonical-Canonical :
        (bytes : List ℕ) (replay : Replay F)
        → validate_canonical decode time bytes ≡ ok replay
        → Canonical replay.records × All P replay.records
    unfolding validate_canonical
    validate_canonical-Canonical bytes replay e =
        elim (Result-cases (scan_lines decode time 0 false (read_lines bytes) scan_start)) [
          | inl (error, f) ↦ absurd (ground arith)
          | inr ((last, any), f) ↦
              let start : Kept P scan_start = (tt, tt, (tt, refl, tt)) in
              let kept = scan_lines-Kept 0 false (read_lines bytes) scan_start last any start f in
              let (w, (o, below, all)) = settle-Settled P last.state last.replay kept in
              let same : settle last.state last.replay ≡ replay = ground arith in
              subst (λ replay. Canonical replay.records × All P replay.records) same ((w, o), all)
        ]
