-- ===== src/History/Accepted.antt =====
-- src/history/store.rs: `validate_canonical` accepts every file that holds a history.
use open_proxy.Common.{
  ℕ, suc, ◌≡◌, ◌≢◌, refl, Bool, true, false, Option, List, [], ◌∷◌, ◌++◌, map, append_assoc, All,
  arith, Result, ok, ◌==◌, nat_eq,
}
use open_proxy.History.Records.{Record}
use open_proxy.History.Codec.{DecodeError}
use open_proxy.History.Recovery.{Replay}
use open_proxy.History.Scanner.{
  Scan, ended, newline, is_blank, read_lines, settle, scan_start, scan_record, scan_line,
  scan_lines, validate_canonical,
}
use open_proxy.History.Canonical.{Canonical}
use open_proxy.History.Scanned.{scan_all, settle-scan_all}
use open_proxy.History.Pending.{Clean}

abbrev pub OneLine : List ℕ → Type 0
OneLine = All (λ b. b ≢ newline)

read_lines-line :
    (line rest : List ℕ)
    → OneLine line
    → read_lines (line ++ newline ∷ rest) ≡ ended line ∷ read_lines rest
unfolding read_lines
read_lines-line [] rest one = refl
read_lines-line (b ∷ line) rest one =
    let other : (b == newline) ≡ false = ground (arith, nat_eq.beq_iff b newline) in
    rw (other, read_lines-line line rest one.1) refl

abbrev seen_by : {A : Type 0} → Bool → List A → Bool
seen_by seen [] = seen
seen_by seen (x ∷ xs) = true

seen_by-true : {A : Type 0} (xs : List A) → seen_by true xs ≡ true
seen_by-true [] = refl
seen_by-true (x ∷ xs) = refl

-- The bytes of lines, each with its newline.
pub file_of : {A : Type 0} → List (List ℕ × A) → List ℕ
file_of [] = []
file_of ((line, r) ∷ rest) = (line ++ newline ∷ []) ++ file_of rest

module _ {F : Type 0} (decode : List ℕ → Result DecodeError (Record F))
    (time : List ℕ → Option ℕ) where
  -- A line, not blank, that is decoded to the record beside it.
  abbrev pub Reads : List ℕ × Record F → Type 0
  Reads (line, r) = OneLine line × (is_blank line ≡ false) × (decode line ≡ ok r)

  -- The scan takes the records of such lines one by one.
  scan_lines-file_of :
      (xs : List (List ℕ × Record F))
      → All Reads xs
      → (index : ℕ) (seen : Bool) (scan : Scan F)
      → scan_lines decode time index seen (read_lines (file_of xs)) scan
        ≡ ok (scan_all (map (λ x. x.1) xs) scan, seen_by seen xs)
  unfolding file_of scan_lines scan_line scan_all read_lines
  scan_lines-file_of [] h index seen scan = refl
  scan_lines-file_of ((line, r) ∷ xs) h index seen scan =
      let (one, full, back) = h.0 in
      rw
        (
          append_assoc line (newline ∷ []) (file_of xs),
          read_lines-line line (file_of xs) one,
          scan_lines,
          full,
          scan_line,
          back,
          scan_lines-file_of xs h.1 (suc index) true (scan_record r scan),
          seen_by-true xs,
        )
        refl

  -- The scan accepts every canonical history. A file of one or more lines that are not blank and are
  -- decoded to records, these standing in whole epochs in order of time, is read with nothing
  -- excluded, no gap and no unterminated tail, as exactly these records.
  pub validate_canonical-file_of :
      (x : List ℕ × Record F) (xs : List (List ℕ × Record F))
      → All Reads (x ∷ xs)
      → Canonical (map (λ x. x.1) (x ∷ xs))
      → (replay : Replay F) × (validate_canonical decode time (file_of (x ∷ xs)) ≡ ok replay)
        × Clean replay
        × (replay.records ≡ map (λ x. x.1) (x ∷ xs))
  unfolding validate_canonical
  validate_canonical-file_of x xs h canonical =
      let rs = map (λ x. x.1) (x ∷ xs) in
      let last = scan_all rs scan_start in
      let (clean, same) = settle-scan_all rs canonical in
      (
        settle last.state last.replay,
        rw (scan_lines-file_of (x ∷ xs) h 0 false scan_start) refl,
        clean,
        same,
      )
