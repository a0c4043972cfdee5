-- ===== src/History/Replaced.antt =====
-- src/history/store.rs: compaction, from the history's bytes to those that take their place.
use open_proxy.Common.{
  ℕ, ◌≡◌, refl, ◌⊎◌, String, Bool, true, false, not, ◌||◌, Option, none, some, List, [], ◌∷◌, arith,
  Bool-cases, by_test, by_option, inl, inr, Result, Result-cases, err, ok, ◌>>=◌, is_some,
}
use open_proxy.History.Records.{Record}
use open_proxy.History.Codec.{
  DecodeError, EncodeError, JsonError, RawRecord, Encoded, encode_record, decode_record,
}
use open_proxy.History.Recovery.{Replay, RecoveryGap}
use open_proxy.History.Scanner.{validate_canonical}
use open_proxy.History.Retention.{retained_compaction_records}
use open_proxy.History.Canonical.{Canonical}
use open_proxy.History.Pending.{Clean}
use open_proxy.History.Validated.{validate_canonical-Canonical}
use open_proxy.History.Compacted.{retained_compaction_records-Canonical}
use open_proxy.History.Epochs.{recent}
use open_proxy.History.Writing.{HistoryStore, records_beq, write_records}
use open_proxy.History.Compaction.{
  CompactionError, CompactionOutcome, ends_after, is_empty, is_exact, prepare, required, synced,
  replaced, rename_over, compact_inner_if_authorized,
}

-- The program's codec, over what it takes from `serde_json` and from `f64`, and its clock.
module _ {F : Type 0} (is_finite : F → Bool) (f64_eq : F → F → Bool) (is_utf8 : List ℕ → Bool)
    (parse : List ℕ → Result JsonError (RawRecord F)) (to_vec : Encoded F → Option (List ℕ))
    (time : List ℕ → Option ℕ) where
  abbrev decode : List ℕ → Result DecodeError (Record F)
  decode line = decode_record is_finite is_utf8 parse line

  abbrev encode : Record F → Result EncodeError (List ℕ)
  encode r = encode_record is_finite to_vec r

  empty_gaps : (gaps : List RecoveryGap) → is_empty gaps ≡ true → gaps ≡ []
  empty_gaps [] e = refl
  empty_gaps (gap ∷ gaps) e = absurd (cc)

  -- What passes the check of the replacement.
  is_exact-Clean :
      (replacement : Replay F) (retained : List (Record F))
      → is_exact encode f64_eq decode time replacement retained ≡ true
      → Clean replacement × (records_beq f64_eq replacement.records retained ≡ true)
  is_exact-Clean replacement retained e = (
    (empty_gaps replacement.gaps (ground arith), ground arith, ground arith, ground arith),
    ground arith,
  )

  -- What is prepared has been read back and checked.
  prepare-Clean :
      (retained : List (Record F)) (bytes : List ℕ) (replacement : Replay F)
      → prepare encode f64_eq decode time retained ≡ ok (bytes, replacement)
      → (validate_canonical decode time bytes ≡ ok replacement)
        × Clean replacement
        × (records_beq f64_eq replacement.records retained ≡ true)
  unfolding prepare
  prepare-Clean retained bytes replacement h = elim (Result-cases (write_records encode retained)) [
    | inl (e, f) ↦ absurd (ground arith)
    | inr (written, f) ↦ elim (Result-cases (validate_canonical decode time written)) [
      | inl (e, g) ↦ absurd (ground arith)
      | inr (back, g) ↦ elim (Bool-cases (is_exact encode f64_eq decode time back retained)) [
        | inr bad ↦ absurd (ground arith)
        | inl exact ↦
            let made : prepare encode f64_eq decode time retained ≡ ok (written, back) =
              rw (prepare, f, g, exact) refl in
            let alike : (written ≡ bytes) × (back ≡ replacement) = ground arith in
            let (clean, same) = is_exact-Clean replacement retained (rw alike.1 at exact) in
            (ground arith, clean, same)
      ]
    ]
  ]

  -- The store's file is a replacement of the history that `store` had: it reads back whole, as the
  -- records that compaction retains, and these have all of the history's from the cutoff on.
  pub record Compacts (cutoff : ℕ) (store left : HistoryStore F) : Type 0 where
    pub replay : Replay F
    pub replacement : Replay F
    pub retained : List (Record F)
    pub history : validate_canonical decode time store.file ≡ ok replay
    pub read_back : validate_canonical decode time left.file ≡ ok replacement
    pub clean : Clean replacement
    pub whole : Canonical retained
    pub same : records_beq f64_eq replacement.records retained ≡ true
    pub late : recent cutoff retained ≡ recent cutoff replay.records
    pub kept : left ≡ replaced left.file replacement store

  abbrev pub Durable :
      ℕ
      → Bool
      → Option String
      → Option String
      → HistoryStore F
      → Result CompactionError CompactionOutcome × HistoryStore F
      → Type 0
  Durable cutoff authorized rename sync store (answer, left) =
      (left ≡ store)
      ⊎ ((answer ≡ ok (synced sync))
          × (authorized ≡ true)
          × (rename ≡ none)
          × Compacts cutoff store left)

  rename_over-Durable :
      (cutoff : ℕ) (authorized : Bool) (rename sync : Option String) (store : HistoryStore F)
      (prepared : Result CompactionError (List ℕ × Replay F))
      → ((bytes : List ℕ) (replacement : Replay F)
          → prepared ≡ ok (bytes, replacement)
          → Compacts cutoff store (replaced bytes replacement store))
      → Durable cutoff authorized rename sync store
          (rename_over authorized rename sync store prepared)
  unfolding rename_over
  rename_over-Durable cutoff authorized rename sync store (err e) h = inl refl
  rename_over-Durable cutoff false rename sync store (ok prepared) h = inl refl
  rename_over-Durable cutoff true (some why) sync store (ok prepared) h = inl refl
  rename_over-Durable cutoff true none sync store (ok (bytes, replacement)) h =
      inr (refl, refl, refl, h bytes replacement refl)

  -- Compaction loses nothing that it is to keep, whatever the serialiser writes and the parser reads.
  -- It leaves the store and its file as they were, or the caller has consented, the rename has
  -- succeeded and it answers that it committed. In this case the new file is read back with nothing
  -- excluded and no gap, as records that the code's comparison finds equal to those retained, and the
  -- store's replay, last timestamp and last state are those of this reading. The records retained are
  -- whole epochs in order of time, and all records of the old file at or after the cutoff are among
  -- them.
  pub compact_inner_if_authorized-Durable :
      (cutoff : ℕ) (temporary : Option String) (authorized : Bool) (rename sync : Option String)
      (store : HistoryStore F)
      → Durable cutoff authorized rename sync store (
          compact_inner_if_authorized encode f64_eq decode time cutoff temporary authorized rename
            sync store)
  unfolding compact_inner_if_authorized
  compact_inner_if_authorized-Durable cutoff temporary authorized rename sync store =
      elim (Result-cases (validate_canonical decode time store.file)) [
        | inl (e, f) ↦ rw (compact_inner_if_authorized, f) (inl refl)
        | inr (replay, f) ↦
            let live = is_some store.last_state in
            let canonical =
              (validate_canonical-Canonical (λ _. Unit) decode time (λ _ _ _. tt) store.file replay
                f).0 in
            let (retained, e, whole, late) =
              retained_compaction_records-Canonical cutoff store.boot_id live replay.records
                canonical in
            rw (compact_inner_if_authorized, f)
              (by_test (Durable cutoff authorized rename sync store)
                (ends_after cutoff replay.gaps || not live) (λ _. inl refl)
                (λ _.
                  by_option (Durable cutoff authorized rename sync store) temporary
                    (rename_over-Durable cutoff authorized rename sync store
                      (required
                          (retained_compaction_records replay.records cutoff store.boot_id live)
                        >>= λ kept. prepare encode f64_eq decode time kept)
                      (λ bytes replacement made.
                        let (back, clean, same) =
                          prepare-Clean retained bytes replacement (rw e at made) in
                        record {
                          replay = replay;
                          replacement = replacement;
                          retained = retained;
                          history = f;
                          read_back = back;
                          clean = clean;
                          whole = whole;
                          same = same;
                          late = late;
                          kept = refl;
                        }))
                    (λ why. inl refl)))
      ]
