-- ===== src/History/RoundTrip.antt =====
-- src/history/codec.rs: what is written of a record is read back as that record, and nothing else is.
use open_proxy.Common.{
  ◌≡◌, refl, sym, subst, ◌↔◌, inl, inr, String, Bool, true, false, some, List, [], ◌∷◌, arith,
  contains, ok, Result-cases, string_eq, list_eq, Option-cases,
}
use open_proxy.History.Records.{
  BootRecord, SampleRecord, CheckpointRecord, StateKind, counter, gauge, StateEntry, Record, boot,
  sample, checkpoint,
}
use open_proxy.History.Codec.{
  Series, series_eq, kind_named, kind_label, RawStateEntry, RawRecord, StateField, missing, null,
  entries, Encoded, head_only, with_state, head_of, format, raw_of, entry_of, fields_of,
  encode_entries, decode_entries, decode_state, decode_kind, decode_raw, encoded,
}

kind_named-kind_label : (k : StateKind) → kind_named (kind_label k) ≡ some k
unfolding kind_named
kind_named-kind_label counter = refl
kind_named-kind_label gauge = refl

kind_label-kind_named : (s : String) (k : StateKind) → kind_named s ≡ some k → s ≡ kind_label k
unfolding kind_named
kind_label-kind_named s counter h =
    ground (arith, string_eq.beq_iff s "counter", string_eq.beq_iff s "gauge")
kind_label-kind_named s gauge h =
    ground (arith, string_eq.beq_iff s "counter", string_eq.beq_iff s "gauge")

module _ {F : Type 0} (is_finite : F → Bool) where
  pub encode_cons :
      (seen : List Series) (e : StateEntry F) (es : List (StateEntry F))
      (rs : List (RawStateEntry F))
      → encode_entries is_finite seen (e ∷ es) ≡ ok rs
      → (is_finite e.value ≡ true)
        × (contains seen (e.kind, e.metric, e.labels) ≡ false)
        × (rest : List (RawStateEntry F)) × (encode_entries is_finite
              ((e.kind, e.metric, e.labels) ∷ seen)
              es
            ≡ ok rest)
        × (rs ≡ raw_of e ∷ rest)
  unfolding encode_entries
  encode_cons seen e es rs h = ground arith

  decode_cons :
      (seen : List Series) (r : RawStateEntry F) (rs : List (RawStateEntry F))
      (es : List (StateEntry F)) (k : StateKind)
      → kind_named r.kind ≡ some k
      → decode_entries is_finite seen (r ∷ rs) ≡ ok es
      → (is_finite r.value ≡ true)
        × (contains seen (k, r.metric, r.labels) ≡ false)
        × (rest : List (StateEntry F)) × (decode_entries is_finite
              ((k, r.metric, r.labels) ∷ seen)
              rs
            ≡ ok rest)
        × (es ≡ entry_of k r ∷ rest)
  unfolding decode_entries
  decode_cons seen r rs es k e h = ground arith

  decode-encode_entries :
      (seen : List Series) (es : List (StateEntry F)) (rs : List (RawStateEntry F))
      → encode_entries is_finite seen es ≡ ok rs
      → decode_entries is_finite seen rs ≡ ok es
  unfolding encode_entries decode_entries
  decode-encode_entries seen [] [] h = refl
  decode-encode_entries seen [] (r ∷ rs) h = cc
  decode-encode_entries seen (e ∷ es) rs h =
      let (fin, new, rest, tail, same) = encode_cons seen e es rs h in
      rw (
        same,
        decode_entries,
        kind_named-kind_label e.kind,
        fin,
        new,
        decode-encode_entries ((e.kind, e.metric, e.labels) ∷ seen) es rest tail,
      )

  encode-decode_entries :
      (seen : List Series) (rs : List (RawStateEntry F)) (es : List (StateEntry F))
      → decode_entries is_finite seen rs ≡ ok es
      → encode_entries is_finite seen es ≡ ok rs
  unfolding encode_entries decode_entries
  encode-decode_entries seen [] [] h = refl
  encode-decode_entries seen [] (e ∷ es) h = cc
  encode-decode_entries seen (r ∷ rs) es h = elim (Option-cases (kind_named r.kind)) [
    | inl e ↦ ground arith
    | inr (k, e) ↦
        let (fin, new, rest, tail, same) = decode_cons seen r rs es k e h in
        rw (
          same,
          encode_entries,
          fin,
          new,
          encode-decode_entries ((k, r.metric, r.labels) ∷ seen) rs rest tail,
          sym (kind_label-kind_named r.kind k e),
        )
  ]

  -- What a raw record says of the record that it is decoded to.
  module _ (raw : RawRecord F) where
    decode_boot :
        (b : BootRecord)
        → decode_raw is_finite raw ≡ ok (boot b)
        → fields_of (head_only (head_of "boot" b.timestamp b.boot_id b.capacity)) ≡ raw
    unfolding decode_raw decode_kind decode_state
    decode_boot b h = ground (
      arith,
      string_eq.beq_iff raw.format format,
      string_eq.beq_iff raw.kind "boot",
      string_eq.beq_iff raw.kind "sample",
      string_eq.beq_iff raw.kind "checkpoint",
    )

    decode_checkpoint :
        (c : CheckpointRecord)
        → decode_raw is_finite raw ≡ ok (checkpoint c)
        → fields_of (head_only (head_of "checkpoint" c.timestamp c.boot_id c.capacity)) ≡ raw
    unfolding decode_raw decode_kind decode_state
    decode_checkpoint c h = ground (
      arith,
      string_eq.beq_iff raw.format format,
      string_eq.beq_iff raw.kind "boot",
      string_eq.beq_iff raw.kind "sample",
      string_eq.beq_iff raw.kind "checkpoint",
    )

    sample_state :
        (m : SampleRecord F)
        → decode_raw is_finite raw ≡ ok (sample m)
        → decode_state is_finite raw.state ≡ ok m.state
    unfolding decode_raw decode_kind
    sample_state m h = ground arith

    decode_sample :
        (m : SampleRecord F) (rs : List (RawStateEntry F))
        → decode_raw is_finite raw ≡ ok (sample m)
        → raw.state ≡ entries rs
        → fields_of (with_state (head_of "sample" m.timestamp m.boot_id m.capacity) rs) ≡ raw
    unfolding decode_raw decode_kind decode_state
    decode_sample m rs h same = ground (
      arith,
      string_eq.beq_iff raw.format format,
      string_eq.beq_iff raw.kind "boot",
      string_eq.beq_iff raw.kind "sample",
      string_eq.beq_iff raw.kind "checkpoint",
    )

  state_entries :
      (s : StateField F) (es : List (StateEntry F))
      → decode_state is_finite s ≡ ok es
      → (rs : List (RawStateEntry F)) × (s ≡ entries rs) × (decode_entries is_finite [] rs ≡ ok es)
  unfolding decode_state
  state_entries (entries rs) es h = (rs, refl, h)
  state_entries missing es h = cc
  state_entries null es h = cc

  read_sample :
      (m : SampleRecord F) (rs : List (RawStateEntry F))
      → decode_entries is_finite [] rs ≡ ok m.state
      → decode_raw is_finite
          (fields_of (with_state (head_of "sample" m.timestamp m.boot_id m.capacity) rs))
        ≡ ok (sample m)
  unfolding decode_raw decode_kind decode_state
  read_sample m rs h = rw (h) refl

  pub decode_fields :
      (r : Record F) (e : Encoded F)
      → encoded is_finite r ≡ ok e
      → decode_raw is_finite (fields_of e) ≡ ok r
  unfolding encoded decode_raw decode_kind
  decode_fields (boot b) e h =
      let read : decode_raw is_finite
            (fields_of (head_only (head_of "boot" b.timestamp b.boot_id b.capacity)))
          ≡ ok (boot b) =
        refl in
      cc
  decode_fields (checkpoint c) e h =
      let read : decode_raw is_finite
            (fields_of (head_only (head_of "checkpoint" c.timestamp c.boot_id c.capacity)))
          ≡ ok (checkpoint c) =
        refl in
      cc
  decode_fields (sample m) e h = elim (Result-cases (encode_entries is_finite [] m.state)) [
    | inl (_, failed) ↦ ground arith
    | inr (rs, written) ↦
        let same : e ≡ with_state (head_of "sample" m.timestamp m.boot_id m.capacity) rs =
          ground arith in
        rw (same) (read_sample m rs (decode-encode_entries [] m.state rs written))
  ]

  pub encode_fields :
      (raw : RawRecord F) (r : Record F)
      → decode_raw is_finite raw ≡ ok r
      → (e : Encoded F) × (encoded is_finite r ≡ ok e) × (fields_of e ≡ raw)
  unfolding encoded
  encode_fields raw (boot b) h = (_, refl, decode_boot raw b h)
  encode_fields raw (checkpoint c) h = (_, refl, decode_checkpoint raw c h)
  encode_fields raw (sample m) h =
      let (rs, same, read) = state_entries raw.state m.state (sample_state raw m h) in
      (
        with_state (head_of "sample" m.timestamp m.boot_id m.capacity) rs,
        rw (encode-decode_entries [] rs m.state read) refl,
        decode_sample raw m rs h same,
      )

  -- The fields of a raw record decode to a record `r` exactly when `encode_record` serialises, for
  -- `r`, a struct with those same fields: decoding and encoding are inverse to each other on what
  -- they accept, they accept the same states, and each record has one list of fields.
  pub decode_raw-encoded :
      (raw : RawRecord F) (r : Record F)
      → (decode_raw is_finite raw ≡ ok r)
        ↔ ((e : Encoded F) × (encoded is_finite r ≡ ok e) × (fields_of e ≡ raw))
  decode_raw-encoded raw r = (
    encode_fields raw r,
    λ (e, written, same).
        subst (λ fields. decode_raw is_finite fields ≡ ok r) same (decode_fields r e written),
  )
