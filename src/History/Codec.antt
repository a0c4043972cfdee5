-- ===== src/History/Codec.antt =====
-- src/history/codec.rs: encoding and decoding one record. `F` stands for `f64`, and what serde_json
-- reads and writes are the structs of the source: `parse` and `to_vec` are parameters.
use open_proxy.Common.{
  ℕ, ◌≡◌, ◌↔◌, arith, list_beq_iff, String, Bool, true, false, Option, none, some, List, [], ◌∷◌,
  if◌then◌else◌, contains, Result, err, ok, ◌>>=◌, Eq, ◌==◌, nat_eq, string_eq, product_eq, list_eq,
  ◌||◌, ◌&&◌, not,
}
use open_proxy.History.Records.{
  Capacity, StateKind, counter, gauge, kind_eq, kind_beq_iff, Labels, StateEntry, Record, boot,
  sample, checkpoint,
}

abbrev pub format : String
format = "nimproxy-history"

abbrev pub version : ℕ
version = 1

pub data DecodeError : Type 0 where
  invalid_utf8 invalid_json unsupported_format unsupported_version invalid_record : DecodeError
  invalid_record_kind invalid_state duplicate_series : DecodeError

-- `DecodeError::diagnostic`
pub diagnostic : DecodeError → String
diagnostic invalid_utf8 = "invalid_utf8"
diagnostic invalid_json = "invalid_json"
diagnostic unsupported_format = "unsupported_format"
diagnostic unsupported_version = "unsupported_version"
diagnostic invalid_record = "invalid_record"
diagnostic invalid_record_kind = "invalid_record_kind"
diagnostic invalid_state = "invalid_state"
diagnostic duplicate_series = "duplicate_series"

pub data EncodeError : Type 0 where
  invalid_state duplicate_series : EncodeError

-- `RawStateEntry`, and `EncodedStateEntry` with it: they have the same fields.
pub record RawStateEntry (F : Type 0) : Type 0 where
  pub kind : String
  pub metric : String
  pub labels : Labels
  pub value : F

pub data StateField (F : Type 0) : Type 0 where
  missing null : StateField F
  entries : List (RawStateEntry F) → StateField F

pub record RawRecord (F : Type 0) : Type 0 where
  pub format : String
  pub v : ℕ
  pub kind : String
  pub timestamp : ℕ
  pub boot_id : String
  pub capacity : Capacity
  pub state : StateField F

-- `EncodedBoot` and `EncodedCheckpoint`, and the fields of `EncodedSample` before its state.
pub record EncodedHead : Type 0 where
  pub format : String
  pub v : ℕ
  pub kind : String
  pub timestamp : ℕ
  pub boot_id : String
  pub capacity : Capacity

pub data Encoded (F : Type 0) : Type 0 where
  head_only : EncodedHead → Encoded F
  with_state : EncodedHead → List (RawStateEntry F) → Encoded F

-- The series of an entry, by which `series` tells duplicates.
abbrev pub Series : Type 0
Series = StateKind × String × Labels

abbrev pub series_beq : (a b : Series) → Bool
series_beq a b = a.0 == b.0 && (a.1 == b.1 && a.2 == b.2)

pub series_beq_iff : (a b : Series) → (series_beq a b ≡ true) ↔ (a ≡ b)
series_beq_iff a b =
    ground (arith, kind_beq_iff a.0 b.0, string_eq.beq_iff a.1 b.1, list_beq_iff a.2 b.2)

instance abbrev pub series_eq : Eq Series
series_eq = record { beq = series_beq; beq_iff = series_beq_iff }

unfoldable pub kind_named : String → Option StateKind
kind_named s = if s == "counter" then some counter else if s == "gauge" then some gauge else none

abbrev pub kind_label : StateKind → String
kind_label counter = "counter"
kind_label gauge = "gauge"

-- What the failure of `serde_json::from_slice` says of itself.
pub record JsonError : Type 0 where
  pub is_eof : Bool
  pub is_syntax : Bool
  pub out_of_range : Bool

unfoldable pub json_error : JsonError → DecodeError
json_error e =
    if e.is_eof || (e.is_syntax && not e.out_of_range) then invalid_json else invalid_record

abbrev pub entry_of : {F : Type 0} → StateKind → RawStateEntry F → StateEntry F
entry_of k r = record { kind = k; metric = r.metric; labels = r.labels; value = r.value }

abbrev pub raw_of : {F : Type 0} → StateEntry F → RawStateEntry F
raw_of e = record {
  kind = kind_label e.kind;
  metric = e.metric;
  labels = e.labels;
  value = e.value;
}

abbrev pub is_missing : {F : Type 0} → StateField F → Bool
is_missing missing = true
is_missing null = false
is_missing (entries rs) = false

abbrev pub head_of : String → ℕ → String → Capacity → EncodedHead
head_of kind t id c = record {
  format = format;
  v = version;
  kind = kind;
  timestamp = t;
  boot_id = id;
  capacity = c;
}

module _ {F : Type 0} (is_finite : F → Bool) where
  -- `decode_state`, with the series seen so far.
  unfoldable pub decode_entries :
      List Series → List (RawStateEntry F) → Result DecodeError (List (StateEntry F))
  decode_entries seen [] = ok []
  decode_entries seen (r ∷ rs) = elim (kind_named r.kind) [
    | none ↦ err DecodeError.invalid_state
    | some k ↦
        let series : Series = (k, r.metric, r.labels) in
        let rest = decode_entries (series ∷ seen) rs >>= λ es. ok (entry_of k r ∷ es) in
        if not (is_finite r.value)
        then err DecodeError.invalid_state
        else if contains seen series
        then err DecodeError.duplicate_series
        else rest
  ]

  unfoldable pub decode_state : StateField F → Result DecodeError (List (StateEntry F))
  decode_state missing = err invalid_record
  decode_state null = err invalid_record
  decode_state (entries rs) = decode_entries [] rs

  unfoldable pub decode_kind : RawRecord F → Result DecodeError (Record F)
  decode_kind raw =
      if raw.kind == "boot"
      then (if is_missing raw.state
          then ok (
              boot (record {
                timestamp = raw.timestamp;
                boot_id = raw.boot_id;
                capacity = raw.capacity;
              }))
          else err invalid_record)
      else if raw.kind == "checkpoint"
      then (if is_missing raw.state
          then ok (
              checkpoint (record {
                timestamp = raw.timestamp;
                boot_id = raw.boot_id;
                capacity = raw.capacity;
              }))
          else err invalid_record)
      else if raw.kind == "sample"
      then (decode_state raw.state >>= λ es. ok (
          sample (record {
            timestamp = raw.timestamp;
            boot_id = raw.boot_id;
            capacity = raw.capacity;
            state = es;
          })))
      else err invalid_record_kind

  -- `decode_record` behind the parser.
  unfoldable pub decode_raw : RawRecord F → Result DecodeError (Record F)
  decode_raw raw =
      if not (raw.format == format)
      then err unsupported_format
      else if not (raw.v == version)
      then err unsupported_version
      else decode_kind raw

  -- `encode_state`, with the series seen so far.
  unfoldable pub encode_entries :
      List Series → List (StateEntry F) → Result EncodeError (List (RawStateEntry F))
  encode_entries seen [] = ok []
  encode_entries seen (e ∷ es) =
      let series : Series = (e.kind, e.metric, e.labels) in
      let rest = encode_entries (series ∷ seen) es >>= λ rs. ok (raw_of e ∷ rs) in
      if not (is_finite e.value)
      then err EncodeError.invalid_state
      else if contains seen series
      then err EncodeError.duplicate_series
      else rest

  -- The struct that `encode_record` hands to the serialiser.
  unfoldable pub encoded : Record F → Result EncodeError (Encoded F)
  encoded (boot r) = ok (head_only (head_of "boot" r.timestamp r.boot_id r.capacity))
  encoded (sample r) = encode_entries [] r.state >>= λ rs.
      ok (with_state (head_of "sample" r.timestamp r.boot_id r.capacity) rs)
  encoded (checkpoint r) = ok (head_only (head_of "checkpoint" r.timestamp r.boot_id r.capacity))

  -- A line is a `W`, a sequence of bytes.
  module _ {W : Type 0} (is_utf8 : W → Bool) (parse : W → Result JsonError (RawRecord F)) where
    abbrev parsed : Result JsonError (RawRecord F) → Result DecodeError (Record F)
    parsed (err e) = err (json_error e)
    parsed (ok raw) = decode_raw raw

    unfoldable pub decode_record : W → Result DecodeError (Record F)
    decode_record line = if is_utf8 line then parsed (parse line) else err invalid_utf8

  module _ {W : Type 0} (to_vec : Encoded F → Option W) where
    abbrev written : Option W → Result EncodeError W
    written none = err EncodeError.invalid_state
    written (some line) = ok line

    unfoldable pub encode_record : Record F → Result EncodeError W
    encode_record r = encoded r >>= λ e. written (to_vec e)

abbrev head_fields : {F : Type 0} → EncodedHead → StateField F → RawRecord F
head_fields h s = record {
  format = h.format;
  v = h.v;
  kind = h.kind;
  timestamp = h.timestamp;
  boot_id = h.boot_id;
  capacity = h.capacity;
  state = s;
}

-- The fields that a reader finds in what the serialiser writes of a struct: each by its name, and no
-- state where the struct has none.
abbrev pub fields_of : {F : Type 0} → Encoded F → RawRecord F
fields_of (head_only h) = head_fields h missing
fields_of (with_state h rs) = head_fields h (entries rs)
