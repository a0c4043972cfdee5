-- ===== src/Observation/Retained.antt =====
-- src/observation.rs: what the observer of a stream retains is bounded.
use open_proxy.Common.{
  by_option, by_test, ℕ, ◌+◌, ◌-◌, ◌≤◌, ◌<◌, ◌≡◌, ◌≢◌, ltb-false→le, inl, inr, Bool, false,
  if◌then◌else◌, Bool-cases, Option, List, [], ◌∷◌, ◌++◌, length, length-append, nat_beq, ltb,
  arith,
}
use open_proxy.Observation.Json.{Value}
use open_proxy.Observation.State.{ObservationState, observe_stream}
use open_proxy.Observation.Usage.{u64_mod}
use open_proxy.Observation.Bounds.{Bounded, observe_stream-Bounded}
use open_proxy.Observation.Sse.{
  SseObserver, max_event_bytes, newline, carriage_return, is_empty, bytes_beq, done_marker,
  data_prefix, strip_prefix, strip_space, drop_cr, retained_len, count_event, observe_event,
  classify_event, append_data, data_line, discard, finish_line, finish_kept_line,
  finish_discarded_line, skip_byte, push_byte, push,
}

abbrev Counted : ObservationState × ℕ → Type 0
Counted (s, n) = Bounded s × (n < u64_mod)

-- What the observer keeps: at most one event's bytes, a bounded state, and a u64.
abbrev pub Retained : SseObserver → Type 0
Retained o = Bounded o.state × (retained_len o ≤ max_event_bytes) × (o.completion_events < u64_mod)

count_event-lt : (c : Bool) (n : ℕ) → n < u64_mod → count_event c n < u64_mod
unfolding count_event
count_event-lt c n l = ground arith

length-drop_cr : (bs : List ℕ) → length (drop_cr bs) ≤ length bs
unfolding drop_cr
length-drop_cr [] = omega arith
length-drop_cr (b ∷ []) = ground arith
length-drop_cr (b ∷ c ∷ bs) = omega (arith, length-drop_cr (c ∷ bs))

nat_beq-false : (a b : ℕ) → nat_beq a b ≡ false → a ≢ b
nat_beq-false a b h = ground arith

abbrev separator_of : SseObserver → List ℕ
separator_of o = if is_empty o.current_data then [] else newline ∷ []

module _ (parse : List ℕ → Option Value) where
  observe_event-Counted :
      (s : ObservationState) (n : ℕ) (bs : List ℕ)
      → Bounded s
      → n < u64_mod
      → Counted (observe_event parse s n bs)
  unfolding observe_event
  observe_event-Counted s n bs b l = elim (Bool-cases (bytes_beq bs done_marker)) [
    | inl e ↦ rw e (b, l)
    | inr e ↦ rw e (
        by_option Counted (parse bs) (b, l)
          (λ v. (observe_stream-Bounded s v b, count_event-lt (observe_stream s v).1 n l)))
  ]

  classify_event-Retained : (o : SseObserver) → Retained o → Retained (classify_event parse o)
  unfolding classify_event
  classify_event-Retained o (b, r, l) =
      let c = observe_event-Counted o.state o.completion_events o.current_data b l in
      (c.0, omega arith, c.1)

  append_data-Retained :
      (o : SseObserver) (bs : List ℕ) → Retained o → Retained (append_data parse o bs)
  unfolding append_data discard
  append_data-Retained o bs (b, r, l) =
      by_test Retained
        (ltb (max_event_bytes - length o.current_data) (length bs + length (separator_of o)))
        (λ e. (b, omega arith, l))
        (λ e. (
          b,
          omega (
            arith,
            ltb-false→le (max_event_bytes - length o.current_data)
                (length bs + length (separator_of o)) e,
            length-append o.current_data (separator_of o ++ bs),
            length-append (separator_of o) bs,
          ),
          l,
        ))

  data_line-Retained : (o : SseObserver) → Retained o → Retained (data_line parse o)
  unfolding data_line
  data_line-Retained o (b, r, l) =
      by_option Retained (strip_prefix data_prefix o.current_line) (b, omega arith, l)
        (λ rest. append_data-Retained o (strip_space rest) (b, r, l))

  finish_kept_line-Retained : (o : SseObserver) → Retained o → Retained (finish_kept_line parse o)
  unfolding finish_kept_line
  finish_kept_line-Retained o r = elim (Bool-cases (is_empty o.current_line)) [
    | inl e ↦ rw e (classify_event-Retained o r)
    | inr e ↦ rw e (data_line-Retained o r)
  ]

  finish_line-Retained : (o : SseObserver) → Retained o → Retained (finish_line parse o)
  unfolding finish_line finish_discarded_line
  finish_line-Retained o (b, r, l) =
      by_test Retained o.discarded_event (λ e. (b, omega arith, l))
        (λ e.
          finish_kept_line-Retained (record o { current_line = drop_cr o.current_line })
            (b, omega (arith, length-drop_cr o.current_line), l))

  skip_byte-Retained : (o : SseObserver) (byte : ℕ) → Retained o → Retained (skip_byte parse o byte)
  unfolding skip_byte
  skip_byte-Retained o byte r = by_test Retained (nat_beq byte carriage_return) (λ e. r) (λ e. r)

  push_byte-Retained : (o : SseObserver) (byte : ℕ) → Retained o → Retained (push_byte parse o byte)
  unfolding push_byte discard
  push_byte-Retained o byte (b, r, l) =
      by_test Retained (nat_beq byte newline) (λ e. finish_line-Retained o (b, r, l))
        (λ e.
          by_test Retained o.discarded_event (λ f. skip_byte-Retained o byte (b, r, l))
            (λ f.
              by_test Retained (nat_beq (retained_len o) max_event_bytes) (λ g. (b, omega arith, l))
                (λ g. (
                  b,
                  omega (
                    arith,
                    nat_beq-false (retained_len o) max_event_bytes g,
                    length-append o.current_line (byte ∷ []),
                  ),
                  l,
                ))))

  -- Whatever bytes a stream relays, an observer that retains at most 1 MiB of an event, at most 128
  -- choices with ascending indexes and 128 pairs of tool indexes, and whose count of events is a u64,
  -- does so behind them.
  pub push-Retained :
      (o : SseObserver) (bytes : List ℕ) → Retained o → Retained (push parse o bytes)
  unfolding push
  push-Retained o [] r = r
  push-Retained o (byte ∷ bytes) r =
      push-Retained (push_byte parse o byte) bytes (push_byte-Retained o byte r)
