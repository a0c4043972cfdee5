-- ===== src/Examples/Streams.antt =====
-- The theorems on src/observation.rs at concrete inputs.
use open_proxy.Common.{
  ℕ, zero, suc, ◌<◌, ap, length-append, ◌≡◌, refl, inr, true, false, Option, none, some, List, [],
  ◌∷◌, length, arith,
}
use open_proxy.Observation.Json.{Value}
use open_proxy.Observation.Json
use open_proxy.Observation.Seen.{absent, value}
use open_proxy.Observation.Usage.{UsageState, finish_usage}
use open_proxy.Observation.Totals.{Consistent, finish_usage-Consistent}
use open_proxy.Observation.Retained.{Retained, push-Retained}
use open_proxy.Observation.State.{blank}
use open_proxy.Observation.Sse.{new_observer, drop_cr, push, observe_event, max_event_bytes}
use open_proxy.Observation.Lines.{OneLine, idle, event_bytes, line_of}
use open_proxy.Observation.Framing.{push-event, push-oversized}

-- A parser that takes every event for an empty object.
abbrev parse_empty : List ℕ → Option Value
parse_empty bytes = some (Json.object Json.close)

abbrev empty_object : List ℕ
empty_object = b'{' ∷ b'}' ∷ []

push-event_example :
    push parse_empty (idle blank 0) (event_bytes true empty_object)
    ≡ (let (s', n') = observe_event parse_empty blank 0 empty_object in idle s' n')
unfolding drop_cr
push-event_example =
    push-event parse_empty blank 0 true empty_object empty_object
      ((λ e. absurd (ground arith)), ((λ e. absurd (ground arith)), tt)) refl
      (inr (refl, λ e. absurd (ground arith))) (omega arith)

push-Retained_example : Retained (push parse_empty new_observer (event_bytes false empty_object))
push-Retained_example =
    push-Retained parse_empty new_observer (event_bytes false empty_object)
      ((tt, omega arith, omega arith), omega arith, omega arith)

abbrev usage_of : ℕ → Option Value
usage_of n = some (Json.object (Json.field "prompt_tokens" (Json.u64 n) Json.close))

abbrev counted : UsageState
counted = record {
  cached = value 2;
  completion = value 7;
  prompt = value 5;
  reasoning = absent;
  total = value 12;
}

finish_usage-Consistent_example : Consistent (finish_usage counted (some 9) none)
finish_usage-Consistent_example = finish_usage-Consistent counted (some 9) none

letters : ℕ → List ℕ
letters zero = []
letters (suc n) = b'x' ∷ letters n

letters-OneLine : (n : ℕ) → OneLine (letters n)
unfolding letters
letters-OneLine zero = tt
letters-OneLine (suc n) = ((λ e. absurd (ground arith)), letters-OneLine n)

length-letters : (n : ℕ) → length (letters n) ≡ n
unfolding letters
length-letters zero = refl
length-letters (suc n) = ap suc (length-letters n)

too_long : (xs : List ℕ) → length xs ≡ max_event_bytes → max_event_bytes < length (line_of false xs)
too_long xs e = omega (arith, length-append xs [])

push-oversized_example :
    push parse_empty (idle blank 0) (event_bytes false (letters max_event_bytes)) ≡ idle blank 0
push-oversized_example =
    push-oversized parse_empty blank 0 false (letters max_event_bytes)
      (letters-OneLine max_event_bytes)
      (too_long (letters max_event_bytes) (length-letters max_event_bytes))
