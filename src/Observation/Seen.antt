-- ===== src/Observation/Seen.antt =====
-- src/observation.rs: what the events of one response have said of a number and of a finish reason.
use open_proxy.Common.{
  ℕ, ◌≡◌, String, Bool, true, false, Option, none, some, if◌then◌else◌, string_eq, nat_eq, ◌==◌, Eq,
  ◌↔◌, arith,
}
use open_proxy.Observation.Json.{Value, as_u64, as_str, present}

pub data Observation : Type 0 where
  measured : ℕ → Observation
  estimated : ℕ → Observation
  unavailable invalid : Observation

pub data FinishReason : Type 0 where
  content_filter function_call length other stop tool_calls : FinishReason

-- `metric_label`
pub metric_label : FinishReason → String
metric_label content_filter = "content_filter"
metric_label function_call = "function_call"
metric_label length = "length"
metric_label other = "other"
metric_label stop = "stop"
metric_label tool_calls = "tool_calls"

-- `SeenNumber` and `SeenFinish` differ in what they hold.
pub data Seen {ℓ} (A : Type ℓ) : Type ℓ where
  absent : Seen A
  conflict : Seen A
  value : A → Seen A

pub data FinishResult : Type 0 where
  measured : FinishReason → FinishResult
  unavailable invalid : FinishResult

-- `*self = match (*self, next) { … }`
module _ {ℓ} {A : Type ℓ} ⦃e : Eq A⦄ where
  abbrev pub agree : A → A → Seen A
  agree a b = if a == b then value a else conflict

  unfoldable pub merge : Seen A → Seen A → Seen A
  merge absent next = next
  merge (value a) (value b) = agree a b
  merge (value a) absent = conflict
  merge (value a) conflict = conflict
  merge conflict next = conflict

-- The discriminant, which the derived equality compares.
abbrev pub discriminant : FinishReason → ℕ
discriminant content_filter = 0
discriminant function_call = 1
discriminant length = 2
discriminant other = 3
discriminant stop = 4
discriminant tool_calls = 5

abbrev reason_beq : FinishReason → FinishReason → Bool
reason_beq a b = discriminant a == discriminant b

pub reason_beq_iff : (a b : FinishReason) → (reason_beq a b ≡ true) ↔ (a ≡ b)
reason_beq_iff a b = ground arith

instance abbrev pub reason_eq : Eq FinishReason
reason_eq = record { beq = reason_beq; beq_iff = reason_beq_iff }

-- `value.as_u64().map_or(Self::Invalid, Self::Value)`
unfoldable pub number_of : Value → Seen ℕ
number_of v = elim (as_u64 v) [ none ↦ conflict | some n ↦ value n ]

-- `SeenNumber::observe`
unfoldable pub observe_number : Seen ℕ → Option Value → Seen ℕ
observe_number s v = elim (present v) [ none ↦ s | some x ↦ merge s (number_of x) ]

-- `SeenNumber::result`
unfoldable pub number_result : Seen ℕ → Observation
number_result absent = unavailable
number_result conflict = invalid
number_result (value n) = measured n

reason_named : String → FinishReason
reason_named s =
    if s == "content_filter"
    then content_filter
    else if s == "function_call"
    then function_call
    else if s == "length"
    then length
    else if s == "stop"
    then stop
    else if s == "tool_calls"
    then tool_calls
    else other

unfoldable pub reason_of : Value → Seen FinishReason
unfolding as_str reason_named
reason_of v = elim (as_str v) [ none ↦ conflict | some s ↦ value (reason_named s) ]

-- `SeenFinish::observe`
unfoldable pub observe_finish : Seen FinishReason → Option Value → Seen FinishReason
observe_finish s v = elim (present v) [ none ↦ s | some x ↦ merge s (reason_of x) ]

-- `SeenFinish::result`
unfoldable pub finish_result : Bool → Seen FinishReason → FinishResult
finish_result true s = unavailable
finish_result false absent = unavailable
finish_result false conflict = invalid
finish_result false (value r) = measured r
