-- ===== src/Auth.antt =====
-- src/auth.rs: the limiter of attempts to log in; the clock is an argument, in seconds.
pub mod Admission
pub mod Session
pub mod Token
use open_proxy.Common.{ℕ, ◌+◌, ◌-◌, ◌%◌, ◌^◌, Bool, true, false, ◌&&◌, if◌then◌else◌, ltb, leb}

pub record Throttle : Type 0 where
  pub window_start : ℕ
  pub failures : ℕ

abbrev pub throttle_window_secs : ℕ
throttle_window_secs = 60

abbrev pub throttle_max_failures : ℕ
throttle_max_failures = 10

-- `reset_throttle_window`
unfoldable pub reset_throttle_window : ℕ → Throttle → Throttle
reset_throttle_window n t =
    if leb throttle_window_secs (n - t.window_start)
    then record { window_start = n; failures = 0 }
    else t

-- `failures += 1` on u32
abbrev pub one_more : Throttle → Throttle
one_more t = record t { failures = (t.failures + 1) % 2 ^ 32 }

-- `Admin::note_failure`
unfoldable pub note_failure : ℕ → Throttle → Throttle × Bool
note_failure n t =
    let t' = one_more (reset_throttle_window n t) in (t', ltb throttle_max_failures t'.failures)

-- `Admin::is_throttled`
unfoldable pub is_throttled : ℕ → Throttle → Bool
is_throttled n t =
    ltb (n - t.window_start) throttle_window_secs && ltb throttle_max_failures t.failures

abbrev admit_or_reject : Throttle → Throttle × Bool
admit_or_reject t = if ltb throttle_max_failures t.failures then (t, false) else (one_more t, true)

-- `Admin::admit_pre_auth_attempt`
unfoldable pub admit_pre_auth_attempt : ℕ → Throttle → Throttle × Bool
admit_pre_auth_attempt n t = admit_or_reject (reset_throttle_window n t)
