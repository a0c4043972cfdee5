-- ===== src/Auth/Admission.antt =====
-- How many attempts to log in the limiter of src/auth.rs admits.
use open_proxy.Common.{
  ℕ, ◌+◌, ◌-◌, ◌%◌, ◌^◌, ◌≤◌, ◌<◌, ◌≡◌, ◌↔◌, inl, inr, Bool-cases, true, false, List, [], ◌∷◌, All,
  if◌then◌else◌, ltb, leb, arith,
}
use open_proxy.Auth.{
  Throttle, throttle_window_secs, throttle_max_failures, reset_throttle_window, one_more,
  is_throttled, admit_pre_auth_attempt,
}

-- How many of the attempts at these times are admitted.
unfoldable pub admitted : Throttle → List ℕ → ℕ
admitted t [] = 0
admitted t (n ∷ ns) =
    let (t', ok) = admit_pre_auth_attempt n t in (if ok then 1 else 0) + admitted t' ns

-- The times fall into the window that is open.
abbrev pub InWindow : Throttle → List ℕ → Type 0
InWindow t = All (λ n. n - t.window_start < throttle_window_secs)

within_window :
    (t : Throttle) (n : ℕ)
    → n - t.window_start < throttle_window_secs
    → reset_throttle_window n t ≡ t
unfolding reset_throttle_window
within_window t n l = elim (Bool-cases (leb throttle_window_secs (n - t.window_start))) [
  | inl e ↦ absurd (ground arith)
  | inr e ↦ rw e
]

-- While a window is open in which at most eleven attempts are counted, no more are admitted than are
-- left of eleven, however many there are.
pub admitted-InWindow :
    (t : Throttle) (ns : List ℕ)
    → t.failures ≤ throttle_max_failures + 1
    → InWindow t ns
    → admitted t ns + t.failures ≤ throttle_max_failures + 1
unfolding admitted admit_pre_auth_attempt
admitted-InWindow t [] l h = omega arith
admitted-InWindow t (n ∷ ns) l h = elim (Bool-cases (ltb throttle_max_failures t.failures)) [
  | inl e ↦ let rest = admitted-InWindow t ns l h.1 in rw (within_window t n h.0, e) (omega arith)
  | inr e ↦
      let small : t.failures + 1 ≤ throttle_max_failures + 1 = ground arith in
      let exact : (t.failures + 1) % 2 ^ 32 ≡ t.failures + 1 = omega arith in
      let rest = admitted-InWindow (one_more t) ns (omega arith) h.1 in
      rw (within_window t n h.0, e) (omega arith)
]

-- The limiter that admits attempts and the one that reports agree: an attempt is rejected exactly
-- when the limiter is throttled at that time.
admit-is_throttled :
    (t : Throttle) (n : ℕ) → ((admit_pre_auth_attempt n t).1 ≡ false) ↔ (is_throttled n t ≡ true)
unfolding admit_pre_auth_attempt is_throttled reset_throttle_window
admit-is_throttled t n = ground arith
