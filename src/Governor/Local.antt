-- ===== src/Governor/Local.antt =====
-- One model's calls, as a machine over its own state: what a model sees of the governor.
use open_proxy.Common.{
  ℕ, ◌+◌, ◌≤◌, ◌<◌, ◌≡◌, refl, false, Option, none, some, List, [], ◌∷◌, arith, All,
}
use open_proxy.Governor.State.{
  ModelState, admit_state, release_state, exhaust_state, exhaust_backoff,
}

pub data LocalCall : Type 0 where
  admits : Option ℕ → ℕ → LocalCall
  releases : LocalCall
  exhausts : Option ℕ → ℕ → LocalCall

unfoldable pub local_step : ModelState → LocalCall → ModelState
unfolding admit_state release_state exhaust_state
local_step s (admits o now) = (admit_state o now s).0
local_step s releases = release_state s
local_step s (exhausts o now) = exhaust_state o now s

unfoldable pub local_run : ModelState → List LocalCall → ModelState
local_run s [] = s
local_run s (c ∷ cs) = local_run (local_step s c) cs

-- What every call keeps, a run of calls keeps.
pub local_run_induction {ℓ} :
    (P : ModelState → Type ℓ) (Ok : LocalCall → Type 0)
    → ((s : ModelState) (c : LocalCall) → Ok c → P s → P (local_step s c))
    → (s : ModelState) (cs : List LocalCall) → All Ok cs
    → P s
    → P (local_run s cs)
unfolding local_run
local_run_induction P Ok keep s [] h p = p
local_run_induction P Ok keep s (c ∷ cs) h p =
    local_run_induction P Ok keep (local_step s c) cs h.1 (keep s c h.0 p)

-- Calls under one operator-pinned cap.
abbrev pub Pinned : ℕ → LocalCall → Type 0
Pinned k (admits o now) = o ≡ some k
Pinned k releases = Unit
Pinned k (exhausts o now) = o ≡ some k

pub step-Pinned_cap :
    (k : ℕ) (s : ModelState) (c : LocalCall)
    → 0 < k
    → Pinned k c
    → s.inflight ≤ k
    → (local_step s c).inflight ≤ k
unfolding local_step
step-Pinned_cap k s (admits o now) pos h p = ground arith
step-Pinned_cap k s releases pos h p = ground arith
step-Pinned_cap k s (exhausts o now) pos h p = ground arith

-- Calls that are not made before `t`.
abbrev pub NotBefore : ℕ → LocalCall → Type 0
NotBefore t (admits o now) = t ≤ now
NotBefore t releases = Unit
NotBefore t (exhausts o now) = t ≤ now

abbrev pub BlockedUntil : ℕ → ModelState → Type 0
BlockedUntil t s = (b : ℕ) × (s.blocked_until ≡ some b) × (t + exhaust_backoff ≤ b)

pub step-BlockedUntil :
    (t : ℕ) (s : ModelState) (c : LocalCall)
    → NotBefore t c
    → BlockedUntil t s
    → BlockedUntil t (local_step s c)
unfolding local_step
step-BlockedUntil t s (admits o now) h (b, e, le) = (b, ground arith, le)
step-BlockedUntil t s releases h (b, e, le) = (b, e, le)
step-BlockedUntil t s (exhausts none now) h p = (now + exhaust_backoff, refl, omega arith)
step-BlockedUntil t s (exhausts (some k) now) h p = (now + exhaust_backoff, refl, omega arith)

pub admit_state-blocked :
    (t : ℕ) (o : Option ℕ) (now : ℕ) (s : ModelState)
    → BlockedUntil t s
    → now < t + exhaust_backoff
    → (admit_state o now s).1 ≡ false
unfolding admit_state
admit_state-blocked t o now s (b, e, le) h = ground arith
