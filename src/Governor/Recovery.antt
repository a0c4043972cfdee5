-- ===== src/Governor/Recovery.antt =====
-- After a worker exhaustion in src/governor.rs: the drain gap, the slow growth, and the way back.
use open_proxy.Common.{
  ℕ, ◌+◌, ◌-◌, ◌*◌, ◌/◌, ◌≤◌, ◌<◌, max, String, ◌≡◌, refl, ◌⊎◌, inl, inr, true, false, Option, none,
  some, List, arith, All, string_eq,
}
use open_proxy.Governor.State.{
  ModelState, admit_state, exhaust_state, exhaust_backoff, grow_interval, dissolve_after,
}
use open_proxy.Governor.Local.{
  LocalCall, admits, releases, exhausts, local_step, NotBefore, BlockedUntil, step-BlockedUntil,
  admit_state-blocked, local_run_induction,
}
use open_proxy.Governor.Independence.{calls_of, entry-run, entry-insert}
use open_proxy.Governor.Caps.{entry-admit_at}
use open_proxy.Governor.{Governor, Call, entry, run, admit_at, note_exhausted_at}

entry-note_exhausted_at :
    (g : Governor) (m : String) (o : Option ℕ) (t : ℕ)
    → entry (note_exhausted_at g m o t) m ≡ exhaust_state o t (entry g m)
unfolding note_exhausted_at
entry-note_exhausted_at g m o t =
    rw (entry-insert g m m (exhaust_state o t (entry g m)), (string_eq.beq_iff m m).1 refl)

exhaust_state-BlockedUntil :
    (o : Option ℕ) (t : ℕ) (s : ModelState) → BlockedUntil t (exhaust_state o t s)
unfolding exhaust_state
exhaust_state-BlockedUntil none t s = (t + exhaust_backoff, refl, omega arith)
exhaust_state-BlockedUntil (some k) t s = (t + exhaust_backoff, refl, omega arith)

-- After an exhaustion at `t`, whatever calls follow, none made before `t`, no request is admitted on
-- the model until two seconds have passed, pinned or not.
pub drain_gap :
    (g : Governor) (m : String) (o o' : Option ℕ) (t now : ℕ) (cs : List Call)
    → All (NotBefore t) (calls_of m cs)
    → now < t + exhaust_backoff
    → (admit_at (run (note_exhausted_at g m o t) cs) m o' now).1 ≡ false
unfolding admit_at
drain_gap g m o o' t now cs h lt =
    rw (entry-run (note_exhausted_at g m o t) cs m, entry-note_exhausted_at g m o t)
      (admit_state-blocked t o' now _
        (local_run_induction (BlockedUntil t) (NotBefore t) (step-BlockedUntil t) _ (calls_of m cs)
          h (exhaust_state-BlockedUntil o t (entry g m)))
        lt)

-- Calls made from `t` to `now` among which there is no exhaustion.
abbrev pub Quiet : ℕ → ℕ → LocalCall → Type 0
Quiet t now (admits o at) = (t ≤ at) × (at ≤ now)
Quiet t now releases = Unit
Quiet t now (exhausts o at) = ⊥

-- The cap has grown by one for each interval since `t` at most, and it stands for the half hour.
record Grown (t start now : ℕ) (s : ModelState) : Type 0 where
  adjusted : ℕ
  since : s.last_adjusted ≡ some adjusted
  reached : adjusted ≤ now
  after : t ≤ adjusted
  paced : s.limit * grow_interval + t ≤ start * grow_interval + adjusted
  exhausted : s.last_exhausted ≡ some t
  capped : (t + dissolve_after ≤ now) ⊎ (1 ≤ s.limit)

abbrev Rested : ℕ → ModelState → Type 0
Rested t s = (s.last_exhausted ≡ some t) × (s.blocked_until ≡ some (t + exhaust_backoff))

-- What an admission may do to the cap: nothing, one step of growth, or, half an hour after the last
-- exhaustion, a return to none.
admit_state-limit :
    (o : Option ℕ) (at a t : ℕ) (s : ModelState)
    → s.last_adjusted ≡ some a
    → s.last_exhausted ≡ some t
    → let after = (admit_state o at s).0 in
      (after.last_exhausted ≡ some t)
      × (((after.limit ≡ s.limit) × (after.last_adjusted ≡ some a))
          ⊎ ((after.limit ≡ s.limit + 1)
              × (after.last_adjusted ≡ some at)
              × (a + grow_interval ≤ at))
          ⊎ ((after.limit ≡ 0) × (after.last_adjusted ≡ some at) × (dissolve_after ≤ at - t)))
unfolding admit_state
admit_state-limit o at a t s e f = ground arith

step-Grown :
    (t start now : ℕ) (s : ModelState) (c : LocalCall)
    → Quiet t now c
    → Grown t start now s
    → Grown t start now (local_step s c)
unfolding local_step
step-Grown t start now s (admits o at) q g =
    let (f, change) = admit_state-limit o at g.adjusted t s g.since g.exhausted in
    elim change [
      | inl (same, e) ↦ record {
        adjusted = g.adjusted;
        since = e;
        reached = g.reached;
        after = g.after;
        paced = omega arith;
        exhausted = f;
        capped = ground arith;
      }
      | inr (inl (up, e, gap)) ↦ record {
        adjusted = at;
        since = e;
        reached = q.1;
        after = q.0;
        paced = omega arith;
        exhausted = f;
        capped = inr (omega arith);
      }
      | inr (inr (zeroed, e, late)) ↦ record {
        adjusted = at;
        since = e;
        reached = q.1;
        after = q.0;
        paced = omega arith;
        exhausted = f;
        capped = inl (omega arith);
      }
    ]
step-Grown t start now s releases q g = record {
  adjusted = g.adjusted;
  since = g.since;
  reached = g.reached;
  after = g.after;
  paced = g.paced;
  exhausted = g.exhausted;
  capped = g.capped;
}
step-Grown t start now s (exhausts o at) q g = absurd q

step-Rested :
    (t now : ℕ) (s : ModelState) (c : LocalCall)
    → Quiet t now c
    → Rested t s
    → Rested t (local_step s c)
unfolding local_step
step-Rested t now s (admits o at) q r = ground arith
step-Rested t now s releases q r = r
step-Rested t now s (exhausts o at) q r = absurd q

exhaust_state-Rested : (t : ℕ) (s : ModelState) → Rested t (exhaust_state none t s)
unfolding exhaust_state
exhaust_state-Rested t s = (refl, refl)

exhaust_state-Grown :
    (t now : ℕ) (s : ModelState)
    → t ≤ now
    → Grown t (max (s.inflight / 2) 1) now (exhaust_state none t s)
unfolding exhaust_state
exhaust_state-Grown t now s h = record {
  adjusted = t;
  since = refl;
  reached = h;
  after = omega arith;
  paced = omega arith;
  exhausted = refl;
  capped = inr (omega arith);
}

Grown-bound :
    {t start now : ℕ} {s : ModelState}
    → Grown t start now s
    → (s.limit ≤ start + (now - t) / grow_interval) × ((t + dissolve_after ≤ now) ⊎ (1 ≤ s.limit))
Grown-bound g = (omega (arith, g.paced, g.reached, g.after), g.capped)

-- After an exhaustion of an unpinned model at `t` with `n` requests in flight, and with no further
-- one up to `now`, the model's limit is at most max(n / 2, 1) and one more for each full minute since
-- `t`. Until half an hour has passed it is not 0, so that it is a cap; from then on it may be 0, which
-- is none.
pub growth_bound :
    (g : Governor) (m : String) (t now : ℕ) (cs : List Call)
    → t ≤ now
    → All (Quiet t now) (calls_of m cs)
    → let s = entry (run (note_exhausted_at g m none t) cs) m in
      (s.limit ≤ max ((entry g m).inflight / 2) 1 + (now - t) / grow_interval)
      × ((t + dissolve_after ≤ now) ⊎ (1 ≤ s.limit))
growth_bound g m t now cs le h =
    rw (entry-run (note_exhausted_at g m none t) cs m, entry-note_exhausted_at g m none t)
      (Grown-bound (
        local_run_induction (Grown t (max ((entry g m).inflight / 2) 1) now) (Quiet t now)
          (step-Grown t _ now) _ (calls_of m cs) h (exhaust_state-Grown t now (entry g m) le)))

admit_state-dissolved :
    (t now : ℕ) (s : ModelState)
    → Rested t s
    → t + dissolve_after ≤ now
    → ((admit_state none now s).1 ≡ true) × ((admit_state none now s).0.limit ≡ 0)
unfolding admit_state
admit_state-dissolved t now s r h = ground arith

-- After half an hour with no exhaustion on an unpinned model the next request is admitted, however
-- many are in flight, and the model is ungoverned again.
pub dissolves :
    (g : Governor) (m : String) (t now : ℕ) (cs : List Call)
    → All (Quiet t now) (calls_of m cs)
    → t + dissolve_after ≤ now
    → let after = admit_at (run (note_exhausted_at g m none t) cs) m none now in
      (after.1 ≡ true) × ((entry after.0 m).limit ≡ 0)
unfolding admit_at
dissolves g m t now cs h le =
    let quiet = run (note_exhausted_at g m none t) cs in
    rw
      (
        entry-admit_at quiet m none now,
        entry-run (note_exhausted_at g m none t) cs m,
        entry-note_exhausted_at g m none t,
      )
      (admit_state-dissolved t now _
        (local_run_induction (Rested t) (Quiet t now) (step-Rested t now) _ (calls_of m cs) h
          (exhaust_state-Rested t (entry g m)))
        le)
