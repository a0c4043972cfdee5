-- ===== src/Governor/Caps.antt =====
-- The caps of src/governor.rs: what an admission may do to the number of requests in flight.
use open_proxy.Common.{
  lookup, ℕ, ◌+◌, ◌≤◌, ◌<◌, String, ◌≡◌, refl, ◌⊎◌, Bool, true, false, Option, List, arith, All,
  string_eq,
}
use open_proxy.Governor.State.{ModelState, fresh, admit_state, blocked, cap_of}
use open_proxy.Governor.Local.{Pinned, step-Pinned_cap, local_run_induction}
use open_proxy.Governor.Independence.{calls_of, entry-run, entry-insert}
use open_proxy.Governor.{Governor, Call, init, entry, run, admit_at}

-- What an admission may have done: it took a slot within the cap in force after the call, or it was
-- refused inside a drain gap or at the cap.
abbrev pub Decision : Option ℕ → ℕ → ModelState → ModelState × Bool → Type 0
Decision o now before (after, admitted) =
    ((admitted ≡ true)
      × (after.inflight ≡ before.inflight + 1)
      × ((cap_of o after ≡ 0) ⊎ (after.inflight ≤ cap_of o after)))
    ⊎ ((admitted ≡ false)
        × (after.inflight ≡ before.inflight)
        × ((blocked now before.blocked_until ≡ true)
            ⊎ ((0 < cap_of o after) × (cap_of o after ≤ after.inflight))))

admit_state-Decision :
    (o : Option ℕ) (now : ℕ) (s : ModelState) → Decision o now s (admit_state o now s)
unfolding admit_state
admit_state-Decision o now s = ground arith

pub entry-admit_at :
    (g : Governor) (m : String) (o : Option ℕ) (now : ℕ)
    → entry (admit_at g m o now).0 m ≡ (admit_state o now (entry g m)).0
unfolding admit_at
entry-admit_at g m o now =
    rw (entry-insert g m m (admit_state o now (entry g m)).0, (string_eq.beq_iff m m).1 refl)

-- Every admission either takes one slot and leaves the requests in flight within the cap in force
-- (a cap of 0 is none), or is refused, changes no count, and was inside a drain gap or at the cap.
pub admit_at-Decision :
    (g : Governor) (m : String) (o : Option ℕ) (now : ℕ)
    → Decision o now (entry g m) (entry (admit_at g m o now).0 m, (admit_at g m o now).1)
unfolding admit_at
admit_at-Decision g m o now = rw (entry-admit_at g m o now) (admit_state-Decision o now (entry g m))

entry-init : (m : String) → entry init m ≡ fresh
unfolding entry init lookup
entry-init m = refl

-- While every call on a model carries the operator's cap `k`, a cap of at least 1, no order of
-- admissions, releases and exhaustions, on this and other models, takes the requests in flight on
-- the model above `k`.
pub Pinned-cap :
    (m : String) (k : ℕ) (cs : List Call)
    → 0 < k
    → All (Pinned k) (calls_of m cs)
    → (entry (run init cs) m).inflight ≤ k
Pinned-cap m k cs pos h =
    rw (entry-run init cs m, entry-init m)
      (local_run_induction (λ s. s.inflight ≤ k) (Pinned k)
        (λ s c p q. step-Pinned_cap k s c pos p q) fresh (calls_of m cs) h (omega arith))
