-- ===== src/Governor/Permits.antt =====
-- The permits of src/governor.rs: a permit is held from its admission until it is dropped, once.
use open_proxy.Common.{
  ℕ, zero, suc, ◌-◌, String, ◌≡◌, refl, inl, inr, Bool, Option, none, some, List, [], ◌∷◌, arith,
  if◌then◌else◌, string_eq, ◌==◌, get_elem?, Option-cases, lookup,
}
use open_proxy.Common.Count.{count}
use open_proxy.Governor.State.{ModelState, admit_state, release_state, exhaust_state}
use open_proxy.Governor.Independence.{entry-insert, entry-release}
use open_proxy.Governor.{
  Governor, ModelPermit, init, entry, admit, admit_at, drop_permit, note_exhausted_at,
}

-- The governor and the permits that callers hold.
pub record Held : Type 0 where
  pub governor : Governor
  pub permits : List ModelPermit

pub data Event : Type 0 where
  requests : String → Option ℕ → ℕ → Event
  -- The caller of the i-th permit is done with it.
  drops : ℕ → Event
  exhausts : String → Option ℕ → ℕ → Event

pub start : Held
start = record { governor = init; permits = [] }

keep : Option ModelPermit → List ModelPermit → List ModelPermit
keep none ps = ps
keep (some p) ps = p ∷ ps

remove_at : ℕ → List ModelPermit → List ModelPermit
remove_at i [] = []
remove_at zero (p ∷ ps) = ps
remove_at (suc i) (p ∷ ps) = p ∷ remove_at i ps

drop_found : Held → ℕ → Option ModelPermit → Held
drop_found w i none = w
drop_found w i (some p) = record {
  governor = drop_permit w.governor p;
  permits = remove_at i w.permits;
}

pub happen : Held → Event → Held
unfolding keep drop_found admit
happen w (requests m o now) =
    let (g, p) = admit w.governor m o now in record { governor = g; permits = keep p w.permits }
happen w (drops i) = drop_found w i (get_elem? w.permits i)
happen w (exhausts m o now) = record w { governor = note_exhausted_at w.governor m o now }

pub history : Held → List Event → Held
history w [] = w
history w (e ∷ es) = history (happen w e) es

abbrev pub held_on : String → List ModelPermit → ℕ
held_on m = count (λ p. p.model == m)

abbrev Exact : Held → Type 0
Exact w = (m : String) → (entry w.governor m).inflight ≡ held_on m w.permits

held_on-remove_at :
    (m : String) (ps : List ModelPermit) (i : ℕ) (p : ModelPermit)
    → get_elem? ps i ≡ some p
    → held_on m ps
      ≡ (if p.model == m then suc (held_on m (remove_at i ps)) else held_on m (remove_at i ps))
unfolding remove_at
held_on-remove_at m [] i p e = absurd (ground arith)
held_on-remove_at m (q ∷ ps) zero p e = ground arith
held_on-remove_at m (q ∷ ps) (suc i) p e = ground (arith, held_on-remove_at m ps i p e)

admit_state-inflight :
    (o : Option ℕ) (now : ℕ) (s : ModelState)
    → (admit_state o now s).0.inflight
      ≡ (if (admit_state o now s).1 then suc s.inflight else s.inflight)
unfolding admit_state
admit_state-inflight o now s = ground arith

exhaust_state-inflight :
    (o : Option ℕ) (now : ℕ) (s : ModelState) → (exhaust_state o now s).inflight ≡ s.inflight
unfolding exhaust_state
exhaust_state-inflight o now s = ground arith

inflight-admit_at :
    (g : Governor) (k m : String) (o : Option ℕ) (now : ℕ)
    → (entry (admit_at g k o now).0 m).inflight ≡ (
        if k == m
        then (if (admit_at g k o now).1 then suc (entry g k).inflight else (entry g k).inflight)
        else (entry g m).inflight)
unfolding admit_at
inflight-admit_at g k m o now = ground (
  arith,
  entry-insert g k m (admit_state o now (entry g k)).0,
  admit_state-inflight o now (entry g k),
)

inflight-drop_permit :
    (g : Governor) (p : ModelPermit) (m : String)
    → (entry (drop_permit g p) m).inflight
      ≡ (if p.model == m then (entry g p.model).inflight - 1 else (entry g m).inflight)
unfolding drop_permit release_state
inflight-drop_permit g p m = ground (arith, entry-release g p.model m)

inflight-note_exhausted_at :
    (g : Governor) (k m : String) (o : Option ℕ) (now : ℕ)
    → (entry (note_exhausted_at g k o now) m).inflight
      ≡ (if k == m then (entry g k).inflight else (entry g m).inflight)
unfolding note_exhausted_at
inflight-note_exhausted_at g k m o now = ground (
  arith,
  entry-insert g k m (exhaust_state o now (entry g k)),
  exhaust_state-inflight o now (entry g k),
)

held_on-keep :
    (m k : String) (b : Bool) (ps : List ModelPermit)
    → held_on m (keep (if b then some (record { model = k }) else none) ps)
      ≡ (if k == m then (if b then suc (held_on m ps) else held_on m ps) else held_on m ps)
unfolding keep
held_on-keep m k b ps = ground arith

happen-Exact : (w : Held) (e : Event) → Exact w → Exact (happen w e)
unfolding happen
happen-Exact w (requests k o now) x m =
    rw
      (
        inflight-admit_at w.governor k m o now,
        held_on-keep m k (admit_at w.governor k o now).1 w.permits,
      )
      (ground (arith, x m, x k, string_eq.beq_iff k m))
happen-Exact w (drops i) x m = elim (Option-cases (get_elem? w.permits i)) [
  | inl e ↦ rw (e, drop_found) (x m)
  | inr (p, e) ↦
      rw (e, drop_found, inflight-drop_permit w.governor p m)
        (ground
          (arith, x m, x p.model, string_eq.beq_iff p.model m, held_on-remove_at m w.permits i p e))
]
happen-Exact w (exhausts k o now) x m =
    rw (inflight-note_exhausted_at w.governor k m o now)
      (ground (arith, x m, x k, string_eq.beq_iff k m))

history-Exact : (w : Held) (es : List Event) → Exact w → Exact (history w es)
unfolding history
history-Exact w [] x = x
history-Exact w (e ∷ es) x = history-Exact (happen w e) es (happen-Exact w e x)

start-Exact : Exact start
unfolding start entry init lookup
start-Exact m = refl

-- Whatever the order of requests, dropped permits and exhaustions, on whatever models, the requests
-- counted in flight on a model are exactly the permits that callers hold on it: none leaks, and the
-- saturating subtraction of `release` never hides a double release.
pub inflight-held :
    (es : List Event) (m : String)
    → (entry (history start es).governor m).inflight ≡ held_on m (history start es).permits
inflight-held es m = history-Exact start es start-Exact m
