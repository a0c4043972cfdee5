-- ===== src/Pool/Choice.antt =====
-- Which lane `reserve_filtered` of src/pool.rs grants, and when it makes the caller wait.
use open_proxy.Common.{
  ℕ, zero, suc, ◌+◌, ◌-◌, ◌≤◌, ◌<◌, ◌≡◌, refl, sym, subst, ◌∙◌, ◌⊎◌, inl, inr, true, false, Option,
  some, List, [], ◌∷◌, arith, ltb, ltb→lt, length, get_elem?, All, Bool-cases, All-get_elem?,
}
use native.Mathlib.Nat.{zero-add}
use open_proxy.Pool.Lanes.{Lane, window, prune, pruned, ready_at}
use open_proxy.Pool.Reserve.{
  Reservation, ready, wait, out_of_bounds, Scan, scan, before, sort_ready, take_first,
}
use open_proxy.Pool.Step.{Settles, Settled, try_take_granted}
use open_proxy.Pool.Pace.{Sorted}
use open_proxy.Pool.Ready.{
  is_open, took-is_open, is_open-Settles, Sorted-prune, ready_at-le_of_open, open_of_ready_at-le,
  open_of_ready_now,
}
use open_proxy.Pool.Order.{In, All-In, All-sort_ready, sort_ready-All, sort_ready-first}
use open_proxy.Pool.Scanned.{Candidate, load, Entry, Found, scan-Found}
use open_proxy.Pool.{Pool}

-- The stamps of every lane stand in the order in which they were made.
abbrev pub AllSorted : List Lane → Type 0
AllSorted = All (λ l. Sorted l.sent)

-- The lane at an index, before and after the lanes settle.
pub Settled-at :
    (now : ℕ) (ls ls' : List Lane) (i : ℕ) (l' : Lane)
    → Settled now ls ls'
    → get_elem? ls' i ≡ some l'
    → (l : Lane) × (get_elem? ls i ≡ some l) × Settles now l l'
Settled-at now [] [] i l' s e = absurd (ground arith)
Settled-at now [] (x' ∷ ls') i l' s e = absurd s
Settled-at now (x ∷ ls) [] i l' s e = absurd s
Settled-at now (x ∷ ls) (x' ∷ ls') zero l' s e =
    (x, refl, (let q : x' ≡ l' = cc in subst (Settles now x) q s.0))
Settled-at now (x ∷ ls) (x' ∷ ls') (suc i) l' s e = Settled-at now ls ls' i l' s.1 e

pub Settled-to :
    (now : ℕ) (ls ls' : List Lane) (i : ℕ) (l : Lane)
    → Settled now ls ls'
    → get_elem? ls i ≡ some l
    → (l' : Lane) × (get_elem? ls' i ≡ some l') × Settles now l l'
Settled-to now [] [] i l s e = absurd (ground arith)
Settled-to now [] (x' ∷ ls') i l s e = absurd s
Settled-to now (x ∷ ls) [] i l s e = absurd s
Settled-to now (x ∷ ls) (x' ∷ ls') zero l s e =
    (x', refl, (let q : x ≡ l = cc in subst (λ y. Settles now y x') q s.0))
Settled-to now (x ∷ ls) (x' ∷ ls') (suc i) l s e = Settled-to now ls ls' i l s.1 e

pub AllSorted-Settled :
    (now : ℕ) (ls ls' : List Lane) → Settled now ls ls' → AllSorted ls → AllSorted ls'
AllSorted-Settled now [] [] s h = tt
AllSorted-Settled now [] (x' ∷ ls') s h = absurd s
AllSorted-Settled now (x ∷ ls) [] s h = absurd s
AllSorted-Settled now (x ∷ ls) (x' ∷ ls') s h = (sorted s.0, AllSorted-Settled now ls ls' s.1 h.1)
  where
    sorted : Settles now x x' → Sorted x'.sent
    sorted (inl e) = subst (λ y. Sorted y.sent) (sym e) h.0
    sorted (inr e) = subst (λ y. Sorted y.sent) (sym e) (Sorted-prune now x.sent h.0)

-- `j` may serve the request, and has room at `t`.
abbrev pub OpenAt : Pool → Option (List ℕ) → ℕ → ℕ → Lane → Type 0
OpenAt p allowed t j l = Candidate allowed p.active p.lanes j l × (is_open t l ≡ true)

-- A grant without affinity: no open lane has a smaller load, or the same load and a smaller index.
abbrev pub Least : Pool → Option (List ℕ) → ℕ → ℕ → Lane → Type 0
Least p allowed now i l =
    (j : ℕ) (l' : Lane) → OpenAt p allowed now j l' → before (load now l, i) (load now l', j) ≡ true

-- A wait: no lane has room before `now + d`; the caller does wait, for a window at most; and a wait shorter than that ends when some lane has room, if it may send at all.
abbrev pub Shut : Pool → Option (List ℕ) → ℕ → ℕ → Type 0
Shut p allowed now d =
    ((j : ℕ) (l : Lane) (t : ℕ)
      → Candidate allowed p.active p.lanes j l
      → now ≤ t
      → t < now + d
      → is_open t l ≡ false)
    × (0 < d)
    × (d ≤ window)
    × ((d ≡ window)
        ⊎ ((j : ℕ) × (l : Lane) × Candidate allowed p.active p.lanes j l
            × ((l.rpm ≡ 0) ⊎ (is_open (now + d) l ≡ true))))

abbrev pub Leastwise : Pool → Option (List ℕ) → ℕ → Reservation → Type 0
Leastwise p allowed now (wait d) = Shut p allowed now d
Leastwise p allowed now out_of_bounds = length p.lanes < p.active
Leastwise p allowed now (ready i key stamp sticky) =
    (l : Lane) × OpenAt p allowed now i l
    × (key ≡ l.key)
    × (stamp ≡ now)
    × (sticky ≡ false)
    × Least p allowed now i l

-- The first entry of the sorted list is granted.
pub take_first-head :
    (p : Pool) (now m i : ℕ) (rest : List (ℕ × ℕ)) (l : Lane)
    → get_elem? p.lanes i ≡ some l
    → is_open now l ≡ true
    → (take_first p now ((m, i) ∷ rest)).1 ≡ some (ready i l.key now false)
unfolding take_first
take_first-head p now m i rest l e o =
    rw (try_take_granted p i now false l e (took-is_open now l ∙ o)) refl

-- From the lanes that the scan settled back to the lanes of the pool.
module _ (p : Pool) (allowed : Option (List ℕ)) (now : ℕ) (sorted : AllSorted p.lanes) where
  unfoldable pub found : Scan
  found = scan allowed now p.active 0 p.lanes

  pub facts : Found allowed now p.active 0 p.lanes found
  unfolding found
  facts = scan-Found allowed now p.active 0 p.lanes

  Sorted-at : (j : ℕ) (l : Lane) → get_elem? p.lanes j ≡ some l → Sorted (prune now l.sent)
  Sorted-at j l e =
      Sorted-prune now l.sent (All-get_elem? (λ x. Sorted x.sent) p.lanes j l sorted e)

  pruned_open :
      (j : ℕ) (l : Lane)
      → get_elem? p.lanes j ≡ some l
      → ready_at now (pruned now l) ≤ now
      → is_open now l ≡ true
  pruned_open j l e r =
      sym (is_open-Settles now now l (pruned now l) (omega arith) (inr refl))
      ∙ open_of_ready_now now (pruned now l) (Sorted-at j l e) r

  open_ready :
      (j : ℕ) (l : Lane) (t : ℕ)
      → get_elem? p.lanes j ≡ some l
      → now ≤ t
      → is_open t l ≡ true
      → ready_at now (pruned now l) ≤ t
  open_ready j l t e h o =
      ready_at-le_of_open now t (pruned now l) (Sorted-at j l e) h
        (is_open-Settles now t l (pruned now l) h (inr refl) ∙ o)

  -- Nothing is listed: every candidate waits.
  unlisted :
      sort_ready found.ready ≡ []
      → (j : ℕ) (l : Lane) → Candidate allowed p.active p.lanes j l
      → (now < ready_at now (pruned now l)) × (found.best_wait ≤ ready_at now (pruned now l) - now)
  unlisted e j l c = elim (facts.complete j l c) [
    | inl h ↦ absurd (
        All-In (λ _. ⊥) (load now l, 0 + j) found.ready
          (sort_ready-All (λ _. ⊥) found.ready (subst (All (λ _. ⊥)) (sym e) tt)) h)
    | inr h ↦ h
  ]

  shut_before :
      sort_ready found.ready ≡ []
      → (j : ℕ) (l : Lane) (t : ℕ) → Candidate allowed p.active p.lanes j l
      → now ≤ t
      → t < now + found.best_wait
      → is_open t l ≡ false
  shut_before e j l t c h lt = elim (Bool-cases (is_open t l)) [
    | inl o ↦
        absurd (omega (arith, open_ready j l t c.1 h o, (unlisted e j l c).0, (unlisted e j l c).1))
    | inr o ↦ o
  ]

  opens_then :
      (j : ℕ) (l : Lane)
      → get_elem? p.lanes j ≡ some l
      → now < ready_at now (pruned now l)
      → found.best_wait ≡ ready_at now (pruned now l) - now
      → (l.rpm ≡ 0) ⊎ (is_open (now + found.best_wait) l ≡ true)
  opens_then j l e lt b = elim (Bool-cases (ltb 0 l.rpm)) [
    | inl pos ↦ inr (
        sym (is_open-Settles now (now + found.best_wait) l (pruned now l) (omega arith) (inr refl))
        ∙ open_of_ready_at-le now (now + found.best_wait) (pruned now l) (Sorted-at j l e)
            (omega arith) (ltb→lt 0 l.rpm pos) (omega arith))
    | inr none_sent ↦ inl (ground arith)
  ]

  pub scanned_Shut : sort_ready found.ready ≡ [] → Shut p allowed now found.best_wait
  scanned_Shut e = (shut_before e, positive facts.attained, facts.capped, wakes facts.attained)
    where
      positive :
          ((found.best_wait ≡ window)
            ⊎ ((j : ℕ) × (l : Lane) × Candidate allowed p.active p.lanes j l
                × (now < ready_at now (pruned now l))
                × (found.best_wait ≡ ready_at now (pruned now l) - now)))
          → 0 < found.best_wait
      positive (inl w) = omega arith
      positive (inr (j, l, c, lt, b)) = omega arith

      wakes :
          ((found.best_wait ≡ window)
            ⊎ ((j : ℕ) × (l : Lane) × Candidate allowed p.active p.lanes j l
                × (now < ready_at now (pruned now l))
                × (found.best_wait ≡ ready_at now (pruned now l) - now)))
          → (found.best_wait ≡ window)
            ⊎ ((j : ℕ) × (l : Lane) × Candidate allowed p.active p.lanes j l
                × ((l.rpm ≡ 0) ⊎ (is_open (now + found.best_wait) l ≡ true)))
      wakes (inl w) = inl w
      wakes (inr (j, l, c, lt, b)) = inr (j, l, c, opens_then j l c.1 lt b)

  -- An open lane is listed.
  listed_open : (j : ℕ) (l : Lane) → OpenAt p allowed now j l → In (load now l, j) found.ready
  listed_open j l (c, o) = elim (facts.complete j l c) [
    | inl h ↦ subst (λ k. In (load now l, k) found.ready) (zero-add j) h
    | inr h ↦ absurd (omega (arith, open_ready j l now c.1 (omega arith) o, h.0))
  ]

  pub scanned_Least :
      (m i : ℕ) (rest : List (ℕ × ℕ))
      → sort_ready found.ready ≡ (m, i) ∷ rest
      → (l : Lane) × OpenAt p allowed now i l × Least p allowed now i l
  scanned_Least m i rest e = first head.0
    where
      head : All (Entry allowed now p.active 0 p.lanes) ((m, i) ∷ rest)
      head =
          subst (All (Entry allowed now p.active 0 p.lanes)) e
            (All-sort_ready (Entry allowed now p.active 0 p.lanes) found.ready facts.listed)

      first :
          Entry allowed now p.active 0 p.lanes (m, i)
          → (l : Lane) × OpenAt p allowed now i l × Least p allowed now i l
      first (j, l, c, at, same, r) =
          let q : j ≡ i = omega (arith, at) in
          (
            l,
            (subst (λ k. Candidate allowed p.active p.lanes k l) q c, pruned_open j l c.1 r),
            λ k l' o.
                subst (λ a. before (a, i) (load now l', k) ≡ true) same
                  (All-In (λ x. before (m, i) x ≡ true) (load now l', k) found.ready
                    (sort_ready-first found.ready (m, i) rest e) (listed_open k l' o)),
          )
