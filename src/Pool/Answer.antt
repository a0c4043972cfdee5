-- ===== src/Pool/Answer.antt =====
-- `reserve_filtered` of src/pool.rs as a whole: affinity first, then the least loaded lane, and a
-- wait only where no lane has room.
use open_proxy.Common.{
  ℕ, ◌<◌, ◌⊎◌, ◌≡◌, refl, sym, subst, ◌∙◌, inl, inr, Bool, true, false, ◌&&◌, Option, none, some,
  List, arith, ltb, ltb→lt, lt→ltb, length, length_of_none, get_elem?, set, Bool-cases,
  Option-cases,
}
use open_proxy.Pool.Lanes.{Lane, take_slot}
use open_proxy.Pool.Reserve.{
  Reservation, ready, wait, out_of_bounds, serves, eligible, try_preferred, reserve_least,
  reserve_filtered,
}
use open_proxy.Pool.Step.{
  Settled, Settled-refl, try_take_missing, try_take_granted, try_take_refused, try_take-Done,
}
use open_proxy.Pool.Ready.{is_open, took-is_open}
use open_proxy.Pool.Scanned.{Candidate}
use open_proxy.Pool.Choice.{AllSorted, AllSorted-Settled, OpenAt, Least, Shut, Leastwise}
use open_proxy.Pool.Settling.{reserve_least-Leastwise, Leastwise-back}
use open_proxy.Pool.{Pool}

-- What a reservation may answer.
abbrev pub Answer : Pool → Option ℕ → Option (List ℕ) → ℕ → Reservation → Type 0
Answer p prefer allowed now (wait d) = Shut p allowed now d
Answer p prefer allowed now out_of_bounds = length p.lanes < p.active
Answer p prefer allowed now (ready i key stamp true) =
    (prefer ≡ some i) × ((l : Lane) × OpenAt p allowed now i l × (key ≡ l.key) × (stamp ≡ now))
Answer p prefer allowed now (ready i key stamp false) =
    ((k : ℕ) (l : Lane) → prefer ≡ some k → OpenAt p allowed now k l → ⊥)
    × ((l : Lane) × OpenAt p allowed now i l
        × (key ≡ l.key)
        × (stamp ≡ now)
        × Least p allowed now i l)

abbrev Unpreferred : Pool → Option ℕ → Option (List ℕ) → ℕ → Type 0
Unpreferred p prefer allowed now =
    (k : ℕ) (l : Lane) → prefer ≡ some k → OpenAt p allowed now k l → ⊥

Answer_of_Leastwise :
    (p : Pool) (prefer : Option ℕ) (allowed : Option (List ℕ)) (now : ℕ) (r : Reservation)
    → Unpreferred p prefer allowed now
    → Leastwise p allowed now r
    → Answer p prefer allowed now r
Answer_of_Leastwise p prefer allowed now (wait d) u h = h
Answer_of_Leastwise p prefer allowed now out_of_bounds u h = h
Answer_of_Leastwise p prefer allowed now (ready i key stamp true) u h = absurd (cc (h.4))
Answer_of_Leastwise p prefer allowed now (ready i key stamp false) u h =
    (u, (h.0, h.1, h.2, h.3, h.5))

eligible_of_some :
    (p : Pool) (allowed : Option (List ℕ)) (i : ℕ) (l : Lane)
    → get_elem? p.lanes i ≡ some l
    → eligible p allowed i ≡ (ltb i p.active && serves allowed l)
unfolding eligible
eligible_of_some p allowed i l e = rw (e, eligible) refl

eligible_of_none :
    (p : Pool) (allowed : Option (List ℕ)) (i : ℕ)
    → get_elem? p.lanes i ≡ none
    → eligible p allowed i ≡ ltb i p.active
unfolding eligible
eligible_of_none p allowed i e = rw (e, eligible) (ground arith)

&&-true : (a b : Bool) → (a && b) ≡ true → (a ≡ true) × (b ≡ true)
&&-true a b h = ground arith

eligible-Candidate :
    (p : Pool) (allowed : Option (List ℕ)) (i : ℕ)
    → eligible p allowed i ≡ true
    → ((get_elem? p.lanes i ≡ none) × (length p.lanes < p.active))
      ⊎ ((l : Lane) × Candidate allowed p.active p.lanes i l)
eligible-Candidate p allowed i h = elim (Option-cases (get_elem? p.lanes i)) [
  | inl e ↦
      let lt = ltb→lt i p.active (sym (eligible_of_none p allowed i e) ∙ h) in
      inl (e, omega (arith, lt, length_of_none p.lanes i e))
  | inr (l, e) ↦
      let (a, b) =
        &&-true (ltb i p.active) (serves allowed l) (sym (eligible_of_some p allowed i l e) ∙ h) in
      inr (l, (ltb→lt i p.active a, e, b))
]

Candidate-eligible :
    (p : Pool) (allowed : Option (List ℕ)) (i : ℕ) (l : Lane)
    → Candidate allowed p.active p.lanes i l
    → eligible p allowed i ≡ true
Candidate-eligible p allowed i l c =
    eligible_of_some p allowed i l c.1 ∙ rw (lt→ltb i p.active c.0, c.2)

-- The preferred lane is the one at its index.
Unpreferred-of :
    (p : Pool) (i : ℕ) (allowed : Option (List ℕ)) (now : ℕ)
    → ((l : Lane) → OpenAt p allowed now i l → ⊥)
    → Unpreferred p (some i) allowed now
Unpreferred-of p i allowed now h k l e o =
    let q : k ≡ i = cc in h l (subst (λ j. OpenAt p allowed now j l) q o)

shut_lane :
    (p : Pool) (i : ℕ) (allowed : Option (List ℕ)) (now : ℕ) (l l' : Lane)
    → get_elem? p.lanes i ≡ some l
    → (take_slot now l).1 ≡ false
    → OpenAt p allowed now i l'
    → ⊥
shut_lane p i allowed now l l' e f o =
    let q : l' ≡ l = cc (o.0.1) in
    let t : is_open now l ≡ true = subst (λ x. is_open now x ≡ true) q o.1 in
    cc (took-is_open now l)

-- The pool and the answer where the preferred lane gives nothing.
fall_back :
    (p q : Pool) (prefer : Option ℕ) (allowed : Option (List ℕ)) (now : ℕ)
    → AllSorted p.lanes
    → Settled now p.lanes q.lanes
    → q.active ≡ p.active
    → Unpreferred p prefer allowed now
    → Answer p prefer allowed now (reserve_least q allowed now).1
fall_back p q prefer allowed now sorted s same u =
    Answer_of_Leastwise p prefer allowed now (reserve_least q allowed now).1 u (
      Leastwise-back p q allowed now s same (reserve_least q allowed now).1
        (reserve_least-Leastwise q allowed now (AllSorted-Settled now p.lanes q.lanes s sorted)))

-- What a reservation answers, on lanes whose stamps stand in the order of the clock. It grants the
-- preferred lane if that may serve the request and is open, that is, neither cooling down nor full.
-- Otherwise it grants, of the lanes that may serve it and are open, the one with the fewest stamps in
-- its window, the first of these. Otherwise it answers a wait, positive and of a window at most, before whose end
-- no lane that may serve the request opens, and at whose end one does, unless the wait is the whole
-- window or this lane's rpm is 0. It panics only if the pool has fewer lanes than active ones.
pub reserve_filtered-Answer :
    (p : Pool) (prefer : Option ℕ) (allowed : Option (List ℕ)) (now : ℕ)
    → AllSorted p.lanes
    → Answer p prefer allowed now (reserve_filtered p prefer allowed now).1
unfolding reserve_filtered try_preferred
reserve_filtered-Answer p none allowed now sorted =
    fall_back p p none allowed now sorted (Settled-refl now p.lanes) refl (λ k l e o. absurd (cc))
reserve_filtered-Answer p (some i) allowed now sorted = elim (Bool-cases (eligible p allowed i)) [
  | inl el ↦ elim (eligible-Candidate p allowed i el) [
    | inl (e, short) ↦ rw (el, try_take_missing p i now true e) short
    | inr (l, c) ↦ elim (Bool-cases (take_slot now l).1) [
      | inl took ↦
          rw (el, try_take_granted p i now true l c.1 took)
            (refl, (l, (c, sym (took-is_open now l) ∙ took), refl, refl))
      | inr refused ↦
          let same = try_take_refused p i now true l c.1 refused in
          rw (el, same)
            (fall_back p (record p { lanes = set p.lanes i (take_slot now l).0 }) (some i) allowed
              now sorted (rw same at (try_take-Done p i now true)) refl
              (Unpreferred-of p i allowed now
                (λ l' o. shut_lane p i allowed now l l' c.1 refused o)))
    ]
  ]
  | inr not_el ↦ rw not_el (
      fall_back p p (some i) allowed now sorted (Settled-refl now p.lanes) refl
        (Unpreferred-of p i allowed now (λ l o. cc (Candidate-eligible p allowed i l o.0))))
]
