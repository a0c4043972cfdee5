-- ===== src/Pool/Settling.antt =====
-- What the lanes of src/pool.rs say of a request stays the same while they settle.
use open_proxy.Common.{
  ℕ, ◌+◌, ◌≤◌, ◌<◌, ◌≡◌, refl, sym, ap, subst, ◌∙◌, ◌⊎◌, inl, inr, Bool, true, false, Option, none,
  some, List, [], ◌∷◌, arith, if◌then◌else◌, ltb, ltb→lt, length, get_elem?, Bool-cases,
}
use open_proxy.Pool.Lanes.{Lane, window}
use open_proxy.Pool.Reserve.{
  Reservation, ready, wait, out_of_bounds, serves, scan, before, sort_ready, take_first, or_answer,
  reserve_least,
}
use open_proxy.Pool.Step.{Settles, Settled, scan-Settled, length-Settled, prune_idem}
use open_proxy.Pool.Ready.{is_open, is_open-Settles}
use open_proxy.Pool.Scanned.{Candidate, load}
use open_proxy.Pool.Choice.{
  AllSorted, Settled-at, Settled-to, OpenAt, Least, Shut, Leastwise, take_first-head, found, facts,
  scanned_Shut, scanned_Least,
}
use open_proxy.Pool.{Pool}

List-cases {ℓ} : {A : Type ℓ} (xs : List A) → (xs ≡ []) ⊎ ((x : A) × (ys : List A) × (xs ≡ x ∷ ys))
List-cases [] = inl refl
List-cases (x ∷ xs) = inr (x, xs, refl)

pub or_answer-some :
    (m : Pool × Option Reservation) (next : Pool → Pool × Reservation) (r : Reservation)
    → m.1 ≡ some r
    → (or_answer m next).1 ≡ r
or_answer-some (p, some r') next r e = cc
or_answer-some (p, none) next r e = absurd (cc)

pub key-Settles : (now : ℕ) (l l' : Lane) → Settles now l l' → l'.key ≡ l.key
key-Settles now l l' s = ground arith

pub serves-Settles :
    (now : ℕ) (allowed : Option (List ℕ)) (l l' : Lane)
    → Settles now l l'
    → serves allowed l' ≡ serves allowed l
serves-Settles now allowed l l' (inl e) = ap (serves allowed) e
serves-Settles now none l l' (inr e) = refl
serves-Settles now (some groups) l l' (inr e) = ap (serves (some groups)) e

pub load-Settles : (now : ℕ) (l l' : Lane) → Settles now l l' → load now l' ≡ load now l
load-Settles now l l' s = ground (arith, prune_idem now l.sent)

pub rpm-Settles : (now : ℕ) (l l' : Lane) → Settles now l l' → l'.rpm ≡ l.rpm
rpm-Settles now l l' s = ground arith

pub if_any-Shut :
    (p : Pool) (allowed : Option (List ℕ)) (now : ℕ) (any : Bool) (d : ℕ)
    → (any ≡ false → d ≡ window)
    → Shut p allowed now d
    → Leastwise p allowed now (if any then wait d else wait window)
if_any-Shut p allowed now true d e s = s
if_any-Shut p allowed now false d e s = subst (Shut p allowed now) (e refl) s

reserve_scanned-Leastwise :
    (p : Pool) (allowed : Option (List ℕ)) (now : ℕ)
    → AllSorted p.lanes
    → ltb (length p.lanes) p.active ≡ false
    → Leastwise p allowed now (reserve_least p allowed now).1
unfolding reserve_least found
reserve_scanned-Leastwise p allowed now sorted enough =
    let s = scan allowed now p.active 0 p.lanes in
    elim (List-cases (sort_ready s.ready)) [
      | inl e ↦
          rw (enough, e)
            (unfold take_first in
              if_any-Shut p allowed now s.any s.best_wait (facts p allowed now sorted).alone
                (scanned_Shut p allowed now sorted e))
      | inr ((m, i), rest, e) ↦
          let (l, o, least) = scanned_Least p allowed now sorted m i rest e in
          let (l', at, settles) =
            Settled-to now p.lanes s.lanes i l (scan-Settled allowed now p.active 0 p.lanes)
              o.0.1 in
          let open_now : is_open now l' ≡ true =
            is_open-Settles now now l l' (omega arith) settles ∙ o.1 in
          let granted =
            take_first-head (record p { lanes = s.lanes }) now m i rest l' at open_now in
          rw
            (
              enough,
              e,
              or_answer-some (take_first (record p { lanes = s.lanes }) now ((m, i) ∷ rest)) _ _
                  granted,
            )
            (l, o, key-Settles now l l' settles, refl, refl, least)
    ]

pub reserve_least-Leastwise :
    (p : Pool) (allowed : Option (List ℕ)) (now : ℕ)
    → AllSorted p.lanes
    → Leastwise p allowed now (reserve_least p allowed now).1
reserve_least-Leastwise p allowed now sorted = elim (Bool-cases (ltb (length p.lanes) p.active)) [
  | inl short ↦ unfold reserve_least in rw short (ltb→lt (length p.lanes) p.active short)
  | inr enough ↦ reserve_scanned-Leastwise p allowed now sorted enough
]

-- What the lanes say of a request is the same before and after they settle.
module _ (p q : Pool) (allowed : Option (List ℕ)) (now : ℕ) (s : Settled now p.lanes q.lanes)
    (same : q.active ≡ p.active) where
  pub Candidate-back :
      (j : ℕ) (l l' : Lane)
      → get_elem? p.lanes j ≡ some l
      → Settles now l l'
      → Candidate allowed q.active q.lanes j l'
      → Candidate allowed p.active p.lanes j l
  Candidate-back j l l' e t c = (rw same at c.0, e, sym (serves-Settles now allowed l l' t) ∙ c.2)

  pub Candidate-to :
      (j : ℕ) (l l' : Lane)
      → get_elem? q.lanes j ≡ some l'
      → Settles now l l'
      → Candidate allowed p.active p.lanes j l
      → Candidate allowed q.active q.lanes j l'
  Candidate-to j l l' e t c = (rw same c.0, e, serves-Settles now allowed l l' t ∙ c.2)

  pub OpenAt-back :
      (t j : ℕ) (l' : Lane)
      → now ≤ t
      → OpenAt q allowed t j l'
      → (l : Lane) × OpenAt p allowed t j l × Settles now l l'
  OpenAt-back t j l' h (c, o) =
      let (l, e, st) = Settled-at now p.lanes q.lanes j l' s c.1 in
      (l, (Candidate-back j l l' e st c, sym (is_open-Settles now t l l' h st) ∙ o), st)

  pub OpenAt-to :
      (t j : ℕ) (l : Lane)
      → now ≤ t
      → OpenAt p allowed t j l
      → (l' : Lane) × OpenAt q allowed t j l' × Settles now l l'
  OpenAt-to t j l h (c, o) =
      let (l', e, st) = Settled-to now p.lanes q.lanes j l s c.1 in
      (l', (Candidate-to j l l' e st c, is_open-Settles now t l l' h st ∙ o), st)

  pub Shut-back : (d : ℕ) → Shut q allowed now d → Shut p allowed now d
  Shut-back d (shut, pos, cap, wakes) = (shut', pos, cap, wakes' wakes)
    where
      shut' :
          (j : ℕ) (l : Lane) (t : ℕ)
          → Candidate allowed p.active p.lanes j l
          → now ≤ t
          → t < now + d
          → is_open t l ≡ false
      shut' j l t c h lt =
          let (l', e, st) = Settled-to now p.lanes q.lanes j l s c.1 in
          sym (is_open-Settles now t l l' h st) ∙ shut j l' t (Candidate-to j l l' e st c) h lt

      wakes' :
          ((d ≡ window)
            ⊎ ((j : ℕ) × (l : Lane) × Candidate allowed q.active q.lanes j l
                × ((l.rpm ≡ 0) ⊎ (is_open (now + d) l ≡ true))))
          → (d ≡ window)
            ⊎ ((j : ℕ) × (l : Lane) × Candidate allowed p.active p.lanes j l
                × ((l.rpm ≡ 0) ⊎ (is_open (now + d) l ≡ true)))
      wakes' (inl e) = inl e
      wakes' (inr (j, l', c, inl z)) =
          let (l, e, st) = Settled-at now p.lanes q.lanes j l' s c.1 in
          inr (j, l, Candidate-back j l l' e st c, inl (sym (rpm-Settles now l l' st) ∙ z))
      wakes' (inr (j, l', c, inr o)) =
          let (l, o', st) = OpenAt-back (now + d) j l' (omega arith) (c, o) in
          inr (j, l, o'.0, inr o'.1)

  pub Least-back :
      (i : ℕ) (l l' : Lane) → Settles now l l' → Least q allowed now i l' → Least p allowed now i l
  Least-back i l l' st least j k o =
      let (k', o', st') = OpenAt-to now j k (omega arith) o in
      subst (λ a. before (a, i) (load now k, j) ≡ true) (load-Settles now l l' st)
        (subst (λ b. before (load now l', i) (b, j) ≡ true) (load-Settles now k k' st')
          (least j k' o'))

  pub Leastwise-back : (r : Reservation) → Leastwise q allowed now r → Leastwise p allowed now r
  Leastwise-back (wait d) h = Shut-back d h
  Leastwise-back out_of_bounds h = omega (arith, length-Settled now p.lanes q.lanes s)
  Leastwise-back (ready i key stamp sticky) (l', o, k, at, no_affinity, least) =
      let (l, o', st) = OpenAt-back now i l' (omega arith) o in
      (l, o', k ∙ key-Settles now l l' st, at, no_affinity, Least-back i l l' st least)
