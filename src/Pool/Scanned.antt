-- ===== src/Pool/Scanned.antt =====
-- What the loop over the lanes in `reserve_filtered` of src/pool.rs has found.
use open_proxy.Common.{
  ℕ, zero, suc, ◌+◌, ◌-◌, ◌≤◌, ◌<◌, min, ◌≡◌, refl, sym, ap, subst, ◌⊎◌, inl, inr, true, false,
  Option, some, List, [], ◌∷◌, arith, leb, length, get_elem?, All, Bool-cases, leb→le, leb-false→lt,
}
use native.Mathlib.Nat.{add-zero}
use native.Mathlib.Decide.{dec_le}
use open_proxy.Pool.Lanes.{Lane, window, prune, pruned, ready_at}
use open_proxy.Pool.Reserve.{Scan, serves, note, scan}
use open_proxy.Pool.Order.{In}

-- Lane `j` of the first `n` lanes of the list, allowed and as it stands before the scan.
abbrev pub Candidate : Option (List ℕ) → ℕ → List Lane → ℕ → Lane → Type 0
Candidate allowed n ls j l = (j < n) × (get_elem? ls j ≡ some l) × (serves allowed l ≡ true)

abbrev pub load : ℕ → Lane → ℕ
load now l = length (prune now l.sent)

-- An entry of the ready list is a candidate that is ready, under its index and its load.
abbrev pub Entry : Option (List ℕ) → ℕ → ℕ → ℕ → List Lane → ℕ × ℕ → Type 0
Entry allowed now n i ls (m, k) =
    (j : ℕ) × (l : Lane) × Candidate allowed n ls j l
    × (k ≡ i + j)
    × (m ≡ load now l)
    × (ready_at now (pruned now l) ≤ now)

pub record Found (allowed : Option (List ℕ)) (now n i : ℕ) (ls : List Lane) (s : Scan)
    : Type 0 where
  pub listed : All (Entry allowed now n i ls) s.ready
  pub complete :
      (j : ℕ) (l : Lane)
      → Candidate allowed n ls j l
      → In (load now l, i + j) s.ready
        ⊎ ((now < ready_at now (pruned now l)) × (s.best_wait ≤ ready_at now (pruned now l) - now))
  pub attained :
      (s.best_wait ≡ window)
      ⊎ ((j : ℕ) × (l : Lane) × Candidate allowed n ls j l
          × (now < ready_at now (pruned now l))
          × (s.best_wait ≡ ready_at now (pruned now l) - now))
  pub capped : s.best_wait ≤ window
  pub alone : s.any ≡ false → s.best_wait ≡ window

-- An entry of the lanes behind the first.
Entry-next :
    (allowed : Option (List ℕ)) (now n i : ℕ) (l : Lane) (ls : List Lane) (x : ℕ × ℕ)
    → Entry allowed now n (suc i) ls x
    → Entry allowed now (suc n) i (l ∷ ls) x
Entry-next allowed now n i l ls (m, k) (j, l', c, e, f, r) =
    (suc j, l', (omega (arith, c.0), c.1, c.2), omega (arith, e), f, r)

All-Entry-next :
    (allowed : Option (List ℕ)) (now n i : ℕ) (l : Lane) (ls : List Lane) (xs : List (ℕ × ℕ))
    → All (Entry allowed now n (suc i) ls) xs
    → All (Entry allowed now (suc n) i (l ∷ ls)) xs
All-Entry-next allowed now n i l ls [] h = tt
All-Entry-next allowed now n i l ls (x ∷ xs) h =
    (Entry-next allowed now n i l ls x h.0, All-Entry-next allowed now n i l ls xs h.1)

In-index : (m i j : ℕ) (xs : List (ℕ × ℕ)) → In (m, suc i + j) xs → In (m, i + suc j) xs
In-index m i j xs h = let e : suc i + j ≡ i + suc j = omega arith in subst (λ k. In (m, k) xs) e h

abbrev Waits : ℕ → ℕ → Lane → Type 0
Waits now best l = (now < ready_at now (pruned now l)) × (best ≤ ready_at now (pruned now l) - now)

abbrev Attained : Option (List ℕ) → ℕ → ℕ → List Lane → ℕ → Type 0
Attained allowed now n ls best =
    (best ≡ window)
    ⊎ ((j : ℕ) × (l : Lane) × Candidate allowed n ls j l
        × (now < ready_at now (pruned now l))
        × (best ≡ ready_at now (pruned now l) - now))

Attained-next :
    (allowed : Option (List ℕ)) (now n : ℕ) (l : Lane) (ls : List Lane) (best : ℕ)
    → Attained allowed now n ls best
    → Attained allowed now (suc n) (l ∷ ls) best
Attained-next allowed now n l ls best (inl e) = inl e
Attained-next allowed now n l ls best (inr (j, k, c, lt, e)) =
    inr (suc j, k, (omega (arith, c.0), c.1, c.2), lt, e)

-- The candidates behind the first lane, in a longer list and with a shorter wait.
complete-next :
    (allowed : Option (List ℕ)) (now n i best j : ℕ) (ls : List Lane) (s : Scan) (l' : Lane)
    → Found allowed now n (suc i) ls s
    → best ≤ s.best_wait
    → Candidate allowed n ls j l'
    → In (load now l', i + suc j) s.ready ⊎ Waits now best l'
complete-next allowed now n i best j ls s l' f le c = elim (f.complete j l' c) [
  | inl h ↦ inl (In-index (load now l') i j s.ready h)
  | inr h ↦ inr (h.0, omega (arith, h.1))
]

-- The first lane is not allowed.
Found-skip :
    (allowed : Option (List ℕ)) (now n i : ℕ) (l : Lane) (ls : List Lane) (s : Scan)
    → serves allowed l ≡ false
    → Found allowed now n (suc i) ls s
    → Found allowed now (suc n) i (l ∷ ls) (record s { lanes = l ∷ s.lanes })
Found-skip allowed now n i l ls s out f = record {
  listed = All-Entry-next allowed now n i l ls s.ready f.listed;
  complete = complete;
  attained = Attained-next allowed now n l ls s.best_wait f.attained;
  capped = f.capped;
  alone = f.alone;
}
  where
    complete :
        (j : ℕ) (l' : Lane)
        → Candidate allowed (suc n) (l ∷ ls) j l'
        → In (load now l', i + j) s.ready ⊎ Waits now s.best_wait l'
    complete zero l' c = absurd (
        let q : l ≡ l' = cc in
        let r : serves allowed l ≡ true = subst (λ x. serves allowed x ≡ true) (sym q) c.2 in cc)
    complete (suc j) l' c =
        complete-next allowed now n i s.best_wait j ls s l' f (omega arith)
          (omega (arith, c.0), c.1, c.2)

-- The first lane is allowed, and ready.
Found-ready :
    (allowed : Option (List ℕ)) (now n i : ℕ) (l : Lane) (ls : List Lane) (s : Scan)
    → serves allowed l ≡ true
    → ready_at now (pruned now l) ≤ now
    → Found allowed now n (suc i) ls s
    → Found allowed now
        (suc n)
        i
        (l ∷ ls)
        (record s { lanes = pruned now l ∷ s.lanes; ready = (load now l, i) ∷ s.ready; any = true })
Found-ready allowed now n i l ls s here r f = record {
  listed = (
    (0, l, (omega arith, refl, here), omega arith, refl, r),
    All-Entry-next allowed now n i l ls s.ready f.listed,
  );
  complete = complete;
  attained = Attained-next allowed now n l ls s.best_wait f.attained;
  capped = f.capped;
  alone = λ h. absurd (cc);
}
  where
    complete :
        (j : ℕ) (l' : Lane)
        → Candidate allowed (suc n) (l ∷ ls) j l'
        → In (load now l', i + j) ((load now l, i) ∷ s.ready) ⊎ Waits now s.best_wait l'
    complete zero l' c =
        let q : l ≡ l' = cc in
        inl (
          inl (
            subst (λ x. ◌≡◌ {A = ℕ × ℕ} (load now x, i + 0) (load now l, i)) q
              (ap (λ k. (load now l, k)) (add-zero i))))
    complete (suc j) l' c =
        elim (complete-next allowed now n i s.best_wait j ls s l' f (omega arith)
          (omega (arith, c.0), c.1, c.2)) [ inl h ↦ inl (inr h) | inr h ↦ inr h ]

-- The first lane is allowed, and not ready yet.
Found-waiting :
    (allowed : Option (List ℕ)) (now n i : ℕ) (l : Lane) (ls : List Lane) (s : Scan)
    → serves allowed l ≡ true
    → now < ready_at now (pruned now l)
    → Found allowed now n (suc i) ls s
    → Found allowed now (suc n) i (l ∷ ls) (record s {
      lanes = pruned now l ∷ s.lanes;
      best_wait = min (ready_at now (pruned now l) - now) s.best_wait;
      any = true;
    })
Found-waiting allowed now n i l ls s here lt f = record {
  listed = All-Entry-next allowed now n i l ls s.ready f.listed;
  complete = complete;
  attained = attained (dec_le (ready_at now (pruned now l) - now) s.best_wait);
  capped = omega (arith, f.capped);
  alone = λ h. absurd (cc);
}
  where
    best : ℕ
    best = min (ready_at now (pruned now l) - now) s.best_wait

    complete :
        (j : ℕ) (l' : Lane)
        → Candidate allowed (suc n) (l ∷ ls) j l'
        → In (load now l', i + j) s.ready ⊎ Waits now best l'
    complete zero l' c = let q : l ≡ l' = cc in inr (subst (Waits now best) q (lt, omega arith))
    complete (suc j) l' c =
        complete-next allowed now n i best j ls s l' f (omega arith) (omega (arith, c.0), c.1, c.2)

    attained :
        Dec (ready_at now (pruned now l) - now ≤ s.best_wait)
        → Attained allowed now (suc n) (l ∷ ls) best
    attained (yes h) = inr (0, l, (omega arith, refl, here), lt, omega arith)
    attained (no h) =
        let e : s.best_wait ≡ best = omega arith in
        subst (Attained allowed now (suc n) (l ∷ ls)) e
          (Attained-next allowed now n l ls s.best_wait f.attained)

Found-note :
    (allowed : Option (List ℕ)) (now n i : ℕ) (l : Lane) (ls : List Lane) (s : Scan)
    → serves allowed l ≡ true
    → Found allowed now n (suc i) ls s
    → Found allowed now (suc n) i (l ∷ ls) (note now i (pruned now l) s)
unfolding note
Found-note allowed now n i l ls s here f =
    elim (Bool-cases (leb (ready_at now (pruned now l)) now)) [
      | inl e ↦ rw e (Found-ready allowed now n i l ls s here (leb→le _ _ e) f)
      | inr e ↦ rw e (Found-waiting allowed now n i l ls s here (leb-false→lt _ _ e) f)
    ]

Found-none :
    (allowed : Option (List ℕ)) (now n i : ℕ) (ls ls' : List Lane)
    → ((j : ℕ) (l : Lane) → Candidate allowed n ls j l → ⊥)
    → Found allowed now n i ls (record { lanes = ls'; ready = []; best_wait = window; any = false })
Found-none allowed now n i ls ls' h = record {
  listed = tt;
  complete = λ j l c. absurd (h j l c);
  attained = inl refl;
  capped = omega arith;
  alone = λ e. refl;
}

pub scan-Found :
    (allowed : Option (List ℕ)) (now n i : ℕ) (ls : List Lane)
    → Found allowed now n i ls (scan allowed now n i ls)
unfolding scan
scan-Found allowed now zero i ls = Found-none allowed now zero i ls ls (λ j l c. omega (arith, c.0))
scan-Found allowed now (suc n) i [] = Found-none allowed now (suc n) i [] [] (λ j l c. cc (c.1))
scan-Found allowed now (suc n) i (l ∷ ls) = elim (Bool-cases (serves allowed l)) [
  | inl e ↦ rw e (Found-note allowed now n i l ls _ e (scan-Found allowed now n (suc i) ls))
  | inr e ↦ rw e (Found-skip allowed now n i l ls _ e (scan-Found allowed now n (suc i) ls))
]
