-- ===== src/History/Retained.antt =====
-- src/history/store.rs: what compaction keeps of a history is a history.
use open_proxy.Common.{
  ℕ, suc, ◌≤◌, ◌<◌, ◌≡◌, refl, ap, String, true, false, Option, some, List, [], ◌∷◌, ◌++◌, All,
  length, leb, arith, Option-cases, by_test, ◌||◌, ◌==◌, nat_eq, inl, inr,
}
use open_proxy.History.Records.{Record, boot, sample, checkpoint, record_timestamp, record_boot_id}
use open_proxy.History.Retention.{is_boot, until_boot, from_boot, baseline, keep, is_index}
use open_proxy.History.Canonical.{between, opened, usable, Within, Ordered}

module _ {F : Type 0} where
  -- The records of one boot behind the boot's own.
  abbrev pub Members : String → List (Record F) → Type 0
  Members id = All (λ r. (is_boot r ≡ false) × (id ≡ record_boot_id r))

  pub length-from_boot : (rs : List (Record F)) → length (from_boot rs) ≤ length rs
  unfolding from_boot
  length-from_boot [] = omega arith
  length-from_boot (r ∷ rs) = ground (arith, length-from_boot rs)

  pub append-until_boot : (rs : List (Record F)) → until_boot rs ++ from_boot rs ≡ rs
  unfolding until_boot from_boot
  append-until_boot [] = refl
  append-until_boot (boot b ∷ rs) = refl
  append-until_boot (sample m ∷ rs) = ap (λ xs. sample m ∷ xs) (append-until_boot rs)
  append-until_boot (checkpoint c ∷ rs) = ap (λ xs. checkpoint c ∷ xs) (append-until_boot rs)

  pub Within-from_boot :
      (id : String) (rs : List (Record F)) → Within (usable id) rs → Within between (from_boot rs)
  unfolding from_boot
  Within-from_boot id [] w = tt
  Within-from_boot id (boot b ∷ rs) w = w
  Within-from_boot id (sample m ∷ rs) w = Within-from_boot id rs w.1
  Within-from_boot id (checkpoint c ∷ rs) w = Within-from_boot id rs w.1

  pub until_boot-Members :
      (id : String) (rs : List (Record F)) → Within (usable id) rs → Members id (until_boot rs)
  unfolding until_boot
  until_boot-Members id [] w = tt
  until_boot-Members id (boot b ∷ rs) w = tt
  until_boot-Members id (sample m ∷ rs) w = ((refl, w.0), until_boot-Members id rs w.1)
  until_boot-Members id (checkpoint c ∷ rs) w = ((refl, w.0), until_boot-Members id rs w.1)

  Ordered-le : (t u : ℕ) (rs : List (Record F)) → t ≤ u → Ordered u rs → Ordered t rs
  Ordered-le t u [] le o = tt
  Ordered-le t u (r ∷ rs) le o = (omega arith, o.1)

  pub Ordered-back : (t : ℕ) (xs ys : List (Record F)) → Ordered t (xs ++ ys) → Ordered t ys
  Ordered-back t [] ys o = o
  Ordered-back t (x ∷ xs) ys o =
      Ordered-le t (record_timestamp x) ys o.0 (Ordered-back (record_timestamp x) xs ys o.1)

  pub Ordered-front : (t : ℕ) (xs ys : List (Record F)) → Ordered t (xs ++ ys) → Ordered t xs
  Ordered-front t [] ys o = tt
  Ordered-front t (x ∷ xs) ys o = (o.0, Ordered-front (record_timestamp x) xs ys o.1)

  pub Within-usable :
      (id : String) (zs : List (Record F)) → Within between zs → Within (usable id) zs
  Within-usable id [] w = tt
  Within-usable id (boot b ∷ zs) w = w
  Within-usable id (sample m ∷ zs) w = absurd w
  Within-usable id (checkpoint c ∷ zs) w = absurd w

  module _ (cutoff : ℕ) where
    pub keep-Ordered :
        (base : Option ℕ) (i t : ℕ) (xs ys zs : List (Record F))
        → ((u : ℕ) → Ordered u ys → Ordered u zs)
        → Ordered t (xs ++ ys)
        → Ordered t (keep cutoff base i xs ++ zs)
    unfolding keep
    keep-Ordered base i t [] ys zs later o = later t o
    keep-Ordered base i t (x ∷ xs) ys zs later o =
        let rest = keep-Ordered base (suc i) (record_timestamp x) xs ys zs later o.1 in
        by_test (λ kept. Ordered t (kept ++ zs))
          (i == 0 || (is_index i base || leb cutoff (record_timestamp x))) (λ _. (o.0, rest))
          (λ _. Ordered-le t (record_timestamp x) (keep cutoff base (suc i) xs ++ zs) o.0 rest)

    pub keep-Members :
        (base : Option ℕ) (i : ℕ) (id : String) (xs zs : List (Record F))
        → Members id xs
        → Within between zs
        → Within (usable id) (keep cutoff base i xs ++ zs)
    unfolding keep
    keep-Members base i id [] zs ms w = Within-usable id zs w
    keep-Members base i id (boot b ∷ xs) zs ms w = absurd (ground arith)
    keep-Members base i id (sample m ∷ xs) zs ms w =
        let rest = keep-Members base (suc i) id xs zs ms.1 w in
        by_test (λ kept. Within (usable id) (kept ++ zs))
          (i == 0 || (is_index i base || leb cutoff m.timestamp)) (λ _. (ms.0.1, rest)) (λ _. rest)
    keep-Members base i id (checkpoint c ∷ xs) zs ms w =
        let rest = keep-Members base (suc i) id xs zs ms.1 w in
        by_test (λ kept. Within (usable id) (kept ++ zs))
          (i == 0 || (is_index i base || leb cutoff c.timestamp)) (λ _. (ms.0.1, rest)) (λ _. rest)

    le-baseline : (i j : ℕ) (xs : List (Record F)) → baseline cutoff i xs ≡ some j → i ≤ j
    unfolding baseline
    le-baseline i j [] e = absurd (ground arith)
    le-baseline i j (x ∷ xs) e = ground (arith, le-baseline (suc i) j xs)

    lt-baseline :
        (i j t : ℕ) (xs : List (Record F))
        → Ordered t xs
        → baseline cutoff i xs ≡ some j
        → t < cutoff
    unfolding baseline
    lt-baseline i j t [] o e = absurd (ground arith)
    lt-baseline i j t (boot b ∷ xs) o e = ground (arith, lt-baseline (suc i) j b.timestamp xs)
    lt-baseline i j t (sample m ∷ xs) o e = ground (arith, lt-baseline (suc i) j m.timestamp xs)
    lt-baseline i j t (checkpoint c ∷ xs) o e = ground (arith, lt-baseline (suc i) j c.timestamp xs)

    -- An old sample that is the baseline stands first among what is kept behind the boot.
    pub keep-baseline :
        (i j t : ℕ) (id : String) (xs zs : List (Record F))
        → 0 < i
        → Members id xs
        → Ordered t xs
        → baseline cutoff i xs ≡ some j
        → Within between zs
        → Within (opened id) (keep cutoff (some j) i xs ++ zs)
    unfolding keep baseline
    keep-baseline i j t id [] zs pos ms o e w = absurd (ground arith)
    keep-baseline i j t id (boot b ∷ xs) zs pos ms o e w = absurd (ground arith)
    keep-baseline i j t id (checkpoint c ∷ xs) zs pos ms o e w =
        let found : baseline cutoff (suc i) xs ≡ some j = ground arith in
        let ahead = le-baseline (suc i) j xs found in
        let old = lt-baseline (suc i) j c.timestamp xs o.1 found in
        let out : (i == 0 || (i == j || leb cutoff c.timestamp)) ≡ false = ground arith in
        rw out (keep-baseline (suc i) j c.timestamp id xs zs (omega arith) ms.1 o.1 found w)
    keep-baseline i j t id (sample m ∷ xs) zs pos ms o e w =
        elim (Option-cases (baseline cutoff (suc i) xs)) [
          | inl last ↦
              let here : (i == 0 || (i == j || leb cutoff m.timestamp)) ≡ true = ground arith in
              rw here (ms.0.1, keep-Members (some j) (suc i) id xs zs ms.1 w)
          | inr (k, found) ↦
              let found : baseline cutoff (suc i) xs ≡ some j = ground arith in
              let ahead = le-baseline (suc i) j xs found in
              let old = lt-baseline (suc i) j m.timestamp xs o.1 found in
              let out : (i == 0 || (i == j || leb cutoff m.timestamp)) ≡ false = ground arith in
              rw out (keep-baseline (suc i) j m.timestamp id xs zs (omega arith) ms.1 o.1 found w)
        ]
