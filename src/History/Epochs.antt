-- ===== src/History/Epochs.antt =====
-- src/history/store.rs: what retention keeps of one epoch.
use open_proxy.Common.{
  ℕ, suc, ◌≡◌, refl, sym, String, Bool, true, false, Option, none, some, List, [], ◌∷◌, ◌++◌, All,
  leb, arith, Bool-cases, Option-cases, by_test, ◌||◌, ◌&&◌, ◌==◌, nat_eq, inl, inr, if◌then◌else◌,
  subst,
}
use open_proxy.History.Records.{Record, boot, sample, record_timestamp, BootRecord, SampleRecord}
use open_proxy.History.Retention.{
  is_boot_of, until_boot, from_boot, baseline, keep, retained_epoch, has_retained_observation,
  is_index,
}
use open_proxy.History.Canonical.{between, opened, Within, Ordered}
use open_proxy.History.Retained.{
  Members, append-until_boot, Ordered-back, keep-Ordered, keep-Members, keep-baseline,
}

module _ {F : Type 0} where
  -- The records at or after a time.
  unfoldable pub recent : ℕ → List (Record F) → List (Record F)
  recent cutoff [] = []
  recent cutoff (r ∷ rs) =
      let rest = recent cutoff rs in if leb cutoff (record_timestamp r) then r ∷ rest else rest

  pub recent-append :
      (cutoff : ℕ) (xs ys : List (Record F))
      → recent cutoff (xs ++ ys) ≡ recent cutoff xs ++ recent cutoff ys
  unfolding recent
  recent-append cutoff [] ys = refl
  recent-append cutoff (x ∷ xs) ys = ground (arith, recent-append cutoff xs ys)

pub All_split :
    {A : Type 0} (P : A → Type 0) (xs ys : List A) → All P (xs ++ ys) → All P xs × All P ys
All_split P [] ys h = (tt, h)
All_split P (x ∷ xs) ys h = let (front, back) = All_split P xs ys h.1 in ((h.0, front), back)

module _ {F : Type 0} (cutoff : ℕ) (id : String) (live : Bool) where
  pub body-Within :
      (base : Option ℕ) (b : BootRecord) (m : SampleRecord F) (t : ℕ) (xs zs : List (Record F))
      → baseline cutoff 1 (sample m ∷ xs) ≡ base
      → b.boot_id ≡ m.boot_id
      → Members b.boot_id xs
      → Ordered t (sample m ∷ xs)
      → Within between zs
      → Within (opened b.boot_id) (keep cutoff base 1 (sample m ∷ xs) ++ zs)
  unfolding keep baseline
  body-Within none b m t xs zs found mine ms o later =
      let recent : leb cutoff m.timestamp ≡ true = ground arith in
      rw recent (mine, keep-Members cutoff none 2 b.boot_id xs zs ms later)
  body-Within (some j) b m t xs zs found mine ms o later =
      keep-baseline cutoff 1 j t b.boot_id (sample m ∷ xs) zs (omega arith) ((refl, mine), ms) o
        found later

  pub baseline_boot :
      (b : BootRecord) (xs : List (Record F))
      → baseline cutoff 1 xs ≡ baseline cutoff 0 (boot b ∷ xs)
  unfolding baseline
  baseline_boot b xs = elim (Option-cases (baseline cutoff 1 xs)) [
    | inl e ↦ rw e refl
    | inr (j, e) ↦ rw e refl
  ]

  -- What a turn keeps of an epoch, behind the whole of which `zs` follows.
  pub epoch-Within :
      (b : BootRecord) (m : SampleRecord F) (t : ℕ) (xs zs : List (Record F))
      → b.boot_id ≡ m.boot_id
      → Members b.boot_id xs
      → Ordered t (sample m ∷ xs)
      → Within between zs
      → Within between (retained_epoch cutoff id live (boot b) (sample m ∷ xs) ++ zs)
  unfolding retained_epoch keep
  epoch-Within b m t xs zs mine ms o later =
      let body = sample m ∷ xs in
      by_test (λ kept. Within between (kept ++ zs))
        ((live && is_boot_of {F = F} id (boot b))
          || has_retained_observation cutoff (boot b ∷ body))
        (λ _.
          body-Within (baseline cutoff 0 (boot b ∷ body)) b m t xs zs (baseline_boot b body) mine ms
            o later)
        (λ _. later)

  -- The records that are kept at or after the cutoff are all there are.
  pub recent-keep :
      (base : Option ℕ) (i : ℕ) (xs : List (Record F))
      → recent cutoff (keep cutoff base i xs) ≡ recent cutoff xs
  unfolding keep recent
  recent-keep base i [] = refl
  recent-keep base i (x ∷ xs) = ground (arith, recent-keep base (suc i) xs)

  pub recent_none :
      (xs : List (Record F)) → has_retained_observation cutoff xs ≡ false → recent cutoff xs ≡ []
  unfolding has_retained_observation recent
  recent_none [] h = refl
  recent_none (x ∷ xs) h = ground (arith, recent_none xs)

  pub recent_epoch :
      (r : Record F) (xs : List (Record F))
      → recent cutoff (retained_epoch cutoff id live r xs) ≡ recent cutoff (r ∷ xs)
  unfolding retained_epoch recent
  recent_epoch r xs =
      elim (Bool-cases ((live && is_boot_of id r) || has_retained_observation cutoff (r ∷ xs))) [
        | inl e ↦ rw e (recent-keep (baseline cutoff 0 (r ∷ xs)) 0 (r ∷ xs))
        | inr e ↦ rw e (sym (recent_none (r ∷ xs) (ground arith)))
      ]

  pub epoch-Ordered :
      (t : ℕ) (r : Record F) (rs zs : List (Record F))
      → ((u : ℕ) → Ordered u (from_boot rs) → Ordered u zs)
      → Ordered t (r ∷ rs)
      → Ordered t (retained_epoch cutoff id live r (until_boot rs) ++ zs)
  unfolding retained_epoch
  epoch-Ordered t r rs zs later o =
      let epoch = r ∷ until_boot rs in
      let whole : Ordered t (epoch ++ from_boot rs) =
        (o.0, subst (Ordered (record_timestamp r)) (sym (append-until_boot rs)) o.1) in
      by_test (λ kept. Ordered t (kept ++ zs))
        ((live && is_boot_of id r) || has_retained_observation cutoff epoch)
        (λ _. keep-Ordered cutoff (baseline cutoff 0 epoch) 0 t epoch (from_boot rs) zs later whole)
        (λ _. later t (Ordered-back t epoch (from_boot rs) whole))

  pub keep-All :
      (P : Record F → Type 0) (base : Option ℕ) (i : ℕ) (xs : List (Record F))
      → All P xs
      → All P (keep cutoff base i xs)
  unfolding keep
  keep-All P base i [] h = tt
  keep-All P base i (x ∷ xs) h =
      by_test (All P) (i == 0 || (is_index i base || leb cutoff (record_timestamp x)))
        (λ _. (h.0, keep-All P base (suc i) xs h.1)) (λ _. keep-All P base (suc i) xs h.1)

  pub epoch-All :
      (P : Record F → Type 0) (r : Record F) (xs : List (Record F))
      → All P (r ∷ xs)
      → All P (retained_epoch cutoff id live r xs)
  unfolding retained_epoch
  epoch-All P r xs h =
      by_test (All P) ((live && is_boot_of id r) || has_retained_observation cutoff (r ∷ xs))
        (λ _. keep-All P (baseline cutoff 0 (r ∷ xs)) 0 (r ∷ xs) h) (λ _. tt)
