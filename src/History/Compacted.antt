-- ===== src/History/Compacted.antt =====
-- src/history/store.rs: the loop of `retained_compaction_records` over a whole history.
use open_proxy.Common.{
  ℕ, zero, suc, ◌≤◌, ◌≡◌, refl, sym, ap, String, Bool, Option, none, some, List, [], ◌∷◌, ◌++◌, All,
  All-append, length, arith, nat_eq, subst,
}
use open_proxy.History.Records.{Record, boot, sample, checkpoint}
use open_proxy.History.Retention.{
  until_boot, from_boot, retain, retained_epoch, retained_compaction_records,
}
use open_proxy.History.Canonical.{between, Within, Ordered, Canonical}
use open_proxy.History.Retained.{
  length-from_boot, append-until_boot, Within-from_boot, until_boot-Members, Ordered-back,
  Ordered-front,
}
use open_proxy.History.Epochs.{
  All_split, epoch-All, epoch-Ordered, epoch-Within, recent, recent-append, recent_epoch,
}

module _ {F : Type 0} (cutoff : ℕ) (id : String) (live : Bool) where
  -- A turn takes one record at least, so as much fuel as there are records is enough.
  retain_total :
      (fuel : ℕ) (rs : List (Record F))
      → length rs ≤ fuel
      → (kept : List (Record F)) × (retain fuel cutoff id live rs ≡ some kept)
  unfolding retain
  retain_total fuel [] le = ([], refl)
  retain_total zero (r ∷ rs) le = absurd (omega arith)
  retain_total (suc fuel) (r ∷ rs) le =
      let (later, e) = retain_total fuel (from_boot rs) (omega (arith, length-from_boot rs)) in
      (retained_epoch cutoff id live r (until_boot rs) ++ later, rw (retain, e) refl)

  retain_added :
      (r : Record F) (rs kept : List (Record F)) (rest : Option (List (Record F)))
      → elim rest [ none ↦ none | some later ↦ some (retained_epoch cutoff id live r rs ++ later) ]
        ≡ some kept
      → (later : List (Record F)) × (rest ≡ some later)
        × (retained_epoch cutoff id live r rs ++ later ≡ kept)
  retain_added r rs kept none e = absurd (ground arith)
  retain_added r rs kept (some later) e = (later, refl, ground arith)

  retain_cons :
      (fuel : ℕ) (r : Record F) (rs kept : List (Record F))
      → retain (suc fuel) cutoff id live (r ∷ rs) ≡ some kept
      → (later : List (Record F)) × (retain fuel cutoff id live (from_boot rs) ≡ some later)
        × (retained_epoch cutoff id live r (until_boot rs) ++ later ≡ kept)
  unfolding retain
  retain_cons fuel r rs kept e =
      retain_added r (until_boot rs) kept (retain fuel cutoff id live (from_boot rs)) e

  retain-Ordered :
      (fuel : ℕ) (rs kept : List (Record F))
      → retain fuel cutoff id live rs ≡ some kept
      → (t : ℕ) → Ordered t rs
      → Ordered t kept
  unfolding retain
  retain-Ordered fuel [] kept e t o =
      let same : [] ≡ kept = ground arith in subst (Ordered t) same o
  retain-Ordered zero (r ∷ rs) kept e t o = absurd (ground arith)
  retain-Ordered (suc fuel) (r ∷ rs) kept e t o =
      let (later, f, same) = retain_cons fuel r rs kept e in
      subst (Ordered t) same
        (epoch-Ordered cutoff id live t r rs later (retain-Ordered fuel (from_boot rs) later f) o)

  retain-Within :
      (fuel t : ℕ) (rs kept : List (Record F))
      → Within between rs
      → Ordered t rs
      → retain fuel cutoff id live rs ≡ some kept
      → Within between kept
  unfolding retain until_boot from_boot
  retain-Within fuel t [] kept w o e =
      let same : [] ≡ kept = ground arith in subst (Within between) same w
  retain-Within zero t (r ∷ rs) kept w o e = absurd (ground arith)
  retain-Within (suc fuel) t (boot b ∷ sample m ∷ rs) kept w o e =
      let (later, f, same) = retain_cons fuel (boot b) (sample m ∷ rs) kept e in
      let whole : Ordered b.timestamp (sample m ∷ until_boot rs ++ from_boot rs) =
        (o.1.0, subst (Ordered m.timestamp) (sym (append-until_boot rs)) o.1.1) in
      let behind = Ordered-back b.timestamp (sample m ∷ until_boot rs) (from_boot rs) whole in
      let rest =
        retain-Within fuel b.timestamp (from_boot rs) later (Within-from_boot b.boot_id rs w.1)
          behind f in
      subst (Within between) same (
        epoch-Within cutoff id live b m b.timestamp (until_boot rs) later w.0
          (until_boot-Members b.boot_id rs w.1)
          (Ordered-front b.timestamp (sample m ∷ until_boot rs) (from_boot rs) whole) rest)
  retain-Within (suc fuel) t (boot b ∷ []) kept w o e = absurd w
  retain-Within (suc fuel) t (boot b ∷ boot c ∷ rs) kept w o e = absurd w
  retain-Within (suc fuel) t (boot b ∷ checkpoint c ∷ rs) kept w o e = absurd w
  retain-Within (suc fuel) t (sample m ∷ rs) kept w o e = absurd w
  retain-Within (suc fuel) t (checkpoint c ∷ rs) kept w o e = absurd w

  retain-recent :
      (fuel : ℕ) (rs kept : List (Record F))
      → retain fuel cutoff id live rs ≡ some kept
      → recent cutoff kept ≡ recent cutoff rs
  unfolding retain
  retain-recent fuel [] kept e = let same : kept ≡ [] = ground arith in ap (recent cutoff) same
  retain-recent zero (r ∷ rs) kept e = absurd (ground arith)
  retain-recent (suc fuel) (r ∷ rs) kept e =
      let (later, f, same) = retain_cons fuel r rs kept e in
      rw (
        sym same,
        recent-append cutoff (retained_epoch cutoff id live r (until_boot rs)) later,
        recent_epoch cutoff id live r (until_boot rs),
        retain-recent fuel (from_boot rs) later f,
        sym (recent-append cutoff (r ∷ until_boot rs) (from_boot rs)),
        append-until_boot rs,
      )

  -- What holds of every record holds of those that are kept.
  pub retain-All :
      (P : Record F → Type 0) (fuel : ℕ) (rs kept : List (Record F))
      → All P rs
      → retain fuel cutoff id live rs ≡ some kept
      → All P kept
  unfolding retain
  retain-All P fuel [] kept h e = let same : [] ≡ kept = ground arith in subst (All P) same h
  retain-All P zero (r ∷ rs) kept h e = absurd (ground arith)
  retain-All P (suc fuel) (r ∷ rs) kept h e =
      let (later, f, same) = retain_cons fuel r rs kept e in
      let split =
        All_split P (until_boot rs) (from_boot rs)
          (subst (All P) (sym (append-until_boot rs)) h.1) in
      subst (All P) same (
        All-append P (retained_epoch cutoff id live r (until_boot rs)) later
          (epoch-All cutoff id live P r (until_boot rs) (h.0, split.0))
          (retain-All P fuel (from_boot rs) later split.1 f))

  -- Compaction's loop takes as many turns at most as there are records, and what it keeps of a
  -- history is again a history, in which no record at or after the cutoff is missing.
  pub retained_compaction_records-Canonical :
      (records : List (Record F))
      → Canonical records
      → (kept : List (Record F)) × (retained_compaction_records records cutoff id live ≡ some kept)
        × Canonical kept
        × (recent cutoff kept ≡ recent cutoff records)
  retained_compaction_records-Canonical records (w, o) =
      let (kept, e) = retain_total (length records) records (omega arith) in
      (
        kept,
        e,
        (
          retain-Within (length records) 0 records kept w o e,
          retain-Ordered (length records) records kept e 0 o,
        ),
        retain-recent (length records) records kept e,
      )
