-- ===== src/History/Sound.antt =====
-- src/history/store.rs: records in the order of time, bounded by the scan's ordering bound.
use open_proxy.Common.{
  ℕ, ◌≤◌, ◌≡◌, refl, String, false, Option, none, some, List, [], ◌∷◌, ◌++◌, All, All-append, arith,
  string_eq,
}
use open_proxy.History.Records.{Record, boot, sample, checkpoint, record_timestamp}
use open_proxy.History.Recovery.{later}
use open_proxy.History.Scanner.{regresses}
use open_proxy.History.Canonical.{Phase, between, opened, usable, Within, Ordered}
use open_proxy.History.Retained.{Members, Within-usable, Ordered-front}

pub le-later : (t : ℕ) (bound : Option ℕ) → t ≤ later t bound
le-later t none = omega arith
le-later t (some b) = ground arith

module _ {F : Type 0} where
  pub Members-append :
      (id : String) (xs zs : List (Record F))
      → Members id xs
      → Within between zs
      → Within (usable id) (xs ++ zs)
  Members-append id [] zs ms w = Within-usable id zs w
  Members-append id (boot b ∷ xs) zs ms w = absurd (ground arith)
  Members-append id (sample m ∷ xs) zs ms w = (ms.0.1, Members-append id xs zs ms.1 w)
  Members-append id (checkpoint c ∷ xs) zs ms w = (ms.0.1, Members-append id xs zs ms.1 w)

  pub Within-append :
      (p : Phase) (xs zs : List (Record F)) → Within p xs → Within between zs → Within p (xs ++ zs)
  Within-append between [] zs w v = v
  Within-append (opened id) [] zs w v = absurd w
  Within-append (usable id) [] zs w v = Within-usable id zs v
  Within-append between (boot b ∷ xs) zs w v = Within-append (opened b.boot_id) xs zs w v
  Within-append (usable id) (boot b ∷ xs) zs w v = Within-append (opened b.boot_id) xs zs w v
  Within-append (opened id) (sample m ∷ xs) zs w v = (w.0, Within-append (usable id) xs zs w.1 v)
  Within-append (usable id) (sample m ∷ xs) zs w v = (w.0, Within-append (usable id) xs zs w.1 v)
  Within-append (usable id) (checkpoint c ∷ xs) zs w v =
      (w.0, Within-append (usable id) xs zs w.1 v)
  Within-append (opened id) (boot b ∷ xs) zs w v = absurd w
  Within-append (opened id) (checkpoint c ∷ xs) zs w v = absurd w
  Within-append between (sample m ∷ xs) zs w v = absurd w
  Within-append between (checkpoint c ∷ xs) zs w v = absurd w

  pub Ordered-snoc :
      (t : ℕ) (xs : List (Record F)) (r : Record F)
      → Ordered t xs
      → t ≤ record_timestamp r
      → All (λ x. record_timestamp x ≤ record_timestamp r) xs
      → Ordered t (xs ++ r ∷ [])
  Ordered-snoc t [] r o le below = (le, tt)
  Ordered-snoc t (x ∷ xs) r o le below =
      (o.0, Ordered-snoc (record_timestamp x) xs r o.1 below.0 below.1)

  All_front : (P : Record F → Type 0) (xs ys : List (Record F)) → All P (xs ++ ys) → All P xs
  All_front P [] ys h = tt
  All_front P (x ∷ xs) ys h = (h.0, All_front P xs ys h.1)

  -- No record is later than the ordering bound.
  abbrev pub Below : Option ℕ → List (Record F) → Type 0
  Below none rs = rs ≡ []
  Below (some bound) rs = All (λ r. record_timestamp r ≤ bound) rs

  Below-front :
      (bound : Option ℕ) (xs ys : List (Record F)) → Below bound (xs ++ ys) → Below bound xs
  Below-front none [] ys h = refl
  Below-front none (x ∷ xs) ys h = absurd (ground arith)
  Below-front (some b) xs ys h = All_front (λ r. record_timestamp r ≤ b) xs ys h

  All_le :
      (t u : ℕ) (xs : List (Record F))
      → t ≤ u
      → All (λ r. record_timestamp r ≤ t) xs
      → All (λ r. record_timestamp r ≤ u) xs
  All_le t u [] le h = tt
  All_le t u (x ∷ xs) le h = (omega arith, All_le t u xs le h.1)

  Below-later :
      (bound : Option ℕ) (t : ℕ) (xs : List (Record F))
      → Below bound xs
      → Below (some (later t bound)) xs
  Below-later none t [] h = tt
  Below-later none t (x ∷ xs) h = absurd (ground arith)
  Below-later (some b) t xs h = All_le b (later t (some b)) xs (ground arith) h

  pub All_both :
      (P Q : Record F → Type 0) (xs : List (Record F))
      → All P xs
      → All Q xs
      → All (λ x. P x × Q x) xs
  All_both P Q [] p q = tt
  All_both P Q (x ∷ xs) p q = ((p.0, q.0), All_both P Q xs p.1 q.1)

  pub Below-time :
      (bound : Option ℕ) (t : ℕ) (xs : List (Record F))
      → regresses t bound ≡ false
      → Below bound xs
      → All (λ r. record_timestamp r ≤ t) xs
  Below-time none t [] e h = tt
  Below-time none t (x ∷ xs) e h = absurd (ground arith)
  Below-time (some b) t xs e h = All_le b t xs (ground arith) h

  module _ (P : Record F → Type 0) where
    abbrev pub Fine : Option ℕ → List (Record F) → Type 0
    Fine bound rs = Ordered 0 rs × Below bound rs × All P rs

    pub Fine-front :
        (bound : Option ℕ) (xs ys : List (Record F)) → Fine bound (xs ++ ys) → Fine bound xs
    Fine-front bound xs ys (o, below, all) =
        (Ordered-front 0 xs ys o, Below-front bound xs ys below, All_front P xs ys all)

    pub Fine-later :
        (bound : Option ℕ) (t : ℕ) (xs : List (Record F))
        → Fine bound xs
        → Fine (some (later t bound)) xs
    Fine-later bound t xs (o, below, all) = (o, Below-later bound t xs below, all)

    pub Fine-snoc :
        (bound : Option ℕ) (xs : List (Record F)) (r : Record F)
        → regresses (record_timestamp r) bound ≡ false
        → P r
        → Fine bound xs
        → Fine (some (later (record_timestamp r) bound)) (xs ++ r ∷ [])
    Fine-snoc bound xs r e p (o, below, all) =
        let t = record_timestamp r in
        (
          Ordered-snoc 0 xs r o (omega arith) (Below-time bound t xs e below),
          All-append (λ x. record_timestamp x ≤ later t bound) xs (r ∷ [])
              (Below-later bound t xs below) (le-later t bound, tt),
          All-append P xs (r ∷ []) all (p, tt),
        )
