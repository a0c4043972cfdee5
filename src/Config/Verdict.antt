-- ===== src/Config/Verdict.antt =====
-- The checks of `validate` in src/config.rs as values: what a failed check says, checks one after
-- another as `?` puts them, and the loops that remember the names they have seen in a `HashSet`.
use open_proxy.Common.{
  String, ◌≡◌, refl, ◌↔◌, Bool, true, false, not, List, [], ◌∷◌, map, Result, err, ok, contains,
  string_eq, ◌==◌, All, arith,
}

-- A constructor for each of the messages.
pub data Rejection : Type 0 where
  wrong_version locale_spelling locale_not_installed locale_malformed heartbeat_zero : Rejection
  wait_too_short timeout_zero inflight_zero window_zero history_too_short bad_slo : Rejection
  no_scheme link_local bad_model duplicate_model bad_upstream_name reserved_upstream : Rejection
  duplicate_upstream too_many_disabled bad_username duplicate_username empty_hash : Rejection
  two_superusers empty_key duplicate_key bad_rpm bad_client_name duplicate_client : Rejection
  bad_digest bad_override key_without_user client_without_user no_pool_floor : Rejection

-- `Result<(), String>`
abbrev pub Verdict : Type 0
Verdict = Result Rejection (Unit {0})

-- `if !test { return Err(..) }`
unfoldable pub require : Bool → Rejection → Verdict
require true e = ok tt
require false e = err e

-- `first?; second`
infixr 6 ◌>>◌
unfoldable pub ◌>>◌ : Verdict → Verdict → Verdict
err e >> second = err e
ok a >> second = second

-- A pair of a check's meaning and the meaning of those after it.
infixr 3 ◌and◌
abbrev pub ◌and◌ : Type 0 → Type 0 → Type 0
A and B = A × B

abbrev pub Passes : Verdict → Type 0
Passes v = v ≡ ok tt

pub require-Passes : (t : Bool) (e : Rejection) → Passes (require t e) ↔ (t ≡ true)
unfolding require
require-Passes true e = (λ h. refl, λ h. refl)
require-Passes false e = (λ h. cc, λ h. cc)

pub then_iff :
    {A B : Type 0} (first second : Verdict)
    → (Passes first ↔ A)
    → (Passes second ↔ B)
    → Passes (first >> second) ↔ (A and B)
unfolding ◌>>◌
then_iff (err e) second p q = (λ h. absurd (cc), λ h. let f = p.1 h.0 in absurd (cc))
then_iff (ok tt) second p q = (λ h. (p.0 refl, q.0 h), λ h. q.1 h.1)

-- A `for` loop of checks.
unfoldable pub each {ℓ} : {A : Type ℓ} → (A → Verdict) → List A → Verdict
each check [] = ok tt
each check (x ∷ xs) = check x >> each check xs

pub each-Passes {ℓ} :
    {A : Type ℓ} {Good : A → Type 0} (check : A → Verdict) (xs : List A)
    → ((x : A) → Passes (check x) ↔ Good x)
    → Passes (each check xs) ↔ All Good xs
unfolding each
each-Passes check [] h = (λ p. tt, λ p. refl)
each-Passes check (x ∷ xs) h = then_iff (check x) (each check xs) (h x) (each-Passes check xs h)

-- A `for` loop that checks each entry, refuses a name that it has seen, and checks further.
module _ {ℓ} {A : Type ℓ} (name : A → String) (duplicate : Rejection)
    (early late : A → Verdict) where
  unfoldable pub each_new : List String → List A → Verdict
  each_new seen [] = ok tt
  each_new seen (x ∷ xs) =
      early x
      >> require (not (contains seen (name x))) duplicate
      >> late x
      >> each_new (name x ∷ seen) xs

-- No name stands twice.
abbrev pub Distinct : List String → Type 0
Distinct [] = Unit
Distinct (x ∷ xs) = (contains xs x ≡ false) × Distinct xs

-- No name is among those seen.
abbrev pub Apart : List String → List String → Type 0
Apart seen = All (λ x. contains seen x ≡ false)

not-true : (t : Bool) → (not t ≡ true) ↔ (t ≡ false)
not-true true = (λ h. cc, λ h. cc)
not-true false = (λ h. refl, λ h. refl)

same_sym : (x y : String) → (x == y) ≡ (y == x)
same_sym x y = ground (arith, string_eq.beq_iff x y, string_eq.beq_iff y x)

pub Apart-cons :
    (x : String) (seen xs : List String)
    → Apart (x ∷ seen) xs ↔ ((contains xs x ≡ false) × Apart seen xs)
unfolding contains
Apart-cons x seen [] = (λ h. (refl, tt), λ h. tt)
Apart-cons x seen (y ∷ ys) = let rest = Apart-cons x seen ys in ground (arith, rest, same_sym x y)

pub Apart-nil : (xs : List String) → Apart [] xs
unfolding contains
Apart-nil [] = tt
Apart-nil (x ∷ xs) = (refl, Apart-nil xs)

module _ {ℓ} {A : Type ℓ} {Early Late : A → Type 0} (name : A → String) (duplicate : Rejection)
    (early late : A → Verdict) (early_iff : (x : A) → Passes (early x) ↔ Early x)
    (late_iff : (x : A) → Passes (late x) ↔ Late x) where
  pub each_new-Passes :
      (seen : List String) (xs : List A)
      → Passes (each_new name duplicate early late seen xs)
        ↔ (All (λ x. Early x × Late x) xs and Apart seen (map name xs) and Distinct (map name xs))
  unfolding each_new
  each_new-Passes seen [] = (λ h. (tt, (tt, tt)), λ h. refl)
  each_new-Passes seen (x ∷ xs) =
      let fresh = require-Passes (not (contains seen (name x))) duplicate in
      let rest = each_new-Passes (name x ∷ seen) xs in
      let whole =
        then_iff _ _ (early_iff x) (then_iff _ _ fresh (then_iff _ _ (late_iff x) rest)) in
      let apart = Apart-cons (name x) seen (map name xs) in
      let unseen = not-true (contains seen (name x)) in
      (
        λ h.
            let (e, (f, (l, (good, (away, own))))) = whole.0 h in
            let (new, far) = apart.0 away in (((e, l), good), ((unseen.0 f, far), (new, own))),
        λ h.
            let (((e, l), good), ((f, far), (new, own))) = h in
            whole.1 (e, (unseen.1 f, (l, (good, (apart.1 (new, far), own))))),
      )

module _ {ℓ} {A : Type ℓ} {Good : A → Type 0} (name : A → String) (duplicate : Rejection)
    (early late : A → Verdict)
    (good_iff : (x : A) → (Passes (early x) × Passes (late x)) ↔ Good x) where
  all_good : (xs : List A) → All (λ x. Passes (early x) × Passes (late x)) xs ↔ All Good xs
  all_good [] = (λ h. tt, λ h. tt)
  all_good (x ∷ xs) =
      let here = good_iff x in
      let rest = all_good xs in (λ h. (here.0 h.0, rest.0 h.1), λ h. (here.1 h.0, rest.1 h.1))

  -- The loop passes when every entry is good, none has a name among those seen, and no two share one.
  pub each_new-Good :
      (seen : List String) (xs : List A)
      → Passes (each_new name duplicate early late seen xs)
        ↔ (All Good xs and Apart seen (map name xs) and Distinct (map name xs))
  each_new-Good seen xs =
      let loop =
        each_new-Passes name duplicate early late (λ x. (λ h. h, λ h. h)) (λ x. (λ h. h, λ h. h))
          seen xs in
      let good = all_good xs in
      (λ p. let h = loop.0 p in (good.0 h.0, h.1), λ h. loop.1 (good.1 h.0, h.1))

  -- Where none has been seen, the names have to differ from each other only.
  pub each_new-Distinct :
      (xs : List A)
      → Passes (each_new name duplicate early late [] xs) ↔ (All Good xs and Distinct (map name xs))
  each_new-Distinct xs =
      let loop = each_new-Good [] xs in
      (λ p. let h = loop.0 p in (h.0, h.1.1), λ h. loop.1 (h.0, (Apart-nil (map name xs), h.1)))
