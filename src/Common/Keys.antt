-- ===== src/Common/Keys.antt =====
-- Equality as an interface, and the sets and maps that the program keys by it: a `HashSet` or
-- `BTreeSet` as a list without repetition, a `HashMap` or `BTreeMap` as an association list.
use Prim.Native.Nat.{ℕ}
use Prim.Native.String.{String}
use mathlib.Core.Path.{◌≡◌, refl}
use mathlib.Core.Logic.{◌↔◌}
use mathlib.Core.Bool.{Bool, true, false, ◌&&◌, ◌||◌}
use mathlib.Core.List.{List, [], ◌∷◌}
use mathlib.Core.Option.{Option, none, some}
use native.Mathlib.Omega.{arith}
use text.Mathlib.Text.{◌==◌ as str_eq}
use text.Mathlib.TextEquality.{eq_iff}
use open_proxy.Common.Tests.{nat_beq, nat_beq_iff, if◌then◌else◌}

-- A test for equality, and what makes it one.
pub record Eq {ℓ} (K : Type ℓ) : Type ℓ where
  pub beq : (x y : K) → Bool
  pub beq_iff : (x y : K) → (beq x y ≡ true) ↔ (x ≡ y)

infix 50 ◌==◌
abbrev pub ◌==◌ {ℓ} : {K : Type ℓ} ⦃same : Eq K⦄ (x y : K) → Bool
◌==◌ ⦃same⦄ x y = same.beq x y

instance abbrev pub nat_eq : Eq ℕ
nat_eq = record { beq = nat_beq; beq_iff = nat_beq_iff }

instance abbrev pub string_eq : Eq String
string_eq = record { beq = str_eq; beq_iff = eq_iff }

-- The set operations that the program uses.
module _ {ℓ} {A : Type ℓ} ⦃e : Eq A⦄ where
  unfoldable pub contains : List A → A → Bool
  contains [] a = false
  contains (x ∷ xs) a = x == a || contains xs a

-- Maps. `update` replaces the value in place; `insert` adds a missing key at the end.
module _ {ℓ κ} {K : Type ℓ} {V : Type κ} ⦃e : Eq K⦄ where
  unfoldable pub lookup : K → List (K × V) → Option V
  lookup key [] = none
  lookup key ((name, held) ∷ rest) = if name == key then some held else lookup key rest

  unfoldable pub insert : K → V → List (K × V) → List (K × V)
  insert key new [] = (key, new) ∷ []
  insert key new ((name, held) ∷ rest) =
      if name == key then (name, new) ∷ rest else (name, held) ∷ insert key new rest

  pub lookup-insert :
      (key asked : K) (new : V) (map : List (K × V))
      → lookup asked (insert key new map) ≡ (if key == asked then some new else lookup asked map)
  unfolding lookup insert
  lookup-insert key asked new [] = refl
  lookup-insert key asked new ((name, held) ∷ rest) =
      let later = lookup-insert key asked new rest in
      ground (arith, e.beq_iff key asked, e.beq_iff name key, e.beq_iff name asked)

  pub lookup-insert_self :
      (key : K) (new : V) (map : List (K × V)) → lookup key (insert key new map) ≡ some new
  lookup-insert_self key new map = rw (lookup-insert, (e.beq_iff key key).1 refl)

-- The derived equality of a pair and of a list.
module _ {ℓ κ} {A : Type ℓ} {B : Type κ} ⦃a : Eq A⦄ ⦃b : Eq B⦄ where
  abbrev pub product_beq : (x y : A × B) → Bool
  product_beq x y = a.beq x.0 y.0 && b.beq x.1 y.1

  pub product_beq_iff : (x y : A × B) → (product_beq x y ≡ true) ↔ (x ≡ y)
  product_beq_iff x y = ground (arith, a.beq_iff x.0 y.0, b.beq_iff x.1 y.1)

  instance abbrev pub product_eq : Eq (A × B)
  product_eq = record { beq = product_beq; beq_iff = product_beq_iff }

module _ {ℓ} {A : Type ℓ} ⦃a : Eq A⦄ where
  abbrev pub list_beq : (xs ys : List A) → Bool
  list_beq [] [] = true
  list_beq [] (y ∷ ys) = false
  list_beq (x ∷ xs) [] = false
  list_beq (x ∷ xs) (y ∷ ys) = a.beq x y && list_beq xs ys

  pub list_beq_iff : (xs ys : List A) → (list_beq xs ys ≡ true) ↔ (xs ≡ ys)
  list_beq_iff [] [] = (λ h. refl, λ h. refl)
  list_beq_iff [] (y ∷ ys) = (λ h. cc, λ h. cc)
  list_beq_iff (x ∷ xs) [] = (λ h. cc, λ h. cc)
  list_beq_iff (x ∷ xs) (y ∷ ys) = ground (arith, a.beq_iff x y, list_beq_iff xs ys)

  instance abbrev pub list_eq : Eq (List A)
  list_eq = record { beq = list_beq; beq_iff = list_beq_iff }
