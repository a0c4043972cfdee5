-- ===== src/Settings/Edits.antt =====
-- The list operations of the settings handlers: the first entry that passes a test is read, changed
-- in place or removed.
use open_proxy.Common.{Bool, Option, none, some, List, [], ◌∷◌, if◌then◌else◌}

module _ {ℓ} {A : Type ℓ} (p : A → Bool) where
  -- `iter().find(p)`
  unfoldable pub find_first : List A → Option A
  find_first [] = none
  find_first (x ∷ xs) = let rest = find_first xs in if p x then some x else rest

  -- `iter_mut().find(p)` and a write through it
  unfoldable pub update_first : (A → A) → List A → List A
  update_first f [] = []
  update_first f (x ∷ xs) = let rest = update_first f xs in if p x then f x ∷ xs else x ∷ rest

  -- `remove(position(p))`
  unfoldable pub remove_first : List A → List A
  remove_first [] = []
  remove_first (x ∷ xs) = let rest = remove_first xs in if p x then xs else x ∷ rest

  -- `retain(p)`
  unfoldable pub retain : List A → List A
  retain [] = []
  retain (x ∷ xs) = let rest = retain xs in if p x then x ∷ rest else rest

-- `unwrap_or`
unfoldable pub unwrap_or {ℓ} : {A : Type ℓ} → Option A → A → A
unwrap_or none d = d
unwrap_or (some a) d = a

-- `if let Some(a) = option { .. }`
unfoldable pub if_given {ℓ κ} : {A : Type ℓ} {B : Type κ} → Option A → (A → B → B) → B → B
if_given none write b = b
if_given (some a) write b = write a b
