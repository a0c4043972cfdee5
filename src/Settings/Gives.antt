-- ===== src/Settings/Gives.antt =====
-- What holds of every candidate that a handler of src/settings.rs hands to `commit`.
use open_proxy.Common.{
  ℕ, String, Bool, true, false, ◌≡◌, refl, sym, subst, inl, inr, Option, none, some, Result, err,
  ok, ◌>>=◌, Bool-cases, Result-cases, if◌then◌else◌,
}
use open_proxy.Config.Types.{StoredConfig, Role}
use open_proxy.Config.Views.{is_admin}
use open_proxy.Config.Validate.{validate}
use open_proxy.Settings.State.{
  Server, Response, Flush, flush, settle, answer, commit, on_valid, on_saved, save, publish,
  with_role, role_of, admin_only,
}
use open_proxy.Settings.Edits.{if_given}

-- A result's candidate, where there is one, has the property.
abbrev pub Gives {ℓ} : {E A : Type ℓ} → (A → Type 0) → Result E A → Type 0
Gives P (err e) = Unit
Gives P (ok a) = P a

pub by_if {ℓ} :
    {E A : Type ℓ} (P : A → Type 0) (t : Bool) (x y : Result E A)
    → ((t ≡ true) → Gives P x)
    → ((t ≡ false) → Gives P y)
    → Gives P (if t then x else y)
by_if P true x y h g = h refl
by_if P false x y h g = g refl

pub by_step {ℓ} :
    {E A B : Type ℓ} (P : B → Type 0) (r : Result E A) (next : A → Result E B)
    → ((a : A) → Gives P (next a))
    → Gives P (r >>= next)
by_step P (err e) next h = tt
by_step P (ok a) next h = h a

pub by_given {ℓ} :
    {A : Type ℓ} {B : Type 0} (P : B → Type 0) (o : Option A) (write : A → B → B) (b : B)
    → ((a : A) (c : B) → P c → P (write a c))
    → P b
    → P (if_given o write b)
unfolding if_given
by_given P none write b h start = start
by_given P (some a) write b h start = h a b start

pub by_role :
    (P : StoredConfig → Type 0) (o : Option Role) (next : Role → Result Response StoredConfig)
    → ((r : Role) → o ≡ some r → Gives P (next r))
    → Gives P (with_role o next)
unfolding with_role
by_role P none next h = tt
by_role P (some r) next h = h r refl

pub by_admin :
    (P : StoredConfig → Type 0) (sc : StoredConfig) (username : String)
    (next : Result Response StoredConfig)
    → ((r : Role) → role_of sc username ≡ some r → is_admin r ≡ true → Gives P next)
    → Gives P (admin_only sc username next)
unfolding admin_only
by_admin P sc username next h =
    by_role P (role_of sc username) _ (λ r known. by_if P (is_admin r) _ _ (h r known) (λ off. tt))

store-flush : (f : Flush) (s : Server) → (flush f s).store ≡ s.store
unfolding flush
store-flush Flush.nothing s = refl
store-flush Flush.catalog_only s = refl
store-flush Flush.upstream_caches s = refl
store-flush Flush.scraper_memo s = refl
store-flush Flush.claim s = refl

-- The store after a call is the one before, or the candidate.
pub store-settle :
    (P : StoredConfig → Type 0) (saved : Bool) (now : ℕ) (done : Response) (f : Flush) (s : Server)
    (e : Result Response StoredConfig)
    → P s.store
    → Gives P e
    → P (settle saved now done f s e).1.store
unfolding settle answer commit on_valid on_saved save publish
store-settle P saved now done f s (err early) before cand = before
store-settle P saved now done f s (ok c) before cand = elim (Result-cases (validate c)) [
  | inl (e, q) ↦ rw (q) before
  | inr (a, q) ↦ elim (Bool-cases saved) [
    | inl on ↦ rw (q, on) (subst P (sym (store-flush f _)) cand)
    | inr off ↦ rw (q, off) before
  ]
]
