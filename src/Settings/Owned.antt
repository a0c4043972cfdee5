-- ===== src/Settings/Owned.antt =====
-- What a user of src/settings.rs that is no administrator may write: its own keys, its own client
-- keys, its password and its locale.
use open_proxy.Common.{
  String, Bool, true, false, not, ◌≡◌, refl, ap, ◌∙◌, inl, inr, Option, none, some, List, [], ◌∷◌,
  ◌++◌, map, ◌==◌, string_eq, Bool-cases, if◌then◌else◌, arith,
}
use open_proxy.Config.Types.{NimKey, User, UpstreamEndpoint, StoredConfig}
use open_proxy.Settings.Edits.{find_first, update_first, remove_first, retain}
use open_proxy.Settings.NimKeys.{edit_group, edit_groups}

abbrev pub not_own : String → String → Bool
not_own username owner = not (owner == username)

abbrev pub others_keys : String → UpstreamEndpoint → UpstreamEndpoint
others_keys username ep = record ep { keys = retain (λ k. not_own username k.owner) ep.keys }

abbrev pub others_user : String → User → User
others_user username u =
    if u.username == username then record u { password_hash = ""; locale = none } else u

-- The store without what the user owns: its keys, its client keys, its hash and its preference.
unfoldable pub others : String → StoredConfig → StoredConfig
others username sc = record sc {
  users = map (others_user username) sc.users;
  upstream = record sc.upstream {
    nim_keys = retain (λ k. not_own username k.owner) sc.upstream.nim_keys;
  };
  upstreams = map (others_keys username) sc.upstreams;
  client_auth = record sc.client_auth {
    keys = retain (λ c. not_own username c.owner) sc.client_auth.keys;
  };
}

pub own_test : (username owner : String) → owner ≡ username → not_own username owner ≡ false
own_test username owner e = ground (arith, string_eq.beq_iff owner username)

module _ {ℓ} {A : Type ℓ} (p : A → Bool) where
  pub retain-append : (xs : List A) (x : A) → p x ≡ false → retain p (xs ++ x ∷ []) ≡ retain p xs
  unfolding retain
  retain-append [] x e = rw (e) refl
  retain-append (y ∷ xs) x e = let rest = retain-append xs x e in ground arith

  pub retain-remove_first :
      (q : A → Bool) (xs : List A) (k : A)
      → find_first q xs ≡ some k
      → p k ≡ false
      → retain p (remove_first q xs) ≡ retain p xs
  unfolding retain remove_first find_first
  retain-remove_first q [] k e own = absurd (cc)
  retain-remove_first q (x ∷ xs) k e own = elim (Bool-cases (q x)) [
    | inl here ↦
        let same : x ≡ k = ground arith in let mine : p x ≡ false = ap p same ∙ own in ground arith
    | inr later ↦ let rest = retain-remove_first q xs k (ground arith) own in ground arith
  ]

  pub retain-update_first :
      (q : A → Bool) (f : A → A) (xs : List A) (k : A)
      → find_first q xs ≡ some k
      → p k ≡ false
      → ((x : A) → p (f x) ≡ p x)
      → retain p (update_first q f xs) ≡ retain p xs
  unfolding retain update_first find_first
  retain-update_first q f [] k e own keeps = absurd (cc)
  retain-update_first q f (x ∷ xs) k e own keeps = elim (Bool-cases (q x)) [
    | inl here ↦
        let same : x ≡ k = ground arith in
        let mine : p x ≡ false = ap p same ∙ own in
        let after : p (f x) ≡ false = keeps x ∙ mine in ground arith
    | inr later ↦ let rest = retain-update_first q f xs k (ground arith) own keeps in ground arith
  ]

pub map-update_first {ℓ κ} :
    {A : Type ℓ} {B : Type κ} (g : A → B) (q : A → Bool) (f : A → A) (xs : List A)
    → ((x : A) → q x ≡ true → g (f x) ≡ g x)
    → map g (update_first q f xs) ≡ map g xs
unfolding update_first
map-update_first g q f [] same = refl
map-update_first g q f (x ∷ xs) same = elim (Bool-cases (q x)) [
  | inl here ↦ let head = same x here in ground arith
  | inr later ↦ let rest = map-update_first g q f xs same in ground arith
]

-- A change of a group's keys that touches the user's own alone.
abbrev pub Touches : String → (NimKey → Bool) → (List NimKey → List NimKey) → Type 0
Touches username p change =
    (ks : List NimKey) (k : NimKey)
    → find_first p ks ≡ some k
    → k.owner ≡ username
    → retain (λ l. not_own username l.owner) (change ks) ≡ retain (λ l. not_own username l.owner) ks

module _ (username : String) (p : NimKey → Bool) (change : List NimKey → List NimKey)
    (touches : Touches username p change) where
  abbrev pub Edited : List UpstreamEndpoint → Option (NimKey × List UpstreamEndpoint) → Type 0
  Edited eps none = Unit
  Edited eps (some (k, changed)) =
      k.owner ≡ username → map (others_keys username) changed ≡ map (others_keys username) eps

  edit_group-Edited :
      (ep : UpstreamEndpoint) (eps : List UpstreamEndpoint)
      (later : Option (NimKey × List UpstreamEndpoint)) (found : Option NimKey)
      → Edited eps later
      → find_first p ep.keys ≡ found
      → Edited (ep ∷ eps) (edit_group p change ep eps later found)
  unfolding edit_group
  edit_group-Edited ep eps later (some k) h e = λ own.
      ap (λ ks. record ep { keys = ks } ∷ map (others_keys username) eps) (touches ep.keys k e own)
  edit_group-Edited ep eps none none h e = tt
  edit_group-Edited ep eps (some (k, rest)) none h e =
      λ own. ap (λ r. others_keys username ep ∷ r) (h own)

  pub edit_groups-Edited : (eps : List UpstreamEndpoint) → Edited eps (edit_groups p change eps)
  unfolding edit_groups
  edit_groups-Edited [] = tt
  edit_groups-Edited (ep ∷ eps) =
      edit_group-Edited ep eps (edit_groups p change eps) _ (edit_groups-Edited eps) refl
