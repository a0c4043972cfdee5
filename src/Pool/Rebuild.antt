-- ===== src/Pool/Rebuild.antt =====
-- `Pool::new` and `Pool::rebuild` of src/pool.rs: what a settings change keeps.
use open_proxy.Common.{
  ℕ, ◌≡◌, refl, sym, ap, subst, ◌∙◌, inl, inr, Bool, true, false, not, ◌||◌, String, Option, none,
  some, List, [], ◌∷◌, ◌++◌, map, arith, length, take, All, Bool-cases, string_eq, ◌==◌,
}
use open_proxy.Common.Count.{count}
use open_proxy.Pool.Lanes.{LaneSpec, Lane}
use open_proxy.Pool.{
  Pool, keep, sort_specs, find, carry, assemble, rebuild, sum, rpms, capacity_rpm, len,
}

-- Some spec has the key.
unfoldable pub names_key : String → List LaneSpec → Bool
names_key k [] = false
names_key k (s ∷ ss) = s.key == k || names_key k ss

names_key-append :
    (k : String) (xs ys : List LaneSpec)
    → names_key k (xs ++ ys) ≡ (names_key k xs || names_key k ys)
unfolding names_key
names_key-append k [] ys = refl
names_key-append k (x ∷ xs) ys = ground (arith, names_key-append k xs ys)

names_key-keep :
    (k : String) (ss : List LaneSpec)
    → (names_key k (keep (λ s. s.enabled) ss) || names_key k (keep (λ s. not s.enabled) ss))
      ≡ names_key k ss
unfolding names_key keep
names_key-keep k [] = refl
names_key-keep k (s ∷ ss) = ground (arith, names_key-keep k ss)

names_key-sort_specs :
    (k : String) (ss : List LaneSpec) → names_key k (sort_specs ss) ≡ names_key k ss
unfolding sort_specs
names_key-sort_specs k ss =
    names_key-append k (keep (λ s. s.enabled) ss) (keep (λ s. not s.enabled) ss)
    ∙ names_key-keep k ss

pub key-carry : (now : ℕ) (s : LaneSpec) (o : Option Lane) → (carry now s o).key ≡ s.key
unfolding carry
key-carry now s none = refl
key-carry now s (some l) = refl

-- The lane with a key holds the window and the cooldown of `prev`.
abbrev pub Holds : String → Lane → List Lane → Type 0
Holds k prev ls =
    (l : Lane) × (find k ls ≡ some l)
    × (l.sent ≡ prev.sent)
    × (l.cooldown_until ≡ prev.cooldown_until)

carry-Holds :
    (now : ℕ) (k : String) (prev : Lane) (old : List Lane) (s : LaneSpec)
    → Holds k prev old
    → s.key ≡ k
    → let l = carry now s (find s.key old) in
      (l.sent ≡ prev.sent) × (l.cooldown_until ≡ prev.cooldown_until)
unfolding carry
carry-Holds now k prev old s (l, e, a, b) q = rw (q, e) (a, b)

find_here :
    (k : String) (l : Lane) (ls : List Lane) → (l.key == k) ≡ true → find k (l ∷ ls) ≡ some l
unfolding find
find_here k l ls e = rw e refl

find_behind :
    (k : String) (l : Lane) (ls : List Lane) → (l.key == k) ≡ false → find k (l ∷ ls) ≡ find k ls
unfolding find
find_behind k l ls e = rw e refl

map-Holds :
    (now : ℕ) (k : String) (prev : Lane) (old : List Lane) (ss : List LaneSpec)
    → Holds k prev old
    → names_key k ss ≡ true
    → Holds k prev (map (λ s. carry now s (find s.key old)) ss)
unfolding names_key
map-Holds now k prev old [] h n = absurd (cc)
map-Holds now k prev old (s ∷ ss) h n = elim (Bool-cases (s.key == k)) [
  | inl e ↦
      let (a, b) = carry-Holds now k prev old s h ((string_eq.beq_iff s.key k).0 e) in
      (
        carry now s (find s.key old),
        find_here k _ _ (rw (key-carry now s (find s.key old)) e),
        a,
        b,
      )
  | inr e ↦
      let (l, f, a, b) = map-Holds now k prev old ss h (ground arith) in
      (l, find_behind k _ _ (rw (key-carry now s (find s.key old)) e) ∙ f, a, b)
]

rebuild-Holds :
    (now : ℕ) (p : Pool) (specs : List LaneSpec) (k : String) (prev : Lane)
    → Holds k prev p.lanes
    → names_key k specs ≡ true
    → Holds k prev (rebuild now p specs).lanes
unfolding rebuild assemble
rebuild-Holds now p specs k prev h n =
    map-Holds now k prev p.lanes (sort_specs specs) h (names_key-sort_specs k specs ∙ n)

-- Settings changes one after another, each with its time and its key specs.
pub rebuilds : Pool → List (ℕ × List LaneSpec) → Pool
rebuilds p [] = p
rebuilds p ((now, specs) ∷ rest) = rebuilds (rebuild now p specs) rest

-- Through any number of settings changes, each of which keeps a key, enabled or disabled and at any
-- rpm, the key's lane keeps the stamps of its window and its cooldown: a disable and a later enable
-- cannot hand the key a fresh window.
pub rebuilds-Holds :
    (p : Pool) (changes : List (ℕ × List LaneSpec)) (k : String) (prev : Lane)
    → find k p.lanes ≡ some prev
    → All (λ c. names_key k c.1 ≡ true) changes
    → Holds k prev (rebuilds p changes).lanes
unfolding rebuilds
rebuilds-Holds p changes k prev e h = from p changes (prev, e, refl, refl) h
  where
    from :
        (p : Pool) (changes : List (ℕ × List LaneSpec))
        → Holds k prev p.lanes
        → All (λ c. names_key k c.1 ≡ true) changes
        → Holds k prev (rebuilds p changes).lanes
    from q [] g h = g
    from q ((now, specs) ∷ rest) g h =
        from (rebuild now q specs) rest (rebuild-Holds now q specs k prev g h.0) h.1

length-keep : (ss : List LaneSpec) → length (keep (λ s. s.enabled) ss) ≡ count (λ s. s.enabled) ss
unfolding keep
length-keep [] = refl
length-keep (s ∷ ss) = ground (arith, length-keep ss)

take-map-append {ℓ κ} :
    {A : Type ℓ} {B : Type κ} (f : A → B) (xs ys : List A)
    → take (length xs) (map f (xs ++ ys)) ≡ map f xs
take-map-append f [] ys = refl
take-map-append f (x ∷ xs) ys = ap (◌∷◌ (f x)) (take-map-append f xs ys)

-- The enabled specs, in the order of the settings.
abbrev pub enabled_specs : List LaneSpec → List LaneSpec
enabled_specs = keep (λ s. s.enabled)

rpm-carried : (now : ℕ) (s : LaneSpec) (o : Option Lane) → (carry now s o).rpm ≡ s.rpm
unfolding carry
rpm-carried now s none = refl
rpm-carried now s (some l) = refl

rpm-carry :
    (now : ℕ) (old : List Lane) (ss : List LaneSpec)
    → map (λ l. l.rpm) (map (λ s. carry now s (find s.key old)) ss) ≡ map (λ s. s.rpm) ss
rpm-carry now old [] = refl
rpm-carry now old (s ∷ ss) =
    ground (arith, rpm-carried now s (find s.key old), rpm-carry now old ss)

pub active_lanes :
    (now : ℕ) (specs : List LaneSpec) (old : List Lane)
    → take
        (count (λ s. s.enabled) specs)
        (map (λ s. carry now s (find s.key old)) (sort_specs specs))
      ≡ map (λ s. carry now s (find s.key old)) (enabled_specs specs)
unfolding sort_specs
active_lanes now specs old =
    subst
      (λ n.
        take n (
          map (λ s. carry now s (find s.key old))
            (enabled_specs specs ++ keep (λ s. not s.enabled) specs))
        ≡ map (λ s. carry now s (find s.key old)) (enabled_specs specs))
      (length-keep specs)
      (take-map-append (λ s. carry now s (find s.key old)) (enabled_specs specs)
        (keep (λ s. not s.enabled) specs))

rpms-rebuild :
    (now : ℕ) (p : Pool) (specs : List LaneSpec)
    → rpms (rebuild now p specs) ≡ map (λ s. s.rpm) (enabled_specs specs)
unfolding rpms rebuild assemble
rpms-rebuild now p specs =
    ap (map (λ l. l.rpm)) (active_lanes now specs p.lanes)
    ∙ rpm-carry now p.lanes (enabled_specs specs)

-- What the rest of the program sees of a pool after a settings change is the enabled keys alone, in
-- their order: as many lanes, their budgets, and the sum of these.
pub rebuild-enabled :
    (now : ℕ) (p : Pool) (specs : List LaneSpec)
    → (len (rebuild now p specs) ≡ length (enabled_specs specs))
      × (rpms (rebuild now p specs) ≡ map (λ s. s.rpm) (enabled_specs specs))
      × (capacity_rpm (rebuild now p specs) ≡ sum (map (λ s. s.rpm) (enabled_specs specs)))
unfolding len capacity_rpm rebuild assemble
rebuild-enabled now p specs =
    (sym (length-keep specs), rpms-rebuild now p specs, ap sum (rpms-rebuild now p specs))
