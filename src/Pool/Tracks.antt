-- ===== src/Pool/Tracks.antt =====
-- A lane beside the full list of its stamps, of which it keeps those in the window.
use open_proxy.Common.{
  ℕ, zero, suc, ◌+◌, ◌≤◌, ◌<◌, ◌≡◌, refl, sym, ap, ◌∙◌, inl, inr, List, [], ◌∷◌, ◌++◌, append_assoc,
  arith, length, All, All-append, Bool-cases, contains, nat_eq, subst, get_elem?, set, some,
}
use open_proxy.Pool.Lanes.{Lane, window, prune, pruned, taken, remove_last}
use open_proxy.Pool.Pace.{
  Paced, Sorted, Expired, prune-split, Paced-grant, Paced-remove_last, remove_last-append,
  All-remove_last, Sorted-remove_last, Sorted-snoc, remove_last_absent,
}
use open_proxy.Pool.Step.{Settles, Takes, Settled, Granted}

-- A key's lane and all its stamps so far, the returned ones left out. `clock` is the time of the last call,
-- and `rate` bounds what the lane may send in a window.
pub record Tracks (rate clock : ℕ) (l : Lane) (h : List ℕ) : Type 0 where
  pub old : List ℕ
  pub split : h ≡ old ++ l.sent
  pub gone : Expired clock old
  pub within : l.rpm ≤ rate
  pub paced : Paced rate h
  pub sorted : Sorted h
  pub past : All (λ t. t ≤ clock) h

All-mono {ℓ} :
    {A : Type ℓ} (P Q : A → Type 0) (xs : List A) → ((a : A) → P a → Q a) → All P xs → All Q xs
All-mono P Q [] f h = tt
All-mono P Q (x ∷ xs) f h = (f x h.0, All-mono P Q xs f h.1)

pub Tracks-later :
    (rate clock now : ℕ) (l : Lane) (h : List ℕ)
    → clock ≤ now
    → Tracks rate clock l h
    → Tracks rate now l h
Tracks-later rate clock now l h le t = record {
  old = t.old;
  split = t.split;
  gone = All-mono _ _ t.old (λ a x. omega arith) t.gone;
  within = t.within;
  paced = t.paced;
  sorted = t.sorted;
  past = All-mono _ _ h (λ a x. omega arith) t.past;
}

pub Tracks-pruned :
    (rate now : ℕ) (l : Lane) (h : List ℕ) → Tracks rate now l h → Tracks rate now (pruned now l) h
Tracks-pruned rate now l h t =
    let (out, e, x) = prune-split now l.sent in
    record {
      old = t.old ++ out;
      split = t.split ∙ (ap (◌++◌ t.old) e ∙ sym (append_assoc t.old out (prune now l.sent)));
      gone = All-append (λ t. t + window ≤ now) t.old out t.gone x;
      within = t.within;
      paced = t.paced;
      sorted = t.sorted;
      past = t.past;
    }

pub Tracks-taken :
    (rate now : ℕ) (l : Lane) (h : List ℕ)
    → length (prune now l.sent) < l.rpm
    → Tracks rate now l h
    → Tracks rate now (taken now l) (h ++ now ∷ [])
Tracks-taken rate now l h room t =
    let p : Tracks rate now (pruned now l) h = Tracks-pruned rate now l h t in
    record {
      old = p.old;
      split = ap (λ x. x ++ now ∷ []) p.split ∙ append_assoc p.old (prune now l.sent) (now ∷ []);
      gone = p.gone;
      within = p.within;
      paced = rw p.split (
          Paced-grant rate now p.old (prune now l.sent) p.gone (omega (arith, p.within))
            (rw p.split at p.paced));
      sorted = Sorted-snoc now h p.sorted p.past;
      past = All-append (λ t. t ≤ now) h (now ∷ []) p.past (omega arith, tt);
    }

pub Tracks-released :
    (rate clock : ℕ) (l : Lane) (h : List ℕ) (stamp : ℕ)
    → Tracks rate clock l h
    → Tracks rate clock (record l { sent = remove_last stamp l.sent }) (remove_last stamp h)
Tracks-released rate clock l h stamp t = elim (Bool-cases (contains l.sent stamp)) [
  | inl e ↦ record {
    old = t.old;
    split = rw (t.split, remove_last-append, e) refl;
    gone = t.gone;
    within = t.within;
    paced = Paced-remove_last rate stamp h t.paced;
    sorted = Sorted-remove_last stamp h t.sorted;
    past = All-remove_last (λ t. t ≤ clock) stamp h t.past;
  }
  | inr e ↦ record {
    old = remove_last stamp t.old;
    split = rw (t.split, remove_last-append, e, remove_last_absent stamp l.sent e) refl;
    gone = All-remove_last (λ t. t + window ≤ clock) stamp t.old t.gone;
    within = t.within;
    paced = Paced-remove_last rate stamp h t.paced;
    sorted = Sorted-remove_last stamp h t.sorted;
    past = All-remove_last (λ t. t ≤ clock) stamp h t.past;
  }
]

Tracks-Settles :
    (now : ℕ) (l l' : Lane) (h : List ℕ)
    → Settles now l l'
    → Tracks l.rpm now l h
    → Tracks l'.rpm now l' h
Tracks-Settles now l l' h (inl e) t = subst (λ x. Tracks x.rpm now x h) (sym e) t
Tracks-Settles now l l' h (inr e) t =
    subst (λ x. Tracks x.rpm now x h) (sym e) (Tracks-pruned l.rpm now l h t)

Tracks-Takes :
    (now : ℕ) (l l' : Lane) (h : List ℕ)
    → Takes now l l'
    → Tracks l.rpm now l h
    → Tracks l'.rpm now l' (h ++ now ∷ [])
Tracks-Takes now l l' h (cool, room, e) t =
    subst (λ x. Tracks x.rpm now x (h ++ now ∷ [])) (sym e) (Tracks-taken l.rpm now l h room t)

-- The lanes of a pool beside the histories of its keys, each at its own rate.
abbrev pub TracksAll : ℕ → List Lane → List (List ℕ) → Type 0
TracksAll clock [] [] = Unit
TracksAll clock [] (h ∷ hs) = ⊥
TracksAll clock (l ∷ ls) [] = ⊥
TracksAll clock (l ∷ ls) (h ∷ hs) = Tracks l.rpm clock l h × TracksAll clock ls hs

pub TracksAll-later :
    (clock now : ℕ) (ls : List Lane) (hs : List (List ℕ))
    → clock ≤ now
    → TracksAll clock ls hs
    → TracksAll now ls hs
TracksAll-later clock now [] [] le t = tt
TracksAll-later clock now [] (h ∷ hs) le t = t
TracksAll-later clock now (l ∷ ls) [] le t = t
TracksAll-later clock now (l ∷ ls) (h ∷ hs) le t =
    (Tracks-later l.rpm clock now l h le t.0, TracksAll-later clock now ls hs le t.1)

-- `hs[i].push(stamp)` on a history.
unfoldable pub append_at : ℕ → ℕ → List (List ℕ) → List (List ℕ)
append_at i stamp [] = []
append_at zero stamp (h ∷ hs) = (h ++ stamp ∷ []) ∷ hs
append_at (suc i) stamp (h ∷ hs) = h ∷ append_at i stamp hs

pub remove_from : ℕ → ℕ → List (List ℕ) → List (List ℕ)
remove_from i stamp [] = []
remove_from zero stamp (h ∷ hs) = remove_last stamp h ∷ hs
remove_from (suc i) stamp (h ∷ hs) = h ∷ remove_from i stamp hs

pub TracksAll-Settled :
    (now : ℕ) (ls ls' : List Lane) (hs : List (List ℕ))
    → Settled now ls ls'
    → TracksAll now ls hs
    → TracksAll now ls' hs
TracksAll-Settled now [] [] hs s t = t
TracksAll-Settled now [] (l' ∷ ls') hs s t = absurd s
TracksAll-Settled now (l ∷ ls) [] hs s t = absurd s
TracksAll-Settled now (l ∷ ls) (l' ∷ ls') [] s t = t
TracksAll-Settled now (l ∷ ls) (l' ∷ ls') (h ∷ hs) s t =
    (Tracks-Settles now l l' h s.0 t.0, TracksAll-Settled now ls ls' hs s.1 t.1)

pub TracksAll-Granted :
    (now i : ℕ) (ls ls' : List Lane) (hs : List (List ℕ))
    → Granted now i ls ls'
    → TracksAll now ls hs
    → TracksAll now ls' (append_at i now hs)
unfolding append_at
TracksAll-Granted now i [] ls' hs g t = absurd g
TracksAll-Granted now i (l ∷ ls) [] hs g t = absurd g
TracksAll-Granted now i (l ∷ ls) (l' ∷ ls') [] g t = absurd t
TracksAll-Granted now zero (l ∷ ls) (l' ∷ ls') (h ∷ hs) g t =
    (Tracks-Takes now l l' h g.0 t.0, TracksAll-Settled now ls ls' hs g.1 t.1)
TracksAll-Granted now (suc i) (l ∷ ls) (l' ∷ ls') (h ∷ hs) g t =
    (Tracks-Settles now l l' h g.0 t.0, TracksAll-Granted now i ls ls' hs g.1 t.1)

pub TracksAll-released :
    (clock i stamp : ℕ) (ls : List Lane) (hs : List (List ℕ)) (l : Lane)
    → get_elem? ls i ≡ some l
    → TracksAll clock ls hs
    → TracksAll clock
        (set ls i (record l { sent = remove_last stamp l.sent }))
        (remove_from i stamp hs)
unfolding remove_from
TracksAll-released clock i stamp [] hs l e t = absurd (ground arith)
TracksAll-released clock i stamp (x ∷ ls) [] l e t = absurd t
TracksAll-released clock zero stamp (x ∷ ls) (h ∷ hs) l e t =
    let q : x ≡ l = cc in
    (Tracks-released l.rpm clock l h stamp (subst (λ y. Tracks y.rpm clock y h) q t.0), t.1)
TracksAll-released clock (suc i) stamp (x ∷ ls) (h ∷ hs) l e t =
    (t.0, TracksAll-released clock i stamp ls hs l e t.1)

-- A change of the cooldown alone.
pub TracksAll-cooled :
    (clock i until : ℕ) (ls : List Lane) (hs : List (List ℕ)) (l : Lane)
    → get_elem? ls i ≡ some l
    → TracksAll clock ls hs
    → TracksAll clock (set ls i (record l { cooldown_until = until })) hs
TracksAll-cooled clock i until [] hs l e t = absurd (ground arith)
TracksAll-cooled clock i until (x ∷ ls) [] l e t = absurd t
TracksAll-cooled clock zero until (x ∷ ls) (h ∷ hs) l e t =
    let q : x ≡ l = cc in
    let y : Tracks l.rpm clock l h = subst (λ y. Tracks y.rpm clock y h) q t.0 in
    (
      record {
        old = y.old;
        split = y.split;
        gone = y.gone;
        within = y.within;
        paced = y.paced;
        sorted = y.sorted;
        past = y.past;
      },
      t.1,
    )
TracksAll-cooled clock (suc i) until (x ∷ ls) (h ∷ hs) l e t =
    (t.0, TracksAll-cooled clock i until ls hs l e t.1)

pub Tracks-at :
    (clock i : ℕ) (ls : List Lane) (hs : List (List ℕ)) (l : Lane) (h : List ℕ)
    → TracksAll clock ls hs
    → get_elem? ls i ≡ some l
    → get_elem? hs i ≡ some h
    → Tracks l.rpm clock l h
Tracks-at clock i [] hs l h t e f = absurd (ground arith)
Tracks-at clock i (x ∷ ls) [] l h t e f = absurd t
Tracks-at clock zero (x ∷ ls) (y ∷ hs) l h t e f =
    let p : x ≡ l = cc in
    let q : y ≡ h = cc in
    subst (λ z. Tracks l.rpm clock l z) q (subst (λ z. Tracks z.rpm clock z y) p t.0)
Tracks-at clock (suc i) (x ∷ ls) (y ∷ hs) l h t e f = Tracks-at clock i ls hs l h t.1 e f

Sorted-behind : (xs ys : List ℕ) → Sorted (xs ++ ys) → Sorted ys
Sorted-behind [] ys h = h
Sorted-behind (x ∷ xs) ys h = Sorted-behind xs ys h.1

-- So the stamps that a lane keeps stand in their order.
pub TracksAll-Sorted :
    (clock : ℕ) (ls : List Lane) (hs : List (List ℕ))
    → TracksAll clock ls hs
    → All (λ l. Sorted l.sent) ls
TracksAll-Sorted clock [] [] t = tt
TracksAll-Sorted clock [] (h ∷ hs) t = absurd t
TracksAll-Sorted clock (l ∷ ls) [] t = absurd t
TracksAll-Sorted clock (l ∷ ls) (h ∷ hs) t =
    let k : Tracks l.rpm clock l h = t.0 in
    (Sorted-behind k.old l.sent (subst Sorted k.split k.sorted), TracksAll-Sorted clock ls hs t.1)
