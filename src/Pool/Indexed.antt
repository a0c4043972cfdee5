-- ===== src/Pool/Indexed.antt =====
-- src/pool.rs: every pool that its calls and the settings lead to has a lane for each active index.
use open_proxy.Common.{
  ℕ, ◌+◌, ◌≡◌, ◌≢◌, refl, subst, inl, inr, Bool, not, Option, some, List, [], ◌∷◌, ◌++◌, map, arith,
  ltb, length, length-set, length-append, set, get_elem?, Bool-cases, Option-cases,
}
use open_proxy.Common.Count.{count}
use open_proxy.Pool.Lanes.{LaneSpec, Lane, remove_last}
use open_proxy.Pool.Reserve.{out_of_bounds, reserve_filtered}
use open_proxy.Pool.Bounds.{InBounds, reserve_filtered-InBounds}
use open_proxy.Pool.History.{Logged, Call, reserves, releases, penalizes, step, run, start}
use open_proxy.Pool.{Pool, release, penalize, new, keep, sort_specs, carry, find, assemble, rebuild}

keep-length : (p : LaneSpec → Bool) (ss : List LaneSpec) → length (keep p ss) ≡ count p ss
unfolding keep
keep-length p [] = refl
keep-length p (s ∷ ss) = ground (arith, keep-length p ss)

map-length : {A B : Type 0} → (f : A → B) (xs : List A) → length (map f xs) ≡ length xs
map-length f [] = refl
map-length f (x ∷ xs) = omega (arith, map-length f xs)

-- The first pool and every rebuilt one have a lane for each active index.
assemble-InBounds :
    (now : ℕ) (specs : List LaneSpec) (old : List Lane) → InBounds (assemble now specs old)
unfolding assemble sort_specs
assemble-InBounds now specs old = omega (
  arith,
  map-length (λ s. carry now s (find s.key old))
      (keep (λ s. s.enabled) specs ++ keep (λ s. not s.enabled) specs),
  length-append (keep (λ s. s.enabled) specs) (keep (λ s. not s.enabled) specs),
  keep-length (λ s. s.enabled) specs,
)

rebuild-InBounds : (now : ℕ) (p : Pool) (specs : List LaneSpec) → InBounds (rebuild now p specs)
unfolding rebuild
rebuild-InBounds now p specs = assemble-InBounds now specs p.lanes

InBounds-release :
    (p : Pool) (i stamp : ℕ) (p' : Pool) → InBounds p → release p i stamp ≡ some p' → InBounds p'
unfolding release
InBounds-release p i stamp p' h e = elim (Option-cases (get_elem? p.lanes i)) [
  | inl f ↦ absurd (ground arith)
  | inr (l, f) ↦
      let l' = record l { sent = remove_last stamp l.sent } in
      let same : record p { lanes = set p.lanes i l' } ≡ p' = ground arith in
      subst InBounds same (omega (arith, length-set p.lanes i l'))
]

InBounds-penalize :
    (p : Pool) (i backoff now : ℕ) (p' : Pool)
    → InBounds p
    → penalize p i backoff now ≡ some p'
    → InBounds p'
unfolding penalize
InBounds-penalize p i backoff now p' h e = elim (Option-cases (get_elem? p.lanes i)) [
  | inl f ↦ absurd (ground arith)
  | inr (l, f) ↦ elim (Bool-cases (ltb l.cooldown_until (now + backoff))) [
    | inl late ↦
        let l' = record l { cooldown_until = now + backoff } in
        let same : record p { lanes = set p.lanes i l' } ≡ p' = ground arith in
        subst InBounds same (omega (arith, length-set p.lanes i l'))
    | inr held ↦ let same : p ≡ p' = ground arith in subst InBounds same h
  ]
]

step-InBounds : (s : Logged) (c : Call) → InBounds s.pool → InBounds (step s c).pool
unfolding step
step-InBounds s (reserves prefer allowed now) h =
    (reserve_filtered-InBounds s.pool prefer allowed now h).1
step-InBounds s (releases i stamp) h = elim (Option-cases (release s.pool i stamp)) [
  | inl e ↦ rw e h
  | inr (p', e) ↦ rw e (InBounds-release s.pool i stamp p' h e)
]
step-InBounds s (penalizes i backoff now) h = elim (Option-cases (penalize s.pool i backoff now)) [
  | inl e ↦ rw e h
  | inr (p', e) ↦ rw e (InBounds-penalize s.pool i backoff now p' h e)
]

run-InBounds : (s : Logged) (cs : List Call) → InBounds s.pool → InBounds (run s cs).pool
unfolding run
run-InBounds s [] h = h
run-InBounds s (c ∷ cs) h = run-InBounds (step s c) cs (step-InBounds s c h)

-- No reservation panics, whatever index it prefers, be it of an older pool: not in a first pool, nor
-- behind any reservations, returned slots and cooldowns, nor where such a pool has then been rebuilt
-- from any specs; and the rebuilt pool has a lane for each active index.
pub reserve_filtered-run :
    (t0 now' : ℕ) (specs specs' : List LaneSpec) (cs : List Call) (prefer : Option ℕ)
    (allowed : Option (List ℕ)) (now : ℕ)
    → let p = (run (start t0 specs) cs).pool in
      ((reserve_filtered p prefer allowed now).1 ≢ out_of_bounds)
      × ((reserve_filtered (rebuild now' p specs') prefer allowed now).1 ≢ out_of_bounds)
      × InBounds (rebuild now' p specs')
unfolding start new
reserve_filtered-run t0 now' specs specs' cs prefer allowed now =
    let s = start t0 specs in
    let p = (run s cs).pool in
    let first : InBounds s.pool = assemble-InBounds t0 specs [] in
    let later = rebuild-InBounds now' p specs' in
    (
      (reserve_filtered-InBounds p prefer allowed now (run-InBounds s cs first)).0,
      (reserve_filtered-InBounds (rebuild now' p specs') prefer allowed now later).0,
      later,
    )
