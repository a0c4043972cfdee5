-- ===== src/Settings/Written.antt =====
-- What a call of a settings handler leaves behind: the server as it was, or one with a new store
-- that is valid, on disk, and what the runtime and the pool are made of.
use open_proxy.Common.{
  ℕ, ◌+◌, ◌%◌, ◌^◌, String, Bool, true, false, ◌≡◌, refl, ap, ◌∙◌, subst, sym, ◌⊎◌, inl, inr, some,
  List, [], ◌∷◌, map, take, Result, err, ok, arith, Result-cases, Bool-cases, if◌then◌else◌, ◌==◌,
  nat_eq,
}
use open_proxy.Pool.Lanes.{LaneSpec, Lane}
use open_proxy.Pool.{Pool, carry, find, rebuild, assemble}
use open_proxy.Pool.Rebuild.{key-carry, active_lanes, enabled_specs}
use open_proxy.Config.Types.{StoredConfig}
use open_proxy.Config.Views.{runtime, pool_specs}
use open_proxy.Config.Verdict.{Passes}
use open_proxy.Config.Validate.{validate}
use open_proxy.Settings.State.{
  Server, Response, save, publish, on_saved, on_valid, commit, Flush, flush, answer, settle,
}
use open_proxy.Settings.Calls.{Call, Turn, is_error, respond, run, respond-settle}

-- The keys of the lanes that requests are sent on.
abbrev pub serving : Pool → List String
serving p = map (λ l. l.key) (take p.active p.lanes)

keys-carry :
    (now : ℕ) (old : List Lane) (ss : List LaneSpec)
    → map (λ l. l.key) (map (λ s. carry now s (find s.key old)) ss) ≡ map (λ s. s.key) ss
keys-carry now old [] = refl
keys-carry now old (s ∷ ss) =
    ground (arith, key-carry now s (find s.key old), keys-carry now old ss)

serving-rebuild :
    (now : ℕ) (p : Pool) (specs : List LaneSpec)
    → serving (rebuild now p specs) ≡ map (λ s. s.key) (enabled_specs specs)
unfolding rebuild assemble
serving-rebuild now p specs =
    ap (map (λ l. l.key)) (active_lanes now specs p.lanes)
    ∙ keys-carry now p.lanes (enabled_specs specs)

-- The store is valid and was last written to disk, the runtime's snapshot is taken from it, and requests are sent on
-- its enabled keys.
abbrev pub Consistent : Server → Type 0
Consistent s =
    Passes (validate s.store)
    × (s.disk ≡ some s.store)
    × (s.cfg ≡ runtime s.store)
    × (serving s.pool ≡ map (λ k. k.key) (enabled_specs (pool_specs s.store)))

-- A new store has been written over `s` at `now`: what the runtime is made of follows it. The lanes
-- are the old ones rebuilt, and the history's retention changes with the days.
abbrev pub Written : ℕ → Server → Server → Type 0
Written now s s' =
    Consistent s'
    × (s'.pool ≡ rebuild now s.pool (pool_specs s'.store))
    × (s'.retention ≡ (
        if s'.store.history.days == s.store.history.days
        then s.retention
        else s'.store.history.days))
    × (s'.revision ≡ (s.revision + 1) % 2 ^ 64)

flush-Written :
    (now : ℕ) (s s' : Server) (f : Flush) → Written now s s' → Written now s (flush f s')
unfolding flush
flush-Written now s s' Flush.nothing h = h
flush-Written now s s' Flush.catalog_only h = h
flush-Written now s s' Flush.upstream_caches h = h
flush-Written now s s' Flush.scraper_memo h = h
flush-Written now s s' Flush.claim h = h

-- An error leaves the server as it was; whatever the answer, a changed server is a written one.
abbrev pub Atomic : ℕ → Server → Response × Server → Type 0
Atomic now s r = (is_error r.0 ≡ true → r.1 ≡ s) × ((r.1 ≡ s) ⊎ Written now s r.1)

publish-Written :
    (now : ℕ) (cand : StoredConfig) (s : Server)
    → Passes (validate cand)
    → Written now s (publish now cand (record s { disk = some cand }))
unfolding publish
publish-Written now cand s valid =
    ((valid, refl, refl, serving-rebuild now s.pool (pool_specs cand)), refl, refl, refl)

answer-Atomic :
    (saved : Bool) (now : ℕ) (done : Response) (f : Flush) (s : Server) (cand : StoredConfig)
    → is_error done ≡ false
    → Atomic now s (answer done f (commit saved now cand s))
unfolding answer commit on_valid on_saved save publish
answer-Atomic saved now done f s cand fine = elim (Result-cases (validate cand)) [
  | inl (e, q) ↦ rw (q) (λ h. refl, inl refl)
  | inr (a, q) ↦ elim (Bool-cases saved) [
    | inl on ↦
        let saved_here : Passes (validate cand) = q in
        rw (q, on)
          (λ h. absurd (cc), inr (flush-Written now s _ f (publish-Written now cand s saved_here)))
    | inr off ↦ rw (q, off) (λ h. refl, inl refl)
  ]
]

settle-Atomic :
    (saved : Bool) (now : ℕ) (done : Response) (f : Flush) (s : Server)
    (e : Result Response StoredConfig)
    → is_error done ≡ false
    → Atomic now s (settle saved now done f s e)
unfolding settle
settle-Atomic saved now done f s (err early) fine = (λ h. refl, inl refl)
settle-Atomic saved now done f s (ok cand) fine = answer-Atomic saved now done f s cand fine

module _ (sha256_hex : String → String) (hash_password : String → String → String)
    (verify_password : String → String → Bool) where
  -- A call is all or nothing: with an error it changes nothing. Otherwise the server is as it was, or
  -- has a new store that passes the validation and is the one last written to disk; the runtime's
  -- snapshot is taken from it, the pool is the old one rebuilt from its keys at the time of the call,
  -- the history is told the store's days if these have changed and keeps its own otherwise, and the
  -- revision is the next, of 64 bits. What becomes of the caches is not said.
  pub respond-Atomic :
      (saved : Bool) (now : ℕ) (s : Server) (username : String) (c : Call)
      → Atomic now s (respond sha256_hex hash_password verify_password saved now s username c)
  respond-Atomic saved now s username c =
      respond-settle sha256_hex hash_password verify_password (Atomic now s) saved now s username c
        (λ done f fine. settle-Atomic saved now done f s _ fine)

  -- Any number of calls, by whomever, with or without a disk that takes the writes, keep a server
  -- consistent: its store passes the validation and is the one last written to disk, the runtime's snapshot is
  -- taken from it, and the lanes that requests are sent on are those of its enabled keys, in order.
  pub run-Consistent :
      (s : Server) (turns : List Turn)
      → Consistent s
      → Consistent (run sha256_hex hash_password verify_password s turns)
  unfolding run
  run-Consistent s [] h = h
  run-Consistent s (t ∷ ts) h =
      let next =
        (respond sha256_hex hash_password verify_password t.saved t.now s t.caller t.asked).1 in
      let kept : Consistent next = elim (respond-Atomic t.saved t.now s t.caller t.asked).1 [
        | inl q ↦ subst Consistent (sym q) h
        | inr w ↦ w.0
      ] in
      run-Consistent next ts kept
