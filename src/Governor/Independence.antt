-- ===== src/Governor/Independence.antt =====
-- Models do not disturb one another: a run of the governor is, for each model, a run of that
-- model's own calls.
use open_proxy.Common.{
  String, ◌≡◌, refl, ◌∙◌, ap, Bool, Option, none, some, List, [], ◌∷◌, arith, Bool-cases,
  if◌then◌else◌, string_eq, lookup, insert, lookup-insert, ◌==◌, Option-cases, inl, inr,
}
use open_proxy.Governor.State.{ModelState, release_state}
use open_proxy.Governor.Local.{LocalCall, local_step, local_run}
use open_proxy.Governor.Local
use open_proxy.Governor.{
  Governor, Call, admits, releases, exhausts, entry, or_fresh, step, run, release, release_found,
}

unfoldable pub local_call : Call → String × LocalCall
local_call (admits model o now) = (model, Local.admits o now)
local_call (releases model) = (model, Local.releases)
local_call (exhausts model o now) = (model, Local.exhausts o now)

-- The calls that name a model, in their order.
unfoldable pub calls_of : String → List Call → List LocalCall
unfolding local_call
calls_of m [] = []
calls_of m (c ∷ cs) =
    let rest = calls_of m cs in if (local_call c).0 == m then (local_call c).1 ∷ rest else rest

or_fresh-if :
    (b : Bool) (s : ModelState) (o : Option ModelState)
    → or_fresh (if b then some s else o) ≡ (if b then s else or_fresh o)
or_fresh-if b s o = ground arith

pub entry-insert :
    (g : Governor) (k m : String) (s : ModelState)
    → entry (record { models = insert k s g.models }) m ≡ (if k == m then s else entry g m)
unfolding entry
entry-insert g k m s =
    ap or_fresh (lookup-insert k m s g.models) ∙ or_fresh-if (k == m) s (lookup m g.models)

entry_of_lookup :
    (g : Governor) (k : String) {o : Option ModelState}
    → lookup k g.models ≡ o
    → entry g k ≡ or_fresh o
unfolding entry
entry_of_lookup g k e = ap or_fresh e

-- A release that finds no entry is a release of the default state.
release_missing :
    (g : Governor) (k m : String)
    → lookup k g.models ≡ none
    → entry g m ≡ (if k == m then release_state (entry g k) else entry g m)
unfolding release_state
release_missing g k m e = elim (Bool-cases (k == m)) [
  | inl same ↦
      rw (same, entry_of_lookup g k e, ← (string_eq.beq_iff k m).0 same, entry_of_lookup g k e) refl
  | inr other ↦ rw other
]

pub entry-release :
    (g : Governor) (k m : String)
    → entry (release g k) m ≡ (if k == m then release_state (entry g k) else entry g m)
unfolding release
entry-release g k m = elim (Option-cases (lookup k g.models)) [
  | inl e ↦ rw (e, release_found) (release_missing g k m e)
  | inr (s, e) ↦ rw (e, release_found, entry_of_lookup g k e) (entry-insert g k m (release_state s))
]

entry-step :
    (g : Governor) (c : Call) (m : String)
    → entry (step g c) m ≡ (
        if (local_call c).0 == m
        then local_step (entry g (local_call c).0) (local_call c).1
        else entry g m)
unfolding step local_call local_step
entry-step g (admits k o now) m = entry-insert g k m _
entry-step g (releases k) m = entry-release g k m
entry-step g (exhausts k o now) m = entry-insert g k m _

-- The state of a model after any calls is the state that its own calls lead to: calls on other
-- models change nothing of it.
pub entry-run :
    (g : Governor) (cs : List Call) (m : String)
    → entry (run g cs) m ≡ local_run (entry g m) (calls_of m cs)
unfolding run local_run calls_of
entry-run g [] m = refl
entry-run g (c ∷ cs) m = elim (Bool-cases ((local_call c).0 == m)) [
  | inl mine ↦ rw (
    mine,
    entry-run (step g c) cs m,
    entry-step g c m,
    mine,
    (string_eq.beq_iff (local_call c).0 m).0 mine,
  )
  | inr other ↦ rw (other, entry-run (step g c) cs m, entry-step g c m, other)
]
