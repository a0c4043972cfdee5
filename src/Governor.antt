-- ===== src/Governor.antt =====
-- src/governor.rs: the per-model concurrency gate. Time is an argument of each call, as in the
-- source's `admit_at` and `note_exhausted_at`; the mutex makes each call one step. The gauges,
-- counters and log lines are left out.
pub mod State
pub mod Local
pub mod Independence
pub mod Caps
pub mod Recovery
pub mod Permits
use open_proxy.Common.{
  ℕ, String, ◌≡◌, Bool, true, false, Option, none, some, List, [], ◌∷◌, if◌then◌else◌, lookup,
  insert, string_eq,
}
use State.{ModelState, fresh, admit_state, release_state, exhaust_state}

pub record Governor : Type 0 where
  pub models : List (String × ModelState)

unfoldable pub init : Governor
init = record { models = [] }

abbrev pub or_fresh : Option ModelState → ModelState
or_fresh none = fresh
or_fresh (some s) = s

-- `models.entry(model).or_default()`: what the entry holds before the call changes it.
unfoldable pub entry : Governor → String → ModelState
entry g model = or_fresh (lookup model g.models)

unfoldable pub admit_at : Governor → String → Option ℕ → ℕ → Governor × Bool
unfolding entry
admit_at g model override_limit now =
    let (s, admitted) = admit_state override_limit now (entry g model) in
    (record { models = insert model s g.models }, admitted)

pub record ModelPermit : Type 0 where
  pub model : String

-- `admit`: the permit that a caller holds while its request is in flight.
pub admit : Governor → String → Option ℕ → ℕ → Governor × Option ModelPermit
unfolding admit_at
admit g model override_limit now =
    let (g', admitted) = admit_at g model override_limit now in
    (g', if admitted then some (record { model = model }) else none)

unfoldable pub release_found : Governor → String → Option ModelState → Governor
release_found g model none = g
release_found g model (some s) = record { models = insert model (release_state s) g.models }

unfoldable pub release : Governor → String → Governor
unfolding release_found
release g model = release_found g model (lookup model g.models)

-- `Drop for ModelPermit`
pub drop_permit : Governor → ModelPermit → Governor
unfolding release
drop_permit g p = release g p.model

unfoldable pub note_exhausted_at : Governor → String → Option ℕ → ℕ → Governor
unfolding entry
note_exhausted_at g model override_limit now = record {
  models = insert model (exhaust_state override_limit now (entry g model)) g.models;
}

-- The calls that the request path makes, in the order in which the mutex serves them.
pub data Call : Type 0 where
  admits : String → Option ℕ → ℕ → Call
  releases : String → Call
  exhausts : String → Option ℕ → ℕ → Call

unfoldable pub step : Governor → Call → Governor
unfolding admit_at release note_exhausted_at
step g (admits model override_limit now) = (admit_at g model override_limit now).0
step g (releases model) = release g model
step g (exhausts model override_limit now) = note_exhausted_at g model override_limit now

unfoldable pub run : Governor → List Call → Governor
unfolding step
run g [] = g
run g (c ∷ cs) = run (step g c) cs
