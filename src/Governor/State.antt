-- ===== src/Governor/State.antt =====
-- src/governor.rs: `ModelState`, and what each call does to the state of the model that it names.
use open_proxy.Common.{
  ℕ, ◌+◌, ◌-◌, ◌*◌, ◌/◌, max, Bool, true, false, ◌&&◌, Option, none, some, if◌then◌else◌, ltb, leb,
  is_some, not,
}
use open_proxy.Common.Clock.{from_secs, from_millis}

abbrev pub poll : ℕ
poll = from_millis 250

abbrev pub exhaust_backoff : ℕ
exhaust_backoff = from_secs 2

abbrev pub grow_interval : ℕ
grow_interval = from_secs 60

abbrev pub dissolve_after : ℕ
dissolve_after = from_secs (30 * 60)

-- A limit of 0 means that the model is ungoverned.
pub record ModelState : Type 0 where
  pub limit : ℕ
  pub inflight : ℕ
  pub blocked_until : Option ℕ
  pub last_exhausted : Option ℕ
  pub last_adjusted : Option ℕ

-- `#[derive(Default)]`
abbrev pub fresh : ModelState
fresh = record {
  limit = 0;
  inflight = 0;
  blocked_until = none;
  last_exhausted = none;
  last_adjusted = none;
}

-- `t.is_some_and(|t| now.duration_since(t) >= d)`
abbrev elapsed : ℕ → ℕ → Option ℕ → Bool
elapsed d now none = false
elapsed d now (some t) = leb d (now - t)

-- `blocked_until.is_some_and(|b| b > now)`
abbrev pub blocked : ℕ → Option ℕ → Bool
blocked now none = false
blocked now (some b) = ltb now b

-- `override_limit.unwrap_or(s.limit)`
abbrev pub cap_of : Option ℕ → ModelState → ℕ
cap_of none s = s.limit
cap_of (some k) s = k

-- The adaptive lifecycle: dissolve after a long clean period, else grow one per stable minute.
unfoldable pub adapt : Option ℕ → ℕ → ModelState → ModelState
adapt override_limit now s =
    if not (is_some override_limit) && ltb 0 s.limit
    then (if elapsed dissolve_after now s.last_exhausted
        then record s { limit = 0; last_adjusted = some now }
        else if elapsed grow_interval now s.last_adjusted
        then record s { limit = s.limit + 1; last_adjusted = some now }
        else s)
    else s

gate : Option ℕ → ℕ → ModelState → ModelState × Bool
gate override_limit now s =
    if blocked now s.blocked_until
    then (s, false)
    else if ltb 0 (cap_of override_limit s) && leb (cap_of override_limit s) s.inflight
    then (s, false)
    else (record s { inflight = s.inflight + 1 }, true)

unfoldable pub admit_state : Option ℕ → ℕ → ModelState → ModelState × Bool
unfolding adapt gate
admit_state override_limit now s = gate override_limit now (adapt override_limit now s)

-- `saturating_sub(1)`
unfoldable pub release_state : ModelState → ModelState
release_state s = record s { inflight = s.inflight - 1 }

unfoldable pub exhaust_state : Option ℕ → ℕ → ModelState → ModelState
exhaust_state override_limit now s =
    let gap = record s {
      blocked_until = some (now + exhaust_backoff);
      last_exhausted = some now;
    } in
    if is_some override_limit
    then gap
    else record gap { limit = max (s.inflight / 2) 1; last_adjusted = some now }
