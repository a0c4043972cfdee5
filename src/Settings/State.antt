-- ===== src/Settings/State.antt =====
-- src/settings.rs: the state that the settings handlers share, and `commit`, their only write.
-- `now` is the time of the pool's rebuild; `saved` says whether the disk took the write.
use open_proxy.Common.{
  ℕ, ◌+◌, ◌%◌, ◌^◌, String, Bool, true, false, Option, none, some, List, [], if◌then◌else◌, nat_eq,
  ◌==◌, Result, err, ok,
}
use open_proxy.Config.Types.{StoredConfig, Config, Role}
use open_proxy.Config.Views.{runtime, pool_specs, is_admin, user_of}
use open_proxy.Config.Verdict.{Rejection, Verdict}
use open_proxy.Config.Validate.{validate}
use open_proxy.Pool.{Pool, rebuild}

-- The fields of `AppState` of src/lib.rs that a settings write reads or changes. `disk` is the
-- configuration whose serialization the store file was last replaced with, `retention` the days that the history was last told; a cached
-- model catalog has its time and its bytes.
pub record Server : Type 0 where
  pub store : StoredConfig
  pub disk : Option StoredConfig
  pub cfg : Config
  pub pool : Pool
  pub retention : ℕ
  pub revision : ℕ
  pub models_cache : Option (ℕ × List ℕ)
  pub no_inject : List String
  pub scraper_memo : Option (List ℕ × String)
  pub setup_required : Bool

-- The answers of the handlers; an error has its status and its code, without the message.
pub data Response : Type 0 where
  okay : Response
  clients_answer : Option String → Response
  session_answer : String → String → Response
  setup_answer : String → String → Option (String × String) → Response
  json_error : ℕ → String → Response

abbrev pub bad_request : Response
bad_request = Response.json_error 400 "invalid_config"

abbrev pub forbidden : Response
forbidden = Response.json_error 403 "forbidden"

abbrev pub stale_session : Response
stale_session = Response.json_error 401 "unauthorized"

abbrev pub setup_complete : Response
setup_complete = Response.json_error 409 "setup_complete"

abbrev pub weak_password : Response
weak_password = Response.json_error 400 "weak_password"

pub data CommitError : Type 0 where
  rejected : Rejection → CommitError
  not_saved : CommitError

-- `config::save`: every failure comes before the rename, and leaves the file as it was.
unfoldable pub save : Bool → StoredConfig → Server → Bool × Server
save true sc s = (true, record s { disk = some sc })
save false sc s = (false, s)

-- What `commit` changes once the candidate is on disk.
unfoldable pub publish : ℕ → StoredConfig → Server → Server
publish now cand s = record s {
  cfg = runtime cand;
  pool = rebuild now s.pool (pool_specs cand);
  retention = if cand.history.days == s.store.history.days then s.retention else cand.history.days;
  store = cand;
  revision = (s.revision + 1) % 2 ^ 64;
}

unfoldable pub on_saved : ℕ → StoredConfig → Bool × Server → Result CommitError (Unit {0}) × Server
on_saved now cand (false, s) = (err CommitError.not_saved, s)
on_saved now cand (true, s) = (ok tt, publish now cand s)

unfoldable pub on_valid :
    Bool → ℕ → StoredConfig → Server → Verdict → Result CommitError (Unit {0}) × Server
unfolding on_saved
on_valid saved now cand s (err e) = (err (CommitError.rejected e), s)
on_valid saved now cand s (ok tt) = on_saved now cand (save saved cand s)

-- `commit`
unfoldable pub commit : Bool → ℕ → StoredConfig → Server → Result CommitError (Unit {0}) × Server
unfolding on_valid
commit saved now cand s = on_valid saved now cand s (validate cand)

-- The caches that a handler drops once its write is in.
pub data Flush : Type 0 where
  nothing catalog_only upstream_caches scraper_memo claim : Flush

unfoldable pub flush : Flush → Server → Server
flush Flush.nothing s = s
flush Flush.catalog_only s = record s { models_cache = none }
flush Flush.upstream_caches s = record s { models_cache = none; no_inject = [] }
flush Flush.scraper_memo s = record s { scraper_memo = none }
flush Flush.claim s = record s { setup_required = false }

unfoldable pub answer :
    Response → Flush → Result CommitError (Unit {0}) × Server → Response × Server
answer done f (err e, s) = (bad_request, s)
answer done f (ok tt, s) = (done, flush f s)

-- How every handler ends: with an answer of its own before any write, or with the commit of a
-- candidate.
unfoldable pub settle :
    Bool → ℕ → Response → Flush → Server → Result Response StoredConfig → Response × Server
unfolding answer
settle saved now done f s (err early) = (early, s)
settle saved now done f s (ok cand) = answer done f (commit saved now cand s)

-- `role_of`
unfoldable pub role_of : StoredConfig → String → Option Role
role_of sc username = elim (user_of sc username) [ none ↦ none | some u ↦ some u.role ]

-- What every handler does first: an account that is gone answers 401.
unfoldable pub with_role :
    Option Role → (Role → Result Response StoredConfig) → Result Response StoredConfig
with_role none next = err stale_session
with_role (some r) next = next r

-- The guard of the handlers that only an administrator may use.
unfoldable pub admin_only :
    StoredConfig → String → Result Response StoredConfig → Result Response StoredConfig
admin_only sc username next =
    with_role (role_of sc username) (λ r. if is_admin r then next else err forbidden)
