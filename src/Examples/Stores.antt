-- ===== src/Examples/Stores.antt =====
-- A claimed server and a recovery store, and the theorems on src/settings.rs at them.
use open_proxy.Common.{
  String, Bool, true, false, ◌≡◌, ◌≢◌, refl, ◌↔◌, inl, none, some, List, [], ◌∷◌, ◌==◌, string_eq,
  contains,
}
use open_proxy.Pool.{new, assemble, keep, sort_specs, find, carry}
use open_proxy.Config.Types.{NimKey, UpstreamEndpoint, Mode, Role, User, StoredConfig}
use open_proxy.Config.Text.{label_ok, valid_model_id, all_chars, strip_text}
use open_proxy.Config.Chars.{trim, trim_start, trim_end, split, map_chars, ascii, before}
use open_proxy.Config.Locale.{
  canonical_region, canonical_script, canonical_language, canonical_locale, installed_locale,
}
use open_proxy.Config.Urls.{check_base_url, host_of, is_link_local}
use open_proxy.Config.Views.{
  superuser_of, find_superuser, user_of, find_user, pool_specs, group_specs, runtime,
}
use open_proxy.Config.Verdict.{Passes, require, ◌>>◌, each, each_new}
use open_proxy.Config.Validate.{
  installed, stored, validate_stored_locale, validate_limits, validate_windows,
  validate_models_list, validate_disabled_models, check_group_name, check_group, validate_upstreams,
  preference, check_user, validate_users, later_keys, validate_keys, validate_clients,
  validate_overrides, has_floor, check_owner, validate_owners, validate,
}
use open_proxy.Config.Wellformed.{WellFormed}
use open_proxy.Config.Rulebook.{validate-WellFormed}
use open_proxy.Settings.State.{Server, role_of}
use open_proxy.Settings.Calls.{Call, Turn, is_error, respond, run}
use open_proxy.Settings.Edits.{find_first}
use open_proxy.Settings.Accounts.{AccountBody, account}
use open_proxy.Settings.Setup.{SetupReq, setup_submit}
use open_proxy.Settings.Owned.{others}
use open_proxy.Settings.Written.{Atomic, Consistent, serving, respond-Atomic, run-Consistent}
use open_proxy.Settings.Floor.{Sends, run-Sends}
use open_proxy.Settings.Guarded.{run-superuser_of}
use open_proxy.Settings.Plain.{others-respond}
use open_proxy.Settings.Orphans.{setup_submit-Orphaned}
use open_proxy.Settings.Race.{account_rotated}

abbrev root_key : NimKey
root_key = record { key = "nvapi-one"; owner = "root"; enabled = true; rpm = 40 }

abbrev root : User
root = record {
  username = "root";
  password_hash = "h0";
  role = Role.superuser;
  locale = some "en-US";
}

abbrev bob : User
bob = record { username = "bob"; password_hash = "h1"; role = Role.user; locale = none }

abbrev spare : UpstreamEndpoint
spare = record {
  name = "spare";
  base_url = "https://spare.example";
  enabled = true;
  keys = record { key = "sk-two"; owner = "bob"; enabled = true; rpm = 60 } ∷ [];
  models = "meta/llama" ∷ [];
  supports_stream_options = false;
}

abbrev stored_with : List User → StoredConfig
stored_with us = record {
  version = 1;
  default_locale = "en-US";
  upstream = record {
    base_url = "https://integrate.api.nvidia.com";
    nim_keys = root_key ∷ [];
    enabled = true;
    models = [];
    supports_stream_options = true;
  };
  upstreams = spare ∷ [];
  disabled_models = "old" ∷ [];
  client_auth = record { mode = Mode.keyed; keys = [] };
  limits = record {
    heartbeat_secs = 10;
    max_inflight = 512;
    max_wait_secs = 900;
    models_ttl_secs = 600;
    request_timeout_secs = 300;
    stream_idle_secs = 300;
    strict_passthrough = false;
  };
  history = record { days = 30 };
  dashboard = record { default_window_days = 30; slo_target_percent = 0x4058C00000000000 };
  governor = record { enabled = true; overrides = ("meta/llama", 8) ∷ [] };
  users = us;
}

abbrev claimed_store : StoredConfig
claimed_store = stored_with (root ∷ bob ∷ [])

claimed_store_passes : Passes (validate claimed_store)
unfolding validate require ◌>>◌ each each_new validate_stored_locale stored installed
    installed_locale canonical_locale canonical_language canonical_script canonical_region all_chars
    trim trim_start trim_end split map_chars ascii before contains validate_limits validate_windows
    check_base_url host_of is_link_local strip_text validate_models_list valid_model_id
    validate_upstreams check_group_name check_group label_ok validate_disabled_models validate_users
    check_user preference validate_keys later_keys validate_clients validate_overrides
    validate_owners check_owner has_floor superuser_of find_superuser user_of find_user
claimed_store_passes = refl

abbrev digest : String → String
digest s = s

abbrev hashed : String → String → String
hashed salt password = password

abbrev verified : String → String → Bool
verified password hash = password == hash

abbrev server_of : StoredConfig → Server
server_of sc = record {
  store = sc;
  disk = some sc;
  cfg = runtime sc;
  pool = new 0 (pool_specs sc);
  retention = 30;
  revision = 1;
  models_cache = none;
  no_inject = [];
  scraper_memo = none;
  setup_required = false;
}

abbrev claimed_server : Server
claimed_server = server_of claimed_store

claimed_server-Consistent : Consistent claimed_server
unfolding pool_specs group_specs new assemble keep sort_specs find carry
claimed_server-Consistent = (claimed_store_passes, refl, refl, refl)

-- A key that bob adds, and a model list that bob may not write.
abbrev add_key : Call
add_key = Call.on_nim_keys (record {
  add = some (record { key = " sk-three "; rpm = none; upstream = some "spare" });
  remove = none;
  set = none;
})

abbrev turns : List Turn
turns =
    record { saved = true; now = 5; caller = "bob"; asked = add_key }
    ∷ record { saved = true; now = 6; caller = "bob"; asked = Call.on_models [] }
    ∷ []

abbrev reset_bob : User
reset_bob = record { username = "bob"; password_hash = "h2"; role = Role.user; locale = none }

differ : (x y : String) → (x == y) ≡ false → x ≢ y
differ x y e h = let same = (string_eq.beq_iff x y).1 h in absurd (cc)

bob_is_other : root.username ≢ bob.username
bob_is_other = differ "root" "bob" refl

bob_is_other_owner : bob.username ≢ root.username
bob_is_other_owner = differ "bob" "root" refl

rotated_hash : reset_bob.password_hash ≢ bob.password_hash
rotated_hash = differ "h2" "h1" refl

validate-WellFormed_example : Passes (validate claimed_store) ↔ WellFormed claimed_store
validate-WellFormed_example = validate-WellFormed claimed_store

respond-Atomic_example :
    Atomic 5 claimed_server (respond digest hashed verified true 5 claimed_server "bob" add_key)
respond-Atomic_example = respond-Atomic digest hashed verified true 5 claimed_server "bob" add_key

run-Consistent_example : Consistent (run digest hashed verified claimed_server turns)
run-Consistent_example =
    run-Consistent digest hashed verified claimed_server turns claimed_server-Consistent

run-superuser_of_example :
    superuser_of (run digest hashed verified claimed_server turns).store ≡ some root
unfolding superuser_of find_superuser
run-superuser_of_example =
    run-superuser_of digest hashed verified root claimed_server turns claimed_server-Consistent refl
      (bob_is_other, (bob_is_other, tt))

still_root : superuser_of (run digest hashed verified claimed_server turns).store ≡ some root
unfolding superuser_of find_superuser
still_root =
    run-superuser_of digest hashed verified root claimed_server turns claimed_server-Consistent refl
      (bob_is_other, (bob_is_other, tt))

run-Sends_example :
    Sends
      (run digest hashed verified claimed_server turns).store
      "root"
      (serving (run digest hashed verified claimed_server turns).pool)
run-Sends_example =
    run-Sends digest hashed verified claimed_server turns root claimed_server-Consistent still_root

others-respond_example :
    others "bob" (respond digest hashed verified true 5 claimed_server "bob" add_key).1.store
    ≡ others "bob" claimed_store
unfolding role_of user_of find_user superuser_of find_superuser
others-respond_example =
    others-respond digest hashed verified true 5 claimed_server "bob" add_key refl refl

-- The users are gone; bob's key is still in the group `spare`.
abbrev recovery_server : Server
recovery_server = server_of (stored_with [])

abbrev claim_by_root : SetupReq
claim_by_root = record {
  username = "root";
  password = "correct horse";
  base_url = none;
  nim_keys = [];
  groups = [];
  create_client_key = none;
}

setup_submit-Orphaned_example :
    let r =
      setup_submit hashed digest true 5 true true recovery_server claim_by_root "salt" "npk" in
    (is_error r.0 ≡ true) × (r.1 ≡ recovery_server)
setup_submit-Orphaned_example =
    setup_submit-Orphaned hashed digest true 5 true true recovery_server claim_by_root "salt" "npk"
      (inl (inl bob_is_other_owner))

abbrev reset_server : Server
reset_server = server_of (stored_with (root ∷ reset_bob ∷ []))

account_rotated_example :
    let body = AccountBody.password "h1" "a long password" in
    let r = account hashed verified true 5 claimed_store reset_server "bob" body "salt" in
    (is_error r.0 ≡ true) × (r.1 ≡ reset_server)
unfolding user_of find_user find_first
account_rotated_example =
    account_rotated hashed verified true 5 claimed_store reset_server "bob" "h1" "a long password"
      "salt" bob reset_bob refl refl rotated_hash
