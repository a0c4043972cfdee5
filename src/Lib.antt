-- ===== src/Lib.antt =====
-- Open Proxy: a rate-limiting reverse proxy for OpenAI-compatible model providers, in Rust. This
-- library models the parts that decide: which key sends a request and when, how many requests a
-- model may have in flight, what a response is observed to have cost, which endpoint serves a
-- model, and what the telemetry on disk holds.
--
-- The program's parts and how they interact. A request is authenticated (src/auth.rs), its model is
-- routed to endpoint groups (src/lib.rs, on the configuration of src/config.rs), the governor
-- admits it (src/governor.rs), the dispatcher queues it (src/dispatch.rs) and reserves a slot of
-- the key pool (src/pool.rs), the proxy relays the response (src/proxy.rs), and an observer reads
-- the relayed bytes for the response's usage (src/observation.rs). The telemetry is appended to a
-- file of records (src/history/codec.rs, src/history/store.rs), which a start scans and compaction
-- rewrites. The settings handlers (src/settings.rs) change the configuration, and with it the
-- runtime's snapshot, the pool and the file that it is saved to.
--
-- What is modelled where:
-- - Common: the shared names, `Eq` as an interface, association lists for maps and lists for sets
--   (Common/Keys), Boolean tests (Common/Tests), lists over native numbers (Common/Lists), counting
--   (Common/Count), durations (Common/Clock).
-- - Governor: src/governor.rs. `Governor` and its calls; Governor/State has what a call does to one
--   model's state. Governor/Local and Governor/Independence reduce runs of calls to one model's own
--   calls, Governor/Caps and Governor/Recovery are about caps, drain gaps and growth, and
--   Governor/Permits about permits.
-- - Pool: src/pool.rs. `Pool` and its calls; Pool/Lanes has one key's lane, Pool/Reserve
--   `reserve_filtered`. Pool/Step, Pool/Pace, Pool/Tracks and Pool/History lead to the rate limit;
--   Pool/Ready, Pool/Order, Pool/Scanned, Pool/Choice, Pool/Settling and Pool/Answer say which lane
--   a reservation takes; Pool/Rebuild is about settings changes, and Pool/Bounds and
--   Pool/Indexed about calls that stay inside the lanes.
-- - Dispatch: src/dispatch.rs, the loop of `run` over one waiter; Dispatch/Outcome says how a round
--   ends.
-- - Observation: src/observation.rs. Observation/Json is the parsed value, Observation/Seen
--   `SeenNumber` and `SeenFinish`, Observation/Usage `UsageState`, Observation/Metrics its labels,
--   Observation/Tables the ordered map, Observation/State `ObservationState`, Observation/Sse
--   `SseObserver`. Observation/Agreement is about readings of one number, Observation/Reported and
--   Observation/Totals about the final counts, Observation/Bounds and Observation/Retained about what is kept,
--   Observation/Lines and Observation/Framing about how bytes become events.
-- - Config: src/config.rs and `Config` of src/lib.rs. Config/Types has the structs, Config/Text the
--   tests on names, Config/Views the views that the pool and the router take, Config/Routing
--   `route_model`, Config/Indexes the agreement of the endpoint indexes, Config/Keys the key lists.
--   Config/Chars has the operations of `str`, Config/Urls `check_base_url`, Config/Locale the
--   locales of src/presentation.rs, Config/Verdict the single checks and the loops of `validate`,
--   and Config/Validate `validate`. Config/Wellformed says what is accepted; Config/Checks,
--   Config/Groups and Config/Rulebook are about when the checks pass.
-- - Settings: src/settings.rs. Settings/State has `commit` and the state that it changes,
--   Settings/Edits the operations on lists; the handlers are in Settings/NimKeys, Settings/Clients,
--   Settings/Sections, Settings/Users, Settings/Accounts, Settings/Locales and Settings/Setup, and
--   Settings/Calls has them as the calls of one server. Settings/Written is about what a call leaves
--   behind and Settings/Floor about the pool floor; Settings/Gives, Settings/Kept,
--   Settings/Superuser, Settings/Immune and Settings/Guarded are about calls by others than the
--   superuser, Settings/Owned, Settings/Authority and Settings/Plain about calls by users that are
--   no administrators, Settings/Race about two writes of one password, and Settings/Orphans about
--   the claim of a store that has lost its users.
-- - Proxy: the metric labels of src/proxy.rs, of models (Proxy/Labels, Proxy/Cardinality) and of
--   paths (Proxy/Paths). Auth: src/auth.rs, the limiter (Auth, Auth/Admission) and session tokens
--   (Auth/Session, Auth/Token).
-- - History: src/history/codec.rs and src/history/store.rs. History/Records and History/Codec have
--   the records and their encoding; History/Recovery the `Replay` of a scan and what is excluded
--   from it; History/Scanner `validate_canonical` with `start_boot`, `ingest_record` and
--   `invalidate`; History/Retention `retained_compaction_records`; History/Writing `HistoryStore`
--   and its appends, and History/Compaction its compaction, History/Opening `open_inner`.
--   History/RoundTrip is about the codec; History/Canonical says what a history is,
--   History/Excluded, History/Sound, History/Gathered, History/Taken and History/Validated show
--   that a scan gathers one, History/Pending, History/Scanned and History/Accepted that one is
--   accepted whole, History/Retained, History/Epochs and History/Compacted that retention keeps
--   one; History/Replaced is about compaction as a whole and History/Outcome about what appends
--   leave.
-- - Examples: the theorems at concrete inputs.
--
-- How it is modelled. State is passed explicitly, and each call under a mutex is one step. Time is
-- an argument: nanoseconds since the process's epoch (`Instant`), seconds in Auth. `now - t` stops
-- at 0, as `duration_since` does. Indexing a lane that is not there panics in the source, and the
-- panic is a value here: `out_of_bounds` of a reservation, `none` of the other calls of a pool. A
-- HashMap or BTreeMap is an association list, a HashSet or BTreeSet a list. Byte strings are lists
-- of numbers; a key, a URL or a name is a String. Counts of tokens and events keep the bounds of
-- u64, and the limiter's count that of u32; `usize` counts of requests in flight are unbounded.
-- Loops are structural recursion; the dispatcher's loop runs over the list of what its rounds find.
-- Only the loop of `retained_compaction_records` runs on fuel, as much as there are records, which
-- is enough as each turn takes one at least. The history file is its bytes; a write that fails is
-- an input with the number of bytes that reached the file. `f64` is a type parameter `F` with its
-- tests; the one of the dashboard's settings is its bits. A handler that works outside the store's
-- lock for a while takes two stores, the one before and the one after, and the first may be any. An
-- answer of a settings handler is its status and code, and a failed check a constructor, both
-- without the message. The disk takes a store's write whole or not at all, as the rename does, and
-- which of the two is an input.
--
-- Parameters. `parse`, an argument of Observation/Sse, stands for the UTF-8 check and serde_json's
-- parser, and `decode`, an argument of Proxy/Paths, for the percent decoding; nothing is assumed of
-- either. In History, `is_utf8`, `parse` and `to_vec` stand for the UTF-8 check, serde_json's
-- parser and its serialiser, `trustworthy_timestamp` for the timestamp of a line's JSON value,
-- `is_finite` and `f64_eq` for the tests on `f64`; nothing is assumed of these either, and the
-- theorem that a file is accepted has as hypothesis what its lines are decoded to. In Auth, `hmac`,
-- `sha256`, `show_hex` and `read_hex` stand for the cryptography and for std's hexadecimal numbers;
-- one theorem assumes that a number's hexadecimal has no dot and reads back. In Settings,
-- `sha256_hex`, `hash_password` and `verify_password` stand for the cryptography, and random bytes
-- are arguments; nothing is assumed of them.
--
-- What is not modelled: sockets, HTTP and the async runtime; metrics, gauges and logs; the paths
-- and temporary files of the history store (src/history/store.rs), and the aggregation of the
-- telemetry (src/history.rs); the HTTP API and its bodies (src/api.rs, src/routes.rs), the handlers
-- of src/settings.rs that read or that probe an upstream, and the pages and catalogs of
-- src/presentation.rs; cookies and the hashing of passwords; the relaying of a response.
pub mod Common
pub mod Governor
pub mod Pool
pub mod Dispatch
pub mod Observation
pub mod Config
pub mod Settings
pub mod Proxy
pub mod Auth
pub mod History
pub mod Examples
