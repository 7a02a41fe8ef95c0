-- ===== src/Lib.antt =====
-- A model of microwaf, a firewall daemon for small networks: it counts what each client sends, compares
-- the counts with rules, and blocks or throttles a client in an XDP program.
--
-- The parts and how they interact. The sniffer (crates/microwaf/src/sniffer.rs) reads frames, runs the
-- detectors (crates/mw-sniffer) on their payloads, matches rules (crates/mw-core/src/rule.rs, with CEL
-- conditions from cel_match.rs) and adds to the counters (counters.rs). Once a second the decision
-- loop (crates/microwaf/src/decision.rs) moves what the counters have grown by into sliding windows
-- (window.rs), evaluates the rules on them, sets automatic policies and merges these with the manual
-- ones (policy.rs), and hands the merged action to an enforcer (enforcer.rs,
-- crates/microwaf/src/ebpf.rs), whose keys the XDP program (crates/mw-ebpf/src/lib.rs) looks up for
-- each packet. The commands of the control socket (crates/microwaf/src/ipc.rs) set the manual policies
-- and persist them in a store, in memory or in Redis (crates/mw-store). The command line
-- (crates/microwaf/src/cli) starts the daemon from its configuration files
-- (crates/microwaf/src/config.rs), which a watcher reloads, and sends the commands through the client
-- library (crates/mw-client).
--
-- Files.
--   Prelude      texts, bytes, lists, equality, orders, results; Prelude/Utf8 is `std::str::from_utf8`
--   HashMap      `std::collections::HashMap` as an association list
--   Time         `Instant` and `Duration` in nanoseconds
--   Client       client.rs: `ClientId`, `mac_string`, `storage_key`, `client_from_str` for `from_str`
--   Rule         rule.rs: `Protocol`, `Metric`, `Window`, `Action`, `Rule`, `RuleSet`; error.rs
--   Engine       rule.rs: `RuleEngine::evaluate` as `evaluate`
--   Window       window.rs: `SlidingWindow` (`advance`, `window_add`, `window_sum`), `RuleWindows`
--   Counters     counters.rs: `CounterStore`; `get_rule` is `get_counts`
--   Policy       policy.rs: `merge_policy`, `strongest_auto`, `to_runtime`, `from_runtime`
--   Enforcer     enforcer.rs and ebpf.rs: the three enforcers as one data type
--   Cel          cel_match.rs: `MatchContext`, `eval_match`
--   Config       crates/mw-core/src/config.rs: `compile`, `compile_ruleset`, `parse_rules_yaml`
--   State        crates/microwaf/src/state.rs: `DaemonState`
--   Files        crates/microwaf/src/config.rs over a disk as a value: `ensure_config_files`, `load`,
--                `load_rules`, `try_reload`, `watch_loop`; Files/Fs is what is used of `std::fs`,
--                Files/Paths of `std::path`
--   Decision     decision.rs: `tick`, with `tick_client` for the body of its loop; `run`
--   Detect       crates/mw-sniffer: `detect_http_request`, `detect_ws_frame`, `detect_z21_records`,
--                `detect_withrottle_lines`
--   Flow         sniffer.rs: `FlowTable`
--   Sniffer      sniffer.rs: `handle_frame`, `dispatch_tcp`, `dispatch_udp`, `common_ctx`
--   Xdp          crates/mw-ebpf/src/lib.rs: `try_microwaf`, `microwaf_xdp`
--   Store        crates/mw-core/src/store.rs, crates/mw-store/src/memory.rs, crates/microwaf/src/store.rs:
--                `ManualPolicyStore`, `memory_store`, `persist_manual`, `hydrate`; Store/Stats has
--                `snapshot_stats`, Store/Redis is crates/mw-store/src/redis_store.rs
--   Ipc          ipc.rs: `throttle`, `block`, `clear_manual_throttle`, `clear_manual_block`,
--                `list_rules`, `list_clients`, `top`, `dispatch`; Ipc/Wire is crates/mw-proto/src/wire.rs
--   Remote       crates/mw-client: the methods of `Client`, with `ask` for `round_trip`
--   Cli          crates/microwaf/src/cli and iface.rs: `run_daemon` and `start` for `run` of daemon.rs,
--                `run_command` for `run` of client.rs, `table_lines`, `render_frame`
--                and `run_live` of top.rs
--   Tests        the theorems at concrete inputs
--
-- How the code is read. Numbers are natural numbers; an addition that saturates is `saturating_add`, a
-- subtraction that saturates is the one on natural numbers, and a sum of instants that panics is
-- `none`. A text is the list of its code points, a byte array the list of its bytes. A function that
-- changes its receiver returns the new value. A lock is the value that it guards, and a method that
-- takes locks is one step. Each clock that a function reads is an argument of it; a frame is handled
-- at one reading of the clocks. The order of a map's entries stands for the unspecified order of
-- iteration, and the set of clients of a tick is the list of its members.
--
-- Bounds and fuel. The loop over Z21 records runs on the length of the payload as fuel, which is
-- enough since each record takes at least four bytes. Decimal digits are produced in 20 rounds, enough
-- for a `u64`. All other loops are structural recursion; the loops of the decision thread, of the
-- configuration watcher and of the live view run on the list of their rounds.
--
-- Parameters. The CEL compiler and interpreter (`compile_cel`, `execute`, on programs of a type `P`),
-- serde_yaml (`yaml`, `yaml_daemon`, `yaml_sets`, `yaml_rules`), serde_json (`encode`, `decode`), the
-- text of an IPv6 address and its parser (`show_v6`, `parse_v6`), the version of the build
-- (`version`), what serde derives for the parameters of a request and for the body of a response
-- (`ParamsSerde`, `ParamsWriter`, `BodySerde`, `BodyWriter`), the store that the commands write to
-- (`store`, with what they rely on in `LawfulStore`), the commands of a Redis server (`RedisServer`,
-- with what Redis documents of them in `IsLawful`), the exchange of the client library with the daemon
-- (`exchange`), the printers of the command line, what its terminal and its keyboard answer, the keys
-- for which the terminal raises a signal (`raises`), and what the system answers when the daemon
-- starts.
--
-- Not modelled: sockets and the framing of messages, threads, signals other than those of the
-- keyboard, the loading of the XDP object, and the router of the control socket, which are the
-- operating system's or third-party code; the Go client, another language.
pub mod Prelude
pub mod HashMap
pub mod Rule
pub mod Time
pub mod Window
pub mod Client
pub mod Counters
pub mod Policy
pub mod Enforcer
pub mod Engine
pub mod Config
pub mod State
pub mod Files
pub mod Decision
pub mod Detect
pub mod Xdp
pub mod Flow
pub mod Cel
pub mod Sniffer
pub mod Tests
pub mod Store
pub mod Ipc
pub mod Remote
pub mod Cli
