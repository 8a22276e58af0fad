-- ===== src/Lib.antt =====
-- Roused, a gateway that starts launchd services on demand and stops them when they are idle.
--
-- A request for a configured host goes to its service if the service answers, and otherwise starts
-- it by `launchctl kickstart` and gets a loading page. Each service counts its requests; when it has
-- been idle for long enough, or the gateway shuts down, an attempt to stop it begins, which asks the
-- service's own check, looks again whether anything has happened meanwhile, and sends
-- `launchctl kill SIGTERM`.
--
-- Files and sources (paths from the root of the repository):
--   Base        helpers: lists, texts as code points, tests on numbers, the arithmetic of `Duration`,
--               UTF-8, paths, results, `usize` with checked and `u64` with wrapping operations
--   Process     what a child process does, as `src/wake.rs` and `src/lifecycle.rs` see it
--   Net         addresses of `std::net`; Net/Parse their parser, which `src/config.rs` calls
--   Wake        `src/wake.rs`: `WakeTarget`, `request_launch_at`, `launch_finished_at`; Wake/Dedup
--               histories of launches, with the stops that let a launch follow
--   Lifecycle   `src/lifecycle.rs`: Gate (`RequestGate`), Shutdown (`ShutdownCoordinator`), Service
--               (`ServiceLifecycle`, `ServiceLease`) with Service/Attempt (stop attempts), Task
--               (`run_stop_attempt`) with Task/World (a service among all that acts on it, as a step
--               relation), Monitor (`IdleMonitor`, `cleanup_service_at_shutdown`), System (`IdleMonitor::start`
--               with its tasks, all services, the gate and the shutdown, as a step relation)
--   Config      `src/config.rs`: `Config::from_toml` after the parser, with its checks; Config/Host
--               (`normalize_authority`, `normalize_dns_name`), Config/Label (`valid_launchd_label`),
--               Config/Load (`load`, `starter_toml`)
--   Gateway     `src/proxy.rs`: `RousedProxy` and `RequestContext` with the callbacks `new_ctx`,
--               `request_filter` (two functions, before and after the wait for the readiness),
--               `proxy_upstream_filter`, `upstream_peer` and `logging`; Gateway/World all requests and
--               the work on the services, as a step relation; Gateway/Ordered the same with
--               the callbacks of each request in their order; Gateway/Monitored the idle monitor that
--               `new` makes; Gateway/Forwarded
--               (`apply_forwarded_headers`), Gateway/Framing (`upstream_request_filter`) and
--               Gateway/Transport (`request_transport`)
--   Http        `src/proxy.rs`: `strip_request_hop_headers`, `strip_response_hop_headers` and the tokens
--               of a header, with Http/Hops and Http/Stripped on what is left of a header; Http/Upgraded (`upstream_response_filter`), Http/Loading
--               (`prefers_html_loading`), Http/Answers (`write_shutting_down`, `write_unknown_host`,
--               `write_loading_response`)
--   Setup       `src/setup.rs`: `gateway_plist_xml` and `SetupError`; Setup/PropertyList
--               (`PropertyListValue`, `write_xml`, `write_escaped_xml`), with a reader of property lists
--               in Setup/PropertyList/Reader that follows XML 1.0
--   Plain       `src/plain_http.rs`: `process_new` of the two listeners, over the polls of its `select!`
--   Main        `src/main.rs`: the commands `init-config`, `check-config` and `init-gateway-plist`, over
--               the file system of Main/Store (`write_new`); Main/Gateway (`run_gateway`,
--               `validate_tls_material`), Main/Cli (`main`, `run`), Main/Shutdown
--               (`GatewayShutdownSignals`)
--   Tests       in each of them: runs on concrete inputs
--
-- State and time. A mutex makes each method one step, so a method is a function from a state to the
-- next. The wake target has a mutex of its own, which `start_allowed_attempt_at` takes twice: what
-- requests and ends of launches do to the target in between is an argument. `Instant::now()` is an
-- argument, in nanoseconds, and the times need not grow. A result `none` of such a function is a panic.
-- The wake target that a route and a service share is a field of the service. A task that waits gives up control there: what the others do meanwhile is a step of
-- theirs, in any order.
--
-- Bounds. Loops over lists are structural. A loop that waits runs over the list of what its rounds
-- meet, and `none` means that it still waits; that of the cleanup of a service sleeps for 20 ms between
-- rounds, up to a deadline. The decimal digits of a number are produced with fuel 20, the digits of a
-- 64-bit number, the hexadecimal ones of a character with fuel 6; the reader of property lists has as
-- much fuel as its text is long. `in_flight` and `admitted` are checked 64-bit counters, the generation wraps at 2^64.
--
-- Not modelled: `toml` and the authority parser of the `http` crate (arguments of the definitions that
-- call them), pingora and the header maps of the `http` crate (arguments; a request is what the
-- callbacks read of it), the network, the operating system and the child processes (their
-- outcomes are arguments), logging, what follows the panic of a task, the parser of the arguments of the
-- command line, the libraries of TLS, and the server of pingora that `run_gateway` starts.
pub mod Base
pub mod Process
pub mod Net
pub mod Wake
pub mod Lifecycle
pub mod Config
pub mod Gateway
pub mod Http
pub mod Setup
pub mod Plain
pub mod Main
