-- ===== src/Lib.antt =====
-- OxidRelay, a mail relay: a service submits a mail over SMTP, the relay stores it in a durable
-- queue, and a dispatcher delivers it in the background through a transport, with retries.
--
-- The parts and their files:
--   * Message: crates/core/src/message.rs and crates/core/src/error.rs. The mails, what a submitted
--     payload must have (`validate`), and its entry into the queue (`from_new`).
--   * Config: crates/core/src/config.rs. The records and defaults; Config/Load `load` and
--     `from_toml_str`, Config/Validate `validate`, Config/Settings `plugin_settings`,
--     Config/Subject `render`, Config/Routing `resolve`, Config/Auth `authenticate`.
--   * Queue: the trait of crates/core/src/queue.rs as a record of operations on a state. Queue/Row
--     and Queue/Sqlite model crates/queue-sqlite/src/lib.rs, Queue/Sqlite/Open its `connect`: a
--     table is a list of rows, and each call one SQL statement on it, which the database may also
--     fail (`Moment`). Queue/Model is the specification, on mails and times; Queue/Refine relates
--     the two row by row (`Holds`). Queue/Laws states what the dispatcher and the ingress rely on;
--     Queue/Instance has the table and the specification as queues of that kind. Queue/Keyed is
--     what both have in common: lists whose entries have a key.
--   * Dispatcher: crates/dispatcher/src. Dispatcher/Retry is `RetryPolicy`, Dispatcher/Deliver the
--     function `deliver`, Dispatcher/Tick the function `tick`: Begin its head, and `Step` one step
--     of its loop or of one of the tasks that it spawns, so that `Reach` has every interleaving,
--     and `Shared` those with the mails that arrive meanwhile. Dispatcher/Run is `run`, the
--     recovery and the ticks after it.
--   * Ingress: crates/ingress-smtp/src/lib.rs. The handler's callbacks: Ingress/Session up to the
--     data, Ingress/Accept `build_new_mail` and `data_end`, which enqueues one mail for each
--     target; Ingress/Server how the server is configured and run.
--   * Smtp: crates/transport-smtp/src/lib.rs. `SmtpTransport::new`, the message that the SMTP
--     transport builds, and `send`.
--   * Plugin: crates/plugin/src. The manifest and the errors; Plugin/Loader `load_plugin` and
--     `discover`, Plugin/Engine the functions that a script may call, Plugin/Http the requests and
--     their client, Plugin/Transport `RhaiTransport` and the map of a mail that a script is given.
--   * Startup: crates/oxid-relay/src/main.rs. The dispatcher that `run_relay` builds from the
--     configuration, the URL of the database and the path of its lock file; Startup/Plugins
--     `build_plugin_transports`, Startup/Relay `run_relay` up to the run of the dispatcher,
--     Startup/Service the Windows service, Startup/Foreground the run outside it, Startup/Main
--     `main`, and Startup/Durable the dispatcher on the table of rows; Startup/Accepted what
--     `data_end` stores in it, with the calls of any clients after it (Queue/Later),
--     Startup/Delivered, Startup/Advances and Startup/Restarted what a tick does for a mail whose
--     time has come, Startup/Drained what several ticks do, and Startup/Arrived what becomes of a
--     message from its end to the end of the next tick.
--   * Logging: crates/logging/src/lib.rs.
--   * Prelude: what the parts share, among it the `str` methods of the standard library. Examples:
--     concrete formats, queues and configurations.
-- The ingress enqueues into the same queue from which the dispatcher fetches. Both see it as the
-- record `Queue`, and the statements on them are about every backend that keeps the laws.
--
-- Numbers: times are nanoseconds since the epoch and durations nanoseconds, both natural numbers; a
-- time before the epoch is taken for the epoch. `u32` counters wrap and `u64` seconds saturate
-- where the code says so. The limits of chrono are not modelled: its sums and differences of times
-- panic some 260 000 years from the epoch, which only such retry delays or leases reach. Timestamps
-- are compared as text by the database, which is right up to the year 10000 (`horizon`). There is
-- no fuel: loops are recursion on lists, and a tick is a relation.
--
-- Parameters: the formats of chrono, uuid and serde_json (`Codec`, with the documented behaviour in
-- `IsCodec`), the TOML parser and the file system, the environment, the clock, the transports, and
-- the libraries of the ingress (`Outside`, `Mailin`), of the SMTP transport (`Lettre`) and of the
-- plugins (`Rhai`, `Runtime`, `Json`, `Reqwest`, `Parsers`, and `Disk` for the file system, with
-- `WindowsPaths`). `System` is all that the daemon takes from outside, with `Manager` for the
-- Windows service control manager and `Signals` for the listeners of signals.
--
-- Not modelled: log output, clients of the queue that do more than enqueue during a tick (the
-- ingress does not, and the repository has no other), the scripts of the plugins, of the daemon the
-- threads, and crates/http-api, an empty placeholder.
pub mod Prelude
pub mod Message
pub mod Config
pub mod Queue
pub mod Dispatcher
pub mod Ingress
pub mod Smtp
pub mod Plugin
pub mod Logging
pub mod Startup
mod Examples
