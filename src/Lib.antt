-- ===== src/Lib.antt =====
-- opcda-bridge gives remote clients access to OPC DA servers: a gateway on the OPC host browses and
-- indexes their namespaces, a library and a command line client call it. This development models the
-- parts of the gateway and of the library that decide something:
--
--   Controller    crates/opcda-bridge-gateway/src/controller.rs: the adaptive controller that paces
--                 inventory. Controller has the configuration and ControllerConfig::normalized,
--                 Controller/Adaptive the state and observe with its steps (hard_reason, soft_reason,
--                 throttle, pause_for, increase_limits, decision).
--   Browse        crates/opcda-bridge-gateway/src/browse.rs: browse sessions. Browse/Sessions has the
--                 caches of a session, Browse/Calls the table of sessions and calls that change it,
--                 Browse/Locks the three locked parts of browse_existing, Browse/Manager the
--                 operations open_session, browse, browse_existing and close_session.
--   Query         crates/opcda-bridge-gateway/src/index/query.rs: QueryCache, search_rank,
--                 prefix_upper_bound and escape_like (Query), IndexManager::search (Query/Search).
--   Schedule      crates/opcda-bridge-gateway/src/index/scheduler.rs: maintenance windows, jitter and
--                 retry delay (Schedule), background tasks and the cleanup worker (Schedule/Tasks).
--   Config        crates/opcda-bridge-gateway/src/config.rs: the settings of the index (Config), how the
--                 gateway resolves them (Config/Settings), the loading of the file
--                 (Config/Load), and the first limits of a build, from
--                 index/traversal.rs (Config/Pacing).
--   Index         crates/opcda-bridge-gateway/src/index.rs: the state of the manager of the index
--                 (Index). Index/Pause has the foreground guards and the pausing of builds of
--                 index/status.rs, Index/Metrics the foreground metrics of that file, Index/Builds the
--                 reservation of a build of index/enrollment.rs and its completion of
--                 index/traversal.rs, Index/Store the tables of index/store.rs, Index/Status the status
--                 that index/status.rs makes for a client.
--   Wire          the messages between the gateway and the library. Wire/Enums and Wire/Messages stand for
--                 crates/opcda-bridge-proto/proto/bridge.proto, Wire/Gateway and Wire/Service for
--                 server/map.rs and the calls of server/service.rs that ask the index (both in
--                 crates/opcda-bridge-gateway/src), Wire/Library, Wire/Read and Wire/Convert for
--                 types and conversions in crates/opcda-bridge/src/types, Wire/Client for the calls of
--                 crates/opcda-bridge/src/client.rs that ask the index.
--   Live          crates/opcda-bridge-gateway/src/server/search.rs: the validation of a live search and
--                 its nodes (Live), its loops (Live/Loops).
--   Compat        crates/opcda-bridge/src/compatibility.rs and the module compatibility of
--                 crates/opcda-bridge-proto/src/lib.rs: version ranges and conversion (Compat), the
--                 catalog (Compat/Catalog), the report (Compat/Evaluate).
--   Base          lists, association lists, queues, texts and tests that these share.
--
-- The controller paces the traversal that fills the index; the scheduler decides when a refresh or a
-- retry runs, and cleans up after it; a search looks into the query cache before it asks the database;
-- browsing and the index share the native client. Of these interactions those are modelled of a search
-- with the cache, of the settings with the controller, of a completed build with its retry and with
-- the cleanup worker, of the status with the generations of the store and the builds of the manager, and
-- of a client's calls with the gateway that answers them.
--
-- State and operations. A struct is a record, an enum a data type, and a method that changes a struct
-- returns the new one. A HashMap is an association list, a VecDeque a list. A fallible operation
-- returns a result type of its component or Option. Instants and durations are numbers of nanoseconds
-- in Controller, Browse and Index and of seconds in Schedule. A text whose characters matter is the list of
-- its Unicode scalar values, in Schedule/Delay of its UTF-8 bytes; other texts are native strings.
--
-- Parameters. In Query/Search the database, the status of the index and the normalisation of a query
-- are parameters, and of a status only the two fields that a search reads are modelled. Float64
-- stands for the comparisons of floating-point readings; max_batch for the batch limit that the OPC DA
-- client fixes; OpcClient for the native client; the catalog is the one the build generates. What
-- other calls do between the locks of a browse is a function on the table, so a statement about any
-- such function covers every interleaving of whole locked parts; the session of a running call may be
-- gone when it takes the lock again. In Schedule/Tasks claim, pick and release are the atomic parts of
-- spawn_cleanup_worker_if_idle, which runs them in one go. In Index/Pause decide and apply_control are
-- the parts of reconcile_pause_state inside and after the lock of the runtime; Index/Pause/History lists
-- the calls that may follow one another there, each run without another between its locks, while the
-- controls may change in any way between two calls, as enforce_duty_cycle and late effects change them. In Index/Builds the answers of the database, the disk and
-- the file lock are arguments, tokens and controls are numbers, and a completion is given the UTF-8
-- bytes of the server's name. In Config joining paths, reading a file and the
-- TOML parser are parameters. In Index/Status the reads of the database, the disk and the host, the
-- clock and the texts of times are arguments, and V stands for f64, whose values are only passed on. In
-- Wire the connection hands a message on unchanged, the manager of the index is an interface, and a
-- status code of the transport that the sources do not name is a number. In Live the answer of a browse
-- call is a function of the calls made before, and the client closes the stream after a given number
-- of events, if at all.
--
-- Bounds. Words are natural numbers with saturation and wrap-around written out: u8, u16, u32 and u64
-- limits stand in Base/Tests. All loops are structural, over a list or an index, except the decimal
-- digits, whose fuel of ten covers every u32, and the pages and scopes of a live search: each scope
-- after the first is a visited node's, of which there are at most 50000, so 50002 scopes are enough. The
-- source bounds the pages of a scope by nothing but the nodes on them, so no number of pages is enough for
-- a namespace that answers with empty pages for ever; the model keeps that number as an argument.
-- run_scheduled_cleanup runs over a list of attempts.
--
-- In Index/Store a table is the list of its rows, and each UPDATE, DELETE and INSERT a function of it;
-- generations are taken to stay within SQLite's INTEGER.
--
-- Not modelled: poisoned locks, logging, overflow of Instant (but for the first deadline of the adaptive
-- controller, which Config/Pacing tests against the latest Instant), the Windows metrics, the entries of the
-- index and their SQL, traversal, deletion and cancellation of builds, the calls of the gateway that
-- read and write tags or set up a browse or a search, and the command line client.
pub mod Base
pub mod Browse
pub mod Compat
pub mod Config
pub mod Controller
pub mod Index
pub mod Live
pub mod Query
pub mod Schedule
pub mod Wire
