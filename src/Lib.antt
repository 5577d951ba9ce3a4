-- ===== src/Lib.antt =====
-- Verification of dravr-tronc, a Rust runtime for MCP servers: the parts of it that keep state or
-- decide what a client may do.
--
-- The program. An MCP server answers JSON-RPC requests over HTTP or stdio. Over HTTP an
-- initialize-era client holds a session; a call may run as a task that outlives its request; a
-- request in flight may be cancelled; lists are served in pages; and a tool that fetches a URL does
-- so through a guard against requests to internal addresses. The parts meet in the caller: the
-- identity that the auth hook resolved (`ToolContext`) owns sessions and tasks and keys the
-- requests in flight.
--
-- The files, each with the source that it models (paths from the root of the repository):
--   Session, Session/Store   src/mcp/session.rs. The store's map is an association list in iteration
--     order, its sessions are places in a heap (`Arc<Session>`), so a request that holds a session
--     keeps it after the store let it go. The time is an argument of each call. Session/Store/Runs
--     is the event system: the handshakes, lookups, requests and ends that src/mcp/transport/http.rs
--     makes of the store, in any order. A call of the store is one step of the model. The source
--     sweeps under a lock of its own first (`sweep_if_due`), and then takes the lock again for the rest
--     of `insert`, `find` and `enter`; calls that come between the two are not interleaved here.
--   Tasks, Tasks/Wire        src/mcp/tasks.rs, its data and its wire form.
--   Tasks/Store              the in-memory `TaskStore`.
--   Tasks/Manager            `TaskManager` and `TaskRun`. `apply_input` gives its lock up between the
--     update of the store and the sending of the input; what other calls do there is its argument
--     `meanwhile`. A run's token and inbox are known by the run's handle, a number drawn by
--     `create`. Tasks/Manager/Calls is the step relation: any sequence of calls by any callers.
--   Pagination               src/mcp/pagination.rs, over any items and any key.
--   Guard/Deny               src/http_client/guard/deny.rs, with the bitwise masks.
--   Guard/Policy, Guard/Allowlist, Guard/Fetch   src/http_client/guard/policy.rs, and of guard/mod.rs
--     the check of the addresses that a name resolves to. Guard/Text holds the methods of `str`.
--   Guard/Client             src/http_client/guard/mod.rs: the redirects and the cap on a body.
--   Caller                   the `CallerKey` of src/mcp/client_channel.rs.
--   Pending                  the `PendingRequests` of src/mcp/client_channel.rs.
--   Cancellation             src/mcp/cancellation.rs.
--   Trace                    src/server/trace_context.rs, over bytes.
--   Iam/KeySet, Iam/TokenSource, Iam/Verify   src/iam. The cache of signing keys under any tasks is the
--     event system Iam/KeySet/Traffic: what a task does between two waits is one step, and the turn is
--     the lock `fetching`. The token source's tasks meet at its lock; what the others do while one waits
--     for the metadata server is the argument `others`.
--   Protocol                 src/mcp/protocol.rs, and the codes of src/error.rs. Protocol/Modern is
--     src/mcp/modern.rs: the era of a request, by its body and its header.
--   Tools                    the registry of src/mcp/tool.rs, without the feature `schema-validation`.
--   Server, Server/Handlers, Server/Dispatch   src/mcp/server.rs. A handler takes the world before and
--     gives the world after, with its answer; what the host awaits within it may change the world as it
--     likes. How the wait for a handler goes, to its end or cut by a cancellation or by its transport,
--     is the argument `Fate` of `dispatch`.
--   Transport/Hosts, Transport/Rendering, Transport/Headers, Transport/Posts, Transport/Stream
--     src/mcp/transport/http.rs: the checks of a POST in their order, and the events of a call that is
--     answered as a stream. Its requests of sessions are in Session/Store/Runs.
--   Transport/Mirror         src/mcp/transport/mirror.rs.
--   Transport/Endings        the DELETE of a session, and the answers to a refused caller.
--   Challenge                src/mcp/resource_metadata/challenge.rs.
--   Auth                     src/server/auth.rs.
--   Requests, Http           src/server/request_guard.rs, src/server/shed.rs, and of src/error.rs the
--     body of an error.
--   Service                  src/service_client. An attempt records the requests that go out.
--   Json                     what the program reads of `serde_json::Value`.
--   Common                   tests, equality, lists, maps and byte texts, shared by all.
--   Tests                    runs on concrete inputs, and a concrete instance of each result.
--
-- Functions keep the names of the source; where a function of the source is long, its parts are
-- functions of their own (`take_census`, `make_room` and `place` are the body of
-- `SessionStore::insert`). A fallible function returns `Result`. A method that changes its object
-- takes the state before and returns the state after.
--
-- Numbers. Durations and times are milliseconds or seconds as natural numbers, on which `-` stops at
-- 0, as `saturating_sub` does. The counter of a session's running requests is an `AtomicUsize` and
-- wraps at 2^64, as does the serial of a cancellation; the received length of a body saturates.
--
-- Fuel and loops. Every function of the model recurs on its data, but for two that have fuel. The
-- client of Pagination/Pages has one request for each item and one more; `into_events` of
-- Transport/Stream has one step for each message that the call sends, and two more. Their theorems
-- show that to be enough.
--
-- Parameters, where the code is not the repository's: the base64 and chrono crates by the round
-- trips that they document; the url and percent-encoding crates, as the parsed URL and a function;
-- the parsing of an `IpAddr`; the host's signal bus; the fingerprint of a credential; ids drawn from
-- the system's randomness; the answers of the network; the host's tools and methods, and what serde
-- prints of their results; the readings of numbers as `i32`, `u64`, `f32` and `f64`.
--
-- Not modelled: the background sweeper of the tasks (its body, `sweep_expired`, is), the builders of
-- options, logging and the text of messages. The clock is read once in each call of the model where
-- the source may read it twice. Of a request the bearer token, which only the host's hook reads, and of
-- an error its text are left out. Outside the model are also the channel to the client during a call,
-- the schemas and elicitation, stdio, the resource metadata document, the alert rules and providers, start-up and
-- secrets.
pub mod Common
pub mod Json
pub mod Pagination
pub mod Tasks
pub mod Session
pub mod Guard
pub mod Caller
pub mod Challenge
pub mod Cancellation
pub mod Pending
pub mod Trace
pub mod Auth
pub mod Iam
pub mod Http
pub mod Protocol
pub mod Tools
pub mod Server
pub mod Transport
pub mod Requests
pub mod Service
pub mod Tests
