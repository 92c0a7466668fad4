-- ===== src/Lib.antt =====
-- Weregopher runs packaged desktop applications under a host of its own. This library models the
-- parts of it that decide what crosses a boundary: the binary runtime protocol between host and
-- worker, the life of a renderer, the transparent proxy between a client and the OpenAI
-- app server, the session that runs that server as a process behind the proxy, with its journal
-- and its rules, and the registry of what such a session owns.
--
-- The parts, and where they stand:
--   Base: the libraries' names passed on, tests into Bool, lists, results, machine words, byte
--     strings, and `BTreeMap` as the list of its entries in key order.
--   Protocol: crates/weregopher-domain/src/protocol.rs and runtime_protocol.rs.
--     Kind and Header are `MessageKind` and `FrameHeader` with `encode` and `decode`; Limits is
--     `ProtocolLimits` with `validate` and `negotiate`; Version is versions, ranges, features and
--     heartbeat policies with their constructors; Hello is the two handshake messages.
--   Session: crates/weregopher-runtime-protocol/src/session.rs.
--     Stream is `StreamCredit`; Pending is `PendingRequests`; Handshake is `HostHandshake`,
--     `WorkerHandshake` and the proof that binds the nonce. A handshake negotiates with Protocol's
--     limits, ranges and features, and its welcome bounds what Stream and Pending are made with.
--   Codec: crates/weregopher-runtime-protocol/src/codec.rs.
--     Cursor is `MessagePackCursor` with `read_value`, and the check of UTF-8 behind
--     `std::str::from_utf8`; Inspect is `inspect_messagepack`, under Protocol's limits, and
--     Inspect/Values what a payload holds; Frames is `FramedWriter` and `FramedReader`, with
--     Protocol's header.
--   Renderer: crates/weregopher-renderer/src/lifecycle.rs, `RendererLifecycle`.
--   Proxy: crates/weregopher-adapter-openai/src/app_server_proxy.rs.
--     Message, Text and Limits are its data; Queue is `ProxyQueue`; State is
--     `TransparentAppServerProxy` with its accessors and `close`; Correlation is
--     `preflight_correlation` and `apply_correlation`; Admit is `admit_candidate` and `admit`; Json
--     is the bounded visitor and Prepare is `parse_bounded_json`, `classify_object`, `prepare` and
--     `ingest`;
--     Release is `release`, behind `next_for_server` and `next_for_client`; Expire is
--     `expire_requests`; Run is a session as a history of calls. Order, Waiting, Side,
--     Invariant, Retirement and Ended hold the proofs.
--   Controls: crates/weregopher-adapter-openai/src/app_server_controls.rs.
--     Method is the fingerprint of a method, Journal is `AppServerSessionEventJournal` with the keys
--     of its correlations, and Policy is the block rules and `evaluate`.
--   Process: crates/weregopher-adapter-openai/src/app_server_process.rs,
--     `AppServerProcessSession`, over the proxy, the journal and the policy. Limits and State
--     are its data, with `attach_unverified_child_with_controls`, `begin_termination` and
--     `ensure_monotonic`; Initialization is the order of the first messages; Client is
--     `send_client`, `next_for_client`, `shutdown` and `next_event`; Worker is the four
--     `consume_..._event` handlers, and Reader `reader_worker`, which cuts what it reads into
--     lines; Dispatch is `dispatch_client_frames`; Poll is `poll` with what else it calls.
--     Phase is the specification, a step relation on what shows of a session, its process and
--     its streams, with the time going on between the steps, and Session is a history of calls;
--     Refinement, Order, Ending, History, Over, Bounds and
--     Reader/Lines hold the proofs.
--   Ownership: crates/weregopher-adapter-openai/src/app_server_ownership.rs,
--     `AppServerOwnershipRegistry`, with the token of app_server_controls.rs as its journal's address
--     and its sequence. Call by call it is independent of Proxy; an adapter feeds it.
--   Examples: runs of the components, and theorems at concrete inputs.
--
-- How the code is read. A method with `&mut self` takes the state and returns it beside its
-- result; where the code can fail after a write, the written state is returned with the error.
-- A `Result` is the type of that name, and `?` is its bind. Integers are natural numbers: each
-- checked or saturating operation has the bound of its type written out, `usize` having 64
-- bits. A `Duration` and an `Instant` are numbers of nanoseconds; `instant_max` is the last
-- `Instant`, above which `checked_add` fails. An identity of the domain is the list of the
-- bytes that the code compares and hashes. A `BTreeSet` of digests is a list, since the code
-- only inserts into it, asks what it contains, counts and clears it. Loops are structural
-- recursion, but for the dispatch loop of a process session, the loop of its reader, and that
-- of the MessagePack inspection. The first has as much fuel as its limit on the events of one
-- poll, and each round raises the count that it compares with that limit, so that more fuel
-- changes nothing. The second has more fuel than there are bytes buffered and reads to come,
-- bytes counted, since each round takes one byte or one read. The third has one round for each
-- value that the limits allow, and one more.
--
-- The worker threads of a process session are the other ends of its channels. What the
-- receivers hold when a poll looks is given to the poll, as its `Inbox`, and so is what each
-- `try_send` answers; a sender is whether it is held, beside the list of what its channel took.
-- A list of received events that ends is an empty channel. An `io::ErrorKind` is a number.
--
-- Parameters: SHA-256 of the `sha2` crate is a function from bytes to bytes. The theorems that
-- need it assume that it has no collisions, on the hashed inputs that they name. `serde_json`
-- is a function from bytes to what it presents to a visitor, a tree that may hold a syntax
-- error at each place, and whether nothing but whitespace follows; its numbers are assumed to
-- fit their types. `rmp_serde` and the contract of a message are the record `ProtocolMessage`:
-- the pieces that the encoder writes, and what the decoder makes of bytes. What is relied on is
-- `IsCarried`, that it decodes what it encoded. A member without its colon
-- presents a syntax error in place of its value: where the value would exceed a limit too, the
-- code answers the one error and the model the other.
--
-- Not modelled: the diagnostics of the proxy and of a process session, which only read; the
-- worker threads but the reader of standard output, which write to pipes, drain them and wait
-- for the child, their spawning and joins, and what a failure to spawn them undoes; what a
-- failed receive leaves of its input; the other messages of the runtime protocol; the bridge
-- authority; discovery, fingerprints, transformation, certification and archives; bindings of
-- Windows and WebView2, and the command line.
pub mod Base
pub mod Protocol
pub mod Session
pub mod Renderer
pub mod Proxy
pub mod Controls
pub mod Ownership
pub mod Process
pub mod Codec
pub mod Examples
