-- ===== src/Lib.antt =====
-- coactor: a runtime for actors that are addressed by type and id, each active on one node of a
-- cluster at a time. A client opens a session with an Actor; the server that owns the Actor
-- activates it, feeds its mailbox and sends events back; a coordination store holds a lease for
-- each node and an ownership record for each address.
--
-- The parts, the code that each models, and its file:
-- * Failure (coactor/src/actor.rs, coactor/proto/transport.proto): SendError, OpenError and the
--   wire numbers of to_wire and from_wire.
-- * Address, Address/Keys (coactor/src/actor.rs, coactor/src/cluster/s3.rs): ActorAddress,
--   is_dns_label, the object keys and the reading of listed keys.
-- * Transport (coactor/proto/transport.proto, coactor/src/transport/mod.rs,
--   coactor/src/client/mod.rs): the messages, and the sending half of a stream.
-- * Sessions (coactor/src/runtime/session.rs): SessionRegistry and its operations.
-- * Server, Server/Dispatch (coactor/src/runtime/core.rs, route.rs, message.rs, the head of
--   lifecycle.rs): ServerInner, dispatch_message, the routes and their permits.
-- * Server/Sessions (coactor/src/runtime/core.rs): open_local_session, close_local_session,
--   dispatch_remote_message, dispatch_inbound.
-- * Server/Shutdown (coactor/src/runtime/shutdown.rs): shutdown and fence.
-- * Cluster, Cluster/Router (coactor/src/cluster/authority.rs, routing.rs): the records, and
--   resolve, claim and release_local_owner of ClusterRouter.
-- * Cluster/Lease (coactor/src/cluster/node.rs, the end of authority.rs): NodeAuthority,
--   confirm_node_lease, and in System the task of spawn_lease_renewal.
-- * Cluster/TestStore (coactor/src/test_support.rs): the store in memory,
--   TestCoordinationStore.
-- * Cluster/Placement (coactor/src/cluster/placement.rs): P2cPlacement, pick and
--   on_placement_failed. Floats are a parameter.
-- * Cluster/S3 (coactor/src/cluster/s3.rs): the lease and ownership objects of
--   S3CoordinationStore. The requests of S3 (Objects) and the encoding of serde_json (Json) are
--   parameters.
-- * Cluster/S3/Directory (coactor/src/cluster/s3.rs): fetch_nodes and list_nodes.
-- * Server/Builder (coactor/src/runtime.rs): ServerBuilderCore with validate and
--   build_with_authority.
-- * Server/Task (coactor/src/runtime/lifecycle.rs): the task of spawn_actor, execute_message
--   and fail_pending. The hooks of the application (Hooks) are a parameter.
-- * Client (coactor/src/client/mod.rs, session.rs): ClientInner with its connections and
--   sessions; Client/Receive: the receive loop and shutdown; Client/Open, Client/Open/Rounds:
--   Client::open and what it calls.
-- * Tokio (the tokio library): the semaphore and the bounded channel of tokio, as operations
--   with their documented behaviour. Base: shared names, lists, maps, numerals.
--
-- How they interact: dispatch_inbound takes the owner that Router.resolve found, with the
-- permit that it may hold, and hands the permit to open_local_session and dispatch_message,
-- which put it into a route or give it back. dispatch_message asks the authority of
-- Cluster/Lease. The router uses any store (the interface Coordination); Cluster/TestStore and
-- Cluster/S3 are two. Server/Task works on the server of Server/Dispatch.
--
-- The state of the code behind locks is a record that an operation takes and returns. A
-- function that waits is split where it waits: open_local_session and finish_open, begin_fence
-- and finish_fence, begin_shutdown and finish_shutdown. The calls of senders are lists in the
-- order of the calls, and what a sender answers is an argument. In Cluster/Lease/System the
-- renewal task, its shutdown and the release that follows, its store, other sessions and the
-- clock move in any order; other sessions, also of the same Node ID, renew and release with the
-- revisions that they were given; one clock serves the node and the store, and of the 2^64
-- lease generations some are left when the task wakes. In Server/Task the task takes one event
-- at a time: an arrival in its mailbox, an arm of select!, an abort. In Client/Open/Rounds a
-- round takes the answers that its waits end with, and what the other tasks of the client do
-- meanwhile as functions; the connections, which are shared, are kept by their ids. Panics are
-- "none". A text is its list of bytes.
--
-- Bounds: resolve makes at most 3 rounds and a confirmation at most 3 reads, as the code does:
-- the round count is the fuel, and running out is the code's own answer after its loop. Epochs
-- and lease generations saturate at 2^64 - 1, route generations wrap at 2^64, the pages of a
-- listing are taken on fuel, for which one round for each page is enough, Client::open runs
-- over the list of the answers so far, and goes on while it wants another round, the draws of
-- the random source are a list, whose end is shown not to be reached before two indices differ
-- in it, and the decimal numeral of a revision takes one round for each digit.
--
-- Not modelled: the hooks of the application, an abort within a hook, the aborts of the
-- client's receive loops, the builders but for that of the server, the transports, the macros,
-- logging, and the lists of inbound tasks.
pub mod Address
pub mod Base
pub mod Client
pub mod Cluster
pub mod Failure
pub mod Server
pub mod Sessions
pub mod Tests
pub mod Tokio
pub mod Transport
