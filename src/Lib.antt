-- ===== src/Lib.antt =====
-- Seabolt, the C connector library for Neo4j: a model of its core, and what is proved of it.
-- Paths are from the repository's root; all the code stands in src/seabolt/src/bolt/.
--
-- A request is a message, a structure value. protocol.c writes it with packstream.c into a buffer
-- (buffering.c) and moves it in chunks into the transmission buffer, which communication.c sends
-- over a transport. connection.c holds the buffers and the status of one connection; the
-- protocol's version (v1.c, v2.c, v3.c) makes the requests, and reads the responses from the
-- receive buffer. Connections live in no pool (no-pool.c), or in direct pools (direct-pool.c),
-- one for each server; the routing pool (routing-pool.c) keeps the pools, and chooses the server
-- by the routing table (routing-table.c), whose sets of addresses are address-set.c.
--
-- Files:
-- - Prelude: shared names, lists measured by native numbers, Boolean tests, signed integers and
--   machine words. Error: the codes of error.h.
-- - Mem: mem.c. `allocate`, `reallocate`, `deallocate` and `adjust` are the functions BoltMem_*
--   on the three counters, with the C library's answer as an argument; `be_bytes` and `be_value`
--   are memcpy_be on a little-endian host.
-- - Buffer: buffering.c, a function for each BoltBuffer_*. A block of memory is a map from
--   indices to bytes, so that what a new block holds is arbitrary. Buffer.Contents has the well-
--   formedness and the view as a queue, Buffer.Refine the refinement.
-- - Values: values.c. `copy` is BoltValue_copy, `format_as_*` the functions
--   BoltValue_format_as_*.
-- - Packstream: packstream.c. Load is the writer and Unload the reader, a function for each of
--   the source's; Encoding is the byte form, described without buffers. A `Result` is success, a
--   status code, or a fault: a failed assertion, or a read of something that was never set:
--   behind it the C code goes on, and the model does not. The reader runs on fuel, one more than
--   the bytes that can be unloaded, since each nested call takes a byte; a run out of fuel is
--   `stuck`.
-- - Protocol: protocol.c, the message and push_to_transmission. The loop has as much fuel as
--   bytes: each round takes one at least.
-- - Communication: the two transfer loops of communication.c. The transport is a record of
--   functions on a state that is not known. The loops run on fuel: the size to send, and the
--   smallest size to receive. That is enough over a transport each of whose successful calls
--   moves a byte at least, the law `Transmits`; one that succeeds with no bytes, as a TLS call
--   may, is outside of it.
-- - Status: the state of a connection and its error, of status.h and status.c.
-- - Connection: status changes, send and receive of connection.c. An `Outcome` is the end of a
--   function, a fault, or `stuck`, out of fuel. The loop of receive has the missing bytes as
--   fuel: each round that succeeds brings one at least. The tail of connection.c, from fetch on,
--   is Conversation, over an interface for what it calls of the protocol.
-- - ProtocolV1: v1.c, and the signatures of v2.c. Code and Signatures are the tables, Session the
--   state and load_message, Requests the requests, Metadata the metadata of a summary, Responses
--   the reader of messages and of their data. Assembly, Unloading, Extraction, Settling,
--   Summaries, Arrival, Fetching and Loading are proofs. The loops over responses and over their
--   chunks run on fuel: more than the bytes up to the answer is enough.
-- - ProtocolV3: v3.c. Signatures are the tables, Dictionary how an entry is found by its key and
--   written, Transactions the metadata of BEGIN and RUN, Hello the HELLO message. Assignment,
--   Settings and Greeting are proofs.
-- - Conversation: fetch, fetch_summary and init of connection.c over the interface `Protocol`;
--   Conversation.V1 fills it with version 1, and has the functions that pass a request on. The
--   loop of fetch_summary has fuel of its own: more than the records is enough.
-- - NoPool: no-pool.c. A connection is a number, and the statuses of the connections that live
--   are a map. `none` is a call that would free a connection twice. NoPool.Arrays has the well-
--   formedness; Removal and Liveness are lemmas, Lifetimes has all orders of calls.
-- - Address and AddressSet: host and port, parsing, and the sets. -1 is `none`.
-- - RoutingTable: `update` is RoutingTable_update; `none` is a read through a NULL pointer. What
--   the code reads of memory behind a text is the argument `Memory`.
-- - DirectPool: a round of BoltDirectPool_acquire is `try_acquire`, with the state of the pool
--   before and after; BoltDirectPool_release is `release`. The calls of connection.c and
--   address.c are the record `Calls`. DirectPool.System has all orders of rounds and releases.
-- - RoutingPool: ensure_server, with what other threads do in the two places where it holds no
--   lock as arguments, the refresh loop, error handling, and the choice of a server. What a
--   discovery over one router does is an argument, `Discovery`.
-- - Examples: small inputs.
--
-- Numbers: sizes and indices that the code never makes negative are natural numbers; signed
-- fields are integers; what is stored in w bits is reduced by 2 ^ w. The fields of type int of a
-- buffer are not wrapped: Buffer.Bounds says when they stay in range.
--
-- Not modelled: the state, the loads and the responses of version 3 of the protocol (v3.c), the
-- opening of a connection and its handshake, configuration and the printing of values; the
-- transports, TLS, threads, clocks and log texts, which are calls of the system or of other
-- libraries. Functions that only free memory have no model.
pub mod Prelude
pub mod Error
pub mod Status
pub mod Mem
pub mod Buffer
pub mod Values
pub mod Packstream
pub mod Protocol
pub mod Communication
pub mod Connection
pub mod ProtocolV1
pub mod ProtocolV3
pub mod Conversation
pub mod NoPool
pub mod Address
pub mod AddressSet
pub mod RoutingTable
pub mod DirectPool
pub mod RoutingPool
pub mod Examples
