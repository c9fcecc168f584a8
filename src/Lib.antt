-- ===== src/Lib.antt =====
-- rsbinder: a model of the RPC side of the binder library, of its parcels, and of the bookkeeping beside it.
--
-- The program: two processes hold one RPC session over a byte stream. Each message is a frame that a wire
-- codec makes and reads. A session keeps a table of the local objects that it has sent to the peer, each
-- under an address with the number of references that the peer owes, and a queue of oneway calls for each
-- object, which are executed in the order of their numbers. Beside it the library counts the proxies of
-- the process and calls a callback at watermarks, and counts the references to each native binder.
--
-- The files, with the code they model:
--   Prelude and its child modules: names passed on from the libraries, Boolean tests, lists, maps, bytes,
--     32-bit signed words. They model no code.
--   Rpc.Result: `RpcError` and its conversion from I/O errors (rsbinder/src/rpc/mod.rs).
--   Rpc.Address: addresses, roles and special transactions (rsbinder/src/rpc/address.rs).
--   Rpc.Wire.Readers: messages, the header and the bounds-checked readers (rsbinder/src/rpc/wire.rs).
--   Rpc.Wire.R34: `R34Codec` (rsbinder/src/rpc/wire.rs); its laws are in ReaderLaws, Transaction,
--     RoundTrip and Strict.
--   Rpc.Wire.Android13, Rpc.Wire.Android13Codec: `Android13PlusCodec` at versions 0 to 2
--     (rsbinder/src/rpc/wire_android13.rs); its laws are in Tables, WireAddress, Transaction13, Reply13 and
--     RoundTrip13. Rpc.Wire.Handshake: its connection header, session response and connection init, with
--     their laws.
--   Rpc.Wire.Stream: the reads and writes of messages on a raw stream, over a list of what each call of
--     `read` answers (rsbinder/src/rpc/wire_android13.rs); its laws are in Whole and Messages.
--   Rpc.Wire.Connect: `client_connect` and `server_accept` on such streams (the same file); their laws are
--     in Agreement and Handshakes.
--   Rpc.Wire.FdStream: the reads and writes of messages with file descriptors on a transport (the same
--     file); its laws are in Received and Plain.
--   Rpc.Framing: length-prefixed frames on a stream (rsbinder/src/rpc/transport/mod.rs), over a list of
--     what each call of `read` answers; its laws are in Chunks.
--   Rpc.State.Nodes: `RpcState` and its books (rsbinder/src/rpc/state.rs); its laws are in Steps, Valid,
--     Balance and Identity.
--   Rpc.State.Async: the oneway queue (rsbinder/src/rpc/state.rs) and `dispatch_oneway_ordered`
--     (rsbinder/src/rpc/session.rs); its laws are in Gate, Queue, Delivery and
--     Parked. Rpc.State.Threads: the same steps taken by several threads, whose executions overlap with
--     everything else; its laws are in Turns and Progress.
--   Rpc.Lifecycle: the state word of a session, as turns of its loops that threads interleave
--     (rsbinder/src/rpc/lifecycle.rs); its laws are in Runs.
--   Rpc.Pool: the connection pool of a session and the choice of a slot (rsbinder/src/rpc/session.rs);
--     Rpc.Pool.Threads: the threads that share it, with the guards that they hold and the waits on its
--     condition variable; its laws are in Laws, Called, Marks, Exclusive, Wakeups and Release.
--   Rpc.Calls, Rpc.Calls.Loop, Rpc.Calls.Run: `client_transact`, `dispatch_transact` and
--     `serve_once_on_slot` over one connection (rsbinder/src/rpc/session.rs), on the table of Rpc.State and a
--     wire's codec; Rpc.Calls.Dialogue: the messages of a call with all calls nested in it, which the laws
--     in Answers and Stale speak of; what a call reads is in Reads and Taken, and how it ends in Ends.
--     Rpc.Calls.Wires: the codecs of Rpc.Wire as such wires.
--   Rpc.Obituary: the death recipients of a proxy (rsbinder/src/rpc/proxy.rs); its laws are in Reports.
--   Natives: the table of native binders that the kernel knows (rsbinder/src/process_state.rs), and in
--     Natives.Objects the objects of parcels that count in it (rsbinder/src/binder_object.rs); its laws are
--     in Entries, Held, Resolved, Pins and Floors. Natives.Derefs: the decrements that a binder thread keeps
--     for later and `process_pending_derefs` (rsbinder/src/thread_state.rs); its laws are in Drained.
--   Status: status codes and their numbers (rsbinder/src/error.rs); its laws are in Codes. Status.Exceptions:
--     exception codes and statuses (rsbinder/src/status.rs); its laws are in Kept.
--   Parcel: the bytes and the cursor of a parcel, and blocks with a size in front
--     (rsbinder/src/parcel.rs, and i32 words of rsbinder/src/parcelable.rs); its laws are in Buffer, Nested
--     and Sized. Parcel.Array: arrays of fixed-size elements; its laws are in Elements.
--   LazyService: the registrar of lazy services (rsbinder/src/lazy_service.rs); its laws are in Laws.
--   ProxyCount: the proxy count (rsbinder/src/proxy_count.rs); its laws are in Live, Creates, Drops,
--     Counts, Watermarks and Deferral.
--   RefCounter: the reference counter of a native binder, as atomic steps that threads interleave
--     (rsbinder/src/ref_counter.rs); its laws are in Strong.
--
-- How the code is modelled. A byte is a natural number, a buffer a list of them. An operation that changes
-- a structure takes it and returns it with its result. A binder is the address of its allocation, which
-- is what the code compares; a weak reference is that address, with what is alive as an argument. A hash
-- map is an association list with one entry for each key. The binary heap of parked calls is the list in
-- the order in which the heap gives them out. A file descriptor and a callback are numbers. What executes
-- a transaction is a parameter, a function to a Boolean that tells whether it succeeded; in Rpc.Calls it
-- is a program that may call the peer and drop proxies. Threads are interleaved step by step: a step is
-- what one thread does under the lock, and a `notify_all` behind the lock is a step of its own.
--
-- Bounds: u32 and u64 values wrap by `%`; the frame cap is 64 MiB (`MAX_FRAME_LEN`); a queue is flushed at
-- 10000 parked calls (`ASYNC_TODO_TERMINATE_LEVEL`). The loop of `dispatch_oneway_ordered` runs on fuel,
-- one step more than the node's backlog, since each turn takes one call from it; the model's `stuck` marks
-- the fuel's end, and the delivery theorem excludes it. The calls of Rpc.Calls run on fuel that bounds the
-- depth of the recursion: a dialogue of depth `n` is served by the fuel `n`.
-- `process_pending_derefs` runs on fuel too: more than the ids that wait and those that the destructors of
-- the table's binders would queue is enough. What a destructor queues is a parameter; that it also publishes
-- binders is left out.
--
-- Not modelled: sockets, TLS and the kernel driver, which are I/O; memory order, since atomic steps are
-- taken to be sequentially consistent; locks, since each operation runs under its lock; logging;
-- assertions; the set-up of sessions and the loop of a worker; the server; the rest of parcels; copies of
-- the objects of incoming parcels; the kernel driver's other commands; and the AIDL compiler.
pub mod Prelude
pub mod Rpc
pub mod Status
pub mod Natives
pub mod Parcel
pub mod ProxyCount
pub mod RefCounter
pub mod LazyService
