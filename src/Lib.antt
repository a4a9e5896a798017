-- ===== src/Lib.antt =====
-- The package raknet: Python bindings for the RakNet networking library, and a synchronous layer over
-- them. It is made of these parts, bottom up:
--
--   Raw         src/raknet_python.cpp: the enumerations that the binding registers (Raw/Enums,
--               Raw/MessageId), addresses and socket descriptors (Raw/Address, Raw/Socket), and the
--               methods of `RakPeer` (Raw/Peer; Raw/Peer/Packets and Raw/Peer/Datagrams for those that
--               move packets, Raw/Peer/Buffers for those that copy lists and buffers out, and
--               Raw/Peer/Security, Identity, Timing, Tuning and Figures for those that hand on).
--               Raw/Guid, Raw/Target and Raw/Statistics are RakNetGUID, AddressOrGUID and
--               RakNetStatistics.
--   Exceptions  src/raknet/exceptions.py.
--   Mailbox     `_Mailbox` of src/raknet/_peer.py, the receive queue of one connection, with
--               `Connection.recv`, `Connection.poll` and `Connection.__iter__`.
--   Router      src/raknet/_router.py: which callback of a sink a packet reaches.
--   AsyncMailbox `_AsyncMailbox` of src/raknet/asyncio.py, with the callbacks of its event loop.
--   Peer        `Peer` of src/raknet/_peer.py, with its `Connection`, `_PendingConnect` and
--               `_PendingPing` objects: Peer/Sink for the callbacks that the router makes, Peer/Pump
--               for the thread that receives packets, Peer/Closing, Peer/Connecting, Peer/Pinging,
--               Peer/Accepting, Peer/Talking and Peer/Starting for the methods that users call, and
--               Peer/Steps for all of them in any order. Peer/Threads cuts the callbacks and the
--               methods into the blocks that threads interleave, and takes them one at a time.
--               Peer/Calls has `connect` and `ping` as a
--               whole, and Peer/Calls/Factories the functions that make a peer of their own.
--   AsyncPeer   `Peer` of src/raknet/asyncio.py, over the blocks that it shares with Peer. Its
--               connections have the synchronous mailbox, which AsyncMailbox/Refines relates to that
--               of the event loop; its accept queue is a plain queue, and AsyncPeer/AcceptQueue is
--               that of the source. The event of a pending call is set when the pump thread sets
--               it; AsyncPeer/Events has the callback of the loop that lies between.
--               AsyncPeer/Factories has the functions that make a peer.
--   Prelude     the helpers that the parts share: tests, lists, C integers, dictionaries, stores.
--   Examples    a small RakNet that can be computed with, and runs of the model on it.
--
-- RakNet is no part of the repository. Raw/Interface lists what the binding takes from it as the
-- fields of a record `RakNet`, which every definition above it has as a parameter; a method of
-- `RakPeerInterface` is a function over a state of the library. Whether `data()` of an
-- empty vector is null, which C++ leaves open, is one more of its fields. Raw/Methods and Raw/Members are such
-- records for what only the binding hands on. What a theorem needs to know of
-- RakNet is a hypothesis of that theorem (LendsPackets, ListsConnections, KeepsPassword,
-- ShortReports, the answers in IsAnswered and IsPonged, and the distinct numbers of the message ids). Name resolution and the clock are
-- arguments in the same way.
--
-- The state of a component is a record with the fields of the source, without the leading underscore.
-- An object that several places refer to (a connection, a pending call) stands in a store of
-- Prelude/Objects and is held by its reference. A Python dictionary is an association list. An
-- exception is a value of Exceptions, an `assert` that fails and an access out of bounds are `none`.
-- A block under a lock is one step. A wait is the list of the steps that the other threads make
-- meanwhile, or a function that stands for them; that it lasts for ever is a result of its own.
-- Numbers are natural numbers; the casts of the binding keep their wrap-around, on an `int` of 32
-- bits, an unsigned `size_t` cast to 32 bits, and a `char` of 8 bits that is signed.
--
-- The only fuel is that of `iterate`, one unit for each message and one for the end; the theorem on
-- it says that so much is enough. Both `serve_forever` go by the list of what others do during each of
-- their waits.
--
-- Peer/Steps takes a callback, a `close` and the like as one step each. Peer/Threads does not: a
-- thread's program is a list of blocks, where a block is a `with self._lock`, one call of a mailbox, a
-- queue, an event or RakNet, or one test of, or assignment to, a field that another thread may write;
-- any number of threads runs, each begins any callback or method at any time, and none is held up by a `join`,
-- which allows more than the source does. An `except asyncio.CancelledError` is reached by an argument
-- that says at which `await` the task is cancelled.
--
-- Not modelled: of src/raknet/asyncio.py, the set that holds the tasks of `serve_forever`, and a
-- second cancellation during the `close` of a factory; `__repr__` and context managers;
-- `RakNetGUID.__repr__` and the clock functions of the binding; the texts of tracebacks; the sleeping
-- of the pump thread.
pub mod Prelude
pub mod Raw
pub mod Exceptions
pub mod Mailbox
pub mod Router
pub mod AsyncMailbox
pub mod Peer
pub mod AsyncPeer
mod Examples
