-- ===== src/Lib.antt =====
-- CoreRaT, the communication core of a real-time robotics toolkit: mailboxes between processes and
-- hosts, routers between them, and a logger for real-time threads.
--
-- The parts, and the files that model them.
--   Evl/Registry   include/corerat/ipc/evl/evl_backend.hpp: the process-local table of mailboxes.
--                  registry_insert, registry_remove, registry_find and registry_hash keep their
--                  names; the loops are insert_loop, remove_loop and find_loop.
--   Evl/Ring       the same file: the ring of a mailbox. find_free_slot, has_in_use_slot,
--                  find_highest_priority_slot, evict_lowest and post keep their names; take_highest
--                  is what receive_raw does once it holds the mutex, and Evl/Ring/Remote is
--                  post_to_remote.
--   Evl/Remote     the same file: the cache of remote handles, get_or_open_remote and what it calls.
--   Evl/Local      the same file: send_raw of a mailbox in the local mode, from Evl/Registry to Evl/Ring.
--   Evl/Public     the same file: send_raw in the public mode, through Evl/Remote and Evl/Ring/Remote.
--   Evl/Lifecycle  the same file: initialize and shutdown, and what they hold of the system.
--   Evl/Receive    the same file: receive_impl on the ring, with its waits, and in Evl/Receive/Poll in its
--                  three modes, with the poll of the ring and the cross-buffer.
--   Evl/Inband     the same file: InbandScope, its constructor (enter) and its destructor (leave), each with the
--                  answers that libevl gives it.
--   Evl/Names      the same file: evl_name, shm_name and the names of the other shared objects.
--   Evl/Network    the same file: EvlNetworkConfig and the network mode, with create_network_config of
--                  include/corerat/ipc/mailbox.hpp.
--   Log/Logger     include/corerat/logging/rt_logger.hpp: commit and the drain thread. The pieces
--                  is_full, fill, publish, is_empty, peek and advance are the code between two
--                  atomic accesses, and Log/Logger/Concurrent interleaves them as a step relation.
--   Log/Level      include/corerat/logging/log_level.hpp.
--   Log/Stream     include/corerat/logging/rt_log_stream.hpp: RtLogStream, from its construction to its
--                  commit; push is operator<<.
--   Log/Sink       include/corerat/logging/log_sink.hpp: terminal_write and tims_write are the write of
--                  TerminalSink and of TimsSink.
--   Tims/Protocol  include/corerat/ipc/tims/protocol.hpp: the frames between clients and routers.
--   Tims/Socket    include/corerat/ipc/tims/tcp_socket.hpp: the loops of send_all and recv_all, and in
--                  Tims/Socket/Owned who owns the descriptors.
--   Tims/Mailbox   src/tims_backend.cpp: TimsMailbox over the byte streams to and from its router.
--   Router         src/router/tcp_router.cpp: Router/Registry is MailboxRegistry, Router/Tcp the
--                  handlers of Connection and TcpRouter, Router/Tcp/Run the loops around them, and
--                  Router/Tcp/Client a mailbox of Tims/Mailbox as its client.
--   Router/Evl     src/router/evl_router.cpp: Router/Evl/Routes is its MailboxRegistry, Router/Evl the
--                  handlers, Router/Evl/Run the loops and XbufEntry::run_reader (xbuf_round). What it
--                  has in common with the TCP router is a Router/Tcp inside its state, and
--                  Router/Evl/Erase forgets what it has besides.
--   Router/Server  the same files: ServerSocket.
--   Router/Options src/router/tcp_router.cpp and evl_router.cpp: main and its command line; tcp_main and
--                  evl_main are the two programs, and Router/Options/Print makes arguments of options.
--   Message        include/corerat/messaging: Message/Wire is WireHeader and its bytes, Message/Id
--                  message_id.hpp, Message/Registry message_registry.hpp, with the names of its
--                  templates, and Message/Registry/Filter registry_utils.hpp. Message/Sample is a
--                  stand-in for the serialising library, for runs on concrete messages.
--   Mailbox        include/corerat/ipc/mailbox.hpp: Mailbox over a backend, which is the record of
--                  operations of Mailbox/Interface; Mailbox/Tims makes Tims/Mailbox one. Mailbox/Name is
--                  the name that create_backend_config makes, Mailbox/Moves its moves, and Mailbox/EndToEnd a
--                  message from one mailbox to another through a router.
--   Platform       include/corerat/platform: Platform/Duration is duration.hpp; Platform/File and
--                  Platform/Thread are File and Thread, in Std and in Evl, over the machine of
--                  objects that own resources in Platform/Owner; Platform/Condition is the EVL
--                  ConditionVariable, and Platform/Time the clocks and the sleeps.
--   Base           shared helpers: tests on numbers, lists, integers, bytes and texts.
-- A client's mailbox registers with a router by frames of Tims/Protocol; Router/Tcp keeps the
-- registrations in Router/Registry and passes frames on. Within one host a mailbox is found in
-- Evl/Registry and its messages stand in an Evl/Ring. A program uses a Mailbox, which serialises by its
-- Message/Registry and sends over its backend; an Evl router carries what goes between the two worlds.
--
-- State is a record and each operation a function from state to state. What a mutex serialises is
-- one step; the logger, whose drain thread takes no mutex, is modelled by its atomic accesses, in one
-- order for all threads, although commit loads tail_ relaxed.
-- Machine integers are numbers with the wrap-around written out: registry_hash and the offset of
-- a slot of a ring (slot_ptr) wrap at 2 ^ 32, the counters of the logger at 2 ^ 64, an int8_t is an
-- integer between -128 and 127. The loops of the
-- registry run over all its 512 slots, the loops over slots over the slots; the loops around system
-- calls recurse on the list of the answers. Fuel is used for the loop of clean, one round more than
-- messages are pending, for the digits of a 32-bit id, ten, and for those of a number the number plus
-- one.
-- A memory access outside the slots of a ring is a fault, the value none.
--
-- Parameters: whether a link takes a frame (up) and whether a socket is ready (poll) are the
-- operating system's answers, as are the lists of answers of send, recv and poll, the descriptors and
-- handles that it gives, which were not in use (IsFresh, IsNew), the clocks, and how a wait ends; the append of a
-- fixed_string and the swap of a WireHeader are the sertial library's.
-- The serialiser and the deserialiser of payloads (sertial and deserialize), the sizes of messages, and
-- the parsing of an address are parameters too; hypotheses on them are named (Inverts, IsSized,
-- IsPrefixed).
-- Not modelled: system calls and libevl, mutexes, signals and printing, which have no logic of their own.
-- Durations are integers without a range: C++ leaves an operation whose result leaves int64_t undefined.
pub mod Base
pub mod Evl
pub mod Log
pub mod Mailbox
pub mod Message
pub mod Platform
pub mod Router
pub mod Tims
