-- ===== src/Lib.antt =====
-- libserverkit: a small C++ library for network servers with protobuf RPC. One thread accepts
-- connections, worker threads serve them.
--
-- Parts and how they interact. A worker owns a poller and a mailbox. Another thread hands it work by
-- `Mailbox::Send`, which writes into a `YPipe` and wakes the worker through a `Signaler`. Each thread
-- has a pool of recycled buffers (ObjectPool); a `BufferList` is a byte queue over a chain of such
-- buffers, and a socket has one for what it read and one for what it has to send. On the two byte
-- queues a `PacketParser` receives and sends packets; a `RpcChannel` is the client's end: it numbers
-- the calls, keeps their contexts, and completes a call when its reply comes.
--
-- Base holds the shared helpers: tests on numbers, lists measured by native numbers, lists of
-- addresses, and a memory of bytes with `memcpy`.
-- ObjectPool is src/base/object_pool.h: `get`, `free`, `allocate`. A pointer is an address, `NULL`
-- is 0, and `new` gives the next address that was never used.
-- Buffer is the class `Buffer` of src/base/buffer.h, with `cur_` as an offset.
-- BufferList is the class `BufferList` of src/base/buffer.h and src/base/buffer.cc, with its
-- counters modulo 2^64. Its loops run on fuel: `Read` is given one round more than the bytes asked
-- for and `Write` one more than the bytes given, since each round moves at least one byte.
-- ByteQueue is the interface by which the packet parser uses a socket's buffer, and
-- ByteQueue/OfBufferList fills it with the buffer list.
-- Rpc/Packet is src/rpc/packet.h: a packet and its bytes in memory, little-endian.
-- Rpc/Parser is src/rpc/packet_parser.cc: `recv_packet` and `send_packet`. The loop of `RecvPacket`
-- is given three rounds: header, content and end, and no state comes back within one call.
-- Rpc/Channel is src/rpc/rpc_channel.cc, with src/rpc/request_context.h and the connect step of
-- src/core/socket.cc: each method is a function from the channel to the channel and a list of
-- effects. History runs a sequence of events: calls, the connection, arriving packets. Protobuf is
-- a parameter: a message is its bytes, and `parses` says which bytes it accepts.
-- Rpc/Session is the server's end: src/rpc/rpc_session.cc, and the methods' map of
-- src/rpc/rpc_service.cc. What a service's method does is not part of it: it is called with the
-- request, and `onResponse` runs when it answers.
-- Rpc/Stream has the loops of `OnRead` in src/rpc/rpc_channel.cc and src/rpc/rpc_session.cc: the bytes
-- of a connection come in pieces, and the loop receives and handles packets until `RecvPacket` fails.
-- It is given one round more than there are bytes, since each packet takes at least one.
-- Rpc/Stream/Connection has this loop behind the socket's `In`; what a handler asks for is carried out
-- behind the loop. Rpc/Stream/Served puts a channel, the wire and a session one behind the other, and
-- Rpc/Session/Methods takes the map of methods up to what is found in it. Rpc/Controller is
-- src/rpc/rpc_controller.h.
-- Net is src/base/net.cc: `Recv` and `Send` between a buffer list and the system, and `Listen`,
-- `Accept` and `ConnectAsync`. The system is a list of answers, one for each call in turn, and a loop
-- takes one answer in each round, so that the answers are its fuel.
-- Socket is src/core/socket.cc: each method is a function from the pool of buffers and the socket to
-- these and a list of effects: callbacks of the handler and calls of the poller. The loops of `In` and
-- `Out` are given one and two rounds more than there are answers.
-- Epoll is src/core/epoll.cc: the entries, what waits for deletion, and the dispatch of events. What a
-- handler asks of the poller is a function of the call and the poller's state.
-- Server is src/core/application.cc, src/core/listener.cc and src/core/worker.cc: whom a new
-- connection goes to, and the loop that accepts connections. Server/Listeners has the listeners by
-- their addresses, with the services that are registered at each.
-- Time is src/util/time.cc, in seconds that are not negative; its variables that would be negative are
-- subtracted. Time/Gregorian has the calendar, by recursion on years and months.
-- TimerThread is src/core/timer_thread.cc: the 64 slots of cached times, and their readers.
-- Text is `stringAppendV` of src/util/string.cc, with `vsnprintf` as a parameter. Its loop doubles the
-- buffer from 1 KB to 32 MB at most, so that 16 rounds are enough. Text/Hex is `StringToHex`.
-- YPipe is src/base/ypipe.h with the compare-and-swap of src/base/atomic.h. A pointer into the queue
-- is a slot's index in the order of `Push`. YQueue is src/base/yqueue.h, which holds these slots: a
-- chain of chunks at addresses, with a spare chunk; memory that is freed is not used again. The loop of
-- its destructor is given as many rounds as chunks were ever allocated and one.
-- Mailbox is src/core/mailbox.cc and src/core/signaler.cc: the threads' atomic steps as a relation
-- between states. `Send` is its locked part up to the compare-and-swap, the store that follows a
-- failed one, and the signal after the lock is given back; `Recv` is one step while the reader is
-- active, and one after a signal. The counter of the event descriptor goes up
-- to 2^64 - 2; a write that would lead beyond fails.
-- GlobalId is src/util/global_id.cc: batches of identifiers. Time, the host's name and the hash of
-- src/util/lookup8.cc are parameters.
-- Poller is src/core/poller.cc: the two maps of the timers, `AddTimer`, `CancelTimer` and
-- `executeTimers`, where a timer's callback is an effect. Poller/Callbacks has `executeTimers` with
-- callbacks that use the poller: its loop is given one round more than timers are due.
-- SpinLock is src/base/spin_lock.h and src/base/spin_lock.cc, by the steps of any number of threads:
-- a schedule is the list of the threads' turns. Thread is src/base/thread.cc: `Start`, `Join` and the
-- new thread's `main`, with the spin lock between them; `pthread_create` is a parameter.
-- Log is src/base/log.h and src/base/log.cc: the levels, and a message from its constructor to the
-- hand-over to the log thread. Slice is src/base/slice.h, over the bytes of memory.
-- LogThread is src/base/log_thread.cc: the exchange of its two lists of messages, what it appends to
-- the file, and when it flushes. LogThread/Disk has the messages' bytes behind it, and File is
-- src/base/file.cc. The mutex makes the sends and the exchange steps of a sequence.
--
-- Not modelled: the assertions that log, the system's calls, and protobuf.
pub mod Base
pub mod Buffer
pub mod BufferList
pub mod ByteQueue
pub mod Epoll
pub mod File
pub mod GlobalId
pub mod Log
pub mod LogThread
pub mod Mailbox
pub mod Net
pub mod ObjectPool
pub mod Poller
pub mod Rpc
pub mod Server
pub mod Slice
pub mod Socket
pub mod SpinLock
pub mod Tests
pub mod Text
pub mod Thread
pub mod Time
pub mod TimerThread
pub mod YPipe
pub mod YQueue
