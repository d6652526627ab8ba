-- ===== src/Lib.antt =====
-- foxdbg: a library that a robot's program links to show its data in Foxglove Studio. The
-- program adds channels and writes frames to them from any thread; a server thread sends the
-- newest frame of each subscribed channel over a WebSocket.
--
-- The parts and the files that model them. Paths are from the repository's root.
-- - lib/foxdbg_buffer.c, the double buffer between a writer and the server thread. Os has the C
--   library's allocation and mutexes, as scripts of answers with counters. Buffer has
--   `foxdbg_buffer_alloc` and `foxdbg_buffer_free`. Buffer/Calls has the other functions as
--   lists of accesses to the shared buffer: a lock, an unlock, the read of a pointer, a copy,
--   the exchange. Buffer/Alone runs them on one thread, and Buffer/Alone/Mailbox compares that
--   with a mailbox for one frame. Buffer/Threads runs any number of threads on one buffer, one
--   access at a time in any order: a state is the buffer with what each thread has left to do
--   and holds, `Step` is one access of one thread, `Reach` the states that can be reached.
--   Buffer/Bytes does the same with each `memcpy` made one byte at a time, and Buffer/Pool with
--   any number of buffers, those of all channels.
-- - lib/foxdbg_channel.h: Channel has the channel and its type, Protocol/Layout the structures
--   of the payloads.
-- - lib/foxdbg.c, the public interface: Registry. The static variables are a record. A linked
--   list of channels is the list of its nodes in the order of the links; the walk that links a
--   new node is `link`; Registry/Links has the nodes with their pointers, and the loops that
--   walk them. A call of `foxdbg_add_channel` is split where it returns early: `add_sized`,
--   `add_data`, `add_info`, `add_node`.
-- - lib/foxdbg_protocol.cpp: Protocol has the static buffers, the client and the sending of one
--   message, Protocol/Frame and Protocol/Delivery what a sending leaves, Json the JSON values,
--   Protocol/Image the encoder of images, Protocol/Messages the values that each sender builds,
--   Protocol/Senders the senders, with Protocol/Senders/Hazards for the payloads that they must
--   not be called on, Protocol/Transmit the walk that sends what is due, with Protocol/Clock
--   for its time, Protocol/Session the arrival and leaving of clients and the advertisement,
--   Protocol/Receive the handler of the client's messages.
-- - lib/foxdbg_thread.cpp: Thread has the callback of libwebsockets that calls the protocol's
--   functions, Thread/Shutdown the start, the loop and the shutdown of the server thread, as
--   steps of two threads, Thread/Priority the priority that it asks for.
-- - App puts the parts together: a state holds the static variables of all files, and an action
--   is a call of the public interface, a callback of libwebsockets or the shutdown. App/Journey
--   follows a frame from the connection of a client to the message that it gets.
--
-- Conventions. A byte is a number, a block of memory the list of its bytes, a `size_t` a number
-- with its wrap-around written out, an `int` the type ℤ of Base/Int. A float is its bit
-- pattern. A call returns an Outcome: `ok` with a value, `blocked` where a thread would wait,
-- `fault` where the behaviour is undefined (a copy out of range, a mutex that is not held, a
-- division by zero, a pointer of a transform that leads to no string, a `tjCompress2` that is
-- asked to read past `raw_data_buffer`) or an exception leaves the function. One undefined
-- behaviour is counted and does not fault: the `pthread_mutex_destroy` of a mutex that is not
-- initialised, in `stray` of Os, since the cleanup of lib/foxdbg_buffer.c goes on behind it and
-- its frees are of interest. In Buffer/Calls a `memcpy` is one access, in Buffer/Bytes each of
-- its bytes is a step; the assignments of the swap, under all three mutexes, are one access. A
-- copy out of range is `none` of `memcpy`, so a bound is the absence of a fault. Subscript and
-- size types are those of 64-bit Linux.
--
-- Fuel. `decimal` has fuel for ten digits, enough for every `int`; the loops on pointers of
-- Registry/Links have fuel for one round more than there are nodes, and end with it. All other
-- loops of the program walk a list and are structural recursion.
--
-- Parameters. Protocol takes `LWS_PRE`, the readings of the clocks, `json::dump`, the float
-- operations, the C string that a pointer leads to, where it leads to one, and `tjCompress2` of
-- libjpeg-turbo from a record, Env; `tj_compress` of Protocol/Senders has what that function is
-- documented to read: height times width pixels, of 1, 3 or 4 bytes; Receive takes
-- `json::parse` and the accessors of the JSON library from a record, JsonLib. What `lws_write`
-- is given is kept as the list of messages that were sent.
--
-- Not modelled: the Windows branches, the affinity of threads, the inside of `lws_service` (it
-- returns for an event or for a cancellation, and sleeps otherwise, as its documentation says),
-- a context of libwebsockets that cannot be created, the atomic macros (an atomic access is one
-- step), tracing output, and the third-party code under extern. `foxdbg_update` is declared and
-- defined nowhere. The read that `send_pointcloud` makes of the buffer behind
-- `foxdbg_buffer_end_read`, at line 752 of lib/foxdbg_protocol.cpp, outside every lock, is no
-- access of the threads of Buffer/Threads and Buffer/Bytes: their reads are the copies between
-- `foxdbg_buffer_begin_read` and `foxdbg_buffer_end_read`. The senders of Protocol, and the
-- actions of App, use the buffers as a thread that meets no other; Buffer/Threads, Buffer/Bytes
-- and Buffer/Pool have the interleavings.
--
-- Tests has runs of the model, and the theorems below applied at concrete inputs.
pub mod Base
pub mod Outcome
pub mod Os
pub mod Buffer
pub mod Channel
pub mod Registry
pub mod Json
pub mod Protocol
pub mod Thread
pub mod App
mod Tests
