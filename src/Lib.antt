-- ===== src/Lib.antt =====
-- A verification of remote_dict: a dictionary server over TCP and its test client.
--
-- The program. The server (server/) has one listener thread and a pool of worker threads, each
-- with an event loop. The listener accepts a connection and hands its descriptor to a worker, in
-- turn, through a queue and a wake-up byte in a socket pair. The worker makes a flow for the
-- connection and registers its event. The flow's callback reads the chunks of a request, a length
-- of four bytes and a Protocol Buffers message, puts them together, runs the request on the
-- dictionary and the counters that all threads share, and writes the answer. The client (client/)
-- reads requests from a file, shares them among threads, sends each on a connection of its own,
-- and writes the answers to a results file.
--
-- Which file models which part. A state is a record, an operation is a function on it of the
-- method's name, and what the operating system answers is an argument.
--   Dictionary    server/src/Dictionary.cpp, over UnorderedMap (std::unordered_map)
--   Stats         server/src/Stats.cpp
--   Payload       protobuf/src/messagebody.proto, and the interface of the serializer
--   TcpFlow       server/src/TcpFlow.cpp: Buffer (the read loop), Requests (the handlers), Write
--                 (socketWriteData), Callback (parse, sendResponse, data), Concurrent (the handlers
--                 in several threads), Ideal (what they promise: a finite map with counts)
--   EventImpl     util/src/EventImpl.cpp, over libevent as a parameter: Dispatch (the event loop
--                 between the other operations), Contexts (the contexts of signals)
--   ServiceThread server/src/ServiceThread.cpp: the queue and the wake-ups, Setup (the first part
--                 of run), Stopping (the end of run, and stop), Joining (stop with its wait)
--   ServiceWorker server/src/ServiceWorker.cpp: the flows of a worker, with the destructor of
--                 TcpFlow
--   WorkerManager server/src/WorkerManager.cpp
--   Listener      server/src/Listener.cpp, with setnonblock of util/include/Helper.h
--   TcpServer     server/src/TcpServer.cpp
--   Helper        util/include/Helper.h: trim
--   Client        client/src/Client.cpp
--   TestClient    client/src/TestClient.cpp: Input (the input file), Chunks (the division among the
--                 threads), Results (the results file), Running (start)
--   Options       atoi and the options that both programs take
--   ServerMain    server/src/main.cpp: Arguments (the options), Life (the whole run), Ending (the
--                 shutdown), Queues (what waits for the workers)
--   ClientMain    main of client/src/TestClient.cpp
--   System        the client program and the server together, a request at a time
--   Prelude, Text helpers: native numbers and lists, byte strings
--   Examples      concrete inputs
--
-- Undefined behaviour is the result `none`: a memcpy outside its allocation, a call on a null
-- filter, a division by zero, a dangling cookie, the use of an indeterminate value. Unsigned
-- arithmetic wraps as in the source (`% u32_mod`, `% u64_mod`). What threads do at once is a step
-- relation, in Dictionary/Race and Dictionary/Concurrent for `set` and `get`, in Stats/Concurrent
-- for the counters, in TcpFlow/Concurrent for the handlers with both, in ServiceThread/Wakeups for
-- the hand-over and in ServiceThread/Stopping for the end of a thread; the callbacks of the whole
-- server in any order, each run to its end, are one in TcpServer/Callbacks. What happens one after
-- the other, such as the wake-ups of a connection (TcpFlow/Messages/Sequences) or the signals and
-- connections while main waits, is a list.
--
-- Fuel and bounds. The read loop of a flow has the 50 rounds of the source. The write loop runs on
-- the list of what the socket answers, of which Linux takes at most MAX_RW_COUNT bytes a time;
-- without an answer left it is still looping, and its `int` sum has no value behind an overflow.
-- The loop over the input file runs on fuel, and more fuel than the file has bytes and one is
-- enough. A number of 64 bits has at most 20 digits.
--
-- Parameters. The Bloom filter library (util/include/bloom_filter.hpp, a copy of another project's)
-- is the record BloomFilter with its documented laws: no false negatives, and a new filter is
-- empty. The Protocol Buffers runtime is the record Codec: a message with its required field comes
-- back from its bytes, and where the client reads an answer with the zero byte behind it, the
-- parser stops at that byte and keeps what it has read. The allocator says which sizes it gives.
-- libevent is the record LibEvent in EventImpl, where an event is pending from its addition to its
-- deletion, and its loop calls back for pending events in any order; elsewhere an event is a call
-- of its callback. What getopt_long gives is a list.
--
-- Not modelled: the time that libevent waits in its loop, a STAT among the handlers of several
-- threads, which reads the counters without their lock (a data race), the output of printf, the
-- time of day in the name of the results file, and the addresses of the sockets.
mod Prelude
pub mod Options
pub mod ServerMain
pub mod ClientMain
pub mod Text
pub mod UnorderedMap
pub mod BloomFilter
pub mod Dictionary
pub mod Stats
pub mod Payload
pub mod TcpFlow
pub mod EventImpl
pub mod ServiceThread
pub mod ServiceWorker
pub mod WorkerManager
pub mod Listener
pub mod TcpServer
pub mod Helper
pub mod Client
pub mod TestClient
pub mod System
mod Examples
