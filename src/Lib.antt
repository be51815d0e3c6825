-- ===== src/Lib.antt =====
-- IOLoop: an asynchronous networking library on boost::asio, with byte buffers, message codecs, TCP
-- connections, a connector, timers, and an HTTP server on top.
--
-- The program's parts and how they interact. A loop (Net/IOLoop.cpp) runs functions on one thread.
-- A connection (Net/TcpConnection.cpp) owns an input and an output buffer (Net/Buffer.cpp), reads a
-- header of four bytes and then the body that it announces, and hands the input buffer to a message
-- callback; a codec (Net/Codec.cpp, Net/ProtobufCodec.cpp) is such a callback, and takes messages
-- out of the buffer. A connector (Net/Connector.cpp) makes the socket of a client's connection, and
-- tries again after delays that the loop's timer queue (Net/TimerQueue.cpp) measures; a client
-- (Net/TcpClient.cpp) owns both. A server (Net/TcpServer.cpp) accepts connections, keeps them in a
-- map by name, and spreads them over the loops of a pool of threads (Net/IOLoopThreadPool.cpp),
-- each made by a thread of its own (Net/IOLoopThread.cpp, Net/Thread.cpp, Net/CountDownLatch.h); a
-- dispatcher (Net/Dispatcher.h) hands messages to callbacks by their type; a thread pool
-- (Net/ThreadPool.cpp) runs tasks that are not bound to a loop. The HTTP server
-- (Http/HttpServer.hpp) accepts connections and makes a session for each (Http/HttpSession.hpp). A
-- session reads requests, runs the handlers that a router chooses (Http/Router.hpp,
-- Http/RequestProcessor.hpp) as a chain (Http/Cb.hpp), and queues the responses (Http/Queue.hpp),
-- which it writes one after the other; a full queue stops its reads. Http/Url.cpp takes URLs apart.
-- File/File.cpp, Signal/Signal.cpp, Memory/SharedMemory.cpp and UnixSocket/UnixSocket.cpp wrap
-- system calls and keep some state of their own.
--
-- Which file models which part:
-- - Prelude and its children: Booleans, lists, machine words and outcomes, shared by all. An
--   outcome is a value or a fault: a failed assertion, a length error of a vector, an access
--   outside an object, a call of an empty function, or fuel that has run out.
-- - Buffer (Net/Buffer.h, Net/Buffer.cpp): a vector and two indices; a function for each member
--   function, under its name. Buffer/Space has the invariant of the indices and makeSpace,
--   Buffer/Contents what each operation does to the readable bytes, Buffer/Refine runs of
--   operations as operations on a queue of bytes, Buffer/Ints the integers in network order. The
--   byte order of the machine is the record ByteOrder of Buffer/Ints, with the laws of
--   host_to_network and network_to_host; Buffer/Ints/BigEndian is one.
-- - Codec (Net/Codec.h, Net/Codec.cpp): on_message is LengthHeaderCodec::onMessage; Codec/Frames
--   says which messages a buffer decodes to, Codec/Stream what streams of frames do, however they
--   are cut.
-- - Protobuf (Net/ProtobufCodec.h, Net/ProtobufCodec.cpp): parse, send and onMessage; the message
--   library and zlib's checksum are the record Library.
-- - Connection (Net/TcpConnection.h, Net/TcpConnection.cpp): the state of a connection is the
--   record Conn, and each member function and each completion handler a function on it. What asio
--   and the loop do is in the arguments: the bytes a read gives, the number of bytes a write took,
--   the error, whether the caller is on the loop's thread. Connection/Steps is the step relation of
--   all handlers, Connection/Stream and Connection/Delivery the order of the bytes sent,
--   Connection/Life the states, Connection/Shutdown the closing of the sending side,
--   Connection/Inbound the reads, Connection/Stuck and Connection/Faults failed writes and reads.
-- - Timers (Net/Timer.cpp, Net/TimerId.h, Net/Timestamp.h, Net/TimerQueue.cpp): the two sets of
--   timers; the clock, the addresses of new timers and the calls that callbacks make are arguments.
--   Timers/Order, Timers/Cancel, Timers/Expiry, Timers/Running and Timers/Firing follow insertion,
--   cancellation, expiry, the calls of the callbacks and the completion of a wait.
-- - Connector (Net/Connector.h, Net/Connector.cpp): the switch on the error of a connect, the
--   delays, and stopping; Connector/Backoff and Connector/Stop.
-- - Client (Net/TcpClient.h, Net/TcpClient.cpp): a client's connector and connection; Client/Retry.
-- - Url (Http/Url.h, Http/Url.cpp): parse, setPort, appendPath and appendQuery; Url/Parts and
--   Url/Append.
-- - TcpServer (Net/TcpServer.cpp, Net/Accept.cpp): the server's map, the connections that it made,
--   and the functions that it posted to loops, which the step relation of TcpServer/Invariant runs
--   in any order, between any steps of the connections. TcpServer/Removal and TcpServer/Safety
--   follow single operations, TcpServer/Runs whole runs, TcpServer/Entries the map, TcpServer/Names
--   the names.
-- - Dispatcher (Net/Dispatcher.h): the table of callbacks.
-- - Loop (Net/IOLoop.cpp): posted functions, run in any order; Loop/Kept.
-- - LoopThread (Net/IOLoopThread.cpp): the owner and the thread as steps; LoopThread/Stages has the
--   invariant, LoopThread/Handshake what it gives.
-- - Latch (Net/CountDownLatch.h) and Threads (Net/Thread.cpp): the threads that wait, and the start
--   of a thread, as functions that run a list of acts; Latch/Waits and Threads/Starting.
-- - Http/Queue (Http/Queue.hpp), Http/Router (Http/Router.hpp, Http/RequestProcessor.hpp),
--   Http/BasicRouter and Http/ChainRouter (the files of these names), Http/Mount (use and concat of
--   Http/Router.hpp), and Http/Chain (Http/Cb.hpp).
-- - Http/Session (Http/HttpSession.hpp, Http/Connection.hpp): the record Flesh is
--   HttpSession::Flesh, with the reads, waits and writes under way counted; Http/Session/Handlers
--   has the completion handlers, Http/Context the calls of a Context, Http/Session/Entry the ways
--   to start a session. Handlers of the user answer a request with a list of calls of the session.
--   Http/Session/Serving is the step relation; Http/Session/Backpressure, Http/Session/Order,
--   Http/Session/Runs, Http/Session/Halted and Http/Session/Overfull follow the reads, the
--   responses, failed writes and long queues.
-- - Http/Server (Http/HttpServer.hpp): start, the accept loop, and the sessions made, whose steps
--   run between those of the server; Http/Server/Starting, Http/Server/Sockets and
--   Http/Server/Accepting.
-- - ThreadPool (Net/ThreadPool.h, Net/ThreadPool.cpp): callers and workers as a step relation;
--   ThreadPool/Tasks has the order of the tasks, ThreadPool/Stopping what stop does.
-- - LoopPool (Net/IOLoopThreadPool.h, Net/IOLoopThreadPool.cpp): the choice of a loop.
-- - Files (File/File.h, File/File.cpp): writeAll and readAll, for any answers of the kernel;
--   Files/Transfer says what is written and read, Files/Descriptor has the descriptor's life.
-- - Signals (Signal/Signal.cpp), SharedMemory (Memory/SharedMemory.cpp) and UnixSocket
--   (UnixSocket/UnixSocket.cpp): the table of handlers, the blocks, and the pair of sockets, with
--   the kernel's answers as arguments.
-- - The modules called Tests hold concrete runs.
--
-- Machine integers: size_t is a natural number below 2^64 with its wrap-around written out, int32_t
-- is its bit pattern, read by signed32, and a conversion of an int to size_t is extend64. A vector
-- cannot be longer than 2^63 - 1 bytes. Times are natural numbers without overflow.
--
-- Fuel: the loops of the two codecs take fuel. One more than the number of readable bytes is enough
-- for LengthHeaderCodec::onMessage, since every round takes at least four bytes; for
-- ProtobufCodec::onMessage the same holds of streams of whole messages, and no fuel is enough for
-- the frames on which the source's loop does not end. The loops of writeAll and readAll, and the
-- repeated fcntl of UnixSocket, go on as long as there are answers of the kernel. Signal::kill
-- calls itself for ever, on any fuel. All other loops are structural.
--
-- Not modelled: what the operating system and asio do, logging, socket options and endpoints, the
-- parsing of HTTP by boost::beast, regular expressions (a match is a parameter), and the templates
-- that compute types or store functions. Left out are also the destructor of IOLoopThreadPool,
-- which stops its threads, and the overloads of HttpSession that do not compile. A callback of the
-- user is a parameter, and in the steps of a connection it takes bytes out of the input buffer; the
-- calls that it makes on the connection are steps of their own.
pub mod Prelude
pub mod Latch
pub mod Threads
pub mod TcpServer
pub mod Loop
pub mod LoopThread
pub mod UnixSocket
pub mod Signals
pub mod SharedMemory
pub mod Dispatcher
pub mod Buffer
pub mod Codec
pub mod Protobuf
pub mod Connection
pub mod Timers
pub mod Connector
pub mod Url
pub mod Http
pub mod ThreadPool
pub mod LoopPool
pub mod Files
pub mod Client
