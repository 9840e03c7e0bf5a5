-- ===== src/Lib.antt =====
-- A development beside the C++ server ClyServer.
--
-- Base is what the modules share: Boolean tests, lists over the native numbers, faults and results,
-- signed integers, sorted association lists for `std::map`, decimal numerals. A failed `assert`, a
-- length that `std::vector` refuses, an access that C++ leaves undefined and an `abort` are values of
-- `Fault`, so that a theorem can say that none of them happens.
--
-- Buffer (net/Buffer.h, net/Buffer.cpp, net/Endian.h) is the byte buffer of a connection: the
-- vector, the index of the reader and that of the writer. A byte is a number; a pointer into the
-- buffer is its distance from `peek()`; `size_t` sums wrap at 2^64. What `readv` hands over is a
-- parameter of `read_fd`.
--
-- Poller (net/Channel.h, net/Channel.cpp, net/PollPoller.h, net/PollPoller.cpp) is a loop's registry
-- of channels. Channels are objects behind addresses, so the model has a store: `updateChannel` and
-- `removeChannel` write to the channel that they are given and to the one whose entry moves. What
-- poll(2) writes is a parameter of `poll`.
--
-- Http (http/) is the server on one connection: Http.Request (HttpRequest.h), Http.Context
-- (HttpContext.h, HttpContext.cpp), Http.Response (HttpResponse.h, HttpResponse.cpp) and Http.Server
-- (HttpServer.cpp). `on_message` reads a Buffer through `parse_request` and answers with the actions
-- that it asks of the connection; Http.Session performs them on a Connection. Http.Render says
-- independently what a client writes. The loop of `parseRequest` runs on fuel, one unit a turn; a
-- turn takes a line away, so the number of readable bytes and one more is enough.
--
-- Connection (net/TcpConnection.h, net/TcpConnection.cpp) is one connection as its loop's thread
-- drives it, with its input and output Buffer and the mask of its channel. What write(2) and readv
-- answer is a parameter of each call; what the connection does outside is a list of effects. The
-- calls that a callback makes are the next steps: a callback is called last, or before calls that change
-- nothing of the connection, but that `handleClose` calls two, where what the first calls comes behind
-- the second. Whether the loop's poller still has the channel is part of the state.
-- Connection.Dispatch hands one event of the connection's channel (net/Channel.cpp) to its handlers.
--
-- Loop (net/EventLoop.h, net/EventLoop.cpp) is the queue of functors and the eventfd of a loop. Its
-- steps interleave the loop's thread with any number of others, which push a functor and write to the
-- eventfd in two steps. Loop.Channels is the same loop towards its Poller: the active channels of a
-- turn, and the masks and removals that their handlers ask for.
--
-- Log (base/LogStream.h, base/LogStream.cpp) is the fixed buffer that a log line is printed to, and
-- Log.Async (base/AsyncLogging.h, base/AsyncLogging.cpp) the exchange of such buffers between the
-- writers and the log thread. `convert` runs on 20 units of fuel, one a digit, which is enough for 64
-- bits; the clock, the condition variable and the LogFile are left out, and what goes to the file
-- is a list of bytes.
--
-- Server (net/EventLoopThreadPool.h, net/EventLoopThreadPool.cpp, net/TcpServer.h, net/TcpServer.cpp)
-- is the rotation of loops and the map of connections, under names that are numbered by an `int`;
-- the loops that the threads run are a parameter of `start_pool`. Server.Service is the server with its
-- acceptor and its threads, from its construction to its end, and Server.Accepting the acceptor with
-- `newConnection` for its callback.
--
-- FileUtil (base/FileUtil.h, base/FileUtil.cpp) is the file that a log is appended to and the reading
-- of a small file, and LogFile (base/LogFile.h, base/LogFile.cpp) the log that moves on to a new file.
-- The answers of `fwrite_unlocked` and of `read` are lists, one answer a call, and are the fuel of the
-- two loops; a call takes at least a byte or meets an error, so one answer a byte is enough.
--
-- Connector (net/Connector.h, net/Connector.cpp) dials a server. Connector.System adds what it leaves
-- with its loop, the functors and the timers, and every call that may come next.
--
-- StringPiece (base/StringPiece.h) is a view of bytes: the memory from a pointer on, and a length.
--
-- Logger (base/Logging.h, base/Logging.cpp) is a message from its macro to the line that is handed to
-- the output, printed to the fixed buffer of Log. Timestamp (base/Timestamp.h, base/Timestamp.cpp) is
-- a count of microseconds, from the epoch on. ProcessInfo (base/ProcessInfo.h, base/ProcessInfo.cpp)
-- reads the texts and the directories of /proc, which are parameters.
--
-- Sockets (net/SocketsOps.h, net/SocketsOps.cpp, net/Acceptor.h, net/Acceptor.cpp) is what is made of
-- the answers of the system calls, an error number or a value, with the printing of addresses, and
-- the acceptor of a server. A message of level FATAL ends a call by a fault, as Logger's do.
--
-- Thread (base/Thread.h, base/Thread.cpp, net/EventLoopThread.h, net/EventLoopThread.cpp) is a thread and
-- the hand-over of the loop that it runs, in steps of the owner, of the new thread and of what is
-- around them; what a mutex guards is one step, and the destructor, which takes no mutex, is four. Whether
-- somebody else may have the loop quit is a parameter.
--
-- Not modelled: the setters of net/Socket.cpp and net/InetAddress.h, where each function is a system
-- call or a copy; base/Mutex.h, base/CurrentThread.h and base/TimeZone.cpp, whose code is commented
-- out; base/Condition.h, base/Atomic.h and base/CurrentThread.cpp, which nothing uses; the floating-point
-- arithmetic of base/Timestamp.h and base/LogStream.cpp; net/TimerQueue.h, which defines no function;
-- net/TcpClient.cc and net/Poller.cpp, which are no part of the build.
pub mod Base
pub mod Buffer
pub mod Connection
pub mod Connector
pub mod FileUtil
pub mod Http
pub mod Log
pub mod LogFile
pub mod Logger
pub mod Loop
pub mod Poller
pub mod ProcessInfo
pub mod Server
pub mod Sockets
pub mod StringPiece
pub mod Thread
pub mod Timestamp
