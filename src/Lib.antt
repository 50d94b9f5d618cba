-- ===== src/Lib.antt =====
-- A model of matelib, a network library in C++ in the reactor style, with an HTTP server and an
-- RPC layer on top of it, and the properties that make its parts correct.
--
-- The program. An event loop (matelib/EventLoop.cc) waits in `epoll` through its poller
-- (matelib/EpollPoller.cc), which keeps the channels (matelib/Channel.cc) by descriptor. A channel
-- calls back into a connection (matelib/TcpConnection.cc) or the timer queue
-- (matelib/TimerQueue.cc) of the loop. A connection keeps its bytes in two buffers
-- (matelib/Buffer.h); the HTTP server (http/) parses the input buffer and prints its response into
-- another one. A server (matelib/TcpServer.cc) accepts connections in its loop, keeps them by name
-- and gives each to the loop of a thread (matelib/EventLoopThread.cc), in turn
-- (matelib/EventLoopThreadPool.cc); a client (matelib/TcpClient.cc) connects, and tries again. The
-- RPC layer packs calls and their results with a serializer (rpc/Serializer.h) into the same
-- buffers, on the side of the server (rpc/RpcServer.h) and of the client (rpc/RpcClient.h). Log
-- lines (matelib/base/Logging.cc) are formatted by a stream (matelib/base/LogStream.h) and handed
-- to the thread (matelib/base/AsyncLogging.cc) that keeps the log file (matelib/base/LogFile.cc).
-- A pool of threads (matelib/base/ThreadPool.cc) stands beside them.
--
-- The files. Each component is a module that holds its state as a record and one function for
-- each operation; its child modules hold what is shown of it, and its module Tests applies the
-- theorems at small inputs.
--   Prelude        tests on numbers, lists and options; slices of storage; texts and string maps;
--                  stores; what a system comes to whichever steps it takes.
--   Buffer         matelib/Buffer.h and Buffer.cc. `Holds b s`: the buffer is well formed and its
--                  unread bytes are `s`.
--   Http           http/HttpRequest.h, HttpContext.h and HttpContext.cc (Request, Context),
--                  HttpResponse.h (Response) and `onMessage` of HttpServer.cc (Server).
--   TimerQueue     matelib/Timer.h, TimerQueue.h and TimerQueue.cc. EntrySet is the `std::set` of
--                  its entries.
--   Channel        matelib/Channel.h and Channel.cc.
--   EpollPoller    matelib/EpollPoller.h and EpollPoller.cc.
--   EventLoop      the tasks and wakeups of matelib/EventLoop.h and EventLoop.cc; Steps has the
--                  interleavings of the threads; Dispatch has the handling of active channels.
--   TcpConnection  matelib/TcpConnection.h and TcpConnection.cc; Threads has `send` from any thread.
--   InetAddress    matelib/InetAddress.h.
--   EventLoopThread      matelib/EventLoopThread.h and EventLoopThread.cc.
--   EventLoopThreadPool  matelib/EventLoopThreadPool.h and EventLoopThreadPool.cc.
--   TcpServer      matelib/TcpServer.h and TcpServer.cc; Lives has the interleavings of its
--                  connections.
--   TcpClient      matelib/TcpClient.h and TcpClient.cc.
--   Rpc            rpc/Serializer.h (Serializer, Value), RpcServer.h and RpcServer.cc (Server),
--                  RpcClient.h (Client), and a call from one to the other (Exchange).
--   LogStream      matelib/base/LogStream.h and LogStream.cc.
--   Logger         matelib/base/Logging.h and Logging.cc.
--   AsyncLogging   matelib/base/AsyncLogging.h and AsyncLogging.cc.
--   LogFile        matelib/base/LogFile.h and LogFile.cc.
--   ThreadPool     matelib/base/ThreadPool.h and ThreadPool.cc; Steps has the interleavings.
-- Operations keep their names, in the spelling of this language (`retrieveUntil` is
-- `retrieve_until`, `onMessage` is `on_message`), and are composed as in the code. A pointer into
-- a buffer is an index of its storage, and a null pointer is `none`.
--
-- Failures. The result of an operation that can fail is an Option, and `none` is a failed assert,
-- a write behind the end of a storage, or a use of an object that is gone. The asserts are active
-- in the build of this repository.
--
-- Numbers. Sizes, indices and times are natural numbers. Sizes are taken to stay below 2 ^ 64, so
-- that sums of them do not wrap; a difference of two sizes is written with its wrap. Times are in
-- microseconds. Failures of the memory allocation are left out, but for the timers, whose
-- allocator is a parameter with laws (TimerQueue/Allocator).
--
-- Fuel. The loop of `parse_request` has one round more than there are unread bytes: each round but
-- the last takes a line with its end of two bytes out of the buffer. The digits of a
-- number have 20 rounds, and those of an address 16, as many as 64 bits need. The loop of
-- `File::append` has as many rounds as the line has bytes, since each but the last takes one. A
-- client's tries have one call more than there are tries left.
--
-- Parameters. What the kernel answers to a read, a write, `epoll_wait`, `accept4` or `connect`, what
-- `fwrite`, `time`, `strftime` and `inet_ntop` give, the user's handler of requests, the functions
-- bound for calls, what the callbacks of channels and timers ask for, the tasks of a loop and the
-- allocator are arguments.
--
-- Not modelled: callbacks that free a channel while it is handled, `RpcClient::connect`, the
-- wrappers of threads, locks and conditions in matelib/base (their waits and signals are steps), a
-- log file's name but for its second, a clock that is set back, a new log file that exists
-- already, socket options, the destruction of a server while its loops run, and old-version, which
-- is an earlier copy of the library.
pub mod Prelude
pub mod Buffer
pub mod InetAddress
pub mod Http
pub mod TimerQueue
pub mod Channel
pub mod EpollPoller
pub mod EventLoop
pub mod EventLoopThread
pub mod EventLoopThreadPool
pub mod TcpConnection
pub mod TcpServer
pub mod TcpClient
pub mod Rpc
pub mod LogStream
pub mod Logger
pub mod AsyncLogging
pub mod LogFile
pub mod ThreadPool
