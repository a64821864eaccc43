-- ===== src/Lib.antt =====
-- A model of RyanNetworkLibrary, an event-driven network library in C++ (one event loop per thread,
-- non-blocking sockets, buffers, timers, an HTTP server), and the theorems that make it correct.
--
-- The parts, the files that model them and the code (paths from the repository's root):
--   Buffer.antt, Buffer/: ryan_network/buffer/buffer.h and buffer.cc. The storage is a list of bytes with
--     the two indices; `none` is a failed assertion or a copy outside the storage. Layout holds the
--     well-formedness `IsValid`, Space `MakeSpace` and `Append`, Front `Prepend` and `Shrink`, Queue the
--     queue of bytes that the class promises, Search the line ends, Fd the system calls, Ints the integers
--     (net/endian.h is a record of the machine's byte order).
--   Channel.antt: ryan_network/net/channel.h and channel.cc, the interest masks and the dispatch.
--   TcpConnection.antt, TcpConnection/: ryan_network/tcp_connection/tcp_connection.h and .cc, built on the
--     buffer and the channel. Stream has one operation, Runs sequences of them, Lifecycle the states,
--     Drain the end of a connection that is shut down, Queued the messages of other threads through the loop.
--   EventLoop.antt: ryan_network/net/event_loop.h and event_loop.cc, the queue of tasks and its wake-up as a
--     step relation, in which the loop's thread and the others interleave. A connection's callbacks and the
--     calls of another thread arrive through this queue.
--   EpollPoller.antt, EpollPoller/: ryan_network/net/epoll_poller.h and .cc with poller.cc.
--   PollPoller.antt, PollPoller/: ryan_network/net/poll_poller.h and .cc, the same over poll(2).
--   EventLoopThread.antt, EventLoopThread/: ryan_network/net/event_loop_thread.h and .cc, the thread of a loop
--     and its owner as the steps of two threads. Invariant has the states that they reach, Ends who waits.
--   EventLoopThreadPool.antt: ryan_network/net/event_loop_thread_pool.h and .cc.
--   TimerQueue.antt, TimerQueue/: ryan_network/timer/ with the order of ryan_network/base/timestamp.h.
--     Order has the set, Adding what is added, Expiry what expires, Memory what is deleted.
--   TcpServer.antt, TcpServer/: ryan_network/tcp_connection/tcp_server.h and .cc, the map of connections; it
--     asks the pool of loops for the next one. Life has a connection of TcpConnection.antt with the tasks
--     that the server queues for it, Calls what one operation reports, Finish and Once the whole life.
--     Listening has the acceptor (ryan_network/net/acceptor.h, .cc), the start and the end of the server,
--     Places and Descriptors what becomes of the descriptors that it takes.
--   ThreadPool.antt, ThreadPool/: ryan_network/base/thread_pool.h and .cc, the bounded queue of tasks;
--     Workers has the threads that run them, Stopping their end.
--   Thread.antt: ryan_network/base/thread.h and .cc, a thread's object and the thread.
--   MysqlConnPool.antt, MysqlConnPool/: ryan_network/mysql/mysql_conn_pool.h and .cc, the connections; Counts
--     has their numbers.
--   CountDownLatch.antt: ryan_network/base/count_down_latch.h and .cc.
--   Http.antt, Http/: ryan_network/http/. The parser reads the connection's buffer and the server appends to
--     one. RoundTrip has whole requests, Ending any bytes, Messages what the server does with a message,
--     Service the same on a connection of TcpConnection.antt, Exchange up to the end of the response.
--   FixedBuffer.antt: ryan_network/buffer/fixed_buffer.h, a storage with the end of its text.
--   LogStream.antt, LogStream/: ryan_network/logger/log_stream.h and .cc, the formatting into such a buffer.
--     Digits has the words of numbers and their reading, Numbers, Pointers and Texts what is put.
--   Logger.antt, Logger/: ryan_network/logger/logging.h and .cc, a line of the log from its time to its file.
--   AsyncLogging.antt, AsyncLogging/: ryan_network/logger/async_logging.h and .cc. The threads that log put
--     lines into fixed buffers, and the writing thread takes the buffers and gives empty ones back; the
--     two interleave as events. Order has the invariant and the logging side, Writer the writing side,
--     Runs both. Output has the log files with them, Files what the files hold.
--   LogFile.antt, LogFile/: ryan_network/logger/file_util.h, file_util.cc, log_file.h and log_file.cc, the
--     files to which the writing thread appends.
--   MemoryPool.antt, MemoryPool/: ryan_network/memory_pool/. Layout has where nodes and chunks lie, Fit, Small
--     and Large the ways of malloc, Free what is given back.
--   Prelude.antt, Prelude/: tests on numbers, lists and slices of lists, 64-bit sums, options.
-- The Tests modules apply the theorems at concrete inputs.
--
-- Conventions. A function of the source keeps its name, in lower case. A byte is a natural number; a size
-- is one with its wrap-around at 2 ^ 64 written out. What a system call gives is an argument of the step
-- that makes it, and what a step does to the outside is a list of actions. Assertions are active.
--
-- Fuel. The parser's loop takes fuel, one for each round: a request of n headers has n + 2 lines, one for
-- each round, and any bytes have fewer lines than bytes. The digit loops have 20 rounds for a decimal and 16
-- for a hexadecimal number, which a number below 2 ^ 64 does not use up. The loop of fwrite runs over the
-- list of its results.
--
-- Not modelled: the macros and the output of the logger, printing of times and addresses, socket options,
-- the configuration file and the queries of mysql, which are output, system calls and forwarding; the
-- programs under examples; vendored code.

pub mod Prelude
pub mod Buffer
pub mod Channel
pub mod TcpConnection
pub mod EpollPoller
pub mod PollPoller
pub mod FixedBuffer
pub mod LogStream
pub mod AsyncLogging
pub mod Logger
pub mod LogFile
pub mod MemoryPool
pub mod CountDownLatch
pub mod EventLoop
pub mod TimerQueue
pub mod EventLoopThread
pub mod EventLoopThreadPool
pub mod Thread
pub mod ThreadPool
pub mod MysqlConnPool
pub mod TcpServer
pub mod Http
