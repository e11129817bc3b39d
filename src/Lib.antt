-- ===== src/Lib.antt =====
-- Verification of suduo, a multi-threaded network library around the Reactor pattern.
--
-- The program. An event loop polls file descriptors; each descriptor has a channel, which hands
-- what the poller reports to callbacks. A connection owns a socket's channel and two byte buffers:
-- it reads into one, writes from the other, and puts functors into its loop, also from other
-- threads. Below the network part stands a base part with queues between threads.
--
-- The files, and the code that each models:
--   Buffer: suduo/net/Buffer.h, suduo/net/Buffer.cpp and suduo/net/Endian.h. The vector is a list
--     of bytes with two indices, the fields _buffer, _read_index and _write_index. Buffer/ReadFd
--     is read_fd, Buffer/Search the find functions, Buffer/Ints the integers of all four widths.
--     std::vector's largest size is max_size, 2^63 - 1.
--   CircularBuffer: suduo/base/CircularBuffer.h. An int index is its 32-bit pattern.
--   BoundedBlockingQueue: suduo/base/BoundedBlockingQueue.h over Mutex.h and Condition.h. What a
--     thread does between taking the mutex and giving it up is one turn; a schedule is a list of
--     calls, turns and spurious wakeups, and a theorem on all schedules is one on all
--     interleavings, since nothing is touched without the mutex.
--   Channel: suduo/net/Channel.h and Channel.cpp. Channel/Dispatch is handle_event.
--   TcpConnection: suduo/net/TcpConnection.h and TcpConnection.cpp. A record holds the fields, the
--     functors that the connection has queued, and a log of the calls that leave the class;
--     TcpConnection/Inputs is the step function over calls, channel events and the loop's turns.
--     Two ghost fields, sent and accepted, hold the bytes that the socket took and those of the
--     messages that were not given up. A user callback stands in the log; what it does is the next
--     input. The results of write and readv are part of the input, with what their documentation
--     promises (no more bytes than were offered) in the hypothesis Allowed. shutdown, force_close
--     and force_close_with_delay of another thread are two inputs, the test of _state and the
--     rest, which waits in the ghost field decided; TcpConnection/Race is what comes of a close
--     between them, and Allowed leaves it out. Setting the state and queueing the functor are one
--     step, and so is a send of another thread.
--   EventLoop: suduo/net/EventLoop.h and EventLoop.cpp, the functors and the event descriptor, as
--     steps of the loop's thread and of others between them, from the constructor on. The fields
--     queued, called, direct, polled and early are ghosts.
--   PollPoller: suduo/net/poller/PollPoller.h and PollPoller.cpp, with the maps as functions of the
--     descriptor.
--   Connector: suduo/net/Connector.h and Connector.cpp; Connector/Runs is the step function over
--     calls, functors, timers and channel events. The ghost field opened holds the sockets made.
--   ThreadPool: suduo/base/ThreadPool.h and ThreadPool.cpp, in turns like BoundedBlockingQueue.
--   EventLoopThreadPool: suduo/net/EventLoopThreadPool.h and EventLoopThreadPool.cpp.
--   AsyncLogger: suduo/base/AsyncLogger.h and AsyncLogger.cpp, with StreamBuffer of LogStream.h.
--     Sections under the mutex are steps; accepted and dropped are ghosts.
--   HttpRequest: suduo/bench/http/HttpRequest.h and processRequestLine of HttpContext.cpp.
--   HttpContext: suduo/bench/http/HttpContext.h and HttpContext.cpp, the parser over a buffer.
--     HttpContext/Parses has the same loop over a list of bytes.
--   HttpServer: suduo/bench/http/HttpResponse.h, HttpResponse.cpp, HttpServer.h and HttpServer.cpp, the
--     answer to a request. The user's callback and the digits that snprintf writes are parameters.
--   LengthHeaderCodec: suduo/bench/zeromq/codec.h over Buffer and its integers, with a decoder of lists
--     of bytes in LengthHeaderCodec/Frames.
--   TimerQueue: suduo/net/TimerQueue.h, TimerQueue.cpp and Timer.h. The map by time and id is a list
--     in its order, the map by id a list of ids. What a callback adds is a function of its timer;
--     TimerQueue/Runs has the steps and the sorted list that they are compared with. The ghost ran
--     holds the timers that were run.
--   TcpServer: suduo/net/TcpServer.h and TcpServer.cpp over EventLoopThreadPool; the functors of all
--     loops are one list, and any of them may be called next.
--   TcpClient: suduo/net/TcpClient.h and TcpClient.cpp over Connector, in the loop's thread.
--   EPollPoller: suduo/net/poller/EPollPoller.h and EPollPoller.cpp. The kernel is a record of
--     operations with the documented laws of epoll_ctl, which may fail for other reasons than the
--     list itself.
--
-- Each folder's Stream, Space, Contents and similar files hold the invariant and lemmas, Examples
-- the theorems at concrete inputs. Prelude holds the lists, options and machine numbers that all
-- share. A result of none stands for undefined behaviour, a failed assertion or an exception.
-- Three loops run on fuel, and the theorems give as much as suffices: onMessage of the codec and
-- parseRequest one for each byte in the buffer and one more, since each round but the last takes
-- bytes away; handle_read of the timers one for each timer and one more, where no callback adds
-- one. All other recursions are structural.
--
-- Not modelled: text for logs, socket options and addresses, which only wrap the operating system;
-- the programs that measure the library; Acceptor, the threads of the loops, the files
-- of the log and its streams, Timestamp, BlockingQueue and CountDownLatch, which the code above
-- does not depend on but through the calls that its logs record.
pub mod AsyncLogger
pub mod BoundedBlockingQueue
pub mod Buffer
pub mod Channel
pub mod CircularBuffer
pub mod Connector
pub mod EPollPoller
pub mod EventLoop
pub mod EventLoopThreadPool
pub mod HttpContext
pub mod HttpRequest
pub mod HttpServer
pub mod LengthHeaderCodec
pub mod PollPoller
pub mod Prelude
pub mod TcpClient
pub mod TcpConnection
pub mod TcpServer
pub mod ThreadPool
pub mod TimerQueue
