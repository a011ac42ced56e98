-- ===== src/Lib.antt =====
-- A model of EchoNet, a C++ network library with a chat service and a gateway, and the theorems
-- that make its parts correct. Paths below are those of the repository.
--
-- The program. An event loop per thread waits for events of its descriptors; a channel dispatches an
-- event to a connection, which reads bytes into a buffer, has a protocol cut them into requests, and
-- hands these, one at a time, to a pool of workers. A response goes back through the event loop. The
-- gateway is a server whose requests go on to backends, which it finds in a registry and checks by
-- heartbeats.
-- A server ends by closing its connections, joining its workers and waiting for its event loops. The
-- chat service keeps its users and messages in MySQL and Redis, through pools of connections; a logger
-- writes in a thread of its own. A client in Qt, with a login window and a chat window, speaks the same
-- protocol.
--
-- What models which part:
--   Net/Buffer        src/Net/Buffer.cpp: the buffer, with its two pointers into an array of bytes.
--                     Queue is the abstract byte queue that it refines.
--   Net/Socket        src/Net/Socket.cpp: the owner of a descriptor, and a connection made from this side.
--   Protocol          src/Protocol/MyProtocol.cpp: parser and encoder of the binary protocol. Frames
--                     has the specification of the parser, Stream the frames of a whole stream,
--                     Exchange sets the parser against the encoder.
--   Reactor/Channel   src/Reactor/Channel.cpp: the events of a descriptor and their dispatch.
--   Reactor/Callbacks src/Reactor/EventLoop.cpp: how other threads hand callbacks to an event loop,
--                     with the eventfd that wakes it.
--   Reactor/EventLoop the tables of the event loop, and its idle check; Reactor/Acceptor has the loop
--                     that accepts (src/Reactor/Acceptor.cpp).
--   Net/Connection    src/Net/Connection.cpp, with what it uses of src/Reactor/EventLoop.cpp
--                     (runInLoop, removeChannel, removeConnection): State has the members, Close,
--                     Tasks, Send and Read the methods, Events every history of a connection.
--                     A protocol is an interface: State.Protocol has its operations, Events/Io.Laws
--                     what a connection relies on, and Chat fills both with the binary protocol.
--                     For the HTTP protocol the laws are not shown. A completed task is two events: the
--                     critical section of onTaskComplete, and what it then hands to the event loop.
--   Http              src/HTTP and src/Protocol/HttpProtocol.cpp: the parser of requests, a state
--                     machine that is resumed as bytes arrive, and the example service.
--   ThreadPool        src/ThreadPool/TaskQueue.cpp and WorkThreadPool.cpp: the queue of tasks, and
--                     the threads as a sequence of steps in any order. IoPool has what
--                     src/ThreadPool/IoThreadPool.cpp hands to its event loops.
--   Chat              src/ChatService/ChatService.cpp: State has the members of the service, with
--                     its sessions, Login, Rooms and Talk the requests, Service the dispatch, the
--                     limits and the end of a connection, Writer the queue of messages and the
--                     thread that stores them. Changes lists what an event may do to the state;
--                     History has every sequence of events, which Consistent, Bounds and Counters
--                     look at.
--   Room              src/Room/Room.cpp: the members of a room and a broadcast.
--   Gateway           src/gateway_main.cpp: Pick and Handler have the path of a message, Threads one
--                     pass of each background thread, Connect the connections to the backends.
--   Registry          src/Gateway/ServiceRegistry.cpp: what the gateway finds in Redis. Announce has
--                     what src/ChatService/ChatService.cpp puts there, Discovery sets the two against
--                     each other.
--   Client            QT/chatwindow.cpp and QT/loginwindow.cpp: the two windows of the Qt client. Qt is
--                     the interface to Qt's strings, with what Qt documents of ASCII texts; Packet has
--                     what the windows write, Frames and Receive what they read. Login, Session,
--                     Rooms and Broadcast set the client against the server's parser and its chat service.
--   Logger            src/Logger/AsyncLogger.cpp: the queue of lines and the thread that writes them;
--                     Order and LostWakeup look at every history.
--   Database          src/DB/MySQLPool.cpp and RedisPool.cpp; Users has what is lent, Accounts where
--                     each connection is.
--   RateLimit         src/RateLimit/TokenBucket.cpp, over an interface for the operations on `double`,
--                     and what RedisTokenBucket.cpp makes of the reply of its script.
--   Server            src/Server/Server.cpp: Stopping has the end of the server over ThreadPool/Workers,
--                     ThreadPool/IoPool and Reactor/Callbacks; Quiet shows that nothing is left.
--   Base              lists, options, maps and texts that the parts share.
--   Tests             the theorems at concrete inputs.
--
-- How it is modelled. A critical section, or a call in the thread of the event loop, is one step;
-- threads are interleavings of steps, as lists of events or as the relation Events/Lifecycle.Reach.
-- Bytes are numbers, machine integers keep their wrap-around (`% 2 ^ 32`, `% 2 ^ 64`), an assertion
-- that fails is `none`. What the kernel answers (`send`, `readv`, the clock, whether a weak pointer
-- still has its object) is an input. The parts' calls of the logger are left out.
-- A request of the chat service is one step: what two of them do at the same time in one handler is
-- not modelled. What the calls of MySQL, Redis and the limiters answer is an input.
--
-- Fuel. The parse loop of a connection, and the loop of the client's windows, have one more round than
-- there are unread bytes; each request takes a byte at least. The loop of the HTTP parser has one more
-- round than there are bytes: each round takes a byte at least, but for the one that finds an empty
-- body. The loop of the writer has an answer of the database for each round, and the loop that accepts
-- an answer of the kernel.
--
-- Scope. A connection may hand its tasks to a pool of workers, as the callback that
-- src/ThreadPool/IoThreadPool.cpp installs, or run each at once, as the gateway's connections to its
-- backends do (src/gateway_main.cpp). Net/Connection/Tasks has both; the theorems on connections are
-- about the first kind (the field `wired` of Events/Inv.Inv), with a pool that has not stopped: a pool
-- that has stopped reports the end of a task it refuses at once.
--
-- Not modelled: a task run at once that uses its own connection, the timer of the event
-- loop, the script of the Redis limiter (it runs in Redis), the options of sockets, metrics' output, the
-- command line, process start-up.
pub mod Base
pub mod Reactor
pub mod Net
pub mod Protocol
pub mod Http
pub mod ThreadPool
pub mod Chat
pub mod Client
pub mod Database
pub mod Logger
pub mod RateLimit
pub mod Registry
pub mod Room
pub mod Gateway
pub mod Server
pub mod Tests
