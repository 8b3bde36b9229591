-- ===== src/Lib.antt =====
-- canna, a small cluster of servers over sockets and ZeroMQ: its socket server, name server,
-- containers and algorithms, and the theorems that make them correct.
--
-- The parts, and the files that model them:
--
-- * gateserver/ is the socket server. Clients reserve one of 65536 slots and write a request to a
--   control pipe; the poll thread carries requests out and turns the events of epoll into messages.
--   Socket/Types has its data, Socket/Slots reserve_id, new_socket and force_close, Socket/Send the
--   write buffers, Socket/Commands ctrl_cmd and its handlers, Socket/Events what epoll reports,
--   Socket/Poll the loop of poll, one round at a time, and Socket/Api initialize, release and the
--   server_ calls. Socket/Listen has do_bind, do_listen and the error paths of initialize, call by
--   call, and Socket/Epoll the class socket_poll of socket_epoll.h. Socket/Race takes reserve_id
--   apart into its accesses to the slots and the counter, for any number of threads that run it at
--   once, and Socket/Wire has the bytes of the requests on the pipe, and Socket/Wire/Errors has_cmd
--   and the reads that a signal or an error ends. Socket/Life follows the states of a slot, and
--   Socket/Stream the bytes that the requests to send put on the wire. The state is `Server`, class
--   socket_server with the pipe as a list of requests and a log of system calls. What the operating
--   system answers (epoll, accept, connect, read, write, getaddrinfo) is a parameter; what a
--   theorem asks of it is among its conditions. `none` is a failed assertion or a null pointer that
--   is followed. A request to connect to an address of 232 bytes has 256, and its length byte is 0:
--   `server_connect` is `none` there, and Socket/Wire shows the bytes.
-- * nameserver/name_ctrl.cpp is Names.antt, and name_server.h, name_server.cpp and main.cpp are
--   Names/Server: the two sockets and the loop over what each poll finds. The map of groups is an
--   association list; the search for a serial has 256 rounds, which are shown to be enough. The
--   serializer of protobuf is a parameter. nameserver/redis_client.h and .cpp are Redis.antt.
-- * routers/router_server.h, .cpp and main.cpp are Router.antt. A router asks the name server for a
--   name; Router/Named puts the two together.
-- * core/canna_core.h and .cpp are Core.antt and, for the calls on a socket, Zmq.antt: a socket of
--   ZeroMQ is the frames that have come in and the calls made on it.
-- * dbserver/main.cpp is DbServer.antt: the loop of requests over a REP socket, which is an
--   interface with laws, and over redis, a parameter. DbServer/Start is the way to the loop, with
--   the daemon, redis and MongoDB.
-- * core/ringbuffer.h and .cpp are Ring.antt and Ring/Dump, with the indices in 32 bits and the
--   lengths in 64.
-- * core/thread_safe_queue.h and thread_pool.h are Pool.antt: every operation of the queue is one
--   step, since it holds the mutex, and the steps of the threads come in any order; a worker pops a
--   task in one step and starts it in another. Tasks return. Pool/Blocked has the callers that wait
--   in wait_and_pop, and Pool/Construct the constructor, where the system may refuse a thread.
-- * core/canna_random.h is Random.antt, with every wrap-around of `unsigned int` written out.
-- * core/canna_daemon.cpp is Daemon.antt, over the answers of the system.
-- * pathserver/graph.cpp and dijkstra.cpp are Paths.antt. Weights are not negative. The search is
--   `none` where a sum of a distance and a weight overflows an int; Paths/Ints is about weights
--   with which none does. The search has a bound on its rounds, shown to be enough. Paths/Distances
--   has ShortPath, and the graph of pathserver/main.cpp.
-- * example/lbbroker.cpp, the load balancer, is Broker.antt for the loop of its main, and
--   Broker/Farm for the whole program, a step relation between the loop and the threads of clients
--   and workers, without fuel. example/ventilator.cpp, taskwork.cpp and tasksink.cpp are
--   Pipeline.antt, three programs and the messages between them; example/asyncclient.h is
--   Async.antt; example/peering1.cpp, a broker that also talks to its peers, is Peering.antt;
--   example/cluster.cpp, which queues its workers, is Cluster.antt; example/routerdealer.cpp, a
--   broker that fires its workers, is RouterDealer.antt, a step relation between the broker and its
--   threads. Ipc.antt has the endpoints that cluster.cpp, peering1.cpp and peering.cpp bind and
--   connect, as each starts; example/peering.cpp, which publishes to its peers, is Publisher.antt,
--   and example/rrclient.cpp and rrnode.cpp, a pair of programs over ROUTER sockets, are
--   RouterPair.antt.
--
-- Prelude holds what the parts share. Each part has its definitions in the file of its name, or in
-- the files listed, its theorems in the files below that, and a module Tests with runs at concrete
-- inputs.
--
-- Not modelled: ZeroMQ, hiredis, MongoDB and protobuf, and the code that only calls them and prints
-- (identitycheck.cpp, asyncserver.h, asyncworker.h and asyncdeamon.cpp in example/, and the test
-- programs); a task of the pool that throws, which ends the program; and what the programs print,
-- but for canna_dump, RingBuffer::Dump, the distances of pathserver and the names of a router. In
-- the state of the whole server reserve_id is one step, in which the compare-and-swap succeeds, as
-- it does for a thread alone. In Broker/Farm and Pipeline a message is never lost, and in
-- Broker/Farm no two clients and no two workers share an identity, since ZeroMQ refuses the second
-- thread of the same one. A request to connect to an address of 232 bytes, which the pipe tears, is
-- left out of the states that a server reaches.
pub mod Prelude
pub mod Async
pub mod Broker
pub mod Cluster
pub mod Core
pub mod Daemon
pub mod DbServer
pub mod Ipc
pub mod Names
pub mod Paths
pub mod Peering
pub mod Pipeline
pub mod Publisher
pub mod Random
pub mod Pool
pub mod Redis
pub mod Ring
pub mod Router
pub mod RouterDealer
pub mod RouterPair
pub mod Socket
pub mod Zmq
