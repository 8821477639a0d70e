-- ===== src/Lib.antt =====
-- A model of lcy, a C++ library of networking code: an asynchronous event loop (asio), two wire
-- protocols (protocol) and a remote procedure call layer (rpc).
--
-- Parts and files. Paths are from the repository's root.
-- - Prelude: tests on numbers, lists, bits and integers that all parts use.
-- - Bytes: integers in memory and in network order, on machines of both byte orders.
-- - Tlv: protocol/src/tlv. Width, Zigzag and Variant are variant_encode.cc, one definition for the
--   four widths of each macro; Message is message.cc; Parser is parser.cc.
-- - DynamicBuffer: asio/src/dynamic_buffer.cc; Run compares sequences of calls with a queue,
--   Room is about a buffer that is filled by one read of a socket after the other.
-- - TimerService: asio/src/details/timer_service.cc. Inv has the invariant and registerTimer, Cancel
--   and Expire the other two members, Run sequences of calls, Deadline the value of the timerfd.
-- - SteadyTimer: asio/src/steady_timer.cc, on top of TimerService.
-- - BridgeService: asio/src/details/bridge_service.cc, the tasks that threads hand to an event loop,
--   as steps of all threads; Order is about their order and the wake-ups.
-- - Reactor: asio/src/details/reactor_service.cc. Info has its data; Watch relates its operations to
--   what epoll watches, Serve is about the members, Loop about the loop, Stale about
--   cancelAllOperations, Remove about the removal of an operation.
-- - Buffer: asio/src/buffer.cc. TcpSocket: asio/src/ip/details/tcp_socket.cc on top of Reactor;
--   Hangups is about an event with an error, Write about a write in parts.
-- - Endpoint: asio/src/ip/endpoint.cc, the bytes of a socket's address. UdpSocket:
--   asio/src/ip/details/udp_socket.cc on top of Reactor and Endpoint; Datagram is about a read and a
--   write.
-- - SignalSet: asio/src/signal_set.cc, on top of Reactor; Mask is about the signals that are blocked.
-- - ThreadPool: asio/src/thread_pool.cc; RoundRobin is about the choice of a thread. Acceptor:
--   asio/src/ip/details/acceptor.cc.
-- - Http: protocol/src/http. Version and Message are message.cc, Method is request.cc, State is
--   response.cc; Lexer and Parser are parser.cc, its line functions and its state machine. Of the
--   child modules of Parser, RoundTrip and ResponseTrip are about what request.cc and response.cc
--   write, on top of Whole and Tail; Prefix and PrefixBody about a request that is cut short; and
--   Pieces, which stands on Resume, HeaderResume, LineResume, HeaderLoop, BodyResume and Stages,
--   about messages that arrive in parts. Sample has concrete messages.
-- - HttpConnection: examples/protocol_examples/http_examples/http_connection.cc, a server's
--   connection on top of Http and DynamicBuffer. Serves and Session are about the requests of a
--   client, Writes about the queue of responses.
-- - Rpc: rpc/src and rpc/rpc.proto. Connection is details/connection.cc, its frames and its send
--   queue; its child Frames cuts a stream into frames, Receive and Stream compare the code with that,
--   Send is about the queue. Message has the messages and what is taken from protobuf, Server is
--   server.cc and Channel channel.cc; Answers is about the server, Call about both ends of a call.
--   Accept is details/server.cc, which accepts connections; Turns is about how it deals them to
--   threads.
--
-- Conventions. A byte is a number below 256, a buffer or string a list of bytes, and a pointer
-- with a length the list of the bytes there. `size_t` arithmetic is modulo 2 ^ 64. A function that
-- changes an object or an argument returns the new one. Undefined behaviour, an access outside a
-- buffer and an exception of the standard library are values of the result (`none`, `fault`,
-- `out_of_bounds`). A parser is given all bytes received so far at each call, as the source's is;
-- the int that http/parser.cc keeps the place of a line's end in is taken not to overflow.
--
-- Fuel. A `while` loop whose end is not by recursion on a list takes fuel: the encoder of Variant
-- as many rounds as the value has bits (it drops seven a round), the two parsers four rounds (each
-- but the last moves the tag on), the header, trailer and chunk loops a round more than there are
-- bytes (each round but the last uses some up), the loop of the reactor, which has no bound, any
-- number.
--
-- Parameters. epoll, the calls of sockets, inet_pton and inet_ntop, signals and their mask, the
-- generated protobuf class and the services of a user are arguments, with what they are documented
-- to do as fields of records (Documented, Reliable, Streams, Atomic, Manual, Masks, Codec).
-- What an operation does when the reactor calls it is an argument too, and may use the reactor
-- again.
--
-- Not modelled: the allocation of memory and its failure, the event loop's registry of services
-- (templates), the map of functions of servlet.cc, the generated protobuf code, the other examples.
pub mod Prelude
pub mod Bytes
pub mod Acceptor
pub mod BridgeService
pub mod Buffer
pub mod DynamicBuffer
pub mod Endpoint
pub mod Http
pub mod HttpConnection
pub mod Reactor
pub mod Rpc
pub mod SignalSet
pub mod SteadyTimer
pub mod TcpSocket
pub mod ThreadPool
pub mod TimerService
pub mod Tlv
pub mod UdpSocket
