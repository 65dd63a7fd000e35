-- ===== src/Lib.antt =====
-- rillnet, a C++ library for requests and responses over one TCP connection, as functions and relations
-- on explicit state.
--
-- The parts, from the wire up. include/rillnet/frame.hpp, frame_flags.hpp and protocol_version.hpp give
-- frames and their validation (Frame, Frame.Flags, Frame.Validation); frame_codec.hpp their bytes
-- (Frame.Codec, Frame.RoundTrip); protocol_violation.hpp the error frames (Frame.Errors);
-- frame_decoder.hpp the decoder of a byte stream (Decoder, with the byte-at-a-time reference
-- in Decoder.Stream). message_registry.hpp (Registry, with Registry.Current and
-- Registry.VersionRegistry for its views) and codec.hpp, message_codec.hpp (Message)
-- put typed messages into frames. write_queue.hpp (WriteQueue) is the one way out of a connection.
-- status_code.hpp and error.hpp (Status), lifecycle.hpp (Lifecycle), diagnostics.hpp (Diagnostics),
-- operation.hpp (Operation) and identifiers.hpp, stream_id_allocator.hpp (Stream) serve both sides.
-- client_connection.hpp is Client, with Client.Requests (start_request, RequestOperation, deadlines),
-- Client.Requesting (request) and Client.Reading (dispatch, read_loop, run, shutdown);
-- server_connection.hpp is Server, with Server.Serving (read_loop, run, shutdown). transport.hpp is
-- Transport, what a connection sees of a read; tcp_transport.hpp is Tcp.Transport, tcp_client.hpp
-- Tcp.Client, and tcp_server.hpp Tcp.Server (accepting, stop) and Tcp.Drain (shutdown). Exchange joins
-- a client and a server. Proofs stand in the other children; Base holds helpers, and Tests the runs on
-- concrete inputs.
--
-- Functions and members keep their names. A method takes the object last and returns the new one, with
-- what the C++ method returns. A coroutine is cut at its waits: each part is a function, and what it
-- waits for (bytes read, an error of the transport, room in a queue, a timer) is an argument of the
-- next part. The statements over sequences of calls take the parts in every order, also in orders that a
-- program cannot bring about. WriteQueue::run is cut at both its waits (WriteQueue.take_pass and
-- write_frame, whose interleavings are WriteQueue.Steps). In Client and Server a pass of it is one step
-- (run_pass): the calls that other coroutines make while the transport writes come before or after the
-- pass. Of a write that fails, the bytes that were sent before the error are not added to what the
-- transport was given. A chunk that a read gives may be longer than the 4096 bytes of the buffer of
-- read_loop.
-- A shared_ptr<PendingRequest> is a handle into the heap of its client. Operations of a server are held
-- by its map operations_. Handlers and codecs of users are arguments.
--
-- Numbers: a machine integer is a natural number with its wrap-around written out, `% 2 ^ 64` for
-- std::size_t and std::uint64_t; frame members are within their types where a theorem
-- says so (Frame.Validation.FitsHeader). A std::set is an ascending list, an unordered map an association list.
-- The loop of FrameDecoder::push runs on fuel, the number of bytes given, which is enough because each
-- pass takes a byte at least; fail_pending on the number of pending requests, because each round
-- takes one from the map.
--
-- Not in this repository, and so a parameter: the channels of Boost.Asio (Channel), a record of
-- operations with their documented laws, which Channel.Buffer meets; and its sockets (Tcp), another such
-- record, which Tcp.Memory meets. What an acceptor, a resolver and the race of connecting and a timer
-- complete with are inputs. Not modelled: the executor, exceptions of a diagnostics hook, which
-- notify_diagnostics drops, the version constant, and the repository's own tests.
pub mod Base
pub mod Status
pub mod Lifecycle
pub mod Diagnostics
pub mod Operation
pub mod Stream
pub mod Frame
pub mod Decoder
pub mod Registry
pub mod Message
pub mod Channel
pub mod Transport
pub mod Exchange
pub mod WriteQueue
pub mod Client
pub mod Server
pub mod Tcp
pub mod Tests
