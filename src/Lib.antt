-- ===== src/Lib.antt =====
-- Protohackers, solutions in Go: the servers' core logic, without their sockets.
--
-- The repository has one directory for each problem, each a server of its own. What is modelled:
--
-- Speed: 6-speed-daemon. Speed/Message is message.go: `marshal` is `Marshal` with `constructPacketData`,
-- `unmarshal_message` is `UnmarshalMessage` with `extractPacketData`, over the bytes of a stream.
-- Speed/Session is session.go: the role of a client, its registration and the heartbeat counter.
-- Speed/Server is main.go: `process_plate` is `ProcessPlate`, `send_ticket` is `SendTicket`, and
-- `handle_request` is `HandleRequest` of session.go on the state of a session and of the server. A
-- request is one step. The float64 computation of a speed and `sort.SliceStable` are the parameter
-- `Gauge`.
--
-- Prime: 1-prime-time/main.go: `unmarshal_json` is `UnmarshalJSON`, `handler` is `handler`, and `serve`
-- the loop over a connection. `json.Unmarshal` and `ProbablyPrime` are the parameter `Library`.
--
-- Means: 2-means-to-an-end: `unmarshal_message` is `UnmarshalMessage` of types.go, and `handle_session` is
-- `handleSession` of main.go, over the bytes of a connection.
--
-- Chat: 3-budget-chat/main.go. `looper_round` is a round of the looper, `register`, `leave_room` and
-- `say` are the calls of a session, and Chat/Rooms has them in any order, each as one step. Chat/Lock
-- splits the calls into the steps between which another thread may run: those that take the lock, send
-- to the channel and receive from it; `register` is left out there. Only the write of the list of users
-- may fail; Chat/Broken is about the name of a session that ends by it.
--
-- Database: 4-unusual-database-program/main.go: `handle_packet` is `handlePacket`.
--
-- BogusCoin: 5-mob-in-the-middle/main.go: `replace_bogus_coin` is `replaceBogusCoin`, `forward` is the
-- loop of the proxy over one direction of a connection.
--
-- Lrcp: 7-line-reversal. Lrcp/Message is lrcp/message.go and util/number.go. Lrcp/Session is the
-- receiving side of lrcp/session.go, `HandleIncoming` and `readNewLineFromMessage`, Lrcp/Sender the
-- routine that sends the lines, and Lrcp/Server is the session manager, `handleIncomingMessage`,
-- `dispatcher` and the handler of main.go. Numbers are int32: sums and differences wrap as in Go. A
-- datagram is one step; the goroutines that handle two datagrams at once are not interleaved.
-- Lrcp/Server/Isolation takes the messages for several sessions one after the other, and Lrcp/Server/TooLong
-- is about the data that overflows the buffer of a line. The timeout of a
-- session takes it out of the map; the close that Go would send behind it is never reached.
-- Lrcp/Delivery has the two ends together: a round of one, and the acknowledgements of the other.
--
-- Isl: 8-insecure-sockets-layer. Isl/Cipher is isl/cipher.go: the operations of a cipher spec with the
-- positions that they keep, `write_all` and `read_all` for the chains that `NewWriter` and `NewReader`
-- build, and `read_cipher_spec` for `ReadCipherSpec`. Isl/Server is `handleConn` of isl/server.go on the
-- bytes of a connection, and Isl/Toys the handler of main.go, with `decodeToys` and `encodeToy`;
-- `sort.Slice` is a parameter.
--
-- JobCentre: 9-job-centre/job_queue.go and main.go. JobCentre/Heap is the type `jobQueue` with the
-- operations of `container/heap` over it, on a slice of jobs that know their index. JobCentre/Queues is
-- `JobQueues`, with the jobs in a memory of their own: `push`, `remove` and `pop_round`, one round of
-- the loop of `Pop`. JobCentre/Handler is `queueHandler` of main.go: the jobs that wait in the queues, and
-- those in progress with a client.
-- JobCentre/Requests is proto/server.go: the buffer that a request is read through, the lines that a
-- connection is cut into, and the requests that `looper` dispatches to the handler; the coding of JSON
-- is the parameter `Json`. An index outside a heap's slice and a nil queue or map are panics, as in Go.
-- JobCentre/Centre is the specification of the whole server, a set of jobs that wait or are held by a
-- client. Centre/Runs has the calls of the clients in any order, with the clients that are online and the
-- requests and answers so far, and Centre/Exchanges says what a request and its answer tell of.
--
-- Pools: util/pool.go of 9-job-centre and 8-insecure-sockets-layer: `get_bytes` is `GetBytes`, `put_bytes`
-- is `PutBytes`, and `sync.Pool` returns any of its items or none.
--
-- Fuel: the loops that go on by a byte at least have the length of what they read, among them those over a
-- connection; the slicing of a packet has its length, since each round makes it shorter, `up` of the
-- heap has the number of its place and one, or the length, and `down` has the length. That it is enough
-- is part of the results about them.
--
-- Not modelled: sockets, the accepting and closing of connections, timers and goroutines, but for the
-- interleavings that Chat/Lock, JobCentre/Centre and Pools have; the pools of bufio readers; the echo of
-- 0-smoke-test.
--
-- Prelude: lists and integers over the native numbers, texts as bytes, machine words, decimal numbers.
pub mod Prelude
pub mod BogusCoin
pub mod Chat
pub mod Database
pub mod Isl
pub mod JobCentre
pub mod Lrcp
pub mod Means
pub mod Pools
pub mod Prime
pub mod Speed
