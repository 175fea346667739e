-- ===== src/Lib.antt =====
-- go-tarantool: a client library for Tarantool.
--
-- Parts. A user builds a request (request.go, prepared.go, stream.go, watch.go, protocol.go; crud/ for
-- the functions of the crud module). Its body is written with the msgpack library, its space and index
-- are looked up in the schema that the connection has loaded (schema.go), and connection.go packs it
-- into a frame, keeps its future (future.go) by the request's id, and reads the answer's frame, whose
-- header and body response.go and box_error.go decode; smallbuf.go holds a frame's bytes.
-- connection_pool/ keeps connections to several instances. A connection of the pool stands in
-- `anyPool` and, by the instance's role, in `rwPool` or `roPool`; each of them is a round robin
-- balancer (connection_pool/round_robin.go) that hands its connections out in turn. One goroutine for
-- each address, the checker, connects, reads the role, moves the connection between the subpools and
-- drops it when it is closed. decimal/bcd.go packs decimal numbers for the wire, and
-- datetime/interval.go writes intervals of time.
--
-- Files.
--   Common, Common/*     Boolean tests, lists, association lists and bytes over the native numbers.
--   RoundRobin           connection_pool/round_robin.go: RoundRobinStrategy, one function a method.
--   RoundRobin/Order     the abstract balancer, an ordered association list.
--   RoundRobin/Refine    the balancer against the abstract one.
--   RoundRobin/Turns     the order in which connections are handed out.
--   Pool                 the state: ConnectionPool, connState's parts, state.go, const.go, poolWatcher.
--   Pool/Watchers        connection_pool/watcher.go.
--   Pool/Subpools        connection_pool.go: getConnectionFromPool, deleteConnection, addConnection,
--                        getNextConnection, getConnByMode, ConnectedNow.
--   Pool/Checker         updateConnection, tryConnect, reconnect, checker.
--   Pool/Lifecycle       ConnectWithOpts, fillPools, closeImpl, Close.
--   Pool/View            the abstract pool, three ordered lists, and what makes it consistent.
--   Pool/Placement, Pool/Registering, Pool/Choice, Pool/Rely, Pool/Rounds, Pool/Neighbours, Pool/Closing
--                        the laws of adding, choosing, checking and closing.
--   Decimal              decimal/bcd.go.
--   Decimal/Nibbles, Decimal/Encode, Decimal/Layout, Decimal/Decode, Decimal/RoundTrip
--                        what the encoder and the decoder do to nibbles, and the two together.
--   Interval             datetime/interval.go and datetime/adjust.go.
--   Interval/Sum, Interval/RoundTrip
--                        sums that wrap around, and decoding what was encoded.
--   Requests             connection.go: nextRequestId, futureList, newFuture and getFutureImp.
--   Requests/Lookup      the lookup of a request by its id.
--   Frame, Frame/RoundTrip
--                        connection.go: pack and read.
--   SmallBuf, SmallBuf/Reading
--                        smallbuf.go: the buffer that a decoder reads from.
--   Msgpack              what the code uses of the msgpack encoder, as the record Codec with the laws IsCodec.
--   Msgpack/Objects      how many objects a sequence of encoder calls writes.
--   Msgpack/Decoder      the decoder, as the record Decoder with the laws IsDecoder, and its loops.
--   Msgpack/Cells, Msgpack/Plain
--                        two small libraries of this kind, for the tests.
--   Iproto               const.go.
--   Request              the requests, one child for each: Request/Select is SelectRequest, and so on;
--                        Request/Fill has the `fill...` functions, Request/Bind encodeSQLBind, Request/Any
--                        the interface Request.
--   Request/Bodies, Request/WellFormed, Request/KeyOrder
--                        what the bodies are as msgpack, and the setters of a select request in any
--                        order.
--   Crud                 crud/: one child for each request; Crud/Values conditions.go and operations.go,
--                        Crud/Options, Crud/CountOptions, Crud/GetOptions, Crud/SelectOptions the options,
--                        Crud/Base common.go, Crud/Any all requests together.
--   Crud/Pairs, Crud/Sent, Crud/Calls
--                        which options are sent, and what the bodies call.
--   Future, Future/Iterator
--                        future.go.
--   Future/Ops, Future/Drain
--                        calls that fill a future in any order, and what its iterator hands out.
--   BoxError, BoxError/Fields, BoxError/Entry, BoxError/RoundTrip
--                        box_error.go.
--   Response, Response/Header
--                        response.go: the header and the body, and the law of the header.
--   Response/Uniform, Response/Filled, Response/Errors, Response/Again
--                        what a body's pairs set, the error, and decoding a body again.
--   Schema               schema.go: loadSchema behind its selects, and ResolveSpaceIndex.
--   Schema/Loaded, Schema/Attach, Schema/Resolved
--                        the spaces of a loaded schema, their indexes, and what names are resolved to.
--
-- Correspondence. A method that holds a mutex for its whole body is one function on the state. A
-- method that gives the mutex up and takes it again takes an argument for what the rest of the
-- program does to the pool in between. What the outside answers (Connect, the instance's role, the
-- user's handler, NewWatcher) is an argument, and what it is told (Close of a connection, Discovered,
-- Deactivated) is an entry of the pool's log. A map is an association list, an index out of range is
-- `none`, and a panic is a value of `Outcome`. `current` wraps at 2 ^ 64 as the 64-bit uint does.
-- An int64 is its 64-bit word. The msgpack library is a parameter: the records `Codec` and `Decoder`, with
-- their laws `IsCodec` and `IsDecoder`, and `Msgpack` with `IsMsgpack` for the intervals; how a Go struct becomes a value is
-- the record `Structs` with `IsStructs`. A user's value is of a type `V` of the library's. A response in a future
-- is its address, a context and a connection are their numbers. A future's calls are taken in the order in
-- which they get its mutex.
-- Every loop is structural recursion on the list that it walks or on the number that it counts to; no
-- fuel is used.
--
-- Not modelled. The wait for the rate limit and its tokens, the timeouts, and how the state of a connection
-- changes; the network, TLS, the
-- authentication requests, the msgpack library and the time zone table; the methods of a connection and of
-- the pool that build a request, choose a connection and wait for the answer; the decoders of crud results, of a
-- schema's spaces and indexes, and of column and SQL descriptions; multi/, queue/, settings/, uuid/ and
-- test_helpers/; the timers and channels that wake a checker, which are the argument `Signal` of a round. The
-- condition on the windows of a round is not shown for a Close, or for a round of another checker that has given
-- the mutex up itself. The
-- errors that Close of a connection returns are left out, as are those of writing to memory.
pub mod Common
pub mod RoundRobin
pub mod Pool
pub mod Decimal
pub mod Interval
pub mod Requests
pub mod Frame
pub mod SmallBuf
pub mod Msgpack
pub mod Iproto
pub mod Request
pub mod Crud
pub mod Future
pub mod BoxError
pub mod Response
pub mod Schema
