-- ===== src/Lib.antt =====
-- A model of the distributed event bus: a broker that fans events out to the subscribers of a topic in
-- memory, the frames in which a connection carries messages, and the payloads of those frames.
--
-- protocol/frame.go is the folder Protocol, on top of Wire. A frame is its size in four bytes, its type
-- in one, and its payload. `Frame` is the struct, `read_frame` is `ReadFrame`, `write_frame` is
-- `WriteFrame` and `write_full` is `writeFull`. Wire.Stream holds what those calls take from Go's io
-- package: `Source` is a reader that delivers its bytes in pieces of any size, with `read_full` for
-- `io.ReadFull`; a writer is a function that takes a part of what it is given, under the contract
-- `IsWriter`, which is that of `io.Writer`. Wire.Bytes is `binary.BigEndian` and the errors.
--
-- transport/tcp/messages.go is the folder Messages. Each `encodeX` is `encode_x` and each `decodeX` is
-- `decode_x`, over `write_string`, `read_string`, `write_bytes` and `read_bytes`. A `bytes.Buffer` is
-- the list of the bytes in it, and a `bytes.Reader` the list of those it has left.
--
-- broker/broker.go is the folder Broker. `Broker` is the struct, with its maps as association lists. A
-- `*Subscription` is an index into `heap`, which keeps every subscription that was ever made, so that a
-- reader that holds one after it has left `topics` still reaches it. Broker.Subscription has `enqueue`,
-- `Subscribe`, `Subscription.Close` and the reading of a queue; Broker.Memory has `seen`, `remember` and
-- `cacheEvent`; Broker.Publish has `PublishWithResult`, `Publish`, `Close` and `Drain`; Broker.State has
-- `New`, `State` and `BeginShutdown`. A channel is the list of what is in it, with its capacity and
-- whether it is closed. The Broker modules with Laws in their names, and Delivery, Waiting, Success,
-- Order, Outage, Drain and Reach hold the theorems; Broker.Invariant is the invariant and its preservation.
-- The server hands the payloads that Messages decodes to the broker, and the broker's events to
-- Messages to encode; `Event` is the type that the two share.
--
-- transport/tcp/server.go is the folder Server. `Server` and `Connection` are the structs; a
-- `*connection` is an index into `connections`, which keeps every connection that was accepted. Each
-- channel of `pendingAck` is an index into `channels`. Server.State has `NewServer`, `State`, the steps of
-- `Serve` and `removeConnection`; Server.Requests has `subscribe`, `unsubscribe`, `acknowledge` and the
-- `switch` of `serve`, which is `handle_frame`; Server.Serving has `serve` itself; Server.Publishing has
-- `publish`; Server.Delivery has `deliver`, over what becomes of each attempt; Server.Failures has the
-- errors with their texts and `sendError`; Server.Lifecycle has `close`, `abort`, `gracefulClose`, `Close`
-- and `GracefulShutdown`. A handler takes the broker and returns it, so that a connection reaches the
-- broker as the code does, through its methods only. Server.Steps says what a server does in one go, and
-- Server.Ownership who holds a subscription; Changes, Closings, Drains, Drained, Served, Branches and the modules
-- with Ownership in their names are the lemmas, and Reach, GracefulLaws, RefusalLaws, DeliveryLaws and
-- PublishingLaws the theorems.
--
-- transport/tcp/client.go is the folder Client. `Client` is the struct. Client.State has `send`, `Close`
-- and `newMessageID`; Client.Calls has `Dial` from an open connection on, `Subscribe`, `Unsubscribe`,
-- `Acknowledge` and `PublishWithResult`, cut in two at its last `select` into `publish` and `await`;
-- Client.ReadLoop has `readLoop`, with `take_frame` for one round; Client.Deliveries has
-- `rememberDelivery` and `wasDelivered`. Client.Histories are the runs of a client. System puts a client
-- and a server together.
--
-- transport/tcp/connection_manager.go is the folder Manager. Manager.Endpoints has `prefer` and `connect`,
-- Manager.Calls has `Subscribe`, `Acknowledge`, `Publish`, `Close`, `connectUntilAvailable` and
-- `NewConnectionManager`, and Manager.Recovery has `watch`, `reconnect` and one round of `run`. A client
-- of a manager is a number; what `Dial` and the client's methods do is a `Network` or an argument.
--
-- logging/logger.go is the folder Logging.
--
-- cmd/event-bus/main.go is the folder Commands: `Process` in Commands.EventBus is what the flags, the HTTP
-- handlers and the signals of `main` share, around a `Server` with its broker. `trigger_shutdown` is what
-- `shutdownOnce` guards, with `graceful_shutdown` of the server and `close` of the broker.
-- cmd/producer/main.go is Commands.Producer, whose `produce` runs through a list of rounds with what each
-- finds, and publishes with `publish` of the manager.
--
-- What Go leaves open is an argument: `Choices` has the order in which a `range` visits a map, and the
-- case that a `select` takes where two are ready; `World` has the same for a client and for a shutdown. `IsRange` and
-- `IsOrder` say that a `range` visits every entry once. A context is `none` while it is not done, or the
-- error that it ended with. A write to a connection fails or not as an argument says, but for a frame that
-- `WriteFrame` refuses before it writes. Whether the waits return that no context ends is an argument as
-- well: `finishes` for the last deliveries of a connection and its SHUTDOWN frame, for which
-- `gracefulClose` waits, and `admin_ends` for `admin.Shutdown`.
--
-- Numbers are natural. The sequence of a broker is a `uint64` with its wrap-around, and the histories
-- of Broker.Reach, Broker.Order and Server.Steps make fewer than 2 ^ 64 - 1 subscriptions, since an entry
-- of `topics` would be overwritten after that. `write_full` runs on fuel, the number of the bytes to
-- write: each round that goes on takes at least one, so that this is enough, which Protocol.Writing
-- proves. `digits` runs on fuel, the number itself, which it divides by ten in each round. `drain` runs
-- through a list of wake-ups, the ticks of its timer with what the reader has taken in between, and
-- `watch`, `reconnect`, `connect_until_available`, `read_loop` and `serve` through lists of what they
-- find. The loops of `deliver` and of a manager's `Publish` recur on the attempts that are left, and
-- every other loop on a list. Times are milliseconds.
--
-- Each call of the broker runs with no other call in between, but for Broker.Interleaving, in which
-- `PublishWithResult` is cut at the places where it holds no lock, and other calls run there. A handler
-- of the server runs in one go as well, also behind the end of its connection, if its frame was read
-- before; and `GracefulShutdown` closes one connection after another.
--
-- Not modelled: the wait of `enqueue` for room as a step of its own, the wait of `Close` of the
-- server for the goroutines of its connections,
-- the formatting of log messages, the texts of the network's errors, `strings.ToLower` outside ASCII,
-- the parsing of flags, HTTP and JSON, and the consumer and the
-- demos in cmd, which pass what a client returns to the log.
--
-- Prelude passes on the names that all modules share. Tests runs the model at small inputs.
pub mod Prelude
pub mod Wire
pub mod Protocol
pub mod Broker
pub mod Messages
pub mod Client
pub mod Server
pub mod Manager
pub mod System
pub mod Logging
pub mod Commands
pub mod Tests
