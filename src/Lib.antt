-- ===== src/Lib.antt =====
-- Verification of reactive-commons-go: events, commands, queries and notifications over RabbitMQ and
-- Kafka.
--
-- How the parts interact. A user registers handlers by name or topic pattern in a registry; a listener
-- takes a delivery, decodes its envelope, finds the handler and settles the delivery; a gateway or an
-- event bus encodes a message and sends it, on RabbitMQ through the sender, which waits for the
-- broker's confirmation; the reply to a query comes back through the reply router.
--
-- Which file models which part:
--   Base and its children   the shared names: tests, lists, maps as association lists, signed integers
--   Async                   pkg/async/types.go, errors.go; Async/Headers: pkg/headers/headers.go;
--                           Async/JsonValue, Async/Wire: what encoding/json does with the messages
--   Matcher                 internal/matcher/keymatcher.go: Matches, Resolve, MostSpecific, compare.
--                           Matcher/Key specifies matching, Matcher/Compare and Matcher/Resolution
--                           are about the choice of a pattern
--   Distinct                lists without a double, for the listeners of an application
--   Handlers                what it means that a name resolves to a handler, for both registries
--   Rabbit/Registry         internal/rabbit/registry.go, with its cache and its two lock phases
--   Rabbit/Sender           internal/rabbit/sender.go. A function is one critical section;
--                           Rabbit/Sender/World interleaves them with the broker, as a step relation
--   Rabbit/Dispatch         internal/rabbit/dispatch.go and the four listeners beside it
--   Rabbit/Consumer         internal/rabbit/consumer.go; Rabbit/Consumer/World: any number of `start`
--                           calls and their supervisors, as a step relation
--   Rabbit/Connection       internal/rabbit/connection.go; Rabbit/Connection/World: the goroutines of
--                           Dial, watchClose, reconnectLoop and of the call that stops them, as steps
--   Rabbit/Gateway          internal/rabbit/gateway.go, eventbus.go, replylistener.go
--   Rabbit/Application      internal/rabbit/application.go: Start, the topology, the health;
--                           Rabbit/Application/Restore: restoreWithBackoff; Rabbit/Application/Drain:
--                           the wait groups of the shutdown, as steps
--   Rabbit/Config           internal/rabbit/config.go
--   Rabbit/Topology         internal/rabbit/topology.go, as the list of declarations it sends
--   Rabbit/Headers          headerString of internal/rabbit/querylistener.go
--   Rabbit/Converter        internal/rabbit/converter.go
--   Kafka/Registry          internal/kafka/registry.go
--   Kafka/Backoff           retryBackoff of internal/kafka/eventlistener.go
--   Kafka/Listener          processMessage of internal/kafka/eventlistener.go and commandlistener.go
--   Kafka/Topology          internal/kafka/topology.go, collectTopicsToVerify of application.go
--   Kafka/Application       Start, its shutdown, of internal/kafka/application.go
--   Kafka/Config            internal/kafka/config.go
--   Kafka/Gateway           internal/kafka/gateway.go, eventbus.go, and publish of producer.go
--   Kafka/Queries           processMessage of internal/kafka/querylistener.go and
--                           notificationlistener.go, route of replylistener.go
--   Kafka/Loop              internal/kafka/loop.go, awaitPrimed of replylistener.go
--   Kafka/DeadLetter        internal/kafka/dlq.go
--   Envelope                internal/envelope/codec.go
--   Public                  rabbit/config.go, rabbit/builder.go, kafka/config.go, kafka/builder.go
--   ReplyRouter             internal/replyrouter/replyrouter.go
--
-- How the code corresponds. A Go map is an association list; the order in which `range` visits it is
-- an argument, a list of its keys in any order. A mutex's critical section is one function from state
-- to state. A buffered channel of capacity 1 is an optional value under the channel's number. uint64
-- and int64 arithmetic wraps at 2^64. A duration is an integer of nanoseconds, which may be negative.
-- A []byte body is the JSON value it holds, or none, and in Kafka/Gateway and Kafka/Queries the text
-- of it.
--
-- Bounds and fuel. The loops go along a list, or over the attempts that are left. restoreWithBackoff,
-- retryRebuild and the loops of a Kafka consumer take fuel, and more than the number of rounds before
-- the last one is enough; the digits of a number take 20 rounds, enough below 10^20. The broker's
-- numbers stay below 2^64 - 1 on one channel.
--
-- Parameters. User handlers, encoding/json's case folding of keys and the coding of payload types are
-- arguments. Of the broker the steps of Rabbit/Sender/World say that it numbers the publishes on a
-- channel from 1, confirms only numbers that it has given, that a publish which fails is not counted,
-- and that a channel's listeners are closed only once it is dead.
--
-- Not modelled: sockets, random names, TLS and SASL settings, logging, metrics and tracing, which are
-- calls of other packages; the settings of a Kafka reader and the fields of an AMQP connection; time,
-- except for the lengths of waits; the example programs.
pub mod Async
pub mod Base
pub mod Distinct
pub mod Envelope
pub mod Handlers
pub mod Kafka
pub mod Matcher
pub mod Public
pub mod Rabbit
pub mod ReplyRouter
