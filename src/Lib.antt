-- ===== src/Lib.antt =====
-- Models of wasla-core's backend and proofs about them: the transactional outbox, its relay
-- and the deliveries, the unit of work, the money module, the coordination of fulfillments, the usage and
-- entitlement of subscriptions, the rate limiter and the errors. Paths are from the repository's root.
--
-- The parts and how they interact. A service command (src/modules/money/service.ts) reads
-- its repository, stages mutations, events and audit entries on a unit of work, and
-- `withTransaction` (src/platform/eventing/unit-of-work.ts) runs them inside the boundary
-- of src/platform/persistence/transaction.ts: mutations, audit entries and outbox rows are
-- written together, the deferred checks run at the end, and a failure unwinds everything.
-- The relay (src/platform/eventing/publisher.ts) later recovers abandoned rows of the
-- outbox, claims the due ones under a fresh token, publishes them and acknowledges each
-- under that token.
--
-- Base: lists, tables for JavaScript's maps, stable sorting, loops with `break`, signed
--   integers and sums.
-- Platform.Errors, Platform.Ids, Platform.Texts, Platform.Audit: src/platform/errors.ts,
--   ids.ts and audit/audit.ts, with the string methods that the modules call.
-- Platform.Journal: `MemoryJournal` over one map, its undo stack and its rollback.
-- Platform.UnitOfWork: `withTransaction`. A command's body is a state-passing computation
--   that may throw (`Work`); a repository inside a transaction is a value (`Scope`), so a
--   failed transaction is defined to return the system it began from; that the undo stack gives that is
--   proved in Platform.Journal. The writes of audit entries and outbox rows at the commit are taken
--   to succeed, and a body writes nothing out of band.
-- Platform.UnitOfWork.Parts: a module's work on another module's unit of work, as fulfillment
--   captures and voids holds on its own.
-- Platform.RateLimit: src/platform/http/rate-limit.ts.
-- Eventing.Outbox, with Eventing.Envelope, Fencing and Reclaim:
--   src/platform/eventing/outbox.ts, queue-order.ts, envelope.ts, fencing.ts and
--   reclaim.ts. Eventing.Outbox.Ops has schedules of calls, and Eventing.Outbox.Budget how often one row is
--   recovered.
-- Eventing.Revival and Eventing.Counts: the selection of dead rows of revival.ts, and
--   queue-counts.ts.
-- Eventing.Relay: `drainOnce` of publisher.ts; the bus's answers and what other processes
--   do to the outbox while an event is on the bus are parameters, so every interleaving of
--   calls is covered.
-- Eventing.Bus: inbox.ts and bus.ts, the consumers' inbox and the local bus. Handlers are parameters
--   that may change a state of their own kind and may throw; one publication runs at a time.
-- Eventing.Delivery: src/platform/eventing/delivery.ts, the deliveries of an event to the endpoints
--   of its subscribers. What endpoints answer and what other processes do to the store are
--   parameters of the worker's pass; an acknowledgement that breaks the table's rules throws, and
--   a delivery of an unknown event or subscription is refused (reference-keys.ts).
-- Money.Domain, Money.Store, Money.Service, Money.Holds, with their child modules for the
--   commands: src/modules/money/domain.ts, repository.ts and service.ts.
-- Money.Ages: the sampler's queries of repository.ts.
-- Money.Step: the abstract machine of the stored money, told apart by what was asked for, with its rows
--   and entries written out apart from the code; the commands refine it;
--   Money.Run: histories of commands; Money.Retry: a capture or a refund that is sent again;
--   Money.Sweep: the sweep of the expired holds; Money.Stale: commits made from reads that
--   are out of date.
-- Fulfillment.Domain, Fulfillment.Store, Fulfillment.Payments and Fulfillment.Service:
--   src/modules/fulfillment/domain.ts and service.ts. The store holds the rows of the money
--   module too. A command has two states: `seen`, which its reads and the body of its
--   transaction see, and the present one, on which the transaction commits; what follows a
--   lost transition reads the present state again. The port to the money module is a
--   parameter, and `money_port` is the one that the application wires. What a port staged before it
--   threw is dropped, where the source keeps it on the unit of work; `money_port` stages nothing then.
-- Fulfillment.Turn: what one transaction may do to the rows and which closure events it may
--   send; Fulfillment.Moves: that each command does no more; Fulfillment.History: runs in
--   which every command may have read any earlier state, among the work of other modules.
-- Fulfillment.Repeats: an order that is delivered again; Fulfillment.Unreleased: a cancellation
--   whose hold cannot be released.
-- Subscription.Domain, Subscription.Store, Subscription.Usage and Subscription.Entitlement:
--   src/modules/subscription/domain.ts, repository.ts and service.ts, as far as `checkEntitlement`
--   and `recordUsage` go; Subscription.Granting is about the first,
--   Subscription.Outcomes and Subscription.Metering about the second.
--   Subscription.Periods and Subscription.Subscribers: the repository's writes of periods and
--   subscriptions; Subscription.Ending: `cancelSubscription` and `expireSubscription`;
--   Subscription.Reads: the lists and the sampler's queries.
--
-- Representation. Identifiers are numbers; `newId` is a counter, and the claim tokens are
-- arguments. Timestamps are milliseconds since the epoch, and a command sees one instant.
-- Amounts are integers without bounds: the service admits only safe positive ones, and sums
-- beyond the safe range are not considered. Currency and reference texts are the language's
-- strings. Messages that quote numbers are shortened. Handlers of
-- fulfillment begin with the canonical payload of their event. All loops are structural recursions
-- over the rows, so no fuel is needed.
--
-- Not modelled: the PostgreSQL adapters, HTTP routing and parsing, metrics, hashing and
-- random tokens, the interleaved steps of concurrent money commands (but see Money.Stale),
-- the signatures of deliveries, the plans, the opening, charging and renewal of
-- subscriptions, and the ingress, replay, reputation, notification, identity, organization and
-- geography modules.
pub mod Base
pub mod Platform
pub mod Eventing
pub mod Money
pub mod Fulfillment
pub mod Subscription
