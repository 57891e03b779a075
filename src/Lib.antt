-- ===== src/Lib.antt =====
-- A model of the core of actix-pura, an actor framework with a clustered trading system on top of
-- it, and what is proved of it.
--
-- Parts
--   Raft     The replicated log of the trading system, trading/src/consensus/raft.rs. `RaftNode`
--            is `RaftNodeActor`; each handler is a function of the node that returns the answer,
--            the new node and the effects (timers and messages) as values. Types holds the data,
--            Log the operations on the log, Rpc `append_entries` and `handle_request_vote`, Leader
--            the elections, the replication and the commits, Actor the node as an actor, Steps all
--            of it as one step relation.
--   Mailbox  The bounded channel between an address and its actor, actix/src/address/channel.rs.
--            State is the state word of 64 bits, Channel the senders, Receiver the receiver;
--            Atomic splits the calls into the atomic operations that threads interleave.
--   Runtime  What runs an actor. Context and Life are the context of actix/src/context_impl.rs
--            with its flags, waiting futures and items, and the polls of `ContextFut`, whose loops
--            are in Loops; Poll has its `poll` and `restart`, the poll of actix/src/mailbox.rs and
--            the `supervise` of actix/src/supervisor.rs. An actor is a `Behaviour`: functions that
--            give its new state and the calls that it makes on its context. The events that are
--            kept beside the state record what was run, and nothing reads them.
--   Broker   The broker of actix-broker/src/broker.rs: Subscriptions holds its maps by the type of
--            a message, the subscriptions and the messages that are remembered.
--   Trading  Orders (trading/src/models/order.rs, Order), the order book
--            (trading/src/execution/order_book.rs, Levels and Book) and the matcher
--            (trading/src/execution/matcher.rs, Matcher and Continuous), the engine over both
--            (trading/src/execution/engine.rs, Engine and Dispatch), accounts and positions
--            (trading/src/models/account.rs, Account), the actors of accounts and of orders
--            (trading/src/actor/account.rs, Teller, and trading/src/actor/order.rs, Desk), the
--            checks of risk (trading/src/risk/manager.rs, Risk) and the state machine of the log
--            (trading/src/consensus/state_machine.rs, Machine).
--   Cluster  Vector clocks and the resolution of conflicts (actix-cluster/src/sync/mod.rs, Clock),
--            the placement of actors on nodes (actix-cluster/src/placement.rs, Placement, with the
--            hashes of identifiers in Hash), the registry of actors with its cache
--            (actix-cluster/src/registry.rs, Registry), the supervisors of distributed actors
--            (actix-cluster/src/supervision.rs, Supervision) and the table of migrations
--            (actix-cluster/src/migration.rs, Migration).
--   Prelude  Tests, lists, dictionaries, integers, decimal numerals and 64-bit arithmetic that the
--            parts share.
-- The other modules of a part hold its lemmas and theorems, and Examples (Accounts for the
-- accounts, Engines for the engine, Commands for risk and the state machine, Desking for the
-- actors of accounts and orders, Failing for supervision and migration) applies the theorems at
-- concrete inputs.
--
-- How the parts interact: a node of the trading system is an actor, so its handlers run one at a
-- time on messages that a Mailbox channel delivers: the Runtime takes them from the channel and
-- hands them to the actor, and the Broker puts them into the channels of its subscribers. The Raft
-- log replicates the commands of the trading system. `machine` of Trading/Machine is the state
-- machine that `apply_committed_entries` of Raft is given, and Trading/Replicas composes the two.
-- The engine keeps one book for each symbol and hands an order to the matcher with the book of its
-- symbol; the actor of orders keeps its own orders and hands a copy of each to the engine, of
-- which it only takes what the engine becomes (an argument). The checks of risk read an account of
-- Account and a price that the manager has cached. A cluster's registry looks an actor up by its
-- path, in its cache, among the local actors and among the remote ones in turn; placement chooses
-- the node for an actor among those that the selector calls active.
--
-- Conventions
--   * u64 and usize are natural numbers; an addition or subtraction in the source that can leave
--     64 bits is `add64`, `sub64` or `elapsed`, modulo 2^64. Theorems that need it say that an
--     index or a count is below 2^64.
--   * Quantities of orders are integers: they are f64 in the source, given as u64, and exact up to
--     2^53. A price is of any type with the operations of `PriceOps`, which stand for the casts
--     and comparisons of f64. The money of an account is f64 too; the model is of amounts that are
--     whole numbers, whose sums are exact within 2^53 and rounded beyond and for fractions, and
--     the division in an average price is an argument.
--   * A HashMap or BTreeMap is an association list (a BTreeMap one with ascending keys). Where the
--     source searches the values of a HashMap, as the registry does for the path of a remote
--     actor, the order of the list stands for the order of iteration.
--   * Instant::now, random timeouts, timer handles and UUIDs are arguments. A lookup in the
--     registry reads the clock once, and the nodes of a selector stay the same during a call.
--   * The state machine under the log is an interface of two operations (`StateMachine`).
-- Fuel: `apply_committed_entries` gives its loop commit_index - last_applied + 1 tests, of which
-- the last one ends it; `drop_receiver` needs one more round than there are messages. A market
-- order takes its fuel as an argument, where one round more than there are orders on the other
-- side is enough; for `continuous_match` it is one round more than there are orders in the book.
-- `execute_order` hands its fuel to both, and three more than there are orders in the book is
-- enough. The loops of the Runtime take fuel too, since an actor may never let them end. `none`
-- says that it ran out.
--
-- Not modelled: f64 amounts of money that are not whole numbers, the linked queues of
-- actix/src/address/queue.rs (a list), wakers (an actor is polled again at any time, and messages
-- of other senders arrive between its polls), logging, weak and boxed senders, the message
-- handlers of the matching engine, persistence, HTTP, arbiters, thread pools, streams and
-- services, the combinators of futures, the synchronous issue of a broker, the derive macros, and
-- of actix-cluster the discovery of actors, the broker, the transport, the serialization, and the
-- trait of supervised actors.
--
pub mod Prelude
pub mod Raft
pub mod Mailbox
pub mod Runtime
pub mod Broker
pub mod Trading
pub mod Cluster
