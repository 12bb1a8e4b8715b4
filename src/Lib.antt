-- ===== src/Lib.antt =====
-- The queue for scarce goods of backend/: users join the queue of a product, get the right to buy
-- some of its units or an offer of fewer, and pay, leave, or run out of time. Redis holds the hot
-- state (the pool of free units, the queues, the cached memberships and rights, timers, claims) and
-- PostgreSQL the durable one; the service moves both, call by call, and any call may fail.
--
-- The files, and the code they are about (under backend/internal):
--   Models      models/: errors, statuses, records. Identifiers are only compared, so they are numbers;
--               times are numbers of nanoseconds.
--   Redis       repository/redis/cache.go: SortedSet is Redis' sorted set; State the keyspace, one
--               function for each family of keys; Scripts and Timers the Lua scripts, each one atomic
--               step on the state (fooScript is foo_script); Repo the methods of CacheRepo (FooBar is
--               foo_bar), each one remote call.
--   Postgres    repository/postgres/durable.go and the migrations: State the tables, Rows the
--               statements on rows, Rights the transactions on rights, Outbox the statements on
--               stock_decrement_outbox, Snapshot what recovery loads, Reports the reads of lists and
--               counts.
--   World       what a call of the service acts on, and the monad of its steps. Before each remote
--               call the world's list of faults says whether it fails; a failed call has no effect. A
--               transaction is one call. Readings of the clock advance by any amount. World/Triple has
--               the rules by which a property is carried through such steps.
--   Service     service/queue_service.go and service/expiration.go: Config the settings, the durable
--               calls and the claim on a membership; Sync syncCacheState; Advance AdvanceQueue; Join
--               JoinQueue; Payment ProcessPayment and the validation of rights; Leave LeaveQueue,
--               DeclineOffer and expireActiveRight; Offer AcceptOffer; Expiration ProcessExpirations; Keys
--               the text of a timer's key, which Expiration takes as the pair it stands for;
--               Recovery service/recovery.go, with the products and rights in Rights and the
--               memberships in Members; Presence service/presence.go; Outbox
--               service/stock_decrement_outbox.go; Views service/membership.go, user_queues.go,
--               stats.go and metrics.go.
--   Transport   transport: Response response.go and dto.go, errors and results as statuses and bodies;
--               Handlers the plain requests; Router router.go and the guards of mw; Streams sse.go, ws.go
--               and the session of user_queues.go, as what each writes for the rounds of its loop;
--               Traffic a request or a pass, Reached the worlds they lead to.
--   Avito       backend/cmd/avitomock/main.go: the stock of the stand-in for AvitoBackend and its
--               handlers; Checkout the button of its page; Client client/avito/client.go; Link the
--               client and the stand-in with a network between them that loses requests and responses.
--   Settings    config/config.go, the constructor of service/queue_service.go, and the loops of the
--               workers in backend/cmd/api/main.go.
--   Oversell    the invariant that no unit is promised twice, its cost for each script, transaction and
--               operation, and the theorems on the operations.
--   Redis/Order and Redis/Fifo are on the order of a product's queue, Redis/TimersKept on the timers,
--               Redis/Claims on claims and slots; Postgres/Once on the end of a right,
--               Postgres/Reported on the seller's metrics.
--   Lasting     conditions on the rights of PostgreSQL that every operation of the service keeps.
--   Rounds      the loop of AdvanceQueue.
--   Validation  what the validation of a right checks.
--   Idempotency a repeated JoinQueue.
--   Recovery    what recovery reserves and what it puts into the pool; Redis/Restored is on the queue.
--   Outbox      the outbox: its rows, leases, delivered events, passes and back-off.
--   Presence, Views, Avito/ExactlyOnce, Settings/Loaded and Transport/Session are on the code that their
--               names say; Avito/Paid on a checkout through all layers; Transport/Guarded on the router,
--               Transport/Streamed on the streams.
--   Examples    a small shop, and the theorems applied to it.
--
-- Bounds: the loop of AdvanceQueue runs for at most one round more than the queue is long, which is
-- enough since each round ends the loop or takes the head off the queue; the other loops are those of
-- the source, over lists or a fixed number of attempts. The back-off of the outbox doubles an int64,
-- with its wrap-around. What other requests do while a request waits for a claim is a parameter of the
-- service, as is what AvitoBackend answers, which may change from one operation to the next; the calls
-- of DecrementStock are kept in the world, in their order.
--
-- Not modelled: the subscription behind the realtime stream, whose messages carry no state; the decoding
-- of requests and the choice between a plain answer and a stream by headers; the checkout page, which is
-- HTML; the parsing of the environment, the start and shutdown of servers and pools, and logging; what an
-- event carries; a call of Redis or PostgreSQL that fails after it took effect, and a reset of the slots
-- that fails half way; an answer of AvitoBackend that is not a count of units, such as a negative one;
-- the interleaving of two operations inside one another's steps. The average of the seller's metrics is
-- computed by PostgreSQL, so it is a parameter.
pub mod Base
pub mod Models
pub mod Redis
pub mod Postgres
pub mod World
pub mod Service
pub mod Rounds
pub mod Validation
pub mod Recovery
pub mod Idempotency
pub mod Oversell
pub mod Examples
pub mod Outbox
pub mod Avito
pub mod Presence
pub mod Views
pub mod Transport
pub mod Lasting
pub mod Settings
