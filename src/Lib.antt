-- ===== src/Lib.antt =====
-- Swyft: the TypeScript of the liquidity, trading and settlement service (apps/api) and of its client
-- SDK (packages/sdk). A web client quotes swaps and values positions with the SDK and talks to the
-- API. In front of the API stand the rate limiter and the keys of the administration; a wallet logs
-- in by signing a nonce, and the token it gets is checked by the guard of its routes. Swaps become
-- candles; what a pool holds is compared with the thresholds of the wallets, whose webhooks are told
-- of events. The indexer takes the events of the contracts from queues, stores them and
-- projects them into tables; jobs that fail too often become dead letters, which can be replayed.
--
-- Prelude     shared names, results that may be thrown, bigint and number of JavaScript, tables, and
--   work that one caller at a time does for a key (Flights).
-- Sdk.PositionMath   packages/sdk/src/position-math.ts: ticks, prices and amounts over bigint.
--   Ticks and Amounts hold the proofs.
-- Sdk.Quote   packages/sdk/src/quote.ts: getSwapQuote with computeSwapStep and the walk over the ticks.
--   Steps describes one step and the walk on natural numbers, Results the quote, Ladder the order of
--   the ticks.
-- Api.Auth    apps/api/src/auth/auth.service.ts and nonce.controller.ts: verifyWallet,
--   registerFailedAttempt and the script that consumes a nonce are `step`, one call of Redis at a time;
--   `run` is a request alone, `history` any interleaving of requests. SingleUse is about
--   interleavings, Lockout about requests one after the other.
-- Api.KeyRing    apps/api/src/admin/internal-key-ring.ts: loadKeyRing, matchKeyRing,
--   keyRingConfigProblems.
-- Api.RateLimit  apps/api/src/rate-limit/rate-limit.middleware.ts: use, rulesFor, endpointRuleFor,
--   routeBucketFor, identityFor, hit, effectiveHit, handleRedisUnavailable.
-- Api.Jwt        apps/api/src/auth/jwt-auth.guard.ts: canActivate, authorizeWebSocket; issueJwt of
--   auth.service.ts. Claims, Granted, Channels and Login hold the proofs.
-- Api.AdminGuards  apps/api/src/admin/internal-key.guard.ts: InternalKeyGuard, TestnetRedeployGuard
--   and, in PoolInit, PoolInitGuard. Described, Entrance and
--   SingleInit hold the proofs.
-- Api.Cache      apps/api/src/cache/cache.service.ts: get, set, del, getOrFetch, checkRateLimit.
--   Stored, SingleFlight and Limits hold the proofs.
-- Api.PriceCandles  apps/api/src/price/price.service.ts: getCandles and fillCandleGaps. Filled and
--   Unaligned hold the proofs.
-- Api.PriceStream  apps/api/src/price: ws-auth-policy.ts and, in Subscriptions, handleMessage of
--   price.gateway.ts and the maps of price.service.ts. Policy, Mirrored, Closed and Capped hold the
--   proofs.
-- Api.Candles    apps/api/src/candles/candles.service.ts: the parent has aggregatePeriod and what it
--   calls, Service aggregate, backfill and runExclusive, Ticks getTicks. Summary describes a candle
--   without the code's map; Hourly, Written, Replayed, Gaps, Exclusive, Backfilled, Paging and
--   Collected hold the proofs.
-- Api.Webhooks   apps/api/src/webhooks: webhooks.service.ts and webhook.processor.ts. Streaks is about
--   deliveries, Owners about the requests of wallets, Fanout about an event.
-- Api.TvlAlerts  apps/api/src/stats/tvl-alert.service.ts, with the webhooks that an alert reaches.
--   Triggered is about one check, Quiet about many, Reach about the webhooks.
-- Api.Tokens     apps/api/src/tokens/token-enrichment.service.ts: upsertToken.
-- Api.Indexer    apps/api/src/indexer. Jobs: queues.ts and guardEmptyData. Database: the tables and the
--   upserts. Worker: the handlers of indexer.worker.ts. Cursor:
--   indexer-cursor.service.ts, with one advance after the other and, in Overlap, with advances that
--   overlap. Checkpoint: a handler followed by its advanceLedger. DeadLetters:
--   indexer-dead-letter.service.ts. Replays: indexer-replay.service.ts.
--
-- State is passed explicitly. A table is a list of rows with unique keys, for a table of the database,
-- a Map of JavaScript or the keys of Redis. Where a store may fail, a flag or a number says how: in the
-- handlers of the indexer `n` is the number of calls that are answered before the connection is lost.
-- Fuel: a login makes at most seven calls of Redis, and the table of `verify_wallet`'s results shows that
-- each ends. The loop over the buckets of an hour and the loop of backfill get one round for each step
-- of their window and one more; their theorems show that this is enough. A client that collects all
-- pages gets one page more than there are rows.
--
-- Outside of the repository, and so a parameter: the check of a signature, the verification of a JWT,
-- SHA-256, Date.parse, JSON, BullMQ, the answers of the network, of a webhook's URL and of the token
-- list, the store of claimed nonces, and `setMaxNumber`, which the indexer calls on the cache although
-- no file defines it. A parameter as well is floating-point
-- arithmetic, with the subtraction of the slippage in getSwapQuote. The database refuses a swap or a
-- position without its pool and a fee beyond 32 bits.
--
-- Not modelled: spans, metrics, log lines, the texts of errors and the values of most time stamps; the
-- check of a webhook's URL and its signature; spot prices and their delivery, pools, statistics, search,
-- transactions; the calls of the contracts in the SDK; the web client, whose code is React components; and the
-- contracts, which are not TypeScript.
pub mod Api
pub mod Prelude
pub mod Sdk
