-- ===== src/Lib.antt =====
-- CancelChain: cancelling recurring token permissions of a Solana program. A wallet's permissions
-- (one-off, recurring, or a subscription to a merchant's plan) live on the chain; an indexer
-- follows the program's transactions into a database; an API serves cards, the feed and sign-in
-- from both; the web wallet builds the instructions that cancel.
--
-- The files, and the code they model:
--   Common: Boolean tests, lists over native numbers, maps with text keys, integers, results.
--   Shared: packages/shared/src, the shapes that every part speaks.
--     Primitives (primitives.ts: addressSchema, u64Schema, toU64, fromU64), Period (period.ts),
--     Allowance (allowance.ts: allowanceSchema, checkAllowance), Event (allowance.ts: eventSchema),
--     Reasons (reasons.ts: classifyRejection), PlanView (planView.ts: planTermsDivergence), Format
--     (format.ts: scaleAmount, shortenAddress).
--   Chain: packages/chain/src, from accounts to cards and from a card to an instruction.
--     Decode (decode.ts: decodeDelegation, deriveStatus, toAllowance), Revoke (revoke.ts:
--     revokeActionFor, subscriptionCancelWindow, the two builders), Read (read.ts: readAccounts in
--     batches; Read/Plans: resolvePlanRefs; Read/Cards: authorityStates, convert; Read/Wallet:
--     readAllowances, readAllowance), Events (events.ts: readProgramEvent, encodeProgramEvent;
--     Events/Layouts: CODECS), Instructions (the calls of @solana/subscriptions that grant.ts and
--     subscribe.ts make), Grant
--     (grant.ts: buildGrantInstruction, buildInitAuthorityInstruction, buildGrantTransaction,
--     findGrantedAllowance), Plan (plan.ts: readPlan), Subscribe (subscribe.ts: subscribeTermsFrom,
--     buildSubscribeInstructions; Subscribe/Bounds: readSubscribeBounds,
--     subscribeBoundsAsPlanTerms, buildSubscribeTransaction; Subscribe/Wallet:
--     readSubscriptionAuthority, readSubscriberState), History (history.ts: readAddressHistory).
--   Api: apps/api/src, the parts that decide.
--     RateLimit (rateLimit.ts), Auth (auth.ts: NonceLog, verifySignIn), Card
--     (routes/allowances.ts: readAtLeast, diverges, reconcile), Feed (feed.ts: readFeed),
--     Hub (stream.ts: createStreamHub's subscribe, deliver and handle).
--   Indexer: apps/indexer/src, from transactions to rows.
--     Decode (decode.ts: allInstructions; Decode/Logs: failures, logs and balances; Decode/Bodies:
--     fromInstruction, fromEvent, authorityFacts; Decode/Transaction: decodeTransaction), Store
--     (store.ts: upsertAllowance, markClosed, the feed and the cursor; Store/Rows: the rows of one
--     transaction; Store/Write: write, refresh, backfillReasons), Reader (subscribe.ts:
--     createTransactionReader, RecentSignatures, reconnectDelayMs), Stream (subscribe.ts: handle and
--     catchUp of runIndexer), Poll (poll.ts: collect, addressesOf and pollWallet of runWalletPoller,
--     advance and synced of createWalletBook), Retention (retention.ts: runRetention), Notify
--     (notify.ts: upcomingLeadMs and the claims; Notify/Refusals: refusals; Notify/Charges:
--     dueFromCache and upcoming; Notify/Deliver: deliver and pass, with what
--     packages/push/src/send.ts makes of an answer; Notify/Runs: run).
-- How they meet: Indexer.Decode reads events by Chain.Events, Indexer.Store stores what Chain.Read
-- answers about one permission and classifies refusals by Shared.Reasons; Indexer.Stream and
-- Indexer.Poll bring it the transactions that Indexer.Reader reads, Indexer.Retention removes the
-- old rows of its feed and Indexer.Notify tells browsers of the others. Chain.Subscribe builds on
-- a plan that Chain.Plan read, and shares the guards on the authority with Chain.Grant. Api.Card
-- joins a stored permission with a read one; Api.Feed serves, page by page, the rows that
-- Indexer.Store keeps, and Api.Hub tells open streams of new ones. The other files hold theorems;
-- Tests hold runs.
--
-- How the code is written down:
--   A moment is a number of milliseconds since 1970, `null` is none; a moment of the program is a
--   signed number of seconds, as are `charges_stop_at` of the feed's rows. An amount is a natural
--   number and stands for its decimal spelling without leading zeros; where text is compared or
--   parsed, it is text. Bytes are lists of numbers.
--   State is passed and returned: the windows of the rate limit, the log of nonces, the tables of
--   the database. A map is an association list; a thrown error is the left side of a Result.
--   A transaction of the database is one function from tables to tables, as Postgres runs it; where a
--   row cannot be made or the feed's table refuses one, a write changes nothing.
--   What is read from the network comes in as records of functions: AllowanceReader for the RPC
--   and the derivations, Codecs for the decoders of @solana/subscriptions, Kit for @solana/kit's
--   codecs of single fields, of two things in a row and of an array, Sdk for the SDK's parser,
--   base58 and the check of addresses, `send` for web-push, which may throw. Nothing is assumed of
--   them but what a theorem's hypotheses say. Where the live stream awaits a row, the hub may change before it sends.
--
-- Bounds: printing a number takes fuel, one more than the number, since each digit divides it by
-- ten; batches are cut with the number of items as fuel, since each batch takes one at least;
-- the read that waits for a lagging node counts its attempts down; following the cursors of a feed
-- takes the number of pages as fuel; the deletions of retention take the number of rows and one as
-- fuel, since each but the last removes a row at least; pages of signatures and attempts to fetch a
-- transaction are counted down from the constants of the code: as in the code, ten thousand
--   signatures are read of one history, and the oldest part of a longer gap is left out.
--
-- Not modelled: HTTP handlers and their wiring, log lines, the web pages and the state behind them,
-- the landing page, the merchant simulator, migrations, the signing of tokens, the encryption and
-- sending of notices, the queue of notices in the live stream, and of the indexer the loops around
-- what is modelled: reconnection, the watchdog, the sweep's timer, the rounds of the poller.
pub mod Common
pub mod Shared
pub mod Chain
pub mod Api
pub mod Indexer
