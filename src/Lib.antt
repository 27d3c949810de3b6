-- ===== src/Lib.antt =====
-- Rivisk reads the DeFi positions of a Stacks wallet through protocol adapters, values them, computes
-- risk metrics, publishes attestations of the metrics on chain, and tells subscribers of breaches.
--
-- Position models the position that every adapter produces (packages/adapter-core/src/index.ts) and
-- the risk levels of packages/shared-types; Value models values of the static type `unknown`.
--
-- Portfolio models packages/portfolio-engine/src/index.ts: `valuePosition` is `value_position`,
-- `deriveLendingMetrics` is `derive_lending_metrics`, `buildPortfolio` is `build_portfolio`. Its
-- theorems stand in Portfolio/Lending, Portfolio/Valuation and Portfolio/Coverage.
--
-- Risk models packages/risk-engine/src/index.ts: Risk/Exposure has the concentrations and the
-- accessibility, Risk/Score the levels and `calculatePortfolioRisk`, Risk/Stress the scenarios.
-- Risk/Bounds, Risk/Levels, Risk/Shocks and Risk/Scenarios hold the theorems.
--
-- Contracts models the publisher of packages/rivisk-contracts/src/index.ts; Contracts/Rejection says
-- what it refuses. Contracts/Policy is `RiskPolicyReader` of the same
-- file, and Contracts/Report its canonical report.
--
-- Worker models apps/worker/src: Worker/Alerts is alert-evaluator.ts and the loops of main.ts that use
-- it, Worker/Throttle is attestation-throttle.ts, Worker/Attestation the handler of the attestation
-- queue over the table of snapshots, and Worker/Delivery is webhook-delivery.ts with the handler of the
-- webhook queue. Of main.ts, Worker/Risk is the handler of the risk queue with `emit` and with
-- `persistRiskSnapshot` of packages/database, Worker/Report the report that it builds,
-- Worker/Canonical its canonical text (`canonicalJson`, `sha256Canonical`), and Worker/Mail is
-- `sendAlertEmail`. The theorems stand in the module below each.
--
-- Stacks models packages/stacks/src: Stacks/Clarity is clarity.ts, `unwrapClarity` being
-- `unwrap_clarity`; Stacks/Client has the identifiers and the metadata of tokens of index.ts, and
-- Stacks/Client/Balances its balances with their pages. Adapters models packages/adapter-*: Native is
-- adapter-native-stacks, Bitpay is adapter-bitpay, and Zest is adapter-zest-v2, with
-- Zest/Reader for the reader of the contracts, Zest/Position for the adapter and Zest/Contracts for
-- the settings. Storage models the transaction `persistPortfolio` and the failed runs of
-- packages/database/src/index.ts, Storage/Queries its `getCurrentPortfolio`, and
-- Storage/Deliveries its `planDeliveries`.
--
-- Api models services of apps/api/src: Api/Auth is modules/auth/auth.service.ts with the guard of
-- sessions, Api/Keys is modules/api-keys with the guard that accepts sessions and keys, Api/Alerts is
-- the writes of modules/alerts and modules/webhooks, Api/Parser and Api/Chainhook are
-- chainhook.parser.ts and chainhook.service.ts of modules/chainhook with Api/Receiver for
-- chainhook.controller.ts, and Api/RateLimit is common/guards/rate-limit.guard.ts. Api/Portfolios is
-- modules/portfolios with modules/policies, and Api/Simulations is modules/simulations. Indexer is
-- apps/indexer/src/main.ts.
--
-- Realtime is the gateway apps/realtime/src/main.ts, Sdk/Realtime the client
-- packages/sdk/src/realtime.ts, and Realtime/System the two on one socket, as a relation of steps:
-- subscriptions, cancellations, messages read, connections lost and made. Web models apps/web/lib:
-- Web/Session is auth.ts, Web/Requests is api.ts, Web/Policy is policy.ts and Web/Sections is
-- dashboard-sections.ts.
--
-- Webhooks models packages/webhooks/src/index.ts, the server's side, and packages/sdk/src/webhooks.ts,
-- the subscriber's; Webhooks/Secrets has the stored secrets. Sdk/Http is the transport of
-- packages/sdk/src/http.ts with errors.ts, Sdk/Http/Url its URL and its credential, and Sdk/Client the requests and the session of client.ts.
-- Oracle is packages/oracle/src/index.ts, which answers the indexer. Notify is
-- packages/notifications/src/index.ts with the job identifiers of packages/queue/src/index.ts.
--
-- The adapters decode the answers of contracts with Stacks/Clarity; the indexer gives their positions
-- to the portfolio engine, and what it values is what Storage keeps. The risk engine reads the
-- positions that the portfolio engine has valued; the worker stores the risk summary as a snapshot,
-- evaluates the alert rules against it and its predecessor, and publishes it. The parser of a
-- chainhook finds the wallets to index again and the publications that a block confirms. A delivery
-- that the server signs is what the subscriber's verifier reads. The risk worker reads the positions
-- that Storage keeps and stores the hash of the canonical text of its report; the API answers with the
-- same positions. The events of the worker reach the sockets whose client has subscribed. The dashboard
-- writes a policy to a contract, from which the worker and the API read it, and sends the requests that
-- the client library sends.
--
-- Numbers is the interface of decimal.js and of the doubles, which the repository does not hold: a
-- record of operations, and a record of the laws that some theorems take as a hypothesis.
-- Numbers/Scaled satisfies the laws with multiples of 10^-8, and the tests run on it. Numbers that the
-- source keeps in basis points, counts and block heights are integers without a bound; the source
-- holds them in doubles, which are exact up to 2^53.
--
-- Effects (rows written, messages and requests sent) are values of a data type, in their order. What a
-- database, a queue, the network, a contract or a clock answers is an argument; so are the HMAC, the
-- hash, the cipher and the derivation of its key, the expression that finds principals in a text, and
-- the parser of JSON and of a URL. So are `JSON.stringify` on values that hold no others, the order of
-- the keys of an object, `encodeURIComponent`, the test of a principal, and the comparisons of doubles.
-- Tables are lists of rows, and a transaction is one step on them. A command that fails changes nothing,
-- and the models of the risk worker, the mails, the deliveries, the indexer and the logins take as an
-- argument which of them fail; the database of the other models is taken to answer.
-- Api/Auth has the commands of a login one by one as well, and interleaves those of two logins.
--
-- `run_queue` takes what each run of the queue meets, one entry for each run. BullMQ runs a job whose
-- run throws again until it has had the `attempts` of `createQueue`, which are five; as the schedule has
-- four entries, five runs for each attempt up to the fifth are enough. `request_loop` takes a number of attempts; the retries of the policy and
-- two are enough. `all_balances` takes a number of pages; as many as the service chains are enough.
--
-- Not modelled: the React components of the web application with the formatting of numbers that they
-- use, the Clarity contracts, the servers and the sockets themselves, the transport of mails, the
-- remaining reading queries of the database, and logging, configuration and schemas. Most of it is input and output or calls of
-- libraries.
-- Base, Numbers/Scaled and Samples are helpers, and the modules named Tests run the definitions and
-- the theorems on concrete input.
pub mod Base
pub mod Numbers
pub mod Value
pub mod Position
pub mod Samples
pub mod Portfolio
pub mod Risk
pub mod Contracts
pub mod Indexer
pub mod Worker
pub mod Api
pub mod Sdk
pub mod Stacks
pub mod Adapters
pub mod Webhooks
pub mod Storage
pub mod Notify
pub mod Oracle
pub mod Realtime
pub mod Web
