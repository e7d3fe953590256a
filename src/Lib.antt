-- ===== src/Lib.antt =====
-- The reputation oracle of Sigvara (oracle/, JavaScript), the program that turns verified payments
-- into the scores it proposes on chain: a model of its modules, with theorems about them.
--
-- Parts, and how they interact. The payment scan (PaymentScan, oracle/payment-scan.js) reads
-- transfers in spans of blocks, halving spans that a node refuses (LogSpans,
-- oracle/log-spans.js), and plans the payments to credit. The store (Store, oracle/store.js)
-- keeps each agent's credited payments and the outcomes that payers report, and pages the latter
-- by the time of acceptance. The payment arithmetic (Payments, oracle/payments.js) weighs the
-- stored events by age, groups them by payer and caps each payer; scoring (Scoring,
-- oracle/scoring.js, with Scoring/Caps for oracle/score-caps.js) makes the six factors of a
-- score of it. The commitments (Merkle, oracle/merkle.js) put a root over the evidence and prove
-- single events. The epoch policy (EpochPolicy, oracle/epoch-policy.js) decides what an epoch
-- does about a pending proposal. Jobs (Jobs, oracle/jobs.js) gives the evidence of settled jobs.
-- Around these: the watcher's policy (WatcherPolicy, oracle/watcher-policy.js) on a checker's
-- divergences, the keeper that executes slashes (Keeper, oracle/keeper.js), the event index
-- (EventIndex, oracle/event-index.js), the response cache (ResponseCache,
-- oracle/response-cache.js), the rate limit (RateLimit, in oracle/http-helpers.js), callers and
-- scopes (Access, there too) and the signer's authentication (SignerAuth,
-- oracle/signer-auth.js). PaymentCheck is the verification of a payment in oracle/payments.js,
-- Upkeep the flags, cooldowns, divergences and pruning of oracle/store.js, Reviewers whose
-- feedback counts (oracle/reviewers.js), and LinkClaims the claims of external agents
-- (oracle/link-claims.js). PaymentChains (oracle/payment-chains.js) says when payments on other
-- chains count and up to which time all evidence is known, PayerOutcome
-- (oracle/payer-outcome.js) which signed outcomes are taken, ReadRetry (oracle/read-retry.js)
-- how reads are repeated, and PublisherPolicy (oracle/publisher-policy.js) which feedback is
-- posted and revoked. External (oracle/external.js) reads an agent's feedback in the registry of
-- ERC-8004. EvidenceAsOf (oracle/evidence-as-of.js) finds the evidence that a proposal was made
-- of. EpochRun (oracle/index.js) is what an epoch does with each agent, from the hold of an
-- epoch whose scans are behind to the proposal of a score; what is read and sent at an agent's
-- turn is a record of answers, and what the epoch does is a list of effects. ScanRun (the same
-- file) is a run of the payment scan over the store, and LinkScan (oracle/link-scan.js) the scan
-- for claims of external agents. Store/Ledger is the abstract view of the store, a ledger per
-- agent, and Store/Steps the calls that write its payments, pruning among them. Event is the
-- record of a payment that Store and Payments share.
--
-- Correspondence. Each function of the source is a definition of the same words in lower case
-- with underscores (`creditPayment` is `credit_payment`), as the comment above it says where the
-- name differs. Module variables and closures are records, passed and returned. `null` and
-- absent values are `none`. A `Map` is an association list in insertion order (Prelude/Dict), a
-- `Set` of keys a list of them. Strings are lists of code units, and lower-casing is that of
-- ASCII, in which addresses, hashes and hex are written. Numbers are naturals: amounts are
-- BigInts in the source, and times, blocks and counts are non-negative there; where the source
-- subtracts below zero the definition's comment says what it does. Scores are exact ratios where
-- the source divides floating-point numbers. Prelude/Decimal prints and reads decimal digits.
-- Prelude/Search is the binary search and Prelude/Spans the loop over spans of blocks that
-- several modules share.
--
-- Parameters. The hash and the concatenation of hex strings of the ethers package (`Ethers` in
-- Merkle), the half-life power in floating point (`HalfLife` in Payments, at most one), the
-- length of a text in bytes (ResponseCache), the authentication code (SignerAuth), and what the
-- chain and the node answer (`Chain` in Keeper, `Options` in PaymentScan, `Ethers` and the reads
-- in PaymentCheck, `Deps` in Reviewers, the reads of LogSpans and ReadRetry, `Ethers` and the
-- answers of the node in PayerOutcome).
--
-- Fuel. `climb` takes a step for each leaf, as every layer is shorter than the one below;
-- `first_passing` a step for each index of its range; `spans` and the keeper's `scan` a step for
-- each block, chunks being of a block or more; `slices` a step for each item; `read_splitting` a
-- step for each block of the span after its first; `cuts_from` one for each minute of the audit
-- window; `retry` one for each try after the first; `read_span` one for each block of a chunk,
-- and the link scan one for each block. The theorems about them ask for that much or state the
-- result of the call that gives it. Decimal numerals have at most sixteen digits.
--
-- Not modelled: HTTP wiring, calls of contracts, signing and transport, logs and metrics, the
-- texts of messages, configuration read from the environment, and files on disk. Of the
-- commitments, the quick encoding of a leaf and the caches; of the event index, how logs are
-- appended and normalized; of the reviewers, their clusters; and of oracle/external.js, the
-- ratings, which are floating-point numbers, and the reading of logs. Of oracle/index.js, the
-- start-up, the HTTP handlers, the admission of signed outcomes and their import.
pub mod Prelude
pub mod Event
pub mod Merkle
pub mod Scoring
pub mod Payments
pub mod Store
pub mod EpochPolicy
pub mod EventIndex
pub mod ResponseCache
pub mod LogSpans
pub mod RateLimit
pub mod SignerAuth
pub mod Jobs
pub mod WatcherPolicy
pub mod PaymentScan
pub mod Keeper
pub mod LinkClaims
pub mod Reviewers
pub mod External
pub mod EvidenceAsOf
pub mod PayerOutcome
pub mod LinkScan
pub mod PaymentCheck
pub mod PublisherPolicy
pub mod Access
pub mod PaymentChains
pub mod Upkeep
pub mod ReadRetry
pub mod ScanRun
pub mod EpochRun
