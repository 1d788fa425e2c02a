-- ===== src/Lib.antt =====
-- cvms watches validators of Cosmos chains: exporters turn queries into gauges, and indexers read a
-- chain block by block, store rows in PostgreSQL, and keep one index pointer per chain and index.
-- This library models the indexers, of which the vote indexer is the first, the node API that they
-- read, and the uptime exporter.
--
-- Base        shared names, Boolean tests, lists, Go maps as association lists, results and actions
--             (ok, an error, or a panic), and postconditions of actions.
-- Indexer     what the indexers share, as internal/packages/consensus/voteindexer writes it.
--   Types       Indexer (internal/common/indexer.go) and the types of internal/common/types.
--   Tables      the database as a parameter: what can be seen of it, its statements, the laws of SQL
--               and of bun's RunInTx that the code relies on. Tables/Insert is the insert of a batch
--               with its index pointer (repository/repository.go).
--   Fetch       the window of a batch, the goroutines that fetch its blocks, and the loop that
--               collects their messages (indexer/batch_sync.go, batchSync). Fetch/Honest is about a
--               node that answers for one chain if it answers, Fetch/Answers about one that does answer.
--   Validators  the ids of new validators (batchSync, FetchValidatorInfoList).
--   Infos       MakeValidatorInfoList (internal/common/function/function.go): the retries for addresses
--               that the first answer does not have.
--   Monikers    solo mode: the filter of the rows by the configured monikers.
--   Calm        what these steps leave alone.
--   Start       Start and InitChainInfoID of indexer/indexer.go, up to the goroutines.
--   Loop        Loop of indexer/indexer.go: health check, batch, index point. Loop/Invariant is the
--               induction over its turns.
--   Batch       batchSync, for a scheme that makes rows from neighbouring blocks. Batch/Rows, Exact and
--               Once prove, for any scheme that implements what its chain ought to store, what the rows
--               of a batch, one batch, and the loop leave in the table; Total and Advances prove that a
--               batch and a turn get there when node, ids and database let them.
-- Vote        the vote indexer: Votes (makeValidatorVoteList), Sync (its scheme), Rows (what a block
--             ought to store), Once (its Loop), Total (when it returns).
-- Extension   the vote-extension indexer (internal/packages/consensus/veindexer) likewise, and Codec
--             (internal/helper/sdk/vote_extension_codec.go) with the packages that it calls as a
--             parameter.
-- LightClient the BTC light client indexer (internal/packages/babylon/btc-lightclient): Events (the
--             filter of a block's events, with Events/Last its specification) and Rolls (the row of an
--             insert event).
-- FinalityProvider
--             the finality-provider indexer (internal/packages/babylon/finality-provider): Votes (what
--             one height fetches, and its rows), Status (who counts as voted), Sync (batchSync), Waits
--             (the window, and a height whose votes are not there yet).
-- Covenant    the covenant-committee indexer (internal/packages/babylon/covenant-committee): Events (the
--             events of a block and their parser), Rows (what a height's goroutine makes of them),
--             Heights (its retry loops), Channels (the select loop over the two channels), Insert (the
--             statement that runs outside the transaction it stands in), Committee (the members and
--             their ids), Sync (batchSync). Heights/Returns, Insert/Survives and
--             Sync/Stores hold the proofs.
-- Checkpoint  the checkpoint indexer (internal/packages/babylon/checkpoint): Votes (parser.go and the rows
--             of an epoch), Sync (batchSync), with Sync/Epochs on the choice of the epoch and Sync/Stores
--             on what an epoch stores.
-- Amplifier   the amplifier-verifier indexer (internal/packages/axelar/amplifier-verifier): Statuses, Polls
--             and Contracts (the polls and votes of a block, SetFieldByTag of internal/helper/reflect.go,
--             and the chain's contracts), Tables (its two writes, with Tables/Again and Tables/Expiry),
--             Sync (batchSync, with Sync/Batch and Sync/Points).
-- NodeApi     the node over HTTP: Parser (internal/common/parser/cosmos.go) and Calls
--             (internal/common/api/api.go). Parser/Versions compares the shapes of the nodes' answers;
--             Calls/Pages is about paging, and Calls/Chains about such a node under the indexers' fetch.
-- Uptime      the uptime exporter (internal/packages/consensus/uptime): the parsers it calls, Statuses
--             (api/uptime.go), Api (api/api.go and the router). The proofs are in Statuses/Collected, Slices,
--             Reads, Exact, Keys and Untokened.
-- Health      the filter of endpoints by a probe (internal/helper/healthcheck), with what it returns in
--             Health/Probes.
-- Retention   ParseRetentionPeriod (internal/helper/db/retention_period.go) on bytes, with what each unit
--             comes to in Retention/Units.
-- Examples    a database in memory, a small chain, runs, and the theorems at concrete inputs.
--
-- Parameters: the node (as the two calls of an indexer; in NodeApi, Uptime and Health as the HTTP
-- answers themselves), encoding/json, strconv, base64, bech32 and the wire codecs as decoders, the
-- database, sort.Slice, the order in which the goroutines' messages arrive, the latest height each time
-- a batch reads it (another goroutine writes it), and, in the batches, MakeValidatorInfoList, which
-- Infos models on its own. A panic of the main goroutine ends the run; one that is recovered in a
-- fetching goroutine sends no message. Heights, epochs, ids, tokens and times are natural numbers, and a
-- float64 is an element of a type that is a parameter. Error messages are the source's with their format
-- verbs left in. The vote indexer drops the transactions of a block, which it never reads; the model
-- keeps them in the summary.
-- The loop of an indexer does not end: the model runs any finite list of turns, so no fuel is needed.
-- The retry loops of Covenant/Heights have no bound in the source and run on fuel: each
-- attempt takes one, so that a node that answers by some attempt needs as much.
-- GetValidators reads five pages at most.
--
-- Not modelled: internal/helper/onchain_status.go, metrics, logs and sleeps, the other exporters and
-- the collectors around them, the JSON decoding itself, SQL beyond the statements that the indexers
-- make, configuration, the fetch and insert of the light client indexer, and the btc-delegations and
-- block-data-analytics indexers.
pub mod Base
pub mod Indexer
pub mod Vote
pub mod Extension
pub mod LightClient
pub mod FinalityProvider
pub mod Covenant
pub mod Checkpoint
pub mod NodeApi
pub mod Amplifier
pub mod Retention
pub mod Examples
pub mod Uptime
pub mod Health
