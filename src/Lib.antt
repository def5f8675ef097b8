-- ===== src/Lib.antt =====
-- Pavis: a reverse proxy whose configuration is compiled, published by a relay and followed by an
-- agent.
--
-- The parts that are modelled, and how they meet. A configuration holds virtual hosts with routes
-- (crates/pavis-core/src/runtime/routing.rs). It is stored in a file with a checksum
-- (crates/pavis-pvs), which the agent in the proxy (crates/pavis/src/agent/fsm.rs) fetches,
-- verifies and applies. Applying compiles the header patterns
-- (crates/pavis/src/regex_validator.rs) and builds the router (crates/pavis/src/router.rs), which
-- chooses the route of each request (crates/pavis/src/router/matcher.rs). A request that fails is
-- tried again as its policy says (crates/pavis/src/retry.rs), and its endpoint is chosen by weight
-- (crates/pavis/src/upstream/load_balance.rs) among those that the cluster holds to be healthy
-- (crates/pavis/src/upstream/cluster). The relay (crates/pavis-relay) keeps each configuration
-- that is published to it on disk, and answers the conditional fetches of the agents. The headers
-- of a request and of its response are changed as the policy of the route says
-- (crates/pavis/src/proxy/header_ops.rs). Predicate trees
-- (crates/pavis-core/src/runtime/matcher.rs) are normalised on the way to a configuration.
--
-- Files and sources:
--   Prelude: names and lemmas on lists, texts (as bytes) and hash maps (as association lists) that
--     the others share.
--   Predicate: crates/pavis-core/src/runtime/matcher.rs. PredicateNode with And, Or and Not as
--     and_of, or_of and not_of; normalize, normalize_and, normalize_or and normalize_not with
--     their seven steps. Semantics, Normal, Reached and Idempotent say what the normal form is.
--   Http and Routing: the types of crates/pavis-core/src/runtime/routing.rs, and RegexLimits of
--     policy.rs beside it.
--   Regex: crates/pavis/src/regex_validator.rs. The regex crate is the record RegexEngine.
--     Coverage is about the cache.
--   Router: with_regex of crates/pavis/src/router.rs, one function per arm of its loop;
--     Router/Matcher, Router/HostPattern, Router/Stats and Router/Dispatch are
--     crates/pavis/src/router/matcher.rs. Router/Spec says what is to be selected, Router/Headers,
--     Zones, Entry, Build and Hosted lead to Router/Selection, which proves it.
--   Agent: Context, State, Event, Effect and tick of crates/pavis/src/agent/fsm.rs, with a
--     function for each of the longer arms; run is drain_effects, and bootstrapped is what
--     bootstrap_from_lkg of agent/driver.rs does to it. Agent/Backoff, Protocol, Invariant,
--     Verified, Quarantine and Resync are about it.
--   Retry: crates/pavis-core/src/runtime/retry.rs and crates/pavis/src/retry.rs, with Retry/Budget
--     for the global budget: try_add is split at its atomic operations, and Step lets the guards
--     take them in any order.
--   LoadBalance: crates/pavis/src/upstream/load_balance.rs, and build_state_parts of
--     crates/pavis/src/upstream/cluster/state.rs. Owner finds the endpoint of a pick, Share counts
--     the picks of a round.
--   Upstream: health.rs and mod.rs of crates/pavis/src/upstream/cluster. Upstream/Health has the
--     statuses of endpoints, with Eligible and Carried about them; Upstream/Cluster has the
--     operations of Cluster as single steps, with the times that each reads as Readings
--     (select_endpoint loads the state after it has left the lock: what another operation does in
--     between is not modelled). Current runs sequences of operations, Chosen and Ejection are
--     about them. Upstream/Pool is pool.rs beside them, as interleaved steps, with Counts and
--     Counted about its counters.
--   Relay: crates/pavis-relay/src. Disk is the files with a fault at each call, where Hoare says
--     what holds when an action is done, failed or crashed; Names and Storage are
--     storage/history.rs, storage/lkg.rs, storage/metadata.rs and state.rs; Runtime and Publish
--     are runtime.rs and publish_with_retry of pipeline/artifact.rs, Start is init_state of
--     app.rs, ETag and Serve are get_config of handlers.rs. Pipeline is pipeline/backoff.rs and
--     pipeline/loop_logic.rs, with its delays.
--   HeaderOps: crates/pavis/src/proxy/header_ops.rs, with the header map as the record HeaderMap.
--     Values says what a policy makes of the values of one name, Steps what one rule does to them,
--     Room that a policy is applied where the map has room, and PerName puts the rules together.
--   Pvs: header.rs, read.rs, write.rs and verify.rs of crates/pavis-pvs/src, with the digest and
--     the archive as the records Digest and Rkyv, and a file as what its reads return.
--
-- Numbers are unbounded where the source cannot reach its bounds (indices, lengths), and wrap or
-- saturate as in a release build where it can: the costs of predicates, the counters of the
-- statistics, the attempts of a request, of the agent and of a publication, delays, the budget.
-- Instants are milliseconds, the delays of the pipeline nanoseconds. All loops are structural on a
-- list but two: publish_with_retry, whose fuel max_attempts + 1 is proved to be enough where
-- max_attempts is below the largest u32, and the printing of a number in decimal, whose fuel is
-- the number. A wait of get_config is given by its turns, and the wakes and the snapshots in them
-- are arbitrary.
--
-- Assumed of other code, as hypotheses or parameters: which patterns compile and match (regex),
-- that a digest of pieces is that of the whole and has 32 bytes (sha2), that an archive is read
-- back (rkyv), the lookup of a header and the changes and the bound of a header map (http), a
-- random number in its range (rand), the place that a binary search returns, that JSON is read
-- back (serde_json), that a file is renamed as a whole and a write stays after a crash (the file
-- system), and the text of a header value (http). Not modelled: messages of errors and logging,
-- the fields of a route that routing does not read, and the parts of the repository around these:
-- proxying itself, probes of endpoints, name resolution, the codec that the pipeline calls and the
-- other handlers of the relay, the codec of configuration files, telemetry and tools.
pub mod Agent
pub mod HeaderOps
pub mod Http
pub mod LoadBalance
pub mod Predicate
pub mod Prelude
pub mod Pvs
pub mod Regex
pub mod Relay
pub mod Retry
pub mod Router
pub mod Routing
pub mod Upstream
