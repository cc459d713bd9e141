-- ===== src/Lib.antt =====
-- hansa: a model of the federation library crates/hansa, and what is proved of it.
--
-- The parts. A hansa is a set of tenants who share part of what they remember. Who belongs to it is
-- written in a log of signed links (crates/hansa/src/chain.rs), each of which names the hash of the
-- one before it and is signed by the hansa's skipper (sign.rs, key.rs). The log starts with a
-- genesis (genesis.rs) or with a checkpoint, and `replay` folds it into the set of active members
-- (member.rs). A registry (registry.rs) keeps one such log for each hansa: it founds, appends,
-- collapses a long log into one checkpoint, and lists the members. `migrate_v1` (migrate.rs) founds
-- such a log from the members of an older, unsigned one. A hybrid registry (hybrid_registry.rs)
-- adds to the listing what remote peers list. The handle `Hansa` (hansa.rs) is what a program
-- holds. A returning member keeps the last head it saw in a head cache (head_cache.rs) and refuses
-- a log that has gone back. A membrane query (membrane/) asks the members for records, within a
-- budget that `proportional_allocation` shares out, best first by the score of their sagas (saga/)
-- and by how useful they were (manifest.rs). A bundle cache (cache.rs) answers a query that is
-- close to an earlier one. A context builder (context.rs) turns the hits of a query into a text for a
-- prompt, without duplicates and within a budget. Keystores (keystore.rs) hold a hansa's secret.
--
-- File by file (the sources are below crates/hansa/src/):
--   Prelude     names and lemmas that the rest shares: numbers, lists, byte strings, sorting, maps
--   Error       error.rs and `Result`, with `?` as the bind of a do block
--   Panics      code that can panic, as an option
--   Exec        a store passed through operations that can fail
--   Sign        sign.rs: `framed`, `Skipper::sign`, `SkipperPub::verify`; key.rs: `from_skipper`;
--               Sign.Canonical is `canonical::Writer`
--   Member      member.rs: `MemberRecord::canonical`
--   Genesis     genesis.rs: `found`, `canonical`, `verify`, `verify_for`
--   Chain       chain.rs: `Body`, `Link`, `replay`. The match on the first link is `root`, a round
--               of the loop is `step`, the loop is `replay_links` and the tail is `finish`
--   Registry    registry.rs: the trait is the record `Registry`; Registry.File is `FileRegistry`
--   Hex         the hex text of sign.rs, chain.rs, member.rs, key.rs and hybrid_registry.rs
--   HeadCache   head_cache.rs: `load`, `store`, `check_and_record`
--   Floats      the floats of the source, as a parameter
--   Manifest    manifest.rs: `PeerManifest` and `ManifestStore`
--   Saga        saga/mod.rs: `Saga`; Saga.Score is saga/score.rs; of saga/build.rs Saga.KMeans is
--               `kmeans_lloyd` and Saga.Build the rest
--   Membrane    membrane/: Membrane.Allocation is `proportional_allocation`; Membrane.Query is
--               query.rs with `TokenBudget`. `execute_with_stats` past its local query is `fan_out`,
--               whose scoring, in Membrane.Scoring, can panic, and past that `ask_peers`;
--               its receiving loop is `receive`, which reads a schedule of reports; Membrane.Async is
--               async_query.rs, its loop over the handles `collect`
--   Cache       cache.rs: `BundleCache`
--   Migrate     migrate.rs: `read_v1_members`, `migrate_v1`
--   Hybrid      hybrid_registry.rs: the remotes and `members`
--   Text        Rust's strings, as lists of chars
--   Context     context.rs: Context.Bundle has its types, Context.Filter phase 1 of
--               `ContextBuilder::build`, Context phases 2 and 3, Context.Sentences the sentence pass
--               and Context.Render the renderers
--   Keystore    keystore.rs, with a child for each keystore, and the key of key.rs
--   Background  background.rs: the loop of the refresh thread; a round of it is `wake`
--   Handle      hansa.rs: `admit`, `revoke`, `compact` and what `leave` revokes; Handle.Open is `open`,
--               Handle.Query `query` and `record_useful_hits`, and Handle.Join `join`, `leave` and
--               `refresh_saga` with the saga files
--   Tests       concrete inputs
--
-- The parameters. ed25519 and BLAKE3 are the record `Crypto`; of their laws the theorems use only
-- that a signature verifies under its own key (`IsSound`). BLAKE3 is not taken to be injective:
-- what depends on it says that otherwise there is a collision. `f32` and `f64` are the record
-- `Floats`; the laws of its order that a theorem needs are `IsOrdered`. The tenants that a query
-- asks are functions in the record `MembraneQuery`.
--
-- The Unicode table of lower case and the hash of context keys are the record `Externals`; a tokenizer
-- and a ranker are functions. The generator of `rand` is the record `Rng`, with what is documented of
-- its draws in `IsDrawing`.
--
-- The numbers. All are native naturals. `u32` and `u64` fields are below their bounds where a
-- theorem needs it (the `IsSized` records); `seq + 1` and the sums of token counts wrap at 2^64 as in a
-- release build, in which debug assertions do not run; an `i64`
-- time is given by the 64 bits of its two's complement, which is all that the canonical encoding
-- reads. The trimming loop of the allocation runs on fuel: the amount that is spent, plus the
-- number of slots, plus one, and each round spends less or drops a slot, so the fuel is never used
-- up. The loop of k-means++ runs once for each centroid that is missing, and Lloyd's as often as the
-- source allows. The decimal digits of a number are made on as much fuel as the number, plus one.
--
-- Not modelled: serde and the JSON of the log, file paths, file locks (each operation of the
-- registry is one step), I/O errors, the generation of keys, the network; the BPE tokenizer of
-- tiktoken.rs, which calls another crate; of hybrid_registry.rs `pull_sagas_into`, which downloads
-- files; of hansa.rs `snapshot` and `destroy`; and the command line (crates/hansa-cli), which parses
-- arguments and prints.
pub mod Prelude
pub mod Error
pub mod Panics
pub mod Exec
pub mod Floats
pub mod Sign
pub mod Member
pub mod Genesis
pub mod Chain
pub mod Registry
pub mod Hex
pub mod HeadCache
pub mod Manifest
pub mod Saga
pub mod Membrane
pub mod Cache
pub mod Migrate
pub mod Hybrid
pub mod Handle
pub mod Text
pub mod Context
pub mod Keystore
pub mod Background
pub mod Tests
