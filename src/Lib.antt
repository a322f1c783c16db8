-- ===== src/Lib.antt =====
-- Kronroe, an embedded bi-temporal graph database in Rust: a verification of the core crate,
-- crates/core/src.
--
-- The parts and how they interact. A fact (temporal_graph.rs) is a subject, a predicate and a value
-- with a valid-time window, a transaction-time window and a confidence; it carries an id that a
-- generator makes of a clock and random bits (fact_id.rs). `TemporalGraph` stores facts through the
-- storage facade (storage.rs) in the append-log backend (storage_append_log.rs), which appends a
-- record to a file, applies it to the state in memory, and answers reads from indexes that are
-- derived from the records. A checked assertion gives the stored active facts to the contradiction
-- detector (contradiction.rs) before it writes. Errors carry codes and causes (error.rs). A record
-- is one line of JSON in the file (json_write.rs), with times as RFC 3339 texts (kronroe_time.rs);
-- opening a file parses its lines (json_read.rs) and applies their records. Embeddings are kept in
-- a flat index beside the graph (vector.rs), which is rebuilt from the state, and half lives of
-- predicates and weights of sources in registries (uncertainty.rs).
--
-- Which file models what:
--   Common       booleans, lists, integers, texts as UTF-8 bytes, ordered maps and sets; what the
--                code uses of the library of Rust on texts: `split`, `parse` of integers, UTF-8
--   Float        `f32` and `f64` as IEEE bit patterns, with exact comparison and subtraction,
--                `parse::<f64>` to the nearest number and `Display` as the shortest decimal
--   Time         crates/core/src/kronroe_time.rs: timestamps and spans in
--                microseconds, `days_from_civil`, `civil_from_days`; Time/Rfc3339 the texts of
--                RFC 3339, `parse_rfc3339_timestamp` and `format_rfc3339_z`
--   Json         crates/core/src/json_read.rs: `JsonValue` and its parser (Json/Scan,
--                Json/Parse); crates/core/src/json_write.rs: Json/Write
--   FactId       crates/core/src/fact_id.rs: `encode_text`, `parse`, `from_parts`, `next_parts`
--   Fact         crates/core/src/temporal_graph.rs: `Value`, `Fact` and its builders;
--                Fact/Json `write_json` and `from_json` of both
--   Contradiction crates/core/src/contradiction.rs: detection, severity, the detector
--   Error        crates/core/src/error.rs: kinds, codes, `context`, `cause`
--   Storage      crates/core/src/storage.rs: rows and keys
--   Log          crates/core/src/storage_append_log.rs: `AppendLogRecord`, `AppendLogState`,
--                `apply_record`; Log/Json `write_json` and `from_json` of a record;
--                Log/Load `load_state_from_path`
--   Query        crates/core/src/storage_append_log.rs: the reads of `AppendLogBackend`
--   Backend      crates/core/src/storage_append_log.rs: the writes of `AppendLogBackend`,
--                and `compact`
--   Graph        crates/core/src/temporal_graph.rs: the operations of `TemporalGraph`
--   Vector       crates/core/src/vector.rs: `VectorIndex`; Graph/Embeddings its use by the graph
--   Uncertainty  crates/core/src/uncertainty.rs: registries, their texts, `age_decay`;
--                Graph/Weighed the operations of the graph on them
--   Lexical      crates/core/src/lexical.rs: `is_edit_distance_le_one`
--   Examples     runs of the theorems on concrete data
--
-- Correspondence. Functions have the names of the source. An `i64` is an integer with the saturating
-- and truncating operations written out; bytes, sequence numbers and bit patterns are natural numbers
-- with their bounds as hypotheses or reductions. A `BTreeMap` is an association list that is kept in
-- the order of its keys. State is passed explicitly; `none` in place of a reply is a panic of the
-- source (`expect`). The mutex of the backend makes each operation one step, so an operation is a
-- function of the state before it. What the outside decides is an argument: the id and the clock
-- reading of a new fact, the readings of the generator's clock, and how each append to the file ends:
-- written, failed with nothing written, or written with a sync that reports failure. A backend holds
-- its file as the list of its whole records; Log/Load reads a file of bytes, and a record that is
-- written in part is bytes behind the whole lines. A poisoned lock is not modelled. A call of the
-- JSON parser returns a value, returns an error or panics, where the source slices a text inside of a
-- character.
--
-- Bounds and fuel. The loop of `next_parts` has fuel two: its second round finds the clock past the
-- last millisecond. The widths of `Float` bound the bits of a rounded difference. The JSON parser
-- has fuel `3 * length + 1`: each descent into a value and each round of a loop costs one, and a
-- round consumes a byte at least. `Display` of a float searches up to 17 digits. All other
-- recursion is structural. `partition_point` is the length of the prefix that passes the test,
-- which is what its binary search finds in an ordered chain.
--
-- Left open by the source, and chosen or passed in here: the sort of a vector search has its result
-- for scores with a NaN among them as a parameter; the names of `singleton_predicates` and the groups
-- of `detect_all_contradictions` come out of a hash map in any order, here by key and by first fact.
--
-- Not modelled: the text of error messages; file locks and paths; full-text search but its test for
-- one typing error, hybrid search; the storage observer; the crates around the core one.
pub mod Backend
pub mod Common
pub mod Contradiction
pub mod Error
pub mod Examples
pub mod Fact
pub mod FactId
pub mod Float
pub mod Graph
pub mod Json
pub mod Lexical
pub mod Log
pub mod Query
pub mod Storage
pub mod Time
pub mod Uncertainty
pub mod Vector
