-- ===== src/Graph/Embeddings.antt =====
-- crates/core/src/temporal_graph.rs: embeddings beside the facts, and the search by vector.
-- crates/core/src/storage_append_log.rs: the rows that the vector index is rebuilt from.
pub mod Valid
use mathlib.Core.Option
use kronroe.Common.{
  ℕ, Bool, true, false, ◌&&◌, not, Option, none, some, List, [], ◌∷◌, length, is_empty, ◌==◌,
  if◌then◌else◌,
}
use kronroe.Common.Map.{Map}
use kronroe.Common.Text.{Text}
use kronroe.Time.{KronroeTimestamp}
use kronroe.FactId.{FactId, parse}
use kronroe.Fact.{Value, Fact, one_f32, is_currently_valid, was_valid_at}
use kronroe.Error.{Result, ok, err, fail, ErrorKind, ◌>>=◌}
use kronroe.Log.{AppendLogState}
use kronroe.Query.{stored_id}
use kronroe.Backend.{AppendOutcome, write_fact_with_embedding}
use kronroe.Vector.{VectorIndex, new, insert, search, id_eq, Scored, Unordered, differs}
use kronroe.Graph.{TemporalGraph, build_fact, scan_prefix}

-- The embeddings of the state, with their keys read as ids.
unfoldable pub parsed_rows : Map (List ℕ) → Result (List (FactId × List ℕ))
parsed_rows [] = ok []
parsed_rows ((fact_id, embedding) ∷ m) = do
  id ← stored_id (parse fact_id)
  rows ← parsed_rows m
  ok ((id, embedding) ∷ rows)

unfoldable pub embedding_rows : AppendLogState → Result (List (FactId × List ℕ))
unfolding parsed_rows
embedding_rows s = parsed_rows s.embeddings

unfoldable pub insert_rows : VectorIndex → List (FactId × List ℕ) → Result VectorIndex
insert_rows index [] = ok index
insert_rows index ((id, embedding) ∷ rows) = do
  index' ← insert id embedding index
  insert_rows index' rows

unfoldable pub rebuild_vector_index_from_storage : AppendLogState → Result VectorIndex
unfolding embedding_rows insert_rows
rebuild_vector_index_from_storage s = do rows ← embedding_rows s; insert_rows new rows

-- The graph with the index beside it.
pub record Indexed : Type 0 where
  pub graph : TemporalGraph
  pub vector_index : VectorIndex

-- The cache is updated behind a write that succeeded.
cached :
    FactId → List ℕ → TemporalGraph → VectorIndex → Result VectorIndex → Indexed × Result FactId
cached fact_id embedding g index (ok index') =
    (record { graph = g; vector_index = index' }, ok fact_id)
cached fact_id embedding g index (err e) = (record { graph = g; vector_index = index }, err e)

unfoldable pub assert_fact_with_embedding :
    AppendOutcome
    → FactId
    → KronroeTimestamp
    → Text
    → Text
    → Value
    → KronroeTimestamp
    → List ℕ
    → Indexed
    → Option (Indexed × Result FactId)
unfolding cached
assert_fact_with_embedding io id now subject predicate object valid_from embedding x =
    if is_empty embedding
    then some (x, fail ErrorKind.invalid_embedding)
    else elim (build_fact id now subject predicate object valid_from one_f32 none) [
      | err e ↦ some (x, err e)
      | ok fact ↦ elim (write_fact_with_embedding io fact embedding x.graph.storage) [
        | none ↦ none
        | some (b, err e) ↦ some (record x { graph = record x.graph { storage = b } }, err e)
        | some (b, ok u) ↦ some (
            cached fact.id embedding (record x.graph { storage = b }) x.vector_index
              (insert fact.id embedding x.vector_index))
      ]
    ]

-- The temporal filter of a search.
unfoldable pub passes : Option KronroeTimestamp → Fact → Bool
passes none fact = is_currently_valid fact
passes (some t) fact = was_valid_at fact t

abbrev pub ids_of : List Fact → List FactId
ids_of [] = []
ids_of (f ∷ fs) = f.id ∷ ids_of fs

-- The map by id of the facts: the last of an id stays.
unfoldable pub fact_by_its_id : FactId → List Fact → Option Fact
unfolding id_eq
fact_by_its_id id [] = none
fact_by_its_id id (f ∷ fs) = elim (fact_by_its_id id fs) [
  | some g ↦ some g
  | none ↦ if id_eq f.id id then some f else none
]

unfoldable pub hydrated : List Fact → List Scored → List (Fact × ℕ)
unfolding fact_by_its_id
hydrated facts [] = []
hydrated facts ((id, score) ∷ hits) = elim (fact_by_its_id id facts) [
  | some f ↦ (f, score) ∷ hydrated facts hits
  | none ↦ hydrated facts hits
]

-- `unordered`: what the sort makes of scores with a NaN among them. `none` is a panic of the sort.
unfoldable pub search_by_vector :
    Unordered → List ℕ → ℕ → Option KronroeTimestamp → Indexed → Option (Result (List (Fact × ℕ)))
unfolding passes differs search hydrated
search_by_vector unordered query k at x =
    if differs x.vector_index.dim query
    then some (fail ErrorKind.invalid_embedding)
    else (let matching = scan_prefix [] (passes at) x.graph in
        Option.map (λ (hits : List Scored). ok (hydrated matching hits))
          (search unordered query k (ids_of matching) x.vector_index))
