-- ===== src/Examples/Vectors.antt =====
-- Runs of the theorems on the vector index: two embeddings are put in, ranked and removed.
use mathlib.Core.List.{Perm}
use kronroe.Common.{
  map, ◌++◌, ℕ, ◌≡◌, ◌≤◌, refl, Bool, true, false, Option, none, some, List, [], ◌∷◌, take, length,
  All, ◌==◌, if◌then◌else◌,
}
use kronroe.Error.{ok}
use kronroe.FactId.{FactId}
use kronroe.Fact.{Fact, one_f32}
use kronroe.Float.{f32, abs}
use kronroe.Vector.{
  Entry, Unordered, VectorIndex, new, insert, remove, id_eq, put_entry, l2_norm, cosine_similarity,
  scored, search,
}
use kronroe.Vector.Invariant.{Inv, embedding_of, new-Inv, insert-Inv}
use kronroe.Vector.Cosine.{norm}
use kronroe.Vector.Sorted.{Descending, ranked_by}
use kronroe.Vector.Ranking.{Among, AreNumbers, search_ranked}
use kronroe.Vector.Removal.{remove-Inv}
use kronroe.Graph.Embeddings.{Indexed, passes, search_by_vector}
use kronroe.Graph.Embeddings.Valid.{search_by_vector_valid}
use kronroe.Examples.{first_id, second_id, acme, graph, at_second}

abbrev half : ℕ
half = 1056964608

abbrev first_only : VectorIndex
first_only = record {
  entries = record { id = first_id; embedding = one_f32 ∷ 0 ∷ [] } ∷ [];
  dim = some 2;
}

abbrev both : VectorIndex
both = record first_only {
  entries =
      record { id = first_id; embedding = one_f32 ∷ 0 ∷ [] }
      ∷ record { id = second_id; embedding = half ∷ half ∷ [] }
      ∷ [];
}

abbrev query : List ℕ
query = one_f32 ∷ half ∷ []

first_inserted : insert first_id (one_f32 ∷ 0 ∷ []) new ≡ ok first_only
unfolding insert put_entry
first_inserted = refl

second_inserted : insert second_id (half ∷ half ∷ []) first_only ≡ ok both
unfolding insert put_entry id_eq
second_inserted = refl

first_only-Inv : Inv first_only
first_only-Inv = (insert-Inv first_id (one_f32 ∷ 0 ∷ []) new first_only new-Inv first_inserted).0

insert-Inv_example :
    Inv both
    × ((j : FactId)
        → embedding_of j both.entries ≡ (
            if id_eq second_id j
            then some (half ∷ half ∷ [])
            else embedding_of j first_only.entries))
insert-Inv_example =
    insert-Inv second_id (half ∷ half ∷ []) first_only both first_only-Inv second_inserted

both-Inv : Inv both
both-Inv =
    (insert-Inv second_id (half ∷ half ∷ []) first_only both first_only-Inv second_inserted).0

remove-Inv_example :
    Inv (remove first_id both)
    × ((j : FactId)
        → embedding_of j (remove first_id both).entries
          ≡ (if id_eq first_id j then none else embedding_of j both.entries))
remove-Inv_example = remove-Inv first_id both both-Inv

long_enough : (abs f32 (norm query) == 0) ≡ false
unfolding l2_norm abs kronroe.Float.is_nan kronroe.Float.sub kronroe.Float.with_sign
    kronroe.Float.is_negative kronroe.Float.is_finite kronroe.Float.Decimal.nearest_ratio
    kronroe.Float.units kronroe.Float.signed_difference
long_enough = refl

-- A sort that panics where scores do not compare.
abbrev panics : Unordered
panics xs = none

numbers : AreNumbers query (first_id ∷ second_id ∷ []) both.entries
unfolding kronroe.Float.is_nan abs kronroe.Float.Arithmetic.sqrt kronroe.Float.Arithmetic.add
    kronroe.Float.sub kronroe.Float.with_sign kronroe.Float.is_negative kronroe.Float.Arithmetic.mul
    kronroe.Float.is_finite kronroe.Float.Decimal.nearest_ratio kronroe.Float.units
    kronroe.Float.signed_difference kronroe.Float.Arithmetic.div
numbers = (λ m. refl, (λ m. refl, tt))

search_ranked_example :
    (ranked : List Entry) × (left : List Entry) × Perm (ranked ++ left) both.entries
    × All (λ (e : Entry). Among e.id (first_id ∷ second_id ∷ [])) ranked
    × All (λ (e : Entry). Among e.id (first_id ∷ second_id ∷ []) → ⊥) left
    × Descending (map (ranked_by query) ranked)
    × (search panics query 1 (first_id ∷ second_id ∷ []) both
        ≡ some (take 1 (map (ranked_by query) ranked)))
search_ranked_example =
    search_ranked panics query 1 (first_id ∷ second_id ∷ []) both long_enough numbers

abbrev indexed : Indexed
indexed = record { graph = graph; vector_index = both }

length_of_query : l2_norm query ≡ 1066343357
unfolding l2_norm abs kronroe.Float.is_nan kronroe.Float.sub kronroe.Float.with_sign
    kronroe.Float.is_negative kronroe.Float.is_finite kronroe.Float.Decimal.nearest_ratio
    kronroe.Float.units kronroe.Float.signed_difference
length_of_query = refl

similar : cosine_similarity query (one_f32 ∷ 0 ∷ []) (l2_norm query) ≡ 1063581998
unfolding cosine_similarity l2_norm abs kronroe.Float.is_nan kronroe.Float.sub
    kronroe.Float.with_sign kronroe.Float.is_negative kronroe.Float.is_finite
    kronroe.Float.Decimal.nearest_ratio kronroe.Float.units kronroe.Float.signed_difference
similar = refl

found :
    search_by_vector panics query 1 (some (at_second 15)) indexed
    ≡ some (ok ((acme, 1063581998) ∷ []))
unfolding search_by_vector kronroe.Graph.scan_prefix kronroe.Query.facts_of kronroe.Query.scan_facts
    kronroe.Common.Map.get kronroe.Examples.loaded kronroe.Log.apply_record
    kronroe.Log.insert_into_chain kronroe.Log.Versions.insertion_index
    kronroe.Log.KeySets.index_insert kronroe.Common.Map.insert
    kronroe.Storage.subject_predicate_prefix kronroe.Query.rows_under
    kronroe.Common.Text.starts_with kronroe.Fact.was_valid_at kronroe.Float.sub
    kronroe.Float.with_sign kronroe.Float.is_finite kronroe.Common.Map.remove
    kronroe.Common.Set.insert kronroe.Common.Text.text_eq kronroe.Common.Text.text_lt
    kronroe.Examples.state_or_default kronroe.Fact.is_currently_valid
    kronroe.Float.Decimal.nearest_ratio abs kronroe.Float.is_nan kronroe.Float.is_negative
    kronroe.Float.lt kronroe.Float.signed_difference kronroe.Float.units
    kronroe.Log.KeySets.index_remove kronroe.Log.Versions.insert_at l2_norm id_eq search scored
    passes
found = refl

abbrev results : List (Fact × ℕ)
results = (acme, 1063581998) ∷ []

search_by_vector_valid_example :
    All (λ (r : Fact × ℕ). passes (some (at_second 15)) r.0 ≡ true) results × (length results ≤ 1)
search_by_vector_valid_example =
    search_by_vector_valid panics query 1 (some (at_second 15)) indexed results found
