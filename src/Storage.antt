-- ===== src/Storage.antt =====
-- crates/core/src/storage.rs: the rows of the fact table and their keys.
use kronroe.Common.{ℕ, [], ◌∷◌, ◌++◌}
use kronroe.Common.Text.{Text}
use kronroe.FactId.{FactId}
use kronroe.Fact.{Fact}

abbrev pub schema_version : ℕ
schema_version = 2

pub record StoredFactRow : Type 0 where
  pub key : Text
  pub fact : Fact

-- `format!("{subject}:{predicate}:")`
unfoldable pub subject_predicate_prefix : Text → Text → Text
subject_predicate_prefix subject predicate = subject ++ (b':' ∷ (predicate ++ (b':' ∷ [])))

-- `format!("{subject}:{predicate}:{fact_id}")`
unfoldable pub fact_row_key : Text → Text → FactId → Text
fact_row_key subject predicate fact_id = subject ++ (b':' ∷ (predicate ++ (b':' ∷ fact_id.text)))
