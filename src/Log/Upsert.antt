-- ===== src/Log/Upsert.antt =====
-- crates/core/src/storage_append_log.rs, `apply_fact_upsert`: one index of `AppendLogState` and
-- the fact table.
use kronroe.Common.{
  Bool, false, ◌&&◌, ◌≡◌, Option, none, some, arith, if◌then◌else◌, inl, inr, Option-cases,
  Bool-cases,
}
use kronroe.Common.Text.{Text, text_eq, text_eq_iff}
use kronroe.Common.Map
use kronroe.Common.Map.{Map, get-insert, get-remove}
use kronroe.Fact.{Fact}
use kronroe.Log.{prefix_of}
use kronroe.Log.KeySets.{
  Index, has, NonEmpty, index_insert, index_remove, has-index_insert, has-index_remove,
  index_insert-NonEmpty, index_remove-NonEmpty,
}

-- Whether a row of the fact table belongs under a prefix of an index.
abbrev pub belongs : (Fact → Bool) → Text → Option Fact → Bool
belongs test p none = false
belongs test p (some fact) = text_eq (prefix_of fact) p && test fact

-- An index has exactly the keys of the rows that belong there, and no empty set.
pub record Indexes (test : Fact → Bool) (facts : Map Fact) (index : Index) : Type 0 where
  pub exact : (p key : Text) → has p key index ≡ belongs test p (Map.get key facts)
  pub non_empty : NonEmpty index

-- The index after the row that a key had is taken out.
abbrev pub without_row : Text → Option Fact → Index → Index
without_row key none index = index
without_row key (some previous) index = index_remove (prefix_of previous) key index

abbrev pub with_row : Bool → Text → Fact → Index → Index
with_row b key fact index = if b then index_insert (prefix_of fact) key index else index

module _ (test : Fact → Bool) (facts : Map Fact) (key : Text) (fact : Fact) (index : Index)
    (h : Indexes test facts index) where
  without_row_exact :
      (p j : Text)
      → has p j (without_row key (Map.get key facts) index)
        ≡ (if text_eq key j then false else belongs test p (Map.get j facts))
  without_row_exact p j = elim (Option-cases (Map.get key facts)) [
    | inl e ↦ rw e (ground (arith, h.exact p j, text_eq_iff key j, e))
    | inr (previous, e) ↦ rw e (
        ground (
          arith,
          has-index_remove (prefix_of previous) key p j index,
          h.exact p j,
          text_eq_iff key j,
          text_eq_iff (prefix_of previous) p,
          e,
        ))
  ]

  upsert_exact :
      (p j : Text)
      → has p j (with_row (test fact) key fact (without_row key (Map.get key facts) index))
        ≡ belongs test p (Map.get j (Map.insert key fact facts))
  upsert_exact p j = ground (
    arith,
    without_row_exact p j,
    has-index_insert (prefix_of fact) key p j (without_row key (Map.get key facts) index),
    get-insert key j fact facts,
    text_eq_iff key j,
  )

  without_row-NonEmpty : NonEmpty (without_row key (Map.get key facts) index)
  without_row-NonEmpty = elim (Option-cases (Map.get key facts)) [
    | inl e ↦ rw e h.non_empty
    | inr (previous, e) ↦ rw e (index_remove-NonEmpty (prefix_of previous) key index h.non_empty)
  ]

  upsert-NonEmpty :
      NonEmpty (with_row (test fact) key fact (without_row key (Map.get key facts) index))
  upsert-NonEmpty = elim (Bool-cases (test fact)) [
    | inl e ↦ rw e (
        index_insert-NonEmpty (prefix_of fact) key (without_row key (Map.get key facts) index)
          without_row-NonEmpty)
    | inr e ↦ rw e without_row-NonEmpty
  ]

  -- An upsert keeps an index exact.
  pub upsert-Indexes :
      Indexes test
        (Map.insert key fact facts)
        (with_row (test fact) key fact (without_row key (Map.get key facts) index))
  upsert-Indexes = record { exact = upsert_exact; non_empty = upsert-NonEmpty }
