-- ===== src/Log/KeySets.antt =====
-- crates/core/src/storage_append_log.rs: the `BTreeMap<String, BTreeSet<String>>` indexes of
-- `AppendLogState`, from a subject and predicate to the keys of fact rows. A set that runs empty is
-- taken out of the map.
use kronroe.Common.{
  Bool, true, false, ◌&&◌, ◌||◌, ◌≡◌, ◌≢◌, refl, none, some, [], ◌∷◌, arith, is_empty,
  if◌then◌else◌, unwrap_or, inl, inr, Option-cases,
}
use kronroe.Common.Text.{Text, text_eq, text_eq_iff}
use kronroe.Common.Map
use kronroe.Common.Map.{Map, get-insert, get-remove}
use kronroe.Common.Set
use kronroe.Common.Set.{Set, member-insert, member-remove}

abbrev pub Index : Type 0
Index = Map Set

-- The keys under a prefix.
abbrev pub entry : Text → Index → Set
entry p index = unwrap_or (Map.get p index) []

abbrev pub has : Text → Text → Index → Bool
has p key index = Set.member key (entry p index)

-- `index.entry(prefix).or_default().insert(key)`
unfoldable pub index_insert : Text → Text → Index → Index
index_insert p key index = Map.insert p (Set.insert key (entry p index)) index

-- `if let Some(keys) = index.get_mut(prefix) { keys.remove(key); if keys.is_empty() { … } }`
unfoldable pub index_remove : Text → Text → Index → Index
index_remove p key index = elim (Map.get p index) [
  | none ↦ index
  | some keys ↦
      let left = Set.remove key keys in
      if is_empty left then Map.remove p index else Map.insert p left index
]

-- No set of the index is empty.
abbrev pub NonEmpty : Index → Type 0
NonEmpty index = (p : Text) → Map.get p index ≢ some []

pub has-index_insert :
    (p key q j : Text) (index : Index)
    → has q j (index_insert p key index) ≡ ((text_eq p q && text_eq key j) || has q j index)
unfolding index_insert
has-index_insert p key q j index = ground (
  arith,
  get-insert p q (Set.insert key (entry p index)) index,
  member-insert key j (entry p index),
  text_eq_iff p q,
)

member-nil : (j : Text) (s : Set) → is_empty s ≡ true → Set.member j s ≡ false
unfolding Set.member
member-nil j [] h = refl
member-nil j (x ∷ s) h = absurd (cc h)

pub has-index_remove :
    (p key q j : Text) (index : Index)
    → has q j (index_remove p key index)
      ≡ (if text_eq p q && text_eq key j then false else has q j index)
unfolding index_remove Set.member
has-index_remove p key q j index = elim (Option-cases (Map.get p index)) [
  | inl e ↦ ground (arith, text_eq_iff p q)
  | inr (keys, e) ↦ ground (
    arith,
    text_eq_iff p q,
    get-remove p q index,
    get-insert p q (Set.remove key keys) index,
    member-remove key j keys,
    member-nil j (Set.remove key keys),
  )
]

insert_ne_nil : (key : Text) (s : Set) → Set.insert key s ≢ []
unfolding Set.insert
insert_ne_nil key [] e = cc e
insert_ne_nil key (x ∷ s) e = ground arith

pub index_insert-NonEmpty :
    (p key : Text) (index : Index) → NonEmpty index → NonEmpty (index_insert p key index)
unfolding index_insert
index_insert-NonEmpty p key index h q e = ground (
  arith,
  h q,
  get-insert p q (Set.insert key (entry p index)) index,
  insert_ne_nil key (entry p index),
)

pub index_remove-NonEmpty :
    (p key : Text) (index : Index) → NonEmpty index → NonEmpty (index_remove p key index)
unfolding index_remove
index_remove-NonEmpty p key index h q = elim (Option-cases (Map.get p index)) [
  | inl e ↦ rw (e, index_remove) (h q)
  | inr (keys, e) ↦
      λ n. ground (arith, h q, get-remove p q index, get-insert p q (Set.remove key keys) index)
]
