-- ===== src/Vector/Invariant.antt =====
-- crates/core/src/vector.rs: what every index holds, and what an insertion and a removal change.
use kronroe.Common.{
  ◌↔◌, ℕ, ◌≡◌, refl, ◌∙◌, ap, sym, Bool, true, false, not, ◌&&◌, ◌||◌, Option, none, some, List, [],
  ◌∷◌, length, is_empty, if◌then◌else◌, Bool-cases, inl, inr, arith, All,
}
use kronroe.Common.Text.{text_eq_iff, text_eq_refl}
use kronroe.Error.{ok, fail, ErrorKind}
use kronroe.FactId.{FactId}
use kronroe.Vector.{Entry, VectorIndex, new, id_eq, put_entry, differs, insert}

-- Whether an entry is of the dimension that is set.
abbrev pub HasDim : Option ℕ → Entry → Type 0
HasDim none e = ⊥
HasDim (some d) e = length e.embedding ≡ d

-- No entry before has the id.
unfoldable pub absent : FactId → List Entry → Bool
unfolding id_eq
absent id [] = true
absent id (e ∷ es) = not (id_eq e.id id) && absent id es

abbrev pub Distinct : List Entry → Type 0
Distinct [] = Unit
Distinct (e ∷ es) = (absent e.id es ≡ true) × Distinct es

-- The entries are of the dimension that is set, if one is, and have an id each.
pub record Inv (index : VectorIndex) : Type 0 where
  pub dims : All (HasDim index.dim) index.entries
  pub distinct : Distinct index.entries

-- The embedding of the first entry of the id.
unfoldable pub embedding_of : FactId → List Entry → Option (List ℕ)
unfolding id_eq
embedding_of id [] = none
embedding_of id (e ∷ es) = if id_eq e.id id then some e.embedding else embedding_of id es

pub id_eq_iff : (a b : FactId) → (id_eq a b ≡ true) ↔ (a ≡ b)
unfolding id_eq
id_eq_iff a b = (
  λ h.
      same a b ((text_eq_iff a.bytes b.bytes).0 (ground arith))
        ((text_eq_iff a.text b.text).0 (ground arith)),
  λ e. rw e (ground (arith, text_eq_refl b.bytes, text_eq_refl b.text)),
)
  where
    same : (a b : FactId) → a.bytes ≡ b.bytes → a.text ≡ b.text → a ≡ b
    same a b e f = cc (e, f)

-- Ids that differ do so either way around.
pub id_eq_comm : (a b : FactId) → id_eq a b ≡ false → id_eq b a ≡ false
id_eq_comm a b h = elim (Bool-cases (id_eq b a)) [
  | inl t ↦ absurd (ground (arith, h, (id_eq_iff a b).1 (sym ((id_eq_iff b a).0 t))))
  | inr f ↦ f
]

-- An id that equals one of two that differ is not the other.
pub id_eq_other : (a b c : FactId) → id_eq a b ≡ false → id_eq a c ≡ true → id_eq b c ≡ false
id_eq_other a b c h e = ap (λ x. id_eq b x) (sym ((id_eq_iff a c).0 e)) ∙ id_eq_comm a b h

twice :
    {A : Type 0} (b : Bool) (x y z : A)
    → (if b then x else z) ≡ (if b then x else if b then y else z)
twice true x y z = refl
twice false x y z = refl

put_entry-embedding_of :
    (id j : FactId) (v : List ℕ) (es : List Entry)
    → embedding_of j (put_entry id v es) ≡ (if id_eq id j then some v else embedding_of j es)
unfolding embedding_of put_entry
put_entry-embedding_of id j v [] = refl
put_entry-embedding_of id j v (e ∷ es) = elim (Bool-cases (id_eq e.id id)) [
  | inl q ↦
      rw (q, (id_eq_iff e.id id).0 q)
        (twice (id_eq id j) (some v) (some e.embedding) (embedding_of j es))
  | inr q ↦ elim (Bool-cases (id_eq e.id j)) [
    | inl t ↦ rw (q, t, id_eq_other e.id id j q t) refl
    | inr f ↦ rw (q, f, put_entry-embedding_of id j v es) refl
  ]
]

put_entry-dims :
    (d : ℕ) (id : FactId) (v : List ℕ) (es : List Entry)
    → length v ≡ d
    → All (HasDim (some d)) es
    → All (HasDim (some d)) (put_entry id v es)
unfolding put_entry
put_entry-dims d id v [] n h = (n, tt)
put_entry-dims d id v (e ∷ es) n h = elim (Bool-cases (id_eq e.id id)) [
  | inl q ↦ rw q (n, h.1)
  | inr q ↦ rw q (h.0, put_entry-dims d id v es n h.1)
]

put_entry-absent :
    (id j : FactId) (v : List ℕ) (es : List Entry)
    → id_eq id j ≡ false
    → absent j es ≡ true
    → absent j (put_entry id v es) ≡ true
unfolding put_entry absent
put_entry-absent id j v [] n h = rw n refl
put_entry-absent id j v (e ∷ es) n h = elim (Bool-cases (id_eq e.id id)) [
  | inl q ↦ rw q h
  | inr q ↦
      let other : id_eq e.id j ≡ false = ground arith in
      rw (q, other) (put_entry-absent id j v es n (ground arith))
]

put_entry-Distinct :
    (id : FactId) (v : List ℕ) (es : List Entry) → Distinct es → Distinct (put_entry id v es)
unfolding put_entry absent
put_entry-Distinct id v [] h = (refl, tt)
put_entry-Distinct id v (e ∷ es) h = elim (Bool-cases (id_eq e.id id)) [
  | inl q ↦ rw q h
  | inr q ↦
      rw q
        (put_entry-absent id e.id v es (id_eq_comm e.id id q) h.0, put_entry-Distinct id v es h.1)
]

dims_of :
    (dim : Option ℕ) (v : List ℕ) (es : List Entry)
    → differs dim v ≡ false
    → All (HasDim dim) es
    → All (HasDim (some (length v))) es
unfolding differs
dims_of none v [] n h = tt
dims_of none v (e ∷ es) n h = absurd h.0
dims_of (some d) v es n h = let same : length v ≡ d = ground arith in rw same h

pub new-Inv : Inv new
new-Inv = record { dims = tt; distinct = tt }

passed :
    (a b : Bool) (x y : VectorIndex) (k : ErrorKind)
    → (if a || b then fail k else ok x) ≡ ok y
    → (b ≡ false) × (y ≡ x)
passed true b x y k e = absurd (ground (arith, e))
passed false true x y k e = absurd (ground (arith, e))
passed false false x y k e = (refl, cc e)

-- An insertion that succeeds was not of an empty embedding or of another dimension.
inserted :
    (id : FactId) (v : List ℕ) (index index' : VectorIndex)
    → insert id v index ≡ ok index'
    → (differs index.dim v ≡ false)
      × (index' ≡ record { entries = put_entry id v index.entries; dim = some (length v) })
unfolding insert
inserted id v index index' e =
    passed (is_empty v) (differs index.dim v) _ _ ErrorKind.invalid_embedding e

-- If every embedding of an index has the dimension that is set and no id stands twice, then the
-- same holds after an insertion that succeeds, the id has the new embedding, and every other id
-- has the one that it had.
pub insert-Inv :
    (id : FactId) (v : List ℕ) (index index' : VectorIndex)
    → Inv index
    → insert id v index ≡ ok index'
    → Inv index'
      × ((j : FactId)
          → embedding_of j index'.entries
            ≡ (if id_eq id j then some v else embedding_of j index.entries))
insert-Inv id v index index' i e =
    let (n, s) = inserted id v index index' e in
    rw s (
      record {
        dims =
            put_entry-dims (length v) id v index.entries refl
              (dims_of index.dim v index.entries n i.dims);
        distinct = put_entry-Distinct id v index.entries i.distinct;
      },
      λ j. put_entry-embedding_of id j v index.entries,
    )
