-- ===== src/Vector/Removal.antt =====
-- crates/core/src/vector.rs: the removal of an entry, which moves the last entry into its place.
use kronroe.Common.{
  ◌≡◌, refl, ◌∙◌, ap, sym, Bool, true, false, Option, none, some, List, [], ◌∷◌, if◌then◌else◌,
  Bool-cases, inl, inr, arith, All, ℕ,
}
use kronroe.FactId.{FactId}
use kronroe.Vector.{Entry, VectorIndex, id_eq, last_first, swapped, remove_entry, remove}
use kronroe.Vector.Invariant.{
  HasDim, absent, Distinct, Inv, embedding_of, id_eq_iff, id_eq_comm, id_eq_other,
}

abbrev with_last : Entry → List Entry → List Entry
with_last e [] = e ∷ []
with_last e (l ∷ ls) = l ∷ e ∷ ls

last_first_cons :
    (e f : Entry) (fs : List Entry) → last_first e (f ∷ fs) ≡ with_last e (last_first f fs)
unfolding last_first
last_first_cons e f fs = matched (last_first f fs)
  where
    matched : (ls : List Entry) → (elim ls [ [] ↦ e ∷ [] | l ∷ ls ↦ l ∷ e ∷ ls ]) ≡ with_last e ls
    matched [] = refl
    matched (l ∷ ls) = refl

-- What holds of every entry, in each order of them.
last_first-All :
    (P : Entry → Type 0) (e : Entry) (es : List Entry) → P e → All P es → All P (last_first e es)
unfolding last_first
last_first-All P e [] h hs = (h, tt)
last_first-All P e (f ∷ fs) h hs =
    rw (last_first_cons e f fs) (before (last_first f fs) (last_first-All P f fs hs.0 hs.1))
  where
    before : (ls : List Entry) → All P ls → All P (with_last e ls)
    before [] q = (h, tt)
    before (l ∷ ls) q = (q.0, (h, q.1))

last_first-absent :
    (id : FactId) (e : Entry) (es : List Entry)
    → absent id (e ∷ es) ≡ true
    → absent id (last_first e es) ≡ true
unfolding last_first absent
last_first-absent id e [] h = h
last_first-absent id e (f ∷ fs) h =
    rw (last_first_cons e f fs)
      (before (last_first f fs) (last_first-absent id f fs (ground arith)))
  where
    before : (ls : List Entry) → absent id ls ≡ true → absent id (with_last e ls) ≡ true
    before [] q = ground arith
    before (l ∷ ls) q = ground arith

last_first-Distinct : (e : Entry) (es : List Entry) → Distinct (e ∷ es) → Distinct (last_first e es)
unfolding last_first absent
last_first-Distinct e [] h = h
last_first-Distinct e (f ∷ fs) h =
    rw (last_first_cons e f fs)
      (before (last_first f fs) (last_first-absent e.id f fs h.0) (last_first-Distinct f fs h.1))
  where
    before : (ls : List Entry) → absent e.id ls ≡ true → Distinct ls → Distinct (with_last e ls)
    before [] a q = (refl, tt)
    before (l ∷ ls) a q =
        let other : id_eq e.id l.id ≡ false = id_eq_comm l.id e.id (ground arith) in
        (ground (arith, other, q.0), (ground arith, q.1))

last_first-embedding_of :
    (j : FactId) (e : Entry) (es : List Entry)
    → Distinct (e ∷ es)
    → embedding_of j (last_first e es) ≡ embedding_of j (e ∷ es)
unfolding last_first embedding_of absent
last_first-embedding_of j e [] h = refl
last_first-embedding_of j e (f ∷ fs) h =
    ap (λ es. embedding_of j es) (last_first_cons e f fs)
    ∙ before (last_first f fs) (last_first-absent e.id f fs h.0)
    ∙ ap (λ r. if id_eq e.id j then some e.embedding else r) (last_first-embedding_of j f fs h.1)
  where
    before :
        (ls : List Entry)
        → absent e.id ls ≡ true
        → embedding_of j (with_last e ls)
          ≡ (if id_eq e.id j then some e.embedding else embedding_of j ls)
    before [] a = refl
    before (l ∷ ls) a = elim (Bool-cases (id_eq l.id j)) [
      | inl t ↦ rw (t, id_eq_other l.id e.id j (ground arith) t) refl
      | inr n ↦ rw n refl
    ]

-- An id that is absent has no embedding.
absent-embedding_of : (j : FactId) (es : List Entry) → absent j es ≡ true → embedding_of j es ≡ none
unfolding absent embedding_of
absent-embedding_of j [] h = refl
absent-embedding_of j (e ∷ es) h =
    let other : id_eq e.id j ≡ false = ground arith in
    rw other (absent-embedding_of j es (ground arith))

swapped-embedding_of :
    (j : FactId) (es : List Entry) → Distinct es → embedding_of j (swapped es) ≡ embedding_of j es
unfolding swapped
swapped-embedding_of j [] h = refl
swapped-embedding_of j (e ∷ es) h = last_first-embedding_of j e es h

remove_entry-absent :
    (id j : FactId) (es : List Entry) → absent j es ≡ true → absent j (remove_entry id es) ≡ true
unfolding remove_entry absent
remove_entry-absent id j [] h = h
remove_entry-absent id j (e ∷ es) h = elim (Bool-cases (id_eq e.id id)) [
  | inl q ↦ rw q (moved es (ground arith))
  | inr q ↦
      let other : id_eq e.id j ≡ false = ground arith in
      rw (q, other) (remove_entry-absent id j es (ground arith))
]
  where
    moved : (es : List Entry) → absent j es ≡ true → absent j (swapped es) ≡ true
    moved [] a = a
    moved (f ∷ fs) a = last_first-absent j f fs a

swapped-Distinct : (es : List Entry) → Distinct es → Distinct (swapped es)
unfolding swapped
swapped-Distinct [] h = h
swapped-Distinct (e ∷ es) h = last_first-Distinct e es h

swapped-All : (P : Entry → Type 0) (es : List Entry) → All P es → All P (swapped es)
unfolding swapped
swapped-All P [] h = h
swapped-All P (e ∷ es) h = last_first-All P e es h.0 h.1

remove_entry-Distinct :
    (id : FactId) (es : List Entry) → Distinct es → Distinct (remove_entry id es)
unfolding remove_entry
remove_entry-Distinct id [] h = h
remove_entry-Distinct id (e ∷ es) h = elim (Bool-cases (id_eq e.id id)) [
  | inl q ↦ rw q (swapped-Distinct es h.1)
  | inr q ↦ rw q (remove_entry-absent id e.id es h.0, remove_entry-Distinct id es h.1)
]

remove_entry-All :
    (P : Entry → Type 0) (id : FactId) (es : List Entry) → All P es → All P (remove_entry id es)
unfolding remove_entry
remove_entry-All P id [] h = h
remove_entry-All P id (e ∷ es) h = elim (Bool-cases (id_eq e.id id)) [
  | inl q ↦ rw q (swapped-All P es h.1)
  | inr q ↦ rw q (h.0, remove_entry-All P id es h.1)
]

either_way : (b : Bool) (x : Option (List ℕ)) → x ≡ (if b then x else x)
either_way true x = refl
either_way false x = refl

remove_entry-embedding_of :
    (id j : FactId) (es : List Entry)
    → Distinct es
    → embedding_of j (remove_entry id es) ≡ (if id_eq id j then none else embedding_of j es)
unfolding remove_entry embedding_of
remove_entry-embedding_of id j [] h = either_way (id_eq id j) none
remove_entry-embedding_of id j (e ∷ es) h = elim (Bool-cases (id_eq e.id id)) [
  | inl q ↦
      let same = (id_eq_iff e.id id).0 q in
      elim (Bool-cases (id_eq id j)) [
        | inl t ↦
            let gone : absent j es ≡ true =
              ap (λ x. absent x es) (sym (same ∙ (id_eq_iff id j).0 t)) ∙ h.0 in
            rw (q, t) (swapped-embedding_of j es h.1 ∙ absent-embedding_of j es gone)
        | inr f ↦ rw (q, f, ap (λ x. id_eq x j) same ∙ f) (swapped-embedding_of j es h.1)
      ]
  | inr q ↦ elim (Bool-cases (id_eq e.id j)) [
    | inl t ↦ rw (q, t, id_eq_other e.id id j q t) refl
    | inr f ↦ rw (q, f, remove_entry-embedding_of id j es h.1) refl
  ]
]

-- If every embedding of an index has the dimension that is set and no id stands twice, then the
-- same holds after a removal, the id has no embedding, and every other id has the one that it
-- had.
pub remove-Inv :
    (id : FactId) (index : VectorIndex)
    → Inv index
    → Inv (remove id index)
      × ((j : FactId)
          → embedding_of j (remove id index).entries
            ≡ (if id_eq id j then none else embedding_of j index.entries))
unfolding remove
remove-Inv id index i = (
  record {
    dims = remove_entry-All (HasDim index.dim) id index.entries i.dims;
    distinct = remove_entry-Distinct id index.entries i.distinct;
  },
  λ j. remove_entry-embedding_of id j index.entries i.distinct,
)
