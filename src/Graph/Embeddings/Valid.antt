-- ===== src/Graph/Embeddings/Valid.antt =====
-- crates/core/src/temporal_graph.rs: what a search by vector returns, and the index after a rebuild.
use mathlib.Core.Path.{subst}
use mathlib.Core.Option
use kronroe.Query.{facts_of, scan_facts}
use kronroe.Common.{
  ℕ, suc, ◌≤◌, ◌≡◌, refl, Bool, true, false, Option, none, some, List, [], ◌∷◌, length, take,
  length-take_le, keep, All, if◌then◌else◌, Bool-cases, inl, inr, arith,
}
use kronroe.Time.{KronroeTimestamp}
use kronroe.FactId.{FactId}
use kronroe.Fact.{Fact}
use kronroe.Error.{Result, ok, err, fail, ErrorKind, ◌>>=◌}
use kronroe.Log.{AppendLogState}
use kronroe.Vector.{
  Unordered, VectorIndex, new, insert, search, id_eq, Scored, differs, scored, sort_scored,
}
use kronroe.Vector.Invariant.{Inv, new-Inv, insert-Inv}
use kronroe.Graph.{scan_prefix}
use kronroe.Graph.Embeddings.{
  insert_rows, embedding_rows, rebuild_vector_index_from_storage, Indexed, passes, fact_by_its_id,
  hydrated, search_by_vector, ids_of,
}

keep-All : (test : Fact → Bool) (fs : List Fact) → All (λ f. test f ≡ true) (keep test fs)
keep-All test [] = tt
keep-All test (f ∷ fs) = elim (Bool-cases (test f)) [
  | inl e ↦ rw e (e, keep-All test fs)
  | inr e ↦ rw e (keep-All test fs)
]

module _ (P : Fact → Type 0) where
  -- A fact that is found has the property that all have.
  Holds : Option Fact → Type 0
  Holds none = Unit
  Holds (some f) = P f

  latest :
      (found : Option Fact) (b : Bool) (f : Fact)
      → Holds found
      → P f
      → Holds (elim found [ some g ↦ some g | none ↦ if b then some f else none ])
  unfolding Holds
  latest (some g) b f h p = h
  latest none true f h p = p
  latest none false f h p = tt

  fact_by_its_id-Holds : (id : FactId) (fs : List Fact) → All P fs → Holds (fact_by_its_id id fs)
  unfolding fact_by_its_id Holds
  fact_by_its_id-Holds id [] h = tt
  fact_by_its_id-Holds id (f ∷ fs) h =
      latest (fact_by_its_id id fs) (id_eq f.id id) f (fact_by_its_id-Holds id fs h.1) h.0

  hydrated-All :
      (fs : List Fact) (hits : List Scored)
      → All P fs
      → All (λ (r : Fact × ℕ). P r.0) (hydrated fs hits)
  unfolding hydrated Holds
  hydrated-All fs [] h = tt
  hydrated-All fs ((id, score) ∷ hits) h =
      one (fact_by_its_id id fs) (fact_by_its_id-Holds id fs h) (hydrated-All fs hits h)
    where
      one :
          (found : Option Fact)
          → Holds found
          → All (λ (r : Fact × ℕ). P r.0) (hydrated fs hits)
          → All
              (λ (r : Fact × ℕ). P r.0)
              (elim found [ some f ↦ (f, score) ∷ hydrated fs hits | none ↦ hydrated fs hits ])
      one none p q = q
      one (some f) p q = (p, q)

length-hydrated : (fs : List Fact) (hits : List Scored) → length (hydrated fs hits) ≤ length hits
unfolding hydrated
length-hydrated fs [] = omega arith
length-hydrated fs ((id, score) ∷ hits) = one (fact_by_its_id id fs) (length-hydrated fs hits)
  where
    one :
        (found : Option Fact)
        → length (hydrated fs hits) ≤ length hits
        → length (elim found [ some f ↦ (f, score) ∷ hydrated fs hits | none ↦ hydrated fs hits ])
          ≤ suc (length hits)
    one none h = omega arith
    one (some f) h = omega arith

length-search :
    (unordered : Unordered) (query : List ℕ) (k : ℕ) (ids : List FactId) (index : VectorIndex)
    (hits : List Scored)
    → search unordered query k ids index ≡ some hits
    → length hits ≤ k
unfolding search
length-search unordered query k ids index hits e =
    bounded _ (sort_scored unordered (scored query ids index.entries)) e
  where
    bounded :
        (b : Bool) (xs : Option (List Scored))
        → (if b then some [] else Option.map (λ (ys : List Scored). take k ys) xs) ≡ some hits
        → length hits ≤ k
    bounded true xs q = ground (arith, q)
    bounded false none q = absurd (cc q)
    bounded false (some ys) q =
        let same : take k ys ≡ hits = cc q in subst (λ zs. length zs ≤ k) same (length-take_le k ys)

-- A search that returns results has hits behind them.
answered :
    {A B : Type 0} (b : Bool) (k : ErrorKind) (f : A → B) (hits : Option A) (results : B)
    → (if b then some (fail k) else Option.map (λ (h : A). ok (f h)) hits) ≡ some (ok results)
    → (h : A) × (hits ≡ some h) × (f h ≡ results)
answered true k f hits results e = absurd (ground (arith, e))
answered false k f none results e = absurd (cc e)
answered false k f (some h) results e = (h, refl, cc e)

-- If a search by vector returns results, whatever the sort makes of scores with a NaN among
-- them, they are k at most, and each of their facts passes the temporal filter: it is valid at
-- the moment that is given, or currently valid.
pub search_by_vector_valid :
    (unordered : Unordered) (query : List ℕ) (k : ℕ) (at : Option KronroeTimestamp) (x : Indexed)
    (results : List (Fact × ℕ))
    → search_by_vector unordered query k at x ≡ some (ok results)
    → All (λ (r : Fact × ℕ). passes at r.0 ≡ true) results × (length results ≤ k)
unfolding search_by_vector scan_prefix
search_by_vector_valid unordered query k at x results e =
    let matching = scan_prefix [] (passes at) x.graph in
    let (hits, found, same) =
      answered (differs x.vector_index.dim query) ErrorKind.invalid_embedding
        (λ (hs : List Scored). hydrated matching hs)
        (search unordered query k (ids_of matching) x.vector_index) results e in
    subst (λ rs. All (λ (r : Fact × ℕ). passes at r.0 ≡ true) rs × (length rs ≤ k)) same
      (
        hydrated-All (λ f. passes at f ≡ true) matching hits
            (keep-All (passes at) (facts_of (scan_facts [] x.graph.storage.state).0)),
        omega (
          arith,
          length-hydrated matching hits,
          length-search unordered query k (ids_of matching) x.vector_index hits found,
        ),
      )

inserted_then :
    (r : Result VectorIndex) (rows : List (FactId × List ℕ)) (index' : VectorIndex)
    → (r >>= λ next. insert_rows next rows) ≡ ok index'
    → (u : VectorIndex) × (r ≡ ok u) × (insert_rows u rows ≡ ok index')
inserted_then (ok u) rows index' q = (u, refl, q)
inserted_then (err f) rows index' q = absurd (ground (arith, q))

rows-Inv :
    (index index' : VectorIndex) (rows : List (FactId × List ℕ))
    → Inv index
    → insert_rows index rows ≡ ok index'
    → Inv index'
unfolding insert_rows
rows-Inv index index' [] i e = subst Inv (cc e) i
rows-Inv index index' ((id, v) ∷ rows) i e =
    let (u, p, q) = inserted_then (insert id v index) rows index' e in
    rows-Inv u index' rows (insert-Inv id v index u i p).0 q

rows_then :
    (r : Result (List (FactId × List ℕ))) (index : VectorIndex)
    → (r >>= λ rows. insert_rows new rows) ≡ ok index
    → Inv index
rows_then (ok rows) index q = rows-Inv new index rows new-Inv q
rows_then (err f) index q = absurd (ground (arith, q))

-- x
pub rebuild-Inv :
    (s : AppendLogState) (index : VectorIndex)
    → rebuild_vector_index_from_storage s ≡ ok index
    → Inv index
unfolding rebuild_vector_index_from_storage
rebuild-Inv s index e = rows_then (embedding_rows s) index e
