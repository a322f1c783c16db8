-- ===== src/Vector/Ranking.antt =====
-- crates/core/src/vector.rs: what a search returns, and in which order.
use mathlib.Core.Path.{subst}
use mathlib.Core.List.{Perm, perm_middle}
use mathlib.Core.List.Perm
use kronroe.Common.{
  sym, ℕ, zero, suc, ◌≡◌, refl, ◌∙◌, ap, Bool, true, false, not, ◌||◌, Option, some, List, [], ◌∷◌,
  ◌++◌, take, map, keep, is_empty, ◌==◌, if◌then◌else◌, Bool-cases, inl, inr, ◌⊎◌, arith, All,
}
use kronroe.FactId.{FactId}
use kronroe.Float.{f32, abs, is_nan}
use kronroe.Vector.{
  Entry, VectorIndex, Scored, Unordered, l2_norm, contains_id, score, scored, sorted, has_nan,
  sort_scored, search, id_eq,
}
use kronroe.Vector.Invariant.{id_eq_iff}
use kronroe.Vector.Sorted.{
  ranked_by, Descending, IsNumber, sorted-Descending, no_nan, Behind, sorted-Behind,
}
use kronroe.Vector.Cosine.{cosine, norm, cosine_similarity_lem, l2_norm_lem}

abbrev pub Among : FactId → List FactId → Type 0
Among id [] = ⊥
Among id (i ∷ ids) = (i ≡ id) ⊎ Among id ids

contains_id-Among :
    (id : FactId) (ids : List FactId)
    → (contains_id id ids ≡ true → Among id ids) × (contains_id id ids ≡ false → Among id ids → ⊥)
unfolding contains_id
contains_id-Among id [] = (λ h. absurd (cc h), λ h a. a)
contains_id-Among id (i ∷ ids) = elim (Bool-cases (id_eq i id)) [
  | inl e ↦ (λ h. inl ((id_eq_iff i id).0 e), λ h a. absurd (ground (arith, e, h)))
  | inr e ↦ (
    λ h. inr ((contains_id-Among id ids).0 (ground (arith, e, h))),
    λ h a. elim a [
      | inl same ↦ absurd (cc (sym e ∙ (id_eq_iff i id).1 same))
      | inr m ↦ (contains_id-Among id ids).1 (ground (arith, e, h)) m
    ],
  )
]

-- The entries that pass a test and those that do not are all.
divided :
    (test : Entry → Bool) (es : List Entry) → Perm (keep test es ++ keep (λ e. not (test e)) es) es
divided test [] = Perm.rfl
divided test (e ∷ es) = elim (Bool-cases (test e)) [
  | inl q ↦ rw q (Perm.cons e (divided test es))
  | inr q ↦ rw q (
      Perm.trans (perm_middle (keep test es) (keep (λ e. not (test e)) es))
        (Perm.cons e (divided test es)))
]

keep-All :
    (P : Entry → Type 0) (test : Entry → Bool) (es : List Entry)
    → ((e : Entry) → test e ≡ true → P e)
    → All P (keep test es)
keep-All P test [] f = tt
keep-All P test (e ∷ es) f = elim (Bool-cases (test e)) [
  | inl q ↦ rw q (f e q, keep-All P test es f)
  | inr q ↦ rw q (keep-All P test es f)
]

scored_lem :
    (query : List ℕ) (valid_ids : List FactId) (es : List Entry)
    → scored query valid_ids es
      ≡ map (ranked_by query) (keep (λ (e : Entry). contains_id e.id valid_ids) es)
unfolding scored score
scored_lem query valid_ids es = each (keep (λ (e : Entry). contains_id e.id valid_ids) es)
  where
    each : (es : List Entry) → map (score query) es ≡ map (ranked_by query) es
    each [] = refl
    each (e ∷ es) =
        ap (λ s. (e.id, s) ∷ map (score query) es) (cosine_similarity_lem query e.embedding)
        ∙ ap (λ xs. ranked_by query e ∷ xs) (each es)

-- The valid entries have no NaN for a score.
abbrev pub AreNumbers : List ℕ → List FactId → List Entry → Type 0
AreNumbers query valid_ids =
    All (λ (e : Entry). Among e.id valid_ids → is_nan f32 (cosine query e.embedding) ≡ false)

scored-IsNumber :
    (query : List ℕ) (valid_ids : List FactId) (es : List Entry)
    → AreNumbers query valid_ids es
    → All IsNumber (map (ranked_by query) (keep (λ (e : Entry). contains_id e.id valid_ids) es))
scored-IsNumber query valid_ids [] h = tt
scored-IsNumber query valid_ids (e ∷ es) h = elim (Bool-cases (contains_id e.id valid_ids)) [
  | inl q ↦
      rw q (h.0 ((contains_id-Among e.id valid_ids).0 q), scored-IsNumber query valid_ids es h.1)
  | inr q ↦ rw q (scored-IsNumber query valid_ids es h.1)
]

take_none : {A : Type 0} (k : ℕ) → take {A = A} k [] ≡ []
take_none zero = refl
take_none (suc k) = refl

nothing_taken : (k : ℕ) (xs : List Scored) → (k == 0) ≡ true → take k xs ≡ []
nothing_taken zero xs h = refl
nothing_taken (suc k) xs h = absurd (ground arith)

none_valid : (query : List ℕ) (entries : List Entry) → scored query [] entries ≡ []
unfolding scored contains_id
none_valid query [] = refl
none_valid query (e ∷ es) = none_valid query es

no_ids :
    (query : List ℕ) (valid_ids : List FactId) (entries : List Entry)
    → is_empty valid_ids ≡ true
    → scored query valid_ids entries ≡ []
no_ids query [] entries h = none_valid query entries
no_ids query (i ∷ ids) entries h = absurd (cc h)

no_entries :
    (query : List ℕ) (valid_ids : List FactId) (entries : List Entry)
    → is_empty entries ≡ true
    → scored query valid_ids entries ≡ []
unfolding scored
no_entries query valid_ids [] h = refl
no_entries query valid_ids (e ∷ es) h = absurd (cc h)

taken_of_none : (k : ℕ) (xs : List Scored) → xs ≡ [] → take k (sorted xs) ≡ []
unfolding sorted
taken_of_none k xs h = rw h (take_none k)

-- A test that ends early does no harm where there is nothing.
early :
    (a b c d : Bool) (xs : List Scored) (r : Option (List Scored))
    → r ≡ some xs
    → (a ≡ true → xs ≡ [])
    → (b ≡ true → xs ≡ [])
    → (c ≡ true → xs ≡ [])
    → d ≡ false
    → (if a || b || c || d then some [] else r) ≡ some xs
early true b c d xs r p f g h n = ap (λ x. some x) (sym (f refl))
early false true c d xs r p f g h n = ap (λ x. some x) (sym (g refl))
early false false true d xs r p f g h n = ap (λ x. some x) (sym (h refl))
early false false false true xs r p f g h n = absurd (cc n)
early false false false false xs r p f g h n = p

search_taken :
    (unordered : Unordered) (query : List ℕ) (k : ℕ) (valid_ids : List FactId) (index : VectorIndex)
    → (abs f32 (l2_norm query) == 0) ≡ false
    → has_nan (scored query valid_ids index.entries) ≡ false
    → search unordered query k valid_ids index
      ≡ some (take k (sorted (scored query valid_ids index.entries)))
unfolding search sort_scored
search_taken unordered query k valid_ids index h n =
    let found = scored query valid_ids index.entries in
    early (k == 0) (is_empty valid_ids) (is_empty index.entries) (abs f32 (l2_norm query) == 0)
      (take k (sorted found)) _ (rw n refl) (nothing_taken k (sorted found))
      (λ e. taken_of_none k found (no_ids query valid_ids index.entries e))
      (λ e. taken_of_none k found (no_entries query valid_ids index.entries e)) h

-- If the norm of the query is not zero and no entry whose id is valid has NaN for its similarity
-- to the query, a search returns the first k of a list of exactly the entries with a valid id,
-- each entry once, in an order in which none is more similar than one before it. The similarity
-- is the cosine of the two vectors, computed component by component, and zero where the lengths
-- differ or the norm of the entry is zero.
pub search_ranked :
    (unordered : Unordered) (query : List ℕ) (k : ℕ) (valid_ids : List FactId) (index : VectorIndex)
    → (abs f32 (norm query) == 0) ≡ false
    → AreNumbers query valid_ids index.entries
    → (ranked : List Entry) × (left : List Entry) × Perm (ranked ++ left) index.entries
      × All (λ (e : Entry). Among e.id valid_ids) ranked
      × All (λ (e : Entry). Among e.id valid_ids → ⊥) left
      × Descending (map (ranked_by query) ranked)
      × (search unordered query k valid_ids index ≡ some (take k (map (ranked_by query) ranked)))
unfolding Behind
search_ranked unordered query k valid_ids index h n =
    let test : Entry → Bool = λ e. contains_id e.id valid_ids in
    let numbers = scored-IsNumber query valid_ids index.entries n in
    let same = scored_lem query valid_ids index.entries in
    let (zs, p, a, r) =
      sorted-Behind query (λ e. Among e.id valid_ids) (keep test index.entries)
        (keep-All (λ e. Among e.id valid_ids) test index.entries
          (λ e q. (contains_id-Among e.id valid_ids).0 q)) in
    (
      zs,
      keep (λ e. not (test e)) index.entries,
      Perm.trans (Perm.append_right (keep (λ e. not (test e)) index.entries) p)
          (divided test index.entries),
      a,
      keep-All (λ e. Among e.id valid_ids → ⊥) (λ e. not (test e)) index.entries
          (λ e q. (contains_id-Among e.id valid_ids).1 (ground (arith, q))),
      subst Descending r
          (sorted-Descending (map (ranked_by query) (keep test index.entries)) numbers).0,
      search_taken unordered query k valid_ids index
            (ap (λ t. abs f32 t == 0) (l2_norm_lem query) ∙ h)
            (ap (λ xs. has_nan xs) same ∙ no_nan _ numbers)
          ∙ ap (λ xs. some (take k (sorted xs))) same
          ∙ ap (λ xs. some (take k xs)) r,
    )
