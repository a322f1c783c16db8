-- ===== src/Vector.antt =====
-- crates/core/src/vector.rs: the flat index of embeddings and its search.
pub mod Invariant
pub mod Removal
pub mod Cosine
pub mod Sorted
pub mod Ranking
use mathlib.Core.Option
use kronroe.Common.{
  ℕ, suc, Bool, true, false, not, ◌&&◌, ◌||◌, Option, none, some, List, [], ◌∷◌, length, take, keep,
  map, is_empty, ◌==◌, if◌then◌else◌,
}
use kronroe.Common.Text.{text_eq}
use kronroe.Error.{Result, ok, fail, ErrorKind}
use kronroe.FactId.{FactId}
use kronroe.Float.{f32, abs, is_nan, lt}
use kronroe.Float.Arithmetic.{add, mul, div, sqrt}

pub record Entry : Type 0 where
  pub id : FactId
  pub embedding : List ℕ

pub record VectorIndex : Type 0 where
  pub entries : List Entry
  pub dim : Option ℕ

abbrev pub new : VectorIndex
new = record { entries = []; dim = none }

-- The equality that `FactId` derives.
unfoldable pub id_eq : FactId → FactId → Bool
unfolding text_eq
id_eq a b = text_eq a.bytes b.bytes && text_eq a.text b.text

-- The entry of the id is given the embedding, or a new entry is put at the end.
unfoldable pub put_entry : FactId → List ℕ → List Entry → List Entry
unfolding id_eq
put_entry id embedding [] = record { id = id; embedding = embedding } ∷ []
put_entry id embedding (e ∷ es) =
    let rest = put_entry id embedding es in
    if id_eq e.id id then record e { embedding = embedding } ∷ es else e ∷ rest

-- Whether an embedding is not of the dimension that is set.
unfoldable pub differs : Option ℕ → List ℕ → Bool
differs none embedding = false
differs (some d) embedding = not (length embedding == d)

-- `insert`: the new index, or the error, which leaves the index as it is.
unfoldable pub insert : FactId → List ℕ → VectorIndex → Result VectorIndex
unfolding put_entry differs
insert id embedding index =
    if is_empty embedding || differs index.dim embedding
    then fail ErrorKind.invalid_embedding
    else ok
        (record { entries = put_entry id embedding index.entries; dim = some (length embedding) })

-- The last of the entries is put in front of the others.
unfoldable pub last_first : Entry → List Entry → List Entry
last_first e [] = e ∷ []
last_first e (f ∷ fs) = elim (last_first f fs) [ [] ↦ e ∷ [] | l ∷ ls ↦ l ∷ e ∷ ls ]

-- `swap_remove` of the place in front of the entries
unfoldable pub swapped : List Entry → List Entry
unfolding last_first
swapped [] = []
swapped (e ∷ es) = last_first e es

unfoldable pub remove_entry : FactId → List Entry → List Entry
unfolding id_eq swapped
remove_entry id [] = []
remove_entry id (e ∷ es) =
    let rest = remove_entry id es in if id_eq e.id id then swapped es else e ∷ rest

unfoldable pub remove : FactId → VectorIndex → VectorIndex
unfolding remove_entry
remove id index = record index { entries = remove_entry id index.entries }

abbrev unit : ℕ
unit = 149

-- `iter().sum::<f32>()`, from the value so far
unfoldable pub sum : ℕ → List ℕ → ℕ
unfolding add
sum total [] = total
sum total (x ∷ xs) = sum (add f32 unit total x) xs

unfoldable pub l2_norm : List ℕ → ℕ
unfolding sum mul sqrt
l2_norm v = sqrt f32 unit (sum 0 (map (λ x. mul f32 unit x x) v))

-- `a.iter().zip(b.iter()).map(|(x, y)| x * y)`
unfoldable pub products : List ℕ → List ℕ → List ℕ
unfolding mul
products [] ys = []
products (x ∷ xs) [] = []
products (x ∷ xs) (y ∷ ys) = mul f32 unit x y ∷ products xs ys

unfoldable pub cosine_similarity : List ℕ → List ℕ → ℕ → ℕ
unfolding l2_norm sum products div mul abs
cosine_similarity a b a_norm =
    if not (length a == length b) || (abs f32 (l2_norm b) == 0)
    then 0
    else div f32 unit (sum 0 (products a b)) (mul f32 unit a_norm (l2_norm b))

-- A result of a search: an id and its score.
abbrev pub Scored : Type 0
Scored = FactId × ℕ

-- `valid_ids.contains`
unfoldable pub contains_id : FactId → List FactId → Bool
unfolding id_eq
contains_id id [] = false
contains_id id (i ∷ ids) = id_eq i id || contains_id id ids

unfoldable pub score : List ℕ → Entry → Scored
unfolding cosine_similarity
score query e = (e.id, cosine_similarity query e.embedding (l2_norm query))

unfoldable pub scored : List ℕ → List FactId → List Entry → List Scored
unfolding contains_id score
scored query valid_ids entries =
    map (score query) (keep (λ (e : Entry). contains_id e.id valid_ids) entries)

-- A place in front of the first that does not score higher.
unfoldable pub place : Scored → List Scored → List Scored
unfolding lt
place x [] = x ∷ []
place x (y ∷ ys) = let rest = place x ys in if lt f32 x.1 y.1 then y ∷ rest else x ∷ y ∷ ys

unfoldable pub sorted : List Scored → List Scored
unfolding place
sorted [] = []
sorted (x ∷ xs) = place x (sorted xs)

unfoldable pub has_nan : List Scored → Bool
unfolding is_nan
has_nan [] = false
has_nan (x ∷ xs) = is_nan f32 x.1 || has_nan xs

-- What `sort_by` makes of scores with a NaN among them, which the comparison takes as equal to every
-- other: the library leaves the order open, and may panic (`none`).
abbrev pub Unordered : Type 0
Unordered = List Scored → Option (List Scored)

-- `sort_by`: stable, by descending score.
unfoldable pub sort_scored : Unordered → List Scored → Option (List Scored)
unfolding sorted has_nan
sort_scored unordered xs = if has_nan xs then unordered xs else some (sorted xs)

unfoldable pub search : Unordered → List ℕ → ℕ → List FactId → VectorIndex → Option (List Scored)
unfolding scored sort_scored l2_norm abs
search unordered query k valid_ids index =
    if (k == 0) || is_empty valid_ids || is_empty index.entries || (abs f32 (l2_norm query) == 0)
    then some []
    else Option.map (λ (xs : List Scored). take k xs)
        (sort_scored unordered (scored query valid_ids index.entries))
