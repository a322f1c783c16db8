-- ===== src/Log/Versions.antt =====
-- crates/core/src/storage_append_log.rs: the version chains of `AppendLogState`, the keys of the
-- fact rows under one subject and predicate in the order of `valid_from`.
use kronroe.Common.{
  ℕ, zero, suc, ◌-◌, true, false, ◌≡◌, refl, Option, none, some, List, [], ◌∷◌, arith,
  if◌then◌else◌, inl, inr, Option-cases, Bool-cases, All, is_some,
}
use kronroe.Common.Int.{ℤ, ◌≤ℤ◌}
use kronroe.Common.Text.{Text, text_eq, text_eq_iff}
use kronroe.Common.Map
use kronroe.Common.Map.{Map, get-insert}
use kronroe.Time.{KronroeTimestamp, not_after, min_timestamp}
use kronroe.Fact.{Fact}

abbrev pub Chain : Type 0
Chain = List Text

-- `chain.partition_point(|key| facts.get(key).expect(…).valid_from <= at)`: the number of keys in
-- front that pass, `none` where `expect` panics. The chain is ordered, so that the binary search of
-- the library finds the same point.
unfoldable pub insertion_index : Map Fact → KronroeTimestamp → Chain → Option ℕ
insertion_index facts at [] = some 0
insertion_index facts at (key ∷ chain) = elim (Map.get key facts) [
  | none ↦ none
  | some existing ↦
      let rest = insertion_index facts at chain in
      if not_after existing.valid_from at
      then elim rest [ none ↦ none | some i ↦ some (suc i) ]
      else some 0
]

-- `chain.insert(index, key)`
unfoldable pub insert_at : ℕ → Text → Chain → Chain
insert_at zero key chain = key ∷ chain
insert_at (suc i) key [] = key ∷ []
insert_at (suc i) key (j ∷ chain) = j ∷ insert_at i key chain

-- `if let Some(position) = chain.iter().position(|j| j == key) { chain.remove(position); }`
unfoldable pub remove_first : Text → Chain → Chain
remove_first key [] = []
remove_first key (j ∷ chain) = if text_eq j key then chain else j ∷ remove_first key chain

-- `chain.partition_point(|key| facts.get(key).map(|f| f.valid_from <= at).unwrap_or(false))`
unfoldable pub upper_bound : Map Fact → KronroeTimestamp → Chain → ℕ
upper_bound facts at [] = 0
upper_bound facts at (key ∷ chain) =
    let rest = upper_bound facts at chain in
    elim (Map.get key facts) [
      | none ↦ 0
      | some fact ↦ if not_after fact.valid_from at then suc rest else 0
    ]

-- How often a key stands in a chain.
unfoldable pub count : Text → Chain → ℕ
count key [] = 0
count key (j ∷ chain) = if text_eq j key then suc (count key chain) else count key chain

-- The start of a key's row in valid time.
abbrev pub start : Map Fact → Text → ℤ
start facts key = elim (Map.get key facts) [
  | none ↦ min_timestamp.unix_micros
  | some fact ↦ fact.valid_from.unix_micros
]

-- Every key has a row, and none starts before a key in front of it.
abbrev pub Ordered : Map Fact → Chain → Type 0
Ordered facts [] = Unit
Ordered facts (key ∷ chain) =
    (is_some (Map.get key facts) ≡ true)
    × All (λ j. start facts key ≤ℤ start facts j) chain
    × Ordered facts chain

pub count-insert_at :
    (i : ℕ) (key j : Text) (chain : Chain)
    → count j (insert_at i key chain)
      ≡ (if text_eq key j then suc (count j chain) else count j chain)
unfolding count insert_at
count-insert_at zero key j chain = refl
count-insert_at (suc i) key j [] = refl
count-insert_at (suc i) key j (x ∷ chain) = ground (arith, count-insert_at i key j chain)

pub count-remove_first :
    (key j : Text) (chain : Chain)
    → count j (remove_first key chain)
      ≡ (if text_eq key j then count j chain - 1 else count j chain)
unfolding count remove_first
count-remove_first key j [] = ground arith
count-remove_first key j (x ∷ chain) =
    ground
      (arith, text_eq_iff x key, text_eq_iff x j, text_eq_iff key j, count-remove_first key j chain)

All-remove_first {ℓ} :
    (P : Text → Type ℓ) (key : Text) (chain : Chain) → All P chain → All P (remove_first key chain)
unfolding remove_first
All-remove_first P key [] h = tt
All-remove_first P key (x ∷ chain) h = elim (Bool-cases (text_eq x key)) [
  | inl e ↦ rw e h.1
  | inr e ↦ rw e (h.0, All-remove_first P key chain h.1)
]

pub remove_first-Ordered :
    (facts : Map Fact) (key : Text) (chain : Chain)
    → Ordered facts chain
    → Ordered facts (remove_first key chain)
unfolding remove_first
remove_first-Ordered facts key [] h = tt
remove_first-Ordered facts key (x ∷ chain) h = elim (Bool-cases (text_eq x key)) [
  | inl e ↦ rw e h.2
  | inr e ↦ rw e (h.0, All-remove_first _ key chain h.1, remove_first-Ordered facts key chain h.2)
]

-- Rows of keys that a chain does not have do not matter to it.
All-start-insert :
    (facts : Map Fact) (key : Text) (fact : Fact) (low : ℤ) (chain : Chain)
    → count key chain ≡ 0
    → All (λ j. low ≤ℤ start facts j) chain
    → All (λ j. low ≤ℤ start (Map.insert key fact facts) j) chain
unfolding count
All-start-insert facts key fact low [] n h = tt
All-start-insert facts key fact low (x ∷ chain) n h = (
  ground (arith, get-insert key x fact facts, text_eq_iff x key, text_eq_iff key x),
  All-start-insert facts key fact low chain (ground arith) h.1,
)

All-start_mono :
    (facts : Map Fact) (low high : ℤ) (chain : Chain)
    → low ≤ℤ high
    → All (λ j. high ≤ℤ start facts j) chain
    → All (λ j. low ≤ℤ start facts j) chain
All-start_mono facts low high [] l h = tt
All-start_mono facts low high (x ∷ chain) l h =
    (omega (arith, h.0, l), All-start_mono facts low high chain l h.1)

get-insert_ne :
    (facts : Map Fact) (key : Text) (fact : Fact) (x : Text)
    → text_eq x key ≡ false
    → Map.get x (Map.insert key fact facts) ≡ Map.get x facts
get-insert_ne facts key fact x h =
    ground (arith, get-insert key x fact facts, text_eq_iff x key, text_eq_iff key x)

pub Ordered-insert_row :
    (facts : Map Fact) (key : Text) (fact : Fact) (chain : Chain)
    → count key chain ≡ 0
    → Ordered facts chain
    → Ordered (Map.insert key fact facts) chain
unfolding count
Ordered-insert_row facts key fact [] n h = tt
Ordered-insert_row facts key fact (x ∷ chain) n h =
    let other : text_eq x key ≡ false = ground arith in
    let none_left : count key chain ≡ 0 = ground arith in
    let same : Map.get x (Map.insert key fact facts) ≡ Map.get x facts =
      get-insert_ne facts key fact x other in
    (
      ground (arith, same, h.0),
      All-start_mono (Map.insert key fact facts) (start (Map.insert key fact facts) x)
          (start facts x) chain (ground (arith, same))
          (All-start-insert facts key fact (start facts x) chain none_left h.1),
      Ordered-insert_row facts key fact chain none_left h.2,
    )

All-insert_at {ℓ} :
    (P : Text → Type ℓ) (i : ℕ) (key : Text) (chain : Chain)
    → P key
    → All P chain
    → All P (insert_at i key chain)
unfolding insert_at
All-insert_at P zero key chain p h = (p, h)
All-insert_at P (suc i) key [] p h = (p, tt)
All-insert_at P (suc i) key (x ∷ chain) p h = (h.0, All-insert_at P i key chain p h.1)

-- Inserting a stored row at its place never panics and keeps the order.
pub insertion-Ordered :
    (facts : Map Fact) (key : Text) (fact : Fact) (chain : Chain)
    → Map.get key facts ≡ some fact
    → Ordered facts chain
    → (i : ℕ) × (insertion_index facts fact.valid_from chain ≡ some i)
      × Ordered facts (insert_at i key chain)
unfolding insertion_index insert_at
insertion-Ordered facts key fact [] g h = (0, refl, (ground arith, tt, tt))
insertion-Ordered facts key fact (x ∷ chain) g h = elim (Option-cases (Map.get x facts)) [
  | inl e ↦ absurd (ground (arith, h.0))
  | inr (existing, e) ↦ elim (Bool-cases (not_after existing.valid_from fact.valid_from)) [
    | inl l ↦
        let (i, at, o) = insertion-Ordered facts key fact chain g h.2 in
        (
          suc i,
          ground arith,
          (
            h.0,
            All-insert_at (λ j. start facts x ≤ℤ start facts j) i key chain (ground arith) h.1,
            o,
          ),
        )
    | inr l ↦ (
      0,
      ground arith,
      (
        ground arith,
        (
          ground arith,
          All-start_mono facts (start facts key) (start facts x) chain (ground arith) h.1,
        ),
        h,
      ),
    )
  ]
]
