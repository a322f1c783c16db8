-- ===== src/Lexical/Near.antt =====
-- `is_edit_distance_le_one` of crates/core/src/lexical.rs against the edits that it is to allow.
use mathlib.Core.Path.{subst}
use mathlib.Core.Logic.{◌↔◌}
use kronroe.Common.{
  ℕ, suc, ◌+◌, Bool, true, false, List, [], ◌∷◌, length, drop, ltb, ◌==◌, ◌≡◌, refl, sym, ap, ◌∙◌,
  arith, inl, inr, Bool-cases,
}
use kronroe.Common.Text.{text_eq, text_eq_refl}
use kronroe.Lexical.{Chars, mismatches, one_place, one_skip, is_edit_distance_le_one}

-- At most one edit: a character replaced, added or left out, or two neighbours swapped.
pub data Near : Chars → Chars → Type 0 where
  same : (s : Chars) → Near s s
  further : (x : ℕ) {s t : Chars} → Near s t → Near (x ∷ s) (x ∷ t)
  replaced : (x y : ℕ) (s : Chars) → Near (x ∷ s) (y ∷ s)
  added : (y : ℕ) (s : Chars) → Near s (y ∷ s)
  left_out : (x : ℕ) (s : Chars) → Near (x ∷ s) s
  swapped : (x y : ℕ) (s : Chars) → Near (x ∷ y ∷ s) (y ∷ x ∷ s)

mismatches-same : (s : Chars) (i : ℕ) → mismatches s s i ≡ []
unfolding mismatches
mismatches-same [] i = refl
mismatches-same (x ∷ s) i = ground (arith, mismatches-same s (suc i))

abbrev shifted : List ℕ → List ℕ
shifted [] = []
shifted (i ∷ is) = suc i ∷ shifted is

mismatches-suc : (s t : Chars) (i : ℕ) → mismatches s t (suc i) ≡ shifted (mismatches s t i)
unfolding mismatches
mismatches-suc [] t i = refl
mismatches-suc (x ∷ s) [] i = refl
mismatches-suc (x ∷ s) (y ∷ t) i = elim (Bool-cases (x == y)) [
  | inl e ↦ rw e (mismatches-suc s t (suc i))
  | inr e ↦ rw e (ap (λ (l : List ℕ). suc i ∷ l) (mismatches-suc s t (suc i)))
]

one_place-shifted :
    (x : ℕ) (s t : Chars) (is : List ℕ) → one_place (x ∷ s) (x ∷ t) (shifted is) ≡ one_place s t is
unfolding one_place
one_place-shifted x s t [] = refl
one_place-shifted x s t (i ∷ []) = refl
one_place-shifted x s t (i ∷ j ∷ []) = ground arith
one_place-shifted x s t (i ∷ j ∷ k ∷ is) = refl

-- A common first character does not matter.
further_edit :
    (x : ℕ) (s t : Chars) → is_edit_distance_le_one (x ∷ s) (x ∷ t) ≡ is_edit_distance_le_one s t
unfolding is_edit_distance_le_one text_eq mismatches one_skip
further_edit x s t =
    ground (arith, one_place-shifted x s t (mismatches s t 0), mismatches-suc s t 0)

one_skip-same : (b : Bool) (s : Chars) → one_skip b s s ≡ true
unfolding one_skip
one_skip-same b [] = refl
one_skip-same b (x ∷ s) = ground (arith, one_skip-same b s)

one_skip-added : (y : ℕ) (s : Chars) → one_skip false s (y ∷ s) ≡ true
unfolding one_skip
one_skip-added y [] = refl
one_skip-added y (x ∷ s) = ground (arith, one_skip-added x s, one_skip-same true (x ∷ s))

replaced_edit : (x y : ℕ) (s : Chars) → is_edit_distance_le_one (x ∷ s) (y ∷ s) ≡ true
unfolding is_edit_distance_le_one text_eq mismatches one_place
replaced_edit x y s = ground (arith, text_eq_refl s, mismatches-same s 1)

added_edit : (y : ℕ) (s : Chars) → is_edit_distance_le_one s (y ∷ s) ≡ true
unfolding is_edit_distance_le_one
added_edit y s = ground (arith, one_skip-added y s)

left_out_edit : (x : ℕ) (s : Chars) → is_edit_distance_le_one (x ∷ s) s ≡ true
unfolding is_edit_distance_le_one
left_out_edit x s = ground (arith, one_skip-added x s)

swapped_edit : (x y : ℕ) (s : Chars) → is_edit_distance_le_one (x ∷ y ∷ s) (y ∷ x ∷ s) ≡ true
unfolding is_edit_distance_le_one text_eq mismatches one_place
swapped_edit x y s = ground (arith, text_eq_refl s, mismatches-same s 2)

is_edit_distance_le_one_complete : (s t : Chars) → Near s t → is_edit_distance_le_one s t ≡ true
unfolding is_edit_distance_le_one
is_edit_distance_le_one_complete _ _ (same s) = ground (arith, text_eq_refl s)
is_edit_distance_le_one_complete _ _ (further x {s} {t} n) =
    further_edit x s t ∙ is_edit_distance_le_one_complete s t n
is_edit_distance_le_one_complete _ _ (replaced x y s) = replaced_edit x y s
is_edit_distance_le_one_complete _ _ (added y s) = added_edit y s
is_edit_distance_le_one_complete _ _ (left_out x s) = left_out_edit x s
is_edit_distance_le_one_complete _ _ (swapped x y s) = swapped_edit x y s

no_mismatches : (s t : Chars) (i : ℕ) → length s ≡ length t → mismatches s t i ≡ [] → s ≡ t
unfolding mismatches
no_mismatches [] [] i l e = refl
no_mismatches [] (y ∷ t) i l e = absurd (omega (arith, l))
no_mismatches (x ∷ s) [] i l e = absurd (omega (arith, l))
no_mismatches (x ∷ s) (y ∷ t) i l e = elim (Bool-cases (x == y)) [
  | inl h ↦
      let same_head : x ≡ y = ground (arith, h) in
      let same_tail : s ≡ t = no_mismatches s t (suc i) (omega (arith, l)) (rw h at e) in
      cc (same_head, same_tail)
  | inr h ↦ absurd (cc (rw h at e))
]

one_skip-exact : (s t : Chars) → length s ≡ length t → one_skip true s t ≡ true → s ≡ t
unfolding one_skip
one_skip-exact [] [] l e = refl
one_skip-exact [] (y ∷ t) l e = absurd (omega (arith, l))
one_skip-exact (x ∷ s) [] l e = absurd (omega (arith, l))
one_skip-exact (x ∷ s) (y ∷ t) l e = elim (Bool-cases (x == y)) [
  | inl h ↦
      let same_head : x ≡ y = ground (arith, h) in
      let same_tail : s ≡ t = one_skip-exact s t (omega (arith, l)) (rw h at e) in
      cc (same_head, same_tail)
  | inr h ↦ absurd (cc (rw h at e))
]

-- Two texts of one length with distinct first characters and one or two mismatches that pass.
swap_or_replace :
    (x y : ℕ) (s t : Chars) (more : List ℕ)
    → (x == y) ≡ false
    → length s ≡ length t
    → mismatches s t 1 ≡ more
    → one_place (x ∷ s) (y ∷ t) (0 ∷ more) ≡ true
    → Near (x ∷ s) (y ∷ t)
unfolding one_place
swap_or_replace x y s t [] d l m e =
    subst (λ r. Near (x ∷ s) (y ∷ r)) (no_mismatches s t 1 l m) (replaced x y s)
swap_or_replace x y [] t (j ∷ []) d l m e = absurd (unfold mismatches in cc m)
swap_or_replace x y (a ∷ s) [] (j ∷ []) d l m e = absurd (unfold mismatches in cc m)
swap_or_replace x y (a ∷ s) (b ∷ t) (j ∷ []) d l m e =
    let at_one : j ≡ 1 = ground (arith, e) in
    let crossed : (x ≡ b) × (a ≡ y) = (ground (arith, e, at_one), ground (arith, e, at_one)) in
    let apart : (a == b) ≡ false = ground (arith, d, crossed.0, crossed.1) in
    let rest : mismatches s t 2 ≡ [] =
      unfold mismatches in cc (ap (λ (l : List ℕ). drop 1 l) (rw apart at m)) in
    let tails : s ≡ t = no_mismatches s t 2 (omega (arith, l)) rest in
    let turned : a ∷ x ∷ s ≡ y ∷ b ∷ t = cc (crossed.0, crossed.1, tails) in
    subst (λ r. Near (x ∷ a ∷ s) r) turned (swapped x a s)
swap_or_replace x y s t (j ∷ k ∷ more) d l m e = absurd (cc e)

added_or_left_out :
    (x y : ℕ) (s t : Chars)
    → (x == y) ≡ false
    → length s + 1 ≡ length t
    → one_skip false (x ∷ s) (y ∷ t) ≡ true
    → x ∷ s ≡ t
unfolding one_skip
added_or_left_out x y s t d l e = one_skip-exact (x ∷ s) t (omega (arith, l)) (rw d at e)

distinct_heads :
    (x y : ℕ) (s t : Chars)
    → (x == y) ≡ false
    → is_edit_distance_le_one (x ∷ s) (y ∷ t) ≡ true
    → Near (x ∷ s) (y ∷ t)
unfolding is_edit_distance_le_one
distinct_heads x y s t d e =
    let unequal : text_eq (x ∷ s) (y ∷ t) ≡ false = unfold text_eq in ground (arith, d) in
    elim (Bool-cases (length s == length t)) [
      | inl l ↦
          swap_or_replace x y s t (mismatches s t 1) d (ground arith) refl
            (unfold mismatches in ground (arith, unequal, d, e, l))
      | inr l ↦ elim (Bool-cases (ltb (length s) (length t))) [
        | inl lt ↦
            let by_one : length s + 1 ≡ length t = ground (arith, unequal, l, lt, e) in
            let skips : one_skip false (x ∷ s) (y ∷ t) ≡ true =
              ground (arith, unequal, l, lt, d, e) in
            subst (λ r. Near (x ∷ s) (y ∷ r)) (added_or_left_out x y s t d by_one skips)
              (added y (x ∷ s))
        | inr ge ↦
            let by_one : length t + 1 ≡ length s = ground (arith, unequal, l, ge, e) in
            let skips : one_skip false (y ∷ t) (x ∷ s) ≡ true =
              ground (arith, unequal, l, ge, d, e) in
            let flipped : (y == x) ≡ false = ground (arith, d) in
            subst (λ r. Near (x ∷ r) (y ∷ t)) (added_or_left_out y x t s flipped by_one skips)
              (left_out x (y ∷ t))
      ]
    ]

is_edit_distance_le_one_sound : (s t : Chars) → is_edit_distance_le_one s t ≡ true → Near s t
is_edit_distance_le_one_sound [] [] e = same []
is_edit_distance_le_one_sound [] (y ∷ []) e = added y []
is_edit_distance_le_one_sound [] (y ∷ z ∷ t) e =
    absurd (unfold is_edit_distance_le_one text_eq in ground (arith, e))
is_edit_distance_le_one_sound (x ∷ []) [] e = left_out x []
is_edit_distance_le_one_sound (x ∷ z ∷ s) [] e =
    absurd (unfold is_edit_distance_le_one text_eq in ground (arith, e))
is_edit_distance_le_one_sound (x ∷ s) (y ∷ t) e = elim (Bool-cases (x == y)) [
  | inl h ↦
      let heads : x ≡ y = ground (arith, h) in
      let tails : is_edit_distance_le_one s t ≡ true =
        sym (further_edit x s t)
        ∙ ap (λ (c : ℕ). is_edit_distance_le_one (x ∷ s) (c ∷ t)) heads
        ∙ e in
      subst (λ c. Near (x ∷ s) (c ∷ t)) heads (further x (is_edit_distance_le_one_sound s t tails))
  | inr h ↦ distinct_heads x y s t h e
]

-- The test for an edit distance of at most one passes exactly for two texts that are equal or
-- differ by one character replaced, added or left out, or by two neighbours swapped.
pub is_edit_distance_le_one_lem : (s t : Chars) → (is_edit_distance_le_one s t ≡ true) ↔ Near s t
is_edit_distance_le_one_lem s t =
    (is_edit_distance_le_one_sound s t, is_edit_distance_le_one_complete s t)
