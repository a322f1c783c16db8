-- ===== src/Vector/Sorted.antt =====
-- crates/core/src/vector.rs: the sort of the results of a search.
use mathlib.Core.List.{Perm}
use mathlib.Core.List.Perm
use kronroe.Common.{
  ℕ, ◌≡◌, refl, ◌∙◌, ap, true, false, List, [], ◌∷◌, map, Bool-cases, inl, inr, arith, All,
}
use kronroe.Float.{f32, abs, lt, is_nan, is_negative}
use kronroe.Vector.{Entry, Scored, place, sorted, has_nan}
use kronroe.Vector.Cosine.{cosine}

-- An entry and its similarity to a query, as a result.
abbrev pub ranked_by : List ℕ → Entry → Scored
ranked_by query e = (e.id, cosine query e.embedding)

-- No result scores higher than one before it.
abbrev pub Descending : List Scored → Type 0
Descending [] = Unit
Descending (x ∷ xs) = All (λ (y : Scored). lt f32 x.1 y.1 ≡ false) xs × Descending xs

lt_trans :
    (a b c : ℕ)
    → is_nan f32 b ≡ false
    → lt f32 a b ≡ false
    → lt f32 b c ≡ false
    → lt f32 a c ≡ false
unfolding lt is_nan is_negative abs
lt_trans a b c n h k = ground arith

lt_asymm : (a b : ℕ) → lt f32 a b ≡ true → lt f32 b a ≡ false
unfolding lt is_nan is_negative abs
lt_asymm a b h = ground arith

place-All :
    (P : Scored → Type 0) (x : Scored) (ys : List Scored) → P x → All P ys → All P (place x ys)
unfolding place
place-All P x [] p h = (p, tt)
place-All P x (y ∷ ys) p h = elim (Bool-cases (lt f32 x.1 y.1)) [
  | inl e ↦ rw e (h.0, place-All P x ys p h.1)
  | inr e ↦ rw e (p, h)
]

abbrev pub IsNumber : Scored → Type 0
IsNumber x = is_nan f32 x.1 ≡ false

-- What does not score higher than a number does not score higher than what that does not.
through :
    (x y : Scored) (zs : List Scored)
    → IsNumber y
    → lt f32 x.1 y.1 ≡ false
    → All (λ (z : Scored). lt f32 y.1 z.1 ≡ false) zs
    → All (λ (z : Scored). lt f32 x.1 z.1 ≡ false) zs
through x y [] n e h = tt
through x y (z ∷ zs) n e h = (lt_trans x.1 y.1 z.1 n e h.0, through x y zs n e h.1)

place-Descending :
    (x : Scored) (ys : List Scored) → All IsNumber ys → Descending ys → Descending (place x ys)
unfolding place
place-Descending x [] n h = (tt, tt)
place-Descending x (y ∷ ys) n h = elim (Bool-cases (lt f32 x.1 y.1)) [
  | inl e ↦ rw e (
    place-All (λ (z : Scored). lt f32 y.1 z.1 ≡ false) x ys (lt_asymm x.1 y.1 e) h.0,
    place-Descending x ys n.1 h.1,
  )
  | inr e ↦ rw e ((e, through x y ys n.0 e h.0), h)
]

pub sorted-Descending :
    (xs : List Scored) → All IsNumber xs → Descending (sorted xs) × All IsNumber (sorted xs)
unfolding sorted
sorted-Descending [] n = (tt, tt)
sorted-Descending (x ∷ xs) n =
    let (d, m) = sorted-Descending xs n.1 in
    (place-Descending x (sorted xs) m d, place-All IsNumber x (sorted xs) n.0 m)

pub no_nan : (xs : List Scored) → All IsNumber xs → has_nan xs ≡ false
unfolding has_nan
no_nan [] n = refl
no_nan (x ∷ xs) n = ground (arith, n.0, no_nan xs n.1)

-- The sort permutes the entries behind the results.
module _ (query : List ℕ) (P : Entry → Type 0) where
  unfoldable pub Behind : List Scored → List Entry → Type 0
  Behind xs es = (zs : List Entry) × Perm zs es × All P zs × (xs ≡ map (ranked_by query) zs)

  place-Behind :
      (e : Entry) (es : List Entry)
      → P e
      → All P es
      → Behind (place (ranked_by query e) (map (ranked_by query) es)) (e ∷ es)
  unfolding place Behind
  place-Behind e [] p h = (e ∷ [], Perm.rfl, (p, tt), refl)
  place-Behind e (f ∷ fs) p h =
      elim (Bool-cases (lt f32 (ranked_by query e).1 (ranked_by query f).1)) [
        | inl q ↦
            let (zs, m, a, r) = place-Behind e fs p h.1 in
            (
              f ∷ zs,
              Perm.trans (Perm.cons f m) (Perm.swap e f fs),
              (h.0, a),
              rw q (ap (λ xs. ranked_by query f ∷ xs) r),
            )
        | inr q ↦ (e ∷ f ∷ fs, Perm.rfl, (p, h), rw q refl)
      ]

  pub sorted-Behind : (es : List Entry) → All P es → Behind (sorted (map (ranked_by query) es)) es
  unfolding sorted Behind
  sorted-Behind [] h = ([], Perm.rfl, tt, refl)
  sorted-Behind (e ∷ es) h =
      let (zs, m, a, r) = sorted-Behind es h.1 in
      let (ws, m', a', r') = place-Behind e zs h.0 a in
      (ws, Perm.trans m' (Perm.cons e m), a', ap (λ xs. place (ranked_by query e) xs) r ∙ r')
