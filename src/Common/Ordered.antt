-- ===== src/Common/Ordered.antt =====
-- The order of the keys of a `BTreeMap`: an insertion keeps the list in it, and no key stands twice.
use mathlib.Core.Path.{◌≡◌, refl, subst}
use mathlib.Core.Bool.{true, false}
use mathlib.Core.Logic.{inl, inr}
use mathlib.Core.List.{[], ◌∷◌}
use mathlib.Core.Option.{none}
use native.Mathlib.Omega.{arith}
use kronroe.Common.Tests.{Bool-cases}
use kronroe.Common.Lists.{All}
use kronroe.Common.Text.{Text, text_eq, text_lt, text_eq_iff}
use kronroe.Common.Map
use kronroe.Common.Map.{Map}

pub text_lt_trans : (a b c : Text) → text_lt a b ≡ true → text_lt b c ≡ true → text_lt a c ≡ true
unfolding text_lt
text_lt_trans a b [] h h' = h'
text_lt_trans a [] (z ∷ c) h h' = absurd (cc h)
text_lt_trans [] (y ∷ b) (z ∷ c) h h' = refl
text_lt_trans (x ∷ a) (y ∷ b) (z ∷ c) h h' = ground (arith, text_lt_trans a b c)

text_lt-eq : (a b : Text) → text_lt a b ≡ true → text_eq a b ≡ false
unfolding text_lt text_eq
text_lt-eq a [] h = absurd (cc h)
text_lt-eq [] (y ∷ b) h = refl
text_lt-eq (x ∷ a) (y ∷ b) h = ground (arith, text_lt-eq a b)

text_lt_total : (a b : Text) → text_lt a b ≡ false → text_eq b a ≡ false → text_lt b a ≡ true
unfolding text_lt text_eq
text_lt_total [] [] h n = absurd (cc n)
text_lt_total [] (y ∷ b) h n = absurd (cc h)
text_lt_total (x ∷ a) [] h n = refl
text_lt_total (x ∷ a) (y ∷ b) h n = ground (arith, text_lt_total a b)

module _ {ℓ} {V : Type ℓ} where
  -- The keys are strictly ascending.
  abbrev pub Sorted : Map V → Type ℓ
  Sorted [] = Unit
  Sorted ((k, v) ∷ m) = All (λ e. text_lt k e.0 ≡ true) m × Sorted m

  All-insert :
      (b k : Text) (v : V) (m : Map V)
      → text_lt b k ≡ true
      → All (λ e. text_lt b e.0 ≡ true) m
      → All (λ e. text_lt b e.0 ≡ true) (Map.insert k v m)
  unfolding Map.insert
  All-insert b k v [] h a = (h, tt)
  All-insert b k v ((j, w) ∷ m) h a = elim (Bool-cases (text_eq j k)) [
    | inl e ↦ rw e (h, a.1)
    | inr e ↦ elim (Bool-cases (text_lt k j)) [
      | inl l ↦ rw (e, l) (h, a)
      | inr g ↦ rw (e, g) (a.0, All-insert b k v m h a.1)
    ]
  ]

  All-below :
      (a b : Text) (m : Map V)
      → text_lt a b ≡ true
      → All (λ e. text_lt b e.0 ≡ true) m
      → All (λ e. text_lt a e.0 ≡ true) m
  All-below a b [] h x = tt
  All-below a b ((j, w) ∷ m) h x = (text_lt_trans a b j h x.0, All-below a b m h x.1)

  pub Sorted-insert : (k : Text) (v : V) (m : Map V) → Sorted m → Sorted (Map.insert k v m)
  unfolding Map.insert
  Sorted-insert k v [] h = (tt, tt)
  Sorted-insert k v ((j, w) ∷ m) h = elim (Bool-cases (text_eq j k)) [
    | inl e ↦
        let same : j ≡ k = (text_eq_iff j k).0 e in
        rw e (subst (λ x. All (λ e. text_lt x e.0 ≡ true) m) same h.0, h.1)
    | inr e ↦ elim (Bool-cases (text_lt k j)) [
      | inl l ↦ rw (e, l) ((l, All-below k j m l h.0), h)
      | inr g ↦ rw (e, g) (All-insert j k v m (text_lt_total k j g e) h.0, Sorted-insert k v m h.1)
    ]
  ]

  -- A key below all others is not among them.
  pub get-below : (k : Text) (m : Map V) → All (λ e. text_lt k e.0 ≡ true) m → Map.get k m ≡ none
  unfolding Map.get
  get-below k [] a = refl
  get-below k ((j, w) ∷ m) a =
      ground (arith, text_lt-eq k j a.0, text_eq_iff k j, text_eq_iff j k, get-below k m a.1)
