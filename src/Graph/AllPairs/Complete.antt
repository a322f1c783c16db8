-- ===== src/Graph/AllPairs/Complete.antt =====
-- crates/core/src/temporal_graph.rs: that the groups of `detect_all_contradictions` lose no pair.
use mathlib.Core.List.{Perm, append_assoc, perm_append_comm}
use mathlib.Core.List.Perm
use kronroe.Common.{
  ◌≡◌, refl, ◌∙◌, sym, ap, true, false, Option, none, some, List, [], ◌∷◌, ◌++◌, if◌then◌else◌,
  Bool-cases, Option-cases, inl, inr, arith,
}
use kronroe.Common.Text.{text_eq_iff}
use kronroe.Fact.{Fact}
use kronroe.Contradiction.{Contradiction, detect_pairwise}
use kronroe.Graph.Singletons.{all_pairs, conflicts_after}
use kronroe.Graph.AllPairs.{Group, is_of, push_fact, grouped, pairs_of_groups}

abbrev pub reported : Option Contradiction → List Contradiction
reported none = []
reported (some c) = c ∷ []

-- What a fact adds behind others.
conflicts_to : Fact → List Fact → List Contradiction
conflicts_to f [] = []
conflicts_to f (x ∷ xs) = reported (detect_pairwise x f) ++ conflicts_to f xs

-- The facts of the group that a fact goes into.
group_of : Fact → List Group → List Fact
group_of f [] = []
group_of f (g ∷ gs) = if is_of f g then g.facts else group_of f gs

conflicts_to-append :
    (f : Fact) (xs ys : List Fact)
    → conflicts_to f (xs ++ ys) ≡ conflicts_to f xs ++ conflicts_to f ys
unfolding conflicts_to
conflicts_to-append f [] ys = refl
conflicts_to-append f (x ∷ xs) ys =
    ap (λ cs. reported (detect_pairwise x f) ++ cs) (conflicts_to-append f xs ys)
    ∙ sym (append_assoc (reported (detect_pairwise x f)) (conflicts_to f xs) (conflicts_to f ys))

none_behind : {A : Type 0} (xs : List A) → xs ++ [] ≡ xs
none_behind [] = refl
none_behind (x ∷ xs) = ap (λ ys. x ∷ ys) (none_behind xs)

-- Facts of other groups are in no conflict.
detect-other :
    (a b : Fact) (g : Group) → is_of a g ≡ true → is_of b g ≡ false → detect_pairwise a b ≡ none
unfolding detect_pairwise
detect-other a b g h k = ground (
  arith,
  text_eq_iff a.subject g.subject,
  text_eq_iff a.predicate g.predicate,
  text_eq_iff b.subject g.subject,
  text_eq_iff b.predicate g.predicate,
  text_eq_iff a.subject b.subject,
  text_eq_iff a.predicate b.predicate,
)

other-detect :
    (a b : Fact) (g : Group) → is_of a g ≡ false → is_of b g ≡ true → detect_pairwise a b ≡ none
unfolding detect_pairwise
other-detect a b g h k = ground (
  arith,
  text_eq_iff a.subject g.subject,
  text_eq_iff a.predicate g.predicate,
  text_eq_iff b.subject g.subject,
  text_eq_iff b.predicate g.predicate,
  text_eq_iff a.subject b.subject,
  text_eq_iff a.predicate b.predicate,
)

-- The group of one fact alone.
abbrev alone : Fact → Group
alone f = record { subject = f.subject; predicate = f.predicate; facts = f ∷ [] }

alone-is_of : (f : Fact) → is_of f (alone f) ≡ true
alone-is_of f = ground (arith, text_eq_iff f.subject f.subject, text_eq_iff f.predicate f.predicate)

-- A fact that finds nothing where it goes.
nothing_new :
    (x f : Fact) (xs : List Fact)
    → detect_pairwise x f ≡ none
    → conflicts_to f xs ≡ conflicts_to f xs ++ reported (detect_pairwise x f)
nothing_new x f xs e =
    sym (none_behind (conflicts_to f xs)) ∙ ap (λ o. conflicts_to f xs ++ reported o) (sym e)

one_more :
    (x f : Fact) (xs : List Fact)
    → conflicts_to f (xs ++ (x ∷ [])) ≡ conflicts_to f xs ++ reported (detect_pairwise x f)
unfolding conflicts_to
one_more x f xs =
    conflicts_to-append f xs (x ∷ [])
    ∙ ap (λ cs. conflicts_to f xs ++ cs) (none_behind (reported (detect_pairwise x f)))

-- A fact is put into its group and no other.
group_of-push_fact :
    (f x : Fact) (gs : List Group)
    → conflicts_to f (group_of f (push_fact x gs))
      ≡ conflicts_to f (group_of f gs) ++ reported (detect_pairwise x f)
unfolding push_fact group_of
group_of-push_fact f x [] = elim (Bool-cases (is_of f (alone x))) [
  | inl e ↦ rw e (one_more x f [])
  | inr e ↦ rw e (nothing_new x f [] (detect-other x f (alone x) (alone-is_of x) e))
]
group_of-push_fact f x (g ∷ gs) = elim (Bool-cases (is_of x g)) [
  | inl p ↦ elim (Bool-cases (is_of f g)) [
    | inl e ↦ rw (p, e) (one_more x f g.facts)
    | inr e ↦ rw (p, e) (nothing_new x f (group_of f gs) (detect-other x f g p e))
  ]
  | inr p ↦ elim (Bool-cases (is_of f g)) [
    | inl e ↦ rw (p, e) (nothing_new x f g.facts (other-detect x f g p e))
    | inr e ↦ rw (p, e) (group_of-push_fact f x gs)
  ]
]

module _ {A : Type 0} where
  -- Blocks of a list change places.
  middle : (a b c d : List A) → Perm ((a ++ b) ++ (c ++ d)) ((a ++ c) ++ (b ++ d))
  middle a b c d =
      rw (append_assoc a b (c ++ d), append_assoc a c (b ++ d))
        (Perm.append_left a (
          rw (sym (append_assoc b c d), sym (append_assoc c b d))
            (Perm.append_right d (perm_append_comm b c))))

  back : (a b c : List A) → Perm ((a ++ b) ++ c) ((a ++ c) ++ b)
  back a b c =
      rw (append_assoc a b c, append_assoc a c b) (Perm.append_left a (perm_append_comm b c))

conflicts_after-append :
    (x f : Fact) (xs : List Fact)
    → conflicts_after x (xs ++ (f ∷ [])) ≡ conflicts_after x xs ++ reported (detect_pairwise x f)
unfolding conflicts_after
conflicts_after-append x f [] = elim (Option-cases (detect_pairwise x f)) [
  | inl e ↦ ground (arith, e)
  | inr (c, e) ↦ ground (arith, e)
]
conflicts_after-append x f (y ∷ ys) = elim (Option-cases (detect_pairwise x y)) [
  | inl e ↦ ground (arith, e, conflicts_after-append x f ys)
  | inr (c, e) ↦ ground (arith, e, conflicts_after-append x f ys)
]

all_pairs-append :
    (f : Fact) (xs : List Fact)
    → Perm (all_pairs (xs ++ (f ∷ []))) (all_pairs xs ++ conflicts_to f xs)
unfolding all_pairs conflicts_to conflicts_after
all_pairs-append f [] = Perm.rfl
all_pairs-append f (x ∷ xs) = rw (conflicts_after-append x f xs) (
    Perm.trans
      (Perm.append_left (conflicts_after x xs ++ reported (detect_pairwise x f))
        (all_pairs-append f xs))
      (middle (conflicts_after x xs) (reported (detect_pairwise x f)) (all_pairs xs)
        (conflicts_to f xs)))

pairs-push_fact :
    (f : Fact) (gs : List Group)
    → Perm (pairs_of_groups (push_fact f gs)) (pairs_of_groups gs ++ conflicts_to f (group_of f gs))
unfolding pairs_of_groups push_fact group_of conflicts_to all_pairs conflicts_after
pairs-push_fact f [] = Perm.rfl
pairs-push_fact f (g ∷ gs) = elim (Bool-cases (is_of f g)) [
  | inl e ↦ rw e (
      Perm.trans (Perm.append_right (pairs_of_groups gs) (all_pairs-append f g.facts))
        (back (all_pairs g.facts) (conflicts_to f g.facts) (pairs_of_groups gs)))
  | inr e ↦
      rw (e, append_assoc (all_pairs g.facts) (pairs_of_groups gs) (conflicts_to f (group_of f gs)))
        (Perm.append_left (all_pairs g.facts) (pairs-push_fact f gs))
]

grouped-Perm :
    (gs : List Group) (seen fs : List Fact)
    → ((f : Fact) → conflicts_to f (group_of f gs) ≡ conflicts_to f seen)
    → Perm (pairs_of_groups gs) (all_pairs seen)
    → Perm (pairs_of_groups (grouped gs fs)) (all_pairs (seen ++ fs))
unfolding grouped
grouped-Perm gs seen [] h p = rw (none_behind seen) p
grouped-Perm gs seen (x ∷ fs) h p = rw (sym (append_assoc seen (x ∷ []) fs)) (
    grouped-Perm (push_fact x gs) (seen ++ (x ∷ [])) fs
      (λ f.
        group_of-push_fact f x gs
        ∙ ap (λ cs. cs ++ reported (detect_pairwise x f)) (h f)
        ∙ sym (one_more x f seen))
      (Perm.trans (pairs-push_fact x gs) (
        Perm.trans (rw (h x) (Perm.append_right (conflicts_to x seen) p))
          (Perm.symm (all_pairs-append x seen)))))

-- The pairs within the groups are the pairs of all facts.
pub pairs-grouped : (fs : List Fact) → Perm (pairs_of_groups (grouped [] fs)) (all_pairs fs)
unfolding pairs_of_groups all_pairs group_of conflicts_to
pairs-grouped fs = grouped-Perm [] [] fs (λ f. refl) Perm.rfl
