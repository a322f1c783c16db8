-- ===== src/Query/Keys.antt =====
-- `subject_predicate_prefix` of crates/core/src/storage_append_log.rs: the prefix under which
-- rows are indexed, and colons in a subject.
use mathlib.Core.List.{append_assoc}
use kronroe.Common.{ℕ, ◌≡◌, ◌≢◌, refl, sym, ap, [], ◌∷◌, ◌++◌, All}
use kronroe.Common.Text.{Text}
use kronroe.Time.{KronroeTimestamp}
use kronroe.Storage.{subject_predicate_prefix}
use kronroe.Log.{AppendLogState}
use kronroe.Query.{current_facts, facts_at}

abbrev pub NoColon : Text → Type 0
NoColon = All (λ c. c ≢ b':')

abbrev head_or : Text → ℕ
head_or [] = 0
head_or (x ∷ xs) = x

abbrev tail_of : Text → Text
tail_of [] = []
tail_of (x ∷ xs) = xs

snoc_cancel : (xs ys : Text) (c : ℕ) → xs ++ c ∷ [] ≡ ys ++ c ∷ [] → xs ≡ ys
snoc_cancel [] [] c e = refl
snoc_cancel [] (y ∷ []) c e = cc
snoc_cancel [] (y ∷ z ∷ ys) c e = cc
snoc_cancel (x ∷ []) [] c e = cc
snoc_cancel (x ∷ z ∷ xs) [] c e = cc
snoc_cancel (x ∷ xs) (y ∷ ys) c e = cc (snoc_cancel xs ys c (ap tail_of e))

colon_cancel :
    (s s' p p' : Text)
    → NoColon s
    → NoColon s'
    → s ++ b':' ∷ p ≡ s' ++ b':' ∷ p'
    → (s ≡ s') × (p ≡ p')
colon_cancel [] [] p p' h h' e = (refl, ap tail_of e)
colon_cancel [] (y ∷ s') p p' h h' e = absurd (h'.0 (sym (ap head_or e)))
colon_cancel (x ∷ s) [] p p' h h' e = absurd (h.0 (ap head_or e))
colon_cancel (x ∷ s) (y ∷ s') p p' h h' e =
    let (es, ep) = colon_cancel s s' p p' h.1 h'.1 (ap tail_of e) in (cc es, ep)

-- Two pairs of a subject without a colon and any predicate that have the same prefix are the
-- same pair.
pub prefix-injective :
    (s p s' p' : Text)
    → NoColon s
    → NoColon s'
    → subject_predicate_prefix s p ≡ subject_predicate_prefix s' p'
    → (s ≡ s') × (p ≡ p')
unfolding subject_predicate_prefix
prefix-injective s p s' p' h h' e =
    let (es, ep) = colon_cancel s s' (p ++ b':' ∷ []) (p' ++ b':' ∷ []) h h' e in
    (es, snoc_cancel p p' b':' ep)

prefix_shift :
    (a b c : Text)
    → subject_predicate_prefix (a ++ b':' ∷ b) c ≡ subject_predicate_prefix a (b ++ b':' ∷ c)
unfolding subject_predicate_prefix
prefix_shift a b c = simp append_assoc

-- For any state and moment, the subject a:b with the predicate c and the subject a with the
-- predicate b:c have the same answers of current_facts and of facts_at.
pub queries_ambiguous :
    (a b c : Text) (at : KronroeTimestamp) (s : AppendLogState)
    → (current_facts (a ++ b':' ∷ b) c s ≡ current_facts a (b ++ b':' ∷ c) s)
      × (facts_at (a ++ b':' ∷ b) c at s ≡ facts_at a (b ++ b':' ∷ c) at s)
unfolding current_facts facts_at
queries_ambiguous a b c at s =
    (rw (prefix_shift a b c, current_facts), rw (prefix_shift a b c, facts_at))
