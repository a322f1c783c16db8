-- ===== src/Log/Chained.antt =====
-- crates/core/src/storage_append_log.rs, `apply_fact_upsert`: the version chains of
-- `AppendLogState` and the fact table.
use kronroe.Common.{
  ℕ, zero, suc, Bool, true, ◌≡◌, ◌≢◌, refl, Option, none, some, [], ◌∷◌, arith, is_empty,
  if◌then◌else◌, inl, inr, Option-cases, Bool-cases,
}
use kronroe.Common.Text.{Text, text_eq, text_eq_iff}
use kronroe.Common.Map
use kronroe.Common.Map.{Map, get-insert, get-remove}
use kronroe.Fact.{Fact}
use kronroe.Log.{prefix_of, chain_of, insert_into_chain, remove_from_chain}
use kronroe.Log.Versions.{
  Chain, insert_at, remove_first, count, Ordered, count-insert_at, count-remove_first,
  remove_first-Ordered, Ordered-insert_row, insertion-Ordered,
}
use kronroe.Log.Upsert.{belongs}

abbrev pub one_if : Bool → ℕ
one_if b = if b then 1 else 0

-- The chain of a prefix has the keys of its rows, each once, in the order of their starts.
pub record Chains (facts : Map Fact) (chains : Map Chain) : Type 0 where
  pub exact :
      (p key : Text)
      → count key (chain_of p chains) ≡ one_if (belongs (λ f. true) p (Map.get key facts))
  pub ordered : (p : Text) → Ordered facts (chain_of p chains)
  pub non_empty : (p : Text) → Map.get p chains ≢ some []

abbrev pub without_version : Text → Option Fact → Map Chain → Map Chain
without_version key none chains = chains
without_version key (some previous) chains = remove_from_chain (prefix_of previous) key chains

is_empty_eq : (chain : Chain) → is_empty chain ≡ true → chain ≡ []
is_empty_eq [] e = refl
is_empty_eq (x ∷ chain) e = absurd (cc e)

remove_first-nil : (key : Text) → remove_first key [] ≡ []
unfolding remove_first
remove_first-nil key = refl

chain_of-remove :
    (p key q : Text) (chains : Map Chain)
    → chain_of q (remove_from_chain p key chains)
      ≡ (if text_eq p q then remove_first key (chain_of q chains) else chain_of q chains)
unfolding remove_from_chain
chain_of-remove p key q chains = elim (Option-cases (Map.get p chains)) [
  | inl e ↦ ground (arith, text_eq_iff p q, remove_first-nil key)
  | inr (chain, e) ↦ ground (
    arith,
    text_eq_iff p q,
    get-remove p q chains,
    get-insert p q (remove_first key chain) chains,
    is_empty_eq (remove_first key chain),
  )
]

remove_from_chain_non_empty :
    (p key : Text) (chains : Map Chain)
    → ((q : Text) → Map.get q chains ≢ some [])
    → (q : Text) → Map.get q (remove_from_chain p key chains) ≢ some []
unfolding remove_from_chain
remove_from_chain_non_empty p key chains h q = elim (Option-cases (Map.get p chains)) [
  | inl e ↦ rw (e, remove_from_chain) (h q)
  | inr (chain, e) ↦ λ n.
      ground (arith, h q, get-remove p q chains, get-insert p q (remove_first key chain) chains)
]

insert_at_ne_nil : (i : ℕ) (key : Text) (chain : Chain) → insert_at i key chain ≢ []
unfolding insert_at
insert_at_ne_nil zero key chain e = cc e
insert_at_ne_nil (suc i) key [] e = cc e
insert_at_ne_nil (suc i) key (x ∷ chain) e = cc e

module _ (facts : Map Fact) (key : Text) (fact : Fact) (chains : Map Chain)
    (h : Chains facts chains) where
  abbrev rest : Map Chain
  rest = without_version key (Map.get key facts) chains

  rest_count :
      (p j : Text)
      → count j (chain_of p rest)
        ≡ (if text_eq key j then 0 else one_if (belongs (λ f. true) p (Map.get j facts)))
  rest_count p j = elim (Option-cases (Map.get key facts)) [
    | inl e ↦ rw e (ground (arith, h.exact p j, text_eq_iff key j, e))
    | inr (previous, e) ↦ rw e (
        ground (
          arith,
          chain_of-remove (prefix_of previous) key p chains,
          count-remove_first key j (chain_of p chains),
          h.exact p j,
          text_eq_iff key j,
          text_eq_iff (prefix_of previous) p,
          e,
        ))
  ]

  rest-Ordered : (p : Text) → Ordered facts (chain_of p rest)
  rest-Ordered p = elim (Option-cases (Map.get key facts)) [
    | inl e ↦ rw e (h.ordered p)
    | inr (previous, e) ↦
        rw (e, chain_of-remove (prefix_of previous) key p chains)
          (elim (Bool-cases (text_eq (prefix_of previous) p)) [
            | inl same ↦ rw same (remove_first-Ordered facts key (chain_of p chains) (h.ordered p))
            | inr other ↦ rw other (h.ordered p)
          ])
  ]

  rest_non_empty : (p : Text) → Map.get p rest ≢ some []
  rest_non_empty p = elim (Option-cases (Map.get key facts)) [
    | inl e ↦ rw e (h.non_empty p)
    | inr (previous, e) ↦
        rw e (remove_from_chain_non_empty (prefix_of previous) key chains h.non_empty p)
  ]

  abbrev new_facts : Map Fact
  new_facts = Map.insert key fact facts

  moved-Ordered : (p : Text) → Ordered new_facts (chain_of p rest)
  moved-Ordered p =
      Ordered-insert_row facts key fact (chain_of p rest)
        (ground (arith, rest_count p key, text_eq_iff key key)) (rest-Ordered p)

  abbrev inserted : ℕ → Map Chain
  inserted i = Map.insert (prefix_of fact) (insert_at i key (chain_of (prefix_of fact) rest)) rest

  inserted-Chains :
      (i : ℕ)
      → Ordered new_facts (insert_at i key (chain_of (prefix_of fact) rest))
      → Chains new_facts (inserted i)
  inserted-Chains i o = record {
    exact = λ p j. ground (
      arith,
      get-insert (prefix_of fact) p (insert_at i key (chain_of (prefix_of fact) rest)) rest,
      count-insert_at i key j (chain_of (prefix_of fact) rest),
      rest_count p j,
      get-insert key j fact facts,
      text_eq_iff key j,
      text_eq_iff (prefix_of fact) p,
    );
    ordered = λ p.
        rw (get-insert (prefix_of fact) p (insert_at i key (chain_of (prefix_of fact) rest)) rest)
          (elim (Bool-cases (text_eq (prefix_of fact) p)) [
            | inl same ↦ rw same o
            | inr other ↦ rw other (moved-Ordered p)
          ]);
    non_empty = λ p n. ground (
      arith,
      get-insert (prefix_of fact) p (insert_at i key (chain_of (prefix_of fact) rest)) rest,
      rest_non_empty p,
      insert_at_ne_nil i key (chain_of (prefix_of fact) rest),
    );
  }

  -- An upsert finds the place of the row in its chain without a panic, and keeps the chains exact
  -- and in order.
  pub upsert-Chains :
      (chains' : Map Chain) × (insert_into_chain key fact new_facts rest ≡ some chains')
      × Chains new_facts chains'
  unfolding insert_into_chain
  upsert-Chains =
      let stored : Map.get key new_facts ≡ some fact =
        ground (arith, get-insert key key fact facts, text_eq_iff key key) in
      let (i, e, o) =
        insertion-Ordered new_facts key fact (chain_of (prefix_of fact) rest) stored
          (moved-Ordered (prefix_of fact)) in
      (inserted i, rw (e, insert_into_chain), inserted-Chains i o)
