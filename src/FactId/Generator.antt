-- ===== src/FactId/Generator.antt =====
-- crates/core/src/fact_id.rs, `GeneratorState`: the clock readings that its calls make are a
-- list, which ends where the observation ends; the clock may stand still or go back.
use kronroe.Common.{
  ℕ, zero, suc, ◌+◌, ◌*◌, ◌^◌, ◌<◌, ◌≤◌, ◌≡◌, Option, none, some, List, [], ◌∷◌, arith, ltb,
  if◌then◌else◌, Option-cases, inl, inr, ◌++◌, Bool-cases, ltb→lt,
}

pub record GeneratorState : Type 0 where
  pub last_ms : ℕ
  pub sequence : ℕ

abbrev pub new : GeneratorState
new = record { last_ms = 0; sequence = 0 }

abbrev pub u16_max : ℕ
u16_max = 65535

-- The time and sequence number that a call returns, with the state and the readings that are left.
pub record Outcome : Type 0 where
  pub time : ℕ
  pub number : ℕ
  pub state : GeneratorState
  pub rest : List ℕ

-- The reading after those that do not pass `last_ms`.
unfoldable pub wait_until_next_millisecond : ℕ → List ℕ → Option (ℕ × List ℕ)
wait_until_next_millisecond last_ms [] = none
wait_until_next_millisecond last_ms (current ∷ readings) =
    if ltb last_ms current
    then some (current, readings)
    else wait_until_next_millisecond last_ms readings

advance : GeneratorState → ℕ → List ℕ → Outcome
advance st now rest = record {
  time = now;
  number = 0;
  state = record { last_ms = now; sequence = 0 };
  rest = rest;
}

count : GeneratorState → List ℕ → Outcome
count st rest = record {
  time = st.last_ms;
  number = st.sequence + 1;
  state = record st { sequence = st.sequence + 1 };
  rest = rest;
}

-- The loop, with fuel for its rounds: a second round finds the clock past `last_ms`.
unfoldable pub next_parts_loop : ℕ → GeneratorState → ℕ → List ℕ → Option Outcome
unfolding advance count
next_parts_loop zero st now rest = none
next_parts_loop (suc fuel) st now rest =
    if ltb st.last_ms now
    then some (advance st now rest)
    else if ltb st.sequence u16_max
    then some (count st rest)
    else elim (wait_until_next_millisecond st.last_ms rest) [
      | none ↦ none
      | some (current, left) ↦ next_parts_loop fuel st current left
    ]

unfoldable pub next_parts : GeneratorState → List ℕ → Option Outcome
unfolding next_parts_loop wait_until_next_millisecond
next_parts st [] = none
next_parts st (now ∷ rest) = next_parts_loop 2 st now rest

-- The order of the parts: by time, then by sequence number.
abbrev pub stamp : GeneratorState → ℕ
stamp st = st.last_ms * 2 ^ 16 + st.sequence

-- The parts that a number of calls return, oldest first; fewer where the readings end.
unfoldable pub generate : ℕ → GeneratorState → List ℕ → List (ℕ × ℕ)
unfolding next_parts
generate zero st readings = []
generate (suc n) st readings = elim (next_parts st readings) [
  | none ↦ []
  | some o ↦ (o.time, o.number) ∷ generate n o.state o.rest
]

-- Strictly ascending from a bound.
abbrev pub Ascending : ℕ → List (ℕ × ℕ) → Type 0
Ascending bound [] = Unit
Ascending bound ((t, s) ∷ parts) = (bound < t * 2 ^ 16 + s) × Ascending (t * 2 ^ 16 + s) parts

wait_lt :
    (last : ℕ) (readings : List ℕ) (c : ℕ) (left : List ℕ)
    → wait_until_next_millisecond last readings ≡ some (c, left)
    → last < c
unfolding wait_until_next_millisecond
wait_lt last [] c left e = absurd (cc e)
wait_lt last (x ∷ readings) c left e = ground (arith, wait_lt last readings c left)

-- What a call that returns has done: its parts are the new state, and exceed the old one.
pub record Advances (st : GeneratorState) (o : Outcome) : Type 0 where
  pub time_lem : o.time ≡ o.state.last_ms
  pub number_lem : o.number ≡ o.state.sequence
  pub bounded : o.number ≤ u16_max
  pub larger : stamp st < stamp o.state

loop-Advances :
    (fuel : ℕ) (st : GeneratorState) (now : ℕ) (rest : List ℕ) (o : Outcome)
    → st.sequence ≤ u16_max
    → next_parts_loop fuel st now rest ≡ some o
    → Advances st o
unfolding next_parts_loop
loop-Advances zero st now rest o b e = absurd (cc e)
loop-Advances (suc fuel) st now rest o b e =
    elim (Option-cases (wait_until_next_millisecond st.last_ms rest)) [
      | inl w ↦ ground arith
      | inr ((current, left), w) ↦ ground (arith, loop-Advances fuel st current left o b)
    ]

next_parts-Advances :
    (st : GeneratorState) (readings : List ℕ) (o : Outcome)
    → st.sequence ≤ u16_max
    → next_parts st readings ≡ some o
    → Advances st o
unfolding next_parts
next_parts-Advances st [] o b e = absurd (cc e)
next_parts-Advances st (now ∷ rest) o b e = loop-Advances 2 st now rest o b e

-- The time and sequence parts that any number of calls of the generator return are strictly
-- ascending, for any clock readings, standing still or going back included, from a state whose
-- sequence number is at most 65535.
pub generate-Ascending :
    (n : ℕ) (st : GeneratorState) (readings : List ℕ)
    → st.sequence ≤ u16_max
    → Ascending (stamp st) (generate n st readings)
unfolding generate
generate-Ascending zero st readings b = tt
generate-Ascending (suc n) st readings b = elim (Option-cases (next_parts st readings)) [
  | inl e ↦ rw (e, generate) tt
  | inr (o, e) ↦
      let a : Advances st o = next_parts-Advances st readings o b e in
      rw (e, generate) (ground (arith, generate-Ascending n o.state o.rest))
]

-- The first reading past a bound.
wait_finds :
    (last c : ℕ) (before after : List ℕ)
    → last < c
    → (d : ℕ) × (left : List ℕ) × (wait_until_next_millisecond last (before ++ c ∷ after)
        ≡ some (d, left))
      × (last < d)
unfolding wait_until_next_millisecond
wait_finds last c [] after h = (c, after, ground arith, h)
wait_finds last c (x ∷ before) after h = elim (Bool-cases (ltb last x)) [
  | inl e ↦ (x, before ++ c ∷ after, rw e, ltb→lt last x e)
  | inr e ↦ rw e (wait_finds last c before after h)
]

-- A call of the generator returns if the clock is read past the last millisecond at some point
-- after its first reading, within two rounds of its loop.
pub next_parts_returns :
    (st : GeneratorState) (now c : ℕ) (before after : List ℕ)
    → st.last_ms < c
    → (o : Outcome) × (next_parts st (now ∷ before ++ c ∷ after) ≡ some o)
unfolding next_parts next_parts_loop
next_parts_returns st now c before after h =
    let (d, left, e, l) = wait_finds st.last_ms c before after h in
    elim (Bool-cases (ltb st.last_ms now)) [
      | inl p ↦ (advance st now (before ++ c ∷ after), rw p)
      | inr p ↦ elim (Bool-cases (ltb st.sequence u16_max)) [
        | inl q ↦ (count st (before ++ c ∷ after), rw (p, q))
        | inr q ↦ (advance st d left, ground (arith, p, q, e, l))
      ]
    ]
