-- ===== src/Examples/FactIds.antt =====
-- Runs of the fact id theorems.
use kronroe.Common.{zero, suc, ℕ, ◌≡◌, refl, some, List, [], ◌∷◌, ◌++◌, arith, true}
use kronroe.Common.Text.{text_lt}
use kronroe.FactId.{ok, parse, encode_text, from_be_bytes}
use kronroe.FactId.Codec.{Bytes, parse-encode_text}
use kronroe.FactId.Order.{encode_text_mono}
use kronroe.FactId.Generator
use kronroe.FactId.Generator.{
  GeneratorState, Outcome, generate, generate-Ascending, Ascending, stamp, next_parts,
  next_parts_returns,
}

abbrev zeros : ℕ → List ℕ → List ℕ
zeros zero tail = tail
zeros (suc n) tail = 0 ∷ zeros n tail

abbrev low_bytes : List ℕ
low_bytes = zeros 15 (1 ∷ [])

abbrev high_bytes : List ℕ
high_bytes = 255 ∷ zeros 14 (7 ∷ [])

high_bytes-Bytes : Bytes high_bytes
high_bytes-Bytes = ground arith

parse-encode_text_example :
    parse (encode_text high_bytes)
    ≡ ok (record { bytes = high_bytes; text = encode_text high_bytes })
parse-encode_text_example = parse-encode_text high_bytes high_bytes-Bytes refl

encode_text_mono_example : text_lt (encode_text low_bytes) (encode_text high_bytes) ≡ true
encode_text_mono_example =
    encode_text_mono low_bytes high_bytes high_bytes-Bytes refl
      (unfold from_be_bytes in omega arith)

-- The clock stands still, then goes back, then moves on.
generate-Ascending_example :
    Ascending (stamp Generator.new) (generate 4 Generator.new (5 ∷ 5 ∷ 4 ∷ 6 ∷ []))
generate-Ascending_example = generate-Ascending 4 Generator.new (5 ∷ 5 ∷ 4 ∷ 6 ∷ []) (omega arith)

abbrev exhausted : GeneratorState
exhausted = record { last_ms = 5; sequence = 65535 }

next_parts_returns_example :
    (o : Outcome) × (next_parts exhausted (5 ∷ (5 ∷ 4 ∷ []) ++ 6 ∷ []) ≡ some o)
next_parts_returns_example = next_parts_returns exhausted 5 6 (5 ∷ 4 ∷ []) [] (omega arith)
