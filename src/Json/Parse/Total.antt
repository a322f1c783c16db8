-- ===== src/Json/Parse/Total.antt =====
-- crates/core/src/json_read.rs: what each parser leaves of the input, and the fuel of `parse`.
use kronroe.Common.{
  ℕ, zero, suc, ◌+◌, ◌*◌, ◌≤◌, ◌≢◌, Bool, ◌<◌, if◌then◌else◌, true, false, [], ◌∷◌, length, ◌==◌,
  arith,
}
use kronroe.Common.Utf8.{is_utf8}
use kronroe.Common.Text.{Text}
use kronroe.Json.Scan.{skip_whitespace, expect, parse_string}
use kronroe.Json.Parse.{
  separator, value_at, opened, entry_end, parse_key, parse_separator, parse_value, parse_object,
  parse_members, parse_array, parse_elements, parse, finish, Parser,
}
use kronroe.Json.{
  err, ParseError, object, array, JsonValue, Elements, Members, empty, nil, push, insert_member,
  ParseError, Outcome, out_of_fuel, ◌>>=◌,
}
use kronroe.Json.Scan.Bounds.{
  left, failed, stopped, Leaves, Leaves-bind, Leaves-if, skip_whitespace_le, expect-bind,
  parse_string-Leaves,
}
use kronroe.Json.Parse.Leaves.{parse_scalar-Leaves}

parse_key-Leaves : (n : ℕ) (t : Text) → length t ≤ suc n → Leaves n (parse_key t)
unfolding parse_key
parse_key-Leaves n t h =
    Leaves-bind n n (parse_string (skip_whitespace t)) _
      (parse_string-Leaves n (skip_whitespace t) (omega (arith, skip_whitespace_le t)))
      λ key rest le.
        expect-bind b':' n n (skip_whitespace rest) _ (omega (arith, skip_whitespace_le rest))
          (λ after le'. left key after le')

separator-Leaves : (n c : ℕ) (t : Text) → length t ≤ suc n → Leaves n (separator c t)
unfolding separator
separator-Leaves n c [] h = failed _
separator-Leaves n c (b ∷ bs) h =
    Leaves-if n (b == b',') _ _ (left false bs (omega arith))
      (Leaves-if n (b == c) _ _ (left true bs (omega arith)) (failed _))

entry_end-Leaves :
    (n : ℕ) (again : Parser) (whole : JsonValue) (last : Bool) (t : Text)
    → length t ≤ n
    → Leaves n (again t)
    → Leaves n (entry_end again whole (last, t))
unfolding entry_end
entry_end-Leaves n again whole true t h g = left whole t h
entry_end-Leaves n again whole false t h g = g

opened-Leaves :
    (n c : ℕ) (nothing : JsonValue) (entries : Parser) (t : Text)
    → length t ≤ n
    → Leaves n (entries t)
    → Leaves n (opened c nothing entries t)
unfolding opened
opened-Leaves n c nothing entries [] h g = g
opened-Leaves n c nothing entries (b ∷ bs) h g =
    Leaves-if n (b == c) _ _ (left nothing bs (omega arith)) g

value_at-Leaves :
    (n : ℕ) (objects arrays : Parser) (t : Text)
    → length t ≤ suc n
    → ((t' : Text) → length t' ≤ n → suc (length t') ≤ length t → Leaves n (objects t'))
    → ((t' : Text) → length t' ≤ n → suc (length t') ≤ length t → Leaves n (arrays t'))
    → Leaves n (value_at objects arrays t)
unfolding value_at
value_at-Leaves n objects arrays [] h g f = failed _
value_at-Leaves n objects arrays (c ∷ cs) h g f =
    Leaves-if n (c == b'{') _ _ (g cs (omega arith) (omega arith)) (
      Leaves-if n (c == b'[') _ _ (f cs (omega arith) (omega arith))
        (parse_scalar-Leaves n (c ∷ cs) h))

mutual
  unfolding parse_value parse_separator parse_key parse_string expect skip_whitespace value_at
      entry_end

  value-Leaves :
      (fuel n : ℕ) (t : Text)
      → 3 * length t < fuel
      → length t ≤ suc n
      → Leaves n (parse_value fuel t)
  value-Leaves zero n t f h = absurd (omega arith)
  value-Leaves (suc fuel) n t f h =
      value_at-Leaves n (parse_object fuel) (parse_array fuel) (skip_whitespace t)
        (omega (arith, skip_whitespace_le t))
        (λ t' le lt. object-Leaves fuel n t' (omega (arith, skip_whitespace_le t)) le)
        (λ t' le lt. array-Leaves fuel n t' (omega (arith, skip_whitespace_le t)) le)

  object-Leaves :
      (fuel n : ℕ) (t : Text)
      → 3 * length t + 2 < fuel
      → length t ≤ n
      → Leaves n (parse_object fuel t)
  object-Leaves zero n t f h = absurd (omega arith)
  object-Leaves (suc fuel) n t f h =
      opened-Leaves n b'}' _ (parse_members fuel empty) (skip_whitespace t)
        (omega (arith, skip_whitespace_le t))
        (members-Leaves fuel n empty (skip_whitespace t) (omega (arith, skip_whitespace_le t))
          (omega (arith, skip_whitespace_le t)))

  members-Leaves :
      (fuel n : ℕ) (map : Members) (t : Text)
      → 3 * length t + 1 < fuel
      → length t ≤ n
      → Leaves n (parse_members fuel map t)
  members-Leaves zero n map t f h = absurd (omega arith)
  members-Leaves (suc fuel) n map [] f h = failed _
  members-Leaves (suc fuel) n map (b ∷ bs) f h =
      let k = length bs in
      Leaves-bind k n (parse_key (b ∷ bs)) _ (parse_key-Leaves k (b ∷ bs) (omega arith))
        λ key t1 h1.
          Leaves-bind k n (parse_value fuel t1) _
            (value-Leaves fuel k t1 (omega arith) (omega arith))
            λ value t2 h2.
              Leaves-bind k n (parse_separator b'}' t2)
                (entry_end (parse_members fuel (insert_member key value map))
                  (object (insert_member key value map)))
                (separator-Leaves k b'}' (skip_whitespace t2)
                  (omega (arith, skip_whitespace_le t2)))
                λ last t3 h3.
                  entry_end-Leaves n (parse_members fuel (insert_member key value map))
                    (object (insert_member key value map)) last t3 (omega arith)
                    (members-Leaves fuel n (insert_member key value map) t3 (omega arith)
                      (omega arith))

  array-Leaves :
      (fuel n : ℕ) (t : Text)
      → 3 * length t + 2 < fuel
      → length t ≤ n
      → Leaves n (parse_array fuel t)
  array-Leaves zero n t f h = absurd (omega arith)
  array-Leaves (suc fuel) n t f h =
      opened-Leaves n b']' _ (parse_elements fuel nil) (skip_whitespace t)
        (omega (arith, skip_whitespace_le t))
        (elements-Leaves fuel n nil (skip_whitespace t) (omega (arith, skip_whitespace_le t))
          (omega (arith, skip_whitespace_le t)))

  elements-Leaves :
      (fuel n : ℕ) (items : Elements) (t : Text)
      → 3 * length t + 1 < fuel
      → length t ≤ n
      → Leaves n (parse_elements fuel items t)
  elements-Leaves zero n items t f h = absurd (omega arith)
  elements-Leaves (suc zero) n items t f h = absurd (omega arith)
  elements-Leaves (suc (suc fuel)) n items [] f h = failed _
  elements-Leaves (suc (suc fuel)) n items (b ∷ bs) f h =
      let k = length bs in
      Leaves-bind k n (parse_value (suc fuel) (b ∷ bs)) _
        (value-Leaves (suc fuel) k (b ∷ bs) (omega arith) (omega arith))
        λ value t2 h2.
          Leaves-bind k n (parse_separator b']' t2)
            (entry_end (parse_elements (suc fuel) (push value items)) (array (push value items)))
            (separator-Leaves k b']' (skip_whitespace t2) (omega (arith, skip_whitespace_le t2)))
            λ last t3 h3.
              entry_end-Leaves n (parse_elements (suc fuel) (push value items))
                (array (push value items)) last t3 (omega arith)
                (elements-Leaves (suc fuel) n (push value items) t3 (omega arith) (omega arith))

finish-ne : (v : JsonValue) (t : Text) → finish v t ≢ out_of_fuel
unfolding finish
finish-ne v [] h = cc
finish-ne v (b ∷ bs) h = cc

if-ne :
    (b : Bool) {x : Outcome JsonValue}
    → x ≢ out_of_fuel
    → (if b then x else err ParseError.invalid_utf8) ≢ out_of_fuel
if-ne true h = h
if-ne false h = λ e. cc

finish-Ends :
    (n : ℕ) (m : Outcome (JsonValue × Text))
    → Leaves n m
    → (m >>= λ (value, rest). finish value (skip_whitespace rest)) ≢ out_of_fuel
unfolding finish
finish-Ends n _ (left v rest h) = finish-ne v (skip_whitespace rest)
finish-Ends n _ (failed e) = λ h. cc
finish-Ends n _ stopped = λ h. cc

-- The fuel that the JSON parser is given is enough for every input: it returns a value, returns
-- an error or panics.
pub parse-ne-out_of_fuel : (input : Text) → parse input ≢ out_of_fuel
unfolding parse
parse-ne-out_of_fuel input = if-ne (is_utf8 input) (
    finish-Ends (length input) (parse_value (suc (3 * length input)) input)
      (value-Leaves (suc (3 * length input)) (length input) input (omega arith) (omega arith)))
