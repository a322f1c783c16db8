-- ===== src/Json/Objects.antt =====
-- crates/core/src/json_read.rs: the texts that the writers put together from members, read back.
use mathlib.Core.List.{append_assoc}
use kronroe.Common.{
  ℕ, zero, suc, ◌+◌, ◌*◌, ◌<◌, ◌≡◌, refl, ◌∙◌, ap, true, List, [], ◌∷◌, ◌++◌, length, All,
  length-append, arith,
}
use kronroe.Common.Text.{Text}
use kronroe.Common.Utf8.{is_utf8, utf8_after, announced}
use kronroe.Common.Utf8.Laws.{byte_utf8, is_utf8-append}
use kronroe.Json.{JsonValue, object, Members, empty, insert_member, ok, ◌>>=◌}
use kronroe.Json.OneLine.{no_newline, no_newline-append, no_newline_cons, no_newline-write_string}
use kronroe.Json.Parse.{
  parse_value, parse_members, parse_key, parse_separator, value_at, opened, entry_end,
}
use kronroe.Json.RoundTrip.{is_utf8-write_string, parse_string-write_string}
use kronroe.Json.Scan.{skip_whitespace, expect}
use kronroe.Json.Write.{write_string}
pub use kronroe.Json.Reads.{delimited, Reads, str-Reads, null-Reads, boolean-Reads, parse-Reads}

-- A member as it is written: its key, the text of its value, and the value.
abbrev pub Entry : Type 0
Entry = Text × Text × JsonValue

abbrev pub entry_text : Entry → Text
entry_text (k, t, v) = write_string k ++ (b':' ∷ t)

abbrev pub entries_text : Entry → List Entry → Text
entries_text e [] = entry_text e ++ (b'}' ∷ [])
entries_text e (f ∷ es) = entry_text e ++ (b',' ∷ entries_text f es)

abbrev pub inserted : Members → List Entry → Members
inserted map [] = map
inserted map ((k, t, v) ∷ es) = inserted (insert_member k v map) es

abbrev pub EntryReads : Entry → Type 0
EntryReads (k, t, v) = (is_utf8 k ≡ true) × Reads t v

key_read :
    (k t rest : Text)
    → is_utf8 k ≡ true
    → parse_key ((write_string k ++ (b':' ∷ t)) ++ rest) ≡ ok (k, t ++ rest)
unfolding parse_key skip_whitespace expect write_string
key_read k t rest u =
    ap (λ x. parse_key x) (append_assoc (write_string k) (b':' ∷ t) rest)
    ∙ ap
        (λ m. m >>= λ (p : Text × Text).
          expect b':' (skip_whitespace p.1) >>= λ (r : Text). ok (p.0, r))
        (parse_string-write_string k (b':' ∷ (t ++ rest)) u)

-- A round of the loop of `parse_object`.
round :
    (fuel : ℕ) (map : Members) (k t : Text) (v : JsonValue) (tail : Text)
    → is_utf8 k ≡ true
    → Reads t v
    → delimited tail ≡ true
    → 3 * length t < fuel
    → parse_members (suc fuel) map ((write_string k ++ (b':' ∷ t)) ++ tail) ≡ (
        parse_separator b'}' tail
        >>= entry_end (parse_members fuel (insert_member k v map)) (object (insert_member k v map)))
unfolding parse_members
round fuel map k t v tail u r d h = rw (key_read k t tail u, r.apply fuel tail d h) refl

members_read :
    (e : Entry) (es : List Entry) (map : Members) (fuel : ℕ) (rest : Text)
    → EntryReads e
    → All EntryReads es
    → 3 * length (entries_text e es) + 1 < fuel
    → parse_members fuel map (entries_text e es ++ rest) ≡ ok (object (inserted map (e ∷ es)), rest)
unfolding parse_separator entry_end skip_whitespace
members_read e es map zero rest r rs h = absurd (omega arith)
members_read (k, t, v) [] map (suc fuel) rest r rs h =
    ap (λ x. parse_members (suc fuel) map x) (append_assoc (entry_text (k, t, v)) (b'}' ∷ []) rest)
    ∙ round fuel map k t v (b'}' ∷ rest) r.0 r.1 refl (
        omega (
          arith,
          length-append {0} (entry_text (k, t, v)) (b'}' ∷ []),
          length-append {0} (write_string k) (b':' ∷ t),
        ))
members_read (k, t, v) (f ∷ es) map (suc fuel) rest r rs h =
    ap (λ x. parse_members (suc fuel) map x)
      (append_assoc (entry_text (k, t, v)) (b',' ∷ entries_text f es) rest)
    ∙ round fuel map k t v (b',' ∷ (entries_text f es ++ rest)) r.0 r.1 refl (
        omega (
          arith,
          length-append {0} (entry_text (k, t, v)) (b',' ∷ entries_text f es),
          length-append {0} (write_string k) (b':' ∷ t),
        ))
    ∙ members_read f es (insert_member k v map) fuel rest rs.0 rs.1
        (omega (arith, length-append {0} (entry_text (k, t, v)) (b',' ∷ entries_text f es)))

object_value :
    (fuel : ℕ) (e : Entry) (es : List Entry) (rest : Text)
    → EntryReads e
    → All EntryReads es
    → 3 * length (entries_text e es) + 1 < fuel
    → parse_value (suc (suc fuel)) (b'{' ∷ (entries_text e es ++ rest))
      ≡ ok (object (inserted empty (e ∷ es)), rest)
unfolding parse_value value_at opened skip_whitespace write_string
object_value fuel e [] rest r rs h = members_read e [] empty fuel rest r rs h
object_value fuel e (f ∷ es) rest r rs h = members_read e (f ∷ es) empty fuel rest r rs h

entry_utf8 : (e : Entry) → EntryReads e → is_utf8 (entry_text e) ≡ true
entry_utf8 (k, t, v) r =
    is_utf8-append (write_string k) (b':' ∷ t) (is_utf8-write_string k r.0)
      (byte_utf8 b':' t (omega arith) r.1.utf8)

entries_utf8 :
    (e : Entry) (es : List Entry)
    → EntryReads e
    → All EntryReads es
    → is_utf8 (entries_text e es) ≡ true
unfolding is_utf8 utf8_after announced
entries_utf8 e [] r rs = is_utf8-append (entry_text e) (b'}' ∷ []) (entry_utf8 e r) refl
entries_utf8 e (f ∷ es) r rs =
    is_utf8-append (entry_text e) (b',' ∷ entries_text f es) (entry_utf8 e r)
      (byte_utf8 b',' (entries_text f es) (omega arith) (entries_utf8 f es rs.0 rs.1))

entry_line : (e : Entry) → EntryReads e → no_newline (entry_text e) ≡ true
entry_line (k, t, v) r =
    no_newline-append (write_string k) (b':' ∷ t) (no_newline-write_string k)
      (no_newline_cons b':' t refl r.1.one_line)

entries_line :
    (e : Entry) (es : List Entry)
    → EntryReads e
    → All EntryReads es
    → no_newline (entries_text e es) ≡ true
entries_line e [] r rs = no_newline-append (entry_text e) (b'}' ∷ []) (entry_line e r) refl
entries_line e (f ∷ es) r rs =
    no_newline-append (entry_text e) (b',' ∷ entries_text f es) (entry_line e r)
      (no_newline_cons b',' (entries_text f es) refl (entries_line f es rs.0 rs.1))

object_utf8 :
    (e : Entry) (es : List Entry)
    → EntryReads e
    → All EntryReads es
    → is_utf8 (b'{' ∷ entries_text e es) ≡ true
object_utf8 e es r rs = byte_utf8 b'{' (entries_text e es) (omega arith) (entries_utf8 e es r rs)

-- An object with one member at least, in the order in which it is written.
pub object-Reads :
    (e : Entry) (es : List Entry)
    → EntryReads e
    → All EntryReads es
    → Reads (b'{' ∷ entries_text e es) (object (inserted empty (e ∷ es)))
object-Reads e es r rs = record {
  utf8 = object_utf8 e es r rs;
  one_line = no_newline_cons b'{' (entries_text e es) refl (entries_line e es r rs);
  apply = at_fuel;
}
  where
    at_fuel :
        (fuel : ℕ) (rest : Text)
        → delimited rest ≡ true
        → 3 * length (b'{' ∷ entries_text e es) < fuel
        → parse_value fuel ((b'{' ∷ entries_text e es) ++ rest)
          ≡ ok (object (inserted empty (e ∷ es)), rest)
    at_fuel zero rest d h = absurd (omega arith)
    at_fuel (suc zero) rest d h = absurd (omega arith)
    at_fuel (suc (suc fuel)) rest d h = object_value fuel e es rest r rs (omega arith)
