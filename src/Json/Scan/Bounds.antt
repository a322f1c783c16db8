-- ===== src/Json/Scan/Bounds.antt =====
-- crates/core/src/json_read.rs: what each piece of the parser leaves of its input. The loop of
-- `parse_string` ends, since each of its rounds consumes a byte.
use kronroe.Common.{
  ℕ, zero, suc, ◌+◌, ◌*◌, ◌≤◌, Bool, not, ◌&&◌, ◌<◌, ◌||◌, true, false, ◌-◌, ◌*◌, Option, none,
  some, [], ◌∷◌, ◌++◌, inl, inr, length, take, drop, ltb, leb, ◌==◌, arith, Bool-cases,
  if◌then◌else◌,
}
use kronroe.Common.Text.{Text}
use kronroe.Json.Scan.{
  skip_whitespace, expect, scan_run, string_step, collect, string_loop, escape, unicode_escape,
  parse_unicode_escape, pushed_char, encode_char, parse_string, consume_digits, span_digits,
  from_str_radix_16, is_boundary, some_digit, collect,
}
use kronroe.Json.{ParseError, Outcome, ok, err, panicked, ◌>>=◌, or_err}

-- A call that ends, and leaves at most `n` bytes if it returns a value.
pub data Leaves {A : Type 0} (n : ℕ) : Outcome (A × Text) → Type 0 where
  left : (a : A) (rest : Text) → length rest ≤ n → Leaves n (ok (a, rest))
  failed : (e : ParseError) → Leaves n (err e)
  stopped : Leaves n panicked

pub Leaves-bind :
    {A B : Type 0} (k n : ℕ) (m : Outcome (A × Text)) (f : A × Text → Outcome (B × Text))
    → Leaves k m
    → ((a : A) (rest : Text) → length rest ≤ k → Leaves n (f (a, rest)))
    → Leaves n (m >>= f)
Leaves-bind k n _ f (left a rest h) g = g a rest h
Leaves-bind k n _ f (failed e) g = failed e
Leaves-bind k n _ f stopped g = stopped

pub Leaves-le : {A : Type 0} (k n : ℕ) (m : Outcome (A × Text)) → k ≤ n → Leaves k m → Leaves n m
Leaves-le k n _ le (left a rest h) = left a rest (omega arith)
Leaves-le k n _ le (failed e) = failed e
Leaves-le k n _ le stopped = stopped

pub skip_whitespace_le : (t : Text) → length (skip_whitespace t) ≤ length t
unfolding skip_whitespace
skip_whitespace_le [] = omega arith
skip_whitespace_le (b ∷ bs) = ground (arith, skip_whitespace_le bs)

pub drop_le : (n : ℕ) (t : Text) → length (drop n t) ≤ length t
drop_le zero t = omega arith
drop_le (suc n) [] = omega arith
drop_le (suc n) (b ∷ bs) = omega (arith, drop_le n bs)

-- `expect`, in front of what reads on.
pub expect-bind :
    {B : Type 0} (c k n : ℕ) (t : Text) (f : Text → Outcome (B × Text))
    → length t ≤ suc k
    → ((rest : Text) → length rest ≤ k → Leaves n (f rest))
    → Leaves n (expect c t >>= f)
unfolding expect
expect-bind c k n [] f h g = failed (ParseError.expected_byte c)
expect-bind c k n (b ∷ bs) f h g = elim (Bool-cases (b == c)) [
  | inl e ↦ rw e (g bs (omega arith))
  | inr e ↦ rw e (failed (ParseError.expected_byte c))
]

pub scan_run_le : (t : Text) → length (scan_run t).1 ≤ length t
unfolding scan_run
scan_run_le [] = omega arith
scan_run_le (b ∷ bs) = ground (arith, scan_run_le bs)

pub span_digits_le : (t : Text) → length (span_digits t).0 + length (span_digits t).1 ≤ length t
unfolding span_digits
span_digits_le [] = omega arith
span_digits_le (b ∷ bs) = ground (arith, span_digits_le bs)

pub or_err-bind :
    {A B : Type 0} (n : ℕ) (e : ParseError) (o : Option A) (f : A → Outcome (B × Text))
    → ((a : A) → Leaves n (f a))
    → Leaves n (or_err e o >>= f)
or_err-bind n e none f h = failed e
or_err-bind n e (some a) f h = h a

pub pushed_char-Leaves : (cp : ℕ) (t : Text) → Leaves (length t) (pushed_char cp t)
unfolding pushed_char
pushed_char-Leaves cp t = or_err-bind _ _ (encode_char cp) _ (λ bytes. left bytes t (omega arith))

pub Leaves-if :
    {A : Type 0} (n : ℕ) (b : Bool) (x y : Outcome (A × Text))
    → Leaves n x
    → Leaves n y
    → Leaves n (if b then x else y)
Leaves-if n true x y h g = h
Leaves-if n false x y h g = g

pub parse_unicode_escape-Leaves : (t : Text) → Leaves (length t) (parse_unicode_escape t)
unfolding parse_unicode_escape
parse_unicode_escape-Leaves t = Leaves-if (length t) (ltb (length t) 4) _ _ (failed _) (
    Leaves-if (length t) (not (is_boundary (drop 4 t))) _ _ stopped (
      or_err-bind (length t) ParseError.invalid_unicode_escape (from_str_radix_16 (take 4 t))
        (λ cp. ok (cp, drop 4 t)) (λ cp. left cp (drop 4 t) (drop_le 4 t))))

pub unicode_escape-Leaves : (t : Text) → Leaves (length t) (unicode_escape t)
unfolding unicode_escape
unicode_escape-Leaves t =
    Leaves-bind (length t) (length t) (parse_unicode_escape t) _ (parse_unicode_escape-Leaves t)
      λ cp rest h.
        Leaves-if (length t) (leb 0xd800 cp && leb cp 0xdbff) _ _
          (expect-bind b'\\' (length t) (length t) rest _ (omega arith) λ after ha.
            expect-bind b'u' (length t) (length t) after _ (omega arith) λ marked hm.
              Leaves-bind (length marked) (length t) (parse_unicode_escape marked) _
                (parse_unicode_escape-Leaves marked)
                λ low rest' hl.
                  Leaves-if (length t) (leb 0xdc00 low && leb low 0xdfff) _ _
                    (Leaves-le (length rest') (length t) _ (omega arith)
                      (pushed_char-Leaves (0x10000 + (cp - 0xd800) * 1024 + (low - 0xdc00)) rest'))
                    (failed _))
          (Leaves-le (length rest) (length t) _ h (pushed_char-Leaves cp rest))

pub escape-Leaves : (t : Text) → Leaves (length t) (escape t)
unfolding escape
escape-Leaves [] = failed _
escape-Leaves (c ∷ rest) =
    let n = suc (length rest) in
    let here : length rest ≤ n = omega arith in
    Leaves-if n (c == 34 || c == 92 || c == 47) _ _ (left (c ∷ []) rest here) (
      Leaves-if n (c == 110) _ _ (left (10 ∷ []) rest here) (
        Leaves-if n (c == 114) _ _ (left (13 ∷ []) rest here) (
          Leaves-if n (c == 116) _ _ (left (9 ∷ []) rest here) (
            Leaves-if n (c == 98) _ _ (left (8 ∷ []) rest here) (
              Leaves-if n (c == 102) _ _ (left (12 ∷ []) rest here) (
                Leaves-if n (c == 117) _ _
                  (Leaves-le (length rest) n _ here (unicode_escape-Leaves rest))
                  (failed ParseError.invalid_escape)))))))

pub string_step-Leaves : (n : ℕ) (t : Text) → length t ≤ suc n → Leaves n (string_step t)
unfolding string_step
string_step-Leaves n [] h = failed _
string_step-Leaves n (b ∷ rest) h =
    Leaves-if n (b == b'"') (ok (none, rest)) _ (left none rest (omega arith)) (
      Leaves-bind (length rest) n (escape rest) _ (escape-Leaves rest)
        (λ bytes after le. left (some bytes) after (omega arith)))

pub collect-Leaves :
    (n : ℕ) (again : Text → Text → Outcome (Text × Text)) (acc : Text) (o : Option Text) (t : Text)
    → length t ≤ n
    → ((acc' t' : Text) → length t' ≤ n → Leaves (length t') (again acc' t'))
    → Leaves (suc n) (collect again acc (o, t))
unfolding collect
collect-Leaves n again acc none t h g = left acc t (omega arith)
collect-Leaves n again acc (some bytes) t h g =
    Leaves-le (length t) (suc n) _ (omega arith) (g (acc ++ bytes) t h)

pub string_loop-Leaves :
    (fuel : ℕ) (acc t : Text) → length t < fuel → Leaves (length t) (string_loop fuel acc t)
unfolding string_loop
string_loop-Leaves zero acc t h = absurd (omega arith)
string_loop-Leaves (suc fuel) acc [] h = failed _
string_loop-Leaves (suc fuel) acc (b ∷ bs) h =
    Leaves-bind (length bs) (suc (length bs)) (string_step (scan_run (b ∷ bs)).1) _
      (string_step-Leaves (length bs) _ (scan_run_le (b ∷ bs)))
      λ o after le.
        collect-Leaves (length bs) (string_loop fuel) _ o after le
          λ acc' t le'. string_loop-Leaves fuel acc' t (omega arith)

pub parse_string-Leaves : (n : ℕ) (t : Text) → length t ≤ suc n → Leaves n (parse_string t)
unfolding parse_string
parse_string-Leaves n t h = expect-bind b'"' n n t _ h λ body le.
    Leaves-le (length body) n _ le (string_loop-Leaves (suc (length body)) [] body (omega arith))

some_digit-Leaves :
    (n : ℕ) (ds t : Text) → length ds + length t ≤ suc n → Leaves n (some_digit (ds, t))
unfolding some_digit
some_digit-Leaves n [] t h = failed _
some_digit-Leaves n (d ∷ ds) t h = left (d ∷ ds) t (omega arith)

pub consume_digits-Leaves : (n : ℕ) (t : Text) → length t ≤ suc n → Leaves n (consume_digits t)
unfolding consume_digits
consume_digits-Leaves n t h =
    some_digit-Leaves n (span_digits t).0 (span_digits t).1 (omega (arith, span_digits_le t))
