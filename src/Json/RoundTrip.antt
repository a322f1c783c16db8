-- ===== src/Json/RoundTrip.antt =====
-- crates/core/src/json_read.rs and json_write.rs: the parser reads back the strings that the writer
-- escapes.
mod Bytes
use mathlib.Core.Path.{subst}
use mathlib.Core.List.{append-nil, append_assoc}
use kronroe.Common.{
  ℕ, zero, suc, ◌+◌, ◌*◌, ◌/◌, ◌%◌, ◌≤◌, ◌<◌, ◌≡◌, refl, ◌∙◌, ap, sym, Bool, true, false, not, ◌||◌,
  ◌&&◌, none, some, [], ◌∷◌, ◌++◌, inl, inr, length, take, drop, ltb, leb, ◌==◌, arith, ◌⊎◌, ltb→lt,
  ==_iff, Bool-cases, if◌then◌else◌,
}
use kronroe.Common.Text.{Text, codes}
use kronroe.Common.Utf8.{is_utf8, utf8_after, announced}
use kronroe.Common.Utf8.Laws.{
  and_rest, utf8_ascii, utf8_start, AllAscii-if, AllAscii, announced_ascii,
}
use kronroe.Json.Scan.{
  expect, scan_run, string_step, string_loop, collect, escape, unicode_escape, parse_unicode_escape,
  pushed_char, encode_char, parse_string, hex_digit, hex_digits, from_str_radix_16, is_boundary,
  is_continuation,
}
use kronroe.Json.Write.{hex_char, write_byte, write_bytes, write_string}
use kronroe.Json.{Outcome, ok, err, panicked, out_of_fuel, ◌>>=◌, or_err}
use kronroe.Json.RoundTrip.Bytes.{loop-quote, loop-write_byte}

-- The reader of UTF-8 is at the start of a character, or takes no byte below 0x80 next.
abbrev pub Inside : ℕ → ℕ → ℕ → Type 0
Inside more low high = (more ≡ 0) ⊎ (high < low) ⊎ (0x80 ≤ low)

announced-Inside : (b : ℕ) → Inside (announced b).more (announced b).low (announced b).high
unfolding announced
announced-Inside b = ground arith

announced_continuation :
    (b : ℕ) → is_continuation b ≡ true → announced b ≡ record { more = 1; low = 1; high = 0 }
unfolding announced
announced_continuation b h = ground arith

nothing_fits : (t : Text) → utf8_after 1 1 0 t ≡ true → ⊥
unfolding utf8_after
nothing_fits [] h = cc
nothing_fits (b ∷ bs) h = ground arith

start_boundary : (b : ℕ) (bs : Text) → utf8_after 0 0 0 (b ∷ bs) ≡ true → is_continuation b ≡ false
unfolding utf8_after
start_boundary b bs h = elim (Bool-cases (is_continuation b)) [
  | inl c ↦ absurd (
      nothing_fits bs
        (subst (λ n. utf8_after n.more n.low n.high bs ≡ true) (announced_continuation b c) h))
  | inr n ↦ n
]

boundary-write_byte :
    (b : ℕ) (t : Text) → is_continuation b ≡ false → is_boundary (write_byte b ++ t) ≡ true
unfolding write_byte
boundary-write_byte b t h = ground arith

boundary-write_bytes :
    (s rest : Text) → utf8_after 0 0 0 s ≡ true → is_boundary (write_bytes s (b'"' ∷ rest)) ≡ true
unfolding write_bytes
boundary-write_bytes [] rest h = refl
boundary-write_bytes (b ∷ bs) rest h = boundary-write_byte b _ (start_boundary b bs h)

-- What the reader of UTF-8 has to take after a byte.
pub record Next (b : ℕ) (bs : Text) : Type 0 where
  pub more : ℕ
  pub low : ℕ
  pub high : ℕ
  pub fits : utf8_after more low high bs ≡ true
  pub inside : Inside more low high
  pub ascii : b < 0x20 → utf8_after 0 0 0 bs ≡ true

pub byte-Next :
    (more low high b : ℕ) (bs : Text)
    → utf8_after more low high (b ∷ bs) ≡ true
    → Inside more low high
    → Next b bs
unfolding utf8_after
byte-Next zero low high b bs h i = record {
  more = (announced b).more;
  low = (announced b).low;
  high = (announced b).high;
  fits = h;
  inside = announced-Inside b;
  ascii = λ a.
      subst (λ n. utf8_after n.more n.low n.high bs ≡ true) (announced_ascii b (omega arith)) h;
}
byte-Next (suc more) low high b bs h i = record {
  more = more;
  low = 0x80;
  high = 0xbf;
  fits = ground arith;
  inside = inr (inr (omega arith));
  ascii = λ a. absurd (ground arith);
}

loop-write_bytes :
    (s acc rest : Text) (fuel more low high : ℕ)
    → utf8_after more low high s ≡ true
    → Inside more low high
    → length s < fuel
    → string_loop fuel acc (write_bytes s (b'"' ∷ rest)) ≡ ok (acc ++ s, rest)
unfolding write_bytes
loop-write_bytes s acc rest zero more low high u i f = absurd (omega arith)
loop-write_bytes [] acc rest (suc fuel) more low high u i f =
    loop-quote fuel acc rest ∙ ap (λ t. ok (t, rest)) (sym (append-nil acc))
loop-write_bytes (b ∷ bs) acc rest (suc fuel) more low high u i f =
    let n = byte-Next more low high b bs u i in
    let step =
      loop-write_byte fuel acc b (write_bytes bs (b'"' ∷ rest))
        (λ a. boundary-write_bytes bs rest (n.ascii a)) in
    step.2
    ∙ loop-write_bytes bs (acc ++ (b ∷ [])) rest step.0 n.more n.low n.high n.fits n.inside
        (omega (arith, step.1))
    ∙ ap (λ t. ok (t, rest)) (append_assoc acc (b ∷ []) bs)

length-write_bytes : (s rest : Text) → length s ≤ length (write_bytes s rest)
unfolding write_bytes write_byte
length-write_bytes [] rest = omega arith
length-write_bytes (b ∷ bs) rest = ground (arith, length-write_bytes bs rest)

write_bytes-append : (s t u : Text) → write_bytes s t ++ u ≡ write_bytes s (t ++ u)
unfolding write_bytes
write_bytes-append [] t u = refl
write_bytes-append (b ∷ bs) t u = simp (append_assoc, write_bytes-append bs t u)

-- A UTF-8 text that is written as a JSON string is read back as the same text, and what follows
-- it is left.
pub parse_string-write_string :
    (s rest : Text) → is_utf8 s ≡ true → parse_string (write_string s ++ rest) ≡ ok (s, rest)
unfolding parse_string write_string is_utf8 expect
parse_string-write_string s rest u = rw write_bytes-append (
    loop-write_bytes s [] rest (suc (length (write_bytes s (b'"' ∷ rest)))) 0 0 0 u (inl refl)
      (omega (arith, length-write_bytes s (b'"' ∷ rest))))

hex_char-lt : (d : ℕ) → d < 16 → hex_char d < 0x80
unfolding hex_char
hex_char-lt d h = ground arith

-- Two bytes after a backslash.
escaped-ascii : (c : ℕ) → c < 0x80 → AllAscii (b'\\' ∷ c ∷ [])
escaped-ascii c h = (omega arith, (h, tt))

control-ascii :
    (b : ℕ)
    → b < 0x80
    → AllAscii (b'\\' ∷ b'u' ∷ b'0' ∷ b'0' ∷ hex_char (b / 16) ∷ hex_char (b % 16) ∷ [])
control-ascii b h = (
  omega arith,
  (
    omega arith,
    (
      omega arith,
      (omega arith, (hex_char-lt (b / 16) (omega arith), (hex_char-lt (b % 16) (omega arith), tt))),
    ),
  ),
)

write_byte-ascii : (b : ℕ) → b < 0x80 → AllAscii (write_byte b)
unfolding write_byte
write_byte-ascii b h = AllAscii-if (b == b'"') _ _ (escaped-ascii b'"' (omega arith)) (
    AllAscii-if (b == b'\\') _ _ (escaped-ascii b'\\' (omega arith)) (
      AllAscii-if (b == 10) _ _ (escaped-ascii b'n' (omega arith)) (
        AllAscii-if (b == 13) _ _ (escaped-ascii b'r' (omega arith)) (
          AllAscii-if (b == 9) _ _ (escaped-ascii b't' (omega arith))
            (AllAscii-if (ltb b 0x20) _ (b ∷ []) (control-ascii b h) (h, tt))))))

write_byte-high : (b : ℕ) → 0x80 ≤ b → write_byte b ≡ b ∷ []
unfolding write_byte
write_byte-high b h = ground arith

-- What is written of a text is one.
utf8-write_bytes :
    (s rest : Text) (more low high : ℕ)
    → utf8_after more low high s ≡ true
    → Inside more low high
    → utf8_after more low high (write_bytes s rest) ≡ utf8_after 0 0 0 rest
unfolding write_bytes utf8_after
utf8-write_bytes [] rest zero low high u i = utf8_start low high rest
utf8-write_bytes [] rest (suc more) low high u i = absurd (cc u)
utf8-write_bytes (b ∷ bs) rest zero low high u i = elim (Bool-cases (ltb b 0x80)) [
  | inl a ↦
      let small : b < 0x80 = ltb→lt b 0x80 a in
      utf8_start low high _
      ∙ utf8_ascii (write_byte b) (write_bytes bs rest) (write_byte-ascii b small)
      ∙ utf8-write_bytes bs rest 0 0 0
          (subst (λ n. utf8_after n.more n.low n.high bs ≡ true) (announced_ascii b small) u)
          (inl refl)
  | inr n ↦ rw (write_byte-high b (ground arith)) (
      utf8-write_bytes bs rest (announced b).more (announced b).low (announced b).high u
        (announced-Inside b))
]
utf8-write_bytes (b ∷ bs) rest (suc more) low high u i =
    let inside : (leb low b && leb b high) ≡ true = ground arith in
    let upper : 0x80 ≤ b = ground arith in
    rw (write_byte-high b upper) (
      and_rest (leb low b && leb b high) _ _ u
        λ u'. utf8-write_bytes bs rest more 0x80 0xbf u' (inr (inr (omega arith))))

pub is_utf8-write_string : (s : Text) → is_utf8 s ≡ true → is_utf8 (write_string s) ≡ true
unfolding is_utf8 write_string announced utf8_after
is_utf8-write_string s u =
    ap (λ n. utf8_after n.more n.low n.high (write_bytes s (b'"' ∷ [])))
      (announced_ascii b'"' (omega arith))
    ∙ utf8-write_bytes s (b'"' ∷ []) 0 0 0 u (inl refl)
