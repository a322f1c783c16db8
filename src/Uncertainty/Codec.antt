-- ===== src/Uncertainty/Codec.antt =====
-- crates/core/src/uncertainty.rs: the texts of volatilities and source weights, read back.
use kronroe.Common.{
  Bool, false, arith, ℕ, ◌≡◌, refl, ◌∙◌, ap, true, false, ◌&&◌, [], ◌∷◌, ◌++◌, if◌then◌else◌,
}
use kronroe.Common.Text.{Text, codes, text_eq, text_lt}
use kronroe.Common.Utf8.{is_utf8, utf8_after, announced}
use kronroe.Error.{Result, ok}
use kronroe.Float.{f64, is_finite, lt}
use kronroe.Float.Decimal.{f32_of_f64}
use kronroe.Float.Display.{display, printed_f32, printed_f64}
use kronroe.Json.{JsonValue, number, object, empty, get, insert_member, as_f32, Outcome}
use kronroe.Json.Decoded.{decoded, from_outcome}
use kronroe.Json.Numbers.{IsNumber, number-Reads}
use kronroe.Json.Objects.{Reads, object-Reads, parse-Reads, inserted}
use kronroe.Json.Write.{write_string, write_bytes, write_byte}
use kronroe.Uncertainty.{
  SourceWeight, new_volatility, new_weight, volatility_json, weight_json, volatility_from_json_str,
  weight_from_json_str, volatility_of, weight_of, days_of,
}

one_number-Reads :
    (key t : Text) (n : ℕ)
    → is_utf8 key ≡ true
    → IsNumber t n
    → Reads
        (b'{' ∷ ((write_string key ++ (b':' ∷ t)) ++ (b'}' ∷ [])))
        (object (inserted empty ((key, t, number n) ∷ [])))
one_number-Reads key t n u h = object-Reads (key, t, number n) [] (u, number-Reads t n h) tt

decoded-Reads :
    {A : Type 0} (read : JsonValue → Result A) (t : Text) (v : JsonValue)
    → Reads t v
    → decoded read t ≡ Outcome.ok (read v)
unfolding decoded from_outcome
decoded-Reads read t v r = rw (parse-Reads t v r) refl

weight_text :
    (w : SourceWeight)
    → weight_json w
      ≡ b'{'
        ∷ ((write_string (codes "weight") ++ (b':' ∷ display printed_f32 w.weight)) ++ (b'}' ∷ []))
unfolding weight_json write_string write_bytes write_byte
weight_text w = refl

-- A volatility with a half life that is finite and above zero.
is_kept :
    (days : ℕ)
    → (is_finite f64 days && lt f64 0 days) ≡ true
    → new_volatility days ≡ record { half_life_days = days }
unfolding new_volatility
is_kept days p = rw p refl

picked : (b : Bool) (s t : Text) → b ≡ true → (if b then s else t) ≡ s
picked true s t h = refl
picked false s t h = absurd (ground (arith, h))

volatility_text :
    (days : ℕ)
    → is_finite f64 days ≡ true
    → volatility_json (record { half_life_days = days })
      ≡ b'{'
        ∷ ((write_string (codes "half_life_days") ++ (b':' ∷ display printed_f64 days))
            ++ (b'}' ∷ []))
unfolding volatility_json write_string write_bytes write_byte
volatility_text days f =
    picked (is_finite f64 days)
      (codes "{\"half_life_days\":" ++ (display printed_f64 days ++ codes "}"))
      (codes "{\"half_life_days\":\"inf\"}") f

volatility_read :
    (days : ℕ) (t : Text)
    → volatility_of (object (inserted empty ((codes "half_life_days", t, number days) ∷ [])))
      ≡ ok (new_volatility days)
unfolding volatility_of days_of insert_member get text_eq text_lt
volatility_read days t = refl

weight_read :
    (w : SourceWeight) (n : ℕ) (t : Text)
    → new_weight (f32_of_f64 n) ≡ w
    → weight_of (object (inserted empty ((codes "weight", t, number n) ∷ []))) ≡ ok w
unfolding weight_of insert_member get as_f32 text_eq text_lt
weight_read w n t e = rw e refl

-- A volatility whose half life is finite and above zero is read back from the text that is
-- written of it, if the decimal that is printed of the half life is read as the half life.
pub volatility_from_json_str-volatility_json :
    (days : ℕ)
    → (is_finite f64 days && lt f64 0 days) ≡ true
    → IsNumber (display printed_f64 days) days
    → volatility_from_json_str (volatility_json (new_volatility days))
      ≡ Outcome.ok (ok (new_volatility days))
unfolding volatility_from_json_str is_utf8 utf8_after announced
volatility_from_json_str-volatility_json days p h =
    let t = display printed_f64 days in
    ap (λ s. decoded volatility_of s)
      (ap (λ v. volatility_json v) (is_kept days p) ∙ volatility_text days (ground (arith, p)))
    ∙ decoded-Reads volatility_of _ _ (one_number-Reads (codes "half_life_days") t days refl h)
    ∙ ap (λ r. Outcome.ok r) (volatility_read days t)

-- x
pub weight_from_json_str-weight_json :
    (w : SourceWeight) (n : ℕ)
    → IsNumber (display printed_f32 w.weight) n
    → new_weight (f32_of_f64 n) ≡ w
    → weight_from_json_str (weight_json w) ≡ Outcome.ok (ok w)
unfolding weight_from_json_str is_utf8 utf8_after announced
weight_from_json_str-weight_json w n h e =
    let t = display printed_f32 w.weight in
    ap (λ s. decoded weight_of s) (weight_text w)
    ∙ decoded-Reads weight_of _ _ (one_number-Reads (codes "weight") t n refl h)
    ∙ ap (λ r. Outcome.ok r) (weight_read w n t e)
