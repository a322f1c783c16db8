-- ===== src/Common/Digits.antt =====
-- Fixed-width positional notation: the loop that fills a buffer from its last digit, and its head.
use native.Mathlib.Nat.{
  pow-zero, pow-suc, one-le-pow, div-add-mod', mod-lt, div-lt_iff_lt-mul, mul-add-div_right,
  mul-add-mod_self_right, mod-eq_of_lt,
}
use mathlib.Core.Path.{◌≡◌, ap, sym}
use mathlib.Core.List.{List, ◌∷◌}
use Prim.Native.Nat.{ℕ, zero, suc, ◌+◌, ◌*◌, ◌/◌, ◌%◌, ◌^◌, ◌<◌}
use native.Mathlib.Omega.{arith}

-- `for i in (0..n).rev() { out[i] = f(value % base); value /= base; }`, before the digits in `acc`
unfoldable pub digits {ℓ} : {A : Type ℓ} → ℕ → (ℕ → A) → ℕ → ℕ → List A → List A
digits base f zero value acc = acc
digits base f (suc n) value acc = digits base f n (value / base) (f (value % base) ∷ acc)

-- A leading digit and a rest.
pub record Split (base n v : ℕ) : Type 0 where
  pub high : ℕ
  pub low : ℕ
  pub high_lt : high < base
  pub low_lt : low < base ^ n
  pub value : v ≡ high * base ^ n + low

module _ (base : ℕ) (base_pos : 0 < base) where
  pub split : (n v : ℕ) → v < base ^ suc n → Split base n v
  split n v h = record {
    high = v / base ^ n;
    low = v % base ^ n;
    high_lt = (div-lt_iff_lt-mul (one-le-pow n base base_pos)).1 (omega (arith, pow-suc base n, h));
    low_lt = mod-lt v (one-le-pow n base base_pos);
    value = sym (div-add-mod' v (base ^ n));
  }

  module _ {ℓ} {A : Type ℓ} (f : ℕ → A) where
    pub digits-head :
        (n d r : ℕ) (acc : List A)
        → d < base
        → r < base ^ n
        → digits base f (suc n) (d * base ^ n + r) acc ≡ f d ∷ digits base f n r acc
    unfolding digits
    digits-head zero d r acc hd hr = rw (whole, mod-eq_of_lt hd)
      where
        whole : d * base ^ 0 + r ≡ d
        whole = omega (arith, hr, pow-zero base, ap (λ (t : ℕ). d * t) (pow-zero base))
    digits-head (suc n) d r acc hd hr =
        rw (regroup, mul-add-div_right base_pos, mul-add-mod_self_right)
          (digits-head n d (r / base) (f (r % base) ∷ acc) hd
            ((div-lt_iff_lt-mul base_pos).1 (omega (arith, pow-suc base n))))
      where
        regroup : d * base ^ suc n + r ≡ (d * base ^ n) * base + r
        regroup = omega (arith, pow-suc base n, ap (λ (t : ℕ). d * t) (pow-suc base n))
