-- ===== src/Vector/Cosine.antt =====
-- crates/core/src/vector.rs: the cosine of two vectors, by their components.
use kronroe.Common.{
  ==_iff, sym, ℕ, zero, suc, ◌≡◌, refl, ◌∙◌, ap, Bool, true, false, not, ◌||◌, List, [], ◌∷◌, map,
  length, ◌==◌, if◌then◌else◌, arith,
}
use kronroe.Float.{f32, abs}
use kronroe.Float.Arithmetic.{add, mul, div, sqrt}
use kronroe.Vector.{unit, sum, products, l2_norm, cosine_similarity}

-- The component of a vector, from 0 on.
abbrev pub component : ℕ → List ℕ → ℕ
component n [] = 0
component zero (x ∷ xs) = x
component (suc n) (x ∷ xs) = component n xs

-- The products of the first n components, added one by one to a value.
abbrev pub dot : ℕ → ℕ → List ℕ → List ℕ → ℕ
dot zero total v w = total
dot (suc n) total v w =
    add f32 unit (dot n total v w) (mul f32 unit (component n v) (component n w))

abbrev pub norm : List ℕ → ℕ
norm v = sqrt f32 unit (dot (length v) 0 v v)

-- The cosine of the angle between two vectors, and 0 where there is none.
abbrev pub cosine : List ℕ → List ℕ → ℕ
cosine v w =
    if length v == length w
    then (if abs f32 (norm w) == 0
        then 0
        else div f32 unit (dot (length v) 0 v w) (mul f32 unit (norm v) (norm w)))
    else 0

dot_cons :
    (n total x y : ℕ) (v w : List ℕ)
    → dot (suc n) total (x ∷ v) (y ∷ w) ≡ dot n (add f32 unit total (mul f32 unit x y)) v w
dot_cons zero total x y v w = refl
dot_cons (suc n) total x y v w =
    ap (λ t. add f32 unit t (mul f32 unit (component n v) (component n w)))
      (dot_cons n total x y v w)

sum-products :
    (total : ℕ) (v w : List ℕ)
    → length v ≡ length w
    → sum total (products v w) ≡ dot (length v) total v w
unfolding sum products
sum-products total [] [] e = refl
sum-products total [] (y ∷ w) e = absurd (omega (arith, e))
sum-products total (x ∷ v) [] e = absurd (omega (arith, e))
sum-products total (x ∷ v) (y ∷ w) e =
    sum-products (add f32 unit total (mul f32 unit x y)) v w (omega (arith, e))
    ∙ sym (dot_cons (length v) total x y v w)

squares : (v : List ℕ) → map (λ x. mul f32 unit x x) v ≡ products v v
unfolding products
squares [] = refl
squares (x ∷ v) = ap (λ xs. mul f32 unit x x ∷ xs) (squares v)

pub l2_norm_lem : (v : List ℕ) → l2_norm v ≡ norm v
unfolding l2_norm
l2_norm_lem v =
    ap (λ xs. sqrt f32 unit (sum 0 xs)) (squares v)
    ∙ ap (λ t. sqrt f32 unit t) (sum-products 0 v v refl)

guarded :
    (b z z' : Bool) (x y : ℕ)
    → z ≡ z'
    → (b ≡ true → x ≡ y)
    → (if not b || z then 0 else x) ≡ (if b then (if z' then 0 else y) else 0)
guarded false z z' x y e f = refl
guarded true true z' x y e f = ground (arith, e)
guarded true false z' x y e f = ground (arith, e, f refl)

pub cosine_similarity_lem : (v w : List ℕ) → cosine_similarity v w (l2_norm v) ≡ cosine v w
unfolding cosine_similarity
cosine_similarity_lem v w =
    guarded (length v == length w) (abs f32 (l2_norm w) == 0) (abs f32 (norm w) == 0)
      (div f32 unit (sum 0 (products v w)) (mul f32 unit (l2_norm v) (l2_norm w)))
      (div f32 unit (dot (length v) 0 v w) (mul f32 unit (norm v) (norm w)))
      (ap (λ n. abs f32 n == 0) (l2_norm_lem w))
      (λ e.
        ap (λ t. div f32 unit t (mul f32 unit (l2_norm v) (l2_norm w)))
          (sum-products 0 v w ((==_iff (length v) (length w)).0 e))
        ∙ ap (λ t. div f32 unit (dot (length v) 0 v w) (mul f32 unit t (l2_norm w))) (l2_norm_lem v)
        ∙ ap (λ t. div f32 unit (dot (length v) 0 v w) (mul f32 unit (norm v) t)) (l2_norm_lem w))
