-- ===== src/Rat/Laws.antt =====
-- `SameValue` on proper fractions.
use native.Mathlib.Nat.{mul-div_cancel}
use traio.Prelude.{ℕ, ◌+◌, ◌*◌, ◌/◌, ◌<◌, ◌≡◌, sym, ap, arith, ◌∙◌}
use traio.Rat.{Rat, IsProper, SameValue, add_rat, sub_rat, mul_rat}

pub mul_cancel : (k a b : ℕ) → 0 < k → a * k ≡ b * k → a ≡ b
mul_cancel k a b h e = sym (mul-div_cancel a h) ∙ ap (λ (t : ℕ). t / k) e ∙ mul-div_cancel b h

pub SameValue-trans : (x y z : Rat) → IsProper y → SameValue x y → SameValue y z → SameValue x z
SameValue-trans x y z p h k =
    mul_cancel y.den (x.plus * z.den + z.minus * x.den) (z.plus * x.den + x.minus * z.den) p
      (omega (arith, ap (λ (t : ℕ). t * z.den) h, ap (λ (t : ℕ). t * x.den) k))

pub SameValue-add :
    (x y z w : Rat) → SameValue x y → SameValue z w → SameValue (add_rat x z) (add_rat y w)
unfolding add_rat
SameValue-add x y z w h k =
    omega (arith, ap (λ (t : ℕ). t * (z.den * w.den)) h, ap (λ (t : ℕ). t * (x.den * y.den)) k)

pub SameValue-mul_left : (x y z : Rat) → SameValue x y → SameValue (mul_rat x z) (mul_rat y z)
unfolding mul_rat
SameValue-mul_left x y z h =
    omega (arith, ap (λ (t : ℕ). t * (z.plus * z.den)) h, ap (λ (t : ℕ). t * (z.minus * z.den)) h)

pub SameValue-mul_right : (x y z : Rat) → SameValue x y → SameValue (mul_rat z x) (mul_rat z y)
unfolding mul_rat
SameValue-mul_right x y z h =
    omega (arith, ap (λ (t : ℕ). t * (z.plus * z.den)) h, ap (λ (t : ℕ). t * (z.minus * z.den)) h)

pub SameValue-sub :
    (x y z w : Rat) → SameValue x y → SameValue z w → SameValue (sub_rat x z) (sub_rat y w)
unfolding sub_rat
SameValue-sub x y z w h k =
    omega (arith, ap (λ (t : ℕ). t * (z.den * w.den)) h, ap (λ (t : ℕ). t * (x.den * y.den)) k)

pub mul_pos : (a b : ℕ) → 0 < a → 0 < b → 0 < a * b
mul_pos a b h k = grind arith
