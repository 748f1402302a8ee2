-- ===== src/Rat.antt =====
-- math/big's Rat, as far as the program uses it: the fraction (plus - minus) / den, not reduced.
-- Two fractions are the same number when `SameValue` holds; `Cmp` compares numbers.
pub mod Laws
use Prim.Native.Nat.{compare, Ordering}
use traio.Prelude.{ℕ, ◌+◌, ◌-◌, ◌*◌, ◌<◌, ◌≡◌, Bool, ltb, ◌==◌, if◌then◌else◌}

pub record Rat : Type 0 where
  pub plus : ℕ
  pub minus : ℕ
  pub den : ℕ

abbrev pub IsProper : Rat → Type 0
IsProper x = 0 < x.den

abbrev pub SameValue : Rat → Rat → Type 0
SameValue x y = x.plus * y.den + y.minus * x.den ≡ y.plus * x.den + x.minus * y.den

abbrev pub zero_rat : Rat
zero_rat = record { plus = 0; minus = 0; den = 1 }

abbrev pub one_rat : Rat
one_rat = record { plus = 1; minus = 0; den = 1 }

abbrev pub signed_rat : Bool → ℕ → ℕ → Rat
signed_rat negative n d = record {
  plus = if negative then 0 else n;
  minus = if negative then n else 0;
  den = d;
}

unfoldable pub add_rat : Rat → Rat → Rat
add_rat x y = record {
  plus = x.plus * y.den + y.plus * x.den;
  minus = x.minus * y.den + y.minus * x.den;
  den = x.den * y.den;
}

unfoldable pub sub_rat : Rat → Rat → Rat
sub_rat x y = record {
  plus = x.plus * y.den + y.minus * x.den;
  minus = x.minus * y.den + y.plus * x.den;
  den = x.den * y.den;
}

unfoldable pub mul_rat : Rat → Rat → Rat
mul_rat x y = record {
  plus = x.plus * y.plus + x.minus * y.minus;
  minus = x.plus * y.minus + x.minus * y.plus;
  den = x.den * y.den;
}

-- The quotient by a number that is not 0; Go panics at 0.
unfoldable pub quo_rat : Rat → Rat → Rat
quo_rat x y =
    if ltb y.minus y.plus
    then record { plus = x.plus * y.den; minus = x.minus * y.den; den = x.den * (y.plus - y.minus) }
    else record { plus = x.minus * y.den; minus = x.plus * y.den; den = x.den * (y.minus - y.plus) }

unfoldable pub cmp_rat : Rat → Rat → Ordering
cmp_rat x y = compare (x.plus * y.den + y.minus * x.den) (y.plus * x.den + x.minus * y.den)

-- `Sign() == 0`
unfoldable pub is_zero : Rat → Bool
is_zero x = x.plus == x.minus
