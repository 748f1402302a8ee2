-- ===== src/Activity/Decimal/Value.antt =====
-- The number that a decimal text stands for: big.Rat's SetString on plain decimal notation (an
-- optional sign, digits, an optional point). The program calls it on canonical decimals and on
-- FloatString's output only, so its other notations are left out and give `none`.
use traio.Prelude.{
  ℕ, zero, suc, ◌+◌, ◌-◌, ◌*◌, ◌<◌, ◌≡◌, Bool, not, ◌&&◌, ◌||◌, Option, none, some, List, [], ◌∷◌,
  ◌++◌, arith, is_empty, length, all, if◌then◌else◌,
}
use traio.Text.{Text, is_digit}
use traio.Text.Split.{split}
use traio.Rat.{Rat, signed_rat, IsProper}
use traio.Activity.Decimal.{is_negative, drop_sign}

unfoldable pub number_from : ℕ → Text → ℕ
number_from acc [] = acc
number_from acc (c ∷ s) = number_from (acc * 10 + (c - b'0')) s

abbrev pub number : Text → ℕ
number s = number_from 0 s

abbrev pub pow10 : ℕ → ℕ
pow10 zero = 1
pow10 (suc n) = 10 * pow10 n

unfoldable pub parts_value : Bool → Text → Text → Option Rat
unfolding number_from
parts_value negative whole frac =
    if (is_empty whole && is_empty frac) || not (all is_digit (whole ++ frac))
    then none
    else some (signed_rat negative (number (whole ++ frac)) (pow10 (length frac)))

unfoldable pub pieces_value : Bool → List Text → Option Rat
unfolding parts_value
pieces_value negative (w ∷ []) = parts_value negative w []
pieces_value negative (w ∷ f ∷ []) = parts_value negative w f
pieces_value negative _ = none

unfoldable pub set_string : Text → Option Rat
unfolding pieces_value is_negative drop_sign split
set_string s = pieces_value (is_negative s) (split b'.' (drop_sign s))

pub pow10_pos : (n : ℕ) → 0 < pow10 n
pow10_pos zero = omega arith
pow10_pos (suc n) = omega (arith, pow10_pos n)

parts_value-IsProper : (n : Bool) (w f : Text) {x : Rat} → parts_value n w f ≡ some x → IsProper x
unfolding parts_value
parts_value-IsProper n w f h = ground (arith, pow10_pos (length f))

pieces-IsProper : (n : Bool) (ps : List Text) {x : Rat} → pieces_value n ps ≡ some x → IsProper x
unfolding pieces_value
pieces-IsProper n [] h = cc
pieces-IsProper n (w ∷ []) h = parts_value-IsProper n w [] h
pieces-IsProper n (w ∷ f ∷ []) h = parts_value-IsProper n w f h
pieces-IsProper n (w ∷ f ∷ g ∷ r) h = cc

-- A number that was read has a positive denominator.
pub set_string-IsProper : (s : Text) {x : Rat} → set_string s ≡ some x → IsProper x
unfolding set_string
set_string-IsProper s h = pieces-IsProper (is_negative s) (split b'.' (drop_sign s)) h
