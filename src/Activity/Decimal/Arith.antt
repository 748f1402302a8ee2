-- ===== src/Activity/Decimal/Arith.antt =====
-- `rational`, `exact` and the operations of internal/activity/decimal.go on decimal texts. A result
-- is a text only where the exact result of the operation is a decimal of the range.
use Prim.Native.Nat.{Ordering}
use traio.Prelude.{
  ℕ, zero, suc, ◌+◌, ◌-◌, ◌*◌, ◌/◌, ◌%◌, ◌≡◌, refl, String, Bool, true, false, [], ◌∷◌, ◌++◌,
  Option, none, some, Result, ok, err, ◌>>=◌, ltb, ◌==◌, replicate, length, if◌then◌else◌,
}
use traio.Text.{Text, codes}
use traio.Rat.{Rat, add_rat, sub_rat, mul_rat, cmp_rat}
use traio.Activity.Decimal.{canonical_decimal, invalid_decimal, zero_text}
use traio.Activity.Decimal.Value.{set_string}

-- `new(big.Rat).SetString`, whose `ok` is false where the text is no number.
unfoldable pub or_error : Option Rat → String → Result String Rat
or_error none e = err e
or_error (some x) e = ok x

unfoldable pub rational : Text → Result String Rat
unfolding or_error canonical_decimal set_string
rational s = do n ← canonical_decimal s; or_error (set_string n) invalid_decimal

-- The decimal digits of a number; a fuel above the number is enough (`number-print`).
unfoldable pub print_from : ℕ → ℕ → Text → Text
print_from zero n acc = acc
print_from (suc fuel) n acc =
    let rest = print_from fuel (n / 10) ((n % 10 + b'0') ∷ acc) in
    if ltb n 10 then (n + b'0') ∷ acc else rest

unfoldable pub print_number : ℕ → Text
unfolding print_from
print_number n = print_from (suc n) n []

abbrev pub scale : ℕ
scale = 1_000_000_000_000_000_000

-- The 18 decimals: the digits with zeros in front.
unfoldable pub pad18 : Text → Text
pad18 s = replicate (18 - length s) b'0' ++ s

-- The magnitude of x * 10^18, rounded half up, as big.Rat's FloatString rounds.
unfoldable pub scaled_magnitude : Rat → ℕ
scaled_magnitude x = (2 * ((x.plus - x.minus) + (x.minus - x.plus)) * scale + x.den) / (2 * x.den)

-- `FloatString(18)`
unfoldable pub float_string : Rat → Text
unfolding print_number pad18 scaled_magnitude
float_string x =
    let m = scaled_magnitude x in
    let s = print_number (m / scale) ++ b'.' ∷ pad18 (print_number (m % scale)) in
    if ltb x.plus x.minus then b'-' ∷ s else s

abbrev pub exceeds_precision : String
exceeds_precision = "decimal operation exceeds precision"

-- `!ok || q.Cmp(r) != 0`
unfoldable pub reads_as : Option Rat → Rat → Bool
unfolding cmp_rat
reads_as none r = false
reads_as (some q) r = elim (cmp_rat q r) [ Ordering.eq ↦ true | _ ↦ false ]

unfoldable pub exact : Rat → Result String Text
unfolding float_string reads_as canonical_decimal set_string
exact r =
    let s = float_string r in
    if reads_as (set_string s) r then canonical_decimal s else err exceeds_precision

unfoldable pub add : Text → Text → Result String Text
unfolding rational exact add_rat
add a b = do x ← rational a; y ← rational b; exact (add_rat x y)

unfoldable pub sub : Text → Text → Result String Text
unfolding rational exact sub_rat
sub a b = do x ← rational a; y ← rational b; exact (sub_rat x y)

unfoldable pub mul : Text → Text → Result String Text
unfolding rational exact mul_rat
mul a b = do x ← rational a; y ← rational b; exact (mul_rat x y)

unfoldable pub compare_decimal : Text → Text → Result String Ordering
unfolding rational cmp_rat
compare_decimal a b = do x ← rational a; y ← rational b; ok (cmp_rat x y)

unfoldable pub negate : Text → Result String Text
unfolding sub
negate a = sub zero_text a

-- `strings.TrimPrefix(s, "-")`
unfoldable pub drop_minus : Text → Text
drop_minus [] = []
drop_minus (c ∷ s) = if c == b'-' then s else c ∷ s

unfoldable pub abs : Text → Result String Text
unfolding canonical_decimal drop_minus
abs a = do s ← canonical_decimal a; ok (drop_minus s)

add_runs : add (codes " 0012.50") (codes "-2.5") ≡ ok (codes "10")
unfolding add
add_runs = refl

mul_runs : mul (codes "1.25") (codes "-.4") ≡ ok (codes "-0.5")
unfolding mul
mul_runs = refl

mul_refused : mul (codes "0.0000000001") (codes "0.0000000001") ≡ err exceeds_precision
unfolding mul
mul_refused = refl
