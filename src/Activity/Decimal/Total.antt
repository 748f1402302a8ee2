-- ===== src/Activity/Decimal/Total.antt =====
-- Running sums of decimal texts against sums of numbers.
use traio.Prelude.{
  ◌≡◌, refl, String, List, [], ◌∷◌, Option, none, some, Result, ok, ◌>>=◌, >>=-eq-ok, arith,
}
use traio.Text.{Text}
use traio.Rat.{Rat, IsProper, SameValue, add_rat}
use traio.Rat.Laws.{SameValue-add, SameValue-trans, mul_pos}
use traio.Activity.Decimal.{canonical_decimal}
use traio.Activity.Decimal.Value.{set_string, set_string-IsProper}
use traio.Activity.Decimal.Exact.{
  canonical_decimal-CanonicalText, canonical_decimal_idem, CanonicalText-read,
}
use traio.Activity.Decimal.Arith.{or_error, rational, add}
use traio.Activity.Decimal.Sound.{add-IsExactResult}

-- The sum of a number and of the numbers that texts are read as.
unfoldable pub total : Rat → List Text → Result String Rat
unfolding rational add_rat
total r [] = ok r
total r (v ∷ vs) = do x ← rational v; total (add_rat r x) vs

-- A text in canonical form that stands for a number.
pub record Holds (t : Text) (r : Rat) : Type 0 where
  pub canonical : canonical_decimal t ≡ ok t
  pub number : Rat
  pub read : rational t ≡ ok number
  pub same : SameValue number r

pub or_error-ok : (o : Option Rat) (e : String) {x : Rat} → or_error o e ≡ ok x → o ≡ some x
unfolding or_error
or_error-ok none e h = cc
or_error-ok (some y) e h = cc

pub rational-IsProper : (t : Text) {x : Rat} → rational t ≡ ok x → IsProper x
unfolding rational
rational-IsProper t h =
    let (n, _, k) =
      >>=-eq-ok (canonical_decimal t) (λ n. or_error (set_string n) "invalid decimal") h in
    set_string-IsProper n (or_error-ok (set_string n) "invalid decimal" k)

pub add-IsProper : (x y : Rat) → IsProper x → IsProper y → IsProper (add_rat x y)
unfolding add_rat
add-IsProper x y h k = mul_pos x.den y.den h k

ok-injective : {x y : Rat} {r : Result String Rat} → r ≡ ok x → r ≡ ok y → x ≡ y
ok-injective h k = cc

-- A sum that `Add` answers holds the sum of what its operands hold.
pub add-Holds :
    (s v : Text) {t : Text} {r x : Rat}
    → Holds s r
    → rational v ≡ ok x
    → add s v ≡ ok t
    → Holds t (add_rat r x)
add-Holds s v {t} {r} {x} h e k =
    let p = add-IsExactResult s v k in
    let l = ok-injective h.read p.left_read in
    let m = ok-injective e p.right_read in
    record {
      canonical = p.canonical;
      number = p.result;
      read = p.result_read;
      same =
          SameValue-trans p.result (add_rat p.left p.right) (add_rat r x)
            (add-IsProper p.left p.right (rational-IsProper s p.left_read)
              (rational-IsProper v p.right_read))
            p.same (SameValue-add p.left r p.right x (rw l at h.same) (rw m refl));
    }

read_after :
    (o s : Text) (x : Rat) → canonical_decimal o ≡ ok s → set_string s ≡ some x → rational o ≡ ok x
unfolding rational
read_after o s x h e = ground (arith, h, e)

-- The canonical form of an accepted text holds the number that the text is read as.
pub canonical_decimal-Holds :
    (o s : Text) → canonical_decimal o ≡ ok s → (x : Rat) × (rational o ≡ ok x) × Holds s x
canonical_decimal-Holds o s h =
    let (x, e) = CanonicalText-read (canonical_decimal-CanonicalText o h) in
    let k = canonical_decimal_idem o h in
    (
      x,
      read_after o s x h e,
      record { canonical = k; number = x; read = read_after s s x k e; same = refl },
    )
