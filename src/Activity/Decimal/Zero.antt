-- ===== src/Activity/Decimal/Zero.antt =====
-- The text "0" and the number zero.
use traio.Prelude.{◌+◌, ◌*◌, ◌≡◌, refl, ◌∙◌, sym, ◌↔◌, some, ok, arith, ok-eq}
use traio.Text.{Text}
use traio.Rat.{Rat, IsProper, SameValue, sub_rat}
use traio.Rat.Laws.{mul_cancel, mul_pos}
use traio.Activity.Decimal.{canonical_decimal, zero_text}
use traio.Activity.Decimal.Value.{set_string}
use traio.Activity.Decimal.Exact.{canonical_decimal-CanonicalText}
use traio.Activity.Decimal.Numbers.{CanonicalText-unique}
use traio.Activity.Decimal.Arith.{rational, sub}
use traio.Activity.Decimal.Sound.{sub-IsExactResult}
use traio.Activity.Decimal.Total.{Holds, or_error-ok, rational-IsProper}

rational-set_string :
    (t : Text) {x : Rat} → canonical_decimal t ≡ ok t → rational t ≡ ok x → set_string t ≡ some x
unfolding rational
rational-set_string t h k = or_error-ok (set_string t) "invalid decimal" (rw h at k)

zero_canonical : canonical_decimal zero_text ≡ ok zero_text
unfolding canonical_decimal
zero_canonical = refl

zero_read : rational zero_text ≡ ok (record { plus = 0; minus = 0; den = 1 })
unfolding rational
zero_read = refl

zero_number : set_string zero_text ≡ some (record { plus = 0; minus = 0; den = 1 })
unfolding set_string
zero_number = refl

zero_terms : (x r : Rat) → SameValue x r → r.plus ≡ r.minus → x.plus * r.den ≡ x.minus * r.den
zero_terms x r h e = omega (arith, rw e at h)

zero_plus :
    (x r : Rat) → x ≡ record { plus = 0; minus = 0; den = 1 } → SameValue x r → r.plus ≡ r.minus
zero_plus x r e h = zero_parts r (rw e at h)
  where
    zero_parts : (q : Rat) → 0 * q.den + q.minus * 1 ≡ q.plus * 1 + 0 * q.den → q.plus ≡ q.minus
    zero_parts q k = omega arith

zero_value : (x : Rat) → x.plus ≡ x.minus → SameValue x (record { plus = 0; minus = 0; den = 1 })
zero_value x e = omega arith

SameValue-zero_number :
    (x r : Rat) → IsProper r → SameValue x r → r.plus ≡ r.minus → x.plus ≡ x.minus
SameValue-zero_number x r p h e = mul_cancel r.den x.plus x.minus p (zero_terms x r h e)

pub Holds-zero_iff :
    {t : Text} {r : Rat} → IsProper r → Holds t r → (t ≡ zero_text) ↔ (r.plus ≡ r.minus)
Holds-zero_iff {t} {r} p h = (
  λ e.
      let q = ok-eq ((sym h.read) ∙ (rw e zero_read)) in
      (let v = h.same in zero_plus h.number r q v),
  λ e.
      CanonicalText-unique (canonical_decimal-CanonicalText t h.canonical)
        (canonical_decimal-CanonicalText zero_text zero_canonical)
        (rw (rational-set_string t h.canonical h.read, zero_number)
          (zero_value h.number (SameValue-zero_number h.number r p h.same e))),
)

sub-IsProper : (x y : Rat) → IsProper x → IsProper y → IsProper (sub_rat x y)
unfolding sub_rat
sub-IsProper x y h k = mul_pos x.den y.den h k

sub-zero_iff : (x y : Rat) → ((sub_rat x y).plus ≡ (sub_rat x y).minus) ↔ SameValue x y
unfolding sub_rat
sub-zero_iff x y = (λ h. omega arith, λ h. omega arith)

-- A difference that `Sub` answers is the text "0" exactly when its operands are one number.
pub sub-zero :
    (a b : Text) {c : Text} {x y : Rat}
    → rational a ≡ ok x
    → rational b ≡ ok y
    → sub a b ≡ ok c
    → (c ≡ zero_text) ↔ SameValue x y
sub-zero a b {c} {x} {y} ha hb h =
    let p = sub-IsExactResult a b h in
    let l = ok-eq (sym p.left_read ∙ ha) in
    let m = ok-eq (sym p.right_read ∙ hb) in
    let k : Holds c (sub_rat x y) = record {
      canonical = p.canonical;
      number = p.result;
      read = p.result_read;
      same = rw (← l, ← m) p.same;
    } in
    let z = Holds-zero_iff (sub-IsProper x y (rational-IsProper a ha) (rational-IsProper b hb)) k in
    (λ e. (sub-zero_iff x y).0 (z.0 e), λ e. z.1 ((sub-zero_iff x y).1 e))
