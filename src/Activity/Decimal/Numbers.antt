-- ===== src/Activity/Decimal/Numbers.antt =====
-- Texts and the numbers that they stand for.
use traio.Prelude.{◌≡◌, ◌↔◌, refl, Option, none, some, ok, arith}
use traio.Text.{Text}
use traio.Text.Trim.{trim_space}
use traio.Rat.{Rat, IsProper}
use traio.Rat.Laws.{SameValue-trans}
use traio.Activity.Decimal.{canonical_decimal}
use traio.Activity.Decimal.Render.{shown}
use traio.Activity.Decimal.Value.{set_string, set_string-IsProper}
use traio.Activity.Decimal.Exact.{
  KeepsValue, CanonicalText, canonical_decimal-CanonicalText, canonical_decimal_value,
  set_string-render,
}
use traio.Activity.Decimal.Unique.{render_unique}

pub CanonicalText-unique :
    {s t : Text}
    → CanonicalText s
    → CanonicalText t
    → KeepsValue (set_string s) (set_string t)
    → s ≡ t
CanonicalText-unique {s} {t} a b h =
    rw (a.rendered, b.rendered)
      (render_unique a.negative b.negative a.whole a.frac b.whole b.frac a.form b.form
        (shown a.negative a.whole a.frac) (shown b.negative b.whole b.frac) refl refl
        (rw
          (
            a.rendered,
            b.rendered,
            set_string-render a.negative a.whole a.frac a.form,
            set_string-render b.negative b.whole b.frac b.form,
          )
          at h))

pub KeepsValue-sym : (x y : Option Rat) → KeepsValue x y → KeepsValue y x
KeepsValue-sym none y h = absurd h
KeepsValue-sym (some x) none h = absurd h
KeepsValue-sym (some x) (some y) h = omega arith

abbrev pub IsReadProper : Option Rat → Type 0
IsReadProper none = Unit
IsReadProper (some x) = IsProper x

read_proper : (o : Option Rat) (h : (r : Rat) → o ≡ some r → IsProper r) → IsReadProper o
read_proper none h = tt
read_proper (some x) h = h x refl

pub set_string-IsReadProper : (s : Text) → IsReadProper (set_string s)
set_string-IsReadProper s = read_proper (set_string s) (λ r e. set_string-IsProper s e)

pub KeepsValue-trans :
    (x y z : Option Rat) → IsReadProper y → KeepsValue x y → KeepsValue y z → KeepsValue x z
KeepsValue-trans none y z p h k = absurd h
KeepsValue-trans (some x) none z p h k = absurd h
KeepsValue-trans (some x) (some y) none p h k = absurd k
KeepsValue-trans (some x) (some y) (some z) p h k = SameValue-trans x y z p h k

-- Two accepted texts have the same answer exactly when they are, once trimmed, the same number.
pub canonical_decimal_unique :
    (a b : Text) {s t : Text}
    → canonical_decimal a ≡ ok s
    → canonical_decimal b ≡ ok t
    → (s ≡ t) ↔ KeepsValue (set_string (trim_space a)) (set_string (trim_space b))
canonical_decimal_unique a b {s} {t} h k =
    let va = canonical_decimal_value a h in
    let vb = canonical_decimal_value b k in
    let x = set_string (trim_space a) in
    let y = set_string (trim_space b) in
    (
      λ e.
          KeepsValue-trans x (set_string s) y (set_string-IsReadProper s) va
            (rw e (KeepsValue-sym y (set_string t) vb)),
      λ e.
          CanonicalText-unique (canonical_decimal-CanonicalText a h)
            (canonical_decimal-CanonicalText b k)
            (KeepsValue-trans (set_string s) x (set_string t)
              (set_string-IsReadProper (trim_space a)) (KeepsValue-sym x (set_string s) va)
              (KeepsValue-trans x y (set_string t) (set_string-IsReadProper (trim_space b)) e vb)),
    )
