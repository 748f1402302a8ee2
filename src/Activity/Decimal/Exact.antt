-- ===== src/Activity/Decimal/Exact.antt =====
-- The number before and after `CanonicalDecimal`.

use mathlib.Core.List.{append-nil}
use traio.Prelude.{
  ℕ, ◌+◌, ◌-◌, ◌*◌, ◌≡◌, refl, ap, ◌∙◌, ◌⊎◌, Bool, true, false, ◌&&◌, Option, some, List, [], ◌∷◌,
  ◌++◌, arith, ◌==◌, ok, is_empty, length, Bool-cases, inl, inr,
}
use traio.Text.{Text, text_eq, text_eq_iff}
use traio.Text.Trim.{trim_left, trim_right, trim_space}
use traio.Text.Split.{split}
use traio.Rat.{Rat, signed_rat, SameValue}
use traio.Activity.Decimal.{
  zero_text, is_zero_digit, is_negative, drop_sign, or_zero, join_parts, canonical_decimal,
}
use traio.Activity.Decimal.Canonical.{
  Digits, IsWhole, IsCanonical, render, Kept, Pieces, integer, pointed, canonical_decimal-Pieces,
}
use traio.Activity.Decimal.Render.{
  parts_of, split-join_parts, shown, drop_sign-render, is_negative-render, canonical_decimal-render,
  all-Digits_append,
}
use traio.Activity.Decimal.Value.{number_from, number, pow10, parts_value, pieces_value, set_string}

-- A text in canonical form.
pub record CanonicalText (t : Text) : Type 0 where
  pub negative : Bool
  pub whole : Text
  pub frac : Text
  pub form : IsCanonical negative whole frac
  pub rendered : t ≡ render negative whole frac

Pieces-CanonicalText : (n : Bool) (ps : List Text) {t : Text} → Pieces n t ps → CanonicalText t
Pieces-CanonicalText n _ (integer w k) = record {
  negative = n;
  whole = or_zero (trim_left is_zero_digit w);
  frac = trim_right is_zero_digit [];
  form = k.form;
  rendered = k.rendered;
}
Pieces-CanonicalText n _ (pointed w f k) = record {
  negative = n;
  whole = or_zero (trim_left is_zero_digit w);
  frac = trim_right is_zero_digit f;
  form = k.form;
  rendered = k.rendered;
}

pub canonical_decimal-CanonicalText :
    (s : Text) {t : Text} → canonical_decimal s ≡ ok t → CanonicalText t
canonical_decimal-CanonicalText s h =
    Pieces-CanonicalText (is_negative (trim_space s)) (split b'.' (drop_sign (trim_space s)))
      (canonical_decimal-Pieces s h)

Kept-idem : (n : Bool) (w f : Text) {t : Text} → Kept n w f t → canonical_decimal t ≡ ok t
Kept-idem n w f k = rw k.rendered (
    canonical_decimal-render n (or_zero (trim_left is_zero_digit w)) (trim_right is_zero_digit f)
      k.form)

Pieces-idem : (n : Bool) (ps : List Text) {t : Text} → Pieces n t ps → canonical_decimal t ≡ ok t
Pieces-idem n _ (integer w k) = Kept-idem n w [] k
Pieces-idem n _ (pointed w f k) = Kept-idem n w f k

-- An answer of `CanonicalDecimal` is accepted again and answered unchanged.
pub canonical_decimal_idem :
    (s : Text) {t : Text} → canonical_decimal s ≡ ok t → canonical_decimal t ≡ ok t
canonical_decimal_idem s h =
    Pieces-idem (is_negative (trim_space s)) (split b'.' (drop_sign (trim_space s)))
      (canonical_decimal-Pieces s h)

pub number_from-append :
    (a : ℕ) (s t : Text) → number_from a (s ++ t) ≡ number_from (number_from a s) t
unfolding number_from
number_from-append a [] t = refl
number_from-append a (c ∷ s) t = number_from-append (a * 10 + (c - b'0')) s t

number_from-or_zero-trim_left : (w : Text) → number (or_zero (trim_left is_zero_digit w)) ≡ number w
unfolding number_from or_zero trim_left
number_from-or_zero-trim_left [] = refl
number_from-or_zero-trim_left (c ∷ w) = elim (Bool-cases (c == b'0')) [
  | inl e ↦ rw e (
      number_from-or_zero-trim_left w
      ∙ ap (λ (t : ℕ). number_from t w) (let z : 0 ≡ 0 * 10 + (c - b'0') = ground arith in z))
  | inr e ↦ rw e refl
]

cut_step :
    (a N p : ℕ) (r : Text)
    → N * pow10 (length r) ≡ number_from (a * 10 + 0) r * p
    → is_empty r ≡ true
    → N * 1 ≡ a * (10 * p)
unfolding number_from
cut_step a N p [] h e = omega arith
cut_step a N p (c ∷ r) h e = cc

-- Cutting trailing zeros scales the numerator and the denominator alike.
number_from-trim_right :
    (a : ℕ) (f : Text)
    → number_from a f * pow10 (length (trim_right is_zero_digit f))
      ≡ number_from a (trim_right is_zero_digit f) * pow10 (length f)
unfolding number_from trim_right
number_from-trim_right a [] = refl
number_from-trim_right a (c ∷ f) =
    elim (Bool-cases (is_empty (trim_right is_zero_digit f) && is_zero_digit c)) [
      | inl e ↦
          let z : c - b'0' ≡ 0 = ground arith in
          rw (e, z)
            (cut_step a (number_from (a * 10 + 0) f) (pow10 (length f)) (trim_right is_zero_digit f)
              (number_from-trim_right (a * 10 + 0) f) (ground arith))
      | inr e ↦ rw e (omega (arith, number_from-trim_right (a * 10 + (c - b'0')) f))
    ]

-- The two fractions of an accepted text: as written, and with its zeros cut.
parts-SameValue :
    (n : Bool) (w f : Text)
    → SameValue (signed_rat n (number (w ++ f)) (pow10 (length f))) (
        signed_rat n
          (number (or_zero (trim_left is_zero_digit w) ++ trim_right is_zero_digit f))
          (pow10 (length (trim_right is_zero_digit f))))
parts-SameValue n w f =
    let e =
      number_from-append 0 (or_zero (trim_left is_zero_digit w)) (trim_right is_zero_digit f) in
    let z = number_from-or_zero-trim_left w in
    let k = number_from-trim_right (number w) f in
    rw (e, z, number_from-append 0 w f) (ground (arith, k))

parts_value-parts_of : (n : Bool) (w f : Text) → pieces_value n (parts_of w f) ≡ parts_value n w f
unfolding pieces_value
parts_value-parts_of n w [] = refl
parts_value-parts_of n w (c ∷ f) = refl

abbrev decimal_rat : Bool → Text → Text → Rat
decimal_rat n w f = signed_rat n (number (w ++ f)) (pow10 (length f))

parts_value-Digits :
    (n : Bool) (c : ℕ) (w f : Text)
    → Digits (c ∷ w)
    → Digits f
    → parts_value n (c ∷ w) f ≡ some (decimal_rat n (c ∷ w) f)
unfolding parts_value
parts_value-Digits n c w f dw df = ground (arith, all-Digits_append (c ∷ w) f dw df)

parts_value_read :
    (n : Bool) (w f : Text)
    → (is_empty w && is_empty f) ≡ false
    → Digits w
    → Digits f
    → parts_value n w f ≡ some (decimal_rat n w f)
unfolding parts_value
parts_value_read n w f e dw df = ground (arith, e, all-Digits_append w f dw df)

pub set_string-render :
    (n : Bool) (w f : Text)
    → IsCanonical n w f
    → set_string (render n w f) ≡ some (decimal_rat (shown n w f) w f)
unfolding set_string
set_string-render n [] f form = absurd form.whole_form
set_string-render n (c ∷ w) f form =
    rw (drop_sign-render n (c ∷ w) f form, is_negative-render n (c ∷ w) f form)
      (rw
        (
          split-join_parts (c ∷ w) f form.whole_digits form.frac_digits,
          parts_value-parts_of (shown n (c ∷ w) f) (c ∷ w) f,
        )
        (parts_value-Digits (shown n (c ∷ w) f) c w f form.whole_digits form.frac_digits))

join_parts_zero : (w f : Text) → IsWhole w → join_parts w f ≡ zero_text → number (w ++ f) ≡ 0
unfolding join_parts number_from
join_parts_zero [] f ww h = absurd ww
join_parts_zero (c ∷ w) [] ww h =
    let h' : c ∷ w ≡ zero_text = h in rw append-nil (ap (λ (t : Text). number_from 0 t) h')
join_parts_zero (c ∷ []) (d ∷ f) ww h = cc
join_parts_zero (c ∷ b ∷ w) (d ∷ f) ww h = cc

shown-cases : (n : Bool) (w f : Text) → IsWhole w → (shown n w f ≡ n) ⊎ (number (w ++ f) ≡ 0)
shown-cases false w f ww = inl refl
shown-cases true w f ww = elim (Bool-cases (text_eq (join_parts w f) zero_text)) [
  | inl e ↦ inr (join_parts_zero w f ww ((text_eq_iff (join_parts w f) zero_text).0 e))
  | inr e ↦ inl (ground (arith, e))
]

-- A zero has one value, whatever its sign.
signed-SameValue :
    (n b : Bool) (k d l e : ℕ)
    → SameValue (signed_rat n k d) (signed_rat n l e)
    → (b ≡ n) ⊎ (l ≡ 0)
    → SameValue (signed_rat n k d) (signed_rat b l e)
signed-SameValue n b k d l e h (inl p) = rw p h
signed-SameValue n b k d l e h (inr p) = ground (arith, h, p)

-- An accepted text and its canonical form.
abbrev pub KeepsValue : Option Rat → Option Rat → Type 0
KeepsValue (some x) (some y) = SameValue x y
KeepsValue _ _ = ⊥

Kept-KeepsValue :
    (n : Bool) (w f : Text) {t : Text}
    → Kept n w f t
    → KeepsValue (parts_value n w f) (set_string t)
Kept-KeepsValue n w f {t} k =
    rw (parts_value_read n w f k.some_digit k.digits.0 k.digits.1, k.rendered)
      (rw
        (set_string-render n (or_zero (trim_left is_zero_digit w)) (trim_right is_zero_digit f)
          k.form)
        (signed-SameValue n
          (shown n (or_zero (trim_left is_zero_digit w)) (trim_right is_zero_digit f))
          (number (w ++ f)) (pow10 (length f))
          (number (or_zero (trim_left is_zero_digit w) ++ trim_right is_zero_digit f))
          (pow10 (length (trim_right is_zero_digit f))) (parts-SameValue n w f)
          (shown-cases n (or_zero (trim_left is_zero_digit w)) (trim_right is_zero_digit f)
            k.form.whole_form)))

Pieces-KeepsValue :
    (n : Bool) (ps : List Text) {t : Text}
    → Pieces n t ps
    → KeepsValue (pieces_value n ps) (set_string t)
unfolding pieces_value
Pieces-KeepsValue n _ (integer w k) = Kept-KeepsValue n w [] k
Pieces-KeepsValue n _ (pointed w f k) = Kept-KeepsValue n w f k

-- An accepted text, once trimmed, and the text answered for it are both read as numbers, and as
-- one and the same number.
pub canonical_decimal_value :
    (s : Text) {t : Text}
    → canonical_decimal s ≡ ok t
    → KeepsValue (set_string (trim_space s)) (set_string t)
unfolding set_string
canonical_decimal_value s h =
    Pieces-KeepsValue (is_negative (trim_space s)) (split b'.' (drop_sign (trim_space s)))
      (canonical_decimal-Pieces s h)

-- A canonical text is read as a number.
pub CanonicalText-read : {t : Text} → CanonicalText t → (x : Rat) × (set_string t ≡ some x)
CanonicalText-read {t} c = (
  decimal_rat (shown c.negative c.whole c.frac) c.whole c.frac,
  rw c.rendered (set_string-render c.negative c.whole c.frac c.form),
)
