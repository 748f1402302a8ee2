-- ===== src/Activity/Decimal/Render.antt =====
-- Reading back a canonical text: its sign, its pieces, its characters.

use traio.Prelude.{
  ℕ, ◌+◌, ◌≤◌, ◌≡◌, refl, Bool, true, false, not, ◌&&◌, List, [], ◌∷◌, ◌++◌, arith, ltb, ok,
  is_empty, length, length-append, all, All, Bool-cases, inl, inr,
}
use traio.Text.{Text, text_eq, utf8_length, is_digit, is_space}
use traio.Text.Trim.{trim_left, trim_right, trim_space, trim_space_keep, Keeps}
use traio.Text.Split.{split, split_one, split_at, Avoids}
use traio.Activity.Decimal.{
  zero_text, is_zero_digit, is_negative, drop_sign, or_zero, join_parts, put_sign, canonical_sized,
  canonical_parts, canonical_pieces, canonical_trimmed, canonical_decimal,
}
use traio.Activity.Decimal.Canonical.{Digits, IsWhole, IsFraction, IsCanonical, render}

Digits-Avoids : (s : Text) → Digits s → Avoids b'.' s
Digits-Avoids [] h = tt
Digits-Avoids (c ∷ s) h = (ground arith, Digits-Avoids s h.1)

abbrev pub parts_of : Text → Text → List Text
parts_of w [] = w ∷ []
parts_of w (c ∷ f) = w ∷ (c ∷ f) ∷ []

pub split-join_parts :
    (w f : Text) → Digits w → Digits f → split b'.' (join_parts w f) ≡ parts_of w f
unfolding join_parts
split-join_parts w [] dw df = split_one b'.' w (Digits-Avoids w dw)
split-join_parts w (c ∷ f) dw df =
    split_at b'.' w (c ∷ f) (Digits-Avoids w dw) (Digits-Avoids (c ∷ f) df)

-- A character of a decimal: no space, and one byte long.
abbrev pub IsPlain : ℕ → Type 0
IsPlain c = (is_space c ≡ false) × (ltb c 0x80 ≡ true)

pub Digits-All-IsPlain : (s : Text) → Digits s → All IsPlain s
unfolding is_space
Digits-All-IsPlain [] h = tt
Digits-All-IsPlain (c ∷ s) h = ((ground arith, ground arith), Digits-All-IsPlain s h.1)

All-IsPlain-append : (s t : Text) → All IsPlain s → All IsPlain t → All IsPlain (s ++ t)
All-IsPlain-append [] t h k = k
All-IsPlain-append (c ∷ s) t h k = (h.0, All-IsPlain-append s t h.1 k)

join_parts-All-IsPlain : (w f : Text) → Digits w → Digits f → All IsPlain (join_parts w f)
unfolding join_parts is_space
join_parts-All-IsPlain w [] dw df = Digits-All-IsPlain w dw
join_parts-All-IsPlain w (c ∷ f) dw df =
    All-IsPlain-append w (b'.' ∷ c ∷ f) (Digits-All-IsPlain w dw)
      ((refl, refl), Digits-All-IsPlain (c ∷ f) df)

put_sign-All-IsPlain : (n : Bool) (s : Text) → All IsPlain s → All IsPlain (put_sign n s)
unfolding put_sign is_space
put_sign-All-IsPlain n s h = elim (Bool-cases (n && not (text_eq s zero_text))) [
  | inl e ↦ rw e ((refl, refl), h)
  | inr e ↦ rw e h
]

pub All-IsPlain-Keeps : (s : Text) → All IsPlain s → Keeps is_space s
All-IsPlain-Keeps [] h = tt
All-IsPlain-Keeps (c ∷ s) h = (h.0.0, All-IsPlain-Keeps s h.1)

utf8_length-plain : (s : Text) → All IsPlain s → utf8_length s ≡ length s
utf8_length-plain [] h = refl
utf8_length-plain (c ∷ s) h = ground (arith, utf8_length-plain s h.1)

length-join_parts : (w f : Text) → length (join_parts w f) ≤ length w + length f + 1
unfolding join_parts
length-join_parts w [] = omega arith
length-join_parts w (c ∷ f) = omega (arith, length-append {0} w (b'.' ∷ c ∷ f))

length-put_sign : (n : Bool) (s : Text) → length (put_sign n s) ≤ length s + 1
unfolding put_sign
length-put_sign n s = ground arith

-- The first character of a canonical text without its sign is a digit.
drop_sign-put_sign :
    (n : Bool) (c : ℕ) (s : Text) → is_digit c ≡ true → drop_sign (put_sign n (c ∷ s)) ≡ c ∷ s
unfolding drop_sign put_sign
drop_sign-put_sign n c s h = ground arith

is_negative-put_sign :
    (n : Bool) (c : ℕ) (s : Text)
    → is_digit c ≡ true
    → is_negative (put_sign n (c ∷ s)) ≡ (n && not (text_eq (c ∷ s) zero_text))
unfolding is_negative put_sign
is_negative-put_sign n c s h = ground arith

-- Whether the sign is written.
abbrev pub shown : Bool → Text → Text → Bool
shown n w f = n && not (text_eq (join_parts w f) zero_text)

record FirstDigit (s : Text) : Type 0 where
  first : ℕ
  rest : Text
  splits : s ≡ first ∷ rest
  digit : is_digit first ≡ true

join_parts-FirstDigit : (w f : Text) → Digits w → IsWhole w → FirstDigit (join_parts w f)
unfolding join_parts
join_parts-FirstDigit [] f dw ww = absurd ww
join_parts-FirstDigit (c ∷ w) [] dw ww = record { first = c; rest = w; splits = refl; digit = dw.0 }
join_parts-FirstDigit (c ∷ w) (d ∷ f) dw ww = record {
  first = c;
  rest = w ++ b'.' ∷ d ∷ f;
  splits = refl;
  digit = dw.0;
}

is_empty-put_sign : (n : Bool) (c : ℕ) (s : Text) → is_empty (put_sign n (c ∷ s)) ≡ false
unfolding put_sign
is_empty-put_sign n c s = ground arith

module _ (n : Bool) (w f : Text) (form : IsCanonical n w f) where
  first_digit : FirstDigit (join_parts w f)
  first_digit = join_parts-FirstDigit w f form.whole_digits form.whole_form

  pub drop_sign-render : drop_sign (render n w f) ≡ join_parts w f
  drop_sign-render =
      rw first_digit.splits
        (drop_sign-put_sign n first_digit.first first_digit.rest first_digit.digit)

  pub is_negative-render : is_negative (render n w f) ≡ shown n w f
  is_negative-render =
      rw first_digit.splits
        (is_negative-put_sign n first_digit.first first_digit.rest first_digit.digit)

  is_empty-render : is_empty (render n w f) ≡ false
  is_empty-render = rw first_digit.splits (is_empty-put_sign n first_digit.first first_digit.rest)

  is_empty-join_parts : is_empty (join_parts w f) ≡ false
  is_empty-join_parts = rw first_digit.splits refl

  pub trim_space-render : trim_space (render n w f) ≡ render n w f
  trim_space-render = trim_space_keep (render n w f) (
      All-IsPlain-Keeps (render n w f) (
        put_sign-All-IsPlain n (join_parts w f)
          (join_parts-All-IsPlain w f form.whole_digits form.frac_digits)))

  utf8_length-render : utf8_length (render n w f) ≤ 40
  utf8_length-render = omega (
    arith,
    utf8_length-plain (render n w f) (
        put_sign-All-IsPlain n (join_parts w f)
          (join_parts-All-IsPlain w f form.whole_digits form.frac_digits)),
    length-put_sign n (join_parts w f),
    length-join_parts w f,
    form.whole_fits,
    form.frac_fits,
  )

all-Digits : (s : Text) → Digits s → all is_digit s ≡ true
all-Digits [] h = refl
all-Digits (c ∷ s) h = ground (arith, all-Digits s h.1)

pub all-Digits_append : (s t : Text) → Digits s → Digits t → all is_digit (s ++ t) ≡ true
all-Digits_append [] t h k = all-Digits t k
all-Digits_append (c ∷ s) t h k = ground (arith, all-Digits_append s t h.1 k)

or_zero-trim_left_keep : (w : Text) → IsWhole w → or_zero (trim_left is_zero_digit w) ≡ w
unfolding or_zero trim_left
or_zero-trim_left_keep [] h = absurd h
or_zero-trim_left_keep (c ∷ []) h = ground arith
or_zero-trim_left_keep (c ∷ d ∷ s) h = ground arith

trim_right-IsFraction_keep : (f : Text) → IsFraction f → trim_right is_zero_digit f ≡ f
unfolding trim_right
trim_right-IsFraction_keep [] h = refl
trim_right-IsFraction_keep (c ∷ []) h = ground arith
trim_right-IsFraction_keep (c ∷ d ∷ s) h =
    let ih = trim_right-IsFraction_keep (d ∷ s) h in rw ih refl

whole_not_empty : (w : Text) → IsWhole w → is_empty w ≡ false
whole_not_empty [] h = absurd h
whole_not_empty (c ∷ w) h = refl

put_sign-shown : (n : Bool) (s : Text) → put_sign (n && not (text_eq s zero_text)) s ≡ put_sign n s
unfolding put_sign
put_sign-shown n s = ground arith

module _ (n : Bool) (w f : Text) (form : IsCanonical n w f) where
  canonical_sized-keep :
      canonical_sized
        (shown n w f)
        (or_zero (trim_left is_zero_digit w))
        (trim_right is_zero_digit f)
      ≡ ok (render n w f)
  canonical_sized-keep =
      rw (or_zero-trim_left_keep w form.whole_form, trim_right-IsFraction_keep f form.frac_form)
        (unfold canonical_sized in
          ground (arith, put_sign-shown n (join_parts w f), form.whole_fits, form.frac_fits))

  is_empty-whole : is_empty w ≡ false
  is_empty-whole = whole_not_empty w form.whole_form

  canonical_parts-keep : canonical_parts (shown n w f) w f ≡ ok (render n w f)
  unfolding canonical_parts
  canonical_parts-keep = ground (
    arith,
    is_empty-whole,
    all-Digits_append w f form.whole_digits form.frac_digits,
    canonical_sized-keep,
  )

canonical_pieces-parts_of :
    (n : Bool) (w f : Text) → canonical_pieces n (parts_of w f) ≡ canonical_parts n w f
unfolding canonical_pieces
canonical_pieces-parts_of n w [] = refl
canonical_pieces-parts_of n w (c ∷ f) = refl

-- A canonical text is accepted and left as it is.
pub canonical_decimal-render :
    (n : Bool) (w f : Text)
    → IsCanonical n w f
    → canonical_decimal (render n w f) ≡ ok (render n w f)
unfolding canonical_decimal
canonical_decimal-render n w f form = rw (trim_space-render n w f form) (
    unfold canonical_trimmed in
    rw (drop_sign-render n w f form, is_negative-render n w f form)
      (rw
        (
          split-join_parts w f form.whole_digits form.frac_digits,
          canonical_pieces-parts_of (shown n w f) w f,
          canonical_parts-keep n w f form,
        )
        (ground (
          arith,
          is_empty-render n w f form,
          is_empty-join_parts n w f form,
          utf8_length-render n w f form,
        ))))
