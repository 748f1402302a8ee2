-- ===== src/Activity/Decimal/Canonical.antt =====
-- The form of the texts that `CanonicalDecimal` answers.
use traio.Prelude.{
  ℕ, ◌≤◌, ◌≡◌, refl, Bool, true, false, ◌&&◌, List, [], ◌∷◌, ◌++◌, arith, ◌==◌, ok, is_empty,
  length, all, All, Bool-cases, inl, inr,
}
use traio.Text.{Text, is_digit}
use traio.Text.Trim.{trim_left, trim_right, trim_space}
use traio.Text.Split.{split}
use traio.Activity.Decimal.{
  is_zero_digit, is_negative, drop_sign, or_zero, join_parts, put_sign, canonical_sized,
  canonical_parts, canonical_pieces, canonical_trimmed, canonical_decimal,
}

abbrev pub Digits : Text → Type 0
Digits = All (λ c. is_digit c ≡ true)

-- No leading zero, but for the number 0 itself.
abbrev pub IsWhole : Text → Type 0
IsWhole [] = ⊥
IsWhole (c ∷ []) = Unit
IsWhole (c ∷ d ∷ s) = (c == b'0') ≡ false

-- No trailing zero.
abbrev pub IsFraction : Text → Type 0
IsFraction [] = Unit
IsFraction (c ∷ []) = (c == b'0') ≡ false
IsFraction (c ∷ d ∷ s) = IsFraction (d ∷ s)

pub record IsCanonical (negative : Bool) (whole frac : Text) : Type 0 where
  pub whole_digits : Digits whole
  pub frac_digits : Digits frac
  pub whole_form : IsWhole whole
  pub frac_form : IsFraction frac
  pub whole_fits : length whole ≤ 20
  pub frac_fits : length frac ≤ 18

abbrev pub render : Bool → Text → Text → Text
render negative whole frac = put_sign negative (join_parts whole frac)

Digits-append : (s t : Text) → all is_digit (s ++ t) ≡ true → Digits s × Digits t
Digits-append [] [] h = (tt, tt)
Digits-append [] (c ∷ t) h =
    let (_, r) = Digits-append [] t (ground arith) in (tt, (ground arith, r))
Digits-append (c ∷ s) t h = let (l, r) = Digits-append s t (ground arith) in ((ground arith, l), r)

Digits-trim_left : (s : Text) → Digits s → Digits (trim_left is_zero_digit s)
unfolding trim_left
Digits-trim_left [] h = tt
Digits-trim_left (c ∷ s) h = elim (Bool-cases (c == b'0')) [
  | inl e ↦ rw e (Digits-trim_left s h.1)
  | inr e ↦ rw e h
]

Digits-trim_right : (s : Text) → Digits s → Digits (trim_right is_zero_digit s)
unfolding trim_right
Digits-trim_right [] h = tt
Digits-trim_right (c ∷ s) h =
    elim (Bool-cases (is_empty (trim_right is_zero_digit s) && is_zero_digit c)) [
      | inl e ↦ rw e tt
      | inr e ↦ rw e (h.0, Digits-trim_right s h.1)
    ]

Digits-or_zero : (s : Text) → Digits s → Digits (or_zero s)
unfolding or_zero
Digits-or_zero [] h = (refl, tt)
Digits-or_zero (c ∷ s) h = h

IsWhole-nonzero : (c : ℕ) (s : Text) → (c == b'0') ≡ false → IsWhole (c ∷ s)
IsWhole-nonzero c [] h = tt
IsWhole-nonzero c (d ∷ s) h = h

or_zero-trim_left-IsWhole : (s : Text) → IsWhole (or_zero (trim_left is_zero_digit s))
unfolding or_zero trim_left
or_zero-trim_left-IsWhole [] = tt
or_zero-trim_left-IsWhole (c ∷ s) = elim (Bool-cases (c == b'0')) [
  | inl e ↦ rw e (or_zero-trim_left-IsWhole s)
  | inr e ↦ rw e (IsWhole-nonzero c s e)
]

IsFraction-cons :
    (c : ℕ) (s : Text) → (is_empty s && is_zero_digit c) ≡ false → IsFraction s → IsFraction (c ∷ s)
IsFraction-cons c [] h f = h
IsFraction-cons c (d ∷ s) h f = f

trim_right-IsFraction : (s : Text) → IsFraction (trim_right is_zero_digit s)
unfolding trim_right
trim_right-IsFraction [] = tt
trim_right-IsFraction (c ∷ s) =
    elim (Bool-cases (is_empty (trim_right is_zero_digit s) && is_zero_digit c)) [
      | inl e ↦ rw e tt
      | inr e ↦ rw e (IsFraction-cons c (trim_right is_zero_digit s) e (trim_right-IsFraction s))
    ]

sized-parts :
    (n : Bool) (w f : Text) {t : Text}
    → Digits w
    → Digits f
    → IsWhole w
    → IsFraction f
    → canonical_sized n w f ≡ ok t
    → IsCanonical n w f × (t ≡ render n w f)
unfolding canonical_sized
sized-parts n w f dw df ww ff h = (
  record {
    whole_digits = dw;
    frac_digits = df;
    whole_form = ww;
    frac_form = ff;
    whole_fits = ground arith;
    frac_fits = ground arith;
  },
  ground arith,
)

-- How the two runs of digits of an accepted text end up in the answer.
pub record Kept (n : Bool) (w f t : Text) : Type 0 where
  pub some_digit : (is_empty w && is_empty f) ≡ false
  pub digits : Digits w × Digits f
  pub form : IsCanonical n (or_zero (trim_left is_zero_digit w)) (trim_right is_zero_digit f)
  pub rendered : t ≡ render n (or_zero (trim_left is_zero_digit w)) (trim_right is_zero_digit f)

pub canonical_parts-Kept :
    (n : Bool) (w f : Text) {t : Text} → canonical_parts n w f ≡ ok t → Kept n w f t
unfolding canonical_parts
canonical_parts-Kept n w f {t} h = record {
  some_digit = ground arith;
  digits = d;
  form = s.0;
  rendered = s.1;
}
  where
    d : Digits w × Digits f
    d = Digits-append w f (unfold canonical_parts in ground arith)

    s :
        IsCanonical n (or_zero (trim_left is_zero_digit w)) (trim_right is_zero_digit f)
        × (t ≡ render n (or_zero (trim_left is_zero_digit w)) (trim_right is_zero_digit f))
    s =
        sized-parts n (or_zero (trim_left is_zero_digit w)) (trim_right is_zero_digit f)
          (Digits-or_zero (trim_left is_zero_digit w) (Digits-trim_left w d.0))
          (Digits-trim_right f d.1) (or_zero-trim_left-IsWhole w) (trim_right-IsFraction f)
          (unfold canonical_parts in ground arith)

-- The pieces between points that an accepted text has.
pub data Pieces (n : Bool) (t : Text) : List Text → Type 0 where
  integer : (w : Text) → Kept n w [] t → Pieces n t (w ∷ [])
  pointed : (w f : Text) → Kept n w f t → Pieces n t (w ∷ f ∷ [])

pub canonical_pieces-Pieces :
    (n : Bool) (ps : List Text) {t : Text} → canonical_pieces n ps ≡ ok t → Pieces n t ps
unfolding canonical_pieces
canonical_pieces-Pieces n [] h = cc
canonical_pieces-Pieces n (w ∷ []) h = integer w (canonical_parts-Kept n w [] h)
canonical_pieces-Pieces n (w ∷ f ∷ []) h = pointed w f (canonical_parts-Kept n w f h)
canonical_pieces-Pieces n (w ∷ f ∷ g ∷ r) h = cc

pub canonical_decimal-Pieces :
    (s : Text) {t : Text}
    → canonical_decimal s ≡ ok t
    → Pieces (is_negative (trim_space s)) t (split b'.' (drop_sign (trim_space s)))
unfolding canonical_decimal
canonical_decimal-Pieces s {t} h =
    canonical_pieces-Pieces (is_negative (trim_space s)) (split b'.' (drop_sign (trim_space s)))
      (unfold canonical_decimal canonical_trimmed in ground arith)
