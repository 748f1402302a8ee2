-- ===== src/Activity/Decimal/Unique.antt =====
-- Canonical texts of one number.
use native.Mathlib.Decide.{dec_lt}
use traio.Prelude.{
  ℕ, zero, suc, ◌+◌, ◌-◌, ◌*◌, ◌≤◌, ◌<◌, ◌≡◌, refl, sym, Bool, true, false, [], ◌∷◌, ◌++◌, arith,
  ◌==◌, length, if◌then◌else◌,
}
use traio.Text.{Text, is_digit}
use traio.Rat.{signed_rat, SameValue}
use traio.Activity.Decimal.{zero_text, join_parts, put_sign}
use traio.Activity.Decimal.Canonical.{Digits, IsWhole, IsFraction, IsCanonical, render}
use traio.Activity.Decimal.Render.{shown}
use traio.Activity.Decimal.Value.{number_from, number, pow10, pow10_pos}
use traio.Activity.Decimal.Exact.{number_from-append}

IsFraction-tail : (c : ℕ) (f : Text) → IsFraction (c ∷ f) → IsFraction f
IsFraction-tail c [] h = tt
IsFraction-tail c (d ∷ f) h = h

mul_small : (b p : ℕ) → b ≤ 9 → b * p ≤ 9 * p
mul_small b p h = grind arith

mul_zero : (a p : ℕ) → 0 < p → a * p ≡ 0 → a ≡ 0
mul_zero a p h e = grind arith

mul_below : (a p : ℕ) → 1 ≤ a → p ≤ a * p
mul_below a p h = grind arith

digit_small : (c : ℕ) → is_digit c ≡ true → c - b'0' ≤ 9
digit_small c h = ground arith

digit_positive : (c : ℕ) → is_digit c ≡ true → (c == b'0') ≡ false → 1 ≤ c - b'0'
digit_positive c h k = ground arith

digit_scaled : (c p : ℕ) → is_digit c ≡ true → (c - b'0') * p ≤ 9 * p
digit_scaled c p h = mul_small (c - b'0') p (digit_small c h)

fraction_nonzero :
    (d : ℕ) (g : Text) → [] ≡ g → is_digit d ≡ true → IsFraction (d ∷ g) → d - b'0' ≡ 0 → ⊥
fraction_nonzero d [] e h f z = ground arith
fraction_nonzero d (c ∷ g) e h f z = cc

-- Two runs of decimals with no trailing zero, after a and b, that make one number.
fraction_unique :
    (a b : ℕ) (f g : Text)
    → Digits f
    → Digits g
    → IsFraction f
    → IsFraction g
    → number_from a f * pow10 (length g) ≡ number_from b g * pow10 (length f)
    → (a ≡ b) × (f ≡ g)
unfolding number_from
fraction_unique a b [] [] df dg ff fg h = (omega arith, refl)
fraction_unique a b [] (d ∷ g) df dg ff fg h =
    let ih =
      fraction_unique (a * 10) (b * 10 + (d - b'0')) [] g tt dg.1 tt (IsFraction-tail d g fg)
        (omega arith) in
    absurd (fraction_nonzero d g ih.1 dg.0 fg (omega (arith, ih.0, digit_small d dg.0)))
fraction_unique a b (c ∷ f) [] df dg ff fg h =
    let ih =
      fraction_unique (a * 10 + (c - b'0')) (b * 10) f [] df.1 tt (IsFraction-tail c f ff) tt
        (omega arith) in
    absurd (fraction_nonzero c f (sym ih.1) df.0 ff (omega (arith, ih.0, digit_small c df.0)))
fraction_unique a b (c ∷ f) (d ∷ g) df dg ff fg h =
    let ih =
      fraction_unique (a * 10 + (c - b'0')) (b * 10 + (d - b'0')) f g df.1 dg.1
        (IsFraction-tail c f ff) (IsFraction-tail d g fg) (omega arith) in
    (ground (arith, ih.0, df.0, dg.0), ground (arith, ih.0, ih.1, df.0, dg.0))

same_length_unique :
    (a b : ℕ) (s t : Text)
    → Digits s
    → Digits t
    → length s ≡ length t
    → number_from a s ≡ number_from b t
    → (a ≡ b) × (s ≡ t)
unfolding number_from
same_length_unique a b [] [] ds dt l h = (h, refl)
same_length_unique a b [] (d ∷ t) ds dt l h = absurd (omega arith)
same_length_unique a b (c ∷ s) [] ds dt l h = absurd (omega arith)
same_length_unique a b (c ∷ s) (d ∷ t) ds dt l h =
    let ih =
      same_length_unique (a * 10 + (c - b'0')) (b * 10 + (d - b'0')) s t ds.1 dt.1 (omega arith)
        h in
    (ground (arith, ih.0, ds.0, dt.0), ground (arith, ih.0, ih.1, ds.0, dt.0))

number_from_bounds :
    (a : ℕ) (s : Text)
    → Digits s
    → (a * pow10 (length s) ≤ number_from a s) × (number_from a s < (a + 1) * pow10 (length s))
unfolding number_from
number_from_bounds a [] ds = (omega arith, omega arith)
number_from_bounds a (c ∷ s) ds =
    let ih = number_from_bounds (a * 10 + (c - b'0')) s ds.1 in
    let d = digit_scaled c (pow10 (length s)) ds.0 in (omega (arith, ih.0), omega (arith, ih.1, d))

pow10-le : (m n : ℕ) → m ≤ n → pow10 m ≤ pow10 n
pow10-le zero n h = omega (arith, pow10_pos n)
pow10-le (suc m) zero h = absurd (omega arith)
pow10-le (suc m) (suc n) h = omega (arith, pow10-le m n (omega arith))

-- A number with a leading digit that is not 0 has as many digits as its size says.
leading_length :
    (a b : ℕ) (s t : Text)
    → 1 ≤ a
    → b ≤ 9
    → Digits s
    → Digits t
    → number_from a s ≡ number_from b t
    → length s ≤ length t
leading_length a b s t pa pb ds dt h = elim (dec_lt (length t) (length s)) [
  | yes more ↦ absurd (
      omega (
        arith,
        h,
        (number_from_bounds a s ds).0,
        (number_from_bounds b t dt).1,
        pow10-le (suc (length t)) (length s) more,
        mul_below a (pow10 (length s)) pa,
        mul_small b (pow10 (length t)) pb,
      ))
  | no fewer ↦ omega arith
]

whole_unique :
    (w v : Text) → Digits w → Digits v → IsWhole w → IsWhole v → number w ≡ number v → w ≡ v
unfolding number_from
whole_unique [] v dw dv ww wv h = absurd ww
whole_unique (c ∷ w) [] dw dv ww wv h = absurd wv
whole_unique (c ∷ []) (d ∷ []) dw dv ww wv h = ground (arith, dw.0, dv.0)
whole_unique (c ∷ []) (d ∷ e ∷ v) dw dv ww wv h = absurd (
    omega (
      arith,
      leading_length (0 + (d - b'0')) (0 + (c - b'0')) (e ∷ v) []
          (omega (arith, digit_positive d dv.0 wv)) (omega (arith, digit_small c dw.0)) dv.1 tt
          (sym h),
    ))
whole_unique (c ∷ e ∷ w) (d ∷ []) dw dv ww wv h = absurd (
    omega (
      arith,
      leading_length (0 + (c - b'0')) (0 + (d - b'0')) (e ∷ w) []
          (omega (arith, digit_positive c dw.0 ww)) (omega (arith, digit_small d dv.0)) dw.1 tt h,
    ))
whole_unique (c ∷ e ∷ w) (d ∷ i ∷ v) dw dv ww wv h =
    let l =
      leading_length (0 + (c - b'0')) (0 + (d - b'0')) (e ∷ w) (i ∷ v)
        (omega (arith, digit_positive c dw.0 ww)) (omega (arith, digit_small d dv.0)) dw.1 dv.1 h in
    let m =
      leading_length (0 + (d - b'0')) (0 + (c - b'0')) (i ∷ v) (e ∷ w)
        (omega (arith, digit_positive d dv.0 wv)) (omega (arith, digit_small c dw.0)) dv.1 dw.1
        (sym h) in
    (same_length_unique 0 0 (c ∷ e ∷ w) (d ∷ i ∷ v) dw dv (omega arith) h).1

-- Two canonical magnitudes with one value are one.
magnitude_unique :
    {n m : Bool} (w f v g : Text)
    → IsCanonical n w f
    → IsCanonical m v g
    → number (w ++ f) * pow10 (length g) ≡ number (v ++ g) * pow10 (length f)
    → (w ≡ v) × (f ≡ g)
magnitude_unique w f v g cw cv h =
    let both =
      fraction_unique (number w) (number v) f g cw.frac_digits cv.frac_digits cw.frac_form
        cv.frac_form (rw (← number_from-append 0 w f, ← number_from-append 0 v g) h) in
    (whole_unique w v cw.whole_digits cv.whole_digits cw.whole_form cv.whole_form both.0, both.1)

-- A canonical text that reads as a zero shows no sign.
shown_zero : (n : Bool) (w f : Text) → IsCanonical n w f → number (w ++ f) ≡ 0 → shown n w f ≡ false
unfolding join_parts number_from
shown_zero n w f c h =
    let both =
      magnitude_unique {m = false} w f zero_text [] c
        (record {
          whole_digits = (refl, tt);
          frac_digits = tt;
          whole_form = tt;
          frac_form = tt;
          whole_fits = omega arith;
          frac_fits = omega arith;
        })
        (rw h (omega arith)) in
    rw (both.0, both.1) (ground arith)

put_sign-by_shown :
    (n : Bool) (w f : Text)
    → render n w f ≡ (if shown n w f then b'-' ∷ join_parts w f else join_parts w f)
unfolding put_sign
put_sign-by_shown n w f = refl

pub render_unique :
    (n m : Bool) (w f v g : Text)
    → IsCanonical n w f
    → IsCanonical m v g
    → (a b : Bool) → shown n w f ≡ a
    → shown m v g ≡ b
    → SameValue
        (signed_rat a (number (w ++ f)) (pow10 (length f)))
        (signed_rat b (number (v ++ g)) (pow10 (length g)))
    → render n w f ≡ render m v g
render_unique n m w f v g cw cv true true p q h =
    let both = magnitude_unique w f v g cw cv (omega arith) in
    rw (put_sign-by_shown n w f, put_sign-by_shown m v g, p, q, both.0, both.1) refl
render_unique n m w f v g cw cv false false p q h =
    let both = magnitude_unique w f v g cw cv (omega arith) in
    rw (put_sign-by_shown n w f, put_sign-by_shown m v g, p, q, both.0, both.1) refl
render_unique n m w f v g cw cv true false p q h =
    let z = mul_zero (number (w ++ f)) (pow10 (length g)) (pow10_pos (length g)) (omega arith) in
    cc (shown_zero n w f cw z)
render_unique n m w f v g cw cv false true p q h =
    let z = mul_zero (number (v ++ g)) (pow10 (length f)) (pow10_pos (length f)) (omega arith) in
    cc (shown_zero m v g cv z)
