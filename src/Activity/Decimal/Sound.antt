-- ===== src/Activity/Decimal/Sound.antt =====
-- What the operations on decimals compute.

use traio.Prelude.{
  ℕ, ◌≡◌, refl, inl, inr, Bool, true, ◌||◌, List, [], ◌∷◌, ◌++◌, Option, none, some, ok, ◌>>=◌,
  >>=-eq-ok, arith, All, all, ◌==◌, Bool-cases,
}
use traio.Text.{Text, is_digit, is_space}
use traio.Text.Trim.{trim_space, trim_space_keep}
use traio.Text.Split.{split, push_front}
use traio.Rat.{Rat, SameValue, add_rat, sub_rat, mul_rat}
use traio.Activity.Decimal.{canonical_decimal, is_negative, drop_sign}
use traio.Activity.Decimal.Canonical.{Digits}
use traio.Activity.Decimal.Render.{IsPlain, Digits-All-IsPlain, All-IsPlain-Keeps}
use traio.Activity.Decimal.Value.{set_string, pieces_value, parts_value}
use traio.Activity.Decimal.Exact.{KeepsValue, canonical_decimal_idem, canonical_decimal_value}
use traio.Activity.Decimal.Numbers.{KeepsValue-sym, KeepsValue-trans, set_string-IsReadProper}
use traio.Activity.Decimal.Arith.{rational, float_string, reads_as, exact, add, sub, mul}

-- What set_string reads holds nothing that TrimSpace cuts.
all_digits-IsPlain : (s : Text) → all is_digit s ≡ true → All IsPlain s
all_digits-IsPlain s h = Digits-All-IsPlain s (digits s h)
  where
    digits : (t : Text) → all is_digit t ≡ true → Digits t
    digits [] e = tt
    digits (c ∷ t) e = (ground arith, digits t (ground arith))

All-IsPlain-unappend : (s t : Text) → All IsPlain (s ++ t) → All IsPlain s × All IsPlain t
All-IsPlain-unappend [] t h = (tt, h)
All-IsPlain-unappend (c ∷ s) t h = let (l, r) = All-IsPlain-unappend s t h.1 in ((h.0, l), r)

parts-IsPlain :
    (n : Bool) (w f : Text) {x : Rat} → parts_value n w f ≡ some x → All IsPlain w × All IsPlain f
unfolding parts_value
parts-IsPlain n w f h = All-IsPlain-unappend w f (all_digits-IsPlain (w ++ f) (ground arith))

pieces-IsPlain :
    (n : Bool) (ps : List Text) {x : Rat} → pieces_value n ps ≡ some x → All (All IsPlain) ps
unfolding pieces_value
pieces-IsPlain n [] h = cc
pieces-IsPlain n (w ∷ []) h = ((parts-IsPlain n w [] h).0, tt)
pieces-IsPlain n (w ∷ f ∷ []) h = let (l, r) = parts-IsPlain n w f h in (l, (r, tt))
pieces-IsPlain n (w ∷ f ∷ g ∷ r) h = cc

push-IsPlain :
    (c : ℕ) (ps : List Text)
    → All (All IsPlain) (push_front c ps)
    → IsPlain c × All (All IsPlain) ps
push-IsPlain c [] h = (h.0.0, tt)
push-IsPlain c (p ∷ ps) h = (h.0.0, (h.0.1, h.1))

split-IsPlain : (s : Text) → All (All IsPlain) (split b'.' s) → All IsPlain s
unfolding split is_space
split-IsPlain [] h = tt
split-IsPlain (c ∷ s) h = elim (Bool-cases (c == b'.')) [
  | inl e ↦
      let h' : Unit {0} × All (All IsPlain) (split b'.' s) = rw e at h in
      (let p : c ≡ b'.' = ground arith in rw p (refl, refl), split-IsPlain s h'.1)
  | inr e ↦
      let h' : All (All IsPlain) (push_front c (split b'.' s)) = rw e at h in
      let (l, r) = push-IsPlain c (split b'.' s) h' in (l, split-IsPlain s r)
]

sign-IsPlain : (c : ℕ) → (c == b'-' || c == b'+') ≡ true → IsPlain c
unfolding is_space
sign-IsPlain c h = (ground arith, ground arith)

drop_sign-IsPlain : (s : Text) → All IsPlain (drop_sign s) → All IsPlain s
unfolding drop_sign is_space
drop_sign-IsPlain [] h = tt
drop_sign-IsPlain (c ∷ s) h = elim (Bool-cases (c == b'-' || c == b'+')) [
  | inl e ↦ (sign-IsPlain c e, rw e at h)
  | inr e ↦ rw e at h
]

set_string-trim_space : (s : Text) {x : Rat} → set_string s ≡ some x → trim_space s ≡ s
unfolding set_string
set_string-trim_space s h = trim_space_keep s (
    All-IsPlain-Keeps s (
      drop_sign-IsPlain s (
        split-IsPlain (drop_sign s) (pieces-IsPlain (is_negative s) (split b'.' (drop_sign s)) h))))

reads_as-SameValue :
    (o : Option Rat) (r : Rat) → reads_as o r ≡ true → (q : Rat) × (o ≡ some q) × SameValue q r
unfolding reads_as
reads_as-SameValue none r h = cc
reads_as-SameValue (some q) r h = (q, refl, ground arith)

-- A text that `exact` answers stands for the number that it was given.
pub exact_sound : (r : Rat) {c : Text} → exact r ≡ ok c → KeepsValue (set_string c) (some r)
unfolding exact
exact_sound r {c} h =
    let (q, e, v) = reads_as-SameValue (set_string (float_string r)) r (ground arith) in
    let k : canonical_decimal (float_string r) ≡ ok c = ground arith in
    let w =
      rw (set_string-trim_space (float_string r) e) at
        (canonical_decimal_value (float_string r) k) in
    KeepsValue-trans (set_string c) (set_string (float_string r)) (some r)
      (set_string-IsReadProper (float_string r))
      (KeepsValue-sym (set_string (float_string r)) (set_string c) w) (rw e v)

-- A text that `exact` answers is canonical.
exact_canonical : (r : Rat) {c : Text} → exact r ≡ ok c → canonical_decimal c ≡ ok c
unfolding exact
exact_canonical r h = canonical_decimal_idem (float_string r) (ground arith)

rational_read :
    (c : Text) (z : Rat) → canonical_decimal c ≡ ok c → set_string c ≡ some z → rational c ≡ ok z
unfolding rational
rational_read c z k e = ground (arith, k, e)

rational-of_value :
    (c : Text) (r : Rat)
    → canonical_decimal c ≡ ok c
    → KeepsValue (set_string c) (some r)
    → (z : Rat) × (rational c ≡ ok z) × SameValue z r
rational-of_value c r k v = from (set_string c) refl v
  where
    from :
        (o : Option Rat)
        → set_string c ≡ o
        → KeepsValue o (some r)
        → (z : Rat) × (rational c ≡ ok z) × SameValue z r
    from none e v = absurd v
    from (some z) e v = (z, rational_read c z k e, v)

-- The three operations have one shape.
pub record IsExactResult (op : Rat → Rat → Rat) (a b c : Text) : Type 0 where
  pub left : Rat
  pub right : Rat
  pub result : Rat
  pub left_read : rational a ≡ ok left
  pub right_read : rational b ≡ ok right
  pub result_read : rational c ≡ ok result
  pub same : SameValue result (op left right)
  pub canonical : canonical_decimal c ≡ ok c

operation_sound :
    (op : Rat → Rat → Rat) (a b : Text) {c : Text}
    → (rational a >>= λ x. rational b >>= λ y. exact (op x y)) ≡ ok c
    → IsExactResult op a b c
operation_sound op a b {c} h =
    let (x, ex, h1) = >>=-eq-ok (rational a) (λ x. rational b >>= λ y. exact (op x y)) h in
    let (y, ey, h2) = >>=-eq-ok (rational b) (λ y. exact (op x y)) h1 in
    let (z, ez, v) =
      rational-of_value c (op x y) (exact_canonical (op x y) h2) (exact_sound (op x y) h2) in
    record {
      left = x;
      right = y;
      result = z;
      left_read = ex;
      right_read = ey;
      result_read = ez;
      same = v;
      canonical = exact_canonical (op x y) h2;
    }

-- A sum that `Add` answers is the exact sum of its operands' numbers, and is canonical.
pub add-IsExactResult : (a b : Text) {c : Text} → add a b ≡ ok c → IsExactResult add_rat a b c
unfolding add
add-IsExactResult a b h = operation_sound add_rat a b h

-- A difference that `Sub` answers is the exact difference of its operands' numbers, and is canonical.
pub sub-IsExactResult : (a b : Text) {c : Text} → sub a b ≡ ok c → IsExactResult sub_rat a b c
unfolding sub
sub-IsExactResult a b h = operation_sound sub_rat a b h

-- A product that `Mul` answers is the exact product of its operands' numbers, and is canonical.
pub mul-IsExactResult : (a b : Text) {c : Text} → mul a b ≡ ok c → IsExactResult mul_rat a b c
unfolding mul
mul-IsExactResult a b h = operation_sound mul_rat a b h
