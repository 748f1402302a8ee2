-- ===== src/Activity/Reconcile/Laws.antt =====
-- What `Reconcile` reports.
use traio.Prelude.{
  ◌≡◌, refl, sym, ◌∙◌, ◌↔◌, String, Bool, true, false, not, ◌||◌, List, [], ◌∷◌, ◌++◌, some, Result,
  ok, ◌>>=◌, ◌>>◌, guard, >>=-eq-ok, >>=_assoc, ok-eq, arith, is_empty, str_eq, if◌then◌else◌,
  Bool-cases, inl, inr,
}
use traio.Text.{Text, text_eq, text_eq_iff}
use traio.Rat.Laws.{SameValue-trans}
use traio.Activity.Decimal.Zero.{sub-zero}
use traio.Rat.{Rat, IsProper, SameValue, add_rat, sub_rat}
use traio.Activity.Decimal.{canonical_decimal, zero_text}
use traio.Activity.Decimal.Arith.{rational, add, sub}
use traio.Activity.Decimal.Sound.{IsExactResult, add-IsExactResult, sub-IsExactResult}
use traio.Activity.Decimal.Total.{
  total, Holds, add-Holds, canonical_decimal-Holds, rational-IsProper, add-IsProper,
}
use traio.Activity.Types.{voided, Leg, Activity, Balance, Difference}
use traio.Activity.Reconcile.{
  leg_value, add_leg, add_legs, counts, add_activity, add_activities, is_incomplete, verdict,
  reconcile_sum, report, reconcile, same_unit,
}

-- The amounts that count towards a balance: of the effective and booked activities, the legs of its
-- unit, in order.
abbrev leg_amounts : Balance → List Leg → List Text
leg_amounts closing [] = []
leg_amounts closing (l ∷ ls) =
    if is_empty (leg_value closing l)
    then leg_amounts closing ls
    else leg_value closing l ∷ leg_amounts closing ls

abbrev pub amounts : Balance → List Activity → List Text
amounts closing [] = []
amounts closing (a ∷ as') =
    (if str_eq a.status voided || not (counts a) then [] else leg_amounts closing a.legs)
    ++ amounts closing as'

-- The end of a running sum, and the number that it holds.
abbrev pub Sums : Rat → List Text → Text → Type 0
Sums r vs t = (z : Rat) × (total r vs ≡ ok z) × Holds t z

total-append : (r : Rat) (vs ws : List Text) → total r (vs ++ ws) ≡ (total r vs >>= λ z. total z ws)
unfolding total
total-append r [] ws = refl
total-append r (v ∷ vs) ws =
    (λ i. rational v >>= λ x. total-append (add_rat r x) vs ws i)
    ∙ sym (>>=_assoc (rational v) (λ x. total (add_rat r x) vs) (λ z. total z ws))

total-cons :
    (r x : Rat) (v : Text) (vs : List Text)
    → rational v ≡ ok x
    → total r (v ∷ vs) ≡ total (add_rat r x) vs
unfolding total
total-cons r x v vs h = rw h refl

Holds-of_eq : {s t : Text} {r : Rat} → s ≡ t → Holds s r → Holds t r
Holds-of_eq e h = rw e at h

-- One amount more.
Sums-cons :
    (r : Rat) (s v : Text) (vs : List Text) {s1 t : Text}
    → add s v ≡ ok s1
    → Holds s r
    → ((q : Rat) → Holds s1 q → Sums q vs t)
    → Sums r (v ∷ vs) t
Sums-cons r s v vs k h rest =
    let p = add-IsExactResult s v k in
    let (z, e, g) = rest (add_rat r p.right) (add-Holds s v h p.right_read k) in
    (z, total-cons r p.right v vs p.right_read ∙ e, g)

Sums-nil :
    (r : Rat) {s t : Text} → ◌≡◌ {A = Result String Text} (ok s) (ok t) → Holds s r → Sums r [] t
unfolding total
Sums-nil r e h = (r, refl, Holds-of_eq (ok-eq e) h)

add_legs-Sums :
    (closing : Balance) (s : Text) (r : Rat) (ls : List Leg) {t : Text}
    → Holds s r
    → add_legs closing s ls ≡ ok t
    → Sums r (leg_amounts closing ls) t
unfolding add_legs add_leg
add_legs-Sums closing s r [] h k = Sums-nil r k h
add_legs-Sums closing s r (l ∷ ls) h k = elim (Bool-cases (is_empty (leg_value closing l))) [
  | inl e ↦ rw e (add_legs-Sums closing s r ls h (rw e at k))
  | inr e ↦
      let (s1, p, q) =
        >>=-eq-ok (add s (leg_value closing l)) (λ s. add_legs closing s ls) (rw e at k) in
      rw e (
        Sums-cons r s (leg_value closing l) (leg_amounts closing ls) p h
          (λ z g. add_legs-Sums closing s1 z ls g q))
]

Sums-append :
    (r : Rat) (vs ws : List Text) {s t : Text}
    → Sums r vs s
    → ((q : Rat) → Holds s q → Sums q ws t)
    → Sums r (vs ++ ws) t
Sums-append r vs ws (z, e, g) rest =
    let (y, f, k) = rest z g in (y, total-append r vs ws ∙ rw e f, k)

activity-Sums :
    (closing : Balance) (s : Text) (r : Rat) (a : Activity) {t : Text}
    → Holds s r
    → add_activity closing s a ≡ ok t
    → Sums r (if str_eq a.status voided || not (counts a) then [] else leg_amounts closing a.legs) t
unfolding add_activity
activity-Sums closing s r a h k = elim (Bool-cases (str_eq a.status voided)) [
  | inl e ↦ rw e (Sums-nil r (rw e at k) h)
  | inr e ↦ elim (Bool-cases (counts a)) [
    | inl c ↦
        let k' : add_legs closing s a.legs ≡ ok _ = ground (arith, k, e, c) in
        rw e (rw c (add_legs-Sums closing s r a.legs h k'))
    | inr c ↦
        let k' : ◌≡◌ {A = Result String Text} (ok s) (ok _) = ground (arith, k, e, c) in
        rw e (rw c (Sums-nil r k' h))
  ]
]

add_activities-Sums :
    (closing : Balance) (s : Text) (r : Rat) (as' : List Activity) {t : Text}
    → Holds s r
    → add_activities closing s as' ≡ ok t
    → Sums r (amounts closing as') t
unfolding add_activities add_activity
add_activities-Sums closing s r [] h k = Sums-nil r k h
add_activities-Sums closing s r (a ∷ as') h k =
    let (s1, p, q) = >>=-eq-ok (add_activity closing s a) (λ s. add_activities closing s as') k in
    Sums-append r
      (if str_eq a.status voided || not (counts a) then [] else leg_amounts closing a.legs)
      (amounts closing as') (activity-Sums closing s r a h p)
      (λ z g. add_activities-Sums closing s1 z as' g q)

-- How a report comes about: the numbers read, and what is reported of them.
pub record IsReport (opening closing : Balance) (acts : List Activity) (d : Difference)
    : Type 0 where
  pub start : Rat
  pub start_read : rational opening.value ≡ ok start
  pub finish : Rat
  pub finish_read : rational closing.value ≡ ok finish
  pub sum : Rat
  pub sum_total : total start (amounts closing acts) ≡ ok sum
  pub expected_holds : Holds d.expected sum
  pub difference_exact : IsExactResult sub_rat closing.value d.expected d.difference
  pub agrees : (d.difference ≡ zero_text) ↔ SameValue finish sum
  pub incomplete : is_incomplete acts ≡ true → d.status ≡ "incomplete"
  pub passed : is_incomplete acts ≡ false → SameValue finish sum → d.status ≡ "passed"
  pub mismatch : is_incomplete acts ≡ false → ¬ SameValue finish sum → d.status ≡ "mismatch"

report-eq :
    (closing : Balance) (acts : List Activity) (sum : Text) {d : Difference}
    → report closing acts sum ≡ ok d
    → (sub closing.value sum ≡ ok d.difference)
      × (d.expected ≡ sum)
      × (d.status ≡ verdict d.difference (is_incomplete acts))
unfolding report
report-eq closing acts sum {d} h = (ground (arith, h), ground (arith, h), ground (arith, h))

total-IsProper : (r z : Rat) (vs : List Text) → IsProper r → total r vs ≡ ok z → IsProper z
unfolding total
total-IsProper r z [] p h = rw (ok-eq h) at p
total-IsProper r z (v ∷ vs) p h =
    let (x, e, k) = >>=-eq-ok (rational v) (λ x. total (add_rat r x) vs) h in
    total-IsProper (add_rat r x) z vs (add-IsProper r x p (rational-IsProper v e)) k

SameValue-sym : (x y : Rat) → SameValue x y → SameValue y x
SameValue-sym x y h = omega arith

-- Agreement with what a text holds is agreement with the number of the text.
agreement :
    (t difference : Text) (x z : Rat) (h : Holds t z)
    → (difference ≡ zero_text) ↔ SameValue x h.number
    → IsProper z
    → (difference ≡ zero_text) ↔ SameValue x z
agreement t difference x z h e p = (
  λ d. SameValue-trans x h.number z (rational-IsProper t h.read) (e.0 d) h.same,
  λ v. e.1 (SameValue-trans x z h.number p v (SameValue-sym h.number z h.same)),
)

verdict_incomplete : (t : Text) {i : Bool} → i ≡ true → verdict t i ≡ "incomplete"
unfolding verdict
verdict_incomplete t h = rw h refl

verdict_passed : (t : Text) {i : Bool} → i ≡ false → t ≡ zero_text → verdict t i ≡ "passed"
unfolding verdict
verdict_passed t h e = rw (h, e) refl

verdict_mismatch : (t : Text) {i : Bool} → i ≡ false → ¬ (t ≡ zero_text) → verdict t i ≡ "mismatch"
unfolding verdict
verdict_mismatch t h n = elim (Bool-cases (text_eq t zero_text)) [
  | inl e ↦ absurd (n ((text_eq_iff t zero_text).0 e))
  | inr e ↦ rw (h, e) refl
]

reconcile_sum-IsReport :
    (opening closing : Balance) (acts : List Activity) (start : Text) (x : Rat) {d : Difference}
    → reconcile_sum closing acts start ≡ ok d
    → rational opening.value ≡ ok x
    → Holds start x
    → IsReport opening closing acts d
unfolding reconcile_sum
reconcile_sum-IsReport opening closing acts start x {d} h ex hx =
    let (sum, p, q) =
      >>=-eq-ok (add_activities closing start acts) (λ sum. report closing acts sum) h in
    let (k, e, s) = report-eq closing acts sum q in
    let (z, t, g) = add_activities-Sums closing start x acts hx p in
    let r = sub-IsExactResult closing.value sum k in
    let a =
      agreement sum d.difference r.left z g (sub-zero closing.value sum r.left_read g.read k)
        (total-IsProper x z (amounts closing acts) (rational-IsProper opening.value ex) t) in
    record {
      start = x;
      start_read = ex;
      finish = r.left;
      finish_read = r.left_read;
      sum = z;
      sum_total = t;
      expected_holds = rw e g;
      difference_exact = rw e r;
      agrees = a;
      incomplete = λ i. s ∙ verdict_incomplete d.difference i;
      passed = λ i v. s ∙ verdict_passed d.difference i (a.1 v);
      mismatch = λ i v. s ∙ verdict_mismatch d.difference i (λ z. v (a.0 z));
    }

guard_passed :
    (b : Bool) (e : String) {A : Type 0} (m : Result String A) {a : A}
    → (guard b e >> m) ≡ ok a
    → m ≡ ok a
guard_passed true e m h = h
guard_passed false e m h = cc

-- Every report against an opening balance adds up: the expected value is the opening value and the
-- amounts of the effective, booked activities in the closing balance's unit; the difference is exact,
-- and is "0" exactly when the closing value is the expected one. The status is incomplete where an
-- activity is neither voided nor effective and booked, and else passed or mismatch as the values are.
pub reconcile-IsReport :
    (opening closing : Balance) (acts : List Activity) {d : Difference}
    → reconcile (some opening) closing acts ≡ ok d
    → IsReport opening closing acts d
unfolding reconcile
reconcile-IsReport opening closing acts {d} h =
    let (start, e0, h0) =
      >>=-eq-ok (canonical_decimal opening.value) (λ s. reconcile_sum closing acts s)
        (guard_passed (same_unit opening closing) "reconciliation unit mismatch"
          (canonical_decimal opening.value >>= λ s. reconcile_sum closing acts s) h) in
    let (x, ex, hx) = canonical_decimal-Holds opening.value start e0 in
    reconcile_sum-IsReport opening closing acts start x h0 ex hx
