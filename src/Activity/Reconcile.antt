-- ===== src/Activity/Reconcile.antt =====
-- `Reconcile` of internal/activity/validation.go: the closing balance against the opening balance and
-- the booked activities between.
pub mod Laws
use traio.Prelude.{
  String, Bool, true, false, not, ◌&&◌, ◌||◌, List, [], ◌∷◌, Option, none, some, Result, ok, err,
  ◌>>=◌, ◌>>◌, guard, is_empty, str_eq, if◌then◌else◌,
}
use traio.Text.{Text, text_eq}
use traio.Activity.Decimal.{canonical_decimal, zero_text}
use traio.Activity.Decimal.Arith.{add, sub}
use traio.Activity.Types.{eq_ℤ, effective, voided, booked, Leg, Activity, Balance, Difference}

-- The quantity that a leg adds to the balance, "" for none.
unfoldable pub leg_value : Balance → Leg → Text
leg_value closing l =
    if str_eq closing.kind "position"
      && str_eq l.kind "position"
      && eq_ℤ l.instrument_id closing.instrument_id
    then l.quantity_delta
    else if str_eq closing.kind "cash"
        && str_eq l.kind "cash"
        && text_eq l.currency closing.currency
    then l.cash_delta
    else []

unfoldable pub add_leg : Balance → Text → Leg → Result String Text
unfolding leg_value add
add_leg closing sum l =
    if is_empty (leg_value closing l) then ok sum else add sum (leg_value closing l)

unfoldable pub add_legs : Balance → Text → List Leg → Result String Text
unfolding add_leg
add_legs closing sum [] = ok sum
add_legs closing sum (l ∷ ls) = do s ← add_leg closing sum l; add_legs closing s ls

abbrev pub counts : Activity → Bool
counts a = str_eq a.status effective && str_eq a.booking_status booked

unfoldable pub add_activity : Balance → Text → Activity → Result String Text
unfolding add_legs
add_activity closing sum a =
    if str_eq a.status voided
    then ok sum
    else if not (counts a)
    then ok sum
    else add_legs closing sum a.legs

unfoldable pub add_activities : Balance → Text → List Activity → Result String Text
unfolding add_activity
add_activities closing sum [] = ok sum
add_activities closing sum (a ∷ as') = do
  s ← add_activity closing sum a
  add_activities closing s as'

-- The flag `incomplete`: some activity is neither voided nor effective and booked.
unfoldable pub is_incomplete : List Activity → Bool
is_incomplete [] = false
is_incomplete (a ∷ as') = not (str_eq a.status voided) && not (counts a) || is_incomplete as'

unfoldable pub same_unit : Balance → Balance → Bool
same_unit o c =
    str_eq o.kind c.kind && text_eq o.currency c.currency && eq_ℤ o.instrument_id c.instrument_id

unfoldable pub verdict : Text → Bool → String
verdict difference incomplete =
    if incomplete
    then "incomplete"
    else if not (text_eq difference zero_text)
    then "mismatch"
    else "passed"

-- The lines after the loop.
unfoldable pub report : Balance → List Activity → Text → Result String Difference
unfolding is_incomplete verdict sub
report closing activities sum = do
  difference ← sub closing.value sum
  ok (record {
    balance = closing;
    expected = sum;
    actual = closing.value;
    difference = difference;
    status = verdict difference (is_incomplete activities);
  })

unfoldable pub reconcile_sum : Balance → List Activity → Text → Result String Difference
unfolding add_activities report
reconcile_sum closing activities start = do
  sum ← add_activities closing start activities
  report closing activities sum

unfoldable pub reconcile_from : Balance → Balance → List Activity → Result String Difference
unfolding same_unit canonical_decimal reconcile_sum
reconcile_from opening closing activities = do
  guard (same_unit opening closing) "reconciliation unit mismatch"
  start ← canonical_decimal opening.value
  reconcile_sum closing activities start

-- An error comes with no difference here; the callers drop the one that Go returns beside it.
unfoldable pub reconcile : Option Balance → Balance → List Activity → Result String Difference
unfolding reconcile_from
reconcile none closing activities = ok (record {
  balance = closing;
  expected = [];
  actual = closing.value;
  difference = [];
  status = "unknown";
})
reconcile (some opening) closing activities = reconcile_from opening closing activities
