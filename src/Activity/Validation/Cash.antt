-- ===== src/Activity/Validation/Cash.antt =====
-- `CashEffects` and `ValidCurrency` of internal/activity/validation.go. The map from currencies to
-- amounts is the list of its entries.
use traio.Prelude.{
  String, Bool, not, ◌&&◌, ◌==◌, List, [], ◌∷◌, Result, ok, ◌>>=◌, ◌>>◌, guard, is_empty, all, leb,
  str_eq, if◌then◌else◌,
}
use traio.Text.{Text, text_eq, utf8_length}
use traio.Activity.Decimal.{zero_text}
use traio.Activity.Decimal.Arith.{add}
use traio.Activity.Types.{Leg}

unfoldable pub valid_currency : Text → Bool
valid_currency s = utf8_length s == 3 && all (λ c. leb b'A' c && leb c b'Z') s

abbrev pub Amounts : Type 0
Amounts = List (Text × Text)

-- `m[k]`, "" where there is none
unfoldable pub get_amount : Text → Amounts → Text
get_amount k [] = []
get_amount k ((j, v) ∷ m) = if text_eq j k then v else get_amount k m

unfoldable pub put_amount : Text → Text → Amounts → Amounts
put_amount k v [] = (k, v) ∷ []
put_amount k v ((j, w) ∷ m) = if text_eq j k then (j, v) ∷ m else (j, w) ∷ put_amount k v m

-- `if old == "" { old = "0" }`
unfoldable pub or_zero_amount : Text → Text
or_zero_amount s = if is_empty s then zero_text else s

unfoldable pub add_cash : Amounts → Leg → Result String Amounts
unfolding get_amount put_amount or_zero_amount valid_currency add
add_cash m l = do
  guard (valid_currency l.currency) "cash leg requires a currency"
  n ← add (or_zero_amount (get_amount l.currency m)) l.cash_delta
  ok (put_amount l.currency n m)

-- One round of the loop.
unfoldable pub effect_of_leg : Amounts → Leg → Result String Amounts
unfolding add_cash
effect_of_leg m l = if not (str_eq l.kind "cash") then ok m else add_cash m l

unfoldable pub effects_from : Amounts → List Leg → Result String Amounts
unfolding effect_of_leg
effects_from m [] = ok m
effects_from m (l ∷ ls) = do m' ← effect_of_leg m l; effects_from m' ls

unfoldable pub cash_effects : List Leg → Result String Amounts
unfolding effects_from
cash_effects legs = effects_from [] legs
