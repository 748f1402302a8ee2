-- ===== src/Activity/Decimal.antt =====
-- internal/activity/decimal.go: exact decimals as texts, `CanonicalDecimal` and its checks. An error
-- is its message.
pub mod Canonical
pub mod Value
pub mod Render
pub mod Exact
pub mod Unique
pub mod Numbers
pub mod Arith
pub mod Sound
pub mod Total
pub mod Zero
use traio.Prelude.{
  ℕ, ◌+◌, String, Bool, true, false, not, ◌&&◌, ◌||◌, List, [], ◌∷◌, ◌++◌, ltb, ◌==◌, Result, ok,
  err, is_empty, length, all, if◌then◌else◌,
}
use traio.Text.{Text, text_eq, codes, utf8_length, is_digit}
use traio.Text.Trim.{trim_left, trim_right, trim_space}
use traio.Text.Split.{split}

abbrev pub zero_text : Text
zero_text = b'0' ∷ []

abbrev pub is_zero_digit : ℕ → Bool
is_zero_digit c = c == b'0'

abbrev pub invalid_decimal : String
invalid_decimal = "invalid decimal"

abbrev pub exceeds_numeric : String
exceeds_numeric = "decimal exceeds NUMERIC(38,18)"

-- `s[0] == '-'`, for a text that is not empty
unfoldable pub is_negative : Text → Bool
is_negative [] = false
is_negative (c ∷ s) = c == b'-'

unfoldable pub drop_sign : Text → Text
drop_sign [] = []
drop_sign (c ∷ s) = if c == b'-' || c == b'+' then s else c ∷ s

-- `if whole == "" { whole = "0" }`
unfoldable pub or_zero : Text → Text
or_zero [] = zero_text
or_zero (c ∷ s) = c ∷ s

-- `out := whole; if frac != "" { out += "." + frac }`
unfoldable pub join_parts : Text → Text → Text
join_parts whole [] = whole
join_parts whole (c ∷ frac) = whole ++ b'.' ∷ c ∷ frac

unfoldable pub put_sign : Bool → Text → Text
put_sign negative out = if negative && not (text_eq out zero_text) then b'-' ∷ out else out

-- The lengths and the layout of the answer, once the zeros are cut.
unfoldable pub canonical_sized : Bool → Text → Text → Result String Text
unfolding join_parts put_sign
canonical_sized negative whole frac =
    if ltb 20 (length whole) || ltb 18 (length frac)
    then err exceeds_numeric
    else ok (put_sign negative (join_parts whole frac))

unfoldable pub canonical_parts : Bool → Text → Text → Result String Text
unfolding canonical_sized or_zero trim_left trim_right
canonical_parts negative whole frac =
    if is_empty whole && is_empty frac
    then err invalid_decimal
    else if not (all is_digit (whole ++ frac))
    then err invalid_decimal
    else canonical_sized negative (or_zero (trim_left is_zero_digit whole))
        (trim_right is_zero_digit frac)

-- `len(pieces) > 2` is the last clause; `split` never gives the empty list.
unfoldable pub canonical_pieces : Bool → List Text → Result String Text
unfolding canonical_parts
canonical_pieces negative [] = err invalid_decimal
canonical_pieces negative (whole ∷ []) = canonical_parts negative whole []
canonical_pieces negative (whole ∷ frac ∷ []) = canonical_parts negative whole frac
canonical_pieces negative (_ ∷ _ ∷ _ ∷ _) = err invalid_decimal

unfoldable pub canonical_trimmed : Text → Result String Text
unfolding canonical_pieces is_negative drop_sign split
canonical_trimmed s =
    if is_empty s || ltb 80 (utf8_length s)
    then err invalid_decimal
    else if is_empty (drop_sign s)
    then err invalid_decimal
    else canonical_pieces (is_negative s) (split b'.' (drop_sign s))

unfoldable pub canonical_decimal : Text → Result String Text
unfolding canonical_trimmed trim_space
canonical_decimal s = canonical_trimmed (trim_space s)
