-- ===== src/Text/Hex.antt =====
-- Bytes as hexadecimal digits: EncodeToString and DecodeString of the package encoding/hex.
use traio.Prelude.{
  ℕ, ◌+◌, ◌-◌, ◌*◌, ◌/◌, ◌%◌, ◌<◌, ◌≡◌, refl, ap, ◌&&◌, List, [], ◌∷◌, Option, none, some, arith,
  ltb, leb, if◌then◌else◌, All,
}
use traio.Text.{Text}

abbrev hex_digit : ℕ → ℕ
hex_digit n = if ltb n 10 then n + b'0' else n - 10 + b'a'

abbrev digit_value : ℕ → Option ℕ
digit_value c =
    if leb b'0' c && leb c b'9'
    then some (c - b'0')
    else if leb b'a' c && leb c b'f'
    then some (c - b'a' + 10)
    else if leb b'A' c && leb c b'F'
    then some (c - b'A' + 10)
    else none

unfoldable pub hex_encode : List ℕ → Text
hex_encode [] = []
hex_encode (b ∷ bs) = hex_digit (b / 16) ∷ hex_digit (b % 16) ∷ hex_encode bs

abbrev put_byte : Option ℕ → Option ℕ → Option (List ℕ) → Option (List ℕ)
put_byte (some high) (some low) (some bs) = some ((high * 16 + low) ∷ bs)
put_byte high low rest = none

-- `none` for an odd length or another character.
unfoldable pub hex_decode : Text → Option (List ℕ)
hex_decode [] = some []
hex_decode (c ∷ []) = none
hex_decode (c ∷ d ∷ rest) = put_byte (digit_value c) (digit_value d) (hex_decode rest)

digit_value-hex_digit : (n : ℕ) → n < 16 → digit_value (hex_digit n) ≡ some n
digit_value-hex_digit n h = ground arith

pub hex_decode-hex_encode :
    (bs : List ℕ) → All (λ b. b < 256) bs → hex_decode (hex_encode bs) ≡ some bs
unfolding hex_decode hex_encode
hex_decode-hex_encode [] h = refl
hex_decode-hex_encode (b ∷ bs) h =
    rw
      (
        digit_value-hex_digit (b / 16) (omega arith),
        digit_value-hex_digit (b % 16) (omega arith),
        hex_decode-hex_encode bs h.1,
      )
      (ap (λ x. some (x ∷ bs)) (omega arith))
