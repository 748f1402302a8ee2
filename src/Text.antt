-- ===== src/Text.antt =====
-- Go strings that the program reads character by character: the list of a text's code points.
-- `len` counts the bytes of its UTF-8 form. The functions are those of the packages strings and
-- unicode that internal/activity calls. Texts that are only compared stay native strings.
pub mod Trim
pub mod Split
pub mod Hex
pub mod Order
use Prim.Native.Char.{code}
use Prim.Native.String
use traio.Prelude.{
  ℕ, ◌+◌, ◌-◌, ◌*◌, ◌≡◌, ◌↔◌, refl, String, Bool, true, false, ◌&&◌, ◌||◌, List, [], ◌∷◌, arith,
  ltb, leb, ◌==◌, is_empty, if◌then◌else◌,
}

abbrev pub Text : Type 0
Text = List ℕ

abbrev pub codes : String → Text
codes String.[] = []
codes (String.◌∷◌ c s) = code c ∷ codes s

abbrev pub text_eq : Text → Text → Bool
text_eq [] [] = true
text_eq [] (y ∷ ys) = false
text_eq (x ∷ xs) [] = false
text_eq (x ∷ xs) (y ∷ ys) = x == y && text_eq xs ys

pub text_eq_iff : (s t : Text) → (text_eq s t ≡ true) ↔ (s ≡ t)
text_eq_iff [] [] = (λ h. refl, λ h. refl)
text_eq_iff [] (y ∷ ys) = (λ h. cc, λ h. cc)
text_eq_iff (x ∷ xs) [] = (λ h. cc, λ h. cc)
text_eq_iff (x ∷ xs) (y ∷ ys) =
    (λ h. ground (arith, text_eq_iff xs ys), λ h. ground (arith, text_eq_iff xs ys))

-- Go's `<` on strings, byte by byte; on code points the order is the same.
abbrev pub text_lt : Text → Text → Bool
text_lt xs [] = false
text_lt [] (y ∷ ys) = true
text_lt (x ∷ xs) (y ∷ ys) = ltb x y || x == y && text_lt xs ys

abbrev pub utf8_width : ℕ → ℕ
utf8_width c = if ltb c 0x80 then 1 else if ltb c 0x800 then 2 else if ltb c 0x10000 then 3 else 4

-- `len(s)`
abbrev pub utf8_length : Text → ℕ
utf8_length [] = 0
utf8_length (c ∷ s) = utf8_width c + utf8_length s

-- unicode.IsSpace
unfoldable pub is_space : ℕ → Bool
is_space c =
    (leb 9 c && leb c 13)
    || c == 0x20
    || c == 0x85
    || c == 0xa0
    || c == 0x1680
    || (leb 0x2000 c && leb c 0x200a)
    || c == 0x2028
    || c == 0x2029
    || c == 0x202f
    || c == 0x205f
    || c == 0x3000

abbrev pub is_digit : ℕ → Bool
is_digit c = leb b'0' c && leb c b'9'
