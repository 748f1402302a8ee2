-- ===== src/Text/Order.antt =====
-- The order of texts is a strict total order.
use traio.Prelude.{◌≡◌, refl, true, false, [], ◌∷◌, arith}
use traio.Text.{Text, text_eq, text_lt}

pub text_lt_trans : (a b c : Text) → text_lt a b ≡ true → text_lt b c ≡ true → text_lt a c ≡ true
text_lt_trans a b [] h k = cc
text_lt_trans [] b (z ∷ c) h k = refl
text_lt_trans (x ∷ a) [] (z ∷ c) h k = cc
text_lt_trans (x ∷ a) (y ∷ b) (z ∷ c) h k = ground (arith, text_lt_trans a b c)

pub text_lt_total : (a b : Text) → text_lt a b ≡ false → text_eq a b ≡ false → text_lt b a ≡ true
text_lt_total [] [] h k = cc
text_lt_total [] (y ∷ b) h k = cc
text_lt_total (x ∷ a) [] h k = refl
text_lt_total (x ∷ a) (y ∷ b) h k = ground (arith, text_lt_total a b)

pub text_lt_irrefl : (a : Text) → text_lt a a ≡ false
text_lt_irrefl [] = refl
text_lt_irrefl (x ∷ a) = ground (arith, text_lt_irrefl a)

pub text_lt_asym : (a b : Text) → text_lt a b ≡ true → text_lt b a ≡ false
text_lt_asym [] [] h = cc
text_lt_asym [] (y ∷ b) h = refl
text_lt_asym (x ∷ a) [] h = cc
text_lt_asym (x ∷ a) (y ∷ b) h = ground (arith, text_lt_asym a b)
