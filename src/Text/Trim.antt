-- ===== src/Text/Trim.antt =====
-- strings.TrimLeft, TrimRight and TrimSpace, over a test of the characters to cut.
use traio.Prelude.{ℕ, ◌≡◌, refl, Bool, false, ◌&&◌, [], ◌∷◌, arith, is_empty, All, if◌then◌else◌}
use traio.Text.{Text, is_space}

unfoldable pub trim_left : (ℕ → Bool) → Text → Text
trim_left cut [] = []
trim_left cut (c ∷ s) = if cut c then trim_left cut s else c ∷ s

unfoldable pub trim_right : (ℕ → Bool) → Text → Text
trim_right cut [] = []
trim_right cut (c ∷ s) = let r = trim_right cut s in if is_empty r && cut c then [] else c ∷ r

unfoldable pub trim_space : Text → Text
unfolding trim_left trim_right is_space
trim_space s = trim_right is_space (trim_left is_space s)

-- A text with nothing to cut is left as it is.
module _ (cut : ℕ → Bool) where
  abbrev pub Keeps : Text → Type 0
  Keeps = All (λ c. cut c ≡ false)

  pub trim_left_keep : (s : Text) → Keeps s → trim_left cut s ≡ s
  unfolding trim_left
  trim_left_keep [] h = refl
  trim_left_keep (c ∷ s) h = ground (arith, h.0)

  pub trim_right_keep : (s : Text) → Keeps s → trim_right cut s ≡ s
  unfolding trim_right
  trim_right_keep [] h = refl
  trim_right_keep (c ∷ s) h = ground (arith, h.0, trim_right_keep s h.1)

pub trim_space_keep : (s : Text) → Keeps is_space s → trim_space s ≡ s
unfolding trim_space
trim_space_keep s h = rw (trim_left_keep is_space s h) (trim_right_keep is_space s h)
