-- ===== src/Text/Split.antt =====
-- strings.Split by a one-character separator.
use traio.Prelude.{ℕ, ◌≡◌, refl, false, List, [], ◌∷◌, ◌++◌, arith, ◌==◌, All, if◌then◌else◌}
use traio.Text.{Text}

abbrev pub push_front : ℕ → List Text → List Text
push_front c [] = (c ∷ []) ∷ []
push_front c (p ∷ ps) = (c ∷ p) ∷ ps

-- The pieces between separators; never the empty list.
unfoldable pub split : ℕ → Text → List Text
split sep [] = [] ∷ []
split sep (c ∷ s) = let rest = split sep s in if c == sep then [] ∷ rest else push_front c rest

abbrev pub Avoids : ℕ → Text → Type 0
Avoids sep = All (λ c. (c == sep) ≡ false)

pub split_one : (sep : ℕ) (s : Text) → Avoids sep s → split sep s ≡ s ∷ []
unfolding split
split_one sep [] h = refl
split_one sep (c ∷ s) h = ground (arith, h.0, split_one sep s h.1)

pub split_at :
    (sep : ℕ) (s t : Text) → Avoids sep s → Avoids sep t → split sep (s ++ sep ∷ t) ≡ s ∷ t ∷ []
unfolding split
split_at sep [] t h k = ground (arith, split_one sep t k)
split_at sep (c ∷ s) t h k = ground (arith, h.0, split_at sep s t h.1 k)
