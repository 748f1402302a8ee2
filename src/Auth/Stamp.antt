-- ===== src/Auth/Stamp.antt =====
-- Instants, and the order that the database sees between their texts: time.RFC3339Nano in UTC writes a
-- fraction of a second without its last zeros, and none where it is 0. The part up to the seconds has
-- one length for every year of four digits, so two texts compare as the seconds do, and in one second
-- as the rests do.
use traio.Prelude.{
  ℕ, ◌+◌, ◌/◌, ◌%◌, ◌≤◌, ◌≡◌, Bool, true, false, not, ◌&&◌, ◌||◌, List, [], ◌∷◌, ◌++◌, arith, ltb,
  ◌==◌, if◌then◌else◌,
}
use traio.Text.{Text, text_lt}
use traio.Text.Trim.{trim_right}

pub record Instant : Type 0 where
  pub seconds : ℕ
  pub nanos : ℕ

-- The digits of the nanoseconds, as many as asked for.
abbrev fraction_digits : List ℕ → ℕ → Text
fraction_digits [] n = []
fraction_digits (p ∷ ps) n = (n / p % 10 + b'0') ∷ fraction_digits ps n

abbrev places : List ℕ
places = 100000000 ∷ 10000000 ∷ 1000000 ∷ 100000 ∷ 10000 ∷ 1000 ∷ 100 ∷ 10 ∷ 1 ∷ []

-- The text after the seconds.
unfoldable pub rest_of_stamp : ℕ → Text
unfolding trim_right
rest_of_stamp n =
    if n == 0
    then b'Z' ∷ []
    else b'.' ∷ (trim_right (λ c. c == b'0') (fraction_digits places n) ++ b'Z' ∷ [])

-- `a <= b` on the two texts.
unfoldable pub stamp_le : Instant → Instant → Bool
unfolding rest_of_stamp
stamp_le a b =
    ltb a.seconds b.seconds
    || a.seconds == b.seconds && not (text_lt (rest_of_stamp b.nanos) (rest_of_stamp a.nanos))

-- `a.After(b)` on the two times.
abbrev pub is_after : Instant → Instant → Bool
is_after a b = ltb b.seconds a.seconds || a.seconds == b.seconds && ltb b.nanos a.nanos

-- `t.Add(d)`, for d whole seconds.
abbrev pub add_seconds : Instant → ℕ → Instant
add_seconds t d = record t { seconds = t.seconds + d }

-- The order of the texts is that of the seconds.
pub stamp_le_seconds : (a b : Instant) → stamp_le a b ≡ true → a.seconds ≤ b.seconds
unfolding stamp_le
stamp_le_seconds a b h = ground (arith, h)

pub stamp_later : (a b : Instant) → stamp_le a b ≡ false → b.seconds ≤ a.seconds
unfolding stamp_le
stamp_later a b h = ground (arith, h)
