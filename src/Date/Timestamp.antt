-- ===== src/Date/Timestamp.antt =====
-- `time.Parse(time.RFC3339Nano, s)`, as far as whether it accepts the text.
use traio.Prelude.{
  ◌+◌, ◌*◌, Bool, true, false, ◌&&◌, ◌||◌, [], ◌∷◌, none, some, refl, ◌≡◌, ltb, leb, ◌==◌,
  if◌then◌else◌,
}
use traio.Text.{Text, is_digit, codes}
use traio.Date.{parse_date, digit}

-- Z, or a sign and hh:mm with hh at most 24 and mm at most 60, and nothing after it.
unfoldable pub is_zone : Text → Bool
is_zone (z ∷ []) = z == b'Z'
is_zone (s ∷ a ∷ b ∷ x ∷ c ∷ d ∷ []) =
    (s == b'+' || s == b'-')
    && is_digit a
    && is_digit b
    && x == b':'
    && is_digit c
    && is_digit d
    && leb (digit a * 10 + digit b) 24
    && leb (digit c * 10 + digit d) 60
is_zone _ = false

-- The digits of a fraction of a second, of any number, and then the zone.
zone_after_digits : Text → Bool
unfolding is_zone
zone_after_digits [] = false
zone_after_digits (c ∷ s) =
    let rest = zone_after_digits s in if is_digit c then rest else is_zone (c ∷ s)

-- A point or a comma begins a fraction if a digit follows.
unfoldable pub is_fraction_zone : Text → Bool
unfolding zone_after_digits
is_fraction_zone (p ∷ c ∷ s) =
    if (p == b'.' || p == b',') && is_digit c then zone_after_digits s else is_zone (p ∷ c ∷ s)
is_fraction_zone s = is_zone s

-- mm:ss and the rest, after the hour.
unfoldable pub is_minutes : Text → Bool
unfolding is_fraction_zone
is_minutes (x ∷ a ∷ b ∷ y ∷ c ∷ d ∷ s) =
    x == b':'
    && is_digit a
    && is_digit b
    && ltb (digit a * 10 + digit b) 60
    && y == b':'
    && is_digit c
    && is_digit d
    && ltb (digit c * 10 + digit d) 60
    && is_fraction_zone s
is_minutes _ = false

-- The hour may have one digit (the package accepts it, against the RFC).
unfoldable pub is_time : Text → Bool
unfolding is_minutes
is_time (a ∷ b ∷ s) =
    is_digit a
    && (if is_digit b then ltb (digit a * 10 + digit b) 24 && is_minutes s else is_minutes (b ∷ s))
is_time _ = false

unfoldable pub is_rfc3339_nano : Text → Bool
unfolding is_time parse_date
is_rfc3339_nano (a ∷ b ∷ c ∷ d ∷ e ∷ f ∷ g ∷ h ∷ i ∷ j ∷ t ∷ s) =
    elim (parse_date (a ∷ b ∷ c ∷ d ∷ e ∷ f ∷ g ∷ h ∷ i ∷ j ∷ [])) [
      | none ↦ false
      | some _ ↦ t == b'T' && is_time s
    ]
is_rfc3339_nano _ = false

accepts_nano : is_rfc3339_nano (codes "2024-02-29T13:05:59.123456789-05:00") ≡ true
unfolding is_rfc3339_nano
accepts_nano = refl

refuses_local : is_rfc3339_nano (codes "2024-02-29T13:05:59") ≡ false
unfolding is_rfc3339_nano
refuses_local = refl
