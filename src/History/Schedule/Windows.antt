-- ===== src/History/Schedule/Windows.antt =====
-- The windows that `historyWindows` cuts a range of days into.
use traio.Prelude.{
  ℕ, zero, suc, ◌+◌, ◌-◌, ◌≤◌, ◌<◌, ◌≡◌, refl, inl, inr, List, [], ◌∷◌, arith, ltb, min, Bool-cases,
}
use traio.History.Schedule.{Interval, windows_from, day_windows}

-- The windows lie end to end from the first day to the last, each of 1 to 365 days.
abbrev pub Tiles : ℕ → ℕ → List Interval → Type 0
Tiles s e [] = e < s
Tiles s e (i ∷ is) =
    (i.start ≡ s)
    × (s ≤ i.finish)
    × (i.finish ≤ e)
    × (i.finish < s + 365)
    × Tiles (i.finish + 1) e is

windows-Tiles : (fuel s e : ℕ) → suc e - s ≤ fuel → Tiles s e (windows_from fuel s e)
unfolding windows_from
windows-Tiles zero s e h = omega arith
windows-Tiles (suc fuel) s e h = elim (Bool-cases (ltb e s)) [
  | inl t ↦ rw t (ground (arith, t))
  | inr t ↦
      let l : s ≤ e = ground (arith, t) in
      rw t (
        refl,
        omega arith,
        omega arith,
        omega arith,
        windows-Tiles fuel (min (s + 364) e + 1) e (omega arith),
      )
]

-- `historyWindows` cuts the days of a range into windows that lie end to end from the first day to
-- the last, each of at most 365 days: none is left out and none is asked for twice.
pub day_windows-Tiles : (s e : ℕ) → Tiles s e (day_windows s e)
unfolding day_windows
day_windows-Tiles s e = windows-Tiles (suc e - s) s e (omega arith)
