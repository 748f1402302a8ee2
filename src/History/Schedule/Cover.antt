-- ===== src/History/Schedule/Cover.antt =====
-- The days of a range that a list of intervals holds.
use traio.Prelude.{
  ℕ, ◌+◌, ◌-◌, ◌≤◌, ◌<◌, ◌≡◌, ◌↔◌, ◌⊎◌, inl, inr, refl, true, ◌||◌, List, [], ◌∷◌, arith, ltb, leb,
  All, if◌then◌else◌, Bool-cases,
}
use traio.History.Schedule.{Interval, insert_interval, sort_intervals, cover_loop, days_cover}

-- Some interval holds the day.
abbrev pub Covers : List Interval → ℕ → Type 0
Covers [] d = ⊥
Covers (i ∷ is) d = ((i.start ≤ d) × (d ≤ i.finish)) ⊎ Covers is d

abbrev StartsFrom : ℕ → List Interval → Type 0
StartsFrom a = All (λ (i : Interval). a ≤ i.start)

abbrev IsSorted : List Interval → Type 0
IsSorted [] = Unit
IsSorted (i ∷ is) = StartsFrom i.start is × IsSorted is

cover_loop_sound :
    (s e u d : ℕ) (is : List Interval)
    → cover_loop s e u is ≡ true
    → s ≤ d
    → d ≤ e
    → (d ≤ u) ⊎ Covers is d
unfolding cover_loop
cover_loop_sound s e u d [] h p q = cc
cover_loop_sound s e u d (i ∷ is) h p q = ground (
  arith,
  h,
  p,
  q,
  cover_loop_sound s e u d is,
  cover_loop_sound s e (if ltb u i.finish then i.finish else u) d is,
)

not-Covers : (d a : ℕ) (is : List Interval) → StartsFrom a is → d < a → Covers is d → ⊥
not-Covers d a [] f l c = c
not-Covers d a (i ∷ is) f l (inl (p, q)) = omega (arith, f.0)
not-Covers d a (i ∷ is) f l (inr c) = not-Covers d a is f.1 l c

-- A day that the first interval misses is held by a later one.
later-Covers :
    (i : Interval) (is : List Interval) (d : ℕ)
    → ((i.start ≤ d) × (d ≤ i.finish) → ⊥)
    → Covers (i ∷ is) d
    → Covers is d
later-Covers i is d n (inl c) = absurd (n c)
later-Covers i is d n (inr c) = c

abbrev until : ℕ → Interval → ℕ
until u i = if ltb u i.finish then i.finish else u

cover_loop_complete :
    (s e u : ℕ) (is : List Interval)
    → IsSorted is
    → s ≤ u + 1
    → u < e
    → ((d : ℕ) → u < d → d ≤ e → Covers is d)
    → cover_loop s e u is ≡ true
unfolding cover_loop
cover_loop_complete s e u [] o p q h = absurd (h (u + 1) (omega arith) (omega arith))
cover_loop_complete s e u (i ∷ is) o p q h = elim (Bool-cases (ltb i.finish s || ltb e i.start)) [
  | inl t ↦ rw t (
      cover_loop_complete s e u is o.1 p q
        (λ d l r. later-Covers i is d (λ c. ground (arith, t, c.0, c.1, l, r, p)) (h d l r)))
  | inr t ↦ elim (Bool-cases (ltb (u + 1) i.start)) [
    | inl g ↦ absurd (
        not-Covers (u + 1) i.start is o.0 (ground (arith, g)) (
          later-Covers i is (u + 1) (λ c. ground (arith, g, c.0))
            (h (u + 1) (omega arith) (omega arith))))
    | inr g ↦ elim (Bool-cases (leb e (until u i))) [
      | inl f ↦ rw (t, g, f) refl
      | inr f ↦
          rw (t, g, f)
            (cover_loop_complete s e (until u i) is o.1 (ground (arith, p)) (ground (arith, f))
              (λ d l r.
                later-Covers i is d (λ c. ground (arith, c.1, l)) (h d (ground (arith, l)) r)))
    ]
  ]
]

insert-StartsFrom :
    (a : ℕ) (i : Interval) (is : List Interval)
    → a ≤ i.start
    → StartsFrom a is
    → StartsFrom a (insert_interval i is)
unfolding insert_interval
insert-StartsFrom a i [] h f = (h, tt)
insert-StartsFrom a i (j ∷ js) h f = elim (Bool-cases (leb i.start j.start)) [
  | inl t ↦ rw t (h, f)
  | inr t ↦ rw t (f.0, insert-StartsFrom a i js h f.1)
]

StartsFrom-le : (a b : ℕ) (is : List Interval) → a ≤ b → StartsFrom b is → StartsFrom a is
StartsFrom-le a b [] h f = tt
StartsFrom-le a b (i ∷ is) h f = (omega (arith, f.0), StartsFrom-le a b is h f.1)

insert-IsSorted :
    (i : Interval) (is : List Interval) → IsSorted is → IsSorted (insert_interval i is)
unfolding insert_interval
insert-IsSorted i [] o = (tt, tt)
insert-IsSorted i (j ∷ js) o = elim (Bool-cases (leb i.start j.start)) [
  | inl t ↦
      let l : i.start ≤ j.start = ground (arith, t) in
      rw t ((l, StartsFrom-le i.start j.start js l o.0), o)
  | inr t ↦ rw t (insert-StartsFrom j.start i js (ground (arith, t)) o.0, insert-IsSorted i js o.1)
]

sort-IsSorted : (is : List Interval) → IsSorted (sort_intervals is)
unfolding sort_intervals
sort-IsSorted [] = tt
sort-IsSorted (i ∷ is) = insert-IsSorted i (sort_intervals is) (sort-IsSorted is)

swap-Covers :
    (i j : Interval) (js : List Interval) (d : ℕ) → Covers (i ∷ j ∷ js) d → Covers (j ∷ i ∷ js) d
swap-Covers i j js d (inl c) = inr (inl c)
swap-Covers i j js d (inr (inl c)) = inl c
swap-Covers i j js d (inr (inr c)) = inr (inr c)

under_first :
    (j : Interval) (is js : List Interval) (d : ℕ)
    → (Covers is d → Covers js d)
    → Covers (j ∷ is) d
    → Covers (j ∷ js) d
under_first j is js d f (inl c) = inl c
under_first j is js d f (inr c) = inr (f c)

Covers-insert :
    (i : Interval) (is : List Interval) (d : ℕ)
    → Covers (insert_interval i is) d ↔ Covers (i ∷ is) d
unfolding insert_interval
Covers-insert i [] d = (λ c. c, λ c. c)
Covers-insert i (j ∷ js) d = elim (Bool-cases (leb i.start j.start)) [
  | inl t ↦ rw t (λ c. c, λ c. c)
  | inr t ↦
      let ih = Covers-insert i js d in
      rw t (
        λ c. swap-Covers j i js d (under_first j (insert_interval i js) (i ∷ js) d ih.0 c),
        λ c. under_first j (i ∷ js) (insert_interval i js) d ih.1 (swap-Covers i j js d c),
      )
]

Covers-sort : (is : List Interval) (d : ℕ) → Covers (sort_intervals is) d ↔ Covers is d
unfolding sort_intervals
Covers-sort [] d = (λ c. c, λ c. c)
Covers-sort (i ∷ is) d =
    let ih = Covers-sort is d in
    let k = Covers-insert i (sort_intervals is) d in
    (
      λ c. under_first i (sort_intervals is) is d ih.0 (k.0 c),
      λ c. k.1 (under_first i is (sort_intervals is) d ih.1 c),
    )

sorted-Covers :
    (s d : ℕ) (is : List Interval)
    → 1 ≤ s
    → s ≤ d
    → (d ≤ s - 1) ⊎ Covers (sort_intervals is) d
    → Covers is d
sorted-Covers s d is h p (inl c) = absurd (omega arith)
sorted-Covers s d is h p (inr c) = (Covers-sort is d).0 c

-- For a range of days that is not empty, `intervalsCover` answers yes exactly when each day of the
-- range lies in one of the intervals, in whatever order these are given.
pub days_cover_iff :
    (is : List Interval) (s e : ℕ)
    → 1 ≤ s
    → s ≤ e
    → (days_cover is s e ≡ true) ↔ ((d : ℕ) → s ≤ d → d ≤ e → Covers is d)
unfolding days_cover
days_cover_iff is s e p q = (
  λ h d l r.
      sorted-Covers s d is p l
        (cover_loop_sound s e (s - 1) d (sort_intervals is) (ground (arith, h, q)) l r),
  λ h.
      let k =
        cover_loop_complete s e (s - 1) (sort_intervals is) (sort-IsSorted is) (omega arith)
          (omega arith) (λ d l r. (Covers-sort is d).1 (h d (omega arith) r)) in
      ground (arith, k, q),
)
