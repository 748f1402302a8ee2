-- ===== src/History/Listing/Pages.antt =====
-- Lists of rows that are selected and cut.
use traio.Prelude.{
  ℕ, zero, suc, ◌<◌, ◌≤◌, ◌≡◌, refl, ap, Bool, true, false, ◌&&◌, List, [], ◌∷◌, ◌++◌, some, ltb,
  filter, take, length, All, arith, Bool-cases, inl, inr, some-eq,
}
use traio.History.Listing.{ListedActivity, last_row}
use traio.History.Listing.Order.{comes_after, IsOrdered, is_below_trans, is_below_irrefl}

-- Selecting once more, and by two tests.
pub filter_filter {ℓ} :
    {A : Type ℓ} (p q : A → Bool) (xs : List A)
    → ((x : A) → q x ≡ true → p x ≡ true)
    → filter q (filter p xs) ≡ filter q xs
unfolding filter
filter_filter p q [] h = refl
filter_filter p q (x ∷ xs) h = elim (Bool-cases (p x)) [
  | inl e ↦ elim (Bool-cases (q x)) [
    | inl k ↦ rw (e, k) (ap (λ t. x ∷ t) (filter_filter p q xs h))
    | inr k ↦ rw (e, k) (filter_filter p q xs h)
  ]
  | inr e ↦ elim (Bool-cases (q x)) [
    | inl k ↦ absurd (cc (h x k))
    | inr k ↦ rw (e, k) (filter_filter p q xs h)
  ]
]

pub filter-and {ℓ} :
    {A : Type ℓ} (p q : A → Bool) (xs : List A)
    → filter (λ x. p x && q x) xs ≡ filter q (filter p xs)
unfolding filter
filter-and p q [] = refl
filter-and p q (x ∷ xs) = elim (Bool-cases (p x)) [
  | inl e ↦ elim (Bool-cases (q x)) [
    | inl k ↦ rw (e, k) (ap (λ t. x ∷ t) (filter-and p q xs))
    | inr k ↦ rw (e, k) (filter-and p q xs)
  ]
  | inr e ↦ rw e (filter-and p q xs)
]

pub filter-All {ℓ} :
    {A : Type ℓ} (p : A → Bool) (xs : List A) → All (λ x. p x ≡ true) xs → filter p xs ≡ xs
unfolding filter
filter-All p [] h = refl
filter-All p (x ∷ xs) h = rw h.0 (ap (λ t. x ∷ t) (filter-All p xs h.1))

pub All-filtered {ℓ} :
    {A : Type ℓ} (p : A → Bool) (xs : List A) → All (λ x. p x ≡ true) (filter p xs)
unfolding filter
All-filtered p [] = tt
All-filtered p (x ∷ xs) = elim (Bool-cases (p x)) [
  | inl e ↦ rw e (e, All-filtered p xs)
  | inr e ↦ rw e (All-filtered p xs)
]

pub length-filter {ℓ} : {A : Type ℓ} (p : A → Bool) (xs : List A) → length (filter p xs) ≤ length xs
unfolding filter
length-filter p [] = omega arith
length-filter p (x ∷ xs) = ground (arith, length-filter p xs)

pub take_all {ℓ} : {A : Type ℓ} (n : ℕ) (xs : List A) → length xs ≤ n → take n xs ≡ xs
take_all zero [] h = refl
take_all zero (x ∷ xs) h = absurd (omega arith)
take_all (suc n) [] h = refl
take_all (suc n) (x ∷ xs) h = ap (λ t. x ∷ t) (take_all n xs (omega arith))

pub take-take {ℓ} : {A : Type ℓ} (n : ℕ) (xs : List A) → take n (take (suc n) xs) ≡ take n xs
take-take zero xs = refl
take-take (suc n) [] = refl
take-take (suc n) (x ∷ xs) = ap (λ t. x ∷ t) (take-take n xs)

pub length-take {ℓ} :
    {A : Type ℓ} (n : ℕ) (xs : List A) → ltb n (length (take (suc n) xs)) ≡ ltb n (length xs)
length-take zero [] = refl
length-take zero (x ∷ xs) = ground arith
length-take (suc n) [] = ground arith
length-take (suc n) (x ∷ xs) = ground (arith, length-take n xs)

-- The last row of a page.
pub last_row-All {κ} :
    (P : ListedActivity → Type κ) (n : ℕ) (rs : List ListedActivity) {x : ListedActivity}
    → last_row (take n rs) ≡ some x
    → All P rs
    → P x
unfolding last_row
last_row-All P zero rs e h = cc
last_row-All P (suc n) [] e h = cc
last_row-All P (suc zero) (r ∷ rs) {x} e h = let s : r ≡ x = some-eq e in rw (← s) h.0
last_row-All P (suc (suc n)) (r ∷ []) {x} e h = let s : r ≡ x = some-eq e in rw (← s) h.0
last_row-All P (suc (suc n)) (r ∷ s ∷ rs) e h = last_row-All P (suc n) (s ∷ rs) e h.1

-- A page that is cut has a last row, and the rows after it are those that the page leaves out.
pub rows_after :
    (n : ℕ) (rs : List ListedActivity)
    → n < length rs
    → 0 < n
    → IsOrdered rs
    → (x : ListedActivity) × (last_row (take n rs) ≡ some x)
      × (take n rs ++ filter (comes_after x) rs ≡ rs)
unfolding last_row filter
rows_after zero rs l z o = absurd (omega arith)
rows_after (suc n) [] l z o = absurd (omega arith)
rows_after (suc zero) (r ∷ rs) l z o =
    (r, refl, rw (is_below_irrefl r) (ap (λ t. r ∷ t) (filter-All (comes_after r) rs o.0)))
rows_after (suc (suc n)) (r ∷ []) l z o = absurd (omega arith)
rows_after (suc (suc n)) (r ∷ s ∷ rs) l z o =
    let (x, e, k) = rows_after (suc n) (s ∷ rs) (omega arith) (omega arith) o.1 in
    let below : comes_after r x ≡ true =
      last_row-All (λ y. comes_after r y ≡ true) (suc n) (s ∷ rs) e o.0 in
    let not_below : comes_after x r ≡ false = elim (Bool-cases (comes_after x r)) [
      | inl t ↦ absurd (cc (is_below_trans r.sort_key r.id x r below t, is_below_irrefl r))
      | inr t ↦ t
    ] in
    (x, e, rw not_below (ap (λ t. r ∷ t) k))
