-- ===== src/History/Listing/Order.antt =====
-- The order of the rows, and how sorting and selecting go together.
use traio.Prelude.{
  suc, length, ◌≡◌, refl, sym, ap, ◌∙◌, Bool, true, false, List, [], ◌∷◌, filter, All, arith,
  if◌then◌else◌, Bool-cases, inl, inr,
}
use traio.Text.{Text, text_eq, text_eq_iff}
use traio.Text.Order.{text_lt_trans, text_lt_total, text_lt_irrefl}
use traio.History.Listing.{ListedActivity, is_below, insert_row, sort_rows}

-- The row `b` comes after `a`.
abbrev pub comes_after : ListedActivity → ListedActivity → Bool
comes_after a b = is_below a.sort_key a.id b

-- A row is listed once, by its id.
abbrev pub UniqueIds : List ListedActivity → Type 0
UniqueIds [] = Unit {0}
UniqueIds (r ∷ rs) = All (λ s. text_eq s.id r.id ≡ false) rs × UniqueIds rs

abbrev pub IsOrdered : List ListedActivity → Type 0
IsOrdered [] = Unit {0}
IsOrdered (r ∷ rs) = All (λ s. comes_after r s ≡ true) rs × IsOrdered rs

pub is_below_trans :
    (sort id : Text) (a b : ListedActivity)
    → is_below sort id a ≡ true
    → comes_after a b ≡ true
    → is_below sort id b ≡ true
unfolding is_below
is_below_trans sort id a b h k = ground (
  arith,
  text_lt_trans b.sort_key a.sort_key sort,
  text_lt_trans b.id a.id id,
  text_eq_iff a.sort_key sort,
  text_eq_iff b.sort_key a.sort_key,
  text_eq_iff b.sort_key sort,
)

pub is_below_total :
    (a b : ListedActivity)
    → comes_after a b ≡ false
    → text_eq b.id a.id ≡ false
    → comes_after b a ≡ true
unfolding is_below
is_below_total a b h k = ground (
  arith,
  text_lt_total b.sort_key a.sort_key,
  text_lt_total b.id a.id,
  text_eq_iff a.sort_key b.sort_key,
  text_eq_iff b.sort_key a.sort_key,
)

pub is_below_irrefl : (a : ListedActivity) → comes_after a a ≡ false
unfolding is_below
is_below_irrefl a = ground (arith, text_lt_irrefl a.sort_key, text_lt_irrefl a.id)

pub All-filter {ℓ κ} :
    {A : Type ℓ} (P : A → Type κ) (p : A → Bool) (xs : List A) → All P xs → All P (filter p xs)
unfolding filter
All-filter P p [] h = tt
All-filter P p (x ∷ xs) h = elim (Bool-cases (p x)) [
  | inl e ↦ rw e (h.0, All-filter P p xs h.1)
  | inr e ↦ rw e (All-filter P p xs h.1)
]

pub All-map {ℓ κ μ} :
    {A : Type ℓ} (P : A → Type κ) (Q : A → Type μ) (xs : List A)
    → ((x : A) → P x → Q x)
    → All P xs
    → All Q xs
All-map P Q [] f h = tt
All-map P Q (x ∷ xs) f h = (f x h.0, All-map P Q xs f h.1)

pub All-of {ℓ κ} : {A : Type ℓ} (P : A → Type κ) (xs : List A) → ((x : A) → P x) → All P xs
All-of P [] f = tt
All-of P (x ∷ xs) f = (f x, All-of P xs f)

length-insert_row :
    (r : ListedActivity) (rs : List ListedActivity) → length (insert_row r rs) ≡ suc (length rs)
unfolding insert_row
length-insert_row r [] = refl
length-insert_row r (s ∷ ss) = ground (arith, length-insert_row r ss)

pub length-sort_rows : (rs : List ListedActivity) → length (sort_rows rs) ≡ length rs
unfolding sort_rows
length-sort_rows [] = refl
length-sort_rows (r ∷ rs) = omega (arith, length-insert_row r (sort_rows rs), length-sort_rows rs)

All-insert_row {κ} :
    (P : ListedActivity → Type κ) (r : ListedActivity) (rs : List ListedActivity)
    → P r
    → All P rs
    → All P (insert_row r rs)
unfolding insert_row
All-insert_row P r [] p h = (p, tt)
All-insert_row P r (s ∷ ss) p h = elim (Bool-cases (comes_after r s)) [
  | inl e ↦ rw (insert_row, e) (p, h)
  | inr e ↦ rw (insert_row, e) (h.0, All-insert_row P r ss p h.1)
]

pub All-sort_rows {κ} :
    (P : ListedActivity → Type κ) (rs : List ListedActivity) → All P rs → All P (sort_rows rs)
unfolding sort_rows
All-sort_rows P [] h = tt
All-sort_rows P (r ∷ rs) h = All-insert_row P r (sort_rows rs) h.0 (All-sort_rows P rs h.1)

insert_row-IsOrdered :
    (r : ListedActivity) (rs : List ListedActivity)
    → All (λ s. text_eq s.id r.id ≡ false) rs
    → IsOrdered rs
    → IsOrdered (insert_row r rs)
unfolding insert_row
insert_row-IsOrdered r [] u o = (tt, tt)
insert_row-IsOrdered r (s ∷ ss) u o = elim (Bool-cases (comes_after r s)) [
  | inl e ↦
      rw (insert_row, e)
        ((e, All-map _ _ ss (λ x k. is_below_trans r.sort_key r.id s x e k) o.0), o)
  | inr e ↦
      rw (insert_row, e)
        (
          All-insert_row (λ x. comes_after s x ≡ true) r ss (is_below_total r s e u.0) o.0,
          insert_row-IsOrdered r ss u.1 o.1,
        )
]

pub sort_rows-IsOrdered : (rs : List ListedActivity) → UniqueIds rs → IsOrdered (sort_rows rs)
unfolding sort_rows
sort_rows-IsOrdered [] u = tt
sort_rows-IsOrdered (r ∷ rs) u =
    insert_row-IsOrdered r (sort_rows rs) (All-sort_rows (λ s. text_eq s.id r.id ≡ false) rs u.0)
      (sort_rows-IsOrdered rs u.1)

insert_row_front :
    (r : ListedActivity) (rs : List ListedActivity)
    → All (λ s. comes_after r s ≡ true) rs
    → insert_row r rs ≡ r ∷ rs
unfolding insert_row
insert_row_front r [] h = refl
insert_row_front r (s ∷ ss) h = rw (insert_row, h.0) refl

filter-insert_row :
    (p : ListedActivity → Bool) (r : ListedActivity) (rs : List ListedActivity)
    → IsOrdered rs
    → filter p (insert_row r rs) ≡ (if p r then insert_row r (filter p rs) else filter p rs)
unfolding insert_row filter
filter-insert_row p r [] o = refl
filter-insert_row p r (s ∷ ss) o = elim (Bool-cases (comes_after r s)) [
  | inl e ↦ elim (Bool-cases (p r)) [
    | inl k ↦
        rw (insert_row, e, k)
          (sym (
            insert_row_front r (filter p (s ∷ ss)) (
              All-filter (λ x. comes_after r x ≡ true) p (s ∷ ss)
                (e, All-map _ _ ss (λ x m. is_below_trans r.sort_key r.id s x e m) o.0))))
    | inr k ↦ rw (insert_row, e, k) refl
  ]
  | inr e ↦ elim (Bool-cases (p s)) [
    | inl k ↦
        rw (insert_row, e, k, filter-insert_row p r ss o.1)
          (elim (Bool-cases (p r)) [ inl m ↦ rw (m, insert_row, e) refl | inr m ↦ rw m refl ])
    | inr k ↦ rw (insert_row, e, k) (filter-insert_row p r ss o.1)
  ]
]

pub filter-sort_rows :
    (p : ListedActivity → Bool) (rs : List ListedActivity)
    → UniqueIds rs
    → filter p (sort_rows rs) ≡ sort_rows (filter p rs)
unfolding sort_rows filter
filter-sort_rows p [] u = refl
filter-sort_rows p (r ∷ rs) u = elim (Bool-cases (p r)) [
  | inl e ↦
      filter-insert_row p r (sort_rows rs) (sort_rows-IsOrdered rs u.1)
      ∙ rw e (ap (insert_row r) (filter-sort_rows p rs u.1))
  | inr e ↦
      filter-insert_row p r (sort_rows rs) (sort_rows-IsOrdered rs u.1)
      ∙ rw e (filter-sort_rows p rs u.1)
]

pub filter-UniqueIds :
    (p : ListedActivity → Bool) (rs : List ListedActivity) → UniqueIds rs → UniqueIds (filter p rs)
unfolding filter
filter-UniqueIds p [] u = tt
filter-UniqueIds p (r ∷ rs) u = elim (Bool-cases (p r)) [
  | inl e ↦ rw e (All-filter (λ s. text_eq s.id r.id ≡ false) p rs u.0, filter-UniqueIds p rs u.1)
  | inr e ↦ rw e (filter-UniqueIds p rs u.1)
]

pub filter-IsOrdered :
    (p : ListedActivity → Bool) (rs : List ListedActivity) → IsOrdered rs → IsOrdered (filter p rs)
unfolding filter
filter-IsOrdered p [] o = tt
filter-IsOrdered p (r ∷ rs) o = elim (Bool-cases (p r)) [
  | inl e ↦ rw e (All-filter (λ s. comes_after r s ≡ true) p rs o.0, filter-IsOrdered p rs o.1)
  | inr e ↦ rw e (filter-IsOrdered p rs o.1)
]
