-- ===== src/History/Worker/Laws.antt =====
-- Which accounts a job touches.

use traio.Prelude.{
  ◌≡◌, ◌∙◌, refl, Bool, true, false, not, ◌&&◌, ◌||◌, List, [], ◌∷◌, ◌++◌, arith, any, map,
  Bool-cases, inl, inr,
}
use traio.Prelude.Int.{ℤ}
use traio.Activity.Types.{eq_ℤ}
use traio.History.Schedule.{HistoryCoverage}
use traio.History.Worker.{
  has_account, is_positive_id, add_account, add_accounts, affected_account_ids,
}

any-append :
    (x : ℤ) (as' bs : List ℤ) → has_account x (as' ++ bs) ≡ (has_account x as' || has_account x bs)
any-append x [] bs = refl
any-append x (a ∷ as') bs = ground (arith, any-append x as' bs)

eq_trans : (a x y : ℤ) → eq_ℤ x y ≡ true → eq_ℤ a x ≡ eq_ℤ a y
eq_trans a x y h = ground (arith, h)

has_account-same :
    (x y : ℤ) (ids : List ℤ) → eq_ℤ x y ≡ true → has_account x ids ≡ has_account y ids
has_account-same x y [] h = refl
has_account-same x y (i ∷ ids) h = rw (eq_trans i x y h, has_account-same x y ids h) refl

positive-same : (x y : ℤ) → eq_ℤ x y ≡ true → is_positive_id x ≡ is_positive_id y
positive-same x y h = ground (arith, h)

or_absorbs : (r p e : Bool) → (e ≡ true → p ≡ true → r ≡ true) → r ≡ (r || p && e)
or_absorbs true p e h = refl
or_absorbs false true true h = h refl refl
or_absorbs false true false h = refl
or_absorbs false false e h = refl

seen_or_not : (p h : Bool) → (p && not h) ≡ false → p ≡ true → h ≡ true
seen_or_not true true e q = refl
seen_or_not true false e q = cc
seen_or_not false h e q = cc

has_account-add :
    (x y : ℤ) (result : List ℤ)
    → has_account x (add_account y result) ≡ (has_account x result || is_positive_id y && eq_ℤ y x)
unfolding add_account
has_account-add x y result = elim (Bool-cases (is_positive_id y && not (has_account y result))) [
  | inl e ↦ rw e (
      any-append x result (y ∷ [])
      ∙ added (has_account x result) (is_positive_id y) (eq_ℤ y x) (not (has_account y result)) e)
  | inr e ↦ rw e (
      or_absorbs (has_account x result) (is_positive_id y) (eq_ℤ y x) (λ q p.
        rw (← has_account-same y x result q)
          (seen_or_not (is_positive_id y) (has_account y result) e p)))
]
  where
    added : (r p e n : Bool) → (p && n) ≡ true → (r || (e || false)) ≡ (r || p && e)
    added r p e n h = ground (arith, h)

positive_and : (p q e : Bool) → (e ≡ true → p ≡ q) → (p && e) ≡ (q && e)
positive_and p q true h = rw (h refl) refl
positive_and p q false h = ground arith

has_account-add_accounts :
    (x : ℤ) (xs result : List ℤ)
    → has_account x (add_accounts xs result)
      ≡ (has_account x result || is_positive_id x && has_account x xs)
unfolding add_accounts
has_account-add_accounts x [] result = ground arith
has_account-add_accounts x (y ∷ xs) result =
    has_account-add_accounts x xs (add_account y result)
    ∙ rw
        (
          has_account-add x y result,
          positive_and (is_positive_id y) (is_positive_id x) (eq_ℤ y x) (positive-same y x),
        )
        (regroup (has_account x result) (is_positive_id x) (eq_ℤ y x) (has_account x xs))
  where
    regroup : (r p e h : Bool) → (r || p && e || p && h) ≡ (r || p && (e || h))
    regroup r p e h = ground arith

abbrev IsNew : ℤ → List ℤ → Type 0
IsNew x ids = has_account x ids ≡ false

-- No id stands twice.
abbrev pub HasUniqueIds : List ℤ → Type 0
HasUniqueIds [] = Unit
HasUniqueIds (i ∷ ids) = IsNew i ids × HasUniqueIds ids

append-HasUniqueIds :
    (x : ℤ) (ids : List ℤ) → IsNew x ids → HasUniqueIds ids → HasUniqueIds (ids ++ (x ∷ []))
append-HasUniqueIds x [] n u = (refl, tt)
append-HasUniqueIds x (i ∷ ids) n u = (
  ground (arith, any-append i ids (x ∷ []), u.0, n),
  append-HasUniqueIds x ids (ground (arith, n)) u.1,
)

add-HasUniqueIds : (x : ℤ) (ids : List ℤ) → HasUniqueIds ids → HasUniqueIds (add_account x ids)
unfolding add_account
add-HasUniqueIds x ids u = elim (Bool-cases (is_positive_id x && not (has_account x ids))) [
  | inl e ↦ rw e (append-HasUniqueIds x ids (ground (arith, e)) u)
  | inr e ↦ rw e u
]

add_accounts-HasUniqueIds :
    (xs ids : List ℤ) → HasUniqueIds ids → HasUniqueIds (add_accounts xs ids)
unfolding add_accounts
add_accounts-HasUniqueIds [] ids u = u
add_accounts-HasUniqueIds (x ∷ xs) ids u =
    add_accounts-HasUniqueIds xs (add_account x ids) (add-HasUniqueIds x ids u)

has_account-map :
    (x : ℤ) (coverage : List HistoryCoverage)
    → has_account x (map (λ (c : HistoryCoverage). c.account_id) coverage)
      ≡ any (λ (c : HistoryCoverage). eq_ℤ c.account_id x) coverage
has_account-map x [] = refl
has_account-map x (c ∷ cs) = ground (arith, has_account-map x cs)

-- The accounts that a finished job touches are listed once each, and are exactly those with a
-- positive id that the request names or the coverage holds.
pub affected-accounts :
    (requested : List ℤ) (coverage : List HistoryCoverage) (x : ℤ)
    → HasUniqueIds (affected_account_ids requested coverage)
      × (has_account x (affected_account_ids requested coverage) ≡ (
          is_positive_id x
          && (has_account x requested
              || any (λ (c : HistoryCoverage). eq_ℤ c.account_id x) coverage)))
unfolding affected_account_ids
affected-accounts requested coverage x = (
  add_accounts-HasUniqueIds (map (λ (c : HistoryCoverage). c.account_id) coverage)
      (add_accounts requested []) (add_accounts-HasUniqueIds requested [] tt),
  has_account-add_accounts x (map (λ (c : HistoryCoverage). c.account_id) coverage)
        (add_accounts requested [])
      ∙ rw (has_account-add_accounts x requested [], has_account-map x coverage)
          (distribute (is_positive_id x) (has_account x requested)
            (any (λ (c : HistoryCoverage). eq_ℤ c.account_id x) coverage)),
)
  where
    distribute : (p a b : Bool) → (false || p && a || p && b) ≡ (p && (a || b))
    distribute p a b = ground arith
