-- ===== src/Candles/Laws.antt =====
-- What a reader of the candle cache sees after a write and after a purge.
use traio.Prelude.{
  ◌+◌, ◌*◌, ◌≤◌, ◌<◌, ◌≡◌, ℕ, Option, none, some, List, [], ◌∷◌, ltb, arith, All, eq_iff,
  if◌then◌else◌, false, true, ◌↔◌, Bool-cases, inl, inr, refl,
}
use traio.Candles.{
  Key, Row, minute, candle_ttl, same_key, find_row, get_cached_candles, set_cached_candles,
  purge_expired_candles,
}

same_key_iff : (a b : Key) → (same_key a b ≡ true) ↔ (a ≡ b)
unfolding same_key
same_key_iff a b = (
  λ h. ground (arith, eq_iff a.symbol b.symbol, eq_iff a.period b.period, eq_iff a.bar b.bar),
  λ h. ground (arith, eq_iff a.symbol b.symbol, eq_iff a.period b.period, eq_iff a.bar b.bar),
)

-- The primary key: no two rows have one key.
abbrev pub HasUniqueKeys : {C : Type 0} → List (Row C) → Type 0
HasUniqueKeys [] = Unit
HasUniqueKeys (r ∷ rs) = All (λ s. same_key s.key r.key ≡ false) rs × HasUniqueKeys rs

module _ {C : Type 0} where
  find_row-set :
      (now : ℕ) (k j : Key) (conid : ℕ) (c : C) (rows : List (Row C))
      → find_row j (set_cached_candles now k conid c rows) ≡ (
          if same_key k j
          then some (record { key = k; conid = conid; candles = c; cached_at = now })
          else find_row j rows)
  unfolding find_row set_cached_candles
  find_row-set now k j conid c [] = refl
  find_row-set now k j conid c (r ∷ rs) = ground (
    arith,
    same_key_iff r.key k,
    same_key_iff k j,
    same_key_iff r.key j,
    find_row-set now k j conid c rs,
  )

  -- A read after a write of the same key gives the written candles until the bar's own lifetime
  -- has passed, and nothing from then on; a read of any other key is as before the write.
  pub get-set_cached_candles :
      (now later : ℕ) (k j : Key) (conid : ℕ) (c : C) (rows : List (Row C))
      → get_cached_candles later j (set_cached_candles now k conid c rows) ≡ (
          if same_key k j
          then (if ltb (now + candle_ttl k.bar) later then none else some c)
          else get_cached_candles later j rows)
  unfolding get_cached_candles
  get-set_cached_candles now later k j conid c rows =
      ground (arith, find_row-set now k j conid c rows)

  set-absent :
      (now : ℕ) (k : Key) (conid : ℕ) (c : C) (rows : List (Row C)) (j : Key)
      → same_key k j ≡ false
      → All (λ s. same_key s.key j ≡ false) rows
      → All (λ s. same_key s.key j ≡ false) (set_cached_candles now k conid c rows)
  unfolding set_cached_candles
  set-absent now k conid c [] j h u = (h, tt)
  set-absent now k conid c (r ∷ rs) j h u = elim (Bool-cases (same_key r.key k)) [
    | inl e ↦ rw e u
    | inr e ↦ rw e (u.0, set-absent now k conid c rs j h u.1)
  ]

  -- A write keeps the primary key: one row for each (symbol, period, bar).
  pub set_cached_candles-HasUniqueKeys :
      (now : ℕ) (k : Key) (conid : ℕ) (c : C) (rows : List (Row C))
      → HasUniqueKeys rows
      → HasUniqueKeys (set_cached_candles now k conid c rows)
  unfolding set_cached_candles
  set_cached_candles-HasUniqueKeys now k conid c [] u = (tt, tt)
  set_cached_candles-HasUniqueKeys now k conid c (r ∷ rs) u = elim (Bool-cases (same_key r.key k)) [
    | inl e ↦ rw e u
    | inr e ↦ rw e (
      set-absent now k conid c rs r.key (ground (arith, same_key_iff r.key k, same_key_iff k r.key))
          u.0,
      set_cached_candles-HasUniqueKeys now k conid c rs u.1,
    )
  ]

  find_row-absent :
      (k : Key) (rows : List (Row C))
      → All (λ s. same_key s.key k ≡ false) rows
      → find_row k rows ≡ none
  unfolding find_row
  find_row-absent k [] u = refl
  find_row-absent k (r ∷ rs) u = ground (arith, find_row-absent k rs u.1)

  -- What a purge leaves of a row that a reader would find.
  abbrev survivor : ℕ → Option (Row C) → Option (Row C)
  survivor now none = none
  survivor now (some r) = if ltb (r.cached_at + 15 * minute) now then none else some r

  find_row-purge :
      (now : ℕ) (k : Key) (rows : List (Row C))
      → HasUniqueKeys rows
      → find_row k (purge_expired_candles now rows) ≡ survivor now (find_row k rows)
  unfolding find_row purge_expired_candles
  find_row-purge now k [] u = refl
  find_row-purge now k (r ∷ rs) u = ground (
    arith,
    find_row-purge now k rs u.1,
    λ (e : r.key ≡ k). find_row-absent r.key rs u.0,
    same_key_iff r.key k,
  )

  -- With one row for each key, a purge followed by a read at the same time serves only what the
  -- read would have served without the purge, and serves all of it that is at most 15 minutes old.
  pub get-purge_expired_candles :
      (now : ℕ) (k : Key) (rows : List (Row C)) (r : Row C)
      → HasUniqueKeys rows
      → find_row k rows ≡ some r
      → get_cached_candles now k (purge_expired_candles now rows)
        ≡ (if ltb (r.cached_at + 15 * minute) now then none else get_cached_candles now k rows)
  unfolding get_cached_candles
  get-purge_expired_candles now k rows r u e = ground (arith, find_row-purge now k rows u)

  -- A row that a reader would still be served, older than 15 minutes and within its bar's own
  -- lifetime, is gone after a purge, although every lifetime but the shortest allows it.
  pub purge_drops_fresh :
      (now : ℕ) (k : Key) (rows : List (Row C)) (r : Row C)
      → HasUniqueKeys rows
      → find_row k rows ≡ some r
      → r.cached_at + 15 * minute < now
      → now ≤ r.cached_at + candle_ttl r.key.bar
      → (get_cached_candles now k rows ≡ some r.candles)
        × (get_cached_candles now k (purge_expired_candles now rows) ≡ none)
  unfolding get_cached_candles
  purge_drops_fresh now k rows r u e old fresh = ground (arith, find_row-purge now k rows u)
