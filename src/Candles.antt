-- ===== src/Candles.antt =====
-- internal/store/candle_cache.go: the cache of price bars, one row for each (symbol, period, bar).
-- Times are Unix seconds. The table is the list of its rows; an upsert keeps one row for a key.
-- A row's candles are of any type: the JSON round trip of the column is not modelled.
mod Laws
mod Examples
use traio.Prelude.{
  ℕ, ◌+◌, ◌-◌, ◌*◌, String, Bool, ◌&&◌, ◌||◌, Option, none, some, List, [], ◌∷◌, ltb, str_eq,
  if◌then◌else◌,
}

pub record Key : Type 0 where
  pub symbol : String
  pub period : String
  pub bar : String

pub record Row (C : Type 0) : Type 0 where
  pub key : Key
  pub conid : ℕ
  pub candles : C
  pub cached_at : ℕ

abbrev pub minute : ℕ
minute = 60

abbrev pub hour : ℕ
hour = 60 * minute

-- The `switch` on the bar size.
pub candle_ttl : String → ℕ
candle_ttl bar =
    if str_eq bar "1d" || str_eq bar "1w" || str_eq bar "1m"
    then 24 * hour
    else if str_eq bar "1h" || str_eq bar "2h" || str_eq bar "4h"
    then hour
    else 15 * minute

pub same_key : Key → Key → Bool
same_key a b = str_eq a.symbol b.symbol && str_eq a.period b.period && str_eq a.bar b.bar

module _ {C : Type 0} where
  pub find_row : Key → List (Row C) → Option (Row C)
  find_row k [] = none
  find_row k (r ∷ rs) = if same_key r.key k then some r else find_row k rs

  -- `time.Now().Unix()-cachedAt > ttl` on signed seconds; a row from the future is not expired.
  pub is_expired : ℕ → Row C → Bool
  is_expired now r = ltb (r.cached_at + candle_ttl r.key.bar) now

  pub fresh_candles : ℕ → Option (Row C) → Option C
  unfolding is_expired
  fresh_candles now none = none
  fresh_candles now (some r) = if is_expired now r then none else some r.candles

  pub get_cached_candles : ℕ → Key → List (Row C) → Option C
  unfolding find_row fresh_candles
  get_cached_candles now k rows = fresh_candles now (find_row k rows)

  -- `INSERT ... ON CONFLICT(symbol, period, bar) DO UPDATE`
  pub set_cached_candles : ℕ → Key → ℕ → C → List (Row C) → List (Row C)
  set_cached_candles now k conid candles [] =
      record { key = k; conid = conid; candles = candles; cached_at = now } ∷ []
  set_cached_candles now k conid candles (r ∷ rs) =
      if same_key r.key k
      then record r { conid = conid; candles = candles; cached_at = now } ∷ rs
      else r ∷ set_cached_candles now k conid candles rs

  -- `DELETE FROM candle_cache WHERE cached_at < now - minTTL`, on signed seconds.
  pub purge_expired_candles : ℕ → List (Row C) → List (Row C)
  purge_expired_candles now [] = []
  purge_expired_candles now (r ∷ rs) =
      let rest = purge_expired_candles now rs in
      if ltb (r.cached_at + 15 * minute) now then rest else r ∷ rest
