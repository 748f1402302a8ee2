-- ===== src/Candles/Examples.antt =====
-- The candle cache at concrete inputs.
use traio.Prelude.{
  ◌+◌, ◌*◌, ◌≡◌, refl, none, some, List, [], ◌∷◌, ltb, if◌then◌else◌, String, arith,
}
use traio.Candles.{
  Key, Row, minute, hour, candle_ttl, same_key, find_row, get_cached_candles, set_cached_candles,
  purge_expired_candles,
}
use traio.Candles.Laws.{get-set_cached_candles, get-purge_expired_candles, purge_drops_fresh}

abbrev daily : Key
daily = record { symbol = "AAPL"; period = "1y"; bar = "1d" }

abbrev fast : Key
fast = record { symbol = "AAPL"; period = "1d"; bar = "5m" }

-- The candles are texts here.
abbrev daily_row : Row String
daily_row = record { key = daily; conid = 265598; candles = "bars"; cached_at = 1000 }

abbrev one_row : List (Row String)
one_row = daily_row ∷ []

found : find_row daily one_row ≡ some daily_row
unfolding find_row same_key
found = refl

get-set_cached_candles_example :
    get_cached_candles 1500 daily (set_cached_candles 1400 fast 1 "new" one_row) ≡ (
      if same_key fast daily
      then (if ltb (1400 + candle_ttl fast.bar) 1500 then none else some "new")
      else get_cached_candles 1500 daily one_row)
get-set_cached_candles_example =
    get-set_cached_candles {C = String} 1400 1500 fast daily 1 "new" one_row

get-purge_expired_candles_example :
    get_cached_candles 1200 daily (purge_expired_candles 1200 one_row)
    ≡ (if ltb (1000 + 15 * minute) 1200 then none else get_cached_candles 1200 daily one_row)
get-purge_expired_candles_example =
    get-purge_expired_candles {C = String} 1200 daily one_row daily_row (tt, tt) found

daily_ttl : candle_ttl "1d" ≡ 24 * hour
unfolding candle_ttl
daily_ttl = refl

purge_drops_fresh_example :
    (get_cached_candles 5000 daily one_row ≡ some "bars")
    × (get_cached_candles 5000 daily (purge_expired_candles 5000 one_row) ≡ none)
purge_drops_fresh_example =
    purge_drops_fresh {C = String} 5000 daily one_row daily_row (tt, tt) found (omega arith)
      (rw daily_ttl (omega arith))
