-- ===== src/History/Listing/Examples.antt =====
-- A client that follows the cursors of three activities, one to a page.
use traio.Prelude.{
  ℕ, suc, ◌≡◌, refl, ap, [], ◌∷◌, ◌++◌, Option, none, some, length, arith, filter, zero,
}
use traio.Prelude.Int.{pos}
use traio.Text.{Text, codes}
use traio.History.Listing.{
  ListedActivity, HistoryQuery, HistoryCursor, Listing, Codec, sort_rows, matches, normalized_query,
}
use traio.History.Listing.Order.{IsOrdered}
use traio.History.Listing.Follow.{IsCodec, IsTable, follow, follow_lists_all}

-- A text is written after its length.
abbrev put_text : Text → Text → Text
put_text t rest = length t ∷ (t ++ rest)

abbrev take_text : ℕ → Text → Text
take_text zero s = []
take_text (suc n) [] = []
take_text (suc n) (c ∷ s) = c ∷ take_text n s

abbrev drop_text : ℕ → Text → Text
drop_text zero s = s
drop_text (suc n) [] = []
drop_text (suc n) (c ∷ s) = drop_text n s

take_text-append : (t s : Text) → take_text (length t) (t ++ s) ≡ t
take_text-append [] s = refl
take_text-append (c ∷ t) s = ap (λ x. c ∷ x) (take_text-append t s)

drop_text-append : (t s : Text) → drop_text (length t) (t ++ s) ≡ s
drop_text-append [] s = refl
drop_text-append (c ∷ t) s = drop_text-append t s

abbrev read4 : Text → Text → Text → Text → HistoryCursor
read4 g f s i = record { generation = g; filter = f; sort = s; id = i }

abbrev get_last : Text → Text → Text → Text → Option HistoryCursor
get_last g f s [] = none
get_last g f s (n ∷ t) = some (read4 g f s (take_text n t))

abbrev get_sort : Text → Text → Text → Option HistoryCursor
get_sort g f [] = none
get_sort g f (n ∷ t) = get_last g f (take_text n t) (drop_text n t)

abbrev get_filter : Text → Text → Option HistoryCursor
get_filter g [] = none
get_filter g (n ∷ t) = get_sort g (take_text n t) (drop_text n t)

abbrev get_cursor : Text → Option HistoryCursor
get_cursor [] = none
get_cursor (n ∷ t) = get_filter (take_text n t) (drop_text n t)

abbrev codec : Codec
codec = record {
  upper = λ t. t;
  hash = λ t. t;
  filter_hash = λ q. q.symbol;
  encode = λ c. put_text c.generation (put_text c.filter (put_text c.sort (put_text c.id [])));
  decode = get_cursor;
}

codec-IsCodec : IsCodec codec
codec-IsCodec = record {
  decodes = λ c.
      rw
        (
          take_text-append c.generation (put_text c.filter (put_text c.sort (put_text c.id []))),
          drop_text-append c.generation (put_text c.filter (put_text c.sort (put_text c.id []))),
          take_text-append c.filter (put_text c.sort (put_text c.id [])),
          drop_text-append c.filter (put_text c.sort (put_text c.id [])),
          take_text-append c.sort (put_text c.id []),
          drop_text-append c.sort (put_text c.id []),
          take_text-append c.id [],
        )
        refl;
  nonempty = λ c. refl;
}

abbrev activity : Text → Text → ListedActivity
activity id day = record {
  id = id;
  payload_id = id;
  account = pos 7;
  provider = codes "IBKR";
  activity_type = codes "trade";
  status = codes "effective";
  sort_key = day ++ codes "|";
  legs = record { instrument = codes "3"; symbol = codes "AAPL"; currency = codes "USD" } ∷ [];
}

abbrev listing : Listing
listing = record {
  accounts = (pos 7, pos 2) ∷ [];
  rows =
      activity (codes "a") (codes "2024-01-02")
      ∷ activity (codes "b") (codes "2024-03-04")
      ∷ activity (codes "c") (codes "2024-01-02")
      ∷ [];
}

listing-IsTable : IsTable listing.rows
listing-IsTable = record {
  unique = ((refl, (refl, tt)), ((refl, tt), (tt, tt)));
  ids = ((refl, refl), ((refl, refl), ((refl, refl), tt)));
}

abbrev query : HistoryQuery
query = record {
  symbol = codes "AAPL";
  account_ids = pos 7 ∷ [];
  provider = [];
  instrument_id = [];
  types = [];
  from = codes "2024-01-01";
  to = [];
  status = [];
  currency = [];
  cursor = [];
  limit = pos 1;
}

follow_lists_all_example :
    (follow codec 4 listing query
      ≡ some (sort_rows (filter (matches codec.upper (normalized_query codec query)) listing.rows)))
    × IsOrdered
        (sort_rows (filter (matches codec.upper (normalized_query codec query)) listing.rows))
follow_lists_all_example =
    follow_lists_all codec codec-IsCodec listing listing-IsTable query 4 (omega arith) refl
