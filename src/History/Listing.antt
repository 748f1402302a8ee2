-- ===== src/History/Listing.antt =====
-- The list of activities, page by page: ListActivities of internal/store/activity_records.go, without
-- the coverage that a page also carries. A row is an activity's current revision joined with its
-- account. `upper` is strings.ToUpper; `hash` of a text and `filter_hash` of a query are historyHash
-- (of a query as JSON); `encode` and `decode` write a cursor as JSON in base64 and read it.
pub mod Order
pub mod Pages
pub mod Follow
mod Examples
use traio.Prelude.{
  ℕ, zero, suc, ◌+◌, ◌<◌, Bool, true, false, not, ◌&&◌, ◌||◌, ◌==◌, List, [], ◌∷◌, ◌++◌, Option,
  none, some, Result, ok, err, ◌>>=◌, ltb, leb, map, filter, any, take, length, is_empty,
  if◌then◌else◌,
}
use traio.Prelude.Int.{ℤ, pos, negsuc, ltb_ℤ}
use traio.Text.{Text, text_eq, text_lt, is_space}
use traio.Text.Trim.{trim_space}
use traio.Text.Split.{split}
use traio.Activity.Types.{eq_ℤ}
use traio.Activity.Decimal.Arith.{print_number}

-- A leg's instrument is its id as a text, with the instrument's normalized symbol.
pub record ListedLeg : Type 0 where
  pub instrument : Text
  pub symbol : Text
  pub currency : Text

-- `payload_id` is the id in the activity's JSON.
pub record ListedActivity : Type 0 where
  pub id : Text
  pub payload_id : Text
  pub account : ℤ
  pub provider : Text
  pub activity_type : Text
  pub status : Text
  pub sort_key : Text
  pub legs : List ListedLeg

pub record HistoryQuery : Type 0 where
  pub symbol : Text
  pub account_ids : List ℤ
  pub provider : Text
  pub instrument_id : Text
  pub types : Text
  pub from : Text
  pub to : Text
  pub status : Text
  pub currency : Text
  pub cursor : Text
  pub limit : ℤ

pub record HistoryCursor : Type 0 where
  pub generation : Text
  pub filter : Text
  pub sort : Text
  pub id : Text

pub record HistoryPage : Type 0 where
  pub items : List ListedActivity
  pub next_cursor : Text

pub data ListingError : Type 0 where
  invalid_history_cursor history_cursor_stale : ListingError

-- The accounts with their generations, in the order of their ids, and the activities.
pub record Listing : Type 0 where
  pub accounts : List (ℤ × ℤ)
  pub rows : List ListedActivity

-- strings.Fields, joined by dots: blanks between words become one dot.
abbrev dotted : Text → Bool → Text
dotted [] pending = []
dotted (c ∷ s) pending =
    let next = dotted s (is_space c) in
    if is_space c then next else if pending then b'.' ∷ c ∷ next else c ∷ next

-- `NormalizeInstrumentSymbol` of instruments.go
unfoldable pub normalize_instrument_symbol : (Text → Text) → Text → Text
unfolding trim_space is_space
normalize_instrument_symbol upper s =
    dotted (trim_space (map (λ c. if c == b'/' then b'.' else c) (upper (trim_space s)))) false

abbrev print_ℤ : ℤ → Text
print_ℤ (pos n) = print_number n
print_ℤ (negsuc n) = b'-' ∷ print_number (suc n)

abbrev pub page_limit : ℤ → ℕ
page_limit (pos n) = if n == 0 then 50 else if ltb 200 n then 200 else n
page_limit (negsuc n) = 50

insert_id : ℤ → List ℤ → List ℤ
insert_id i [] = i ∷ []
insert_id i (j ∷ js) = if ltb_ℤ j i then j ∷ insert_id i js else i ∷ j ∷ js

unfoldable pub sort_ids : List ℤ → List ℤ
unfolding insert_id
sort_ids [] = []
sort_ids (i ∷ is) = insert_id i (sort_ids is)

-- `containsHistoryID`
abbrev pub contains_history_id : List ℤ → ℤ → Bool
contains_history_id ids n = any (λ i. eq_ℤ i n) ids

unfoldable pub generation_text : List ℤ → List (ℤ × ℤ) → Text
unfolding print_number
generation_text ids [] = []
generation_text ids ((i, g) ∷ accounts) =
    let rest = generation_text ids accounts in
    if is_empty ids || contains_history_id ids i
    then print_ℤ i ++ b':' ∷ (print_ℤ g ++ b';' ∷ rest)
    else rest

-- `WHERE`, without the cursor's condition.
unfoldable pub matches : (Text → Text) → HistoryQuery → ListedActivity → Bool
unfolding split
matches upper q r =
    (is_empty q.account_ids || contains_history_id q.account_ids r.account)
    && (is_empty q.provider || text_eq r.provider (upper q.provider))
    && (is_empty q.types || any (text_eq r.activity_type) (split b',' q.types))
    && (is_empty q.from || not (text_lt r.sort_key q.from))
    && (is_empty q.to || text_lt r.sort_key (q.to ++ b'~' ∷ []))
    && (is_empty q.status || text_eq r.status q.status)
    && (is_empty q.instrument_id || any (λ l. text_eq l.instrument q.instrument_id) r.legs)
    && (is_empty q.symbol || any (λ l. text_eq l.symbol q.symbol) r.legs)
    && (is_empty q.currency || any (λ l. text_eq l.currency (upper q.currency)) r.legs)

-- `v.sort_key < ? OR (v.sort_key = ? AND a.id < ?)`
unfoldable pub is_below : Text → Text → ListedActivity → Bool
is_below sort id r = text_lt r.sort_key sort || text_eq r.sort_key sort && text_lt r.id id

abbrev pub after_cursor : HistoryCursor → ListedActivity → Bool
after_cursor c r = is_empty c.id || is_below c.sort c.id r

-- `ORDER BY v.sort_key DESC, a.id DESC`
unfoldable pub insert_row : ListedActivity → List ListedActivity → List ListedActivity
unfolding is_below
insert_row r [] = r ∷ []
insert_row r (s ∷ ss) = if is_below r.sort_key r.id s then r ∷ s ∷ ss else s ∷ insert_row r ss

unfoldable pub sort_rows : List ListedActivity → List ListedActivity
unfolding insert_row
sort_rows [] = []
sort_rows (r ∷ rs) = insert_row r (sort_rows rs)

unfoldable pub last_row : List ListedActivity → Option ListedActivity
last_row [] = none
last_row (r ∷ []) = some r
last_row (r ∷ s ∷ rs) = last_row (s ∷ rs)

abbrev pub first_cursor : HistoryCursor
first_cursor = record { generation = []; filter = []; sort = []; id = [] }

-- What the codes outside this repository answer.
pub record Codec : Type 0 where
  pub upper : Text → Text
  pub hash : Text → Text
  pub filter_hash : HistoryQuery → Text
  pub encode : HistoryCursor → Text
  pub decode : Text → Option HistoryCursor

module _ (codec : Codec) where
  abbrev pub normalized_query : HistoryQuery → HistoryQuery
  normalized_query q = record q {
    symbol = normalize_instrument_symbol codec.upper q.symbol;
    account_ids = sort_ids q.account_ids;
    limit = pos (page_limit q.limit);
  }

  abbrev pub generation : Listing → HistoryQuery → Text
  generation t q = codec.hash (generation_text q.account_ids t.accounts)

  -- The query's hash is without its cursor and its limit.
  abbrev pub filter_of : HistoryQuery → Text
  filter_of q = codec.filter_hash (record q { cursor = []; limit = pos 0 })

  unfoldable pub checked_cursor :
      Text → Text → Option HistoryCursor → Result ListingError HistoryCursor
  checked_cursor g f none = err invalid_history_cursor
  checked_cursor g f (some c) =
      if text_eq c.generation g && text_eq c.filter f then ok c else err history_cursor_stale

  unfoldable pub read_cursor : Text → Text → Text → Result ListingError HistoryCursor
  unfolding checked_cursor
  read_cursor g f cursor =
      if is_empty cursor then ok first_cursor else checked_cursor g f (codec.decode cursor)

  abbrev pub next_after : Text → Text → Option ListedActivity → Text
  next_after g f none = []
  next_after g f (some r) =
      codec.encode (record { generation = g; filter = f; sort = r.sort_key; id = r.payload_id })

  -- One row more than the limit is read, to see whether there is a next page.
  unfoldable pub cut_page : Text → Text → ℕ → List ListedActivity → HistoryPage
  unfolding last_row
  cut_page g f limit rows =
      let items = take (limit + 1) rows in
      if ltb limit (length items)
      then record {
        items = take limit items;
        next_cursor = next_after g f (last_row (take limit items));
      }
      else record { items = items; next_cursor = [] }

  unfoldable pub page_after : Listing → HistoryQuery → HistoryCursor → HistoryPage
  unfolding cut_page sort_rows matches is_below
  page_after t q c =
      cut_page (generation t q) (filter_of q) (page_limit q.limit)
        (sort_rows (filter (λ r. matches codec.upper q r && after_cursor c r) t.rows))

  -- `ListActivities`
  unfoldable pub list_activities : Listing → HistoryQuery → Result ListingError HistoryPage
  unfolding read_cursor page_after normalize_instrument_symbol sort_ids generation_text
  list_activities t query =
      let q = normalized_query query in
      read_cursor (generation t q) (filter_of q) q.cursor >>= λ c. ok (page_after t q c)
