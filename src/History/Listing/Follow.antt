-- ===== src/History/Listing/Follow.antt =====
-- A client that follows the cursors from page to page.
use traio.Prelude.{
  ℕ, zero, suc, ◌+◌, ◌<◌, ◌≡◌, refl, sym, ap, ◌∙◌, Bool, true, false, ◌&&◌, ◌||◌, List, [], ◌∷◌,
  ◌++◌, Option, none, some, Result, ok, err, ltb, filter, take, length, length-append, ltb→lt,
  is_empty, All, arith, if◌then◌else◌, Bool-cases, inl, inr,
}
use traio.Prelude.Int.{ℤ, pos, negsuc}
use traio.Text.{Text, text_eq_iff}
use traio.History.Listing.{
  ListedActivity, HistoryQuery, HistoryCursor, HistoryPage, ListingError, Listing, page_limit,
  matches, is_below, after_cursor, sort_rows, last_row, Codec, normalized_query, generation,
  filter_of, checked_cursor, read_cursor, cut_page, page_after, list_activities, first_cursor,
}
use traio.History.Listing.Order.{
  comes_after, UniqueIds, IsOrdered, is_below_trans, All-filter, All-sort_rows, sort_rows-IsOrdered,
  filter-sort_rows, filter-UniqueIds, filter-IsOrdered, length-sort_rows, All-of,
}
use traio.History.Listing.Pages.{
  filter_filter, filter-and, All-filtered, length-filter, take_all, take-take, length-take,
  last_row-All, rows_after, filter-All,
}

-- A cursor that is written is not the empty text, and is read as what it was.
pub record IsCodec (codec : Codec) : Type 0 where
  pub decodes : (c : HistoryCursor) → codec.decode (codec.encode c) ≡ some c
  pub nonempty : (c : HistoryCursor) → is_empty (codec.encode c) ≡ false

-- Each activity has its own id, which its payload has too.
pub record IsTable (rows : List ListedActivity) : Type 0 where
  pub unique : UniqueIds rows
  pub ids : All (λ r. (is_empty r.id ≡ false) × (r.payload_id ≡ r.id)) rows

page_limit_pos : (l : ℤ) → 0 < page_limit l
page_limit_pos (pos n) = ground arith
page_limit_pos (negsuc n) = omega arith

after_cursor_trans :
    (c : HistoryCursor) (x r : ListedActivity)
    → after_cursor c x ≡ true
    → comes_after x r ≡ true
    → after_cursor c r ≡ true
after_cursor_trans c x r h k = elim (Bool-cases (is_empty c.id)) [
  | inl e ↦ rw e refl
  | inr e ↦ rw e (is_below_trans c.sort c.id x r (rw e at h) k)
]

last_row-nonempty :
    (rows : List ListedActivity) {x : ListedActivity} → last_row rows ≡ some x → 0 < length rows
unfolding last_row
last_row-nonempty [] e = cc
last_row-nonempty (r ∷ rows) e = omega arith

module _ (codec : Codec) where
  -- The rows of this page and of those that follow; `none` for an error.
  unfoldable pub after_page :
      (Text → Option (List ListedActivity))
      → Result ListingError HistoryPage
      → Option (List ListedActivity)
  after_page next (err reason) = none
  after_page next (ok page) =
      if is_empty page.next_cursor
      then some page.items
      else elim (next page.next_cursor) [ none ↦ none | some rows ↦ some (page.items ++ rows) ]

  after_page_more :
      (next : Text → Option (List ListedActivity)) (page : HistoryPage) (rows : List ListedActivity)
      → is_empty page.next_cursor ≡ false
      → next page.next_cursor ≡ some rows
      → after_page next (ok page) ≡ some (page.items ++ rows)
  unfolding after_page
  after_page_more next page rows h k = rw (after_page, h, k) refl

  -- `none` also where more pages follow than the fuel allows for.
  unfoldable pub follow : ℕ → Listing → HistoryQuery → Option (List ListedActivity)
  unfolding after_page list_activities
  follow zero t q = none
  follow (suc n) t q =
      let next = λ (c : Text). follow n t (record q { cursor = c }) in
      after_page next (list_activities codec t q)

  module _ (ok_codec : IsCodec codec) (t : Listing) (h : IsTable t.rows) (q : HistoryQuery) where
    abbrev listed : List ListedActivity
    listed = sort_rows (filter (matches codec.upper (normalized_query codec q)) t.rows)

    abbrev g : Text
    g = generation codec t (normalized_query codec q)

    abbrev f : Text
    f = filter_of codec (normalized_query codec q)

    abbrev limit : ℕ
    limit = page_limit (pos (page_limit q.limit))

    listed-IsOrdered : IsOrdered listed
    listed-IsOrdered =
        sort_rows-IsOrdered _
          (filter-UniqueIds (matches codec.upper (normalized_query codec q)) t.rows h.unique)

    -- The rows of one statement, as the rows listed that are after its cursor.
    selected :
        (c : HistoryCursor)
        → sort_rows (
            filter
              (λ r. matches codec.upper (normalized_query codec q) r && after_cursor c r)
              t.rows)
          ≡ filter (after_cursor c) listed
    selected c =
        ap sort_rows
          (filter-and (matches codec.upper (normalized_query codec q)) (after_cursor c) t.rows)
        ∙ sym (
            filter-sort_rows (after_cursor c)
              (filter (matches codec.upper (normalized_query codec q)) t.rows)
              (filter-UniqueIds (matches codec.upper (normalized_query codec q)) t.rows h.unique))

    limit_pos : 0 < limit
    limit_pos = page_limit_pos (pos (page_limit q.limit))

    -- The cursor that a page ends with is the place of its last row.
    abbrev place_of : ListedActivity → HistoryCursor
    place_of x = record { generation = g; filter = f; sort = x.sort_key; id = x.payload_id }

    read_place :
        (x : ListedActivity) → read_cursor codec g f (codec.encode (place_of x)) ≡ ok (place_of x)
    unfolding read_cursor checked_cursor
    read_place x =
        rw
          (
            ok_codec.nonempty (place_of x),
            ok_codec.decodes (place_of x),
            checked_cursor,
            (text_eq_iff g g).1 refl,
            (text_eq_iff f f).1 refl,
          )
          refl

    cut_short :
        (rows : List ListedActivity)
        → ltb limit (length rows) ≡ false
        → cut_page codec g f limit rows ≡ record { items = rows; next_cursor = [] }
    unfolding cut_page
    cut_short rows e =
        let one : limit + 1 ≡ suc limit = omega arith in
        let all : take (suc limit) rows ≡ rows = take_all (suc limit) rows (ground (arith, e)) in
        rw (cut_page, one, all, e) refl

    cut_long :
        (rows : List ListedActivity) (x : ListedActivity)
        → ltb limit (length rows) ≡ true
        → last_row (take limit rows) ≡ some x
        → cut_page codec g f limit rows
          ≡ record { items = take limit rows; next_cursor = codec.encode (place_of x) }
    unfolding cut_page
    cut_long rows x e k =
        let one : limit + 1 ≡ suc limit = omega arith in
        let cut : ltb limit (length (take (suc limit) rows)) ≡ true = length-take limit rows ∙ e in
        rw (cut_page, one, cut, take-take limit rows, k) refl

    listing_eq :
        (c : HistoryCursor) (k : Text)
        → read_cursor codec g f k ≡ ok c
        → list_activities codec t (record q { cursor = k })
          ≡ ok (cut_page codec g f limit (filter (after_cursor c) listed))
    unfolding list_activities page_after matches
    listing_eq c k e =
        rw (list_activities, e) (ap (λ rows. ok (cut_page codec g f limit rows)) (selected c))

    -- The rows after a page's last row.
    rows_at :
        (c : HistoryCursor) (x : ListedActivity)
        → last_row (take limit (filter (after_cursor c) listed)) ≡ some x
        → filter (after_cursor (place_of x)) listed
          ≡ filter (comes_after x) (filter (after_cursor c) listed)
    rows_at c x last =
        let rows = filter (after_cursor c) listed in
        let all_ids : All (λ r. (is_empty r.id ≡ false) × (r.payload_id ≡ r.id)) rows =
          All-filter _ (after_cursor c) listed (
            All-sort_rows _ _
              (All-filter _ (matches codec.upper (normalized_query codec q)) t.rows h.ids)) in
        let (named, same) =
          last_row-All (λ r. (is_empty r.id ≡ false) × (r.payload_id ≡ r.id)) limit rows last
            all_ids in
        let inside : after_cursor c x ≡ true =
          last_row-All (λ r. after_cursor c r ≡ true) limit rows last
            (All-filtered (after_cursor c) listed) in
        let test : after_cursor (place_of x) ≡ comes_after x =
          ap {B = ListedActivity → Bool} (λ y r. is_empty y || is_below x.sort_key y r) same
          ∙ ap {B = ListedActivity → Bool} (λ b r. b || is_below x.sort_key x.id r) named in
        ap (λ (p : ListedActivity → Bool). filter p listed) test
        ∙ sym (
            filter_filter (after_cursor c) (comes_after x) listed
              (λ r k. after_cursor_trans c x r inside k))

    follow_from :
        (n : ℕ) (c : HistoryCursor) (k : Text)
        → read_cursor codec g f k ≡ ok c
        → length (filter (after_cursor c) listed) < n
        → follow n t (record q { cursor = k }) ≡ some (filter (after_cursor c) listed)
    unfolding follow after_page
    follow_from zero c k e l = absurd (omega arith)
    follow_from (suc n) c k e l =
        elim (Bool-cases (ltb limit (length (filter (after_cursor c) listed)))) [
          | inr short ↦
              let next = λ (y : Text). follow n t (record q { cursor = y }) in
              ap (after_page next)
                (listing_eq c k e ∙ ap ok (cut_short (filter (after_cursor c) listed) short))
          | inl long ↦
              let rows = filter (after_cursor c) listed in
              let (x, last, parts) =
                rows_after limit rows (ltb→lt limit (length rows) long) limit_pos
                  (filter-IsOrdered (after_cursor c) listed listed-IsOrdered) in
              let after : filter (after_cursor (place_of x)) listed ≡ filter (comes_after x) rows =
                rows_at c x last in
              let shorter : length (filter (comes_after x) rows) < n = omega (
                arith,
                ap length parts,
                length-append (take limit rows) (filter (comes_after x) rows),
                last_row-nonempty (take limit rows) last,
              ) in
              let rest : follow n t (record q { cursor = codec.encode (place_of x) })
                  ≡ some (filter (comes_after x) rows) =
                follow_from n (place_of x) (codec.encode (place_of x)) (read_place x)
                  (rw after shorter)
                ∙ ap some after in
              let next = λ (y : Text). follow n t (record q { cursor = y }) in
              ap (after_page next) (listing_eq c k e ∙ ap ok (cut_long rows x long last))
              ∙ after_page_more next
                  (record { items = take limit rows; next_cursor = codec.encode (place_of x) })
                  (filter (comes_after x) rows) (ok_codec.nonempty (place_of x)) rest
              ∙ ap some parts
        ]

    -- A client that starts without a cursor and follows the cursors gets, if the table stays as it is,
    -- every activity that matches its query, each once, in the order of the sort keys and the ids, the
    -- last first; and it ends: more pages than there are activities are never needed. The table has
    -- one row for each id, an activity carries its row's id, and a cursor is read as it was written.
    pub follow_lists_all :
        (n : ℕ)
        → length t.rows < n
        → q.cursor ≡ []
        → (follow n t q ≡ some listed) × IsOrdered listed
    unfolding read_cursor
    follow_lists_all n l e =
        let all_listed : filter (after_cursor first_cursor) listed ≡ listed =
          filter-All (after_cursor first_cursor) listed (All-of _ listed (λ r. refl)) in
        let fits : length (filter (after_cursor first_cursor) listed) < n = omega (
          arith,
          ap length all_listed,
          length-sort_rows (filter (matches codec.upper (normalized_query codec q)) t.rows),
          length-filter (matches codec.upper (normalized_query codec q)) t.rows,
        ) in
        (
          ap (λ x. follow n t (record q { cursor = x })) e
              ∙ follow_from n first_cursor [] refl fits
              ∙ ap some all_listed,
          listed-IsOrdered,
        )
