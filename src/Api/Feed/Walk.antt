-- ===== src/Api/Feed/Walk.antt =====
-- apps/api/src/feed.ts: reading a feed by following its cursors.
use cancel_chain.Common.{
  ℕ, zero, suc, ◌≤◌, ◌≡◌, ◌∙◌, refl, sym, ap, String, true, false, Option, none, some, List, [],
  ◌∷◌, ◌++◌, arith, ltb, ltb→lt, length, take, drop, filter, All, Bool-cases, inl, inr, Result, ok,
  ◌>>=◌, includes,
}
use cancel_chain.Shared.Event.{AllowanceEvent}
use cancel_chain.Api.Feed.{
  StoredEvent, Key, key_of, is_under, current_feed, latest_creation, FeedError, events_from_rows,
  last_of, cursor_key, decoded_cursor, next_cursor_of, truncation, read_feed,
}
use cancel_chain.Api.Feed.Order.{AreDistinct}
use cancel_chain.Api.Feed.Pages.{
  last_of-All, below, filter-below, kept-All, filter-filter, selected, selected-Descending,
  under-last, take-take, ltb-length-take, take_whole, length-drop, Parts, split_rows, filter-same,
}

append_nil : {A : Type 0} (xs : List A) → xs ++ [] ≡ xs
append_nil [] = refl
append_nil (x ∷ xs) = ap (λ r. x ∷ r) (append_nil xs)

module _ (encode_cursor : Key → String) (decode_cursor : String → Option Key)
    (tracked : List String) (table : List StoredEvent) (pda : String) (limit : ℕ) where
  abbrev follow :
      (String → Result FeedError (List AllowanceEvent))
      → Option String
      → Result FeedError (List AllowanceEvent)
  follow go none = ok []
  follow go (some cursor) = go cursor

  -- So many pages at most, from a cursor on.
  unfoldable pub pages : ℕ → Option String → Result FeedError (List AllowanceEvent)
  pages zero cursor = ok []
  pages (suc n) cursor = do
    page ← read_feed encode_cursor decode_cursor tracked table pda cursor limit
    rest ← follow (λ next. pages n (some next)) page.next_cursor
    ok (page.items ++ rest)

module _ (encode_cursor : Key → String) (decode_cursor : String → Option Key)
    (reads_back : (k : Key) → decode_cursor (encode_cursor k) ≡ some k) (tracked : List String)
    (table : List StoredEvent) (distinct : AreDistinct table) (pda : String)
    (known : includes tracked pda ≡ true) (limit : ℕ) where
  none-All : (rows : List StoredEvent) → All (λ r. is_under none r ≡ true) rows
  none-All [] = tt
  none-All (r ∷ rows) = (refl, none-All rows)

  decoded_cursor-back :
      (k : Key) → decoded_cursor encode_cursor decode_cursor (some (encode_cursor k)) ≡ ok (some k)
  decoded_cursor-back k = ap (cursor_key encode_cursor decode_cursor) (reads_back k)

  page_lem :
      (cursor : Option String) (after : Option Key) (items : List AllowanceEvent)
      → decoded_cursor encode_cursor decode_cursor cursor ≡ ok after
      → events_from_rows (take (suc limit) (selected table pda after)) ≡ ok items
      → read_feed encode_cursor decode_cursor tracked table pda cursor (suc limit)
        ≡ ok (record {
          tracked = true;
          items = items;
          next_cursor =
              next_cursor_of encode_cursor decode_cursor
                (suc limit)
                (take (suc (suc limit)) (selected table pda after));
          truncated_at = truncation pda table (latest_creation pda table);
        })
  unfolding read_feed
  page_lem cursor after items decoded read =
      rw (decoded, known, take-take (suc limit) (selected table pda after), read) refl

  -- What the next page's query selects is what this page left out.
  selected-next :
      (after : Option Key) (k : StoredEvent)
      → last_of (take (suc limit) (selected table pda after)) ≡ some k
      → filter (below k) (selected table pda after) ≡ drop (suc limit) (selected table pda after)
      → selected table pda (some (key_of k)) ≡ drop (suc limit) (selected table pda after)
  selected-next after k last rest =
      let here =
        last_of-All (λ o. is_under after o ≡ true) (suc limit) (selected table pda after) k
          (kept-All (is_under after) (current_feed pda table)) last in
      sym (
        filter-filter (is_under after) (below k) (current_feed pda table)
          (λ r. under-last table pda after k r here))
      ∙ rest

  walk_short :
      (n : ℕ) (cursor : Option String) (after : Option Key) (es : List AllowanceEvent)
      → decoded_cursor encode_cursor decode_cursor cursor ≡ ok after
      → events_from_rows (selected table pda after) ≡ ok es
      → ltb (suc limit) (length (selected table pda after)) ≡ false
      → pages encode_cursor decode_cursor tracked table pda (suc limit) (suc n) cursor ≡ ok es
  unfolding pages next_cursor_of
  walk_short n cursor after es decoded read short =
      let rows = selected table pda after in
      rw
        (
          page_lem cursor after es decoded
              (ap events_from_rows (take_whole (suc limit) rows (ground arith)) ∙ read),
          ltb-length-take (suc limit) rows,
          short,
        )
        (ap ok (append_nil es))

  walk_longer :
      (n : ℕ) (cursor : Option String) (after : Option Key) (es : List AllowanceEvent)
      (k : StoredEvent) (parts : Parts (suc limit) (selected table pda after) es)
      → decoded_cursor encode_cursor decode_cursor cursor ≡ ok after
      → ltb (suc limit) (length (selected table pda after)) ≡ true
      → last_of (take (suc limit) (selected table pda after)) ≡ some k
      → pages encode_cursor decode_cursor tracked table pda
          (suc limit)
          n
          (some (encode_cursor (key_of k)))
        ≡ ok parts.back
      → pages encode_cursor decode_cursor tracked table pda (suc limit) (suc n) cursor ≡ ok es
  unfolding pages next_cursor_of
  walk_longer n cursor after es k parts decoded longer last others =
      let rows = selected table pda after in
      rw
        (
          page_lem cursor after parts.front decoded parts.of_front,
          ltb-length-take (suc limit) rows,
          longer,
          take-take (suc limit) rows,
          last,
          others,
        )
        (ap ok parts.joined)

  walk_lem :
      (n : ℕ) (cursor : Option String) (after : Option Key) (es : List AllowanceEvent)
      → decoded_cursor encode_cursor decode_cursor cursor ≡ ok after
      → events_from_rows (selected table pda after) ≡ ok es
      → length (selected table pda after) ≤ n
      → pages encode_cursor decode_cursor tracked table pda (suc limit) (suc n) cursor ≡ ok es
  walk_lem zero cursor after es decoded read enough =
      walk_short zero cursor after es decoded read (ground arith)
  walk_lem (suc n) cursor after es decoded read enough =
      let rows = selected table pda after in
      elim (Bool-cases (ltb (suc limit) (length rows))) [
        | inl longer ↦
            let (k, last, rest) =
              filter-below limit rows (selected-Descending table pda after distinct)
                (ltb→lt (suc limit) (length rows) longer) in
            let parts = split_rows (suc limit) rows es read in
            let next = selected-next after k last rest in
            walk_longer (suc n) cursor after es k parts decoded longer last (
              walk_lem n (some (encode_cursor (key_of k))) (some (key_of k)) parts.back
                (decoded_cursor-back (key_of k)) (ap events_from_rows next ∙ parts.of_back)
                (omega (arith, ap length next, length-drop limit rows, enough)))
        | inr short ↦ walk_short (suc n) cursor after es decoded read short
      ]

  -- Where cursors read back, no two rows share an id, a page holds one event at least and every
  -- row of the feed has the shape of an event, following the cursors of a tracked permission from
  -- the first page on gives its whole feed, newest first, no event lost or repeated between two
  -- pages, within as many pages as it has events and one.
  pub pages-whole :
      (es : List AllowanceEvent)
      → events_from_rows (current_feed pda table) ≡ ok es
      → pages encode_cursor decode_cursor tracked table pda
          (suc limit)
          (suc (length (current_feed pda table)))
          none
        ≡ ok es
  pages-whole es read =
      let all =
        filter-same (is_under none) (current_feed pda table) (none-All (current_feed pda table)) in
      walk_lem (length (current_feed pda table)) none none es refl (ap events_from_rows all ∙ read)
        (omega (arith, ap length all))
