-- ===== src/Api/Tests/Feeding.antt =====
-- A run of the feed over three pages.
use Prim.Native.Char.{code}
use cancel_chain.Common.{
  ℕ, zero, suc, ◌==◌, ◌≡◌, refl, ap, String, none, some, List, [], ◌∷◌, arith, if◌then◌else◌,
  includes, ok, map,
}
use cancel_chain.Shared.Allowance.{EventKind}
use cancel_chain.Shared.Event.{
  AllowanceEvent, event_schema, event_fields_ok, check_event, is_signature,
}
use cancel_chain.Shared.Primitives.{is_address, is_base58}
use cancel_chain.Api.Feed.{
  StoredEvent, Key, current_feed, latest_creation, newest_first, place, is_before, is_current,
  events_from_rows, event_from_row,
}
use cancel_chain.Api.Feed.Order.{AreDistinct}
use cancel_chain.Api.Feed.Walk.{pages, pages-whole}

-- Cursors in strokes: one kind for each part of the key.
repeated : ℕ → String → String → String
repeated zero stroke rest = rest
repeated (suc n) String.[] rest = rest
repeated (suc n) (String.◌∷◌ c s) rest = String.◌∷◌ c (repeated n (String.◌∷◌ c s) rest)

abbrev stroke : ℕ → Key → Key
stroke c key =
    if c == b's'
    then record key { slot = suc key.slot }
    else if c == b'p'
    then record key { position = suc key.position }
    else record key { id = suc key.id }

strokes : String → Key
strokes String.[] = record { slot = 0; position = 0; id = 0 }
strokes (String.◌∷◌ c s) = stroke (code c) (strokes s)

abbrev in_strokes : Key → String
in_strokes key = repeated key.slot "s" (repeated key.position "p" (repeated key.id "i" ""))

strokes-id : (n : ℕ) → strokes (repeated n "i" "") ≡ record { slot = 0; position = 0; id = n }
unfolding strokes repeated
strokes-id zero = refl
strokes-id (suc n) = ap (stroke b'i') (strokes-id n)

strokes-position :
    (n i : ℕ) (rest : String)
    → strokes rest ≡ record { slot = 0; position = 0; id = i }
    → strokes (repeated n "p" rest) ≡ record { slot = 0; position = n; id = i }
unfolding strokes repeated
strokes-position zero i rest h = h
strokes-position (suc n) i rest h = ap (stroke b'p') (strokes-position n i rest h)

strokes-slot :
    (n p i : ℕ) (rest : String)
    → strokes rest ≡ record { slot = 0; position = p; id = i }
    → strokes (repeated n "s" rest) ≡ record { slot = n; position = p; id = i }
unfolding strokes repeated
strokes-slot zero p i rest h = h
strokes-slot (suc n) p i rest h = ap (stroke b's') (strokes-slot n p i rest h)

reads_back : (key : Key) → some (strokes (in_strokes key)) ≡ some key
reads_back key = ap some (
    strokes-slot key.slot key.position key.id (repeated key.position "p" (repeated key.id "i" ""))
      (strokes-position key.position key.id (repeated key.id "i" "") (strokes-id key.id)))

abbrev pda : String
pda = "11111111111111111111111111111112"

abbrev signature : String
signature =
    "5VERv8NMvzbJMEkV8xnrLkEaWRtSz9CosKDYjCJjBRnbJLgp8uirBgmQpjKhoR4tjF3ZpRzrFmBV6UjKdiSZkQUW"

abbrev event_at : ℕ → ℕ → EventKind → StoredEvent
event_at id slot kind = record {
  id = id;
  allowance_pda = pda;
  kind = kind;
  amount = some 5_000_000;
  reason = none;
  signature = signature;
  position = 0;
  slot = slot;
  block_time = 1_790_000_000_000;
  charges_stop_at = none;
}

-- The first one belongs to an earlier permission at the address.
abbrev table : List StoredEvent
table =
    event_at 1 400 EventKind.charged
    ∷ event_at 4 510 EventKind.charged
    ∷ event_at 2 500 EventKind.created
    ∷ event_at 3 520 EventKind.charged
    ∷ []

abbrev whole : List StoredEvent
whole =
    event_at 3 520 EventKind.charged
    ∷ event_at 4 510 EventKind.charged
    ∷ event_at 2 500 EventKind.created
    ∷ []

is_whole : current_feed pda table ≡ whole
unfolding current_feed latest_creation newest_first place is_before is_current
is_whole = refl

-- The row in the contract's shape.
abbrev shown : StoredEvent → AllowanceEvent
shown r = record {
  id = r.id;
  allowance_pda = r.allowance_pda;
  kind = r.kind;
  amount = r.amount;
  reason = r.reason;
  signature = r.signature;
  slot = r.slot;
  block_time = r.block_time;
  charges_stop_at = r.charges_stop_at;
}

reads_whole : events_from_rows whole ≡ ok (map shown whole)
unfolding events_from_rows event_from_row event_schema event_fields_ok check_event is_signature
    is_address is_base58
reads_whole = refl

table-AreDistinct : AreDistinct table
table-AreDistinct = (
  (λ e. omega (arith, e), (λ e. omega (arith, e), (λ e. omega (arith, e), tt))),
  ((λ e. omega (arith, e), (λ e. omega (arith, e), tt)), ((λ e. omega (arith, e), tt), (tt, tt))),
)

pages-whole_example :
    pages in_strokes (λ text. some (strokes text)) (pda ∷ []) table pda 2 4 none
    ≡ ok (map shown whole)
unfolding includes current_feed latest_creation newest_first place is_before is_current
pages-whole_example =
    pages-whole in_strokes (λ text. some (strokes text)) reads_back (pda ∷ []) table
      table-AreDistinct pda refl 1 (map shown whole) reads_whole
