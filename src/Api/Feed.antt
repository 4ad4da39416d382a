-- ===== src/Api/Feed.antt =====
-- apps/api/src/feed.ts: the feed of one permission, page by page. A cursor's text is JSON in base64:
-- its two conversions are parameters. A query's answer is the table in the query's order, without
-- the rows that do not fulfil its conditions.
pub mod Order
pub mod Pages
pub mod Walk
use cancel_chain.Common.{
  ℕ, zero, suc, ◌+◌, String, Bool, true, false, ◌&&◌, ◌||◌, Option, none, some, List, [], ◌∷◌, ◌++◌,
  ltb, leb, ◌==◌, str_eq, if◌then◌else◌, length, take, filter, Result, ok, throw, ◌>>=◌, includes,
}
use cancel_chain.Shared.Allowance.{EventKind, SchemaError}
use cancel_chain.Shared.Reasons.{RejectReason}
use cancel_chain.Shared.Event.{AllowanceEvent, event_schema}

-- A row of `events`, without the raw logs.
pub record StoredEvent : Type 0 where
  pub id : ℕ
  pub allowance_pda : String
  pub kind : EventKind
  pub amount : Option ℕ
  pub reason : Option RejectReason
  pub signature : String
  pub position : ℕ
  pub slot : ℕ
  pub block_time : ℕ
  pub charges_stop_at : Option ℕ

pub record Key : Type 0 where
  pub slot : ℕ
  pub position : ℕ
  pub id : ℕ

abbrev pub key_of : StoredEvent → Key
key_of r = record { slot = r.slot; position = r.position; id = r.id }

-- `(slot, position, id) < (slot, position, id)`
unfoldable pub is_before : Key → Key → Bool
is_before a b =
    ltb a.slot b.slot
    || (a.slot == b.slot
        && (ltb a.position b.position || (a.position == b.position && ltb a.id b.id)))

-- `order by slot desc, position desc, id desc`
unfoldable pub place : StoredEvent → List StoredEvent → List StoredEvent
place r [] = r ∷ []
place r (other ∷ rest) =
    let below = place r rest in
    if is_before (key_of r) (key_of other) then other ∷ below else r ∷ other ∷ rest

unfoldable pub newest_first : List StoredEvent → List StoredEvent
newest_first [] = []
newest_first (r ∷ rest) = place r (newest_first rest)

abbrev pub is_created : EventKind → Bool
is_created EventKind.created = true
is_created _ = false

abbrev pub is_creation : String → StoredEvent → Bool
is_creation pda r = str_eq r.allowance_pda pda && is_created r.kind

abbrev pub first {ℓ} : {A : Type ℓ} → List A → Option A
first [] = none
first (x ∷ xs) = some x

-- `creation`: the slot and the position of the latest one.
unfoldable pub latest_creation : String → List StoredEvent → Option StoredEvent
latest_creation pda table = first (filter (is_creation pda) (newest_first table))

-- `(slot, position) >= (slot, position)`
abbrev pub is_since : Option StoredEvent → StoredEvent → Bool
is_since none r = true
is_since (some c) r = ltb c.slot r.slot || (c.slot == r.slot && leb c.position r.position)

-- `cursor === undefined` or below it.
abbrev pub is_under : Option Key → StoredEvent → Bool
is_under none r = true
is_under (some after) r = is_before (key_of r) after

unfoldable pub is_current : String → Option StoredEvent → StoredEvent → Bool
is_current pda creation r = str_eq r.allowance_pda pda && is_since creation r

-- The events of the permission that is at the address now.
unfoldable pub current_feed : String → List StoredEvent → List StoredEvent
current_feed pda table = filter (is_current pda (latest_creation pda table)) (newest_first table)

unfoldable pub event_from_row : StoredEvent → Result SchemaError AllowanceEvent
event_from_row r = event_schema (record {
  id = r.id;
  allowance_pda = r.allowance_pda;
  kind = r.kind;
  amount = r.amount;
  reason = r.reason;
  signature = r.signature;
  slot = r.slot;
  block_time = r.block_time;
  charges_stop_at = r.charges_stop_at;
})

pub data FeedError : Type 0 where
  invalid_cursor : FeedError
  bad_row : SchemaError → FeedError

abbrev pub as_row : Result SchemaError AllowanceEvent → Result FeedError AllowanceEvent
as_row (ok e) = ok e
as_row (throw e) = throw (bad_row e)

unfoldable pub events_from_rows : List StoredEvent → Result FeedError (List AllowanceEvent)
events_from_rows [] = ok []
events_from_rows (r ∷ rest) = do
  e ← as_row (event_from_row r)
  es ← events_from_rows rest
  ok (e ∷ es)

pub record FeedPage : Type 0 where
  pub tracked : Bool
  pub items : List AllowanceEvent
  pub next_cursor : Option String
  pub truncated_at : Option ℕ

-- `shown.at(-1)`
unfoldable pub last_of : List StoredEvent → Option StoredEvent
last_of [] = none
last_of (r ∷ []) = some r
last_of (r ∷ other ∷ rest) = last_of (other ∷ rest)

-- `min(blockTime)`
unfoldable pub oldest_time : String → List StoredEvent → Option ℕ
oldest_time pda [] = none
oldest_time pda (r ∷ rest) = elim (oldest_time pda rest) [
  | none ↦ if str_eq r.allowance_pda pda then some r.block_time else none
  | some at ↦ some (if str_eq r.allowance_pda pda && ltb r.block_time at then r.block_time else at)
]

abbrev pub truncation : String → List StoredEvent → Option StoredEvent → Option ℕ
truncation pda table none = oldest_time pda table
truncation pda table (some c) = none

module _ (encode_cursor : Key → String) (decode_cursor : String → Option Key) where
  abbrev pub cursor_key : Option Key → Result FeedError (Option Key)
  cursor_key none = throw invalid_cursor
  cursor_key (some key) = ok (some key)

  abbrev pub decoded_cursor : Option String → Result FeedError (Option Key)
  decoded_cursor none = ok none
  decoded_cursor (some text) = cursor_key (decode_cursor text)

  abbrev pub cursor_at : Option StoredEvent → Option String
  cursor_at none = none
  cursor_at (some last) = some (encode_cursor (key_of last))

  unfoldable pub next_cursor_of : ℕ → List StoredEvent → Option String
  next_cursor_of limit rows =
      if ltb limit (length rows) then cursor_at (last_of (take limit rows)) else none

  -- `readFeed`: the addresses that are tracked, the table, the address, the cursor and the limit.
  unfoldable pub read_feed :
      List String → List StoredEvent → String → Option String → ℕ → Result FeedError FeedPage
  read_feed tracked table pda cursor limit = do
    after ← decoded_cursor cursor
    let rows = take (suc limit) (filter (is_under after) (current_feed pda table))
    let here = includes tracked pda
    items ← events_from_rows (if here then take limit rows else [])
    ok (record {
      tracked = here;
      items = items;
      next_cursor = if here then next_cursor_of limit rows else none;
      truncated_at = if here then truncation pda table (latest_creation pda table) else none;
    })
