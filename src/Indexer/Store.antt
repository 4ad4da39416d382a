-- ===== src/Indexer/Store.antt =====
-- apps/indexer/src/store.ts: the cache of permissions, the feed and the cursor, and how one decoded
-- transaction changes them. A table is a list; a permission's row has the shape of `Allowance`.
pub mod Rows
pub mod Write
pub mod Lawful
pub mod Invariant
pub mod Backfill
pub mod Progress
use cancel_chain.Common.{
  ℕ, suc, ◌+◌, ◌-◌, ◌*◌, String, Bool, true, false, not, ◌&&◌, ◌||◌, Option, none, some, List, [],
  ◌∷◌, ◌++◌, ltb, leb, ◌==◌, str_eq, if◌then◌else◌, is_some, is_none, length, take, drop, any,
  includes,
}
use cancel_chain.Common.Int.{ℤ}
use cancel_chain.Common.Dict.{get, set, has}
use cancel_chain.Shared.Allowance.{
  Allowance, AllowanceStatus, active, paused, revoked, AllowanceKind, is_active, is_revoked,
  EventKind,
}
use cancel_chain.Shared.Reasons.{RejectReason, RejectionFacts}

-- What the row's columns do not hold.
pub data Detail : Type 0 where
  created_as : AllowanceKind → Detail
  received_by : String → Detail
  refused_for : RejectionFacts → Detail
  authority_closed_by : String → Detail
  no_detail : Detail

pub record RawLogs : Type 0 where
  pub logs : List String
  pub log_count : ℕ
  pub block_time_estimated : Bool

-- `events`; moments are milliseconds, `charges_stop_at` is in seconds.
pub record EventRow : Type 0 where
  pub signature : String
  pub slot : ℕ
  pub block_time : ℕ
  pub allowance_pda : String
  pub position : ℕ
  pub kind : EventKind
  pub amount : Option ℕ
  pub reason : Option RejectReason
  pub charges_stop_at : Option ℤ
  pub raw : RawLogs
  pub detail : Detail

pub record Cursor : Type 0 where
  pub last_signature : String
  pub last_slot : ℕ

pub record Database : Type 0 where
  pub allowances : List (String × Allowance)
  pub events : List EventRow
  pub cursor : Option Cursor
  pub heartbeats : List (String × ℕ)

-- `RAW_LOG_LINES`
abbrev pub raw_log_lines_success : ℕ
raw_log_lines_success = 20

abbrev pub raw_log_lines_refusal : ℕ
raw_log_lines_refusal = 200

-- `trimLogs`: the head of a success, the tail of a refusal.
unfoldable pub trim_logs : Bool → List String → List String × ℕ
trim_logs failed all =
    if failed
    then (drop (length all - raw_log_lines_refusal) all, length all)
    else (take raw_log_lines_success all, length all)

-- The row that a read permission is inserted as.
abbrev pub new_row : Allowance → ℕ → Allowance
new_row a slot = record a { paused_at = none; last_slot = slot }

abbrev pub status_on_conflict : Option ℕ → AllowanceStatus → AllowanceStatus
status_on_conflict paused_at status =
    if is_some paused_at && is_active status then paused else status

abbrev pub pause_on_conflict : Option ℕ → AllowanceStatus → Option ℕ
pause_on_conflict paused_at status = if is_active status then paused_at else none

-- `onConflictDoUpdate`: the network's fields, and our pause as long as the network says "active".
abbrev pub merged : Allowance → Allowance → Allowance
merged stored excluded = record excluded {
  status = status_on_conflict stored.paused_at excluded.status;
  paused_at = pause_on_conflict stored.paused_at excluded.status;
}

unfoldable pub upsert_row : Option Allowance → Allowance → Allowance
upsert_row none row = row
upsert_row (some stored) row =
    if leb stored.last_slot row.last_slot then merged stored row else stored

unfoldable pub upsert_allowance :
    List (String × Allowance) → Allowance → ℕ → List (String × Allowance)
upsert_allowance rows a slot = set a.pda (upsert_row (get a.pda rows) (new_row a slot)) rows

abbrev pub closed_row : Allowance → ℕ → ℕ → Allowance
closed_row stored slot at =
    if leb stored.last_slot slot
    then record stored { status = revoked; paused_at = none; last_slot = slot; synced_at = at }
    else stored

abbrev pub close_stored :
    List (String × Allowance) → String → ℕ → ℕ → Option Allowance → List (String × Allowance)
close_stored rows pda slot at none = rows
close_stored rows pda slot at (some stored) = set pda (closed_row stored slot at) rows

unfoldable pub mark_closed : List (String × Allowance) → String → ℕ → ℕ → List (String × Allowance)
mark_closed rows pda slot at = close_stored rows pda slot at (get pda rows)

-- The memory of `byMint`: whether a mint's authority is the one that was closed.
module _ (find_subscription_authority : String → String → String) (owner authority : String) where
  abbrev pub derives : String → Bool
  derives mint = str_eq (find_subscription_authority owner mint) authority

  unfoldable pub matching_under : List (String × Bool) → List (String × Allowance) → List String
  matching_under by_mint [] = []
  matching_under by_mint ((pda, row) ∷ rows) =
      if not (str_eq row.owner owner && not (is_revoked row.status))
      then matching_under by_mint rows
      else elim (get row.mint by_mint) [
        | some true ↦ pda ∷ matching_under by_mint rows
        | some false ↦ matching_under by_mint rows
        | none ↦
            if derives row.mint
            then pda ∷ matching_under (set row.mint true by_mint) rows
            else matching_under (set row.mint false by_mint) rows
      ]

  unfoldable pub permissions_under : List (String × Allowance) → List String
  permissions_under rows = matching_under [] rows

abbrev pub same_key : EventRow → EventRow → Bool
same_key a b =
    str_eq a.signature b.signature
    && a.position == b.position
    && str_eq a.allowance_pda b.allowance_pda

-- `onConflictDoNothing` for one row: the table, and how many rows it grew by.
unfoldable pub insert_event : List EventRow → EventRow → List EventRow × ℕ
insert_event stored row =
    if any (same_key row) stored then (stored, 0) else (stored ++ (row ∷ []), 1)

unfoldable pub insert_events : List EventRow → List EventRow → List EventRow × ℕ
insert_events stored [] = (stored, 0)
insert_events stored (row ∷ rows) =
    let (grown, here) = insert_event stored row in
    let (all, later) = insert_events grown rows in (all, here + later)

unfoldable pub move_cursor : Option Cursor → String → ℕ → Option Cursor
move_cursor none signature slot = some (record { last_signature = signature; last_slot = slot })
move_cursor (some c) signature slot =
    if leb c.last_slot slot
    then some (record { last_signature = signature; last_slot = slot })
    else some c

-- `heartbeat`
unfoldable pub heartbeat : Database → String → ℕ → Database
heartbeat db name at = record db { heartbeats = set name at db.heartbeats }
