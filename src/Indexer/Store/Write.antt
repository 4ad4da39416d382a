-- ===== src/Indexer/Store/Write.antt =====
-- apps/indexer/src/store.ts: `write`, `refresh` and `backfillReasons`. The network is read before
-- the tables change; `read` is the reader of one permission, and `none` stands for its failure;
-- after that, or where the transaction of the database throws, nothing is written.
use cancel_chain.Common.{
  ℕ, suc, ◌-◌, ◌*◌, ltb, true, String, Bool, not, ◌&&◌, Option, none, some, List, [], ◌∷◌, ◌++◌,
  if◌then◌else◌, filter, length, is_some, is_none, add_to,
}
use cancel_chain.Common.Int.{ℤ, pos, negsuc}
use cancel_chain.Common.Dict.{get, has}
use cancel_chain.Shared.Primitives.{u64_max}
use cancel_chain.Chain.Decode.{max_date}
use cancel_chain.Shared.Allowance.{Allowance, is_rejected}
use cancel_chain.Shared.Reasons.{RejectReason, RejectionFacts, classify_rejection}
use cancel_chain.Chain.Read.Cards.{UnreadableReason}
use cancel_chain.Chain.Read.Wallet.{AllowanceReadOne}
use cancel_chain.Indexer.Decode.Transaction.{DecodedTransaction}
use cancel_chain.Indexer.Store.{
  Database, EventRow, Detail, refused_for, trim_logs, upsert_allowance, mark_closed,
  permissions_under, insert_events, move_cursor,
}
use cancel_chain.Indexer.Store.Rows.{
  Base, reason_of, direct_rows, authority_rows, rejected_pdas, paused_among, touched, updated_plans,
  on_plans, under_closed,
}

pub data ChainState : Type 0 where
  open_at : ℕ → Allowance → ChainState
  closed_at : ℕ → ChainState
  unreadable_for : UnreadableReason → ChainState

-- The order of the tests of `chainStates`.
unfoldable pub chain_state : AllowanceReadOne → ChainState
chain_state r = elim r.unreadable [
  | some u ↦ unreadable_for u.reason
  | none ↦ elim r.allowance [ none ↦ closed_at r.slot | some c ↦ open_at r.slot c.allowance ]
]

abbrev pub consider :
    String
    → Option AllowanceReadOne
    → Option (List (String × ChainState))
    → Option (List (String × ChainState))
consider pda none states = none
consider pda (some r) none = none
consider pda (some r) (some states) = some ((pda, chain_state r) ∷ states)

-- `chainStates`; the addresses are distinct.
unfoldable pub chain_states :
    (String → Option AllowanceReadOne) → List String → Option (List (String × ChainState))
chain_states read [] = some []
chain_states read (pda ∷ pdas) = consider pda (read pda) (chain_states read pdas)

abbrev pub apply_state :
    ℕ → List (String × Allowance) → String → ChainState → List (String × Allowance)
apply_state now rows pda (open_at slot a) = upsert_allowance rows a slot
apply_state now rows pda (closed_at slot) = mark_closed rows pda slot now
apply_state now rows pda (unreadable_for reason) = rows

unfoldable pub apply_states :
    ℕ → List (String × Allowance) → List (String × ChainState) → List (String × Allowance)
apply_states now rows [] = rows
apply_states now rows ((pda, state) ∷ states) =
    apply_states now (apply_state now rows pda state) states

unfoldable pub distinct : List String → List String → List String
distinct seen [] = seen
distinct seen (x ∷ xs) = distinct (add_to seen x) xs

pub record WriteResult : Type 0 where
  pub inserted : ℕ
  pub duplicates : ℕ
  pub untracked : List String

abbrev pub pda_of : EventRow → String
pda_of row = row.allowance_pda

abbrev pub pdas_of : List EventRow → List String
pdas_of [] = []
pdas_of (row ∷ rows) = row.allowance_pda ∷ pdas_of rows

abbrev pub is_tracked : List (String × Allowance) → EventRow → Bool
is_tracked rows row = has row.allowance_pda rows

-- `events_amount_u64`, the check of the table on each row that is inserted.
abbrev pub is_amount : Option ℕ → Bool
is_amount none = true
is_amount (some amount) = not (ltb u64_max amount)

-- The seconds of which `toISOString` writes a date; it throws for the others.
abbrev pub is_date : Option ℤ → Bool
is_date none = true
is_date (some (pos seconds)) = not (ltb max_date (seconds * 1000))
is_date (some (negsuc n)) = not (ltb max_date (suc n * 1000))

abbrev pub is_unknown : List (String × Allowance) → String → Bool
is_unknown rows pda = not (has pda rows)

abbrev pub all_of : (EventRow → Bool) → List EventRow → Bool
all_of p [] = true
all_of p (row ∷ rows) = p row && all_of p rows

module _ (find_subscription_authority : String → String → String) where
  abbrev pub under : Database → String → String → List String
  under db owner authority =
      permissions_under find_subscription_authority owner authority db.allowances

  -- The permissions to read again: named by the events, on an updated plan, under a closed
  -- authority.
  unfoldable pub to_read : Database → DecodedTransaction → List String
  to_read db decoded = distinct [] (
      touched [] decoded.events
      ++ (on_plans (updated_plans decoded.events) db.allowances
          ++ under_closed (under db) decoded.events))

  -- `blockTimeOf` and `trimLogs`
  unfoldable pub base_of : DecodedTransaction → ℕ → Base
  base_of decoded now =
      let (logs, log_count) = trim_logs decoded.failed decoded.logs in
      record {
        signature = decoded.signature;
        slot = decoded.slot;
        block_time = elim decoded.block_time [ none ↦ now | some seconds ↦ seconds * 1000 ];
        logs = record {
          logs = logs;
          log_count = log_count;
          block_time_estimated = is_none decoded.block_time;
        };
      }

  -- `pending`: the rows before it is known which permissions are tracked.
  unfoldable pub pending :
      Database → DecodedTransaction → ℕ → List (String × Allowance) → List EventRow
  pending db decoded now rows =
      let labelled = paused_among rows (rejected_pdas decoded.events) in
      direct_rows (base_of decoded now) labelled decoded.events
      ++ authority_rows (base_of decoded now) (under db) decoded.events

  -- Whether the rows can be made and the table takes those that are inserted.
  unfoldable pub accepts : Database → DecodedTransaction → ℕ → List (String × ChainState) → Bool
  accepts db decoded now states =
      let rows = apply_states now db.allowances states in
      let wanted = pending db decoded now rows in
      all_of (λ row. is_date row.charges_stop_at) wanted
      && all_of (λ row. is_amount row.amount) (filter (is_tracked rows) wanted)

  -- The database transaction of `write`, where nothing in it throws.
  unfoldable pub commit :
      Database → DecodedTransaction → Bool → ℕ → List (String × ChainState) → Database × WriteResult
  commit db decoded program_cursor now states =
      let rows = apply_states now db.allowances states in
      let wanted = pending db decoded now rows in
      let tracked = filter (is_tracked rows) wanted in
      let (stored, inserted) = insert_events db.events tracked in
      (
        record {
          allowances = rows;
          events = stored;
          cursor =
              if program_cursor
              then move_cursor db.cursor decoded.signature decoded.slot
              else db.cursor;
          heartbeats = db.heartbeats;
        },
        record {
          inserted = inserted;
          duplicates = length tracked - inserted;
          untracked = filter (is_unknown rows) (distinct [] (pdas_of wanted));
        },
      )

  unfoldable pub write :
      (String → Option AllowanceReadOne)
      → Database
      → DecodedTransaction
      → Bool
      → ℕ
      → Option (Database × WriteResult)
  write read db decoded program_cursor now = elim (chain_states read (to_read db decoded)) [
    | none ↦ none
    | some states ↦
        if accepts db decoded now states
        then some (commit db decoded program_cursor now states)
        else none
  ]

-- `refresh`: the database, and the permissions that are open.
abbrev pub open_pdas : List (String × ChainState) → List String
open_pdas [] = []
open_pdas ((pda, open_at slot a) ∷ states) = pda ∷ open_pdas states
open_pdas ((pda, closed_at slot) ∷ states) = open_pdas states
open_pdas ((pda, unreadable_for reason) ∷ states) = open_pdas states

unfoldable pub refresh :
    (String → Option AllowanceReadOne)
    → Database
    → List String
    → ℕ
    → Option (Database × List String)
refresh read db pdas now = elim (chain_states read (distinct [] pdas)) [
  | none ↦ none
  | some states ↦
      some (record db { allowances = apply_states now db.allowances states }, open_pdas states)
]

-- The facts of a stored refusal.
abbrev pub stored_facts : Detail → Option RejectionFacts
stored_facts (refused_for facts) = some facts
stored_facts _ = none

abbrev pub classified : Bool → Option RejectionFacts → Option RejectReason
classified is_paused none = none
classified is_paused (some facts) = reason_of (classify_rejection facts is_paused)

-- One row of `backfillReasons`: a refusal without a reason whose permission is stored.
unfoldable pub backfill_row : List (String × Allowance) → EventRow → EventRow
backfill_row allowances row = elim (get row.allowance_pda allowances) [
  | none ↦ row
  | some a ↦
      if is_rejected row.kind && is_none row.reason
      then record row { reason = classified (is_some a.paused_at) (stored_facts row.detail) }
      else row
]

unfoldable pub backfill_rows : List (String × Allowance) → List EventRow → List EventRow
backfill_rows allowances [] = []
backfill_rows allowances (row ∷ rows) = backfill_row allowances row ∷ backfill_rows allowances rows

unfoldable pub backfill_reasons : Database → Database
backfill_reasons db = record db { events = backfill_rows db.allowances db.events }
