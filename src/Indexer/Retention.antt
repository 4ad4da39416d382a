-- ===== src/Indexer/Retention.antt =====
-- apps/indexer/src/retention.ts: the daily removal of old events and deliveries, and the record of
-- how far back the feed goes. Moments are milliseconds.
pub mod Kept
use cancel_chain.Common.{
  ℕ, zero, suc, ◌+◌, ◌*◌, String, Bool, true, false, not, ◌||◌, Option, none, some, List, [], ◌∷◌,
  ltb, leb, if◌then◌else◌, length, filter, Result, ok, throw, throw_if, ◌>>=◌, ◌>>◌,
}
use cancel_chain.Common.Int.{ℤ, pos, ◌-ℤ◌, ltb_ℤ}
use cancel_chain.Chain.Decode.{max_date}
use cancel_chain.Indexer.Store.{EventRow}

pub data PushKind : Type 0 where
  upcoming rejected : PushKind

-- `ref` as text: the id of a refusal's event, or a permission with the start of its period.
pub data Occasion : Type 0 where
  event_ref : ℕ → Occasion
  period_ref : String → ℕ → Occasion

-- `push_deliveries`; `occasion` is its `ref`.
pub record Claim : Type 0 where
  pub subscription_id : ℕ
  pub kind : PushKind
  pub occasion : Occasion

pub record SentClaim : Type 0 where
  pub claim : Claim
  pub sent_at : ℕ

-- `events_retention`
pub record RetentionRow : Type 0 where
  pub days : Option ℕ
  pub kept_since : Option ℤ
  pub ran_at : ℕ

pub record RetentionTables : Type 0 where
  pub events : List EventRow
  pub deliveries : List SentClaim
  pub retention : Option RetentionRow

pub record RetentionResult : Type 0 where
  pub kept_since : Option ℤ
  pub deleted_events : ℕ
  pub deleted_deliveries : ℕ

pub data RetentionError : Type 0 where
  too_short bad_date out_of_fuel : RetentionError

-- `MIN_FEED_RETENTION_DAYS`
abbrev pub min_retention_days : ℕ
min_retention_days = 90

abbrev pub day_ms : ℕ
day_ms = 86_400_000

abbrev pub is_old : ℤ → EventRow → Bool
is_old kept_since row = ltb_ℤ (pos row.block_time) kept_since

-- One old row more was deleted, or a row that is not old stays.
abbrev pub count_row : List EventRow × ℕ → List EventRow × ℕ
count_row d = (d.0, suc (d.1))

abbrev pub keep_row : EventRow → List EventRow × ℕ → List EventRow × ℕ
keep_row row d = (row ∷ d.0, d.1)

-- One `delete` of at most `batch` old rows, and how many there were. The database may take any of
-- them; these are the first.
unfoldable pub delete_batch : ℤ → ℕ → List EventRow → List EventRow × ℕ
delete_batch kept_since zero rows = (rows, 0)
delete_batch kept_since (suc n) [] = ([], 0)
delete_batch kept_since (suc n) (row ∷ rows) = elim (is_old kept_since row) [
  | true ↦ count_row (delete_batch kept_since n rows)
  | false ↦ keep_row row (delete_batch kept_since (suc n) rows)
]

-- The loop, with the number of turns left.
unfoldable pub delete_old :
    ℕ → ℤ → ℕ → List EventRow → ℕ → Result RetentionError (List EventRow × ℕ)
delete_old zero kept_since batch rows total = throw out_of_fuel
delete_old (suc fuel) kept_since batch rows total =
    let (rest, deleted) = delete_batch kept_since batch rows in
    elim (ltb deleted batch) [
      | true ↦ ok (rest, total + deleted)
      | false ↦ delete_old fuel kept_since batch rest (total + deleted)
    ]

-- `record`: a later run's row stays.
unfoldable pub record_run : Option RetentionRow → RetentionRow → Option RetentionRow
record_run none row = some row
record_run (some stored) row = if leb stored.ran_at row.ran_at then some row else some stored

abbrev pub is_recent : ℤ → SentClaim → Bool
is_recent kept_since d = not (ltb_ℤ (pos d.sent_at) kept_since)

-- `new Date(…).toISOString()` of a moment before now.
abbrev pub kept_since_of : ℕ → ℕ → Result RetentionError ℤ
kept_since_of now days =
    if ltb (now + max_date) (days * day_ms)
    then throw bad_date
    else ok (pos now -ℤ pos (days * day_ms))

abbrev pub finished :
    RetentionTables → ℕ → ℕ → ℤ → List EventRow × ℕ → RetentionTables × RetentionResult
finished db days now kept_since (rows, deleted) = (
  record {
    events = rows;
    deliveries = filter (is_recent kept_since) db.deliveries;
    retention =
        record_run db.retention
          (record { days = some days; kept_since = some kept_since; ran_at = now });
  },
  record {
    kept_since = some kept_since;
    deleted_events = deleted;
    deleted_deliveries = length (filter (λ d. not (is_recent kept_since d)) db.deliveries);
  },
)

unfoldable pub run_for_days :
    RetentionTables → ℕ → ℕ → ℕ → Result RetentionError (RetentionTables × RetentionResult)
run_for_days db days now batch = do
  throw_if (ltb days min_retention_days) too_short
  kept_since ← kept_since_of now days
  deleted ← delete_old (suc (length db.events)) kept_since batch db.events 0
  ok (finished db days now kept_since deleted)

-- Every turn of the loop that is not the last deletes a row, so the rows are fuel enough.
unfoldable pub run_retention :
    RetentionTables → Option ℕ → ℕ → ℕ → Result RetentionError (RetentionTables × RetentionResult)
run_retention db none now batch = ok (
  record db {
    retention = record_run db.retention (record { days = none; kept_since = none; ran_at = now });
  },
  record { kept_since = none; deleted_events = 0; deleted_deliveries = 0 },
)
run_retention db (some days) now batch = run_for_days db days now batch
