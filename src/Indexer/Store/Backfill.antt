-- ===== src/Indexer/Store/Backfill.antt =====
-- apps/indexer/src/store.ts: the tables around `backfillReasons`.
use cancel_chain.Common.{◌≡◌, refl, String, true, List, [], ◌∷◌, arith, any, All}
use cancel_chain.Common.Dict.{has}
use cancel_chain.Shared.Allowance.{Allowance}
use cancel_chain.Indexer.Store.{Database, EventRow, same_key}
use cancel_chain.Indexer.Store.Write.{backfill_row, backfill_rows, backfill_reasons}
use cancel_chain.Indexer.Store.Lawful.{IsLawful, backfill_row-IsLawful}
use cancel_chain.Indexer.Store.Invariant.{AreUnique, IsSound}

module _ (allowances : List (String × Allowance)) where
  same_key-backfill_row :
      (a b : EventRow)
      → same_key (backfill_row allowances a) (backfill_row allowances b) ≡ same_key a b
  unfolding backfill_row
  same_key-backfill_row a b = ground arith

  any-backfill_rows :
      (a : EventRow) (rows : List EventRow)
      → any (same_key (backfill_row allowances a)) (backfill_rows allowances rows)
        ≡ any (same_key a) rows
  unfolding backfill_rows
  any-backfill_rows a [] = refl
  any-backfill_rows a (row ∷ rows) = cc (same_key-backfill_row a row, any-backfill_rows a rows)

  backfill_rows-AreUnique :
      (rows : List EventRow) → AreUnique rows → AreUnique (backfill_rows allowances rows)
  unfolding backfill_rows
  backfill_rows-AreUnique [] h = tt
  backfill_rows-AreUnique (row ∷ rows) (new, h) =
      (cc (any-backfill_rows row rows, new), backfill_rows-AreUnique rows h)

  backfill_rows-All :
      (P : EventRow → Type 0) (rows : List EventRow)
      → ((row : EventRow) → P row → P (backfill_row allowances row))
      → All P rows
      → All P (backfill_rows allowances rows)
  unfolding backfill_rows
  backfill_rows-All P [] kept h = tt
  backfill_rows-All P (row ∷ rows) kept (h, hs) = (kept row h, backfill_rows-All P rows kept hs)

  backfill_row-tracked :
      (row : EventRow)
      → has row.allowance_pda allowances ≡ true
      → has (backfill_row allowances row).allowance_pda allowances ≡ true
  unfolding backfill_row
  backfill_row-tracked row h = ground arith

-- Filling in reasons later leaves sound tables sound: no row changes its key or its permission, and
-- only refusals get a reason.
pub backfill_reasons-IsSound : (db : Database) → IsSound db → IsSound (backfill_reasons db)
unfolding backfill_reasons
backfill_reasons-IsSound db h = record {
  tracked =
      backfill_rows-All db.allowances (λ r. has r.allowance_pda db.allowances ≡ true) db.events
        (backfill_row-tracked db.allowances) h.tracked;
  unique = backfill_rows-AreUnique db.allowances db.events h.unique;
  lawful =
      backfill_rows-All db.allowances IsLawful db.events (backfill_row-IsLawful db.allowances)
        h.lawful;
}
