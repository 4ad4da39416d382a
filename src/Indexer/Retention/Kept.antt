-- ===== src/Indexer/Retention/Kept.antt =====
-- apps/indexer/src/retention.ts: what a run removes, and that it ends.
use cancel_chain.Common.{
  ℕ, zero, suc, ◌+◌, ◌-◌, ◌*◌, ◌≡◌, ◌<◌, ◌≤◌, refl, inl, inr, not, some, List, [], ◌∷◌, arith, ltb,
  Bool-cases, length, filter, ok,
}
use cancel_chain.Common.Int.{ℤ, pos, ltb_ℤ, ◌-ℤ◌}
use cancel_chain.Indexer.Store.{EventRow}
use cancel_chain.Indexer.Retention.{
  RetentionTables, RetentionResult, is_old, delete_batch, delete_old, run_retention, run_for_days,
  kept_since_of, finished, day_ms, min_retention_days,
}

module _ (kept_since : ℤ) where
  abbrev kept : List EventRow → List EventRow
  kept = filter (λ row. not (is_old kept_since row))

  -- A batch removes old rows only, as many as it says, and stops short only when none is left.
  delete_batch_kept :
      (batch : ℕ) (rows : List EventRow) → kept ((delete_batch kept_since batch rows).0) ≡ kept rows
  unfolding delete_batch
  delete_batch_kept zero rows = refl
  delete_batch_kept (suc n) [] = refl
  delete_batch_kept (suc n) (row ∷ rows) =
      ground (arith, delete_batch_kept n rows, delete_batch_kept (suc n) rows)

  delete_batch_count :
      (batch : ℕ) (rows : List EventRow)
      → let out = delete_batch kept_since batch rows in length rows ≡ length (out.0) + out.1
  unfolding delete_batch
  delete_batch_count zero rows = omega arith
  delete_batch_count (suc n) [] = omega arith
  delete_batch_count (suc n) (row ∷ rows) =
      ground (arith, delete_batch_count n rows, delete_batch_count (suc n) rows)

  delete_batch_short :
      (batch : ℕ) (rows : List EventRow)
      → let out = delete_batch kept_since batch rows in out.1 < batch → kept rows ≡ out.0
  unfolding delete_batch
  delete_batch_short zero rows h = absurd (omega (arith, h))
  delete_batch_short (suc n) [] h = refl
  delete_batch_short (suc n) (row ∷ rows) h =
      ground (arith, delete_batch_short n rows, delete_batch_short (suc n) rows)

  -- The rows that stay, and how many went.
  abbrev Ends : ℕ → ℕ → List EventRow → ℕ → Type 0
  Ends fuel batch rows total =
      (n : ℕ) × (delete_old fuel kept_since batch rows total ≡ ok (kept rows, n))
      × (n + length (kept rows) ≡ total + length rows)

  delete_old_total :
      (fuel batch : ℕ) (rows : List EventRow) (total : ℕ)
      → 0 < batch
      → length rows < fuel
      → Ends fuel batch rows total
  unfolding delete_old
  delete_old_total zero batch rows total positive h = absurd (omega (arith, h))
  delete_old_total (suc fuel) batch rows total positive h =
      let out = delete_batch kept_since batch rows in
      let count = delete_batch_count batch rows in
      elim (Bool-cases (ltb (out.1) batch)) [
        | inl short ↦
            let all = delete_batch_short batch rows (ground arith) in
            (total + out.1, ground arith, ground (arith, all, count))
        | inr full ↦
            let (n, ends, sum) =
              delete_old_total fuel batch (out.0) (total + out.1) positive
                (ground (arith, count)) in
            let same = delete_batch_kept batch rows in
            (n, ground (arith, ends, same), ground (arith, sum, same, count))
      ]

since_of :
    (now days : ℕ) → days * day_ms ≤ now → kept_since_of now days ≡ ok (pos (now - days * day_ms))
unfolding ◌-ℤ◌
since_of now days past = ground arith

-- A run with a period of at least the promised ninety days, a positive batch and a date after 1970
-- ends, and leaves in the feed exactly the events that are not older than the moment it reports, in
-- their order: nothing that is promised to be kept is removed, and nothing older stays. It counts
-- the events it removed.
pub run_retention_kept :
    (db : RetentionTables) (days now batch : ℕ)
    → min_retention_days ≤ days
    → days * day_ms ≤ now
    → 0 < batch
    → (after : RetentionTables) × (result : RetentionResult) × (run_retention db
          (some days)
          now
          batch
        ≡ ok (after, result))
      × (result.kept_since ≡ some (pos (now - days * day_ms)))
      × (after.events
          ≡ filter (λ row. not (ltb_ℤ (pos row.block_time) (pos (now - days * day_ms)))) db.events)
      × (after.deliveries
          ≡ filter (λ d. not (ltb_ℤ (pos d.sent_at) (pos (now - days * day_ms)))) db.deliveries)
      × (result.deleted_events + length after.events ≡ length db.events)
unfolding run_retention run_for_days
run_retention_kept db days now batch long past positive =
    let since = pos (now - days * day_ms) in
    let (n, ends, sum) =
      delete_old_total since (suc (length db.events)) batch db.events 0 positive (omega arith) in
    let at : kept_since_of now days ≡ ok since = since_of now days past in
    let (after, result) = finished db days now since (kept since db.events, n) in
    (after, result, ground (arith, at, ends), refl, refl, refl, omega (arith, sum))
