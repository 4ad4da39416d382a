-- ===== src/Indexer/Store/Lawful.antt =====
-- packages/db/src/schema.ts and apps/indexer/src/store.ts: what the table of the feed demands of a
-- row, and the rows that the writer makes.
use cancel_chain.Common.{
  ℕ, ◌≡◌, refl, String, Bool, true, not, ◌&&◌, ◌||◌, is_none, is_some, if◌then◌else◌, List, [], ◌∷◌,
  arith, filter, All, All-append, Bool-cases, inl, inr,
}
use cancel_chain.Shared.Allowance.{Allowance, is_rejected, is_cancelled, is_charged}
use cancel_chain.Indexer.Decode.Bodies.{
  Body, created, charged, rejected, cancelled, resumed, revoked, plan_updated, authority_closed,
}
use cancel_chain.Indexer.Decode.Transaction.{IndexedEvent, DecodedTransaction}
use cancel_chain.Indexer.Store.{EventRow, Database}
use cancel_chain.Indexer.Store.Rows.{
  Base, rows_for, direct_rows, closed_rows, authority_row, authority_rows, paused_among,
  rejected_pdas,
}
use cancel_chain.Indexer.Store.Write.{is_amount, all_of, base_of, under, pending, backfill_row}

-- A reason only of a refusal, an amount of every charge, and a stop date of cancellations and of
-- nothing else.
abbrev pub is_shaped : EventRow → Bool
is_shaped r =
    (is_none r.reason || is_rejected r.kind)
    && (not (is_charged r.kind) || is_some r.amount)
    && (if is_cancelled r.kind then is_some r.charges_stop_at else is_none r.charges_stop_at)

-- The checks of the table: that shape, and an amount of 64 bits.
abbrev pub is_lawful : EventRow → Bool
is_lawful r = is_shaped r && is_amount r.amount

abbrev pub IsLawful : EventRow → Type 0
IsLawful r = is_lawful r ≡ true

abbrev pub IsShaped : EventRow → Type 0
IsShaped r = is_shaped r ≡ true

rows_for-AreShaped :
    (base : Base) (labelled : List String) (position : ℕ) (body : Body)
    → All IsShaped (rows_for base labelled position body)
unfolding rows_for
rows_for-AreShaped base labelled position (created allowance kind owner) = (refl, tt)
rows_for-AreShaped base labelled position (charged allowance kind amount receiver) = (refl, tt)
rows_for-AreShaped base labelled position (rejected allowance kind attempted why) =
    (ground arith, tt)
rows_for-AreShaped base labelled position (cancelled allowance stop) = (refl, tt)
rows_for-AreShaped base labelled position (resumed allowance) = (refl, tt)
rows_for-AreShaped base labelled position (revoked allowance) = (refl, tt)
rows_for-AreShaped base labelled position (plan_updated plan status end pullers) = tt
rows_for-AreShaped base labelled position (authority_closed owner authority) = tt

direct_rows-AreShaped :
    (base : Base) (labelled : List String) (es : List IndexedEvent)
    → All IsShaped (direct_rows base labelled es)
unfolding direct_rows
direct_rows-AreShaped base labelled [] = tt
direct_rows-AreShaped base labelled (e ∷ es) =
    All-append IsShaped (rows_for base labelled e.position e.body) (direct_rows base labelled es)
      (rows_for-AreShaped base labelled e.position e.body) (direct_rows-AreShaped base labelled es)

closed_rows-AreShaped :
    (base : Base) (position : ℕ) (authority : String) (pdas : List String)
    → All IsShaped (closed_rows base position authority pdas)
unfolding closed_rows
closed_rows-AreShaped base position authority [] = tt
closed_rows-AreShaped base position authority (pda ∷ pdas) =
    (refl, closed_rows-AreShaped base position authority pdas)

authority_row-AreShaped :
    (base : Base) (under : String → String → List String) (position : ℕ) (body : Body)
    → All IsShaped (authority_row base under position body)
authority_row-AreShaped base under position (created allowance kind owner) = tt
authority_row-AreShaped base under position (charged allowance kind amount receiver) = tt
authority_row-AreShaped base under position (rejected allowance kind attempted why) = tt
authority_row-AreShaped base under position (cancelled allowance stop) = tt
authority_row-AreShaped base under position (resumed allowance) = tt
authority_row-AreShaped base under position (revoked allowance) = tt
authority_row-AreShaped base under position (plan_updated plan status end pullers) = tt
authority_row-AreShaped base under position (authority_closed owner authority) =
    closed_rows-AreShaped base position authority (under owner authority)

authority_rows-AreShaped :
    (base : Base) (under : String → String → List String) (es : List IndexedEvent)
    → All IsShaped (authority_rows base under es)
unfolding authority_rows
authority_rows-AreShaped base under [] = tt
authority_rows-AreShaped base under (e ∷ es) =
    All-append IsShaped (authority_row base under e.position e.body) (authority_rows base under es)
      (authority_row-AreShaped base under e.position e.body)
      (authority_rows-AreShaped base under es)

pub pending-AreShaped :
    (find : String → String → String) (db : Database) (decoded : DecodedTransaction) (now : ℕ)
    (rows : List (String × Allowance))
    → All IsShaped (pending find db decoded now rows)
unfolding pending
pending-AreShaped find db decoded now rows =
    let base = base_of find decoded now in
    let labelled = paused_among rows (rejected_pdas decoded.events) in
    All-append IsShaped (direct_rows base labelled decoded.events)
      (authority_rows base (under find db) decoded.events)
      (direct_rows-AreShaped base labelled decoded.events)
      (authority_rows-AreShaped base (under find db) decoded.events)

-- What was accepted is lawful.
pub accepted-AreLawful :
    (p : EventRow → Bool) (rows : List EventRow)
    → All IsShaped rows
    → all_of (λ row. is_amount row.amount) (filter p rows) ≡ true
    → All IsLawful (filter p rows)
accepted-AreLawful p [] h a = tt
accepted-AreLawful p (row ∷ rows) (h, hs) a = elim (Bool-cases (p row)) [
  | inl kept ↦
      let both : is_amount row.amount && all_of (λ r. is_amount r.amount) (filter p rows) ≡ true =
        rw kept at a in
      rw kept (ground (arith, h, both), accepted-AreLawful p rows hs (ground (arith, both)))
  | inr left ↦ rw left (accepted-AreLawful p rows hs (rw left at a))
]

-- A late reason is given to refusals only.
pub backfill_row-IsLawful :
    (allowances : List (String × Allowance)) (row : EventRow)
    → IsLawful row
    → IsLawful (backfill_row allowances row)
unfolding backfill_row
backfill_row-IsLawful allowances row h = ground arith
