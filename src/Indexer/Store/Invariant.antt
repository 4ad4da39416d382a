-- ===== src/Indexer/Store/Invariant.antt =====
-- apps/indexer/src/store.ts: the shape of the tables around a write.
use cancel_chain.Common.{
  ℕ, ◌≡◌, refl, subst, ◌∙◌, String, Bool, true, false, ◌||◌, Option, none, some, List, [], ◌∷◌,
  ◌++◌, arith, filter, any, All, All-append, eq_iff, Option-cases, Bool-cases, inl, inr,
}
use cancel_chain.Common.Dict.{get, has, get-set}
use cancel_chain.Shared.Allowance.{Allowance}
use cancel_chain.Chain.Read.Wallet.{AllowanceReadOne}
use cancel_chain.Indexer.Decode.Transaction.{DecodedTransaction}
use cancel_chain.Indexer.Store.{
  Database, EventRow, new_row, upsert_row, upsert_allowance, closed_row, close_stored, mark_closed,
  same_key, insert_event, insert_events,
}
use cancel_chain.Indexer.Store.Lawful.{IsLawful, accepted-AreLawful, pending-AreShaped}
use cancel_chain.Indexer.Store.Write.{
  ChainState, open_at, closed_at, unreadable_for, apply_state, apply_states, is_tracked, pending,
  accepts, commit, chain_states, to_read, write, WriteResult,
}

abbrev Rows : Type 0
Rows = List (String × Allowance)

symm : (a b : EventRow) → same_key a b ≡ same_key b a
symm a b = ground (
  arith,
  eq_iff a.signature b.signature,
  eq_iff b.signature a.signature,
  eq_iff a.allowance_pda b.allowance_pda,
  eq_iff b.allowance_pda a.allowance_pda,
)

-- No two rows of the feed share signature, position and permission.
abbrev pub AreUnique : List EventRow → Type 0
AreUnique [] = Unit
AreUnique (row ∷ rows) = (any (same_key row) rows ≡ false) × AreUnique rows

any-append :
    (p : EventRow → Bool) (xs : List EventRow) (y : EventRow)
    → any p (xs ++ (y ∷ [])) ≡ (any p xs || p y)
any-append p [] y = ground arith
any-append p (x ∷ xs) y = ground (arith, any-append p xs y)

append-AreUnique :
    (rows : List EventRow) (row : EventRow)
    → any (same_key row) rows ≡ false
    → AreUnique rows
    → AreUnique (rows ++ (row ∷ []))
append-AreUnique [] row new h = (refl, tt)
append-AreUnique (r ∷ rows) row new (first, h) =
    let other : same_key row r ≡ false = ground arith in
    let rest : any (same_key row) rows ≡ false = ground arith in
    (
      any-append (same_key r) rows row ∙ ground (arith, first, symm r row, other),
      append-AreUnique rows row rest h,
    )

insert_event-AreUnique :
    (rows : List EventRow) (row : EventRow) → AreUnique rows → AreUnique (insert_event rows row).0
unfolding insert_event
insert_event-AreUnique rows row h = elim (Bool-cases (any (same_key row) rows)) [
  | inl old ↦ rw old h
  | inr new ↦ rw new (append-AreUnique rows row new h)
]

insert_events-AreUnique :
    (rows more : List EventRow) → AreUnique rows → AreUnique (insert_events rows more).0
unfolding insert_events
insert_events-AreUnique rows [] h = h
insert_events-AreUnique rows (row ∷ more) h =
    insert_events-AreUnique (insert_event rows row).0 more (insert_event-AreUnique rows row h)

module _ {κ} (P : EventRow → Type κ) where
  insert_event-All :
      (rows : List EventRow) (row : EventRow) → P row → All P rows → All P (insert_event rows row).0
  unfolding insert_event
  insert_event-All rows row p h = elim (Bool-cases (any (same_key row) rows)) [
    | inl old ↦ rw old h
    | inr new ↦ rw new (All-append P rows (row ∷ []) h (p, tt))
  ]

  insert_events-All :
      (rows more : List EventRow) → All P more → All P rows → All P (insert_events rows more).0
  unfolding insert_events
  insert_events-All rows [] p h = h
  insert_events-All rows (row ∷ more) (p, ps) h =
      insert_events-All (insert_event rows row).0 more ps (insert_event-All rows row p h)

filter-All : (p : EventRow → Bool) (rows : List EventRow) → All (λ r. p r ≡ true) (filter p rows)
filter-All p [] = tt
filter-All p (row ∷ rows) = elim (Bool-cases (p row)) [
  | inl kept ↦ rw kept (kept, filter-All p rows)
  | inr left ↦ rw left (filter-All p rows)
]

pub map-All :
    {P Q : EventRow → Type 0} (rows : List EventRow)
    → ((r : EventRow) → P r → Q r)
    → All P rows
    → All Q rows
map-All [] f h = tt
map-All (row ∷ rows) f (p, h) = (f row p, map-All rows f h)

close_stored-has :
    (now : ℕ) (rows : Rows) (pda other : String) (slot : ℕ) (o : Option Allowance)
    → has other rows ≡ true
    → has other (close_stored rows pda slot now o) ≡ true
close_stored-has now rows pda other slot none h = h
close_stored-has now rows pda other slot (some stored) h =
    ground (arith, h, get-set pda other (closed_row stored slot now) rows)

-- Reading the network never takes a permission out of the table.
apply_state-has :
    (now : ℕ) (rows : Rows) (pda other : String) (state : ChainState)
    → has other rows ≡ true
    → has other (apply_state now rows pda state) ≡ true
unfolding upsert_allowance mark_closed
apply_state-has now rows pda other (open_at slot a) h =
    ground (arith, h, get-set a.pda other (upsert_row (get a.pda rows) (new_row a slot)) rows)
apply_state-has now rows pda other (closed_at slot) h =
    close_stored-has now rows pda other slot (get pda rows) h
apply_state-has now rows pda other (unreadable_for reason) h = h

apply_states-has :
    (now : ℕ) (rows : Rows) (other : String) (states : List (String × ChainState))
    → has other rows ≡ true
    → has other (apply_states now rows states) ≡ true
unfolding apply_states
apply_states-has now rows other [] h = h
apply_states-has now rows other ((pda, state) ∷ states) h =
    apply_states-has now (apply_state now rows pda state) other states
      (apply_state-has now rows pda other state h)

-- The feed names only permissions that are stored, no event twice, and has rows that its table
-- accepts.
pub record IsSound (db : Database) : Type 0 where
  pub tracked : All (λ r. has r.allowance_pda db.allowances ≡ true) db.events
  pub unique : AreUnique db.events
  pub lawful : All IsLawful db.events

pub commit-IsSound :
    (find_subscription_authority : String → String → String) (db : Database)
    (decoded : DecodedTransaction) (program_cursor : Bool) (now : ℕ)
    (states : List (String × ChainState))
    → accepts find_subscription_authority db decoded now states ≡ true
    → IsSound db
    → IsSound (commit find_subscription_authority db decoded program_cursor now states).0
unfolding commit accepts
commit-IsSound find db decoded program_cursor now states accepted h =
    let rows = apply_states now db.allowances states in
    let fresh = filter (is_tracked rows) (pending find db decoded now rows) in
    record {
      tracked =
          insert_events-All (λ r. has r.allowance_pda rows ≡ true) db.events fresh
            (filter-All (is_tracked rows) (pending find db decoded now rows))
            (map-All db.events
              (λ r known. apply_states-has now db.allowances r.allowance_pda states known)
              h.tracked);
      unique = insert_events-AreUnique db.events fresh h.unique;
      lawful =
          insert_events-All IsLawful db.events fresh
            (accepted-AreLawful (is_tracked rows) (pending find db decoded now rows)
              (pending-AreShaped find db decoded now rows) (ground (arith, accepted)))
            h.lawful;
    }

-- Every write of a transaction that ends leaves sound tables sound, whatever the network answers and
-- whichever events the transaction has: no event is stored twice, each row of the feed belongs to a
-- stored permission, its amount fits 64 bits, and its reason and stop date are such as the table
-- accepts.
pub write-IsSound :
    (find_subscription_authority : String → String → String)
    (read : String → Option AllowanceReadOne) (db after : Database) (decoded : DecodedTransaction)
    (program_cursor : Bool) (now : ℕ) (result : WriteResult)
    → IsSound db
    → write find_subscription_authority read db decoded program_cursor now ≡ some (after, result)
    → IsSound after
unfolding write
write-IsSound find read db after decoded program_cursor now result h e =
    elim (Option-cases (chain_states read (to_read find db decoded))) [
      | inl failed ↦ absurd (ground (arith, e, failed))
      | inr (states, is) ↦ elim (Bool-cases (accepts find db decoded now states)) [
        | inr refused ↦ absurd (ground (arith, e, is, refused))
        | inl accepted ↦
            let wrote = commit find db decoded program_cursor now states in
            let same : wrote.0 ≡ after = ground (arith, e, is, accepted) in
            subst IsSound same (commit-IsSound find db decoded program_cursor now states accepted h)
      ]
    ]
