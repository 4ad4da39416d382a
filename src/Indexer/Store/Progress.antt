-- ===== src/Indexer/Store/Progress.antt =====
-- apps/indexer/src/store.ts: the cache, the cursor and the feed over time.
use cancel_chain.Common.{
  ℕ, ◌≤◌, ◌≡◌, refl, sym, ap, ◌∙◌, String, Bool, true, false, Option, none, some, List, [], ◌∷◌,
  ◌++◌, arith, any, leb, eq_iff, Bool-cases, inl, inr, All,
}
use cancel_chain.Common.Dict.{get, get-set}
use cancel_chain.Shared.Allowance.{Allowance}
use cancel_chain.Shared.Allowance.WellFormed.{IsWellFormed}
use cancel_chain.Indexer.Store.{
  Database, EventRow, Cursor, new_row, upsert_row, upsert_allowance, closed_row, close_stored,
  mark_closed, same_key, insert_event, insert_events, move_cursor,
}
use cancel_chain.Indexer.Decode.Transaction.{DecodedTransaction}
use cancel_chain.Indexer.Store.Write.{
  ChainState, open_at, closed_at, unreadable_for, apply_state, apply_states, commit,
}

-- What a permission read from the network is: well formed, with no pause of ours.
pub record IsRead (a : Allowance) : Type 0 where
  pub shape : IsWellFormed a
  pub unpaused : a.paused_at ≡ none

-- A well-formed row that meets a read of the same kind, which is well formed and without a pause
-- of ours, stays well formed, whichever of the two is older.
pub upsert_row-IsWellFormed :
    (stored a : Allowance) (slot : ℕ)
    → stored.kind ≡ a.kind
    → IsWellFormed stored
    → IsRead a
    → IsWellFormed (upsert_row (some stored) (new_row a slot))
unfolding upsert_row
upsert_row-IsWellFormed stored a slot same h r = elim (Bool-cases (leb stored.last_slot slot)) [
  | inr older ↦ rw older h
  | inl newer ↦ rw newer (record {
    has_period = r.shape.has_period;
    start_needs_period = r.shape.start_needs_period;
    pause_of_subscription = ground (arith, same, h.pause_of_subscription);
    end_of_subscription = r.shape.end_of_subscription;
    pause_is_status = ground (arith, h.pause_is_status, r.shape.pause_is_status, r.unpaused);
  })
]

-- The slot of a permission's row, `0` where there is none.
abbrev pub slot_of : Option Allowance → ℕ
slot_of none = 0
slot_of (some a) = a.last_slot

upsert_row-slot : (o : Option Allowance) (a : Allowance) → slot_of o ≤ (upsert_row o a).last_slot
unfolding upsert_row
upsert_row-slot none a = omega arith
upsert_row-slot (some stored) a = ground arith

close_stored-slot :
    (rows : List (String × Allowance)) (pda other : String) (slot now : ℕ) (o : Option Allowance)
    → get pda rows ≡ o
    → slot_of (get other rows) ≤ slot_of (get other (close_stored rows pda slot now o))
close_stored-slot rows pda other slot now none is = omega arith
close_stored-slot rows pda other slot now (some stored) is =
    ground (arith, is, eq_iff pda other, get-set pda other (closed_row stored slot now) rows)

apply_state-slot :
    (now : ℕ) (rows : List (String × Allowance)) (pda other : String) (state : ChainState)
    → slot_of (get other rows) ≤ slot_of (get other (apply_state now rows pda state))
unfolding upsert_allowance mark_closed
apply_state-slot now rows pda other (open_at slot a) = ground (
  arith,
  eq_iff a.pda other,
  upsert_row-slot (get a.pda rows) (new_row a slot),
  get-set a.pda other (upsert_row (get a.pda rows) (new_row a slot)) rows,
)
apply_state-slot now rows pda other (closed_at slot) =
    close_stored-slot rows pda other slot now (get pda rows) refl
apply_state-slot now rows pda other (unreadable_for reason) = omega arith

apply_states-slot :
    (now : ℕ) (rows : List (String × Allowance)) (other : String)
    (states : List (String × ChainState))
    → slot_of (get other rows) ≤ slot_of (get other (apply_states now rows states))
unfolding apply_states
apply_states-slot now rows other [] = omega arith
apply_states-slot now rows other ((pda, state) ∷ states) = omega (
  arith,
  apply_state-slot now rows pda other state,
  apply_states-slot now (apply_state now rows pda state) other states,
)

abbrev pub cursor_slot : Option Cursor → ℕ
cursor_slot none = 0
cursor_slot (some c) = c.last_slot

move_cursor-forward :
    (o : Option Cursor) (signature : String) (slot : ℕ)
    → cursor_slot o ≤ cursor_slot (move_cursor o signature slot)
unfolding move_cursor
move_cursor-forward none signature slot = omega arith
move_cursor-forward (some c) signature slot = ground arith

append_nil : (xs : List EventRow) → xs ++ [] ≡ xs
append_nil [] = refl
append_nil (x ∷ xs) = ap (λ r. x ∷ r) (append_nil xs)

append_assoc : (xs ys zs : List EventRow) → (xs ++ ys) ++ zs ≡ xs ++ (ys ++ zs)
append_assoc [] ys zs = refl
append_assoc (x ∷ xs) ys zs = ap (λ r. x ∷ r) (append_assoc xs ys zs)

any-left : (p : EventRow → Bool) (xs ys : List EventRow) → any p xs ≡ true → any p (xs ++ ys) ≡ true
any-left p [] ys h = absurd (ground arith)
any-left p (x ∷ xs) ys h = ground (arith, any-left p xs ys)

any-right :
    (p : EventRow → Bool) (xs ys : List EventRow) → any p ys ≡ true → any p (xs ++ ys) ≡ true
any-right p [] ys h = h
any-right p (x ∷ xs) ys h = ground (arith, any-right p xs ys)

-- The feed after some inserts begins with the feed before.
insert_events-grows :
    (rows more : List EventRow)
    → (tail : List EventRow) × ((insert_events rows more).0 ≡ rows ++ tail)
unfolding insert_events insert_event
insert_events-grows rows [] = ([], sym (append_nil rows))
insert_events-grows rows (row ∷ more) = elim (Bool-cases (any (same_key row) rows)) [
  | inl old ↦ let (tail, is) = insert_events-grows rows more in (tail, rw old is)
  | inr new ↦
      let (tail, is) = insert_events-grows (rows ++ (row ∷ [])) more in
      (row ∷ tail, rw new (is ∙ append_assoc rows (row ∷ []) tail))
]

-- A write never takes a permission's row, the cursor or the feed back: no row's slot and not the
-- cursor's slot decreases, and what is in the feed stays there in its order.
pub commit-forward :
    (find_subscription_authority : String → String → String) (db : Database)
    (decoded : DecodedTransaction) (program_cursor : Bool) (now : ℕ)
    (states : List (String × ChainState)) (pda : String)
    → let after = (commit find_subscription_authority db decoded program_cursor now states).0 in
      (slot_of (get pda db.allowances) ≤ slot_of (get pda after.allowances))
      × (cursor_slot db.cursor ≤ cursor_slot after.cursor)
      × ((tail : List EventRow) × (after.events ≡ db.events ++ tail))
unfolding commit
commit-forward find db decoded true now states pda = (
  apply_states-slot now db.allowances pda states,
  move_cursor-forward db.cursor decoded.signature decoded.slot,
  insert_events-grows db.events _,
)
commit-forward find db decoded false now states pda =
    (apply_states-slot now db.allowances pda states, omega arith, insert_events-grows db.events _)

-- What is stored is known.
known_after :
    (rows : List EventRow) (more : List EventRow) (row : EventRow)
    → any (same_key row) rows ≡ true
    → any (same_key row) (insert_events rows more).0 ≡ true
known_after rows more row h =
    let (tail, is) = insert_events-grows rows more in rw is (any-left (same_key row) rows tail h)

same_key_refl : (row : EventRow) → same_key row row ≡ true
same_key_refl row =
    ground (arith, eq_iff row.signature row.signature, eq_iff row.allowance_pda row.allowance_pda)

insert_event-known :
    (rows : List EventRow) (row : EventRow) → any (same_key row) (insert_event rows row).0 ≡ true
unfolding insert_event
insert_event-known rows row = elim (Bool-cases (any (same_key row) rows)) [
  | inl old ↦ rw old old
  | inr new ↦ rw new (any-right (same_key row) rows (row ∷ []) (ground (arith, same_key_refl row)))
]

insert_events-known :
    (rows more : List EventRow)
    → All (λ row. any (same_key row) (insert_events rows more).0 ≡ true) more
unfolding insert_events insert_event
insert_events-known rows [] = tt
insert_events-known rows (row ∷ more) = (
  known_after (insert_event rows row).0 more row (insert_event-known rows row),
  insert_events-known (insert_event rows row).0 more,
)

insert-known :
    (rows more : List EventRow)
    → All (λ row. any (same_key row) rows ≡ true) more
    → insert_events rows more ≡ (rows, 0)
unfolding insert_events insert_event
insert-known rows [] h = refl
insert-known rows (row ∷ more) (old, h) = rw (old, insert-known rows more h) refl

-- Inserting the rows of a transaction again changes nothing and counts none of them.
pub insert_events-twice :
    (rows more : List EventRow)
    → insert_events (insert_events rows more).0 more ≡ ((insert_events rows more).0, 0)
insert_events-twice rows more =
    insert-known (insert_events rows more).0 more (insert_events-known rows more)
