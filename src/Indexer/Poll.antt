-- ===== src/Indexer/Poll.antt =====
-- apps/indexer/src/poll.ts: the poller of watched wallets. What is stored is a parameter `S`; the
-- clock and the node's answers are fixed while one wallet is polled, those about a transaction may
-- change.
pub mod Told
pub mod Addresses
pub mod Kept
pub mod Gathered
pub mod Reads
pub mod Covered
use cancel_chain.Common.{
  ℕ, zero, suc, ◌+◌, ◌-◌, ◌*◌, ◌/◌, String, Bool, true, false, not, ◌&&◌, ◌||◌, Option, none, some,
  List, [], ◌∷◌, ◌++◌, map, ltb, leb, if◌then◌else◌, length, filter, includes, Result, ok, throw,
  ◌>>=◌,
}
use cancel_chain.Common.Int.{ℤ, pos, ◌-ℤ◌, leb_ℤ}
use cancel_chain.Common.Dict.{get, set}
use cancel_chain.Chain.Read.Plans.{distinct, values}
use cancel_chain.Indexer.Reader.{
  SignatureInfo, Fault, transport, other, ReadResult, decoded, skipped, read, reconnect_delay_ms,
  catch_up_page, catch_up_max_pages,
}

-- `blockTime` is in seconds.
pub record PolledSignature : Type 0 where
  pub info : SignatureInfo
  pub block_time : Option ℤ

pub record Permission : Type 0 where
  pub pda : String
  pub mint : String

-- The database behind `WalletBook` and the variables of `runWalletPoller`; `log` are the signatures
-- whose reading ended.
pub record Poller (S : Type 0) : Type 0 where
  pub store : S
  pub cursors : List (String × SignatureInfo)
  pub synced_at : List (String × ℕ)
  pub read_failures : List (String × ℕ)
  pub turn : ℕ
  pub log : List String

-- Where a permission has no cursor, its history starts with what the feed keeps.
unfoldable pub cut_of : Option SignatureInfo → Option ℕ → ℕ → Option ℤ
cut_of (some from) retention_days now = none
cut_of none none now = none
cut_of none (some days) now = some (pos (now / 1000) -ℤ pos (days * 24 * 60 * 60))

unfoldable pub is_kept : Option ℤ → PolledSignature → Bool
is_kept none item = true
is_kept (some cut) item = elim item.block_time [ none ↦ true | some time ↦ leb_ℤ cut time ]

abbrev pub last_of : List PolledSignature → Option String
last_of [] = none
last_of (x ∷ []) = some x.info.signature
last_of (x ∷ y ∷ xs) = last_of (y ∷ xs)

-- The loop of `collect`, with the pages that are left.
unfoldable pub collect_pages :
    (Option String → Result Fault (List PolledSignature))
    → Option ℤ
    → ℕ
    → Option String
    → List PolledSignature
    → Result Fault (List PolledSignature)
collect_pages page cut zero before items = ok items
collect_pages page cut (suc n) before items = page before >>= (λ batch.
    let kept = filter (is_kept cut) batch in
    elim (ltb (length batch) catch_up_page || ltb (length kept) (length batch)) [
      | true ↦ ok (items ++ kept)
      | false ↦ collect_pages page cut n (last_of batch) (items ++ kept)
    ])

abbrev pub moved :
    String
    → SignatureInfo
    → List (String × SignatureInfo)
    → Option SignatureInfo
    → List (String × SignatureInfo)
moved address to cursors none = set address to cursors
moved address to cursors (some stored) =
    if leb stored.slot to.slot then set address to cursors else cursors

-- `setWhere`: a cursor does not go back.
unfoldable pub advance :
    String → SignatureInfo → List (String × SignatureInfo) → List (String × SignatureInfo)
advance address to cursors = moved address to cursors (get address cursors)

unfoldable pub advance_all :
    List (String × SignatureInfo) → List (String × SignatureInfo) → List (String × SignatureInfo)
advance_all [] cursors = cursors
advance_all ((address, head) ∷ heads) cursors = advance_all heads (advance address head cursors)

-- `synced`, for a wallet whose row is there.
unfoldable pub mark_synced : String → ℕ → List (String × ℕ) → List (String × ℕ)
mark_synced owner at synced_at = elim (get owner synced_at) [
  | none ↦ set owner at synced_at
  | some before ↦ if ltb before at then set owner at synced_at else synced_at
]

-- `sort` by the slot, which keeps the order of equal ones.
unfoldable pub insert_by_slot : PolledSignature → List PolledSignature → List PolledSignature
insert_by_slot x [] = x ∷ []
insert_by_slot x (y ∷ ys) =
    let later = insert_by_slot x ys in if leb x.info.slot y.info.slot then x ∷ y ∷ ys else y ∷ later

unfoldable pub sort_by_slot : List PolledSignature → List PolledSignature
sort_by_slot [] = []
sort_by_slot (x ∷ xs) = insert_by_slot x (sort_by_slot xs)

-- `heads` and `found`
pub record Found : Type 0 where
  pub heads : List (String × SignatureInfo)
  pub found : List (String × PolledSignature)

abbrev pub head_of :
    String → List PolledSignature → List (String × SignatureInfo) → List (String × SignatureInfo)
head_of address [] heads = heads
head_of address (newest ∷ items) heads = set address newest.info heads

unfoldable pub find_all :
    List PolledSignature → List (String × PolledSignature) → List (String × PolledSignature)
find_all [] found = found
find_all (x ∷ xs) found = find_all xs (set x.info.signature x found)

-- How the reading of a wallet's transactions ends.
pub data Ended : Type 0 where
  finished aborted : Ended
  failed : Fault → Ended

abbrev pub and_then :
    {S : Type 0} → Poller S × Option Fault → (Poller S → Poller S × Ended) → Poller S × Ended
and_then (p, none) k = k p
and_then (p, some e) k = (p, failed e)

-- `RunWalletPollerOptions`, and the derivation of an authority.
pub record PollerOptions (T D S : Type 0) : Type 0 where
  pub decode : T → Result Fault D
  pub transaction : ℕ → String → ℕ → Result Fault (Option T)
  pub sink : S → D → Result Fault S
  pub refresh : S → String → Result Fault S
  pub permissions : S → String → List Permission
  pub find_subscription_authority : String → String → String
  pub settlement_mint : String
  pub retention_days : Option ℕ
  pub signatures_for : String → Option String → Option String → Result Fault (List PolledSignature)

module _ {T D S : Type 0} (o : PollerOptions T D S) where
  unfoldable pub collect : ℕ → String → Option SignatureInfo → Result Fault (List PolledSignature)
  collect now address from =
      collect_pages (o.signatures_for address (until_of from)) (cut_of from o.retention_days now)
        catch_up_max_pages none []
    where
      until_of : Option SignatureInfo → Option String
      until_of none = none
      until_of (some c) = some c.signature

  unfoldable pub addresses_of : S → String → List String
  addresses_of s owner =
      let held = o.permissions s owner in
      let mints = distinct [] (o.settlement_mint ∷ map (λ p. p.mint) held) in
      distinct []
        (map (λ mint. o.find_subscription_authority owner mint) mints ++ map (λ p. p.pda) held)

  -- The loop over the addresses, each from its cursor.
  unfoldable pub gather :
      ℕ → List (String × SignatureInfo) → List String → Found → Result Fault Found
  gather now cursors [] f = ok f
  gather now cursors (address ∷ addresses) f = do
    items ← collect now address (get address cursors)
    gather now cursors addresses
        (record { heads = head_of address items f.heads; found = find_all items f.found })

  abbrev pub sunk : Poller S → String → Result Fault S → Poller S × Option Fault
  sunk p signature (ok s) = (record p { store = s; log = p.log ++ (signature ∷ []) }, none)
  sunk p signature (throw e) = (p, some e)

  abbrev pub read_end : Poller S → String → Result Fault (ReadResult D) → Poller S × Option Fault
  read_end p signature (ok (decoded d)) = sunk p signature (o.sink p.store d)
  read_end p signature (ok skipped) = (record p { log = p.log ++ (signature ∷ []) }, none)
  read_end p signature (throw e) = (p, some e)

  abbrev pub read_item :
      Poller S → String → List (String × ℕ) × Result Fault (ReadResult D) → Poller S × Option Fault
  read_item p signature (failures, result) =
      read_end (record p { read_failures = failures; turn = suc p.turn }) signature result

  unfoldable pub read_one : Poller S → PolledSignature → Poller S × Option Fault
  read_one p item =
      read_item p item.info.signature
        (read o.decode p.read_failures item.info (o.transaction p.turn item.info.signature))

  unfoldable pub read_all : (ℕ → Bool) → Poller S → List PolledSignature → Poller S × Ended
  read_all stop p [] = (p, finished)
  read_all stop p (x ∷ xs) =
      if stop (length xs) then (p, aborted) else and_then (read_one p x) (λ q. read_all stop q xs)

  -- The cursors move only once everything that was found is read.
  abbrev pub settle : Found → String → ℕ → Poller S × Ended → Poller S × Result Fault ℕ
  settle f owner started_at (p, finished) = (
    record p {
      cursors = advance_all f.heads p.cursors;
      synced_at = mark_synced owner started_at p.synced_at;
    },
    ok (length f.found),
  )
  settle f owner started_at (p, aborted) = (p, ok 0)
  settle f owner started_at (p, failed e) = (p, throw e)

  abbrev pub poll_found :
      (ℕ → Bool) → Poller S → String → ℕ → Result Fault Found → Poller S × Result Fault ℕ
  poll_found stop p owner now (throw e) = (p, throw e)
  poll_found stop p owner now (ok f) =
      settle f owner now (read_all stop p (sort_by_slot (values f.found)))

  abbrev pub poll_refreshed :
      (ℕ → Bool) → Poller S → String → ℕ → Result Fault S → Poller S × Result Fault ℕ
  poll_refreshed stop p owner now (throw e) = (p, throw e)
  poll_refreshed stop p owner now (ok s) =
      poll_found stop (record p { store = s }) owner now
        (gather now p.cursors (addresses_of s owner) (record { heads = []; found = [] }))

  -- `pollWallet`; a wallet that is not known yet is read from the network first.
  unfoldable pub poll_wallet : (ℕ → Bool) → Poller S → Bool → String → ℕ → Poller S × Result Fault ℕ
  poll_wallet stop p known owner now =
      poll_refreshed stop p owner now (if known then ok p.store else o.refresh p.store owner)
