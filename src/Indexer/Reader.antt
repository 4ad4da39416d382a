-- ===== src/Indexer/Reader.antt =====
-- apps/indexer/src/subscribe.ts: the delays of reconnecting, the signatures that were seen lately,
-- and how one transaction is read. The node's answers and the decoding are parameters.
pub mod Paging
pub mod Attempts
pub mod Recent
use cancel_chain.Common.{
  ℕ, zero, suc, ◌+◌, ◌-◌, ◌*◌, ◌^◌, String, Bool, true, false, Option, none, some, List, [], ◌∷◌,
  ◌++◌, ltb, leb, if◌then◌else◌, length, includes, str_eq, or_else, filter, not, Result, ok, throw,
}
use cancel_chain.Common.Dict.{get, set, delete}

pub record SignatureInfo : Type 0 where
  pub signature : String
  pub slot : ℕ

abbrev pub min : ℕ → ℕ → ℕ
min a b = if leb a b then a else b

-- `reconnectDelayMs`; the difference stops at 0.
unfoldable pub reconnect_delay_ms : ℕ → ℕ
reconnect_delay_ms attempt = min 30_000 (1_000 * 2 ^ (attempt - 1))

abbrev pub transaction_fetch_attempts : ℕ
transaction_fetch_attempts = 10

abbrev pub read_attempts : ℕ
read_attempts = 3

abbrev pub catch_up_page : ℕ
catch_up_page = 1_000

abbrev pub catch_up_max_pages : ℕ
catch_up_max_pages = 10

-- `RecentSignatures`: the order of their coming, and the set of them.
pub record RecentSignatures : Type 0 where
  pub capacity : ℕ
  pub order : List String
  pub members : List String

unfoldable pub has : RecentSignatures → String → Bool
has r signature = includes r.members signature

abbrev pub without : String → List String → List String
without x = filter (λ y. not (str_eq x y))

-- `order.shift()` where there are more than fit.
unfoldable pub trim : RecentSignatures → List String → RecentSignatures
trim r [] = r
trim r (oldest ∷ order) =
    if ltb r.capacity (length (oldest ∷ order))
    then record r { order = order; members = without oldest r.members }
    else r

unfoldable pub add : RecentSignatures → String → RecentSignatures
add r signature =
    let grown = record r {
      order = r.order ++ (signature ∷ []);
      members = r.members ++ (signature ∷ []);
    } in
    if has r signature then r else trim grown grown.order

-- What reading may throw: the node refused, or anything else.
pub data Fault : Type 0 where
  transport other : Fault

pub data ReadResult (D : Type 0) : Type 0 where
  decoded : D → ReadResult D
  skipped : ReadResult D

module _ {T D : Type 0} (decode : T → Result Fault D) where
  -- The attempts that are left, and the node's answer to each.
  unfoldable pub fetch_attempts : ℕ → (ℕ → Result Fault (Option T)) → Result Fault (Option T)
  fetch_attempts zero answer = ok none
  fetch_attempts (suc n) answer = elim (answer n) [
    | throw e ↦ throw e
    | ok (some tx) ↦ ok (some tx)
    | ok none ↦ fetch_attempts n answer
  ]

  unfoldable pub fetch_transaction : (ℕ → Result Fault (Option T)) → Result Fault (Option T)
  fetch_transaction answer = fetch_attempts transaction_fetch_attempts answer

  -- `none` is a transaction that no attempt was served.
  abbrev decoded_of : Option T → Result Fault (ReadResult D)
  decoded_of none = ok skipped
  decoded_of (some tx) = elim (decode tx) [ ok d ↦ ok (decoded d) | throw e ↦ throw e ]

  abbrev pub attempt_read : Result Fault (Option T) → Result Fault (ReadResult D)
  attempt_read (throw e) = throw e
  attempt_read (ok tx) = decoded_of tx

  -- Tried again later, or given up.
  abbrev pub failed_read :
      List (String × ℕ) → String → ℕ → Bool → List (String × ℕ) × Result Fault (ReadResult D)
  failed_read failures signature count true = (set signature count failures, throw other)
  failed_read failures signature count false = (delete signature failures, ok skipped)

  -- The counts of failed readings, and what the reading comes to. A refusal by the node is never
  -- counted.
  unfoldable pub settle_read :
      List (String × ℕ)
      → String
      → Result Fault (ReadResult D)
      → List (String × ℕ) × Result Fault (ReadResult D)
  settle_read failures signature (ok result) = (delete signature failures, ok result)
  settle_read failures signature (throw transport) = (failures, throw transport)
  settle_read failures signature (throw other) =
      let count = suc (or_else (get signature failures) 0) in
      failed_read failures signature count (ltb count read_attempts)

  unfoldable pub read :
      List (String × ℕ)
      → SignatureInfo
      → (ℕ → Result Fault (Option T))
      → List (String × ℕ) × Result Fault (ReadResult D)
  read failures item answer =
      settle_read failures item.signature (attempt_read (fetch_transaction answer))
